-- ===== src/Modules.antt =====
-- The module loader: kernel/module/module.c and include/module.h. A header is read from the bytes of memory
-- from its address on, which are an argument; the registry of the Rust core and the code of the modules are
-- parameters. The events for the AI bridge are collected in the state, the newest first; the text that goes
-- to the serial port is left out.
use vernis_os.Prelude.{
  ℕ, ◌+◌, ◌-◌, ◌^◌, ◌%◌, List, [], ◌∷◌, ◌++◌, Option, none, some, Bool, true, false, not, ◌==◌, ◌⊎◌,
  inl, inr, ltb, leb, if◌then◌else◌, get_or, set, take, drop, replicate,
}
use vernis_os.Prelude.Bytes.{from_le, c_string}
use vernis_os.Prelude.Find.{find_index, count_if}
use vernis_os.Prelude.Words.{u32}
pub mod Table
pub mod Dylib
pub mod Libraries
mod Tests

abbrev pub mod_magic : ℕ
mod_magic = 0x4C444F4D

abbrev pub mod_version : ℕ
mod_version = 1

abbrev pub mod_max_modules : ℕ
mod_max_modules = 8

abbrev pub mod_max_exports : ℕ
mod_max_exports = 8

abbrev pub mod_name_len : ℕ
mod_name_len = 24

abbrev pub header_size : ℕ
header_size = 72

pub data ModResult : Type 0 where
  value : ℕ → ModResult
  err_inval : ModResult
  err_noslot : ModResult
  err_magic : ModResult
  err_range : ModResult
  err_notfound : ModResult

-- A result that is not negative.
abbrev pub number_of : ModResult → Option ℕ
number_of (value n) = some n
number_of err_inval = none
number_of err_noslot = none
number_of err_magic = none
number_of err_range = none
number_of err_notfound = none

pub record ModHeader : Type 0 where
  pub magic : ℕ
  pub version : ℕ
  pub fn_count : ℕ
  pub code_size : ℕ
  pub name : List ℕ
  pub fn_offsets : List ℕ

-- `name` is the string, without its terminator.
pub record ModSlot : Type 0 where
  pub in_use : Bool
  pub mid : ℕ
  pub name : List ℕ
  pub base_addr : ℕ
  pub code_size : ℕ
  pub fn_count : ℕ
  pub fn_offsets : List ℕ

pub record ModInfo : Type 0 where
  pub mid : ℕ
  pub name : List ℕ
  pub base_addr : ℕ
  pub code_size : ℕ
  pub fn_count : ℕ

-- An event of type `AI_EVT_MODULE`, with the module's name.
pub data Event : Type 0 where
  load : List ℕ → Event
  unload : List ℕ → Event

-- The registry of the Rust core.
pub record RegistryOps (R : Type 0) : Type 0 where
  pub register : R → (mid : ℕ) → (name : List ℕ) → (base_addr code_size fn_count : ℕ) → R
  pub unregister : R → ℕ → R

-- `registry` is `none` for a null pointer.
pub record Modules (R : Type 0) : Type 0 where
  pub slots : List ModSlot
  pub registry : Option R
  pub events : List Event

abbrev pub zero_slot : ModSlot
zero_slot = record {
  in_use = false;
  mid = 0;
  name = [];
  base_addr = 0;
  code_size = 0;
  fn_count = 0;
  fn_offsets = replicate 8 0;
}

-- Without the tables of dylib.c, which `dylib_init` resets.
unfoldable pub module_init : {R : Type 0} → Option R → List Event → Modules R
module_init registry events = record {
  slots = replicate mod_max_modules zero_slot;
  registry = registry;
  events = events;
}

-- The field of four bytes at place `n`.
abbrev pub word_at : List ℕ → ℕ → ℕ
word_at image n = from_le (take 4 (drop n image))

unfoldable pub parse_header : List ℕ → ModHeader
parse_header image = record {
  magic = word_at image 0;
  version = word_at image 4;
  fn_count = word_at image 8;
  code_size = word_at image 12;
  name = take 24 (drop 16 image);
  fn_offsets =
      word_at image 40
      ∷ word_at image 44
      ∷ word_at image 48
      ∷ word_at image 52
      ∷ word_at image 56
      ∷ word_at image 60
      ∷ word_at image 64
      ∷ word_at image 68
      ∷ [];
}

abbrev pub slot_at : List ModSlot → ℕ → ModSlot
slot_at slots i = get_or slots i zero_slot

abbrev pub is_free : ModSlot → Bool
is_free s = not s.in_use

-- The slot of a module. The length of the name is cut to 23, so the bytes behind its field do not matter.
unfoldable pub make_slot : ModHeader → (addr index : ℕ) → ModSlot
make_slot hdr addr index = record {
  in_use = true;
  mid = index;
  name = take 23 (c_string hdr.name);
  base_addr = addr;
  code_size = hdr.code_size;
  fn_count = hdr.fn_count;
  fn_offsets = take hdr.fn_count hdr.fn_offsets ++ replicate (8 - hdr.fn_count) 0;
}

-- The checks of `module_load`; `size_bits` is the width of `size_t`. An error, or nothing.
unfoldable pub validate : (size_bits : ℕ) → ModHeader → (size : ℕ) → Option ModResult
validate size_bits hdr size =
    if not (hdr.magic == mod_magic)
    then some err_magic
    else if not (hdr.version == mod_version)
    then some err_magic
    else if ltb mod_max_exports hdr.fn_count
    then some err_inval
    else if ltb size ((header_size + hdr.code_size) % 2 ^ size_bits)
    then some err_inval
    else none

module _ {R : Type 0} (reg : RegistryOps R) where
  abbrev pub note_loaded : Option R → ModSlot → Option R
  note_loaded none slot = none
  note_loaded (some r) slot =
      some (reg.register r slot.mid slot.name slot.base_addr slot.code_size slot.fn_count)

  abbrev pub note_unloaded : Option R → ℕ → Option R
  note_unloaded none mid = none
  note_unloaded (some r) mid = some (reg.unregister r mid)

  -- From "Find free slot" on.
  unfoldable pub place : Modules R → ModHeader → ℕ → Modules R × ModResult
  place s hdr addr = elim (find_index is_free s.slots) [
    | none ↦ (s, err_noslot)
    | some i ↦
        let slot = make_slot hdr addr i in
        (
          record {
            slots = set s.slots i slot;
            registry = note_loaded s.registry slot;
            events = load slot.name ∷ s.events;
          },
          value i,
        )
  ]

  -- `image` is what the memory holds from `addr` on.
  unfoldable pub module_load :
      (size_bits : ℕ) → Modules R → (image : List ℕ) → (addr size : ℕ) → Modules R × ModResult
  module_load size_bits s image addr size =
      if addr == 0
      then (s, err_inval)
      else if ltb size header_size
      then (s, err_inval)
      else elim (validate size_bits (parse_header image) size) [
        | some error ↦ (s, error)
        | none ↦ place s (parse_header image) addr
      ]

  unfoldable pub module_unload : Modules R → ℕ → Modules R × ModResult
  module_unload s mid =
      if leb mod_max_modules mid
      then (s, err_inval)
      else if not (slot_at s.slots mid).in_use
      then (s, err_notfound)
      else (
        record {
          slots = set s.slots mid zero_slot;
          registry = note_unloaded s.registry mid;
          events = unload (slot_at s.slots mid).name ∷ s.events;
        },
        value 0,
      )

module _ {R : Type 0} where
  unfoldable pub module_list : Modules R → ℕ
  module_list s = count_if (λ slot. slot.in_use) s.slots

  -- `run` is the effect of the code at an address: what it returns for an argument.
  unfoldable pub module_call : (run : ℕ → ℕ → ℕ) → Modules R → (mid fn_id arg : ℕ) → ModResult
  module_call run s mid fn_id arg =
      let slot = slot_at s.slots mid in
      let code_base = u32 (slot.base_addr + header_size) in
      if leb mod_max_modules mid
      then err_inval
      else if not slot.in_use
      then err_notfound
      else if leb slot.fn_count fn_id
      then err_range
      else value (run (u32 (code_base + get_or slot.fn_offsets fn_id 0)) arg)

  -- The structure that is filled in, for an `out` that is not null; or the error.
  unfoldable pub module_info : Modules R → ℕ → ModResult ⊎ ModInfo
  module_info s mid =
      let slot = slot_at s.slots mid in
      if leb mod_max_modules mid
      then inl err_inval
      else if not slot.in_use
      then inl err_notfound
      else inr (record {
        mid = slot.mid;
        name = slot.name;
        base_addr = slot.base_addr;
        code_size = slot.code_size;
        fn_count = slot.fn_count;
      })

-- What `module_info` returns, and the structure that it stores.
abbrev pub info_reply :
    {R : Type 0} → Modules R → ModResult ⊎ ModInfo → Modules R × ModResult × Option ModInfo
info_reply s (inl error) = (s, error, none)
info_reply s (inr info) = (s, value 0, some info)

-- The state, the result and what is stored through the pointer. `memory` is what the memory holds from an
-- address on.
unfoldable pub module_syscall :
    {R : Type 0}
    → RegistryOps R
    → (size_bits : ℕ) → (memory : ℕ → List ℕ) → (run : ℕ → ℕ → ℕ) → Modules R
    → (num a1 a2 a3 : ℕ) → Modules R × ModResult × Option ModInfo
module_syscall reg size_bits memory run s num a1 a2 a3 =
    let (s1, loaded) = module_load reg size_bits s (memory a1) a1 a2 in
    let (s2, unloaded) = module_unload reg s a1 in
    if num == 28
    then (s1, loaded, none)
    else if num == 29
    then (s2, unloaded, none)
    else if num == 30
    then (s, value (module_list s), none)
    else if num == 31
    then (s, module_call run s a1 a2 a3, none)
    else if num == 32
    then (if a2 == 0 then (s, err_inval, none) else info_reply s (module_info s a1))
    else (s, err_inval, none)

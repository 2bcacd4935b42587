-- ===== src/Modules/Table.antt =====
-- The table of modules: what `module_load` and `module_unload` keep, and what a call reaches.
use native.Mathlib.Decide.{ℕ_discrete}
use vernis_os.Prelude.{
  ℕ, ◌+◌, ◌-◌, ◌^◌, ◌%◌, ◌<◌, ◌≤◌, ◌≡◌, ◌≢◌, refl, sym, ◌∙◌, ap, List, [], Option, none, true,
  false, ◌==◌, ltb, leb, ◌⊎◌, inl, inr, arith, set, take, replicate, length, length-set,
  length-append, length-replicate, length-take, get_or-set_self, get_or-set_ne, get_or-replicate,
  Bool-cases, Option-cases,
}
use vernis_os.Prelude.Find.{find_index, find_index-Hit}
use vernis_os.Prelude.Bytes.{c_string}
use vernis_os.Modules.{
  Modules, ModSlot, ModHeader, ModResult, RegistryOps, slot_at, zero_slot, is_free, make_slot,
  validate, parse_header, place, module_load, module_unload, module_init, module_syscall,
  module_info, info_reply, ModInfo,
}

-- A slot in use: it has its own number, an address, and offsets for its functions.
pub record SlotOk (i : ℕ) (s : ModSlot) : Type 0 where
  pub numbered : s.mid ≡ i
  pub based : s.base_addr ≢ 0
  pub few : s.fn_count ≤ 8
  pub offsets : length s.fn_offsets ≡ 8
  pub short_name : length s.name ≤ 23

pub record SlotsOk (slots : List ModSlot) : Type 0 where
  pub size : length slots ≡ 8
  pub used : (i : ℕ) → (slot_at slots i).in_use ≡ true → SlotOk i (slot_at slots i)

set-SlotsOk :
    (slots : List ModSlot) (i : ℕ) (slot : ModSlot)
    → i < length slots
    → SlotsOk slots
    → (slot.in_use ≡ true → SlotOk i slot)
    → SlotsOk (set slots i slot)
set-SlotsOk slots i slot inside ok fine = record {
  size = length-set slots i slot ∙ ok.size;
  used = λ j in_use. elim (ℕ_discrete j i) [
    | yes e ↦
        let here : slot_at (set slots i slot) j ≡ slot =
          ap (slot_at (set slots i slot)) e ∙ get_or-set_self slots i slot zero_slot inside in
        rw (here, e) (fine (sym (ap (λ s. s.in_use) here) ∙ in_use))
    | no ne ↦
        let there : slot_at (set slots i slot) j ≡ slot_at slots j =
          get_or-set_ne slots i j slot zero_slot (λ e. ne (sym e)) in
        rw there (ok.used j (sym (ap (λ s. s.in_use) there) ∙ in_use))
  ];
}

-- A header that passes the checks.
pub record Valid (size_bits : ℕ) (hdr : ModHeader) (size : ℕ) : Type 0 where
  pub magic : (hdr.magic == 0x4C444F4D) ≡ true
  pub version : (hdr.version == 1) ≡ true
  pub few : hdr.fn_count ≤ 8
  pub whole : (72 + hdr.code_size) % 2 ^ size_bits ≤ size

pub validate-Valid :
    (size_bits : ℕ) (hdr : ModHeader) (size : ℕ)
    → validate size_bits hdr size ≡ none
    → Valid size_bits hdr size
unfolding validate
validate-Valid size_bits hdr size e = record {
  magic = ground (arith, e);
  version = ground (arith, e);
  few = ground (arith, e);
  whole = ground (arith, e);
}

pub Valid-validate :
    (size_bits : ℕ) (hdr : ModHeader) (size : ℕ)
    → Valid size_bits hdr size
    → validate size_bits hdr size ≡ none
unfolding validate
Valid-validate size_bits hdr size v =
    let few : ltb 8 hdr.fn_count ≡ false = ground (arith, v.few) in
    let whole : ltb size ((72 + hdr.code_size) % 2 ^ size_bits) ≡ false = ground (arith, v.whole) in
    rw (v.magic, v.version, few, whole) refl

make_slot-SlotOk :
    (image : List ℕ) (addr i : ℕ)
    → addr ≢ 0
    → (parse_header image).fn_count ≤ 8
    → SlotOk i (make_slot (parse_header image) addr i)
unfolding make_slot parse_header
make_slot-SlotOk image addr i based few =
    let count = (parse_header image).fn_count in
    let offsets = (parse_header image).fn_offsets in
    record {
      numbered = refl;
      based = based;
      few = few;
      offsets = omega (
        arith,
        length-append (take count offsets) (replicate (8 - count) 0),
        length-take count offsets,
        length-replicate {A = ℕ} (8 - count) 0,
        few,
      );
      short_name = omega (arith, length-take 23 (c_string (parse_header image).name));
    }

init-SlotsOk : {R : Type 0} (registry : Option R) → SlotsOk (module_init registry []).slots
unfolding module_init
init-SlotsOk registry = record {
  size = refl;
  used = λ i in_use. absurd (cc (in_use, ap (λ s. s.in_use) (get_or-replicate 8 i zero_slot)));
}

info_reply-state : {R : Type 0} (s : Modules R) (r : ModResult ⊎ ModInfo) → (info_reply s r).0 ≡ s
info_reply-state s (inl error) = refl
info_reply-state s (inr info) = refl

module _ {R : Type 0} (reg : RegistryOps R) where
  load-SlotsOk :
      (size_bits : ℕ) (s : Modules R) (image : List ℕ) (addr size : ℕ)
      → SlotsOk s.slots
      → SlotsOk (module_load reg size_bits s image addr size).0.slots
  unfolding module_load place
  load-SlotsOk size_bits s image addr size ok = elim (Bool-cases (addr == 0)) [
    | inl null ↦ rw null ok
    | inr based ↦ elim (Bool-cases (ltb size 72)) [
      | inl short ↦ rw (based, short) ok
      | inr long ↦ elim (Option-cases (validate size_bits (parse_header image) size)) [
        | inr (error, bad) ↦ rw (based, long, bad) ok
        | inl good ↦ elim (Option-cases (find_index is_free s.slots)) [
          | inl full ↦ rw (based, long, good, full, place) ok
          | inr (i, free) ↦
              let hit = find_index-Hit is_free s.slots zero_slot i free in
              let slot = make_slot (parse_header image) addr i in
              let few = (validate-Valid size_bits (parse_header image) size good).few in
              rw (based, long, good, free, place)
                (set-SlotsOk s.slots i slot hit.inside ok
                  (λ in_use. make_slot-SlotOk image addr i (ground (arith, based)) few))
        ]
      ]
    ]
  ]

  unload-SlotsOk :
      (s : Modules R) (mid : ℕ) → SlotsOk s.slots → SlotsOk (module_unload reg s mid).0.slots
  unfolding module_unload
  unload-SlotsOk s mid ok = elim (Bool-cases (leb 8 mid)) [
    | inl beyond ↦ rw beyond ok
    | inr inside ↦ elim (Bool-cases (slot_at s.slots mid).in_use) [
      | inr free ↦ rw (inside, free) ok
      | inl busy ↦
          rw (inside, busy)
            (set-SlotsOk s.slots mid zero_slot (ground (arith, inside, ok.size)) ok
              (λ in_use. absurd (cc in_use)))
    ]
  ]

  syscall-SlotsOk :
      (size_bits : ℕ) (memory : ℕ → List ℕ) (run : ℕ → ℕ → ℕ) (s : Modules R) (num a1 a2 a3 : ℕ)
      → SlotsOk s.slots
      → SlotsOk (module_syscall reg size_bits memory run s num a1 a2 a3).0.slots
  unfolding module_syscall
  syscall-SlotsOk size_bits memory run s num a1 a2 a3 ok =
      let loaded = load-SlotsOk size_bits s (memory a1) a1 a2 ok in
      let unloaded = unload-SlotsOk s a1 ok in
      elim (Bool-cases (num == 28)) [
        | inl is_load ↦ rw is_load loaded
        | inr not_load ↦ elim (Bool-cases (num == 29)) [
          | inl is_unload ↦ rw (not_load, is_unload) unloaded
          | inr not_unload ↦
              rw (not_load, not_unload)
                (elim (Bool-cases (num == 30)) [
                  | inl is_list ↦ rw is_list ok
                  | inr not_list ↦ elim (Bool-cases (num == 31)) [
                    | inl is_call ↦ rw (not_list, is_call) ok
                    | inr not_call ↦
                        rw (not_list, not_call)
                          (elim (Bool-cases (num == 32)) [
                            | inr not_info ↦ rw not_info ok
                            | inl is_info ↦ elim (Bool-cases (a2 == 0)) [
                              | inl null ↦ rw (is_info, null) ok
                              | inr there ↦
                                  rw (is_info, there, info_reply-state s (module_info s a1)) ok
                            ]
                          ])
                  ]
                ])
        ]
      ]

-- States reached from the start by system calls. What memory holds and what the code of the modules does
-- is chosen anew at every call.
pub data Reach {R : Type 0} (reg : RegistryOps R) (size_bits : ℕ) : Modules R → Type 0 where
  start : (registry : Option R) → Reach reg size_bits (module_init registry [])
  call :
      (memory : ℕ → List ℕ) (run : ℕ → ℕ → ℕ) (s : Modules R) (num a1 a2 a3 : ℕ)
      → Reach reg size_bits s
      → Reach reg size_bits (module_syscall reg size_bits memory run s num a1 a2 a3).0

-- In every state that system calls reach from the start, whatever memory holds at each of them, the table
-- has eight slots, and a slot in use has its own number, an address that is not null, a name of at most 23
-- bytes, at most eight functions and eight offsets.
pub Reach-SlotsOk :
    {R : Type 0} (reg : RegistryOps R) (size_bits : ℕ) (s : Modules R)
    → Reach reg size_bits s
    → SlotsOk s.slots
Reach-SlotsOk reg size_bits s (start registry) = init-SlotsOk registry
Reach-SlotsOk reg size_bits s (call memory run s0 num a1 a2 a3 before) =
    syscall-SlotsOk reg size_bits memory run s0 num a1 a2 a3 (Reach-SlotsOk reg size_bits s0 before)

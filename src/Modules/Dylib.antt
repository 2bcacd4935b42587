-- ===== src/Modules/Dylib.antt =====
-- Shared libraries over the module loader: kernel/module/dylib.c and include/dylib.h. What `kfs_read_file` gives
-- for a path is an argument: the bytes, at most 8192, or `none` where it returns a negative number and has
-- left the buffer alone. `storage_at` gives the 32-bit addresses of the buffers.
use vernis_os.Prelude.{
  ℕ, ◌+◌, ◌-◌, ◌*◌, List, [], ◌∷◌, ◌++◌, Option, none, some, Bool, true, false, not, ◌==◌, ltb, leb,
  ◌&&◌, if◌then◌else◌, inl, inr, get_or, set, take, drop, replicate, length,
}
use vernis_os.Prelude.Find.{find_index, count_if}
use vernis_os.Prelude.Words.{u32}
use vernis_os.Modules.{
  Modules, ModResult, RegistryOps, number_of, module_load, module_unload, module_info, module_call,
  header_size, mod_max_exports,
}

abbrev pub dylib_max_libs : ℕ
dylib_max_libs = 4

abbrev pub dylib_name_max : ℕ
dylib_name_max = 24

abbrev pub dylib_path_max : ℕ
dylib_path_max = 48

abbrev pub dylib_max_file_size : ℕ
dylib_max_file_size = 8192

-- A result, or an error of the module loader that is passed on.
pub data DylibResult : Type 0 where
  done : ℕ → DylibResult
  err_inval : DylibResult
  err_noslot : DylibResult
  err_notfound : DylibResult
  err_io : DylibResult
  err_format : DylibResult
  passed_on : ModResult → DylibResult

pub record DylibSlot : Type 0 where
  pub used : Bool
  pub handle : ℕ
  pub mid : ℕ
  pub size : ℕ
  pub name : List ℕ
  pub path : List ℕ

pub record Dylibs (R : Type 0) : Type 0 where
  pub libs : List DylibSlot
  pub next_handle : ℕ
  pub storage : List (List ℕ)
  pub modules : Modules R

abbrev pub zero_lib : DylibSlot
zero_lib = record { used = false; handle = 0; mid = 0; size = 0; name = []; path = [] }

abbrev pub zero_file : List ℕ
zero_file = replicate dylib_max_file_size 0

abbrev pub lib_at : List DylibSlot → ℕ → DylibSlot
lib_at libs i = get_or libs i zero_lib

abbrev pub has_handle : ℕ → DylibSlot → Bool
has_handle handle s = s.used && s.handle == handle

abbrev pub is_unused : DylibSlot → Bool
is_unused s = not s.used

-- The digits of a symbol behind "fn": the number, in 32 bits, and what stands behind the digits.
unfoldable pub read_digits : List ℕ → ℕ → ℕ × List ℕ
read_digits [] id = (id, [])
read_digits (c ∷ cs) id =
    let rest = read_digits cs (u32 (id * 10 + (c - b'0'))) in
    if leb b'0' c && leb c b'9' then rest else (id, c ∷ cs)

-- From the test of `symbol[i]` on: a number with the sign bit is negative, so the second half of the last test
-- covers it.
unfoldable pub function_number : List ℕ → Option ℕ
function_number [] = none
function_number (c ∷ cs) =
    let (id, rest) = read_digits (c ∷ cs) 0 in
    elim rest [ [] ↦ if leb mod_max_exports id then none else some id | d ∷ ds ↦ none ]

-- `none` for DYLIB_ERR_NOTFOUND; the symbol is `none` for NULL.
unfoldable pub dylib_symbol_to_fnid : Option (List ℕ) → Option ℕ
dylib_symbol_to_fnid none = none
dylib_symbol_to_fnid (some []) = none
dylib_symbol_to_fnid (some (f ∷ [])) = none
dylib_symbol_to_fnid (some (f ∷ n ∷ rest)) =
    if f == b'f' && n == b'n' then function_number rest else none

module _ {R : Type 0} where
  unfoldable pub dylib_init : Modules R → Dylibs R
  dylib_init modules = record {
    libs = replicate dylib_max_libs zero_lib;
    next_handle = 1;
    storage = replicate dylib_max_libs zero_file;
    modules = modules;
  }

  unfoldable pub dylib_find_handle : Dylibs R → ℕ → Option ℕ
  dylib_find_handle s handle = find_index (has_handle handle) s.libs

  -- The name of a library: the one given, cut to fit, or that of the module.
  unfoldable pub lib_name : Modules R → (mid : ℕ) → Option (List ℕ) → List ℕ
  lib_name modules mid given =
      let own : List ℕ = elim (module_info modules mid) [
        | inl error ↦ b'l' ∷ b'i' ∷ b'b' ∷ []
        | inr info ↦ take 23 info.name
      ] in
      elim given [ none ↦ own | some name ↦ elim name [ [] ↦ own | c ∷ cs ↦ take 23 (c ∷ cs) ] ]

module _ {R : Type 0} (reg : RegistryOps R) (size_bits : ℕ) (storage_at : ℕ → ℕ) where
  -- From `DylibSlot *s` on: slot `i` takes module `mid`.
  unfoldable pub enter_lib :
      Dylibs R → (i mid size : ℕ) → (path : List ℕ) → Option (List ℕ) → Dylibs R × DylibResult
  enter_lib s i mid size path name =
      let slot : DylibSlot = record {
        used = true;
        handle = s.next_handle;
        mid = mid;
        size = size;
        name = lib_name s.modules mid name;
        path = take 47 path;
      } in
      (
        record s { libs = set s.libs i slot; next_handle = u32 (s.next_handle + 1) },
        done s.next_handle,
      )

  -- From `kfs_read_file` on, with slot `i` free and `bytes` read into its buffer.
  unfoldable pub load_lib :
      Dylibs R → (i : ℕ) → (bytes path : List ℕ) → Option (List ℕ) → Dylibs R × DylibResult
  load_lib s i bytes path name =
      let stored = bytes ++ drop (length bytes) (get_or s.storage i []) in
      let s1 = record s { storage = set s.storage i stored } in
      let (modules, result) =
        module_load reg size_bits s.modules stored (storage_at i) (length bytes) in
      if length bytes == 0
      then (s, err_io)
      else if ltb (length bytes) header_size
      then (s1, err_format)
      else elim (number_of result) [
        | none ↦ (record s1 { modules = modules }, passed_on result)
        | some mid ↦ enter_lib (record s1 { modules = modules }) i mid (length bytes) path name
      ]

  -- `path` is `none` for NULL, and `file` what `kfs_read_file` gives for it.
  unfoldable pub dylib_open : Dylibs R → (path name file : Option (List ℕ)) → Dylibs R × DylibResult
  dylib_open s none name file = (s, err_inval)
  dylib_open s (some []) name file = (s, err_inval)
  dylib_open s (some (c ∷ cs)) name file = elim (find_index is_unused s.libs) [
    | none ↦ (s, err_noslot)
    | some i ↦ elim file [ none ↦ (s, err_io) | some bytes ↦ load_lib s i bytes (c ∷ cs) name ]
  ]

module _ {R : Type 0} (reg : RegistryOps R) where
  unfoldable pub dylib_close : Dylibs R → ℕ → Dylibs R × DylibResult
  dylib_close s handle = elim (dylib_find_handle s handle) [
    | none ↦ (s, err_notfound)
    | some i ↦ (
      record s {
        libs = set s.libs i zero_lib;
        storage = set s.storage i zero_file;
        modules = (module_unload reg s.modules (lib_at s.libs i).mid).0;
      },
      done 0,
    )
  ]

module _ {R : Type 0} where
  unfoldable pub dylib_list : Dylibs R → ℕ
  dylib_list s = count_if (λ l. l.used) s.libs

  -- `none` for DYLIB_ERR_NOTFOUND, the only error.
  unfoldable pub dylib_resolve : Dylibs R → ℕ → Option (List ℕ) → Option ℕ
  dylib_resolve s handle symbol = elim (dylib_find_handle s handle) [
    | none ↦ none
    | some i ↦ elim (module_info s.modules (lib_at s.libs i).mid) [
      | inl error ↦ none
      | inr info ↦ elim (dylib_symbol_to_fnid symbol) [
        | none ↦ none
        | some id ↦ if leb info.fn_count id then none else some id
      ]
    ]
  ]

  unfoldable pub dylib_call :
      (run : ℕ → ℕ → ℕ) → Dylibs R → ℕ → Option (List ℕ) → (arg : ℕ) → DylibResult
  dylib_call run s handle symbol arg = elim (dylib_find_handle s handle) [
    | none ↦ err_notfound
    | some i ↦ elim (dylib_resolve s handle symbol) [
      | none ↦ err_notfound
      | some id ↦ passed_on (module_call run s.modules (lib_at s.libs i).mid id arg)
    ]
  ]

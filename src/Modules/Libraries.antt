-- ===== src/Modules/Libraries.antt =====
-- Shared libraries: opened, called and closed.
use native.Mathlib.Decide.{ℕ_discrete}
use vernis_os.Prelude.{
  ℕ, zero, suc, ◌+◌, ◌-◌, ◌<◌, ◌≤◌, ◌≡◌, ◌≢◌, refl, sym, ◌∙◌, ap, List, [], ◌∷◌, ◌++◌, Option, none,
  some, true, false, ◌==◌, ltb, leb, inl, inr, arith, get_or, set, take, drop, replicate, length,
  length-set, length-drop, get_or-set_self, get_or-set_ne, take-append_le, drop-append_le,
  Bool-cases,
}
use vernis_os.Prelude.Find.{find_index, find_index-Hit, find_index_first, find_index-eq_none}
use vernis_os.Prelude.Bytes.{from_le, c_string}
use vernis_os.Prelude.Words.{u32}
use vernis_os.Modules.{
  Modules, ModHeader, value, RegistryOps, zero_slot, is_free, make_slot, parse_header, place,
  module_load, module_info, ModInfo, module_call, word_at, note_loaded, load,
}
use vernis_os.Modules.Table.{Valid, Valid-validate}
use vernis_os.Modules.Dylib.{
  Dylibs, DylibSlot, done, passed_on, zero_lib, lib_at, has_handle, is_unused, dylib_find_handle,
  dylib_symbol_to_fnid, dylib_open, load_lib, enter_lib, lib_name, dylib_close, dylib_resolve,
  dylib_call,
}

-- The header is in the bytes of the file.
word_at-append :
    (bytes rest : List ℕ) (n : ℕ)
    → n + 4 ≤ length bytes
    → word_at (bytes ++ rest) n ≡ word_at bytes n
word_at-append bytes rest n h =
    ap (λ l. from_le (take 4 l)) (drop-append_le n bytes rest (omega arith))
    ∙ ap from_le (take-append_le 4 (drop n bytes) rest (omega (arith, length-drop n bytes)))

pub parse_header-append :
    (bytes rest : List ℕ) → 72 ≤ length bytes → parse_header (bytes ++ rest) ≡ parse_header bytes
unfolding parse_header
parse_header-append bytes rest h =
    let word : (n : ℕ) → n + 4 ≤ 72 → word_at (bytes ++ rest) n ≡ word_at bytes n =
      λ n le. word_at-append bytes rest n (omega arith) in
    let name : take 24 (drop 16 (bytes ++ rest)) ≡ take 24 (drop 16 bytes) =
      ap (take 24) (drop-append_le 16 bytes rest (omega arith))
      ∙ take-append_le 24 (drop 16 bytes) rest (omega (arith, length-drop 16 bytes)) in
    λ i. record {
      magic = word 0 (omega arith) i;
      version = word 4 (omega arith) i;
      fn_count = word 8 (omega arith) i;
      code_size = word 12 (omega arith) i;
      name = name i;
      fn_offsets =
          word 40 (omega arith) i
          ∷ word 44 (omega arith) i
          ∷ word 48 (omega arith) i
          ∷ word 52 (omega arith) i
          ∷ word 56 (omega arith) i
          ∷ word 60 (omega arith) i
          ∷ word 64 (omega arith) i
          ∷ word 68 (omega arith) i
          ∷ [];
    }

get_or-take_append :
    (xs ys : List ℕ) (n i : ℕ)
    → i < n
    → i < length xs
    → get_or (take n xs ++ ys) i 0 ≡ get_or xs i 0
get_or-take_append [] ys n i lt inside = absurd (omega arith)
get_or-take_append (x ∷ xs) ys zero i lt inside = absurd (omega arith)
get_or-take_append (x ∷ xs) ys (suc n) zero lt inside = refl
get_or-take_append (x ∷ xs) ys (suc n) (suc i) lt inside =
    get_or-take_append xs ys n i (omega arith) (omega arith)

module _ {R : Type 0} (reg : RegistryOps R) (size_bits : ℕ) where
  -- The state after a load that found slot `m`.
  abbrev loaded : Modules R → ModHeader → (addr m : ℕ) → Modules R
  loaded s hdr addr m =
      let slot = make_slot hdr addr m in
      record {
        slots = set s.slots m slot;
        registry = note_loaded reg s.registry slot;
        events = load slot.name ∷ s.events;
      }

  load-eq :
      (s : Modules R) (image : List ℕ) (addr size m : ℕ)
      → addr ≢ 0
      → 72 ≤ size
      → Valid size_bits (parse_header image) size
      → find_index is_free s.slots ≡ some m
      → module_load reg size_bits s image addr size
        ≡ (loaded s (parse_header image) addr m, value m)
  unfolding module_load place
  load-eq s image addr size m based long v free =
      let based2 : (addr == 0) ≡ false = ground arith in
      let long2 : ltb size 72 ≡ false = ground arith in
      simp
        (
          module_load,
          based2,
          long2,
          Valid-validate size_bits (parse_header image) size v,
          place,
          free,
        )
        refl

  -- A call of a module just loaded reaches the code at its offset behind the header.
  loaded-call :
      (run : ℕ → ℕ → ℕ) (s : Modules R) (hdr : ModHeader) (addr m id arg : ℕ)
      → m < length s.slots
      → m < 8
      → length hdr.fn_offsets ≡ 8
      → hdr.fn_count ≤ 8
      → id < hdr.fn_count
      → module_call run (loaded s hdr addr m) m id arg
        ≡ value (run (u32 (u32 (addr + 72) + get_or hdr.fn_offsets id 0)) arg)
  unfolding module_call make_slot
  loaded-call run s hdr addr m id arg inside small offsets few lt =
      let here = get_or-set_self s.slots m (make_slot hdr addr m) zero_slot inside in
      let low : leb 8 m ≡ false = ground arith in
      let known : leb hdr.fn_count id ≡ false = ground arith in
      let offset =
        get_or-take_append hdr.fn_offsets (replicate (8 - hdr.fn_count) 0) hdr.fn_count id lt
          (omega arith) in
      simp (module_call, here, low, known, offset) refl

  abbrev info_of : ModHeader → (addr m : ℕ) → ModInfo
  info_of hdr addr m = record {
    mid = m;
    name = take 23 (c_string hdr.name);
    base_addr = addr;
    code_size = hdr.code_size;
    fn_count = hdr.fn_count;
  }

  loaded-info :
      (s : Modules R) (hdr : ModHeader) (addr m : ℕ)
      → m < length s.slots
      → m < 8
      → module_info (loaded s hdr addr m) m ≡ inr (info_of hdr addr m)
  unfolding module_info make_slot
  loaded-info s hdr addr m inside small =
      let here = get_or-set_self s.slots m (make_slot hdr addr m) zero_slot inside in
      let low : leb 8 m ≡ false = ground arith in simp (module_info, here, low) refl

length-offsets : (image : List ℕ) → length (parse_header image).fn_offsets ≡ 8
unfolding parse_header
length-offsets image = refl

-- What `dylib_open` needs: a path, a free slot for the library and one for the module, and a file whose header is
-- valid. `i` and `m` are the slots.
pub record Openable {R : Type 0} (size_bits : ℕ) (storage_at : ℕ → ℕ) (s : Dylibs R)
    (bytes : List ℕ) (i m : ℕ) : Type 0 where
  pub lib_free : find_index is_unused s.libs ≡ some i
  pub module_free : find_index is_free s.modules.slots ≡ some m
  pub table : length s.modules.slots ≡ 8
  pub located : storage_at i ≢ 0
  pub long : 72 ≤ length bytes
  pub valid : Valid size_bits (parse_header bytes) (length bytes)
  pub fresh : (j : ℕ) → j < i → has_handle s.next_handle (lib_at s.libs j) ≡ false

module _ {R : Type 0} (reg : RegistryOps R) (size_bits : ℕ) (storage_at : ℕ → ℕ) (s : Dylibs R)
    (path bytes : List ℕ) (name : Option (List ℕ)) (i m : ℕ) where
  abbrev with_module : Modules R
  with_module = loaded reg size_bits s.modules (parse_header bytes) (storage_at i) m

  abbrev new_lib : DylibSlot
  new_lib = record {
    used = true;
    handle = s.next_handle;
    mid = m;
    size = length bytes;
    name = lib_name with_module m name;
    path = take 47 path;
  }

  -- The state after a library was opened.
  abbrev opened : Dylibs R
  opened = record {
    libs = set s.libs i new_lib;
    next_handle = u32 (s.next_handle + 1);
    storage = set s.storage i (bytes ++ drop (length bytes) (get_or s.storage i []));
    modules = with_module;
  }

  load_lib-eq :
      Openable size_bits storage_at s bytes i m
      → load_lib reg size_bits storage_at s i bytes path name ≡ (opened, done s.next_handle)
  unfolding load_lib enter_lib
  load_lib-eq can =
      let stored = bytes ++ drop (length bytes) (get_or s.storage i []) in
      let same = parse_header-append bytes (drop (length bytes) (get_or s.storage i [])) can.long in
      let load : module_load reg size_bits s.modules stored (storage_at i) (length bytes)
          ≡ (with_module, value m) =
        load-eq reg size_bits s.modules stored (storage_at i) (length bytes) m can.located can.long
          (rw same can.valid) can.module_free
        ∙ ap (λ h. (loaded reg size_bits s.modules h (storage_at i) m, value m)) same in
      let filled : (length bytes == 0) ≡ false = ground (arith, can.long) in
      let long : ltb (length bytes) 72 ≡ false = ground (arith, can.long) in
      simp (load_lib, load, filled, long, enter_lib) refl

  opened-found :
      Openable size_bits storage_at s bytes i m
      → find_index (has_handle s.next_handle) opened.libs ≡ some i
  opened-found can =
      let free = find_index-Hit is_unused s.libs zero_lib i can.lib_free in
      let here = get_or-set_self s.libs i new_lib zero_lib free.inside in
      find_index_first (has_handle s.next_handle) opened.libs zero_lib i (record {
        inside = omega (arith, free.inside, length-set s.libs i new_lib);
        passes = ap (has_handle s.next_handle) here ∙ ground arith;
        first = λ j lt.
            ap (has_handle s.next_handle)
              (get_or-set_ne s.libs i j new_lib zero_lib (λ e. absurd (omega arith)))
            ∙ can.fresh j lt;
      })

  opened-mid : Openable size_bits storage_at s bytes i m → (lib_at opened.libs i).mid ≡ m
  opened-mid can =
      ap (λ l. l.mid)
        (get_or-set_self s.libs i new_lib zero_lib
          (find_index-Hit is_unused s.libs zero_lib i can.lib_free).inside)

-- A library that was opened, under a path that is not empty, from a file of at least 72 bytes with a valid
-- header, while a library slot with a buffer and one of the eight module slots were free and no library before
-- it had the next handle, is called by its new handle: the symbol of each of its functions leads to the code
-- at that function's offset behind the header, in 32 bits.
pub dylib_open-call :
    {R : Type 0} (reg : RegistryOps R) (size_bits : ℕ) (storage_at : ℕ → ℕ) (run : ℕ → ℕ → ℕ)
    (s : Dylibs R) (c : ℕ) (cs bytes : List ℕ) (name symbol : Option (List ℕ)) (i m id arg : ℕ)
    → Openable size_bits storage_at s bytes i m
    → dylib_symbol_to_fnid symbol ≡ some id
    → id < (parse_header bytes).fn_count
    → (let r = dylib_open reg size_bits storage_at s (some (c ∷ cs)) name (some bytes) in
        (r.1 ≡ done s.next_handle)
        × (dylib_call run r.0 s.next_handle symbol arg
            ≡ passed_on (
                value (
                  run
                    (u32 (u32 (storage_at i + 72) + get_or (parse_header bytes).fn_offsets id 0))
                    arg))))
unfolding dylib_open dylib_call dylib_resolve dylib_find_handle
dylib_open-call reg size_bits storage_at run s c cs bytes name symbol i m id arg can known lt =
    let s1 = opened reg size_bits storage_at s (c ∷ cs) bytes name i m in
    let hdr = parse_header bytes in
    let whole : dylib_open reg size_bits storage_at s (some (c ∷ cs)) name (some bytes)
        ≡ (s1, done s.next_handle) =
      rw (can.lib_free, dylib_open)
        (load_lib-eq reg size_bits storage_at s (c ∷ cs) bytes name i m can) in
    let hit = find_index-Hit is_free s.modules.slots zero_slot m can.module_free in
    let found = opened-found reg size_bits storage_at s (c ∷ cs) bytes name i m can in
    let mid = opened-mid reg size_bits storage_at s (c ∷ cs) bytes name i m can in
    let inside : m < 8 = omega (arith, hit.inside, can.table) in
    let info = loaded-info reg size_bits s.modules hdr (storage_at i) m hit.inside inside in
    let few : leb hdr.fn_count id ≡ false = ground arith in
    let called =
      loaded-call reg size_bits run s.modules hdr (storage_at i) m id arg hit.inside inside
        (length-offsets bytes) can.valid.few lt in
    let resolved : dylib_resolve s1 s.next_handle symbol ≡ some id =
      simp (dylib_resolve, dylib_find_handle, found, mid, info, known, few) refl in
    rw whole (refl, simp (dylib_call, dylib_find_handle, found, resolved, mid, called) refl)

-- A library that is closed, the only one of its handle, is not found by it any more: the symbols do not resolve.
pub dylib_close-resolve :
    {R : Type 0} (reg : RegistryOps R) (s : Dylibs R) (handle i : ℕ) (symbol : Option (List ℕ))
    → dylib_find_handle s handle ≡ some i
    → ((j : ℕ) → j < length s.libs → has_handle handle (lib_at s.libs j) ≡ true → j ≡ i)
    → ((dylib_close reg s handle).1 ≡ done 0)
      × (dylib_resolve (dylib_close reg s handle).0 handle symbol ≡ none)
unfolding dylib_close dylib_resolve dylib_find_handle
dylib_close-resolve reg s handle i symbol found only =
    let hit = find_index-Hit (has_handle handle) s.libs zero_lib i found in
    let gone : find_index (has_handle handle) (set s.libs i zero_lib) ≡ none =
      find_index-eq_none (has_handle handle) (set s.libs i zero_lib) zero_lib (λ j lt.
        elim (ℕ_discrete j i) [
          | yes e ↦
              ap (λ k. has_handle handle (lib_at (set s.libs i zero_lib) k)) e
              ∙ ap (has_handle handle) (get_or-set_self s.libs i zero_lib zero_lib hit.inside)
          | no ne ↦
              ap (has_handle handle) (get_or-set_ne s.libs i j zero_lib zero_lib (λ e. ne (sym e)))
              ∙ elim (Bool-cases (has_handle handle (lib_at s.libs j))) [
                | inl same ↦ absurd (ne (only j (omega (arith, length-set s.libs i zero_lib)) same))
                | inr other ↦ other
              ]
        ]) in
    simp (dylib_close, dylib_find_handle, found)
      (refl, simp (dylib_resolve, dylib_find_handle, gone) refl)

-- ===== src/Vernisfs/Slots.antt =====
-- The slot that a write uses.
use vernis_os.Prelude.{
  ℕ, ◌^◌, ◌<◌, ◌≡◌, ◌≢◌, refl, sym, ◌∙◌, ap, List, none, some, true, false, ◌⊎◌, inl, inr, arith,
  length, set, get_or, length-set, get_or-set_self, get_or-set_ne, All-get, All-set, Option-cases,
}
use vernis_os.Prelude.Find.{find_index, Hit, find_index-Hit, find_index-none}
use vernis_os.Prelude.Strings.{IsText}
use vernis_os.Vernisfs.{Vfs, DiskOps, FileEntry, zero_entry, entry_at, is_file, is_free}
use vernis_os.Vernisfs.Files.{claim_slot, new_file}
use vernis_os.Vernisfs.Metadata.{EntryFits, Savable}
use vernis_os.Vernisfs.Names.{is_file-eq, is_file-other, name_of-fixed_name, length-fixed_name}

module _ {D : Type 0} where
  -- The sector, from the first data sector, where the data of a file by this name goes.
  unfoldable pub start_for : Vfs D → List ℕ → ℕ
  start_for s path = elim (find_index (is_file path) s.filetable) [
    | none ↦ s.superblock.first_free_sector
    | some i ↦ (entry_at s.filetable i).start_sector
  ]

  -- There is a file by this name, or a free entry.
  abbrev pub HasSlot : Vfs D → List ℕ → Type 0
  HasSlot s path =
      ((i : ℕ) × (find_index (is_file path) s.filetable ≡ some i))
      ⊎ ((i : ℕ) × (find_index is_free s.filetable ≡ some i))

  -- What claiming a slot gives: the first entry by that name, where no other file was.
  pub record Claimed (s : Vfs D) (path : List ℕ) (s1 : Vfs D) (i : ℕ) : Type 0 where
    pub hit : Hit (is_file path) s1.filetable zero_entry i
    pub can : Savable s1
    pub same_disk : s1.disk ≡ s.disk
    pub same_ready : s1.ready ≡ s.ready
    pub same_superblock : s1.superblock ≡ s.superblock
    pub start : (entry_at s1.filetable i).start_sector ≡ start_for s path
    pub others : (j : ℕ) → j ≢ i → entry_at s1.filetable j ≡ entry_at s.filetable j
    pub unshared :
        (other : List ℕ)
        → IsText other
        → path ≢ other
        → is_file other (entry_at s.filetable i) ≡ false

-- A new entry, in a free slot.
new_file-Fits :
    (old : FileEntry) (path : List ℕ) (start : ℕ)
    → EntryFits old
    → start < 256 ^ 4
    → EntryFits (new_file old path start)
unfolding new_file
new_file-Fits old path start ok fits = record {
  filename_size = length-fixed_name path;
  start_fits = fits;
  size_fits = ok.size_fits;
  type_fits = omega arith;
  flags_fits = omega arith;
  mode_fits = omega arith;
  uid_fits = omega arith;
  gid_fits = omega arith;
  reserved_size = ok.reserved_size;
}

new_file-is_file :
    (old : FileEntry) (path : List ℕ) (start : ℕ)
    → IsText path
    → length path < 32
    → is_file path (new_file old path start) ≡ true
unfolding new_file
new_file-is_file old path start text short =
    is_file-eq path (new_file old path start)
      (name_of-fixed_name path (new_file old path start) text short refl) refl

module _ {D : Type 0} (ops : DiskOps D) where
  claim_found :
      (s : Vfs D) (path : List ℕ) (i : ℕ)
      → Savable s
      → IsText path
      → find_index (is_file path) s.filetable ≡ some i
      → (claim_slot ops s path ≡ (s, some i)) × Claimed s path s i
  unfolding claim_slot start_for
  claim_found s path i can text found =
      let hit = find_index-Hit (is_file path) s.filetable zero_entry i found in
      (
        rw (found, claim_slot) refl,
        record {
          hit = hit;
          can = can;
          same_disk = refl;
          same_ready = refl;
          same_superblock = refl;
          start = rw (found, start_for) refl;
          others = λ j ne. refl;
          unshared = λ other text2 ne.
              is_file-other path other (entry_at s.filetable i) text text2 ne hit.passes;
        },
      )

  claim_new :
      (s : Vfs D) (path : List ℕ) (i : ℕ)
      → Savable s
      → IsText path
      → length path < 32
      → find_index (is_file path) s.filetable ≡ none
      → find_index is_free s.filetable ≡ some i
      → (s1 : Vfs D) × (claim_slot ops s path ≡ (s1, some i)) × Claimed s path s1 i
  unfolding claim_slot start_for new_file
  claim_new s path i can text short miss free =
      let old = entry_at s.filetable i in
      let start = s.superblock.first_free_sector in
      let entry = new_file old path start in
      let table = set s.filetable i entry in
      let hole = find_index-Hit is_free s.filetable zero_entry i free in
      let size : length table ≡ 32 = length-set s.filetable i entry ∙ can.entries in
      let here : get_or table i zero_entry ≡ entry =
        get_or-set_self s.filetable i entry zero_entry hole.inside in
      let other_slot : (j : ℕ)
          → j ≢ i
          → get_or table j zero_entry ≡ get_or s.filetable j zero_entry =
        λ j ne. get_or-set_ne s.filetable i j entry zero_entry (λ e. ne (sym e)) in
      let fits =
        new_file-Fits old path start
          (All-get EntryFits s.filetable i zero_entry can.table_fits hole.inside)
          can.superblock_fits.free_fits in
      (
        record s { filetable = table },
        rw (miss, claim_slot, free) refl,
        record {
          hit = record {
            inside = omega (arith, hole.inside, length-set s.filetable i entry);
            passes = ap (is_file path) here ∙ new_file-is_file old path start text short;
            first = λ j lt.
                ap (is_file path) (other_slot j (λ e. absurd (omega arith)))
                ∙ find_index-none (is_file path) s.filetable zero_entry j miss
                    (omega (arith, hole.inside));
          };
          can = record {
            entries = size;
            table_fits = All-set EntryFits s.filetable i entry fits can.table_fits;
            superblock_fits = can.superblock_fits;
            named = can.named;
          };
          same_disk = refl;
          same_ready = refl;
          same_superblock = refl;
          start = ap (λ e. e.start_sector) here ∙ rw (miss, start_for) refl;
          others = other_slot;
          unshared = λ other text2 ne. let unused = hole.passes in ground (arith, unused);
        },
      )

  pub claim_slot-Claimed :
      (s : Vfs D) (path : List ℕ)
      → Savable s
      → IsText path
      → length path < 32
      → HasSlot s path
      → (s1 : Vfs D) × (i : ℕ) × (claim_slot ops s path ≡ (s1, some i)) × Claimed s path s1 i
  claim_slot-Claimed s path can text short slot =
      elim (Option-cases (find_index (is_file path) s.filetable)) [
        | inr (i, found) ↦
            let (claim, claimed) = claim_found s path i can text found in (s, i, claim, claimed)
        | inl miss ↦ elim slot [
          | inl (i, found) ↦ absurd cc
          | inr (i, free) ↦
              let (s1, claim, claimed) = claim_new s path i can text short miss free in
              (s1, i, claim, claimed)
        ]
      ]

-- ===== src/Vernisfs/Delete.antt =====
-- `vfs_delete_file` on a disk that works.
use native.Mathlib.Decide.{ℕ_discrete}
use vernis_os.Prelude.{
  ℕ, ◌+◌, ◌-◌, ◌<◌, ◌≡◌, ◌≢◌, refl, sym, ◌∙◌, ap, List, none, some, true, inl, inr, arith,
  Bool-cases, ltb, if◌then◌else◌, length, length-set, get_or-set_self, get_or-set_ne, All-set,
}
use vernis_os.Prelude.Find.{find_index, find_index-Hit, find_index-eq_none}
use vernis_os.Prelude.Strings.{IsText}
use vernis_os.Sectors.{sectors, sectors-agree}
use vernis_os.Vernisfs.{
  Vfs, DiskOps, zero_entry, entry_at, put_entry, is_file, vfs_find_file, vfs_flush_metadata,
}
use vernis_os.Vernisfs.Files.{vfs_delete_file}
use vernis_os.Vernisfs.Disk.{Array, sectors_for}
use vernis_os.Vernisfs.Metadata.{EntryFits, Savable, Flushed, flush-Flushed}
use vernis_os.Vernisfs.Names.{is_file-other}
use vernis_os.Vernisfs.Contents.{Holds}

zero_entry-Fits : EntryFits zero_entry
zero_entry-Fits = record {
  filename_size = refl;
  start_fits = omega arith;
  size_fits = omega arith;
  type_fits = omega arith;
  flags_fits = omega arith;
  mode_fits = omega arith;
  uid_fits = omega arith;
  gid_fits = omega arith;
  reserved_size = refl;
}

module _ {D : Type 0} where
  -- The state that `vfs_delete_file` flushes.
  abbrev cleared : Vfs D → ℕ → Vfs D
  cleared s i =
      let count = s.superblock.file_count in
      record (put_entry s i zero_entry) {
        superblock = record s.superblock { file_count = if ltb 0 count then count - 1 else count };
      }

  cleared-Savable : (s : Vfs D) (i : ℕ) → Savable s → Savable (cleared s i)
  cleared-Savable s i can = record {
    entries = length-set s.filetable i zero_entry ∙ can.entries;
    table_fits = All-set EntryFits s.filetable i zero_entry zero_entry-Fits can.table_fits;
    superblock_fits = record {
      magic_fits = can.superblock_fits.magic_fits;
      version_fits = can.superblock_fits.version_fits;
      count_fits = ground (arith, can.superblock_fits.count_fits);
      total_fits = can.superblock_fits.total_fits;
      free_fits = can.superblock_fits.free_fits;
      reserved_size = can.superblock_fits.reserved_size;
    };
    named = can.named;
  }

module _ {D : Type 0} (ops : DiskOps D) (Fine : D → Type 0) (shows : D → ℕ → List ℕ)
    (disk : Array ops Fine shows) (s : Vfs D) (path : List ℕ) (i : ℕ) (ok : Fine s.disk)
    (can : Savable s) (up : s.ready ≡ true) (found : vfs_find_file s path ≡ some i) where
  at_slot : find_index (is_file path) s.filetable ≡ some i
  unfolding vfs_find_file
  at_slot = rw (up, vfs_find_file) at found

  flushed : Flushed Fine shows (cleared s i) (vfs_flush_metadata ops (cleared s i))
  flushed = flush-Flushed ops Fine shows disk (cleared s i) ok (cleared-Savable s i can)

  delete-eq : vfs_delete_file ops s path ≡ vfs_flush_metadata ops (cleared s i)
  unfolding vfs_delete_file
  delete-eq = simp (vfs_delete_file, up, at_slot) refl

  inside : i < length s.filetable
  inside = (find_index-Hit (is_file path) s.filetable zero_entry i at_slot).inside

  -- The entry of the slot is empty, and the others are as they were.
  gone : entry_at (vfs_flush_metadata ops (cleared s i)).0.filetable i ≡ zero_entry
  gone =
      ap (λ t. entry_at t i) flushed.same_table
      ∙ get_or-set_self s.filetable i zero_entry zero_entry inside

  kept :
      (j : ℕ)
      → j ≢ i
      → entry_at (vfs_flush_metadata ops (cleared s i)).0.filetable j ≡ entry_at s.filetable j
  kept j ne =
      ap (λ t. entry_at t j) flushed.same_table
      ∙ get_or-set_ne s.filetable i j zero_entry zero_entry (λ e. ne (sym e))

  -- On a disk that works and a file system that is up, with a table and a superblock that fit their fields,
  -- deleting a file that is found and is the only one of its name succeeds, and the name is not found any
  -- more.
  pub vfs_delete_file-gone :
      ((j : ℕ) → j < length s.filetable → is_file path (entry_at s.filetable j) ≡ true → j ≡ i)
      → ((vfs_delete_file ops s path).1 ≡ true)
        × (vfs_find_file (vfs_delete_file ops s path).0 path ≡ none)
  unfolding vfs_find_file
  vfs_delete_file-gone only =
      let r = vfs_flush_metadata ops (cleared s i) in
      let size : length r.0.filetable ≡ length s.filetable =
        ap length flushed.same_table ∙ length-set s.filetable i zero_entry in
      let missing : find_index (is_file path) r.0.filetable ≡ none =
        find_index-eq_none (is_file path) r.0.filetable zero_entry (λ j lt. elim (ℕ_discrete j i) [
          | yes e ↦ ap (λ m. is_file path (entry_at r.0.filetable m)) e ∙ ap (is_file path) gone
          | no ne ↦
              ap (is_file path) (kept j ne)
              ∙ elim (Bool-cases (is_file path (entry_at s.filetable j))) [
                | inl hit ↦ absurd (ne (only j (omega (arith, size)) hit))
                | inr miss ↦ miss
              ]
        ]) in
      let still_up : r.0.ready ≡ true = flushed.same_ready ∙ up in
      rw delete-eq (flushed.works, simp (vfs_find_file, still_up) missing)

  -- On a disk that works and a file system that is up, with a table and a superblock that fit their fields,
  -- deleting a file that is found leaves what files of other names hold, for names without a zero byte.
  pub vfs_delete_file-others :
      (other bytes : List ℕ)
      → IsText path
      → IsText other
      → path ≢ other
      → Holds shows s other bytes
      → Holds shows (vfs_delete_file ops s path).0 other bytes
  vfs_delete_file-others other bytes text text2 differ h =
      let r = vfs_flush_metadata ops (cleared s i) in
      let hit = find_index-Hit (is_file path) s.filetable zero_entry i at_slot in
      let slots : h.slot ≢ i = λ e. cc (
        h.hit.passes,
        is_file-other path other (entry_at s.filetable i) text text2 differ hit.passes,
      ) in
      let same = kept h.slot slots in
      let its = (entry_at s.filetable h.slot).start_sector in
      let n = sectors_for (length bytes) in
      rw delete-eq (record {
        up = flushed.same_ready ∙ up;
        slot = h.slot;
        hit = record {
          inside = omega (
            arith,
            h.hit.inside,
            ap length flushed.same_table,
            length-set s.filetable i zero_entry,
          );
          passes = ap (is_file other) same ∙ h.hit.passes;
          first = λ j lt. elim (ℕ_discrete j i) [
            | yes e ↦ ap (λ m. is_file other (entry_at r.0.filetable m)) e ∙ ap (is_file other) gone
            | no ne ↦ ap (is_file other) (kept j ne) ∙ h.hit.first j lt
          ];
        };
        size = ap (λ e. e.size) same ∙ h.size;
        small = h.small;
        low = omega (arith, h.low, ap (λ e. e.start_sector) same);
        contents =
            ap (λ e. sectors (shows r.0.disk) (5125 + e.start_sector) 0 n) same
            ∙ sectors-agree (shows r.0.disk) (shows s.disk) (5125 + its) 0 n (omega (arith, h.low))
                (λ k le lt. flushed.elsewhere k (omega arith))
            ∙ h.contents;
      })

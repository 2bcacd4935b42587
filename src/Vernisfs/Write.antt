-- ===== src/Vernisfs/Write.antt =====
-- `vfs_write_file` on a disk that works.
use native.Mathlib.Nat.{mod-eq_of_lt}
use vernis_os.Prelude.{
  ℕ, ◌+◌, ◌*◌, ◌^◌, ◌<◌, ◌≤◌, ◌≡◌, ◌≢◌, refl, sym, ◌∙◌, ap, List, Option, none, some, Bool, false,
  ◌⊎◌, arith, if◌then◌else◌, length, take-length, length-set, get_or-set_self, get_or-set_ne,
  All-get,
}
use vernis_os.Prelude.Strings.{IsText}
use vernis_os.Sectors.{
  sectors, put_sectors, put_outside, put-sectors, chunks-take, sectors-agree, sectors_ext,
}
use vernis_os.Vernisfs.{
  Vfs, DiskOps, zero_entry, entry_at, is_file, abs_sector, write_data, vfs_flush_metadata,
}
use vernis_os.Vernisfs.Files.{vfs_write_file}
use vernis_os.Vernisfs.Disk.{Array, sectors_for, padded, length-padded, write_data_lem}
use vernis_os.Vernisfs.Metadata.{EntryFits, Savable, Saved, Flushed, flush-Flushed}
use vernis_os.Vernisfs.Names.{is_file_keeps}
use vernis_os.Vernisfs.Slots.{start_for, Claimed, claim_slot-Claimed}
use vernis_os.Vernisfs.Contents.{Holds, Writable, noted, noted-Savable, write-eq}

module _ {D : Type 0} (Fine : D → Type 0) (shows : D → ℕ → List ℕ) where
  -- What a write of a file gives: its length; the file holds the bytes, the tables are on the disk, and the
  -- other entries and sectors are as they were.
  pub record Outcome (s : Vfs D) (path bytes : List ℕ) (r : Vfs D × Option ℕ) : Type 0 where
    pub works : r.1 ≡ some (length bytes)
    pub fine : Fine r.0.disk
    pub can : Savable r.0
    pub saved : Saved shows r.0 r.0.disk
    pub holds : Holds shows r.0 path bytes
    pub others : (j : ℕ) → j ≢ holds.slot → entry_at r.0.filetable j ≡ entry_at s.filetable j
    pub unshared :
        (other : List ℕ)
        → IsText other
        → path ≢ other
        → is_file other (entry_at s.filetable holds.slot) ≡ false
    pub elsewhere :
        (k : ℕ)
        → 5125 ≤ k
        → (k < 5125 + start_for s path) ⊎ (5125 + start_for s path + sectors_for (length bytes) ≤ k)
        → shows r.0.disk k ≡ shows s.disk k

module _ {D : Type 0} (ops : DiskOps D) (Fine : D → Type 0) (shows : D → ℕ → List ℕ)
    (disk : Array ops Fine shows) (s : Vfs D) (path bytes : List ℕ)
    (w : Writable s path bytes) where
  -- The state after the flush, from the slot that was claimed.
  Flushed-Outcome :
      (s1 : Vfs D) (i : ℕ) (d : D) (r : Vfs D × Bool)
      → Claimed s path s1 i
      → Savable (noted s1 d i (length bytes) (sectors_for (length bytes)))
      → ((k : ℕ)
          → shows d k
            ≡ put_sectors
                (shows s1.disk)
                (abs_sector (entry_at s1.filetable i))
                0
                (sectors_for (length bytes))
                (padded bytes)
                k)
      → Flushed Fine shows (noted s1 d i (length bytes) (sectors_for (length bytes))) r
      → Outcome Fine shows s path bytes (r.0, some (length bytes))
  Flushed-Outcome s1 i d r c can puts f =
      let e = entry_at s1.filetable i in
      let n = sectors_for (length bytes) in
      let start = 5125 + e.start_sector in
      let e2 = record e { size = length bytes } in
      let inside = c.hit.inside in
      let word : abs_sector e ≡ start = mod-eq_of_lt (omega (arith, w.low, c.start)) in
      let here : entry_at r.0.filetable i ≡ e2 =
        ap (λ t. entry_at t i) f.same_table ∙ get_or-set_self s1.filetable i e2 zero_entry inside in
      let apart : (j : ℕ) → j ≢ i → entry_at r.0.filetable j ≡ entry_at s1.filetable j = λ j ne.
        ap (λ t. entry_at t j) f.same_table
        ∙ get_or-set_ne s1.filetable i j e2 zero_entry (λ eq. ne (sym eq)) in
      let fits = All-get EntryFits s1.filetable i zero_entry c.can.table_fits inside in
      let puts_at : (k : ℕ) → shows d k ≡ put_sectors (shows s1.disk) start 0 n (padded bytes) k =
        λ k. puts k ∙ ap (λ a. put_sectors (shows s1.disk) a 0 n (padded bytes) k) word in
      let low : start + n < 2 ^ 32 = omega (arith, w.low, c.start) in
      record {
        works = refl;
        fine = f.fine;
        can = record {
          entries = ap length f.same_table ∙ can.entries;
          table_fits = rw f.same_table can.table_fits;
          superblock_fits = rw f.same_superblock can.superblock_fits;
          named = ap (λ x. x.magic) f.same_superblock ∙ can.named;
        };
        saved = record {
          superblock_there = rw f.same_superblock f.saved.superblock_there;
          table_there = rw f.same_table f.saved.table_there;
        };
        holds = record {
          up = f.same_ready ∙ c.same_ready ∙ w.up;
          slot = i;
          hit = record {
            inside = rw f.same_table (omega (arith, inside, length-set s1.filetable i e2));
            passes =
                ap (is_file path) here
                ∙ is_file_keeps path e e2 w.text (omega (arith, w.short, fits.filename_size)) refl
                    refl c.hit.passes;
            first =
                λ j lt. ap (is_file path) (apart j (λ eq. absurd (omega arith))) ∙ c.hit.first j lt;
          };
          size = ap (λ x. x.size) here;
          small = w.small;
          low = omega (arith, low, ap (λ x. x.start_sector) here);
          contents =
              ap (λ x. sectors (shows r.0.disk) (5125 + x.start_sector) 0 n) here
              ∙ sectors-agree (shows r.0.disk) (shows d) start 0 n (omega (arith, low))
                  (λ k le lt. f.elsewhere k (omega arith))
              ∙ sectors_ext (shows d) (put_sectors (shows s1.disk) start 0 n (padded bytes)) start 0
                  n puts_at
              ∙ put-sectors (shows s1.disk) start 0 n (padded bytes) (omega (arith, low))
              ∙ chunks-take (padded bytes) 0 n
              ∙ take-length (n * 512) (padded bytes) (omega (arith, length-padded bytes));
        };
        others = λ j ne. apart j ne ∙ c.others j ne;
        unshared = c.unshared;
        elsewhere = λ k le out.
            f.elsewhere k le
            ∙ puts_at k
            ∙ put_outside (shows s1.disk) start 0 n (padded bytes) k (ground (arith, out, c.start))
                (omega (arith, low))
            ∙ ap (λ x. shows x k) c.same_disk;
      }

  -- A write that the file system has room for gives its length and has the outcome above.
  pub write-Outcome :
      Fine s.disk → Outcome Fine shows s path bytes (vfs_write_file ops s path bytes)
  write-Outcome ok =
      let (s1, i, claim, c) = claim_slot-Claimed ops s path w.can w.text w.short w.slot in
      let ok1 : Fine s1.disk = rw c.same_disk ok in
      let e = entry_at s1.filetable i in
      let (ok2, works, puts) =
        write_data_lem ops Fine shows disk s1.disk (abs_sector e) bytes ok1 in
      let d = (write_data ops s1.disk (abs_sector e) (length bytes) bytes).0 in
      let n = sectors_for (length bytes) in
      let can =
        noted-Savable s1 d i (length bytes) n (omega (arith, c.hit.inside, c.can.entries))
          (omega (arith, w.small)) c.can in
      let r = vfs_flush_metadata ops (noted s1 d i (length bytes) n) in
      let f = flush-Flushed ops Fine shows disk (noted s1 d i (length bytes) n) ok2 can in
      let whole : vfs_write_file ops s path bytes ≡ (r.0, some (length bytes)) =
        write-eq ops Fine shows disk s s1 path bytes i ok1 w claim
        ∙ ap (λ b. (r.0, if b then some (length bytes) else none)) f.works in
      rw whole (Flushed-Outcome s1 i d r c can puts f)

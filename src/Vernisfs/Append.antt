-- ===== src/Vernisfs/Append.antt =====
-- `vfs_append_file` on a file that fits into its buffer.
use vernis_os.Prelude.{
  ℕ, ◌+◌, ◌-◌, ◌≤◌, ◌≡◌, refl, List, ◌++◌, some, false, arith, length, take, ltb, take-append,
  take-length,
}
use vernis_os.Prelude.Find.{find_index_first}
use vernis_os.Prelude.Words.{u32}
use vernis_os.Vernisfs.{Vfs, DiskOps, zero_entry, is_file, vfs_find_file, vfs_read_file}
use vernis_os.Vernisfs.Files.{vfs_write_file, vfs_append_file}
use vernis_os.Vernisfs.Disk.{Array, padded}
use vernis_os.Vernisfs.Slots.{start_for}
use vernis_os.Vernisfs.Contents.{Holds, Writable, read-eq, Holds-read}
use vernis_os.Vernisfs.Write.{write-Outcome}

-- What a write needs does not hang on the disk.
Writable-disk :
    {D : Type 0} (s : Vfs D) (d : D) (path bytes : List ℕ)
    → Writable s path bytes
    → Writable (record s { disk = d }) path bytes
unfolding start_for
Writable-disk s d path bytes w = record {
  up = w.up;
  can = record {
    entries = w.can.entries;
    table_fits = w.can.table_fits;
    superblock_fits = w.can.superblock_fits;
    named = w.can.named;
  };
  text = w.text;
  short = w.short;
  slot = w.slot;
  small = w.small;
  low = w.low;
}

module _ {D : Type 0} (ops : DiskOps D) (Fine : D → Type 0) (shows : D → ℕ → List ℕ)
    (disk : Array ops Fine shows) where
  append-eq :
      (s : Vfs D) (path old bytes : List ℕ)
      → Fine s.disk
      → Holds shows s path old
      → length old + length bytes ≤ 4096
      → (d : D) × (vfs_append_file ops s path bytes
          ≡ vfs_write_file ops (record s { disk = d }) path (old ++ bytes))
        × Fine d
  unfolding vfs_append_file vfs_find_file
  append-eq s path old bytes ok h room =
      let (d, result, fine, same) =
        read-eq ops Fine shows disk s path old (length old) ok h (omega arith) in
      let found : vfs_find_file s path ≡ some h.slot =
        rw (h.up, vfs_find_file)
          (find_index_first (is_file path) s.filetable zero_entry h.slot h.hit) in
      let sum : u32 (length old + u32 (length bytes)) ≡ length old + length bytes = omega arith in
      let fits : ltb 4096 (length old + length bytes) ≡ false = ground arith in
      let front : take (length old) (padded old) ≡ old = take-append old _ in
      let back : take (length old + length bytes - length old) bytes ≡ bytes =
        take-length _ bytes (omega arith) in
      (d, simp (vfs_append_file, found, h.size, sum, fits, result, front, back) refl, fine)

  -- On a disk that works and a file system that is up, with a table and a superblock that fit their fields,
  -- bytes appended to a file come behind what it holds, if the two have at most 4096 bytes together, the name
  -- has fewer than 32 bytes, none of them zero, and the sectors end inside the 32-bit addresses: the result is
  -- the number of both, and a read into a buffer at least that long gives both, with zeros up to the end of
  -- the last sector.
  pub vfs_append_file-read :
      (s : Vfs D) (path old bytes : List ℕ) (max_len : ℕ)
      → Fine s.disk
      → Holds shows s path old
      → Writable s path (old ++ bytes)
      → length old + length bytes ≤ 4096
      → length (old ++ bytes) ≤ max_len
      → ((vfs_append_file ops s path bytes).1 ≡ some (length (old ++ bytes)))
        × ((vfs_read_file ops (vfs_append_file ops s path bytes).0 path max_len).1
            ≡ some (length (old ++ bytes), padded (old ++ bytes)))
  vfs_append_file-read s path old bytes max_len ok h w room fits =
      let (d, result, fine) = append-eq s path old bytes ok h room in
      let s1 : Vfs D = record s { disk = d } in
      let o =
        write-Outcome ops Fine shows disk s1 path (old ++ bytes)
          (Writable-disk s d path (old ++ bytes) w) fine in
      rw result (
        o.works,
        Holds-read ops Fine shows disk (vfs_write_file ops s1 path (old ++ bytes)).0 path
            (old ++ bytes) max_len o.fine o.holds fits,
      )

-- ===== src/Vernisfs/Contents.antt =====
-- What a file holds, and what a write makes of it.
use native.Mathlib.Nat.{mod-eq_of_lt}
use vernis_os.Prelude.{
  ℕ, ◌+◌, ◌/◌, ◌^◌, ◌<◌, ◌≤◌, ◌≡◌, refl, ◌∙◌, ap, List, none, some, true, false, arith, ltb,
  if◌then◌else◌, length, set, length-set, All-get, All-set,
}
use vernis_os.Prelude.Find.{Hit, find_index_first, count_if}
use vernis_os.Prelude.Strings.{IsText}
use vernis_os.Prelude.Words.{u16, u32}
use vernis_os.Sectors.{sectors, chunks}
use vernis_os.Vernisfs.{
  Vfs, DiskOps, Superblock, FileEntry, zero_entry, entry_at, is_file, is_used, vfs_find_file,
  vfs_read_file, vfs_flush_metadata, abs_sector, read_chunks, write_data,
}
use vernis_os.Vernisfs.Files.{claim_slot, note_written, vfs_write_file}
use vernis_os.Vernisfs.Disk.{Array, sectors_for, padded, write_data_lem, read_chunks_lem}
use vernis_os.Vernisfs.Metadata.{EntryFits, Savable}
use vernis_os.Vernisfs.Slots.{start_for, HasSlot}

module _ {D : Type 0} where
  -- What a write needs: the file system is up and its table and superblock fit their fields on the disk, the
  -- name has fewer than 32 bytes, none of them zero, and is that of a file or finds a free entry, and the data
  -- fits into 255 sectors that end inside the address space.
  pub record Writable (s : Vfs D) (path bytes : List ℕ) : Type 0 where
    pub up : s.ready ≡ true
    pub can : Savable s
    pub text : IsText path
    pub short : length path < 32
    pub slot : HasSlot s path
    pub small : sectors_for (length bytes) ≤ 255
    pub low : 5125 + start_for s path + sectors_for (length bytes) < 2 ^ 32

module _ {D : Type 0} (shows : D → ℕ → List ℕ) where
  -- The file of this name holds these bytes.
  pub record Holds (s : Vfs D) (path bytes : List ℕ) : Type 0 where
    pub up : s.ready ≡ true
    pub slot : ℕ
    pub hit : Hit (is_file path) s.filetable zero_entry slot
    pub size : (entry_at s.filetable slot).size ≡ length bytes
    pub small : sectors_for (length bytes) ≤ 255
    pub low : 5125 + (entry_at s.filetable slot).start_sector + sectors_for (length bytes) < 2 ^ 32
    pub contents :
        sectors
          (shows s.disk)
          (5125 + (entry_at s.filetable slot).start_sector)
          0
          (sectors_for (length bytes))
        ≡ padded bytes

module _ {D : Type 0} where
  -- The superblock after a write that ends before sector `end`, with `table` the new table.
  abbrev noted_superblock : Vfs D → ℕ → List FileEntry → Superblock
  noted_superblock s end table = record s.superblock {
    first_free_sector =
        if ltb s.superblock.first_free_sector end then end else s.superblock.first_free_sector;
    file_count = u16 (count_if is_used table);
  }

  -- The state that `vfs_write_file` flushes.
  abbrev pub noted : Vfs D → D → ℕ → ℕ → ℕ → Vfs D
  noted s d i len n =
      let table = set s.filetable i (record (entry_at s.filetable i) { size = len }) in
      let end = u32 ((entry_at s.filetable i).start_sector + n) in
      record s { filetable = table; superblock = noted_superblock s end table; disk = d }

  pub noted-Savable :
      (s : Vfs D) (d : D) (i len n : ℕ)
      → i < 32
      → len < 2 ^ 32
      → Savable s
      → Savable (noted s d i len n)
  noted-Savable s d i len n inside fits can =
      let e = entry_at s.filetable i in
      let ok =
        All-get EntryFits s.filetable i zero_entry can.table_fits (omega (arith, can.entries)) in
      let end = u32 (e.start_sector + n) in
      let free : (if ltb s.superblock.first_free_sector end
            then end
            else s.superblock.first_free_sector)
          < 256 ^ 4 =
        ground (arith, can.superblock_fits.free_fits) in
      record {
        entries = length-set s.filetable i (record e { size = len }) ∙ can.entries;
        table_fits =
            All-set EntryFits s.filetable i (record e { size = len })
              (record {
                filename_size = ok.filename_size;
                start_fits = ok.start_fits;
                size_fits = omega arith;
                type_fits = ok.type_fits;
                flags_fits = ok.flags_fits;
                mode_fits = ok.mode_fits;
                uid_fits = ok.uid_fits;
                gid_fits = ok.gid_fits;
                reserved_size = ok.reserved_size;
              })
              can.table_fits;
        superblock_fits = record {
          magic_fits = can.superblock_fits.magic_fits;
          version_fits = can.superblock_fits.version_fits;
          count_fits = omega arith;
          total_fits = can.superblock_fits.total_fits;
          free_fits = free;
          reserved_size = can.superblock_fits.reserved_size;
        };
        named = can.named;
      }

module _ {D : Type 0} (ops : DiskOps D) (Fine : D → Type 0) (shows : D → ℕ → List ℕ)
    (disk : Array ops Fine shows) where
  -- A read of such a file into a buffer that is large enough.
  pub read-eq :
      (s : Vfs D) (path bytes : List ℕ) (max_len : ℕ)
      → Fine s.disk
      → Holds shows s path bytes
      → length bytes ≤ max_len
      → (d : D) × (vfs_read_file ops s path max_len
          ≡ (record s { disk = d }, some (length bytes, padded bytes)))
        × Fine d
        × ((k : ℕ) → shows d k ≡ shows s.disk k)
  unfolding vfs_read_file vfs_find_file
  read-eq s path bytes max_len ok h room =
      let e = entry_at s.filetable h.slot in
      let found : vfs_find_file s path ≡ some h.slot =
        rw (h.up, vfs_find_file)
          (find_index_first (is_file path) s.filetable zero_entry h.slot h.hit) in
      let fits : ltb max_len (length bytes) ≡ false = ground arith in
      let count : u32 (length bytes + 511) / 512 ≡ sectors_for (length bytes) =
        omega (arith, h.small) in
      let byte : ltb 255 (sectors_for (length bytes)) ≡ false = ground (arith, h.small) in
      let word : abs_sector e ≡ 5125 + e.start_sector = mod-eq_of_lt (omega (arith, h.low)) in
      let n = sectors_for (length bytes) in
      let (fine, chunks, same) =
        read_chunks_lem ops Fine shows disk s.disk (5125 + e.start_sector) n n ok (omega arith) in
      let got : (read_chunks ops s.disk (5125 + e.start_sector) n n).1 ≡ some (padded bytes) =
        chunks ∙ ap some h.contents in
      (
        (read_chunks ops s.disk (5125 + e.start_sector) n n).0,
        simp (vfs_read_file, found, h.size, fits, count, byte, word, got) refl,
        fine,
        same,
      )

  pub Holds-read :
      (s : Vfs D) (path bytes : List ℕ) (max_len : ℕ)
      → Fine s.disk
      → Holds shows s path bytes
      → length bytes ≤ max_len
      → (vfs_read_file ops s path max_len).1 ≡ some (length bytes, padded bytes)
  Holds-read s path bytes max_len ok h room =
      let (d, result, fine, same) = read-eq s path bytes max_len ok h room in ap (λ r. r.1) result

  -- A write as a flush of what is noted.
  pub write-eq :
      (s s1 : Vfs D) (path bytes : List ℕ) (i : ℕ)
      → Fine s1.disk
      → Writable s path bytes
      → claim_slot ops s path ≡ (s1, some i)
      → (let d =
            (write_data ops s1.disk
              (abs_sector (entry_at s1.filetable i))
              (length bytes)
              bytes).0 in
          let r =
            vfs_flush_metadata ops (noted s1 d i (length bytes) (sectors_for (length bytes))) in
          vfs_write_file ops s path bytes ≡ (r.0, if r.1 then some (length bytes) else none))
  unfolding vfs_write_file note_written
  write-eq s s1 path bytes i ok w claim =
      let len : u32 (length bytes) ≡ length bytes = mod-eq_of_lt (omega (arith, w.small)) in
      let count : u32 (length bytes + 511) / 512 ≡ sectors_for (length bytes) =
        omega (arith, w.small) in
      let byte : ltb 255 (sectors_for (length bytes)) ≡ false = ground (arith, w.small) in
      let works =
        (write_data_lem ops Fine shows disk s1.disk (abs_sector (entry_at s1.filetable i)) bytes
          ok).1 in
      simp (vfs_write_file, w.up, claim, len, count, byte, works) refl

-- ===== src/Vernisfs/Roundtrip.antt =====
-- Files that are written, read, appended to, and found again after a restart.
use native.Mathlib.Decide.{ℕ_discrete}
use vernis_os.Prelude.{
  ℕ, ◌+◌, ◌≤◌, ◌≡◌, ◌≢◌, ◌∙◌, ap, List, some, true, ◌⊎◌, inl, inr, arith, length,
}
use vernis_os.Prelude.Strings.{IsText}
use vernis_os.Sectors.{sectors, sectors_ext, sectors-agree}
use vernis_os.Vernisfs.{Vfs, DiskOps, entry_at, is_file, vfs_read_file, vfs_init}
use vernis_os.Vernisfs.Files.{vfs_write_file}
use vernis_os.Vernisfs.Disk.{Array, sectors_for, padded}
use vernis_os.Vernisfs.Metadata.{init-Loaded}
use vernis_os.Vernisfs.Names.{is_file-other}
use vernis_os.Vernisfs.Slots.{start_for}
use vernis_os.Vernisfs.Contents.{Holds, Writable, Holds-read}
use vernis_os.Vernisfs.Write.{write-Outcome}

-- Only the table and what the disk shows matter.
pub Holds-same :
    {D : Type 0} (shows : D → ℕ → List ℕ) (s s2 : Vfs D) (path bytes : List ℕ)
    → s2.ready ≡ true
    → s2.filetable ≡ s.filetable
    → ((k : ℕ) → shows s2.disk k ≡ shows s.disk k)
    → Holds shows s path bytes
    → Holds shows s2 path bytes
Holds-same shows s s2 path bytes up table same h = record {
  up = up;
  slot = h.slot;
  hit = rw table h.hit;
  size = rw table h.size;
  small = h.small;
  low = rw table h.low;
  contents =
      sectors_ext (shows s2.disk) (shows s.disk)
        (5125 + (entry_at s2.filetable h.slot).start_sector) 0 (sectors_for (length bytes)) same
      ∙ ap
          (λ t.
            sectors (shows s.disk) (5125 + (entry_at t h.slot).start_sector) 0
              (sectors_for (length bytes)))
          table
      ∙ h.contents;
}

module _ {D : Type 0} (ops : DiskOps D) (Fine : D → Type 0) (shows : D → ℕ → List ℕ)
    (disk : Array ops Fine shows) where
  -- On a disk that works and a file system that is up, with a table and a superblock that fit their fields: a
  -- write of at most 255 sectors of data that end inside the 32-bit addresses, under a name of fewer than 32
  -- bytes without a zero byte that is that of a file or finds a free entry, gives the number of bytes, and a
  -- read of the name into a buffer at least that long gives the number and the bytes, with zeros up to the
  -- end of the last sector.
  pub vfs_write_file-read :
      (s : Vfs D) (path bytes : List ℕ) (max_len : ℕ)
      → Fine s.disk
      → Writable s path bytes
      → length bytes ≤ max_len
      → ((vfs_write_file ops s path bytes).1 ≡ some (length bytes))
        × ((vfs_read_file ops (vfs_write_file ops s path bytes).0 path max_len).1
            ≡ some (length bytes, padded bytes))
  vfs_write_file-read s path bytes max_len ok w room =
      let o = write-Outcome ops Fine shows disk s path bytes w ok in
      (
        o.works,
        Holds-read ops Fine shows disk (vfs_write_file ops s path bytes).0 path bytes max_len o.fine
            o.holds room,
      )

  -- A restart keeps a file that was written, on a disk that works and a file system that is up, with a table
  -- and a superblock that fit their fields, if its name has fewer than 32 bytes, none of them zero, and is
  -- that of a file or finds a free entry, and its data takes at most 255 sectors that end inside the 32-bit
  -- addresses: `vfs_init` in any state, on the disk that the write left, succeeds with the same superblock and
  -- table, and a read into a buffer at least as long as the data gives the bytes that were written, with
  -- zeros up to the end of the last sector.
  pub vfs_write_file-init-read :
      (s old : Vfs D) (path bytes : List ℕ) (max_len : ℕ)
      → Fine s.disk
      → Writable s path bytes
      → length bytes ≤ max_len
      → (let s1 = (vfs_write_file ops s path bytes).0 in
          let r = vfs_init ops (record old { disk = s1.disk }) in
          (r.1 ≡ true)
          × (r.0.superblock ≡ s1.superblock)
          × (r.0.filetable ≡ s1.filetable)
          × ((vfs_read_file ops r.0 path max_len).1 ≡ some (length bytes, padded bytes)))
  vfs_write_file-init-read s old path bytes max_len ok w room =
      let o = write-Outcome ops Fine shows disk s path bytes w ok in
      let s1 = (vfs_write_file ops s path bytes).0 in
      let start : Vfs D = record old { disk = s1.disk } in
      let l = init-Loaded ops Fine shows disk s1 start o.fine o.can o.saved in
      let held =
        Holds-same shows s1 (vfs_init ops start).0 path bytes l.up l.table l.same o.holds in
      (
        l.works,
        l.superblock,
        l.table,
        Holds-read ops Fine shows disk (vfs_init ops start).0 path bytes max_len l.fine held room,
      )

  -- A write that has what `Writable` asks for, on a disk that works, leaves a file of another name without a
  -- zero byte, of fewer than 256 sectors inside the 32-bit addresses, alone if the sectors of the two do not
  -- meet: the file system is up, with a table and a superblock that fit their fields, and what is written
  -- has a name of fewer than 32 bytes without a zero byte that is that of a file or finds a free entry, and at
  -- most 255 sectors of data inside the same addresses.
  pub vfs_write_file-others :
      (s : Vfs D) (path bytes other kept : List ℕ) (h : Holds shows s other kept)
      → Fine s.disk
      → Writable s path bytes
      → IsText other
      → path ≢ other
      → (let mine = start_for s path in
          let its = (entry_at s.filetable h.slot).start_sector in
          (mine + sectors_for (length bytes) ≤ its) ⊎ (its + sectors_for (length kept) ≤ mine))
      → Holds shows (vfs_write_file ops s path bytes).0 other kept
  vfs_write_file-others s path bytes other kept h ok w text ne apart =
      let o = write-Outcome ops Fine shows disk s path bytes w ok in
      let s1 = (vfs_write_file ops s path bytes).0 in
      let slots : h.slot ≢ o.holds.slot = λ e. cc (h.hit.passes, o.unshared other text ne) in
      let same = o.others h.slot slots in
      let its = (entry_at s.filetable h.slot).start_sector in
      let n = sectors_for (length kept) in
      record {
        up = o.holds.up;
        slot = h.slot;
        hit = record {
          inside = omega (arith, h.hit.inside, o.can.entries, w.can.entries);
          passes = ap (is_file other) same ∙ h.hit.passes;
          first = λ j lt. elim (ℕ_discrete j o.holds.slot) [
            | yes e ↦
                ap (λ i. is_file other (entry_at s1.filetable i)) e
                ∙ is_file-other path other (entry_at s1.filetable o.holds.slot) w.text text ne
                    o.holds.hit.passes
            | no ne2 ↦ ap (is_file other) (o.others j ne2) ∙ h.hit.first j lt
          ];
        };
        size = ap (λ e. e.size) same ∙ h.size;
        small = h.small;
        low = omega (arith, h.low, ap (λ e. e.start_sector) same);
        contents =
            ap (λ e. sectors (shows s1.disk) (5125 + e.start_sector) 0 n) same
            ∙ sectors-agree (shows s1.disk) (shows s.disk) (5125 + its) 0 n (omega (arith, h.low))
                (λ k le lt.
                  o.elsewhere k (omega arith)
                    (elim apart [ inl below ↦ inr (omega arith) | inr above ↦ inl (omega arith) ]))
            ∙ h.contents;
      }

-- ===== src/Kfs/Routes.antt =====
-- Where the layer sends a path: what is refused, and what reaches VernisFS.
use mathlib.Core.Bool.{true≢false}
use vernis_os.Prelude.{
  ℕ, ◌≤◌, ◌≡◌, refl, ◌∙◌, ap, List, ◌∷◌, ◌++◌, none, some, true, false, inl, inr, arith, length,
  Bool-cases, Option-cases,
}
use vernis_os.Prelude.Strings.{str_eq}
use vernis_os.Vernisfs.{DiskOps, vfs_read_file}
use vernis_os.Vernisfs.Files.{vfs_write_file}
use vernis_os.Vernisfs.Disk.{Array, padded}
use vernis_os.Vernisfs.Contents.{Writable}
use vernis_os.Vernisfs.Roundtrip.{vfs_write_file-read}
use vernis_os.Kfs.{
  Kfs, Volumes, mnt_fat32, mnt_ext2, dev_null_path, dev_zero_path, uptime_path, ps_path, fs_path,
  proc_path, dev_path, on_volume, kfs_mount_subpath, kfs_path_is_pseudo, is_protected, is_sink,
  put_files, kfs_read_file, kfs_write_file, kfs_append_file, kfs_mkdir, kfs_delete_file,
}

-- The operations that change files, on a path that is refused.
module _ {D : Type 0} (ops : DiskOps D) (v : Volumes) (s : Kfs D) (path bytes : List ℕ) where
  -- Every operation that changes files refuses the path and leaves the state alone.
  pub record Refused : Type 0 where
    pub no_write : kfs_write_file ops v s path bytes ≡ (s, none)
    pub no_append : kfs_append_file ops v s path bytes ≡ (s, none)
    pub no_mkdir : kfs_mkdir ops v s path ≡ (s, false)
    pub no_delete : kfs_delete_file ops v s path ≡ (s, false)

  protected-Refused : is_sink path ≡ false → is_protected v path ≡ true → Refused
  unfolding kfs_write_file kfs_append_file kfs_mkdir kfs_delete_file
  protected-Refused kept refused = record {
    no_write = simp (kfs_write_file, kept, refused) refl;
    no_append = simp (kfs_append_file, kept, refused) refl;
    no_mkdir = simp (kfs_mkdir, refused) refl;
    no_delete = simp (kfs_delete_file, refused) refl;
  }

-- Nothing under the mounts of FAT32 and ext2 can be written, appended to, created or deleted, whatever stands behind the mount's path and
-- whatever the file systems hold: every such operation fails and leaves the state alone.
pub mounts-Refused :
    {D : Type 0} (ops : DiskOps D) (v : Volumes) (s : Kfs D) (rest bytes : List ℕ)
    → Refused ops v s (mnt_fat32 ++ b'/' ∷ rest) bytes
      × Refused ops v s (mnt_ext2 ++ b'/' ∷ rest) bytes
unfolding is_protected on_volume kfs_mount_subpath kfs_path_is_pseudo str_eq
mounts-Refused ops v s rest bytes = (
  protected-Refused ops v s (mnt_fat32 ++ b'/' ∷ rest) bytes refl refl,
  protected-Refused ops v s (mnt_ext2 ++ b'/' ∷ rest) bytes refl refl,
)

-- A path that the layer leaves to VernisFS.
ordinary :
    (v : Volumes) (path : List ℕ)
    → is_protected v path ≡ false
    → (kfs_path_is_pseudo path ≡ false) × (on_volume v path ≡ none)
unfolding is_protected
ordinary v path e = elim (Bool-cases (kfs_path_is_pseudo path)) [
  | inl pseudo ↦ absurd (true≢false (rw pseudo at e))
  | inr plain ↦ elim (Option-cases (on_volume v path)) [
    | inl outside ↦ (plain, outside)
    | inr (found, inside) ↦ absurd (true≢false (rw (plain, inside) at e))
  ]
]

-- None of the layer's own files has the path.
record NotOwn (path : List ℕ) : Type 0 where
  not_null : str_eq path dev_null_path ≡ false
  not_zero : str_eq path dev_zero_path ≡ false
  not_uptime : str_eq path uptime_path ≡ false
  not_ps : str_eq path ps_path ≡ false
  not_fs : str_eq path fs_path ≡ false
  not_proc : str_eq path proc_path ≡ false
  not_dev : str_eq path dev_path ≡ false

pseudo-NotOwn : (path : List ℕ) → kfs_path_is_pseudo path ≡ false → NotOwn path
unfolding kfs_path_is_pseudo
pseudo-NotOwn path e = record {
  not_null = ground (arith, e);
  not_zero = ground (arith, e);
  not_uptime = ground (arith, e);
  not_ps = ground (arith, e);
  not_fs = ground (arith, e);
  not_proc = ground (arith, e);
  not_dev = ground (arith, e);
}

-- Other paths go to VernisFS.
module _ {D : Type 0} (ops : DiskOps D) (v : Volumes) (s : Kfs D) (path : List ℕ)
    (up : s.mounted ≡ true) (free : is_protected v path ≡ false) where
  write-route :
      (bytes : List ℕ)
      → kfs_write_file ops v s path bytes ≡ (
        put_files s (vfs_write_file ops s.files path bytes).0,
        (vfs_write_file ops s.files path bytes).1,
      )
  unfolding kfs_write_file
  write-route bytes =
      let own = pseudo-NotOwn path (ordinary v path free).0 in
      simp (kfs_write_file, own.not_null, own.not_zero, free, up) refl

  read-route :
      (text : List ℕ → List ℕ) (max_len : ℕ)
      → (kfs_read_file ops v text s path max_len).1 ≡ (vfs_read_file ops s.files path max_len).1
  unfolding kfs_read_file
  read-route text max_len =
      let (plain, outside) = ordinary v path free in
      let own = pseudo-NotOwn path plain in
      simp
        (
          kfs_read_file, own.not_null, own.not_zero, own.not_uptime, own.not_ps, own.not_fs,
          own.not_proc, own.not_dev, outside, up,
        )
        refl

-- With a file system mounted, on a disk that works, and VernisFS up with a table and a superblock that fit
-- their fields: what is written through the layer, under a path that the layer does not keep for itself, of
-- fewer than 32 bytes without a zero byte, that is that of a file or finds a free entry, and of at most 255
-- sectors that end inside the 32-bit addresses, is read back through the layer into a buffer at least as
-- long, with zeros up to the end of the last sector: VernisFS is asked both times.
pub kfs_write_file-read :
    {D : Type 0} (ops : DiskOps D) (Fine : D → Type 0) (shows : D → ℕ → List ℕ)
    (disk : Array ops Fine shows) (v : Volumes) (text : List ℕ → List ℕ) (s : Kfs D)
    (path bytes : List ℕ) (max_len : ℕ)
    → Fine s.files.disk
    → s.mounted ≡ true
    → is_protected v path ≡ false
    → Writable s.files path bytes
    → length bytes ≤ max_len
    → ((kfs_write_file ops v s path bytes).1 ≡ some (length bytes))
      × ((kfs_read_file ops v text (kfs_write_file ops v s path bytes).0 path max_len).1
          ≡ some (length bytes, padded bytes))
kfs_write_file-read ops Fine shows disk v text s path bytes max_len ok up free w room =
    let (worked, gave) =
      vfs_write_file-read ops Fine shows disk s.files path bytes max_len ok w room in
    let written = write-route ops v s path up free bytes in
    (
      ap (λ r. r.1) written ∙ worked,
      ap (λ r. (kfs_read_file ops v text r.0 path max_len).1) written
          ∙ read-route ops v (put_files s (vfs_write_file ops s.files path bytes).0) path up free
              text max_len
          ∙ gave,
    )

-- ===== src/Kfs.antt =====
-- The layer over the file systems: kernel/fs/vfs.c and include/vfs.h. The drivers of FAT32 and ext2 and the text of
-- the files of /proc are parameters. A path is never null here.
use Prim.Native.Nat.{bit_and}
use vernis_os.Prelude.{
  ℕ, zero, suc, ◌+◌, ◌*◌, ◌/◌, ◌%◌, ◌^◌, List, [], ◌∷◌, ◌++◌, Option, none, some, Bool, true, false,
  ◌&&◌, ◌||◌, not, ◌==◌, ltb, leb, if◌then◌else◌, take, drop, replicate, length,
}
use vernis_os.Prelude.Strings.{str_eq}
use vernis_os.Prelude.Words.{u32}
use vernis_os.Vernisfs.{
  Vfs, DiskOps, FileEntry, zero_entry, entry_at, vfs_find_file, vfs_read_file, vfs_file_count,
  type_regular, type_directory, fixed_name,
}
use vernis_os.Vernisfs.Files.{
  vfs_write_file, vfs_append_file, vfs_mkdir, vfs_delete_file, vfs_list_dir, vfs_chmod, vfs_chown,
}
unfoldable pub use vernis_os.Kfs.Paths.{
  mnt_fat32, mnt_ext2, proc_path, dev_path, uptime_path, ps_path, fs_path, dev_null_path,
  dev_zero_path, mnt_path, root_path, kfs_mount_subpath, kfs_path_is_pseudo, node, kfs_find_pseudo,
}
pub mod Paths
pub mod Routes
mod Tests

-- The functions of a read-only driver: the size of a path and whether it is a directory, its bytes up to a
-- length, and the names in a directory; `none` for a negative result.
pub record Volume : Type 0 where
  pub stat : List ℕ → Option (ℕ × Bool)
  pub read : List ℕ → ℕ → Option (List ℕ)
  pub list : List ℕ → Option (List (List ℕ))

pub record Volumes : Type 0 where
  pub fat32 : Volume
  pub ext2 : Volume

-- `mounted` says that `g_ops` is not null.
pub record Kfs (D : Type 0) : Type 0 where
  pub mounted : Bool
  pub files : Vfs D

-- A path under one of the mounts: the driver and the path in its volume.
unfoldable pub on_volume : Volumes → List ℕ → Option (Volume × List ℕ)
on_volume v path = elim (kfs_mount_subpath path mnt_fat32) [
  | some sub ↦ some (v.fat32, sub)
  | none ↦ elim (kfs_mount_subpath path mnt_ext2) [ some sub ↦ some (v.ext2, sub) | none ↦ none ]
]

-- The scratch entry that `kfs_find_mounted` fills in. Its name ends at the first zero; the bytes behind it are
-- given as zeros.
abbrev pub mounted_entry : List ℕ → ℕ → Bool → FileEntry
mounted_entry path size is_dir = record zero_entry {
  filename = fixed_name path;
  size = size;
  type = if is_dir then type_directory else type_regular;
}

unfoldable pub kfs_find_mounted : Volumes → List ℕ → Option FileEntry
kfs_find_mounted v path = elim (on_volume v path) [
  | none ↦ none
  | some (volume, sub) ↦ elim (volume.stat sub) [
    | none ↦ none
    | some (size, is_dir) ↦ some (mounted_entry path size is_dir)
  ]
]

-- The test of `kfs_write_file` to `kfs_delete_file` for a path that they refuse.
unfoldable pub is_protected : Volumes → List ℕ → Bool
is_protected v path =
    if kfs_path_is_pseudo path
    then true
    else elim (on_volume v path) [ none ↦ false | some found ↦ true ]

abbrev pub is_sink : List ℕ → Bool
is_sink path = str_eq path dev_null_path || str_eq path dev_zero_path

module _ {D : Type 0} where
  unfoldable pub kfs_find_file : Volumes → Kfs D → List ℕ → Option FileEntry
  kfs_find_file v s path = elim (kfs_find_mounted v path) [
    | some e ↦ some e
    | none ↦ elim (kfs_find_pseudo path) [
      | some e ↦ some e
      | none ↦
          if s.mounted
          then elim (vfs_find_file s.files path) [
            | none ↦ none
            | some i ↦ some (entry_at s.files.filetable i)
          ]
          else none
    ]
  ]

  unfoldable pub kfs_file_count : Kfs D → ℕ
  kfs_file_count s = if s.mounted then vfs_file_count s.files else 0

  abbrev pub put_files : Kfs D → Vfs D → Kfs D
  put_files s files = record s { files = files }

-- The three bits of a mode that `kfs_check_perm` looks at.
unfoldable pub perm_bits : FileEntry → ℕ → ℕ
perm_bits e uid =
    if uid == e.uid
    then bit_and (e.mode / 2 ^ 6) 7
    else if uid == e.gid
    then bit_and (e.mode / 2 ^ 3) 7
    else bit_and e.mode 7

unfoldable pub has_perm : ℕ → (op : ℕ) → Bool
has_perm bits op =
    if op == b'r'
    then not (bit_and bits 4 == 0)
    else if op == b'w'
    then not (bit_and bits 2 == 0)
    else if op == b'x'
    then not (bit_and bits 1 == 0)
    else false

-- True where the source returns 0.
unfoldable pub kfs_check_perm : {D : Type 0} → Volumes → Kfs D → List ℕ → (uid op : ℕ) → Bool
kfs_check_perm v s path uid op =
    let found = kfs_find_file v s path in
    if uid == 0 then true else elim found [
      | none ↦ false
      | some e ↦ if e.mode == 0 then true else has_perm (perm_bits e uid) op
    ]

-- A name put behind the `count` that are there, if there is room.
abbrev pub kfs_list_dir_add : ℕ → List (List ℕ) → List ℕ → List (List ℕ)
kfs_list_dir_add max names path =
    if leb max (length names) then names else names ++ take 31 path ∷ []

-- A name of a volume behind its directory, cut to 31 bytes at each step as `kfs_append_str` does.
abbrev pub full_name : List ℕ → List ℕ → List ℕ
full_name dir name = take 31 (take 31 (take 31 dir ++ b'/' ∷ []) ++ name)

unfoldable pub listed : ℕ → List ℕ → List (List ℕ) → List (List ℕ)
listed max dir [] = []
listed zero dir (name ∷ names) = []
listed (suc max) dir (name ∷ names) = full_name dir name ∷ listed max dir names

-- The entries that the layer adds to a directory of its own.
unfoldable pub pseudo_names : List ℕ → List (List ℕ)
pseudo_names dir =
    if str_eq dir root_path
    then proc_path ∷ dev_path ∷ mnt_path ∷ []
    else if str_eq dir proc_path
    then uptime_path ∷ ps_path ∷ fs_path ∷ []
    else if str_eq dir dev_path
    then dev_null_path ∷ dev_zero_path ∷ []
    else if str_eq dir mnt_path
    then mnt_fat32 ∷ mnt_ext2 ∷ []
    else []

unfoldable pub add_all : ℕ → List (List ℕ) → List (List ℕ) → List (List ℕ)
add_all max names [] = names
add_all max names (path ∷ paths) = add_all max (kfs_list_dir_add max names path) paths

-- The names written to `out`; `none` for -1.
unfoldable pub kfs_list_dir :
    {D : Type 0} → Volumes → Kfs D → List ℕ → (max : ℕ) → Option (List (List ℕ))
kfs_list_dir v s dir max =
    let base : List (List ℕ) =
      if s.mounted
      then elim (vfs_list_dir s.files dir max) [ none ↦ [] | some names ↦ names ]
      else [] in
    if max == 0 then none else elim (on_volume v dir) [
      | some (volume, sub) ↦ elim (volume.list sub) [
        | none ↦ none
        | some names ↦ some (listed max dir names)
      ]
      | none ↦ some (add_all max base (pseudo_names dir))
    ]

module _ {D : Type 0} (ops : DiskOps D) where
  -- `text` is what a file of /proc holds; a result of -1 is `none`.
  abbrev pub proc_read : List ℕ → ℕ → Option (ℕ × List ℕ)
  proc_read text max_len =
      if max_len == 0 then none else some (length (take max_len text), take max_len text)

  abbrev pub volume_read : Option (List ℕ) → Option (ℕ × List ℕ)
  volume_read none = none
  volume_read (some bytes) = some (length bytes, bytes)

  -- `text` gives the contents of the files of /proc. The result has the number and the bytes put into the
  -- buffer.
  unfoldable pub kfs_read_file :
      Volumes
      → (text : List ℕ → List ℕ) → Kfs D
      → List ℕ
      → (max_len : ℕ) → Kfs D × Option (ℕ × List ℕ)
  kfs_read_file v text s path max_len =
      let (files, got) = vfs_read_file ops s.files path max_len in
      if str_eq path dev_null_path
      then (s, some (0, []))
      else if str_eq path dev_zero_path
      then (s, some (max_len, replicate max_len 0))
      else if str_eq path uptime_path
      then (s, proc_read (text uptime_path) max_len)
      else if str_eq path ps_path
      then (s, proc_read (text ps_path) max_len)
      else if str_eq path fs_path
      then (s, proc_read (text fs_path) max_len)
      else if str_eq path proc_path || str_eq path dev_path
      then (s, none)
      else elim (on_volume v path) [
        | some (volume, sub) ↦ (s, volume_read (volume.read sub (u32 max_len)))
        | none ↦ if s.mounted then (put_files s files, got) else (s, none)
      ]

  unfoldable pub kfs_write_file : Volumes → Kfs D → (path bytes : List ℕ) → Kfs D × Option ℕ
  kfs_write_file v s path bytes =
      let (files, result) = vfs_write_file ops s.files path bytes in
      if is_sink path
      then (s, some (length bytes))
      else if is_protected v path
      then (s, none)
      else if s.mounted
      then (put_files s files, result)
      else (s, none)

  unfoldable pub kfs_append_file : Volumes → Kfs D → (path bytes : List ℕ) → Kfs D × Option ℕ
  kfs_append_file v s path bytes =
      let (files, result) = vfs_append_file ops s.files path bytes in
      if is_sink path
      then (s, some (length bytes))
      else if is_protected v path
      then (s, none)
      else if s.mounted
      then (put_files s files, result)
      else (s, none)

  unfoldable pub kfs_mkdir : Volumes → Kfs D → List ℕ → Kfs D × Bool
  kfs_mkdir v s path =
      let (files, worked) = vfs_mkdir ops s.files path in
      if is_protected v path
      then (s, false)
      else if s.mounted
      then (put_files s files, worked)
      else (s, false)

  unfoldable pub kfs_delete_file : Volumes → Kfs D → List ℕ → Kfs D × Bool
  kfs_delete_file v s path =
      let (files, worked) = vfs_delete_file ops s.files path in
      if is_protected v path
      then (s, false)
      else if s.mounted
      then (put_files s files, worked)
      else (s, false)

  unfoldable pub kfs_chmod : Kfs D → List ℕ → (mode : ℕ) → Kfs D × Bool
  kfs_chmod s path mode =
      let (files, worked) = vfs_chmod ops s.files path mode in
      if kfs_path_is_pseudo path then (s, false) else (put_files s files, worked)

  unfoldable pub kfs_chown : Kfs D → List ℕ → (uid gid : ℕ) → Kfs D × Bool
  kfs_chown s path uid gid =
      let (files, worked) = vfs_chown ops s.files path uid gid in
      if kfs_path_is_pseudo path then (s, false) else (put_files s files, worked)

-- ===== src/Kfs/Paths.antt =====
-- The paths that the layer of kernel/fs/vfs.c keeps for itself: its own files and the two mounts.
use vernis_os.Prelude.{ℕ, List, [], ◌∷◌, Option, none, some, Bool, ◌||◌, ◌==◌, if◌then◌else◌}
use vernis_os.Prelude.Strings.{str_eq}
use vernis_os.Vernisfs.{FileEntry, zero_entry, type_regular, type_directory, fixed_name}

abbrev pub mnt_fat32 : List ℕ
mnt_fat32 = b'/' ∷ b'm' ∷ b'n' ∷ b't' ∷ b'/' ∷ b'f' ∷ b'a' ∷ b't' ∷ b'3' ∷ b'2' ∷ []

abbrev pub mnt_ext2 : List ℕ
mnt_ext2 = b'/' ∷ b'm' ∷ b'n' ∷ b't' ∷ b'/' ∷ b'e' ∷ b'x' ∷ b't' ∷ b'2' ∷ []

abbrev pub proc_path : List ℕ
proc_path = b'/' ∷ b'p' ∷ b'r' ∷ b'o' ∷ b'c' ∷ []

abbrev pub dev_path : List ℕ
dev_path = b'/' ∷ b'd' ∷ b'e' ∷ b'v' ∷ []

abbrev pub uptime_path : List ℕ
uptime_path = b'/' ∷ b'p' ∷ b'r' ∷ b'o' ∷ b'c' ∷ b'/' ∷ b'u' ∷ b'p' ∷ b't' ∷ b'i' ∷ b'm' ∷ b'e' ∷ []

abbrev pub ps_path : List ℕ
ps_path = b'/' ∷ b'p' ∷ b'r' ∷ b'o' ∷ b'c' ∷ b'/' ∷ b'p' ∷ b's' ∷ []

abbrev pub fs_path : List ℕ
fs_path = b'/' ∷ b'p' ∷ b'r' ∷ b'o' ∷ b'c' ∷ b'/' ∷ b'f' ∷ b's' ∷ []

abbrev pub dev_null_path : List ℕ
dev_null_path = b'/' ∷ b'd' ∷ b'e' ∷ b'v' ∷ b'/' ∷ b'n' ∷ b'u' ∷ b'l' ∷ b'l' ∷ []

abbrev pub dev_zero_path : List ℕ
dev_zero_path = b'/' ∷ b'd' ∷ b'e' ∷ b'v' ∷ b'/' ∷ b'z' ∷ b'e' ∷ b'r' ∷ b'o' ∷ []

abbrev pub mnt_path : List ℕ
mnt_path = b'/' ∷ b'm' ∷ b'n' ∷ b't' ∷ []

abbrev pub root_path : List ℕ
root_path = b'/' ∷ []

-- The path behind a prefix, "/" if there is none; `none` outside of it.
unfoldable pub kfs_mount_subpath : (path prefix : List ℕ) → Option (List ℕ)
kfs_mount_subpath [] [] = some root_path
kfs_mount_subpath (c ∷ cs) [] = if c == b'/' then some (c ∷ cs) else none
kfs_mount_subpath [] (p ∷ ps) = none
kfs_mount_subpath (c ∷ cs) (p ∷ ps) =
    let rest = kfs_mount_subpath cs ps in if c == p then rest else none

unfoldable pub kfs_path_is_pseudo : List ℕ → Bool
kfs_path_is_pseudo path =
    str_eq path proc_path
    || str_eq path dev_path
    || str_eq path uptime_path
    || str_eq path ps_path
    || str_eq path fs_path
    || str_eq path dev_null_path
    || str_eq path dev_zero_path
    || str_eq path mnt_path

-- The constant entries.
abbrev pub node : List ℕ → ℕ → FileEntry
node path type = record zero_entry { filename = fixed_name path; type = type }

unfoldable pub kfs_find_pseudo : List ℕ → Option FileEntry
kfs_find_pseudo path =
    if str_eq path proc_path
    then some (node proc_path type_directory)
    else if str_eq path dev_path
    then some (node dev_path type_directory)
    else if str_eq path uptime_path
    then some (node uptime_path type_regular)
    else if str_eq path ps_path
    then some (node ps_path type_regular)
    else if str_eq path fs_path
    then some (node fs_path type_regular)
    else if str_eq path dev_null_path
    then some (node dev_null_path type_regular)
    else if str_eq path dev_zero_path
    then some (node dev_zero_path type_regular)
    else if str_eq path mnt_path
    then some (node mnt_path type_directory)
    else none

-- ===== src/Kfs/Tests.antt =====
-- The layer over a file system with two files and empty volumes.
use vernis_os.Prelude.{◌≡◌, refl, ◌∷◌, ◌++◌, none, some, true, false, arith}
use vernis_os.Prelude.Strings.{str_eq}
use vernis_os.Cache.Tests.{Platter}
use vernis_os.Vernisfs.Disk.{padded}
use vernis_os.Vernisfs.Tests.{
  platter_ops, Any, shown, platter-Array, small_fs, c_path, letters, all_same, new-Writable,
}
use vernis_os.Kfs.{
  Kfs, Volume, Volumes, mnt_fat32, mnt_ext2, on_volume, kfs_mount_subpath, kfs_path_is_pseudo,
  is_protected, kfs_read_file, kfs_write_file,
}
use vernis_os.Kfs.Routes.{Refused, mounts-Refused, kfs_write_file-read}

abbrev no_volume : Volume
no_volume = record { stat = λ path. none; read = λ path n. none; list = λ path. none }

abbrev no_volumes : Volumes
no_volumes = record { fat32 = no_volume; ext2 = no_volume }

abbrev layer : Kfs Platter
layer = record { mounted = true; files = small_fs }

mounts-Refused_example :
    Refused platter_ops no_volumes layer (mnt_fat32 ++ b'/' ∷ c_path) letters
    × Refused platter_ops no_volumes layer (mnt_ext2 ++ b'/' ∷ c_path) letters
mounts-Refused_example = mounts-Refused platter_ops no_volumes layer c_path letters

c-ordinary : is_protected no_volumes c_path ≡ false
unfolding is_protected kfs_path_is_pseudo on_volume kfs_mount_subpath str_eq
c-ordinary = refl

kfs_write_file-read_example :
    ((kfs_write_file platter_ops no_volumes layer c_path letters).1 ≡ some 2)
    × ((kfs_read_file platter_ops no_volumes
          (λ path. path)
          (kfs_write_file platter_ops no_volumes layer c_path letters).0
          c_path
          512).1
        ≡ some (2, padded letters))
kfs_write_file-read_example =
    kfs_write_file-read platter_ops Any shown platter-Array no_volumes (λ path. path) layer c_path
      letters 512 tt refl c-ordinary (new-Writable all_same) (omega arith)

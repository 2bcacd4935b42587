-- ===== src/Vernisfs/Tests.antt =====
-- A file system with two files on a disk made of a function, and the theorems about it.
use vernis_os.Prelude.{
  ℕ, zero, suc, ◌^◌, ◌<◌, ◌≡◌, refl, ap, List, [], ◌∷◌, ◌++◌, some, none, true, false, inl, inr,
  arith, replicate, get_or-replicate, All-replicate, length,
}
use vernis_os.Prelude.Find.{find_index, find_from}
use vernis_os.Prelude.Bytes.{c_string, to_le}
use vernis_os.Prelude.Strings.{str_eq}
use vernis_os.Sectors.{sectors, put_sectors}
use vernis_os.Cache.Tests.{
  Platter, platter_driver, on_platter, platter_works, blank, blank-Fine, blank-ready,
}
use vernis_os.Vernisfs.{
  Vfs, DiskOps, Superblock, FileEntry, zero_entry, entry_at, is_file, name_of, encode_entry,
  vfs_magic, vfs_find_file, vfs_read_file, vfs_init,
}
use vernis_os.Vernisfs.Files.{vfs_write_file, vfs_append_file, vfs_delete_file}
use vernis_os.Vernisfs.Disk.{Array, padded}
use vernis_os.Vernisfs.Metadata.{EntryFits, Savable}
use vernis_os.Vernisfs.Slots.{start_for}
use vernis_os.Vernisfs.Contents.{Holds, Writable}
use vernis_os.Vernisfs.Roundtrip.{vfs_write_file-init-read, vfs_write_file-others}
use vernis_os.Vernisfs.Append.{vfs_append_file-read}
use vernis_os.Vernisfs.Delete.{vfs_delete_file-gone, vfs_delete_file-others}
use vernis_os.Vernisfs.Cached.{cache_ops, cached_write-read}

abbrev pub platter_ops : DiskOps Platter
platter_ops = record {
  disk_read = λ d l n. (d, some (sectors d l 0 n));
  disk_write = λ d l n buf. (put_sectors d l 0 n buf, true);
}

abbrev pub Any : Platter → Type 0
Any d = Unit

abbrev pub shown : Platter → ℕ → List ℕ
shown d = d

pub platter-Array : Array platter_ops Any shown
platter-Array = record {
  read_fine = λ d l n ok small. tt;
  read_gives = λ d l n ok small. refl;
  read_keeps = λ d l n k ok small. refl;
  write_fine = λ d l n buf ok small size. tt;
  write_works = λ d l n buf ok small size. refl;
  write_puts = λ d l n buf k ok small size. refl;
}

abbrev pub file : ℕ → ℕ → FileEntry
file letter start = record zero_entry {
  filename = letter ∷ replicate 31 0;
  start_sector = start;
  size = 3;
  type = 1;
}

file-Fits : (letter start : ℕ) → start < 2 ^ 32 → EntryFits (file letter start)
file-Fits letter start fits = record {
  filename_size = refl;
  start_fits = omega arith;
  size_fits = omega arith;
  type_fits = omega arith;
  flags_fits = omega arith;
  mode_fits = omega arith;
  uid_fits = omega arith;
  gid_fits = omega arith;
  reserved_size = refl;
}

abbrev pub two_files : List FileEntry
two_files = file b'a' 0 ∷ file b'b' 1 ∷ replicate 30 zero_entry

abbrev pub block_of : Superblock
block_of = record {
  magic = vfs_magic;
  version = 1;
  file_count = 2;
  total_data_sectors = 100;
  first_free_sector = 2;
  reserved = replicate 16 0;
}

abbrev pub over : {D : Type 0} → D → Vfs D
over d = record { superblock = block_of; filetable = two_files; ready = true; disk = d }

abbrev pub all_same : Platter
all_same k = 1 ∷ 2 ∷ 3 ∷ replicate 509 0

abbrev pub small_fs : Vfs Platter
small_fs = over all_same

over-Savable : {D : Type 0} (d : D) → Savable (over d)
over-Savable d = record {
  entries = refl;
  table_fits = (
    file-Fits b'a' 0 (omega arith),
    (
      file-Fits b'b' 1 (omega arith),
      All-replicate EntryFits 30 zero_entry (record {
        filename_size = refl;
        start_fits = omega arith;
        size_fits = omega arith;
        type_fits = omega arith;
        flags_fits = omega arith;
        mode_fits = omega arith;
        uid_fits = omega arith;
        gid_fits = omega arith;
        reserved_size = refl;
      }),
    ),
  );
  superblock_fits = record {
    magic_fits = omega arith;
    version_fits = omega arith;
    count_fits = omega arith;
    total_fits = omega arith;
    free_fits = omega arith;
    reserved_size = refl;
  };
  named = refl;
}

abbrev a_path : List ℕ
a_path = b'a' ∷ []

abbrev b_path : List ℕ
b_path = b'b' ∷ []

abbrev pub c_path : List ℕ
c_path = b'c' ∷ []

abbrev pub letters : List ℕ
letters = b'x' ∷ b'y' ∷ []

abbrev old_bytes : List ℕ
old_bytes = 1 ∷ 2 ∷ 3 ∷ []

vernisfs_code : ℕ
unfolding find_index find_from name_of c_string encode_entry to_le str_eq start_for sectors
    vfs_find_file
vernisfs_code = 0

pub new-Writable : {D : Type 0} (d : D) → Writable (over d) c_path letters
unfolding vernisfs_code
new-Writable d = record {
  up = refl;
  can = over-Savable d;
  text = (omega arith, tt);
  short = omega arith;
  slot = inr (2, refl);
  small = omega arith;
  low = omega arith;
}

old-Writable : Writable small_fs b_path (old_bytes ++ letters)
unfolding vernisfs_code
old-Writable = record {
  up = refl;
  can = over-Savable all_same;
  text = (omega arith, tt);
  short = omega arith;
  slot = inl (1, refl);
  small = omega arith;
  low = omega arith;
}

unfoldable b_held : Holds shown small_fs b_path old_bytes
unfolding vernisfs_code
b_held = record {
  up = refl;
  slot = 1;
  hit = record {
    inside = omega arith;
    passes = refl;
    first = λ j. elim j as (λ j. j < 1 → is_file b_path (entry_at two_files j) ≡ false) [
      | zero ↦ λ lt. refl
      | suc j ↦ λ lt. absurd (omega arith)
    ];
  };
  size = refl;
  small = omega arith;
  low = omega arith;
  contents = refl;
}

-- The first letter of a name.
abbrev first_letter : List ℕ → ℕ
first_letter [] = 0
first_letter (c ∷ cs) = c

vfs_write_file-init-read_example :
    (let s1 = (vfs_write_file platter_ops small_fs c_path letters).0 in
      let r = vfs_init platter_ops (record small_fs { disk = s1.disk }) in
      (r.1 ≡ true)
      × (r.0.superblock ≡ s1.superblock)
      × (r.0.filetable ≡ s1.filetable)
      × ((vfs_read_file platter_ops r.0 c_path 512).1 ≡ some (2, padded letters)))
vfs_write_file-init-read_example =
    vfs_write_file-init-read platter_ops Any shown platter-Array small_fs small_fs c_path letters
      512 tt (new-Writable all_same) (omega arith)

vfs_write_file-others_example :
    Holds shown (vfs_write_file platter_ops small_fs c_path letters).0 b_path old_bytes
unfolding vernisfs_code b_held
vfs_write_file-others_example =
    vfs_write_file-others platter_ops Any shown platter-Array small_fs c_path letters b_path
      old_bytes b_held tt (new-Writable all_same) (omega arith, tt)
      (λ e. absurd (ground (arith, ap first_letter e))) (inr (omega arith))

vfs_append_file-read_example :
    ((vfs_append_file platter_ops small_fs b_path letters).1 ≡ some 5)
    × ((vfs_read_file platter_ops
          (vfs_append_file platter_ops small_fs b_path letters).0
          b_path
          512).1
        ≡ some (5, padded (old_bytes ++ letters)))
vfs_append_file-read_example =
    vfs_append_file-read platter_ops Any shown platter-Array small_fs b_path old_bytes letters 512
      tt b_held old-Writable (omega arith) (omega arith)

found_a : vfs_find_file small_fs a_path ≡ some 0
unfolding vernisfs_code
found_a = refl

only_a : (j : ℕ) → j < length two_files → is_file a_path (entry_at two_files j) ≡ true → j ≡ 0
unfolding vernisfs_code
only_a zero lt hit = refl
only_a (suc zero) lt hit = cc
only_a (suc (suc j)) lt hit =
    absurd (cc (hit, ap (is_file a_path) (get_or-replicate 30 j zero_entry)))

vfs_delete_file-gone_example :
    ((vfs_delete_file platter_ops small_fs a_path).1 ≡ true)
    × (vfs_find_file (vfs_delete_file platter_ops small_fs a_path).0 a_path ≡ none)
vfs_delete_file-gone_example =
    vfs_delete_file-gone platter_ops Any shown platter-Array small_fs a_path 0 tt
      (over-Savable all_same) refl found_a only_a

vfs_delete_file-others_example :
    Holds shown (vfs_delete_file platter_ops small_fs a_path).0 b_path old_bytes
vfs_delete_file-others_example =
    vfs_delete_file-others platter_ops Any shown platter-Array small_fs a_path 0 tt
      (over-Savable all_same) refl found_a b_path old_bytes (omega arith, tt) (omega arith, tt)
      (λ e. absurd (ground (arith, ap first_letter e))) b_held

cached_write-read_example :
    ((vfs_write_file (cache_ops platter_driver) (over blank) c_path letters).1 ≡ some 2)
    × ((vfs_read_file
          (cache_ops platter_driver)
          (vfs_write_file (cache_ops platter_driver) (over blank) c_path letters).0
          c_path
          512).1
        ≡ some (2, padded letters))
cached_write-read_example =
    cached_write-read platter_driver on_platter platter_works (over blank) c_path letters 512
      (blank-Fine, blank-ready.0, blank-ready.1, blank-ready.2) (new-Writable blank) (omega arith)

-- ===== src/Vernisfs.antt =====
-- VernisFS: kernel/fs/vernisfs.c and include/vernisfs.h, above the pair of functions that read and write
-- sectors (`g_disk_read`, `g_disk_write`), which are a parameter: by default the ATA driver, with the block
-- cache the functions of kernel/fs/bcache.c.
use Prim.Native.Nat.{bit_and}
use vernis_os.Prelude.{
  ℕ, zero, suc, ◌+◌, ◌-◌, ◌*◌, ◌/◌, ◌%◌, ◌^◌, List, [], ◌∷◌, ◌++◌, Option, none, some, Bool, true,
  false, ◌&&◌, ◌||◌, not, ◌==◌, ltb, leb, if◌then◌else◌, get_or, set, take, drop, length, replicate,
}
use vernis_os.Prelude.Find.{find_index, count_if}
use vernis_os.Prelude.Bytes.{to_le, from_le, c_string}
use vernis_os.Prelude.Strings.{str_eq}
use vernis_os.Prelude.Words.{u16, u32}
pub mod Files
pub mod Disk
mod Metadata
mod Names
pub mod Slots
pub mod Contents
mod Write
pub mod Roundtrip
mod Append
mod Delete
mod Cached
pub mod Tests

abbrev pub vfs_start_sector : ℕ
vfs_start_sector = 5120

abbrev pub vfs_filetable_sectors : ℕ
vfs_filetable_sectors = 4

abbrev pub vfs_data_sector : ℕ
vfs_data_sector = 5

abbrev pub vfs_max_files : ℕ
vfs_max_files = 32

abbrev pub vfs_max_filename : ℕ
vfs_max_filename = 32

abbrev pub vfs_magic : ℕ
vfs_magic = 0x53465600

abbrev pub type_empty : ℕ
type_empty = 0

abbrev pub type_regular : ℕ
type_regular = 1

abbrev pub type_directory : ℕ
type_directory = 2

pub record Superblock : Type 0 where
  pub magic : ℕ
  pub version : ℕ
  pub file_count : ℕ
  pub total_data_sectors : ℕ
  pub first_free_sector : ℕ
  pub reserved : List ℕ

-- `VfsFileEntry`; `filename` is its 32 bytes.
pub record FileEntry : Type 0 where
  pub filename : List ℕ
  pub start_sector : ℕ
  pub size : ℕ
  pub type : ℕ
  pub flags : ℕ
  pub mode : ℕ
  pub uid : ℕ
  pub gid : ℕ
  pub reserved : List ℕ

-- The disk functions on a disk's state: the bytes of `count` sectors, or `none` for a negative result; whether
-- a write gave a result that is not negative.
pub record DiskOps (D : Type 0) : Type 0 where
  pub disk_read : D → (lba count : ℕ) → D × Option (List ℕ)
  pub disk_write : D → (lba count : ℕ) → List ℕ → D × Bool

pub record Vfs (D : Type 0) : Type 0 where
  pub superblock : Superblock
  pub filetable : List FileEntry
  pub ready : Bool
  pub disk : D

abbrev pub zero_entry : FileEntry
zero_entry = record {
  filename = replicate 32 0;
  start_sector = 0;
  size = 0;
  type = 0;
  flags = 0;
  mode = 0;
  uid = 0;
  gid = 0;
  reserved = replicate 16 0;
}

-- The packed structures as bytes.
unfoldable pub encode_superblock : Superblock → List ℕ
encode_superblock sb =
    to_le 4 sb.magic
    ++ (to_le 2 sb.version
        ++ (to_le 2 sb.file_count
            ++ (to_le 4 sb.total_data_sectors ++ (to_le 4 sb.first_free_sector ++ sb.reserved))))

unfoldable pub decode_superblock : List ℕ → Superblock
decode_superblock buf = record {
  magic = from_le (take 4 buf);
  version = from_le (take 2 (drop 4 buf));
  file_count = from_le (take 2 (drop 6 buf));
  total_data_sectors = from_le (take 4 (drop 8 buf));
  first_free_sector = from_le (take 4 (drop 12 buf));
  reserved = take 16 (drop 16 buf);
}

unfoldable pub encode_entry : FileEntry → List ℕ
encode_entry e =
    e.filename
    ++ (to_le 4 e.start_sector
        ++ (to_le 4 e.size
            ++ (to_le 1 e.type
                ++ (to_le 1 e.flags
                    ++ (to_le 2 e.mode ++ (to_le 2 e.uid ++ (to_le 2 e.gid ++ e.reserved)))))))

unfoldable pub decode_entry : List ℕ → FileEntry
decode_entry buf = record {
  filename = take 32 buf;
  start_sector = from_le (take 4 (drop 32 buf));
  size = from_le (take 4 (drop 36 buf));
  type = from_le (take 1 (drop 40 buf));
  flags = from_le (take 1 (drop 41 buf));
  mode = from_le (take 2 (drop 42 buf));
  uid = from_le (take 2 (drop 44 buf));
  gid = from_le (take 2 (drop 46 buf));
  reserved = take 16 (drop 48 buf);
}

unfoldable pub encode_table : List FileEntry → List ℕ
encode_table [] = []
encode_table (e ∷ es) = encode_entry e ++ encode_table es

-- `n` entries, one after the other.
unfoldable pub decode_table : List ℕ → ℕ → List FileEntry
decode_table buf zero = []
decode_table buf (suc n) = decode_entry buf ∷ decode_table (drop 64 buf) n

-- The name as the string that starts at the entry's first byte: without a terminator in its 32 bytes it runs
-- on into the fields behind it.
unfoldable pub name_of : FileEntry → List ℕ
name_of e = c_string (encode_entry e)

-- `vfs_strncpy` into the name: at most 31 bytes, and zeros up to the end.
unfoldable pub fixed_name : List ℕ → List ℕ
fixed_name path = take 31 path ++ replicate (32 - length (take 31 path)) 0

abbrev pub is_used : FileEntry → Bool
is_used e = not (e.type == type_empty)

-- The test of the loops over the table, and the one for a free entry.
abbrev pub is_file : List ℕ → FileEntry → Bool
is_file path e = is_used e && str_eq (name_of e) path

abbrev pub is_free : FileEntry → Bool
is_free e = e.type == type_empty

abbrev pub entry_at : List FileEntry → ℕ → FileEntry
entry_at table i = get_or table i zero_entry

module _ {D : Type 0} where
  -- The index of the entry that `vfs_find_file` and `vfs_find_file_mut` return a pointer to.
  unfoldable pub vfs_find_file : Vfs D → List ℕ → Option ℕ
  vfs_find_file s path = if s.ready then find_index (is_file path) s.filetable else none

  abbrev pub put_entry : Vfs D → ℕ → FileEntry → Vfs D
  put_entry s i e = record s { filetable = set s.filetable i e }

  unfoldable pub vfs_file_count : Vfs D → ℕ
  vfs_file_count s = if s.ready then s.superblock.file_count else 0

-- The first sector of an entry on the disk, in `uint32_t`.
abbrev pub abs_sector : FileEntry → ℕ
abs_sector e = u32 (vfs_start_sector + vfs_data_sector + e.start_sector)

module _ {D : Type 0} (ops : DiskOps D) where
  unfoldable pub vfs_init : Vfs D → Vfs D × Bool
  vfs_init s =
      let (d1, sb_buf) = ops.disk_read s.disk vfs_start_sector 1 in
      elim sb_buf [
        | none ↦ (record s { disk = d1 }, false)
        | some sb ↦
            let (d2, ft_buf) = ops.disk_read d1 (vfs_start_sector + 1) vfs_filetable_sectors in
            if not ((decode_superblock sb).magic == vfs_magic)
            then (record s { disk = d1 }, false)
            else elim ft_buf [
              | none ↦ (record s { superblock = decode_superblock sb; disk = d2 }, false)
              | some ft ↦ (
                record {
                  superblock = decode_superblock sb;
                  filetable = decode_table ft vfs_max_files;
                  ready = true;
                  disk = d2;
                },
                true,
              )
            ]
      ]

  -- The loop of `vfs_read_file` with `left` sectors to read from `lba` on, in chunks of up to 128.
  unfoldable pub read_chunks : D → (lba left fuel : ℕ) → D × Option (List ℕ)
  read_chunks d lba left zero = (d, some [])
  read_chunks d lba left (suc fuel) =
      let chunk = if ltb 128 left then 128 else left in
      let (d1, got) = ops.disk_read d lba chunk in
      let (d2, rest) = read_chunks d1 (u32 (lba + chunk)) (left - chunk) fuel in
      if left == 0 then (d, some []) else elim got [
        | none ↦ (d1, none)
        | some bytes ↦ elim rest [ none ↦ (d2, none) | some more ↦ (d2, some (bytes ++ more)) ]
      ]

  -- The result and the bytes that the source puts into the buffer, which are whole sectors.
  unfoldable pub vfs_read_file : Vfs D → List ℕ → ℕ → Vfs D × Option (ℕ × List ℕ)
  vfs_read_file s path max_len = elim (vfs_find_file s path) [
    | none ↦ (s, none)
    | some i ↦
        let e = entry_at s.filetable i in
        let size = if ltb max_len e.size then u32 max_len else e.size in
        let needed = u32 (size + 511) / 512 in
        let count = if ltb 255 needed then 255 else needed in
        let (d, got) = read_chunks s.disk (abs_sector e) count count in
        elim got [
          | none ↦ (record s { disk = d }, none)
          | some bytes ↦ (record s { disk = d }, some (size, bytes))
        ]
  ]

  -- True where the source returns 0.
  unfoldable pub vfs_flush_metadata : Vfs D → Vfs D × Bool
  vfs_flush_metadata s =
      let sb = encode_superblock s.superblock in
      let (d1, first) =
        ops.disk_write s.disk vfs_start_sector 1 (sb ++ replicate (512 - length sb) 0) in
      let (d2, second) =
        ops.disk_write d1 (vfs_start_sector + 1) vfs_filetable_sectors (encode_table s.filetable) in
      if not first then (record s { disk = d1 }, false) else (record s { disk = d2 }, second)

  -- "Write full sectors", from sector `i` of the data on, for `n` sectors.
  unfoldable pub write_full : D → (abs i n : ℕ) → List ℕ → D × Bool
  write_full d abs i zero bytes = (d, true)
  write_full d abs i (suc n) bytes =
      let (d1, worked) = ops.disk_write d (u32 (abs + i)) 1 (take 512 (drop (i * 512) bytes)) in
      let rest = write_full d1 abs (i + 1) n bytes in if worked then rest else (d1, false)

  -- "Write partial last sector (padded)"
  unfoldable pub write_partial : D → (abs full remainder : ℕ) → List ℕ → D × Bool
  write_partial d abs full remainder bytes =
      if remainder == 0
      then (d, true)
      else ops.disk_write d (u32 (abs + full)) 1
          (take remainder (drop (full * 512) bytes) ++ replicate (512 - remainder) 0)

  -- The data of a file, `len` bytes of it.
  unfoldable pub write_data : D → (abs len : ℕ) → List ℕ → D × Bool
  write_data d abs len bytes =
      let (d1, worked) = write_full d abs 0 (len / 512) bytes in
      if worked then write_partial d1 abs (len / 512) (len % 512) bytes else (d1, false)

-- ===== src/Vernisfs/Metadata.antt =====
-- The superblock and the file table as bytes, and on the disk.
use mathlib.Core.List.{append_assoc}
use vernis_os.Prelude.{
  ℕ, ◌+◌, ◌-◌, ◌*◌, ◌^◌, ◌<◌, ◌≤◌, ◌≡◌, refl, sym, ◌∙◌, ap, List, [], ◌∷◌, ◌++◌, some, Bool, true,
  inl, inr, arith, ◌==◌, length, take, drop, replicate, take-append, drop-append, drop-plus,
  take-length, length-append, length-replicate, All,
}
use vernis_os.Prelude.Bytes.{to_le, from_le, length-to_le, from_le-to_le}
use vernis_os.Sectors.{
  sectors, put_sectors, put_outside, put-sectors, chunks-take, sectors_ext, sectors-agree,
}
use vernis_os.Vernisfs.{
  Vfs, DiskOps, Superblock, FileEntry, encode_superblock, decode_superblock, encode_entry,
  decode_entry, encode_table, decode_table, vfs_flush_metadata, vfs_init, vfs_magic, vfs_max_files,
}
use vernis_os.Vernisfs.Disk.{Array}

-- Values that the fields of the packed structures can hold.
pub record EntryFits (e : FileEntry) : Type 0 where
  pub filename_size : length e.filename ≡ 32
  pub start_fits : e.start_sector < 256 ^ 4
  pub size_fits : e.size < 256 ^ 4
  pub type_fits : e.type < 256 ^ 1
  pub flags_fits : e.flags < 256 ^ 1
  pub mode_fits : e.mode < 256 ^ 2
  pub uid_fits : e.uid < 256 ^ 2
  pub gid_fits : e.gid < 256 ^ 2
  pub reserved_size : length e.reserved ≡ 16

pub record SuperblockFits (sb : Superblock) : Type 0 where
  pub magic_fits : sb.magic < 256 ^ 4
  pub version_fits : sb.version < 256 ^ 2
  pub count_fits : sb.file_count < 256 ^ 2
  pub total_fits : sb.total_data_sectors < 256 ^ 4
  pub free_fits : sb.first_free_sector < 256 ^ 4
  pub reserved_size : length sb.reserved ≡ 16

-- A field at place `n` of a buffer, and what comes behind it.
field :
    (buf xs ys rest : List ℕ) (n m : ℕ)
    → drop n buf ≡ (xs ++ ys) ++ rest
    → length xs ≡ m
    → (take m (drop n buf) ≡ xs) × (drop (n + m) buf ≡ ys ++ rest)
field buf xs ys rest n m at size =
    let there = at ∙ append_assoc xs ys rest in
    (
      ap (take m) there
          ∙ ap (λ k. take k (xs ++ (ys ++ rest))) (sym size)
          ∙ take-append xs (ys ++ rest),
      sym (drop-plus n m buf)
          ∙ ap (drop m) there
          ∙ ap (λ k. drop k (xs ++ (ys ++ rest))) (sym size)
          ∙ drop-append xs (ys ++ rest),
    )

-- A number field.
number :
    (buf ys rest : List ℕ) (n m v : ℕ)
    → drop n buf ≡ (to_le m v ++ ys) ++ rest
    → v < 256 ^ m
    → (from_le (take m (drop n buf)) ≡ v) × (drop (n + m) buf ≡ ys ++ rest)
number buf ys rest n m v at fits =
    let (here, behind) = field buf (to_le m v) ys rest n m at (length-to_le m v) in
    (ap from_le here ∙ from_le-to_le m v fits, behind)

-- A last field.
last :
    (buf xs rest : List ℕ) (n m : ℕ)
    → drop n buf ≡ xs ++ rest
    → length xs ≡ m
    → (take m (drop n buf) ≡ xs) × (drop (n + m) buf ≡ rest)
last buf xs rest n m at size = (
  ap (take m) at ∙ ap (λ k. take k (xs ++ rest)) (sym size) ∙ take-append xs rest,
  sym (drop-plus n m buf)
      ∙ ap (drop m) at
      ∙ ap (λ k. drop k (xs ++ rest)) (sym size)
      ∙ drop-append xs rest,
)

pub decode_entry-encode_entry :
    (e : FileEntry) (rest : List ℕ)
    → EntryFits e
    → (decode_entry (encode_entry e ++ rest) ≡ e) × (drop 64 (encode_entry e ++ rest) ≡ rest)
unfolding encode_entry decode_entry
decode_entry-encode_entry e rest ok =
    let buf = encode_entry e ++ rest in
    let (name, at32) = field buf e.filename _ rest 0 32 refl ok.filename_size in
    let (start, at36) = number buf _ rest 32 4 e.start_sector at32 ok.start_fits in
    let (size, at40) = number buf _ rest 36 4 e.size at36 ok.size_fits in
    let (type, at41) = number buf _ rest 40 1 e.type at40 ok.type_fits in
    let (flags, at42) = number buf _ rest 41 1 e.flags at41 ok.flags_fits in
    let (mode, at44) = number buf _ rest 42 2 e.mode at42 ok.mode_fits in
    let (uid, at46) = number buf _ rest 44 2 e.uid at44 ok.uid_fits in
    let (gid, at48) = number buf e.reserved rest 46 2 e.gid at46 ok.gid_fits in
    let (reserved, behind) = last buf e.reserved rest 48 16 at48 ok.reserved_size in
    (
      λ i. record {
        filename = name i;
        start_sector = start i;
        size = size i;
        type = type i;
        flags = flags i;
        mode = mode i;
        uid = uid i;
        gid = gid i;
        reserved = reserved i;
      },
      behind,
    )

pub decode_superblock-encode_superblock :
    (sb : Superblock) (rest : List ℕ)
    → SuperblockFits sb
    → decode_superblock (encode_superblock sb ++ rest) ≡ sb
unfolding encode_superblock decode_superblock
decode_superblock-encode_superblock sb rest ok =
    let buf = encode_superblock sb ++ rest in
    let (magic, at4) = number buf _ rest 0 4 sb.magic refl ok.magic_fits in
    let (version, at6) = number buf _ rest 4 2 sb.version at4 ok.version_fits in
    let (count, at8) = number buf _ rest 6 2 sb.file_count at6 ok.count_fits in
    let (total, at12) = number buf _ rest 8 4 sb.total_data_sectors at8 ok.total_fits in
    let (free, at16) = number buf sb.reserved rest 12 4 sb.first_free_sector at12 ok.free_fits in
    let (reserved, behind) = last buf sb.reserved rest 16 16 at16 ok.reserved_size in
    λ i. record {
      magic = magic i;
      version = version i;
      file_count = count i;
      total_data_sectors = total i;
      first_free_sector = free i;
      reserved = reserved i;
    }

-- The table comes back from its bytes.
pub decode_table-encode_table :
    (es : List FileEntry) → All EntryFits es → decode_table (encode_table es) (length es) ≡ es
unfolding encode_table decode_table
decode_table-encode_table [] ok = refl
decode_table-encode_table (e ∷ es) ok =
    let (here, behind) = decode_entry-encode_entry e (encode_table es) ok.0 in
    ap (λ x. x ∷ decode_table (drop 64 (encode_entry e ++ encode_table es)) (length es)) here
    ∙ ap (λ b. e ∷ decode_table b (length es)) behind
    ∙ ap (λ l. e ∷ l) (decode_table-encode_table es ok.1)

length-encode_entry : (e : FileEntry) → EntryFits e → length (encode_entry e) ≡ 64
unfolding encode_entry
length-encode_entry e ok =
    simp (length-append, length-to_le, ok.filename_size, ok.reserved_size) refl

length-encode_superblock :
    (sb : Superblock) → SuperblockFits sb → length (encode_superblock sb) ≡ 32
unfolding encode_superblock
length-encode_superblock sb ok = simp (length-append, length-to_le, ok.reserved_size) refl

length-encode_table :
    (es : List FileEntry) → All EntryFits es → length (encode_table es) ≡ length es * 64
unfolding encode_table
length-encode_table [] ok = refl
length-encode_table (e ∷ es) ok = omega (
  arith,
  length-append (encode_entry e) (encode_table es),
  length-encode_entry e ok.0,
  length-encode_table es ok.1,
)

-- A state whose superblock and table can be saved.
pub record Savable {D : Type 0} (s : Vfs D) : Type 0 where
  pub entries : length s.filetable ≡ vfs_max_files
  pub table_fits : All EntryFits s.filetable
  pub superblock_fits : SuperblockFits s.superblock
  pub named : s.superblock.magic ≡ vfs_magic

abbrev superblock_sector : Superblock → List ℕ
superblock_sector sb = encode_superblock sb ++ replicate (512 - length (encode_superblock sb)) 0

module _ {D : Type 0} (shows : D → ℕ → List ℕ) where
  -- A disk that holds the superblock and the table of `s`.
  pub record Saved (s : Vfs D) (d : D) : Type 0 where
    pub superblock_there : sectors (shows d) 5120 0 1 ≡ superblock_sector s.superblock
    pub table_there : sectors (shows d) 5121 0 4 ≡ encode_table s.filetable

module _ {D : Type 0} (Fine : D → Type 0) (shows : D → ℕ → List ℕ) where
  -- What a flush leaves.
  pub record Flushed (s : Vfs D) (r : Vfs D × Bool) : Type 0 where
    pub works : r.1 ≡ true
    pub fine : Fine r.0.disk
    pub same_table : r.0.filetable ≡ s.filetable
    pub same_superblock : r.0.superblock ≡ s.superblock
    pub same_ready : r.0.ready ≡ s.ready
    pub saved : Saved shows s r.0.disk
    pub elsewhere : (k : ℕ) → 5125 ≤ k → shows r.0.disk k ≡ shows s.disk k

  -- What `vfs_init` makes of a disk that holds the superblock and the table of `s`.
  pub record Loaded (s : Vfs D) (d : D) (r : Vfs D × Bool) : Type 0 where
    pub works : r.1 ≡ true
    pub fine : Fine r.0.disk
    pub table : r.0.filetable ≡ s.filetable
    pub superblock : r.0.superblock ≡ s.superblock
    pub up : r.0.ready ≡ true
    pub same : (k : ℕ) → shows r.0.disk k ≡ shows d k

module _ {D : Type 0} (ops : DiskOps D) (Fine : D → Type 0) (shows : D → ℕ → List ℕ)
    (disk : Array ops Fine shows) where
  pub flush-Flushed :
      (s : Vfs D) → Fine s.disk → Savable s → Flushed Fine shows s (vfs_flush_metadata ops s)
  unfolding vfs_flush_metadata
  flush-Flushed s ok can =
      let sb = superblock_sector s.superblock in
      let table = encode_table s.filetable in
      let sb_size : length sb ≡ 1 * 512 =
        let short = length-encode_superblock s.superblock can.superblock_fits in
        omega (
          arith,
          length-append (encode_superblock s.superblock)
              (replicate (512 - length (encode_superblock s.superblock)) 0),
          length-replicate {A = ℕ} (512 - length (encode_superblock s.superblock)) 0,
          short,
        ) in
      let table_size : length table ≡ 4 * 512 =
        omega (arith, length-encode_table s.filetable can.table_fits, can.entries) in
      let d1 = (ops.disk_write s.disk 5120 1 sb).0 in
      let works1 = disk.write_works s.disk 5120 1 sb ok (omega arith) sb_size in
      let ok1 = disk.write_fine s.disk 5120 1 sb ok (omega arith) sb_size in
      let puts1 : (k : ℕ) → shows d1 k ≡ put_sectors (shows s.disk) 5120 0 1 sb k =
        λ k. disk.write_puts s.disk 5120 1 sb k ok (omega arith) sb_size in
      let d2 = (ops.disk_write d1 5121 4 table).0 in
      let puts2 : (k : ℕ) → shows d2 k ≡ put_sectors (shows d1) 5121 0 4 table k =
        λ k. disk.write_puts d1 5121 4 table k ok1 (omega arith) table_size in
      let works2 = disk.write_works d1 5121 4 table ok1 (omega arith) table_size in
      let saved : Saved shows s d2 = record {
        superblock_there =
            sectors-agree (shows d2) (shows d1) 5120 0 1 (omega arith) (λ k le lt.
              puts2 k ∙ put_outside (shows d1) 5121 0 4 table k (inl (omega arith)) (omega arith))
            ∙ sectors_ext (shows d1) (put_sectors (shows s.disk) 5120 0 1 sb) 5120 0 1 puts1
            ∙ put-sectors (shows s.disk) 5120 0 1 sb (omega arith)
            ∙ chunks-take sb 0 1
            ∙ take-length (1 * 512) sb (omega (arith, sb_size));
        table_there =
            sectors_ext (shows d2) (put_sectors (shows d1) 5121 0 4 table) 5121 0 4 puts2
            ∙ put-sectors (shows d1) 5121 0 4 table (omega arith)
            ∙ chunks-take table 0 4
            ∙ take-length (4 * 512) table (omega (arith, table_size));
      } in
      let elsewhere : (k : ℕ) → 5125 ≤ k → shows d2 k ≡ shows s.disk k = λ k le.
        puts2 k
        ∙ put_outside (shows d1) 5121 0 4 table k (inr (omega arith)) (omega arith)
        ∙ puts1 k
        ∙ put_outside (shows s.disk) 5120 0 1 sb k (inr (omega arith)) (omega arith) in
      let whole : vfs_flush_metadata ops s ≡ (record s { disk = d2 }, true) =
        simp (works1, works2) refl in
      rw whole (record {
        works = refl;
        fine = disk.write_fine d1 5121 4 table ok1 (omega arith) table_size;
        same_table = refl;
        same_superblock = refl;
        same_ready = refl;
        saved = saved;
        elsewhere = elsewhere;
      })

  pub init-Loaded :
      (s old : Vfs D)
      → Fine old.disk
      → Savable s
      → Saved shows s old.disk
      → Loaded Fine shows s old.disk (vfs_init ops old)
  unfolding vfs_init
  init-Loaded s old ok can saved =
      let read1 = ops.disk_read old.disk 5120 1 in
      let d1 = read1.0 in
      let gives1 =
        disk.read_gives old.disk 5120 1 ok (omega arith) ∙ ap some saved.superblock_there in
      let ok1 = disk.read_fine old.disk 5120 1 ok (omega arith) in
      let same1 : (k : ℕ) → shows d1 k ≡ shows old.disk k =
        λ k. disk.read_keeps old.disk 5120 1 k ok (omega arith) in
      let d2 = (ops.disk_read d1 5121 4).0 in
      let gives2 : (ops.disk_read d1 5121 4).1 ≡ some (encode_table s.filetable) =
        disk.read_gives d1 5121 4 ok1 (omega arith)
        ∙ ap some (sectors_ext (shows d1) (shows old.disk) 5121 0 4 same1 ∙ saved.table_there) in
      let sb =
        decode_superblock-encode_superblock s.superblock
          (replicate (512 - length (encode_superblock s.superblock)) 0) can.superblock_fits in
      let table : decode_table (encode_table s.filetable) 32 ≡ s.filetable =
        ap (decode_table (encode_table s.filetable)) (sym can.entries)
        ∙ decode_table-encode_table s.filetable can.table_fits in
      let magic : (s.superblock.magic == vfs_magic) ≡ true = ground (arith, can.named) in
      let whole : vfs_init ops old ≡ (
        record { superblock = s.superblock; filetable = s.filetable; ready = true; disk = d2 },
        true,
      ) =
        simp (vfs_init, gives1, gives2, sb, table, magic) refl in
      rw whole (record {
        works = refl;
        fine = disk.read_fine d1 5121 4 ok1 (omega arith);
        table = refl;
        superblock = refl;
        up = refl;
        same = λ k. disk.read_keeps d1 5121 4 k ok1 (omega arith) ∙ same1 k;
      })

-- ===== src/Vernisfs/Cached.antt =====
-- VernisFS over the block cache: `bcache_init` takes over the pair of disk functions of kernel/fs/vernisfs.c.
use native.Mathlib.Nat.{mod-eq_of_lt}
use vernis_os.Prelude.{ℕ, ◌≤◌, ◌≡◌, ◌∙◌, ap, List, some, true, length}
use vernis_os.Prelude.Words.{u8}
use vernis_os.Sectors.{sectors, put_sectors}
use vernis_os.Cache.{Bcache, Driver, bcache_read, bcache_write}
use vernis_os.Cache.Steps.{Works}
use vernis_os.Cache.Buffers.{Fine, array, bcache_read_refines, bcache_write_refines}
use vernis_os.Cache.Flags.{read-flags, write-flags}
use vernis_os.Vernisfs.{Vfs, DiskOps, vfs_read_file}
use vernis_os.Vernisfs.Files.{vfs_write_file}
use vernis_os.Vernisfs.Disk.{Array, padded}
use vernis_os.Vernisfs.Contents.{Writable}
use vernis_os.Vernisfs.Roundtrip.{vfs_write_file-read}

abbrev pub cache_ops : {D : Type 0} → Driver D → DiskOps (Bcache D)
cache_ops driver = record { disk_read = bcache_read driver; disk_write = bcache_write driver }

module _ {D : Type 0} (driver : Driver D) (sector : D → ℕ → List ℕ)
    (works : Works driver sector) where
  -- A coherent cache that is ready.
  abbrev pub Ready : Bcache D → Type 0
  Ready s =
      Fine driver sector works s × (s.ready ≡ true) × (s.has_read ≡ true) × (s.has_write ≡ true)

  -- The cache keeps the promise of the disk functions.
  pub cache-Array : Array (cache_ops driver) Ready (array driver sector works)
  cache-Array = record {
    read_fine = λ s l n ok small.
        let flags = read-flags driver s l n in
        (
          (bcache_read_refines driver sector works s l n ok.0 ok.1 ok.2).0,
          flags.0 ∙ ok.1,
          flags.1 ∙ ok.2,
          flags.2 ∙ ok.3,
        );
    read_gives = λ s l n ok small.
        let count : u8 n ≡ n = mod-eq_of_lt small in
        (bcache_read_refines driver sector works s l n ok.0 ok.1 ok.2).1
        ∙ ap (λ k. some (sectors (array driver sector works s) l 0 k)) count;
    read_keeps =
        λ s l n k ok small. (bcache_read_refines driver sector works s l n ok.0 ok.1 ok.2).2 k;
    write_fine = λ s l n buf ok small size.
        let flags = write-flags driver s l n buf in
        (
          (bcache_write_refines driver sector works s l n buf ok.0 ok.1 ok.3).0,
          flags.0 ∙ ok.1,
          flags.1 ∙ ok.2,
          flags.2 ∙ ok.3,
        );
    write_works = λ s l n buf ok small size.
        (bcache_write_refines driver sector works s l n buf ok.0 ok.1 ok.3).1;
    write_puts = λ s l n buf k ok small size.
        let count : u8 n ≡ n = mod-eq_of_lt small in
        (bcache_write_refines driver sector works s l n buf ok.0 ok.1 ok.3).2 k
        ∙ ap (λ m. put_sectors (array driver sector works s) l 0 m buf k) count;
  }

  -- Over the block cache on a disk driver that works, with a coherent cache that is ready, whatever sectors it
  -- holds and has to evict on the way: a write of at most 255 sectors of data that end inside the 32-bit
  -- addresses, on a file system that is up with a table and a superblock that fit their fields, under a name
  -- of fewer than 32 bytes without a zero byte that is that of a file or finds a free entry, gives the number
  -- of bytes, and a read of the name into a buffer at least that long gives the number and the bytes, with
  -- zeros up to the end of the last sector.
  pub cached_write-read :
      (s : Vfs (Bcache D)) (path bytes : List ℕ) (max_len : ℕ)
      → Ready s.disk
      → Writable s path bytes
      → length bytes ≤ max_len
      → ((vfs_write_file (cache_ops driver) s path bytes).1 ≡ some (length bytes))
        × ((vfs_read_file
              (cache_ops driver)
              (vfs_write_file (cache_ops driver) s path bytes).0
              path
              max_len).1
            ≡ some (length bytes, padded bytes))
  cached_write-read s path bytes max_len ok w room =
      vfs_write_file-read (cache_ops driver) Ready (array driver sector works) cache-Array s path
        bytes max_len ok w room

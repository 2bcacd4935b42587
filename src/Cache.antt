-- ===== src/Cache.antt =====
-- The disk block cache: kernel/fs/bcache.c and include/bcache.h. The disk behind it, whose driver
-- `g_real_read` and `g_real_write` point to, is a parameter. The flags byte, which only ever holds 0,
-- VALID or VALID | DIRTY, is two Boolean fields.
use vernis_os.Prelude.{
  ℕ, zero, suc, ◌+◌, ◌*◌, ◌%◌, List, [], ◌++◌, ◌∷◌, Option, none, some, Bool, true, false, ◌&&◌,
  ◌||◌, not, ◌==◌, ltb, leb, if◌then◌else◌, get_or, set, replicate, take, drop,
}
use vernis_os.Prelude.Find.{find_index}
use vernis_os.Sectors.{chunk}
use vernis_os.Prelude.Words.{u8, u32}
mod Coherent
mod Slots
mod Lru
pub mod Steps
mod Sector
pub mod Buffers
mod Sync
pub mod Start
pub mod Flags
mod Roundtrip
pub mod Tests

abbrev pub bcache_num_blocks : ℕ
bcache_num_blocks = 64

abbrev pub bcache_block_size : ℕ
bcache_block_size = 512

-- `BcacheBlock`; the field `data` of the source is `bytes`.
pub record BcacheBlock : Type 0 where
  pub lba : ℕ
  pub valid : Bool
  pub dirty : Bool
  pub access_tick : ℕ
  pub bytes : List ℕ

pub record BcacheStats : Type 0 where
  pub hits : ℕ
  pub misses : ℕ
  pub writebacks : ℕ
  pub evictions : ℕ

-- A disk driver with states `D`. A read of a sector gets the old contents of the buffer, and answers
-- whether it worked and what the buffer holds then; a write of a sector answers whether it worked.
pub record Driver (D : Type 0) : Type 0 where
  pub real_read : D → ℕ → List ℕ → D × Bool × List ℕ
  pub real_write : D → ℕ → List ℕ → D × Bool

-- The static state of the cache; `has_read` and `has_write` say that the saved pointers are not null.
pub record Bcache (D : Type 0) : Type 0 where
  pub cache : List BcacheBlock
  pub stats : BcacheStats
  pub tick : ℕ
  pub flush_interval : ℕ
  pub flush_counter : ℕ
  pub has_read : Bool
  pub has_write : Bool
  pub ready : Bool
  pub disk : D

unfoldable pub zero_bytes : List ℕ
zero_bytes = replicate bcache_block_size 0

abbrev pub zero_block : BcacheBlock
zero_block = record { lba = 0; valid = false; dirty = false; access_tick = 0; bytes = zero_bytes }

abbrev pub block_at : List BcacheBlock → ℕ → BcacheBlock
block_at cache i = get_or cache i zero_block

-- The test of the loop of `bcache_find`.
abbrev pub holds : ℕ → BcacheBlock → Bool
holds lba b = b.valid && b.lba == lba

unfoldable pub bcache_find : List BcacheBlock → ℕ → Option ℕ
bcache_find cache lba = find_index (holds lba) cache

-- The loop of `bcache_lru` at slot `i`, with the oldest block so far.
unfoldable pub lru_from : List BcacheBlock → ℕ → ℕ → ℕ → ℕ
lru_from [] i best best_tick = best
lru_from (b ∷ bs) i best best_tick =
    let older = ltb b.access_tick best_tick in
    let rest =
      lru_from bs (i + 1) (if older then i else best)
        (if older then b.access_tick else best_tick) in
    if b.valid then rest else i

unfoldable pub bcache_lru : List BcacheBlock → ℕ
bcache_lru cache = lru_from cache 0 0 4294967295

abbrev pub has_dirty : List BcacheBlock → Option ℕ
has_dirty cache = find_index (λ b. b.dirty) cache

module _ {D : Type 0} where
  abbrev pub put_block : Bcache D → ℕ → BcacheBlock → Bcache D
  put_block s i b = record s { cache = set s.cache i b }

  abbrev pub count_hit : Bcache D → Bcache D
  count_hit s = record s { stats = record s.stats { hits = u32 (s.stats.hits + 1) } }

  abbrev pub count_miss : Bcache D → Bcache D
  count_miss s = record s { stats = record s.stats { misses = u32 (s.stats.misses + 1) } }

  abbrev pub count_writeback : Bcache D → Bcache D
  count_writeback s = record s {
    stats = record s.stats { writebacks = u32 (s.stats.writebacks + 1) };
  }

  abbrev pub count_eviction : Bcache D → Bcache D
  count_eviction s = record s { stats = record s.stats { evictions = u32 (s.stats.evictions + 1) } }

  -- `g_cache[i] = b` with `access_tick = ++g_tick`.
  abbrev pub touch : Bcache D → ℕ → BcacheBlock → Bcache D
  touch s i b = record (put_block s i (record b { access_tick = u32 (s.tick + 1) })) {
    tick = u32 (s.tick + 1);
  }

module _ {D : Type 0} (driver : Driver D) where
  -- The second component says that the source returns 0, not -1.
  unfoldable pub bcache_writeback : Bcache D → ℕ → Bcache D × Bool
  bcache_writeback s idx =
      let b = block_at s.cache idx in
      let (d, worked) = driver.real_write s.disk b.lba b.bytes in
      if leb bcache_num_blocks idx
      then (s, false)
      else if b.dirty
      then if worked
        then (
          count_writeback (put_block (record s { disk = d }) idx (record b { dirty = false })),
          true,
        )
        else (record s { disk = d }, false)
      else (s, true)

  -- "Evict if dirty", in `bcache_read` and `bcache_write`.
  unfoldable pub evict : Bcache D → ℕ → Bcache D
  evict s slot =
      let b = block_at s.cache slot in
      if b.dirty
      then count_eviction (bcache_writeback s slot).0
      else if b.valid
      then count_eviction s
      else s

  -- "Read single sector from disk into cache"; `none` where the source returns -1.
  unfoldable pub fill : Bcache D → ℕ → ℕ → Bcache D × Option (List ℕ)
  fill s slot sector =
      let b = block_at s.cache slot in
      let (d, worked, bytes) = driver.real_read s.disk sector b.bytes in
      if worked
      then (
        touch (record s { disk = d }) slot
            (record b { lba = sector; valid = true; dirty = false; bytes = bytes }),
        some bytes,
      )
      else (put_block (record s { disk = d }) slot (record b { bytes = bytes }), none)

  -- The body of the loop of `bcache_read`.
  unfoldable pub read_sector : Bcache D → ℕ → Bcache D × Option (List ℕ)
  read_sector s sector = elim (bcache_find s.cache sector) [
    | some idx ↦ let b = block_at s.cache idx in (touch (count_hit s) idx b, some b.bytes)
    | none ↦ let slot = bcache_lru s.cache in fill (evict (count_miss s) slot) slot sector
  ]

  -- The loop of `bcache_read` at sector `i` of the request, for `n` more sectors: the bytes that it puts
  -- into the buffer, or `none` where it returns -1.
  unfoldable pub read_from : Bcache D → ℕ → ℕ → ℕ → Bcache D × Option (List ℕ)
  read_from s lba i zero = (s, some [])
  read_from s lba i (suc n) =
      let (s1, got) = read_sector s (u32 (lba + i)) in
      let (s2, rest) = read_from s1 lba (i + 1) n in
      elim got [
        | none ↦ (s1, none)
        | some bytes ↦ elim rest [ none ↦ (s2, none) | some more ↦ (s2, some (bytes ++ more)) ]
      ]

  unfoldable pub bcache_read : Bcache D → ℕ → ℕ → Bcache D × Option (List ℕ)
  bcache_read s lba count =
      if not s.ready || not s.has_read then (s, none) else read_from s lba 0 (u8 count)

  -- The slot that the loop of `bcache_write` writes to: the block of the sector, or an evicted one.
  unfoldable pub write_slot : Bcache D → ℕ → Bcache D × ℕ
  write_slot s sector = elim (bcache_find s.cache sector) [
    | some idx ↦ (s, idx)
    | none ↦
        let idx = bcache_lru s.cache in
        let s1 = evict s idx in
        (put_block s1 idx (record (block_at s1.cache idx) { lba = sector }), idx)
  ]

  unfoldable pub write_sector : Bcache D → ℕ → List ℕ → Bcache D
  write_sector s sector bytes =
      let (s1, idx) = write_slot s sector in
      touch s1 idx (record (block_at s1.cache idx) { bytes = bytes; valid = true; dirty = true })

  unfoldable pub write_from : Bcache D → ℕ → ℕ → ℕ → List ℕ → Bcache D
  write_from s lba i zero buf = s
  write_from s lba i (suc n) buf =
      write_from (write_sector s (u32 (lba + i)) (chunk buf i)) lba (i + 1) n buf

  -- The second component says that the source returns the count, not -1.
  unfoldable pub bcache_write : Bcache D → ℕ → ℕ → List ℕ → Bcache D × Bool
  bcache_write s lba count buf =
      if not s.ready || not s.has_write
      then (s, false)
      else (write_from s lba 0 (u8 count) buf, true)

  -- The loop of `bcache_sync` at slot `i`, for `n` more; true as long as `err` is 0.
  unfoldable pub sync_from : Bcache D → ℕ → ℕ → Bool → Bcache D × Bool
  sync_from s i zero fine = (s, fine)
  sync_from s i (suc n) fine =
      let (s1, worked) = if (block_at s.cache i).dirty then bcache_writeback s i else (s, true) in
      sync_from s1 (i + 1) n (fine && worked)

  unfoldable pub bcache_sync : Bcache D → Bcache D × Bool
  bcache_sync s = if s.ready then sync_from s 0 bcache_num_blocks true else (s, false)

  unfoldable pub bcache_tick : Bcache D → Bcache D
  bcache_tick s =
      let s1 = record s { flush_counter = u32 (s.flush_counter + 1) } in
      let s2 = record s { flush_counter = 0 } in
      let synced = (bcache_sync s2).0 in
      if not s.ready
      then s
      else if leb s.flush_interval (u32 (s.flush_counter + 1))
      then elim (has_dirty s.cache) [ some i ↦ synced | none ↦ s2 ]
      else s1

unfoldable pub invalidate_all : List BcacheBlock → List BcacheBlock
invalidate_all [] = []
invalidate_all (b ∷ bs) =
    record b { valid = false; dirty = false; lba = 0; access_tick = 0 } ∷ invalidate_all bs

module _ {D : Type 0} where
  unfoldable pub bcache_invalidate : Bcache D → Bcache D
  bcache_invalidate s = record s { cache = invalidate_all s.cache; tick = 0 }

  -- `bcache_init` over the disk `d`; the two Booleans say that the captured pointers are not null.
  unfoldable pub bcache_init : D → Bool → Bool → Bcache D
  bcache_init d has_read has_write = record {
    cache = replicate bcache_num_blocks zero_block;
    stats = record { hits = 0; misses = 0; writebacks = 0; evictions = 0 };
    tick = 0;
    flush_interval = 240;
    flush_counter = 0;
    has_read = has_read;
    has_write = has_write;
    ready = true;
    disk = d;
  }

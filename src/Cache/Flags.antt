-- ===== src/Cache/Flags.antt =====
-- Reads and writes leave alone whether the cache is ready and has a disk.
use vernis_os.Prelude.{
  ℕ, zero, suc, ◌+◌, ◌≡◌, refl, ◌∙◌, List, arith, ◌||◌, not, inl, inr, Bool-cases, Option-cases,
}
use vernis_os.Prelude.Words.{u8, u32}
use vernis_os.Sectors.{chunk}
use vernis_os.Cache.{
  Bcache, Driver, block_at, bcache_write, bcache_read, read_from, read_sector, fill, write_from,
  write_sector, write_slot, evict, bcache_writeback, bcache_find, bcache_lru, count_miss,
}

-- A state that is up like another one.
abbrev pub SameFlags : {D : Type 0} → Bcache D → Bcache D → Type 0
SameFlags s s2 = (s2.ready ≡ s.ready) × (s2.has_read ≡ s.has_read) × (s2.has_write ≡ s.has_write)

SameFlags-trans :
    {D : Type 0} (s s2 s3 : Bcache D) → SameFlags s s2 → SameFlags s2 s3 → SameFlags s s3
SameFlags-trans s s2 s3 a b = (b.0 ∙ a.0, b.1 ∙ a.1, b.2 ∙ a.2)

module _ {D : Type 0} (driver : Driver D) where
  writeback-flags : (s : Bcache D) (i : ℕ) → SameFlags s (bcache_writeback driver s i).0
  unfolding bcache_writeback
  writeback-flags s i = (ground arith, ground arith, ground arith)

  evict-flags : (s : Bcache D) (i : ℕ) → SameFlags s (evict driver s i)
  unfolding evict
  evict-flags s i =
      let (a, b, c) = writeback-flags s i in
      (ground (arith, a), ground (arith, b), ground (arith, c))

  fill-flags : (s : Bcache D) (i l : ℕ) → SameFlags s (fill driver s i l).0
  unfolding fill
  fill-flags s i l = elim (Bool-cases (driver.real_read s.disk l (block_at s.cache i).bytes).1) [
    | inl works ↦ rw (works, fill) (refl, refl, refl)
    | inr fails ↦ rw (fails, fill) (refl, refl, refl)
  ]

  read_sector-flags : (s : Bcache D) (l : ℕ) → SameFlags s (read_sector driver s l).0
  unfolding read_sector
  read_sector-flags s l = elim (Option-cases (bcache_find s.cache l)) [
    | inl miss ↦
        let slot = bcache_lru s.cache in
        let s1 = evict driver (count_miss s) slot in
        rw (miss, read_sector)
          (SameFlags-trans s s1 (fill driver s1 slot l).0 (evict-flags (count_miss s) slot)
            (fill-flags s1 slot l))
    | inr (i, hit) ↦ rw (hit, read_sector) (refl, refl, refl)
  ]

  read_from-flags : (s : Bcache D) (lba i n : ℕ) → SameFlags s (read_from driver s lba i n).0
  unfolding read_from
  read_from-flags s lba i zero = (refl, refl, refl)
  read_from-flags s lba i (suc n) =
      let s1 = (read_sector driver s (u32 (lba + i))).0 in
      let one = read_sector-flags s (u32 (lba + i)) in
      let both =
        SameFlags-trans s s1 (read_from driver s1 lba (i + 1) n).0 one
          (read_from-flags s1 lba (i + 1) n) in
      elim (Option-cases (read_sector driver s (u32 (lba + i))).1) [
        | inl failed ↦ rw (failed, read_from) one
        | inr (bytes, got) ↦ elim (Option-cases (read_from driver s1 lba (i + 1) n).1) [
          | inl failed ↦ rw (got, failed, read_from) both
          | inr (more, rest) ↦ rw (got, rest, read_from) both
        ]
      ]

  pub read-flags : (s : Bcache D) (lba count : ℕ) → SameFlags s (bcache_read driver s lba count).0
  unfolding bcache_read
  read-flags s lba count = elim (Bool-cases (not s.ready || not s.has_read)) [
    | inl down ↦ rw (down, bcache_read) (refl, refl, refl)
    | inr up ↦ rw (up, bcache_read) (read_from-flags s lba 0 (u8 count))
  ]

  write_slot-flags : (s : Bcache D) (l : ℕ) → SameFlags s (write_slot driver s l).0
  unfolding write_slot
  write_slot-flags s l = elim (Option-cases (bcache_find s.cache l)) [
    | inl miss ↦ rw (miss, write_slot) (evict-flags s (bcache_lru s.cache))
    | inr (i, hit) ↦ rw (hit, write_slot) (refl, refl, refl)
  ]

  write_from-flags :
      (s : Bcache D) (lba i n : ℕ) (buf : List ℕ) → SameFlags s (write_from driver s lba i n buf)
  unfolding write_from write_sector
  write_from-flags s lba i zero buf = (refl, refl, refl)
  write_from-flags s lba i (suc n) buf =
      let s1 = write_sector driver s (u32 (lba + i)) (chunk buf i) in
      SameFlags-trans s s1 (write_from driver s1 lba (i + 1) n buf)
        (write_slot-flags s (u32 (lba + i))) (write_from-flags s1 lba (i + 1) n buf)

  pub write-flags :
      (s : Bcache D) (lba count : ℕ) (buf : List ℕ)
      → SameFlags s (bcache_write driver s lba count buf).0
  unfolding bcache_write
  write-flags s lba count buf = elim (Bool-cases (not s.ready || not s.has_write)) [
    | inl down ↦ rw (down, bcache_write) (refl, refl, refl)
    | inr up ↦ rw (up, bcache_write) (write_from-flags s lba 0 (u8 count) buf)
  ]

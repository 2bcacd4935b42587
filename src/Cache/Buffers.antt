-- ===== src/Cache/Buffers.antt =====
-- Requests of several sectors: the cache over a disk that works is a plain array of sectors.
use native.Mathlib.Decide.{ℕ_discrete}
use vernis_os.Prelude.{
  ℕ, zero, suc, ◌+◌, ◌≡◌, refl, ◌∙◌, ap, List, ◌++◌, some, true, false, arith, ◌==◌,
}
use vernis_os.Sectors.{chunk, put, sectors, put_sectors, sectors_ext, put_sectors_ext}
use vernis_os.Prelude.Words.{u8, u32}
use vernis_os.Cache.{
  Bcache, Driver, read_sector, read_from, bcache_read, write_sector, write_from, bcache_write,
}
use vernis_os.Cache.Steps.{Works, Good, holds_at, Step}
use vernis_os.Cache.Sector.{read_sector-Read, write_sector-Step}

module _ {D : Type 0} (driver : Driver D) (sector : D → ℕ → List ℕ)
    (works : Works driver sector) where
  abbrev pub Fine : Bcache D → Type 0
  Fine s = Good driver sector works s

  -- The array that the users of the cache see.
  abbrev pub array : Bcache D → ℕ → List ℕ
  array s = holds_at driver sector works s

  Step-put :
      (s s' : Bcache D) (l : ℕ) (bytes : List ℕ)
      → Step driver sector works s s' l bytes
      → (k : ℕ) → array s' k ≡ put (array s) l bytes k
  Step-put s s' l bytes st k = elim (ℕ_discrete k l) [
    | yes e ↦ let same : (k == l) ≡ true = ground arith in rw same (rw e st.here)
    | no ne ↦ let other : (k == l) ≡ false = ground arith in rw other (st.others k ne)
  ]

  read_from_lem :
      (s : Bcache D) (lba i n : ℕ)
      → Fine s
      → Fine (read_from driver s lba i n).0
        × ((read_from driver s lba i n).1 ≡ some (sectors (array s) lba i n))
        × ((k : ℕ) → array (read_from driver s lba i n).0 k ≡ array s k)
  unfolding read_from sectors
  read_from_lem s lba i zero co = (co, refl, λ k. refl)
  read_from_lem s lba i (suc n) co =
      let l = u32 (lba + i) in
      let r = read_sector-Read driver sector works s l co in
      let s1 = (read_sector driver s l).0 in
      let (co2, got, same) = read_from_lem s1 lba (i + 1) n r.good in
      rw (r.gave, got, read_from)
        (
          co2,
          ap (λ b. some (array s l ++ b)) (sectors_ext (array s1) (array s) lba (i + 1) n r.same),
          λ k. same k ∙ r.same k,
        )

  write_from_lem :
      (s : Bcache D) (lba i n : ℕ) (buf : List ℕ)
      → Fine s
      → Fine (write_from driver s lba i n buf)
        × ((k : ℕ)
            → array (write_from driver s lba i n buf) k ≡ put_sectors (array s) lba i n buf k)
  unfolding write_from put_sectors
  write_from_lem s lba i zero buf co = (co, λ k. refl)
  write_from_lem s lba i (suc n) buf co =
      let l = u32 (lba + i) in
      let st = write_sector-Step driver sector works s l (chunk buf i) co in
      let s1 = write_sector driver s l (chunk buf i) in
      let (co2, same) = write_from_lem s1 lba (i + 1) n buf st.good in
      (
        co2,
        λ k.
            same k
            ∙ put_sectors_ext (array s1) (put (array s) l (chunk buf i)) lba (i + 1) n buf
                (Step-put s s1 l (chunk buf i) st) k,
      )

  -- On a disk that works and a coherent cache that is ready `bcache_read` succeeds, gives the sectors of the array in a row, and leaves the
  -- array alone.
  pub bcache_read_refines :
      (s : Bcache D) (lba count : ℕ)
      → Fine s
      → s.ready ≡ true
      → s.has_read ≡ true
      → Fine (bcache_read driver s lba count).0
        × ((bcache_read driver s lba count).1 ≡ some (sectors (array s) lba 0 (u8 count)))
        × ((k : ℕ) → array (bcache_read driver s lba count).0 k ≡ array s k)
  unfolding bcache_read
  bcache_read_refines s lba count co up has = simp (up, has) (read_from_lem s lba 0 (u8 count) co)

  -- On a disk that works and a coherent cache that is ready `bcache_write` succeeds, and the array changes as by a write of the sectors one
  -- after the other.
  pub bcache_write_refines :
      (s : Bcache D) (lba count : ℕ) (buf : List ℕ)
      → Fine s
      → s.ready ≡ true
      → s.has_write ≡ true
      → Fine (bcache_write driver s lba count buf).0
        × ((bcache_write driver s lba count buf).1 ≡ true)
        × ((k : ℕ)
            → array (bcache_write driver s lba count buf).0 k
              ≡ put_sectors (array s) lba 0 (u8 count) buf k)
  unfolding bcache_write
  bcache_write_refines s lba count buf co up has =
      let (co2, same) = write_from_lem s lba 0 (u8 count) buf co in simp (up, has) (co2, refl, same)

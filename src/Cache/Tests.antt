-- ===== src/Cache/Tests.antt =====
-- A disk that works, as a function from sectors to bytes, and the theorems about the cache on it.
use vernis_os.Prelude.{
  ℕ, ◌<◌, ◌≤◌, ◌≡◌, refl, ap, List, [], ◌∷◌, some, true, false, ◌⊎◌, arith, ◌==◌, if◌then◌else◌,
  replicate, length-replicate, get_or-replicate,
}
use vernis_os.Prelude.Words.{u8}
use vernis_os.Cache.{
  Bcache, BcacheBlock, Driver, bcache_init, bcache_read, bcache_write, bcache_sync,
  bcache_num_blocks, bcache_lru, zero_block, block_at,
}
use vernis_os.Cache.Lru.{bcache_lru-oldest}
use vernis_os.Cache.Steps.{Works}
use vernis_os.Cache.Buffers.{Fine, array, bcache_read_refines, bcache_write_refines}
use vernis_os.Sectors.{sectors, put_sectors}
use vernis_os.Cache.Sync.{bcache_sync_lem}
use vernis_os.Cache.Start.{bcache_init-Fine}
use vernis_os.Cache.Roundtrip.{bcache_write-read}

abbrev pub Platter : Type 0
Platter = ℕ → List ℕ

abbrev pub platter_driver : Driver Platter
platter_driver = record {
  real_read = λ d l old. (d, true, d l);
  real_write = λ d l bytes. (λ k. if k == l then bytes else d k, true);
}

abbrev pub on_platter : Platter → ℕ → List ℕ
on_platter d l = d l

pub platter_works : Works platter_driver on_platter
platter_works = record {
  read_works = λ d l old. refl;
  read_bytes = λ d l old. refl;
  read_keeps = λ d l old k. refl;
  write_works = λ d l bytes. refl;
  write_bytes = λ d l bytes. ground arith;
  write_keeps = λ d l bytes k ne. ground arith;
}

abbrev pub blank : Bcache Platter
blank = bcache_init (λ k. k ∷ []) true true

pub blank-Fine : Fine platter_driver on_platter platter_works blank
blank-Fine = (bcache_init-Fine platter_driver on_platter platter_works (λ k. k ∷ []) true true).0

pub blank-ready : (blank.ready ≡ true) × (blank.has_read ≡ true) × (blank.has_write ≡ true)
unfolding bcache_init
blank-ready = (refl, refl, refl)

abbrev seen : Bcache Platter → ℕ → List ℕ
seen s = array platter_driver on_platter platter_works s

abbrev sevens : List ℕ
sevens = replicate 1024 7

bcache_write-read_example :
    (bcache_read platter_driver (bcache_write platter_driver blank 9 2 sevens).0 9 2).1
    ≡ some sevens
bcache_write-read_example =
    bcache_write-read platter_driver on_platter platter_works blank 9 2 sevens blank-Fine
      blank-ready.0 blank-ready.1 blank-ready.2 (omega arith) (length-replicate {A = ℕ} 1024 7)
      (omega arith)

bcache_read_refines_example :
    Fine platter_driver on_platter platter_works (bcache_read platter_driver blank 3 2).0
    × ((bcache_read platter_driver blank 3 2).1 ≡ some (sectors (seen blank) 3 0 (u8 2)))
    × ((k : ℕ) → seen (bcache_read platter_driver blank 3 2).0 k ≡ seen blank k)
bcache_read_refines_example =
    bcache_read_refines platter_driver on_platter platter_works blank 3 2 blank-Fine blank-ready.0
      blank-ready.1

bcache_write_refines_example :
    Fine platter_driver on_platter platter_works (bcache_write platter_driver blank 9 2 sevens).0
    × ((bcache_write platter_driver blank 9 2 sevens).1 ≡ true)
    × ((k : ℕ)
        → seen (bcache_write platter_driver blank 9 2 sevens).0 k
          ≡ put_sectors (seen blank) 9 0 (u8 2) sevens k)
bcache_write_refines_example =
    bcache_write_refines platter_driver on_platter platter_works blank 9 2 sevens blank-Fine
      blank-ready.0 blank-ready.2

bcache_sync_lem_example :
    Fine platter_driver on_platter platter_works (bcache_sync platter_driver blank).0
    × ((bcache_sync platter_driver blank).1 ≡ true)
    × ((l : ℕ) → seen (bcache_sync platter_driver blank).0 l ≡ seen blank l)
    × ((l : ℕ) → (bcache_sync platter_driver blank).0.disk l ≡ seen blank l)
bcache_sync_lem_example =
    bcache_sync_lem platter_driver on_platter platter_works blank blank-Fine blank-ready.0

abbrev zero_blocks : List BcacheBlock
zero_blocks = replicate bcache_num_blocks zero_block

bcache_lru-oldest_example :
    (bcache_lru zero_blocks < bcache_num_blocks)
    × (((block_at zero_blocks (bcache_lru zero_blocks)).valid ≡ false)
        ⊎ ((m : ℕ)
            → m < bcache_num_blocks
            → (block_at zero_blocks (bcache_lru zero_blocks)).access_tick
              ≤ (block_at zero_blocks m).access_tick))
bcache_lru-oldest_example =
    bcache_lru-oldest zero_blocks (length-replicate bcache_num_blocks zero_block) (λ m lt.
      omega (arith, ap (λ b. b.access_tick) (get_or-replicate bcache_num_blocks m zero_block)))

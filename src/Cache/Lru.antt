-- ===== src/Cache/Lru.antt =====
-- The choice of `bcache_lru`: a free slot, or the slot that was used longest ago.
use vernis_os.Prelude.{
  ℕ, zero, suc, ◌+◌, ◌<◌, ◌≤◌, ◌≡◌, refl, List, [], ◌∷◌, false, ◌⊎◌, inl, inr, arith, ltb, length,
  Bool-cases,
}
use vernis_os.Cache.{BcacheBlock, block_at, bcache_num_blocks, bcache_lru, lru_from}

-- What the loop finds in the blocks `bs` from slot `i` on: a free slot, an older block than the one so far,
-- or neither.
data Choice (bs : List BcacheBlock) (i best best_tick : ℕ) (k : ℕ) : Type 0 where
  free :
      (j : ℕ)
      → j < length bs
      → k ≡ i + j
      → (block_at bs j).valid ≡ false
      → Choice bs i best best_tick k
  oldest :
      (j : ℕ)
      → j < length bs
      → k ≡ i + j
      → (block_at bs j).access_tick < best_tick
      → ((m : ℕ) → m < length bs → (block_at bs j).access_tick ≤ (block_at bs m).access_tick)
      → Choice bs i best best_tick k
  kept :
      k ≡ best
      → ((m : ℕ) → m < length bs → best_tick ≤ (block_at bs m).access_tick)
      → Choice bs i best best_tick k

extend_min :
    (b : BcacheBlock) (bs : List BcacheBlock) (t : ℕ)
    → t ≤ b.access_tick
    → ((m : ℕ) → m < length bs → t ≤ (block_at bs m).access_tick)
    → (m : ℕ) → m < suc (length bs)
    → t ≤ (block_at (b ∷ bs) m).access_tick
extend_min b bs t h all zero lt = h
extend_min b bs t h all (suc m) lt = all m (omega arith)

skip :
    (b : BcacheBlock) (bs : List BcacheBlock) (i best best_tick k : ℕ)
    → best_tick ≤ b.access_tick
    → Choice bs (i + 1) best best_tick k
    → Choice (b ∷ bs) i best best_tick k
skip b bs i best best_tick k h (free j lt e f) = free (suc j) (omega arith) (omega arith) f
skip b bs i best best_tick k h (oldest j lt e less all) =
    oldest (suc j) (omega arith) (omega arith) less (extend_min b bs _ (omega arith) all)
skip b bs i best best_tick k h (kept e all) = kept e (extend_min b bs best_tick h all)

switch :
    (b : BcacheBlock) (bs : List BcacheBlock) (i best best_tick k : ℕ)
    → b.access_tick < best_tick
    → Choice bs (i + 1) i b.access_tick k
    → Choice (b ∷ bs) i best best_tick k
switch b bs i best best_tick k h (free j lt e f) = free (suc j) (omega arith) (omega arith) f
switch b bs i best best_tick k h (oldest j lt e less all) =
    oldest (suc j) (omega arith) (omega arith) (omega arith) (extend_min b bs _ (omega arith) all)
switch b bs i best best_tick k h (kept e all) =
    oldest 0 (omega arith) (omega arith) h (extend_min b bs b.access_tick (omega arith) all)

lru_from-Choice :
    (bs : List BcacheBlock) (i best best_tick : ℕ)
    → Choice bs i best best_tick (lru_from bs i best best_tick)
unfolding lru_from
lru_from-Choice [] i best best_tick = kept refl (λ m lt. absurd (omega arith))
lru_from-Choice (b ∷ bs) i best best_tick = elim (Bool-cases b.valid) [
  | inr f ↦ simp f (free 0 (omega arith) (omega arith) f)
  | inl v ↦ elim (Bool-cases (ltb b.access_tick best_tick)) [
    | inl older ↦
        simp (v, older)
          (switch b bs i best best_tick _ (ground arith)
            (lru_from-Choice bs (i + 1) i b.access_tick))
    | inr newer ↦
        simp (v, newer)
          (skip b bs i best best_tick _ (ground arith) (lru_from-Choice bs (i + 1) best best_tick))
  ]
]

-- In a cache of 64 slots whose ticks fit 32 bits, the slot is one of the 64, and it is free or its block was used no later than any other.
pub bcache_lru-oldest :
    (c : List BcacheBlock)
    → length c ≡ bcache_num_blocks
    → ((m : ℕ) → m < bcache_num_blocks → (block_at c m).access_tick ≤ 4294967295)
    → (bcache_lru c < bcache_num_blocks)
      × (((block_at c (bcache_lru c)).valid ≡ false)
          ⊎ ((m : ℕ)
              → m < bcache_num_blocks
              → (block_at c (bcache_lru c)).access_tick ≤ (block_at c m).access_tick))
unfolding bcache_lru
bcache_lru-oldest c size small = decide (lru_from-Choice c 0 0 4294967295)
  where
    decide :
        {k : ℕ}
        → Choice c 0 0 4294967295 k
        → (k < bcache_num_blocks)
          × (((block_at c k).valid ≡ false)
              ⊎ ((m : ℕ)
                  → m < bcache_num_blocks
                  → (block_at c k).access_tick ≤ (block_at c m).access_tick))
    decide {k} (free j lt e f) = let same : k ≡ j = omega arith in (omega arith, inl (rw same f))
    decide {k} (oldest j lt e less all) =
        let same : k ≡ j = omega arith in
        (omega arith, inr (λ m ltm. rw same (all m (omega (arith, size)))))
    decide {k} (kept e all) = (
      omega arith,
      inr (λ m ltm. rw e (omega (arith, small 0 (omega arith), all m (omega (arith, size)), size))),
    )

pub bcache_lru_lt :
    (c : List BcacheBlock) → length c ≡ bcache_num_blocks → bcache_lru c < bcache_num_blocks
unfolding bcache_lru
bcache_lru_lt c size = decide (lru_from-Choice c 0 0 4294967295)
  where
    decide : {k : ℕ} → Choice c 0 0 4294967295 k → k < bcache_num_blocks
    decide (free j lt e f) = omega arith
    decide (oldest j lt e less all) = omega arith
    decide (kept e all) = omega arith

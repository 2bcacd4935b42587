-- ===== src/Cache/Coherent.antt =====
-- What the cache and the disk hold together, and the two ways in which a slot changes.
use vernis_os.Prelude.{
  ℕ, ◌<◌, ◌≡◌, ◌≢◌, refl, sym, ◌∙◌, ap, List, none, some, true, false, inl, inr, arith, length,
  Option-cases, Bool-cases,
}
use vernis_os.Prelude.Find.{find_index-Hit, find_index-none}
use vernis_os.Cache.{BcacheBlock, zero_block, block_at, bcache_find, bcache_num_blocks, holds}

pub holds_lem : (l : ℕ) (b : BcacheBlock) → holds l b ≡ true → (b.valid ≡ true) × (b.lba ≡ l)
holds_lem l b e = elim (Bool-cases b.valid) [
  | inl v ↦ (v, ground arith)
  | inr v ↦ absurd (ground arith)
]

module _ {D : Type 0} (sector : D → ℕ → List ℕ) where
  -- No sector is cached twice, a clean block agrees with the disk, and a dirty block is valid.
  pub record Coherent (c : List BcacheBlock) (d : D) : Type 0 where
    pub size : length c ≡ bcache_num_blocks
    pub unique :
        (i j : ℕ)
        → i < bcache_num_blocks
        → j < bcache_num_blocks
        → (block_at c i).valid ≡ true
        → (block_at c j).valid ≡ true
        → (block_at c i).lba ≡ (block_at c j).lba
        → i ≡ j
    pub clean :
        (i : ℕ)
        → i < bcache_num_blocks
        → (block_at c i).valid ≡ true
        → (block_at c i).dirty ≡ false
        → (block_at c i).bytes ≡ sector d (block_at c i).lba
    pub dirty_valid :
        (i : ℕ) → i < bcache_num_blocks → (block_at c i).dirty ≡ true → (block_at c i).valid ≡ true

  -- What a sector holds for the users of the cache.
  unfoldable pub contents : List BcacheBlock → D → ℕ → List ℕ
  contents c d l = elim (bcache_find c l) [ none ↦ sector d l | some i ↦ (block_at c i).bytes ]

  -- The same as a relation.
  pub data Shows (c : List BcacheBlock) (d : D) (l : ℕ) (v : List ℕ) : Type 0 where
    cached :
        (i : ℕ)
        → i < bcache_num_blocks
        → (block_at c i).valid ≡ true
        → (block_at c i).lba ≡ l
        → (block_at c i).bytes ≡ v
        → Shows c d l v
    on_disk :
        ((i : ℕ) → i < bcache_num_blocks → (block_at c i).valid ≡ true → (block_at c i).lba ≢ l)
        → sector d l ≡ v
        → Shows c d l v

  pub contents-Shows :
      (c : List BcacheBlock) (d : D) (l : ℕ)
      → length c ≡ bcache_num_blocks
      → Shows c d l (contents c d l)
  unfolding contents bcache_find
  contents-Shows c d l size = elim (Option-cases (bcache_find c l)) [
    | inl miss ↦
        rw (miss, contents)
          (on_disk
            (λ i lt v e. absurd (ground (arith, find_index-none (holds l) c zero_block i miss)))
            refl)
    | inr (i, hit) ↦
        let h = find_index-Hit (holds l) c zero_block i hit in
        let (v, e) = holds_lem l (block_at c i) h.passes in
        rw (hit, contents) (cached i (omega (arith, h.inside)) v e refl)
  ]

  pub Shows-contents :
      (c : List BcacheBlock) (d : D) (l : ℕ) (v : List ℕ)
      → Coherent c d
      → Shows c d l v
      → contents c d l ≡ v
  Shows-contents c d l v co s = same s (contents-Shows c d l co.size)
    where
      same : {w : List ℕ} → Shows c d l v → Shows c d l w → w ≡ v
      same (cached i lt vi ei bi) (cached j lt' vj ej bj) =
          let one = co.unique i j lt lt' vi vj (ei ∙ sym ej) in
          sym bj ∙ ap (λ k. (block_at c k).bytes) (sym one) ∙ bi
      same (cached i lt vi ei bi) (on_disk absent dv) = absurd (absent i lt vi ei)
      same (on_disk absent dv) (cached j lt' vj ej bj) = absurd (absent j lt' vj ej)
      same (on_disk absent dv) (on_disk absent' dv') = sym dv' ∙ dv

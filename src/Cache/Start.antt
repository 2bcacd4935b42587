-- ===== src/Cache/Start.antt =====
-- The start of the cache, what `bcache_invalidate` drops, and a write followed by a read.
use mathlib.Core.Bool.{true≢false}
use vernis_os.Prelude.{
  ℕ, zero, suc, ◌≡◌, ◌≢◌, refl, sym, ◌∙◌, ap, List, [], ◌∷◌, Bool, true, false, length, replicate,
  get_or-replicate, length-replicate,
}
use vernis_os.Cache.{
  Bcache, BcacheBlock, Driver, zero_block, block_at, bcache_num_blocks, bcache_init,
  bcache_invalidate, invalidate_all,
}
use vernis_os.Cache.Coherent.{Coherent, Shows-contents, on_disk, contents}
use vernis_os.Cache.Steps.{Works}
use vernis_os.Cache.Buffers.{Fine, array}

module _ {D : Type 0} (driver : Driver D) (sector : D → ℕ → List ℕ)
    (works : Works driver sector) where
  -- A cache without a valid block shows the disk.
  empty-Fine :
      (c : List BcacheBlock) (d : D)
      → length c ≡ bcache_num_blocks
      → ((j : ℕ) → (block_at c j).valid ≡ false)
      → ((j : ℕ) → (block_at c j).dirty ≡ false)
      → Coherent sector c d × ((l : ℕ) → contents sector c d l ≡ sector d l)
  empty-Fine c d size none_valid none_dirty =
      let no_valid : (j : ℕ) → (block_at c j).valid ≢ true =
        λ j v. true≢false (sym v ∙ none_valid j) in
      let co : Coherent sector c d = record {
        size = size;
        unique = λ i j lti ltj vi. absurd (no_valid i vi);
        clean = λ i lt v. absurd (no_valid i v);
        dirty_valid = λ i lt e. absurd (true≢false (sym e ∙ none_dirty i));
      } in
      (
        co,
        λ l.
            Shows-contents sector c d l (sector d l) co
              (on_disk (λ i lt v. absurd (no_valid i v)) refl),
      )

  -- After `bcache_init` the cache is coherent and the users see the disk.
  pub bcache_init-Fine :
      (d : D) (has_read has_write : Bool)
      → Fine driver sector works (bcache_init d has_read has_write)
        × ((l : ℕ) → array driver sector works (bcache_init d has_read has_write) l ≡ sector d l)
  unfolding bcache_init
  bcache_init-Fine d has_read has_write =
      empty-Fine (replicate bcache_num_blocks zero_block) d
        (length-replicate bcache_num_blocks zero_block)
        (λ j. ap (λ b. b.valid) (get_or-replicate bcache_num_blocks j zero_block))
        (λ j. ap (λ b. b.dirty) (get_or-replicate bcache_num_blocks j zero_block))

  length-invalidate_all : (c : List BcacheBlock) → length (invalidate_all c) ≡ length c
  unfolding invalidate_all
  length-invalidate_all [] = refl
  length-invalidate_all (b ∷ bs) = ap suc (length-invalidate_all bs)

  invalidate_all-valid :
      (c : List BcacheBlock) (j : ℕ) → (block_at (invalidate_all c) j).valid ≡ false
  unfolding invalidate_all
  invalidate_all-valid [] j = refl
  invalidate_all-valid (b ∷ bs) zero = refl
  invalidate_all-valid (b ∷ bs) (suc j) = invalidate_all-valid bs j

  invalidate_all-dirty :
      (c : List BcacheBlock) (j : ℕ) → (block_at (invalidate_all c) j).dirty ≡ false
  unfolding invalidate_all
  invalidate_all-dirty [] j = refl
  invalidate_all-dirty (b ∷ bs) zero = refl
  invalidate_all-dirty (b ∷ bs) (suc j) = invalidate_all-dirty bs j

  -- After `bcache_invalidate` of a cache of 64 slots it is coherent, and the users see what the disk has, whatever was cached.
  pub bcache_invalidate_lem :
      (s : Bcache D)
      → length s.cache ≡ bcache_num_blocks
      → Fine driver sector works (bcache_invalidate s)
        × ((l : ℕ) → array driver sector works (bcache_invalidate s) l ≡ sector s.disk l)
  unfolding bcache_invalidate
  bcache_invalidate_lem s size =
      empty-Fine (invalidate_all s.cache) s.disk (length-invalidate_all s.cache ∙ size)
        (invalidate_all-valid s.cache) (invalidate_all-dirty s.cache)

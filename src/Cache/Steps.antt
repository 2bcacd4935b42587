-- ===== src/Cache/Steps.antt =====
-- One sector through the cache, over a disk that works: what is evicted, read and written leaves the cache
-- coherent and the contents of all other sectors alone.
use vernis_os.Prelude.{
  ℕ, ◌<◌, ◌≡◌, ◌≢◌, refl, sym, ◌∙◌, ap, List, none, true, false, inl, inr, arith, leb, set,
  get_or-set_self, Option-cases, Bool-cases,
}
use vernis_os.Prelude.Find.{find_index-none}
use vernis_os.Cache.{
  Bcache, BcacheBlock, Driver, zero_block, block_at, bcache_num_blocks, bcache_find, holds,
  bcache_writeback, evict, put_block, count_writeback, count_eviction,
}
use vernis_os.Cache.Coherent.{Coherent, on_disk, Shows-contents, contents}
use vernis_os.Cache.Slots.{
  cleaned-Coherent, cleaned-contents, same_valid, same_lba, replace-Coherent, replace-contents_self,
  replace-contents_other,
}

-- A disk whose sectors are `sector d` in state `d`, on which every read and write works.
pub record Works {D : Type 0} (driver : Driver D) (sector : D → ℕ → List ℕ) : Type 0 where
  pub read_works : (d : D) (l : ℕ) (old : List ℕ) → (driver.real_read d l old).1 ≡ true
  pub read_bytes : (d : D) (l : ℕ) (old : List ℕ) → (driver.real_read d l old).2 ≡ sector d l
  pub read_keeps :
      (d : D) (l : ℕ) (old : List ℕ) (k : ℕ) → sector (driver.real_read d l old).0 k ≡ sector d k
  pub write_works : (d : D) (l : ℕ) (bytes : List ℕ) → (driver.real_write d l bytes).1 ≡ true
  pub write_bytes :
      (d : D) (l : ℕ) (bytes : List ℕ) → sector (driver.real_write d l bytes).0 l ≡ bytes
  pub write_keeps :
      (d : D) (l : ℕ) (bytes : List ℕ) (k : ℕ)
      → k ≢ l
      → sector (driver.real_write d l bytes).0 k ≡ sector d k

module _ {D : Type 0} (driver : Driver D) (sector : D → ℕ → List ℕ)
    (works : Works driver sector) where
  abbrev pub Good : Bcache D → Type 0
  Good s = Coherent sector s.cache s.disk

  abbrev pub holds_at : Bcache D → ℕ → List ℕ
  holds_at s l = contents sector s.cache s.disk l

  -- What a step that only moves bytes between the cache and the disk leaves.
  pub record Kept (s s' : Bcache D) : Type 0 where
    pub good : Good s'
    pub same : (l : ℕ) → holds_at s' l ≡ holds_at s l
    pub valids : (j : ℕ) → (block_at s'.cache j).valid ≡ (block_at s.cache j).valid
    pub lbas : (j : ℕ) → (block_at s'.cache j).lba ≡ (block_at s.cache j).lba

  -- The state after the block of slot `i` was written to the disk.
  abbrev pub written_back : Bcache D → ℕ → Bcache D
  written_back s i =
      let b = block_at s.cache i in
      count_writeback (
        put_block (record s { disk = (driver.real_write s.disk b.lba b.bytes).0 }) i
          (record b { dirty = false }))

  pub writeback-dirty :
      (s : Bcache D) (i : ℕ)
      → i < bcache_num_blocks
      → (block_at s.cache i).dirty ≡ true
      → bcache_writeback driver s i ≡ (written_back s i, true)
  unfolding bcache_writeback
  writeback-dirty s i lt dirty =
      let b = block_at s.cache i in
      let inside : leb bcache_num_blocks i ≡ false = ground arith in
      simp (inside, dirty, works.write_works s.disk b.lba b.bytes) refl

  pub written_back-Kept :
      (s : Bcache D) (i : ℕ)
      → Good s
      → i < bcache_num_blocks
      → (block_at s.cache i).dirty ≡ true
      → Kept s (written_back s i)
  written_back-Kept s i co lt dirty =
      let b = block_at s.cache i in
      let d2 = (driver.real_write s.disk b.lba b.bytes).0 in
      let valid = co.dirty_valid i lt dirty in
      let at_lba = works.write_bytes s.disk b.lba b.bytes in
      let elsewhere : (l : ℕ) → l ≢ b.lba → sector d2 l ≡ sector s.disk l =
        works.write_keeps s.disk b.lba b.bytes in
      record {
        good = cleaned-Coherent sector s.cache s.disk d2 i co lt valid at_lba elsewhere;
        same = cleaned-contents sector s.cache s.disk d2 i co lt valid at_lba elsewhere;
        valids = same_valid sector s.cache s.disk d2 i co lt valid at_lba elsewhere;
        lbas = same_lba sector s.cache s.disk d2 i co lt valid at_lba elsewhere;
      }

  -- Only the cache and the disk matter.
  pub Kept-next :
      (s s1 s2 : Bcache D) → Kept s s1 → s2.cache ≡ s1.cache → s2.disk ≡ s1.disk → Kept s s2
  Kept-next s s1 s2 k same_cache same_disk = record {
    good = rw (same_cache, same_disk) k.good;
    same = λ l. rw (same_cache, same_disk) (k.same l);
    valids = λ j. rw same_cache (k.valids j);
    lbas = λ j. rw same_cache (k.lbas j);
  }

  pub Kept-refl : (s : Bcache D) → Good s → Kept s s
  Kept-refl s co = record { good = co; same = λ l. refl; valids = λ j. refl; lbas = λ j. refl }

  -- Eviction keeps everything, and its slot is clean afterwards.
  pub evict-Kept :
      (s : Bcache D) (i : ℕ)
      → Good s
      → i < bcache_num_blocks
      → Kept s (evict driver s i) × ((block_at (evict driver s i).cache i).dirty ≡ false)
  unfolding evict
  evict-Kept s i co lt = elim (Bool-cases (block_at s.cache i).dirty) [
    | inl dirty ↦
        simp (dirty, writeback-dirty s i lt dirty)
          (
            Kept-next s (written_back s i) (count_eviction (written_back s i))
                (written_back-Kept s i co lt dirty) refl refl,
            ap (λ b. b.dirty)
                (get_or-set_self s.cache i (record (block_at s.cache i) { dirty = false })
                  zero_block (omega (arith, co.size))),
          )
    | inr clean ↦ elim (Bool-cases (block_at s.cache i).valid) [
      | inl used ↦
          simp (clean, used) (Kept-next s s (count_eviction s) (Kept-refl s co) refl refl, refl)
      | inr unused ↦ simp (clean, unused) (Kept-refl s co, refl)
    ]
  ]

  -- A sector that the cache does not hold.
  abbrev pub Absent : Bcache D → ℕ → Type 0
  Absent s l =
      (j : ℕ)
      → j < bcache_num_blocks
      → (block_at s.cache j).valid ≡ true
      → (block_at s.cache j).lba ≢ l

  pub find-Absent : (s : Bcache D) (l : ℕ) → Good s → bcache_find s.cache l ≡ none → Absent s l
  unfolding bcache_find
  find-Absent s l co miss j lt v e =
      absurd (ground (arith, find_index-none (holds l) s.cache zero_block j miss, co.size))

  pub Absent-contents :
      (s : Bcache D) (l : ℕ) → Good s → Absent s l → holds_at s l ≡ sector s.disk l
  Absent-contents s l co absent =
      Shows-contents sector s.cache s.disk l (sector s.disk l) co (on_disk absent refl)

  -- What a step on sector `l` leaves, with `v` the contents of the sector afterwards.
  pub record Step (s s' : Bcache D) (l : ℕ) (v : List ℕ) : Type 0 where
    pub good : Good s'
    pub here : holds_at s' l ≡ v
    pub others : (k : ℕ) → k ≢ l → holds_at s' k ≡ holds_at s k

  -- A clean or free slot takes the block of a sector that the cache does not hold.
  pub place :
      (s s' : Bcache D) (i : ℕ) (b : BcacheBlock)
      → Good s
      → i < bcache_num_blocks
      → (block_at s.cache i).dirty ≡ false
      → Absent s b.lba
      → b.valid ≡ true
      → (b.dirty ≡ false → b.bytes ≡ sector s.disk b.lba)
      → s'.cache ≡ set s.cache i b
      → s'.disk ≡ s.disk
      → Step s s' b.lba b.bytes
  place s s' i b co lt clean absent v agrees same_cache same_disk =
      let alone : (j : ℕ)
          → j < bcache_num_blocks
          → i ≢ j
          → (block_at s.cache j).valid ≡ true
          → (block_at s.cache j).lba ≢ b.lba =
        λ j ltj ne. absent j ltj in
      record {
        good =
            rw (same_cache, same_disk)
              (replace-Coherent sector s.cache s.disk i b co lt v alone (inl clean) agrees);
        here =
            rw (same_cache, same_disk)
              (replace-contents_self sector s.cache s.disk i b co lt v alone (inl clean) agrees);
        others = λ k ne.
            rw (same_cache, same_disk)
              (replace-contents_other sector s.cache s.disk i b co lt v alone (inl clean) agrees k
                ne);
      }

  -- The block of a cached sector is changed in its slot.
  pub rewrite :
      (s s' : Bcache D) (i : ℕ) (b : BcacheBlock)
      → Good s
      → i < bcache_num_blocks
      → (block_at s.cache i).valid ≡ true
      → (block_at s.cache i).lba ≡ b.lba
      → b.valid ≡ true
      → (b.dirty ≡ false → b.bytes ≡ sector s.disk b.lba)
      → s'.cache ≡ set s.cache i b
      → s'.disk ≡ s.disk
      → Step s s' b.lba b.bytes
  rewrite s s' i b co lt used at_lba v agrees same_cache same_disk =
      let alone : (j : ℕ)
          → j < bcache_num_blocks
          → i ≢ j
          → (block_at s.cache j).valid ≡ true
          → (block_at s.cache j).lba ≢ b.lba =
        λ j ltj ne vj e. ne (co.unique i j lt ltj used vj (at_lba ∙ sym e)) in
      record {
        good =
            rw (same_cache, same_disk)
              (replace-Coherent sector s.cache s.disk i b co lt v alone (inr (used, at_lba))
                agrees);
        here =
            rw (same_cache, same_disk)
              (replace-contents_self sector s.cache s.disk i b co lt v alone (inr (used, at_lba))
                agrees);
        others = λ k ne.
            rw (same_cache, same_disk)
              (replace-contents_other sector s.cache s.disk i b co lt v alone (inr (used, at_lba))
                agrees k ne);
      }

  moved_contents :
      (c : List BcacheBlock) (d d2 : D) (l : ℕ)
      → sector d2 l ≡ sector d l
      → contents sector c d2 l ≡ contents sector c d l
  unfolding contents
  moved_contents c d d2 l e = elim (Option-cases (bcache_find c l)) [
    | inl miss ↦ rw (miss, contents) e
    | inr (i, hit) ↦ rw (hit, contents) refl
  ]

  -- The disk moves to a state with the same sectors.
  pub moved :
      (s s' : Bcache D)
      → Good s
      → s'.cache ≡ s.cache
      → ((l : ℕ) → sector s'.disk l ≡ sector s.disk l)
      → Kept s s'
  moved s s' co same_cache same_sectors =
      let good : Coherent sector s.cache s'.disk = record {
        size = co.size;
        unique = co.unique;
        clean = λ i lt v e. co.clean i lt v e ∙ sym (same_sectors (block_at s.cache i).lba);
        dirty_valid = co.dirty_valid;
      } in
      record {
        good = rw same_cache good;
        same = λ l. rw same_cache (moved_contents s.cache s.disk s'.disk l (same_sectors l));
        valids = λ j. rw same_cache refl;
        lbas = λ j. rw same_cache refl;
      }

-- ===== src/Cache/Sector.antt =====
-- One sector read or written through the cache.
use mathlib.Core.Bool.{true≢false}
use native.Mathlib.Decide.{ℕ_discrete}
use vernis_os.Prelude.{
  ℕ, zero, suc, ◌<◌, ◌≡◌, refl, sym, ◌∙◌, ap, List, [], ◌∷◌, Option, none, some, true, false, inl,
  inr, arith, set, get_or-set_self, Option-cases,
}
use vernis_os.Prelude.Find.{find_index-Hit}
use vernis_os.Cache.{
  Bcache, BcacheBlock, Driver, zero_block, block_at, bcache_num_blocks, bcache_find, holds, evict,
  fill, read_sector, write_slot, write_sector, bcache_lru, put_block, count_miss, count_hit, touch,
}
use vernis_os.Cache.Coherent.{cached, Shows-contents, holds_lem}
use vernis_os.Cache.Lru.{bcache_lru_lt}
use vernis_os.Cache.Steps.{
  Works, Good, holds_at, Kept, evict-Kept, Absent, find-Absent, Absent-contents, Step, place,
  rewrite, moved,
}

module _ {D : Type 0} (driver : Driver D) (sector : D → ℕ → List ℕ)
    (works : Works driver sector) where
  abbrev Fine : Bcache D → Type 0
  Fine s = Good driver sector works s

  abbrev at : Bcache D → ℕ → List ℕ
  at s l = holds_at driver sector works s l

  found :
      (s : Bcache D) (l i : ℕ)
      → Fine s
      → bcache_find s.cache l ≡ some i
      → (i < bcache_num_blocks)
        × ((block_at s.cache i).valid ≡ true)
        × ((block_at s.cache i).lba ≡ l)
        × (at s l ≡ (block_at s.cache i).bytes)
  unfolding bcache_find
  found s l i co hit =
      let h = find_index-Hit (holds l) s.cache zero_block i hit in
      let (v, e) = holds_lem l (block_at s.cache i) h.passes in
      let lt : i < bcache_num_blocks = omega (arith, h.inside, co.size) in
      (
        lt,
        v,
        e,
        Shows-contents sector s.cache s.disk l (block_at s.cache i).bytes co (cached i lt v e refl),
      )

  -- A read gave the contents of the sector and changed those of no sector.
  pub record Read (s : Bcache D) (l : ℕ) (after : Bcache D × Option (List ℕ)) : Type 0 where
    pub good : Fine after.0
    pub gave : after.1 ≡ some (at s l)
    pub same : (k : ℕ) → at after.0 k ≡ at s k

  -- A step that leaves the sector what it was leaves all sectors.
  Step-same :
      (s s' : Bcache D) (l : ℕ) (v : List ℕ)
      → Step driver sector works s s' l v
      → v ≡ at s l
      → (k : ℕ) → at s' k ≡ at s k
  Step-same s s' l v st e k = elim (ℕ_discrete k l) [
    | yes same ↦ rw same (st.here ∙ e)
    | no other ↦ st.others k other
  ]

  hit-Read :
      (s : Bcache D) (l i : ℕ)
      → Fine s
      → bcache_find s.cache l ≡ some i
      → Read s l (touch (count_hit s) i (block_at s.cache i), some (block_at s.cache i).bytes)
  hit-Read s l i co hit =
      let (lt, v, e, shows) = found s l i co hit in
      let b = block_at s.cache i in
      let s' = touch (count_hit s) i b in
      let st =
        rewrite driver sector works s s' i (record b { access_tick = s'.tick }) co lt v refl v
          (λ clean. co.clean i lt v clean) refl refl in
      record {
        good = st.good;
        gave = ap some (sym shows);
        same = Step-same s s' b.lba b.bytes st (sym shows ∙ ap (at s) (sym e));
      }

  fill-works :
      (s : Bcache D) (i l : ℕ)
      → fill driver s i l ≡ (
        touch
            (record s { disk = (driver.real_read s.disk l (block_at s.cache i).bytes).0 })
            i
            (record (block_at s.cache i) {
              lba = l;
              valid = true;
              dirty = false;
              bytes = sector s.disk l;
            }),
        some (sector s.disk l),
      )
  unfolding fill
  fill-works s i l =
      let old = (block_at s.cache i).bytes in
      simp (works.read_works s.disk l old, works.read_bytes s.disk l old) refl

  -- A miss, after the eviction: `s1` holds what `s` does, and slot `i` is clean.
  miss-Read :
      (s s1 : Bcache D) (l i : ℕ)
      → Fine s
      → Kept driver sector works s s1
      → Absent driver sector works s l
      → i < bcache_num_blocks
      → (block_at s1.cache i).dirty ≡ false
      → Read s l (fill driver s1 i l)
  miss-Read s s1 l i co k absent lt clean =
      let d2 = (driver.real_read s1.disk l (block_at s1.cache i).bytes).0 in
      let keeps = works.read_keeps s1.disk l (block_at s1.cache i).bytes in
      let s2 = record s1 { disk = d2 } in
      let k2 = moved driver sector works s1 s2 k.good refl keeps in
      let absent1 : Absent driver sector works s1 l =
        λ j ltj vj e. absent j ltj (sym (k.valids j) ∙ vj) (sym (k.lbas j) ∙ e) in
      let b = record (block_at s1.cache i) {
        lba = l;
        valid = true;
        dirty = false;
        bytes = sector s1.disk l;
      } in
      let s3 = touch s2 i b in
      let st =
        place driver sector works s2 s3 i (record b { access_tick = s3.tick }) k2.good lt clean
          absent1 refl (λ e. sym (keeps l)) refl refl in
      let before : sector s1.disk l ≡ at s1 l =
        sym (Absent-contents driver sector works s1 l k.good absent1) in
      let same : (m : ℕ) → at s3 m ≡ at s m = λ m.
        Step-same s2 s3 l (sector s1.disk l) st (before ∙ sym (k2.same l)) m
        ∙ k2.same m
        ∙ k.same m in
      rw (fill-works s1 i l)
        (record { good = st.good; gave = ap some (before ∙ k.same l); same = same })

  -- The counter of misses is not part of what is kept.
  Kept-count :
      {s s1 : Bcache D} → Kept driver sector works (count_miss s) s1 → Kept driver sector works s s1
  Kept-count k = record { good = k.good; same = k.same; valids = k.valids; lbas = k.lbas }

  -- A read of a sector gives its contents, and changes those of no sector.
  pub read_sector-Read : (s : Bcache D) (l : ℕ) → Fine s → Read s l (read_sector driver s l)
  unfolding read_sector
  read_sector-Read s l co = elim (Option-cases (bcache_find s.cache l)) [
    | inr (i, hit) ↦ rw (hit, read_sector) (hit-Read s l i co hit)
    | inl miss ↦
        let i = bcache_lru s.cache in
        let lt = bcache_lru_lt s.cache co.size in
        let (k, clean) = evict-Kept driver sector works (count_miss s) i co lt in
        rw (miss, read_sector)
          (miss-Read s (evict driver (count_miss s) i) l i co (Kept-count k)
            (find-Absent driver sector works s l co miss) lt clean)
  ]

  set-set : (c : List BcacheBlock) (i : ℕ) (b b2 : BcacheBlock) → set (set c i b) i b2 ≡ set c i b2
  set-set [] i b b2 = refl
  set-set (x ∷ xs) zero b b2 = refl
  set-set (x ∷ xs) (suc i) b b2 = ap (λ l. x ∷ l) (set-set xs i b b2)

  write_slot-hit :
      (s : Bcache D) (l i : ℕ) → bcache_find s.cache l ≡ some i → write_slot driver s l ≡ (s, i)
  unfolding write_slot
  write_slot-hit s l i hit = rw (hit, write_slot) refl

  -- The state in which the block of slot `i` has its new address.
  abbrev claimed : Bcache D → ℕ → ℕ → Bcache D
  claimed s i l = put_block s i (record (block_at s.cache i) { lba = l })

  write_slot-miss :
      (s : Bcache D) (l : ℕ)
      → bcache_find s.cache l ≡ none
      → write_slot driver s l
        ≡ (claimed (evict driver s (bcache_lru s.cache)) (bcache_lru s.cache) l, bcache_lru s.cache)
  unfolding write_slot evict bcache_lru
  write_slot-miss s l miss = rw (miss, write_slot) refl

  -- What `write_sector` makes of a slot.
  abbrev stored : Bcache D → ℕ → List ℕ → Bcache D
  stored s i bytes =
      touch s i (record (block_at s.cache i) { bytes = bytes; valid = true; dirty = true })

  store-hit :
      (s : Bcache D) (l i : ℕ) (bytes : List ℕ)
      → Fine s
      → bcache_find s.cache l ≡ some i
      → Step driver sector works s (stored s i bytes) l bytes
  store-hit s l i bytes co hit =
      let (lt, v, e, shows) = found s l i co hit in
      let b = record (block_at s.cache i) { bytes = bytes; valid = true; dirty = true } in
      let s' = stored s i bytes in
      let st =
        rewrite driver sector works s s' i (record b { access_tick = s'.tick }) co lt v refl refl
          (λ e. absurd (true≢false e)) refl refl in
      rw⁻¹ e st

  store-miss :
      (s s1 : Bcache D) (l i : ℕ) (bytes : List ℕ)
      → Fine s
      → Kept driver sector works s s1
      → Absent driver sector works s l
      → i < bcache_num_blocks
      → (block_at s1.cache i).dirty ≡ false
      → Step driver sector works s (stored (claimed s1 i l) i bytes) l bytes
  store-miss s s1 l i bytes co k absent lt clean =
      let absent1 : Absent driver sector works s1 l =
        λ j ltj vj e. absent j ltj (sym (k.valids j) ∙ vj) (sym (k.lbas j) ∙ e) in
      let s3 = stored (claimed s1 i l) i bytes in
      let old = record (block_at s1.cache i) { lba = l } in
      let b = record old { bytes = bytes; valid = true; dirty = true; access_tick = s3.tick } in
      let in_slot : block_at (set s1.cache i old) i ≡ old =
        get_or-set_self s1.cache i old zero_block (omega (arith, k.good.size)) in
      let one_set : s3.cache ≡ set s1.cache i b =
        ap
          (λ x.
            set (set s1.cache i old) i
              (record x { bytes = bytes; valid = true; dirty = true; access_tick = s3.tick }))
          in_slot
        ∙ set-set s1.cache i old b in
      let st =
        place driver sector works s1 s3 i b k.good lt clean absent1 refl
          (λ e. absurd (true≢false e)) one_set refl in
      record { good = st.good; here = st.here; others = λ m ne. st.others m ne ∙ k.same m }

  -- A write of a sector puts the bytes there, and changes no other sector.
  pub write_sector-Step :
      (s : Bcache D) (l : ℕ) (bytes : List ℕ)
      → Fine s
      → Step driver sector works s (write_sector driver s l bytes) l bytes
  unfolding write_sector
  write_sector-Step s l bytes co = elim (Option-cases (bcache_find s.cache l)) [
    | inr (i, hit) ↦ rw (write_slot-hit s l i hit, write_sector) (store-hit s l i bytes co hit)
    | inl miss ↦
        let i = bcache_lru s.cache in
        let lt = bcache_lru_lt s.cache co.size in
        let (k, clean) = evict-Kept driver sector works s i co lt in
        rw (write_slot-miss s l miss, write_sector)
          (store-miss s (evict driver s i) l i bytes co k
            (find-Absent driver sector works s l co miss) lt clean)
  ]

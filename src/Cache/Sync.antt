-- ===== src/Cache/Sync.antt =====
-- Writing back: `bcache_sync` and `bcache_tick` over a disk that works.
use native.Mathlib.Decide.{ℕ_discrete}
use vernis_os.Prelude.{
  ℕ, zero, suc, ◌+◌, ◌<◌, ◌≤◌, ◌≡◌, refl, sym, ◌∙◌, ap, List, Bool, true, false, inl, inr, arith,
  leb, set, get_or-set_self, get_or-set_ne, Bool-cases, Option-cases,
}
use vernis_os.Prelude.Words.{u32}
use vernis_os.Cache.{
  Bcache, Driver, zero_block, block_at, bcache_num_blocks, sync_from, bcache_sync, bcache_tick,
  has_dirty,
}
use vernis_os.Cache.Coherent.{Shows, cached, on_disk, contents-Shows}
use vernis_os.Cache.Steps.{
  Works, Good, holds_at, Kept, Kept-refl, written_back, writeback-dirty, written_back-Kept,
}

module _ {D : Type 0} (driver : Driver D) (sector : D → ℕ → List ℕ)
    (works : Works driver sector) where
  abbrev Fine : Bcache D → Type 0
  Fine s = Good driver sector works s

  abbrev array : Bcache D → ℕ → List ℕ
  array s = holds_at driver sector works s

  abbrev Clean : Bcache D → ℕ → Type 0
  Clean s j = (block_at s.cache j).dirty ≡ false

  -- A write-back of slot `i`, if it is dirty.
  record Washed (s s1 : Bcache D) (i : ℕ) : Type 0 where
    pub kept : Kept driver sector works s s1
    pub now : Clean s1 i
    pub still : (j : ℕ) → Clean s j → Clean s1 j

  written_back-Washed :
      (s : Bcache D) (i : ℕ)
      → Fine s
      → i < bcache_num_blocks
      → (block_at s.cache i).dirty ≡ true
      → Washed s (written_back driver sector works s i) i
  written_back-Washed s i co lt dirty =
      let b = record (block_at s.cache i) { dirty = false } in
      let here : block_at (set s.cache i b) i ≡ b =
        get_or-set_self s.cache i b zero_block (omega (arith, co.size)) in
      record {
        kept = written_back-Kept driver sector works s i co lt dirty;
        now = ap (λ x. x.dirty) here;
        still = λ j clean. elim (ℕ_discrete i j) [
          | yes e ↦ rw (sym e) (ap (λ x. x.dirty) here)
          | no ne ↦ rw (get_or-set_ne s.cache i j b zero_block ne) clean
        ];
      }

  -- What the loop leaves from slot `i` on.
  record Synced (s : Bcache D) (i : ℕ) (after : Bcache D × Bool) : Type 0 where
    pub good : Fine after.0
    pub same : (l : ℕ) → array after.0 l ≡ array s l
    pub fine : after.1 ≡ true
    pub rest : (j : ℕ) → i ≤ j → j < bcache_num_blocks → Clean after.0 j
    pub still : (j : ℕ) → Clean s j → Clean after.0 j

  Synced-next :
      (s s1 : Bcache D) (i : ℕ) (after : Bcache D × Bool)
      → Washed s s1 i
      → Synced s1 (i + 1) after
      → Synced s i after
  Synced-next s s1 i after w y = record {
    good = y.good;
    same = λ l. y.same l ∙ w.kept.same l;
    fine = y.fine;
    rest = λ j le lt. elim (ℕ_discrete i j) [
      | yes e ↦ y.still j (rw (sym e) w.now)
      | no ne ↦ y.rest j (omega arith) lt
    ];
    still = λ j clean. y.still j (w.still j clean);
  }

  sync_from-Synced :
      (s : Bcache D) (i n : ℕ)
      → Fine s
      → i + n ≡ bcache_num_blocks
      → Synced s i (sync_from driver s i n true)
  unfolding sync_from
  sync_from-Synced s i zero co e = record {
    good = co;
    same = λ l. refl;
    fine = refl;
    rest = λ j le lt. absurd (omega arith);
    still = λ j clean. clean;
  }
  sync_from-Synced s i (suc n) co e = elim (Bool-cases (block_at s.cache i).dirty) [
    | inl dirty ↦
        let s1 = written_back driver sector works s i in
        let w = written_back-Washed s i co (omega arith) dirty in
        rw (dirty, writeback-dirty driver sector works s i (omega arith) dirty)
          (Synced-next s s1 i (sync_from driver s1 (i + 1) n true) w
            (sync_from-Synced s1 (i + 1) n w.kept.good (omega arith)))
    | inr clean ↦
        let w : Washed s s i = record {
          kept = Kept-refl driver sector works s co;
          now = clean;
          still = λ j c. c;
        } in
        rw clean (
          Synced-next s s i (sync_from driver s (i + 1) n true) w
            (sync_from-Synced s (i + 1) n co (omega arith)))
  ]

  all-Clean :
      (s : Bcache D)
      → Fine s
      → ((j : ℕ) → j < bcache_num_blocks → Clean s j)
      → (l : ℕ) → sector s.disk l ≡ array s l
  all-Clean s co clean l = agree (contents-Shows sector s.cache s.disk l co.size)
    where
      agree : {v : List ℕ} → Shows sector s.cache s.disk l v → sector s.disk l ≡ v
      agree (cached i lt v e b) =
          ap (sector s.disk) (sym e) ∙ sym (co.clean i lt v (clean i lt)) ∙ b
      agree (on_disk absent e) = e

  -- On a disk that works and a coherent cache that is ready `bcache_sync` returns 0, does not change the array of sectors, and afterwards the
  -- disk itself holds that array.
  pub bcache_sync_lem :
      (s : Bcache D)
      → Fine s
      → s.ready ≡ true
      → Fine (bcache_sync driver s).0
        × ((bcache_sync driver s).1 ≡ true)
        × ((l : ℕ) → array (bcache_sync driver s).0 l ≡ array s l)
        × ((l : ℕ) → sector (bcache_sync driver s).0.disk l ≡ array s l)
  unfolding bcache_sync
  bcache_sync_lem s co up =
      let y = sync_from-Synced s 0 bcache_num_blocks co (omega arith) in
      simp up (
        y.good,
        y.fine,
        y.same,
        λ l.
            all-Clean (sync_from driver s 0 bcache_num_blocks true).0 y.good
              (λ j lt. y.rest j (omega arith) lt) l
            ∙ y.same l,
      )

  -- On a disk that works a timer tick, with or without a flush, leaves a coherent cache coherent and does not change the array of sectors.
  pub bcache_tick_keeps :
      (s : Bcache D)
      → Fine s
      → Fine (bcache_tick driver s) × ((l : ℕ) → array (bcache_tick driver s) l ≡ array s l)
  unfolding bcache_tick
  bcache_tick_keeps s co = elim (Bool-cases s.ready) [
    | inr down ↦ simp down (co, λ l. refl)
    | inl up ↦ elim (Bool-cases (leb s.flush_interval (u32 (s.flush_counter + 1)))) [
      | inr early ↦ simp (up, early) (co, λ l. refl)
      | inl due ↦ elim (Option-cases (has_dirty s.cache)) [
        | inl nothing ↦ simp (up, due, nothing) (co, λ l. refl)
        | inr (i, some_dirty) ↦
            let (good, fine, same, on) =
              bcache_sync_lem (record s { flush_counter = 0; ready = true }) co refl in
            simp (up, due, some_dirty) (good, same)
      ]
    ]
  ]

-- ===== src/Cache/Slots.antt =====
-- The two ways in which a slot of the cache changes: it takes a new block, or its dirty block becomes
-- clean because the disk has the bytes.
use native.Mathlib.Decide.{ℕ_discrete}
use vernis_os.Prelude.{
  ℕ, ◌<◌, ◌≡◌, ◌≢◌, refl, sym, ◌∙◌, ap, List, true, false, ◌⊎◌, inl, inr, arith, length-set, set,
  get_or-set_self, get_or-set_ne,
}
use vernis_os.Cache.{BcacheBlock, zero_block, block_at, bcache_num_blocks}
use vernis_os.Cache.Coherent.{
  Coherent, Shows, cached, on_disk, contents, contents-Shows, Shows-contents,
}

module _ {D : Type 0} (sector : D → ℕ → List ℕ) (c : List BcacheBlock) (d : D) (i : ℕ)
    (b : BcacheBlock) (co : Coherent sector c d) (lt : i < bcache_num_blocks) where
  self : block_at (set c i b) i ≡ b
  self = get_or-set_self c i b zero_block (omega (arith, co.size))

  other : (j : ℕ) → i ≢ j → block_at (set c i b) j ≡ block_at c j
  other j ne = get_or-set_ne c i j b zero_block ne

  -- Slot `i` takes a valid block of a sector that no other slot holds; a dirty block is only replaced by a
  -- block of the same sector, and a clean block agrees with the disk.
  module _ (valid_b : b.valid ≡ true)
      (alone : (j : ℕ)
        → j < bcache_num_blocks
        → i ≢ j
        → (block_at c j).valid ≡ true
        → (block_at c j).lba ≢ b.lba)
      (kept : ((block_at c i).dirty ≡ false)
        ⊎ (((block_at c i).valid ≡ true) × ((block_at c i).lba ≡ b.lba)))
      (clean_b : b.dirty ≡ false → b.bytes ≡ sector d b.lba) where
    pub replace-Coherent : Coherent sector (set c i b) d
    replace-Coherent = record {
      size = length-set c i b ∙ co.size;
      unique = λ j k ltj ltk. elim (ℕ_discrete i j) [
        | yes ij ↦ elim (ℕ_discrete i k) [
          | yes ik ↦ λ vj vk e. sym ij ∙ ik
          | no ik ↦ rw (sym ij, self, other k ik) (λ vj vk e. absurd (alone k ltk ik vk (sym e)))
        ]
        | no ij ↦ elim (ℕ_discrete i k) [
          | yes ik ↦ rw (sym ik, self, other j ij) (λ vj vk e. absurd (alone j ltj ij vj e))
          | no ik ↦ rw (other j ij, other k ik) (co.unique j k ltj ltk)
        ]
      ];
      clean = λ j ltj. elim (ℕ_discrete i j) [
        | yes ij ↦ rw (sym ij, self) (λ v e. clean_b e)
        | no ij ↦ rw (other j ij) (co.clean j ltj)
      ];
      dirty_valid = λ j ltj. elim (ℕ_discrete i j) [
        | yes ij ↦ rw (sym ij, self) (λ e. valid_b)
        | no ij ↦ rw (other j ij) (co.dirty_valid j ltj)
      ];
    }

    pub replace-contents_self : contents sector (set c i b) d b.lba ≡ b.bytes
    replace-contents_self =
        Shows-contents sector (set c i b) d b.lba b.bytes replace-Coherent
          (cached i lt (rw self valid_b) (rw self refl) (rw self refl))

    replace-Shows :
        (l : ℕ) (v : List ℕ) → l ≢ b.lba → Shows sector c d l v → Shows sector (set c i b) d l v
    replace-Shows l v ne (cached j ltj vj ej bj) = elim (ℕ_discrete i j) [
      | yes ij ↦ elim kept [
        | inl clean ↦
            let vi : (block_at c i).valid ≡ true = rw ij vj in
            let ei : (block_at c i).lba ≡ l = rw ij ej in
            let bi : (block_at c i).bytes ≡ v = rw ij bj in
            on_disk
              (λ k ltk. elim (ℕ_discrete i k) [
                | yes ik ↦ rw (sym ik, self) (λ vk e. ne (sym e))
                | no ik ↦ rw (other k ik) (λ vk e. ik (co.unique i k lt ltk vi vk (ei ∙ sym e)))
              ])
              (sym (ap (sector d) ei) ∙ sym (co.clean i lt vi clean) ∙ bi)
        | inr (vi, e) ↦ absurd (ne (sym ej ∙ ap (λ k. (block_at c k).lba) (sym ij) ∙ e))
      ]
      | no ij ↦ cached j ltj (rw (other j ij) vj) (rw (other j ij) ej) (rw (other j ij) bj)
    ]
    replace-Shows l v ne (on_disk absent dv) =
        on_disk
          (λ k ltk. elim (ℕ_discrete i k) [
            | yes ik ↦ rw (sym ik, self) (λ vk e. ne (sym e))
            | no ik ↦ rw (other k ik) (absent k ltk)
          ])
          dv

    pub replace-contents_other :
        (l : ℕ) → l ≢ b.lba → contents sector (set c i b) d l ≡ contents sector c d l
    replace-contents_other l ne =
        Shows-contents sector (set c i b) d l (contents sector c d l) replace-Coherent
          (replace-Shows l (contents sector c d l) ne (contents-Shows sector c d l co.size))

-- Slot `i` has been written back: the disk `d2` has the bytes of its block, and no other sector changed.
module _ {D : Type 0} (sector : D → ℕ → List ℕ) (c : List BcacheBlock) (d d2 : D) (i : ℕ)
    (co : Coherent sector c d) (lt : i < bcache_num_blocks) (valid_i : (block_at c i).valid ≡ true)
    (written : sector d2 (block_at c i).lba ≡ (block_at c i).bytes)
    (others : (l : ℕ) → l ≢ (block_at c i).lba → sector d2 l ≡ sector d l) where
  abbrev pub cleaned : BcacheBlock
  cleaned = record (block_at c i) { dirty = false }

  here : block_at (set c i cleaned) i ≡ cleaned
  here = get_or-set_self c i cleaned zero_block (omega (arith, co.size))

  elsewhere : (j : ℕ) → i ≢ j → block_at (set c i cleaned) j ≡ block_at c j
  elsewhere j ne = get_or-set_ne c i j cleaned zero_block ne

  pub same_valid : (j : ℕ) → (block_at (set c i cleaned) j).valid ≡ (block_at c j).valid
  same_valid j = elim (ℕ_discrete i j) [
    | yes e ↦ rw (sym e, here) refl
    | no ne ↦ rw (elsewhere j ne) refl
  ]

  pub same_lba : (j : ℕ) → (block_at (set c i cleaned) j).lba ≡ (block_at c j).lba
  same_lba j = elim (ℕ_discrete i j) [
    | yes e ↦ rw (sym e, here) refl
    | no ne ↦ rw (elsewhere j ne) refl
  ]

  same_bytes : (j : ℕ) → (block_at (set c i cleaned) j).bytes ≡ (block_at c j).bytes
  same_bytes j = elim (ℕ_discrete i j) [
    | yes e ↦ rw (sym e, here) refl
    | no ne ↦ rw (elsewhere j ne) refl
  ]

  pub cleaned-Coherent : Coherent sector (set c i cleaned) d2
  cleaned-Coherent = record {
    size = length-set c i cleaned ∙ co.size;
    unique = λ j k ltj ltk.
        rw (same_valid j, same_valid k, same_lba j, same_lba k) (co.unique j k ltj ltk);
    clean = λ j ltj. elim (ℕ_discrete i j) [
      | yes ij ↦ rw (sym ij, here) (λ v e. sym written)
      | no ij ↦ rw (elsewhere j ij) (λ v e.
          co.clean j ltj v e
          ∙ sym (others (block_at c j).lba (λ eq. ij (co.unique i j lt ltj valid_i v (sym eq)))))
    ];
    dirty_valid = λ j ltj. elim (ℕ_discrete i j) [
      | yes ij ↦ rw (sym ij, here) (λ e. valid_i)
      | no ij ↦ rw (elsewhere j ij) (co.dirty_valid j ltj)
    ];
  }

  cleaned-Shows :
      (l : ℕ) (v : List ℕ) → Shows sector c d l v → Shows sector (set c i cleaned) d2 l v
  cleaned-Shows l v (cached j ltj vj ej bj) =
      cached j ltj (same_valid j ∙ vj) (same_lba j ∙ ej) (same_bytes j ∙ bj)
  cleaned-Shows l v (on_disk absent dv) =
      on_disk (λ j ltj. rw (same_valid j, same_lba j) (absent j ltj))
        (others l (λ e. absent i lt valid_i (sym e)) ∙ dv)

  pub cleaned-contents : (l : ℕ) → contents sector (set c i cleaned) d2 l ≡ contents sector c d l
  cleaned-contents l =
      Shows-contents sector (set c i cleaned) d2 l (contents sector c d l) cleaned-Coherent
        (cleaned-Shows l (contents sector c d l) (contents-Shows sector c d l co.size))

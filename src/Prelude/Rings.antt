-- ===== src/Prelude/Rings.antt =====
-- A ring: `n` entries of an array of `size` entries, from index `h` on, going round at its end.
use Prim.Native.Nat.{ℕ, zero, suc, ◌+◌, ◌-◌, ◌%◌, ◌≤◌, ◌<◌}
use mathlib.Core.Path.{◌≡◌, refl, ap, ap₂, ◌∙◌, sym, ◌≡⟨◌⟩◌, ◌∎}
use mathlib.Core.Logic.{◌≢◌}
use mathlib.Core.List.{List, [], ◌∷◌, ◌++◌}
use native.Mathlib.Nat.{mod-mod, mod-add-mod, mod-eq_of_lt, mod-eq-sub-mod, mod-lt}
use native.Mathlib.Decide.{dec_lt}
use native.Mathlib.Omega.{arith}
use package.vernis_os.Prelude.Lists.{length, get_or, set, get_or-set_self, get_or-set_ne}

module _ {ℓ} {A : Type ℓ} (d : A) (buf : List A) (size : ℕ) where
  -- `h` is reduced only where the array is read.
  unfoldable pub ring : ℕ → ℕ → List A
  ring h zero = []
  ring h (suc n) = get_or buf (h % size) d ∷ ring (h + 1) n

  pub length-ring : (h n : ℕ) → length (ring h n) ≡ n
  unfolding ring
  length-ring h zero = refl
  length-ring h (suc n) = ap suc (length-ring (h + 1) n)

  -- One entry more, at the far end.
  pub ring_snoc : (h n : ℕ) → ring h (suc n) ≡ ring h n ++ get_or buf ((h + n) % size) d ∷ []
  unfolding ring
  ring_snoc h zero = ap (λ k. get_or buf (k % size) d ∷ []) (omega arith)
  ring_snoc h (suc n) =
      ap (λ l. get_or buf (h % size) d ∷ l)
        (ring_snoc (h + 1) n
          ∙ ap (λ k. ring (h + 1) n ++ get_or buf (k % size) d ∷ []) (omega arith))

next_mod : (size h g : ℕ) → h % size ≡ g % size → (h + 1) % size ≡ (g + 1) % size
next_mod size h g e =
    (h + 1) % size
    ≡⟨ sym (mod-add-mod h size 1) ⟩ (h % size + 1) % size
    ≡⟨ ap (λ k. (k + 1) % size) e ⟩ (g % size + 1) % size
    ≡⟨ mod-add-mod g size 1 ⟩ (g + 1) % size ∎

-- Fewer than `size` steps round the ring do not come back to the start.
reduced-add-mod-ne : (size r j : ℕ) → r < size → 0 < j → j < size → (r + j) % size ≢ r
reduced-add-mod-ne size r j hr hj lt = elim (dec_lt (r + j) size) [
  | yes p ↦ omega (arith, mod-eq_of_lt p)
  | no p ↦ omega (
    arith,
    mod-eq-sub-mod {n = r + j} {m = size} (omega arith),
    mod-eq_of_lt {n = r + j - size} {m = size} (omega arith),
  )
]

pub add-mod-ne : (size a j : ℕ) → 0 < j → j < size → (a + j) % size ≢ a % size
add-mod-ne size a j hj lt =
    rw (← mod-add-mod a size j)
      (reduced-add-mod-ne size (a % size) j (mod-lt a (omega arith)) hj lt)

module _ {ℓ} {A : Type ℓ} (d : A) where
  -- Only the residue of the start matters.
  pub ring-mod :
      (buf : List A) (size h g n : ℕ)
      → h % size ≡ g % size
      → ring d buf size h n ≡ ring d buf size g n
  unfolding ring
  ring-mod buf size h g zero e = refl
  ring-mod buf size h g (suc n) e =
      ap₂ (λ k l. get_or buf k d ∷ l) e (ring-mod buf size (h + 1) (g + 1) n (next_mod size h g e))

  -- A write to an index that the ring does not reach.
  pub ring-set_out :
      (buf : List A) (size h n w : ℕ) (v : A)
      → ((k : ℕ) → k < n → w ≢ (h + k) % size)
      → ring d (set buf w v) size h n ≡ ring d buf size h n
  unfolding ring
  ring-set_out buf size h zero w v out = refl
  ring-set_out buf size h (suc n) w v out =
      ap₂ ◌∷◌
        (get_or-set_ne buf w (h % size) v d
          (let e : h + 0 ≡ h = omega arith in rw e at (out 0 (omega arith))))
        (ring-set_out buf size (h + 1) n w v (λ k lt.
          let e : h + suc k ≡ h + 1 + k = omega arith in rw e at (out (suc k) (omega arith))))

  -- A write just past the end extends the ring by the entry.
  pub ring-set_end :
      (buf : List A) (size h n w : ℕ) (v : A)
      → size ≤ length buf
      → n < size
      → w ≡ (h + n) % size
      → ring d (set buf w v) size h (suc n) ≡ ring d buf size h n ++ v ∷ []
  ring-set_end buf size h n w v room lt e =
      ring_snoc d (set buf w v) size h n
      ∙ ap₂ (λ l x. l ++ x ∷ [])
          (ring-set_out buf size h n w v (λ k less same.
            add-mod-ne size (h + k) (n - k) (omega arith) (omega arith)
              (let s : h + k + (n - k) ≡ h + n = omega arith in rw s (sym e ∙ same))))
          (rw (← e) (
            get_or-set_self buf w v d
              (let b = mod-lt (h + n) {m = size} (omega arith) in omega arith)))

  -- The first entry and the rest.
  pub ring_front :
      (buf : List A) (size h n : ℕ)
      → h < size
      → 0 < n
      → ring d buf size h n ≡ get_or buf h d ∷ ring d buf size ((h + 1) % size) (n - 1)
  unfolding ring
  ring_front buf size h zero lt pos = absurd (omega arith)
  ring_front buf size h (suc n) lt pos =
      ap₂ (λ k l. get_or buf k d ∷ l) (mod-eq_of_lt lt)
        (ring-mod buf size (h + 1) ((h + 1) % size) n (sym (mod-mod (h + 1) size))
          ∙ ap (λ k. ring d buf size ((h + 1) % size) k) (omega arith))

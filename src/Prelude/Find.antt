-- ===== src/Prelude/Find.antt =====
-- The loop `for (i = 0; i < n; i++) if (test(a[i])) return i;` over an array, and the number of
-- entries that pass a test.
use Prim.Native.Nat.{ℕ, zero, suc, ◌+◌, ◌≤◌, ◌<◌}
use mathlib.Core.Path.{◌≡◌, refl}
use mathlib.Core.Logic.{inl, inr}
use mathlib.Core.Bool.{Bool, true, false, not}
use mathlib.Core.Option.{Option, none, some}
use mathlib.Core.List.{List, [], ◌∷◌}
use native.Mathlib.Omega.{arith}
use package.vernis_os.Prelude.Tests.{if◌then◌else◌, Bool-cases, Option-cases}
use package.vernis_os.Prelude.Lists.{length, get_or, set, replicate}

module _ {ℓ} {A : Type ℓ} (test : A → Bool) where
  -- The first index, from `i` on, whose entry passes.
  unfoldable pub find_from : List A → ℕ → Option ℕ
  find_from [] i = none
  find_from (x ∷ xs) i = let rest = find_from xs (i + 1) in if test x then some i else rest

  unfoldable pub find_index : List A → Option ℕ
  unfolding find_from
  find_index xs = find_from xs 0

  unfoldable pub count_if : List A → ℕ
  count_if [] = 0
  count_if (x ∷ xs) = (if test x then 1 else 0) + count_if xs

  -- What a hit at `k` means.
  pub record Hit (xs : List A) (d : A) (k : ℕ) : Type ℓ where
    pub inside : k < length xs
    pub passes : test (get_or xs k d) ≡ true
    pub first : (j : ℕ) → j < k → test (get_or xs j d) ≡ false

  Hit-suc :
      (x : A) (xs : List A) (d : A) (k : ℕ) → test x ≡ false → Hit xs d k → Hit (x ∷ xs) d (suc k)
  Hit-suc x xs d k fx h = record {
    inside = omega (arith, h.inside);
    passes = h.passes;
    first = λ j. elim j as (λ j. j < suc k → test (get_or (x ∷ xs) j d) ≡ false) [
      | zero ↦ λ lt. fx
      | suc j ↦ λ lt. h.first j (omega arith)
    ];
  }

  find_from-Hit :
      (xs : List A) (d : A) (i k : ℕ) → find_from xs i ≡ some k → (m : ℕ) × (k ≡ i + m) × Hit xs d m
  unfolding find_from
  find_from-Hit [] d i k e = cc
  find_from-Hit (x ∷ xs) d i k e = elim (Bool-cases (test x)) [
    | inl t ↦ (
      0,
      ground arith,
      record { inside = omega arith; passes = t; first = λ j lt. absurd (omega arith) },
    )
    | inr f ↦
        let (m, eq, h) = find_from-Hit xs d (i + 1) k (rw f at e) in
        (suc m, omega arith, Hit-suc x xs d m f h)
  ]

  -- A hit is inside the array, passes the test, and no earlier entry passes it.
  pub find_index-Hit : (xs : List A) (d : A) (k : ℕ) → find_index xs ≡ some k → Hit xs d k
  unfolding find_index
  find_index-Hit xs d k e =
      let (m, eq, h) = find_from-Hit xs d 0 k e in let eq' : k ≡ m = omega arith in rw eq' h

  find_from-none :
      (xs : List A) (d : A) (i j : ℕ)
      → find_from xs i ≡ none
      → j < length xs
      → test (get_or xs j d) ≡ false
  unfolding find_from
  find_from-none [] d i j e lt = absurd (omega arith)
  find_from-none (x ∷ xs) d i zero e lt = ground arith
  find_from-none (x ∷ xs) d i (suc j) e lt = elim (Bool-cases (test x)) [
    | inl t ↦ absurd (ground arith)
    | inr f ↦ find_from-none xs d (i + 1) j (rw f at e) (omega arith)
  ]

  -- A miss: no entry passes.
  pub find_index-none :
      (xs : List A) (d : A) (j : ℕ)
      → find_index xs ≡ none
      → j < length xs
      → test (get_or xs j d) ≡ false
  unfolding find_index
  find_index-none xs d j e lt = find_from-none xs d 0 j e lt

  find_from_first : (xs : List A) (d : A) (i k : ℕ) → Hit xs d k → find_from xs i ≡ some (i + k)
  unfolding find_from
  find_from_first [] d i k h = absurd (omega (arith, h.inside))
  find_from_first (x ∷ xs) d i zero h = ground (arith, h.passes)
  find_from_first (x ∷ xs) d i (suc k) h = ground (
    arith,
    h.first 0,
    find_from_first xs d (i + 1) k (record {
      inside = omega (arith, h.inside);
      passes = h.passes;
      first = λ j lt. h.first (suc j) (omega arith);
    }),
  )

  -- The loop finds the first entry that passes.
  pub find_index_first : (xs : List A) (d : A) (k : ℕ) → Hit xs d k → find_index xs ≡ some k
  unfolding find_index
  find_index_first xs d k h = ground (arith, find_from_first xs d 0 k h)

  -- Replacing an entry changes the count by that entry's part alone.
  pub count_if-set :
      (xs : List A) (d v : A) (i : ℕ)
      → i < length xs
      → count_if (set xs i v) + (if test (get_or xs i d) then 1 else 0)
        ≡ count_if xs + (if test v then 1 else 0)
  unfolding count_if
  count_if-set [] d v i lt = absurd (omega arith)
  count_if-set (x ∷ xs) d v zero lt = omega arith
  count_if-set (x ∷ xs) d v (suc i) lt = omega (arith, count_if-set xs d v i (omega arith))

  pub count_if-le : (xs : List A) → count_if xs ≤ length xs
  unfolding count_if
  count_if-le [] = omega arith
  count_if-le (x ∷ xs) = ground (arith, count_if-le xs)

  pub count_if-pos :
      (xs : List A) (d : A) (i : ℕ) → i < length xs → test (get_or xs i d) ≡ true → 0 < count_if xs
  unfolding count_if
  count_if-pos [] d i lt t = absurd (omega arith)
  count_if-pos (x ∷ xs) d zero lt t = rw t (omega arith)
  count_if-pos (x ∷ xs) d (suc i) lt t = omega (arith, count_if-pos xs d i (omega arith) t)

  pub count_if-replicate : (n : ℕ) (a : A) → test a ≡ false → count_if (replicate n a) ≡ 0
  unfolding count_if
  count_if-replicate zero a f = refl
  count_if-replicate (suc n) a f = rw f (omega (arith, count_if-replicate n a f))

  -- A miss counts nothing.
  pub count_if-none : (xs : List A) (i : ℕ) → find_from xs i ≡ none → count_if xs ≡ 0
  unfolding find_from count_if
  count_if-none [] i e = refl
  count_if-none (x ∷ xs) i e = ground (arith, count_if-none xs (i + 1))

-- Two complementary tests make up the array.
pub count_if-complement {ℓ} :
    {A : Type ℓ} (test other : A → Bool) (xs : List A)
    → ((x : A) → other x ≡ not (test x))
    → count_if test xs + count_if other xs ≡ length xs
unfolding count_if
count_if-complement test other [] e = omega arith
count_if-complement test other (x ∷ xs) e = ground (arith, e x, count_if-complement test other xs e)

-- No entry passes: a miss.
pub find_index-eq_none {ℓ} :
    {A : Type ℓ} (test : A → Bool) (xs : List A) (d : A)
    → ((j : ℕ) → j < length xs → test (get_or xs j d) ≡ false)
    → find_index test xs ≡ none
find_index-eq_none test xs d none_pass = elim (Option-cases (find_index test xs)) [
  | inl miss ↦ miss
  | inr (k, e) ↦ let hit = find_index-Hit test xs d k e in cc (hit.passes, none_pass k hit.inside)
]

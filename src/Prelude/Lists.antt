-- ===== src/Prelude/Lists.antt =====
-- C arrays as lists with native indices. A read out of range gives a default, a write out of range
-- changes nothing; the invariants of the components rule both out.
use Prim.Native.Nat.{ℕ, zero, suc, ◌+◌, ◌-◌, ◌≤◌, ◌<◌, min}
use mathlib.Core.Path.{◌≡◌, refl, ap, sym, ◌∙◌}
use mathlib.Core.Logic.{◌≢◌}
use mathlib.Core.List.{List, [], ◌∷◌, ◌++◌, map}
use native.Mathlib.Omega.{arith}
use package.vernis_os.Prelude.Tests.{if◌then◌else◌, ◌==◌}

module _ {ℓ} {A : Type ℓ} where
  abbrev pub length : List A → ℕ
  length [] = 0
  length (x ∷ xs) = suc (length xs)

  abbrev pub get_or : List A → ℕ → A → A
  get_or [] i d = d
  get_or (x ∷ xs) zero d = x
  get_or (x ∷ xs) (suc i) d = get_or xs i d

  abbrev pub set : List A → ℕ → A → List A
  set [] i v = []
  set (x ∷ xs) zero v = v ∷ xs
  set (x ∷ xs) (suc i) v = x ∷ set xs i v

  abbrev pub take : ℕ → List A → List A
  take zero xs = []
  take (suc n) [] = []
  take (suc n) (x ∷ xs) = x ∷ take n xs

  abbrev pub drop : ℕ → List A → List A
  drop zero xs = xs
  drop (suc n) [] = []
  drop (suc n) (x ∷ xs) = drop n xs

  abbrev pub replicate : ℕ → A → List A
  replicate zero a = []
  replicate (suc n) a = a ∷ replicate n a

  pub length-append : (xs ys : List A) → length (xs ++ ys) ≡ length xs + length ys
  length-append [] ys = omega arith
  length-append (x ∷ xs) ys = omega (arith, length-append xs ys)

  pub length-set : (xs : List A) (i : ℕ) (v : A) → length (set xs i v) ≡ length xs
  length-set [] i v = refl
  length-set (x ∷ xs) zero v = refl
  length-set (x ∷ xs) (suc i) v = ap suc (length-set xs i v)

  pub length-replicate : (n : ℕ) (a : A) → length (replicate n a) ≡ n
  length-replicate zero a = refl
  length-replicate (suc n) a = ap suc (length-replicate n a)

  pub length-take : (n : ℕ) (xs : List A) → length (take n xs) ≡ min n (length xs)
  length-take zero xs = omega arith
  length-take (suc n) [] = omega arith
  length-take (suc n) (x ∷ xs) = omega (arith, length-take n xs)

  pub get_or-set_self :
      (xs : List A) (i : ℕ) (v d : A) → i < length xs → get_or (set xs i v) i d ≡ v
  get_or-set_self [] i v d h = absurd (omega arith)
  get_or-set_self (x ∷ xs) zero v d h = refl
  get_or-set_self (x ∷ xs) (suc i) v d h = get_or-set_self xs i v d (omega arith)

  pub get_or-set_ne :
      (xs : List A) (i j : ℕ) (v d : A) → i ≢ j → get_or (set xs i v) j d ≡ get_or xs j d
  get_or-set_ne [] i j v d h = refl
  get_or-set_ne (x ∷ xs) zero zero v d h = absurd (h refl)
  get_or-set_ne (x ∷ xs) zero (suc j) v d h = refl
  get_or-set_ne (x ∷ xs) (suc i) zero v d h = refl
  get_or-set_ne (x ∷ xs) (suc i) (suc j) v d h = get_or-set_ne xs i j v d (λ e. h (ap suc e))

  pub get_or-set :
      (xs : List A) (i j : ℕ) (v d : A)
      → i < length xs
      → get_or (set xs i v) j d ≡ (if i == j then v else get_or xs j d)
  get_or-set [] i j v d h = absurd (omega arith)
  get_or-set (x ∷ xs) zero zero v d h = refl
  get_or-set (x ∷ xs) zero (suc j) v d h = ground arith
  get_or-set (x ∷ xs) (suc i) zero v d h = ground arith
  get_or-set (x ∷ xs) (suc i) (suc j) v d h = ground (arith, get_or-set xs i j v d)

  pub get_or-replicate : (n i : ℕ) (a : A) → get_or (replicate n a) i a ≡ a
  get_or-replicate zero i a = refl
  get_or-replicate (suc n) zero a = refl
  get_or-replicate (suc n) (suc i) a = get_or-replicate n i a

  pub take-append : (xs ys : List A) → take (length xs) (xs ++ ys) ≡ xs
  take-append [] ys = refl
  take-append (x ∷ xs) ys = ap (λ l. x ∷ l) (take-append xs ys)

  pub drop-append : (xs ys : List A) → drop (length xs) (xs ++ ys) ≡ ys
  drop-append [] ys = refl
  drop-append (x ∷ xs) ys = drop-append xs ys

module _ {ℓ} {A : Type ℓ} where
  pub length-drop : (n : ℕ) (xs : List A) → length (drop n xs) ≡ length xs - n
  length-drop zero xs = omega arith
  length-drop (suc n) [] = omega arith
  length-drop (suc n) (x ∷ xs) = omega (arith, length-drop n xs)

  pub take-cons : (n : ℕ) (x : A) (xs : List A) → n ≢ 0 → take n (x ∷ xs) ≡ x ∷ take (n - 1) xs
  take-cons zero x xs h = absurd (h refl)
  take-cons (suc n) x xs h = ap (λ k. x ∷ take k xs) (omega arith)

  pub drop-cons : (n : ℕ) (x : A) (xs : List A) → n ≢ 0 → drop n (x ∷ xs) ≡ drop (n - 1) xs
  drop-cons zero x xs h = absurd (h refl)
  drop-cons (suc n) x xs h = ap (λ k. drop k xs) (omega arith)

  pub take-take : (m n : ℕ) (xs : List A) → take m (take n xs) ≡ take (min n m) xs
  take-take zero n xs = let none_left : 0 ≡ min n 0 = omega arith in rw (← none_left)
  take-take (suc m) zero xs = let none_left : 0 ≡ min 0 (suc m) = omega arith in rw (← none_left)
  take-take (suc m) (suc n) [] =
      let both : suc (min n m) ≡ min (suc n) (suc m) = omega arith in rw (← both)
  take-take (suc m) (suc n) (x ∷ xs) =
      let both : suc (min n m) ≡ min (suc n) (suc m) = omega arith in
      rw (← both) (ap (λ l. x ∷ l) (take-take m n xs))

  pub take-length : (n : ℕ) (xs : List A) → length xs ≤ n → take n xs ≡ xs
  take-length zero [] h = refl
  take-length zero (x ∷ xs) h = absurd (omega arith)
  take-length (suc n) [] h = refl
  take-length (suc n) (x ∷ xs) h = ap (λ l. x ∷ l) (take-length n xs (omega arith))

pub length-map {ℓ κ} :
    {A : Type ℓ} {B : Type κ} (f : A → B) (xs : List A) → length (map f xs) ≡ length xs
length-map f [] = refl
length-map f (x ∷ xs) = omega (arith, length-map f xs)

pub take-nil {ℓ} : (A : Type ℓ) (n : ℕ) → take {A = A} n [] ≡ []
take-nil A zero = refl
take-nil A (suc n) = refl

pub drop-nil {ℓ} : (A : Type ℓ) (n : ℕ) → drop {A = A} n [] ≡ []
drop-nil A zero = refl
drop-nil A (suc n) = refl

module _ {ℓ} {A : Type ℓ} where
  pub take-append_le : (n : ℕ) (xs ys : List A) → n ≤ length xs → take n (xs ++ ys) ≡ take n xs
  take-append_le zero xs ys h = refl
  take-append_le (suc n) [] ys h = absurd (omega arith)
  take-append_le (suc n) (x ∷ xs) ys h = ap (λ l. x ∷ l) (take-append_le n xs ys (omega arith))

  pub drop-append_le :
      (n : ℕ) (xs ys : List A) → n ≤ length xs → drop n (xs ++ ys) ≡ drop n xs ++ ys
  drop-append_le zero xs ys h = refl
  drop-append_le (suc n) [] ys h = absurd (omega arith)
  drop-append_le (suc n) (x ∷ xs) ys h = drop-append_le n xs ys (omega arith)

  pub take-plus : (a b : ℕ) (xs : List A) → take (a + b) xs ≡ take a xs ++ take b (drop a xs)
  take-plus zero b xs = let e : 0 + b ≡ b = omega arith in ap (λ n. take n xs) e
  take-plus (suc a) b [] = take-nil A (suc a + b) ∙ sym (take-nil A b)
  take-plus (suc a) b (x ∷ xs) =
      let e : suc a + b ≡ suc (a + b) = omega arith in
      ap (λ n. take n (x ∷ xs)) e ∙ ap (λ l. x ∷ l) (take-plus a b xs)

  pub drop-plus : (a b : ℕ) (xs : List A) → drop b (drop a xs) ≡ drop (a + b) xs
  drop-plus zero b xs = let e : b ≡ 0 + b = omega arith in ap (λ n. drop n xs) e
  drop-plus (suc a) b [] = drop-nil A b ∙ sym (drop-nil A (suc a + b))
  drop-plus (suc a) b (x ∷ xs) =
      let e : suc (a + b) ≡ suc a + b = omega arith in
      drop-plus a b xs ∙ ap (λ n. drop n (x ∷ xs)) e

  -- A buffer that is filled from the front.
  pub take-set_snoc :
      (buf : List A) (i : ℕ) (v : A)
      → i < length buf
      → take (suc i) (set buf i v) ≡ take i buf ++ v ∷ []
  take-set_snoc [] i v h = absurd (omega arith)
  take-set_snoc (x ∷ xs) zero v h = refl
  take-set_snoc (x ∷ xs) (suc i) v h = ap (λ l. x ∷ l) (take-set_snoc xs i v (omega arith))

-- `P` holds of every element.
abbrev pub All {ℓ κ} : {A : Type ℓ} → (A → Type κ) → List A → Type κ
All P [] = Unit
All P (x ∷ xs) = P x × All P xs

module _ {ℓ κ} {A : Type ℓ} (P : A → Type κ) where
  pub All-get : (xs : List A) (i : ℕ) (d : A) → All P xs → i < length xs → P (get_or xs i d)
  All-get [] i d h lt = absurd (omega arith)
  All-get (x ∷ xs) zero d h lt = h.0
  All-get (x ∷ xs) (suc i) d h lt = All-get xs i d h.1 (omega arith)

  pub All-get_default : (xs : List A) (i : ℕ) (d : A) → P d → All P xs → P (get_or xs i d)
  All-get_default [] i d p h = p
  All-get_default (x ∷ xs) zero d p h = h.0
  All-get_default (x ∷ xs) (suc i) d p h = All-get_default xs i d p h.1

  pub All-set : (xs : List A) (i : ℕ) (v : A) → P v → All P xs → All P (set xs i v)
  All-set [] i v p h = tt
  All-set (x ∷ xs) zero v p h = (p, h.1)
  All-set (x ∷ xs) (suc i) v p h = (h.0, All-set xs i v p h.1)

  pub All-replicate : (n : ℕ) (a : A) → P a → All P (replicate n a)
  All-replicate zero a p = tt
  All-replicate (suc n) a p = (p, All-replicate n a p)

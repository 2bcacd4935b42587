-- ===== src/Prelude/Strings.antt =====
-- C strings: the bytes up to the terminator. A string of the program holds no zero byte itself, which
-- `IsText` states where a proof needs it.
use Prim.Native.Nat.{ℕ, zero, suc, ◌-◌}
use mathlib.Core.Path.{◌≡◌, refl}
use mathlib.Core.Logic.{◌≢◌, inl, inr}
use mathlib.Core.Bool.{Bool, true, false}
use mathlib.Core.List.{List, [], ◌∷◌}
use native.Mathlib.Omega.{arith}
use package.vernis_os.Prelude.Tests.{◌==◌, Bool-cases, if◌then◌else◌}
use package.vernis_os.Prelude.Lists.{take, All}

abbrev pub IsText : List ℕ → Type 0
IsText = All (λ b. b ≢ 0)

-- `while (*a && *b && *a == *b) { a++; b++; } return *a - *b;` compared with 0. The end of a string
-- reads as the byte 0.
unfoldable pub str_eq : List ℕ → List ℕ → Bool
str_eq [] [] = true
str_eq [] (y ∷ ys) = 0 == y
str_eq (x ∷ xs) [] = x == 0
str_eq (x ∷ xs) (y ∷ ys) =
    let rest = str_eq xs ys in if x == y then if x == 0 then true else rest else false

-- On strings without a zero byte the comparison is equality.
pub str_eq→eq : (a b : List ℕ) → IsText a → IsText b → str_eq a b ≡ true → a ≡ b
unfolding str_eq
str_eq→eq [] [] ta tb e = refl
str_eq→eq [] (y ∷ ys) ta tb e = absurd (ground (arith, tb.0))
str_eq→eq (x ∷ xs) [] ta tb e = absurd (ground (arith, ta.0))
str_eq→eq (x ∷ xs) (y ∷ ys) ta tb e = ground (arith, ta.0, str_eq→eq xs ys ta.1 tb.1)

pub str_eq_refl : (a : List ℕ) → str_eq a a ≡ true
unfolding str_eq
str_eq_refl [] = refl
str_eq_refl (x ∷ xs) = ground (arith, str_eq_refl xs)

pub str_eq-false : (a b : List ℕ) → IsText a → IsText b → a ≢ b → str_eq a b ≡ false
str_eq-false a b ta tb ne = elim (Bool-cases (str_eq a b)) [
  | inl same ↦ absurd (ne (str_eq→eq a b ta tb same))
  | inr other ↦ other
]

-- A copy into `max` bytes keeps the first `max - 1` and ends the string.
abbrev pub truncate : ℕ → List ℕ → List ℕ
truncate max src = take (max - 1) src

pub truncate-IsText : (max : ℕ) (src : List ℕ) → IsText src → IsText (truncate max src)
truncate-IsText max src t = take-All (max - 1) src t
  where
    take-All : (n : ℕ) (xs : List ℕ) → IsText xs → IsText (take n xs)
    take-All zero xs h = tt
    take-All (suc n) [] h = tt
    take-All (suc n) (x ∷ xs) h = (h.0, take-All n xs h.1)

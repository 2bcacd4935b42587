-- ===== src/Prelude/Bytes.antt =====
-- Numbers as bytes, the lowest first, and strings in arrays of bytes.
use Prim.Native.Nat.{ℕ, zero, suc, ◌+◌, ◌*◌, ◌/◌, ◌%◌, ◌^◌, ◌<◌}
use mathlib.Core.Path.{◌≡◌, refl, ap}
use mathlib.Core.Logic.{inl, inr}
use mathlib.Core.Bool.{false}
use mathlib.Core.List.{List, [], ◌∷◌, ◌++◌}
use native.Mathlib.Nat.{pow-suc}
use native.Mathlib.Omega.{arith}
use package.vernis_os.Prelude.Tests.{◌==◌, Bool-cases, if◌then◌else◌}
use package.vernis_os.Prelude.Lists.{length}
use package.vernis_os.Prelude.Strings.{IsText}

-- `k` bytes of a number, and the number that bytes stand for.
unfoldable pub to_le : ℕ → ℕ → List ℕ
to_le zero n = []
to_le (suc k) n = (n % 256) ∷ to_le k (n / 256)

unfoldable pub from_le : List ℕ → ℕ
from_le [] = 0
from_le (b ∷ bs) = b + 256 * from_le bs

pub length-to_le : (k n : ℕ) → length (to_le k n) ≡ k
unfolding to_le
length-to_le zero n = refl
length-to_le (suc k) n = ap suc (length-to_le k (n / 256))

pub from_le-to_le : (k n : ℕ) → n < 256 ^ k → from_le (to_le k n) ≡ n
unfolding to_le from_le
from_le-to_le zero n h = omega arith
from_le-to_le (suc k) n h = omega (arith, from_le-to_le k (n / 256) (omega (arith, pow-suc 256 k)))

-- A field of characters as a string: the bytes before the first zero.
unfoldable pub c_string : List ℕ → List ℕ
c_string [] = []
c_string (b ∷ bs) = let rest = c_string bs in if b == 0 then [] else b ∷ rest

pub c_string-IsText : (bs : List ℕ) → IsText (c_string bs)
unfolding c_string
c_string-IsText [] = tt
c_string-IsText (b ∷ bs) = elim (Bool-cases (b == 0)) [
  | inl end ↦ rw end tt
  | inr more ↦ rw more (ground (arith, more), c_string-IsText bs)
]

pub c_string-append : (t rest : List ℕ) → IsText t → c_string (t ++ 0 ∷ rest) ≡ t
unfolding c_string
c_string-append [] rest h = refl
c_string-append (b ∷ bs) rest h =
    let more : (b == 0) ≡ false = ground (arith, h.0) in
    rw more (ap (λ l. b ∷ l) (c_string-append bs rest h.1))

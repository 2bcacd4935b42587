-- ===== src/Prelude/Bits.antt =====
-- Which numbers the bit operations take to 0: `a ^ b` is 0 for equal numbers only, `a | b` for zeros only.
use Prim.Native.Nat.{
  ℕ, zero, suc, ◌/◌, ◌%◌, ◌≤◌, max, bit_or, bit_xor, digits, differ, bit_or-bitwise,
  bit_xor-bitwise,
}
use mathlib.Core.Path.{◌≡◌, refl, sym, ◌∙◌}
use native.Mathlib.Omega.{arith}

differ-zero : (x y : ℕ) → differ x y ≡ 0 → x ≡ y
differ-zero zero y e = sym e
differ-zero (suc x) zero e = e
differ-zero (suc x) (suc y) e = omega (arith, differ-zero x y e)

differ_self : (x : ℕ) → differ x x ≡ 0
differ_self zero = refl
differ_self (suc x) = differ_self x

-- What the digit-wise recursion gives, with `n` digits left.
xor_digits : (n a b : ℕ) → a ≤ n → digits (λ b. b) differ n a b ≡ 0 → a ≡ b
xor_digits zero zero b h e = sym e
xor_digits (suc n) zero b h e = sym e
xor_digits zero (suc a) b h e = absurd (omega arith)
xor_digits (suc n) (suc a) b h e =
    let low : differ (suc a % 2) (b % 2) ≡ 0 = omega arith in
    omega (
      arith,
      xor_digits n (suc a / 2) (b / 2) (omega arith) (omega arith),
      differ-zero (suc a % 2) (b % 2) low,
    )

xor_digits_self : (n a : ℕ) → a ≤ n → digits (λ b. b) differ n a a ≡ 0
xor_digits_self zero zero h = refl
xor_digits_self (suc n) zero h = refl
xor_digits_self zero (suc a) h = absurd (omega arith)
xor_digits_self (suc n) (suc a) h =
    omega (arith, xor_digits_self n (suc a / 2) (omega arith), differ_self (suc a % 2))

or_digits : (n a b : ℕ) → a ≤ n → digits (λ b. b) max n a b ≡ 0 → (a ≡ 0) × (b ≡ 0)
or_digits zero zero b h e = (refl, e)
or_digits (suc n) zero b h e = (refl, e)
or_digits zero (suc a) b h e = absurd (omega arith)
or_digits (suc n) (suc a) b h e =
    let (high, rest) = or_digits n (suc a / 2) (b / 2) (omega arith) (omega arith) in
    absurd (omega arith)

pub bit_xor-zero : (a b : ℕ) → bit_xor a b ≡ 0 → a ≡ b
bit_xor-zero a b e = xor_digits a a b (omega arith) (sym (bit_xor-bitwise a b) ∙ e)

pub bit_xor_self : (a : ℕ) → bit_xor a a ≡ 0
bit_xor_self a = bit_xor-bitwise a a ∙ xor_digits_self a a (omega arith)

pub bit_or-zero : (a b : ℕ) → bit_or a b ≡ 0 → (a ≡ 0) × (b ≡ 0)
bit_or-zero a b e = or_digits a a b (omega arith) (sym (bit_or-bitwise a b) ∙ e)

-- ===== src/Log/Decimal.antt =====
-- The decimal printing of kernel/log/klog.c, `klog_u64_to_dec`.
use mathlib.Core.List.{reverse, reverse-cons}
use native.Mathlib.Nat.{pow-suc}
use native.Mathlib.Decide.{dec_le}
use vernis_os.Prelude.{
  ℕ, zero, suc, ◌+◌, ◌-◌, ◌*◌, ◌/◌, ◌%◌, ◌^◌, ◌≤◌, ◌<◌, ◌≡◌, ◌≢◌, refl, sym, ◌∙◌, ap, List, [], ◌∷◌,
  ◌++◌, arith, ◌==◌, if◌then◌else◌, length, length-append, take, take-append, take-length,
  Bool-cases, false, inl, inr,
}

-- The loop that fills `tmp`, least digit first; the fuel is what is left of its 20 places.
unfoldable pub digits_rev : ℕ → ℕ → List ℕ
digits_rev zero val = []
digits_rev (suc f) val =
    let rest = digits_rev f (val / 10) in if val == 0 then [] else (b'0' + val % 10) ∷ rest

-- The text that ends up in a buffer of `bufsz` bytes, without its terminator. For 0 the code writes the
-- terminator without a look at the size, behind a buffer of one byte; its callers pass 20 bytes.
unfoldable pub u64_to_dec : ℕ → ℕ → List ℕ
u64_to_dec val bufsz =
    if bufsz == 0
    then []
    else if val == 0
    then b'0' ∷ []
    else take (bufsz - 1) (reverse (digits_rev 20 val))

-- What a text of digits says: the reading that a person makes of it.
unfoldable pub read_dec : List ℕ → ℕ → ℕ
read_dec [] acc = acc
read_dec (c ∷ cs) acc = read_dec cs (acc * 10 + (c - b'0'))

read_dec-snoc :
    (cs : List ℕ) (c acc : ℕ) → read_dec (cs ++ c ∷ []) acc ≡ read_dec cs acc * 10 + (c - b'0')
unfolding read_dec
read_dec-snoc [] c acc = refl
read_dec-snoc (x ∷ xs) c acc = read_dec-snoc xs c (acc * 10 + (x - b'0'))

read_digit : (val : ℕ) → val / 10 * 10 + (b'0' + val % 10 - b'0') ≡ val
read_digit val = omega arith

-- With a place for every digit the text says the number.
pow_mono : (k f : ℕ) → k ≤ f → 10 ^ k ≤ 10 ^ f
pow_mono k zero h = let e : k ≡ 0 = omega arith in rw e (omega arith)
pow_mono k (suc f) h = elim (dec_le k f) [
  | yes p ↦ omega (arith, pow-suc 10 f, pow_mono k f p)
  | no p ↦ let e : k ≡ suc f = omega arith in rw e (omega arith)
]

pow_pos : (k : ℕ) → 0 < 10 ^ k
pow_pos k = omega (arith, pow_mono 0 k (omega arith))

ne_of_le_pow : (k val : ℕ) → 10 ^ suc k ≤ val → val ≢ 0
ne_of_le_pow k val h = omega (arith, pow_pos (suc k))

digits_rev-value : (f val : ℕ) → val < 10 ^ f → read_dec (reverse (digits_rev f val)) 0 ≡ val
unfolding digits_rev read_dec
digits_rev-value zero val h = omega arith
digits_rev-value (suc f) val h = elim (Bool-cases (val == 0)) [
  | inl null ↦ rw null (ground arith)
  | inr more ↦ rw more (
      rw (reverse-cons, read_dec-snoc (reverse (digits_rev f (val / 10))) (b'0' + val % 10) 0)
        (rw (digits_rev-value f (val / 10) (omega (arith, pow-suc 10 f))) (read_digit val)))
]

length-digits_rev-le : (f k val : ℕ) → val < 10 ^ k → length (digits_rev f val) ≤ k
unfolding digits_rev
length-digits_rev-le zero k val h = omega arith
length-digits_rev-le (suc f) zero val h = let e : val ≡ 0 = omega arith in rw e (omega arith)
length-digits_rev-le (suc f) (suc k) val h =
    let shorter : val / 10 < 10 ^ k = omega (arith, pow-suc 10 k) in
    ground (arith, length-digits_rev-le f k (val / 10) shorter)

lt-length-digits_rev : (f k val : ℕ) → k < f → 10 ^ k ≤ val → k < length (digits_rev f val)
unfolding digits_rev
lt-length-digits_rev zero k val lt h = absurd (omega arith)
lt-length-digits_rev (suc f) zero val lt h = ground arith
lt-length-digits_rev (suc f) (suc k) val lt h =
    let longer : 10 ^ k ≤ val / 10 = omega (arith, pow-suc 10 k) in
    let some_val : val ≢ 0 = ne_of_le_pow k val h in
    ground (arith, lt-length-digits_rev f k (val / 10) (omega arith) longer)

length-reverse : (xs : List ℕ) → length (reverse xs) ≡ length xs
length-reverse [] = refl
length-reverse (x ∷ xs) =
    rw reverse-cons (omega (arith, length-append (reverse xs) (x ∷ []), length-reverse xs))

zero_text : read_dec (b'0' ∷ []) 0 ≡ 0
unfolding read_dec
zero_text = refl

-- A number of at most `k` digits, with `k` at most 20 and less than the size of the buffer, is printed
-- exactly: reading the text gives it back.
pub u64_to_dec_exact :
    (val bufsz k : ℕ) → val < 10 ^ k → k < bufsz → k ≤ 20 → read_dec (u64_to_dec val bufsz) 0 ≡ val
unfolding u64_to_dec
u64_to_dec_exact val bufsz k h fits most =
    let room : (bufsz == 0) ≡ false = ground arith in
    rw room (elim (Bool-cases (val == 0)) [
      | inl null ↦ let e : val ≡ 0 = ground arith in rw e zero_text
      | inr more ↦
          let short : length (reverse (digits_rev 20 val)) ≤ bufsz - 1 =
            omega (arith, length-reverse (digits_rev 20 val), length-digits_rev-le 20 k val h) in
          rw (more, take-length (bufsz - 1) (reverse (digits_rev 20 val)) short)
            (digits_rev-value 20 val (omega (arith, pow_mono k 20 most)))
    ])

digits_rev-more :
    (val : ℕ)
    → (val == 0) ≡ false
    → reverse (digits_rev 20 val) ≡ reverse (digits_rev 19 (val / 10)) ++ (b'0' + val % 10) ∷ []
unfolding digits_rev
digits_rev-more val more = rw more (reverse-cons (b'0' + val % 10) (digits_rev 19 (val / 10)))

-- With the 20 bytes that the callers give it, a number of 20 digits loses its last one.
pub u64_to_dec_cut :
    (val : ℕ) → 10 ^ 19 ≤ val → val < 10 ^ 20 → read_dec (u64_to_dec val 20) 0 ≡ val / 10
unfolding u64_to_dec
u64_to_dec_cut val lo hi =
    let more : (val == 0) ≡ false = ground (arith, ne_of_le_pow 18 val lo) in
    let shorter : val / 10 < 10 ^ 19 = omega (arith, pow-suc 10 19) in
    let longer : 10 ^ 18 ≤ val / 10 = omega (arith, pow-suc 10 18) in
    let most = reverse (digits_rev 19 (val / 10)) in
    let full : length most ≡ 19 = omega (
      arith,
      length-reverse (digits_rev 19 (val / 10)),
      length-digits_rev-le 19 19 (val / 10) shorter,
      lt-length-digits_rev 19 18 (val / 10) (omega arith) longer,
    ) in
    let digits : reverse (digits_rev 20 val) ≡ most ++ (b'0' + val % 10) ∷ [] =
      digits_rev-more val more in
    rw (more, digits)
      (ap (λ n. read_dec (take n (most ++ (b'0' + val % 10) ∷ [])) 0) (sym full)
        ∙ ap (λ l. read_dec l 0) (take-append most ((b'0' + val % 10) ∷ []))
        ∙ digits_rev-value 19 (val / 10) shorter)

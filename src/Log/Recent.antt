-- ===== src/Log/Recent.antt =====
-- A ring that keeps the newest entries: a write at `head` overwrites the oldest entry once the ring is
-- full. Both logs of the kernel are such rings.
use mathlib.Core.Path.{ap₂}
use mathlib.Core.List.{reverse, reverse-append}
use native.Mathlib.Nat.{mod-eq_of_lt, mod-mod, mod_self, add-mod_right}
use native.Mathlib.Decide.{dec_lt}
use vernis_os.Prelude.{
  drop-append_le, ℕ, zero, suc, ◌+◌, ◌-◌, ◌%◌, ◌≤◌, ◌<◌, ◌≡◌, refl, sym, ◌∙◌, ap, List, [], ◌∷◌,
  ◌++◌, Bool-cases, inl, inr, arith, ltb, if◌then◌else◌, length, get_or, set, drop, take,
  length-append, length-drop,
}
use vernis_os.Prelude.Rings.{ring, ring_front, ring-mod, ring-set_end, ring_snoc, length-ring}

module _ {ℓ} {A : Type ℓ} (d : A) where
  -- The entries, oldest first.
  abbrev pub recent : List A → ℕ → ℕ → ℕ → List A
  recent buf size head count = ring d buf size (head + size - count) count

-- What a write leaves, as a list: the entry joins at the end, and the first one goes if there was no
-- room.
abbrev pub keep_newest {ℓ} : {A : Type ℓ} → ℕ → List A → A → List A
keep_newest size xs e = if ltb (length xs) size then xs ++ e ∷ [] else drop 1 xs ++ e ∷ []

-- `head` comes round after `size` steps.
round : (size head : ℕ) → head < size → (head + size) % size ≡ head
round size head lt = add-mod_right head size ∙ mod-eq_of_lt lt

-- Where the entries start, before and after a write into a ring with room.
start_stays :
    (size head count : ℕ)
    → head < size
    → count < size
    → ((head + 1) % size + size - (count + 1)) % size ≡ (head + size - count) % size
start_stays size head count lt less = elim (dec_lt (head + 1) size) [
  | yes p ↦ ap (λ k. k % size) (omega (arith, mod-eq_of_lt p))
  | no p ↦
      let zero_next : (head + 1) % size ≡ 0 =
        (let e : head + 1 ≡ size = omega arith in rw e (mod_self size)) in
      let before : (head + 1) % size + size - (count + 1) ≡ size - (count + 1) =
        omega (arith, zero_next) in
      let after : head + size - count ≡ size - (count + 1) + size = omega arith in
      rw (before, after) (sym (add-mod_right (size - (count + 1)) size))
]

module _ {ℓ} {A : Type ℓ} (d : A) (buf : List A) (size head : ℕ) (e : A) (room : size ≤ length buf)
    (lt : head < size) where
  recent_room :
      (count : ℕ)
      → count < size
      → recent d (set buf head e) size ((head + 1) % size) (count + 1)
        ≡ recent d buf size head count ++ e ∷ []
  recent_room count less =
      let next : count + 1 ≡ suc count = omega arith in
      let back : head + size - count + count ≡ head + size = omega arith in
      ap (λ k. ring d (set buf head e) size ((head + 1) % size + size - (count + 1)) k) next
      ∙ ring-mod d (set buf head e) size ((head + 1) % size + size - (count + 1))
          (head + size - count) (suc count) (start_stays size head count lt less)
      ∙ ring-set_end d buf size (head + size - count) count head e room less
          (rw back (sym (round size head lt)))

  recent_full :
      recent d (set buf head e) size ((head + 1) % size) size
      ≡ drop 1 (recent d buf size head size) ++ e ∷ []
  recent_full =
      let n = size - 1 in
      let whole : size ≡ suc n = omega arith in
      let last : head + 1 + n ≡ head + size = omega arith in
      let from : (head + 1) % size + size - size ≡ (head + 1) % size = omega arith in
      let start : head + size - size ≡ head = omega arith in
      let same = mod-mod (head + 1) size in
      ap (λ k. ring d (set buf head e) size k size) from
      ∙ ap (λ k. ring d (set buf head e) size ((head + 1) % size) k) whole
      ∙ ring-mod d (set buf head e) size ((head + 1) % size) (head + 1) (suc n) same
      ∙ ring-set_end d buf size (head + 1) n head e room (omega arith)
          (rw last (sym (round size head lt)))
      ∙ ap (λ l. l ++ e ∷ [])
          (sym (
            ap (λ k. drop 1 (ring d buf size k size)) start
            ∙ ap (drop 1) (ring_front d buf size head size lt (omega arith))
            ∙ ring-mod d buf size ((head + 1) % size) (head + 1) n same))

  -- A write keeps the newest entries.
  pub recent_write :
      (count : ℕ)
      → count ≤ size
      → recent d
          (set buf head e)
          size
          ((head + 1) % size)
          (if ltb count size then count + 1 else count)
        ≡ keep_newest size (recent d buf size head count) e
  recent_write count fits = elim (Bool-cases (ltb count size)) [
    | inl less ↦
        rw (length-ring d buf size (head + size - count) count, less)
          (recent_room count (ground arith))
    | inr full ↦
        let all : count ≡ size = ground arith in
        rw (length-ring d buf size (head + size - count) count, full) (rw all recent_full)
  ]

-- A walk back from `head`: entry `i` of the walk is the `i`-th newest.
module _ {ℓ} {A : Type ℓ} (d : A) (buf : List A) (size head : ℕ) where
  unfoldable pub walk_back : ℕ → ℕ → List A
  walk_back i zero = []
  walk_back i (suc n) = get_or buf ((head + size - 1 - i) % size) d ∷ walk_back (i + 1) n

  walk_back-reverse_from :
      (i n : ℕ)
      → i + n ≤ head + size
      → walk_back i n ≡ reverse (ring d buf size (head + size - i - n) n)
  unfolding walk_back ring
  walk_back-reverse_from i zero h = refl
  walk_back-reverse_from i (suc n) h =
      let start : head + size - i - suc n ≡ head + size - (i + 1) - n = omega arith in
      let last : head + size - (i + 1) - n + n ≡ head + size - 1 - i = omega arith in
      rw start (
        ap₂ ◌∷◌ refl (walk_back-reverse_from (i + 1) n (omega arith))
        ∙ sym (
            ap reverse (ring_snoc d buf size (head + size - (i + 1) - n) n)
            ∙ reverse-append (ring d buf size (head + size - (i + 1) - n) n) _
            ∙ ap
                (λ k.
                  get_or buf (k % size) d ∷ reverse (ring d buf size (head + size - (i + 1) - n) n))
                last))

  -- The walk over the newest `n` entries lists them newest first.
  pub walk_back-reverse : (n : ℕ) → n ≤ size → walk_back 0 n ≡ reverse (recent d buf size head n)
  walk_back-reverse n h =
      walk_back-reverse_from 0 n (omega arith)
      ∙ ap (λ k. reverse (ring d buf size (k - n) n)) (omega arith)

-- A shorter walk is the start of a longer one.
module _ {ℓ} {A : Type ℓ} (d : A) (buf : List A) (size head : ℕ) where
  walk_back-take_from :
      (i n m : ℕ) → n ≤ m → walk_back d buf size head i n ≡ take n (walk_back d buf size head i m)
  unfolding walk_back
  walk_back-take_from i zero m h = refl
  walk_back-take_from i (suc n) zero h = absurd (omega arith)
  walk_back-take_from i (suc n) (suc m) h =
      ap (λ l. get_or buf ((head + size - 1 - i) % size) d ∷ l)
        (walk_back-take_from (i + 1) n m (omega arith))

  pub walk_back-take :
      (n m : ℕ) → n ≤ m → walk_back d buf size head 0 n ≡ take n (walk_back d buf size head 0 m)
  walk_back-take n m h = walk_back-take_from 0 n m h

-- The newest `size` of all the entries there were.
abbrev pub newest {ℓ} : {A : Type ℓ} → ℕ → List A → List A
newest size xs = drop (length xs - size) xs

module _ {ℓ} {A : Type ℓ} where
  drop-suc : (n : ℕ) (xs : List A) → drop 1 (drop n xs) ≡ drop (suc n) xs
  drop-suc zero xs = refl
  drop-suc (suc n) [] = refl
  drop-suc (suc n) (x ∷ xs) = drop-suc n xs

  pub keep_newest-newest :
      (size : ℕ) (xs : List A) (e : A)
      → 0 < size
      → keep_newest size (newest size xs) e ≡ newest size (xs ++ e ∷ [])
  keep_newest-newest size xs e pos = elim (Bool-cases (ltb (length (newest size xs)) size)) [
    | inl less ↦
        let kept = length-drop (length xs - size) xs in
        let start : length (xs ++ e ∷ []) - size ≡ length xs - size =
          ground (arith, length-append xs (e ∷ []), kept) in
        rw (less, start) (sym (drop-append_le (length xs - size) xs (e ∷ []) (omega arith)))
    | inr full ↦
        let kept = length-drop (length xs - size) xs in
        let start : length (xs ++ e ∷ []) - size ≡ suc (length xs - size) =
          ground (arith, length-append xs (e ∷ []), kept) in
        rw (full, start)
          (ap (λ l. l ++ e ∷ []) (drop-suc (length xs - size) xs)
            ∙ sym (drop-append_le (suc (length xs - size)) xs (e ∷ []) (ground (arith, kept))))
  ]

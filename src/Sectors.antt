-- ===== src/Sectors.antt =====
-- A disk as an array of sectors: what a read of several sectors gives, and what a write leaves.
use native.Mathlib.Nat.{mod-eq_of_lt}
use mathlib.Core.Path.{ap₂}
use mathlib.Core.List.{append_assoc}
use vernis_os.Prelude.{
  take-plus, drop-plus, ℕ, zero, suc, ◌+◌, ◌*◌, ◌^◌, ◌<◌, ◌≤◌, ◌≡◌, refl, sym, ◌∙◌, ap, List, [],
  ◌++◌, true, false, ◌⊎◌, inl, inr, arith, ◌==◌, if◌then◌else◌, take, drop,
}
use vernis_os.Prelude.Words.{u32}

abbrev sector_size : ℕ
sector_size = 512

-- The part of the buffer that belongs to sector `i` of the request.
abbrev pub chunk : List ℕ → ℕ → List ℕ
chunk buf i = take sector_size (drop (i * sector_size) buf)

-- An array of sectors, and what a write of one sector makes of it.
abbrev pub put : (ℕ → List ℕ) → ℕ → List ℕ → ℕ → List ℕ
put disk l bytes k = if k == l then bytes else disk k

-- `n` sectors of an array in a row, from sector `i` of the request on.
unfoldable pub sectors : (ℕ → List ℕ) → ℕ → ℕ → ℕ → List ℕ
sectors disk lba i zero = []
sectors disk lba i (suc n) = disk (u32 (lba + i)) ++ sectors disk lba (i + 1) n

-- The array after a write of `n` sectors.
unfoldable pub put_sectors : (ℕ → List ℕ) → ℕ → ℕ → ℕ → List ℕ → ℕ → List ℕ
put_sectors disk lba i zero buf k = disk k
put_sectors disk lba i (suc n) buf k =
    put_sectors (put disk (u32 (lba + i)) (chunk buf i)) lba (i + 1) n buf k

pub sectors_ext :
    (disk disk2 : ℕ → List ℕ) (lba i n : ℕ)
    → ((k : ℕ) → disk k ≡ disk2 k)
    → sectors disk lba i n ≡ sectors disk2 lba i n
unfolding sectors
sectors_ext disk disk2 lba i zero same = refl
sectors_ext disk disk2 lba i (suc n) same =
    ap (λ l. l ++ sectors disk lba (i + 1) n) (same (u32 (lba + i)))
    ∙ ap (λ l. disk2 (u32 (lba + i)) ++ l) (sectors_ext disk disk2 lba (i + 1) n same)

pub put_sectors_ext :
    (disk disk2 : ℕ → List ℕ) (lba i n : ℕ) (buf : List ℕ)
    → ((k : ℕ) → disk k ≡ disk2 k)
    → (k : ℕ) → put_sectors disk lba i n buf k ≡ put_sectors disk2 lba i n buf k
unfolding put_sectors
put_sectors_ext disk disk2 lba i zero buf same k = same k
put_sectors_ext disk disk2 lba i (suc n) buf same k =
    put_sectors_ext (put disk (u32 (lba + i)) (chunk buf i))
      (put disk2 (u32 (lba + i)) (chunk buf i)) lba (i + 1) n buf
      (λ m. ap (λ l. if m == u32 (lba + i) then chunk buf i else l) (same m)) k

-- A write of sectors that do not come round shows each of them where it was put.
pub put_before :
    (disk : ℕ → List ℕ) (lba i n : ℕ) (buf : List ℕ) (k : ℕ)
    → k < lba + i
    → lba + i + n ≤ 2 ^ 32
    → put_sectors disk lba i n buf k ≡ disk k
unfolding put_sectors
put_before disk lba i zero buf k lt fits = refl
put_before disk lba i (suc n) buf k lt fits =
    let word : u32 (lba + i) ≡ lba + i = mod-eq_of_lt (omega arith) in
    let other : (k == u32 (lba + i)) ≡ false = ground (arith, word) in
    put_before (put disk (u32 (lba + i)) (chunk buf i)) lba (i + 1) n buf k (omega arith)
      (omega arith)
    ∙ rw other refl

-- The sectors of a buffer, one after the other.
unfoldable pub chunks : List ℕ → ℕ → ℕ → List ℕ
chunks buf i zero = []
chunks buf i (suc n) = chunk buf i ++ chunks buf (i + 1) n

pub put-sectors :
    (disk : ℕ → List ℕ) (lba i n : ℕ) (buf : List ℕ)
    → lba + i + n ≤ 2 ^ 32
    → sectors (put_sectors disk lba i n buf) lba i n ≡ chunks buf i n
unfolding sectors chunks put_sectors
put-sectors disk lba i zero buf fits = refl
put-sectors disk lba i (suc n) buf fits =
    let word : u32 (lba + i) ≡ lba + i = mod-eq_of_lt (omega arith) in
    let disk1 = put disk (u32 (lba + i)) (chunk buf i) in
    let here : (u32 (lba + i) == u32 (lba + i)) ≡ true = ground arith in
    let first : put_sectors disk1 lba (i + 1) n buf (u32 (lba + i)) ≡ chunk buf i =
      put_before disk1 lba (i + 1) n buf (u32 (lba + i)) (omega (arith, word)) (omega arith)
      ∙ rw here refl in
    ap (λ l. l ++ sectors (put_sectors disk1 lba (i + 1) n buf) lba (i + 1) n) first
    ∙ ap (λ l. chunk buf i ++ l) (put-sectors disk1 lba (i + 1) n buf (omega arith))

pub chunks-take :
    (buf : List ℕ) (i n : ℕ) → chunks buf i n ≡ take (n * sector_size) (drop (i * sector_size) buf)
unfolding chunks
chunks-take buf i zero = refl
chunks-take buf i (suc n) =
    let size = sector_size in
    let more : suc n * size ≡ size + n * size = omega arith in
    let next : i * size + size ≡ (i + 1) * size = omega arith in
    ap (λ l. chunk buf i ++ l) (chunks-take buf (i + 1) n)
    ∙ ap (λ k. chunk buf i ++ take (n * size) (drop k buf)) (sym next)
    ∙ ap (λ l. chunk buf i ++ take (n * size) l) (sym (drop-plus (i * size) size buf))
    ∙ sym (take-plus size (n * size) (drop (i * size) buf))
    ∙ ap (λ k. take k (drop (i * size) buf)) (sym more)

-- Two reads, one after the other.
pub sectors-append :
    (disk : ℕ → List ℕ) (lba i m n : ℕ)
    → sectors disk lba i (m + n) ≡ sectors disk lba i m ++ sectors disk lba (i + m) n
unfolding sectors
sectors-append disk lba i zero n =
    let e : 0 + n ≡ n = omega arith in
    let e2 : i ≡ i + 0 = omega arith in
    ap (sectors disk lba i) e ∙ ap (λ j. sectors disk lba j n) e2
sectors-append disk lba i (suc m) n =
    let e : suc m + n ≡ suc (m + n) = omega arith in
    let e2 : i + 1 + m ≡ i + suc m = omega arith in
    ap (sectors disk lba i) e
    ∙ ap (λ l. disk (u32 (lba + i)) ++ l)
        (sectors-append disk lba (i + 1) m n
          ∙ ap (λ j. sectors disk lba (i + 1) m ++ sectors disk lba j n) e2)
    ∙ sym (
        append_assoc (disk (u32 (lba + i))) (sectors disk lba (i + 1) m)
          (sectors disk lba (i + suc m) n))

pub sectors_shift :
    (disk : ℕ → List ℕ) (lba c i n : ℕ)
    → sectors disk (u32 (lba + c)) i n ≡ sectors disk lba (c + i) n
unfolding sectors
sectors_shift disk lba c i zero = refl
sectors_shift disk lba c i (suc n) =
    let e : u32 (u32 (lba + c) + i) ≡ u32 (lba + (c + i)) = omega arith in
    let e2 : c + (i + 1) ≡ c + i + 1 = omega arith in
    ap (λ k. disk k ++ sectors disk (u32 (lba + c)) (i + 1) n) e
    ∙ ap (λ l. disk (u32 (lba + (c + i))) ++ l)
        (sectors_shift disk lba c (i + 1) n ∙ ap (λ j. sectors disk lba j n) e2)

-- The last sector of a write.
pub put_sectors_snoc :
    (disk : ℕ → List ℕ) (lba i n : ℕ) (buf : List ℕ) (k : ℕ)
    → put_sectors disk lba i (n + 1) buf k
      ≡ put (put_sectors disk lba i n buf) (u32 (lba + (i + n))) (chunk buf (i + n)) k
unfolding put_sectors
put_sectors_snoc disk lba i zero buf k =
    let e : i ≡ i + 0 = omega arith in ap (λ j. put disk (u32 (lba + j)) (chunk buf j) k) e
put_sectors_snoc disk lba i (suc n) buf k =
    let e : i + 1 + n ≡ i + suc n = omega arith in
    let more : suc n + 1 ≡ suc (n + 1) = omega arith in
    let disk1 = put disk (u32 (lba + i)) (chunk buf i) in
    ap (λ m. put_sectors disk lba i m buf k) more
    ∙ put_sectors_snoc disk1 lba (i + 1) n buf k
    ∙ ap (λ j. put (put_sectors disk1 lba (i + 1) n buf) (u32 (lba + j)) (chunk buf j) k) e

-- Only the sectors that are written matter.
pub put_sectors_buf :
    (disk : ℕ → List ℕ) (lba i n : ℕ) (buf buf2 : List ℕ)
    → ((j : ℕ) → i ≤ j → j < i + n → chunk buf j ≡ chunk buf2 j)
    → (k : ℕ) → put_sectors disk lba i n buf k ≡ put_sectors disk lba i n buf2 k
unfolding put_sectors
put_sectors_buf disk lba i zero buf buf2 same k = refl
put_sectors_buf disk lba i (suc n) buf buf2 same k =
    let first = same i (omega arith) (omega arith) in
    put_sectors_buf (put disk (u32 (lba + i)) (chunk buf i)) lba (i + 1) n buf buf2
      (λ j le lt. same j (omega arith) (omega arith)) k
    ∙ ap (λ b. put_sectors (put disk (u32 (lba + i)) b) lba (i + 1) n buf2 k) first

-- A write leaves the sectors outside of it alone.
pub put_outside :
    (disk : ℕ → List ℕ) (lba i n : ℕ) (buf : List ℕ) (k : ℕ)
    → (k < lba + i) ⊎ (lba + i + n ≤ k)
    → lba + i + n ≤ 2 ^ 32
    → put_sectors disk lba i n buf k ≡ disk k
unfolding put_sectors
put_outside disk lba i zero buf k out fits = refl
put_outside disk lba i (suc n) buf k out fits =
    let word : u32 (lba + i) ≡ lba + i = mod-eq_of_lt (omega arith) in
    let other : (k == u32 (lba + i)) ≡ false = ground (arith, word) in
    let still : (k < lba + (i + 1)) ⊎ (lba + (i + 1) + n ≤ k) = elim out [
      | inl lt ↦ inl (omega arith)
      | inr le ↦ inr (omega arith)
    ] in
    put_outside (put disk (u32 (lba + i)) (chunk buf i)) lba (i + 1) n buf k still (omega arith)
    ∙ rw other refl

-- Sectors that agree read alike.
pub sectors-agree :
    (disk disk2 : ℕ → List ℕ) (lba i n : ℕ)
    → lba + i + n ≤ 2 ^ 32
    → ((k : ℕ) → lba + i ≤ k → k < lba + i + n → disk k ≡ disk2 k)
    → sectors disk lba i n ≡ sectors disk2 lba i n
unfolding sectors
sectors-agree disk disk2 lba i zero fits same = refl
sectors-agree disk disk2 lba i (suc n) fits same =
    let word : u32 (lba + i) ≡ lba + i = mod-eq_of_lt (omega arith) in
    ap₂ ◌++◌ (same (u32 (lba + i)) (omega (arith, word)) (omega (arith, word))) (
      sectors-agree disk disk2 lba (i + 1) n (omega arith)
        (λ k le lt. same k (omega arith) (omega arith)))

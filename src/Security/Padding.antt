-- ===== src/Security/Padding.antt =====
-- The reference digest: the padded message block by block, and what `sha256_final` hashes.
use mathlib.Core.Path.{ap₂}
use mathlib.Core.List.{append_assoc, append-nil}
use vernis_os.Prelude.{
  ℕ, zero, suc, ◌+◌, ◌-◌, ◌*◌, ◌/◌, ◌%◌, ◌≤◌, ◌<◌, ◌≡◌, refl, sym, ◌∙◌, ap, List, [], ◌∷◌, ◌++◌,
  true, false, arith, ltb, set, take, drop, replicate, length, length-set, length-replicate,
  take-length, take-append_le, drop-append_le, length-drop, take-set_snoc,
}
use vernis_os.Prelude.Words.{u64}
use vernis_os.Security.Sha256.{
  Sha256Context, sha256_transform, fill_zeros, put_bytes, length_bytes, digest_of, pad_block,
  sha256_final, initial_state,
}

-- The reference: FIPS 180-4, with `sha256_transform` as its compression function.
-- The number of zero bytes after the byte 0x80.
abbrev pub zero_count : ℕ → ℕ
zero_count n = (119 - n % 64) % 64

abbrev pub pad : List ℕ → List ℕ
pad msg =
    msg ++ (0x80 ∷ replicate (zero_count (length msg)) 0 ++ length_bytes (u64 (length msg * 8)))

-- The state after `n` blocks of 64 bytes.
unfoldable pub hash_blocks : ℕ → List ℕ → List ℕ → List ℕ
hash_blocks zero state msg = state
hash_blocks (suc n) state msg = hash_blocks n (sha256_transform state (take 64 msg)) (drop 64 msg)

unfoldable pub reference_hash : List ℕ → List ℕ
reference_hash msg = digest_of (hash_blocks (length (pad msg) / 64) initial_state (pad msg))

length-put_bytes : (bs buf : List ℕ) (i : ℕ) → length (put_bytes buf i bs) ≡ length buf
unfolding put_bytes
length-put_bytes [] buf i = refl
length-put_bytes (b ∷ bs) buf i = length-put_bytes bs (set buf i b) (i + 1) ∙ length-set buf i b

take-put_bytes :
    (bs buf : List ℕ) (i : ℕ)
    → i + length bs ≤ length buf
    → take (i + length bs) (put_bytes buf i bs) ≡ take i buf ++ bs
unfolding put_bytes
take-put_bytes [] buf i h = let e : i + 0 ≡ i = omega arith in rw e (sym (append-nil (take i buf)))
take-put_bytes (b ∷ bs) buf i h =
    let e : i + suc (length bs) ≡ i + 1 + length bs = omega arith in
    let e1 : i + 1 ≡ suc i = omega arith in
    ap (λ k. take k (put_bytes (set buf i b) (i + 1) bs)) e
    ∙ take-put_bytes bs (set buf i b) (i + 1) (omega (arith, length-set buf i b))
    ∙ ap (λ k. take k (set buf i b) ++ bs) e1
    ∙ ap (λ l. l ++ bs) (take-set_snoc buf i b (omega arith))
    ∙ append_assoc (take i buf) (b ∷ []) bs

fill_zeros-put_bytes :
    (n : ℕ) (buf : List ℕ) (i : ℕ) → fill_zeros buf i n ≡ put_bytes buf i (replicate n 0)
unfolding fill_zeros put_bytes
fill_zeros-put_bytes zero buf i = refl
fill_zeros-put_bytes (suc n) buf i = fill_zeros-put_bytes n (set buf i 0) (i + 1)

-- One block more.
pub hash_blocks_snoc :
    (n : ℕ) (state p block : List ℕ)
    → length p ≡ n * 64
    → length block ≡ 64
    → hash_blocks (suc n) state (p ++ block) ≡ sha256_transform (hash_blocks n state p) block
unfolding hash_blocks
hash_blocks_snoc zero state [] block hp hb =
    ap (sha256_transform state) (take-length 64 block (omega arith))
hash_blocks_snoc zero state (x ∷ xs) block hp hb = absurd (omega arith)
hash_blocks_snoc (suc n) state p block hp hb =
    ap (λ b. hash_blocks (suc n) (sha256_transform state b) (drop 64 (p ++ block)))
      (take-append_le 64 p block (omega arith))
    ∙ ap (hash_blocks (suc n) (sha256_transform state (take 64 p)))
        (drop-append_le 64 p block (omega arith))
    ∙ hash_blocks_snoc n (sha256_transform state (take 64 p)) (drop 64 p) block
        (omega (arith, length-drop 64 p)) hb

-- The last block: what is in the buffer, zeros up to byte 56, and the length.
last_block :
    (buf tail : List ℕ) (len : ℕ)
    → length buf ≡ 64
    → len ≤ 56
    → length tail ≡ 8
    → put_bytes (fill_zeros buf len (56 - len)) 56 tail
      ≡ take len buf ++ (replicate (56 - len) 0 ++ tail)
last_block buf tail len size le eight =
    let zeros : List ℕ = replicate (56 - len) 0 in
    let many = length-replicate {A = ℕ} (56 - len) 0 in
    let filled = put_bytes buf len zeros in
    let up_to : len + length zeros ≡ 56 = omega (arith, many) in
    let end : 56 + length tail ≡ 64 = omega arith in
    let long = length-put_bytes zeros buf len in
    ap (λ b. put_bytes b 56 tail) (fill_zeros-put_bytes (56 - len) buf len)
    ∙ sym (
        take-length 64 (put_bytes filled 56 tail)
          (omega (arith, length-put_bytes tail filled 56, long)))
    ∙ ap (λ k. take k (put_bytes filled 56 tail)) (sym end)
    ∙ take-put_bytes tail filled 56 (omega (arith, long))
    ∙ ap (λ k. take k filled ++ tail) (sym up_to)
    ∙ ap (λ l. l ++ tail) (take-put_bytes zeros buf len (omega (arith, many)))
    ∙ append_assoc (take len buf) zeros tail

-- A block that is filled up with zeros.
full_block :
    (buf : List ℕ) (len : ℕ)
    → length buf ≡ 64
    → len ≤ 64
    → fill_zeros buf len (64 - len) ≡ take len buf ++ replicate (64 - len) 0
full_block buf len size le =
    let zeros : List ℕ = replicate (64 - len) 0 in
    let many = length-replicate {A = ℕ} (64 - len) 0 in
    let up_to : len + length zeros ≡ 64 = omega (arith, many) in
    fill_zeros-put_bytes (64 - len) buf len
    ∙ sym (take-length 64 (put_bytes buf len zeros) (omega (arith, length-put_bytes zeros buf len)))
    ∙ ap (λ k. take k (put_bytes buf len zeros)) (sym up_to)
    ∙ take-put_bytes zeros buf len (omega (arith, many))

pub length-length_bytes : (n : ℕ) → length (length_bytes n) ≡ 8
unfolding length_bytes
length-length_bytes n = refl

pad_block-room :
    (state buf : List ℕ) (len : ℕ) → len ≤ 56 → pad_block state buf len ≡ (state, buf, len)
unfolding pad_block
pad_block-room state buf len le = let e : ltb 56 len ≡ false = ground arith in simp e refl

pad_block-full :
    (state buf : List ℕ) (len : ℕ)
    → 56 < len
    → pad_block state buf len
      ≡ (sha256_transform state (fill_zeros buf len (64 - len)), fill_zeros buf len (64 - len), 0)
unfolding pad_block
pad_block-full state buf len lt = let e : ltb 56 len ≡ true = ground arith in simp e refl

-- The rest of the message with the byte 0x80, in the buffer.
marked_front :
    (ctx : Sha256Context)
    → length ctx.buffer ≡ 64
    → ctx.buf_len < 64
    → take (ctx.buf_len + 1) (set ctx.buffer ctx.buf_len 0x80)
      ≡ take ctx.buf_len ctx.buffer ++ 0x80 ∷ []
marked_front ctx size lt =
    let next : ctx.buf_len + 1 ≡ suc ctx.buf_len = omega arith in
    rw next (take-set_snoc ctx.buffer ctx.buf_len 0x80 (omega arith))

-- What `sha256_final` hashes: the rest of the message with its padding, in one block or two.
pub final-one :
    (ctx : Sha256Context)
    → length ctx.buffer ≡ 64
    → ctx.buf_len < 56
    → sha256_final ctx
      ≡ digest_of (
          sha256_transform ctx.state (
            take ctx.buf_len ctx.buffer
            ++ (0x80 ∷ replicate (55 - ctx.buf_len) 0
                ++ length_bytes (u64 (ctx.bit_count + ctx.buf_len * 8)))))
unfolding sha256_final
final-one ctx size lt =
    let tail = length_bytes (u64 (ctx.bit_count + ctx.buf_len * 8)) in
    let marked = set ctx.buffer ctx.buf_len 0x80 in
    let same : 56 - (ctx.buf_len + 1) ≡ 55 - ctx.buf_len = omega arith in
    simp (pad_block-room ctx.state marked (ctx.buf_len + 1) (omega arith)) (
      ap (λ b. digest_of (sha256_transform ctx.state b))
        (last_block marked tail (ctx.buf_len + 1) (length-set ctx.buffer ctx.buf_len 0x80 ∙ size)
            (omega arith) (length-length_bytes (u64 (ctx.bit_count + ctx.buf_len * 8)))
          ∙ ap (λ l. l ++ (replicate (56 - (ctx.buf_len + 1)) 0 ++ tail))
              (marked_front ctx size (omega arith))
          ∙ ap (λ k. (take ctx.buf_len ctx.buffer ++ 0x80 ∷ []) ++ (replicate k 0 ++ tail)) same
          ∙ append_assoc (take ctx.buf_len ctx.buffer) (0x80 ∷ [])
              (replicate (55 - ctx.buf_len) 0 ++ tail)))

pub final-two :
    (ctx : Sha256Context)
    → length ctx.buffer ≡ 64
    → 56 ≤ ctx.buf_len
    → ctx.buf_len < 64
    → sha256_final ctx
      ≡ digest_of (
          sha256_transform
            (sha256_transform ctx.state
              (take ctx.buf_len ctx.buffer ++ 0x80 ∷ replicate (63 - ctx.buf_len) 0))
            (replicate 56 0 ++ length_bytes (u64 (ctx.bit_count + ctx.buf_len * 8))))
unfolding sha256_final
final-two ctx size ge lt =
    let tail = length_bytes (u64 (ctx.bit_count + ctx.buf_len * 8)) in
    let marked = set ctx.buffer ctx.buf_len 0x80 in
    let long = length-set ctx.buffer ctx.buf_len 0x80 ∙ size in
    let full = fill_zeros marked (ctx.buf_len + 1) (64 - (ctx.buf_len + 1)) in
    let same : 64 - (ctx.buf_len + 1) ≡ 63 - ctx.buf_len = omega arith in
    let filled : full ≡ take ctx.buf_len ctx.buffer ++ 0x80 ∷ replicate (63 - ctx.buf_len) 0 =
      full_block marked (ctx.buf_len + 1) long (omega arith)
      ∙ ap (λ l. l ++ replicate (64 - (ctx.buf_len + 1)) 0) (marked_front ctx size lt)
      ∙ ap (λ k. (take ctx.buf_len ctx.buffer ++ 0x80 ∷ []) ++ replicate k 0) same
      ∙ append_assoc (take ctx.buf_len ctx.buffer) (0x80 ∷ []) (replicate (63 - ctx.buf_len) 0) in
    let room : length full ≡ 64 =
      ap length (fill_zeros-put_bytes (64 - (ctx.buf_len + 1)) marked (ctx.buf_len + 1))
      ∙ length-put_bytes (replicate (64 - (ctx.buf_len + 1)) 0) marked (ctx.buf_len + 1)
      ∙ long in
    simp (pad_block-full ctx.state marked (ctx.buf_len + 1) (omega arith)) (
      ap₂ (λ f b. digest_of (sha256_transform (sha256_transform ctx.state f) b)) filled
        (last_block full tail 0 room (omega arith)
          (length-length_bytes (u64 (ctx.bit_count + ctx.buf_len * 8)))))

pub replicate-plus : (m n : ℕ) → replicate {A = ℕ} (m + n) 0 ≡ replicate m 0 ++ replicate n 0
replicate-plus zero n = let e : 0 + n ≡ n = omega arith in ap (λ k. replicate k 0) e
replicate-plus (suc m) n =
    let e : suc m + n ≡ suc (m + n) = omega arith in
    ap (λ k. replicate k 0) e ∙ ap (λ l. 0 ∷ l) (replicate-plus m n)

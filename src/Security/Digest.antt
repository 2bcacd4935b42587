-- ===== src/Security/Digest.antt =====
-- The streaming digest is the reference digest.
use native.Mathlib.Decide.{dec_lt}
use mathlib.Core.Path.{subst, ap₂}
use mathlib.Core.List.{append_assoc, append-nil}
use vernis_os.Prelude.{
  ℕ, suc, ◌+◌, ◌-◌, ◌*◌, ◌/◌, ◌≤◌, ◌<◌, ◌≡◌, refl, sym, ◌∙◌, ap, List, [], ◌∷◌, ◌++◌, Bool-cases,
  inl, inr, arith, ◌==◌, set, take, replicate, length, length-set, length-append, length-replicate,
  take-length, take-set_snoc,
}
use vernis_os.Prelude.Words.{u64}
use vernis_os.Security.Sha256.{
  Sha256Context, sha256_transform, sha256_init, absorb, sha256_update, length_bytes, digest_of,
  sha256_final, sha256_hash, initial_state,
}
use vernis_os.Security.Padding.{
  zero_count, pad, hash_blocks, reference_hash, hash_blocks_snoc, final-one, final-two,
  replicate-plus, length-length_bytes,
}

-- What a context holds of the message: the whole blocks are in the state, the rest is in the buffer.
record Absorbed (ctx : Sha256Context) (msg : List ℕ) : Type 0 where
  pub count : ℕ
  pub full : List ℕ
  pub rest : List ℕ
  pub parts : msg ≡ full ++ rest
  pub whole : length full ≡ count * 64
  pub len : length rest ≡ ctx.buf_len
  pub room : length ctx.buffer ≡ 64
  pub fits : ctx.buf_len < 64
  pub held : take ctx.buf_len ctx.buffer ≡ rest
  pub hashed : ctx.state ≡ hash_blocks count initial_state full
  pub bits : ctx.bit_count ≡ u64 (length full * 8)

init-Absorbed : (buffer : List ℕ) → length buffer ≡ 64 → Absorbed (sha256_init buffer) []
unfolding sha256_init hash_blocks
init-Absorbed buffer room = record {
  count = 0;
  full = [];
  rest = [];
  parts = refl;
  whole = omega arith;
  len = refl;
  room = room;
  fits = omega arith;
  held = refl;
  hashed = refl;
  bits = refl;
}

absorb-Absorbed :
    (ctx : Sha256Context) (msg : List ℕ) (b : ℕ)
    → Absorbed ctx msg
    → Absorbed (absorb ctx b) (msg ++ b ∷ [])
unfolding absorb
absorb-Absorbed ctx msg b a =
    let i = ctx.buf_len in
    let buffer = set ctx.buffer i b in
    let next : i + 1 ≡ suc i = omega arith in
    let filled : take (i + 1) buffer ≡ a.rest ++ b ∷ [] =
      ap (λ k. take k buffer) next
      ∙ take-set_snoc ctx.buffer i b (omega (arith, a.room))
      ∙ ap (λ l. l ++ b ∷ []) a.held in
    let size : length buffer ≡ 64 = length-set ctx.buffer i b ∙ a.room in
    let joined : msg ++ b ∷ [] ≡ a.full ++ (a.rest ++ b ∷ []) =
      ap (λ l. l ++ b ∷ []) a.parts ∙ append_assoc a.full a.rest (b ∷ []) in
    let longer : length (a.rest ++ b ∷ []) ≡ i + 1 =
      omega (arith, length-append a.rest (b ∷ []), a.len) in
    elim (Bool-cases (i + 1 == 64)) [
      | inr open_block ↦ simp open_block (record {
        count = a.count;
        full = a.full;
        rest = a.rest ++ b ∷ [];
        parts = joined;
        whole = a.whole;
        len = longer;
        room = size;
        fits = ground (arith, a.fits);
        held = filled;
        hashed = a.hashed;
        bits = a.bits;
      })
      | inl end ↦
          let all : i + 1 ≡ 64 = ground arith in
          let block : buffer ≡ a.rest ++ b ∷ [] =
            sym (take-length 64 buffer (omega (arith, size)))
            ∙ ap (λ k. take k buffer) (sym all)
            ∙ filled in
          simp end (record {
            count = suc a.count;
            full = a.full ++ buffer;
            rest = [];
            parts =
                joined ∙ ap (λ l. a.full ++ l) (sym block) ∙ sym (append-nil (a.full ++ buffer));
            whole = omega (arith, length-append a.full buffer, a.whole, size);
            len = refl;
            room = size;
            fits = omega arith;
            held = refl;
            hashed =
                ap (λ s. sha256_transform s buffer) a.hashed
                ∙ sym (hash_blocks_snoc a.count initial_state a.full buffer a.whole size);
            bits = omega (arith, a.bits, length-append a.full buffer, size);
          })
    ]

update-Absorbed :
    (ctx : Sha256Context) (msg bytes : List ℕ)
    → Absorbed ctx msg
    → Absorbed (sha256_update ctx bytes) (msg ++ bytes)
unfolding sha256_update
update-Absorbed ctx msg [] a = rw (append-nil msg) a
update-Absorbed ctx msg (b ∷ bs) a =
    subst (Absorbed (sha256_update (absorb ctx b) bs)) (append_assoc msg (b ∷ []) bs)
      (update-Absorbed (absorb ctx b) (msg ++ b ∷ []) bs (absorb-Absorbed ctx msg b a))

-- A context that has absorbed a message, and the message's padding.
module _ (ctx : Sha256Context) (msg : List ℕ) (a : Absorbed ctx msg) where
  message_length : length msg ≡ a.count * 64 + ctx.buf_len
  message_length = ap length a.parts ∙ omega (arith, length-append a.full a.rest, a.whole, a.len)

  total_bits : u64 (ctx.bit_count + ctx.buf_len * 8) ≡ u64 (length msg * 8)
  total_bits = omega (arith, a.bits, message_length, a.whole)

  -- The padded message behind its whole blocks.
  abbrev remains : List ℕ
  remains =
      take ctx.buf_len ctx.buffer
      ++ (0x80 ∷ replicate (zero_count (length msg)) 0 ++ length_bytes (u64 (length msg * 8)))

  pad_parts : pad msg ≡ a.full ++ remains
  pad_parts =
      ap
        (λ m.
          m
          ++ (0x80 ∷ replicate (zero_count (length msg)) 0 ++ length_bytes (u64 (length msg * 8))))
        a.parts
      ∙ append_assoc a.full a.rest _
      ∙ ap
          (λ r.
            a.full
            ++ (r
                ++ (0x80 ∷ replicate (zero_count (length msg)) 0
                    ++ length_bytes (u64 (length msg * 8)))))
          (sym a.held)

  length-remains : length remains ≡ ctx.buf_len + 9 + zero_count (length msg)
  length-remains = omega (
    arith,
    length-append (take ctx.buf_len ctx.buffer)
        (0x80 ∷ replicate (zero_count (length msg)) 0 ++ length_bytes (u64 (length msg * 8))),
    length-append (0x80 ∷ replicate (zero_count (length msg)) 0)
        (length_bytes (u64 (length msg * 8))),
    length-replicate {A = ℕ} (zero_count (length msg)) 0,
    length-length_bytes (u64 (length msg * 8)),
    ap length a.held,
    a.len,
  )

  length-pad : length (pad msg) ≡ a.count * 64 + (ctx.buf_len + 9 + zero_count (length msg))
  length-pad =
      ap length pad_parts ∙ omega (arith, length-append a.full remains, a.whole, length-remains)

  -- The reference in terms of what is left.
  reference-remains :
      (n : ℕ)
      → ctx.buf_len + 9 + zero_count (length msg) ≡ n * 64
      → reference_hash msg ≡ digest_of (hash_blocks (a.count + n) initial_state (a.full ++ remains))
  unfolding reference_hash
  reference-remains n e =
      let blocks : length (pad msg) / 64 ≡ a.count + n = omega (arith, length-pad, e) in
      ap₂ (λ k m. digest_of (hash_blocks k initial_state m)) blocks pad_parts

  final-reference_one : ctx.buf_len < 56 → sha256_final ctx ≡ reference_hash msg
  final-reference_one lt =
      let zeros : zero_count (length msg) ≡ 55 - ctx.buf_len = omega (arith, message_length) in
      let same : take ctx.buf_len ctx.buffer
            ++ (0x80 ∷ replicate (55 - ctx.buf_len) 0
                ++ length_bytes (u64 (ctx.bit_count + ctx.buf_len * 8)))
          ≡ remains =
        ap₂ (λ k t. take ctx.buf_len ctx.buffer ++ (0x80 ∷ replicate k 0 ++ length_bytes t))
          (sym zeros) total_bits in
      let next : a.count + 1 ≡ suc a.count = omega arith in
      final-one ctx a.room lt
      ∙ ap₂ (λ h b. digest_of (sha256_transform h b)) a.hashed same
      ∙ ap digest_of (
          sym (
            hash_blocks_snoc a.count initial_state a.full remains a.whole
              (omega (arith, length-remains, zeros))))
      ∙ ap (λ k. digest_of (hash_blocks k initial_state (a.full ++ remains))) (sym next)
      ∙ sym (reference-remains 1 (omega (arith, zeros)))

  final-reference_two : 56 ≤ ctx.buf_len → sha256_final ctx ≡ reference_hash msg
  final-reference_two ge =
      let r = ctx.buf_len in
      let first = take r ctx.buffer ++ (0x80 ∷ replicate (63 - r) 0) in
      let tail = length_bytes (u64 (length msg * 8)) in
      let second : List ℕ = replicate 56 0 ++ tail in
      let zeros : zero_count (length msg) ≡ 63 - r + 56 = omega (arith, message_length, a.fits) in
      let split : remains ≡ first ++ second =
        ap (λ k. take r ctx.buffer ++ (0x80 ∷ replicate k 0 ++ tail)) zeros
        ∙ ap (λ l. take r ctx.buffer ++ (0x80 ∷ l ++ tail)) (replicate-plus (63 - r) 56)
        ∙ ap (λ l. take r ctx.buffer ++ (0x80 ∷ l))
            (append_assoc (replicate (63 - r) 0) (replicate 56 0) tail)
        ∙ sym (append_assoc (take r ctx.buffer) (0x80 ∷ replicate (63 - r) 0) second) in
      let one_block : length first ≡ 64 = omega (
        arith,
        length-append (take r ctx.buffer) (0x80 ∷ replicate (63 - r) 0),
        ap length a.held,
        a.len,
        length-replicate {A = ℕ} (63 - r) 0,
        a.fits,
      ) in
      let last_one : length second ≡ 64 = omega (
        arith,
        length-append (replicate {A = ℕ} 56 0) tail,
        length-length_bytes (u64 (length msg * 8)),
      ) in
      let next : a.count + 2 ≡ suc (suc a.count) = omega arith in
      final-two ctx a.room ge a.fits
      ∙ ap₂
          (λ h t.
            digest_of
              (sha256_transform (sha256_transform h first) (replicate 56 0 ++ length_bytes t)))
          a.hashed total_bits
      ∙ ap (λ h. digest_of (sha256_transform h second))
          (sym (hash_blocks_snoc a.count initial_state a.full first a.whole one_block))
      ∙ ap digest_of (
          sym (
            hash_blocks_snoc (suc a.count) initial_state (a.full ++ first) second
              (omega (arith, length-append a.full first, a.whole, one_block)) last_one))
      ∙ ap₂ (λ k m. digest_of (hash_blocks k initial_state m)) (sym next)
          (append_assoc a.full first second ∙ ap (λ m. a.full ++ m) (sym split))
      ∙ sym (reference-remains 2 (omega (arith, zeros, a.fits)))

  final-reference : sha256_final ctx ≡ reference_hash msg
  final-reference = elim (dec_lt ctx.buf_len 56) [
    | yes one ↦ final-reference_one one
    | no two ↦ final-reference_two (omega arith)
  ]

-- The digest that the streaming code computes is that of the padded message, for every message and whatever
-- the buffer of the context held before.
pub sha256_hash_lem :
    (buffer msg : List ℕ) → length buffer ≡ 64 → sha256_hash buffer msg ≡ reference_hash msg
unfolding sha256_hash
sha256_hash_lem buffer msg room =
    final-reference (sha256_update (sha256_init buffer) msg) msg
      (update-Absorbed (sha256_init buffer) [] msg (init-Absorbed buffer room))

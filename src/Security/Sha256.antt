-- ===== src/Security/Sha256.antt =====
-- The digest: kernel/security/sha256.c and include/sha256.h. An array of words or bytes is a list; `~x` on
-- 32 bits is the distance to all ones.
use Prim.Native.Nat.{bit_and, bit_or, bit_xor}
use vernis_os.Prelude.{
  ℕ, zero, suc, ◌+◌, ◌-◌, ◌*◌, ◌/◌, ◌^◌, List, [], ◌∷◌, ◌++◌, Bool, ◌==◌, ltb, if◌then◌else◌,
  get_or, set,
}
use vernis_os.Prelude.Words.{u8, u32, u64}

abbrev pub sha256_block_size : ℕ
sha256_block_size = 64

abbrev pub sha256_digest_size : ℕ
sha256_digest_size = 32

pub record Sha256Context : Type 0 where
  pub state : List ℕ
  pub bit_count : ℕ
  pub buffer : List ℕ
  pub buf_len : ℕ

unfoldable pub round_constants : List ℕ
round_constants =
    0x428a2f98 ∷ 0x71374491 ∷ 0xb5c0fbcf ∷ 0xe9b5dba5 ∷ 0x3956c25b ∷ 0x59f111f1 ∷ 0x923f82a4
    ∷ 0xab1c5ed5 ∷ 0xd807aa98 ∷ 0x12835b01 ∷ 0x243185be ∷ 0x550c7dc3 ∷ 0x72be5d74 ∷ 0x80deb1fe
    ∷ 0x9bdc06a7 ∷ 0xc19bf174 ∷ 0xe49b69c1 ∷ 0xefbe4786 ∷ 0x0fc19dc6 ∷ 0x240ca1cc ∷ 0x2de92c6f
    ∷ 0x4a7484aa ∷ 0x5cb0a9dc ∷ 0x76f988da ∷ 0x983e5152 ∷ 0xa831c66d ∷ 0xb00327c8 ∷ 0xbf597fc7
    ∷ 0xc6e00bf3 ∷ 0xd5a79147 ∷ 0x06ca6351 ∷ 0x14292967 ∷ 0x27b70a85 ∷ 0x2e1b2138 ∷ 0x4d2c6dfc
    ∷ 0x53380d13 ∷ 0x650a7354 ∷ 0x766a0abb ∷ 0x81c2c92e ∷ 0x92722c85 ∷ 0xa2bfe8a1 ∷ 0xa81a664b
    ∷ 0xc24b8b70 ∷ 0xc76c51a3 ∷ 0xd192e819 ∷ 0xd6990624 ∷ 0xf40e3585 ∷ 0x106aa070 ∷ 0x19a4c116
    ∷ 0x1e376c08 ∷ 0x2748774c ∷ 0x34b0bcb5 ∷ 0x391c0cb3 ∷ 0x4ed8aa4a ∷ 0x5b9cca4f ∷ 0x682e6ff3
    ∷ 0x748f82ee ∷ 0x78a5636f ∷ 0x84c87814 ∷ 0x8cc70208 ∷ 0x90befffa ∷ 0xa4506ceb ∷ 0xbef9a3f7
    ∷ 0xc67178f2 ∷ []

unfoldable pub rotr : ℕ → ℕ → ℕ
rotr x n = bit_or (x / 2 ^ n) (u32 (x * 2 ^ (32 - n)))

unfoldable pub ch : ℕ → ℕ → ℕ → ℕ
ch x y z = bit_xor (bit_and x y) (bit_and (2 ^ 32 - 1 - x) z)

unfoldable pub maj : ℕ → ℕ → ℕ → ℕ
maj x y z = bit_xor (bit_xor (bit_and x y) (bit_and x z)) (bit_and y z)

unfoldable pub ep0 : ℕ → ℕ
unfolding rotr
ep0 x = bit_xor (bit_xor (rotr x 2) (rotr x 13)) (rotr x 22)

unfoldable pub ep1 : ℕ → ℕ
unfolding rotr
ep1 x = bit_xor (bit_xor (rotr x 6) (rotr x 11)) (rotr x 25)

unfoldable pub sig0 : ℕ → ℕ
unfolding rotr
sig0 x = bit_xor (bit_xor (rotr x 7) (rotr x 18)) (x / 2 ^ 3)

unfoldable pub sig1 : ℕ → ℕ
unfolding rotr
sig1 x = bit_xor (bit_xor (rotr x 17) (rotr x 19)) (x / 2 ^ 10)

-- The words 0 to 15 of the schedule, from word `i` on for `n` words.
unfoldable pub first_words : List ℕ → ℕ → ℕ → List ℕ
first_words block i zero = []
first_words block i (suc n) =
    (get_or block (i * 4) 0 * 2 ^ 24
      + get_or block (i * 4 + 1) 0 * 2 ^ 16
      + get_or block (i * 4 + 2) 0 * 2 ^ 8
      + get_or block (i * 4 + 3) 0)
    ∷ first_words block (i + 1) n

-- The words from 16 on: `w` holds those before word `i`, `n` more are to come.
unfoldable pub more_words : List ℕ → ℕ → ℕ → List ℕ
unfolding sig0 sig1
more_words w i zero = w
more_words w i (suc n) =
    more_words
      (w
        ++ u32 (
            sig1 (get_or w (i - 2) 0)
            + get_or w (i - 7) 0
            + sig0 (get_or w (i - 15) 0)
            + get_or w (i - 16) 0)
          ∷ [])
      (i + 1) n

unfoldable pub schedule : List ℕ → List ℕ
unfolding first_words more_words
schedule block = more_words (first_words block 0 16) 16 48

-- The variables `a` to `h`.
pub record Working : Type 0 where
  pub a : ℕ
  pub b : ℕ
  pub c : ℕ
  pub d : ℕ
  pub e : ℕ
  pub f : ℕ
  pub g : ℕ
  pub h : ℕ

-- One round, with the round constant and the word of the schedule.
unfoldable pub round : Working → ℕ → ℕ → Working
unfolding ep0 ep1 ch maj
round v k w =
    let t1 = u32 (v.h + ep1 v.e + ch v.e v.f v.g + k + w) in
    let t2 = u32 (ep0 v.a + maj v.a v.b v.c) in
    record {
      h = v.g;
      g = v.f;
      f = v.e;
      e = u32 (v.d + t1);
      d = v.c;
      c = v.b;
      b = v.a;
      a = u32 (t1 + t2);
    }

-- The rounds from round `i` on.
unfoldable pub rounds : Working → List ℕ → ℕ → ℕ → Working
unfolding round round_constants
rounds v w i zero = v
rounds v w i (suc n) = rounds (round v (get_or round_constants i 0) (get_or w i 0)) w (i + 1) n

-- `sha256_transform`, which changes the state only.
unfoldable pub sha256_transform : List ℕ → List ℕ → List ℕ
unfolding schedule rounds
sha256_transform state block =
    let v0 : Working = record {
      a = get_or state 0 0;
      b = get_or state 1 0;
      c = get_or state 2 0;
      d = get_or state 3 0;
      e = get_or state 4 0;
      f = get_or state 5 0;
      g = get_or state 6 0;
      h = get_or state 7 0;
    } in
    let v = rounds v0 (schedule block) 0 64 in
    u32 (v0.a + v.a)
    ∷ u32 (v0.b + v.b)
    ∷ u32 (v0.c + v.c)
    ∷ u32 (v0.d + v.d)
    ∷ u32 (v0.e + v.e)
    ∷ u32 (v0.f + v.f)
    ∷ u32 (v0.g + v.g)
    ∷ u32 (v0.h + v.h)
    ∷ []

unfoldable pub initial_state : List ℕ
initial_state =
    0x6a09e667 ∷ 0xbb67ae85 ∷ 0x3c6ef372 ∷ 0xa54ff53a ∷ 0x510e527f ∷ 0x9b05688c ∷ 0x1f83d9ab
    ∷ 0x5be0cd19 ∷ []

-- `sha256_init` on a context whose buffer holds `buffer`, which it leaves.
unfoldable pub sha256_init : List ℕ → Sha256Context
sha256_init buffer = record { state = initial_state; bit_count = 0; buffer = buffer; buf_len = 0 }

-- The body of the loop of `sha256_update`.
unfoldable pub absorb : Sha256Context → ℕ → Sha256Context
absorb ctx byte =
    let buffer = set ctx.buffer ctx.buf_len byte in
    if ctx.buf_len + 1 == sha256_block_size
    then record {
      state = sha256_transform ctx.state buffer;
      bit_count = u64 (ctx.bit_count + 512);
      buffer = buffer;
      buf_len = 0;
    }
    else record ctx { buffer = buffer; buf_len = ctx.buf_len + 1 }

unfoldable pub sha256_update : Sha256Context → List ℕ → Sha256Context
sha256_update ctx [] = ctx
sha256_update ctx (byte ∷ bytes) = sha256_update (absorb ctx byte) bytes

-- `n` rounds of `ctx->buffer[ctx->buf_len++] = 0` from place `i` on.
unfoldable pub fill_zeros : List ℕ → ℕ → ℕ → List ℕ
fill_zeros buffer i zero = buffer
fill_zeros buffer i (suc n) = fill_zeros (set buffer i 0) (i + 1) n

-- Bytes put into the buffer from place `i` on.
unfoldable pub put_bytes : List ℕ → ℕ → List ℕ → List ℕ
put_bytes buffer i [] = buffer
put_bytes buffer i (b ∷ bs) = put_bytes (set buffer i b) (i + 1) bs

-- A 64-bit number and a 32-bit number, the highest byte first.
unfoldable pub length_bytes : ℕ → List ℕ
length_bytes n =
    u8 (n / 2 ^ 56)
    ∷ u8 (n / 2 ^ 48)
    ∷ u8 (n / 2 ^ 40)
    ∷ u8 (n / 2 ^ 32)
    ∷ u8 (n / 2 ^ 24)
    ∷ u8 (n / 2 ^ 16)
    ∷ u8 (n / 2 ^ 8)
    ∷ u8 n
    ∷ []

unfoldable pub digest_of : List ℕ → List ℕ
digest_of [] = []
digest_of (w ∷ ws) = u8 (w / 2 ^ 24) ∷ u8 (w / 2 ^ 16) ∷ u8 (w / 2 ^ 8) ∷ u8 w ∷ digest_of ws

-- The context and the buffer's fill when the length is appended: after the byte 0x80 and, if there is no
-- room for the length, a block of its own.
unfoldable pub pad_block : List ℕ → List ℕ → ℕ → List ℕ × List ℕ × ℕ
pad_block state buffer len =
    let full = fill_zeros buffer len (64 - len) in
    if ltb 56 len then (sha256_transform state full, full, 0) else (state, buffer, len)

unfoldable pub sha256_final : Sha256Context → List ℕ
sha256_final ctx =
    let total_bits = u64 (ctx.bit_count + ctx.buf_len * 8) in
    let marked = set ctx.buffer ctx.buf_len 0x80 in
    let (state, buffer, len) = pad_block ctx.state marked (ctx.buf_len + 1) in
    let last = put_bytes (fill_zeros buffer len (56 - len)) 56 (length_bytes total_bits) in
    digest_of (sha256_transform state last)

-- The context of `sha256_hash` is not initialised, so `buffer` is whatever its 64 bytes hold.
unfoldable pub sha256_hash : List ℕ → List ℕ → List ℕ
sha256_hash buffer bytes = sha256_final (sha256_update (sha256_init buffer) bytes)

-- The loop of `sha256_compare` from byte `i` on, for `n` more bytes.
unfoldable pub diff_from : List ℕ → List ℕ → ℕ → ℕ → ℕ → ℕ
diff_from a b i zero diff = diff
diff_from a b i (suc n) diff =
    diff_from a b (i + 1) n (bit_or diff (bit_xor (get_or a i 0) (get_or b i 0)))

-- True where the source returns 0.
unfoldable pub sha256_compare : List ℕ → List ℕ → Bool
sha256_compare a b = diff_from a b 0 sha256_digest_size 0 == 0

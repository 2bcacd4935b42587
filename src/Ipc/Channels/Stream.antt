-- ===== src/Ipc/Channels/Stream.antt =====
-- A channel of kernel/ipc/ipc.c is a stream of at most 512 bytes: what is read is what was written.
use vernis_os.Prelude.{
  ℕ, zero, suc, ◌+◌, ◌-◌, ◌%◌, ◌≤◌, ◌<◌, ◌≡◌, refl, ◌∙◌, ap, inl, inr, min, List, [], ◌∷◌, ◌++◌,
  arith, ◌==◌, leb, length, length-set, get_or, take, drop, Bool-cases, take-nil, take-cons,
}
use mathlib.Core.List.{append-nil, append_assoc}
use vernis_os.Prelude.Rings.{ring, ring_front, ring-set_end, length-ring}
use vernis_os.Prelude.Words.{u16}
use vernis_os.Ipc.State.{Channel, chan_buf_size}
use vernis_os.Ipc.Channels.{push_byte, write_from, pop_byte, read_from}

pub record ChannelOk (c : Channel) : Type 0 where
  pub head_in : c.head < chan_buf_size
  pub fits : c.count ≤ chan_buf_size
  pub tail_at : c.tail ≡ (c.head + c.count) % chan_buf_size
  pub slots : length c.buf ≡ chan_buf_size

-- The bytes on their way, oldest first.
abbrev pub bytes_of : Channel → List ℕ
bytes_of c = ring 0 c.buf chan_buf_size c.head c.count

pub length-bytes_of : (c : Channel) → length (bytes_of c) ≡ c.count
length-bytes_of c = length-ring 0 c.buf chan_buf_size c.head c.count

push_byte-ChannelOk :
    (c : Channel) (b : ℕ) → ChannelOk c → c.count < chan_buf_size → ChannelOk (push_byte c b)
push_byte-ChannelOk c b h lt = ground (arith, length-set c.buf c.tail b)

pop_byte-ChannelOk : (c : Channel) → ChannelOk c → 0 < c.count → ChannelOk (pop_byte c)
pop_byte-ChannelOk c h lt = ground arith

bytes_of-push :
    (c : Channel) (b : ℕ)
    → ChannelOk c
    → c.count < chan_buf_size
    → bytes_of (push_byte c b) ≡ bytes_of c ++ b ∷ []
bytes_of-push c b h lt =
    let e : u16 (c.count + 1) ≡ suc c.count = omega arith in
    rw e (
      ring-set_end 0 c.buf chan_buf_size c.head c.count c.tail b (omega (arith, h.slots)) lt
        h.tail_at)

bytes_of-pop :
    (c : Channel)
    → ChannelOk c
    → 0 < c.count
    → bytes_of c ≡ get_or c.buf c.head 0 ∷ bytes_of (pop_byte c)
bytes_of-pop c h pos =
    let e : u16 ((c.head + 1) % chan_buf_size) ≡ (c.head + 1) % chan_buf_size = omega arith in
    rw e (ring_front 0 c.buf chan_buf_size c.head c.count h.head_in pos)

-- What the loop of `ipc_channel_write` leaves, started with `written` bytes done.
pub record Wrote (c : Channel) (bs : List ℕ) (written : ℕ) (out : Channel × ℕ) : Type 0 where
  pub good : ChannelOk out.0
  pub same_owner : out.0.owner_pid ≡ c.owner_pid
  pub same_peer : out.0.peer_pid ≡ c.peer_pid
  pub same_closed : out.0.closed ≡ c.closed
  pub number : out.1 ≡ written + min (length bs) (chan_buf_size - c.count)
  pub stream : bytes_of out.0 ≡ bytes_of c ++ take (chan_buf_size - c.count) bs

pub write_from-Wrote :
    (c : Channel) (bs : List ℕ) (written : ℕ)
    → ChannelOk c
    → Wrote c bs written (write_from c bs written)
unfolding write_from
write_from-Wrote c [] written h = record {
  good = h;
  same_owner = refl;
  same_peer = refl;
  same_closed = refl;
  number = omega arith;
  stream = rw (take-nil, append-nil);
}
write_from-Wrote c (b ∷ bs) written h = elim (Bool-cases (leb chan_buf_size c.count)) [
  | inl full ↦
      let none_left : chan_buf_size - c.count ≡ 0 = ground arith in
      rw full (record {
        good = h;
        same_owner = refl;
        same_peer = refl;
        same_closed = refl;
        number = omega (arith, none_left);
        stream = rw (none_left, append-nil);
      })
  | inr free ↦
      let lt : c.count < chan_buf_size = ground arith in
      let ih = write_from-Wrote (push_byte c b) bs (written + 1) (push_byte-ChannelOk c b h lt) in
      rw free (record {
        good = ih.good;
        same_owner = ih.same_owner;
        same_peer = ih.same_peer;
        same_closed = ih.same_closed;
        number = omega (arith, ih.number);
        stream =
            ih.stream
            ∙ rw (bytes_of-push c b h lt, append_assoc)
                (rw (take-cons (chan_buf_size - c.count) b bs (omega arith))
                  (ap (λ k. bytes_of c ++ b ∷ take k bs) (omega arith)));
      })
]

-- What the loop of `ipc_channel_read` leaves.
pub record Drained (c : Channel) (n : ℕ) (out : Channel × List ℕ) : Type 0 where
  pub good : ChannelOk out.0
  pub same_owner : out.0.owner_pid ≡ c.owner_pid
  pub same_peer : out.0.peer_pid ≡ c.peer_pid
  pub same_closed : out.0.closed ≡ c.closed
  pub taken : out.1 ≡ take n (bytes_of c)
  pub rest : bytes_of out.0 ≡ drop n (bytes_of c)

pub bytes_of-empty : (c : Channel) → c.count ≡ 0 → bytes_of c ≡ []
unfolding ring
bytes_of-empty c e = rw e

pub read_from-Drained : (c : Channel) (n : ℕ) → ChannelOk c → Drained c n (read_from c n)
unfolding read_from
read_from-Drained c zero h = record {
  good = h;
  same_owner = refl;
  same_peer = refl;
  same_closed = refl;
  taken = refl;
  rest = refl;
}
read_from-Drained c (suc n) h = elim (Bool-cases (c.count == 0)) [
  | inl empty ↦
      let nothing = bytes_of-empty c (ground arith) in
      rw empty (record {
        good = h;
        same_owner = refl;
        same_peer = refl;
        same_closed = refl;
        taken = rw nothing;
        rest = rw nothing;
      })
  | inr left ↦
      let pos : 0 < c.count = ground arith in
      let ih = read_from-Drained (pop_byte c) n (pop_byte-ChannelOk c h pos) in
      let front = bytes_of-pop c h pos in
      rw left (record {
        good = ih.good;
        same_owner = ih.same_owner;
        same_peer = ih.same_peer;
        same_closed = ih.same_closed;
        taken = rw front (ap (λ l. get_or c.buf c.head 0 ∷ l) ih.taken);
        rest = rw front ih.rest;
      })
]

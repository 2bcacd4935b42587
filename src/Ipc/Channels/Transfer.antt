-- ===== src/Ipc/Channels/Transfer.antt =====
-- `ipc_channel_write` and `ipc_channel_read` of kernel/ipc/ipc.c on the table of channels.
use vernis_os.Prelude.{
  ℕ, ◌-◌, ◌≤◌, ◌<◌, ◌≡◌, refl, sym, ◌∙◌, ap, ◌≢◌, inl, inr, Bool, true, false, min, Option, none,
  some, List, ◌++◌, arith, ◌==◌, leb, if◌then◌else◌, length, length-set, take, drop, length-take,
  length-drop, Bool-cases, Option-cases, ==-false, leb-false, get_or-set_self, get_or-set_ne,
  take-take, All, All-set, All-get_default, All-replicate, take-length,
}
use vernis_os.Prelude.Find.{find_index}
use vernis_os.Ipc.State.{
  Channel, Ipc, ok, err_full, zero_channel, zero_buf, max_channels, chan_buf_size, init,
}
use vernis_os.Ipc.Channels.{
  channel_at, put_channel, open_at, channel_create, write_from, channel_write, read_from,
  channel_read, channel_close, uncount_channel, free_channel,
}
use vernis_os.Ipc.Channels.Stream.{
  ChannelOk, bytes_of, bytes_of-empty, length-bytes_of, write_from-Wrote, read_from-Drained,
}

pub record ChannelsOk (s : Ipc) : Type 0 where
  pub size : length s.channels ≡ max_channels
  pub each : All ChannelOk s.channels

zero_channel-ChannelOk :
    (owner peer : ℕ) → ChannelOk (record zero_channel { owner_pid = owner; peer_pid = peer })
unfolding zero_buf
zero_channel-ChannelOk owner peer = ground arith

pub init-ChannelsOk : ChannelsOk init
unfolding init
init-ChannelsOk = record {
  size = refl;
  each = All-replicate ChannelOk 8 zero_channel (zero_channel-ChannelOk 0 0);
}

pub channel_at-ChannelOk : (s : Ipc) (i : ℕ) → ChannelsOk s → ChannelOk (channel_at s i)
channel_at-ChannelOk s i h =
    All-get_default ChannelOk s.channels i zero_channel (zero_channel-ChannelOk 0 0) h.each

pub put_channel-ChannelsOk :
    (s : Ipc) (i : ℕ) (c : Channel) → ChannelsOk s → ChannelOk c → ChannelsOk (put_channel s i c)
put_channel-ChannelsOk s i c h good = record {
  size = length-set s.channels i c ∙ h.size;
  each = All-set ChannelOk s.channels i c good h.each;
}

uncount_channel-ChannelsOk : (s : Ipc) → ChannelsOk s → ChannelsOk (uncount_channel s)
uncount_channel-ChannelsOk s h = elim (Bool-cases (s.stats.channels_active == 0)) [
  | inl none_left ↦ rw none_left h
  | inr some_left ↦ rw some_left (record { size = h.size; each = h.each })
]

open_at-ChannelsOk :
    (s : Ipc) (i owner peer : ℕ) → ChannelsOk s → ChannelsOk (open_at s i owner peer)
unfolding open_at
open_at-ChannelsOk s i owner peer h =
    let t = put_channel-ChannelsOk s i _ h (zero_channel-ChannelOk owner peer) in
    record { size = t.size; each = t.each }

-- `ipc_channel_create` keeps the invariant.
pub channel_create-ChannelsOk :
    (s : Ipc) (owner peer : ℕ) → ChannelsOk s → ChannelsOk (channel_create s owner peer).0
unfolding channel_create
channel_create-ChannelsOk s owner peer h =
    elim (Option-cases (find_index free_channel s.channels)) [
      | inl full ↦ rw full (ground arith)
      | inr (i, e) ↦ rw e (ground (arith, open_at-ChannelsOk s i owner peer h))
    ]

-- `ipc_channel_write` keeps the invariant.
pub channel_write-ChannelsOk :
    (s : Ipc) (cid : ℕ) (ptr : Option (List ℕ)) (len : ℕ)
    → ChannelsOk s
    → ChannelsOk (channel_write s cid ptr len).0
unfolding channel_write
channel_write-ChannelsOk s cid none len h = h
channel_write-ChannelsOk s cid (some bytes) len h =
    let c' = (write_from (channel_at s cid) (take len bytes) 0).0 in
    ground (
      arith,
      put_channel-ChannelsOk s cid c' h
          (write_from-Wrote (channel_at s cid) (take len bytes) 0
            (channel_at-ChannelOk s cid h)).good,
    )

-- `ipc_channel_read` keeps the invariant.
pub channel_read-ChannelsOk :
    (s : Ipc) (cid : ℕ) (has_buf : Bool) (max_len : ℕ)
    → ChannelsOk s
    → ChannelsOk (channel_read s cid has_buf max_len).0
unfolding channel_read
channel_read-ChannelsOk s cid has_buf max_len h =
    let c' = (read_from (channel_at s cid) max_len).0 in
    ground (
      arith,
      put_channel-ChannelsOk s cid c' h
          (read_from-Drained (channel_at s cid) max_len (channel_at-ChannelOk s cid h)).good,
    )

-- `ipc_channel_close` keeps the invariant.
pub channel_close-ChannelsOk : (s : Ipc) (cid : ℕ) → ChannelsOk s → ChannelsOk (channel_close s cid)
unfolding channel_close
channel_close-ChannelsOk s cid h =
    let c = channel_at s cid in
    let c' = record c { closed = true } in
    let good = channel_at-ChannelOk s cid h in
    let t = put_channel-ChannelsOk s cid c' h (record {
      head_in = good.head_in;
      fits = good.fits;
      tail_at = good.tail_at;
      slots = good.slots;
    }) in
    elim (Bool-cases (leb max_channels cid)) [
      | inl out ↦ rw out h
      | inr inside ↦ elim (Bool-cases (c.owner_pid == 0)) [
        | inl free ↦ rw (inside, free) h
        | inr used ↦ rw (inside, used) (uncount_channel-ChannelsOk (put_channel s cid c') t)
      ]
    ]

module _ (s : Ipc) (cid : ℕ) (h : ChannelsOk s) (lt : cid < max_channels)
    (live : (channel_at s cid).owner_pid ≢ 0) where
  room : cid < length s.channels
  room = omega (arith, h.size)

  -- The channel after the operation, and the others.
  pub put_self : (c : Channel) → channel_at (put_channel s cid c) cid ≡ c
  put_self c = get_or-set_self s.channels cid c zero_channel room

  pub put_other :
      (c : Channel) (j : ℕ) → cid ≢ j → channel_at (put_channel s cid c) j ≡ channel_at s j
  put_other c j ne = get_or-set_ne s.channels cid j c zero_channel ne

  -- `ipc_channel_write`, with well-formed channels, of `len` bytes, at least one, to a channel that has an
  -- owner and is not closed: it takes as many of the bytes as there is room for, from the front, appends them in order, returns their number (or that the
  -- channel is full), and leaves the other channels alone.
  pub channel_write_lem :
      (bytes : List ℕ) (len : ℕ)
      → (channel_at s cid).closed ≡ false
      → 0 < len
      → len ≤ length bytes
      → let (s', r) = channel_write s cid (some bytes) len in
        let n = min len (chan_buf_size - (channel_at s cid).count) in
        (r ≡ (if n == 0 then err_full else ok n))
        × (bytes_of (channel_at s' cid) ≡ bytes_of (channel_at s cid) ++ take n bytes)
        × ((j : ℕ) → cid ≢ j → channel_at s' j ≡ channel_at s j)
  unfolding channel_write
  channel_write_lem bytes len unclosed pos fits =
      let c = channel_at s cid in
      let out = write_from c (take len bytes) 0 in
      let w = write_from-Wrote c (take len bytes) 0 (channel_at-ChannelOk s cid h) in
      let number : out.1 ≡ min len (chan_buf_size - c.count) =
        omega (arith, w.number, length-take len bytes) in
      rw
        (
          leb-false max_channels cid lt,
          ==-false len 0 (omega arith),
          ==-false c.owner_pid 0 live,
          unclosed,
        )
        (rw number, rw (put_self out.0) (w.stream ∙ rw take-take), λ j ne. put_other out.0 j ne)

  -- `ipc_channel_read`, with well-formed channels, of `max_len` bytes, at least one, from a channel that has
  -- an owner and holds bytes: it hands out the oldest ones, at most `max_len`, returns their number, keeps the others, and leaves the other channels alone.
  pub channel_read_lem :
      (max_len : ℕ)
      → 0 < max_len
      → 0 < (channel_at s cid).count
      → let (s', r, out) = channel_read s cid true max_len in
        (r ≡ ok (min max_len (channel_at s cid).count))
        × (out ≡ take max_len (bytes_of (channel_at s cid)))
        × (bytes_of (channel_at s' cid) ≡ drop max_len (bytes_of (channel_at s cid)))
        × ((j : ℕ) → cid ≢ j → channel_at s' j ≡ channel_at s j)
  unfolding channel_read
  channel_read_lem max_len pos left =
      let c = channel_at s cid in
      let out = read_from c max_len in
      let d = read_from-Drained c max_len (channel_at-ChannelOk s cid h) in
      let number : length out.1 ≡ min max_len c.count =
        ap length d.taken
        ∙ length-take max_len (bytes_of c)
        ∙ ap (λ k. min max_len k) (length-bytes_of c) in
      rw
        (
          leb-false max_channels cid lt,
          ==-false max_len 0 (omega arith),
          ==-false c.owner_pid 0 live,
          ==-false c.count 0 (omega arith),
        )
        (ap ok number, d.taken, rw (put_self out.0) d.rest, λ j ne. put_other out.0 j ne)

channel_write_owner :
    (s : Ipc) (cid len : ℕ) (bytes : List ℕ)
    → ChannelsOk s
    → cid < max_channels
    → (channel_at (channel_write s cid (some bytes) len).0 cid).owner_pid
      ≡ (channel_at s cid).owner_pid
unfolding channel_write
channel_write_owner s cid len bytes h lt =
    let c = channel_at s cid in
    let c' = (write_from c (take len bytes) 0).0 in
    let w = write_from-Wrote c (take len bytes) 0 (channel_at-ChannelOk s cid h) in
    ground
      (arith, w.same_owner, get_or-set_self s.channels cid c' zero_channel (omega (arith, h.size)))

-- With well-formed channels, what is written to a channel that has an owner, is not closed and is empty, 1 to
-- 512 bytes, comes back from the next read of that length, in order, and leaves the channel empty again.
pub channel_write-read :
    (s : Ipc) (cid len : ℕ) (bytes : List ℕ)
    → ChannelsOk s
    → cid < max_channels
    → (channel_at s cid).owner_pid ≢ 0
    → (channel_at s cid).closed ≡ false
    → (channel_at s cid).count ≡ 0
    → length bytes ≡ len
    → 0 < len
    → len ≤ chan_buf_size
    → let (s1, sent) = channel_write s cid (some bytes) len in
      let (s2, got, out) = channel_read s1 cid true len in
      (sent ≡ ok len) × (got ≡ ok len) × (out ≡ bytes) × ((channel_at s2 cid).count ≡ 0)
channel_write-read s cid len bytes h lt live unclosed empty full pos fits =
    let c = channel_at s cid in
    let s1 = (channel_write s cid (some bytes) len).0 in
    let h1 = channel_write-ChannelsOk s cid (some bytes) len h in
    let (sent, stream, others) =
      channel_write_lem s cid h lt live bytes len unclosed pos (omega arith) in
    let all : min len (chan_buf_size - c.count) ≡ len = omega arith in
    let stored : bytes_of (channel_at s1 cid) ≡ bytes =
      stream ∙ rw (all, bytes_of-empty c empty) (take-length len bytes (omega arith)) in
    let number : (channel_at s1 cid).count ≡ len =
      sym (length-bytes_of (channel_at s1 cid)) ∙ ap length stored ∙ full in
    let (got, out, left, others1) =
      channel_read_lem s1 cid h1 lt (rw (channel_write_owner s cid len bytes h lt) live) len pos
        (omega arith) in
    let s2 = (channel_read s1 cid true len).0 in
    (
      sent ∙ rw (all, ==-false len 0 (omega arith)),
      got ∙ ap ok (omega arith),
      out ∙ rw stored (take-length len bytes (omega arith)),
      sym (length-bytes_of (channel_at s2 cid))
          ∙ ap length left
          ∙ rw stored (omega (arith, length-drop len bytes)),
    )

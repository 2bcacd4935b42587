-- ===== src/Ipc/Sockets/Traffic.antt =====
-- What is sent to a path-named socket of kernel/ipc/ipc.c is received from it.
use vernis_os.Prelude.{
  ℕ, ◌≤◌, ◌<◌, ◌≡◌, refl, ◌∙◌, ap, ◌≢◌, true, Option, none, some, List, arith, length, get_or,
}
use vernis_os.Prelude.Strings.{IsText}
use vernis_os.Ipc.State.{
  Ipc, ok, err_inval, usock_path_max, max_channels, chan_buf_size, zero_channel, zero_usock,
}
use vernis_os.Ipc.Channels.{channel_at, channel_write, channel_read}
use vernis_os.Ipc.Channels.Transfer.{ChannelsOk, channel_create-ChannelsOk, channel_write-read}
use vernis_os.Ipc.Channels.Slots.{channel_create_fresh}
use vernis_os.Ipc.Sockets.{find_by_path, usock_at, usock_bind, usock_send, usock_recv}
use vernis_os.Ipc.Sockets.Paths.{SocketsOk, Bound, usock_bind-ok, Bound-find, slot-usock}

bind_found :
    (t : Ipc) (path : List ℕ) (owner i : ℕ)
    → find_by_path t (some path) ≡ some i
    → (usock_bind t (some path) owner).1 ≡ err_inval
unfolding usock_bind
bind_found t path owner i e = ground arith

-- A path can be bound once: a second bind is refused while the socket stands.
pub usock_bind_twice :
    (s : Ipc) (path : List ℕ) (owner owner' n : ℕ)
    → SocketsOk s
    → IsText path
    → 0 < length path
    → length path < usock_path_max
    → (usock_bind s (some path) owner).1 ≡ ok n
    → (usock_bind (usock_bind s (some path) owner).0 (some path) owner').1 ≡ err_inval
usock_bind_twice s path owner owner' n h text pos short e =
    let t = (usock_bind s (some path) owner).0 in
    let found = Bound-find s t path owner h text pos short (usock_bind-ok s path owner n h e) in
    bind_found t path owner' (usock_bind-ok s path owner n h e).slot found

channel_write-usocks :
    (s : Ipc) (cid len : ℕ) (ptr : Option (List ℕ))
    → (channel_write s cid ptr len).0.usocks ≡ s.usocks
unfolding channel_write
channel_write-usocks s cid len none = refl
channel_write-usocks s cid len (some bytes) = ground arith

find_by_path-usocks :
    (s t : Ipc) (path : Option (List ℕ))
    → t.usocks ≡ s.usocks
    → find_by_path t path ≡ find_by_path s path
unfolding find_by_path
find_by_path-usocks s t none e = refl
find_by_path-usocks s t (some path) e = rw e

send_found :
    (t : Ipc) (path : Option (List ℕ)) (buf : Option (List ℕ)) (len i cid : ℕ)
    → find_by_path t path ≡ some i
    → (usock_at t i).cid ≡ cid
    → usock_send t path buf len ≡ channel_write t cid buf len
unfolding usock_send
send_found t path buf len i cid e c = rw (e, usock_send) (ap (λ k. channel_write t k buf len) c)

recv_found :
    (t : Ipc) (path : Option (List ℕ)) (max_len i cid : ℕ)
    → find_by_path t path ≡ some i
    → (usock_at t i).cid ≡ cid
    → usock_recv t path true max_len ≡ channel_read t cid true max_len
unfolding usock_recv
recv_found t path max_len i cid e c = rw (e, usock_recv) (ap (λ k. channel_read t k true max_len) c)

module _ (s t : Ipc) (path : List ℕ) (owner : ℕ) (hc : ChannelsOk s) (h : SocketsOk s)
    (text : IsText path) (pos : 0 < length path) (short : length path < usock_path_max)
    (b : Bound s t path owner) where
  cid_in : b.cid < max_channels
  cid_in = (channel_create_fresh s owner 0 b.cid hc b.created).0

  Bound-ChannelsOk : ChannelsOk t
  Bound-ChannelsOk =
      let h1 = channel_create-ChannelsOk s owner 0 hc in
      rw b.after (record { size = h1.size; each = h1.each })

  Bound-channel : channel_at t b.cid ≡ record zero_channel { owner_pid = owner; peer_pid = 0 }
  Bound-channel = rw b.after ((channel_create_fresh s owner 0 b.cid hc b.created).2)

  Bound-slot : (usock_at t b.slot).cid ≡ b.cid
  Bound-slot = ap (λ u. u.cid) (slot-usock s t path owner h text pos short b)

  Bound-traffic :
      (bytes : List ℕ) (len : ℕ)
      → owner ≢ 0
      → length bytes ≡ len
      → 0 < len
      → len ≤ chan_buf_size
      → let (t1, sent) = usock_send t (some path) (some bytes) len in
        let (t2, got, out) = usock_recv t1 (some path) true len in
        (sent ≡ ok len) × (got ≡ ok len) × (out ≡ bytes)
  Bound-traffic bytes len ne full some_bytes fits =
      let found = Bound-find s t path owner h text pos short b in
      let t1 = (channel_write t b.cid (some bytes) len).0 in
      let same = channel_write-usocks t b.cid len (some bytes) in
      let found1 = find_by_path-usocks t t1 (some path) same ∙ found in
      let slot1 : (usock_at t1 b.slot).cid ≡ b.cid =
        ap (λ us. (get_or us b.slot zero_usock).cid) same ∙ Bound-slot in
      let trip =
        channel_write-read t b.cid len bytes Bound-ChannelsOk cid_in (rw Bound-channel ne)
          (rw Bound-channel refl) (rw Bound-channel refl) full some_bytes fits in
      rw
        (
          send_found t (some path) (some bytes) len b.slot b.cid found Bound-slot,
          recv_found t1 (some path) len b.slot b.cid found1 slot1,
        )
        (trip.0, trip.1, trip.2)

-- From well-formed channels and sockets, after a successful bind of a path of 1 to 31 bytes without a zero byte by a
-- process whose number is not 0, what is sent to the path, 1 to 512 bytes, comes back, in order, from the
-- next receive of that length.
pub usock_bind-send-recv :
    (s : Ipc) (path bytes : List ℕ) (owner n len : ℕ)
    → ChannelsOk s
    → SocketsOk s
    → IsText path
    → 0 < length path
    → length path < usock_path_max
    → length bytes ≡ len
    → 0 < len
    → len ≤ chan_buf_size
    → owner ≢ 0
    → (usock_bind s (some path) owner).1 ≡ ok n
    → let t = (usock_bind s (some path) owner).0 in
      let (t1, sent) = usock_send t (some path) (some bytes) len in
      let (t2, got, out) = usock_recv t1 (some path) true len in
      (sent ≡ ok len) × (got ≡ ok len) × (out ≡ bytes)
usock_bind-send-recv s path bytes owner n len hc h text pos short full some_bytes fits ne e =
    Bound-traffic s (usock_bind s (some path) owner).0 path owner hc h text pos short
      (usock_bind-ok s path owner n h e) bytes len ne full some_bytes fits

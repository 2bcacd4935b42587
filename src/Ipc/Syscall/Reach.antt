-- ===== src/Ipc/Syscall/Reach.antt =====
-- The states that the kernel's IPC can reach, by the calls of processes and by the socket functions.
use vernis_os.Prelude.{
  ℕ, ◌∙◌, ◌-◌, inl, inr, ◌||◌, Bool, Option, some, List, arith, ◌==◌, leb, length-take, Bool-cases,
  Option-cases, All-set, length-set,
}
use vernis_os.Prelude.Find.{find_index}
use vernis_os.Prelude.Strings.{IsText, truncate-IsText}
use vernis_os.Ipc.State.{
  Ipc, Ret, ok, Message, init, zero_usock, UnixSocket, Channel, max_channels, usock_path_max,
}
use vernis_os.Ipc.Queues.Inv.{init-QueuesOk}
use vernis_os.Ipc.Channels.{channel_create, channel_close, channel_at, put_channel}
use vernis_os.Ipc.Channels.Stream.{ChannelOk}
use vernis_os.Ipc.Channels.Transfer.{init-ChannelsOk, channel_at-ChannelOk, put_channel-ChannelsOk}
use vernis_os.Ipc.Sockets.{
  find_by_path, usock_at, put_usock, new_usock, free_usock, bind_channel, bind_created, usock_bind,
  usock_connect, usock_send, usock_recv, usock_close, null_path,
}
use vernis_os.Ipc.Sockets.Paths.{SocketOk, init-SocketsOk}
use vernis_os.Ipc.Syscall.{syscall}
use vernis_os.Ipc.Syscall.Inv.{
  IpcOk, create-IpcOk, close-IpcOk, write-IpcOk, read-IpcOk, syscall-IpcOk,
}

-- One step of the kernel's IPC. A path is a C string, so it holds no zero byte.
pub data Step (s : Ipc) : Ipc → Type 0 where
  call :
      (message_at : ℕ → Message) (bytes_at : ℕ → List ℕ) (num a1 a2 a3 : ℕ)
      → Step s (syscall message_at bytes_at s num a1 a2 a3).0
  bind : (path : List ℕ) (owner : ℕ) → IsText path → Step s (usock_bind s (some path) owner).0
  connect : (path : Option (List ℕ)) (peer : ℕ) → Step s (usock_connect s path peer).0
  send_to : (path buf : Option (List ℕ)) (len : ℕ) → Step s (usock_send s path buf len).0
  recv_from :
      (path : Option (List ℕ)) (has_buf : Bool) (max_len : ℕ)
      → Step s (usock_recv s path has_buf max_len).0
  close : (path : Option (List ℕ)) → Step s (usock_close s path).0

pub data Reach : Ipc → Type 0 where
  start : Reach init
  next : {s t : Ipc} → Reach s → Step s t → Reach t

init-IpcOk : IpcOk init
init-IpcOk = record { queues = init-QueuesOk; channels = init-ChannelsOk; sockets = init-SocketsOk }

module _ (s : Ipc) (h : IpcOk s) where
  put_usock-IpcOk : (i : ℕ) (u : UnixSocket) → SocketOk u → IpcOk (put_usock s i u)
  put_usock-IpcOk i u good =
      let q = h.queues in
      record {
        queues = record {
          size = q.size;
          cache = q.cache;
          each = q.each;
          unique = q.unique;
          active = q.active;
        };
        channels = record { size = h.channels.size; each = h.channels.each };
        sockets = record {
          size = length-set s.usocks i u ∙ h.sockets.size;
          each = All-set SocketOk s.usocks i u good h.sockets.each;
        };
      }

  bind_channel-IpcOk :
      (cid owner : ℕ) (path : List ℕ) → IsText path → IpcOk (bind_channel s cid owner path).0
  unfolding bind_channel
  bind_channel-IpcOk cid owner path text =
      let u = new_usock cid owner path in
      elim (Option-cases (find_index free_usock s.usocks)) [
        | inl full ↦ rw (full, bind_channel) (close-IpcOk s h cid)
        | inr (i, e) ↦
            rw (e, bind_channel)
              (put_usock-IpcOk i u (record {
                text = truncate-IsText usock_path_max path text;
                short = omega (arith, length-take (usock_path_max - 1) path);
              }))
      ]

  put_channel-IpcOk : (cid : ℕ) (c : Channel) → ChannelOk c → IpcOk (put_channel s cid c)
  put_channel-IpcOk cid c good =
      let q = h.queues in
      record {
        queues = record {
          size = q.size;
          cache = q.cache;
          each = q.each;
          unique = q.unique;
          active = q.active;
        };
        channels = put_channel-ChannelsOk s cid c h.channels good;
        sockets = record { size = h.sockets.size; each = h.sockets.each };
      }

  connect-IpcOk : (path : Option (List ℕ)) (peer : ℕ) → IpcOk (usock_connect s path peer).0
  unfolding usock_connect
  connect-IpcOk path peer = elim (Option-cases (find_by_path s path)) [
    | inl miss ↦ rw (miss, usock_connect) h
    | inr (i, e) ↦
        let cid = (usock_at s i).cid in
        let good = channel_at-ChannelOk s cid h.channels in
        let kept =
          put_channel-IpcOk cid (record (channel_at s cid) { peer_pid = peer })
            (record {
              head_in = good.head_in;
              fits = good.fits;
              tail_at = good.tail_at;
              slots = good.slots;
            }) in
        rw (e, usock_connect)
          (elim (Bool-cases (leb max_channels cid || (channel_at s cid).owner_pid == 0)) [
            | inl bad ↦ rw bad h
            | inr fine ↦ rw fine kept
          ])
  ]

  send_to-IpcOk : (path buf : Option (List ℕ)) (len : ℕ) → IpcOk (usock_send s path buf len).0
  unfolding usock_send
  send_to-IpcOk path buf len = elim (Option-cases (find_by_path s path)) [
    | inl miss ↦ rw (miss, usock_send) h
    | inr (i, e) ↦ rw (e, usock_send) (write-IpcOk s h (usock_at s i).cid len buf)
  ]

  recv_from-IpcOk :
      (path : Option (List ℕ)) (has_buf : Bool) (n : ℕ) → IpcOk (usock_recv s path has_buf n).0
  unfolding usock_recv
  recv_from-IpcOk path has_buf n = elim (Option-cases (find_by_path s path)) [
    | inl miss ↦ rw (miss, usock_recv) h
    | inr (i, e) ↦ rw (e, usock_recv) (read-IpcOk s h (usock_at s i).cid n has_buf)
  ]

bind_created-IpcOk :
    (x : Ipc × Ret) (owner : ℕ) (path : List ℕ)
    → IpcOk x.0
    → IsText path
    → IpcOk (bind_created x owner path).0
unfolding bind_created
bind_created-IpcOk (s, ok cid) owner path h text = bind_channel-IpcOk s h cid owner path text
bind_created-IpcOk (s, _) owner path h text = h

bind-IpcOk :
    (s : Ipc) (path : List ℕ) (owner : ℕ)
    → IpcOk s
    → IsText path
    → IpcOk (usock_bind s (some path) owner).0
unfolding usock_bind
bind-IpcOk s path owner h text =
    let made =
      bind_created-IpcOk (channel_create s owner 0) owner path (create-IpcOk s h owner 0) text in
    elim (Bool-cases (null_path (some path) || owner == 0)) [
      | inl bad ↦ rw (bad, usock_bind) h
      | inr good ↦ elim (Option-cases (find_by_path s (some path))) [
        | inl miss ↦ rw (good, miss, usock_bind) made
        | inr (i, e) ↦ rw (good, e, usock_bind) h
      ]
    ]

close_socket-IpcOk : (s : Ipc) (path : Option (List ℕ)) → IpcOk s → IpcOk (usock_close s path).0
unfolding usock_close
close_socket-IpcOk s path h = elim (Option-cases (find_by_path s path)) [
  | inl miss ↦ rw (miss, usock_close) h
  | inr (i, e) ↦
      let cid = (usock_at s i).cid in
      rw (e, usock_close)
        (put_usock-IpcOk (channel_close s cid) (close-IpcOk s h cid) i zero_usock
          (record { text = tt; short = omega arith }))
]

Step-IpcOk : {s t : Ipc} → Step s t → IpcOk s → IpcOk t
Step-IpcOk {s} (call message_at bytes_at num a1 a2 a3) h =
    syscall-IpcOk message_at bytes_at s h num a1 a2 a3
Step-IpcOk {s} (bind path owner text) h = bind-IpcOk s path owner h text
Step-IpcOk {s} (connect path peer) h = connect-IpcOk s h path peer
Step-IpcOk {s} (send_to path buf len) h = send_to-IpcOk s h path buf len
Step-IpcOk {s} (recv_from path has_buf n) h = recv_from-IpcOk s h path has_buf n
Step-IpcOk {s} (close path) h = close_socket-IpcOk s path h

-- In every state that the kernel's IPC can reach, each ring's indices are in range and agree, no
-- process has two queues, the number of queues in use is the one that the statistics show, and every
-- socket's path is a text of at most 31 bytes.
pub Reach-IpcOk : {s : Ipc} → Reach s → IpcOk s
Reach-IpcOk start = init-IpcOk
Reach-IpcOk (next r step) = Step-IpcOk step (Reach-IpcOk r)

-- ===== src/Ipc/Syscall/Inv.antt =====
-- Every table of kernel/ipc/ipc.c stays well formed under any sequence of calls.
use vernis_os.Prelude.{
  ℕ, ◌≡◌, ◌∙◌, ap, inl, inr, ◌||◌, Bool, true, Option, none, some, List, arith, ◌==◌, length,
  Bool-cases,
}
use vernis_os.Ipc.State.{Ipc, Ret, ok, Message}
use vernis_os.Ipc.Queues.{
  find_by_pid, claim, claim_at, queue_create, queue_destroy, release, locate, make_message, post,
  send, send_located, recv,
}
use vernis_os.Ipc.Queues.Find.{find_by_pid_keeps}
use vernis_os.Ipc.Queues.Inv.{
  QueuesOk, queue_create-QueuesOk, queue_destroy-QueuesOk, recv-QueuesOk,
}
use vernis_os.Ipc.Queues.Send.{send-QueuesOk}
use vernis_os.Ipc.Channels.{channel_create, open_at, channel_write, channel_read, channel_close}
use vernis_os.Ipc.Channels.Transfer.{
  ChannelsOk, channel_create-ChannelsOk, channel_write-ChannelsOk, channel_read-ChannelsOk,
  channel_close-ChannelsOk,
}
use vernis_os.Ipc.Sockets.Paths.{SocketsOk}
use vernis_os.Ipc.Syscall.{sys_send, sys_recv, sys_chan_write, sys_chan_read, syscall}

pub record IpcOk (s : Ipc) : Type 0 where
  pub queues : QueuesOk s
  pub channels : ChannelsOk s
  pub sockets : SocketsOk s

-- What the channel calls leave alone.
record SameQueues (s t : Ipc) : Type 0 where
  queues : t.queues ≡ s.queues
  cache : t.pid_to_qid ≡ s.pid_to_qid
  active : t.stats.queues_active ≡ s.stats.queues_active
  usocks : t.usocks ≡ s.usocks

-- What the queue calls leave alone.
record SameChannels (s t : Ipc) : Type 0 where
  channels : t.channels ≡ s.channels
  usocks : t.usocks ≡ s.usocks

SameQueues-Ok : (s t : Ipc) → SameQueues s t → IpcOk s → ChannelsOk t → IpcOk t
SameQueues-Ok s t e h c = record {
  queues = record {
    size = ap length e.queues ∙ h.queues.size;
    cache = ap length e.cache ∙ h.queues.cache;
    each = rw e.queues h.queues.each;
    unique = λ i j. ground (arith, h.queues.unique i j, e.queues);
    active = rw (e.queues, e.active) h.queues.active;
  };
  channels = c;
  sockets = record {
    size = ap length e.usocks ∙ h.sockets.size;
    each = rw e.usocks h.sockets.each;
  };
}

SameChannels-Ok : (s t : Ipc) → SameChannels s t → IpcOk s → QueuesOk t → IpcOk t
SameChannels-Ok s t e h q = record {
  queues = q;
  channels = record {
    size = ap length e.channels ∙ h.channels.size;
    each = rw e.channels h.channels.each;
  };
  sockets = record {
    size = ap length e.usocks ∙ h.sockets.size;
    each = rw e.usocks h.sockets.each;
  };
}

create_same : (s : Ipc) (owner peer : ℕ) → SameQueues s (channel_create s owner peer).0
unfolding channel_create open_at
create_same s owner peer = ground arith

write_same :
    (s : Ipc) (cid len : ℕ) (ptr : Option (List ℕ)) → SameQueues s (channel_write s cid ptr len).0
unfolding channel_write
write_same s cid len none = ground arith
write_same s cid len (some bytes) = ground arith

read_same : (s : Ipc) (cid n : ℕ) (has_buf : Bool) → SameQueues s (channel_read s cid has_buf n).0
unfolding channel_read
read_same s cid n has_buf = ground arith

close_same : (s : Ipc) (cid : ℕ) → SameQueues s (channel_close s cid)
unfolding channel_close
close_same s cid = ground arith

queue_create_same : (s : Ipc) (pid : ℕ) → SameChannels s (queue_create s pid).0
unfolding queue_create claim claim_at
queue_create_same s pid = ground (arith, find_by_pid_keeps s pid)

queue_destroy_same : (s : Ipc) (qid : ℕ) → SameChannels s (queue_destroy s qid)
unfolding queue_destroy release
queue_destroy_same s qid = ground arith

recv_same : (s : Ipc) (qid : ℕ) (has_out : Bool) → SameChannels s (recv s qid has_out).0
unfolding recv
recv_same s qid has_out = ground arith

locate_same : (s : Ipc) (pid : ℕ) → SameChannels s (locate s pid).0
unfolding locate
locate_same s pid =
    ground (arith, find_by_pid_keeps s pid, queue_create_same (find_by_pid s pid).0 pid)

send_located_same : (x : Ipc × Ret) (m : Message) → SameChannels x.0 (send_located x m).0
unfolding send_located post
send_located_same (s, ok qid) m = ground arith
send_located_same (s, _) m = ground arith

send_same :
    (s : Ipc) (src dst type len : ℕ) (ptr : Option (List ℕ))
    → SameChannels s (send s src dst type ptr len).0
unfolding send
send_same s src dst type len none = ground arith
send_same s src dst type len (some bytes) = ground (
  arith,
  locate_same s dst,
  send_located_same (locate s dst) (make_message src dst type bytes len),
)

module _ (s : Ipc) (h : IpcOk s) where
  pub write-IpcOk : (cid len : ℕ) (ptr : Option (List ℕ)) → IpcOk (channel_write s cid ptr len).0
  write-IpcOk cid len ptr =
      SameQueues-Ok s (channel_write s cid ptr len).0 (write_same s cid len ptr) h
        (channel_write-ChannelsOk s cid ptr len h.channels)

  pub read-IpcOk : (cid n : ℕ) (has_buf : Bool) → IpcOk (channel_read s cid has_buf n).0
  read-IpcOk cid n has_buf =
      SameQueues-Ok s (channel_read s cid has_buf n).0 (read_same s cid n has_buf) h
        (channel_read-ChannelsOk s cid has_buf n h.channels)

  queue_create-IpcOk : (a1 : ℕ) → IpcOk (queue_create s a1).0
  queue_create-IpcOk a1 =
      SameChannels-Ok s (queue_create s a1).0 (queue_create_same s a1) h
        (queue_create-QueuesOk s a1 h.queues)

  queue_destroy-IpcOk : (a1 : ℕ) → IpcOk (queue_destroy s a1)
  queue_destroy-IpcOk a1 =
      SameChannels-Ok s (queue_destroy s a1) (queue_destroy_same s a1) h
        (queue_destroy-QueuesOk s a1 h.queues)

  pub create-IpcOk : (a1 a2 : ℕ) → IpcOk (channel_create s a1 a2).0
  create-IpcOk a1 a2 =
      SameQueues-Ok s (channel_create s a1 a2).0 (create_same s a1 a2) h
        (channel_create-ChannelsOk s a1 a2 h.channels)

  pub close-IpcOk : (a1 : ℕ) → IpcOk (channel_close s a1)
  close-IpcOk a1 =
      SameQueues-Ok s (channel_close s a1) (close_same s a1) h
        (channel_close-ChannelsOk s a1 h.channels)

module _ (message_at : ℕ → Message) (bytes_at : ℕ → List ℕ) (s : Ipc) (h : IpcOk s) where
  sys_send-IpcOk : (a1 a2 : ℕ) → IpcOk (sys_send message_at bytes_at s a1 a2).0
  unfolding sys_send
  sys_send-IpcOk a1 a2 =
      let m = message_at a2 in
      let t = (send s m.src_pid a1 m.type (some m.payload) m.len).0 in
      let kept =
        SameChannels-Ok s t (send_same s m.src_pid a1 m.type m.len (some m.payload)) h
          (send-QueuesOk s m.src_pid a1 m.type (some m.payload) m.len h.queues) in
      elim (Bool-cases (a2 == 0)) [ inl null ↦ rw null h | inr real ↦ rw real kept ]

  sys_recv-IpcOk : (a1 a2 : ℕ) → IpcOk (sys_recv message_at bytes_at s a1 a2).0
  unfolding sys_recv
  sys_recv-IpcOk a1 a2 =
      let kept =
        SameChannels-Ok s (recv s a1 true).0 (recv_same s a1 true) h
          (recv-QueuesOk s a1 true h.queues) in
      elim (Bool-cases (a2 == 0)) [ inl null ↦ rw null h | inr real ↦ rw real kept ]

  sys_chan_write-IpcOk : (a1 a2 a3 : ℕ) → IpcOk (sys_chan_write message_at bytes_at s a1 a2 a3).0
  unfolding sys_chan_write
  sys_chan_write-IpcOk a1 a2 a3 = elim (Bool-cases (a2 == 0 || a3 == 0)) [
    | inl null ↦ rw null h
    | inr real ↦ rw real (write-IpcOk s h a1 a3 (some (bytes_at a2)))
  ]

  sys_chan_read-IpcOk : (a1 a2 a3 : ℕ) → IpcOk (sys_chan_read message_at bytes_at s a1 a2 a3).0
  unfolding sys_chan_read
  sys_chan_read-IpcOk a1 a2 a3 = elim (Bool-cases (a2 == 0 || a3 == 0)) [
    | inl null ↦ rw null h
    | inr real ↦ rw real (read-IpcOk s h a1 a3 true)
  ]

  -- Any call, with any number and any arguments, keeps every table well formed.
  pub syscall-IpcOk : (num a1 a2 a3 : ℕ) → IpcOk (syscall message_at bytes_at s num a1 a2 a3).0
  unfolding syscall
  syscall-IpcOk num a1 a2 a3 = ground (
    arith,
    sys_send-IpcOk a1 a2,
    sys_recv-IpcOk a1 a2,
    queue_create-IpcOk s h a1,
    queue_destroy-IpcOk s h a1,
    create-IpcOk s h a1 a2,
    sys_chan_write-IpcOk a1 a2 a3,
    sys_chan_read-IpcOk a1 a2 a3,
    close-IpcOk s h a1,
  )

-- ===== src/Ipc/Tests.antt =====
-- Runs of the IPC model, and its theorems at concrete states.
use vernis_os.Prelude.{
  ℕ, zero, suc, ◌-◌, ◌<◌, ◌≡◌, refl, ◌≢◌, true, Option, some, List, [], ◌∷◌, ◌++◌, arith, ◌==◌,
  if◌then◌else◌, replicate, take, drop, min,
}
use vernis_os.Prelude.Find.{find_index, find_from}
use vernis_os.Prelude.Rings.{ring}
use vernis_os.Prelude.Strings.{str_eq}
use vernis_os.Ipc.State.{
  Ipc, Ret, ok, err_full, err_inval, err_noslot, Message, zero_message, init, max_channels,
  chan_buf_size, zero_msgs, zero_payload, err_empty,
}
use vernis_os.Ipc.Queues.{
  owned_by, queue_at, find_by_pid, send, recv, queue_destroy, make_message, cached, scan, claim_at,
  claim, queue_create, release, post, locate, send_located,
}
use vernis_os.Ipc.Queues.Find.{owner, find_by_pid-eq-scan}
use vernis_os.Ipc.Queues.Inv.{QueuesOk, init-QueuesOk}
use vernis_os.Ipc.Queues.Office.{Office, deliver, collect, discard}
use vernis_os.Ipc.Queues.View.{view, messages, box_of}
use vernis_os.Ipc.Queues.Send.{send_refines, send-QueuesOk}
use vernis_os.Ipc.Queues.Receive.{recv_refines, destroy_refines}
use vernis_os.Ipc.Channels.{
  channel_at, open_at, channel_create, write_from, channel_write, read_from, channel_read,
  channel_close,
}
use vernis_os.Ipc.Channels.Stream.{bytes_of}
use vernis_os.Ipc.Channels.Transfer.{
  ChannelsOk, init-ChannelsOk, channel_create-ChannelsOk, channel_write-ChannelsOk,
  channel_write_lem, channel_read_lem, channel_write-read,
}
use vernis_os.Ipc.Channels.Slots.{
  Call, create, close, run, exec, Taken, slots_exhausted, run-ChannelsOk,
}
use vernis_os.Ipc.Sockets.{
  find_by_path, bind_channel, bind_created, usock_bind, usock_connect, usock_send, usock_recv,
  usock_close,
}
use vernis_os.Ipc.Sockets.Paths.{init-SocketsOk, long_path_unreachable}
use vernis_os.Ipc.Sockets.Traffic.{usock_bind-send-recv}
use vernis_os.Ipc.Syscall.{syscall}
use vernis_os.Ipc.Syscall.Inv.{IpcOk}
use vernis_os.Ipc.Syscall.Reach.{start, next, call, bind, Reach-IpcOk}

-- "hi"
abbrev hi : List ℕ
hi = 104 ∷ 105 ∷ []

abbrev one_sent : Ipc
one_sent = (send init 7 5 1 (some hi) 2).0

one_sent-QueuesOk : QueuesOk one_sent
one_sent-QueuesOk = send-QueuesOk init 7 5 1 (some hi) 2 init-QueuesOk

-- What a run computes with.
ipc_code : ℕ
unfolding init zero_msgs zero_payload find_index find_from cached scan find_by_pid claim_at claim
    queue_create release queue_destroy make_message post locate send_located send recv ring box_of
    deliver collect open_at channel_create write_from channel_write read_from channel_read
    channel_close str_eq find_by_path bind_channel bind_created usock_bind usock_connect usock_send
    usock_recv usock_close exec run
ipc_code = 0

one_sent-owner : owner one_sent 0 ≡ 5
unfolding ipc_code
one_sent-owner = refl

send_ok : (send init 7 5 1 (some hi) 2).1 ≡ ok 0
unfolding ipc_code
send_ok = refl

recv_runs :
    let (s, r, out) = recv one_sent 0 true in
    (r ≡ ok 0) × (out ≡ some (make_message 7 5 1 hi 2)) × ((recv s 0 true).1 ≡ err_empty)
unfolding ipc_code
recv_runs = (refl, refl, refl)

Reach-IpcOk_example :
    IpcOk
      (usock_bind (syscall (λ a. zero_message) (λ a. hi) init 24 3 4 0).0 (some (47 ∷ 97 ∷ [])) 3).0
Reach-IpcOk_example = Reach-IpcOk (
    next (next start (call (λ a. zero_message) (λ a. hi) 24 3 4 0))
      (bind (47 ∷ 97 ∷ []) 3 (omega arith)))

send_refines_example :
    let (s', r) = send one_sent 7 5 1 (some hi) 2 in
    ◌≡◌ {A = Office × Ret} (view s', r) (deliver (view one_sent) 5 (make_message 7 5 1 hi 2))
send_refines_example = send_refines one_sent 7 5 1 2 hi one_sent-QueuesOk (omega arith)

recv_refines_example :
    let (s', r, out) = recv one_sent 0 true in
    ◌≡◌ {A = Office × Ret × Option Message}
      (view s', r, out)
      (collect (view one_sent) 5 (messages (queue_at one_sent 0)))
recv_refines_example =
    recv_refines one_sent 0 5 one_sent-QueuesOk (omega arith) (omega arith) one_sent-owner

destroy_refines_example : view (queue_destroy one_sent 0) ≡ discard (view one_sent) 5
destroy_refines_example =
    destroy_refines one_sent 0 5 one_sent-QueuesOk (omega arith) (omega arith) one_sent-owner

find_by_pid-eq-scan_example : (find_by_pid one_sent 5).1 ≡ find_index (owned_by 5) one_sent.queues
find_by_pid-eq-scan_example =
    find_by_pid-eq-scan one_sent 5 one_sent-QueuesOk.size one_sent-QueuesOk.unique (omega arith)

abbrev one_channel : Ipc
one_channel = (channel_create init 3 4).0

one_channel-Ok : ChannelsOk one_channel
one_channel-Ok = channel_create-ChannelsOk init 3 4 init-ChannelsOk

one_channel-live : (channel_at one_channel 0).owner_pid ≢ 0
unfolding ipc_code
one_channel-live = omega arith

abbrev one_written : Ipc
one_written = (channel_write one_channel 0 (some hi) 2).0

channel_write_lem_example :
    let (s', r) = channel_write one_channel 0 (some hi) 2 in
    let n = min 2 (chan_buf_size - (channel_at one_channel 0).count) in
    (r ≡ (if n == 0 then err_full else ok n))
    × (bytes_of (channel_at s' 0) ≡ bytes_of (channel_at one_channel 0) ++ take n hi)
    × ((j : ℕ) → 0 ≢ j → channel_at s' j ≡ channel_at one_channel j)
channel_write_lem_example =
    channel_write_lem one_channel 0 one_channel-Ok (omega arith) one_channel-live hi 2
      (unfold ipc_code in refl) (omega arith) (omega arith)

one_written-facts :
    ((channel_at one_written 0).owner_pid ≢ 0) × (0 < (channel_at one_written 0).count)
unfolding ipc_code
one_written-facts = omega arith

channel_read_lem_example :
    let (s', r, out) = channel_read one_written 0 true 1 in
    (r ≡ ok (min 1 (channel_at one_written 0).count))
    × (out ≡ take 1 (bytes_of (channel_at one_written 0)))
    × (bytes_of (channel_at s' 0) ≡ drop 1 (bytes_of (channel_at one_written 0)))
    × ((j : ℕ) → 0 ≢ j → channel_at s' j ≡ channel_at one_written j)
channel_read_lem_example =
    channel_read_lem one_written 0
      (channel_write-ChannelsOk one_channel 0 (some hi) 2 one_channel-Ok) (omega arith)
      one_written-facts.0 1 (omega arith) one_written-facts.1

channel_write-read_example :
    let (s1, sent) = channel_write one_channel 0 (some hi) 2 in
    let (s2, got, out) = channel_read s1 0 true 2 in
    (sent ≡ ok 2) × (got ≡ ok 2) × (out ≡ hi) × ((channel_at s2 0).count ≡ 0)
channel_write-read_example =
    channel_write-read one_channel 0 2 hi one_channel-Ok (omega arith) one_channel-live
      (unfold ipc_code in refl) (unfold ipc_code in refl) refl (omega arith) (omega arith)

-- All eight slots given out.
abbrev eight : List Call
eight = replicate 8 (create 3 4)

full-Taken : (j : ℕ) → j < max_channels → Taken (run init eight) j
unfolding ipc_code
full-Taken zero lt = omega arith
full-Taken (suc zero) lt = omega arith
full-Taken (suc (suc zero)) lt = omega arith
full-Taken (suc (suc (suc zero))) lt = omega arith
full-Taken (suc (suc (suc (suc zero)))) lt = omega arith
full-Taken (suc (suc (suc (suc (suc zero))))) lt = omega arith
full-Taken (suc (suc (suc (suc (suc (suc zero)))))) lt = omega arith
full-Taken (suc (suc (suc (suc (suc (suc (suc zero))))))) lt = omega arith
full-Taken (suc (suc (suc (suc (suc (suc (suc (suc j)))))))) lt = absurd (omega arith)

full-Ok : ChannelsOk (run init eight)
full-Ok = run-ChannelsOk init eight init-ChannelsOk

slots_exhausted_example :
    (channel_create (run (run init eight) (close 0 ∷ close 1 ∷ [])) 5 6).1 ≡ err_noslot
slots_exhausted_example =
    slots_exhausted (run init eight) (close 0 ∷ close 1 ∷ []) 5 6 full-Ok full-Taken (omega arith)

-- 32 times "a"
abbrev long_path : List ℕ
long_path = replicate 32 97

long_path_binds : (usock_bind init (some long_path) 3).1 ≡ ok 0
unfolding ipc_code
long_path_binds = refl

long_path_unreachable_example :
    ((usock_connect init (some long_path) 4).1 ≡ err_inval)
    × ((usock_send init (some long_path) (some hi) 2).1 ≡ err_inval)
    × ((usock_recv init (some long_path) true 2).1 ≡ err_inval)
    × ((usock_close init (some long_path)).1 ≡ err_inval)
long_path_unreachable_example =
    long_path_unreachable init long_path 4 2 2 (some hi) true init-SocketsOk (omega arith)
      (omega arith)

-- "/a"
abbrev path : List ℕ
path = 47 ∷ 97 ∷ []

path_binds : (usock_bind init (some path) 3).1 ≡ ok 0
unfolding ipc_code
path_binds = refl

usock_bind-send-recv_example :
    let t = (usock_bind init (some path) 3).0 in
    let (t1, sent) = usock_send t (some path) (some hi) 2 in
    let (t2, got, out) = usock_recv t1 (some path) true 2 in
    (sent ≡ ok 2) × (got ≡ ok 2) × (out ≡ hi)
usock_bind-send-recv_example =
    usock_bind-send-recv init path hi 3 0 2 init-ChannelsOk init-SocketsOk (omega arith)
      (omega arith) (omega arith) refl (omega arith) (omega arith) (omega arith) path_binds

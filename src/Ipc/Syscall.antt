-- ===== src/Ipc/Syscall.antt =====
-- `ipc_syscall` of kernel/ipc/ipc.c: the calls of a process. The memory of the process is read through
-- the parameters; what a call stores there is part of its result.
pub mod Inv
pub mod Reach
use vernis_os.Prelude.{ℕ, Bool, true, not, ◌||◌, Option, none, some, List, ◌==◌, if◌then◌else◌}
use vernis_os.Ipc.State.{Ret, ok, err_inval, Message, Ipc}
use vernis_os.Ipc.Queues.{queue_create, queue_destroy, send, recv}
use vernis_os.Ipc.Channels.{channel_create, channel_write, channel_read, channel_close}

-- What is stored at the address `a2`.
pub data Stored : Type 0 where
  nothing : Stored
  message : (addr : ℕ) → Message → Stored
  bytes : (addr : ℕ) → List ℕ → Stored

abbrev pub stored_message : ℕ → Option Message → Stored
stored_message addr none = nothing
stored_message addr (some m) = message addr m

abbrev pub Reply : Type 0
Reply = Ipc × Ret × Stored

-- `message_at` and `bytes_at` read the memory of the process.
module _ (message_at : ℕ → Message) (bytes_at : ℕ → List ℕ) where
  -- `SYS_IPC_SEND`
  unfoldable pub sys_send : Ipc → ℕ → ℕ → Reply
  sys_send s a1 a2 =
      let m = message_at a2 in
      let (s', r) = send s m.src_pid a1 m.type (some m.payload) m.len in
      if a2 == 0 then (s, err_inval, nothing) else (s', r, nothing)

  -- `SYS_IPC_RECV`
  unfoldable pub sys_recv : Ipc → ℕ → ℕ → Reply
  sys_recv s a1 a2 =
      let (s', r, out) = recv s a1 true in
      if a2 == 0 then (s, err_inval, nothing) else (s', r, stored_message a2 out)

  -- `SYS_IPC_CHAN_WRITE`
  unfoldable pub sys_chan_write : Ipc → ℕ → ℕ → ℕ → Reply
  sys_chan_write s a1 a2 a3 =
      let (s', r) = channel_write s a1 (some (bytes_at a2)) a3 in
      if a2 == 0 || a3 == 0 then (s, err_inval, nothing) else (s', r, nothing)

  -- `SYS_IPC_CHAN_READ`
  unfoldable pub sys_chan_read : Ipc → ℕ → ℕ → ℕ → Reply
  sys_chan_read s a1 a2 a3 =
      let (s', r, out) = channel_read s a1 true a3 in
      if a2 == 0 || a3 == 0 then (s, err_inval, nothing) else (s', r, bytes a2 out)

  -- The calls 20 to 27; any other number is refused.
  unfoldable pub syscall : Ipc → (num a1 a2 a3 : ℕ) → Reply
  syscall s num a1 a2 a3 =
      if num == 20
      then sys_send s a1 a2
      else if num == 21
      then sys_recv s a1 a2
      else if num == 22
      then (let (s', r) = queue_create s a1 in (s', r, nothing))
      else if num == 23
      then (queue_destroy s a1, ok 0, nothing)
      else if num == 24
      then (let (s', r) = channel_create s a1 a2 in (s', r, nothing))
      else if num == 25
      then sys_chan_write s a1 a2 a3
      else if num == 26
      then sys_chan_read s a1 a2 a3
      else if num == 27
      then (channel_close s a1, ok 0, nothing)
      else (s, err_inval, nothing)

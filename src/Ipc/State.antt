-- ===== src/Ipc/State.antt =====
-- The static tables of kernel/ipc/ipc.c and the types of include/ipc.h.
use vernis_os.Prelude.{ℕ, List, [], Option, none, Bool, false, replicate}

abbrev pub max_queues : ℕ
max_queues = 16

abbrev pub queue_depth : ℕ
queue_depth = 16

abbrev pub msg_payload : ℕ
msg_payload = 48

abbrev pub max_channels : ℕ
max_channels = 8

abbrev pub chan_buf_size : ℕ
chan_buf_size = 512

abbrev pub max_usockets : ℕ
max_usockets = 8

abbrev pub usock_path_max : ℕ
usock_path_max = 32

abbrev pub pid_cache_size : ℕ
pid_cache_size = 256

-- An `int32_t` result: a value that is not negative (`IPC_OK` is `ok 0`), or an error code.
pub data Ret : Type 0 where
  ok : ℕ → Ret
  err_full err_empty err_inval err_noslot : Ret

-- `IpcMessage`; the field `data` of the source is `payload`.
pub record Message : Type 0 where
  pub src_pid : ℕ
  pub dst_pid : ℕ
  pub type : ℕ
  pub len : ℕ
  pub payload : List ℕ

pub record Queue : Type 0 where
  pub owner_pid : ℕ
  pub head : ℕ
  pub tail : ℕ
  pub count : ℕ
  pub msgs : List Message

pub record Channel : Type 0 where
  pub owner_pid : ℕ
  pub peer_pid : ℕ
  pub buf : List ℕ
  pub head : ℕ
  pub tail : ℕ
  pub count : ℕ
  pub closed : Bool

pub record Stats : Type 0 where
  pub queues_active : ℕ
  pub channels_active : ℕ
  pub messages_sent : ℕ
  pub messages_dropped : ℕ

-- `IpcUnixSocket`; `path` holds the bytes up to the terminator.
pub record UnixSocket : Type 0 where
  pub used : Bool
  pub cid : ℕ
  pub owner_pid : ℕ
  pub path : List ℕ

-- The global state. An entry -1 of the cache is `none`.
pub record Ipc : Type 0 where
  pub queues : List Queue
  pub channels : List Channel
  pub stats : Stats
  pub usocks : List UnixSocket
  pub pid_to_qid : List (Option ℕ)

-- What `ipc_memset(…, 0, …)` leaves of each. The long arrays stay shut.
unfoldable pub zero_payload : List ℕ
zero_payload = replicate msg_payload 0

abbrev pub zero_message : Message
zero_message = record { src_pid = 0; dst_pid = 0; type = 0; len = 0; payload = zero_payload }

unfoldable pub zero_msgs : List Message
zero_msgs = replicate queue_depth zero_message

abbrev pub zero_queue : Queue
zero_queue = record { owner_pid = 0; head = 0; tail = 0; count = 0; msgs = zero_msgs }

unfoldable pub zero_buf : List ℕ
zero_buf = replicate chan_buf_size 0

abbrev pub zero_channel : Channel
zero_channel = record {
  owner_pid = 0;
  peer_pid = 0;
  buf = zero_buf;
  head = 0;
  tail = 0;
  count = 0;
  closed = false;
}

abbrev pub zero_stats : Stats
zero_stats = record {
  queues_active = 0;
  channels_active = 0;
  messages_sent = 0;
  messages_dropped = 0;
}

abbrev pub zero_usock : UnixSocket
zero_usock = record { used = false; cid = 0; owner_pid = 0; path = [] }

-- `ipc_init`
unfoldable pub init : Ipc
init = record {
  queues = replicate max_queues zero_queue;
  channels = replicate max_channels zero_channel;
  stats = zero_stats;
  usocks = replicate max_usockets zero_usock;
  pid_to_qid = replicate pid_cache_size none;
}

-- ===== src/Ipc/Queues.antt =====
-- The message queues of kernel/ipc/ipc.c. An operation returns the new state and its result.
pub mod Find
pub mod Inv
pub mod Office
pub mod View
pub mod Refine
pub mod Send
pub mod Receive
use vernis_os.Prelude.{
  ℕ, ◌+◌, ◌-◌, ◌%◌, Bool, ◌&&◌, ◌||◌, not, Option, none, some, List, ◌++◌, ltb, leb, ◌==◌,
  if◌then◌else◌, get_or, set, take, replicate,
}
use vernis_os.Prelude.Find.{find_index}
use vernis_os.Prelude.Words.{u32}
use vernis_os.Ipc.State.{
  Ret, ok, err_full, err_empty, err_inval, err_noslot, Message, Queue, Ipc, zero_message,
  zero_queue, max_queues, queue_depth, msg_payload, pid_cache_size,
}

abbrev pub owned_by : ℕ → Queue → Bool
owned_by pid q = q.owner_pid == pid

abbrev pub queue_at : Ipc → ℕ → Queue
queue_at s i = get_or s.queues i zero_queue

-- `g_queues[i] = q`
abbrev pub put_queue : Ipc → ℕ → Queue → Ipc
put_queue s i q = record s { queues = set s.queues i q }

-- `if (pid < IPC_PID_CACHE_SIZE) g_pid_to_qid[pid] = qid`
abbrev pub remember : Ipc → ℕ → Option ℕ → Ipc
remember s pid qid =
    if ltb pid pid_cache_size then record s { pid_to_qid = set s.pid_to_qid pid qid } else s

-- The cache's answer, taken only if that queue still belongs to `pid`.
unfoldable pub cached : Ipc → ℕ → Option ℕ
cached s pid =
    if ltb pid pid_cache_size
    then elim (get_or s.pid_to_qid pid none) [
      | none ↦ none
      | some qid ↦ if ltb qid max_queues && owned_by pid (queue_at s qid) then some qid else none
    ]
    else none

-- The linear scan, which refreshes the cache.
unfoldable pub scan : Ipc → ℕ → Ipc × Option ℕ
scan s pid = elim (find_index (owned_by pid) s.queues) [
  | none ↦ (s, none)
  | some i ↦ (remember s pid (some i), some i)
]

-- `queue_find_by_pid`; -1 is `none`.
unfoldable pub find_by_pid : Ipc → ℕ → Ipc × Option ℕ
find_by_pid s pid = elim (cached s pid) [ some qid ↦ (s, some qid) | none ↦ scan s pid ]

-- The free slot `i` becomes the queue of `pid`.
unfoldable pub claim_at : Ipc → ℕ → ℕ → Ipc
claim_at s pid i =
    let s' = remember (put_queue s i (record zero_queue { owner_pid = pid })) pid (some i) in
    record s' { stats = record s'.stats { queues_active = u32 (s'.stats.queues_active + 1) } }

-- The loop of `ipc_queue_create` over the free slots.
unfoldable pub claim : Ipc → ℕ → Ipc × Ret
claim s pid = elim (find_index (owned_by 0) s.queues) [
  | none ↦ (s, err_noslot)
  | some i ↦ (claim_at s pid i, ok i)
]

unfoldable pub queue_create : Ipc → ℕ → Ipc × Ret
queue_create s pid =
    if pid == 0
    then (s, err_inval)
    else (let (s', existing) = find_by_pid s pid in
        elim existing [ some i ↦ (s', ok i) | none ↦ claim s' pid ])

-- Slot `qid`, which has an owner, becomes free.
unfoldable pub release : Ipc → ℕ → Ipc
release s qid =
    let s' = put_queue (remember s (queue_at s qid).owner_pid none) qid zero_queue in
    if s'.stats.queues_active == 0
    then s'
    else record s' { stats = record s'.stats { queues_active = s'.stats.queues_active - 1 } }

unfoldable pub queue_destroy : Ipc → ℕ → Ipc
queue_destroy s qid =
    if leb max_queues qid then s else if (queue_at s qid).owner_pid == 0 then s else release s qid

-- `m->data` after the `memset` and the `memcpy` of `len` bytes, `len` at most the payload's size.
abbrev pub fill_payload : List ℕ → ℕ → List ℕ
fill_payload bytes len = take len bytes ++ replicate (msg_payload - len) 0

-- The message that `ipc_send` writes; a longer `len` is cut.
unfoldable pub make_message : ℕ → ℕ → ℕ → List ℕ → ℕ → Message
make_message src dst type bytes len =
    let n = if ltb msg_payload len then msg_payload else len in
    record { src_pid = src; dst_pid = dst; type = type; len = n; payload = fill_payload bytes n }

-- A queue after `msgs[tail] = m; tail = (tail + 1) % depth; count++`.
abbrev pub enqueue : Queue → Message → Queue
enqueue q m = record q {
  msgs = set q.msgs q.tail m;
  tail = (q.tail + 1) % queue_depth;
  count = u32 (q.count + 1);
}

abbrev pub count_drop : Ipc → Ipc
count_drop s = record s {
  stats = record s.stats { messages_dropped = u32 (s.stats.messages_dropped + 1) };
}

abbrev pub count_sent : Ipc → Ipc
count_sent s = record s {
  stats = record s.stats { messages_sent = u32 (s.stats.messages_sent + 1) };
}

-- `ipc_send` once the queue is known.
unfoldable pub post : Ipc → ℕ → Message → Ipc × Ret
post s qid m =
    if leb queue_depth (queue_at s qid).count
    then (count_drop s, err_full)
    else (count_sent (put_queue s qid (enqueue (queue_at s qid) m)), ok 0)

-- The queue of `dst`, made if there is none.
unfoldable pub locate : Ipc → ℕ → Ipc × Ret
locate s dst =
    let (s', found) = find_by_pid s dst in
    elim found [ some i ↦ (s', ok i) | none ↦ queue_create s' dst ]

-- `ipc_send` after the search: `qid < 0` drops the message.
unfoldable pub send_located : Ipc × Ret → Message → Ipc × Ret
send_located (s, ok qid) m = post s qid m
send_located (s, _) m = (count_drop s, err_noslot)

-- `data` is the memory that the pointer leads to, `none` for NULL.
unfoldable pub send : Ipc → (src dst type : ℕ) → Option (List ℕ) → ℕ → Ipc × Ret
send s src dst type none len = (s, err_inval)
send s src dst type (some bytes) len =
    if dst == 0
    then (s, err_inval)
    else send_located (locate s dst) (make_message src dst type bytes len)

-- A queue after `head = (head + 1) % depth; count--`.
abbrev pub dequeue : Queue → Queue
dequeue q = record q { head = (q.head + 1) % queue_depth; count = q.count - 1 }

-- The message goes through `out`; `has_out` says that `out` is not NULL.
unfoldable pub recv : Ipc → ℕ → Bool → Ipc × Ret × Option Message
recv s qid has_out =
    if leb max_queues qid || not has_out
    then (s, err_inval, none)
    else (let q = queue_at s qid in
        if q.owner_pid == 0
        then (s, err_inval, none)
        else if q.count == 0
        then (s, err_empty, none)
        else (put_queue s qid (dequeue q), ok 0, some (get_or q.msgs q.head zero_message)))

unfoldable pub queue_count : Ipc → ℕ → Ret
queue_count s qid =
    if leb max_queues qid
    then err_inval
    else if (queue_at s qid).owner_pid == 0
    then err_inval
    else ok (queue_at s qid).count

-- ===== src/Ipc/Queues/Inv.antt =====
-- The invariant of the queue table of kernel/ipc/ipc.c, and that its operations keep it.
use vernis_os.Prelude.{
  ℕ, ◌+◌, ◌%◌, ◌≤◌, ◌<◌, ◌≡◌, refl, ◌∙◌, ap, ◌≢◌, inl, inr, Bool, not, none, some, arith, ◌==◌, leb,
  ==_iff, if◌then◌else◌, length, length-set, get_or-set, get_or-replicate, Bool-cases, Option-cases,
  All, All-set, All-replicate, All-get_default,
}
use vernis_os.Prelude.Find.{find_index, find_index-Hit, count_if, count_if-set, count_if-le}
use vernis_os.Ipc.State.{
  Queue, Ipc, Message, zero_queue, max_queues, queue_depth, pid_cache_size, init, zero_msgs,
}
use vernis_os.Ipc.Queues.{
  owned_by, queue_at, put_queue, find_by_pid, claim_at, claim, release, queue_create, queue_destroy,
  post, locate, recv, enqueue, dequeue, count_drop, count_sent,
}
use vernis_os.Ipc.Queues.Find.{owner, Unique, find_by_pid-none, find_by_pid_keeps}

-- One ring: the indices are in range and agree.
pub record QueueOk (q : Queue) : Type 0 where
  pub head_in : q.head < queue_depth
  pub fits : q.count ≤ queue_depth
  pub tail_at : q.tail ≡ (q.head + q.count) % queue_depth
  pub slots : length q.msgs ≡ queue_depth

-- What the searches rely on.
pub record Table (s : Ipc) : Type 0 where
  pub size : length s.queues ≡ max_queues
  pub unique : Unique s

abbrev pub owned : Queue → Bool
owned q = not (q.owner_pid == 0)

pub record QueuesOk (s : Ipc) : Type 0 where
  pub size : length s.queues ≡ max_queues
  pub cache : length s.pid_to_qid ≡ pid_cache_size
  pub each : All QueueOk s.queues
  pub unique : Unique s
  pub active : s.stats.queues_active ≡ count_if owned s.queues

pub QueuesOk-Table : {s : Ipc} → QueuesOk s → Table s
QueuesOk-Table h = record { size = h.size; unique = h.unique }

zero_queue-QueueOk : (pid : ℕ) → QueueOk (record zero_queue { owner_pid = pid })
unfolding zero_msgs
zero_queue-QueueOk pid = ground arith

owner-init : (i : ℕ) → owner init i ≡ 0
unfolding init
owner-init i = rw (get_or-replicate 16 i zero_queue)

-- The table that `ipc_init` makes is well formed.
pub init-QueuesOk : QueuesOk init
unfolding init count_if
init-QueuesOk = record {
  size = refl;
  cache = refl;
  each = All-replicate QueueOk 16 zero_queue (zero_queue-QueueOk 0);
  unique = λ i j _ _ ne _. absurd (ne (owner-init i));
  active = refl;
}

pub queue_at-put :
    (s : Ipc) (i j : ℕ) (q : Queue)
    → i < length s.queues
    → queue_at (put_queue s i q) j ≡ (if i == j then q else queue_at s j)
queue_at-put s i j q lt = get_or-set s.queues i j q zero_queue lt

module _ (s : Ipc) (i : ℕ) (q : Queue) (t : Table s) (lt : i < max_queues) where
  inside : i < length s.queues
  inside = omega (arith, t.size)

  -- A queue is replaced by one of the same owner.
  pub put_queue-Table_same : q.owner_pid ≡ owner s i → Table (put_queue s i q)
  put_queue-Table_same same = record {
    size = length-set s.queues i q ∙ t.size;
    unique = λ a b ha hb ne e.
        ground (arith, t.unique a b, queue_at-put s i a q inside, queue_at-put s i b q inside);
  }

  -- A queue is replaced by one of an owner that has no other.
  pub put_queue-Table_new :
      ((j : ℕ) → j < max_queues → owner s j ≢ q.owner_pid) → Table (put_queue s i q)
  put_queue-Table_new fresh = record {
    size = length-set s.queues i q ∙ t.size;
    unique = λ a b ha hb ne e. ground (
      arith,
      t.unique a b,
      fresh a,
      fresh b,
      queue_at-put s i a q inside,
      queue_at-put s i b q inside,
    );
  }

  -- A queue is freed.
  pub put_queue-Table_free : q.owner_pid ≡ 0 → Table (put_queue s i q)
  put_queue-Table_free free = record {
    size = length-set s.queues i q ∙ t.size;
    unique = λ a b ha hb ne e.
        ground (arith, t.unique a b, queue_at-put s i a q inside, queue_at-put s i b q inside);
  }

module _ (s : Ipc) (i : ℕ) (q : Queue) (h : QueuesOk s) (lt : i < max_queues)
    (good : QueueOk q) where
  room : i < length s.queues
  room = omega (arith, h.size)

  -- The owner stays: `ipc_send` and `ipc_recv`.
  pub put_queue-QueuesOk : q.owner_pid ≡ owner s i → QueuesOk (put_queue s i q)
  put_queue-QueuesOk same = record {
    size = length-set s.queues i q ∙ h.size;
    cache = h.cache;
    each = All-set QueueOk s.queues i q good h.each;
    unique = (put_queue-Table_same s i q (QueuesOk-Table h) lt same).unique;
    active = ground (arith, h.active, count_if-set owned s.queues zero_queue q i room);
  }

pub find_by_pid-QueuesOk : (s : Ipc) (pid : ℕ) → QueuesOk s → QueuesOk (find_by_pid s pid).0
find_by_pid-QueuesOk s pid h =
    let (queues, channels, stats, usocks, cache) = find_by_pid_keeps s pid in
    record {
      size = ap length queues ∙ h.size;
      cache = cache ∙ h.cache;
      each = rw queues h.each;
      unique = λ i j. ground (arith, h.unique i j, find_by_pid_keeps s pid);
      active = rw (queues, stats) h.active;
    }

module _ (s : Ipc) (pid i : ℕ) (h : QueuesOk s) (lt : i < max_queues) where
  room' : i < length s.queues
  room' = omega (arith, h.size)

  pub claim_at-QueuesOk :
      pid ≢ 0
      → owner s i ≡ 0
      → ((j : ℕ) → j < max_queues → owner s j ≢ pid)
      → QueuesOk (claim_at s pid i)
  unfolding claim_at
  claim_at-QueuesOk ne free fresh =
      let q = record zero_queue { owner_pid = pid } in
      record {
        size = ground (arith, length-set s.queues i q, h.size);
        cache = ground (arith, length-set s.pid_to_qid pid (some i), h.cache);
        each = ground (arith, All-set QueueOk s.queues i q (zero_queue-QueueOk pid) h.each);
        unique = λ a b.
            ground (arith, (put_queue-Table_new s i q (QueuesOk-Table h) lt fresh).unique a b);
        active = ground (
          arith,
          h.active,
          h.size,
          count_if-set owned s.queues zero_queue q i room',
          count_if-le owned s.queues,
        );
      }

  pub release-QueuesOk : owner s i ≢ 0 → QueuesOk (release s i)
  unfolding release
  release-QueuesOk busy = record {
    size = ground (arith, length-set s.queues i zero_queue, h.size);
    cache = ground (arith, length-set s.pid_to_qid (owner s i) none, h.cache);
    each = ground (arith, All-set QueueOk s.queues i zero_queue (zero_queue-QueueOk 0) h.each);
    unique = λ a b.
        ground (arith, (put_queue-Table_free s i zero_queue (QueuesOk-Table h) lt refl).unique a b);
    active = ground (arith, h.active, count_if-set owned s.queues zero_queue zero_queue i room');
  }

pub free_slot :
    (s : Ipc) (i : ℕ)
    → QueuesOk s
    → find_index (owned_by 0) s.queues ≡ some i
    → (i < max_queues) × (owner s i ≡ 0)
free_slot s i h e =
    let hit = find_index-Hit (owned_by 0) s.queues zero_queue i e in
    (omega (arith, hit.inside, h.size), (==_iff _ _).0 hit.passes)

claim-QueuesOk :
    (s : Ipc) (pid : ℕ)
    → pid ≢ 0
    → ((j : ℕ) → j < max_queues → owner s j ≢ pid)
    → QueuesOk s
    → QueuesOk (claim s pid).0
unfolding claim
claim-QueuesOk s pid ne fresh h = elim (Option-cases (find_index (owned_by 0) s.queues)) [
  | inl full ↦ rw (full, claim) h
  | inr (i, e) ↦
      let (lt, free) = free_slot s i h e in
      rw (e, claim) (claim_at-QueuesOk s pid i h lt ne free fresh)
]

-- After a search that failed the process has no queue.
pub find_by_pid-fresh :
    (s : Ipc) (pid : ℕ)
    → QueuesOk s
    → (find_by_pid s pid).1 ≡ none
    → (j : ℕ) → j < max_queues
    → owner (find_by_pid s pid).0 j ≢ pid
find_by_pid-fresh s pid h miss j lt =
    ground (arith, find_by_pid_keeps s pid, find_by_pid-none s pid j h.size miss lt)

-- `ipc_queue_create` keeps the invariant.
pub queue_create-QueuesOk : (s : Ipc) (pid : ℕ) → QueuesOk s → QueuesOk (queue_create s pid).0
unfolding queue_create
queue_create-QueuesOk s pid h = elim (Bool-cases (pid == 0)) [
  | inl null ↦ rw null h
  | inr real ↦ elim (Option-cases (find_by_pid s pid).1) [
    | inl miss ↦
        rw (real, miss)
          (claim-QueuesOk (find_by_pid s pid).0 pid (ground arith) (find_by_pid-fresh s pid h miss)
            (find_by_pid-QueuesOk s pid h))
    | inr (i, hit) ↦ rw (real, hit) (find_by_pid-QueuesOk s pid h)
  ]
]

-- `ipc_queue_destroy` keeps the invariant.
pub queue_destroy-QueuesOk : (s : Ipc) (qid : ℕ) → QueuesOk s → QueuesOk (queue_destroy s qid)
unfolding queue_destroy
queue_destroy-QueuesOk s qid h = grind (arith, release-QueuesOk)

pub locate-QueuesOk : (s : Ipc) (dst : ℕ) → QueuesOk s → QueuesOk (locate s dst).0
unfolding locate
locate-QueuesOk s dst h = grind (arith, find_by_pid-QueuesOk, queue_create-QueuesOk)

pub enqueue-QueueOk :
    (q : Queue) (m : Message) → QueueOk q → q.count < queue_depth → QueueOk (enqueue q m)
enqueue-QueueOk q m h lt = ground (arith, length-set q.msgs q.tail m)

pub dequeue-QueueOk : (q : Queue) → QueueOk q → 0 < q.count → QueueOk (dequeue q)
dequeue-QueueOk q h lt = ground arith

pub queue_at-QueueOk : (s : Ipc) (i : ℕ) → QueuesOk s → QueueOk (queue_at s i)
queue_at-QueueOk s i h = All-get_default QueueOk s.queues i zero_queue (zero_queue-QueueOk 0) h.each

pub count_drop-QueuesOk : (s : Ipc) → QueuesOk s → QueuesOk (count_drop s)
count_drop-QueuesOk s h = record {
  size = h.size;
  cache = h.cache;
  each = h.each;
  unique = h.unique;
  active = h.active;
}

count_sent-QueuesOk : (s : Ipc) → QueuesOk s → QueuesOk (count_sent s)
count_sent-QueuesOk s h = record {
  size = h.size;
  cache = h.cache;
  each = h.each;
  unique = h.unique;
  active = h.active;
}

pub post-QueuesOk :
    (s : Ipc) (qid : ℕ) (m : Message) → qid < max_queues → QueuesOk s → QueuesOk (post s qid m).0
unfolding post
post-QueuesOk s qid m lt h = elim (Bool-cases (leb queue_depth (queue_at s qid).count)) [
  | inl full ↦ rw full (count_drop-QueuesOk s h)
  | inr free ↦
      let q = queue_at s qid in
      rw free (
        count_sent-QueuesOk (put_queue s qid (enqueue q m)) (
          put_queue-QueuesOk s qid (enqueue q m) h lt
            (enqueue-QueueOk q m (queue_at-QueueOk s qid h) (ground arith)) refl))
]

-- `ipc_recv` keeps the invariant.
pub recv-QueuesOk :
    (s : Ipc) (qid : ℕ) (has_out : Bool) → QueuesOk s → QueuesOk (recv s qid has_out).0
unfolding recv
recv-QueuesOk s qid has_out h = ground (
  arith,
  put_queue-QueuesOk s qid (dequeue (queue_at s qid)) h,
  dequeue-QueueOk (queue_at s qid) (queue_at-QueueOk s qid h),
)

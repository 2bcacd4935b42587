-- ===== src/Ipc/Queues/Refine.antt =====
-- `ipc_send`, `ipc_recv` and `ipc_queue_destroy` of kernel/ipc/ipc.c against the office of boxes.
use vernis_os.Prelude.{
  ℕ, suc, ◌+◌, ◌<◌, ◌≡◌, refl, ◌∙◌, ap, ◌≢◌, inl, inr, none, some, List, [], ◌∷◌, ◌++◌, arith, leb,
  if◌then◌else◌, length, Bool-cases,
}
use mathlib.Core.Path.{fun_ext}
use vernis_os.Prelude.Words.{u32}
use vernis_os.Prelude.Find.{
  find_index, find_index-Hit, count_if-none, count_if-complement, count_if-le, count_if-pos,
}
use vernis_os.Prelude.Rings.{ring, length-ring, ring-set_end}
use vernis_os.Ipc.State.{
  Queue, Ipc, Message, Ret, ok, err_noslot, err_full, zero_queue, zero_message, max_queues,
  queue_depth,
}
use vernis_os.Ipc.Queues.{owned_by, queue_at, put_queue, claim_at, post, enqueue}
use vernis_os.Ipc.Queues.Find.{owner}
use vernis_os.Ipc.Queues.Inv.{
  claim_at-QueuesOk, put_queue-Table_new, put_queue-Table_same, QueuesOk-Table, QueuesOk, QueueOk,
  owned, queue_at-put, queue_at-QueueOk,
}
use vernis_os.Ipc.Queues.Office.{Office, update, deliver}
use vernis_os.Ipc.Queues.View.{messages, box_of, box_of-some, box_of-put, view}

-- Only the table of queues decides the boxes.
pub box_of-queues : (s t : Ipc) → t.queues ≡ s.queues → box_of t ≡ box_of s
unfolding box_of
box_of-queues s t e = ap (λ qs. box_of (record t { queues = qs })) e

pub length-messages : (q : Queue) → length (messages q) ≡ q.count
length-messages q = length-ring zero_message q.msgs queue_depth q.head q.count

-- A message is put behind the others.
pub messages-enqueue :
    (q : Queue) (m : Message)
    → QueueOk q
    → q.count < queue_depth
    → messages (enqueue q m) ≡ messages q ++ m ∷ []
messages-enqueue q m h lt =
    let e : u32 (q.count + 1) ≡ suc q.count = omega arith in
    rw e (
      ring-set_end zero_message q.msgs queue_depth q.head q.count q.tail m (omega (arith, h.slots))
        lt h.tail_at)

pub deliver-known :
    (o : Office) (dst : ℕ) (m : Message) (ms : List Message)
    → o.box dst ≡ some ms
    → deliver o dst m ≡ (
        if leb queue_depth (length ms)
        then (o, err_full)
        else (record o { box = update o.box dst (some (ms ++ m ∷ [])) }, ok 0))
unfolding deliver
deliver-known o dst m ms e = rw (e, deliver)

module _ (s : Ipc) (qid dst : ℕ) (h : QueuesOk s) (lt : qid < max_queues) (ne : dst ≢ 0)
    (own : owner s qid ≡ dst) where
  pub known : box_of s dst ≡ some (messages (queue_at s qid))
  known = box_of-some s dst qid (QueuesOk-Table h) ne lt own

  post-free :
      (m : Message)
      → (queue_at s qid).count < queue_depth
      → box_of (put_queue s qid (enqueue (queue_at s qid) m))
        ≡ update (box_of s) dst (some (messages (queue_at s qid) ++ m ∷ []))
  post-free m less =
      let q = queue_at s qid in
      fun_ext (λ p.
        box_of-put s qid (enqueue q m) (QueuesOk-Table h) lt
          (put_queue-Table_same s qid (enqueue q m) (QueuesOk-Table h) lt refl) (rw own ne)
          (inr refl) p
        ∙ rw (own, messages-enqueue q m (queue_at-QueueOk s qid h) less))

  -- `ipc_send` once the queue is known is the delivery into its owner's box.
  pub post_refines :
      (m : Message)
      → let (s', r) = post s qid m in ◌≡◌ {A = Office × Ret} (view s', r) (deliver (view s) dst m)
  unfolding post box_of
  post_refines m =
      let q = queue_at s qid in
      let spec = deliver-known (view s) dst m (messages q) known in
      let len = length-messages q in
      elim (Bool-cases (leb queue_depth q.count)) [
        | inl full ↦ rw (full, spec, len, full)
        | inr free ↦
            rw (free, spec, len, free)
              (λ i. (
                record { box = post-free m (ground arith) i; active = s.stats.queues_active },
                ok 0,
              ))
      ]

-- The two ways in which `ipc_send` finds that there is no queue yet: a free slot, or none.
pub deliver-new :
    (o : Office) (dst : ℕ) (m : Message)
    → o.box dst ≡ none
    → deliver o dst m ≡ (
        if leb max_queues o.active
        then (o, err_noslot)
        else (record { box = update o.box dst (some (m ∷ [])); active = o.active + 1 }, ok 0))
unfolding deliver
deliver-new o dst m e = rw (e, deliver)

-- The table is full exactly when 16 queues are in use.
pub full_active :
    (s : Ipc)
    → QueuesOk s
    → find_index (owned_by 0) s.queues ≡ none
    → s.stats.queues_active ≡ max_queues
unfolding find_index
full_active s h e = omega (
  arith,
  h.active,
  h.size,
  count_if-none (owned_by 0) s.queues 0 e,
  count_if-complement (owned_by 0) owned s.queues (λ x. refl),
)

pub room_left :
    (s : Ipc) (i : ℕ)
    → QueuesOk s
    → find_index (owned_by 0) s.queues ≡ some i
    → s.stats.queues_active < max_queues
room_left s i h e =
    let hit = find_index-Hit (owned_by 0) s.queues zero_queue i e in
    omega (
      arith,
      h.active,
      h.size,
      count_if-pos (owned_by 0) s.queues zero_queue i hit.inside hit.passes,
      count_if-complement (owned_by 0) owned s.queues (λ x. refl),
    )

module _ (s : Ipc) (dst i : ℕ) (h : QueuesOk s) (ne : dst ≢ 0) (lt : i < max_queues)
    (free : owner s i ≡ 0) (fresh : (j : ℕ) → j < max_queues → owner s j ≢ dst) where
  fresh_queue : Queue
  fresh_queue = record zero_queue { owner_pid = dst }

  pub claim_at-Ok : QueuesOk (claim_at s dst i)
  claim_at-Ok = claim_at-QueuesOk s dst i h lt ne free fresh

  pub claim_at-box : box_of (claim_at s dst i) ≡ update (box_of s) dst (some [])
  unfolding claim_at fresh_queue ring
  claim_at-box =
      box_of-queues (put_queue s i fresh_queue) (claim_at s dst i) (ground arith)
      ∙ fun_ext (λ p.
        box_of-put s i fresh_queue (QueuesOk-Table h) lt
          (put_queue-Table_new s i fresh_queue (QueuesOk-Table h) lt fresh) ne (inl free) p)

  pub claim_at-active : (claim_at s dst i).stats.queues_active ≡ s.stats.queues_active + 1
  unfolding claim_at
  claim_at-active = ground (arith, h.active, h.size, count_if-le owned s.queues)

  pub claim_at-owner : owner (claim_at s dst i) i ≡ dst
  unfolding claim_at
  claim_at-owner =
      ground (arith, h.size, queue_at-put s i i (record zero_queue { owner_pid = dst }))

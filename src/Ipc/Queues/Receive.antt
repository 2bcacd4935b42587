-- ===== src/Ipc/Queues/Receive.antt =====
-- `ipc_recv` and `ipc_queue_destroy` of kernel/ipc/ipc.c against the office of boxes.
use vernis_os.Prelude.{
  ℕ, ◌-◌, ◌<◌, ◌≡◌, refl, ◌∙◌, ◌≢◌, inl, inr, true, Option, none, some, [], ◌∷◌, arith, ◌==◌,
  get_or, Bool-cases, ==-false, leb-false,
}
use mathlib.Core.Path.{fun_ext}
use vernis_os.Prelude.Rings.{ring, ring_front}
use vernis_os.Ipc.State.{
  Ipc, Queue, Message, Ret, ok, zero_queue, zero_message, max_queues, queue_depth,
}
use vernis_os.Ipc.Queues.{queue_at, put_queue, dequeue, recv, release, queue_destroy}
use vernis_os.Ipc.Queues.Find.{owner}
use vernis_os.Ipc.Queues.Inv.{
  QueuesOk, QueuesOk-Table, QueueOk, queue_at-QueueOk, put_queue-Table_same, put_queue-Table_free,
}
use vernis_os.Ipc.Queues.Office.{Office, update, collect, discard}
use vernis_os.Ipc.Queues.View.{messages, box_of, box_of-put, box_of-free, view}
use vernis_os.Ipc.Queues.Refine.{box_of-queues}

-- Taking the front message leaves the others.
messages-dequeue :
    (q : Queue)
    → QueueOk q
    → 0 < q.count
    → messages q ≡ get_or q.msgs q.head zero_message ∷ messages (dequeue q)
messages-dequeue q h pos = ring_front zero_message q.msgs queue_depth q.head q.count h.head_in pos

module _ (s : Ipc) (qid pid : ℕ) (h : QueuesOk s) (lt : qid < max_queues) (ne : pid ≢ 0)
    (own : owner s qid ≡ pid) where
  recv-left :
      0 < (queue_at s qid).count
      → box_of (put_queue s qid (dequeue (queue_at s qid)))
        ≡ update (box_of s) pid (some (messages (dequeue (queue_at s qid))))
  recv-left pos =
      let q = dequeue (queue_at s qid) in
      fun_ext (λ p.
        box_of-put s qid q (QueuesOk-Table h) lt
          (put_queue-Table_same s qid q (QueuesOk-Table h) lt refl) (rw own ne) (inr refl) p
        ∙ rw own)

  messages-empty : (queue_at s qid).count ≡ 0 → messages (queue_at s qid) ≡ []
  unfolding ring
  messages-empty e = rw e

  -- With well-formed queues, `ipc_recv` from a queue in use, into a buffer that is not null, hands out the oldest
  -- message of the owner's box and takes it away; an empty box is left as it is.
  pub recv_refines :
      let (s', r, out) = recv s qid true in
      ◌≡◌ {A = Office × Ret × Option Message}
        (view s', r, out)
        (collect (view s) pid (messages (queue_at s qid)))
  unfolding recv collect
  recv_refines =
      let q = queue_at s qid in
      let inside = leb-false max_queues qid lt in
      let owned_q = ==-false (owner s qid) 0 (rw own ne) in
      elim (Bool-cases (q.count == 0)) [
        | inl empty ↦ rw (inside, owned_q, empty, messages-empty (ground arith))
        | inr left ↦
            rw (inside, owned_q, left, messages-dequeue q (queue_at-QueueOk s qid h) (ground arith))
              (λ i. (
                record { box = recv-left (ground arith) i; active = s.stats.queues_active },
                ok 0,
                some (get_or q.msgs q.head zero_message),
              ))
      ]

  release-box : box_of (release s qid) ≡ update (box_of s) pid none
  unfolding release
  release-box =
      box_of-queues (put_queue s qid zero_queue) (release s qid) (ground arith)
      ∙ fun_ext (λ p.
        box_of-free s qid zero_queue (QueuesOk-Table h) lt
          (put_queue-Table_free s qid zero_queue (QueuesOk-Table h) lt refl) refl (rw own ne) p
        ∙ rw own)

  release-active : (release s qid).stats.queues_active ≡ s.stats.queues_active - 1
  unfolding release
  release-active = ground arith

  -- With well-formed queues, `ipc_queue_destroy` of a queue in use gives up the owner's box and no other, and
  -- takes it off the count of queues in use.
  pub destroy_refines : view (queue_destroy s qid) ≡ discard (view s) pid
  unfolding queue_destroy discard
  destroy_refines =
      rw (leb-false max_queues qid lt, ==-false (owner s qid) 0 (rw own ne))
        (λ i. record { box = release-box i; active = release-active i })

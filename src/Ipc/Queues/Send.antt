-- ===== src/Ipc/Queues/Send.antt =====
-- `ipc_send` of kernel/ipc/ipc.c as a whole: the search, the new queue and the message.
use vernis_os.Prelude.{
  ℕ, ◌+◌, ◌<◌, ◌≡◌, refl, sym, ◌∙◌, ap, ◌≢◌, inl, inr, Option, none, some, List, [], ◌∷◌, arith,
  ◌==◌, Bool-cases, Option-cases, ==-false, leb-false, leb-true,
}
use mathlib.Core.Path.{fun_ext, subst}
use vernis_os.Prelude.Find.{find_index}
use vernis_os.Ipc.State.{Ipc, Message, Ret, ok, err_noslot, max_queues}
use vernis_os.Ipc.Queues.{
  owned_by, find_by_pid, claim, claim_at, queue_create, locate, send, send_located, make_message,
}
use vernis_os.Ipc.Queues.Find.{owner, find_by_pid-Found, find_by_pid_keeps}
use vernis_os.Ipc.Queues.Inv.{
  QueuesOk, QueuesOk-Table, find_by_pid-QueuesOk, find_by_pid-fresh, free_slot, count_drop-QueuesOk,
  post-QueuesOk,
}
use vernis_os.Ipc.Queues.Office.{Office, update, deliver}
use vernis_os.Ipc.Queues.View.{box_of, box_of-none, view}
use vernis_os.Ipc.Queues.Refine.{
  post_refines, claim_at-Ok, claim_at-box, claim_at-active, claim_at-owner, deliver-known,
  deliver-new, full_active, room_left, box_of-queues,
}

-- What `ipc_send` knows once it has looked for the queue of `dst`.
data Located (o : Office) (dst : ℕ) : Ipc × Ret → Type 0 where
  old :
      (t : Ipc) (i : ℕ)
      → QueuesOk t
      → view t ≡ o
      → i < max_queues
      → owner t i ≡ dst
      → Located o dst (t, ok i)
  new :
      (t : Ipc) (i : ℕ)
      → QueuesOk t
      → o.box dst ≡ none
      → o.active < max_queues
      → view t ≡ record { box = update o.box dst (some []); active = o.active + 1 }
      → i < max_queues
      → owner t i ≡ dst
      → Located o dst (t, ok i)
  full :
      (t : Ipc)
      → QueuesOk t
      → o.box dst ≡ none
      → o.active ≡ max_queues
      → view t ≡ o
      → Located o dst (t, err_noslot)

-- The search does not change the boxes.
pub view-find_by_pid : (s : Ipc) (pid : ℕ) → view (find_by_pid s pid).0 ≡ view s
view-find_by_pid s pid =
    let (queues, channels, stats, usocks, cache) = find_by_pid_keeps s pid in
    λ i. record {
      box = box_of-queues s (find_by_pid s pid).0 queues i;
      active = (stats i).queues_active;
    }

module _ (s : Ipc) (dst : ℕ) (h : QueuesOk s) (ne : dst ≢ 0) where
  claim-Located : ((j : ℕ) → j < max_queues → owner s j ≢ dst) → Located (view s) dst (claim s dst)
  unfolding claim
  claim-Located fresh =
      let closed = box_of-none s dst (QueuesOk-Table h) fresh in
      elim (Option-cases (find_index (owned_by 0) s.queues)) [
        | inl none_free ↦ rw (none_free, claim) (full s h closed (full_active s h none_free) refl)
        | inr (i, e) ↦
            let (lt, free) = free_slot s i h e in
            rw (e, claim)
              (new (claim_at s dst i) i (claim_at-Ok s dst i h ne lt free fresh) closed
                (room_left s i h e)
                (λ k. record {
                  box = claim_at-box s dst i h ne lt free fresh k;
                  active = claim_at-active s dst i h ne lt free fresh k;
                })
                lt (claim_at-owner s dst i h ne lt free fresh))
      ]

module _ (s : Ipc) (dst : ℕ) (h : QueuesOk s) (ne : dst ≢ 0) where
  miss-Located :
      (find_by_pid s dst).1 ≡ none → Located (view s) dst (claim (find_by_pid s dst).0 dst)
  miss-Located miss =
      subst (λ o. Located o dst (claim (find_by_pid s dst).0 dst)) (view-find_by_pid s dst)
        (claim-Located (find_by_pid s dst).0 dst (find_by_pid-QueuesOk s dst h) ne
          (find_by_pid-fresh s dst h miss))

  create-Located : (find_by_pid s dst).1 ≡ none → Located (view s) dst (queue_create s dst)
  unfolding queue_create
  create-Located miss = rw (==-false dst 0 ne, miss) (miss-Located miss)

  found-Located :
      (i : ℕ) → (find_by_pid s dst).1 ≡ some i → Located (view s) dst ((find_by_pid s dst).0, ok i)
  found-Located i hit =
      let f = find_by_pid-Found s dst i h.size hit in
      old (find_by_pid s dst).0 i (find_by_pid-QueuesOk s dst h) (view-find_by_pid s dst) f.inside
        (ground (arith, f.owns, find_by_pid_keeps s dst))

-- A search that failed fails again.
find_again :
    (s : Ipc) (dst : ℕ)
    → QueuesOk s
    → (find_by_pid s dst).1 ≡ none
    → (find_by_pid (find_by_pid s dst).0 dst).1 ≡ none
find_again s dst h miss =
    let s' = (find_by_pid s dst).0 in
    elim (Option-cases (find_by_pid s' dst).1) [
      | inl again ↦ again
      | inr (i, hit) ↦
          let f = find_by_pid-Found s' dst i (find_by_pid-QueuesOk s dst h).size hit in
          absurd (find_by_pid-fresh s dst h miss i f.inside f.owns)
    ]

-- `ipc_send` finds the queue, makes it, or finds the table full.
locate-Located : (s : Ipc) (dst : ℕ) → QueuesOk s → dst ≢ 0 → Located (view s) dst (locate s dst)
unfolding locate
locate-Located s dst h ne = elim (Option-cases (find_by_pid s dst).1) [
  | inl miss ↦
      let s' = (find_by_pid s dst).0 in
      rw (miss, locate)
        (subst (λ o. Located o dst (queue_create s' dst)) (view-find_by_pid s dst)
          (create-Located s' dst (find_by_pid-QueuesOk s dst h) ne (find_again s dst h miss)))
  | inr (i, hit) ↦ rw (hit, locate) (found-Located s dst h ne i hit)
]

-- A message for a new box is a message for the box just opened.
deliver-opened :
    (o : Office) (dst : ℕ) (m : Message)
    → o.box dst ≡ none
    → o.active < max_queues
    → deliver (record { box = update o.box dst (some []); active = o.active + 1 }) dst m
      ≡ deliver o dst m
deliver-opened o dst m closed free =
    let opened : Office = record { box = update o.box dst (some []); active = o.active + 1 } in
    deliver-known opened dst m [] (ground arith)
    ∙ (λ i. (
      record {
        box =
            fun_ext {f = update opened.box dst (some (m ∷ []))}
              {g = update o.box dst (some (m ∷ []))} (λ p. ground arith) i;
        active = o.active + 1;
      },
      ok 0,
    ))
    ∙ sym (deliver-new o dst m closed ∙ rw (leb-false max_queues o.active free))

-- The message is delivered, whichever way the queue was found.
send_located-refines :
    (o : Office) (dst : ℕ) (m : Message) (x : Ipc × Ret)
    → dst ≢ 0
    → Located o dst x
    → let (s', r) = send_located x m in ◌≡◌ {A = Office × Ret} (view s', r) (deliver o dst m)
unfolding send_located box_of
send_located-refines o dst m _ ne (old t i ok_t same lt own) =
    post_refines t i dst ok_t lt ne own m ∙ ap (λ o. deliver o dst m) same
send_located-refines o dst m _ ne (new t i ok_t closed free same lt own) =
    post_refines t i dst ok_t lt ne own m
    ∙ ap (λ o. deliver o dst m) same
    ∙ deliver-opened o dst m closed free
send_located-refines o dst m _ ne (full t ok_t closed all same) =
    (λ i. (same i, err_noslot))
    ∙ sym (deliver-new o dst m closed ∙ rw (leb-true max_queues o.active (omega arith)))

-- With well-formed queues, and a target process whose number is not 0, `ipc_send` of a buffer that is not null
-- delivers the message into the process's box, as the office does.
pub send_refines :
    (s : Ipc) (src dst type len : ℕ) (bytes : List ℕ)
    → QueuesOk s
    → dst ≢ 0
    → let (s', r) = send s src dst type (some bytes) len in
      ◌≡◌ {A = Office × Ret}
        (view s', r)
        (deliver (view s) dst (make_message src dst type bytes len))
unfolding send
send_refines s src dst type len bytes h ne =
    let m = make_message src dst type bytes len in
    rw (==-false dst 0 ne)
      (send_located-refines (view s) dst m (locate s dst) ne (locate-Located s dst h ne))

send_located-QueuesOk :
    (o : Office) (dst : ℕ) (m : Message) (x : Ipc × Ret)
    → Located o dst x
    → QueuesOk (send_located x m).0
unfolding send_located
send_located-QueuesOk o dst m _ (old t i ok_t same lt own) = post-QueuesOk t i m lt ok_t
send_located-QueuesOk o dst m _ (new t i ok_t closed free same lt own) = post-QueuesOk t i m lt ok_t
send_located-QueuesOk o dst m _ (full t ok_t closed all same) = count_drop-QueuesOk t ok_t

-- `ipc_send` keeps the invariant, whatever its arguments.
pub send-QueuesOk :
    (s : Ipc) (src dst type : ℕ) (data_ptr : Option (List ℕ)) (len : ℕ)
    → QueuesOk s
    → QueuesOk (send s src dst type data_ptr len).0
unfolding send
send-QueuesOk s src dst type none len h = h
send-QueuesOk s src dst type (some bytes) len h = elim (Bool-cases (dst == 0)) [
  | inl null ↦ rw null h
  | inr real ↦ rw real (
      send_located-QueuesOk (view s) dst (make_message src dst type bytes len) (locate s dst)
        (locate-Located s dst h (ground arith)))
]

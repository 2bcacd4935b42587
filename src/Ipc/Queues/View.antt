-- ===== src/Ipc/Queues/View.antt =====
-- The boxes that the queue table of kernel/ipc/ipc.c stands for.
use vernis_os.Prelude.{
  ℕ, ◌<◌, ◌≡◌, sym, ◌∙◌, ap, ◌≢◌, ◌⊎◌, inl, inr, true, Option, none, some, List, arith, ◌==◌,
  ==_iff, if◌then◌else◌, length, Bool-cases, Option-cases,
}
use vernis_os.Prelude.Find.{find_index, find_index-Hit, find_index-none}
use vernis_os.Prelude.Rings.{ring}
use vernis_os.Ipc.State.{Queue, Ipc, Message, zero_queue, zero_message, max_queues, queue_depth}
use vernis_os.Ipc.Queues.{owned_by, queue_at, put_queue}
use vernis_os.Ipc.Queues.Find.{owner}
use vernis_os.Ipc.Queues.Inv.{Table, queue_at-put}
use vernis_os.Ipc.Queues.Office.{Office, update}

-- The messages of a queue, oldest first.
abbrev pub messages : Queue → List Message
messages q = ring zero_message q.msgs queue_depth q.head q.count

box_at : Ipc → Option ℕ → Option (List Message)
box_at s none = none
box_at s (some i) = some (messages (queue_at s i))

unfoldable pub box_of : Ipc → ℕ → Option (List Message)
unfolding box_at
box_of s pid = if pid == 0 then none else box_at s (find_index (owned_by pid) s.queues)

abbrev pub view : Ipc → Office
view s = record { box = box_of s; active = s.stats.queues_active }

null_box : (s : Ipc) (p : ℕ) → (p == 0) ≡ true → box_of s p ≡ none
unfolding box_of
null_box s p e = rw e

-- The box of a process that has a queue.
pub box_of-some :
    (s : Ipc) (pid i : ℕ)
    → Table s
    → pid ≢ 0
    → i < max_queues
    → owner s i ≡ pid
    → box_of s pid ≡ some (messages (queue_at s i))
unfolding box_of
box_of-some s pid i h ne lt own = elim (Option-cases (find_index (owned_by pid) s.queues)) [
  | inl miss ↦ absurd (
      ground
        (arith, find_index-none (owned_by pid) s.queues zero_queue i miss (omega (arith, h.size))))
  | inr (k, e) ↦
      let hit = find_index-Hit (owned_by pid) s.queues zero_queue k e in
      let own' : owner s k ≡ pid = (==_iff _ _).0 hit.passes in
      let same : k ≡ i =
        h.unique k i (omega (arith, hit.inside, h.size)) lt (rw own' ne) (own' ∙ sym own) in
      rw e (ground (arith, ap (λ j. messages (queue_at s j)) same))
]

-- A process that has no queue has no box.
pub box_of-none :
    (s : Ipc) (pid : ℕ)
    → Table s
    → ((j : ℕ) → j < max_queues → owner s j ≢ pid)
    → box_of s pid ≡ none
unfolding box_of
box_of-none s pid h fresh = elim (Option-cases (find_index (owned_by pid) s.queues)) [
  | inl miss ↦ rw miss (ground arith)
  | inr (k, e) ↦
      let hit = find_index-Hit (owned_by pid) s.queues zero_queue k e in
      absurd (fresh k (omega (arith, hit.inside, h.size)) ((==_iff _ _).0 hit.passes))
]

-- Either way.
pub box_of-cases :
    (s : Ipc) (pid : ℕ)
    → Table s
    → ((j : ℕ) → j < max_queues → owner s j ≢ pid)
      ⊎ ((i : ℕ) × (i < max_queues) × (owner s i ≡ pid))
box_of-cases s pid h = elim (Option-cases (find_index (owned_by pid) s.queues)) [
  | inl miss ↦ inl (λ j lt own.
      let no = find_index-none (owned_by pid) s.queues zero_queue j miss (omega (arith, h.size)) in
      ground arith)
  | inr (k, e) ↦
      let hit = find_index-Hit (owned_by pid) s.queues zero_queue k e in
      inr (k, omega (arith, hit.inside, h.size), (==_iff _ _).0 hit.passes)
]

module _ (s : Ipc) (i : ℕ) (q : Queue) (h : Table s) (lt : i < max_queues) where
  room : i < length s.queues
  room = omega (arith, h.size)

  -- Slot `i` was free or belonged to the owner of `q`, and belongs to it now.
  pub box_of-put :
      Table (put_queue s i q)
      → q.owner_pid ≢ 0
      → (owner s i ≡ 0) ⊎ (owner s i ≡ q.owner_pid)
      → (p : ℕ) → box_of (put_queue s i q) p ≡ update (box_of s) q.owner_pid (some (messages q)) p
  box_of-put h' ne was p = elim (Bool-cases (p == 0)) [
    | inl null ↦ ground (arith, null_box (put_queue s i q) p, null_box s p)
    | inr real ↦ elim (Bool-cases (q.owner_pid == p)) [
      | inl same ↦
          box_of-some (put_queue s i q) p i h' (ground arith) lt
            (ground (arith, queue_at-put s i i q room))
          ∙ ground (arith, queue_at-put s i i q room)
      | inr other ↦ elim (box_of-cases s p h) [
        | inl gone ↦
            box_of-none (put_queue s i q) p h'
              (λ j hj. ground (arith, gone j hj, queue_at-put s i j q room))
            ∙ ground (arith, box_of-none s p h gone)
        | inr (k, hk, own) ↦
            box_of-some (put_queue s i q) p k h' (ground arith) hk
              (ground (arith, queue_at-put s i k q room))
            ∙ ground (arith, box_of-some s p k h (ground arith) hk own, queue_at-put s i k q room)
      ]
    ]
  ]

  -- Slot `i` belonged to a process, and is free now.
  pub box_of-free :
      Table (put_queue s i q)
      → q.owner_pid ≡ 0
      → owner s i ≢ 0
      → (p : ℕ) → box_of (put_queue s i q) p ≡ update (box_of s) (owner s i) none p
  box_of-free h' free was p = elim (Bool-cases (p == 0)) [
    | inl null ↦ ground (arith, null_box (put_queue s i q) p, null_box s p)
    | inr real ↦ elim (Bool-cases (owner s i == p)) [
      | inl same ↦
          box_of-none (put_queue s i q) p h'
            (λ j hj. ground (arith, h.unique i j lt hj was, queue_at-put s i j q room))
          ∙ ground arith
      | inr other ↦ elim (box_of-cases s p h) [
        | inl gone ↦
            box_of-none (put_queue s i q) p h'
              (λ j hj. ground (arith, gone j hj, queue_at-put s i j q room))
            ∙ ground (arith, box_of-none s p h gone)
        | inr (k, hk, own) ↦
            box_of-some (put_queue s i q) p k h' (ground arith) hk
              (ground (arith, queue_at-put s i k q room))
            ∙ ground (arith, box_of-some s p k h (ground arith) hk own, queue_at-put s i k q room)
      ]
    ]
  ]

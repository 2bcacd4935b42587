-- ===== src/Ipc/Queues/Find.antt =====
-- `queue_find_by_pid` of kernel/ipc/ipc.c: its cache never changes the answer.
use vernis_os.Prelude.{
  ℕ, ◌<◌, ◌≡◌, sym, ◌∙◌, ap, ◌≢◌, inl, inr, none, some, arith, ==_iff, length, length-set,
  Option-cases,
}
use vernis_os.Prelude.Find.{find_index, find_index-Hit, find_index-none}
use vernis_os.Ipc.State.{Ipc, zero_queue, max_queues}
use vernis_os.Ipc.Queues.{owned_by, queue_at, cached, scan, find_by_pid}

abbrev pub owner : Ipc → ℕ → ℕ
owner s i = (queue_at s i).owner_pid

-- No process has two queues.
abbrev pub Unique : Ipc → Type 0
Unique s =
    (i j : ℕ) → i < max_queues → j < max_queues → owner s i ≢ 0 → owner s i ≡ owner s j → i ≡ j

-- What an answer means, found by the cache or by the scan.
pub record Found (s : Ipc) (pid i : ℕ) : Type 0 where
  pub inside : i < max_queues
  pub owns : owner s i ≡ pid

cached-Found : (s : Ipc) (pid i : ℕ) → cached s pid ≡ some i → Found s pid i
unfolding cached
cached-Found s pid i e = ground arith

scan-Found :
    (s : Ipc) (pid i : ℕ)
    → length s.queues ≡ max_queues
    → find_index (owned_by pid) s.queues ≡ some i
    → Found s pid i
scan-Found s pid i size e =
    let hit = find_index-Hit (owned_by pid) s.queues zero_queue i e in
    record { inside = omega (arith, hit.inside); owns = (==_iff _ _).0 hit.passes }

-- A hit is a queue of the table that belongs to `pid`.
pub find_by_pid-Found :
    (s : Ipc) (pid i : ℕ)
    → length s.queues ≡ max_queues
    → (find_by_pid s pid).1 ≡ some i
    → Found s pid i
unfolding find_by_pid scan
find_by_pid-Found s pid i size e = ground (arith, cached-Found s pid i, scan-Found s pid i size)

-- A miss: no queue of the table belongs to `pid`.
pub find_by_pid-none :
    (s : Ipc) (pid i : ℕ)
    → length s.queues ≡ max_queues
    → (find_by_pid s pid).1 ≡ none
    → i < max_queues
    → owner s i ≢ pid
unfolding find_by_pid scan
find_by_pid-none s pid i size e lt =
    ground (arith, find_index-none (owned_by pid) s.queues zero_queue i)

-- The search writes the cache alone.
pub find_by_pid_keeps :
    (s : Ipc) (pid : ℕ)
    → ((find_by_pid s pid).0.queues ≡ s.queues)
      × ((find_by_pid s pid).0.channels ≡ s.channels)
      × ((find_by_pid s pid).0.stats ≡ s.stats)
      × ((find_by_pid s pid).0.usocks ≡ s.usocks)
      × (length (find_by_pid s pid).0.pid_to_qid ≡ length s.pid_to_qid)
unfolding find_by_pid scan
find_by_pid_keeps s pid = grind (arith, length-set)

-- Whatever the cache holds, the answer is the scan's, for a process whose number is not 0 in a table of 16
-- queues of which at most one belongs to a process.
pub find_by_pid-eq-scan :
    (s : Ipc) (pid : ℕ)
    → length s.queues ≡ max_queues
    → Unique s
    → pid ≢ 0
    → (find_by_pid s pid).1 ≡ find_index (owned_by pid) s.queues
find_by_pid-eq-scan s pid size unique ne = elim (Option-cases (find_by_pid s pid).1) [
  | inl miss ↦ elim (Option-cases (find_index (owned_by pid) s.queues)) [
    | inl gone ↦ miss ∙ sym gone
    | inr (k, e) ↦
        let hit = scan-Found s pid k size e in
        absurd (find_by_pid-none s pid k size miss hit.inside hit.owns)
  ]
  | inr (i, found) ↦
      let here = find_by_pid-Found s pid i size found in
      elim (Option-cases (find_index (owned_by pid) s.queues)) [
        | inl gone ↦ absurd (
            cc (
              (==_iff _ _).1 here.owns,
              find_index-none (owned_by pid) s.queues zero_queue i gone
                  (omega (arith, here.inside)),
            ))
        | inr (k, e) ↦
            let there = scan-Found s pid k size e in
            let same =
              unique i k here.inside there.inside (rw here.owns ne) (here.owns ∙ sym there.owns) in
            found ∙ ap some same ∙ sym e
      ]
]

-- ===== src/Ipc/Queues/Office.antt =====
-- What the message queues of kernel/ipc/ipc.c promise: a box of at most 16 messages, oldest first,
-- for each of at most 16 processes.
use vernis_os.Prelude.{
  ℕ, ◌+◌, ◌-◌, Option, none, some, List, [], ◌∷◌, ◌++◌, leb, ◌==◌, if◌then◌else◌, length,
}
use vernis_os.Ipc.State.{Ret, ok, err_full, err_empty, err_noslot, Message, max_queues, queue_depth}

pub record Office : Type 0 where
  pub box : ℕ → Option (List Message)
  pub active : ℕ

abbrev pub update :
    (ℕ → Option (List Message)) → ℕ → Option (List Message) → ℕ → Option (List Message)
update f pid ms p = if pid == p then ms else f p

-- A message for `dst`; a first message opens the box.
unfoldable pub deliver : Office → ℕ → Message → Office × Ret
deliver o dst m = elim (o.box dst) [
  | none ↦
      if leb max_queues o.active
      then (o, err_noslot)
      else (record { box = update o.box dst (some (m ∷ [])); active = o.active + 1 }, ok 0)
  | some ms ↦
      if leb queue_depth (length ms)
      then (o, err_full)
      else (record o { box = update o.box dst (some (ms ++ m ∷ [])) }, ok 0)
]

-- The oldest message of a box that is there.
unfoldable pub collect : Office → ℕ → List Message → Office × Ret × Option Message
collect o pid [] = (o, err_empty, none)
collect o pid (m ∷ ms) = (record o { box = update o.box pid (some ms) }, ok 0, some m)

-- A box is given up with what it holds.
unfoldable pub discard : Office → ℕ → Office
discard o pid = record { box = update o.box pid none; active = o.active - 1 }

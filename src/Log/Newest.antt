-- ===== src/Log/Newest.antt =====
-- What the kernel log keeps over a run of its calls, and what it prints.
use mathlib.Core.List.{map, reverse}
use vernis_os.Prelude.{
  ℕ, ◌+◌, ◌-◌, ◌≤◌, ◌<◌, ◌≡◌, refl, sym, ◌∙◌, ap, List, [], ◌∷◌, ◌++◌, Option, arith, length,
  length-set, length-take, length-drop, take, take-length, ◌==◌, ltb, false, zero, suc, ◌^◌,
  Bool-cases, inl, inr, if◌then◌else◌,
}
use vernis_os.Prelude.Words.{u64}
use mathlib.Core.Path.{ap₂}
use native.Mathlib.Nat.{mod-add-mod}
use vernis_os.Log.Klog.{
  Klog, KlogEntry, Row, klog_level_name, klog, klog_init, klog_clear, klog_set_level, make_entry,
  zero_entry, klog_ring_size, table, no_entries, klog_print_recent, row, shown,
}
use vernis_os.Prelude.Rings.{length-ring, ring}
use vernis_os.Log.Decimal.{u64_to_dec}
use vernis_os.Log.Recent.{
  recent, recent_write, keep_newest, newest, keep_newest-newest, walk_back, walk_back-take,
  walk_back-reverse,
}

-- A call that changes the log.
pub data Call : Type 0 where
  log : (now level : ℕ) → (tag msg : Option (List ℕ)) → Call
  clear : Call
  set_level : ℕ → Call

unfoldable pub exec : Klog → Call → Klog
exec s (log now level tag msg) = (klog s now level tag msg).0
exec s clear = klog_clear s
exec s (set_level level) = klog_set_level s level

unfoldable pub run : Klog → List Call → Klog
run s [] = s
run s (c ∷ cs) = run (exec s c) cs

-- All that was logged since the last clearing, oldest first, with no bound on it.
unfoldable pub history : List KlogEntry → List Call → List KlogEntry
history xs [] = xs
history xs (log now level tag msg ∷ cs) = history (xs ++ make_entry now level tag msg ∷ []) cs
history xs (clear ∷ cs) = history [] cs
history xs (set_level level ∷ cs) = history xs cs

-- The entries of the ring, oldest first.
abbrev pub entries_of : Klog → List KlogEntry
entries_of s = recent zero_entry s.entries klog_ring_size s.head s.count

pub record Keeps (s : Klog) (xs : List KlogEntry) : Type 0 where
  pub room : klog_ring_size ≤ length s.entries
  pub front : s.head < klog_ring_size
  pub fits : s.count ≤ klog_ring_size
  pub same : entries_of s ≡ newest klog_ring_size xs

klog-Keeps :
    (s : Klog) (xs : List KlogEntry) (now level : ℕ) (tag msg : Option (List ℕ))
    → Keeps s xs
    → Keeps (klog s now level tag msg).0 (xs ++ make_entry now level tag msg ∷ [])
unfolding klog
klog-Keeps s xs now level tag msg k =
    let e = make_entry now level tag msg in
    record {
      room = omega (arith, length-set s.entries s.head e, k.room);
      front = omega arith;
      fits = ground (arith, k.fits);
      same =
          recent_write zero_entry s.entries klog_ring_size s.head e k.room k.front s.count k.fits
          ∙ ap (λ l. keep_newest klog_ring_size l e) k.same
          ∙ keep_newest-newest klog_ring_size xs e (omega arith);
    }

exec-Keeps :
    (s : Klog) (xs : List KlogEntry) (c : Call)
    → Keeps s xs
    → Keeps (exec s c) (history xs (c ∷ []))
unfolding exec history klog_clear klog_set_level ring
exec-Keeps s xs (log now level tag msg) k = klog-Keeps s xs now level tag msg k
exec-Keeps s xs clear k = record {
  room = k.room;
  front = omega arith;
  fits = omega arith;
  same = refl;
}
exec-Keeps s xs (set_level level) k = record {
  room = k.room;
  front = k.front;
  fits = k.fits;
  same = k.same;
}

run-Keeps :
    (s : Klog) (xs : List KlogEntry) (cs : List Call)
    → Keeps s xs
    → Keeps (run s cs) (history xs cs)
unfolding run history exec
run-Keeps s xs [] k = k
run-Keeps s xs (log now level tag msg ∷ cs) k =
    run-Keeps (exec s (log now level tag msg)) (history xs (log now level tag msg ∷ [])) cs
      (exec-Keeps s xs (log now level tag msg) k)
run-Keeps s xs (clear ∷ cs) k =
    run-Keeps (exec s clear) (history xs (clear ∷ [])) cs (exec-Keeps s xs clear k)
run-Keeps s xs (set_level level ∷ cs) k =
    run-Keeps (exec s (set_level level)) (history xs (set_level level ∷ [])) cs
      (exec-Keeps s xs (set_level level) k)

init-Keeps : Keeps klog_init []
unfolding klog_init ring
init-Keeps = record { room = omega arith; front = omega arith; fits = omega arith; same = refl }

init_total : klog_init.total ≡ u64 0
unfolding klog_init
init_total = refl

shown_le : (s : Klog) (count : ℕ) → shown s count ≤ s.count
shown_le s count = ground arith

-- After any calls the ring holds the newest 64 of what was logged since the last clearing, in order,
-- and the count is their number.
pub run-newest :
    (cs : List Call)
    → (entries_of (run klog_init cs) ≡ newest klog_ring_size (history [] cs))
      × ((run klog_init cs).count ≡ length (newest klog_ring_size (history [] cs)))
run-newest cs =
    let k = run-Keeps klog_init [] cs init-Keeps in
    let s = run klog_init cs in
    (
      k.same,
      sym (
            length-ring zero_entry s.entries klog_ring_size (s.head + klog_ring_size - s.count)
              s.count)
          ∙ ap length k.same,
    )

-- How many calls logged an entry; neither a clearing nor a full ring takes one back.
unfoldable pub logged : List Call → ℕ
logged [] = 0
logged (log now level tag msg ∷ cs) = suc (logged cs)
logged (clear ∷ cs) = logged cs
logged (set_level level ∷ cs) = logged cs

-- The first `count` of a list; 0 asks for all of it.
unfoldable pub asked {ℓ} : {A : Type ℓ} → ℕ → List A → List A
asked zero xs = xs
asked (suc n) xs = take (suc n) xs

-- The total counts every entry logged, in 64 bits.
run-total :
    (s : Klog) (n : ℕ) (cs : List Call) → s.total ≡ u64 n → (run s cs).total ≡ u64 (n + logged cs)
unfolding run exec logged klog klog_clear klog_set_level
run-total s n [] e = e ∙ ap u64 (omega arith)
run-total s n (log now level tag msg ∷ cs) e =
    run-total (klog s now level tag msg).0 (n + 1) cs
      (ap (λ k. u64 (k + 1)) e ∙ mod-add-mod n (2 ^ 64) 1)
    ∙ ap u64 (omega arith)
run-total s n (clear ∷ cs) e = run-total (klog_clear s) n cs e
run-total s n (set_level level ∷ cs) e = run-total (klog_set_level s level) n cs e

-- What the code takes of a list as long as its count.
take-shown {ℓ} :
    {A : Type ℓ} (s : Klog) (count : ℕ) (xs : List A)
    → length xs ≡ s.count
    → take (shown s count) xs ≡ asked count xs
unfolding asked
take-shown s zero xs e = take-length s.count xs (omega (arith, e))
take-shown s (suc n) xs e =
    let some_asked : (suc n == 0) ≡ false = ground arith in
    elim (Bool-cases (ltb s.count (suc n))) [
      | inl beyond ↦
          rw (some_asked, beyond)
            (take-length s.count xs (omega (arith, e))
              ∙ sym (take-length (suc n) xs (ground (arith, e, beyond))))
      | inr within ↦ rw (some_asked, within) refl
    ]

length-asked {ℓ} :
    {A : Type ℓ} (s : Klog) (count : ℕ) (xs : List A)
    → length xs ≡ s.count
    → shown s count ≡ length (asked count xs)
length-asked s count xs e =
    sym (
      ap length (sym (take-shown s count xs e))
      ∙ length-take (shown s count) xs
      ∙ ground (arith, e))

length-walk_back :
    (buf : List KlogEntry) (size head i n : ℕ) → length (walk_back zero_entry buf size head i n) ≡ n
unfolding walk_back
length-walk_back buf size head i zero = refl
length-walk_back buf size head i (suc n) = omega (arith, length-walk_back buf size head (i + 1) n)

-- The columns of an entry: its time, the name of its level, its tag and its message.
abbrev pub columns : KlogEntry → Row
columns e = record {
  ticks = u64_to_dec e.timestamp 20;
  name = klog_level_name e.level;
  tag = e.tag;
  message = e.message;
}

-- The table of a log has the newest 64 entries since the last clearing, newest first: all of them if 0 or
-- more than there are is asked for, and as many as asked for otherwise. Under them stand the number of
-- rows and how many entries were ever logged, in 64 bits. A log without an entry prints that it has none.
pub print_recent-newest_first :
    (cs : List Call) (count : ℕ)
    → klog_print_recent (run klog_init cs) count ≡ (
        let rows = asked count (reverse (newest klog_ring_size (history [] cs))) in
        if length (history [] cs) == 0
        then no_entries
        else table (map columns rows) (length rows) (u64_to_dec (u64 (logged cs)) 20))
unfolding klog_print_recent row
print_recent-newest_first cs count =
    let s = run klog_init cs in
    let k = run-Keeps klog_init [] cs init-Keeps in
    let kept = newest klog_ring_size (history [] cs) in
    let walked = walk_back zero_entry s.entries klog_ring_size s.head 0 s.count in
    let n = shown s count in
    let back : walked ≡ reverse kept =
      walk_back-reverse zero_entry s.entries klog_ring_size s.head s.count k.fits
      ∙ ap reverse k.same in
    let size : length walked ≡ s.count =
      length-walk_back s.entries klog_ring_size s.head 0 s.count in
    let rows : walk_back zero_entry s.entries klog_ring_size s.head 0 n
        ≡ asked count (reverse kept) =
      walk_back-take zero_entry s.entries klog_ring_size s.head n s.count (shown_le s count)
      ∙ take-shown s count walked size
      ∙ ap (asked count) back in
    let none_kept : (n == 0) ≡ (length (history [] cs) == 0) = ground (
      arith,
      (run-newest cs).1,
      length-drop (length (history [] cs) - klog_ring_size) (history [] cs),
    ) in
    let number : n ≡ length (asked count (reverse kept)) =
      length-asked s count walked size ∙ ap (λ l. length (asked count l)) back in
    let total : s.total ≡ u64 (logged cs) =
      run-total klog_init 0 cs init_total ∙ ap u64 (omega arith) in
    rw none_kept (
      ap (λ t. if length (history [] cs) == 0 then no_entries else t)
        (ap₂ (λ l m. table (map columns l) m (u64_to_dec s.total 20)) rows number
          ∙ ap
              (λ k.
                table (map columns (asked count (reverse kept)))
                  (length (asked count (reverse kept))) (u64_to_dec k 20))
              total))

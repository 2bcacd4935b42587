-- ===== src/Log/Denials.antt =====
-- What the audit log keeps over a run, and that it prints the newest entries first.
use mathlib.Core.List.{map, reverse, append-nil, append_assoc}
use mathlib.Core.Path.{ap₂}
use vernis_os.Prelude.{
  ℕ, zero, suc, ◌+◌, ◌-◌, ◌%◌, ◌≤◌, ◌<◌, ◌≡◌, refl, sym, ◌∙◌, ap, List, [], ◌∷◌, ◌++◌, arith, ◌==◌,
  length, length-set, length-drop, length-map, get_or, ◌^◌, if◌then◌else◌,
}
use vernis_os.Prelude.Words.{u32}
use native.Mathlib.Nat.{mod-add-mod}
use vernis_os.Prelude.Rings.{length-ring, ring}
use vernis_os.Log.Recent.{
  recent, recent_write, keep_newest, newest, keep_newest-newest, walk_back, walk_back-reverse,
}
use vernis_os.Log.Audit.{
  AuditEntry, AuditLog, Row, ticks_text, priv_name, zero_entry, auditlog_init, auditlog_record,
  audit_log_size, make_entry, index_back, row, rows_from, table, no_denials, auditlog_print_all,
}

-- The arguments of a call of `auditlog_record`.
pub record Denial : Type 0 where
  pub timestamp : ℕ
  pub username : List ℕ
  pub command : List ℕ
  pub privilege : ℕ
  pub required : ℕ

abbrev pub deny : AuditLog → Denial → AuditLog
deny s d = auditlog_record s d.timestamp d.username d.command d.privilege d.required

abbrev pub entry_of : Denial → AuditEntry
entry_of d = make_entry d.timestamp d.username d.command d.privilege d.required

unfoldable pub deny_all : AuditLog → List Denial → AuditLog
deny_all s [] = s
deny_all s (d ∷ ds) = deny_all (deny s d) ds

unfoldable pub denied : List AuditEntry → List Denial → List AuditEntry
denied xs [] = xs
denied xs (d ∷ ds) = denied (xs ++ entry_of d ∷ []) ds

-- The entries of the ring, oldest first.
abbrev pub entries_of : AuditLog → List AuditEntry
entries_of s = recent zero_entry s.entries audit_log_size s.head s.count

record Keeps (s : AuditLog) (xs : List AuditEntry) : Type 0 where
  pub room : audit_log_size ≤ length s.entries
  pub front : s.head < audit_log_size
  pub fits : s.count ≤ audit_log_size
  pub same : entries_of s ≡ newest audit_log_size xs

deny-Keeps :
    (s : AuditLog) (xs : List AuditEntry) (d : Denial)
    → Keeps s xs
    → Keeps (deny s d) (xs ++ entry_of d ∷ [])
unfolding auditlog_record
deny-Keeps s xs d k = record {
  room = omega (arith, length-set s.entries s.head (entry_of d), k.room);
  front = omega arith;
  fits = ground (arith, k.fits);
  same =
      recent_write zero_entry s.entries audit_log_size s.head (entry_of d) k.room k.front s.count
        k.fits
      ∙ ap (λ l. keep_newest audit_log_size l (entry_of d)) k.same
      ∙ keep_newest-newest audit_log_size xs (entry_of d) (omega arith);
}

deny_all-Keeps :
    (s : AuditLog) (xs : List AuditEntry) (ds : List Denial)
    → Keeps s xs
    → Keeps (deny_all s ds) (denied xs ds)
unfolding deny_all denied
deny_all-Keeps s xs [] k = k
deny_all-Keeps s xs (d ∷ ds) k =
    deny_all-Keeps (deny s d) (xs ++ entry_of d ∷ []) ds (deny-Keeps s xs d k)

init-Keeps : Keeps auditlog_init []
unfolding auditlog_init ring
init-Keeps = record { room = omega arith; front = omega arith; fits = omega arith; same = refl }

-- The two branches of the index are one step back around the ring.
index_back-mod :
    (head i : ℕ)
    → head < audit_log_size
    → i < audit_log_size
    → index_back head i ≡ (head + audit_log_size - 1 - i) % audit_log_size
unfolding index_back
index_back-mod head i lt small = ground arith

rows-walk :
    (s : AuditLog) (i n : ℕ)
    → s.head < audit_log_size
    → i + n ≤ audit_log_size
    → rows_from s i n ≡ map row (walk_back zero_entry s.entries audit_log_size s.head i n)
unfolding rows_from walk_back
rows-walk s i zero lt h = refl
rows-walk s i (suc n) lt h =
    ap₂ ◌∷◌
      (ap (λ k. row (get_or s.entries k zero_entry)) (index_back-mod s.head i lt (omega arith)))
      (rows-walk s (i + 1) n lt (omega arith))

count-newest :
    (s : AuditLog) (xs : List AuditEntry) → Keeps s xs → s.count ≡ length (newest audit_log_size xs)
count-newest s xs k =
    sym
      (length-ring zero_entry s.entries audit_log_size (s.head + audit_log_size - s.count) s.count)
    ∙ ap length k.same

denied-map : (xs : List AuditEntry) (ds : List Denial) → denied xs ds ≡ xs ++ map entry_of ds
unfolding denied
denied-map xs [] = sym (append-nil xs)
denied-map xs (d ∷ ds) =
    denied-map (xs ++ entry_of d ∷ []) ds ∙ append_assoc xs (entry_of d ∷ []) (map entry_of ds)

-- The lifetime total counts every denial, in 32 bits.
deny_all-total :
    (s : AuditLog) (n : ℕ) (ds : List Denial)
    → s.total ≡ u32 n
    → (deny_all s ds).total ≡ u32 (n + length ds)
unfolding deny_all auditlog_record
deny_all-total s n [] e = e ∙ ap u32 (omega arith)
deny_all-total s n (d ∷ ds) e =
    deny_all-total (deny s d) (n + 1) ds (ap (λ k. u32 (k + 1)) e ∙ mod-add-mod n (2 ^ 32) 1)
    ∙ ap u32 (omega arith)

init_total : auditlog_init.total ≡ u32 0
unfolding auditlog_init
init_total = refl

-- The columns of a denial: its time, who asked for what, the level of the session and the level asked for.
abbrev pub columns : AuditEntry → Row
columns e = record {
  ticks = ticks_text e.timestamp;
  user = e.username;
  command = e.command;
  priv = priv_name e.privilege;
  required = priv_name e.required;
}

-- After any denials since the start the table that is printed has the newest 32 of them, newest first,
-- under their number and the number of all the denials in 32 bits. Without a denial the log prints that it
-- has none.
pub print_all-newest_first :
    (ds : List Denial)
    → auditlog_print_all (deny_all auditlog_init ds) ≡ (
        if length ds == 0
        then no_denials
        else table
            (length (newest audit_log_size (map entry_of ds)))
            (u32 (length ds))
            (map columns (reverse (newest audit_log_size (map entry_of ds)))))
unfolding auditlog_print_all row
print_all-newest_first ds =
    let s = deny_all auditlog_init ds in
    let k = deny_all-Keeps auditlog_init [] ds init-Keeps in
    let all : denied [] ds ≡ map entry_of ds = denied-map [] ds in
    let number : s.count ≡ length (newest audit_log_size (map entry_of ds)) =
      count-newest s (denied [] ds) k ∙ ap (λ l. length (newest audit_log_size l)) all in
    let empty : (s.count == 0) ≡ (length ds == 0) = ground (
      arith,
      number,
      length-drop (length (map entry_of ds) - audit_log_size) (map entry_of ds),
      length-map entry_of ds,
    ) in
    let total : s.total ≡ u32 (length ds) =
      deny_all-total auditlog_init 0 ds init_total ∙ ap u32 (omega arith) in
    let rows : rows_from s 0 s.count
        ≡ map columns (reverse (newest audit_log_size (map entry_of ds))) =
      rows-walk s 0 s.count k.front (omega (arith, k.fits))
      ∙ ap (map columns) (
          walk_back-reverse zero_entry s.entries audit_log_size s.head s.count k.fits
          ∙ ap reverse (k.same ∙ ap (newest audit_log_size) all)) in
    rw empty (
      ap (λ t. if length ds == 0 then no_denials else t)
        (ap₂ (λ n l. table n s.total l) number rows
          ∙ ap
              (λ t.
                table (length (newest audit_log_size (map entry_of ds))) t
                  (map columns (reverse (newest audit_log_size (map entry_of ds)))))
              total))

-- ===== src/Log/Tests.antt =====
-- Runs of the two logs, and the theorems about them at concrete inputs.
use mathlib.Core.List.{map, reverse}
use vernis_os.Prelude.{
  ℕ, ◌/◌, ◌≡◌, refl, List, [], ◌∷◌, none, some, arith, length, ◌==◌, if◌then◌else◌,
}
use vernis_os.Prelude.Words.{u32, u64}
use vernis_os.Prelude.Rings.{ring}
use vernis_os.Log.Decimal.{digits_rev, u64_to_dec, read_dec, u64_to_dec_exact, u64_to_dec_cut}
use vernis_os.Log.Recent.{newest, walk_back}
use vernis_os.Log.Klog.{
  klog, klog_init, klog_clear, klog_set_level, klog_ring_size, klog_print_recent, table, no_entries,
  make_entry, row, or_text, klog_level_name,
}
use vernis_os.Log.Newest.{
  Call, log, clear, set_level, exec, run, asked, logged, history, entries_of, run-newest,
  print_recent-newest_first,
}
use vernis_os.Log.Audit.{auditlog_init, auditlog_record, auditlog_print_all, audit_log_size}
use vernis_os.Log.Audit
use vernis_os.Log.Newest
use vernis_os.Log.Denials
use vernis_os.Log.Denials.{Denial, deny_all, entry_of, print_all-newest_first}

abbrev calls : List Call
calls =
    log 3 2 none none
    ∷ clear
    ∷ log 10 1 (some (b'f' ∷ b's' ∷ [])) (some (b'x' ∷ []))
    ∷ set_level 5
    ∷ log 11 4 none (some (b'y' ∷ []))
    ∷ []

log_code : ℕ
unfolding klog klog_init klog_clear klog_set_level exec run or_text klog_print_recent
    klog_level_name u64_to_dec digits_rev read_dec walk_back ring auditlog_record auditlog_init
    auditlog_print_all deny_all history logged asked row
log_code = 0

run-newest_example :
    (entries_of (run klog_init calls) ≡ newest klog_ring_size (history [] calls))
    × ((run klog_init calls).count ≡ length (newest klog_ring_size (history [] calls)))
run-newest_example = run-newest calls

print_recent-newest_first_example : klog_print_recent (run klog_init calls) 1 ≡ (
    let rows = asked 1 (reverse (newest klog_ring_size (history [] calls))) in
    if length (history [] calls) == 0
    then no_entries
    else table (map Newest.columns rows) (length rows) (u64_to_dec (u64 (logged calls)) 20))
print_recent-newest_first_example = print_recent-newest_first calls 1

-- The newest of the two entries left, and the three that were logged.
one_row :
    klog_print_recent (run klog_init calls) 1
    ≡ table (row (make_entry 11 4 none (some (b'y' ∷ []))) ∷ []) 1 (b'3' ∷ [])
unfolding log_code
one_row = refl

abbrev one_denial : List Denial
one_denial =
    record {
      timestamp = 77;
      username = b'b' ∷ [];
      command = b'r' ∷ b'm' ∷ [];
      privilege = 100;
      required = 0;
    }
    ∷ []

print_all-newest_first_example : auditlog_print_all (deny_all auditlog_init one_denial) ≡ (
    if length one_denial == 0
    then Audit.no_denials
    else Audit.table
        (length (newest audit_log_size (map entry_of one_denial)))
        (u32 (length one_denial))
        (map Denials.columns (reverse (newest audit_log_size (map entry_of one_denial)))))
print_all-newest_first_example = print_all-newest_first one_denial

u64_to_dec_exact_example : read_dec (u64_to_dec 4207 20) 0 ≡ 4207
u64_to_dec_exact_example = u64_to_dec_exact 4207 20 19 (omega arith) (omega arith) (omega arith)

u64_to_dec_cut_example : read_dec (u64_to_dec 18446744073709551615 20) 0 ≡ 18446744073709551615 / 10
u64_to_dec_cut_example = u64_to_dec_cut 18446744073709551615 (omega arith) (omega arith)

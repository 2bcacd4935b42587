-- ===== src/Log/Audit.antt =====
-- The log of denied commands: kernel/security/auditlog.c and include/auditlog.h.
use mathlib.Core.List.{reverse}
use vernis_os.Prelude.{
  ℕ, zero, suc, ◌+◌, ◌-◌, ◌%◌, List, [], ◌∷◌, ◌==◌, ltb, leb, if◌then◌else◌, get_or, set, replicate,
}
use vernis_os.Prelude.Strings.{truncate}
use vernis_os.Prelude.Words.{u32}
use vernis_os.Log.Decimal.{digits_rev}

abbrev pub audit_log_size : ℕ
audit_log_size = 32

abbrev pub audit_cmd_max : ℕ
audit_cmd_max = 48

abbrev pub audit_user_max : ℕ
audit_user_max = 16

pub record AuditEntry : Type 0 where
  pub timestamp : ℕ
  pub username : List ℕ
  pub command : List ℕ
  pub privilege : ℕ
  pub required : ℕ

pub record AuditLog : Type 0 where
  pub entries : List AuditEntry
  pub head : ℕ
  pub count : ℕ
  pub total : ℕ

abbrev pub zero_entry : AuditEntry
zero_entry = record { timestamp = 0; username = []; command = []; privilege = 0; required = 0 }

unfoldable pub auditlog_init : AuditLog
auditlog_init = record {
  entries = replicate audit_log_size zero_entry;
  head = 0;
  count = 0;
  total = 0;
}

abbrev pub make_entry : ℕ → List ℕ → List ℕ → ℕ → ℕ → AuditEntry
make_entry timestamp username command privilege required = record {
  timestamp = timestamp;
  username = truncate audit_user_max username;
  command = truncate audit_cmd_max command;
  privilege = privilege;
  required = required;
}

unfoldable pub auditlog_record : AuditLog → ℕ → List ℕ → List ℕ → ℕ → ℕ → AuditLog
auditlog_record s timestamp username command privilege required = record {
  entries = set s.entries s.head (make_entry timestamp username command privilege required);
  head = (s.head + 1) % audit_log_size;
  count = if ltb s.count audit_log_size then s.count + 1 else s.count;
  total = u32 (s.total + 1);
}

unfoldable pub priv_name : ℕ → List ℕ
priv_name p =
    if p == 0
    then b'r' ∷ b'o' ∷ b'o' ∷ b't' ∷ []
    else if leb p 50
    then b'a' ∷ b'd' ∷ b'm' ∷ b'i' ∷ b'n' ∷ []
    else if leb p 100
    then b'u' ∷ b's' ∷ b'e' ∷ b'r' ∷ []
    else b'?' ∷ []

-- The block of `auditlog_print_all` that prints the ticks. A `uint64_t` has at most 20 digits, so the fuel
-- of `digits_rev` is enough; the text is here without its terminator.
unfoldable pub ticks_text : ℕ → List ℕ
ticks_text v = if v == 0 then b'0' ∷ [] else reverse (digits_rev 20 v)

-- Entry `i` of the table stands here.
unfoldable pub index_back : ℕ → ℕ → ℕ
index_back head i = if leb (i + 1) head then head - i - 1 else audit_log_size - (i + 1 - head)

pub record Row : Type 0 where
  pub ticks : List ℕ
  pub user : List ℕ
  pub command : List ℕ
  pub priv : List ℕ
  pub required : List ℕ

unfoldable pub row : AuditEntry → Row
row e = record {
  ticks = ticks_text e.timestamp;
  user = e.username;
  command = e.command;
  priv = priv_name e.privilege;
  required = priv_name e.required;
}

-- The loop of `auditlog_print_all` from entry `i`, for `n` more entries.
unfoldable pub rows_from : AuditLog → ℕ → ℕ → List Row
rows_from s i zero = []
rows_from s i (suc n) =
    row (get_or s.entries (index_back s.head i) zero_entry) ∷ rows_from s (i + 1) n

pub data Screen : Type 0 where
  no_denials : Screen
  table : (count total : ℕ) → List Row → Screen

unfoldable pub auditlog_print_all : AuditLog → Screen
auditlog_print_all s =
    if s.count == 0 then no_denials else table s.count s.total (rows_from s 0 s.count)

-- ===== src/Log/Klog.antt =====
-- The kernel log: kernel/log/klog.c and include/klog.h. A serial line and a table row are values here.
use mathlib.Core.List.{map}
use vernis_os.Prelude.{
  ℕ, ◌+◌, ◌%◌, List, [], ◌∷◌, ◌++◌, Option, none, some, ◌==◌, ltb, leb, ◌||◌, if◌then◌else◌, set,
  replicate,
}
use vernis_os.Prelude.Strings.{truncate}
use vernis_os.Prelude.Words.{u64}
use vernis_os.Log.Decimal.{u64_to_dec}
use vernis_os.Log.Recent.{walk_back}

abbrev pub klog_tag_max : ℕ
klog_tag_max = 12

abbrev pub klog_msg_max : ℕ
klog_msg_max = 80

abbrev pub klog_ring_size : ℕ
klog_ring_size = 64

-- `KlogLevel`, 0 for FATAL to 5 for TRACE; any other value is printed as `?????`.
abbrev pub klog_info : ℕ
klog_info = 3

abbrev pub klog_trace : ℕ
klog_trace = 5

pub record KlogEntry : Type 0 where
  pub timestamp : ℕ
  pub level : ℕ
  pub tag : List ℕ
  pub message : List ℕ

pub record Klog : Type 0 where
  pub entries : List KlogEntry
  pub head : ℕ
  pub count : ℕ
  pub total : ℕ
  pub min_level : ℕ

abbrev pub zero_entry : KlogEntry
zero_entry = record { timestamp = 0; level = klog_trace; tag = []; message = [] }

unfoldable pub klog_init : Klog
klog_init = record {
  entries = replicate klog_ring_size zero_entry;
  head = 0;
  count = 0;
  total = 0;
  min_level = klog_info;
}

unfoldable pub klog_level_name : ℕ → List ℕ
klog_level_name level =
    if level == 0
    then b'F' ∷ b'A' ∷ b'T' ∷ b'A' ∷ b'L' ∷ []
    else if level == 1
    then b'E' ∷ b'R' ∷ b'R' ∷ b'O' ∷ b'R' ∷ []
    else if level == 2
    then b'W' ∷ b'A' ∷ b'R' ∷ b'N' ∷ b' ' ∷ []
    else if level == 3
    then b'I' ∷ b'N' ∷ b'F' ∷ b'O' ∷ b' ' ∷ []
    else if level == 4
    then b'D' ∷ b'E' ∷ b'B' ∷ b'U' ∷ b'G' ∷ []
    else if level == 5
    then b'T' ∷ b'R' ∷ b'A' ∷ b'C' ∷ b'E' ∷ []
    else b'?' ∷ b'?' ∷ b'?' ∷ b'?' ∷ b'?' ∷ []

unfoldable pub klog_level_short : ℕ → List ℕ
klog_level_short level =
    if level == 0
    then b'F' ∷ b'T' ∷ b'L' ∷ []
    else if level == 1
    then b'E' ∷ b'R' ∷ b'R' ∷ []
    else if level == 2
    then b'W' ∷ b'R' ∷ b'N' ∷ []
    else if level == 3
    then b'I' ∷ b'N' ∷ b'F' ∷ []
    else if level == 4
    then b'D' ∷ b'B' ∷ b'G' ∷ []
    else if level == 5
    then b'T' ∷ b'R' ∷ b'C' ∷ []
    else b'?' ∷ b'?' ∷ b'?' ∷ []

-- `tag ? tag : "?"` and `msg ? msg : ""`.
unfoldable pub or_text : Option (List ℕ) → List ℕ → List ℕ
or_text none other = other
or_text (some t) other = t

abbrev pub make_entry : ℕ → ℕ → Option (List ℕ) → Option (List ℕ) → KlogEntry
make_entry now level tag msg = record {
  timestamp = now;
  level = level;
  tag = truncate klog_tag_max (or_text tag (b'?' ∷ []));
  message = truncate klog_msg_max (or_text msg []);
}

unfoldable pub serial_line : KlogEntry → List ℕ
serial_line entry =
    (b'[' ∷ [])
    ++ u64_to_dec (entry.timestamp) 20
    ++ (b']' ∷ b'[' ∷ [])
    ++ klog_level_short (entry.level)
    ++ (b']' ∷ b'[' ∷ [])
    ++ entry.tag
    ++ (b']' ∷ b' ' ∷ [])
    ++ entry.message
    ++ (b'\n' ∷ [])

-- `klog`; `now` is what `kernel_get_ticks` returns. The second component is the serial output.
unfoldable pub klog : Klog → ℕ → ℕ → Option (List ℕ) → Option (List ℕ) → Klog × List ℕ
klog s now level tag msg =
    let entry = make_entry now level tag msg in
    (
      record {
        entries = set (s.entries) (s.head) entry;
        head = (s.head + 1) % klog_ring_size;
        count = if ltb (s.count) klog_ring_size then s.count + 1 else s.count;
        total = u64 (s.total + 1);
        min_level = s.min_level;
      },
      if leb level (s.min_level) then serial_line entry else [],
    )

unfoldable pub klog_set_level : Klog → ℕ → Klog
klog_set_level s min_level = record s { min_level = min_level }

unfoldable pub klog_clear : Klog → Klog
klog_clear s = record s { head = 0; count = 0 }

-- A row of the table, its four columns.
pub record Row : Type 0 where
  pub ticks : List ℕ
  pub name : List ℕ
  pub tag : List ℕ
  pub message : List ℕ

pub data Screen : Type 0 where
  no_entries : Screen
  table : List Row → ℕ → List ℕ → Screen

unfoldable pub row : KlogEntry → Row
row e = record {
  ticks = u64_to_dec (e.timestamp) 20;
  name = klog_level_name (e.level);
  tag = e.tag;
  message = e.message;
}

-- `if (count == 0 || count > g_count) count = g_count;`
abbrev pub shown : Klog → ℕ → ℕ
shown s count = if count == 0 || ltb (s.count) count then s.count else count

unfoldable pub klog_print_recent : Klog → ℕ → Screen
klog_print_recent s count =
    if shown s count == 0
    then no_entries
    else table
        (map row (walk_back zero_entry (s.entries) klog_ring_size (s.head) 0 (shown s count)))
        (shown s count) (u64_to_dec (s.total) 20)

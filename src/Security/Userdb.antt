-- ===== src/Security/Userdb.antt =====
-- The user database: kernel/security/userdb.c and include/userdb.h. What `kfs_read_file` gives for
-- /etc/shadow is an argument: the bytes, or `none` where it returns a negative number.
use Prim.Native.Nat.{bit_and}
use vernis_os.Prelude.{
  ℕ, zero, suc, ◌/◌, List, [], ◌∷◌, ◌++◌, Option, none, some, Bool, true, false, not, ◌==◌, ltb,
  leb, if◌then◌else◌, get_or, take, drop, length,
}
use vernis_os.Prelude.Bytes.{c_string}
use vernis_os.Prelude.Find.{find_index}
use vernis_os.Prelude.Strings.{str_eq}
use vernis_os.Security.Sha256.{sha256_hash, sha256_compare}

abbrev pub userdb_max_users : ℕ
userdb_max_users = 8

abbrev pub record_size : ℕ
record_size = 66

pub record UserRecord : Type 0 where
  pub username : List ℕ
  pub password_hash : List ℕ
  pub privilege : ℕ
  pub flags : ℕ

-- `g_users`, of which only the first `g_user_count` entries are ever read.
pub record Userdb : Type 0 where
  pub users : List UserRecord
  pub user_count : ℕ
  pub ready : Bool

-- `*(const UserRecord *)buf`
unfoldable pub parse_record : List ℕ → UserRecord
parse_record buf = record {
  username = take 32 buf;
  password_hash = take 32 (drop 32 buf);
  privilege = get_or buf 64 0;
  flags = get_or buf 65 0;
}

-- The loop of `userdb_init` over the records that are left, `n` at most, with room for `room` users.
unfoldable pub parse_users : List ℕ → ℕ → ℕ → List UserRecord
parse_users buf zero room = []
parse_users buf (suc n) zero = []
parse_users buf (suc n) (suc room) =
    let skipped = parse_users (drop record_size buf) n (suc room) in
    let taken = parse_record buf ∷ parse_users (drop record_size buf) n room in
    if ltb (length buf) record_size then [] else if get_or buf 0 0 == 0 then skipped else taken

-- The second component is the result.
unfoldable pub userdb_init : Userdb → Option (List ℕ) → Userdb × Bool
userdb_init db none = (record db { user_count = 0; ready = false }, false)
userdb_init db (some bytes) =
    let users = parse_users bytes (length bytes / record_size) userdb_max_users in
    if length bytes == 0
    then (record db { user_count = 0; ready = false }, false)
    else (record { users = users; user_count = length users; ready = true }, true)

-- The name of a record as the string that starts at its first byte: without a terminator in its 32 bytes it
-- runs on into the fields behind it. The model stops at the end of the record, where the code would go on
-- into the next one.
unfoldable pub name_of : UserRecord → List ℕ
name_of u = c_string (u.username ++ u.password_hash ++ u.privilege ∷ u.flags ∷ [])

-- The test of the loops of `userdb_find_user` and `userdb_find_uid`.
abbrev pub is_named : List ℕ → UserRecord → Bool
is_named username u = str_eq (name_of u) username

abbrev pub zero_user : UserRecord
zero_user = record { username = []; password_hash = []; privilege = 0; flags = 0 }

unfoldable pub userdb_find_user : Userdb → List ℕ → Option UserRecord
userdb_find_user db username =
    if not db.ready
    then none
    else elim (find_index (is_named username) (take db.user_count db.users)) [
      | none ↦ none
      | some i ↦ some (get_or db.users i zero_user)
    ]

-- `username` is `none` for NULL; the result is `none` for -1.
unfoldable pub userdb_find_uid : Userdb → Option (List ℕ) → Option ℕ
userdb_find_uid db none = none
userdb_find_uid db (some username) =
    if not db.ready then none else find_index (is_named username) (take db.user_count db.users)

unfoldable pub userdb_get_user : Userdb → ℕ → Option UserRecord
userdb_get_user db index =
    if leb db.user_count index then none else some (get_or db.users index zero_user)

abbrev pub is_active : UserRecord → Bool
is_active u = not (bit_and u.flags 0x01 == 0)

abbrev pub is_locked : UserRecord → Bool
is_locked u = not (bit_and u.flags 0x02 == 0)

abbrev pub needs_none : UserRecord → Bool
needs_none u = not (bit_and u.flags 0x04 == 0)

-- The password test of `userdb_authenticate`; `stack` is what the digest's buffer holds before.
unfoldable pub check_password : List ℕ → UserRecord → Option (List ℕ) → Option ℕ
check_password stack u none = none
check_password stack u (some password) =
    if sha256_compare (sha256_hash stack password) u.password_hash then some u.privilege else none

unfoldable pub admit : List ℕ → UserRecord → Option (List ℕ) → Option ℕ
admit stack u password =
    if not (is_active u)
    then none
    else if is_locked u
    then none
    else if needs_none u
    then some u.privilege
    else check_password stack u password

-- The result is the privilege, or `none` for -1. `userdb_find_user` tests `g_userdb_ready` again.
unfoldable pub userdb_authenticate : List ℕ → Userdb → List ℕ → Option (List ℕ) → Option ℕ
userdb_authenticate stack db username password =
    if not db.ready
    then none
    else elim (userdb_find_user db username) [ none ↦ none | some u ↦ admit stack u password ]

-- ===== src/Security/Records.antt =====
-- What `userdb_init` makes of a file of records.
use mathlib.Core.Path.{ap₂}
use vernis_os.Prelude.{
  ℕ, zero, suc, ◌+◌, ◌*◌, ◌/◌, ◌≤◌, ◌<◌, ◌≡◌, ◌≢◌, inl, inr, refl, sym, ◌∙◌, ap, List, [], ◌∷◌,
  ◌++◌, Option, none, some, true, false, ◌==◌, ltb, arith, get_or, take, drop, length, All,
  Bool-cases, take-append, take-nil, drop-append, drop-plus, length-append, length-drop,
  length-take,
}
use vernis_os.Security.Userdb.{
  UserRecord, Userdb, parse_record, parse_users, record_size, userdb_max_users, userdb_init,
  userdb_authenticate,
}
use vernis_os.Security.Login.{HasDigest, MayLogIn, authenticate-MayLogIn}

-- A file of records, one after the other.
unfoldable pub encode_users : List UserRecord → List ℕ
encode_users [] = []
encode_users (u ∷ us) = u.username ++ (u.password_hash ++ (u.privilege ∷ u.flags ∷ encode_users us))

-- A record that can stand in a file: its fields have their sizes, and its name is not empty.
pub record WellSized (u : UserRecord) : Type 0 where
  pub name_size : length u.username ≡ 32
  pub hash_size : HasDigest u
  pub named : get_or u.username 0 0 ≢ 0

get_or-append_left :
    (xs ys : List ℕ) (i : ℕ) → i < length xs → get_or (xs ++ ys) i 0 ≡ get_or xs i 0
get_or-append_left [] ys i h = absurd (omega arith)
get_or-append_left (x ∷ xs) ys zero h = refl
get_or-append_left (x ∷ xs) ys (suc i) h = get_or-append_left xs ys i (omega arith)

get_or-drop : (n i : ℕ) (xs : List ℕ) → get_or (drop n xs) i 0 ≡ get_or xs (n + i) 0
get_or-drop zero i xs = let e : i ≡ 0 + i = omega arith in ap (λ k. get_or xs k 0) e
get_or-drop (suc n) i [] = refl
get_or-drop (suc n) i (x ∷ xs) =
    let e : suc (n + i) ≡ suc n + i = omega arith in
    get_or-drop n i xs ∙ ap (λ k. get_or (x ∷ xs) k 0) e

-- The first record of such a file.
module _ (u : UserRecord) (rest : List ℕ) (ok : WellSized u) where
  abbrev file : List ℕ
  file = u.username ++ (u.password_hash ++ (u.privilege ∷ u.flags ∷ rest))

  behind_name : drop 32 file ≡ u.password_hash ++ (u.privilege ∷ u.flags ∷ rest)
  behind_name = rw⁻¹ ok.name_size (drop-append u.username _)

  behind_hash : drop 64 file ≡ u.privilege ∷ u.flags ∷ rest
  behind_hash =
      sym (drop-plus 32 32 file)
      ∙ ap (drop 32) behind_name
      ∙ rw⁻¹ ok.hash_size (drop-append u.password_hash (u.privilege ∷ u.flags ∷ rest))

  front : take 32 file ≡ u.username
  front = rw⁻¹ ok.name_size (take-append u.username _)

  middle : take 32 (u.password_hash ++ (u.privilege ∷ u.flags ∷ rest)) ≡ u.password_hash
  middle = rw⁻¹ ok.hash_size (take-append u.password_hash _)

  parse_record-file : parse_record file ≡ u
  unfolding parse_record
  parse_record-file = λ i. record {
    username = front i;
    password_hash = (ap (take 32) behind_name ∙ middle) i;
    privilege = (sym (get_or-drop 64 0 file) ∙ ap (λ l. get_or l 0 0) behind_hash) i;
    flags = (sym (get_or-drop 64 1 file) ∙ ap (λ l. get_or l 1 0) behind_hash) i;
  }

  behind_record : drop record_size file ≡ rest
  behind_record = sym (drop-plus 64 2 file) ∙ ap (drop 2) behind_hash

  length-file : length file ≡ 66 + length rest
  length-file = omega (
    arith,
    length-append u.username (u.password_hash ++ (u.privilege ∷ u.flags ∷ rest)),
    length-append u.password_hash (u.privilege ∷ u.flags ∷ rest),
    ok.name_size,
    ok.hash_size,
  )

  first_byte : get_or file 0 0 ≢ 0
  first_byte e = ok.named (
      sym (
        get_or-append_left u.username (u.password_hash ++ (u.privilege ∷ u.flags ∷ rest)) 0
          (omega (arith, ok.name_size)))
      ∙ e)

parse_users-encode_users :
    (us : List UserRecord) (n room : ℕ)
    → All WellSized us
    → length us ≤ n
    → parse_users (encode_users us) n room ≡ take room us
unfolding parse_users encode_users
parse_users-encode_users [] zero room ok h = sym (take-nil UserRecord room)
parse_users-encode_users (u ∷ us) zero room ok h = absurd (omega arith)
parse_users-encode_users us (suc n) zero ok h = refl
parse_users-encode_users [] (suc n) (suc room) ok h = refl
parse_users-encode_users (u ∷ us) (suc n) (suc room) ok h =
    let bytes = encode_users (u ∷ us) in
    let long : ltb (length bytes) record_size ≡ false =
      ground (arith, length-file u (encode_users us) ok.0) in
    let used : (get_or bytes 0 0 == 0) ≡ false =
      ground (arith, first_byte u (encode_users us) ok.0) in
    rw (long, used)
      (ap₂ ◌∷◌ (parse_record-file u (encode_users us) ok.0) (
        ap (λ b. parse_users b n room) (behind_record u (encode_users us) ok.0)
        ∙ parse_users-encode_users us n room ok.1 (omega arith)))

length-encode_users :
    (us : List UserRecord) → All WellSized us → length (encode_users us) ≡ length us * 66
unfolding encode_users
length-encode_users [] ok = refl
length-encode_users (u ∷ us) ok =
    omega (arith, length-file u (encode_users us) ok.0, length-encode_users us ok.1)

-- From a file of records with names and fields of the right sizes, at least one, `userdb_init` loads the
-- first eight.
pub userdb_init-encode_users :
    (db : Userdb) (us : List UserRecord)
    → All WellSized us
    → length us ≢ 0
    → userdb_init db (some (encode_users us)) ≡ (
      record {
        users = take userdb_max_users us;
        user_count = length (take userdb_max_users us);
        ready = true;
      },
      true,
    )
unfolding userdb_init
userdb_init-encode_users db us ok some_user =
    let size = length-encode_users us ok in
    let filled : (length (encode_users us) == 0) ≡ false = ground (arith, size) in
    let count : length (encode_users us) / record_size ≡ length us = omega (arith, size) in
    simp filled (
      ap (λ l. (record { users = l; user_count = length l; ready = true }, true))
        (ap (λ n. parse_users (encode_users us) n userdb_max_users) count
          ∙ parse_users-encode_users us (length us) userdb_max_users ok (omega arith)))

-- Whatever bytes the file has, a record of the table has a whole digest.
parse_record-HasDigest : (buf : List ℕ) → record_size ≤ length buf → HasDigest (parse_record buf)
unfolding parse_record
parse_record-HasDigest buf h = omega (arith, length-take 32 (drop 32 buf), length-drop 32 buf)

parse_users-HasDigest : (buf : List ℕ) (n room : ℕ) → All HasDigest (parse_users buf n room)
unfolding parse_users
parse_users-HasDigest buf zero room = tt
parse_users-HasDigest buf (suc n) zero = tt
parse_users-HasDigest buf (suc n) (suc room) = elim (Bool-cases (ltb (length buf) record_size)) [
  | inl short ↦ rw short tt
  | inr long ↦ elim (Bool-cases (get_or buf 0 0 == 0)) [
    | inl empty ↦ rw (long, empty) (parse_users-HasDigest (drop record_size buf) n (suc room))
    | inr used ↦
        rw (long, used)
          (
            parse_record-HasDigest buf (ground (arith, long)),
            parse_users-HasDigest (drop record_size buf) n room,
          )
  ]
]

down_none :
    (stack : List ℕ) (db : Userdb) (username : List ℕ) (password : Option (List ℕ)) (level : ℕ)
    → db.ready ≡ false
    → userdb_authenticate stack db username password ≢ some level
unfolding userdb_authenticate
down_none stack db username password level down e = ground (arith, down)

-- After `userdb_init`, whatever the file holds, a login that succeeds has a right to: the level is that of an
-- active, not locked record of that name, and the password has its digest unless none is needed.
pub login-MayLogIn :
    (stack : List ℕ) (db : Userdb) (file : Option (List ℕ)) (username : List ℕ)
    (password : Option (List ℕ)) (level : ℕ)
    → length stack ≡ 64
    → userdb_authenticate stack (userdb_init db file).0 username password ≡ some level
    → MayLogIn (userdb_init db file).0 username password level
unfolding userdb_init
login-MayLogIn stack db none username password level room e =
    absurd (down_none stack _ username password level refl e)
login-MayLogIn stack db (some bytes) username password level room e =
    elim (Bool-cases (length bytes == 0)) [
      | inl empty ↦ absurd (down_none stack _ username password level (rw empty refl) e)
      | inr filled ↦
          authenticate-MayLogIn stack (userdb_init db (some bytes)).0 username password level room
            (rw (filled, userdb_init)
              (parse_users-HasDigest bytes (length bytes / record_size) userdb_max_users))
            e
    ]

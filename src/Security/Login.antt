-- ===== src/Security/Login.antt =====
-- Who can log in, and what `userdb_init` makes of a file.
use Prim.Native.Nat.{bit_or, bit_xor}
use native.Mathlib.Decide.{ℕ_discrete}
use mathlib.Core.Path.{subst, ap₂}
use vernis_os.Prelude.{
  ℕ, zero, suc, ◌+◌, ◌≤◌, ◌<◌, ◌≡◌, ◌⊎◌, inl, inr, refl, sym, ◌∙◌, ap, List, [], ◌∷◌, Option, none,
  some, true, false, arith, get_or, take, length, All, Bool-cases, Option-cases, length-take,
  All-get,
}
use vernis_os.Prelude.Bits.{bit_xor-zero, bit_xor_self, bit_or-zero}
use vernis_os.Prelude.Find.{find_index, find_index-Hit}
use vernis_os.Security.Sha256.{
  sha256_hash, sha256_compare, sha256_final, sha256_transform, diff_from, digest_of,
}
use vernis_os.Security.Padding.{reference_hash}
use vernis_os.Security.Digest.{sha256_hash_lem}
use vernis_os.Security.Userdb.{
  UserRecord, Userdb, userdb_find_user, userdb_authenticate, admit, check_password, is_active,
  is_locked, needs_none, is_named, zero_user,
}

-- The difference stays 0 exactly as long as the bytes agree.
diff_from-zero :
    (a b : List ℕ) (i n diff : ℕ)
    → diff_from a b i n diff ≡ 0
    → (diff ≡ 0) × ((j : ℕ) → i ≤ j → j < i + n → get_or a j 0 ≡ get_or b j 0)
unfolding diff_from
diff_from-zero a b i zero diff e = (e, λ j le lt. absurd (omega arith))
diff_from-zero a b i (suc n) diff e =
    let (both, rest) =
      diff_from-zero a b (i + 1) n (bit_or diff (bit_xor (get_or a i 0) (get_or b i 0))) e in
    let (before, byte) = bit_or-zero diff (bit_xor (get_or a i 0) (get_or b i 0)) both in
    (
      before,
      λ j le lt. elim (ℕ_discrete i j) [
        | yes same ↦
            subst (λ k. get_or a k 0 ≡ get_or b k 0) same
              (bit_xor-zero (get_or a i 0) (get_or b i 0) byte)
        | no other ↦ rest j (omega arith) (omega arith)
      ],
    )

diff_from_self : (a : List ℕ) (i n : ℕ) → diff_from a a i n 0 ≡ 0
unfolding diff_from
diff_from_self a i zero = refl
diff_from_self a i (suc n) =
    ap (λ x. diff_from a a (i + 1) n (bit_or 0 x)) (bit_xor_self (get_or a i 0))
    ∙ diff_from_self a (i + 1) n

list_ext :
    (a b : List ℕ)
    → length a ≡ length b
    → ((j : ℕ) → j < length a → get_or a j 0 ≡ get_or b j 0)
    → a ≡ b
list_ext [] [] e same = refl
list_ext [] (y ∷ ys) e same = absurd (omega arith)
list_ext (x ∷ xs) [] e same = absurd (omega arith)
list_ext (x ∷ xs) (y ∷ ys) e same =
    ap₂ ◌∷◌ (same 0 (omega arith))
      (list_ext xs ys (omega arith) (λ j lt. same (suc j) (omega arith)))

-- Two digests compare as equal exactly if they are equal.
pub sha256_compare_lem :
    (a b : List ℕ)
    → length a ≡ 32
    → length b ≡ 32
    → (sha256_compare a b ≡ true → a ≡ b) × (a ≡ b → sha256_compare a b ≡ true)
unfolding sha256_compare
sha256_compare_lem a b la lb = (
  λ e.
      let (start, bytes) = diff_from-zero a b 0 32 0 (ground arith) in
      list_ext a b (la ∙ sym lb) (λ j lt. bytes j (omega arith) (omega arith)),
  λ e. rw e (let none_differ = diff_from_self b 0 32 in ground (arith, none_differ)),
)

length-digest : (state block : List ℕ) → length (digest_of (sha256_transform state block)) ≡ 32
unfolding sha256_transform digest_of
length-digest state block = refl

length-sha256_hash : (stack w : List ℕ) → length (sha256_hash stack w) ≡ 32
unfolding sha256_hash sha256_final
length-sha256_hash stack w = length-digest _ _

-- Every record of the table has a whole digest.
abbrev pub HasDigest : UserRecord → Type 0
HasDigest u = length u.password_hash ≡ 32

-- What it takes to log in: a record of that name that is active and not locked, and either no password is
-- needed or the one given has the record's digest. The level is the record's.
pub record MayLogIn (db : Userdb) (username : List ℕ) (password : Option (List ℕ)) (level : ℕ)
    : Type 0 where
  pub user : UserRecord
  pub found : userdb_find_user db username ≡ some user
  pub active : is_active user ≡ true
  pub unlocked : is_locked user ≡ false
  pub granted : level ≡ user.privilege
  pub proof :
      (needs_none user ≡ true)
      ⊎ ((w : List ℕ) × (password ≡ some w) × (user.password_hash ≡ reference_hash w))

find_user-HasDigest :
    (db : Userdb) (username : List ℕ) (u : UserRecord)
    → All HasDigest db.users
    → userdb_find_user db username ≡ some u
    → HasDigest u
unfolding userdb_find_user
find_user-HasDigest db username u all e = elim (Bool-cases db.ready) [
  | inr down ↦ absurd (ground (arith, down))
  | inl up ↦ elim (Option-cases (find_index (is_named username) (take db.user_count db.users))) [
    | inl miss ↦ absurd (cc (rw (up, miss) at e))
    | inr (i, hit) ↦
        let h = find_index-Hit (is_named username) (take db.user_count db.users) zero_user i hit in
        let same : get_or db.users i zero_user ≡ u = cc (rw (up, hit) at e) in
        rw⁻¹ same (
          All-get HasDigest db.users i zero_user all
            (omega (arith, h.inside, length-take db.user_count db.users)))
  ]
]

check_password_lem :
    (stack : List ℕ) (u : UserRecord) (w : List ℕ) (level : ℕ)
    → length stack ≡ 64
    → HasDigest u
    → (check_password stack u (some w) ≡ some level
        → (level ≡ u.privilege) × (u.password_hash ≡ reference_hash w))
      × (u.password_hash ≡ reference_hash w → check_password stack u (some w) ≡ some u.privilege)
unfolding check_password
check_password_lem stack u w level room digest =
    let c =
      sha256_compare_lem (sha256_hash stack w) u.password_hash (length-sha256_hash stack w)
        digest in
    let hash = sha256_hash_lem stack w room in
    (
      λ e. elim (Bool-cases (sha256_compare (sha256_hash stack w) u.password_hash)) [
        | inl same ↦ (ground arith, sym (c.0 same) ∙ hash)
        | inr other ↦ absurd (ground (arith, other))
      ],
      λ e. let same = c.1 (hash ∙ sym e) in rw same refl,
    )

admit_lem :
    (stack : List ℕ) (u : UserRecord) (password : Option (List ℕ)) (level : ℕ)
    → length stack ≡ 64
    → HasDigest u
    → admit stack u password ≡ some level
    → (is_active u ≡ true)
      × (is_locked u ≡ false)
      × (level ≡ u.privilege)
      × ((needs_none u ≡ true)
          ⊎ ((w : List ℕ) × (password ≡ some w) × (u.password_hash ≡ reference_hash w)))
unfolding admit check_password
admit_lem stack u password level room digest e = elim (Bool-cases (is_active u)) [
  | inr idle ↦ absurd (ground (arith, idle))
  | inl active ↦ elim (Bool-cases (is_locked u)) [
    | inl locked ↦ absurd (ground (arith, active, locked))
    | inr unlocked ↦ elim (Bool-cases (needs_none u)) [
      | inl free ↦ (active, unlocked, ground (arith, active, unlocked, free), inl free)
      | inr guarded ↦ by_password password (simp (active, unlocked, guarded) at e) active unlocked
    ]
  ]
]
  where
    by_password :
        (password : Option (List ℕ))
        → check_password stack u password ≡ some level
        → is_active u ≡ true
        → is_locked u ≡ false
        → (is_active u ≡ true)
          × (is_locked u ≡ false)
          × (level ≡ u.privilege)
          × ((needs_none u ≡ true)
              ⊎ ((w : List ℕ) × (password ≡ some w) × (u.password_hash ≡ reference_hash w)))
    by_password none e active unlocked = absurd (cc e)
    by_password (some w) e active unlocked =
        let (granted, hash) = (check_password_lem stack u w level room digest).0 e in
        (active, unlocked, granted, inr (w, refl, hash))

find_user-ready :
    (db : Userdb) (username : List ℕ) (u : UserRecord)
    → userdb_find_user db username ≡ some u
    → db.ready ≡ true
unfolding userdb_find_user
find_user-ready db username u e = elim (Bool-cases db.ready) [
  | inl up ↦ up
  | inr down ↦ absurd (ground (arith, down))
]

-- Over a table of whole digests, a login that succeeds has a right to: the level is that of an active, not
-- locked record of that name, and the password has its digest unless none is needed.
pub authenticate-MayLogIn :
    (stack : List ℕ) (db : Userdb) (username : List ℕ) (password : Option (List ℕ)) (level : ℕ)
    → length stack ≡ 64
    → All HasDigest db.users
    → userdb_authenticate stack db username password ≡ some level
    → MayLogIn db username password level
unfolding userdb_authenticate
authenticate-MayLogIn stack db username password level room all e = elim (Bool-cases db.ready) [
  | inr down ↦ absurd (ground (arith, down))
  | inl up ↦ elim (Option-cases (userdb_find_user db username)) [
    | inl miss ↦ absurd (cc (rw (miss, up) at e))
    | inr (u, hit) ↦
        let (active, unlocked, granted, proof) =
          admit_lem stack u password level room (find_user-HasDigest db username u all hit)
            (rw (hit, up) at e) in
        record {
          user = u;
          found = hit;
          active = active;
          unlocked = unlocked;
          granted = granted;
          proof = proof;
        }
  ]
]

-- Over a table of whole digests, a user with an active, not locked record logs in with a password of its
-- digest, or any if none is needed, and gets the record's level.
pub MayLogIn-authenticate :
    (stack : List ℕ) (db : Userdb) (username : List ℕ) (password : Option (List ℕ)) (level : ℕ)
    → length stack ≡ 64
    → All HasDigest db.users
    → MayLogIn db username password level
    → userdb_authenticate stack db username password ≡ some level
unfolding userdb_authenticate admit
MayLogIn-authenticate stack db username password level room all m =
    let up : db.ready ≡ true = find_user-ready db username m.user m.found in
    let digest = find_user-HasDigest db username m.user all m.found in
    rw (m.found, up)
      (elim m.proof [
        | inl free ↦ rw (m.active, m.unlocked, free) (ap some (sym m.granted))
        | inr (w, given, hash) ↦ elim (Bool-cases (needs_none m.user)) [
          | inl free ↦ rw (m.active, m.unlocked, free) (ap some (sym m.granted))
          | inr guarded ↦
              rw (m.active, m.unlocked, guarded, given)
                ((check_password_lem stack m.user w level room digest).1 hash
                  ∙ ap some (sym m.granted))
        ]
      ])

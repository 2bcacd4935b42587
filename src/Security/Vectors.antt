-- ===== src/Security/Vectors.antt =====
-- The digest and the user database at known inputs.
use vernis_os.Prelude.{
  ℕ, List, [], ◌∷◌, ◌≡◌, refl, sym, ◌∙◌, some, true, false, inr, arith, replicate,
}
use vernis_os.Prelude.Bytes.{c_string}
use vernis_os.Prelude.Find.{find_index, find_from}
use vernis_os.Prelude.Strings.{str_eq}
use vernis_os.Security.Padding.{reference_hash}
use vernis_os.Security.Digest.{sha256_hash_lem}
use vernis_os.Security.Userdb.{
  UserRecord, Userdb, userdb_init, userdb_authenticate, userdb_find_user, admit, check_password,
  name_of, parse_users, parse_record,
}
use vernis_os.Security.Login.{MayLogIn, MayLogIn-authenticate}
use vernis_os.Security.Records.{encode_users, WellSized, userdb_init-encode_users, login-MayLogIn}
use vernis_os.Security.Sha256.{
  sha256_hash, sha256_final, sha256_update, sha256_init, absorb, sha256_transform, initial_state,
  pad_block, fill_zeros, put_bytes, length_bytes, digest_of, sha256_compare, diff_from,
}

sha_code : ℕ
unfolding sha256_hash sha256_final sha256_update sha256_init absorb sha256_transform initial_state
    pad_block fill_zeros put_bytes length_bytes digest_of
sha_code = 0

abbrev stack : List ℕ
stack = replicate 64 0

abbrev abc : List ℕ
abc = b'a' ∷ b'b' ∷ b'c' ∷ []

abbrev abc_hash : List ℕ
abc_hash =
    0xba ∷ 0x78 ∷ 0x16 ∷ 0xbf ∷ 0x8f ∷ 0x01 ∷ 0xcf ∷ 0xea ∷ 0x41 ∷ 0x41 ∷ 0x40 ∷ 0xde ∷ 0x5d ∷ 0xae
    ∷ 0x22 ∷ 0x23 ∷ 0xb0 ∷ 0x03 ∷ 0x61 ∷ 0xa3 ∷ 0x96 ∷ 0x17 ∷ 0x7a ∷ 0x9c ∷ 0xb4 ∷ 0x10 ∷ 0xff
    ∷ 0x61 ∷ 0xf2 ∷ 0x00 ∷ 0x15 ∷ 0xad ∷ []

-- The digest of "abc", as FIPS 180-4 gives it.
abc_digest : sha256_hash stack abc ≡ abc_hash
unfolding sha_code
abc_digest = refl

sha256_hash_lem_example : sha256_hash stack abc ≡ reference_hash abc
sha256_hash_lem_example = sha256_hash_lem stack abc refl

abbrev alice : UserRecord
alice = record {
  username = b'a' ∷ replicate 31 0;
  password_hash = abc_hash;
  privilege = 50;
  flags = 1;
}

alice-WellSized : WellSized alice
alice-WellSized = record { name_size = refl; hash_size = refl; named = omega arith }

abbrev empty_db : Userdb
empty_db = record { users = []; user_count = 0; ready = false }

userdb_init-encode_users_example :
    userdb_init empty_db (some (encode_users (alice ∷ [])))
    ≡ (record { users = alice ∷ []; user_count = 1; ready = true }, true)
userdb_init-encode_users_example =
    userdb_init-encode_users empty_db (alice ∷ []) (alice-WellSized, tt) (omega arith)

abbrev loaded : Userdb
loaded = (userdb_init empty_db (some (encode_users (alice ∷ [])))).0

userdb_code : ℕ
unfolding sha_code userdb_init userdb_authenticate userdb_find_user admit check_password name_of
    c_string find_index find_from str_eq parse_users parse_record encode_users sha256_compare
    diff_from
userdb_code = 0

logged_in : userdb_authenticate stack loaded (b'a' ∷ []) (some abc) ≡ some 50
unfolding userdb_code
logged_in = refl

login-MayLogIn_example : MayLogIn loaded (b'a' ∷ []) (some abc) 50
login-MayLogIn_example =
    login-MayLogIn stack empty_db (some (encode_users (alice ∷ []))) (b'a' ∷ []) (some abc) 50 refl
      logged_in

abbrev one_user : Userdb
one_user = record { users = alice ∷ []; user_count = 1; ready = true }

alice_found : userdb_find_user one_user (b'a' ∷ []) ≡ some alice
unfolding userdb_code
alice_found = refl

MayLogIn-authenticate_example : userdb_authenticate stack one_user (b'a' ∷ []) (some abc) ≡ some 50
MayLogIn-authenticate_example =
    MayLogIn-authenticate stack one_user (b'a' ∷ []) (some abc) 50 refl (refl, tt)
      (record {
        user = alice;
        found = alice_found;
        active = refl;
        unlocked = refl;
        granted = refl;
        proof = inr (abc, refl, sym abc_digest ∙ sha256_hash_lem stack abc refl);
      })

-- ===== src/Vernisfs/Names.antt =====
-- The names of entries, and the entry that a search by name finds.
use mathlib.Core.List.{append_assoc}
use vernis_os.Prelude.{
  ℕ, suc, ◌-◌, ◌<◌, ◌≡◌, ◌≢◌, refl, ◌∙◌, ap, List, [], ◌∷◌, ◌++◌, true, false, inl, inr, arith,
  ◌==◌, length, take, replicate, take-length, Bool-cases, length-append, length-replicate,
  length-take,
}
use vernis_os.Prelude.Bytes.{to_le, c_string, c_string-IsText, c_string-append}
use vernis_os.Prelude.Strings.{IsText, str_eq, str_eq→eq, str_eq_refl, str_eq-false}
use vernis_os.Vernisfs.{FileEntry, encode_entry, name_of, fixed_name, is_file, is_used}

-- The part of an entry behind its name.
abbrev behind_name : FileEntry → List ℕ
behind_name e =
    to_le 4 e.start_sector
    ++ (to_le 4 e.size
        ++ (to_le 1 e.type
            ++ (to_le 1 e.flags
                ++ (to_le 2 e.mode ++ (to_le 2 e.uid ++ (to_le 2 e.gid ++ e.reserved))))))

-- A string that ends inside a field does not hang on what comes behind it.
c_string_stops :
    (xs ys zs : List ℕ)
    → length (c_string (xs ++ ys)) < length xs
    → c_string (xs ++ zs) ≡ c_string (xs ++ ys)
unfolding c_string
c_string_stops [] ys zs h = absurd (omega arith)
c_string_stops (x ∷ xs) ys zs h = elim (Bool-cases (x == 0)) [
  | inl end ↦ rw end refl
  | inr more ↦ rw more (ap (λ l. x ∷ l) (c_string_stops xs ys zs (ground (arith, more, h))))
]

name_of-IsText : (e : FileEntry) → IsText (name_of e)
unfolding name_of
name_of-IsText e = c_string-IsText (encode_entry e)

-- An entry that is found by a short name has that name.
pub is_file-name :
    (path : List ℕ) (e : FileEntry) → IsText path → is_file path e ≡ true → name_of e ≡ path
is_file-name path e text hit =
    str_eq→eq (name_of e) path (name_of-IsText e) text (ground (arith, hit))

-- It keeps it when other fields than the name and the type change.
pub is_file_keeps :
    (path : List ℕ) (e e2 : FileEntry)
    → IsText path
    → length path < length e.filename
    → e2.filename ≡ e.filename
    → e2.type ≡ e.type
    → is_file path e ≡ true
    → is_file path e2 ≡ true
unfolding name_of encode_entry
is_file_keeps path e e2 text short same_name same_type hit =
    let name = is_file-name path e text hit in
    let stops : name_of e2 ≡ path =
      ap (λ l. c_string (l ++ behind_name e2)) same_name
      ∙ c_string_stops e.filename (behind_name e) (behind_name e2) (omega (arith, ap length name))
      ∙ name in
    let equal : str_eq (name_of e2) path ≡ true = rw stops (str_eq_refl path) in
    rw (equal, same_type) (ground (arith, hit))

-- The name that a new entry gets is found.
pub name_of-fixed_name :
    (path : List ℕ) (e : FileEntry)
    → IsText path
    → length path < 32
    → e.filename ≡ fixed_name path
    → name_of e ≡ path
unfolding name_of encode_entry fixed_name
name_of-fixed_name path e text short named =
    let whole : take 31 path ≡ path = take-length 31 path (omega arith) in
    let room = 31 - length path in
    let zeros : 32 - length path ≡ suc room = omega arith in
    ap (λ l. c_string (l ++ behind_name e))
      (named
        ∙ ap (λ p. p ++ replicate (32 - length p) 0) whole
        ∙ ap (λ n. path ++ replicate n 0) zeros)
    ∙ ap c_string (append_assoc path (replicate (suc room) 0) (behind_name e))
    ∙ c_string-append path (replicate room 0 ++ behind_name e) text

pub length-fixed_name : (path : List ℕ) → length (fixed_name path) ≡ 32
unfolding fixed_name
length-fixed_name path = omega (
  arith,
  length-append (take 31 path) (replicate (32 - length (take 31 path)) 0),
  length-replicate {A = ℕ} (32 - length (take 31 path)) 0,
  length-take 31 path,
)

pub is_file-eq :
    (path : List ℕ) (e : FileEntry) → name_of e ≡ path → is_used e ≡ true → is_file path e ≡ true
is_file-eq path e name used = rw (name, used) (str_eq_refl path)

-- Under another name it is not found.
pub is_file-other :
    (path other : List ℕ) (e : FileEntry)
    → IsText path
    → IsText other
    → path ≢ other
    → is_file path e ≡ true
    → is_file other e ≡ false
is_file-other path other e text text2 ne hit =
    let name = is_file-name path e text hit in
    let differs : str_eq (name_of e) other ≡ false =
      rw name (str_eq-false path other text text2 ne) in
    ground (arith, differs)

-- ===== src/Vernisfs/Files.antt =====
-- The operations of kernel/fs/vernisfs.c that change the file table.
use Prim.Native.Nat.{bit_and}
use vernis_os.Prelude.{
  ℕ, zero, suc, ◌+◌, ◌-◌, ◌/◌, List, [], ◌∷◌, ◌++◌, Option, none, some, Bool, false, not, ◌==◌, ltb,
  if◌then◌else◌, set, take, length,
}
use vernis_os.Prelude.Find.{find_index, count_if}
use vernis_os.Prelude.Strings.{str_eq}
use vernis_os.Prelude.Words.{u16, u32}
use vernis_os.Vernisfs.{
  Vfs, DiskOps, FileEntry, zero_entry, entry_at, put_entry, is_file, is_free, is_used,
  vfs_find_file, vfs_read_file, vfs_flush_metadata, write_data, fixed_name, name_of, abs_sector,
  type_regular, type_directory,
}

-- The entry of a new file in a free slot; the name's 32 bytes are new, the reserved ones stay.
unfoldable pub new_file : FileEntry → List ℕ → ℕ → FileEntry
new_file old path start = record old {
  filename = fixed_name path;
  type = type_regular;
  flags = 0;
  mode = 0o644;
  uid = 0;
  gid = 0;
  start_sector = start;
}

unfoldable pub new_dir : FileEntry → List ℕ → FileEntry
new_dir old path = record old {
  filename = fixed_name path;
  type = type_directory;
  size = 0;
  flags = 0;
  mode = 0o755;
  uid = 0;
  gid = 0;
}

-- A result of -1 is `none`.
module _ {D : Type 0} (ops : DiskOps D) where
  -- "Find existing file or empty slot": the slot, with its new entry in the table if there was none.
  unfoldable pub claim_slot : Vfs D → List ℕ → Vfs D × Option ℕ
  claim_slot s path = elim (find_index (is_file path) s.filetable) [
    | some i ↦ (s, some i)
    | none ↦ elim (find_index is_free s.filetable) [
      | none ↦ (s, none)
      | some i ↦ (
        put_entry s i (new_file (entry_at s.filetable i) path s.superblock.first_free_sector),
        some i,
      )
    ]
  ]

  -- From "Update entry" to the end of `vfs_write_file`, on the disk `d` that has the data.
  unfoldable pub note_written : Vfs D → D → (i len sectors : ℕ) → Vfs D × Option ℕ
  note_written s d i len sectors =
      let table = set s.filetable i (record (entry_at s.filetable i) { size = len }) in
      let end = u32 ((entry_at s.filetable i).start_sector + sectors) in
      let sb = record s.superblock {
        first_free_sector =
            if ltb s.superblock.first_free_sector end then end else s.superblock.first_free_sector;
        file_count = u16 (count_if is_used table);
      } in
      let (s1, fine) =
        vfs_flush_metadata ops (record s { filetable = table; superblock = sb; disk = d }) in
      (s1, if fine then some len else none)

  unfoldable pub vfs_write_file : Vfs D → List ℕ → List ℕ → Vfs D × Option ℕ
  vfs_write_file s path bytes =
      if not s.ready
      then (s, none)
      else (let (s1, slot) = claim_slot s path in
          elim slot [
            | none ↦ (s1, none)
            | some i ↦
                let len = u32 (length bytes) in
                let sectors = u32 (len + 511) / 512 in
                let (d, worked) =
                  write_data ops s1.disk (abs_sector (entry_at s1.filetable i)) len bytes in
                if ltb 255 sectors
                then (s1, none)
                else if worked
                then note_written s1 d i len sectors
                else (record s1 { disk = d }, none)
          ])

  unfoldable pub vfs_delete_file : Vfs D → List ℕ → Vfs D × Bool
  vfs_delete_file s path =
      if not s.ready then (s, false) else elim (find_index (is_file path) s.filetable) [
        | none ↦ (s, false)
        | some i ↦
            let count = s.superblock.file_count in
            let sb = record s.superblock {
              file_count = if ltb 0 count then count - 1 else count;
            } in
            vfs_flush_metadata ops (record (put_entry s i zero_entry) { superblock = sb })
      ]

  unfoldable pub vfs_mkdir : Vfs D → List ℕ → Vfs D × Bool
  vfs_mkdir s path = if not s.ready then (s, false) else elim (vfs_find_file s path) [
    | some i ↦ (s, false)
    | none ↦ elim (find_index is_free s.filetable) [
      | none ↦ (s, false)
      | some i ↦
          let sb = record s.superblock { file_count = u16 (s.superblock.file_count + 1) } in
          vfs_flush_metadata ops
            (record (put_entry s i (new_dir (entry_at s.filetable i) path)) { superblock = sb })
    ]
  ]

  unfoldable pub vfs_chmod : Vfs D → List ℕ → ℕ → Vfs D × Bool
  vfs_chmod s path mode = elim (vfs_find_file s path) [
    | none ↦ (s, false)
    | some i ↦
        vfs_flush_metadata ops
          (put_entry s i (record (entry_at s.filetable i) { mode = bit_and mode 0o777 }))
  ]

  unfoldable pub vfs_chown : Vfs D → List ℕ → (uid gid : ℕ) → Vfs D × Bool
  vfs_chown s path uid gid = elim (vfs_find_file s path) [
    | none ↦ (s, false)
    | some i ↦
        vfs_flush_metadata ops
          (put_entry s i (record (entry_at s.filetable i) { uid = uid; gid = gid }))
  ]

  -- `vfs_append_file` for a file of at most 4096 bytes, the size of its buffer.
  unfoldable pub vfs_append_file : Vfs D → List ℕ → List ℕ → Vfs D × Option ℕ
  vfs_append_file s path bytes = elim (vfs_find_file s path) [
    | none ↦ vfs_write_file s path bytes
    | some i ↦
        let existing = (entry_at s.filetable i).size in
        let sum = u32 (existing + u32 (length bytes)) in
        let total = if ltb 4096 sum then 4096 else sum in
        let (s1, got) = vfs_read_file ops s path existing in
        elim got [
          | none ↦ (s1, none)
          | some (n, old) ↦
              vfs_write_file s1 path (take existing old ++ take (total - existing) bytes)
        ]
  ]

-- The place of the last slash, 0 if there is none: `i` is the place of the first character that is left.
unfoldable pub last_slash : List ℕ → (i last : ℕ) → ℕ
last_slash [] i last = last
last_slash (c ∷ cs) i last = last_slash cs (i + 1) (if c == b'/' then i else last)

unfoldable pub vfs_is_child_of : List ℕ → List ℕ → Bool
vfs_is_child_of child parent =
    let slash = last_slash child 0 0 in
    if slash == 0 then str_eq parent (b'/' ∷ []) else str_eq (take slash child) parent

-- The loop of `vfs_list_dir` over the entries that are left, with room for `room` names.
unfoldable pub list_from : List FileEntry → List ℕ → ℕ → List (List ℕ)
list_from [] dir room = []
list_from (e ∷ es) dir zero = []
list_from (e ∷ es) dir (suc room) =
    let skipped = list_from es dir (suc room) in
    let taken = take 31 (name_of e) ∷ list_from es dir room in
    if not (is_used e)
    then skipped
    else if str_eq (name_of e) dir
    then skipped
    else if vfs_is_child_of (name_of e) dir
    then taken
    else skipped

-- The names written to `out`, of which the source returns the number.
unfoldable pub vfs_list_dir : {D : Type 0} → Vfs D → List ℕ → ℕ → Option (List (List ℕ))
vfs_list_dir s dir max = if s.ready then some (list_from s.filetable dir max) else none

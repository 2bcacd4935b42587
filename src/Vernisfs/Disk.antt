-- ===== src/Vernisfs/Disk.antt =====
-- The data of a file on a disk that behaves as an array of sectors.
use vernis_os.Prelude.{
  ℕ, zero, suc, ◌+◌, ◌-◌, ◌*◌, ◌/◌, ◌%◌, ◌<◌, ◌≤◌, ◌≡◌, refl, sym, ◌∙◌, ap, List, ◌++◌, some, Bool,
  true, false, inl, inr, arith, ◌==◌, ltb, if◌then◌else◌, length, take, drop, replicate,
  length-take, length-drop, length-append, length-replicate, take-append_le, drop-append_le,
  take-length, Bool-cases,
}
use vernis_os.Prelude.Words.{u32}
use vernis_os.Sectors.{
  chunk, put, sectors, put_sectors, sectors_ext, put_sectors_ext, put_sectors_snoc, put_sectors_buf,
  sectors-append, sectors_shift,
}
use vernis_os.Vernisfs.{DiskOps, read_chunks, write_full, write_partial, write_data}

-- The promise of the disk functions: requests of less than 256 sectors work, in a state that is `Fine`, on
-- the array of sectors that the state shows.
pub record Array {D : Type 0} (ops : DiskOps D) (Fine : D → Type 0) (shows : D → ℕ → List ℕ)
    : Type 0 where
  pub read_fine : (d : D) (l n : ℕ) → Fine d → n < 256 → Fine (ops.disk_read d l n).0
  pub read_gives :
      (d : D) (l n : ℕ)
      → Fine d
      → n < 256
      → (ops.disk_read d l n).1 ≡ some (sectors (shows d) l 0 n)
  pub read_keeps :
      (d : D) (l n k : ℕ) → Fine d → n < 256 → shows (ops.disk_read d l n).0 k ≡ shows d k
  pub write_fine :
      (d : D) (l n : ℕ) (buf : List ℕ)
      → Fine d
      → n < 256
      → length buf ≡ n * 512
      → Fine (ops.disk_write d l n buf).0
  pub write_works :
      (d : D) (l n : ℕ) (buf : List ℕ)
      → Fine d
      → n < 256
      → length buf ≡ n * 512
      → (ops.disk_write d l n buf).1 ≡ true
  pub write_puts :
      (d : D) (l n : ℕ) (buf : List ℕ) (k : ℕ)
      → Fine d
      → n < 256
      → length buf ≡ n * 512
      → shows (ops.disk_write d l n buf).0 k ≡ put_sectors (shows d) l 0 n buf k

-- The sectors that a file of `len` bytes takes, and its bytes with zeros up to the end of the last one.
abbrev pub sectors_for : ℕ → ℕ
sectors_for len = (len + 511) / 512

abbrev pub padded : List ℕ → List ℕ
padded bytes = bytes ++ replicate (sectors_for (length bytes) * 512 - length bytes) 0

pub length-padded : (bytes : List ℕ) → length (padded bytes) ≡ sectors_for (length bytes) * 512
length-padded bytes =
    let room = sectors_for (length bytes) * 512 - length bytes in
    omega (arith, length-append bytes (replicate room 0), length-replicate {A = ℕ} room 0)

-- A full sector of the bytes, and the last one.
chunk-padded :
    (bytes : List ℕ) (i : ℕ) → (i + 1) * 512 ≤ length bytes → chunk (padded bytes) i ≡ chunk bytes i
chunk-padded bytes i h =
    let zeros : List ℕ = replicate (sectors_for (length bytes) * 512 - length bytes) 0 in
    ap (take 512) (drop-append_le (i * 512) bytes zeros (omega arith))
    ∙ take-append_le 512 (drop (i * 512) bytes) zeros (omega (arith, length-drop (i * 512) bytes))

abbrev last_sector : List ℕ → ℕ → ℕ → List ℕ
last_sector bytes full remainder =
    take remainder (drop (full * 512) bytes) ++ replicate (512 - remainder) 0

last-padded :
    (bytes : List ℕ) (full remainder : ℕ)
    → length bytes ≡ full * 512 + remainder
    → 0 < remainder
    → remainder < 512
    → chunk (padded bytes) full ≡ last_sector bytes full remainder
last-padded bytes full remainder size pos small =
    let room = sectors_for (length bytes) * 512 - length bytes in
    let tail = drop (full * 512) bytes in
    let here : length tail ≡ remainder = omega (arith, length-drop (full * 512) bytes, size) in
    let rest : room ≡ 512 - remainder = omega (arith, size) in
    let whole : take remainder tail ≡ tail = take-length remainder tail (omega (arith, here)) in
    ap (take 512) (drop-append_le (full * 512) bytes (replicate room 0) (omega (arith, size)))
    ∙ take-length 512 (tail ++ replicate room 0) (
        omega (
          arith,
          length-append tail (replicate room 0),
          length-replicate {A = ℕ} room 0,
          here,
          rest,
        ))
    ∙ ap (λ r. tail ++ replicate r 0) rest
    ∙ ap (λ t. t ++ replicate (512 - remainder) 0) (sym whole)

module _ {D : Type 0} (ops : DiskOps D) (Fine : D → Type 0) (shows : D → ℕ → List ℕ)
    (disk : Array ops Fine shows) where
  -- What a write that worked leaves.
  pub record Wrote (d : D) (result : D × Bool) (l n : ℕ) (buf : List ℕ) : Type 0 where
    pub fine : Fine result.0
    pub works : result.1 ≡ true
    pub puts : (k : ℕ) → shows result.0 k ≡ put_sectors (shows d) l 0 n buf k

  write-Wrote :
      (d : D) (l n : ℕ) (buf : List ℕ)
      → Fine d
      → n < 256
      → length buf ≡ n * 512
      → Wrote d (ops.disk_write d l n buf) l n buf
  write-Wrote d l n buf ok small size = record {
    fine = disk.write_fine d l n buf ok small size;
    works = disk.write_works d l n buf ok small size;
    puts = λ k. disk.write_puts d l n buf k ok small size;
  }

  write_one :
      (d : D) (l : ℕ) (buf : List ℕ)
      → Fine d
      → length buf ≡ 512
      → (k : ℕ) → shows (ops.disk_write d (u32 l) 1 buf).0 k ≡ put (shows d) (u32 l) buf k
  unfolding put_sectors
  write_one d l buf ok size k =
      let e : u32 (u32 l + 0) ≡ u32 l = omega arith in
      let whole : chunk buf 0 ≡ buf = take-length 512 buf (omega (arith, size)) in
      disk.write_puts d (u32 l) 1 buf k ok (omega arith) (omega (arith, size))
      ∙ ap (λ m. put (shows d) m (chunk buf 0) k) e
      ∙ ap (λ b. put (shows d) (u32 l) b k) whole

  length-chunk :
      (bytes : List ℕ) (i : ℕ) → (i + 1) * 512 ≤ length bytes → length (chunk bytes i) ≡ 512
  length-chunk bytes i h =
      omega (arith, length-take 512 (drop (i * 512) bytes), length-drop (i * 512) bytes)

  write_full_lem :
      (d : D) (abs i n : ℕ) (bytes : List ℕ)
      → Fine d
      → (i + n) * 512 ≤ length bytes
      → Fine (write_full ops d abs i n bytes).0
        × ((write_full ops d abs i n bytes).1 ≡ true)
        × ((k : ℕ)
            → shows (write_full ops d abs i n bytes).0 k ≡ put_sectors (shows d) abs i n bytes k)
  unfolding write_full put_sectors
  write_full_lem d abs i zero bytes ok room = (ok, refl, λ k. refl)
  write_full_lem d abs i (suc n) bytes ok room =
      let size = length-chunk bytes i (omega arith) in
      let d1 = (ops.disk_write d (u32 (abs + i)) 1 (chunk bytes i)).0 in
      let works =
        disk.write_works d (u32 (abs + i)) 1 (chunk bytes i) ok (omega arith)
          (omega (arith, size)) in
      let ok1 =
        disk.write_fine d (u32 (abs + i)) 1 (chunk bytes i) ok (omega arith)
          (omega (arith, size)) in
      let (ok2, rest, puts) = write_full_lem d1 abs (i + 1) n bytes ok1 (omega arith) in
      simp works (
        ok2,
        rest,
        λ k.
            puts k
            ∙ put_sectors_ext (shows d1) (put (shows d) (u32 (abs + i)) (chunk bytes i)) abs (i + 1)
                n bytes (write_one d (abs + i) (chunk bytes i) ok size) k,
      )

  -- The data of a file ends up in its sectors, with zeros behind it.
  pub write_data_lem :
      (d : D) (abs : ℕ) (bytes : List ℕ)
      → Fine d
      → Fine (write_data ops d abs (length bytes) bytes).0
        × ((write_data ops d abs (length bytes) bytes).1 ≡ true)
        × ((k : ℕ)
            → shows (write_data ops d abs (length bytes) bytes).0 k
              ≡ put_sectors (shows d) abs 0 (sectors_for (length bytes)) (padded bytes) k)
  unfolding write_data write_partial
  write_data_lem d abs bytes ok =
      let len = length bytes in
      let full = len / 512 in
      let remainder = len % 512 in
      let (ok1, works, puts) = write_full_lem d abs 0 full bytes ok (omega arith) in
      let d1 = (write_full ops d abs 0 full bytes).0 in
      let alike : (k : ℕ)
          → put_sectors (shows d) abs 0 full bytes k
            ≡ put_sectors (shows d) abs 0 full (padded bytes) k =
        put_sectors_buf (shows d) abs 0 full bytes (padded bytes)
          (λ j le lt. sym (chunk-padded bytes j (omega arith))) in
      elim (Bool-cases (remainder == 0)) [
        | inl even ↦
            let count : full ≡ sectors_for len = ground (arith, even) in
            simp (works, even)
              (
                ok1,
                refl,
                λ k.
                    puts k
                    ∙ alike k
                    ∙ ap (λ n. put_sectors (shows d) abs 0 n (padded bytes) k) count,
              )
        | inr odd ↦
            let pos : 0 < remainder = ground (arith, odd) in
            let count : full + 1 ≡ sectors_for len = omega arith in
            let at : full ≡ 0 + full = omega arith in
            let last = last_sector bytes full remainder in
            let same : chunk (padded bytes) full ≡ last =
              last-padded bytes full remainder (omega arith) pos (omega arith) in
            let size : length last ≡ 512 =
              ap length (sym same)
              ∙ length-chunk (padded bytes) full (omega (arith, length-padded bytes)) in
            simp (works, odd)
              (
                disk.write_fine d1 (u32 (abs + full)) 1 last ok1 (omega arith)
                    (omega (arith, size)),
                disk.write_works d1 (u32 (abs + full)) 1 last ok1 (omega arith)
                    (omega (arith, size)),
                λ k.
                    write_one d1 (abs + full) last ok1 size k
                    ∙ ap (λ b. put (shows d1) (u32 (abs + full)) b k) (sym same)
                    ∙ ap (λ l. if k == u32 (abs + full) then chunk (padded bytes) full else l)
                        (puts k ∙ alike k)
                    ∙ ap
                        (λ j.
                          put (put_sectors (shows d) abs 0 full (padded bytes)) (u32 (abs + j))
                            (chunk (padded bytes) j) k)
                        at
                    ∙ sym (put_sectors_snoc (shows d) abs 0 full (padded bytes) k)
                    ∙ ap (λ n. put_sectors (shows d) abs 0 n (padded bytes) k) count,
              )
      ]

  -- The sectors of one chunk, and those behind it on the disk as the read left it.
  join :
      (d d1 : D) (lba n all : ℕ)
      → n ≤ all
      → ((k : ℕ) → shows d1 k ≡ shows d k)
      → sectors (shows d) lba 0 n ++ sectors (shows d1) (u32 (lba + n)) 0 (all - n)
        ≡ sectors (shows d) lba 0 all
  join d d1 lba n all inside keeps =
      let first = sectors (shows d) lba 0 n in
      let at : n + 0 ≡ 0 + n = omega arith in
      let both : n + (all - n) ≡ all = omega arith in
      ap (λ l. first ++ l)
        (sectors_ext (shows d1) (shows d) (u32 (lba + n)) 0 (all - n) keeps
          ∙ sectors_shift (shows d) lba n 0 (all - n)
          ∙ ap (λ j. sectors (shows d) lba j (all - n)) at)
      ∙ sym (sectors-append (shows d) lba 0 n (all - n))
      ∙ ap (sectors (shows d) lba 0) both

  pub read_chunks_lem :
      (d : D) (lba left fuel : ℕ)
      → Fine d
      → left ≤ fuel
      → Fine (read_chunks ops d lba left fuel).0
        × ((read_chunks ops d lba left fuel).1 ≡ some (sectors (shows d) lba 0 left))
        × ((k : ℕ) → shows (read_chunks ops d lba left fuel).0 k ≡ shows d k)
  unfolding read_chunks sectors
  read_chunks_lem d lba zero zero ok enough = (ok, refl, λ k. refl)
  read_chunks_lem d lba (suc left) zero ok enough = absurd (omega arith)
  read_chunks_lem d lba zero (suc fuel) ok enough = (ok, refl, λ k. refl)
  read_chunks_lem d lba (suc left) (suc fuel) ok enough =
      let all = suc left in
      let n = if ltb 128 all then 128 else all in
      let small : n < 256 = ground arith in
      let inside : n ≤ all = ground arith in
      let forward : 0 < n = ground arith in
      let some_left : (suc left == 0) ≡ false = ground arith in
      let d1 = (ops.disk_read d lba n).0 in
      let gives = disk.read_gives d lba n ok small in
      let (ok2, rest, same) =
        read_chunks_lem d1 (u32 (lba + n)) (all - n) fuel (disk.read_fine d lba n ok small)
          (omega arith) in
      simp (gives, rest, some_left)
        (
          ok2,
          ap some (join d d1 lba n all inside (λ k. disk.read_keeps d lba n k ok small)),
          λ k. same k ∙ disk.read_keeps d lba n k ok small,
        )

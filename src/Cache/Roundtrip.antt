-- ===== src/Cache/Roundtrip.antt =====
-- What is written comes back.
use native.Mathlib.Nat.{mod-eq_of_lt}
use vernis_os.Prelude.{
  ℕ, ◌+◌, ◌*◌, ◌^◌, ◌<◌, ◌≤◌, ◌≡◌, ◌∙◌, ap, List, some, true, arith, length, take, take-length,
}
use vernis_os.Sectors.{put_sectors, sectors_ext, put-sectors, chunks-take}
use vernis_os.Prelude.Words.{u8}
use vernis_os.Cache.{Bcache, Driver, bcache_block_size, bcache_write, bcache_read}
use vernis_os.Cache.Steps.{Works}
use vernis_os.Cache.Flags.{write-flags}
use vernis_os.Cache.Buffers.{Fine, array, bcache_read_refines, bcache_write_refines}

-- On a disk that works and a coherent cache that is ready, a read of the sectors just written gives the buffer back: at most 255 of them, as
-- the count is a byte, that do not come round at the end of the address space.
pub bcache_write-read :
    {D : Type 0} (driver : Driver D) (sector : D → ℕ → List ℕ) (works : Works driver sector)
    (s : Bcache D) (lba count : ℕ) (buf : List ℕ)
    → Fine driver sector works s
    → s.ready ≡ true
    → s.has_read ≡ true
    → s.has_write ≡ true
    → count < 2 ^ 8
    → length buf ≡ count * bcache_block_size
    → lba + count ≤ 2 ^ 32
    → (bcache_read driver (bcache_write driver s lba count buf).0 lba count).1 ≡ some buf
bcache_write-read driver sector works s lba count buf co up reads writes byte size fits =
    let s1 = (bcache_write driver s lba count buf).0 in
    let (co1, fine, same) = bcache_write_refines driver sector works s lba count buf co up writes in
    let flags = write-flags driver s lba count buf in
    let (co2, gave, same2) =
      bcache_read_refines driver sector works s1 lba count co1 (flags.0 ∙ up) (flags.1 ∙ reads) in
    let n : u8 count ≡ count = mod-eq_of_lt byte in
    let whole : take (count * bcache_block_size) buf ≡ buf =
      take-length (count * bcache_block_size) buf (omega (arith, size)) in
    gave
    ∙ ap some (
        sectors_ext (array driver sector works s1)
          (put_sectors (array driver sector works s) lba 0 (u8 count) buf) lba 0 (u8 count) same
        ∙ put-sectors (array driver sector works s) lba 0 (u8 count) buf (omega (arith, n))
        ∙ chunks-take buf 0 (u8 count)
        ∙ ap (λ k. take (k * bcache_block_size) buf) n
        ∙ whole)

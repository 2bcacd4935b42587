-- ===== src/Ipc/Channels.antt =====
-- The channels of kernel/ipc/ipc.c: byte streams with a ring of 512 bytes each.
pub mod Stream
pub mod Transfer
pub mod Slots
use vernis_os.Prelude.{
  ℕ, zero, suc, ◌+◌, ◌-◌, ◌%◌, Bool, true, ◌||◌, not, Option, none, some, List, [], ◌∷◌, leb, ◌==◌,
  if◌then◌else◌, get_or, set, take, length,
}
use vernis_os.Prelude.Find.{find_index}
use vernis_os.Prelude.Words.{u16, u32}
use vernis_os.Ipc.State.{
  Ret, ok, err_full, err_empty, err_inval, err_noslot, Channel, Ipc, zero_channel, max_channels,
  chan_buf_size,
}

abbrev pub channel_at : Ipc → ℕ → Channel
channel_at s i = get_or s.channels i zero_channel

-- `g_channels[i] = c`
abbrev pub put_channel : Ipc → ℕ → Channel → Ipc
put_channel s i c = record s { channels = set s.channels i c }

abbrev pub free_channel : Channel → Bool
free_channel c = c.owner_pid == 0

-- The free slot `i` becomes a channel from `owner` to `peer`.
unfoldable pub open_at : Ipc → ℕ → ℕ → ℕ → Ipc
open_at s i owner peer =
    let s' = put_channel s i (record zero_channel { owner_pid = owner; peer_pid = peer }) in
    record s' { stats = record s'.stats { channels_active = u32 (s'.stats.channels_active + 1) } }

unfoldable pub channel_create : Ipc → ℕ → ℕ → Ipc × Ret
channel_create s owner peer =
    if owner == 0 then (s, err_inval) else elim (find_index free_channel s.channels) [
      | none ↦ (s, err_noslot)
      | some i ↦ (open_at s i owner peer, ok i)
    ]

-- `buf[tail] = b; tail = (tail + 1) % size; count++`
abbrev pub push_byte : Channel → ℕ → Channel
push_byte c b = record c {
  buf = set c.buf c.tail b;
  tail = u16 ((c.tail + 1) % chan_buf_size);
  count = u16 (c.count + 1);
}

-- The loop of `ipc_channel_write`; the list is what is left of the bytes to write.
unfoldable pub write_from : Channel → List ℕ → ℕ → Channel × ℕ
write_from c [] written = (c, written)
write_from c (b ∷ bs) written =
    let rest = write_from (push_byte c b) bs (written + 1) in
    if leb chan_buf_size c.count then (c, written) else rest

-- `return written ? written : IPC_ERR_FULL`
abbrev pub written_ret : ℕ → Ret
written_ret n = if n == 0 then err_full else ok n

-- `buf` is the memory that the pointer leads to, `none` for NULL.
unfoldable pub channel_write : Ipc → ℕ → Option (List ℕ) → ℕ → Ipc × Ret
channel_write s cid none len = (s, err_inval)
channel_write s cid (some bytes) len =
    if leb max_channels cid || len == 0
    then (s, err_inval)
    else (let c = channel_at s cid in
        if c.owner_pid == 0 || c.closed
        then (s, err_inval)
        else (let (c', n) = write_from c (take len bytes) 0 in
            (put_channel s cid c', written_ret n)))

-- `head = (head + 1) % size; count--`
abbrev pub pop_byte : Channel → Channel
pop_byte c = record c { head = u16 ((c.head + 1) % chan_buf_size); count = c.count - 1 }

-- The loop of `ipc_channel_read` for `n` more bytes, with the bytes that it stores.
unfoldable pub read_from : Channel → ℕ → Channel × List ℕ
read_from c zero = (c, [])
read_from c (suc n) =
    let rest = read_from (pop_byte c) n in
    if c.count == 0 then (c, []) else (rest.0, get_or c.buf c.head 0 ∷ rest.1)

-- The bytes go through `buf`; `has_buf` says that `buf` is not NULL.
unfoldable pub channel_read : Ipc → ℕ → Bool → ℕ → Ipc × Ret × List ℕ
channel_read s cid has_buf max_len =
    if leb max_channels cid || not has_buf || max_len == 0
    then (s, err_inval, [])
    else (let c = channel_at s cid in
        if c.owner_pid == 0
        then (s, err_inval, [])
        else if c.count == 0
        then (s, err_empty, [])
        else (let (c', out) = read_from c max_len in (put_channel s cid c', ok (length out), out)))

-- `if (g_stats.channels_active) g_stats.channels_active--`
abbrev pub uncount_channel : Ipc → Ipc
uncount_channel s =
    if s.stats.channels_active == 0
    then s
    else record s { stats = record s.stats { channels_active = s.stats.channels_active - 1 } }

unfoldable pub channel_close : Ipc → ℕ → Ipc
channel_close s cid =
    if leb max_channels cid
    then s
    else (let c = channel_at s cid in
        if c.owner_pid == 0
        then s
        else uncount_channel (put_channel s cid (record c { closed = true })))

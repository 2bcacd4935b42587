-- ===== src/Ipc/Channels/Slots.antt =====
-- The slots of the channel table of kernel/ipc/ipc.c: `ipc_channel_close` marks a channel closed and
-- leaves its owner, so a slot that was once given out is never given out again.
use vernis_os.Prelude.{
  ℕ, ◌<◌, ◌≡◌, ◌∙◌, ap, ◌≢◌, inl, inr, Bool, true, Option, none, some, List, [], ◌∷◌, arith, ◌==◌,
  take, Bool-cases, Option-cases, ==-false, ==_iff, get_or-set_self, get_or-set_ne, get_or-set,
}
use vernis_os.Prelude.Find.{find_index, find_index-Hit, find_index-eq_none}
use vernis_os.Ipc.State.{Channel, Ipc, ok, err_noslot, zero_channel, max_channels}
use vernis_os.Ipc.Channels.{
  channel_at, put_channel, open_at, channel_create, write_from, channel_write, read_from,
  channel_read, channel_close, free_channel,
}
use vernis_os.Ipc.Channels.Stream.{write_from-Wrote, read_from-Drained}
use vernis_os.Ipc.Channels.Transfer.{
  ChannelsOk, channel_at-ChannelOk, channel_create-ChannelsOk, channel_write-ChannelsOk,
  channel_read-ChannelsOk, channel_close-ChannelsOk,
}

-- The calls on the channel table.
pub data Call : Type 0 where
  create : (owner peer : ℕ) → Call
  write : (cid : ℕ) → Option (List ℕ) → (len : ℕ) → Call
  read : (cid : ℕ) → Bool → (max_len : ℕ) → Call
  close : (cid : ℕ) → Call

unfoldable pub exec : Ipc → Call → Ipc
exec s (create owner peer) = (channel_create s owner peer).0
exec s (write cid ptr len) = (channel_write s cid ptr len).0
exec s (read cid has_buf max_len) = (channel_read s cid has_buf max_len).0
exec s (close cid) = channel_close s cid

unfoldable pub run : Ipc → List Call → Ipc
unfolding exec
run s [] = s
run s (c ∷ cs) = run (exec s c) cs

abbrev pub Taken : Ipc → ℕ → Type 0
Taken s i = (channel_at s i).owner_pid ≢ 0

put-Taken :
    (s : Ipc) (i j : ℕ) (c : Channel)
    → ChannelsOk s
    → i < max_channels
    → ((i ≡ j) → c.owner_pid ≢ 0)
    → Taken s j
    → Taken (put_channel s i c) j
put-Taken s i j c h lt stays t = ground (arith, h.size, get_or-set s.channels i j c zero_channel)

free_hit :
    (s : Ipc) (i : ℕ)
    → ChannelsOk s
    → find_index free_channel s.channels ≡ some i
    → (i < max_channels) × ((channel_at s i).owner_pid ≡ 0)
free_hit s i h e =
    let hit = find_index-Hit free_channel s.channels zero_channel i e in
    (omega (arith, hit.inside, h.size), (==_iff _ _).0 hit.passes)

open_at_other :
    (s : Ipc) (i j owner peer : ℕ) → i ≢ j → channel_at (open_at s i owner peer) j ≡ channel_at s j
unfolding open_at
open_at_other s i j owner peer ne = get_or-set_ne s.channels i j _ zero_channel ne

open_at_self :
    (s : Ipc) (i owner peer : ℕ)
    → ChannelsOk s
    → i < max_channels
    → channel_at (open_at s i owner peer) i
      ≡ record zero_channel { owner_pid = owner; peer_pid = peer }
unfolding open_at
open_at_self s i owner peer h lt =
    get_or-set_self s.channels i _ zero_channel (omega (arith, h.size))

-- `ipc_channel_create` gives out a slot that was free, and changes no other.
pub channel_create_fresh :
    (s : Ipc) (owner peer i : ℕ)
    → ChannelsOk s
    → (channel_create s owner peer).1 ≡ ok i
    → (i < max_channels)
      × ((channel_at s i).owner_pid ≡ 0)
      × (channel_at (channel_create s owner peer).0 i
          ≡ record zero_channel { owner_pid = owner; peer_pid = peer })
      × ((j : ℕ) → i ≢ j → channel_at (channel_create s owner peer).0 j ≡ channel_at s j)
unfolding channel_create
channel_create_fresh s owner peer i h e = elim (Option-cases (find_index free_channel s.channels)) [
  | inl full ↦ absurd (ground arith)
  | inr (k, hit) ↦ elim (Bool-cases (owner == 0)) [
    | inl null ↦ absurd (ground arith)
    | inr real ↦
        let same : k ≡ i = ground arith in
        let hit' : find_index free_channel s.channels ≡ some i = hit ∙ ap some same in
        let (lt, free) = free_hit s i h hit' in
        rw (hit', real)
          (lt, free, open_at_self s i owner peer h lt, λ j ne. open_at_other s i j owner peer ne)
  ]
]

create-Taken :
    (s : Ipc) (owner peer j : ℕ)
    → ChannelsOk s
    → Taken s j
    → Taken (channel_create s owner peer).0 j
unfolding channel_create
create-Taken s owner peer j h t = elim (Option-cases (find_index free_channel s.channels)) [
  | inl full ↦ rw full (ground arith)
  | inr (i, e) ↦
      let (lt, free) = free_hit s i h e in
      let other : i ≢ j = λ same. t (rw (← same) free) in
      rw e (ground (arith, open_at_other s i j owner peer other))
]

write-Taken :
    (s : Ipc) (cid len j : ℕ) (ptr : Option (List ℕ))
    → ChannelsOk s
    → Taken s j
    → Taken (channel_write s cid ptr len).0 j
unfolding channel_write
write-Taken s cid len j none h t = t
write-Taken s cid len j (some bytes) h t =
    let c' = (write_from (channel_at s cid) (take len bytes) 0).0 in
    let w = write_from-Wrote (channel_at s cid) (take len bytes) 0 (channel_at-ChannelOk s cid h) in
    ground (arith, w.same_owner, put-Taken s cid j c' h)

read-Taken :
    (s : Ipc) (cid max_len j : ℕ) (has_buf : Bool)
    → ChannelsOk s
    → Taken s j
    → Taken (channel_read s cid has_buf max_len).0 j
unfolding channel_read
read-Taken s cid max_len j has_buf h t =
    let c' = (read_from (channel_at s cid) max_len).0 in
    let d = read_from-Drained (channel_at s cid) max_len (channel_at-ChannelOk s cid h) in
    ground (arith, d.same_owner, put-Taken s cid j c' h)

close-Taken : (s : Ipc) (cid j : ℕ) → ChannelsOk s → Taken s j → Taken (channel_close s cid) j
unfolding channel_close
close-Taken s cid j h t =
    ground (arith, put-Taken s cid j (record (channel_at s cid) { closed = true }) h)

exec-Taken : (s : Ipc) (c : Call) (j : ℕ) → ChannelsOk s → Taken s j → Taken (exec s c) j
unfolding exec
exec-Taken s (create owner peer) j h t = create-Taken s owner peer j h t
exec-Taken s (write cid ptr len) j h t = write-Taken s cid len j ptr h t
exec-Taken s (read cid has_buf max_len) j h t = read-Taken s cid max_len j has_buf h t
exec-Taken s (close cid) j h t = close-Taken s cid j h t

exec-ChannelsOk : (s : Ipc) (c : Call) → ChannelsOk s → ChannelsOk (exec s c)
unfolding exec
exec-ChannelsOk s (create owner peer) h = channel_create-ChannelsOk s owner peer h
exec-ChannelsOk s (write cid ptr len) h = channel_write-ChannelsOk s cid ptr len h
exec-ChannelsOk s (read cid has_buf max_len) h = channel_read-ChannelsOk s cid has_buf max_len h
exec-ChannelsOk s (close cid) h = channel_close-ChannelsOk s cid h

pub run-ChannelsOk : (s : Ipc) (cs : List Call) → ChannelsOk s → ChannelsOk (run s cs)
unfolding run
run-ChannelsOk s [] h = h
run-ChannelsOk s (c ∷ cs) h = run-ChannelsOk (exec s c) cs (exec-ChannelsOk s c h)

run-Taken : (s : Ipc) (cs : List Call) (j : ℕ) → ChannelsOk s → Taken s j → Taken (run s cs) j
unfolding run
run-Taken s [] j h t = t
run-Taken s (c ∷ cs) j h t =
    run-Taken (exec s c) cs j (exec-ChannelsOk s c h) (exec-Taken s c j h t)

-- With well-formed channels, once all eight slots were given out, no process whose number is not 0 can create
-- a channel any more, whatever calls of the channel functions come in between, closing all the channels
-- included.
pub slots_exhausted :
    (s : Ipc) (cs : List Call) (owner peer : ℕ)
    → ChannelsOk s
    → ((j : ℕ) → j < max_channels → Taken s j)
    → owner ≢ 0
    → (channel_create (run s cs) owner peer).1 ≡ err_noslot
unfolding channel_create
slots_exhausted s cs owner peer h all ne =
    let t = run s cs in
    let ok_t = run-ChannelsOk s cs h in
    let miss =
      find_index-eq_none free_channel t.channels zero_channel
        (λ j lt. ==-false _ 0 (run-Taken s cs j h (all j (omega (arith, ok_t.size))))) in
    rw (==-false owner 0 ne, miss)

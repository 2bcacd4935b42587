-- ===== src/Ipc/Sockets.antt =====
-- The path-named sockets of kernel/ipc/ipc.c, each backed by a channel.
pub mod Paths
pub mod Traffic
use vernis_os.Prelude.{
  ℕ, Bool, true, not, ◌&&◌, ◌||◌, Option, none, some, List, [], ◌∷◌, leb, ◌==◌, if◌then◌else◌,
  get_or, set,
}
use vernis_os.Prelude.Find.{find_index}
use vernis_os.Prelude.Strings.{str_eq, truncate}
use vernis_os.Ipc.State.{
  Ret, ok, err_inval, err_noslot, UnixSocket, Ipc, zero_usock, max_channels, usock_path_max,
}
use vernis_os.Ipc.Channels.{
  channel_at, put_channel, channel_create, channel_write, channel_read, channel_close,
}

-- `!path || !path[0]`
abbrev pub null_path : Option (List ℕ) → Bool
null_path none = true
null_path (some []) = true
null_path (some (c ∷ cs)) = c == 0

abbrev pub bound_to : List ℕ → UnixSocket → Bool
bound_to path u = u.used && str_eq u.path path

-- `usock_find_by_path`; -1 is `none`.
unfoldable pub find_by_path : Ipc → Option (List ℕ) → Option ℕ
find_by_path s none = none
find_by_path s (some path) =
    if null_path (some path) then none else find_index (bound_to path) s.usocks

abbrev pub usock_at : Ipc → ℕ → UnixSocket
usock_at s i = get_or s.usocks i zero_usock

abbrev pub put_usock : Ipc → ℕ → UnixSocket → Ipc
put_usock s i u = record s { usocks = set s.usocks i u }

abbrev pub free_usock : UnixSocket → Bool
free_usock u = not u.used

-- The entry that `ipc_usock_bind` fills in; a long path is cut.
abbrev pub new_usock : ℕ → ℕ → List ℕ → UnixSocket
new_usock cid owner path = record {
  used = true;
  cid = cid;
  owner_pid = owner;
  path = truncate usock_path_max path;
}

-- The loop of `ipc_usock_bind` over the free slots, with the channel `cid` just made.
unfoldable pub bind_channel : Ipc → ℕ → ℕ → List ℕ → Ipc × Ret
bind_channel s cid owner path = elim (find_index free_usock s.usocks) [
  | none ↦ (channel_close s cid, err_noslot)
  | some i ↦ (put_usock s i (new_usock cid owner path), ok 0)
]

-- What follows the call of `ipc_channel_create`.
unfoldable pub bind_created : Ipc × Ret → ℕ → List ℕ → Ipc × Ret
bind_created (s, ok cid) owner path = bind_channel s cid owner path
bind_created (s, e) owner path = (s, e)

unfoldable pub usock_bind : Ipc → Option (List ℕ) → ℕ → Ipc × Ret
usock_bind s none owner = (s, err_inval)
usock_bind s (some path) owner =
    if null_path (some path) || owner == 0
    then (s, err_inval)
    else elim (find_by_path s (some path)) [
      | some i ↦ (s, err_inval)
      | none ↦ bind_created (channel_create s owner 0) owner path
    ]

unfoldable pub usock_connect : Ipc → Option (List ℕ) → ℕ → Ipc × Ret
usock_connect s path peer = elim (find_by_path s path) [
  | none ↦ (s, err_inval)
  | some sid ↦
      let cid = (usock_at s sid).cid in
      if leb max_channels cid || (channel_at s cid).owner_pid == 0
      then (s, err_inval)
      else (put_channel s cid (record (channel_at s cid) { peer_pid = peer }), ok cid)
]

unfoldable pub usock_send : Ipc → Option (List ℕ) → Option (List ℕ) → ℕ → Ipc × Ret
usock_send s path buf len = elim (find_by_path s path) [
  | none ↦ (s, err_inval)
  | some sid ↦ channel_write s (usock_at s sid).cid buf len
]

unfoldable pub usock_recv : Ipc → Option (List ℕ) → Bool → ℕ → Ipc × Ret × List ℕ
usock_recv s path has_buf max_len = elim (find_by_path s path) [
  | none ↦ (s, err_inval, [])
  | some sid ↦ channel_read s (usock_at s sid).cid has_buf max_len
]

unfoldable pub usock_close : Ipc → Option (List ℕ) → Ipc × Ret
usock_close s path = elim (find_by_path s path) [
  | none ↦ (s, err_inval)
  | some sid ↦ (put_usock (channel_close s (usock_at s sid).cid) sid zero_usock, ok 0)
]

-- ===== src/Ipc/Sockets/Paths.antt =====
-- The names of the sockets of kernel/ipc/ipc.c: what `ipc_usock_bind` makes can be found by its path,
-- unless the path is longer than the table keeps.
use vernis_os.Prelude.{
  ℕ, ◌-◌, ◌≤◌, ◌<◌, ◌≡◌, refl, sym, ◌∙◌, ap, ◌≢◌, inl, inr, Bool, true, false, ◌||◌, Option, none,
  some, List, [], ◌∷◌, arith, ◌==◌, length, length-set, Bool-cases, Option-cases, ==-false,
  get_or-set_self, get_or-set_ne, All, All-get, All-replicate, take-length,
}
use vernis_os.Prelude.Find.{
  find_index, find_index-Hit, find_index-none, find_index-eq_none, find_index_first,
}
use vernis_os.Prelude.Strings.{IsText, str_eq_refl, str_eq-false, truncate}
use vernis_os.Ipc.State.{
  UnixSocket, Ipc, Ret, ok, err_inval, zero_usock, max_usockets, usock_path_max, init,
}
use vernis_os.Ipc.Channels.{open_at, channel_create}
use vernis_os.Ipc.Sockets.{
  null_path, bound_to, find_by_path, usock_at, put_usock, free_usock, new_usock, bind_channel,
  bind_created, usock_bind, usock_connect, usock_send, usock_recv, usock_close,
}

pub record SocketOk (u : UnixSocket) : Type 0 where
  pub text : IsText u.path
  pub short : length u.path < usock_path_max

pub record SocketsOk (s : Ipc) : Type 0 where
  pub size : length s.usocks ≡ max_usockets
  pub each : All SocketOk s.usocks

pub init-SocketsOk : SocketsOk init
unfolding init
init-SocketsOk = record {
  size = refl;
  each = All-replicate SocketOk 8 zero_usock (record { text = tt; short = omega arith });
}

pub null_path-false :
    (path : List ℕ) → IsText path → 0 < length path → null_path (some path) ≡ false
null_path-false [] text pos = absurd (omega arith)
null_path-false (c ∷ cs) text pos = ==-false c 0 text.0

-- A path of 32 bytes or more is never found.
pub find_by_path_long :
    (s : Ipc) (path : List ℕ)
    → SocketsOk s
    → IsText path
    → usock_path_max ≤ length path
    → find_by_path s (some path) ≡ none
unfolding find_by_path
find_by_path_long s path h text long =
    let miss : find_index (bound_to path) s.usocks ≡ none =
      find_index-eq_none (bound_to path) s.usocks zero_usock (λ j lt.
        let u = All-get SocketOk s.usocks j zero_usock h.each lt in
        let differ : (usock_at s j).path ≢ path =
          λ e. absurd (omega (arith, u.short, ap length e)) in
        ground (arith, str_eq-false (usock_at s j).path path u.text text differ)) in
    rw miss (ground arith)

-- With well-formed sockets, no operation reaches a socket by a path of 32 bytes or more, none of them zero:
-- connect, send, receive and close all fail with IPC_ERR_INVAL.
pub long_path_unreachable :
    (s : Ipc) (path : List ℕ) (peer len max_len : ℕ) (buf : Option (List ℕ)) (has_buf : Bool)
    → SocketsOk s
    → IsText path
    → usock_path_max ≤ length path
    → ((usock_connect s (some path) peer).1 ≡ err_inval)
      × ((usock_send s (some path) buf len).1 ≡ err_inval)
      × ((usock_recv s (some path) has_buf max_len).1 ≡ err_inval)
      × ((usock_close s (some path)).1 ≡ err_inval)
unfolding usock_connect usock_send usock_recv usock_close
long_path_unreachable s path peer len max_len buf has_buf h text long =
    let miss = find_by_path_long s path h text long in
    (rw (miss, usock_connect), rw (miss, usock_send), rw (miss, usock_recv), rw (miss, usock_close))

channel_create-usocks :
    (s : Ipc) (owner peer : ℕ) → (channel_create s owner peer).0.usocks ≡ s.usocks
unfolding channel_create open_at
channel_create-usocks s owner peer = ground arith

-- What a bind that succeeded has done.
pub record Bound (s t : Ipc) (path : List ℕ) (owner : ℕ) : Type 0 where
  pub cid : ℕ
  pub slot : ℕ
  pub unused : find_by_path s (some path) ≡ none
  pub created : (channel_create s owner 0).1 ≡ ok cid
  pub inside : slot < max_usockets
  pub after : t ≡ put_usock (channel_create s owner 0).0 slot (new_usock cid owner path)

bind_channel-ok :
    (s : Ipc) (cid owner n : ℕ) (path : List ℕ)
    → length s.usocks ≡ max_usockets
    → (bind_channel s cid owner path).1 ≡ ok n
    → (slot : ℕ) × (slot < max_usockets)
      × ((bind_channel s cid owner path).0 ≡ put_usock s slot (new_usock cid owner path))
unfolding bind_channel
bind_channel-ok s cid owner n path size e = elim (Option-cases (find_index free_usock s.usocks)) [
  | inl full ↦ absurd (ground arith)
  | inr (i, hit) ↦ (
    i,
    omega (arith, (find_index-Hit free_usock s.usocks zero_usock i hit).inside),
    rw (hit, bind_channel),
  )
]

bind_created-ok :
    (x : Ipc × Ret) (owner n : ℕ) (path : List ℕ)
    → length x.0.usocks ≡ max_usockets
    → (bind_created x owner path).1 ≡ ok n
    → (cid : ℕ) × (slot : ℕ) × (x.1 ≡ ok cid)
      × (slot < max_usockets)
      × ((bind_created x owner path).0 ≡ put_usock x.0 slot (new_usock cid owner path))
unfolding bind_created
bind_created-ok (s, ok cid) owner n path size e =
    let (slot, lt, eq) = bind_channel-ok s cid owner n path size e in (cid, slot, refl, lt, eq)
bind_created-ok (s, _) owner n path size e = absurd (ground arith)

pub usock_bind-ok :
    (s : Ipc) (path : List ℕ) (owner n : ℕ)
    → SocketsOk s
    → (usock_bind s (some path) owner).1 ≡ ok n
    → Bound s (usock_bind s (some path) owner).0 path owner
unfolding usock_bind
usock_bind-ok s path owner n h e =
    let x = channel_create s owner 0 in
    elim (Bool-cases (null_path (some path) || owner == 0)) [
      | inl bad ↦ absurd (ground arith)
      | inr good ↦ elim (Option-cases (find_by_path s (some path))) [
        | inr (i, hit) ↦ absurd (ground arith)
        | inl miss ↦
            let e' : (bind_created x owner path).1 ≡ ok n = ground arith in
            let (cid, slot, created, lt, eq) =
              bind_created-ok x owner n path (ap length (channel_create-usocks s owner 0) ∙ h.size)
                e' in
            record {
              cid = cid;
              slot = slot;
              unused = miss;
              created = created;
              inside = lt;
              after = rw (good, miss, usock_bind) eq;
            }
      ]
    ]

find_by_path-missed :
    (s : Ipc) (path : List ℕ)
    → null_path (some path) ≡ false
    → find_by_path s (some path) ≡ none
    → find_index (bound_to path) s.usocks ≡ none
unfolding find_by_path
find_by_path-missed s path real e = ground arith

module _ (s t : Ipc) (path : List ℕ) (owner : ℕ) (h : SocketsOk s) (text : IsText path)
    (some_path : 0 < length path) (short : length path < usock_path_max)
    (b : Bound s t path owner) where
  room : b.slot < length (channel_create s owner 0).0.usocks
  room = omega (arith, ap length (channel_create-usocks s owner 0), h.size, b.inside)

  pub slot-usock : usock_at t b.slot ≡ new_usock b.cid owner path
  slot-usock = rw b.after (
      get_or-set_self (channel_create s owner 0).0.usocks b.slot (new_usock b.cid owner path)
        zero_usock room)

  kept : truncate usock_path_max path ≡ path
  kept = take-length (usock_path_max - 1) path (omega arith)

  -- The new socket answers to the path.
  answers : bound_to path (usock_at t b.slot) ≡ true
  answers = rw (slot-usock, kept, str_eq_refl path)

  -- No other socket does.
  silent : (j : ℕ) → j < max_usockets → j ≢ b.slot → bound_to path (usock_at t j) ≡ false
  silent j lt ne =
      rw
        (
          b.after,
          get_or-set_ne (channel_create s owner 0).0.usocks b.slot j (new_usock b.cid owner path)
              zero_usock (λ e. ne (sym e)),
          channel_create-usocks s owner 0,
        )
        (find_index-none (bound_to path) s.usocks zero_usock j missed (omega (arith, h.size)))
    where
      missed : find_index (bound_to path) s.usocks ≡ none
      missed = find_by_path-missed s path (null_path-false path text some_path) b.unused

  -- The path leads to the new socket.
  pub Bound-find : find_by_path t (some path) ≡ some b.slot
  unfolding find_by_path
  Bound-find = rw (null_path-false path text some_path) (
      find_index_first (bound_to path) t.usocks zero_usock b.slot (record {
        inside = rw (b.after, length-set) room;
        passes = answers;
        first = λ j lt. silent j (omega (arith, b.inside)) (omega arith);
      }))

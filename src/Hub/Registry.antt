-- ===== src/Hub/Registry.antt =====
-- internal/hub/hub.go: the bodies that run under the write lock.
use sidecartunnel.Base.{
  Bool, true, false, ◌&&◌, ◌||◌, List, [], ◌∷◌, Option, none, some, Bytes, ltb, leb, ◌==◌,
  if◌then◌else◌, length, ℕ_discrete, bytes_discrete, update, has, include, exclude, Result, ok, err,
}
use sidecartunnel.Text.{same}
use sidecartunnel.Hub.State.{
  Sink, Hub, HubError, already_subscribed, not_subscribed, subscription_limit, not_registered,
  duplicate_id, members, key, admit,
}

-- A bucket that is empty is deleted.
unfoldable pub unless_empty : List Sink → Option (List Sink)
unless_empty [] = none
unless_empty (x ∷ xs) = some (x ∷ xs)

-- `dropFromUserLocked`
unfoldable pub drop_from_user : Hub → Sink → Bytes → Hub
unfolding unless_empty
drop_from_user h s user = record h {
  users =
      update bytes_discrete h.users user
        (unless_empty (exclude ℕ_discrete s (members (h.users user))));
  user_of = update ℕ_discrete h.user_of s none;
}

unfoldable pub file_user : Hub → Sink → Bytes → Hub
file_user h s user = record h {
  users = update bytes_discrete h.users user (some (include ℕ_discrete s (members (h.users user))));
  user_of = update ℕ_discrete h.user_of s (some user);
}

-- `indexUserLocked`
unfoldable pub index_user : Hub → Sink → Bytes → Hub
unfolding drop_from_user file_user
index_user h s user = elim (h.user_of s) [
  | none ↦ file_user h s user
  | some filed ↦ if same filed user then h else file_user (drop_from_user h s filed) s user
]

-- `registerLocked`, with `s.ID()` and `s.User()`.
unfoldable pub register : Hub → Sink → Bytes → Bytes → Result HubError Hub
unfolding index_user
register h s id user = elim (h.clients id) [
  | some existing ↦ (if existing == s then ok (index_user h s user) else err duplicate_id)
  | none ↦ ok (
      index_user
        (record h {
          subs = update ℕ_discrete h.subs s (some []);
          clients = update bytes_discrete h.clients id (some s);
        })
        s user)
]

-- `insertLocked`: the second part tells whether the channel went from no holder to one.
unfoldable pub insert_into : Hub → Sink → Bytes → List Bytes → List Sink → Hub × Bool
insert_into h s k mirror set =
    let set' = include ℕ_discrete s set in
    let first = length set' == 1 in
    (
      record h {
        channels = update bytes_discrete h.channels k (some set');
        subs = update ℕ_discrete h.subs s (some (include bytes_discrete k mirror));
        desired = if first then include bytes_discrete k h.desired else h.desired;
      },
      first,
    )

unfoldable pub insert_locked : Hub → Sink → Bytes → Result HubError (Hub × Bool)
unfolding insert_into
insert_locked h s k = elim (h.subs s) [
  | none ↦ err not_registered
  | some mirror ↦
      if has bytes_discrete k mirror
      then err already_subscribed
      else (if ltb 0 h.max_subs && leb h.max_subs (length mirror)
          then err subscription_limit
          else ok (insert_into h s k mirror (members (h.channels k))))
]

-- `delete(h.subs[s], key)`: a connection with no mirror has nothing to delete.
unfoldable pub unmirror : Hub → Sink → Bytes → Option (List Bytes) → Sink → Option (List Bytes)
unmirror h s k none = h.subs
unmirror h s k (some mirror) = update ℕ_discrete h.subs s (some (exclude bytes_discrete k mirror))

-- What `detach` does with the holders that are left.
unfoldable pub leave_holders : Hub → Bytes → List Sink → Hub × Bool
leave_holders h k [] = (
  record h {
    channels = update bytes_discrete h.channels k none;
    desired = exclude bytes_discrete k h.desired;
  },
  true,
)
leave_holders h k (x ∷ xs) =
    (record h { channels = update bytes_discrete h.channels k (some (x ∷ xs)) }, false)

-- `detach`: the second part tells whether the last holder is gone.
unfoldable pub detach : Hub → Sink → Bytes → Hub × Bool
unfolding leave_holders unmirror
detach h s k =
    leave_holders (record h { subs = unmirror h s k (h.subs s) }) k
      (exclude ℕ_discrete s (members (h.channels k)))

-- `dropLocked`
unfoldable pub drop_locked : Hub → Sink → Bytes → Result HubError (Hub × Bool)
unfolding detach
drop_locked h s k = elim (h.subs s) [
  | none ↦ err not_registered
  | some mirror ↦ if has bytes_discrete k mirror then ok (detach h s k) else err not_subscribed
]

-- The loop of `Remove` over the mirror.
unfoldable pub detach_all : Hub → Sink → List Bytes → Hub × Bool
unfolding detach
detach_all h s [] = (h, false)
detach_all h s (k ∷ ks) =
    let (h', last) = detach h s k in
    let (h'', changed) = detach_all h' s ks in (h'', last || changed)

-- The deletions of `Remove` from the mirror and from the client index.
unfoldable pub deregister : Hub → Sink → Bytes → Hub
deregister h s id = record h {
  subs = update ℕ_discrete h.subs s none;
  clients = update bytes_discrete h.clients id none;
}

-- The last deletion, where the connection is filed under a user.
unfoldable pub unfile : Hub → Sink → Option Bytes → Hub
unfolding drop_from_user
unfile h s none = h
unfile h s (some filed) = drop_from_user h s filed

-- `Remove` under the lock.
unfoldable pub remove_locked : Hub → Sink → Bytes → List Bytes → Hub × Bool
unfolding detach_all deregister unfile
remove_locked h s id mirror =
    let (h', changed) = detach_all h s mirror in
    (unfile (deregister h' s id) s (h'.user_of s), changed)

-- `reindexLocked`, where the connection is registered.
unfoldable pub reindex : Hub → Sink → Bytes → Hub × Bool
unfolding index_user
reindex h s user = elim (h.subs s) [ none ↦ (h, false) | some mirror ↦ (index_user h s user, true) ]

-- The loop of `Attach`: the channels taken, and whether any of them was new to this replica.
unfoldable pub attach_loop : Hub → Sink → List Bytes → Hub × List Bytes × Bool
unfolding insert_locked admit key
attach_loop h s [] = (h, [], false)
attach_loop h s (channel ∷ channels) =
    let skipped = attach_loop h s channels in
    elim (admit h channel) [
      | some e ↦ skipped
      | none ↦ elim (insert_locked h s (key h channel)) [
        | err e ↦ skipped
        | ok (h', first) ↦
            let (h'', granted, changed) = attach_loop h' s channels in
            (h'', channel ∷ granted, first || changed)
      ]
    ]

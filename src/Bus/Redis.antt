-- ===== src/Bus/Redis.antt =====
-- internal/bus/redis.go and errors.go: the bus over Redis. go-redis and the server are the `Reply` to each
-- command, and what the server holds for the connection is part of the state. A context is whether it is done.
use sidecartunnel.Base.{
  ℕ, zero, suc, Bool, true, false, ◌&&◌, Option, none, some, List, [], ◌∷◌, ltb, ◌==◌,
  if◌then◌else◌, Bytes, length, take, drop, bytes_discrete, has, include, exclude,
}
use sidecartunnel.Bus.Memory.{Message, to_set}

-- `ErrClosed`, the context's error, `ErrDisconnected`, and an error of the transport.
pub data RedisError : Type 0 where
  bus_closed context_done disconnected transport : RedisError

-- What came of one command: sent, and as many acknowledgements read as it has channels; or an error of the send
-- or of the wait, and what the server holds then.
pub data Reply : Type 0 where
  acknowledged : Reply
  lost : RedisError → List Bytes → Reply

-- `linked` tells that `sub` is not nil, and `cut` that it is closed. `server` is what Redis holds for it.
pub record RedisBus : Type 0 where
  pub chunk_size : ℕ
  pub current : List Bytes
  pub desired : List Bytes
  pub linked : Bool
  pub cut : Bool
  pub connected : Bool
  pub closing : Bool
  pub connections : ℕ
  pub subs : ℕ
  pub out : List Message
  pub intake : ℕ
  pub dropped : ℕ
  pub down_since : ℕ
  pub server : List Bytes

-- `slices.Sort`: the order of strings, and a sort by it.
unfoldable pub bytes_le : Bytes → Bytes → Bool
bytes_le [] b = true
bytes_le (x ∷ a) [] = false
bytes_le (x ∷ a) (y ∷ b) =
    let rest = bytes_le a b in if ltb x y then true else if x == y then rest else false

unfoldable pub insert_sorted : Bytes → List Bytes → List Bytes
unfolding bytes_le
insert_sorted x [] = x ∷ []
insert_sorted x (y ∷ ys) = if bytes_le x y then x ∷ y ∷ ys else y ∷ insert_sorted x ys

unfoldable pub sort : List Bytes → List Bytes
unfolding insert_sorted
sort [] = []
sort (x ∷ xs) = insert_sorted x (sort xs)

-- The members of the first set that are not in the second.
unfoldable pub missing : List Bytes → List Bytes → List Bytes
unfolding has
missing [] other = []
missing (channel ∷ set) other =
    let rest = missing set other in
    if has bytes_discrete channel other then rest else channel ∷ rest

-- `diff`: what to subscribe to, and what to drop.
unfoldable pub diff : List Bytes → List Bytes → List Bytes × List Bytes
unfolding sort missing
diff current desired = (sort (missing desired current), sort (missing current desired))

-- `chunk`, on fuel.
unfoldable pub chunk_loop : ℕ → ℕ → List Bytes → List (List Bytes)
chunk_loop zero size channels = []
chunk_loop (suc fuel) size [] = []
chunk_loop (suc fuel) size (channel ∷ channels) =
    take size (channel ∷ channels) ∷ chunk_loop fuel size (drop size (channel ∷ channels))

unfoldable pub chunk : List Bytes → ℕ → List (List Bytes)
unfolding chunk_loop
chunk channels size = chunk_loop (length channels) size channels

-- `dropConnection`
unfoldable pub drop_connection : RedisBus → RedisBus
drop_connection b = if b.linked then record b { cut = true } else b

-- The channels of one command put into a set, or taken out of it.
unfoldable pub change : Bool → List Bytes → List Bytes → List Bytes
unfolding include exclude
change hold set [] = set
change hold set (channel ∷ part) =
    change hold
      (if hold then include bytes_discrete channel set else exclude bytes_discrete channel set) part

-- What an acknowledged command does: to the server, and to the book-keeping of `issue`.
unfoldable pub confirm : Bool → List Bytes → RedisBus → RedisBus
unfolding change
confirm hold part b =
    let held = change hold b.current part in
    record b { current = held; subs = length held; server = change hold b.server part }

-- The body of `issue` after a command, before the rest of its loop.
unfoldable pub answered :
    Reply → ℕ → RedisBus → RedisBus × ℕ × Option RedisError → RedisBus × ℕ × Option RedisError
unfolding drop_connection
answered acknowledged i b rest = rest
answered (lost e held) i b rest = (drop_connection (record b { server = held }), suc i, some e)

-- `issue` over its parts: the state, the number of the next command, and the error.
unfoldable pub issue :
    Bool → List (List Bytes) → (ℕ → Reply) → ℕ → RedisBus → RedisBus × ℕ × Option RedisError
unfolding confirm answered
issue hold [] replies i b = (b, i, none)
issue hold (part ∷ parts) replies i b =
    let rest = issue hold parts replies (suc i) (confirm hold part b) in
    answered (replies i) i b rest

-- The second turn of the loop of `apply`, where the first left no error.
unfoldable pub add_after :
    List (List Bytes)
    → (ℕ → Reply)
    → ℕ
    → RedisBus
    → Option RedisError
    → RedisBus × Option RedisError
unfolding issue
add_after parts replies i b (some f) = (b, some f)
add_after parts replies i b none = let (b', j, e) = issue true parts replies i b in (b', e)

-- `apply` from the differences on: first what to drop, then what to add.
unfoldable pub apply_diff :
    List Bytes → List Bytes → (ℕ → Reply) → RedisBus → RedisBus × Option RedisError
unfolding add_after issue chunk
apply_diff add remove replies b =
    let (b', i, e) = issue false (chunk remove b.chunk_size) replies 0 b in
    add_after (chunk add b.chunk_size) replies i b' e

-- `apply`
unfoldable pub apply : (ℕ → Reply) → RedisBus → RedisBus × Option RedisError
unfolding diff apply_diff
apply replies b =
    let (add, remove) = diff b.current b.desired in
    if b.linked && b.connected then apply_diff add remove replies b else (b, some disconnected)

-- `checkState`; Close closes `done` and marks the bus as closing at once.
unfoldable pub check_state : RedisBus → Bool → Option RedisError
check_state b finished =
    if b.closing then some bus_closed else if finished then some context_done else none

-- What an operation gives: the error of its check, or what it goes on to.
abbrev pub unless {ℓ} :
    {A : Type ℓ} → Option RedisError → A × Option RedisError → A → A × Option RedisError
unless none next b = next
unless (some e) next b = (b, some e)

-- `Sync`
unfoldable pub sync : (ℕ → Reply) → RedisBus → Bool → List Bytes → RedisBus × Option RedisError
unfolding check_state apply to_set
sync replies b finished desired =
    unless (check_state b finished) (apply replies (record b { desired = to_set [] desired })) b

-- `Publish`, with what the transport answers, and whether it was asked.
unfoldable pub publish : RedisBus → Bool → Option RedisError → Bool × Option RedisError
unfolding check_state
publish b finished answer =
    unless (check_state b finished)
      (if b.connected then (true, answer) else (false, some disconnected)) false

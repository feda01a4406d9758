-- ===== src/Bus/RedisLink.antt =====
-- internal/bus/redis.go: what the goroutine that owns the connection does: adopt, release, the reader's
-- messages, the retries; Close, Health, and the constructor.
use sidecartunnel.Base.{
  ℕ, zero, suc, ◌-◌, ◌*◌, ◌%◌, ◌^◌, Bool, true, false, ◌&&◌, ◌||◌, Option, none, some, List, [],
  ◌∷◌, ◌++◌, ltb, leb, ◌==◌, if◌then◌else◌, Bytes, length,
}
use sidecartunnel.Bus.Memory.{Message}
use sidecartunnel.Bus.Redis.{RedisBus, RedisError, Reply, apply, sync, drop_connection}

abbrev pub default_chunk_size : ℕ
default_chunk_size = 256

abbrev pub default_intake_queue : ℕ
default_intake_queue = 4096

-- `newRedisBus`, before the first attempt to connect.
unfoldable pub new_redis_bus : ℕ → ℕ → ℕ → RedisBus
new_redis_bus intake chunk_size now = record {
  chunk_size = if chunk_size == 0 then default_chunk_size else chunk_size;
  current = [];
  desired = [];
  linked = false;
  cut = false;
  connected = false;
  closing = false;
  connections = 0;
  subs = 0;
  out = [];
  intake = if intake == 0 then default_intake_queue else intake;
  dropped = 0;
  down_since = now;
  server = [];
}

-- `adopt` of a new connection, for which the server holds nothing.
unfoldable pub adopt : RedisBus → RedisBus × Bool
adopt b = if b.closing then (b, false) else (
  record b {
    linked = true;
    cut = false;
    current = [];
    subs = 0;
    connections = suc b.connections % 2 ^ 64;
    connected = true;
    server = [];
  },
  true,
)

unfoldable pub dropped_on : RedisBus → Option RedisError → RedisBus
unfolding drop_connection
dropped_on b none = b
dropped_on b (some e) = drop_connection b

-- `resync`, and the drop of a connection whose set could not be applied.
unfoldable pub resync : (ℕ → Reply) → RedisBus → RedisBus
unfolding dropped_on
resync replies b = let (b', e) = apply replies b in dropped_on b' e

-- `release` of the adopted connection.
unfoldable pub release : RedisBus → ℕ → RedisBus
release b now =
    let gone = record b { linked = false; cut = false } in
    if b.connected then record gone { connected = false; down_since = now; subs = 0 } else gone

-- A message that `read` takes from the connection.
unfoldable pub read_message : RedisBus → Message → RedisBus
read_message b message =
    if ltb (length b.out) b.intake
    then record b { out = b.out ++ message ∷ [] }
    else record b { dropped = suc b.dropped % 2 ^ 64 }

-- `Close`, with the end of the goroutines that it waits for; a later call does nothing.
unfoldable pub close : RedisBus → ℕ → RedisBus
unfolding release
close b now = if b.closing then b else record (release b now) { closing = true; connected = false }

pub record Health : Type 0 where
  pub connected : Bool
  pub subscriptions : ℕ
  pub intake_depth : ℕ
  pub dropped_messages : ℕ
  pub reconnects : ℕ
  pub disconnected_for : ℕ

-- `Health`
unfoldable pub health : RedisBus → ℕ → Health
health b now = record {
  connected = b.connected;
  subscriptions = b.subs;
  intake_depth = length b.out;
  dropped_messages = b.dropped;
  reconnects = if ltb 1 b.connections then b.connections - 1 else 0;
  disconnected_for = if b.connected then 0 else now - b.down_since;
}

-- `nextBackoff`, a Duration of 63 bits and a sign; a delay that is not positive is 0 or has the top bit.
unfoldable pub next_backoff : ℕ → ℕ → ℕ → ℕ
next_backoff cur floor ceiling =
    let next = if cur == 0 || leb (2 ^ 63) cur then floor else cur * 2 % 2 ^ 64 in
    if ltb next (2 ^ 63) && ltb ceiling next then ceiling else next

-- The delay before the n-th of a run of failed attempts.
unfoldable pub delay : ℕ → ℕ → ℕ → ℕ
unfolding next_backoff
delay zero floor ceiling = 0
delay (suc n) floor ceiling = next_backoff (delay n floor ceiling) floor ceiling

-- What happens to a bus, each under its lock.
pub data Event : Type 0 where
  syncs : (ℕ → Reply) → Bool → List Bytes → Event
  connects : (ℕ → Reply) → Event
  drops : Event
  loses : ℕ → Event
  reads : Message → Event
  closes : ℕ → Event

-- A connection is adopted only when none is linked, and read only while it is.
unfoldable pub handle : RedisBus → Event → RedisBus
unfolding sync adopt resync release read_message close drop_connection
handle b (syncs replies finished desired) = (sync replies b finished desired).0
handle b (connects replies) =
    let (b', taken) = adopt b in if b.linked then b else if taken then resync replies b' else b
handle b drops = drop_connection b
handle b (loses now) = if b.linked then release b now else b
handle b (reads message) = if b.linked then read_message b message else b
handle b (closes now) = close b now

unfoldable pub handle_all : RedisBus → List Event → RedisBus
unfolding handle
handle_all b [] = b
handle_all b (e ∷ events) = handle_all (handle b e) events

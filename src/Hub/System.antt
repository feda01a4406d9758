-- ===== src/Hub/System.antt =====
-- internal/hub: a new hub, the goroutines that close connections, and every call as a step.
use sidecartunnel.Base.{
  ℕ, true, false, Option, none, some, List, [], ◌∷◌, ◌++◌, ◌==◌, if◌then◌else◌, Bytes, codes,
  bytes_discrete, update, exclude, Result, ok, err,
}
use sidecartunnel.Proto.{Frame}
use sidecartunnel.Hub.State.{Sink, Hub, Namespace, control_channel, mark_dirty}
use sidecartunnel.Hub.World.{
  World, put_conn, remove, close_conn, close_slow, add, attach, subscribe, unsubscribe, deliver,
}
use sidecartunnel.Hub.Control.{Control, control}

-- The fields of `Options` that decide the registry.
pub record Options : Type 0 where
  pub prefix : Bytes
  pub separator : Bytes
  pub namespaces : List Namespace
  pub max_subscriptions_per_conn : ℕ
  pub closer_queue : ℕ

abbrev or_bytes : Bytes → Bytes → Bytes
or_bytes [] fallback = fallback
or_bytes (c ∷ s) fallback = c ∷ s

-- The loop that fills the table; a later block of the same name wins.
unfoldable pub namespace_table :
    (Bytes → Option Namespace) → List Namespace → Bytes → Option Namespace
namespace_table table [] = table
namespace_table table (ns ∷ rest) =
    namespace_table (update bytes_discrete table ns.name (some ns)) rest

abbrev pub built_in : List Namespace → List Namespace
built_in [] = record { name = []; client_events = false; rate_limit = [] } ∷ []
built_in (ns ∷ rest) = ns ∷ rest

-- `New`, once the control channel is marked for the first reconciliation.
unfoldable pub new_hub : Options → Hub
unfolding namespace_table mark_dirty
new_hub o =
    let prefix = or_bytes o.prefix (codes "st:") in
    let control_key = prefix ++ control_channel in
    mark_dirty (record {
      prefix = prefix;
      separator = or_bytes o.separator (codes "-");
      namespaces = namespace_table (λ _. none) (built_in o.namespaces);
      max_subs = o.max_subscriptions_per_conn;
      control_key = control_key;
      channels = λ _. none;
      subs = λ _. none;
      users = λ _. none;
      user_of = λ _. none;
      clients = λ _. none;
      desired = control_key ∷ [];
      dirty = false;
      wake = false;
      closeq = [];
      closer_queue = if o.closer_queue == 0 then 1024 else o.closer_queue;
      close_done = false;
      closers = [];
    })

-- One turn of `closeLoop`.
unfoldable pub closer_turn : World → World
unfolding close_slow
closer_turn w = elim w.hub.closeq [
  | [] ↦ w
  | s ∷ rest ↦ close_slow (record w { hub = record (w.hub) { closeq = rest } }) s
]

-- One overflow goroutine of `enqueueClose` runs.
unfoldable pub overflow_turn : World → World
unfolding close_slow
overflow_turn w = elim w.hub.closers [
  | [] ↦ w
  | s ∷ rest ↦ close_slow (record w { hub = record (w.hub) { closers = rest } }) s
]

unfoldable pub close_each : World → List Sink → World
unfolding close_slow
close_each w [] = w
close_each w (s ∷ ss) = close_each (close_slow w s) ss

-- `Close`: from here a close is inline; the overflow closers and the queue are worked off.
unfoldable pub close_hub : World → World
unfolding close_each
close_hub w =
    close_each (record w { hub = record (w.hub) { close_done = true; closers = []; closeq = [] } })
      (w.hub.closers ++ w.hub.closeq)

-- Every call on the hub, the turns of its goroutines, and the writes of a connection to itself that
-- leave its id alone.
pub data Call : Type 0 where
  adds : Sink → Call
  attaches : Sink → List Bytes → (List Bytes → Option Frame) → Call
  subscribes unsubscribes : Sink → Bytes → Option Frame → Call
  removes : Sink → Call
  delivers : Bytes → Frame → Bytes → Call
  controls : Control → Call
  closes : Sink → ℕ → Bytes → Call
  names_user : Sink → Bytes → Call
  writes_frame : Sink → List Frame → Call
  closer_turns overflow_turns hub_closes : Call

abbrev pub kept {ℓ} : {E : Type ℓ} → World → Result E World → World
kept w (ok w') = w'
kept w (err e) = w

unfoldable pub step : World → Call → World
unfolding add attach subscribe unsubscribe remove deliver control close_conn closer_turn
    overflow_turn close_hub
step w (adds s) = kept w (add w s)
step w (attaches s channels ack) = (attach w s channels ack).0
step w (subscribes s channel ack) = kept w (subscribe w s channel ack)
step w (unsubscribes s channel ack) = kept w (unsubscribe w s channel ack)
step w (removes s) = remove w s
step w (delivers k frame exclude) = deliver w k frame exclude
step w (controls c) = kept w (control w c)
step w (closes s code reason) = close_conn w s code reason
step w (names_user s user) = put_conn w s (record (w.conns s) { user = some user })
step w (writes_frame s out) = put_conn w s (record (w.conns s) { out = out })
step w closer_turns = closer_turn w
step w overflow_turns = overflow_turn w
step w hub_closes = close_hub w

unfoldable pub run : World → List Call → World
unfolding step
run w [] = w
run w (c ∷ cs) = run (step w c) cs

-- ===== src/Bus/Memory.antt =====
-- internal/bus/memory.go: MemoryBus. `out` is what its intake channel holds; a context is whether it is
-- done.
use sidecartunnel.Base.{
  ℕ, suc, ◌%◌, ◌^◌, Bool, true, false, List, [], ◌∷◌, ◌++◌, Option, none, some, Bytes, ltb, ◌==◌,
  if◌then◌else◌, length, bytes_discrete, has, include, Result, ok, err,
}

pub record Message : Type 0 where
  pub channel : Bytes
  pub payload : Bytes

pub record MemoryBus : Type 0 where
  pub out : List Message
  pub intake : ℕ
  pub subs : List Bytes
  pub closed : Bool
  pub dropped : ℕ

-- `ErrClosed`, or the context's error.
pub data BusError : Type 0 where
  bus_closed context_done : BusError

abbrev pub default_intake_queue : ℕ
default_intake_queue = 4096

-- `NewMemory`
unfoldable pub new_memory : ℕ → MemoryBus
new_memory intake = record {
  out = [];
  intake = if intake == 0 then default_intake_queue else intake;
  subs = [];
  closed = false;
  dropped = 0;
}

-- The loop of `Sync` that fills the set.
unfoldable pub to_set : List Bytes → List Bytes → List Bytes
unfolding include
to_set set [] = set
to_set set (channel ∷ desired) = to_set (include bytes_discrete channel set) desired

-- `Sync`
unfoldable pub sync : MemoryBus → Bool → List Bytes → Result BusError MemoryBus
unfolding to_set
sync b finished desired =
    if finished
    then err context_done
    else if b.closed
    then err bus_closed
    else ok (record b { subs = to_set [] desired })

-- The non-blocking send of `Publish`; the counter of what is dropped has 64 bits.
unfoldable pub put : MemoryBus → Message → MemoryBus
put b message =
    if ltb (length b.out) b.intake
    then record b { out = b.out ++ message ∷ [] }
    else record b { dropped = suc b.dropped % 2 ^ 64 }

-- `Publish`
unfoldable pub publish : MemoryBus → Bool → Bytes → Bytes → Result BusError MemoryBus
unfolding put has
publish b finished channel payload =
    if finished
    then err context_done
    else if b.closed
    then err bus_closed
    else if has bytes_discrete channel b.subs
    then ok (put b (record { channel = channel; payload = payload }))
    else ok b

-- A receive from the channel of `Receive`, where it holds a message.
unfoldable pub receive : MemoryBus → Option (Message × MemoryBus)
receive b = elim b.out [ [] ↦ none | message ∷ rest ↦ some (message, record b { out = rest }) ]

-- `Close`
unfoldable pub close : MemoryBus → MemoryBus
close b = record b { closed = true }

pub record Health : Type 0 where
  pub connected : Bool
  pub subscriptions : ℕ
  pub intake_depth : ℕ
  pub dropped_messages : ℕ

-- `Health`
unfoldable pub health : MemoryBus → Health
health b = record {
  connected = true;
  subscriptions = length b.subs;
  intake_depth = length b.out;
  dropped_messages = b.dropped;
}

pub data Operation : Type 0 where
  syncs : Bool → List Bytes → Operation
  publishes : Bool → Bytes → Bytes → Operation
  receives closes : Operation

abbrev pub settled : MemoryBus → Result BusError MemoryBus → MemoryBus
settled b (ok b') = b'
settled b (err e) = b

abbrev pub received : MemoryBus → Option (Message × MemoryBus) → MemoryBus × List Message
received b none = (b, [])
received b (some (message, b')) = (b', message ∷ [])

-- One operation, with what it takes from the channel.
unfoldable pub operate : MemoryBus → Operation → MemoryBus × List Message
unfolding sync publish receive close
operate b (syncs finished desired) = (settled b (sync b finished desired), [])
operate b (publishes finished channel payload) =
    (settled b (publish b finished channel payload), [])
operate b receives = received b (receive b)
operate b closes = (close b, [])

unfoldable pub operate_all : MemoryBus → List Operation → MemoryBus × List Message
unfolding operate
operate_all b [] = (b, [])
operate_all b (o ∷ os) =
    let (b', taken) = operate b o in let (b'', more) = operate_all b' os in (b'', taken ++ more)

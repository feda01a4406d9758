-- ===== src/Consumer/Messages.antt =====
-- internal/consumer/consumer.go, internal/consumer/control.go, and Dispatch with ParseEnvelope of
-- internal/hub/fanout.go. encoding/json, encoding/hex, HMAC-SHA256 and the decimal text of the timestamp
-- are parameters. The clock is nanoseconds since the epoch; the counters stay far below 2^63.
use sidecartunnel.Base.{
  ℕ, suc, ◌+◌, ◌*◌, Bool, true, false, not, ◌&&◌, ◌||◌, List, [], ◌∷◌, ◌++◌, Option, none, some,
  Bytes, codes, ltb, if◌then◌else◌, length, Result, ok, err,
}
use sidecartunnel.Text.{same}
use sidecartunnel.Proto.{push, published}
use sidecartunnel.Bus.Memory.{Message}
use sidecartunnel.Hub.State.{channel_name}
use sidecartunnel.Hub.World.{World, deliver}
use sidecartunnel.Hub.Control.{Control, action_disconnect, validate, control}

-- `hub.Envelope` as it is decoded: `payload` is none where the document has no data.
pub record Published : Type 0 where
  pub event : Bytes
  pub payload : Option Bytes
  pub exclude : Bytes
  pub from : Bytes

-- `consumer.Envelope`; the timestamp is its sign and its magnitude.
pub record Signed : Type 0 where
  pub negative : Bool
  pub ts : ℕ
  pub nonce : Bytes
  pub body : Bytes
  pub sig : Bytes

-- `Reason`, of a rejected control message.
pub data Reason : Type 0 where
  unsigned stale malformed_control : Reason

-- What the other packages make of bytes.
pub record Codec : Type 0 where
  pub published_of : Bytes → Option Published
  pub signed_of : Bytes → Option Signed
  pub control_of : Bytes → Option Control
  pub hex_of : Bytes → Option Bytes
  pub mac : Bytes → Bytes → Bytes
  pub timestamp : Bool → ℕ → Bytes

-- `Consumer`, with its counters and how often it has flushed the webhook's cache.
pub record Consumer : Type 0 where
  pub world : World
  pub secret : Bytes
  pub max_message : ℕ
  pub dispatched : ℕ
  pub malformed : ℕ
  pub oversize : ℕ
  pub applied : ℕ
  pub unsigned_count : ℕ
  pub stale_count : ℕ
  pub control_malformed : ℕ
  pub flushes : ℕ

abbrev pub skew : ℕ
skew = 300000000000

abbrev pub second : ℕ
second = 1000000000

-- Whether the timestamp lies more than `Skew` before or after the clock.
unfoldable pub is_stale : ℕ → Bool → ℕ → Bool
is_stale now true ts = ltb skew (now + ts * second)
is_stale now false ts = ltb (ts * second + skew) now || ltb (now + skew) (ts * second)

module _ (codec : Codec) where
  -- The bytes that the signature covers.
  abbrev pub signed_text : Signed → Bytes
  signed_text s =
      codec.timestamp s.negative s.ts ++ (codes "." ++ (s.nonce ++ (codes "." ++ s.body)))

  abbrev pub equals : Option Bytes → Bytes → Bool
  equals none m = false
  equals (some sig) m = same sig m

  abbrev pub validated : Option Control → Result Reason Control
  validated none = err malformed_control
  validated (some c) = elim (validate c) [ err e ↦ err malformed_control | ok p ↦ ok c ]

  unfoldable pub checked : Bytes → ℕ → Signed → Result Reason Control
  unfolding is_stale same validate
  checked secret now s =
      if not (equals (codec.hex_of s.sig) (codec.mac secret (signed_text s)))
      then err unsigned
      else if is_stale now s.negative s.ts
      then err stale
      else validated (codec.control_of s.body)

  -- `Verify`
  unfoldable pub verify : Bytes → ℕ → Bytes → Result Reason Control
  unfolding checked
  verify secret now payload = elim (codec.signed_of payload) [
    | none ↦ err malformed_control
    | some s ↦ checked secret now s
  ]

  -- `count`
  unfoldable pub count : Consumer → Reason → Consumer
  count c unsigned = record c { unsigned_count = suc c.unsigned_count }
  count c stale = record c { stale_count = suc c.stale_count }
  count c malformed_control = record c { control_malformed = suc c.control_malformed }

  -- `apply`
  unfoldable pub apply : Consumer → ℕ → Bytes → Consumer
  unfolding verify count control same
  apply c now payload = elim (verify c.secret now payload) [
    | err reason ↦ count c reason
    | ok command ↦ elim (control c.world command) [
      | err e ↦ count c malformed_control
      | ok w ↦ record c {
        world = w;
        applied = suc c.applied;
        flushes = if same command.action action_disconnect then suc c.flushes else c.flushes;
      }
    ]
  ]

  -- `ParseEnvelope` on what has been decoded, then the frame and the delivery of `Dispatch`.
  unfoldable pub fan_out : World → Bytes → Published → Option World
  unfolding deliver channel_name same
  fan_out w channel env = elim env.payload [
    | none ↦ none
    | some payload ↦
        let frame = push (record {
          channel = channel_name w.hub channel;
          body = published (record { event = env.event; payload = payload; from = env.from });
        }) in
        if same env.event [] then none else some (deliver w channel frame env.exclude)
  ]

  -- `Dispatch`; none where the envelope is dropped.
  unfoldable pub dispatch : World → Message → Option World
  unfolding fan_out
  dispatch w message = elim (codec.published_of message.payload) [
    | none ↦ none
    | some env ↦ fan_out w message.channel env
  ]

  -- `deliver`
  unfoldable pub deliver_message : Consumer → Message → Consumer
  unfolding dispatch
  deliver_message c message =
      let fanned : Consumer = elim (dispatch c.world message) [
        | none ↦ record c { malformed = suc c.malformed }
        | some w ↦ record c { world = w; dispatched = suc c.dispatched }
      ] in
      if ltb 0 c.max_message && ltb c.max_message (length message.payload)
      then record c { oversize = suc c.oversize }
      else fanned

  -- One message of `dispatch`; a control message is applied when the control goroutine takes it up.
  unfoldable pub consume : Consumer → ℕ → Message → Consumer
  unfolding apply deliver_message same
  consume c now message =
      if same message.channel c.world.hub.control_key
      then apply c now message.payload
      else deliver_message c message

  unfoldable pub consume_all : Consumer → List (ℕ × Message) → Consumer
  unfolding consume
  consume_all c [] = c
  consume_all c ((now, message) ∷ messages) = consume_all (consume c now message) messages

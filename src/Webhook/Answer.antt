-- ===== src/Webhook/Answer.antt =====
-- internal/webhook/result.go, and classify, drain and parse of internal/webhook/webhook.go. The decoder of
-- encoding/json is a parameter; an error is its kind, and durations are nanoseconds.
use sidecartunnel.Base.{
  ℕ, Bool, true, false, ◌&&◌, Option, none, some, List, [], leb, ◌==◌, if◌then◌else◌, Bytes, length,
  take, Result, ok, err,
}
use sidecartunnel.Text.{same}
use sidecartunnel.Proto.{close_unauthorized, close_auth_unavailable}
use sidecartunnel.Glob.{GrantSet, CompileError, new_set}
use sidecartunnel.Webhook.Expiry.{clamp_expiry}

-- What `errors.Is` can tell of an error, and what the other errors say.
pub data Fault : Type 0 where
  queue_overflow request_rejected malformed_response : Fault
  context_done deadline_exceeded transport unlisted_status : Fault

-- `Result`
pub data Outcome : Type 0 where
  authorized : Bytes → GrantSet → ℕ → Outcome
  refused : ℕ → Option Fault → Outcome
  unavailable : ℕ → Fault → Outcome

-- `CloseCode` of the two failures.
unfoldable pub close_code : Outcome → Option ℕ
close_code (authorized user grants expires_in) = none
close_code (refused status fault) = some close_unauthorized
close_code (unavailable status fault) = some close_auth_unavailable

-- `Reconnect` of the two failures.
unfoldable pub reconnects : Outcome → Option Bool
reconnects (authorized user grants expires_in) = none
reconnects (refused status fault) = some false
reconnects (unavailable status fault) = some true

-- `responseBody`: none for what is absent, and the sign and magnitude of `expires_in`.
pub record ResponseBody : Type 0 where
  pub user : Bytes
  pub channels : Option (List Bytes)
  pub expires_in : Option (Bool × ℕ)

-- `broken` tells that reading fails after the bytes of `body`.
pub record Response : Type 0 where
  pub status : ℕ
  pub body : Bytes
  pub broken : Bool

abbrev pub max_response_bytes : ℕ
max_response_bytes = 65536

-- `io.ReadAll(io.LimitReader(resp.Body, maxResponseBytes))`
unfoldable pub read_all : Response → Option Bytes
read_all resp =
    if leb max_response_bytes (length resp.body)
    then some (take max_response_bytes resp.body)
    else if resp.broken
    then none
    else some resp.body

module _ (min_expiry max_expiry : ℕ) where
  -- The end of `parse`, where all fields are there.
  unfoldable pub granted : ℕ → Bytes → Bool × ℕ → Result (ℕ × CompileError) GrantSet → Outcome
  granted status user (negative, seconds) (err e) = refused status (some malformed_response)
  granted status user (negative, seconds) (ok grants) =
      authorized user grants (clamp_expiry negative seconds min_expiry max_expiry)

  -- `parse` from `expires_in` on.
  unfoldable pub with_expiry : ℕ → Bytes → List Bytes → Option (Bool × ℕ) → Outcome
  unfolding granted
  with_expiry status user channels none = refused status (some malformed_response)
  with_expiry status user channels (some seconds) = granted status user seconds (new_set channels)

  -- `parse` from `channels` on.
  unfoldable pub with_channels : ℕ → Bytes → Option (List Bytes) → Option (Bool × ℕ) → Outcome
  unfolding with_expiry
  with_channels status user none expires_in = refused status (some malformed_response)
  with_channels status user (some channels) expires_in = with_expiry status user channels expires_in

  -- `parse` from the decoded body on.
  unfoldable pub unpacked : ℕ → Option ResponseBody → Outcome
  unfolding with_channels same
  unpacked status none = refused status (some malformed_response)
  unpacked status (some body) =
      if same body.user []
      then refused status (some malformed_response)
      else with_channels status body.user body.channels body.expires_in

module _ (unmarshal : Bytes → Option ResponseBody) (min_expiry max_expiry : ℕ) where
  -- `parse`
  unfoldable pub parse : Response → Outcome
  unfolding unpacked
  parse resp = elim (read_all resp) [
    | none ↦ unavailable resp.status transport
    | some raw ↦ unpacked min_expiry max_expiry resp.status (unmarshal raw)
  ]

  -- `classify`; `drain` leaves the answer alone.
  unfoldable pub classify : Response → Outcome
  unfolding parse
  classify resp =
      if resp.status == 401
      then refused 401 none
      else if resp.status == 403
      then unavailable 403 request_rejected
      else if leb 200 resp.status && leb resp.status 299
      then parse resp
      else unavailable resp.status unlisted_status

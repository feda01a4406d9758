-- ===== src/Webhook/Attempts.antt =====
-- internal/webhook/sign.go, and attempt and attempts of internal/webhook/webhook.go. HMAC, SHA-256, hex and
-- encoding/json are parameters; what each attempt meets is a `Round`. Times are nanoseconds.
use Prim.Native.Nat.{min}
use sidecartunnel.Base.{
  ℕ, zero, suc, ◌-◌, ◌/◌, Bool, true, false, Option, none, some, List, [], ◌∷◌, ◌++◌, leb,
  if◌then◌else◌, Bytes, codes,
}
use sidecartunnel.Text.{same}
use sidecartunnel.Webhook.Answer.{
  request_rejected, context_done, deadline_exceeded, transport, queue_overflow, malformed_response,
  unlisted_status, Outcome, authorized, refused, unavailable, Response, ResponseBody, classify,
}

-- `Request`
pub record Request : Type 0 where
  pub client : Bytes
  pub cookie : Bytes
  pub origin : Bytes
  pub user_agent : Bytes
  pub remote_addr : Bytes
  pub forwarded_for : Bytes
  pub channels_requested : List Bytes

pub record HttpRequest : Type 0 where
  pub headers : List (Bytes × Bytes)
  pub body : Bytes
  pub timeout : ℕ

-- What the code calls of other packages.
pub record Codec : Type 0 where
  pub marshal : Bytes → List Bytes → Bytes
  pub unmarshal : Bytes → Option ResponseBody
  pub sha256_hex : Bytes → Bytes
  pub hmac_hex : Bytes → Bytes → Bytes
  pub decimal : ℕ → Bytes

-- The parts of `Client` that an attempt reads.
pub record Client : Type 0 where
  pub secret : Bytes
  pub connect_timeout : ℕ
  pub webhook_timeout : ℕ
  pub retries : ℕ
  pub min_expiry : ℕ
  pub max_expiry : ℕ

-- What one turn of the loop meets: whether the context is done, the clock before and in `attempt`, the
-- nonce, and the answer of the HTTP client, none for an error of `Do`.
pub record Round : Type 0 where
  pub cancelled : Bool
  pub now : ℕ
  pub stamp : ℕ
  pub nonce : Bytes
  pub answer : HttpRequest → Option Response

-- `setIfPresent`, on the headers as a list.
unfoldable pub set_if_present : Bytes → Bytes → List (Bytes × Bytes) → List (Bytes × Bytes)
unfolding same
set_if_present key value rest = if same value [] then rest else (key, value) ∷ rest

-- Whether the loop goes on after an outcome: it is transient, and not a rejected request.
unfoldable pub retryable : Outcome → Bool
retryable (authorized user grants expires_in) = false
retryable (refused status fault) = false
retryable (unavailable status request_rejected) = false
retryable (unavailable status queue_overflow) = true
retryable (unavailable status malformed_response) = true
retryable (unavailable status context_done) = true
retryable (unavailable status deadline_exceeded) = true
retryable (unavailable status transport) = true
retryable (unavailable status unlisted_status) = true

module _ (codec : Codec) where
  -- `signedString`
  abbrev pub signed_string : Bytes → Bytes → Bytes → Bytes → Bytes
  signed_string timestamp nonce cookie body =
      timestamp
      ++ (codes "."
          ++ (nonce
              ++ (codes "." ++ (codec.sha256_hex cookie ++ (codes "." ++ codec.sha256_hex body)))))

  -- `sign`
  abbrev pub sign : Bytes → Bytes → Bytes → Bytes → Bytes → Bytes
  sign secret timestamp nonce cookie body =
      codec.hmac_hex secret (signed_string timestamp nonce cookie body)

  module _ (client : Client) (req : Request) (forwarded : Bytes) (deadline : ℕ) where
    -- The request that `attempt` builds.
    unfoldable pub request : Round → HttpRequest
    unfolding set_if_present
    request round =
        let body = codec.marshal req.client req.channels_requested in
        let timestamp = codec.decimal (round.stamp / 1000000000) in
        record {
          headers =
              (codes "Content-Type", codes "application/json")
              ∷ set_if_present (codes "Cookie") req.cookie (
                  set_if_present (codes "X-St-Origin") req.origin (
                    set_if_present (codes "X-St-User-Agent") req.user_agent (
                      set_if_present (codes "X-St-Forwarded-For") forwarded (
                        (codes "X-St-Timestamp", timestamp)
                        ∷ (codes "X-St-Nonce", round.nonce)
                        ∷ (
                          codes "X-St-Signature",
                          sign client.secret timestamp round.nonce req.cookie body,
                        )
                        ∷ []))));
          body = body;
          timeout = min (deadline - round.now) client.webhook_timeout;
        }

    -- `attempt` from the answer of `Do` on.
    unfoldable pub answered : Option Response → Outcome
    answered none = unavailable 0 transport
    answered (some resp) = classify codec.unmarshal client.min_expiry client.max_expiry resp

    -- `attempt`. The marshalling and http.NewRequestWithContext do not fail: the method is fixed and the URL is one that
    -- url.Parse has accepted.
    unfoldable pub attempt : Round → Outcome
    unfolding request answered
    attempt round = answered (round.answer (request round))

    -- The loop of `attempts`: what is left of its turns, the number of the next, the last failure.
    -- It gives the result, none for Go's nil, and the requests that were issued.
    unfoldable pub attempts_loop :
        ℕ → (ℕ → Round) → ℕ → Option Outcome → Option Outcome × List HttpRequest
    unfolding attempt retryable
    attempts_loop zero rounds i last = (last, [])
    attempts_loop (suc left) rounds i last =
        let round = rounds i in
        let res = attempt round in
        let again = attempts_loop left rounds (suc i) (some res) in
        if round.cancelled
        then (some (unavailable 0 context_done), [])
        else if leb deadline round.now
        then (some (unavailable 0 deadline_exceeded), [])
        else if retryable res
        then (again.0, request round ∷ again.1)
        else (some res, request round ∷ [])

    -- `attempts`
    unfoldable pub attempts : (ℕ → Round) → Option Outcome × List HttpRequest
    unfolding attempts_loop
    attempts rounds = attempts_loop (suc client.retries) rounds 0 none

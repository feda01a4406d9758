-- ===== src/Webhook/Calls.antt =====
-- internal/webhook/webhook.go: Call and call over the cache, the slots and the attempts, and the counters and
-- the alarm of logCall and logRejection. The log lines are not modelled.
use sidecartunnel.Base.{
  ℕ, suc, ◌+◌, ◌%◌, ◌^◌, Bool, true, false, Option, none, some, List, [], ◌∷◌, leb, if◌then◌else◌,
  Bytes,
}
use sidecartunnel.Glob.{GrantSet}
use sidecartunnel.Webhook.Cache.{Cache, key, get, put, flush}
use sidecartunnel.Webhook.Answer.{
  Fault, queue_overflow, request_rejected, malformed_response, context_done, deadline_exceeded,
  transport, unlisted_status, Outcome, authorized, refused, unavailable,
}
use sidecartunnel.Webhook.Attempts.{Request, HttpRequest, Codec, Client, Round, attempts}

-- `Authorized`
abbrev pub Authorized : Type 0
Authorized = Bytes × GrantSet × ℕ

abbrev pub counter : ℕ
counter = 2 ^ 64

-- `Stats`
pub record Stats : Type 0 where
  pub authorized_count : ℕ
  pub refused_count : ℕ
  pub rejected_count : ℕ
  pub failed_count : ℕ

-- The parts of `Client` that a call changes. `cache` is none where it is off, `last_reject_log` none for Go's
-- zero time.
pub record Gate : Type 0 where
  pub cache : Option (Cache Authorized)
  pub stats : Stats
  pub last_reject_log : Option ℕ
  pub reject_log_interval : ℕ

-- What a call meets: the clock at its start, at the store and at the log line; why it got no slot, none
-- where it got one; and the turns of the loop.
pub record Meets : Type 0 where
  pub start : ℕ
  pub refusal : Option Fault
  pub rounds : ℕ → Round
  pub stored : ℕ
  pub finish : ℕ

-- `logRejection`, with whether the line is an error: the first one is, and one an interval after the last.
unfoldable pub log_rejection : Gate → ℕ → Gate × Bool
log_rejection gate now =
    let loud : Bool = elim gate.last_reject_log [
      | none ↦ true
      | some last ↦ leb (last + gate.reject_log_interval) now
    ] in
    if loud then (record gate { last_reject_log = some now }, true) else (gate, false)

abbrev pub bump : ℕ → ℕ
bump n = suc n % counter

abbrev pub count_failed : Gate → Gate × Bool
count_failed gate = (
  record gate { stats = record gate.stats { failed_count = bump gate.stats.failed_count } },
  false,
)

-- `logCall`, with whether it raises the alarm.
unfoldable pub log_call : Gate → Option Outcome → ℕ → Gate × Bool
unfolding log_rejection
log_call gate none now = (gate, false)
log_call gate (some (authorized user grants expires_in)) now = (
  record gate { stats = record gate.stats { authorized_count = bump gate.stats.authorized_count } },
  false,
)
log_call gate (some (refused status fault)) now = (
  record gate { stats = record gate.stats { refused_count = bump gate.stats.refused_count } },
  false,
)
log_call gate (some (unavailable status request_rejected)) now =
    log_rejection
      (record gate {
        stats = record gate.stats { rejected_count = bump gate.stats.rejected_count };
      })
      now
log_call gate (some (unavailable status queue_overflow)) now = count_failed gate
log_call gate (some (unavailable status malformed_response)) now = count_failed gate
log_call gate (some (unavailable status context_done)) now = count_failed gate
log_call gate (some (unavailable status deadline_exceeded)) now = count_failed gate
log_call gate (some (unavailable status transport)) now = count_failed gate
log_call gate (some (unavailable status unlisted_status)) now = count_failed gate

-- Only an authorization is stored.
unfoldable pub store :
    Option (Cache Authorized) → Bytes → Option Outcome → ℕ → Option (Cache Authorized)
store none k res now = none
store (some c) k (some (authorized user grants expires_in)) now =
    some (put c k (user, grants, expires_in) now)
store (some c) k (some (refused status fault)) now = some c
store (some c) k (some (unavailable status fault)) now = some c
store (some c) k none now = some c

-- The lookup of `call`, with the cache that it leaves.
unfoldable pub look :
    Option (Cache Authorized) → Bytes → ℕ → Option (Cache Authorized) × Option Authorized
look none k now = (none, none)
look (some c) k now = let (c', found) = get c k now in (some c', found)

-- `Flush`
unfoldable pub flush_gate : Gate → Gate
flush_gate gate = record gate { cache = elim gate.cache [ none ↦ none | some c ↦ some (flush c) ] }

module _ (codec : Codec) (client : Client) where
  -- What `acquire` and `attempts` give.
  unfoldable pub issue : Request → Bytes → Meets → Option Fault → Option Outcome × List HttpRequest
  issue req forwarded m (some fault) = (some (unavailable 0 fault), [])
  issue req forwarded m none =
      attempts codec client req forwarded (m.start + client.connect_timeout) m.rounds

  -- `call` after the lookup: the cache, the result, whether it was cached, and the requests.
  unfoldable pub proceed :
      Request
      → Bytes
      → Meets
      → Bytes
      → Option (Cache Authorized)
      → Option Authorized
      → Option (Cache Authorized) × Option Outcome × Bool × List HttpRequest
  unfolding issue store
  proceed req forwarded m k cache (some (user, grants, expires_in)) =
      (cache, some (authorized user grants expires_in), true, [])
  proceed req forwarded m k cache none =
      let (res, requests) = issue req forwarded m m.refusal in
      (store cache k res m.stored, res, false, requests)

module _ (parse : Bytes → Option (List (Bytes × Bytes))) (digest : Bytes → Bytes)
    (cookie_names : List Bytes) (codec : Codec) (client : Client) where
  -- `call`
  unfoldable pub call :
      Option (Cache Authorized)
      → Request
      → Bytes
      → Meets
      → Option (Cache Authorized) × Option Outcome × Bool × List HttpRequest
  unfolding proceed look
  call cache req forwarded m =
      let k = key parse digest cookie_names req.cookie in
      let (cache', found) = look cache k m.start in
      proceed codec client req forwarded m k cache' found

  -- `Call`, with the requests that it issued.
  unfoldable pub call_logged :
      Gate → Request → Bytes → Meets → Gate × Option Outcome × List HttpRequest
  unfolding call log_call
  call_logged gate req forwarded m =
      let (cache, res, cached, requests) = call gate.cache req forwarded m in
      ((log_call (record gate { cache = cache }) res m.finish).0, res, requests)

  -- Calls one after the other.
  unfoldable pub call_all : Gate → List (Request × Bytes × Meets) → Gate
  unfolding call_logged
  call_all gate [] = gate
  call_all gate ((req, forwarded, m) ∷ calls) = call_all (call_logged gate req forwarded m).0 calls

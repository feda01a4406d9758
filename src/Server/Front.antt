-- ===== src/Server/Front.antt =====
-- internal/server/handler.go and server.go: ServeHTTP up to the upgrade, the slots of the live requests, the wait
-- of a drain, and the authorizer of a connection; readiness of probes.go. Sockets and headers are arguments.
use sidecartunnel.Base.{
  ℕ, suc, ◌-◌, ◌/◌, ◌%◌, ◌^◌, Bool, true, false, not, ◌&&◌, ◌||◌, List, [], ◌∷◌, ltb, leb, ◌==◌,
  if◌then◌else◌, Bytes, bytes_discrete, has, Result, ok, err,
}
use sidecartunnel.Text.{same}
use sidecartunnel.Conn.Command.{Auth, AuthError, unauthorized, unavailable}
use sidecartunnel.Server.Admission.{Admission, admit_user, drain}
use sidecartunnel.Webhook.Answer.{Outcome, authorized, refused}
use sidecartunnel.Webhook.Answer

-- `counters`
pub record Counters : Type 0 where
  pub origin_rejected : ℕ
  pub over_capacity : ℕ
  pub accepted : ℕ
  pub refused_count : ℕ
  pub unavailable_count : ℕ
  pub user_limited : ℕ

-- The rest of `Server`. `waiting` tells that the channel `drained` is there, `drained` that it was closed.
pub record Front : Type 0 where
  pub admission : Admission
  pub origins : List Bytes
  pub allow_missing_origin : Bool
  pub max_connections : ℕ
  pub current : ℕ
  pub waiting : Bool
  pub drained : Bool
  pub counters : Counters

-- `originAllowed`
unfoldable pub origin_allowed : Front → Bytes → Bool
unfolding same has
origin_allowed f origin =
    if same origin [] then f.allow_missing_origin else has bytes_discrete origin f.origins

-- `reserve`
unfoldable pub reserve : Front → Front × Bool
reserve f =
    if f.admission.draining
    then (f, false)
    else if ltb 0 f.max_connections && leb f.max_connections f.current
    then (f, false)
    else (record f { current = suc f.current }, true)

-- `release`
unfoldable pub release : Front → Front
release f =
    let left = record f { current = f.current - 1 } in
    if f.current - 1 == 0 && f.waiting
    then record left { waiting = false; drained = true }
    else left

-- The status of an answer without an upgrade.
pub data Entry : Type 0 where
  forbidden too_many upgraded : Entry

-- `ServeHTTP` up to the upgrade, which the request's slot outlives.
unfoldable pub serve_http : Front → Bytes → Front × Entry
unfolding reserve
serve_http f origin =
    let (f', reserved) = reserve f in
    if not (origin_allowed f origin)
    then (
      record f {
        counters = record f.counters { origin_rejected = suc f.counters.origin_rejected % 2 ^ 64 };
      },
      forbidden,
    )
    else if reserved
    then (f', upgraded)
    else (
      record f' {
        counters = record f'.counters { over_capacity = suc f'.counters.over_capacity % 2 ^ 64 };
      },
      too_many,
    )

-- The critical section of `Drain`, with the connections that it is going to close.
unfoldable pub begin_drain : Front → Front × List ℕ
unfolding drain
begin_drain f = let (a, live) = drain f.admission in (record f { admission = a }, live)

-- The critical section of `wait`: whether the drain is over at once.
unfoldable pub wait : Front → Front × Bool
wait f = if f.current == 0 then (f, true) else (record f { waiting = true }, false)

-- `StopAccepting`
unfoldable pub stop_accepting : Front → Front
stop_accepting f = record f { admission = record f.admission { draining = true } }

abbrev pub default_ready_grace : ℕ
default_ready_grace = 30000000000

-- `ready`, with the bus's health as whether it is connected and for how long it has not been.
unfoldable pub ready : Front → ℕ → Bool → ℕ → Bool
ready f ready_grace connected disconnected_for =
    let grace = if ready_grace == 0 then default_ready_grace else ready_grace in
    not f.admission.draining && (connected || leb disconnected_for grace)

-- `authorize` after the call of the webhook. A connection's durations are milliseconds, an answer's nanoseconds.
unfoldable pub authorize : Front → ℕ → Outcome → Front × Result AuthError Auth
unfolding admit_user
authorize f c (authorized user grants expires_in) =
    let (a, admitted) = admit_user f.admission c user in
    if admitted
    then (
      record f {
        admission = a;
        counters = record f.counters { accepted = suc f.counters.accepted % 2 ^ 64 };
      },
      ok (record { user = user; grants = grants; expires_in = expires_in / 1000000 }),
    )
    else (
      record f {
        counters = record f.counters { user_limited = suc f.counters.user_limited % 2 ^ 64 };
      },
      err unauthorized,
    )
authorize f c (refused status fault) = (
  record f {
    counters = record f.counters { refused_count = suc f.counters.refused_count % 2 ^ 64 };
  },
  err unauthorized,
)
authorize f c (Answer.unavailable status fault) = (
  record f {
    counters = record f.counters { unavailable_count = suc f.counters.unavailable_count % 2 ^ 64 };
  },
  err unavailable,
)

-- `Authorize` of a connectAuthorizer: whether its request is still there, and what the webhook gives for it.
unfoldable pub authorize_once : Front → Bool → ℕ → Outcome → Front × Bool × Result AuthError Auth
unfolding authorize
authorize_once f false c outcome = (f, false, err unavailable)
authorize_once f true c outcome = let (f', res) = authorize f c outcome in (f', false, res)

-- What happens at the front door, each under the lock: a request comes, the handler of an upgraded one returns, a
-- drain begins, and waits.
pub data Knock : Type 0 where
  comes : Bytes → Knock
  returns begins waits : Knock

-- A request that is upgraded holds its slot.
abbrev pub holders : ℕ → Entry → ℕ
holders holding forbidden = holding
holders holding too_many = holding
holders holding upgraded = suc holding

-- The front and the number of the handlers that hold a slot; a handler that returns is one of these,
-- and only a drain that has begun waits.
unfoldable pub knock : Front × ℕ → Knock → Front × ℕ
unfolding serve_http release begin_drain wait
knock (f, holding) (comes origin) =
    let (f', entry) = serve_http f origin in (f', holders holding entry)
knock (f, holding) returns = if holding == 0 then (f, holding) else (release f, holding - 1)
knock (f, holding) begins = ((begin_drain f).0, holding)
knock (f, holding) waits = if f.admission.draining then ((wait f).0, holding) else (f, holding)

unfoldable pub knock_all : Front × ℕ → List Knock → Front × ℕ
unfolding knock
knock_all s [] = s
knock_all s (k ∷ ks) = knock_all (knock s k) ks

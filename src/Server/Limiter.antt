-- ===== src/Server/Limiter.antt =====
-- internal/server/ratelimit.go: one connection's limiter. A time is its nanoseconds on the clock, and
-- the counters stay far below 2^63.
use sidecartunnel.Base.{
  ℕ, suc, ◌+◌, Bool, true, false, ◌||◌, List, [], ◌∷◌, Option, none, some, Bytes, leb, ◌==◌,
  if◌then◌else◌, update, bytes_discrete,
}
use sidecartunnel.Server.Rates.{Rate, minute}

pub record Window : Type 0 where
  pub start : ℕ
  pub count : ℕ

pub record Limiter : Type 0 where
  pub windows : Bytes → Option Window
  pub violations : ℕ
  pub since : ℕ

abbrev pub max_violations : ℕ
max_violations = 10

abbrev pub violation_window : ℕ
violation_window = minute

-- `newLimiter`
abbrev pub new_limiter : Limiter
new_limiter = record { windows = λ _. none; violations = 0; since = 0 }

abbrev pub opened : ℕ → Option Window → Window
opened now none = record { start = now; count = 0 }
opened now (some w) = w

-- The window in which the event falls, before it is counted.
unfoldable pub current : ℕ → Rate → Option Window → Window
current now limit found =
    let w = opened now found in
    if leb (w.start + limit.per) now then record { start = now; count = 0 } else w

-- The refusal of an event: the violation is counted.
unfoldable pub refuse : Limiter → ℕ → Limiter
refuse l now =
    let fresh = l.violations == 0 || leb (l.since + violation_window) now in
    record l {
      violations = suc (if fresh then 0 else l.violations);
      since = if fresh then now else l.since;
    }

-- `allow`, with `now` from the clock: whether the event is allowed, and whether the connection has
-- become abusive.
unfoldable pub allow : Limiter → ℕ → Bytes → Rate → Limiter × Bool × Bool
unfolding current refuse
allow l now namespace limit =
    let w = current now limit (l.windows namespace) in
    let counted = record w { count = suc w.count } in
    let l' = record l { windows = update bytes_discrete l.windows namespace (some counted) } in
    let refused = refuse l' now in
    if leb counted.count limit.count
    then (l', true, false)
    else (refused, false, leb max_violations refused.violations)

-- The answers to a run of events on one namespace.
unfoldable pub allow_run : Limiter → Bytes → Rate → List ℕ → Limiter × List (Bool × Bool)
unfolding allow
allow_run l namespace limit [] = (l, [])
allow_run l namespace limit (now ∷ times) =
    let (l', allowed, abusive) = allow l now namespace limit in
    let (l'', answers) = allow_run l' namespace limit times in (l'', (allowed, abusive) ∷ answers)

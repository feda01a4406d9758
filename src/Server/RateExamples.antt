-- ===== src/Server/RateExamples.antt =====
-- internal/server: rates, a limiter and the accounts of two visitors.
use sidecartunnel.Base.{
  ℕ, suc, ◌+◌, ◌-◌, ◌≤◌, ◌<◌, ◌≡◌, refl, ◌≢◌, ◌↔◌, ◌⊎◌, inl, inr, Bool, true, false, List, [], ◌∷◌,
  ◌++◌, Option, none, some, Bytes, codes, length, has, Distinct, All, bytes_discrete, Result, ok,
  err, arith,
}
use Prim.Native.Nat.{min}
use sidecartunnel.Hub.State.{Namespace, namespace}
use sidecartunnel.Hub.System.{new_hub}
use sidecartunnel.Hub.Examples.{small}
use sidecartunnel.Server.Rates.{Rate, second, default_rate, zero_rate, parse_rate, parse_rates}
use sidecartunnel.Server.Limiter.{Limiter, violation_window, new_limiter, current, allow_run}
use sidecartunnel.Server.LimiterLaws.{allowed_count, allow_run-min}
use sidecartunnel.Base.{ℕ_discrete}
use sidecartunnel.Server.Admission.{
  Admission, user_at, track, drain, Move, tracks, untracks, admits, move, move_all,
}
use sidecartunnel.Server.AdmissionLaws.{
  connections_of, IsCounted, AllOrderly, Avoids, move_all-IsCounted, drain-misses_none,
}

-- Rates.

abbrev ten : Rate
ten = record { count = 10; per = second }

ten_parses : parse_rate (codes "10/s") ≡ ok ten
unfolding parse_rate
ten_parses = refl

abbrev built_in_rates : Bytes → Rate
built_in_rates = sidecartunnel.Base.update bytes_discrete (λ _. zero_rate) [] default_rate

built_in_parse : parse_rates [] ≡ ok built_in_rates
unfolding parse_rates
built_in_parse = refl

abbrev built_in_block : Namespace
built_in_block = record { name = []; client_events = false; rate_limit = [] }

resolves : namespace (new_hub small) (codes "x") ≡ some built_in_block
unfolding namespace new_hub bytes_discrete
resolves = refl

opens : current 5 (record { count = 2; per = 10 }) none ≡ record { start = 5; count = 0 }
unfolding current
opens = refl

soon : All (λ t. t < 5 + 10) (6 ∷ 7 ∷ [])
soon = (omega arith, omega arith)

allow_run-min_example :
    allowed_count (allow_run new_limiter [] (record { count = 2; per = 10 }) (5 ∷ 6 ∷ 7 ∷ [])).1
    ≡ min (length {A = ℕ} (5 ∷ 6 ∷ 7 ∷ [])) 2
allow_run-min_example =
    allow_run-min new_limiter [] (record { count = 2; per = 10 }) 5 (6 ∷ 7 ∷ []) opens soon

abbrev warned : Limiter
warned = record { windows = λ _. none; violations = 9; since = 0 }

in_time : All (λ t. t < 0 + violation_window) (6 ∷ [])
in_time = omega arith

-- Admission.

abbrev nobody : Admission
nobody = record { conns = []; users = λ _. 0; draining = false; limit = 1 }

none_yet : IsCounted nobody
unfolding connections_of
none_yet = record { unique = tt; exact = λ user n. refl; below = λ user p n. omega arith }

abbrev visit : List Move
visit = tracks 1 ∷ admits 1 (codes "u") ∷ tracks 2 ∷ admits 2 (codes "u") ∷ untracks 1 ∷ []

visit_orderly : AllOrderly nobody visit
unfolding move user_at
visit_orderly = (
  refl,
  ((refl, λ e. absurd (ground arith)), (refl, ((refl, λ e. absurd (ground arith)), (tt, tt)))),
)

move_all-IsCounted_example : IsCounted (move_all nobody visit)
move_all-IsCounted_example = move_all-IsCounted nobody visit none_yet visit_orderly

abbrev busy : Admission
busy = record nobody { conns = (1, []) ∷ [] }

late_orderly : AllOrderly (drain busy).0 (untracks 1 ∷ [])
late_orderly = (tt, tt)

drain-misses_none_example :
    ((has ℕ_discrete 3 (drain busy).1 ≡ false)
      → All (Avoids 3) (untracks 1 ∷ [])
      → user_at 3 (move_all (drain busy).0 (untracks 1 ∷ [])).conns ≡ none)
    × ((track (move_all (drain busy).0 (untracks 1 ∷ [])) 3).1 ≡ false)
drain-misses_none_example = drain-misses_none busy (untracks 1 ∷ []) 3 late_orderly

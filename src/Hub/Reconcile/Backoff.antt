-- ===== src/Hub/Reconcile/Backoff.antt =====
-- internal/hub/reconcile.go: the delay before a retry.
use sidecartunnel.Base.{ℕ, zero, suc, ◌-◌, ◌*◌, ◌%◌, ◌^◌, ◌≤◌, ◌<◌, ◌≡◌, arith, dec_le}
use Prim.Native.Nat.{min}
use sidecartunnel.Hub.Reconcile.{at_least, backoff_loop, backoff}

pow_pos : (n : ℕ) → 1 ≤ 2 ^ n
pow_pos zero = omega arith
pow_pos (suc n) = omega (arith, pow_pos n)

mul-le : (a b : ℕ) → 1 ≤ b → a ≤ a * b
mul-le zero b h = omega arith
mul-le (suc a) b h = ground (arith, mul-le a b h)

mul-swap : (d p : ℕ) → d * 2 * p ≡ d * (2 * p)
mul-swap zero p = ground arith
mul-swap (suc d) p = ground (arith, mul-swap d p)

loop-min :
    (n d ceiling : ℕ)
    → d ≤ ceiling
    → ceiling < 2 ^ 62
    → backoff_loop n d ceiling ≡ min (d * 2 ^ n) ceiling
unfolding backoff_loop at_least
loop-min zero d ceiling le bound = ground arith
loop-min (suc n) d ceiling le bound =
    let doubled : d * 2 % 2 ^ 64 ≡ d * 2 = ground arith in
    let grows = mul-le (d * 2) (2 ^ n) (pow_pos n) in
    let swap = mul-swap d (2 ^ n) in
    elim (dec_le ceiling (d * 2)) [
      | yes e ↦ rw doubled (ground arith)
      | no e ↦ rw doubled (ground (arith, loop-min n (d * 2) ceiling (omega arith) bound))
    ]

-- With a ceiling below 2^62 nanoseconds that is not under the floor, the delay before retry n is the
-- floor doubled n - 1 times, or the ceiling where that is less.
pub backoff-min :
    (attempt floor ceiling : ℕ)
    → floor ≤ ceiling
    → ceiling < 2 ^ 62
    → backoff attempt floor ceiling ≡ min (floor * 2 ^ (attempt - 1)) ceiling
unfolding backoff
backoff-min attempt floor ceiling le bound = loop-min (attempt - 1) floor ceiling le bound

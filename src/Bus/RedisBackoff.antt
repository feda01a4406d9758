-- ===== src/Bus/RedisBackoff.antt =====
-- internal/bus/redis.go: the delays of a run of failed attempts.
use sidecartunnel.Base.{ℕ, zero, suc, ◌*◌, ◌^◌, ◌≤◌, ◌<◌, ◌≡◌, sym, ap, ◌∙◌, arith}
use Prim.Native.Nat.{min}
use native.Mathlib.Nat.{pow-suc}
use sidecartunnel.Bus.RedisLink.{next_backoff, delay}

next_backoff-min :
    (p floor ceiling : ℕ)
    → 1 ≤ p
    → 1 ≤ ceiling
    → ceiling < 2 ^ 62
    → next_backoff (min p ceiling) floor ceiling ≡ min (p * 2) ceiling
unfolding next_backoff
next_backoff-min p floor ceiling h c bound = ground arith

first_delay :
    (floor ceiling : ℕ)
    → floor ≤ ceiling
    → ceiling < 2 ^ 62
    → next_backoff 0 floor ceiling ≡ min floor ceiling
unfolding next_backoff
first_delay floor ceiling le bound = ground arith

pow_suc : (n : ℕ) → 2 ^ suc n ≡ 2 ^ n * 2
pow_suc n = omega (arith, pow-suc 2 n)

swap : (floor p : ℕ) → floor * (p * 2) ≡ floor * p * 2
swap zero p = ground arith
swap (suc floor) p = ground (arith, swap floor p)

pow-double : (floor n : ℕ) → floor * 2 ^ suc n ≡ floor * 2 ^ n * 2
pow-double floor n = ap (λ t. floor * t) (pow_suc n) ∙ swap floor (2 ^ n)

grown : (floor n : ℕ) → 1 ≤ floor → 1 ≤ floor * 2 ^ n
grown floor zero h = ground arith
grown floor (suc n) h = omega (arith, grown floor n h, pow-double floor n)

-- With a floor of a nanosecond at least, and a ceiling that is not below it and below 2^62 nanoseconds: before
-- attempt n + 1 of a run of failures the bus waits the floor doubled n - 1 times, or the ceiling where that is
-- less.
pub delay-min :
    (n floor ceiling : ℕ)
    → 1 ≤ floor
    → floor ≤ ceiling
    → ceiling < 2 ^ 62
    → delay (suc n) floor ceiling ≡ min (floor * 2 ^ n) ceiling
unfolding delay
delay-min zero floor ceiling pos le bound = first_delay floor ceiling le bound ∙ ground arith
delay-min (suc n) floor ceiling pos le bound =
    ap (λ d. next_backoff d floor ceiling) (delay-min n floor ceiling pos le bound)
    ∙ next_backoff-min (floor * 2 ^ n) floor ceiling (grown floor n pos) (omega arith) bound
    ∙ ap (λ d. min d ceiling) (sym (pow-double floor n))

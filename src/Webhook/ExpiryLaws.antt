-- ===== src/Webhook/ExpiryLaws.antt =====
-- internal/webhook/webhook.go: where clampExpiry keeps its bounds, and where it does not.
use sidecartunnel.Base.{ℕ, ◌-◌, ◌*◌, ◌^◌, ◌≤◌, ◌<◌, ◌≡◌, refl, Bool, true, false, arith}
use sidecartunnel.Webhook.Expiry.{clamp_expiry}

-- For an answer that is not below -9223372036 seconds, the lifetime lies between the bounds, and an
-- answer between them is kept.
pub clamp_expiry-bound :
    (negative : Bool) (seconds min_expiry max_expiry : ℕ)
    → min_expiry ≤ max_expiry
    → max_expiry < 2 ^ 63
    → (negative ≡ true → seconds ≤ 9223372036)
    → (min_expiry ≤ clamp_expiry negative seconds min_expiry max_expiry)
      × (clamp_expiry negative seconds min_expiry max_expiry ≤ max_expiry)
      × (negative ≡ false
          → min_expiry ≤ seconds * 1000000000
          → seconds * 1000000000 ≤ max_expiry
          → clamp_expiry negative seconds min_expiry max_expiry ≡ seconds * 1000000000)
unfolding clamp_expiry
clamp_expiry-bound false seconds lo hi order fits near =
    (ground arith, ground arith, λ e a b. ground arith)
clamp_expiry-bound true seconds lo hi order fits near =
    let le = near refl in (ground arith, ground arith, λ e. absurd (ground arith))

-- An answer from -18446744073 to -9223372037 seconds wraps to a positive duration, and the lifetime is
-- that duration wherever it is above the lower bound: it may exceed the upper bound.
pub clamp_expiry-wraps :
    (seconds min_expiry max_expiry : ℕ)
    → 9223372037 ≤ seconds
    → seconds ≤ 18446744073
    → min_expiry < 2 ^ 64 - seconds * 1000000000
    → clamp_expiry true seconds min_expiry max_expiry ≡ 2 ^ 64 - seconds * 1000000000
unfolding clamp_expiry
clamp_expiry-wraps seconds lo hi low high above = ground arith

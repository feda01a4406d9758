-- ===== src/Webhook/Expiry.antt =====
-- internal/webhook/webhook.go: clampExpiry. Durations are nanoseconds; `expires_in` is a 64-bit integer,
-- its sign and its magnitude.
use sidecartunnel.Base.{
  ℕ, ◌-◌, ◌*◌, ◌/◌, ◌%◌, ◌^◌, Bool, true, false, not, ◌&&◌, ltb, if◌then◌else◌,
}

-- The 64 bits of `time.Duration(seconds) * time.Second`.
unfoldable pub duration_bits : Bool → ℕ → ℕ
duration_bits false seconds = seconds * 1000000000 % 2 ^ 64
duration_bits true seconds = (2 ^ 64 - seconds * 1000000000 % 2 ^ 64) % 2 ^ 64

-- `clampExpiry`; `ltb bits (2 ^ 63)` tells that the duration is not negative.
unfoldable pub clamp_expiry : Bool → ℕ → ℕ → ℕ → ℕ
unfolding duration_bits
clamp_expiry negative seconds min_expiry max_expiry =
    let d = duration_bits negative seconds in
    if not negative && ltb (max_expiry / 1000000000) seconds
    then max_expiry
    else if ltb d (2 ^ 63) && ltb min_expiry d
    then d
    else min_expiry

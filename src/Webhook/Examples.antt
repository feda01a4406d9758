-- ===== src/Webhook/Examples.antt =====
-- internal/webhook: a session cookie beside others, and lifetimes at the bounds.
use sidecartunnel.Base.{
  ℕ, ◌+◌, ◌-◌, ◌*◌, ◌^◌, ◌≤◌, ◌<◌, ◌≡◌, refl, ◌≢◌, true, false, List, [], ◌∷◌, Option, none, some,
  Bytes, codes, ltb, if◌then◌else◌, bytes_discrete, has, arith,
}
use sidecartunnel.Webhook.Expiry.{clamp_expiry}
use sidecartunnel.Webhook.ExpiryLaws.{clamp_expiry-wraps}
use sidecartunnel.Webhook.Cache.{Cache, new_cache, cookie_named, get, put}
use sidecartunnel.Webhook.CacheLaws.{get-put}

abbrev hour : ℕ
hour = 3600000000000

ordered : hour ≤ 6 * hour
ordered = omega arith

in_range : 6 * hour < 2 ^ 63
in_range = omega arith

positive : false ≡ true → 7200 ≤ 9223372036
positive e = omega arith

low : 9223372037 ≤ 9223372037
low = omega arith

high : 9223372037 ≤ 18446744073
high = omega arith

above : hour < 2 ^ 64 - 9223372037 * 1000000000
above = omega arith

clamp_expiry-wraps_example :
    clamp_expiry true 9223372037 hour (6 * hour) ≡ 2 ^ 64 - 9223372037 * 1000000000
clamp_expiry-wraps_example = clamp_expiry-wraps 9223372037 hour (6 * hour) low high above

abbrev cached : Cache ℕ
cached = new_cache 10

named : codes "k" ≢ []
named = ground arith

soon : 5 ≤ 9
soon = omega arith

get-put_example :
    (get (put cached (codes "k") 7 5) (codes "k") 9).1 ≡ (if ltb 9 (5 + 10) then some 7 else none)
    × (codes "k" ≢ codes "j"
        → (get (put cached (codes "k") 7 5) (codes "j") 9).1 ≡ (get cached (codes "j") 9).1)
get-put_example = get-put cached (codes "k") (codes "j") 7 5 9 named soon

abbrev session : Bytes × Bytes
session = (codes "sid", codes "1")

abbrev first_tab : List (Bytes × Bytes)
first_tab = session ∷ (codes "_ga", codes "2") ∷ []

abbrev second_tab : List (Bytes × Bytes)
second_tab = session ∷ []

abbrev parses : Bytes → Option (List (Bytes × Bytes))
parses [] = none
parses (c ∷ []) = some first_tab
parses (c ∷ d ∷ rest) = some second_tab

abbrev unhashed : Bytes → Bytes
unhashed s = s

one : codes "x" ≢ []
one = ground arith

two : codes "xy" ≢ []
two = ground arith

same_session :
    (n : Bytes)
    → has bytes_discrete n (codes "sid" ∷ []) ≡ true
    → cookie_named n first_tab ≡ cookie_named n second_tab
unfolding has cookie_named bytes_discrete
same_session n h = elim (bytes_discrete (codes "sid") n) [
  | yes e ↦ rw (← e) refl
  | no other ↦ absurd (ground arith)
]

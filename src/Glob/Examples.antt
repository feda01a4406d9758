-- ===== src/Glob/Examples.antt =====
-- internal/glob/glob.go: runs of the matcher, and the theorems at concrete grants.
use sidecartunnel.Base.{◌≡◌, refl, ◌↔◌, true, false, [], ◌∷◌, codes, ok, ◌>>=◌}
use mathlib.Core.Bool.{false≢true}
use sidecartunnel.Text.{has_prefix}
use sidecartunnel.Glob.{Pattern, segments, compile, matches, new_set, set_matches}
use sidecartunnel.Glob.Spec.{Covers}
use sidecartunnel.Glob.Correct.{compile-Covers}
use sidecartunnel.Glob.Grants.{AnyCovers, IsReserved, set_matches-Covers}

abbrev org_alerts : Pattern
org_alerts = record {
  kind = segments;
  head = codes "org-";
  tail = codes "s";
  parts = codes "al" ∷ [];
}

compile_segments : compile (codes "org-*al*s") ≡ ok org_alerts
unfolding compile
compile_segments = refl

match_overlap : (compile (codes "a*a") >>= λ p. ok (matches p (codes "a"))) ≡ ok false
unfolding compile matches
match_overlap = refl

match_loose : (compile (codes "user-*") >>= λ p. ok (matches p (codes "user-7-private"))) ≡ ok true
unfolding compile matches
match_loose = refl

compile-Covers_example :
    (matches org_alerts (codes "org-42-alerts") ≡ true)
    ↔ Covers (codes "org-*al*s") (codes "org-42-alerts")
compile-Covers_example =
    compile-Covers (codes "org-*al*s") (codes "org-42-alerts") org_alerts compile_segments

compiled : new_set (codes "org-*al*s" ∷ []) ≡ ok (record { patterns = org_alerts ∷ [] })
unfolding new_set
compiled = refl

set_matches-Covers_example :
    (set_matches (record { patterns = org_alerts ∷ [] }) (codes "org-1-als") ≡ true)
    ↔ AnyCovers (codes "org-*al*s" ∷ []) (codes "org-1-als")
set_matches-Covers_example =
    set_matches-Covers (codes "org-*al*s" ∷ []) (codes "org-1-als")
      (record { patterns = org_alerts ∷ [] }) compiled

plain_room : ¬ IsReserved (codes "room-1")
unfolding has_prefix
plain_room h = false≢true h

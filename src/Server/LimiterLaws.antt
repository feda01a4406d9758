-- ===== src/Server/LimiterLaws.antt =====
-- internal/server/ratelimit.go: how many events a limiter lets through, and when it calls a connection
-- abusive.
use sidecartunnel.Base.{
  ℕ, suc, ◌+◌, ◌-◌, ◌≤◌, ◌<◌, ◌≡◌, sym, ap, subst, ◌∙◌, ◌↔◌, inl, inr, Bool, true, false, ◌||◌,
  some, List, [], ◌∷◌, arith, leb, if◌then◌else◌, Bool-cases, Bytes, length, All,
}
use Prim.Native.Nat.{min}
use sidecartunnel.Server.Rates.{Rate}
use sidecartunnel.Server.Limiter.{
  Window, Limiter, max_violations, violation_window, current, refuse, allow, allow_run,
}

unfoldable pub allowed_count : List (Bool × Bool) → ℕ
allowed_count [] = 0
allowed_count ((allowed, abusive) ∷ answers) =
    let rest = allowed_count answers in if allowed then suc rest else rest

unfoldable pub refused_count : List (Bool × Bool) → ℕ
refused_count [] = 0
refused_count ((allowed, abusive) ∷ answers) =
    let rest = refused_count answers in if allowed then rest else suc rest

unfoldable pub any_abusive : List (Bool × Bool) → Bool
any_abusive [] = false
any_abusive ((allowed, abusive) ∷ answers) = abusive || any_abusive answers

-- The window of a namespace after one event.
windows-allow :
    (l : Limiter) (now : ℕ) (namespace : Bytes) (limit : Rate)
    → (allow l now namespace limit).0.windows namespace
      ≡ some (record (current now limit (l.windows namespace)) {
        count = suc (current now limit (l.windows namespace)).count;
      })
unfolding allow refuse
windows-allow l now namespace limit = ground arith

in_window :
    (l : Limiter) (namespace : Bytes) (limit : Rate) (w : Window) (times : List ℕ)
    → l.windows namespace ≡ some w
    → All (λ t. t < w.start + limit.per) times
    → allowed_count (allow_run l namespace limit times).1
      ≡ min (length times) (limit.count - w.count)
unfolding allow_run allowed_count current allow
in_window l namespace limit w [] e a = ground arith
in_window l namespace limit w (now ∷ times) e a =
    let next : Window = record { start = w.start; count = suc w.count } in
    let l' = (allow l now namespace limit).0 in
    let stays : current now limit (l.windows namespace) ≡ w = ground arith in
    let e' : l'.windows namespace ≡ some next =
      windows-allow l now namespace limit
      ∙ ap (λ (v : Window). some (record v { count = suc v.count })) stays in
    ground (arith, in_window l' namespace limit next times e' a.1)

-- A run of events on one namespace whose first opens a window and whose others fall into it: as many
-- are allowed as the rate says, or all of them where they are fewer.
pub allow_run-min :
    (l : Limiter) (namespace : Bytes) (limit : Rate) (now : ℕ) (times : List ℕ)
    → current now limit (l.windows namespace) ≡ record { start = now; count = 0 }
    → All (λ t. t < now + limit.per) times
    → allowed_count (allow_run l namespace limit (now ∷ times)).1
      ≡ min (length (now ∷ times)) limit.count
unfolding allow_run allowed_count allow
allow_run-min l namespace limit now times e a =
    let next : Window = record { start = now; count = 1 } in
    let l' = (allow l now namespace limit).0 in
    let e' : l'.windows namespace ≡ some next =
      windows-allow l now namespace limit
      ∙ ap (λ (v : Window). some (record v { count = suc v.count })) e in
    ground (arith, in_window l' namespace limit next times e' a)

-- While the violations' window is open, a run of events makes the connection abusive exactly where
-- it refuses at least one event and the violations have come to ten.
pub any_abusive_iff :
    (l : Limiter) (namespace : Bytes) (limit : Rate) (times : List ℕ)
    → 0 < l.violations
    → All (λ t. t < l.since + violation_window) times
    → (any_abusive (allow_run l namespace limit times).1 ≡ true) ↔ (
        (0 < refused_count (allow_run l namespace limit times).1)
        × (max_violations ≤ l.violations + refused_count (allow_run l namespace limit times).1))
unfolding allow_run any_abusive refused_count allow refuse
any_abusive_iff l namespace limit [] some_yet a =
    (λ e. absurd (ground arith), λ (p, q). absurd (ground arith))
any_abusive_iff l namespace limit (now ∷ times) some_yet a =
    let l' = (allow l now namespace limit).0 in
    let w = current now limit (l.windows namespace) in
    elim (Bool-cases (leb (suc w.count) limit.count)) [
      | inl fits ↦
          let v : l'.violations ≡ l.violations = ground arith in
          let s : l'.since ≡ l.since = ground arith in
          let rest =
            any_abusive_iff l' namespace limit times (rw v some_yet)
              (subst (λ x. All (λ t. t < x + violation_window) times) (sym s) a.1) in
          (λ e. ground (arith, rest.0), λ (p, q). ground (arith, rest.1))
      | inr over ↦
          let v : l'.violations ≡ suc l.violations = ground arith in
          let s : l'.since ≡ l.since = ground arith in
          let rest =
            any_abusive_iff l' namespace limit times (omega arith)
              (subst (λ x. All (λ t. t < x + violation_window) times) (sym s) a.1) in
          (λ e. ground (arith, rest.0), λ (p, q). ground (arith, rest.1))
    ]

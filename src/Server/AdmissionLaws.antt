-- ===== src/Server/AdmissionLaws.antt =====
-- internal/server/handler.go and internal/server/server.go: the counts follow the connections, and a drain
-- misses none.
use sidecartunnel.Base.{
  ℕ, suc, ◌+◌, ◌-◌, ◌≤◌, ◌<◌, ◌≡◌, refl, ap, ◌∙◌, ◌≢◌, inl, inr, ite, Bool, true, false, ◌&&◌,
  Option, none, some, List, [], ◌∷◌, arith, ℕ_discrete, ltb, leb, ◌==◌, if◌then◌else◌, if_cases,
  Option-cases, Bytes, All, bytes_discrete, update, has,
}
use sidecartunnel.Text.{same}
use sidecartunnel.Server.Admission.{
  Admission, user_at, without, bind, track, forget, untrack, admit_user, names_of, drain, Move,
  tracks, untracks, admits, move, move_all,
}

-- How many connections a user has.
unfoldable pub connections_of : Bytes → List (ℕ × Bytes) → ℕ
connections_of user [] = 0
connections_of user ((c, v) ∷ conns) =
    ite (bytes_discrete v user) (suc (connections_of user conns)) (connections_of user conns)

-- No connection stands twice.
abbrev IsUnique : List (ℕ × Bytes) → Type 0
IsUnique [] = Unit
IsUnique ((c, user) ∷ conns) = (user_at c conns ≡ none) × IsUnique conns

user_at-without :
    (c d : ℕ) (conns : List (ℕ × Bytes))
    → user_at d (without c conns) ≡ (if c == d then none else user_at d conns)
unfolding user_at without
user_at-without c d [] = ground arith
user_at-without c d ((e, user) ∷ conns) = ground (arith, user_at-without c d conns)

without-IsUnique : (c : ℕ) (conns : List (ℕ × Bytes)) → IsUnique conns → IsUnique (without c conns)
unfolding without
without-IsUnique c [] u = tt
without-IsUnique c ((e, user) ∷ conns) u =
    ground (arith, user_at-without c e conns, without-IsUnique c conns u.1)

abbrev one_where : Option Bytes → Bytes → ℕ
one_where none user = 0
one_where (some v) user = ite (bytes_discrete v user) 1 0

without-absent :
    (c : ℕ) (conns : List (ℕ × Bytes)) → user_at c conns ≡ none → without c conns ≡ conns
unfolding user_at without
without-absent c [] e = refl
without-absent c ((d, user) ∷ conns) e = ground (arith, without-absent c conns)

connections_of-without :
    (user : Bytes) (c : ℕ) (conns : List (ℕ × Bytes))
    → IsUnique conns
    → connections_of user (without c conns) + one_where (user_at c conns) user
      ≡ connections_of user conns
unfolding connections_of user_at without
connections_of-without user c [] u = refl
connections_of-without user c ((d, v) ∷ conns) u =
    ground (arith, connections_of-without user c conns u.1, without-absent c conns)

-- Each user's count is the number of that user's connections, and no count is over the limit.
pub record IsCounted (a : Admission) : Type 0 where
  pub unique : IsUnique a.conns
  pub exact : (user : Bytes) → user ≢ [] → a.users user ≡ connections_of user a.conns
  pub below : (user : Bytes) → 0 < a.limit → user ≢ [] → a.users user ≤ a.limit

-- A handler tracks its connection once, and binds it at most once, to a user that is not empty.
abbrev pub IsOrderly : Admission → Move → Type 0
IsOrderly a (tracks c) = user_at c a.conns ≡ none
IsOrderly a (untracks c) = Unit
IsOrderly a (admits c user) = (user_at c a.conns ≡ some []) × (user ≢ [])

abbrev pub AllOrderly : Admission → List Move → Type 0
AllOrderly a [] = Unit
AllOrderly a (m ∷ ms) = IsOrderly a m × AllOrderly (move a m) ms

track-IsCounted :
    (a : Admission) (c : ℕ) → IsCounted a → user_at c a.conns ≡ none → IsCounted (track a c).0
unfolding track bind connections_of
track-IsCounted a c v e =
    let same_conns = without-absent c a.conns e in
    record {
      unique = rw same_conns (e, v.unique);
      exact = λ user n. rw same_conns (ground (arith, v.exact user n));
      below = v.below;
    }

forget-IsCounted :
    (a : Admission) (c : ℕ) (found : Option Bytes)
    → IsCounted a
    → user_at c a.conns ≡ found
    → IsCounted (forget a c found)
unfolding forget same
forget-IsCounted a c none v e = v
forget-IsCounted a c (some user) v e =
    let left : Admission = record a { conns = without c a.conns } in
    if_cases IsCounted (same user []) left
      (record left { users = update bytes_discrete a.users user (a.users user - 1) })
      (λ nobody. record {
        unique = without-IsUnique c a.conns v.unique;
        exact = λ u n. ground (arith, v.exact u n, connections_of-without u c a.conns v.unique);
        below = v.below;
      })
      (λ somebody. record {
        unique = without-IsUnique c a.conns v.unique;
        exact = λ u n. ground (arith, v.exact u n, connections_of-without u c a.conns v.unique);
        below = λ u p n. ground (arith, v.below u p n);
      })

admit_user-IsCounted :
    (a : Admission) (c : ℕ) (user : Bytes)
    → IsCounted a
    → user_at c a.conns ≡ some []
    → user ≢ []
    → IsCounted (admit_user a c user).0
unfolding admit_user bind connections_of
admit_user-IsCounted a c user v e named =
    if_cases (λ (r : Admission × Bool). IsCounted r.0) (ltb 0 a.limit && leb a.limit (a.users user))
      (a, false)
      (
        record a {
          conns = bind c user a.conns;
          users = update bytes_discrete a.users user (suc (a.users user));
        },
        true,
      )
      (λ full. v)
      (λ room. record {
        unique = (user_at-without c c a.conns ∙ ground arith, without-IsUnique c a.conns v.unique);
        exact = λ u n. ground (arith, v.exact u n, connections_of-without u c a.conns v.unique);
        below = λ u p n. ground (arith, v.below u p n);
      })

-- The moves of orderly handlers keep the accounts: each user's count is the number of that user's live
-- connections, and where there is a limit no user has more.
pub move_all-IsCounted :
    (a : Admission) (ms : List Move) → IsCounted a → AllOrderly a ms → IsCounted (move_all a ms)
unfolding move_all move untrack
move_all-IsCounted a [] v o = v
move_all-IsCounted a (tracks c ∷ ms) v o =
    move_all-IsCounted (track a c).0 ms (track-IsCounted a c v o.0) o.1
move_all-IsCounted a (untracks c ∷ ms) v o =
    move_all-IsCounted (untrack a c) ms (forget-IsCounted a c (user_at c a.conns) v refl) o.1
move_all-IsCounted a (admits c user ∷ ms) v o =
    move_all-IsCounted (admit_user a c user).0 ms (admit_user-IsCounted a c user v o.0.0 o.0.1) o.1

draining-move : (a : Admission) (m : Move) → a.draining ≡ true → (move a m).draining ≡ true
unfolding move track untrack forget admit_user
draining-move a (tracks c) e = e
draining-move a (untracks c) e = elim (Option-cases (user_at c a.conns)) [
  | inl n ↦ ground arith
  | inr (user, s) ↦ ground arith
]
draining-move a (admits c user) e = ground arith

draining-move_all :
    (a : Admission) (ms : List Move) → a.draining ≡ true → (move_all a ms).draining ≡ true
unfolding move_all
draining-move_all a [] e = e
draining-move_all a (m ∷ ms) e = draining-move_all (move a m) ms (draining-move a m e)

-- Moves that do not track the connection.
abbrev pub Avoids : ℕ → Move → Type 0
Avoids c (tracks d) = d ≢ c
Avoids c _ = Unit

user_at-move :
    (a : Admission) (m : Move) (c : ℕ)
    → IsOrderly a m
    → Avoids c m
    → user_at c a.conns ≡ none
    → user_at c (move a m).conns ≡ none
unfolding move track untrack forget admit_user bind user_at
user_at-move a (tracks d) c o other e = ground (arith, user_at-without d c a.conns)
user_at-move a (untracks d) c o other e = elim (Option-cases (user_at d a.conns)) [
  | inl n ↦ ground arith
  | inr (user, s) ↦ ground (arith, user_at-without d c a.conns)
]
user_at-move a (admits d user) c o other e =
    let apart : d ≢ c = λ q. absurd (ground (arith, ap (λ x. user_at x a.conns) q, o.0)) in
    ground (arith, user_at-without d c a.conns)

user_at-move_all :
    (a : Admission) (ms : List Move) (c : ℕ)
    → AllOrderly a ms
    → All (Avoids c) ms
    → user_at c a.conns ≡ none
    → user_at c (move_all a ms).conns ≡ none
unfolding move_all
user_at-move_all a [] c o other e = e
user_at-move_all a (m ∷ ms) c o other e =
    user_at-move_all (move a m) ms c o.1 other.1 (user_at-move a m c o.0 other.0 e)

has-names_of :
    (c : ℕ) (conns : List (ℕ × Bytes))
    → has ℕ_discrete c (names_of conns) ≡ false
    → user_at c conns ≡ none
unfolding has user_at
has-names_of c [] e = refl
has-names_of c ((d, user) ∷ conns) e = ground (arith, has-names_of c conns)

-- Whatever orderly moves follow the critical section of a drain: a connection that is not among those
-- the drain is going to close, and that is not tracked later, is not live; and a connection that is
-- tracked later is told that the replica no longer accepts.
pub drain-misses_none :
    (a : Admission) (ms : List Move) (c : ℕ)
    → AllOrderly (drain a).0 ms
    → ((has ℕ_discrete c (drain a).1 ≡ false)
        → All (Avoids c) ms
        → user_at c (move_all (drain a).0 ms).conns ≡ none)
      × ((track (move_all (drain a).0 ms) c).1 ≡ false)
unfolding drain track
drain-misses_none a ms c o = (
  λ unseen other. user_at-move_all (drain a).0 ms c o other (has-names_of c a.conns unseen),
  ground (arith, draining-move_all (drain a).0 ms refl),
)

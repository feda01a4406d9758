-- ===== src/Hub/Reconcile/Settled.antt =====
-- internal/hub/reconcile.go: no change of the desired set is lost, and an idle bus is up to date.
use sidecartunnel.Base.{
  ℕ, suc, ◌≤◌, ◌≡◌, refl, subst, ◌∙◌, ◌≢◌, inl, inr, true, false, List, arith, Bool-cases, Bytes,
}
use sidecartunnel.Hub.Reconcile.{
  Phase, selecting, swapping, snapshotting, syncing, waiting, stopped, Reconciler, Produces,
  changes, stores, nudges, Turns, wakes, swaps_dirty, swaps_clean, snapshots, syncs, resumes,
  Stumbles, fails, stops_selecting, stops_waiting, Reaches, here, produced, turned, stumbled,
  TurnsTo, done, turn, initial,
}

-- What the bus has, or will have once the Sync that is under way returns.
abbrev IsCurrent : Phase → List Bytes → List Bytes → Type 0
IsCurrent selecting desired bus = bus ≡ desired
IsCurrent swapping desired bus = bus ≡ desired
IsCurrent snapshotting desired bus = Unit
IsCurrent (syncing set) desired bus = set ≡ desired
IsCurrent waiting desired bus = ⊥
IsCurrent stopped desired bus = Unit

abbrev IsTracked : Reconciler → Type 0
IsTracked r =
    (r.unmarked ≡ 0 → r.dirty ≡ false → IsCurrent r.phase r.desired r.bus)
    × (r.phase ≡ selecting → r.unwoken ≡ 0 → r.dirty ≡ true → r.wake ≡ true)

Produces-IsTracked : {r t : Reconciler} → Produces r t → IsTracked r → IsTracked t
Produces-IsTracked (changes r set) v = (λ z d. absurd (ground arith), v.1)
Produces-IsTracked (stores r n e) v = (λ z d. absurd (ground arith), λ p u d. absurd (ground arith))
Produces-IsTracked (nudges r n e) v = (v.0, λ p u d. refl)

at_phase :
    (r : Reconciler) (p : Phase)
    → r.phase ≡ p
    → IsTracked r
    → r.unmarked ≡ 0
    → r.dirty ≡ false
    → IsCurrent p r.desired r.bus
at_phase r p e v z d = subst (λ q. IsCurrent q r.desired r.bus) e (v.0 z d)

Turns-IsTracked : {r t : Reconciler} → Turns r t → IsTracked r → IsTracked t
Turns-IsTracked (wakes r e k) v =
    (λ z d. at_phase r selecting e v z d, λ p u d. absurd (ground arith))
Turns-IsTracked (swaps_dirty r e k) v = (λ z d. tt, λ p u d. absurd (ground arith))
Turns-IsTracked (swaps_clean r e k) v =
    (λ z d. at_phase r swapping e v z d, λ p u d. absurd (ground arith))
Turns-IsTracked (snapshots r e) v = (λ z d. refl, λ p u d. absurd (ground arith))
Turns-IsTracked (syncs r set e) v =
    (λ z d. at_phase r (syncing set) e v z d, λ p u d. absurd (ground arith))
Turns-IsTracked (resumes r e) v =
    (λ z d. absurd (at_phase r waiting e v z d), λ p u d. absurd (ground arith))

Stumbles-IsTracked : {r t : Reconciler} → Stumbles r t → IsTracked r → IsTracked t
Stumbles-IsTracked (fails r set left e) v =
    (λ z d. absurd (ground arith), λ p u d. absurd (ground arith))
Stumbles-IsTracked (stops_selecting r e) v = (λ z d. tt, λ p u d. absurd (ground arith))
Stumbles-IsTracked (stops_waiting r e) v = (λ z d. tt, λ p u d. absurd (ground arith))

Reaches-IsTracked : {r t : Reconciler} → Reaches r t → IsTracked r → IsTracked t
Reaches-IsTracked (here r) v = v
Reaches-IsTracked (produced r x t p q) v = Produces-IsTracked q (Reaches-IsTracked p v)
Reaches-IsTracked (turned r x t p q) v = Turns-IsTracked q (Reaches-IsTracked p v)
Reaches-IsTracked (stumbled r x t p q) v = Stumbles-IsTracked q (Reaches-IsTracked p v)

initial-IsTracked : (set : List Bytes) → IsTracked (initial set)
initial-IsTracked set = (λ z d. absurd (ground arith), λ p u d. absurd (ground arith))

-- Whatever the interleaving of calls, turns and failures: once the goroutine sleeps with no wake token
-- and every call that changed the set has finished its markDirty, the bus is subscribed to exactly
-- the desired set.
pub asleep-Settled :
    (set : List Bytes) (r : Reconciler)
    → Reaches (initial set) r
    → r.phase ≡ selecting
    → r.wake ≡ false
    → r.unmarked ≡ 0
    → r.unwoken ≡ 0
    → r.bus ≡ r.desired
asleep-Settled set r p e k z u =
    let v = Reaches-IsTracked p (initial-IsTracked set) in
    elim (Bool-cases r.dirty) [
      | inl d ↦ absurd (ground (arith, v.1 e u d))
      | inr d ↦ at_phase r selecting e v z d
    ]

-- From the head of the inner loop the bus is made current in at most four turns.
from_swapping :
    (r : Reconciler)
    → IsTracked r
    → r.phase ≡ swapping
    → r.unmarked ≡ 0
    → (n : ℕ) × (t : Reconciler) × TurnsTo n r t
      × (n ≤ 4)
      × (t.phase ≡ selecting)
      × (t.bus ≡ r.desired)
      × (t.desired ≡ r.desired)
from_swapping r v e z = elim (Bool-cases r.dirty) [
  | inr d ↦
      let t : Reconciler = record r { phase = selecting } in
      (
        1,
        t,
        turn 0 r t t (swaps_clean r e d) (done t),
        omega arith,
        refl,
        at_phase r swapping e v z d,
        refl,
      )
  | inl d ↦
      let a : Reconciler = record r { phase = snapshotting; dirty = false } in
      let b : Reconciler = record a { phase = syncing r.desired } in
      let c : Reconciler = record b { phase = swapping; bus = r.desired; attempt = 0 } in
      let t : Reconciler = record c { phase = selecting } in
      (
        4,
        t,
        turn 3 r a t (swaps_dirty r e d) (
            turn 2 a b t (snapshots a refl) (
              turn 1 b c t (syncs b r.desired refl)
                (turn 0 c t t (swaps_clean c refl refl) (done t)))),
        omega arith,
        refl,
        refl,
        refl,
      )
]

-- One turn more in front.
after_turn :
    (r x : Reconciler) (m : ℕ)
    → Turns r x
    → x.desired ≡ r.desired
    → (n : ℕ) × (t : Reconciler) × TurnsTo n x t
      × (n ≤ m)
      × (t.phase ≡ selecting)
      × (t.bus ≡ x.desired)
      × (t.desired ≡ x.desired)
    → (n : ℕ) × (t : Reconciler) × TurnsTo n r t
      × (n ≤ suc m)
      × (t.phase ≡ selecting)
      × (t.bus ≡ r.desired)
      × (t.desired ≡ r.desired)
after_turn r x m step e (n, t, path, le, p, b, d) =
    (suc n, t, turn n r x t step path, omega arith, p, b ∙ e, d ∙ e)

settles_from :
    (r : Reconciler) (p : Phase)
    → r.phase ≡ p
    → IsTracked r
    → p ≢ stopped
    → r.unmarked ≡ 0
    → r.unwoken ≡ 0
    → (n : ℕ) × (t : Reconciler) × TurnsTo n r t
      × (n ≤ 6)
      × (t.phase ≡ selecting)
      × (t.bus ≡ r.desired)
      × (t.desired ≡ r.desired)
settles_from r selecting e v live z u = elim (Bool-cases r.wake) [
  | inl k ↦
      let x : Reconciler = record r { phase = swapping; wake = false } in
      let (n, t, path, le, asleep, current, same_set) =
        after_turn r x 4 (wakes r e k) refl
          (from_swapping x (Turns-IsTracked (wakes r e k) v) refl z) in
      (n, t, path, omega arith, asleep, current, same_set)
  | inr k ↦
      let clean : r.dirty ≡ false = ground (arith, v.1 e u) in
      (0, r, done r, omega arith, e, at_phase r selecting e v z clean, refl)
]
settles_from r swapping e v live z u =
    let (n, t, path, le, asleep, current, same_set) = from_swapping r v e z in
    (n, t, path, omega arith, asleep, current, same_set)
settles_from r snapshotting e v live z u =
    let x : Reconciler = record r { phase = syncing r.desired } in
    let y : Reconciler = record x { phase = swapping; bus = r.desired; attempt = 0 } in
    let vx = Turns-IsTracked (snapshots r e) v in
    let vy = Turns-IsTracked (syncs x r.desired refl) vx in
    after_turn r x 5 (snapshots r e) refl
      (after_turn x y 4 (syncs x r.desired refl) refl (from_swapping y vy refl z))
settles_from r (syncing set) e v live z u =
    let y : Reconciler = record r { phase = swapping; bus = set; attempt = 0 } in
    let (n, t, path, le, asleep, current, same_set) =
      after_turn r y 4 (syncs r set e) refl
        (from_swapping y (Turns-IsTracked (syncs r set e) v) refl z) in
    (n, t, path, omega arith, asleep, current, same_set)
settles_from r waiting e v live z u =
    let y : Reconciler = record r { phase = swapping } in
    let (n, t, path, le, asleep, current, same_set) =
      after_turn r y 4 (resumes r e) refl
        (from_swapping y (Turns-IsTracked (resumes r e) v) refl z) in
    (n, t, path, omega arith, asleep, current, same_set)
settles_from r stopped e v live z u = absurd (live refl)

-- From every state that calls, turns and failures lead to, unless the goroutine has returned, and once
-- the calls have finished their markDirty: six turns at most, with a bus that answers, make the bus
-- exactly the desired set and put the goroutine to sleep. A failed Sync loses no change.
pub reachable-Settles :
    (set : List Bytes) (r : Reconciler)
    → Reaches (initial set) r
    → r.phase ≢ stopped
    → r.unmarked ≡ 0
    → r.unwoken ≡ 0
    → (n : ℕ) × (t : Reconciler) × TurnsTo n r t
      × (n ≤ 6)
      × (t.phase ≡ selecting)
      × (t.bus ≡ r.desired)
      × (t.desired ≡ r.desired)
reachable-Settles set r p live z u =
    settles_from r r.phase refl (Reaches-IsTracked p (initial-IsTracked set)) live z u

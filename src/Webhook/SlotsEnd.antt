-- ===== src/Webhook/SlotsEnd.antt =====
-- internal/webhook/webhook.go, acquire: the calls end, and give back what they hold.
use sidecartunnel.Base.{
  ℕ, zero, suc, ◌*◌, ◌≤◌, ◌<◌, ◌≡◌, refl, ◌∙◌, ◌⊎◌, inl, inr, Bool, false, List, [], ◌∷◌, ◌++◌,
  arith, dec_lt, length, All,
}
use sidecartunnel.Webhook.Slots.{
  Slots, Phase, arrived, full, queued, passing, leaving, running, failed, done, turn, turn_at,
  schedule, arrivals, empty,
}
use sidecartunnel.Webhook.SlotsLaws.{
  slot_of, place_of, rank, total, IsAccounted, turn_at-IsAccounted, schedule-arrivals-IsAccounted,
}

abbrev pub IsOver : Phase → Type 0
IsOver p = (p ≡ failed) ⊎ (p ≡ done)

-- A turn in which no wait expires.
abbrev pub IsPrompt : ℕ × Bool → Type 0
IsPrompt t = t.1 ≡ false

module _ (concurrency queue : ℕ) where
  -- Whether a call's next turn brings it nearer its end: in any case, or it holds no slot, and is over or needs
  -- a free slot.
  phase-moves :
      (p : Phase)
      → ((s : Slots) → rank (turn concurrency queue false s p).1 < rank p)
        ⊎ ((slot_of p ≡ 0)
            × ((rank p ≡ 0)
                ⊎ ((s : Slots)
                    → s.in_flight < concurrency
                    → rank (turn concurrency queue false s p).1 < rank p)))
  unfolding turn
  phase-moves arrived = inl (λ s. ground arith)
  phase-moves full = inl (λ s. ground arith)
  phase-moves queued = inr (refl, inr (λ s h. ground arith))
  phase-moves passing = inl (λ s. omega arith)
  phase-moves leaving = inl (λ s. omega arith)
  phase-moves running = inl (λ s. omega arith)
  phase-moves failed = inr (refl, inl refl)
  phase-moves done = inr (refl, inl refl)

  -- The same of all calls.
  calls-move :
      (ps : List Phase)
      → ((i : ℕ) × ((s : Slots)
            → total rank (turn_at concurrency queue i false s ps).1 < total rank ps))
        ⊎ ((total slot_of ps ≡ 0)
            × ((total rank ps ≡ 0)
                ⊎ ((i : ℕ) × ((s : Slots)
                      → s.in_flight < concurrency
                      → total rank (turn_at concurrency queue i false s ps).1 < total rank ps))))
  unfolding turn_at
  calls-move [] = inr (refl, inl refl)
  calls-move (p ∷ ps) = elim (phase-moves p) [
    | inl m ↦ inl (0, λ s. omega (arith, m s))
    | inr (free, w) ↦ elim (calls-move ps) [
      | inl (i, m) ↦ inl (suc i, λ s. omega (arith, m s))
      | inr (rest, v) ↦ inr (
        omega arith,
        elim w [
          | inr m ↦ inr (0, λ s h. omega (arith, m s h))
          | inl over ↦ elim v [
            | inl all ↦ inl (omega arith)
            | inr (i, m) ↦ inr (suc i, λ s h. omega (arith, m s h))
          ]
        ],
      )
    ]
  ]

  -- Where some call is not over, some turn brings the calls nearer their end.
  progress :
      (s : Slots) (ps : List Phase)
      → 1 ≤ concurrency
      → IsAccounted concurrency queue s ps
      → 0 < total rank ps
      → (i : ℕ) × (total rank (turn_at concurrency queue i false s ps).1 < total rank ps)
  progress s ps some_slot h busy = elim (calls-move ps) [
    | inl (i, m) ↦ (i, m s)
    | inr (free, v) ↦ elim v [
      | inl over ↦ absurd (omega arith)
      | inr (i, m) ↦ (i, m s (omega (arith, h.slots)))
    ]
  ]

  one_turn :
      (i : ℕ) (turns : List (ℕ × Bool)) (s : Slots) (ps : List Phase)
      → schedule concurrency queue ((i, false) ∷ turns) s ps ≡ (
          let (s', ps') = turn_at concurrency queue i false s ps in
          schedule concurrency queue turns s' ps')
  unfolding schedule
  one_turn i turns s ps = refl

  no_turn : (s : Slots) (ps : List Phase) → schedule concurrency queue [] s ps ≡ (s, ps)
  unfolding schedule
  no_turn s ps = refl

  finishes :
      (left : ℕ) (s : Slots) (ps : List Phase)
      → 1 ≤ concurrency
      → IsAccounted concurrency queue s ps
      → total rank ps ≤ left
      → (turns : List (ℕ × Bool)) × (length turns ≤ left)
        × All IsPrompt turns
        × (total rank (schedule concurrency queue turns s ps).1 ≡ 0)
  finishes zero s ps some_slot h bound = ([], omega arith, tt, rw (no_turn s ps) (omega arith))
  finishes (suc left) s ps some_slot h bound = elim (dec_lt 0 (total rank ps)) [
    | no over ↦ ([], omega arith, tt, rw (no_turn s ps) (omega arith))
    | yes busy ↦
        let (i, m) = progress s ps some_slot h busy in
        let (turns, short, prompt, over) =
          finishes left _ _ some_slot (turn_at-IsAccounted concurrency queue i false s ps h)
            (omega arith) in
        ((i, false) ∷ turns, omega arith, (refl, prompt), rw (one_turn i turns s ps) over)
  ]

  -- No turn of a call takes it further from its end.
  turn-rank :
      (expired : Bool) (s : Slots) (p : Phase)
      → rank (turn concurrency queue expired s p).1 ≤ rank p
  unfolding turn
  turn-rank expired s arrived = ground arith
  turn-rank expired s full = ground arith
  turn-rank expired s queued = ground arith
  turn-rank expired s passing = omega arith
  turn-rank expired s leaving = omega arith
  turn-rank expired s running = omega arith
  turn-rank expired s failed = omega arith
  turn-rank expired s done = omega arith

  turn_at-rank :
      (i : ℕ) (expired : Bool) (s : Slots) (ps : List Phase)
      → total rank (turn_at concurrency queue i expired s ps).1 ≤ total rank ps
  unfolding turn_at
  turn_at-rank i expired s [] = omega arith
  turn_at-rank zero expired s (p ∷ ps) = omega (arith, turn-rank expired s p)
  turn_at-rank (suc i) expired s (p ∷ ps) = omega (arith, turn_at-rank i expired s ps)

  schedule-rank :
      (turns : List (ℕ × Bool)) (s : Slots) (ps : List Phase)
      → total rank (schedule concurrency queue turns s ps).1 ≤ total rank ps
  unfolding schedule
  schedule-rank [] s ps = omega arith
  schedule-rank ((i, expired) ∷ turns) s ps = omega (
    arith,
    turn_at-rank i expired s ps,
    schedule-rank turns (turn_at concurrency queue i expired s ps).0
        (turn_at concurrency queue i expired s ps).1,
  )

  schedule-append :
      (turns more : List (ℕ × Bool)) (s : Slots) (ps : List Phase)
      → schedule concurrency queue (turns ++ more) s ps ≡ (
          let (s', ps') = schedule concurrency queue turns s ps in
          schedule concurrency queue more s' ps')
  unfolding schedule
  schedule-append [] more s ps = refl
  schedule-append ((i, expired) ∷ turns) more s ps = schedule-append turns more _ _

  arrivals-rank : (n : ℕ) → total rank (arrivals n) ≡ 5 * n
  arrivals-rank zero = omega arith
  arrivals-rank (suc n) = omega (arith, arrivals-rank n)

  rest-IsOver :
      (ps : List Phase)
      → total rank ps ≡ 0
      → All IsOver ps × (total slot_of ps ≡ 0) × (total place_of ps ≡ 0)
  rest-IsOver [] h = (tt, refl, refl)
  rest-IsOver (arrived ∷ ps) h = absurd (omega arith)
  rest-IsOver (full ∷ ps) h = absurd (omega arith)
  rest-IsOver (queued ∷ ps) h = absurd (omega arith)
  rest-IsOver (passing ∷ ps) h = absurd (omega arith)
  rest-IsOver (leaving ∷ ps) h = absurd (omega arith)
  rest-IsOver (running ∷ ps) h = absurd (omega arith)
  rest-IsOver (failed ∷ ps) h =
      let (o, a, b) = rest-IsOver ps (omega arith) in ((inl refl, o), omega arith, omega arith)
  rest-IsOver (done ∷ ps) h =
      let (o, a, b) = rest-IsOver ps (omega arith) in ((inr refl, o), omega arith, omega arith)

  -- With a slot at least, and wherever an interleaving of n calls stands: at most 5 n more turns, in none of
  -- which a wait expires, end every call, and then no slot is taken and nobody waits.
  pub schedule-ends :
      (n : ℕ) (turns : List (ℕ × Bool))
      → 1 ≤ concurrency
      → (more : List (ℕ × Bool)) × (length more ≤ 5 * n)
        × All IsPrompt more
        × (let (s, ps) = schedule concurrency queue (turns ++ more) empty (arrivals n) in
            All IsOver ps × (s.in_flight ≡ 0) × (s.waiting ≡ 0))
  schedule-ends n turns some_slot =
      let mid = schedule concurrency queue turns empty (arrivals n) in
      let (more, short, prompt, over) =
        finishes (5 * n) mid.0 mid.1 some_slot
          (schedule-arrivals-IsAccounted concurrency queue n turns)
          (omega (arith, schedule-rank turns empty (arrivals n), arrivals-rank n)) in
      let over' : total rank (schedule concurrency queue (turns ++ more) empty (arrivals n)).1 ≡ 0 =
        rw (schedule-append turns more empty (arrivals n)) over in
      let (all, slots, places) = rest-IsOver _ over' in
      let kept = schedule-arrivals-IsAccounted concurrency queue n (turns ++ more) in
      (more, short, prompt, (all, kept.slots ∙ slots, kept.places ∙ places))

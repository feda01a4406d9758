-- ===== src/Webhook/SlotsLaws.antt =====
-- internal/webhook/webhook.go, acquire: the bounds of the slots and of the queue in any interleaving, and that
-- the calls end.
use sidecartunnel.Base.{ℕ, zero, suc, ◌+◌, ◌≤◌, ◌≡◌, refl, Bool, List, [], ◌∷◌, arith}
use sidecartunnel.Webhook.Slots.{
  Slots, Phase, arrived, full, queued, passing, leaving, running, failed, done, turn, turn_at,
  schedule, arrivals, empty,
}

-- The tokens that a call holds.
abbrev pub slot_of : Phase → ℕ
slot_of arrived = 0
slot_of full = 0
slot_of queued = 0
slot_of passing = 1
slot_of leaving = 0
slot_of running = 1
slot_of failed = 0
slot_of done = 0

abbrev pub place_of : Phase → ℕ
place_of arrived = 0
place_of full = 0
place_of queued = 1
place_of passing = 1
place_of leaving = 1
place_of running = 0
place_of failed = 0
place_of done = 0

-- The turns that a call has left at most.
abbrev pub rank : Phase → ℕ
rank arrived = 5
rank full = 4
rank queued = 3
rank passing = 2
rank leaving = 1
rank running = 1
rank failed = 0
rank done = 0

abbrev pub total : (Phase → ℕ) → List Phase → ℕ
total f [] = 0
total f (p ∷ ps) = f p + total f ps

-- The tokens are those that the calls hold, and no more than the channels take.
pub record IsAccounted (concurrency queue : ℕ) (s : Slots) (ps : List Phase) : Type 0 where
  pub slots : s.in_flight ≡ total slot_of ps
  pub places : s.waiting ≡ total place_of ps
  pub within_cap : s.in_flight ≤ concurrency
  pub within_queue : s.waiting ≤ queue

module _ (concurrency queue : ℕ) where
  -- One turn moves exactly the tokens that the call comes to hold or no longer holds.
  turn-tokens :
      (expired : Bool) (s : Slots) (p : Phase)
      → slot_of p ≤ s.in_flight
      → place_of p ≤ s.waiting
      → s.in_flight ≤ concurrency
      → s.waiting ≤ queue
      → let (s', p') = turn concurrency queue expired s p in
        (s'.in_flight + slot_of p ≡ s.in_flight + slot_of p')
        × (s'.waiting + place_of p ≡ s.waiting + place_of p')
        × (s'.in_flight ≤ concurrency)
        × (s'.waiting ≤ queue)
  unfolding turn
  turn-tokens expired s arrived a b c d = ground arith
  turn-tokens expired s full a b c d = ground arith
  turn-tokens expired s queued a b c d = ground arith
  turn-tokens expired s passing a b c d = ground arith
  turn-tokens expired s leaving a b c d = ground arith
  turn-tokens expired s running a b c d = ground arith
  turn-tokens expired s failed a b c d = ground arith
  turn-tokens expired s done a b c d = ground arith

  turn_at-tokens :
      (i : ℕ) (expired : Bool) (s : Slots) (ps : List Phase)
      → total slot_of ps ≤ s.in_flight
      → total place_of ps ≤ s.waiting
      → s.in_flight ≤ concurrency
      → s.waiting ≤ queue
      → let (s', ps') = turn_at concurrency queue i expired s ps in
        (s'.in_flight + total slot_of ps ≡ s.in_flight + total slot_of ps')
        × (s'.waiting + total place_of ps ≡ s.waiting + total place_of ps')
        × (s'.in_flight ≤ concurrency)
        × (s'.waiting ≤ queue)
  unfolding turn_at
  turn_at-tokens i expired s [] a b c d = (refl, refl, c, d)
  turn_at-tokens zero expired s (p ∷ ps) a b c d =
      omega (arith, turn-tokens expired s p (omega arith) (omega arith) c d)
  turn_at-tokens (suc i) expired s (p ∷ ps) a b c d =
      omega (arith, turn_at-tokens i expired s ps (omega arith) (omega arith) c d)

  pub turn_at-IsAccounted :
      (i : ℕ) (expired : Bool) (s : Slots) (ps : List Phase)
      → IsAccounted concurrency queue s ps
      → let (s', ps') = turn_at concurrency queue i expired s ps in
        IsAccounted concurrency queue s' ps'
  turn_at-IsAccounted i expired s ps h =
      omega (
        arith,
        turn_at-tokens i expired s ps (omega arith) (omega arith) h.within_cap h.within_queue,
      )

  schedule-IsAccounted :
      (turns : List (ℕ × Bool)) (s : Slots) (ps : List Phase)
      → IsAccounted concurrency queue s ps
      → let (s', ps') = schedule concurrency queue turns s ps in
        IsAccounted concurrency queue s' ps'
  unfolding schedule
  schedule-IsAccounted [] s ps h = h
  schedule-IsAccounted ((i, expired) ∷ turns) s ps h =
      schedule-IsAccounted turns _ _ (turn_at-IsAccounted i expired s ps h)

  arrivals-total : (n : ℕ) → (total slot_of (arrivals n) ≡ 0) × (total place_of (arrivals n) ≡ 0)
  arrivals-total zero = (refl, refl)
  arrivals-total (suc n) = omega (arith, arrivals-total n)

  -- However the calls interleave, and whichever waits expire: as many slots are taken as calls hold one,
  -- no more than `webhook_concurrency`, and as many calls wait as hold a place, no more than `connect_queue`.
  pub schedule-arrivals-IsAccounted :
      (n : ℕ) (turns : List (ℕ × Bool))
      → let (s, ps) = schedule concurrency queue turns empty (arrivals n) in
        IsAccounted concurrency queue s ps
  schedule-arrivals-IsAccounted n turns =
      schedule-IsAccounted turns _ (arrivals n) (omega (arith, arrivals-total n))

-- ===== src/Webhook/Slots.antt =====
-- internal/webhook/webhook.go, acquire and the return of the slot in call: the in-flight slots and the bounded
-- queue, with every send and receive on the two channels a step of its own. A channel of empty structs is the
-- number of its tokens.
use sidecartunnel.Base.{ℕ, zero, suc, ◌-◌, Bool, List, [], ◌∷◌, ltb, if◌then◌else◌}

-- The tokens in `c.inflight` and `c.waiting`.
pub record Slots : Type 0 where
  pub in_flight : ℕ
  pub waiting : ℕ

-- Where a call stands: before the first select; before the second; in the third, in the queue; with a slot
-- but still in the queue, before the deferred receive; without one, before that receive; with a slot and out
-- of the queue; turned away; returned.
pub data Phase : Type 0 where
  arrived full queued passing leaving running failed done : Phase

-- What `acquire` and `call` of one call do next. `expired` tells that the third select sees its timer or the
-- context, and takes that arm; the send goes ahead where there is room, and else the call waits.
unfoldable pub turn : ℕ → ℕ → Bool → Slots → Phase → Slots × Phase
turn concurrency queue expired s arrived =
    if ltb s.in_flight concurrency
    then (record s { in_flight = suc s.in_flight }, running)
    else (s, full)
turn concurrency queue expired s full =
    if ltb s.waiting queue then (record s { waiting = suc s.waiting }, queued) else (s, failed)
turn concurrency queue expired s queued =
    if expired
    then (s, leaving)
    else if ltb s.in_flight concurrency
    then (record s { in_flight = suc s.in_flight }, passing)
    else (s, queued)
turn concurrency queue expired s passing = (record s { waiting = s.waiting - 1 }, running)
turn concurrency queue expired s leaving = (record s { waiting = s.waiting - 1 }, failed)
turn concurrency queue expired s running = (record s { in_flight = s.in_flight - 1 }, done)
turn concurrency queue expired s failed = (s, failed)
turn concurrency queue expired s done = (s, done)

-- The turn of the call at a place.
unfoldable pub turn_at : ℕ → ℕ → ℕ → Bool → Slots → List Phase → Slots × List Phase
unfolding turn
turn_at concurrency queue i expired s [] = (s, [])
turn_at concurrency queue zero expired s (p ∷ ps) =
    let (s', p') = turn concurrency queue expired s p in (s', p' ∷ ps)
turn_at concurrency queue (suc i) expired s (p ∷ ps) =
    let (s', ps') = turn_at concurrency queue i expired s ps in (s', p ∷ ps')

-- A schedule: whose turn it is, and whether its wait has expired.
unfoldable pub schedule : ℕ → ℕ → List (ℕ × Bool) → Slots → List Phase → Slots × List Phase
unfolding turn_at
schedule concurrency queue [] s ps = (s, ps)
schedule concurrency queue ((i, expired) ∷ turns) s ps =
    let (s', ps') = turn_at concurrency queue i expired s ps in
    schedule concurrency queue turns s' ps'

-- As many calls that have not begun.
abbrev pub arrivals : ℕ → List Phase
arrivals zero = []
arrivals (suc n) = arrived ∷ arrivals n

-- The two channels at first.
abbrev pub empty : Slots
empty = record { in_flight = 0; waiting = 0 }

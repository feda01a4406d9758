-- ===== src/Conn/Ending.antt =====
-- internal/conn/conn.go: everything that was accepted before the writer ended has been written.
use sidecartunnel.Base.{
  ℕ, ◌≡◌, refl, sym, ap, ◌∙◌, ◌≢◌, inl, inr, Bool, true, false, not, ◌&&◌, ◌||◌, Option, none, some,
  List, [], ◌∷◌, ◌++◌, append-nil, append_assoc, arith, ◌==◌, if_cases, Bool-cases, Bytes, codes,
}
use sidecartunnel.Proto.{
  Frame, close_draining, close_handshake_timeout, close_ping_timeout, close_expired,
}
use sidecartunnel.Conn.Writer.{
  Phase, looping, draining, ended, Stage, idle, entered, stored, noticed, over, is_looping,
  is_ended, is_idle, is_over, Writer, enter, advance, check_open, pick, offer_passed, call_close,
  broken, write_frame, pong_due, write_close, finish, drain_turn, Arm, sees_closing, context_done,
  takes_frame, handshake_due, expiry_due, expires, ping_due, pong_timer, take_arm, turn_loop, Event,
  arms, drains, checks, offers, closes, aborts, advances, pong_comes, connect_comes, step, run,
}
use sidecartunnel.Conn.Writing.{accepts, IsOrderly}
use sidecartunnel.Conn.Delivered.{step-IsOrderly}

-- The channel `closing` is closed, and so the flag is set.
abbrev pub IsShut : Writer → Type 0
IsShut w = (is_over w.stage ≡ true) × (w.conn.closed ≡ true)

-- What the arms of the loop leave alone.
pub record Goes (w w' : Writer) : Type 0 where
  pub same_passed : w'.passed ≡ w.passed
  pub stays : IsShut w → IsShut w'
  pub goes_on : is_ended w.phase ≡ false → is_ended w'.phase ≡ false

pub Goes-refl : (w : Writer) → Goes w w
Goes-refl w = record { same_passed = refl; stays = λ h. h; goes_on = λ h. h }

pub call_close-Goes :
    (w : Writer) (code : ℕ) (reason : Bytes) (notify : Bool)
    → Goes w (call_close w code reason notify)
unfolding call_close enter
call_close-Goes w code reason notify = record {
  same_passed = ground arith;
  stays = λ (v, c). elim (Bool-cases (is_idle w.stage)) [
    | inl i ↦ absurd (both w.stage i v)
    | inr i ↦ rw i (v, c)
  ];
  goes_on = λ h. ground (arith, h);
}
  where
    both : (s : Stage) → is_idle s ≡ true → is_over s ≢ true
    both idle p q = absurd (cc)
    both (entered code reason notify) p q = absurd (cc)
    both (stored code reason) p q = absurd (cc)
    both noticed p q = absurd (cc)
    both over p q = absurd (cc)

broken-Goes : (w : Writer) → Goes w (broken w)
unfolding broken
broken-Goes w =
    let g = call_close-Goes (record w { writable = false }) 0 [] false in
    record { same_passed = g.same_passed; stays = g.stays; goes_on = g.goes_on }

write_frame-Goes :
    (succeeds : Bool) (w : Writer) (out : List Frame) → Goes w (write_frame succeeds w out)
unfolding write_frame
write_frame-Goes succeeds w [] = Goes-refl w
write_frame-Goes succeeds w (f ∷ out) =
    let g = broken-Goes (record w { conn = record w.conn { out = out } }) in
    if_cases (λ (v : Writer). Goes w v) succeeds _ _
      (λ _. record { same_passed = refl; stays = λ h. h; goes_on = λ h. h })
      (λ _. record { same_passed = g.same_passed; stays = g.stays; goes_on = g.goes_on })

fired-Goes :
    (w v : Writer) (code : ℕ) (reason : Bytes) → Goes w v → Goes w (call_close v code reason true)
fired-Goes w v code reason a =
    let g = call_close-Goes v code reason true in
    record {
      same_passed = g.same_passed ∙ a.same_passed;
      stays = λ h. g.stays (a.stays h);
      goes_on = λ h. g.goes_on (a.goes_on h);
    }

pong_due-Goes : (w : Writer) (pong : Option ℕ) → Goes w (pong_due w pong)
unfolding pong_due
pong_due-Goes w none = Goes-refl w
pong_due-Goes w (some mark) =
    let late = record w { pong = none } in
    let a : Goes w late = record { same_passed = refl; stays = λ h. h; goes_on = λ h. h } in
    if_cases (λ (v : Writer). Goes w v) (w.pongs == mark) _ _
      (λ _. fired-Goes w late close_ping_timeout (codes "ping timeout") a) (λ _. a)

pub take_arm-Goes : (w : Writer) (a : Arm) → Goes w (take_arm w a)
unfolding take_arm
take_arm-Goes w sees_closing =
    if_cases (λ (v : Writer). Goes w v) (is_over w.stage) _ w
      (λ _. record { same_passed = refl; stays = λ h. h; goes_on = λ h. refl }) (λ _. Goes-refl w)
take_arm-Goes w context_done =
    if_cases (λ (v : Writer). Goes w v) w.context _ w
      (λ _.
        fired-Goes w (record w { context = false }) close_draining (codes "draining")
          (record { same_passed = refl; stays = λ h. h; goes_on = λ h. h }))
      (λ _. Goes-refl w)
take_arm-Goes w (takes_frame succeeds) = write_frame-Goes succeeds w w.conn.out
take_arm-Goes w handshake_due =
    let fired = record w { handshake = false } in
    let a : Goes w fired = record { same_passed = refl; stays = λ h. h; goes_on = λ h. h } in
    if_cases (λ (v : Writer). Goes w v) w.handshake _ w
      (λ _.
        if_cases (λ (v : Writer). Goes w v) w.conn.connect_seen fired _ (λ _. a)
          (λ _. fired-Goes w fired close_handshake_timeout (codes "handshake timeout") a))
      (λ _. Goes-refl w)
take_arm-Goes w expires = record { same_passed = refl; stays = λ h. h; goes_on = λ h. h }
take_arm-Goes w expiry_due =
    if_cases (λ (v : Writer). Goes w v) w.expiry _ w
      (λ _.
        fired-Goes w (record w { expiry = false }) close_expired (codes "grants expired")
          (record { same_passed = refl; stays = λ h. h; goes_on = λ h. h }))
      (λ _. Goes-refl w)
take_arm-Goes w (ping_due succeeds) =
    if_cases (λ (v : Writer). Goes w v) succeeds _ _
      (λ _. record { same_passed = refl; stays = λ h. h; goes_on = λ h. h }) (λ _. broken-Goes w)
take_arm-Goes w pong_timer = pong_due-Goes w w.pong

-- A writer that ends without a failed write has emptied the queue.
turn_loop-ends :
    (w : Writer) (a : Arm)
    → is_ended w.phase ≡ false
    → is_ended (turn_loop w a).phase ≡ true
    → (turn_loop w a).writable ≢ true
unfolding turn_loop
turn_loop-ends w a n =
    if_cases (λ (v : Writer). is_ended v.phase ≡ true → v.writable ≢ true)
      (is_looping w.phase && (not w.calling || is_over w.stage)) _ w
      (λ _.
        if_cases (λ (v : Writer). is_ended v.phase ≡ true → v.writable ≢ true) w.writable
          (take_arm w a) (finish w) (λ _ e. absurd (cc (e, (take_arm-Goes w a).goes_on n)))
          (λ s e t. cc (s, t)))
      (λ _ e. absurd (cc (e, n)))

drain_turn-ends :
    (succeeds : Bool) (w : Writer) (out : List Frame)
    → is_ended w.phase ≡ false
    → w.conn.out ≡ out
    → is_ended (drain_turn succeeds w out).phase ≡ true
    → (drain_turn succeeds w out).writable ≡ true
    → (drain_turn succeeds w out).conn.out ≡ []
unfolding drain_turn write_close
drain_turn-ends succeeds w [] n q e s = ground (arith, q)
drain_turn-ends true w (f ∷ out) n q e s = absurd (cc (n, e))
drain_turn-ends false w (f ∷ out) n q e s = absurd (cc)

advance-ended :
    (w : Writer) (stage : Stage)
    → ((advance w stage).phase ≡ w.phase)
      × ((advance w stage).writable ≡ w.writable)
      × ((advance w stage).written ≡ w.written)
unfolding advance
advance-ended w idle = (refl, refl, refl)
advance-ended w (entered code reason true) = (refl, refl, refl)
advance-ended w (entered code reason false) = (refl, refl, refl)
advance-ended w (stored code reason) = (refl, refl, refl)
advance-ended w noticed = (refl, refl, refl)
advance-ended w over = (refl, refl, refl)

-- What the events of the other goroutines leave alone.
abbrev SameWriter : Writer → Writer → Type 0
SameWriter w w' = (w'.phase ≡ w.phase) × (w'.writable ≡ w.writable) × (w'.written ≡ w.written)

others-SameWriter :
    (w : Writer) (picked : Option (Frame × List Frame)) → SameWriter w (offer_passed w picked)
unfolding offer_passed
others-SameWriter w none = (refl, refl, refl)
others-SameWriter w (some (f, rest)) = (refl, refl, refl)

enter-SameWriter :
    (w : Writer) (code : ℕ) (reason : Bytes) (notify : Bool)
    → SameWriter w (enter w code reason notify)
unfolding enter
enter-SameWriter w code reason notify =
    if_cases (λ (v : Writer). SameWriter w v) (is_idle w.stage) _ w (λ _. (refl, refl, refl))
      (λ _. (refl, refl, refl))

check_open-SameWriter : (w : Writer) (f : Frame) → SameWriter w (check_open w f)
unfolding check_open
check_open-SameWriter w f =
    if_cases (λ (v : Writer). SameWriter w v) w.conn.closed w _ (λ _. (refl, refl, refl))
      (λ _. (refl, refl, refl))

step-ends :
    (w : Writer) (e : Event)
    → is_ended w.phase ≡ false
    → is_ended (step w e).phase ≡ true
    → (step w e).writable ≡ true
    → (step w e).conn.out ≡ []
unfolding step
step-ends w (arms a) n e s = absurd (turn_loop-ends w a n e s)
step-ends w (drains succeeds) n e s =
    if_cases (λ (v : Writer). is_ended v.phase ≡ true → v.writable ≡ true → v.conn.out ≡ [])
      (is_looping w.phase || is_ended w.phase) w _ (λ _ e s. absurd (cc (n, e)))
      (λ _. drain_turn-ends succeeds w w.conn.out n refl) e s
step-ends w (checks f) n e s = absurd (cc (n, e, ap is_ended (check_open-SameWriter w f).0))
step-ends w (offers i) n e s =
    absurd (cc (n, e, ap is_ended (others-SameWriter w (pick i w.passed)).0))
step-ends w (closes code reason) n e s =
    absurd (cc (n, e, ap is_ended (enter-SameWriter w code reason true).0))
step-ends w aborts n e s = absurd (cc (n, e, ap is_ended (enter-SameWriter w 0 [] false).0))
step-ends w advances n e s = absurd (cc (n, e, ap is_ended (advance-ended w w.stage).0))
step-ends w pong_comes n e s = absurd (cc (n, e))
step-ends w connect_comes n e s = absurd (cc (n, e))

not_looping :
    (p : Phase) → is_ended p ≡ true → (is_looping p ≡ false) × ((is_looping p || is_ended p) ≡ true)
not_looping looping h = absurd (cc)
not_looping draining h = absurd (cc)
not_looping ended h = (refl, refl)

-- A writer that has ended writes nothing more.
step-ended : (w : Writer) (e : Event) → is_ended w.phase ≡ true → SameWriter w (step w e)
unfolding step turn_loop
step-ended w (arms a) h = rw (not_looping w.phase h).0 (refl, refl, refl)
step-ended w (drains succeeds) h = rw (not_looping w.phase h).1 (refl, refl, refl)
step-ended w (checks f) h = check_open-SameWriter w f
step-ended w (offers i) h = others-SameWriter w (pick i w.passed)
step-ended w (closes code reason) h = enter-SameWriter w code reason true
step-ended w aborts h = enter-SameWriter w 0 [] false
step-ended w advances h = advance-ended w w.stage
step-ended w pong_comes h = (refl, refl, refl)
step-ended w connect_comes h = (refl, refl, refl)

run-ended :
    (w : Writer) (events : List Event) → is_ended w.phase ≡ true → SameWriter w (run w events)
unfolding run
run-ended w [] h = (refl, refl, refl)
run-ended w (e ∷ events) h =
    let (p, s, l) = step-ended w e h in
    let (p', s', l') = run-ended (step w e) events (ap is_ended p ∙ h) in (p' ∙ p, s' ∙ s, l' ∙ l)

-- The writer, ended or not, has whatever was accepted before.
abbrev pub StartsWith : List Frame → List Frame → Type 0
StartsWith l log = (more : List Frame) × (l ≡ log ++ more)

pub ends-StartsWith :
    (w : Writer) (events : List Event) (log : List Frame)
    → IsOrderly w log
    → is_ended w.phase ≡ false
    → is_ended (run w events).phase ≡ true
    → (run w events).writable ≡ true
    → StartsWith (run w events).written log
unfolding run
ends-StartsWith w [] log o n e s = absurd (cc (n, e))
ends-StartsWith w (x ∷ events) log o n e s =
    let o' = step-IsOrderly w x log o in
    elim (Bool-cases (is_ended (step w x).phase)) [
      | inr go ↦
          let (more, q) = ends-StartsWith (step w x) events (log ++ accepts w x) o' go e s in
          (accepts w x ++ more, q ∙ append_assoc log (accepts w x) more)
      | inl stop ↦
          let (p', s', l') = run-ended (step w x) events stop in
          let writable : (step w x).writable ≡ true = sym s' ∙ s in
          let empty = step-ends w x n stop writable in
          (
            accepts w x,
            l'
                ∙ (sym (append-nil (step w x).written)
                    ∙ (ap (◌++◌ (step w x).written) (
                          sym (
                            ap (λ (l : List Frame). l ++ (step w x).conn.out)
                              (o'.none_lost writable)
                            ∙ empty))
                        ∙ o'.in_order)),
          )
    ]

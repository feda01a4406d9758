-- ===== src/Conn/Delivered.antt =====
-- internal/conn/conn.go: a whole run of the writer, and of the sends and closes beside it.
use sidecartunnel.Base.{
  ◌≡◌, refl, sym, ap, ◌∙◌, true, false, ◌||◌, Option, none, some, List, [], ◌∷◌, ◌++◌, append-nil,
  append_assoc, arith, if_cases,
}
use sidecartunnel.Proto.{Frame}
use sidecartunnel.Conn.{Conn, offer, disconnect_frame}
use sidecartunnel.Conn.Writer.{
  Phase, looping, draining, ended, Stage, idle, entered, stored, noticed, over, is_looping,
  is_ended, is_idle, Writer, start, advance, check_open, pick, offer_passed, Event, arms, drains,
  checks, offers, closes, aborts, advances, pong_comes, connect_comes, step, run,
}
use sidecartunnel.Conn.Writing.{
  admitted, accepts, accepted, advance_accepts, offer_accepts, IsOrderly, Same, offer-out,
  joined-IsOrderly, Same-IsOrderly, enter-IsOrderly,
}
use sidecartunnel.Conn.Turning.{turn_loop-IsOrderly, drain_turn-IsOrderly}

offer_passed-IsOrderly :
    (w : Writer) (picked : Option (Frame × List Frame)) (log : List Frame)
    → IsOrderly w log
    → IsOrderly (offer_passed w picked) (log ++ offer_accepts w picked)
unfolding offer_passed offer_accepts
offer_passed-IsOrderly w none log o = rw (append-nil log) o
offer_passed-IsOrderly w (some (f, rest)) log o =
    let (q, m) = offer-out w.conn f in
    joined-IsOrderly w (record w { conn = (offer w.conn (some f)).0; passed = rest }) log
      (admitted w.conn f) o refl q refl refl refl (λ h. m ∙ o.marked h) (λ h. h)

advance-IsOrderly :
    (w : Writer) (stage : Stage) (log : List Frame)
    → IsOrderly w log
    → w.stage ≡ stage
    → IsOrderly (advance w stage) (log ++ advance_accepts w stage)
unfolding advance advance_accepts
advance-IsOrderly w idle log o e = rw (append-nil log) o
advance-IsOrderly w over log o e = rw (append-nil log) o
advance-IsOrderly w (entered code reason true) log o e =
    joined-IsOrderly w _ log [] o refl (sym (append-nil w.conn.out)) refl refl refl
      (λ _. o.marked (ap is_idle e)) (λ h. absurd (cc))
advance-IsOrderly w (entered code reason false) log o e =
    joined-IsOrderly w (record w { stage = noticed }) log [] o refl (sym (append-nil w.conn.out))
      refl refl refl (λ _. o.marked (ap is_idle e)) (λ h. absurd (cc))
advance-IsOrderly w (stored code reason) log o e =
    let f = disconnect_frame w.conn code reason in
    let (q, m) = offer-out w.conn f in
    joined-IsOrderly w (record w { conn = (offer w.conn (some f)).0; stage = noticed }) log
      (admitted w.conn f) o refl q refl refl refl (λ _. m ∙ o.marked (ap is_idle e))
      (λ h. absurd (cc))
advance-IsOrderly w noticed log o e =
    joined-IsOrderly w (record w { stage = over }) log [] o refl (sym (append-nil w.conn.out)) refl
      refl refl (λ _. o.marked (ap is_idle e)) (λ h. refl)

check_open-Same : (w : Writer) (f : Frame) → Same w (check_open w f)
unfolding check_open
check_open-Same w f =
    if_cases (λ (v : Writer). Same w v) w.conn.closed w _
      (λ _. (refl, refl, refl, refl, refl, refl, refl))
      (λ _. (refl, refl, refl, refl, refl, refl, refl))

in_drain :
    (p : Phase)
    → (is_looping p || is_ended p) ≡ false
    → (is_looping p ≡ false) × (is_ended p ≡ false)
in_drain looping h = absurd (cc)
in_drain draining h = (refl, refl)
in_drain ended h = absurd (cc)

pub step-IsOrderly :
    (w : Writer) (e : Event) (log : List Frame)
    → IsOrderly w log
    → IsOrderly (step w e) (log ++ accepts w e)
unfolding step accepts
step-IsOrderly w (arms a) log o = rw (append-nil log) (turn_loop-IsOrderly w a log o)
step-IsOrderly w (drains succeeds) log o = rw (append-nil log) (
    if_cases (λ (v : Writer). IsOrderly v log) (is_looping w.phase || is_ended w.phase) w _ (λ _. o)
      (λ h.
        let (l, n) = in_drain w.phase h in
        drain_turn-IsOrderly succeeds w w.conn.out log o (o.drains_whole l n) l refl))
step-IsOrderly w (checks f) log o =
    rw (append-nil log) (Same-IsOrderly w (check_open w f) log o (check_open-Same w f))
step-IsOrderly w (offers i) log o = offer_passed-IsOrderly w (pick i w.passed) log o
step-IsOrderly w (closes code reason) log o =
    rw (append-nil log) (enter-IsOrderly w log code reason true o)
step-IsOrderly w aborts log o = rw (append-nil log) (enter-IsOrderly w log 0 [] false o)
step-IsOrderly w advances log o = advance-IsOrderly w w.stage log o refl
step-IsOrderly w pong_comes log o =
    rw (append-nil log) (Same-IsOrderly w _ log o (refl, refl, refl, refl, refl, refl, refl))
step-IsOrderly w connect_comes log o =
    rw (append-nil log) (Same-IsOrderly w _ log o (refl, refl, refl, refl, refl, refl, refl))

pub run-IsOrderly :
    (w : Writer) (events : List Event) (log : List Frame)
    → IsOrderly w log
    → IsOrderly (run w events) (log ++ accepted w events)
unfolding run accepted
run-IsOrderly w [] log o = rw (append-nil log) o
run-IsOrderly w (e ∷ events) log o =
    rw (← append_assoc log (accepts w e) (accepted (step w e) events))
      (run-IsOrderly (step w e) events (log ++ accepts w e) (step-IsOrderly w e log o))

pub start-IsOrderly : (c : Conn) → c.out ≡ [] → IsOrderly (start c) []
unfolding start
start-IsOrderly c e = record {
  lost = [];
  in_order = e;
  none_lost = λ _. refl;
  one_lost = omega arith;
  shut = λ h. absurd (cc);
  marked = λ h. absurd (cc);
  closing_first = λ h l. absurd (cc);
  drains_whole = λ l h. absurd (cc);
}

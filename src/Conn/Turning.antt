-- ===== src/Conn/Turning.antt =====
-- internal/conn/conn.go: every arm of the writer and every turn of its drain writes the queue in order.
use sidecartunnel.Base.{
  ℕ, ◌≤◌, ◌≡◌, refl, sym, ap, ◌∙◌, ◌≢◌, Bool, true, false, not, ◌&&◌, ◌||◌, Option, none, some,
  List, [], ◌∷◌, ◌++◌, append_assoc, arith, ◌==◌, if_cases, Bytes, codes, length,
}
use sidecartunnel.Proto.{
  Frame, close_draining, close_handshake_timeout, close_ping_timeout, close_expired,
}
use sidecartunnel.Conn.Writer.{
  Phase, looping, draining, ended, is_looping, is_ended, is_idle, is_over, Writer, enter,
  call_close, broken, write_frame, pong_due, write_close, finish, drain_turn, Arm, sees_closing,
  context_done, takes_frame, handshake_due, expiry_due, expires, ping_due, pong_timer, take_arm,
  turn_loop,
}
use sidecartunnel.Conn.Writing.{IsOrderly, Same, Same-IsOrderly, enter-IsOrderly}

call_close-IsOrderly :
    (w : Writer) (log : List Frame) (code : ℕ) (reason : Bytes) (notify : Bool)
    → IsOrderly w log
    → IsOrderly (call_close w code reason notify) log
unfolding call_close
call_close-IsOrderly w log code reason notify o =
    Same-IsOrderly (enter w code reason notify)
      (record (enter w code reason notify) { calling = true }) log
      (enter-IsOrderly w log code reason notify o) (refl, refl, refl, refl, refl, refl, refl)

-- A failed write in the loop, of a frame or of a ping.
broken-IsOrderly :
    (w : Writer) (log lost : List Frame)
    → w.written ++ (lost ++ w.conn.out) ≡ log
    → length lost ≤ 1
    → is_looping w.phase ≡ true
    → (is_idle w.stage ≡ false → w.conn.closed ≡ true)
    → IsOrderly (broken w) log
unfolding broken
broken-IsOrderly w log lost e one p m =
    call_close-IsOrderly (record w { writable = false }) log 0 [] false
      (record {
        lost = lost;
        in_order = e;
        none_lost = λ h. absurd (cc);
        one_lost = one;
        shut = λ h. absurd (not_both w.phase p h);
        marked = m;
        closing_first = λ h l. absurd (cc);
        drains_whole = λ l e. absurd (cc);
      })
  where
    not_both : (p : Phase) → is_looping p ≡ true → is_ended p ≢ true
    not_both looping a b = absurd (cc)
    not_both draining a b = absurd (cc)
    not_both ended a b = absurd (cc)

queue_lost_none :
    (w : Writer) (log : List Frame) (o : IsOrderly w log)
    → w.writable ≡ true
    → w.written ++ w.conn.out ≡ log
queue_lost_none w log o s =
    ap (λ (l : List Frame). w.written ++ (l ++ w.conn.out)) (sym (o.none_lost s)) ∙ o.in_order

write_frame-IsOrderly :
    (succeeds : Bool) (w : Writer) (out log : List Frame)
    → IsOrderly w log
    → w.writable ≡ true
    → is_looping w.phase ≡ true
    → w.conn.out ≡ out
    → IsOrderly (write_frame succeeds w out) log
unfolding write_frame
write_frame-IsOrderly succeeds w [] log o s p e = o
write_frame-IsOrderly succeeds w (f ∷ out) log o s p e =
    let all : w.written ++ f ∷ out ≡ log =
      ap (◌++◌ w.written) (sym e) ∙ queue_lost_none w log o s in
    if_cases (λ (v : Writer). IsOrderly v log) succeeds _ _
      (λ h. record {
        lost = [];
        in_order = append_assoc w.written (f ∷ []) out ∙ all;
        none_lost = λ _. refl;
        one_lost = omega arith;
        shut = o.shut;
        marked = o.marked;
        closing_first = o.closing_first;
        drains_whole = o.drains_whole;
      })
      (λ h.
        broken-IsOrderly (record w { conn = record w.conn { out = out } }) log (f ∷ []) all
          (omega arith) p o.marked)

pong_due-IsOrderly :
    (w : Writer) (pong : Option ℕ) (log : List Frame)
    → IsOrderly w log
    → IsOrderly (pong_due w pong) log
unfolding pong_due
pong_due-IsOrderly w none log o = o
pong_due-IsOrderly w (some mark) log o =
    let late = record w { pong = none } in
    let o' = Same-IsOrderly w late log o (refl, refl, refl, refl, refl, refl, refl) in
    if_cases (λ (v : Writer). IsOrderly v log) (w.pongs == mark) _ _
      (λ h. call_close-IsOrderly late log close_ping_timeout (codes "ping timeout") true o')
      (λ h. o')

take_arm-IsOrderly :
    (w : Writer) (a : Arm) (log : List Frame)
    → IsOrderly w log
    → w.writable ≡ true
    → is_looping w.phase ≡ true
    → IsOrderly (take_arm w a) log
unfolding take_arm
take_arm-IsOrderly w sees_closing log o s p =
    if_cases (λ (v : Writer). IsOrderly v log) (is_over w.stage) _ w
      (λ h. record {
        lost = o.lost;
        in_order = o.in_order;
        none_lost = o.none_lost;
        one_lost = o.one_lost;
        shut = λ e. absurd (cc);
        marked = o.marked;
        closing_first = λ _ l. h;
        drains_whole = λ l e. s;
      })
      (λ h. o)
take_arm-IsOrderly w context_done log o s p =
    let seen = record w { context = false } in
    if_cases (λ (v : Writer). IsOrderly v log) w.context _ w
      (λ h.
        call_close-IsOrderly seen log close_draining (codes "draining") true
          (Same-IsOrderly w seen log o (refl, refl, refl, refl, refl, refl, refl)))
      (λ h. o)
take_arm-IsOrderly w (takes_frame succeeds) log o s p =
    write_frame-IsOrderly succeeds w w.conn.out log o s p refl
take_arm-IsOrderly w handshake_due log o s p =
    let fired = record w { handshake = false } in
    let o' = Same-IsOrderly w fired log o (refl, refl, refl, refl, refl, refl, refl) in
    if_cases (λ (v : Writer). IsOrderly v log) w.handshake _ w
      (λ h.
        if_cases (λ (v : Writer). IsOrderly v log) w.conn.connect_seen fired _ (λ _. o')
          (λ _.
            call_close-IsOrderly fired log close_handshake_timeout (codes "handshake timeout") true
              o'))
      (λ h. o)
take_arm-IsOrderly w expires log o s p =
    Same-IsOrderly w (record w { expiry = true }) log o (refl, refl, refl, refl, refl, refl, refl)
take_arm-IsOrderly w expiry_due log o s p =
    let fired = record w { expiry = false } in
    if_cases (λ (v : Writer). IsOrderly v log) w.expiry _ w
      (λ h.
        call_close-IsOrderly fired log close_expired (codes "grants expired") true
          (Same-IsOrderly w fired log o (refl, refl, refl, refl, refl, refl, refl)))
      (λ h. o)
take_arm-IsOrderly w (ping_due succeeds) log o s p =
    if_cases (λ (v : Writer). IsOrderly v log) succeeds _ _
      (λ h.
        Same-IsOrderly w (record w { pong = some w.pongs }) log o
          (refl, refl, refl, refl, refl, refl, refl))
      (λ h. broken-IsOrderly w log o.lost o.in_order o.one_lost p o.marked)
take_arm-IsOrderly w pong_timer log o s p = pong_due-IsOrderly w w.pong log o

-- The writer ends after an abort.
aborted-IsOrderly :
    (w : Writer) (log : List Frame)
    → IsOrderly w log
    → w.writable ≡ false
    → IsOrderly (finish w) log
aborted-IsOrderly w log o s = record {
  lost = o.lost;
  in_order = o.in_order;
  none_lost = λ h. absurd (cc);
  one_lost = o.one_lost;
  shut = λ _. refl;
  marked = o.marked;
  closing_first = λ h l. absurd (cc);
  drains_whole = λ l e. absurd (cc);
}

pub turn_loop-IsOrderly :
    (w : Writer) (a : Arm) (log : List Frame) → IsOrderly w log → IsOrderly (turn_loop w a) log
unfolding turn_loop
turn_loop-IsOrderly w a log o =
    if_cases (λ (v : Writer). IsOrderly v log)
      (is_looping w.phase && (not w.calling || is_over w.stage)) _ w
      (λ h.
        if_cases (λ (v : Writer). IsOrderly v log) w.writable (take_arm w a) (finish w)
          (λ s. take_arm-IsOrderly w a log o s (ground arith)) (λ s. aborted-IsOrderly w log o s))
      (λ h. o)

write_close-Same : (w : Writer) → Same w (write_close w)
unfolding write_close
write_close-Same w =
    if_cases (λ (v : Writer). Same w v) (w.conn.close_code == 0) w _
      (λ _. (refl, refl, refl, refl, refl, refl, refl))
      (λ _. (refl, refl, refl, refl, refl, refl, refl))

ended-IsOrderly :
    (w : Writer) (log : List Frame)
    → IsOrderly w log
    → is_over w.stage ≡ true
    → IsOrderly (finish w) log
ended-IsOrderly w log o v = record {
  lost = o.lost;
  in_order = o.in_order;
  none_lost = o.none_lost;
  one_lost = o.one_lost;
  shut = λ _. refl;
  marked = o.marked;
  closing_first = λ _ l. v;
  drains_whole = λ l e. absurd (cc);
}

pub drain_turn-IsOrderly :
    (succeeds : Bool) (w : Writer) (out log : List Frame)
    → IsOrderly w log
    → w.writable ≡ true
    → is_looping w.phase ≡ false
    → w.conn.out ≡ out
    → IsOrderly (drain_turn succeeds w out) log
unfolding drain_turn
drain_turn-IsOrderly succeeds w [] log o s p e =
    let same = write_close-Same w in
    ended-IsOrderly (write_close w) log (Same-IsOrderly w (write_close w) log o same)
      (ap is_over same.5 ∙ o.closing_first s p)
drain_turn-IsOrderly succeeds w (f ∷ out) log o s p e =
    let all : w.written ++ f ∷ out ≡ log =
      ap (◌++◌ w.written) (sym e) ∙ queue_lost_none w log o s in
    if_cases (λ (v : Writer). IsOrderly v log) succeeds _ _
      (λ h. record {
        lost = [];
        in_order = append_assoc w.written (f ∷ []) out ∙ all;
        none_lost = λ _. refl;
        one_lost = omega arith;
        shut = o.shut;
        marked = o.marked;
        closing_first = o.closing_first;
        drains_whole = o.drains_whole;
      })
      (λ h. record {
        lost = f ∷ [];
        in_order = all;
        none_lost = λ h. absurd (cc);
        one_lost = omega arith;
        shut = λ _. refl;
        marked = o.marked;
        closing_first = λ h l. absurd (cc);
        drains_whole = λ l e. absurd (cc);
      })

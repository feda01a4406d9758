-- ===== src/Conn/Writing.antt =====
-- internal/conn/conn.go: what each step puts into the queue, and that what the writer writes is that, in order.
use sidecartunnel.Base.{
  ℕ, ◌≤◌, ◌≡◌, refl, sym, ap, subst, ◌∙◌, ◌≢◌, Bool, true, false, Option, none, some, List, [], ◌∷◌,
  ◌++◌, append-nil, append_assoc, arith, ltb, if◌then◌else◌, if_cases, Bytes, length,
}
use sidecartunnel.Proto.{Frame}
use sidecartunnel.Conn.{Conn, offer, disconnect_frame}
use sidecartunnel.Conn.Writer.{
  Stage, idle, entered, stored, noticed, over, is_looping, is_ended, is_idle, is_over, Writer,
  enter, pick, Event, arms, drains, checks, offers, closes, aborts, advances, pong_comes,
  connect_comes, step,
}

-- What an offer puts into the queue.
abbrev pub admitted : Conn → Frame → List Frame
admitted c f = if ltb (length c.out) c.outbound_queue then f ∷ [] else []

unfoldable pub advance_accepts : Writer → Stage → List Frame
advance_accepts w (stored code reason) = admitted w.conn (disconnect_frame w.conn code reason)
advance_accepts w idle = []
advance_accepts w (entered code reason notify) = []
advance_accepts w noticed = []
advance_accepts w over = []

unfoldable pub offer_accepts : Writer → Option (Frame × List Frame) → List Frame
offer_accepts w none = []
offer_accepts w (some (f, rest)) = admitted w.conn f

-- What an event puts into the queue.
unfoldable pub accepts : Writer → Event → List Frame
unfolding advance_accepts offer_accepts
accepts w (arms a) = []
accepts w (drains succeeds) = []
accepts w (checks f) = []
accepts w (offers i) = offer_accepts w (pick i w.passed)
accepts w (closes code reason) = []
accepts w aborts = []
accepts w advances = advance_accepts w w.stage
accepts w pong_comes = []
accepts w connect_comes = []

-- All that a run puts into the queue.
unfoldable pub accepted : Writer → List Event → List Frame
unfolding accepts
accepted w [] = []
accepted w (e ∷ events) = accepts w e ++ accepted (step w e) events

-- What holds of a writer and of all that was accepted: what was written, then what a failed write lost, one frame at
-- most, then the queue.
pub record IsOrderly (w : Writer) (log : List Frame) : Type 0 where
  pub lost : List Frame
  pub in_order : w.written ++ (lost ++ w.conn.out) ≡ log
  pub none_lost : w.writable ≡ true → lost ≡ []
  pub one_lost : length lost ≤ 1
  pub shut : is_ended w.phase ≡ true → w.socket_closed ≡ true
  pub marked : is_idle w.stage ≡ false → w.conn.closed ≡ true
  pub closing_first : w.writable ≡ true → is_looping w.phase ≡ false → is_over w.stage ≡ true
  pub drains_whole : is_looping w.phase ≡ false → is_ended w.phase ≡ false → w.writable ≡ true

-- A step that writes nothing and puts nothing into the queue.
abbrev pub SameQueue : Writer → Writer → Type 0
SameQueue w w' = (w'.written ≡ w.written) × (w'.conn.out ≡ w.conn.out)

pub offer-out :
    (c : Conn) (f : Frame)
    → ((offer c (some f)).0.out ≡ c.out ++ admitted c f) × ((offer c (some f)).0.closed ≡ c.closed)
unfolding offer
offer-out c f = (ground (arith, append-nil c.out), ground arith)

-- Some frames have joined the queue.
pub joined-IsOrderly :
    (w w' : Writer) (log a : List Frame)
    → IsOrderly w log
    → w'.written ≡ w.written
    → w'.conn.out ≡ w.conn.out ++ a
    → w'.writable ≡ w.writable
    → w'.phase ≡ w.phase
    → w'.socket_closed ≡ w.socket_closed
    → (is_idle w'.stage ≡ false → w'.conn.closed ≡ true)
    → (is_over w.stage ≡ true → is_over w'.stage ≡ true)
    → IsOrderly w' (log ++ a)
joined-IsOrderly w w' log a o e q s p c m v = record {
  lost = o.lost;
  in_order =
      ap (λ (l : List Frame). l ++ (o.lost ++ w'.conn.out)) e
      ∙ (ap (λ (l : List Frame). w.written ++ (o.lost ++ l)) q
          ∙ (ap (◌++◌ w.written) (sym (append_assoc o.lost w.conn.out a))
              ∙ (sym (append_assoc w.written (o.lost ++ w.conn.out) a)
                  ∙ ap (λ (l : List Frame). l ++ a) o.in_order)));
  none_lost = λ h. o.none_lost (sym s ∙ h);
  one_lost = o.one_lost;
  shut = λ h. c ∙ o.shut (sym (ap is_ended p) ∙ h);
  marked = m;
  closing_first = λ h l. v (o.closing_first (sym s ∙ h) (sym (ap is_looping p) ∙ l));
  drains_whole = λ l h. s ∙ o.drains_whole (sym (ap is_looping p) ∙ l) (sym (ap is_ended p) ∙ h);
}

pub enter-IsOrderly :
    (w : Writer) (log : List Frame) (code : ℕ) (reason : Bytes) (notify : Bool)
    → IsOrderly w log
    → IsOrderly (enter w code reason notify) log
unfolding enter
enter-IsOrderly w log code reason notify o =
    if_cases (λ (v : Writer). IsOrderly v log) (is_idle w.stage) _ w
      (λ h. record {
        lost = o.lost;
        in_order = o.in_order;
        none_lost = o.none_lost;
        one_lost = o.one_lost;
        shut = o.shut;
        marked = λ _. refl;
        closing_first = λ s l. absurd (both w.stage h (o.closing_first s l));
        drains_whole = o.drains_whole;
      })
      (λ h. o)
  where
    both : (s : Stage) → is_idle s ≡ true → is_over s ≢ true
    both idle p q = absurd (cc)
    both (entered code reason notify) p q = absurd (cc)
    both (stored code reason) p q = absurd (cc)
    both noticed p q = absurd (cc)
    both over p q = absurd (cc)

-- What the invariant reads.
abbrev pub Same : Writer → Writer → Type 0
Same w w' =
    (w'.written ≡ w.written)
    × (w'.conn.out ≡ w.conn.out)
    × (w'.writable ≡ w.writable)
    × (w'.phase ≡ w.phase)
    × (w'.socket_closed ≡ w.socket_closed)
    × (w'.stage ≡ w.stage)
    × (w'.conn.closed ≡ w.conn.closed)

pub Same-IsOrderly :
    (w w' : Writer) (log : List Frame) → IsOrderly w log → Same w w' → IsOrderly w' log
Same-IsOrderly w w' log o (e, q, s, p, c, t, m) = subst (IsOrderly w') (append-nil log) (
    joined-IsOrderly w w' log [] o e (q ∙ sym (append-nil w.conn.out)) s p c
      (λ h. m ∙ o.marked (sym (ap is_idle t) ∙ h)) (λ h. ap is_over t ∙ h))

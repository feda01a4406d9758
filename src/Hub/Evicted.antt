-- ===== src/Hub/Evicted.antt =====
-- internal/hub/hub.go: what follows the critical section of a subscription call. A connection that refuses its reply is
-- queued to be closed, or, once Close has stopped waiting, is closed at once.
use sidecartunnel.Base.{
  ℕ, ◌≡◌, refl, subst, ◌≢◌, ◌⊎◌, inl, inr, Bool, true, false, Option, none, some, ltb, if_cases,
  Bytes, codes, length,
}
use sidecartunnel.Proto.{Frame, close_slow_consumer}
use sidecartunnel.Conn.{do_close}
use sidecartunnel.Hub.State.{Sink, Hub}
use sidecartunnel.Hub.World.{
  World, put_conn, mark_if, remove, close_conn, close_slow, enqueue_close, queue_ack, finish,
}
use sidecartunnel.Hub.Kept.{with_marks}
use sidecartunnel.Hub.Gone.{remove_self}
use sidecartunnel.Hub.Bystanders.{
  SameEntry, SameEntry-trans, remove-SameEntry, close_conn-SameEntry,
}

-- Only marks and queues of connections to close differ.
abbrev pub OnlyMarks : Hub → Hub → Type 0
OnlyMarks h h' = h' ≡ with_marks h h'.dirty h'.wake h'.closeq h'.closers h.close_done

-- The connection has been deregistered, which happens only to one that refuses its reply once the hub is closed; the
-- others have their entries.
pub record IsDropped (h h' : Hub) (s : Sink) (refused : Bool) : Type 0 where
  pub refusal : refused ≡ true
  pub late : h.close_done ≡ true
  pub gone : h'.subs s ≡ none
  pub others : (t : Sink) → s ≢ t → SameEntry h h' t

abbrev pub After : Hub → Hub → Sink → Bool → Type 0
After h h' s refused = OnlyMarks h h' ⊎ IsDropped h h' s refused

close_conn_gone :
    (w : World) (s : Sink) (code : ℕ) (reason : Bytes)
    → w.hub.subs s ≡ none
    → (close_conn w s code reason).hub.subs s ≡ none
unfolding close_conn
close_conn_gone w s code reason e =
    if_cases (λ (y : World). y.hub.subs s ≡ none) (w.conns s).closed w _ (λ _. e)
      (λ _. remove_self (put_conn w s (do_close (w.conns s) code reason true)) s)

close_slow-IsDropped :
    (w : World) (s : Sink) → w.hub.close_done ≡ true → IsDropped w.hub (close_slow w s).hub s true
unfolding close_slow
close_slow-IsDropped w s late = record {
  refusal = refl;
  late = late;
  gone =
      close_conn_gone (remove w s) s close_slow_consumer (codes "outbound queue full")
        (remove_self w s);
  others = λ t n.
      SameEntry-trans w.hub (remove w s).hub (close_slow w s).hub t (remove-SameEntry w s t n)
        (close_conn-SameEntry (remove w s) s t close_slow_consumer (codes "outbound queue full") n);
}

enqueue_close-After : (w : World) (s : Sink) → After w.hub (enqueue_close w s).hub s true
unfolding enqueue_close
enqueue_close-After w s =
    if_cases (λ (y : World). After w.hub y.hub s true) w.hub.close_done (close_slow w s) _
      (λ e. inr (close_slow-IsDropped w s e))
      (λ e.
        if_cases (λ (y : World). After w.hub y.hub s true)
          (ltb (length w.hub.closeq) w.hub.closer_queue) _ _ (λ _. inl refl) (λ _. inl refl))

finish-After :
    (w : World) (s : Sink) (changed refused : Bool)
    → After w.hub (finish w s changed refused).hub s refused
unfolding finish mark_if
finish-After w s false false = inl refl
finish-After w s true false = inl refl
finish-After w s false true = enqueue_close-After w s
finish-After w s true true = elim (enqueue_close-After (record w { hub = mark_if true w.hub }) s) [
  | inl m ↦ inl m
  | inr d ↦ inr (record { refusal = refl; late = d.late; gone = d.gone; others = d.others })
]

queue_ack-hub :
    (w : World) (h : Hub) (s : Sink) (ack : Option Frame)
    → ((queue_ack (record w { hub = h }) s ack).0.hub ≡ h)
      × ((queue_ack (record w { hub = h }) s ack).1 ≡ (queue_ack w s ack).1)
unfolding queue_ack
queue_ack-hub w h s none = (refl, refl)
queue_ack-hub w h s (some f) = (refl, refl)

-- The end of Subscribe and of Unsubscribe, after the critical section has made `h` of the registry.
pub acknowledged-After :
    (w : World) (h : Hub) (s : Sink) (ack : Option Frame) (changed : Bool)
    → let q = queue_ack (record w { hub = h }) s ack in
      After h (finish q.0 s changed q.1).hub s (queue_ack w s ack).1
acknowledged-After w h s ack changed =
    let q = queue_ack (record w { hub = h }) s ack in
    let (a, b) = queue_ack-hub w h s ack in
    subst (λ g. After g (finish q.0 s changed q.1).hub s (queue_ack w s ack).1) a
      (subst (λ r. After q.0.hub (finish q.0 s changed q.1).hub s r) b
        (finish-After q.0 s changed q.1))

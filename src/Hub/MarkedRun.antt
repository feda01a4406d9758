-- ===== src/Hub/MarkedRun.antt =====
-- internal/hub: the control messages, the goroutines and every call leave the reconciler marked where they have
-- changed the desired set.
use sidecartunnel.Base.{
  ℕ, ◌≡◌, refl, subst, ◌≢◌, inl, inr, true, some, List, [], ◌∷◌, ◌++◌, arith, if_cases, Bytes,
  codes, exclude, Result, ok, err, >>=-eq-ok,
}
use sidecartunnel.Text.{same}
use sidecartunnel.Glob.{Pattern}
use sidecartunnel.Proto.{close_revoked, close_expired}
use sidecartunnel.Hub.State.{Sink, members}
use sidecartunnel.Hub.Registry.{detach}
use sidecartunnel.Hub.World.{
  World, send_to, mark_if, remove, close_conn, close_slow, enqueue_all, add, subscribe, unsubscribe,
}
use sidecartunnel.Hub.Control.{
  Control, action_disconnect, action_refresh, validate, targets, close_all, matched_keys,
  revoke_keys, revoke_all, control_unsubscribe, apply_control, control, unsubscribed_frame,
  or_default,
}
use sidecartunnel.Hub.System.{
  closer_turn, overflow_turn, close_each, close_hub, Call, adds, attaches, subscribes, unsubscribes,
  removes, delivers, controls, closes, names_user, writes_frame, closer_turns, overflow_turns,
  hub_closes, kept, step, run,
}
use sidecartunnel.Hub.Told.{IsTold, same-IsTold, then-IsTold, detach-IsTold}
use sidecartunnel.Hub.Marked.{
  IsMarked, Follows, Follows-refl, Follows-trans, told-Follows, remove-Follows, close_conn-Follows,
  close_slow-Follows, enqueue_all-Follows, add-Follows, attach-Follows, subscribe-Follows,
  unsubscribe-Follows, deliver-Follows,
}

close_all-Follows :
    (w : World) (ss : List Sink) (code : ℕ) (reason : Bytes)
    → Follows w.hub (close_all w ss code reason).hub
unfolding close_all
close_all-Follows w [] code reason = Follows-refl w.hub
close_all-Follows w (s ∷ ss) code reason =
    let gone = remove w s in
    let closed = close_conn gone s code reason in
    Follows-trans w.hub gone.hub (close_all closed ss code reason).hub (remove-Follows w s) (
      Follows-trans gone.hub closed.hub (close_all closed ss code reason).hub
        (close_conn-Follows gone s code reason) (close_all-Follows closed ss code reason))

revoke_keys-IsTold :
    (w : World) (s : Sink) (reason : Bytes) (ks : List Bytes)
    → let r = revoke_keys w s reason ks in IsTold w.hub (r.0).hub r.1
unfolding revoke_keys send_to
revoke_keys-IsTold w s reason [] = same-IsTold w.hub
revoke_keys-IsTold w s reason (k ∷ ks) =
    let h = (detach w.hub s k).0 in
    let w1 = (send_to (record w { hub = h }) s (some (unsubscribed_frame w.hub k reason))).0 in
    then-IsTold w.hub h _ _ _ (detach-IsTold w.hub s k) (revoke_keys-IsTold w1 s reason ks)

revoke_all-IsTold :
    (w : World) (ss : List Sink) (reason : Bytes) (p : Pattern)
    → let r = revoke_all w ss reason p in IsTold w.hub (r.0).hub r.1
unfolding revoke_all
revoke_all-IsTold w [] reason p = same-IsTold w.hub
revoke_all-IsTold w (s ∷ ss) reason p =
    let ks = matched_keys w.hub p (members (w.hub.subs s)) in
    let r = revoke_keys w s reason ks in
    then-IsTold w.hub (r.0).hub _ _ _ (revoke_keys-IsTold w s reason ks)
      (revoke_all-IsTold r.0 ss reason p)

control_unsubscribe-Follows :
    (w : World) (ss : List Sink) (reason : Bytes) (p : Pattern)
    → Follows w.hub (control_unsubscribe w ss reason p).hub
unfolding control_unsubscribe
control_unsubscribe-Follows w ss reason p =
    let r = revoke_all w ss reason p in
    let marked : World = record (r.0) { hub = mark_if r.1 (r.0).hub } in
    Follows-trans w.hub marked.hub (enqueue_all marked r.2).hub
      (told-Follows w.hub (r.0).hub r.1 (revoke_all-IsTold w ss reason p))
      (enqueue_all-Follows marked r.2)

apply_control-Follows :
    (w : World) (c : Control) (p : Pattern) → Follows w.hub (apply_control w c p).hub
unfolding apply_control
apply_control-Follows w c p =
    let found = targets w.hub c in
    let P = λ (x : World). Follows w.hub x.hub in
    if_cases P (same c.action action_disconnect) _ _
      (λ _. close_all-Follows w found close_revoked (or_default c.reason (codes "revoked")))
      (λ _.
        if_cases P (same c.action action_refresh) _ _
          (λ _.
            close_all-Follows w found close_expired
              (or_default c.reason (codes "re-authorization required")))
          (λ _. control_unsubscribe-Follows w found c.reason p))

control-Follows : (w w' : World) (c : Control) → control w c ≡ ok w' → Follows w.hub w'.hub
unfolding control
control-Follows w w' c r =
    let (p, _, e) = >>=-eq-ok (validate c) _ r in
    let q : apply_control w c p ≡ w' = ground arith in
    subst (λ (x : World). Follows w.hub x.hub) q (apply_control-Follows w c p)

close_each-Follows : (w : World) (ss : List Sink) → Follows w.hub (close_each w ss).hub
unfolding close_each
close_each-Follows w [] = Follows-refl w.hub
close_each-Follows w (s ∷ ss) =
    let closed = close_slow w s in
    Follows-trans w.hub closed.hub (close_each closed ss).hub (close_slow-Follows w s)
      (close_each-Follows closed ss)

-- A queue that changes leaves the set and the marks alone.
closer_turn-Follows :
    (w : World) (q : List Sink) → w.hub.closeq ≡ q → Follows w.hub (closer_turn w).hub
unfolding closer_turn
closer_turn-Follows w [] e = rw (e, closer_turn) (Follows-refl w.hub)
closer_turn-Follows w (s ∷ rest) e =
    let taken : World = record w { hub = record (w.hub) { closeq = rest } } in
    rw (e, closer_turn)
      (Follows-trans w.hub taken.hub (close_slow taken s).hub (inr (refl, refl, refl))
        (close_slow-Follows taken s))

overflow_turn-Follows :
    (w : World) (q : List Sink) → w.hub.closers ≡ q → Follows w.hub (overflow_turn w).hub
unfolding overflow_turn
overflow_turn-Follows w [] e = rw (e, overflow_turn) (Follows-refl w.hub)
overflow_turn-Follows w (s ∷ rest) e =
    let taken : World = record w { hub = record (w.hub) { closers = rest } } in
    rw (e, overflow_turn)
      (Follows-trans w.hub taken.hub (close_slow taken s).hub (inr (refl, refl, refl))
        (close_slow-Follows taken s))

close_hub-Follows : (w : World) → Follows w.hub (close_hub w).hub
unfolding close_hub
close_hub-Follows w =
    let h = w.hub in
    let shut : World = record w {
      hub = record h { close_done = true; closers = []; closeq = [] };
    } in
    let waiting = h.closers ++ h.closeq in
    Follows-trans h shut.hub (close_each shut waiting).hub (inr (refl, refl, refl))
      (close_each-Follows shut waiting)

after-Follows {ℓ} :
    {E : Type ℓ} (w : World) (r : Result E World)
    → ((w' : World) → r ≡ ok w' → Follows w.hub w'.hub)
    → Follows w.hub (kept w r).hub
after-Follows w (ok w') h = h w' refl
after-Follows w (err e) h = Follows-refl w.hub

step-Follows : (w : World) (c : Call) → Follows w.hub (step w c).hub
unfolding step
step-Follows w (adds s) = after-Follows w (add w s) (λ w' r. add-Follows w w' s r)
step-Follows w (attaches s channels ack) = attach-Follows w s channels ack
step-Follows w (subscribes s channel ack) =
    after-Follows w (subscribe w s channel ack) (λ w' r. subscribe-Follows w w' s channel ack r)
step-Follows w (unsubscribes s channel ack) =
    after-Follows w (unsubscribe w s channel ack) (λ w' r. unsubscribe-Follows w w' s channel ack r)
step-Follows w (removes s) = remove-Follows w s
step-Follows w (delivers k frame exclude) = deliver-Follows w k frame exclude
step-Follows w (controls c) = after-Follows w (control w c) (λ w' r. control-Follows w w' c r)
step-Follows w (closes s code reason) = close_conn-Follows w s code reason
step-Follows w (names_user s user) = Follows-refl w.hub
step-Follows w (writes_frame s out) = Follows-refl w.hub
step-Follows w closer_turns = closer_turn-Follows w w.hub.closeq refl
step-Follows w overflow_turns = overflow_turn-Follows w w.hub.closers refl
step-Follows w hub_closes = close_hub-Follows w

run-Follows : (w : World) (cs : List Call) → Follows w.hub (run w cs).hub
unfolding run
run-Follows w [] = Follows-refl w.hub
run-Follows w (c ∷ cs) =
    Follows-trans w.hub (step w c).hub (run (step w c) cs).hub (step-Follows w c)
      (run-Follows (step w c) cs)

-- No change of the desired set is lost on the reconciler: whatever calls run, the goroutines' turns among them, if
-- the set afterwards is another than before, the dirty flag is set and a wake-up waits.
pub run-IsMarked :
    (w : World) (cs : List Call) → (run w cs).hub.desired ≢ w.hub.desired → IsMarked (run w cs).hub
run-IsMarked w cs changed = elim (run-Follows w cs) [
  | inl m ↦ m
  | inr (d, e, f) ↦ absurd (changed d)
]

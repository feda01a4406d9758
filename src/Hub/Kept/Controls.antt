-- ===== src/Hub/Kept/Controls.antt =====
-- internal/hub: the control actions, the goroutines, and every call.
use sidecartunnel.Base.{
  ℕ, ◌≡◌, refl, Bool, false, ap, ◌≢◌, true, some, List, [], ◌∷◌, ◌++◌, arith, if◌then◌else◌,
  if_cases, Bytes, codes, All, exclude, Result, ok, err, >>=-eq-ok,
}
use sidecartunnel.Glob.{Pattern, matches}
use sidecartunnel.Text.{same}
use sidecartunnel.Hub.State.{Sink, Hub, members, channel_name}
use sidecartunnel.Hub.Registry.{detach}
use sidecartunnel.Hub.World.{
  World, send_to, mark_if, remove, close_conn, close_slow, add, subscribe, unsubscribe,
}
use sidecartunnel.Hub.Control.{
  Control, action_disconnect, action_refresh, validate, targets, close_all, matched_keys,
  revoke_keys, revoke_all, control_unsubscribe, apply_control, control, unsubscribed_frame,
  or_default,
}
use sidecartunnel.Proto.{close_revoked, close_expired}
use sidecartunnel.Hub.System.{
  closer_turn, overflow_turn, close_each, close_hub, Call, adds, attaches, subscribes, unsubscribes,
  removes, delivers, controls, closes, names_user, writes_frame, closer_turns, overflow_turns,
  hub_closes, kept, step, run,
}
use sidecartunnel.Hub.Invariant.Detach.{detach-OnlySubs}
use sidecartunnel.Hub.Kept.{IsEased, IsKept, with_marks}
use sidecartunnel.Hub.Kept.Conns.{
  mark_if-kept, send_to-kept, close_conn-kept, close_slow-kept, enqueue_all-kept, deliver-kept,
}
use sidecartunnel.Hub.Kept.Subscriptions.{add-kept, attach-kept, subscribe-kept, unsubscribe-kept}

matched_keys-All :
    (P : Bytes → Type 0) (h : Hub) (p : Pattern) (ks : List Bytes)
    → All P ks
    → All P (matched_keys h p ks)
unfolding matched_keys
matched_keys-All P h p [] a = tt
matched_keys-All P h p (k ∷ ks) a =
    if_cases (All P) (matches p (channel_name h k)) (k ∷ matched_keys h p ks) (matched_keys h p ks)
      (λ _. (a.0, matched_keys-All P h p ks a.1)) (λ _. matched_keys-All P h p ks a.1)

-- The connections that a call may register.
abbrev pub Permits : (Sink → Type 0) → Call → Type 0
Permits MayAdd (adds s) = MayAdd s
Permits MayAdd _ = Unit

-- Whether a call gives a channel to a connection.
abbrev pub gives_channel : Call → Bool
gives_channel (attaches s channels ack) = true
gives_channel (subscribes s channel ack) = true
gives_channel _ = false

module _ {P : World → Type 0} {MayAdd : Sink → Type 0} (kept_by : IsEased P MayAdd) where
  pub close_all-kept :
      (w : World) (ss : List Sink) (code : ℕ) (reason : Bytes)
      → P w
      → P (close_all w ss code reason)
  unfolding close_all
  close_all-kept w [] code reason v = v
  close_all-kept w (s ∷ ss) code reason v =
      close_all-kept (close_conn (remove w s) s code reason) ss code reason
        (close_conn-kept kept_by (remove w s) s code reason (kept_by.removes w s v))

  revoke_keys-kept :
      (w : World) (s : Sink) (reason : Bytes) (ks : List Bytes)
      → P w
      → All (λ k. k ≢ w.hub.control_key) ks
      → P (revoke_keys w s reason ks).0
  unfolding revoke_keys send_to
  revoke_keys-kept w s reason [] v a = v
  revoke_keys-kept w s reason (k ∷ ks) v a =
      let h = (detach w.hub s k).0 in
      let e : h.control_key ≡ w.hub.control_key =
        ap (λ (x : Hub). x.control_key) (detach-OnlySubs w.hub s k) in
      let f = some (unsubscribed_frame w.hub k reason) in
      let w1 : World = record w { hub = h } in
      revoke_keys-kept (send_to w1 s f).0 s reason ks
        (send_to-kept kept_by w1 s f (kept_by.detaches w s k v a.0)) (rw e (a.1))

  revoke_all-kept :
      (w : World) (ss : List Sink) (reason : Bytes) (p : Pattern)
      → P w
      → P (revoke_all w ss reason p).0
  unfolding revoke_all
  revoke_all-kept w [] reason p v = v
  revoke_all-kept w (s ∷ ss) reason p v =
      let ks = matched_keys w.hub p (members (w.hub.subs s)) in
      revoke_all-kept (revoke_keys w s reason ks).0 ss reason p (
        revoke_keys-kept w s reason ks v (
          matched_keys-All (λ k. k ≢ w.hub.control_key) w.hub p (members (w.hub.subs s))
            (kept_by.guarded w s v)))

  control_unsubscribe-kept :
      (w : World) (ss : List Sink) (reason : Bytes) (p : Pattern)
      → P w
      → P (control_unsubscribe w ss reason p)
  unfolding control_unsubscribe
  control_unsubscribe-kept w ss reason p v =
      let r = revoke_all w ss reason p in
      enqueue_all-kept kept_by (record (r.0) { hub = mark_if r.1 (r.0).hub }) r.2
        (mark_if-kept kept_by r.0 r.1 (revoke_all-kept w ss reason p v))

  apply_control-kept : (w : World) (c : Control) (p : Pattern) → P w → P (apply_control w c p)
  unfolding apply_control
  apply_control-kept w c p v =
      let found = targets w.hub c in
      let revoked = close_all w found close_revoked (or_default c.reason (codes "revoked")) in
      let refreshed =
        close_all w found close_expired (or_default c.reason (codes "re-authorization required")) in
      let dropped = control_unsubscribe w found c.reason p in
      if_cases P (same c.action action_disconnect) revoked
        (if same c.action action_refresh then refreshed else dropped)
        (λ _. close_all-kept w found close_revoked (or_default c.reason (codes "revoked")) v)
        (λ _.
          if_cases P (same c.action action_refresh) refreshed dropped
            (λ _.
              close_all-kept w found close_expired
                (or_default c.reason (codes "re-authorization required")) v)
            (λ _. control_unsubscribe-kept w found c.reason p v))

  pub control-kept : (w w' : World) (c : Control) → P w → control w c ≡ ok w' → P w'
  unfolding control
  control-kept w w' c v r =
      let (p, _, e) = >>=-eq-ok (validate c) _ r in
      let q : apply_control w c p ≡ w' = ground arith in rw (← q) (apply_control-kept w c p v)

  close_each-kept : (w : World) (ss : List Sink) → P w → P (close_each w ss)
  unfolding close_each
  close_each-kept w [] v = v
  close_each-kept w (s ∷ ss) v = close_each-kept (close_slow w s) ss (close_slow-kept kept_by w s v)

  -- A call that fails leaves the world alone.
  after-kept {ℓ} :
      {E : Type ℓ} (w : World) (r : Result E World)
      → P w
      → ((w' : World) → r ≡ ok w' → P w')
      → P (kept w r)
  after-kept w (ok w') v h = h w' refl
  after-kept w (err e) v h = v

  closer_turn-kept : (w : World) (q : List Sink) → w.hub.closeq ≡ q → P w → P (closer_turn w)
  unfolding closer_turn
  closer_turn-kept w [] e v = rw (e, closer_turn) v
  closer_turn-kept w (s ∷ rest) e v =
      let h = w.hub in
      rw (e, closer_turn)
        (close_slow-kept kept_by
          (record w { hub = with_marks h h.dirty h.wake rest h.closers h.close_done }) s
          (kept_by.marks w h.dirty h.wake rest h.closers h.close_done v))

  overflow_turn-kept : (w : World) (q : List Sink) → w.hub.closers ≡ q → P w → P (overflow_turn w)
  unfolding overflow_turn
  overflow_turn-kept w [] e v = rw (e, overflow_turn) v
  overflow_turn-kept w (s ∷ rest) e v =
      let h = w.hub in
      rw (e, overflow_turn)
        (close_slow-kept kept_by
          (record w { hub = with_marks h h.dirty h.wake h.closeq rest h.close_done }) s
          (kept_by.marks w h.dirty h.wake h.closeq rest h.close_done v))

  close_hub-kept : (w : World) → P w → P (close_hub w)
  unfolding close_hub
  close_hub-kept w v =
      let h = w.hub in
      close_each-kept (record w { hub = with_marks h h.dirty h.wake [] [] true })
        (h.closers ++ h.closeq) (kept_by.marks w h.dirty h.wake [] [] true v)

  -- Each call that gives no channel to a connection.
  pub step-eased :
      (w : World) (c : Call) → P w → Permits MayAdd c → gives_channel c ≡ false → P (step w c)
  unfolding step
  step-eased w (adds s) v may q = after-kept w (add w s) v (λ w' r. add-kept kept_by w w' s v may r)
  step-eased w (attaches s channels ack) v may q = absurd (cc)
  step-eased w (subscribes s channel ack) v may q = absurd (cc)
  step-eased w (unsubscribes s channel ack) v may q =
      after-kept w (unsubscribe w s channel ack) v
        (λ w' r. unsubscribe-kept kept_by w w' s channel ack v r)
  step-eased w (removes s) v may q = kept_by.removes w s v
  step-eased w (delivers k frame exclude) v may q = deliver-kept kept_by w k frame exclude v
  step-eased w (controls c) v may q = after-kept w (control w c) v (λ w' r. control-kept w w' c v r)
  step-eased w (closes s code reason) v may q = close_conn-kept kept_by w s code reason v
  step-eased w (names_user s user) v may q =
      kept_by.puts w s (record (w.conns s) { user = some user }) (refl, refl, refl, refl) v
  step-eased w (writes_frame s out) v may q =
      kept_by.puts w s (record (w.conns s) { out = out }) (refl, refl, refl, refl) v
  step-eased w closer_turns v may q = closer_turn-kept w w.hub.closeq refl v
  step-eased w overflow_turns v may q = overflow_turn-kept w w.hub.closers refl v
  step-eased w hub_closes v may q = close_hub-kept w v

module _ {P : World → Type 0} {MayAdd : Sink → Type 0} (kept_by : IsKept P MayAdd) where
  -- Each call, on every branch, keeps the subscriptions, the channel map, the desired set and both
  -- indexes in agreement, and the subscriptions within the cap.
  pub step-kept : (w : World) (c : Call) → P w → Permits MayAdd c → P (step w c)
  unfolding step
  step-kept w (attaches s channels ack) v may = attach-kept kept_by w s channels ack v
  step-kept w (subscribes s channel ack) v may =
      after-kept kept_by.eased w (subscribe w s channel ack) v
        (λ w' r. subscribe-kept kept_by w w' s channel ack v r)
  step-kept w (adds s) v may = step-eased kept_by.eased w (adds s) v may refl
  step-kept w (unsubscribes s channel ack) v may =
      step-eased kept_by.eased w (unsubscribes s channel ack) v may refl
  step-kept w (removes s) v may = step-eased kept_by.eased w (removes s) v may refl
  step-kept w (delivers k frame exclude) v may =
      step-eased kept_by.eased w (delivers k frame exclude) v may refl
  step-kept w (controls c) v may = step-eased kept_by.eased w (controls c) v may refl
  step-kept w (closes s code reason) v may =
      step-eased kept_by.eased w (closes s code reason) v may refl
  step-kept w (names_user s user) v may = step-eased kept_by.eased w (names_user s user) v may refl
  step-kept w (writes_frame s out) v may =
      step-eased kept_by.eased w (writes_frame s out) v may refl
  step-kept w closer_turns v may = step-eased kept_by.eased w closer_turns v may refl
  step-kept w overflow_turns v may = step-eased kept_by.eased w overflow_turns v may refl
  step-kept w hub_closes v may = step-eased kept_by.eased w hub_closes v may refl

  pub run-kept : (w : World) (cs : List Call) → P w → All (Permits MayAdd) cs → P (run w cs)
  unfolding run
  run-kept w [] v may = v
  run-kept w (c ∷ cs) v may = run-kept (step w c) cs (step-kept w c v may.0) may.1

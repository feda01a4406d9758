-- ===== src/Hub/Marked.antt =====
-- internal/hub: a call that changes the desired set wakes the reconciler.
use sidecartunnel.Base.{
  ℕ, ◌≡◌, refl, subst, ◌∙◌, ◌⊎◌, inl, inr, Bool, true, false, Option, none, some, List, [], ◌∷◌,
  arith, ltb, if_cases, Bool-cases, Option-cases, Bytes, codes, length, exclude, ok, Result-cases,
  >>=-eq-ok,
}
use sidecartunnel.Conn.{do_close}
use sidecartunnel.Proto.{Frame, close_slow_consumer}
use sidecartunnel.Hub.State.{Sink, Hub, members, key, admit, mark_dirty}
use sidecartunnel.Hub.Registry.{drop_locked, insert_locked, register, reindex, index_user}
use sidecartunnel.Hub.World.{
  World, id_of, user_in, put_conn, send_to, queue_ack, mark_if, remove, close_conn, close_slow,
  enqueue_close, enqueue_all, finish, add, attach_registered, attach, subscribe, unsubscribe,
  excluded, deliver_loop, deliver,
}
use sidecartunnel.Hub.Told.{
  IsTold, same-IsTold, after-IsTold, index_user-IsTold, register-IsTold, insert_locked-IsTold,
  drop_locked-IsTold, remove_locked-IsTold, attach_loop-IsTold,
}

-- The reconciler is marked and woken.
abbrev pub IsMarked : Hub → Type 0
IsMarked h = (h.dirty ≡ true) × (h.wake ≡ true)

-- From `h` to `h'` the reconciler is marked, or the desired set is as it was and so are the marks.
abbrev pub Follows : Hub → Hub → Type 0
Follows h h' = IsMarked h' ⊎ ((h'.desired ≡ h.desired) × (h'.dirty ≡ h.dirty) × (h'.wake ≡ h.wake))

pub Follows-refl : (h : Hub) → Follows h h
Follows-refl h = inr (refl, refl, refl)

pub Follows-trans : (a b c : Hub) → Follows a b → Follows b c → Follows a c
Follows-trans a b c f (inl m) = inl m
Follows-trans a b c (inl m) (inr (p, q, r)) = inl (q ∙ m.0, r ∙ m.1)
Follows-trans a b c (inr (d, e, f)) (inr (p, q, r)) = inr (p ∙ d, q ∙ e, r ∙ f)

pub told-Follows :
    (h h' : Hub) (changed : Bool) → IsTold h h' changed → Follows h (mark_if changed h')
unfolding mark_if mark_dirty
told-Follows h h' true t = inl (refl, refl)
told-Follows h h' false t = inr (t.desired refl, t.dirty, t.wake)

pub remove-Follows : (w : World) (s : Sink) → Follows w.hub (remove w s).hub
unfolding remove
remove-Follows w s = elim (Option-cases (w.hub.subs s)) [
  | inl e ↦ rw (e, remove) (Follows-refl w.hub)
  | inr (m, e) ↦
      rw (e, remove) (told-Follows w.hub _ _ (remove_locked-IsTold w.hub s (id_of w s) m))
]

pub close_conn-Follows :
    (w : World) (s : Sink) (code : ℕ) (reason : Bytes)
    → Follows w.hub (close_conn w s code reason).hub
unfolding close_conn
close_conn-Follows w s code reason =
    let closing = put_conn w s (do_close (w.conns s) code reason true) in
    if_cases (λ (x : World). Follows w.hub x.hub) (w.conns s).closed w (remove closing s)
      (λ _. Follows-refl w.hub) (λ _. remove-Follows closing s)

pub close_slow-Follows : (w : World) (s : Sink) → Follows w.hub (close_slow w s).hub
unfolding close_slow
close_slow-Follows w s =
    Follows-trans w.hub (remove w s).hub (close_slow w s).hub (remove-Follows w s)
      (close_conn-Follows (remove w s) s close_slow_consumer (codes "outbound queue full"))

pub enqueue_close-Follows : (w : World) (s : Sink) → Follows w.hub (enqueue_close w s).hub
unfolding enqueue_close
enqueue_close-Follows w s =
    if_cases (λ (x : World). Follows w.hub x.hub) w.hub.close_done (close_slow w s) _
      (λ _. close_slow-Follows w s)
      (λ _.
        if_cases (λ (x : World). Follows w.hub x.hub) (ltb (length w.hub.closeq) w.hub.closer_queue)
          _ _ (λ _. inr (refl, refl, refl)) (λ _. inr (refl, refl, refl)))

pub enqueue_all-Follows : (w : World) (ss : List Sink) → Follows w.hub (enqueue_all w ss).hub
unfolding enqueue_all
enqueue_all-Follows w [] = Follows-refl w.hub
enqueue_all-Follows w (s ∷ ss) =
    Follows-trans w.hub (enqueue_close w s).hub (enqueue_all (enqueue_close w s) ss).hub
      (enqueue_close-Follows w s) (enqueue_all-Follows (enqueue_close w s) ss)

hub-queue_ack : (w : World) (s : Sink) (ack : Option Frame) → (queue_ack w s ack).0.hub ≡ w.hub
unfolding queue_ack send_to
hub-queue_ack w s none = refl
hub-queue_ack w s (some f) = refl

finish-Follows :
    (h : Hub) (w : World) (s : Sink) (changed refused : Bool)
    → IsTold h w.hub changed
    → Follows h (finish w s changed refused).hub
unfolding finish
finish-Follows h w s changed false t = told-Follows h w.hub changed t
finish-Follows h w s changed true t =
    let marked : World = record w { hub = mark_if changed w.hub } in
    Follows-trans h marked.hub (enqueue_close marked s).hub (told-Follows h w.hub changed t)
      (enqueue_close-Follows marked s)

-- What Attach, Subscribe and Unsubscribe do once the lock is held.
acknowledged-Follows :
    (w : World) (h : Hub) (s : Sink) (ack : Option Frame) (changed : Bool)
    → IsTold w.hub h changed
    → let q = queue_ack (record w { hub = h }) s ack in Follows w.hub (finish q.0 s changed q.1).hub
acknowledged-Follows w h s ack changed t =
    let q = queue_ack (record w { hub = h }) s ack in
    finish-Follows w.hub q.0 s changed q.1 (rw (hub-queue_ack (record w { hub = h }) s ack) t)

pub add-Follows : (w w' : World) (s : Sink) → add w s ≡ ok w' → Follows w.hub w'.hub
unfolding add
add-Follows w w' s r =
    let (h, q, e) = >>=-eq-ok (register w.hub s (id_of w s) (user_in w s)) _ r in
    let t = register-IsTold w.hub h s (id_of w s) (user_in w s) q in
    let f : record w { hub = h } ≡ w' = ground arith in
    rw (← f) (inr (t.desired refl, t.dirty, t.wake))

attach_registered-IsTold :
    (h : Hub) (s : Sink) (user : Bytes) (channels : List Bytes)
    → let r = attach_registered (reindex h s user) s channels in IsTold h r.0 r.2
unfolding reindex attach_registered
attach_registered-IsTold h s user channels = elim (Option-cases (h.subs s)) [
  | inl e ↦ rw (e, reindex) (same-IsTold h)
  | inr (m, e) ↦
      rw (e, reindex)
        (after-IsTold h (index_user h s user) _ _ (index_user-IsTold h s user)
          (attach_loop-IsTold (index_user h s user) s channels))
]

pub attach-Follows :
    (w : World) (s : Sink) (channels : List Bytes) (ack : List Bytes → Option Frame)
    → Follows w.hub (attach w s channels ack).0.hub
unfolding attach
attach-Follows w s channels ack =
    let r = attach_registered (reindex w.hub s (user_in w s)) s channels in
    acknowledged-Follows w r.0 s (ack (r.1)) (r.2)
      (attach_registered-IsTold w.hub s (user_in w s) channels)

pub subscribe-Follows :
    (w w' : World) (s : Sink) (channel : Bytes) (ack : Option Frame)
    → subscribe w s channel ack ≡ ok w'
    → Follows w.hub w'.hub
unfolding subscribe
subscribe-Follows w w' s channel ack r = elim (Option-cases (admit w.hub channel)) [
  | inr (e, a) ↦ absurd (ground arith)
  | inl a ↦ elim (Result-cases (insert_locked w.hub s (key w.hub channel))) [
    | inr (e, i) ↦ absurd (ground arith)
    | inl ((h, first), i) ↦
        let q = queue_ack (record w { hub = h }) s ack in
        let e : finish q.0 s first q.1 ≡ w' = ground arith in
        rw (← e) (
          acknowledged-Follows w h s ack first
            (insert_locked-IsTold w.hub h s (key w.hub channel) first i))
  ]
]

pub unsubscribe-Follows :
    (w w' : World) (s : Sink) (channel : Bytes) (ack : Option Frame)
    → unsubscribe w s channel ack ≡ ok w'
    → Follows w.hub w'.hub
unfolding unsubscribe
unsubscribe-Follows w w' s channel ack r =
    elim (Result-cases (drop_locked w.hub s (key w.hub channel))) [
      | inr (e, i) ↦ absurd (ground arith)
      | inl ((h, last), i) ↦
          let q = queue_ack (record w { hub = h }) s ack in
          let e : finish q.0 s last q.1 ≡ w' = ground arith in
          rw (← e) (
            acknowledged-Follows w h s ack last
              (drop_locked-IsTold w.hub h s (key w.hub channel) last i))
    ]

hub-deliver_loop :
    (w : World) (f : Frame) (exclude : Bytes) (ss : List Sink)
    → (deliver_loop w f exclude ss).0.hub ≡ w.hub
unfolding deliver_loop send_to
hub-deliver_loop w f exclude [] = refl
hub-deliver_loop w f exclude (s ∷ ss) = elim (Bool-cases (excluded exclude (id_of w s))) [
  | inl e ↦ rw e (hub-deliver_loop w f exclude ss)
  | inr e ↦ rw e (hub-deliver_loop (send_to w s (some f)).0 f exclude ss)
]

pub deliver-Follows :
    (w : World) (k : Bytes) (f : Frame) (exclude : Bytes)
    → Follows w.hub (deliver w k f exclude).hub
unfolding deliver
deliver-Follows w k f exclude =
    let r = deliver_loop w f exclude (members (w.hub.channels k)) in
    subst (λ (h : Hub). Follows h (enqueue_all r.0 r.1).hub)
      (hub-deliver_loop w f exclude (members (w.hub.channels k))) (enqueue_all-Follows r.0 r.1)

-- ===== src/Hub/Kept/Subscriptions.antt =====
-- internal/hub: Add, Attach, Subscribe and Unsubscribe.
use sidecartunnel.Base.{
  ◌≡◌, inl, inr, Bool, Option, List, arith, Option-cases, Bytes, ok, Result-cases, >>=-eq-ok,
}
use sidecartunnel.Proto.{Frame}
use sidecartunnel.Hub.State.{Sink, Hub, key, admit}
use sidecartunnel.Hub.Registry.{drop_locked, insert_locked, register, reindex}
use sidecartunnel.Hub.World.{
  World, id_of, user_in, queue_ack, finish, add, attach_registered, attach, subscribe, unsubscribe,
}
use sidecartunnel.Hub.Kept.{IsEased, IsKept}
use sidecartunnel.Hub.Kept.Conns.{queue_ack-kept, finish-kept}

module _ {P : World → Type 0} {MayAdd : Sink → Type 0} (kept_by : IsEased P MayAdd) where
  pub add-kept : (w w' : World) (s : Sink) → P w → MayAdd s → add w s ≡ ok w' → P w'
  unfolding add
  add-kept w w' s v may r =
      let (h, q, e) = >>=-eq-ok (register w.hub s (id_of w s) (user_in w s)) _ r in
      let f : record w { hub = h } ≡ w' = ground arith in rw (← f) (kept_by.registers w h s v may q)

  -- Both subscription calls end the same way.
  pub acknowledged-kept :
      (w : World) (h : Hub) (s : Sink) (ack : Option Frame) (changed : Bool)
      → P (record w { hub = h })
      → P (
          finish
            (queue_ack (record w { hub = h }) s ack).0
            s
            changed
            (queue_ack (record w { hub = h }) s ack).1)
  acknowledged-kept w h s ack changed v =
      let q = queue_ack (record w { hub = h }) s ack in
      finish-kept kept_by q.0 s changed q.1 (queue_ack-kept kept_by (record w { hub = h }) s ack v)

  pub unsubscribe-kept :
      (w w' : World) (s : Sink) (channel : Bytes) (ack : Option Frame)
      → P w
      → unsubscribe w s channel ack ≡ ok w'
      → P w'
  unfolding unsubscribe
  unsubscribe-kept w w' s channel ack v r =
      elim (Result-cases (drop_locked w.hub s (key w.hub channel))) [
        | inr (e, i) ↦ absurd (ground arith)
        | inl ((h, last), i) ↦
            let q = queue_ack (record w { hub = h }) s ack in
            let e : finish q.0 s last q.1 ≡ w' = ground arith in
            rw (← e)
              (acknowledged-kept w h s ack last (kept_by.drops w h s (key w.hub channel) last v i))
      ]

module _ {P : World → Type 0} {MayAdd : Sink → Type 0} (kept_by : IsKept P MayAdd) where
  pub attach-kept :
      (w : World) (s : Sink) (channels : List Bytes) (ack : List Bytes → Option Frame)
      → P w
      → P (attach w s channels ack).0
  unfolding attach
  attach-kept w s channels ack v =
      let r = attach_registered (reindex w.hub s (user_in w s)) s channels in
      let w1 : World = record w { hub = r.0 } in
      let q = queue_ack w1 s (ack (r.1)) in
      finish-kept kept_by.eased q.0 s (r.2) q.1
        (queue_ack-kept kept_by.eased w1 s (ack (r.1)) (kept_by.attaches w s channels v))

  pub subscribe-kept :
      (w w' : World) (s : Sink) (channel : Bytes) (ack : Option Frame)
      → P w
      → subscribe w s channel ack ≡ ok w'
      → P w'
  unfolding subscribe
  subscribe-kept w w' s channel ack v r = elim (Option-cases (admit w.hub channel)) [
    | inr (e, a) ↦ absurd (ground arith)
    | inl a ↦ elim (Result-cases (insert_locked w.hub s (key w.hub channel))) [
      | inr (e, i) ↦ absurd (ground arith)
      | inl ((h, first), i) ↦
          let q = queue_ack (record w { hub = h }) s ack in
          let e : finish q.0 s first q.1 ≡ w' = ground arith in
          rw (← e) (
            acknowledged-kept kept_by.eased w h s ack first
              (kept_by.inserts w h s channel first v a i))
    ]
  ]

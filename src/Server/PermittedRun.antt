-- ===== src/Server/PermittedRun.antt =====
-- internal/server/registry.go over internal/hub: whatever frames come, a connection holds only channels that it may use.
use sidecartunnel.Base.{
  ℕ, ◌≡◌, refl, sym, subst, ◌≢◌, inl, inr, Bool, true, false, not, Option, none, some, List, [],
  ◌∷◌, arith, ℕ_discrete, if_cases, Option-cases, Bytes, codes, All, update, Result, ok, err,
  Result-cases,
}
use sidecartunnel.Proto.{Frame, close_rate_limited, Command}
use sidecartunnel.Conn.{Conn, send, do_close}
use sidecartunnel.Conn.Registry.{Failure, fault}
use sidecartunnel.Conn.Command.{
  Auth, AuthError, check_channel, accepted, admissible, bounded, handle,
}
use sidecartunnel.Conn.Command.Channels.{bounded-IsSelected}
use sidecartunnel.Conn.Command.Kept.{Keeps, begun, welcomed, handle-kept}
use sidecartunnel.Hub.State.{Sink, HubError, admit, key, namespace}
use sidecartunnel.Hub.Registry.{insert_locked, reindex}
use sidecartunnel.Hub.World
use sidecartunnel.Hub.World.{
  World, id_of, user_in, put_conn, queue_ack, finish, close_conn, attach, attach_registered,
}
use sidecartunnel.Hub.Kept.Conns.{send-SameSession, do_close-SameSession, close_conn-kept}
use sidecartunnel.Hub.Kept.Subscriptions.{acknowledged-kept, unsubscribe-kept}
use sidecartunnel.Hub.Invariant.Reach.{WorldInv-kept, put_conn-WorldInv}
use sidecartunnel.Hub.Shrinks.{holds}
use sidecartunnel.Server.Rates.{Rate}
use sidecartunnel.Server.Limiter.{allow}
use sidecartunnel.Server.Gateway.{
  Gateway, Envelope, relayed, bus_publish, publish_limited, registry,
}
use sidecartunnel.Server.Gateway
use sidecartunnel.Server.Permitted.{
  IsOrderly, IsOrderly-eased, insert_locked-IsPermitted, attach_registered-IsPermitted,
  put_conn-IsPermitted, fresh-holds_none,
}

-- A channel that the connection's checks accept, in Subscribe and in Attach.
subscribe-IsOrderly :
    (w w' : World) (s : Sink) (channel : Bytes) (ack : Option Frame)
    → IsOrderly w
    → check_channel (w.conns s) channel ≡ none
    → World.subscribe w s channel ack ≡ ok w'
    → IsOrderly w'
unfolding World.subscribe
subscribe-IsOrderly w w' s channel ack v c r = elim (Option-cases (admit w.hub channel)) [
  | inr (e, a) ↦ absurd (ground arith)
  | inl a ↦ elim (Result-cases (insert_locked w.hub s (key w.hub channel))) [
    | inr (e, i) ↦ absurd (ground arith)
    | inl ((h, first), i) ↦
        let q = queue_ack (record w { hub = h }) s ack in
        let e : finish q.0 s first q.1 ≡ w' = ground arith in
        rw (← e) (
          acknowledged-kept IsOrderly-eased w h s ack first (
            WorldInv-kept.inserts w h s channel first v.0 a i,
            insert_locked-IsPermitted w.conns w.hub h s channel first v.1 c i,
          ))
  ]
]

attach-IsOrderly :
    (w : World) (s : Sink) (channels : List Bytes) (ack : List Bytes → Option Frame)
    → IsOrderly w
    → All (λ channel. check_channel (w.conns s) channel ≡ none) channels
    → IsOrderly (attach w s channels ack).0
unfolding attach
attach-IsOrderly w s channels ack v a =
    let r = attach_registered (reindex w.hub s (user_in w s)) s channels in
    acknowledged-kept IsOrderly-eased w r.0 s (ack (r.1)) (r.2) (
      WorldInv-kept.attaches w s channels v.0,
      attach_registered-IsPermitted w.conns w.hub s (user_in w s) channels v.1 a,
    )

accepted-none : (o : Option (ℕ × Bytes)) → accepted o ≡ true → o ≡ none
accepted-none none e = refl
accepted-none (some x) e = absurd (cc)

All-map : (P Q : Bytes → Type 0) (xs : List Bytes) → ((x : Bytes) → P x → Q x) → All P xs → All Q xs
All-map P Q [] f a = tt
All-map P Q (x ∷ xs) f a = (f x a.0, All-map P Q xs f a.1)

admissible-All :
    (c : Conn) (subs : List Bytes)
    → All (λ channel. check_channel c channel ≡ none) (admissible c subs)
unfolding admissible
admissible-All c subs =
    let keep = λ (channel : Bytes). accepted (check_channel c channel) in
    All-map (λ x. keep x ≡ true) (λ x. check_channel c x ≡ none) (bounded c subs keep)
      (λ x e. accepted-none (check_channel c x) e) (bounded-IsSelected c subs keep).0.kept

module _ (rates : Bytes → Rate) (now : ℕ) (takes : Bytes → Envelope → Bool) (s : Sink) where
  abbrev Holds : Gateway → Type 0
  Holds g = IsOrderly g.world

  relayed-IsOrderly :
      (g : Gateway) (r : Result HubError World)
      → Holds g
      → ((w' : World) → r ≡ ok w' → IsOrderly w')
      → Holds (relayed g r).0
  relayed-IsOrderly g (ok w') v h = h w' refl
  relayed-IsOrderly g (err e) v h = v

  bus_publish-IsOrderly :
      (g : Gateway) (channel : Bytes) (envelope : Envelope)
      → Holds g
      → Holds (bus_publish rates now takes g channel envelope).0
  unfolding bus_publish
  bus_publish-IsOrderly g channel envelope v =
      if_cases (λ (r : Gateway × Option Failure). Holds r.0)
        (takes (key g.world.hub channel) envelope) _ (g, some fault) (λ _. v) (λ _. v)

  limited-IsOrderly :
      (g : Gateway) (channel event payload : Bytes) (allowed abusive : Bool)
      → Holds g
      → Holds (publish_limited rates now takes g s channel event payload (allowed, abusive)).0
  unfolding publish_limited
  limited-IsOrderly g channel event payload true abusive v =
      bus_publish-IsOrderly g channel
        (record {
          event = event;
          payload = payload;
          from = user_in g.world s;
          exclude = id_of g.world s;
        })
        v
  limited-IsOrderly g channel event payload false false v = v
  limited-IsOrderly g channel event payload false true v =
      close_conn-kept IsOrderly-eased g.world s close_rate_limited
        (codes "rate limit exceeded repeatedly") v

  publish-IsOrderly :
      (g : Gateway) (channel event payload : Bytes)
      → Holds g
      → Holds (Gateway.publish rates now takes g s channel event payload).0
  unfolding Gateway.publish
  publish-IsOrderly g channel event payload v =
      elim (Option-cases (namespace g.world.hub channel)) [
        | inl e ↦ rw (e, Gateway.publish) v
        | inr (ns, e) ↦
            let (l, allowed, abusive) = allow (g.limiters s) now ns.name (rates ns.name) in
            let counted = record g { limiters = update ℕ_discrete g.limiters s l } in
            rw (e, Gateway.publish)
              (if_cases (λ (r : Gateway × Option Failure). Holds r.0) (not ns.client_events) (g, _)
                (publish_limited rates now takes counted s channel event payload (allowed, abusive))
                (λ _. v) (λ _. limited-IsOrderly counted channel event payload allowed abusive v))
      ]

  -- A connection that holds nothing may be rewritten, its name aside, where it has no Authorizer left.
  put_used-IsOrderly :
      (w : World) (c : Conn)
      → IsOrderly w
      → ((k : Bytes) → holds w.hub s k ≢ true)
      → c.id ≡ (w.conns s).id
      → c.auth ≡ false
      → IsOrderly (put_conn w s c)
  put_used-IsOrderly w c v none_held named used = (
    put_conn-WorldInv w s c named v.0,
    put_conn-IsPermitted w s c (λ k e. absurd (none_held k e)) (λ a. absurd (cc)) v.1,
  )

  -- The grants of a connection are set while it holds nothing, and every channel that it is then attached to has passed
  -- them.
  attaching-IsOrderly :
      (w : World) (auth : Auth) (subs : List Bytes) (ack : List Bytes → Option Frame)
      → IsOrderly w
      → (w.conns s).auth ≡ true
      → let w' = put_conn w s (begun (w.conns s)) in
        let c = welcomed (w'.conns s) auth in
        IsOrderly (attach (put_conn w' s c) s (admissible c subs) ack).0
  attaching-IsOrderly w auth subs ack v has_auth =
      let none_held = λ (k : Bytes). fresh-holds_none w s k v.1 has_auth in
      let w' = put_conn w s (begun (w.conns s)) in
      let c = welcomed (w'.conns s) auth in
      let there : (put_conn w' s c).conns s ≡ c = ground arith in
      attach-IsOrderly (put_conn w' s c) s (admissible c subs) ack
        (put_used-IsOrderly w' c (put_used-IsOrderly w (begun (w.conns s)) v none_held refl refl)
          none_held refl (ground arith))
        (subst (λ (x : Conn). All (λ channel. check_channel x channel ≡ none) (admissible c subs))
          (sym there) (admissible-All c subs))

  registry-Keeps : Keeps (registry rates now takes s) Holds
  unfolding registry
  registry-Keeps = record {
    offers = λ g f v.
        IsOrderly-eased.puts g.world s (send (g.world.conns s) f).0
          (send-SameSession (g.world.conns s) f) v;
    ends = λ g code reason v.
        let c = do_close (g.world.conns s) code reason true in
        IsOrderly-eased.removes (put_conn g.world s c) s (
          IsOrderly-eased.puts g.world s c (do_close-SameSession (g.world.conns s) code reason true)
            v);
    subscribing = λ g channel ack v e.
        relayed-IsOrderly g (World.subscribe g.world s channel ack) v
          (λ w' r. subscribe-IsOrderly g.world w' s channel ack v e r);
    unsubscribing = λ g channel ack v.
        relayed-IsOrderly g (World.unsubscribe g.world s channel ack) v
          (λ w' r. unsubscribe-kept IsOrderly-eased g.world w' s channel ack v r);
    publishing = publish-IsOrderly;
    arms = λ g expires_in v.
        IsOrderly-eased.puts g.world s (record (g.world.conns s) { expires = some expires_in })
          (refl, refl, refl, refl) v;
    repeats = λ g v used.
        IsOrderly-eased.puts g.world s (begun (g.world.conns s)) (refl, sym used, refl, refl) v;
    begins = λ g v has_auth.
        put_used-IsOrderly g.world (begun (g.world.conns s)) v
          (λ k. fresh-holds_none g.world s k v.1 has_auth) refl refl;
    attaching = λ g auth subs ack v has_auth. attaching-IsOrderly g.world auth subs ack v has_auth;
  }

  pub handle-IsOrderly :
      (authorize : List Bytes → Result AuthError Auth) (g : Gateway) (frame : Option Command)
      → Holds g
      → Holds (handle (registry rates now takes s) authorize g frame).0
  handle-IsOrderly = handle-kept (registry rates now takes s) Holds registry-Keeps

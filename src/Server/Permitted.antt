-- ===== src/Server/Permitted.antt =====
-- internal/conn/command.go over internal/hub: a connection holds only channels that it may use.
use sidecartunnel.Base.{
  ◌≡◌, sym, ap, subst, ◌∙◌, ◌≢◌, inl, inr, ite, Bool, true, none, List, [], ◌∷◌, ◌++◌, arith,
  ℕ_discrete, Option-cases, Bytes, All, ok, Result-cases,
}
use sidecartunnel.Conn.{Conn}
use sidecartunnel.Conn.Command.{allows, well_formed, check_channel}
use sidecartunnel.Hub.State.{Sink, Hub, admit, key}
use sidecartunnel.Hub.Registry.{detach, insert_locked, attach_loop, reindex, index_user}
use sidecartunnel.Hub.World.{World, id_of, user_in, put_conn, remove, attach_registered}
use sidecartunnel.Hub.Shrinks.{
  holds, Shrinks, detach-Shrinks, drop_locked-Shrinks, register-Shrinks, remove-Shrinks,
  insert_locked-held, index_user-Shrinks,
}
use sidecartunnel.Hub.Invariant.Reach.{WorldInv, WorldInv-eased}
use sidecartunnel.Hub.Kept.{SameSession, IsEased}

-- A key whose channel the connection's own checks accept.
abbrev pub MayHold : Conn → Bytes → Bytes → Type 0
MayHold c prefix k = (channel : Bytes) × (k ≡ prefix ++ channel) × (check_channel c channel ≡ none)

-- Every connection holds such keys only; one that still has its Authorizer has no grants.
pub record IsPermitted (conns : Sink → Conn) (h : Hub) : Type 0 where
  pub held : (s : Sink) (k : Bytes) → holds h s k ≡ true → MayHold (conns s) h.prefix k
  pub fresh : (s : Sink) → (conns s).auth ≡ true → (conns s).grants ≡ none

-- The checks read only what a call leaves as it is.
pub check_channel-SameSession :
    (c d : Conn) (channel : Bytes)
    → SameSession c d
    → check_channel c channel ≡ none
    → check_channel d channel ≡ none
unfolding check_channel well_formed allows
check_channel-SameSession c d channel (i, a, g, m) e = rw (g, m) e

-- Without grants no channel passes.
pub check_channel-fresh :
    (c : Conn) (channel : Bytes) → c.grants ≡ none → check_channel c channel ≢ none
unfolding check_channel allows
check_channel-fresh c channel g e = ground arith

pub Shrinks-IsPermitted :
    (conns : Sink → Conn) (h h' : Hub) → Shrinks h h' → IsPermitted conns h → IsPermitted conns h'
Shrinks-IsPermitted conns h h' p v = record {
  held = λ s k e. subst (λ x. MayHold (conns s) x k) (sym p.prefix) (v.held s k (p.held s k e));
  fresh = v.fresh;
}

-- A connection may be rewritten where its channels pass the new checks.
pub put_conn-IsPermitted :
    (w : World) (s : Sink) (c : Conn)
    → ((k : Bytes) → holds w.hub s k ≡ true → MayHold c w.hub.prefix k)
    → (c.auth ≡ true → c.grants ≡ none)
    → IsPermitted w.conns w.hub
    → IsPermitted (put_conn w s c).conns w.hub
put_conn-IsPermitted w s c all_may no_grants v = record {
  held = λ t k e. elim (ℕ_discrete s t) as (λ d. MayHold (ite d c (w.conns t)) w.hub.prefix k) [
    | yes p ↦ all_may k (subst (λ x. holds w.hub x k ≡ true) (sym p) e)
    | no n ↦ v.held t k e
  ];
  fresh = λ t a. elim (ℕ_discrete s t) [
    | yes p ↦ ground (arith, no_grants)
    | no n ↦ ground (arith, v.fresh t)
  ];
}

pub put_same-IsPermitted :
    (w : World) (s : Sink) (c : Conn)
    → SameSession (w.conns s) c
    → IsPermitted w.conns w.hub
    → IsPermitted (put_conn w s c).conns w.hub
put_same-IsPermitted w s c alike v =
    put_conn-IsPermitted w s c
      (λ k e.
        let (channel, q, checked) = v.held s k e in
        (channel, q, check_channel-SameSession (w.conns s) c channel alike checked))
      (λ a. alike.2 ∙ v.fresh s (sym alike.1 ∙ a)) v

-- A connection that has its Authorizer holds nothing.
pub fresh-holds_none :
    (w : World) (s : Sink) (k : Bytes)
    → IsPermitted w.conns w.hub
    → (w.conns s).auth ≡ true
    → holds w.hub s k ≢ true
fresh-holds_none w s k v a e =
    let (channel, q, checked) = v.held s k e in
    check_channel-fresh (w.conns s) channel (v.fresh s a) checked

pub insert_locked-IsPermitted :
    (conns : Sink → Conn) (h h' : Hub) (s : Sink) (channel : Bytes) (first : Bool)
    → IsPermitted conns h
    → check_channel (conns s) channel ≡ none
    → insert_locked h s (key h channel) ≡ ok (h', first)
    → IsPermitted conns h'
unfolding key
insert_locked-IsPermitted conns h h' s channel first v c r =
    let (p, more) = insert_locked-held h h' s (key h channel) first r in
    record {
      held = λ t k e. elim (more t k e) [
        | inl (p1, p2) ↦ (
          channel,
          p2 ∙ ap (λ x. x ++ channel) (sym p),
          subst (λ x. check_channel (conns x) channel ≡ none) (sym p1) c,
        )
        | inr before ↦ subst (λ x. MayHold (conns t) x k) (sym p) (v.held t k before)
      ];
      fresh = v.fresh;
    }

-- The loop of Attach over channels that all pass.
pub attach_loop-IsPermitted :
    (conns : Sink → Conn) (h : Hub) (s : Sink) (channels : List Bytes)
    → IsPermitted conns h
    → All (λ channel. check_channel (conns s) channel ≡ none) channels
    → IsPermitted conns (attach_loop h s channels).0
unfolding attach_loop
attach_loop-IsPermitted conns h s [] v a = v
attach_loop-IsPermitted conns h s (channel ∷ channels) v a = elim (Option-cases (admit h channel)) [
  | inr (x, e) ↦ rw (e, attach_loop) (attach_loop-IsPermitted conns h s channels v a.1)
  | inl e ↦ elim (Result-cases (insert_locked h s (key h channel))) [
    | inr (x, r) ↦ rw (e, r, attach_loop) (attach_loop-IsPermitted conns h s channels v a.1)
    | inl ((h', first), r) ↦
        rw (e, r, attach_loop)
          (attach_loop-IsPermitted conns h' s channels
            (insert_locked-IsPermitted conns h h' s channel first v a.0 r) a.1)
  ]
]

pub attach_registered-IsPermitted :
    (conns : Sink → Conn) (h : Hub) (s : Sink) (user : Bytes) (channels : List Bytes)
    → IsPermitted conns h
    → All (λ channel. check_channel (conns s) channel ≡ none) channels
    → IsPermitted conns (attach_registered (reindex h s user) s channels).0
unfolding reindex attach_registered
attach_registered-IsPermitted conns h s user channels v a = elim (Option-cases (h.subs s)) [
  | inl e ↦ rw (e, reindex) v
  | inr (m, e) ↦
      rw (e, reindex)
        (attach_loop-IsPermitted conns (index_user h s user) s channels
          (Shrinks-IsPermitted conns h (index_user h s user) (index_user-Shrinks h s user) v) a)
]

-- The replica: its maps agree, and every connection holds only channels that it may use.
abbrev pub IsOrderly : World → Type 0
IsOrderly w = WorldInv w × IsPermitted w.conns w.hub

abbrev pub Everyone : Sink → Type 0
Everyone s = Unit

conns-remove : (w : World) (s : Sink) → (remove w s).conns ≡ w.conns
unfolding remove
conns-remove w s = ground arith

pub IsOrderly-eased : IsEased IsOrderly Everyone
IsOrderly-eased = record {
  marks = λ w d k q c n v.
      (WorldInv-eased.marks w d k q c n v.0, record { held = v.1.held; fresh = v.1.fresh });
  puts =
      λ w s c alike v. (WorldInv-eased.puts w s c alike v.0, put_same-IsPermitted w s c alike v.1);
  removes = λ w s v. (
    WorldInv-eased.removes w s v.0,
    subst (λ f. IsPermitted f (remove w s).hub) (sym (conns-remove w s))
        (Shrinks-IsPermitted w.conns w.hub (remove w s).hub (remove-Shrinks w s) v.1),
  );
  registers = λ w h s v may r. (
    WorldInv-eased.registers w h s v.0 tt r,
    Shrinks-IsPermitted w.conns w.hub h (register-Shrinks w.hub h s (id_of w s) (user_in w s) r)
        v.1,
  );
  drops = λ w h s k last v r. (
    WorldInv-eased.drops w h s k last v.0 r,
    Shrinks-IsPermitted w.conns w.hub h (drop_locked-Shrinks w.hub h s k last r) v.1,
  );
  guarded = λ w s v. WorldInv-eased.guarded w s v.0;
  detaches = λ w s k v n. (
    WorldInv-eased.detaches w s k v.0 n,
    Shrinks-IsPermitted w.conns w.hub (detach w.hub s k).0 (detach-Shrinks w.hub s k) v.1,
  );
}

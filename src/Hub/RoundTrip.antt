-- ===== src/Hub/RoundTrip.antt =====
-- internal/hub/hub.go: Subscribe, what it takes and what it changes, and that Unsubscribe undoes it.
use sidecartunnel.Base.{
  ◌≡◌, refl, sym, ap, subst, ◌∙◌, ◌≢◌, ◌⊎◌, inl, inr, ite, Bool, true, false, not, ◌&&◌, ◌||◌,
  Option, none, some, List, [], ◌∷◌, ◌++◌, arith, ℕ_discrete, Option-cases, Bytes, bytes_discrete,
  has, has-include, ok, Result-cases,
}
use sidecartunnel.Hub.State.{Sink, Hub, members, present, key, admit}
use sidecartunnel.Hub.Registry.{detach, drop_locked, insert_into, insert_locked}
use sidecartunnel.Hub.World.{World, id_of, queue_ack, finish, subscribe, unsubscribe}
use sidecartunnel.Proto.{Frame}
use sidecartunnel.Hub.Evicted.{OnlyMarks, After, acknowledged-After}
use sidecartunnel.Hub.Invariant.{Inv}
use sidecartunnel.Hub.Invariant.Detach.{detach-OnlySubs, detach-holds, detach-others}
use sidecartunnel.Hub.Invariant.Reach.{WorldInv, WorldInv-kept, WorldInv-eased}
use sidecartunnel.Hub.Revoked.{holds}
use sidecartunnel.Hub.Kept.Subscriptions.{subscribe-kept, unsubscribe-kept}

insert_locked-ok :
    (h h' : Hub) (s : Sink) (k : Bytes) (first : Bool)
    → insert_locked h s k ≡ ok (h', first)
    → (mirror : List Bytes) × (h.subs s ≡ some mirror)
      × (has bytes_discrete k mirror ≡ false)
      × ((insert_into h s k mirror (members (h.channels k))).0 ≡ h')
unfolding insert_locked
insert_locked-ok h h' s k first r = elim (Option-cases (h.subs s)) [
  | inl e ↦ absurd (ground arith)
  | inr (mirror, e) ↦ (mirror, e, ground arith, ground arith)
]

-- A subscribe that succeeds: what the critical section has made of the registry, and what followed.
subscribe-ok :
    (w w' : World) (s : Sink) (channel : Bytes) (ack : Option Frame)
    → subscribe w s channel ack ≡ ok w'
    → (mirror : List Bytes) × (w.hub.subs s ≡ some mirror)
      × (has bytes_discrete (key w.hub channel) mirror ≡ false)
      × (let h =
            (insert_into w.hub s
              (key w.hub channel)
              mirror
              (members (w.hub.channels (key w.hub channel)))).0 in
          After h w'.hub s (queue_ack w s ack).1)
unfolding subscribe
subscribe-ok w w' s channel ack r = elim (Option-cases (admit w.hub channel)) [
  | inr (e, a) ↦ absurd (ground arith)
  | inl a ↦ elim (Result-cases (insert_locked w.hub s (key w.hub channel))) [
    | inr (e, i) ↦ absurd (ground arith)
    | inl ((h, first), i) ↦
        let (mirror, there, fresh, made) = insert_locked-ok w.hub h s (key w.hub channel) first i in
        let q = queue_ack (record w { hub = h }) s ack in
        let end : finish q.0 s first q.1 ≡ w' = ground arith in
        (
          mirror,
          there,
          fresh,
          subst (λ g. After g w'.hub s (queue_ack w s ack).1) (sym made)
              (subst (λ (x : World). After h x.hub s (queue_ack w s ack).1) end
                (acknowledged-After w h s ack first)),
        )
  ]
]

-- After the critical section the connection holds the channel, and nothing else has changed hands.
inserted-holds :
    (h : Hub) (s t : Sink) (c k : Bytes) (mirror : List Bytes) (set : List Sink)
    → h.subs s ≡ some mirror
    → has bytes_discrete k (members ((insert_into h s c mirror set).0.subs t)) ≡ (
        ite (ℕ_discrete s t) (ite (bytes_discrete c k) true false) false
        || has bytes_discrete k (members (h.subs t)))
unfolding insert_into
inserted-holds h s t c k mirror set e = ground (arith, e, has-include bytes_discrete c k mirror)

-- An unsubscribe of a channel that the connection holds succeeds.
unsubscribe-ok :
    (w : World) (s : Sink) (channel : Bytes) (ack : Option Frame)
    → present (w.hub.subs s) ≡ true
    → holds w s (key w.hub channel) ≡ true
    → (w' : World) × (unsubscribe w s channel ack ≡ ok w')
      × After (detach w.hub s (key w.hub channel)).0 w'.hub s (queue_ack w s ack).1
unfolding unsubscribe drop_locked
unsubscribe-ok w s channel ack there held = elim (Option-cases (w.hub.subs s)) [
  | inl e ↦ absurd (ground arith)
  | inr (mirror, e) ↦
      let d = detach w.hub s (key w.hub channel) in
      let q = queue_ack (record w { hub = d.0 }) s ack in
      (finish q.0 s (d.1) q.1, ground arith, acknowledged-After w d.0 s ack d.1)
]

detach-holds_all :
    (h : Hub) (s t : Sink) (k j : Bytes)
    → has bytes_discrete j (members ((detach h s k).0.subs t)) ≡ (
        not (ite (ℕ_discrete s t) (ite (bytes_discrete k j) true false) false)
        && has bytes_discrete j (members (h.subs t)))
detach-holds_all h s t k j = elim (ℕ_discrete s t) [
  | yes e ↦ rw (← e) (ground (arith, detach-holds h s k j))
  | no n ↦ ground (arith, detach-others h s t k n)
]

present_iff :
    (ids ids' : Sink → Bytes) (h h' : Hub) (k : Bytes)
    → Inv ids h
    → Inv ids' h'
    → ((t : Sink)
        → has bytes_discrete k (members (h.subs t)) ≡ has bytes_discrete k (members (h'.subs t)))
    → present (h.channels k) ≡ true
    → present (h'.channels k) ≡ true
unfolding has
present_iff ids ids' h h' k v v' alike there = elim (Option-cases (h.channels k)) [
  | inl e ↦ absurd (ground arith)
  | inr ([], e) ↦ absurd (v.mirrored.no_empty k e)
  | inr (t ∷ rest, e) ↦ ground (arith, e, v.mirrored.agree t k, v'.mirrored.agree t k, alike t)
]

same_truth : (a b : Bool) → (a ≡ true → b ≡ true) → (b ≡ true → a ≡ true) → a ≡ b
same_truth true b f g = sym (f refl)
same_truth false true f g = g refl
same_truth false false f g = refl

-- Two registries in which the maps agree, with the same holders and control key, want the same keys.
desired-alike :
    (ids ids' : Sink → Bytes) (h h' : Hub) (k : Bytes)
    → Inv ids h
    → Inv ids' h'
    → h.control_key ≡ h'.control_key
    → ((t : Sink)
        → has bytes_discrete k (members (h.subs t)) ≡ has bytes_discrete k (members (h'.subs t)))
    → has bytes_discrete k h.desired ≡ has bytes_discrete k h'.desired
desired-alike ids ids' h h' k v v' fixed alike =
    let p : present (h.channels k) ≡ present (h'.channels k) =
      same_truth (present (h.channels k)) (present (h'.channels k))
        (present_iff ids ids' h h' k v v' alike)
        (present_iff ids' ids h' h k v' v (λ t. sym (alike t))) in
    v.mirrored.wanted k ∙ (rw (fixed, p) refl) ∙ sym (v'.mirrored.wanted k)

-- Everything that the two calls were to leave alone is as it was.
pub record IsUndone (w w' : World) : Type 0 where
  pub same_holds : (t : Sink) (k : Bytes) → holds w' t k ≡ holds w t k
  pub same_desired :
      (k : Bytes) → has bytes_discrete k w'.hub.desired ≡ has bytes_discrete k w.hub.desired

-- Close of the hub has stopped waiting, the connection refused its reply, and is deregistered; the others hold what
-- they held.
pub record IsEvicted (w w' : World) (s : Sink) (refused : Bool) : Type 0 where
  pub refusal : refused ≡ true
  pub late : w.hub.close_done ≡ true
  pub gone : w'.hub.subs s ≡ none
  pub others_hold : (t : Sink) (k : Bytes) → s ≢ t → holds w' t k ≡ holds w t k

-- The unsubscribe on a registry that differs from that of a subscribe's critical section by marks only.
undo :
    (w w' w'' : World) (s : Sink) (channel : Bytes) (mirror : List Bytes) (refused : Bool)
    → WorldInv w
    → WorldInv w''
    → w.hub.subs s ≡ some mirror
    → has bytes_discrete (key w.hub channel) mirror ≡ false
    → OnlyMarks
        (insert_into w.hub s
          (key w.hub channel)
          mirror
          (members (w.hub.channels (key w.hub channel)))).0
        w'.hub
    → After (detach w'.hub s (key w.hub channel)).0 w''.hub s refused
    → IsUndone w w'' ⊎ IsEvicted w w'' s refused
unfolding insert_into
undo w w' w'' s channel mirror refused v v'' e fresh marks after =
    let k0 = key w.hub channel in
    let h = (insert_into w.hub s k0 mirror (members (w.hub.channels k0))).0 in
    let d = (detach w'.hub s k0).0 in
    let only = detach-OnlySubs w'.hub s k0 in
    let alike : (t : Sink) (k : Bytes) → has bytes_discrete k (members (d.subs t)) ≡ holds w t k =
      λ t k.
        detach-holds_all w'.hub s t k0 k
        ∙ ground (
          arith,
          ap (λ (x : Hub). has bytes_discrete k (members (x.subs t))) marks,
          inserted-holds w.hub s t k0 k mirror (members (w.hub.channels k0)) e,
          e,
          fresh,
        ) in
    elim after [
      | inl m ↦
          let same : (t : Sink) (k : Bytes) → holds w'' t k ≡ holds w t k =
            λ t k. ap (λ (x : Hub). has bytes_discrete k (members (x.subs t))) m ∙ alike t k in
          inl (record {
            same_holds = same;
            same_desired = λ k.
                desired-alike (id_of w'') (id_of w) w''.hub w.hub k v'' v
                  (ap (λ (x : Hub). x.control_key) m
                    ∙ ap (λ (x : Hub). x.control_key) only
                    ∙ ap (λ (x : Hub). x.control_key) marks)
                  (λ t. same t k);
          })
      | inr x ↦ inr (record {
        refusal = x.refusal;
        late =
            sym (ap (λ (y : Hub). y.close_done) marks)
            ∙ sym (ap (λ (y : Hub). y.close_done) only)
            ∙ x.late;
        gone = x.gone;
        others_hold =
            λ t k n. ap (λ l. has bytes_discrete k (members l)) (x.others t n).0 ∙ alike t k;
      })
    ]

-- In a state in which the maps agree, a subscribe that succeeds, whatever its reply, can be undone: the unsubscribe of
-- the same channel succeeds, and then every connection holds what it held before and the desired set has the keys that
-- it had before. The exception is a connection that refuses one of the two replies once the hub's Close has stopped
-- waiting: it is deregistered there and then, and the others hold what they held before.
pub subscribe-unsubscribe :
    (w w' : World) (s : Sink) (channel : Bytes) (ack ack' : Option Frame)
    → WorldInv w
    → subscribe w s channel ack ≡ ok w'
    → IsEvicted w w' s (queue_ack w s ack).1
      ⊎ ((w'' : World) × (unsubscribe w' s channel ack' ≡ ok w'')
          × (IsUndone w w'' ⊎ IsEvicted w w'' s (queue_ack w' s ack').1))
unfolding insert_into key
subscribe-unsubscribe w w' s channel ack ack' v r =
    let k0 = key w.hub channel in
    let (mirror, e, fresh, after) = subscribe-ok w w' s channel ack r in
    let h = (insert_into w.hub s k0 mirror (members (w.hub.channels k0))).0 in
    let taken = λ (t : Sink) (k : Bytes).
      inserted-holds w.hub s t k0 k mirror (members (w.hub.channels k0)) e in
    elim after [
      | inr x ↦ inl (record {
        refusal = x.refusal;
        late = x.late;
        gone = x.gone;
        others_hold = λ t k n.
            ap (λ l. has bytes_discrete k (members l)) (x.others t n).0 ∙ taken t k ∙ ground arith;
      })
      | inl m ↦
          let same_key : key w'.hub channel ≡ k0 = ap (λ (x : Hub). x.prefix ++ channel) m in
          let held : holds w' s (key w'.hub channel) ≡ true =
            ap (holds w' s) same_key
            ∙ ap (λ (x : Hub). has bytes_discrete k0 (members (x.subs s))) m
            ∙ taken s k0
            ∙ ground arith in
          let there : present (w'.hub.subs s) ≡ true =
            ap (λ (x : Hub). present (x.subs s)) m ∙ ground arith in
          let (w'', u, later) = unsubscribe-ok w' s channel ack' there held in
          let v' = subscribe-kept WorldInv-kept w w' s channel ack v r in
          let v'' = unsubscribe-kept WorldInv-eased w' w'' s channel ack' v' u in
          inr (
            w'',
            u,
            undo w w' w'' s channel mirror (queue_ack w' s ack').1 v v'' e fresh m (
                subst (λ k. After (detach w'.hub s k).0 w''.hub s (queue_ack w' s ack').1) same_key
                  later),
          )
    ]

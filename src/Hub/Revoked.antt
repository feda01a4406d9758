-- ===== src/Hub/Revoked.antt =====
-- internal/hub/control.go: exactly which subscriptions a control unsubscribe ends.
use sidecartunnel.Base.{
  ◌≡◌, refl, ap, ◌∙◌, inl, inr, ite, Bool, true, false, not, ◌&&◌, Option, some, List, [], ◌∷◌,
  arith, ℕ_discrete, Bool-cases, Bytes, bytes_discrete, has, ok,
}
use sidecartunnel.Glob.{Pattern, matches}
use sidecartunnel.Text.{same}
use sidecartunnel.Hub.State.{Sink, Hub, members, channel_name}
use sidecartunnel.Hub.Registry.{detach}
use sidecartunnel.Hub.World.{World, send_to, mark_if}
use sidecartunnel.Hub.Control.{
  Control, action_disconnect, action_refresh, action_unsubscribe, validate, targets, matched_keys,
  unsubscribed_frame, revoke_keys, revoke_all, control_unsubscribe, apply_control, control,
}
use sidecartunnel.Hub.Invariant.Detach.{detach-OnlySubs, detach-holds, detach-others}
use sidecartunnel.Hub.Invariant.Reach.{WorldInv}
use sidecartunnel.Hub.Delivery.{enqueue_all-IsQueuedOnly}
use sidecartunnel.Hub.Revocation.{is_target, has-targets}

abbrev pub holds : World → Sink → Bytes → Bool
holds w s k = has bytes_discrete k (members (w.hub.subs s))

pub subs-mark_if : (b : Bool) (h : Hub) → (mark_if b h).subs ≡ h.subs
unfolding mark_if
subs-mark_if true h = refl
subs-mark_if false h = refl

-- What the loops leave alone.
abbrev IsSteady : World → World → Type 0
IsSteady w w' = (w'.hub.prefix ≡ w.hub.prefix) × (w'.hub.close_done ≡ w.hub.close_done)

revoke_keys-IsSteady :
    (w : World) (s : Sink) (reason : Bytes) (ks : List Bytes)
    → IsSteady w (revoke_keys w s reason ks).0
unfolding revoke_keys send_to
revoke_keys-IsSteady w s reason [] = (refl, refl)
revoke_keys-IsSteady w s reason (k ∷ ks) =
    let h = (detach w.hub s k).0 in
    let e = detach-OnlySubs w.hub s k in
    let w1 = (send_to (record w { hub = h }) s (some (unsubscribed_frame w.hub k reason))).0 in
    let (p, d) = revoke_keys-IsSteady w1 s reason ks in
    (p ∙ ap (λ (x : Hub). x.prefix) e, d ∙ ap (λ (x : Hub). x.close_done) e)

holds-revoke_keys :
    (w : World) (s t : Sink) (reason : Bytes) (ks : List Bytes) (j : Bytes)
    → holds (revoke_keys w s reason ks).0 t j
      ≡ (ite (ℕ_discrete s t) (not (has bytes_discrete j ks)) true && holds w t j)
unfolding revoke_keys send_to has
holds-revoke_keys w s t reason [] j = ground arith
holds-revoke_keys w s t reason (k ∷ ks) j =
    let h = (detach w.hub s k).0 in
    let w1 = (send_to (record w { hub = h }) s (some (unsubscribed_frame w.hub k reason))).0 in
    let rest = holds-revoke_keys w1 s t reason ks j in
    elim (ℕ_discrete s t) [
      | yes e ↦ ground (arith, rest, detach-holds w.hub s k j)
      | no n ↦ ground (arith, rest, detach-others w.hub s t k n)
    ]

has-matched_keys :
    (h : Hub) (p : Pattern) (ks : List Bytes) (j : Bytes)
    → has bytes_discrete j (matched_keys h p ks)
      ≡ (has bytes_discrete j ks && matches p (channel_name h j))
unfolding matched_keys has
has-matched_keys h p [] j = refl
has-matched_keys h p (k ∷ ks) j = elim (bytes_discrete k j) [
  | yes e ↦ elim (Bool-cases (matches p (channel_name h k))) [
    | inl m ↦ ground (arith, has-matched_keys h p ks j)
    | inr m ↦ ground (arith, has-matched_keys h p ks j)
  ]
  | no n ↦ ground (arith, has-matched_keys h p ks j)
]

revoke_all-IsSteady :
    (w : World) (ss : List Sink) (reason : Bytes) (p : Pattern)
    → IsSteady w (revoke_all w ss reason p).0
unfolding revoke_all
revoke_all-IsSteady w [] reason p = (refl, refl)
revoke_all-IsSteady w (s ∷ ss) reason p =
    let ks = matched_keys w.hub p (members (w.hub.subs s)) in
    let (a, b) = revoke_keys-IsSteady w s reason ks in
    let (c, d) = revoke_all-IsSteady (revoke_keys w s reason ks).0 ss reason p in (c ∙ a, d ∙ b)

holds-revoke_all :
    (w : World) (ss : List Sink) (reason : Bytes) (p : Pattern) (t : Sink) (j : Bytes)
    → holds (revoke_all w ss reason p).0 t j
      ≡ (holds w t j && not (has ℕ_discrete t ss && matches p (channel_name w.hub j)))
unfolding revoke_all has channel_name
holds-revoke_all w [] reason p t j = ground arith
holds-revoke_all w (s ∷ ss) reason p t j =
    let mine = members (w.hub.subs s) in
    let ks = matched_keys w.hub p mine in
    let w1 = (revoke_keys w s reason ks).0 in
    let rest = holds-revoke_all w1 ss reason p t j in
    let same_name : channel_name w1.hub j ≡ channel_name w.hub j =
      ap (λ x. sidecartunnel.Text.trim_prefix j x) (revoke_keys-IsSteady w s reason ks).0 in
    let now = holds-revoke_keys w s t reason ks j in
    let picked = has-matched_keys w.hub p mine j in
    elim (ℕ_discrete s t) [
      | yes e ↦
          rest ∙ ground (arith, ap (matches p) same_name, now, picked, ap (λ x. holds w x j) e)
      | no n ↦ rest ∙ ground (arith, ap (matches p) same_name, now)
    ]

holds-control_unsubscribe :
    (w : World) (ss : List Sink) (reason : Bytes) (p : Pattern) (t : Sink) (j : Bytes)
    → w.hub.close_done ≡ false
    → holds (control_unsubscribe w ss reason p) t j
      ≡ (holds w t j && not (has ℕ_discrete t ss && matches p (channel_name w.hub j)))
unfolding control_unsubscribe
holds-control_unsubscribe w ss reason p t j e =
    let r = revoke_all w ss reason p in
    let marked : World = record (r.0) { hub = mark_if r.1 (r.0).hub } in
    let same_subs : marked.hub.subs ≡ (r.0).hub.subs = subs-mark_if r.1 (r.0).hub in
    let same_done : marked.hub.close_done ≡ (r.0).hub.close_done = done-mark_if r.1 (r.0).hub in
    let (_, _, x, _) =
      enqueue_all-IsQueuedOnly marked r.2 (same_done ∙ (revoke_all-IsSteady w ss reason p).1 ∙ e) in
    ap (λ (g : Sink → Option (List Bytes)). has bytes_discrete j (members (g t))) (x ∙ same_subs)
    ∙ holds-revoke_all w ss reason p t j
  where
    done-mark_if : (b : Bool) (h : Hub) → (mark_if b h).close_done ≡ h.close_done
    done-mark_if true h = refl
    done-mark_if false h = refl

-- A control unsubscribe that is valid, before the hub is closed and in a state in which the maps agree:
-- a connection holds afterwards exactly what it held before, less the channels that the compiled
-- pattern matches where the message names the connection.
pub control-unsubscribes :
    (w w' : World) (c : Control) (p : Pattern) (s : Sink) (k : Bytes)
    → WorldInv w
    → w.hub.close_done ≡ false
    → c.action ≡ action_unsubscribe
    → validate c ≡ ok p
    → control w c ≡ ok w'
    → has bytes_discrete k (members (w'.hub.subs s)) ≡ (
        has bytes_discrete k (members (w.hub.subs s))
        && not (is_target w c.user c.client s && matches p (channel_name w.hub k)))
unfolding control apply_control same
control-unsubscribes w w' c p s k v open_hub a valid r =
    let other : same c.action action_disconnect ≡ false = ap (λ x. same x action_disconnect) a in
    let other' : same c.action action_refresh ≡ false = ap (λ x. same x action_refresh) a in
    let q : control_unsubscribe w (targets w.hub c) c.reason p ≡ w' = ground arith in
    let found = has-targets w c s v in
    rw (← q) (
      holds-control_unsubscribe w (targets w.hub c) c.reason p s k open_hub
      ∙ ap (λ b. holds w s k && not (b && matches p (channel_name w.hub k))) found)

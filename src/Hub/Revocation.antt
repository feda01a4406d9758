-- ===== src/Hub/Revocation.antt =====
-- internal/hub/control.go: exactly which connections and which subscriptions a control message ends.
use sidecartunnel.Base.{
  ℕ, ◌≡◌, refl, ap, subst, ◌∙◌, ◌≢◌, ◌⊎◌, inl, inr, ite, Bool, true, false, Option, none, some,
  List, [], ◌∷◌, arith, ℕ_discrete, if_cases, Option-cases, Bytes, codes, bytes_discrete, has, ok,
  >>=-eq-ok,
}
use sidecartunnel.Proto.{close_revoked}
use sidecartunnel.Conn.{Conn, do_close}
use sidecartunnel.Conn.Closing.{do_close-once}
use sidecartunnel.Text.{same}
use sidecartunnel.Hub.State.{Sink}
use sidecartunnel.Hub.World.{World, put_conn, remove, close_conn}
use sidecartunnel.Hub.Control.{
  Control, action_disconnect, validate, targets, close_all, or_default, apply_control, control,
}
use sidecartunnel.Hub.Invariant.{filed_under}
use sidecartunnel.Hub.Invariant.Reach.{WorldInv, WorldInv-eased}
use sidecartunnel.Hub.Kept.Controls.{close_all-kept}
use sidecartunnel.Hub.Bystanders.{
  SameEntry, SameEntry-trans, remove-SameEntry, close_conn-SameEntry, IsUntouched,
  SameEntry-IsUntouched,
}
use sidecartunnel.Hub.Gone.{remove_self, remove-IsGone}

conns-remove : (w : World) (s : Sink) → (remove w s).conns ≡ w.conns
unfolding remove
conns-remove w s = elim (Option-cases (w.hub.subs s)) [
  | inl e ↦ rw (e, remove) refl
  | inr (m, e) ↦ rw (e, remove) refl
]

-- A connection that is closed and has no mirror.
abbrev pub IsEnded : World → Sink → Type 0
IsEnded w s = ((w.conns s).closed ≡ true) × (w.hub.subs s ≡ none)

-- One target of `closeAll`.
abbrev ended : World → Sink → ℕ → Bytes → World
ended w s code reason = close_conn (remove w s) s code reason

ended_self : (w : World) (s : Sink) (code : ℕ) (reason : Bytes) → IsEnded (ended w s code reason) s
unfolding close_conn
ended_self w s code reason =
    let x = remove w s in
    let closing = put_conn x s (do_close (x.conns s) code reason true) in
    let marks = (do_close-once (x.conns s) code 0 reason [] true true).0 in
    if_cases (λ (y : World). IsEnded y s) (x.conns s).closed x (remove closing s)
      (λ e. (e, remove_self w s))
      (λ e. (
        ground (arith, ap (λ (g : Sink → Conn). (g s).closed) (conns-remove closing s), marks),
        remove_self closing s,
      ))

conns-ended :
    (w : World) (s t : Sink) (code : ℕ) (reason : Bytes)
    → s ≢ t
    → (ended w s code reason).conns t ≡ w.conns t
unfolding close_conn
conns-ended w s t code reason n =
    let x = remove w s in
    let closing = put_conn x s (do_close (x.conns s) code reason true) in
    let before = ap (λ (g : Sink → Conn). g t) (conns-remove w s) in
    if_cases (λ (y : World). y.conns t ≡ w.conns t) (x.conns s).closed x (remove closing s)
      (λ e. before)
      (λ e. ap (λ (g : Sink → Conn). g t) (conns-remove closing s) ∙ ground (arith, before))

ended-IsEnded :
    (w : World) (s t : Sink) (code : ℕ) (reason : Bytes)
    → IsEnded w t
    → IsEnded (ended w s code reason) t
unfolding close_conn
ended-IsEnded w s t code reason v = elim (ℕ_discrete s t) [
  | yes e ↦ subst (IsEnded (ended w s code reason)) e (ended_self w s code reason)
  | no n ↦
      let x = remove w s in
      let closing = put_conn x s (do_close (x.conns s) code reason true) in
      (
        ap (λ (c : Conn). c.closed) (conns-ended w s t code reason n) ∙ v.0,
        if_cases (λ (y : World). y.hub.subs t ≡ none) (x.conns s).closed x (remove closing s)
            (λ e. remove-IsGone w t s v.1)
            (λ e. remove-IsGone closing t s (remove-IsGone w t s v.1)),
      )
]

close_all-IsEnded :
    (w : World) (ss : List Sink) (code : ℕ) (reason : Bytes) (t : Sink)
    → (has ℕ_discrete t ss ≡ true) ⊎ IsEnded w t
    → IsEnded (close_all w ss code reason) t
unfolding close_all has
close_all-IsEnded w [] code reason t (inl h) = absurd (ground arith)
close_all-IsEnded w [] code reason t (inr v) = v
close_all-IsEnded w (s ∷ ss) code reason t (inr v) =
    close_all-IsEnded (ended w s code reason) ss code reason t
      (inr (ended-IsEnded w s t code reason v))
close_all-IsEnded w (s ∷ ss) code reason t (inl h) = elim (ℕ_discrete s t) [
  | yes e ↦
      close_all-IsEnded (ended w s code reason) ss code reason t
        (inr (subst (IsEnded (ended w s code reason)) e (ended_self w s code reason)))
  | no n ↦ close_all-IsEnded (ended w s code reason) ss code reason t (inl (ground arith))
]

ended-SameEntry :
    (w : World) (s t : Sink) (code : ℕ) (reason : Bytes)
    → s ≢ t
    → SameEntry w.hub (ended w s code reason).hub t
ended-SameEntry w s t code reason n =
    SameEntry-trans w.hub (remove w s).hub (ended w s code reason).hub t (remove-SameEntry w s t n)
      (close_conn-SameEntry (remove w s) s t code reason n)

close_all-SameEntry :
    (w : World) (ss : List Sink) (code : ℕ) (reason : Bytes) (t : Sink)
    → has ℕ_discrete t ss ≡ false
    → SameEntry w.hub (close_all w ss code reason).hub t
unfolding close_all has
close_all-SameEntry w [] code reason t h = (refl, refl)
close_all-SameEntry w (s ∷ ss) code reason t h =
    SameEntry-trans w.hub (ended w s code reason).hub
      (close_all (ended w s code reason) ss code reason).hub t
      (ended-SameEntry w s t code reason (ground arith))
      (close_all-SameEntry (ended w s code reason) ss code reason t (ground arith))

conns-close_all :
    (w : World) (ss : List Sink) (code : ℕ) (reason : Bytes) (t : Sink)
    → has ℕ_discrete t ss ≡ false
    → (close_all w ss code reason).conns t ≡ w.conns t
unfolding close_all has
conns-close_all w [] code reason t h = refl
conns-close_all w (s ∷ ss) code reason t h =
    conns-close_all (ended w s code reason) ss code reason t (ground arith)
    ∙ conns-ended w s t code reason (ground arith)

abbrev pub named_by : Option Sink → Sink → Bool
named_by none s = false
named_by (some x) s = ite (ℕ_discrete x s) true false

-- Whether a message names the connection: by its client id, where the message has one, else by the
-- user under which the connection is filed.
abbrev pub is_target : World → Bytes → Bytes → Sink → Bool
is_target w user client s =
    ite (bytes_discrete client []) (filed_under (w.hub.user_of s) user)
      (named_by (w.hub.clients client) s)

pub has-targets :
    (w : World) (c : Control) (s : Sink)
    → WorldInv w
    → has ℕ_discrete s (targets w.hub c) ≡ is_target w c.user c.client s
unfolding targets same has
has-targets w c s v = elim (bytes_discrete c.client []) [
  | yes e ↦ ground (arith, v.indexed.filed s c.user)
  | no n ↦ elim (Option-cases (w.hub.clients c.client)) [
    | inl q ↦ ground arith
    | inr (x, q) ↦ ground arith
  ]
]

-- A disconnect that is valid, in a state in which the maps agree: every connection that the message
-- names is closed and deregistered; and of every other connection nothing changes, neither its own
-- state nor its subscriptions, nor its place in the channels and in both indexes.
pub control-disconnects :
    (w w' : World) (c : Control) (s : Sink)
    → WorldInv w
    → c.action ≡ action_disconnect
    → control w c ≡ ok w'
    → (is_target w c.user c.client s ≡ true → IsEnded w' s)
      × (is_target w c.user c.client s ≡ false → IsUntouched w w' s)
unfolding control apply_control same
control-disconnects w w' c s v a r =
    let (p, _, e) = >>=-eq-ok (validate c) _ r in
    let reason = or_default c.reason (codes "revoked") in
    let found = targets w.hub c in
    let q : close_all w found close_revoked reason ≡ w' = ground arith in
    let t = has-targets w c s v in
    let v' = close_all-kept WorldInv-eased w found close_revoked reason v in
    rw (← q) (
      λ h. close_all-IsEnded w found close_revoked reason s (inl (t ∙ h)),
      λ h.
          SameEntry-IsUntouched w (close_all w found close_revoked reason) s v v'
            (conns-close_all w found close_revoked reason s (t ∙ h))
            (close_all-SameEntry w found close_revoked reason s (t ∙ h)),
    )

-- ===== src/Hub/Bystanders.antt =====
-- internal/hub: what a call that ends one connection leaves of the others.
use sidecartunnel.Base.{
  ℕ, ◌≡◌, refl, sym, ap, ◌∙◌, ◌≢◌, inl, inr, Bool, true, false, some, List, arith, ℕ_discrete,
  if_cases, Option-cases, Bytes, bytes_discrete, has,
}
use sidecartunnel.Conn.{Conn, do_close}
use sidecartunnel.Hub.State.{Sink, Hub, members, present}
use sidecartunnel.Hub.Registry.{detach_all, deregister, unfile, drop_from_user, remove_locked}
use sidecartunnel.Hub.World.{World, id_of, put_conn, mark_if, remove, close_conn}
use sidecartunnel.Hub.Invariant.Detach.{detach_all-OnlySubs, detach_all-others}
use sidecartunnel.Hub.Invariant.{filed_under}
use sidecartunnel.Hub.Invariant.Reach.{WorldInv}
use sidecartunnel.Hub.Gone.{subs-remove_locked}

-- The registry's own entries of a connection.
abbrev pub SameEntry : Hub → Hub → Sink → Type 0
SameEntry h h' t = (h'.subs t ≡ h.subs t) × (h'.user_of t ≡ h.user_of t)

pub SameEntry-trans : (a b c : Hub) (t : Sink) → SameEntry a b t → SameEntry b c t → SameEntry a c t
SameEntry-trans a b c t p q = (q.0 ∙ p.0, q.1 ∙ p.1)

user_of-remove_locked :
    (h : Hub) (s t : Sink) (id : Bytes) (mirror : List Bytes)
    → s ≢ t
    → (remove_locked h s id mirror).0.user_of t ≡ h.user_of t
unfolding remove_locked deregister unfile drop_from_user
user_of-remove_locked h s t id mirror n =
    let h' = (detach_all h s mirror).0 in
    let kept : h'.user_of t ≡ h.user_of t =
      ap (λ (x : Hub). x.user_of t) (detach_all-OnlySubs h s mirror) in
    elim (Option-cases (h'.user_of s)) [
      | inl e ↦ rw (e, unfile) kept
      | inr (u, e) ↦ rw (e, unfile) (ground (arith, kept))
    ]

pub mark_if-SameEntry : (b : Bool) (h : Hub) (t : Sink) → SameEntry h (mark_if b h) t
unfolding mark_if
mark_if-SameEntry true h t = (refl, refl)
mark_if-SameEntry false h t = (refl, refl)

pub remove-SameEntry : (w : World) (s t : Sink) → s ≢ t → SameEntry w.hub (remove w s).hub t
unfolding remove
remove-SameEntry w s t n = elim (Option-cases (w.hub.subs s)) [
  | inl e ↦ rw (e, remove) (refl, refl)
  | inr (m, e) ↦
      let r = remove_locked w.hub s (id_of w s) m in
      let kept : SameEntry w.hub r.0 t = (
        ground (arith, subs-remove_locked w.hub s (id_of w s) m, detach_all-others w.hub s t m n),
        user_of-remove_locked w.hub s t (id_of w s) m n,
      ) in
      rw (e, remove)
        (SameEntry-trans w.hub r.0 (mark_if (r.1) (r.0)) t kept (mark_if-SameEntry (r.1) (r.0) t))
]

pub close_conn-SameEntry :
    (w : World) (s t : Sink) (code : ℕ) (reason : Bytes)
    → s ≢ t
    → SameEntry w.hub (close_conn w s code reason).hub t
unfolding close_conn
close_conn-SameEntry w s t code reason n =
    if_cases (λ (y : World). SameEntry w.hub y.hub t) (w.conns s).closed w _ (λ _. (refl, refl))
      (λ _. remove-SameEntry (put_conn w s (do_close (w.conns s) code reason true)) s t n)

-- A connection as it was, in all that the replica knows of it.
pub record IsUntouched (w w' : World) (t : Sink) : Type 0 where
  pub conn : w'.conns t ≡ w.conns t
  pub mirror : w'.hub.subs t ≡ w.hub.subs t
  pub owner : w'.hub.user_of t ≡ w.hub.user_of t
  pub listed :
      (k : Bytes)
      → has ℕ_discrete t (members (w'.hub.channels k))
        ≡ has ℕ_discrete t (members (w.hub.channels k))
  pub filed :
      (u : Bytes)
      → has ℕ_discrete t (members (w'.hub.users u)) ≡ has ℕ_discrete t (members (w.hub.users u))
  pub named : present (w.hub.subs t) ≡ true → w'.hub.clients (id_of w t) ≡ some t

-- The maps agree, so the connection's own entries decide the others.
pub SameEntry-IsUntouched :
    (w w' : World) (t : Sink)
    → WorldInv w
    → WorldInv w'
    → w'.conns t ≡ w.conns t
    → SameEntry w.hub w'.hub t
    → IsUntouched w w' t
SameEntry-IsUntouched w w' t v v' c (m, o) = record {
  conn = c;
  mirror = m;
  owner = o;
  listed = λ k.
      sym (v'.mirrored.agree t k)
      ∙ (ap (λ l. has bytes_discrete k (members l)) m ∙ v.mirrored.agree t k);
  filed = λ u. v'.indexed.filed t u ∙ (ap (λ o. filed_under o u) o ∙ sym (v.indexed.filed t u));
  named = λ p.
      ap (λ x. w'.hub.clients x) (sym (ap (λ (x : Conn). x.id) c))
      ∙ v'.indexed.named t (ap present m ∙ p);
}

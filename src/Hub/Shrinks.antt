-- ===== src/Hub/Shrinks.antt =====
-- internal/hub/hub.go: which bodies under the lock give no channel to any connection, and what the one that does
-- gives.
use sidecartunnel.Base.{
  ◌≡◌, refl, sym, ap, subst, ◌∙◌, ◌⊎◌, inl, inr, Bool, true, false, Option, none, some, List, [],
  ◌∷◌, arith, ℕ_discrete, ◌==◌, Bool-cases, Option-cases, Bytes, bytes_discrete, update, has,
  has-include, has-exclude, ok,
}
use sidecartunnel.Hub.State.{Sink, Hub, members, mark_dirty}
use sidecartunnel.Hub.Registry.{
  unmirror, detach, drop_locked, drop_from_user, insert_into, insert_locked, register, index_user,
  file_user, detach_all, deregister, unfile, remove_locked,
}
use sidecartunnel.Hub.World.{World, id_of, mark_if, remove}
use sidecartunnel.Hub.Invariant.Detach.{detach-OnlySubs, detach-subs}
use sidecartunnel.Hub.Gone.{subs-index_user, subs-remove_locked}

abbrev pub holds : Hub → Sink → Bytes → Bool
holds h s k = has bytes_discrete k (members (h.subs s))

-- Every channel that a connection holds in `h'` it holds in `h`.
pub record Shrinks (h h' : Hub) : Type 0 where
  pub prefix : h'.prefix ≡ h.prefix
  pub held : (s : Sink) (k : Bytes) → holds h' s k ≡ true → holds h s k ≡ true

pub Shrinks-refl : (h : Hub) → Shrinks h h
Shrinks-refl h = record { prefix = refl; held = λ s k e. e }

pub Shrinks-trans : (a b c : Hub) → Shrinks a b → Shrinks b c → Shrinks a c
Shrinks-trans a b c p q = record {
  prefix = q.prefix ∙ p.prefix;
  held = λ s k e. p.held s k (q.held s k e);
}

-- A body that leaves the subscriptions alone.
pub same-Shrinks : (h h' : Hub) → h'.prefix ≡ h.prefix → h'.subs ≡ h.subs → Shrinks h h'
same-Shrinks h h' p e = record {
  prefix = p;
  held = λ s k held. subst (λ m. has bytes_discrete k (members (m s)) ≡ true) e held;
}

unmirror-holds :
    (h : Hub) (s t : Sink) (k j : Bytes) (m : Option (List Bytes))
    → h.subs s ≡ m
    → has bytes_discrete j (members (unmirror h s k m t)) ≡ true
    → holds h t j ≡ true
unfolding unmirror
unmirror-holds h s t k j none e held = held
unmirror-holds h s t k j (some m) e held = elim (ℕ_discrete s t) [
  | yes p ↦ ground (arith, has-exclude bytes_discrete k j m)
  | no n ↦ ground arith
]

pub detach-Shrinks : (h : Hub) (s : Sink) (k : Bytes) → Shrinks h (detach h s k).0
detach-Shrinks h s k = record {
  prefix = ap (λ (x : Hub). x.prefix) (detach-OnlySubs h s k);
  held = λ t j e.
      unmirror-holds h s t k j (h.subs s) refl
        (subst (λ m. has bytes_discrete j (members (m t)) ≡ true) (detach-subs h s k) e);
}

pub drop_locked-Shrinks :
    (h h' : Hub) (s : Sink) (k : Bytes) (last : Bool)
    → drop_locked h s k ≡ ok (h', last)
    → Shrinks h h'
unfolding drop_locked
drop_locked-Shrinks h h' s k last r = elim (Option-cases (h.subs s)) [
  | inl e ↦ absurd (ground arith)
  | inr (m, e) ↦
      let q : (detach h s k).0 ≡ h' = ground arith in subst (Shrinks h) q (detach-Shrinks h s k)
]

detach_all-Shrinks : (h : Hub) (s : Sink) (ks : List Bytes) → Shrinks h (detach_all h s ks).0
unfolding detach_all
detach_all-Shrinks h s [] = Shrinks-refl h
detach_all-Shrinks h s (k ∷ ks) =
    Shrinks-trans h (detach h s k).0 (detach_all (detach h s k).0 s ks).0 (detach-Shrinks h s k)
      (detach_all-Shrinks (detach h s k).0 s ks)

prefix-index_user : (h : Hub) (s : Sink) (u : Bytes) → (index_user h s u).prefix ≡ h.prefix
unfolding index_user drop_from_user file_user
prefix-index_user h s u = ground arith

pub index_user-Shrinks : (h : Hub) (s : Sink) (u : Bytes) → Shrinks h (index_user h s u)
index_user-Shrinks h s u =
    same-Shrinks h (index_user h s u) (prefix-index_user h s u) (subs-index_user h s u)

-- A connection that is registered for the first time holds nothing.
pub register-Shrinks :
    (h h' : Hub) (s : Sink) (id user : Bytes) → register h s id user ≡ ok h' → Shrinks h h'
unfolding register has
register-Shrinks h h' s id user r = elim (Option-cases (h.clients id)) [
  | inl e ↦
      let h1 : Hub = record h {
        subs = update ℕ_discrete h.subs s (some []);
        clients = update bytes_discrete h.clients id (some s);
      } in
      let q : index_user h1 s user ≡ h' = ground arith in
      let emptied : Shrinks h h1 = record { prefix = refl; held = λ t k held. ground arith } in
      subst (Shrinks h) q
        (Shrinks-trans h h1 (index_user h1 s user) emptied (index_user-Shrinks h1 s user))
  | inr (x, e) ↦ elim (Bool-cases (x == s)) [
    | inl same ↦
        let q : index_user h s user ≡ h' = ground arith in
        subst (Shrinks h) q (index_user-Shrinks h s user)
    | inr other ↦ absurd (ground arith)
  ]
]

prefix-unfile : (h : Hub) (s : Sink) (u : Option Bytes) → (unfile h s u).prefix ≡ h.prefix
unfolding unfile drop_from_user
prefix-unfile h s none = refl
prefix-unfile h s (some u) = refl

remove_locked-Shrinks :
    (h : Hub) (s : Sink) (id : Bytes) (m : List Bytes) → Shrinks h (remove_locked h s id m).0
unfolding remove_locked deregister has
remove_locked-Shrinks h s id m =
    let all = (detach_all h s m).0 in
    let shrunk = detach_all-Shrinks h s m in
    record {
      prefix = prefix-unfile (deregister all s id) s (all.user_of s) ∙ shrunk.prefix;
      held = λ t k e. shrunk.held t k (ground (arith, subs-remove_locked h s id m, e));
    }

marked-Shrinks : (h h' : Hub) (b : Bool) → Shrinks h h' → Shrinks h (mark_if b h')
unfolding mark_if mark_dirty
marked-Shrinks h h' true p = record { prefix = p.prefix; held = p.held }
marked-Shrinks h h' false p = p

pub remove-Shrinks : (w : World) (s : Sink) → Shrinks w.hub (remove w s).hub
unfolding remove mark_if
remove-Shrinks w s = elim (Option-cases (w.hub.subs s)) [
  | inl e ↦ rw (e, remove) (Shrinks-refl w.hub)
  | inr (m, e) ↦
      let r = remove_locked w.hub s (id_of w s) m in
      rw (e, remove) (marked-Shrinks w.hub r.0 r.1 (remove_locked-Shrinks w.hub s (id_of w s) m))
]

inserted-held :
    (h : Hub) (s t : Sink) (k j : Bytes) (m : List Bytes) (set : List Sink)
    → h.subs s ≡ some m
    → holds (insert_into h s k m set).0 t j ≡ true
    → ((t ≡ s) × (j ≡ k)) ⊎ (holds h t j ≡ true)
unfolding insert_into
inserted-held h s t k j m set e held = elim (ℕ_discrete s t) [
  | no n ↦ inr (ground arith)
  | yes p ↦ elim (bytes_discrete k j) [
    | yes same ↦ inl (sym p, sym same)
    | no other ↦ inr (ground (arith, has-include bytes_discrete k j m))
  ]
]

-- The connection that is given a channel, and no other, holds one more.
pub insert_locked-held :
    (h h' : Hub) (s : Sink) (k : Bytes) (first : Bool)
    → insert_locked h s k ≡ ok (h', first)
    → (h'.prefix ≡ h.prefix)
      × ((t : Sink) (j : Bytes) → holds h' t j ≡ true → ((t ≡ s) × (j ≡ k)) ⊎ (holds h t j ≡ true))
unfolding insert_locked insert_into
insert_locked-held h h' s k first r = elim (Option-cases (h.subs s)) [
  | inl e ↦ absurd (ground arith)
  | inr (m, e) ↦
      let q : (insert_into h s k m (members (h.channels k))).0 ≡ h' = ground arith in
      (
        ap (λ (x : Hub). x.prefix) (sym q),
        λ t j held.
            inserted-held h s t k j m (members (h.channels k)) e
              (subst (λ (x : Hub). holds x t j ≡ true) (sym q) held),
      )
]

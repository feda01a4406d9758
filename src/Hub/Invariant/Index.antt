-- ===== src/Hub/Invariant/Index.antt =====
-- internal/hub/hub.go: the user index and the client index follow the registration.
use sidecartunnel.Base.{
  ◌≡◌, refl, ◌≢◌, inl, inr, ite, true, Option, none, some, List, [], ◌∷◌, arith, ℕ_discrete,
  Bool-cases, Option-cases, Bytes, bytes_discrete, update, has, exclude, has-include, has-exclude,
  ok,
}
use sidecartunnel.Text.{same}
use sidecartunnel.Hub.State.{Sink, Hub, members, present}
use sidecartunnel.Hub.Registry.{unless_empty, drop_from_user, file_user, index_user, register}
use sidecartunnel.Hub.Invariant.{IsIndexed, filed_under}

-- The part of the invariant that is about users.
abbrev pub IsFiled : Hub → Type 0
IsFiled h =
    (s : Sink) (u : Bytes) → has ℕ_discrete s (members (h.users u)) ≡ filed_under (h.user_of s) u

members-unless_empty : (xs : List Sink) → members (unless_empty xs) ≡ xs
unfolding unless_empty
members-unless_empty [] = refl
members-unless_empty (x ∷ xs) = refl

pub drop_from_user-IsFiled :
    (h : Hub) (s : Sink) (user : Bytes)
    → IsFiled h
    → h.user_of s ≡ some user
    → IsFiled (drop_from_user h s user)
unfolding drop_from_user
drop_from_user-IsFiled h s user f e t u = ground (
  arith,
  f t u,
  f t user,
  f s u,
  members-unless_empty (exclude ℕ_discrete s (members (h.users user))),
  has-exclude ℕ_discrete s t (members (h.users user)),
)

file_user-IsFiled :
    (h : Hub) (s : Sink) (user : Bytes)
    → IsFiled h
    → h.user_of s ≡ none
    → IsFiled (file_user h s user)
unfolding file_user
file_user-IsFiled h s user f e t u =
    ground (arith, f t u, f s u, f t user, has-include ℕ_discrete s t (members (h.users user)))

user_of-drop : (h : Hub) (s : Sink) (user : Bytes) → (drop_from_user h s user).user_of s ≡ none
unfolding drop_from_user
user_of-drop h s user = ground arith

pub index_user-IsFiled :
    (h : Hub) (s : Sink) (user : Bytes) → IsFiled h → IsFiled (index_user h s user)
unfolding index_user
index_user-IsFiled h s user f = elim (Option-cases (h.user_of s)) [
  | inl e ↦ rw (e, index_user) (file_user-IsFiled h s user f e)
  | inr (filed, e) ↦ elim (Bool-cases (same filed user)) [
    | inl q ↦ rw (e, index_user, q) f
    | inr q ↦
        rw (e, index_user, q)
          (file_user-IsFiled (drop_from_user h s filed) s user
            (drop_from_user-IsFiled h s filed f e) (user_of-drop h s filed))
  ]
]

-- `index_user` touches the two user maps only.
abbrev pub with_users : Hub → (Bytes → Option (List Sink)) → (Sink → Option Bytes) → Hub
with_users h us of = record h { users = us; user_of = of }

pub index_user-with_users :
    (h : Hub) (s : Sink) (user : Bytes)
    → let h' = index_user h s user in h' ≡ with_users h h'.users h'.user_of
unfolding index_user drop_from_user file_user
index_user-with_users h s user = elim (Option-cases (h.user_of s)) [
  | inl e ↦ rw (e, index_user) refl
  | inr (filed, e) ↦ elim (Bool-cases (same filed user)) [
    | inl q ↦ rw (e, index_user, q) refl
    | inr q ↦ rw (e, index_user, q) refl
  ]
]

pub index_user-present :
    (h : Hub) (s t : Sink) (user : Bytes)
    → present ((index_user h s user).user_of t) ≡ ite (ℕ_discrete s t) true (present (h.user_of t))
unfolding index_user drop_from_user file_user
index_user-present h s t user = ground arith

module _ (ids : Sink → Bytes) where
  -- Filing `s` completes the index where only its own entry may be missing.
  index_user-completes :
      (h : Hub) (s : Sink) (user : Bytes)
      → IsFiled h
      → ((t : Sink) → s ≢ t → present (h.user_of t) ≡ present (h.subs t))
      → present (h.subs s) ≡ true
      → ((t : Sink) → present (h.subs t) ≡ true → h.clients (ids t) ≡ some t)
      → ((i : Bytes) (t : Sink) → h.clients i ≡ some t → (ids t ≡ i) × (present (h.subs t) ≡ true))
      → IsIndexed ids (index_user h s user)
  index_user-completes h s user f others p named held =
      let h' = index_user h s user in
      let e : h' ≡ with_users h h'.users h'.user_of = index_user-with_users h s user in
      rw e (record {
        filed = index_user-IsFiled h s user f;
        filed_present = λ t. ground (arith, others t, index_user-present h s t user);
        named = named;
        held = held;
      })

  -- A registered connection may be filed anew.
  pub index_user-IsIndexed :
      (h : Hub) (s : Sink) (user : Bytes)
      → IsIndexed ids h
      → present (h.subs s) ≡ true
      → IsIndexed ids (index_user h s user)
  index_user-IsIndexed h s user x p =
      index_user-completes h s user x.filed (λ t _. x.filed_present t) p x.named x.held

  -- The registration of a new connection, before it is filed.
  abbrev pub registered : Hub → Sink → Hub
  registered h s = record h {
    subs = update ℕ_discrete h.subs s (some []);
    clients = update bytes_discrete h.clients (ids s) (some s);
  }

  register_new-IsIndexed :
      (h : Hub) (s : Sink) (user : Bytes)
      → IsIndexed ids h
      → h.clients (ids s) ≡ none
      → IsIndexed ids (index_user (registered h s) s user)
  register_new-IsIndexed h s user x e =
      index_user-completes (registered h s) s user x.filed
        (λ t n. ground (arith, x.filed_present t)) (ground arith) (λ t p. ground (arith, x.named t))
        (λ i t q. ground (arith, x.held i t))

  pub register-IsIndexed :
      (h h' : Hub) (s : Sink) (user : Bytes)
      → IsIndexed ids h
      → register h s (ids s) user ≡ ok h'
      → IsIndexed ids h'
  unfolding register
  register-IsIndexed h h' s user x r = elim (Option-cases (h.clients (ids s))) [
    | inl e ↦
        let q : index_user (registered h s) s user ≡ h' = ground arith in
        rw (← q) (register_new-IsIndexed h s user x e)
    | inr (t, e) ↦
        let q : index_user h s user ≡ h' = ground arith in
        rw (← q) (index_user-IsIndexed h s user x (ground (arith, x.held (ids s) t)))
  ]

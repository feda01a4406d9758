-- ===== src/Hub/Told.antt =====
-- internal/hub/hub.go: the bodies under the lock tell whether they have changed the desired set.
use sidecartunnel.Base.{
  ◌≡◌, refl, subst, ◌∙◌, inl, inr, Bool, true, false, ◌||◌, Option, none, some, List, [], ◌∷◌,
  arith, ℕ_discrete, ◌==◌, if_cases, Bool-cases, Option-cases, Bytes, bytes_discrete, update,
  exclude, ok, Result-cases,
}
use sidecartunnel.Hub.State.{Sink, Hub, members, key, admit}
use sidecartunnel.Hub.Registry.{
  detach, drop_locked, insert_into, insert_locked, register, attach_loop, index_user, file_user,
  drop_from_user, leave_holders, unmirror, detach_all, deregister, unfile, remove_locked,
}

-- The marks are as they were, and the set is where the body says that it has changed nothing.
pub record IsTold (h h' : Hub) (changed : Bool) : Type 0 where
  pub dirty : h'.dirty ≡ h.dirty
  pub wake : h'.wake ≡ h.wake
  pub desired : changed ≡ false → h'.desired ≡ h.desired

pub same-IsTold : (h : Hub) → IsTold h h false
same-IsTold h = record { dirty = refl; wake = refl; desired = λ e. refl }

pub then-IsTold : (a b c : Hub) (p q : Bool) → IsTold a b p → IsTold b c q → IsTold a c (p || q)
then-IsTold a b c true q t u = record {
  dirty = u.dirty ∙ t.dirty;
  wake = u.wake ∙ t.wake;
  desired = λ e. absurd (cc e);
}
then-IsTold a b c false q t u = record {
  dirty = u.dirty ∙ t.dirty;
  wake = u.wake ∙ t.wake;
  desired = λ e. u.desired e ∙ t.desired refl;
}

-- A body that first leaves the set alone.
pub after-IsTold : (a b c : Hub) (q : Bool) → IsTold a b false → IsTold b c q → IsTold a c q
after-IsTold a b c q t u = then-IsTold a b c false q t u

drop_from_user-IsTold : (h : Hub) (s : Sink) (u : Bytes) → IsTold h (drop_from_user h s u) false
unfolding drop_from_user
drop_from_user-IsTold h s u = record { dirty = refl; wake = refl; desired = λ e. refl }

file_user-IsTold : (h : Hub) (s : Sink) (u : Bytes) → IsTold h (file_user h s u) false
unfolding file_user
file_user-IsTold h s u = record { dirty = refl; wake = refl; desired = λ e. refl }

pub index_user-IsTold : (h : Hub) (s : Sink) (u : Bytes) → IsTold h (index_user h s u) false
unfolding index_user
index_user-IsTold h s u = elim (Option-cases (h.user_of s)) [
  | inl e ↦ rw (e, index_user) (file_user-IsTold h s u)
  | inr (v, e) ↦
      rw (e, index_user)
        (if_cases (λ x. IsTold h x false) _ h (file_user (drop_from_user h s v) s u)
          (λ _. same-IsTold h)
          (λ _.
            after-IsTold h (drop_from_user h s v) _ false (drop_from_user-IsTold h s v)
              (file_user-IsTold (drop_from_user h s v) s u)))
]

pub register-IsTold :
    (h h' : Hub) (s : Sink) (id user : Bytes) → register h s id user ≡ ok h' → IsTold h h' false
unfolding register
register-IsTold h h' s id user r = elim (Option-cases (h.clients id)) [
  | inl e ↦
      let h1 : Hub = record h {
        subs = update ℕ_discrete h.subs s (some []);
        clients = update bytes_discrete h.clients id (some s);
      } in
      let q : index_user h1 s user ≡ h' = ground arith in
      subst (λ (x : Hub). IsTold h x false) q
        (after-IsTold h h1 _ false (record { dirty = refl; wake = refl; desired = λ e. refl })
          (index_user-IsTold h1 s user))
  | inr (x, e) ↦ elim (Bool-cases (x == s)) [
    | inl same ↦
        let q : index_user h s user ≡ h' = ground arith in
        subst (λ (x : Hub). IsTold h x false) q (index_user-IsTold h s user)
    | inr other ↦ absurd (ground arith)
  ]
]

insert_into-IsTold :
    (h : Hub) (s : Sink) (k : Bytes) (mirror : List Bytes) (set : List Sink)
    → IsTold h (insert_into h s k mirror set).0 (insert_into h s k mirror set).1
unfolding insert_into
insert_into-IsTold h s k mirror set = record {
  dirty = refl;
  wake = refl;
  desired = λ e. ground (arith, e);
}

pub insert_locked-IsTold :
    (h h' : Hub) (s : Sink) (k : Bytes) (first : Bool)
    → insert_locked h s k ≡ ok (h', first)
    → IsTold h h' first
unfolding insert_locked
insert_locked-IsTold h h' s k first r = elim (Option-cases (h.subs s)) [
  | inl e ↦ absurd (ground arith)
  | inr (m, e) ↦
      let q : insert_into h s k m (members (h.channels k)) ≡ (h', first) = ground arith in
      subst (λ (x : Hub × Bool). IsTold h x.0 x.1) q
        (insert_into-IsTold h s k m (members (h.channels k)))
]

leave_holders-IsTold :
    (h : Hub) (k : Bytes) (left : List Sink)
    → IsTold h (leave_holders h k left).0 (leave_holders h k left).1
unfolding leave_holders
leave_holders-IsTold h k [] = record { dirty = refl; wake = refl; desired = λ e. absurd (cc e) }
leave_holders-IsTold h k (x ∷ left) = record { dirty = refl; wake = refl; desired = λ e. refl }

pub detach-IsTold : (h : Hub) (s : Sink) (k : Bytes) → IsTold h (detach h s k).0 (detach h s k).1
unfolding detach
detach-IsTold h s k =
    let h1 : Hub = record h { subs = unmirror h s k (h.subs s) } in
    after-IsTold h h1 _ _ (record { dirty = refl; wake = refl; desired = λ e. refl })
      (leave_holders-IsTold h1 k (exclude ℕ_discrete s (members (h.channels k))))

pub drop_locked-IsTold :
    (h h' : Hub) (s : Sink) (k : Bytes) (last : Bool)
    → drop_locked h s k ≡ ok (h', last)
    → IsTold h h' last
unfolding drop_locked
drop_locked-IsTold h h' s k last r = elim (Option-cases (h.subs s)) [
  | inl e ↦ absurd (ground arith)
  | inr (m, e) ↦
      let q : detach h s k ≡ (h', last) = ground arith in
      subst (λ (x : Hub × Bool). IsTold h x.0 x.1) q (detach-IsTold h s k)
]

pub detach_all-IsTold :
    (h : Hub) (s : Sink) (ks : List Bytes) → IsTold h (detach_all h s ks).0 (detach_all h s ks).1
unfolding detach_all
detach_all-IsTold h s [] = same-IsTold h
detach_all-IsTold h s (k ∷ ks) =
    then-IsTold h (detach h s k).0 _ _ _ (detach-IsTold h s k)
      (detach_all-IsTold (detach h s k).0 s ks)

unfile-IsTold : (h : Hub) (s : Sink) (filed : Option Bytes) → IsTold h (unfile h s filed) false
unfolding unfile
unfile-IsTold h s none = same-IsTold h
unfile-IsTold h s (some u) = drop_from_user-IsTold h s u

pub remove_locked-IsTold :
    (h : Hub) (s : Sink) (id : Bytes) (m : List Bytes)
    → IsTold h (remove_locked h s id m).0 (remove_locked h s id m).1
unfolding remove_locked deregister
remove_locked-IsTold h s id m =
    let r = detach_all h s m in
    let t = detach_all-IsTold h s m in
    let u = unfile-IsTold (deregister r.0 s id) s (r.0.user_of s) in
    record {
      dirty = u.dirty ∙ t.dirty;
      wake = u.wake ∙ t.wake;
      desired = λ e. u.desired refl ∙ t.desired e;
    }

pub attach_loop-IsTold :
    (h : Hub) (s : Sink) (channels : List Bytes)
    → IsTold h (attach_loop h s channels).0 (attach_loop h s channels).2
unfolding attach_loop
attach_loop-IsTold h s [] = same-IsTold h
attach_loop-IsTold h s (channel ∷ channels) = elim (Option-cases (admit h channel)) [
  | inr (x, a) ↦ rw (a, attach_loop) (attach_loop-IsTold h s channels)
  | inl a ↦ elim (Result-cases (insert_locked h s (key h channel))) [
    | inr (x, r) ↦ rw (a, r, attach_loop) (attach_loop-IsTold h s channels)
    | inl ((h', first), r) ↦
        rw (a, r, attach_loop)
          (then-IsTold h h' _ first _ (insert_locked-IsTold h h' s (key h channel) first r)
            (attach_loop-IsTold h' s channels))
  ]
]

-- ===== src/Hub/Gone.antt =====
-- internal/hub/hub.go: a connection that has been removed is not brought back by a call that was
-- already on its way. Only `Add` registers one.
use sidecartunnel.Base.{
  ◌≡◌, ◌≢◌, inl, inr, Bool, false, none, some, List, [], ◌∷◌, arith, ℕ_discrete, Option-cases,
  Bytes, All, update, has, ok, Result-cases,
}
use sidecartunnel.Hub.State.{Sink, Hub, members, key, admit}
use sidecartunnel.Hub.Registry.{
  detach, drop_locked, insert_into, insert_locked, register, reindex, attach_loop, index_user,
  detach_all, deregister, remove_locked,
}
use sidecartunnel.Hub.World.{World, id_of, user_in, mark_if, remove, attach_registered}
use sidecartunnel.Hub.System.{Call, run}
use sidecartunnel.Hub.Invariant.Reach.{WorldInv, WorldInv-kept}
use sidecartunnel.Hub.Kept.{IsKept}
use sidecartunnel.Hub.Kept.Controls.{Permits, run-kept}

-- The connection has no mirror: it is not registered.
abbrev pub IsGone : Sink → Hub → Type 0
IsGone s h = h.subs s ≡ none

pub subs-index_user : (h : Hub) (t : Sink) (u : Bytes) → (index_user h t u).subs ≡ h.subs
unfolding index_user
subs-index_user h t u = elim (Option-cases (h.user_of t)) [
  | inl e ↦ ground arith
  | inr (v, e) ↦ ground arith
]

pub detach-IsGone : (h : Hub) (s t : Sink) (k : Bytes) → IsGone s h → IsGone s (detach h t k).0
unfolding detach
detach-IsGone h s t k e = elim (Option-cases (h.subs t)) [
  | inl f ↦ ground arith
  | inr (m, f) ↦ ground arith
]

insert_locked-IsGone :
    (h h' : Hub) (s t : Sink) (k : Bytes) (first : Bool)
    → IsGone s h
    → insert_locked h t k ≡ ok (h', first)
    → IsGone s h'
unfolding insert_locked
insert_locked-IsGone h h' s t k first e r = elim (Option-cases (h.subs t)) [
  | inl f ↦ absurd (ground arith)
  | inr (m, f) ↦
      let q : (insert_into h t k m (members (h.channels k))).0 ≡ h' = ground arith in
      rw (← q) (ground arith)
]

register-IsGone :
    (h h' : Hub) (s t : Sink) (id user : Bytes)
    → IsGone s h
    → t ≢ s
    → register h t id user ≡ ok h'
    → IsGone s h'
unfolding register
register-IsGone h h' s t id user e n r = elim (Option-cases (h.clients id)) [
  | inl f ↦ ground arith
  | inr (x, f) ↦ ground (arith, subs-index_user h t user)
]

attach_loop-IsGone :
    (h : Hub) (s t : Sink) (channels : List Bytes)
    → IsGone s h
    → IsGone s (attach_loop h t channels).0
unfolding attach_loop
attach_loop-IsGone h s t [] e = e
attach_loop-IsGone h s t (channel ∷ channels) e = elim (Option-cases (admit h channel)) [
  | inr (x, a) ↦ rw (a, attach_loop) (attach_loop-IsGone h s t channels e)
  | inl a ↦ elim (Result-cases (insert_locked h t (key h channel))) [
    | inr (x, r) ↦ rw (a, r, attach_loop) (attach_loop-IsGone h s t channels e)
    | inl ((h', first), r) ↦
        rw (a, r, attach_loop)
          (attach_loop-IsGone h' s t channels
            (insert_locked-IsGone h h' s t (key h channel) first e r))
  ]
]

attach_registered-IsGone :
    (h : Hub) (s t : Sink) (user : Bytes) (channels : List Bytes)
    → IsGone s h
    → IsGone s (attach_registered (reindex h t user) t channels).0
unfolding reindex attach_registered
attach_registered-IsGone h s t user channels e = elim (Option-cases (h.subs t)) [
  | inl f ↦ rw (f, reindex) e
  | inr (m, f) ↦
      rw (f, reindex)
        (attach_loop-IsGone (index_user h t user) s t channels (rw (subs-index_user h t user) e))
]

drop_locked-IsGone :
    (h h' : Hub) (s t : Sink) (k : Bytes) (last : Bool)
    → IsGone s h
    → drop_locked h t k ≡ ok (h', last)
    → IsGone s h'
unfolding drop_locked
drop_locked-IsGone h h' s t k last e r = elim (Option-cases (h.subs t)) [
  | inl f ↦ absurd (ground arith)
  | inr (m, f) ↦ let q : (detach h t k).0 ≡ h' = ground arith in rw (← q) (detach-IsGone h s t k e)
]

detach_all-IsGone :
    (h : Hub) (s t : Sink) (ks : List Bytes) → IsGone s h → IsGone s (detach_all h t ks).0
unfolding detach_all
detach_all-IsGone h s t [] e = e
detach_all-IsGone h s t (k ∷ ks) e =
    detach_all-IsGone (detach h t k).0 s t ks (detach-IsGone h s t k e)

pub subs-remove_locked :
    (h : Hub) (t : Sink) (id : Bytes) (m : List Bytes)
    → (remove_locked h t id m).0.subs ≡ update ℕ_discrete (detach_all h t m).0.subs t none
unfolding remove_locked deregister
subs-remove_locked h t id m = elim (Option-cases ((detach_all h t m).0.user_of t)) [
  | inl f ↦ ground arith
  | inr (u, f) ↦ ground arith
]

pub remove-IsGone : (w : World) (s t : Sink) → IsGone s w.hub → IsGone s (remove w t).hub
unfolding remove mark_if
remove-IsGone w s t e = elim (Option-cases (w.hub.subs t)) [
  | inl f ↦ rw (f, remove) e
  | inr (m, f) ↦
      let r = remove_locked w.hub t (id_of w t) m in
      ground (arith, subs-remove_locked w.hub t (id_of w t) m, detach_all-IsGone w.hub s t m e)
]

pub remove_self : (w : World) (s : Sink) → IsGone s (remove w s).hub
unfolding remove mark_if
remove_self w s = elim (Option-cases (w.hub.subs s)) [
  | inl f ↦ rw (f, remove) f
  | inr (m, f) ↦ ground (arith, subs-remove_locked w.hub s (id_of w s) m)
]

-- A registry in which everything agrees, and which has no entry of the connection.
abbrev pub WithoutSink : Sink → World → Type 0
WithoutSink s w = WorldInv w × IsGone s w.hub

WithoutSink-kept : (s : Sink) → IsKept (WithoutSink s) (λ t. t ≢ s)
WithoutSink-kept s = record {
  eased = record {
    marks = λ w d k q c n v. (WorldInv-kept.marks w d k q c n v.0, v.1);
    puts = λ w t c e v. (WorldInv-kept.puts w t c e v.0, v.1);
    removes = λ w t v. (WorldInv-kept.removes w t v.0, remove-IsGone w s t v.1);
    registers = λ w h t v may r. (
      WorldInv-kept.registers w h t v.0 tt r,
      register-IsGone w.hub h s t (id_of w t) (user_in w t) v.1 may r,
    );
    drops = λ w h t k last v r.
        (WorldInv-kept.drops w h t k last v.0 r, drop_locked-IsGone w.hub h s t k last v.1 r);
    guarded = λ w t v. WorldInv-kept.guarded w t v.0;
    detaches = λ w t k v n. (WorldInv-kept.detaches w t k v.0 n, detach-IsGone w.hub s t k v.1);
  };
  attaches = λ w t channels v. (
    WorldInv-kept.attaches w t channels v.0,
    attach_registered-IsGone w.hub s t (user_in w t) channels v.1,
  );
  inserts = λ w h t channel first v a i. (
    WorldInv-kept.inserts w h t channel first v.0 a i,
    insert_locked-IsGone w.hub h s t (key w.hub channel) first v.1 i,
  );
}

-- After a connection is removed, whatever calls follow that do not register it again, an Attach or a
-- Subscribe of its own that was on its way included: no channel counts it as a holder, no user's set
-- has it, and no client id leads to it.
pub remove-run-Gone :
    (w : World) (s : Sink) (cs : List Call)
    → WorldInv w
    → All (Permits (λ t. t ≢ s)) cs
    → let h = (run (remove w s) cs).hub in
      ((k : Bytes) → has ℕ_discrete s (members (h.channels k)) ≡ false)
      × ((u : Bytes) → has ℕ_discrete s (members (h.users u)) ≡ false)
      × ((i : Bytes) → h.clients i ≢ some s)
unfolding has
remove-run-Gone w s cs v may =
    let end =
      run-kept (WithoutSink-kept s) (remove w s) cs (WorldInv-kept.removes w s v, remove_self w s)
        may in
    let m = end.0.mirrored in
    let x = end.0.indexed in
    (
      λ k. ground (arith, m.agree s k, end.1),
      λ u. ground (arith, x.filed s u, x.filed_present s, end.1),
      λ i. ground (arith, x.held i s, end.1),
    )

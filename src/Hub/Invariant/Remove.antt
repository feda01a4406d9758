-- ===== src/Hub/Invariant/Remove.antt =====
-- internal/hub/hub.go: Remove keeps the invariant, and leaves nothing of the connection behind.
use sidecartunnel.Base.{
  ◌≡◌, refl, ap, ◌≢◌, ite, true, false, Option, none, some, List, [], ◌∷◌, arith, ℕ_discrete, Bytes,
  All, bytes_discrete, has,
}
use sidecartunnel.Hub.State.{Sink, Hub, members, present}
use sidecartunnel.Hub.Registry.{drop_from_user, detach_all, deregister, unfile, remove_locked}
use sidecartunnel.Hub.Invariant.{IsMirrored, IsIndexed, IsCapped, Inv}
use sidecartunnel.Hub.Invariant.Index.{IsFiled, drop_from_user-IsFiled}
use sidecartunnel.Hub.Invariant.Detach.{detach_all-holds, detach_all-present, detach_all-others}
use sidecartunnel.Hub.Invariant.Insert.{detach_all-Inv}

All-of-has :
    (P : Bytes → Type 0) (ks : List Bytes)
    → ((k : Bytes) → has bytes_discrete k ks ≡ true → P k)
    → All P ks
unfolding has
All-of-has P [] h = tt
All-of-has P (k ∷ ks) h = (h k (ground arith), All-of-has P ks (λ j q. h j (ground arith)))

-- No connection holds the control channel.
pub held-ne-control :
    (h : Hub) (s : Sink) (mirror : List Bytes)
    → IsMirrored h
    → h.subs s ≡ some mirror
    → All (λ k. k ≢ h.control_key) mirror
unfolding has
held-ne-control h s mirror m e =
    All-of-has (λ k. k ≢ h.control_key) mirror
      (λ k q p. ground (arith, m.agree s k, m.control_free, ap h.channels p))

module _ (ids : Sink → Bytes) where
  -- A connection that holds nothing any more can be deregistered.
  deregister-IsMirrored :
      (h : Hub) (s : Sink)
      → IsMirrored h
      → ((k : Bytes) → has bytes_discrete k (members (h.subs s)) ≡ false)
      → IsMirrored (deregister h s (ids s))
  unfolding deregister has
  deregister-IsMirrored h s m q = record {
    agree = λ t k. ground (arith, m.agree t k, m.agree s k, q k);
    wanted = m.wanted;
    no_empty = m.no_empty;
    distinct = m.distinct;
    keyed = m.keyed;
    control_free = m.control_free;
    control_named = m.control_named;
  }

  unfile-IsMirrored :
      (h : Hub) (s : Sink) (filed : Option Bytes) → IsMirrored h → IsMirrored (unfile h s filed)
  unfolding unfile
  unfile-IsMirrored h s none m = m
  unfile-IsMirrored h s (some u) m = record {
    agree = m.agree;
    wanted = m.wanted;
    no_empty = m.no_empty;
    distinct = m.distinct;
    keyed = m.keyed;
    control_free = m.control_free;
    control_named = m.control_named;
  }

  unfile-IsFiled :
      (h : Hub) (s : Sink) (filed : Option Bytes)
      → IsFiled h
      → h.user_of s ≡ filed
      → IsFiled (unfile h s filed)
  unfolding unfile
  unfile-IsFiled h s none f e = f
  unfile-IsFiled h s (some u) f e = drop_from_user-IsFiled h s u f e

  unfile-user_of :
      (h : Hub) (s t : Sink) (filed : Option Bytes)
      → h.user_of s ≡ filed
      → (unfile h s filed).user_of t ≡ ite (ℕ_discrete s t) none (h.user_of t)
  unfolding unfile drop_from_user
  unfile-user_of h s t none e = ground arith
  unfile-user_of h s t (some u) e = ground arith

  unfile-subs : (h : Hub) (s : Sink) (filed : Option Bytes) → (unfile h s filed).subs ≡ h.subs
  unfolding unfile
  unfile-subs h s none = refl
  unfile-subs h s (some u) = refl

  unfile-clients :
      (h : Hub) (s : Sink) (filed : Option Bytes) → (unfile h s filed).clients ≡ h.clients
  unfolding unfile
  unfile-clients h s none = refl
  unfile-clients h s (some u) = refl

  unfile-max_subs :
      (h : Hub) (s : Sink) (filed : Option Bytes) → (unfile h s filed).max_subs ≡ h.max_subs
  unfolding unfile
  unfile-max_subs h s none = refl
  unfile-max_subs h s (some u) = refl

  deregister-IsIndexed :
      (h : Hub) (s : Sink)
      → IsIndexed ids h
      → present (h.subs s) ≡ true
      → IsIndexed ids (unfile (deregister h s (ids s)) s (h.user_of s))
  unfolding deregister
  deregister-IsIndexed h s x p =
      let g = deregister h s (ids s) in
      record {
        filed = unfile-IsFiled g s (h.user_of s) x.filed refl;
        filed_present = λ t.
            rw (unfile-subs g s (h.user_of s))
              (ground (arith, unfile-user_of g s t (h.user_of s), x.filed_present t));
        named = λ t.
            rw (unfile-subs g s (h.user_of s), unfile-clients g s (h.user_of s))
              (λ q. ground (arith, x.named t, x.named s));
        held = λ i t.
            rw (unfile-subs g s (h.user_of s), unfile-clients g s (h.user_of s))
              (λ q. ground (arith, x.held i t, x.held i s));
      }

  deregister-IsCapped :
      (h : Hub) (s : Sink) (filed : Option Bytes)
      → IsCapped h
      → IsCapped (unfile (deregister h s (ids s)) s filed)
  unfolding deregister
  deregister-IsCapped h s filed c =
      let g = deregister h s (ids s) in
      record {
        capped = λ t.
            rw (unfile-max_subs g s filed, unfile-subs g s filed)
              (λ p. ground (arith, c.capped t p));
      }

  deregister-Inv :
      (h : Hub) (s : Sink)
      → Inv ids h
      → present (h.subs s) ≡ true
      → ((k : Bytes) → has bytes_discrete k (members (h.subs s)) ≡ false)
      → Inv ids (unfile (deregister h s (ids s)) s (h.user_of s))
  deregister-Inv h s v p q = record {
    mirrored =
        unfile-IsMirrored (deregister h s (ids s)) s (h.user_of s)
          (deregister-IsMirrored h s v.mirrored q);
    indexed = deregister-IsIndexed h s v.indexed p;
    within = deregister-IsCapped h s (h.user_of s) v.within;
  }

  emptied :
      (h : Hub) (s : Sink) (mirror : List Bytes) (k : Bytes)
      → h.subs s ≡ some mirror
      → has bytes_discrete k (members ((detach_all h s mirror).0.subs s)) ≡ false
  emptied h s mirror k e = ground (arith, detach_all-holds h s mirror k)

  pub remove_locked-Inv :
      (h : Hub) (s : Sink) (mirror : List Bytes)
      → Inv ids h
      → h.subs s ≡ some mirror
      → Inv ids (remove_locked h s (ids s) mirror).0
  unfolding remove_locked
  remove_locked-Inv h s mirror v e =
      deregister-Inv (detach_all h s mirror).0 s
        (detach_all-Inv ids h s mirror v (held-ne-control h s mirror v.mirrored e))
        (ground (arith, detach_all-present h s s mirror)) (λ k. emptied h s mirror k e)

  -- What `Remove` leaves of the subscriptions: the others' are untouched, and `s` has none.
  pub remove_locked-subs :
      (h : Hub) (s t : Sink) (mirror : List Bytes)
      → (remove_locked h s (ids s) mirror).0.subs t ≡ ite (ℕ_discrete s t) none (h.subs t)
  unfolding remove_locked
  remove_locked-subs h s t mirror =
      let h' = (detach_all h s mirror).0 in
      rw (unfile-subs (deregister h' s (ids s)) s (h'.user_of s))
        (deregister-subs h' s t (detach_all-others h s t mirror))
    where
      deregister-subs :
          (h' : Hub) (s t : Sink)
          → (s ≢ t → h'.subs t ≡ h.subs t)
          → (deregister h' s (ids s)).subs t ≡ ite (ℕ_discrete s t) none (h.subs t)
      deregister-subs h' s t o = ground arith

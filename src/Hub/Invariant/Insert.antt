-- ===== src/Hub/Invariant/Insert.antt =====
-- internal/hub/hub.go: insertLocked and detach keep the whole invariant, and so does registerLocked.
use sidecartunnel.Base.{
  suc, ◌≤◌, ◌<◌, ◌≡◌, refl, sym, ap, ◌∙◌, ◌≢◌, inl, inr, Bool, true, false, ◌&&◌, Option, none,
  some, List, [], ◌∷◌, arith, ltb, leb, Option-cases, Bytes, length, All, bytes_discrete, include,
  exclude, ok,
}
use sidecartunnel.Text.{has_prefix}
use sidecartunnel.Hub.State.{Sink, Hub, members, present}
use sidecartunnel.Hub.Registry.{
  insert_into, insert_locked, unmirror, detach, detach_all, index_user,
}
use sidecartunnel.Hub.Invariant.{IsMirrored, IsIndexed, IsCapped, Inv}
use sidecartunnel.Hub.Invariant.Mirror.{insert_into-IsMirrored, detach-IsMirrored}
use sidecartunnel.Hub.Invariant.Index.{index_user-with_users, index_user-IsIndexed}
use sidecartunnel.Hub.Invariant.Detach.{OnlySubs, detach-OnlySubs, detach-subs, detach-present}

length-include-le :
    (k : Bytes) (ks : List Bytes) → length (include bytes_discrete k ks) ≤ suc (length ks)
unfolding include
length-include-le k [] = omega arith
length-include-le k (x ∷ ks) = ground (arith, length-include-le k ks)

length-exclude-le : (k : Bytes) (ks : List Bytes) → length (exclude bytes_discrete k ks) ≤ length ks
unfolding exclude
length-exclude-le k [] = omega arith
length-exclude-le k (x ∷ ks) = ground (arith, length-exclude-le k ks)

pub index_user-IsMirrored :
    (h : Hub) (s : Sink) (user : Bytes) → IsMirrored h → IsMirrored (index_user h s user)
index_user-IsMirrored h s user m = rw (index_user-with_users h s user) (record {
  agree = m.agree;
  wanted = m.wanted;
  no_empty = m.no_empty;
  distinct = m.distinct;
  keyed = m.keyed;
  control_free = m.control_free;
  control_named = m.control_named;
})

pub index_user-IsCapped :
    (h : Hub) (s : Sink) (user : Bytes) → IsCapped h → IsCapped (index_user h s user)
index_user-IsCapped h s user c = rw (index_user-with_users h s user) (record { capped = c.capped })

module _ (ids : Sink → Bytes) where
  -- The indexes do not change with the subscriptions of connections that stay registered.
  with_subs-IsIndexed :
      (h h' : Hub)
      → IsIndexed ids h
      → OnlySubs h h'
      → ((t : Sink) → present (h'.subs t) ≡ present (h.subs t))
      → IsIndexed ids h'
  with_subs-IsIndexed h h' x o p = rw o (record {
    filed = x.filed;
    filed_present = λ t. x.filed_present t ∙ sym (p t);
    named = λ t q. x.named t (sym (p t) ∙ q);
    held = λ i t q. let (e, r) = x.held i t q in (e, p t ∙ r);
  })

  insert_into-present :
      (h : Hub) (s t : Sink) (k : Bytes) (mirror : List Bytes) (set : List Sink)
      → h.subs s ≡ some mirror
      → present ((insert_into h s k mirror set).0.subs t) ≡ present (h.subs t)
  unfolding insert_into
  insert_into-present h s t k mirror set e = ground arith

  insert_into-OnlySubs :
      (h : Hub) (s : Sink) (k : Bytes) (mirror : List Bytes) (set : List Sink)
      → OnlySubs h (insert_into h s k mirror set).0
  unfolding insert_into
  insert_into-OnlySubs h s k mirror set = refl

  insert_into-IsCapped :
      (h : Hub) (s : Sink) (k : Bytes) (mirror : List Bytes) (set : List Sink)
      → IsCapped h
      → ((ltb 0 h.max_subs && leb h.max_subs (length mirror)) ≡ false)
      → IsCapped (insert_into h s k mirror set).0
  unfolding insert_into
  insert_into-IsCapped h s k mirror set c g = record {
    capped = λ t p. ground (arith, c.capped t p, length-include-le k mirror);
  }

  pub insert_locked-Inv :
      (h h' : Hub) (s : Sink) (k : Bytes) (first : Bool)
      → Inv ids h
      → k ≢ h.control_key
      → has_prefix k h.prefix ≡ true
      → insert_locked h s k ≡ ok (h', first)
      → Inv ids h'
  unfolding insert_locked
  insert_locked-Inv h h' s k first v n pre r = elim (Option-cases (h.subs s)) [
    | inl e ↦ absurd (ground arith)
    | inr (mirror, e) ↦
        let set = members (h.channels k) in
        let q : (insert_into h s k mirror set).0 ≡ h' = ground arith in
        let g : (ltb 0 h.max_subs && leb h.max_subs (length mirror)) ≡ false = ground arith in
        rw (← q) (record {
          mirrored = insert_into-IsMirrored h s k mirror v.mirrored e n pre;
          indexed =
              with_subs-IsIndexed h (insert_into h s k mirror set).0 v.indexed
                (insert_into-OnlySubs h s k mirror set)
                (λ t. insert_into-present h s t k mirror set e);
          within = insert_into-IsCapped h s k mirror set v.within g;
        })
  ]

  unmirror-IsCapped :
      (h : Hub) (s t : Sink) (k : Bytes) (m : Option (List Bytes))
      → IsCapped h
      → h.subs s ≡ m
      → 0 < h.max_subs
      → length (members (unmirror h s k m t)) ≤ h.max_subs
  unfolding unmirror
  unmirror-IsCapped h s t k none c e p = c.capped t p
  unmirror-IsCapped h s t k (some m) c e p =
      ground (arith, c.capped t p, c.capped s p, length-exclude-le k m)

  detach-IsCapped : (h : Hub) (s : Sink) (k : Bytes) → IsCapped h → IsCapped (detach h s k).0
  detach-IsCapped h s k c =
      let e : (detach h s k).0.max_subs ≡ h.max_subs =
        ap (λ (x : Hub). x.max_subs) (detach-OnlySubs h s k) in
      record {
        capped = λ t. rw (e, detach-subs h s k) (unmirror-IsCapped h s t k (h.subs s) c refl);
      }

  pub detach-Inv :
      (h : Hub) (s : Sink) (k : Bytes) → Inv ids h → k ≢ h.control_key → Inv ids (detach h s k).0
  detach-Inv h s k v n = record {
    mirrored = detach-IsMirrored h s k v.mirrored n;
    indexed =
        with_subs-IsIndexed h (detach h s k).0 v.indexed (detach-OnlySubs h s k)
          (λ t. detach-present h s t k);
    within = detach-IsCapped h s k v.within;
  }

  pub detach_all-Inv :
      (h : Hub) (s : Sink) (ks : List Bytes)
      → Inv ids h
      → All (λ k. k ≢ h.control_key) ks
      → Inv ids (detach_all h s ks).0
  unfolding detach_all
  detach_all-Inv h s [] v a = v
  detach_all-Inv h s (k ∷ ks) v a =
      let e : (detach h s k).0.control_key ≡ h.control_key =
        ap (λ (x : Hub). x.control_key) (detach-OnlySubs h s k) in
      detach_all-Inv (detach h s k).0 s ks (detach-Inv h s k v a.0) (rw e (a.1))

  pub index_user-Inv :
      (h : Hub) (s : Sink) (user : Bytes)
      → Inv ids h
      → present (h.subs s) ≡ true
      → Inv ids (index_user h s user)
  index_user-Inv h s user v p = record {
    mirrored = index_user-IsMirrored h s user v.mirrored;
    indexed = index_user-IsIndexed ids h s user v.indexed p;
    within = index_user-IsCapped h s user v.within;
  }

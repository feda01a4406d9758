-- ===== src/Hub/Invariant/Detach.antt =====
-- internal/hub/hub.go: what detach and the loop of Remove do to the subscriptions, and that they
-- leave the rest of the registry alone.
use sidecartunnel.Base.{
  ◌≡◌, refl, ap, ◌∙◌, ◌≢◌, ite, false, Option, none, some, List, [], ◌∷◌, arith, ℕ_discrete,
  if◌then◌else◌, Bytes, All, bytes_discrete, has, exclude, has-exclude,
}
use sidecartunnel.Hub.State.{Sink, Hub, members, present}
use sidecartunnel.Hub.Registry.{unmirror, leave_holders, detach, detach_all}
use sidecartunnel.Hub.Invariant.{IsMirrored}
use sidecartunnel.Hub.Invariant.Mirror.{detach-IsMirrored}

-- The registry with other subscriptions.
abbrev pub with_subs :
    Hub → (Bytes → Option (List Sink)) → (Sink → Option (List Bytes)) → List Bytes → Hub
with_subs h cs ss ds = record h { channels = cs; subs = ss; desired = ds }

abbrev pub OnlySubs : Hub → Hub → Type 0
OnlySubs h h' = h' ≡ with_subs h h'.channels h'.subs h'.desired

leave_holders-OnlySubs :
    (h : Hub) (ss : Sink → Option (List Bytes)) (k : Bytes) (set : List Sink)
    → OnlySubs h (leave_holders (record h { subs = ss }) k set).0
unfolding leave_holders
leave_holders-OnlySubs h ss k [] = refl
leave_holders-OnlySubs h ss k (x ∷ xs) = refl

pub detach-OnlySubs : (h : Hub) (s : Sink) (k : Bytes) → OnlySubs h (detach h s k).0
unfolding detach
detach-OnlySubs h s k =
    leave_holders-OnlySubs h (unmirror h s k (h.subs s)) k
      (exclude ℕ_discrete s (members (h.channels k)))

pub OnlySubs-trans : (a b c : Hub) → OnlySubs a b → OnlySubs b c → OnlySubs a c
OnlySubs-trans a b c p q = q ∙ ap (λ (x : Hub). with_subs x c.channels c.subs c.desired) p

pub detach_all-OnlySubs : (h : Hub) (s : Sink) (ks : List Bytes) → OnlySubs h (detach_all h s ks).0
unfolding detach_all
detach_all-OnlySubs h s [] = refl
detach_all-OnlySubs h s (k ∷ ks) =
    OnlySubs-trans h (detach h s k).0 (detach_all (detach h s k).0 s ks).0 (detach-OnlySubs h s k)
      (detach_all-OnlySubs (detach h s k).0 s ks)

leave_holders-subs :
    (h : Hub) (k : Bytes) (set : List Sink) → (leave_holders h k set).0.subs ≡ h.subs
unfolding leave_holders
leave_holders-subs h k [] = refl
leave_holders-subs h k (x ∷ xs) = refl

pub detach-subs :
    (h : Hub) (s : Sink) (k : Bytes) → (detach h s k).0.subs ≡ unmirror h s k (h.subs s)
unfolding detach
detach-subs h s k =
    leave_holders-subs (record h { subs = unmirror h s k (h.subs s) }) k
      (exclude ℕ_discrete s (members (h.channels k)))

unmirror-present :
    (h : Hub) (s t : Sink) (k : Bytes) (m : Option (List Bytes))
    → h.subs s ≡ m
    → present (unmirror h s k m t) ≡ present (h.subs t)
unfolding unmirror
unmirror-present h s t k none e = refl
unmirror-present h s t k (some m) e = ground arith

pub detach-present :
    (h : Hub) (s t : Sink) (k : Bytes) → present ((detach h s k).0.subs t) ≡ present (h.subs t)
detach-present h s t k = rw (detach-subs h s k) (unmirror-present h s t k (h.subs s) refl)

unmirror-holds :
    (h : Hub) (s : Sink) (k j : Bytes) (m : Option (List Bytes))
    → h.subs s ≡ m
    → has bytes_discrete j (members (unmirror h s k m s))
      ≡ ite (bytes_discrete k j) false (has bytes_discrete j (members (h.subs s)))
unfolding unmirror has
unmirror-holds h s k j none e = ground arith
unmirror-holds h s k j (some m) e = ground (arith, has-exclude bytes_discrete k j m)

pub detach-holds :
    (h : Hub) (s : Sink) (k j : Bytes)
    → has bytes_discrete j (members ((detach h s k).0.subs s))
      ≡ ite (bytes_discrete k j) false (has bytes_discrete j (members (h.subs s)))
detach-holds h s k j = rw (detach-subs h s k) (unmirror-holds h s k j (h.subs s) refl)

unmirror-others :
    (h : Hub) (s t : Sink) (k : Bytes) (m : Option (List Bytes))
    → s ≢ t
    → unmirror h s k m t ≡ h.subs t
unfolding unmirror
unmirror-others h s t k none n = refl
unmirror-others h s t k (some m) n = ground arith

pub detach-others : (h : Hub) (s t : Sink) (k : Bytes) → s ≢ t → (detach h s k).0.subs t ≡ h.subs t
detach-others h s t k n = rw (detach-subs h s k) (unmirror-others h s t k (h.subs s) n)

pub detach_all-others :
    (h : Hub) (s t : Sink) (ks : List Bytes) → s ≢ t → (detach_all h s ks).0.subs t ≡ h.subs t
unfolding detach_all
detach_all-others h s t [] n = refl
detach_all-others h s t (k ∷ ks) n =
    detach_all-others (detach h s k).0 s t ks n ∙ detach-others h s t k n

pub detach_all-present :
    (h : Hub) (s t : Sink) (ks : List Bytes)
    → present ((detach_all h s ks).0.subs t) ≡ present (h.subs t)
unfolding detach_all
detach_all-present h s t [] = refl
detach_all-present h s t (k ∷ ks) =
    detach_all-present (detach h s k).0 s t ks ∙ detach-present h s t k

-- Nothing of the list is held afterwards.
pub detach_all-holds :
    (h : Hub) (s : Sink) (ks : List Bytes) (j : Bytes)
    → has bytes_discrete j (members ((detach_all h s ks).0.subs s))
      ≡ (if has bytes_discrete j ks then false else has bytes_discrete j (members (h.subs s)))
unfolding detach_all has
detach_all-holds h s [] j = refl
detach_all-holds h s (k ∷ ks) j =
    ground (arith, detach_all-holds (detach h s k).0 s ks j, detach-holds h s k j)

pub detach_all-IsMirrored :
    (h : Hub) (s : Sink) (ks : List Bytes)
    → IsMirrored h
    → All (λ k. k ≢ h.control_key) ks
    → IsMirrored (detach_all h s ks).0
unfolding detach_all
detach_all-IsMirrored h s [] m a = m
detach_all-IsMirrored h s (k ∷ ks) m a =
    let e : (detach h s k).0.control_key ≡ h.control_key =
      ap (λ (x : Hub). x.control_key) (detach-OnlySubs h s k) in
    detach_all-IsMirrored (detach h s k).0 s ks (detach-IsMirrored h s k m a.0) (rw e (a.1))

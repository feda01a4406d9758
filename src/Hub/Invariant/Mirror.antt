-- ===== src/Hub/Invariant/Mirror.antt =====
-- internal/hub/hub.go: the three views of the subscriptions move together.
use sidecartunnel.Base.{
  ◌≡◌, refl, ◌≢◌, ite, true, false, Option, none, some, List, [], ◌∷◌, arith, ℕ_discrete, ◌==◌,
  Bytes, length, bytes_discrete, has, include, exclude, has-include, has-exclude, Distinct,
  include-Distinct, exclude-Distinct,
}
use sidecartunnel.Text.{has_prefix}
use sidecartunnel.Hub.State.{Sink, Hub, members, present}
use sidecartunnel.Hub.Registry.{insert_into, unmirror, leave_holders, detach}
use sidecartunnel.Hub.Invariant.{IsMirrored}

include-ne-nil : {A : Type 0} (d : Discrete A) (x : A) (xs : List A) → include d x xs ≢ []
unfolding include
include-ne-nil d x [] = ground arith
include-ne-nil d x (y ∷ ys) = ground arith

insert_into-agree :
    (h : Hub) (s t : Sink) (k j : Bytes) (mirror : List Bytes)
    → IsMirrored h
    → h.subs s ≡ some mirror
    → let h' = (insert_into h s k mirror (members (h.channels k))).0 in
      has bytes_discrete j (members (h'.subs t)) ≡ has ℕ_discrete t (members (h'.channels j))
unfolding insert_into
insert_into-agree h s t k j mirror m e = ground (
  arith,
  m.agree t j,
  m.agree t k,
  m.agree s j,
  has-include bytes_discrete k j mirror,
  has-include ℕ_discrete s t (members (h.channels k)),
)

length-include-one :
    (s : Sink) (set : List Sink) → (length (include ℕ_discrete s set) == 1) ≡ false → set ≢ []
unfolding include
length-include-one s [] h = ground arith
length-include-one s (x ∷ set) h = ground arith

insert_into-wanted :
    (h : Hub) (s : Sink) (k j : Bytes) (mirror : List Bytes) (holders : Option (List Sink))
    → IsMirrored h
    → h.channels k ≡ holders
    → k ≢ h.control_key
    → let h' = (insert_into h s k mirror (members holders)).0 in
      has bytes_discrete j h'.desired
      ≡ ite (bytes_discrete j h'.control_key) true (present (h'.channels j))
unfolding insert_into
insert_into-wanted h s k j mirror none m e n = ground (
  arith,
  m.wanted j,
  m.wanted k,
  has-include bytes_discrete k j h.desired,
  length-include-one s [],
)
insert_into-wanted h s k j mirror (some set) m e n =
    ground (arith, m.wanted j, m.wanted k, has-include bytes_discrete k j h.desired)

pub insert_into-IsMirrored :
    (h : Hub) (s : Sink) (k : Bytes) (mirror : List Bytes)
    → IsMirrored h
    → h.subs s ≡ some mirror
    → k ≢ h.control_key
    → has_prefix k h.prefix ≡ true
    → IsMirrored (insert_into h s k mirror (members (h.channels k))).0
unfolding insert_into
insert_into-IsMirrored h s k mirror m e n pre = record {
  agree = λ t j. insert_into-agree h s t k j mirror m e;
  wanted = λ j. insert_into-wanted h s k j mirror (h.channels k) m refl n;
  no_empty =
      λ j. ground (arith, m.no_empty j, include-ne-nil ℕ_discrete s (members (h.channels k)));
  distinct = λ j.
      ground (
        arith,
        m.distinct j,
        include-Distinct ℕ_discrete s (members (h.channels k)) (m.distinct k),
      );
  keyed = λ j. ground (arith, m.keyed j);
  control_free = ground (arith, m.control_free);
  control_named = m.control_named;
}

-- The holders that are left are those of the channel without `s`.
abbrev LeftOf : Hub → Sink → Bytes → List Sink → Type 0
LeftOf h s k set =
    (t : Sink)
    → has ℕ_discrete t set ≡ ite (ℕ_discrete s t) false (has ℕ_discrete t (members (h.channels k)))

leave_holders-agree :
    (h : Hub) (s t : Sink) (k j : Bytes) (mirror : Option (List Bytes)) (set : List Sink)
    → IsMirrored h
    → h.subs s ≡ mirror
    → LeftOf h s k set
    → let h' = (leave_holders (record h { subs = unmirror h s k mirror }) k set).0 in
      has bytes_discrete j (members (h'.subs t)) ≡ has ℕ_discrete t (members (h'.channels j))
unfolding leave_holders unmirror has
leave_holders-agree h s t k j none [] m e l = ground (arith, m.agree t j, m.agree s j, l t)
leave_holders-agree h s t k j none (x ∷ xs) m e l = ground (arith, m.agree t j, m.agree s j, l t)
leave_holders-agree h s t k j (some mirror) [] m e l =
    ground (arith, m.agree t j, m.agree s j, l t, has-exclude bytes_discrete k j mirror)
leave_holders-agree h s t k j (some mirror) (x ∷ xs) m e l =
    ground (arith, m.agree t j, m.agree s j, l t, has-exclude bytes_discrete k j mirror)

leave_holders-IsMirrored :
    (h : Hub) (s : Sink) (k : Bytes) (set : List Sink)
    → IsMirrored h
    → k ≢ h.control_key
    → LeftOf h s k set
    → Distinct ℕ_discrete set
    → IsMirrored (leave_holders (record h { subs = unmirror h s k (h.subs s) }) k set).0
unfolding leave_holders has
leave_holders-IsMirrored h s k [] m n l d = record {
  agree = λ t j. leave_holders-agree h s t k j (h.subs s) [] m refl l;
  wanted = λ j. ground (arith, m.wanted j, has-exclude bytes_discrete k j h.desired);
  no_empty = λ j. ground (arith, m.no_empty j);
  distinct = λ j. ground (arith, m.distinct j);
  keyed = λ j. ground (arith, m.keyed j);
  control_free = ground (arith, m.control_free);
  control_named = m.control_named;
}
leave_holders-IsMirrored h s k (x ∷ xs) m n l d = record {
  agree = λ t j. leave_holders-agree h s t k j (h.subs s) (x ∷ xs) m refl l;
  wanted = λ j. ground (arith, m.wanted j, m.wanted k, l x);
  no_empty = λ j. ground (arith, m.no_empty j);
  distinct = λ j. ground (arith, m.distinct j);
  keyed = λ j. ground (arith, m.keyed j, m.keyed k, l x);
  control_free = ground (arith, m.control_free);
  control_named = m.control_named;
}

pub detach-IsMirrored :
    (h : Hub) (s : Sink) (k : Bytes)
    → IsMirrored h
    → k ≢ h.control_key
    → IsMirrored (detach h s k).0
unfolding detach
detach-IsMirrored h s k m n =
    leave_holders-IsMirrored h s k (exclude ℕ_discrete s (members (h.channels k))) m n
      (λ t. has-exclude ℕ_discrete s t (members (h.channels k)))
      (exclude-Distinct ℕ_discrete s (members (h.channels k)) (m.distinct k))

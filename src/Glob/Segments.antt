-- ===== src/Glob/Segments.antt =====
-- internal/glob/glob.go: splitting a grant at its stars loses nothing of what it covers.
use sidecartunnel.Base.{ℕ, ◌≡◌, refl, ap, ◌≢◌, List, [], ◌∷◌, ◌++◌, arith, ℕ_discrete, Bytes}
use sidecartunnel.Text.{split, onto_first}
use sidecartunnel.Glob.{star}
use sidecartunnel.Glob.Spec.{Covers, end, byte, leave, take, Pieces}

pub split-star : (c : ℕ) (p : Bytes) → c ≡ star → split (c ∷ p) star ≡ [] ∷ split p star
unfolding split
split-star c p e = ground arith

pub split-byte : (c : ℕ) (p : Bytes) → c ≢ star → split (c ∷ p) star ≡ onto_first c (split p star)
unfolding split
split-byte c p n = ground arith

split-ne-nil : (p : Bytes) → split p star ≢ []
unfolding split onto_first
split-ne-nil [] = ground arith
split-ne-nil (c ∷ p) = ground (arith, split-ne-nil p)

Pieces-onto_first :
    (c : ℕ) (segs : List Bytes) (s : Bytes) → Pieces segs s → Pieces (onto_first c segs) (c ∷ s)
unfolding onto_first
Pieces-onto_first c [] s h = absurd h
Pieces-onto_first c (seg ∷ []) s h = ap (◌∷◌ c) h
Pieces-onto_first c (seg ∷ next ∷ segs) s (gap, rest, e, h) = (gap, rest, ap (◌∷◌ c) e, h)

Pieces-gap : (segs : List Bytes) (gap s : Bytes) → Pieces segs s → Pieces ([] ∷ segs) (gap ++ s)
Pieces-gap [] gap s h = absurd h
Pieces-gap (next ∷ segs) gap s h = (gap, s, refl, h)

Pieces-widen :
    (segs : List Bytes) (x : ℕ) (s : Bytes)
    → segs ≢ []
    → Pieces ([] ∷ segs) s
    → Pieces ([] ∷ segs) (x ∷ s)
Pieces-widen [] x s n h = absurd (n refl)
Pieces-widen (next ∷ segs) x s n (gap, rest, e, h) = (x ∷ gap, rest, ap (◌∷◌ x) e, h)

pub Pieces-of-Covers : {p s : Bytes} → Covers p s → Pieces (split p star) s
unfolding split
Pieces-of-Covers end = refl
Pieces-of-Covers (byte {c} {p} {s} n d) =
    rw (split-byte c p n) (Pieces-onto_first c (split p star) s (Pieces-of-Covers d))
Pieces-of-Covers (leave {c} {p} {s} e d) =
    rw (split-star c p e) (Pieces-gap (split p star) [] s (Pieces-of-Covers d))
Pieces-of-Covers (take {c} {x} {p} {s} e d) = rw (split-star c p e) (
    Pieces-widen (split p star) x s (split-ne-nil p)
      (rw (split-star c p e) at (Pieces-of-Covers d)))

onto_first-inv :
    (c : ℕ) (segs : List Bytes) (s : Bytes)
    → segs ≢ []
    → Pieces (onto_first c segs) s
    → (t : Bytes) × (s ≡ c ∷ t) × Pieces segs t
unfolding onto_first
onto_first-inv c [] s n h = absurd (n refl)
onto_first-inv c (seg ∷ []) s n h = (seg, h, refl)
onto_first-inv c (seg ∷ next ∷ segs) s n (gap, rest, e, h) =
    (seg ++ (gap ++ rest), e, (gap, rest, refl, h))

gap-inv :
    (segs : List Bytes) (s : Bytes)
    → segs ≢ []
    → Pieces ([] ∷ segs) s
    → (gap : Bytes) × (rest : Bytes) × (s ≡ gap ++ rest) × Pieces segs rest
gap-inv [] s n h = absurd (n refl)
gap-inv (next ∷ segs) s n h = h

Covers-gap : (c : ℕ) (p gap s : Bytes) → c ≡ star → Covers (c ∷ p) s → Covers (c ∷ p) (gap ++ s)
Covers-gap c p [] s e d = d
Covers-gap c p (x ∷ gap) s e d = take e (Covers-gap c p gap s e d)

pub Covers-of-Pieces : (p s : Bytes) → Pieces (split p star) s → Covers p s
unfolding split
Covers-of-Pieces [] s h = rw h end
Covers-of-Pieces (c ∷ p) s h = elim (ℕ_discrete c star) [
  | yes e ↦
      let (gap, rest, q, r) =
        gap-inv (split p star) s (split-ne-nil p) (rw (split-star c p e) at h) in
      rw q (Covers-gap c p gap rest e (leave e (Covers-of-Pieces p rest r)))
  | no n ↦
      let (t, q, r) =
        onto_first-inv c (split p star) s (split-ne-nil p) (rw (split-byte c p n) at h) in
      rw q (byte n (Covers-of-Pieces p t r))
]

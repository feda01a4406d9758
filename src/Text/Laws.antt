-- ===== src/Text/Laws.antt =====
-- What the functions of package strings promise, each against concatenation.
use sidecartunnel.Base.{
  ℕ, suc, ◌+◌, ◌-◌, ◌≡◌, refl, sym, ap, ◌∙◌, ◌↔◌, inl, inr, true, some, List, [], ◌∷◌, ◌++◌,
  append_assoc, arith, ◌==◌, Bool-cases, Option-cases, Bytes, length, take, drop, length-append,
  take-append-drop, drop-append, append-split,
}
use mathlib.Core.Option
use sidecartunnel.Text.{
  same, has_prefix, trim_prefix, has_suffix, index, contains, split, onto_first,
}

pub same_iff : (a b : Bytes) → (same a b ≡ true) ↔ (a ≡ b)
unfolding same
same_iff a b = ground arith

pub has_prefix-append : (p w : Bytes) → has_prefix (p ++ w) p ≡ true
unfolding has_prefix
has_prefix-append [] w = refl
has_prefix-append (c ∷ p) w = ground (arith, has_prefix-append p w)

pub append-of-has_prefix : (s p : Bytes) → has_prefix s p ≡ true → s ≡ p ++ drop (length p) s
unfolding has_prefix
append-of-has_prefix s [] h = refl
append-of-has_prefix [] (c ∷ p) h = cc
append-of-has_prefix (x ∷ s) (c ∷ p) h = ground (arith, append-of-has_prefix s p)

pub trim_prefix-append : (p w : Bytes) → trim_prefix (p ++ w) p ≡ w
unfolding trim_prefix
trim_prefix-append p w = rw (has_prefix-append p w) (drop-append p w)

zero_plus : (n : ℕ) → 0 + n ≡ n
zero_plus n = omega arith

pub has_suffix-append : (v t : Bytes) → has_suffix (v ++ t) t ≡ true
unfolding has_suffix
has_suffix-append v t =
    let e : length (v ++ t) - length t ≡ length v = omega (arith, length-append v t) in
    rw (e, drop-append v t) (ground (arith, length-append v t, (same_iff t t).1 refl))

pub append-of-has_suffix :
    (s t : Bytes) → has_suffix s t ≡ true → s ≡ take (length s - length t) s ++ t
unfolding has_suffix
append-of-has_suffix s t h =
    ground
      (arith, take-append-drop (length s - length t) s, same_iff (drop (length s - length t) s) t)

drop-suc : (j n x : ℕ) (s : Bytes) → drop (suc j + n) (x ∷ s) ≡ drop (j + n) s
drop-suc j n x s = rw suc_plus refl
  where
    suc_plus : suc j + n ≡ suc (j + n)
    suc_plus = omega arith

found_here :
    (s seg : Bytes) (i : ℕ) → has_prefix s seg ≡ true → i ≡ 0 → s ≡ seg ++ drop (i + length seg) s
found_here s seg i h e = rw (e, zero_plus) (append-of-has_prefix s seg h)

-- What is found: an occurrence, with the rest of the text behind it.
pub index_sound :
    (s seg : Bytes) (i : ℕ)
    → index s seg ≡ some i
    → (v : Bytes) × (s ≡ v ++ (seg ++ drop (i + length seg) s))
unfolding index
index_sound [] seg i h = ([], ground (arith, found_here [] seg i))
index_sound (x ∷ s) seg i h = elim (Bool-cases (has_prefix (x ∷ s) seg)) [
  | inl e ↦ ([], found_here (x ∷ s) seg i e (ground arith))
  | inr e ↦ elim (Option-cases (index s seg)) [
    | inl n ↦ absurd (ground arith)
    | inr (j, f) ↦
        let (v, q) = index_sound s seg j f in
        let g : i ≡ suc j = ground arith in
        (x ∷ v, rw (g, drop-suc j (length seg) x s) (ap (◌∷◌ x) q))
  ]
]

pub has_prefix-of-append : (s p w : Bytes) → s ≡ p ++ w → has_prefix s p ≡ true
has_prefix-of-append s p w e = rw e (has_prefix-append p w)

rest_of_prefix :
    (s seg v w : Bytes)
    → has_prefix s seg ≡ true
    → s ≡ v ++ (seg ++ w)
    → (x : Bytes) × (drop (0 + length seg) s ≡ x ++ w)
rest_of_prefix s seg v w h e =
    let split : seg ++ drop (length seg) s ≡ (v ++ seg) ++ w =
      sym (append-of-has_prefix s seg h) ∙ e ∙ sym (append_assoc v seg w) in
    let (x, _, r) =
      append-split seg (drop (length seg) s) (v ++ seg) w split
        (omega (arith, length-append v seg)) in
    (x, rw (zero_plus (length seg)) r)

-- Wherever the text occurs, the first occurrence leaves no less behind it.
pub index_complete :
    (s seg v w : Bytes)
    → s ≡ v ++ (seg ++ w)
    → (i : ℕ) × (index s seg ≡ some i) × ((x : Bytes) × (drop (i + length seg) s ≡ x ++ w))
unfolding index
index_complete [] seg [] w e =
    let h = has_prefix-of-append [] seg w e in (0, rw h, rest_of_prefix [] seg [] w h e)
index_complete [] seg (y ∷ v) w e = absurd (ground arith)
index_complete (x ∷ s) seg [] w e =
    let h = has_prefix-of-append (x ∷ s) seg w e in (0, rw h, rest_of_prefix (x ∷ s) seg [] w h e)
index_complete (x ∷ s) seg (y ∷ v) w e = elim (Bool-cases (has_prefix (x ∷ s) seg)) [
  | inl h ↦ (0, rw h, rest_of_prefix (x ∷ s) seg (y ∷ v) w h e)
  | inr h ↦
      let (i, p, r) = index_complete s seg v w (cc) in
      (suc i, rw h (ap (Option.map suc) p), (r.0, rw (drop-suc i (length seg) x s) r.1))
]

-- `contains` looks for an occurrence.
pub occurs-of-contains :
    (s seg : Bytes) → contains s seg ≡ true → (v : Bytes) × (w : Bytes) × (s ≡ v ++ (seg ++ w))
unfolding contains
occurs-of-contains s seg h = elim (Option-cases (index s seg)) [
  | inl n ↦ absurd (ground arith)
  | inr (i, f) ↦ let (v, q) = index_sound s seg i f in (v, drop (i + length seg) s, q)
]

pub contains-of-occurs : (s seg v w : Bytes) → s ≡ v ++ (seg ++ w) → contains s seg ≡ true
unfolding contains
contains-of-occurs s seg v w e = let (i, p, _) = index_complete s seg v w e in rw (p, contains) refl

-- A split has a first piece.
split-cons : (s : Bytes) (c : ℕ) → (seg : Bytes) × (segs : List Bytes) × (split s c ≡ seg ∷ segs)
unfolding split onto_first
split-cons [] c = ([], [], refl)
split-cons (x ∷ s) c = elim (Bool-cases (x == c)) [
  | inl e ↦ ([], split s c, rw e refl)
  | inr e ↦ let (seg, segs, p) = split-cons s c in (x ∷ seg, segs, rw e (ap (onto_first x) p))
]

onto_first-append :
    (x : ℕ) (s : Bytes) (c : ℕ) (more : List Bytes)
    → onto_first x (split s c ++ more) ≡ onto_first x (split s c) ++ more
unfolding onto_first
onto_first-append x s c more = let (seg, segs, p) = split-cons s c in rw p refl

-- The pieces of two texts joined by the separator.
pub split-append :
    (left right : Bytes) (c : ℕ) → split (left ++ c ∷ right) c ≡ split left c ++ split right c
unfolding split
split-append [] right c = ground arith
split-append (x ∷ left) right c = elim (Bool-cases (x == c)) [
  | inl e ↦ rw e (ap (◌∷◌ []) (split-append left right c))
  | inr e ↦
      rw e
        (ap (onto_first x) (split-append left right c) ∙ onto_first-append x left c (split right c))
]

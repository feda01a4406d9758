-- ===== src/Glob/Correct.antt =====
-- internal/glob/glob.go: Compile and Match together decide what a grant covers.
use sidecartunnel.Base.{
  ℕ, suc, ◌-◌, ◌≡◌, refl, sym, ap, subst, ◌∙◌, ◌≢◌, ◌↔◌, ◌⊎◌, inl, inr, true, false, List, [], ◌∷◌,
  ◌++◌, arith, ℕ_discrete, Bool-cases, Bytes, length, take, drop, ok, err, Result-cases,
}
use mathlib.Core.List.{reverse, reverse-cons, reverse-reverse}
use sidecartunnel.Text.{onto_first, has_prefix, contains, trim, trim_left, split}
use sidecartunnel.Text.Laws.{same_iff, append-of-has_prefix, has_prefix-of-append}
use sidecartunnel.Glob.{
  star, underscore, Pattern, literal, any, zero_pattern, CompileError, reserved_prefix, is_empty,
  non_empty, first, last, inner, shape, compile, matches,
}
use sidecartunnel.Glob.Spec
use sidecartunnel.Glob.Spec.{Covers, Pieces}
use sidecartunnel.Glob.Segments.{split-star, split-byte, Pieces-of-Covers, Covers-of-Pieces}
use sidecartunnel.Glob.Fits.{
  Fits-of-non_empty, non_empty-of-Fits, Framed-of-Pieces, Pieces-of-Framed,
}
use sidecartunnel.Glob.Shapes.{shape_iff}

abbrev stars : Bytes
stars = star ∷ []

-- What `Compile` makes of a grant with stars and other bytes.
abbrev of_pieces : List Bytes → Pattern
of_pieces segs = shape (first segs) (last segs) (non_empty (inner segs))

split-of-no_star : (p : Bytes) → contains p (star ∷ []) ≡ false → split p star ≡ p ∷ []
unfolding contains split has_prefix
split-of-no_star [] h = refl
split-of-no_star (c ∷ p) h = ground (arith, split-of-no_star p)

split-cons : (p : Bytes) → (b : Bytes) × (segs : List Bytes) × (split p star ≡ b ∷ segs)
unfolding split onto_first
split-cons [] = ([], [], refl)
split-cons (c ∷ p) = elim (ℕ_discrete c star) [
  | yes e ↦ ([], split p star, split-star c p e)
  | no n ↦ let (b, segs, q) = split-cons p in (c ∷ b, segs, rw (split-byte c p n, q))
]

split-of-star :
    (p : Bytes)
    → contains p (star ∷ []) ≡ true
    → (a : Bytes) × (b : Bytes) × (segs : List Bytes) × (split p star ≡ a ∷ b ∷ segs)
unfolding contains split onto_first has_prefix
split-of-star [] h = cc
split-of-star (c ∷ p) h = elim (ℕ_discrete c star) [
  | yes e ↦ let (b, segs, q) = split-cons p in ([], b, segs, rw (split-star c p e, q))
  | no n ↦
      let (a, b, segs, q) = split-of-star p (ground arith) in
      (c ∷ a, b, segs, rw (split-byte c p n, q))
]

middle-last :
    (b : Bytes) (segs : List Bytes)
    → take (length segs) (b ∷ segs) ++ last (b ∷ segs) ∷ [] ≡ b ∷ segs
unfolding last
middle-last b [] = refl
middle-last b (c ∷ segs) = ap (◌∷◌ b) (middle-last c segs)

-- With two pieces or more, the first, the inner ones and the last are all of them.
inner-last :
    (a b : Bytes) (segs : List Bytes) → inner (a ∷ b ∷ segs) ++ last (a ∷ b ∷ segs) ∷ [] ≡ b ∷ segs
unfolding inner last
inner-last a b segs =
    let e : length (a ∷ b ∷ segs) - 1 ≡ suc (length segs) = omega arith in rw e (middle-last b segs)

trim_left-cut : (x c : ℕ) (s : Bytes) → x ≡ c → trim_left (x ∷ s) c ≡ trim_left s c
unfolding trim_left
trim_left-cut x c s e = ground arith

trim_left-cases :
    (s : Bytes) (c : ℕ)
    → (trim_left s c ≡ []) ⊎ ((x : ℕ) × (r : Bytes) × (trim_left s c ≡ x ∷ r) × (x ≢ c))
unfolding trim_left
trim_left-cases [] c = inl refl
trim_left-cases (x ∷ s) c = elim (ℕ_discrete x c) [
  | yes e ↦ rw (trim_left-cut x c s e) (trim_left-cases s c)
  | no n ↦ inr (x, s, ground arith, n)
]

trim_left-kept : (l : Bytes) (x c : ℕ) → x ≢ c → trim_left (l ++ x ∷ []) c ≢ []
unfolding trim_left
trim_left-kept [] x c n = ground arith
trim_left-kept (y ∷ l) x c n = ground (arith, trim_left-kept l x c n)

reverse-ne-nil : (l : Bytes) → l ≢ [] → reverse l ≢ []
reverse-ne-nil l n e = n (sym (reverse-reverse l) ∙ ap reverse e)

-- What is left after trimming both ends is empty only if there was nothing but stars.
trim_left-of-trim : (s : Bytes) (c : ℕ) → is_empty (trim s c) ≡ true → trim_left s c ≡ []
unfolding trim is_empty
trim_left-of-trim s c h = elim (trim_left-cases s c) [
  | inl e ↦ e
  | inr (x, r, e, n) ↦ absurd (
      empty-cases (trim s c) h (
        rw (trim, e, reverse-cons x r)
          (reverse-ne-nil (trim_left (reverse r ++ x ∷ []) c) (trim_left-kept (reverse r) x c n))))
]
  where
    empty-cases : (l : Bytes) → is_empty l ≡ true → l ≢ [] → ⊥
    empty-cases [] e n = n refl
    empty-cases (y ∷ l) e n = cc

Covers-any : (s : Bytes) → Covers (star ∷ []) s
Covers-any [] = Spec.leave refl Spec.end
Covers-any (x ∷ s) = Spec.take refl (Covers-any s)

Covers-stars : (c : ℕ) (p s : Bytes) → trim_left (c ∷ p) star ≡ [] → Covers (c ∷ p) s
unfolding trim_left
Covers-stars c [] s h = let e : c ≡ star = ground arith in rw e (Covers-any s)
Covers-stars c (d ∷ p) s h =
    let e : c ≡ star = ground arith in
    Spec.leave e (Covers-stars d p s (sym (trim_left-cut c star (d ∷ p) e) ∙ h))

-- Splitting, dropping the empty pieces and picking a form keeps what the grant covers.
split_iff :
    (p s : Bytes)
    → contains p stars ≡ true
    → (matches (of_pieces (split p star)) s ≡ true) ↔ Covers p s
unfolding first
split_iff p s h = (sound, complete)
  where
    parts : (a : Bytes) × (b : Bytes) × (segs : List Bytes) × (split p star ≡ a ∷ b ∷ segs)
    parts = split-of-star p h

    pieces : List Bytes
    pieces = parts.0 ∷ parts.1 ∷ parts.2

    rejoined : parts.0 ∷ (inner pieces ++ last pieces ∷ []) ≡ pieces
    rejoined = ap (◌∷◌ (parts.0)) (inner-last (parts.0) (parts.1) (parts.2))

    sound : matches (of_pieces (split p star)) s ≡ true → Covers p s
    sound m =
        let (mid, e, f) =
          (shape_iff (parts.0) (last pieces) (non_empty (inner pieces)) s).0 (rw (parts.3) at m) in
        Covers-of-Pieces p s (
          rw (parts.3) (
            subst (λ l. Pieces l s) rejoined
              (Pieces-of-Framed (inner pieces) (parts.0) (last pieces) s
                (mid, e, Fits-of-non_empty (inner pieces) mid f))))

    complete : Covers p s → matches (of_pieces (split p star)) s ≡ true
    complete d =
        let (mid, e, f) =
          Framed-of-Pieces (inner pieces) (parts.0) (last pieces) s
            (subst (λ l. Pieces l s) (sym rejoined) (rw (parts.3) at (Pieces-of-Covers d))) in
        rw (parts.3) (
          (shape_iff (parts.0) (last pieces) (non_empty (inner pieces)) s).1
            (mid, e, non_empty-of-Fits (inner pieces) mid f))

literal_iff :
    (pattern s : Bytes)
    → contains pattern stars ≡ false
    → (matches (record zero_pattern { kind = literal; head = pattern }) s ≡ true) ↔ Covers pattern s
unfolding matches
literal_iff pattern s h =
    let e = split-of-no_star pattern h in
    (
      λ m. Covers-of-Pieces pattern s (rw e ((same_iff s pattern).0 m)),
      λ d. (same_iff s pattern).1 (rw e at (Pieces-of-Covers d)),
    )

any_iff :
    (pattern s : Bytes)
    → contains pattern stars ≡ true
    → is_empty (trim pattern star) ≡ true
    → (matches (record zero_pattern { kind = any }) s ≡ true) ↔ Covers pattern s
unfolding matches contains
any_iff [] s h t = cc
any_iff (c ∷ p) s h t = (λ m. Covers-stars c p s (trim_left-of-trim (c ∷ p) star t), λ d. refl)

-- A grant that compiles matches a channel exactly when the channel is covered by its text, a star
-- standing for any run of bytes: no form of the compiled pattern and no leftmost choice of the scan
-- grants more or less.
pub compile-Covers :
    (pattern s : Bytes) (p : Pattern)
    → compile pattern ≡ ok p
    → (matches p s ≡ true) ↔ Covers pattern s
unfolding compile
compile-Covers pattern s p h = elim (Bool-cases (has_prefix pattern underscore)) [
  | inl reserved ↦ absurd (ground arith)
  | inr plain ↦ elim (Bool-cases (contains pattern stars)) [
    | inr literally ↦
        let e : record zero_pattern { kind = literal; head = pattern } ≡ p = ground arith in
        rw (← e) (literal_iff pattern s literally)
    | inl starred ↦ elim (Bool-cases (is_empty (trim pattern star))) [
      | inl everything ↦
          let e : record zero_pattern { kind = any } ≡ p = ground arith in
          rw (← e) (any_iff pattern s starred everything)
      | inr mixed ↦
          let e : of_pieces (split pattern star) ≡ p = ground arith in
          rw (← e) (split_iff pattern s starred)
    ]
  ]
]

-- `Compile` fails exactly on the grants that begin with the reserved byte, and with no other error.
pub compile-reserved :
    (pattern : Bytes)
    → (compile pattern ≡ err reserved_prefix) ↔ ((rest : Bytes) × (pattern ≡ underscore ++ rest))
unfolding compile
compile-reserved pattern = (
  λ h. (drop 1 pattern, append-of-has_prefix pattern underscore (ground arith)),
  λ r. rw (has_prefix-of-append pattern underscore r.0 r.1),
)

pub compile-of-reserved :
    (pattern : Bytes) → has_prefix pattern underscore ≡ true → compile pattern ≡ err reserved_prefix
unfolding compile
compile-of-reserved pattern h = rw h

pub compile-of-plain :
    (pattern : Bytes)
    → ¬ (has_prefix pattern underscore ≡ true)
    → (p : Pattern) × (compile pattern ≡ ok p)
compile-of-plain pattern n = elim (Result-cases (compile pattern)) [
  | inl (p, h) ↦ (p, h)
  | inr (e, h) ↦ absurd (n (plain e h))
]
  where
    plain : (e : CompileError) → compile pattern ≡ err e → has_prefix pattern underscore ≡ true
    plain reserved_prefix h =
        let (rest, q) = (compile-reserved pattern).0 h in
        has_prefix-of-append pattern underscore rest q

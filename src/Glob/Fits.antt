-- ===== src/Glob/Fits.antt =====
-- internal/glob/glob.go: the leftmost scan of matchSegments decides whether the segments fit.
use sidecartunnel.Base.{
  ◌+◌, ◌≡◌, refl, sym, ap, ◌∙◌, inl, inr, true, List, [], ◌∷◌, ◌++◌, append_assoc, arith,
  Option-cases, Bytes, length, drop,
}
use sidecartunnel.Text.{index}
use sidecartunnel.Text.Laws.{index_sound, index_complete}
use sidecartunnel.Glob.{scan, is_empty, non_empty}
use sidecartunnel.Glob.Spec.{Pieces}

-- The floating segments stand in the text in their order, with gaps of any length.
abbrev pub Fits : List Bytes → Bytes → Type 0
Fits [] s = Unit
Fits (seg ∷ parts) s = (gap : Bytes) × (rest : Bytes) × (s ≡ gap ++ (seg ++ rest)) × Fits parts rest

Fits-widen : (parts : List Bytes) (x s : Bytes) → Fits parts s → Fits parts (x ++ s)
Fits-widen [] x s h = tt
Fits-widen (seg ∷ parts) x s (gap, rest, e, h) =
    (x ++ gap, rest, rw e (sym (append_assoc x gap (seg ++ rest))), h)

pub Fits-of-scan : (parts : List Bytes) (s : Bytes) → scan parts s ≡ true → Fits parts s
unfolding scan
Fits-of-scan [] s h = tt
Fits-of-scan (seg ∷ parts) s h = elim (Option-cases (index s seg)) [
  | inl n ↦ absurd (ground arith)
  | inr (i, f) ↦
      let (gap, e) = index_sound s seg i f in
      (gap, drop (i + length seg) s, e, Fits-of-scan parts (drop (i + length seg) s) (ground arith))
]

pub scan-of-Fits : (parts : List Bytes) (s : Bytes) → Fits parts s → scan parts s ≡ true
unfolding scan
scan-of-Fits [] s h = refl
scan-of-Fits (seg ∷ parts) s (gap, rest, e, h) =
    let (i, f, r) = index_complete s seg gap rest e in
    rw (f, scan)
      (scan-of-Fits parts (drop (i + length seg) s) (rw (r.1) (Fits-widen parts r.0 rest h)))

-- An empty segment fits anywhere, so dropping it changes nothing.
pub Fits-of-non_empty : (parts : List Bytes) (s : Bytes) → Fits (non_empty parts) s → Fits parts s
unfolding non_empty is_empty
Fits-of-non_empty [] s h = tt
Fits-of-non_empty ([] ∷ parts) s h = ([], s, refl, Fits-of-non_empty parts s h)
Fits-of-non_empty ((c ∷ seg) ∷ parts) s (gap, rest, e, h) =
    (gap, rest, e, Fits-of-non_empty parts rest h)

pub non_empty-of-Fits : (parts : List Bytes) (s : Bytes) → Fits parts s → Fits (non_empty parts) s
unfolding non_empty is_empty
non_empty-of-Fits [] s h = tt
non_empty-of-Fits ([] ∷ parts) s (gap, rest, e, h) =
    rw e (Fits-widen (non_empty parts) gap rest (non_empty-of-Fits parts rest h))
non_empty-of-Fits ((c ∷ seg) ∷ parts) s (gap, rest, e, h) =
    (gap, rest, e, non_empty-of-Fits parts rest h)

-- The head and the tail at the ends, and the floating segments between them.
abbrev pub Framed : Bytes → List Bytes → Bytes → Bytes → Type 0
Framed head middles tail s = (mid : Bytes) × (s ≡ head ++ (mid ++ tail)) × Fits middles mid

pub Framed-of-Pieces :
    (middles : List Bytes) (head tail s : Bytes)
    → Pieces (head ∷ (middles ++ tail ∷ [])) s
    → Framed head middles tail s
Framed-of-Pieces [] head tail s (gap, rest, e, h) =
    (gap, e ∙ ap (λ (t : Bytes). head ++ (gap ++ t)) h, tt)
Framed-of-Pieces (m ∷ ms) head tail s (gap, rest, e, h) =
    let (mid, q, f) = Framed-of-Pieces ms m tail rest h in
    (gap ++ (m ++ mid), e ∙ rw q (simp append_assoc), (gap, mid, refl, f))

pub Pieces-of-Framed :
    (middles : List Bytes) (head tail s : Bytes)
    → Framed head middles tail s
    → Pieces (head ∷ (middles ++ tail ∷ [])) s
Pieces-of-Framed [] head tail s (mid, e, h) = (mid, tail, e, refl)
Pieces-of-Framed (m ∷ ms) head tail s (mid, e, (gap, rest, q, f)) = (
  gap,
  m ++ (rest ++ tail),
  e ∙ rw q (simp append_assoc),
  Pieces-of-Framed ms m tail (m ++ (rest ++ tail)) (rest, refl, f),
)

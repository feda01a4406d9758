-- ===== src/Glob/Shapes.antt =====
-- internal/glob/glob.go: each compiled form answers what the head, the floating segments and the
-- tail ask for, the cheap forms as well as the general one.
use sidecartunnel.Base.{
  ◌-◌, ◌≡◌, ap, ◌∙◌, ◌↔◌, true, List, [], ◌∷◌, ◌++◌, append-nil, arith, Bytes, length, take, drop,
  length-append, drop-append, take-append,
}
use sidecartunnel.Text.{has_prefix, has_suffix, contains}
use sidecartunnel.Text.Laws.{
  has_prefix-append, append-of-has_prefix, has_prefix-of-append, has_suffix-append,
  append-of-has_suffix, occurs-of-contains, contains-of-occurs,
}
use sidecartunnel.Glob.{Pattern, segments, scan, match_segments, matches, shape}
use sidecartunnel.Glob.Fits.{Framed, Fits-of-scan, scan-of-Fits}

Framed-of-match_segments :
    (p : Pattern) (s : Bytes) → match_segments p s ≡ true → Framed p.head p.parts p.tail s
unfolding match_segments
Framed-of-match_segments p s h =
    let rest = drop (length p.head) s in
    let mid = take (length rest - length p.tail) rest in
    let starts : has_prefix s p.head ≡ true = ground arith in
    let ends : has_suffix rest p.tail ≡ true = ground arith in
    let fits : scan p.parts mid ≡ true = ground arith in
    (
      mid,
      append-of-has_prefix s p.head starts
          ∙ ap (◌++◌ p.head) (append-of-has_suffix rest p.tail ends),
      Fits-of-scan p.parts mid fits,
    )

match_segments-of-Framed :
    (p : Pattern) (s : Bytes) → Framed p.head p.parts p.tail s → match_segments p s ≡ true
unfolding match_segments
match_segments-of-Framed p s (mid, e, f) =
    let rest : drop (length p.head) s ≡ mid ++ p.tail = rw e (drop-append p.head (mid ++ p.tail)) in
    let len : length (mid ++ p.tail) - length p.tail ≡ length mid =
      omega (arith, length-append mid p.tail) in
    rw
      (
        rest,
        has_prefix-of-append s p.head (mid ++ p.tail) e,
        has_suffix-append mid p.tail,
        len,
        take-append mid p.tail,
      )
      (scan-of-Fits p.parts mid f)

suffix_iff : (t s : Bytes) → (has_suffix s t ≡ true) ↔ Framed [] [] t s
suffix_iff t s = (
  λ h. (take (length s - length t) s, append-of-has_suffix s t h, tt),
  λ f. rw f.1 (has_suffix-append f.0 t),
)

prefix_iff : (p s : Bytes) → (has_prefix s p ≡ true) ↔ Framed p [] [] s
prefix_iff p s = (
  λ h. (drop (length p) s, append-of-has_prefix s p h ∙ simp append-nil, tt),
  λ f. rw f.1 (has_prefix-append p (f.0 ++ [])),
)

contains_iff : (m s : Bytes) → (contains s m ≡ true) ↔ Framed [] (m ∷ []) [] s
contains_iff m s = (
  λ h. let (v, w, e) = occurs-of-contains s m h in (s, simp append-nil, (v, w, e, tt)),
  λ f. let (v, w, e, _) = f.2 in contains-of-occurs s m v w (f.1 ∙ simp append-nil e),
)

general_iff :
    (head tail s : Bytes) (middles : List Bytes)
    → (match_segments (record { kind = segments; head = head; tail = tail; parts = middles }) s
        ≡ true)
      ↔ Framed head middles tail s
general_iff head tail s middles = (
  Framed-of-match_segments (record { kind = segments; head = head; tail = tail; parts = middles })
      s,
  match_segments-of-Framed (record { kind = segments; head = head; tail = tail; parts = middles })
      s,
)

-- The form that the switch picks answers for the whole frame.
pub shape_iff :
    (head tail : Bytes) (middles : List Bytes) (s : Bytes)
    → (matches (shape head tail middles) s ≡ true) ↔ Framed head middles tail s
unfolding shape matches
shape_iff [] [] [] s = suffix_iff [] s
shape_iff [] [] (m ∷ []) s = contains_iff m s
shape_iff [] [] (m ∷ n ∷ ms) s = general_iff [] [] s (m ∷ n ∷ ms)
shape_iff [] (t ∷ ts) [] s = suffix_iff (t ∷ ts) s
shape_iff [] (t ∷ ts) (m ∷ ms) s = general_iff [] (t ∷ ts) s (m ∷ ms)
shape_iff (h ∷ hs) [] [] s = prefix_iff (h ∷ hs) s
shape_iff (h ∷ hs) [] (m ∷ ms) s = general_iff (h ∷ hs) [] s (m ∷ ms)
shape_iff (h ∷ hs) (t ∷ ts) [] s = general_iff (h ∷ hs) (t ∷ ts) s []
shape_iff (h ∷ hs) (t ∷ ts) (m ∷ ms) s = general_iff (h ∷ hs) (t ∷ ts) s (m ∷ ms)

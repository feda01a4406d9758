-- ===== src/Glob/Spec.antt =====
-- What a grant covers, read from its text with no compiling: a star stands for any run of bytes.
use sidecartunnel.Base.{ℕ, ◌≡◌, ◌≢◌, List, [], ◌∷◌, ◌++◌, Bytes}
use sidecartunnel.Glob.{star}

pub data Covers : Bytes → Bytes → Type 0 where
  end : Covers [] []
  byte : {c : ℕ} {p s : Bytes} → c ≢ star → Covers p s → Covers (c ∷ p) (c ∷ s)
  leave : {c : ℕ} {p s : Bytes} → c ≡ star → Covers p s → Covers (c ∷ p) s
  take : {c x : ℕ} {p s : Bytes} → c ≡ star → Covers (c ∷ p) s → Covers (c ∷ p) (x ∷ s)

-- A text in pieces: the first piece, and each further one after a gap of any length.
abbrev pub Pieces : List Bytes → Bytes → Type 0
Pieces [] s = ⊥
Pieces (seg ∷ []) s = s ≡ seg
Pieces (seg ∷ next ∷ segs) s =
    (gap : Bytes) × (rest : Bytes) × (s ≡ seg ++ (gap ++ rest)) × Pieces (next ∷ segs) rest

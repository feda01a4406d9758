-- ===== src/Text.antt =====
-- The functions of Go's package strings that the gateway calls, over byte strings.
pub mod Laws
use sidecartunnel.Base.{
  ℕ, zero, suc, ◌+◌, ◌-◌, Bool, true, false, not, ◌&&◌, ite, List, [], ◌∷◌, Option, none, some,
  Bytes, ◌==◌, leb, if◌then◌else◌, length, drop, bytes_discrete,
}
use mathlib.Core.Option
use mathlib.Core.List.{reverse}

-- `a == b`
unfoldable pub same : Bytes → Bytes → Bool
unfolding bytes_discrete
same a b = ite (bytes_discrete a b) true false

unfoldable pub has_prefix : Bytes → Bytes → Bool
has_prefix s [] = true
has_prefix [] (c ∷ p) = false
has_prefix (x ∷ s) (c ∷ p) = x == c && has_prefix s p

unfoldable pub trim_prefix : Bytes → Bytes → Bytes
unfolding has_prefix
trim_prefix s p = if has_prefix s p then drop (length p) s else s

unfoldable pub has_suffix : Bytes → Bytes → Bool
unfolding same
has_suffix s t = leb (length t) (length s) && same (drop (length s - length t) s) t

-- The first place where `seg` occurs in `s`.
unfoldable pub index : Bytes → Bytes → Option ℕ
unfolding has_prefix
index [] seg = if has_prefix [] seg then some 0 else none
index (x ∷ s) seg = if has_prefix (x ∷ s) seg then some 0 else Option.map suc (index s seg)

unfoldable pub contains : Bytes → Bytes → Bool
unfolding index
contains s seg = elim (index s seg) [ none ↦ false | some i ↦ true ]

unfoldable pub trim_left : Bytes → ℕ → Bytes
trim_left [] c = []
trim_left (x ∷ s) c = if x == c then trim_left s c else x ∷ s

-- `strings.Trim` with one byte to cut.
unfoldable pub trim : Bytes → ℕ → Bytes
unfolding trim_left
trim s c = reverse (trim_left (reverse (trim_left s c)) c)

-- The byte `x` in front of the first piece.
unfoldable pub onto_first : ℕ → List Bytes → List Bytes
onto_first x [] = (x ∷ []) ∷ []
onto_first x (seg ∷ segs) = (x ∷ seg) ∷ segs

-- `strings.Split` at a separator of one byte.
unfoldable pub split : Bytes → ℕ → List Bytes
unfolding onto_first
split [] c = [] ∷ []
split (x ∷ s) c = let rest = split s c in if x == c then [] ∷ rest else onto_first x rest

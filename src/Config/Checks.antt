-- ===== src/Config/Checks.antt =====
-- internal/config/validate.go: the checks of single values. A check gives the key that it refuses, or none.
use sidecartunnel.Base.{
  ℕ, Bool, true, false, ◌||◌, Option, none, some, List, [], ◌∷◌, ltb, if◌then◌else◌, Bytes,
}
use sidecartunnel.Text.{same}
use sidecartunnel.Config.{ℤ, below, above}

abbrev pub Check : Type 0
Check = Option Bytes

-- The first refusal.
infixr 5 ◌>>◌
abbrev pub ◌>>◌ : Check → Check → Check
none >> next = next
some key >> next = some key

abbrev pub refuse : Bool → Bytes → Check
refuse true key = some key
refuse false key = none

abbrev pub int_range : Bytes → ℤ → ℕ → ℕ → Check
int_range key v low high = refuse (below v low || above v high) key

abbrev pub int_at_least : Bytes → ℤ → ℕ → Check
int_at_least key v low = refuse (below v low) key

abbrev pub dur_range : Bytes → ℤ → ℕ → ℕ → Check
dur_range key d low high = refuse (below d low || above d high) key

abbrev pub dur_positive : Bytes → ℤ → Check
dur_positive key d = refuse (below d 1) key

abbrev pub dur_non_negative : Bytes → ℤ → Check
dur_non_negative key d = refuse (below d 0) key

-- `oneOf`
unfoldable pub one_of : Bytes → Bytes → List Bytes → Check
unfolding same
one_of key value [] = some key
one_of key value (candidate ∷ allowed) =
    let rest = one_of key value allowed in if same value candidate then none else rest

-- `isPrintableASCII`
unfoldable pub is_printable : Bytes → Bool
is_printable [] = true
is_printable (b ∷ s) = if ltb b 33 || ltb 126 b then false else is_printable s

-- A loop that stops at the first entry that is refused.
unfoldable pub each : (Bytes → Check) → List Bytes → Check
each check [] = none
each check (s ∷ rest) = check s >> each check rest

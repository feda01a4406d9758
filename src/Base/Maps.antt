-- ===== src/Base/Maps.antt =====
-- Go's maps and sets: a map is a function from its keys, a set is the list of its members.
use mathlib.Core.Path.{◌≡◌, refl}
use mathlib.Core.Logic.{ite}
use mathlib.Core.Bool.{Bool, true, false}
use mathlib.Core.List.{List, [], ◌∷◌}
use native.Mathlib.Omega.{arith}

module _ {ℓ κ} {K : Type ℓ} {V : Type κ} (d : Discrete K) where
  -- `m[k] = v`
  abbrev pub update : (K → V) → K → V → K → V
  update m k v j = ite (d k j) v (m j)

module _ {K : Type 0} (d : Discrete K) where
  unfoldable pub has : K → List K → Bool
  has x [] = false
  has x (y ∷ ys) = ite (d y x) true (has x ys)

  -- `set[x] = struct{}{}`
  unfoldable pub include : K → List K → List K
  include x [] = x ∷ []
  include x (y ∷ ys) = ite (d y x) (y ∷ ys) (y ∷ include x ys)

  -- `delete(set, x)`
  unfoldable pub exclude : K → List K → List K
  exclude x [] = []
  exclude x (y ∷ ys) = ite (d y x) (exclude x ys) (y ∷ exclude x ys)

  pub has-include : (x y : K) (ys : List K) → has y (include x ys) ≡ ite (d x y) true (has y ys)
  unfolding has include
  has-include x y [] = refl
  has-include x y (z ∷ ys) = ground (arith, has-include x y ys)

  pub has-exclude : (x y : K) (ys : List K) → has y (exclude x ys) ≡ ite (d x y) false (has y ys)
  unfolding has exclude
  has-exclude x y [] = ground arith
  has-exclude x y (z ∷ ys) = ground (arith, has-exclude x y ys)

  -- No member stands twice in a set.
  abbrev pub Distinct : List K → Type 0
  Distinct [] = Unit
  Distinct (x ∷ xs) = (has x xs ≡ false) × Distinct xs

  pub include-Distinct : (x : K) (xs : List K) → Distinct xs → Distinct (include x xs)
  unfolding has include
  include-Distinct x [] h = (refl, tt)
  include-Distinct x (y ∷ ys) h = ground (arith, include-Distinct x ys h.1, has-include x y ys)

  pub exclude-Distinct : (x : K) (xs : List K) → Distinct xs → Distinct (exclude x xs)
  unfolding exclude
  exclude-Distinct x [] h = tt
  exclude-Distinct x (y ∷ ys) h = ground (arith, exclude-Distinct x ys h.1, has-exclude x y ys)

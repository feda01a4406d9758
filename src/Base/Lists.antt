-- ===== src/Base/Lists.antt =====
-- Lists measured by native numbers, byte strings, and prefixes and suffixes as Go's strings has them.
use Prim.Native.Nat.{ℕ, zero, suc, ◌+◌, ◌-◌, ◌≤◌}
use Prim.Native.Char.{code}
use Prim.Native.String.{String}
use mathlib.Core.Path.{◌≡◌, refl, ap}
use mathlib.Core.List.{List, [], ◌∷◌, ◌++◌}
use native.Mathlib.Omega.{arith}
use native.Mathlib.Decide.{ℕ_discrete}

abbrev pub Bytes : Type 0
Bytes = List ℕ

-- The bytes of an ASCII text.
abbrev pub codes : String → Bytes
codes String.[] = []
codes (String.◌∷◌ c s) = code c ∷ codes s

module _ {ℓ} {A : Type ℓ} where
  abbrev pub length : List A → ℕ
  length [] = 0
  length (x ∷ xs) = suc (length xs)

  abbrev pub take : ℕ → List A → List A
  take zero xs = []
  take (suc n) [] = []
  take (suc n) (x ∷ xs) = x ∷ take n xs

  abbrev pub drop : ℕ → List A → List A
  drop zero xs = xs
  drop (suc n) [] = []
  drop (suc n) (x ∷ xs) = drop n xs

  pub length-append : (xs ys : List A) → length (xs ++ ys) ≡ length xs + length ys
  length-append [] ys = omega arith
  length-append (x ∷ xs) ys = omega (arith, length-append xs ys)

  pub take-append-drop : (n : ℕ) (xs : List A) → take n xs ++ drop n xs ≡ xs
  take-append-drop zero xs = refl
  take-append-drop (suc n) [] = refl
  take-append-drop (suc n) (x ∷ xs) = ap (◌∷◌ x) (take-append-drop n xs)

  pub length-drop : (n : ℕ) (xs : List A) → length (drop n xs) ≡ length xs - n
  length-drop zero xs = omega arith
  length-drop (suc n) [] = omega arith
  length-drop (suc n) (x ∷ xs) = omega (arith, length-drop n xs)

  pub drop-append : (xs ys : List A) → drop (length xs) (xs ++ ys) ≡ ys
  drop-append [] ys = refl
  drop-append (x ∷ xs) ys = drop-append xs ys

  pub take-append : (xs ys : List A) → take (length xs) (xs ++ ys) ≡ xs
  take-append [] ys = refl
  take-append (x ∷ xs) ys = ap (◌∷◌ x) (take-append xs ys)

-- A predicate at every entry of a list.
module _ {ℓ κ} {A : Type ℓ} where
  abbrev pub All : (A → Type κ) → List A → Type κ
  All Q [] = Unit
  All Q (a ∷ rest) = Q a × All Q rest

  pub All-append :
      (Q : A → Type κ) (front back : List A) → All Q front → All Q back → All Q (front ++ back)
  All-append Q [] back none_left b = b
  All-append Q (a ∷ front) back f b = (f.0, All-append Q front back f.1 b)

-- Equality of byte strings, decided byte by byte.
unfoldable pub bytes_discrete : Discrete Bytes
unfolding ℕ_discrete
bytes_discrete = hlevel ℕ_discrete

module _ {ℓ} {A : Type ℓ} where
  -- Of two ways to split one list, the one with the shorter front leaves the longer rest.
  pub append-split :
      (a b c e : List A)
      → a ++ b ≡ c ++ e
      → length a ≤ length c
      → (x : List A) × (c ≡ a ++ x) × (b ≡ x ++ e)
  append-split [] b c e p h = (c, refl, p)
  append-split (y ∷ a) b [] e p h = absurd (omega arith)
  append-split (y ∷ a) b (z ∷ c) e p h =
      let (x, q, r) = append-split a b c e (cc) (omega arith) in (x, cc, r)

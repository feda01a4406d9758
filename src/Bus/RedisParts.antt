-- ===== src/Bus/RedisParts.antt =====
-- internal/bus/redis.go, diff and chunk: the parts of a change.
use sidecartunnel.Base.{
  ℕ, zero, suc, ◌≤◌, ◌≡◌, refl, ap, ◌∙◌, inl, inr, Bool, true, false, not, ◌&&◌, ◌||◌, List, [],
  ◌∷◌, ◌++◌, arith, if◌then◌else◌, Bool-cases, Bytes, length, take, drop, take-append-drop,
  length-drop, All, bytes_discrete, has, include, exclude, has-include, has-exclude,
}
use sidecartunnel.Bus.Redis.{
  bytes_le, insert_sorted, sort, missing, diff, chunk_loop, chunk, change,
}

abbrev pub holds : Bytes → List Bytes → Bool
holds channel set = has bytes_discrete channel set

insert_sorted-has :
    (x y : Bytes) (ys : List Bytes) → holds x (insert_sorted y ys) ≡ holds x (y ∷ ys)
unfolding insert_sorted has
insert_sorted-has x y [] = refl
insert_sorted-has x y (z ∷ ys) = elim (Bool-cases (bytes_le y z)) [
  | inl e ↦ rw e refl
  | inr e ↦ rw e (ground (arith, insert_sorted-has x y ys))
]

sort-has : (x : Bytes) (xs : List Bytes) → holds x (sort xs) ≡ holds x xs
unfolding sort has
sort-has x [] = refl
sort-has x (y ∷ ys) = insert_sorted-has x y (sort ys) ∙ ground (arith, sort-has x ys)

missing-has :
    (x : Bytes) (set other : List Bytes)
    → holds x (missing set other) ≡ (holds x set && not (holds x other))
unfolding missing has
missing-has x [] other = refl
missing-has x (y ∷ set) other = elim (bytes_discrete y x) [
  | yes e ↦ elim (Bool-cases (holds y other)) [
    | inl t ↦ rw t (ground (arith, missing-has x set other, ap (λ z. holds z other) e))
    | inr f ↦ rw f (ground (arith, missing-has x set other, ap (λ z. holds z other) e))
  ]
  | no n ↦ elim (Bool-cases (holds y other)) [
    | inl t ↦ rw t (ground (arith, missing-has x set other))
    | inr f ↦ rw f (ground (arith, missing-has x set other))
  ]
]

-- What is to be added is what is desired and not held, and what is to be dropped the reverse.
pub diff-has :
    (x : Bytes) (current desired : List Bytes)
    → (holds x (diff current desired).0 ≡ (holds x desired && not (holds x current)))
      × (holds x (diff current desired).1 ≡ (holds x current && not (holds x desired)))
unfolding diff
diff-has x current desired = (
  sort-has x (missing desired current) ∙ missing-has x desired current,
  sort-has x (missing current desired) ∙ missing-has x current desired,
)

abbrev pub joined : List (List Bytes) → List Bytes
joined [] = []
joined (part ∷ parts) = part ++ joined parts

-- With fuel for each channel, the parts are the channels in order, and each is a full command or the last.
chunk_loop-joined :
    (fuel size : ℕ) (channels : List Bytes)
    → 1 ≤ size
    → length channels ≤ fuel
    → joined (chunk_loop fuel size channels) ≡ channels
unfolding chunk_loop
chunk_loop-joined zero size [] s h = refl
chunk_loop-joined zero size (channel ∷ channels) s h = absurd (omega arith)
chunk_loop-joined (suc fuel) size [] s h = refl
chunk_loop-joined (suc fuel) size (channel ∷ channels) s h =
    ap (◌++◌ (take size (channel ∷ channels))) (
      chunk_loop-joined fuel size (drop size (channel ∷ channels)) s
        (omega (arith, length-drop size (channel ∷ channels))))
    ∙ take-append-drop size (channel ∷ channels)

abbrev pub Fits : ℕ → List Bytes → Type 0
Fits size part = (1 ≤ length part) × (length part ≤ size)

length-take : (n : ℕ) (xs : List Bytes) → length (take n xs) ≤ n
length-take zero xs = omega arith
length-take (suc n) [] = omega arith
length-take (suc n) (x ∷ xs) = omega (arith, length-take n xs)

take_some : (n : ℕ) (x : Bytes) (xs : List Bytes) → 1 ≤ n → 1 ≤ length (take n (x ∷ xs))
take_some zero x xs h = absurd (omega arith)
take_some (suc n) x xs h = omega arith

chunk_loop-Fits :
    (fuel size : ℕ) (channels : List Bytes)
    → 1 ≤ size
    → All (Fits size) (chunk_loop fuel size channels)
unfolding chunk_loop
chunk_loop-Fits zero size channels s = tt
chunk_loop-Fits (suc fuel) size [] s = tt
chunk_loop-Fits (suc fuel) size (channel ∷ channels) s = (
  (take_some size channel channels s, length-take size (channel ∷ channels)),
  chunk_loop-Fits fuel size (drop size (channel ∷ channels)) s,
)

-- The loop that cuts the channels up ends with all of them: the parts in order are the channels, and each has
-- one channel at least and no more than a command may carry.
pub chunk-joined :
    (channels : List Bytes) (size : ℕ)
    → 1 ≤ size
    → (joined (chunk channels size) ≡ channels) × All (Fits size) (chunk channels size)
unfolding chunk
chunk-joined channels size s = (
  chunk_loop-joined (length channels) size channels s (omega arith),
  chunk_loop-Fits (length channels) size channels s,
)

-- What a set has after a command.
pub change-has :
    (hold : Bool) (x : Bytes) (set part : List Bytes)
    → holds x (change hold set part) ≡ (if holds x part then hold else holds x set)
unfolding change has
change-has hold x set [] = refl
change-has true x set (channel ∷ part) =
    change-has true x (include bytes_discrete channel set) part
    ∙ ground (arith, has-include bytes_discrete channel x set)
change-has false x set (channel ∷ part) =
    change-has false x (exclude bytes_discrete channel set) part
    ∙ ground (arith, has-exclude bytes_discrete channel x set)

pub has-append : (x : Bytes) (xs ys : List Bytes) → holds x (xs ++ ys) ≡ (holds x xs || holds x ys)
unfolding has
has-append x [] ys = refl
has-append x (y ∷ xs) ys = ground (arith, has-append x xs ys)

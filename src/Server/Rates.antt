-- ===== src/Server/Rates.antt =====
-- internal/server/ratelimit.go: the rates of the namespaces. Durations are nanoseconds.
use sidecartunnel.Base.{
  ℕ, suc, ◌+◌, ◌*◌, ◌-◌, ◌^◌, Bool, true, false, ◌&&◌, ◌||◌, List, [], ◌∷◌, Option, none, some,
  Bytes, codes, ltb, leb, ◌==◌, if◌then◌else◌, take, drop, update, bytes_discrete, Result, ok, err,
}
use sidecartunnel.Text.{same, index}
use sidecartunnel.Hub.State.{Namespace}

pub record Rate : Type 0 where
  pub count : ℕ
  pub per : ℕ

pub data RateError : Type 0 where
  not_of_the_form bad_unit not_an_integer below_one : RateError

abbrev pub second : ℕ
second = 1000000000

abbrev pub minute : ℕ
minute = 60000000000

abbrev pub default_rate : Rate
default_rate = record { count = 10; per = second }

abbrev pub zero_rate : Rate
zero_rate = record { count = 0; per = 0 }

-- `strings.Cut` with a separator of one byte.
unfoldable pub cut : Bytes → ℕ → Option (Bytes × Bytes)
unfolding index
cut value sep = elim (index value (sep ∷ [])) [
  | none ↦ none
  | some i ↦ some (take i value, drop (suc i) value)
]

-- The decimal digits of `strconv.Atoi`, on from the value of those read.
unfoldable pub digits : ℕ → Bytes → Option ℕ
digits n [] = some n
digits n (b ∷ text) =
    let rest = digits (n * 10 + (b - 48)) text in if leb 48 b && leb b 57 then rest else none

-- One digit or more.
unfoldable pub magnitude : Bytes → Option ℕ
unfolding digits
magnitude [] = none
magnitude (b ∷ text) = digits 0 (b ∷ text)

unfoldable pub within : ℕ → Bool → Option ℕ → Option (Bool × ℕ)
within bound negative none = none
within bound negative (some n) = if ltb n bound then some (negative, n) else none

-- `strconv.Atoi` on 64 bits: whether the value is negative, and its magnitude.
unfoldable pub atoi : Bytes → Option (Bool × ℕ)
unfolding magnitude within
atoi [] = none
atoi (b ∷ text) =
    if b == 45
    then within (suc (2 ^ 63)) true (magnitude text)
    else if b == 43
    then within (2 ^ 63) false (magnitude text)
    else within (2 ^ 63) false (magnitude (b ∷ text))

unfoldable pub unit_of : Bytes → Option ℕ
unfolding same
unit_of unit =
    if same unit (codes "s")
    then some second
    else if same unit (codes "m")
    then some minute
    else none

unfoldable pub counted : ℕ → Option (Bool × ℕ) → Result RateError Rate
counted per none = err not_an_integer
counted per (some (negative, n)) =
    if negative || ltb n 1 then err below_one else ok (record { count = n; per = per })

-- `parseRate`
unfoldable pub parse_rate : Bytes → Result RateError Rate
unfolding cut unit_of atoi counted
parse_rate value = elim (cut value b'/') [
  | none ↦ err not_of_the_form
  | some (count, unit) ↦ elim (unit_of unit) [
    | none ↦ err bad_unit
    | some per ↦ counted per (atoi count)
  ]
]

unfoldable pub rate_of : Bytes → Result RateError Rate
unfolding same parse_rate
rate_of text = if same text [] then ok default_rate else parse_rate text

-- The loop of `parseRates`, on from the table so far: a missing key reads as the zero rate. The error
-- comes with the place of the namespace.
unfoldable pub rates_loop :
    ℕ → (Bytes → Rate) → List Namespace → Result (ℕ × RateError) (Bytes → Rate)
unfolding rate_of
rates_loop i table [] = ok table
rates_loop i table (ns ∷ namespaces) = elim (rate_of ns.rate_limit) [
  | err e ↦ err (i, e)
  | ok parsed ↦ rates_loop (suc i) (update bytes_discrete table ns.name parsed) namespaces
]

-- `parseRates`
unfoldable pub parse_rates : List Namespace → Result (ℕ × RateError) (Bytes → Rate)
unfolding rates_loop
parse_rates namespaces =
    rates_loop 0 (update bytes_discrete (λ _. zero_rate) [] default_rate) namespaces

-- ===== src/Server/RatesLaws.antt =====
-- internal/server/ratelimit.go: what a parsed rate says, and that no namespace is without one.
use sidecartunnel.Base.{
  ℕ, suc, ◌≤◌, ◌≡◌, sym, ap, subst, ◌∙◌, inl, inr, Bool, true, false, Option, none, some, List, [],
  ◌∷◌, ◌++◌, arith, ◌==◌, ==_iff, Bool-cases, Option-cases, Bytes, take, drop, bytes_discrete,
  update, ok, Result-cases,
}
use sidecartunnel.Text.{same, has_prefix, index}
use sidecartunnel.Hub.State.{Namespace, namespace, namespace_name}
use sidecartunnel.Hub.System.{Options, namespace_table, built_in, new_hub}
use sidecartunnel.Server.Rates.{
  Rate, default_rate, zero_rate, cut, atoi, unit_of, counted, parse_rate, rate_of, rates_loop,
  parse_rates,
}

counted-ok :
    (per : ℕ) (n : Option (Bool × ℕ)) (r : Rate)
    → counted per n ≡ ok r
    → (n ≡ some (false, r.count)) × (r.per ≡ per) × (1 ≤ r.count)
unfolding counted
counted-ok per none r e = absurd (ground arith)
counted-ok per (some (true, n)) r e = absurd (ground arith)
counted-ok per (some (false, n)) r e = ground arith

-- A rate that parses allows at least one event.
pub rate_of-count : (text : Bytes) (r : Rate) → rate_of text ≡ ok r → 1 ≤ r.count
unfolding rate_of parse_rate
rate_of-count text r e = elim (Bool-cases (same text [])) [
  | inl empty ↦ ground arith
  | inr full ↦ elim (Option-cases (cut text b'/')) [
    | inl c ↦ absurd (ground arith)
    | inr ((count, unit), c) ↦ elim (Option-cases (unit_of unit)) [
      | inl u ↦ absurd (ground arith)
      | inr (per, u) ↦ (counted-ok per (atoi count) r (ground arith)).2
    ]
  ]
]

-- What both tables of the namespaces say of a name.
abbrev IsRated : (Bytes → Option Namespace) → (Bytes → Rate) → Type 0
IsRated table rates =
    (k : Bytes) (ns : Namespace) → table k ≡ some ns → (ns.name ≡ k) × (1 ≤ (rates k).count)

tables-IsRated :
    (i : ℕ) (table : Bytes → Option Namespace) (rates final : Bytes → Rate) (all : List Namespace)
    → IsRated table rates
    → rates_loop i rates all ≡ ok final
    → IsRated (namespace_table table all) final
unfolding rates_loop namespace_table
tables-IsRated i table rates final [] v e =
    let same_table : rates ≡ final = ground arith in subst (IsRated table) same_table v
tables-IsRated i table rates final (ns ∷ all) v e = elim (Result-cases (rate_of ns.rate_limit)) [
  | inr (x, r) ↦ absurd (ground arith)
  | inl (parsed, r) ↦
      tables-IsRated (suc i) (update bytes_discrete table ns.name (some ns))
        (update bytes_discrete rates ns.name parsed) final all
        (λ k other h. ground (arith, v k other, rate_of-count ns.rate_limit parsed r))
        (ground arith)
]

-- A hub and a rate table that are made from the same blocks: every namespace that any channel resolves
-- to has a rate, of one event at least.
pub parse_rates-namespace :
    (o : Options) (rates : Bytes → Rate) (channel : Bytes) (ns : Namespace)
    → parse_rates o.namespaces ≡ ok rates
    → namespace (new_hub o) channel ≡ some ns
    → 1 ≤ (rates ns.name).count
unfolding parse_rates namespace new_hub
parse_rates-namespace o rates channel ns parsed found =
    let table = namespace_table (λ _. none) (built_in o.namespaces) in
    let v : IsRated table rates = rated o.namespaces parsed in
    elim (Option-cases (table (namespace_name channel (new_hub o).separator))) [
      | inl missing ↦ ground (arith, v [] ns)
      | inr (other, there) ↦ ground (arith, v (namespace_name channel (new_hub o).separator) ns)
    ]
  where
    rated :
        (all : List Namespace)
        → parse_rates all ≡ ok rates
        → IsRated (namespace_table (λ _. none) (built_in all)) rates
    rated [] e = λ k other h. ground arith
    rated (first ∷ all) e =
        tables-IsRated 0 (λ _. none) (update bytes_discrete (λ _. zero_rate) [] default_rate) rates
          (first ∷ all) (λ k other h. absurd (ground arith)) e

index-split : (s : Bytes) (c i : ℕ) → index s (c ∷ []) ≡ some i → s ≡ take i s ++ c ∷ drop (suc i) s
unfolding index has_prefix
index-split [] c i e = absurd (ground arith)
index-split (x ∷ s) c i e = elim (Bool-cases (x == c)) [
  | inl here ↦ ground (arith, ==_iff x c)
  | inr later ↦ elim (Option-cases (index s (c ∷ []))) [
    | inl n ↦ absurd (ground arith)
    | inr (j, f) ↦ let g : i ≡ suc j = ground arith in rw g (ap (◌∷◌ x) (index-split s c j f))
  ]
]

-- A text that parses is a count, a slash and a unit; the rate has the count, which is one or more, and
-- the unit's length.
pub parse_rate-Form :
    (value : Bytes) (r : Rate)
    → parse_rate value ≡ ok r
    → (count : Bytes) × (unit : Bytes) × (value ≡ count ++ b'/' ∷ unit)
      × (atoi count ≡ some (false, r.count))
      × (1 ≤ r.count)
      × (unit_of unit ≡ some r.per)
unfolding parse_rate cut
parse_rate-Form value r e = elim (Option-cases (index value (b'/' ∷ []))) [
  | inl missing ↦ absurd (ground arith)
  | inr (i, found) ↦
      let count = take i value in
      let unit = drop (suc i) value in
      elim (Option-cases (unit_of unit)) [
        | inl u ↦ absurd (ground arith)
        | inr (per, u) ↦
            let (n, p, pos) = counted-ok per (atoi count) r (ground arith) in
            (count, unit, index-split value b'/' i found, n, pos, u ∙ ap some (sym p))
      ]
]

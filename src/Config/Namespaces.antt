-- ===== src/Config/Namespaces.antt =====
-- internal/config/validate.go beside internal/server/ratelimit.go and internal/hub/hub.go: the namespaces of a
-- configuration that validates.
use sidecartunnel.Base.{
  ℕ, suc, ◌≤◌, ◌≡◌, refl, sym, ap, ◌∙◌, inl, inr, Bool, true, false, not, ◌||◌, Option, none, some,
  List, [], ◌∷◌, map, arith, ltb, Bool-cases, Option-cases, Bytes, codes, bytes_discrete, update,
  has, ok,
}
use sidecartunnel.Text.{same, contains, index}
use sidecartunnel.Hub.State.{Namespace, namespace}
use sidecartunnel.Hub.System.{Options, new_hub}
use sidecartunnel.Server.Rates.{
  Rate, cut, atoi, unit_of, counted, parse_rate, rate_of, rates_loop, parse_rates,
}
use sidecartunnel.Server.RatesLaws.{parse_rates-namespace}
use sidecartunnel.Config.{NamespaceBlock, Config}
use sidecartunnel.Config.Checks.{Check, ◌>>◌, refuse}
use sidecartunnel.Config.Tables.{
  Url, is_empty, rate_parts, validate_rate_limit, validate_namespace, namespaces_loop,
  validate_namespaces,
}
use sidecartunnel.Config.Validate.{validate}

-- What the core of the gateway reads of a block.
unfoldable pub core : NamespaceBlock → Namespace
core ns = record { name = ns.name; client_events = ns.client_events; rate_limit = ns.rate_limit }

pub both : (a b : Check) → (a >> b) ≡ none → (a ≡ none) × (b ≡ none)
both none b e = (refl, e)
both (some key) b e = absurd (cc)

-- `parsed < 1` of a count, and the error of one that is not an integer.
abbrev count_check : Bytes → Option (Bool × ℕ) → Check
count_check key n = elim n [
  | none ↦ some key
  | some (negative, n) ↦ refuse (negative || ltb n 1) key
]

counted-runs :
    (key : Bytes) (per : ℕ) (n : Option (Bool × ℕ))
    → count_check key n ≡ none
    → (r : Rate) × (counted per n ≡ ok r)
unfolding counted
counted-runs key per none e = absurd (cc)
counted-runs key per (some (true, n)) e = absurd (cc)
counted-runs key per (some (false, n)) e = elim (Bool-cases (ltb n 1)) [
  | inl low ↦ absurd (ground arith)
  | inr high ↦ (record { count = n; per = per }, ground arith)
]

unit-runs :
    (unit : Bytes)
    → (same unit (codes "s") || same unit (codes "m")) ≡ true
    → (per : ℕ) × (unit_of unit ≡ some per)
unfolding unit_of
unit-runs unit e = elim (Bool-cases (same unit (codes "s"))) [
  | inl s ↦ (1000000000, ground arith)
  | inr s ↦ (60000000000, ground arith)
]

parts-runs :
    (key value : Bytes)
    → validate_rate_limit key value ≡ none
    → (r : Rate) × (parse_rate value ≡ ok r)
unfolding validate_rate_limit rate_parts parse_rate
parts-runs key value e = elim (Option-cases (cut value b'/')) [
  | inl c ↦ absurd (ground arith)
  | inr ((count, unit), c) ↦
      let parts : rate_parts key (some (count, unit)) ≡ none = ap (rate_parts key) (sym c) ∙ e in
      let (known, whole) =
        both (refuse (not (same unit (codes "s") || same unit (codes "m"))) key)
          (count_check key (atoi count)) parts in
      let (per, u) = unit-runs unit (ground arith) in
      let (r, k) = counted-runs key per (atoi count) whole in (r, ground arith)
]

-- What a block has that is accepted after others with the names seen.
pub record IsAccepted (seen : List Bytes) (separator : Bytes) (ns : NamespaceBlock) : Type 0 where
  pub not_default : same ns.name (codes "default") ≡ false
  pub undivided : contains ns.name separator ≡ false
  pub unseen : has bytes_discrete ns.name seen ≡ false
  pub rated : (r : Rate) × (parse_rate ns.rate_limit ≡ ok r)

pub namespace-IsAccepted :
    (seen : List Bytes) (separator : Bytes) (ns : NamespaceBlock)
    → validate_namespace seen separator ns ≡ none
    → IsAccepted seen separator ns
unfolding validate_namespace
namespace-IsAccepted seen separator ns e = record {
  not_default = ground arith;
  undivided = ground arith;
  unseen = ground arith;
  rated = parts-runs (codes "rate_limit") ns.rate_limit (ground arith);
}

empty-fails : (r : Rate) → ¬ (parse_rate [] ≡ ok r)
unfolding parse_rate cut index
empty-fails r e = cc

parsed-rate : (text : Bytes) (r : Rate) → parse_rate text ≡ ok r → rate_of text ≡ ok r
unfolding rate_of same
parsed-rate [] r e = absurd (empty-fails r e)
parsed-rate (b ∷ text) r e = e

-- The loops of the validator and of the server, over the same blocks.
loop-runs :
    (i : ℕ) (table : Bytes → Rate) (seen : List Bytes) (separator : Bytes)
    (blocks : List NamespaceBlock)
    → namespaces_loop seen separator blocks ≡ none
    → (rates : Bytes → Rate) × (rates_loop i table (map core blocks) ≡ ok rates)
unfolding namespaces_loop rates_loop core
loop-runs i table seen separator [] e = (table, refl)
loop-runs i table seen separator (ns ∷ blocks) e =
    let (here, rest) =
      both (validate_namespace seen separator ns)
        (namespaces_loop (ns.name ∷ seen) separator blocks) e in
    let (r, k) = (namespace-IsAccepted seen separator ns here).rated in
    let (rates, all) =
      loop-runs (suc i) (update bytes_discrete table ns.name r) (ns.name ∷ seen) separator blocks
        rest in
    (rates, ground (arith, parsed-rate ns.rate_limit r k))

blocks-run :
    (separator : Bytes) (blocks : List NamespaceBlock)
    → validate_namespaces blocks separator ≡ none
    → (rates : Bytes → Rate) × (parse_rates (map core blocks) ≡ ok rates)
unfolding validate_namespaces parse_rates
blocks-run separator blocks e =
    loop-runs 0 _ [] separator blocks (both (refuse (is_empty blocks) (codes "namespaces")) _ e).1

module _ (parse_url : Bytes → Option Url) (is_cidr : Bytes → Bool) (port_of : Bytes → Option Bytes)
    (c : Config) where
  pub validate-namespaces :
      validate parse_url is_cidr port_of c ≡ none
      → validate_namespaces c.namespaces c.separator ≡ none
  unfolding validate
  validate-namespaces h = ground arith

  -- With a configuration that validates the server's table of rates is made, and every namespace that any channel
  -- resolves to in a hub of the same blocks has a rate in it, of one event at least.
  pub validate-parses :
      (o : Options)
      → validate parse_url is_cidr port_of c ≡ none
      → o.namespaces ≡ map core c.namespaces
      → (rates : Bytes → Rate) × (parse_rates o.namespaces ≡ ok rates)
        × ((channel : Bytes) (ns : Namespace)
            → namespace (new_hub o) channel ≡ some ns
            → 1 ≤ (rates ns.name).count)
  validate-parses o h e =
      let (rates, made) = blocks-run c.separator c.namespaces (validate-namespaces h) in
      let made' : parse_rates o.namespaces ≡ ok rates = ap parse_rates e ∙ made in
      (rates, made', λ channel ns. parse_rates-namespace o rates channel ns made')

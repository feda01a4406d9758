-- ===== src/Webhook/Build.antt =====
-- internal/webhook/webhook.go: New, from the application's configuration and the trusted proxies. The HTTP client, the
-- clock, the nonce and the logger that it fills in have no state here; netip.ParsePrefix is a parameter, and a prefix
-- its test of an address.
use sidecartunnel.Base.{
  ℕ, suc, Bool, Option, none, some, List, [], ◌∷◌, if◌then◌else◌, Bytes, Result, ok, err,
}
use sidecartunnel.Config.{ℤ, pos, below, less, App}

pub data BuildError : Type 0 where
  no_secret no_slot negative_queue negative_retries no_maximum inverted : BuildError
  not_a_prefix : ℕ → BuildError

-- The fields of `Client` that `New` sets from its options. `slots` and `queue` are the capacities of the two
-- channels, `cache` the time to live and the names of a cache.
pub record Built {ℓ} (Addr : Type ℓ) : Type ℓ where
  pub app_name : Bytes
  pub url : Bytes
  pub secret : Bytes
  pub connect_timeout : ℤ
  pub webhook_timeout : ℤ
  pub retries : ℤ
  pub min_expiry : ℤ
  pub max_expiry : ℤ
  pub trusted : List (Addr → Bool)
  pub slots : ℤ
  pub queue : ℤ
  pub reject_log_interval : ℤ
  pub cache : Option (ℤ × List Bytes)

abbrev pub default_reject_log_interval : ℤ
default_reject_log_interval = pos 60000000000

-- `newCache`, where there is a time to live.
abbrev pub cache_of : App → Option (ℤ × List Bytes)
cache_of a = if below a.cache_ttl 1 then none else some (a.cache_ttl, a.cookie_names)

module _ {ℓ} {Addr : Type ℓ} (parse_prefix : Bytes → Option (Addr → Bool)) where
  -- The loop over the proxies, on from a place in the list.
  unfoldable pub parse_prefixes : ℕ → List Bytes → Result BuildError (List (Addr → Bool))
  parse_prefixes i [] = ok []
  parse_prefixes i (cidr ∷ cidrs) = elim (parse_prefix cidr) [
    | none ↦ err (not_a_prefix i)
    | some p ↦ elim (parse_prefixes (suc i) cidrs) [ err e ↦ err e | ok ps ↦ ok (p ∷ ps) ]
  ]

  -- The literal of the client.
  abbrev pub build : App → Bytes → ℤ → List (Addr → Bool) → Built Addr
  build a secret interval trusted = record {
    app_name = a.name;
    url = a.connect_url;
    secret = secret;
    connect_timeout = a.connect_timeout;
    webhook_timeout = a.webhook_timeout;
    retries = a.webhook_retries;
    min_expiry = a.min_expiry;
    max_expiry = a.max_expiry;
    trusted = trusted;
    slots = a.webhook_concurrency;
    queue = a.connect_queue;
    reject_log_interval = if below interval 1 then default_reject_log_interval else interval;
    cache = cache_of a;
  }

  -- `New` past the check of the secrets, with the one that it signs with.
  unfoldable pub new_with : App → Bytes → List Bytes → ℤ → Result BuildError (Built Addr)
  new_with a secret proxies interval =
      if below a.webhook_concurrency 1
      then err no_slot
      else if below a.connect_queue 0
      then err negative_queue
      else if below a.webhook_retries 0
      then err negative_retries
      else if below a.max_expiry 1
      then err no_maximum
      else if less a.max_expiry a.min_expiry
      then err inverted
      else elim (parse_prefixes 0 proxies) [
        | err e ↦ err e
        | ok trusted ↦ ok (build a secret interval trusted)
      ]

  -- `New`
  unfoldable pub new_client : App → List Bytes → ℤ → Result BuildError (Built Addr)
  unfolding new_with
  new_client a proxies interval = elim a.webhook_secrets [
    | [] ↦ err no_secret
    | secret ∷ secrets ↦ new_with a secret proxies interval
  ]

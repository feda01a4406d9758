-- ===== src/Config/Connect.antt =====
-- internal/config/validate.go beside New of internal/webhook/webhook.go: a configuration that validates has a client.
use sidecartunnel.Base.{
  ℕ, suc, ◌+◌, ◌≤◌, ◌≡◌, refl, ap, ◌∙◌, ◌≢◌, ◌⊎◌, inl, inr, Bool, true, false, Option, none, some,
  List, [], ◌∷◌, ◌++◌, arith, if◌then◌else◌, Bool-cases, Option-cases, Bytes, length, All, Result,
  ok, err,
}
use sidecartunnel.Config.{ℤ, pos, negsuc, below, less, App, Config}
use sidecartunnel.Config.Tables.{Url}
use sidecartunnel.Config.Validate.{validate_app, validate}
use sidecartunnel.Config.ValidateLaws.{IsIn, IsOrdered, validate-IsUsable, app-floors, blocks-parts}
use sidecartunnel.Webhook.Build.{
  BuildError, no_secret, not_a_prefix, Built, default_reject_log_interval, parse_prefixes, build,
  new_with, new_client,
}

-- What the calls of a client take for granted.
pub record IsReady {ℓ} {Addr : Type ℓ} (proxies : List Bytes) (b : Built Addr) : Type 0 where
  pub signed : 32 ≤ length b.secret
  pub slots : IsIn b.slots 1 4096
  pub retries : IsIn b.retries 0 5
  pub expiry : IsOrdered b.min_expiry b.max_expiry 1
  pub alarm : below b.reject_log_interval 1 ≡ false
  pub trusted : length b.trusted ≡ length proxies

below-0 : (v : ℤ) → below v 1 ≡ false → below v 0 ≡ false
below-0 (pos n) e = ground arith
below-0 (negsuc n) e = absurd (cc)

-- An interval that is not positive is replaced.
alarm-below : (v : ℤ) → below (if below v 1 then default_reject_log_interval else v) 1 ≡ false
alarm-below v = elim (Bool-cases (below v 1)) [ inl e ↦ ground arith | inr e ↦ ground arith ]

abbrev pub is_there {ℓ} : {A : Type ℓ} → Option A → Bool
is_there none = false
is_there (some a) = true

module _ {ℓ} {Addr : Type ℓ} (parse_prefix : Bytes → Option (Addr → Bool)) where
  -- The proxy at place `j`, counted from `i`, is no prefix.
  pub record IsUnparsed (i j : ℕ) (cidrs : List Bytes) : Type 0 where
    pub front : List Bytes
    pub cidr : Bytes
    pub back : List Bytes
    pub there : cidrs ≡ front ++ cidr ∷ back
    pub place : j ≡ i + length front
    pub no_prefix : is_there (parse_prefix cidr) ≡ false

  later-IsUnparsed :
      (i j : ℕ) (s : Bytes) (cidrs : List Bytes)
      → IsUnparsed (suc i) j cidrs
      → IsUnparsed i j (s ∷ cidrs)
  later-IsUnparsed i j s cidrs u = record {
    front = s ∷ u.front;
    cidr = u.cidr;
    back = u.back;
    there = ap (◌∷◌ s) u.there;
    place = omega (arith, u.place);
    no_prefix = u.no_prefix;
  }

  prefixes-cases :
      (i : ℕ) (cidrs : List Bytes)
      → ((ps : List (Addr → Bool)) × (parse_prefixes parse_prefix i cidrs ≡ ok ps)
          × (length ps ≡ length cidrs))
        ⊎ ((j : ℕ) × (parse_prefixes parse_prefix i cidrs ≡ err (not_a_prefix j))
            × IsUnparsed i j cidrs)
  unfolding parse_prefixes
  prefixes-cases i [] = inl ([], refl, refl)
  prefixes-cases i (cidr ∷ cidrs) = elim (Option-cases (parse_prefix cidr)) [
    | inl e ↦ inr (
      i,
      ground (arith, e),
      record {
        front = [];
        cidr = cidr;
        back = cidrs;
        there = refl;
        place = omega arith;
        no_prefix = ap is_there e;
      },
    )
    | inr (p, e) ↦ elim (prefixes-cases (suc i) cidrs) [
      | inl (ps, all, same_length) ↦ inl (p ∷ ps, ground (arith, e, all), ap suc same_length)
      | inr (j, failed, u) ↦ inr (j, ground (arith, e, failed), later-IsUnparsed i j cidr cidrs u)
    ]
  ]

  built-with :
      (a : App) (secret : Bytes) (cidrs : List Bytes) (interval : ℤ)
      (r : Result BuildError (List (Addr → Bool)))
      → below a.webhook_concurrency 1 ≡ false
      → below a.connect_queue 0 ≡ false
      → below a.webhook_retries 0 ≡ false
      → below a.max_expiry 1 ≡ false
      → less a.max_expiry a.min_expiry ≡ false
      → parse_prefixes parse_prefix 0 cidrs ≡ r
      → new_with parse_prefix a secret cidrs interval
        ≡ elim r [ err e ↦ err e | ok trusted ↦ ok (build parse_prefix a secret interval trusted) ]
  unfolding new_with
  built-with a secret cidrs interval (ok ps) c q r m o e = ground (arith, c, q, r, m, o, e)
  built-with a secret cidrs interval (err x) c q r m o e = ground (arith, c, q, r, m, o, e)

  first-secret :
      (a : App) (cidrs : List Bytes) (interval : ℤ)
      → a.webhook_secrets ≢ []
      → All (λ s. 32 ≤ length s) a.webhook_secrets
      → (secret : Bytes) × (32 ≤ length secret)
        × (new_client parse_prefix a cidrs interval ≡ new_with parse_prefix a secret cidrs interval)
  unfolding new_client
  first-secret a cidrs interval some_there long = pick a.webhook_secrets some_there long
    where
      pick :
          (l : List Bytes)
          → l ≢ []
          → All (λ s. 32 ≤ length s) l
          → (secret : Bytes) × (32 ≤ length secret)
            × ((elim l [ [] ↦ err no_secret | s ∷ rest ↦ new_with parse_prefix a s cidrs interval ])
                ≡ new_with parse_prefix a secret cidrs interval)
      pick [] n w = absurd (n refl)
      pick (s ∷ rest) n w = (s, w.0, refl)

  module _ (parse_url : Bytes → Option Url) (is_cidr : Bytes → Bool)
      (port_of : Bytes → Option Bytes) (c : Config) where
    more-parts :
        validate_app parse_url is_cidr port_of c.app ≡ none
        → (below c.app.connect_queue 1 ≡ false) × (below c.app.max_expiry 1 ≡ false)
    unfolding validate_app
    more-parts h = (ground arith, ground arith)

    -- Of the webhook's client only a proxy that net/netip does not parse is still refused once the configuration
    -- validates, and the error tells its place. Where all parse, the client is made: its secret has 32 bytes or more;
    -- its slots are from 1 to 4096 and its retries at most 5; its shortest lifetime is positive and no longer than the
    -- longest; it trusts one prefix for each proxy; and the interval of its alarm is positive.
    pub validate-IsReady :
        (interval : ℤ)
        → validate parse_url is_cidr port_of c ≡ none
        → ((b : Built Addr) × (new_client parse_prefix c.app c.server.trusted_proxies interval
              ≡ ok b)
            × IsReady c.server.trusted_proxies b)
          ⊎ ((j : ℕ) × (new_client parse_prefix c.app c.server.trusted_proxies interval
                ≡ err (not_a_prefix j))
              × IsUnparsed 0 j c.server.trusted_proxies)
    validate-IsReady interval h =
        let (server, app, bus, limits, control) = blocks-parts parse_url is_cidr port_of c h in
        let u = validate-IsUsable parse_url is_cidr port_of c h in
        let (c_low, r_low, e_order) = app-floors parse_url is_cidr port_of c.app app in
        let (q_low, m_low) = more-parts app in
        let proxies = c.server.trusted_proxies in
        let (secret, long, chosen) = first-secret c.app proxies interval u.signed u.secrets in
        let made =
          λ (r : Result BuildError (List (Addr → Bool)))
              (e : parse_prefixes parse_prefix 0 proxies ≡ r).
            built-with c.app secret proxies interval r c_low (below-0 c.app.connect_queue q_low)
              r_low m_low e_order e in
        elim (prefixes-cases 0 proxies) [
          | inl (ps, parsed, same_length) ↦ inl (
            build parse_prefix c.app secret interval ps,
            chosen ∙ made (ok ps) parsed,
            record {
              signed = long;
              slots = u.concurrency;
              retries = u.retries;
              expiry = u.expiry;
              alarm = alarm-below interval;
              trusted = same_length;
            },
          )
          | inr (j, failed, x) ↦ inr (j, chosen ∙ made (err (not_a_prefix j)) failed, x)
        ]

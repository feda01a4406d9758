-- ===== src/Config/ValidateLaws.antt =====
-- internal/config/validate.go: what a configuration that validates has.
use sidecartunnel.Base.{
  ℕ, ◌≤◌, ◌<◌, ◌≡◌, refl, ◌≢◌, Bool, true, false, Option, none, List, [], ◌∷◌, arith, ltb, Bytes,
  codes, length, All,
}
use sidecartunnel.Config.{
  ℤ, pos, negsuc, below, above, less, ServerBlock, App, BusBlock, Limits, Config,
}
use sidecartunnel.Config.Namespaces.{both}
use sidecartunnel.Config.Checks.{Check, refuse, each}
use sidecartunnel.Config.Tables.{Url, min_secret_bytes, is_empty, validate_limits, validate_control}
use sidecartunnel.Config.Validate.{validate_app, validate_server, validate_bus, validate}

-- A number in a range.
pub record IsIn (v : ℤ) (low high : ℕ) : Type 0 where
  pub value : ℕ
  pub exactly : v ≡ pos value
  pub at_least : low ≤ value
  pub at_most : value ≤ high

pub range-IsIn :
    (v : ℤ) (low high : ℕ) → below v low ≡ false → above v high ≡ false → IsIn v low high
range-IsIn (pos n) low high b a = record {
  value = n;
  exactly = refl;
  at_least = ground arith;
  at_most = ground arith;
}
range-IsIn (negsuc n) low high b a = absurd (cc)

-- `a` is a number, and `b` one that is no smaller.
pub record IsOrdered (a b : ℤ) (low : ℕ) : Type 0 where
  pub lower : ℕ
  pub upper : ℕ
  pub first : a ≡ pos lower
  pub second : b ≡ pos upper
  pub from : low ≤ lower
  pub ordered : lower ≤ upper

pub below-less-IsOrdered :
    (a b : ℤ) (low : ℕ) → below a low ≡ false → less b a ≡ false → IsOrdered a b low
below-less-IsOrdered (pos m) (pos n) low h l = record {
  lower = m;
  upper = n;
  first = refl;
  second = refl;
  from = ground arith;
  ordered = ground arith;
}
below-less-IsOrdered (pos m) (negsuc n) low h l = absurd (cc)
below-less-IsOrdered (negsuc m) b low h l = absurd (cc)

-- A pong is due before the next ping.
less-value : (a b : ℤ) (m n : ℕ) → a ≡ pos m → b ≡ pos n → less a b ≡ true → m < n
less-value (pos m') (pos n') m n p q l = ground arith
less-value (negsuc m') b m n p q l = absurd (cc)
less-value (pos m') (negsuc n') m n p q l = absurd (cc)

each-All :
    (check : Bytes → Check) (P : Bytes → Type 0) (l : List Bytes)
    → ((s : Bytes) → check s ≡ none → P s)
    → each check l ≡ none
    → All P l
unfolding each
each-All check P [] f e = tt
each-All check P (s ∷ l) f e =
    let (here, rest) = both (check s) (each check l) e in (f s here, each-All check P l f rest)

-- What the rest of the gateway takes for granted of its configuration.
pub record IsUsable (c : Config) : Type 0 where
  pub origins : c.server.allowed_origins ≢ []
  pub ping : IsIn c.server.ping_interval 5000000000 300000000000
  pub pong : IsIn c.server.pong_timeout 1000000000 60000000000
  pub pong_first : pong.value < ping.value
  pub secrets : All (λ s. 32 ≤ length s) c.app.webhook_secrets
  pub signed : c.app.webhook_secrets ≢ []
  pub concurrency : IsIn c.app.webhook_concurrency 1 4096
  pub retries : IsIn c.app.webhook_retries 0 5
  pub expiry : IsOrdered c.app.min_expiry c.app.max_expiry 1
  pub reconnect : IsOrdered c.bus.reconnect_min c.bus.reconnect_max 1
  pub queue : IsIn c.limits.outbound_queue 16 65536
  pub channel_length : IsIn c.limits.max_channel_length 16 1024
  pub control : 32 ≤ length c.control_secret

is_empty-false : (l : List Bytes) → is_empty l ≡ false → l ≢ []
is_empty-false [] e h = cc
is_empty-false (x ∷ l) e h = cc

module _ (parse_url : Bytes → Option Url) (is_cidr : Bytes → Bool)
    (port_of : Bytes → Option Bytes) where
  pub server-parts :
      (s : ServerBlock)
      → validate_server parse_url is_cidr port_of s ≡ none
      → (is_empty s.allowed_origins ≡ false)
        × (below s.ping_interval 5000000000 ≡ false)
        × (above s.ping_interval 300000000000 ≡ false)
        × (below s.pong_timeout 1000000000 ≡ false)
        × (above s.pong_timeout 60000000000 ≡ false)
        × (less s.pong_timeout s.ping_interval ≡ true)
  unfolding validate_server
  server-parts s h =
      (ground arith, ground arith, ground arith, ground arith, ground arith, ground arith)

  app-parts :
      (a : App)
      → validate_app parse_url is_cidr port_of a ≡ none
      → (is_empty a.webhook_secrets ≡ false)
        × (each
              (λ secret. refuse (ltb (length secret) min_secret_bytes) (codes "webhook_secrets"))
              a.webhook_secrets
            ≡ none)
        × (below a.webhook_concurrency 1 ≡ false)
        × (above a.webhook_concurrency 4096 ≡ false)
        × (below a.webhook_retries 0 ≡ false)
        × (above a.webhook_retries 5 ≡ false)
        × (below a.min_expiry 1 ≡ false)
        × (less a.max_expiry a.min_expiry ≡ false)
  unfolding validate_app
  app-parts a h = (
    ground arith,
    ground arith,
    ground arith,
    ground arith,
    ground arith,
    ground arith,
    ground arith,
    ground arith,
  )

  bus-parts :
      (b : BusBlock)
      → validate_bus parse_url is_cidr port_of b ≡ none
      → (below b.reconnect_min 1 ≡ false) × (less b.reconnect_max b.reconnect_min ≡ false)
  unfolding validate_bus
  bus-parts b h = (ground arith, ground arith)

  pub app-floors :
      (a : App)
      → validate_app parse_url is_cidr port_of a ≡ none
      → (below a.webhook_concurrency 1 ≡ false)
        × (below a.webhook_retries 0 ≡ false)
        × (less a.max_expiry a.min_expiry ≡ false)
  app-floors a h = let (w, e, c, c', r, r', m, o) = app-parts a h in (c, r, o)

limits-parts :
    (l : Limits)
    → validate_limits l ≡ none
    → (below l.outbound_queue 16 ≡ false)
      × (above l.outbound_queue 65536 ≡ false)
      × (below l.max_channel_length 16 ≡ false)
      × (above l.max_channel_length 1024 ≡ false)
unfolding validate_limits
limits-parts l h = (ground arith, ground arith, ground arith, ground arith)

control-parts :
    (secret : Bytes) → validate_control secret ≡ none → ltb (length secret) min_secret_bytes ≡ false
unfolding validate_control
control-parts secret h = ground arith

module _ (parse_url : Bytes → Option Url) (is_cidr : Bytes → Bool) (port_of : Bytes → Option Bytes)
    (c : Config) where
  pub blocks-parts :
      validate parse_url is_cidr port_of c ≡ none
      → (validate_server parse_url is_cidr port_of c.server ≡ none)
        × (validate_app parse_url is_cidr port_of c.app ≡ none)
        × (validate_bus parse_url is_cidr port_of c.bus ≡ none)
        × (validate_limits c.limits ≡ none)
        × (validate_control c.control_secret ≡ none)
  unfolding validate
  blocks-parts h = (ground arith, ground arith, ground arith, ground arith, ground arith)

  -- A configuration that validates is usable: an origin is allowed; the pong is due before the next ping; every
  -- secret has 32 bytes or more, and the webhook's requests are signed; the slots and retries of the webhook, the
  -- queue of a connection and the length of a channel are in their ranges; and neither the lifetimes nor the delays
  -- of a reconnect have their bounds in the wrong order.
  pub validate-IsUsable : validate parse_url is_cidr port_of c ≡ none → IsUsable c
  validate-IsUsable h =
      let (server, app, bus, limits, control) = blocks-parts h in
      let (allowed, ping_low, ping_high, pong_low, pong_high, before) =
        server-parts parse_url is_cidr port_of c.server server in
      let (some_secret, long, c_low, c_high, r_low, r_high, e_low, e_order) =
        app-parts parse_url is_cidr port_of c.app app in
      let (b_low, b_order) = bus-parts parse_url is_cidr port_of c.bus bus in
      let (q_low, q_high, l_low, l_high) = limits-parts c.limits limits in
      let ping_range =
        range-IsIn c.server.ping_interval 5000000000 300000000000 ping_low ping_high in
      let pong_range = range-IsIn c.server.pong_timeout 1000000000 60000000000 pong_low pong_high in
      record {
        origins = is_empty-false c.server.allowed_origins allowed;
        ping = ping_range;
        pong = pong_range;
        pong_first =
            less-value c.server.pong_timeout c.server.ping_interval pong_range.value
              ping_range.value pong_range.exactly ping_range.exactly before;
        secrets =
            each-All
              (λ secret. refuse (ltb (length secret) min_secret_bytes) (codes "webhook_secrets"))
              (λ s. 32 ≤ length s) c.app.webhook_secrets (λ s e. ground arith) long;
        signed = is_empty-false c.app.webhook_secrets some_secret;
        concurrency = range-IsIn c.app.webhook_concurrency 1 4096 c_low c_high;
        retries = range-IsIn c.app.webhook_retries 0 5 r_low r_high;
        expiry = below-less-IsOrdered c.app.min_expiry c.app.max_expiry 1 e_low e_order;
        reconnect = below-less-IsOrdered c.bus.reconnect_min c.bus.reconnect_max 1 b_low b_order;
        queue = range-IsIn c.limits.outbound_queue 16 65536 q_low q_high;
        channel_length = range-IsIn c.limits.max_channel_length 16 1024 l_low l_high;
        control = ltb-below (length c.control_secret) 32 (control-parts c.control_secret control);
      }
    where
      ltb-below : (n m : ℕ) → ltb n m ≡ false → m ≤ n
      ltb-below n m e = ground arith

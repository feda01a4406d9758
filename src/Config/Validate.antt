-- ===== src/Config/Validate.antt =====
-- internal/config/validate.go and Validate of config.go. net and net/url are parameters. A refusal is the key that
-- its text names.
use sidecartunnel.Base.{
  ℕ, ◌*◌, Bool, not, ◌&&◌, ◌||◌, Option, none, some, [], ◌∷◌, ltb, ◌==◌, if◌then◌else◌, Bytes,
  codes, length,
}
use sidecartunnel.Text.{same, has_prefix, contains}
use sidecartunnel.Server.Rates.{atoi}
use sidecartunnel.Config.{less, ServerBlock, App, BusBlock, Config}
use sidecartunnel.Config.Checks.{
  Check, ◌>>◌, refuse, int_range, int_at_least, dur_range, dur_positive, dur_non_negative, one_of,
  is_printable, each,
}
use sidecartunnel.Config.Tables.{
  Url, second, min_secret_bytes, is_empty, is_http, validate_namespaces, validate_channels,
  validate_limits, validate_control, validate_log,
}

module _ (parse_url : Bytes → Option Url) (is_cidr : Bytes → Bool)
    (port_of : Bytes → Option Bytes) where
  -- `validateOrigin` of a URL.
  unfoldable pub origin_url : Option Url → Check
  unfolding same
  origin_url none = some (codes "allowed_origins")
  origin_url (some u) =
      refuse (not (is_http u.scheme)) (codes "allowed_origins")
      >> refuse (is_empty u.host) (codes "allowed_origins")
      >> refuse
          (not (is_empty u.path)
            || not (is_empty u.raw_query)
            || not (is_empty u.fragment)
            || u.has_user)
          (codes "allowed_origins")

  -- `validateOrigin`
  unfoldable pub validate_origin : Bytes → Check
  unfolding contains origin_url
  validate_origin origin =
      refuse (contains origin (codes "*")) (codes "allowed_origins")
      >> origin_url (parse_url origin)

  -- `validateListen`
  unfoldable pub validate_port : Option (Bool × ℕ) → Check
  validate_port none = some (codes "listen")
  validate_port (some (negative, n)) =
      refuse ((negative && not (n == 0)) || ltb 65535 n) (codes "listen")

  unfoldable pub validate_listen : Bytes → Check
  unfolding atoi validate_port
  validate_listen addr = elim (port_of addr) [
    | none ↦ some (codes "listen")
    | some port ↦ validate_port (atoi port)
  ]

  -- `validateServer`
  unfoldable pub validate_server : ServerBlock → Check
  validate_server s = do
    refuse (not (has_prefix s.path (codes "/"))) (codes "path")
    refuse (is_empty s.allowed_origins) (codes "allowed_origins")
    each validate_origin s.allowed_origins
    dur_range (codes "handshake_timeout") s.handshake_timeout second (60 * second)
    dur_range (codes "ping_interval") s.ping_interval (5 * second) (300 * second)
    dur_range (codes "pong_timeout") s.pong_timeout second (60 * second)
    refuse (not (less s.pong_timeout s.ping_interval)) (codes "pong_timeout")
    dur_range (codes "drain_timeout") s.drain_timeout second (300 * second)
    dur_range (codes "drain_spread") s.drain_spread second (300 * second)
    dur_positive (codes "read_header_timeout") s.read_header_timeout
    each (λ cidr. refuse (not (is_cidr cidr)) (codes "trusted_proxies")) s.trusted_proxies
    validate_listen s.listen

  -- `validateApp` of the URL.
  unfoldable pub connect_url : Option Url → Check
  unfolding same
  connect_url none = some (codes "connect_url")
  connect_url (some u) =
      refuse u.has_user (codes "connect_url")
      >> refuse (not (is_http u.scheme) || is_empty u.host) (codes "connect_url")

  -- `validateApp`
  unfoldable pub validate_app : App → Check
  validate_app a = do
    refuse (is_empty a.name) (codes "name")
    refuse (is_empty a.connect_url) (codes "connect_url")
    connect_url (parse_url a.connect_url)
    refuse (is_empty a.webhook_secrets) (codes "webhook_secrets")
    each (λ secret. refuse (ltb (length secret) min_secret_bytes) (codes "webhook_secrets"))
        a.webhook_secrets
    dur_positive (codes "connect_timeout") a.connect_timeout
    int_at_least (codes "connect_queue") a.connect_queue 1
    each (λ name. refuse (is_empty name) (codes "cookie_names")) a.cookie_names
    dur_range (codes "webhook_timeout") a.webhook_timeout 100000000 (30 * second)
    int_range (codes "webhook_concurrency") a.webhook_concurrency 1 4096
    int_range (codes "webhook_retries") a.webhook_retries 0 5
    dur_non_negative (codes "cache_ttl") a.cache_ttl
    dur_positive (codes "min_expiry") a.min_expiry
    dur_positive (codes "max_expiry") a.max_expiry
    refuse (less a.max_expiry a.min_expiry) (codes "max_expiry")

  -- `validateBus` of the URL.
  unfoldable pub bus_url : Option Url → Check
  unfolding same
  bus_url none = some (codes "url")
  bus_url (some u) =
      refuse
        (not (
          same u.scheme (codes "redis")
          || same u.scheme (codes "rediss")
          || same u.scheme (codes "unix")))
        (codes "url")

  -- `validateBus` of a bus that is Redis.
  unfoldable pub redis_url : Bytes → Bytes → Check
  unfolding bus_url same
  redis_url kind url =
      if same kind (codes "redis")
      then refuse (is_empty url) (codes "url") >> bus_url (parse_url url)
      else none

  -- `validateBus`
  unfoldable pub validate_bus : BusBlock → Check
  validate_bus b = do
    one_of (codes "kind") b.kind (codes "redis" ∷ codes "memory" ∷ [])
    redis_url b.kind b.url
    dur_positive (codes "dial_timeout") b.dial_timeout
    dur_positive (codes "reconnect_min") b.reconnect_min
    dur_positive (codes "reconnect_max") b.reconnect_max
    refuse (less b.reconnect_max b.reconnect_min) (codes "reconnect_max")
    int_at_least (codes "intake_queue") b.intake_queue 1
    int_range (codes "dispatch_workers") b.dispatch_workers 1 64
    dur_non_negative (codes "ready_grace") b.ready_grace
    refuse (is_empty b.prefix || not (is_printable b.prefix)) (codes "prefix")

  -- `Validate`
  unfoldable pub validate : Config → Check
  validate c = do
    validate_server c.server
    validate_app c.app
    validate_bus c.bus
    validate_channels c.separator
    validate_namespaces c.namespaces c.separator
    validate_limits c.limits
    validate_control c.control_secret
    validate_log c.log_level c.log_format

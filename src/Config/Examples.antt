-- ===== src/Config/Examples.antt =====
-- The configuration at concrete inputs.
use sidecartunnel.Base.{
  ℕ, ◌*◌, ◌≤◌, ◌≡◌, refl, ◌⊎◌, Bool, true, false, Option, none, some, [], ◌∷◌, map, ◌==◌,
  if◌then◌else◌, Bytes, codes, has, ok, err,
}
use sidecartunnel.Hub.State.{Namespace, namespace}
use sidecartunnel.Hub.System.{Options, new_hub}
use sidecartunnel.Server.Rates.{Rate, parse_rates}
use sidecartunnel.Config.{ℤ, pos, NamespaceBlock, Config}
use sidecartunnel.Text.{same, has_prefix, contains}
use sidecartunnel.Server.Rates.{cut, atoi, digits, magnitude, within}
use sidecartunnel.Config.Checks.{each, one_of, is_printable}
use sidecartunnel.Config.Tables.{
  Url, rate_parts, validate_rate_limit, validate_namespace, namespaces_loop, validate_namespaces,
  validate_channels, validate_limits, validate_control, validate_log,
}
use sidecartunnel.Config.Validate.{
  origin_url, validate_origin, validate_port, validate_listen, validate_server, connect_url,
  validate_app, redis_url, validate_bus, validate,
}
use sidecartunnel.Config.Namespaces.{core, validate-parses}
use sidecartunnel.Webhook.Build.{not_a_prefix, Built, new_client}
use sidecartunnel.Config.Connect.{IsReady, IsUnparsed, validate-IsReady}
use sidecartunnel.Config.Reach.{validate-resolves}

abbrev site : Bytes → Option Url
site s = some (record {
  scheme = codes "https";
  host = codes "a.b";
  path = [];
  raw_query = [];
  fragment = [];
  has_user = false;
})

abbrev any_cidr : Bytes → Bool
any_cidr s = true

abbrev any_port : Bytes → Option Bytes
any_port s = some (codes "8000")

abbrev seconds : ℕ → ℤ
seconds n = pos (n * 1000000000)

abbrev secret : Bytes
secret = codes "0123456789abcdef0123456789abcdef"

abbrev room : NamespaceBlock
room = record {
  name = codes "room";
  client_events = true;
  rate_limit = codes "5/s";
  max_message_size = none;
  presence = false;
  history_size = pos 0;
}

abbrev config : Config
config = record {
  server = record {
    listen = codes ":8000";
    path = codes "/ws";
    allowed_origins = codes "https://a.b" ∷ [];
    allow_missing_origin = false;
    handshake_timeout = seconds 10;
    ping_interval = seconds 25;
    pong_timeout = seconds 10;
    drain_timeout = seconds 30;
    drain_spread = seconds 30;
    read_header_timeout = seconds 10;
    trusted_proxies = codes "10.0.0.0/8" ∷ [];
  };
  app = record {
    name = codes "app";
    connect_url = codes "https://a.b/c";
    webhook_secrets = secret ∷ [];
    connect_timeout = seconds 10;
    connect_queue = pos 100;
    cookie_names = [];
    webhook_timeout = seconds 5;
    webhook_concurrency = pos 64;
    webhook_retries = pos 2;
    cache_ttl = pos 0;
    min_expiry = seconds 60;
    max_expiry = seconds 3600;
  };
  bus = record {
    kind = codes "memory";
    url = [];
    dial_timeout = seconds 5;
    reconnect_min = seconds 1;
    reconnect_max = seconds 30;
    intake_queue = pos 1024;
    dispatch_workers = pos 4;
    ready_grace = seconds 30;
    prefix = codes "st:";
  };
  separator = codes "-";
  namespaces = room ∷ [];
  limits = record {
    max_connections = pos 0;
    max_subscriptions_per_conn = pos 100;
    max_connections_per_user = pos 0;
    read_buffer = pos 1024;
    write_buffer = pos 1024;
    compression = false;
    outbound_queue = pos 64;
    max_message_size = pos 65536;
    max_frame_size = pos 65536;
    max_channel_length = pos 128;
  };
  control_secret = secret;
  log_level = codes "info";
  log_format = codes "json";
}

config-valid : validate site any_cidr any_port config ≡ none
unfolding validate validate_server validate_app validate_bus validate_channels validate_namespaces
    namespaces_loop validate_namespace validate_rate_limit rate_parts validate_limits
    validate_control validate_log validate_origin origin_url validate_listen validate_port
    connect_url redis_url each one_of is_printable has_prefix same contains has cut atoi digits
    magnitude within
config-valid = refl

abbrev options : Options
options = record {
  prefix = [];
  separator = codes "-";
  namespaces = map core (room ∷ []);
  max_subscriptions_per_conn = 100;
  closer_queue = 1;
}

validate-parses_example :
    (rates : Bytes → Rate) × (parse_rates (map core (room ∷ [])) ≡ ok rates)
    × ((channel : Bytes) (ns : Namespace)
        → namespace (new_hub options) channel ≡ some ns
        → 1 ≤ (rates ns.name).count)
validate-parses_example = validate-parses site any_cidr any_port config options config-valid refl

validate-resolves_example : namespace (new_hub options) (codes "room-1-2") ≡ some (core room)
unfolding core namespace new_hub
validate-resolves_example =
    validate-resolves site any_cidr any_port config options [] [] room (codes "1-2") config-valid
      refl refl refl

-- A parser of prefixes that takes one text, for addresses that are numbers.
abbrev net_ten : Bytes → Option (ℕ → Bool)
net_ten s = if same s (codes "10.0.0.0/8") then some (λ n. n == 10) else none

validate-IsReady_example :
    ((b : Built ℕ) × (new_client net_ten config.app (codes "10.0.0.0/8" ∷ []) (pos 0) ≡ ok b)
      × IsReady (codes "10.0.0.0/8" ∷ []) b)
    ⊎ ((j : ℕ) × (new_client net_ten config.app (codes "10.0.0.0/8" ∷ []) (pos 0)
          ≡ err (not_a_prefix j))
        × IsUnparsed net_ten 0 j (codes "10.0.0.0/8" ∷ []))
validate-IsReady_example =
    validate-IsReady net_ten site any_cidr any_port config (pos 0) config-valid

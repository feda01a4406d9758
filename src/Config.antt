-- ===== src/Config.antt =====
-- internal/config/config.go: the configuration. An int and a Duration are 64-bit numbers with a sign; durations
-- are nanoseconds. YAML and the environment are not modelled.
pub mod Checks
pub mod Tables
pub mod Validate
pub mod Namespaces
pub mod ValidateLaws
pub mod Reach
pub mod Connect
mod Examples
use sidecartunnel.Base.{ℕ, Bool, true, false, List, Bytes, Option, ltb}

-- `negsuc n` is -(n + 1).
pub data ℤ : Type 0 where
  pos negsuc : ℕ → ℤ

-- `v < low`, `high < v` and `a < b`.
abbrev pub below : ℤ → ℕ → Bool
below (pos n) low = ltb n low
below (negsuc n) low = true

abbrev pub above : ℤ → ℕ → Bool
above (pos n) high = ltb high n
above (negsuc n) high = false

abbrev pub less : ℤ → ℤ → Bool
less (pos a) (pos b) = ltb a b
less (pos a) (negsuc b) = false
less (negsuc a) (pos b) = true
less (negsuc a) (negsuc b) = ltb b a

pub record ServerBlock : Type 0 where
  pub listen : Bytes
  pub path : Bytes
  pub allowed_origins : List Bytes
  pub allow_missing_origin : Bool
  pub handshake_timeout : ℤ
  pub ping_interval : ℤ
  pub pong_timeout : ℤ
  pub drain_timeout : ℤ
  pub drain_spread : ℤ
  pub read_header_timeout : ℤ
  pub trusted_proxies : List Bytes

pub record App : Type 0 where
  pub name : Bytes
  pub connect_url : Bytes
  pub webhook_secrets : List Bytes
  pub connect_timeout : ℤ
  pub connect_queue : ℤ
  pub cookie_names : List Bytes
  pub webhook_timeout : ℤ
  pub webhook_concurrency : ℤ
  pub webhook_retries : ℤ
  pub cache_ttl : ℤ
  pub min_expiry : ℤ
  pub max_expiry : ℤ

pub record BusBlock : Type 0 where
  pub kind : Bytes
  pub url : Bytes
  pub dial_timeout : ℤ
  pub reconnect_min : ℤ
  pub reconnect_max : ℤ
  pub intake_queue : ℤ
  pub dispatch_workers : ℤ
  pub ready_grace : ℤ
  pub prefix : Bytes

-- `Namespace`, the fields that the gateway's core does not read included.
pub record NamespaceBlock : Type 0 where
  pub name : Bytes
  pub client_events : Bool
  pub rate_limit : Bytes
  pub max_message_size : Option ℤ
  pub presence : Bool
  pub history_size : ℤ

pub record Limits : Type 0 where
  pub max_connections : ℤ
  pub max_subscriptions_per_conn : ℤ
  pub max_connections_per_user : ℤ
  pub read_buffer : ℤ
  pub write_buffer : ℤ
  pub compression : Bool
  pub outbound_queue : ℤ
  pub max_message_size : ℤ
  pub max_frame_size : ℤ
  pub max_channel_length : ℤ

pub record Config : Type 0 where
  pub server : ServerBlock
  pub app : App
  pub bus : BusBlock
  pub separator : Bytes
  pub namespaces : List NamespaceBlock
  pub limits : Limits
  pub control_secret : Bytes
  pub log_level : Bytes
  pub log_format : Bytes

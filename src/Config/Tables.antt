-- ===== src/Config/Tables.antt =====
-- internal/config/validate.go: the namespaces, the separator, the limits, the secret of the control channel and the
-- log. A refusal is the key that its text names.
use sidecartunnel.Base.{
  ℕ, Bool, true, false, not, ◌||◌, Option, none, some, List, [], ◌∷◌, ltb, ◌==◌, Bytes, codes,
  length, bytes_discrete, has,
}
use sidecartunnel.Text.{same, has_prefix, contains}
use sidecartunnel.Server.Rates.{cut, atoi}
use sidecartunnel.Config.{ℤ, below, above, NamespaceBlock, Limits}
use sidecartunnel.Config.Checks.{Check, ◌>>◌, refuse, int_range, int_at_least, one_of, is_printable}

-- What the code reads of a `url.URL`.
pub record Url : Type 0 where
  pub scheme : Bytes
  pub host : Bytes
  pub path : Bytes
  pub raw_query : Bytes
  pub fragment : Bytes
  pub has_user : Bool

abbrev pub second : ℕ
second = 1000000000

abbrev pub max_message_bytes : ℕ
max_message_bytes = 1048576

abbrev pub min_secret_bytes : ℕ
min_secret_bytes = 32

abbrev pub is_empty {ℓ} : {A : Type ℓ} → List A → Bool
is_empty [] = true
is_empty (a ∷ rest) = false

abbrev pub is_http : Bytes → Bool
is_http scheme = same scheme (codes "http") || same scheme (codes "https")

-- `validateRateLimit` from the parts of the value on.
unfoldable pub rate_parts : Bytes → Option (Bytes × Bytes) → Check
unfolding atoi same
rate_parts key none = some key
rate_parts key (some (count, unit)) =
    refuse (not (same unit (codes "s") || same unit (codes "m"))) key >> (elim (atoi count) [
      | none ↦ some key
      | some (negative, n) ↦ refuse (negative || ltb n 1) key
    ])

-- `validateRateLimit`
unfoldable pub validate_rate_limit : Bytes → Bytes → Check
unfolding rate_parts cut
validate_rate_limit key value = rate_parts key (cut value b'/')

abbrev pub message_size : Option ℤ → Check
message_size none = none
message_size (some v) = int_range (codes "max_message_size") v 1 max_message_bytes

-- The body of the loop of `validateNamespaces`, with the names that were seen.
unfoldable pub validate_namespace : List Bytes → Bytes → NamespaceBlock → Check
validate_namespace seen separator ns = do
  refuse (same ns.name (codes "default")) (codes "name")
  refuse (contains ns.name separator) (codes "name")
  refuse (has_prefix ns.name (codes "_")) (codes "name")
  refuse (not (is_printable ns.name)) (codes "name")
  refuse (has bytes_discrete ns.name seen) (codes "name")
  validate_rate_limit (codes "rate_limit") ns.rate_limit
  message_size ns.max_message_size
  refuse ns.presence (codes "presence")
  refuse (below ns.history_size 0 || above ns.history_size 0) (codes "history_size")

unfoldable pub namespaces_loop : List Bytes → Bytes → List NamespaceBlock → Check
namespaces_loop seen separator [] = none
namespaces_loop seen separator (ns ∷ namespaces) =
    validate_namespace seen separator ns >> namespaces_loop (ns.name ∷ seen) separator namespaces

-- `validateNamespaces`
unfoldable pub validate_namespaces : List NamespaceBlock → Bytes → Check
validate_namespaces namespaces separator =
    refuse (is_empty namespaces) (codes "namespaces") >> namespaces_loop [] separator namespaces

-- `validateChannels`
unfoldable pub validate_channels : Bytes → Check
validate_channels separator =
    refuse (not (length separator == 1) || not (is_printable separator))
      (codes "channels.separator")

-- `validateLimits`
unfoldable pub validate_limits : Limits → Check
validate_limits l = do
  int_at_least (codes "max_connections") l.max_connections 0
  int_range (codes "max_subscriptions_per_conn") l.max_subscriptions_per_conn 1 10000
  int_at_least (codes "max_connections_per_user") l.max_connections_per_user 0
  int_range (codes "read_buffer") l.read_buffer 1 max_message_bytes
  int_range (codes "write_buffer") l.write_buffer 1 max_message_bytes
  int_range (codes "outbound_queue") l.outbound_queue 16 65536
  int_range (codes "max_message_size") l.max_message_size 1 max_message_bytes
  int_range (codes "max_frame_size") l.max_frame_size 1 max_message_bytes
  int_range (codes "max_channel_length") l.max_channel_length 16 1024

-- `validateControl`
unfoldable pub validate_control : Bytes → Check
validate_control secret =
    refuse (is_empty secret) (codes "control.secret")
    >> refuse (ltb (length secret) min_secret_bytes) (codes "control.secret")

-- `validateLog`
unfoldable pub validate_log : Bytes → Bytes → Check
unfolding one_of
validate_log level format =
    one_of (codes "log.level") level
      (codes "debug" ∷ codes "info" ∷ codes "warn" ∷ codes "error" ∷ [])
    >> one_of (codes "log.format") format (codes "json" ∷ codes "text" ∷ [])

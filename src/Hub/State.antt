-- ===== src/Hub/State.antt =====
-- internal/hub/hub.go: the registry's state, its keys and its namespaces. A connection is named by a
-- number, its address; the maps are functions from their keys, `none` where a key is missing, and the
-- sets are lists of their members, in the order in which Go happens to visit them.
use sidecartunnel.Base.{
  ℕ, Bool, true, false, List, [], ◌++◌, Option, none, some, Bytes, codes, if◌then◌else◌, take,
}
use sidecartunnel.Text.{has_prefix, trim_prefix, index}

abbrev pub Sink : Type 0
Sink = ℕ

-- The fields of `config.Namespace` that the gateway's core reads.
pub record Namespace : Type 0 where
  pub name : Bytes
  pub client_events : Bool
  pub rate_limit : Bytes

pub data HubError : Type 0 where
  reserved_channel unknown_namespace already_subscribed not_subscribed : HubError
  subscription_limit not_registered duplicate_id : HubError

-- The channel `wake` holds one token at most. `closers` are the overflow goroutines that have not yet
-- run, in the order in which they were spawned.
pub record Hub : Type 0 where
  pub prefix : Bytes
  pub separator : Bytes
  pub namespaces : Bytes → Option Namespace
  pub max_subs : ℕ
  pub control_key : Bytes
  pub channels : Bytes → Option (List Sink)
  pub subs : Sink → Option (List Bytes)
  pub users : Bytes → Option (List Sink)
  pub user_of : Sink → Option Bytes
  pub clients : Bytes → Option Sink
  pub desired : List Bytes
  pub dirty : Bool
  pub wake : Bool
  pub closeq : List Sink
  pub closer_queue : ℕ
  pub close_done : Bool
  pub closers : List Sink

abbrev pub control_channel : Bytes
control_channel = codes "_control"

abbrev pub reserved_prefix : Bytes
reserved_prefix = codes "_"

-- The entries of a set that may be missing: ranging over a nil map visits nothing.
abbrev pub members {ℓ} : {A : Type ℓ} → Option (List A) → List A
members none = []
members (some xs) = xs

abbrev pub present {ℓ} : {A : Type ℓ} → Option A → Bool
present none = false
present (some a) = true

unfoldable pub key : Hub → Bytes → Bytes
key h channel = h.prefix ++ channel

unfoldable pub channel_name : Hub → Bytes → Bytes
channel_name h k = trim_prefix k h.prefix

unfoldable pub namespace_name : Bytes → Bytes → Bytes
unfolding index
namespace_name channel separator = elim (index channel separator) [
  | none ↦ channel
  | some i ↦ take i channel
]

-- `Namespace`
unfoldable pub namespace : Hub → Bytes → Option Namespace
unfolding namespace_name
namespace h channel = elim (h.namespaces (namespace_name channel h.separator)) [
  | some ns ↦ some ns
  | none ↦ h.namespaces []
]

-- `admit`; the error is none where the channel may be subscribed to.
unfoldable pub admit : Hub → Bytes → Option HubError
unfolding namespace has_prefix
admit h channel =
    if has_prefix channel reserved_prefix
    then some reserved_channel
    else (if present (namespace h channel) then none else some unknown_namespace)

-- `markDirty`
unfoldable pub mark_dirty : Hub → Hub
mark_dirty h = record h { dirty = true; wake = true }

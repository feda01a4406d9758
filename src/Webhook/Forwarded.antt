-- ===== src/Webhook/Forwarded.antt =====
-- internal/webhook/forwarded.go: which address the application is told. net, net/netip and
-- strings.TrimSpace are parameters; a prefix is its test of an address.
use sidecartunnel.Base.{Bool, false, ◌||◌, Option, none, some, List, [], ◌∷◌, if◌then◌else◌, Bytes}
use mathlib.Core.List.{reverse}
use sidecartunnel.Text.{split}

-- `within`
unfoldable pub within {ℓ} : {Addr : Type ℓ} → Addr → List (Addr → Bool) → Bool
within addr [] = false
within addr (contains ∷ prefixes) = contains addr || within addr prefixes

module _ {ℓ} {Addr : Type ℓ} (parse_addr : Bytes → Option Addr) (host_of : Bytes → Option Bytes)
    (canonical : Addr → Addr) where
  -- `parseHop` where the text is no address: a host and a port.
  unfoldable pub parse_host : Option Bytes → Option Addr
  parse_host none = none
  parse_host (some host) = elim (parse_addr host) [
    | none ↦ none
    | some addr ↦ some (canonical addr)
  ]

  -- `parseHop`; `canonical` is `Unmap` and then `WithZone("")`.
  unfoldable pub parse_hop : Bytes → Option Addr
  unfolding parse_host
  parse_hop s = elim (parse_addr s) [
    | none ↦ parse_host (host_of s)
    | some addr ↦ some (canonical addr)
  ]

  module _ (trim_space : Bytes → Bytes) (trusted : List (Addr → Bool)) where
    -- The loop of `forwardedFor`, over the hops from the last to the first.
    unfoldable pub walk : Addr → List Bytes → Addr
    unfolding parse_hop within
    walk peer [] = peer
    walk peer (hop ∷ hops) =
        let rest = walk peer hops in
        elim (parse_hop (trim_space hop)) [
          | none ↦ peer
          | some addr ↦ if within addr trusted then rest else addr
        ]

    -- `forwardedFor`
    unfoldable pub forwarded_for : (Addr → Bytes) → Bytes → Bytes → Bytes
    unfolding walk
    forwarded_for text_of peer xff = elim (parse_hop peer) [
      | none ↦ []
      | some addr ↦
          if within addr trusted
          then text_of (walk addr (reverse (split xff b',')))
          else text_of addr
    ]

-- ===== src/Server/Examples.antt =====
-- internal/server and internal/conn: a client's session on the small hub, and the theorems on it.
use sidecartunnel.Base.{
  ◌<◌, ◌≡◌, refl, ◌↔◌, true, false, List, [], ◌∷◌, none, some, Bytes, codes, length, has,
  bytes_discrete, ok,
}
use sidecartunnel.Text.{has_prefix}
use sidecartunnel.Proto.{Frame, pong, reply}
use sidecartunnel.Glob.{GrantSet, compile, new_set}
use sidecartunnel.Glob.Grants.{AnyCovers}
use sidecartunnel.Conn.{Conn}
use sidecartunnel.Conn.Command.{reserved_prefix, check_channel, bounded, well_formed}
use sidecartunnel.Conn.Command.Channels.{
  IsName, IsSelected, check_channel-Covers, bounded-IsSelected,
}
use sidecartunnel.Hub.Examples.{plain_conn}

-- Connections.

abbrev ready : Conn
ready = plain_conn (codes "a")

abbrev pong_frame : Frame
pong_frame = reply (record { id = 1; body = pong })

-- Channels.

abbrev rooms : List Bytes
rooms = codes "room-*" ∷ []

abbrev room_set : GrantSet
room_set = record {
  patterns =
      record { kind = sidecartunnel.Glob.prefix; head = codes "room-"; tail = []; parts = [] } ∷ [];
}

rooms_compile : new_set rooms ≡ ok room_set
unfolding new_set
rooms_compile = refl

abbrev granted : Conn
granted = record ready { grants = some room_set }

check_channel-Covers_example : (check_channel granted (codes "room-1") ≡ none) ↔ (
    IsName granted (codes "room-1")
    × (has_prefix (codes "room-1") reserved_prefix ≡ false)
    × AnyCovers rooms (codes "room-1"))
check_channel-Covers_example =
    check_channel-Covers granted rooms room_set (codes "room-1") rooms_compile refl

abbrev asked : List Bytes
asked = codes "room-1" ∷ codes "room-1" ∷ codes "room 2" ∷ []

bounded-IsSelected_example :
    IsSelected
      (well_formed ready)
      ready.max_subscriptions
      asked
      (bounded ready asked (well_formed ready))
    × (length (bounded ready asked (well_formed ready)) < ready.max_subscriptions
        → (x : Bytes) → has bytes_discrete x asked ≡ true
        → well_formed ready x ≡ true
        → has bytes_discrete x (bounded ready asked (well_formed ready)) ≡ true)
bounded-IsSelected_example = bounded-IsSelected ready asked (well_formed ready)

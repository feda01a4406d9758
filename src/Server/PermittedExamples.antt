-- ===== src/Server/PermittedExamples.antt =====
-- internal/server, internal/conn and internal/hub together: a client that connects and then subscribes.
use sidecartunnel.Base.{
  ◌≡◌, refl, Bool, true, false, Option, some, List, [], ◌∷◌, ◌++◌, Bytes, codes, bytes_discrete,
  has, include, Result, ok,
}
use sidecartunnel.Proto.{Command, connect, subscribe}
use sidecartunnel.Glob.{GrantSet}
use sidecartunnel.Conn.{Conn}
use sidecartunnel.Conn.Command.{Auth, AuthError}
use sidecartunnel.Hub.Examples.{plain_conn, small}
use sidecartunnel.Hub.State.{Sink}
use sidecartunnel.Hub.Shrinks.{holds}
use sidecartunnel.Hub.System.{adds, new_hub}
use sidecartunnel.Server.Rates.{Rate, default_rate}
use sidecartunnel.Server.Gateway.{Envelope}
use sidecartunnel.Server.PermittedActs.{Act, frame, other, opened, acts, IsGranted, acts-IsGranted}

abbrev room_set : GrantSet
room_set = record {
  patterns =
      record { kind = sidecartunnel.Glob.prefix; head = codes "room-"; tail = []; parts = [] } ∷ [];
}

abbrev waiting : Sink → Conn
waiting s = record (plain_conn (codes "a")) { connect_seen = false }

abbrev rates : Bytes → Rate
rates name = default_rate

abbrev allowed : List Bytes → Result AuthError Auth
allowed subs = ok (record { user = codes "u"; grants = room_set; expires_in = 0 })

abbrev takes_all : Bytes → Envelope → Bool
takes_all k envelope = true

abbrev sends : Option Command → Act
sends f = frame 0 allowed 0 takes_all f

-- The second subscription is to a channel that the grants do not match.
abbrev session : List Act
session =
    other (adds 0)
    ∷ sends (some (record { id = 1; request = connect (codes "room-1" ∷ codes "hall" ∷ []) }))
    ∷ sends (some (record { id = 2; request = subscribe (codes "room-2") }))
    ∷ sends (some (record { id = 3; request = subscribe (codes "hall") }))
    ∷ []

keys_held :
    (acts rates (opened small waiting) session).world.hub.subs 0
    ≡ some (codes "p:room-1" ∷ codes "p:room-2" ∷ [])
unfolding acts bytes_discrete has include new_hub
keys_held = refl

room_held : holds (acts rates (opened small waiting) session).world.hub 0 (codes "p:room-2") ≡ true
unfolding bytes_discrete has
room_held = rw keys_held refl

acts-IsGranted_example :
    let w = (acts rates (opened small waiting) session).world in
    (channel : Bytes) × (codes "p:room-2" ≡ w.hub.prefix ++ channel) × IsGranted (w.conns 0) channel
acts-IsGranted_example =
    acts-IsGranted rates small waiting session 0 (codes "p:room-2") (λ t a. refl) room_held

-- ===== src/Bus/RedisExamples.antt =====
-- internal/bus/redis.go: a bus that loses its connection in the middle of a Sync.
use sidecartunnel.Base.{
  ℕ, ◌≡◌, refl, true, false, List, [], ◌∷◌, ◌==◌, if◌then◌else◌, codes, bytes_discrete,
}
use sidecartunnel.Bus.Redis.{
  RedisBus, transport, Reply, acknowledged, lost, sort, missing, change, chunk, sync,
}
use sidecartunnel.Bus.RedisLink.{Event, syncs, connects, loses, handle_all, new_redis_bus}
use sidecartunnel.Bus.RedisRuns.{IsSound, handle_all-new-IsSound}
use sidecartunnel.Bus.RedisSettles.{IsSync, sync-IsSync, IsRestored, reconnect-restores}

abbrev answers : ℕ → Reply
answers i = acknowledged

-- The first command is acknowledged, the second lost.
abbrev breaks : ℕ → Reply
breaks i = if i == 0 then acknowledged else lost transport (codes "a" ∷ [])

abbrev events : List Event
events =
    connects answers
    ∷ syncs answers false (codes "a" ∷ codes "b" ∷ [])
    ∷ syncs breaks false (codes "c" ∷ codes "d" ∷ codes "e" ∷ [])
    ∷ []

abbrev bus : RedisBus
bus = handle_all (new_redis_bus 8 2 0) events

-- Both channels are dropped, and the connection breaks at the first command that subscribes.
broken : (bus.current ≡ []) × (bus.cut ≡ true) × (bus.linked ≡ true)
unfolding handle_all new_redis_bus chunk sort missing change bytes_discrete
broken = (refl, refl, refl)

handle_all-new-IsSound_example : IsSound (handle_all (new_redis_bus 8 2 0) events)
handle_all-new-IsSound_example = handle_all-new-IsSound 8 2 0 events

sync-IsSync_example :
    IsSync bus
      (sync answers bus false (codes "f" ∷ [])).0
      false
      (codes "f" ∷ [])
      (sync answers bus false (codes "f" ∷ [])).1
sync-IsSync_example =
    sync-IsSync answers bus false (codes "f" ∷ []) (handle_all-new-IsSound 8 2 0 events)

open_still : bus.closing ≡ false
unfolding handle_all new_redis_bus chunk sort missing change bytes_discrete
open_still = refl

reconnect-restores_example : IsRestored bus (handle_all bus (loses 5 ∷ connects answers ∷ []))
reconnect-restores_example = reconnect-restores 8 2 0 5 events answers open_still (λ i. refl)

restored :
    (handle_all bus (loses 5 ∷ connects answers ∷ [])).server
    ≡ codes "c" ∷ codes "d" ∷ codes "e" ∷ []
unfolding handle_all new_redis_bus chunk sort missing change bytes_discrete
restored = refl

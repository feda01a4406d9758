-- ===== src/Bus/Examples.antt =====
-- internal/bus/memory.go: a bus with room for one message.
use sidecartunnel.Base.{
  ◌+◌, ◌^◌, ◌≤◌, ◌<◌, ◌≡◌, refl, false, List, [], ◌∷◌, ◌++◌, Bytes, codes, length, has,
  bytes_discrete, ok, arith,
}
use sidecartunnel.Bus.Memory.{
  Message, MemoryBus, sync, Operation, syncs, publishes, receives, operate_all,
}
use sidecartunnel.Bus.Accounts.{all_arrive, operate_all-IsAccounted}

abbrev empty_bus : MemoryBus
empty_bus = record { out = []; intake = 1; subs = []; closed = false; dropped = 0 }

abbrev on_a : List Bytes
on_a = codes "a" ∷ []

abbrev subscribed : MemoryBus
subscribed = record empty_bus { subs = on_a }

syncs_to_a : sync empty_bus false on_a ≡ ok subscribed
unfolding sync
syncs_to_a = refl

abbrev three : List Operation
three =
    syncs false on_a
    ∷ publishes false (codes "a") (codes "1")
    ∷ publishes false (codes "a") (codes "2")
    ∷ receives
    ∷ []

one_dropped : (operate_all empty_bus three).0.dropped ≡ 1
unfolding operate_all has bytes_discrete
one_dropped = refl

short_run : 0 + length {A = Operation} three < 2 ^ 64
short_run = omega arith

operate_all-IsAccounted_example :
    let b' = (operate_all empty_bus three).0 in
    let taken = (operate_all empty_bus three).1 in
    let arrived = all_arrive empty_bus three in
    (length taken + length b'.out + b'.dropped ≡ length {A = Message} [] + 0 + length arrived)
    × (0 ≤ b'.dropped)
    × (b'.dropped ≡ 0 → taken ++ b'.out ≡ [] ++ arrived)
operate_all-IsAccounted_example = operate_all-IsAccounted empty_bus three short_run

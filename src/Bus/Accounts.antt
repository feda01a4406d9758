-- ===== src/Bus/Accounts.antt =====
-- internal/bus/memory.go: what a Sync leaves, and where every published message goes.
use sidecartunnel.Base.{
  suc, ◌+◌, ◌%◌, ◌^◌, ◌≤◌, ◌<◌, ◌≡◌, refl, sym, ap, ◌∙◌, inl, inr, Bool, true, false, ◌||◌, List,
  [], ◌∷◌, ◌++◌, append-nil, append_assoc, arith, ltb, if◌then◌else◌, Bool-cases, Bytes, length,
  length-append, bytes_discrete, has, include, has-include, Result, ok, err,
}
use sidecartunnel.Bus.Memory.{
  Message, MemoryBus, BusError, bus_closed, to_set, sync, put, publish, receive, close, Operation,
  syncs, publishes, receives, closes, operate, operate_all, settled,
}

has-to_set :
    (set desired : List Bytes) (k : Bytes)
    → has bytes_discrete k (to_set set desired)
      ≡ (has bytes_discrete k set || has bytes_discrete k desired)
unfolding to_set has
has-to_set set [] k = ground arith
has-to_set set (channel ∷ desired) k =
    has-to_set (include bytes_discrete channel set) desired k
    ∙ ground (arith, has-include bytes_discrete channel k set)

-- A Sync that succeeds subscribes the bus to exactly the desired channels, and the same Sync again
-- changes nothing; on a closed bus both Sync and Publish fail, whatever they are given.
pub sync-exact :
    (b b' : MemoryBus) (desired : List Bytes) (channel payload : Bytes)
    → sync b false desired ≡ ok b'
    → ((k : Bytes) → has bytes_discrete k b'.subs ≡ has bytes_discrete k desired)
      × (sync b' false desired ≡ ok b')
      × (sync (close b') false desired ≡ err bus_closed)
      × (publish (close b') false channel payload ≡ err bus_closed)
unfolding sync publish close has
sync-exact b b' desired channel payload r = elim (Bool-cases b.closed) [
  | inl shut ↦ absurd (ground arith)
  | inr opened ↦
      let e : record b { subs = to_set [] desired } ≡ b' = ground arith in
      rw (← e) (λ k. has-to_set [] desired k, rw opened refl, refl, refl)
]

-- The message of an operation that reaches an open bus on a channel that it is subscribed to.
unfoldable pub arrives : MemoryBus → Operation → List Message
unfolding has
arrives b (publishes finished channel payload) =
    if finished || b.closed
    then []
    else if has bytes_discrete channel b.subs
    then record { channel = channel; payload = payload } ∷ []
    else []
arrives b (syncs finished desired) = []
arrives b receives = []
arrives b closes = []

unfoldable pub all_arrive : MemoryBus → List Operation → List Message
unfolding arrives operate
all_arrive b [] = []
all_arrive b (o ∷ os) = arrives b o ++ all_arrive (operate b o).0 os

-- What a run, from `b` to `b'`, has made of the messages that reached it.
abbrev IsAccounted : MemoryBus → List Message → MemoryBus → List Message → Type 0
IsAccounted b arrived b' taken =
    (length taken + length b'.out + b'.dropped ≡ length b.out + b.dropped + length arrived)
    × (b.dropped ≤ b'.dropped)
    × (b'.dropped ≡ b.dropped → taken ++ b'.out ≡ b.out ++ arrived)

-- A message that reaches the bus is queued or counted.
put-IsAccounted :
    (b : MemoryBus) (message : Message)
    → b.dropped + 1 < 2 ^ 64
    → IsAccounted b (message ∷ []) (put b message) [] × ((put b message).dropped ≤ suc b.dropped)
unfolding put
put-IsAccounted b message few = elim (Bool-cases (ltb (length b.out) b.intake)) [
  | inl room ↦
      rw room
        ((ground (arith, length-append b.out (message ∷ [])), omega arith, λ e. refl), omega arith)
  | inr full ↦
      let e : suc b.dropped % 2 ^ 64 ≡ suc b.dropped = ground arith in
      rw (full, e) ((omega arith, omega arith, λ q. absurd (omega arith)), omega arith)
]

unchanged :
    (b b' : MemoryBus)
    → b'.out ≡ b.out
    → b'.dropped ≡ b.dropped
    → IsAccounted b [] b' [] × (b'.dropped ≤ suc b.dropped)
unchanged b b' o d = (
  (
    ground (arith, ap (λ (x : List Message). length x) o),
    omega arith,
    λ e. o ∙ sym (append-nil b.out),
  ),
  omega arith,
)

-- A publish, by whether the bus is closed and whether it is subscribed to the channel.
sent :
    (b : MemoryBus) (m : Message)
    → b.dropped + 1 < 2 ^ 64
    → (shut held : Bool)
    → let result : Result BusError MemoryBus =
        if shut then err bus_closed else if held then ok (put b m) else ok b in
      IsAccounted b (if shut then [] else if held then m ∷ [] else []) (settled b result) []
      × ((settled b result).dropped ≤ suc b.dropped)
sent b m few true held = unchanged b b refl refl
sent b m few false true = put-IsAccounted b m few
sent b m few false false = unchanged b b refl refl

operate-IsAccounted :
    (b : MemoryBus) (o : Operation)
    → b.dropped + 1 < 2 ^ 64
    → IsAccounted b (arrives b o) (operate b o).0 (operate b o).1
      × ((operate b o).0.dropped ≤ suc b.dropped)
unfolding operate arrives sync publish receive close
operate-IsAccounted b (syncs true desired) few = unchanged b b refl refl
operate-IsAccounted b (syncs false desired) few = elim (Bool-cases b.closed) [
  | inl shut ↦ rw shut (unchanged b b refl refl)
  | inr opened ↦ rw opened (unchanged b (record b { subs = to_set [] desired }) refl refl)
]
operate-IsAccounted b closes few = unchanged b (close b) refl refl
operate-IsAccounted b receives few = received_next b.out refl
  where
    received_next :
        (q : List Message)
        → b.out ≡ q
        → IsAccounted b [] (operate b receives).0 (operate b receives).1
          × ((operate b receives).0.dropped ≤ suc b.dropped)
    received_next [] e = ground (arith, append-nil b.out)
    received_next (message ∷ rest) e = ground (arith, append-nil b.out)
operate-IsAccounted b (publishes true channel payload) few = unchanged b b refl refl
operate-IsAccounted b (publishes false channel payload) few =
    sent b (record { channel = channel; payload = payload }) few b.closed
      (has bytes_discrete channel b.subs)

then-IsAccounted :
    (b b1 b2 : MemoryBus) (a1 a2 t1 t2 : List Message)
    → IsAccounted b a1 b1 t1
    → IsAccounted b1 a2 b2 t2
    → IsAccounted b (a1 ++ a2) b2 (t1 ++ t2)
then-IsAccounted b b1 b2 a1 a2 t1 t2 (count, more, order) (count', more', order') = (
  ground (arith, length-append t1 t2, length-append a1 a2),
  omega arith,
  λ e.
      append_assoc t1 t2 b2.out
      ∙ ap (◌++◌ t1) (order' (omega arith))
      ∙ sym (append_assoc t1 b1.out a2)
      ∙ ap (λ x. x ++ a2) (order (omega arith))
      ∙ append_assoc b.out a1 a2,
)

-- Of the messages that reach an open bus on a channel that it is subscribed to, in a run of calls that
-- is too short for the counter to wrap: each is received, or waits in the channel, or is counted as
-- dropped; and where none is dropped, they are received in the order in which they came.
pub operate_all-IsAccounted :
    (b : MemoryBus) (os : List Operation)
    → b.dropped + length os < 2 ^ 64
    → let b' = (operate_all b os).0 in
      let taken = (operate_all b os).1 in
      let arrived = all_arrive b os in
      (length taken + length b'.out + b'.dropped ≡ length b.out + b.dropped + length arrived)
      × (b.dropped ≤ b'.dropped)
      × (b'.dropped ≡ b.dropped → taken ++ b'.out ≡ b.out ++ arrived)
unfolding operate_all all_arrive
operate_all-IsAccounted b [] few = (omega arith, omega arith, λ e. sym (append-nil b.out))
operate_all-IsAccounted b (o ∷ os) few =
    let (v, up) = operate-IsAccounted b o (omega arith) in
    let b1 = (operate b o).0 in
    then-IsAccounted b b1 (operate_all b1 os).0 (arrives b o) (all_arrive b1 os) (operate b o).1
      (operate_all b1 os).1 v (operate_all-IsAccounted b1 os (omega arith))

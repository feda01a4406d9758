-- ===== src/Hub/Reconcile.antt =====
-- internal/hub/reconcile.go: the goroutine that drives the bus to the desired set, its interleavings
-- with the calls that change the set, and its backoff.
pub mod Settled
pub mod Backoff
mod Examples
use sidecartunnel.Base.{
  ℕ, zero, suc, ◌+◌, ◌-◌, ◌*◌, ◌%◌, ◌^◌, ◌≡◌, Bool, true, false, ◌&&◌, List, [], Bytes, ltb, leb,
  if◌then◌else◌,
}

-- Where the goroutine stands: at the outer select, before a Swap of the dirty flag, before a
-- snapshot, inside Sync with the snapshot, in `wait`, or returned.
pub data Phase : Type 0 where
  selecting swapping snapshotting : Phase
  syncing : List Bytes → Phase
  waiting stopped : Phase

-- `desired` is the hub's set and `bus` what the bus is subscribed to. A call changes the set under the
-- lock, stores the dirty flag once it has left it, and offers the wake token after that: `unmarked`
-- calls stand between the first two, `unwoken` calls between the last two.
pub record Reconciler : Type 0 where
  pub phase : Phase
  pub attempt : ℕ
  pub dirty : Bool
  pub wake : Bool
  pub desired : List Bytes
  pub bus : List Bytes
  pub unmarked : ℕ
  pub unwoken : ℕ

-- The changes that calls on the hub make.
pub data Produces : Reconciler → Reconciler → Type 0 where
  changes :
      (r : Reconciler) (set : List Bytes)
      → Produces r (record r { desired = set; unmarked = suc r.unmarked })
  stores :
      (r : Reconciler) (n : ℕ)
      → r.unmarked ≡ suc n
      → Produces r (record r { dirty = true; unmarked = n; unwoken = suc r.unwoken })
  nudges :
      (r : Reconciler) (n : ℕ)
      → r.unwoken ≡ suc n
      → Produces r (record r { wake = true; unwoken = n })

-- The turns of the goroutine in which no Sync fails and the hub is not closing.
pub data Turns : Reconciler → Reconciler → Type 0 where
  wakes :
      (r : Reconciler)
      → r.phase ≡ selecting
      → r.wake ≡ true
      → Turns r (record r { phase = swapping; wake = false })
  swaps_dirty :
      (r : Reconciler)
      → r.phase ≡ swapping
      → r.dirty ≡ true
      → Turns r (record r { phase = snapshotting; dirty = false })
  swaps_clean :
      (r : Reconciler)
      → r.phase ≡ swapping
      → r.dirty ≡ false
      → Turns r (record r { phase = selecting })
  snapshots :
      (r : Reconciler) → r.phase ≡ snapshotting → Turns r (record r { phase = syncing r.desired })
  syncs :
      (r : Reconciler) (set : List Bytes)
      → r.phase ≡ syncing set
      → Turns r (record r { phase = swapping; bus = set; attempt = 0 })
  resumes : (r : Reconciler) → r.phase ≡ waiting → Turns r (record r { phase = swapping })

-- A Sync that fails may leave any set behind it: the contract of `bus.Bus` is that it leaves the old one, which the
-- Redis bus does not keep to. With a closed context `select` and `wait` return.
pub data Stumbles : Reconciler → Reconciler → Type 0 where
  fails :
      (r : Reconciler) (set left : List Bytes)
      → r.phase ≡ syncing set
      → Stumbles r (record r { phase = waiting; bus = left; dirty = true; attempt = suc r.attempt })
  stops_selecting :
      (r : Reconciler) → r.phase ≡ selecting → Stumbles r (record r { phase = stopped })
  stops_waiting : (r : Reconciler) → r.phase ≡ waiting → Stumbles r (record r { phase = stopped })

pub data Reaches : Reconciler → Reconciler → Type 0 where
  here : (r : Reconciler) → Reaches r r
  produced : (r t u : Reconciler) → Reaches r t → Produces t u → Reaches r u
  turned : (r t u : Reconciler) → Reaches r t → Turns t u → Reaches r u
  stumbled : (r t u : Reconciler) → Reaches r t → Stumbles t u → Reaches r u

-- The goroutine alone, with a bus that answers.
pub data TurnsTo : ℕ → Reconciler → Reconciler → Type 0 where
  done : (r : Reconciler) → TurnsTo 0 r r
  turn : (n : ℕ) (r t u : Reconciler) → Turns r t → TurnsTo n t u → TurnsTo (suc n) r u

-- `New` puts the control channel into the set, starts the goroutine, and is then to mark the set.
abbrev pub initial : List Bytes → Reconciler
initial set = record {
  phase = selecting;
  attempt = 0;
  dirty = false;
  wake = false;
  desired = set;
  bus = [];
  unmarked = 1;
  unwoken = 0;
}

-- A duration is the 64 bits of its nanoseconds, and `at_least` its signed comparison with a duration
-- that is not negative.
unfoldable pub at_least : ℕ → ℕ → Bool
at_least d c = ltb d (2 ^ 63) && leb c d

unfoldable pub backoff_loop : ℕ → ℕ → ℕ → ℕ
unfolding at_least
backoff_loop zero d ceiling = d
backoff_loop (suc n) d ceiling =
    let doubled = d * 2 % 2 ^ 64 in
    let rest = backoff_loop n doubled ceiling in if at_least doubled ceiling then ceiling else rest

-- `backoff`
unfoldable pub backoff : ℕ → ℕ → ℕ → ℕ
unfolding backoff_loop
backoff attempt floor ceiling = backoff_loop (attempt - 1) floor ceiling

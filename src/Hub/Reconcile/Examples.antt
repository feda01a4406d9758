-- ===== src/Hub/Reconcile/Examples.antt =====
-- internal/hub/reconcile.go: a start that fails once.
use sidecartunnel.Base.{
  ℕ, ◌^◌, ◌≤◌, ◌<◌, ◌≡◌, refl, ◌≢◌, true, false, List, [], ◌∷◌, Bytes, codes, arith,
}
use sidecartunnel.Hub.Reconcile.{
  Reconciler, selecting, swapping, snapshotting, syncing, waiting, stopped, wakes, swaps_dirty,
  snapshots, fails, syncs, swaps_clean, produced, stores, nudges, Reaches, here, turned, stumbled,
  TurnsTo, initial, backoff,
}
use sidecartunnel.Hub.Reconcile.Settled.{asleep-Settled, reachable-Settles}

abbrev wanted : List Bytes
wanted = codes "p:_control" ∷ []

abbrev stored : Reconciler
stored = record (initial wanted) { dirty = true; unmarked = 0; unwoken = 1 }

abbrev nudged : Reconciler
nudged = record stored { wake = true; unwoken = 0 }

abbrev woken : Reconciler
woken = record nudged { phase = swapping; wake = false }

abbrev cleared : Reconciler
cleared = record woken { phase = snapshotting; dirty = false }

abbrev under_way : Reconciler
under_way = record cleared { phase = syncing wanted }

abbrev failed : Reconciler
failed = record under_way { phase = waiting; dirty = true; attempt = 1; bus = codes "p:half" ∷ [] }

abbrev synced : Reconciler
synced = record under_way { phase = swapping; bus = wanted; attempt = 0 }

abbrev asleep : Reconciler
asleep = record synced { phase = selecting }

to_nudged : Reaches (initial wanted) nudged
to_nudged =
    produced (initial wanted) stored nudged
      (produced (initial wanted) (initial wanted) stored (here (initial wanted))
        (stores (initial wanted) 0 refl))
      (nudges stored 0 refl)

to_under_way : Reaches (initial wanted) under_way
to_under_way =
    turned (initial wanted) cleared under_way
      (turned (initial wanted) woken cleared
        (turned (initial wanted) nudged woken to_nudged (wakes nudged refl refl))
        (swaps_dirty woken refl refl))
      (snapshots cleared refl)

to_failed : Reaches (initial wanted) failed
to_failed =
    stumbled (initial wanted) under_way failed to_under_way
      (fails under_way wanted (codes "p:half" ∷ []) refl)

to_asleep : Reaches (initial wanted) asleep
to_asleep =
    turned (initial wanted) synced asleep
      (turned (initial wanted) under_way synced to_under_way (syncs under_way wanted refl))
      (swaps_clean synced refl refl)

asleep-Settled_example : asleep.bus ≡ asleep.desired
asleep-Settled_example = asleep-Settled wanted asleep to_asleep refl refl refl refl

live : failed.phase ≢ stopped
live = ground arith

reachable-Settles_example :
    (n : ℕ) × (t : Reconciler) × TurnsTo n failed t
    × (n ≤ 6)
    × (t.phase ≡ selecting)
    × (t.bus ≡ failed.desired)
    × (t.desired ≡ failed.desired)
reachable-Settles_example = reachable-Settles wanted failed to_failed live refl refl

low : 100 ≤ 1000
low = omega arith

bound : 1000 < 2 ^ 62
bound = omega arith

fourth_retry : backoff 4 100 1000 ≡ 800
unfolding backoff
fourth_retry = refl

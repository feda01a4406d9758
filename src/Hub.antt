-- ===== src/Hub.antt =====
-- internal/hub: the channel registry, the local fan-out, the control channel and the reconciler.
pub mod State
pub mod Registry
pub mod World
pub mod Control
pub mod System
pub mod Kept
pub mod Invariant
pub mod Gone
pub mod Bystanders
pub mod Evicted
pub mod Shrinks
pub mod Told
pub mod Marked
pub mod MarkedRun
pub mod Delivery
pub mod Revocation
pub mod Revoked
pub mod RoundTrip
pub mod Reconcile
pub mod Examples

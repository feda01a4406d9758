-- ===== src/Hub/Invariant.antt =====
-- internal/hub/hub.go: the invariant of the registry, and that the bodies under the lock keep it.
mod Mirror
mod Index
pub mod Detach
pub mod Insert
pub mod Remove
pub mod Calls
pub mod Reach
use sidecartunnel.Base.{
  ℕ, zero, suc, ◌+◌, ◌-◌, ◌*◌, ◌/◌, ◌%◌, ◌^◌, ◌≤◌, ◌<◌, ◌≡◌, refl, sym, ap, subst, ◌∙◌, ◌≢◌, ◌↔◌,
  ◌⊎◌, inl, inr, ite, Bool, true, false, not, ◌&&◌, ◌||◌, Option, none, some, List, [], ◌∷◌, ◌++◌,
  map, append-nil, append_assoc, arith, dec_lt, dec_le, ℕ_discrete, ltb, leb, ◌==◌, if◌then◌else◌,
  ==_iff, Bool-cases, Option-cases, Bytes, codes, length, take, drop, length-append,
  take-append-drop, length-drop, drop-append, take-append, All, All-append, bytes_discrete,
  append-split, update, has, include, exclude, has-include, has-exclude, Distinct, include-Distinct,
  exclude-Distinct, Result, ok, err, ◌>>=◌, Result-cases, >>=-eq-ok,
}
use sidecartunnel.Text.{has_prefix}
use sidecartunnel.Hub.State.{Sink, Hub, control_channel, members, present}

-- The channel map, the subscription mirror and the desired set are views of one fact.
pub record IsMirrored (h : Hub) : Type 0 where
  pub agree :
      (s : Sink) (k : Bytes)
      → has bytes_discrete k (members (h.subs s)) ≡ has ℕ_discrete s (members (h.channels k))
  pub wanted :
      (k : Bytes)
      → has bytes_discrete k h.desired
        ≡ ite (bytes_discrete k h.control_key) true (present (h.channels k))
  pub no_empty : (k : Bytes) → h.channels k ≢ some []
  pub distinct : (k : Bytes) → Distinct ℕ_discrete (members (h.channels k))
  pub keyed : (k : Bytes) → present (h.channels k) ≡ true → has_prefix k h.prefix ≡ true
  pub control_free : h.channels h.control_key ≡ none
  pub control_named : h.control_key ≡ h.prefix ++ control_channel

abbrev pub filed_under : Option Bytes → Bytes → Bool
filed_under none u = false
filed_under (some v) u = ite (bytes_discrete v u) true false

-- Both indexes name the registered connections, and only those.
pub record IsIndexed (ids : Sink → Bytes) (h : Hub) : Type 0 where
  pub filed :
      (s : Sink) (u : Bytes) → has ℕ_discrete s (members (h.users u)) ≡ filed_under (h.user_of s) u
  pub filed_present : (s : Sink) → present (h.user_of s) ≡ present (h.subs s)
  pub named : (s : Sink) → present (h.subs s) ≡ true → h.clients (ids s) ≡ some s
  pub held :
      (i : Bytes) (s : Sink) → h.clients i ≡ some s → (ids s ≡ i) × (present (h.subs s) ≡ true)

pub record IsCapped (h : Hub) : Type 0 where
  pub capped : (s : Sink) → 0 < h.max_subs → length (members (h.subs s)) ≤ h.max_subs

-- `ids` is each connection's client id, which never changes.
pub record Inv (ids : Sink → Bytes) (h : Hub) : Type 0 where
  pub mirrored : IsMirrored h
  pub indexed : IsIndexed ids h
  pub within : IsCapped h

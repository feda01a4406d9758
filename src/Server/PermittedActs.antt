-- ===== src/Server/PermittedActs.antt =====
-- internal/server, internal/conn and internal/hub together: what a connection may come to hold.
use sidecartunnel.Base.{
  ℕ, ◌≡◌, inl, inr, Bool, true, false, Option, none, some, List, [], ◌∷◌, ◌++◌, arith,
  if◌then◌else◌, if_cases, Option-cases, Bytes, has, Result,
}
use sidecartunnel.Text.{has_prefix}
use sidecartunnel.Glob.{GrantSet, set_matches}
use sidecartunnel.Proto.{Command}
use sidecartunnel.Conn.{Conn}
use sidecartunnel.Conn.Command.{
  Auth, AuthError, reserved_prefix, well_formed, allows, check_channel, handle,
}
use sidecartunnel.Hub.State.{Sink}
use sidecartunnel.Hub.System.{Options, new_hub, Call, step, run}
use sidecartunnel.Hub.Kept.Controls.{gives_channel, step-eased}
use sidecartunnel.Hub.Invariant.Reach.{run-new_hub-Inv, Permits-Anyone}
use sidecartunnel.Hub.Shrinks.{holds}
use sidecartunnel.Server.Rates.{Rate}
use sidecartunnel.Server.Limiter.{new_limiter}
use sidecartunnel.Server.Gateway.{Gateway, Envelope, registry}
use sidecartunnel.Server.Permitted.{IsPermitted, IsOrderly, IsOrderly-eased}
use sidecartunnel.Server.PermittedRun.{handle-IsOrderly}

-- A frame that a connection's reader takes, with the answer of its Authorizer, the clock and the answer of the bus; or
-- another call of the hub, the control messages, the closes and the turns of its goroutines among them.
pub data Act : Type 0 where
  frame :
      Sink
      → (List Bytes → Result AuthError Auth)
      → ℕ
      → (Bytes → Envelope → Bool)
      → Option Command
      → Act
  other : Call → Act

-- The replica at its start.
abbrev pub opened : Options → (Sink → Conn) → Gateway
opened o conns = record {
  world = record { hub = new_hub o; conns = conns };
  limiters = λ s. new_limiter;
  published = [];
}

module _ (rates : Bytes → Rate) where
  -- Only a connection's reader attaches and subscribes.
  unfoldable pub act : Gateway → Act → Gateway
  unfolding handle registry step
  act g (frame s authorize now takes f) = (handle (registry rates now takes s) authorize g f).0
  act g (other c) = if gives_channel c then g else record g { world = step g.world c }

  unfoldable pub acts : Gateway → List Act → Gateway
  unfolding act
  acts g [] = g
  acts g (a ∷ more) = acts (act g a) more

  act-IsOrderly : (g : Gateway) (a : Act) → IsOrderly g.world → IsOrderly (act g a).world
  unfolding act
  act-IsOrderly g (frame s authorize now takes f) v =
      handle-IsOrderly rates now takes s authorize g f v
  act-IsOrderly g (other c) v =
      if_cases (λ (x : Gateway). IsOrderly x.world) (gives_channel c) g
        (record g { world = step g.world c }) (λ _. v)
        (λ quiet. step-eased IsOrderly-eased g.world c v (Permits-Anyone c) quiet)

  acts-IsOrderly :
      (g : Gateway) (more : List Act) → IsOrderly g.world → IsOrderly (acts g more).world
  unfolding acts
  acts-IsOrderly g [] v = v
  acts-IsOrderly g (a ∷ more) v = acts-IsOrderly (act g a) more (act-IsOrderly g a v)

-- A channel that a connection may have: its name is well formed and not reserved, and its grants match it.
pub record IsGranted (c : Conn) (channel : Bytes) : Type 0 where
  pub named : well_formed c channel ≡ true
  pub free : has_prefix channel reserved_prefix ≡ false
  pub grants : GrantSet
  pub given : c.grants ≡ some grants
  pub matched : set_matches grants channel ≡ true

check_channel-IsGranted :
    (c : Conn) (channel : Bytes) → check_channel c channel ≡ none → IsGranted c channel
unfolding check_channel allows
check_channel-IsGranted c channel e = elim (Option-cases c.grants) [
  | inl g ↦ absurd (ground arith)
  | inr (set, g) ↦ record {
    named = ground arith;
    free = ground arith;
    grants = set;
    given = g;
    matched = ground arith;
  }
]

new_hub-IsPermitted :
    (o : Options) (conns : Sink → Conn)
    → ((s : Sink) → (conns s).auth ≡ true → (conns s).grants ≡ none)
    → IsPermitted conns (new_hub o)
unfolding new_hub has
new_hub-IsPermitted o conns f = record { held = λ s k e. absurd (cc); fresh = f }

-- A replica that starts with connections whose grants are not yet known: whatever frames come on
-- whatever connections, one handled at a time, whatever the webhook answers, and whatever else
-- happens to the hub in between, every channel that a connection holds is well formed, not reserved,
-- and matched by the grants that the connection was given.
pub acts-IsGranted :
    (rates : Bytes → Rate) (o : Options) (conns : Sink → Conn) (more : List Act) (s : Sink)
    (k : Bytes)
    → ((t : Sink) → (conns t).auth ≡ true → (conns t).grants ≡ none)
    → holds (acts rates (opened o conns) more).world.hub s k ≡ true
    → let w = (acts rates (opened o conns) more).world in
      (channel : Bytes) × (k ≡ w.hub.prefix ++ channel) × IsGranted (w.conns s) channel
unfolding run
acts-IsGranted rates o conns more s k fresh held =
    let start : IsOrderly (opened o conns).world =
      (run-new_hub-Inv o conns [], new_hub-IsPermitted o conns fresh) in
    let g = acts rates (opened o conns) more in
    let (channel, named, checked) =
      (acts-IsOrderly rates (opened o conns) more start).1.held s k held in
    (channel, named, check_channel-IsGranted (g.world.conns s) channel checked)

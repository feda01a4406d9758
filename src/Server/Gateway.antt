-- ===== src/Server/Gateway.antt =====
-- internal/server/registry.go: the hub as a connection's Registry. The clock's time and the bus's answer
-- to a publish are parameters.
use sidecartunnel.Base.{
  ℕ, Bool, true, false, not, List, [], ◌∷◌, ◌++◌, Option, none, some, Bytes, codes, if◌then◌else◌,
  update, ℕ_discrete, Result, ok, err,
}
use sidecartunnel.Proto.{
  err_unknown_namespace, err_permission_denied, err_already_subscribed, err_not_subscribed,
  err_rate_limited, err_subscription_limit, close_rate_limited,
}
use sidecartunnel.Conn.Registry.{Registry, Failure, command_error, fault}
use sidecartunnel.Hub.State.{
  Sink, HubError, already_subscribed, not_subscribed, subscription_limit, unknown_namespace,
  reserved_channel, not_registered, duplicate_id, key, namespace,
}
use sidecartunnel.Hub.World.{
  World, id_of, user_in, put_conn, attach, subscribe, unsubscribe, subscriptions, remove,
  close_conn,
}
use sidecartunnel.Server.Rates.{Rate}
use sidecartunnel.Server.Limiter.{Limiter, allow}

-- `hub.Envelope`, before its JSON text.
pub record Envelope : Type 0 where
  pub event : Bytes
  pub payload : Bytes
  pub exclude : Bytes
  pub from : Bytes

-- Every connection's registry has a limiter of its own. `published` is what the bus has taken.
pub record Gateway : Type 0 where
  pub world : World
  pub limiters : Sink → Limiter
  pub published : List (Bytes × Envelope)

-- `commandError`
unfoldable pub command_failure : HubError → Failure
command_failure already_subscribed =
    command_error err_already_subscribed (codes "already subscribed")
command_failure not_subscribed = command_error err_not_subscribed (codes "not subscribed")
command_failure subscription_limit =
    command_error err_subscription_limit (codes "subscription limit reached")
command_failure unknown_namespace = command_error err_unknown_namespace (codes "unknown namespace")
command_failure reserved_channel = command_error err_permission_denied (codes "permission denied")
command_failure not_registered = fault
command_failure duplicate_id = fault

abbrev pub relayed : Gateway → Result HubError World → Gateway × Option Failure
relayed g (ok w) = (record g { world = w }, none)
relayed g (err e) = (g, some (command_failure e))

module _ (rates : Bytes → Rate) (now : ℕ) (takes : Bytes → Envelope → Bool) where
  -- `hub.Publish`
  unfoldable pub bus_publish : Gateway → Bytes → Envelope → Gateway × Option Failure
  bus_publish g channel envelope =
      let k = key g.world.hub channel in
      if takes k envelope
      then (record g { published = g.published ++ (k, envelope) ∷ [] }, none)
      else (g, some fault)

  -- The end of `Publish`, with the limiter's answer.
  unfoldable pub publish_limited :
      Gateway → Sink → Bytes → Bytes → Bytes → Bool × Bool → Gateway × Option Failure
  unfolding bus_publish close_conn
  publish_limited g s channel event payload (true, abusive) = bus_publish g channel (record {
    event = event;
    payload = payload;
    from = user_in g.world s;
    exclude = id_of g.world s;
  })
  publish_limited g s channel event payload (false, abusive) =
      let closed =
        close_conn g.world s close_rate_limited (codes "rate limit exceeded repeatedly") in
      (
        if abusive then record g { world = closed } else g,
        some (command_error err_rate_limited (codes "rate limited")),
      )

  -- `Publish`
  unfoldable pub publish : Gateway → Sink → Bytes → Bytes → Bytes → Gateway × Option Failure
  unfolding namespace allow publish_limited
  publish g s channel event payload = elim (namespace g.world.hub channel) [
    | none ↦ (g, some (command_error err_unknown_namespace (codes "unknown namespace")))
    | some ns ↦
        let (l, allowed, abusive) = allow (g.limiters s) now ns.name (rates ns.name) in
        let refusal =
          command_error err_permission_denied
            (codes "client events are not enabled for this channel") in
        let counted = record g { limiters = update ℕ_discrete g.limiters s l } in
        let result = publish_limited counted s channel event payload (allowed, abusive) in
        if not ns.client_events then (g, some refusal) else result
  ]

  -- `registry`, for the connection `s`.
  unfoldable pub registry : Sink → Registry Gateway
  unfolding publish attach subscribe unsubscribe subscriptions remove
  registry s = record {
    conn_in = λ g. g.world.conns s;
    put_in = λ g c. record g { world = put_conn g.world s c };
    attaches = λ g channels ack. record g { world = (attach g.world s channels ack).0 };
    subscribes = λ g channel ack. relayed g (subscribe g.world s channel ack);
    unsubscribes = λ g channel ack. relayed g (unsubscribe g.world s channel ack);
    publishes = λ g channel event payload. publish g s channel event payload;
    subscriptions_in = λ g. subscriptions g.world s;
    deregisters = λ g. record g { world = remove g.world s };
  }

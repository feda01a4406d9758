-- ===== src/Conn/Registry.antt =====
-- internal/conn/conn.go: what a connection asks of the registry behind it, as an interface. `W` is the
-- registry's state together with the connection itself.
use sidecartunnel.Base.{ℕ, true, List, Option, Bytes, if◌then◌else◌}
use sidecartunnel.Proto.{Frame}
use sidecartunnel.Conn.{Conn, send, do_close}

-- A refusal with a code for the client, or any other error.
pub data Failure : Type 0 where
  command_error : ℕ → Bytes → Failure
  fault : Failure

pub record Registry (W : Type 0) : Type 0 where
  pub conn_in : W → Conn
  pub put_in : W → Conn → W
  pub attaches : W → List Bytes → (List Bytes → Option Frame) → W
  pub subscribes : W → Bytes → Option Frame → W × Option Failure
  pub unsubscribes : W → Bytes → Option Frame → W × Option Failure
  pub publishes : W → Bytes → Bytes → Bytes → W × Option Failure
  pub subscriptions_in : W → List Bytes
  pub deregisters : W → W

module _ {W : Type 0} (reg : Registry W) where
  -- `c.Send`
  unfoldable pub sends : W → Option Frame → W
  unfolding send
  sends w f = reg.put_in w (send (reg.conn_in w) f).0

  -- `c.Close`
  unfoldable pub closes : W → ℕ → Bytes → W
  unfolding do_close
  closes w code reason =
      if (reg.conn_in w).closed
      then w
      else reg.deregisters (reg.put_in w (do_close (reg.conn_in w) code reason true))

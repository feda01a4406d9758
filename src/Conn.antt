-- ===== src/Conn.antt =====
-- internal/conn/conn.go: one connection's state, its outbound queue and how it is closed. Durations
-- are milliseconds. The goroutines, the socket and the logger are not part of the state.
pub mod Closing
pub mod Writer
pub mod Writing
pub mod Turning
pub mod Delivered
pub mod Ending
pub mod Shut
pub mod Registry
pub mod Command
use Prim.Native.Nat.{bit_xor, max}
use sidecartunnel.Base.{
  ℕ, suc, ◌+◌, ◌*◌, ◌%◌, ◌^◌, Bool, true, false, not, ◌||◌, List, [], ◌∷◌, ◌++◌, Option, none, some,
  Bytes, codes, ltb, ◌==◌, if◌then◌else◌, length,
}
use sidecartunnel.Proto.{
  Frame, disconnect, close_draining, close_handshake_timeout, close_unauthorized,
  close_protocol_error, close_rate_limited, close_auth_unavailable, close_revoked, close_expired,
}
use sidecartunnel.Glob.{GrantSet}

-- `auth` tells whether the connection still holds its Authorizer; `closed` is the closed flag. The
-- functions here make one step of each call, as the hub's critical sections use them; Conn/Writer.antt takes Send and
-- doClose apart.
pub record Conn : Type 0 where
  pub id : Bytes
  pub auth : Bool
  pub ping_interval : ℕ
  pub retry_spread : ℕ
  pub retry_after_fn : Option (ℕ → ℕ)
  pub max_channel_length : ℕ
  pub max_subscriptions : ℕ
  pub out : List Frame
  pub outbound_queue : ℕ
  pub expires : Option ℕ
  pub connect_seen : Bool
  pub user : Option Bytes
  pub grants : Option GrantSet
  pub closed : Bool
  pub close_code : ℕ
  pub close_reason : Bytes

-- `User`
abbrev pub user_of : Option Bytes → Bytes
user_of none = []
user_of (some u) = u

-- `offer`: the non-blocking append, which refuses the nil frame and a full queue.
unfoldable pub offer : Conn → Option Frame → Conn × Bool
offer c none = (c, false)
offer c (some f) =
    if ltb (length c.out) c.outbound_queue
    then (record c { out = c.out ++ f ∷ [] }, true)
    else (c, false)

-- `Send` with nothing between its look at the flag and its offer: a closed connection drops the frame and reports
-- true.
unfoldable pub send : Conn → Option Frame → Conn × Bool
unfolding offer
send c f = if c.closed then (c, true) else offer c f

unfoldable pub reconnectable : ℕ → Bool
reconnectable code = not (
    code == close_handshake_timeout
    || code == close_unauthorized
    || code == close_protocol_error
    || code == close_revoked)

abbrev pub word : ℕ
word = 2 ^ 64

fnv1a_loop : ℕ → Bytes → ℕ
fnv1a_loop h [] = h
fnv1a_loop h (c ∷ s) = fnv1a_loop (bit_xor h c * 1099511628211 % word) s

-- The 64-bit FNV-1a hash.
unfoldable pub fnv1a : Bytes → ℕ
unfolding fnv1a_loop
fnv1a s = fnv1a_loop 14695981039346656037 s

unfoldable pub default_retry : Bytes → ℕ → ℕ → ℕ
default_retry id retry_spread code =
    if code == close_draining || code == close_expired || code == close_auth_unavailable
    then fnv1a id % max retry_spread 1 + 1
    else if code == close_rate_limited
    then 60000
    else 0

unfoldable pub retry_after : Conn → ℕ → ℕ
unfolding default_retry
retry_after c code = elim c.retry_after_fn [
  | none ↦ default_retry c.id c.retry_spread code
  | some f ↦ f code
]

-- The frame that `doClose` offers.
unfoldable pub disconnect_frame : Conn → ℕ → Bytes → Frame
unfolding reconnectable retry_after
disconnect_frame c code reason = disconnect (record {
  code = code;
  reason = reason;
  reconnect = reconnectable code;
  retry_after = retry_after c code;
})

-- `doClose` up to the call of the registry: the first call marks the connection and, with `notify`,
-- offers the disconnect frame; a later one does nothing.
unfoldable pub do_close : Conn → ℕ → Bytes → Bool → Conn
unfolding offer disconnect_frame
do_close c code reason notify =
    let marked = record c { closed = true } in
    if c.closed
    then c
    else if notify
    then (offer (record marked { close_code = code; close_reason = reason })
        (some (disconnect_frame c code reason))).0
    else marked

-- ===== src/Conn/Command.antt =====
-- internal/conn/command.go: the handlers of a client's commands. Each gives the state it leaves and
-- whether the reader goes on.
pub mod Channels
pub mod Kept
use sidecartunnel.Base.{
  ℕ, ◌/◌, Bool, true, false, not, ◌&&◌, ◌||◌, List, [], ◌∷◌, ◌++◌, Option, none, some, Bytes, codes,
  ltb, leb, ◌==◌, if◌then◌else◌, length, bytes_discrete, has, Result, ok, err,
}
use sidecartunnel.Text.{same, has_prefix}
use sidecartunnel.Proto.{
  Frame, Reply, ReplyBody, reply, error_reply, connect_reply, subscribe_reply, unsubscribe_reply,
  publish_reply, sync_reply, pong, Command, Request, connect, subscribe, unsubscribe, publish, sync,
  ping, err_internal, err_bad_request, err_permission_denied, close_unauthorized,
  close_auth_unavailable,
}
use sidecartunnel.Glob.{GrantSet, set_matches}
use sidecartunnel.Conn.{Conn}
use sidecartunnel.Conn.Registry.{Registry, Failure, command_error, fault, sends, closes}

abbrev pub reserved_prefix : Bytes
reserved_prefix = codes "_"

-- The answer of an Authorizer; `expires_in` is in milliseconds.
pub record Auth : Type 0 where
  pub user : Bytes
  pub grants : GrantSet
  pub expires_in : ℕ

-- `ErrUnauthorized`, or any other error.
pub data AuthError : Type 0 where
  unauthorized unavailable : AuthError

-- `Allows`
unfoldable pub allows : Conn → Bytes → Bool
unfolding set_matches
allows c channel = elim c.grants [ none ↦ false | some set ↦ set_matches set channel ]

-- The loop of `wellFormed`.
unfoldable pub printable : Bytes → Bool
printable [] = true
printable (b ∷ channel) = if leb b 32 || leb 127 b then false else printable channel

-- `wellFormed`
unfoldable pub well_formed : Conn → Bytes → Bool
unfolding printable same
well_formed c channel =
    if same channel [] || ltb c.max_channel_length (length channel)
    then false
    else printable channel

-- `checkChannel`: the code and message of a refusal, none where the channel may be used.
unfoldable pub check_channel : Conn → Bytes → Option (ℕ × Bytes)
unfolding well_formed has_prefix allows
check_channel c channel =
    if not (well_formed c channel)
    then some (err_bad_request, codes "invalid channel")
    else if has_prefix channel reserved_prefix
    then some (err_permission_denied, codes "permission denied")
    else if not (allows c channel)
    then some (err_permission_denied, codes "permission denied")
    else none

-- The loop of `bounded`: `seen` holds the names met so far, `out` those kept.
unfoldable pub bounded_loop : (Bytes → Bool) → ℕ → List Bytes → List Bytes → List Bytes → List Bytes
unfolding has
bounded_loop keep cap seen out [] = out
bounded_loop keep cap seen out (channel ∷ requested) =
    let skipped = bounded_loop keep cap seen out requested in
    let dropped = bounded_loop keep cap (channel ∷ seen) out requested in
    let taken = bounded_loop keep cap (channel ∷ seen) (out ++ channel ∷ []) requested in
    if has bytes_discrete channel seen
    then skipped
    else if not (keep channel)
    then dropped
    else if length out == cap
    then out
    else taken

-- `bounded`
unfoldable pub bounded : Conn → List Bytes → (Bytes → Bool) → List Bytes
unfolding bounded_loop
bounded c requested keep = bounded_loop keep c.max_subscriptions [] [] requested

abbrev pub accepted {ℓ} : {A : Type ℓ} → Option A → Bool
accepted none = true
accepted (some a) = false

-- `admissible`
unfoldable pub admissible : Conn → List Bytes → List Bytes
unfolding bounded check_channel
admissible c requested = bounded c requested (λ channel. accepted (check_channel c channel))

-- `requested`
unfoldable pub requested : Conn → List Bytes → List Bytes
unfolding bounded well_formed
requested c subs = bounded c subs (well_formed c)

-- `encode`, which fails on no frame built here.
abbrev pub encode : ℕ → ReplyBody → Option Frame
encode id body = some (reply (record { id = id; body = body }))

abbrev pub is_connect : Request → Bool
is_connect (connect subs) = true
is_connect _ = false

module _ {W : Type 0} (reg : Registry W) where
  -- `send`
  unfoldable pub answer : W → ℕ → ReplyBody → W × Bool
  unfolding sends
  answer w id body = (sends reg w (encode id body), true)

  -- `fail`
  unfoldable pub fail : W → ℕ → ℕ → Bytes → W × Bool
  unfolding answer
  fail w id code message = answer w id (error_reply code message)

  -- `failWith`
  unfoldable pub fail_with : W → ℕ → Failure → W × Bool
  unfolding fail
  fail_with w id (command_error code message) = fail w id code message
  fail_with w id fault = fail w id err_internal (codes "internal error")

  -- What a handler does with the registry's answer.
  unfoldable pub settle : ℕ → W × Option Failure → W × Bool
  unfolding fail_with
  settle id (w, none) = (w, true)
  settle id (w, some e) = fail_with w id e

  -- `doSubscribe`
  unfoldable pub do_subscribe : W → ℕ → Bytes → W × Bool
  unfolding fail check_channel settle
  do_subscribe w id channel =
      if id == 0
      then fail w 0 err_bad_request (codes "subscribe requires an id")
      else elim (check_channel (reg.conn_in w) channel) [
        | some (code, message) ↦ fail w id code message
        | none ↦ settle id (reg.subscribes w channel (encode id subscribe_reply))
      ]

  -- `doUnsubscribe`
  unfoldable pub do_unsubscribe : W → ℕ → Bytes → W × Bool
  unfolding fail well_formed settle
  do_unsubscribe w id channel =
      if id == 0
      then fail w 0 err_bad_request (codes "unsubscribe requires an id")
      else if not (well_formed (reg.conn_in w) channel)
      then fail w id err_bad_request (codes "invalid channel")
      else settle id (reg.unsubscribes w channel (encode id unsubscribe_reply))

  -- The end of `doPublish`.
  unfoldable pub published_reply : ℕ → W × Option Failure → W × Bool
  unfolding fail_with answer
  published_reply id (w, none) = answer w id publish_reply
  published_reply id (w, some e) = fail_with w id e

  -- `doPublish`
  unfoldable pub do_publish : W → ℕ → Bytes → Bytes → Bytes → W × Bool
  unfolding fail check_channel published_reply same
  do_publish w id channel event data_ =
      if id == 0
      then fail w 0 err_bad_request (codes "publish requires an id")
      else if same event []
      then fail w id err_bad_request (codes "publish requires an event")
      else elim (check_channel (reg.conn_in w) channel) [
        | some (code, message) ↦ fail w id code message
        | none ↦ published_reply id (reg.publishes w channel event data_)
      ]

  -- `doSync`
  unfoldable pub do_sync : W → ℕ → W × Bool
  unfolding fail answer
  do_sync w id =
      if id == 0
      then fail w 0 err_bad_request (codes "sync requires an id")
      else answer w id (sync_reply (reg.subscriptions_in w))

  -- `doPing`
  unfoldable pub do_ping : W → ℕ → W × Bool
  unfolding answer
  do_ping w id = answer w id pong

  abbrev pub greeting : Conn → ℕ → Auth → List Bytes → Option Frame
  greeting c id auth granted = encode id (
      connect_reply (record {
        client = c.id;
        ping = c.ping_interval / 1000;
        expires_in = auth.expires_in / 1000;
        subs = granted;
      }))

  -- The end of `doConnect`: the timer is set where the session expires.
  unfoldable pub arm : W → ℕ → W
  arm w expires_in =
      if ltb 0 expires_in
      then reg.put_in w (record (reg.conn_in w) { expires = some expires_in })
      else w

  -- `doConnect` with the Authorizer's answer.
  unfoldable pub greet : W → ℕ → List Bytes → Auth → W × Bool
  unfolding arm admissible
  greet w id subs auth =
      let c = record (reg.conn_in w) { grants = some auth.grants; user = some auth.user } in
      let attached = reg.attaches (reg.put_in w c) (admissible c subs) (greeting c id auth) in
      (arm attached auth.expires_in, true)

  -- `doConnect`: the Authorizer is asked once, with the channels that the frame names, bounded.
  unfoldable pub do_connect : (List Bytes → Result AuthError Auth) → W → ℕ → List Bytes → W × Bool
  unfolding fail closes requested greet
  do_connect authorize w id subs =
      let c = record (reg.conn_in w) { connect_seen = true; auth = false } in
      let w' = reg.put_in w c in
      if not (reg.conn_in w).auth
      then fail w' id err_bad_request (codes "already connected")
      else elim (authorize (requested c subs)) [
        | err unauthorized ↦ (closes reg w' close_unauthorized (codes "unauthorized"), false)
        | err unavailable ↦
            (closes reg w' close_auth_unavailable (codes "authorization unavailable"), false)
        | ok auth ↦ greet w' id subs auth
      ]

  -- The switch of `handle`.
  unfoldable pub dispatch : (List Bytes → Result AuthError Auth) → W → ℕ → Request → W × Bool
  unfolding do_connect do_subscribe do_unsubscribe do_publish do_sync do_ping
  dispatch authorize w id (connect subs) = do_connect authorize w id subs
  dispatch authorize w id (subscribe channel) = do_subscribe w id channel
  dispatch authorize w id (unsubscribe channel) = do_unsubscribe w id channel
  dispatch authorize w id (publish channel event data_) = do_publish w id channel event data_
  dispatch authorize w id sync = do_sync w id
  dispatch authorize w id ping = do_ping w id

  -- `handle`, with what `proto.Decode` made of the frame: none for one that is malformed.
  unfoldable pub handle : (List Bytes → Result AuthError Auth) → W → Option Command → W × Bool
  unfolding fail dispatch
  handle authorize w none = fail w 0 err_bad_request (codes "malformed frame")
  handle authorize w (some command) =
      if is_connect command.request || (reg.conn_in w).connect_seen
      then dispatch authorize w command.id command.request
      else fail w command.id err_bad_request (codes "connect required")

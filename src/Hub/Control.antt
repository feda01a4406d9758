-- ===== src/Hub/Control.antt =====
-- internal/hub/control.go: control messages, from the decoded JSON object to the connections.
use sidecartunnel.Base.{
  ℕ, Bool, false, not, ◌&&◌, ◌||◌, Option, none, some, List, [], ◌∷◌, if◌then◌else◌, Bytes, codes,
  length, Result, ok, err, ◌>>=◌,
}
use sidecartunnel.Proto.{Frame, push, unsubscribed, close_revoked, close_expired}
use sidecartunnel.Text.{same}
use sidecartunnel.Glob.{Pattern, CompileError, zero_pattern, compile, matches}
use sidecartunnel.Hub.State.{Sink, Hub, members, channel_name}
use sidecartunnel.Hub.Registry.{detach}
use sidecartunnel.Hub.World.{World, remove, close_conn, send_to, mark_if, enqueue_all}

pub record Control : Type 0 where
  pub action : Bytes
  pub user : Bytes
  pub client : Bytes
  pub channel : Bytes
  pub reason : Bytes

pub data ControlError : Type 0 where
  unknown_action no_target ambiguous_target no_channel : ControlError
  bad_channel : CompileError → ControlError

abbrev pub action_disconnect : Bytes
action_disconnect = codes "disconnect"

abbrev pub action_refresh : Bytes
action_refresh = codes "refresh"

abbrev pub action_unsubscribe : Bytes
action_unsubscribe = codes "unsubscribe"

unfoldable pub known_action : Bytes → Bool
unfolding same
known_action a = same a action_disconnect || same a action_refresh || same a action_unsubscribe

abbrev pub compiled : Result CompileError Pattern → Result ControlError Pattern
compiled (ok p) = ok p
compiled (err e) = err (bad_channel e)

-- `validate`
unfoldable pub validate : Control → Result ControlError Pattern
unfolding known_action same compile
validate c =
    if not (known_action c.action)
    then err unknown_action
    else if same c.user [] && same c.client []
    then err no_target
    else if not (same c.user []) && not (same c.client [])
    then err ambiguous_target
    else if not (same c.action action_unsubscribe)
    then ok zero_pattern
    else if same c.channel []
    then err no_channel
    else compiled (compile c.channel)

unfoldable pub one_target : Option Sink → List Sink
one_target none = []
one_target (some s) = s ∷ []

-- `targets`
unfoldable pub targets : Hub → Control → List Sink
unfolding one_target same
targets h c =
    if not (same c.client []) then one_target (h.clients c.client) else members (h.users c.user)

-- `closeAll`
unfoldable pub close_all : World → List Sink → ℕ → Bytes → World
unfolding remove close_conn
close_all w [] code reason = w
close_all w (s ∷ ss) code reason = close_all (close_conn (remove w s) s code reason) ss code reason

-- `orDefault`
unfoldable pub or_default : Bytes → Bytes → Bytes
or_default [] fallback = fallback
or_default (c ∷ s) fallback = c ∷ s

-- The keys of the mirror that the pattern names.
unfoldable pub matched_keys : Hub → Pattern → List Bytes → List Bytes
unfolding channel_name matches
matched_keys h p [] = []
matched_keys h p (k ∷ ks) =
    let rest = matched_keys h p ks in if matches p (channel_name h k) then k ∷ rest else rest

abbrev pub unsubscribed_frame : Hub → Bytes → Bytes → Frame
unsubscribed_frame h k reason =
    push (record { channel = channel_name h k; body = unsubscribed reason })

-- The work on one target: the world, whether a channel lost its last holder, and whether a frame was
-- refused.
unfoldable pub revoke_keys : World → Sink → Bytes → List Bytes → World × Bool × Bool
unfolding detach send_to
revoke_keys w s reason [] = (w, false, false)
revoke_keys w s reason (k ∷ ks) =
    let (h, last) = detach w.hub s k in
    let (w', sent) = send_to (record w { hub = h }) s (some (unsubscribed_frame w.hub k reason)) in
    let (w'', changed, refused) = revoke_keys w' s reason ks in
    (w'', last || changed, not sent || refused)

-- The loop over the targets under the lock, with the connections to close.
unfoldable pub revoke_all : World → List Sink → Bytes → Pattern → World × Bool × List Sink
unfolding revoke_keys matched_keys
revoke_all w [] reason p = (w, false, [])
revoke_all w (s ∷ ss) reason p =
    let (w', changed, refused) =
      revoke_keys w s reason (matched_keys w.hub p (members (w.hub.subs s))) in
    let (w'', changed', slow) = revoke_all w' ss reason p in
    (w'', changed || changed', if refused then s ∷ slow else slow)

-- `controlUnsubscribe`
unfoldable pub control_unsubscribe : World → List Sink → Bytes → Pattern → World
unfolding revoke_all mark_if enqueue_all
control_unsubscribe w ss reason p =
    let (w', changed, slow) = revoke_all w ss reason p in
    enqueue_all (record w' { hub = mark_if changed w'.hub }) slow

-- The switch of `Control` on the action, once the message is valid.
unfoldable pub apply_control : World → Control → Pattern → World
unfolding same targets close_all control_unsubscribe or_default
apply_control w c p =
    if same c.action action_disconnect
    then close_all w (targets w.hub c) close_revoked (or_default c.reason (codes "revoked"))
    else if same c.action action_refresh
    then close_all w (targets w.hub c) close_expired
        (or_default c.reason (codes "re-authorization required"))
    else control_unsubscribe w (targets w.hub c) c.reason p

-- `Hub.Control`
unfoldable pub control : World → Control → Result ControlError World
unfolding validate apply_control
control w c = do p ← validate c; ok (apply_control w c p)

abbrev pub disconnect_of : Bytes → Bytes → Control
disconnect_of user client = record {
  action = action_disconnect;
  user = user;
  client = client;
  channel = [];
  reason = [];
}

-- `Disconnect`, with how many connections it closed.
unfoldable pub disconnect : World → Bytes → Bytes → Result ControlError (World × ℕ)
unfolding validate targets close_all
disconnect w user client = do
  p ← validate (disconnect_of user client)
  let found = targets w.hub (disconnect_of user client)
  ok (close_all w found close_revoked (codes "revoked"), length found)

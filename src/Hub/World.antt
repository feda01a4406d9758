-- ===== src/Hub/World.antt =====
-- internal/hub/hub.go and internal/hub/fanout.go: the exported methods, over the registry and the
-- connections that it sends to. Each call is one critical section, with what it does after it.
use sidecartunnel.Base.{
  ℕ, Bool, true, false, not, ◌&&◌, Option, none, some, List, [], ◌∷◌, ◌++◌, map, ℕ_discrete, ltb,
  if◌then◌else◌, Bytes, codes, length, update, exclude, Result, ok, err, ◌>>=◌,
}
use sidecartunnel.Proto.{Frame, close_slow_consumer}
use sidecartunnel.Conn.{Conn, send, do_close}
use sidecartunnel.Conn
use sidecartunnel.Text.{same}
use sidecartunnel.Hub.State.{Sink, Hub, HubError, members, key, channel_name, admit, mark_dirty}
use sidecartunnel.Hub.Registry.{
  register, insert_locked, drop_locked, remove_locked, reindex, attach_loop,
}

pub record World : Type 0 where
  pub hub : Hub
  pub conns : Sink → Conn

abbrev pub id_of : World → Sink → Bytes
id_of w s = (w.conns s).id

abbrev pub user_in : World → Sink → Bytes
user_in w s = Conn.user_of (w.conns s).user

abbrev pub put_conn : World → Sink → Conn → World
put_conn w s c = record w { conns = update ℕ_discrete w.conns s c }

-- `s.Send(frame)`
unfoldable pub send_to : World → Sink → Option Frame → World × Bool
unfolding send
send_to w s f = let (c, sent) = send (w.conns s) f in (put_conn w s c, sent)

-- `queueAck`: the second part tells whether the connection refused the reply.
unfoldable pub queue_ack : World → Sink → Option Frame → World × Bool
unfolding send_to
queue_ack w s none = (w, false)
queue_ack w s (some f) = let (w', sent) = send_to w s (some f) in (w', not sent)

-- `markDirty`, where the desired set has changed.
unfoldable pub mark_if : Bool → Hub → Hub
unfolding mark_dirty
mark_if changed h = if changed then mark_dirty h else h

-- `Remove`
unfoldable pub remove : World → Sink → World
unfolding remove_locked mark_if
remove w s = elim (w.hub.subs s) [
  | none ↦ w
  | some mirror ↦
      let (h, changed) = remove_locked w.hub s (id_of w s) mirror in
      record w { hub = mark_if changed h }
]

-- `Conn.Close`, which deregisters once it has marked the connection.
unfoldable pub close_conn : World → Sink → ℕ → Bytes → World
unfolding remove do_close
close_conn w s code reason =
    if (w.conns s).closed
    then w
    else remove (put_conn w s (do_close (w.conns s) code reason true)) s

-- `closeSlow`
unfoldable pub close_slow : World → Sink → World
unfolding remove close_conn
close_slow w s = close_conn (remove w s) s close_slow_consumer (codes "outbound queue full")

-- `enqueueClose`: inline once `Close` has stopped waiting, else through the queue, else by a
-- goroutine of its own.
unfoldable pub enqueue_close : World → Sink → World
unfolding close_slow
enqueue_close w s =
    if w.hub.close_done
    then close_slow w s
    else if ltb (length w.hub.closeq) w.hub.closer_queue
    then record w { hub = record (w.hub) { closeq = w.hub.closeq ++ s ∷ [] } }
    else record w { hub = record (w.hub) { closers = w.hub.closers ++ s ∷ [] } }

unfoldable pub enqueue_all : World → List Sink → World
unfolding enqueue_close
enqueue_all w [] = w
enqueue_all w (s ∷ ss) = enqueue_all (enqueue_close w s) ss

-- What follows a critical section: the nudge of the reconciler, and the close of a connection that
-- refused its reply.
unfoldable pub finish : World → Sink → Bool → Bool → World
unfolding mark_if enqueue_close
finish w s changed refused =
    let marked = record w { hub = mark_if changed w.hub } in
    if refused then enqueue_close marked s else marked

-- `Add`
unfoldable pub add : World → Sink → Result HubError World
unfolding register
add w s = do h ← register w.hub s (id_of w s) (user_in w s); ok (record w { hub = h })

unfoldable pub attach_registered : Hub × Bool → Sink → List Bytes → Hub × List Bytes × Bool
unfolding attach_loop
attach_registered (h, true) s channels = attach_loop h s channels
attach_registered (h, false) s channels = (h, [], false)

-- `Attach`, with the channels that were taken.
unfoldable pub attach : World → Sink → List Bytes → (List Bytes → Option Frame) → World × List Bytes
unfolding reindex attach_registered queue_ack finish
attach w s channels ack =
    let (h, granted, changed) = attach_registered (reindex w.hub s (user_in w s)) s channels in
    let (w', refused) = queue_ack (record w { hub = h }) s (ack granted) in
    (finish w' s changed refused, granted)

-- `Subscribe`
unfoldable pub subscribe : World → Sink → Bytes → Option Frame → Result HubError World
unfolding admit insert_locked key queue_ack finish
subscribe w s channel ack = elim (admit w.hub channel) [
  | some e ↦ err e
  | none ↦ do
    (h, first) ← insert_locked w.hub s (key w.hub channel)
    let (w', refused) = queue_ack (record w { hub = h }) s ack
    ok (finish w' s first refused)
]

-- `Unsubscribe`
unfoldable pub unsubscribe : World → Sink → Bytes → Option Frame → Result HubError World
unfolding drop_locked key queue_ack finish
unsubscribe w s channel ack = do
  (h, last) ← drop_locked w.hub s (key w.hub channel)
  let (w', refused) = queue_ack (record w { hub = h }) s ack
  ok (finish w' s last refused)

-- `Subscriptions`, before the sort.
unfoldable pub subscriptions : World → Sink → List Bytes
unfolding channel_name
subscriptions w s = map (channel_name w.hub) (members (w.hub.subs s))

-- `exclude != "" && s.ID() == exclude`
unfoldable pub excluded : Bytes → Bytes → Bool
unfolding same
excluded exclude id = not (same exclude []) && same id exclude

-- The loop of `deliver`: the connections that refused the frame.
unfoldable pub deliver_loop : World → Frame → Bytes → List Sink → World × List Sink
unfolding excluded send_to
deliver_loop w frame exclude [] = (w, [])
deliver_loop w frame exclude (s ∷ holders) =
    let (w', sent) = if excluded exclude (id_of w s) then (w, true) else send_to w s (some frame) in
    let (w'', slow) = deliver_loop w' frame exclude holders in
    (w'', if sent then slow else s ∷ slow)

-- `deliver`
unfoldable pub deliver : World → Bytes → Frame → Bytes → World
unfolding deliver_loop enqueue_all
deliver w k frame exclude =
    let (w', slow) = deliver_loop w frame exclude (members (w.hub.channels k)) in
    enqueue_all w' slow

-- ===== src/Hub/Kept/Conns.antt =====
-- internal/hub: sending to connections, closing them and delivering a message.
use sidecartunnel.Base.{
  ℕ, inl, inr, Bool, true, false, Option, none, some, List, [], ◌∷◌, ◌++◌, arith, ltb,
  if◌then◌else◌, if_cases, Bool-cases, Bytes, codes, length, exclude,
}
use sidecartunnel.Proto.{Frame, close_slow_consumer}
use sidecartunnel.Conn.{Conn, send, do_close}
use sidecartunnel.Hub.State.{Sink, members}
use sidecartunnel.Hub.World.{
  World, id_of, put_conn, send_to, queue_ack, mark_if, remove, close_conn, close_slow,
  enqueue_close, enqueue_all, finish, excluded, deliver_loop, deliver,
}
use sidecartunnel.Hub.Kept.{SameSession, IsEased, with_marks}

pub send-SameSession : (c : Conn) (f : Option Frame) → SameSession c (send c f).0
unfolding send
send-SameSession c none = ground arith
send-SameSession c (some f) = ground arith

pub do_close-SameSession :
    (c : Conn) (code : ℕ) (reason : Bytes) (notify : Bool)
    → SameSession c (do_close c code reason notify)
unfolding do_close
do_close-SameSession c code reason notify = ground arith

module _ {P : World → Type 0} {MayAdd : Sink → Type 0} (kept_by : IsEased P MayAdd) where
  pub mark_if-kept : (w : World) (b : Bool) → P w → P (record w { hub = mark_if b w.hub })
  unfolding mark_if
  mark_if-kept w true v = kept_by.marks w true true w.hub.closeq w.hub.closers w.hub.close_done v
  mark_if-kept w false v = v

  pub send_to-kept : (w : World) (s : Sink) (f : Option Frame) → P w → P (send_to w s f).0
  unfolding send_to
  send_to-kept w s f v = kept_by.puts w s (send (w.conns s) f).0 (send-SameSession (w.conns s) f) v

  pub queue_ack-kept : (w : World) (s : Sink) (ack : Option Frame) → P w → P (queue_ack w s ack).0
  unfolding queue_ack
  queue_ack-kept w s none v = v
  queue_ack-kept w s (some f) v = send_to-kept w s (some f) v

  pub close_conn-kept :
      (w : World) (s : Sink) (code : ℕ) (reason : Bytes) → P w → P (close_conn w s code reason)
  unfolding close_conn
  close_conn-kept w s code reason v =
      let closing = put_conn w s (do_close (w.conns s) code reason true) in
      if_cases P (w.conns s).closed w (remove closing s) (λ e. v)
        (λ e. kept_by.removes closing s (
          kept_by.puts w s (do_close (w.conns s) code reason true)
            (do_close-SameSession (w.conns s) code reason true) v))

  pub close_slow-kept : (w : World) (s : Sink) → P w → P (close_slow w s)
  unfolding close_slow
  close_slow-kept w s v =
      close_conn-kept (remove w s) s close_slow_consumer (codes "outbound queue full")
        (kept_by.removes w s v)

  pub enqueue_close-kept : (w : World) (s : Sink) → P w → P (enqueue_close w s)
  unfolding enqueue_close
  enqueue_close-kept w s v =
      let h = w.hub in
      let queued : World = record w {
        hub = with_marks h h.dirty h.wake (h.closeq ++ s ∷ []) h.closers h.close_done;
      } in
      let spawned : World = record w {
        hub = with_marks h h.dirty h.wake h.closeq (h.closers ++ s ∷ []) h.close_done;
      } in
      let room = ltb (length h.closeq) h.closer_queue in
      if_cases P h.close_done (close_slow w s) (if room then queued else spawned)
        (λ _. close_slow-kept w s v)
        (λ _.
          if_cases P room queued spawned
            (λ _. kept_by.marks w h.dirty h.wake (h.closeq ++ s ∷ []) h.closers h.close_done v)
            (λ _. kept_by.marks w h.dirty h.wake h.closeq (h.closers ++ s ∷ []) h.close_done v))

  pub enqueue_all-kept : (w : World) (ss : List Sink) → P w → P (enqueue_all w ss)
  unfolding enqueue_all
  enqueue_all-kept w [] v = v
  enqueue_all-kept w (s ∷ ss) v = enqueue_all-kept (enqueue_close w s) ss (enqueue_close-kept w s v)

  pub finish-kept :
      (w : World) (s : Sink) (changed refused : Bool) → P w → P (finish w s changed refused)
  unfolding finish
  finish-kept w s changed false v = mark_if-kept w changed v
  finish-kept w s changed true v =
      enqueue_close-kept (record w { hub = mark_if changed w.hub }) s (mark_if-kept w changed v)

  deliver_loop-kept :
      (w : World) (f : Frame) (exclude : Bytes) (ss : List Sink)
      → P w
      → P (deliver_loop w f exclude ss).0
  unfolding deliver_loop
  deliver_loop-kept w f exclude [] v = v
  deliver_loop-kept w f exclude (s ∷ ss) v = elim (Bool-cases (excluded exclude (id_of w s))) [
    | inl e ↦ rw e (deliver_loop-kept w f exclude ss v)
    | inr e ↦
        rw e (deliver_loop-kept (send_to w s (some f)).0 f exclude ss (send_to-kept w s (some f) v))
  ]

  pub deliver-kept :
      (w : World) (k : Bytes) (f : Frame) (exclude : Bytes) → P w → P (deliver w k f exclude)
  unfolding deliver
  deliver-kept w k f exclude v =
      let r = deliver_loop w f exclude (members (w.hub.channels k)) in
      enqueue_all-kept r.0 r.1 (deliver_loop-kept w f exclude (members (w.hub.channels k)) v)

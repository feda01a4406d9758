-- ===== src/Hub/Delivery.antt =====
-- internal/hub/fanout.go: who gets a message that is delivered on a bus key.
use sidecartunnel.Base.{
  ◌≡◌, refl, ap, ◌∙◌, inl, inr, Bool, false, not, ◌&&◌, some, List, [], ◌∷◌, ◌++◌, arith,
  ℕ_discrete, ltb, if◌then◌else◌, if_cases, Bool-cases, Option-cases, Bytes, length, bytes_discrete,
  has, exclude, Distinct,
}
use sidecartunnel.Proto.{Frame}
use sidecartunnel.Conn.{Conn, send}
use sidecartunnel.Text.{has_prefix}
use sidecartunnel.Hub.State.{Sink, Hub, members}
use sidecartunnel.Hub.World.{
  World, id_of, send_to, close_slow, enqueue_close, enqueue_all, excluded, deliver_loop, deliver,
}
use sidecartunnel.Hub.Invariant.Reach.{WorldInv}

-- A connection after a frame has been sent to it, where it is to have it.
abbrev pub given : Bool → Conn → Frame → Conn
given wanted c f = if wanted then (send c (some f)).0 else c

loop-conns :
    (w : World) (f : Frame) (exclude : Bytes) (ss : List Sink) (t : Sink)
    → Distinct ℕ_discrete ss
    → (deliver_loop w f exclude ss).0.conns t
      ≡ given (has ℕ_discrete t ss && not (excluded exclude (id_of w t))) (w.conns t) f
unfolding deliver_loop has send_to
loop-conns w f exclude [] t d = refl
loop-conns w f exclude (s ∷ ss) t d =
    let w' = (send_to w s (some f)).0 in
    elim (Bool-cases (excluded exclude (id_of w s))) [
      | inl skip ↦ elim (ℕ_discrete s t) [
        | yes e ↦ rw skip (rw (← e) (ground (arith, loop-conns w f exclude ss s d.1, d.0)))
        | no n ↦ rw skip (ground (arith, loop-conns w f exclude ss t d.1))
      ]
      | inr goes ↦ elim (ℕ_discrete s t) [
        | yes e ↦ rw goes (rw (← e) (ground (arith, loop-conns w' f exclude ss s d.1, d.0)))
        | no n ↦ rw goes (ground (arith, loop-conns w' f exclude ss t d.1))
      ]
    ]

-- While the closer runs, queueing a close touches no connection and no subscription.
abbrev pub IsQueuedOnly : World → World → Type 0
IsQueuedOnly w w' =
    (w'.conns ≡ w.conns)
    × (w'.hub.channels ≡ w.hub.channels)
    × (w'.hub.subs ≡ w.hub.subs)
    × (w'.hub.close_done ≡ false)

enqueue_close-IsQueuedOnly :
    (w : World) (s : Sink) → w.hub.close_done ≡ false → IsQueuedOnly w (enqueue_close w s)
unfolding enqueue_close
enqueue_close-IsQueuedOnly w s e =
    let queued : World = record w { hub = record (w.hub) { closeq = w.hub.closeq ++ s ∷ [] } } in
    let spawned : World = record w { hub = record (w.hub) { closers = w.hub.closers ++ s ∷ [] } } in
    let room = ltb (length w.hub.closeq) w.hub.closer_queue in
    if_cases (IsQueuedOnly w) w.hub.close_done (close_slow w s) (if room then queued else spawned)
      (λ t. absurd (ground arith))
      (λ t.
        if_cases (IsQueuedOnly w) room queued spawned (λ r. (refl, refl, refl, e))
          (λ r. (refl, refl, refl, e)))

pub enqueue_all-IsQueuedOnly :
    (w : World) (ss : List Sink) → w.hub.close_done ≡ false → IsQueuedOnly w (enqueue_all w ss)
unfolding enqueue_all
enqueue_all-IsQueuedOnly w [] e = (refl, refl, refl, e)
enqueue_all-IsQueuedOnly w (s ∷ ss) e =
    let (c, m, x, d) = enqueue_close-IsQueuedOnly w s e in
    let (c', m', x', d') = enqueue_all-IsQueuedOnly (enqueue_close w s) ss d in
    (c' ∙ c, m' ∙ m, x' ∙ x, d')

hub-loop :
    (w : World) (f : Frame) (exclude : Bytes) (ss : List Sink)
    → (deliver_loop w f exclude ss).0.hub ≡ w.hub
unfolding deliver_loop send_to
hub-loop w f exclude [] = refl
hub-loop w f exclude (s ∷ ss) = elim (Bool-cases (excluded exclude (id_of w s))) [
  | inl skip ↦ rw skip (hub-loop w f exclude ss)
  | inr goes ↦ rw goes (hub-loop (send_to w s (some f)).0 f exclude ss)
]

-- In a state in which the maps agree, and before the hub is closed: a delivery sends the frame once to
-- each connection that holds the key and is not the excluded one, leaves every other connection as it
-- was, and changes no subscription, slow connections included.
pub deliver-conns :
    (w : World) (k : Bytes) (f : Frame) (exclude : Bytes)
    → WorldInv w
    → w.hub.close_done ≡ false
    → ((t : Sink)
        → (deliver w k f exclude).conns t
          ≡ given
              (has bytes_discrete k (members (w.hub.subs t)) && not (excluded exclude (id_of w t)))
              (w.conns t)
              f)
      × ((deliver w k f exclude).hub.subs ≡ w.hub.subs)
unfolding deliver
deliver-conns w k f exclude v e =
    let holders = members (w.hub.channels k) in
    let r = deliver_loop w f exclude holders in
    let h : r.0.hub ≡ w.hub = hub-loop w f exclude holders in
    let (c, m, x, d) = enqueue_all-IsQueuedOnly r.0 r.1 (ap (λ (y : Hub). y.close_done) h ∙ e) in
    (
      λ t.
          ap (λ g. g t) c
          ∙ (rw (v.mirrored.agree t k) (loop-conns w f exclude holders t (v.mirrored.distinct k))),
      x ∙ ap (λ (y : Hub). y.subs) h,
    )

-- A delivery on a key without the bus prefix reaches nobody.
pub deliver-unprefixed :
    (w : World) (k : Bytes) (f : Frame) (exclude : Bytes)
    → WorldInv w
    → has_prefix k w.hub.prefix ≡ false
    → deliver w k f exclude ≡ w
unfolding deliver deliver_loop enqueue_all
deliver-unprefixed w k f exclude v bare = elim (Option-cases (w.hub.channels k)) [
  | inl e ↦ rw e refl
  | inr (set, e) ↦ absurd (ground (arith, v.mirrored.keyed k))
]

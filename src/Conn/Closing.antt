-- ===== src/Conn/Closing.antt =====
-- internal/conn/conn.go: what a send and a close leave in the outbound queue, and the advice that a
-- close gives on reconnecting.
use sidecartunnel.Base.{
  ℕ, ◌≤◌, ◌≡◌, refl, sym, ◌∙◌, ◌⊎◌, inl, inr, Bool, true, false, Option, none, some, List, [], ◌∷◌,
  ◌++◌, append-nil, arith, ltb, if_cases, Bytes, length, length-append,
}
use Prim.Native.Nat.{max}
use native.Mathlib.Nat.{mod-lt}
use sidecartunnel.Proto.{Frame}
use sidecartunnel.Conn.{
  Conn, offer, send, reconnectable, fnv1a, default_retry, disconnect_frame, do_close,
}

-- What stood in the queue stands there first, in the same order; one frame at most has joined it; and
-- the queue stays within its depth.
pub record IsQueued (before after : Conn) : Type 0 where
  pub joined : List Frame
  pub kept_order : after.out ≡ before.out ++ joined
  pub one_more : length joined ≤ 1
  pub bounded : length before.out ≤ before.outbound_queue → length after.out ≤ before.outbound_queue

unmoved : (c : Conn) (d : Conn) → d.out ≡ c.out → IsQueued c d
unmoved c d e = record {
  joined = [];
  kept_order = e ∙ sym (append-nil c.out);
  one_more = omega arith;
  bounded = λ le. rw e le;
}

offer-IsQueued : (c : Conn) (f : Option Frame) → IsQueued c (offer c f).0
unfolding offer
offer-IsQueued c none = unmoved c c refl
offer-IsQueued c (some f) =
    if_cases (λ (r : Conn × Bool). IsQueued c r.0) (ltb (length c.out) c.outbound_queue)
      (record c { out = c.out ++ f ∷ [] }, true) (c, false)
      (λ room. record {
        joined = f ∷ [];
        kept_order = refl;
        one_more = omega arith;
        bounded = λ le. ground (arith, length-append c.out (f ∷ []));
      })
      (λ full. unmoved c c refl)

-- A send keeps the queue in order and within its depth, and is refused only by an open connection whose
-- queue is full, or for want of a frame.
pub send-IsQueued :
    (c : Conn) (f : Option Frame)
    → IsQueued c (send c f).0
      × ((send c f).1 ≡ false
          → (c.closed ≡ false) × ((f ≡ none) ⊎ (c.outbound_queue ≤ length c.out)))
unfolding send offer
send-IsQueued c f = (
  if_cases (λ (r : Conn × Bool). IsQueued c r.0) c.closed (c, true) (offer c f)
      (λ closed. unmoved c c refl) (λ opened. offer-IsQueued c f),
  refusals f,
)
  where
    refusals :
        (g : Option Frame)
        → (send c g).1 ≡ false
        → (c.closed ≡ false) × ((g ≡ none) ⊎ (c.outbound_queue ≤ length c.out))
    refusals none r = (ground arith, inl refl)
    refusals (some g) r = (ground arith, inr (ground arith))

-- A close marks the connection, keeps what was queued in order and within its depth, and offers the
-- disconnect frame last; whatever close comes after it changes nothing.
pub do_close-once :
    (c : Conn) (code code' : ℕ) (reason reason' : Bytes) (notify notify' : Bool)
    → ((do_close c code reason notify).closed ≡ true)
      × IsQueued c (do_close c code reason notify)
      × (do_close (do_close c code reason notify) code' reason' notify'
          ≡ do_close c code reason notify)
unfolding do_close offer
do_close-once c code code' reason reason' notify notify' =
    let marks : (do_close c code reason notify).closed ≡ true = ground arith in
    (marks, queued notify, rw marks refl)
  where
    queued : (n : Bool) → IsQueued c (do_close c code reason n)
    queued false = unmoved c (do_close c code reason false) (ground arith)
    queued true =
        let marked : Conn = record c { closed = true; close_code = code; close_reason = reason } in
        let v = offer-IsQueued marked (some (disconnect_frame c code reason)) in
        if_cases (IsQueued c) c.closed c (offer marked (some (disconnect_frame c code reason))).0
          (λ e. unmoved c c refl)
          (λ e. record {
            joined = v.joined;
            kept_order = v.kept_order;
            one_more = v.one_more;
            bounded = v.bounded;
          })

-- An advice to retry after a time other than 0 is given only for a code after which the client may
-- reconnect, and is no longer than the spread or a minute, in milliseconds.
pub default_retry-bound :
    (id : Bytes) (spread code : ℕ)
    → (reconnectable code ≡ false → default_retry id spread code ≡ 0)
      × (default_retry id spread code ≤ max spread 60000)
unfolding default_retry reconnectable
default_retry-bound id spread code =
    (λ r. ground arith, ground (arith, mod-lt (fnv1a id) {m = max spread 1} (ground arith)))

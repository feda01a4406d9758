-- ===== src/Hub/Examples.antt =====
-- internal/hub: two connections on a small hub, as the tests of the package set them up.
use sidecartunnel.Base.{
  ◌≡◌, refl, sym, ap, ◌∙◌, ◌≢◌, ◌⊎◌, Option, true, false, not, ◌&&◌, none, some, List, [], ◌∷◌,
  ℕ_discrete, ◌==◌, if◌then◌else◌, Bytes, codes, bytes_discrete, has, include, ok,
}
use sidecartunnel.Text.{has_prefix}
use sidecartunnel.Proto.{Frame, push, unsubscribed}
use sidecartunnel.Glob.{Pattern, prefix, zero_pattern, matches}
use sidecartunnel.Hub.Control.{
  Control, action_unsubscribe, validate, apply_control, control, disconnect_of,
}
use sidecartunnel.Conn.{Conn}
use sidecartunnel.Hub.State.{Sink, members, channel_name}
use sidecartunnel.Hub.World.{
  World, id_of, remove, excluded, deliver, subscribe, unsubscribe, queue_ack,
}
use sidecartunnel.Hub.System.{Options, Call, adds, attaches, subscribes, kept, new_hub, run}
use sidecartunnel.Hub.Invariant.Reach.{WorldInv, run-new_hub-Inv}
use sidecartunnel.Hub.Marked.{IsMarked}
use sidecartunnel.Hub.MarkedRun.{run-IsMarked}
use sidecartunnel.Hub.Gone.{remove-run-Gone}
use sidecartunnel.Hub.Delivery.{given, deliver-conns}
use sidecartunnel.Hub.Revocation.{IsEnded, is_target, control-disconnects}
use sidecartunnel.Hub.Revoked.{control-unsubscribes}
use sidecartunnel.Hub.Bystanders.{IsUntouched}
use sidecartunnel.Hub.RoundTrip.{IsUndone, IsEvicted, subscribe-unsubscribe}

abbrev pub plain_conn : Bytes → Conn
plain_conn id = record {
  id = id;
  auth = true;
  ping_interval = 25000;
  retry_spread = 60000;
  retry_after_fn = none;
  max_channel_length = 255;
  max_subscriptions = 500;
  out = [];
  outbound_queue = 2;
  expires = none;
  connect_seen = true;
  user = some (codes "u");
  grants = none;
  closed = false;
  close_code = 0;
  close_reason = [];
}

abbrev pub two_conns : Sink → Conn
two_conns s = if s == 0 then plain_conn (codes "a") else plain_conn (codes "b")

abbrev pub small : Options
small = record {
  prefix = codes "p:";
  separator = codes "-";
  namespaces = [];
  max_subscriptions_per_conn = 2;
  closer_queue = 1;
}

abbrev pub opening : List Call
opening = adds 0 ∷ adds 1 ∷ subscribes 0 (codes "x") none ∷ subscribes 1 (codes "x") none ∷ []

abbrev pub start : World
start = record { hub = new_hub small; conns = two_conns }

abbrev pub both_hold : World
both_hold = run start opening

holders_after_opening : members (both_hold.hub.channels (codes "p:x")) ≡ 0 ∷ 1 ∷ []
unfolding run bytes_discrete new_hub has include
holders_after_opening = refl

run-new_hub-Inv_example : WorldInv (run (record { hub = new_hub small; conns = two_conns }) opening)
run-new_hub-Inv_example = run-new_hub-Inv small two_conns opening

-- The same hub once its first reconciliation is over.
abbrev rested : World
rested = record start { hub = record (start.hub) { dirty = false; wake = false } }

grown : has bytes_discrete (codes "p:x") (run rested opening).hub.desired ≡ true
unfolding run bytes_discrete new_hub has include
grown = refl

absent : has bytes_discrete (codes "p:x") rested.hub.desired ≡ false
unfolding bytes_discrete new_hub has
absent = refl

another_set : (run rested opening).hub.desired ≢ rested.hub.desired
another_set e = cc (sym grown ∙ ap (has bytes_discrete (codes "p:x")) e ∙ absent)

run-IsMarked_example : IsMarked (run rested opening).hub
run-IsMarked_example = run-IsMarked rested opening another_set

abbrev late : List Call
late = attaches 0 (codes "x" ∷ []) (λ granted. none) ∷ subscribes 0 (codes "y") none ∷ []

remove-run-Gone_example :
    let h = (run (remove both_hold 0) late).hub in
    ((k : Bytes) → has ℕ_discrete 0 (members (h.channels k)) ≡ false)
    × ((u : Bytes) → has ℕ_discrete 0 (members (h.users u)) ≡ false)
    × ((i : Bytes) → h.clients i ≢ some 0)
remove-run-Gone_example =
    remove-run-Gone both_hold 0 late (run-new_hub-Inv small two_conns opening) (tt, (tt, tt))

abbrev message : Frame
message = push (record { channel = codes "x"; body = unsubscribed (codes "moved") })

opening-Inv : WorldInv both_hold
opening-Inv = run-new_hub-Inv small two_conns opening

still_open : both_hold.hub.close_done ≡ false
unfolding run new_hub has include
still_open = refl

deliver-conns_example :
    ((t : Sink)
      → (deliver both_hold (codes "p:x") message (codes "a")).conns t
        ≡ given
            (has bytes_discrete (codes "p:x") (members (both_hold.hub.subs t))
              && not (excluded (codes "a") (id_of both_hold t)))
            (both_hold.conns t)
            message)
    × ((deliver both_hold (codes "p:x") message (codes "a")).hub.subs ≡ both_hold.hub.subs)
deliver-conns_example =
    deliver-conns both_hold (codes "p:x") message (codes "a") opening-Inv still_open

bare : has_prefix (codes "x") both_hold.hub.prefix ≡ false
unfolding run new_hub has_prefix has include
bare = refl

abbrev revoking : Control
revoking = disconnect_of [] (codes "a")

abbrev dropping : Control
dropping = record {
  action = action_unsubscribe;
  user = codes "u";
  client = [];
  channel = codes "x*";
  reason = [];
}

revoke_valid : control both_hold revoking ≡ ok (apply_control both_hold revoking zero_pattern)
unfolding control validate
revoke_valid = refl

control-disconnects_example :
    (is_target both_hold [] (codes "a") 0 ≡ true
      → IsEnded (apply_control both_hold revoking zero_pattern) 0)
    × (is_target both_hold [] (codes "a") 0 ≡ false
        → IsUntouched both_hold (apply_control both_hold revoking zero_pattern) 0)
control-disconnects_example =
    control-disconnects both_hold (apply_control both_hold revoking zero_pattern) revoking 0
      opening-Inv refl revoke_valid

abbrev x_star : Pattern
x_star = record { kind = prefix; head = codes "x"; tail = []; parts = [] }

drop_compiles : validate dropping ≡ ok x_star
unfolding validate
drop_compiles = refl

drop_valid : control both_hold dropping ≡ ok (apply_control both_hold dropping x_star)
unfolding control validate
drop_valid = refl

control-unsubscribes_example :
    has bytes_discrete
      (codes "p:x")
      (members ((apply_control both_hold dropping x_star).hub.subs 1))
    ≡ (has bytes_discrete (codes "p:x") (members (both_hold.hub.subs 1))
        && not (
            is_target both_hold (codes "u") [] 1
            && matches x_star (channel_name both_hold.hub (codes "p:x"))))
control-unsubscribes_example =
    control-unsubscribes both_hold (apply_control both_hold dropping x_star) dropping x_star 1
      (codes "p:x") opening-Inv still_open refl drop_compiles drop_valid

abbrev one_added : World
one_added = run start (adds 0 ∷ [])

abbrev reply_frame : Option Frame
reply_frame = some message

abbrev subscribed : World
subscribed = kept one_added (subscribe one_added 0 (codes "x") reply_frame)

subscribe_works : subscribe one_added 0 (codes "x") reply_frame ≡ ok subscribed
unfolding run new_hub subscribe bytes_discrete has include
subscribe_works = refl

subscribe-unsubscribe_example :
    IsEvicted one_added subscribed 0 (queue_ack one_added 0 reply_frame).1
    ⊎ ((w'' : World) × (unsubscribe subscribed 0 (codes "x") reply_frame ≡ ok w'')
        × (IsUndone one_added w''
            ⊎ IsEvicted one_added w'' 0 (queue_ack subscribed 0 reply_frame).1))
subscribe-unsubscribe_example =
    subscribe-unsubscribe one_added subscribed 0 (codes "x") reply_frame reply_frame
      (run-new_hub-Inv small two_conns (adds 0 ∷ [])) subscribe_works

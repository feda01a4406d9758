-- ===== src/Hub/Invariant/Reach.antt =====
-- internal/hub: every call, in any order, keeps the registry's invariant, so it holds of every hub that
-- New and any sequence of calls lead to.
use sidecartunnel.Base.{
  ◌≡◌, refl, sym, subst, ◌≢◌, inl, inr, Bool, true, false, List, [], ◌∷◌, arith, Option-cases,
  Bytes, All, has, exclude,
}
use sidecartunnel.Conn.{Conn}
use sidecartunnel.Hub.State.{Sink, Hub, members, key}
use sidecartunnel.Hub.Registry.{remove_locked}
use sidecartunnel.Hub.World.{World, id_of, user_in, put_conn, mark_if, remove}
use sidecartunnel.Hub.System.{
  Options, new_hub, Call, adds, attaches, subscribes, unsubscribes, removes, delivers, controls,
  closes, names_user, writes_frame, closer_turns, overflow_turns, hub_closes, step, run,
}
use sidecartunnel.Hub.Invariant.{IsMirrored, Inv}
use sidecartunnel.Hub.Invariant.Insert.{insert_locked-Inv, detach-Inv}
use sidecartunnel.Hub.Invariant.Remove.{remove_locked-Inv, held-ne-control}
use sidecartunnel.Hub.Invariant.Calls.{
  admit-ne-control, key-has_prefix, register-Inv, attach_registered-Inv, drop_locked-Inv,
}
use sidecartunnel.Hub.Kept.{IsEased, IsKept, with_marks}
use sidecartunnel.Hub.Kept.Controls.{Permits, step-kept, run-kept}

abbrev pub WorldInv : World → Type 0
WorldInv w = Inv (id_of w) w.hub

pub with_marks-Inv :
    (ids : Sink → Bytes) (h : Hub) (d k : Bool) (q c : List Sink) (n : Bool)
    → Inv ids h
    → Inv ids (with_marks h d k q c n)
with_marks-Inv ids h d k q c n v = record {
  mirrored = record {
    agree = v.mirrored.agree;
    wanted = v.mirrored.wanted;
    no_empty = v.mirrored.no_empty;
    distinct = v.mirrored.distinct;
    keyed = v.mirrored.keyed;
    control_free = v.mirrored.control_free;
    control_named = v.mirrored.control_named;
  };
  indexed = record {
    filed = v.indexed.filed;
    filed_present = v.indexed.filed_present;
    named = v.indexed.named;
    held = v.indexed.held;
  };
  within = record { capped = v.within.capped };
}

pub mark_if-Inv : (ids : Sink → Bytes) (b : Bool) (h : Hub) → Inv ids h → Inv ids (mark_if b h)
unfolding mark_if
mark_if-Inv ids true h v = with_marks-Inv ids h true true h.closeq h.closers h.close_done v
mark_if-Inv ids false h v = v

-- A connection may be rewritten as long as its id stays.
pub put_conn-WorldInv :
    (w : World) (s : Sink) (c : Conn) → c.id ≡ id_of w s → WorldInv w → WorldInv (put_conn w s c)
put_conn-WorldInv w s c e v = subst (λ ids. Inv ids w.hub) (λ i t. same_ids t i) v
  where
    same_ids : (t : Sink) → id_of w t ≡ id_of (put_conn w s c) t
    same_ids t = ground arith

pub remove-WorldInv : (w : World) (s : Sink) → WorldInv w → WorldInv (remove w s)
unfolding remove
remove-WorldInv w s v = elim (Option-cases (w.hub.subs s)) [
  | inl e ↦ rw (e, remove) v
  | inr (mirror, e) ↦
      rw (e, remove)
        (mark_if-Inv (id_of w) (remove_locked w.hub s (id_of w s) mirror).1
          (remove_locked w.hub s (id_of w s) mirror).0
          (remove_locked-Inv (id_of w) w.hub s mirror v e))
]

held-All : (h : Hub) (s : Sink) → IsMirrored h → All (λ k. k ≢ h.control_key) (members (h.subs s))
held-All h s m = elim (Option-cases (h.subs s)) [
  | inl e ↦ subst (λ o. All (λ k. k ≢ h.control_key) (members o)) (sym e) tt
  | inr (mirror, e) ↦
      subst (λ o. All (λ k. k ≢ h.control_key) (members o)) (sym e) (held-ne-control h s mirror m e)
]

-- Any connection may be registered.
abbrev pub Anyone : Sink → Type 0
Anyone s = Unit

pub WorldInv-eased : IsEased WorldInv Anyone
WorldInv-eased = record {
  marks = λ w d k q c n v. with_marks-Inv (id_of w) w.hub d k q c n v;
  puts = λ w s c e v. put_conn-WorldInv w s c e.0 v;
  removes = remove-WorldInv;
  registers = λ w h s v may r. register-Inv (id_of w) w.hub h s (user_in w s) v r;
  drops = λ w h s k last v r. drop_locked-Inv (id_of w) w.hub h s k last v r;
  guarded = λ w s v. held-All w.hub s v.mirrored;
  detaches = λ w s k v n. detach-Inv (id_of w) w.hub s k v n;
}

pub WorldInv-kept : IsKept WorldInv Anyone
WorldInv-kept = record {
  eased = WorldInv-eased;
  attaches = λ w s channels v. attach_registered-Inv (id_of w) w.hub s (user_in w s) channels v;
  inserts = λ w h s channel first v a i.
      insert_locked-Inv (id_of w) w.hub h s (key w.hub channel) first v
        (admit-ne-control w.hub channel v.mirrored a) (key-has_prefix w.hub channel) i;
}

pub Permits-Anyone : (c : Call) → Permits Anyone c
Permits-Anyone (adds s) = tt
Permits-Anyone (attaches s channels ack) = tt
Permits-Anyone (subscribes s channel ack) = tt
Permits-Anyone (unsubscribes s channel ack) = tt
Permits-Anyone (removes s) = tt
Permits-Anyone (delivers k frame exclude) = tt
Permits-Anyone (controls c) = tt
Permits-Anyone (closes s code reason) = tt
Permits-Anyone (names_user s user) = tt
Permits-Anyone (writes_frame s out) = tt
Permits-Anyone closer_turns = tt
Permits-Anyone overflow_turns = tt
Permits-Anyone hub_closes = tt

pub all_permitted : (cs : List Call) → All (Permits Anyone) cs
all_permitted [] = tt
all_permitted (c ∷ cs) = (Permits-Anyone c, all_permitted cs)

-- A call, whichever it is, takes a state in which the channel map, the mirrors, the desired set and
-- both indexes agree and no connection is over the cap to another such state.
pub step-WorldInv : (w : World) (c : Call) → WorldInv w → WorldInv (step w c)
step-WorldInv w c v = step-kept WorldInv-kept w c v (Permits-Anyone c)

new_hub-Inv : (ids : Sink → Bytes) (o : Options) → Inv ids (new_hub o)
unfolding new_hub has
new_hub-Inv ids o = record {
  mirrored = record {
    agree = λ s k. refl;
    wanted = λ k. ground arith;
    no_empty = λ k. ground arith;
    distinct = λ k. tt;
    keyed = λ k. ground arith;
    control_free = refl;
    control_named = refl;
  };
  indexed = record {
    filed = λ s u. refl;
    filed_present = λ s. refl;
    named = λ s. ground arith;
    held = λ i s. ground arith;
  };
  within = record { capped = λ s p. omega arith };
}

-- Whatever calls follow `New`, in whatever order, with connections of whatever ids: the channel map,
-- the mirrors, the desired set and both indexes agree, the control key stays wanted, every key has
-- the bus prefix, and no connection is over the cap.
pub run-new_hub-Inv :
    (o : Options) (conns : Sink → Conn) (cs : List Call)
    → WorldInv (run (record { hub = new_hub o; conns = conns }) cs)
run-new_hub-Inv o conns cs =
    run-kept WorldInv-kept (record { hub = new_hub o; conns = conns }) cs
      (new_hub-Inv (λ s. (conns s).id) o) (all_permitted cs)

-- ===== src/Hub/Kept.antt =====
-- internal/hub: what every primitive change keeps, every call keeps. A property of the replica is
-- checked against the critical sections once, and then holds along any sequence of calls.
pub mod Conns
pub mod Subscriptions
pub mod Controls
use sidecartunnel.Base.{
  ℕ, zero, suc, ◌+◌, ◌-◌, ◌*◌, ◌/◌, ◌%◌, ◌^◌, ◌≤◌, ◌<◌, ◌≡◌, refl, sym, ap, subst, ◌∙◌, ◌≢◌, ◌↔◌,
  ◌⊎◌, inl, inr, ite, Bool, true, false, not, ◌&&◌, ◌||◌, Option, none, some, List, [], ◌∷◌, ◌++◌,
  map, append-nil, append_assoc, arith, dec_lt, dec_le, ℕ_discrete, ltb, leb, ◌==◌, if◌then◌else◌,
  ==_iff, if_cases, Bool-cases, Option-cases, Bytes, codes, length, take, drop, length-append,
  take-append-drop, length-drop, drop-append, take-append, All, All-append, bytes_discrete,
  append-split, update, has, include, exclude, has-include, has-exclude, Distinct, include-Distinct,
  exclude-Distinct, Result, ok, err, ◌>>=◌, Result-cases, >>=-eq-ok,
}
use sidecartunnel.Conn.{Conn}
use sidecartunnel.Hub.State.{Sink, Hub, members, key, admit}
use sidecartunnel.Hub.Registry.{detach, drop_locked, insert_locked, register, reindex}
use sidecartunnel.Hub.World.{World, id_of, user_in, put_conn, attach_registered, remove}

-- A hub with other marks and other queues of connections to close.
abbrev pub with_marks : Hub → Bool → Bool → List Sink → List Sink → Bool → Hub
with_marks h dirty wake closeq closers done = record h {
  dirty = dirty;
  wake = wake;
  closeq = closeq;
  closers = closers;
  close_done = done;
}

-- What no call changes of a connection: its id, and what its channels are checked against.
abbrev pub SameSession : Conn → Conn → Type 0
SameSession c d =
    (d.id ≡ c.id)
    × (d.auth ≡ c.auth)
    × (d.grants ≡ c.grants)
    × (d.max_channel_length ≡ c.max_channel_length)

-- The primitive changes that give no channel to a connection, each with what the code has checked where
-- it makes it. `MayAdd` bounds the connections that are registered.
pub record IsEased (P : World → Type 0) (MayAdd : Sink → Type 0) : Type 0 where
  pub marks :
      (w : World) (d k : Bool) (q c : List Sink) (n : Bool)
      → P w
      → P (record w { hub = with_marks w.hub d k q c n })
  pub puts :
      (w : World) (s : Sink) (c : Conn) → SameSession (w.conns s) c → P w → P (put_conn w s c)
  pub removes : (w : World) (s : Sink) → P w → P (remove w s)
  pub registers :
      (w : World) (h : Hub) (s : Sink)
      → P w
      → MayAdd s
      → register w.hub s (id_of w s) (user_in w s) ≡ ok h
      → P (record w { hub = h })
  pub drops :
      (w : World) (h : Hub) (s : Sink) (k : Bytes) (last : Bool)
      → P w
      → drop_locked w.hub s k ≡ ok (h, last)
      → P (record w { hub = h })
  pub guarded :
      (w : World) (s : Sink) → P w → All (λ k. k ≢ w.hub.control_key) (members (w.hub.subs s))
  pub detaches :
      (w : World) (s : Sink) (k : Bytes)
      → P w
      → k ≢ w.hub.control_key
      → P (record w { hub = (detach w.hub s k).0 })

-- All primitive changes, those that give a channel included.
pub record IsKept (P : World → Type 0) (MayAdd : Sink → Type 0) : Type 0 where
  pub eased : IsEased P MayAdd
  pub open eased use *
  pub attaches :
      (w : World) (s : Sink) (channels : List Bytes)
      → P w
      → P (record w { hub = (attach_registered (reindex w.hub s (user_in w s)) s channels).0 })
  pub inserts :
      (w : World) (h : Hub) (s : Sink) (channel : Bytes) (first : Bool)
      → P w
      → admit w.hub channel ≡ none
      → insert_locked w.hub s (key w.hub channel) ≡ ok (h, first)
      → P (record w { hub = h })

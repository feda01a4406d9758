-- ===== src/Hub/Invariant/Calls.antt =====
-- internal/hub: the critical sections of the exported methods keep the invariant.
use sidecartunnel.Base.{
  ◌≡◌, sym, ap, subst, ◌∙◌, ◌≢◌, inl, inr, Bool, true, none, List, [], ◌∷◌, ◌++◌, arith,
  Option-cases, Bytes, length, drop, drop-append, All, bytes_discrete, has, ok, Result-cases,
}
use sidecartunnel.Text.{has_prefix}
use sidecartunnel.Text.Laws.{has_prefix-append}
use sidecartunnel.Hub.State.{Sink, Hub, control_channel, key, admit}
use sidecartunnel.Hub.Registry.{
  insert_locked, detach, drop_locked, index_user, register, reindex, attach_loop,
}
use sidecartunnel.Hub.World.{attach_registered}
use sidecartunnel.Hub.Invariant.{IsMirrored, IsCapped, Inv}
use sidecartunnel.Hub.Invariant.Index.{registered, register-IsIndexed}
use sidecartunnel.Hub.Invariant.Insert.{
  index_user-IsMirrored, index_user-IsCapped, insert_locked-Inv, detach-Inv, index_user-Inv,
}
use sidecartunnel.Hub.Invariant.Remove.{held-ne-control}

append-cancel : (p a b : Bytes) → p ++ a ≡ p ++ b → a ≡ b
append-cancel p a b e = sym (drop-append p a) ∙ ap (drop (length p)) e ∙ drop-append p b

-- A channel that may be subscribed to is not the control channel.
pub admit-ne-control :
    (h : Hub) (channel : Bytes)
    → IsMirrored h
    → admit h channel ≡ none
    → key h channel ≢ h.control_key
unfolding admit key has_prefix
admit-ne-control h channel m a e =
    let same : channel ≡ control_channel =
      append-cancel h.prefix channel control_channel (e ∙ m.control_named) in
    let reserved : admit h control_channel ≡ none = ap (admit h) (sym same) ∙ a in
    absurd (ground arith)

pub key-has_prefix : (h : Hub) (channel : Bytes) → has_prefix (key h channel) h.prefix ≡ true
unfolding key
key-has_prefix h channel = has_prefix-append h.prefix channel

All-has :
    (P : Bytes → Type 0) (k : Bytes) (ks : List Bytes)
    → All P ks
    → has bytes_discrete k ks ≡ true
    → P k
unfolding has
All-has P k [] a h = absurd (ground arith)
All-has P k (j ∷ ks) a h = elim (bytes_discrete j k) [
  | yes e ↦ subst P e a.0
  | no n ↦ All-has P k ks a.1 (ground arith)
]

module _ (ids : Sink → Bytes) where
  registered-IsMirrored :
      (h : Hub) (s : Sink) → IsMirrored h → h.subs s ≡ none → IsMirrored (registered ids h s)
  registered-IsMirrored h s m e = record {
    agree = λ t k. ground (arith, m.agree t k, m.agree s k);
    wanted = m.wanted;
    no_empty = m.no_empty;
    distinct = m.distinct;
    keyed = m.keyed;
    control_free = m.control_free;
    control_named = m.control_named;
  }

  registered-IsCapped : (h : Hub) (s : Sink) → IsCapped h → IsCapped (registered ids h s)
  registered-IsCapped h s c = record { capped = λ t p. ground (arith, c.capped t p) }

  pub register-Inv :
      (h h' : Hub) (s : Sink) (user : Bytes)
      → Inv ids h
      → register h s (ids s) user ≡ ok h'
      → Inv ids h'
  unfolding register
  register-Inv h h' s user v r = elim (Option-cases (h.clients (ids s))) [
    | inl e ↦
        let q : index_user (registered ids h s) s user ≡ h' = ground arith in
        let fresh : h.subs s ≡ none = ground (arith, v.indexed.named s) in
        record {
          mirrored = rw (← q) (
              index_user-IsMirrored (registered ids h s) s user
                (registered-IsMirrored h s v.mirrored fresh));
          indexed = register-IsIndexed ids h h' s user v.indexed r;
          within =
              rw (← q) (
                index_user-IsCapped (registered ids h s) s user (registered-IsCapped h s v.within));
        }
    | inr (t, e) ↦
        let q : index_user h s user ≡ h' = ground arith in
        rw (← q) (index_user-Inv ids h s user v (ground (arith, v.indexed.held (ids s) t)))
  ]

  pub attach_loop-Inv :
      (h : Hub) (s : Sink) (channels : List Bytes)
      → Inv ids h
      → Inv ids (attach_loop h s channels).0
  unfolding attach_loop
  attach_loop-Inv h s [] v = v
  attach_loop-Inv h s (channel ∷ channels) v = elim (Option-cases (admit h channel)) [
    | inr (e, a) ↦ rw (a, attach_loop) (attach_loop-Inv h s channels v)
    | inl a ↦ elim (Result-cases (insert_locked h s (key h channel))) [
      | inr (e, r) ↦ rw (a, r, attach_loop) (attach_loop-Inv h s channels v)
      | inl ((h', first), r) ↦
          rw (a, r, attach_loop)
            (attach_loop-Inv h' s channels (
              insert_locked-Inv ids h h' s (key h channel) first v
                (admit-ne-control h channel v.mirrored a) (key-has_prefix h channel) r))
    ]
  ]

  pub attach_registered-Inv :
      (h : Hub) (s : Sink) (user : Bytes) (channels : List Bytes)
      → Inv ids h
      → Inv ids (attach_registered (reindex h s user) s channels).0
  unfolding reindex attach_registered
  attach_registered-Inv h s user channels v = elim (Option-cases (h.subs s)) [
    | inl e ↦ rw (e, reindex) v
    | inr (m, e) ↦
        rw (e, reindex)
          (attach_loop-Inv (index_user h s user) s channels
            (index_user-Inv ids h s user v (ground arith)))
  ]

  pub drop_locked-Inv :
      (h h' : Hub) (s : Sink) (k : Bytes) (last : Bool)
      → Inv ids h
      → drop_locked h s k ≡ ok (h', last)
      → Inv ids h'
  unfolding drop_locked
  drop_locked-Inv h h' s k last v r = elim (Option-cases (h.subs s)) [
    | inl e ↦ absurd (ground arith)
    | inr (mirror, e) ↦
        let held : has bytes_discrete k mirror ≡ true = ground arith in
        let q : (detach h s k).0 ≡ h' = ground arith in
        rw (← q) (
          detach-Inv ids h s k v (
            All-has (λ j. j ≢ h.control_key) k mirror (held-ne-control h s mirror v.mirrored e)
              held))
  ]

-- ===== src/Consumer/Accounting.antt =====
-- internal/consumer: every message is counted once, only an authentic control message acts, and no
-- message breaks the registry.
use sidecartunnel.Base.{
  ℕ, suc, ◌+◌, ◌≡◌, refl, sym, ap, subst, ◌∙◌, ◌⊎◌, inl, inr, true, false, ◌&&◌, Option, none, some,
  List, [], ◌∷◌, arith, ltb, if_cases, Bool-cases, Option-cases, Bytes, length, ok, Result-cases,
}
use sidecartunnel.Text.{same}
use sidecartunnel.Bus.Memory.{Message}
use sidecartunnel.Proto.{push, published}
use sidecartunnel.Hub.State.{channel_name}
use sidecartunnel.Hub.World.{World, deliver}
use sidecartunnel.Hub.Control.{Control, validate, control}
use sidecartunnel.Hub.Invariant.Reach.{WorldInv, WorldInv-eased}
use sidecartunnel.Hub.Kept.Conns.{deliver-kept}
use sidecartunnel.Hub.Kept.Controls.{control-kept}
use sidecartunnel.Consumer.Messages.{
  Published, Signed, Reason, unsigned, stale, malformed_control, Codec, Consumer, is_stale,
  signed_text, equals, validated, checked, verify, count, apply, fan_out, dispatch, deliver_message,
  consume, consume_all,
}

-- Everything that the counters have counted.
abbrev pub counted : Consumer → ℕ
counted c =
    c.dispatched + c.malformed + c.oversize + c.applied + c.unsigned_count + c.stale_count
    + c.control_malformed

module _ (codec : Codec) where
  counted-count :
      (c : Consumer) (reason : Reason) → counted (count codec c reason) ≡ suc (counted c)
  unfolding count
  counted-count c unsigned = omega arith
  counted-count c stale = omega arith
  counted-count c malformed_control = omega arith

  counted-apply :
      (c : Consumer) (now : ℕ) (payload : Bytes)
      → counted (apply codec c now payload) ≡ suc (counted c)
  unfolding apply
  counted-apply c now payload = elim (Result-cases (verify codec c.secret now payload)) [
    | inr (reason, e) ↦ rw (e, apply) (counted-count c reason)
    | inl (command, e) ↦ elim (Result-cases (control c.world command)) [
      | inr (x, r) ↦ rw (e, r, apply) (counted-count c malformed_control)
      | inl (w, r) ↦ rw (e, r, apply) (omega arith)
    ]
  ]

  counted-deliver_message :
      (c : Consumer) (message : Message)
      → counted (deliver_message codec c message) ≡ suc (counted c)
  unfolding deliver_message
  counted-deliver_message c message =
      elim (Bool-cases (ltb 0 c.max_message && ltb c.max_message (length message.payload))) [
        | inl big ↦ rw big (omega arith)
        | inr fits ↦ elim (Option-cases (dispatch codec c.world message)) [
          | inl e ↦ rw (fits, e) (omega arith)
          | inr (w, e) ↦ rw (fits, e) (omega arith)
        ]
      ]

  counted-consume :
      (c : Consumer) (now : ℕ) (message : Message)
      → counted (consume codec c now message) ≡ suc (counted c)
  unfolding consume
  counted-consume c now message =
      if_cases (λ (x : Consumer). counted x ≡ suc (counted c))
        (same message.channel c.world.hub.control_key) (apply codec c now message.payload)
        (deliver_message codec c message) (λ e. counted-apply c now message.payload)
        (λ e. counted-deliver_message c message)

  -- Each message of a run, whatever it holds, is counted by exactly one of the counters.
  pub counted-consume_all :
      (c : Consumer) (messages : List (ℕ × Message))
      → counted (consume_all codec c messages) ≡ counted c + length messages
  unfolding consume_all
  counted-consume_all c [] = omega arith
  counted-consume_all c ((now, message) ∷ messages) =
      counted-consume_all (consume codec c now message) messages
      ∙ omega (arith, counted-consume c now message)

  -- The document carries a signature that verifies under the secret, a timestamp inside the window, and
  -- a control message that is applied with this result.
  abbrev pub IsAuthentic : Consumer → ℕ → Bytes → World → Type 0
  IsAuthentic c now payload w =
      (s : Signed) × (command : Control) × (codec.signed_of payload ≡ some s)
      × (equals codec (codec.hex_of s.sig) (codec.mac c.secret (signed_text codec s)) ≡ true)
      × (is_stale now s.negative s.ts ≡ false)
      × (codec.control_of s.body ≡ some command)
      × (control c.world command ≡ ok w)

  validated-ok :
      (found : Option Control) (command : Control)
      → validated codec found ≡ ok command
      → found ≡ some command
  validated-ok none command r = absurd (ground arith)
  validated-ok (some c) command r = elim (Result-cases (validate c)) [
    | inr (x, e) ↦ absurd (ground arith)
    | inl (p, e) ↦ ground arith
  ]

  checked-ok :
      (secret : Bytes) (now : ℕ) (s : Signed) (command : Control)
      → checked codec secret now s ≡ ok command
      → (equals codec (codec.hex_of s.sig) (codec.mac secret (signed_text codec s)) ≡ true)
        × (is_stale now s.negative s.ts ≡ false)
        × (codec.control_of s.body ≡ some command)
  unfolding checked
  checked-ok secret now s command r =
      elim (Bool-cases
        (equals codec (codec.hex_of s.sig) (codec.mac secret (signed_text codec s)))) [
          | inr forged ↦ absurd (ground arith)
          | inl genuine ↦ elim (Bool-cases (is_stale now s.negative s.ts)) [
            | inl old ↦ absurd (ground arith)
            | inr fresh ↦
                (genuine, fresh, validated-ok (codec.control_of s.body) command (ground arith))
          ]
        ]

  world-count : (c : Consumer) (reason : Reason) → (count codec c reason).world ≡ c.world
  unfolding count
  world-count c unsigned = refl
  world-count c stale = refl
  world-count c malformed_control = refl

  apply-world :
      (c : Consumer) (now : ℕ) (payload : Bytes)
      → ((apply codec c now payload).world ≡ c.world)
        ⊎ IsAuthentic c now payload (apply codec c now payload).world
  unfolding apply verify
  apply-world c now payload = elim (Option-cases (codec.signed_of payload)) [
    | inl e ↦ inl (ground arith)
    | inr (s, e) ↦ elim (Result-cases (checked codec c.secret now s)) [
      | inr (reason, r) ↦ inl (ground (arith, world-count c reason))
      | inl (command, r) ↦ elim (Result-cases (control c.world command)) [
        | inr (x, q) ↦ inl (ground arith)
        | inl (w, q) ↦
            let (genuine, fresh, parsed) = checked-ok c.secret now s command r in
            let same_world : (apply codec c now payload).world ≡ w = ground arith in
            inr (s, command, e, genuine, fresh, parsed, q ∙ ap ok (sym same_world))
      ]
    ]
  ]

  -- A message on the control key changes the world only where it is authentic: its signature verifies
  -- under the secret, its timestamp is inside the window, and its body is a control message that the
  -- hub accepts; the change is then exactly the one that the hub makes of it.
  pub consume-IsAuthentic :
      (c : Consumer) (now : ℕ) (message : Message)
      → message.channel ≡ c.world.hub.control_key
      → ((consume codec c now message).world ≡ c.world)
        ⊎ IsAuthentic c now message.payload (consume codec c now message).world
  unfolding consume same
  consume-IsAuthentic c now message on_control =
      let e : consume codec c now message ≡ apply codec c now message.payload = ground arith in
      rw e (apply-world c now message.payload)

  fan_out-Inv :
      (w w' : World) (channel : Bytes) (env : Published)
      → WorldInv w
      → fan_out codec w channel env ≡ some w'
      → WorldInv w'
  unfolding fan_out
  fan_out-Inv w w' channel env v r = elim (Option-cases env.payload) [
    | inl e ↦ absurd (ground arith)
    | inr (payload, e) ↦
        let frame = push (record {
          channel = channel_name w.hub channel;
          body = published (record { event = env.event; payload = payload; from = env.from });
        }) in
        let q : deliver w channel frame env.exclude ≡ w' = ground arith in
        rw (← q) (deliver-kept WorldInv-eased w channel frame env.exclude v)
  ]

  deliver_message-Inv :
      (c : Consumer) (message : Message)
      → WorldInv c.world
      → WorldInv (deliver_message codec c message).world
  unfolding deliver_message dispatch
  deliver_message-Inv c message v =
      elim (Bool-cases (ltb 0 c.max_message && ltb c.max_message (length message.payload))) [
        | inl big ↦ rw big v
        | inr fits ↦ elim (Option-cases (codec.published_of message.payload)) [
          | inl e ↦ rw (fits, e) v
          | inr (env, e) ↦ elim (Option-cases (fan_out codec c.world message.channel env)) [
            | inl f ↦ rw (fits, e, f) v
            | inr (w, f) ↦ rw (fits, e, f) (fan_out-Inv c.world w message.channel env v f)
          ]
        ]
      ]

  -- A state in which the maps agree is still one after any message, authentic or not.
  pub consume-Inv :
      (c : Consumer) (now : ℕ) (message : Message)
      → WorldInv c.world
      → WorldInv (consume codec c now message).world
  unfolding consume
  consume-Inv c now message v =
      if_cases (λ (x : Consumer). WorldInv x.world) (same message.channel c.world.hub.control_key)
        (apply codec c now message.payload) (deliver_message codec c message)
        (λ e. elim (apply-world c now message.payload) [
          | inl q ↦ subst WorldInv (sym q) v
          | inr (s, command, a, b, f, p, r) ↦
              control-kept WorldInv-eased c.world (apply codec c now message.payload).world command
                v r
        ])
        (λ e. deliver_message-Inv c message v)

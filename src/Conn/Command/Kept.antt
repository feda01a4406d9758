-- ===== src/Conn/Command/Kept.antt =====
-- internal/conn/command.go: what the registry must keep for every frame to keep it.
use sidecartunnel.Base.{
  ℕ, ◌≡◌, inl, inr, Bool, true, false, not, ◌||◌, Option, none, some, List, [], arith, ltb, ◌==◌,
  if◌then◌else◌, if_cases, Option-cases, Bytes, codes, Result, Result-cases,
}
use sidecartunnel.Text.{same}
use sidecartunnel.Proto.{
  Frame, ReplyBody, error_reply, subscribe_reply, unsubscribe_reply, publish_reply, sync_reply,
  pong, err_bad_request, err_internal, Command, Request, connect, subscribe, unsubscribe, publish,
  sync, ping, close_unauthorized, close_auth_unavailable,
}
use sidecartunnel.Conn.{Conn, send, do_close}
use sidecartunnel.Conn.Registry.{Registry, Failure, command_error, fault, sends, closes}
use sidecartunnel.Conn.Command.{
  Auth, AuthError, unauthorized, unavailable, check_channel, admissible, requested, well_formed,
  answer, fail, fail_with, settle, published_reply, do_subscribe, do_unsubscribe, do_publish,
  do_sync, arm, greet, greeting, do_connect, dispatch, handle, encode, is_connect,
}

-- The connection once a connect frame has been taken, and once its grants are known.
abbrev pub begun : Conn → Conn
begun c = record c { connect_seen = true; auth = false }

abbrev pub welcomed : Conn → Auth → Conn
welcomed c auth = record c { grants = some auth.grants; user = some auth.user }

-- What a handler asks of the registry keeps `P`; the checks that stand before a call are its premises.
pub record Keeps {W : Type 0} (reg : Registry W) (P : W → Type 0) : Type 0 where
  pub offers : (w : W) (f : Option Frame) → P w → P (reg.put_in w (send (reg.conn_in w) f).0)
  pub ends :
      (w : W) (code : ℕ) (reason : Bytes)
      → P w
      → P (reg.deregisters (reg.put_in w (do_close (reg.conn_in w) code reason true)))
  pub subscribing :
      (w : W) (channel : Bytes) (ack : Option Frame)
      → P w
      → check_channel (reg.conn_in w) channel ≡ none
      → P (reg.subscribes w channel ack).0
  pub unsubscribing :
      (w : W) (channel : Bytes) (ack : Option Frame) → P w → P (reg.unsubscribes w channel ack).0
  pub publishing :
      (w : W) (channel event payload : Bytes) → P w → P (reg.publishes w channel event payload).0
  pub arms :
      (w : W) (expires_in : ℕ)
      → P w
      → P (reg.put_in w (record (reg.conn_in w) { expires = some expires_in }))
  pub repeats :
      (w : W) → P w → (reg.conn_in w).auth ≡ false → P (reg.put_in w (begun (reg.conn_in w)))
  pub begins :
      (w : W) → P w → (reg.conn_in w).auth ≡ true → P (reg.put_in w (begun (reg.conn_in w)))
  pub attaching :
      (w : W) (auth : Auth) (subs : List Bytes) (ack : List Bytes → Option Frame)
      → P w
      → (reg.conn_in w).auth ≡ true
      → let w' = reg.put_in w (begun (reg.conn_in w)) in
        let c = welcomed (reg.conn_in w') auth in
        P (reg.attaches (reg.put_in w' c) (admissible c subs) ack)

module _ {W : Type 0} (reg : Registry W) (P : W → Type 0) (keeps : Keeps reg P) where
  open keeps use {
    offers, ends, subscribing, unsubscribing, publishing, arms, repeats, begins, attaching,
  }

  abbrev Leaves : W × Bool → Type 0
  Leaves r = P r.0

  answer-kept : (w : W) (id : ℕ) (body : ReplyBody) → P w → Leaves (answer reg w id body)
  unfolding answer sends
  answer-kept w id body v = offers w (encode id body) v

  fail-kept : (w : W) (id code : ℕ) (message : Bytes) → P w → Leaves (fail reg w id code message)
  unfolding fail
  fail-kept w id code message v = answer-kept w id (error_reply code message) v

  -- A handler that may refuse the frame first.
  refuses-kept :
      (b : Bool) (w : W) (id : ℕ) (message : Bytes) (r : W × Bool)
      → P w
      → (b ≡ false → Leaves r)
      → Leaves (if b then fail reg w id err_bad_request message else r)
  refuses-kept b w id message r v go =
      if_cases Leaves b (fail reg w id err_bad_request message) r
        (λ _. fail-kept w id err_bad_request message v) go

  fail_with-kept : (w : W) (id : ℕ) (e : Failure) → P w → Leaves (fail_with reg w id e)
  unfolding fail_with
  fail_with-kept w id (command_error code message) v = fail-kept w id code message v
  fail_with-kept w id fault v = fail-kept w id err_internal (codes "internal error") v

  settle-kept : (id : ℕ) (r : W × Option Failure) → P r.0 → Leaves (settle reg id r)
  unfolding settle
  settle-kept id (w, none) v = v
  settle-kept id (w, some e) v = fail_with-kept w id e v

  published_reply-kept :
      (id : ℕ) (r : W × Option Failure) → P r.0 → Leaves (published_reply reg id r)
  unfolding published_reply
  published_reply-kept id (w, none) v = answer-kept w id publish_reply v
  published_reply-kept id (w, some e) v = fail_with-kept w id e v

  closes-kept : (w : W) (code : ℕ) (reason : Bytes) → P w → P (closes reg w code reason)
  unfolding closes
  closes-kept w code reason v =
      if_cases P (reg.conn_in w).closed w
        (reg.deregisters (reg.put_in w (do_close (reg.conn_in w) code reason true))) (λ _. v)
        (λ _. ends w code reason v)

  do_subscribe-kept :
      (w : W) (id : ℕ) (channel : Bytes) → P w → Leaves (do_subscribe reg w id channel)
  unfolding do_subscribe
  do_subscribe-kept w id channel v =
      refuses-kept (id == 0) w 0 (codes "subscribe requires an id") _ v (λ _.
        elim (Option-cases (check_channel (reg.conn_in w) channel)) [
          | inr ((code, message), e) ↦ rw e (fail-kept w id code message v)
          | inl e ↦ rw e (
              settle-kept id (reg.subscribes w channel (encode id subscribe_reply))
                (subscribing w channel (encode id subscribe_reply) v e))
        ])

  do_unsubscribe-kept :
      (w : W) (id : ℕ) (channel : Bytes) → P w → Leaves (do_unsubscribe reg w id channel)
  unfolding do_unsubscribe
  do_unsubscribe-kept w id channel v =
      let ack = encode id unsubscribe_reply in
      refuses-kept (id == 0) w 0 (codes "unsubscribe requires an id") _ v (λ _.
        refuses-kept (not (well_formed (reg.conn_in w) channel)) w id (codes "invalid channel") _ v
          (λ _. settle-kept id (reg.unsubscribes w channel ack) (unsubscribing w channel ack v)))

  do_publish-kept :
      (w : W) (id : ℕ) (channel event payload : Bytes)
      → P w
      → Leaves (do_publish reg w id channel event payload)
  unfolding do_publish
  do_publish-kept w id channel event payload v =
      refuses-kept (id == 0) w 0 (codes "publish requires an id") _ v (λ _.
        refuses-kept (same event []) w id (codes "publish requires an event") _ v (λ _.
          elim (Option-cases (check_channel (reg.conn_in w) channel)) [
            | inr ((code, message), e) ↦ rw e (fail-kept w id code message v)
            | inl e ↦ rw e (
                published_reply-kept id (reg.publishes w channel event payload)
                  (publishing w channel event payload v))
          ]))

  do_sync-kept : (w : W) (id : ℕ) → P w → Leaves (do_sync reg w id)
  unfolding do_sync
  do_sync-kept w id v =
      refuses-kept (id == 0) w 0 (codes "sync requires an id") _ v
        (λ _. answer-kept w id (sync_reply (reg.subscriptions_in w)) v)

  arm-kept : (w : W) (expires_in : ℕ) → P w → P (arm reg w expires_in)
  unfolding arm
  arm-kept w expires_in v =
      if_cases P (ltb 0 expires_in)
        (reg.put_in w (record (reg.conn_in w) { expires = some expires_in })) w
        (λ _. arms w expires_in v) (λ _. v)

  -- The Authorizer is asked by a connection that still has it.
  do_connect-kept :
      (authorize : List Bytes → Result AuthError Auth) (w : W) (id : ℕ) (subs : List Bytes)
      → P w
      → Leaves (do_connect reg authorize w id subs)
  unfolding do_connect greet
  do_connect-kept authorize w id subs v =
      let c = begun (reg.conn_in w) in
      let w' = reg.put_in w c in
      if_cases Leaves (not (reg.conn_in w).auth)
        (fail reg w' id err_bad_request (codes "already connected")) _
        (λ again.
          fail-kept w' id err_bad_request (codes "already connected") (repeats w v (ground arith)))
        (λ first.
          let has_auth : (reg.conn_in w).auth ≡ true = ground arith in
          let u = begins w v has_auth in
          elim (Result-cases (authorize (requested c subs))) [
            | inl (auth, e) ↦
                let known = welcomed (reg.conn_in w') auth in
                let ack = greeting reg known id auth in
                rw e (
                  arm-kept (reg.attaches (reg.put_in w' known) (admissible known subs) ack)
                    auth.expires_in (attaching w auth subs ack v has_auth))
            | inr (unauthorized, e) ↦
                rw e (closes-kept w' close_unauthorized (codes "unauthorized") u)
            | inr (unavailable, e) ↦
                rw e (closes-kept w' close_auth_unavailable (codes "authorization unavailable") u)
          ])

  dispatch-kept :
      (authorize : List Bytes → Result AuthError Auth) (w : W) (id : ℕ) (request : Request)
      → P w
      → Leaves (dispatch reg authorize w id request)
  unfolding dispatch
  dispatch-kept authorize w id (connect subs) v = do_connect-kept authorize w id subs v
  dispatch-kept authorize w id (subscribe channel) v = do_subscribe-kept w id channel v
  dispatch-kept authorize w id (unsubscribe channel) v = do_unsubscribe-kept w id channel v
  dispatch-kept authorize w id (publish channel event payload) v =
      do_publish-kept w id channel event payload v
  dispatch-kept authorize w id sync v = do_sync-kept w id v
  dispatch-kept authorize w id ping v = answer-kept w id pong v

  -- Whatever the frame is, and whatever the Authorizer answers.
  pub handle-kept :
      (authorize : List Bytes → Result AuthError Auth) (w : W) (command : Option Command)
      → P w
      → Leaves (handle reg authorize w command)
  unfolding handle
  handle-kept authorize w none v = fail-kept w 0 err_bad_request (codes "malformed frame") v
  handle-kept authorize w (some command) v =
      if_cases Leaves (is_connect command.request || (reg.conn_in w).connect_seen)
        (dispatch reg authorize w command.id command.request)
        (fail reg w command.id err_bad_request (codes "connect required"))
        (λ _. dispatch-kept authorize w command.id command.request v)
        (λ _. fail-kept w command.id err_bad_request (codes "connect required") v)

-- ===== src/Webhook/CallsLaws.antt =====
-- internal/webhook/webhook.go: what a call leaves in the cache, and how calls are counted.
use sidecartunnel.Base.{
  ℕ, zero, suc, ◌+◌, ◌%◌, ◌≤◌, ◌<◌, ◌≡◌, refl, sym, ap, subst, ◌∙◌, ◌⊎◌, inl, inr, Bool, false,
  Option, none, some, List, [], ◌∷◌, arith, Bytes, length, bytes_discrete,
}
use sidecartunnel.Webhook.Cache.{Cache, key, get, put}
use sidecartunnel.Webhook.CacheLaws.{get-put, get-get-flush}
use sidecartunnel.Webhook.Answer.{
  Fault, queue_overflow, request_rejected, malformed_response, context_done, deadline_exceeded,
  transport, unlisted_status, Outcome, authorized, refused, unavailable,
}
use sidecartunnel.Webhook.Attempts.{Request, HttpRequest, Codec, Client, Round}
use sidecartunnel.Webhook.AttemptsLaws.{requests, IsRun, attempts-IsRun}
use sidecartunnel.Webhook.Calls.{
  call_all, Authorized, counter, Stats, Gate, Meets, log_call, store, look, issue, proceed, call,
  call_logged,
}

-- What a lookup in the client's cache gives.
abbrev pub found : Option (Cache Authorized) → Bytes → ℕ → Option Authorized
found cache k now = (look cache k now).1

look-found :
    (cache : Option (Cache Authorized)) (k j : Bytes) (now later : ℕ)
    → now ≤ later
    → found (look cache k now).0 j later ≡ found cache j later
unfolding look
look-found none k j now later order = refl
look-found (some c) k j now later order = (get-get-flush c k j now later order).0

put-empty : (c : Cache Authorized) (a : Authorized) (now : ℕ) → put c [] a now ≡ c
unfolding put
put-empty c a now = refl

put-found :
    (c : Cache Authorized) (k j : Bytes) (value a : Authorized) (now later : ℕ)
    → now ≤ later
    → (get (put c k value now) j later).1 ≡ some a
    → ((get c j later).1 ≡ some a) ⊎ ((j ≡ k) × (value ≡ a))
put-found c k j value a now later order h = elim (bytes_discrete k []) [
  | yes e ↦ inl (
      subst (λ (c' : Cache Authorized). (get c' j later).1 ≡ some a)
        (ap (λ x. put c x value now) e ∙ put-empty c value now) h)
  | no named ↦ elim (bytes_discrete k j) [
    | yes e ↦ inr (sym e, ground (arith, (get-put c k j value now later named order).0))
    | no n ↦ inl (sym ((get-put c k j value now later named order).1 n) ∙ h)
  ]
]

store-found :
    (cache : Option (Cache Authorized)) (k j : Bytes) (res : Option Outcome) (a : Authorized)
    (now later : ℕ)
    → now ≤ later
    → found (store cache k res now) j later ≡ some a
    → (found cache j later ≡ some a) ⊎ ((j ≡ k) × (res ≡ some (authorized a.0 a.1 a.2)))
unfolding store look
store-found none k j res a now later order h = inl h
store-found (some c) k j none a now later order h = inl h
store-found (some c) k j (some (refused status fault)) a now later order h = inl h
store-found (some c) k j (some (unavailable status fault)) a now later order h = inl h
store-found (some c) k j (some (authorized user grants expires_in)) a now later order h =
    elim (put-found c k j (user, grants, expires_in) a now later order h) [
      | inl e ↦ inl e
      | inr (e, f) ↦ inr (e, rw (← f) refl)
    ]

module _ (parse : Bytes → Option (List (Bytes × Bytes))) (digest : Bytes → Bytes)
    (cookie_names : List Bytes) (codec : Codec) (client : Client)
    (cache : Option (Cache Authorized)) (req : Request) (forwarded : Bytes) (m : Meets) where
  abbrev pub key_of : Bytes
  key_of = key parse digest cookie_names req.cookie

  -- The four parts of what a call leaves: the cache, the result, whether it was cached, the requests.
  abbrev pub left : Option (Cache Authorized) × Option Outcome × Bool × List HttpRequest
  left = call parse digest cookie_names codec client cache req forwarded m

  proceed-found :
      (hit : Option Authorized) (cache' : Option (Cache Authorized)) (j : Bytes) (a : Authorized)
      (later : ℕ)
      → m.stored ≤ later
      → let (cache'', res, cached, requests) =
          proceed codec client req forwarded m key_of cache' hit in
        found cache'' j later ≡ some a
        → (found cache' j later ≡ some a)
          ⊎ ((cached ≡ false) × (j ≡ key_of) × (res ≡ some (authorized a.0 a.1 a.2)))
  unfolding proceed
  proceed-found (some (user, grants, expires_in)) cache' j a later order h = inl h
  proceed-found none cache' j a later order h =
      elim (store-found cache' key_of j _ a m.stored later order h) [
        | inl e ↦ inl e
        | inr (e, f) ↦ inr (refl, e, f)
      ]

  -- A later lookup in the cache that a call leaves gives an authorization only where it would have given it
  -- before the call, or where the call, answered by the webhook, has just obtained it and the lookup is of
  -- the key of the call's cookie.
  pub call-found :
      (j : Bytes) (a : Authorized) (later : ℕ)
      → m.start ≤ later
      → m.stored ≤ later
      → found left.0 j later ≡ some a
      → (found cache j later ≡ some a)
        ⊎ ((left.2 ≡ false) × (j ≡ key_of) × (left.1 ≡ some (authorized a.0 a.1 a.2)))
  unfolding call
  call-found j a later begun stored h =
      elim (proceed-found (look cache key_of m.start).1 (look cache key_of m.start).0 j a later
        stored h) [
          | inl e ↦ inl (sym (look-found cache key_of j m.start later begun) ∙ e)
          | inr e ↦ inr e
        ]

  requests-length :
      (rounds : ℕ → Round) (i k : ℕ)
      → length (requests codec client req forwarded (m.start + client.connect_timeout) rounds i k)
        ≡ k
  requests-length rounds i zero = refl
  requests-length rounds i (suc k) = ap suc (requests-length rounds (suc i) k)

  attempts-answers :
      (rounds : ℕ → Round) (res : Option Outcome × List HttpRequest)
      → IsRun codec client req forwarded
          (m.start + client.connect_timeout)
          rounds
          (suc client.retries)
          0
          res
      → ((o : Outcome) × (res.0 ≡ some o)) × (length res.1 ≤ suc client.retries)
  attempts-answers rounds res r = (
    elim r.ended [ inl (j, p, low, e, w) ↦ (_, e) | inr (short, (o, e, s)) ↦ (o, e) ],
    omega (arith, ap length r.sent ∙ requests-length rounds 0 r.issued, r.bounded),
  )

  issue-answers :
      (refusal : Option Fault)
      → let (res, sent) = issue codec client req forwarded m refusal in
        ((o : Outcome) × (res ≡ some o)) × (length sent ≤ suc client.retries)
  unfolding issue
  issue-answers (some fault) = ((unavailable 0 fault, refl), omega arith)
  issue-answers none =
      attempts-answers m.rounds _
        (attempts-IsRun codec client req forwarded (m.start + client.connect_timeout) m.rounds)

  proceed-answers :
      (hit : Option Authorized) (cache' : Option (Cache Authorized))
      → let (cache'', res, cached, sent) = proceed codec client req forwarded m key_of cache' hit in
        ((o : Outcome) × (res ≡ some o)) × (length sent ≤ suc client.retries)
  unfolding proceed
  proceed-answers (some (user, grants, expires_in)) cache' = ((_, refl), omega arith)
  proceed-answers none cache' = issue-answers m.refusal

  -- A call always has a result, and issues at most `retries` + 1 requests.
  pub call-answers : ((o : Outcome) × (left.1 ≡ some o)) × (length left.3 ≤ suc client.retries)
  unfolding call
  call-answers = proceed-answers (look cache key_of m.start).1 (look cache key_of m.start).0

-- The calls counted, up to the wrap of the counters.
abbrev pub counted : Stats → ℕ
counted s = s.authorized_count + s.refused_count + s.rejected_count + s.failed_count

abbrev pub AreWords : Stats → Type 0
AreWords s =
    (s.authorized_count < counter)
    × (s.refused_count < counter)
    × (s.rejected_count < counter)
    × (s.failed_count < counter)

counted-log_call :
    (gate : Gate) (o : Outcome) (now : ℕ)
    → counted (log_call gate (some o) now).0.stats % counter ≡ suc (counted gate.stats) % counter
unfolding log_call
counted-log_call gate (authorized user grants expires_in) now = omega arith
counted-log_call gate (refused status fault) now = omega arith
counted-log_call gate (unavailable status queue_overflow) now = omega arith
counted-log_call gate (unavailable status request_rejected) now = ground arith
counted-log_call gate (unavailable status malformed_response) now = omega arith
counted-log_call gate (unavailable status context_done) now = omega arith
counted-log_call gate (unavailable status deadline_exceeded) now = omega arith
counted-log_call gate (unavailable status transport) now = omega arith
counted-log_call gate (unavailable status unlisted_status) now = omega arith

-- Any number of calls, one after the other, are counted once each by one of the four counters.
module _ (parse : Bytes → Option (List (Bytes × Bytes))) (digest : Bytes → Bytes)
    (cookie_names : List Bytes) (codec : Codec) (client : Client) where
  counted-call_logged :
      (gate : Gate) (req : Request) (forwarded : Bytes) (m : Meets)
      → counted (call_logged parse digest cookie_names codec client gate req forwarded m).0.stats
          % counter
        ≡ suc (counted gate.stats) % counter
  unfolding call_logged
  counted-call_logged gate req forwarded m =
      let ((o, e), _) =
        call-answers parse digest cookie_names codec client gate.cache req forwarded m in
      rw e (counted-log_call _ o m.finish)

  pub counted-call_all :
      (gate : Gate) (calls : List (Request × Bytes × Meets))
      → counted (call_all parse digest cookie_names codec client gate calls).stats % counter
        ≡ (counted gate.stats + length calls) % counter
  unfolding call_all
  counted-call_all gate [] = omega arith
  counted-call_all gate ((req, forwarded, m) ∷ calls) = omega (
    arith,
    counted-call_logged gate req forwarded m,
    counted-call_all (call_logged parse digest cookie_names codec client gate req forwarded m).0
        calls,
  )

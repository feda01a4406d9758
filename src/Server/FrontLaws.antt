-- ===== src/Server/FrontLaws.antt =====
-- internal/server/handler.go and server.go: who is let in, and when a drain is over.
use sidecartunnel.Base.{
  ℕ, ◌≤◌, ◌<◌, ◌≡◌, refl, sym, ◌∙◌, ◌≢◌, ◌↔◌, ◌⊎◌, inl, inr, true, false, List, [], ◌∷◌, ◌++◌,
  arith, dec_lt, ℕ_discrete, Bytes, bytes_discrete, has,
}
use sidecartunnel.Text.{same}
use sidecartunnel.Server.Front.{
  Front, origin_allowed, upgraded, serve_http, Knock, comes, returns, begins, waits, knock,
  knock_all, wait,
}

-- What holds of the front door and of the handlers that hold a slot.
pub record IsHeld (f : Front) (holding : ℕ) : Type 0 where
  pub slots : f.current ≡ holding
  pub cap : 0 < f.max_connections → f.current ≤ f.max_connections
  pub pending : f.waiting ≡ true → (f.admission.draining ≡ true) × (0 < f.current)
  pub over : f.drained ≡ true → (f.admission.draining ≡ true) × (f.current ≡ 0)

serve_http-IsHeld :
    (f : Front) (holding : ℕ) (origin : Bytes)
    → IsHeld f holding
    → IsHeld (knock (f, holding) (comes origin)).0 (knock (f, holding) (comes origin)).1
unfolding knock
serve_http-IsHeld f holding origin h = ground arith

release-IsHeld :
    (f : Front) (holding : ℕ)
    → IsHeld f holding
    → IsHeld (knock (f, holding) returns).0 (knock (f, holding) returns).1
unfolding knock
release-IsHeld f holding h = ground arith

begins-IsHeld :
    (f : Front) (holding : ℕ)
    → IsHeld f holding
    → IsHeld (knock (f, holding) begins).0 (knock (f, holding) begins).1
unfolding knock
begins-IsHeld f holding h = ground arith

waits-IsHeld :
    (f : Front) (holding : ℕ)
    → IsHeld f holding
    → IsHeld (knock (f, holding) waits).0 (knock (f, holding) waits).1
unfolding knock
waits-IsHeld f holding h = ground arith

knock-IsHeld :
    (f : Front) (holding : ℕ) (k : Knock)
    → IsHeld f holding
    → IsHeld (knock (f, holding) k).0 (knock (f, holding) k).1
knock-IsHeld f holding (comes origin) h = serve_http-IsHeld f holding origin h
knock-IsHeld f holding returns h = release-IsHeld f holding h
knock-IsHeld f holding begins h = begins-IsHeld f holding h
knock-IsHeld f holding waits h = waits-IsHeld f holding h

knock_all-IsHeld :
    (s : Front × ℕ) (ks : List Knock)
    → IsHeld s.0 s.1
    → IsHeld (knock_all s ks).0 (knock_all s ks).1
unfolding knock_all
knock_all-IsHeld s [] h = h
knock_all-IsHeld s (k ∷ ks) h = knock_all-IsHeld (knock s k) ks (knock-IsHeld s.0 s.1 k h)

-- A front that has let nobody in.
pub record IsFresh (f : Front) : Type 0 where
  pub nobody : f.current ≡ 0
  pub unasked : f.waiting ≡ false
  pub undrained : f.drained ≡ false

IsFresh-IsHeld : (f : Front) → IsFresh f → IsHeld f 0
IsFresh-IsHeld f r = record {
  slots = r.nobody;
  cap = λ h. omega (arith, r.nobody);
  pending = λ h. cc (h, r.unasked);
  over = λ h. cc (h, r.undrained);
}

-- Whatever requests come and end, and whenever a drain begins and waits: the count is that of the handlers that
-- hold a slot, and where there is a limit, no more of them do.
pub knock_all-fresh-IsHeld :
    (f : Front) (ks : List Knock)
    → IsFresh f
    → IsHeld (knock_all (f, 0) ks).0 (knock_all (f, 0) ks).1
knock_all-fresh-IsHeld f ks r = knock_all-IsHeld (f, 0) ks (IsFresh-IsHeld f r)

-- A drain waits, or has been told of its end.
abbrev IsAwaited : Front → Type 0
IsAwaited f = (f.admission.draining ≡ true) × ((f.waiting ≡ true) ⊎ (f.drained ≡ true))

knock-IsAwaited :
    (f : Front) (holding : ℕ) (k : Knock)
    → IsAwaited f
    → IsHeld f holding
    → IsAwaited (knock (f, holding) k).0
unfolding knock
knock-IsAwaited f holding (comes origin) a h = ground arith
knock-IsAwaited f holding returns a h = ground arith
knock-IsAwaited f holding begins a h = ground arith
knock-IsAwaited f holding waits a h = ground arith

knock_all-IsAwaited :
    (s : Front × ℕ) (ks : List Knock)
    → IsAwaited s.0
    → IsHeld s.0 s.1
    → IsAwaited (knock_all s ks).0
unfolding knock_all
knock_all-IsAwaited s [] a h = a
knock_all-IsAwaited s (k ∷ ks) a h =
    knock_all-IsAwaited (knock s k) ks (knock-IsAwaited s.0 s.1 k a h) (knock-IsHeld s.0 s.1 k h)

-- A drain that has begun goes on, and lets nobody in.
knock-draining :
    (s : Front × ℕ) (k : Knock)
    → s.0.admission.draining ≡ true
    → ((knock s k).0.admission.draining ≡ true) × (s.1 ≡ 0 → (knock s k).1 ≡ 0)
unfolding knock
knock-draining (f, holding) (comes origin) d = (ground arith, λ z. ground arith)
knock-draining (f, holding) returns d = (ground arith, λ z. ground arith)
knock-draining (f, holding) begins d = (refl, λ z. z)
knock-draining (f, holding) waits d = (ground arith, λ z. ground arith)

knock_all-draining :
    (s : Front × ℕ) (ks : List Knock)
    → s.0.admission.draining ≡ true
    → ((knock_all s ks).0.admission.draining ≡ true) × (s.1 ≡ 0 → (knock_all s ks).1 ≡ 0)
unfolding knock_all
knock_all-draining s [] d = (d, λ z. z)
knock_all-draining s (k ∷ ks) d =
    let (d', e) = knock-draining s k d in
    let (d'', e') = knock_all-draining (knock s k) ks d' in (d'', λ z. e' (e z))

knock_all-append :
    (s : Front × ℕ) (ks more : List Knock)
    → knock_all s (ks ++ more) ≡ knock_all (knock_all s ks) more
unfolding knock_all
knock_all-append s [] more = refl
knock_all-append s (k ∷ ks) more = knock_all-append (knock s k) ks more

knock_one :
    (s : Front × ℕ) (k : Knock) (ks : List Knock) → knock_all s (k ∷ ks) ≡ knock_all (knock s k) ks
unfolding knock_all
knock_one s k ks = refl

begun : (s : Front × ℕ) → (knock s begins).0.admission.draining ≡ true
unfolding knock
begun s = refl

wait_iff : (f : Front) (holding : ℕ) → IsHeld f holding → ((wait f).1 ≡ true) ↔ (holding ≡ 0)
unfolding wait
wait_iff f holding h = (λ e. ground (arith, h.slots), λ z. ground (arith, h.slots))

wait_begun :
    (f : Front) (holding : ℕ)
    → f.admission.draining ≡ true
    → IsHeld f holding
    → holding ≢ 0
    → IsAwaited (knock (f, holding) waits).0
unfolding knock
wait_begun f holding d h some_held = ground (arith, h.slots)

-- From the wait on.
waited_iff :
    (s : Front × ℕ) (more : List Knock)
    → s.0.admission.draining ≡ true
    → IsHeld s.0 s.1
    → let (f', holding) = knock_all s (waits ∷ more) in
      (((wait s.0).1 ≡ true) ⊎ (f'.drained ≡ true)) ↔ (holding ≡ 0)
waited_iff s more d h =
    let h' = knock-IsHeld s.0 s.1 waits h in
    let h'' = knock_all-IsHeld (knock s waits) more h' in
    let (_, still) = knock_all-draining s (waits ∷ more) d in
    (
      λ over. elim over [
        | inl now ↦ still ((wait_iff s.0 s.1 h).0 now)
        | inr told ↦
            rw (knock_one s waits more)
              (sym h''.slots ∙ (h''.over (rw (← knock_one s waits more) told)).1)
      ],
      λ z. elim (ℕ_discrete s.1 0) [
        | yes e ↦ inl ((wait_iff s.0 s.1 h).1 e)
        | no n ↦
            let a = knock_all-IsAwaited (knock s waits) more (wait_begun s.0 s.1 d h n) h' in
            let z' : (knock_all (knock s waits) more).1 ≡ 0 = rw (← knock_one s waits more) z in
            inr (
              rw (knock_one s waits more) (elim a.1 [
                | inl w ↦ absurd (omega (arith, (h''.pending w).1, h''.slots, z'))
                | inr told ↦ told
              ]))
      ],
    )

-- A drain that begins, and later waits, whatever requests come and end before, between and after, and whatever other
-- drains there are: its wait returns at once, or is told that it is over, exactly when no handler holds a slot any more.
pub drained_iff :
    (f : Front) (ks mid more : List Knock)
    → IsFresh f
    → let s = knock_all (f, 0) (ks ++ begins ∷ mid) in
      let (f', holding) = knock_all s (waits ∷ more) in
      (((wait s.0).1 ≡ true) ⊎ (f'.drained ≡ true)) ↔ (holding ≡ 0)
drained_iff f ks mid more r =
    let s = knock_all (f, 0) ks in
    let after : knock_all (f, 0) (ks ++ begins ∷ mid) ≡ knock_all (knock s begins) mid =
      knock_all-append (f, 0) ks (begins ∷ mid) ∙ knock_one s begins mid in
    waited_iff (knock_all (f, 0) (ks ++ begins ∷ mid)) more
      (rw after (knock_all-draining (knock s begins) mid (begun s)).0)
      (knock_all-fresh-IsHeld f (ks ++ begins ∷ mid) r)

origin_allowed_iff :
    (f : Front) (origin : Bytes)
    → (origin_allowed f origin ≡ true) ↔ (
        ((origin ≡ []) × (f.allow_missing_origin ≡ true))
        ⊎ ((origin ≢ []) × (has bytes_discrete origin f.origins ≡ true)))
unfolding origin_allowed same
origin_allowed_iff f origin = (
  λ h. elim (bytes_discrete origin []) [
    | yes e ↦ inl (e, ground arith)
    | no n ↦ inr (n, ground arith)
  ],
  λ c. elim c [ inl (e, h) ↦ ground arith | inr (n, h) ↦ ground arith ],
)

upgraded_inv :
    (f : Front) (origin : Bytes)
    → (serve_http f origin).1 ≡ upgraded
    → (origin_allowed f origin ≡ true)
      × (f.admission.draining ≡ false)
      × ((f.max_connections ≡ 0) ⊎ (f.current < f.max_connections))
unfolding serve_http
upgraded_inv f origin h = (
  ground arith,
  ground arith,
  elim (dec_lt f.current f.max_connections) [ yes l ↦ inr l | no l ↦ inl (ground arith) ],
)

upgraded_if :
    (f : Front) (origin : Bytes)
    → origin_allowed f origin ≡ true
    → f.admission.draining ≡ false
    → (f.max_connections ≡ 0) ⊎ (f.current < f.max_connections)
    → (serve_http f origin).1 ≡ upgraded
unfolding serve_http
upgraded_if f origin o d (inl r) = ground arith
upgraded_if f origin o d (inr r) = ground arith

-- A request is upgraded exactly where its origin is configured, or is missing and may be, no drain has begun, and
-- there is room; it then takes one slot.
pub upgraded_iff :
    (f : Front) (origin : Bytes)
    → ((serve_http f origin).1 ≡ upgraded) ↔ (
        (((origin ≡ []) × (f.allow_missing_origin ≡ true))
          ⊎ ((origin ≢ []) × (has bytes_discrete origin f.origins ≡ true)))
        × (f.admission.draining ≡ false)
        × ((f.max_connections ≡ 0) ⊎ (f.current < f.max_connections)))
upgraded_iff f origin = (
  λ h. let (o, d, r) = upgraded_inv f origin h in ((origin_allowed_iff f origin).0 o, d, r),
  λ (o, d, r). upgraded_if f origin ((origin_allowed_iff f origin).1 o) d r,
)

-- ===== src/Webhook/CacheLaws.antt =====
-- internal/webhook/cache.go: what a lookup gives after a store, a lookup or a flush, and what the key of a
-- request depends on.
use sidecartunnel.Base.{
  ℕ, ◌+◌, ◌≤◌, ◌≡◌, refl, sym, ap, ◌∙◌, ◌≢◌, inl, inr, Bool, true, false, Option, none, some, List,
  [], ◌∷◌, arith, ltb, if◌then◌else◌, Option-cases, Bytes, bytes_discrete, has,
}
use sidecartunnel.Text.{same}
use sidecartunnel.Webhook.Cache.{
  Cache, cookie_named, named_cookies, named_key, key, get, sweep, put, flush,
}

module _ {A : Type 0} where
  -- After a store at `now`, a later lookup of the key gives the value for as long as the time to live,
  -- then nothing; of any other key it gives what it would have given without the store, the sweep
  -- that the store may have made included.
  pub get-put :
      (c : Cache A) (k j : Bytes) (value : A) (now later : ℕ)
      → k ≢ []
      → now ≤ later
      → (get (put c k value now) k later).1 ≡ (if ltb later (now + c.ttl) then some value else none)
        × (k ≢ j → (get (put c k value now) j later).1 ≡ (get c j later).1)
  unfolding get put sweep same
  get-put c k j value now later named order = (
    ground arith,
    λ n. elim (Option-cases (c.entries j)) [ inl e ↦ ground arith | inr (x, e) ↦ ground arith ],
  )

  -- A lookup changes no later lookup, and after a flush every lookup gives nothing.
  pub get-get-flush :
      (c : Cache A) (k j : Bytes) (now later : ℕ)
      → now ≤ later
      → ((get (get c k now).0 j later).1 ≡ (get c j later).1) × ((get (flush c) j later).1 ≡ none)
  unfolding get flush same
  get-get-flush c k j now later order = elim (Option-cases (c.entries j)) [
    | inl e ↦ (ground arith, ground arith)
    | inr (x, e) ↦ (ground arith, ground arith)
  ]

named_cookies-alike :
    (names : List Bytes) (cookies cookies' : List (Bytes × Bytes))
    → ((name : Bytes)
        → has bytes_discrete name names ≡ true
        → cookie_named name cookies ≡ cookie_named name cookies')
    → named_cookies names cookies ≡ named_cookies names cookies'
unfolding named_cookies has
named_cookies-alike [] cookies cookies' alike = refl
named_cookies-alike (name ∷ names) cookies cookies' alike =
    rw
      (
        alike name (ground arith),
        named_cookies-alike names cookies cookies' (λ other h. alike other (ground arith)),
      )
      refl

key-named :
    (parse : Bytes → Option (List (Bytes × Bytes))) (digest : Bytes → Bytes) (name : Bytes)
    (names : List Bytes) (c : Bytes) (cs : List (Bytes × Bytes))
    → c ≢ []
    → parse c ≡ some cs
    → key parse digest (name ∷ names) c ≡ (
        if (named_cookies (name ∷ names) cs).1
        then digest (named_cookies (name ∷ names) cs).0
        else [])
unfolding key named_key same
key-named parse digest name names c cs full p =
    let nonempty : same c [] ≡ false = ground arith in rw (nonempty, p) refl

-- With names configured, two requests whose first cookies of those names agree have the same key,
-- whatever their other cookies and the order; and where none of the names is there, the request is
-- not cached.
pub key-alike :
    (parse : Bytes → Option (List (Bytes × Bytes))) (digest : Bytes → Bytes) (name : Bytes)
    (names : List Bytes) (cookie cookie' : Bytes) (cookies cookies' : List (Bytes × Bytes))
    → cookie ≢ []
    → cookie' ≢ []
    → parse cookie ≡ some cookies
    → parse cookie' ≡ some cookies'
    → ((n : Bytes)
        → has bytes_discrete n (name ∷ names) ≡ true
        → cookie_named n cookies ≡ cookie_named n cookies')
    → (key parse digest (name ∷ names) cookie ≡ key parse digest (name ∷ names) cookie')
      × ((named_cookies (name ∷ names) cookies).1 ≡ false
          → key parse digest (name ∷ names) cookie ≡ [])
key-alike parse digest name names cookie cookie' cookies cookies' full full' p p' alike =
    let e = named_cookies-alike (name ∷ names) cookies cookies' alike in
    let k = key-named parse digest name names in
    (
      k cookie cookies full p
          ∙ ap (λ (r : Bytes × Bool). if r.1 then digest r.0 else []) e
          ∙ sym (k cookie' cookies' full' p'),
      λ none_found. k cookie cookies full p ∙ rw none_found refl,
    )

-- ===== src/Webhook/AnswerLaws.antt =====
-- internal/webhook/webhook.go, classify and parse: which answers become which outcome.
use sidecartunnel.Base.{
  ℕ, ◌≤◌, ◌≡◌, refl, sym, ◌∙◌, ◌↔◌, inl, inr, Option, none, some, arith, Option-cases, Bytes,
}
use sidecartunnel.Glob.{GrantSet}
use sidecartunnel.Webhook.Answer.{
  authorized, ResponseBody, Response, read_all, unpacked, parse, classify,
}
use sidecartunnel.Webhook.AnswerParts.{IsUsable, unpacked_iff}

module _ (unmarshal : Bytes → Option ResponseBody) (min_expiry max_expiry : ℕ) where
  -- And what the answer must be.
  pub record IsGrant (resp : Response) (user : Bytes) (grants : GrantSet) (expires_in : ℕ)
      : Type 0 where
    pub at_least : 200 ≤ resp.status
    pub at_most : resp.status ≤ 299
    pub raw : Bytes
    pub whole : read_all resp ≡ some raw
    pub body : ResponseBody
    pub decoded : unmarshal raw ≡ some body
    pub usable : IsUsable min_expiry max_expiry body user grants expires_in

  authorized-parse :
      (resp : Response) (user : Bytes) (grants : GrantSet) (expires_in : ℕ)
      → classify unmarshal min_expiry max_expiry resp ≡ authorized user grants expires_in
      → (200 ≤ resp.status)
        × (resp.status ≤ 299)
        × (parse unmarshal min_expiry max_expiry resp ≡ authorized user grants expires_in)
  unfolding classify
  authorized-parse resp user grants expires_in h = (ground arith, ground arith, ground arith)

  parse-success :
      (resp : Response)
      → 200 ≤ resp.status
      → resp.status ≤ 299
      → classify unmarshal min_expiry max_expiry resp ≡ parse unmarshal min_expiry max_expiry resp
  unfolding classify
  parse-success resp low high = ground arith

  parse-read :
      (resp : Response) (raw : Bytes)
      → read_all resp ≡ some raw
      → parse unmarshal min_expiry max_expiry resp
        ≡ unpacked min_expiry max_expiry resp.status (unmarshal raw)
  unfolding parse
  parse-read resp raw e = rw (e, parse) refl

  decoded-IsGrant :
      (resp : Response) (raw : Bytes) (decoded : Option ResponseBody) (user : Bytes)
      (grants : GrantSet) (expires_in : ℕ)
      → 200 ≤ resp.status
      → resp.status ≤ 299
      → read_all resp ≡ some raw
      → unmarshal raw ≡ decoded
      → unpacked min_expiry max_expiry resp.status decoded ≡ authorized user grants expires_in
      → IsGrant resp user grants expires_in
  unfolding unpacked
  decoded-IsGrant resp raw none user grants expires_in low high e d h = cc
  decoded-IsGrant resp raw (some body) user grants expires_in low high e d h = record {
    at_least = low;
    at_most = high;
    raw = raw;
    whole = e;
    body = body;
    decoded = d;
    usable = (unpacked_iff min_expiry max_expiry resp.status body user grants expires_in).0 h;
  }

  parse-IsGrant :
      (resp : Response) (user : Bytes) (grants : GrantSet) (expires_in : ℕ)
      → 200 ≤ resp.status
      → resp.status ≤ 299
      → parse unmarshal min_expiry max_expiry resp ≡ authorized user grants expires_in
      → IsGrant resp user grants expires_in
  unfolding parse
  parse-IsGrant resp user grants expires_in low high h = elim (Option-cases (read_all resp)) [
    | inl e ↦ ground arith
    | inr (raw, e) ↦
        decoded-IsGrant resp raw (unmarshal raw) user grants expires_in low high e refl
          (sym (parse-read resp raw e) ∙ h)
  ]

  -- An answer authorizes a connection exactly where it is a 2xx whose body was read, decodes, names a user, lists grants that compile and has an expires_in, which the lifetime clamps.
  pub classify-IsGrant :
      (resp : Response) (user : Bytes) (grants : GrantSet) (expires_in : ℕ)
      → (classify unmarshal min_expiry max_expiry resp ≡ authorized user grants expires_in)
        ↔ IsGrant resp user grants expires_in
  unfolding classify
  classify-IsGrant resp user grants expires_in = (
    λ h.
        let (low, high, p) = authorized-parse resp user grants expires_in h in
        parse-IsGrant resp user grants expires_in low high p,
    λ g.
        parse-success resp g.at_least g.at_most
        ∙ parse-read resp g.raw g.whole
        ∙ rw g.decoded (
            (unpacked_iff min_expiry max_expiry resp.status g.body user grants expires_in).1
              g.usable),
  )

  -- A 2xx whose body was read and grants nothing.
  pub record IsUnusable (resp : Response) : Type 0 where
    pub at_least : 200 ≤ resp.status
    pub at_most : resp.status ≤ 299
    pub raw : Bytes
    pub whole : read_all resp ≡ some raw
    pub useless :
        (user : Bytes) (grants : GrantSet) (expires_in : ℕ) → ¬ IsGrant resp user grants expires_in

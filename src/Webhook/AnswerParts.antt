-- ===== src/Webhook/AnswerParts.antt =====
-- internal/webhook/webhook.go, parse: which bodies become an authorization.
use sidecartunnel.Base.{
  ℕ, ◌≡◌, refl, ◌≢◌, ◌↔◌, ◌⊎◌, inl, inr, Bool, Option, none, some, List, [], arith, Bool-cases,
  Bytes, bytes_discrete, Result, ok, err, Result-cases,
}
use sidecartunnel.Text.{same}
use sidecartunnel.Glob.{GrantSet, CompileError, new_set}
use sidecartunnel.Webhook.Expiry.{clamp_expiry}
use sidecartunnel.Webhook.Answer.{
  Fault, malformed_response, authorized, refused, ResponseBody, granted, with_channels, unpacked,
}

module _ (min_expiry max_expiry : ℕ) where
  -- What a body must hold for a connection to be authorized by it.
  pub record IsUsable (body : ResponseBody) (user : Bytes) (grants : GrantSet) (expires_in : ℕ)
      : Type 0 where
    pub named : body.user ≡ user
    pub non_empty : user ≢ []
    pub channels : List Bytes
    pub listed : body.channels ≡ some channels
    pub compiled : new_set channels ≡ ok grants
    pub negative : Bool
    pub seconds : ℕ
    pub expiring : body.expires_in ≡ some (negative, seconds)
    pub clamped : clamp_expiry negative seconds min_expiry max_expiry ≡ expires_in

  IsUsable-unpacked :
      (status : ℕ) (body : ResponseBody) (user : Bytes) (grants : GrantSet) (expires_in : ℕ)
      → IsUsable body user grants expires_in
      → unpacked min_expiry max_expiry status (some body) ≡ authorized user grants expires_in
  unfolding unpacked same
  IsUsable-unpacked status body user grants expires_in u =
      rw (u.listed, u.expiring, u.compiled, u.clamped) (ground arith)

  granted-IsUsable :
      (status : ℕ) (body : ResponseBody) (channels : List Bytes) (negative : Bool) (seconds : ℕ)
      (res : Result (ℕ × CompileError) GrantSet) {user : Bytes} {grants : GrantSet} {expires_in : ℕ}
      → body.user ≢ []
      → body.channels ≡ some channels
      → body.expires_in ≡ some (negative, seconds)
      → new_set channels ≡ res
      → granted min_expiry max_expiry status body.user (negative, seconds) res
        ≡ authorized user grants expires_in
      → IsUsable body user grants expires_in
  unfolding granted
  granted-IsUsable status body channels negative seconds (err e) n l x c h = cc
  granted-IsUsable status body channels negative seconds (ok g) n l x c h = record {
    named = cc;
    non_empty = λ e. n (cc);
    channels = channels;
    listed = l;
    compiled = cc;
    negative = negative;
    seconds = seconds;
    expiring = x;
    clamped = cc;
  }

  with_channels-IsUsable :
      (status : ℕ) (body : ResponseBody) (channels : Option (List Bytes))
      (seconds : Option (Bool × ℕ)) {user : Bytes} {grants : GrantSet} {expires_in : ℕ}
      → body.user ≢ []
      → body.channels ≡ channels
      → body.expires_in ≡ seconds
      → with_channels min_expiry max_expiry status body.user channels seconds
        ≡ authorized user grants expires_in
      → IsUsable body user grants expires_in
  unfolding with_channels
  with_channels-IsUsable status body none seconds n l x h = cc
  with_channels-IsUsable status body (some channels) none n l x h = cc
  with_channels-IsUsable status body (some channels) (some (negative, seconds)) n l x h =
      granted-IsUsable status body channels negative seconds (new_set channels) n l x refl h

  pub unpacked_iff :
      (status : ℕ) (body : ResponseBody) (user : Bytes) (grants : GrantSet) (expires_in : ℕ)
      → (unpacked min_expiry max_expiry status (some body) ≡ authorized user grants expires_in)
        ↔ IsUsable body user grants expires_in
  unfolding unpacked same
  unpacked_iff status body user grants expires_in = (
    λ h. elim (bytes_discrete body.user []) [
      | yes e ↦ ground arith
      | no n ↦
          with_channels-IsUsable status body body.channels body.expires_in n refl refl
            (ground arith)
    ],
    IsUsable-unpacked status body user grants expires_in,
  )

  -- A body makes an authorization or a refusal.
  with_channels-cases :
      (status : ℕ) (user : Bytes) (channels : Option (List Bytes)) (seconds : Option (Bool × ℕ))
      → ((f : Option Fault) × (with_channels min_expiry max_expiry status user channels seconds
            ≡ refused status f))
        ⊎ ((u : Bytes) × (g : GrantSet) × (x : ℕ) × (with_channels min_expiry max_expiry status user
                channels seconds
              ≡ authorized u g x))
  unfolding with_channels
  with_channels-cases status user none seconds = inl (some malformed_response, refl)
  with_channels-cases status user (some channels) none = inl (some malformed_response, refl)
  with_channels-cases status user (some channels) (some (negative, seconds)) =
      elim (Result-cases (new_set channels)) [
        | inl (g, e) ↦
            inr (user, g, clamp_expiry negative seconds min_expiry max_expiry, rw (e, granted) refl)
        | inr (f, e) ↦ inl (some malformed_response, rw (e, granted) refl)
      ]

  pub unpacked-cases :
      (status : ℕ) (body : Option ResponseBody)
      → ((f : Option Fault) × (unpacked min_expiry max_expiry status body ≡ refused status f))
        ⊎ ((u : Bytes) × (g : GrantSet) × (x : ℕ) × (unpacked min_expiry max_expiry status body
              ≡ authorized u g x))
  unfolding unpacked
  unpacked-cases status none = inl (some malformed_response, refl)
  unpacked-cases status (some body) = elim (Bool-cases (same body.user [])) [
    | inl e ↦ inl (some malformed_response, rw e refl)
    | inr e ↦ rw e (with_channels-cases status body.user body.channels body.expires_in)
  ]

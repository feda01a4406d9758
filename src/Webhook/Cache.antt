-- ===== src/Webhook/Cache.antt =====
-- internal/webhook/cache.go: the cache of answers. `net/http`'s cookie parser and the SHA-256 digest are
-- parameters; a time is its nanoseconds.
use sidecartunnel.Base.{
  ℕ, ◌+◌, Bool, true, false, List, [], ◌∷◌, ◌++◌, Option, none, some, Bytes, codes, ltb, leb,
  if◌then◌else◌, update, bytes_discrete,
}
use sidecartunnel.Text.{same}

pub record Entry (A : Type 0) : Type 0 where
  pub value : A
  pub expires : ℕ

pub record Cache (A : Type 0) : Type 0 where
  pub ttl : ℕ
  pub entries : Bytes → Option (Entry A)
  pub last_sweep : ℕ

-- The first cookie of a name.
unfoldable pub cookie_named : Bytes → List (Bytes × Bytes) → Option Bytes
unfolding same
cookie_named name [] = none
cookie_named name ((n, v) ∷ cookies) =
    let rest = cookie_named name cookies in if same n name then some v else rest

abbrev pub line_of : Bytes → Option Bytes → Bytes
line_of name none = []
line_of name (some v) = name ++ (codes "=" ++ (v ++ (b'\n' ∷ [])))

abbrev pub is_some {ℓ} : {A : Type ℓ} → Option A → Bool
is_some none = false
is_some (some a) = true

-- The loop of `key` over the configured names: the text, and whether any cookie was found.
unfoldable pub named_cookies : List Bytes → List (Bytes × Bytes) → Bytes × Bool
unfolding cookie_named
named_cookies [] cookies = ([], false)
named_cookies (name ∷ names) cookies =
    let (text, found) = named_cookies names cookies in
    (
      line_of name (cookie_named name cookies) ++ text,
      if is_some (cookie_named name cookies) then true else found,
    )

module _ (parse : Bytes → Option (List (Bytes × Bytes))) (digest : Bytes → Bytes) where
  -- The key where some names are configured.
  unfoldable pub named_key : List Bytes → Option (List (Bytes × Bytes)) → Bytes
  unfolding named_cookies
  named_key names none = []
  named_key names (some cookies) =
      let (text, found) = named_cookies names cookies in if found then digest text else []

  -- `key`; the empty key is uncacheable.
  unfoldable pub key : List Bytes → Bytes → Bytes
  unfolding named_key same
  key [] cookie = if same cookie [] then [] else digest cookie
  key (name ∷ names) cookie =
      let found = named_key (name ∷ names) (parse cookie) in if same cookie [] then [] else found

module _ {A : Type 0} where
  -- `newCache`
  abbrev pub new_cache : ℕ → Cache A
  new_cache ttl = record { ttl = ttl; entries = λ _. none; last_sweep = 0 }

  abbrev pub live_at : ℕ → Option (Entry A) → Option (Entry A)
  live_at now none = none
  live_at now (some e) = if ltb now e.expires then some e else none

  abbrev pub value_of : Option (Entry A) → Option A
  value_of none = none
  value_of (some e) = some e.value

  -- `get`: an entry that has expired is deleted.
  unfoldable pub get : Cache A → Bytes → ℕ → Cache A × Option A
  unfolding same
  get c k now =
      let found = live_at now (c.entries k) in
      if same k []
      then (c, none)
      else (record c { entries = update bytes_discrete c.entries k found }, value_of found)

  -- The sweep of `put`.
  unfoldable pub sweep : Cache A → ℕ → Cache A
  sweep c now =
      if leb (c.last_sweep + c.ttl) now
      then record c { entries = λ k. live_at now (c.entries k); last_sweep = now }
      else c

  -- `put`
  unfoldable pub put : Cache A → Bytes → A → ℕ → Cache A
  unfolding same sweep
  put c k value now =
      let swept = sweep c now in
      let entry : Entry A = record { value = value; expires = now + c.ttl } in
      if same k []
      then c
      else record swept { entries = update bytes_discrete swept.entries k (some entry) }

  -- `flush`
  unfoldable pub flush : Cache A → Cache A
  flush c = record c { entries = λ _. none }

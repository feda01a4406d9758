-- ===== src/Proto/Codec.antt =====
-- internal/proto/codec.go: Decode, from the values that encoding/json makes of the bytes. The texts of the
-- errors are not modelled, nor the sorting of the keys that only such a text shows.
use sidecartunnel.Base.{
  ℕ, Bool, true, false, ◌||◌, Option, none, some, List, [], ◌∷◌, ◌==◌, if◌then◌else◌, Bytes, codes,
  length, Result, ok, err, ◌>>=◌,
}
use sidecartunnel.Text.{same}
use sidecartunnel.Proto.{Request, connect, subscribe, unsubscribe, publish, sync, ping, Command}

-- `json.Unmarshal` into the types of the code. An object is its fields, each key once, in any order; none
-- inside stands for null, which leaves the map nil. An int64 is its sign and magnitude, and null is 0.
pub record Json : Type 0 where
  pub object_of : Bytes → Option (Option (List (Bytes × Bytes)))
  pub integer_of : Bytes → Option (Bool × ℕ)
  pub subs_of : Bytes → Option (List Bytes)
  pub channel_of : Bytes → Option Bytes
  pub publish_of : Bytes → Option (Bytes × Bytes × Bytes)
  pub empty_of : Bytes → Bool

pub data DecodeError : Type 0 where
  not_object is_null not_integer not_positive unknown_command body_not_object bad_body : DecodeError
  key_count : ℕ → DecodeError

abbrev pub field_id : Bytes
field_id = codes "id"

-- `raw[key]`
unfoldable pub field : Bytes → List (Bytes × Bytes) → Option Bytes
unfolding same
field key [] = none
field key ((k, v) ∷ fields) = let rest = field key fields in if same k key then some v else rest

-- The loop over the keys that leaves out the id.
unfoldable pub commands : List (Bytes × Bytes) → List (Bytes × Bytes)
unfolding same
commands [] = []
commands ((k, v) ∷ fields) =
    let rest = commands fields in if same k field_id then rest else (k, v) ∷ rest

-- `isJSONObject`
unfoldable pub is_json_object : Bytes → Bool
is_json_object [] = false
is_json_object (b ∷ raw) = b == b'{'

-- What a body decodes to.
abbrev pub filled {ℓ} : {A : Type ℓ} → (A → Request) → Option A → Result DecodeError Request
filled make none = err bad_body
filled make (some a) = ok (make a)

-- `decodeBody`
abbrev pub decode_body {ℓ} :
    {A : Type ℓ} → Bytes → (A → Request) → Option A → Result DecodeError Request
decode_body raw make body = if is_json_object raw then filled make body else err body_not_object

abbrev pub empty_body : Bool → Option (Unit {0})
empty_body false = none
empty_body true = some tt

module _ (json : Json) where
  -- `decodeID` of an integer.
  unfoldable pub positive_id : Option (Bool × ℕ) → Result DecodeError ℕ
  positive_id none = err not_integer
  positive_id (some (negative, n)) = if negative || n == 0 then err not_positive else ok n

  -- `decodeID`, and 0 where there is no id.
  unfoldable pub decode_id : Option Bytes → Result DecodeError ℕ
  unfolding positive_id
  decode_id none = ok 0
  decode_id (some raw) = positive_id (json.integer_of raw)

  -- The switch over the command's key.
  unfoldable pub decode_request : Bytes → Bytes → Result DecodeError Request
  unfolding same
  decode_request key raw =
      if same key (codes "connect")
      then decode_body raw connect (json.subs_of raw)
      else if same key (codes "subscribe")
      then decode_body raw subscribe (json.channel_of raw)
      else if same key (codes "unsubscribe")
      then decode_body raw unsubscribe (json.channel_of raw)
      else if same key (codes "publish")
      then decode_body raw (λ (b : Bytes × Bytes × Bytes). publish b.0 b.1 b.2)
          (json.publish_of raw)
      else if same key (codes "sync")
      then decode_body raw (λ (b : Unit {0}). sync) (empty_body (json.empty_of raw))
      else if same key (codes "ping")
      then decode_body raw (λ (b : Unit {0}). ping) (empty_body (json.empty_of raw))
      else err unknown_command

  -- `Decode` from the command keys on.
  unfoldable pub decode_commands : ℕ → List (Bytes × Bytes) → Result DecodeError Command
  unfolding decode_request
  decode_commands id [] = err (key_count 0)
  decode_commands id ((key, raw) ∷ []) = do
    request ← decode_request key raw
    ok (record { id = id; request = request })
  decode_commands id (a ∷ b ∷ more) = err (key_count (length (a ∷ b ∷ more)))

  -- `Decode` from the object on.
  unfoldable pub decode_object : Option (Option (List (Bytes × Bytes))) → Result DecodeError Command
  unfolding decode_id decode_commands
  decode_object none = err not_object
  decode_object (some none) = err is_null
  decode_object (some (some fields)) = do
    id ← decode_id (field field_id fields)
    decode_commands id (commands fields)

  -- `Decode`
  unfoldable pub decode : Bytes → Result DecodeError Command
  unfolding decode_object
  decode bytes = decode_object (json.object_of bytes)

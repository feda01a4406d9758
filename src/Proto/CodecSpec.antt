-- ===== src/Proto/CodecSpec.antt =====
-- internal/proto/codec.go: what a client's frame is, apart from how it is decoded.
use sidecartunnel.Base.{ℕ, ◌<◌, ◌≡◌, ◌⊎◌, true, false, some, List, [], ◌∷◌, Bytes, codes}
use sidecartunnel.Proto.{Request, connect, subscribe, unsubscribe, publish, sync, ping, Command}
use sidecartunnel.Proto.Codec.{Json, field_id, is_json_object}

abbrev pub keys : List (Bytes × Bytes) → List Bytes
keys [] = []
keys ((k, v) ∷ fields) = k ∷ keys fields

-- The names of the commands, and what the body of each says.
pub data Says (json : Json) (key raw : Bytes) (request : Request) : Type 0 where
  says_connect :
      (subs : List Bytes)
      → key ≡ codes "connect"
      → json.subs_of raw ≡ some subs
      → request ≡ connect subs
      → Says json key raw request
  says_subscribe :
      (channel : Bytes)
      → key ≡ codes "subscribe"
      → json.channel_of raw ≡ some channel
      → request ≡ subscribe channel
      → Says json key raw request
  says_unsubscribe :
      (channel : Bytes)
      → key ≡ codes "unsubscribe"
      → json.channel_of raw ≡ some channel
      → request ≡ unsubscribe channel
      → Says json key raw request
  says_publish :
      (channel event payload : Bytes)
      → key ≡ codes "publish"
      → json.publish_of raw ≡ some (channel, event, payload)
      → request ≡ publish channel event payload
      → Says json key raw request
  says_sync :
      key ≡ codes "sync" → json.empty_of raw ≡ true → request ≡ sync → Says json key raw request
  says_ping :
      key ≡ codes "ping" → json.empty_of raw ≡ true → request ≡ ping → Says json key raw request

-- The id of a frame: absent, and then 0, or a positive integer.
pub data Numbers (json : Json) (key raw : Bytes) (fields : List (Bytes × Bytes)) (id : ℕ)
    : Type 0 where
  unnumbered : fields ≡ (key, raw) ∷ [] → id ≡ 0 → Numbers json key raw fields id
  numbered :
      (text : Bytes)
      → (fields ≡ (field_id, text) ∷ (key, raw) ∷ [])
        ⊎ (fields ≡ (key, raw) ∷ (field_id, text) ∷ [])
      → json.integer_of text ≡ some (false, id)
      → 0 < id
      → Numbers json key raw fields id

-- A frame that is a command: an object with one command, whose body is an object that says the request, and
-- with an id or none.
pub record IsFrame (json : Json) (bytes : Bytes) (cmd : Command) : Type 0 where
  pub fields : List (Bytes × Bytes)
  pub object : json.object_of bytes ≡ some (some fields)
  pub key : Bytes
  pub raw : Bytes
  pub id : Numbers json key raw fields cmd.id
  pub body : is_json_object raw ≡ true
  pub says : Says json key raw cmd.request

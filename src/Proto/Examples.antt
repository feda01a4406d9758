-- ===== src/Proto/Examples.antt =====
-- internal/proto/codec.go: a subscribe with an id.
use sidecartunnel.Base.{
  ◌≡◌, refl, subst, ◌↔◌, false, none, some, List, [], ◌∷◌, Bytes, codes, bytes_discrete, has,
  Distinct, ok,
}
use sidecartunnel.Proto.{subscribe, Command}
use sidecartunnel.Proto.Codec.{Json, field, commands, is_json_object, decode}
use sidecartunnel.Proto.CodecSpec.{keys, IsFrame}
use sidecartunnel.Proto.CodecLaws.{decode_iff}

-- The fields of {"id":7,"subscribe":{...}}, whatever the bytes.
abbrev fields : List (Bytes × Bytes)
fields = (codes "id", codes "7") ∷ (codes "subscribe", codes "{") ∷ []

abbrev json : Json
json = record {
  object_of = λ s. some (some fields);
  integer_of = λ s. some (false, 7);
  subs_of = λ s. none;
  channel_of = λ s. some (codes "room.1");
  publish_of = λ s. none;
  empty_of = λ s. false;
}

abbrev command : Command
command = record { id = 7; request = subscribe (codes "room.1") }

subscribes : decode json (codes "x") ≡ ok command
unfolding decode field commands is_json_object
subscribes = refl

fields-Distinct : Distinct bytes_discrete (keys fields)
unfolding has bytes_discrete
fields-Distinct = (refl, (refl, tt))

once :
    (found : List (Bytes × Bytes))
    → json.object_of (codes "x") ≡ some (some found)
    → Distinct bytes_discrete (keys found)
once found e =
    subst (λ (fs : List (Bytes × Bytes)). Distinct bytes_discrete (keys fs)) {x = fields} (cc)
      fields-Distinct

decode_iff_example : (decode json (codes "x") ≡ ok command) ↔ IsFrame json (codes "x") command
decode_iff_example = decode_iff json (codes "x") command once

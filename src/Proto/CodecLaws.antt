-- ===== src/Proto/CodecLaws.antt =====
-- internal/proto/codec.go, Decode: which frames are commands.
use sidecartunnel.Base.{
  ℕ, ◌<◌, ◌≡◌, refl, ap, subst, ◌∙◌, ◌≢◌, ◌↔◌, inl, inr, Bool, true, false, Option, none, some,
  List, [], ◌∷◌, arith, if_cases, Bytes, bytes_discrete, Distinct, Result, ok, err, ◌>>=◌,
  >>=-eq-ok,
}
use sidecartunnel.Text.{same}
use sidecartunnel.Text.Laws.{same_iff}
use sidecartunnel.Proto.{Request, Command}
use sidecartunnel.Proto.Codec.{
  Json, DecodeError, field_id, field, commands, is_json_object, positive_id, decode_id, decode_body,
  empty_body, decode_request, decode_commands, decode_object, decode,
}
use sidecartunnel.Proto.CodecSpec.{
  keys, Says, says_connect, says_subscribe, says_unsubscribe, says_publish, says_sync, says_ping,
  Numbers, unnumbered, numbered, IsFrame,
}
use sidecartunnel.Proto.CodecFields.{commands-one, shape-field, field-one}

module _ (json : Json) where
  -- A case of the switch: what a body that decodes makes the frame say.
  decode_body-Says :
      {A : Type 0} (key raw : Bytes) (request : Request) (make : A → Request) (body : Option A)
      → ((a : A) → body ≡ some a → request ≡ make a → Says json key raw request)
      → decode_body raw make body ≡ ok request
      → (is_json_object raw ≡ true) × Says json key raw request
  decode_body-Says key raw request make none says h = ground arith
  decode_body-Says key raw request make (some a) says h = (ground arith, says a refl (ground arith))

  empty_body-true : (b : Bool) (u : Unit {0}) → empty_body b ≡ some u → b ≡ true
  empty_body-true false u h = cc
  empty_body-true true u h = refl

  decode_request-Says :
      (key raw : Bytes) (request : Request)
      → decode_request json key raw ≡ ok request
      → (is_json_object raw ≡ true) × Says json key raw request
  unfolding decode_request
  decode_request-Says key raw request =
      let P : Result DecodeError Request → Type 0 =
        λ r. r ≡ ok request → (is_json_object raw ≡ true) × Says json key raw request in
      if_cases P _ _ _
        (λ k.
          decode_body-Says key raw request _ _ (λ a e r. says_connect a ((same_iff _ _).0 k) e r))
        (λ _.
          if_cases P _ _ _
            (λ k.
              decode_body-Says key raw request _ _
                (λ a e r. says_subscribe a ((same_iff _ _).0 k) e r))
            (λ _.
              if_cases P _ _ _
                (λ k.
                  decode_body-Says key raw request _ _
                    (λ a e r. says_unsubscribe a ((same_iff _ _).0 k) e r))
                (λ _.
                  if_cases P _ _ _
                    (λ k.
                      decode_body-Says key raw request _ _
                        (λ (c, ev, pl) e r. says_publish c ev pl ((same_iff _ _).0 k) e r))
                    (λ _.
                      if_cases P _ _ _
                        (λ k.
                          decode_body-Says key raw request _ _
                            (λ u e r. says_sync ((same_iff _ _).0 k) (empty_body-true _ u e) r))
                        (λ _.
                          if_cases P _ _ _
                            (λ k.
                              decode_body-Says key raw request _ _
                                (λ u e r. says_ping ((same_iff _ _).0 k) (empty_body-true _ u e) r))
                            (λ _ h. cc))))))

  Says-decode_request :
      (key raw : Bytes) (request : Request)
      → is_json_object raw ≡ true
      → Says json key raw request
      → decode_request json key raw ≡ ok request
  unfolding decode_request same
  Says-decode_request key raw request b (says_connect subs k s r) = rw (k, b, s, r) refl
  Says-decode_request key raw request b (says_subscribe channel k s r) = rw (k, b, s, r) refl
  Says-decode_request key raw request b (says_unsubscribe channel k s r) = rw (k, b, s, r) refl
  Says-decode_request key raw request b (says_publish channel event payload k s r) =
      rw (k, b, s, r) refl
  Says-decode_request key raw request b (says_sync k s r) = rw (k, b, s, r) refl
  Says-decode_request key raw request b (says_ping k s r) = rw (k, b, s, r) refl

  identified_inv :
      (id : ℕ) (res : Result DecodeError Request) (cmd : Command)
      → (do request ← res; ok (record { id = id; request = request })) ≡ ok cmd
      → (cmd.id ≡ id) × (res ≡ ok cmd.request)
  identified_inv id (err e) cmd h = cc
  identified_inv id (ok request) cmd h = (ground arith, ground arith)

  decode_commands_inv :
      (id : ℕ) (found : List (Bytes × Bytes)) (cmd : Command)
      → decode_commands json id found ≡ ok cmd
      → (key : Bytes) × (raw : Bytes) × (found ≡ (key, raw) ∷ [])
        × (cmd.id ≡ id)
        × (decode_request json key raw ≡ ok cmd.request)
  unfolding decode_commands
  decode_commands_inv id [] cmd h = cc
  decode_commands_inv id ((key, raw) ∷ []) cmd h =
      let (same_id, e) = identified_inv id (decode_request json key raw) cmd h in
      (key, raw, refl, same_id, e)
  decode_commands_inv id (a ∷ b ∷ more) cmd h = cc

  decode_object_inv :
      (object : Option (Option (List (Bytes × Bytes)))) (cmd : Command)
      → decode_object json object ≡ ok cmd
      → (fields : List (Bytes × Bytes)) × (object ≡ some (some fields))
        × (id : ℕ) × (decode_id json (field field_id fields) ≡ ok id)
        × (decode_commands json id (commands fields) ≡ ok cmd)
  unfolding decode_object
  decode_object_inv none cmd h = cc
  decode_object_inv (some none) cmd h = cc
  decode_object_inv (some (some fields)) cmd h =
      let (id, e, f) = >>=-eq-ok (decode_id json (field field_id fields)) _ h in
      (fields, refl, id, e, f)

  decode_id-none : (id : ℕ) → decode_id json none ≡ ok id → id ≡ 0
  unfolding decode_id
  decode_id-none id h = ground arith

  positive_id_inv :
      (n : Option (Bool × ℕ)) (id : ℕ)
      → positive_id json n ≡ ok id
      → (n ≡ some (false, id)) × (0 < id)
  unfolding positive_id
  positive_id_inv none id h = cc
  positive_id_inv (some (true, n)) id h = cc
  positive_id_inv (some (false, n)) id h = ground arith

  decode_id-some :
      (text : Bytes) (id : ℕ)
      → decode_id json (some text) ≡ ok id
      → (json.integer_of text ≡ some (false, id)) × (0 < id)
  unfolding decode_id
  decode_id-some text id h = positive_id_inv (json.integer_of text) id h

  decode-IsFrame :
      (bytes : Bytes) (cmd : Command)
      → ((fields : List (Bytes × Bytes))
          → json.object_of bytes ≡ some (some fields)
          → Distinct bytes_discrete (keys fields))
      → decode json bytes ≡ ok cmd
      → IsFrame json bytes cmd
  unfolding decode
  decode-IsFrame bytes cmd once h =
      let (fields, object, id, numbered_by, found) =
        decode_object_inv (json.object_of bytes) cmd h in
      let (key, raw, one, same_id, request) = decode_commands_inv id (commands fields) cmd found in
      let (body, says) = decode_request-Says key raw cmd.request request in
      let number : Numbers json key raw fields cmd.id =
        elim (commands-one fields key raw (once fields object) one) [
          | inl (shape, free) ↦
              unnumbered shape (
                same_id
                ∙ decode_id-none id (subst (λ x. decode_id json x ≡ ok id) free numbered_by))
          | inr (text, shape, named) ↦
              let (int, pos) =
                decode_id-some text id (subst (λ x. decode_id json x ≡ ok id) named numbered_by) in
              numbered text shape (rw same_id int) (rw same_id pos)
        ] in
      record {
        fields = fields;
        object = object;
        key = key;
        raw = raw;
        id = number;
        body = body;
        says = says;
      }

  Says-other : (key raw : Bytes) (request : Request) → Says json key raw request → key ≢ field_id
  Says-other key raw request (says_connect subs k s r) e = cc
  Says-other key raw request (says_subscribe channel k s r) e = cc
  Says-other key raw request (says_unsubscribe channel k s r) e = cc
  Says-other key raw request (says_publish channel event payload k s r) e = cc
  Says-other key raw request (says_sync k s r) e = cc
  Says-other key raw request (says_ping k s r) e = cc

  identified :
      (id : ℕ) (res : Result DecodeError Request) (cmd : Command)
      → id ≡ cmd.id
      → res ≡ ok cmd.request
      → (do request ← res; ok (record { id = id; request = request })) ≡ ok cmd
  identified id (err e) cmd i r = cc
  identified id (ok request) cmd i r = ground arith

  decode_commands-one :
      (id : ℕ) (key raw : Bytes) (cmd : Command)
      → id ≡ cmd.id
      → decode_request json key raw ≡ ok cmd.request
      → decode_commands json id ((key, raw) ∷ []) ≡ ok cmd
  unfolding decode_commands
  decode_commands-one id key raw cmd i r = identified id (decode_request json key raw) cmd i r

  decode-fields :
      (bytes : Bytes) (fields : List (Bytes × Bytes)) (text : Option Bytes) (key raw : Bytes)
      (cmd : Command)
      → json.object_of bytes ≡ some (some fields)
      → field field_id fields ≡ text
      → commands fields ≡ (key, raw) ∷ []
      → decode_id json text ≡ ok cmd.id
      → decode_request json key raw ≡ ok cmd.request
      → decode json bytes ≡ ok cmd
  unfolding decode decode_object
  decode-fields bytes fields text key raw cmd o f c i r =
      rw (o, decode_object) (rw (f, c, i) (decode_commands-one cmd.id key raw cmd refl r))

  decode_id_number :
      (text : Bytes) (id : ℕ)
      → json.integer_of text ≡ some (false, id)
      → 0 < id
      → decode_id json (some text) ≡ ok id
  unfolding decode_id
  decode_id_number text id e pos = rw (e, positive_id) (ground arith)

  no_id : decode_id json none ≡ ok 0
  unfolding decode_id
  no_id = refl

  IsFrame-decode :
      (bytes : Bytes) (cmd : Command) → IsFrame json bytes cmd → decode json bytes ≡ ok cmd
  IsFrame-decode bytes cmd f =
      let request = Says-decode_request f.key f.raw cmd.request f.body f.says in
      let other = Says-other f.key f.raw cmd.request f.says in
      let (free, alone) = field-one f.key f.raw other in
      elim f.id [
        | unnumbered shape i ↦
            decode-fields bytes ((f.key, f.raw) ∷ []) none f.key f.raw cmd
              (f.object ∙ ap (λ x. some (some x)) shape) free alone (rw i no_id) request
        | numbered text shape int pos ↦
            let (named, found) = shape-field f.key f.raw text f.fields other shape in
            decode-fields bytes f.fields (some text) f.key f.raw cmd f.object named found
              (decode_id_number text cmd.id int pos) request
      ]

  -- Bytes decode to a command exactly where they are a frame of it: an object whose only field beside an id is
  -- one command, its name spelt as the protocol spells it, with an object that decodes as its body, and whose
  -- id, where it has one, is a positive integer; the id is 0 where there is none. The fields come in any
  -- order, and a Go map has each key once.
  pub decode_iff :
      (bytes : Bytes) (cmd : Command)
      → ((fields : List (Bytes × Bytes))
          → json.object_of bytes ≡ some (some fields)
          → Distinct bytes_discrete (keys fields))
      → (decode json bytes ≡ ok cmd) ↔ IsFrame json bytes cmd
  decode_iff bytes cmd once = (decode-IsFrame bytes cmd once, IsFrame-decode bytes cmd)

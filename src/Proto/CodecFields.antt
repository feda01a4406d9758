-- ===== src/Proto/CodecFields.antt =====
-- internal/proto/codec.go: the fields of an object that leave one command when the id is left out.
use sidecartunnel.Base.{
  ◌≡◌, refl, ap, subst, ◌∙◌, ◌≢◌, ◌⊎◌, inl, inr, false, none, some, List, [], ◌∷◌, arith, Bytes,
  bytes_discrete, has, Distinct,
}
use sidecartunnel.Text.{same}
use sidecartunnel.Proto.Codec.{field_id, field, commands}
use sidecartunnel.Proto.CodecSpec.{keys}

commands-unnumbered :
    (fields : List (Bytes × Bytes))
    → has bytes_discrete field_id (keys fields) ≡ false
    → (commands fields ≡ fields) × (field field_id fields ≡ none)
unfolding commands field has same
commands-unnumbered [] h = (refl, refl)
commands-unnumbered ((k, v) ∷ fields) h = ground (arith, commands-unnumbered fields)

-- One field more: the id, or a command.
field-id :
    (k v : Bytes) (fields : List (Bytes × Bytes))
    → k ≡ field_id
    → has bytes_discrete k (keys fields) ≡ false
    → (commands ((k, v) ∷ fields) ≡ fields) × (field field_id ((k, v) ∷ fields) ≡ some v)
unfolding commands field same
field-id k v fields e once =
    let (all, _) =
      commands-unnumbered fields (subst (λ x. has bytes_discrete x (keys fields) ≡ false) e once) in
    (ground arith, ground arith)

field-other :
    (k v : Bytes) (fields : List (Bytes × Bytes))
    → k ≢ field_id
    → (commands ((k, v) ∷ fields) ≡ (k, v) ∷ commands fields)
      × (field field_id ((k, v) ∷ fields) ≡ field field_id fields)
unfolding commands field same
field-other k v fields n = (ground arith, ground arith)

-- An id alone, or nothing, where there is no command.
commands-none :
    (fields : List (Bytes × Bytes))
    → Distinct bytes_discrete (keys fields)
    → commands fields ≡ []
    → ((fields ≡ []) × (field field_id fields ≡ none))
      ⊎ ((v : Bytes) × (fields ≡ (field_id, v) ∷ []) × (field field_id fields ≡ some v))
unfolding has
commands-none [] d h = inl (refl, (commands-unnumbered [] refl).1)
commands-none ((k, v) ∷ fields) d h = elim (bytes_discrete k field_id) [
  | yes e ↦ let (rest, named) = field-id k v fields e d.0 in inr (v, cc, named)
  | no n ↦ let (rest, named) = field-other k v fields n in cc
]

-- The shapes of the fields with one command.
pub commands-one :
    (fields : List (Bytes × Bytes)) (key raw : Bytes)
    → Distinct bytes_discrete (keys fields)
    → commands fields ≡ (key, raw) ∷ []
    → ((fields ≡ (key, raw) ∷ []) × (field field_id fields ≡ none))
      ⊎ ((v : Bytes) × ((fields ≡ (field_id, v) ∷ (key, raw) ∷ [])
            ⊎ (fields ≡ (key, raw) ∷ (field_id, v) ∷ []))
          × (field field_id fields ≡ some v))
unfolding has
commands-one [] key raw d h = absurd (cc (h, (commands-unnumbered [] refl).0))
commands-one ((k, v) ∷ fields) key raw d h = elim (bytes_discrete k field_id) [
  | yes e ↦ let (rest, named) = field-id k v fields e d.0 in inr (v, inl (cc), named)
  | no n ↦
      let (rest, named) = field-other k v fields n in
      let none_left : commands fields ≡ [] = ground arith in
      elim (commands-none fields d.1 none_left) [
        | inl (e, f) ↦ inl (ground arith, named ∙ f)
        | inr (w, e, f) ↦ inr (w, inr (ground arith), named ∙ f)
      ]
]

-- Both orders of an id and a command.
pub shape-field :
    (key raw text : Bytes) (fields : List (Bytes × Bytes))
    → key ≢ field_id
    → (fields ≡ (field_id, text) ∷ (key, raw) ∷ []) ⊎ (fields ≡ (key, raw) ∷ (field_id, text) ∷ [])
    → (field field_id fields ≡ some text) × (commands fields ≡ (key, raw) ∷ [])
unfolding has
shape-field key raw text fields n (inl e) =
    let (found, named) = field-id field_id text ((key, raw) ∷ []) refl (ground arith) in
    (ap (field field_id) e ∙ named, ap commands e ∙ found)
shape-field key raw text fields n (inr e) =
    let (rest, named) = field-other key raw ((field_id, text) ∷ []) n in
    let (found, id_named) = field-id field_id text [] refl refl in
    (ap (field field_id) e ∙ (named ∙ id_named), ap commands e ∙ (rest ∙ ap (◌∷◌ (key, raw)) found))

pub field-one :
    (k v : Bytes)
    → k ≢ field_id
    → (field field_id ((k, v) ∷ []) ≡ none) × (commands ((k, v) ∷ []) ≡ (k, v) ∷ [])
unfolding field commands same
field-one k v n = (ground arith, ground arith)

-- ===== src/Config/Reach.antt =====
-- internal/config/validate.go beside Namespace of internal/hub/hub.go: the block that a channel resolves to.
use sidecartunnel.Base.{
  ℕ, ◌≡◌, refl, sym, ap, subst, ◌∙◌, inl, inr, Bool, true, false, Option, none, some, List, [], ◌∷◌,
  ◌++◌, map, arith, ◌==◌, ==_iff, Bool-cases, Option-cases, Bytes, codes, length, take-append,
  bytes_discrete, update, has,
}
use sidecartunnel.Text.{has_prefix, index, contains}
use sidecartunnel.Hub.State.{Namespace, namespace, namespace_name}
use sidecartunnel.Hub.System.{Options, namespace_table, built_in, new_hub}
use sidecartunnel.Config.{NamespaceBlock, Config}
use sidecartunnel.Config.Checks.{refuse}
use sidecartunnel.Config.Tables.{
  Url, is_empty, validate_namespace, namespaces_loop, validate_namespaces, validate_channels,
}
use sidecartunnel.Config.Validate.{validate}
use sidecartunnel.Config.Namespaces.{core, both, namespace-IsAccepted, validate-namespaces}

index-found :
    (name rest : Bytes) (c : ℕ)
    → contains name (c ∷ []) ≡ false
    → index (name ++ c ∷ rest) (c ∷ []) ≡ some (length name)
unfolding index contains has_prefix
index-found [] rest c e = ground (arith, ==_iff c c)
index-found (x ∷ name) rest c e = elim (Bool-cases (x == c)) [
  | inl h ↦ absurd (ground arith)
  | inr h ↦ elim (Option-cases (index name (c ∷ []))) [
    | inl none_there ↦ ground (arith, index-found name rest c (ground arith))
    | inr (i, there) ↦ absurd (ground arith)
  ]
]

name-found :
    (name rest : Bytes) (c : ℕ)
    → contains name (c ∷ []) ≡ false
    → namespace_name (name ++ c ∷ rest) (c ∷ []) ≡ name
unfolding namespace_name
name-found name rest c e =
    rw (namespace_name, index-found name rest c e) (take-append name (c ∷ rest))

has-later :
    (k x : Bytes) (seen : List Bytes)
    → has bytes_discrete k seen ≡ true
    → has bytes_discrete k (x ∷ seen) ≡ true
unfolding has
has-later k x seen h = ground arith

has-first : (x : Bytes) (seen : List Bytes) → has bytes_discrete x (x ∷ seen) ≡ true
unfolding has
has-first x seen = ground arith

update-same :
    (table : Bytes → Option Namespace) (x : Bytes) (v : Option Namespace)
    → update bytes_discrete table x v x ≡ v
update-same table x v = ground arith

update-unseen :
    (table : Bytes → Option Namespace) (x k : Bytes) (v : Option Namespace) (seen : List Bytes)
    → has bytes_discrete x seen ≡ false
    → has bytes_discrete k seen ≡ true
    → update bytes_discrete table x v k ≡ table k
update-unseen table x k v seen f h = elim (bytes_discrete x k) [
  | yes e ↦ absurd (cc (subst (λ y. has bytes_discrete y seen ≡ false) e f))
  | no ne ↦ ground arith
]

-- A later block does not change what the table says of a name that was seen.
table-keeps :
    (table : Bytes → Option Namespace) (seen : List Bytes) (separator k : Bytes)
    (blocks : List NamespaceBlock)
    → namespaces_loop seen separator blocks ≡ none
    → has bytes_discrete k seen ≡ true
    → namespace_table table (map core blocks) k ≡ table k
unfolding namespaces_loop namespace_table core
table-keeps table seen separator k [] e h = refl
table-keeps table seen separator k (ns ∷ blocks) e h =
    let (here, rest) =
      both (validate_namespace seen separator ns)
        (namespaces_loop (ns.name ∷ seen) separator blocks) e in
    let unseen = (namespace-IsAccepted seen separator ns here).unseen in
    table-keeps (update bytes_discrete table ns.name (some (core ns))) (ns.name ∷ seen) separator k
      blocks rest (has-later k ns.name seen h)
    ∙ update-unseen table ns.name k (some (core ns)) seen unseen h

-- Each block is found under its name.
table-finds :
    (table : Bytes → Option Namespace) (seen : List Bytes) (separator : Bytes)
    (front back : List NamespaceBlock) (ns : NamespaceBlock)
    → namespaces_loop seen separator (front ++ ns ∷ back) ≡ none
    → (namespace_table table (map core (front ++ ns ∷ back)) ns.name ≡ some (core ns))
      × (contains ns.name separator ≡ false)
unfolding namespaces_loop namespace_table core
table-finds table seen separator [] back ns e =
    let (here, rest) =
      both (validate_namespace seen separator ns) (namespaces_loop (ns.name ∷ seen) separator back)
        e in
    (
      table-keeps (update bytes_discrete table ns.name (some (core ns))) (ns.name ∷ seen) separator
            ns.name back rest (has-first ns.name seen)
          ∙ update-same table ns.name (some (core ns)),
      (namespace-IsAccepted seen separator ns here).undivided,
    )
table-finds table seen separator (other ∷ front) back ns e =
    let (here, rest) =
      both (validate_namespace seen separator other)
        (namespaces_loop (other.name ∷ seen) separator (front ++ ns ∷ back)) e in
    table-finds (update bytes_discrete table other.name (some (core other))) (other.name ∷ seen)
      separator front back ns rest

accepted-loop :
    (separator : Bytes) (blocks : List NamespaceBlock)
    → validate_namespaces blocks separator ≡ none
    → namespaces_loop [] separator blocks ≡ none
unfolding validate_namespaces
accepted-loop separator blocks e =
    (both (refuse (is_empty blocks) (codes "namespaces")) (namespaces_loop [] separator blocks) e).1

built_in-core :
    (front back : List NamespaceBlock) (ns : NamespaceBlock)
    → built_in (map core (front ++ ns ∷ back)) ≡ map core (front ++ ns ∷ back)
built_in-core [] back ns = refl
built_in-core (other ∷ front) back ns = refl

resolved :
    (o : Options) (name rest : Bytes) (b : ℕ) (ns : Namespace)
    → o.separator ≡ b ∷ []
    → contains name (b ∷ []) ≡ false
    → namespace_table (λ _. none) (built_in o.namespaces) name ≡ some ns
    → namespace (new_hub o) (name ++ b ∷ rest) ≡ some ns
unfolding namespace new_hub
resolved o name rest b ns s u t = grind (arith, name-found name rest b u, s, t)

module _ (parse_url : Bytes → Option Url) (is_cidr : Bytes → Bool) (port_of : Bytes → Option Bytes)
    (c : Config) where
  -- The separator is one byte.
  one_byte : validate parse_url is_cidr port_of c ≡ none → (b : ℕ) × (c.separator ≡ b ∷ [])
  unfolding validate validate_channels
  one_byte h = single c.separator (ground arith)
    where
      single : (s : Bytes) → (length s == 1) ≡ true → (b : ℕ) × (s ≡ b ∷ [])
      single [] e = absurd (cc)
      single (b ∷ []) e = (b, refl)
      single (b ∷ b' ∷ s) e = absurd (ground arith)

  -- Of a configuration that validates no block is dead, and none hides another: a channel that begins with a block's
  -- name and the separator resolves to that block.
  pub validate-resolves :
      (o : Options) (front back : List NamespaceBlock) (ns : NamespaceBlock) (rest : Bytes)
      → validate parse_url is_cidr port_of c ≡ none
      → c.namespaces ≡ front ++ ns ∷ back
      → o.namespaces ≡ map core c.namespaces
      → o.separator ≡ c.separator
      → namespace (new_hub o) (ns.name ++ (c.separator ++ rest)) ≡ some (core ns)
  validate-resolves o front back ns rest h e w s =
      let (b, sep) = one_byte h in
      let looped : namespaces_loop [] c.separator c.namespaces ≡ none =
        accepted-loop c.separator c.namespaces
          (validate-namespaces parse_url is_cidr port_of c h) in
      let (found, undivided) =
        table-finds (λ _. none) [] c.separator front back ns
          (subst (λ l. namespaces_loop [] c.separator l ≡ none) e looped) in
      let table : namespace_table (λ _. none) (built_in o.namespaces) ns.name ≡ some (core ns) =
        subst (λ l. namespace_table (λ _. none) (built_in l) ns.name ≡ some (core ns))
          (sym (w ∙ ap (map core) e)) (rw (built_in-core front back ns) found) in
      subst (λ t. namespace (new_hub o) (ns.name ++ (t ++ rest)) ≡ some (core ns)) (sym sep)
        (resolved o ns.name rest b (core ns) (s ∙ sep)
          (subst (λ t. contains ns.name t ≡ false) sep undivided) table)

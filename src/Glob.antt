-- ===== src/Glob.antt =====
-- internal/glob/glob.go: grants compiled to the cheapest test that is exact for them.
pub mod Spec
pub mod Segments
pub mod Fits
pub mod Shapes
pub mod Correct
pub mod Grants
mod Examples
use sidecartunnel.Base.{
  ℕ, zero, suc, ◌+◌, ◌-◌, Bool, true, false, not, ◌&&◌, List, [], ◌∷◌, Option, none, some, Bytes,
  codes, if◌then◌else◌, length, take, drop, Result, ok, err, ◌>>=◌,
}
use sidecartunnel.Text.{same, has_prefix, has_suffix, index, contains, trim, split}

-- Without `kindNone`'s place as Go's zero value, which `zero_pattern` spells out.
pub data Kind : Type 0 where
  none_kind literal any prefix suffix contains_kind segments : Kind

pub record Pattern : Type 0 where
  pub kind : Kind
  pub head : Bytes
  pub tail : Bytes
  pub parts : List Bytes

pub data CompileError : Type 0 where
  reserved_prefix : CompileError

abbrev pub star : ℕ
star = b'*'

abbrev pub underscore : Bytes
underscore = b'_' ∷ []

abbrev pub zero_pattern : Pattern
zero_pattern = record { kind = none_kind; head = []; tail = []; parts = [] }

-- `seg != ""`
unfoldable pub is_empty : Bytes → Bool
is_empty [] = true
is_empty (c ∷ s) = false

-- The loop that keeps the segments that are not empty.
unfoldable pub non_empty : List Bytes → List Bytes
unfolding is_empty
non_empty [] = []
non_empty (seg ∷ segs) = let rest = non_empty segs in if is_empty seg then rest else seg ∷ rest

-- `segs[0]` and `segs[len(segs)-1]`.
unfoldable pub first : List Bytes → Bytes
first [] = []
first (seg ∷ segs) = seg

unfoldable pub last : List Bytes → Bytes
last [] = []
last (seg ∷ []) = seg
last (seg ∷ next ∷ segs) = last (next ∷ segs)

-- `segs[1 : len(segs)-1]`
unfoldable pub inner : List Bytes → List Bytes
inner segs = drop 1 (take (length segs - 1) segs)

-- The switch on what the star positions leave.
unfoldable pub shape : Bytes → Bytes → List Bytes → Pattern
shape [] [] (m ∷ []) = record { kind = contains_kind; head = m; tail = []; parts = [] }
shape [] tail [] = record { kind = suffix; head = []; tail = tail; parts = [] }
shape (c ∷ head) [] [] = record { kind = prefix; head = c ∷ head; tail = []; parts = [] }
shape head tail middles = record { kind = segments; head = head; tail = tail; parts = middles }

unfoldable pub compile : Bytes → Result CompileError Pattern
unfolding shape has_prefix contains trim split first last inner non_empty
compile pattern =
    if has_prefix pattern underscore
    then err reserved_prefix
    else if not (contains pattern (star ∷ []))
    then ok (record zero_pattern { kind = literal; head = pattern })
    else if is_empty (trim pattern star)
    then ok (record zero_pattern { kind = any })
    else (let segs = split pattern star in
        ok (shape (first segs) (last segs) (non_empty (inner segs))))

-- The loop over the floating segments, each taken at its leftmost occurrence.
unfoldable pub scan : List Bytes → Bytes → Bool
unfolding index
scan [] s = true
scan (seg ∷ parts) s = elim (index s seg) [
  | none ↦ false
  | some i ↦ scan parts (drop (i + length seg) s)
]

unfoldable pub match_segments : Pattern → Bytes → Bool
unfolding scan has_prefix has_suffix
match_segments p s =
    let rest = drop (length p.head) s in
    if not (has_prefix s p.head)
    then false
    else if not (has_suffix rest p.tail)
    then false
    else scan p.parts (take (length rest - length p.tail) rest)

-- The switch of `Match` on the kind.
unfoldable pub match_kind : Kind → Pattern → Bytes → Bool
unfolding match_segments same has_prefix has_suffix contains
match_kind literal p s = same s p.head
match_kind any p s = true
match_kind prefix p s = has_prefix s p.head
match_kind suffix p s = has_suffix s p.tail
match_kind contains_kind p s = contains s p.head
match_kind segments p s = match_segments p s
match_kind none_kind p s = false

unfoldable pub matches : Pattern → Bytes → Bool
unfolding match_kind
matches p s = match_kind p.kind p s

-- `Set`: the compiled grants.
pub record GrantSet : Type 0 where
  pub patterns : List Pattern

-- The error of `NewSet` names the place of the grant that does not compile.
abbrev pub at_place : ℕ → Result CompileError Pattern → Result (ℕ × CompileError) Pattern
at_place i (ok p) = ok p
at_place i (err e) = err (i, e)

-- The loop of `NewSet`; `i` is the place of the next grant.
unfoldable pub compile_all : ℕ → List Bytes → Result (ℕ × CompileError) (List Pattern)
unfolding compile
compile_all i [] = ok []
compile_all i (raw ∷ patterns) = do
  p ← at_place i (compile raw)
  ps ← compile_all (i + 1) patterns
  ok (p ∷ ps)

unfoldable pub new_set : List Bytes → Result (ℕ × CompileError) GrantSet
unfolding compile_all
new_set [] = ok (record { patterns = [] })
new_set (raw ∷ patterns) = do ps ← compile_all 0 (raw ∷ patterns); ok (record { patterns = ps })

unfoldable pub any_matches : List Pattern → Bytes → Bool
any_matches [] channel = false
any_matches (p ∷ ps) channel = if matches p channel then true else any_matches ps channel

unfoldable pub set_matches : GrantSet → Bytes → Bool
unfolding any_matches
set_matches set channel = any_matches set.patterns channel

-- ===== src/Glob/Grants.antt =====
-- internal/glob/glob.go: NewSet and Set.Match, a whole grant list.
use sidecartunnel.Base.{
  ℕ, ◌+◌, ◌≡◌, refl, ◌↔◌, ◌⊎◌, inl, inr, true, List, [], ◌∷◌, ◌++◌, arith, Bool-cases, Bytes,
  length, All, Result, ok, err, ◌>>=◌, >>=-eq-ok,
}
use sidecartunnel.Text.{has_prefix}
use sidecartunnel.Glob.{
  underscore, Pattern, CompileError, reserved_prefix, GrantSet, compile, matches, at_place,
  compile_all, new_set, any_matches, set_matches,
}
use sidecartunnel.Glob.Spec.{Covers}
use sidecartunnel.Glob.Correct.{compile-Covers, compile-of-reserved, compile-of-plain}

-- Some grant of the list covers the channel.
abbrev pub AnyCovers : List Bytes → Bytes → Type 0
AnyCovers [] channel = ⊥
AnyCovers (raw ∷ grants) channel = Covers raw channel ⊎ AnyCovers grants channel

at_place-ok :
    (i : ℕ) (r : Result CompileError Pattern) (p : Pattern) → at_place i r ≡ ok p → r ≡ ok p
at_place-ok i (ok q) p h = ground arith
at_place-ok i (err e) p h = cc

any_matches_sound :
    (i : ℕ) (grants : List Bytes) (ps : List Pattern) (channel : Bytes)
    → compile_all i grants ≡ ok ps
    → (any_matches ps channel ≡ true) ↔ AnyCovers grants channel
unfolding compile_all any_matches
any_matches_sound i [] ps channel h =
    let e : [] ≡ ps = ground arith in rw (← e) (λ m. cc, λ c. absurd c)
any_matches_sound i (raw ∷ grants) ps channel h =
    let (p, hp, hr) = >>=-eq-ok (at_place i (compile raw)) _ h in
    let (qs, hq, hs) = >>=-eq-ok (compile_all (i + 1) grants) _ hr in
    let e : p ∷ qs ≡ ps = ground arith in
    let here = compile-Covers raw channel p (at_place-ok i (compile raw) p hp) in
    let later = any_matches_sound (i + 1) grants qs channel hq in
    rw (← e) (elim (Bool-cases (matches p channel)) [
      | inl m ↦ rw m (λ _. inl (here.0 m), λ _. refl)
      | inr n ↦
          rw n (
            λ r. inr (later.0 r),
            λ c. elim c [ inl d ↦ absurd (cc (here.1 d)) | inr d ↦ later.1 d ],
          )
    ])

-- A grant list that compiles matches a channel exactly when one of its grants covers it.
pub set_matches-Covers :
    (grants : List Bytes) (channel : Bytes) (set : GrantSet)
    → new_set grants ≡ ok set
    → (set_matches set channel ≡ true) ↔ AnyCovers grants channel
unfolding new_set set_matches
set_matches-Covers [] channel set h =
    let e : record { patterns = [] } ≡ set = ground arith in rw (← e) (λ m. cc, λ c. absurd c)
set_matches-Covers (raw ∷ grants) channel set h =
    let (ps, hp, hs) = >>=-eq-ok (compile_all 0 (raw ∷ grants)) _ h in
    let e : record { patterns = ps } ≡ set = ground arith in
    rw (← e) (any_matches_sound 0 (raw ∷ grants) ps channel hp)

abbrev pub IsReserved : Bytes → Type 0
IsReserved raw = has_prefix raw underscore ≡ true

compile_all-reserved :
    (i : ℕ) (front : List Bytes) (raw : Bytes) (back : List Bytes)
    → All (λ g. ¬ IsReserved g) front
    → IsReserved raw
    → compile_all i (front ++ raw ∷ back) ≡ err (i + length front, reserved_prefix)
unfolding compile_all
compile_all-reserved i [] raw back h r = rw (compile-of-reserved raw r) (ground arith)
compile_all-reserved i (g ∷ front) raw back h r =
    let (p, hp) = compile-of-plain g h.0 in
    rw (hp, compile_all-reserved (i + 1) front raw back h.1 r) (ground arith)

-- `NewSet` passes the error of its loop on.
wrap :
    {n : ℕ} {r : Result (ℕ × CompileError) (List Pattern)}
    → r ≡ err (0 + n, reserved_prefix)
    → ◌≡◌ {A = Result (ℕ × CompileError) GrantSet}
        (r >>= λ ps. ok (record { patterns = ps }))
        (err (n, reserved_prefix))
wrap e = rw e (ground arith)

-- A list with a reserved grant is refused whole, and the error names the first such grant.
pub new_set-reserved :
    (front : List Bytes) (raw : Bytes) (back : List Bytes)
    → All (λ g. ¬ IsReserved g) front
    → IsReserved raw
    → new_set (front ++ raw ∷ back) ≡ err (length front, reserved_prefix)
unfolding new_set
new_set-reserved front raw back h r = go front (compile_all-reserved 0 front raw back h r)
  where
    go :
        (l : List Bytes)
        → compile_all 0 (l ++ raw ∷ back) ≡ err (0 + length front, reserved_prefix)
        → new_set (l ++ raw ∷ back) ≡ err (length front, reserved_prefix)
    go [] e = wrap e
    go (g ∷ l) e = wrap e

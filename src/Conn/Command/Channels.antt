-- ===== src/Conn/Command/Channels.antt =====
-- internal/conn/command.go: which channels a connection may name, and the bounded list of them.
use sidecartunnel.Base.{
  ℕ, ◌≤◌, ◌<◌, ◌≡◌, refl, subst, ◌≢◌, ◌↔◌, ◌⊎◌, inl, inr, ite, Bool, true, false, none, some, List,
  [], ◌∷◌, ◌++◌, arith, ◌==◌, Bool-cases, Bytes, length, length-append, All, All-append,
  bytes_discrete, has, Distinct, ok,
}
use sidecartunnel.Text.{same, has_prefix}
use sidecartunnel.Glob.{GrantSet, new_set}
use sidecartunnel.Glob.Grants.{AnyCovers, set_matches-Covers}
use sidecartunnel.Conn.{Conn}
use sidecartunnel.Conn.Command.{
  reserved_prefix, allows, printable, well_formed, check_channel, bounded_loop, bounded,
}

-- One or more of the bytes 0x21 to 0x7E, and no more than the cap.
abbrev pub IsName : Conn → Bytes → Type 0
IsName c channel =
    (channel ≢ [])
    × (length channel ≤ c.max_channel_length)
    × All (λ b. (33 ≤ b) × (b ≤ 126)) channel

printable-All :
    (channel : Bytes) → (printable channel ≡ true) ↔ All (λ b. (33 ≤ b) × (b ≤ 126)) channel
unfolding printable
printable-All [] = (λ e. tt, λ a. refl)
printable-All (b ∷ channel) = (
  λ e. (ground arith, (printable-All channel).0 (ground arith)),
  λ a. ground (arith, (printable-All channel).1 a.1, a.0),
)

well_formed-IsName :
    (c : Conn) (channel : Bytes) → (well_formed c channel ≡ true) ↔ IsName c channel
unfolding well_formed same
well_formed-IsName c channel = (
  λ e. (ground arith, ground arith, (printable-All channel).0 (ground arith)),
  λ (a, b, p). ground (arith, (printable-All channel).1 p),
)

-- With grants that compiled, a channel passes every check of the connection exactly where its name is
-- well formed, does not start with the reserved prefix, and one of the grants covers it.
pub check_channel-Covers :
    (c : Conn) (raw : List Bytes) (set : GrantSet) (channel : Bytes)
    → new_set raw ≡ ok set
    → c.grants ≡ some set
    → (check_channel c channel ≡ none)
      ↔ (IsName c channel × (has_prefix channel reserved_prefix ≡ false) × AnyCovers raw channel)
unfolding check_channel allows
check_channel-Covers c raw set channel compiled granted =
    let named = well_formed-IsName c channel in
    let covers = set_matches-Covers raw channel set compiled in
    (
      λ e. (named.0 (ground arith), ground arith, covers.0 (ground arith)),
      λ (n, r, a). ground (arith, named.1 n, covers.1 a),
    )

has-snoc :
    (x y : Bytes) (ys : List Bytes)
    → has bytes_discrete x (ys ++ y ∷ []) ≡ ite (bytes_discrete y x) true (has bytes_discrete x ys)
unfolding has
has-snoc x y [] = refl
has-snoc x y (z ∷ ys) = ground (arith, has-snoc x y ys)

snoc-Distinct :
    (y : Bytes) (ys : List Bytes)
    → Distinct bytes_discrete ys
    → has bytes_discrete y ys ≡ false
    → Distinct bytes_discrete (ys ++ y ∷ [])
unfolding has
snoc-Distinct y [] d n = (refl, tt)
snoc-Distinct y (z ∷ ys) d n =
    (ground (arith, has-snoc z y ys, d.0), snoc-Distinct y ys d.1 (ground arith))

has-All :
    (all xs : List Bytes)
    → ((x : Bytes) → has bytes_discrete x xs ≡ true → has bytes_discrete x all ≡ true)
    → All (λ x. has bytes_discrete x all ≡ true) xs
unfolding has
has-All all [] sub = tt
has-All all (x ∷ xs) sub = (sub x (ground arith), has-All all xs (λ y h. sub y (ground arith)))

-- The names of `out` are taken from `from`, pass the filter, and stand there once; there are no more
-- than `cap`.
pub record IsSelected (keep : Bytes → Bool) (cap : ℕ) (from out : List Bytes) : Type 0 where
  pub short : length out ≤ cap
  pub kept : All (λ x. keep x ≡ true) out
  pub once : Distinct bytes_discrete out
  pub asked : All (λ x. has bytes_discrete x from ≡ true) out

module _ (keep : Bytes → Bool) (cap : ℕ) where
  abbrev IsBelow : List Bytes → List Bytes → Type 0
  IsBelow out seen =
      (x : Bytes) → has bytes_discrete x out ≡ true → has bytes_discrete x seen ≡ true

  taken-IsSelected :
      (from seen out : List Bytes) (channel : Bytes)
      → IsSelected keep cap from out
      → IsBelow out seen
      → has bytes_discrete channel seen ≡ false
      → keep channel ≡ true
      → (length out == cap) ≡ false
      → has bytes_discrete channel from ≡ true
      → IsSelected keep cap from (out ++ channel ∷ [])
  taken-IsSelected from seen out channel v below new good room there = record {
    short = ground (arith, length-append out (channel ∷ []), v.short);
    kept = All-append (λ x. keep x ≡ true) out (channel ∷ []) v.kept (good, tt);
    once = snoc-Distinct channel out v.once (ground (arith, below channel));
    asked =
        All-append (λ x. has bytes_discrete x from ≡ true) out (channel ∷ []) v.asked (there, tt);
  }

  loop-IsSelected :
      (from seen out rest : List Bytes)
      → All (λ x. has bytes_discrete x from ≡ true) rest
      → IsSelected keep cap from out
      → IsBelow out seen
      → IsSelected keep cap from (bounded_loop keep cap seen out rest)
  unfolding bounded_loop has
  loop-IsSelected from seen out [] a v below = v
  loop-IsSelected from seen out (channel ∷ rest) a v below =
      elim (Bool-cases (has bytes_discrete channel seen)) [
        | inl e ↦ rw e (loop-IsSelected from seen out rest a.1 v below)
        | inr new ↦ elim (Bool-cases (keep channel)) [
          | inr bad ↦
              rw (new, bad)
                (loop-IsSelected from (channel ∷ seen) out rest a.1 v
                  (λ x h. ground (arith, below x h)))
          | inl good ↦ elim (Bool-cases (length out == cap)) [
            | inl full ↦ rw (new, good, full) v
            | inr room ↦
                rw (new, good, room)
                  (loop-IsSelected from (channel ∷ seen) (out ++ channel ∷ []) rest a.1
                    (taken-IsSelected from seen out channel v below new good room a.0)
                    (λ x h. ground (arith, below x, has-snoc x channel out)))
          ]
        ]
      ]

  loop-full :
      (seen out rest : List Bytes)
      → ((x : Bytes)
          → has bytes_discrete x seen ≡ true
          → keep x ≡ true
          → has bytes_discrete x out ≡ true)
      → length (bounded_loop keep cap seen out rest) < cap
      → (x : Bytes) → (has bytes_discrete x seen ≡ true) ⊎ (has bytes_discrete x rest ≡ true)
      → keep x ≡ true
      → has bytes_discrete x (bounded_loop keep cap seen out rest) ≡ true
  unfolding bounded_loop has
  loop-full seen out [] known le x (inl h) good = known x h good
  loop-full seen out [] known le x (inr h) good = absurd (ground arith)
  loop-full seen out (channel ∷ rest) known le x h good =
      elim (Bool-cases (has bytes_discrete channel seen)) [
        | inl e ↦ rw e (loop-full seen out rest known (ground arith) x (elsewhere h e) good)
        | inr new ↦ elim (Bool-cases (keep channel)) [
          | inr bad ↦
              rw (new, bad)
                (loop-full (channel ∷ seen) out rest (λ y g k. ground (arith, known y))
                  (ground arith) x (in_front h) good)
          | inl fine ↦ elim (Bool-cases (length out == cap)) [
            | inl full ↦ absurd (ground arith)
            | inr room ↦
                rw (new, fine, room)
                  (loop-full (channel ∷ seen) (out ++ channel ∷ []) rest
                    (λ y g k. ground (arith, known y, has-snoc y channel out)) (ground arith) x
                    (in_front h) good)
          ]
        ]
      ]
    where
      elsewhere :
          (has bytes_discrete x seen ≡ true) ⊎ (has bytes_discrete x (channel ∷ rest) ≡ true)
          → has bytes_discrete channel seen ≡ true
          → (has bytes_discrete x seen ≡ true) ⊎ (has bytes_discrete x rest ≡ true)
      elsewhere (inl g) e = inl g
      elsewhere (inr g) e = elim (bytes_discrete channel x) [
        | yes same_name ↦ inl (subst (λ y. has bytes_discrete y seen ≡ true) same_name e)
        | no other ↦ inr (ground arith)
      ]

      in_front :
          (has bytes_discrete x seen ≡ true) ⊎ (has bytes_discrete x (channel ∷ rest) ≡ true)
          → (has bytes_discrete x (channel ∷ seen) ≡ true) ⊎ (has bytes_discrete x rest ≡ true)
      in_front (inl g) = inl (ground arith)
      in_front (inr g) = elim (bytes_discrete channel x) [
        | yes same_name ↦ inl (ground arith)
        | no other ↦ inr (ground arith)
      ]

-- The list that a connect frame's channels are cut down to: at most `max_subscriptions` names, each
-- once, each asked for and each accepted by the filter; and while there is room, every name that was
-- asked for and is accepted.
pub bounded-IsSelected :
    (c : Conn) (subs : List Bytes) (keep : Bytes → Bool)
    → IsSelected keep c.max_subscriptions subs (bounded c subs keep)
      × (length (bounded c subs keep) < c.max_subscriptions
          → (x : Bytes) → has bytes_discrete x subs ≡ true
          → keep x ≡ true
          → has bytes_discrete x (bounded c subs keep) ≡ true)
unfolding bounded has
bounded-IsSelected c subs keep = (
  loop-IsSelected keep c.max_subscriptions subs [] [] subs (has-All subs subs (λ x h. h))
      (record { short = omega arith; kept = tt; once = tt; asked = tt }) (λ x h. h),
  λ le x h k.
      loop-full keep c.max_subscriptions [] [] subs (λ y g q. absurd (ground arith)) le x (inr h) k,
)

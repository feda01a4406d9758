-- ===== src/Server/Admission.antt =====
-- internal/server/handler.go: track, untrack and admitUser, the accounts of the live connections by
-- user. `conns` is the map from a connection to its user, empty until the user is known; an int of the
-- counts stays far below 2^63, and is not below 0 since the code deletes a count that reaches 0.
use sidecartunnel.Base.{
  ℕ, suc, ◌-◌, Bool, true, false, not, ◌&&◌, List, [], ◌∷◌, Option, none, some, Bytes, ltb, leb,
  ◌==◌, if◌then◌else◌, update, bytes_discrete,
}
use sidecartunnel.Text.{same}

pub record Admission : Type 0 where
  pub conns : List (ℕ × Bytes)
  pub users : Bytes → ℕ
  pub draining : Bool
  pub limit : ℕ

unfoldable pub user_at : ℕ → List (ℕ × Bytes) → Option Bytes
user_at c [] = none
user_at c ((d, user) ∷ conns) = let rest = user_at c conns in if d == c then some user else rest

-- `delete(s.conns, c)`
unfoldable pub without : ℕ → List (ℕ × Bytes) → List (ℕ × Bytes)
without c [] = []
without c ((d, user) ∷ conns) =
    let rest = without c conns in if d == c then rest else (d, user) ∷ rest

-- `s.conns[c] = user`
unfoldable pub bind : ℕ → Bytes → List (ℕ × Bytes) → List (ℕ × Bytes)
unfolding without
bind c user conns = (c, user) ∷ without c conns

-- `track`, with whether the replica still accepts.
unfoldable pub track : Admission → ℕ → Admission × Bool
unfolding bind
track a c = (record a { conns = bind c [] a.conns }, not a.draining)

unfoldable pub forget : Admission → ℕ → Option Bytes → Admission
unfolding without same
forget a c none = a
forget a c (some user) =
    let left = record a { conns = without c a.conns } in
    if same user []
    then left
    else record left { users = update bytes_discrete a.users user (a.users user - 1) }

-- `untrack`
unfoldable pub untrack : Admission → ℕ → Admission
unfolding forget user_at
untrack a c = forget a c (user_at c a.conns)

-- `admitUser`, with whether the connection is admitted.
unfoldable pub admit_user : Admission → ℕ → Bytes → Admission × Bool
unfolding bind
admit_user a c user = if ltb 0 a.limit && leb a.limit (a.users user) then (a, false) else (
  record a {
    conns = bind c user a.conns;
    users = update bytes_discrete a.users user (suc (a.users user));
  },
  true,
)

abbrev pub names_of : List (ℕ × Bytes) → List ℕ
names_of [] = []
names_of ((c, user) ∷ conns) = c ∷ names_of conns

-- The critical section of `Drain`, with the connections that it is going to close.
unfoldable pub drain : Admission → Admission × List ℕ
drain a = (record a { draining = true }, names_of a.conns)

-- What the handlers of the connections do, each under the lock.
pub data Move : Type 0 where
  tracks untracks : ℕ → Move
  admits : ℕ → Bytes → Move

unfoldable pub move : Admission → Move → Admission
unfolding track untrack admit_user
move a (tracks c) = (track a c).0
move a (untracks c) = untrack a c
move a (admits c user) = (admit_user a c user).0

unfoldable pub move_all : Admission → List Move → Admission
unfolding move
move_all a [] = a
move_all a (m ∷ ms) = move_all (move a m) ms

-- ===== src/Bus/RedisApply.antt =====
-- internal/bus/redis.go, apply and issue: what a run of commands leaves, acknowledged or not.
use sidecartunnel.Base.{
  ℕ, ◌≤◌, ◌≡◌, refl, ap, subst, ◌∙◌, ◌⊎◌, inl, inr, Bool, true, false, not, ◌&&◌, Option, none,
  some, List, arith, if◌then◌else◌, if_cases, Bytes,
}
use sidecartunnel.Bus.Redis.{
  RedisBus, RedisError, Reply, diff, chunk, issue, add_after, apply_diff, apply,
}
use sidecartunnel.Bus.RedisParts.{holds, diff-has, joined, chunk-joined}
use sidecartunnel.Bus.RedisIssue.{Alike, IsTrue, IsFrame, IsFrame-trans, IsIssued, issue-IsIssued}

-- What `apply` leaves.
pub record IsApplied (b b' : RedisBus) (e : Option RedisError) : Type 0 where
  pub frame : IsFrame b b'
  pub true_still : IsTrue b'
  pub settled : e ≡ none → (b.linked ≡ true) × (b'.cut ≡ b.cut) × Alike b'.current b.desired
  pub failed : (f : RedisError) → e ≡ some f → (b.linked ≡ false) ⊎ (b'.cut ≡ true)

Both : Bool → Bool → Bool → Bool → Type 0
Both r a c d =
    (a ≡ (d && not c)) → (r ≡ (c && not d)) → (if a then true else if r then false else c) ≡ d

Both-all : (r a c d : Bool) → Both r a c d
unfolding Both
Both-all r a true true p q = ground arith
Both-all r a true false p q = ground arith
Both-all r a false true p q = ground arith
Both-all r a false false p q = ground arith

pair_up :
    (add remove : List Bytes) (b b' b'' : RedisBus) (e : Option RedisError)
    → b.linked ≡ true
    → ((x : Bytes)
        → (holds x add ≡ (holds x b.desired && not (holds x b.current)))
          × (holds x remove ≡ (holds x b.current && not (holds x b.desired))))
    → IsIssued false remove b b' none
    → IsIssued true add b' b'' e
    → IsApplied b b'' e
unfolding Both
pair_up add remove b b' b'' e l differ first second = record {
  frame = IsFrame-trans b b' b'' first.frame second.frame;
  true_still = second.true_still;
  settled = λ h.
      let (cut, kept) = first.done refl in
      let (cut', held) = second.done h in
      (
        l,
        cut' ∙ cut,
        λ x.
            held x
            ∙ (ap (λ o. if holds x add then true else o) (kept x)
                ∙ Both-all (holds x remove) (holds x add) (holds x b.current) (holds x b.desired)
                    (differ x).0 (differ x).1),
      );
  failed = λ f h. inr (second.failed f h);
}

first_failed :
    (remove : List Bytes) (b b' : RedisBus) (f : RedisError)
    → IsIssued false remove b b' (some f)
    → IsApplied b b' (some f)
first_failed remove b b' f first = record {
  frame = first.frame;
  true_still = first.true_still;
  settled = λ h. cc;
  failed = λ g h. inr (first.failed f refl);
}

abbrev Differ : List Bytes → List Bytes → RedisBus → Type 0
Differ add remove b =
    (x : Bytes)
    → (holds x add ≡ (holds x b.desired && not (holds x b.current)))
      × (holds x remove ≡ (holds x b.current && not (holds x b.desired)))

add_after-IsApplied :
    (add remove : List Bytes) (parts : List (List Bytes)) (replies : ℕ → Reply) (i : ℕ)
    (b b' : RedisBus) (e : Option RedisError)
    → b.linked ≡ true
    → Differ add remove b
    → joined parts ≡ add
    → IsIssued false remove b b' e
    → let (b'', e') = add_after parts replies i b' e in IsApplied b b'' e'
unfolding add_after
add_after-IsApplied add remove parts replies i b b' (some f) l differ p first =
    first_failed remove b b' f first
add_after-IsApplied add remove parts replies i b b' none l differ p first =
    pair_up add remove b b' _ _ l differ first (
      subst
        (λ (channels : List Bytes).
          IsIssued true channels b' (issue true parts replies i b').0
            (issue true parts replies i b').2)
        p (issue-IsIssued true parts replies i b' first.true_still (first.frame.linked ∙ l)))

apply_diff-IsApplied :
    (add remove : List Bytes) (replies : ℕ → Reply) (b : RedisBus)
    → 1 ≤ b.chunk_size
    → IsTrue b
    → b.linked ≡ true
    → Differ add remove b
    → let (b', e) = apply_diff add remove replies b in IsApplied b b' e
unfolding apply_diff
apply_diff-IsApplied add remove replies b s t l differ =
    let parts = chunk remove b.chunk_size in
    add_after-IsApplied add remove (chunk add b.chunk_size) replies _ b _ _ l differ
      (chunk-joined add b.chunk_size s).0
      (subst
        (λ (channels : List Bytes).
          IsIssued false channels b (issue false parts replies 0 b).0
            (issue false parts replies 0 b).2)
        (chunk-joined remove b.chunk_size s).0 (issue-IsIssued false parts replies 0 b t l))

pub apply-IsApplied :
    (replies : ℕ → Reply) (b : RedisBus)
    → 1 ≤ b.chunk_size
    → IsTrue b
    → let (b', e) = apply replies b in IsApplied b b' e
unfolding apply
apply-IsApplied replies b s t =
    let changes = diff b.current b.desired in
    if_cases (λ (r : RedisBus × Option RedisError). IsApplied b r.0 r.1) (b.linked && b.connected) _
      _
      (λ l.
        apply_diff-IsApplied changes.0 changes.1 replies b s t (ground arith)
          (λ x. diff-has x b.current b.desired))
      (λ l. record {
        frame = ground arith;
        true_still = t;
        settled = λ h. cc;
        failed = λ f h. inl (ground (arith, t.together));
      })

-- ===== src/Bus/RedisIssue.antt =====
-- internal/bus/redis.go, issue: what one run of chunks leaves, acknowledged or not.
use sidecartunnel.Base.{
  ℕ, suc, ◌≡◌, refl, sym, ap, subst, ◌∙◌, Bool, true, false, Option, none, some, List, [], ◌∷◌,
  ◌++◌, arith, if◌then◌else◌, Bytes, length, has,
}
use sidecartunnel.Bus.Redis.{
  RedisBus, RedisError, Reply, acknowledged, lost, confirm, drop_connection, answered, issue,
}
use sidecartunnel.Bus.RedisParts.{holds, joined, change-has, has-append}

-- The two sets have the same members.
abbrev pub Alike : List Bytes → List Bytes → Type 0
Alike xs ys = (x : Bytes) → holds x xs ≡ holds x ys

-- The book-keeping is what the server holds, while the connection is not closed; and the gauge is its size.
pub record IsTrue (b : RedisBus) : Type 0 where
  pub alike : b.linked ≡ true → b.cut ≡ false → Alike b.server b.current
  pub gauge : b.connected ≡ true → b.subs ≡ length b.current
  pub together : b.connected ≡ b.linked

-- What no command changes.
pub record IsFrame (b b' : RedisBus) : Type 0 where
  pub linked : b'.linked ≡ b.linked
  pub connected : b'.connected ≡ b.connected
  pub closing : b'.closing ≡ b.closing
  pub desired : b'.desired ≡ b.desired
  pub chunk_size : b'.chunk_size ≡ b.chunk_size
  pub out : b'.out ≡ b.out
  pub intake : b'.intake ≡ b.intake
  pub dropped : b'.dropped ≡ b.dropped

pub IsFrame-trans : (a b c : RedisBus) → IsFrame a b → IsFrame b c → IsFrame a c
IsFrame-trans a b c p q = ground arith

confirm-IsFrame : (hold : Bool) (part : List Bytes) (b : RedisBus) → IsFrame b (confirm hold part b)
unfolding confirm
confirm-IsFrame hold part b = ground arith

-- What a run of commands leaves, with its error.
pub record IsIssued (hold : Bool) (channels : List Bytes) (b b' : RedisBus) (e : Option RedisError)
    : Type 0 where
  pub frame : IsFrame b b'
  pub true_still : IsTrue b'
  pub done :
      e ≡ none
      → (b'.cut ≡ b.cut)
        × ((x : Bytes)
            → holds x b'.current ≡ (if holds x channels then hold else holds x b.current))
  pub failed : (f : RedisError) → e ≡ some f → b'.cut ≡ true

confirm-IsTrue :
    (hold : Bool) (part : List Bytes) (b : RedisBus)
    → IsTrue b
    → b.connected ≡ true
    → IsTrue (confirm hold part b)
unfolding confirm
confirm-IsTrue hold part b t c = record {
  alike = λ l h x.
      change-has hold x b.server part
      ∙ (ap (λ o. if holds x part then hold else o) (t.alike l h x)
          ∙ sym (change-has hold x b.current part));
  gauge = λ h. refl;
  together = t.together;
}

drop_connection-linked :
    (b : RedisBus) → b.linked ≡ true → drop_connection b ≡ record b { cut = true }
unfolding drop_connection
drop_connection-linked b l = ap (λ t. if t then record b { cut = true } else b) l

failed-IsIssued :
    (hold : Bool) (channels held : List Bytes) (b : RedisBus) (f : RedisError)
    → IsTrue b
    → b.linked ≡ true
    → IsIssued hold channels b (drop_connection (record b { server = held })) (some f)
failed-IsIssued hold channels held b f t l =
    subst (λ b'. IsIssued hold channels b b' (some f))
      (sym (drop_connection-linked (record b { server = held }) l))
      (record {
        frame = ground arith;
        true_still = record { alike = λ l h. cc; gauge = t.gauge; together = t.together };
        done = λ h. cc;
        failed = λ g h. refl;
      })

none-IsIssued : (hold : Bool) (b : RedisBus) → IsTrue b → IsIssued hold [] b b none
unfolding has
none-IsIssued hold b t = record {
  frame = ground arith;
  true_still = t;
  done = λ h. (refl, λ x. refl);
  failed = λ f h. cc;
}

confirm-current :
    (hold : Bool) (part : List Bytes) (b : RedisBus) (x : Bytes)
    → holds x (confirm hold part b).current ≡ (if holds x part then hold else holds x b.current)
unfolding confirm
confirm-current hold part b x = change-has hold x b.current part

confirm-cut : (hold : Bool) (part : List Bytes) (b : RedisBus) → (confirm hold part b).cut ≡ b.cut
unfolding confirm
confirm-cut hold part b = refl

next-IsIssued :
    (hold : Bool) (part : List Bytes) (channels : List Bytes) (b b' : RedisBus)
    (e : Option RedisError)
    → IsIssued hold channels (confirm hold part b) b' e
    → IsIssued hold (part ++ channels) b b' e
next-IsIssued hold part channels b b' e r = record {
  frame = IsFrame-trans b (confirm hold part b) b' (confirm-IsFrame hold part b) r.frame;
  true_still = r.true_still;
  done = λ h.
      let (cut, held) = r.done h in
      (
        cut ∙ confirm-cut hold part b,
        λ x. ground (arith, held x, confirm-current hold part b x, has-append x part channels),
      );
  failed = r.failed;
}

answered-IsIssued :
    (hold : Bool) (part channels : List Bytes) (reply : Reply) (i : ℕ) (b : RedisBus)
    (rest : RedisBus × ℕ × Option RedisError)
    → IsTrue b
    → b.linked ≡ true
    → IsIssued hold channels (confirm hold part b) rest.0 rest.2
    → let (b', j, e) = answered reply i b rest in IsIssued hold (part ++ channels) b b' e
unfolding answered
answered-IsIssued hold part channels acknowledged i b rest t l r =
    next-IsIssued hold part channels b _ _ r
answered-IsIssued hold part channels (lost e held) i b rest t l r =
    failed-IsIssued hold (part ++ channels) held b e t l

pub issue-IsIssued :
    (hold : Bool) (parts : List (List Bytes)) (replies : ℕ → Reply) (i : ℕ) (b : RedisBus)
    → IsTrue b
    → b.linked ≡ true
    → let (b', j, e) = issue hold parts replies i b in IsIssued hold (joined parts) b b' e
unfolding issue
issue-IsIssued hold [] replies i b t l = none-IsIssued hold b t
issue-IsIssued hold (part ∷ parts) replies i b t l =
    answered-IsIssued hold part (joined parts) (replies i) i b _ t l (
      issue-IsIssued hold parts replies (suc i) (confirm hold part b)
        (confirm-IsTrue hold part b t (t.together ∙ l)) ((confirm-IsFrame hold part b).linked ∙ l))

-- ===== src/Webhook/AttemptsLaws.antt =====
-- internal/webhook/webhook.go, attempts: how many requests are issued, when, and what comes of them.
use sidecartunnel.Base.{
  ℕ, zero, suc, ◌+◌, ◌≤◌, ◌<◌, ◌≡◌, refl, ap, subst, ◌⊎◌, inl, inr, Bool, true, false, Option, none,
  some, List, [], ◌∷◌, arith, ℕ_discrete, leb, if_cases, Bytes,
}
use sidecartunnel.Webhook.Answer.{context_done, deadline_exceeded, Outcome, unavailable}
use sidecartunnel.Webhook.Attempts.{
  Request, HttpRequest, Codec, Client, Round, request, attempt, retryable, attempts_loop, attempts,
}

module _ (codec : Codec) (client : Client) (req : Request) (forwarded : Bytes) (deadline : ℕ) where
  -- The loop issues a request in a turn: the context is not done and there is time left.
  abbrev pub Goes : Round → Type 0
  Goes round = (round.cancelled ≡ false) × (round.now < deadline)

  -- The turn in which the loop stops without a request, and its result.
  abbrev pub Stops : Round → Outcome → Type 0
  Stops round o =
      ((round.cancelled ≡ true) × (o ≡ unavailable 0 context_done))
      ⊎ ((deadline ≤ round.now) × (o ≡ unavailable 0 deadline_exceeded))

  abbrev pub outcome : Round → Outcome
  outcome round = attempt codec client req forwarded deadline round

  abbrev pub is_retryable : Round → Bool
  is_retryable round = retryable (outcome round)

  abbrev pub requests : (ℕ → Round) → ℕ → ℕ → List HttpRequest
  requests rounds i zero = []
  requests rounds i (suc k) =
      request codec client req forwarded deadline (rounds i) ∷ requests rounds (suc i) k

  -- Of a loop that starts with turn i and has `left` turns: `issued` requests, of turns i, i + 1 and so on,
  -- each in a turn that goes; all but the last come to a failure that is retried.
  pub record IsRun (rounds : ℕ → Round) (left i : ℕ) (res : Option Outcome × List HttpRequest)
      : Type 0 where
    pub issued : ℕ
    pub sent : res.1 ≡ requests rounds i issued
    pub bounded : issued ≤ left
    pub going : (j : ℕ) → i ≤ j → j < i + issued → Goes (rounds j)
    pub retried : (j : ℕ) → i ≤ j → suc j < i + issued → is_retryable (rounds j) ≡ true
    pub ended :
        ((j : ℕ) × (suc j ≡ i + issued)
          × (i ≤ j)
          × (res.0 ≡ some (outcome (rounds j)))
          × ((is_retryable (rounds j) ≡ false) ⊎ (issued ≡ left)))
        ⊎ ((issued < left) × ((o : Outcome) × (res.0 ≡ some o) × Stops (rounds (i + issued)) o))

  stopped-IsRun :
      (rounds : ℕ → Round) (left i : ℕ) (o : Outcome)
      → Stops (rounds i) o
      → IsRun rounds (suc left) i (some o, [])
  stopped-IsRun rounds left i o s = record {
    issued = 0;
    sent = refl;
    bounded = omega arith;
    going = λ j low high. absurd (omega arith);
    retried = λ j low high. absurd (omega arith);
    ended = inr (omega arith, (o, refl, subst (λ k. Stops (rounds k) o) (omega arith) s));
  }

  last-IsRun :
      (rounds : ℕ → Round) (left i : ℕ)
      → Goes (rounds i)
      → (is_retryable (rounds i) ≡ false) ⊎ (1 ≡ suc left)
      → IsRun rounds
          (suc left)
          i
          (some (outcome (rounds i)), request codec client req forwarded deadline (rounds i) ∷ [])
  last-IsRun rounds left i g e = record {
    issued = 1;
    sent = refl;
    bounded = omega arith;
    going = λ j low high. subst (λ k. Goes (rounds k)) (omega arith) g;
    retried = λ j low high. absurd (omega arith);
    ended = inl (i, omega arith, omega arith, refl, e);
  }

  next-IsRun :
      (rounds : ℕ → Round) (left i : ℕ) (res : Option Outcome × List HttpRequest)
      → Goes (rounds i)
      → is_retryable (rounds i) ≡ true
      → IsRun rounds left (suc i) res
      → IsRun rounds
          (suc left)
          i
          (res.0, request codec client req forwarded deadline (rounds i) ∷ res.1)
  next-IsRun rounds left i res g e r = record {
    issued = suc r.issued;
    sent = ap (◌∷◌ (request codec client req forwarded deadline (rounds i))) r.sent;
    bounded = omega arith;
    going = λ j low high. elim (ℕ_discrete i j) [
      | yes p ↦ subst (λ k. Goes (rounds k)) p g
      | no n ↦ r.going j (omega arith) (omega arith)
    ];
    retried = λ j low high. elim (ℕ_discrete i j) [
      | yes p ↦ subst (λ k. is_retryable (rounds k) ≡ true) p e
      | no n ↦ r.retried j (omega arith) (omega arith)
    ];
    ended = elim r.ended [
      | inl (j, p, low, o, w) ↦
          inl (j, omega arith, omega arith, o, elim w [ inl f ↦ inl f | inr q ↦ inr (omega arith) ])
      | inr (short, (o, p, s)) ↦
          inr (omega arith, (o, p, subst (λ k. Stops (rounds k) o) (omega arith) s))
    ];
  }

  -- What a turn gives, from what the rest of the loop gives after a failure that is retried.
  turn-IsRun :
      (left : ℕ) (rounds : ℕ → Round) (i : ℕ) (last : Option Outcome)
      → (Goes (rounds i)
          → is_retryable (rounds i) ≡ true
          → let again =
              attempts_loop codec client req forwarded deadline left rounds
                (suc i)
                (some (outcome (rounds i))) in
            IsRun rounds
              (suc left)
              i
              (again.0, request codec client req forwarded deadline (rounds i) ∷ again.1))
      → IsRun rounds
          (suc left)
          i
          (attempts_loop codec client req forwarded deadline (suc left) rounds i last)
  unfolding attempts_loop
  turn-IsRun left rounds i last rest =
      if_cases (IsRun rounds (suc left) i) (rounds i).cancelled _ _
        (λ c. stopped-IsRun rounds left i _ (inl (c, refl)))
        (λ c.
          if_cases (IsRun rounds (suc left) i) (leb deadline (rounds i).now) _ _
            (λ spent. stopped-IsRun rounds left i _ (inr (ground arith, refl)))
            (λ spent.
              if_cases (IsRun rounds (suc left) i) (is_retryable (rounds i)) _ _
                (rest (c, ground arith))
                (λ done. last-IsRun rounds left i (c, ground arith) (inl done))))

  attempts_loop-zero :
      (rounds : ℕ → Round) (i : ℕ) (o : Outcome)
      → attempts_loop codec client req forwarded deadline 0 rounds i (some o) ≡ (some o, [])
  unfolding attempts_loop
  attempts_loop-zero rounds i o = refl

  attempts_loop-IsRun :
      (left : ℕ) (rounds : ℕ → Round) (i : ℕ) (last : Option Outcome)
      → IsRun rounds
          (suc left)
          i
          (attempts_loop codec client req forwarded deadline (suc left) rounds i last)
  attempts_loop-IsRun zero rounds i last = turn-IsRun 0 rounds i last (λ g e.
      rw (attempts_loop-zero rounds (suc i) (outcome (rounds i)))
        (last-IsRun rounds 0 i g (inr refl)))
  attempts_loop-IsRun (suc left) rounds i last = turn-IsRun (suc left) rounds i last (λ g e.
      next-IsRun rounds (suc left) i _ g e
        (attempts_loop-IsRun left rounds (suc i) (some (outcome (rounds i)))))

  -- A call always has a result. It issues at most `retries` + 1 requests, one in each of its first turns,
  -- each while the context is not done and before the deadline; all but the last come to a failure that
  -- is retried, so never a decision or a rejected request. The result is the outcome of the last
  -- request, where that is not retried or no turn is left, or the failure of the turn in which the
  -- context was done or the time spent.
  pub attempts-IsRun :
      (rounds : ℕ → Round)
      → IsRun rounds (suc client.retries) 0 (attempts codec client req forwarded deadline rounds)
  unfolding attempts
  attempts-IsRun rounds = attempts_loop-IsRun client.retries rounds 0 none

-- ===== src/Bus/RedisSettles.antt =====
-- internal/bus/redis.go: what a Sync promises, and that a new connection restores the set.
use sidecartunnel.Base.{
  ℕ, suc, ◌≡◌, refl, sym, ap, subst, ◌∙◌, ◌⊎◌, Bool, true, false, ◌&&◌, Option, none, some, List,
  [], ◌∷◌, arith, if_cases, Bytes,
}
use sidecartunnel.Bus.Memory.{to_set}
use sidecartunnel.Bus.Redis.{
  RedisBus, RedisError, Reply, acknowledged, lost, diff, chunk, confirm, answered, issue, add_after,
  apply_diff, apply, check_state, unless, sync,
}
use sidecartunnel.Bus.RedisLink.{
  Event, connects, loses, handle, handle_all, new_redis_bus, adopt, dropped_on, resync, release,
}
use sidecartunnel.Bus.RedisParts.{holds}
use sidecartunnel.Bus.RedisIssue.{Alike}
use sidecartunnel.Bus.RedisApply.{apply-IsApplied}
use sidecartunnel.Bus.RedisRuns.{
  IsSound, handle_all-new-IsSound, adopt-IsSound, release-IsSound, release-unlinked, desire-IsSound,
}

module _ (replies : ℕ → Reply) (answers : (i : ℕ) → replies i ≡ acknowledged) where
  answered-none :
      (reply : Reply) (i : ℕ) (b : RedisBus) (rest : RedisBus × ℕ × Option RedisError)
      → reply ≡ acknowledged
      → rest.2 ≡ none
      → (answered reply i b rest).2 ≡ none
  unfolding answered
  answered-none acknowledged i b rest e h = h
  answered-none (lost f held) i b rest e h = cc

  issue-none :
      (hold : Bool) (parts : List (List Bytes)) (i : ℕ) (b : RedisBus)
      → (issue hold parts replies i b).2 ≡ none
  unfolding issue
  issue-none hold [] i b = refl
  issue-none hold (part ∷ parts) i b =
      answered-none (replies i) i b _ (answers i)
        (issue-none hold parts (suc i) (confirm hold part b))

  add_after-none :
      (parts : List (List Bytes)) (i : ℕ) (b : RedisBus) (e : Option RedisError)
      → e ≡ none
      → (add_after parts replies i b e).1 ≡ none
  unfolding add_after
  add_after-none parts i b none h = issue-none true parts i b
  add_after-none parts i b (some f) h = cc

  -- A server that acknowledges every command leaves no error.
  apply-none : (b : RedisBus) → b.linked ≡ true → b.connected ≡ true → (apply replies b).1 ≡ none
  unfolding apply apply_diff
  apply-none b l c =
      if_cases (λ (r : RedisBus × Option RedisError). r.1 ≡ none) (b.linked && b.connected) _ _
        (λ h.
          add_after-none (chunk (diff b.current b.desired).0 b.chunk_size)
            (issue false (chunk (diff b.current b.desired).1 b.chunk_size) replies 0 b).1
            (issue false (chunk (diff b.current b.desired).1 b.chunk_size) replies 0 b).0
            (issue false (chunk (diff b.current b.desired).1 b.chunk_size) replies 0 b).2
            (issue-none false (chunk (diff b.current b.desired).1 b.chunk_size) 0 b))
        (λ h. absurd (ground arith))

-- What a set that was applied leaves, on a connection that is not closed.
applied-server :
    (replies : ℕ → Reply) (b : RedisBus)
    → IsSound b
    → (apply replies b).1 ≡ none
    → b.cut ≡ false
    → Alike (apply replies b).0.server b.desired
applied-server replies b s h c x =
    let a = apply-IsApplied replies b s.chunked s.true_to in
    let (l, cut, held) = a.settled h in a.true_still.alike (a.frame.linked ∙ l) (cut ∙ c) x ∙ held x

-- A Sync on a bus whose books are in order: on a closed bus or with a context that is done it fails and changes
-- nothing; else the bus keeps the desired set, and, where there is no error, its books are exactly that set
-- and so is what Redis holds for the connection, unless that is closed; where there is an error, there was no
-- connection, or it is closed now, so a new one follows.
pub record IsSync (b b' : RedisBus) (finished : Bool) (desired : List Bytes) (e : Option RedisError)
    : Type 0 where
  pub refused : (f : RedisError) → check_state b finished ≡ some f → (e ≡ some f) × (b' ≡ b)
  pub kept : check_state b finished ≡ none → b'.desired ≡ to_set [] desired
  pub settled :
      e ≡ none
      → Alike b'.current (to_set [] desired) × (b.cut ≡ false → Alike b'.server (to_set [] desired))
  pub failed :
      (f : RedisError)
      → check_state b finished ≡ none
      → e ≡ some f
      → (b.linked ≡ false) ⊎ (b'.cut ≡ true)

unless-IsSync :
    (replies : ℕ → Reply) (b : RedisBus) (finished : Bool) (desired : List Bytes)
    (checked : Option RedisError)
    → IsSound b
    → check_state b finished ≡ checked
    → let (b', e) = unless checked (apply replies (record b { desired = to_set [] desired })) b in
      IsSync b b' finished desired e
unless-IsSync replies b finished desired (some f) s c = record {
  refused = λ g h. (cc, refl);
  kept = λ h. cc;
  settled = λ h. cc;
  failed = λ g h. cc;
}
unless-IsSync replies b finished desired none s c =
    let next = record b { desired = to_set [] desired } in
    let sound = desire-IsSound b (to_set [] desired) s in
    let a = apply-IsApplied replies next sound.chunked sound.true_to in
    record {
      refused = λ g h. cc;
      kept = λ h. a.frame.desired;
      settled = λ h. ((a.settled h).2, λ cut. applied-server replies next sound h cut);
      failed = λ f h e. a.failed f e;
    }

pub sync-IsSync :
    (replies : ℕ → Reply) (b : RedisBus) (finished : Bool) (desired : List Bytes)
    → IsSound b
    → let (b', e) = sync replies b finished desired in IsSync b b' finished desired e
unfolding sync
sync-IsSync replies b finished desired s =
    unless-IsSync replies b finished desired (check_state b finished) s refl

-- A bus that has just adopted a connection for its set.
record IsAdopted (b : RedisBus) (r : RedisBus × Bool) : Type 0 where
  taken : r.1 ≡ true
  linked : r.0.linked ≡ true
  connected : r.0.connected ≡ true
  open_still : r.0.cut ≡ false
  desired : r.0.desired ≡ b.desired

adopt-IsAdopted : (b : RedisBus) → b.closing ≡ false → IsAdopted b (adopt b)
unfolding adopt
adopt-IsAdopted b c =
    if_cases (IsAdopted b) b.closing _ _ (λ h. cc)
      (λ h. record {
        taken = refl;
        linked = refl;
        connected = refl;
        open_still = refl;
        desired = refl;
      })

-- A bus whose connection holds its set.
pub record IsRestored (b b' : RedisBus) : Type 0 where
  pub exact : Alike b'.server b.desired
  pub books : Alike b'.current b.desired
  pub connected : b'.connected ≡ true
  pub desired : b'.desired ≡ b.desired

resync-IsRestored :
    (replies : ℕ → Reply) (b : RedisBus)
    → ((i : ℕ) → replies i ≡ acknowledged)
    → IsSound b
    → b.linked ≡ true
    → b.connected ≡ true
    → b.cut ≡ false
    → IsRestored b (resync replies b)
unfolding resync dropped_on
resync-IsRestored replies b answers s l c open_still =
    let h = apply-none replies answers b l c in
    let a = apply-IsApplied replies b s.chunked s.true_to in
    let applied : IsRestored b (apply replies b).0 = record {
      exact = applied-server replies b s h open_still;
      books = (a.settled h).2;
      connected = a.frame.connected ∙ c;
      desired = a.frame.desired;
    } in
    subst (λ (e : Option RedisError). IsRestored b (dropped_on (apply replies b).0 e)) (sym h)
      applied

connects-IsRestored :
    (replies : ℕ → Reply) (b : RedisBus)
    → ((i : ℕ) → replies i ≡ acknowledged)
    → IsSound b
    → b.linked ≡ false
    → b.closing ≡ false
    → IsRestored b (handle b (connects replies))
unfolding handle
connects-IsRestored replies b answers s l c =
    let a = adopt-IsAdopted b c in
    let r =
      resync-IsRestored replies (adopt b).0 answers (adopt-IsSound b s) a.linked a.connected
        a.open_still in
    if_cases (IsRestored b) b.linked _ _ (λ h. cc)
      (λ h.
        if_cases (IsRestored b) (adopt b).1 _ _
          (λ t. record {
            exact = λ x. r.exact x ∙ ap (holds x) a.desired;
            books = λ x. r.books x ∙ ap (holds x) a.desired;
            connected = r.connected;
            desired = r.desired ∙ a.desired;
          })
          (λ t. absurd (ground (arith, a.taken))))

record IsLost (b b' : RedisBus) : Type 0 where
  sound : IsSound b'
  unlinked : b'.linked ≡ false
  closing : b'.closing ≡ b.closing
  desired : b'.desired ≡ b.desired

release-keeps :
    (b : RedisBus) (now : ℕ)
    → ((release b now).closing ≡ b.closing) × ((release b now).desired ≡ b.desired)
unfolding release
release-keeps b now =
    if_cases (λ (r : RedisBus). (r.closing ≡ b.closing) × (r.desired ≡ b.desired)) b.connected _ _
      (λ h. (refl, refl)) (λ h. (refl, refl))

loses-IsLost : (b : RedisBus) (now : ℕ) → IsSound b → IsLost b (handle b (loses now))
unfolding handle
loses-IsLost b now s =
    if_cases (IsLost b) b.linked _ _
      (λ l. record {
        sound = release-IsSound b now s;
        unlinked = release-unlinked b now;
        closing = (release-keeps b now).0;
        desired = (release-keeps b now).1;
      })
      (λ l. record { sound = s; unlinked = l; closing = refl; desired = refl })

two : (b : RedisBus) (e f : Event) → handle_all b (e ∷ f ∷ []) ≡ handle (handle b e) f
unfolding handle_all
two b e f = refl

-- From any state that a new bus comes to, unless it is closed: when the connection is lost, if there is one,
-- and the next one is adopted, with a server that acknowledges every command, Redis holds exactly the set
-- of the last Sync, the books agree, and the bus is connected.
pub reconnect-restores :
    (intake chunk_size start now : ℕ) (events : List Event) (replies : ℕ → Reply)
    → let b = handle_all (new_redis_bus intake chunk_size start) events in
      b.closing ≡ false
      → ((i : ℕ) → replies i ≡ acknowledged)
      → IsRestored b (handle_all b (loses now ∷ connects replies ∷ []))
reconnect-restores intake chunk_size start now events replies c answers =
    let b = handle_all (new_redis_bus intake chunk_size start) events in
    let lost_now = loses-IsLost b now (handle_all-new-IsSound intake chunk_size start events) in
    let r =
      connects-IsRestored replies (handle b (loses now)) answers lost_now.sound lost_now.unlinked
        (lost_now.closing ∙ c) in
    rw (two b (loses now) (connects replies)) (record {
      exact = λ x. r.exact x ∙ ap (holds x) lost_now.desired;
      books = λ x. r.books x ∙ ap (holds x) lost_now.desired;
      connected = r.connected;
      desired = r.desired ∙ lost_now.desired;
    })

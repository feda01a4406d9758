-- ===== src/Bus/RedisRuns.antt =====
-- internal/bus/redis.go: any sequence of calls, connections and losses.
use sidecartunnel.Base.{
  ℕ, ◌≤◌, ◌≡◌, refl, sym, ◌∙◌, Bool, true, false, Option, none, some, List, [], ◌∷◌, arith, ltb,
  if_cases, Bytes, length, length-append,
}
use sidecartunnel.Bus.Memory.{Message, to_set}
use sidecartunnel.Bus.Redis.{
  RedisBus, RedisError, Reply, drop_connection, apply, check_state, unless, sync,
}
use sidecartunnel.Bus.RedisLink.{
  Event, syncs, connects, drops, loses, reads, closes, handle, handle_all, new_redis_bus, adopt,
  dropped_on, resync, release, read_message, close,
}
use sidecartunnel.Bus.RedisIssue.{IsTrue, IsFrame}
use sidecartunnel.Bus.RedisApply.{apply-IsApplied}

-- What holds of a bus between events.
pub record IsSound (b : RedisBus) : Type 0 where
  pub true_to : IsTrue b
  pub chunked : 1 ≤ b.chunk_size
  pub depth : length b.out ≤ b.intake
  pub over : b.closing ≡ true → b.linked ≡ false

frame-IsSound : (b b' : RedisBus) → IsFrame b b' → IsTrue b' → IsSound b → IsSound b'
frame-IsSound b b' f t s = record {
  true_to = t;
  chunked = rw f.chunk_size s.chunked;
  depth = rw (f.out, f.intake) s.depth;
  over = λ c. f.linked ∙ s.over (sym f.closing ∙ c);
}

new_redis_bus-IsSound : (intake chunk_size now : ℕ) → IsSound (new_redis_bus intake chunk_size now)
unfolding new_redis_bus
new_redis_bus-IsSound intake chunk_size now = record {
  true_to = record { alike = λ l h x. refl; gauge = λ h. refl; together = refl };
  chunked = ground arith;
  depth = omega arith;
  over = λ h. refl;
}

pub apply-IsSound : (replies : ℕ → Reply) (b : RedisBus) → IsSound b → IsSound (apply replies b).0
apply-IsSound replies b s =
    let a = apply-IsApplied replies b s.chunked s.true_to in
    frame-IsSound b (apply replies b).0 a.frame a.true_still s

pub desire-IsSound :
    (b : RedisBus) (set : List Bytes) → IsSound b → IsSound (record b { desired = set })
desire-IsSound b set s = record {
  true_to = record {
    alike = s.true_to.alike;
    gauge = s.true_to.gauge;
    together = s.true_to.together;
  };
  chunked = s.chunked;
  depth = s.depth;
  over = s.over;
}

unless-IsSound :
    (e : Option RedisError) (next : RedisBus × Option RedisError) (b : RedisBus)
    → IsSound b
    → IsSound next.0
    → IsSound (unless e next b).0
unless-IsSound none next b s n = n
unless-IsSound (some e) next b s n = s

sync-IsSound :
    (replies : ℕ → Reply) (b : RedisBus) (finished : Bool) (desired : List Bytes)
    → IsSound b
    → IsSound (sync replies b finished desired).0
unfolding sync
sync-IsSound replies b finished desired s =
    unless-IsSound (check_state b finished) _ b s
      (apply-IsSound replies _ (desire-IsSound b (to_set [] desired) s))

drop_connection-IsSound : (b : RedisBus) → IsSound b → IsSound (drop_connection b)
unfolding drop_connection
drop_connection-IsSound b s =
    if_cases IsSound b.linked _ _
      (λ l. record {
        true_to = record {
          alike = λ l h. cc;
          gauge = s.true_to.gauge;
          together = s.true_to.together;
        };
        chunked = s.chunked;
        depth = s.depth;
        over = s.over;
      })
      (λ l. s)

pub release-IsSound : (b : RedisBus) (now : ℕ) → IsSound b → IsSound (release b now)
unfolding release
release-IsSound b now s =
    if_cases IsSound b.connected _ _
      (λ c. record {
        true_to = record { alike = λ l h. cc; gauge = λ h. cc; together = refl };
        chunked = s.chunked;
        depth = s.depth;
        over = λ h. refl;
      })
      (λ c. record {
        true_to = record { alike = λ l h. cc; gauge = s.true_to.gauge; together = c };
        chunked = s.chunked;
        depth = s.depth;
        over = λ h. refl;
      })

read_message-IsSound :
    (b : RedisBus) (message : Message) → IsSound b → IsSound (read_message b message)
unfolding read_message
read_message-IsSound b message s =
    if_cases IsSound (ltb (length b.out) b.intake) _ _
      (λ l. record {
        true_to = record {
          alike = s.true_to.alike;
          gauge = s.true_to.gauge;
          together = s.true_to.together;
        };
        chunked = s.chunked;
        depth = ground (arith, length-append b.out (message ∷ []));
        over = s.over;
      })
      (λ l. record {
        true_to = record {
          alike = s.true_to.alike;
          gauge = s.true_to.gauge;
          together = s.true_to.together;
        };
        chunked = s.chunked;
        depth = s.depth;
        over = s.over;
      })

pub adopt-IsSound : (b : RedisBus) → IsSound b → IsSound (adopt b).0
unfolding adopt
adopt-IsSound b s =
    if_cases (λ (r : RedisBus × Bool). IsSound r.0) b.closing _ _ (λ c. s)
      (λ c. record {
        true_to = record { alike = λ l h x. refl; gauge = λ h. refl; together = refl };
        chunked = s.chunked;
        depth = s.depth;
        over = λ h. cc;
      })

dropped_on-IsSound : (b : RedisBus) (e : Option RedisError) → IsSound b → IsSound (dropped_on b e)
unfolding dropped_on
dropped_on-IsSound b none s = s
dropped_on-IsSound b (some e) s = drop_connection-IsSound b s

resync-IsSound : (replies : ℕ → Reply) (b : RedisBus) → IsSound b → IsSound (resync replies b)
unfolding resync
resync-IsSound replies b s =
    dropped_on-IsSound (apply replies b).0 (apply replies b).1 (apply-IsSound replies b s)

pub release-unlinked : (b : RedisBus) (now : ℕ) → (release b now).linked ≡ false
unfolding release
release-unlinked b now =
    if_cases (λ (r : RedisBus). r.linked ≡ false) b.connected _ _ (λ c. refl) (λ c. refl)

close-IsSound : (b : RedisBus) (now : ℕ) → IsSound b → IsSound (close b now)
unfolding close
close-IsSound b now s =
    let r = release-IsSound b now s in
    let off = release-unlinked b now in
    if_cases IsSound b.closing _ _ (λ c. s)
      (λ c. record {
        true_to = record { alike = λ l h. cc; gauge = λ h. cc; together = sym off };
        chunked = r.chunked;
        depth = r.depth;
        over = λ h. off;
      })

handle-IsSound : (b : RedisBus) (e : Event) → IsSound b → IsSound (handle b e)
unfolding handle
handle-IsSound b (syncs replies finished desired) s = sync-IsSound replies b finished desired s
handle-IsSound b (connects replies) s =
    if_cases IsSound b.linked _ _ (λ l. s)
      (λ l.
        if_cases IsSound (adopt b).1 _ _
          (λ t. resync-IsSound replies (adopt b).0 (adopt-IsSound b s)) (λ t. s))
handle-IsSound b drops s = drop_connection-IsSound b s
handle-IsSound b (loses now) s =
    if_cases IsSound b.linked _ _ (λ l. release-IsSound b now s) (λ l. s)
handle-IsSound b (reads message) s =
    if_cases IsSound b.linked _ _ (λ l. read_message-IsSound b message s) (λ l. s)
handle-IsSound b (closes now) s = close-IsSound b now s

handle_all-IsSound :
    (b : RedisBus) (events : List Event) → IsSound b → IsSound (handle_all b events)
unfolding handle_all
handle_all-IsSound b [] s = s
handle_all-IsSound b (e ∷ events) s = handle_all-IsSound (handle b e) events (handle-IsSound b e s)

-- Whatever calls, connections, failures and losses a new bus sees: while its connection is not closed, Redis
-- holds for it exactly the channels of its books; while it is connected, the gauge is their number; the
-- intake is within its depth; and a closed bus has no connection.
pub handle_all-new-IsSound :
    (intake chunk_size now : ℕ) (events : List Event)
    → IsSound (handle_all (new_redis_bus intake chunk_size now) events)
handle_all-new-IsSound intake chunk_size now events =
    handle_all-IsSound _ events (new_redis_bus-IsSound intake chunk_size now)

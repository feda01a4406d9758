-- ===== src/Server/FrontExamples.antt =====
-- internal/server: two requests at a front with room for one, and a drain.
use sidecartunnel.Base.{
  ◌≡◌, refl, ◌↔◌, ◌⊎◌, true, false, Option, none, List, [], ◌∷◌, ◌++◌, Bytes, codes, bytes_discrete,
  has,
}
use sidecartunnel.Server.Front.{
  Counters, Front, Knock, comes, returns, begins, waits, knock_all, origin_allowed, wait,
}
use sidecartunnel.Server.FrontLaws.{IsHeld, IsFresh, knock_all-fresh-IsHeld, drained_iff}
use sidecartunnel.Webhook.Answer.{ResponseBody, Response}

abbrev site : Bytes
site = codes "https://a.example"

abbrev none_counted : Counters
none_counted = record {
  origin_rejected = 0;
  over_capacity = 0;
  accepted = 0;
  refused_count = 0;
  unavailable_count = 0;
  user_limited = 0;
}

abbrev front : Front
front = record {
  admission = record { conns = []; users = λ u. 0; draining = false; limit = 2 };
  origins = site ∷ [];
  allow_missing_origin = false;
  max_connections = 1;
  current = 0;
  waiting = false;
  drained = false;
  counters = none_counted;
}

front-IsFresh : IsFresh front
front-IsFresh = record { nobody = refl; unasked = refl; undrained = refl }

abbrev arrivals : List Knock
arrivals = comes site ∷ comes site ∷ comes [] ∷ []

one_holds : (knock_all (front, 0) arrivals).1 ≡ 1
unfolding knock_all origin_allowed has bytes_discrete
one_holds = refl

knock_all-fresh-IsHeld_example :
    IsHeld (knock_all (front, 0) arrivals).0 (knock_all (front, 0) arrivals).1
knock_all-fresh-IsHeld_example = knock_all-fresh-IsHeld front arrivals front-IsFresh

-- One request comes between the two critical sections of the drain, and the handler returns after them.
drained_iff_example :
    let s = knock_all (front, 0) (arrivals ++ begins ∷ comes site ∷ []) in
    let (f, holding) = knock_all s (waits ∷ returns ∷ []) in
    (((wait s.0).1 ≡ true) ⊎ (f.drained ≡ true)) ↔ (holding ≡ 0)
drained_iff_example = drained_iff front arrivals (comes site ∷ []) (returns ∷ []) front-IsFresh

told : (knock_all (front, 0) (arrivals ++ begins ∷ waits ∷ returns ∷ [])).0.drained ≡ true
unfolding knock_all origin_allowed has bytes_discrete
told = refl

-- The last handler returns before the wait.
at_once : (wait (knock_all (front, 0) (arrivals ++ begins ∷ returns ∷ [])).0).1 ≡ true
unfolding knock_all origin_allowed has bytes_discrete wait
at_once = refl

abbrev nothing : Bytes → Option ResponseBody
nothing raw = none

abbrev forbidden_answer : Response
forbidden_answer = record { status = 403; body = []; broken = false }

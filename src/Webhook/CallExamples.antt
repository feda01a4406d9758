-- ===== src/Webhook/CallExamples.antt =====
-- internal/webhook: one call that is retried once and then authorized, refusals, and three calls for one slot.
use sidecartunnel.Base.{
  ℕ, ◌*◌, ◌≤◌, ◌≡◌, refl, ◌↔◌, ◌⊎◌, Bool, true, false, Option, none, some, List, [], ◌∷◌, ◌++◌,
  arith, ◌==◌, if◌then◌else◌, Bytes, codes, length, All,
}
use sidecartunnel.Text.{split, has_prefix}
use sidecartunnel.Glob.{new_set}
use sidecartunnel.Webhook.Expiry.{clamp_expiry}
use sidecartunnel.Webhook.Cache.{Cache, new_cache, key, get, put, sweep}
use sidecartunnel.Webhook.Answer.{Outcome, authorized, ResponseBody, Response, read_all, classify}
use sidecartunnel.Webhook.AnswerLaws.{IsGrant, classify-IsGrant}
use sidecartunnel.Webhook.Attempts.{Request, Codec, Client, HttpRequest, Round, attempts}
use sidecartunnel.Webhook.AttemptsLaws.{IsRun, attempts-IsRun}
use sidecartunnel.Webhook.Slots.{empty, schedule, arrivals, running, queued, full}
use sidecartunnel.Webhook.SlotsLaws.{IsAccounted, schedule-arrivals-IsAccounted}
use sidecartunnel.Webhook.SlotsEnd.{IsOver, IsPrompt, schedule-ends}
use sidecartunnel.Webhook.Calls.{Authorized, Gate, Meets, look, call}
use sidecartunnel.Webhook.CallsLaws.{found, call-found}
use sidecartunnel.Webhook.Forwarded.{within, parse_hop, forwarded_for}
use sidecartunnel.Webhook.ForwardedLaws.{stops_at, forwarded_for-left}

abbrev hour : ℕ
hour = 3600000000000

abbrev alice : ResponseBody
alice = record { user = codes "alice"; channels = some []; expires_in = some (false, 7200) }

-- The body "a" stands for an answer that names alice.
abbrev unmarshal : Bytes → Option ResponseBody
unmarshal raw = if length raw == 1 then some alice else none

abbrev answer : ℕ → Bytes → Response
answer status body = record { status = status; body = body; broken = false }

usable_answer :
    classify unmarshal hour (6 * hour) (answer 200 (codes "a"))
    ≡ authorized (codes "alice") (record { patterns = [] }) (2 * hour)
unfolding classify read_all new_set clamp_expiry
usable_answer = refl

classify-IsGrant_example :
    (classify unmarshal hour (6 * hour) (answer 200 (codes "a"))
      ≡ authorized (codes "alice") (record { patterns = [] }) (2 * hour))
    ↔ IsGrant unmarshal hour
        (6 * hour)
        (answer 200 (codes "a"))
        (codes "alice")
        (record { patterns = [] })
        (2 * hour)
classify-IsGrant_example =
    classify-IsGrant unmarshal hour (6 * hour) (answer 200 (codes "a")) (codes "alice")
      (record { patterns = [] }) (2 * hour)

abbrev codec : Codec
codec = record {
  marshal = λ client channels. client;
  unmarshal = unmarshal;
  sha256_hex = λ s. s;
  hmac_hex = λ k s. k ++ s;
  decimal = λ n. codes "0";
}

abbrev client : Client
client = record {
  secret = codes "k";
  connect_timeout = 10000000000;
  webhook_timeout = 3000000000;
  retries = 2;
  min_expiry = hour;
  max_expiry = 6 * hour;
}

abbrev req : Request
req = record {
  client = codes "c1";
  cookie = codes "s=1";
  origin = codes "https://a";
  user_agent = [];
  remote_addr = codes "10.0.0.1";
  forwarded_for = [];
  channels_requested = [];
}

-- The first attempt is answered by a 502, the second by a body that names alice.
abbrev rounds : ℕ → Round
rounds i = record {
  cancelled = false;
  now = i * 1000000000;
  stamp = i * 1000000000;
  nonce = codes "n";
  answer = λ r. some (if i == 0 then answer 502 [] else answer 200 (codes "a"));
}

attempts-IsRun_example :
    IsRun codec client req
      (codes "10.0.0.1")
      10000000000
      rounds
      3
      0
      (attempts codec client req (codes "10.0.0.1") 10000000000 rounds)
attempts-IsRun_example = attempts-IsRun codec client req (codes "10.0.0.1") 10000000000 rounds

two_requests : length (attempts codec client req (codes "10.0.0.1") 10000000000 rounds).1 ≡ 2
unfolding attempts classify read_all new_set clamp_expiry
two_requests = refl

-- Three calls, one slot and one place: the first runs, the second waits, the third is about to be turned away.
abbrev turns : List (ℕ × Bool)
turns = (0, false) ∷ (1, false) ∷ (2, false) ∷ (1, false) ∷ []

three_calls :
    schedule 1 1 turns empty (arrivals 3)
    ≡ (record { in_flight = 1; waiting = 1 }, running ∷ queued ∷ full ∷ [])
unfolding schedule
three_calls = refl

schedule-arrivals-IsAccounted_example :
    IsAccounted 1 1
      (schedule 1 1 turns empty (arrivals 3)).0
      (schedule 1 1 turns empty (arrivals 3)).1
schedule-arrivals-IsAccounted_example = schedule-arrivals-IsAccounted 1 1 3 turns

one_slot : 1 ≤ 1
one_slot = omega arith

schedule-ends_example :
    (more : List (ℕ × Bool)) × (length more ≤ 5 * 3)
    × All IsPrompt more
    × (let (s, ps) = schedule 1 1 (turns ++ more) empty (arrivals 3) in
        All IsOver ps × (s.in_flight ≡ 0) × (s.waiting ≡ 0))
schedule-ends_example = schedule-ends 1 1 3 turns one_slot

abbrev parse_cookie : Bytes → Option (List (Bytes × Bytes))
parse_cookie c = none

abbrev digest : Bytes → Bytes
digest s = s

abbrev meets : Meets
meets = record {
  start = 0;
  refusal = none;
  rounds = rounds;
  stored = 2000000000;
  finish = 2000000000;
}

abbrev cache : Option (Cache Authorized)
cache = some (new_cache 60000000000)

abbrev left : Option (Cache Authorized) × Option Outcome × Bool × List HttpRequest
left = call parse_cookie digest [] codec client cache req (codes "10.0.0.1") meets

abbrev alice_authorized : Authorized
alice_authorized = (codes "alice", record { patterns = [] }, 2 * hour)

cached : found left.0 (codes "s=1") 3000000000 ≡ some alice_authorized
unfolding call look key attempts classify read_all new_set clamp_expiry put sweep get
cached = refl

begun : meets.start ≤ 3000000000
begun = omega arith

stored : meets.stored ≤ 3000000000
stored = omega arith

call-found_example :
    (found cache (codes "s=1") 3000000000 ≡ some alice_authorized)
    ⊎ ((left.2 ≡ false)
        × (codes "s=1" ≡ key parse_cookie digest [] req.cookie)
        × (left.1 ≡ some (authorized alice_authorized.0 alice_authorized.1 alice_authorized.2)))
call-found_example =
    call-found parse_cookie digest [] codec client cache req (codes "10.0.0.1") meets (codes "s=1")
      alice_authorized 3000000000 begun stored cached

abbrev gate : Gate
gate = record {
  cache = cache;
  stats = record { authorized_count = 0; refused_count = 0; rejected_count = 0; failed_count = 0 };
  last_reject_log = none;
  reject_log_interval = 60000000000;
}

-- An address is its text; the private network is trusted.
abbrev parse_addr : Bytes → Option Bytes
parse_addr s = if length s == 0 then none else some s

abbrev no_port : Bytes → Option Bytes
no_port s = none

abbrev same_text : Bytes → Bytes
same_text s = s

abbrev private : List (Bytes → Bool)
private = (λ a. has_prefix a (codes "10.")) ∷ []

stopped :
    stops_at parse_addr no_port same_text same_text private (split (codes "9.9.9.9,10.0.0.2") b',')
    ≡ true
unfolding parse_hop within split has_prefix
stopped = refl

forwarded_for-left_example :
    forwarded_for parse_addr no_port same_text same_text private same_text
      (codes "10.0.0.1")
      (codes "6.6.6.6" ++ b',' ∷ codes "9.9.9.9,10.0.0.2")
    ≡ forwarded_for parse_addr no_port same_text same_text private same_text
        (codes "10.0.0.1")
        (codes "9.9.9.9,10.0.0.2")
forwarded_for-left_example =
    forwarded_for-left parse_addr no_port same_text same_text private same_text (codes "10.0.0.1")
      (codes "6.6.6.6") (codes "9.9.9.9,10.0.0.2") stopped

-- ===== src/Consumer/Examples.antt =====
-- internal/consumer: a signed disconnect on the small hub.
use sidecartunnel.Base.{ℕ, ◌≡◌, refl, ◌⊎◌, false, [], some, codes, has, include}
use sidecartunnel.Bus.Memory.{Message}
use sidecartunnel.Hub.Control.{disconnect_of}
use sidecartunnel.Hub.System.{run, new_hub}
use sidecartunnel.Hub.Examples.{both_hold}
use sidecartunnel.Consumer.Messages.{Published, Signed, Codec, Consumer, consume}
use sidecartunnel.Consumer.Accounting.{IsAuthentic, consume-IsAuthentic}

abbrev envelope : Published
envelope = record { event = codes "e"; payload = some (codes "1"); exclude = []; from = [] }

abbrev signed_disconnect : Signed
signed_disconnect = record {
  negative = false;
  ts = 1000;
  nonce = codes "n";
  body = codes "b";
  sig = codes "aa";
}

abbrev codec : Codec
codec = record {
  published_of = λ payload. some envelope;
  signed_of = λ payload. some signed_disconnect;
  control_of = λ body. some (disconnect_of [] (codes "a"));
  hex_of = λ text. some text;
  mac = λ secret text. codes "aa";
  timestamp = λ negative ts. codes "1000";
}

abbrev consumer : Consumer
consumer = record {
  world = both_hold;
  secret = codes "k";
  max_message = 0;
  dispatched = 0;
  malformed = 0;
  oversize = 0;
  applied = 0;
  unsigned_count = 0;
  stale_count = 0;
  control_malformed = 0;
  flushes = 0;
}

abbrev on_time : ℕ
on_time = 1000000000000

abbrev revocation : Message
revocation = record { channel = codes "p:_control"; payload = codes "{}" }

abbrev news : Message
news = record { channel = codes "p:x"; payload = codes "{}" }

control_named : codes "p:_control" ≡ both_hold.hub.control_key
unfolding run new_hub has include
control_named = refl

consume-IsAuthentic_example :
    ((consume codec consumer on_time revocation).world ≡ both_hold)
    ⊎ IsAuthentic codec consumer on_time
        (codes "{}")
        (consume codec consumer on_time revocation).world
consume-IsAuthentic_example = consume-IsAuthentic codec consumer on_time revocation control_named

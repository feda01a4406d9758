-- ===== src/Conn/Shut.antt =====
-- internal/conn/conn.go: what is accepted once the channel `closing` is closed, and what the client is sent in all.
use sidecartunnel.Base.{◌+◌, ◌≤◌, ◌≡◌, true, false, List, ◌++◌, length}
use sidecartunnel.Proto.{Frame}
use sidecartunnel.Conn.{Conn}
use sidecartunnel.Conn.Writer.{is_ended, is_over, Writer}
use sidecartunnel.Conn.Writing.{IsOrderly}
use sidecartunnel.Conn.Ending.{IsShut, StartsWith}

-- A step once `closing` is closed: a send that was under way may still be accepted, and no new one gets past the flag.
record IsLate (w w' : Writer) (joined : List Frame) : Type 0 where
  still : IsShut w'
  fewer : length joined + length w'.passed ≤ length w.passed

-- What a client is sent, at a moment `w` and at a later one `w'`, where `log` was accepted before the first and `tail`
-- between the two.
pub record IsDelivered (w w' : Writer) (log tail : List Frame) : Type 0 where
  pub orderly : IsOrderly w' (log ++ tail)
  pub all_sent :
      is_ended w.phase ≡ false
      → is_ended w'.phase ≡ true
      → w'.writable ≡ true
      → StartsWith w'.written log
  pub late : is_over w.stage ≡ true → length tail ≤ length w.passed

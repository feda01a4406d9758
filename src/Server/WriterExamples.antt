-- ===== src/Server/WriterExamples.antt =====
-- internal/conn/conn.go: a connection that is sent two frames and drained, while a third send is under way.
use sidecartunnel.Base.{◌≡◌, refl, true, some, List, [], ◌∷◌, codes}
use sidecartunnel.Proto.{Frame, pong, reply, close_draining}
use sidecartunnel.Conn.{Conn, disconnect_frame}
use sidecartunnel.Conn.Writer.{
  start, Event, arms, drains, checks, offers, advances, sees_closing, context_done, run,
}
use sidecartunnel.Hub.Examples.{plain_conn}

abbrev conn : Conn
conn = plain_conn (codes "a")

abbrev pong_frame : Frame
pong_frame = reply (record { id = 1; body = pong })

-- Two sends look at the flag and one offers; the writer is told to drain, and doClose runs to its end.
abbrev before : List Event
before =
    checks pong_frame
    ∷ checks pong_frame
    ∷ offers 0
    ∷ arms context_done
    ∷ advances
    ∷ advances
    ∷ advances
    ∷ []

-- The writer drains and ends; the other send offers too late, and a new one is turned away.
abbrev after : List Event
after =
    arms sees_closing
    ∷ drains true
    ∷ drains true
    ∷ drains true
    ∷ offers 0
    ∷ checks pong_frame
    ∷ offers 0
    ∷ []

both_sent :
    (run (run (start conn) before) after).written
    ≡ pong_frame ∷ disconnect_frame conn close_draining (codes "draining") ∷ []
unfolding run start
both_sent = refl

left_behind : (run (run (start conn) before) after).conn.out ≡ pong_frame ∷ []
unfolding run start
left_behind = refl

close_sent :
    (run (run (start conn) before) after).closing_frame ≡ some (close_draining, codes "draining")
unfolding run start
close_sent = refl

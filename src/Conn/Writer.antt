-- ===== src/Conn/Writer.antt =====
-- internal/conn/conn.go: the writer goroutine, write, shutdown, drain and writeClose, beside what the other
-- goroutines do to the connection. No lock is held: Send's look at the closed flag and its offer are two steps, and so
-- is every store, offer and close of doClose, and every frame of a drain. The socket is what was written to it, and
-- whether each write succeeds is an argument; a timer that is due is an event.
use sidecartunnel.Base.{
  ℕ, zero, suc, ◌%◌, ◌^◌, Bool, true, false, not, ◌&&◌, ◌||◌, Option, none, some, List, [], ◌∷◌,
  ◌++◌, ◌==◌, if◌then◌else◌, Bytes, codes, take,
}
use sidecartunnel.Proto.{
  Frame, close_draining, close_handshake_timeout, close_ping_timeout, close_expired,
}
use sidecartunnel.Conn.{Conn, offer, disconnect_frame}

abbrev pub max_close_reason : ℕ
max_close_reason = 123

-- In the loop of `write`; in `drain`; returned.
pub data Phase : Type 0 where
  looping draining ended : Phase

-- How far the one run of doClose is: it has marked the connection, with the arguments of its call; has stored the code
-- and the reason, and is to offer the notice of them; is to close the channel `closing`; has closed it.
pub data Stage : Type 0 where
  idle : Stage
  entered : ℕ → Bytes → Bool → Stage
  stored : ℕ → Bytes → Stage
  noticed over : Stage

abbrev pub is_looping : Phase → Bool
is_looping looping = true
is_looping draining = false
is_looping ended = false

abbrev pub is_ended : Phase → Bool
is_ended looping = false
is_ended draining = false
is_ended ended = true

abbrev pub is_idle : Stage → Bool
is_idle idle = true
is_idle (entered code reason notify) = false
is_idle (stored code reason) = false
is_idle noticed = false
is_idle over = false

abbrev pub is_over : Stage → Bool
is_over idle = false
is_over (entered code reason notify) = false
is_over (stored code reason) = false
is_over noticed = false
is_over over = true

-- The local state of `write`, the socket, and where the other goroutines are. `calling` tells that the writer has
-- called Close or abort, which return once doClose has run; `passed` are the frames of the sends that found the
-- connection open and have yet to offer. `expiry` and `pong` tell which timers are armed, `pong` with the number of pongs
-- at its ping; `written` and `closing_frame` are what the client was sent.
pub record Writer : Type 0 where
  pub conn : Conn
  pub phase : Phase
  pub writable : Bool
  pub calling : Bool
  pub stage : Stage
  pub passed : List Frame
  pub handshake : Bool
  pub context : Bool
  pub expiry : Bool
  pub pong : Option ℕ
  pub pongs : ℕ
  pub written : List Frame
  pub closing_frame : Option (ℕ × Bytes)
  pub socket_closed : Bool

-- `write` before its loop, for a connection that nobody has used.
unfoldable pub start : Conn → Writer
start c = record {
  conn = c;
  phase = looping;
  writable = true;
  calling = false;
  stage = idle;
  passed = [];
  handshake = true;
  context = true;
  expiry = false;
  pong = none;
  pongs = 0;
  written = [];
  closing_frame = none;
  socket_closed = false;
}

-- `doClose` as far as the closed flag: only the first call does anything.
unfoldable pub enter : Writer → ℕ → Bytes → Bool → Writer
enter w code reason notify =
    if is_idle w.stage
    then record w { conn = record w.conn { closed = true }; stage = entered code reason notify }
    else w

-- The goroutine in `doClose` goes on.
unfoldable pub advance : Writer → Stage → Writer
unfolding offer disconnect_frame
advance w idle = w
advance w (entered code reason true) = record w {
  conn = record w.conn { close_code = code; close_reason = reason };
  stage = stored code reason;
}
advance w (entered code reason false) = record w { stage = noticed }
advance w (stored code reason) = record w {
  conn = (offer w.conn (some (disconnect_frame w.conn code reason))).0;
  stage = noticed;
}
advance w noticed = record w { stage = over }
advance w over = w

-- `Send`, its look at the flag.
unfoldable pub check_open : Writer → Frame → Writer
check_open w f = if w.conn.closed then w else record w { passed = w.passed ++ f ∷ [] }

-- One of the sends under way, and the others.
unfoldable pub pick : ℕ → List Frame → Option (Frame × List Frame)
pick i [] = none
pick zero (f ∷ fs) = some (f, fs)
pick (suc i) (f ∷ fs) = elim (pick i fs) [ none ↦ none | some (g, rest) ↦ some (g, f ∷ rest) ]

-- `Send`, its offer.
unfoldable pub offer_passed : Writer → Option (Frame × List Frame) → Writer
unfolding offer
offer_passed w none = w
offer_passed w (some (f, rest)) = record w { conn = (offer w.conn (some f)).0; passed = rest }

-- The writer's own calls of Close and of abort.
unfoldable pub call_close : Writer → ℕ → Bytes → Bool → Writer
unfolding enter
call_close w code reason notify = record (enter w code reason notify) { calling = true }

-- A write that failed: `abort`, after which the loop ends.
unfoldable pub broken : Writer → Writer
unfolding call_close
broken w = call_close (record w { writable = false }) 0 [] false

-- The arm that takes a frame, and whether its write succeeds.
unfoldable pub write_frame : Bool → Writer → List Frame → Writer
unfolding broken
write_frame succeeds w [] = w
write_frame succeeds w (f ∷ out) =
    let taken = record w { conn = record w.conn { out = out } } in
    if succeeds then record taken { written = w.written ++ f ∷ [] } else broken taken

-- The arm of the pong timer: no pong has come since the ping.
unfoldable pub pong_due : Writer → Option ℕ → Writer
unfolding call_close
pong_due w none = w
pong_due w (some mark) =
    let late = record w { pong = none } in
    if w.pongs == mark then call_close late close_ping_timeout (codes "ping timeout") true else late

-- `writeClose`
unfoldable pub write_close : Writer → Writer
write_close w = if w.conn.close_code == 0 then w else record w {
  closing_frame = some (w.conn.close_code, take max_close_reason w.conn.close_reason);
}

-- The end of `shutdown`: the socket is closed.
abbrev pub finish : Writer → Writer
finish w = record w { phase = ended; socket_closed = true; expiry = false; pong = none }

-- One turn of `drain`, and the end of `shutdown` after the last: the close frame follows a queue that was written whole.
unfoldable pub drain_turn : Bool → Writer → List Frame → Writer
unfolding write_close
drain_turn succeeds w [] = finish (write_close w)
drain_turn succeeds w (f ∷ out) =
    let taken = record w { conn = record w.conn { out = out } } in
    if succeeds
    then record taken { written = w.written ++ f ∷ [] }
    else finish (record taken { writable = false })

-- The arms of the loop.
pub data Arm : Type 0 where
  sees_closing context_done : Arm
  takes_frame : Bool → Arm
  handshake_due expiry_due expires : Arm
  ping_due : Bool → Arm
  pong_timer : Arm

unfoldable pub take_arm : Writer → Arm → Writer
unfolding call_close broken write_frame pong_due
take_arm w sees_closing =
    if is_over w.stage then record w { phase = draining; expiry = false; pong = none } else w
take_arm w context_done =
    let seen = record w { context = false } in
    if w.context then call_close seen close_draining (codes "draining") true else w
take_arm w (takes_frame succeeds) = write_frame succeeds w w.conn.out
take_arm w handshake_due =
    let fired = record w { handshake = false } in
    if w.handshake
    then (if w.conn.connect_seen
        then fired
        else call_close fired close_handshake_timeout (codes "handshake timeout") true)
    else w
take_arm w expires = record w { expiry = true }
take_arm w expiry_due =
    if w.expiry
    then call_close (record w { expiry = false }) close_expired (codes "grants expired") true
    else w
take_arm w (ping_due succeeds) = if succeeds then record w { pong = some w.pongs } else broken w
take_arm w pong_timer = pong_due w w.pong

-- The writer turns to an arm, unless it is in a call that has not returned; after an abort it leaves the loop, and
-- `shutdown` closes the socket.
unfoldable pub turn_loop : Writer → Arm → Writer
unfolding take_arm
turn_loop w a =
    if is_looping w.phase && (not w.calling || is_over w.stage)
    then (if w.writable then take_arm w a else finish w)
    else w

-- What the goroutines do: the writer takes an arm, or drains; a send looks at the flag, or offers; the reader or
-- anybody else closes, or aborts; doClose goes on; a pong is read, and the connect frame recorded.
pub data Event : Type 0 where
  arms : Arm → Event
  drains : Bool → Event
  checks : Frame → Event
  offers : ℕ → Event
  closes : ℕ → Bytes → Event
  aborts advances pong_comes connect_comes : Event

unfoldable pub step : Writer → Event → Writer
unfolding turn_loop drain_turn check_open pick offer_passed enter advance
step w (arms a) = turn_loop w a
step w (drains succeeds) =
    if is_looping w.phase || is_ended w.phase then w else drain_turn succeeds w w.conn.out
step w (checks f) = check_open w f
step w (offers i) = offer_passed w (pick i w.passed)
step w (closes code reason) = enter w code reason true
step w aborts = enter w 0 [] false
step w advances = advance w w.stage
step w pong_comes = record w { pongs = suc w.pongs % 2 ^ 64 }
step w connect_comes = record w { conn = record w.conn { connect_seen = true } }

unfoldable pub run : Writer → List Event → Writer
unfolding step
run w [] = w
run w (e ∷ events) = run (step w e) events

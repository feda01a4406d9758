-- ===== src/Lib.antt =====
-- sidecartunnel is a websocket gateway. A client connects, an application's webhook answers with
-- the channels it may hold (its grants), and what the application publishes on the bus reaches
-- every subscribed connection. This library models the core of the Go code and proves it correct.
--
-- The parts and their files:
--
-- Base, Text: shared names, byte strings, Go's maps and sets, results, and what the code uses of
-- the standard package strings.
--
-- Glob: internal/glob/glob.go. `compile` is Compile, `matches` Pattern.Match, `new_set` NewSet and
-- `set_matches` Set.Match. Glob/Spec.antt says by an inductive definition what a grant covers.
--
-- Proto: internal/proto/frames.go and internal/proto/codes.go. A frame is its value.
-- Proto/Codec.antt is Decode of internal/proto/codec.go over the values that encoding/json makes of
-- a text, and Proto/CodecSpec.antt says which objects are commands.
--
-- Conn: internal/conn/conn.go, one connection as a record: `send` is Send, `do_close` doClose up to
-- its call of the registry. Conn/Registry.antt is the Registry interface of
-- internal/conn/registry.go, and Conn/Command.antt is internal/conn/command.go over it: `handle`
-- takes what proto.Decode made of a frame, and the Authorizer is a function from the requested
-- channels to its answer. Conn/Writer.antt is the writer goroutine, with the steps of Send, Close
-- and abort beside it, which hold no lock; Conn/Writing.antt says what each event puts into the
-- queue, Conn/Turning.antt and Conn/Delivered.antt that it is written in order, and
-- Conn/Ending.antt and Conn/Shut.antt what a close leaves behind.
--
-- Hub: internal/hub. Hub/State.antt and Hub/Registry.antt are the state of hub.go and the bodies
-- that run under its lock; Hub/World.antt the exported methods, each one critical section with what
-- follows it; Hub/Control.antt control.go; Hub/System.antt New, Close, the closer goroutines and
-- `step`, which runs any call. Hub/Kept.antt says what it takes for a property to survive every
-- call, those that give a channel apart from the others; Hub/Invariant.antt and Hub/Gone.antt are
-- two such properties, and Hub/Shrinks.antt says of the bodies under the lock which of them give a
-- connection a channel. Hub/Told.antt, Hub/Marked.antt and Hub/MarkedRun.antt follow the change of
-- the desired set from the bodies under the lock to the mark that wakes the reconciler.
-- Hub/Bystanders.antt and Hub/Evicted.antt say what the end of a connection leaves of the others.
-- Hub/Delivery.antt, Hub/Revocation.antt, Hub/Revoked.antt and Hub/RoundTrip.antt say what deliver,
-- the control actions and the subscription calls do to every connection. Hub/Reconcile.antt is
-- reconcile.go as a step relation: the turns of the goroutine, its failures, and the calls that
-- change the desired set in three steps each.
--
-- Server: internal/server. Server/Rates.antt and Server/Limiter.antt are ratelimit.go;
-- Server/Gateway.antt is registry.go, an instance of the Registry interface by the hub;
-- Server/Admission.antt is track, untrack and admitUser of handler.go and the critical section of
-- Drain in server.go. Server/Front.antt is ServeHTTP up to the upgrade, the slots that reserve and
-- release count, the wait of a drain, authorize and its connectAuthorizer, and the status of /ready
-- in probes.go; Server/Login.antt puts authorize behind the webhook's classify.
-- Server/Permitted.antt and Server/PermittedActs.antt say what a connection comes to hold;
-- Conn/Command/Kept.antt says what a Registry must keep for every frame to keep it, and
-- Server/PermittedRun.antt that the hub keeps it.
--
-- Consumer: internal/consumer, with Dispatch and ParseEnvelope of internal/hub/fanout.go. `verify`
-- is Verify, `apply` apply, `deliver_message` deliver, `consume` one message of dispatch; the
-- decoders, the HMAC and the text of a timestamp are a record of functions.
--
-- Bus: internal/bus. Bus/Memory.antt and what follows from it are memory.go, with the messages in
-- its channel as a list. Bus/Redis.antt is Sync of redis.go with its diff, chunks and commands, and
-- what Redis holds for the connection; Bus/RedisLink.antt the connections that supervise makes and
-- loses, the reader, and Close.
--
-- Webhook: internal/webhook. Webhook/Answer.antt is classify and parse, Webhook/Attempts.antt the
-- signed request of an attempt and the retries, Webhook/Slots.antt acquire and the return of the
-- slot as interleaved steps, Webhook/Cache.antt cache.go, Webhook/Calls.antt Call over all of
-- these, Webhook/Build.antt New, Webhook/Forwarded.antt forwarded.go, and Webhook/Expiry.antt
-- clampExpiry of webhook.go, with the 64 bits of its product.
--
-- Config: internal/config. Config.antt is the configuration of config.go, Config/Checks.antt,
-- Config/Tables.antt and Config/Validate.antt are validate.go. Config/Namespaces.antt,
-- Config/Reach.antt and Config/Connect.antt put a configuration that validates in front of the
-- server's rates, the hub's namespaces and the webhook's client.
--
-- How the state corresponds: a connection is named by a number, its address. A Go map is a function
-- from its keys to an option, a Go set the list of its members; the order of a list stands for one
-- order in which Go may range over the set, and the theorems hold of any list. Each critical
-- section is one step, so an interleaving of goroutines is a sequence of steps; an exported
-- method's work after its lock (markDirty, closing a slow connection) is done in the same step, and
-- the reconciler's relation takes markDirty apart again, as that of the writer does Send and Close.
-- A channel of capacity one is a Boolean, a queue a list with its depth.
--
-- Numbers: the natural numbers of the machine, with the 64-bit wrap written out where the code can
-- reach it (the FNV hash, the backoff, strconv.Atoi, the counters, the product of clampExpiry). An
-- int or a Duration of the configuration has a sign. Every loop is structural but one: chunk_loop
-- of Bus/Redis.antt takes as fuel the number of the channels, and its chunks together are all of
-- these. The attempts of a call are structural in the retries that are left; an interleaving of
-- calls is a list of turns.
--
-- Not modelled: sockets, HTTP, JSON, logging and go-redis, which are I/O or other packages and,
-- where the code relies on what they give, parameters; the loading of YAML and the environment; New
-- of a connection and of the server, which fill in defaults; cmd/sidecartunnel, which wires the
-- parts.
pub mod Base
pub mod Text
pub mod Glob
pub mod Proto
pub mod Conn
pub mod Bus
pub mod Hub
pub mod Server
pub mod Webhook
pub mod Config
pub mod Consumer

-- ===== src/Lib.antt =====
-- golangMQ: a message broker in the style of AMQP. Clients connect over TCP and send envelopes of
-- JSON; the broker has exchanges, which route by an exact key, queues, which keep messages in
-- order and hand them to consumers, and channels, which belong to a connection and own consumers.
-- A queue answers for a message from its publication until an ack, or a nack that drops or dead-
-- letters it.
--
-- Base: the shared helpers. Base/Tests has the Boolean tests, Base/Map a Go map as a list of
-- entries, Base/Int the signed numbers, Base/Search the search of a loop that stops. Json: JSON
-- values as encoding/json reads them into fields. Protocol: protocol/events.go and the constants
-- of protocol/headers.go; Protocol/Unmarshal is json.Unmarshal into the payload structs.
--
-- Broker: the directory broker/. Broker/State has the objects (Queue, Consumer, Exchange,
-- Channel, Connection, Server) on a heap: a pointer is a number, an operation takes a server and
-- returns one. Broker/Queues is queue.go (take and finish are dispatchLoop before and after its
-- write, on the goroutine of one queue), Broker/Consumers consumer.go and the books that the
-- other files keep on a consumer, Broker/Exchanges exchange.go, Broker/Core broker.go (Publish,
-- RegisterConsumer, Ack, the declarations), Broker/Channels channel.go (the handlers),
-- Broker/Connections connection.go and the deferred function of HandleConnection in server.go.
-- Broker/Runs puts the steps together: a step of a run is one envelope of a connection, the
-- beginning or end of a connection, or a half turn of a dispatchLoop. Broker/Writes is send,
-- writePump and shutdown, as the steps of the goroutines that share writeCh. Broker/Handshake is
-- RunHandshake, on the bytes that the client sends. Broker/Collector is the state collector of
-- metrics.go. Broker/Invariant says what holds between two steps. Broker/Tests runs the server on
-- a few envelopes.
--
-- Bench: internal/bench, which drives load through the SDK and measures it. Bench/Config is
-- config.go, Bench/Config/Flags the order-sensitive flags, Bench/Placement and Bench/Topology are
-- topology.go, Bench/Validation is Validate, Warnings and Build, and Bench/Header the message
-- header of worker.go. A pointer to a slot is its global index. Bench/Float is what the code does
-- with a float64, as an interface with laws that Bench/Float/Hundredths shows can be met.
-- Bench/Latency is latencySet and percentile, Bench/Counters the state of the statistics and
-- Bench/Stats the other functions of metrics.go; Bench/Stats/Ledger specifies it by a log of what
-- was recorded, Bench/Stats/Refines relates each call to the log and Bench/Stats/Runs their
-- sequences. Bench/Topology/Slots and Bench/Topology/Seating relate the numbers in a topology to
-- its lists, which Bench/Engine/Planned needs for the runs on it. Bench/Worker is worker.go: the
-- state that the workers share, and an iteration of a publisher (mint, finish_publish) and of a
-- consumer (receive, acknowledge) in the parts that other workers can come between;
-- Bench/Worker/Runs puts the parts together to runs. Bench/Csv is csv.go. Bench/Engine is
-- engine.go: Bench/Engine/Summary is buildSummary, Bench/Engine/Clients is Run as what it opens,
-- closes and returns, Bench/Engine/Drain its drain loop, and Bench/Engine/Sampler the goroutine
-- that writes a row for each window.
--
-- The order in which a range loop visits a map is a parameter (Broker/Range), any permutation of
-- the entries; what is proved holds for all of them. A delivery tag is a number modulo 65536, as
-- uint16. What runs under a mutex, or in one handler, is one step; the two locked parts of
-- Publish are one step too. The write of an envelope is recorded, and whether it succeeds is an
-- argument of finish. Errors are constructors, one for each text that the code formats. Where a
-- step has a side condition, that the tag of a delivery is not pending at the consumer, the
-- comment at the step says so: tags wrap around after 65536 messages.
--
-- How a line of text is read as a JSON value is a parameter of the handshake and of
-- Protocol/Lines; the values themselves are decoded as encoding/json does. The numbers of the
-- benchmark's settings are exact: a product of two of them does not wrap around, as it does not
-- where both are below 2^31. What the SDK, the file system and the clock answer is an input of
-- the step that asks. All loops are structural but two: decimal has fuel above the number that it
-- prints, and the drain loop has fuel for its polls, which is enough once the deadline has passed
-- at one of them. Counters of the benchmark are numbers modulo 2^64. A sample of the window is
-- one step, as each record call is: the program may sample between the updates of a record call,
-- so that the counters of one row need not agree with each other, and nothing here says that they
-- do. What a bufio.Writer has passed to its destination, and what it still holds, are apart; the
-- errors of the destination may come at any call, also at one that would not have to reach it.
--
-- Not modelled: sockets, logging, the Prometheus registry, the SDK of the clients and the
-- programs that only parse flags or call it, which are I/O or code of others; the texts of
-- errors; IEEE 754 and the printing of its numbers; the goroutines of Run as such, whose calls
-- are steps of the runs.
pub mod Base
pub mod Json
pub mod Protocol
pub mod Broker
pub mod Bench

-- ===== src/Lib.antt =====
-- Verification library of kupool, a server that hands mining jobs to clients over framed TCP and
-- counts the submissions that it accepts.
--
-- Parts and files. Bytes are numbers below 256, a text is the list of its bytes, a Go map is an
-- association list whose order stands for the order of iteration, an int is its 64-bit pattern,
-- an instant is the number of nanoseconds since Go's zero time, and a duration is a signed number.
-- Where the program compares times by ==, as the keys of the map of the statistics, a time is an
-- instant with its location, by a number that stands for the pointer; 0 is Local.
--
-- - Common: numbers, lists, keys, maps, hexadecimal digits, little-endian words, time.
-- - Io, Wire: wire/endian/helper.go over a reader that ends in a fault, and any writer.
-- - Frame: tcp/connection.go (ReadFrame, WriteFrame) and the operation codes of server.go.
-- - Waits: the default waits of server.go.
-- - Event, Channel: event.go and channel.go (Push, Close, writeloop, Readloop); Channel/Stream has
--   Readloop on a stream of bytes, Channel/Writer the writeloop on writes that fail, Channel/Closing
--   the two steps of Close.
-- - TcpServer: channels.go and tcp/server.go (the guards of Start, a connection that enters and
--   leaves, Push, Shutdown, the setters); TcpServer/Loop is the loop of Start over the results of
--   the listener's Accept, TcpServer/Goroutines the goroutines of its connections, interleaved.
-- - TcpClient: tcp/client.go (Connect, Send, Close, Read, the heartbeat).
-- - Websocket, WsServer, WsClient: websocket/connection.go, websocket/server.go and
--   websocket/client.go over gobwas/ws, which is a parameter.
-- - Transport: the interfaces of server.go as records, filled by both transports.
-- - Protocol: protocol/message.go. The JSON encoding is the interface Codec; Protocol/Laws has what
--   the program relies on it for.
-- - State: app/server/types.go and events/events.go. World is the coordinator with the state of
--   its store and the calls that it made of the pusher and of the queue, the newest first.
-- - Coordinator: app/server/coordinator.go (RegisterSession, UnregisterSession, rotateJob,
--   broadcastJob, run, loop, restore); Coordinator/Phases has broadcastJob in its two phases.
-- - Acceptor: app/server/acceptor.go (Accept).
-- - Submit, Listener: app/server/listener.go. Submit is what handleSubmit does to the session;
--   Submit/Goroutines the submissions of a session interleaved; Listener has handleSubmit as a whole,
--   Receive, respondError and Disconnect.
-- - Memory: stats/memory.go, an instance of StateStore and StatsStore.
-- - Postgres: stats/pg.go over the calls of gorm, an instance of the same two interfaces.
-- - MemoryQueue: mq/memory.go. RabbitQueue: mq/rabbitmq.go over the calls of amqp091-go.
-- - AppServer: app/server/server.go (the consumer of Start, Shutdown, retry).
-- - System: the wiring of NewAppServer as a run of inputs, and the parts together:
--   System/Invariant and System/Live over all runs, System/Order and System/View for the order of
--   the maps (a quotient forgets it), System/Connection for the life of a connection on its bytes,
--   System/Broadcast and System/Delivery from a round of the loop to the channels, System/Between
--   for what runs inside a broadcast, System/Pipeline and System/Durable from submissions and
--   deliveries to counts, System/Reconnect for a user who connects again, System/Missed for a round
--   inside an admission, System/Lock and System/Deadlock for the coordinator's lock while a
--   broadcast is in a Push, and System/Play, System/Debut, System/Hasty, System/Mining and
--   System/Rounds for a client and the server over the encoded messages.
-- - Program, Logging: cmd/kupool-server/main.go (settings and HTTP handlers), logger/setting.go
--   and logger/logger.go (Logging/Calls the functions that hand on to logrus, Logging/Hooks what
--   logrus documents, Logging/Files which messages reach the log file).
-- - Client: app/client/client.go (Run by the cases of its select, the handshake's frame);
--   Client/Run has what an input sends, Client/Program is cmd/kupool-client/main.go over the client
--   of the transport, and Client/Traffic has the frames on its connection.
-- - Mock: examples/mock, the demonstration server and client.
-- - Examples: tests, and the theorems at concrete inputs.
--
-- How they interact. A channel reads frames and hands their payloads to the listener; the acceptor
-- and the listener work on the sessions of the coordinator; accepted submissions are published,
-- and the consumer stores them in the statistics. Each handler is one step of the model, but for
-- Submit/Race and Submit/Goroutines, which part the checks of a submission from its recording,
-- Coordinator/Phases, System/Lock and TcpServer/Goroutines. In Coordinator/Phases a name stands for
-- its session, where the program keeps a pointer: names are not drawn twice. In Submit/Goroutines
-- the checks of a submission run in one piece, as do the two lines that record it, which the
-- program does not make sure of: it has some of the program's schedules. A round of the loop is one
-- that ends, each Push in it having returned, but in System/Deadlock. Start begins the loop in a
-- goroutine and listens; System/Invariant lets connections come before the first round.
--
-- Parameters. SHA-256 is a function of the bytes, of which only the modules for a client and the
-- server assume anything: that a digest consists of bytes. Random bytes, the
-- readings of the clock and the answers of the network are arguments. The calls of gorm,
-- amqp091-go, gobwas/ws and logrus are fields of records; what PostgreSQL documents of INSERT …
-- ON CONFLICT and of the times that it keeps, what logrus documents of its hooks, and that a cipher
-- of WebSocket frames undoes itself, are named hypotheses.
--
-- Fuel. Loops are recursions on lists (frames, signals, deliveries, wake-ups of a timer) or on the
-- number of attempts. Only Channel/Stream and what is built on it have fuel, since Readloop reads
-- until the connection fails: a frame takes five bytes or more, so that more fuel than there are
-- bytes is enough.
--
-- Not modelled: what main of the server does behind a signal, accepting sockets and the HTTP
-- servers, the start of goroutines, the commands of examples/main.go. encoding/json is a
-- parameter: its grammar is not in the repository. The loads of stats/pg.go drop the database that
-- AutoMigrate leaves, since every method on those tables migrates again.
pub mod Common
pub mod Io
pub mod Waits
pub mod Websocket
pub mod Wire
pub mod WsClient
pub mod WsServer
pub mod Frame
pub mod Postgres
pub mod Program
pub mod Protocol
pub mod RabbitQueue
pub mod State
pub mod System
pub mod Submit
pub mod Coordinator
pub mod Listener
pub mod Acceptor
pub mod Logging
pub mod Memory
pub mod Client
pub mod Event
pub mod Channel
pub mod TcpClient
pub mod MemoryQueue
pub mod AppServer
pub mod TcpServer
pub mod Transport
pub mod Mock
pub mod Examples

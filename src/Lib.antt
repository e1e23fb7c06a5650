-- ===== src/Lib.antt =====
-- A model of the STOMP client and server, and of the frame library that they share.
--
-- The program's parts. A connection of the server (server/client/conn.go) reads frames with the
-- reader of the frame package and answers with its writer. Its handlers turn a client's frames into
-- requests, which one processor (server/processor.go) takes one at a time from a channel and carries
-- out on queues (server/queue) and topics (server/topic). A queue hands a frame to a subscription,
-- which carries it to its connection; what is not acknowledged goes back to the queue as a request.
-- A client (the package at the root) makes a connection with the handshake of Connect. Its calls put
-- requests on a write channel, from which one loop takes them to the network; the loop hands what it
-- reads to the channels of the requests, where calls wait and where each subscription has a loop of
-- its own.
--
-- Prelude holds the library names that the modules share, Boolean tests, lists and byte strings. Go
-- holds what the code uses of Go's language and standard library: results with an error
-- (Go/Result), strconv (Go/Number), strings.Replacer (Go/Replacer), strings.Split and
-- bytes.IndexByte, strings.Join (Go/Split), maps as association lists (Go/Map), and int64 as a number
-- below 2 ^ 64 in two's complement (Go/Int64).
--
-- Frame: the frame package.
--   Frame/Command, Frame/Key     frame/command.go, frame/ack.go and the constants of frame/header.go
--   Frame/Header                 Header of frame/header.go as a list of entries; Header/Slice has
--                                the flat slice with the index arithmetic of the methods
--   Frame/Base                   Frame and New of frame/frame.go
--   Frame/Encode                 the two replacers of frame/encode.go
--   Frame/Writer, Frame/Reader   Write of frame/writer.go, Read and readLine of frame/reader.go
--   Frame/HeartBeat              ParseHeartBeat of frame/heartbeat.go
-- Frame/HeaderLines, Frame/RoundTrip and Frame/Stream join reader and writer.
--
-- Server: the server package.
--   Server/Panic                 the panics of the server, as values
--   Server/Subscription          server/client/subscription.go, on a heap of subscriptions
--   Server/SubscriptionList      server/client/subscription_list.go
--   Server/Storage               the interface of server/queue/storage.go, as a record of operations
--                                with a record of laws
--   Server/MemoryQueue           server/queue/memory_queue.go, which keeps those laws
--   Server/Queue                 server/queue/queue.go and the manager beside it, over any storage
--   Server/Topic                 server/topic/topic.go and its manager, with Clone of frame/frame.go
--   Server/TxStore               server/client/tx_store.go
--   Server/ClientError           server/client/errors.go
--   Server/Version               version.go and determineVersion of server/client/frame.go
--   Server/HeartBeat             getHeartBeat of server/client/frame.go and server/client/util.go
--   Server/Conn                  server/client/conn.go, request.go and config.go: Conn/State has the
--                                state and the form of a handler; Conn/Send, Connect, Transact,
--                                Subscribe and Ack have the handlers; Conn/Dispatch the state
--                                functions; Conn/ReadLoop has readLoop; Conn/Loop the events of
--                                processLoop and cleanupConn; Conn/Whole NewConn, SendError and the
--                                runs of a connection
--   Server/Processor             Serve and the pause of Listen, of server/processor.go
--   Server/Setup                 the parameters of server/server.go, and the configuration and Listen of
--                                server/processor.go
--
-- Client: the package at the root of the repository.
--   Client/Error                 errors.go, and frame/errors.go
--   Client/AckMode, Client/Id    ack.go and id.go
--   Client/Message               message.go, with what a message holds of its subscription
--   Client/Frames                createSendFrame and createAckNackFrame of conn.go, and the options of
--                                send_options.go and subscribe_options.go
--   Client/Options               conn_options.go
--   Client/Connect               Connect of conn.go
--   Client/ReadLoop              readLoop of conn.go
--   Client/Calls                 Send, sendFrame, Subscribe, Ack, Nack, Begin, Disconnect and
--                                MustDisconnect of conn.go
--   Client/Loop                  processLoop and sendError of conn.go, by events
--   Client/Subscription          subscription.go, as the steps of its two threads
--   Client/Transaction           transaction.go
--   Client/Whole                 the calls of a connection together with its loop
-- Exchange joins the two ends: the handshake and the acknowledgements.
--
-- A component's theorems stand in its module Laws, or in modules named for what they show. Tests has
-- an instance of each of them.
--
-- Bounds and fuel. Bytes and other numbers are natural numbers; where the code's width shows, it is
-- written out (parse_uint, parse_int, allocate_message_id). Five loops take fuel: the header loop of
-- Read has one more round than there are bytes left, and each round takes a byte at least; the loop
-- that fills the body has one more round than bytes are missing; Del on the flat slice has one
-- round more than the slice has entries; the read loops of the two ends have one more round than there are
-- bytes left, since a read that succeeds takes one at least. Running out of it is an outcome of its
-- own. A read of the network gives as many bytes as a function of the caller's choice says, at least
-- one.
--
-- The durations of the client are 64-bit words with the overflow of their sums written out; the factor
-- of its read timer, a float64, is kept as its bits and not calculated with.
--
-- Concurrency. The server's goroutines share nothing but channels and subscriptions, and each of them
-- handles one event at a time. The model has one function for an event: it takes the state with what
-- was sent on the channels so far, and adds to it. The server's channels hold a bounded number of
-- requests, frames or subscriptions, and a send on a full one waits; here a send never waits, so what
-- depends on a full channel (a client that does not read, or two goroutines that wait for each other)
-- is not looked at.
--
-- The client's channels are numbers in the order in which they are made. They have no buffer: a send on
-- one is taken by whoever reads there, and waits for ever if the reader has gone, which is an event of
-- its own; a send on a nil channel waits for ever too; a send on a closed channel and a second close are
-- outcomes of their own. What a call meets, whether the write channel takes its request, what comes on
-- its channel and what closing the network returns, is an argument of the call. The calls that hold the
-- connection's mutex follow one another. The two threads of a subscription, its read loop and
-- Unsubscribe, interleave statement by statement.
--
-- Whether a read of the server's connection meets its deadline is a function of the caller's choice.
--
-- Not modelled: Dial, listening sockets, the choice of a queue storage, logging, the stompd command
-- and the test support. A map that the code ranges over (the subscriptions in cleanupConn) is gone
-- through in the order of the association list, where Go may take any order. A value that one
-- goroutine reads while another one changes it is not looked at.
pub mod Prelude
pub mod Go
pub mod Frame
pub mod Server
pub mod Client
pub mod Exchange
pub mod Tests

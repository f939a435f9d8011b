-- ===== src/Lib.antt =====
-- The Neo4j driver for Go: what the core of the driver promises, and that its code keeps it. The
-- modelled parts are the ones that every request passes through: the binary format of messages, the
-- values that messages carry, the framing of messages on a connection, the calls of a connection with
-- its queue of messages and its result streams, the pool of connections, the cache of home databases,
-- and the bookmarks of sessions.
--
-- Files and code. A name in snake_case is the function of the same name in Go.
--   Packstream    neo4j/internal/packstream. Packer and Vectors are packer.go, Unpacker is
--                 unpacker.go; Bytes is encoding/binary. A buffer is a list of bytes, a float its
--                 IEEE bits, a string its UTF-8 bytes; words wrap around as in Go, and `none` is a
--                 Go panic. Encoding says what each method appends; Position, Ints and Lengths how
--                 it is read back; Safety and Calls are about arbitrary input.
--   Bolt/Framing  neo4j/internal/bolt/chunker.go and dechunker.go, with begin and end of
--                 outgoing.go. The writer is a function from the number of the write to a fault, the
--                 reader the bytes that are still to come and the fault behind them. Wire is the
--                 format by itself, Send, Delivery and Receive are the steps from one to the other.
--   Bolt/Streams  neo4j/internal/bolt/stream.go. A pointer to a stream is a number; the set of open
--                 streams has a store that says what it points to, so that a change through one
--                 pointer is seen through the other.
--   Bolt/Connection
--                 neo4j/internal/bolt/bolt5.go and message_queue.go, with reauth.go, notifications.go,
--                 handleTerminatedContextError of connections.go, isFatalError of bolt4.go and
--                 neo4j/internal/db/connection.go. Handler has a constructor for each function that
--                 makes a response handler; the reader is the list of the messages that are still to
--                 come and the error behind them. Run is an action on the connection, which ends
--                 with a result, an error or out of fuel. Errors to Auth are the code. Committed,
--                 Rejecting, Resetting, Delivering and Performing say what its calls promise, the
--                 other files what they rest on.
--   Bolt/Values   neo4j/internal/bolt/hydrator.go, outgoing.go and path.go, with the time zones of
--                 neo4j/internal/timezone and PolyfillGqlError of neo4j/internal/errorutil. Value is
--                 what the hydrator makes, Any what the cases of packX tell apart. Run is an action
--                 on the hydrator's state, the unpacker and the first error; it ends with a value,
--                 a panic or out of fuel. Hydrate, Struct, Temporal, Vector, Failure, Summary,
--                 Success and Message are the hydrator, Pack, Times and Requests the senders.
--                 Format is the format of values by itself, without vectors, and Meaning what a
--                 value stands for.
--                 Steady to Hydrates are about arbitrary bytes, Parses to Delivery about bytes of
--                 the format, Plain to RoundTrip about what was packed.
--   Pool          neo4j/internal/pool. Server is server.go, State pool.go and ssr_tracker.go, one
--                 function per locked section. System has the states of all threads together and a
--                 step for each section; Sections, Threads and Reach show what every reachable state
--                 has. Borrow is tryBorrow and one pass of Borrow for a single thread. A server
--                 calls the pool back to close connections: here it returns them, in order.
--   Homedb        neo4j/internal/homedb/cache.go. The pool switches it on and off (State).
--   Bookmarks     neo4j/bookmarks.go and neo4j/session_bookmarks.go over
--                 neo4j/internal/collections/set.go.
--   Base          helpers: tests, lists, integers, maps, words whose fields do not overlap.
--
-- Fuel. The rounds of dechunkMessage have one more than the bytes of the connection, of which a round
-- takes two at least; the loop of chunker.send has the size of the message; tryBorrow has one more
-- than the server's idle connections, of which a round takes one; the loop of Close has one more than
-- the waiters of the queue, of which a round takes one; value and structure of the hydrator have two
-- more than the bytes of the message, of which each level of nesting takes one, and the causes of a
-- failure likewise. receiveAll of a connection has one more than the messages to come, of which a
-- round takes one, the loops of bufferStream and discardStream two more, run and Next one more. Each
-- is shown to be enough, but for the loop of bufferStream: in Go it does not end for a stream that
-- waits for no answer, and what is shown of it supposes that the answers are there.
--
-- Assumptions. A writer that takes every write, the JSON of a token, the rounding of the cache's
-- prune factor, the answers of connections and of connects, the sort of a pass of Borrow, the rules
-- of time zones, what reflection finds in a Go value, Go's conversion of a float32, the token
-- manager, the listener and the clock of a connection and the equality of its tokens are arguments.
-- An instant counts its seconds in 64 bits. A message is shorter than four gigabytes less eight
-- bytes, the limit of the unpacker's uint32 offsets. The pool's size is at least one per server, as
-- the configuration requires, a connect answers with a connection of the server that was asked for,
-- and a borrower returns a connection that it has.
--
-- Not modelled: the handshake and the protocol's versions 3, 4 and 6, the summary at the end of a
-- stream, the router, transactions, sessions and results, errors and retries, property encryption, and
-- input and output, timers and logging throughout.
pub mod Base
pub mod Bolt
pub mod Bookmarks
pub mod Homedb
pub mod Packstream
pub mod Pool

-- ===== src/Bolt/Connection.antt =====
-- neo4j/internal/bolt/bolt5.go and message_queue.go: a connection of the protocol's versions 5.0 and
-- later. A response handler is a data type with a constructor for each function that makes one.
pub mod Errors
pub mod Meta
pub mod State
pub mod Responses
pub mod Queue
pub mod Streaming
pub mod Setup
pub mod Results
pub mod Calls
pub mod Auth
pub mod Committed
pub mod Arrivals
pub mod Terminates
pub mod Ending
pub mod Calling
pub mod Performing
pub mod Rejecting
pub mod Sending
pub mod Steps
pub mod Recovery
pub mod Resetting
pub mod Pulling
pub mod Delivering
mod Tests

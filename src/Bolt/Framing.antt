-- ===== src/Bolt/Framing.antt =====
-- neo4j/internal/bolt/chunker.go and dechunker.go: a message travels as chunks of at most 65,535
-- bytes behind their lengths, and ends with a chunk of length zero.
pub mod Chunker
pub mod Dechunker
pub mod Wire
pub mod Send
pub mod Delivery
pub mod Receive
pub mod RoundTrip
pub mod EndToEnd
mod Tests

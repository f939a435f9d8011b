-- ===== src/Bolt/Streams.antt =====
-- neo4j/internal/bolt/stream.go: result streams and the ones that a connection has open.
pub mod Stream
pub mod Buffer
pub mod Tracking
mod Tests

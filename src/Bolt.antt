-- ===== src/Bolt.antt =====
-- neo4j/internal/bolt: the Bolt protocol's connections: how messages are framed, the values they
-- carry, the result streams that a connection has open, and what a connection does on a call.
pub mod Framing
pub mod Streams
pub mod Values
pub mod Connection

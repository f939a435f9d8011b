-- ===== src/Packstream.antt =====
-- neo4j/internal/packstream: the binary format of Bolt messages. `Packer` and `Unpacker` are the
-- two state machines of the package; the other modules prove what they do together.
pub mod Bytes
pub mod Packer
pub mod Vectors
pub mod Unpacker
pub mod Encoding
pub mod Position
pub mod Ints
pub mod Lengths
pub mod Safety
pub mod Forward
pub mod Calls
pub mod RoundTrip
mod Tests

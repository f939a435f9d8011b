-- ===== src/Bolt/Values.antt =====
-- neo4j/internal/bolt/hydrator.go, outgoing.go and path.go: the values of messages. `Value` is what
-- the hydrator makes, `Any` what the driver is given to send.
pub mod Value
pub mod Times
pub mod Path
pub mod Run
pub mod Struct
pub mod Temporal
pub mod Vector
pub mod Hydrate
pub mod Steady
pub mod Terminates
pub mod Levels
pub mod Enough
pub mod Failure
pub mod Summary
pub mod Success
pub mod Message
pub mod Answers
pub mod Hydrates
pub mod Records
pub mod Requests
pub mod Sent
pub mod Stale
mod Tests
pub mod Any
pub mod Pack
pub mod Parses
pub mod Format
pub mod Meaning
pub mod Detect
pub mod Dicts
pub mod Reading
pub mod Zoned
pub mod Leaves
pub mod Delivery
pub mod Plain
pub mod Packed
pub mod RoundTrip

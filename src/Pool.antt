-- ===== src/Pool.antt =====
-- neo4j/internal/pool: the connections to the servers of a cluster. `Server` is one server's lists,
-- `State` the pool's map of servers with its locked sections, `System` the threads that use it.
pub mod Server
pub mod Penalty
pub mod State
pub mod Counting
pub mod System
pub mod Ownership
pub mod Sections
pub mod Threads
pub mod Acquiring
pub mod Reach
pub mod Lifetimes
pub mod Borrow
pub mod BorrowEnds
pub mod BorrowOrder
pub mod Sorting
mod Tests

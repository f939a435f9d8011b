-- ===== src/Homedb.antt =====
-- neo4j/internal/homedb: the cache of users' home databases.
pub mod Cache
pub mod Size
mod Tests

-- ===== src/Bookmarks.antt =====
-- neo4j/bookmarks.go and neo4j/session_bookmarks.go over neo4j/internal/collections/set.go.
pub mod Set
pub mod Manager
pub mod Updates
mod Tests

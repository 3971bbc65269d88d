-- ===== src/Store/Queries.antt =====
-- The SQL statements of queries/*.sql, as sqlc embeds them in sqlc/*.sql.go, on the tables.
pub mod Entries
pub mod Extraction
pub mod Feeds
pub mod Categories

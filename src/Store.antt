-- ===== src/Store.antt =====
-- internal/store/sqlite: the tables, the SQL statements on them, and the operations of `Store`.
pub mod Table
pub mod Rows
pub mod Sql
pub mod Queries
pub mod Feeds
pub mod Categories
pub mod Upsert
pub mod Entries
pub mod Sound
pub mod Dedup
pub mod Listing
pub mod Service
pub mod Writes
pub mod Memory

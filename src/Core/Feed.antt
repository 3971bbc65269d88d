-- ===== src/Core/Feed.antt =====
-- internal/core/feed.go: the feed service, its operations and what they guarantee.
pub mod World
pub mod Config
pub mod Record
pub mod Poll
pub mod Subscribe
pub mod Edit
pub mod Ingest
pub mod Pairing
pub mod Scheduling
pub mod Invariance

-- ===== src/Core.antt =====
-- internal/core.
pub mod Types
pub mod Text
pub mod Cursor
pub mod Metrics
pub mod Ports
pub mod Urls
pub mod Schedule
pub mod Feed
pub mod Scrape
pub mod Category
pub mod Opml
pub mod Poller
pub mod Reschedule

-- ===== src/Core/Scrape.antt =====
-- internal/core/scrape.go: the full-content extraction of one entry.
pub mod Backoff
pub mod Service
pub mod Pairing

-- ===== src/Fetch.antt =====
-- internal/fetch/fetch.go: what the client makes of a Retry-After, of redirects and of addresses.
pub mod RetryAfter
pub mod Redirect
pub mod Host
pub mod Guard
pub mod Sems
pub mod Request

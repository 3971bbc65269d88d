-- ===== src/Core/Feed/Scheduling.antt =====
-- When a feed is checked next.
pub mod Record
pub mod Poll

-- ===== src/Core/Feed/Pairing.antt =====
-- How often a poll attempt reports a result, and how often it times itself.
pub mod Record
pub mod Poll
pub mod Attempt

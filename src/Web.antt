-- ===== src/Web.antt =====
-- internal/web: the background work on feeds.
pub mod Background

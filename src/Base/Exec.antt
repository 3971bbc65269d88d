-- ===== src/Base/Exec.antt =====
-- Actions on a state that may panic, and the calculus of what they count.
mod Defs
pub mod Tally
pub mod Ensures
unfoldable pub use Defs.*

-- ===== src/Projections.antt =====
-- apps/api/src/projections: what the timeline, the history and the search show of items and shares.
mod Service
pub mod Rows
pub mod Consistency
unfoldable pub use Service.*

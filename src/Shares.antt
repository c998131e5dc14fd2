-- ===== src/Shares.antt =====
-- apps/api/src/shares/shares.service.ts: items that are shared with one other user.
mod Creation
mod Retrieval
pub mod Consumption
unfoldable pub use Creation.*
unfoldable pub use Retrieval.*

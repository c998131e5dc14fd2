-- ===== src/SourceItems.antt =====
-- apps/api/src/source-items/source-items.service.ts: the life of an item after its creation, and the
-- end of every access to it. The stored size of the answers is left out.
mod Service
pub mod Invalidation
unfoldable pub use Service.*

-- ===== src/Retrieval.antt =====
-- apps/api/src/retrieval/retrieval.service.ts, with the writing of attempts and package references
-- that the shares and the extraction service have in common with it.
pub mod Attempts
pub mod Families
mod Service
mod Download
unfoldable pub use Service.*
unfoldable pub use Download.*
pub mod New
pub mod Stable
pub mod Served

-- ===== src/Live.antt =====
-- apps/api/src/live-transfer/live-transfer.service.ts: sessions in which two devices exchange files
-- live, from creation to completion, failure or stored fallback.
mod Checks
mod Records
mod Lifecycle
mod Creation
mod Fallback
mod Signals
mod Relay
pub mod Rules
pub mod Soundness
pub mod Requests
pub mod Frames
pub mod Steps
pub mod Refinement
pub mod Entry
pub mod History
pub mod Evolution
pub mod Access
pub mod Mailbox
pub mod Transport
pub mod Shape
pub mod Tests
unfoldable pub use Checks.*
unfoldable pub use Records.*
unfoldable pub use Lifecycle.*
unfoldable pub use Creation.*
unfoldable pub use Fallback.*
unfoldable pub use Signals.*
unfoldable pub use Relay.*

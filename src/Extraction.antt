-- ===== src/Extraction.antt =====
-- apps/api/src/extraction/extraction.service.ts: items that anybody may retrieve a limited number
-- of times with a password.
mod State
mod Creation
mod Submission
mod Completion
pub mod Requests
pub mod Loading
pub mod Refresh
pub mod Secrecy
pub mod Captcha
pub mod Delivery
pub mod Created
pub mod Opened
pub mod Left
pub mod Balance
pub mod Tests
unfoldable pub use State.*
unfoldable pub use Creation.*
unfoldable pub use Submission.*
unfoldable pub use Completion.*

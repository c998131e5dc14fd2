-- ===== src/Links.antt =====
-- apps/api/src/public-links/public-links.service.ts: links that anybody may download from a limited
-- number of times, and the delivery tickets of a link.
mod State
mod Creation
mod Downloads
mod Tickets
pub mod Requests
pub mod Spending
pub mod Left
pub mod Budget
pub mod Account
pub mod Supply
pub mod Redemption
pub mod Delivery
pub mod Limits
pub mod Served
pub mod Tests
unfoldable pub use State.*
unfoldable pub use Creation.*
unfoldable pub use Downloads.*
unfoldable pub use Tickets.*

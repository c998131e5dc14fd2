-- ===== src/Access.antt =====
-- Every way to an item together: its owner's retrieval, shares, password extractions and public
-- links, and what stays closed when the item has ended.

pub mod Ended
pub mod Items
pub mod Links
pub mod Extractions
pub mod Retrievals
pub mod Requests
pub mod Issued
pub mod Loaded
pub mod Deliveries
pub mod Management
pub mod Closed
pub mod Endings
pub mod Revival
mod Tests

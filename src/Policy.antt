-- ===== src/Policy.antt =====
-- apps/api/src/policy/: policy bundles for each confidentiality level, the decisions that they make
-- on new source items, shares, extractions, public links and live transfers, and their publication.
mod Numbers
mod Evaluate
pub mod Current
pub mod Defaults
pub mod Publish
pub mod Decisions
pub mod Replacement
pub mod Publication
pub mod Versions
pub mod Refusal
pub mod Tests
unfoldable pub use Numbers.*
unfoldable pub use Evaluate.*

-- ===== src/Schema.antt =====
-- The stored state: the tables of apps/api/prisma/schema.prisma that the modelled services read and
-- write, the instance settings, and the objects of the storage service. Keys are numbers.
mod Enums
mod Policies
mod Items
mod Live
mod Links
mod Access
mod Projections
mod Reasons
pub use Enums.*
pub use Policies.*
pub use Items.*
pub use Live.*
pub use Links.*
pub use Access.*
pub use Projections.*
pub use Reasons.*
use Prim.Native.Nat.{ℕ}
use liminalis.Common.{Option, none, List, []}
use liminalis.Common.Exec.{Exec}
use liminalis.Common.Table.{Table}

pub record Database : Type 0 where
  pub users : Table User
  pub trusted_devices : Table TrustedDevice
  pub policy_bundles : Table PolicyBundle
  pub default_level : Option ConfidentialityLevel
  -- `defaultStorageQuotaBytes` of the settings, where a value other than the column's default is set
  pub default_storage_quota_bytes : Option ℕ
  pub source_items : Table SourceItem
  pub upload_sessions : Table UploadSession
  pub upload_parts : List UploadPart
  pub live_sessions : Table LiveSession
  pub live_signals : Table SignalMessage
  pub live_chunks : Table RelayChunk
  pub live_records : List LiveRecord
  pub public_links : Table PublicLink
  pub delivery_tickets : Table DeliveryTicket
  pub share_objects : Table ShareObject
  pub extraction_accesses : Table ExtractionAccess
  pub package_families : Table PackageFamily
  pub access_grant_sets : Table AccessGrantSet
  pub retrieval_attempts : Table RetrievalAttempt
  pub package_references : Table PackageReference
  pub wrapping_keys : Table WrappingKey
  pub timeline : List TimelineItem
  pub history : List HistoryEntry
  pub search_documents : List SearchDocument
  pub objects : Table StoredObject

abbrev pub empty_database : Database
empty_database = record {
  users = [];
  trusted_devices = [];
  policy_bundles = [];
  default_level = none;
  default_storage_quota_bytes = none;
  source_items = [];
  upload_sessions = [];
  upload_parts = [];
  live_sessions = [];
  live_signals = [];
  live_chunks = [];
  live_records = [];
  public_links = [];
  delivery_tickets = [];
  share_objects = [];
  extraction_accesses = [];
  package_families = [];
  access_grant_sets = [];
  retrieval_attempts = [];
  package_references = [];
  wrapping_keys = [];
  timeline = [];
  history = [];
  search_documents = [];
  objects = [];
}

-- A request handler of the API.
abbrev pub Handler : Type 0 → Type 0
Handler A = Exec Reason Database A

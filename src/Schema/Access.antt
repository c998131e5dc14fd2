-- ===== src/Schema/Access.antt =====
-- Shares, password extractions, grants, package families and the attempts to retrieve: the tables
-- by which an item is reached other than by a public link.
use Prim.Native.Nat.{ℕ}
use mathlib.Core.Bool.{Bool, true, false}
use mathlib.Core.Option.{Option}
use mathlib.Core.List.{List}
use liminalis.Schema.Enums.{ConfidentialityLevel}

pub data ExtractionState : Type 0 where
  active challenge_required exhausted expired revoked invalidated : ExtractionState

abbrev pub is_challenge_required : ExtractionState → Bool
is_challenge_required challenge_required = true
is_challenge_required _ = false

-- The states that a submission or a download may start in.
abbrev pub is_retrievable_state : ExtractionState → Bool
is_retrievable_state ExtractionState.active = true
is_retrievable_state challenge_required = true
is_retrievable_state _ = false

abbrev pub same_extraction_state : ExtractionState → ExtractionState → Bool
same_extraction_state ExtractionState.active ExtractionState.active = true
same_extraction_state challenge_required challenge_required = true
same_extraction_state ExtractionState.exhausted ExtractionState.exhausted = true
same_extraction_state ExtractionState.expired ExtractionState.expired = true
same_extraction_state ExtractionState.revoked ExtractionState.revoked = true
same_extraction_state ExtractionState.invalidated ExtractionState.invalidated = true
same_extraction_state _ _ = false

pub data InactiveReason : Type 0 where
  revoked expired source_invalidated consumed : InactiveReason

pub data RetrievalFamily : Type 0 where
  source_item_owner share_object_recipient extraction_access : RetrievalFamily

abbrev pub same_family : RetrievalFamily → RetrievalFamily → Bool
same_family source_item_owner source_item_owner = true
same_family share_object_recipient share_object_recipient = true
same_family extraction_access extraction_access = true
same_family _ _ = false

pub data AttemptStatus : Type 0 where
  issued in_progress completed abandoned failed : AttemptStatus

abbrev pub is_completed_attempt : AttemptStatus → Bool
is_completed_attempt AttemptStatus.completed = true
is_completed_attempt _ = false

abbrev pub is_open_attempt : AttemptStatus → Bool
is_open_attempt issued = true
is_open_attempt in_progress = true
is_open_attempt _ = false

pub data PackageKind : Type 0 where
  owner_ordinary owner_recovery recipient_ordinary recipient_recovery : PackageKind
  password_extraction : PackageKind

abbrev pub is_password_extraction : PackageKind → Bool
is_password_extraction password_extraction = true
is_password_extraction _ = false

pub data GrantSubjectMode : Type 0 where
  owner_domain owner_device_snapshot recipient_domain recipient_device_snapshot : GrantSubjectMode

-- A reference of a package: the JSON value of a request, or what the services write without one.
pub data ReferenceBlob : Type 0 where
  given : (value : ℕ) → ReferenceBlob
  legacy_password_extraction : (source_item_id extraction_access_id : ℕ) → ReferenceBlob
  legacy_recipient_ordinary : (share_id source_item_id recipient_id : ℕ) → ReferenceBlob
  legacy_recipient_recovery : (share_id recipient_id : ℕ) → ReferenceBlob
  legacy_owner_ordinary legacy_owner_recovery : (source_item_id : ℕ) → ReferenceBlob

pub record ShareObject : Type 0 where
  pub source_item_id : ℕ
  pub owner_user_id : ℕ
  pub recipient_user_id : ℕ
  pub confidentiality_level : ConfidentialityLevel
  -- `state` is ACTIVE
  pub active : Bool
  pub inactive_reason : Option InactiveReason
  pub policy_bundle_id : ℕ
  pub valid_until : Option ℕ
  pub allow_repeat_download : Bool
  pub allow_recipient_multi_device_access : Bool
  pub burn_after_read_enabled : Bool

pub record ExtractionAccess : Type 0 where
  pub source_item_id : ℕ
  pub share_object_id : Option ℕ
  pub policy_bundle_id : ℕ
  pub state : ExtractionState
  pub entry_token : ℕ
  pub password_hash : ℕ
  pub require_system_generated_password : Bool
  pub configured_retrieval_count : ℕ
  pub remaining_retrieval_count : ℕ
  pub failed_password_attempts : ℕ
  pub valid_until : Option ℕ

pub record PackageFamily : Type 0 where
  pub source_item_id : Option ℕ
  pub share_object_id : Option ℕ
  pub extraction_access_id : Option ℕ
  pub kind : PackageKind
  pub family_version : ℕ
  pub reference_blob : ReferenceBlob

pub record AccessGrantSet : Type 0 where
  pub source_item_id : Option ℕ
  pub share_object_id : Option ℕ
  -- `status` is CURRENT
  pub current : Bool
  pub grant_subject_mode : GrantSubjectMode
  pub subject_user_id : ℕ
  pub snapshot_device_ids : List ℕ
  pub ordinary_package_family_id : ℕ
  pub recovery_enabled : Bool
  pub recovery_package_family_id : Option ℕ
  pub allow_future_trusted_devices : Bool

pub record RetrievalAttempt : Type 0 where
  pub retrieval_family : RetrievalFamily
  pub target_object_id : ℕ
  pub source_item_id : Option ℕ
  pub share_object_id : Option ℕ
  pub extraction_access_id : Option ℕ
  pub requesting_user_id : Option ℕ
  pub requesting_device_id : Option ℕ
  pub status : AttemptStatus
  pub attempt_scope_key : ℕ
  pub package_reference_id : Option ℕ
  pub completed_at : Option ℕ

pub record PackageReference : Type 0 where
  pub package_family_id : ℕ
  pub package_family_kind : PackageKind
  pub protected_object_id : ℕ
  pub eligible_subject_user_id : Option ℕ
  pub eligible_subject_device_id : Option ℕ
  pub package_family_version : ℕ
  pub wrapped_payload_reference : ReferenceBlob
  pub expires_at : ℕ

pub record WrappingKey : Type 0 where
  pub user_id : ℕ
  pub is_current : Bool
  pub version : ℕ
  pub public_key : ℕ

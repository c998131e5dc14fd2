-- ===== src/Schema/Items.antt =====
-- Users, trusted devices, source items, upload sessions and stored objects.
use Prim.Native.Nat.{ℕ}
use Prim.Native.String.{String}
use mathlib.Core.Bool.{Bool}
use mathlib.Core.Option.{Option}
use mathlib.Core.List.{List}
use liminalis.Schema.Enums.{
  ConfidentialityLevel, UploadContentKind, GroupStructureKind, UploadSessionPhase, SourceItemState,
}
use liminalis.Schema.Policies.{SourceSnapshot, Num}

pub record User : Type 0 where
  pub username : String
  -- `enablementState` is ENABLED, `admissionState` is APPROVED
  pub enabled : Bool
  pub approved : Bool
  pub storage_quota_bytes : Option ℕ

pub record TrustedDevice : Type 0 where
  pub user_id : ℕ
  -- `trustState` is TRUSTED
  pub trusted : Bool
  pub recovery_established_at : Option ℕ

-- One stored part of a file in a binding: its storage key and size.
pub record StoredPart : Type 0 where
  pub storage_key : ℕ
  pub byte_size : ℕ

pub record SourceItem : Type 0 where
  pub owner_user_id : ℕ
  pub content_kind : UploadContentKind
  pub confidentiality_level : ConfidentialityLevel
  pub state : SourceItemState
  pub valid_until : Option ℕ
  -- `storageBinding`: null for text, else its `parts`
  pub storage_binding : Option (List StoredPart)
  pub burn_after_read_enabled : Bool
  pub policy_bundle_id : ℕ
  pub policy_snapshot : SourceSnapshot

pub record UploadSession : Type 0 where
  pub uploader_user_id : ℕ
  pub uploader_trusted_device_id : Option ℕ
  pub content_kind : UploadContentKind
  pub group_structure_kind : Option GroupStructureKind
  pub confidentiality_level : ConfidentialityLevel
  pub policy_bundle_id : ℕ
  pub policy_snapshot : SourceSnapshot
  pub requested_validity_minutes : Option Num
  pub resolved_validity_minutes : Num
  pub burn_after_read_enabled : Bool
  pub phase : UploadSessionPhase
  pub expires_at : ℕ

-- A part of an upload; its session and its number are a unique key.
pub record UploadPart : Type 0 where
  pub id : ℕ
  pub upload_session_id : ℕ
  pub part_number : ℕ
  pub storage_key : ℕ
  pub byte_size : ℕ
  pub checksum : Option ℕ

pub record StoredObject : Type 0 where
  pub size : ℕ
  pub checksum : ℕ

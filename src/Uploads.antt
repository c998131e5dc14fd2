-- ===== src/Uploads.antt =====
-- apps/api/src/uploads/uploads.service.ts: the preparation of an upload session; Parts and
-- Finalization have the rest.
pub mod Parts
pub mod Quota
pub mod Bounds
pub mod Finalization
pub mod Once
mod Tests
use liminalis.Common.{
  ℕ, ◌+◌, ◌*◌, Bool, false, not, ◌&&◌, Option, none, some, is_some, coalesce, ◌==◌,
}
use liminalis.Common.Exec.{
  Result, err, bad_request, forbidden, guard, and_then, lift, gets, modify, pure, ◌>>=◌, ◌>>◌,
}
use liminalis.Common.Table.{find, find_where, create}
use liminalis.Schema.{
  ConfidentialityLevel, UploadContentKind, is_grouped_content, GroupStructureKind, UploadSession,
  UploadSessionPhase, User, TrustedDevice, Num, Handler, Reason, Database, user_cannot_create,
  pending_user_cannot_create, device_required_for_creation, group_structure_required,
  group_structure_not_valid,
}
use liminalis.Policy.{evaluate_source_creation}
use liminalis.Policy.Current.{get_default_confidentiality_level}

pub record PrepareUpload : Type 0 where
  pub content_kind : UploadContentKind
  pub group_structure_kind : Option GroupStructureKind
  pub confidentiality_level : Option ConfidentialityLevel
  pub requested_validity_minutes : Option Num
  pub burn_after_read_enabled : Option Bool

abbrev pub upload_session_ttl_ms : ℕ
upload_session_ttl_ms = 60 * 60 * 1000

uploader_checks : Option User → Bool → Result Reason (Unit {0})
uploader_checks none has_device = err (forbidden user_cannot_create)
uploader_checks (some user) has_device =
    and_then (guard user.enabled (forbidden user_cannot_create)) λ _.
      and_then (guard user.approved (forbidden pending_user_cannot_create))
        λ _. guard has_device (forbidden device_required_for_creation)

is_trusted_device_of : ℕ → TrustedDevice → Bool
is_trusted_device_of user_id d = d.user_id == user_id && d.trusted

unfoldable pub require_eligible_trusted_uploader : ℕ → Handler (Unit {0})
unfolding uploader_checks is_trusted_device_of
require_eligible_trusted_uploader user_id = do
  user ← gets (λ db. find user_id db.users)
  device ← gets (λ db. find_where (is_trusted_device_of user_id) db.trusted_devices)
  lift (uploader_checks user (is_some device))

unfoldable pub validate_content_shape : PrepareUpload → Result Reason (Unit {0})
validate_content_shape input =
    let grouped = is_grouped_content input.content_kind in
    let structured = is_some input.group_structure_kind in
    and_then (guard (not (grouped && not structured)) (bad_request group_structure_required))
      λ _. guard (not (not grouped && structured)) (bad_request group_structure_not_valid)

abbrev pub level_or_default : Option ConfidentialityLevel → Handler ConfidentialityLevel
level_or_default (some level) = pure level
level_or_default none = get_default_confidentiality_level

-- `now` is the time, `id` the key of the new row.
unfoldable pub prepare_upload : ℕ → ℕ → ℕ → Option ℕ → PrepareUpload → Handler (ℕ × UploadSession)
prepare_upload now id user_id trusted_device_id input = do
  require_eligible_trusted_uploader user_id
  level ← level_or_default input.confidentiality_level
  lift (validate_content_shape input)
  decision ← evaluate_source_creation (record {
    confidentiality_level = level;
    requested_validity_minutes = input.requested_validity_minutes;
    burn_after_read_enabled = coalesce input.burn_after_read_enabled false;
    content_kind = input.content_kind;
  })
  let session : UploadSession = record {
    uploader_user_id = user_id;
    uploader_trusted_device_id = trusted_device_id;
    content_kind = input.content_kind;
    group_structure_kind = input.group_structure_kind;
    confidentiality_level = level;
    policy_bundle_id = decision.policy_bundle_id;
    policy_snapshot = decision.snapshot;
    requested_validity_minutes = input.requested_validity_minutes;
    resolved_validity_minutes = decision.resolved_validity_minutes;
    burn_after_read_enabled = coalesce input.burn_after_read_enabled false;
    phase = UploadSessionPhase.uploading;
    expires_at = now + upload_session_ttl_ms;
  }
  modify (λ (db : Database). record db { upload_sessions = create id session db.upload_sessions })
  pure (id, session)

-- ===== src/Live/Fallback.antt =====
-- `beginStoredFallback`: a failed or cancelled session goes on as an upload.
use liminalis.Common.{ℕ, String, Bool, Option, none, some, if◌then◌else◌}
use liminalis.Common.Exec.{
  Result, bad_request, guard, and_then, lift, gets, modify, pure, ◌>>=◌, ◌>>◌,
}
use liminalis.Common.Table.{find, update}
use liminalis.Schema.{
  ConfidentialityLevel, UploadContentKind, multi_file, is_failed_or_cancelled, LiveSession,
  UploadSession, SourceSnapshot, Handler, Reason, Database, stored_fallback_not_allowed,
  fallback_needs_failed_session,
}
use liminalis.Uploads.{PrepareUpload, prepare_upload}
use liminalis.Live.Checks.{as_participant}
use liminalis.Live.Records.{safe_content_label}

pub record StoredFallback : Type 0 where
  pub live_transfer_session_id : ℕ
  pub upload_session_id : ℕ
  pub content_label : String
  pub content_kind : UploadContentKind
  pub confidentiality_level : ConfidentialityLevel
  pub grouped_transfer : Bool
  pub expires_at : Option ℕ
  pub policy_snapshot : Option SourceSnapshot

unfoldable pub fallback_checks : LiveSession → Result Reason (Unit {0})
fallback_checks session =
    and_then
      (guard session.live_to_stored_fallback_allowed (bad_request stored_fallback_not_allowed))
      λ _. guard (is_failed_or_cancelled session.state) (bad_request fallback_needs_failed_session)

-- The answer for a session and its upload session, where that row still exists.
unfoldable pub fallback_answer : ℕ → LiveSession → ℕ → Option UploadSession → StoredFallback
unfolding safe_content_label
fallback_answer session_id session upload_id upload = record {
  live_transfer_session_id = session_id;
  upload_session_id = upload_id;
  content_label = safe_content_label session.content_kind session.grouped_transfer;
  content_kind = session.content_kind;
  confidentiality_level = session.confidentiality_level;
  grouped_transfer = session.grouped_transfer;
  expires_at = elim upload [ none ↦ none | some u ↦ some u.expires_at ];
  policy_snapshot = elim upload [ none ↦ none | some u ↦ some u.policy_snapshot ];
}

-- The upload that a session without one asks for.
unfoldable pub fallback_upload : LiveSession → PrepareUpload
fallback_upload session = record {
  content_kind = session.content_kind;
  group_structure_kind = if session.grouped_transfer then some multi_file else none;
  confidentiality_level = some session.confidentiality_level;
  requested_validity_minutes = none;
  burn_after_read_enabled = none;
}

unfoldable pub continue_fallback :
    ℕ → ℕ → ℕ → ℕ → ℕ → LiveSession → Option ℕ → Handler StoredFallback
continue_fallback now upload_id user_id device_id session_id session (some existing) = do
  upload ← gets (λ db. find existing db.upload_sessions)
  pure (fallback_answer session_id session existing upload)
continue_fallback now upload_id user_id device_id session_id session none = do
  upload ← prepare_upload now upload_id user_id (some device_id) (fallback_upload session)
  modify (λ (db : Database). record db {
    live_sessions =
        update session_id (λ row. record row { stored_fallback_upload_session_id = some upload.0 })
          db.live_sessions;
  })
  pure (fallback_answer session_id session upload.0 (some upload.1))

-- `upload_id` is the key of the upload session, where one is made.
unfoldable pub begin_stored_fallback : ℕ → ℕ → ℕ → Option ℕ → ℕ → Handler StoredFallback
begin_stored_fallback now upload_id user_id trusted_device_id session_id =
    as_participant user_id trusted_device_id session_id λ device_id session. do
      lift (fallback_checks session)
      continue_fallback now upload_id user_id device_id session_id session
          session.stored_fallback_upload_session_id

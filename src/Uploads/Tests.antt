-- ===== src/Uploads/Tests.antt =====
-- Uploads on concrete data.
use liminalis.Common.{
  ℕ, ◌≡◌, refl, Bool, true, false, some, none, [], ◌∷◌, leb, keep, find_row, upsert_row,
}
use liminalis.Common.Int.{pos}
use liminalis.Common.Exec.{is_ok, gets, or_throw, pure, lift, modify, transaction, ◌>>=◌}
use liminalis.Common.Table.{find, update, create}
use liminalis.Retrieval.New.{insert, require_new}
use liminalis.Projections.{project_source_item}
use liminalis.Schema.{
  User, UploadSession, UploadPart, Database, empty_database, ConfidentialityLevel, int,
  UploadSessionPhase, single_file,
}
use liminalis.Policy.Tests.{secret_snapshot}
use liminalis.Uploads.Parts.{
  register_upload_part, store_upload_part_body, storage_usage, storage_quota,
}
use liminalis.Uploads.Finalization.{NewItem, FinalizeUpload, finalize_upload}
use liminalis.Uploads.Bounds.{register_upload_part-Bounded, store_upload_part_body-Bounded}
use liminalis.Uploads.Once.{finalize_upload-once}

abbrev uploader : User
uploader = record {
  username = "ada";
  enabled = true;
  approved = true;
  storage_quota_bytes = some 100;
}

abbrev session : UploadSession
session = record {
  uploader_user_id = 1;
  uploader_trusted_device_id = some 11;
  content_kind = single_file;
  group_structure_kind = none;
  confidentiality_level = ConfidentialityLevel.secret;
  policy_bundle_id = 1;
  policy_snapshot = secret_snapshot;
  requested_validity_minutes = none;
  resolved_validity_minutes = int (pos 60);
  burn_after_read_enabled = false;
  phase = UploadSessionPhase.uploading;
  expires_at = 5000;
}

abbrev part : ℕ → UploadPart
part number = record {
  id = 40;
  upload_session_id = 5;
  part_number = number;
  storage_key = 70;
  byte_size = 60;
  checksum = none;
}

abbrev database_with_object : Database
database_with_object = record empty_database {
  users = (1, uploader) ∷ [];
  upload_sessions = (5, session) ∷ [];
  objects = (70, record { size = 60; checksum = 3 }) ∷ [];
}

-- Every key is taken to stand in the directory of the session.
abbrev anywhere : ℕ → ℕ → ℕ → Bool
anywhere user_id session_id key = true

abbrev registered : Database
registered = (register_upload_part anywhere 1000 1 (part 1) database_with_object).1

registered-ok : is_ok (register_upload_part anywhere 1000 1 (part 1) database_with_object).0 ≡ true
unfolding register_upload_part ◌>>=◌ gets or_throw find pure lift find_row modify
registered-ok = refl

register_upload_part-Bounded_example :
    leb (storage_usage 1 registered) (storage_quota 1 registered) ≡ true
unfolding register_upload_part ◌>>=◌ gets or_throw find pure lift find_row modify
register_upload_part-Bounded_example =
    register_upload_part-Bounded anywhere 1000 1 (part 1) database_with_object

-- A second part does not fit any more: it is refused, and nothing is stored.
store_upload_part_body-Bounded_example :
    (store_upload_part_body 1000 1000 41 1 5 2
      (record { storage_key = 71; size = 60; checksum = 4 })
      registered).1.upload_parts
    ≡ registered.upload_parts
unfolding register_upload_part store_upload_part_body ◌>>=◌ gets or_throw find pure lift find_row
    modify update upsert_row
store_upload_part_body-Bounded_example =
    store_upload_part_body-Bounded 1000 1000 41 1 5 2
      (record { storage_key = 71; size = 60; checksum = 4 }) registered

abbrev new_rows : NewItem
new_rows = record { item_id = 80; ordinary_family_id = 81; recovery_family_id = 82; grant_id = 83 }

abbrev no_metadata : FinalizeUpload
no_metadata = record {
  text_ciphertext_body = false;
  manifest = false;
  encrypted_metadata = false;
  owner_key_envelope = none;
}

finalize_upload-once_example :
    is_ok
      (finalize_upload 1002 new_rows 1 5 no_metadata
        (finalize_upload 1001 new_rows 1 5 no_metadata registered).1).0
    ≡ false
unfolding register_upload_part finalize_upload ◌>>=◌ gets or_throw find pure lift find_row modify
    update keep upsert_row transaction insert require_new create project_source_item
finalize_upload-once_example =
    finalize_upload-once 1001 1002 new_rows new_rows 1 1 5 no_metadata no_metadata registered refl

-- ===== src/Uploads/Finalization.antt =====
-- `finalizeUpload`: the parts of a session become a source item of its user. The group manifest, the
-- title and the size of the item are left out, and so is the reference of the session to the item.
use liminalis.Common.{
  ℕ, ◌+◌, ◌*◌, Bool, true, false, not, ◌&&◌, Option, none, some, List, [], ◌∷◌, ltb, leb, ◌==◌,
  if◌then◌else◌, keep, length,
}
use liminalis.Common.Int.{pos, negsuc}
use liminalis.Common.Exec.{
  Result, ok, bad_request, guard, and_then, transaction, lift, gets, modify, pure, ◌>>=◌, ◌>>◌,
}
use liminalis.Common.Table.{keys}
use liminalis.Common.Table.{find_many}
use liminalis.Schema.{
  Reason, Num, nan, int, UploadSession, UploadSessionPhase, UploadPart, StoredPart, SourceItem,
  SourceItemState, PackageKind, PackageFamily, ReferenceBlob, AccessGrantSet, Database, Handler,
  is_text, is_grouped_content, owner_ordinary, owner_recovery, owner_domain, owner_device_snapshot,
  legacy_owner_ordinary, legacy_owner_recovery, text_body_required, part_required,
  metadata_required, byte_value_too_large,
}
use liminalis.ByteValues.{max_safe_json_bytes}
use liminalis.Retrieval.Attempts.{reference_or}
use liminalis.Retrieval.New.{insert}
use liminalis.Projections.{project_source_item}
use liminalis.Shares.{insert_family, is_trusted_of}
use liminalis.Uploads.Parts.{require_owned_active_upload_session, set_phase}

-- Of the body, the manifest and the metadata it matters here whether they are given.
pub record FinalizeUpload : Type 0 where
  pub text_ciphertext_body : Bool
  pub manifest : Bool
  pub encrypted_metadata : Bool
  pub owner_key_envelope : Option ℕ

-- The keys of the new rows.
pub record NewItem : Type 0 where
  pub item_id : ℕ
  pub ordinary_family_id : ℕ
  pub recovery_family_id : ℕ
  pub grant_id : ℕ

unfoldable pub insert_by_number : UploadPart → List UploadPart → List UploadPart
insert_by_number part [] = part ∷ []
insert_by_number part (p ∷ ps) =
    let rest = insert_by_number part ps in
    if ltb part.part_number p.part_number then part ∷ p ∷ ps else p ∷ rest

-- `orderBy: { partNumber: 'asc' }`
unfoldable pub sort_by_number : List UploadPart → List UploadPart
unfolding insert_by_number
sort_by_number [] = []
sort_by_number (p ∷ ps) = insert_by_number p (sort_by_number ps)

unfoldable pub parts_of : ℕ → List UploadPart → List UploadPart
unfolding sort_by_number
parts_of session_id parts = sort_by_number (keep (λ p. p.upload_session_id == session_id) parts)

-- `partsForJson`: a size that is not safe raises an exception.
unfoldable pub parts_for_json : List UploadPart → Result Reason (List StoredPart)
parts_for_json [] = ok []
parts_for_json (p ∷ ps) =
    let rest = parts_for_json ps in
    and_then (guard (leb p.byte_size max_safe_json_bytes) (bad_request byte_value_too_large)) λ _.
      and_then rest
        λ stored. ok (record { storage_key = p.storage_key; byte_size = p.byte_size } ∷ stored)

abbrev pub binding : Bool → List UploadPart → Result Reason (Option (List StoredPart))
binding true parts = ok none
binding false parts = and_then (parts_for_json parts) λ stored. ok (some stored)

-- Whether the content is there that the kind of the session needs.
unfoldable pub require_content : UploadSession → FinalizeUpload → ℕ → Result Reason (Unit {0})
require_content session input part_count =
    and_then
      (if is_text session.content_kind
        then guard input.text_ciphertext_body (bad_request text_body_required)
        else guard (not (part_count == 0)) (bad_request part_required))
      λ _.
        guard
          (not (
            is_grouped_content session.content_kind
            && (not input.manifest && not input.encrypted_metadata)))
          (bad_request metadata_required)

-- A number of minutes that is positive sets a date.
abbrev pub date_after : ℕ → Num → Option ℕ
date_after now nan = none
date_after now (int (negsuc n)) = none
date_after now (int (pos n)) = if ltb 0 n then some (now + n * 60000) else none

unfoldable pub new_item : ℕ → ℕ → UploadSession → Option (List StoredPart) → SourceItem
new_item now user_id session stored = record {
  owner_user_id = user_id;
  content_kind = session.content_kind;
  confidentiality_level = session.confidentiality_level;
  state = SourceItemState.active;
  valid_until = date_after now session.resolved_validity_minutes;
  storage_binding = stored;
  burn_after_read_enabled = session.burn_after_read_enabled;
  policy_bundle_id = session.policy_bundle_id;
  policy_snapshot = session.policy_snapshot;
}

abbrev pub item_family : ℕ → PackageKind → ReferenceBlob → PackageFamily
item_family item_id kind blob = record {
  source_item_id = some item_id;
  share_object_id = none;
  extraction_access_id = none;
  kind = kind;
  family_version = 1;
  reference_blob = blob;
}

unfoldable pub item_grant : NewItem → ℕ → List ℕ → Bool → AccessGrantSet
item_grant new user_id device_ids future_devices = record {
  source_item_id = some new.item_id;
  share_object_id = none;
  current = true;
  grant_subject_mode = if future_devices then owner_domain else owner_device_snapshot;
  subject_user_id = user_id;
  snapshot_device_ids = if future_devices then [] else device_ids;
  ordinary_package_family_id = new.ordinary_family_id;
  recovery_enabled = true;
  recovery_package_family_id = some new.recovery_family_id;
  allow_future_trusted_devices = future_devices;
}

-- The families of an item and the grant of its user.
unfoldable pub insert_grant : NewItem → ℕ → Bool → Option ℕ → Handler (Unit {0})
unfolding insert_family item_grant
insert_grant new user_id future_devices envelope = do
  insert_family new.ordinary_family_id (
      item_family new.item_id owner_ordinary
        (reference_or envelope (legacy_owner_ordinary new.item_id)))
  insert_family new.recovery_family_id (
      item_family new.item_id owner_recovery
        (reference_or envelope (legacy_owner_recovery new.item_id)))
  devices ← gets (λ (db : Database). keys (find_many (is_trusted_of user_id) db.trusted_devices))
  insert (λ db. db.access_grant_sets) (λ t db. record db { access_grant_sets = t }) new.grant_id
      (item_grant new user_id devices future_devices)

-- The rows that the transaction writes.
unfoldable pub insert_item : ℕ → NewItem → ℕ → ℕ → UploadSession → Option ℕ → Handler SourceItem
unfolding parts_of parts_for_json new_item insert_grant set_phase
insert_item now new user_id session_id session envelope = transaction (do
  parts ← gets (λ (db : Database). parts_of session_id db.upload_parts)
  stored ← lift (binding (is_text session.content_kind) parts)
  let item : SourceItem = new_item now user_id session stored
  insert (λ db. db.source_items) (λ t db. record db { source_items = t }) new.item_id item
  insert_grant new user_id session.policy_snapshot.allow_future_trusted_devices envelope
  modify (set_phase session_id UploadSessionPhase.completed)
  pure item)

unfoldable pub finalize_upload : ℕ → NewItem → ℕ → ℕ → FinalizeUpload → Handler (ℕ × SourceItem)
unfolding require_owned_active_upload_session require_content parts_of insert_item
finalize_upload now new user_id session_id input = do
  session ← require_owned_active_upload_session now user_id session_id
  part_count ← gets (λ (db : Database). length (parts_of session_id db.upload_parts))
  lift (require_content session input part_count)
  item ← insert_item now new user_id session_id session input.owner_key_envelope
  project_source_item now new.item_id
  pure (new.item_id, item)

-- ===== src/Uploads/Parts.antt =====
-- `registerUploadPart` and `storeUploadPartBody` with the storage quota, and `writeUploadPart` and
-- `requireExistingObject` of apps/api/src/storage/.
use liminalis.Common.{
  ℕ, ◌+◌, Bool, true, false, not, ◌&&◌, Option, none, some, List, [], ◌∷◌, ltb, leb, ◌==◌, coalesce,
  is_some, if◌then◌else◌, upsert_row, find_row,
}
use liminalis.Common.Exec.{
  Result, ok, err, bad_request, forbidden, not_found, payload_too_large, guard, lift, gets, modify,
  pure, throw, or_throw, ◌>>=◌, ◌>>◌,
}
use liminalis.Common.Table.{find, create, update, delete}
use liminalis.Schema.{
  Reason, UploadSession, UploadSessionPhase, UploadPart, StoredObject, User, Database, Handler,
  is_text, upload_session_not_found, upload_session_expired, upload_already_completed,
  text_without_parts, key_of_other_session, part_number_not_positive, upload_part_too_large,
  upload_part_empty, stored_object_not_found, stored_size_mismatch, storage_quota_exceeded,
  byte_value_not_safe,
}
use liminalis.ByteValues.{max_safe_json_bytes}

-- `DEFAULT_STORAGE_QUOTA_BYTES`
abbrev pub default_storage_quota_bytes : ℕ
default_storage_quota_bytes = 1073741824

abbrev pub uploaded_by : ℕ → Option UploadSession → Option UploadSession
uploaded_by user_id none = none
uploaded_by user_id (some row) = if row.uploader_user_id == user_id then some row else none

unfoldable pub set_phase : ℕ → UploadSessionPhase → Database → Database
set_phase id phase db = record db {
  upload_sessions = update id (λ row. record row { phase = phase }) db.upload_sessions;
}

abbrev pub is_completed_phase : UploadSessionPhase → Bool
is_completed_phase UploadSessionPhase.completed = true
is_completed_phase _ = false

-- A session past its date is written as expired before the refusal.
unfoldable pub refuse_expired_session : ℕ → ℕ → UploadSession → Handler (Unit {0})
unfolding set_phase
refuse_expired_session now id session =
    if ltb session.expires_at now
    then (do
      modify (set_phase id UploadSessionPhase.expired)
      throw (bad_request upload_session_expired))
    else pure tt

unfoldable pub require_owned_active_upload_session : ℕ → ℕ → ℕ → Handler UploadSession
unfolding refuse_expired_session
require_owned_active_upload_session now user_id id = do
  row ← gets (λ (db : Database). uploaded_by user_id (find id db.upload_sessions))
  session ← or_throw row (not_found upload_session_not_found)
  refuse_expired_session now id session
  lift (guard (not (is_completed_phase session.phase)) (bad_request upload_already_completed))
  pure session

-- The bytes of the parts that a test keeps.
unfoldable pub sum_bytes : (UploadPart → Bool) → List UploadPart → ℕ
sum_bytes counts [] = 0
sum_bytes counts (part ∷ parts) =
    let rest = sum_bytes counts parts in if counts part then part.byte_size + rest else rest

abbrev pub is_part_of : ℕ → Database → UploadPart → Bool
is_part_of user_id db part =
    is_some (uploaded_by user_id (find part.upload_session_id db.upload_sessions))

unfoldable pub storage_usage : ℕ → Database → ℕ
unfolding sum_bytes
storage_usage user_id db = sum_bytes (is_part_of user_id db) db.upload_parts

abbrev pub quota_of : Option User → Option ℕ
quota_of none = none
quota_of (some user) = user.storage_quota_bytes

unfoldable pub storage_quota : ℕ → Database → ℕ
storage_quota user_id db =
    coalesce (quota_of (find user_id db.users))
      (coalesce db.default_storage_quota_bytes default_storage_quota_bytes)

abbrev pub is_part_at : ℕ → ℕ → UploadPart → Bool
is_part_at session_id number part =
    part.upload_session_id == session_id && part.part_number == number

abbrev pub size_of : Option UploadPart → ℕ
size_of none = 0
size_of (some part) = part.byte_size

-- `currentBytes - replacedBytes + incoming > quotaBytes`, where the subtraction is of integers.
abbrev pub exceeds_quota : ℕ → ℕ → ℕ → ℕ → Bool
exceeds_quota current replaced incoming quota = ltb (quota + replaced) (current + incoming)

-- A byte count of a part is a natural number; one that is not safe is refused.
unfoldable pub require_storage_quota_for_part : ℕ → ℕ → ℕ → ℕ → Handler (Unit {0})
unfolding storage_usage storage_quota
require_storage_quota_for_part user_id session_id number incoming = do
  current ← gets (storage_usage user_id)
  existing ← gets (λ (db : Database). find_row (is_part_at session_id number) db.upload_parts)
  quota ← gets (storage_quota user_id)
  lift (guard (leb incoming max_safe_json_bytes) (bad_request byte_value_not_safe))
  lift (
      guard (not (exceeds_quota current (size_of existing) incoming quota))
        (forbidden storage_quota_exceeded))

-- An update keeps the key of the row.
abbrev pub keeping_id : Option UploadPart → UploadPart → UploadPart
keeping_id none fresh = fresh
keeping_id (some row) fresh = record fresh { id = row.id }

unfoldable pub upsert_part : UploadPart → Database → Database
upsert_part fresh db =
    let same = is_part_at fresh.upload_session_id fresh.part_number in
    record db {
      upload_parts =
          upsert_row same (keeping_id (find_row same db.upload_parts) fresh) db.upload_parts;
    }

-- The end of both handlers: the part is written, and its session is uploading.
unfoldable pub write_part : UploadPart → Database → Database
unfolding upsert_part set_phase
write_part fresh db =
    set_phase fresh.upload_session_id UploadSessionPhase.uploading (upsert_part fresh db)

-- `requireExistingObject`
abbrev pub existing_object : Option StoredObject → ℕ → Result Reason (Unit {0})
existing_object none size = err (bad_request stored_object_not_found)
existing_object (some object) size = guard (object.size == size) (bad_request stored_size_mismatch)

-- A part whose object is stored already. `in_directory` tells whether a storage key, as the text it
-- stands for, begins with the directory of the user and the session; `part.id` is the key that a
-- new row takes.
unfoldable pub register_upload_part : (ℕ → ℕ → ℕ → Bool) → ℕ → ℕ → UploadPart → Handler (Unit {0})
unfolding require_owned_active_upload_session require_storage_quota_for_part write_part
register_upload_part in_directory now user_id part = do
  session ← require_owned_active_upload_session now user_id part.upload_session_id
  lift (guard (not (is_text session.content_kind)) (bad_request text_without_parts))
  lift (
      guard (in_directory user_id part.upload_session_id part.storage_key)
        (bad_request key_of_other_session))
  object ← gets (λ (db : Database). find part.storage_key db.objects)
  lift (existing_object object part.byte_size)
  require_storage_quota_for_part user_id part.upload_session_id part.part_number part.byte_size
  modify (write_part part)

-- The body of a request with the key and the checksum that the driver gives to it.
pub record PartBody : Type 0 where
  pub storage_key : ℕ
  pub size : ℕ
  pub checksum : ℕ

abbrev pub remove_stored : ℕ → Database → Database
remove_stored key db = record db { objects = delete key db.objects }

-- A body above the limit leaves no object, and an empty one is removed again. `limit` is
-- `UPLOAD_PART_MAX_BYTES` or its default.
unfoldable pub write_upload_part : ℕ → PartBody → Handler (Unit {0})
write_upload_part limit body = do
  lift (guard (not (ltb limit body.size)) (payload_too_large upload_part_too_large))
  modify (λ (db : Database). record db {
    objects =
        create body.storage_key (record { size = body.size; checksum = body.checksum }) db.objects;
  })
  if body.size == 0
      then (modify (remove_stored body.storage_key) >> throw (bad_request upload_part_empty))
      else pure tt

-- `catch`: the object is removed when the check fails, and the exception goes on.
abbrev pub removed : ℕ → Result Reason (Unit {0}) × Database → Result Reason (Unit {0}) × Database
removed key (ok done, db) = (ok done, db)
removed key (err e, db) = (err e, remove_stored key db)

unfoldable pub or_remove : ℕ → Handler (Unit {0}) → Handler (Unit {0})
or_remove key check db = removed key (check db)

-- The object of the replaced part, if its key is another one.
abbrev pub remove_replaced : ℕ → Option UploadPart → Database → Database
remove_replaced key none db = db
remove_replaced key (some old) db =
    if old.storage_key == key then db else remove_stored old.storage_key db

abbrev pub stored_part : ℕ → ℕ → ℕ → PartBody → UploadPart
stored_part id session_id number body = record {
  id = id;
  upload_session_id = session_id;
  part_number = number;
  storage_key = body.storage_key;
  byte_size = body.size;
  checksum = some body.checksum;
}

-- A part number is a natural number here: a negative one is refused as 0 is. `id` is the key that a
-- new row takes.
unfoldable pub store_upload_part_body : ℕ → ℕ → ℕ → ℕ → ℕ → ℕ → PartBody → Handler UploadPart
unfolding require_owned_active_upload_session write_upload_part require_storage_quota_for_part
    or_remove write_part
store_upload_part_body limit now id user_id session_id number body = do
  lift (guard (ltb 0 number) (bad_request part_number_not_positive))
  session ← require_owned_active_upload_session now user_id session_id
  lift (guard (not (is_text session.content_kind)) (bad_request text_without_parts))
  write_upload_part limit body
  previous ← gets (λ (db : Database). find_row (is_part_at session_id number) db.upload_parts)
  or_remove body.storage_key (require_storage_quota_for_part user_id session_id number body.size)
  let part : UploadPart = stored_part id session_id number body
  modify (λ (db : Database). remove_replaced body.storage_key previous (write_part part db))
  pure (keeping_id previous part)

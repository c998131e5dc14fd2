-- ===== src/Retrieval/Attempts.antt =====
-- The attempts to retrieve and the package references that they are given: the `upsert` of an
-- attempt and the creation of its reference, as retrieval.service.ts, shares.service.ts and
-- extraction.service.ts make them.
use liminalis.Common.{ℕ, ◌+◌, ◌*◌, Bool, Option, none, some}
use liminalis.Common.Exec.{gets, modify, pure, ◌>>=◌, ◌>>◌}
use liminalis.Common.Table.{find, find_where, update}
use liminalis.Schema.{
  ReferenceBlob, given, Database, Handler, RetrievalAttempt, AttemptStatus, in_progress,
  PackageFamily, PackageKind, PackageReference,
}
use liminalis.Retrieval.New.{insert}

unfoldable pub set_attempt : ℕ → (RetrievalAttempt → RetrievalAttempt) → Database → Database
set_attempt id patch db = record db { retrieval_attempts = update id patch db.retrieval_attempts }

abbrev pub with_status : AttemptStatus → RetrievalAttempt → RetrievalAttempt
with_status status row = record row { status = status }

abbrev pub completed_at_time : ℕ → RetrievalAttempt → RetrievalAttempt
completed_at_time now row = record row { status = AttemptStatus.completed; completed_at = some now }

-- An attempt that is there is set in progress again, a missing one is created.
unfoldable pub renew_attempt :
    ℕ → RetrievalAttempt → Option (ℕ × RetrievalAttempt) → Handler (ℕ × RetrievalAttempt)
renew_attempt id fresh (some (key, row)) = do
  modify (set_attempt key (with_status in_progress))
  pure (key, with_status in_progress row)
renew_attempt id fresh none = do
  insert (λ db. db.retrieval_attempts) (λ t db. record db { retrieval_attempts = t }) id fresh
  pure (id, fresh)

-- `same` is the test of the unique columns.
unfoldable pub upsert_attempt :
    (RetrievalAttempt → Bool) → ℕ → RetrievalAttempt → Handler (ℕ × RetrievalAttempt)
unfolding renew_attempt
upsert_attempt same id fresh = do
  row ← gets (λ (db : Database). find_where same db.retrieval_attempts)
  renew_attempt id fresh row

abbrev pub reference_ttl_ms : ℕ
reference_ttl_ms = 10 * 60000

-- The reference of a package family, for a subject.
abbrev pub new_reference :
    ℕ → ℕ → PackageKind → PackageFamily → ℕ → Option ℕ → Option ℕ → PackageReference
new_reference now family_id kind family object_id user_id device_id = record {
  package_family_id = family_id;
  package_family_kind = kind;
  protected_object_id = object_id;
  eligible_subject_user_id = user_id;
  eligible_subject_device_id = device_id;
  package_family_version = family.family_version;
  wrapped_payload_reference = family.reference_blob;
  expires_at = now + reference_ttl_ms;
}

abbrev pub with_key : ℕ → Option PackageReference → Option (ℕ × PackageReference)
with_key id none = none
with_key id (some row) = some (id, row)

-- `include: { packageReference: true }`
abbrev pub reference_of : Option ℕ → Database → Option (ℕ × PackageReference)
reference_of none db = none
reference_of (some id) db = with_key id (find id db.package_references)

-- A reference that the attempt has is kept, a missing one is created and connected to it.
unfoldable pub keep_reference :
    ℕ → ℕ → PackageReference → Option (ℕ × PackageReference) → Handler (ℕ × PackageReference)
keep_reference attempt_id id fresh (some (key, row)) = pure (key, row)
keep_reference attempt_id id fresh none = do
  insert (λ db. db.package_references) (λ t db. record db { package_references = t }) id fresh
  modify (set_attempt attempt_id (λ row. record row { package_reference_id = some id }))
  pure (id, fresh)

unfoldable pub ensure_reference :
    ℕ × RetrievalAttempt → ℕ → PackageReference → Handler (ℕ × PackageReference)
unfolding keep_reference
ensure_reference attempt id fresh = do
  row ← gets (reference_of attempt.1.package_reference_id)
  keep_reference attempt.0 id fresh row

-- `packageReference ?? { … }`
abbrev pub reference_or : Option ℕ → ReferenceBlob → ReferenceBlob
reference_or none legacy = legacy
reference_or (some value) legacy = given value

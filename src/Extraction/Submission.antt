-- ===== src/Extraction/Submission.antt =====
-- The entry page of an extraction and the submission of a password.
use liminalis.Common.{ℕ, ◌+◌, Bool, not, ◌&&◌, Option, none, some, List, ◌==◌, if◌then◌else◌}
use liminalis.Common.Exec.{
  bad_request, forbidden, guard, lift, gets, modify, pure, throw, or_throw, ◌>>=◌, ◌>>◌,
}
use liminalis.Schema.{
  ExtractionAccess, ExtractionState, challenge_required, RetrievalAttempt, extraction_access,
  same_family, in_progress, PackageReference, SourceItem, password_extraction, Handler,
  is_challenge_required, is_retrievable_state, captcha_required, extraction_not_retrievable,
  invalid_password, package_family_not_found,
}
use liminalis.Retrieval.Attempts.{upsert_attempt, ensure_reference, new_reference}
use liminalis.Extraction.State.{set_access, refresh_by_entry_token, is_key, first_family}

-- The answer of the entry page.
pub record ExtractionEntry : Type 0 where
  pub extraction_access_id : ℕ
  pub state : ExtractionState
  pub requires_captcha : Bool
  pub remaining_retrieval_count : ℕ
  pub valid_until : Option ℕ

unfoldable pub get_extraction_entry : ℕ → ℕ → Handler ExtractionEntry
get_extraction_entry now entry_token = do
  refreshed ← refresh_by_entry_token now entry_token
  pure (record {
    extraction_access_id = refreshed.0;
    state = refreshed.1.state;
    requires_captcha = is_challenge_required refreshed.1.state;
    remaining_retrieval_count = refreshed.1.remaining_retrieval_count;
    valid_until = refreshed.1.valid_until;
  })

pub record SubmitPassword : Type 0 where
  pub password : List ℕ
  pub captcha_satisfied : Bool

abbrev pub challenged : ℕ → ExtractionAccess → ExtractionAccess
challenged failures row = record row {
  failed_password_attempts = failures;
  state = challenge_required;
}

-- A wrong password is counted, and asks for a captcha from then on.
unfoldable pub check_password :
    (ℕ → List ℕ → Bool) → ℕ → ExtractionAccess → List ℕ → Handler (Unit {0})
check_password verify id access password =
    if verify access.password_hash password then pure tt else (do
      modify (set_access id (challenged (access.failed_password_attempts + 1)))
      throw (forbidden invalid_password))

abbrev pub is_attempt_of : ℕ → ℕ → RetrievalAttempt → Bool
is_attempt_of id scope_key row =
    same_family row.retrieval_family extraction_access
    && (is_key id row.extraction_access_id && row.attempt_scope_key == scope_key)

abbrev pub new_attempt : ℕ → ℕ → ℕ → RetrievalAttempt
new_attempt id item_id scope_key = record {
  retrieval_family = extraction_access;
  target_object_id = item_id;
  source_item_id = some item_id;
  share_object_id = none;
  extraction_access_id = some id;
  requesting_user_id = none;
  requesting_device_id = none;
  status = in_progress;
  attempt_scope_key = scope_key;
  package_reference_id = none;
  completed_at = none;
}

abbrev pub unlocked : ExtractionAccess → ExtractionAccess
unlocked row = record row { failed_password_attempts = 0; state = ExtractionState.active }

-- What a right password is answered with.
pub record ExtractionPackage : Type 0 where
  pub retrieval_attempt_id : ℕ
  pub extraction_access_id : ℕ
  pub package_reference_id : ℕ
  pub reference : PackageReference
  pub source_item_id : ℕ
  pub item : SourceItem
  pub remaining_retrieval_count : ℕ

-- `verify` is `argon2.verify`, false where it throws; `new` are the keys of a new attempt and of a
-- new reference.
unfoldable pub submit_password :
    (ℕ → List ℕ → Bool) → ℕ → ℕ × ℕ → ℕ → ℕ → SubmitPassword → Handler ExtractionPackage
unfolding check_password
submit_password verify now new entry_token scope_key input = do
  refreshed ← refresh_by_entry_token now entry_token
  let id : ℕ = refreshed.0
  let access : ExtractionAccess = refreshed.1
  lift (
      guard (not (is_challenge_required access.state && not input.captcha_satisfied))
        (bad_request captcha_required))
  lift (guard (is_retrievable_state access.state) (bad_request extraction_not_retrievable))
  check_password verify id access input.password
  selected ← gets (first_family id)
  family ← or_throw selected (bad_request package_family_not_found)
  attempt ←
      upsert_attempt (is_attempt_of id scope_key) new.0
        (new_attempt id access.source_item_id scope_key)
  reference ←
      ensure_reference attempt new.1
        (new_reference now family.0 password_extraction family.1 access.source_item_id none none)
  modify (set_access id unlocked)
  pure (record {
    retrieval_attempt_id = attempt.0;
    extraction_access_id = id;
    package_reference_id = reference.0;
    reference = reference.1;
    source_item_id = access.source_item_id;
    item = refreshed.2;
    remaining_retrieval_count = access.remaining_retrieval_count;
  })

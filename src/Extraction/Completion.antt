-- ===== src/Extraction/Completion.antt =====
-- The completion of an extraction's attempt, and its download.
use liminalis.Common.{ℕ, ◌-◌, Bool, Option, none, some, List, [], ◌∷◌, ◌==◌, if◌then◌else◌}
use liminalis.Common.Exec.{
  Result, ok, err, bad_request, not_found, guard, lift, gets, modify, pure, or_throw, transaction,
  ◌>>=◌, ◌>>◌,
}
use liminalis.Common.Table.{find}
use liminalis.Schema.{
  ExtractionAccess, ExtractionState, RetrievalAttempt, extraction_access, same_family,
  AttemptStatus, SourceItem, StoredPart, Database, Handler, Reason, is_active_item,
  is_retrievable_state, is_completed_attempt, is_open_attempt, source_item_not_found,
  source_item_not_retrievable, extraction_not_retrievable, attempt_not_found,
  attempt_not_downloadable, no_stored_bytes,
}
use liminalis.Links.{refuse_expired, total_size}
use liminalis.Retrieval.Attempts.{completed_at_time, set_attempt, with_status}
use liminalis.Extraction.State.{set_access, refresh_extraction_state}

-- The answer of a completion.
pub record Completion : Type 0 where
  pub retrieval_attempt_id : ℕ
  pub status : AttemptStatus
  pub extraction_state : ExtractionState
  pub remaining_retrieval_count : ℕ

abbrev pub keyed : Option ℕ → RetrievalAttempt → Option (ℕ × RetrievalAttempt)
keyed none row = none
keyed (some id) row = some (id, row)

-- The attempt of a request by its key, with the key of its access.
abbrev pub extraction_attempt : Option RetrievalAttempt → Option (ℕ × RetrievalAttempt)
extraction_attempt none = none
extraction_attempt (some row) =
    if same_family row.retrieval_family extraction_access
    then keyed row.extraction_access_id row
    else none

unfoldable pub load_extraction_attempt : ℕ → Handler (ℕ × RetrievalAttempt × ExtractionAccess)
load_extraction_attempt attempt_id = do
  row ← gets (λ (db : Database). extraction_attempt (find attempt_id db.retrieval_attempts))
  attempt ← or_throw row (not_found attempt_not_found)
  present ← gets (λ (db : Database). find attempt.0 db.extraction_accesses)
  access ← or_throw present (not_found attempt_not_found)
  pure (attempt.0, attempt.1, access)

abbrev pub counted : ExtractionAccess → ExtractionAccess → ExtractionAccess
counted access row = record row {
  remaining_retrieval_count = access.remaining_retrieval_count - 1;
  state =
      if access.remaining_retrieval_count - 1 == 0
      then ExtractionState.exhausted
      else ExtractionState.active;
}

unfoldable pub answer_completion : ℕ → AttemptStatus → ExtractionAccess → Completion
answer_completion attempt_id status access = record {
  retrieval_attempt_id = attempt_id;
  status = status;
  extraction_state = access.state;
  remaining_retrieval_count = access.remaining_retrieval_count;
}

-- The writes of a completion, which cannot fail on rows that were read.
unfoldable pub store_completion : ℕ → ℕ → ℕ → ExtractionAccess → Handler (Unit {0})
store_completion now attempt_id id access = do
  modify (set_attempt attempt_id (completed_at_time now))
  modify (set_access id (counted access))

unfoldable pub complete_extraction_retrieval : ℕ → ℕ → Bool → Handler Completion
unfolding store_completion
complete_extraction_retrieval now attempt_id success = do
  loaded ← load_extraction_attempt attempt_id
  let access : ExtractionAccess = loaded.2
  if is_completed_attempt loaded.1.status
      then pure (answer_completion attempt_id loaded.1.status access)
      else if success
      then (do
        transaction (store_completion now attempt_id loaded.0 access)
        pure (answer_completion attempt_id AttemptStatus.completed (counted access access)))
      else (do
        modify (set_attempt attempt_id (with_status AttemptStatus.failed))
        pure (answer_completion attempt_id AttemptStatus.failed access))

-- A storage binding without parts is refused.
unfoldable pub extract_storage_parts : Option (List StoredPart) → Result Reason (List StoredPart)
extract_storage_parts none = err (bad_request no_stored_bytes)
extract_storage_parts (some []) = err (bad_request no_stored_bytes)
extract_storage_parts (some (part ∷ parts)) = ok (part ∷ parts)

-- The parts, with the item that they are of.
pub record ExtractionDownload : Type 0 where
  pub source_item_id : ℕ
  pub parts : List StoredPart
  pub content_length : ℕ

abbrev pub found_or : ℕ → Option SourceItem → ℕ × SourceItem → ℕ × SourceItem
found_or id none other = other
found_or id (some item) other = (id, item)

-- The item of the attempt, else that of the access.
abbrev pub attempt_item : Option ℕ → ℕ × SourceItem → Database → ℕ × SourceItem
attempt_item none other db = other
attempt_item (some id) other db = found_or id (find id db.source_items) other

unfoldable pub create_download_stream : ℕ → ℕ → Handler ExtractionDownload
unfolding extract_storage_parts
create_download_stream now attempt_id = do
  loaded ← load_extraction_attempt attempt_id
  lift (guard (is_open_attempt loaded.1.status) (bad_request attempt_not_downloadable))
  refreshed ← refresh_extraction_state now loaded.0
  lift (guard (is_retrievable_state refreshed.0.state) (bad_request extraction_not_retrievable))
  item ← gets (attempt_item loaded.1.source_item_id (refreshed.0.source_item_id, refreshed.1))
  lift (guard (item.0 == refreshed.0.source_item_id) (not_found source_item_not_found))
  lift (guard (is_active_item item.1.state) (bad_request source_item_not_retrievable))
  refuse_expired now item.0 item.1
  parts ← lift (extract_storage_parts item.1.storage_binding)
  pure (record { source_item_id = item.0; parts = parts; content_length = total_size parts })

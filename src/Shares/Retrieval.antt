-- ===== src/Shares/Retrieval.antt =====
-- `issueRecipientRetrieval`, `completeRecipientRetrieval` and `invalidateShareFromSource`.
use liminalis.Common.{ℕ, Bool, false, not, Option, none, some, ◌==◌, if◌then◌else◌}
use liminalis.Common.Exec.{
  bad_request, forbidden, not_found, database, guard, lift, gets, modify, pure, throw, or_throw,
  transaction, ◌>>=◌, ◌>>◌,
}
use liminalis.Common.Table.{find, find_where, update}
use liminalis.Schema.{
  SourceItem, ShareObject, InactiveReason, RetrievalAttempt, RetrievalFamily,
  share_object_recipient, same_family, AttemptStatus, in_progress, Database, Handler,
  is_active_item, is_completed_attempt, trusted_device_required, attempt_not_found,
  source_item_not_retrievable, source_item_expired, share_not_found, share_not_retrievable,
  share_expired, grant_not_found, record_not_found,
}
use liminalis.Links.{is_past}
use liminalis.Projections.{project_share_object}
use liminalis.Retrieval.Attempts.{
  set_attempt, with_status, upsert_attempt, ensure_reference, new_reference, completed_at_time,
}
use liminalis.Retrieval.Families.{select_recipient_package_family, is_grant_of_share}
use liminalis.Retrieval.{IssuedRetrieval, is_attempt_of, own_attempt, related_share}

unfoldable pub set_share : ℕ → (ShareObject → ShareObject) → Database → Database
set_share id patch db = record db { share_objects = update id patch db.share_objects }

abbrev pub inactive_for : InactiveReason → ShareObject → ShareObject
inactive_for reason row = record row { active = false; inactive_reason = some reason }

unfoldable pub end_share : ℕ → ℕ → InactiveReason → Handler (Unit {0})
end_share now id reason = do
  modify (set_share id (inactive_for reason))
  project_share_object now id

abbrev pub share_for : ℕ → Option ShareObject → Option ShareObject
share_for user_id none = none
share_for user_id (some row) = if row.recipient_user_id == user_id then some row else none

unfoldable pub invalidate_share_from_source : ℕ → ℕ → Handler (Unit {0})
unfolding end_share
invalidate_share_from_source now id = end_share now id InactiveReason.source_invalidated

-- The refusals of a share whose item has ended or which is past its date, each written before.
unfoldable pub refuse_ended_share : ℕ → ℕ → ShareObject → SourceItem → Handler (Unit {0})
unfolding invalidate_share_from_source
refuse_ended_share now id row item =
    if not (is_active_item item.state)
    then (do invalidate_share_from_source now id; throw (bad_request source_item_not_retrievable))
    else if is_past now item.valid_until
    then (do invalidate_share_from_source now id; throw (bad_request source_item_expired))
    else if is_past now row.valid_until
    then (do end_share now id InactiveReason.expired; throw (bad_request share_expired))
    else pure tt

abbrev pub recipient_attempt : ℕ → ℕ → ℕ → ℕ → RetrievalAttempt
recipient_attempt share_id user_id device_id scope_key = record {
  retrieval_family = share_object_recipient;
  target_object_id = share_id;
  source_item_id = none;
  share_object_id = some share_id;
  extraction_access_id = none;
  requesting_user_id = some user_id;
  requesting_device_id = some device_id;
  status = in_progress;
  attempt_scope_key = scope_key;
  package_reference_id = none;
  completed_at = none;
}

-- `new` are the keys of a new attempt and of a new reference.
unfoldable pub issue_recipient_retrieval :
    ℕ → ℕ × ℕ → ℕ → Option ℕ → ℕ → ℕ → Handler IssuedRetrieval
unfolding refuse_ended_share
issue_recipient_retrieval now new user_id trusted_device_id share_id scope_key = do
  device_id ← or_throw trusted_device_id (forbidden trusted_device_required)
  row ← gets (λ (db : Database). share_for user_id (find share_id db.share_objects))
  share ← or_throw row (not_found share_not_found)
  source ← gets (λ (db : Database). find share.source_item_id db.source_items)
  item ← or_throw source (database record_not_found)
  lift (guard share.active (bad_request share_not_retrievable))
  refuse_ended_share now share_id share item
  present ← gets (λ (db : Database). find_where (is_grant_of_share share_id) db.access_grant_sets)
  grant ← or_throw present (bad_request grant_not_found)
  selected ← select_recipient_package_family user_id device_id grant.1
  attempt ←
      upsert_attempt (is_attempt_of share_object_recipient share_id user_id device_id scope_key)
        new.0 (recipient_attempt share_id user_id device_id scope_key)
  reference ←
      ensure_reference attempt new.1 (
        new_reference now selected.1 selected.0 selected.2 share_id (some user_id) (some device_id))
  pure (record {
    retrieval_attempt_id = attempt.0;
    package_reference_id = reference.0;
    reference = reference.1;
    source_item_id = share.source_item_id;
    item = item;
  })

pub record RecipientCompletion : Type 0 where
  pub retrieval_attempt_id : ℕ
  pub status : AttemptStatus
  -- the state of the share and the reason of an inactive one
  pub share : Option (Bool × Option InactiveReason)

abbrev pub share_state : Option ShareObject → Option (Bool × Option InactiveReason)
share_state none = none
share_state (some row) = some (row.active, row.inactive_reason)

-- A share without repeated downloads is consumed.
unfoldable pub consume_share : Option ℕ → Option ShareObject → Database → Database
unfolding set_share
consume_share (some id) (some row) db =
    if row.allow_repeat_download then db else set_share id (inactive_for InactiveReason.consumed) db
consume_share _ _ db = db

unfoldable pub store_recipient_completion : ℕ → ℕ → RetrievalAttempt → Handler (Unit {0})
unfolding consume_share
store_recipient_completion now attempt_id attempt = transaction (do
  modify (set_attempt attempt_id (completed_at_time now))
  shared ← gets (related_share attempt.share_object_id)
  modify (consume_share attempt.share_object_id shared))

unfoldable pub project_related_share : ℕ → Option ℕ → Handler (Unit {0})
project_related_share now none = pure tt
project_related_share now (some id) = project_share_object now id

abbrev pub is_recipient_family : RetrievalFamily → Bool
is_recipient_family family = same_family family share_object_recipient

unfoldable pub complete_recipient_retrieval :
    ℕ → ℕ → Option ℕ → ℕ → Bool → Handler RecipientCompletion
unfolding store_recipient_completion project_related_share
complete_recipient_retrieval now user_id trusted_device_id attempt_id success = do
  device_id ← or_throw trusted_device_id (forbidden trusted_device_required)
  row ← gets (λ (db : Database).
      own_attempt is_recipient_family user_id device_id (find attempt_id db.retrieval_attempts))
  attempt ← or_throw row (not_found attempt_not_found)
  shared ← gets (related_share attempt.share_object_id)
  if is_completed_attempt attempt.status
      then pure (record {
        retrieval_attempt_id = attempt_id;
        status = attempt.status;
        share = share_state shared;
      })
      else if success
      then (do
        store_recipient_completion now attempt_id attempt
        project_related_share now attempt.share_object_id
        after ← gets (related_share attempt.share_object_id)
        pure (record {
          retrieval_attempt_id = attempt_id;
          status = AttemptStatus.completed;
          share = share_state after;
        }))
      else (do
        modify (set_attempt attempt_id (with_status AttemptStatus.failed))
        pure (record {
          retrieval_attempt_id = attempt_id;
          status = AttemptStatus.failed;
          share = share_state shared;
        }))

-- ===== src/Retrieval/Service.antt =====
-- `getAttempt`, `issueSourceItemRetrieval`, `completeSourceItemRetrieval` and
-- `createDownloadStreamForAttempt`. In one sequence of requests the unique columns of an attempt are
-- never violated, so that the second reading of `upsertSourceOwnerAttempt` does not occur.
use liminalis.Common.{ℕ, Bool, ◌&&◌, Option, none, some, ◌==◌, if◌then◌else◌}
use liminalis.Common.Exec.{
  bad_request, forbidden, not_found, guard, lift, gets, modify, pure, or_throw, transaction, ◌>>=◌,
  ◌>>◌,
}
use liminalis.Common.Table.{find, find_where}
use liminalis.Schema.{
  SourceItem, SourceItemState, ShareObject, RetrievalAttempt, RetrievalFamily, source_item_owner,
  same_family, AttemptStatus, in_progress, PackageReference, Database, Handler, is_active_item,
  is_completed_attempt, trusted_device_required, attempt_not_found, source_item_not_found,
  source_item_not_retrievable, grant_not_found,
}
use liminalis.Links.{own_item, refuse_expired}
use liminalis.SourceItems.{set_item}
use liminalis.Projections.{project_source_item}
use liminalis.Retrieval.Attempts.{
  set_attempt, with_status, upsert_attempt, ensure_reference, new_reference, completed_at_time,
}
use liminalis.Retrieval.Families.{select_owner_package_family, is_grant_of_item, is_key}

unfoldable pub get_attempt : ℕ → Handler RetrievalAttempt
get_attempt attempt_id = do
  row ← gets (λ (db : Database). find attempt_id db.retrieval_attempts)
  or_throw row (not_found attempt_not_found)

abbrev pub is_attempt_of : RetrievalFamily → ℕ → ℕ → ℕ → ℕ → RetrievalAttempt → Bool
is_attempt_of family object_id user_id device_id scope_key row =
    same_family row.retrieval_family family
    && (row.target_object_id == object_id
        && (is_key user_id row.requesting_user_id
            && (is_key device_id row.requesting_device_id && row.attempt_scope_key == scope_key)))

abbrev pub owner_attempt : ℕ → ℕ → ℕ → ℕ → RetrievalAttempt
owner_attempt item_id user_id device_id scope_key = record {
  retrieval_family = source_item_owner;
  target_object_id = item_id;
  source_item_id = some item_id;
  share_object_id = none;
  extraction_access_id = none;
  requesting_user_id = some user_id;
  requesting_device_id = some device_id;
  status = in_progress;
  attempt_scope_key = scope_key;
  package_reference_id = none;
  completed_at = none;
}

-- What a retrieval is answered with.
pub record IssuedRetrieval : Type 0 where
  pub retrieval_attempt_id : ℕ
  pub package_reference_id : ℕ
  pub reference : PackageReference
  pub source_item_id : ℕ
  pub item : SourceItem

unfoldable pub upsert_source_owner_attempt : ℕ → ℕ → ℕ → ℕ → ℕ → Handler (ℕ × RetrievalAttempt)
upsert_source_owner_attempt new_id user_id device_id item_id scope_key =
    upsert_attempt (is_attempt_of source_item_owner item_id user_id device_id scope_key) new_id
      (owner_attempt item_id user_id device_id scope_key)

-- `new` are the keys of a new attempt and of a new reference.
unfoldable pub issue_source_item_retrieval :
    ℕ → ℕ × ℕ → ℕ → Option ℕ → ℕ → ℕ → Handler IssuedRetrieval
unfolding upsert_source_owner_attempt
issue_source_item_retrieval now new user_id trusted_device_id item_id scope_key = do
  device_id ← or_throw trusted_device_id (forbidden trusted_device_required)
  row ← gets (λ (db : Database). own_item user_id (find item_id db.source_items))
  item ← or_throw row (not_found source_item_not_found)
  lift (guard (is_active_item item.state) (bad_request source_item_not_retrievable))
  refuse_expired now item_id item
  present ← gets (λ (db : Database). find_where (is_grant_of_item item_id) db.access_grant_sets)
  grant ← or_throw present (bad_request grant_not_found)
  selected ← select_owner_package_family user_id device_id grant.1
  attempt ← upsert_source_owner_attempt new.0 user_id device_id item_id scope_key
  reference ←
      ensure_reference attempt new.1
        (new_reference now selected.1 selected.0 selected.2 item_id (some user_id) (some device_id))
  pure (record {
    retrieval_attempt_id = attempt.0;
    package_reference_id = reference.0;
    reference = reference.1;
    source_item_id = item_id;
    item = item;
  })

-- The attempt of a user and a device, of one of the families.
abbrev pub own_attempt :
    (RetrievalFamily → Bool) → ℕ → ℕ → Option RetrievalAttempt → Option RetrievalAttempt
own_attempt family user_id device_id none = none
own_attempt family user_id device_id (some row) =
    if is_key user_id row.requesting_user_id
      && (is_key device_id row.requesting_device_id && family row.retrieval_family)
    then some row
    else none

-- An included relation.
abbrev pub related_item : Option ℕ → Database → Option SourceItem
related_item none db = none
related_item (some id) db = find id db.source_items

abbrev pub related_share : Option ℕ → Database → Option ShareObject
related_share none db = none
related_share (some id) db = find id db.share_objects

abbrev pub item_state : Option SourceItem → Option SourceItemState
item_state none = none
item_state (some row) = some row.state

pub record OwnerCompletion : Type 0 where
  pub retrieval_attempt_id : ℕ
  pub status : AttemptStatus
  pub source_item_state : Option SourceItemState

-- The item of a completed attempt is purged if it burns after reading.
unfoldable pub burn : Option ℕ → Option SourceItem → Handler (Option SourceItemState)
burn (some id) (some row) =
    if row.burn_after_read_enabled
    then (do
      modify (set_item id (λ item. record item { state = SourceItemState.purged }))
      pure (some SourceItemState.purged))
    else pure (some row.state)
burn _ _ = pure none

unfoldable pub project_related_item : ℕ → Option ℕ → Handler (Unit {0})
project_related_item now none = pure tt
project_related_item now (some id) = project_source_item now id

-- The writes of a completion; the answer is the state of the item after it.
unfoldable pub store_owner_completion : ℕ → ℕ → RetrievalAttempt → Handler (Option SourceItemState)
unfolding burn
store_owner_completion now attempt_id attempt = transaction (do
  modify (set_attempt attempt_id (completed_at_time now))
  item ← gets (related_item attempt.source_item_id)
  burn attempt.source_item_id item)

abbrev pub is_owner_family : RetrievalFamily → Bool
is_owner_family family = same_family family source_item_owner

unfoldable pub complete_source_item_retrieval :
    ℕ → ℕ → Option ℕ → ℕ → Bool → Handler OwnerCompletion
unfolding store_owner_completion project_related_item
complete_source_item_retrieval now user_id trusted_device_id attempt_id success = do
  device_id ← or_throw trusted_device_id (forbidden trusted_device_required)
  row ← gets (λ (db : Database).
      own_attempt is_owner_family user_id device_id (find attempt_id db.retrieval_attempts))
  attempt ← or_throw row (not_found attempt_not_found)
  item ← gets (related_item attempt.source_item_id)
  if is_completed_attempt attempt.status
      then pure (record {
        retrieval_attempt_id = attempt_id;
        status = attempt.status;
        source_item_state = item_state item;
      })
      else if success
      then (do
        state ← store_owner_completion now attempt_id attempt
        project_related_item now attempt.source_item_id
        pure (record {
          retrieval_attempt_id = attempt_id;
          status = AttemptStatus.completed;
          source_item_state = state;
        }))
      else (do
        modify (set_attempt attempt_id (with_status AttemptStatus.failed))
        pure (record {
          retrieval_attempt_id = attempt_id;
          status = AttemptStatus.failed;
          source_item_state = item_state item;
        }))

-- ===== src/SourceItems/Service.antt =====
-- The operations of an owner on an item, and the invalidation of what is derived from it.
use liminalis.Common.{
  ℕ, ◌+◌, ◌*◌, Bool, true, false, ◌&&◌, ◌||◌, Option, none, some, is_some, List, [], ◌∷◌, ltb, ◌==◌,
  if◌then◌else◌,
}
use liminalis.Common.Exec.{
  throw, bad_request, not_found, database, guard, lift, gets, modify, pure, or_throw, transaction,
  ◌>>=◌, ◌>>◌,
}
use liminalis.Common.Table.{Table, find, find_many, keys, contains, update, update_where}
use liminalis.Schema.{
  source_item_expired, SourceItem, SourceItemState, ShareObject, InactiveReason, ExtractionAccess,
  ExtractionState, PublicLink, PublicLinkState, RetrievalAttempt, AttemptStatus,
  ConfidentialityLevel, top_secret, Database, Handler, is_active_item, is_open_attempt,
  source_item_not_found, inactive_item_fixed, record_not_found,
}
use liminalis.Policy.{evaluate_source_creation}
use liminalis.Links.{is_past, own_item}
use liminalis.Projections.{project_source_item, project_share_object}

unfoldable pub set_item : ℕ → (SourceItem → SourceItem) → Database → Database
set_item id patch db = record db { source_items = update id patch db.source_items }

abbrev pub share_of : ℕ → ShareObject → Bool
share_of item_id row = row.source_item_id == item_id

abbrev pub one_of : List ℕ → Option ℕ → Bool
one_of ids none = false
one_of ids (some id) = contains ids id

abbrev pub invalidated_share : ShareObject → ShareObject
invalidated_share row = record row {
  active = false;
  inactive_reason = some InactiveReason.source_invalidated;
}

abbrev pub invalidated_access : ExtractionAccess → ExtractionAccess
invalidated_access row = record row { state = ExtractionState.invalidated }

abbrev pub invalidated_link : PublicLink → PublicLink
invalidated_link row = record row { state = PublicLinkState.invalidated }

abbrev pub abandoned_attempt : RetrievalAttempt → RetrievalAttempt
abandoned_attempt row = record row { status = AttemptStatus.abandoned }

-- `updateMany` of the shares among the ids that are active.
unfoldable pub update_shares : List ℕ → Table ShareObject → Table ShareObject
update_shares ids [] = []
update_shares ids ((id, row) ∷ rows) =
    (id, if contains ids id && row.active then invalidated_share row else row)
    ∷ update_shares ids rows

-- The updates where the item has shares, with their keys.
unfoldable pub invalidate_with_shares : ℕ → List ℕ → Database → Database
invalidate_with_shares item_id ids db = record db {
  share_objects = update_shares ids db.share_objects;
  extraction_accesses =
      update_where (λ row. row.source_item_id == item_id || one_of ids row.share_object_id)
        invalidated_access db.extraction_accesses;
  public_links =
      update_where (λ row. row.source_item_id == item_id || one_of ids row.share_object_id)
        invalidated_link db.public_links;
  retrieval_attempts =
      update_where
        (λ row.
          (one_of (item_id ∷ []) row.source_item_id || one_of ids row.share_object_id)
          && is_open_attempt row.status)
        abandoned_attempt db.retrieval_attempts;
}

-- The updates where it has none.
unfoldable pub invalidate_alone : ℕ → Database → Database
invalidate_alone item_id db = record db {
  extraction_accesses =
      update_where (λ row. row.source_item_id == item_id) invalidated_access db.extraction_accesses;
  public_links =
      update_where (λ row. row.source_item_id == item_id) invalidated_link db.public_links;
  retrieval_attempts =
      update_where (λ row. one_of (item_id ∷ []) row.source_item_id && is_open_attempt row.status)
        abandoned_attempt db.retrieval_attempts;
}

unfoldable pub invalidate_derived : ℕ → List ℕ → Database → Database
unfolding invalidate_with_shares invalidate_alone
invalidate_derived item_id [] db = invalidate_alone item_id db
invalidate_derived item_id (id ∷ ids) db = invalidate_with_shares item_id (id ∷ ids) db

-- The answer is the keys of the shares.
unfoldable pub invalidate_derived_access : ℕ → Handler (List ℕ)
unfolding invalidate_derived
invalidate_derived_access item_id = do
  ids ← gets (λ (db : Database). keys (find_many (share_of item_id) db.share_objects))
  modify (invalidate_derived item_id ids)
  pure ids

-- An `update` of a row that is missing fails.
unfoldable pub update_item : ℕ → (SourceItem → SourceItem) → Handler (Unit {0})
update_item id patch = do
  row ← gets (λ (db : Database). find id db.source_items)
  lift (guard (is_some row) (database record_not_found))
  modify (set_item id patch)

unfoldable pub project_shares : ℕ → List ℕ → Handler (Unit {0})
project_shares now [] = pure tt
project_shares now (id ∷ ids) = do project_share_object now id; project_shares now ids

unfoldable pub project_source_and_shares : ℕ → ℕ → List ℕ → Handler (Unit {0})
unfolding project_shares
project_source_and_shares now id ids = do project_source_item now id; project_shares now ids

unfoldable pub end_item : ℕ → SourceItemState → Handler (List ℕ)
unfolding invalidate_derived_access update_item
end_item id state =
    transaction
      (do update_item id (λ row. record row { state = state }); invalidate_derived_access id)

unfoldable pub invalidate_source_item : ℕ → ℕ → SourceItemState → Handler (Unit {0})
unfolding end_item
invalidate_source_item now id state = do
  ids ← end_item id state
  project_source_and_shares now id ids

unfoldable pub refresh_owned : ℕ → ℕ → Option SourceItem → Handler (Unit {0})
refresh_owned now id none = pure tt
refresh_owned now id (some row) =
    if is_active_item row.state && is_past now row.valid_until
    then invalidate_source_item now id SourceItemState.expired
    else pure tt

unfoldable pub refresh_owned_source_item_availability : ℕ → ℕ → ℕ → Handler (Unit {0})
unfolding refresh_owned
refresh_owned_source_item_availability now user_id id = do
  row ← gets (λ (db : Database). own_item user_id (find id db.source_items))
  refresh_owned now id row

unfoldable pub require_owned_source_item : ℕ → ℕ → Handler SourceItem
require_owned_source_item user_id id = do
  row ← gets (λ (db : Database). own_item user_id (find id db.source_items))
  or_throw row (not_found source_item_not_found)

unfoldable pub get_source_item_for_owner : ℕ → ℕ → ℕ → Handler SourceItem
get_source_item_for_owner now user_id id = do
  refresh_owned_source_item_availability now user_id id
  require_owned_source_item user_id id

unfoldable pub revoke_source_item_for_owner : ℕ → ℕ → ℕ → Handler SourceItem
revoke_source_item_for_owner now user_id id = do
  row ← require_owned_source_item user_id id
  if is_active_item row.state
      then (do
        invalidate_source_item now id SourceItemState.invalidated
        get_source_item_for_owner now user_id id)
      else pure row

abbrev pub is_top_secret : ConfidentialityLevel → Bool
is_top_secret top_secret = true
is_top_secret _ = false

-- Every access ends where the level is raised to the highest.
unfoldable pub end_access_if : Bool → ℕ → Handler (List ℕ)
end_access_if true id = invalidate_derived_access id
end_access_if false id = pure []

unfoldable pub change_confidentiality_for_owner :
    ℕ → ℕ → ℕ → ConfidentialityLevel → Handler SourceItem
unfolding end_access_if
change_confidentiality_for_owner now user_id id level = do
  row ← require_owned_source_item user_id id
  lift (guard (is_active_item row.state) (bad_request inactive_item_fixed))
  decision ← evaluate_source_creation (record {
    confidentiality_level = level;
    requested_validity_minutes = none;
    burn_after_read_enabled = row.burn_after_read_enabled;
    content_kind = row.content_kind;
  })
  ids ← transaction (do
    update_item id (λ item. record item {
      confidentiality_level = level;
      policy_bundle_id = decision.policy_bundle_id;
      policy_snapshot = decision.snapshot;
    })
    end_access_if (is_top_secret level) id)
  project_source_and_shares now id ids
  get_source_item_for_owner now user_id id

abbrev pub valid_for : ℕ → Option ℕ → Option ℕ
valid_for now none = none
valid_for now (some minutes) = if ltb 0 minutes then some (now + minutes * 60000) else none

unfoldable pub update_validity_for_owner : ℕ → ℕ → ℕ → Option ℕ → Handler SourceItem
update_validity_for_owner now user_id id requested_validity_minutes = do
  row ← require_owned_source_item user_id id
  lift (guard (is_active_item row.state) (bad_request inactive_item_fixed))
  update_item id (λ item. record item { valid_until = valid_for now requested_validity_minutes })
  project_source_item now id
  get_source_item_for_owner now user_id id

-- The refusal of an item past its date, which is written and projected before.
unfoldable pub refuse_expired_item : ℕ → ℕ → SourceItem → Handler (Unit {0})
refuse_expired_item now id row =
    if is_past now row.valid_until
    then (do
      modify (set_item id (λ item. record item { state = SourceItemState.expired }))
      project_source_item now id
      throw (bad_request source_item_expired))
    else pure tt

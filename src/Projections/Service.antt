-- ===== src/Projections/Service.antt =====
-- `projectSourceItem` and `projectShareObject` with the visibility that they compute, and the
-- reading of the active timeline. A group manifest stands beside grouped content only.
use liminalis.Common.{
  ℕ, Bool, true, false, not, ◌&&◌, Option, none, some, List, ◌==◌, if◌then◌else◌, keep, upsert_row,
}
use liminalis.Common.Exec.{database, gets, modify, pure, or_throw, ◌>>=◌}
use liminalis.Common.Table.{find}
use liminalis.Schema.{
  SourceItem, SourceItemState, ShareObject, InactiveReason, UploadContentKind, single_file,
  grouped_content, self_space_text, User, ProjectedObject, item, share, TypeLabel, text, grouped,
  file, StatusLabel, inactive, TimelineItem, Database, Handler, is_active_item, record_not_found,
}
use liminalis.Links.{is_past}

abbrev pub same_object : ProjectedObject → ProjectedObject → Bool
same_object (item a) (item b) = a == b
same_object (share a) (share b) = a == b
same_object _ _ = false

abbrev pub type_label_of : UploadContentKind → TypeLabel
type_label_of self_space_text = text
type_label_of grouped_content = grouped
type_label_of single_file = file

-- What is shown of an object.
pub record Visibility : Type 0 where
  pub retrievable : Bool
  pub retained_status : StatusLabel

abbrev pub status_of_item : Bool → SourceItemState → StatusLabel
status_of_item true SourceItemState.active = StatusLabel.expired
status_of_item false SourceItemState.active = StatusLabel.active
status_of_item _ SourceItemState.expired = StatusLabel.expired
status_of_item _ SourceItemState.invalidated = StatusLabel.invalidated
status_of_item _ SourceItemState.purged = StatusLabel.purged

unfoldable pub build_source_visibility : ℕ → SourceItem → Visibility
build_source_visibility now row = record {
  retrievable = is_active_item row.state && not (is_past now row.valid_until);
  retained_status = status_of_item (is_past now row.valid_until) row.state;
}

abbrev pub status_of_reason : Option InactiveReason → StatusLabel
status_of_reason none = inactive
status_of_reason (some InactiveReason.revoked) = StatusLabel.revoked
status_of_reason (some InactiveReason.expired) = StatusLabel.expired
status_of_reason (some InactiveReason.source_invalidated) = StatusLabel.source_invalidated
status_of_reason (some InactiveReason.consumed) = StatusLabel.consumed

unfoldable pub build_share_visibility : ℕ → ShareObject → Visibility
build_share_visibility now row = record {
  retrievable = row.active && not (is_past now row.valid_until);
  retained_status =
      if row.active
      then (if is_past now row.valid_until then StatusLabel.expired else StatusLabel.active)
      else status_of_reason row.inactive_reason;
}

abbrev pub reason_unless : Bool → StatusLabel → Option StatusLabel
reason_unless true status = none
reason_unless false status = some status

-- The three rows of an object under their owner are written.
unfoldable pub store_projections : TimelineItem → Visibility → Database → Database
store_projections shown visibility db = record db {
  timeline =
      upsert_row
        (λ row. row.owner_user_id == shown.owner_user_id && same_object row.object shown.object)
        shown db.timeline;
  history =
      upsert_row
        (λ row. row.owner_user_id == shown.owner_user_id && same_object row.object shown.object)
        (record {
          owner_user_id = shown.owner_user_id;
          object = shown.object;
          type_label = shown.type_label;
          source_label = shown.source_label;
          confidentiality_level = shown.confidentiality_level;
          retained_status = visibility.retained_status;
          retrievable = visibility.retrievable;
          concrete_reason = reason_unless visibility.retrievable visibility.retained_status;
        })
        db.history;
  search_documents =
      upsert_row
        (λ row. row.owner_user_id == shown.owner_user_id && same_object row.object shown.object)
        (record {
          owner_user_id = shown.owner_user_id;
          object = shown.object;
          type_label = shown.type_label;
          source_label = shown.source_label;
          status_label = visibility.retained_status;
          confidentiality_level = shown.confidentiality_level;
          retrievable = visibility.retrievable;
        })
        db.search_documents;
}

-- `deleteMany` of the rows of an object.
unfoldable pub remove_projections : ProjectedObject → Database → Database
remove_projections object db = record db {
  timeline = keep (λ row. not (same_object row.object object)) db.timeline;
  history = keep (λ row. not (same_object row.object object)) db.history;
  search_documents = keep (λ row. not (same_object row.object object)) db.search_documents;
}

abbrev pub is_purged : SourceItemState → Bool
is_purged SourceItemState.purged = true
is_purged _ = false

unfoldable pub item_row : ℕ → ℕ → SourceItem → User → TimelineItem
unfolding build_source_visibility
item_row now id row owner = record {
  owner_user_id = row.owner_user_id;
  object = item id;
  type_label = type_label_of row.content_kind;
  source_label = owner.username;
  status_label =
      if (build_source_visibility now row).retrievable
      then StatusLabel.active
      else (build_source_visibility now row).retained_status;
  confidentiality_level = row.confidentiality_level;
  retrievable = (build_source_visibility now row).retrievable;
  valid_until = row.valid_until;
}

unfoldable pub project_item : ℕ → ℕ → Option SourceItem → Handler (Unit {0})
unfolding store_projections remove_projections item_row
project_item now id none = pure tt
project_item now id (some row) = do
  user ← gets (λ (db : Database). find row.owner_user_id db.users)
  owner ← or_throw user (database record_not_found)
  if row.burn_after_read_enabled && is_purged row.state
      then modify (remove_projections (item id))
      else modify (store_projections (item_row now id row owner) (build_source_visibility now row))

unfoldable pub project_source_item : ℕ → ℕ → Handler (Unit {0})
unfolding project_item
project_source_item now id = do
  row ← gets (λ (db : Database). find id db.source_items)
  project_item now id row

unfoldable pub share_row : ℕ → ℕ → ShareObject → SourceItem → User → TimelineItem
unfolding build_share_visibility
share_row now id row source owner = record {
  owner_user_id = row.recipient_user_id;
  object = share id;
  type_label = type_label_of source.content_kind;
  source_label = owner.username;
  status_label = (build_share_visibility now row).retained_status;
  confidentiality_level = row.confidentiality_level;
  retrievable = (build_share_visibility now row).retrievable;
  valid_until = row.valid_until;
}

unfoldable pub project_share : ℕ → ℕ → Option ShareObject → Handler (Unit {0})
unfolding store_projections share_row
project_share now id none = pure tt
project_share now id (some row) = do
  user ← gets (λ (db : Database). find row.owner_user_id db.users)
  owner ← or_throw user (database record_not_found)
  found ← gets (λ (db : Database). find row.source_item_id db.source_items)
  source ← or_throw found (database record_not_found)
  modify (store_projections (share_row now id row source owner) (build_share_visibility now row))

unfoldable pub project_share_object : ℕ → ℕ → Handler (Unit {0})
unfolding project_share
project_share_object now id = do
  row ← gets (λ (db : Database). find id db.share_objects)
  project_share now id row

-- The rows of the active timeline of a user; their order and their origin are left out.
unfoldable pub get_active_timeline : ℕ → Database → List TimelineItem
get_active_timeline user_id db =
    keep (λ row. row.owner_user_id == user_id && row.retrievable) db.timeline

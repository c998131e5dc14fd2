-- ===== src/Retrieval/Download.antt =====
-- `createDownloadStreamForAttempt` and `extractStorageParts`.
use liminalis.Common.{ℕ, Bool, true, ◌||◌, Option, none, some, List, [], ◌∷◌}
use liminalis.Common.Exec.{
  Result, ok, err, bad_request, forbidden, not_found, guard, lift, gets, pure, or_throw, ◌>>=◌,
  ◌>>◌,
}
use liminalis.Common.Table.{find}
use liminalis.Schema.{
  SourceItem, ShareObject, RetrievalFamily, source_item_owner, share_object_recipient, same_family,
  StoredPart, Database, Handler, Reason, is_active_item, is_open_attempt, trusted_device_required,
  attempt_not_found, attempt_not_downloadable, source_item_not_found, source_item_not_retrievable,
  share_not_retrievable, no_stored_bytes,
}
use liminalis.Links.{total_size}
use liminalis.SourceItems.{refuse_expired_item}
use liminalis.Retrieval.Service.{own_attempt, related_share}

-- A storage binding without parts is refused.
unfoldable pub extract_storage_parts : Option (List StoredPart) → Result Reason (List StoredPart)
extract_storage_parts none = err (bad_request no_stored_bytes)
extract_storage_parts (some []) = err (bad_request no_stored_bytes)
extract_storage_parts (some (part ∷ parts)) = ok (part ∷ parts)

abbrev pub is_stored_family : RetrievalFamily → Bool
is_stored_family family =
    same_family family source_item_owner || same_family family share_object_recipient

abbrev pub is_usable : Option ShareObject → Bool
is_usable none = true
is_usable (some row) = row.active

abbrev pub source_of : Option ShareObject → Option ℕ
source_of none = none
source_of (some row) = some row.source_item_id

-- The item of the attempt, else that of its share, with its key.
abbrev pub item_key : Option ℕ → Option ShareObject → Option ℕ
item_key (some id) row = some id
item_key none row = source_of row

abbrev pub with_item : ℕ → Option SourceItem → Option (ℕ × SourceItem)
with_item id none = none
with_item id (some row) = some (id, row)

abbrev pub keyed_item : Option ℕ → Database → Option (ℕ × SourceItem)
keyed_item none db = none
keyed_item (some id) db = with_item id (find id db.source_items)

-- The parts, with the item that they are of.
pub record StoredDownload : Type 0 where
  pub source_item_id : ℕ
  pub parts : List StoredPart
  pub content_length : ℕ

unfoldable pub create_stored_download : ℕ → ℕ → Option ℕ → ℕ → Handler StoredDownload
unfolding extract_storage_parts
create_stored_download now user_id trusted_device_id attempt_id = do
  device_id ← or_throw trusted_device_id (forbidden trusted_device_required)
  row ← gets (λ (db : Database).
      own_attempt is_stored_family user_id device_id (find attempt_id db.retrieval_attempts))
  attempt ← or_throw row (not_found attempt_not_found)
  lift (guard (is_open_attempt attempt.status) (bad_request attempt_not_downloadable))
  shared ← gets (related_share attempt.share_object_id)
  lift (guard (is_usable shared) (bad_request share_not_retrievable))
  present ← gets (keyed_item (item_key attempt.source_item_id shared))
  item ← or_throw present (not_found source_item_not_found)
  lift (guard (is_active_item item.1.state) (bad_request source_item_not_retrievable))
  refuse_expired_item now item.0 item.1
  parts ← lift (extract_storage_parts item.1.storage_binding)
  pure (record { source_item_id = item.0; parts = parts; content_length = total_size parts })

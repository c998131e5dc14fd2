-- ===== src/Extraction/State.antt =====
-- The state of a password extraction: how it is read and refreshed.
use liminalis.Common.{
  is_some, not, ℕ, Bool, false, ◌&&◌, Option, none, some, [], ◌∷◌, ltb, leb, ◌==◌, if◌then◌else◌,
}
use liminalis.Common.Exec.{
  guard, lift, not_found, database, gets, modify, pure, or_throw, ◌>>=◌, ◌>>◌,
}
use liminalis.Common.Table.{Table, find, find_where, find_many, update}
use liminalis.Schema.{
  unique_violation, ExtractionAccess, ExtractionState, PackageFamily, SourceItem, Database, Handler,
  is_active_item, same_extraction_state, is_password_extraction, extraction_not_found,
  record_not_found,
}
use liminalis.Links.{is_past}

unfoldable pub set_access : ℕ → (ExtractionAccess → ExtractionAccess) → Database → Database
set_access id patch db = record db { extraction_accesses = update id patch db.extraction_accesses }

-- `findUniqueOrThrow` with the source item.
unfoldable pub load_access : ℕ → Handler (ExtractionAccess × SourceItem)
unfolding gets or_throw ◌>>=◌ pure
load_access id = do
  row ← gets (λ (db : Database). find id db.extraction_accesses)
  access ← or_throw row (database record_not_found)
  source ← gets (λ (db : Database). find access.source_item_id db.source_items)
  item ← or_throw source (database record_not_found)
  pure (access, item)

-- The state that a refresh finds.
unfoldable pub next_state : ℕ → ExtractionAccess → SourceItem → ExtractionState
next_state now access item =
    if is_active_item item.state
    then if is_past now item.valid_until
      then ExtractionState.invalidated
      else if is_past now access.valid_until
      then ExtractionState.expired
      else if leb access.remaining_retrieval_count 0
      then ExtractionState.exhausted
      else access.state
    else ExtractionState.invalidated

unfoldable pub store_state :
    ℕ → ExtractionAccess × SourceItem → ExtractionState → Handler (ExtractionAccess × SourceItem)
store_state id loaded next = if same_extraction_state next loaded.0.state then pure loaded else (do
  modify (set_access id (λ row. record row { state = next }))
  pure (record loaded.0 { state = next }, loaded.1))

unfoldable pub refresh_extraction_state : ℕ → ℕ → Handler (ExtractionAccess × SourceItem)
unfolding store_state
refresh_extraction_state now id = do
  loaded ← load_access id
  store_state id loaded (next_state now loaded.0 loaded.1)

abbrev pub with_entry_token : ℕ → ExtractionAccess → Bool
with_entry_token token access = access.entry_token == token

-- The entry token is unique.
unfoldable pub require_new_token : ℕ → Handler (Unit {0})
require_new_token token = do
  taken ← gets (λ (db : Database). find_where (with_entry_token token) db.extraction_accesses)
  lift (guard (not (is_some taken)) (database unique_violation))

-- The answer is the key of the access with its refreshed row and source item.
unfoldable pub refresh_by_entry_token : ℕ → ℕ → Handler (ℕ × ExtractionAccess × SourceItem)
unfolding gets or_throw ◌>>=◌
refresh_by_entry_token now token = do
  row ← gets (λ (db : Database). find_where (with_entry_token token) db.extraction_accesses)
  found ← or_throw row (not_found extraction_not_found)
  refreshed ← refresh_extraction_state now found.0
  pure (found.0, refreshed.0, refreshed.1)

-- The package families of an access, and the first of them by descending version.
abbrev pub is_key : ℕ → Option ℕ → Bool
is_key id none = false
is_key id (some key) = key == id

abbrev pub is_family_of : ℕ → PackageFamily → Bool
is_family_of id family = is_password_extraction family.kind && is_key id family.extraction_access_id

abbrev pub newer_family :
    ℕ × PackageFamily → Option (ℕ × PackageFamily) → Option (ℕ × PackageFamily)
newer_family row none = some row
newer_family row (some other) =
    if ltb row.1.family_version other.1.family_version then some other else some row

unfoldable pub newest_family : Table PackageFamily → Option (ℕ × PackageFamily)
newest_family [] = none
newest_family (row ∷ rows) = newer_family row (newest_family rows)

unfoldable pub first_family : ℕ → Database → Option (ℕ × PackageFamily)
first_family id db = newest_family (find_many (is_family_of id) db.package_families)

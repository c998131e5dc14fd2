-- ===== src/Links/State.antt =====
-- The state of a link: how it is read, refreshed and spent.
use liminalis.Common.{
  ℕ, ◌-◌, Bool, true, false, ◌&&◌, Option, none, some, ltb, leb, ◌==◌, if◌then◌else◌,
}
use liminalis.Common.Exec.{not_found, database, gets, modify, pure, or_throw, ◌>>=◌, ◌>>◌}
use liminalis.Common.Table.{find, find_where, update}
use liminalis.Schema.{
  PublicLink, PublicLinkState, SourceItem, Database, Handler, is_active_item, is_active_link,
  same_link_state, invalid_public_link, record_not_found,
}

-- `date && date < now`
abbrev pub is_past : ℕ → Option ℕ → Bool
is_past now none = false
is_past now (some date) = ltb date now

unfoldable pub set_link : ℕ → (PublicLink → PublicLink) → Database → Database
set_link id patch db = record db { public_links = update id patch db.public_links }

-- `findUniqueOrThrow` with the source item.
unfoldable pub load_link : ℕ → Handler (PublicLink × SourceItem)
unfolding gets or_throw ◌>>=◌ pure
load_link id = do
  row ← gets (λ db. find id db.public_links)
  link ← or_throw row (database record_not_found)
  source ← gets (λ db. find link.source_item_id db.source_items)
  item ← or_throw source (database record_not_found)
  pure (link, item)

-- The state that a refresh finds.
unfoldable pub next_state : ℕ → PublicLink → SourceItem → PublicLinkState
next_state now link item =
    if is_active_item item.state
    then if is_past now item.valid_until
      then PublicLinkState.invalidated
      else if is_past now link.valid_until
      then PublicLinkState.expired
      else if leb link.remaining_download_count 0
      then PublicLinkState.exhausted
      else link.state
    else PublicLinkState.invalidated

unfoldable pub store_state :
    ℕ → PublicLink × SourceItem → PublicLinkState → Handler (PublicLink × SourceItem)
store_state id loaded next = if same_link_state next loaded.0.state then pure loaded else (do
  modify (set_link id (λ row. record row { state = next }))
  pure (record loaded.0 { state = next }, loaded.1))

unfoldable pub refresh_public_link_state : ℕ → ℕ → Handler (PublicLink × SourceItem)
unfolding store_state
refresh_public_link_state now id = do
  loaded ← load_link id
  store_state id loaded (next_state now loaded.0 loaded.1)

abbrev pub with_token : ℕ → PublicLink → Bool
with_token token link = link.link_token == token

-- The answer is the key of the link with its refreshed row and source item.
unfoldable pub refresh_by_token : ℕ → ℕ → Handler (ℕ × PublicLink × SourceItem)
unfolding gets or_throw ◌>>=◌
refresh_by_token now token = do
  row ← gets (λ db. find_where (with_token token) db.public_links)
  found ← or_throw row (not_found invalid_public_link)
  refreshed ← refresh_public_link_state now found.0
  pure (found.0, refreshed.0, refreshed.1)

-- The test of the `updateMany` that spends a download.
abbrev pub can_spend : Option PublicLink → Bool
can_spend none = false
can_spend (some link) = is_active_link link.state && ltb 0 link.remaining_download_count

unfoldable pub decremented : PublicLink → PublicLink
decremented row = record row { remaining_download_count = row.remaining_download_count - 1 }

unfoldable pub exhaust_spent : ℕ → PublicLink → Database → Database
exhaust_spent id link db =
    if leb link.remaining_download_count 0
    then set_link id (λ row. record row { state = PublicLinkState.exhausted }) db
    else db

-- The guarded decrement, the row read again, and the state of a link that is used up; false where
-- the `updateMany` counts no row.
unfoldable pub spend : ℕ → Handler Bool
unfolding exhaust_spent decremented
spend id = do
  row ← gets (λ db. find id db.public_links)
  if can_spend row
      then (do
        modify (set_link id decremented)
        after ← gets (λ db. find id db.public_links)
        link ← or_throw after (database record_not_found)
        modify (exhaust_spent id link)
        pure true)
      else pure false

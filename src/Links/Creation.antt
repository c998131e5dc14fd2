-- ===== src/Links/Creation.antt =====
-- `createPublicLink` and `clampValidUntil`. The package reference, an opaque JSON value, and the
-- policy snapshot of the row are left out.
use liminalis.Common.{ℕ, ◌+◌, not, ◌&&◌, Option, none, some, ltb, ◌==◌, is_some, if◌then◌else◌}
use liminalis.Common.Int.{pos}
use liminalis.Common.Exec.{
  bad_request, not_found, database, guard, lift, gets, modify, pure, throw, or_throw, ◌>>=◌, ◌>>◌,
}
use liminalis.Common.Table.{find, find_where, update, create}
use liminalis.Schema.{
  PublicLink, PublicLinkState, SourceItem, SourceItemState, Database, Handler, Num, int,
  is_active_item, is_text, source_item_not_found, source_item_not_eligible, source_item_expired,
  text_not_outward, unique_violation, value_not_storable, int_limit,
}
use liminalis.Policy.{evaluate_public_link_creation, lifetime_ms}
use liminalis.Links.State.{is_past, with_token}

unfoldable pub clamp_valid_until : Option ℕ → Option ℕ → Option ℕ
clamp_valid_until none source = source
clamp_valid_until (some candidate) none = some candidate
clamp_valid_until (some candidate) (some source) =
    if ltb candidate source then some candidate else some source

-- `findFirst` by key and owner.
abbrev pub own_item : ℕ → Option SourceItem → Option SourceItem
own_item owner none = none
own_item owner (some item) = if item.owner_user_id == owner then some item else none

-- An item past its date is written as expired before the refusal.
unfoldable pub refuse_expired : ℕ → ℕ → SourceItem → Handler (Unit {0})
refuse_expired now id item =
    if is_past now item.valid_until
    then (do
      modify (λ (db : Database). record db {
        source_items =
            update id (λ row. record row { state = SourceItemState.expired }) db.source_items;
      })
      throw (bad_request source_item_expired))
    else pure tt

-- The integer column refuses NaN and what its 32 bits do not hold. No count below 0 comes here: the
-- policy refuses it.
abbrev pub column_int : Num → Option ℕ
column_int (int (pos n)) = if ltb n int_limit then some n else none
column_int _ = none

unfoldable pub insert_link : ℕ → PublicLink → Handler (Unit {0})
insert_link id link = do
  present ← gets (λ db. find id db.public_links)
  taken ← gets (λ db. find_where (with_token link.link_token) db.public_links)
  lift (guard (not (is_some present) && not (is_some taken)) (database unique_violation))
  modify (λ (db : Database). record db { public_links = create id link db.public_links })

pub record CreatePublicLink : Type 0 where
  pub source_item_id : ℕ
  pub requested_validity_minutes : Option Num
  pub requested_download_count : Option Num

abbrev pub after_minutes : ℕ → Option ℕ → Option ℕ
after_minutes now none = none
after_minutes now (some ms) = some (now + ms)

unfoldable pub new_link : ℕ → ℕ → ℕ → ℕ → Option Num → SourceItem → PublicLink
unfolding clamp_valid_until
new_link now token item_id count minutes item = record {
  source_item_id = item_id;
  share_object_id = none;
  state = PublicLinkState.active;
  link_token = token;
  configured_download_count = count;
  remaining_download_count = count;
  valid_until = clamp_valid_until (after_minutes now (lifetime_ms minutes)) item.valid_until;
}

-- `id` and `token` are the key and the random token of the new row.
unfoldable pub create_public_link : ℕ → ℕ → ℕ → ℕ → CreatePublicLink → Handler (ℕ × PublicLink)
unfolding refuse_expired insert_link new_link
create_public_link now id token owner_user_id input = do
  row ← gets (λ db. own_item owner_user_id (find input.source_item_id db.source_items))
  item ← or_throw row (not_found source_item_not_found)
  lift (guard (is_active_item item.state) (bad_request source_item_not_eligible))
  refuse_expired now input.source_item_id item
  lift (guard (not (is_text item.content_kind)) (bad_request text_not_outward))
  decision ← evaluate_public_link_creation (record {
    confidentiality_level = item.confidentiality_level;
    requested_validity_minutes = input.requested_validity_minutes;
    requested_download_count = input.requested_download_count;
  })
  count ← or_throw (column_int decision.resolved_download_count) (database value_not_storable)
  let link = new_link now token input.source_item_id count decision.resolved_validity_minutes item
  insert_link id link
  pure (id, link)

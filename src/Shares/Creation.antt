-- ===== src/Shares/Creation.antt =====
-- `createUserTargetedShare`, `getIncomingShares`, `getRecipientPublicKey` and `clampValidUntil`. The
-- policy snapshot of the row is left out.
use liminalis.Common.{
  ℕ, Bool, true, false, not, ◌&&◌, Option, none, some, List, [], ◌∷◌, ltb, ◌==◌, if◌then◌else◌,
}
use liminalis.Common.Exec.{
  bad_request, not_found, guard, lift, gets, pure, or_throw, transaction, ◌>>=◌, ◌>>◌,
}
use liminalis.Common.Table.{Table, find, find_where, find_many, keys}
use liminalis.Schema.{
  PackageKind, User, WrappingKey, TrustedDevice, SourceItem, ShareObject, PackageFamily,
  recipient_ordinary, recipient_recovery, ReferenceBlob, legacy_recipient_ordinary,
  legacy_recipient_recovery, AccessGrantSet, recipient_domain, recipient_device_snapshot, Database,
  Handler, Num, is_active_item, is_text, source_item_not_found, text_not_outward,
  recipient_not_eligible, recipient_without_key,
}
use Prim.Native.String.{String, compare}
use text.Mathlib.Text.{is_eq}
use liminalis.Policy.{evaluate_share_creation, ShareDecision, lifetime_ms}
use liminalis.Links.{own_item, clamp_valid_until, after_minutes}
use liminalis.Retrieval.New.{insert}
use liminalis.SourceItems.{refuse_expired_item}
use liminalis.Projections.{project_share_object}
use liminalis.Retrieval.Attempts.{reference_or}

-- `findFirst` by key, owner and state.
abbrev pub active_item : Option SourceItem → Option SourceItem
active_item none = none
active_item (some row) = if is_active_item row.state then some row else none

abbrev pub named : String → User → Bool
named name user = is_eq (compare user.username name)

-- A recipient is approved and enabled.
abbrev pub eligible_recipient : Option (ℕ × User) → Option (ℕ × User)
eligible_recipient none = none
eligible_recipient (some (id, user)) =
    if user.approved && user.enabled then some (id, user) else none

abbrev pub is_current_key_of : ℕ → WrappingKey → Bool
is_current_key_of user_id key = key.user_id == user_id && key.is_current

abbrev pub newer_key : ℕ × WrappingKey → Option (ℕ × WrappingKey) → Option (ℕ × WrappingKey)
newer_key row none = some row
newer_key row (some other) = if ltb row.1.version other.1.version then some other else some row

-- The first of the rows by descending version.
unfoldable pub newest_key : Table WrappingKey → Option (ℕ × WrappingKey)
newest_key [] = none
newest_key (row ∷ rows) = newer_key row (newest_key rows)

-- The current key of an eligible recipient.
unfoldable pub current_key : String → Handler (ℕ × User × ℕ × WrappingKey)
unfolding newest_key
current_key username = do
  row ← gets (λ (db : Database). eligible_recipient (find_where (named username) db.users))
  recipient ← or_throw row (bad_request recipient_not_eligible)
  present ←
      gets
        (λ (db : Database). newest_key (find_many (is_current_key_of recipient.0) db.wrapping_keys))
  key ← or_throw present (bad_request recipient_without_key)
  pure (recipient.0, recipient.1, key.0, key.1)

pub record RecipientKey : Type 0 where
  pub recipient_user_id : ℕ
  pub username : String
  pub user_domain_public_key : ℕ
  pub key_version : ℕ

unfoldable pub get_recipient_public_key : String → Handler RecipientKey
get_recipient_public_key username = do
  found ← current_key username
  pure (record {
    recipient_user_id = found.0;
    username = found.1.username;
    user_domain_public_key = found.3.public_key;
    key_version = found.3.version;
  })

unfoldable pub get_incoming_shares : ℕ → Database → Table ShareObject
get_incoming_shares user_id db =
    find_many (λ row. row.recipient_user_id == user_id) db.share_objects

pub record CreateShare : Type 0 where
  pub source_item_id : ℕ
  pub recipient_username : String
  pub requested_validity_minutes : Option Num
  pub package_reference : Option ℕ

-- The keys of the new rows.
pub record NewShare : Type 0 where
  pub share_id : ℕ
  pub ordinary_family_id : ℕ
  pub recovery_family_id : ℕ
  pub grant_id : ℕ

abbrev pub is_trusted_of : ℕ → TrustedDevice → Bool
is_trusted_of user_id device = device.user_id == user_id && device.trusted

unfoldable pub new_share : ℕ → ℕ → SourceItem → ℕ → ℕ → ShareDecision → ShareObject
new_share now item_id item owner_user_id recipient_id decision = record {
  source_item_id = item_id;
  owner_user_id = owner_user_id;
  recipient_user_id = recipient_id;
  confidentiality_level = item.confidentiality_level;
  active = true;
  inactive_reason = none;
  policy_bundle_id = decision.policy_bundle_id;
  valid_until =
      clamp_valid_until (after_minutes now (lifetime_ms (some decision.resolved_validity_minutes)))
        item.valid_until;
  allow_repeat_download = decision.allow_repeat_download;
  allow_recipient_multi_device_access = decision.allow_recipient_multi_device_access;
  burn_after_read_enabled = item.burn_after_read_enabled;
}

abbrev pub share_family : ℕ → PackageKind → ReferenceBlob → PackageFamily
share_family share_id kind blob = record {
  source_item_id = none;
  share_object_id = some share_id;
  extraction_access_id = none;
  kind = kind;
  family_version = 1;
  reference_blob = blob;
}

unfoldable pub share_grant : NewShare → ℕ → List ℕ → Bool → AccessGrantSet
share_grant new recipient_id device_ids multi_device = record {
  source_item_id = none;
  share_object_id = some new.share_id;
  current = true;
  grant_subject_mode = if multi_device then recipient_domain else recipient_device_snapshot;
  subject_user_id = recipient_id;
  snapshot_device_ids = if multi_device then [] else device_ids;
  ordinary_package_family_id = new.ordinary_family_id;
  recovery_enabled = true;
  recovery_package_family_id = some new.recovery_family_id;
  allow_future_trusted_devices = false;
}

unfoldable pub insert_family : ℕ → PackageFamily → Handler (Unit {0})
insert_family id family =
    insert (λ db. db.package_families) (λ t db. record db { package_families = t }) id family

-- The rows that the transaction writes.
unfoldable pub insert_share : NewShare → ShareObject → List ℕ → Option ℕ → Handler (Unit {0})
unfolding insert_family share_grant
insert_share new row device_ids package_reference = transaction (do
  insert (λ db. db.share_objects) (λ t db. record db { share_objects = t }) new.share_id row
  insert_family new.ordinary_family_id (
      share_family new.share_id recipient_ordinary (
        reference_or package_reference
          (legacy_recipient_ordinary new.share_id row.source_item_id row.recipient_user_id)))
  insert_family new.recovery_family_id (
      share_family new.share_id recipient_recovery (
        reference_or package_reference
          (legacy_recipient_recovery new.share_id row.recipient_user_id)))
  insert (λ db. db.access_grant_sets) (λ t db. record db { access_grant_sets = t }) new.grant_id
      (share_grant new row.recipient_user_id device_ids row.allow_recipient_multi_device_access))

unfoldable pub create_user_targeted_share :
    ℕ → NewShare → ℕ → CreateShare → Handler (ℕ × ShareObject)
unfolding refuse_expired_item current_key insert_share new_share
create_user_targeted_share now new owner_user_id input = do
  row ← gets (λ (db : Database).
      active_item (own_item owner_user_id (find input.source_item_id db.source_items)))
  item ← or_throw row (not_found source_item_not_found)
  lift (guard (not (is_text item.content_kind)) (bad_request text_not_outward))
  refuse_expired_item now input.source_item_id item
  found ← current_key input.recipient_username
  let recipient_id : ℕ = found.0
  devices ←
      gets (λ (db : Database). keys (find_many (is_trusted_of recipient_id) db.trusted_devices))
  decision ← evaluate_share_creation (record {
    confidentiality_level = item.confidentiality_level;
    requested_validity_minutes = input.requested_validity_minutes;
  })
  let share : ShareObject =
      new_share now input.source_item_id item owner_user_id recipient_id decision
  insert_share new share devices input.package_reference
  project_share_object now new.share_id
  pure (new.share_id, share)

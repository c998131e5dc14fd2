-- ===== src/Access/Items.antt =====
-- What the owner of an item does keeps the items that have ended.
use liminalis.Common.{ℕ, ◌≡◌, refl, Bool, true, false, Option, none, some, List, [], ◌∷◌}
use liminalis.Common.Exec.Keeps.{Keeps-bind, Keeps, keeps_rules}
use liminalis.Schema.{SourceItem, SourceItemState, Database, ConfidentialityLevel, is_active_item}
use liminalis.Links.{refuse_expired}
use liminalis.SourceItems.{
  set_item, invalidate_derived, invalidate_alone, invalidate_with_shares, invalidate_derived_access,
  update_item, project_shares, project_source_and_shares, end_item, invalidate_source_item,
  refresh_owned, refresh_owned_source_item_availability, require_owned_source_item,
  get_source_item_for_owner, revoke_source_item_for_owner, end_access_if,
  change_confidentiality_for_owner, update_validity_for_owner, refuse_expired_item,
}
use liminalis.Access.Ended.{
  Ended, update-Ended, project_source_item-Keeps, project_share_object-Keeps,
  evaluate_source_creation-Keeps,
}
use liminalis.Projections.{project_share_object}

module _ (id : ℕ) where
  pub set_item-Ended :
      (key : ℕ) (patch : SourceItem → SourceItem) (db : Database)
      → ((row : SourceItem)
          → is_active_item row.state ≡ false
          → is_active_item (patch row).state ≡ false)
      → Ended id db
      → Ended id (set_item key patch db)
  unfolding set_item
  set_item-Ended key patch db keep h = update-Ended id key patch db keep h

  pub refuse_expired-Keeps :
      (now key : ℕ) (row : SourceItem) → Keeps (Ended id) (refuse_expired now key row)
  unfolding refuse_expired
  refuse_expired-Keeps now key row = search (keeps_rules, update-Ended) depth 14

  pub refuse_expired_item-Keeps :
      (now key : ℕ) (row : SourceItem) → Keeps (Ended id) (refuse_expired_item now key row)
  unfolding refuse_expired_item
  refuse_expired_item-Keeps now key row =
      search (keeps_rules, set_item-Ended, project_source_item-Keeps) depth 16

  pub invalidate_derived-Ended :
      (key : ℕ) (ids : List ℕ) (db : Database)
      → Ended id db
      → Ended id (invalidate_derived key ids db)
  unfolding invalidate_derived invalidate_alone invalidate_with_shares
  invalidate_derived-Ended key [] db h = h
  invalidate_derived-Ended key (k ∷ ks) db h = h

  invalidate_derived_access-Keeps : (key : ℕ) → Keeps (Ended id) (invalidate_derived_access key)
  unfolding invalidate_derived_access
  invalidate_derived_access-Keeps key = search (keeps_rules, invalidate_derived-Ended) depth 14

  update_item-Keeps :
      (key : ℕ) (patch : SourceItem → SourceItem)
      → ((row : SourceItem)
          → is_active_item row.state ≡ false
          → is_active_item (patch row).state ≡ false)
      → Keeps (Ended id) (update_item key patch)
  unfolding update_item
  update_item-Keeps key patch keep = search (keeps_rules, set_item-Ended, keep) depth 14

  project_shares-Keeps : (now : ℕ) (ids : List ℕ) → Keeps (Ended id) (project_shares now ids)
  unfolding project_shares
  project_shares-Keeps now [] = search keeps_rules
  project_shares-Keeps now (k ∷ ks) =
      Keeps-bind (Ended id) (project_share_object now k) _ (project_share_object-Keeps id now k)
        (λ u. project_shares-Keeps now ks)

  pub project_source_and_shares-Keeps :
      (now key : ℕ) (ids : List ℕ) → Keeps (Ended id) (project_source_and_shares now key ids)
  unfolding project_source_and_shares
  project_source_and_shares-Keeps now key ids =
      search (keeps_rules, project_source_item-Keeps, project_shares-Keeps) depth 12

  invalidate_source_item-Keeps :
      (now key : ℕ) (state : SourceItemState)
      → is_active_item state ≡ false
      → Keeps (Ended id) (invalidate_source_item now key state)
  unfolding invalidate_source_item end_item
  invalidate_source_item-Keeps now key state ended =
      search
        (
          keeps_rules, update_item-Keeps, invalidate_derived_access-Keeps,
          project_source_and_shares-Keeps, ended,
        )
        depth 16

  expire-Keeps :
      (now key : ℕ) → Keeps (Ended id) (invalidate_source_item now key SourceItemState.expired)
  expire-Keeps now key = invalidate_source_item-Keeps now key SourceItemState.expired refl

  end-Keeps :
      (now key : ℕ) → Keeps (Ended id) (invalidate_source_item now key SourceItemState.invalidated)
  end-Keeps now key = invalidate_source_item-Keeps now key SourceItemState.invalidated refl

  refresh_owned-Keeps :
      (now key : ℕ) (row : Option SourceItem) → Keeps (Ended id) (refresh_owned now key row)
  unfolding refresh_owned
  refresh_owned-Keeps now key none = search keeps_rules
  refresh_owned-Keeps now key (some row) = search (keeps_rules, expire-Keeps)

  refresh_owned_source_item_availability-Keeps :
      (now user_id key : ℕ)
      → Keeps (Ended id) (refresh_owned_source_item_availability now user_id key)
  unfolding refresh_owned_source_item_availability
  refresh_owned_source_item_availability-Keeps now user_id key =
      search (keeps_rules, refresh_owned-Keeps) depth 12

  require_owned-Keeps : (user_id key : ℕ) → Keeps (Ended id) (require_owned_source_item user_id key)
  unfolding require_owned_source_item
  require_owned-Keeps user_id key = search keeps_rules depth 12

  pub get_source_item_for_owner-Keeps :
      (now user_id key : ℕ) → Keeps (Ended id) (get_source_item_for_owner now user_id key)
  unfolding get_source_item_for_owner
  get_source_item_for_owner-Keeps now user_id key =
      search (keeps_rules, refresh_owned_source_item_availability-Keeps, require_owned-Keeps) depth
        12

  pub revoke_source_item_for_owner-Keeps :
      (now user_id key : ℕ) → Keeps (Ended id) (revoke_source_item_for_owner now user_id key)
  unfolding revoke_source_item_for_owner
  revoke_source_item_for_owner-Keeps now user_id key =
      search (keeps_rules, require_owned-Keeps, get_source_item_for_owner-Keeps, end-Keeps) depth 16

  end_access_if-Keeps : (b : Bool) (key : ℕ) → Keeps (Ended id) (end_access_if b key)
  unfolding end_access_if
  end_access_if-Keeps true key = invalidate_derived_access-Keeps key
  end_access_if-Keeps false key = search keeps_rules

  pub change_confidentiality_for_owner-Keeps :
      (now user_id key : ℕ) (level : ConfidentialityLevel)
      → Keeps (Ended id) (change_confidentiality_for_owner now user_id key level)
  unfolding change_confidentiality_for_owner
  change_confidentiality_for_owner-Keeps now user_id key level =
      search
        (
          keeps_rules, require_owned-Keeps, evaluate_source_creation-Keeps, update_item-Keeps,
          end_access_if-Keeps, project_source_and_shares-Keeps, get_source_item_for_owner-Keeps,
        )
        depth 30

  pub update_validity_for_owner-Keeps :
      (now user_id key : ℕ) (minutes : Option ℕ)
      → Keeps (Ended id) (update_validity_for_owner now user_id key minutes)
  unfolding update_validity_for_owner
  update_validity_for_owner-Keeps now user_id key minutes =
      search
        (
          keeps_rules, require_owned-Keeps, update_item-Keeps, project_source_item-Keeps,
          get_source_item_for_owner-Keeps,
        )
        depth 24

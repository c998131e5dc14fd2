-- ===== src/Access/Ended.antt =====
-- An item that is not active stays so.
use liminalis.Common.{ℕ, ◌≡◌, refl, inl, inr, false, Option, none, some, Bool-cases, ◌==◌}
use liminalis.Common.Exec.Keeps.{Keeps, keeps_rules}
use liminalis.Common.Table.{find, find-update, update}
use liminalis.Schema.{SourceItem, ShareObject, Database, ConfidentialityLevel, is_active_item}
use liminalis.Policy.Current.{get_current_bundle}
use liminalis.Policy.{
  evaluate_source_creation, evaluate_share_creation, evaluate_extraction_creation,
  evaluate_public_link_creation, SourceInput, ShareInput, ExtractionInput, PublicLinkInput,
}
use liminalis.Projections.{
  project_item, project_source_item, project_share, project_share_object, store_projections,
  remove_projections,
}

module _ (id : ℕ) where
  -- The item is there and not active.
  abbrev pub Ended : Database → Type 0
  Ended db =
      (row : SourceItem) × (find id db.source_items ≡ some row) × (is_active_item row.state ≡ false)

  pub update-Ended :
      (key : ℕ) (patch : SourceItem → SourceItem) (db : Database)
      → ((row : SourceItem)
          → is_active_item row.state ≡ false
          → is_active_item (patch row).state ≡ false)
      → Ended db
      → Ended (record db { source_items = update key patch db.source_items })
  update-Ended key patch db keep (row, found, ended) = elim (Bool-cases (key == id)) [
    | inl e ↦ (patch row, rw (find-update, e, found) refl, keep row ended)
    | inr e ↦ (row, rw (find-update, e, found) refl, ended)
  ]

  project_item-Keeps :
      (now key : ℕ) (row : Option SourceItem) → Keeps Ended (project_item now key row)
  unfolding project_item store_projections remove_projections
  project_item-Keeps now key none = search keeps_rules depth 12
  project_item-Keeps now key (some row) = search keeps_rules depth 14

  pub project_source_item-Keeps : (now key : ℕ) → Keeps Ended (project_source_item now key)
  unfolding project_source_item
  project_source_item-Keeps now key = search (keeps_rules, project_item-Keeps) depth 12

  project_share-Keeps :
      (now key : ℕ) (row : Option ShareObject) → Keeps Ended (project_share now key row)
  unfolding project_share store_projections
  project_share-Keeps now key none = search keeps_rules depth 12
  project_share-Keeps now key (some row) = search keeps_rules depth 16

  pub project_share_object-Keeps : (now key : ℕ) → Keeps Ended (project_share_object now key)
  unfolding project_share_object
  project_share_object-Keeps now key = search (keeps_rules, project_share-Keeps) depth 12

  get_current_bundle-Keeps : (level : ConfidentialityLevel) → Keeps Ended (get_current_bundle level)
  unfolding get_current_bundle
  get_current_bundle-Keeps level = search keeps_rules depth 12

  pub evaluate_source_creation-Keeps :
      (input : SourceInput) → Keeps Ended (evaluate_source_creation input)
  unfolding evaluate_source_creation
  evaluate_source_creation-Keeps input = search (keeps_rules, get_current_bundle-Keeps) depth 12

  pub evaluate_share_creation-Keeps :
      (input : ShareInput) → Keeps Ended (evaluate_share_creation input)
  unfolding evaluate_share_creation
  evaluate_share_creation-Keeps input = search (keeps_rules, get_current_bundle-Keeps) depth 12

  pub evaluate_extraction_creation-Keeps :
      (input : ExtractionInput) → Keeps Ended (evaluate_extraction_creation input)
  unfolding evaluate_extraction_creation
  evaluate_extraction_creation-Keeps input = search (keeps_rules, get_current_bundle-Keeps) depth 12

  pub evaluate_public_link_creation-Keeps :
      (input : PublicLinkInput) → Keeps Ended (evaluate_public_link_creation input)
  unfolding evaluate_public_link_creation
  evaluate_public_link_creation-Keeps input =
      search (keeps_rules, get_current_bundle-Keeps) depth 12

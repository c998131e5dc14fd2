-- ===== src/Access/Retrievals.antt =====
-- What owners and recipients retrieve keeps the items that have ended.
use liminalis.Common.{
  Bool-cases, if◌then◌else◌, inl, inr, ℕ, String, Bool, true, false, Option, none, some, List,
}
use liminalis.Common.Exec.Keeps.{Keeps, keeps_rules}
use liminalis.Schema.{
  SourceItem, ShareObject, InactiveReason, AccessGrantSet, PackageKind, PackageFamily,
  RetrievalAttempt, Database,
}
use liminalis.Retrieval.New.{insert-Keeps}
use liminalis.Retrieval.Attempts.{set_attempt}
use liminalis.Retrieval.Families.{
  load_family, recovery_family, select_family, select_owner_package_family,
  select_recipient_package_family,
}
use liminalis.Retrieval.{
  upsert_source_owner_attempt, issue_source_item_retrieval, burn, project_related_item,
  store_owner_completion, complete_source_item_retrieval, create_stored_download,
}
use liminalis.Shares.{
  current_key, NewShare, CreateShare, insert_family, insert_share, create_user_targeted_share,
  set_share, end_share, invalidate_share_from_source, refuse_ended_share, issue_recipient_retrieval,
  consume_share, store_recipient_completion, project_related_share, complete_recipient_retrieval,
}
use liminalis.Access.Ended.{
  Ended, project_source_item-Keeps, project_share_object-Keeps, evaluate_share_creation-Keeps,
}
use liminalis.Access.Items.{set_item-Ended, refuse_expired-Keeps, refuse_expired_item-Keeps}
use liminalis.Access.Extractions.{upserted, ensured}

module _ (id : ℕ) where
  load_family-Keeps : (kind : PackageKind) (key : ℕ) → Keeps (Ended id) (load_family kind key)
  unfolding load_family
  load_family-Keeps kind key = search keeps_rules depth 12

  recovery_family-Keeps :
      (kind : PackageKind) (b : Bool) (key : Option ℕ)
      → Keeps (Ended id) (recovery_family kind b key)
  unfolding recovery_family
  recovery_family-Keeps kind true (some key) = load_family-Keeps kind key
  recovery_family-Keeps kind true none = search keeps_rules
  recovery_family-Keeps kind false (some key) = search keeps_rules
  recovery_family-Keeps kind false none = search keeps_rules

  select_family-Keeps :
      (snapshot : Bool) (kinds : PackageKind × PackageKind) (user_id device_id : ℕ)
      (grant : AccessGrantSet)
      → Keeps (Ended id) (select_family snapshot kinds user_id device_id grant)
  unfolding select_family
  select_family-Keeps snapshot kinds user_id device_id grant =
      search (keeps_rules, load_family-Keeps, recovery_family-Keeps) depth 14

  select_owner-Keeps :
      (user_id device_id : ℕ) (grant : AccessGrantSet)
      → Keeps (Ended id) (select_owner_package_family user_id device_id grant)
  unfolding select_owner_package_family
  select_owner-Keeps user_id device_id grant = select_family-Keeps _ _ user_id device_id grant

  select_recipient-Keeps :
      (user_id device_id : ℕ) (grant : AccessGrantSet)
      → Keeps (Ended id) (select_recipient_package_family user_id device_id grant)
  unfolding select_recipient_package_family
  select_recipient-Keeps user_id device_id grant = select_family-Keeps _ _ user_id device_id grant

  pub issue_source_item_retrieval-Keeps :
      (now : ℕ) (new : ℕ × ℕ) (user_id : ℕ) (device : Option ℕ) (item_id scope_key : ℕ)
      → Keeps (Ended id) (issue_source_item_retrieval now new user_id device item_id scope_key)
  unfolding issue_source_item_retrieval upsert_source_owner_attempt
  issue_source_item_retrieval-Keeps now new user_id device item_id scope_key =
      search (keeps_rules, refuse_expired-Keeps, select_owner-Keeps, upserted, ensured) depth 30

  burn-Keeps : (key : Option ℕ) (row : Option SourceItem) → Keeps (Ended id) (burn key row)
  unfolding burn
  burn-Keeps (some key) (some row) = search (keeps_rules, set_item-Ended) depth 14
  burn-Keeps (some key) none = search keeps_rules
  burn-Keeps none (some row) = search keeps_rules
  burn-Keeps none none = search keeps_rules

  store_owner_completion-Keeps :
      (now key : ℕ) (attempt : RetrievalAttempt)
      → Keeps (Ended id) (store_owner_completion now key attempt)
  unfolding store_owner_completion set_attempt
  store_owner_completion-Keeps now key attempt = search (keeps_rules, burn-Keeps) depth 16

  project_related_item-Keeps :
      (now : ℕ) (key : Option ℕ) → Keeps (Ended id) (project_related_item now key)
  unfolding project_related_item
  project_related_item-Keeps now none = search keeps_rules
  project_related_item-Keeps now (some key) = project_source_item-Keeps id now key

  pub complete_source_item_retrieval-Keeps :
      (now user_id : ℕ) (device : Option ℕ) (attempt_id : ℕ) (success : Bool)
      → Keeps (Ended id) (complete_source_item_retrieval now user_id device attempt_id success)
  unfolding complete_source_item_retrieval set_attempt
  complete_source_item_retrieval-Keeps now user_id device attempt_id success =
      search (keeps_rules, store_owner_completion-Keeps, project_related_item-Keeps) depth 30

  pub create_stored_download-Keeps :
      (now user_id : ℕ) (device : Option ℕ) (attempt_id : ℕ)
      → Keeps (Ended id) (create_stored_download now user_id device attempt_id)
  unfolding create_stored_download
  create_stored_download-Keeps now user_id device attempt_id =
      search (keeps_rules, refuse_expired_item-Keeps) depth 30

  current_key-Keeps : (username : String) → Keeps (Ended id) (current_key username)
  unfolding current_key
  current_key-Keeps username = search keeps_rules depth 14

  insert_family-Keeps :
      (key : ℕ) (family : PackageFamily) → Keeps (Ended id) (insert_family key family)
  unfolding insert_family
  insert_family-Keeps key family = search insert-Keeps

  insert_share-Keeps :
      (new : NewShare) (row : ShareObject) (devices : List ℕ) (reference : Option ℕ)
      → Keeps (Ended id) (insert_share new row devices reference)
  unfolding insert_share
  insert_share-Keeps new row devices reference =
      search (keeps_rules, insert-Keeps, insert_family-Keeps) depth 16

  pub create_user_targeted_share-Keeps :
      (now : ℕ) (new : NewShare) (owner : ℕ) (input : CreateShare)
      → Keeps (Ended id) (create_user_targeted_share now new owner input)
  unfolding create_user_targeted_share
  create_user_targeted_share-Keeps now new owner input =
      search
        (
          keeps_rules, refuse_expired_item-Keeps, current_key-Keeps, evaluate_share_creation-Keeps,
          insert_share-Keeps, project_share_object-Keeps,
        )
        depth 40

  end_share-Keeps :
      (now key : ℕ) (reason : InactiveReason) → Keeps (Ended id) (end_share now key reason)
  unfolding end_share set_share
  end_share-Keeps now key reason = search (keeps_rules, project_share_object-Keeps) depth 14

  refuse_ended_share-Keeps :
      (now key : ℕ) (row : ShareObject) (item : SourceItem)
      → Keeps (Ended id) (refuse_ended_share now key row item)
  unfolding refuse_ended_share invalidate_share_from_source
  refuse_ended_share-Keeps now key row item = search (keeps_rules, end_share-Keeps) depth 20

  pub issue_recipient_retrieval-Keeps :
      (now : ℕ) (new : ℕ × ℕ) (user_id : ℕ) (device : Option ℕ) (share_id scope_key : ℕ)
      → Keeps (Ended id) (issue_recipient_retrieval now new user_id device share_id scope_key)
  unfolding issue_recipient_retrieval
  issue_recipient_retrieval-Keeps now new user_id device share_id scope_key =
      search (keeps_rules, refuse_ended_share-Keeps, select_recipient-Keeps, upserted, ensured)
        depth 40

  consume_share-Ended :
      (key : Option ℕ) (row : Option ShareObject) (db : Database)
      → Ended id db
      → Ended id (consume_share key row db)
  unfolding consume_share set_share
  consume_share-Ended (some key) (some row) db h = elim (Bool-cases row.allow_repeat_download) [
    | inl e ↦ rw (e, if◌then◌else◌) h
    | inr e ↦ rw (e, if◌then◌else◌) h
  ]
  consume_share-Ended (some key) none db h = h
  consume_share-Ended none (some row) db h = h
  consume_share-Ended none none db h = h

  store_recipient_completion-Keeps :
      (now key : ℕ) (attempt : RetrievalAttempt)
      → Keeps (Ended id) (store_recipient_completion now key attempt)
  unfolding store_recipient_completion set_attempt
  store_recipient_completion-Keeps now key attempt =
      search (keeps_rules, consume_share-Ended) depth 16

  project_related_share-Keeps :
      (now : ℕ) (key : Option ℕ) → Keeps (Ended id) (project_related_share now key)
  unfolding project_related_share
  project_related_share-Keeps now none = search keeps_rules
  project_related_share-Keeps now (some key) = project_share_object-Keeps id now key

  pub complete_recipient_retrieval-Keeps :
      (now user_id : ℕ) (device : Option ℕ) (attempt_id : ℕ) (success : Bool)
      → Keeps (Ended id) (complete_recipient_retrieval now user_id device attempt_id success)
  unfolding complete_recipient_retrieval set_attempt
  complete_recipient_retrieval-Keeps now user_id device attempt_id success =
      search (keeps_rules, store_recipient_completion-Keeps, project_related_share-Keeps) depth 40

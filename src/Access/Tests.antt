-- ===== src/Access/Tests.antt =====
-- Concrete items with their shares and extractions, and the theorems on every access at them.
use liminalis.Common.{is_some, ◌↔◌, ℕ, ◌≡◌, refl, true, false, none, some, List, [], ◌∷◌}
use liminalis.Common.Exec.{ok, is_ok}
use liminalis.Common.Table.{find, find_many, keys}
use liminalis.Schema.{
  User, SourceItem, SourceItemState, ShareObject, RetrievalAttempt, share_object_recipient,
  in_progress, ExtractionAccess, TimelineItem, ExtractionState, Database, secret, item,
}
use liminalis.Links.Tests.{file_item}
use liminalis.Links.Requests.{downloads}
use liminalis.SourceItems.{
  share_of, end_item, invalidated_access, invalidate_derived_access, revoke_source_item_for_owner,
}
use liminalis.SourceItems.Invalidation.{IsCleared, end_item-IsCleared}
use liminalis.Projections.{project_source_item}
use liminalis.Projections.Consistency.{listed, Available, IsListing, project_source_item-listed}
use liminalis.Shares.{issue_recipient_retrieval, complete_recipient_retrieval}
use liminalis.Shares.Consumption.{complete_recipient_retrieval-consumes}
use liminalis.Extraction.{SubmitPassword, complete_extraction_retrieval}
use liminalis.Extraction.Requests.{submits}
use liminalis.Extraction.Tests.{extracted, access, under_way, toy_hash, toy_verify}
use liminalis.Access.Requests.{
  AccessRequest, link, extraction, retrieves, receives, shows, revokes, prolongs, ever_discloses,
}
use liminalis.Access.Closed.{serve_accesses-closed}
use liminalis.Access.Endings.{revoke_source_item_for_owner-closes}
use liminalis.Access.Revival.{invalidate_derived_access-revived}

abbrev owner : User
owner = record { username = "ada"; enabled = true; approved = true; storage_quota_bytes = none }

abbrev shared_row : ShareObject
shared_row = record {
  source_item_id = 5;
  owner_user_id = 1;
  recipient_user_id = 2;
  confidentiality_level = secret;
  active = true;
  inactive_reason = none;
  policy_bundle_id = 1;
  valid_until = none;
  allow_repeat_download = false;
  allow_recipient_multi_device_access = true;
  burn_after_read_enabled = false;
}

abbrev received_attempt : RetrievalAttempt
received_attempt = record {
  retrieval_family = share_object_recipient;
  target_object_id = 10;
  source_item_id = none;
  share_object_id = some 10;
  extraction_access_id = none;
  requesting_user_id = some 2;
  requesting_device_id = some 12;
  status = in_progress;
  attempt_scope_key = 1;
  package_reference_id = none;
  completed_at = none;
}

abbrev shared : Database
shared = record extracted {
  users = (1, owner) ∷ [];
  share_objects = (10, shared_row) ∷ [];
  retrieval_attempts = (11, received_attempt) ∷ (9, under_way) ∷ [];
}

abbrev purged_item : SourceItem
purged_item = record file_item { state = SourceItemState.purged; burn_after_read_enabled = true }

abbrev purged : Database
purged = record shared { source_items = (5, purged_item) ∷ [] }

abbrev submission : SubmitPassword
submission = record { password = 1 ∷ 2 ∷ 3 ∷ []; captcha_satisfied = true }

-- Every way to the item.
abbrev ways : List (ℕ × AccessRequest)
ways =
    (10, link (downloads 31 301 600))
    ∷ (11, extraction (submits (20, 21) 700 2 submission))
    ∷ (12, retrieves (22, 23) 1 (some 13) 5 4)
    ∷ (13, receives (24, 25) 2 (some 12) 10 4)
    ∷ (14, shows 2 5)
    ∷ (15, shows 1 5)
    ∷ (16, revokes 1 5)
    ∷ (17, prolongs 1 5 none)
    ∷ []

serve_accesses-closed_example : ever_discloses toy_hash toy_verify 5 ways purged ≡ false
unfolding find
serve_accesses-closed_example =
    serve_accesses-closed toy_hash toy_verify 5 ways purged (purged_item, refl, refl)

revoke_source_item_for_owner-closes_example :
    ever_discloses toy_hash toy_verify 5 ways (revoke_source_item_for_owner 9 1 5 shared).1 ≡ false
unfolding find
revoke_source_item_for_owner-closes_example =
    revoke_source_item_for_owner-closes toy_hash toy_verify 9 1 5 file_item shared ways refl refl
      refl

end_item-IsCleared_example :
    let ended = end_item 5 SourceItemState.invalidated shared in
    (ended.0 ≡ ok (keys (find_many (share_of 5) shared.share_objects)))
    × IsCleared 5 (keys (find_many (share_of 5) shared.share_objects)) ended.1
unfolding find
end_item-IsCleared_example = end_item-IsCleared 5 SourceItemState.invalidated shared refl

invalidate_derived_access-revived_example :
    let ended = (invalidate_derived_access 5 shared).1 in
    (find 7 ended.extraction_accesses ≡ some (invalidated_access access))
    × ((row : ExtractionAccess) × (find 7
            (complete_extraction_retrieval 10 9 true ended).1.extraction_accesses
          ≡ some row)
        × (row.state ≡ ExtractionState.active))
unfolding find
invalidate_derived_access-revived_example =
    invalidate_derived_access-revived 10 9 7 under_way access shared refl refl refl refl refl refl

complete_recipient_retrieval-consumes_example :
    is_ok
      (issue_recipient_retrieval 20
        (40, 41)
        2
        (some 14)
        10
        2
        (complete_recipient_retrieval 10 2 (some 12) 11 true shared).1).0
    ≡ false
unfolding find
complete_recipient_retrieval-consumes_example =
    complete_recipient_retrieval-consumes 10 2 12 11 10 received_attempt shared_row shared refl refl
      refl refl refl 20 (40, 41) 2 (some 14) 2

project_source_item-listed_example :
    let after = (project_source_item 10 5 shared).1 in
    ((is_some (listed 1 (item 5) after) ≡ true) ↔ Available 10 file_item)
    × ((listing : TimelineItem)
        → listed 1 (item 5) after ≡ some listing
        → IsListing 5 file_item owner listing)
unfolding find
project_source_item-listed_example =
    project_source_item-listed 10 5 file_item owner shared refl refl tt

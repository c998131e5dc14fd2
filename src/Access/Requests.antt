-- ===== src/Access/Requests.antt =====
-- The requests to all the services of an item as one step function.
use liminalis.Common.{
  is_some, not, ◌&&◌, ◌==◌, none, some, false, ◌||◌, ℕ, Bool, Option, List, [], ◌∷◌,
}
use liminalis.Schema.{SourceItem, Reason, PublicLink, Database, ConfidentialityLevel}
use liminalis.Links.{own_item}
use liminalis.Links.Requests.{LinkEvent, delivered, downloads, redeems, LinkRequest, serve_link}
use liminalis.Extraction.Requests.{submits, ExtractionRequest, serve_extraction}
use liminalis.SourceItems.{
  get_source_item_for_owner, revoke_source_item_for_owner, change_confidentiality_for_owner,
  update_validity_for_owner,
}
use liminalis.Retrieval.{
  StoredDownload, IssuedRetrieval, issue_source_item_retrieval, complete_source_item_retrieval,
  create_stored_download,
}
use liminalis.Shares.{
  NewShare, CreateShare, create_user_targeted_share, issue_recipient_retrieval,
  complete_recipient_retrieval,
}
use liminalis.Common.Exec.{Result, ok, err}
use liminalis.Common.Table.{find}
use liminalis.Extraction.{
  ExtractionDownload, create_download_stream, ExtractionPackage, submit_password,
}
use liminalis.Retrieval.Families.{is_key}

pub data AccessRequest : Type 0 where
  link : LinkRequest → AccessRequest
  extraction : ExtractionRequest → AccessRequest
  shows revokes : (user_id item_id : ℕ) → AccessRequest
  raises : (user_id item_id : ℕ) → ConfidentialityLevel → AccessRequest
  prolongs : (user_id item_id : ℕ) → Option ℕ → AccessRequest
  retrieves : ℕ × ℕ → (user_id : ℕ) → Option ℕ → (item_id scope_key : ℕ) → AccessRequest
  retrieved : (user_id : ℕ) → Option ℕ → (attempt_id : ℕ) → Bool → AccessRequest
  loads : (user_id : ℕ) → Option ℕ → (attempt_id : ℕ) → AccessRequest
  shares : NewShare → (owner_user_id : ℕ) → CreateShare → AccessRequest
  receives : ℕ × ℕ → (user_id : ℕ) → Option ℕ → (share_id scope_key : ℕ) → AccessRequest
  received : (user_id : ℕ) → Option ℕ → (attempt_id : ℕ) → Bool → AccessRequest

-- `hash` and `verify` are those of argon2; the first component of a request is the time.
module _ (hash : ℕ → List ℕ → ℕ) (verify : ℕ → List ℕ → Bool) where
  unfoldable pub serve_access : ℕ × AccessRequest → Database → Database
  serve_access (now, link r) db = (serve_link (now, r) db).1
  serve_access (now, extraction r) db = serve_extraction hash verify (now, r) db
  serve_access (now, shows user_id item_id) db =
      (get_source_item_for_owner now user_id item_id db).1
  serve_access (now, revokes user_id item_id) db =
      (revoke_source_item_for_owner now user_id item_id db).1
  serve_access (now, raises user_id item_id level) db =
      (change_confidentiality_for_owner now user_id item_id level db).1
  serve_access (now, prolongs user_id item_id minutes) db =
      (update_validity_for_owner now user_id item_id minutes db).1
  serve_access (now, retrieves new user_id device item_id scope_key) db =
      (issue_source_item_retrieval now new user_id device item_id scope_key db).1
  serve_access (now, retrieved user_id device attempt_id success) db =
      (complete_source_item_retrieval now user_id device attempt_id success db).1
  serve_access (now, loads user_id device attempt_id) db =
      (create_stored_download now user_id device attempt_id db).1
  serve_access (now, shares new owner input) db =
      (create_user_targeted_share now new owner input db).1
  serve_access (now, receives new user_id device share_id scope_key) db =
      (issue_recipient_retrieval now new user_id device share_id scope_key db).1
  serve_access (now, received user_id device attempt_id success) db =
      (complete_recipient_retrieval now user_id device attempt_id success db).1

  unfoldable pub serve_accesses : List (ℕ × AccessRequest) → Database → Database
  serve_accesses [] db = db
  serve_accesses (r ∷ rs) db = serve_accesses rs (serve_access r db)

-- The item that an answer hands out, by its key.
abbrev pub issued_item : Result Reason IssuedRetrieval → Option ℕ
issued_item (ok issued) = some issued.source_item_id
issued_item (err e) = none

abbrev pub submitted_item : Result Reason ExtractionPackage → Option ℕ
submitted_item (ok handed) = some handed.source_item_id
submitted_item (err e) = none

abbrev pub managed_item : ℕ → Result Reason SourceItem → Option ℕ
managed_item id (ok row) = some id
managed_item id (err e) = none

abbrev pub stored_item : Result Reason StoredDownload → Option ℕ
stored_item (ok download) = some download.source_item_id
stored_item (err e) = none

abbrev pub extracted_item : Result Reason ExtractionDownload → Option ℕ
extracted_item (ok download) = some download.source_item_id
extracted_item (err e) = none

abbrev pub source_of_link : Option PublicLink → Option ℕ
source_of_link none = none
source_of_link (some row) = some row.source_item_id

abbrev pub delivered_item : LinkEvent → Database → Option ℕ
delivered_item (delivered id) db = source_of_link (find id db.public_links)
delivered_item _ db = none

-- What the answers to a request have of an item: its package, or its row with the packages. No other
-- answer has either.
unfoldable pub hands_out : (ℕ → List ℕ → Bool) → ℕ × AccessRequest → Database → Option ℕ
hands_out verify (now, link (downloads ticket_id token link_token)) db =
    delivered_item (serve_link (now, downloads ticket_id token link_token) db).0 db
hands_out verify (now, link (redeems token)) db =
    delivered_item (serve_link (now, redeems token) db).0 db
hands_out verify (now, extraction (submits new token scope_key input)) db =
    submitted_item (submit_password verify now new token scope_key input db).0
hands_out verify (now, retrieves new user_id device item_id scope_key) db =
    issued_item (issue_source_item_retrieval now new user_id device item_id scope_key db).0
hands_out verify (now, receives new user_id device share_id scope_key) db =
    issued_item (issue_recipient_retrieval now new user_id device share_id scope_key db).0
hands_out verify (now, loads user_id device attempt_id) db =
    stored_item (create_stored_download now user_id device attempt_id db).0
hands_out verify (now, extraction (ExtractionRequest.downloads attempt_id)) db =
    extracted_item (create_download_stream now attempt_id db).0
hands_out verify (now, shows user_id item_id) db =
    managed_item item_id (get_source_item_for_owner now user_id item_id db).0
hands_out verify (now, revokes user_id item_id) db =
    managed_item item_id (revoke_source_item_for_owner now user_id item_id db).0
hands_out verify (now, raises user_id item_id level) db =
    managed_item item_id (change_confidentiality_for_owner now user_id item_id level db).0
hands_out verify (now, prolongs user_id item_id minutes) db =
    managed_item item_id (update_validity_for_owner now user_id item_id minutes db).0
hands_out verify _ db = none

-- A request of the owner to see or to revoke the item.
abbrev pub shows_to_owner : ℕ → AccessRequest → Database → Bool
shows_to_owner id (shows user_id item_id) db =
    item_id == id && is_some (own_item user_id (find item_id db.source_items))
shows_to_owner id (revokes user_id item_id) db =
    item_id == id && is_some (own_item user_id (find item_id db.source_items))
shows_to_owner id _ db = false

-- Whether the answer to a request has an item, other than by showing it to its owner.
unfoldable pub discloses : (ℕ → List ℕ → Bool) → ℕ → ℕ × AccessRequest → Database → Bool
unfolding hands_out
discloses verify id r db = is_key id (hands_out verify r db) && not (shows_to_owner id r.1 db)

-- Whether an answer of a history discloses an item.
unfoldable pub ever_discloses :
    (ℕ → List ℕ → ℕ) → (ℕ → List ℕ → Bool) → ℕ → List (ℕ × AccessRequest) → Database → Bool
ever_discloses hash verify id [] db = false
ever_discloses hash verify id (r ∷ rs) db =
    discloses verify id r db || ever_discloses hash verify id rs (serve_access hash verify r db)

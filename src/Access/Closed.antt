-- ===== src/Access/Closed.antt =====
-- An item that has ended is handed out on no way any more.
use liminalis.Common.{not, ◌&&◌, ℕ, ◌≡◌, refl, Bool, false, Option, List, [], ◌∷◌}
use liminalis.Schema.{Database}
use liminalis.Links.Requests.{
  LinkRequest, creates, downloads, finishes, releases, redeems, issues, serve_link,
}
use liminalis.Links.Served.{create_public_download-Downloaded, redeem_delivery_ticket-Delivered}
use liminalis.Links.{create_public_download, redeem_delivery_ticket}
use liminalis.Extraction.{create_download_stream, submit_password}
use liminalis.Extraction.Requests.{enters, completes, ExtractionRequest, submits}
use liminalis.Extraction.Secrecy.{submit_password-HandedOut}
use liminalis.Retrieval.{create_stored_download, issue_source_item_retrieval}
use liminalis.Retrieval.Families.{is_key}
use liminalis.Shares.{issue_recipient_retrieval}
use liminalis.Access.Requests.{
  AccessRequest, link, extraction, shows, revokes, raises, prolongs, retrieves, retrieved, loads,
  shares, receives, received, serve_access, hands_out, discloses, ever_discloses,
}
use liminalis.Access.Deliveries.{
  ActiveAt, Issued-ActiveAt, Downloaded-ActiveAt, redeemed-ActiveAt, submitted-ActiveAt,
  stored-ActiveAt, Extracted-ActiveAt, ended-ActiveAt,
}
use liminalis.Access.Management
use liminalis.Access.Ended.{Ended}
use liminalis.Access.Issued.{issue_source_item_retrieval-Issued, issue_recipient_retrieval-Issued}
use liminalis.Access.Items
use liminalis.Access.Links
use liminalis.Access.Extractions.{serve_extraction-Ended}
use liminalis.Access.Retrievals
use liminalis.Access.Loaded.{create_stored_download-Loaded, create_download_stream-Extracted}

module _ (id : ℕ) where
  serve_link-Ended :
      (r : ℕ × LinkRequest) (db : Database) → Ended id db → Ended id (serve_link r db).1
  unfolding serve_link
  serve_link-Ended (now, creates key token owner input) db h =
      (Links.create_public_link-Keeps id now key token owner input).at db h
  serve_link-Ended (now, downloads key token link_token) db h =
      (Links.create_public_download-Keeps id now key token link_token).at db h
  serve_link-Ended (now, finishes token) db h =
      (Links.finish_public_download-Keeps id now token).at db h
  serve_link-Ended (now, releases token) db h =
      (Links.release_public_download-Keeps id now token).at db h
  serve_link-Ended (now, redeems token) db h =
      (Links.redeem_delivery_ticket-Keeps id now token).at db h
  serve_link-Ended (now, issues key token link_token) db h =
      (Links.issue_delivery_ticket-Keeps id now key token link_token).at db h

  closed :
      (db : Database) (o : Option ℕ)
      → Ended id db
      → ActiveAt db o
      → is_key id o && not false ≡ false
  closed db o ended active = rw (ended-ActiveAt id db o ended active) refl

  module _ (hash : ℕ → List ℕ → ℕ) (verify : ℕ → List ℕ → Bool) where
    serve_access-Ended :
        (r : ℕ × AccessRequest) (db : Database)
        → Ended id db
        → Ended id (serve_access hash verify r db)
    unfolding serve_access
    serve_access-Ended (now, link r) db h = serve_link-Ended (now, r) db h
    serve_access-Ended (now, extraction r) db h =
        serve_extraction-Ended id hash verify (now, r) db h
    serve_access-Ended (now, shows user_id key) db h =
        (Items.get_source_item_for_owner-Keeps id now user_id key).at db h
    serve_access-Ended (now, revokes user_id key) db h =
        (Items.revoke_source_item_for_owner-Keeps id now user_id key).at db h
    serve_access-Ended (now, raises user_id key level) db h =
        (Items.change_confidentiality_for_owner-Keeps id now user_id key level).at db h
    serve_access-Ended (now, prolongs user_id key minutes) db h =
        (Items.update_validity_for_owner-Keeps id now user_id key minutes).at db h
    serve_access-Ended (now, retrieves new user_id device key scope_key) db h =
        (Retrievals.issue_source_item_retrieval-Keeps id now new user_id device key scope_key).at db
          h
    serve_access-Ended (now, retrieved user_id device attempt_id success) db h =
        (Retrievals.complete_source_item_retrieval-Keeps id now user_id device attempt_id
            success).at
          db h
    serve_access-Ended (now, loads user_id device attempt_id) db h =
        (Retrievals.create_stored_download-Keeps id now user_id device attempt_id).at db h
    serve_access-Ended (now, shares new owner input) db h =
        (Retrievals.create_user_targeted_share-Keeps id now new owner input).at db h
    serve_access-Ended (now, receives new user_id device key scope_key) db h =
        (Retrievals.issue_recipient_retrieval-Keeps id now new user_id device key scope_key).at db h
    serve_access-Ended (now, received user_id device attempt_id success) db h =
        (Retrievals.complete_recipient_retrieval-Keeps id now user_id device attempt_id success).at
          db h

    discloses-Ended :
        (r : ℕ × AccessRequest) (db : Database) → Ended id db → discloses verify id r db ≡ false
    unfolding discloses hands_out
    discloses-Ended (now, link (creates key token owner input)) db h = refl
    discloses-Ended (now, link (downloads key token link_token)) db h =
        unfold serve_link in
        closed db _ h (
          Downloaded-ActiveAt db (create_public_download now key token link_token db)
            (create_public_download-Downloaded db now key token link_token))
    discloses-Ended (now, link (finishes token)) db h = refl
    discloses-Ended (now, link (releases token)) db h = refl
    discloses-Ended (now, link (redeems token)) db h =
        unfold serve_link in
        closed db _ h (
          redeemed-ActiveAt db (redeem_delivery_ticket now token db)
            (redeem_delivery_ticket-Delivered db now token))
    discloses-Ended (now, link (issues key token link_token)) db h = refl
    discloses-Ended (now, extraction (ExtractionRequest.creates new owner input)) db h = refl
    discloses-Ended (now, extraction (enters token)) db h = refl
    discloses-Ended (now, extraction (submits new token scope_key input)) db h = closed db _ h (
        submitted-ActiveAt verify now token input db
          (submit_password verify now new token scope_key input db)
          (submit_password-HandedOut verify now token input db new scope_key))
    discloses-Ended (now, extraction (completes attempt_id success)) db h = refl
    discloses-Ended (now, extraction (ExtractionRequest.downloads attempt_id)) db h =
        closed db _ h (
          Extracted-ActiveAt db (create_download_stream now attempt_id db)
            (create_download_stream-Extracted db now attempt_id))
    discloses-Ended (now, shows user_id key) db h =
        Management.shows-closed id now user_id key verify db
    discloses-Ended (now, revokes user_id key) db h =
        Management.revokes-closed id now user_id key verify db
    discloses-Ended (now, raises user_id key level) db h =
        Management.raises-closed id now user_id key verify level db h
    discloses-Ended (now, prolongs user_id key minutes) db h =
        Management.prolongs-closed id now user_id key verify minutes db h
    discloses-Ended (now, retrieves new user_id device key scope_key) db h = closed db _ h (
        Issued-ActiveAt db (issue_source_item_retrieval now new user_id device key scope_key db)
          (issue_source_item_retrieval-Issued db now new user_id device key scope_key))
    discloses-Ended (now, retrieved user_id device attempt_id success) db h = refl
    discloses-Ended (now, loads user_id device attempt_id) db h = closed db _ h (
        stored-ActiveAt db (create_stored_download now user_id device attempt_id db)
          (create_stored_download-Loaded db now user_id device attempt_id))
    discloses-Ended (now, shares new owner input) db h = refl
    discloses-Ended (now, receives new user_id device key scope_key) db h = closed db _ h (
        Issued-ActiveAt db (issue_recipient_retrieval now new user_id device key scope_key db)
          (issue_recipient_retrieval-Issued db now new user_id device key scope_key))
    discloses-Ended (now, received user_id device attempt_id success) db h = refl

-- An item that is not active, as after its revocation, its expiry or its reading where it burns, is
-- disclosed no more: over every history of requests to public links, extractions, shares, the owner's
-- retrieval and management, with the downloads of attempts under way, no answer has the item, other
-- than those that show it to its owner, who asks to see or to revoke it.
pub serve_accesses-closed :
    (hash : ℕ → List ℕ → ℕ) (verify : ℕ → List ℕ → Bool) (id : ℕ)
    (requests : List (ℕ × AccessRequest)) (db : Database)
    → Ended id db
    → ever_discloses hash verify id requests db ≡ false
unfolding ever_discloses
serve_accesses-closed hash verify id [] db ended = refl
serve_accesses-closed hash verify id (r ∷ rs) db ended =
    rw (discloses-Ended id hash verify r db ended) (
      serve_accesses-closed hash verify id rs (serve_access hash verify r db)
        (serve_access-Ended id hash verify r db ended))

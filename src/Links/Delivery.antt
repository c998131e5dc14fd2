-- ===== src/Links/Delivery.antt =====
-- A link that may deliver does.
use liminalis.Common.{ℕ, ◌≡◌, refl, true, none, some, List, arith}
use liminalis.Common.Exec.{ok, lift, gets, modify, pure, or_throw, transaction, ◌>>=◌}
use liminalis.Common.Table.{Distinct, find, find_where, create, find-find_where}
use liminalis.Schema.{
  is_active_link, PublicLink, PublicLinkState, SourceItem, StoredPart, Database, same_link_state,
}
use liminalis.Links.State.{
  set_link, load_link, next_state, store_state, refresh_public_link_state, refresh_by_token,
  with_token, can_spend,
}
use liminalis.Links.Tickets.{is_deliverable, with_ticket_token, new_ticket, create_ticket}
use liminalis.Links.Downloads.{
  extract_storage_parts, ticket_if, reserve_public_download, download_of, create_public_download,
}
use liminalis.Links.Spending.{spend-some, spent, last}

same_link_state_refl : (s : PublicLinkState) → same_link_state s s ≡ true
same_link_state_refl PublicLinkState.active = refl
same_link_state_refl PublicLinkState.exhausted = refl
same_link_state_refl PublicLinkState.expired = refl
same_link_state_refl PublicLinkState.revoked = refl
same_link_state_refl PublicLinkState.invalidated = refl

deliverable-next_state :
    (now : ℕ) (link : PublicLink) (item : SourceItem)
    → is_deliverable now link item ≡ true
    → next_state now link item ≡ link.state
unfolding next_state
deliverable-next_state now link item h = ground arith

deliverable-can_spend :
    (now : ℕ) (link : PublicLink) (item : SourceItem)
    → is_deliverable now link item ≡ true
    → can_spend (some link) ≡ true
deliverable-can_spend now link item h = ground arith

module _ (now : ℕ) (db : Database) (id : ℕ) (link : PublicLink) (item : SourceItem)
    (found : find id db.public_links ≡ some link)
    (source : find link.source_item_id db.source_items ≡ some item)
    (deliverable : is_deliverable now link item ≡ true) where
  -- A link in order is refreshed to itself.
  refresh_public_link_state_lem : refresh_public_link_state now id db ≡ (ok (link, item), db)
  unfolding refresh_public_link_state load_link store_state gets or_throw pure ◌>>=◌
  refresh_public_link_state_lem = rw (
    found,
    source,
    deliverable-next_state now link item deliverable,
    same_link_state_refl link.state,
  )

  refresh_by_token_lem :
      (link_token : ℕ)
      → find_where (with_token link_token) db.public_links ≡ some (id, link)
      → refresh_by_token now link_token db ≡ (ok (id, link, item), db)
  unfolding refresh_by_token gets or_throw pure ◌>>=◌
  refresh_by_token_lem link_token chosen = rw (chosen, refresh_public_link_state_lem)

  module _ (ticket_id token : ℕ) (free : find ticket_id db.delivery_tickets ≡ none)
      (unused : find_where (with_ticket_token token) db.delivery_tickets ≡ none) where
    delivered_db : Database
    delivered_db = record (set_link id (spent (last link)) db) {
      delivery_tickets = create ticket_id (new_ticket now id token) db.delivery_tickets;
    }

    reserve_public_download_lem :
        reserve_public_download now ticket_id token id db
        ≡ (ok (some (new_ticket now id token)), delivered_db)
    unfolding reserve_public_download ticket_if create_ticket gets lift modify pure transaction
        ◌>>=◌ set_link delivered_db
    reserve_public_download_lem =
        rw (spend-some id db link found (deliverable-can_spend now link item deliverable))
          (rw (free, unused))

-- A request for the token of a link that may deliver, to an item with stored parts, is answered
-- with those parts and their total size; the link has one download less, is exhausted if that was
-- the last, and the reservation stands in the table of tickets. The key and the token of the ticket
-- must be new, and no key may stand twice in the table of links.
pub create_public_download-delivers :
    (now ticket_id token link_token id : ℕ) (db : Database) (link : PublicLink) (item : SourceItem)
    (parts : List StoredPart)
    → Distinct db.public_links
    → find_where (with_token link_token) db.public_links ≡ some (id, link)
    → find link.source_item_id db.source_items ≡ some item
    → is_deliverable now link item ≡ true
    → extract_storage_parts item.storage_binding ≡ ok parts
    → find ticket_id db.delivery_tickets ≡ none
    → find_where (with_ticket_token token) db.delivery_tickets ≡ none
    → create_public_download now ticket_id token link_token db ≡ (
      ok (download_of id parts (new_ticket now id token)),
      record (set_link id (spent (last link)) db) {
        delivery_tickets = create ticket_id (new_ticket now id token) db.delivery_tickets;
      },
    )
unfolding create_public_download lift or_throw pure ◌>>=◌ delivered_db
create_public_download-delivers now ticket_id token link_token id db link item parts distinct chosen
      source deliverable stored free unused =
    let found = find-find_where (with_token link_token) db.public_links id link distinct chosen in
    rw (refresh_by_token_lem now db id link item found source deliverable link_token chosen) (
      rw (active link deliverable, stored)
        (rw (
          reserve_public_download_lem now db id link item found source deliverable ticket_id token
            free unused)))
  where
    active : (l : PublicLink) → is_deliverable now l item ≡ true → is_active_link l.state ≡ true
    active l h = ground arith

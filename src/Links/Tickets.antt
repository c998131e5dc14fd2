-- ===== src/Links/Tickets.antt =====
-- `issueDeliveryTicket`, `redeemDeliveryTicket` and `redeemIssuedTicket`, and the table of tickets.
use liminalis.Common.{
  ℕ, ◌+◌, ◌*◌, Bool, true, false, not, ◌&&◌, ◌||◌, Option, none, some, ltb, leb, ◌==◌, is_some,
  if◌then◌else◌,
}
use liminalis.Common.Exec.{
  not_found, database, guard, lift, gets, modify, pure, or_throw, transaction, ◌>>=◌, ◌>>◌,
}
use liminalis.Common.Table.{find, find_where, update, create}
use liminalis.Schema.{
  PublicLink, SourceItem, DeliveryTicket, Database, Handler, is_active_item, is_active_link,
  invalid_public_link, unique_violation,
}
use liminalis.Links.State.{is_past, load_link, refresh_by_token, spend}

abbrev pub with_ticket_token : ℕ → DeliveryTicket → Bool
with_ticket_token token ticket = ticket.ticket_token == token

abbrev pub ticket_ttl_ms : ℕ
ticket_ttl_ms = 10 * 60000

abbrev pub new_ticket : ℕ → ℕ → ℕ → DeliveryTicket
new_ticket now link_id token = record {
  public_link_id = link_id;
  ticket_token = token;
  expires_at = now + ticket_ttl_ms;
  redeemed_at = none;
}

-- The key and the token are unique.
unfoldable pub create_ticket : ℕ → ℕ → ℕ → ℕ → Handler DeliveryTicket
create_ticket now id link_id token = do
  present ← gets (λ db. find id db.delivery_tickets)
  taken ← gets (λ db. find_where (with_ticket_token token) db.delivery_tickets)
  lift (guard (not (is_some present) && not (is_some taken)) (database unique_violation))
  modify (λ (db : Database). record db {
    delivery_tickets = create id (new_ticket now link_id token) db.delivery_tickets;
  })
  pure (new_ticket now link_id token)

unfoldable pub issue_delivery_ticket : ℕ → ℕ → ℕ → ℕ → Handler DeliveryTicket
issue_delivery_ticket now id token link_token = do
  refreshed ← refresh_by_token now link_token
  lift (guard (is_active_link refreshed.1.state) (not_found invalid_public_link))
  create_ticket now id refreshed.0 token

-- Whether a link may deliver to a ticket.
abbrev pub is_deliverable : ℕ → PublicLink → SourceItem → Bool
is_deliverable now link item =
    is_active_link link.state
    && (is_active_item item.state
        && (not (is_past now item.valid_until)
            && (not (is_past now link.valid_until) && not (leb link.remaining_download_count 0))))

-- The tickets that the `updateMany` of a redemption finds.
abbrev pub is_open : ℕ → Option DeliveryTicket → Bool
is_open now none = false
is_open now (some ticket) = not (is_some ticket.redeemed_at) && leb now ticket.expires_at

-- The update of the ticket, false where it counts no row.
unfoldable pub mark_redeemed : ℕ → ℕ → Handler Bool
mark_redeemed now id = do
  row ← gets (λ db. find id db.delivery_tickets)
  if is_open now row
      then (do
        modify (λ (db : Database). record db {
          delivery_tickets =
              update id (λ t. record t { redeemed_at = some now }) db.delivery_tickets;
        })
        pure true)
      else pure false

unfoldable pub redeem_issued_ticket : ℕ → ℕ → ℕ → Handler (PublicLink × SourceItem)
unfolding mark_redeemed
redeem_issued_ticket now ticket_id link_id = transaction (do
  loaded ← load_link link_id
  lift (guard (is_deliverable now loaded.0 loaded.1) (not_found invalid_public_link))
  marked ← mark_redeemed now ticket_id
  lift (guard marked (not_found invalid_public_link))
  spent ← spend link_id
  lift (guard spent (not_found invalid_public_link))
  load_link link_id)

abbrev pub redeemable : ℕ → Option (ℕ × DeliveryTicket) → Option (ℕ × DeliveryTicket)
redeemable now none = none
redeemable now (some (id, ticket)) =
    if ltb ticket.expires_at now || is_some ticket.redeemed_at then none else some (id, ticket)

-- The answer is the key of the link with its row and source item.
unfoldable pub redeem_delivery_ticket : ℕ → ℕ → Handler (ℕ × PublicLink × SourceItem)
redeem_delivery_ticket now token = do
  row ← gets (λ db. redeemable now (find_where (with_ticket_token token) db.delivery_tickets))
  found ← or_throw row (not_found invalid_public_link)
  redeemed ← redeem_issued_ticket now found.0 found.1.public_link_id
  pure (found.1.public_link_id, redeemed.0, redeemed.1)

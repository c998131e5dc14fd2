-- ===== src/Links/Downloads.antt =====
-- `createPublicDownload` with the reservation of a download, and its finish or release.
use liminalis.Common.{
  ℕ, ◌+◌, Bool, true, false, not, ◌&&◌, Option, none, some, List, [], ◌∷◌, is_some, if◌then◌else◌,
}
use liminalis.Common.Exec.{
  Result, ok, err, not_found, guard, lift, gets, modify, pure, or_throw, transaction, ◌>>=◌, ◌>>◌,
}
use liminalis.Common.Table.{find_where, update_where, delete}
use liminalis.Schema.{
  PublicLink, PublicLinkState, SourceItem, StoredPart, DeliveryTicket, Database, Handler, Reason,
  is_active_item, is_active_link, is_exhausted_link, invalid_public_link,
}
use liminalis.Links.State.{is_past, set_link, load_link, refresh_by_token, spend}
use liminalis.Links.Tickets.{with_ticket_token, create_ticket}

-- A storage binding without parts is refused.
unfoldable pub extract_storage_parts : Option (List StoredPart) → Result Reason (List StoredPart)
extract_storage_parts none = err (not_found invalid_public_link)
extract_storage_parts (some []) = err (not_found invalid_public_link)
extract_storage_parts (some (part ∷ parts)) = ok (part ∷ parts)

abbrev pub total_size : List StoredPart → ℕ
total_size [] = 0
total_size (part ∷ parts) = part.byte_size + total_size parts

unfoldable pub ticket_if : ℕ → ℕ → ℕ → ℕ → Bool → Handler (Option DeliveryTicket)
ticket_if now ticket_id link_id token true = do
  ticket ← create_ticket now ticket_id link_id token
  pure (some ticket)
ticket_if now ticket_id link_id token false = pure none

unfoldable pub reserve_public_download : ℕ → ℕ → ℕ → ℕ → Handler (Option DeliveryTicket)
unfolding ticket_if
reserve_public_download now ticket_id token link_id =
    transaction (do spent ← spend link_id; ticket_if now ticket_id link_id token spent)

pub record PublicDownload : Type 0 where
  pub public_link_id : ℕ
  pub reservation_ticket_token : ℕ
  pub parts : List StoredPart
  pub content_length : ℕ

abbrev pub download_of : ℕ → List StoredPart → DeliveryTicket → PublicDownload
download_of link_id parts ticket = record {
  public_link_id = link_id;
  reservation_ticket_token = ticket.ticket_token;
  parts = parts;
  content_length = total_size parts;
}

unfoldable pub create_public_download : ℕ → ℕ → ℕ → ℕ → Handler PublicDownload
unfolding extract_storage_parts
create_public_download now ticket_id token link_token = do
  refreshed ← refresh_by_token now link_token
  lift (guard (is_active_link refreshed.1.state) (not_found invalid_public_link))
  parts ← lift (extract_storage_parts refreshed.2.storage_binding)
  reservation ← reserve_public_download now ticket_id token refreshed.0
  ticket ← or_throw reservation (not_found invalid_public_link)
  pure (download_of refreshed.0 parts ticket)

unfoldable pub finish_public_download : ℕ → ℕ → Handler (Unit {0})
finish_public_download now token = modify (λ (db : Database). record db {
  delivery_tickets =
      update_where (λ t. with_ticket_token token t && not (is_some t.redeemed_at))
        (λ t. record t { redeemed_at = some now }) db.delivery_tickets;
})

unfoldable pub can_reactivate : ℕ → PublicLink → SourceItem → Bool
can_reactivate now link item =
    is_exhausted_link link.state
    && (is_active_item item.state
        && (not (is_past now item.valid_until) && not (is_past now link.valid_until)))

unfoldable pub released : Bool → PublicLinkState → PublicLink → PublicLink
released reactivate state row = record row {
  remaining_download_count = row.remaining_download_count + 1;
  state = if reactivate then PublicLinkState.active else state;
}

unfoldable pub unreleased : Option (ℕ × DeliveryTicket) → Option (ℕ × DeliveryTicket)
unreleased none = none
unreleased (some (id, ticket)) = if is_some ticket.redeemed_at then none else some (id, ticket)

-- The answer is the key of the link, where a ticket is released.
unfoldable pub release_ticket : ℕ → Option (ℕ × DeliveryTicket) → Handler (Option ℕ)
unfolding can_reactivate released
release_ticket now none = pure none
release_ticket now (some (id, ticket)) = do
  loaded ← load_link ticket.public_link_id
  modify (λ (db : Database). record db { delivery_tickets = delete id db.delivery_tickets })
  modify (
      set_link ticket.public_link_id
        (released (can_reactivate now loaded.0 loaded.1) loaded.0.state))
  pure (some ticket.public_link_id)

unfoldable pub release_public_download : ℕ → ℕ → Handler (Option ℕ)
unfolding unreleased release_ticket
release_public_download now token = transaction (do
  row ← gets (λ db. unreleased (find_where (with_ticket_token token) db.delivery_tickets))
  release_ticket now row)

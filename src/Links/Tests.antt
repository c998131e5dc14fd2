-- ===== src/Links/Tests.antt =====
-- A concrete history of a public link, and the theorems on links at it.
use liminalis.Common.{false, ℕ, ◌+◌, ◌≡◌, refl, none, some, List, [], ◌∷◌}
use liminalis.Common.Table.{create, find_where, update, Distinct, find}
use liminalis.Schema.{
  int, StoredPart, DeliveryTicket, invalid_public_link, SourceItem, SourceItemState, PublicLink,
  PublicLinkState, Database, single_file, secret,
}
use liminalis.Policy.Tests.{secret_snapshot, seeded}
use liminalis.Links.Requests.{
  LinkRequest, downloads, finishes, releases, redeems, issues, serve_links, total_taken,
  total_given_back,
}
use liminalis.Links.Left.{left}
use liminalis.Links.Supply.{serve_links-balance}
use liminalis.Common.Exec.{
  ok, err, not_found, gets, or_throw, lift, modify, pure, transaction, ◌>>=◌,
}
use liminalis.Links.State.{with_token, load_link, spend, decremented, exhaust_spent, set_link}
use liminalis.Links.Tickets.{
  with_ticket_token, new_ticket, redeem_delivery_ticket, redeem_issued_ticket, mark_redeemed,
}
use liminalis.Links.Redemption.{redeem_delivery_ticket-once}
use liminalis.Links.Delivery.{create_public_download-delivers}
use liminalis.Links.Downloads.{extract_storage_parts, download_of, create_public_download}
use liminalis.Links.Spending.{spent, last}
use liminalis.Links.Creation.{
  CreatePublicLink, create_public_link, refuse_expired, insert_link, new_link, clamp_valid_until,
}
use liminalis.Links.Limits.{IsLinkFor, create_public_link-IsLinkFor}
use liminalis.Policy.{
  evaluate_public_link_creation, public_link_decision, to_number, to_nullable_number,
}
use liminalis.Policy.Current.{get_current_bundle, latest}
use liminalis.Common.Int.{pos}

abbrev part : StoredPart
part = record { storage_key = 90; byte_size = 2048 }

abbrev pub file_item : SourceItem
file_item = record {
  owner_user_id = 1;
  content_kind = single_file;
  confidentiality_level = secret;
  state = SourceItemState.active;
  valid_until = none;
  storage_binding = some (part ∷ []);
  burn_after_read_enabled = false;
  policy_bundle_id = 1;
  policy_snapshot = secret_snapshot;
}

abbrev two_left : PublicLink
two_left = record {
  source_item_id = 5;
  share_object_id = none;
  state = PublicLinkState.active;
  link_token = 600;
  configured_download_count = 3;
  remaining_download_count = 2;
  valid_until = none;
}

abbrev pub linked : Database
linked = record seeded { source_items = (5, file_item) ∷ []; public_links = (6, two_left) ∷ [] }

-- Two downloads, one of them released, a ticket redeemed, and a download of a spent link.
abbrev link_history : List (ℕ × LinkRequest)
link_history =
    (1000, downloads 31 301 600)
    ∷ (1100, downloads 32 302 600)
    ∷ (1200, releases 301)
    ∷ (1300, finishes 302)
    ∷ (1400, issues 33 303 600)
    ∷ (1500, redeems 303)
    ∷ (1600, downloads 34 304 600)
    ∷ []

linked-left : left 6 linked ≡ some 2
unfolding find
linked-left = refl

serve_links-balance_example :
    (m : ℕ) × (left 6 (serve_links link_history linked) ≡ some m)
    × (m + total_taken 6 link_history linked ≡ 2 + total_given_back 6 link_history linked)
serve_links-balance_example = serve_links-balance 6 link_history linked 2 linked-left

abbrev ticket : DeliveryTicket
ticket = record { public_link_id = 6; ticket_token = 303; expires_at = 9000; redeemed_at = none }

abbrev ticketed : Database
ticketed = record linked { delivery_tickets = (33, ticket) ∷ [] }

-- The link after the redemption of the ticket, and the database.
abbrev redeemed_link : PublicLink
redeemed_link = record two_left { remaining_download_count = 1 }

abbrev after_redemption : Database
after_redemption = record ticketed {
  public_links = (6, redeemed_link) ∷ [];
  delivery_tickets = (33, record ticket { redeemed_at = some 1500 }) ∷ [];
}

ticketed-redeemed :
    redeem_delivery_ticket 1500 303 ticketed ≡ (ok (6, redeemed_link, file_item), after_redemption)
unfolding redeem_delivery_ticket redeem_issued_ticket load_link mark_redeemed spend decremented
    exhaust_spent set_link gets or_throw lift modify pure transaction ◌>>=◌ find find_where update
ticketed-redeemed = refl

ticketed-Distinct : Distinct ticketed.delivery_tickets
unfolding find
ticketed-Distinct = (refl, tt)

redeem_delivery_ticket-once_example :
    redeem_delivery_ticket 1600 303 after_redemption
    ≡ (err (not_found invalid_public_link), after_redemption)
redeem_delivery_ticket-once_example =
    redeem_delivery_ticket-once 1500 1600 303 ticketed after_redemption
      (6, redeemed_link, file_item) ticketed-Distinct ticketed-redeemed

file_parts : extract_storage_parts file_item.storage_binding ≡ ok (part ∷ [])
unfolding extract_storage_parts
file_parts = refl

linked-chosen : find_where (with_token 600) linked.public_links ≡ some (6, two_left)
unfolding find_where
linked-chosen = refl

linked-source : find 5 linked.source_items ≡ some file_item
unfolding find
linked-source = refl

linked-Distinct : Distinct linked.public_links
unfolding find
linked-Distinct = (refl, tt)

no_ticket : find 31 linked.delivery_tickets ≡ none
unfolding find
no_ticket = refl

no_token : find_where (with_ticket_token 301) linked.delivery_tickets ≡ none
unfolding find_where
no_token = refl

create_public_download-delivers_example : create_public_download 1000 31 301 600 linked ≡ (
  ok (download_of 6 (part ∷ []) (new_ticket 1000 6 301)),
  record (set_link 6 (spent (last two_left)) linked) {
    delivery_tickets = create 31 (new_ticket 1000 6 301) linked.delivery_tickets;
  },
)
create_public_download-delivers_example =
    create_public_download-delivers 1000 31 301 600 6 linked two_left file_item (part ∷ [])
      linked-Distinct linked-chosen linked-source refl file_parts no_ticket no_token

abbrev wanted_link : CreatePublicLink
wanted_link = record {
  source_item_id = 5;
  requested_validity_minutes = some (int (pos 60));
  requested_download_count = some (int (pos 3));
}

abbrev hour_link : PublicLink
hour_link = record {
  source_item_id = 5;
  share_object_id = none;
  state = PublicLinkState.active;
  link_token = 700;
  configured_download_count = 3;
  remaining_download_count = 3;
  valid_until = some 3601000;
}

linked-creates :
    create_public_link 1000 8 700 1 wanted_link linked
    ≡ (ok (8, hour_link), record linked { public_links = (8, hour_link) ∷ (6, two_left) ∷ [] })
unfolding create_public_link refuse_expired insert_link new_link clamp_valid_until
    evaluate_public_link_creation public_link_decision get_current_bundle latest to_number
    to_nullable_number gets or_throw lift modify pure ◌>>=◌ find find_where create
linked-creates = refl

create_public_link-IsLinkFor_example : IsLinkFor 1 5 linked hour_link
create_public_link-IsLinkFor_example =
    create_public_link-IsLinkFor 1000 8 700 1 wanted_link linked
      (record linked { public_links = (8, hour_link) ∷ (6, two_left) ∷ [] }) 8 hour_link
      linked-creates

-- ===== src/Access/Links.antt =====
-- What happens to public links keeps the items that have ended.
use liminalis.Common.{
  leb, Bool-cases, if◌then◌else◌, inl, inr, ℕ, Bool, true, false, Option, none, some,
}
use liminalis.Common.Exec.Keeps.{Keeps, keeps_rules}
use liminalis.Schema.{PublicLink, PublicLinkState, SourceItem, DeliveryTicket, Database}
use liminalis.Links.{
  set_link, load_link, store_state, refresh_public_link_state, refresh_by_token, spend,
  exhaust_spent, insert_link, CreatePublicLink, create_public_link, create_ticket, ticket_if,
  reserve_public_download, create_public_download, finish_public_download, release_ticket,
  release_public_download, issue_delivery_ticket, mark_redeemed, redeem_issued_ticket,
  redeem_delivery_ticket,
}
use liminalis.Access.Ended.{Ended, evaluate_public_link_creation-Keeps}
use liminalis.Access.Items.{refuse_expired-Keeps}

module _ (id : ℕ) where
  load_link-Keeps : (key : ℕ) → Keeps (Ended id) (load_link key)
  unfolding load_link
  load_link-Keeps key = search keeps_rules depth 12

  store_state-Keeps :
      (key : ℕ) (loaded : PublicLink × SourceItem) (next : PublicLinkState)
      → Keeps (Ended id) (store_state key loaded next)
  unfolding store_state set_link
  store_state-Keeps key loaded next = search keeps_rules depth 12

  refresh_public_link_state-Keeps :
      (now key : ℕ) → Keeps (Ended id) (refresh_public_link_state now key)
  unfolding refresh_public_link_state
  refresh_public_link_state-Keeps now key =
      search (keeps_rules, load_link-Keeps, store_state-Keeps) depth 12

  refresh_by_token-Keeps : (now token : ℕ) → Keeps (Ended id) (refresh_by_token now token)
  unfolding refresh_by_token
  refresh_by_token-Keeps now token = search (keeps_rules, refresh_public_link_state-Keeps) depth 12

  exhaust_spent-Ended :
      (key : ℕ) (link : PublicLink) (db : Database)
      → Ended id db
      → Ended id (exhaust_spent key link db)
  unfolding exhaust_spent set_link
  exhaust_spent-Ended key link db h = elim (Bool-cases (leb link.remaining_download_count 0)) [
    | inl e ↦ rw (e, if◌then◌else◌) h
    | inr e ↦ rw (e, if◌then◌else◌) h
  ]

  spend-Keeps : (key : ℕ) → Keeps (Ended id) (spend key)
  unfolding spend set_link
  spend-Keeps key = search (keeps_rules, exhaust_spent-Ended) depth 24

  create_ticket-Keeps :
      (now key link token : ℕ) → Keeps (Ended id) (create_ticket now key link token)
  unfolding create_ticket
  create_ticket-Keeps now key link token = search keeps_rules depth 16

  ticket_if-Keeps :
      (now key link token : ℕ) (b : Bool) → Keeps (Ended id) (ticket_if now key link token b)
  unfolding ticket_if
  ticket_if-Keeps now key link token true = search (keeps_rules, create_ticket-Keeps) depth 12
  ticket_if-Keeps now key link token false = search keeps_rules

  pub create_public_download-Keeps :
      (now key token link_token : ℕ)
      → Keeps (Ended id) (create_public_download now key token link_token)
  unfolding create_public_download reserve_public_download
  create_public_download-Keeps now key token link_token =
      search (keeps_rules, refresh_by_token-Keeps, spend-Keeps, ticket_if-Keeps) depth 20

  pub finish_public_download-Keeps :
      (now token : ℕ) → Keeps (Ended id) (finish_public_download now token)
  unfolding finish_public_download
  finish_public_download-Keeps now token = search keeps_rules depth 12

  release_ticket-Keeps :
      (now : ℕ) (row : Option (ℕ × DeliveryTicket)) → Keeps (Ended id) (release_ticket now row)
  unfolding release_ticket set_link
  release_ticket-Keeps now none = search keeps_rules
  release_ticket-Keeps now (some (key, ticket)) = search (keeps_rules, load_link-Keeps) depth 16

  pub release_public_download-Keeps :
      (now token : ℕ) → Keeps (Ended id) (release_public_download now token)
  unfolding release_public_download
  release_public_download-Keeps now token = search (keeps_rules, release_ticket-Keeps) depth 12

  mark_redeemed-Keeps : (now key : ℕ) → Keeps (Ended id) (mark_redeemed now key)
  unfolding mark_redeemed
  mark_redeemed-Keeps now key = search keeps_rules depth 12

  redeem_issued_ticket-Keeps :
      (now key link : ℕ) → Keeps (Ended id) (redeem_issued_ticket now key link)
  unfolding redeem_issued_ticket
  redeem_issued_ticket-Keeps now key link =
      search (keeps_rules, load_link-Keeps, mark_redeemed-Keeps, spend-Keeps) depth 20

  pub redeem_delivery_ticket-Keeps :
      (now token : ℕ) → Keeps (Ended id) (redeem_delivery_ticket now token)
  unfolding redeem_delivery_ticket
  redeem_delivery_ticket-Keeps now token = search (keeps_rules, redeem_issued_ticket-Keeps) depth 14

  pub issue_delivery_ticket-Keeps :
      (now key token link_token : ℕ)
      → Keeps (Ended id) (issue_delivery_ticket now key token link_token)
  unfolding issue_delivery_ticket
  issue_delivery_ticket-Keeps now key token link_token =
      search (keeps_rules, refresh_by_token-Keeps, create_ticket-Keeps) depth 14

  insert_link-Keeps : (key : ℕ) (link : PublicLink) → Keeps (Ended id) (insert_link key link)
  unfolding insert_link
  insert_link-Keeps key link = search keeps_rules depth 14

  pub create_public_link-Keeps :
      (now key token owner : ℕ) (input : CreatePublicLink)
      → Keeps (Ended id) (create_public_link now key token owner input)
  unfolding create_public_link
  create_public_link-Keeps now key token owner input =
      search
        (keeps_rules, refuse_expired-Keeps, evaluate_public_link_creation-Keeps, insert_link-Keeps)
        depth 30

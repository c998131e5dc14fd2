-- ===== src/Links/Left.antt =====
-- What a link has left, and the handlers that leave it.
use liminalis.Common.{
  ℕ, ◌≡◌, refl, ap, inl, inr, Option, none, some, arith, if◌then◌else◌, Bool-cases, ◌==◌,
}
use liminalis.Common.Exec.{gets, modify, pure, ◌>>=◌}
use liminalis.Common.Exec.Leaves.{Leaves, leaves_rules}
use liminalis.Common.Table.{find, find-update}
use liminalis.Schema.{same_link_state, PublicLink, PublicLinkState, SourceItem, Database}
use liminalis.Links.State.{
  set_link, load_link, store_state, refresh_public_link_state, refresh_by_token,
}
use liminalis.Links.Tickets.{create_ticket, issue_delivery_ticket, mark_redeemed}
use mathlib.Core.Option

abbrev pub left_of : Option PublicLink → Option ℕ
left_of none = none
left_of (some link) = some link.remaining_download_count

-- What a link has left.
abbrev pub left : ℕ → Database → Option ℕ
left link_id db = left_of (find link_id db.public_links)

module _ (link_id : ℕ) where
  pub left-set_link :
      (id : ℕ) (patch : PublicLink → PublicLink) (db : Database)
      → ((row : PublicLink) → (patch row).remaining_download_count ≡ row.remaining_download_count)
      → left link_id (set_link id patch db) ≡ left link_id db
  unfolding set_link
  left-set_link id patch db same = rw (find-update) (elim (Bool-cases (id == link_id)) [
    | inl e ↦ rw (e, if◌then◌else◌) (go (find link_id db.public_links))
    | inr e ↦ rw (e, if◌then◌else◌)
  ])
    where
      go : (o : Option PublicLink) → left_of (Option.map patch o) ≡ left_of o
      go none = refl
      go (some row) = ap some (same row)

  pub load_link-Leaves : (id : ℕ) → Leaves (left link_id) (load_link id)
  unfolding load_link
  load_link-Leaves id = search leaves_rules depth 10

  pub set_state-left :
      (id : ℕ) (next : PublicLinkState) (db : Database)
      → left link_id (set_link id (λ row. record row { state = next }) db) ≡ left link_id db
  set_state-left id next db = left-set_link id _ db (λ row. refl)

  pub store_state-Leaves :
      (id : ℕ) (loaded : PublicLink × SourceItem) (next : PublicLinkState)
      → Leaves (left link_id) (store_state id loaded next)
  unfolding store_state
  store_state-Leaves id loaded next = elim (Bool-cases (same_link_state next loaded.0.state)) [
    | inl e ↦ rw (e, if◌then◌else◌) (search leaves_rules)
    | inr e ↦ rw (e, if◌then◌else◌) (search (leaves_rules, set_state-left))
  ]

  pub refresh_public_link_state-Leaves :
      (now id : ℕ) → Leaves (left link_id) (refresh_public_link_state now id)
  unfolding refresh_public_link_state
  refresh_public_link_state-Leaves now id =
      search (leaves_rules, load_link-Leaves, store_state-Leaves) depth 10

  pub refresh_by_token-Leaves : (now token : ℕ) → Leaves (left link_id) (refresh_by_token now token)
  unfolding refresh_by_token
  refresh_by_token-Leaves now token =
      search (leaves_rules, refresh_public_link_state-Leaves) depth 10

  pub create_ticket-Leaves :
      (now id link token : ℕ) → Leaves (left link_id) (create_ticket now id link token)
  unfolding create_ticket
  create_ticket-Leaves now id link token = search leaves_rules depth 12

  pub mark_redeemed-Leaves : (now id : ℕ) → Leaves (left link_id) (mark_redeemed now id)
  unfolding mark_redeemed gets modify pure ◌>>=◌
  mark_redeemed-Leaves now id = record { at = λ db. ground arith }

  pub issue_delivery_ticket-Leaves :
      (now id token link_token : ℕ)
      → Leaves (left link_id) (issue_delivery_ticket now id token link_token)
  unfolding issue_delivery_ticket
  issue_delivery_ticket-Leaves now id token link_token =
      search (leaves_rules, refresh_by_token-Leaves, create_ticket-Leaves) depth 10

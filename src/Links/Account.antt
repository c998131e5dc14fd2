-- ===== src/Links/Account.antt =====
-- The account of a redemption and of a release.
use liminalis.Common.{
  ℕ, ◌+◌, ◌≡◌, refl, sym, ap, subst, ◌∙◌, inl, inr, Bool, true, false, Option, none, some, arith,
  Bool-cases, Option-cases, ◌==◌, ==_iff,
}
use liminalis.Common.Exec.{
  or_throw, not_found, guard, ◌>>◌, Result, ok, err, lift, gets, modify, pure, ◌>>=◌,
}
use liminalis.Common.Exec.Rules.{
  OnOk, transaction_body_rule, bind_rule, lift_rule, gets_rule, or_throw_rule, bind_ok,
}
use liminalis.Common.Exec.Leaves.{outcome-Leaves}
use liminalis.Common.Table.{find_where, delete, find, find-update}
use liminalis.Schema.{
  invalid_public_link, PublicLink, PublicLinkState, SourceItem, DeliveryTicket, Database, Reason,
}
use liminalis.Links.State.{set_link, load_link, spend}
use liminalis.Links.Tickets.{
  with_ticket_token, mark_redeemed, redeem_issued_ticket, redeem_delivery_ticket,
}
use liminalis.Links.Requests.{redeem_event, release_event, delivered, returned}
use liminalis.Links.Downloads.{
  release_ticket, unreleased, released, can_reactivate, release_public_download,
}
use liminalis.Links.Spending.{spend_cases, spent, last}
use liminalis.Links.Left.{left_of, left, load_link-Leaves, mark_redeemed-Leaves}
use liminalis.Links.Budget.{Counts, Counts-nothing, Counts-spent, Counted, redeem_at}

module _ (link_id n : ℕ) where
  redeem_body-Counted :
      (now ticket_id id : ℕ) (db : Database)
      → left link_id db ≡ some n
      → Counted link_id n (redeem_at id) (redeem_issued_ticket now ticket_id id db)
  unfolding redeem_issued_ticket
  redeem_body-Counted now ticket_id id db has =
      transaction_body_rule (Counted link_id n (redeem_at id)) _ db
        (λ e. Counts-nothing link_id n db has db refl)
        (bind_rule (OnOk (Counted link_id n (redeem_at id))) (load_link id) _ db (λ e db' h. tt)
          λ loaded db' h.
            lift_rule (OnOk (Counted link_id n (redeem_at id))) _ _ db' (λ e k. tt)
              λ u k.
                bind_rule (OnOk (Counted link_id n (redeem_at id))) (mark_redeemed now ticket_id) _
                  db' (λ e db'' m. tt)
                  λ marked db'' m.
                    lift_rule (OnOk (Counted link_id n (redeem_at id))) _ _ db'' (λ e l. tt)
                      λ v l. redeemed id db'' (
                        outcome-Leaves (mark_redeemed-Leaves link_id now ticket_id) m
                        ∙ outcome-Leaves (load_link-Leaves link_id id) h
                        ∙ has))
    where
      reloaded :
          (d : Database) (id : ℕ)
          → Counts link_id n (delivered id) d
          → OnOk (Counted link_id n (redeem_at id)) (load_link id d)
      reloaded d id c = go (load_link id d) refl
        where
          go :
              (o : Result Reason (PublicLink × SourceItem) × Database)
              → load_link id d ≡ o
              → OnOk (Counted link_id n (redeem_at id)) o
          go (ok row, d') e = (c.0, outcome-Leaves (load_link-Leaves link_id id) e ∙ c.1, c.2)
          go (err x, d') e = tt

      redeemed :
          (id : ℕ) (d : Database)
          → left link_id d ≡ some n
          → OnOk (Counted link_id n (redeem_at id)) (
              (spend id >>= λ spent.
              (lift (guard spent (not_found invalid_public_link)) >> load_link id))
                d)
      redeemed id d has' = elim (spend_cases id d) [
        | inl none_spent ↦
            subst (OnOk (Counted link_id n (redeem_at id)))
              (sym (
                bind_ok (spend id)
                  (λ spent. (lift (guard spent (not_found invalid_public_link)) >> load_link id)) d
                  false none_spent))
              (unfold lift ◌>>=◌ in tt)
        | inr (link, found, allowed, e) ↦
            subst (OnOk (Counted link_id n (redeem_at id)))
              (sym (
                bind_ok (spend id)
                  (λ spent. (lift (guard spent (not_found invalid_public_link)) >> load_link id)) d
                  true e))
              (lift_rule (OnOk (Counted link_id n (redeem_at id)))
                (guard true (not_found invalid_public_link)) (λ _. load_link id)
                (set_link id (spent (last link)) d) (λ x y. tt)
                λ x y. reloaded (set_link id (spent (last link)) d) id (
                  Counts-spent link_id n d has' id link (last link)
                    (set_link id (spent (last link)) d) found allowed refl))
      ]

  pub redeem_delivery_ticket-Counted :
      (now token : ℕ) (db : Database)
      → left link_id db ≡ some n
      → Counted link_id n redeem_event (redeem_delivery_ticket now token db)
  unfolding redeem_delivery_ticket pure
  redeem_delivery_ticket-Counted now token db has =
      gets_rule (Counted link_id n redeem_event) _ _ db (
        or_throw_rule (Counted link_id n redeem_event) _ _ _ db
          (Counts-nothing link_id n db has db refl)
          λ (found : ℕ × DeliveryTicket) chosen.
            let body = redeem_body-Counted now found.0 found.1.public_link_id db has in
            bind_rule (Counted link_id n redeem_event)
              (redeem_issued_ticket now found.0 found.1.public_link_id) _ db
              (λ e db' h. subst (Counted link_id n (redeem_at found.1.public_link_id)) h body)
              λ redeemed db' h. subst (Counted link_id n (redeem_at found.1.public_link_id)) h body)

  Counts-released :
      (id : ℕ) (link : PublicLink) (b : Bool) (state : PublicLinkState) (db db' : Database)
      → left link_id db ≡ some n
      → find id db.public_links ≡ some link
      → db'.public_links ≡ db.public_links
      → Counts link_id n (returned id) (set_link id (released b state) db')
  unfolding set_link released
  Counts-released id link b state db db' has found same = elim (Bool-cases (id == link_id)) [
    | inl e ↦
        let at_id : id ≡ link_id = (==_iff id link_id).0 e in
        let here : find link_id db.public_links ≡ some link =
          subst (λ i. find i db.public_links ≡ some link) at_id found in
        let count : link.remaining_download_count ≡ n = only (sym (ap left_of here) ∙ has) in
        (
          n + 1,
          rw (same, find-update, e, here) (ap (λ k. some (k + 1)) count),
          rw (e) (omega arith),
        )
    | inr e ↦ (n, rw (same, find-update, e) has, rw (e) refl)
  ]
    where
      only : {a c : ℕ} → some a ≡ some c → a ≡ c
      only p = cc

  abbrev IsFound : ℕ → Database → Result Reason (PublicLink × SourceItem) × Database → Type 0
  IsFound id db (ok row, db') = (find id db.public_links ≡ some row.0) × (db' ≡ db)
  IsFound id db (err e, db') = Unit

  -- The row that `load_link` answers is the one under the key.
  load_link-found :
      (id : ℕ) (db db' : Database) (row : PublicLink × SourceItem)
      → load_link id db ≡ (ok row, db')
      → (find id db.public_links ≡ some row.0) × (db' ≡ db)
  unfolding load_link gets or_throw pure ◌>>=◌
  load_link-found id db db' row h = subst (IsFound id db) h outcome
    where
      outcome : IsFound id db (load_link id db)
      outcome = elim (Option-cases (find id db.public_links)) [
        | inl missing ↦ rw missing tt
        | inr (link, found) ↦ elim (Option-cases (find link.source_item_id db.source_items)) [
          | inl missing ↦ rw (found, missing) tt
          | inr (item, known) ↦ rw (found, known) (found, refl)
        ]
      ]

  release_ticket-Counted :
      (now : ℕ) (found : Option (ℕ × DeliveryTicket)) (db : Database)
      → left link_id db ≡ some n
      → OnOk (Counted link_id n release_event) (release_ticket now found db)
  unfolding release_ticket
  release_ticket-Counted now none db has = unfold pure in Counts-nothing link_id n db has db refl
  release_ticket-Counted now (some (id, ticket)) db has =
      bind_rule (OnOk (Counted link_id n release_event)) (load_link ticket.public_link_id) _ db
        (λ e db' h. tt)
        λ loaded db' h.
          let (found, same) = load_link-found ticket.public_link_id db db' loaded h in
          unfold modify pure ◌>>=◌ in
          Counts-released ticket.public_link_id loaded.0 (can_reactivate now loaded.0 loaded.1)
            loaded.0.state db (record db' { delivery_tickets = delete id db'.delivery_tickets }) has
            found (ap (λ d. d.public_links) same)

  pub release_public_download-Counted :
      (now token : ℕ) (db : Database)
      → left link_id db ≡ some n
      → Counted link_id n release_event (release_public_download now token db)
  unfolding release_public_download
  release_public_download-Counted now token db has =
      transaction_body_rule (Counted link_id n release_event) _ db
        (λ e. Counts-nothing link_id n db has db refl)
        (gets_rule (OnOk (Counted link_id n release_event)) _ _ db (
          release_ticket-Counted now
            (unreleased (find_where (with_ticket_token token) db.delivery_tickets)) db has))

-- ===== src/Links/Budget.antt =====
-- The account of a request, and the reservation of a download.
use liminalis.Common.{
  ℕ, ◌+◌, ◌-◌, ◌≡◌, refl, sym, ap, subst, ◌∙◌, inl, inr, Bool, true, false, Option, none, some,
  List, arith, Bool-cases, ◌==◌, ==_iff,
}
use liminalis.Common.Exec.{or_throw, not_found, Result, ok, err, pure, ◌>>=◌}
use liminalis.Common.Exec.Rules.{OnOk, transaction_body_rule, bind_rule, lift_rule, bind_ok}
use liminalis.Common.Exec.Leaves.{outcome-Leaves}
use liminalis.Common.Table.{find, find-update}
use liminalis.Schema.{
  StoredPart, invalid_public_link, PublicLink, SourceItem, DeliveryTicket, Database, Reason,
}
use liminalis.Links.State.{set_link, refresh_by_token, can_spend, spend}
use liminalis.Links.Tickets.{create_ticket}
use liminalis.Links.Requests.{download_event, LinkEvent, delivered, nothing, taken, given_back}
use liminalis.Links.Downloads.{
  download_of, ticket_if, reserve_public_download, create_public_download,
}
use liminalis.Links.Spending.{spend_cases, spent, last}
use liminalis.Links.Left.{left_of, left, refresh_by_token-Leaves, create_ticket-Leaves}

-- What is left after an event, with what the event took, makes what was left before with what it
-- gave back.
abbrev pub Counts : ℕ → ℕ → LinkEvent → Database → Type 0
Counts link_id n event db =
    (m : ℕ) × (left link_id db ≡ some m) × (m + taken link_id event ≡ n + given_back link_id event)

module _ (link_id n : ℕ) (db : Database) (has : left link_id db ≡ some n) where
  pub Counts-nothing :
      (db' : Database) → left link_id db' ≡ left link_id db → Counts link_id n nothing db'
  Counts-nothing db' same = (n, same ∙ has, refl)

  -- A download that is spent.
  pub Counts-spent :
      (id : ℕ) (link : PublicLink) (b : Bool) (db' : Database)
      → find id db.public_links ≡ some link
      → can_spend (some link) ≡ true
      → left link_id db' ≡ left link_id (set_link id (spent b) db)
      → Counts link_id n (delivered id) db'
  Counts-spent id link b db' found allowed same = elim (Bool-cases (id == link_id)) [
    | inl e ↦
        let at_id : id ≡ link_id = (==_iff id link_id).0 e in
        let here : find link_id db.public_links ≡ some link =
          subst (λ i. find i db.public_links ≡ some link) at_id found in
        let count : link.remaining_download_count ≡ n =
          some_injective (sym (ap left_of here) ∙ has) in
        (
          n - 1,
          same ∙ after e here ∙ ap (λ k. some (k - 1)) count,
          rw (e) (enough link n allowed count),
        )
    | inr e ↦ (n, same ∙ other e ∙ has, rw (e) refl)
  ]
    where
      some_injective : {a c : ℕ} → some a ≡ some c → a ≡ c
      some_injective p = cc

      enough :
          (l : PublicLink) (k : ℕ)
          → can_spend (some l) ≡ true
          → l.remaining_download_count ≡ k
          → k - 1 + 1 ≡ k + 0
      enough l k h e = ground arith

      after :
          (id == link_id) ≡ true
          → find link_id db.public_links ≡ some link
          → left link_id (set_link id (spent b) db) ≡ some (link.remaining_download_count - 1)
      after e here = unfold set_link in rw (find-update, e, here)

      other : (id == link_id) ≡ false → left link_id (set_link id (spent b) db) ≡ left link_id db
      other e = unfold set_link in rw (find-update, e)

abbrev pub redeem_at : ℕ → Result Reason (PublicLink × SourceItem) → LinkEvent
redeem_at id (ok row) = delivered id
redeem_at id (err e) = nothing

abbrev reserve_event : ℕ → Result Reason (Option DeliveryTicket) → LinkEvent
reserve_event id (ok (some ticket)) = delivered id
reserve_event id _ = nothing

module _ (link_id n : ℕ) where
  -- An event of the outcome counts.
  abbrev pub Counted :
      {A : Type 0} → (Result Reason A → LinkEvent) → Result Reason A × Database → Type 0
  Counted event o = Counts link_id n (event o.0) o.1

  module _ (db : Database) (has : left link_id db ≡ some n) where
    ticket_if-Counted :
        (now ticket_id id token : ℕ) (link : PublicLink) (b : Bool)
        → find id db.public_links ≡ some link
        → can_spend (some link) ≡ true
        → OnOk
            (Counted (reserve_event id))
            (ticket_if now ticket_id id token true (set_link id (spent b) db))
    unfolding ticket_if
    ticket_if-Counted now ticket_id id token link b found allowed =
        bind_rule (OnOk (Counted (reserve_event id))) (create_ticket now ticket_id id token) _
          (set_link id (spent b) db) (λ e db' h. tt)
          λ ticket db' h.
            unfold pure in
            Counts-spent link_id n db has id link b db' found allowed
              (outcome-Leaves (create_ticket-Leaves link_id now ticket_id id token) h)

    pub reserve_public_download-Counted :
        (now ticket_id token id : ℕ)
        → Counted (reserve_event id) (reserve_public_download now ticket_id token id db)
    unfolding reserve_public_download
    reserve_public_download-Counted now ticket_id token id =
        transaction_body_rule (Counted (reserve_event id)) _ db
          (λ e. Counts-nothing link_id n db has db refl)
          (elim (spend_cases id db) [
            | inl none_spent ↦
                subst (OnOk (Counted (reserve_event id)))
                  (sym (bind_ok (spend id) (ticket_if now ticket_id id token) db false none_spent))
                  (unfold ticket_if pure in Counts-nothing link_id n db has db refl)
            | inr (link, found, allowed, e) ↦
                subst (OnOk (Counted (reserve_event id)))
                  (sym (bind_ok (spend id) (ticket_if now ticket_id id token) db true e))
                  (ticket_if-Counted now ticket_id id token link (last link) found allowed)
          ])

  answered :
      (id : ℕ) (parts : List StoredPart) (reservation : Option DeliveryTicket) (db : Database)
      → Counted (reserve_event id) (ok reservation, db)
      → Counted download_event (
          (or_throw reservation (not_found invalid_public_link) >>= λ ticket.
          pure (download_of id parts ticket))
            db)
  unfolding or_throw pure ◌>>=◌
  answered id parts none db c = c
  answered id parts (some ticket) db c = c

  pub create_public_download-Counted :
      (now ticket_id token link_token : ℕ) (db : Database)
      → left link_id db ≡ some n
      → Counted download_event (create_public_download now ticket_id token link_token db)
  unfolding create_public_download
  create_public_download-Counted now ticket_id token link_token db has =
      bind_rule (Counted download_event) (refresh_by_token now link_token) _ db
        (λ e db' h. Counts-nothing link_id n db has db' (kept h))
        λ refreshed db' h.
          let has' : left link_id db' ≡ some n = kept h ∙ has in
          lift_rule (Counted download_event) _ _ db'
            (λ e k. Counts-nothing link_id n db' has' db' refl)
            λ u k.
              lift_rule (Counted download_event) _ _ db'
                (λ e l. Counts-nothing link_id n db' has' db' refl)
                λ parts l.
                  bind_rule (Counted download_event)
                    (reserve_public_download now ticket_id token refreshed.0) _ db'
                    (λ e db'' r.
                      subst (Counted (reserve_event refreshed.0)) r
                        (reserve_public_download-Counted db' has' now ticket_id token refreshed.0))
                    λ reservation db'' r. answered refreshed.0 parts reservation db'' (
                      subst (Counted (reserve_event refreshed.0)) r
                        (reserve_public_download-Counted db' has' now ticket_id token refreshed.0))
    where
      kept :
          {r : Result Reason (ℕ × PublicLink × SourceItem)} {db' : Database}
          → refresh_by_token now link_token db ≡ (r, db')
          → left link_id db' ≡ left link_id db
      kept h = outcome-Leaves (refresh_by_token-Leaves link_id now link_token) h

-- ===== src/Links/Redemption.antt =====
-- A delivery ticket is redeemed at most once.
use liminalis.Common.{
  ℕ, ◌≡◌, refl, sym, ap, subst, ◌∙◌, Bool, true, false, Option, none, some, arith, inl, inr,
  Bool-cases,
}
use liminalis.Common.Exec.{Result, ok, err, not_found, guard, gets, modify, pure, or_throw, ◌>>=◌}
use liminalis.Common.Exec.Rules.{
  OnOk, transaction_body_rule, bind_rule, lift_rule, gets_rule, or_throw_rule,
}
use liminalis.Common.Exec.Leaves.{Leaves, leaves_rules, outcome-Leaves}
use liminalis.Common.Table.{Table, Distinct, find, find_where, update}
use liminalis.Common.Table.Selection.{find_where-update}
use liminalis.Schema.{DeliveryTicket, PublicLink, SourceItem, Database, Reason, invalid_public_link}
use liminalis.Links.State.{load_link, spend, set_link}
use liminalis.Links.Tickets.{
  with_ticket_token, is_open, mark_redeemed, redeem_issued_ticket, redeemable,
  redeem_delivery_ticket,
}
use liminalis.Links.Spending.{spend_cases}

abbrev tickets : Database → Table DeliveryTicket
tickets db = db.delivery_tickets

load_link-tickets : (id : ℕ) → Leaves tickets (load_link id)
unfolding load_link
load_link-tickets id = search leaves_rules depth 10

spend-tickets : (id : ℕ) → Leaves tickets (spend id)
unfolding set_link
spend-tickets id = record {
  at = λ db. elim (spend_cases id db) [
    | inl e ↦ ap (λ o. tickets o.1) e
    | inr (link, found, allowed, e) ↦ ap (λ o. tickets o.1) e
  ];
}

-- The ticket row after its redemption.
abbrev pub redeemed_ticket : ℕ → DeliveryTicket → DeliveryTicket
redeemed_ticket now t = record t { redeemed_at = some now }

-- A mark that counts a row has written it.
mark_redeemed-writes :
    (now id : ℕ) (db db' : Database)
    → mark_redeemed now id db ≡ (ok true, db')
    → tickets db' ≡ update id (redeemed_ticket now) (tickets db)
unfolding mark_redeemed gets modify pure ◌>>=◌
mark_redeemed-writes now id db db' h = elim (Bool-cases (is_open now (find id (tickets db)))) [
  | inl open_ticket ↦ sym (ap (λ o. tickets o.1) (rw open_ticket at h))
  | inr closed ↦ absurd (no (ap (λ o. o.0) (rw closed at h)))
]
  where
    no : ◌≡◌ {A = Result Reason Bool} (ok false) (ok true) → ⊥
    no p = cc

-- What a redemption has done when it answers: the ticket under its key is marked.
abbrev Marked : {A : Type 0} → ℕ → ℕ → Database → Result Reason A × Database → Type 0
Marked now id db (ok r, db') = tickets db' ≡ update id (redeemed_ticket now) (tickets db)
Marked now id db (err e, db') = Unit

redeem_issued_ticket-Marked :
    (now ticket_id link_id : ℕ) (db : Database)
    → Marked now ticket_id db (redeem_issued_ticket now ticket_id link_id db)
unfolding redeem_issued_ticket
redeem_issued_ticket-Marked now ticket_id link_id db =
    transaction_body_rule (Marked now ticket_id db) _ db (λ e. tt)
      (bind_rule (OnOk (Marked now ticket_id db)) (load_link link_id) _ db (λ e db' h. tt)
        λ loaded db' h.
          lift_rule (OnOk (Marked now ticket_id db)) _ _ db' (λ e k. tt)
            λ u k.
              bind_rule (OnOk (Marked now ticket_id db)) (mark_redeemed now ticket_id) _ db'
                (λ e db'' m. tt)
                λ marked db'' m.
                  lift_rule (OnOk (Marked now ticket_id db)) (guard marked _) _ db'' (λ e l. tt)
                    λ v l.
                      bind_rule (OnOk (Marked now ticket_id db)) (spend link_id) _ db''
                        (λ e d n. tt)
                        λ spent d n.
                          lift_rule (OnOk (Marked now ticket_id db)) _ _ d (λ e o. tt)
                            λ w o. loaded_last d (
                              outcome-Leaves (spend-tickets link_id) n
                              ∙ mark_redeemed-writes now ticket_id db' db''
                                  (m ∙ ap (λ b. (ok b, db'')) (passed marked l))
                              ∙ ap (update ticket_id (redeemed_ticket now))
                                  (outcome-Leaves (load_link-tickets link_id) h)))
  where
    passed :
        (b : Bool) {u : Unit {0}}
        → guard {R = Reason} b (not_found invalid_public_link) ≡ ok u
        → b ≡ true
    passed b h = ground arith

    loaded_last :
        (d : Database)
        → tickets d ≡ update ticket_id (redeemed_ticket now) (tickets db)
        → OnOk (Marked now ticket_id db) (load_link link_id d)
    loaded_last d e = go (load_link link_id d) refl
      where
        go :
            (o : Result Reason (PublicLink × SourceItem) × Database)
            → load_link link_id d ≡ o
            → OnOk (Marked now ticket_id db) o
        go (ok row, d') k = outcome-Leaves (load_link-tickets link_id) k ∙ e
        go (err x, d') k = tt

redeemable-found :
    (now : ℕ) (o : Option (ℕ × DeliveryTicket)) (found : ℕ × DeliveryTicket)
    → redeemable now o ≡ some found
    → o ≡ some found
redeemable-found now o found h = ground arith

redeemable-redeemed :
    (later now id : ℕ) (ticket : DeliveryTicket)
    → redeemable later (some (id, redeemed_ticket now ticket)) ≡ none
redeemable-redeemed later now id ticket = ground arith

-- The ticket that a redemption has marked.
abbrev Redeemed : ℕ → ℕ → Database → Result Reason (ℕ × PublicLink × SourceItem) × Database → Type 0
Redeemed now token db (ok r, db') =
    (found : ℕ × DeliveryTicket) × (find_where (with_ticket_token token) (tickets db) ≡ some found)
    × (tickets db' ≡ update found.0 (redeemed_ticket now) (tickets db))
Redeemed now token db (err e, db') = Unit

redeem_delivery_ticket-Redeemed :
    (now token : ℕ) (db : Database) → Redeemed now token db (redeem_delivery_ticket now token db)
unfolding redeem_delivery_ticket pure
redeem_delivery_ticket-Redeemed now token db = gets_rule (Redeemed now token db) _ _ db (
    or_throw_rule (Redeemed now token db) _ _ _ db tt λ (found : ℕ × DeliveryTicket) chosen.
      let body = redeem_issued_ticket-Marked now found.0 found.1.public_link_id db in
      bind_rule (Redeemed now token db) (redeem_issued_ticket now found.0 found.1.public_link_id) _
        db (λ e db' h. tt)
        λ redeemed db' h.
          (found, redeemable-found now _ found chosen, subst (Marked now found.0 db) h body))

-- Where no key stands twice in the table of tickets, a token that has been redeemed is refused at
-- any time after, and the refusal changes nothing.
pub redeem_delivery_ticket-once :
    (now later token : ℕ) (db db' : Database) (r : ℕ × PublicLink × SourceItem)
    → Distinct db.delivery_tickets
    → redeem_delivery_ticket now token db ≡ (ok r, db')
    → redeem_delivery_ticket later token db' ≡ (err (not_found invalid_public_link), db')
unfolding redeem_delivery_ticket gets or_throw ◌>>=◌
redeem_delivery_ticket-once now later token db db' r distinct h =
    let (found, chosen, marked) =
      subst (Redeemed now token db) h (redeem_delivery_ticket-Redeemed now token db) in
    let after : find_where (with_ticket_token token) (tickets db')
        ≡ some (found.0, redeemed_ticket now found.1) =
      ap (find_where (with_ticket_token token)) marked
      ∙ find_where-update (with_ticket_token token) (redeemed_ticket now) (tickets db) found.0
          found.1 (λ b. refl) distinct chosen in
    rw (after, redeemable-redeemed later now found.0 found.1)

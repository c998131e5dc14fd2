-- ===== src/Links/Supply.antt =====
-- The account of a link over every history of requests.
use liminalis.Common.{
  ℕ, ◌+◌, ◌≡◌, refl, sym, ap, subst, ◌∙◌, inl, inr, none, some, List, [], ◌∷◌, arith, if◌then◌else◌,
  Bool-cases, Option-cases, ◌==◌, ==_iff,
}
use liminalis.Common.Exec.{◌>>◌, Result, lift, gets, modify, pure, ◌>>=◌}
use liminalis.Common.Exec.Rules.{bind_rule, lift_rule, gets_rule, or_throw_rule}
use liminalis.Common.Exec.Leaves.{Leaves, leaves_rules, outcome-Leaves}
use liminalis.Common.Table.{find, find_where, find-create}
use liminalis.Schema.{PublicLink, SourceItem, Database, Reason, ConfidentialityLevel}
use liminalis.Policy.{evaluate_public_link_creation, PublicLinkInput}
use liminalis.Links.State.{is_past, with_token}
use liminalis.Links.Creation.{
  CreatePublicLink, create_public_link, refuse_expired, insert_link, new_link,
}
use liminalis.Links.Downloads.{finish_public_download}
use liminalis.Links.Requests.{
  LinkRequest, creates, downloads, finishes, releases, redeems, issues, taken, serve_link,
  serve_links, total_taken, total_given_back,
}
use liminalis.Links.Left.{left, left_of, issue_delivery_ticket-Leaves}
use liminalis.Links.Budget.{Counts, create_public_download-Counted}
use liminalis.Links.Account.{redeem_delivery_ticket-Counted, release_public_download-Counted}
use liminalis.Policy.Current.{get_current_bundle}

module _ (link_id : ℕ) where
  refuse_expired-Leaves :
      (now id : ℕ) (item : SourceItem) → Leaves (left link_id) (refuse_expired now id item)
  unfolding refuse_expired
  refuse_expired-Leaves now id item = elim (Bool-cases (is_past now item.valid_until)) [
    | inl e ↦ rw (e, if◌then◌else◌) (search leaves_rules)
    | inr e ↦ rw (e, if◌then◌else◌) (search leaves_rules)
  ]

  get_current_bundle-Leaves :
      (level : ConfidentialityLevel) → Leaves (left link_id) (get_current_bundle level)
  unfolding get_current_bundle
  get_current_bundle-Leaves level = search leaves_rules

  evaluate_public_link-Leaves :
      (input : PublicLinkInput) → Leaves (left link_id) (evaluate_public_link_creation input)
  unfolding evaluate_public_link_creation
  evaluate_public_link-Leaves input = search (leaves_rules, get_current_bundle-Leaves)

  -- A new row never takes the key of one that is there.
  insert_link-left :
      (id : ℕ) (link : PublicLink) (db : Database) (n : ℕ)
      → left link_id db ≡ some n
      → left link_id (insert_link id link db).1 ≡ some n
  unfolding insert_link gets lift modify ◌>>=◌
  insert_link-left id link db n has = elim (Option-cases (find id db.public_links)) [
    | inl free ↦ elim (Option-cases (find_where (with_token link.link_token) db.public_links)) [
      | inl unused ↦
          rw (free, unused)
            (rw (find-create) (elim (Bool-cases (id == link_id)) [
              | inl e ↦ absurd (clash ((==_iff id link_id).0 e) free)
              | inr e ↦ rw (e, if◌then◌else◌) has
            ]))
      | inr (a, taken) ↦ rw (free, taken) has
    ]
    | inr (a, present) ↦ rw present has
  ]
    where
      clash : id ≡ link_id → find id db.public_links ≡ none → ⊥
      clash same free =
          impossible (sym has ∙ ap left_of (subst (λ i. find i db.public_links ≡ none) same free))
        where
          impossible : some n ≡ none → ⊥
          impossible p = cc

  abbrev Has : {A : Type 0} → ℕ → Result Reason A × Database → Type 0
  Has n o = left link_id o.1 ≡ some n

  inserted :
      (id : ℕ) (link : PublicLink) (db : Database) (n : ℕ)
      → left link_id db ≡ some n
      → Has n ((insert_link id link >> pure {A = ℕ × PublicLink} (id, link)) db)
  unfolding pure
  inserted id link db n has =
      let answer : ℕ × PublicLink = (id, link) in
      bind_rule (Has n) (insert_link id link) (λ _. pure answer) db
        (λ x d h. subst (Has n) h (insert_link-left id link db n has))
        (λ x d h. subst (Has n) h (insert_link-left id link db n has))

  create_public_link-left :
      (now id token owner : ℕ) (input : CreatePublicLink) (db : Database) (n : ℕ)
      → left link_id db ≡ some n
      → left link_id (create_public_link now id token owner input db).1 ≡ some n
  unfolding create_public_link pure
  create_public_link-left now id token owner input db n has = gets_rule (Has n) _ _ db (
      or_throw_rule (Has n) _ _ _ db has λ (item : SourceItem) e.
        lift_rule (Has n) _ _ db (λ x k. has)
          λ u k.
            bind_rule (Has n) (refuse_expired now input.source_item_id item) _ db
              (λ x db' h.
                outcome-Leaves (refuse_expired-Leaves now input.source_item_id item) h ∙ has)
              λ v db' h.
                let has' : left link_id db' ≡ some n =
                  outcome-Leaves (refuse_expired-Leaves now input.source_item_id item) h ∙ has in
                lift_rule (Has n) _ _ db' (λ x l. has')
                  λ w l.
                    bind_rule (Has n) (evaluate_public_link_creation _) _ db'
                      (λ x db'' m. outcome-Leaves (evaluate_public_link-Leaves _) m ∙ has')
                      λ decision db'' m.
                        let has'' : left link_id db'' ≡ some n =
                          outcome-Leaves (evaluate_public_link-Leaves _) m ∙ has' in
                        or_throw_rule (Has n) _ _ _ db'' has'' λ (count : ℕ) c.
                          inserted id
                            (new_link now token input.source_item_id count
                              decision.resolved_validity_minutes item)
                            db'' n has'')

  finish_public_download-Leaves :
      (now token : ℕ) → Leaves (left link_id) (finish_public_download now token)
  unfolding finish_public_download
  finish_public_download-Leaves now token = search leaves_rules

  -- One request.
  serve_link-Counts :
      (r : ℕ × LinkRequest) (db : Database) (n : ℕ)
      → left link_id db ≡ some n
      → Counts link_id n (serve_link r db).0 (serve_link r db).1
  unfolding serve_link
  serve_link-Counts (now, creates id token owner input) db n has =
      (n, create_public_link-left now id token owner input db n has, refl)
  serve_link-Counts (now, downloads ticket_id token link_token) db n has =
      create_public_download-Counted link_id n now ticket_id token link_token db has
  serve_link-Counts (now, finishes token) db n has =
      (n, (finish_public_download-Leaves now token).at db ∙ has, refl)
  serve_link-Counts (now, releases token) db n has =
      release_public_download-Counted link_id n now token db has
  serve_link-Counts (now, redeems token) db n has =
      redeem_delivery_ticket-Counted link_id n now token db has
  serve_link-Counts (now, issues ticket_id token link_token) db n has =
      (n, (issue_delivery_ticket-Leaves link_id now ticket_id token link_token).at db ∙ has, refl)

-- Over any history of requests, a link that is there stays there, and what it has left at the end and
-- the downloads that were taken
-- from it make what it had left at the start and the downloads that were given back.
pub serve_links-balance :
    (link_id : ℕ) (requests : List (ℕ × LinkRequest)) (db : Database) (n : ℕ)
    → left link_id db ≡ some n
    → (m : ℕ) × (left link_id (serve_links requests db) ≡ some m)
      × (m + total_taken link_id requests db ≡ n + total_given_back link_id requests db)
unfolding serve_links total_taken total_given_back
serve_links-balance link_id [] db n has = (n, has, refl)
serve_links-balance link_id (r ∷ rs) db n has =
    let (k, has', e) = serve_link-Counts link_id r db n has in
    let (m, has'', e') = serve_links-balance link_id rs (serve_link r db).1 k has' in
    (m, has'', omega (arith, e, e'))

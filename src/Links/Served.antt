-- ===== src/Links/Served.antt =====
-- A link delivers an active item only.
use liminalis.Common.{
  Option-cases, ℕ, ◌≡◌, sym, subst, inl, inr, true, some, arith, Bool-cases, if◌then◌else◌,
}
use liminalis.Common.Exec.{gets, or_throw, Result, ok, err, modify, pure, ◌>>=◌}
use liminalis.Common.Exec.Rules.{bind_rule, lift_rule, or_throw_rule, OnOk, transaction_body_rule}
use liminalis.Common.Table.{find_where, find}
use liminalis.Schema.{
  Handler, DeliveryTicket, PublicLink, PublicLinkState, SourceItem, Database, Reason,
  is_active_item, is_active_link, same_link_state,
}
use liminalis.Links.State.{
  with_token, load_link, next_state, store_state, refresh_public_link_state, refresh_by_token,
  spend,
}
use liminalis.Links.Tickets.{
  with_ticket_token, redeemable, redeem_issued_ticket, redeem_delivery_ticket, mark_redeemed,
  is_deliverable,
}
use liminalis.Links.Downloads.{PublicDownload, reserve_public_download, create_public_download}
use liminalis.Links.Limits.{guard-true}

-- The item of a link.
pub record IsServed (id : ℕ) (db : Database) : Type 0 where
  pub link : PublicLink
  pub item : SourceItem
  pub found : find id db.public_links ≡ some link
  pub source : find link.source_item_id db.source_items ≡ some item
  pub item_active : is_active_item item.state ≡ true

-- What a load finds.
record IsLoaded (id : ℕ) (db : Database) (link : PublicLink) (item : SourceItem) : Type 0 where
  found : find id db.public_links ≡ some link
  source : find link.source_item_id db.source_items ≡ some item

module _ (db : Database) where
  abbrev Loaded : ℕ → Result Reason (PublicLink × SourceItem) × Database → Type 0
  Loaded id (ok (link, item), d) = IsLoaded id db link item
  Loaded id (err e, d) = Unit

  load_link-Loaded : (id : ℕ) → Loaded id (load_link id db)
  unfolding load_link gets or_throw pure ◌>>=◌
  load_link-Loaded id = elim (Option-cases (find id db.public_links)) [
    | inl missing ↦ rw (missing) tt
    | inr (link, found) ↦ elim (Option-cases (find link.source_item_id db.source_items)) [
      | inl missing ↦ rw (found, missing) tt
      | inr (item, source) ↦ rw (found, source) (record { found = found; source = source })
    ]
  ]

  -- A refreshed link that is active has an active item.
  abbrev Fresh : ℕ → PublicLink → Type 0
  Fresh id fresh = is_active_link fresh.state ≡ true → IsServed id db

  abbrev Refreshed : ℕ → Result Reason (PublicLink × SourceItem) × Database → Type 0
  Refreshed id (ok (link, item), d) = Fresh id link
  Refreshed id (err e, d) = Unit

  next_state-active :
      (now : ℕ) (link : PublicLink) (item : SourceItem)
      → is_active_link (next_state now link item) ≡ true
      → is_active_item item.state ≡ true
  unfolding next_state
  next_state-active now link item h = ground arith

  same_state :
      (a b : PublicLinkState)
      → same_link_state a b ≡ true
      → is_active_link b ≡ true
      → is_active_link a ≡ true
  same_state a b h k = ground arith

  store_state-Refreshed :
      (now id : ℕ) (loaded : PublicLink × SourceItem) (d : Database)
      → IsLoaded id db loaded.0 loaded.1
      → Refreshed id (store_state id loaded (next_state now loaded.0 loaded.1) d)
  unfolding store_state pure modify ◌>>=◌
  store_state-Refreshed now id loaded d l =
      elim (Bool-cases (same_link_state (next_state now loaded.0 loaded.1) loaded.0.state)) [
        | inl same ↦ rw (same, if◌then◌else◌) (λ h. served (same_state _ loaded.0.state same h))
        | inr other ↦ rw (other, if◌then◌else◌) (λ h. served h)
      ]
    where
      served : is_active_link (next_state now loaded.0 loaded.1) ≡ true → IsServed id db
      served h = record {
        link = loaded.0;
        item = loaded.1;
        found = l.found;
        source = l.source;
        item_active = next_state-active now loaded.0 loaded.1 h;
      }

  refresh_public_link_state-Refreshed :
      (now id : ℕ) → Refreshed id (refresh_public_link_state now id db)
  unfolding refresh_public_link_state
  refresh_public_link_state-Refreshed now id =
      bind_rule (Refreshed id) (load_link id) _ db (λ e d h. tt)
        λ loaded d h.
          store_state-Refreshed now id loaded d (subst (Loaded id) h (load_link-Loaded id))

  abbrev Entered : Result Reason (ℕ × PublicLink × SourceItem) × Database → Type 0
  Entered (ok (id, link, item), d) = Fresh id link
  Entered (err e, d) = Unit

  refresh_by_token-Entered : (now token : ℕ) → Entered (refresh_by_token now token db)
  refresh_by_token-Entered now token =
      elim (Option-cases (find_where (with_token token) db.public_links)) [
        | inl missing ↦ unfold refresh_by_token gets or_throw ◌>>=◌ in rw (missing) tt
        | inr (found, e) ↦ subst Entered (sym (step found e)) (
            bind_rule Entered (refresh_public_link_state now found.0) (rest found) db (λ x d h. tt)
              (λ refreshed d h.
                unfold pure in
                subst (Refreshed found.0) h (refresh_public_link_state-Refreshed now found.0)))
      ]
    where
      rest : ℕ × PublicLink → PublicLink × SourceItem → Handler (ℕ × PublicLink × SourceItem)
      rest found refreshed = pure (found.0, refreshed.0, refreshed.1)

      step :
          (found : ℕ × PublicLink)
          → find_where (with_token token) db.public_links ≡ some found
          → refresh_by_token now token db
            ≡ (refresh_public_link_state now found.0 >>= rest found) db
      step found e = unfold refresh_by_token gets or_throw ◌>>=◌ in rw (e)

  abbrev pub Downloaded : Result Reason PublicDownload × Database → Type 0
  Downloaded (ok download, d) = IsServed download.public_link_id db
  Downloaded (err e, d) = Unit

  pub create_public_download-Downloaded :
      (now ticket_id token link_token : ℕ)
      → Downloaded (create_public_download now ticket_id token link_token db)
  unfolding create_public_download pure
  create_public_download-Downloaded now ticket_id token link_token =
      bind_rule Downloaded (refresh_by_token now link_token) _ db (λ x d h. tt)
        λ refreshed d h.
          lift_rule Downloaded _ _ d (λ x k. tt)
            λ u active.
              let served : IsServed refreshed.0 db =
                subst Entered h (refresh_by_token-Entered now link_token)
                  (guard-true (is_active_link refreshed.1.state) _ active) in
              lift_rule Downloaded _ _ d (λ x k. tt)
                λ parts k.
                  bind_rule Downloaded (reserve_public_download now ticket_id token refreshed.0) _ d
                    (λ x d' l. tt)
                    λ reservation d' l. or_throw_rule Downloaded _ _ _ d' tt λ ticket e. served

  deliverable-active :
      (now : ℕ) (link : PublicLink) (item : SourceItem)
      → is_deliverable now link item ≡ true
      → is_active_item item.state ≡ true
  deliverable-active now link item h = ground arith

  abbrev Redeemed : ℕ → Result Reason (PublicLink × SourceItem) × Database → Type 0
  Redeemed id (ok answer, d) = IsServed id db
  Redeemed id (err e, d) = Unit

  redeem_issued_ticket-Redeemed :
      (now ticket_id id : ℕ) → Redeemed id (redeem_issued_ticket now ticket_id id db)
  unfolding redeem_issued_ticket
  redeem_issued_ticket-Redeemed now ticket_id id =
      transaction_body_rule (Redeemed id) _ db (λ e. tt)
        (bind_rule (OnOk (Redeemed id)) (load_link id) _ db (λ e d h. tt)
          λ loaded d h.
            lift_rule (OnOk (Redeemed id)) _ _ d (λ e k. tt)
              λ u able.
                let l : IsLoaded id db loaded.0 loaded.1 =
                  subst (Loaded id) h (load_link-Loaded id) in
                let served : IsServed id db = record {
                  link = loaded.0;
                  item = loaded.1;
                  found = l.found;
                  source = l.source;
                  item_active =
                      deliverable-active now loaded.0 loaded.1
                        (guard-true (is_deliverable now loaded.0 loaded.1) _ able);
                } in
                bind_rule (OnOk (Redeemed id)) (mark_redeemed now ticket_id) _ d (λ e d' k. tt)
                  λ marked d' k.
                    lift_rule (OnOk (Redeemed id)) _ _ d' (λ e m. tt)
                      λ v m.
                        bind_rule (OnOk (Redeemed id)) (spend id) _ d' (λ e d'' n. tt)
                          λ spent d'' n.
                            lift_rule (OnOk (Redeemed id)) _ _ d'' (λ e o. tt)
                              λ w o. answered served (load_link id d''))
    where
      answered :
          IsServed id db
          → (o : Result Reason (PublicLink × SourceItem) × Database) → OnOk (Redeemed id) o
      answered served (ok a, d) = served
      answered served (err e, d) = tt

  abbrev pub Delivered : Result Reason (ℕ × PublicLink × SourceItem) × Database → Type 0
  Delivered (ok (id, link, item), d) = IsServed id db
  Delivered (err e, d) = Unit

  pub redeem_delivery_ticket-Delivered :
      (now token : ℕ) → Delivered (redeem_delivery_ticket now token db)
  redeem_delivery_ticket-Delivered now token =
      elim (Option-cases
        (redeemable now (find_where (with_ticket_token token) db.delivery_tickets))) [
          | inl missing ↦ unfold redeem_delivery_ticket gets or_throw ◌>>=◌ in rw (missing) tt
          | inr (found, e) ↦ subst Delivered (sym (step found e)) (
              bind_rule Delivered (redeem_issued_ticket now found.0 found.1.public_link_id)
                (rest found.1.public_link_id) db (λ x d h. tt)
                (λ redeemed d h.
                  unfold pure in
                  subst (Redeemed found.1.public_link_id) h
                    (redeem_issued_ticket-Redeemed now found.0 found.1.public_link_id)))
        ]
    where
      rest : ℕ → PublicLink × SourceItem → Handler (ℕ × PublicLink × SourceItem)
      rest id redeemed = pure (id, redeemed.0, redeemed.1)

      step :
          (found : ℕ × DeliveryTicket)
          → redeemable now (find_where (with_ticket_token token) db.delivery_tickets) ≡ some found
          → redeem_delivery_ticket now token db
            ≡ (redeem_issued_ticket now found.0 found.1.public_link_id
                  >>= rest found.1.public_link_id)
                db
      step found e = unfold redeem_delivery_ticket gets or_throw ◌>>=◌ in rw (e)

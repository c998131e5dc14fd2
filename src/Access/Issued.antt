-- ===== src/Access/Issued.antt =====
-- An owner and a recipient are issued an active item only.
use liminalis.Common.{ℕ, ◌≡◌, subst, inl, inr, true, false, Option, some, Bool-cases, if◌then◌else◌}
use liminalis.Common.Exec.{Result, ok, err, throw, pure}
use liminalis.Common.Exec.Rules.{bind_rule, lift_rule, gets_rule, or_throw_rule}
use liminalis.Common.Table.{find}
use liminalis.Schema.{ShareObject, AccessGrantSet, SourceItem, Database, Reason, is_active_item}
use liminalis.Links.{refuse_expired}
use liminalis.Links.Limits.{own_item-found, guard-true}
use liminalis.Retrieval.Attempts.{upsert_attempt, ensure_reference}
use liminalis.Retrieval.Families.{select_owner_package_family, select_recipient_package_family}
use liminalis.Retrieval.{IssuedRetrieval, issue_source_item_retrieval, upsert_source_owner_attempt}
use liminalis.Shares.{invalidate_share_from_source, refuse_ended_share, issue_recipient_retrieval}

-- The item is there and active.
abbrev pub Active : ℕ → Database → Type 0
Active id db =
    (row : SourceItem) × (find id db.source_items ≡ some row) × (is_active_item row.state ≡ true)

module _ (db : Database) where
  abbrev pub Issued : Result Reason IssuedRetrieval × Database → Type 0
  Issued (ok issued, d) = Active issued.source_item_id db
  Issued (err e, d) = Unit

  pub issue_source_item_retrieval-Issued :
      (now : ℕ) (new : ℕ × ℕ) (user_id : ℕ) (device : Option ℕ) (item_id scope_key : ℕ)
      → Issued (issue_source_item_retrieval now new user_id device item_id scope_key db)
  unfolding issue_source_item_retrieval pure
  issue_source_item_retrieval-Issued now new user_id device item_id scope_key =
      or_throw_rule Issued _ _ _ db tt λ (device_id : ℕ) e. gets_rule Issued _ _ db (
        or_throw_rule Issued _ _ _ db tt λ (item : SourceItem) f.
          lift_rule Issued _ _ db (λ x k. tt)
            λ u active.
              let found : find item_id db.source_items ≡ some item =
                (own_item-found user_id _ item f).0 in
              let served : Active item_id db =
                (item, found, guard-true (is_active_item item.state) _ active) in
              bind_rule Issued (refuse_expired now item_id item) _ db (λ x d h. tt)
                λ v d h. gets_rule Issued _ _ d (
                  or_throw_rule Issued _ _ _ d tt λ (grant : ℕ × AccessGrantSet) g.
                    bind_rule Issued (select_owner_package_family user_id device_id grant.1) _ d
                      (λ x d' k. tt)
                      λ selected d' k.
                        bind_rule Issued
                          (upsert_source_owner_attempt new.0 user_id device_id item_id scope_key) _
                          d' (λ x d'' l. tt)
                          λ attempt d'' l.
                            bind_rule Issued (ensure_reference attempt new.1 _) _ d'' (λ x d3 m. tt)
                              λ reference d3 m. served))

  abbrev Refused : Result Reason (Unit {0}) × Database → Type 0
  Refused (ok v, e) = ⊥
  Refused (err x, e) = Unit

  refuse_ended_share-Refused :
      (now id : ℕ) (row : ShareObject) (item : SourceItem) (d : Database)
      → is_active_item item.state ≡ false
      → Refused (refuse_ended_share now id row item d)
  unfolding refuse_ended_share throw
  refuse_ended_share-Refused now id row item d ended =
      rw (ended, if◌then◌else◌)
        (bind_rule Refused (invalidate_share_from_source now id) _ d (λ x d' h. tt) λ v d' h. tt)

  refuse_ended_share-ok :
      (now id : ℕ) (row : ShareObject) (item : SourceItem) (d d' : Database) (u : Unit {0})
      → refuse_ended_share now id row item d ≡ (ok u, d')
      → is_active_item item.state ≡ true
  refuse_ended_share-ok now id row item d d' u h = elim (Bool-cases (is_active_item item.state)) [
    | inl active ↦ active
    | inr ended ↦ absurd (subst Refused h (refuse_ended_share-Refused now id row item d ended))
  ]

  pub issue_recipient_retrieval-Issued :
      (now : ℕ) (new : ℕ × ℕ) (user_id : ℕ) (device : Option ℕ) (share_id scope_key : ℕ)
      → Issued (issue_recipient_retrieval now new user_id device share_id scope_key db)
  unfolding issue_recipient_retrieval pure
  issue_recipient_retrieval-Issued now new user_id device share_id scope_key =
      or_throw_rule Issued _ _ _ db tt λ (device_id : ℕ) e. gets_rule Issued _ _ db (
        or_throw_rule Issued _ _ _ db tt λ (share : ShareObject) f. gets_rule Issued _ _ db (
          or_throw_rule Issued _ _ _ db tt λ (item : SourceItem) source.
            lift_rule Issued _ _ db (λ x k. tt)
              λ u usable.
                bind_rule Issued (refuse_ended_share now share_id share item) _ db (λ x d h. tt)
                  λ v d h.
                    let served : Active share.source_item_id db =
                      (item, source, refuse_ended_share-ok now share_id share item db d v h) in
                    gets_rule Issued _ _ d (
                      or_throw_rule Issued _ _ _ d tt λ (grant : ℕ × AccessGrantSet) g.
                        bind_rule Issued (select_recipient_package_family user_id device_id grant.1)
                          _ d (λ x d' k. tt)
                          λ selected d' k.
                            bind_rule Issued (upsert_attempt _ new.0 _) _ d' (λ x d'' l. tt)
                              λ attempt d'' l.
                                bind_rule Issued (ensure_reference attempt new.1 _) _ d''
                                  (λ x d3 m. tt) λ reference d3 m. served)))

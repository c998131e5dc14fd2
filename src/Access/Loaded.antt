-- ===== src/Access/Loaded.antt =====
-- The parts of an active item only are downloaded.
use liminalis.Common.{
  inl, inr, Bool-cases, if◌then◌else◌, ℕ, ◌≡◌, refl, sym, ap, subst, ◌∙◌, Option, none, some,
}
use liminalis.Common.Exec.{Result, ok, err, pure}
use liminalis.Common.Exec.Leaves.{Leaves, leaves_rules, outcome-Leaves}
use liminalis.Common.Exec.Rules.{bind_rule, lift_rule, gets_rule, or_throw_rule}
use liminalis.Common.Table.{Table, find}
use liminalis.Schema.{
  same_extraction_state, ExtractionAccess, ExtractionState, RetrievalAttempt, SourceItem, Database,
  Reason, is_active_item,
}
use liminalis.Links.{refuse_expired}
use liminalis.Links.Limits.{guard-true}
use liminalis.SourceItems.{refuse_expired_item}
use liminalis.Retrieval.{StoredDownload, with_item, keyed_item, create_stored_download}
use liminalis.Extraction.{
  set_access, load_access, store_state, refresh_extraction_state, load_extraction_attempt,
  ExtractionDownload, found_or, attempt_item, create_download_stream,
}
use liminalis.Extraction.Refresh.{IsRefreshed, Refreshed, refresh_extraction_state-Refreshed}
use liminalis.Access.Issued.{Active}

module _ (db : Database) where
  abbrev pub Loaded : Result Reason StoredDownload × Database → Type 0
  Loaded (ok download, d) = Active download.source_item_id db
  Loaded (err e, d) = Unit

  with_item-found :
      (id : ℕ) (o : Option SourceItem) (item : ℕ × SourceItem)
      → with_item id o ≡ some item
      → (id ≡ item.0) × (o ≡ some item.1)
  with_item-found id none item h = cc
  with_item-found id (some row) item h = (cc, cc)

  keyed_item-found :
      (key : Option ℕ) (item : ℕ × SourceItem)
      → keyed_item key db ≡ some item
      → find item.0 db.source_items ≡ some item.1
  keyed_item-found none item h = cc
  keyed_item-found (some id) item h =
      let (same, found) = with_item-found id (find id db.source_items) item h in
      subst (λ k. find k db.source_items ≡ some item.1) same found

  pub create_stored_download-Loaded :
      (now user_id : ℕ) (device : Option ℕ) (attempt_id : ℕ)
      → Loaded (create_stored_download now user_id device attempt_id db)
  unfolding create_stored_download pure
  create_stored_download-Loaded now user_id device attempt_id =
      or_throw_rule Loaded _ _ _ db tt λ (device_id : ℕ) e. gets_rule Loaded _ _ db (
        or_throw_rule Loaded _ _ _ db tt λ (attempt : RetrievalAttempt) f.
          lift_rule Loaded _ _ db (λ x k. tt)
            λ u opened. gets_rule Loaded _ _ db (
              lift_rule Loaded _ _ db (λ x k. tt)
                λ v usable. gets_rule Loaded _ _ db (
                  or_throw_rule Loaded _ _ _ db tt λ (item : ℕ × SourceItem) g.
                    lift_rule Loaded _ _ db (λ x k. tt)
                      λ w active.
                        let served : Active item.0 db = (
                          item.1,
                          keyed_item-found _ item g,
                          guard-true (is_active_item item.1.state) _ active,
                        ) in
                        bind_rule Loaded (refuse_expired_item now item.0 item.1) _ db (λ x d h. tt)
                          λ y d h. lift_rule Loaded _ _ d (λ x k. tt) λ parts k. served)))

abbrev items : Database → Table SourceItem
items db = db.source_items

load_access-items : (id : ℕ) → Leaves items (load_access id)
unfolding load_access
load_access-items id = search leaves_rules depth 12

store_state-items :
    (id : ℕ) (loaded : ExtractionAccess × SourceItem) (next : ExtractionState)
    → Leaves items (store_state id loaded next)
unfolding store_state set_access
store_state-items id loaded next = elim (Bool-cases (same_extraction_state next loaded.0.state)) [
  | inl e ↦ rw (e, if◌then◌else◌) (search leaves_rules)
  | inr e ↦ rw (e, if◌then◌else◌) (search leaves_rules)
]

refresh_extraction_state-items : (now id : ℕ) → Leaves items (refresh_extraction_state now id)
unfolding refresh_extraction_state
refresh_extraction_state-items now id =
    search (leaves_rules, load_access-items, store_state-items) depth 12

load_extraction_attempt-items : (id : ℕ) → Leaves items (load_extraction_attempt id)
unfolding load_extraction_attempt
load_extraction_attempt-items id = search leaves_rules depth 14

module _ (db : Database) where
  abbrev pub Extracted : Result Reason ExtractionDownload × Database → Type 0
  Extracted (ok download, d) = Active download.source_item_id db
  Extracted (err e, d) = Unit

  attempt_item-found :
      (key : Option ℕ) (other : ℕ × SourceItem) (d : Database)
      → find other.0 d.source_items ≡ some other.1
      → find (attempt_item key other d).0 d.source_items ≡ some (attempt_item key other d).1
  attempt_item-found none other d h = h
  attempt_item-found (some id) other d h = go (find id d.source_items) refl
    where
      go :
          (o : Option SourceItem)
          → find id d.source_items ≡ o
          → find (found_or id o other).0 d.source_items ≡ some (found_or id o other).1
      go none e = h
      go (some row) e = e

  refreshed-found :
      (now id : ℕ) (d d' : Database) (refreshed : ExtractionAccess × SourceItem)
      → IsRefreshed now id d refreshed.0 refreshed.1 d'
      → items d' ≡ items d
      → find refreshed.0.source_item_id d'.source_items ≡ some refreshed.1
  refreshed-found now id d d' refreshed r kept =
      subst (λ (t : Table SourceItem). find refreshed.0.source_item_id t ≡ some refreshed.1)
        (sym kept)
        (subst (λ k. find k d.source_items ≡ some refreshed.1)
          (sym (ap (λ (a : ExtractionAccess). a.source_item_id) r.refreshed)) r.source)

  pub create_download_stream-Extracted :
      (now attempt_id : ℕ) → Extracted (create_download_stream now attempt_id db)
  unfolding create_download_stream pure
  create_download_stream-Extracted now attempt_id =
      bind_rule Extracted (load_extraction_attempt attempt_id) _ db (λ x d h. tt)
        λ loaded d h.
          lift_rule Extracted _ _ d (λ x k. tt)
            λ u opened.
              bind_rule Extracted (refresh_extraction_state now loaded.0) _ d (λ x d' k. tt)
                λ refreshed d' k.
                  lift_rule Extracted _ _ d' (λ x l. tt)
                    λ v alive. gets_rule Extracted _ _ d' (
                      lift_rule Extracted _ _ d' (λ x l. tt)
                        λ w same.
                          lift_rule Extracted _ _ d' (λ x l. tt)
                            λ y active.
                              let kept : items d' ≡ items db =
                                outcome-Leaves (refresh_extraction_state-items now loaded.0) k
                                ∙ outcome-Leaves (load_extraction_attempt-items attempt_id) h in
                              let r : IsRefreshed now loaded.0 d refreshed.0 refreshed.1 d' =
                                subst (Refreshed now loaded.0 d) k
                                  (refresh_extraction_state-Refreshed now loaded.0 d) in
                              let served : Active
                                  (attempt_item loaded.1.source_item_id
                                    (refreshed.0.source_item_id, refreshed.1) d').0
                                  db =
                                (
                                  (attempt_item loaded.1.source_item_id
                                      (refreshed.0.source_item_id, refreshed.1) d').1,
                                  subst
                                      (λ (t : Table SourceItem).
                                        find
                                          (attempt_item loaded.1.source_item_id
                                            (refreshed.0.source_item_id, refreshed.1) d').0
                                          t
                                        ≡ some
                                            (attempt_item loaded.1.source_item_id
                                              (refreshed.0.source_item_id, refreshed.1) d').1)
                                      kept
                                      (attempt_item-found loaded.1.source_item_id
                                        (refreshed.0.source_item_id, refreshed.1) d'
                                        (refreshed-found now loaded.0 d d' refreshed r (
                                          outcome-Leaves
                                            (refresh_extraction_state-items now loaded.0) k))),
                                  guard-true
                                      (is_active_item
                                        (attempt_item loaded.1.source_item_id
                                          (refreshed.0.source_item_id, refreshed.1) d').1.state)
                                      _ active,
                                ) in
                              bind_rule Extracted (refuse_expired now _ _) _ d' (λ x d'' l. tt)
                                λ z d'' l.
                                  lift_rule Extracted _ _ d'' (λ x m. tt) λ parts m. served)

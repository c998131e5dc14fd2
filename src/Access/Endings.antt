-- ===== src/Access/Endings.antt =====
-- What ends an item for good.
use liminalis.Common.{ℕ, ◌≡◌, refl, subst, Bool, true, false, some, List, ==_self, if◌then◌else◌}
use liminalis.Common.Exec.{Result, ok, or_throw, gets, ◌>>=◌}
use liminalis.Common.Exec.Rules.{bind_rule, bind_ok}
use liminalis.Common.Table.{find, find_many, keys, find-update}
use liminalis.Schema.{SourceItem, SourceItemState, Database, Reason, is_active_item}
use liminalis.Links.{own_item}
use liminalis.SourceItems.{
  set_item, share_of, end_item, invalidate_source_item, project_source_and_shares,
  require_owned_source_item, revoke_source_item_for_owner,
}
use liminalis.SourceItems.Invalidation.{end_item_lem}
use liminalis.Access.Requests.{AccessRequest, ever_discloses}
use liminalis.Access.Ended.{Ended}
use liminalis.Access.Items.{
  invalidate_derived-Ended, project_source_and_shares-Keeps, get_source_item_for_owner-Keeps,
}
use liminalis.Access.Closed.{serve_accesses-closed}

module _ (id : ℕ) (row : SourceItem) (db : Database)
    (found : find id db.source_items ≡ some row) where
  -- The item with another state.
  set_state-Ended :
      (state : SourceItemState)
      → is_active_item state ≡ false
      → Ended id (set_item id (λ item. record item { state = state }) db)
  unfolding set_item
  set_state-Ended state ended =
      (record row { state = state }, rw (find-update, ==_self id, found) refl, ended)

  invalidate_source_item-Ended :
      (now : ℕ) (state : SourceItemState)
      → is_active_item state ≡ false
      → Ended id (invalidate_source_item now id state db).1
  unfolding invalidate_source_item
  invalidate_source_item-Ended now state ended =
      let ids : List ℕ = keys (find_many (share_of id) db.share_objects) in
      rw
        (bind_ok (end_item id state) (λ ks. project_source_and_shares now id ks) db ids
          (end_item_lem id state db (rw (found) refl)))
        ((project_source_and_shares-Keeps id now id ids).at _
          (invalidate_derived-Ended id id ids _ (set_state-Ended state ended)))

  revoke_source_item_for_owner-Ended :
      (now user_id : ℕ)
      → own_item user_id (some row) ≡ some row
      → is_active_item row.state ≡ true
      → Ended id (revoke_source_item_for_owner now user_id id db).1
  unfolding revoke_source_item_for_owner
  revoke_source_item_for_owner-Ended now user_id own active =
      rw (bind_ok (require_owned_source_item user_id id) _ db row (owned own)) (
        rw (active, if◌then◌else◌)
          (bind_rule (λ (o : Result Reason SourceItem × Database). Ended id o.1)
            (invalidate_source_item now id SourceItemState.invalidated) _ db
            (λ e d h.
              subst (λ (o : Result Reason (Unit {0}) × Database). Ended id o.1) h
                (invalidate_source_item-Ended now SourceItemState.invalidated refl))
            (λ u d h. (get_source_item_for_owner-Keeps id now user_id id).at d (
              subst (λ (o : Result Reason (Unit {0}) × Database). Ended id o.1) h
                (invalidate_source_item-Ended now SourceItemState.invalidated refl)))))
    where
      owned :
          own_item user_id (some row) ≡ some row
          → require_owned_source_item user_id id db ≡ (ok row, db)
      owned own = unfold require_owned_source_item gets or_throw ◌>>=◌ in rw (found, own)

-- After its owner has revoked an active item, no answer of any history of requests has the item,
-- other than those that show it to its owner, who asks to see or to revoke it.
pub revoke_source_item_for_owner-closes :
    (hash : ℕ → List ℕ → ℕ) (verify : ℕ → List ℕ → Bool) (now user_id id : ℕ) (row : SourceItem)
    (db : Database) (requests : List (ℕ × AccessRequest))
    → find id db.source_items ≡ some row
    → row.owner_user_id ≡ user_id
    → is_active_item row.state ≡ true
    → ever_discloses hash verify id requests (revoke_source_item_for_owner now user_id id db).1
      ≡ false
revoke_source_item_for_owner-closes hash verify now user_id id row db requests found own active =
    serve_accesses-closed hash verify id requests _
      (revoke_source_item_for_owner-Ended id row db found now user_id (mine own) active)
  where
    mine : row.owner_user_id ≡ user_id → own_item user_id (some row) ≡ some row
    mine own = rw (own, ==_self user_id) refl

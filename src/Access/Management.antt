-- ===== src/Access/Management.antt =====
-- The requests of an owner to see, revoke or change an item, at an item that has ended.
use liminalis.Common.{
  ℕ, ◌≡◌, refl, inl, inr, Bool, true, false, not, ◌&&◌, Option, none, some, is_some, List, arith,
  Bool-cases, ◌==◌, ==_iff, if◌then◌else◌,
}
use liminalis.Common.Exec.{Result, ok, err, is_ok, lift, gets, or_throw, pure, ◌>>=◌}
use liminalis.Common.Exec.Rules.{bind_ok}
use liminalis.Common.Table.{find}
use liminalis.Schema.{SourceItem, ConfidentialityLevel, Database, Reason}
use liminalis.Links.{own_item}
use liminalis.SourceItems.{
  refresh_owned_source_item_availability, refresh_owned, require_owned_source_item,
  get_source_item_for_owner, revoke_source_item_for_owner, change_confidentiality_for_owner,
  update_validity_for_owner,
}
use liminalis.Retrieval.Families.{is_key}
use liminalis.Access.Requests.{managed_item, shows, revokes, raises, prolongs, discloses, hands_out}
use liminalis.Access.Ended.{Ended}

-- An answer that an owner alone gets.
owners_alone :
    (id key : ℕ) (answer : Result Reason SourceItem) (own : Bool)
    → (own ≡ false → is_ok answer ≡ false)
    → is_key id (managed_item key answer) && not (key == id && own) ≡ false
owners_alone id key (err e) own refused = refl
owners_alone id key (ok row) true refused = ground arith
owners_alone id key (ok row) false refused = let no = refused refl in cc

refused_unless :
    (id key : ℕ) (answer : Result Reason SourceItem)
    → (key ≡ id → is_ok answer ≡ false)
    → is_key id (managed_item key answer) && not false ≡ false
refused_unless id key (err e) refused = refl
refused_unless id key (ok row) refused = elim (Bool-cases (key == id)) [
  | inl e ↦ let no = refused ((==_iff key id).0 e) in cc
  | inr e ↦ rw (e) refl
]

absent : (row : Option SourceItem) → is_some row ≡ false → row ≡ none
absent none h = refl
absent (some row) h = cc

module _ (id now user_id key : ℕ) where
  refreshed :
      (db : Database)
      → own_item user_id (find key db.source_items) ≡ none
      → refresh_owned_source_item_availability now user_id key db ≡ (ok tt, db)
  unfolding refresh_owned_source_item_availability refresh_owned gets pure ◌>>=◌
  refreshed db e = rw (e) refl

  required :
      (db : Database)
      → own_item user_id (find key db.source_items) ≡ none
      → is_ok (require_owned_source_item user_id key db).0 ≡ false
  unfolding require_owned_source_item gets or_throw ◌>>=◌
  required db e = rw (e) refl

  pub shows-closed :
      (verify : ℕ → List ℕ → Bool) (db : Database)
      → discloses verify id (now, shows user_id key) db ≡ false
  unfolding discloses hands_out get_source_item_for_owner
  shows-closed verify db =
      owners_alone id key _ (is_some (own_item user_id (find key db.source_items))) λ none_own.
        let none_there = absent (own_item user_id (find key db.source_items)) none_own in
        rw
          (bind_ok (refresh_owned_source_item_availability now user_id key)
            (λ u. require_owned_source_item user_id key) db tt (refreshed db none_there))
          (required db none_there)

  pub revokes-closed :
      (verify : ℕ → List ℕ → Bool) (db : Database)
      → discloses verify id (now, revokes user_id key) db ≡ false
  unfolding discloses hands_out revoke_source_item_for_owner require_owned_source_item gets or_throw
      ◌>>=◌
  revokes-closed verify db =
      owners_alone id key _ (is_some (own_item user_id (find key db.source_items)))
        λ none_own. rw (absent _ none_own) refl

  pub raises-closed :
      (verify : ℕ → List ℕ → Bool) (level : ConfidentialityLevel) (db : Database)
      → Ended id db
      → discloses verify id (now, raises user_id key level) db ≡ false
  unfolding discloses hands_out change_confidentiality_for_owner require_owned_source_item gets
      or_throw lift ◌>>=◌
  raises-closed verify level db (row, found, ended) = refused_unless id key _ λ same.
      rw (same, found)
        (elim (Bool-cases (row.owner_user_id == user_id)) [
          | inl e ↦ rw (e, if◌then◌else◌, ended) refl
          | inr e ↦ rw (e, if◌then◌else◌) refl
        ])

  pub prolongs-closed :
      (verify : ℕ → List ℕ → Bool) (minutes : Option ℕ) (db : Database)
      → Ended id db
      → discloses verify id (now, prolongs user_id key minutes) db ≡ false
  unfolding discloses hands_out update_validity_for_owner require_owned_source_item gets or_throw
      lift ◌>>=◌
  prolongs-closed verify minutes db (row, found, ended) = refused_unless id key _ λ same.
      rw (same, found)
        (elim (Bool-cases (row.owner_user_id == user_id)) [
          | inl e ↦ rw (e, if◌then◌else◌, ended) refl
          | inr e ↦ rw (e, if◌then◌else◌) refl
        ])

-- ===== src/Extraction/Refresh.antt =====
-- What a refresh finds and answers.
use liminalis.Common.{
  ◌⊎◌, ℕ, ◌≡◌, refl, sym, ap, subst, inl, inr, true, false, some, arith, if◌then◌else◌, Bool-cases,
  Option-cases, leb,
}
use liminalis.Common.Exec.{Result, ok, err, gets, modify, pure, or_throw, ◌>>=◌}
use liminalis.Common.Exec.Rules.{bind_ok, bind_rule}
use liminalis.Common.Table.{find, find_where}
use liminalis.Schema.{
  Handler, ExtractionAccess, ExtractionState, challenge_required, SourceItem, Database, Reason,
  is_active_item, is_retrievable_state, same_extraction_state,
}
use liminalis.Links.{is_past}
use liminalis.Extraction.State.{
  set_access, load_access, next_state, store_state, refresh_extraction_state,
  refresh_by_entry_token, with_entry_token,
}

pub same_extraction_state_eq : (a b : ExtractionState) → same_extraction_state a b ≡ true → a ≡ b
same_extraction_state_eq ExtractionState.active b h = ground arith
same_extraction_state_eq challenge_required b h = ground arith
same_extraction_state_eq ExtractionState.exhausted b h = ground arith
same_extraction_state_eq ExtractionState.expired b h = ground arith
same_extraction_state_eq ExtractionState.revoked b h = ground arith
same_extraction_state_eq ExtractionState.invalidated b h = ground arith

abbrev pub with_state : ExtractionState → ExtractionAccess → ExtractionAccess
with_state next row = record row { state = next }

module _ (now id : ℕ) (db : Database) where
  -- The row and the item that a refresh reads, the row that it answers, and what it writes.
  pub record IsRefreshed (access : ExtractionAccess) (item : SourceItem) (after : Database)
      : Type 0 where
    pub row : ExtractionAccess
    pub found : find id db.extraction_accesses ≡ some row
    pub source : find row.source_item_id db.source_items ≡ some item
    pub refreshed : access ≡ with_state (next_state now row item) row
    pub written : (after ≡ db) ⊎ (after ≡ set_access id (with_state (next_state now row item)) db)

  abbrev pub Refreshed : Result Reason (ExtractionAccess × SourceItem) × Database → Type 0
  Refreshed (ok (access, item), d) = IsRefreshed access item d
  Refreshed (err e, d) = d ≡ db

  module _ (row : ExtractionAccess) (item : SourceItem)
      (found : find id db.extraction_accesses ≡ some row)
      (source : find row.source_item_id db.source_items ≡ some item) where
    pub load_access_lem : load_access id db ≡ (ok (row, item), db)
    unfolding load_access gets or_throw pure ◌>>=◌
    load_access_lem = rw (found, source)

    store_state-Refreshed : Refreshed (store_state id (row, item) (next_state now row item) db)
    unfolding store_state pure modify ◌>>=◌
    store_state-Refreshed =
        elim (Bool-cases (same_extraction_state (next_state now row item) row.state)) [
          | inl same ↦
              rw (same, if◌then◌else◌)
                (record {
                  row = row;
                  found = found;
                  source = source;
                  refreshed =
                      ap (λ s. with_state s row) (sym (same_extraction_state_eq _ row.state same));
                  written = inl refl;
                })
          | inr other ↦
              rw (other, if◌then◌else◌)
                (record {
                  row = row;
                  found = found;
                  source = source;
                  refreshed = refl;
                  written = inr refl;
                })
        ]

  pub refresh_extraction_state-Refreshed : Refreshed (refresh_extraction_state now id db)
  unfolding refresh_extraction_state
  refresh_extraction_state-Refreshed = elim (Option-cases (find id db.extraction_accesses)) [
    | inl missing ↦ unfold load_access gets or_throw ◌>>=◌ in rw (missing) refl
    | inr (row, found) ↦ elim (Option-cases (find row.source_item_id db.source_items)) [
      | inl missing ↦ unfold load_access gets or_throw ◌>>=◌ in rw (found, missing) refl
      | inr (item, source) ↦
          subst Refreshed
            (sym
              (bind_ok (load_access id) _ db (row, item) (load_access_lem row item found source)))
            (store_state-Refreshed row item found source)
    ]
  ]

-- The same of the refresh of an entry token.
pub record IsEntered (now token : ℕ) (db : Database) (id : ℕ) (access : ExtractionAccess)
    (item : SourceItem) (after : Database) : Type 0 where
  pub first : ExtractionAccess
  pub chosen : find_where (with_entry_token token) db.extraction_accesses ≡ some (id, first)
  pub refresh : IsRefreshed now id db access item after
  pub open refresh use *

abbrev pub Entered :
    ℕ → ℕ → Database → Result Reason (ℕ × ExtractionAccess × SourceItem) × Database → Type 0
Entered now token db (ok (id, access, item), after) = IsEntered now token db id access item after
Entered now token db (err e, after) = after ≡ db

pub refresh_by_entry_token-Entered :
    (now token : ℕ) (db : Database) → Entered now token db (refresh_by_entry_token now token db)
refresh_by_entry_token-Entered now token db =
    elim (Option-cases (find_where (with_entry_token token) db.extraction_accesses)) [
      | inl missing ↦ unfold refresh_by_entry_token gets or_throw ◌>>=◌ in rw (missing) refl
      | inr (chosen, e) ↦ subst (Entered now token db) (sym (step chosen e)) (
          bind_rule (Entered now token db) (refresh_extraction_state now chosen.0) (rest chosen) db
            (λ x d h.
              subst (Refreshed now chosen.0 db) h
                (refresh_extraction_state-Refreshed now chosen.0 db))
            (λ refreshed d h. unfold pure in entered chosen e refreshed d h))
    ]
  where
    rest :
        ℕ × ExtractionAccess
        → ExtractionAccess × SourceItem
        → Handler (ℕ × ExtractionAccess × SourceItem)
    rest chosen refreshed = pure (chosen.0, refreshed.0, refreshed.1)

    step :
        (chosen : ℕ × ExtractionAccess)
        → find_where (with_entry_token token) db.extraction_accesses ≡ some chosen
        → refresh_by_entry_token now token db
          ≡ (refresh_extraction_state now chosen.0 >>= rest chosen) db
    step chosen e = unfold refresh_by_entry_token gets or_throw ◌>>=◌ in rw (e)

    entered :
        (chosen : ℕ × ExtractionAccess)
        → find_where (with_entry_token token) db.extraction_accesses ≡ some chosen
        → (refreshed : ExtractionAccess × SourceItem) (d : Database)
        → refresh_extraction_state now chosen.0 db ≡ (ok refreshed, d)
        → IsEntered now token db chosen.0 refreshed.0 refreshed.1 d
    entered chosen e refreshed d h = record {
      first = chosen.1;
      chosen = e;
      refresh =
          subst (Refreshed now chosen.0 db) h (refresh_extraction_state-Refreshed now chosen.0 db);
    }

-- A refreshed row that is retrievable was so, in time and with something left.
pub record IsRetrievable (now : ℕ) (row : ExtractionAccess) (item : SourceItem) : Type 0 where
  pub row_state : is_retrievable_state row.state ≡ true
  pub item_active : is_active_item item.state ≡ true
  pub item_in_time : is_past now item.valid_until ≡ false
  pub in_time : is_past now row.valid_until ≡ false
  pub left_over : leb row.remaining_retrieval_count 0 ≡ false

pub next_state-IsRetrievable :
    (now : ℕ) (row : ExtractionAccess) (item : SourceItem)
    → is_retrievable_state (next_state now row item) ≡ true
    → IsRetrievable now row item
unfolding next_state
next_state-IsRetrievable now row item h = record {
  row_state = ground arith;
  item_active = ground arith;
  item_in_time = ground arith;
  in_time = ground arith;
  left_over = ground arith;
}

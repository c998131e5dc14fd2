-- ===== src/Extraction/Delivery.antt =====
-- An extraction that may be retrieved hands out its item to the right password.
use liminalis.Common.{ℕ, ◌≡◌, refl, ap, ◌∙◌, Bool, true, false, not, ◌&&◌, none, some, List}
use liminalis.Common.Exec.{ok, lift, gets, modify, pure, or_throw, ◌>>=◌}
use liminalis.Common.Table.{find, find_where}
use liminalis.Schema.{
  password_extraction, ExtractionAccess, ExtractionState, challenge_required, PackageFamily,
  SourceItem, Database, is_challenge_required, same_extraction_state,
}
use liminalis.Retrieval.Served.{upsert_attempt-ok, ensure_reference-ok}
use liminalis.Extraction.State.{
  set_access, next_state, store_state, refresh_extraction_state, refresh_by_entry_token,
  with_entry_token, first_family,
}
use liminalis.Extraction.Submission.{
  is_attempt_of, new_attempt, unlocked, SubmitPassword, ExtractionPackage, check_password,
  submit_password,
}
use liminalis.Extraction.Refresh.{load_access_lem, IsRetrievable}
use liminalis.Retrieval.Attempts.{new_reference}

same_extraction_state_refl : (s : ExtractionState) → same_extraction_state s s ≡ true
same_extraction_state_refl ExtractionState.active = refl
same_extraction_state_refl challenge_required = refl
same_extraction_state_refl ExtractionState.exhausted = refl
same_extraction_state_refl ExtractionState.expired = refl
same_extraction_state_refl ExtractionState.revoked = refl
same_extraction_state_refl ExtractionState.invalidated = refl

-- An extraction that a submission finds in order.
pub record IsReady (now token id : ℕ) (db : Database) (row : ExtractionAccess) (item : SourceItem)
    (family : ℕ × PackageFamily) : Type 0 where
  pub chosen : find_where (with_entry_token token) db.extraction_accesses ≡ some (id, row)
  pub found : find id db.extraction_accesses ≡ some row
  pub source : find row.source_item_id db.source_items ≡ some item
  pub retrievable : IsRetrievable now row item
  pub packed : first_family id db ≡ some family

module _ (now token id : ℕ) (db : Database) (row : ExtractionAccess) (item : SourceItem)
    (family : ℕ × PackageFamily) (ready : IsReady now token id db row item family) where
  next_state_lem : IsRetrievable now row item → next_state now row item ≡ row.state
  unfolding next_state
  next_state_lem r = rw (r.item_active, r.item_in_time, r.in_time, r.left_over)

  refresh_by_entry_token_lem : refresh_by_entry_token now token db ≡ (ok (id, row, item), db)
  unfolding refresh_by_entry_token refresh_extraction_state store_state gets or_throw pure ◌>>=◌
  refresh_by_entry_token_lem = rw (
    ready.chosen,
    load_access_lem now id db row item ready.found ready.source,
    next_state_lem ready.retrievable,
    same_extraction_state_refl row.state,
  )

  -- A submission of the right password, with the captcha solved where one is asked for, is answered
  -- with the item of the extraction and with what is left. The extraction is active or challenged,
  -- neither it nor its item, which is active, is past its date, some retrieval is left and a package
  -- family is there; the keys for a new attempt and a new reference are new.
  pub submit_password-delivers :
      (verify : ℕ → List ℕ → Bool) (new : ℕ × ℕ) (scope_key : ℕ) (input : SubmitPassword)
      → verify row.password_hash input.password ≡ true
      → is_challenge_required row.state && not input.captcha_satisfied ≡ false
      → find new.0 db.retrieval_attempts ≡ none
      → find new.1 db.package_references ≡ none
      → (handed : ExtractionPackage) × (d : Database) × (submit_password verify now new token
            scope_key input db
          ≡ (ok handed, d))
        × (handed.extraction_access_id ≡ id)
        × (handed.item ≡ item)
        × (handed.remaining_retrieval_count ≡ row.remaining_retrieval_count)
  unfolding submit_password check_password lift gets or_throw modify pure ◌>>=◌
  submit_password-delivers verify new scope_key input right solved free unused =
      let (attempt, d, e, kept) =
        upsert_attempt-ok (is_attempt_of id scope_key) new.0
          (new_attempt id row.source_item_id scope_key) db free in
      let (reference, d', e') =
        ensure_reference-ok attempt new.1
          (new_reference now family.0 password_extraction family.1 row.source_item_id none none) d
          (ap (find new.1) kept ∙ unused) in
      (
        record {
          retrieval_attempt_id = attempt.0;
          extraction_access_id = id;
          package_reference_id = reference.0;
          reference = reference.1;
          source_item_id = row.source_item_id;
          item = item;
          remaining_retrieval_count = row.remaining_retrieval_count;
        },
        set_access id unlocked d',
        rw (refresh_by_entry_token_lem)
            (rw (solved, ready.retrievable.row_state, right, ready.packed) (rw (e) (rw (e')))),
        refl,
        refl,
        refl,
      )

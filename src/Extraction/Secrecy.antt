-- ===== src/Extraction/Secrecy.antt =====
-- An item is handed out to the right password only.
use liminalis.Common.{
  sym, ap, ℕ, ◌≡◌, subst, inl, inr, Bool, true, false, not, ◌&&◌, some, List, arith, Bool-cases,
  if◌then◌else◌,
}
use liminalis.Common.Exec.{Error, Result, ok, err, guard, modify, throw, pure, ◌>>=◌}
use liminalis.Common.Exec.Rules.{bind_rule, lift_rule, gets_rule, or_throw_rule, modify_rule}
use liminalis.Common.Table.{find, find_where}
use liminalis.Schema.{
  ExtractionAccess, SourceItem, Database, Reason, is_challenge_required, is_retrievable_state,
}
use liminalis.Retrieval.Attempts.{upsert_attempt, ensure_reference}
use liminalis.Extraction.State.{with_entry_token, next_state, refresh_by_entry_token}
use liminalis.Extraction.Submission.{
  SubmitPassword, ExtractionPackage, check_password, submit_password,
}
use liminalis.Extraction.Refresh.{
  IsEntered, Entered, refresh_by_entry_token-Entered, IsRetrievable, next_state-IsRetrievable,
}

-- What was stored when an item is handed out.
pub record IsHandedOut (verify : ℕ → List ℕ → Bool) (now token : ℕ) (input : SubmitPassword)
    (db : Database) (id item_id : ℕ) (item : SourceItem) : Type 0 where
  pub first : ExtractionAccess
  pub chosen : find_where (with_entry_token token) db.extraction_accesses ≡ some (id, first)
  pub row : ExtractionAccess
  pub found : find id db.extraction_accesses ≡ some row
  pub item_key : row.source_item_id ≡ item_id
  pub source : find row.source_item_id db.source_items ≡ some item
  pub password_right : verify row.password_hash input.password ≡ true
  pub retrievable : IsRetrievable now row item
  pub solved : is_challenge_required row.state && not input.captcha_satisfied ≡ false

module _ (verify : ℕ → List ℕ → Bool) where
  check_password-ok :
      (id : ℕ) (access : ExtractionAccess) (password : List ℕ) (db d : Database) (u : Unit {0})
      → check_password verify id access password db ≡ (ok u, d)
      → verify access.password_hash password ≡ true
  unfolding check_password modify throw pure ◌>>=◌
  check_password-ok id access password db d u h =
      elim (Bool-cases (verify access.password_hash password)) [
        | inl right ↦ right
        | inr wrong ↦ absurd (no_ok (rw (wrong, if◌then◌else◌) at h))
      ]
    where
      no_ok :
          {a b : Database} {e : Error Reason}
          → ◌≡◌ {A = Result Reason (Unit {0}) × Database} (err e, b) (ok u, a)
          → ⊥
      no_ok p = cc

  guard-true : (b : Bool) (e : Error Reason) {u : Unit {0}} → guard b e ≡ ok u → b ≡ true
  guard-true b e h = ground arith

  -- A refreshed state that is retrievable is the stored one.
  same_challenge :
      (now : ℕ) (row : ExtractionAccess) (item : SourceItem) (captcha : Bool)
      → is_retrievable_state (next_state now row item) ≡ true
      → not (is_challenge_required (next_state now row item) && not captcha) ≡ true
      → is_challenge_required row.state && not captcha ≡ false
  unfolding next_state
  same_challenge now row item captcha h k = ground arith

  module _ (now token : ℕ) (input : SubmitPassword) (db : Database) where
    abbrev pub HandedOut : Result Reason ExtractionPackage × Database → Type 0
    HandedOut (ok handed, d) =
        IsHandedOut verify now token input db handed.extraction_access_id handed.source_item_id
          handed.item
    HandedOut (err e, d) = Unit

    pub submit_password-HandedOut :
        (new : ℕ × ℕ) (scope_key : ℕ)
        → HandedOut (submit_password verify now new token scope_key input db)
    unfolding submit_password pure
    submit_password-HandedOut new scope_key =
        let P : Result Reason ExtractionPackage × Database → Type 0 = HandedOut in
        bind_rule P (refresh_by_entry_token now token) _ db (λ x d h. tt)
          λ refreshed d h.
            let entered : IsEntered now token db refreshed.0 refreshed.1 refreshed.2 d =
              subst (Entered now token db) h (refresh_by_entry_token-Entered now token db) in
            lift_rule P _ _ d (λ x k. tt)
              λ u solved.
                lift_rule P _ _ d (λ x k. tt)
                  λ v open_state.
                    bind_rule P (check_password verify refreshed.0 refreshed.1 input.password) _ d
                      (λ x d' k. tt)
                      λ w d' checked. gets_rule P _ _ d' (
                        or_throw_rule P _ _ _ d' tt λ family e.
                          bind_rule P (upsert_attempt _ _ _) _ d' (λ x d'' k. tt)
                            λ attempt d'' k.
                              bind_rule P (ensure_reference attempt _ _) _ d'' (λ x d3 l. tt)
                                λ reference d3 l. modify_rule {R = Reason} P _ _ d3 (
                                  made refreshed entered
                                    (guard-true
                                      (not (
                                        is_challenge_required refreshed.1.state
                                        && not input.captcha_satisfied))
                                      _ solved)
                                    (guard-true (is_retrievable_state refreshed.1.state) _
                                      open_state)
                                    (check_password-ok refreshed.0 refreshed.1 input.password d d' w
                                      checked)))
      where
        made :
            {d : Database} (refreshed : ℕ × ExtractionAccess × SourceItem)
            → IsEntered now token db refreshed.0 refreshed.1 refreshed.2 d
            → not (is_challenge_required refreshed.1.state && not input.captcha_satisfied) ≡ true
            → is_retrievable_state refreshed.1.state ≡ true
            → verify refreshed.1.password_hash input.password ≡ true
            → IsHandedOut verify now token input db refreshed.0 refreshed.1.source_item_id
                refreshed.2
        made refreshed entered solved open_state right =
            let row : ExtractionAccess = entered.row in
            let at_row : is_retrievable_state (next_state now row refreshed.2) ≡ true =
              subst (λ (a : ExtractionAccess). is_retrievable_state a.state ≡ true)
                entered.refreshed open_state in
            record {
              first = entered.first;
              chosen = entered.chosen;
              row = row;
              found = entered.found;
              item_key = ap (λ (a : ExtractionAccess). a.source_item_id) (sym entered.refreshed);
              source = entered.source;
              password_right =
                  subst (λ (a : ExtractionAccess). verify a.password_hash input.password ≡ true)
                    entered.refreshed right;
              retrievable = next_state-IsRetrievable now row refreshed.2 at_row;
              solved = same_challenge now row refreshed.2 input.captcha_satisfied at_row (
                  subst
                    (λ (a : ExtractionAccess).
                      not (is_challenge_required a.state && not input.captcha_satisfied) ≡ true)
                    entered.refreshed solved);
            }

-- A submission that is answered names the entry token of an extraction whose stored hash verifies
-- the password, and the item is that of the extraction; the extraction is active, or challenged with the captcha solved, and neither it nor
-- its item, which is active, is past its date, and some retrieval is left.
pub submit_password-IsHandedOut :
    (verify : ℕ → List ℕ → Bool) (now : ℕ) (new : ℕ × ℕ) (token scope_key : ℕ)
    (input : SubmitPassword) (db db' : Database) (handed : ExtractionPackage)
    → submit_password verify now new token scope_key input db ≡ (ok handed, db')
    → IsHandedOut verify now token input db handed.extraction_access_id handed.source_item_id
        handed.item
submit_password-IsHandedOut verify now new token scope_key input db db' handed h =
    subst (HandedOut verify now token input db) h
      (submit_password-HandedOut verify now token input db new scope_key)

-- ===== src/Extraction/Captcha.antt =====
-- After a wrong password nothing is handed out without a captcha.
use liminalis.Common.{
  ◌==◌, ℕ, ◌+◌, ◌≡◌, refl, sym, ap, subst, ◌∙◌, inl, inr, Bool, true, false, not, ◌&&◌, some, List,
  arith, Bool-cases, if◌then◌else◌,
}
use liminalis.Common.Exec.{Result, ok, err, is_ok, lift, gets, modify, throw, pure, or_throw, ◌>>=◌}
use liminalis.Common.Exec.Rules.{bind_ok}
use liminalis.Common.Table.{Distinct, find, find_where, find-find_where, update-Distinct}
use liminalis.Common.Table.Selection.{find_where-update}
use liminalis.Schema.{
  ExtractionAccess, ExtractionState, SourceItem, Database, Reason, is_challenge_required,
  is_retrievable_state, same_extraction_state,
}
use liminalis.Extraction.State.{
  load_access, set_access, next_state, store_state, refresh_extraction_state,
  refresh_by_entry_token, with_entry_token,
}
use liminalis.Extraction.Submission.{
  SubmitPassword, ExtractionPackage, challenged, check_password, submit_password,
}
use liminalis.Extraction.Refresh.{load_access_lem, same_extraction_state_eq, with_state}
use liminalis.Extraction.Secrecy.{submit_password-IsHandedOut}

abbrev is_active_access : ExtractionState → Bool
is_active_access ExtractionState.active = true
is_active_access _ = false

module _ (token id : ℕ) where
  -- The token is that of one row, which is as given.
  record Holds (row : ExtractionAccess) (db : Database) : Type 0 where
    distinct : Distinct db.extraction_accesses
    chosen : find_where (with_entry_token token) db.extraction_accesses ≡ some (id, row)

  set_access-Holds :
      (patch : ExtractionAccess → ExtractionAccess) (row : ExtractionAccess) (db : Database)
      → ((a : ExtractionAccess) → (patch a).entry_token ≡ a.entry_token)
      → Holds row db
      → Holds (patch row) (set_access id patch db)
  unfolding set_access
  set_access-Holds patch row db same h = record {
    distinct = update-Distinct id patch db.extraction_accesses h.distinct;
    chosen =
        find_where-update (with_entry_token token) patch db.extraction_accesses id row
          (λ a. ap (λ t. t == token) (same a)) h.distinct h.chosen;
  }

  module _ (now : ℕ) (row : ExtractionAccess) (item : SourceItem) (db : Database)
      (holds : Holds row db) (source : find row.source_item_id db.source_items ≡ some item) where
    abbrev fresh : ExtractionAccess
    fresh = with_state (next_state now row item) row

    found : find id db.extraction_accesses ≡ some row
    found =
        find-find_where (with_entry_token token) db.extraction_accesses id row holds.distinct
          holds.chosen

    refresh_extraction_state_lem :
        refresh_extraction_state now id db ≡ store_state id (row, item) (next_state now row item) db
    unfolding refresh_extraction_state
    refresh_extraction_state_lem =
        bind_ok (load_access id) _ db (row, item) (load_access_lem now id db row item found source)

    -- The state is stored, and the answer is the row that is stored then.
    store_state-Holds :
        (d : Database) × (store_state id (row, item) (next_state now row item) db
          ≡ (ok (fresh, item), d))
        × Holds fresh d
    unfolding store_state modify pure ◌>>=◌
    store_state-Holds =
        elim (Bool-cases (same_extraction_state (next_state now row item) row.state)) [
          | inl same ↦
              let kept : next_state now row item ≡ row.state =
                same_extraction_state_eq _ row.state same in
              let old : row ≡ fresh = ap (λ s. with_state s row) (sym kept) in
              (
                db,
                rw (same, if◌then◌else◌) (ap (λ a. (ok (a, item), db)) old),
                subst (λ a. Holds a db) old holds,
              )
          | inr other ↦ (
            set_access id (with_state (next_state now row item)) db,
            rw (other, if◌then◌else◌),
            set_access-Holds (with_state (next_state now row item)) row db (λ a. refl) holds,
          )
        ]

    -- The refresh by the token is answered with it.
    refresh_by_entry_token-Holds :
        (d : Database) × (refresh_by_entry_token now token db ≡ (ok (id, fresh, item), d))
        × Holds fresh d
    unfolding refresh_by_entry_token gets or_throw pure ◌>>=◌
    refresh_by_entry_token-Holds =
        let (d, e, h) = store_state-Holds in
        (d, rw (holds.chosen, refresh_extraction_state_lem, e), h)

    -- A wrong password is refused, and the row is active no more.
    submit_password-refuses :
        (verify : ℕ → List ℕ → Bool) (new : ℕ × ℕ) (scope_key : ℕ) (input : SubmitPassword)
        → verify row.password_hash input.password ≡ false
        → (last : ExtractionAccess) × Holds last
            (submit_password verify now new token scope_key input db).1
          × (is_active_access last.state ≡ false)
          × (is_ok (submit_password verify now new token scope_key input db).0 ≡ false)
    unfolding submit_password
    submit_password-refuses verify new scope_key input wrong =
        let (d, e, h) = refresh_by_entry_token-Holds in
        rw (bind_ok (refresh_by_entry_token now token) _ db (id, fresh, item) e)
          (elim (Bool-cases
            (is_challenge_required (next_state now row item) && not input.captcha_satisfied)) [
              | inl asked ↦
                  unfold lift ◌>>=◌ in
                  rw (asked) (
                    fresh,
                    h,
                    asked_inactive (next_state now row item) input.captcha_satisfied asked,
                    refl,
                  )
              | inr solved ↦ elim (Bool-cases (is_retrievable_state (next_state now row item))) [
                | inl open_state ↦
                    unfold lift modify throw check_password ◌>>=◌ in
                    rw (solved, open_state, wrong, if◌then◌else◌)
                      (
                        challenged (row.failed_password_attempts + 1) fresh,
                        set_access-Holds (challenged (row.failed_password_attempts + 1)) fresh d
                            (λ a. refl) h,
                        refl,
                        refl,
                      )
                | inr shut ↦
                    unfold lift ◌>>=◌ in
                    rw (solved, shut) (fresh, h, shut_inactive (next_state now row item) shut, refl)
              ]
            ])
      where
        asked_inactive :
            (s : ExtractionState) (captcha : Bool)
            → is_challenge_required s && not captcha ≡ true
            → is_active_access s ≡ false
        asked_inactive s captcha e = ground arith

        shut_inactive :
            (s : ExtractionState) → is_retrievable_state s ≡ false → is_active_access s ≡ false
        shut_inactive s e = ground arith

-- After a submission of a wrong password to an extraction, a submission without a solved captcha is
-- refused at any time and with any password; the first one is refused too. The entry token is that of
-- one row, no key stands twice in the table, and the source item is there.
pub submit_password-asks :
    (verify : ℕ → List ℕ → Bool) (now later : ℕ) (new new' : ℕ × ℕ)
    (token scope_key scope_key' id : ℕ) (input input' : SubmitPassword) (db : Database)
    (row : ExtractionAccess) (item : SourceItem)
    → Distinct db.extraction_accesses
    → find_where (with_entry_token token) db.extraction_accesses ≡ some (id, row)
    → find row.source_item_id db.source_items ≡ some item
    → verify row.password_hash input.password ≡ false
    → input'.captcha_satisfied ≡ false
    → let first = submit_password verify now new token scope_key input db in
      (is_ok first.0 ≡ false)
      × (is_ok (submit_password verify later new' token scope_key' input' first.1).0 ≡ false)
submit_password-asks verify now later new new' token scope_key scope_key' id input input' db row
      item distinct chosen source wrong unsolved =
    let (last, holds, inactive, refused) =
      submit_password-refuses token id now row item db
        (record { distinct = distinct; chosen = chosen }) source verify new scope_key input wrong in
    (refused, again last _ holds inactive)
  where
    again :
        (last : ExtractionAccess) (d : Database)
        → Holds token id last d
        → is_active_access last.state ≡ false
        → is_ok (submit_password verify later new' token scope_key' input' d).0 ≡ false
    again last d holds inactive =
        go (submit_password verify later new' token scope_key' input' d) refl
      where
        go :
            (o : Result Reason ExtractionPackage × Database)
            → submit_password verify later new' token scope_key' input' d ≡ o
            → is_ok o.0 ≡ false
        go (err e, d') h = refl
        go (ok handed, d') h =
            let out =
              submit_password-IsHandedOut verify later new' token scope_key' input' d d' handed h in
            let there : find handed.extraction_access_id d.extraction_accesses ≡ some out.first =
              find-find_where (with_entry_token token) d.extraction_accesses
                handed.extraction_access_id out.first holds.distinct out.chosen in
            let same : out.row ≡ last =
              some_eq (sym out.found ∙ there) ∙ pair_eq (sym out.chosen ∙ holds.chosen) in
            absurd (
              active_only last input'.captcha_satisfied
                (subst (λ (a : ExtractionAccess). is_retrievable_state a.state ≡ true) same
                  out.retrievable.row_state)
                (subst
                  (λ (a : ExtractionAccess).
                    is_challenge_required a.state && not input'.captcha_satisfied ≡ false)
                  same out.solved)
                inactive unsolved)
          where
            some_eq : {a b : ExtractionAccess} → some a ≡ some b → a ≡ b
            some_eq p = cc

            pair_eq : {x y : ℕ × ExtractionAccess} → some x ≡ some y → x.1 ≡ y.1
            pair_eq p = cc

            active_only :
                (a : ExtractionAccess) (captcha : Bool)
                → is_retrievable_state a.state ≡ true
                → is_challenge_required a.state && not captcha ≡ false
                → is_active_access a.state ≡ false
                → captcha ≡ false
                → ⊥
            active_only a captcha h k l m = ground arith

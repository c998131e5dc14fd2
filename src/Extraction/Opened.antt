-- ===== src/Extraction/Opened.antt =====
-- An extraction that is created can be retrieved with the password that its owner is told.
use liminalis.Common.{
  ==_self, ℕ, ◌≡◌, refl, sym, ap, subst, ◌∙◌, Bool, true, false, ◌&&◌, none, some, List, leb,
}
use liminalis.Common.Exec.{Result, ok, err, pure}
use liminalis.Common.Exec.Rules.{bind_rule, lift_rule, gets_rule, or_throw_rule}
use liminalis.Common.Table.{find, find_where, find_many, create}
use liminalis.Schema.{
  is_retrievable_state, is_challenge_required, ExtractionState, PackageFamily, SourceItem, Database,
  Reason, is_active_item,
}
use liminalis.Policy.{evaluate_extraction_creation, ExtractionDecision, lifetime_ms}
use liminalis.Links.{is_past, own_item, refuse_expired, after_minutes}
use liminalis.Links.Limits.{own_item-found, clamp_valid_until-NoLater, guard-true, NoLater}
use liminalis.Extraction.State.{is_family_of, first_family, with_entry_token}
use liminalis.Extraction.Creation.{
  resolve_password, generate_system_password, new_access, new_family, NewExtraction,
  CreatedExtraction, CreateExtraction, create_extraction, insert_access,
}
use liminalis.Extraction.Created.{
  decision-positive, column_int-positive, in_time, newest_family-some, refuse_expired-ok,
  insert_access-ok, evaluate-ok, inserted,
}
use liminalis.Extraction.Submission.{ExtractionPackage, submit_password}
use liminalis.Extraction.Delivery.{IsReady, submit_password-delivers}

-- What is stored when an extraction is created.
record IsOpened (hash : ℕ → List ℕ → ℕ) (now : ℕ) (new : NewExtraction)
    (created : CreatedExtraction) (db : Database) : Type 0 where
  key : created.access_id ≡ new.access_id
  chosen :
      find_where (with_entry_token new.token) db.extraction_accesses
      ≡ some (new.access_id, created.access)
  found : find new.access_id db.extraction_accesses ≡ some created.access
  item : SourceItem
  source : find created.access.source_item_id db.source_items ≡ some item
  item_active : is_active_item item.state ≡ true
  state_active : created.access.state ≡ ExtractionState.active
  hashed : created.access.password_hash ≡ hash new.salt created.password
  some_left : leb created.access.remaining_retrieval_count 0 ≡ false
  within : NoLater created.access.valid_until item.valid_until
  family : ℕ × PackageFamily
  packed : first_family new.access_id db ≡ some family

abbrev Opened :
    (ℕ → List ℕ → ℕ) → ℕ → NewExtraction → Result Reason CreatedExtraction × Database → Type 0
Opened hash now new (ok created, d) = IsOpened hash now new created d
Opened hash now new (err e, d) = Unit

create_extraction-Opened :
    (hash : ℕ → List ℕ → ℕ) (now : ℕ) (new : NewExtraction) (owner : ℕ) (input : CreateExtraction)
    (db : Database)
    → Opened hash now new (create_extraction hash now new owner input db)
unfolding create_extraction pure
create_extraction-Opened hash now new owner input db =
    let P : Result Reason CreatedExtraction × Database → Type 0 = Opened hash now new in
    gets_rule P _ _ db (
      or_throw_rule P _ _ _ db tt λ (item : SourceItem) e.
        lift_rule P _ _ db (λ x k. tt)
          λ u active.
            bind_rule P (refuse_expired now input.source_item_id item) _ db (λ x db' h. tt)
              λ v db' h.
                lift_rule P _ _ db' (λ x l. tt)
                  λ w no_text.
                    bind_rule P (evaluate_extraction_creation _) _ db' (λ x d m. tt)
                      λ decision d m. or_throw_rule P _ _ _ d tt λ (count : ℕ) c.
                        bind_rule P (insert_access new.access_id _ new.family_id _) _ d
                          (λ x d' n. tt)
                          λ x d' n.
                            let (same, (bundle, decided)) = evaluate-ok _ db' d decision m in
                            made
                              (resolve_password input.password
                                decision.require_system_generated_password
                                (generate_system_password new.uuids.0 new.uuids.1))
                              item decision count e
                              (guard-true (is_active_item item.state) _ active)
                              (column_int-positive decision.resolved_retrieval_count count c
                                (decision-positive _ bundle decision decided))
                              d'
                              (insert_access-ok _ _ _ _ d d' x n
                                ∙ ap (inserted new.access_id _ new.family_id _) (
                                    same
                                    ∙ refuse_expired-ok now input.source_item_id item db db' v h)))
  where
    stored : List ℕ → SourceItem → ExtractionDecision → ℕ → CreatedExtraction
    stored password item decision count = record {
      access_id = new.access_id;
      access = new_access now new input.source_item_id item decision count (hash new.salt password);
      password = password;
    }

    is_own :
        is_family_of new.access_id
          (new_family new.access_id input.source_item_id input.package_reference)
        ≡ true
    is_own = unfold new_family in ==_self new.access_id

    made :
        (password : List ℕ) (item : SourceItem) (decision : ExtractionDecision) (count : ℕ)
        → own_item owner (find input.source_item_id db.source_items) ≡ some item
        → is_active_item item.state ≡ true
        → leb count 0 ≡ false
        → (d' : Database)
        → d'
          ≡ inserted new.access_id
              (new_access now new input.source_item_id item decision count (hash new.salt password))
              new.family_id
              (new_family new.access_id input.source_item_id input.package_reference)
              db
        → IsOpened hash now new (stored password item decision count) d'
    made password item decision count e active positive d' h =
        subst (λ d. IsOpened hash now new (stored password item decision count) d) (sym h)
          (let (found, owned) = own_item-found owner _ item e in
            let (family, packed) =
              newest_family-some (find_many (is_family_of new.access_id) db.package_families) (
                new.family_id,
                new_family new.access_id input.source_item_id input.package_reference,
              ) in
            unfold new_access inserted in
            record {
              key = refl;
              chosen = unfold find_where create in rw (==_self new.token) refl;
              found = unfold find create in rw (==_self new.access_id) refl;
              item = item;
              source = found;
              item_active = active;
              state_active = refl;
              hashed = refl;
              some_left = positive;
              within =
                  clamp_valid_until-NoLater
                    (after_minutes now (lifetime_ms decision.resolved_validity_minutes))
                    item.valid_until;
              family = family;
              packed = unfold first_family find_many create in rw (is_own) packed;
            })

-- The password that the owner of a new extraction is told opens it: a submission of it at the token
-- is answered with the item, at any time at which the extraction is not past its date, and with no
-- captcha. A hash verifies the password that it is made of, and the keys for a new attempt and a
-- new reference are new.
pub create_extraction-submit_password :
    (hash : ℕ → List ℕ → ℕ) (verify : ℕ → List ℕ → Bool)
    → ((salt : ℕ) (password : List ℕ) → verify (hash salt password) password ≡ true)
    → (now : ℕ) (new : NewExtraction) (owner : ℕ) (input : CreateExtraction) (db d : Database)
      (created : CreatedExtraction)
    → create_extraction hash now new owner input db ≡ (ok created, d)
    → (later : ℕ) (keys : ℕ × ℕ) (scope_key : ℕ) → is_past later created.access.valid_until ≡ false
    → find keys.0 d.retrieval_attempts ≡ none
    → find keys.1 d.package_references ≡ none
    → (handed : ExtractionPackage) × (d' : Database) × (submit_password verify later keys new.token
          scope_key
          (record { password = created.password; captcha_satisfied = false })
          d
        ≡ (ok handed, d'))
      × (find created.access.source_item_id d.source_items ≡ some handed.item)
create_extraction-submit_password hash verify right now new owner input db d created h later keys
      scope_key alive free unused =
    let opened : IsOpened hash now new created d =
      subst (Opened hash now new) h (create_extraction-Opened hash now new owner input db) in
    let (handed, d', e, k, same, left) =
      submit_password-delivers later new.token new.access_id d created.access opened.item
        opened.family (ready opened) verify keys scope_key
        (record { password = created.password; captcha_satisfied = false })
        (ap (λ x. verify x created.password) opened.hashed ∙ right new.salt created.password)
        (ap (λ s. is_challenge_required s && true) opened.state_active) free unused in
    (handed, d', e, opened.source ∙ ap some (sym same))
  where
    ready :
        (opened : IsOpened hash now new created d)
        → IsReady later new.token new.access_id d created.access opened.item opened.family
    ready opened = record {
      chosen = opened.chosen;
      found = opened.found;
      source = opened.source;
      retrievable = record {
        row_state = ap is_retrievable_state opened.state_active;
        item_active = opened.item_active;
        item_in_time = in_time later _ _ opened.within alive;
        in_time = alive;
        left_over = opened.some_left;
      };
      packed = opened.packed;
    }

-- ===== src/Extraction/Created.antt =====
-- The parts of a creation: what the policy, the writes and the families answer.
use liminalis.Common.{
  ℕ, ◌≡◌, refl, sym, ap, inl, inr, false, Option, none, some, [], ◌∷◌, ◌++◌, arith, leb, ltb,
  if◌then◌else◌, Bool-cases, Option-cases,
}
use liminalis.Common.Exec.{
  Error, Result, ok, err, pure, lift, gets, modify, or_throw, throw, transaction, ◌>>=◌,
}
use liminalis.Common.Table.{Table, find, find_where, create}
use liminalis.Schema.{
  ExtractionAccess, PackageFamily, SourceItem, Database, Reason, Num, int, nan, PolicyBundle,
}
use liminalis.Policy.{
  evaluate_extraction_creation, extraction_decision, ExtractionInput, ExtractionDecision, le_zero,
}
use liminalis.Common.Int.{pos, negsuc}
use liminalis.Links.{is_past, refuse_expired, column_int}
use liminalis.Links.Limits.{NoLater}
use liminalis.Extraction.State.{require_new_token, with_entry_token, newest_family, newer_family}
use liminalis.Extraction.Creation.{insert_access}
use liminalis.Retrieval.New.{insert, require_new}
use liminalis.Policy.Current.{is_current_at, latest, get_current_bundle}

pub decision-positive :
    (input : ExtractionInput) (bundle : ℕ × PolicyBundle) (decision : ExtractionDecision)
    → extraction_decision input bundle ≡ ok decision
    → le_zero decision.resolved_retrieval_count ≡ false
unfolding extraction_decision
decision-positive input bundle decision h = ground arith

pub column_int-positive :
    (value : Num) (n : ℕ) → column_int value ≡ some n → le_zero value ≡ false → leb n 0 ≡ false
column_int-positive nan n h k = ground arith
column_int-positive (int (pos m)) n h k = ground arith
column_int-positive (int (negsuc m)) n h k = ground arith

-- What is no later than a date is not past it sooner.
pub in_time :
    (later : ℕ) (a b : Option ℕ) → NoLater a b → is_past later a ≡ false → is_past later b ≡ false
in_time later a none h k = refl
in_time later none (some b) h k = absurd h
in_time later (some a) (some b) h k = ground arith

pub newest_family-some :
    (rows : Table PackageFamily) (row : ℕ × PackageFamily)
    → (family : ℕ × PackageFamily) × (newest_family (rows ++ row ∷ []) ≡ some family)
unfolding newest_family
newest_family-some [] row = (row, refl)
newest_family-some (r ∷ rows) row =
    let (family, e) = newest_family-some rows row in stays_newest r family e
  where
    stays_newest :
        (r family : ℕ × PackageFamily)
        → newest_family (rows ++ row ∷ []) ≡ some family
        → (f : ℕ × PackageFamily) × (newer_family r (newest_family (rows ++ row ∷ [])) ≡ some f)
    stays_newest r family e = elim (Bool-cases (ltb r.1.family_version family.1.family_version)) [
      | inl less ↦ (family, rw (e, less) refl)
      | inr more ↦ (r, rw (e, more) refl)
    ]

module _ {A : Type 0} where
  -- An answer is no exception.
  no_answer :
      {e : Error Reason} {a : A} {s d : Database}
      → ◌≡◌ {A = Result Reason A × Database} (err e, s) (ok a, d)
      → ⊥
  no_answer p = absurd (clash (ap (λ (o : Result Reason A × Database). o.0) p))
    where
      clash : {e : Error Reason} {a : A} → ◌≡◌ {A = Result Reason A} (err e) (ok a) → ⊥
      clash q = cc

pub refuse_expired-ok :
    (now id : ℕ) (item : SourceItem) (db d : Database) (u : Unit {0})
    → refuse_expired now id item db ≡ (ok u, d)
    → d ≡ db
unfolding refuse_expired modify throw pure ◌>>=◌
refuse_expired-ok now id item db d u h = elim (Bool-cases (is_past now item.valid_until)) [
  | inl past ↦ absurd (no_answer (rw (past, if◌then◌else◌) at h))
  | inr kept ↦
      sym (ap (λ (o : Result Reason (Unit {0}) × Database). o.1) (rw (kept, if◌then◌else◌) at h))
]

-- The rows that an extraction is given.
unfoldable pub inserted : ℕ → ExtractionAccess → ℕ → PackageFamily → Database → Database
inserted id access family_id family db = record db {
  extraction_accesses = create id access db.extraction_accesses;
  package_families = create family_id family db.package_families;
}

pub insert_access-ok :
    (id : ℕ) (access : ExtractionAccess) (family_id : ℕ) (family : PackageFamily) (db d : Database)
    (u : Unit {0})
    → insert_access id access family_id family db ≡ (ok u, d)
    → d ≡ inserted id access family_id family db
unfolding insert_access require_new_token insert require_new gets lift modify transaction ◌>>=◌
    inserted
insert_access-ok id access family_id family db d u h =
    elim (Option-cases (find_where (with_entry_token access.entry_token) db.extraction_accesses)) [
      | inr (row, taken) ↦ absurd (no_answer (rw (taken) at h))
      | inl unused ↦ elim (Option-cases (find id db.extraction_accesses)) [
        | inr (row, present) ↦ absurd (no_answer (rw (unused, present) at h))
        | inl free ↦ elim (Option-cases (find family_id db.package_families)) [
          | inr (row, present) ↦ absurd (no_answer (rw (unused, free, present) at h))
          | inl new ↦
              sym (
                ap (λ (o : Result Reason (Unit {0}) × Database). o.1) (rw (unused, free, new) at h))
        ]
      ]
    ]

-- A decision reads the policies only.
pub evaluate-ok :
    (input : ExtractionInput) (db d : Database) (decision : ExtractionDecision)
    → evaluate_extraction_creation input db ≡ (ok decision, d)
    → (d ≡ db) × ((bundle : ℕ × PolicyBundle) × (extraction_decision input bundle ≡ ok decision))
unfolding evaluate_extraction_creation get_current_bundle
evaluate-ok input db d decision h =
    elim (Option-cases (latest (is_current_at input.confidentiality_level) db.policy_bundles)) [
      | inl missing ↦ absurd (no_answer (unfold gets or_throw ◌>>=◌ in rw (missing) at h))
      | inr (bundle, found) ↦
          let answer : ◌≡◌ {A = Result Reason ExtractionDecision × Database}
              (extraction_decision input bundle, db) (ok decision, d) =
            (unfold gets or_throw lift ◌>>=◌ in rw (found) at h) in
          (
            sym (ap (λ (o : Result Reason ExtractionDecision × Database). o.1) answer),
            (bundle, ap (λ (o : Result Reason ExtractionDecision × Database). o.0) answer),
          )
    ]

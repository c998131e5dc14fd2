-- ===== src/Extraction/Balance.antt =====
-- What an extraction has left over every history of requests.
use liminalis.Common.{
  ℕ, ◌-◌, ◌≡◌, refl, sym, ap, subst, ◌∙◌, inl, inr, Bool, true, false, Option, none, some, List, [],
  ◌∷◌, arith, if◌then◌else◌, Bool-cases, ◌==◌, ==_iff,
}
use liminalis.Common.Exec.{transaction, modify, pure, ◌>>=◌}
use liminalis.Common.Exec.Rules.{bind_ok, bind_err}
use liminalis.Common.Exec.Keeps.{Keeps, keeps_rules}
use liminalis.Common.Table.{find, find-update, create}
use liminalis.Schema.{
  ExtractionAccess, PackageFamily, RetrievalAttempt, Database, ConfidentialityLevel,
  is_completed_attempt,
}
use liminalis.Policy.{evaluate_extraction_creation, ExtractionInput}
use liminalis.Policy.Current.{get_current_bundle}
use liminalis.Retrieval.Attempts.{set_attempt}
use liminalis.Retrieval.New.{insert-Keeps, find-create_old}
use liminalis.Extraction.State.{set_access, require_new_token}
use liminalis.Extraction.Creation.{
  NewExtraction, CreateExtraction, insert_access, create_extraction,
}
use liminalis.Extraction.Completion.{
  load_extraction_attempt, store_completion, counted, complete_extraction_retrieval,
}
use liminalis.Extraction.Requests.{
  ExtractionRequest, creates, enters, submits, completes, downloads, serve_extraction,
  serve_extractions, completions_of, total_completions,
}
use liminalis.Extraction.Left.{
  left_of, left, Left, get_extraction_entry-Keeps, submit_password-Keeps, refuse_expired-Keeps,
  create_download_stream-Keeps,
}
use liminalis.Extraction.Loading.{IsLoaded, IsMissing, load_cases}

module _ (id n : ℕ) where
  require_new_token-Keeps : (token : ℕ) → Keeps (Left id n) (require_new_token token)
  unfolding require_new_token
  require_new_token-Keeps token = search keeps_rules depth 12

  left-found :
      (db : Database)
      → Left id n db
      → (access : ExtractionAccess) × (find id db.extraction_accesses ≡ some access)
        × (access.remaining_retrieval_count ≡ n)
  left-found db has = go (find id db.extraction_accesses) has
    where
      go :
          (o : Option ExtractionAccess)
          → left_of o ≡ some n
          → (access : ExtractionAccess) × (o ≡ some access) × (access.remaining_retrieval_count ≡ n)
      go none h = cc
      go (some access) h = (access, refl, cc)

  created-Left :
      (key : ℕ) (access : ExtractionAccess) (db : Database)
      → find key db.extraction_accesses ≡ none
      → Left id n db
      → Left id n (record db { extraction_accesses = create key access db.extraction_accesses })
  created-Left key access db free has =
      let (row, found, count) = left-found db has in
      ap left_of (find-create_old key id access row db.extraction_accesses free found)
      ∙ ap some count

  insert_access-Keeps :
      (key : ℕ) (access : ExtractionAccess) (family_id : ℕ) (family : PackageFamily)
      → Keeps (Left id n) (insert_access key access family_id family)
  unfolding insert_access
  insert_access-Keeps key access family_id family =
      search (keeps_rules, require_new_token-Keeps, insert-Keeps, created-Left) depth 12

  get_current_bundle-Keeps :
      (level : ConfidentialityLevel) → Keeps (Left id n) (get_current_bundle level)
  unfolding get_current_bundle
  get_current_bundle-Keeps level = search keeps_rules depth 12

  evaluate_extraction_creation-Keeps :
      (input : ExtractionInput) → Keeps (Left id n) (evaluate_extraction_creation input)
  unfolding evaluate_extraction_creation
  evaluate_extraction_creation-Keeps input = search (keeps_rules, get_current_bundle-Keeps) depth 12

  create_extraction-Keeps :
      (hash : ℕ → List ℕ → ℕ) (now : ℕ) (new : NewExtraction) (owner : ℕ) (input : CreateExtraction)
      → Keeps (Left id n) (create_extraction hash now new owner input)
  unfolding create_extraction
  create_extraction-Keeps hash now new owner input =
      search
        (keeps_rules, refuse_expired-Keeps, evaluate_extraction_creation-Keeps, insert_access-Keeps)
        depth 30

  -- The last part of a completion, when the access that is loaded is the one that is counted.
  counted-Left :
      (access : ExtractionAccess) (key : ℕ) (db : Database)
      → find key db.extraction_accesses ≡ some access
      → Left id n db
      → left id (set_access key (counted access) db) ≡ some (n - (if key == id then 1 else 0))
  unfolding set_access
  counted-Left access key db found has = rw (find-update) (elim (Bool-cases (key == id)) [
    | inl e ↦
        rw (e, if◌then◌else◌)
          (let (row, here, count) = left-found db has in
            let same : access ≡ row = some_injective (
              sym found
              ∙ subst (λ i. find i db.extraction_accesses ≡ some row) (sym ((==_iff key id).0 e))
                  here) in
            rw (here) (
              ap (λ k. some (k - 1))
                (ap (λ (a : ExtractionAccess). a.remaining_retrieval_count) same ∙ count)))
    | inr e ↦ rw (e, if◌then◌else◌) (has ∙ ap some (omega arith))
  ])
    where
      some_injective : {a b : ExtractionAccess} → some a ≡ some b → a ≡ b
      some_injective p = cc

  completions-missing :
      (now attempt_id : ℕ) (success : Bool) (db : Database) (e : _)
      → IsMissing attempt_id db e
      → Left id n db
      → completions_of id (now, completes attempt_id success) db ≡ 0
  unfolding completions_of
  completions-missing now attempt_id false db e missing has = refl
  completions-missing now attempt_id true db e missing has = elim missing.reason [
    | inl none_found ↦ rw (none_found)
    | inr (key, attempt, found, no_access) ↦ rw (found) (elim (Bool-cases (key == id)) [
      | inl same ↦ absurd (absent key ((==_iff key id).0 same) no_access)
      | inr other ↦ rw (other) (ground arith)
    ])
  ]
    where
      absent : (key : ℕ) → key ≡ id → find key db.extraction_accesses ≡ none → ⊥
      absent key e no_access =
          clash
            (sym has ∙ ap left_of (subst (λ i. find i db.extraction_accesses ≡ none) e no_access))
        where
          clash : some n ≡ none → ⊥
          clash p = cc

  completed-Left :
      (now attempt_id key : ℕ) (success : Bool) (attempt : RetrievalAttempt)
      (access : ExtractionAccess) (db : Database)
      → IsLoaded attempt_id db key attempt access
      → Left id n db
      → left id (complete_extraction_retrieval now attempt_id success db).1
        ≡ some (n - completions_of id (now, completes attempt_id success) db)
  unfolding complete_extraction_retrieval completions_of
  completed-Left now attempt_id key false attempt access db loaded has =
      rw (bind_ok (load_extraction_attempt attempt_id) _ db (key, attempt, access) loaded.answer)
        (elim (Bool-cases (is_completed_attempt attempt.status)) [
          | inl done ↦ rw (done, if◌then◌else◌) (unfold pure in has ∙ ap some (omega arith))
          | inr fresh ↦
              rw (fresh, if◌then◌else◌)
                (unfold modify pure ◌>>=◌ set_attempt in has ∙ ap some (omega arith))
        ])
  completed-Left now attempt_id key true attempt access db loaded has =
      rw (bind_ok (load_extraction_attempt attempt_id) _ db (key, attempt, access) loaded.answer)
        (elim (Bool-cases (is_completed_attempt attempt.status)) [
          | inl done ↦
              rw (loaded.attempt_found, done, if◌then◌else◌)
                (unfold pure in has ∙ ap some (omega arith))
          | inr fresh ↦
              rw (loaded.attempt_found, fresh, if◌then◌else◌)
                (unfold transaction store_completion modify pure ◌>>=◌ set_attempt in
                  counted-Left access key _ loaded.access_found has)
        ])

  complete_extraction_retrieval-Left :
      (now attempt_id : ℕ) (success : Bool) (db : Database)
      → Left id n db
      → left id (complete_extraction_retrieval now attempt_id success db).1
        ≡ some (n - completions_of id (now, completes attempt_id success) db)
  complete_extraction_retrieval-Left now attempt_id success db has =
      elim (load_cases attempt_id db) [
        | inl (e, missing) ↦
            (unfold complete_extraction_retrieval in
              rw (bind_err (load_extraction_attempt attempt_id) _ db e missing.refused) (
                has
                ∙ ap some (
                    rw (completions-missing now attempt_id success db e missing has)
                      (omega arith))))
        | inr (key, attempt, access, loaded) ↦
            completed-Left now attempt_id key success attempt access db loaded has
      ]

  serve_extraction-Left :
      (hash : ℕ → List ℕ → ℕ) (verify : ℕ → List ℕ → Bool) (r : ℕ × ExtractionRequest)
      (db : Database)
      → Left id n db
      → left id (serve_extraction hash verify r db) ≡ some (n - completions_of id r db)
  unfolding serve_extraction completions_of
  serve_extraction-Left hash verify (now, creates new owner input) db has =
      (create_extraction-Keeps hash now new owner input).at db has ∙ ap some (omega arith)
  serve_extraction-Left hash verify (now, enters token) db has =
      (get_extraction_entry-Keeps id n now token).at db has ∙ ap some (omega arith)
  serve_extraction-Left hash verify (now, submits new token scope_key input) db has =
      (submit_password-Keeps id n verify now new token scope_key input).at db has
      ∙ ap some (omega arith)
  serve_extraction-Left hash verify (now, completes attempt_id true) db has =
      complete_extraction_retrieval-Left now attempt_id true db has
  serve_extraction-Left hash verify (now, completes attempt_id false) db has =
      complete_extraction_retrieval-Left now attempt_id false db has
  serve_extraction-Left hash verify (now, downloads attempt_id) db has =
      (create_download_stream-Keeps id n now attempt_id).at db has ∙ ap some (omega arith)

-- Over any history of requests, an extraction that is there stays there, and what it has left at the
-- end is what it had at the start less the attempts of it that were completed, and 0 where more were
-- completed than it had.
pub serve_extractions-balance :
    (hash : ℕ → List ℕ → ℕ) (verify : ℕ → List ℕ → Bool) (id : ℕ)
    (requests : List (ℕ × ExtractionRequest)) (db : Database) (n : ℕ)
    → left id db ≡ some n
    → left id (serve_extractions hash verify requests db)
      ≡ some (n - total_completions hash verify id requests db)
unfolding serve_extractions total_completions
serve_extractions-balance hash verify id [] db n has = has ∙ ap some (omega arith)
serve_extractions-balance hash verify id (r ∷ rs) db n has =
    serve_extractions-balance hash verify id rs (serve_extraction hash verify r db) _
      (serve_extraction-Left id n hash verify r db has)
    ∙ ap some (omega arith)

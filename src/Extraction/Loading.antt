-- ===== src/Extraction/Loading.antt =====
-- What the loading of an attempt finds.
use liminalis.Common.{ℕ, ◌≡◌, ◌⊎◌, inl, inr, none, some, Option-cases}
use liminalis.Common.Exec.{ok, err, Error, not_found, gets, pure, or_throw, ◌>>=◌}
use liminalis.Common.Table.{find}
use liminalis.Schema.{ExtractionAccess, RetrievalAttempt, Database, Reason, attempt_not_found}
use liminalis.Extraction.Completion.{extraction_attempt, load_extraction_attempt}

module _ (attempt_id : ℕ) (db : Database) where
  -- The attempt and its access are there.
  pub record IsLoaded (key : ℕ) (attempt : RetrievalAttempt) (access : ExtractionAccess)
      : Type 0 where
    pub attempt_found :
        extraction_attempt (find attempt_id db.retrieval_attempts) ≡ some (key, attempt)
    pub access_found : find key db.extraction_accesses ≡ some access
    pub answer : load_extraction_attempt attempt_id db ≡ (ok (key, attempt, access), db)

  -- One of them is missing.
  pub record IsMissing (e : Error Reason) : Type 0 where
    pub refused : load_extraction_attempt attempt_id db ≡ (err e, db)
    pub reason :
        (extraction_attempt (find attempt_id db.retrieval_attempts) ≡ none)
        ⊎ ((key : ℕ) × (attempt : RetrievalAttempt) × (extraction_attempt
                (find attempt_id db.retrieval_attempts)
              ≡ some (key, attempt))
            × (find key db.extraction_accesses ≡ none))

  pub load_cases :
      ((e : Error Reason) × IsMissing e)
      ⊎ ((key : ℕ) × (attempt : RetrievalAttempt) × (access : ExtractionAccess) × IsLoaded key
            attempt access)
  unfolding load_extraction_attempt gets or_throw pure ◌>>=◌
  load_cases = elim (Option-cases (extraction_attempt (find attempt_id db.retrieval_attempts))) [
    | inl no_attempt ↦
        inl (
          not_found attempt_not_found,
          record { refused = rw (no_attempt); reason = inl no_attempt },
        )
    | inr ((key, attempt), found) ↦ elim (Option-cases (find key db.extraction_accesses)) [
      | inl no_access ↦ inl (
        not_found attempt_not_found,
        record { refused = rw (found, no_access); reason = inr (key, attempt, found, no_access) },
      )
      | inr (access, present) ↦ inr (
        key,
        attempt,
        access,
        record { attempt_found = found; access_found = present; answer = rw (found, present) },
      )
    ]
  ]

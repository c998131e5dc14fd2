-- ===== src/Retrieval/Served.antt =====
-- An attempt and its reference are always written when the keys for new rows are new.
use liminalis.Common.{ℕ, ◌≡◌, refl, Bool, Option, none, some}
use liminalis.Common.Exec.{ok, gets, lift, modify, pure, ◌>>=◌}
use liminalis.Common.Table.{create, find, find_where}
use liminalis.Schema.{Database, RetrievalAttempt, PackageReference}
use liminalis.Retrieval.New.{require_new, insert}
use liminalis.Retrieval.Attempts.{
  set_attempt, renew_attempt, upsert_attempt, reference_of, keep_reference, ensure_reference,
}

-- The references are left as they are.
pub upsert_attempt-ok :
    (same : RetrievalAttempt → Bool) (id : ℕ) (fresh : RetrievalAttempt) (db : Database)
    → find id db.retrieval_attempts ≡ none
    → (attempt : ℕ × RetrievalAttempt) × (d : Database) × (upsert_attempt same id fresh db
        ≡ (ok attempt, d))
      × (d.package_references ≡ db.package_references)
unfolding upsert_attempt renew_attempt insert require_new set_attempt gets lift modify pure ◌>>=◌
upsert_attempt-ok same id fresh db free = go (find_where same db.retrieval_attempts)
  where
    go :
        (row : Option (ℕ × RetrievalAttempt))
        → (attempt : ℕ × RetrievalAttempt) × (d : Database) × (renew_attempt id fresh row db
            ≡ (ok attempt, d))
          × (d.package_references ≡ db.package_references)
    go (some (key, row)) = (_, _, refl, refl)
    go none = (
      (id, fresh),
      record db { retrieval_attempts = create id fresh db.retrieval_attempts },
      rw (free),
      refl,
    )

pub ensure_reference-ok :
    (attempt : ℕ × RetrievalAttempt) (id : ℕ) (fresh : PackageReference) (db : Database)
    → find id db.package_references ≡ none
    → (reference : ℕ × PackageReference) × (d : Database) × (ensure_reference attempt id fresh db
        ≡ (ok reference, d))
unfolding ensure_reference keep_reference insert require_new set_attempt gets lift modify pure ◌>>=◌
ensure_reference-ok attempt id fresh db free = go (reference_of attempt.1.package_reference_id db)
  where
    go :
        (row : Option (ℕ × PackageReference))
        → (reference : ℕ × PackageReference) × (d : Database) × (keep_reference attempt.0 id fresh
              row db
            ≡ (ok reference, d))
    go (some (key, row)) = (_, _, refl)
    go none = (
      (id, fresh),
      set_attempt attempt.0 (λ row. record row { package_reference_id = some id })
          (record db { package_references = create id fresh db.package_references }),
      rw (free),
    )

-- ===== src/Retrieval/Stable.antt =====
-- Writing attempts and references keeps what is said of the other tables.
use liminalis.Common.{ℕ, Bool, Option, none, some}
use liminalis.Common.Exec.Keeps.{Keeps, keeps_rules}
use liminalis.Common.Table.{Table}
use liminalis.Schema.{Database, PackageReference, RetrievalAttempt}
use liminalis.Retrieval.Attempts.{
  set_attempt, renew_attempt, upsert_attempt, keep_reference, ensure_reference,
}
use liminalis.Retrieval.New.{insert-Keeps}

module _ (P : Database → Type 0) where
  module _
      (attempts : (t : Table RetrievalAttempt) (db : Database)
        → P db
        → P (record db { retrieval_attempts = t })) where
    pub set_attempt-Keeps :
        (key : ℕ) (patch : RetrievalAttempt → RetrievalAttempt) (db : Database)
        → P db
        → P (set_attempt key patch db)
    unfolding set_attempt
    set_attempt-Keeps key patch db p = attempts _ db p

    renew_attempt-Keeps :
        (key : ℕ) (fresh : RetrievalAttempt) (row : Option (ℕ × RetrievalAttempt))
        → Keeps P (renew_attempt key fresh row)
    unfolding renew_attempt
    renew_attempt-Keeps key fresh none = search (keeps_rules, insert-Keeps, attempts) depth 16
    renew_attempt-Keeps key fresh (some (k, row)) = search (keeps_rules, set_attempt-Keeps) depth 12

    pub upsert_attempt-Keeps :
        (same : RetrievalAttempt → Bool) (key : ℕ) (fresh : RetrievalAttempt)
        → Keeps P (upsert_attempt same key fresh)
    unfolding upsert_attempt
    upsert_attempt-Keeps same key fresh = search (keeps_rules, renew_attempt-Keeps) depth 12

    module _
        (references : (t : Table PackageReference) (db : Database)
          → P db
          → P (record db { package_references = t })) where
      keep_reference-Keeps :
          (attempt_id key : ℕ) (fresh : PackageReference) (row : Option (ℕ × PackageReference))
          → Keeps P (keep_reference attempt_id key fresh row)
      unfolding keep_reference
      keep_reference-Keeps attempt_id key fresh none =
          search (keeps_rules, insert-Keeps, set_attempt-Keeps, references) depth 20
      keep_reference-Keeps attempt_id key fresh (some row) = search keeps_rules depth 12

      pub ensure_reference-Keeps :
          (attempt : ℕ × RetrievalAttempt) (key : ℕ) (fresh : PackageReference)
          → Keeps P (ensure_reference attempt key fresh)
      unfolding ensure_reference
      ensure_reference-Keeps attempt key fresh = search (keeps_rules, keep_reference-Keeps) depth 12

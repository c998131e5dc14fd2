-- ===== src/Access/Revival.antt =====
-- An extraction that has been invalidated becomes active again by the completion of an attempt.
use liminalis.Common.{
  ℕ, ◌-◌, ◌≡◌, refl, inl, inr, Bool, true, false, ◌&&◌, ◌||◌, some, List, [], ◌∷◌, leb, arith,
  Bool-cases, ==_self, ◌==◌, if◌then◌else◌,
}
use liminalis.Common.Exec.{or_throw, gets, modify, pure, transaction, ◌>>=◌}
use liminalis.Common.Table.{Table, find, find_many, keys, update_where, find-update}
use liminalis.Schema.{
  extraction_access, ExtractionAccess, ExtractionState, RetrievalAttempt, Database,
  is_completed_attempt, is_open_attempt,
}
use liminalis.SourceItems.{
  share_of, one_of, invalidated_access, abandoned_attempt, invalidate_with_shares, invalidate_alone,
  invalidate_derived, invalidate_derived_access,
}
use liminalis.Retrieval.Attempts.{set_attempt}
use liminalis.Extraction.{
  set_access, extraction_attempt, load_extraction_attempt, store_completion, counted,
  complete_extraction_retrieval,
}
use mathlib.Core.Option

find-update_where :
    {A : Type 0} (p : A → Bool) (f : A → A) (key : ℕ) (t : Table A)
    → find key (update_where p f t) ≡ Option.map (λ a. if p a then f a else a) (find key t)
unfolding find update_where
find-update_where p f key [] = refl
find-update_where p f key ((id, a) ∷ t) = elim (Bool-cases (id == key)) [
  | inl e ↦ rw (e, if◌then◌else◌)
  | inr e ↦ rw (e, if◌then◌else◌) (find-update_where p f key t)
]

-- A completion that succeeds leaves the state to the count alone.
completed_access :
    (now attempt_id key : ℕ) (attempt : RetrievalAttempt) (access : ExtractionAccess)
    (db : Database)
    → extraction_attempt (find attempt_id db.retrieval_attempts) ≡ some (key, attempt)
    → find key db.extraction_accesses ≡ some access
    → is_completed_attempt attempt.status ≡ false
    → find key (complete_extraction_retrieval now attempt_id true db).1.extraction_accesses
      ≡ some (counted access access)
unfolding complete_extraction_retrieval load_extraction_attempt store_completion set_attempt
    set_access gets modify or_throw pure transaction ◌>>=◌
completed_access now attempt_id key attempt access db of_attempt found fresh =
    rw (of_attempt) (rw (found) (rw (fresh, if◌then◌else◌, find-update, ==_self key, found) refl))

-- What the invalidation leaves of an attempt under way and of its access.
record IsLeft (attempt_id key : ℕ) (attempt : RetrievalAttempt) (access : ExtractionAccess)
    (db : Database) : Type 0 where
  left : RetrievalAttempt
  of_attempt : extraction_attempt (find attempt_id db.retrieval_attempts) ≡ some (key, left)
  unfinished : is_completed_attempt left.status ≡ false
  of_access : find key db.extraction_accesses ≡ some (invalidated_access access)

module _ (attempt_id key : ℕ) (attempt : RetrievalAttempt) (access : ExtractionAccess)
    (unfinished : is_completed_attempt attempt.status ≡ false)
    (family : attempt.retrieval_family ≡ extraction_access)
    (of_key : attempt.extraction_access_id ≡ some key) where
  -- The attempt, abandoned or not, is that of the access.
  kept_attempt :
      (b : Bool)
      → (extraction_attempt (some (if b then abandoned_attempt attempt else attempt))
          ≡ some (key, if b then abandoned_attempt attempt else attempt))
        × (is_completed_attempt (if b then abandoned_attempt attempt else attempt).status ≡ false)
  kept_attempt true = (rw (family) (rw (of_key) refl), refl)
  kept_attempt false = (rw (family) (rw (of_key) refl), unfinished)

  module _ (db : Database) (attempt_found : find attempt_id db.retrieval_attempts ≡ some attempt)
      (access_found : find key db.extraction_accesses ≡ some access) where
    invalidate_derived-IsLeft :
        (ids : List ℕ)
        → IsLeft attempt_id key attempt access (invalidate_derived access.source_item_id ids db)
    unfolding invalidate_derived invalidate_alone invalidate_with_shares
    invalidate_derived-IsLeft [] =
        let abandoned_now : Bool =
          one_of (access.source_item_id ∷ []) attempt.source_item_id
          && is_open_attempt attempt.status in
        let (keyed, open_still) = kept_attempt abandoned_now in
        record {
          left = if abandoned_now then abandoned_attempt attempt else attempt;
          of_attempt = rw (find-update_where, attempt_found) keyed;
          unfinished = open_still;
          of_access =
              rw (find-update_where, access_found)
                (rw (==_self access.source_item_id, if◌then◌else◌) refl);
        }
    invalidate_derived-IsLeft (k ∷ ks) =
        let abandoned_now : Bool =
          (one_of (access.source_item_id ∷ []) attempt.source_item_id
            || one_of (k ∷ ks) attempt.share_object_id)
          && is_open_attempt attempt.status in
        let (keyed, open_still) = kept_attempt abandoned_now in
        record {
          left = if abandoned_now then abandoned_attempt attempt else attempt;
          of_attempt = rw (find-update_where, attempt_found) keyed;
          unfinished = open_still;
          of_access =
              rw (find-update_where, access_found)
                (rw (==_self access.source_item_id, if◌then◌else◌) refl);
        }

-- An extraction that the invalidation of its item's accesses has ended is active again after an
-- attempt of it, under way or abandoned, is reported as complete, where more than one retrieval is
-- left: the completion sets the state by the count alone.
pub invalidate_derived_access-revived :
    (now attempt_id key : ℕ) (attempt : RetrievalAttempt) (access : ExtractionAccess)
    (db : Database)
    → is_completed_attempt attempt.status ≡ false
    → attempt.retrieval_family ≡ extraction_access
    → attempt.extraction_access_id ≡ some key
    → find attempt_id db.retrieval_attempts ≡ some attempt
    → find key db.extraction_accesses ≡ some access
    → leb access.remaining_retrieval_count 1 ≡ false
    → let ended = (invalidate_derived_access access.source_item_id db).1 in
      (find key ended.extraction_accesses ≡ some (invalidated_access access))
      × ((row : ExtractionAccess) × (find key
              (complete_extraction_retrieval now attempt_id true ended).1.extraction_accesses
            ≡ some row)
          × (row.state ≡ ExtractionState.active))
unfolding invalidate_derived_access gets modify pure ◌>>=◌
invalidate_derived_access-revived now attempt_id key attempt access db unfinished family of_key
      attempt_found access_found several =
    let left : IsLeft attempt_id key attempt access
        (invalidate_derived_access access.source_item_id db).1 =
      invalidate_derived-IsLeft attempt_id key attempt access unfinished family of_key db
        attempt_found access_found
        (keys (find_many (share_of access.source_item_id) db.share_objects)) in
    (
      left.of_access,
      (
        counted (invalidated_access access) (invalidated_access access),
        completed_access now attempt_id key left.left (invalidated_access access) _ left.of_attempt
            left.of_access left.unfinished,
        rw (several_left access.remaining_retrieval_count several, if◌then◌else◌) refl,
      ),
    )
  where
    several_left : (n : ℕ) → leb n 1 ≡ false → (n - 1 == 0) ≡ false
    several_left n h = ground arith

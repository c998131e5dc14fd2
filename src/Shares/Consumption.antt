-- ===== src/Shares/Consumption.antt =====
-- A share without repeated downloads is consumed by the first one.
use liminalis.Common.{ℕ, ◌≡◌, refl, sym, subst, true, false, Option, none, some, arith, ==_self}
use liminalis.Common.Exec.{Result, ok, is_ok, gets, modify, or_throw, pure, transaction, ◌>>=◌}
use liminalis.Common.Exec.Rules.{lift_rule, gets_rule, or_throw_rule, bind_ok}
use liminalis.Common.Exec.Keeps.{Keeps, keeps_rules}
use liminalis.Common.Table.{find, find-update}
use liminalis.Schema.{
  Handler, AttemptStatus, ShareObject, InactiveReason, SourceItem, RetrievalAttempt, Database,
  Reason, is_completed_attempt,
}
use liminalis.Projections.{project_share, project_share_object, store_projections}
use liminalis.Retrieval.Attempts.{completed_at_time, set_attempt}
use liminalis.Retrieval.{IssuedRetrieval, own_attempt, related_share}
use liminalis.Shares.Retrieval.{
  RecipientCompletion, share_state, set_share, inactive_for, share_for, issue_recipient_retrieval,
  consume_share, store_recipient_completion, project_related_share, is_recipient_family,
  complete_recipient_retrieval,
}
use liminalis.Links.Limits.{guard-true}

-- The share is there and not active.
abbrev pub Inactive : ℕ → Database → Type 0
Inactive id db = (row : ShareObject) × (find id db.share_objects ≡ some row) × (row.active ≡ false)

module _ (id : ℕ) where
  project_share-Keeps :
      (now key : ℕ) (row : Option ShareObject) → Keeps (Inactive id) (project_share now key row)
  unfolding project_share store_projections
  project_share-Keeps now key none = search keeps_rules depth 12
  project_share-Keeps now key (some row) = search keeps_rules depth 16

  project_share_object-Keeps : (now key : ℕ) → Keeps (Inactive id) (project_share_object now key)
  unfolding project_share_object
  project_share_object-Keeps now key = search (keeps_rules, project_share-Keeps) depth 12

  project_related_share-Keeps :
      (now : ℕ) (key : Option ℕ) → Keeps (Inactive id) (project_related_share now key)
  unfolding project_related_share
  project_related_share-Keeps now none = search keeps_rules
  project_related_share-Keeps now (some key) = project_share_object-Keeps now key

  -- An inactive share is issued to nobody.
  issue_recipient_retrieval-refuses :
      (now : ℕ) (new : ℕ × ℕ) (user_id : ℕ) (device : Option ℕ) (scope_key : ℕ) (db : Database)
      → Inactive id db
      → is_ok (issue_recipient_retrieval now new user_id device id scope_key db).0 ≡ false
  unfolding issue_recipient_retrieval
  issue_recipient_retrieval-refuses now new user_id device scope_key db (row, found, ended) =
      let P : Result Reason IssuedRetrieval × Database → Type 0 = λ o. is_ok o.0 ≡ false in
      or_throw_rule P _ _ _ db refl λ (device_id : ℕ) e. gets_rule P _ _ db (
        or_throw_rule P _ _ _ db refl λ (share : ShareObject) f. gets_rule P _ _ db (
          or_throw_rule P _ _ _ db refl λ (item : SourceItem) source.
            lift_rule P _ _ db (λ x k. refl)
              λ u usable. absurd (
                shut user_id share row (subst (λ o. share_for user_id o ≡ some share) found f) ended
                  (guard-true share.active _ usable))))
    where
      shut :
          (user_id : ℕ) (share row : ShareObject)
          → share_for user_id (some row) ≡ some share
          → row.active ≡ false
          → share.active ≡ true
          → ⊥
      shut user_id share row f ended usable = ground arith

  -- The writes of a completion.
  store_recipient_completion_lem :
      (now attempt_id : ℕ) (attempt : RetrievalAttempt) (row : ShareObject) (db : Database)
      → attempt.share_object_id ≡ some id
      → find id db.share_objects ≡ some row
      → row.allow_repeat_download ≡ false
      → store_recipient_completion now attempt_id attempt db ≡ (
        ok tt,
        set_share id
            (inactive_for InactiveReason.consumed)
            (set_attempt attempt_id (completed_at_time now) db),
      )
  unfolding store_recipient_completion consume_share set_attempt gets modify transaction ◌>>=◌
  store_recipient_completion_lem now attempt_id attempt row db of_share found once =
      rw (of_share) (rw (found, once))

  complete_recipient_retrieval-Inactive :
      (now user_id device_id attempt_id : ℕ) (attempt : RetrievalAttempt) (row : ShareObject)
      (db : Database)
      → own_attempt is_recipient_family user_id device_id (find attempt_id db.retrieval_attempts)
        ≡ some attempt
      → is_completed_attempt attempt.status ≡ false
      → attempt.share_object_id ≡ some id
      → find id db.share_objects ≡ some row
      → row.allow_repeat_download ≡ false
      → Inactive id (complete_recipient_retrieval now user_id (some device_id) attempt_id true db).1
  complete_recipient_retrieval-Inactive now user_id device_id attempt_id attempt row db own fresh
        of_share found once =
      subst (λ (o : Result Reason RecipientCompletion × Database). Inactive id o.1) (sym step)
        (rw
          (bind_ok (store_recipient_completion now attempt_id attempt) (λ _. rest) db tt
            (store_recipient_completion_lem now attempt_id attempt row db of_share found once))
          (rest-Keeps.at _ consumed_share))
    where
      rest : Handler RecipientCompletion
      rest = project_related_share now attempt.share_object_id >>= λ (_ : Unit {0}).
          gets (related_share attempt.share_object_id) >>= λ (after : Option ShareObject).
          pure (record {
            retrieval_attempt_id = attempt_id;
            status = AttemptStatus.completed;
            share = share_state after;
          })

      rest-Keeps : Keeps (Inactive id) rest
      rest-Keeps = search (keeps_rules, project_related_share-Keeps) depth 12

      step :
          complete_recipient_retrieval now user_id (some device_id) attempt_id true db
          ≡ (store_recipient_completion now attempt_id attempt >>= λ (_ : Unit {0}). rest) db
      step = unfold complete_recipient_retrieval gets or_throw ◌>>=◌ in rw (own, fresh)

      consumed_share : Inactive id (
          set_share id
            (inactive_for InactiveReason.consumed)
            (set_attempt attempt_id (completed_at_time now) db))
      consumed_share = (
        inactive_for InactiveReason.consumed row,
        (unfold set_share set_attempt in rw (find-update, ==_self id, found) refl),
        refl,
      )

-- A recipient who has retrieved a share without repeated downloads is issued it no more: after the
-- attempt of the user and the device is completed with success, every request to retrieve the share
-- is refused, by any user, on any device and under any key of an attempt.
pub complete_recipient_retrieval-consumes :
    (now user_id device_id attempt_id id : ℕ) (attempt : RetrievalAttempt) (row : ShareObject)
    (db : Database)
    → own_attempt is_recipient_family user_id device_id (find attempt_id db.retrieval_attempts)
      ≡ some attempt
    → is_completed_attempt attempt.status ≡ false
    → attempt.share_object_id ≡ some id
    → find id db.share_objects ≡ some row
    → row.allow_repeat_download ≡ false
    → (later : ℕ) (new : ℕ × ℕ) (other_id : ℕ) (device : Option ℕ) (scope_key : ℕ)
    → is_ok
        (issue_recipient_retrieval later new other_id device id scope_key
          (complete_recipient_retrieval now user_id (some device_id) attempt_id true db).1).0
      ≡ false
complete_recipient_retrieval-consumes now user_id device_id attempt_id id attempt row db own fresh
      of_share found once later new other_id device scope_key =
    issue_recipient_retrieval-refuses id later new other_id device scope_key _ (
      complete_recipient_retrieval-Inactive id now user_id device_id attempt_id attempt row db own
        fresh of_share found once)

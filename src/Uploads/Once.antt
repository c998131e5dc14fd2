-- ===== src/Uploads/Once.antt =====
-- A session is finalized once.
use liminalis.Common.{
  ℕ, ◌≡◌, refl, sym, subst, inl, inr, Bool, true, false, Option, none, some, is_some, arith,
  Bool-cases, ltb, ◌==◌, ==_self, if◌then◌else◌,
}
use mathlib.Core.Option
use liminalis.Common.Exec.{
  Result, ok, err, is_ok, throw, lift, gets, modify, pure, ◌>>=◌, ◌>>◌, continue,
}
use liminalis.Common.Exec.Rules.{
  lift_rule, gets_rule, or_throw_rule, bind_rule, modify_rule, transaction_rule,
}
use liminalis.Common.Exec.Keeps.{Keeps, keeps_rules, outcome-Keeps}
use liminalis.Common.Table.{Table, find, find-update}
use liminalis.Retrieval.New.{insert, insert-Keeps}
use liminalis.Projections.{project_source_item, project_item, store_projections, remove_projections}
use liminalis.Schema.{
  SourceItem, UploadSession, UploadSessionPhase, Database, Reason, Handler, is_text,
}
use liminalis.Shares.{insert_family}
use liminalis.Uploads.Parts.{
  uploaded_by, refuse_expired_session, require_owned_active_upload_session, set_phase,
  is_completed_phase,
}
use liminalis.Uploads.Bounds.{OfUser, require_owned-OfUser}
use liminalis.Uploads.Finalization.{
  NewItem, FinalizeUpload, finalize_upload, insert_item, insert_grant, new_item, parts_of, binding,
}

abbrev is_done : Option UploadSession → Bool
is_done none = false
is_done (some session) = is_completed_phase session.phase

-- The session is there and completed.
abbrev Done : ℕ → Database → Type 0
Done id db = is_done (find id db.upload_sessions) ≡ true

done_session :
    (user_id : ℕ) (row : Option UploadSession) (session : UploadSession)
    → is_done row ≡ true
    → uploaded_by user_id row ≡ some session
    → is_completed_phase session.phase ≡ true
done_session user_id none session done found = ground arith
done_session user_id (some s) session done found =
    elim (Bool-cases (s.uploader_user_id == user_id)) [
      | inl e ↦
          subst (λ (x : UploadSession). is_completed_phase x.phase ≡ true)
            (same (rw (e, if◌then◌else◌) at found)) done
      | inr e ↦ absurd (clash (rw (e, if◌then◌else◌) at found))
    ]
  where
    same : some s ≡ some session → s ≡ session
    same p = cc

    clash : ◌≡◌ {A = Option UploadSession} none (some session) → ⊥
    clash p = cc

present :
    (user_id : ℕ) (row : Option UploadSession)
    → is_some (uploaded_by user_id row) ≡ true
    → is_some row ≡ true
present user_id none h = h
present user_id (some s) h = refl

done-completed :
    (row : Option UploadSession)
    → is_some row ≡ true
    → is_done
        (Option.map (λ (s : UploadSession). record s { phase = UploadSessionPhase.completed }) row)
      ≡ true
done-completed none h = ground arith
done-completed (some s) h = refl

module _ (id : ℕ) where
  -- A completed session is refused.
  require_owned-refuses :
      (now user_id : ℕ) (db : Database)
      → Done id db
      → is_ok (require_owned_active_upload_session now user_id id db).0 ≡ false
  unfolding require_owned_active_upload_session refuse_expired_session set_phase modify throw pure
      ◌>>=◌ lift
  require_owned-refuses now user_id db done = gets_rule Refused _ _ db (
      or_throw_rule Refused _ _ _ db refl λ session found.
        elim (Bool-cases (ltb session.expires_at now)) [
          | inl e ↦ rw (e, if◌then◌else◌) refl
          | inr e ↦ rw (e, if◌then◌else◌, done_session user_id _ session done found) refl
        ])
    where
      Refused : Result Reason UploadSession × Database → Type 0
      Refused o = is_ok o.0 ≡ false

  insert_grant-Keeps :
      (t : Table UploadSession) (new : NewItem) (user_id : ℕ) (future : Bool) (envelope : Option ℕ)
      → Keeps (λ (s : Database). s.upload_sessions ≡ t) (insert_grant new user_id future envelope)
  unfolding insert_grant insert_family
  insert_grant-Keeps t new user_id future envelope = search (keeps_rules, insert-Keeps) depth 16

  project_item-Done :
      (now key : ℕ) (row : Option SourceItem) → Keeps (Done id) (project_item now key row)
  unfolding project_item store_projections remove_projections
  project_item-Done now key none = search keeps_rules depth 12
  project_item-Done now key (some row) = search keeps_rules depth 14

  project_source_item-Done : (now key : ℕ) → Keeps (Done id) (project_source_item now key)
  unfolding project_source_item
  project_source_item-Done now key = search (keeps_rules, project_item-Done) depth 12

  abbrev Finalized : {A : Type 0} → Result Reason A × Database → Type 0
  Finalized (ok a, s) = Done id s
  Finalized (err e, s) = Unit {0}

  insert_item-Finalized :
      (now : ℕ) (new : NewItem) (user_id : ℕ) (session : UploadSession) (envelope : Option ℕ)
      (db : Database)
      → is_some (find id db.upload_sessions) ≡ true
      → Finalized (insert_item now new user_id id session envelope db)
  unfolding insert_item pure
  insert_item-Finalized now new user_id session envelope db there =
      transaction_rule Finalized _ db (λ e. tt) λ a s h. subst Finalized h body
    where
      Same : Database → Type 0
      Same s = s.upload_sessions ≡ db.upload_sessions

      last :
          (s : Database)
          → Same s
          → is_done (find id (set_phase id UploadSessionPhase.completed s).upload_sessions) ≡ true
      last s same =
          rw (find-update, ==_self id, if◌then◌else◌)
            (done-completed (find id s.upload_sessions)
              (subst (λ t. is_some (find id t) ≡ true) (sym same) there))

      body : Finalized (
          (do
            parts ← gets (λ (s : Database). parts_of id s.upload_parts)
            stored ← lift (binding (is_text session.content_kind) parts)
            insert
                (λ s. s.source_items)
                (λ t s. record s { source_items = t })
                new.item_id
                (new_item now user_id session stored)
            insert_grant new user_id session.policy_snapshot.allow_future_trusted_devices envelope
            modify (set_phase id UploadSessionPhase.completed)
            pure (new_item now user_id session stored))
            db)
      body = gets_rule Finalized _ _ db (
          lift_rule Finalized _ _ db (λ e h. tt)
            λ stored h.
              bind_rule Finalized _ _ db (λ e s h. tt)
                λ u s h.
                  bind_rule Finalized _ _ s (λ e s h. tt)
                    λ v s' h'. modify_rule Finalized _ _ s' (
                      last s' (
                        outcome-Keeps (insert_grant-Keeps db.upload_sessions new user_id _ envelope)
                          (outcome-Keeps (insert-Keeps Same _ _ _ _ (λ d free kept. kept)) refl h)
                          h')))

  -- The outcome of a request that succeeds.
  finalize_upload-Finalized :
      (now : ℕ) (new : NewItem) (user_id : ℕ) (input : FinalizeUpload) (db : Database)
      → Finalized (finalize_upload now new user_id id input db)
  unfolding finalize_upload pure
  finalize_upload-Finalized now new user_id input db =
      bind_rule Finalized _ _ db (λ e s h. tt)
        λ session s h. gets_rule Finalized _ _ s (
          lift_rule Finalized _ _ s (λ e h. tt)
            λ u k.
              bind_rule Finalized _ _ s (λ e s h. tt)
                λ item s' h'.
                  bind_rule Finalized _ _ s' (λ e s h. tt)
                    λ v s'' h''.
                      outcome-Keeps (project_source_item-Done now new.item_id)
                        (subst Finalized h' (
                          insert_item-Finalized now new user_id session input.owner_key_envelope s (
                            there session s (
                              subst (OfUser user_id db id) h
                                (require_owned-OfUser user_id db now id)))))
                        h'')
    where
      there :
          (session : UploadSession) (s : Database)
          → OfUser user_id db id (ok session, s)
          → is_some (find id s.upload_sessions) ≡ true
      there session s owned = rw (owned.0) (present user_id (find id db.upload_sessions) owned.1)

  refused :
      {A : Type 0} (m : Result Reason UploadSession × Database) (f : UploadSession → Handler A)
      → is_ok m.0 ≡ false
      → is_ok (continue m.0 f m.1).0 ≡ false
  refused (ok session, s) f h = absurd (true_is_false h)
    where
      true_is_false : true ≡ false → ⊥
      true_is_false p = cc
  refused (err e, s) f h = refl

-- After a request that has finalized an upload session, the next one for that session is refused,
-- at any time and whoever makes it.
pub finalize_upload-once :
    (now now' : ℕ) (new new' : NewItem) (user_id user_id' session_id : ℕ)
    (input input' : FinalizeUpload) (db : Database)
    → is_ok (finalize_upload now new user_id session_id input db).0 ≡ true
    → is_ok
        (finalize_upload now' new' user_id' session_id input'
          (finalize_upload now new user_id session_id input db).1).0
      ≡ false
unfolding finalize_upload ◌>>=◌
finalize_upload-once now now' new new' user_id user_id' id input input' db success =
    refused id _ _ (
      require_owned-refuses id now' user_id' _ (
        finished (finalize_upload now new user_id id input db) success
          (finalize_upload-Finalized id now new user_id input db)))
  where
    finished :
        (o : Result Reason (ℕ × SourceItem) × Database)
        → is_ok o.0 ≡ true
        → Finalized id o
        → Done id o.1
    finished (ok a, s) h done = done
    finished (err e, s) h done = ground arith

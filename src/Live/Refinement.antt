-- ===== src/Live/Refinement.antt =====
-- The requests of participants as steps of the abstract machine.
use liminalis.Common.{ℕ, String, ◌≡◌, refl, sym, subst, Bool, true, false, Option, none, some}
use liminalis.Common.Exec.{ok, pure}
use liminalis.Common.Exec.Rules.{bind_rule, lift_rule, modify_rule}
use liminalis.Common.Exec.Leaves.{Leaves, outcome-Leaves}
use liminalis.Common.Table.{update, Table, find}
use liminalis.Schema.{LiveSession, LiveTransport, Database, Handler, Reason}
use liminalis.Uploads.{prepare_upload}
use liminalis.Live.Checks.{as_participant, assert_transport_mutable}
use liminalis.Live.Lifecycle.{
  update_session, confirmation_checks, confirm_session, transport_checks, update_transport,
  complete_session, fail_session,
}
use liminalis.Live.Fallback.{
  begin_stored_fallback, fallback_upload, continue_fallback, fallback_checks,
}
use liminalis.Live.Rules.{as_participant_rule, update_session_lem, live_sessions-updated}
use liminalis.Live.Frames.{prepare_upload-Leaves, continue_fallback-Leaves}
use liminalis.Live.Steps.{
  Change, is_confirmed, is_cancelled, takes_transport, is_completed, falls_back, Steps, stays,
  changes,
}

-- An outcome that steps from a table.
abbrev pub Stepped {ℓ} : {A : Type ℓ} → Table LiveSession → A × Database → Type 0
Stepped t o = Steps t o.1.live_sessions

pub Leaves-Stepped :
    {A : Type 0} (db : Database) (m : Handler A)
    → Leaves (λ (d : Database). d.live_sessions) m
    → Stepped db.live_sessions (m db)
Leaves-Stepped db m h = subst (Steps db.live_sessions) (sym (h.at db)) stays

pub update_session-Stepped :
    (session_id : ℕ) (patch : LiveSession → LiveSession) (db : Database) (session : LiveSession)
    → find session_id db.live_sessions ≡ some session
    → Change session patch
    → Stepped db.live_sessions (update_session session_id patch db)
update_session-Stepped session_id patch db session found change =
    rw (update_session_lem session_id patch db session found) (
      subst (Steps db.live_sessions) (sym (live_sessions-updated session_id patch db))
        (changes session_id session patch found change))

module _ (now user_id session_id : ℕ) (device : Option ℕ) (db : Database) where
  as_participant-Stepped :
      {A : Type 0} (body : ℕ → LiveSession → Handler A)
      → ((device_id : ℕ) (s : LiveSession)
          → find session_id db.live_sessions ≡ some s
          → Stepped db.live_sessions (body device_id s db))
      → Stepped db.live_sessions (as_participant user_id device session_id body db)
  as_participant-Stepped body kept =
      as_participant_rule (Stepped db.live_sessions) user_id device session_id body db (λ e. stays)
        λ device_id s known found allowed. kept device_id s found

  pub confirm_session-Stepped :
      (confirmed : Bool)
      → Stepped db.live_sessions (confirm_session now user_id device session_id confirmed db)
  unfolding confirm_session
  confirm_session-Stepped true = as_participant-Stepped _ λ device_id s found.
      lift_rule (Stepped db.live_sessions) (confirmation_checks s) _ db (λ e h. stays)
        λ u h. update_session-Stepped session_id _ db s found (is_confirmed now _ h)
  confirm_session-Stepped false =
      as_participant-Stepped _
        λ device_id s found. update_session-Stepped session_id _ db s found is_cancelled

  pub update_transport-Stepped :
      (wanted : LiveTransport)
      → Stepped db.live_sessions (update_transport user_id device session_id wanted db)
  unfolding update_transport
  update_transport-Stepped wanted = as_participant-Stepped _ λ device_id s found.
      lift_rule (Stepped db.live_sessions) (assert_transport_mutable s) _ db (λ e h. stays)
        λ u h.
          lift_rule (Stepped db.live_sessions) (transport_checks s wanted) _ db (λ e k. stays)
            λ u' k. update_session-Stepped session_id _ db s found (takes_transport wanted h k)

  pub complete_session-Stepped :
      Stepped db.live_sessions (complete_session now user_id device session_id db)
  unfolding complete_session
  complete_session-Stepped =
      as_participant-Stepped _
        λ device_id s found. update_session-Stepped session_id _ db s found (is_completed now)

  pub fail_session-Stepped :
      (reason : String)
      → Stepped db.live_sessions (fail_session user_id device session_id reason db)
  unfolding fail_session
  fail_session-Stepped reason =
      as_participant-Stepped _
        λ device_id s found. update_session-Stepped session_id _ db s found (Change.fails reason)

  continue_fallback-Stepped :
      (upload_id device_id : ℕ) (s : LiveSession) (existing : Option ℕ)
      → find session_id db.live_sessions ≡ some s
      → fallback_checks s ≡ ok tt
      → s.stored_fallback_upload_session_id ≡ existing
      → Stepped db.live_sessions
          (continue_fallback now upload_id user_id device_id session_id s existing db)
  unfolding continue_fallback pure
  continue_fallback-Stepped upload_id device_id s (some existing) found h e =
      Leaves-Stepped db
        (continue_fallback now upload_id user_id device_id session_id s (some existing))
        (continue_fallback-Leaves now upload_id user_id device_id session_id s existing)
  continue_fallback-Stepped upload_id device_id s none found h e =
      bind_rule (Stepped db.live_sessions)
        (prepare_upload now upload_id user_id (some device_id) (fallback_upload s)) _ db
        (λ x db' k. subst (Steps db.live_sessions) (sym (outcome-Leaves upload k)) stays)
        λ row db' k.
          modify_rule {R = Reason} (Stepped db.live_sessions) _ _ db'
            (written row.0 db' (outcome-Leaves upload k))
    where
      upload :
          Leaves
            (λ (d : Database). d.live_sessions)
            (prepare_upload now upload_id user_id (some device_id) (fallback_upload s))
      upload = prepare_upload-Leaves now upload_id user_id (some device_id) (fallback_upload s)

      written :
          (row_id : ℕ) (db' : Database)
          → db'.live_sessions ≡ db.live_sessions
          → Steps db.live_sessions (
              update session_id
                (λ row. record row { stored_fallback_upload_session_id = some row_id })
                db'.live_sessions)
      written row_id db' same =
          subst
            (λ t. Steps db.live_sessions (
              update session_id
                (λ row. record row { stored_fallback_upload_session_id = some row_id }) t))
            (sym same) (changes session_id s _ found (falls_back row_id h e))

  pub begin_stored_fallback-Stepped :
      (upload_id : ℕ)
      → Stepped db.live_sessions (begin_stored_fallback now upload_id user_id device session_id db)
  unfolding begin_stored_fallback
  begin_stored_fallback-Stepped upload_id = as_participant-Stepped _ λ device_id s found.
      lift_rule (Stepped db.live_sessions) (fallback_checks s) _ db (λ e h. stays)
        λ u h.
          continue_fallback-Stepped upload_id device_id s s.stored_fallback_upload_session_id found
            h refl

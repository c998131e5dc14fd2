-- ===== src/Live/Rules.antt =====
-- Rules for the handlers of live sessions: the shared prefix, and the update of a session.
use liminalis.Common.{ℕ, ◌≡◌, Bool, true, ◌||◌, Option, some, arith}
use liminalis.Common.Exec.{gets, or_throw, ◌>>=◌, Error, Result, ok, err, lift, ◌>>◌}
use liminalis.Common.Exec.Rules.{or_throw_rule, lift_rule}
use liminalis.Common.Table.{find, update, find-update_self}
use liminalis.Schema.{LiveSession, Reason, Database, Handler}
use liminalis.Live.Checks.{
  require_device, require_session, is_initiator, is_joiner, assert_participant, as_participant,
}
use liminalis.Live.Records.{project_retained_record}
use liminalis.Live.Lifecycle.{update_session}

abbrev pub is_participant : LiveSession → ℕ → ℕ → Bool
is_participant session user_id device_id =
    is_initiator session user_id device_id || is_joiner session user_id device_id

pub participant_of :
    (session : LiveSession) (user_id device_id : ℕ) {u : Unit {0}}
    → assert_participant session user_id device_id ≡ ok u
    → is_participant session user_id device_id ≡ true
unfolding assert_participant
participant_of session user_id device_id h = ground arith

module _ {A : Type 0} (P : Result Reason A × Database → Type 0) where
  -- A request ends in an error that changes nothing, or runs the body for a participant.
  pub as_participant_rule :
      (user_id : ℕ) (trusted_device_id : Option ℕ) (session_id : ℕ)
      (body : ℕ → LiveSession → Handler A) (db : Database)
      → ((e : Error Reason) → P (err e, db))
      → ((device_id : ℕ) (session : LiveSession)
          → trusted_device_id ≡ some device_id
          → find session_id db.live_sessions ≡ some session
          → is_participant session user_id device_id ≡ true
          → P (body device_id session db))
      → P (as_participant user_id trusted_device_id session_id body db)
  unfolding as_participant
  as_participant_rule user_id trusted_device_id session_id body db bad good =
      or_throw_rule P trusted_device_id _ _ db (bad _) λ device_id known.
        or_throw_rule P (find session_id db.live_sessions) _
          (λ session. lift (assert_participant session user_id device_id) >> body device_id session)
          db (bad _)
          λ session found.
            lift_rule P (assert_participant session user_id device_id) _ db (λ e _. bad e)
              λ _ allowed.
                good device_id session known found
                  (participant_of session user_id device_id allowed)

pub live_sessions-project :
    (session_id : ℕ) (db : Database)
    → (project_retained_record session_id db).live_sessions ≡ db.live_sessions
unfolding project_retained_record
live_sessions-project session_id db = ground arith

-- The database after an update of a session.
unfoldable pub updated : ℕ → (LiveSession → LiveSession) → Database → Database
updated session_id patch db =
    project_retained_record session_id
      (record db { live_sessions = update session_id patch db.live_sessions })

pub live_sessions-updated :
    (session_id : ℕ) (patch : LiveSession → LiveSession) (db : Database)
    → (updated session_id patch db).live_sessions ≡ update session_id patch db.live_sessions
unfolding updated
live_sessions-updated session_id patch db = live_sessions-project session_id _

-- An update of a session that is there answers with the new row.
pub update_session_lem :
    (session_id : ℕ) (patch : LiveSession → LiveSession) (db : Database) (session : LiveSession)
    → find session_id db.live_sessions ≡ some session
    → update_session session_id patch db ≡ (ok (patch session), updated session_id patch db)
unfolding update_session updated
update_session_lem session_id patch db session found =
    rw (live_sessions-project, find-update_self session_id patch db.live_sessions session found)

-- What a request of a participant runs.
pub as_participant_lem :
    {A : Type 0} (user_id device_id session_id : ℕ) (body : ℕ → LiveSession → Handler A)
    (db : Database) (session : LiveSession)
    → find session_id db.live_sessions ≡ some session
    → is_participant session user_id device_id ≡ true
    → as_participant user_id (some device_id) session_id body db ≡ body device_id session db
unfolding as_participant require_device require_session assert_participant gets lift or_throw ◌>>=◌
as_participant_lem user_id device_id session_id body db session found inside = rw (found, inside)

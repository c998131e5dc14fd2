-- ===== src/Live/Access.antt =====
-- Who may act on a live session: a request by anybody but its two sides changes nothing.
use liminalis.Common.{subst, sym, ℕ, ◌≡◌, refl, Bool, true, false, Option, none, some, leb}
use liminalis.Common.Exec.{Result, bad_request, guard}
use liminalis.Common.Exec.Rules.{lift_rule, or_throw_rule}
use liminalis.Common.Table.{find}
use liminalis.Schema.{LiveSession, Reason, Database, Handler, sequence_not_positive}
use liminalis.Live.Checks.{require_device, require_session, as_participant, assert_participant}
use liminalis.Live.Lifecycle.{confirm_session, update_transport, complete_session, fail_session}
use liminalis.Live.Fallback.{begin_stored_fallback}
use liminalis.Live.Signals.{send_signal, list_signals}
use liminalis.Live.Relay.{Body, upload_relay_chunk, acknowledge_relay_chunk}
use liminalis.Live.Rules.{as_participant_rule, is_participant, participant_of}
use liminalis.Live.Requests.{
  Caller, LiveRequest, creates, joins, confirms, updates_transport, completes, fails,
  begins_fallback, sends_signal, lists_signals, uploads_chunk, acknowledges, serve,
}

-- The session that a request names by its key.
abbrev pub addressed : LiveRequest → Option ℕ
addressed (creates id uuid input) = none
addressed (joins code) = none
addressed (confirms session_id confirmed) = some session_id
addressed (updates_transport session_id wanted) = some session_id
addressed (completes session_id) = some session_id
addressed (fails session_id reason) = some session_id
addressed (begins_fallback session_id upload_id) = some session_id
addressed (sends_signal session_id id kind payload) = some session_id
addressed (lists_signals session_id) = some session_id
addressed (uploads_chunk session_id id limit sequence body) = some session_id
addressed (acknowledges session_id chunk_id) = some session_id

-- A caller on no side of a session: without a trusted device, of a session that is not there, or
-- another user or device than its two.
abbrev pub IsOutsider : Caller → ℕ → Database → Type 0
IsOutsider c session_id db =
    (device_id : ℕ) (session : LiveSession)
    → c.trusted_device_id ≡ some device_id
    → find session_id db.live_sessions ≡ some session
    → is_participant session c.user_id device_id ≡ false

clash : {b : Bool} → b ≡ true → b ≡ false → ⊥
clash p q = cc

module _ (c : Caller) (session_id : ℕ) (db : Database) (outside : IsOutsider c session_id db) where
  abbrev Unchanged : {A : Type 0} → A × Database → Type 0
  Unchanged o = o.1 ≡ db

  as_participant-outsider :
      {A : Type 0} (body : ℕ → LiveSession → Handler A)
      → (as_participant c.user_id c.trusted_device_id session_id body db).1 ≡ db
  as_participant-outsider {A} body =
      as_participant_rule (λ (o : Result Reason A × Database). o.1 ≡ db) c.user_id
        c.trusted_device_id session_id body db (λ e. refl)
        λ device_id session known found inside.
          absurd (clash inside (outside device_id session known found))

  -- The upload of a chunk checks the sequence between the device and the session.
  upload_relay_chunk-outsider :
      (limit id sequence : ℕ) (body : Body)
      → (upload_relay_chunk limit id c.user_id c.trusted_device_id session_id sequence body db).1
        ≡ db
  unfolding upload_relay_chunk require_device require_session
  upload_relay_chunk-outsider limit id sequence body =
      or_throw_rule Unchanged c.trusted_device_id _ _ db refl λ device_id known.
        lift_rule Unchanged (guard (leb 1 sequence) (bad_request sequence_not_positive)) _ db
          (λ e h. refl)
          λ u positive.
            or_throw_rule Unchanged (find session_id db.live_sessions) _ _ db refl λ session found.
              lift_rule Unchanged (assert_participant session c.user_id device_id) _ db
                (λ e h. refl)
                λ v allowed. absurd (
                  clash (participant_of session c.user_id device_id allowed)
                    (outside device_id session known found))

same-IsOutsider :
    (c : Caller) (s session_id : ℕ) (db : Database)
    → some s ≡ some session_id
    → IsOutsider c session_id db
    → IsOutsider c s db
same-IsOutsider c s session_id db e outside = subst (λ i. IsOutsider c i db) (sym (only e)) outside
  where
    only : some s ≡ some session_id → s ≡ session_id
    only p = cc

-- Except for creating and joining, a request by a caller on neither side of the session that it
-- names leaves everything stored as it was.
pub serve-outsider :
    (c : Caller) (r : LiveRequest) (session_id : ℕ) (db : Database)
    → addressed r ≡ some session_id
    → IsOutsider c session_id db
    → serve c r db ≡ db
unfolding serve
serve-outsider c (creates id uuid input) session_id db e outside = absurd (nothing e)
  where
    nothing : none ≡ some session_id → ⊥
    nothing p = cc
serve-outsider c (joins code) session_id db e outside = absurd (nothing e)
  where
    nothing : none ≡ some session_id → ⊥
    nothing p = cc
serve-outsider c (confirms s confirmed) session_id db e outside =
    unfold confirm_session in
    as_participant-outsider c s db (same-IsOutsider c s session_id db e outside) _
serve-outsider c (updates_transport s wanted) session_id db e outside =
    unfold update_transport in
    as_participant-outsider c s db (same-IsOutsider c s session_id db e outside) _
serve-outsider c (completes s) session_id db e outside =
    unfold complete_session in
    as_participant-outsider c s db (same-IsOutsider c s session_id db e outside) _
serve-outsider c (fails s reason) session_id db e outside =
    unfold fail_session in
    as_participant-outsider c s db (same-IsOutsider c s session_id db e outside) _
serve-outsider c (begins_fallback s upload_id) session_id db e outside =
    unfold begin_stored_fallback in
    as_participant-outsider c s db (same-IsOutsider c s session_id db e outside) _
serve-outsider c (sends_signal s id kind payload) session_id db e outside =
    unfold send_signal in
    as_participant-outsider c s db (same-IsOutsider c s session_id db e outside) _
serve-outsider c (lists_signals s) session_id db e outside =
    unfold list_signals in
    as_participant-outsider c s db (same-IsOutsider c s session_id db e outside) _
serve-outsider c (uploads_chunk s id limit sequence body) session_id db e outside =
    upload_relay_chunk-outsider c s db (same-IsOutsider c s session_id db e outside) limit id
      sequence body
serve-outsider c (acknowledges s chunk_id) session_id db e outside =
    unfold acknowledge_relay_chunk in
    as_participant-outsider c s db (same-IsOutsider c s session_id db e outside) _

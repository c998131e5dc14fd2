-- ===== src/Live/Lifecycle.antt =====
-- `confirmSession`, `updateTransport`, `completeSession`, `failSession` and `getSession`. `now` is the
-- time of the request.
use liminalis.Common.{
  ℕ, String, Bool, not, ◌&&◌, ◌||◌, Option, none, some, ◌==◌, some_eq, is_some, if◌then◌else◌,
}
use liminalis.Common.Exec.{
  Result, bad_request, not_found, database, guard, and_then, lift, gets, modify, pure, or_throw,
  ◌>>=◌, ◌>>◌,
}
use liminalis.Common.Table.{find, update}
use liminalis.Schema.{
  LiveState, awaiting_confirmation, connecting, cancelled, is_awaiting_confirmation, LiveTransport,
  p2p_attempt, relay_attempt, p2p_active, relay_active, is_p2p, is_relay, is_p2p_attempt,
  is_relay_attempt, is_p2p_active, is_relay_active, LiveSession, Handler, Reason, Database,
  session_not_found, not_awaiting_confirmation, no_joined_participant, p2p_not_allowed,
  relay_not_allowed, relay_fallback_not_allowed, relay_not_attempted, p2p_not_attempted,
  record_not_found,
}
use liminalis.Live.Checks.{
  is_initiator, has_joined, assert_transport_mutable, require_session, as_participant,
}
use liminalis.Live.Records.{project_retained_record}

-- `prisma.liveTransferSession.update` by key, then `projectRetainedRecord`.
unfoldable pub update_session : ℕ → (LiveSession → LiveSession) → Handler LiveSession
unfolding modify gets or_throw ◌>>=◌
update_session session_id patch = do
  modify (λ (db : Database). record db { live_sessions = update session_id patch db.live_sessions })
  modify (project_retained_record session_id)
  updated ← gets (λ db. find session_id db.live_sessions)
  or_throw updated (database record_not_found)

-- The transport of a session that both sides have confirmed.
first_transport : LiveSession → Option LiveTransport
first_transport session =
    if session.peer_to_peer_allowed
    then some p2p_attempt
    else if session.relay_allowed
    then some relay_attempt
    else none

-- The columns that a confirmation writes, from the session as it was read.
unfoldable pub confirmation_patch : ℕ → Bool → LiveSession → LiveSession → LiveSession
unfolding first_transport
confirmation_patch now by_initiator session row =
    let initiator_at = if by_initiator then some now else session.initiator_confirmed_at in
    let joiner_at = if by_initiator then session.joiner_confirmed_at else some now in
    let both = is_some initiator_at && is_some joiner_at in
    record row {
      initiator_confirmed_at = if by_initiator then some now else row.initiator_confirmed_at;
      joiner_confirmed_at = if by_initiator then row.joiner_confirmed_at else some now;
      state = if both then connecting else awaiting_confirmation;
      transport_state = if both then first_transport session else session.transport_state;
    }

unfoldable pub confirmation_checks : LiveSession → Result Reason (Unit {0})
confirmation_checks session =
    and_then
      (guard (is_awaiting_confirmation session.state) (bad_request not_awaiting_confirmation))
      λ _. guard (has_joined session) (bad_request no_joined_participant)

unfoldable pub confirm_session : ℕ → ℕ → Option ℕ → ℕ → Bool → Handler LiveSession
confirm_session now user_id trusted_device_id session_id confirmed =
    as_participant user_id trusted_device_id session_id λ device_id session.
      if confirmed
      then (do
        lift (confirmation_checks session)
        update_session session_id
            (confirmation_patch now (is_initiator session user_id device_id) session))
      else update_session session_id (λ row. record row { state = cancelled })

-- The tests of `updateTransport` on the wanted transport.
unfoldable pub transport_checks : LiveSession → LiveTransport → Result Reason (Unit {0})
transport_checks session wanted =
    and_then
      (guard (not (is_p2p wanted && not session.peer_to_peer_allowed))
        (bad_request p2p_not_allowed))
      λ _.
        and_then
          (guard (not (is_relay wanted && not session.relay_allowed))
            (bad_request relay_not_allowed))
          λ _.
            and_then
              (guard
                (not (
                  is_relay wanted
                  && (is_p2p_attempt session.transport_state
                      && not session.peer_to_peer_to_relay_fallback)))
                (bad_request relay_fallback_not_allowed))
              λ _.
                and_then
                  (guard
                    (not (
                      is_relay_active (some wanted)
                      && not (is_relay_attempt session.transport_state)))
                    (bad_request relay_not_attempted))
                  λ _.
                    guard
                      (not (
                        is_p2p_active (some wanted)
                        && not (is_p2p_attempt session.transport_state)))
                      (bad_request p2p_not_attempted)

-- The state beside a transport.
unfoldable pub state_of_transport : LiveTransport → LiveState
state_of_transport p2p_active = LiveState.active
state_of_transport relay_active = LiveState.active
state_of_transport _ = connecting

unfoldable pub update_transport : ℕ → Option ℕ → ℕ → LiveTransport → Handler LiveSession
update_transport user_id trusted_device_id session_id wanted =
    as_participant user_id trusted_device_id session_id λ device_id session. do
      lift (assert_transport_mutable session)
      lift (transport_checks session wanted)
      update_session session_id
          (λ row. record row { state = state_of_transport wanted; transport_state = some wanted })

unfoldable pub complete_session : ℕ → ℕ → Option ℕ → ℕ → Handler LiveSession
complete_session now user_id trusted_device_id session_id =
    as_participant user_id trusted_device_id session_id λ device_id session.
      update_session session_id
        (λ row. record row { state = LiveState.completed; completed_at = some now })

unfoldable pub fail_session : ℕ → Option ℕ → ℕ → String → Handler LiveSession
fail_session user_id trusted_device_id session_id reason =
    as_participant user_id trusted_device_id session_id λ device_id session.
      update_session session_id
        (λ row. record row { state = LiveState.failed; failure_reason = some reason })

unfoldable pub get_session : ℕ → ℕ → Handler LiveSession
unfolding require_session
get_session user_id session_id = do
  session ← require_session session_id
  lift (
      guard (session.initiator_user_id == user_id || some_eq session.joiner_user_id user_id)
        (not_found session_not_found))
  pure session

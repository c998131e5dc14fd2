-- ===== src/Live/Checks.antt =====
-- The private checks of live-transfer.service.ts, and the prefix that its handlers share.
use liminalis.Common.{
  ℕ, Bool, not, ◌&&◌, ◌||◌, Option, some, ltb, ◌==◌, some_eq, is_some, if◌then◌else◌,
}
use liminalis.Common.Exec.{
  Result, ok, err, bad_request, forbidden, not_found, guard, and_then, lift, gets, or_throw, ◌>>=◌,
  ◌>>◌,
}
use liminalis.Common.Table.{find}
use liminalis.Schema.{
  LiveSession, is_awaiting_join, is_connecting_or_active, is_completed, is_relay_active, Handler,
  Reason, trusted_device_required, session_not_found, session_expired, session_not_joinable,
  participant_required, transport_not_active_yet, both_confirmations_required,
  no_joined_participant, not_ready_for_signaling, relay_not_allowed, relay_not_active,
}

abbrev Checked : Type 0
Checked = Result Reason (Unit {0})

unfoldable pub assert_joinable : ℕ → LiveSession → Checked
assert_joinable now session =
    and_then (guard (not (ltb session.expires_at now)) (bad_request session_expired)) λ _.
      guard (is_awaiting_join session.state && not (is_some session.joiner_user_id))
        (bad_request session_not_joinable)

abbrev pub is_initiator : LiveSession → ℕ → ℕ → Bool
is_initiator session user_id device_id =
    session.initiator_user_id == user_id && session.initiator_device_id == device_id

abbrev pub is_joiner : LiveSession → ℕ → ℕ → Bool
is_joiner session user_id device_id =
    some_eq session.joiner_user_id user_id && some_eq session.joiner_device_id device_id

unfoldable pub assert_participant : LiveSession → ℕ → ℕ → Checked
assert_participant session user_id device_id =
    guard (is_initiator session user_id device_id || is_joiner session user_id device_id)
      (forbidden participant_required)

abbrev pub has_joined : LiveSession → Bool
has_joined session = is_some session.joiner_user_id && is_some session.joiner_device_id

abbrev pub both_confirmed : LiveSession → Bool
both_confirmed session =
    is_some session.initiator_confirmed_at && is_some session.joiner_confirmed_at

unfoldable pub assert_transport_mutable : LiveSession → Checked
assert_transport_mutable session =
    and_then (guard (is_connecting_or_active session.state) (bad_request transport_not_active_yet))
      λ _. guard (both_confirmed session) (bad_request both_confirmations_required)

unfoldable pub assert_can_exchange_transport_data : LiveSession → Bool → Checked
assert_can_exchange_transport_data session allow_completed =
    and_then (guard (has_joined session) (bad_request no_joined_participant)) λ _.
      and_then (guard (both_confirmed session) (bad_request both_confirmations_required)) λ _.
        guard
          (is_connecting_or_active session.state || (allow_completed && is_completed session.state))
          (bad_request not_ready_for_signaling)

unfoldable pub assert_relay_active : LiveSession → Bool → Checked
unfolding assert_can_exchange_transport_data
assert_relay_active session allow_completed =
    and_then (assert_can_exchange_transport_data session allow_completed) λ _.
      and_then (guard session.relay_allowed (bad_request relay_not_allowed))
        λ _. guard (is_relay_active session.transport_state) (bad_request relay_not_active)

-- The user and the device on the other side.
unfoldable pub counterpart : LiveSession → ℕ → ℕ → Option ℕ → Option ℕ → Result Reason (ℕ × ℕ)
counterpart session user_id device_id (some joiner_user) (some joiner_device) =
    if is_initiator session user_id device_id
    then ok (joiner_user, joiner_device)
    else if joiner_user == user_id && joiner_device == device_id
    then ok (session.initiator_user_id, session.initiator_device_id)
    else err (forbidden participant_required)
counterpart session user_id device_id _ _ = err (bad_request no_joined_participant)

unfoldable pub resolve_counterpart : LiveSession → ℕ → ℕ → Result Reason (ℕ × ℕ)
unfolding counterpart
resolve_counterpart session user_id device_id =
    counterpart session user_id device_id session.joiner_user_id session.joiner_device_id

-- How each handler begins: the device, then the session, then the participant.
unfoldable pub require_device : Option ℕ → Handler ℕ
require_device trusted_device_id = or_throw trusted_device_id (forbidden trusted_device_required)

unfoldable pub require_session : ℕ → Handler LiveSession
unfolding gets or_throw ◌>>=◌
require_session session_id = do
  session ← gets (λ db. find session_id db.live_sessions)
  or_throw session (not_found session_not_found)

module _ {A : Type 0} where
  unfoldable pub as_participant : ℕ → Option ℕ → ℕ → (ℕ → LiveSession → Handler A) → Handler A
  unfolding require_device require_session assert_participant
  as_participant user_id trusted_device_id session_id body = do
    device_id ← require_device trusted_device_id
    session ← require_session session_id
    lift (assert_participant session user_id device_id)
    body device_id session

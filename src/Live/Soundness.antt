-- ===== src/Live/Soundness.antt =====
-- The well-formedness of a live session, and that each change of a session keeps it.
use liminalis.Common.{
  ℕ, String, ◌≡◌, refl, Bool, true, false, not, ◌||◌, Option, none, some, is_some, arith,
}
use liminalis.Common.Exec.{ok}
use liminalis.Schema.{
  LiveSession, LiveState, LiveTransport, awaiting_confirmation, cancelled, is_awaiting_join,
  is_awaiting_confirmation, is_connecting_or_active, is_p2p, is_relay, is_p2p_active,
  is_relay_active,
}
use liminalis.Live.Checks.{assert_joinable, both_confirmed, assert_transport_mutable}
use liminalis.Live.Lifecycle.{
  confirmation_patch, confirmation_checks, transport_checks, state_of_transport,
}

abbrev pub implies : Bool → Bool → Bool
implies a b = not a || b

abbrev pub uses : (LiveTransport → Bool) → Option LiveTransport → Bool
uses p none = false
uses p (some t) = p t

abbrev pub is_active_state : LiveState → Bool
is_active_state LiveState.active = true
is_active_state _ = false

pub record IsSound (s : LiveSession) : Type 0 where
  -- a joiner is a user with a device, and a session that waits for one has none
  pub paired : is_some s.joiner_device_id ≡ is_some s.joiner_user_id
  pub unjoined : implies (is_awaiting_join s.state) (not (is_some s.joiner_user_id)) ≡ true
  -- nobody confirms before the second side has joined
  pub initiator_after_join :
      implies (is_some s.initiator_confirmed_at) (is_some s.joiner_user_id) ≡ true
  pub joiner_after_join : implies (is_some s.joiner_confirmed_at) (is_some s.joiner_user_id) ≡ true
  -- a session leaves its confirmation exactly when both sides have confirmed
  pub pending : implies (is_awaiting_confirmation s.state) (not (both_confirmed s)) ≡ true
  pub established : implies (is_connecting_or_active s.state) (both_confirmed s) ≡ true
  -- a transport is in use only after both confirmations, and only if the policy allows it
  pub transport_confirmed : implies (is_some s.transport_state) (both_confirmed s) ≡ true
  pub p2p_permitted : implies (uses is_p2p s.transport_state) s.peer_to_peer_allowed ≡ true
  pub relay_permitted : implies (uses is_relay s.transport_state) s.relay_allowed ≡ true
  -- an active session has an active transport
  pub active_transport :
      implies
        (is_active_state s.state)
        (is_p2p_active s.transport_state || is_relay_active s.transport_state)
      ≡ true

module _ (s : LiveSession) (v : IsSound s) where
  open v use {
    paired, unjoined, initiator_after_join, joiner_after_join, pending, established,
    transport_confirmed, p2p_permitted, relay_permitted, active_transport,
  }

  pub join-IsSound :
      (now user_id device_id : ℕ) {u : Unit {0}}
      → assert_joinable now s ≡ ok u
      → IsSound (record s {
        joiner_user_id = some user_id;
        joiner_device_id = some device_id;
        state = awaiting_confirmation;
      })
  unfolding assert_joinable
  join-IsSound now user_id device_id h = record {
    paired = refl;
    unjoined = refl;
    initiator_after_join = ground arith;
    joiner_after_join = ground arith;
    pending = ground arith;
    established = refl;
    transport_confirmed = ground arith;
    p2p_permitted = ground arith;
    relay_permitted = ground arith;
    active_transport = refl;
  }

  -- A session that ends, whatever else is written beside its state.
  pub cancel-IsSound : IsSound (record s { state = cancelled })
  cancel-IsSound = record {
    paired = paired;
    unjoined = refl;
    initiator_after_join = initiator_after_join;
    joiner_after_join = joiner_after_join;
    pending = refl;
    established = refl;
    transport_confirmed = transport_confirmed;
    p2p_permitted = p2p_permitted;
    relay_permitted = relay_permitted;
    active_transport = refl;
  }

  pub complete-IsSound :
      (now : ℕ) → IsSound (record s { state = LiveState.completed; completed_at = some now })
  complete-IsSound now = record {
    paired = paired;
    unjoined = refl;
    initiator_after_join = initiator_after_join;
    joiner_after_join = joiner_after_join;
    pending = refl;
    established = refl;
    transport_confirmed = transport_confirmed;
    p2p_permitted = p2p_permitted;
    relay_permitted = relay_permitted;
    active_transport = refl;
  }

  pub fail-IsSound :
      (reason : String)
      → IsSound (record s { state = LiveState.failed; failure_reason = some reason })
  fail-IsSound reason = record {
    paired = paired;
    unjoined = refl;
    initiator_after_join = initiator_after_join;
    joiner_after_join = joiner_after_join;
    pending = refl;
    established = refl;
    transport_confirmed = transport_confirmed;
    p2p_permitted = p2p_permitted;
    relay_permitted = relay_permitted;
    active_transport = refl;
  }

  pub fallback-IsSound :
      (upload_id : ℕ) → IsSound (record s { stored_fallback_upload_session_id = some upload_id })
  fallback-IsSound upload_id = record {
    paired = paired;
    unjoined = unjoined;
    initiator_after_join = initiator_after_join;
    joiner_after_join = joiner_after_join;
    pending = pending;
    established = established;
    transport_confirmed = transport_confirmed;
    p2p_permitted = p2p_permitted;
    relay_permitted = relay_permitted;
    active_transport = active_transport;
  }

  pub confirm-IsSound :
      (now : ℕ) (by_initiator : Bool) {u : Unit {0}}
      → confirmation_checks s ≡ ok u
      → IsSound (confirmation_patch now by_initiator s s)
  unfolding confirmation_patch confirmation_checks
  confirm-IsSound now by_initiator h = record {
    paired = paired;
    unjoined = ground arith;
    initiator_after_join = ground arith;
    joiner_after_join = ground arith;
    pending = ground arith;
    established = ground arith;
    transport_confirmed = ground arith;
    p2p_permitted = ground arith;
    relay_permitted = ground arith;
    active_transport = ground arith;
  }

  pub transport-IsSound :
      (wanted : LiveTransport) {u u' : Unit {0}}
      → assert_transport_mutable s ≡ ok u
      → transport_checks s wanted ≡ ok u'
      → IsSound (record s { state = state_of_transport wanted; transport_state = some wanted })
  unfolding assert_transport_mutable transport_checks state_of_transport
  transport-IsSound wanted h k = record {
    paired = paired;
    unjoined = ground arith;
    initiator_after_join = initiator_after_join;
    joiner_after_join = joiner_after_join;
    pending = ground arith;
    established = ground arith;
    transport_confirmed = ground arith;
    p2p_permitted = ground arith;
    relay_permitted = ground arith;
    active_transport = ground arith;
  }

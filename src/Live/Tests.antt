-- ===== src/Live/Tests.antt =====
-- A concrete history of a live session, and the theorems on live transfer at concrete sessions.
use liminalis.Common.{
  subst, sym, ◌∙◌, ℕ, ◌≡◌, refl, true, false, none, some, List, [], ◌∷◌, ◌++◌, ◌↔◌, ◌⊎◌,
}
use liminalis.Common.Exec.{gets, or_throw, lift, modify, pure, ◌>>=◌, ok}
use liminalis.Common.Table.{find_where, update, create, Distinct, find, find_many}
use liminalis.Schema.{
  LiveState, int, is_grouped_content, LiveSession, Database, secret, single_file, connecting,
  p2p_attempt, p2p_active, relay_attempt,
}
use liminalis.Policy.Tests.{seeded}
use liminalis.Live.Checks.{
  as_participant, require_device, require_session, assert_participant,
  assert_can_exchange_transport_data, resolve_counterpart, counterpart,
}
use liminalis.Live.Lifecycle.{update_transport}
use liminalis.Live.Creation.{CreateLiveTransfer}
use liminalis.Live.Signals.{send_signal, list_signals, is_unread_for}
use liminalis.Live.Requests.{
  Caller, LiveRequest, creates, joins, confirms, updates_transport, completes, serve, serve_all,
}
use liminalis.Live.History.{serve-Steps, AllSound, serve_all-AllSound}
use liminalis.Live.Access.{IsOutsider, serve-outsider}
use liminalis.Live.Transport.{Moves, moved, update_transport_iff}
use liminalis.Live.Mailbox.{
  AreSides, resolve_counterpart_iff, list_signals-drains, send_signal-delivers, message_to,
}
use liminalis.Live.Rules.{is_participant}
use liminalis.Live.Soundness.{IsSound}
use liminalis.Live.Steps.{Steps}
use liminalis.Live.Evolution.{Evolves, serve_all-Evolves}
use liminalis.Live.Shape.{begin_stored_fallback-agrees}
use liminalis.Live.Fallback.{
  StoredFallback, begin_stored_fallback, fallback_checks, continue_fallback, fallback_upload,
  fallback_answer,
}
use liminalis.Live.Records.{safe_content_label}
use liminalis.Uploads.{prepare_upload, require_eligible_trusted_uploader, validate_content_shape}
use liminalis.Policy.{source_decision, evaluate_source_creation, to_number, to_nullable_number}
use liminalis.Policy.Current.{get_current_bundle, latest}
use liminalis.Common.Int.{pos}

abbrev alice : Caller
alice = record { now = 1000; user_id = 1; trusted_device_id = some 11 }

abbrev bob : Caller
bob = record { now = 2000; user_id = 2; trusted_device_id = some 22 }

abbrev carol : Caller
carol = record { now = 3000; user_id = 3; trusted_device_id = some 33 }

abbrev file_transfer : CreateLiveTransfer
file_transfer = record {
  content_kind = single_file;
  confidentiality_level = some secret;
  grouped_transfer = none;
}

-- The code points of "abcd1234".
abbrev code : List ℕ
code = 97 ∷ 98 ∷ 99 ∷ 100 ∷ 49 ∷ 50 ∷ 51 ∷ 52 ∷ []

-- A session from its creation to its completion, with an outsider who tries to end it.
abbrev transfer_history : List (Caller × LiveRequest)
transfer_history =
    (alice, creates 7 code file_transfer)
    ∷ (bob, joins code)
    ∷ (alice, confirms 7 true)
    ∷ (carol, completes 7)
    ∷ (bob, confirms 7 true)
    ∷ (alice, updates_transport 7 p2p_active)
    ∷ (alice, completes 7)
    ∷ []

serve_all-AllSound_example : AllSound (serve_all transfer_history seeded)
serve_all-AllSound_example = serve_all-AllSound transfer_history seeded (tt, tt)

-- A session that both sides have confirmed.
abbrev connected : LiveSession
connected = record {
  initiator_user_id = 1;
  initiator_device_id = 11;
  joiner_user_id = some 2;
  joiner_device_id = some 22;
  confidentiality_level = secret;
  policy_bundle_id = 1;
  state = connecting;
  transport_state = some p2p_attempt;
  session_code = code;
  initiator_confirmed_at = some 2500;
  joiner_confirmed_at = some 2600;
  content_label = "Encrypted live transfer";
  content_kind = single_file;
  grouped_transfer = false;
  relay_allowed = true;
  peer_to_peer_allowed = true;
  peer_to_peer_to_relay_fallback = true;
  live_to_stored_fallback_allowed = true;
  retain_record = true;
  stored_fallback_upload_session_id = none;
  failure_reason = none;
  completed_at = none;
  expires_at = 301000;
  created_at = 1000;
}

abbrev connected_db : Database
connected_db = record seeded { live_sessions = (7, connected) ∷ [] }

connected-found : find 7 connected_db.live_sessions ≡ some connected
unfolding find
connected-found = refl

update_transport_iff_example :
    ((update_transport 1 (some 11) 7 relay_attempt connected_db).0
      ≡ ok (moved relay_attempt connected))
    ↔ ((true ≡ true)
        × (true ≡ true)
        × Moves connected (some p2p_attempt) relay_attempt
        × (moved relay_attempt connected ≡ moved relay_attempt connected))
update_transport_iff_example =
    update_transport_iff 1 11 7 relay_attempt connected_db connected (moved relay_attempt connected)
      connected-found refl

carol-IsOutsider : IsOutsider carol 7 connected_db
carol-IsOutsider device_id session known found =
    subst (λ s. is_participant s 3 device_id ≡ false) (same (sym connected-found ∙ found)) refl
  where
    same : some connected ≡ some session → connected ≡ session
    same p = cc

serve-outsider_example : serve carol (completes 7) connected_db ≡ connected_db
serve-outsider_example = serve-outsider carol (completes 7) 7 connected_db refl carol-IsOutsider

list_signals-drains_example :
    ((list_signals 4000 2 (some 22) 7 connected_db).0
      ≡ ok (find_many (is_unread_for 7 2 22) connected_db.live_signals))
    × ((list_signals 5000 2 (some 22) 7 (list_signals 4000 2 (some 22) 7 connected_db).1).0 ≡ ok [])
list_signals-drains_example =
    list_signals-drains 4000 5000 2 22 7 connected_db connected connected-found refl

connected-ready : assert_can_exchange_transport_data connected false ≡ ok tt
unfolding assert_can_exchange_transport_data
connected-ready = refl

connected-counterpart : resolve_counterpart connected 1 11 ≡ ok (2, 22)
unfolding resolve_counterpart counterpart
connected-counterpart = refl

send_signal-delivers_example :
    (list_signals 4000 2 (some 22) 7 (send_signal 1 1 (some 11) 7 "offer" "{}" connected_db).1).0
    ≡ ok (
        find_many (is_unread_for 7 2 22) connected_db.live_signals
        ++ (1, message_to 7 1 11 (2, 22) "offer" "{}") ∷ [])
send_signal-delivers_example =
    send_signal-delivers 1 4000 1 11 7 "offer" "{}" connected_db connected (2, 22) connected-found
      refl connected-ready connected-counterpart

connected-Distinct : Distinct connected_db.live_sessions
unfolding find
connected-Distinct = (refl, tt)

connected-IsSound : IsSound connected
connected-IsSound = record {
  paired = refl;
  unjoined = refl;
  initiator_after_join = refl;
  joiner_after_join = refl;
  pending = refl;
  established = refl;
  transport_confirmed = refl;
  p2p_permitted = refl;
  relay_permitted = refl;
  active_transport = refl;
}

serve-Steps_example :
    Steps connected_db.live_sessions (serve bob (completes 7) connected_db).live_sessions
serve-Steps_example = serve-Steps bob (completes 7) connected_db connected-Distinct

serve_all-Evolves_example :
    (s' : LiveSession) × (find 7 (serve_all transfer_history connected_db).live_sessions ≡ some s')
    × Evolves connected s'
serve_all-Evolves_example =
    serve_all-Evolves transfer_history connected_db 7 connected
      (connected-Distinct, (connected-IsSound, tt)) connected-found

abbrev failed_session : LiveSession
failed_session = record connected { state = LiveState.failed }

abbrev failed_db : Database
failed_db = record seeded {
  users =
      (
        1,
        record { username = "alice"; enabled = true; approved = true; storage_quota_bytes = none },
      )
      ∷ [];
  trusted_devices =
      (11, record { user_id = 1; trusted = true; recovery_established_at = none }) ∷ [];
  live_sessions = (7, failed_session) ∷ [];
}

abbrev stored_fallback : StoredFallback
stored_fallback = record {
  live_transfer_session_id = 7;
  upload_session_id = 70;
  content_label = "Encrypted live transfer";
  content_kind = single_file;
  confidentiality_level = secret;
  grouped_transfer = false;
  expires_at = some 3605000;
  policy_snapshot = some (record {
    confidentiality_level = secret;
    burn_after_read_enabled = false;
    default_validity_minutes = int (pos 720);
    requested_validity_minutes = none;
    resolved_validity_minutes = int (pos 720);
    allow_future_trusted_devices = true;
    allow_outward_resharing = true;
    policy_bundle_version = 1;
  });
}

failed_session-found : find 7 failed_db.live_sessions ≡ some failed_session
unfolding find
failed_session-found = refl

failed_db-falls_back :
    (begin_stored_fallback 5000 70 1 (some 11) 7 failed_db).0 ≡ ok stored_fallback
unfolding begin_stored_fallback as_participant require_device require_session assert_participant
    fallback_checks continue_fallback fallback_upload fallback_answer safe_content_label
    prepare_upload require_eligible_trusted_uploader validate_content_shape source_decision
    evaluate_source_creation get_current_bundle latest to_number to_nullable_number gets or_throw
    lift modify pure ◌>>=◌ find find_where update create
failed_db-falls_back = refl

begin_stored_fallback-agrees_example :
    failed_session.grouped_transfer ≡ is_grouped_content failed_session.content_kind
begin_stored_fallback-agrees_example =
    begin_stored_fallback-agrees 5000 70 1 7 (some 11) failed_db failed_session stored_fallback
      failed_session-found refl failed_db-falls_back

resolve_counterpart_iff_example :
    (resolve_counterpart connected 1 11 ≡ ok (2, 22))
    ↔ (AreSides connected (1, 11) (2, 22) ⊎ AreSides connected (2, 22) (1, 11))
resolve_counterpart_iff_example = resolve_counterpart_iff connected 1 11 (2, 22)

-- ===== src/Schema/Live.antt =====
-- Live-transfer sessions, their signals, relay chunks and retained records.
use Prim.Native.Nat.{ℕ}
use Prim.Native.String.{String}
use mathlib.Core.Bool.{Bool}
use mathlib.Core.Option.{Option}
use mathlib.Core.List.{List}
use liminalis.Schema.Enums.{ConfidentialityLevel, UploadContentKind, LiveState, LiveTransport}

pub record LiveSession : Type 0 where
  pub initiator_user_id : ℕ
  pub initiator_device_id : ℕ
  pub joiner_user_id : Option ℕ
  pub joiner_device_id : Option ℕ
  pub confidentiality_level : ConfidentialityLevel
  pub policy_bundle_id : ℕ
  pub state : LiveState
  pub transport_state : Option LiveTransport
  -- the code points of the session code
  pub session_code : List ℕ
  pub initiator_confirmed_at : Option ℕ
  pub joiner_confirmed_at : Option ℕ
  pub content_label : String
  pub content_kind : UploadContentKind
  pub grouped_transfer : Bool
  pub relay_allowed : Bool
  pub peer_to_peer_allowed : Bool
  pub peer_to_peer_to_relay_fallback : Bool
  pub live_to_stored_fallback_allowed : Bool
  pub retain_record : Bool
  pub stored_fallback_upload_session_id : Option ℕ
  pub failure_reason : Option String
  pub completed_at : Option ℕ
  pub expires_at : ℕ
  pub created_at : ℕ

pub record SignalMessage : Type 0 where
  pub session_id : ℕ
  pub sender_user_id : ℕ
  pub sender_device_id : ℕ
  pub recipient_user_id : ℕ
  pub recipient_device_id : ℕ
  pub kind : String
  pub payload : String
  pub read_at : Option ℕ

pub record RelayChunk : Type 0 where
  pub session_id : ℕ
  pub sender_device_id : ℕ
  pub recipient_device_id : ℕ
  pub sequence : ℕ
  pub storage_key : ℕ
  pub byte_size : ℕ
  pub checksum : ℕ
  pub received_at : Option ℕ

-- A row of `LiveTransferRecordProjection`; its unique key is the owner with the session.
pub record LiveRecord : Type 0 where
  pub owner_user_id : ℕ
  pub live_transfer_session_id : ℕ
  pub participant_label : String
  pub session_outcome : LiveState
  pub transport_summary : Option LiveTransport
  pub content_label : String
  pub content_kind : UploadContentKind
  pub grouped_transfer : Bool
  pub started_at : ℕ
  pub ended_at : Option ℕ

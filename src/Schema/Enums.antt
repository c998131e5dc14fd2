-- ===== src/Schema/Enums.antt =====
-- The enumerations of schema.prisma, with the comparisons that the services make.
use mathlib.Core.Bool.{Bool, true, false}
use mathlib.Core.Option.{Option, some}

pub data ConfidentialityLevel : Type 0 where
  secret confidential top_secret : ConfidentialityLevel

abbrev pub same_level : ConfidentialityLevel → ConfidentialityLevel → Bool
same_level secret secret = true
same_level confidential confidential = true
same_level top_secret top_secret = true
same_level _ _ = false

pub data UploadContentKind : Type 0 where
  single_file grouped_content self_space_text : UploadContentKind

abbrev pub is_text : UploadContentKind → Bool
is_text self_space_text = true
is_text _ = false

abbrev pub is_grouped_content : UploadContentKind → Bool
is_grouped_content grouped_content = true
is_grouped_content _ = false

pub data GroupStructureKind : Type 0 where
  multi_file folder : GroupStructureKind

pub data UploadSessionPhase : Type 0 where
  created preparing uploading finalizing completed abandoned expired failed : UploadSessionPhase

pub data SourceItemState : Type 0 where
  active invalidated expired purged : SourceItemState

abbrev pub is_active_item : SourceItemState → Bool
is_active_item SourceItemState.active = true
is_active_item _ = false

pub data LiveState : Type 0 where
  created awaiting_join awaiting_confirmation connecting active : LiveState
  completed expired failed cancelled : LiveState

abbrev pub is_awaiting_join : LiveState → Bool
is_awaiting_join awaiting_join = true
is_awaiting_join _ = false

abbrev pub is_awaiting_confirmation : LiveState → Bool
is_awaiting_confirmation awaiting_confirmation = true
is_awaiting_confirmation _ = false

abbrev pub is_connecting_or_active : LiveState → Bool
is_connecting_or_active connecting = true
is_connecting_or_active LiveState.active = true
is_connecting_or_active _ = false

abbrev pub is_completed : LiveState → Bool
is_completed LiveState.completed = true
is_completed _ = false

abbrev pub is_failed_or_cancelled : LiveState → Bool
is_failed_or_cancelled LiveState.failed = true
is_failed_or_cancelled cancelled = true
is_failed_or_cancelled _ = false

pub data LiveTransport : Type 0 where
  p2p_attempt relay_attempt p2p_active relay_active : LiveTransport

abbrev pub is_p2p : LiveTransport → Bool
is_p2p p2p_attempt = true
is_p2p p2p_active = true
is_p2p _ = false

abbrev pub is_relay : LiveTransport → Bool
is_relay relay_attempt = true
is_relay relay_active = true
is_relay _ = false

abbrev pub is_p2p_attempt : Option LiveTransport → Bool
is_p2p_attempt (some p2p_attempt) = true
is_p2p_attempt _ = false

abbrev pub is_relay_attempt : Option LiveTransport → Bool
is_relay_attempt (some relay_attempt) = true
is_relay_attempt _ = false

abbrev pub is_p2p_active : Option LiveTransport → Bool
is_p2p_active (some p2p_active) = true
is_p2p_active _ = false

abbrev pub is_relay_active : Option LiveTransport → Bool
is_relay_active (some relay_active) = true
is_relay_active _ = false

pub data PublicLinkState : Type 0 where
  active exhausted expired revoked invalidated : PublicLinkState

abbrev pub is_active_link : PublicLinkState → Bool
is_active_link PublicLinkState.active = true
is_active_link _ = false

abbrev pub is_exhausted_link : PublicLinkState → Bool
is_exhausted_link PublicLinkState.exhausted = true
is_exhausted_link _ = false

abbrev pub same_link_state : PublicLinkState → PublicLinkState → Bool
same_link_state PublicLinkState.active PublicLinkState.active = true
same_link_state PublicLinkState.exhausted PublicLinkState.exhausted = true
same_link_state PublicLinkState.expired PublicLinkState.expired = true
same_link_state PublicLinkState.revoked PublicLinkState.revoked = true
same_link_state PublicLinkState.invalidated PublicLinkState.invalidated = true
same_link_state _ _ = false

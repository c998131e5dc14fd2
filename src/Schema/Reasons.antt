-- ===== src/Schema/Reasons.antt =====
-- The messages of the exceptions, one reason for each.
pub data Reason : Type 0 where
  -- live transfer
  trusted_device_required session_not_found session_expired session_not_joinable : Reason
  participant_required not_awaiting_confirmation no_joined_participant : Reason
  transport_not_active_yet both_confirmations_required p2p_not_allowed relay_not_allowed : Reason
  relay_fallback_not_allowed relay_not_attempted p2p_not_attempted not_ready_for_signaling : Reason
  relay_not_active stored_fallback_not_allowed fallback_needs_failed_session : Reason
  sequence_not_positive chunk_body_empty chunk_too_large chunk_not_found : Reason
  unique_violation record_not_found value_not_storable too_many_attempts : Reason
  -- policies
  no_current_bundle never_expire_not_allowed validity_not_positive validity_above_maximum : Reason
  outward_sharing_not_allowed user_targeted_sharing_not_allowed : Reason
  password_extraction_not_allowed public_links_not_allowed count_not_positive : Reason
  count_above_maximum live_transfer_not_allowed live_text_not_supported : Reason
  grouped_live_not_allowed default_exceeds_maximum section_disabled fallback_needs_relay : Reason
  -- items, uploads and links
  source_item_not_found source_item_not_eligible source_item_expired text_not_outward : Reason
  user_cannot_create pending_user_cannot_create device_required_for_creation : Reason
  group_structure_required group_structure_not_valid invalid_public_link : Reason
  upload_session_not_found upload_session_expired upload_already_completed : Reason
  text_without_parts key_of_other_session part_number_not_positive upload_part_too_large : Reason
  upload_part_empty stored_object_not_found stored_size_mismatch storage_quota_exceeded : Reason
  text_body_required part_required metadata_required : Reason
  -- extractions, shares and retrieval
  extraction_not_found captcha_required extraction_not_retrievable invalid_password : Reason
  package_family_not_found attempt_not_found attempt_not_downloadable : Reason
  source_item_not_retrievable no_stored_bytes : Reason
  recipient_not_eligible recipient_without_key share_not_found share_not_retrievable : Reason
  share_expired grant_not_found device_not_eligible inactive_item_fixed : Reason
  -- byte values
  byte_value_not_safe byte_value_too_large : Reason

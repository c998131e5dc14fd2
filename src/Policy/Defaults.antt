-- ===== src/Policy/Defaults.antt =====
-- policy-defaults.ts: the seeds of the three levels. A key that a section does not name is undefined.
use liminalis.Common.{true, false, List, [], ◌∷◌}
use liminalis.Common.Int.{pos}
use liminalis.Schema.{
  ConfidentialityLevel, secret, confidential, top_secret, Section, Sections, undefined, null, bool,
  num, allow_future_trusted_devices, allow_grouped_or_large_live_transfer,
  allow_live_to_stored_fallback, allow_live_transfer, allow_multiple_outward_shares,
  allow_never_expire, allow_outward_resharing, allow_outward_sharing, allow_password_extraction,
  allow_peer_to_peer, allow_peer_to_peer_to_relay_fallback, allow_public_links,
  allow_recipient_multi_device_access, allow_recipient_resharing, allow_relay,
  allow_repeat_download, allow_user_targeted_sharing, allow_validity_extension_later,
  default_share_validity_minutes, default_validity_minutes, maximum_public_link_download_count,
  maximum_public_link_validity_minutes, maximum_retrieval_count, maximum_share_validity_minutes,
  maximum_validity_minutes, require_system_generated_password, restrict_to_self_only,
  retain_live_transfer_records,
}

abbrev secret_lifecycle : Section
secret_lifecycle default_validity_minutes = num (pos 720)
secret_lifecycle maximum_validity_minutes = null
secret_lifecycle allow_never_expire = bool true
secret_lifecycle allow_validity_extension_later = bool true
secret_lifecycle allow_future_trusted_devices = bool true
secret_lifecycle allow_outward_resharing = bool true
secret_lifecycle _ = undefined

abbrev secret_share_availability : Section
secret_share_availability allow_outward_sharing = bool true
secret_share_availability restrict_to_self_only = bool false
secret_share_availability allow_recipient_resharing = bool false
secret_share_availability allow_multiple_outward_shares = bool true
secret_share_availability allow_user_targeted_sharing = bool true
secret_share_availability allow_password_extraction = bool true
secret_share_availability allow_public_links = bool true
secret_share_availability _ = undefined

abbrev secret_user_targeted_sharing : Section
secret_user_targeted_sharing default_share_validity_minutes = num (pos 480)
secret_user_targeted_sharing maximum_share_validity_minutes = null
secret_user_targeted_sharing allow_repeat_download = bool true
secret_user_targeted_sharing allow_recipient_multi_device_access = bool true
secret_user_targeted_sharing _ = undefined

abbrev secret_password_extraction : Section
secret_password_extraction allow_password_extraction = bool true
secret_password_extraction require_system_generated_password = bool false
secret_password_extraction maximum_retrieval_count = num (pos 5)
secret_password_extraction _ = undefined

abbrev secret_public_links : Section
secret_public_links allow_public_links = bool true
secret_public_links maximum_public_link_validity_minutes = num (pos 1440)
secret_public_links maximum_public_link_download_count = num (pos 5)
secret_public_links _ = undefined

abbrev secret_live_transfer : Section
secret_live_transfer allow_live_transfer = bool true
secret_live_transfer allow_peer_to_peer = bool true
secret_live_transfer allow_relay = bool true
secret_live_transfer allow_peer_to_peer_to_relay_fallback = bool true
secret_live_transfer allow_live_to_stored_fallback = bool true
secret_live_transfer retain_live_transfer_records = bool true
secret_live_transfer allow_grouped_or_large_live_transfer = bool true
secret_live_transfer _ = undefined

abbrev pub secret_sections : Sections
secret_sections = record {
  lifecycle = secret_lifecycle;
  share_availability = secret_share_availability;
  user_targeted_sharing = secret_user_targeted_sharing;
  password_extraction = secret_password_extraction;
  public_links = secret_public_links;
  live_transfer = secret_live_transfer;
}

abbrev confidential_lifecycle : Section
confidential_lifecycle default_validity_minutes = num (pos 120)
confidential_lifecycle maximum_validity_minutes = num (pos 1440)
confidential_lifecycle allow_never_expire = bool false
confidential_lifecycle allow_validity_extension_later = bool true
confidential_lifecycle allow_future_trusted_devices = bool true
confidential_lifecycle allow_outward_resharing = bool true
confidential_lifecycle _ = undefined

abbrev confidential_share_availability : Section
confidential_share_availability allow_outward_sharing = bool true
confidential_share_availability restrict_to_self_only = bool false
confidential_share_availability allow_recipient_resharing = bool false
confidential_share_availability allow_multiple_outward_shares = bool true
confidential_share_availability allow_user_targeted_sharing = bool true
confidential_share_availability allow_password_extraction = bool true
confidential_share_availability allow_public_links = bool false
confidential_share_availability _ = undefined

abbrev confidential_user_targeted_sharing : Section
confidential_user_targeted_sharing default_share_validity_minutes = num (pos 120)
confidential_user_targeted_sharing maximum_share_validity_minutes = num (pos 1440)
confidential_user_targeted_sharing allow_repeat_download = bool true
confidential_user_targeted_sharing allow_recipient_multi_device_access = bool true
confidential_user_targeted_sharing _ = undefined

abbrev confidential_password_extraction : Section
confidential_password_extraction allow_password_extraction = bool true
confidential_password_extraction require_system_generated_password = bool true
confidential_password_extraction maximum_retrieval_count = num (pos 3)
confidential_password_extraction _ = undefined

abbrev confidential_public_links : Section
confidential_public_links allow_public_links = bool false
confidential_public_links maximum_public_link_validity_minutes = null
confidential_public_links maximum_public_link_download_count = null
confidential_public_links _ = undefined

abbrev confidential_live_transfer : Section
confidential_live_transfer allow_live_transfer = bool true
confidential_live_transfer allow_peer_to_peer = bool true
confidential_live_transfer allow_relay = bool true
confidential_live_transfer allow_peer_to_peer_to_relay_fallback = bool true
confidential_live_transfer allow_live_to_stored_fallback = bool false
confidential_live_transfer retain_live_transfer_records = bool true
confidential_live_transfer allow_grouped_or_large_live_transfer = bool true
confidential_live_transfer _ = undefined

abbrev pub confidential_sections : Sections
confidential_sections = record {
  lifecycle = confidential_lifecycle;
  share_availability = confidential_share_availability;
  user_targeted_sharing = confidential_user_targeted_sharing;
  password_extraction = confidential_password_extraction;
  public_links = confidential_public_links;
  live_transfer = confidential_live_transfer;
}

abbrev top_secret_lifecycle : Section
top_secret_lifecycle default_validity_minutes = num (pos 10)
top_secret_lifecycle maximum_validity_minutes = num (pos 60)
top_secret_lifecycle allow_never_expire = bool false
top_secret_lifecycle allow_validity_extension_later = bool false
top_secret_lifecycle allow_future_trusted_devices = bool false
top_secret_lifecycle allow_outward_resharing = bool false
top_secret_lifecycle _ = undefined

abbrev top_secret_share_availability : Section
top_secret_share_availability allow_outward_sharing = bool false
top_secret_share_availability restrict_to_self_only = bool true
top_secret_share_availability allow_recipient_resharing = bool false
top_secret_share_availability allow_multiple_outward_shares = bool false
top_secret_share_availability allow_user_targeted_sharing = bool false
top_secret_share_availability allow_password_extraction = bool false
top_secret_share_availability allow_public_links = bool false
top_secret_share_availability _ = undefined

abbrev top_secret_user_targeted_sharing : Section
top_secret_user_targeted_sharing default_share_validity_minutes = null
top_secret_user_targeted_sharing maximum_share_validity_minutes = null
top_secret_user_targeted_sharing allow_repeat_download = bool false
top_secret_user_targeted_sharing allow_recipient_multi_device_access = bool false
top_secret_user_targeted_sharing _ = undefined

abbrev top_secret_password_extraction : Section
top_secret_password_extraction allow_password_extraction = bool false
top_secret_password_extraction require_system_generated_password = bool true
top_secret_password_extraction maximum_retrieval_count = null
top_secret_password_extraction _ = undefined

abbrev top_secret_public_links : Section
top_secret_public_links allow_public_links = bool false
top_secret_public_links maximum_public_link_validity_minutes = null
top_secret_public_links maximum_public_link_download_count = null
top_secret_public_links _ = undefined

abbrev top_secret_live_transfer : Section
top_secret_live_transfer allow_live_transfer = bool true
top_secret_live_transfer allow_peer_to_peer = bool true
top_secret_live_transfer allow_relay = bool false
top_secret_live_transfer allow_peer_to_peer_to_relay_fallback = bool false
top_secret_live_transfer allow_live_to_stored_fallback = bool false
top_secret_live_transfer retain_live_transfer_records = bool false
top_secret_live_transfer allow_grouped_or_large_live_transfer = bool true
top_secret_live_transfer _ = undefined

abbrev pub top_secret_sections : Sections
top_secret_sections = record {
  lifecycle = top_secret_lifecycle;
  share_availability = top_secret_share_availability;
  user_targeted_sharing = top_secret_user_targeted_sharing;
  password_extraction = top_secret_password_extraction;
  public_links = top_secret_public_links;
  live_transfer = top_secret_live_transfer;
}

-- POLICY_BUNDLE_DEFAULTS
abbrev pub policy_bundle_defaults : List (ConfidentialityLevel × Sections)
policy_bundle_defaults =
    (secret, secret_sections)
    ∷ (confidential, confidential_sections)
    ∷ (top_secret, top_secret_sections)
    ∷ []

-- ===== src/Policy/Evaluate.antt =====
-- policy.service.ts: the five decisions on a policy bundle, and the handlers that take them on the
-- bundle in force. The fields `allowed` and `decisionReason` are the same on every decision, and
-- are left out.
use liminalis.Common.{ℕ, Bool, not, ◌&&◌, Option, none, some, coalesce}
use liminalis.Common.Int.{pos}
use liminalis.Common.Exec.{Result, ok, bad_request, guard, and_then, lift, ◌>>=◌}
use liminalis.Schema.{
  ConfidentialityLevel, UploadContentKind, is_text, PolicyBundle, SourceSnapshot, Num, int, Key,
  default_validity_minutes, maximum_validity_minutes, allow_never_expire, allow_outward_sharing,
  allow_user_targeted_sharing, allow_password_extraction, allow_public_links,
  default_share_validity_minutes, maximum_share_validity_minutes, maximum_retrieval_count,
  maximum_public_link_validity_minutes, maximum_public_link_download_count, allow_live_transfer,
  Handler, Reason, never_expire_not_allowed, validity_not_positive, validity_above_maximum,
  outward_sharing_not_allowed, user_targeted_sharing_not_allowed, password_extraction_not_allowed,
  public_links_not_allowed, count_not_positive, count_above_maximum, live_transfer_not_allowed,
  live_text_not_supported, grouped_live_not_allowed,
}
use liminalis.Policy.Numbers.{to_number, to_nullable_number, truthy, is_zero, le_zero, exceeds}
use liminalis.Policy.Current.{get_current_bundle}

-- `resolved !== null && resolved <= 0`, and an optional value against an optional maximum.
abbrev pub some_le_zero : Option Num → Bool
some_le_zero none = Bool.false
some_le_zero (some n) = le_zero n

abbrev pub some_exceeds : Option Num → Option Num → Bool
some_exceeds none maximum = Bool.false
some_exceeds (some n) maximum = exceeds n maximum

pub record SourceInput : Type 0 where
  pub confidentiality_level : ConfidentialityLevel
  pub requested_validity_minutes : Option Num
  pub burn_after_read_enabled : Bool
  pub content_kind : UploadContentKind

pub record SourceDecision : Type 0 where
  pub policy_bundle_id : ℕ
  pub resolved_validity_minutes : Num
  pub snapshot : SourceSnapshot

unfoldable pub source_decision : SourceInput → ℕ × PolicyBundle → Result Reason SourceDecision
source_decision input (id, bundle) =
    let default_validity = to_number (bundle.lifecycle default_validity_minutes) in
    let maximum = to_nullable_number (bundle.lifecycle maximum_validity_minutes) in
    let resolved = coalesce input.requested_validity_minutes default_validity in
    and_then
      (guard (not (is_zero resolved && not (truthy (bundle.lifecycle allow_never_expire))))
        (bad_request never_expire_not_allowed))
      λ _.
        and_then
          (guard (not (not (is_zero resolved) && le_zero resolved))
            (bad_request validity_not_positive))
          λ _.
            and_then
              (guard (not (not (is_zero resolved) && exceeds resolved maximum))
                (bad_request validity_above_maximum))
              λ _. ok (record {
                policy_bundle_id = id;
                resolved_validity_minutes = resolved;
                snapshot = record {
                  confidentiality_level = input.confidentiality_level;
                  burn_after_read_enabled = input.burn_after_read_enabled;
                  default_validity_minutes = default_validity;
                  requested_validity_minutes = input.requested_validity_minutes;
                  resolved_validity_minutes = resolved;
                  allow_future_trusted_devices =
                      truthy (bundle.lifecycle Key.allow_future_trusted_devices);
                  allow_outward_resharing = truthy (bundle.lifecycle Key.allow_outward_resharing);
                  policy_bundle_version = bundle.bundle_version;
                };
              })

unfoldable pub evaluate_source_creation : SourceInput → Handler SourceDecision
evaluate_source_creation input = do
  bundle ← get_current_bundle input.confidentiality_level
  lift (source_decision input bundle)

pub record ShareInput : Type 0 where
  pub confidentiality_level : ConfidentialityLevel
  pub requested_validity_minutes : Option Num

pub record ShareDecision : Type 0 where
  pub policy_bundle_id : ℕ
  pub policy_bundle_version : ℕ
  pub resolved_validity_minutes : Num
  pub allow_repeat_download : Bool
  pub allow_recipient_multi_device_access : Bool

unfoldable pub share_decision : ShareInput → ℕ × PolicyBundle → Result Reason ShareDecision
share_decision input (id, bundle) =
    let default_validity =
      to_number (bundle.user_targeted_sharing default_share_validity_minutes) in
    let maximum =
      to_nullable_number (bundle.user_targeted_sharing maximum_share_validity_minutes) in
    let resolved = coalesce input.requested_validity_minutes default_validity in
    and_then
      (guard (truthy (bundle.share_availability allow_outward_sharing))
        (bad_request outward_sharing_not_allowed))
      λ _.
        and_then
          (guard (truthy (bundle.share_availability allow_user_targeted_sharing))
            (bad_request user_targeted_sharing_not_allowed))
          λ _. and_then (guard (not (le_zero resolved)) (bad_request validity_not_positive)) λ _.
            and_then (guard (not (exceeds resolved maximum)) (bad_request validity_above_maximum))
              λ _. ok (record {
                policy_bundle_id = id;
                policy_bundle_version = bundle.bundle_version;
                resolved_validity_minutes = resolved;
                allow_repeat_download =
                    truthy (bundle.user_targeted_sharing Key.allow_repeat_download);
                allow_recipient_multi_device_access =
                    truthy (bundle.user_targeted_sharing Key.allow_recipient_multi_device_access);
              })

unfoldable pub evaluate_share_creation : ShareInput → Handler ShareDecision
evaluate_share_creation input = do
  bundle ← get_current_bundle input.confidentiality_level
  lift (share_decision input bundle)

pub record ExtractionInput : Type 0 where
  pub confidentiality_level : ConfidentialityLevel
  pub requested_validity_minutes : Option Num
  pub requested_retrieval_count : Option Num

pub record ExtractionDecision : Type 0 where
  pub policy_bundle_id : ℕ
  pub policy_bundle_version : ℕ
  pub resolved_validity_minutes : Option Num
  pub resolved_retrieval_count : Num
  pub require_system_generated_password : Bool

unfoldable pub extraction_decision :
    ExtractionInput → ℕ × PolicyBundle → Result Reason ExtractionDecision
extraction_decision input (id, bundle) =
    let maximum = to_nullable_number (bundle.password_extraction maximum_retrieval_count) in
    let resolved_count = coalesce input.requested_retrieval_count (int (pos 1)) in
    and_then
      (guard (truthy (bundle.share_availability allow_outward_sharing))
        (bad_request outward_sharing_not_allowed))
      λ _.
        and_then
          (guard (truthy (bundle.share_availability allow_password_extraction))
            (bad_request password_extraction_not_allowed))
          λ _.
            and_then
              (guard (not (some_le_zero input.requested_validity_minutes))
                (bad_request validity_not_positive))
              λ _.
                and_then (guard (not (le_zero resolved_count)) (bad_request count_not_positive))
                  λ _.
                    and_then
                      (guard (not (exceeds resolved_count maximum))
                        (bad_request count_above_maximum))
                      λ _. ok (record {
                        policy_bundle_id = id;
                        policy_bundle_version = bundle.bundle_version;
                        resolved_validity_minutes = input.requested_validity_minutes;
                        resolved_retrieval_count = resolved_count;
                        require_system_generated_password =
                            truthy
                              (bundle.password_extraction Key.require_system_generated_password);
                      })

unfoldable pub evaluate_extraction_creation : ExtractionInput → Handler ExtractionDecision
evaluate_extraction_creation input = do
  bundle ← get_current_bundle input.confidentiality_level
  lift (extraction_decision input bundle)

pub record PublicLinkInput : Type 0 where
  pub confidentiality_level : ConfidentialityLevel
  pub requested_validity_minutes : Option Num
  pub requested_download_count : Option Num

pub record PublicLinkDecision : Type 0 where
  pub policy_bundle_id : ℕ
  pub policy_bundle_version : ℕ
  pub resolved_validity_minutes : Option Num
  pub resolved_download_count : Num

unfoldable pub public_link_decision :
    PublicLinkInput → ℕ × PolicyBundle → Result Reason PublicLinkDecision
public_link_decision input (id, bundle) =
    let maximum_validity =
      to_nullable_number (bundle.public_links maximum_public_link_validity_minutes) in
    let maximum_count =
      to_nullable_number (bundle.public_links maximum_public_link_download_count) in
    let resolved_count = coalesce input.requested_download_count (int (pos 1)) in
    and_then
      (guard (truthy (bundle.share_availability allow_outward_sharing))
        (bad_request outward_sharing_not_allowed))
      λ _.
        and_then
          (guard (truthy (bundle.share_availability allow_public_links))
            (bad_request public_links_not_allowed))
          λ _.
            and_then
              (guard (not (some_le_zero input.requested_validity_minutes))
                (bad_request validity_not_positive))
              λ _.
                and_then (guard (not (le_zero resolved_count)) (bad_request count_not_positive))
                  λ _.
                    and_then
                      (guard (not (some_exceeds input.requested_validity_minutes maximum_validity))
                        (bad_request validity_above_maximum))
                      λ _.
                        and_then
                          (guard (not (exceeds resolved_count maximum_count))
                            (bad_request count_above_maximum))
                          λ _. ok (record {
                            policy_bundle_id = id;
                            policy_bundle_version = bundle.bundle_version;
                            resolved_validity_minutes = input.requested_validity_minutes;
                            resolved_download_count = resolved_count;
                          })

unfoldable pub evaluate_public_link_creation : PublicLinkInput → Handler PublicLinkDecision
evaluate_public_link_creation input = do
  bundle ← get_current_bundle input.confidentiality_level
  lift (public_link_decision input bundle)

pub record LiveInput : Type 0 where
  pub confidentiality_level : ConfidentialityLevel
  pub grouped_transfer : Bool
  pub content_kind : UploadContentKind

pub record LiveDecision : Type 0 where
  pub policy_bundle_id : ℕ
  pub policy_bundle_version : ℕ
  pub allow_peer_to_peer : Bool
  pub allow_relay : Bool
  pub allow_peer_to_peer_to_relay_fallback : Bool
  pub allow_live_to_stored_fallback : Bool
  pub retain_live_transfer_records : Bool
  pub allow_grouped_or_large_live_transfer : Bool

unfoldable pub live_decision : LiveInput → ℕ × PolicyBundle → Result Reason LiveDecision
live_decision input (id, bundle) =
    let allow_grouped = truthy (bundle.live_transfer Key.allow_grouped_or_large_live_transfer) in
    and_then
      (guard (truthy (bundle.live_transfer allow_live_transfer))
        (bad_request live_transfer_not_allowed))
      λ _.
        and_then (guard (not (is_text input.content_kind)) (bad_request live_text_not_supported))
          λ _.
            and_then
              (guard (not (input.grouped_transfer && not allow_grouped))
                (bad_request grouped_live_not_allowed))
              λ _. ok (record {
                policy_bundle_id = id;
                policy_bundle_version = bundle.bundle_version;
                allow_peer_to_peer = truthy (bundle.live_transfer Key.allow_peer_to_peer);
                allow_relay = truthy (bundle.live_transfer Key.allow_relay);
                allow_peer_to_peer_to_relay_fallback =
                    truthy (bundle.live_transfer Key.allow_peer_to_peer_to_relay_fallback);
                allow_live_to_stored_fallback =
                    truthy (bundle.live_transfer Key.allow_live_to_stored_fallback);
                retain_live_transfer_records =
                    truthy (bundle.live_transfer Key.retain_live_transfer_records);
                allow_grouped_or_large_live_transfer = allow_grouped;
              })

unfoldable pub evaluate_live_transfer_creation : LiveInput → Handler LiveDecision
evaluate_live_transfer_creation input = do
  bundle ← get_current_bundle input.confidentiality_level
  lift (live_decision input bundle)

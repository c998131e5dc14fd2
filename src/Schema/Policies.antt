-- ===== src/Schema/Policies.antt =====
-- Policy bundles. A section is a JSON object of scalars, given by what it holds under the keys that
-- the program reads; a JavaScript number is an integer or NaN (fractions are not modelled).
use Prim.Native.Nat.{ℕ}
use mathlib.Core.Bool.{Bool}
use mathlib.Core.Option.{Option}
use mathlib.Core.List.{List}
use liminalis.Common.Int.{ℤ}
use liminalis.Schema.Enums.{ConfidentialityLevel}

pub data Scalar : Type 0 where
  undefined null : Scalar
  bool : Bool → Scalar
  num : ℤ → Scalar
  -- the UTF-16 code units of a string
  str : List ℕ → Scalar

pub data Num : Type 0 where
  nan : Num
  int : ℤ → Num

pub data Key : Type 0 where
  default_validity_minutes maximum_validity_minutes allow_never_expire : Key
  allow_validity_extension_later allow_future_trusted_devices allow_outward_resharing : Key
  allow_outward_sharing restrict_to_self_only allow_recipient_resharing : Key
  allow_multiple_outward_shares allow_user_targeted_sharing allow_password_extraction : Key
  allow_public_links default_share_validity_minutes maximum_share_validity_minutes : Key
  allow_repeat_download allow_recipient_multi_device_access : Key
  require_system_generated_password maximum_retrieval_count : Key
  maximum_public_link_validity_minutes maximum_public_link_download_count : Key
  allow_live_transfer allow_peer_to_peer allow_relay allow_peer_to_peer_to_relay_fallback : Key
  allow_live_to_stored_fallback retain_live_transfer_records : Key
  allow_grouped_or_large_live_transfer : Key

abbrev pub Section : Type 0
Section = Key → Scalar

pub record Sections : Type 0 where
  pub lifecycle : Section
  pub share_availability : Section
  pub user_targeted_sharing : Section
  pub password_extraction : Section
  pub public_links : Section
  pub live_transfer : Section

pub record PolicyBundle : Type 0 where
  pub level_name : ConfidentialityLevel
  pub bundle_version : ℕ
  pub is_current : Bool
  pub updated_by_admin_id : Option ℕ
  pub sections : Sections
  pub open sections use *

-- The snapshot of a source-creation decision, kept in `policySnapshot`.
pub record SourceSnapshot : Type 0 where
  pub confidentiality_level : ConfidentialityLevel
  pub burn_after_read_enabled : Bool
  pub default_validity_minutes : Num
  pub requested_validity_minutes : Option Num
  pub resolved_validity_minutes : Num
  pub allow_future_trusted_devices : Bool
  pub allow_outward_resharing : Bool
  pub policy_bundle_version : ℕ

-- An `Int` column has 32 bits: it holds the counts below this.
abbrev pub int_limit : ℕ
int_limit = 2147483648

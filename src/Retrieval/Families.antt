-- ===== src/Retrieval/Families.antt =====
-- The grants of an item or a share, and the package family that a device is handed: the ordinary one,
-- or that of the recovery where a snapshot of devices leaves the device out.
use liminalis.Common.{
  ℕ, Bool, true, false, not, ◌&&◌, ◌||◌, Option, none, some, is_some, ◌==◌, if◌then◌else◌,
}
use liminalis.Common.Exec.{forbidden, database, gets, pure, throw, or_throw, ◌>>=◌}
use liminalis.Common.Table.{find, contains}
use liminalis.Schema.{
  AccessGrantSet, GrantSubjectMode, owner_device_snapshot, recipient_device_snapshot, PackageFamily,
  PackageKind, owner_ordinary, owner_recovery, recipient_ordinary, recipient_recovery,
  TrustedDevice, Database, Handler, device_not_eligible, record_not_found,
}

abbrev pub is_owner_snapshot : GrantSubjectMode → Bool
is_owner_snapshot owner_device_snapshot = true
is_owner_snapshot _ = false

abbrev pub is_recipient_snapshot : GrantSubjectMode → Bool
is_recipient_snapshot recipient_device_snapshot = true
is_recipient_snapshot _ = false

-- A trusted device of the user whose recovery is established.
abbrev pub is_recovered : ℕ → Option TrustedDevice → Bool
is_recovered user_id none = false
is_recovered user_id (some device) =
    device.user_id == user_id && (device.trusted && is_some device.recovery_established_at)

-- What a device is handed: the kind, the key and the row of a family.
abbrev pub Selection : Type 0
Selection = PackageKind × ℕ × PackageFamily

unfoldable pub load_family : PackageKind → ℕ → Handler Selection
load_family kind id = do
  row ← gets (λ (db : Database). find id db.package_families)
  family ← or_throw row (database record_not_found)
  pure (kind, id, family)

-- The family of the recovery, where the grant has one and the device has recovered.
unfoldable pub recovery_family : PackageKind → Bool → Option ℕ → Handler Selection
recovery_family kind true (some id) = load_family kind id
recovery_family kind _ _ = throw (forbidden device_not_eligible)

unfoldable pub select_family :
    Bool → PackageKind × PackageKind → ℕ → ℕ → AccessGrantSet → Handler Selection
unfolding recovery_family
select_family snapshot kinds user_id device_id grant =
    if not snapshot || contains grant.snapshot_device_ids device_id
    then load_family kinds.0 grant.ordinary_package_family_id
    else (do
      device ← gets (λ (db : Database). find device_id db.trusted_devices)
      recovery_family kinds.1 (grant.recovery_enabled && is_recovered user_id device)
          grant.recovery_package_family_id)

unfoldable pub select_owner_package_family : ℕ → ℕ → AccessGrantSet → Handler Selection
unfolding select_family
select_owner_package_family user_id device_id grant =
    select_family (is_owner_snapshot grant.grant_subject_mode) (owner_ordinary, owner_recovery)
      user_id device_id grant

unfoldable pub select_recipient_package_family : ℕ → ℕ → AccessGrantSet → Handler Selection
unfolding select_family
select_recipient_package_family user_id device_id grant =
    select_family (is_recipient_snapshot grant.grant_subject_mode)
      (recipient_ordinary, recipient_recovery) user_id device_id grant

-- The current grants of an item and of a share.
abbrev pub is_key : ℕ → Option ℕ → Bool
is_key id none = false
is_key id (some key) = key == id

abbrev pub is_grant_of_item : ℕ → AccessGrantSet → Bool
is_grant_of_item id row = row.current && is_key id row.source_item_id

abbrev pub is_grant_of_share : ℕ → AccessGrantSet → Bool
is_grant_of_share id row = row.current && is_key id row.share_object_id

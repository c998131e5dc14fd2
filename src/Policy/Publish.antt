-- ===== src/Policy/Publish.antt =====
-- policy.service.ts: the start-up of the service and the publication of bundles.
use liminalis.Common.{
  ℕ, ◌+◌, Bool, true, false, not, ◌&&◌, ◌||◌, Option, none, some, List, [], ◌∷◌, is_some, coalesce,
  ltb, ◌==◌,
}
use liminalis.Common.Exec.{
  Result, bad_request, database, guard, and_then, gets, lift, modify, pure, transaction, ◌>>=◌,
  ◌>>◌,
}
use liminalis.Common.Table.{Table, find, find_where, create, update_where}
use liminalis.Schema.{
  ConfidentialityLevel, Sections, PolicyBundle, Num, Handler, Reason, Database,
  default_validity_minutes, maximum_validity_minutes, default_share_validity_minutes,
  maximum_share_validity_minutes, allow_user_targeted_sharing, allow_password_extraction,
  maximum_retrieval_count, allow_public_links, maximum_public_link_validity_minutes,
  maximum_public_link_download_count, allow_peer_to_peer_to_relay_fallback, allow_relay,
  default_exceeds_maximum, section_disabled, fallback_needs_relay, same_level, int_limit,
  value_not_storable, unique_violation, record_not_found,
}
use liminalis.Policy.Numbers.{to_nullable_number, is_true, is_false, exceeds}
use liminalis.Policy.Current.{
  latest, is_current_at, get_current_bundle, ensure_instance_setting, default_confidentiality_level,
}
use liminalis.Policy.Defaults.{policy_bundle_defaults}

-- `default !== null && maximum !== null && default > maximum`
abbrev pub default_above : Option Num → Option Num → Bool
default_above none maximum = false
default_above (some value) maximum = exceeds value maximum

unfoldable pub validate_bundle_sections : Sections → Result Reason (Unit {0})
validate_bundle_sections input =
    let lifecycle_default = to_nullable_number (input.lifecycle default_validity_minutes) in
    let lifecycle_maximum = to_nullable_number (input.lifecycle maximum_validity_minutes) in
    let share_default =
      to_nullable_number (input.user_targeted_sharing default_share_validity_minutes) in
    let share_maximum =
      to_nullable_number (input.user_targeted_sharing maximum_share_validity_minutes) in
    and_then
      (guard (not (default_above lifecycle_default lifecycle_maximum))
        (bad_request default_exceeds_maximum))
      λ _.
        and_then
          (guard (not (default_above share_default share_maximum))
            (bad_request default_exceeds_maximum))
          λ _.
            and_then
              (guard
                (not (
                  is_false (input.share_availability allow_user_targeted_sharing)
                  && is_some share_default))
                (bad_request section_disabled))
              λ _.
                and_then
                  (guard
                    (not (
                      is_false (input.share_availability allow_password_extraction)
                      && is_some
                          (to_nullable_number (input.password_extraction maximum_retrieval_count))))
                    (bad_request section_disabled))
                  λ _.
                    and_then
                      (guard
                        (not (
                          is_false (input.share_availability allow_public_links)
                          && (is_some (
                                to_nullable_number
                                  (input.public_links maximum_public_link_validity_minutes))
                              || is_some (
                                  to_nullable_number
                                    (input.public_links maximum_public_link_download_count)))))
                        (bad_request section_disabled))
                      λ _.
                        guard
                          (not (
                            is_true (input.live_transfer allow_peer_to_peer_to_relay_fallback)
                            && not (is_true (input.live_transfer allow_relay))))
                          (bad_request fallback_needs_relay)

-- `updateMany` with `isCurrent: false` at a level, then `create` of the next version.
unfoldable pub replace_current :
    ConfidentialityLevel → ℕ → PolicyBundle → Table PolicyBundle → Table PolicyBundle
replace_current level id bundle t =
    create id bundle (update_where (is_current_at level) (λ b. record b { is_current = false }) t)

abbrev pub next_bundle : ConfidentialityLevel → ℕ → Option ℕ → Sections → PolicyBundle
next_bundle level version admin sections = record {
  level_name = level;
  bundle_version = version;
  is_current = true;
  updated_by_admin_id = admin;
  sections = sections;
}

abbrev pub is_version : ConfidentialityLevel → ℕ → PolicyBundle → Bool
is_version level version b = same_level b.level_name level && b.bundle_version == version

-- What the database asks of a new row: a version that its column holds, and a key and a pair of level
-- and version that no row has.
unfoldable pub accept_bundle : ℕ → PolicyBundle → Handler (Unit {0})
accept_bundle id bundle = do
  present ← gets (λ (db : Database). find id db.policy_bundles)
  taken ← gets (λ (db : Database).
      find_where (is_version bundle.level_name bundle.bundle_version) db.policy_bundles)
  lift (guard (ltb bundle.bundle_version int_limit) (database value_not_storable))
  lift (guard (not (is_some present) && not (is_some taken)) (database unique_violation))

-- The two writes in a transaction, which are undone where the new row is not accepted.
unfoldable pub replace_bundle : ConfidentialityLevel → ℕ → PolicyBundle → Handler (Unit {0})
unfolding accept_bundle replace_current
replace_bundle level id bundle = do
  accept_bundle id bundle
  modify (λ (db : Database). record db {
    policy_bundles = replace_current level id bundle db.policy_bundles;
  })

-- The `update` of the settings row, which fails where the row is missing.
unfoldable pub update_setting : ConfidentialityLevel → Handler (Unit {0})
update_setting level = do
  setting ← gets (λ (db : Database). db.default_level)
  lift (guard (is_some setting) (database record_not_found))
  modify (λ (db : Database). record db { default_level = some level })

unfoldable pub set_default : Option ConfidentialityLevel → Handler (Unit {0})
unfolding update_setting
set_default none = pure tt
set_default (some level) = update_setting level

-- `id` is the key that the database makes for the new row.
unfoldable pub publish_bundle :
    ℕ
    → ℕ
    → ConfidentialityLevel
    → Sections
    → Option ConfidentialityLevel
    → Handler (ℕ × PolicyBundle)
unfolding replace_bundle get_current_bundle set_default
publish_bundle id admin_user_id level input default_level = do
  lift (validate_bundle_sections input)
  current ← get_current_bundle level
  let created = next_bundle level (current.1.bundle_version + 1) (some admin_user_id) input
  transaction (do replace_bundle level id created; set_default default_level; pure (id, created))

abbrev pub version_of : Option (ℕ × PolicyBundle) → ℕ
version_of none = 0
version_of (some (id, b)) = b.bundle_version

-- One round of the loop over the seeds.
unfoldable pub restore_level : ℕ → ℕ → ConfidentialityLevel × Sections → Handler (Unit {0})
unfolding replace_bundle
restore_level id admin (level, sections) = do
  version ← gets (λ (db : Database). version_of (latest (is_current_at level) db.policy_bundles))
  replace_bundle level id (next_bundle level (version + 1) (some admin) sections)

-- The keys of the new rows are `id`, `id + 1`, and so on.
unfoldable pub restore_levels : ℕ → ℕ → List (ConfidentialityLevel × Sections) → Handler (Unit {0})
unfolding restore_level
restore_levels id admin [] = pure tt
restore_levels id admin (seed ∷ seeds) = do
  restore_level id admin seed
  restore_levels (id + 1) admin seeds

unfoldable pub restore_defaults : ℕ → ℕ → Option ConfidentialityLevel → Handler ConfidentialityLevel
unfolding restore_levels update_setting
restore_defaults id admin_user_id default_level = do
  let level = coalesce default_level default_confidentiality_level
  transaction (do restore_levels id admin_user_id policy_bundle_defaults; update_setting level)
  pure level

ensured_bundle :
    ℕ → ConfidentialityLevel × Sections → Option (ℕ × PolicyBundle) → Handler (Unit {0})
unfolding accept_bundle
ensured_bundle id (level, sections) none = do
  accept_bundle id (next_bundle level 1 none sections)
  modify (λ (db : Database). record db {
    policy_bundles = create id (next_bundle level 1 none sections) db.policy_bundles;
  })
ensured_bundle id seed (some existing) = pure tt

unfoldable pub ensure_current_bundle : ℕ → ConfidentialityLevel × Sections → Handler (Unit {0})
unfolding ensured_bundle
ensure_current_bundle id seed = do
  existing ← gets (λ (db : Database). latest (is_current_at seed.0) db.policy_bundles)
  ensured_bundle id seed existing

ensure_bundles : ℕ → List (ConfidentialityLevel × Sections) → Handler (Unit {0})
unfolding ensure_current_bundle
ensure_bundles id [] = pure tt
ensure_bundles id (seed ∷ seeds) = do ensure_current_bundle id seed; ensure_bundles (id + 1) seeds

unfoldable pub on_module_init : ℕ → Handler (Unit {0})
unfolding ensure_bundles ensure_instance_setting
on_module_init id = do ensure_instance_setting; ensure_bundles id policy_bundle_defaults

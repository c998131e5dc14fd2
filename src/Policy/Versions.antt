-- ===== src/Policy/Versions.antt =====
-- The versions of the bundles at a level, across publication and restoration.
use liminalis.Common.{
  coalesce, subst, sym, ℕ, ◌+◌, ◌≡◌, refl, true, ltb, Option, none, some, List, [], ◌∷◌, arith,
}
use liminalis.Common.Exec.{ok, pure, transaction, lift, ◌>>◌}
use liminalis.Common.Exec.Rules.{
  lift_rule, gets_rule, bind_rule, bind_ok, transaction_body_rule, OnOk,
}
use liminalis.Common.Exec.Keeps.{outcome-Keeps}
use liminalis.Common.Table.{find}
use liminalis.Schema.{ConfidentialityLevel, Sections, Database, int_limit}
use liminalis.Policy.Current.{
  latest, is_current_at, default_confidentiality_level, get_current_bundle, get_current_bundle_lem,
}
use liminalis.Policy.Defaults.{policy_bundle_defaults}
use liminalis.Policy.Publish.{
  replace_bundle, update_setting, next_bundle, set_default, restore_defaults, publish_bundle,
  restore_level, restore_levels, validate_bundle_sections, version_of,
}
use liminalis.Policy.Replacement.{IsVersioned, latest-replace_current}
use liminalis.Policy.Publication.{
  AllVersioned, free_version, replaced, update_setting-Keeps, set_default-Keeps, Ordered, on_ok,
  replaced_ordered, replaced_then, has_setting, asked_or, accept_bundle_lem, replace_bundle_lem,
  set_default_lem,
}

module _ (id admin_user_id : ℕ) (level : ConfidentialityLevel) (input : Sections)
    (default_level : Option ConfidentialityLevel) (db : Database) where
  -- Where exactly one bundle is in force at each level, and that one the newest, this stays so
  -- through a publication, accepted or refused.
  pub publish_bundle-AllVersioned :
      AllVersioned db.policy_bundles
      → AllVersioned (publish_bundle id admin_user_id level input default_level db).1.policy_bundles
  unfolding publish_bundle pure
  publish_bundle-AllVersioned all =
      lift_rule Ordered _ _ db (λ e h. all)
        λ u valid.
          rw
            (bind_ok (get_current_bundle level) _ db mine.current
              (get_current_bundle_lem level db mine.current mine.in_force))
            (transaction_body_rule Ordered _ db (λ e. all)
              (replaced_then level id (mine.current.1.bundle_version + 1) (some admin_user_id) input
                mine.current.1.bundle_version db mine.newest (omega arith) all _
                λ w s kept.
                  bind_rule (OnOk Ordered) (set_default default_level) _ s (λ e s' h'. tt)
                    λ v s' h'.
                      subst AllVersioned
                        (sym (
                          outcome-Keeps (set_default-Keeps default_level s.policy_bundles) refl h'))
                        kept))
    where
      mine : IsVersioned level db.policy_bundles
      mine = all level

  -- At a level that is in order, a publication of valid sections puts them in force under the next
  -- version, and sets the default level that is asked for. The key of the new row is new, its
  -- version fits the column, and the settings are there if a default level is asked for.
  pub publish_bundle-in_force :
      (versioned : IsVersioned level db.policy_bundles)
      → validate_bundle_sections input ≡ ok tt
      → find id db.policy_bundles ≡ none
      → ltb (versioned.current.1.bundle_version + 1) int_limit ≡ true
      → has_setting default_level db.default_level ≡ true
      → let next =
          next_bundle level (versioned.current.1.bundle_version + 1) (some admin_user_id) input in
        let outcome = publish_bundle id admin_user_id level input default_level db in
        (outcome.0 ≡ ok (id, next))
        × (latest (is_current_at level) outcome.1.policy_bundles ≡ some (id, next))
        × (outcome.1.default_level ≡ asked_or default_level db.default_level)
  unfolding publish_bundle lift pure transaction
  publish_bundle-in_force versioned valid free fits there =
      let version = versioned.current.1.bundle_version + 1 in
      let next = next_bundle level version (some admin_user_id) input in
      rw (valid) (
        rw
          (bind_ok (get_current_bundle level) _ db versioned.current
            (get_current_bundle_lem level db versioned.current versioned.in_force))
          (rw
            (bind_ok (replace_bundle level id next) _ db tt (
              replace_bundle_lem level id next db (
                accept_bundle_lem id next db free
                  (free_version level _ version db.policy_bundles versioned.newest (omega arith))
                  fits)))
            (rw
              (bind_ok (set_default default_level) _ (replaced level id next db) tt
                (set_default_lem default_level (replaced level id next db) there))
              (
                refl,
                latest-replace_current level id version (some admin_user_id) input
                    db.policy_bundles,
                refl,
              ))))

restore_level-Ordered :
    (id admin : ℕ) (level : ConfidentialityLevel) (sections : Sections) (db : Database)
    → AllVersioned db.policy_bundles
    → OnOk Ordered (restore_level id admin (level, sections) db)
unfolding restore_level
restore_level-Ordered id admin level sections db all =
    let mine = all level in
    gets_rule (OnOk Ordered) _ _ db (
      subst
        (λ current. OnOk Ordered (
          replace_bundle level id (next_bundle level (version_of current + 1) (some admin) sections)
            db))
        (sym mine.in_force)
        (on_ok _ (
          replaced_ordered level id (mine.current.1.bundle_version + 1) (some admin) sections
            mine.current.1.bundle_version db mine.newest (omega arith) all)))

restore_levels-Ordered :
    (id admin : ℕ) (seeds : List (ConfidentialityLevel × Sections)) (db : Database)
    → AllVersioned db.policy_bundles
    → OnOk Ordered (restore_levels id admin seeds db)
unfolding restore_levels pure
restore_levels-Ordered id admin [] db all = all
restore_levels-Ordered id admin ((level, sections) ∷ seeds) db all =
    bind_rule (OnOk Ordered) (restore_level id admin (level, sections)) _ db (λ e s h. tt)
      λ u s h.
        restore_levels-Ordered (id + 1) admin seeds s
          (subst (OnOk Ordered) h (restore_level-Ordered id admin level sections db all))

-- Where exactly one bundle is in force at each level, and that one the newest, this stays so
-- through a restoration of the defaults, accepted or refused.
pub restore_defaults-AllVersioned :
    (id admin_user_id : ℕ) (default_level : Option ConfidentialityLevel) (db : Database)
    → AllVersioned db.policy_bundles
    → AllVersioned (restore_defaults id admin_user_id default_level db).1.policy_bundles
unfolding restore_defaults pure
restore_defaults-AllVersioned id admin_user_id default_level db all =
    bind_rule Ordered _ _ db (λ e s h. subst Ordered h written) (λ u s h. subst Ordered h written)
  where
    written : Ordered (
        transaction
          (do
            restore_levels id admin_user_id policy_bundle_defaults
            update_setting (coalesce default_level default_confidentiality_level))
          db)
    written =
        transaction_body_rule Ordered _ db (λ e. all)
          (bind_rule (OnOk Ordered) (restore_levels id admin_user_id policy_bundle_defaults) _ db
            (λ e s h. tt)
            λ u s h. on_ok _ λ v s' h'.
              subst AllVersioned
                (sym (outcome-Keeps (update_setting-Keeps _ s.policy_bundles) refl h'))
                (subst (OnOk Ordered) h
                  (restore_levels-Ordered id admin_user_id policy_bundle_defaults db all)))

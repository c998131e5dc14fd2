-- ===== src/Policy/Current.antt =====
-- policy.service.ts: the bundle in force for a level, and the default level.
use liminalis.Common.{
  ◌≡◌, ℕ, Bool, true, false, ◌&&◌, Option, none, some, [], ◌∷◌, ltb, if◌then◌else◌,
}
use liminalis.Common.Exec.{ok, bad_request, gets, or_throw, modify, ◌>>=◌, ◌>>◌}
use liminalis.Common.Table.{Table}
use liminalis.Schema.{
  ConfidentialityLevel, secret, same_level, PolicyBundle, Handler, no_current_bundle, Database,
}

unfoldable pub newer :
    Bool → ℕ × PolicyBundle → Option (ℕ × PolicyBundle) → Option (ℕ × PolicyBundle)
newer false x rest = rest
newer true x none = some x
newer true x (some y) = if ltb x.1.bundle_version y.1.bundle_version then some y else some x

-- `findFirst` with `orderBy: { bundleVersion: 'desc' }`
unfoldable pub latest : (PolicyBundle → Bool) → Table PolicyBundle → Option (ℕ × PolicyBundle)
unfolding newer
latest p [] = none
latest p ((id, b) ∷ t) = newer (p b) (id, b) (latest p t)

abbrev pub is_current_at : ConfidentialityLevel → PolicyBundle → Bool
is_current_at level b = same_level b.level_name level && b.is_current

unfoldable pub get_current_bundle : ConfidentialityLevel → Handler (ℕ × PolicyBundle)
unfolding latest ◌>>=◌ gets or_throw
get_current_bundle level = do
  bundle ← gets (λ db. latest (is_current_at level) db.policy_bundles)
  or_throw bundle (bad_request no_current_bundle)

abbrev pub default_confidentiality_level : ConfidentialityLevel
default_confidentiality_level = secret

abbrev ensured : Option ConfidentialityLevel → ConfidentialityLevel
ensured none = default_confidentiality_level
ensured (some level) = level

-- The `upsert` with an empty update creates the settings row where it is missing.
unfoldable pub ensure_instance_setting : Handler ConfidentialityLevel
unfolding ◌>>=◌ gets modify
ensure_instance_setting = do
  modify (λ (db : Database). record db { default_level = some (ensured db.default_level) })
  gets (λ db. ensured db.default_level)

unfoldable pub get_default_confidentiality_level : Handler ConfidentialityLevel
unfolding ensure_instance_setting
get_default_confidentiality_level = ensure_instance_setting

pub get_current_bundle_lem :
    (level : ConfidentialityLevel) (db : Database) (current : ℕ × PolicyBundle)
    → latest (is_current_at level) db.policy_bundles ≡ some current
    → get_current_bundle level db ≡ (ok current, db)
unfolding get_current_bundle
get_current_bundle_lem level db current e = rw e

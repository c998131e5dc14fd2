-- ===== src/Policy/Publication.antt =====
-- The writes of a publication and of a restoration, and what they leave of the versions.
use liminalis.Common.{
  ap, Bool, subst, sym, ◌∙◌, ℕ, ◌≤◌, ◌≡◌, inl, inr, ◌<◌, refl, true, false, is_some, ltb,
  if◌then◌else◌, Option, none, some, [], ◌∷◌, arith, Bool-cases,
}
use liminalis.Common.Exec.{Result, ok, err, pure, gets, modify, lift, ◌>>=◌}
use liminalis.Common.Exec.Rules.{bind_rule, OnOk}
use liminalis.Common.Exec.Keeps.{Keeps, keeps_rules, outcome-Keeps}
use liminalis.Common.Table.{Table, find, find_where}
use liminalis.Schema.{
  ConfidentialityLevel, Reason, Handler, same_level, Sections, PolicyBundle, Database, int_limit,
}
use liminalis.Policy.Publish.{
  is_version, accept_bundle, replace_bundle, update_setting, replace_current, next_bundle,
  set_default,
}
use liminalis.Policy.Replacement.{
  IsVersioned, replace_current-IsVersioned, replace_current-IsVersioned_other, same_level_eq, UpTo,
}

abbrev pub AllVersioned : Table PolicyBundle → Type 0
AllVersioned t = (level : ConfidentialityLevel) → IsVersioned level t

same_level_sym : (l m : ConfidentialityLevel) → same_level l m ≡ same_level m l
same_level_sym l m = ground arith

-- A publication at one level, at a version that is no step back, keeps every level in order.
replace_current-AllVersioned :
    (level : ConfidentialityLevel) (id version : ℕ) (admin : Option ℕ) (sections : Sections)
    (t : Table PolicyBundle) (v : ℕ)
    → UpTo level v t
    → v ≤ version
    → AllVersioned t
    → AllVersioned (replace_current level id (next_bundle level version admin sections) t)
replace_current-AllVersioned level id version admin sections t v u h all other =
    elim (Bool-cases (same_level other level)) [
      | inl same ↦
          subst
            (λ l.
              IsVersioned l (replace_current level id (next_bundle level version admin sections) t))
            (sym (same_level_eq other level same))
            (replace_current-IsVersioned level id version admin sections t v u h)
      | inr apart ↦
          replace_current-IsVersioned_other level id version admin sections t other apart
            (same_level_sym level other ∙ apart) (all other)
    ]

-- The next version of a level is free where no later one than the newest is there.
pub free_version :
    (level : ConfidentialityLevel) (v w : ℕ) (t : Table PolicyBundle)
    → UpTo level v t
    → v < w
    → find_where (is_version level w) t ≡ none
unfolding find_where
free_version level v w [] u h = refl
free_version level v w ((id, b) ∷ t) u h =
    rw (other, if◌then◌else◌) (free_version level v w t u.1 h)
  where
    other : is_version level w b ≡ false
    other = elim (Bool-cases (same_level b.level_name level)) [
      | inl same ↦ let bounded = u.0 same in ground (arith, same, bounded)
      | inr apart ↦ ground (arith, apart)
    ]

-- The database with another bundle in force at a level.
abbrev pub replaced : ConfidentialityLevel → ℕ → PolicyBundle → Database → Database
replaced level id bundle db = record db {
  policy_bundles = replace_current level id bundle db.policy_bundles;
}

accept_bundle-Keeps :
    (id : ℕ) (bundle : PolicyBundle) (db : Database)
    → Keeps (λ (s : Database). s ≡ db) (accept_bundle id bundle)
unfolding accept_bundle
accept_bundle-Keeps id bundle db = search keeps_rules depth 12

replace_bundle-ok :
    (level : ConfidentialityLevel) (id : ℕ) (bundle : PolicyBundle) (u : Unit {0}) (db s : Database)
    → replace_bundle level id bundle db ≡ (ok u, s)
    → s ≡ replaced level id bundle db
unfolding replace_bundle modify
replace_bundle-ok level id bundle u db s h = subst Replaced h outcome
  where
    Replaced : Result Reason (Unit {0}) × Database → Type 0
    Replaced (ok v, d) = d ≡ replaced level id bundle db
    Replaced (err e, d) = Unit {0}

    outcome : Replaced (replace_bundle level id bundle db)
    outcome =
        bind_rule Replaced (accept_bundle id bundle) _ db (λ e d k. tt)
          λ v d k.
            ap (replaced level id bundle) (outcome-Keeps (accept_bundle-Keeps id bundle db) refl k)

pub update_setting-Keeps :
    (level : ConfidentialityLevel) (t : Table PolicyBundle)
    → Keeps (λ (s : Database). s.policy_bundles ≡ t) (update_setting level)
unfolding update_setting
update_setting-Keeps level t = search keeps_rules depth 12

pub set_default-Keeps :
    (default_level : Option ConfidentialityLevel) (t : Table PolicyBundle)
    → Keeps (λ (s : Database). s.policy_bundles ≡ t) (set_default default_level)
unfolding set_default
set_default-Keeps none t = search keeps_rules
set_default-Keeps (some level) t = update_setting-Keeps level t

-- Every level is in order.
abbrev pub Ordered : {A : Type 0} → Result Reason A × Database → Type 0
Ordered o = AllVersioned o.1.policy_bundles

pub on_ok :
    {A : Type 0} (o : Result Reason A × Database)
    → ((a : A) (s : Database) → o ≡ (ok a, s) → AllVersioned s.policy_bundles)
    → OnOk Ordered o
on_ok (ok a, s) k = k a s refl
on_ok (err e, s) k = tt

-- A replacement at a version that is no step back.
module _ (level : ConfidentialityLevel) (id version : ℕ) (admin : Option ℕ) (sections : Sections)
    (v : ℕ) (db : Database) (u : UpTo level v db.policy_bundles) (h : v ≤ version)
    (all : AllVersioned db.policy_bundles) where
  pub replaced_ordered :
      (w : Unit {0}) (s : Database)
      → replace_bundle level id (next_bundle level version admin sections) db ≡ (ok w, s)
      → AllVersioned s.policy_bundles
  replaced_ordered w s e =
      subst (λ (d : Database). AllVersioned d.policy_bundles)
        (sym (replace_bundle-ok level id _ w db s e))
        (replace_current-AllVersioned level id version admin sections db.policy_bundles v u h all)

  pub replaced_then :
      {A : Type 0} (f : Unit {0} → Handler A)
      → ((w : Unit {0}) (s : Database) → AllVersioned s.policy_bundles → OnOk Ordered (f w s))
      → OnOk Ordered ((replace_bundle level id (next_bundle level version admin sections) >>= f) db)
  replaced_then f k =
      bind_rule (OnOk Ordered) (replace_bundle level id (next_bundle level version admin sections))
        f db (λ e s h'. tt) λ w s e. k w s (replaced_ordered w s e)

-- The settings row is there if a default level is asked for.
abbrev pub has_setting : Option ConfidentialityLevel → Option ConfidentialityLevel → Bool
has_setting none setting = true
has_setting (some level) setting = is_some setting

abbrev pub asked_or :
    Option ConfidentialityLevel → Option ConfidentialityLevel → Option ConfidentialityLevel
asked_or none setting = setting
asked_or (some level) setting = some level

pub accept_bundle_lem :
    (id : ℕ) (bundle : PolicyBundle) (db : Database)
    → find id db.policy_bundles ≡ none
    → find_where (is_version bundle.level_name bundle.bundle_version) db.policy_bundles ≡ none
    → ltb bundle.bundle_version int_limit ≡ true
    → accept_bundle id bundle db ≡ (ok tt, db)
unfolding accept_bundle gets lift ◌>>=◌
accept_bundle_lem id bundle db free untaken fits = rw (fits, free, untaken) refl

pub replace_bundle_lem :
    (level : ConfidentialityLevel) (id : ℕ) (bundle : PolicyBundle) (db : Database)
    → accept_bundle id bundle db ≡ (ok tt, db)
    → replace_bundle level id bundle db ≡ (ok tt, replaced level id bundle db)
unfolding replace_bundle modify ◌>>=◌
replace_bundle_lem level id bundle db accepted = rw (accepted) refl

pub set_default_lem :
    (asked : Option ConfidentialityLevel) (db : Database)
    → has_setting asked db.default_level ≡ true
    → set_default asked db ≡ (ok tt, record db { default_level = asked_or asked db.default_level })
unfolding set_default update_setting gets lift modify pure ◌>>=◌
set_default_lem none db there = refl
set_default_lem (some level) db there = rw (there) refl

-- ===== src/Policy/Refusal.antt =====
-- A change of the policies that is refused.
use liminalis.Common.{ℕ, ◌≡◌, refl, sym, ap, subst, ◌∙◌, Option}
use liminalis.Common.Exec.{Error, Result, ok, err, pure, transaction, gets, bad_request, ◌>>=◌}
use liminalis.Common.Exec.Rules.{lift_rule, bind_rule, transaction_rule}
use liminalis.Common.Exec.Leaves.{Leaves-or_throw}
use liminalis.Schema.{
  ConfidentialityLevel, Sections, PolicyBundle, Database, Reason, Handler, no_current_bundle,
}
use liminalis.Policy.Current.{get_current_bundle, latest, is_current_at}
use liminalis.Policy.Publish.{publish_bundle, restore_defaults}

-- An outcome that is an exception has the database of before.
abbrev Unchanged : {A : Type 0} → Database → Result Reason A × Database → Type 0
Unchanged db o = (e : Error Reason) → o.0 ≡ err e → o.1 ≡ db

answered : {A : Type 0} (db s : Database) (a : A) → Unchanged db (ok a, s)
answered db s a e h = absurd (clash h)
  where
    clash : ok a ≡ err e → ⊥
    clash p = cc

rolled_back :
    {A : Type 0} (db s : Database) (m : Handler A) → s ≡ db → Unchanged db (transaction m s)
rolled_back db s m same =
    transaction_rule (Unchanged db) m s (λ e e' h. same) (λ a s' h. answered db s' a)

get_current_bundle-reads :
    (level : ConfidentialityLevel) (db : Database) → (get_current_bundle level db).1 ≡ db
unfolding get_current_bundle gets ◌>>=◌
get_current_bundle-reads level db =
    (Leaves-or_throw {R = Reason} (λ (s : Database). s)
        (latest (is_current_at level) db.policy_bundles) (bad_request no_current_bundle)).at
      db

-- A publication that is refused leaves the whole database as it is: when the sections are not valid,
-- no bundle is in force at the level, the database does not take the new row, or the settings are
-- missing to which the default level would go, after the writes to the bundles.
pub publish_bundle-refused :
    (id admin_user_id : ℕ) (level : ConfidentialityLevel) (input : Sections)
    (default_level : Option ConfidentialityLevel) (db : Database) (e : Error Reason)
    → (publish_bundle id admin_user_id level input default_level db).0 ≡ err e
    → (publish_bundle id admin_user_id level input default_level db).1 ≡ db
unfolding publish_bundle
publish_bundle-refused id admin_user_id level input default_level db =
    lift_rule (Unchanged db) _ _ db (λ e h e' h'. refl)
      λ u valid.
        bind_rule (Unchanged db) (get_current_bundle level) _ db (λ e s h e' h'. read s h)
          (λ current s h. rolled_back db s _ (read s h))
  where
    read :
        {r : Result Reason (ℕ × PolicyBundle)} (s : Database)
        → get_current_bundle level db ≡ (r, s)
        → s ≡ db
    read s h =
        sym (ap (λ (o : Result Reason (ℕ × PolicyBundle) × Database). o.1) h)
        ∙ get_current_bundle-reads level db

-- A restoration of the defaults that is refused leaves the whole database as it is, however many of
-- the levels have been written before.
pub restore_defaults-refused :
    (id admin_user_id : ℕ) (default_level : Option ConfidentialityLevel) (db : Database)
    (e : Error Reason)
    → (restore_defaults id admin_user_id default_level db).0 ≡ err e
    → (restore_defaults id admin_user_id default_level db).1 ≡ db
unfolding restore_defaults pure
restore_defaults-refused id admin_user_id default_level db =
    bind_rule (Unchanged db) _ _ db
      (λ e s h e' h'. subst (Unchanged db) h (rolled_back db db _ refl) e refl)
      (λ u s h. answered db s _)

-- ===== src/Policy/Replacement.antt =====
-- The bundle in force at a level when it is replaced by the next version.
use liminalis.Common.{
  ℕ, ◌+◌, ◌≤◌, ◌≡◌, refl, inl, inr, true, false, Option, none, some, [], ◌∷◌, arith, if◌then◌else◌,
  Bool-cases, ap,
}
use liminalis.Common.Table.{Table, create, update_where}
use liminalis.Schema.{
  ConfidentialityLevel, secret, confidential, top_secret, same_level, Sections, PolicyBundle,
}
use liminalis.Policy.Current.{newer, latest, is_current_at}
use liminalis.Policy.Publish.{replace_current, next_bundle}

levels_apart :
    (x level other : ConfidentialityLevel)
    → same_level x level ≡ true
    → same_level other level ≡ false
    → same_level x other ≡ false
levels_apart x level other h k = ground arith

-- How many bundles are in force at a level.
abbrev pub current_count : ConfidentialityLevel → Table PolicyBundle → ℕ
current_count level [] = 0
current_count level ((id, b) ∷ t) = (if is_current_at level b then 1 else 0) + current_count level t

-- Every bundle of the level has at most a version.
abbrev pub UpTo : ConfidentialityLevel → ℕ → Table PolicyBundle → Type 0
UpTo level v [] = Unit
UpTo level v ((id, b) ∷ t) =
    (same_level b.level_name level ≡ true → b.bundle_version ≤ v) × UpTo level v t

-- One bundle is in force at the level, and no other has a later version.
pub record IsVersioned (level : ConfidentialityLevel) (t : Table PolicyBundle) : Type 0 where
  pub current : ℕ × PolicyBundle
  pub in_force : latest (is_current_at level) t ≡ some current
  pub only : current_count level t ≡ 1
  pub newest : UpTo level current.1.bundle_version t

same_level_refl : (l : ConfidentialityLevel) → same_level l l ≡ true
same_level_refl secret = refl
same_level_refl confidential = refl
same_level_refl top_secret = refl

pub same_level_eq : (l m : ConfidentialityLevel) → same_level l m ≡ true → l ≡ m
same_level_eq l m h = ground arith

UpTo-mono :
    (level : ConfidentialityLevel) (v w : ℕ) (t : Table PolicyBundle)
    → v ≤ w
    → UpTo level v t
    → UpTo level w t
UpTo-mono level v w [] h u = tt
UpTo-mono level v w ((id, b) ∷ t) h u =
    ((λ e. let k = u.0 e in omega arith), UpTo-mono level v w t h u.1)

module _ (level : ConfidentialityLevel) where
  -- After the `updateMany` none is in force at the level.
  current_count-retire :
      (t : Table PolicyBundle)
      → current_count level
          (update_where (is_current_at level) (λ b. record b { is_current = false }) t)
        ≡ 0
  unfolding update_where
  current_count-retire [] = refl
  current_count-retire ((id, b) ∷ t) = ground (arith, current_count-retire t)

  latest-retire :
      (t : Table PolicyBundle)
      → latest
          (is_current_at level)
          (update_where (is_current_at level) (λ b. record b { is_current = false }) t)
        ≡ none
  unfolding update_where latest
  latest-retire [] = refl
  latest-retire ((id, b) ∷ t) = ground (arith, latest-retire t)

  UpTo-retire :
      (v : ℕ) (t : Table PolicyBundle)
      → UpTo level v t
      → UpTo level v (update_where (is_current_at level) (λ b. record b { is_current = false }) t)
  unfolding update_where
  UpTo-retire v [] u = tt
  UpTo-retire v ((id, b) ∷ t) u = elim (Bool-cases (is_current_at level b)) [
    | inl hit ↦ rw hit (u.0, UpTo-retire v t u.1)
    | inr miss ↦ rw miss (u.0, UpTo-retire v t u.1)
  ]

  module _ (other : ConfidentialityLevel) (apart : same_level other level ≡ false) where
    -- The `updateMany` at one level leaves the others alone.
    latest-retire_other :
        (t : Table PolicyBundle)
        → latest
            (is_current_at other)
            (update_where (is_current_at level) (λ b. record b { is_current = false }) t)
          ≡ latest (is_current_at other) t
    unfolding update_where latest
    latest-retire_other [] = refl
    latest-retire_other ((id, b) ∷ t) = elim (Bool-cases (same_level b.level_name level)) [
      | inl same ↦
          let off = levels_apart b.level_name level other same apart in
          ground (arith, off, latest-retire_other t)
      | inr differs ↦
          rw (differs, latest) (ap (newer (is_current_at other b) (id, b)) (latest-retire_other t))
    ]

    current_count-retire_other :
        (t : Table PolicyBundle)
        → current_count other
            (update_where (is_current_at level) (λ b. record b { is_current = false }) t)
          ≡ current_count other t
    unfolding update_where
    current_count-retire_other [] = refl
    current_count-retire_other ((id, b) ∷ t) = elim (Bool-cases (same_level b.level_name level)) [
      | inl same ↦
          let off = levels_apart b.level_name level other same apart in
          ground (arith, off, current_count-retire_other t)
      | inr differs ↦
          rw differs
            (ap (λ n. (if is_current_at other b then 1 else 0) + n) (current_count-retire_other t))
    ]

    UpTo-retire_other :
        (v : ℕ) (t : Table PolicyBundle)
        → UpTo other v t
        → UpTo other v (update_where (is_current_at level) (λ b. record b { is_current = false }) t)
    unfolding update_where
    UpTo-retire_other v [] u = tt
    UpTo-retire_other v ((id, b) ∷ t) u = elim (Bool-cases (is_current_at level b)) [
      | inl hit ↦ rw hit (u.0, UpTo-retire_other v t u.1)
      | inr miss ↦ rw miss (u.0, UpTo-retire_other v t u.1)
    ]

  module _ (id version : ℕ) (admin : Option ℕ) (sections : Sections) (t : Table PolicyBundle) where
    pub latest-replace_current :
        latest
          (is_current_at level)
          (replace_current level id (next_bundle level version admin sections) t)
        ≡ some (id, next_bundle level version admin sections)
    unfolding replace_current latest create newer
    latest-replace_current = rw (same_level_refl level, latest-retire t)

    pub replace_current-IsVersioned :
        (v : ℕ)
        → UpTo level v t
        → v ≤ version
        → IsVersioned level (replace_current level id (next_bundle level version admin sections) t)
    replace_current-IsVersioned v u h = record {
      current = (id, next_bundle level version admin sections);
      in_force = latest-replace_current;
      only = unfold replace_current create in rw (same_level_refl level, current_count-retire t);
      newest =
          unfold replace_current create in
          ((λ _. omega arith), UpTo-mono level v version _ h (UpTo-retire v t u));
    }

    -- Another level keeps its bundle and its versions.
    pub replace_current-IsVersioned_other :
        (other : ConfidentialityLevel)
        → same_level other level ≡ false
        → same_level level other ≡ false
        → IsVersioned other t
        → IsVersioned other (replace_current level id (next_bundle level version admin sections) t)
    unfolding replace_current create newer
    replace_current-IsVersioned_other other apart apart' versioned = record {
      current = versioned.current;
      in_force = unfold latest in rw (apart', latest-retire_other other apart t) versioned.in_force;
      only =
          rw (apart', current_count-retire_other other apart t)
            (let one = versioned.only in omega arith);
      newest = ((λ e. cc), UpTo-retire_other other apart _ t versioned.newest);
    }

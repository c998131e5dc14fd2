-- ===== src/Retrieval/New.antt =====
-- Prisma's `create`: a new row never takes the key of one that is there.
use liminalis.Common.{
  ℕ, ◌≡◌, sym, subst, ◌∙◌, inl, inr, not, none, some, Option-cases, ◌==◌, ==_iff, Bool-cases,
  if◌then◌else◌, is_some,
}
use liminalis.Common.Exec.{database, guard, lift, gets, modify, ◌>>=◌, ◌>>◌}
use liminalis.Common.Exec.Keeps.{Keeps}
use liminalis.Common.Table.{Table, find, create, find-create}
use liminalis.Schema.{Database, Handler, unique_violation}

unfoldable pub require_new : {A : Type 0} → (Database → Table A) → ℕ → Handler (Unit {0})
require_new table id = do
  present ← gets (λ db. find id (table db))
  lift (guard (not (is_some present)) (database unique_violation))

unfoldable pub insert :
    {A : Type 0}
    → (Database → Table A)
    → (Table A → Database → Database)
    → ℕ
    → A
    → Handler (Unit {0})
insert table put id row = do require_new table id; modify (λ db. put (create id row (table db)) db)

-- A row that is added under a free key keeps what it should keep.
pub insert-Keeps :
    {A : Type 0} (P : Database → Type 0) (table : Database → Table A)
    (put : Table A → Database → Database) (id : ℕ) (row : A)
    → ((db : Database) → find id (table db) ≡ none → P db → P (put (create id row (table db)) db))
    → Keeps P (insert table put id row)
unfolding insert require_new gets lift modify ◌>>=◌
insert-Keeps P table put id row keep = record {
  at = λ db p. elim (Option-cases (find id (table db))) [
    | inl free ↦ rw (free) (keep db free p)
    | inr (other, present) ↦ rw (present) p
  ];
}

-- The rows that were there are found as before.
pub find-create_old :
    {A : Type 0} (id key : ℕ) (fresh row : A) (t : Table A)
    → find id t ≡ none
    → find key t ≡ some row
    → find key (create id fresh t) ≡ some row
find-create_old id key fresh row t free found = rw (find-create) (elim (Bool-cases (id == key)) [
  | inl e ↦
      let there : find id t ≡ some row =
        subst (λ i. find i t ≡ some row) (sym ((==_iff id key).0 e)) found in
      absurd (clash (sym free ∙ there))
  | inr e ↦ rw (e, if◌then◌else◌) found
])
  where
    clash : none ≡ some row → ⊥
    clash p = cc

-- ===== src/Common/Lists.antt =====
-- Lists measured by native numbers, predicates over lists, and sums.
use Prim.Native.Nat.{ℕ, suc, ◌+◌}
use mathlib.Core.Path.{◌≡◌, refl}
use mathlib.Core.Bool.{Bool, true}
use mathlib.Core.List.{List, [], ◌∷◌, ◌++◌}
use mathlib.Core.Option.{Option, none, some}
use mathlib.Core.Logic.{inl, inr}
use native.Mathlib.Omega.{arith}
use liminalis.Common.Tests.{if◌then◌else◌, Bool-cases}

module _ {ℓ} {A : Type ℓ} where
  abbrev pub length : List A → ℕ
  length [] = 0
  length (x ∷ xs) = suc (length xs)

  abbrev pub All {κ} : (A → Type κ) → List A → Type κ
  All P [] = Unit
  All P (x ∷ xs) = P x × All P xs

  -- The rows that a test keeps.
  unfoldable pub keep : (A → Bool) → List A → List A
  keep p [] = []
  keep p (x ∷ xs) = let rest = keep p xs in if p x then x ∷ rest else rest

  pub length-append : (xs ys : List A) → length (xs ++ ys) ≡ length xs + length ys
  length-append [] ys = omega arith
  length-append (x ∷ xs) ys = omega (arith, length-append xs ys)

  pub All-append {κ} : (P : A → Type κ) (xs ys : List A) → All P xs → All P ys → All P (xs ++ ys)
  All-append P [] ys h k = k
  All-append P (x ∷ xs) ys h k = (h.0, All-append P xs ys h.1 k)

  -- A row is written under a unique key: the first row that the test finds is replaced, else a new
  -- one is added.
  unfoldable pub upsert_row : (A → Bool) → A → List A → List A
  upsert_row same fresh [] = fresh ∷ []
  upsert_row same fresh (row ∷ rows) =
      let rest = upsert_row same fresh rows in if same row then fresh ∷ rows else row ∷ rest

  -- The first row that a test finds.
  unfoldable pub find_row : (A → Bool) → List A → Option A
  find_row same [] = none
  find_row same (row ∷ rows) = if same row then some row else find_row same rows

  pub find_row-upsert_row :
      (same : A → Bool) (fresh : A) (rows : List A)
      → same fresh ≡ true
      → find_row same (upsert_row same fresh rows) ≡ some fresh
  unfolding find_row upsert_row
  find_row-upsert_row same fresh [] h = rw (h) refl
  find_row-upsert_row same fresh (row ∷ rows) h = elim (Bool-cases (same row)) [
    | inl e ↦ rw (e, if◌then◌else◌, h) refl
    | inr e ↦ rw (e, if◌then◌else◌, e, if◌then◌else◌) (find_row-upsert_row same fresh rows h)
  ]

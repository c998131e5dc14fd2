-- ===== src/Projections/Rows.antt =====
-- What is found among rows that are written under a unique key and then filtered.
use liminalis.Common.{
  ◌≡◌, ◌∙◌, sym, refl, upsert_row, inl, inr, Bool, true, false, not, none, some, List, [], ◌∷◌,
  keep, Bool-cases, if◌then◌else◌, find_row,
}

module _ {A : Type 0} where
  -- No two rows pass a test.
  abbrev pub IsUnique : (A → Bool) → List A → Type 0
  IsUnique same [] = Unit
  IsUnique same (row ∷ rows) = (same row ≡ true → find_row same rows ≡ none) × IsUnique same rows

  absent_head :
      (same : A → Bool) (row : A) (rows : List A)
      → find_row same (row ∷ rows) ≡ none
      → (same row ≡ false) × (find_row same rows ≡ none)
  unfolding find_row
  absent_head same row rows h = elim (Bool-cases (same row)) [
    | inl e ↦ absurd (clash (rw (e, if◌then◌else◌) at h))
    | inr e ↦ (e, rw (e, if◌then◌else◌) at h)
  ]
    where
      clash : some row ≡ none → ⊥
      clash p = cc

  -- What is found after a row is written under its unique key, among the rows that are kept.
  module _ (shown kept same : A → Bool)
      (both : (row : A) → kept row ≡ true → shown row ≡ true → same row ≡ true) where
    find_row-skip :
        (row : A) (rows : List A)
        → same row ≡ false
        → find_row shown (if kept row then row ∷ rows else rows) ≡ find_row shown rows
    unfolding find_row
    find_row-skip row rows apart = elim (Bool-cases (kept row)) [
      | inl k ↦ elim (Bool-cases (shown row)) [
        | inl s ↦ absurd (clash (sym (both row k s) ∙ apart))
        | inr s ↦ rw (k, if◌then◌else◌, s, if◌then◌else◌) refl
      ]
      | inr k ↦ rw (k, if◌then◌else◌) refl
    ]
      where
        clash : true ≡ false → ⊥
        clash p = cc

    pub find_row-keep :
        (rows : List A) → find_row same rows ≡ none → find_row shown (keep kept rows) ≡ none
    unfolding keep
    find_row-keep [] h = unfold find_row in refl
    find_row-keep (row ∷ rows) h =
        let absent = absent_head same row rows h in
        find_row-skip row (keep kept rows) absent.0 ∙ find_row-keep rows absent.1

    find_row-head :
        (fresh : A) (rows : List A)
        → shown fresh ≡ true
        → find_row shown rows ≡ none
        → find_row shown (if kept fresh then fresh ∷ rows else rows)
          ≡ (if kept fresh then some fresh else none)
    unfolding find_row
    find_row-head fresh rows s h = elim (Bool-cases (kept fresh)) [
      | inl k ↦ rw (k, if◌then◌else◌, s, if◌then◌else◌) refl
      | inr k ↦ rw (k, if◌then◌else◌) h
    ]

    pub find_row-upsert :
        (fresh : A) (rows : List A)
        → shown fresh ≡ true
        → IsUnique same rows
        → find_row shown (keep kept (upsert_row same fresh rows))
          ≡ (if kept fresh then some fresh else none)
    unfolding keep upsert_row
    find_row-upsert fresh [] s u = find_row-head fresh [] s (unfold find_row in refl)
    find_row-upsert fresh (row ∷ rows) s u = elim (Bool-cases (same row)) [
      | inl e ↦
          rw (e, if◌then◌else◌)
            (find_row-head fresh (keep kept rows) s (find_row-keep rows (u.0 e)))
      | inr e ↦
          rw (e, if◌then◌else◌)
            (find_row-skip row (keep kept (upsert_row same fresh rows)) e
              ∙ find_row-upsert fresh rows s u.1)
    ]

  pub find_row-dropped :
      (same : A → Bool) (rows : List A) → find_row same (keep (λ row. not (same row)) rows) ≡ none
  unfolding find_row keep
  find_row-dropped same [] = refl
  find_row-dropped same (row ∷ rows) = elim (Bool-cases (same row)) [
    | inl e ↦ rw (e, if◌then◌else◌) (find_row-dropped same rows)
    | inr e ↦ rw (e, if◌then◌else◌, e, if◌then◌else◌) (find_row-dropped same rows)
  ]

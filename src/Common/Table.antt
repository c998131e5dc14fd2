-- ===== src/Common/Table.antt =====
-- A database table: rows under a number that stands for the primary key, newest first. Prisma's
-- `findUnique` by the key, by another unique column, `update`, `create` and `updateMany`.
pub mod Selection
use liminalis.Common.Tests.{◌==◌, if◌then◌else◌, ==_iff, Bool-cases}
use Prim.Native.Nat.{ℕ}
use mathlib.Core.Path.{◌∙◌, ap, ◌≡◌, refl, sym, subst, subst₂}
use mathlib.Core.Logic.{inl, inr}
use mathlib.Core.Bool.{Bool, true, false, ◌||◌}
use mathlib.Core.Option
use mathlib.Core.Option.{Option, none, some}
use mathlib.Core.List.{List, [], ◌∷◌, ◌++◌}
use native.Mathlib.Omega.{arith}

abbrev pub Table {ℓ} : Type ℓ → Type ℓ
Table A = List (ℕ × A)

abbrev pub contains : List ℕ → ℕ → Bool
contains [] id = false
contains (j ∷ js) id = j == id || contains js id

module _ {ℓ} {A : Type ℓ} where
  unfoldable pub find : ℕ → Table A → Option A
  find id [] = none
  find id ((j, a) ∷ t) = if j == id then some a else find id t

  -- The key and the row that a test on other columns selects first.
  unfoldable pub find_where : (A → Bool) → Table A → Option (ℕ × A)
  find_where p [] = none
  find_where p ((j, a) ∷ t) = if p a then some (j, a) else find_where p t

  unfoldable pub update : ℕ → (A → A) → Table A → Table A
  update id f [] = []
  update id f ((j, a) ∷ t) = if j == id then (j, f a) ∷ t else (j, a) ∷ update id f t

  unfoldable pub update_where : (A → Bool) → (A → A) → Table A → Table A
  update_where p f [] = []
  update_where p f ((j, a) ∷ t) = (j, if p a then f a else a) ∷ update_where p f t

  -- `updateMany` with `id: { in: ids }`.
  unfoldable pub update_keys : List ℕ → (A → A) → Table A → Table A
  update_keys ids f [] = []
  update_keys ids f ((j, a) ∷ t) = (j, if contains ids j then f a else a) ∷ update_keys ids f t

  -- `findMany`: the rows that a test selects, with their keys, the oldest first.
  unfoldable pub find_many : (A → Bool) → Table A → Table A
  find_many p [] = []
  find_many p ((j, a) ∷ t) = let rest = find_many p t in if p a then rest ++ (j, a) ∷ [] else rest

  abbrev pub keys : Table A → List ℕ
  keys [] = []
  keys ((j, a) ∷ t) = j ∷ keys t

  unfoldable pub delete : ℕ → Table A → Table A
  delete id [] = []
  delete id ((j, a) ∷ t) = if j == id then t else (j, a) ∷ delete id t

  unfoldable pub create : ℕ → A → Table A → Table A
  create id a t = (id, a) ∷ t

  -- A property of every row.
  abbrev pub Rows {κ} : (ℕ → A → Type κ) → Table A → Type κ
  Rows P [] = Unit
  Rows P ((j, a) ∷ t) = P j a × Rows P t

  pub find-update :
      (id j : ℕ) (f : A → A) (t : Table A)
      → find j (update id f t) ≡ (if id == j then Option.map f (find j t) else find j t)
  unfolding find update
  find-update id j f [] = ground arith
  find-update id j f ((i, a) ∷ t) = ground (arith, find-update id j f t)

  pub find-update_self :
      (id : ℕ) (f : A → A) (t : Table A) (a : A)
      → find id t ≡ some a
      → find id (update id f t) ≡ some (f a)
  unfolding find update
  find-update_self id f [] a h = ground arith
  find-update_self id f ((i, b) ∷ t) a h = ground (arith, find-update_self id f t a)

  pub find-create :
      (id j : ℕ) (a : A) (t : Table A)
      → find j (create id a t) ≡ (if id == j then some a else find j t)
  unfolding find create
  find-create id j a t = refl

module _ {ℓ κ} {A : Type ℓ} (P : ℕ → A → Type κ) where
  pub find-Rows : (id : ℕ) (t : Table A) (a : A) → find id t ≡ some a → Rows P t → P id a
  unfolding find
  find-Rows id [] a h all = cc
  find-Rows id ((j, b) ∷ t) a h all = elim (Bool-cases (j == id)) [
    | inl same ↦ subst₂ P ((==_iff j id).0 same) (ground arith) all.0
    | inr other ↦ find-Rows id t a (ground arith) all.1
  ]

  -- An update keeps a property of all rows if it keeps it at the row that it finds.
  pub update-Rows :
      (id : ℕ) (f : A → A) (t : Table A)
      → ((a : A) → find id t ≡ some a → P id a → P id (f a))
      → Rows P t
      → Rows P (update id f t)
  unfolding find update
  update-Rows id f [] h all = tt
  update-Rows id f ((j, a) ∷ t) h all = elim (Bool-cases (j == id)) [
    | inl same ↦
        let e : j ≡ id = (==_iff j id).0 same in
        rw (same, if◌then◌else◌)
          (subst (λ k. P k (f a)) (sym e) (h a (ground arith) (subst (λ k. P k a) e all.0)), all.1)
    | inr other ↦
        rw (other, if◌then◌else◌)
          (all.0, update-Rows id f t (λ b found keep. h b (ground arith) keep) all.1)
  ]

  pub update_where-Rows :
      (p : A → Bool) (f : A → A) (t : Table A)
      → ((id : ℕ) (a : A) → p a ≡ true → P id a → P id (f a))
      → Rows P t
      → Rows P (update_where p f t)
  unfolding update_where
  update_where-Rows p f [] h all = tt
  update_where-Rows p f ((j, a) ∷ t) h all = elim (Bool-cases (p a)) [
    | inl hit ↦ (rw (hit) (h j a hit all.0), update_where-Rows p f t h all.1)
    | inr miss ↦ (rw (miss) all.0, update_where-Rows p f t h all.1)
  ]

  pub delete-Rows : (id : ℕ) (t : Table A) → Rows P t → Rows P (delete id t)
  unfolding delete
  delete-Rows id [] all = tt
  delete-Rows id ((j, a) ∷ t) all = elim (Bool-cases (j == id)) [
    | inl same ↦ rw (same, if◌then◌else◌) all.1
    | inr other ↦ rw (other, if◌then◌else◌) (all.0, delete-Rows id t all.1)
  ]

-- No key stands in the table twice.
abbrev pub Distinct {ℓ} : {A : Type ℓ} → Table A → Type ℓ
Distinct [] = Unit
Distinct ((j, a) ∷ t) = (find j t ≡ none) × Distinct t

module _ {ℓ} {A : Type ℓ} where
  pub find-find_where :
      (p : A → Bool) (t : Table A) (id : ℕ) (a : A)
      → Distinct t
      → find_where p t ≡ some (id, a)
      → find id t ≡ some a
  unfolding find find_where
  find-find_where p [] id a d e = cc
  find-find_where p ((j, b) ∷ t) id a d e = elim (Bool-cases (p b)) [
    | inl hit ↦ ground arith
    | inr miss ↦
        let rest = find-find_where p t id a d.1 (rw (miss, if◌then◌else◌) at e) in
        ground (arith, d.0, rest)
  ]

  pub find_where-holds :
      (p : A → Bool) (t : Table A) (id : ℕ) (a : A) → find_where p t ≡ some (id, a) → p a ≡ true
  unfolding find_where
  find_where-holds p [] id a e = cc
  find_where-holds p ((j, b) ∷ t) id a e = ground (arith, find_where-holds p t id a)

  find-update-none :
      (id j : ℕ) (f : A → A) (t : Table A) → find j t ≡ none → find j (update id f t) ≡ none
  find-update-none id j f t e = rw (find-update, e) (ground arith)

  pub update-Distinct : (id : ℕ) (f : A → A) (t : Table A) → Distinct t → Distinct (update id f t)
  unfolding update
  update-Distinct id f [] d = tt
  update-Distinct id f ((j, a) ∷ t) d = elim (Bool-cases (j == id)) [
    | inl same ↦ rw (same, if◌then◌else◌) d
    | inr other ↦
        rw (other, if◌then◌else◌) (find-update-none id j f t d.0, update-Distinct id f t d.1)
  ]

-- ===== src/Common/Table/Selection.antt =====
-- The rows that a test selects, after a marking, a creation or an update.
use liminalis.Common.Tests.{◌==◌, if◌then◌else◌, ==_iff, Bool-cases}
use Prim.Native.Nat.{ℕ}
use mathlib.Core.Path.{◌∙◌, ap, ◌≡◌, refl, sym, subst}
use mathlib.Core.Logic.{inl, inr}
use mathlib.Core.Bool.{Bool, true, false}
use mathlib.Core.Option
use mathlib.Core.Option.{Option, none, some}
use mathlib.Core.List.{List, [], ◌∷◌, ◌++◌}
use native.Mathlib.Omega.{arith}
use liminalis.Common.Table.{
  Table, contains, find, find_where, find_many, update, update_keys, keys, create, Rows, Distinct,
  find-find_where,
}

-- The rows that a test selects, when they are marked so that it selects them no more.
contains-left : (js ks : List ℕ) (id : ℕ) → contains js id ≡ true → contains (js ++ ks) id ≡ true
contains-left [] ks id h = absurd (no h)
  where
    no : false ≡ true → ⊥
    no p = cc
contains-left (j ∷ js) ks id h = elim (Bool-cases (j == id)) [
  | inl same ↦ ground arith
  | inr other ↦ let rest = contains-left js ks id (rw (other) at h) in ground arith
]

contains-right : (js : List ℕ) (id : ℕ) → contains (js ++ id ∷ []) id ≡ true
contains-right [] id = ground arith
contains-right (j ∷ js) id = ground (arith, contains-right js id)

module _ {ℓ} {A : Type ℓ} where
  keys-append : (s t : Table A) → keys (s ++ t) ≡ keys s ++ keys t
  keys-append [] t = refl
  keys-append ((j, a) ∷ s) t = ap (λ ks. j ∷ ks) (keys-append s t)

  Rows-mono :
      {P Q : ℕ → A → Type 0} (t : Table A)
      → ((id : ℕ) (a : A) → P id a → Q id a)
      → Rows P t
      → Rows Q t
  Rows-mono [] h all = tt
  Rows-mono ((j, a) ∷ t) h all = (h j a all.0, Rows-mono t h all.1)

  pub find_many-keys :
      (p : A → Bool) (t : Table A)
      → Rows (λ id a. p a ≡ true → contains (keys (find_many p t)) id ≡ true) t
  unfolding find_many
  find_many-keys p [] = tt
  find_many-keys p ((j, b) ∷ t) = elim (Bool-cases (p b)) [
    | inl hit ↦
        subst
          (λ (found : Table A).
            Rows (λ id a. p a ≡ true → contains (keys found) id ≡ true) ((j, b) ∷ t))
          (sym (rw (hit, if◌then◌else◌) refl))
          (subst (λ ks. Rows (λ id a. p a ≡ true → contains ks id ≡ true) ((j, b) ∷ t))
            (sym (keys-append (find_many p t) ((j, b) ∷ [])))
            (
              (λ e. contains-right (keys (find_many p t)) j),
              Rows-mono t (λ id a k e. contains-left (keys (find_many p t)) (j ∷ []) id (k e))
                  (find_many-keys p t),
            ))
    | inr miss ↦
        subst
          (λ (found : Table A).
            Rows (λ id a. p a ≡ true → contains (keys found) id ≡ true) ((j, b) ∷ t))
          (sym (rw (miss, if◌then◌else◌) refl)) ((λ e. cc), find_many-keys p t)
  ]

  find_many-marked :
      (p : A → Bool) (f : A → A) (ids : List ℕ) (t : Table A)
      → ((a : A) → p (f a) ≡ false)
      → Rows (λ id a. p a ≡ true → contains ids id ≡ true) t
      → find_many p (update_keys ids f t) ≡ []
  unfolding find_many update_keys
  find_many-marked p f ids [] marked all = refl
  find_many-marked p f ids ((j, a) ∷ t) marked all = elim (Bool-cases (contains ids j)) [
    | inl inside ↦ rw (inside, if◌then◌else◌, marked a) (find_many-marked p f ids t marked all.1)
    | inr outside ↦ elim (Bool-cases (p a)) [
      | inl hit ↦ let k = all.0 hit in cc
      | inr miss ↦ rw (outside, if◌then◌else◌, miss) (find_many-marked p f ids t marked all.1)
    ]
  ]

  -- After the selected rows have been marked, the test selects none.
  pub find_many-drained :
      (p : A → Bool) (f : A → A) (t : Table A)
      → ((a : A) → p (f a) ≡ false)
      → find_many p (update_keys (keys (find_many p t)) f t) ≡ []
  find_many-drained p f t marked =
      find_many-marked p f (keys (find_many p t)) t marked (find_many-keys p t)

module _ {ℓ} {A : Type ℓ} where
  -- A new row comes last.
  pub find_many-create :
      (p : A → Bool) (id : ℕ) (a : A) (t : Table A)
      → find_many p (create id a t) ≡ (if p a then find_many p t ++ (id, a) ∷ [] else find_many p t)
  unfolding find_many create
  find_many-create p id a t = refl

module _ {ℓ} {A : Type ℓ} where
  -- Two updates of a row are one.
  pub update-update :
      (id : ℕ) (f g : A → A) (t : Table A)
      → update id g (update id f t) ≡ update id (λ a. g (f a)) t
  unfolding update
  update-update id f g [] = refl
  update-update id f g ((j, a) ∷ t) = elim (Bool-cases (j == id)) [
    | inl same ↦ rw (same, if◌then◌else◌, same, if◌then◌else◌)
    | inr other ↦ rw (other, if◌then◌else◌, other, if◌then◌else◌, update-update id f g t)
  ]

module _ {ℓ} {A : Type ℓ} where
  -- An update that a test does not notice changes the row that the test selects.
  pub find_where-update :
      (p : A → Bool) (f : A → A) (t : Table A) (id : ℕ) (a : A)
      → ((b : A) → p (f b) ≡ p b)
      → Distinct t
      → find_where p t ≡ some (id, a)
      → find_where p (update id f t) ≡ some (id, f a)
  unfolding find_where update
  find_where-update p f [] id a same d e = cc
  find_where-update p f ((j, b) ∷ t) id a same d e = elim (Bool-cases (p b)) [
    | inl hit ↦
        let found : some (j, b) ≡ some (id, a) = rw (hit) at e in
        let at_id : (j == id) ≡ true =
          (==_iff j id).1 (ap (λ o. elim o [ none ↦ j | some x ↦ x.0 ]) found) in
        rw (at_id, if◌then◌else◌)
          (rw (same b, hit) (ap (λ o. Option.map (λ x. (x.0, f x.1)) o) found))
    | inr miss ↦
        let found : find_where p t ≡ some (id, a) = rw (miss) at e in
        elim (Bool-cases (j == id)) [
          | inl at_id ↦
              let present = find-find_where p t id a d.1 found in
              absurd
                (clash (sym (subst (λ i. find i t ≡ none) ((==_iff j id).0 at_id) d.0) ∙ present))
          | inr other ↦
              rw (other, if◌then◌else◌, miss, if◌then◌else◌)
                (find_where-update p f t id a same d.1 found)
        ]
  ]
    where
      clash : none ≡ some a → ⊥
      clash q = cc

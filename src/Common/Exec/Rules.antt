-- ===== src/Common/Exec/Rules.antt =====
-- Rules that take a handler apart, for any property of its outcome (the result with the state).
use mathlib.Core.Path.{subst, ◌≡◌, refl, sym, ap}
use mathlib.Core.Option.{Option, none, some}
use native.Mathlib.Omega.{arith}
use liminalis.Common.Exec.{
  Error, Result, ok, err, Exec, lift, gets, modify, or_throw, transaction, rollback, continue,
  ◌>>=◌,
}

module _ {ℓ} {R S A B : Type ℓ} (P : Result R B × S → Type ℓ) where
  -- A check: on an error the outcome is that error in the same state.
  pub lift_rule :
      (r : Result R A) (f : A → Exec R S B) (s : S)
      → ((e : Error R) → r ≡ err e → P (err e, s))
      → ((a : A) → r ≡ ok a → P (f a s))
      → P ((lift r >>= f) s)
  unfolding lift ◌>>=◌
  lift_rule (ok a) f s bad good = good a refl
  lift_rule (err e) f s bad good = bad e refl

  pub or_throw_rule :
      (o : Option A) (e : Error R) (f : A → Exec R S B) (s : S)
      → P (err e, s)
      → ((a : A) → o ≡ some a → P (f a s))
      → P ((or_throw o e >>= f) s)
  unfolding or_throw ◌>>=◌
  or_throw_rule none e f s bad good = bad
  or_throw_rule (some a) e f s bad good = good a refl

  pub gets_rule : (g : S → A) (f : A → Exec R S B) (s : S) → P (f (g s) s) → P ((gets g >>= f) s)
  unfolding gets ◌>>=◌
  gets_rule g f s h = h

  -- Sequencing, when an outcome of the first part decides that of the whole.
  pub bind_rule :
      (m : Exec R S A) (f : A → Exec R S B) (s : S)
      → ((e : Error R) (s' : S) → m s ≡ (err e, s') → P (err e, s'))
      → ((a : A) (s' : S) → m s ≡ (ok a, s') → P (f a s'))
      → P ((m >>= f) s)
  unfolding ◌>>=◌
  bind_rule m f s bad good = go (m s) refl
    where
      go : (o : Result R A × S) → m s ≡ o → P (continue o.0 f o.1)
      go (ok a, s') e = good a s' e
      go (err x, s') e = bad x s' e

-- A first part whose outcome is known.
module _ {ℓ} {R S A B : Type ℓ} (m : Exec R S A) (f : A → Exec R S B) (s : S) {s' : S} where
  pub bind_ok : (a : A) → m s ≡ (ok a, s') → (m >>= f) s ≡ f a s'
  unfolding ◌>>=◌
  bind_ok a e = rw e

  pub bind_err : (x : Error R) → m s ≡ (err x, s') → (m >>= f) s ≡ (err x, s')
  unfolding ◌>>=◌
  bind_err x e = rw e

module _ {ℓ} {R S B : Type ℓ} (P : Result R B × S → Type ℓ) where
  pub modify_rule :
      (g : S → S) (f : Unit {ℓ} → Exec R S B) (s : S) → P (f tt (g s)) → P ((modify g >>= f) s)
  unfolding modify ◌>>=◌
  modify_rule g f s h = h

  pub transaction_rule :
      (m : Exec R S B) (s : S)
      → ((e : Error R) → P (err e, s))
      → ((b : B) (s' : S) → m s ≡ (ok b, s') → P (ok b, s'))
      → P (transaction m s)
  unfolding transaction
  transaction_rule m s bad good = go (m s) refl
    where
      go : (o : Result R B × S) → m s ≡ o → P (rollback s o)
      go (ok b, s') e = good b s' e
      go (err x, s') e = bad x

-- What a successful `or_throw` has found.
pub or_throw-ok {ℓ} :
    {R S A : Type ℓ} (o : Option A) (e : Error R) (a : A) (s s' : S)
    → or_throw o e s ≡ (ok a, s')
    → (s' ≡ s) × (o ≡ some a)
unfolding or_throw
or_throw-ok none e a s s' h = absurd (no_err (ap (λ o. o.0) h))
  where
    no_err : err e ≡ ok a → ⊥
    no_err p = cc
or_throw-ok (some b) e a s s' h = (ap (λ o. o.1) (sym h), ground arith)

-- A property of the outcomes that are no exception.
abbrev pub OnOk {ℓ} : {R S B : Type ℓ} (P : Result R B × S → Type ℓ) → Result R B × S → Type ℓ
OnOk P (ok b, s) = P (ok b, s)
OnOk P (err e, s) = Unit

module _ {ℓ} {R S B : Type ℓ} (P : Result R B × S → Type ℓ) where
  pub transaction_body_rule :
      (m : Exec R S B) (s : S) → ((e : Error R) → P (err e, s)) → OnOk P (m s) → P (transaction m s)
  transaction_body_rule m s bad body = transaction_rule P m s bad λ b s' h. subst (OnOk P) h body

-- ===== src/Common/Exec.antt =====
-- Request handlers: actions on the stored state that may end in an HTTP exception. What was
-- written before an exception stays written, except inside a transaction.
pub mod Rules
pub mod Leaves
pub mod Keeps
use mathlib.Core.Path.{◌≡◌, refl}
use mathlib.Core.Logic.{◌⊎◌, inl, inr}
use mathlib.Core.Bool.{Bool, true, false}
use mathlib.Core.Option.{Option, none, some}

-- The exceptions of @nestjs/common that the handlers throw, with a reason in place of the message.
-- `database` is an error that the database client raises by itself.
pub data Error {ℓ} (R : Type ℓ) : Type ℓ where
  bad_request forbidden not_found too_many_requests payload_too_large database : R → Error R

pub data Result {ℓ} (R A : Type ℓ) : Type ℓ where
  ok : A → Result R A
  err : Error R → Result R A

abbrev pub Exec {ℓ} : Type ℓ → Type ℓ → Type ℓ → Type ℓ
Exec R S A = S → Result R A × S

module _ {ℓ} {R S A : Type ℓ} where
  unfoldable pub pure : A → Exec R S A
  pure a s = (ok a, s)

  unfoldable pub throw : Error R → Exec R S A
  throw e s = (err e, s)

  -- A check that reads no state.
  unfoldable pub lift : Result R A → Exec R S A
  lift r s = (r, s)

  unfoldable pub gets : (S → A) → Exec R S A
  gets f s = (ok (f s), s)

  unfoldable pub or_throw : Option A → Error R → Exec R S A
  or_throw none e s = (err e, s)
  or_throw (some a) e s = (ok a, s)

  abbrev pub rollback : S → Result R A × S → Result R A × S
  rollback s (ok a, s') = (ok a, s')
  rollback s (err e, s') = (err e, s)

  -- `prisma.$transaction`: an exception undoes the writes of its body.
  unfoldable pub transaction : Exec R S A → Exec R S A
  transaction m s = rollback s (m s)

module _ {ℓ} {R S : Type ℓ} where
  unfoldable pub modify : (S → S) → Exec R S (Unit {ℓ})
  modify f s = (ok tt, f s)

module _ {ℓ} {R S A B : Type ℓ} where
  abbrev pub continue : Result R A → (A → Exec R S B) → Exec R S B
  continue (ok a) f s = f a s
  continue (err e) f s = (err e, s)

  infixl 5 ◌>>=◌ ◌>>◌
  unfoldable pub ◌>>=◌ : Exec R S A → (A → Exec R S B) → Exec R S B
  ◌>>=◌ m f s = let (r, s') = m s in continue r f s'

  abbrev pub ◌>>◌ : Exec R S A → Exec R S B → Exec R S B
  m >> n = m >>= λ _. n

-- Checks, as values.
abbrev pub guard {ℓ} : {R : Type ℓ} → Bool → Error R → Result R (Unit {ℓ})
guard true e = ok tt
guard false e = err e

module _ {ℓ} {R A B : Type ℓ} where
  abbrev pub and_then : Result R A → (A → Result R B) → Result R B
  and_then (ok a) f = f a
  and_then (err e) f = err e

-- Whether a result is no error.
abbrev pub is_ok {ℓ} : {R A : Type ℓ} → Result R A → Bool
is_ok (ok a) = true
is_ok (err e) = false

module _ {ℓ} {R A : Type ℓ} where
  pub Result-cases : (r : Result R A) → ((e : Error R) × (r ≡ err e)) ⊎ ((a : A) × (r ≡ ok a))
  Result-cases (ok a) = inr (a, refl)
  Result-cases (err e) = inl (e, refl)

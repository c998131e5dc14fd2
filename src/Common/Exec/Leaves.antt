-- ===== src/Common/Exec/Leaves.antt =====
-- Handlers that leave a part of the state as it is, whatever their result.
use mathlib.Core.Path.{◌≡◌, refl, sym, ap, ◌∙◌}
use mathlib.Core.Option.{Option, none, some}
use liminalis.Common.Exec.{
  Error, Result, Exec, pure, throw, lift, gets, modify, or_throw, transaction, ◌>>=◌,
}
use liminalis.Common.Exec.Rules.{bind_rule, transaction_rule}

-- `view` reads the part.
pub record Leaves {ℓ} {R S X A : Type ℓ} (view : S → X) (m : Exec R S A) : Type ℓ where
  pub at : (s : S) → view (m s).1 ≡ view s

module _ {ℓ} {R S X A : Type ℓ} (view : S → X) where
  pub Leaves-pure : (a : A) → Leaves view (pure {R = R} a)
  unfolding pure
  Leaves-pure a = record { at = λ s. refl }

  pub Leaves-throw : (e : Error R) → Leaves view (throw {A = A} e)
  unfolding throw
  Leaves-throw e = record { at = λ s. refl }

  pub Leaves-lift : (r : Result R A) → Leaves view (lift r)
  unfolding lift
  Leaves-lift r = record { at = λ s. refl }

  pub Leaves-gets : (f : S → A) → Leaves view (gets {R = R} f)
  unfolding gets
  Leaves-gets f = record { at = λ s. refl }

  pub Leaves-or_throw : (o : Option A) (e : Error R) → Leaves view (or_throw o e)
  unfolding or_throw
  Leaves-or_throw none e = record { at = λ s. refl }
  Leaves-or_throw (some a) e = record { at = λ s. refl }

  pub Leaves-transaction : (m : Exec R S A) → Leaves view m → Leaves view (transaction m)
  Leaves-transaction m h = record {
    at = λ s.
        transaction_rule (λ o. view o.1 ≡ view s) m s (λ e. refl)
          λ a s' e. ap (λ (o : Result R A × S). view o.1) (sym e) ∙ h.at s;
  }

module _ {ℓ} {R S X : Type ℓ} (view : S → X) where
  pub Leaves-modify : (f : S → S) → ((s : S) → view (f s) ≡ view s) → Leaves view (modify {R = R} f)
  unfolding modify
  Leaves-modify f h = record { at = h }

module _ {ℓ} {R S X A B : Type ℓ} (view : S → X) where
  pub Leaves-bind :
      (m : Exec R S A) (f : A → Exec R S B)
      → Leaves view m
      → ((a : A) → Leaves view (f a))
      → Leaves view (m >>= f)
  Leaves-bind m f lm lf = record {
    at = λ s.
        bind_rule (λ o. view o.1 ≡ view s) m f s
          (λ e s' h. ap (λ (o : Result R A × S). view o.1) (sym h) ∙ lm.at s)
          (λ a s' h. (lf a).at s' ∙ (ap (λ (o : Result R A × S). view o.1) (sym h) ∙ lm.at s));
  }

-- The same of an outcome that is known.
pub outcome-Leaves {ℓ} :
    {R S X A : Type ℓ} {view : S → X} {m : Exec R S A} {s s' : S} {r : Result R A}
    → Leaves view m
    → m s ≡ (r, s')
    → view s' ≡ view s
outcome-Leaves {R} {S} {A} {view} {s} h e = ap (λ (o : Result R A × S). view o.1) (sym e) ∙ h.at s

pub ruleset leaves_rules = (
  Leaves-pure, Leaves-throw, Leaves-lift, Leaves-gets, Leaves-or_throw, Leaves-modify,
  Leaves-transaction, Leaves-bind,
)

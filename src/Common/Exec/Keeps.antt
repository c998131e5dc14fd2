-- ===== src/Common/Exec/Keeps.antt =====
-- Handlers that keep a property of the state, whatever their result.
use mathlib.Core.Path.{◌≡◌, subst}
use mathlib.Core.Bool.{Bool, true, false}
use mathlib.Core.Option.{Option, none, some}
use liminalis.Common.Tests.{if◌then◌else◌}
use liminalis.Common.Exec.{
  Error, Result, Exec, pure, throw, lift, gets, modify, or_throw, transaction, ◌>>=◌,
}
use liminalis.Common.Exec.Rules.{bind_rule, transaction_rule}

pub record Keeps {ℓ} {R S A : Type ℓ} (P : S → Type ℓ) (m : Exec R S A) : Type ℓ where
  pub at : (s : S) → P s → P (m s).1

module _ {ℓ} {R S A : Type ℓ} (P : S → Type ℓ) where
  pub Keeps-pure : (a : A) → Keeps P (pure {R = R} a)
  unfolding pure
  Keeps-pure a = record { at = λ s h. h }

  pub Keeps-throw : (e : Error R) → Keeps P (throw {A = A} e)
  unfolding throw
  Keeps-throw e = record { at = λ s h. h }

  pub Keeps-lift : (r : Result R A) → Keeps P (lift r)
  unfolding lift
  Keeps-lift r = record { at = λ s h. h }

  pub Keeps-gets : (f : S → A) → Keeps P (gets {R = R} f)
  unfolding gets
  Keeps-gets f = record { at = λ s h. h }

  pub Keeps-or_throw : (o : Option A) (e : Error R) → Keeps P (or_throw o e)
  unfolding or_throw
  Keeps-or_throw none e = record { at = λ s h. h }
  Keeps-or_throw (some a) e = record { at = λ s h. h }

  pub Keeps-if :
      (b : Bool) (m n : Exec R S A) → Keeps P m → Keeps P n → Keeps P (if b then m else n)
  Keeps-if true m n hm hn = hm
  Keeps-if false m n hm hn = hn

  pub Keeps-transaction : (m : Exec R S A) → Keeps P m → Keeps P (transaction m)
  Keeps-transaction m h = record {
    at = λ s p.
        transaction_rule (λ o. P o.1) m s (λ e. p)
          λ a s' e. subst (λ (o : Result R A × S). P o.1) e (h.at s p);
  }

module _ {ℓ} {R S : Type ℓ} (P : S → Type ℓ) where
  pub Keeps-modify : (f : S → S) → ((s : S) → P s → P (f s)) → Keeps P (modify {R = R} f)
  unfolding modify
  Keeps-modify f h = record { at = h }

module _ {ℓ} {R S A B : Type ℓ} (P : S → Type ℓ) where
  pub Keeps-bind :
      (m : Exec R S A) (f : A → Exec R S B)
      → Keeps P m
      → ((a : A) → Keeps P (f a))
      → Keeps P (m >>= f)
  Keeps-bind m f km kf = record {
    at = λ s p.
        bind_rule (λ o. P o.1) m f s (λ e s' h. subst (λ (o : Result R A × S). P o.1) h (km.at s p))
          (λ a s' h. (kf a).at s' (subst (λ (o : Result R A × S). P o.1) h (km.at s p)));
  }

-- The same of an outcome that is known.
pub outcome-Keeps {ℓ} :
    {R S A : Type ℓ} {P : S → Type ℓ} {m : Exec R S A} {s s' : S} {r : Result R A}
    → Keeps P m
    → P s
    → m s ≡ (r, s')
    → P s'
outcome-Keeps {R} {S} {A} {P} {m} {s} k p e = subst (λ (o : Result R A × S). P o.1) e (k.at s p)

pub ruleset keeps_rules = (
  Keeps-pure, Keeps-throw, Keeps-lift, Keeps-gets, Keeps-or_throw, Keeps-modify, Keeps-if,
  Keeps-transaction, Keeps-bind,
)

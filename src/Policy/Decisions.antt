-- ===== src/Policy/Decisions.antt =====
-- What each policy decision accepts, against a description of the accepted values that does not
-- mention the checks.
use liminalis.Common.{
  ℕ, zero, suc, ◌≤◌, ◌≡◌, refl, ◌↔◌, Bool, true, false, not, ◌&&◌, Option, none, some, arith,
  coalesce,
}
use liminalis.Common.Int.{pos, negsuc, pos_part}
use liminalis.Common.Exec.{is_ok, Error, Result, guard, and_then}
use liminalis.Schema.{
  PolicyBundle, Num, nan, int, default_validity_minutes, maximum_validity_minutes,
  allow_never_expire, allow_outward_sharing, allow_user_targeted_sharing, allow_password_extraction,
  allow_public_links, default_share_validity_minutes, maximum_share_validity_minutes,
  maximum_retrieval_count, maximum_public_link_validity_minutes, maximum_public_link_download_count,
  allow_live_transfer, is_text, allow_grouped_or_large_live_transfer,
}
use liminalis.Policy.Numbers.{to_number, to_nullable_number, truthy, is_zero, le_zero, exceeds}
use liminalis.Policy.Evaluate.{
  SourceInput, source_decision, ShareInput, share_decision, some_le_zero, some_exceeds,
  ExtractionInput, extraction_decision, PublicLinkInput, public_link_decision, LiveInput,
  live_decision,
}

and_true : (b : Bool) → (b && true) ≡ b
and_true true = refl
and_true false = refl

and_swap : (a b c d : Bool) → (a && (b && (c && d))) ≡ ((a && c) && (b && d))
and_swap a b c d = ground arith

is_ok-guard {ℓ} :
    {R : Type ℓ} {A : Type ℓ} (b : Bool) (e : Error R) (r : Unit {ℓ} → Result R A)
    → is_ok (and_then (guard b e) r) ≡ (b && is_ok (r tt))
is_ok-guard true e r = refl
is_ok-guard false e r = refl

-- At most the maximum, where there is one; NaN is no maximum.
abbrev pub AtMost : Option Num → ℕ → Type 0
AtMost (some (int m)) n = n ≤ pos_part m
AtMost _ n = Unit

-- A number that passes as a positive quantity: NaN does, since it fails every comparison.
abbrev pub Positive : Option Num → Num → Type 0
Positive maximum nan = Unit
Positive maximum (int (pos zero)) = ⊥
Positive maximum (int (pos (suc n))) = AtMost maximum (suc n)
Positive maximum (int (negsuc n)) = ⊥

-- 0 stands for a life without end.
abbrev pub Permitted : Bool → Option Num → Num → Type 0
Permitted never maximum (int (pos zero)) = never ≡ true
Permitted never maximum value = Positive maximum value

-- The checks that a source item's validity passes, and those of a count or another validity.
source_checks : Bool → Option Num → Num → Bool
source_checks never maximum value =
    not (is_zero value && not never)
    && (not (not (is_zero value) && le_zero value)
        && not (not (is_zero value) && exceeds value maximum))

positive_checks : Option Num → Num → Bool
positive_checks maximum value = not (le_zero value) && not (exceeds value maximum)

source_checks_iff :
    (never : Bool) (maximum : Option Num) (value : Num)
    → (source_checks never maximum value ≡ true) ↔ Permitted never maximum value
unfolding source_checks
source_checks_iff never maximum nan = ground arith
source_checks_iff never maximum (int (pos zero)) = ground arith
source_checks_iff never none (int (pos (suc n))) = ground arith
source_checks_iff never (some nan) (int (pos (suc n))) = ground arith
source_checks_iff never (some (int (pos m))) (int (pos (suc n))) = ground arith
source_checks_iff never (some (int (negsuc m))) (int (pos (suc n))) = ground arith
source_checks_iff never maximum (int (negsuc n)) = ground arith

positive_checks_iff :
    (maximum : Option Num) (value : Num)
    → (positive_checks maximum value ≡ true) ↔ Positive maximum value
unfolding positive_checks
positive_checks_iff none nan = ground arith
positive_checks_iff (some m) nan = ground arith
positive_checks_iff maximum (int (pos zero)) = ground arith
positive_checks_iff none (int (pos (suc n))) = ground arith
positive_checks_iff (some nan) (int (pos (suc n))) = ground arith
positive_checks_iff (some (int (pos m))) (int (pos (suc n))) = ground arith
positive_checks_iff (some (int (negsuc m))) (int (pos (suc n))) = ground arith
positive_checks_iff maximum (int (negsuc n)) = ground arith

-- A requested quantity is positive and at most the maximum; none need be requested.
abbrev pub Requested : Option Num → Option Num → Type 0
Requested maximum none = Unit
Requested maximum (some value) = Positive maximum value

Requested-positive_iff :
    (value : Option Num) → (not (some_le_zero value) ≡ true) ↔ Requested none value
Requested-positive_iff none = ground arith
Requested-positive_iff (some nan) = ground arith
Requested-positive_iff (some (int (pos zero))) = ground arith
Requested-positive_iff (some (int (pos (suc n)))) = ground arith
Requested-positive_iff (some (int (negsuc n))) = ground arith

and_iff :
    {P Q : Type 0} (a b : Bool) → (a ≡ true) ↔ P → (b ≡ true) ↔ Q → ((a && b) ≡ true) ↔ (P × Q)
and_iff true b f g = (λ e. (f.0 refl, g.0 e), λ h. g.1 h.1)
and_iff false b f g = (λ e. cc, λ h. f.1 h.0)

and_and_iff :
    {P : Type 0} (a b c : Bool)
    → (c ≡ true) ↔ P
    → ((a && (b && c)) ≡ true) ↔ ((a ≡ true) × (b ≡ true) × P)
and_and_iff true true c f = (λ e. (refl, refl, f.0 e), λ h. f.1 h.2)
and_and_iff true false c f = (λ e. cc, λ h. cc)
and_and_iff false b c f = (λ e. cc, λ h. cc)

-- The checks of a link, in the order of the code.
link_checks_iff :
    (maximum_validity maximum_count validity : Option Num) (count : Num)
    → ((not (some_le_zero validity)
          && (not (le_zero count)
              && (not (some_exceeds validity maximum_validity)
                  && not (exceeds count maximum_count))))
        ≡ true)
      ↔ (Requested maximum_validity validity × Positive maximum_count count)
unfolding positive_checks
link_checks_iff maximum_validity maximum_count none count =
    let f = positive_checks_iff maximum_count count in (λ e. (tt, f.0 e), λ h. f.1 h.1)
link_checks_iff maximum_validity maximum_count (some value) count =
    let f = positive_checks_iff maximum_validity value in
    let g = positive_checks_iff maximum_count count in
    rw
      (and_swap (not (le_zero value)) (not (le_zero count)) (not (exceeds value maximum_validity))
        (not (exceeds count maximum_count)))
      (and_iff _ _ f g)

live_checks_iff :
    (allowed text grouped grouped_allowed : Bool)
    → ((allowed && (not text && not (grouped && not grouped_allowed))) ≡ true)
      ↔ ((allowed ≡ true) × (text ≡ false) × (grouped ≡ true → grouped_allowed ≡ true))
live_checks_iff allowed text false grouped_allowed = ground arith
live_checks_iff allowed text true grouped_allowed = ground arith

-- A source item is accepted exactly when its validity, the level's default where none is
-- requested, is 0 at a level that allows endless items, or else positive and at most the maximum;
-- NaN, which a missing default gives, is accepted.
pub source_decision_iff :
    (input : SourceInput) (id : ℕ) (bundle : PolicyBundle)
    → (is_ok (source_decision input (id, bundle)) ≡ true)
      ↔ Permitted
          (truthy (bundle.lifecycle allow_never_expire))
          (to_nullable_number (bundle.lifecycle maximum_validity_minutes))
          (coalesce input.requested_validity_minutes
            (to_number (bundle.lifecycle default_validity_minutes)))
unfolding source_decision source_checks
source_decision_iff input id bundle = simp (is_ok-guard, and_true) (source_checks_iff _ _ _)

-- A share is accepted exactly when the level allows outward and user-targeted sharing and its
-- validity, the level's default where none is requested, is positive and at most the maximum; NaN,
-- which a missing default gives, is accepted.
pub share_decision_iff :
    (input : ShareInput) (id : ℕ) (bundle : PolicyBundle)
    → (is_ok (share_decision input (id, bundle)) ≡ true)
      ↔ (truthy (bundle.share_availability allow_outward_sharing) ≡ true)
        × (truthy (bundle.share_availability allow_user_targeted_sharing) ≡ true)
        × Positive
            (to_nullable_number (bundle.user_targeted_sharing maximum_share_validity_minutes))
            (coalesce input.requested_validity_minutes
              (to_number (bundle.user_targeted_sharing default_share_validity_minutes)))
unfolding share_decision positive_checks
share_decision_iff input id bundle =
    simp (is_ok-guard, and_true) (and_and_iff _ _ _ (positive_checks_iff _ _))

-- An extraction is accepted exactly when the level allows outward sharing and password extraction,
-- the validity, where one is requested, is positive, and the retrieval count, 1 where none is
-- requested, is positive and at most the maximum.
pub extraction_decision_iff :
    (input : ExtractionInput) (id : ℕ) (bundle : PolicyBundle)
    → (is_ok (extraction_decision input (id, bundle)) ≡ true)
      ↔ (truthy (bundle.share_availability allow_outward_sharing) ≡ true)
        × (truthy (bundle.share_availability allow_password_extraction) ≡ true)
        × (Requested none input.requested_validity_minutes
            × Positive
                (to_nullable_number (bundle.password_extraction maximum_retrieval_count))
                (coalesce input.requested_retrieval_count (int (pos 1))))
unfolding extraction_decision positive_checks
extraction_decision_iff input id bundle =
    simp (is_ok-guard, and_true)
      (and_and_iff _ _ _ (
        and_iff _ _ (Requested-positive_iff input.requested_validity_minutes)
          (positive_checks_iff _ _)))

-- A public link is accepted exactly when the level allows outward sharing and public links, the
-- validity, where one is requested, is positive and at most its maximum, and the download count, 1
-- where none is requested, is positive and at most its maximum.
pub public_link_decision_iff :
    (input : PublicLinkInput) (id : ℕ) (bundle : PolicyBundle)
    → (is_ok (public_link_decision input (id, bundle)) ≡ true)
      ↔ (truthy (bundle.share_availability allow_outward_sharing) ≡ true)
        × (truthy (bundle.share_availability allow_public_links) ≡ true)
        × (Requested
              (to_nullable_number (bundle.public_links maximum_public_link_validity_minutes))
              input.requested_validity_minutes
            × Positive
                (to_nullable_number (bundle.public_links maximum_public_link_download_count))
                (coalesce input.requested_download_count (int (pos 1))))
unfolding public_link_decision
public_link_decision_iff input id bundle =
    simp (is_ok-guard, and_true)
      (and_and_iff _ _ _ (
        link_checks_iff
          (to_nullable_number (bundle.public_links maximum_public_link_validity_minutes))
          (to_nullable_number (bundle.public_links maximum_public_link_download_count))
          input.requested_validity_minutes (coalesce input.requested_download_count (int (pos 1)))))

-- A live transfer is accepted exactly when the level allows live transfer, the content is not
-- self-space text, and a transfer that is declared as grouped is allowed to be.
pub live_decision_iff :
    (input : LiveInput) (id : ℕ) (bundle : PolicyBundle)
    → (is_ok (live_decision input (id, bundle)) ≡ true)
      ↔ (truthy (bundle.live_transfer allow_live_transfer) ≡ true)
        × (is_text input.content_kind ≡ false)
        × (input.grouped_transfer ≡ true
            → truthy (bundle.live_transfer allow_grouped_or_large_live_transfer) ≡ true)
unfolding live_decision
live_decision_iff input id bundle =
    simp (is_ok-guard, and_true) (live_checks_iff _ _ input.grouped_transfer _)

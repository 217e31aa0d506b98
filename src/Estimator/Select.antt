-- ===== src/Estimator/Select.antt =====
-- Which coefficients a prediction of deltaserve/estimator.py uses, and when it raises.
use delta_serve_v_llm.Common.{◌≡◌, ◌↔◌, Bool, true, false, Option, none, arith, is_some}
use delta_serve_v_llm.Estimator.Features.{
  Regime, inf_prefill, eager, decode_only, decode_bwd, ft_mixed, StepFeatures,
}
use delta_serve_v_llm.Estimator.{
  Floats, StepParams, Estimator, is_fitted, eval, is_ready, select, predict, asked,
}

eval-is_fitted :
    {F : Type 0} (fl : Floats F) (p : StepParams F) (f : StepFeatures)
    → is_some (eval fl p f) ≡ is_fitted p
unfolding eval is_fitted
eval-is_fitted fl p f = ground arith

-- Only the regime of contended decodes has been fitted.
abbrev pub IsOnlyContended : {F : Type 0} → Estimator F → Type 0
IsOnlyContended e =
    (is_fitted (e.params decode_bwd) ≡ true)
    × (is_fitted (e.params inf_prefill) ≡ false)
    × (is_fitted (e.params eager) ≡ false)
    × (is_fitted (e.params decode_only) ≡ false)
    × (is_fitted (e.params ft_mixed) ≡ false)

-- What `select` finds is fitted, except over an estimator without a fit for the fallbacks.
select-IsFitted :
    {F : Type 0} (e : Estimator F) (r : Regime)
    → is_ready e ≡ true
    → (is_fitted (e.params (select e r)) ≡ false)
      ↔ (IsOnlyContended e × (is_fitted (e.params r) ≡ false))
unfolding select is_ready
select-IsFitted e inf_prefill h = (λ x. ground arith, λ x. ground arith)
select-IsFitted e eager h = (λ x. ground arith, λ x. ground arith)
select-IsFitted e decode_only h = (λ x. ground arith, λ x. ground arith)
select-IsFitted e decode_bwd h = (λ x. ground arith, λ x. ground arith)
select-IsFitted e ft_mixed h = (λ x. ground arith, λ x. ground arith)

-- A prediction raises exactly when contended decodes are the only regime that has been fitted and
-- another regime is asked for: no fallback reads their coefficients. In all other states it returns
-- a duration, before any fit as well.
pub predict-fails :
    {F : Type 0} (fl : Floats F) (split : Bool) (e : Estimator F) (f : StepFeatures)
    (r : Option Regime) (apply : Bool)
    → (predict fl split e f r apply ≡ none)
      ↔ (IsOnlyContended e × (is_fitted (e.params (asked split f r)) ≡ false))
unfolding predict is_ready
predict-fails fl split e f r apply = (
  λ x. ground (
    arith,
    eval-is_fitted fl (e.params (select e (asked split f r))) f,
    select-IsFitted e (asked split f r),
  ),
  λ x. ground (
    arith,
    eval-is_fitted fl (e.params (select e (asked split f r))) f,
    select-IsFitted e (asked split f r),
  ),
)

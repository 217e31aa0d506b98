-- ===== src/Estimator.antt =====
-- deltaserve/estimator.py: the step-time model per regime, its selection and its fit.
-- Floats are a parameter `F` with the operations of `Floats`; `lstsq` (numpy's least squares) and
-- `rmse` (the root of the mean squared error) are arguments. `None * x` raises: that is `none`.
pub mod Features
pub mod Tracker
pub mod Select
pub mod Fit
pub mod Refit
pub mod Tests
use delta_serve_v_llm.Common.{
  ◌>>=◌, ℕ, suc, ◌+◌, Bool, true, false, not, ◌&&◌, ◌||◌, Option, none, some, List, [], ◌∷◌, ◌++◌,
  ltb, ◌==◌, if◌then◌else◌, length, is_some, map,
}
use delta_serve_v_llm.Estimator.Features.{
  Regime, inf_prefill, eager, decode_only, decode_bwd, ft_mixed, StepFeatures, sum_squares,
  regime_of, contended,
}

pub record Floats (F : Type 0) : Type 0 where
  pub of_nat : ℕ → F
  pub add : F → F → F
  pub mul : F → F → F
  pub div : F → F → F
  -- 1.5, `x != 0` and `max(0.0, x)`
  pub three_halves : F
  pub is_truthy : F → Bool
  pub clip : F → F

pub record StepParams (F : Type 0) : Type 0 where
  pub alpha : Option F
  pub beta : Option F
  pub gamma : Option F
  pub delta : Option F
  pub epsilon : Option F
  pub c : Option F

abbrev pub unfitted : {F : Type 0} → StepParams F
unfitted = record {
  alpha = none;
  beta = none;
  gamma = none;
  delta = none;
  epsilon = none;
  c = none;
}

unfoldable pub is_fitted : {F : Type 0} → StepParams F → Bool
is_fitted p =
    is_some p.alpha
    && is_some p.beta
    && is_some p.gamma
    && is_some p.delta
    && is_some p.epsilon
    && is_some p.c

-- Σ nᵢ², or the proxy t_in² / p.
unfoldable pub s_of : {F : Type 0} → Floats F → StepFeatures → F
unfolding sum_squares
s_of fl f = elim f.prefill_lens [
  | [] ↦
      if ltb 0 f.p
      then fl.div (fl.mul (fl.of_nat f.t_in) (fl.of_nat f.t_in)) (fl.of_nat f.p)
      else fl.of_nat 0
  | n ∷ ns ↦ fl.of_nat (sum_squares (n ∷ ns))
]

-- The six-term formula, for coefficients that are all there.
unfoldable pub formula : {F : Type 0} → Floats F → StepFeatures → F → F → F → F → F → F → F
formula fl f alpha beta gamma delta epsilon c =
    let open_sum = fl.add (fl.mul alpha (s_of fl f)) (fl.mul beta (fl.of_nat f.t_in)) in
    let ft_sum = fl.add open_sum (fl.mul gamma (fl.of_nat f.t_ft)) in
    let decode_sum = fl.add ft_sum (fl.mul delta (fl.of_nat f.b_d)) in
    fl.add (fl.add decode_sum (fl.mul epsilon (fl.of_nat f.k))) c

unfoldable pub eval : {F : Type 0} → Floats F → StepParams F → StepFeatures → Option F
unfolding formula
eval fl p f = do
  alpha ← p.alpha
  beta ← p.beta
  gamma ← p.gamma
  delta ← p.delta
  epsilon ← p.epsilon
  c ← p.c
  some (formula fl f alpha beta gamma delta epsilon c)

pub record Estimator (F : Type 0) : Type 0 where
  pub params : Regime → StepParams F
  pub rmse : Regime → Option F

unfoldable pub init : {F : Type 0} → Estimator F
init = record { params = λ r. unfitted; rmse = λ r. none }

abbrev pub regimes : List Regime
regimes = inf_prefill ∷ eager ∷ decode_only ∷ decode_bwd ∷ ft_mixed ∷ []

abbrev pub any_fitted : {F : Type 0} → Estimator F → List Regime → Bool
any_fitted e [] = false
any_fitted e (r ∷ rs) = is_fitted (e.params r) || any_fitted e rs

unfoldable pub is_ready : {F : Type 0} → Estimator F → Bool
is_ready e = any_fitted e regimes

abbrev pub fallback_order : Regime → List Regime
fallback_order decode_bwd = decode_only ∷ eager ∷ ft_mixed ∷ inf_prefill ∷ decode_only ∷ []
fallback_order ft_mixed = eager ∷ eager ∷ ft_mixed ∷ inf_prefill ∷ decode_only ∷ []
fallback_order r = eager ∷ ft_mixed ∷ inf_prefill ∷ decode_only ∷ []

-- The first fitted regime of the list, and else `r`.
abbrev pub first_fitted : {F : Type 0} → Estimator F → List Regime → Regime → Regime
first_fitted e [] r = r
first_fitted e (x ∷ xs) r = if is_fitted (e.params x) then x else first_fitted e xs r

-- `_select` with the regime already derived; its parameters are `e.params` there.
unfoldable pub select : {F : Type 0} → Estimator F → Regime → Regime
select e r = if is_fitted (e.params r) then r else first_fitted e (fallback_order r) r

abbrev pub asked : Bool → StepFeatures → Option Regime → Regime
asked split f none = regime_of split f
asked split f (some r) = r

unfoldable pub select_regime :
    {F : Type 0} → Bool → Estimator F → StepFeatures → Option Regime → Option Regime
unfolding is_ready select
select_regime split e f r = if is_ready e then some (select e (asked split f r)) else none

abbrev pub with_margin : {F : Type 0} → Floats F → Bool → Option F → F → F
with_margin fl apply none x = x
with_margin fl apply (some m) x =
    if apply && fl.is_truthy m
    then fl.mul x (fl.add (fl.of_nat 1) (fl.mul fl.three_halves m))
    else x

unfoldable pub predict :
    {F : Type 0} → Floats F → Bool → Estimator F → StepFeatures → Option Regime → Bool → Option F
unfolding is_ready select eval
predict fl split e f r apply =
    let chosen = select e (asked split f r) in
    let scored : Option _ = (do
      x ← eval fl (e.params chosen) f
      some (fl.clip (with_margin fl apply (e.rmse chosen) x))) in
    if is_ready e then scored else some (fl.of_nat 0)

unfoldable pub row_for_regime : {F : Type 0} → Floats F → StepFeatures → Regime → List F
row_for_regime fl f inf_prefill =
    s_of fl f ∷ fl.of_nat f.t_in ∷ fl.of_nat f.b_d ∷ fl.of_nat f.k ∷ fl.of_nat 1 ∷ []
row_for_regime fl f eager =
    s_of fl f
    ∷ fl.of_nat f.t_in
    ∷ fl.of_nat f.t_ft
    ∷ fl.of_nat f.b_d
    ∷ fl.of_nat f.k
    ∷ fl.of_nat 1
    ∷ []
row_for_regime fl f ft_mixed =
    s_of fl f
    ∷ fl.of_nat f.t_in
    ∷ fl.of_nat f.t_ft
    ∷ fl.of_nat f.b_d
    ∷ fl.of_nat f.k
    ∷ fl.of_nat 1
    ∷ []
row_for_regime fl f decode_only = fl.of_nat f.b_d ∷ fl.of_nat f.k ∷ fl.of_nat 1 ∷ []
row_for_regime fl f decode_bwd = fl.of_nat f.b_d ∷ fl.of_nat f.k ∷ fl.of_nat 1 ∷ []

abbrev pub six : {F : Type 0} → F → F → F → F → F → F → StepParams F
six a b g d e c = record {
  alpha = some a;
  beta = some b;
  gamma = some g;
  delta = some d;
  epsilon = some e;
  c = some c;
}

-- Unpacking a vector of another length raises.
abbrev pub scatter_full : {F : Type 0} → List F → Option (StepParams F)
scatter_full (a ∷ b ∷ g ∷ d ∷ e ∷ c ∷ []) = some (six a b g d e c)
scatter_full _ = none

abbrev pub scatter_prefill : {F : Type 0} → F → List F → Option (StepParams F)
scatter_prefill z (a ∷ b ∷ d ∷ e ∷ c ∷ []) = some (six a b z d e c)
scatter_prefill z _ = none

abbrev pub scatter_decode : {F : Type 0} → F → List F → Option (StepParams F)
scatter_decode z (d ∷ e ∷ c ∷ []) = some (six z z z d e c)
scatter_decode z _ = none

unfoldable pub scatter_coefs : {F : Type 0} → Floats F → List F → Regime → Option (StepParams F)
scatter_coefs fl coef inf_prefill = scatter_prefill (fl.of_nat 0) coef
scatter_coefs fl coef eager = scatter_full coef
scatter_coefs fl coef ft_mixed = scatter_full coef
scatter_coefs fl coef decode_only = scatter_decode (fl.of_nat 0) coef
scatter_coefs fl coef decode_bwd = scatter_decode (fl.of_nat 0) coef

abbrev pub Rows : Type 0 → Type 0
Rows F = List (List F × F)

abbrev pub min_fit_samples : ℕ
min_fit_samples = 8

unfoldable pub fit_regime :
    {F : Type 0}
    → Floats F
    → (Rows F → List F)
    → (Rows F → List F → F)
    → Rows F
    → StepParams F
    → Regime
    → Option (StepParams F × Option F)
unfolding scatter_coefs
fit_regime fl lstsq rmse rows prev r =
    let fitted : Option _ = (do
      params ← scatter_coefs fl (lstsq rows) r
      some (params, some (rmse rows (lstsq rows)))) in
    if ltb (length rows) min_fit_samples then some (prev, none) else fitted

abbrev pub index : Regime → ℕ
index inf_prefill = 0
index eager = 1
index decode_only = 2
index decode_bwd = 3
index ft_mixed = 4

abbrev pub same : Regime → Regime → Bool
same r s = index r == index s

-- One sample into its bucket; a contended one into none.
abbrev pub put_sample :
    {F : Type 0} → Floats F → Bool → StepFeatures → F → (Regime → Rows F) → Regime → Rows F
put_sample fl split f dur buckets r =
    if not (contended f) && same (regime_of split f) r
    then buckets r ++ (row_for_regime fl f (regime_of split f), dur) ∷ []
    else buckets r

unfoldable pub fill_buckets :
    {F : Type 0} → Floats F → Bool → List (StepFeatures × F) → (Regime → Rows F) → Regime → Rows F
unfolding row_for_regime
fill_buckets fl split [] buckets = buckets
fill_buckets fl split ((f, dur) ∷ rest) buckets =
    fill_buckets fl split rest (put_sample fl split f dur buckets)

abbrev pub set_fit : {F : Type 0} → Estimator F → Regime → StepParams F × Option F → Estimator F
set_fit e r (p, m) = record {
  params = λ x. if same r x then p else e.params x;
  rmse = λ x. if same r x then m else e.rmse x;
}

unfoldable pub fit_all :
    {F : Type 0}
    → Floats F
    → (Rows F → List F)
    → (Rows F → List F → F)
    → (Regime → Rows F)
    → List Regime
    → Estimator F
    → Option (Estimator F)
unfolding fit_regime
fit_all fl lstsq rmse buckets [] e = some e
fit_all fl lstsq rmse buckets (r ∷ rs) e = do
  fit ← fit_regime fl lstsq rmse (buckets r) (e.params r) r
  fit_all fl lstsq rmse buckets rs (set_fit e r fit)

unfoldable pub data_fit :
    {F : Type 0}
    → Floats F
    → (Rows F → List F)
    → (Rows F → List F → F)
    → Bool
    → Estimator F
    → List (StepFeatures × F)
    → Option (Estimator F)
unfolding fill_buckets fit_all
data_fit fl lstsq rmse split e samples =
    fit_all fl lstsq rmse (fill_buckets fl split samples (λ r. [])) regimes e

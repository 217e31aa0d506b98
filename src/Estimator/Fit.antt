-- ===== src/Estimator/Fit.antt =====
-- The fit of deltaserve/estimator.py: which samples a regime is fitted to, and what its
-- coefficients mean.
use delta_serve_v_llm.Common.{
  ◌>>=◌, ℕ, ◌<◌, ◌≤◌, ◌≡◌, refl, sym, ◌∙◌, Bool, true, not, ◌&&◌, Option, none, some, List, [], ◌∷◌,
  ◌++◌, arith, is_some, if◌then◌else◌, ltb, length, Bool-cases, ◌==◌, inl, inr, Option-cases,
}
use mathlib.Core.List.{append-nil, append_assoc}
use delta_serve_v_llm.Estimator.Features.{
  Regime, inf_prefill, eager, decode_only, decode_bwd, ft_mixed, StepFeatures, regime_of, contended,
}
use delta_serve_v_llm.Estimator.{
  Floats, StepParams, Estimator, Rows, is_fitted, eval, formula, row_for_regime, scatter_coefs,
  fit_regime, fill_buckets, put_sample, fit_all, data_fit, same, set_fit,
}

-- The product of a row of the design matrix and the coefficients.
abbrev pub dot : {F : Type 0} → Floats F → F → List F → List F → F
dot fl acc [] cs = acc
dot fl acc (x ∷ xs) [] = acc
dot fl acc (x ∷ xs) (c ∷ cs) = dot fl (fl.add acc (fl.mul c x)) xs cs

-- Zero and one, as finite floats have them.
pub record AreLaws {F : Type 0} (fl : Floats F) : Type 0 where
  pub zero-add : (x : F) → fl.add (fl.of_nat 0) x ≡ x
  pub add-zero : (x : F) → fl.add x (fl.of_nat 0) ≡ x
  pub zero-mul : (x : F) → fl.mul (fl.of_nat 0) x ≡ fl.of_nat 0
  pub mul-one : (x : F) → fl.mul x (fl.of_nat 1) ≡ x

-- The number of columns of a regime's design matrix.
abbrev pub columns : Regime → ℕ
columns inf_prefill = 5
columns eager = 6
columns ft_mixed = 6
columns decode_only = 3
columns decode_bwd = 3

scatter_prefill-eval :
    {F : Type 0} (fl : Floats F) (laws : AreLaws fl) (f : StepFeatures) (a b d m c : F)
    → formula fl f a b (fl.of_nat 0) d m c
      ≡ dot fl (fl.of_nat 0) (row_for_regime fl f inf_prefill) (a ∷ b ∷ d ∷ m ∷ c ∷ [])
unfolding formula row_for_regime
scatter_prefill-eval fl laws f a b d m c =
    simp (formula, laws.zero-add, laws.add-zero, laws.zero-mul, laws.mul-one) refl

scatter_full-eval :
    {F : Type 0} (fl : Floats F) (laws : AreLaws fl) (f : StepFeatures) (a b g d m c : F)
    → formula fl f a b g d m c
      ≡ dot fl (fl.of_nat 0) (row_for_regime fl f eager) (a ∷ b ∷ g ∷ d ∷ m ∷ c ∷ [])
unfolding formula row_for_regime
scatter_full-eval fl laws f a b g d m c =
    simp (formula, laws.zero-add, laws.add-zero, laws.zero-mul, laws.mul-one) refl

scatter_decode-eval :
    {F : Type 0} (fl : Floats F) (laws : AreLaws fl) (f : StepFeatures) (d m c : F)
    → formula fl f (fl.of_nat 0) (fl.of_nat 0) (fl.of_nat 0) d m c
      ≡ dot fl (fl.of_nat 0) (row_for_regime fl f decode_only) (d ∷ m ∷ c ∷ [])
unfolding formula row_for_regime
scatter_decode-eval fl laws f d m c =
    simp (formula, laws.zero-add, laws.add-zero, laws.zero-mul, laws.mul-one) refl

-- Where zero and one are neutral, the coefficients of a reduced fit, put back into the six-term
-- formula, give the product of the reduced row and the fitted vector: the columns that a regime
-- leaves out add nothing. A vector of another length than the row raises.
pub scatter_coefs-eval :
    {F : Type 0} (fl : Floats F) (laws : AreLaws fl) (r : Regime) (f : StepFeatures) (coef : List F)
    → (scatter_coefs fl coef r >>= λ p. eval fl p f) ≡ (
        if length coef == columns r
        then some (dot fl (fl.of_nat 0) (row_for_regime fl f r) coef)
        else none)
unfolding scatter_coefs eval row_for_regime
scatter_coefs-eval fl laws inf_prefill f coef = grind (arith, scatter_prefill-eval fl laws f)
scatter_coefs-eval fl laws eager f coef = grind (arith, scatter_full-eval fl laws f)
scatter_coefs-eval fl laws decode_only f coef = grind (arith, scatter_decode-eval fl laws f)
scatter_coefs-eval fl laws decode_bwd f coef = grind (arith, scatter_decode-eval fl laws f)
scatter_coefs-eval fl laws ft_mixed f coef = grind (arith, scatter_full-eval fl laws f)

-- The uncontended samples of one regime, in order.
abbrev pub samples_of : {F : Type 0} → Floats F → Bool → Regime → List (StepFeatures × F) → Rows F
samples_of fl split r [] = []
samples_of fl split r ((f, dur) ∷ rest) =
    let others = samples_of fl split r rest in
    if not (contended f) && same (regime_of split f) r
    then (row_for_regime fl f r, dur) ∷ others
    else others

same-row :
    {F : Type 0} (fl : Floats F) (f : StepFeatures) (q r : Regime)
    → same q r ≡ true
    → row_for_regime fl f q ≡ row_for_regime fl f r
unfolding row_for_regime
same-row fl f inf_prefill r e = ground arith
same-row fl f eager r e = ground arith
same-row fl f decode_only r e = ground arith
same-row fl f decode_bwd r e = ground arith
same-row fl f ft_mixed r e = ground arith

fill_buckets_lem :
    {F : Type 0} (fl : Floats F) (split : Bool) (samples : List (StepFeatures × F))
    (buckets : Regime → Rows F) (r : Regime)
    → fill_buckets fl split samples buckets r ≡ buckets r ++ samples_of fl split r samples
unfolding fill_buckets
fill_buckets_lem fl split [] buckets r = sym (append-nil (buckets r))
fill_buckets_lem fl split ((f, dur) ∷ rest) buckets r =
    fill_buckets_lem fl split rest (put_sample fl split f dur buckets) r
    ∙ ground (
      arith,
      same-row fl f (regime_of split f) r,
      append_assoc (buckets r) ((row_for_regime fl f r, dur) ∷ []) (samples_of fl split r rest),
    )

abbrev pub AreWide : {F : Type 0} → ℕ → Rows F → Type 0
AreWide n [] = Unit {0}
AreWide n ((row, y) ∷ rows) = (length row ≡ n) × AreWide n rows

length-row_for_regime :
    {F : Type 0} (fl : Floats F) (f : StepFeatures) (r : Regime)
    → length (row_for_regime fl f r) ≡ columns r
unfolding row_for_regime
length-row_for_regime fl f inf_prefill = refl
length-row_for_regime fl f eager = refl
length-row_for_regime fl f decode_only = refl
length-row_for_regime fl f decode_bwd = refl
length-row_for_regime fl f ft_mixed = refl

samples_of-AreWide :
    {F : Type 0} (fl : Floats F) (split : Bool) (r : Regime) (samples : List (StepFeatures × F))
    → AreWide (columns r) (samples_of fl split r samples)
samples_of-AreWide fl split r [] = tt
samples_of-AreWide fl split r ((f, dur) ∷ rest) =
    ground (arith, samples_of-AreWide fl split r rest, length-row_for_regime fl f r)

-- All five fits, entered in the order of the source.
abbrev put_all : {F : Type 0} → Estimator F → (Regime → StepParams F × Option F) → Estimator F
put_all e fit =
    let first = set_fit (set_fit e inf_prefill (fit inf_prefill)) eager (fit eager) in
    let second =
      set_fit (set_fit first decode_only (fit decode_only)) decode_bwd (fit decode_bwd) in
    set_fit second ft_mixed (fit ft_mixed)

put_all-at :
    {F : Type 0} (e : Estimator F) (fit : Regime → StepParams F × Option F) (r : Regime)
    → ((put_all e fit).params r ≡ (fit r).0) × ((put_all e fit).rmse r ≡ (fit r).1)
put_all-at e fit inf_prefill = (refl, refl)
put_all-at e fit eager = (refl, refl)
put_all-at e fit decode_only = (refl, refl)
put_all-at e fit decode_bwd = (refl, refl)
put_all-at e fit ft_mixed = (refl, refl)

module _ {F : Type 0} (fl : Floats F) (lstsq : Rows F → List F) (rmse : Rows F → List F → F)
    -- numpy's `lstsq` returns one coefficient per column.
    (one_per_column : (n : ℕ) (rows : Rows F)
      → AreWide n rows
      → 0 < length rows
      → length (lstsq rows) ≡ n) where
  -- Fewer than eight samples keep the coefficients and forget their error; eight or more replace
  -- both.
  abbrev pub IsFit : Rows F → Regime → StepParams F → StepParams F → Option F → Type 0
  IsFit rows r prev p m =
      (length rows < 8 → (p ≡ prev) × (m ≡ none))
      × (8 ≤ length rows
          → (scatter_coefs fl (lstsq rows) r ≡ some p)
            × (m ≡ some (rmse rows (lstsq rows)))
            × (is_fitted p ≡ true))

  scatter_coefs-some :
      (coef : List F) (r : Regime)
      → length coef ≡ columns r
      → is_some (scatter_coefs fl coef r) ≡ true
  unfolding scatter_coefs
  scatter_coefs-some coef inf_prefill e = ground arith
  scatter_coefs-some coef eager e = ground arith
  scatter_coefs-some coef decode_only e = ground arith
  scatter_coefs-some coef decode_bwd e = ground arith
  scatter_coefs-some coef ft_mixed e = ground arith

  scatter_coefs-is_fitted :
      (coef : List F) (r : Regime) (p : StepParams F)
      → scatter_coefs fl coef r ≡ some p
      → is_fitted p ≡ true
  unfolding scatter_coefs is_fitted
  scatter_coefs-is_fitted coef inf_prefill p e = ground arith
  scatter_coefs-is_fitted coef eager p e = ground arith
  scatter_coefs-is_fitted coef decode_only p e = ground arith
  scatter_coefs-is_fitted coef decode_bwd p e = ground arith
  scatter_coefs-is_fitted coef ft_mixed p e = ground arith

  scatter_coefs-total :
      (coef : List F) (r : Regime)
      → length coef ≡ columns r
      → (p : StepParams F) × (scatter_coefs fl coef r ≡ some p) × (is_fitted p ≡ true)
  scatter_coefs-total coef r e = elim (Option-cases (scatter_coefs fl coef r)) [
    | inl missing ↦ absurd (ground (arith, scatter_coefs-some coef r e))
    | inr (p, h) ↦ (p, h, scatter_coefs-is_fitted coef r p h)
  ]

  fit_regime-total :
      (rows : Rows F) (r : Regime) (prev : StepParams F)
      → AreWide (columns r) rows
      → (fit : StepParams F × Option F) × (fit_regime fl lstsq rmse rows prev r ≡ some fit)
        × IsFit rows r prev fit.0 fit.1
  unfolding fit_regime
  fit_regime-total rows r prev wide = elim (Bool-cases (ltb (length rows) 8)) [
    | inl few ↦ ((prev, none), ground arith, ((λ h. (refl, refl)), λ h. ground arith))
    | inr many ↦
        let (p, e, fitted) =
          scatter_coefs-total (lstsq rows) r
            (one_per_column (columns r) rows wide (ground arith)) in
        (
          (p, some (rmse rows (lstsq rows))),
          ground (arith, e),
          ((λ h. ground arith), λ h. (e, refl, fitted)),
        )
  ]

  -- The fit of one regime from its own samples.
  fit_regime-IsFit :
      (split : Bool) (e : Estimator F) (samples : List (StepFeatures × F)) (r : Regime)
      → (fit : StepParams F × Option F) × (fit_regime fl lstsq rmse
            (fill_buckets fl split samples (λ x. []) r)
            (e.params r)
            r
          ≡ some fit)
        × IsFit (samples_of fl split r samples) r (e.params r) fit.0 fit.1
  fit_regime-IsFit split e samples r = rw (fill_buckets_lem fl split samples (λ x. []) r) (
      fit_regime-total (samples_of fl split r samples) r (e.params r)
        (samples_of-AreWide fl split r samples))

  -- With a solver that returns one coefficient per column, a refit never raises. It fits each
  -- regime to exactly the recorded steps of that composition that had no backward in flight beside
  -- a prefill, if there are eight of them or more. With fewer the regime keeps its coefficients,
  -- but loses the error that the safety margin of `predict` is made of.
  pub data_fit_lem :
      (split : Bool) (e : Estimator F) (samples : List (StepFeatures × F))
      → (e' : Estimator F) × (data_fit fl lstsq rmse split e samples ≡ some e')
        × ((r : Regime)
            → IsFit (samples_of fl split r samples) r (e.params r) (e'.params r) (e'.rmse r))
  unfolding data_fit fit_all
  data_fit_lem split e samples =
      let fit : Regime → StepParams F × Option F = λ r. (fit_regime-IsFit split e samples r).0 in
      (
        put_all e fit,
        rw
            (
              (fit_regime-IsFit split e samples inf_prefill).1,
              (fit_regime-IsFit split e samples eager).1,
              (fit_regime-IsFit split e samples decode_only).1,
              (fit_regime-IsFit split e samples decode_bwd).1,
              (fit_regime-IsFit split e samples ft_mixed).1,
            )
            refl,
        λ r.
            rw ((put_all-at e fit r).0, (put_all-at e fit r).1)
              (fit_regime-IsFit split e samples r).2,
      )

-- ===== src/Estimator/Tests.antt =====
-- Concrete fits, predictions and refits, over whole numbers in place of floats.
use delta_serve_v_llm.Common.{
  ℕ, ◌+◌, ◌*◌, ◌/◌, ◌<◌, ◌≤◌, ◌≡◌, ◌↔◌, refl, true, false, none, some, List, [], ◌∷◌, arith, length,
  ltb,
}
use delta_serve_v_llm.Estimator.Features.{
  Regime, inf_prefill, eager, decode_bwd, StepFeatures, regime_of, sum_squares,
}
use delta_serve_v_llm.Estimator.{
  s_of, Floats, Estimator, Rows, unfitted, six, is_fitted, predict, asked, data_fit,
}
use delta_serve_v_llm.Estimator.Tracker.{Sample, Tracker, init, size}
use delta_serve_v_llm.Estimator.Refit.{Use, records, asks, run, run-refits_bounded, IsTracked}
use delta_serve_v_llm.Estimator.Select.{IsOnlyContended, predict-fails}
use delta_serve_v_llm.Estimator.Fit.{AreLaws, samples_of, AreWide, IsFit, data_fit_lem}

abbrev pub whole : Floats ℕ
whole = record {
  of_nat = λ n. n;
  add = λ a b. a + b;
  mul = λ a b. a * b;
  div = λ a b. a / b;
  three_halves = 1;
  is_truthy = λ x. ltb 0 x;
  clip = λ x. x;
}

whole-AreLaws : AreLaws whole
whole-AreLaws = record {
  zero-add = λ x. omega arith;
  add-zero = λ x. omega arith;
  zero-mul = λ x. omega arith;
  mul-one = λ x. omega arith;
}

-- Two prefills of three and four tokens beside five decodes.
abbrev mixed : StepFeatures
mixed = record {
  t_in = 7;
  p = 2;
  t_ft = 0;
  b_d = 5;
  k = 90;
  prefill_lens = 3 ∷ 4 ∷ [];
  bwd = false;
}

regimes_of_steps :
    (regime_of false mixed ≡ inf_prefill)
    × (regime_of true (record mixed { t_ft = 4 }) ≡ Regime.ft_mixed)
    × (regime_of false (record mixed { t_ft = 4 }) ≡ eager)
    × (s_of whole mixed ≡ 25)
unfolding regime_of s_of sum_squares
regimes_of_steps = (refl, refl, refl, refl)

abbrev fitted : List ℕ
fitted = 1 ∷ 2 ∷ 3 ∷ 4 ∷ 5 ∷ []

-- An estimator that has only seen contended decodes.
abbrev contended_only : Estimator ℕ
contended_only = record {
  params = λ r. elim r [ decode_bwd ↦ six 0 0 0 2 1 9 | _ ↦ unfitted ];
  rmse = λ r. none;
}

predict-fails_example : (predict whole false contended_only mixed none true ≡ none) ↔ (
    IsOnlyContended contended_only
    × (is_fitted (contended_only.params (asked false mixed none)) ≡ false))
predict-fails_example = predict-fails whole false contended_only mixed none true

-- A solver that answers with one zero per column of the first row.
abbrev zeros : List ℕ → List ℕ
zeros [] = []
zeros (x ∷ xs) = 0 ∷ zeros xs

abbrev solver : Rows ℕ → List ℕ
solver [] = []
solver ((row, y) ∷ rows) = zeros row

length-zeros : (xs : List ℕ) → length (zeros xs) ≡ length xs
length-zeros [] = refl
length-zeros (x ∷ xs) = omega (arith, length-zeros xs)

solver_columns :
    (n : ℕ) (rows : Rows ℕ) → AreWide n rows → 0 < length rows → length (solver rows) ≡ n
solver_columns n [] wide pos = absurd (omega (arith, pos))
solver_columns n ((row, y) ∷ rows) wide pos = omega (arith, length-zeros row, wide.0)

abbrev no_error : Rows ℕ → List ℕ → ℕ
no_error rows coef = 0

abbrev seen : List (StepFeatures × ℕ)
seen = (mixed, 10) ∷ (record mixed { bwd = true }, 30) ∷ []

data_fit_lem_example :
    (e' : Estimator ℕ) × (data_fit whole solver no_error false contended_only seen ≡ some e')
    × ((r : Regime)
        → IsFit whole solver no_error solver_columns
            (samples_of whole false r seen)
            r
            (contended_only.params r)
            (e'.params r)
            (e'.rmse r))
data_fit_lem_example = data_fit_lem whole solver no_error solver_columns false contended_only seen

abbrev step : Sample ℕ
step = record { features = mixed; duration = 10; predicted = none; was_graph = some true }

abbrev uses : List (Use ℕ)
uses = records step ∷ asks ∷ records step ∷ records step ∷ asks ∷ []

run-refits_bounded_example : ((run (init 2) uses).1 * 256 ≤ 2) × (size (run (init 2) uses).0 ≤ 2)
run-refits_bounded_example = run-refits_bounded 2 uses

abbrev tracker : Tracker ℕ
tracker = record { max_steps = 2; samples = step ∷ []; last_refit_size = 0 }

tracker-IsTracked : IsTracked tracker
tracker-IsTracked = record { within = omega arith; behind = omega arith; on_beat = omega arith }

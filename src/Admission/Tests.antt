-- ===== src/Admission/Tests.antt =====
-- Admission on a small store and buffer, and its theorems there.
use delta_serve_v_llm.Common.{
  ℕ, ◌⊎◌, sum, min, ◌++◌, zero, suc, ◌+◌, ◌≤◌, ◌<◌, ◌≡◌, refl, true, false, none, some, List, [],
  ◌∷◌, arith, get_elem?,
}
use delta_serve_v_llm.Estimator.{Estimator, six}
use delta_serve_v_llm.Estimator.Select.{IsOnlyContended}
use delta_serve_v_llm.Estimator.Tests.{whole}
use delta_serve_v_llm.Store.{FinetuningSample, input_len}
use delta_serve_v_llm.Admission.{
  Running, Waiting, Policy, both_phases, Moment, Admitted, current_step_features, scan_running,
  scan_waiting, admit_ft_to_step, raised, ended, predicted,
}
use delta_serve_v_llm.Admission.Composition.{
  IsComposed, decodes, chunks, prompts, context, current_step_features-IsComposed,
}
use delta_serve_v_llm.Admission.Loop.{HasTokens}
use delta_serve_v_llm.Admission.Limits.{IsAdmission, admit_ft_to_step-IsAdmission}
use delta_serve_v_llm.Store.Tests.{small, small_loaded, small-IsValid}
use delta_serve_v_llm.Common.{map}
use delta_serve_v_llm.Coordinator.{init}

abbrev AllPositive : List ℕ → Type 0
AllPositive [] = Unit {0}
AllPositive (n ∷ ns) = (0 < n) × AllPositive ns

positive-at :
    (ss : List FinetuningSample) (i : ℕ) (s : FinetuningSample)
    → AllPositive (map input_len ss)
    → get_elem? ss i ≡ some s
    → 0 < input_len s
positive-at [] i s h e = ground arith
positive-at (x ∷ ss) zero s h e = ground (arith, h.0)
positive-at (x ∷ ss) (suc i) s h e = positive-at ss i s h.1 e

small-HasTokens : HasTokens small
small-HasTokens = λ i s e.
    positive-at small.samples i s (rw small_loaded (omega arith, (omega arith, (omega arith, tt))))
      e

-- A decode with forty tokens of context, and a prompt of six tokens whose first four are computed.
abbrev running : List Running
running =
    record {
      is_finetuning = false;
      num_tokens = 41;
      num_computed_tokens = 40;
      num_output_placeholders = 0;
    }
    ∷ record {
      is_finetuning = false;
      num_tokens = 6;
      num_computed_tokens = 4;
      num_output_placeholders = 0;
    }
    ∷ record {
      is_finetuning = true;
      num_tokens = 3;
      num_computed_tokens = 3;
      num_output_placeholders = 1;
    }
    ∷ []

abbrev waiting : List Waiting
waiting = record { num_tokens = 9; num_computed_tokens = 0; arrival_time = 700 } ∷ []

composition :
    ((current_step_features 8 running waiting).0.t_in ≡ 7)
    × ((current_step_features 8 running waiting).0.prefill_lens ≡ 2 ∷ 5 ∷ [])
    × ((current_step_features 8 running waiting).1 ≡ some 700)
unfolding current_step_features scan_running scan_waiting
composition = (refl, refl, refl)

current_step_features-IsComposed_example :
    let f = (current_step_features 8 running waiting).0 in
    let lens = chunks running ++ prompts waiting in
    IsComposed f
    × (f.b_d ≡ decodes running)
    × (f.k ≡ context running)
    × (f.t_in ≤ 8)
    × (f.t_in ≤ sum lens)
    × (min 8 (sum lens + decodes running) ≤ f.t_in + decodes running)
    × (sum lens + decodes running ≤ 8 → f.prefill_lens ≡ lens)
current_step_features-IsComposed_example = current_step_features-IsComposed 8 running waiting

abbrev policy : Policy
policy = record {
  profiling = false;
  phase = both_phases;
  decode_only_margin = 700;
  ttft_slo = 1000;
  max_tbt_slo = 100;
  match_factor = 0;
  prop_factor = none;
  is_async = true;
  max_num_scheduled_tokens = 20;
  split = false;
}

abbrev moment : Moment
moment = record {
  now = 900;
  last_step_pred = 20;
  is_ready = true;
  feats = (current_step_features 8 running waiting).0;
  earliest_arrival = some 700;
}

-- Every regime is fitted with ten milliseconds and one more per prefill token.
abbrev fitted : Estimator ℕ
fitted = record { params = λ r. six 0 1 0 0 0 10; rmse = λ r. none }

admit_ft_to_step-IsAdmission_example :
    let predict = predicted whole (λ (n : ℕ). n) false fitted in
    ((admit_ft_to_step predict policy moment (init 8 none) small 0 ≡ raised)
      × (moment.is_ready ≡ true)
      × IsOnlyContended fitted)
    ⊎ ((r : Admitted) × (admit_ft_to_step predict policy moment (init 8 none) small 0 ≡ ended r)
        × IsAdmission predict policy moment (init 8 none) r)
admit_ft_to_step-IsAdmission_example =
    admit_ft_to_step-IsAdmission whole (λ (n : ℕ). n) fitted policy moment (init 8 none) small 0
      small-IsValid small-HasTokens

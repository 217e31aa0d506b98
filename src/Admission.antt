-- ===== src/Admission.antt =====
-- deltaserve/ft_scheduler.py: how many finetuning tokens ride on the step that is about to be
-- built. Times are whole milliseconds, factors are thousandths. `predict` is the estimator's
-- prediction, none where it raises (`predicted`), and `split` the switch of deltaserve/estimator.py
-- that its regimes depend on.
pub mod Composition
pub mod Loop
pub mod Limits
mod Tests
use delta_serve_v_llm.Common.{
  ℕ, zero, suc, ◌+◌, ◌-◌, ◌*◌, ◌/◌, min, Bool, true, false, not, ◌&&◌, ◌||◌, Option, none, some,
  List, [], ◌∷◌, ◌++◌, ltb, leb, ◌==◌, if◌then◌else◌, length,
}
use delta_serve_v_llm.Estimator.Features.{Regime, inf_prefill, decode_only, StepFeatures, regime_of}
use delta_serve_v_llm.Estimator
use delta_serve_v_llm.Estimator.{Floats, Estimator}
use delta_serve_v_llm.Store.{
  FinetuningSample, FinetuningStore, input_len, pop_next, claim, has_next, advance_epoch,
}
use delta_serve_v_llm.Coordinator.{Coordinator, next_ft_budget, space_remaining}

-- A request of `self.running`, and one of `self.waiting`.
pub record Running : Type 0 where
  pub is_finetuning : Bool
  pub num_tokens : ℕ
  pub num_computed_tokens : ℕ
  pub num_output_placeholders : ℕ

pub record Waiting : Type 0 where
  pub num_tokens : ℕ
  pub num_computed_tokens : ℕ
  pub arrival_time : ℕ

-- One more prefill of `n` tokens.
abbrev pub add_prefill : StepFeatures → ℕ → StepFeatures
add_prefill f n = record f {
  t_in = f.t_in + n;
  p = suc f.p;
  prefill_lens = f.prefill_lens ++ n ∷ [];
}

-- One running request, with the budget that remains. The source lets that number fall below zero
-- and cuts it off after the loop: both are zero here.
abbrev pub scan_one : Running → StepFeatures → ℕ → StepFeatures × ℕ
scan_one req f remaining =
    let left = req.num_tokens - req.num_computed_tokens in
    let n = min left remaining in
    let chunk : StepFeatures × ℕ =
      if ltb 0 n then (add_prefill f n, remaining - n) else (f, remaining) in
    let decode : StepFeatures × ℕ =
      (record f { b_d = suc f.b_d; k = f.k + req.num_computed_tokens }, remaining - 1) in
    if req.is_finetuning
    then (f, remaining)
    else if ltb 1 left && (req.num_output_placeholders == 0)
    then chunk
    else decode

unfoldable pub scan_running : List Running → StepFeatures → ℕ → StepFeatures × ℕ
scan_running [] f remaining = (f, remaining)
scan_running (req ∷ reqs) f remaining =
    scan_running reqs (scan_one req f remaining).0 (scan_one req f remaining).1

unfoldable pub scan_waiting : List Waiting → StepFeatures → ℕ → StepFeatures
scan_waiting [] f remaining = f
scan_waiting (req ∷ reqs) f remaining =
    let n = min (req.num_tokens - req.num_computed_tokens) remaining in
    let rest = scan_waiting reqs f remaining in
    let added = scan_waiting reqs (add_prefill f n) (remaining - n) in
    if remaining == 0 then f else if n == 0 then rest else added

abbrev pub earliest : List Waiting → Option ℕ
earliest [] = none
earliest (req ∷ reqs) = some req.arrival_time

unfoldable pub current_step_features : ℕ → List Running → List Waiting → StepFeatures × Option ℕ
unfolding scan_running scan_waiting
current_step_features budget running waiting =
    let empty : StepFeatures = record {
      t_in = 0;
      p = 0;
      t_ft = 0;
      b_d = 0;
      k = 0;
      prefill_lens = [];
      bwd = false;
    } in
    let (f, remaining) = scan_running running empty budget in
    (scan_waiting waiting f remaining, earliest waiting)

pub data Phase : Type 0 where
  prefill_phase both_phases other_phase : Phase

-- The settings that admission reads. `prop_factor` is `none` for -1.
pub record Policy : Type 0 where
  pub profiling : Bool
  pub phase : Phase
  pub decode_only_margin : ℕ
  pub ttft_slo : ℕ
  pub max_tbt_slo : ℕ
  pub match_factor : ℕ
  pub prop_factor : Option ℕ
  pub is_async : Bool
  pub max_num_scheduled_tokens : ℕ
  pub split : Bool

-- What the scheduler knows when it admits.
pub record Moment : Type 0 where
  pub now : ℕ
  pub last_step_pred : ℕ
  pub is_ready : Bool
  pub feats : StepFeatures
  pub earliest_arrival : Option ℕ

abbrev pub is_decode_only : StepFeatures → Bool
is_decode_only f = (f.t_in == 0) && ltb 0 f.b_d

abbrev pub has_prefill : StepFeatures → Bool
has_prefill f = ltb 0 f.t_in

abbrev pub denies : Phase → StepFeatures → Bool
denies prefill_phase f = is_decode_only f
denies both_phases f = false
denies other_phase f = false

abbrev pub margin : Policy → StepFeatures → ℕ
margin p f = elim p.phase [
  | both_phases ↦ if is_decode_only f then p.decode_only_margin else 1000
  | _ ↦ 1000
]

-- `self._estimator.predict(feats, regime)`, its duration in whole milliseconds by `millis`.
unfoldable pub predicted :
    {F : Type 0} → Floats F → (F → ℕ) → Bool → Estimator F → Regime → StepFeatures → Option ℕ
predicted fl millis split e r f = elim (Estimator.predict fl split e f (some r) true) [
  | none ↦ none
  | some x ↦ some (millis x)
]

unfoldable pub baseline : (Regime → StepFeatures → Option ℕ) → Moment → Option ℕ
baseline predict m =
    if not m.is_ready
    then some 0
    else if is_decode_only m.feats
    then predict decode_only m.feats
    else if (m.feats.t_in == 0) && (m.feats.b_d == 0)
    then some 0
    else predict inf_prefill m.feats

abbrev pub queue_wait : Policy → Moment → ℕ
queue_wait p m = if p.is_async then m.last_step_pred else 0

-- A step of duration `t` finishes before nine tenths of the first waiting request's TTFT limit;
-- there is no deadline without a waiting request or without a prefill.
unfoldable pub meets_ttft : Policy → Moment → ℕ → Bool
meets_ttft p m t = elim m.earliest_arrival [
  | none ↦ true
  | some arrival ↦
      not (has_prefill m.feats)
      || ltb (10 * (m.now + queue_wait p m + t)) (10 * arrival + 9 * p.ttft_slo)
]

-- The check of a baseline (strict) and of a step with finetuning tokens against the time between
-- tokens.
abbrev pub baseline_meets_tbt : Policy → Moment → ℕ → Bool
baseline_meets_tbt p m t =
    not (ltb 0 m.feats.b_d) || ltb (1000 * t) (p.max_tbt_slo * margin p m.feats)

abbrev pub meets_tbt : Policy → Moment → ℕ → Bool
meets_tbt p m t = not (ltb 0 m.feats.b_d) || leb (1000 * t) (p.max_tbt_slo * margin p m.feats)

-- What the checks before the loop decide.
pub data Gate : Type 0 where
  closed : Gate
  -- The prediction of the baseline raises.
  fails : Gate
  -- Closed, and the prefill tokens of this step are saved up.
  saves_up : Gate
  -- Open, for a number of tokens and at most so many samples.
  opens : ℕ → Option ℕ → Gate

unfoldable pub token_cap : Policy → Coordinator → StepFeatures → ℕ
token_cap p c f =
    let proportional : ℕ = elim p.prop_factor [
      | none ↦ space_remaining c
      | some factor ↦
          if has_prefill f
          then min (space_remaining c) (f.t_in * factor / 1000)
          else space_remaining c
    ] in
    min proportional (p.max_num_scheduled_tokens - f.t_in - f.b_d)

-- Open, if the limit leaves room.
abbrev pub open_for : ℕ → Option ℕ → Gate
open_for limit samples = if limit == 0 then closed else opens limit samples

-- The leaky bucket: credit must cover the next sample, and then one sample may pass.
unfoldable pub leaky_bucket : Policy → FinetuningStore → ℕ → StepFeatures → ℕ → Gate
leaky_bucket p st unspent f limit = elim (pop_next st []) [
  | none ↦ closed
  | some next ↦
      if leb (1000 * input_len next) ((unspent + f.t_in) * p.match_factor)
      then open_for limit (some 1)
      else saves_up
]

-- The checks of the baseline `t`, and the shapers.
unfoldable pub gate_at : Policy → Moment → Coordinator → FinetuningStore → ℕ → ℕ → Gate
unfolding meets_ttft leaky_bucket
gate_at p m c st unspent t =
    let limit = token_cap p c m.feats in
    if m.is_ready && not (baseline_meets_tbt p m t && meets_ttft p m t)
    then closed
    else if ltb 0 p.match_factor && has_prefill m.feats
    then leaky_bucket p st unspent m.feats limit
    else open_for limit none

-- Stages 0 to 4 of `admit_ft_to_step`, up to the loop.
unfoldable pub gate_of :
    (Regime → StepFeatures → Option ℕ) → Policy → Moment → Coordinator → FinetuningStore → ℕ → Gate
unfolding baseline gate_at
gate_of predict p m c st unspent =
    let checked : Gate = elim (baseline predict m) [
      | none ↦ fails
      | some t ↦ gate_at p m c st unspent t
    ] in
    if p.profiling
    then closed
    else if next_ft_budget c == 0
    then closed
    else if not (has_next st) && leb (st.total_epochs - 1) st.current_epoch
    then closed
    else if denies p.phase m.feats
    then closed
    else checked

-- What the loop has admitted so far.
pub record Growth : Type 0 where
  pub store : FinetuningStore
  pub admitted : List FinetuningSample
  pub tokens : ℕ

unfoldable pub total_len : List FinetuningSample → ℕ
total_len [] = 0
total_len (s ∷ ss) = input_len s + total_len ss

abbrev pub lens_of : List FinetuningSample → List ℕ
lens_of [] = []
lens_of (s ∷ ss) = input_len s ∷ lens_of ss

-- The step with the admitted samples: they are prefills too.
abbrev pub with_samples : StepFeatures → List FinetuningSample → ℕ → StepFeatures
with_samples f ss n = record f {
  t_in = f.t_in + n;
  p = f.p + length ss;
  t_ft = n;
  prefill_lens = f.prefill_lens ++ lens_of ss;
}

-- The check of one more sample, none where the prediction raises.
unfoldable pub fits_slo :
    (Regime → StepFeatures → Option ℕ) → Policy → Moment → StepFeatures → Option Bool
unfolding meets_ttft
fits_slo predict p m f =
    let asked : Option Bool = elim (predict (regime_of p.split f) f) [
      | none ↦ none
      | some t ↦ some (meets_tbt p m t && meets_ttft p m t)
    ] in
    if m.is_ready then asked else some true

abbrev pub is_full : Option ℕ → ℕ → Bool
is_full none n = false
is_full (some m) n = leb m n

-- The store to select from: the next epoch if this one has nothing left.
abbrev pub ensure_next : FinetuningStore → FinetuningStore × Bool
ensure_next st = if has_next st then (st, true) else advance_epoch st

abbrev pub add_candidate : Growth → FinetuningStore → FinetuningSample → Growth
add_candidate g st s = record {
  store = st;
  admitted = g.admitted ++ s ∷ [];
  tokens = g.tokens + input_len s;
}

-- How a call ends: with an exception, without fuel, or with a result.
pub data Ended (A : Type 0) : Type 0 where
  raised out_of_fuel : Ended A
  ended : A → Ended A

-- The `while True` loop, on fuel; `ok` is the check of a hypothetical step.
unfoldable pub grow :
    ℕ → ℕ → Option ℕ → (StepFeatures → Option Bool) → StepFeatures → Growth → Ended Growth
grow zero limit samples ok f g = out_of_fuel
grow (suc fuel) limit samples ok f g =
    let (st, alive) = ensure_next g.store in
    let g' : Growth = record g { store = st } in
    let tried : Ended Growth = elim (pop_next st g.admitted) [
      | none ↦ ended g'
      | some s ↦
          let more = add_candidate g st s in
          let rest = grow fuel limit samples ok f more in
          let grown : Ended Growth = elim (ok (with_samples f more.admitted more.tokens)) [
            | none ↦ raised
            | some fine ↦ if fine then rest else ended g'
          ] in
          if ltb limit (g.tokens + input_len s) then ended g' else grown
    ] in
    if is_full samples (length g.admitted) || leb limit g.tokens
    then ended g
    else if not alive
    then ended g
    else tried

-- The result of `admit_ft_to_step`: the store after the claim, the credit, the tokens and the
-- samples.
pub record Admitted : Type 0 where
  pub store : FinetuningStore
  pub unspent : ℕ
  pub tokens : ℕ
  pub samples : List FinetuningSample

abbrev pub nothing : FinetuningStore → ℕ → Admitted
nothing st unspent = record { store = st; unspent = unspent; tokens = 0; samples = [] }

abbrev pub commit_growth : ℕ → Growth → Admitted
commit_growth unspent g = elim g.admitted [
  | [] ↦ nothing g.store unspent
  | s ∷ ss ↦ record {
    store = (claim g.store (s ∷ ss)).0;
    unspent = unspent;
    tokens = g.tokens;
    samples = s ∷ ss;
  }
]

unfoldable pub admit_ft_to_step :
    (Regime → StepFeatures → Option ℕ)
    → Policy
    → Moment
    → Coordinator
    → FinetuningStore
    → ℕ
    → Ended Admitted
unfolding gate_of fits_slo grow
admit_ft_to_step predict p m c st unspent = elim (gate_of predict p m c st unspent) [
  | closed ↦ ended (nothing st unspent)
  | fails ↦ raised
  | saves_up ↦ ended (nothing st (unspent + m.feats.t_in))
  | opens limit samples ↦
      elim (grow (suc limit) limit samples (fits_slo predict p m) m.feats
        (record { store = st; admitted = []; tokens = 0 })) [
          | raised ↦ raised
          | out_of_fuel ↦ out_of_fuel
          | ended g ↦ ended (commit_growth unspent g)
        ]
]

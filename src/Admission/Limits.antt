-- ===== src/Admission/Limits.antt =====
-- What `admit_ft_to_step` of deltaserve/ft_scheduler.py promises: the limits that an admission
-- keeps.
use delta_serve_v_llm.Common.{
  ℕ, suc, ◌+◌, ◌-◌, ◌*◌, ◌<◌, ◌≤◌, ◌≡◌, refl, Bool, true, false, ◌⊎◌, inl, inr, Option, none, some,
  Bool-cases, Option-cases, List, [], ◌∷◌, arith, length,
}
use delta_serve_v_llm.Estimator
use delta_serve_v_llm.Estimator.{Floats, Estimator}
use delta_serve_v_llm.Estimator.Select.{IsOnlyContended, predict-fails}
use delta_serve_v_llm.Estimator.Features.{Regime, StepFeatures, inf_prefill, decode_only, regime_of}
use delta_serve_v_llm.Store.{FinetuningSample, FinetuningStore}
use delta_serve_v_llm.Store.Valid.{IsValid}
use delta_serve_v_llm.Store.Claim.{claim-IsValid}
use delta_serve_v_llm.Coordinator.{Coordinator, next_ft_budget, space_remaining}
use delta_serve_v_llm.Admission.{
  Policy, Moment, Gate, closed, saves_up, opens, token_cap, leaky_bucket, gate_of, Growth, Admitted,
  nothing, fails, gate_at, raised, ended, predicted, baseline, commit_growth, admit_ft_to_step,
  total_len, with_samples, fits_slo, meets_tbt, meets_ttft, denies, is_decode_only,
}
use delta_serve_v_llm.Admission.Loop.{HasTokens, IsGrown, grow-IsGrown}

-- What an open gate has checked.
record IsOpen (p : Policy) (m : Moment) (c : Coordinator) (limit : ℕ) (samples : Option ℕ)
    : Type 0 where
  at_cap : limit ≡ token_cap p c m.feats
  roomy : 0 < limit
  budget : 0 < next_ft_budget c
  live : p.profiling ≡ false
  in_phase : denies p.phase m.feats ≡ false
  single : 0 < p.match_factor → 0 < m.feats.t_in → samples ≡ some 1

gate_of-IsOpen :
    (predict : Regime → StepFeatures → Option ℕ) (p : Policy) (m : Moment) (c : Coordinator)
    (st : FinetuningStore) (unspent limit : ℕ) (samples : Option ℕ)
    → gate_of predict p m c st unspent ≡ opens limit samples
    → IsOpen p m c limit samples
unfolding gate_of gate_at leaky_bucket
gate_of-IsOpen predict p m c st unspent limit samples e = record {
  at_cap = ground arith;
  roomy = ground arith;
  budget = ground arith;
  live = ground arith;
  in_phase = ground arith;
  single = λ h h'. ground arith;
}

token_cap-le :
    (p : Policy) (c : Coordinator) (f : StepFeatures)
    → (token_cap p c f ≤ space_remaining c)
      × (token_cap p c f ≤ p.max_num_scheduled_tokens - f.t_in - f.b_d)
unfolding token_cap
token_cap-le p c f = (ground arith, ground arith)

token_cap-proportional :
    (p : Policy) (c : Coordinator) (f : StepFeatures) (factor : ℕ)
    → p.prop_factor ≡ some factor
    → 0 < f.t_in
    → 1000 * token_cap p c f ≤ f.t_in * factor
unfolding token_cap
token_cap-proportional p c f factor e h = ground arith

-- The limits of an admission, under the state it is made in.
pub record IsAdmission (predict : Regime → StepFeatures → Option ℕ) (p : Policy) (m : Moment)
    (c : Coordinator) (r : Admitted) : Type 0 where
  pub counted : r.tokens ≡ total_len r.samples
  pub in_buffer : r.tokens ≤ space_remaining c
  pub in_step : 0 < r.tokens → m.feats.t_in + m.feats.b_d + r.tokens ≤ p.max_num_scheduled_tokens
  pub proportional :
      (factor : ℕ)
      → p.prop_factor ≡ some factor
      → 0 < m.feats.t_in
      → 1000 * r.tokens ≤ m.feats.t_in * factor
  pub allowed :
      0 < r.tokens
      → (0 < next_ft_budget c) × (p.profiling ≡ false) × (denies p.phase m.feats ≡ false)
  pub in_time :
      m.is_ready ≡ true
      → 0 < r.tokens
      → let f = with_samples m.feats r.samples r.tokens in
        (t : ℕ) × (predict (regime_of p.split f) f ≡ some t)
        × (meets_tbt p m t ≡ true)
        × (meets_ttft p m t ≡ true)
  pub single : 0 < p.match_factor → 0 < m.feats.t_in → length r.samples ≤ 1
  pub valid : IsValid r.store

nothing-IsAdmission :
    (predict : Regime → StepFeatures → Option ℕ) (p : Policy) (m : Moment) (c : Coordinator)
    (st : FinetuningStore) (unspent : ℕ)
    → IsValid st
    → IsAdmission predict p m c (nothing st unspent)
unfolding total_len
nothing-IsAdmission predict p m c st unspent v = record {
  counted = refl;
  in_buffer = omega arith;
  in_step = λ h. omega arith;
  proportional = λ factor e h. omega arith;
  allowed = λ h. absurd (omega arith);
  in_time = λ h h'. absurd (omega arith);
  single = λ h h'. omega arith;
  valid = v;
}

fits-meets :
    (predict : Regime → StepFeatures → Option ℕ) (p : Policy) (m : Moment) (f : StepFeatures)
    → m.is_ready ≡ true
    → fits_slo predict p m f ≡ some true
    → (t : ℕ) × (predict (regime_of p.split f) f ≡ some t)
      × (meets_tbt p m t ≡ true)
      × (meets_ttft p m t ≡ true)
unfolding fits_slo
fits-meets predict p m f h e = elim (Option-cases (predict (regime_of p.split f) f)) [
  | inl q ↦ absurd (ground (arith, e, q))
  | inr (t, q) ↦ (t, q, ground (arith, e, q), ground (arith, e, q))
]

checked_nonempty :
    {s : FinetuningSample} {ss : List FinetuningSample} {P : Type 0} → ((s ∷ ss) ≡ []) ⊎ P → P
checked_nonempty (inl e) = absurd (ground (arith, e))
checked_nonempty (inr q) = q

committed-IsAdmission :
    (predict : Regime → StepFeatures → Option ℕ) (p : Policy) (m : Moment) (c : Coordinator)
    (unspent limit : ℕ) (samples : Option ℕ) (st : FinetuningStore) (ss : List FinetuningSample)
    (tokens : ℕ)
    → IsOpen p m c limit samples
    → IsGrown limit samples
        (fits_slo predict p m)
        m.feats
        (record { store = st; admitted = ss; tokens = tokens })
    → IsAdmission predict p m c
        (commit_growth unspent (record { store = st; admitted = ss; tokens = tokens }))
unfolding fits_slo
committed-IsAdmission predict p m c unspent limit samples st [] tokens o v =
    nothing-IsAdmission predict p m c st unspent v.valid
committed-IsAdmission predict p m c unspent limit samples st (s ∷ ss) tokens o v =
    let (in_space, in_budget) = token_cap-le p c m.feats in
    record {
      counted = v.counted;
      in_buffer = omega (arith, v.capped, o.at_cap, in_space);
      in_step = λ h. omega (arith, v.capped, o.at_cap, in_budget);
      proportional = λ factor e h.
          omega (arith, v.capped, o.at_cap, token_cap-proportional p c m.feats factor e h);
      allowed = λ h. (o.budget, o.live, o.in_phase);
      in_time = λ h h'.
          fits-meets predict p m (with_samples m.feats (s ∷ ss) tokens) h
            (checked_nonempty v.checked);
      single = λ h h'. v.limited 1 (o.single h h');
      valid = claim-IsValid st (s ∷ ss) v.valid;
    }

Gate-cases :
    (g : Gate)
    → ((g ≡ closed) ⊎ (g ≡ fails))
      ⊎ ((g ≡ saves_up) ⊎ ((n : ℕ) × (samples : Option ℕ) × (g ≡ opens n samples)))
Gate-cases closed = inl (inl refl)
Gate-cases fails = inl (inr refl)
Gate-cases saves_up = inr (inl refl)
Gate-cases (opens n samples) = inr (inr (n, samples, refl))

-- Some prediction raises, with a model that is fitted.
Raises : (Regime → StepFeatures → Option ℕ) → Moment → Type 0
Raises predict m = (m.is_ready ≡ true) × (r : Regime) × (f : StepFeatures) × (predict r f ≡ none)

baseline-Raises :
    (predict : Regime → StepFeatures → Option ℕ) (m : Moment)
    → baseline predict m ≡ none
    → Raises predict m
unfolding baseline Raises
baseline-Raises predict m e = elim (Bool-cases (is_decode_only m.feats)) [
  | inl q ↦ (ground (arith, e), decode_only, m.feats, ground (arith, e, q))
  | inr q ↦ (ground (arith, e), inf_prefill, m.feats, ground (arith, e, q))
]

gate-Raises :
    (predict : Regime → StepFeatures → Option ℕ) (p : Policy) (m : Moment) (c : Coordinator)
    (st : FinetuningStore) (unspent : ℕ)
    → gate_of predict p m c st unspent ≡ fails
    → Raises predict m
unfolding gate_of gate_at leaky_bucket
gate-Raises predict p m c st unspent e = elim (Option-cases (baseline predict m)) [
  | inl q ↦ baseline-Raises predict m q
  | inr (t, q) ↦ absurd (ground (arith, e, q))
]

fits-Raises :
    (predict : Regime → StepFeatures → Option ℕ) (p : Policy) (m : Moment) (f : StepFeatures)
    → fits_slo predict p m f ≡ none
    → Raises predict m
unfolding fits_slo Raises
fits-Raises predict p m f e = (ground (arith, e), regime_of p.split f, f, ground (arith, e))

start-IsGrown :
    (limit : ℕ) (samples : Option ℕ) (ok : StepFeatures → Option Bool) (f : StepFeatures)
    (st : FinetuningStore)
    → IsValid st
    → IsGrown limit samples ok f (record { store = st; admitted = []; tokens = 0 })
unfolding total_len
start-IsGrown limit samples ok f st v = record {
  counted = refl;
  capped = omega arith;
  limited = λ n e. omega arith;
  checked = inl refl;
  valid = v;
}

IsAdmission-ends :
    (predict : Regime → StepFeatures → Option ℕ) (p : Policy) (m : Moment) (c : Coordinator)
    (st : FinetuningStore) (unspent : ℕ)
    → IsValid st
    → HasTokens st
    → ((admit_ft_to_step predict p m c st unspent ≡ raised) × Raises predict m)
      ⊎ ((r : Admitted) × (admit_ft_to_step predict p m c st unspent ≡ ended r)
          × IsAdmission predict p m c r)
unfolding admit_ft_to_step
IsAdmission-ends predict p m c st unspent v h =
    elim (Gate-cases (gate_of predict p m c st unspent)) [
      | inl (inl e) ↦ inr (
        nothing st unspent,
        rw (e, admit_ft_to_step) refl,
        nothing-IsAdmission predict p m c st unspent v,
      )
      | inl (inr e) ↦ inl (rw (e, admit_ft_to_step) refl, gate-Raises predict p m c st unspent e)
      | inr (inl e) ↦ inr (
        nothing st (unspent + m.feats.t_in),
        rw (e, admit_ft_to_step) refl,
        nothing-IsAdmission predict p m c st (unspent + m.feats.t_in) v,
      )
      | inr (inr (limit, samples, e)) ↦
          let o = gate_of-IsOpen predict p m c st unspent limit samples e in
          let start : Growth = record { store = st; admitted = []; tokens = 0 } in
          let grown =
            grow-IsGrown (suc limit) limit samples (fits_slo predict p m) m.feats start
              (start-IsGrown limit samples (fits_slo predict p m) m.feats st v) h (omega arith) in
          elim grown [
            | inl (eg, f, z) ↦ inl (rw (e, admit_ft_to_step, eg) refl, fits-Raises predict p m f z)
            | inr (g, eg, vg) ↦ inr (
              commit_growth unspent g,
              rw (e, admit_ft_to_step, eg) refl,
              committed-IsAdmission predict p m c unspent limit samples g.store g.admitted g.tokens
                  o vg,
            )
          ]
    ]

-- On a valid store whose samples have tokens, admission by the estimator's predictions ends: with
-- an exception only if contended decodes are the only regime that has been fitted, and else with a
-- result. The admitted tokens are those of the samples; they fit the free rows of the buffer, the
-- tokens that the step has left beside inference and, for a step with a prefill, the proportional
-- cap. Nothing is admitted while profiling, without a budget or in a phase that denies it. Once the
-- model is fitted, the predicted duration of the step with all admitted samples meets both limits.
-- The leaky bucket lets one sample pass at most. The store stays valid.
pub admit_ft_to_step-IsAdmission :
    {F : Type 0} (fl : Floats F) (millis : F → ℕ) (e : Estimator F) (p : Policy) (m : Moment)
    (c : Coordinator) (st : FinetuningStore) (unspent : ℕ)
    → IsValid st
    → HasTokens st
    → let predict = predicted fl millis p.split e in
      ((admit_ft_to_step predict p m c st unspent ≡ raised)
        × (m.is_ready ≡ true)
        × IsOnlyContended e)
      ⊎ ((r : Admitted) × (admit_ft_to_step predict p m c st unspent ≡ ended r)
          × IsAdmission predict p m c r)
unfolding Raises predicted
admit_ft_to_step-IsAdmission {F} fl millis e p m c st unspent v h =
    elim (IsAdmission-ends (predicted fl millis p.split e) p m c st unspent v h) [
      | inr found ↦ inr found
      | inl (q, (ready, r, f, z)) ↦ inl (
        q,
        ready,
        ((predict-fails fl p.split e f (some r) true).0
            (unmapped (Estimator.predict fl p.split e f (some r) true) z)).0,
      )
    ]
  where
    unmapped :
        (o : Option F) → (elim o [ none ↦ none | some x ↦ some (millis x) ]) ≡ none → o ≡ none
    unmapped none z = refl
    unmapped (some x) z = absurd (ground (arith, z))

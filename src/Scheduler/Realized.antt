-- ===== src/Scheduler/Realized.antt =====
-- deltaserve/ft_scheduler.py, `_features_from_output` and `_is_ft_only`: the estimator's features
-- of a step, read from what was scheduled, after the base scheduler has already advanced the
-- requests.
use delta_serve_v_llm.Common.{
  ℕ, suc, ◌+◌, ◌-◌, ◌≡◌, ap, ◌∙◌, sym, Bool, true, false, not, ◌&&◌, Option, none, some, List, [],
  ◌∷◌, ◌++◌, arith, ltb, if◌then◌else◌, length, elem, sum, Bool-cases, inl, inr,
}
use mathlib.Core.List.{append_assoc, append-nil}
use delta_serve_v_llm.Estimator.Features.{StepFeatures}

-- What the loop reads of a request; an adapter's number is 0 without one.
pub record Known : Type 0 where
  pub lora_int_id : ℕ
  pub num_computed_tokens : ℕ
  pub num_prompt_tokens : ℕ
  pub is_finetuning : Bool

-- The scheduled requests, none where the scheduler no longer knows it, with their tokens.
abbrev pub Realized : Type 0
Realized = List (Option Known × ℕ)

unfoldable pub note_lora : ℕ → List ℕ → List ℕ
note_lora id ids = if ltb 0 id && not (elem id ids) then id ∷ ids else ids

unfoldable pub note_scheduled : StepFeatures → Known → ℕ → StepFeatures
note_scheduled f r n =
    let pre_computed = r.num_computed_tokens - n in
    if ltb pre_computed r.num_prompt_tokens
    then record f {
      t_in = f.t_in + n;
      p = suc f.p;
      t_ft = if r.is_finetuning then f.t_ft + n else f.t_ft;
      prefill_lens = f.prefill_lens ++ (n ∷ []);
    }
    else record f { b_d = suc f.b_d; k = f.k + pre_computed }

abbrev pub no_features : StepFeatures
no_features = record { t_in = 0; p = 0; t_ft = 0; b_d = 0; k = 0; prefill_lens = []; bwd = false }

unfoldable pub scan_output : StepFeatures → List ℕ → Realized → StepFeatures × List ℕ
unfolding note_scheduled note_lora
scan_output f ids [] = (f, ids)
scan_output f ids ((none, n) ∷ rest) = scan_output f ids rest
scan_output f ids ((some r, n) ∷ rest) =
    scan_output (note_scheduled f r n) (note_lora r.lora_int_id ids) rest

unfoldable pub features_from_output : Realized → StepFeatures × List ℕ
unfolding scan_output
features_from_output = scan_output no_features []

-- `_update_after_schedule` of the base scheduler: every request has computed its scheduled tokens.
abbrev pub advanced : List (Known × ℕ) → Realized
advanced [] = []
advanced ((r, n) ∷ rest) =
    (some (record r { num_computed_tokens = r.num_computed_tokens + n }), n) ∷ advanced rest

-- Before the step: the requests whose prompt is not all computed, with their tokens; of these the
-- finetuning ones; and the contexts of the others.
abbrev pub prefills : List (Known × ℕ) → List ℕ
prefills [] = []
prefills ((r, n) ∷ rest) =
    if ltb r.num_computed_tokens r.num_prompt_tokens then n ∷ prefills rest else prefills rest

abbrev pub ft_prefills : List (Known × ℕ) → List ℕ
ft_prefills [] = []
ft_prefills ((r, n) ∷ rest) =
    if ltb r.num_computed_tokens r.num_prompt_tokens && r.is_finetuning
    then n ∷ ft_prefills rest
    else ft_prefills rest

abbrev pub decodes : List (Known × ℕ) → List ℕ
decodes [] = []
decodes ((r, n) ∷ rest) =
    if ltb r.num_computed_tokens r.num_prompt_tokens
    then decodes rest
    else r.num_computed_tokens ∷ decodes rest

-- Features `g` are features `f` and those of the scheduled requests as they were before the step.
pub record Adds (f : StepFeatures) (before : List (Known × ℕ)) (g : StepFeatures) : Type 0 where
  pub inputs : g.t_in ≡ f.t_in + sum (prefills before)
  pub lens : g.prefill_lens ≡ f.prefill_lens ++ prefills before
  pub count : g.p ≡ f.p + length (prefills before)
  pub finetuning : g.t_ft ≡ f.t_ft + sum (ft_prefills before)
  pub decoding : g.b_d ≡ f.b_d + length (decodes before)
  pub context : g.k ≡ f.k + sum (decodes before)

abbrev after : Known → ℕ → Known
after r n = record r { num_computed_tokens = r.num_computed_tokens + n }

noted_prefill :
    (f : StepFeatures) (r : Known) (n : ℕ)
    → ltb r.num_computed_tokens r.num_prompt_tokens ≡ true
    → let g = note_scheduled f (after r n) n in
      (g.t_in ≡ f.t_in + n)
      × (g.prefill_lens ≡ f.prefill_lens ++ (n ∷ []))
      × (g.p ≡ suc f.p)
      × (g.t_ft ≡ (if r.is_finetuning then f.t_ft + n else f.t_ft))
      × (g.b_d ≡ f.b_d)
      × (g.k ≡ f.k)
unfolding note_scheduled
noted_prefill f r n e = ground arith

noted_decode :
    (f : StepFeatures) (r : Known) (n : ℕ)
    → ltb r.num_computed_tokens r.num_prompt_tokens ≡ false
    → let g = note_scheduled f (after r n) n in
      (g.t_in ≡ f.t_in)
      × (g.prefill_lens ≡ f.prefill_lens)
      × (g.p ≡ f.p)
      × (g.t_ft ≡ f.t_ft)
      × (g.b_d ≡ suc f.b_d)
      × (g.k ≡ f.k + r.num_computed_tokens)
unfolding note_scheduled
noted_decode f r n e = ground arith

scan_output-Adds :
    (before : List (Known × ℕ)) (f : StepFeatures) (ids : List ℕ)
    → Adds f before (scan_output f ids (advanced before)).0
unfolding scan_output sum
scan_output-Adds [] f ids = record {
  inputs = omega arith;
  lens = sym (append-nil f.prefill_lens);
  count = omega arith;
  finetuning = omega arith;
  decoding = omega arith;
  context = omega arith;
}
scan_output-Adds ((r, n) ∷ rest) f ids =
    let g : StepFeatures = note_scheduled f (after r n) n in
    let q = scan_output-Adds rest g (note_lora r.lora_int_id ids) in
    elim (Bool-cases (ltb r.num_computed_tokens r.num_prompt_tokens)) [
      | inl e ↦
          let t = noted_prefill f r n e in
          record {
            inputs = rw e (omega (arith, q.inputs, t.0));
            lens = rw e (
                q.lens
                ∙ ap (λ (l : List ℕ). l ++ prefills rest) t.1
                ∙ append_assoc f.prefill_lens (n ∷ []) (prefills rest));
            count = rw e (omega (arith, q.count, t.2));
            finetuning = ground (arith, e, q.finetuning, t.3);
            decoding = rw e (omega (arith, q.decoding, t.4));
            context = rw e (omega (arith, q.context, t.5));
          }
      | inr e ↦
          let t = noted_decode f r n e in
          record {
            inputs = rw e (omega (arith, q.inputs, t.0));
            lens = rw e (q.lens ∙ ap (λ (l : List ℕ). l ++ prefills rest) t.1);
            count = rw e (omega (arith, q.count, t.2));
            finetuning = rw e (omega (arith, q.finetuning, t.3));
            decoding = rw e (omega (arith, q.decoding, t.4));
            context = rw e (omega (arith, q.context, t.5));
          }
    ]

-- The features of a scheduled step count it as it was before the base scheduler advanced its
-- requests: the prefill tokens, their split by request and the finetuning ones among them are those
-- of the requests whose prompt was not all computed, so also of a prompt that this step completes;
-- the other requests are the decodes, with the contexts they had.
pub features_from_output-Adds :
    (before : List (Known × ℕ)) → Adds no_features before (features_from_output (advanced before)).0
unfolding features_from_output
features_from_output-Adds before = scan_output-Adds before no_features []

-- ===== src/Admission/Composition.antt =====
-- `_current_step_features` of deltaserve/ft_scheduler.py.
use mathlib.Core.List.{append-nil, append_assoc}
use delta_serve_v_llm.Common.{
  ℕ, suc, ◌+◌, ◌-◌, ◌<◌, ◌≤◌, ◌≡◌, refl, sym, ap, ◌∙◌, ◌++◌, zero, inl, inr, true, Bool-cases, min,
  false, ◌&&◌, ◌==◌, List, [], ◌∷◌, arith, sum, sum-append, length, length-append, ltb,
  if◌then◌else◌,
}
use delta_serve_v_llm.Estimator.Features.{StepFeatures}
use delta_serve_v_llm.Admission.{
  Running, Waiting, add_prefill, scan_one, scan_running, scan_waiting, current_step_features,
}

-- The prefill part of a step is accounted for request by request, and there are no finetuning
-- tokens.
pub record IsComposed (f : StepFeatures) : Type 0 where
  pub tokens : f.t_in ≡ sum f.prefill_lens
  pub requests : f.p ≡ length f.prefill_lens
  pub no_ft : f.t_ft ≡ 0
  pub no_bwd : f.bwd ≡ false

add_prefill-IsComposed : (f : StepFeatures) (n : ℕ) → IsComposed f → IsComposed (add_prefill f n)
unfolding sum
add_prefill-IsComposed f n v = record {
  tokens = omega (arith, sum-append f.prefill_lens (n ∷ []), v.tokens);
  requests = omega (arith, length-append f.prefill_lens (n ∷ []), v.requests);
  no_ft = v.no_ft;
  no_bwd = v.no_bwd;
}

-- What the requests ask for, without a budget: the rest of a running prompt is a chunk where more
-- than one token is left and nothing is in flight, and any other running inference request decodes
-- one token.
pub data Part : Type 0 where
  nothing_of decode_of : Part
  chunk_of : ℕ → Part

abbrev pub part_of : Running → Part
part_of req =
    let left = req.num_tokens - req.num_computed_tokens in
    if req.is_finetuning
    then nothing_of
    else if ltb 1 left && (req.num_output_placeholders == 0)
    then chunk_of left
    else decode_of

abbrev pub lens_at : Part → List ℕ
lens_at (chunk_of n) = n ∷ []
lens_at _ = []

abbrev pub decodes_at : Part → ℕ
decodes_at decode_of = 1
decodes_at _ = 0

abbrev pub context_at : Part → ℕ → ℕ
context_at decode_of n = n
context_at _ n = 0

-- The chunks, the decodes and the decodes' context of the running requests.
abbrev pub chunks : List Running → List ℕ
chunks [] = []
chunks (req ∷ reqs) = lens_at (part_of req) ++ chunks reqs

abbrev pub decodes : List Running → ℕ
decodes [] = 0
decodes (req ∷ reqs) = decodes_at (part_of req) + decodes reqs

abbrev pub context : List Running → ℕ
context [] = 0
context (req ∷ reqs) = context_at (part_of req) req.num_computed_tokens + context reqs

-- The prompts that wait, as far as they are not computed.
abbrev pub prompts : List Waiting → List ℕ
prompts [] = []
prompts (req ∷ reqs) =
    let left = req.num_tokens - req.num_computed_tokens in
    if left == 0 then prompts reqs else left ∷ prompts reqs

-- The step `f` has grown to `g` by prefills of `lens` asked and `d` decodes with `k` tokens of
-- context, when `before` tokens of the budget remained and `after` do: nothing is left out unless
-- the budget is spent.
record IsGrownBy (lens : List ℕ) (d k before after : ℕ) (f g : StepFeatures) : Type 0 where
  composed : IsComposed f → IsComposed g
  decoded : g.b_d ≡ f.b_d + d
  read : g.k ≡ f.k + k
  left : after ≡ before - (sum lens + d)
  spent : g.t_in + after ≤ f.t_in + before
  asked_most : g.t_in ≤ f.t_in + sum lens
  filled : f.t_in + before ≤ g.t_in + d + after
  whole : sum lens + d ≤ before → g.prefill_lens ≡ f.prefill_lens ++ lens

IsGrownBy-refl : (f : StepFeatures) (n : ℕ) → IsGrownBy [] 0 0 n n f f
unfolding sum
IsGrownBy-refl f n = record {
  composed = λ v. v;
  decoded = omega arith;
  read = omega arith;
  left = omega arith;
  spent = omega arith;
  asked_most = omega arith;
  filled = omega arith;
  whole = λ h. sym (append-nil f.prefill_lens);
}

IsGrownBy-trans :
    {xs ys : List ℕ} {d e k l a b c : ℕ} {f g h : StepFeatures}
    → IsGrownBy xs d k a b f g
    → IsGrownBy ys e l b c g h
    → IsGrownBy (xs ++ ys) (d + e) (k + l) a c f h
IsGrownBy-trans {xs} {ys} {d} {e} {f} v w =
    let s = sum-append xs ys in
    record {
      composed = λ x. w.composed (v.composed x);
      decoded = omega (arith, v.decoded, w.decoded);
      read = omega (arith, v.read, w.read);
      left = omega (arith, s, v.left, w.left);
      spent = omega (arith, v.spent, w.spent);
      asked_most = omega (arith, s, v.asked_most, w.asked_most);
      filled = omega (arith, v.filled, w.filled);
      whole = λ p.
          w.whole (omega (arith, s, v.left))
          ∙ ap (λ (l : List ℕ). l ++ ys) (v.whole (omega (arith, s)))
          ∙ append_assoc f.prefill_lens xs ys;
    }

min_all : (m n : ℕ) → m ≤ n → min m n ≡ m
min_all m n h = ground arith

chunk-IsGrownBy :
    (f : StepFeatures) (left remaining : ℕ)
    → 0 < min left remaining
    → IsGrownBy
        (left ∷ [])
        0
        0
        remaining
        (remaining - min left remaining)
        f
        (add_prefill f (min left remaining))
unfolding sum
chunk-IsGrownBy f left remaining h = record {
  composed = add_prefill-IsComposed f (min left remaining);
  decoded = omega arith;
  read = omega arith;
  left = ground arith;
  spent = ground arith;
  asked_most = ground arith;
  filled = ground arith;
  whole = λ p. ap (λ (n : ℕ). f.prefill_lens ++ n ∷ []) (min_all left remaining (omega arith));
}

-- A request that asks for tokens when none remain.
spent-IsGrownBy : (f : StepFeatures) (left : ℕ) → 0 < left → IsGrownBy (left ∷ []) 0 0 0 0 f f
unfolding sum
spent-IsGrownBy f left h = record {
  composed = λ v. v;
  decoded = omega arith;
  read = omega arith;
  left = omega arith;
  spent = omega arith;
  asked_most = omega arith;
  filled = omega arith;
  whole = λ p. absurd (omega arith);
}

no_part-IsGrownBy :
    (f : StepFeatures) (context_tokens remaining : ℕ)
    → IsGrownBy [] 1 context_tokens remaining
        (remaining - 1)
        f
        (record f { b_d = suc f.b_d; k = f.k + context_tokens })
unfolding sum
no_part-IsGrownBy f context_tokens remaining = record {
  composed = λ v. ground (arith, v);
  decoded = omega arith;
  read = omega arith;
  left = omega arith;
  spent = omega arith;
  asked_most = omega arith;
  filled = omega arith;
  whole = λ h. sym (append-nil f.prefill_lens);
}

chunk_or_spent :
    (f : StepFeatures) (left remaining : ℕ)
    → 0 < left
    → let n = min left remaining in
      let r : StepFeatures × ℕ =
        if ltb 0 n then (add_prefill f n, remaining - n) else (f, remaining) in
      IsGrownBy (left ∷ []) 0 0 remaining r.1 f r.0
chunk_or_spent f left zero h =
    let e : ltb 0 (min left 0) ≡ false = ground arith in rw e (spent-IsGrownBy f left h)
chunk_or_spent f left (suc m) h =
    let e : ltb 0 (min left (suc m)) ≡ true = ground arith in
    rw e (chunk-IsGrownBy f left (suc m) (ground arith))

scan_one-IsGrownBy :
    (req : Running) (f : StepFeatures) (remaining : ℕ)
    → let part = part_of req in
      IsGrownBy
        (lens_at part)
        (decodes_at part)
        (context_at part req.num_computed_tokens)
        remaining
        (scan_one req f remaining).1
        f
        (scan_one req f remaining).0
scan_one-IsGrownBy req f remaining =
    let left = req.num_tokens - req.num_computed_tokens in
    elim (Bool-cases req.is_finetuning) [
      | inl e ↦ rw e (IsGrownBy-refl f remaining)
      | inr e ↦ elim (Bool-cases (ltb 1 left && (req.num_output_placeholders == 0))) [
        | inl t ↦ rw (e, t) (chunk_or_spent f left remaining (ground arith))
        | inr t ↦ rw (e, t) (no_part-IsGrownBy f req.num_computed_tokens remaining)
      ]
    ]

scan_running-IsGrownBy :
    (reqs : List Running) (f : StepFeatures) (remaining : ℕ)
    → IsGrownBy
        (chunks reqs)
        (decodes reqs)
        (context reqs)
        remaining
        (scan_running reqs f remaining).1
        f
        (scan_running reqs f remaining).0
unfolding scan_running
scan_running-IsGrownBy [] f remaining = IsGrownBy-refl f remaining
scan_running-IsGrownBy (req ∷ reqs) f remaining =
    IsGrownBy-trans (scan_one-IsGrownBy req f remaining)
      (scan_running-IsGrownBy reqs (scan_one req f remaining).0 (scan_one req f remaining).1)

sum_nil : (n : ℕ) → n - sum [] ≡ n
unfolding sum
sum_nil n = omega arith

prompts_positive : (reqs : List Waiting) → sum (prompts reqs) ≡ 0 → prompts reqs ≡ []
unfolding sum
prompts_positive [] h = refl
prompts_positive (req ∷ reqs) h =
    elim (Bool-cases (req.num_tokens - req.num_computed_tokens == 0)) [
      | inl e ↦ rw e (prompts_positive reqs (rw e at h))
      | inr e ↦ absurd (ground (arith, h))
    ]

-- Without tokens left nothing of the prompts is taken.
starved-IsGrownBy : (reqs : List Waiting) (f : StepFeatures) → IsGrownBy (prompts reqs) 0 0 0 0 f f
starved-IsGrownBy reqs f = record {
  composed = λ v. v;
  decoded = omega arith;
  read = omega arith;
  left = omega arith;
  spent = omega arith;
  asked_most = omega arith;
  filled = omega arith;
  whole = λ h. rw (prompts_positive reqs (omega arith)) (sym (append-nil f.prefill_lens));
}

-- What remains after a prompt and the rest is what remains after all of them.
rest_left :
    (left m : ℕ) (reqs : List Waiting) (f : StepFeatures) {g : StepFeatures}
    → IsGrownBy
        (prompts reqs)
        0
        0
        (suc m - min left (suc m))
        (suc m - min left (suc m) - sum (prompts reqs))
        (add_prefill f (min left (suc m)))
        g
    → IsGrownBy
        (prompts reqs)
        0
        0
        (suc m - min left (suc m))
        (suc m - sum (left ∷ prompts reqs))
        (add_prefill f (min left (suc m)))
        g
unfolding sum
rest_left left m reqs f w =
    let e : suc m - min left (suc m) - sum (prompts reqs) ≡ suc m - (left + sum (prompts reqs)) =
      ground arith in
    rw e at w

scan_waiting-IsGrownBy :
    (reqs : List Waiting) (f : StepFeatures) (remaining : ℕ)
    → IsGrownBy
        (prompts reqs)
        0
        0
        remaining
        (remaining - sum (prompts reqs))
        f
        (scan_waiting reqs f remaining)
unfolding scan_waiting
scan_waiting-IsGrownBy [] f remaining =
    let e : remaining - sum [] ≡ remaining = sum_nil remaining in rw e (IsGrownBy-refl f remaining)
scan_waiting-IsGrownBy (req ∷ reqs) f zero =
    let e : 0 - sum (prompts (req ∷ reqs)) ≡ 0 = omega arith in
    rw e (starved-IsGrownBy (req ∷ reqs) f)
scan_waiting-IsGrownBy (req ∷ reqs) f (suc m) =
    let left = req.num_tokens - req.num_computed_tokens in
    let more : (suc m == 0) ≡ false = ground arith in
    elim (Bool-cases (left == 0)) [
      | inl e ↦
          let z : (min left (suc m) == 0) ≡ true = ground arith in
          rw (more, e, z) (scan_waiting-IsGrownBy reqs f (suc m))
      | inr e ↦
          let n = min left (suc m) in
          let z : (n == 0) ≡ false = ground arith in
          let rest = scan_waiting-IsGrownBy reqs (add_prefill f n) (suc m - n) in
          rw (more, e, z)
            (IsGrownBy-trans (chunk-IsGrownBy f left (suc m) (ground arith))
              (rest_left left m reqs f rest))
    ]

-- The estimate of the coming step is composed request by request. Its decodes and their context are
-- those of all running inference requests that decode; finetuning requests in flight are not
-- counted. Its prefill tokens are at most the budget of the step and at most what the running
-- chunks and the waiting prompts ask for; with one token for each decode they use up the budget or
-- cover all that is asked; and where all that is asked fits the budget, the prefills are the
-- running chunks followed by the waiting prompts, in order and in full.
pub current_step_features-IsComposed :
    (budget : ℕ) (running : List Running) (waiting : List Waiting)
    → let f = (current_step_features budget running waiting).0 in
      let lens = chunks running ++ prompts waiting in
      IsComposed f
      × (f.b_d ≡ decodes running)
      × (f.k ≡ context running)
      × (f.t_in ≤ budget)
      × (f.t_in ≤ sum lens)
      × (min budget (sum lens + decodes running) ≤ f.t_in + decodes running)
      × (sum lens + decodes running ≤ budget → f.prefill_lens ≡ lens)
unfolding current_step_features sum
current_step_features-IsComposed budget running waiting =
    let start : StepFeatures = record {
      t_in = 0;
      p = 0;
      t_ft = 0;
      b_d = 0;
      k = 0;
      prefill_lens = [];
      bwd = false;
    } in
    let v : IsComposed start = record {
      tokens = refl;
      requests = refl;
      no_ft = refl;
      no_bwd = refl;
    } in
    let scanned = scan_running running start budget in
    let grown =
      IsGrownBy-trans (scan_running-IsGrownBy running start budget)
        (scan_waiting-IsGrownBy waiting scanned.0 scanned.1) in
    (
      grown.composed v,
      omega (arith, grown.decoded),
      omega (arith, grown.read),
      omega (arith, grown.spent),
      omega (arith, grown.asked_most),
      ground (arith, grown.left, grown.filled),
      λ h. grown.whole (omega (arith, h)),
    )

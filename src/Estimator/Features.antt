-- ===== src/Estimator/Features.antt =====
-- deltaserve/estimator.py: the composition of a step and its regime. Token counts are whole
-- numbers; the source keeps them as floats that are never fractional.
use delta_serve_v_llm.Common.{ℕ, ◌+◌, ◌*◌, Bool, ◌&&◌, ◌||◌, List, [], ◌∷◌, ltb, if◌then◌else◌}

pub data Regime : Type 0 where
  inf_prefill eager decode_only decode_bwd ft_mixed : Regime

-- `prefill_lens or None` is the empty list where it is `None`.
pub record StepFeatures : Type 0 where
  pub t_in : ℕ
  pub p : ℕ
  pub t_ft : ℕ
  pub b_d : ℕ
  pub k : ℕ
  pub prefill_lens : List ℕ
  pub bwd : Bool

unfoldable pub sum_squares : List ℕ → ℕ
sum_squares [] = 0
sum_squares (n ∷ ns) = n * n + sum_squares ns

abbrev pub has_ft : StepFeatures → Bool
has_ft f = ltb 0 f.t_ft

-- `split` is the process-wide `_FT_MIXED_SPLIT`.
unfoldable pub regime_of : Bool → StepFeatures → Regime
regime_of split f =
    if has_ft f
    then (if split && (ltb f.t_ft f.t_in || ltb 0 f.b_d) then ft_mixed else eager)
    else if ltb 0 f.t_in
    then inf_prefill
    else if f.bwd
    then decode_bwd
    else decode_only

unfoldable pub contended : StepFeatures → Bool
contended f = f.bwd && ltb 0 f.t_in

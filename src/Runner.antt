-- ===== src/Runner.antt =====
-- deltaserve/model_runner.py: when the model runner takes the GPU from the backward child and gives
-- it back, over a step of the engine. A CUDA event is the number of its recording; which recordings
-- the GPU has passed is an input of each step. The coordinator's flags that decide here are fields
-- of the runner.
pub mod Grant
pub mod Relay
mod Tests
use delta_serve_v_llm.Common.{
  ℕ, suc, ◌+◌, ◌-◌, Bool, true, false, not, ◌&&◌, ◌||◌, Option, none, some, ltb, leb, if◌then◌else◌,
  is_some,
}

pub record FinetuneConfig : Type 0 where
  pub fwd_token_throttle_enable : Bool
  pub fwd_token_throttle : ℕ
  pub pause_prefill_always : Bool
  pub pause_until_prefill_done : Bool
  pub relay_mode : Bool

-- What the scheduler put on the step: prefill tokens, the finetuning ones of them, and decodes.
pub record Features : Type 0 where
  pub t_in : ℕ
  pub t_ft : ℕ
  pub b_d : ℕ

pub record Runner : Type 0 where
  -- The shared event: set, the backward may run.
  pub gpu_grant : Bool
  -- `backward_process is not None`
  pub child : Bool
  pub pending_backward : Bool
  pub fwd_throttle_active : Bool
  pub throttle_held : Bool
  pub ft_resume_evt : Option ℕ
  pub ft_prefill_evt : Option ℕ
  -- The number of the next recording.
  pub next_evt : ℕ

unfoldable pub fresh : Bool → Runner
fresh has_child = record {
  gpu_grant = true;
  child = has_child;
  pending_backward = false;
  fwd_throttle_active = false;
  throttle_held = false;
  ft_resume_evt = none;
  ft_prefill_evt = none;
  next_evt = 0;
}

unfoldable pub gpu_pause_backward : Runner → Runner
gpu_pause_backward r = if r.child then record r { gpu_grant = false } else r

unfoldable pub gpu_resume_backward : Runner → Runner
gpu_resume_backward r = if r.child then record r { gpu_grant = true } else r

-- `_ft_maybe_resume_backward`
unfoldable pub ft_maybe_resume_backward : (ℕ → Bool) → Runner → Runner
unfolding gpu_resume_backward
ft_maybe_resume_backward passed r = elim r.ft_resume_evt [
  | none ↦ r
  | some ev ↦
      if passed ev
      then (if r.throttle_held
          then record r { ft_resume_evt = none }
          else gpu_resume_backward (record r { ft_resume_evt = none }))
      else r
]

-- `int(feats.t_in) - int(feats.t_ft)`; the finetuning tokens are among the prefill tokens.
unfoldable pub inf_prefill : Features → ℕ
inf_prefill f = f.t_in - f.t_ft

-- The throttle is hit: it is on, and the step has that many inference tokens.
unfoldable pub throttles : FinetuneConfig → Features → Bool
unfolding inf_prefill
throttles cfg f =
    cfg.fwd_token_throttle_enable
    && (ltb 0 cfg.fwd_token_throttle && leb cfg.fwd_token_throttle (inf_prefill f + f.b_d))

unfoldable pub is_hit : FinetuneConfig → Option Features → Bool
unfolding throttles
is_hit cfg none = false
is_hit cfg (some f) = throttles cfg f

unfoldable pub release_throttle : Runner → Runner
unfolding gpu_resume_backward
release_throttle r = record (gpu_resume_backward r) {
  throttle_held = false;
  fwd_throttle_active = false;
}

-- The idle release of `_ft_before_step`.
unfoldable pub idle_release : FinetuneConfig → Option Features → Runner → Runner
unfolding release_throttle is_hit
idle_release cfg feats r =
    if r.throttle_held && not (is_hit cfg feats) then release_throttle r else r

-- Whether the pause rules protect the step from a backward that starts now.
unfoldable pub is_protected : FinetuneConfig → Option Features → Bool
unfolding inf_prefill throttles
is_protected cfg none = false
is_protected cfg (some f) = ltb 0 (inf_prefill f) || throttles cfg f

-- `execute_trigger`, the flags and the grant it touches.
unfoldable pub execute_trigger : Runner → Runner
unfolding gpu_pause_backward
execute_trigger r =
    if r.child
    then record (if r.fwd_throttle_active then gpu_pause_backward r else r) {
      pending_backward = true;
    }
    else r

-- The start paused behind a prefill that is still on the GPU.
unfoldable pub pause_behind : (ℕ → Bool) → Runner → Runner
unfolding gpu_pause_backward
pause_behind passed r = elim r.ft_prefill_evt [
  | none ↦ r
  | some ev ↦ if passed ev then r else record (gpu_pause_backward r) { ft_resume_evt = some ev }
]

-- The relayed trigger's part of `_ft_before_step`.
unfoldable pub relayed : FinetuneConfig → Option Features → (ℕ → Bool) → Runner → Runner
unfolding is_protected gpu_pause_backward pause_behind execute_trigger
relayed cfg feats passed r =
    execute_trigger
      (pause_behind passed (if is_protected cfg feats then gpu_pause_backward r else r))

-- `_ft_before_step`; `trigger` says whether the step carries a backward trigger.
unfoldable pub ft_before_step :
    FinetuneConfig → Option Features → Bool → (ℕ → Bool) → Runner → Runner
unfolding ft_maybe_resume_backward idle_release relayed
ft_before_step cfg feats trigger passed r =
    let s : Runner = idle_release cfg feats (ft_maybe_resume_backward passed r) in
    if cfg.relay_mode && trigger then relayed cfg feats passed s else s

-- `_trigger_backward` of a coordinator that shares the process with the runner: the flags and the
-- grant it touches. While profiling, it returns at once, which is no turn of the runner.
unfoldable pub trigger_backward : Runner → Runner
unfolding gpu_pause_backward
trigger_backward r = record (if r.fwd_throttle_active then gpu_pause_backward r else r) {
  pending_backward = true;
}

-- `pause_bwd` and `pause_throttle` of `_ft_pause_decision`.
unfoldable pub wants_pause : FinetuneConfig → Option Features → Runner → Bool × Bool
unfolding is_protected is_hit
wants_pause cfg feats r =
    let gated : Bool = r.pending_backward || cfg.pause_prefill_always in
    (gated && is_protected cfg feats, gated && is_hit cfg feats)

-- `_ft_pause_decision`
unfoldable pub ft_pause_decision :
    FinetuneConfig → Option Features → Runner → Runner × (Bool × Bool)
unfolding wants_pause release_throttle gpu_pause_backward
ft_pause_decision cfg feats r =
    let w : Bool × Bool = wants_pause cfg feats r in
    let s : Runner = if r.throttle_held && not w.1 then release_throttle r else r in
    (
      if w.0
          then record (gpu_pause_backward s) { throttle_held = w.1; fwd_throttle_active = w.1 }
          else s,
      w,
    )

unfoldable pub record_prefill : FinetuneConfig → Option Features → Runner → Runner
unfolding inf_prefill
record_prefill cfg none r = r
record_prefill cfg (some f) r =
    if cfg.relay_mode && ltb 0 (inf_prefill f)
    then record r { ft_prefill_evt = some r.next_evt; next_evt = suc r.next_evt }
    else r

-- `_ft_timing_end`, its pause bookkeeping; `ok` says whether the forward completed.
unfoldable pub ft_timing_end :
    FinetuneConfig → Option Features → Bool → Bool × Bool → Runner → Runner
unfolding record_prefill gpu_resume_backward
ft_timing_end cfg feats ok w r =
    let s : Runner = if ok then record_prefill cfg feats r else r in
    if w.0 && not w.1
    then (if ok && cfg.pause_until_prefill_done
        then record s { ft_resume_evt = some s.next_evt; next_evt = suc s.next_evt }
        else gpu_resume_backward s)
    else s

-- One step of the engine, as the runner sees it.
pub record StepInput : Type 0 where
  pub feats : Option Features
  pub trigger : Bool
  -- The recordings that the GPU has passed by now.
  pub passed : ℕ → Bool
  -- Whether there is a forward (a step without tokens returns early), and whether it completes.
  pub runs : Bool
  pub ok : Bool

-- What `execute_model` does between the stock calls; `during` is the runner while the forward runs.
unfoldable pub during : FinetuneConfig → StepInput → Runner → Runner × (Bool × Bool)
unfolding ft_before_step ft_pause_decision
during cfg i r = ft_pause_decision cfg i.feats (ft_before_step cfg i.feats i.trigger i.passed r)

unfoldable pub execute_model : FinetuneConfig → StepInput → Runner → Runner
unfolding ft_before_step during ft_timing_end
execute_model cfg i r =
    if i.runs
    then ft_timing_end cfg i.feats i.ok (during cfg i r).1 (during cfg i r).0
    else ft_before_step cfg i.feats i.trigger i.passed r

-- The child's answer is taken from the pipe.
unfoldable pub acknowledged : Runner → Runner
acknowledged r = record r { pending_backward = false }

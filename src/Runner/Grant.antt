-- ===== src/Runner/Grant.antt =====
-- The grant of the GPU to the backward child over the steps of deltaserve/model_runner.py: it is
-- taken where an inference prefill must be protected, and never kept without someone to give it
-- back.
use delta_serve_v_llm.Common.{
  ℕ, ◌≡◌, inl, inr, Bool, true, false, ◌&&◌, ◌||◌, Option, none, some, arith, is_some, List, [],
  ◌∷◌, Bool-cases, Option-cases, if◌then◌else◌,
}
use delta_serve_v_llm.Runner.{
  FinetuneConfig, Features, Runner, fresh, gpu_pause_backward, gpu_resume_backward,
  ft_maybe_resume_backward, is_hit, release_throttle, idle_release, is_protected, execute_trigger,
  pause_behind, relayed, ft_before_step, wants_pause, ft_pause_decision, record_prefill,
  ft_timing_end, StepInput, during, execute_model, acknowledged, trigger_backward,
}

-- Without a child the grant stays; the throttle's two flags agree; and a grant that is taken is
-- held by the throttle or by an event whose passing gives it back.
pub record IsOwned (r : Runner) : Type 0 where
  pub childless : r.child ≡ false → r.gpu_grant ≡ true
  pub mirrored : r.fwd_throttle_active ≡ r.throttle_held
  pub owned : r.gpu_grant ≡ false → (r.throttle_held || is_some r.ft_resume_evt) ≡ true

-- Between the step's start and its pause decision a grant may also be taken for the step itself, if
-- the decision will pause.
record IsOwnedFor (cfg : FinetuneConfig) (feats : Option Features) (r : Runner) : Type 0 where
  childless : r.child ≡ false → r.gpu_grant ≡ true
  mirrored : r.fwd_throttle_active ≡ r.throttle_held
  owned :
      r.gpu_grant ≡ false
      → ((r.throttle_held || is_some r.ft_resume_evt) || (wants_pause cfg feats r).0) ≡ true

fresh-IsOwned : (b : Bool) → IsOwned (fresh b)
unfolding fresh
fresh-IsOwned b = ground arith

module _ (cfg : FinetuneConfig) where
  maybe_resume-IsOwned :
      (passed : ℕ → Bool) (r : Runner) → IsOwned r → IsOwned (ft_maybe_resume_backward passed r)
  unfolding ft_maybe_resume_backward gpu_resume_backward
  maybe_resume-IsOwned passed r i = ground (arith, i)

  idle_release-IsOwned :
      (feats : Option Features) (r : Runner) → IsOwned r → IsOwned (idle_release cfg feats r)
  unfolding idle_release release_throttle gpu_resume_backward
  idle_release-IsOwned feats r i = ground (arith, i)

  relayed-IsOwnedFor :
      (feats : Option Features) (passed : ℕ → Bool) (r : Runner)
      → IsOwned r
      → IsOwnedFor cfg feats (relayed cfg feats passed r)
  unfolding relayed execute_trigger pause_behind gpu_pause_backward wants_pause
  relayed-IsOwnedFor feats passed r i = ground (arith, i)

  relax : (feats : Option Features) (r : Runner) → IsOwned r → IsOwnedFor cfg feats r
  relax feats r i = ground (arith, i)

  before_step-IsOwnedFor :
      (feats : Option Features) (trigger : Bool) (passed : ℕ → Bool) (r : Runner)
      → IsOwned r
      → IsOwnedFor cfg feats (ft_before_step cfg feats trigger passed r)
  unfolding ft_before_step
  before_step-IsOwnedFor feats trigger passed r i =
      let s = ft_maybe_resume_backward passed r in
      let j = idle_release-IsOwned feats s (maybe_resume-IsOwned passed r i) in
      elim (Bool-cases (cfg.relay_mode && trigger)) [
        | inl e ↦ rw e (relayed-IsOwnedFor feats passed (idle_release cfg feats s) j)
        | inr e ↦ rw e (relax feats (idle_release cfg feats s) j)
      ]

  hit-protected :
      (feats : Option Features) → is_hit cfg feats ≡ true → is_protected cfg feats ≡ true
  unfolding is_hit is_protected
  hit-protected none h = absurd (ground arith)
  hit-protected (some f) h = ground arith

  wants-both :
      (feats : Option Features) (r : Runner)
      → (wants_pause cfg feats r).1 ≡ true
      → (wants_pause cfg feats r).0 ≡ true
  unfolding wants_pause
  wants-both feats r h = ground (arith, hit-protected feats)

  -- After the decision: with a pause wanted, its kind is in the flags; else someone owns a taken
  -- grant.
  record Decided (feats : Option Features) (w : Bool × Bool) (r : Runner) : Type 0 where
    childless : r.child ≡ false → r.gpu_grant ≡ true
    mirrored : r.fwd_throttle_active ≡ r.throttle_held
    held : w.0 ≡ true → r.throttle_held ≡ w.1
    taken : w.0 ≡ true → r.child ≡ true → r.gpu_grant ≡ false
    owned : w.0 ≡ false → r.gpu_grant ≡ false → (r.throttle_held || is_some r.ft_resume_evt) ≡ true

  decision-Decided :
      (feats : Option Features) (r : Runner)
      → IsOwnedFor cfg feats r
      → Decided feats (wants_pause cfg feats r) (ft_pause_decision cfg feats r).0
  unfolding ft_pause_decision gpu_pause_backward gpu_resume_backward release_throttle
  decision-Decided feats r i = ground (arith, i, wants-both feats r)

  timing_end-IsOwned :
      (feats : Option Features) (ok : Bool) (w : Bool × Bool) (r : Runner)
      → Decided feats w r
      → IsOwned (ft_timing_end cfg feats ok w r)
  unfolding ft_timing_end gpu_resume_backward record_prefill
  timing_end-IsOwned none ok w r d = ground (arith, d)
  timing_end-IsOwned (some f) ok w r d = ground (arith, d)

  unpaused :
      (feats : Option Features) (r : Runner)
      → is_protected cfg feats ≡ false
      → IsOwnedFor cfg feats r
      → IsOwned r
  unfolding wants_pause
  unpaused feats r p i = ground (arith, i)

  execute_model-IsOwned :
      (i : StepInput) (r : Runner)
      → (is_protected cfg i.feats ≡ true → i.runs ≡ true)
      → IsOwned r
      → IsOwned (execute_model cfg i r)
  unfolding execute_model during
  execute_model-IsOwned i r p o =
      let s = ft_before_step cfg i.feats i.trigger i.passed r in
      let b = before_step-IsOwnedFor i.feats i.trigger i.passed r o in
      elim (Bool-cases i.runs) [
        | inl e ↦ rw e (
            timing_end-IsOwned i.feats i.ok (wants_pause cfg i.feats s)
              (ft_pause_decision cfg i.feats s).0 (decision-Decided i.feats s b))
        | inr e ↦ rw e (unpaused i.feats s (ground (arith, p)) b)
      ]

-- What happens to a runner: a step, the sampling after it (with the recordings passed by then), its
-- child's answer, or a backward that the coordinator triggers itself: at the end of a step's
-- forward, when the rows are captured, or at an epoch's flush. Under the relay that coordinator is
-- the scheduler's, and the trigger reaches the runner with a step.
pub data Turn : Type 0 where
  steps : StepInput → Turn
  samples : (ℕ → Bool) → Turn
  answered triggers : Turn

unfoldable pub turn : FinetuneConfig → Turn → Runner → Runner
unfolding execute_model acknowledged trigger_backward
turn cfg (steps i) r = execute_model cfg i r
turn cfg (samples passed) r = ft_maybe_resume_backward passed r
turn cfg answered r = acknowledged r
turn cfg triggers r = if cfg.relay_mode then r else trigger_backward r

unfoldable pub play : FinetuneConfig → List Turn → Runner → Runner
unfolding turn
play cfg [] r = r
play cfg (t ∷ ts) r = play cfg ts (turn cfg t r)

-- A step whose features ask for protection has tokens, so its forward runs.
abbrev pub AllRun : FinetuneConfig → List Turn → Type 0
AllRun cfg [] = Unit {0}
AllRun cfg (steps i ∷ ts) = (is_protected cfg i.feats ≡ true → i.runs ≡ true) × AllRun cfg ts
AllRun cfg (samples passed ∷ ts) = AllRun cfg ts
AllRun cfg (answered ∷ ts) = AllRun cfg ts
AllRun cfg (triggers ∷ ts) = AllRun cfg ts

trigger_backward-IsOwned :
    (relay : Bool) (r : Runner) → IsOwned r → IsOwned (if relay then r else trigger_backward r)
unfolding trigger_backward gpu_pause_backward
trigger_backward-IsOwned relay r i = ground (arith, i)

turn-IsOwned :
    (cfg : FinetuneConfig) (ts : List Turn) (r : Runner)
    → AllRun cfg ts
    → IsOwned r
    → IsOwned (play cfg ts r)
unfolding play turn acknowledged
turn-IsOwned cfg [] r a i = i
turn-IsOwned cfg (steps j ∷ ts) r a i =
    turn-IsOwned cfg ts (execute_model cfg j r) a.1 (execute_model-IsOwned cfg j r a.0 i)
turn-IsOwned cfg (samples passed ∷ ts) r a i =
    turn-IsOwned cfg ts (ft_maybe_resume_backward passed r) a (maybe_resume-IsOwned cfg passed r i)
turn-IsOwned cfg (answered ∷ ts) r a i =
    turn-IsOwned cfg ts (acknowledged r) a
      (record { childless = i.childless; mirrored = i.mirrored; owned = i.owned })
turn-IsOwned cfg (triggers ∷ ts) r a i =
    turn-IsOwned cfg ts (if cfg.relay_mode then r else trigger_backward r) a
      (trigger_backward-IsOwned cfg.relay_mode r i)

-- Over any steps from a new runner, with their sampling, the triggers of a coordinator in the same
-- process and the child's answers between them, where every step that the pause rules protect has a
-- forward: without a child the grant stays; the throttle's two flags agree; and whenever the
-- child's grant is taken, the throttle holds it or an event is awaited whose passing gives it back.
pub play-IsOwned :
    (cfg : FinetuneConfig) (ts : List Turn) (has_child : Bool)
    → AllRun cfg ts
    → IsOwned (play cfg ts (fresh has_child))
play-IsOwned cfg ts has_child a = turn-IsOwned cfg ts (fresh has_child) a (fresh-IsOwned has_child)

abbrev pub idle : (ℕ → Bool) → StepInput
idle passed = record { feats = none; trigger = false; passed = passed; runs = false; ok = false }

idle-resumes :
    (cfg : FinetuneConfig) (passed : ℕ → Bool) (r : Runner)
    → ((ev : ℕ) → passed ev ≡ true)
    → IsOwned r
    → ((execute_model cfg (idle passed) r).gpu_grant ≡ true)
      × ((execute_model cfg (idle passed) r).throttle_held ≡ false)
unfolding execute_model ft_before_step ft_maybe_resume_backward idle_release release_throttle is_hit
    gpu_resume_backward
idle-resumes cfg passed r h i = elim (Option-cases r.ft_resume_evt) [
  | inl e ↦ ground (arith, i, e)
  | inr (ev, e) ↦ ground (arith, i, e, h ev)
]

-- The backward is never starved once the engine is idle: after any steps from a new runner, with
-- their sampling, the triggers of a coordinator in the same process and the child's answers between
-- them, where every step that the pause rules protect has a forward, one step without tokens,
-- features or trigger, made when the GPU has passed every event recorded so far, leaves the grant
-- set and no throttle held.
pub play-resumes :
    (cfg : FinetuneConfig) (ts : List Turn) (has_child : Bool) (passed : ℕ → Bool)
    → AllRun cfg ts
    → ((ev : ℕ) → passed ev ≡ true)
    → ((execute_model cfg (idle passed) (play cfg ts (fresh has_child))).gpu_grant ≡ true)
      × ((execute_model cfg (idle passed) (play cfg ts (fresh has_child))).throttle_held ≡ false)
play-resumes cfg ts has_child passed a h =
    idle-resumes cfg passed (play cfg ts (fresh has_child)) h (play-IsOwned cfg ts has_child a)

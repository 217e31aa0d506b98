-- ===== src/Runner/Tests.antt =====
-- A prefill with a backward outstanding, then idle steps, and the theorems there.
use delta_serve_v_llm.Common.{ℕ, ◌≡◌, refl, Bool, true, false, some, List, [], ◌∷◌, arith}
use delta_serve_v_llm.Runner.{
  FinetuneConfig, Features, fresh, StepInput, during, execute_model, ft_before_step,
  ft_maybe_resume_backward, idle_release, relayed, is_protected, throttles, inf_prefill,
  gpu_pause_backward, gpu_resume_backward, pause_behind, execute_trigger, ft_pause_decision,
  trigger_backward, wants_pause, is_hit, release_throttle, ft_timing_end, record_prefill,
}
use delta_serve_v_llm.Common.{zero, suc, Option, none}
use delta_serve_v_llm.Backward.Pause.Group.{all_below}
use delta_serve_v_llm.Runner.Relay.{
  RankAck, relay_backward_outstanding, relay_backward_done, all_done, triggered, fired, at_rest,
  stepped, Reach-together,
}
use delta_serve_v_llm.Runner.Grant.{
  IsOwned, Turn, steps, triggers, play, turn, AllRun, idle, play-IsOwned, play-resumes,
}

abbrev config : FinetuneConfig
config = record {
  fwd_token_throttle_enable = true;
  fwd_token_throttle = 64;
  pause_prefill_always = false;
  pause_until_prefill_done = true;
  relay_mode = true;
}

abbrev prefill : Features
prefill = record { t_in = 100; t_ft = 0; b_d = 2 }

-- The step brings a trigger and a prefill that hits the throttle; nothing has passed on the GPU.
abbrev first_step : StepInput
first_step = record {
  feats = some prefill;
  trigger = true;
  passed = λ (ev : ℕ). false;
  runs = true;
  ok = true;
}

-- A coordinator in the runner's process, which triggers between two such steps.
abbrev local_config : FinetuneConfig
local_config = record config { relay_mode = false }

abbrev history : List Turn
history = steps first_step ∷ triggers ∷ steps first_step ∷ []

history-AllRun : AllRun local_config history
history-AllRun = ((λ h. refl), ((λ h. refl), omega arith))

history_paused : (play local_config history (fresh true)).gpu_grant ≡ false
unfolding play turn execute_model during ft_before_step ft_maybe_resume_backward idle_release
    relayed is_protected throttles inf_prefill gpu_pause_backward gpu_resume_backward pause_behind
    execute_trigger ft_pause_decision wants_pause is_hit release_throttle ft_timing_end
    record_prefill fresh trigger_backward
history_paused = refl

play-IsOwned_example : IsOwned (play local_config history (fresh true))
play-IsOwned_example = play-IsOwned local_config history true history-AllRun

abbrev all_passed : ℕ → Bool
all_passed ev = true

play-resumes_example :
    ((execute_model local_config
        (idle all_passed)
        (play local_config history (fresh true))).gpu_grant
      ≡ true)
    × ((execute_model local_config
          (idle all_passed)
          (play local_config history (fresh true))).throttle_held
        ≡ false)
play-resumes_example = play-resumes local_config history true all_passed history-AllRun (λ ev. refl)

-- Two ranks with a backward outstanding, of which only the first child has answered; then the
-- second does.
abbrev one_answer : ℕ → Option ℕ
one_answer zero = some 7
one_answer (suc k) = none

abbrev other_answer : ℕ → Option ℕ
other_answer zero = none
other_answer (suc k) = some 8

abbrev fired_rank : RankAck
fired_rank = triggered (record { child = true; pending_backward = false; relay_ack = none })

abbrev after_one : ℕ → RankAck
after_one k =
    (relay_backward_done (one_answer k) (all_done 2 one_answer (λ (j : ℕ). fired_rank))
      fired_rank).0

Reach-together_example :
    (relay_backward_outstanding (after_one 0) ≡ true)
    × ((relay_backward_done (other_answer 0) (all_done 2 other_answer after_one) (after_one 0)).1
        ≡ some 7)
unfolding all_below
Reach-together_example =
    Reach-together other_answer 0 (stepped one_answer (fired at_rest)) (omega arith)

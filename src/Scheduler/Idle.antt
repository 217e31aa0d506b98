-- ===== src/Scheduler/Idle.antt =====
-- `has_requests` of deltaserve/ft_scheduler.py against what admission then does.
use delta_serve_v_llm.Common.{ℕ, suc, max, ◌≤◌, ◌≡◌, true, false, Option, arith}
use delta_serve_v_llm.Estimator.Features.{Regime, StepFeatures}
use delta_serve_v_llm.Store.{has_next}
use delta_serve_v_llm.Coordinator.{next_ft_budget}
use delta_serve_v_llm.Admission.{Policy, Moment, ended, nothing, gate_of, admit_ft_to_step}
use delta_serve_v_llm.Scheduler.{Scheduler, has_requests}

-- In the last epoch, with finetuning enabled and started, nothing left to select and a budget of
-- one sample or more, the scheduler reports work without any request, and the admission that
-- follows admits nothing and leaves the store and the credit as they were.
pub has_requests-spins :
    (predict : Regime → StepFeatures → Option ℕ) (p : Policy) (m : Moment) (s : Scheduler)
    → s.coord.ft_started ≡ true
    → has_next s.store ≡ false
    → suc s.store.current_epoch ≡ s.store.total_epochs
    → max 1 s.coord.min_sample_len ≤ next_ft_budget s.coord
    → (has_requests false false true s ≡ true)
      × (admit_ft_to_step predict p m s.coord s.store s.unspent_prefill
          ≡ ended (nothing s.store s.unspent_prefill))
unfolding has_requests admit_ft_to_step gate_of
has_requests-spins predict p m s h1 h2 h3 h4 = (ground arith, ground arith)

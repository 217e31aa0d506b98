-- ===== src/Scheduler/Tiers.antt =====
-- deltaserve/ft_scheduler.py, `schedule`, and deltaserve/engine_core.py, EngineInputs: an inference
-- request that arrives just before or just after a finetuning-only step is built. Handling a client
-- request is vLLM's engine, a parameter, and so is `plan`: what admission and the base scheduler
-- decide in a state. What other threads have put into the input queue at a test is an input.
use delta_serve_v_llm.Common.{
  ℕ, ◌+◌, ◌<◌, ◌≡◌, refl, ap, ◌∙◌, Bool, true, false, not, ◌&&◌, List, [], ◌∷◌, ◌++◌, ltb, ◌==◌,
  if◌then◌else◌, length,
}
use delta_serve_v_llm.Admission.{Admitted}
use delta_serve_v_llm.Coordinator.Gate.{AreApart}
use delta_serve_v_llm.Scheduler.{
  Scheduler, Output, Tokens, partition, ft_tokens, samples_in, inject, schedule_step,
  rollback_ft_step,
}
use delta_serve_v_llm.Scheduler.Undo.{rollback-schedule_step}

abbrev pub total_num_scheduled_tokens : Tokens → ℕ
total_num_scheduled_tokens [] = 0
total_num_scheduled_tokens ((id, n) ∷ rest) = n + total_num_scheduled_tokens rest

-- `_is_ft_only`
unfoldable pub is_ft_only : Output → Tokens → Bool
is_ft_only out num =
    not (length out.finetune_req_ids == 0)
    && (ltb 0 (total_num_scheduled_tokens num) && length out.finetune_req_ids == length num)

-- `would_step_be_ft_only`: whether requests wait, and which running ones are finetuning requests.
unfoldable pub would_step_be_ft_only : Bool → List Bool → Bool
would_step_be_ft_only waiting [] = not waiting
would_step_be_ft_only waiting (is_finetuning ∷ rest) =
    is_finetuning && would_step_be_ft_only waiting rest

-- The configuration, and what the tests of one call find.
pub record Inputs (M : Type 0) : Type 0 where
  pub interruptible : Bool
  pub grace : Bool
  pub waiting : Bool
  pub running : List Bool
  -- What the grace poll gets, what is pending after the first step, and what lands while that is
  -- drained.
  pub polled : List M
  pub landed : List M
  pub late : List M

module _ {M : Type 0} (handle : M → Scheduler → Scheduler)
    (plan : Scheduler → Admitted × Tokens) where
  -- EngineInputs.drain
  unfoldable pub drain : List M → Scheduler → Scheduler
  drain [] s = s
  drain (m ∷ ms) s = drain ms (handle m s)

  -- EngineInputs.poll
  unfoldable pub poll : List M → Scheduler → Scheduler × Bool
  unfolding drain
  poll [] s = (s, false)
  poll (m ∷ ms) s = (drain ms (handle m s), true)

  -- EngineInputs.pending
  abbrev pub pending : List M → Bool
  pending [] = false
  pending (m ∷ ms) = true

  -- `_schedule_step`
  unfoldable pub schedule_once : Scheduler → Scheduler × (Output × Tokens)
  unfolding schedule_step
  schedule_once s =
      let a : Admitted × Tokens = plan s in
      let r : Scheduler × Output = schedule_step s a.0 a.1 in (r.0, (r.1, a.1))

  -- Tier A: the grace poll.
  unfoldable pub await : Inputs M → Scheduler → Scheduler
  unfolding poll would_step_be_ft_only
  await i s =
      if i.interruptible && (i.grace && would_step_be_ft_only i.waiting i.running)
      then (poll i.polled s).0
      else s

  -- Whether tier B undoes a step.
  unfoldable pub retries : Inputs M → Scheduler × (Output × Tokens) → Bool
  unfolding is_ft_only
  retries i r = i.interruptible && (is_ft_only r.1.0 r.1.1 && pending i.landed)

  unfoldable pub schedule : Inputs M → Scheduler → Scheduler × (Output × Tokens)
  unfolding await retries schedule_once rollback_ft_step drain
  schedule i s =
      let first : Scheduler × (Output × Tokens) = schedule_once (await i s) in
      if retries i first
      then schedule_once (drain (i.landed ++ i.late) (rollback_ft_step first.0 first.1.0).0)
      else first

  drain-append : (xs ys : List M) (s : Scheduler) → drain (xs ++ ys) s ≡ drain ys (drain xs s)
  unfolding drain
  drain-append [] ys s = refl
  drain-append (x ∷ xs) ys s = drain-append xs ys (handle x s)

  -- The scheduler `u` has the buffer and the admission flags of `s`.
  pub record SameGate (s u : Scheduler) : Type 0 where
    pub reserved : u.coord.reserved_fill ≡ s.coord.reserved_fill
    pub filled : u.coord.fill_count ≡ s.coord.fill_count
    pub samples : u.coord.buffer_samples ≡ s.coord.buffer_samples
    pub open_gate : u.coord.admission_open ≡ s.coord.admission_open
    pub flush : u.coord.epoch_flush_pending ≡ s.coord.epoch_flush_pending

  retries_all :
      (i : Inputs M) (r : Scheduler × (Output × Tokens))
      → i.interruptible ≡ true
      → is_ft_only r.1.0 r.1.1 ≡ true
      → pending i.landed ≡ true
      → retries i r ≡ true
  unfolding retries
  retries_all i r e f g = rw (e, f, g) refl

  schedule_retried :
      (i : Inputs M) (s : Scheduler)
      → let first = schedule_once (await i s) in
        retries i first ≡ true
        → schedule i s
          ≡ schedule_once (drain (i.landed ++ i.late) (rollback_ft_step first.0 first.1.0).0)
  unfolding schedule
  schedule_retried i s e = rw e refl

  rolled-SameGate :
      (t : Scheduler)
      → let scheduled = (partition (plan t).1 (inject t (plan t).0).requests).scheduled in
        AreApart t.coord.buffer_samples (samples_in scheduled)
        → 0 < ft_tokens (plan t).1 scheduled
        → SameGate t (rollback_ft_step (schedule_once t).0 (schedule_once t).1.0).0
  unfolding schedule_once
  rolled-SameGate t apart pos =
      let back = rollback-schedule_step t (plan t).0 (plan t).1 apart pos in
      record {
        reserved = back.0;
        filled = back.1;
        samples = back.2;
        open_gate = back.3;
        flush = back.4;
      }

  -- An arrival is not queued behind a finetuning-only step: in an interruptible call whose first
  -- step is finetuning-only, with finetuning tokens and samples that were not in the buffer before,
  -- and with requests pending after it, the step that `schedule` returns is built in a state where
  -- first the pending requests and then those that landed meanwhile have been handled, starting
  -- from one that has the buffer and the admission flags of before the first step.
  pub schedule-arrivals :
      (i : Inputs M) (s : Scheduler)
      → let t = await i s in
        let scheduled = (partition (plan t).1 (inject t (plan t).0).requests).scheduled in
        i.interruptible ≡ true
        → is_ft_only (schedule_once t).1.0 (schedule_once t).1.1 ≡ true
        → pending i.landed ≡ true
        → AreApart t.coord.buffer_samples (samples_in scheduled)
        → 0 < ft_tokens (plan t).1 scheduled
        → (u : Scheduler) × SameGate t u
          × (schedule i s ≡ schedule_once (drain i.late (drain i.landed u)))
  schedule-arrivals i s e f g apart pos =
      let first = schedule_once (await i s) in
      (
        (rollback_ft_step first.0 first.1.0).0,
        rolled-SameGate (await i s) apart pos,
        schedule_retried i s (retries_all i first e f g)
            ∙ ap schedule_once
                (drain-append i.landed i.late (rollback_ft_step first.0 first.1.0).0),
      )

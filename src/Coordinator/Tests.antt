-- ===== src/Coordinator/Tests.antt =====
-- Runs of the coordinator on a buffer of eight rows, and its theorems at them.
use delta_serve_v_llm.Common.{
  ℕ, ◌+◌, ◌<◌, ◌≤◌, ◌≡◌, refl, true, false, none, List, [], ◌∷◌, arith, sum,
}
use delta_serve_v_llm.Store.{FinetuningSample}
use delta_serve_v_llm.Coordinator.{
  Coordinator, init, next_ft_budget, reserve, release_reserve, record_capture, commit_rows,
  trigger_backward, try_epoch_flush,
}
use delta_serve_v_llm.Coordinator.Capture.{Inv}
use delta_serve_v_llm.Coordinator.Steps.{here, next, noted, admits, captures, Reach-Inv, init-Inv}
use delta_serve_v_llm.Coordinator.Writes.{
  Writes, AreBeyond, AreDisjoint, starts_empty, and_then, schedules, WriteReach-AreDisjoint,
  rollback-misplaces,
}
use delta_serve_v_llm.Coordinator.Gate.{AreApart}
use delta_serve_v_llm.Coordinator.Flush.{flush_starts, capture_all}
use delta_serve_v_llm.Coordinator.Relay.{relay, relay-direct}

abbrev buffer : Coordinator
buffer = init 8 none

abbrev sample : ℕ → List ℕ → FinetuningSample
sample id prompt = record { request_id = id; prompt_ids = prompt; text = ""; adapter = none }

abbrev three : List FinetuningSample
three = sample 100 (1 ∷ 2 ∷ 3 ∷ []) ∷ []

abbrev two : List FinetuningSample
two = sample 101 (4 ∷ 5 ∷ []) ∷ []

fits : 3 ≤ next_ft_budget buffer
unfolding init next_ft_budget
fits = omega arith

abbrev first_step : Coordinator
first_step = (reserve buffer 3 three).0

first_fits : 2 ≤ next_ft_budget first_step
unfolding init next_ft_budget reserve
first_fits = omega arith

abbrev saved : Coordinator
saved = record_capture first_step 3 (3 ∷ []) 10

saved_rows : (saved.fill_count ≡ 3) × (saved.reserved_fill ≡ 0) × (saved.pending_backward ≡ false)
unfolding init reserve record_capture
saved_rows = (refl, refl, refl)

three_long : sum (3 ∷ []) ≡ 3
unfolding sum
three_long = refl

-- The epoch is drained: the gate closes before the rows are reserved, and their capture starts the
-- backward.
abbrev drained : Coordinator
drained = record_capture (reserve (noted buffer none none 3 3) 3 three).0 3 (3 ∷ []) 10

Reach-Inv_example : Inv drained []
Reach-Inv_example =
    Reach-Inv
      (next (next here (admits none none 3 3 three fits (omega arith) (omega arith)))
        (captures 3 [] (3 ∷ []) 10 refl (omega arith) three_long))
      (init-Inv 8 none)

buffer_empty : (buffer.reserved_fill ≡ 0) × (buffer.fill_count ≤ buffer.capacity)
unfolding init
buffer_empty = (refl, omega arith)

abbrev second_step : Coordinator
second_step = (reserve first_step 2 two).0

abbrev both_writes : Writes
both_writes = ((reserve buffer 3 three).1, 3) ∷ ((reserve first_step 2 two).1, 2) ∷ []

WriteReach-AreDisjoint_example :
    AreBeyond second_step.fill_count both_writes second_step.capacity
    × AreDisjoint both_writes second_step.capacity
WriteReach-AreDisjoint_example = WriteReach-AreDisjoint (
    and_then
      (and_then (starts_empty buffer_empty.0 buffer_empty.1) (schedules 3 three (omega arith) fits))
      (schedules 2 two (omega arith) first_fits))

rollback-misplaces_example :
    ((reserve (release_reserve second_step 3 three) 1 []).1 < (reserve first_step 2 two).1 + 2)
    × ((commit_rows (release_reserve second_step 3 three) 2 (2 ∷ [])).fill_count + 3
        ≡ (reserve first_step 2 two).1 + 2)
rollback-misplaces_example =
    rollback-misplaces buffer 3 2 three two (2 ∷ []) (omega arith) (omega arith) buffer_empty.0

no_samples : AreApart buffer.buffer_samples three
unfolding init
no_samples = tt

-- The gate is closed on two steps in flight.
abbrev flushing : Coordinator
flushing = record second_step { admission_open = false; epoch_flush_pending = true }

flush_starts_example :
    (try_epoch_flush
      (capture_all flushing ((3, 3 ∷ [], 10) ∷ (2, 2 ∷ [], 20) ∷ []))
      30).pending_backward
    ≡ true
unfolding init reserve
flush_starts_example =
    flush_starts ((3, 3 ∷ [], 10) ∷ (2, 2 ∷ [], 20) ∷ []) flushing 30
      (omega arith, (omega arith, tt)) (record { asked = refl; idle = refl; serving = refl }) refl
      (omega arith)

abbrev engine : Coordinator
engine = record saved { relay_mode = true; corpus_total_tokens = 40 }

abbrev worker : Coordinator
worker = record buffer { child = true; corpus_meta_relayed = true }

relay-direct_example :
    let local = record engine {
      child = true;
      sent = worker.sent;
      fwd_throttle_active = worker.fwd_throttle_active;
    } in
    ((relay engine worker 30).sent ≡ (trigger_backward local 30).sent)
    × ((relay engine worker 30).pending_backward ≡ true)
    × ((trigger_backward engine 30).pending_backward ≡ true)
    × ((trigger_backward engine 30).admission_open ≡ false)
unfolding init reserve record_capture
relay-direct_example = relay-direct engine worker 30 refl refl refl refl refl

-- ===== src/Coordinator/Capture.antt =====
-- The life of the activation buffer in deltaserve/coordinator.py: what holds after any sequence of
-- the calls that the scheduler and the runner make.
use delta_serve_v_llm.Common.{
  ℕ, ltb, not, ◌&&◌, if◌then◌else◌, ◌+◌, ◌<◌, ◌≤◌, ◌≡◌, Bool, true, false, Option, none, some, List,
  [], ◌∷◌, ◌++◌, arith, sum, sum-append,
}
use delta_serve_v_llm.Coordinator.{
  gpu_pause_backward, gpu_resume_backward, Coordinator, ChildCall, notify_buffer_full, set_pause,
  set_corpus_meta, pause_first, TriggerCmd, execute_trigger, trigger_backward, try_epoch_flush,
  fire_if_due, commit_rows, record_capture,
}

-- A signal to the child covers rows that are accounted for sample by sample and fit the buffer.
abbrev IsCovered : ℕ → ChildCall → Type 0
IsCovered capacity (notify_buffer_full n lens epoch) = (sum lens ≡ n) × (n ≤ capacity)
IsCovered capacity (set_pause b) = Unit {0}
IsCovered capacity (set_corpus_meta n) = Unit {0}

abbrev AreCovered : ℕ → List ChildCall → Type 0
AreCovered capacity [] = Unit {0}
AreCovered capacity (m ∷ ms) = IsCovered capacity m × AreCovered capacity ms

abbrev IsCoveredCmd : ℕ → Option TriggerCmd → Type 0
IsCoveredCmd capacity none = Unit {0}
IsCoveredCmd capacity (some cmd) = (sum cmd.sample_lens ≡ cmd.n) × (cmd.n ≤ capacity)

-- `flight` holds the reservations of the steps whose rows are not saved yet.
pub record Inv (c : Coordinator) (flight : List ℕ) : Type 0 where
  pub reserved : c.reserved_fill ≡ sum flight
  pub within : c.fill_count + c.reserved_fill ≤ c.capacity
  pub accounted : sum c.sample_lens ≡ c.fill_count
  -- A backward is outstanding only over a buffer whose rows are all saved.
  pub settled : c.pending_backward ≡ true → c.reserved_fill ≡ 0
  pub covered : AreCovered c.capacity c.sent
  pub covered_cmd : IsCoveredCmd c.capacity c.pending_trigger_cmd

AreCovered-append :
    (capacity : ℕ) (xs ys : List ChildCall)
    → AreCovered capacity xs
    → AreCovered capacity ys
    → AreCovered capacity (xs ++ ys)
AreCovered-append capacity [] ys hx hy = hy
AreCovered-append capacity (x ∷ xs) ys hx hy = (hx.0, AreCovered-append capacity xs ys hx.1 hy)

pauses_covered : (capacity : ℕ) (held : Bool) → AreCovered capacity (pause_first held)
pauses_covered capacity true = (tt, tt)
pauses_covered capacity false = tt

metas_covered :
    (capacity : ℕ) (first : Bool) (total : ℕ)
    → AreCovered capacity (if first then set_corpus_meta total ∷ [] else [])
metas_covered capacity true total = (tt, tt)
metas_covered capacity false total = tt

trigger_backward-Inv :
    (c : Coordinator) (flight : List ℕ) (now : ℕ)
    → Inv c flight
    → c.reserved_fill ≡ 0
    → Inv (trigger_backward c now) flight
unfolding trigger_backward
trigger_backward-Inv c flight now v empty = ground (
  arith,
  AreCovered-append c.capacity c.sent
      (pause_first c.fwd_throttle_active
        ++ notify_buffer_full c.fill_count c.sample_lens c.current_epoch ∷ [])
      v.covered
      (AreCovered-append c.capacity (pause_first c.fwd_throttle_active)
        (notify_buffer_full c.fill_count c.sample_lens c.current_epoch ∷ [])
        (pauses_covered c.capacity c.fwd_throttle_active) ((v.accounted, omega arith), tt)),
)

pub try_epoch_flush-Inv :
    (c : Coordinator) (flight : List ℕ) (now : ℕ)
    → Inv c flight
    → Inv (try_epoch_flush c now) flight
unfolding try_epoch_flush
try_epoch_flush-Inv c flight now v = ground (arith, trigger_backward-Inv c flight now v)

fire_if_due-Inv :
    (c : Coordinator) (flight : List ℕ) (now : ℕ) → Inv c flight → Inv (fire_if_due c now) flight
unfolding fire_if_due
fire_if_due-Inv c flight now v = ground (arith, trigger_backward-Inv c flight now v)

commit_rows-Inv :
    (c : Coordinator) (n : ℕ) (flight : List ℕ) (lens : List ℕ)
    → Inv c (n ∷ flight)
    → sum lens ≡ n
    → Inv (commit_rows c n lens) flight
unfolding commit_rows sum
commit_rows-Inv c n flight lens v e = record {
  reserved = omega (arith, v.reserved);
  within = omega (arith, v.reserved);
  accounted = omega (arith, sum-append c.sample_lens lens, v.accounted);
  settled = λ p. omega (arith, v.settled p, v.reserved);
  covered = v.covered;
  covered_cmd = v.covered_cmd;
}

pub record_capture-Inv :
    (c : Coordinator) (n : ℕ) (flight : List ℕ) (lens : List ℕ) (now : ℕ)
    → Inv c (n ∷ flight)
    → 0 < n
    → sum lens ≡ n
    → Inv (record_capture c n lens now) flight
unfolding record_capture
record_capture-Inv c n flight lens now v pos e =
    ground (arith, fire_if_due-Inv _ flight now (commit_rows-Inv c n flight lens v e))

-- A relayed trigger that is covered goes to the child of a worker without reservations.
pub execute_trigger-Inv :
    (c : Coordinator) (cmd : TriggerCmd) (flight : List ℕ)
    → Inv c flight
    → c.reserved_fill ≡ 0
    → sum cmd.sample_lens ≡ cmd.n
    → cmd.n ≤ c.capacity
    → Inv (execute_trigger c (some cmd)) flight
unfolding execute_trigger
execute_trigger-Inv c cmd flight v empty s le =
    let first = ltb 0 cmd.total_tokens_per_epoch && not c.corpus_meta_relayed in
    let meta = if first then set_corpus_meta cmd.total_tokens_per_epoch ∷ [] else [] in
    let signal : List ChildCall = notify_buffer_full cmd.n cmd.sample_lens cmd.epoch ∷ [] in
    let tail_covered : AreCovered c.capacity (pause_first c.fwd_throttle_active ++ signal) =
      AreCovered-append c.capacity (pause_first c.fwd_throttle_active) signal
        (pauses_covered c.capacity c.fwd_throttle_active) ((s, le), tt) in
    let all_covered =
      AreCovered-append c.capacity c.sent (meta ++ (pause_first c.fwd_throttle_active ++ signal))
        v.covered
        (AreCovered-append c.capacity meta (pause_first c.fwd_throttle_active ++ signal)
          (metas_covered c.capacity first cmd.total_tokens_per_epoch) tail_covered) in
    ground (arith, all_covered)

-- Pausing and resuming the child signals no rows.
pub gpu_calls-Inv :
    (c : Coordinator) (flight : List ℕ)
    → Inv c flight
    → Inv (gpu_pause_backward c) flight × Inv (gpu_resume_backward c) flight
unfolding gpu_pause_backward gpu_resume_backward
gpu_calls-Inv c flight v =
    let paused = AreCovered-append c.capacity c.sent (set_pause true ∷ []) v.covered (tt, tt) in
    let resumed = AreCovered-append c.capacity c.sent (set_pause false ∷ []) v.covered (tt, tt) in
    (ground (arith, paused), ground (arith, resumed))

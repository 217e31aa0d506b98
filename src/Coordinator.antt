-- ===== src/Coordinator.antt =====
-- deltaserve/coordinator.py: the activation buffer's fill state and the admission gate. Times are
-- whole milliseconds, passed in. A rate limit is a number of requests in 1000 seconds.
-- `backward_process` is `child`: whether a handle is set; what the coordinator asks of it is
-- appended to `sent`, and what the child answers is an argument. The waits for the GPU
-- (`capture_done_evt`, `torch.cuda.synchronize`) and the log lines have no model.
pub mod Gate
pub mod Capture
pub mod Steps
pub mod Flush
pub mod Relay
pub mod Throttle
pub mod Writes
mod Tests
use delta_serve_v_llm.Common.{
  ℕ, suc, ◌+◌, ◌-◌, ◌*◌, Bool, true, false, not, ◌&&◌, ◌||◌, Option, none, some, List, [], ◌∷◌,
  ◌++◌, min, ltb, leb, ◌==◌, if◌then◌else◌, length, elem,
}
use delta_serve_v_llm.Estimator.Features.{StepFeatures}
use delta_serve_v_llm.Store.{FinetuningSample, request_ids}

pub record RpsTracker : Type 0 where
  pub window : ℕ
  pub arrivals : List ℕ

unfoldable pub note_arrival : RpsTracker → ℕ → RpsTracker
note_arrival t ts = record t { arrivals = t.arrivals ++ ts ∷ [] }

-- The pruning loop of `rps`: `arrivals[0] < now - window` (times are never below zero).
unfoldable pub prune : ℕ → ℕ → List ℕ → List ℕ
prune now window [] = []
prune now window (a ∷ rest) = if ltb (a + window) now then prune now window rest else a ∷ rest

-- `rps(now)`: the tracker after pruning, and the number of arrivals in the window. The rate is that
-- number over the window, and 0 if there is no window.
unfoldable pub rps : RpsTracker → ℕ → RpsTracker × ℕ
unfolding prune
rps t now =
    let recent = prune now t.window t.arrivals in
    (record t { arrivals = recent }, if t.window == 0 then 0 else length recent)

-- The rate of `n` arrivals in the window against a limit: n / (window / 1000) < limit / 1000.
unfoldable pub rate_lt : ℕ → ℕ → ℕ → Bool
rate_lt window n limit = if window == 0 then ltb 0 limit else ltb (n * 1000000) (limit * window)

unfoldable pub rate_gt : ℕ → ℕ → ℕ → Bool
rate_gt window n limit = ltb (limit * window) (n * 1000000)

-- What is asked of the backward child.
pub data ChildCall : Type 0 where
  set_pause : Bool → ChildCall
  notify_buffer_full : ℕ → List ℕ → ℕ → ChildCall
  set_corpus_meta : ℕ → ChildCall

-- The child's response: whether its event is `activations_processed`, `n` and the loss.
pub record Ack : Type 0 where
  pub is_processed : Bool
  pub n : ℕ
  pub loss : Option ℕ

pub record TriggerCmd : Type 0 where
  pub n : ℕ
  pub sample_lens : List ℕ
  pub epoch : ℕ
  pub total_tokens_per_epoch : ℕ

-- One row of the finetuning log, without its wall-clock stamp.
pub record LogRow : Type 0 where
  pub epoch : ℕ
  pub batch_idx : ℕ
  pub batch_tokens : ℕ
  pub batch_loss : Option ℕ
  pub total_processed_tokens : ℕ

pub record TimedStep : Type 0 where
  pub features : StepFeatures
  pub duration : ℕ
  pub was_graph : Bool
  pub predicted : Option ℕ

pub record Coordinator : Type 0 where
  pub capacity : ℕ
  pub per_step_budget : ℕ
  pub fill_count : ℕ
  pub reserved_fill : ℕ
  pub sample_lens : List ℕ
  pub buffer_samples : List FinetuningSample
  pub admission_open : Bool
  pub pending_backward : Bool
  pub relay_mode : Bool
  pub pending_trigger_cmd : Option TriggerCmd
  pub corpus_total_tokens : ℕ
  pub corpus_meta_relayed : Bool
  pub rps_tracker : RpsTracker
  pub rps_throttle_active : Bool
  pub rps_throttle_engaged_at : Option ℕ
  pub fwd_throttle_active : Bool
  pub epoch_flush_pending : Bool
  pub min_sample_len : ℕ
  pub child : Bool
  pub sent : List ChildCall
  pub current_epoch : ℕ
  pub cycle : ℕ
  pub profiling : Bool
  pub completed_samples : List TimedStep
  pub record_timing : Bool
  pub bwd_log : Bool
  pub bwd_rows : List LogRow
  pub bwd_idx : ℕ
  pub bwd_total_tokens : ℕ
  pub ft_started : Bool
  pub ft_start_time : Option ℕ
  pub pending_backward_t0 : Option ℕ
  pub pending_backward_warned : Bool
  pub pending_backward_warn_ms : ℕ
  pub backward_dead_after_ms : ℕ
  pub relay_ack : Option Ack

unfoldable pub init : ℕ → Option ℕ → Coordinator
init capacity per_step_budget = record {
  capacity = capacity;
  per_step_budget = elim per_step_budget [ none ↦ capacity | some b ↦ b ];
  fill_count = 0;
  reserved_fill = 0;
  sample_lens = [];
  buffer_samples = [];
  admission_open = true;
  pending_backward = false;
  relay_mode = false;
  pending_trigger_cmd = none;
  corpus_total_tokens = 0;
  corpus_meta_relayed = false;
  rps_tracker = record { window = 1000; arrivals = [] };
  rps_throttle_active = false;
  rps_throttle_engaged_at = none;
  fwd_throttle_active = false;
  epoch_flush_pending = false;
  min_sample_len = 1;
  child = false;
  sent = [];
  current_epoch = 0;
  cycle = 0;
  profiling = false;
  completed_samples = [];
  record_timing = true;
  bwd_log = false;
  bwd_rows = [];
  bwd_idx = 0;
  bwd_total_tokens = 0;
  ft_started = true;
  ft_start_time = none;
  pending_backward_t0 = none;
  pending_backward_warned = false;
  pending_backward_warn_ms = 5000;
  backward_dead_after_ms = 60000;
  relay_ack = none;
}

unfoldable pub push_sample : Coordinator → TimedStep → Coordinator
push_sample c s = record c { completed_samples = c.completed_samples ++ s ∷ [] }

unfoldable pub drain_completed_samples : Coordinator → Coordinator × List TimedStep
drain_completed_samples c = (record c { completed_samples = [] }, c.completed_samples)

-- `max(0, …)` is the truncated subtraction.
unfoldable pub space_remaining : Coordinator → ℕ
space_remaining c = c.capacity - c.fill_count - c.reserved_fill

unfoldable pub next_ft_budget : Coordinator → ℕ
unfolding space_remaining
next_ft_budget c =
    if not c.ft_started || not c.admission_open || c.pending_backward
    then 0
    else min c.per_step_budget (space_remaining c)

-- `self.rps_throttle_engaged_at or now`: a zero instant counts as none.
abbrev pub engaged_since : Option ℕ → ℕ → ℕ
engaged_since none now = now
engaged_since (some t) now = if t == 0 then now else t

-- `check_rps_throttle` once the throttle is on: release, or close the gate again. `n` is the number
-- of arrivals in the window.
unfoldable pub throttle_engaged : Coordinator → ℕ → ℕ → ℕ → ℕ → Coordinator
unfolding rate_lt
throttle_engaged c now n open_rps close_time =
    if rate_lt c.rps_tracker.window n open_rps
      && not (
          ltb 0 close_time
          && ltb (now - engaged_since c.rps_throttle_engaged_at now) close_time
          && not (n == 0))
    then record c {
      rps_throttle_active = false;
      rps_throttle_engaged_at = none;
      admission_open = true;
    }
    else record c { admission_open = false }

unfoldable pub throttle_idle : Coordinator → ℕ → ℕ → ℕ → Coordinator
unfolding rate_gt
throttle_idle c now n close_rps =
    if rate_gt c.rps_tracker.window n close_rps
    then record c {
      rps_throttle_active = true;
      rps_throttle_engaged_at = some now;
      admission_open = false;
    }
    else c

unfoldable pub check_rps_throttle : Coordinator → ℕ → ℕ → ℕ → ℕ → ℕ → Coordinator
unfolding rps throttle_engaged throttle_idle
check_rps_throttle c now close_rps open_rps window close_time =
    if close_rps == 0
    then c
    else let (tracker, n) =
        rps (record { window = window; arrivals = c.rps_tracker.arrivals }) now in
      let c' = record c { rps_tracker = tracker } in
      if c.rps_throttle_active
      then throttle_engaged c' now n open_rps close_time
      else throttle_idle c' now n close_rps

unfoldable pub start_finetuning : Coordinator → ℕ → Coordinator
start_finetuning c now = record c {
  ft_start_time = elim c.ft_start_time [ none ↦ some now | some t ↦ some t ];
  ft_started = true;
}

unfoldable pub stop_finetuning : Coordinator → Coordinator
stop_finetuning c = record c { ft_started = false }

unfoldable pub current_offset : Coordinator → ℕ
current_offset c = c.fill_count + c.reserved_fill

unfoldable pub reserve : Coordinator → ℕ → List FinetuningSample → Coordinator × ℕ
reserve c n samples = (
  record c { reserved_fill = c.reserved_fill + n; buffer_samples = c.buffer_samples ++ samples },
  c.fill_count + c.reserved_fill,
)

-- `[s for s in buffer_samples if s.request_id not in drop]`
unfoldable pub without : List ℕ → List FinetuningSample → List FinetuningSample
without drop [] = []
without drop (s ∷ ss) = if elem s.request_id drop then without drop ss else s ∷ without drop ss

unfoldable pub release_reserve : Coordinator → ℕ → List FinetuningSample → Coordinator
unfolding without
release_reserve c n samples = record c {
  reserved_fill = c.reserved_fill - n;
  buffer_samples = without (request_ids samples) c.buffer_samples;
}

abbrev pub Snapshot : Type 0
Snapshot = Bool × Bool

unfoldable pub snapshot_admission : Coordinator → Snapshot
snapshot_admission c = (c.admission_open, c.epoch_flush_pending)

unfoldable pub restore_admission : Coordinator → Snapshot → Coordinator
restore_admission c (is_open, flush) = record c {
  admission_open = is_open;
  epoch_flush_pending = flush;
}

unfoldable pub request_epoch_flush : Coordinator → Coordinator
request_epoch_flush c = record c { epoch_flush_pending = true }

-- `next_sample_len > space_remaining() - admitted_now` over the integers; `None` closes too.
abbrev pub cannot_grow : Coordinator → Option ℕ → ℕ → Bool
cannot_grow c none admitted_now = true
cannot_grow c (some n) admitted_now = ltb (space_remaining c) (n + admitted_now)

unfoldable pub note_injection : Coordinator → Option ℕ → ℕ → Coordinator
unfolding space_remaining
note_injection c next_sample_len admitted_now =
    if c.pending_backward || (c.fill_count + c.reserved_fill + admitted_now == 0)
    then c
    else if cannot_grow c next_sample_len admitted_now
    then record c { epoch_flush_pending = true; admission_open = false }
    else c

unfoldable pub gpu_pause_backward : Coordinator → Coordinator
gpu_pause_backward c = if c.child then record c { sent = c.sent ++ set_pause true ∷ [] } else c

unfoldable pub gpu_resume_backward : Coordinator → Coordinator
gpu_resume_backward c = if c.child then record c { sent = c.sent ++ set_pause false ∷ [] } else c

-- The calls of a local trigger: the child is paused first if the forward throttle holds.
abbrev pub pause_first : Bool → List ChildCall
pause_first held = if held then set_pause true ∷ [] else []

unfoldable pub trigger_backward : Coordinator → ℕ → Coordinator
trigger_backward c now =
    let c' = record c {
      admission_open = false;
      pending_backward = true;
      epoch_flush_pending = false;
      cycle = suc c.cycle;
      pending_backward_t0 = some now;
      pending_backward_warned = false;
    } in
    let direct = record c' {
      sent =
          c.sent
          ++ (pause_first c.fwd_throttle_active
              ++ notify_buffer_full c.fill_count c.sample_lens c.current_epoch ∷ []);
    } in
    let relayed = record c' {
      pending_trigger_cmd = some (record {
        n = c.fill_count;
        sample_lens = c.sample_lens;
        epoch = c.current_epoch;
        total_tokens_per_epoch = c.corpus_total_tokens;
      });
    } in
    if c.profiling then c else if c.child then direct else if c.relay_mode then relayed else c'

unfoldable pub try_epoch_flush : Coordinator → ℕ → Coordinator
unfolding trigger_backward
try_epoch_flush c now =
    if c.epoch_flush_pending
      && (c.reserved_fill == 0)
      && ltb 0 c.fill_count
      && not c.pending_backward
    then trigger_backward c now
    else c

-- What `record_capture` writes before it looks at the triggers.
unfoldable pub commit_rows : Coordinator → ℕ → List ℕ → Coordinator
commit_rows c n lens = record c {
  fill_count = c.fill_count + n;
  reserved_fill = c.reserved_fill - n;
  sample_lens = c.sample_lens ++ lens;
}

-- The two triggers at the end of `record_capture`.
unfoldable pub fire_if_due : Coordinator → ℕ → Coordinator
unfolding space_remaining trigger_backward
fire_if_due c now =
    if c.pending_backward || ltb 0 c.reserved_fill
    then c
    else if ltb (space_remaining c) c.min_sample_len
    then trigger_backward c now
    else if c.epoch_flush_pending && ltb 0 c.fill_count
    then trigger_backward c now
    else c

unfoldable pub record_capture : Coordinator → ℕ → List ℕ → ℕ → Coordinator
unfolding commit_rows fire_if_due
record_capture c n lens now = if n == 0 then c else fire_if_due (commit_rows c n lens) now

-- `alive` is the child's `is_alive()`, `none` where that is unknown.
unfoldable pub check_backward_stuck : Coordinator → Option Bool → ℕ → Coordinator
check_backward_stuck c alive now = elim c.pending_backward_t0 [
  | none ↦ c
  | some t0 ↦
      let waited = now - t0 in
      let late = ltb c.pending_backward_warn_ms waited in
      let dead : Bool = elim alive [
        | some false ↦ true
        | _ ↦ ltb c.backward_dead_after_ms waited
      ] in
      let c' = record c { pending_backward_warned = c.pending_backward_warned || late } in
      if late && dead && c.ft_started
      then record c' { ft_started = false; admission_open = false }
      else c'
]

-- The row of `_write_bwd_log_row`; the file itself is `bwd_rows`.
unfoldable pub write_bwd_log_row : Coordinator → Ack → Coordinator
write_bwd_log_row c ack =
    if c.bwd_log && ack.is_processed
    then record c {
      bwd_idx = suc c.bwd_idx;
      bwd_total_tokens = c.bwd_total_tokens + ack.n;
      bwd_rows =
          c.bwd_rows
          ++ record {
            epoch = c.current_epoch;
            batch_idx = suc c.bwd_idx;
            batch_tokens = ack.n;
            batch_loss = ack.loss;
            total_processed_tokens = c.bwd_total_tokens + ack.n;
          }
            ∷ [];
    }
    else c

-- What both ways of taking an ack do at the end.
unfoldable pub reset_buffer : Coordinator → Coordinator
reset_buffer c = record c {
  fill_count = 0;
  reserved_fill = 0;
  sample_lens = [];
  buffer_samples = [];
  pending_backward = false;
  admission_open = true;
  pending_backward_t0 = none;
  pending_backward_warned = false;
}

-- `poll_backward` with what `poll_response` returns. The second part is the list handed to
-- `on_backward_done`, empty where the hook is not called.
unfoldable pub poll_backward :
    Coordinator → Option Ack → Option Bool → ℕ → Coordinator × List FinetuningSample
unfolding check_backward_stuck write_bwd_log_row reset_buffer
poll_backward c response alive now =
    let answered : Coordinator × List FinetuningSample = elim response [
      | none ↦ (check_backward_stuck c alive now, [])
      | some ack ↦ (reset_buffer (write_bwd_log_row c ack), c.buffer_samples)
    ] in
    if not c.pending_backward
    then (c, [])
    else if not c.child
    then (check_backward_stuck c none now, [])
    else answered

unfoldable pub take_trigger_cmd : Coordinator → Coordinator × Option TriggerCmd
take_trigger_cmd c = (record c { pending_trigger_cmd = none }, c.pending_trigger_cmd)

unfoldable pub apply_relayed_saved : Coordinator → ℕ → List ℕ → ℕ → Coordinator
unfolding record_capture
apply_relayed_saved c n lens now = if not c.relay_mode then c else record_capture c n lens now

unfoldable pub apply_relayed_done : Coordinator → Option Ack → Coordinator × List FinetuningSample
unfolding write_bwd_log_row reset_buffer
apply_relayed_done c none = (c, [])
apply_relayed_done c (some ack) =
    if not c.relay_mode then (c, []) else (reset_buffer (write_bwd_log_row c ack), c.buffer_samples)

unfoldable pub execute_trigger : Coordinator → Option TriggerCmd → Coordinator
execute_trigger c none = c
execute_trigger c (some cmd) =
    let first = ltb 0 cmd.total_tokens_per_epoch && not c.corpus_meta_relayed in
    let meta = if first then set_corpus_meta cmd.total_tokens_per_epoch ∷ [] else [] in
    if not c.child then c else record c {
      corpus_meta_relayed = c.corpus_meta_relayed || first;
      pending_backward = true;
      sent =
          c.sent
          ++ (meta
              ++ (pause_first c.fwd_throttle_active
                  ++ notify_buffer_full cmd.n cmd.sample_lens cmd.epoch ∷ []));
    }

abbrev pub is_held : Option Ack → Bool
is_held none = false
is_held (some a) = true

unfoldable pub relay_backward_outstanding : Coordinator → Bool
relay_backward_outstanding c = c.pending_backward || is_held c.relay_ack

-- The second part is the result: whether the ack is held.
unfoldable pub poll_own_backward_ack : Coordinator → Option Ack → Coordinator × Bool
poll_own_backward_ack c response =
    let c' : Coordinator = elim response [
      | none ↦ c
      | some ack ↦ record c { pending_backward = false; relay_ack = some ack }
    ] in
    if not (is_held c.relay_ack) && c.pending_backward && c.child
    then (c', is_held c'.relay_ack)
    else (c, is_held c.relay_ack)

unfoldable pub take_relay_ack : Coordinator → Coordinator × Option Ack
take_relay_ack c = (record c { relay_ack = none }, c.relay_ack)

unfoldable pub poll_backward_relay : Coordinator → Option Ack → Coordinator × Option Ack
unfolding poll_own_backward_ack take_relay_ack
poll_backward_relay c response =
    let (c', held) = poll_own_backward_ack c response in
    if held then take_relay_ack c' else (c', none)

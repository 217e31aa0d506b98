-- ===== src/Coordinator/Flush.antt =====
-- The ways out of a closed gate in deltaserve/coordinator.py: the captures of the steps in flight,
-- the flush, and the ack of the backward.
use delta_serve_v_llm.Common.{
  ℕ, ◌+◌, ◌-◌, ◌<◌, ◌≡◌, ◌≢◌, refl, Bool, true, false, Option, some, List, [], ◌∷◌, arith, min,
}
use delta_serve_v_llm.Coordinator.{
  Coordinator, Ack, next_ft_budget, trigger_backward, try_epoch_flush, fire_if_due, commit_rows,
  record_capture, poll_backward, reset_buffer, write_bwd_log_row,
}

-- Steps in flight, oldest first: the rows of each, their samples' lengths, and when it is captured.
abbrev pub Captures : Type 0
Captures = List (ℕ × List ℕ × ℕ)

abbrev pub rows_of : Captures → ℕ
rows_of [] = 0
rows_of ((n, _, _) ∷ cs) = n + rows_of cs

-- Each step saves at least one row.
abbrev pub AreSaving : Captures → Type 0
AreSaving [] = Unit {0}
AreSaving ((n, _, _) ∷ cs) = (0 < n) × AreSaving cs

unfoldable pub capture_all : Coordinator → Captures → Coordinator
capture_all c [] = c
capture_all c ((n, lens, now) ∷ cs) = capture_all (record_capture c n lens now) cs

-- The gate waits for a flush.
pub record IsFlushing (c : Coordinator) : Type 0 where
  pub asked : c.epoch_flush_pending ≡ true
  pub idle : c.pending_backward ≡ false
  pub serving : c.profiling ≡ false

trigger_backward-pending :
    (c : Coordinator) (now : ℕ)
    → c.profiling ≡ false
    → (trigger_backward c now).pending_backward ≡ true
unfolding trigger_backward
trigger_backward-pending c now e = ground arith

last_capture :
    (c : Coordinator) (n : ℕ) (lens : List ℕ) (now : ℕ)
    → IsFlushing c
    → 0 < n
    → c.reserved_fill ≡ n
    → (record_capture c n lens now).pending_backward ≡ true
unfolding record_capture commit_rows fire_if_due
last_capture c n lens now f pos e =
    ground (arith, trigger_backward-pending (commit_rows c n lens) now f.serving)

early_capture :
    (c : Coordinator) (n : ℕ) (lens : List ℕ) (now : ℕ)
    → IsFlushing c
    → 0 < n
    → n < c.reserved_fill
    → IsFlushing (record_capture c n lens now)
      × ((record_capture c n lens now).reserved_fill ≡ c.reserved_fill - n)
unfolding record_capture commit_rows fire_if_due
early_capture c n lens now f pos h = ground arith

capture_all-pending :
    (cs : Captures) (c : Coordinator)
    → cs ≢ []
    → AreSaving cs
    → IsFlushing c
    → c.reserved_fill ≡ rows_of cs
    → (capture_all c cs).pending_backward ≡ true
unfolding capture_all
capture_all-pending [] c some_left s f e = absurd (some_left refl)
capture_all-pending ((n, lens, now) ∷ []) c some_left s f e =
    last_capture c n lens now f s.0 (omega arith)
capture_all-pending ((n, lens, now) ∷ x ∷ cs) c some_left s f e =
    let (f', e') = early_capture c n lens now f s.0 (omega arith) in
    capture_all-pending (x ∷ cs) (record_capture c n lens now) (λ q. cc) s.1 f' (omega arith)

-- Once every step in flight has saved its rows, each step one at least, a flush that was asked for
-- has started the backward, outside of profiling and if any row is saved or reserved: in the last
-- capture, or in `try_epoch_flush` if no step was in flight.
pub flush_starts :
    (cs : Captures) (c : Coordinator) (now : ℕ)
    → AreSaving cs
    → IsFlushing c
    → c.reserved_fill ≡ rows_of cs
    → 0 < c.fill_count + c.reserved_fill
    → (try_epoch_flush (capture_all c cs) now).pending_backward ≡ true
unfolding capture_all try_epoch_flush
flush_starts [] c now s f e some_rows = ground (arith, trigger_backward-pending c now f.serving)
flush_starts (x ∷ cs) c now s f e some_rows =
    ground (arith, capture_all-pending (x ∷ cs) c (λ q. cc) s f e)

-- Taking the ack of an outstanding backward from the child, with finetuning started, empties the
-- buffer, opens the gate and hands exactly the samples of the buffer to the hook; the next step's
-- budget is then the smaller of the budget per step and the whole buffer.
pub poll_backward_done :
    (c : Coordinator) (ack : Ack) (alive : Option Bool) (now : ℕ)
    → c.pending_backward ≡ true
    → c.child ≡ true
    → c.ft_started ≡ true
    → let r = poll_backward c (some ack) alive now in
      (r.1 ≡ c.buffer_samples)
      × (r.0.buffer_samples ≡ [])
      × (r.0.sample_lens ≡ [])
      × (r.0.pending_backward ≡ false)
      × (next_ft_budget r.0 ≡ min c.per_step_budget c.capacity)
unfolding poll_backward reset_buffer write_bwd_log_row next_ft_budget
poll_backward_done c ack alive now p ch st = ground arith

-- ===== src/Coordinator/Steps.antt =====
-- The calls that the scheduler and the runner make on one coordinator of deltaserve/coordinator.py,
-- in any order.
use delta_serve_v_llm.Common.{
  ℕ, not, false, ltb, if◌then◌else◌, ◌∙◌, ◌+◌, ◌<◌, ◌≤◌, ◌≡◌, refl, ap, Bool, true, Option, none,
  some, List, [], ◌∷◌, ◌++◌, arith, sum, sum-append,
}
use delta_serve_v_llm.Store.{FinetuningSample}
use delta_serve_v_llm.Coordinator.{
  apply_relayed_saved, gpu_pause_backward, gpu_resume_backward, Coordinator, Ack, Snapshot,
  TriggerCmd, snapshot_admission, execute_trigger, poll_own_backward_ack, take_relay_ack, init,
  next_ft_budget, reserve, release_reserve, restore_admission, note_injection, request_epoch_flush,
  try_epoch_flush, record_capture, check_backward_stuck, write_bwd_log_row, reset_buffer,
  poll_backward, apply_relayed_done, take_trigger_cmd, start_finetuning, stop_finetuning,
  check_rps_throttle,
}
use delta_serve_v_llm.Coordinator.Capture.{
  Inv, try_epoch_flush-Inv, record_capture-Inv, execute_trigger-Inv, gpu_calls-Inv,
}

-- `note_injection` in `_schedule_step` of deltaserve/ft_scheduler.py, with `next` peeked after the
-- injection, and its revision from the snapshot, with `after`, where fewer tokens run than were
-- admitted.
unfoldable pub noted : Coordinator → Option ℕ → Option ℕ → ℕ → ℕ → Coordinator
unfolding note_injection restore_admission snapshot_admission
noted c next after admitted ran =
    let first : Coordinator = note_injection c next admitted in
    let restored : Coordinator = restore_admission first (snapshot_admission c) in
    if ltb ran admitted
    then (if ltb 0 ran then note_injection restored after ran else restored)
    else first

noted-Inv :
    (c : Coordinator) (next after : Option ℕ) (admitted ran : ℕ) (flight : List ℕ)
    → Inv c flight
    → Inv (noted c next after admitted ran) flight
      × ((noted c next after admitted ran).fill_count ≡ c.fill_count)
      × ((noted c next after admitted ran).reserved_fill ≡ c.reserved_fill)
      × ((noted c next after admitted ran).capacity ≡ c.capacity)
      × ((noted c next after admitted ran).pending_backward ≡ c.pending_backward)
unfolding noted note_injection restore_admission snapshot_admission
noted-Inv c next after admitted ran flight v = ground arith

-- A call, with the reservations in flight before and after it. Captures come in the order in which
-- the steps were scheduled; any step in flight may be rolled back.
pub data Step (c : Coordinator) (flight : List ℕ) : Coordinator → List ℕ → Type 0 where
  -- A schedule that admits tokens of which none runs, or admits none.
  notes :
      (next after : Option ℕ) (admitted : ℕ) → Step c flight (noted c next after admitted 0) flight
  -- A schedule that admits tokens within the budget read before the injection, of which `n` run.
  admits :
      (next after : Option ℕ) (admitted n : ℕ) (ss : List FinetuningSample)
      → admitted ≤ next_ft_budget c
      → 0 < n
      → n ≤ admitted
      → Step c flight (reserve (noted c next after admitted n) n ss).0 (flight ++ n ∷ [])
  captures :
      (n : ℕ) (rest lens : List ℕ) (now : ℕ)
      → flight ≡ n ∷ rest
      → 0 < n
      → sum lens ≡ n
      → Step c flight (record_capture c n lens now) rest
  rolls_back :
      (xs ys : List ℕ) (n : ℕ) (ss : List FinetuningSample) (snap : Snapshot)
      → flight ≡ xs ++ n ∷ ys
      → Step c flight (restore_admission (release_reserve c n ss) snap) (xs ++ ys)
  -- The captured rows of a step that ran on the workers.
  relays_saved :
      (n : ℕ) (rest lens : List ℕ) (now : ℕ)
      → c.relay_mode ≡ true
      → flight ≡ n ∷ rest
      → 0 < n
      → sum lens ≡ n
      → Step c flight (apply_relayed_saved c n lens now) rest
  pauses : Step c flight (gpu_pause_backward c) flight
  resumes : Step c flight (gpu_resume_backward c) flight
  requests_flush : Step c flight (request_epoch_flush c) flight
  flushes : (now : ℕ) → Step c flight (try_epoch_flush c now) flight
  polls :
      (response : Option Ack) (alive : Option Bool) (now : ℕ)
      → Step c flight (poll_backward c response alive now).0 flight
  -- An ack that is relayed answers a trigger that is outstanding.
  relays_done :
      (ack : Ack)
      → c.pending_backward ≡ true
      → Step c flight (apply_relayed_done c (some ack)).0 flight
  takes_cmd : Step c flight (take_trigger_cmd c).0 flight
  -- The calls on a worker's coordinator, which holds no reservations: a relayed trigger that is
  -- covered by rows, and the polls of the own child.
  executes :
      (cmd : TriggerCmd)
      → flight ≡ []
      → sum cmd.sample_lens ≡ cmd.n
      → cmd.n ≤ c.capacity
      → Step c flight (execute_trigger c (some cmd)) flight
  polls_own : (response : Option Ack) → Step c flight (poll_own_backward_ack c response).0 flight
  takes_ack : Step c flight (take_relay_ack c).0 flight
  throttles :
      (now close_rps open_rps window close_time : ℕ)
      → Step c flight (check_rps_throttle c now close_rps open_rps window close_time) flight
  starts : (now : ℕ) → Step c flight (start_finetuning c now) flight
  stops : Step c flight (stop_finetuning c) flight

reset_buffer-Inv :
    (c : Coordinator) (ack : Ack) (flight : List ℕ)
    → Inv c flight
    → c.pending_backward ≡ true
    → Inv (reset_buffer (write_bwd_log_row c ack)) flight
unfolding reset_buffer write_bwd_log_row sum
reset_buffer-Inv c ack flight v p = ground (arith, v.settled p)

check_backward_stuck-Inv :
    (c : Coordinator) (alive : Option Bool) (now : ℕ) (flight : List ℕ)
    → Inv c flight
    → Inv (check_backward_stuck c alive now) flight
unfolding check_backward_stuck
check_backward_stuck-Inv c alive now flight v = ground arith

poll_backward-Inv :
    (c : Coordinator) (response : Option Ack) (alive : Option Bool) (now : ℕ) (flight : List ℕ)
    → Inv c flight
    → Inv (poll_backward c response alive now).0 flight
unfolding poll_backward
poll_backward-Inv c none alive now flight v = ground (
  arith,
  check_backward_stuck-Inv c alive now flight v,
  check_backward_stuck-Inv c none now flight v,
)
poll_backward-Inv c (some ack) alive now flight v =
    ground (arith, reset_buffer-Inv c ack flight v, check_backward_stuck-Inv c none now flight v)

check_rps_throttle-Inv :
    (c : Coordinator) (now close_rps open_rps window close_time : ℕ) (flight : List ℕ)
    → Inv c flight
    → Inv (check_rps_throttle c now close_rps open_rps window close_time) flight
unfolding check_rps_throttle
check_rps_throttle-Inv c now close_rps open_rps window close_time flight v = ground arith

relayed-Inv :
    (relay : Bool) (c d : Coordinator) (flight : List ℕ)
    → relay ≡ true
    → Inv d flight
    → Inv (if not relay then c else d) flight
relayed-Inv true c d flight e v = v
relayed-Inv false c d flight e v = absurd (ground (arith, e))

sum_middle : (xs ys : List ℕ) (n : ℕ) → sum (xs ++ n ∷ ys) ≡ n + sum (xs ++ ys)
unfolding sum
sum_middle [] ys n = refl
sum_middle (x ∷ xs) ys n = omega (arith, sum_middle xs ys n)

-- Every call keeps the buffer within its capacity, its reservations equal to the steps in flight,
-- its rows accounted for sample by sample, and every signal to the child covered by saved rows.
pub Step-Inv :
    {c c' : Coordinator} {flight flight' : List ℕ}
    → Step c flight c' flight'
    → Inv c flight
    → Inv c' flight'
unfolding apply_relayed_saved reserve next_ft_budget release_reserve restore_admission
    poll_own_backward_ack take_relay_ack request_epoch_flush apply_relayed_done take_trigger_cmd
    start_finetuning stop_finetuning sum
Step-Inv {c} {flight = flight} (notes next after admitted) v =
    (noted-Inv c next after admitted 0 flight v).0
Step-Inv {c} {flight = flight} (admits next after admitted n ss h pos le) v =
    let k = noted-Inv c next after admitted n flight v in
    let i : Inv (noted c next after admitted n) flight = k.0 in
    record {
      reserved = omega (arith, sum-append flight (n ∷ []), i.reserved);
      within = ground (arith, i.within, k.1, k.2, k.3);
      accounted = i.accounted;
      settled = λ p. ground (arith, k.4);
      covered = i.covered;
      covered_cmd = i.covered_cmd;
    }
Step-Inv {c} {flight = flight} (captures n rest lens now e pos s) v =
    record_capture-Inv c n rest lens now (rw e at v) pos s
Step-Inv {c} (rolls_back xs ys n ss snap e) v = ground (arith, sum_middle xs ys n, ap sum e)
Step-Inv {c} (relays_saved n rest lens now relay e pos s) v =
    relayed-Inv c.relay_mode c (record_capture c n lens now) rest relay
      (record_capture-Inv c n rest lens now (rw e at v) pos s)
Step-Inv {c} {flight = flight} pauses v = (gpu_calls-Inv c flight v).0
Step-Inv {c} {flight = flight} resumes v = (gpu_calls-Inv c flight v).1
Step-Inv requests_flush v = ground arith
Step-Inv {c} {flight = flight} (flushes now) v = try_epoch_flush-Inv c flight now v
Step-Inv {c} {flight = flight} (polls response alive now) v =
    poll_backward-Inv c response alive now flight v
Step-Inv {c} {flight = flight} (relays_done ack p) v =
    ground (arith, reset_buffer-Inv c ack flight v p)
Step-Inv takes_cmd v = ground arith
Step-Inv {c} {flight = flight} (executes cmd e s le) v =
    execute_trigger-Inv c cmd flight v (v.reserved ∙ ap sum e) s le
Step-Inv (polls_own response) v = ground arith
Step-Inv takes_ack v = ground arith
Step-Inv {c} {flight = flight} (throttles now close_rps open_rps window close_time) v =
    check_rps_throttle-Inv c now close_rps open_rps window close_time flight v
Step-Inv (starts now) v = ground arith
Step-Inv stops v = ground arith

pub data Reach (c : Coordinator) (flight : List ℕ) : Coordinator → List ℕ → Type 0 where
  here : Reach c flight c flight
  next : {d e : Coordinator} {f g : List ℕ} → Reach c flight d f → Step d f e g → Reach c flight e g

-- Any sequence of the calls that the scheduler, the runner and a worker make on a coordinator keeps
-- the invariant: saved and reserved rows never exceed the buffer, the reservations are those of the
-- steps in flight, no backward is outstanding while rows are reserved, and every signal to the
-- child names as many rows as its samples have, at most the capacity. Steps are admitted within the
-- budget that is read before the injection is noted, may run in part, and are captured in the order
-- of their schedule with the lengths of their samples; a relayed ack answers an outstanding
-- trigger, and a worker's coordinator, which reserves nothing, executes triggers that are covered
-- themselves.
pub Reach-Inv :
    {c : Coordinator} {flight : List ℕ} {d : Coordinator} {f : List ℕ}
    → Reach c flight d f
    → Inv c flight
    → Inv d f
Reach-Inv here v = v
Reach-Inv (next r s) v = Step-Inv s (Reach-Inv r v)

pub init-Inv : (capacity : ℕ) (budget : Option ℕ) → Inv (init capacity budget) []
unfolding init sum
init-Inv capacity budget = record {
  reserved = refl;
  within = omega arith;
  accounted = refl;
  settled = λ p. refl;
  covered = tt;
  covered_cmd = tt;
}

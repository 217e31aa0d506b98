-- ===== src/Scheduler/Undo.antt =====
-- `_rollback_ft_step` and `update_from_output` of deltaserve/ft_scheduler.py.
use delta_serve_v_llm.Common.{
  ℕ, ◌+◌, ◌<◌, ◌≡◌, refl, true, false, none, some, List, [], ◌∷◌, arith, length, ◌==◌, Bool-cases,
  inl, inr,
}
use delta_serve_v_llm.Store.{request_ids}
use delta_serve_v_llm.Coordinator.{
  Ack, note_injection, snapshot_admission, restore_admission, reserve, release_reserve, without,
  take_trigger_cmd, start_finetuning, stop_finetuning, apply_relayed_done, reset_buffer,
  write_bwd_log_row,
}
use delta_serve_v_llm.Coordinator.Gate.{AreApart, without-append_self}
use delta_serve_v_llm.Admission.{Admitted}
use delta_serve_v_llm.Scheduler.{
  FtRequest, ids_of, samples_in, Tokens, ft_tokens, Scheduler, Output, partition, inject, settle,
  schedule_step, rollback_ft_step, Relayed, apply_relay, update_from_output,
}

-- Rolling back a step a second time changes nothing.
pub rollback_ft_step-twice :
    (s : Scheduler) (out : Output)
    → let (s', out', n) = rollback_ft_step s out in rollback_ft_step s' out' ≡ (s', out', 0)
unfolding rollback_ft_step
rollback_ft_step-twice s out = elim (Bool-cases (length out.finetune_req_ids == 0)) [
  | inl e ↦ rw e (rw e refl)
  | inr e ↦ rw e refl
]

ids_of-pos : (num : Tokens) (rs : List FtRequest) → 0 < ft_tokens num rs → 0 < length (ids_of rs)
unfolding ft_tokens
ids_of-pos num [] h = h
ids_of-pos num (r ∷ rs) h = omega arith

-- Tokens are scheduled only for requests.
scheduled-ids :
    (num : Tokens) (rs : List FtRequest)
    → 0 < ft_tokens num (partition num rs).scheduled
    → 0 < length (ids_of (partition num rs).scheduled)
scheduled-ids num rs pos = ids_of-pos num (partition num rs).scheduled pos

-- Rolling back a step that was just scheduled with some finetuning tokens restores the buffer and
-- both admission flags: the rows saved and reserved and the samples in the buffer are those before
-- the step, if none of its samples was in the buffer before.
pub rollback-schedule_step :
    (s : Scheduler) (a : Admitted) (num : Tokens)
    → let parts = partition num (inject s a).requests in
      AreApart s.coord.buffer_samples (samples_in parts.scheduled)
      → 0 < ft_tokens num parts.scheduled
      → let (s1, out) = schedule_step s a num in
        let c = (rollback_ft_step s1 out).0.coord in
        (c.reserved_fill ≡ s.coord.reserved_fill)
        × (c.fill_count ≡ s.coord.fill_count)
        × (c.buffer_samples ≡ s.coord.buffer_samples)
        × (c.admission_open ≡ s.coord.admission_open)
        × (c.epoch_flush_pending ≡ s.coord.epoch_flush_pending)
unfolding schedule_step inject settle rollback_ft_step release_reserve restore_admission reserve
    note_injection snapshot_admission take_trigger_cmd
rollback-schedule_step s a num apart pos =
    let back = without-append_self s.coord.buffer_samples _ apart in
    let ids = scheduled-ids num (inject s a).requests pos in
    (
      ground (arith, ids),
      ground (arith, ids),
      ground (arith, ids, back),
      ground (arith, ids),
      ground (arith, ids),
    )

-- Under relay, a runner abandons a forward that has finetuning requests and samples and reports a
-- finished backward in the same output, without timings or saved rows: the roll-back does not undo
-- the ack. The gate is open, the buffer is empty, no backward is outstanding, and the samples
-- handed to the hook are those of the buffer without the samples of the abandoned step.
pub update_from_output-keeps_ack :
    (s : Scheduler) (out : Output) (r : Relayed) (ack : Ack) (now : ℕ)
    → s.coord.relay_mode ≡ true
    → r.aborted ≡ true
    → r.timing ≡ []
    → r.done ≡ some ack
    → r.saved ≡ none
    → 0 < length out.finetune_req_ids
    → 0 < length out.ft_samples
    → let (s', trained) = update_from_output s out r now in
      (s'.coord.admission_open ≡ true)
      × (s'.coord.pending_backward ≡ false)
      × (s'.coord.fill_count + s'.coord.reserved_fill ≡ 0)
      × (trained ≡ without (request_ids out.ft_samples) s.coord.buffer_samples)
unfolding update_from_output rollback_ft_step apply_relay start_finetuning stop_finetuning
    apply_relayed_done reset_buffer write_bwd_log_row release_reserve restore_admission
update_from_output-keeps_ack s out r ack now h1 h2 h3 h4 h5 h6 h7 =
    (ground arith, ground arith, ground arith, ground arith)

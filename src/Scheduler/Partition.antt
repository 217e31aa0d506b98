-- ===== src/Scheduler/Partition.antt =====
-- What becomes of the admitted requests in `_schedule_step` of deltaserve/ft_scheduler.py.
use delta_serve_v_llm.Common.{
  ℕ, suc, ◌+◌, ◌<◌, ◌≡◌, refl, none, List, [], ◌∷◌, arith, length, ◌==◌, Bool-cases, inl, inr,
}
use delta_serve_v_llm.Store.{FinetuningSample, FinetuningStore}
use delta_serve_v_llm.Store.Valid.{IsValid}
use delta_serve_v_llm.Store.Settle.{release_claimed-IsValid}
use delta_serve_v_llm.Coordinator.{
  note_injection, snapshot_admission, restore_admission, take_trigger_cmd,
}
use delta_serve_v_llm.Admission.{Admitted}
use delta_serve_v_llm.Scheduler.{
  FtRequest, make_request, make_requests, ids_of, samples_in, Tokens, ft_tokens, Scheduler, Output,
  partition, release_dropped, inject, settle, schedule_step, rollback_ft_step,
}

-- Numbers that follow `n` one by one.
abbrev pub Counts : ℕ → List ℕ → Type 0
Counts n [] = Unit {0}
Counts n (x ∷ xs) = (x ≡ suc n) × Counts (suc n) xs

abbrev pub Carry : List FinetuningSample → List FtRequest → Type 0
Carry [] [] = Unit {0}
Carry (s ∷ ss) (r ∷ rs) =
    (r.ft_sample ≡ s)
    × (r.prompt_token_ids ≡ s.prompt_ids)
    × (r.cache_salt ≡ r.request_id)
    × Carry ss rs
Carry [] (r ∷ rs) = ⊥
Carry (s ∷ ss) [] = ⊥

-- The requests made for a list of samples have the numbers that follow the counter one by one,
-- which also are their cache salts, and the counter moves past them; each carries its sample and
-- the sample's whole prompt.
pub make_requests-Counts :
    (n : ℕ) (ss : List FinetuningSample)
    → ((make_requests n ss).0 ≡ n + length ss)
      × Counts n (ids_of (make_requests n ss).1)
      × Carry ss (make_requests n ss).1
unfolding make_requests make_request
make_requests-Counts n [] = (omega arith, tt, tt)
make_requests-Counts n (s ∷ ss) =
    let (e, c, k) = make_requests-Counts (suc n) ss in
    (omega (arith, e), (refl, c), (refl, refl, refl, k))

release_dropped-IsValid :
    (st : FinetuningStore) (ss : List FinetuningSample)
    → IsValid st
    → IsValid (release_dropped st ss)
release_dropped-IsValid st [] v = v
release_dropped-IsValid st (s ∷ ss) v = release_claimed-IsValid st (s ∷ ss) v

rollback_ft_step-IsValid :
    (s : Scheduler) (out : Output) → IsValid s.store → IsValid (rollback_ft_step s out).0.store
unfolding rollback_ft_step
rollback_ft_step-IsValid s out v = elim (Bool-cases (length out.finetune_req_ids == 0)) [
  | inl e ↦ rw e v
  | inr e ↦ rw e (release_dropped-IsValid s.store out.ft_samples v)
]

schedule_step-store :
    (s : Scheduler) (a : Admitted) (num : Tokens)
    → IsValid a.store
    → IsValid (schedule_step s a num).0.store
unfolding schedule_step inject settle
schedule_step-store s a num v =
    release_dropped-IsValid a.store (samples_in (partition num (inject s a).requests).dropped) v

-- If admission leaves a valid store, a scheduling step and its roll-back keep it valid, whatever
-- the base scheduler drops.
pub schedule_step-IsValid :
    (s : Scheduler) (a : Admitted) (num : Tokens)
    → IsValid a.store
    → IsValid (schedule_step s a num).0.store
      × IsValid (rollback_ft_step (schedule_step s a num).0 (schedule_step s a num).1).0.store
schedule_step-IsValid s a num v =
    let w = schedule_step-store s a num v in
    (w, rollback_ft_step-IsValid (schedule_step s a num).0 (schedule_step s a num).1 w)

-- If tokens were admitted and the base scheduler schedules none of them, the step leaves the
-- reservations, the samples in the buffer and both admission flags as they were before it, and no
-- write offset is handed out.
pub schedule_step-unscheduled :
    (s : Scheduler) (a : Admitted) (num : Tokens)
    → 0 < a.tokens
    → ft_tokens num (partition num (inject s a).requests).scheduled ≡ 0
    → let (s', out) = schedule_step s a num in
      (s'.coord.admission_open ≡ s.coord.admission_open)
      × (s'.coord.epoch_flush_pending ≡ s.coord.epoch_flush_pending)
      × (s'.coord.reserved_fill ≡ s.coord.reserved_fill)
      × (s'.coord.buffer_samples ≡ s.coord.buffer_samples)
      × (out.ft_write_offset ≡ none)
unfolding schedule_step inject settle note_injection snapshot_admission restore_admission
    take_trigger_cmd
schedule_step-unscheduled s a num pos e =
    (ground arith, ground arith, ground arith, ground arith, ground arith)

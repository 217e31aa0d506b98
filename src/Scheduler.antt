-- ===== src/Scheduler.antt =====
-- deltaserve/ft_scheduler.py: one scheduling step around the base scheduler's, its roll-back and
-- its retirement, and deltaserve/ft_injector.py: the requests that it makes. vLLM's scheduler is a
-- parameter: what it schedules is the argument `num_scheduled`, the tokens by request; whether it
-- has requests is `base_has`. `requests` holds the finetuning requests alone, and the tier-C event,
-- the log lines and the traces have no model.
pub mod Undo
pub mod Partition
pub mod Idle
pub mod Injector
pub mod Realized
pub mod Tiers
mod Tests
use delta_serve_v_llm.Common.{
  ℕ, suc, ◌+◌, max, Bool, true, false, not, ◌&&◌, ◌||◌, Option, none, some, List, [], ◌∷◌, ◌++◌,
  ltb, leb, ◌==◌, if◌then◌else◌, elem, is_some, length,
}
use delta_serve_v_llm.Store.{
  FinetuningSample, FinetuningStore, input_len, pop_next, has_next, release_claimed,
}
use delta_serve_v_llm.Coordinator.{
  Coordinator, Snapshot, TriggerCmd, Ack, TimedStep, note_injection, snapshot_admission,
  restore_admission, reserve, release_reserve, next_ft_budget, start_finetuning, stop_finetuning,
  push_sample, apply_relayed_done, apply_relayed_saved, take_trigger_cmd,
}
use delta_serve_v_llm.Admission.{Admitted, Running}

pub record FtRequest : Type 0 where
  pub request_id : ℕ
  pub prompt_token_ids : List ℕ
  pub cache_salt : ℕ
  pub num_output_placeholders : ℕ
  pub ft_sample : FinetuningSample

-- `_make_request` with the counter of the injector: `__ft__<counter>` is the number.
unfoldable pub make_request : ℕ → FinetuningSample → ℕ × FtRequest
make_request counter s = (
  suc counter,
  record {
    request_id = suc counter;
    prompt_token_ids = s.prompt_ids;
    cache_salt = suc counter;
    num_output_placeholders = 0;
    ft_sample = s;
  },
)

unfoldable pub make_requests : ℕ → List FinetuningSample → ℕ × List FtRequest
unfolding make_request
make_requests counter [] = (counter, [])
make_requests counter (s ∷ ss) =
    let (counter', req) = make_request counter s in
    let (last, reqs) = make_requests counter' ss in (last, req ∷ reqs)

-- The tokens that the base scheduler gave to each request.
abbrev pub Tokens : Type 0
Tokens = List (ℕ × ℕ)

abbrev pub tokens_of : Tokens → ℕ → Option ℕ
tokens_of [] id = none
tokens_of ((key, n) ∷ rest) id = if key == id then some n else tokens_of rest id

abbrev pub tokens_or_zero : Tokens → ℕ → ℕ
tokens_or_zero num id = elim (tokens_of num id) [ none ↦ 0 | some n ↦ n ]

pub record Output : Type 0 where
  pub finetune_req_ids : List ℕ
  pub finetune_retired_req_ids : List ℕ
  pub ft_write_offset : Option ℕ
  pub ft_samples : List FinetuningSample
  pub ft_tokens_reserved : ℕ
  pub ft_admit_snapshot : Snapshot
  pub finetune_backward_trigger : Option TriggerCmd

pub record Scheduler : Type 0 where
  pub coord : Coordinator
  pub store : FinetuningStore
  pub requests : List FtRequest
  pub ft_retired_pending : List ℕ
  pub unspent_prefill : ℕ
  pub counter : ℕ

-- The requests that are scheduled, those that are dropped, and those that stay known.
pub record Parts : Type 0 where
  pub scheduled : List FtRequest
  pub dropped : List FtRequest
  pub kept : List FtRequest

unfoldable pub partition : Tokens → List FtRequest → Parts
partition num [] = record { scheduled = []; dropped = []; kept = [] }
partition num (r ∷ rs) =
    let rest = partition num rs in
    if is_some (tokens_of num r.request_id)
    then record rest { scheduled = r ∷ rest.scheduled; kept = r ∷ rest.kept }
    else if r.num_output_placeholders == 0
    then record rest { dropped = r ∷ rest.dropped }
    else record rest { kept = r ∷ rest.kept }

abbrev pub ids_of : List FtRequest → List ℕ
ids_of [] = []
ids_of (r ∷ rs) = r.request_id ∷ ids_of rs

abbrev pub samples_in : List FtRequest → List FinetuningSample
samples_in [] = []
samples_in (r ∷ rs) = r.ft_sample ∷ samples_in rs

unfoldable pub ft_tokens : Tokens → List FtRequest → ℕ
ft_tokens num [] = 0
ft_tokens num (r ∷ rs) = tokens_or_zero num r.request_id + ft_tokens num rs

abbrev pub next_len : FinetuningStore → Option ℕ
next_len st = elim (pop_next st []) [ none ↦ none | some s ↦ some (input_len s) ]

-- After admission: enqueue the new requests, reset the credit, and let the coordinator know.
unfoldable pub inject : Scheduler → Admitted → Scheduler
unfolding make_requests note_injection
inject s a =
    let (counter, reqs) = make_requests s.counter a.samples in
    let c = note_injection s.coord (next_len a.store) a.tokens in
    record s {
      store = a.store;
      requests = s.requests ++ reqs;
      counter = counter;
      unspent_prefill = if ltb 0 a.tokens then 0 else a.unspent;
      coord = record c { current_epoch = a.store.current_epoch };
    }

-- The verdict of `note_injection` again, where fewer tokens were scheduled than admitted.
abbrev pub rederive : Coordinator → Snapshot → FinetuningStore → ℕ → ℕ → Coordinator
rederive c snap st admitted_now scheduled =
    let restored = restore_admission c snap in
    if ltb 0 admitted_now && ltb scheduled admitted_now
    then (if ltb 0 scheduled then note_injection restored (next_len st) scheduled else restored)
    else c

abbrev pub release_dropped : FinetuningStore → List FinetuningSample → FinetuningStore
release_dropped st [] = st
release_dropped st (s ∷ ss) = (release_claimed st (s ∷ ss)).0

-- What `_schedule_step` does once the base scheduler has scheduled.
unfoldable pub settle : Scheduler → Snapshot → ℕ → Tokens → Scheduler × Output
unfolding partition ft_tokens reserve take_trigger_cmd
settle s snap admitted_now num =
    let parts = partition num s.requests in
    let n = ft_tokens num parts.scheduled in
    let ss = samples_in parts.scheduled in
    let st = release_dropped s.store (samples_in parts.dropped) in
    let c = rederive s.coord snap st admitted_now n in
    let reserved : Coordinator × Option ℕ =
      if ltb 0 n then ((reserve c n ss).0, some (reserve c n ss).1) else (c, none) in
    let (c', cmd) : Coordinator × Option TriggerCmd =
      if s.coord.relay_mode then take_trigger_cmd reserved.0 else (reserved.0, none) in
    (
      record s { coord = c'; store = st; requests = parts.kept; ft_retired_pending = [] },
      record {
        finetune_req_ids = ids_of parts.scheduled;
        finetune_retired_req_ids = s.ft_retired_pending;
        ft_write_offset = reserved.1;
        ft_samples = ss;
        ft_tokens_reserved = n;
        ft_admit_snapshot = snap;
        finetune_backward_trigger = cmd;
      },
    )

-- `_schedule_step` from the snapshot on, given what admission and the base scheduler returned.
unfoldable pub schedule_step : Scheduler → Admitted → Tokens → Scheduler × Output
unfolding inject settle snapshot_admission
schedule_step s a num = settle (inject s a) (snapshot_admission s.coord) a.tokens num

-- Free the requests with these ids and remember that they retired.
unfoldable pub retire : List ℕ → List FtRequest → List FtRequest × List ℕ
retire ids [] = ([], [])
retire ids (r ∷ rs) =
    let (left, gone) = retire ids rs in
    if elem r.request_id ids then (left, r.request_id ∷ gone) else (r ∷ left, gone)

unfoldable pub rollback_ft_step : Scheduler → Output → Scheduler × Output × ℕ
unfolding retire release_reserve restore_admission
rollback_ft_step s out =
    let (left, gone) = retire out.finetune_req_ids s.requests in
    let any = ltb 0 out.ft_tokens_reserved || ltb 0 (length out.ft_samples) in
    let c =
      if any then release_reserve s.coord out.ft_tokens_reserved out.ft_samples else s.coord in
    if length out.finetune_req_ids == 0 then (s, out, 0) else (
      record s {
        requests = left;
        ft_retired_pending = s.ft_retired_pending ++ gone;
        coord = restore_admission c out.ft_admit_snapshot;
        store = release_dropped s.store out.ft_samples;
      },
      record out { finetune_req_ids = []; ft_samples = []; ft_tokens_reserved = 0 },
      length out.finetune_req_ids,
    )

-- The finetuning fields of the runner's output.
pub record Relayed : Type 0 where
  pub aborted : Bool
  pub started : Option Bool
  pub timing : List TimedStep
  pub done : Option Ack
  pub saved : Option (ℕ × List ℕ)

abbrev pub push_all : Coordinator → List TimedStep → Coordinator
push_all c [] = c
push_all c (t ∷ ts) = push_all (push_sample c t) ts

abbrev pub mirror_started : Coordinator → Option Bool → ℕ → Coordinator
mirror_started c none now = c
mirror_started c (some true) now = if c.ft_started then c else start_finetuning c now
mirror_started c (some false) now = if c.ft_started then stop_finetuning c else c

-- The second part is what the backward-done hook gets.
unfoldable pub apply_relay : Coordinator → Relayed → ℕ → Coordinator × List FinetuningSample
unfolding start_finetuning stop_finetuning push_sample apply_relayed_done apply_relayed_saved
apply_relay c out now =
    let c1 = push_all (mirror_started c out.started now) out.timing in
    let (c2, trained) = apply_relayed_done c1 out.done in
    let c3 : Coordinator = elim out.saved [
      | none ↦ c2
      | some (n, lens) ↦ apply_relayed_saved c2 n lens now
    ] in
    if c.relay_mode then (c3, trained) else (c, [])

-- `update_from_output` up to the base scheduler's part, which is not called after an abort.
unfoldable pub update_from_output :
    Scheduler → Output → Relayed → ℕ → Scheduler × List FinetuningSample
unfolding rollback_ft_step apply_relay retire
update_from_output s out r now =
    let undone = (rollback_ft_step s out).0 in
    let (c, trained) = apply_relay undone.coord r now in
    let (c', trained') = apply_relay s.coord r now in
    let (left, gone) = retire out.finetune_req_ids s.requests in
    if r.aborted then (record undone { coord = c }, trained) else (
      record s { coord = c'; requests = left; ft_retired_pending = s.ft_retired_pending ++ gone },
      trained',
    )

unfoldable pub has_requests : Bool → Bool → Bool → Scheduler → Bool
unfolding next_ft_budget has_next
has_requests base_has profiling enabled s =
    let c = s.coord in
    let st = s.store in
    if base_has
    then true
    else if profiling || not enabled || not c.ft_started
    then false
    else if c.pending_backward
    then true
    else if c.epoch_flush_pending && ltb 0 (c.fill_count + c.reserved_fill)
    then true
    else leb (max 1 c.min_sample_len) (next_ft_budget c)
      && (has_next st || ltb st.current_epoch st.total_epochs)

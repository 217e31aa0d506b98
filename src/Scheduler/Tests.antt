-- ===== src/Scheduler/Tests.antt =====
-- Scheduling steps on a small store and buffer, and the scheduler's theorems there.
use delta_serve_v_llm.Common.{
  Option, ℕ, ◌+◌, max, ◌≤◌, ◌<◌, ◌≡◌, refl, true, false, none, some, List, [], ◌∷◌, arith,
}
use delta_serve_v_llm.Estimator.Features.{Regime, StepFeatures}
use delta_serve_v_llm.Store.{FinetuningSample, request_ids, has_next}
use delta_serve_v_llm.Store.Tests.{small, small-IsValid}
use delta_serve_v_llm.Coordinator.{Ack, without, next_ft_budget}
use delta_serve_v_llm.Coordinator.Gate.{AreApart}
use delta_serve_v_llm.Admission.{
  Policy, Moment, Admitted, ended, both_phases, nothing, admit_ft_to_step,
}
use delta_serve_v_llm.Scheduler.{
  Scheduler, Output, Relayed, Tokens, make_requests, make_request, samples_in, ft_tokens, partition,
  inject, schedule_step, rollback_ft_step, update_from_output, has_requests,
}
use delta_serve_v_llm.Scheduler.Idle.{has_requests-spins}
use delta_serve_v_llm.Scheduler.Partition.{schedule_step-unscheduled}
use delta_serve_v_llm.Scheduler.Undo.{rollback-schedule_step, update_from_output-keeps_ack}
use delta_serve_v_llm.Coordinator.{init}
use mathlib.Core.Path.{subst}
use delta_serve_v_llm.Common.{zero, suc, sym, map, get_elem?, Bool}
use delta_serve_v_llm.Store.{input_len}
use delta_serve_v_llm.Store.Tests.{small_loaded}
use delta_serve_v_llm.Scheduler.Injector.{pack, tokens, IsFilled, pack-ends}
use delta_serve_v_llm.Scheduler.Realized.{
  Known, Adds, no_features, advanced, features_from_output, scan_output, note_scheduled,
  features_from_output-Adds,
}

abbrev sample : ℕ → List ℕ → FinetuningSample
sample id prompt = record { request_id = id; prompt_ids = prompt; text = ""; adapter = none }

abbrev pair : List FinetuningSample
pair = sample 100 (1 ∷ 2 ∷ []) ∷ sample 101 (3 ∷ 4 ∷ 5 ∷ []) ∷ []

abbrev start : Scheduler
start = record {
  coord = init 8 none;
  store = small;
  requests = [];
  ft_retired_pending = [];
  unspent_prefill = 0;
  counter = 6;
}

abbrev admitted : Admitted
admitted = record { store = small; unspent = 0; tokens = 5; samples = pair }

-- The base scheduler schedules the first request and drops the second.
abbrev half : Tokens
half = (7, 2) ∷ []

none_scheduled : ft_tokens [] (partition [] (inject start admitted).requests).scheduled ≡ 0
unfolding ft_tokens partition inject make_requests make_request
none_scheduled = refl

schedule_step-unscheduled_example :
    let (s', out) = schedule_step start admitted [] in
    (s'.coord.admission_open ≡ start.coord.admission_open)
    × (s'.coord.epoch_flush_pending ≡ start.coord.epoch_flush_pending)
    × (s'.coord.reserved_fill ≡ start.coord.reserved_fill)
    × (s'.coord.buffer_samples ≡ start.coord.buffer_samples)
    × (out.ft_write_offset ≡ none)
schedule_step-unscheduled_example =
    schedule_step-unscheduled start admitted [] (omega arith) none_scheduled

half_scheduled : 0 < ft_tokens half (partition half (inject start admitted).requests).scheduled
unfolding ft_tokens partition inject make_requests make_request
half_scheduled = omega arith

apart :
    AreApart start.coord.buffer_samples
      (samples_in (partition half (inject start admitted).requests).scheduled)
unfolding init
apart = tt

rollback-schedule_step_example :
    let (s1, out) = schedule_step start admitted half in
    let c = (rollback_ft_step s1 out).0.coord in
    (c.reserved_fill ≡ start.coord.reserved_fill)
    × (c.fill_count ≡ start.coord.fill_count)
    × (c.buffer_samples ≡ start.coord.buffer_samples)
    × (c.admission_open ≡ start.coord.admission_open)
    × (c.epoch_flush_pending ≡ start.coord.epoch_flush_pending)
rollback-schedule_step_example = rollback-schedule_step start admitted half apart half_scheduled

abbrev step_output : Output
step_output = record {
  finetune_req_ids = 7 ∷ [];
  finetune_retired_req_ids = [];
  ft_write_offset = some 3;
  ft_samples = sample 101 (3 ∷ 4 ∷ 5 ∷ []) ∷ [];
  ft_tokens_reserved = 3;
  ft_admit_snapshot = (false, true);
  finetune_backward_trigger = none;
}

abbrev ack : Ack
ack = record { is_processed = true; n = 2; loss = none }

abbrev relayed : Relayed
relayed = record { aborted = true; started = some true; timing = []; done = some ack; saved = none }

abbrev engine : Scheduler
engine = record start {
  coord = record (init 8 none) {
    relay_mode = true;
    pending_backward = true;
    fill_count = 2;
    reserved_fill = 3;
    buffer_samples = pair;
  };
}

update_from_output-keeps_ack_example :
    let (s', trained) = update_from_output engine step_output relayed 60 in
    (s'.coord.admission_open ≡ true)
    × (s'.coord.pending_backward ≡ false)
    × (s'.coord.fill_count + s'.coord.reserved_fill ≡ 0)
    × (trained ≡ without (request_ids step_output.ft_samples) engine.coord.buffer_samples)
update_from_output-keeps_ack_example =
    update_from_output-keeps_ack engine step_output relayed ack 60 refl refl refl refl refl
      (omega arith) (omega arith)

abbrev policy : Policy
policy = record {
  profiling = false;
  phase = both_phases;
  decode_only_margin = 700;
  ttft_slo = 1000;
  max_tbt_slo = 100;
  match_factor = 0;
  prop_factor = none;
  is_async = true;
  max_num_scheduled_tokens = 20;
  split = false;
}

abbrev moment : Moment
moment = record {
  now = 900;
  last_step_pred = 20;
  is_ready = true;
  feats = record { t_in = 0; p = 0; t_ft = 0; b_d = 0; k = 0; prefill_lens = []; bwd = false };
  earliest_arrival = none;
}

abbrev predict : Regime → StepFeatures → Option ℕ
predict r f = some (10 + f.t_in)

-- The corpus of three samples in its last epoch, with all of them trained.
abbrev exhausted : Scheduler
exhausted = record start {
  store = record small {
    len_buckets = [];
    sorted_lengths = [];
    current_epoch = 1;
    total_epochs = 2;
  };
}

nothing_left : has_next exhausted.store ≡ false
unfolding has_next
nothing_left = refl

still_open : max 1 exhausted.coord.min_sample_len ≤ next_ft_budget exhausted.coord
unfolding init next_ft_budget
still_open = omega arith

has_requests-spins_example :
    (has_requests false false true exhausted ≡ true)
    × (admit_ft_to_step predict policy moment exhausted.coord exhausted.store 0
        ≡ ended (nothing exhausted.store 0))
unfolding init
has_requests-spins_example =
    has_requests-spins predict policy moment exhausted refl nothing_left refl still_open

AllPositive : List ℕ → Type 0
AllPositive [] = Unit {0}
AllPositive (n ∷ ns) = (0 < n) × AllPositive ns

filled_by :
    (ss : List FinetuningSample) (i : ℕ) (s : FinetuningSample)
    → AllPositive (map input_len ss)
    → get_elem? ss i ≡ some s
    → 0 < input_len s
unfolding AllPositive
filled_by [] i s a e = absurd (ground arith)
filled_by (x ∷ xs) zero s a e = ground arith
filled_by (x ∷ xs) (suc i) s a e = filled_by xs i s a.1 e

positive_lens : AllPositive (2 ∷ 3 ∷ 2 ∷ [])
unfolding AllPositive
positive_lens = omega arith

small-IsFilled : IsFilled small
small-IsFilled i s e =
    filled_by small.samples i s (subst AllPositive (sym small_loaded) positive_lens) e

pack-ends_example :
    (pack (6 + 4) small 6 [] ≡ pack 6 small 6 []) × (tokens (pack 6 small 6 []).1 ≤ 6)
pack-ends_example = pack-ends small 6 4 small-IsValid small-IsFilled

abbrev known : ℕ → ℕ → Bool → Known
known computed prompt ft = record {
  lora_int_id = 0;
  num_computed_tokens = computed;
  num_prompt_tokens = prompt;
  is_finetuning = ft;
}

-- A decode, a prefill that this step completes, and a finetuning sample.
abbrev scheduled_step : List (Known × ℕ)
scheduled_step = (known 9 8 false, 1) ∷ (known 2 8 false, 6) ∷ (known 0 5 true, 5) ∷ []

counted_features : (features_from_output (advanced scheduled_step)).0.t_in ≡ 11
unfolding features_from_output scan_output note_scheduled
counted_features = refl

features_from_output-Adds_example :
    Adds no_features scheduled_step (features_from_output (advanced scheduled_step)).0
features_from_output-Adds_example = features_from_output-Adds scheduled_step

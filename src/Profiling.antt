-- ===== src/Profiling.antt =====
-- deltaserve/profiling_batch_generator.py: the shapes of the batches that the profiling pass runs.
-- The switch of deltaserve/estimator.py that splits the finetuning regime is the argument `split`.
pub mod Parts
mod Tests
use delta_serve_v_llm.Common.{
  ℕ, zero, suc, ◌+◌, ◌-◌, ◌*◌, ◌/◌, ◌%◌, min, max, Bool, true, false, not, ◌||◌, List, [], ◌∷◌,
  ◌++◌, map, ltb, leb, ◌==◌, if◌then◌else◌, replicate, sum,
}

pub data Kind : Type 0 where
  prefill coserve decode mixed : Kind

pub record ProfileShape : Type 0 where
  pub kind : Kind
  pub inf_lens : List ℕ
  pub ft_lens : List ℕ
  pub mix_lens : List ℕ
  pub n_decode : ℕ

pub record Generator : Type 0 where
  pub batch_max_tokens : ℕ
  pub ft_cap : ℕ
  pub max_req_len : ℕ
  pub inf_cap : ℕ

unfoldable pub init : ℕ → ℕ → ℕ → Generator
init batch_max_tokens max_saved_finetuning_tokens max_req_len = record {
  batch_max_tokens = batch_max_tokens;
  ft_cap = max 1 max_saved_finetuning_tokens;
  max_req_len = max 16 (max_req_len - 16);
  inf_cap = max 64 (min batch_max_tokens 4096);
}

-- `math.ceil(total / m)`; `m` is at least 16.
abbrev pub ceil_div : ℕ → ℕ → ℕ
ceil_div total m = (total + (m - 1)) / m

-- The number of parts. Without tokens and parts the source divides by zero: `total` is positive in
-- every call.
unfoldable pub parts_of : Generator → ℕ → ℕ → ℕ
parts_of g total n_parts = max (max 1 (min n_parts total)) (ceil_div total g.max_req_len)

unfoldable pub partition : Generator → ℕ → ℕ → List ℕ
unfolding parts_of
partition g total n_parts =
    let n = parts_of g total n_parts in
    replicate (total % n) (total / n + 1) ++ replicate (n - total % n) (total / n)

abbrev pub only_prefill : List ℕ → ProfileShape
only_prefill lens = record {
  kind = prefill;
  inf_lens = lens;
  ft_lens = [];
  mix_lens = [];
  n_decode = 0;
}

abbrev pub with_ft : List ℕ → List ℕ → ProfileShape
with_ft inf ft = record {
  kind = coserve;
  inf_lens = inf;
  ft_lens = ft;
  mix_lens = [];
  n_decode = 0;
}

-- The loop over the levels of inference tokens beside `ft` finetuning tokens.
unfoldable pub beside : Generator → ℕ → List ℕ → List ProfileShape
unfolding partition
beside g ft [] = []
beside g ft (inf ∷ infs) =
    let rest = beside g ft infs in
    if ltb g.batch_max_tokens (inf + ft)
    then rest
    else with_ft (partition g inf (max 1 (inf / 256))) (partition g ft (max 1 (ft / 64))) ∷ rest

unfoldable pub ft_only_idle_shapes : Generator → List ProfileShape
unfolding partition
ft_only_idle_shapes g =
    if g.ft_cap == 0 then [] else with_ft [] (partition g g.ft_cap (max 1 (g.ft_cap / 64))) ∷ []

-- `_ft_on_decode_shapes` for one number of decodes; `ft` is its finetuning sample.
unfoldable pub decodes_beside : Generator → ℕ → ℕ → List ProfileShape
decodes_beside g ft b =
    let room = g.batch_max_tokens - ft in
    let first = min g.max_req_len (max 16 (room / b)) in
    let per = if ltb room (b * first) then max 16 (room / b) else first in
    if ltb g.batch_max_tokens (b * per + ft)
    then []
    else record {
      kind = decode;
      inf_lens = replicate b per;
      ft_lens = ft ∷ [];
      mix_lens = [];
      n_decode = 2;
    }
      ∷ []

unfoldable pub ft_on_decode_shapes : Generator → List ProfileShape
unfolding decodes_beside
ft_on_decode_shapes g =
    let ft = max 8 (min g.ft_cap 64) in
    if ltb (g.batch_max_tokens - ft) 16
    then []
    else decodes_beside g ft 1
      ++ decodes_beside g ft 2
      ++ decodes_beside g ft 4
      ++ decodes_beside g ft 8

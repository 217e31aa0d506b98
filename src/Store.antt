-- ===== src/Store.antt =====
-- deltaserve/finetuning_store.py: the length-bucketed store of finetuning samples. A request id
-- (`uuid4().hex`) is an opaque number, dictionaries are association lists in insertion order, and a
-- Python set is a list read by `elem`. `samples[idx]` and `trained[idx]` are total here: the
-- indices that the store holds are in range (Store/Valid).
pub mod Index
pub mod Valid
pub mod Select
pub mod Claim
pub mod Settle
pub mod Release
pub mod Load
pub mod Tests
use Prim.Native.String.{String}
use text.Mathlib.Text.{◌==◌ as str_eq}
use delta_serve_v_llm.Common.{
  ℕ, zero, suc, ◌+◌, Bool, true, false, not, ◌&&◌, ◌||◌, Option, none, some, List, [], ◌∷◌, ◌++◌,
  map, ltb, leb, ◌==◌, if◌then◌else◌, length, get_elem?, get_or, set, replicate, elem, diff,
  discard,
}
use delta_serve_v_llm.Common.Dict.{Dict, get, put, delete, add}
use delta_serve_v_llm.Common.Sorted.{bisect_right, remove_sorted, insert_sorted}

pub record FinetuningSample : Type 0 where
  pub request_id : ℕ
  pub prompt_ids : List ℕ
  pub text : String
  pub adapter : Option String

abbrev pub input_len : FinetuningSample → ℕ
input_len s = length s.prompt_ids

pub record FinetuningStore : Type 0 where
  pub data_path : Option String
  pub adapter : Option String
  pub total_epochs : ℕ
  pub max_saved_finetuning_tokens : ℕ
  pub max_prepare : Option ℕ
  pub samples : List FinetuningSample
  pub id2idx : List (ℕ × ℕ)
  pub trained : List Bool
  pub current_epoch : ℕ
  pub total_tokens_in_memory : ℕ
  pub len_buckets : Dict
  pub sorted_lengths : List ℕ
  pub claimed : List ℕ
  pub bucket_template : Dict
  pub sorted_template : List ℕ

-- `id2idx.get(request_id)`
unfoldable pub index_of : List (ℕ × ℕ) → ℕ → Option ℕ
index_of [] r = none
index_of ((q, i) ∷ d) r = if q == r then some i else index_of d r

-- `id2idx[request_id] = idx`
unfoldable pub set_index : List (ℕ × ℕ) → ℕ → ℕ → List (ℕ × ℕ)
set_index [] r i = (r, i) ∷ []
set_index ((q, j) ∷ d) r i = if q == r then (r, i) ∷ d else (q, j) ∷ set_index d r i

-- `samples[idx].input_len`
unfoldable pub len_at : List FinetuningSample → ℕ → ℕ
len_at ss i = elim (get_elem? ss i) [ none ↦ 0 | some s ↦ input_len s ]

abbrev pub is_trained : FinetuningStore → ℕ → Bool
is_trained st i = get_or st.trained i false

unfoldable pub init : Option String → Option String → ℕ → ℕ → Option ℕ → FinetuningStore
init data_path adapter total_epochs cap max_prepare = record {
  data_path = data_path;
  adapter = adapter;
  total_epochs = total_epochs;
  max_saved_finetuning_tokens = cap;
  max_prepare = max_prepare;
  samples = [];
  id2idx = [];
  trained = [];
  current_epoch = 0;
  total_tokens_in_memory = 0;
  len_buckets = [];
  sorted_lengths = [];
  claimed = [];
  bucket_template = [];
  sorted_template = [];
}

-- The loop of `_build_templates`; `i` is the counter of `enumerate`.
unfoldable pub group_from : ℕ → List FinetuningSample → Dict → Dict
group_from i [] d = d
group_from i (s ∷ ss) d = group_from (suc i) ss (add d (input_len s) i)

-- `sorted(d)`, over keys that are all different.
unfoldable pub sorted_keys : Dict → List ℕ
sorted_keys [] = []
sorted_keys ((k, _) ∷ d) = insert_sorted (sorted_keys d) k

unfoldable pub build_templates : FinetuningStore → FinetuningStore
unfolding group_from sorted_keys
build_templates st =
    let template = group_from 0 st.samples [] in
    record st { bucket_template = template; sorted_template = sorted_keys template }

unfoldable pub reset_epoch_structures : FinetuningStore → FinetuningStore
reset_epoch_structures st = record st {
  trained = replicate (length st.samples) false;
  len_buckets = st.bucket_template;
  sorted_lengths = st.sorted_template;
  claimed = [];
}

-- The new sample goes to the end, under its id.
unfoldable pub add_sample : FinetuningStore → FinetuningSample → FinetuningStore
unfolding set_index
add_sample st s = record st {
  samples = st.samples ++ s ∷ [];
  id2idx = set_index st.id2idx s.request_id (length st.samples);
  total_tokens_in_memory = st.total_tokens_in_memory + input_len s;
}

-- `self.max_prepare is not None and loaded >= self.max_prepare`
abbrev pub is_enough : Option ℕ → ℕ → Bool
is_enough none loaded = false
is_enough (some m) loaded = leb m loaded

-- Reading the corpus. The tokenizer, `str.strip`, the ids and the lines of the file come from
-- outside; `uuid n` is the id drawn for the sample of index `n`.
module _ (strip : String → String) (tokenize : String → List ℕ) (uuid : ℕ → ℕ) where
  -- The sample of a line that is kept.
  abbrev pub sample_of : FinetuningStore → String → FinetuningSample
  sample_of st line = record {
    request_id = uuid (length st.samples);
    prompt_ids = tokenize (strip line);
    text = strip line;
    adapter = st.adapter;
  }

  -- One line: `none` where the loop goes on without a sample (a blank line, an oversized sample).
  unfoldable pub read_line : FinetuningStore → String → Option FinetuningStore
  unfolding add_sample
  read_line st line =
      if str_eq (strip line) ""
      then none
      else if ltb st.max_saved_finetuning_tokens (length (tokenize (strip line)))
      then none
      else some (add_sample st (sample_of st line))

  unfoldable pub read_lines : FinetuningStore → ℕ → List String → FinetuningStore × ℕ
  unfolding read_line
  read_lines st loaded [] = (st, loaded)
  read_lines st loaded (line ∷ lines) = elim (read_line st line) [
    | none ↦ read_lines st loaded lines
    | some st' ↦
        let rest = read_lines st' (suc loaded) lines in
        if is_enough st.max_prepare (suc loaded) then (st', suc loaded) else rest
  ]

  unfoldable pub load : FinetuningStore → List String → FinetuningStore × ℕ
  unfolding read_lines build_templates reset_epoch_structures
  load st lines = elim st.data_path [
    | none ↦ (st, 0)
    | some _ ↦
        let (st', loaded) = read_lines st 0 lines in
        (reset_epoch_structures (build_templates st'), loaded)
  ]

abbrev pub request_ids : List FinetuningSample → List ℕ
request_ids = map (λ s. s.request_id)

-- The inner loop of both selections: the first index of a bucket that may be taken.
unfoldable pub first_in : FinetuningStore → List ℕ → List ℕ → Option FinetuningSample
first_in st exclude_ids [] = none
first_in st exclude_ids (idx ∷ idxs) = elim (get_elem? st.samples idx) [
  | none ↦ first_in st exclude_ids idxs
  | some s ↦
      if is_trained st idx || elem s.request_id exclude_ids
      then first_in st exclude_ids idxs
      else some s
]

-- `len_buckets.get(length, ())`
abbrev pub bucket : FinetuningStore → ℕ → List ℕ
bucket st n = elim (get st.len_buckets n) [ none ↦ [] | some dq ↦ dq ]

-- The `while pos >= 0` loop of `pop_best_under`, with `pos + 1` as its argument.
unfoldable pub best_below : FinetuningStore → List ℕ → ℕ → Option FinetuningSample
unfolding first_in
best_below st exclude_ids zero = none
best_below st exclude_ids (suc pos) =
    elim (first_in st exclude_ids (bucket st (get_or st.sorted_lengths pos 0))) [
      | some s ↦ some s
      | none ↦ best_below st exclude_ids pos
    ]

unfoldable pub pop_best_under :
    FinetuningStore → ℕ → List FinetuningSample → Option FinetuningSample
unfolding best_below
pop_best_under st max_tokens exclude =
    best_below st (request_ids exclude) (bisect_right st.sorted_lengths max_tokens)

-- The `for length in self.sorted_lengths` loop of `pop_next`.
unfoldable pub next_among : FinetuningStore → List ℕ → List ℕ → Option FinetuningSample
unfolding first_in
next_among st exclude_ids [] = none
next_among st exclude_ids (n ∷ lengths) = elim (first_in st exclude_ids (bucket st n)) [
  | some s ↦ some s
  | none ↦ next_among st exclude_ids lengths
]

unfoldable pub pop_next : FinetuningStore → List FinetuningSample → Option FinetuningSample
unfolding next_among
pop_next st exclude = next_among st (request_ids exclude) st.sorted_lengths

-- The first loop of `claim`: what is claimed, and the new indices by length.
unfoldable pub mark_claimed :
    FinetuningStore → List ℕ → Dict → List FinetuningSample → List ℕ × Dict
mark_claimed st claimed by_len [] = (claimed, by_len)
mark_claimed st claimed by_len (s ∷ ss) = elim (index_of st.id2idx s.request_id) [
  | none ↦ mark_claimed st claimed by_len ss
  | some idx ↦ elim (is_trained st idx || elem idx claimed) [
    | true ↦ mark_claimed st claimed by_len ss
    | false ↦ mark_claimed st (idx ∷ claimed) (add by_len (len_at st.samples idx) idx) ss
  ]
]

-- The second loop of `claim`: the new indices leave the buckets, and empty buckets go.
unfoldable pub drop_from_buckets : Dict → List ℕ → ℕ → Dict → Dict × List ℕ × ℕ
drop_from_buckets buckets lengths marked [] = (buckets, lengths, marked)
drop_from_buckets buckets lengths marked ((n, to_remove) ∷ by_len) = elim (get buckets n) [
  | none ↦ drop_from_buckets buckets lengths marked by_len
  | some [] ↦ drop_from_buckets buckets lengths marked by_len
  | some (i ∷ dq) ↦ elim (diff (i ∷ dq) to_remove) [
    | [] ↦
        drop_from_buckets (delete buckets n) (remove_sorted lengths n) (marked + length to_remove)
          by_len
    | j ∷ kept ↦
        drop_from_buckets (put buckets n (j ∷ kept)) lengths (marked + length to_remove) by_len
  ]
]

unfoldable pub claim : FinetuningStore → List FinetuningSample → FinetuningStore × ℕ
unfolding mark_claimed drop_from_buckets
claim st ss =
    let (claimed, by_len) = mark_claimed st st.claimed [] ss in
    let (buckets, lengths, marked) = drop_from_buckets st.len_buckets st.sorted_lengths 0 by_len in
    (record st { claimed = claimed; len_buckets = buckets; sorted_lengths = lengths }, marked)

-- The loop of `commit_claimed`.
unfoldable pub commit_claimed_from :
    FinetuningStore → ℕ → List FinetuningSample → FinetuningStore × ℕ
commit_claimed_from st marked [] = (st, marked)
commit_claimed_from st marked (s ∷ ss) = elim (index_of st.id2idx s.request_id) [
  | none ↦ commit_claimed_from st marked ss
  | some idx ↦ elim (elem idx st.claimed) [
    | true ↦
        commit_claimed_from
          (record st { claimed = discard idx st.claimed; trained = set st.trained idx true })
          (suc marked) ss
    | false ↦ commit_claimed_from st marked ss
  ]
]

unfoldable pub commit_claimed : FinetuningStore → List FinetuningSample → FinetuningStore × ℕ
unfolding commit_claimed_from
commit_claimed st ss = commit_claimed_from st 0 ss

-- The first loop of `release_claimed`.
unfoldable pub unmark_claimed :
    FinetuningStore → List ℕ → Dict → List FinetuningSample → List ℕ × Dict
unmark_claimed st claimed by_len [] = (claimed, by_len)
unmark_claimed st claimed by_len (s ∷ ss) = elim (index_of st.id2idx s.request_id) [
  | none ↦ unmark_claimed st claimed by_len ss
  | some idx ↦ elim (elem idx claimed) [
    | true ↦ unmark_claimed st (discard idx claimed) (add by_len (len_at st.samples idx) idx) ss
    | false ↦ unmark_claimed st claimed by_len ss
  ]
]

-- The second loop of `release_claimed`: the indices join their buckets again.
unfoldable pub return_to_buckets : Dict → List ℕ → ℕ → Dict → Dict × List ℕ × ℕ
return_to_buckets buckets lengths n [] = (buckets, lengths, n)
return_to_buckets buckets lengths n ((k, idxs) ∷ by_len) = elim (get buckets k) [
  | none ↦ return_to_buckets (put buckets k idxs) (insert_sorted lengths k) (n + length idxs) by_len
  | some dq ↦ return_to_buckets (put buckets k (dq ++ idxs)) lengths (n + length idxs) by_len
]

unfoldable pub release_claimed : FinetuningStore → List FinetuningSample → FinetuningStore × ℕ
unfolding unmark_claimed return_to_buckets
release_claimed st ss =
    let (claimed, by_len) = unmark_claimed st st.claimed [] ss in
    let (buckets, lengths, n) = return_to_buckets st.len_buckets st.sorted_lengths 0 by_len in
    (record st { claimed = claimed; len_buckets = buckets; sorted_lengths = lengths }, n)

unfoldable pub has_claimed : FinetuningStore → Bool
has_claimed st = elim st.claimed [ [] ↦ false | _ ↦ true ]

unfoldable pub has_next : FinetuningStore → Bool
has_next st = elim st.len_buckets [ [] ↦ false | _ ↦ true ]

unfoldable pub advance_epoch : FinetuningStore → FinetuningStore × Bool
unfolding reset_epoch_structures
advance_epoch st =
    if leb st.total_epochs st.current_epoch || has_claimed st
    then (st, false)
    else (reset_epoch_structures (record st { current_epoch = suc st.current_epoch }), true)

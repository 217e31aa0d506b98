-- ===== src/Capture.antt =====
-- deltaserve/model_runner.py, `_build_finetune_mask`, with deltaserve/accumulate.py and
-- deltaserve/ft_save_op.py: which rows of a step's batch are finetuning rows, and how the hooks (an
-- eager step) or the save operator (a step on a CUDA graph) copy them into a save point's buffer. A
-- tensor is the list of its rows; dtype casts and the copies between host and device have no model.
pub mod Span
pub mod Graph
pub mod Undo
mod Tests
use delta_serve_v_llm.Common.Slices.{take, drop, slice}
use delta_serve_v_llm.Common.{
  ℕ, zero, suc, ◌+◌, ◌-◌, ◌*◌, min, Bool, true, false, not, ◌&&◌, ◌||◌, Option, none, some, List,
  [], ◌∷◌, ◌++◌, map, ◌==◌, ltb, leb, if◌then◌else◌, length, set, get_or, replicate, sum,
}

-- The batch's requests in flat order: whether one is a finetuning request, and its scheduled
-- tokens.
abbrev pub Batch : Type 0
Batch = List (Bool × ℕ)

unfoldable pub total_tokens : Batch → ℕ
total_tokens [] = 0
total_tokens ((ft, len) ∷ rest) = len + total_tokens rest

-- `mask[cu[i]:cu[i + 1]] = True` for the finetuning requests.
unfoldable pub mask_of : Batch → List Bool
mask_of [] = []
mask_of ((ft, len) ∷ rest) = replicate len ft ++ mask_of rest

-- `mask.sum()`
unfoldable pub count_true : List Bool → ℕ
count_true [] = 0
count_true (b ∷ bs) = if b then suc (count_true bs) else count_true bs

-- `np.flatnonzero(mask)`
unfoldable pub flat_nonzero : List Bool → List ℕ
flat_nonzero [] = []
flat_nonzero (b ∷ bs) =
    let rest : List ℕ = map suc (flat_nonzero bs) in if b then 0 ∷ rest else rest

-- The loop over the requests, `cu` tokens in: `ft_first` (none is -1), `ft_last` and `sample_lens`.
pub record Scan : Type 0 where
  pub ft_first : Option ℕ
  pub ft_last : Option ℕ
  pub sample_lens : List ℕ

-- The loop's body at a finetuning request of `len` tokens.
abbrev pub note_request : Scan → ℕ → ℕ → Scan
note_request s cu len = record {
  ft_first = elim s.ft_first [ none ↦ some cu | some f ↦ some f ];
  ft_last = some (cu + len);
  sample_lens = s.sample_lens ++ (len ∷ []);
}

unfoldable pub scan : Scan → ℕ → Batch → Scan
scan s cu [] = s
scan s cu ((false, len) ∷ rest) = scan s (cu + len) rest
scan s cu ((true, len) ∷ rest) = scan (note_request s cu len) (cu + len) rest

pub record FinetuneMask : Type 0 where
  pub ft_has : Bool
  pub ft_mask : List Bool
  pub ft_num : ℕ
  pub ft_sample_lens : List ℕ
  pub ft_start : ℕ
  pub ft_contiguous : Bool
  pub ft_positions : List ℕ
  pub ft_graph_step : Bool

abbrev pub no_mask : FinetuneMask
no_mask = record {
  ft_has = false;
  ft_mask = [];
  ft_num = 0;
  ft_sample_lens = [];
  ft_start = 0;
  ft_contiguous = false;
  ft_positions = [];
  ft_graph_step = false;
}

-- `(ft_last - ft_first) == n` and `ft_first`, where the loop found a request.
unfoldable pub span_of : Option ℕ → Option ℕ → ℕ → ℕ × Bool
span_of (some f) (some l) n = (f, l - f == n)
span_of (some f) none n = (f, false)
span_of none l n = (0, false)

-- The configuration's part of `_ft_graph_step`: `graph_ft_only_batches`, and the accumulator's
-- `op_ready` with `graph_ft_batches` and `save_activations`.
pub record GraphConfig : Type 0 where
  pub graph_ft_only_batches : Bool
  pub op_ready : Bool
  pub graph_ft_batches : Bool
  pub save_activations : Bool

unfoldable pub is_graph_step : GraphConfig → ℕ → ℕ → Bool
is_graph_step g n total =
    (ltb n total || g.graph_ft_only_batches)
    && (g.op_ready && (g.graph_ft_batches && g.save_activations))

unfoldable pub build_finetune_mask : GraphConfig → Batch → FinetuneMask
unfolding total_tokens mask_of count_true flat_nonzero scan span_of is_graph_step
build_finetune_mask g batch =
    let mask : List Bool = mask_of batch in
    let s : Scan = scan (record { ft_first = none; ft_last = none; sample_lens = [] }) 0 batch in
    let n : ℕ = count_true mask in
    let graph : Bool = is_graph_step g n (total_tokens batch) in
    if n == 0 then no_mask else record {
      ft_has = true;
      ft_mask = mask;
      ft_num = n;
      ft_sample_lens = s.sample_lens;
      ft_start = (span_of s.ft_first s.ft_last n).0;
      ft_contiguous = (span_of s.ft_first s.ft_last n).1;
      ft_positions = if graph then flat_nonzero mask else [];
      ft_graph_step = graph;
    }

module _ {X : Type 0} where
  -- `val[mask]`
  unfoldable pub masked : List Bool → List X → List X
  masked [] xs = []
  masked (b ∷ bs) [] = []
  masked (b ∷ bs) (x ∷ xs) = if b then x ∷ masked bs xs else masked bs xs

  -- The finetuning rows as a hook takes them: the span's slice, or by the mask.
  unfoldable pub hook_rows : Bool → ℕ → ℕ → List Bool → List X → List X
  unfolding masked slice
  hook_rows contiguous start n mask val =
      if contiguous then slice val start (start + n) else masked mask val

  -- `buf[off:off + n].copy_(rows)`
  unfoldable pub copy_rows : ℕ → List X → List X → List X
  copy_rows off [] buf = buf
  copy_rows off (r ∷ rs) [] = []
  copy_rows zero (r ∷ rs) (y ∷ ys) = r ∷ copy_rows zero rs ys
  copy_rows (suc off) (r ∷ rs) (y ∷ ys) = y ∷ copy_rows off (r ∷ rs) ys

  -- The end of a hook's copy: at most to the end of the buffer's `max_saved` rows.
  unfoldable pub save_rows : ℕ → ℕ → List X → List X → List X
  unfolding copy_rows take
  save_rows max_saved off rows buf =
      copy_rows off (take (min (length rows) (max_saved - off)) rows) buf

  -- The residual stream: the one argument, or the sum of the two.
  unfoldable pub summed : (X → X → X) → List X → Option (List X) → List X
  summed add xs none = xs
  summed add [] (some rs) = []
  summed add (x ∷ xs) (some []) = []
  summed add (x ∷ xs) (some (r ∷ rs)) = add x r ∷ summed add xs (some rs)

-- The step's index tables: `ft_src` and `ft_dst`, as one list of pairs. An unused slot takes row 0
-- to the scratch row `max_saved`.
unfoldable pub targets : ℕ → List ℕ → List (ℕ × ℕ)
targets off [] = []
targets off (p ∷ ps) = (p, off) ∷ targets (suc off) ps

unfoldable pub arm_op_step : ℕ → List ℕ → ℕ → ℕ → List (ℕ × ℕ)
unfolding targets take
arm_op_step max_saved positions num_ft off =
    let n : ℕ = min num_ft (max_saved - off) in
    targets off (take n positions) ++ replicate (max_saved - n) (0, max_saved)

module _ {X : Type 0} (zero_row : X) (add : X → X → X) where
  -- `x.index_select(0, src)` with the residual's rows added: row `src`.
  unfoldable pub selected : List X → Option (List X) → ℕ → X
  selected xs none src = get_or xs src zero_row
  selected xs (some rs) src = add (get_or xs src zero_row) (get_or rs src zero_row)

  -- `buf.index_copy_(0, dst, rows)`, one pair after the other.
  unfoldable pub index_copy : List (ℕ × ℕ) → List X → Option (List X) → List X → List X
  unfolding selected
  index_copy [] xs rs buf = buf
  index_copy ((src, dst) ∷ table) xs rs buf =
      index_copy table xs rs (set buf dst (selected xs rs src))

  -- `_dserve_save_rows` on the buffers by slot.
  unfoldable pub save_op :
      Option (List (ℕ × ℕ))
      → List (Option (List X))
      → ℕ
      → List X
      → Option (List X)
      → List (Option (List X))
  unfolding index_copy
  save_op none bufs slot xs rs = bufs
  save_op (some table) bufs slot xs rs = elim (get_or bufs slot none) [
    | none ↦ bufs
    | some buf ↦ set bufs slot (some (index_copy table xs rs buf))
  ]

-- The save points of a layer, in the order of their slots.
pub data SavePoint : Type 0 where
  layer_in resid_mid gate_up attn_q attn_k attn_v attn_ctx : SavePoint

abbrev pub rank_in_layer : SavePoint → ℕ
rank_in_layer layer_in = 0
rank_in_layer resid_mid = 1
rank_in_layer gate_up = 2
rank_in_layer attn_q = 3
rank_in_layer attn_k = 4
rank_in_layer attn_v = 5
rank_in_layer attn_ctx = 6

abbrev pub slot_of : ℕ → SavePoint → ℕ
slot_of layer p = 7 * layer + rank_in_layer p

abbrev pub final_slot : ℕ → ℕ
final_slot layers = 7 * layers

-- `zero_offset_range` on one buffer.
unfoldable pub zero_offset_range : {X : Type 0} → X → ℕ → ℕ → ℕ → List X → List X
unfolding copy_rows
zero_offset_range zero_row max_saved off n buf =
    copy_rows off (replicate (min n (max_saved - off)) zero_row) buf

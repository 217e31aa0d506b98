-- ===== src/Capture/Tests.antt =====
-- A batch of two finetuning requests around an inference one, and the theorems there.
use delta_serve_v_llm.Common.{
  ℕ, ◌+◌, ◌≡◌, refl, Bool, true, false, some, List, [], ◌∷◌, length, sum,
}
use delta_serve_v_llm.Common.Slices.{take}
use delta_serve_v_llm.Capture.{
  Batch, mask_of, masked, hook_rows, GraphConfig, build_finetune_mask, index_copy, arm_op_step,
  flat_nonzero, count_true, save_rows, summed, total_tokens,
}
use delta_serve_v_llm.Capture.Span.{build_finetune_mask-rows}
use delta_serve_v_llm.Capture.Graph.{index_copy-save_rows}

abbrev batch : Batch
batch = (true, 2) ∷ (false, 1) ∷ (true, 1) ∷ []

abbrev graphs : GraphConfig
graphs = record {
  graph_ft_only_batches = false;
  op_ready = true;
  graph_ft_batches = true;
  save_activations = true;
}

abbrev values : List ℕ
values = 10 ∷ 11 ∷ 12 ∷ 13 ∷ []

four_tokens : length values ≡ total_tokens batch
unfolding total_tokens
four_tokens = refl

batch_rows : masked (mask_of batch) values ≡ 10 ∷ 11 ∷ 13 ∷ []
unfolding masked mask_of
batch_rows = refl

build_finetune_mask-rows_example :
    let m = build_finetune_mask graphs batch in
    (hook_rows m.ft_contiguous m.ft_start m.ft_num m.ft_mask values ≡ masked (mask_of batch) values)
    × (length (masked (mask_of batch) values) ≡ m.ft_num)
    × (sum m.ft_sample_lens ≡ m.ft_num)
build_finetune_mask-rows_example = build_finetune_mask-rows graphs batch values four_tokens

abbrev buffer : List ℕ
buffer = 1 ∷ 2 ∷ 3 ∷ 4 ∷ 0 ∷ []

abbrev residual : List ℕ
residual = 100 ∷ 100 ∷ 100 ∷ 100 ∷ []

abbrev both_sides : List Bool
both_sides = true ∷ true ∷ false ∷ true ∷ []

index_copy-save_rows_example :
    take 4 (
      index_copy 0
        (λ (x y : ℕ). x + y)
        (arm_op_step 4 (flat_nonzero both_sides) (count_true both_sides) 2)
        values
        (some residual)
        buffer)
    ≡ take 4 (
        save_rows 4 2
          (masked both_sides (summed (λ (x y : ℕ). x + y) values (some residual)))
          buffer)
index_copy-save_rows_example =
    index_copy-save_rows 0 (λ (x y : ℕ). x + y) 4 2 both_sides values (some residual) buffer refl
      refl

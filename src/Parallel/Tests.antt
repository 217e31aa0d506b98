-- ===== src/Parallel/Tests.antt =====
-- Factors and buckets of two ranks and three layers, and the theorems there.
use delta_serve_v_llm.Common.{ℕ, ◌+◌, ◌≡◌, refl, Bool, not, ◌==◌, List, [], ◌∷◌, arith}
use delta_serve_v_llm.Common.Slices.{slice, take, drop}
use delta_serve_v_llm.Parallel.Shard.{
  o, a, lora_shard_slice, shard, Gathered, lora_shard_slice-Gathered,
}
use delta_serve_v_llm.Parallel.Bucket.{
  Key, Tiles, groups, groups_from, order_of, offsets, layer_size, total_of, slab, last_of,
  bucket-Tiles,
}

abbrev factor : List (List ℕ)
factor = (1 ∷ 2 ∷ 3 ∷ 4 ∷ []) ∷ (5 ∷ 6 ∷ 7 ∷ 8 ∷ []) ∷ []

second_shard : lora_shard_slice o a factor 1 2 2 1 ≡ (3 ∷ 4 ∷ []) ∷ (7 ∷ 8 ∷ []) ∷ []
unfolding lora_shard_slice shard slice take drop
second_shard = refl

lora_shard_slice-Gathered_example :
    Gathered o a 1 (λ (r : ℕ). lora_shard_slice o a factor r 2 2 1) factor
lora_shard_slice-Gathered_example = lora_shard_slice-Gathered o a factor 1 2 1 (omega arith)

abbrev counts : ℕ → Key → ℕ
counts i key = i + 2

abbrev but_one : ℕ → Bool
but_one i = not (i == 1)

four_groups : groups counts 2 (order_of but_one 4) ≡ (2, (0, 36)) ∷ (0, (36, 44)) ∷ []
unfolding groups groups_from order_of offsets layer_size slab last_of take drop
four_groups = refl

bucket-Tiles_example :
    Tiles 0 (groups counts 2 (order_of but_one 4)) (total_of counts (order_of but_one 4))
bucket-Tiles_example = bucket-Tiles counts 2 4 but_one

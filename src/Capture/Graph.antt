-- ===== src/Capture/Graph.antt =====
-- The two ways of saving a step's finetuning rows, the hooks of deltaserve/accumulate.py and the
-- operator of deltaserve/ft_save_op.py, write the same rows.
use delta_serve_v_llm.Common.Slices.{take}
use delta_serve_v_llm.Common.{
  ℕ, zero, suc, ◌-◌, ◌<◌, ◌≡◌, refl, ap, ◌∙◌, sym, min, Bool, true, false, Option, none, some, List,
  [], ◌∷◌, ◌++◌, map, arith, length, set, replicate,
}
use delta_serve_v_llm.Capture.{
  count_true, flat_nonzero, masked, copy_rows, save_rows, summed, targets, arm_op_step, selected,
  index_copy, SavePoint, layer_in, resid_mid, gate_up, attn_q, attn_k, attn_v, attn_ctx,
  rank_in_layer, slot_of, final_slot,
}
use delta_serve_v_llm.Capture.Span.{length-masked}

module _ {X : Type 0} where
  copy_rows-set :
      (off : ℕ) (r : X) (rs buf : List X)
      → copy_rows (suc off) rs (set buf off r) ≡ copy_rows off (r ∷ rs) buf
  unfolding copy_rows
  copy_rows-set off r [] [] = refl
  copy_rows-set zero r [] (y ∷ ys) = refl
  copy_rows-set (suc off) r [] (y ∷ ys) = ap (λ (t : List X). y ∷ t) (copy_rows-set off r [] ys)
  copy_rows-set off r (s ∷ rs) [] = refl
  copy_rows-set zero r (s ∷ rs) (y ∷ ys) = refl
  copy_rows-set (suc off) r (s ∷ rs) (y ∷ ys) =
      ap (λ (t : List X). y ∷ t) (copy_rows-set off r (s ∷ rs) ys)

  copy_rows-nil : (off : ℕ) (buf : List X) → copy_rows off [] buf ≡ buf
  unfolding copy_rows
  copy_rows-nil off buf = refl

  take-set : (n : ℕ) (v : X) (xs : List X) → take n (set xs n v) ≡ take n xs
  unfolding take
  take-set n v [] = refl
  take-set zero v (x ∷ xs) = refl
  take-set (suc n) v (x ∷ xs) = ap (λ (t : List X). x ∷ t) (take-set n v xs)

  map-take : {Y : Type 0} (f : Y → X) (n : ℕ) (ys : List Y) → map f (take n ys) ≡ take n (map f ys)
  unfolding take
  map-take f zero ys = refl
  map-take f (suc n) [] = refl
  map-take f (suc n) (y ∷ ys) = ap (λ (t : List X). f y ∷ t) (map-take f n ys)

  map-map :
      {Y Z : Type 0} (f : Y → X) (g : Z → Y) (zs : List Z)
      → map f (map g zs) ≡ map (λ (z : Z). f (g z)) zs
  map-map f g [] = refl
  map-map f g (z ∷ zs) = ap (λ (t : List X). f (g z) ∷ t) (map-map f g zs)

-- The residual, where there is one, has a row for each of the batch's.
abbrev pub SameRows : {X : Type 0} → List X → Option (List X) → Type 0
SameRows xs none = Unit {0}
SameRows xs (some rs) = length xs ≡ length rs

module _ {X : Type 0} (zero_row : X) (add : X → X → X) where
  index_copy-targets :
      (ps : List ℕ) (off : ℕ) (table : List (ℕ × ℕ)) (xs : List X) (rs : Option (List X))
      (buf : List X)
      → index_copy zero_row add (targets off ps ++ table) xs rs buf
        ≡ index_copy zero_row add table xs rs
            (copy_rows off (map (selected zero_row add xs rs) ps) buf)
  unfolding index_copy targets
  index_copy-targets [] off table xs rs buf =
      ap (index_copy zero_row add table xs rs) (sym (copy_rows-nil off buf))
  index_copy-targets (p ∷ ps) off table xs rs buf =
      index_copy-targets ps (suc off) table xs rs (set buf off (selected zero_row add xs rs p))
      ∙ ap (index_copy zero_row add table xs rs) (
          copy_rows-set off (selected zero_row add xs rs p) (map (selected zero_row add xs rs) ps)
            buf)

  index_copy-scratch :
      (k n : ℕ) (xs : List X) (rs : Option (List X)) (buf : List X)
      → take n (index_copy zero_row add (replicate k (0, n)) xs rs buf) ≡ take n buf
  unfolding index_copy
  index_copy-scratch zero n xs rs buf = refl
  index_copy-scratch (suc k) n xs rs buf =
      index_copy-scratch k n xs rs (set buf n (selected zero_row add xs rs 0))
      ∙ take-set n (selected zero_row add xs rs 0) buf

  selected-flat_nonzero :
      (mask : List Bool) (xs : List X) (rs : Option (List X))
      → length mask ≡ length xs
      → SameRows xs rs
      → map (selected zero_row add xs rs) (flat_nonzero mask) ≡ masked mask (summed add xs rs)
  unfolding flat_nonzero masked summed selected
  selected-flat_nonzero [] xs rs e f = refl
  selected-flat_nonzero (b ∷ bs) [] rs e f = absurd (omega arith)
  selected-flat_nonzero (true ∷ bs) (x ∷ xs) none e f =
      ap (λ (t : List X). x ∷ t)
        (map-map (selected zero_row add (x ∷ xs) none) suc (flat_nonzero bs)
          ∙ selected-flat_nonzero bs xs none (omega arith) f)
  selected-flat_nonzero (false ∷ bs) (x ∷ xs) none e f =
      map-map (selected zero_row add (x ∷ xs) none) suc (flat_nonzero bs)
      ∙ selected-flat_nonzero bs xs none (omega arith) f
  selected-flat_nonzero (b ∷ bs) (x ∷ xs) (some []) e f = absurd (omega arith)
  selected-flat_nonzero (true ∷ bs) (x ∷ xs) (some (r ∷ rs)) e f =
      ap (λ (t : List X). add x r ∷ t)
        (map-map (selected zero_row add (x ∷ xs) (some (r ∷ rs))) suc (flat_nonzero bs)
          ∙ selected-flat_nonzero bs xs (some rs) (omega arith) (omega arith))
  selected-flat_nonzero (false ∷ bs) (x ∷ xs) (some (r ∷ rs)) e f =
      map-map (selected zero_row add (x ∷ xs) (some (r ∷ rs))) suc (flat_nonzero bs)
      ∙ selected-flat_nonzero bs xs (some rs) (omega arith) (omega arith)

  length-summed :
      (xs : List X) (rs : Option (List X)) → SameRows xs rs → length (summed add xs rs) ≡ length xs
  unfolding summed
  length-summed xs none f = refl
  length-summed [] (some rs) f = refl
  length-summed (x ∷ xs) (some []) f = absurd (omega arith)
  length-summed (x ∷ xs) (some (r ∷ rs)) f = ap suc (length-summed xs (some rs) (omega arith))

  -- A step on a CUDA graph saves what the same step would save eagerly: for a mask over the batch's
  -- rows, and a residual with as many rows where there is one, the operator with the step's index
  -- tables leaves the buffer's `max_saved` rows as the hook does that sums the residual and copies
  -- the mask's rows to the step's offset, cut short at the end of the buffer in the same way.
  pub index_copy-save_rows :
      (max_saved off : ℕ) (mask : List Bool) (xs : List X) (rs : Option (List X)) (buf : List X)
      → length mask ≡ length xs
      → SameRows xs rs
      → take max_saved (
          index_copy zero_row add
            (arm_op_step max_saved (flat_nonzero mask) (count_true mask) off)
            xs
            rs
            buf)
        ≡ take max_saved (save_rows max_saved off (masked mask (summed add xs rs)) buf)
  unfolding arm_op_step save_rows
  index_copy-save_rows max_saved off mask xs rs buf e f =
      let n = min (count_true mask) (max_saved - off) in
      let ps = take n (flat_nonzero mask) in
      let len : length (masked mask (summed add xs rs)) ≡ count_true mask =
        length-masked mask (summed add xs rs) (e ∙ sym (length-summed xs rs f)) in
      ap (take max_saved)
        (index_copy-targets ps off (replicate (max_saved - n) (0, max_saved)) xs rs buf)
      ∙ index_copy-scratch (max_saved - n) max_saved xs rs
          (copy_rows off (map (selected zero_row add xs rs) ps) buf)
      ∙ ap (λ (t : List X). take max_saved (copy_rows off t buf))
          (map-take (selected zero_row add xs rs) n (flat_nonzero mask)
            ∙ ap (take n) (selected-flat_nonzero mask xs rs e f)
            ∙ ap (λ (t : ℕ). take (min t (max_saved - off)) (masked mask (summed add xs rs)))
                (sym len))

rank_in_layer-lt : (p : SavePoint) → rank_in_layer p < 7
rank_in_layer-lt layer_in = omega arith
rank_in_layer-lt resid_mid = omega arith
rank_in_layer-lt gate_up = omega arith
rank_in_layer-lt attn_q = omega arith
rank_in_layer-lt attn_k = omega arith
rank_in_layer-lt attn_v = omega arith
rank_in_layer-lt attn_ctx = omega arith

-- Save points that share a slot are in one layer and at the same place there, and the final norm's
-- slot lies after every layer's.
pub slot_of-apart :
    (layers i j : ℕ) (p q : SavePoint)
    → i < layers
    → slot_of i p ≡ slot_of j q
    → (i ≡ j) × (rank_in_layer p ≡ rank_in_layer q) × (slot_of i p < final_slot layers)
slot_of-apart layers i j p q h e = omega (arith, rank_in_layer-lt p, rank_in_layer-lt q)

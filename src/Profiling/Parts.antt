-- ===== src/Profiling/Parts.antt =====
-- The partitions and the caps of deltaserve/profiling_batch_generator.py.
use delta_serve_v_llm.Common.{
  ℕ, zero, suc, ◌+◌, ◌-◌, ◌*◌, ◌/◌, ◌%◌, min, max, ◌<◌, ◌≤◌, ◌≡◌, ap, List, [], ◌∷◌, ◌++◌, arith,
  replicate, sum, sum-append, length, length-append, length-replicate,
}
use native.Mathlib.Nat.{div-add-mod, mod-lt, mul-le-mul_left, lt_of_mul-lt-mul_left, mul_comm}
use delta_serve_v_llm.Profiling.{
  Generator, ProfileShape, init, ceil_div, parts_of, partition, beside, ft_only_idle_shapes,
  decodes_beside, ft_on_decode_shapes,
}

-- No number of the list is above `m`.
abbrev pub AreUpTo : ℕ → List ℕ → Type 0
AreUpTo m [] = Unit {0}
AreUpTo m (x ∷ xs) = (x ≤ m) × AreUpTo m xs

sum-replicate : (n x : ℕ) → sum (replicate n x) ≡ n * x
unfolding sum
sum-replicate zero x = omega arith
sum-replicate (suc n) x = grind (arith, sum-replicate n x)

AreUpTo-replicate : (n x m : ℕ) → x ≤ m → AreUpTo m (replicate n x)
AreUpTo-replicate zero x m h = tt
AreUpTo-replicate (suc n) x m h = (h, AreUpTo-replicate n x m h)

AreUpTo-append : (m : ℕ) (xs ys : List ℕ) → AreUpTo m xs → AreUpTo m ys → AreUpTo m (xs ++ ys)
AreUpTo-append m [] ys h h' = h'
AreUpTo-append m (x ∷ xs) ys h h' = (h.0, AreUpTo-append m xs ys h.1 h')

-- The tokens of all requests of all shapes.
abbrev pub sum_lens : List ProfileShape → ℕ
sum_lens [] = 0
sum_lens (s ∷ ss) = sum s.inf_lens + sum s.ft_lens + sum s.mix_lens + sum_lens ss

-- Rounding up covers the total.
ceil_div-covers : (total m : ℕ) → 0 < m → total ≤ m * ceil_div total m
ceil_div-covers total m pos =
    omega (arith, div-add-mod (total + (m - 1)) m, mod-lt (total + (m - 1)) pos)

parts_of-covers :
    (g : Generator) (total n : ℕ) → 0 < g.max_req_len → total ≤ g.max_req_len * parts_of g total n
unfolding parts_of
parts_of-covers g total n pos = omega (
  arith,
  ceil_div-covers total g.max_req_len pos,
  mul-le-mul_left {m = ceil_div total g.max_req_len} {n = parts_of g total n} g.max_req_len
      (omega arith),
)

parts_of-pos : (g : Generator) (total n : ℕ) → 0 < parts_of g total n
unfolding parts_of
parts_of-pos g total n = omega arith

-- A part of either size is within the cap.
part-le :
    (total n m : ℕ) → 0 < n → total ≤ m * n → (total / n ≤ m) × (0 < total % n → total / n + 1 ≤ m)
part-le total n m pos h = (
  ground (
    arith,
    div-add-mod total n,
    mul-le-mul_left {m = suc m} {n = total / n} n,
    mul_comm n m,
    mul_comm n (suc m),
  ),
  λ r.
      ground
        (arith, div-add-mod total n, lt_of_mul-lt-mul_left n {m = total / n} {n = m}, mul_comm n m),
)

AreUpTo-larger : (k x m : ℕ) → (0 < k → x ≤ m) → AreUpTo m (replicate k x)
AreUpTo-larger zero x m h = tt
AreUpTo-larger (suc k) x m h = AreUpTo-replicate (suc k) x m (h (omega arith))

even_sum : (k r q total n : ℕ) → n ≡ k + r → n * q + r ≡ total → r * (q + 1) + k * q ≡ total
even_sum k r q total n e h = grind (arith, ap (λ x. x * q) e)

-- For a positive cap on a request, the parts of a total sum to it, their number is the one computed
-- for them, and no part is above the cap.
pub partition-AreUpTo :
    (g : Generator) (total n_parts : ℕ)
    → 0 < g.max_req_len
    → (sum (partition g total n_parts) ≡ total)
      × (length (partition g total n_parts) ≡ parts_of g total n_parts)
      × AreUpTo g.max_req_len (partition g total n_parts)
unfolding partition
partition-AreUpTo g total n_parts pos =
    let n = parts_of g total n_parts in
    let some_parts = parts_of-pos g total n_parts in
    let (small, large) =
      part-le total n g.max_req_len some_parts (parts_of-covers g total n_parts pos) in
    let left = replicate (total % n) (total / n + 1) in
    let right = replicate (n - total % n) (total / n) in
    (
      rw
          (
            sum-append left right,
            sum-replicate (total % n) (total / n + 1),
            sum-replicate (n - total % n) (total / n),
          )
          (even_sum (n - total % n) (total % n) (total / n) total n
            (omega (arith, mod-lt total some_parts)) (div-add-mod total n)),
      omega (
        arith,
        length-append left right,
        length-replicate (total % n) (total / n + 1),
        length-replicate (n - total % n) (total / n),
        mod-lt total some_parts,
      ),
      AreUpTo-append g.max_req_len left right
          (AreUpTo-larger (total % n) (total / n + 1) g.max_req_len large)
          (AreUpTo-replicate (n - total % n) (total / n) g.max_req_len small),
    )

-- With a buffer larger than the step's budget there is one finetuning-only batch for an idle
-- engine, and it has more tokens than a step may have.
pub ft_only_idle_shapes-exceeds :
    (batch_max_tokens saved max_req_len : ℕ)
    → batch_max_tokens < saved
    → let g = init batch_max_tokens saved max_req_len in
      (length (ft_only_idle_shapes g) ≡ 1) × (batch_max_tokens < sum_lens (ft_only_idle_shapes g))
unfolding ft_only_idle_shapes init sum
ft_only_idle_shapes-exceeds batch_max_tokens saved max_req_len h =
    let g = init batch_max_tokens saved max_req_len in
    (
      ground arith,
      ground (arith, (partition-AreUpTo g g.ft_cap (max 1 (g.ft_cap / 64)) (omega arith)).0),
    )

-- No batch has more tokens than `most`.
abbrev pub AreWithin : ℕ → List ProfileShape → Type 0
AreWithin most [] = Unit {0}
AreWithin most (s ∷ ss) =
    (sum s.inf_lens + sum s.ft_lens + sum s.mix_lens ≤ most) × AreWithin most ss

beside-AreWithin :
    (g : Generator) (ft : ℕ) (infs : List ℕ)
    → 0 < g.max_req_len
    → AreWithin g.batch_max_tokens (beside g ft infs)
unfolding beside sum
beside-AreWithin g ft [] pos = tt
beside-AreWithin g ft (inf ∷ infs) pos = ground (
  arith,
  beside-AreWithin g ft infs pos,
  (partition-AreUpTo g inf (max 1 (inf / 256)) pos).0,
  (partition-AreUpTo g ft (max 1 (ft / 64)) pos).0,
)

decodes_beside-AreWithin :
    (g : Generator) (ft b : ℕ) → AreWithin g.batch_max_tokens (decodes_beside g ft b)
unfolding decodes_beside sum
decodes_beside-AreWithin g ft b =
    let room = g.batch_max_tokens - ft in
    ground (
      arith,
      sum-replicate b (max 16 (room / b)),
      sum-replicate b (min g.max_req_len (max 16 (room / b))),
    )

AreWithin-append :
    (most : ℕ) (xs ys : List ProfileShape)
    → AreWithin most xs
    → AreWithin most ys
    → AreWithin most (xs ++ ys)
AreWithin-append most [] ys h h' = h'
AreWithin-append most (x ∷ xs) ys h h' = (h.0, AreWithin-append most xs ys h.1 h')

-- For a positive cap on a request, every batch of inference beside finetuning samples, and every
-- batch of decodes beside one, has at most as many tokens as a step may have.
pub shapes-AreWithin :
    (g : Generator) (ft : ℕ) (infs : List ℕ)
    → 0 < g.max_req_len
    → AreWithin g.batch_max_tokens (beside g ft infs ++ ft_on_decode_shapes g)
unfolding ft_on_decode_shapes
shapes-AreWithin g ft infs pos =
    let one = λ (b : ℕ). decodes_beside-AreWithin g (max 8 (min g.ft_cap 64)) b in
    AreWithin-append g.batch_max_tokens (beside g ft infs) _ (beside-AreWithin g ft infs pos) (
      ground (
        arith,
        AreWithin-append g.batch_max_tokens _ _ (one 1) (
            AreWithin-append g.batch_max_tokens _ _ (one 2)
              (AreWithin-append g.batch_max_tokens _ _ (one 4) (one 8))),
      ))

-- ===== src/Parallel/Bucket.antt =====
-- deltaserve/bwd_services/common/tp.py, FactorBucket: the flat buffer of the replicated factors'
-- gradients, laid out layer by layer in backward order, and the slices of it that are reduced
-- together. `numel` gives the element count of a layer's factor; the buffer's contents have no
-- model.
use delta_serve_v_llm.Common.Slices.{take, drop, length-drop}
use delta_serve_v_llm.Common.{
  ℕ, zero, suc, ◌+◌, ◌-◌, ◌*◌, ◌≤◌, ◌≡◌, refl, ap, ◌∙◌, sym, max, Bool, true, false, ◌&&◌, Option,
  none, some, List, [], ◌∷◌, ◌++◌, arith, ◌==◌, if◌then◌else◌, length, elem, elem-append,
  Bool-cases, inl, inr,
}
use mathlib.Core.Path.{subst}
use mathlib.Core.List.{append_assoc, append-nil}

-- `REPLICATED_FACTORS`
pub data Key : Type 0 where
  q_a k_a v_a o_b : Key

abbrev pub same_key : Key → Key → Bool
same_key q_a q_a = true
same_key k_a k_a = true
same_key v_a v_a = true
same_key o_b o_b = true
same_key _ _ = false

-- A shape's element count, `_numel`.
unfoldable pub numel_of : List ℕ → ℕ
numel_of [] = 1
numel_of (d ∷ ds) = d * numel_of ds

-- `[i for i in reversed(range(n_layers)) if i in lora]`
unfoldable pub order_of : (ℕ → Bool) → ℕ → List ℕ
order_of lora zero = []
order_of lora (suc n) = let rest = order_of lora n in if lora n then n ∷ rest else rest

module _ (numel : ℕ → Key → ℕ) where
  -- `offsets`: the slab of each layer's factor, its start and its element count.
  abbrev pub Slabs : Type 0
  Slabs = List ((ℕ × Key) × (ℕ × ℕ))

  unfoldable pub layer_size : ℕ → ℕ
  layer_size i = numel i q_a + numel i k_a + numel i v_a + numel i o_b

  unfoldable pub offsets : List ℕ → ℕ → Slabs
  unfolding layer_size
  offsets [] total = []
  offsets (i ∷ is) total =
      ((i, q_a), (total, numel i q_a))
      ∷ ((i, k_a), (total + numel i q_a, numel i k_a))
      ∷ ((i, v_a), (total + numel i q_a + numel i k_a, numel i v_a))
      ∷ ((i, o_b), (total + numel i q_a + numel i k_a + numel i v_a, numel i o_b))
      ∷ offsets is (total + layer_size i)

  unfoldable pub total_of : List ℕ → ℕ
  unfolding layer_size
  total_of [] = 0
  total_of (i ∷ is) = layer_size i + total_of is

-- `offsets[(i, key)]`; a key that is not there gives (0, 0).
unfoldable pub slab : List ((ℕ × Key) × (ℕ × ℕ)) → ℕ → Key → ℕ × ℕ
slab [] i key = (0, 0)
slab (((j, k), at) ∷ rest) i key =
    let more = slab rest i key in if j == i && same_key k key then at else more

-- `layers[-1]` of the nonempty list `i ∷ is`.
unfoldable pub last_of : ℕ → List ℕ → ℕ
last_of i [] = i
last_of i (j ∷ js) = last_of j js

-- The groups of `gl` layers: the last layer, and the start and the end of the slice. On fuel, one
-- round a group.
unfoldable pub groups_from : ℕ → ℕ → List ((ℕ × Key) × (ℕ × ℕ)) → List ℕ → List (ℕ × (ℕ × ℕ))
unfolding slab last_of take drop
groups_from zero gl table order = []
groups_from (suc fuel) gl table [] = []
groups_from (suc fuel) gl table (i ∷ is) =
    let last : ℕ = last_of i (take (gl - 1) is) in
    (last, ((slab table i q_a).0, (slab table last o_b).0 + (slab table last o_b).1))
    ∷ groups_from fuel gl table (drop (gl - 1) is)

unfoldable pub groups : (ℕ → Key → ℕ) → ℕ → List ℕ → List (ℕ × (ℕ × ℕ))
unfolding groups_from offsets
groups numel group_layers order =
    groups_from (length order) (max 1 group_layers) (offsets numel order 0) order

-- `group_done`: the slice that a layer closes.
unfoldable pub group_done : List (ℕ × (ℕ × ℕ)) → ℕ → Option (ℕ × ℕ)
group_done [] layer = none
group_done ((last, se) ∷ gs) layer =
    let rest = group_done gs layer in if last == layer then some se else rest

abbrev pub AreDistinct : List ℕ → Type 0
AreDistinct [] = Unit {0}
AreDistinct (i ∷ is) = (elem i is ≡ false) × AreDistinct is

-- The slices follow one another from `s` to `e`.
abbrev pub Tiles : ℕ → List (ℕ × (ℕ × ℕ)) → ℕ → Type 0
Tiles s [] e = s ≡ e
Tiles s ((last, (lo, hi)) ∷ gs) e = (lo ≡ s) × (lo ≤ hi) × Tiles hi gs e

module _ (numel : ℕ → Key → ℕ) where
  -- Where the slabs of a layer stand, after the layers `before`.
  slab-at :
      (before : List ℕ) (i : ℕ) (rest : List ℕ) (total : ℕ)
      → elem i before ≡ false
      → let table = offsets numel (before ++ (i ∷ rest)) total in
        ((slab table i q_a).0 ≡ total + total_of numel before)
        × ((slab table i o_b).0 + (slab table i o_b).1
            ≡ total + total_of numel before + layer_size numel i)
  unfolding slab offsets total_of layer_size elem
  slab-at [] i rest total h = ground arith
  slab-at (b ∷ bs) i rest total h =
      let ih = slab-at bs i rest (total + layer_size numel b) (ground arith) in
      let ne : (b == i) ≡ false = ground arith in rw ne (omega (arith, ih))

  total_of-append :
      (xs ys : List ℕ) → total_of numel (xs ++ ys) ≡ total_of numel xs + total_of numel ys
  unfolding total_of
  total_of-append [] ys = omega arith
  total_of-append (x ∷ xs) ys = omega (arith, total_of-append xs ys)

  total_of-single : (i : ℕ) → total_of numel (i ∷ []) ≡ layer_size numel i
  unfolding total_of
  total_of-single i = omega arith

total_of-nil : (numel : ℕ → Key → ℕ) → total_of numel [] ≡ 0
unfolding total_of
total_of-nil numel = refl

distinct-elem :
    (xs : List ℕ) (y : ℕ) (ys : List ℕ) → AreDistinct (xs ++ (y ∷ ys)) → elem y xs ≡ false
unfolding elem
distinct-elem [] y ys h = refl
distinct-elem (x ∷ xs) y ys h =
    ground (arith, distinct-elem xs y ys h.1, h.0, elem-append x xs (y ∷ ys))

split_last : (i : ℕ) (c : List ℕ) → (front : List ℕ) × (i ∷ c ≡ front ++ (last_of i c ∷ []))
unfolding last_of
split_last i [] = ([], refl)
split_last i (j ∷ js) = let q = split_last j js in (i ∷ q.0, ap (λ (t : List ℕ). i ∷ t) q.1)

take-append-drop : (n : ℕ) (xs : List ℕ) → take n xs ++ drop n xs ≡ xs
unfolding take drop
take-append-drop zero xs = refl
take-append-drop (suc n) [] = refl
take-append-drop (suc n) (x ∷ xs) = ap (λ (t : List ℕ). x ∷ t) (take-append-drop n xs)

module _ (numel : ℕ → Key → ℕ) where
  groups_from-Tiles :
      (fuel gl : ℕ) (before order : List ℕ)
      → AreDistinct (before ++ order)
      → length order ≤ fuel
      → Tiles
          (total_of numel before)
          (groups_from fuel gl (offsets numel (before ++ order) 0) order)
          (total_of numel (before ++ order))
  unfolding groups_from
  groups_from-Tiles zero gl before [] h f = ap (total_of numel) (sym (append-nil before))
  groups_from-Tiles (suc fuel) gl before [] h f = ap (total_of numel) (sym (append-nil before))
  groups_from-Tiles zero gl before (i ∷ is) h f = absurd (omega arith)
  groups_from-Tiles (suc fuel) gl before (i ∷ is) h f =
      let c = take (gl - 1) is in
      let d = drop (gl - 1) is in
      let last = last_of i c in
      let front = (split_last i c).0 in
      let whole = before ++ (i ∷ is) in
      let joins : (before ++ (i ∷ c)) ++ d ≡ whole =
        append_assoc before (i ∷ c) d
        ∙ ap (λ (t : List ℕ). before ++ (i ∷ t)) (take-append-drop (gl - 1) is) in
      let marked : whole ≡ (before ++ front) ++ (last ∷ d) =
        sym joins
        ∙ ap (λ (t : List ℕ). (before ++ t) ++ d) (split_last i c).1
        ∙ ap (λ (t : List ℕ). t ++ d) (sym (append_assoc before front (last ∷ [])))
        ∙ append_assoc (before ++ front) (last ∷ []) d in
      let first = slab-at numel before i is 0 (distinct-elem before i is h) in
      let closing =
        slab-at numel (before ++ front) last d 0
          (distinct-elem (before ++ front) last d (subst AreDistinct marked h)) in
      let ends : (slab (offsets numel whole 0) last o_b).0
            + (slab (offsets numel whole 0) last o_b).1
          ≡ total_of numel (before ++ (i ∷ c)) =
        ap
          (λ (t : List ℕ).
            (slab (offsets numel t 0) last o_b).0 + (slab (offsets numel t 0) last o_b).1)
          marked
        ∙ closing.1
        ∙ omega
            (arith, total_of-append numel (before ++ front) (last ∷ []), total_of-single numel last)
        ∙ ap (total_of numel) (append_assoc before front (last ∷ []))
        ∙ ap (λ (t : List ℕ). total_of numel (before ++ t)) (sym (split_last i c).1) in
      let ih =
        groups_from-Tiles fuel gl (before ++ (i ∷ c)) d (subst AreDistinct (sym joins) h)
          (omega (arith, length-drop (gl - 1) is)) in
      let rest : Tiles (total_of numel (before ++ (i ∷ c)))
          (groups_from fuel gl (offsets numel whole 0) d) (total_of numel whole) =
        subst
          (λ (t : List ℕ).
            Tiles (total_of numel (before ++ (i ∷ c))) (groups_from fuel gl (offsets numel t 0) d)
              (total_of numel t))
          joins ih in
      (
        omega (arith, first.0),
        omega (arith, first.0, ends, total_of-append numel before (i ∷ c)),
        subst
            (λ (t : ℕ).
              Tiles t (groups_from fuel gl (offsets numel whole 0) d) (total_of numel whole))
            (sym ends) rest,
      )

-- The groups' slices cut the whole buffer, each element into one: for a list of distinct layers and
-- any group size, the slices follow one another without a gap or an overlap from the buffer's start
-- to its end, so that every gradient is reduced exactly once.
pub groups-Tiles :
    (numel : ℕ → Key → ℕ) (group_layers : ℕ) (order : List ℕ)
    → AreDistinct order
    → Tiles 0 (groups numel group_layers order) (total_of numel order)
unfolding groups
groups-Tiles numel group_layers order h =
    subst (λ (t : ℕ). Tiles t (groups numel group_layers order) (total_of numel order))
      (total_of-nil numel)
      (groups_from-Tiles numel (length order) (max 1 group_layers) [] order h (omega arith))

order_of-below : (lora : ℕ → Bool) (n i : ℕ) → n ≤ i → elem i (order_of lora n) ≡ false
unfolding order_of elem
order_of-below lora zero i h = refl
order_of-below lora (suc n) i h = ground (arith, order_of-below lora n i (omega arith))

order_of-AreDistinct : (lora : ℕ → Bool) (n : ℕ) → AreDistinct (order_of lora n)
unfolding order_of
order_of-AreDistinct lora zero = omega arith
order_of-AreDistinct lora (suc n) = elim (Bool-cases (lora n)) [
  | inl e ↦ rw e (order_of-below lora n n (omega arith), order_of-AreDistinct lora n)
  | inr e ↦ rw e (order_of-AreDistinct lora n)
]

-- The bucket of a model: whichever of its layers have adapters, and for any group size, the groups'
-- slices follow one another without a gap or an overlap over all the elements of the layers'
-- replicated gradients, laid out from the last layer to the first.
pub bucket-Tiles :
    (numel : ℕ → Key → ℕ) (group_layers n_layers : ℕ) (lora : ℕ → Bool)
    → Tiles 0
        (groups numel group_layers (order_of lora n_layers))
        (total_of numel (order_of lora n_layers))
bucket-Tiles numel group_layers n_layers lora =
    groups-Tiles numel group_layers (order_of lora n_layers) (order_of-AreDistinct lora n_layers)

-- ===== src/Parallel/Shard.antt =====
-- deltaserve/bwd_services/common/tp.py, `lora_shard_slice`: the part of a LoRA factor that a rank
-- trains. A matrix is the list of its rows.
use delta_serve_v_llm.Common.Slices.{take, slice, take-append-take, take_all}
use delta_serve_v_llm.Common.{
  ℕ, zero, suc, ◌≤◌, ◌+◌, ◌-◌, ◌*◌, ◌≡◌, refl, ap, ◌∙◌, sym, Bool, true, false, List, [], ◌∷◌, ◌++◌,
  map, arith, ◌==◌, if◌then◌else◌, length,
}

pub data Proj : Type 0 where
  q k v o : Proj

pub data Factor : Type 0 where
  a b : Factor

module _ {X : Type 0} where
  -- The lists of the ranks below `n`, one after the other.
  abbrev pub joined : ℕ → (ℕ → List X) → List X
  joined zero f = []
  joined (suc n) f = joined n f ++ f n

  joined-slice :
      (n w : ℕ) (xs : List X) → joined n (λ r. slice xs (r * w) ((r + 1) * w)) ≡ take (n * w) xs
  unfolding slice take
  joined-slice zero w xs = let e : 0 ≡ 0 * w = omega arith in ap (λ (t : ℕ). take t xs) e
  joined-slice (suc n) w xs =
      let e : n * w + ((n + 1) * w - n * w) ≡ suc n * w = omega arith in
      ap (λ (t : List X). t ++ slice xs (n * w) ((n + 1) * w)) (joined-slice n w xs)
      ∙ take-append-take (n * w) ((n + 1) * w - n * w) xs
      ∙ ap (λ (t : ℕ). take t xs) e

  pub joined-slice_all :
      (n w : ℕ) (xs : List X)
      → length xs ≡ n * w
      → joined n (λ r. slice xs (r * w) ((r + 1) * w)) ≡ xs
  joined-slice_all n w xs e = joined-slice n w xs ∙ take_all (n * w) xs (sym e)

-- `proj in ("q", "k", "v")`
abbrev pub is_column : Proj → Bool
is_column q = true
is_column k = true
is_column v = true
is_column o = false

abbrev pub width : Proj → ℕ → ℕ → ℕ
width q local_q local_kv = local_q
width k local_q local_kv = local_kv
width v local_q local_kv = local_kv
width o local_q local_kv = local_kv

module _ {X : Type 0} where
  -- The branches for more than one rank: by the projection and the factor.
  unfoldable pub shard : Proj → Factor → List (List X) → ℕ → ℕ → ℕ → List (List X)
  unfolding slice
  shard q b t rank local_q local_kv = slice t (rank * local_q) ((rank + 1) * local_q)
  shard k b t rank local_q local_kv = slice t (rank * local_kv) ((rank + 1) * local_kv)
  shard v b t rank local_q local_kv = slice t (rank * local_kv) ((rank + 1) * local_kv)
  shard o b t rank local_q local_kv = t
  shard q a t rank local_q local_kv = t
  shard k a t rank local_q local_kv = t
  shard v a t rank local_q local_kv = t
  shard o a t rank local_q local_kv =
      map (λ (row : List X). slice row (rank * local_q) ((rank + 1) * local_q)) t

  unfoldable pub lora_shard_slice : Proj → Factor → List (List X) → ℕ → ℕ → ℕ → ℕ → List (List X)
  unfolding shard
  lora_shard_slice proj ab t tp_rank tp_size local_q local_kv =
      if tp_size == 1 then t else shard proj ab t tp_rank local_q local_kv

  -- Two matrices side by side.
  abbrev pub beside : List (List X) → List (List X) → List (List X)
  beside [] ys = []
  beside (x ∷ xs) [] = []
  beside (x ∷ xs) (y ∷ ys) = (x ++ y) ∷ beside xs ys

  -- The matrices of the ranks up to `n`, side by side.
  abbrev pub abreast : ℕ → (ℕ → List (List X)) → List (List X)
  abreast zero f = f 0
  abreast (suc n) f = beside (abreast n f) (f (suc n))

  -- The parts of the ranks up to `n` are those of a factor: put together along the rows or along
  -- the columns they make it up, or each of them is the factor.
  abbrev pub Gathered : Proj → Factor → ℕ → (ℕ → List (List X)) → List (List X) → Type 0
  Gathered q b n f t = joined (suc n) f ≡ t
  Gathered k b n f t = joined (suc n) f ≡ t
  Gathered v b n f t = joined (suc n) f ≡ t
  Gathered o b n f t = (r : ℕ) → r ≤ n → f r ≡ t
  Gathered q a n f t = (r : ℕ) → r ≤ n → f r ≡ t
  Gathered k a n f t = (r : ℕ) → r ≤ n → f r ≡ t
  Gathered v a n f t = (r : ℕ) → r ≤ n → f r ≡ t
  Gathered o a n f t = abreast n f ≡ t

  abbrev pub AllWide : ℕ → List (List X) → Type 0
  AllWide w [] = Unit {0}
  AllWide w (row ∷ rows) = (length row ≡ w) × AllWide w rows

  -- The sharded dimension is the ranks' local widths together; the others may be anything.
  abbrev pub Divides : Proj → Factor → ℕ → ℕ → ℕ → List (List X) → Type 0
  Divides q b n local_q local_kv t = length t ≡ n * local_q
  Divides k b n local_q local_kv t = length t ≡ n * local_kv
  Divides v b n local_q local_kv t = length t ≡ n * local_kv
  Divides o b n local_q local_kv t = Unit {0}
  Divides q a n local_q local_kv t = Unit {0}
  Divides k a n local_q local_kv t = Unit {0}
  Divides v a n local_q local_kv t = Unit {0}
  Divides o a n local_q local_kv t = AllWide (n * local_q) t

  abreast-slice :
      (n w : ℕ) (t : List (List X))
      → abreast n (λ r. map (λ (row : List X). slice row (r * w) ((r + 1) * w)) t)
        ≡ map (λ (row : List X). joined (suc n) (λ r. slice row (r * w) ((r + 1) * w))) t
  abreast-slice zero w t = refl
  abreast-slice (suc n) w t =
      ap
        (λ (m : List (List X)).
          beside m (map (λ (row : List X). slice row (suc n * w) ((suc n + 1) * w)) t))
        (abreast-slice n w t)
      ∙ beside-map t
    where
      beside-map :
          (t : List (List X))
          → beside
              (map (λ (row : List X). joined (suc n) (λ r. slice row (r * w) ((r + 1) * w))) t)
              (map (λ (row : List X). slice row (suc n * w) ((suc n + 1) * w)) t)
            ≡ map (λ (row : List X). joined (suc (suc n)) (λ r. slice row (r * w) ((r + 1) * w))) t
      beside-map [] = refl
      beside-map (row ∷ rows) =
          ap
            (λ (m : List (List X)). joined (suc (suc n)) (λ r. slice row (r * w) ((r + 1) * w)) ∷ m)
            (beside-map rows)

  map-joined :
      (n w : ℕ) (t : List (List X))
      → AllWide (suc n * w) t
      → map (λ (row : List X). joined (suc n) (λ r. slice row (r * w) ((r + 1) * w))) t ≡ t
  map-joined n w [] h = refl
  map-joined n w (row ∷ rows) h =
      λ i. joined-slice_all (suc n) w row h.0 i ∷ map-joined n w rows h.1 i

  shard-Gathered :
      (proj : Proj) (ab : Factor) (t : List (List X)) (n local_q local_kv : ℕ)
      → Divides proj ab (suc n) local_q local_kv t
      → Gathered proj ab n (λ r. shard proj ab t r local_q local_kv) t
  unfolding shard
  shard-Gathered q b t n local_q local_kv h = joined-slice_all (suc n) local_q t h
  shard-Gathered k b t n local_q local_kv h = joined-slice_all (suc n) local_kv t h
  shard-Gathered v b t n local_q local_kv h = joined-slice_all (suc n) local_kv t h
  shard-Gathered o b t n local_q local_kv h = λ r p. refl
  shard-Gathered q a t n local_q local_kv h = λ r p. refl
  shard-Gathered k a t n local_q local_kv h = λ r p. refl
  shard-Gathered v a t n local_q local_kv h = λ r p. refl
  shard-Gathered o a t n local_q local_kv h = abreast-slice n local_q t ∙ map-joined n local_q t h

  Gathered-one : (proj : Proj) (ab : Factor) (t : List (List X)) → Gathered proj ab 0 (λ r. t) t
  Gathered-one q b t = refl
  Gathered-one k b t = refl
  Gathered-one v b t = refl
  Gathered-one o b t = λ r h. refl
  Gathered-one q a t = λ r h. refl
  Gathered-one k a t = λ r h. refl
  Gathered-one v a t = λ r h. refl
  Gathered-one o a t = refl

  -- The ranks' parts of a factor make up the whole factor, without a gap or an overlap: for a group
  -- of `n + 1` ranks whose local widths divide the sharded dimension, the parts put one below the
  -- other (the B factors of q, k and v) or side by side (the A factor of o), and every rank's part
  -- of the other factors, are the factor.
  pub lora_shard_slice-Gathered :
      (proj : Proj) (ab : Factor) (t : List (List X)) (n local_q local_kv : ℕ)
      → Divides proj ab (suc n) local_q local_kv t
      → Gathered proj ab n (λ r. lora_shard_slice proj ab t r (suc n) local_q local_kv) t
  unfolding lora_shard_slice
  lora_shard_slice-Gathered proj ab t zero local_q local_kv h = Gathered-one proj ab t
  lora_shard_slice-Gathered proj ab t (suc n) local_q local_kv h =
      let e : (suc (suc n) == 1) ≡ false = ground arith in
      rw e (shard-Gathered proj ab t (suc n) local_q local_kv h)

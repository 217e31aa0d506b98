-- ===== src/Capture/Span.antt =====
-- The finetuning rows of a batch, as deltaserve/model_runner.py's `_build_finetune_mask` describes
-- them to the hooks of deltaserve/accumulate.py.
use delta_serve_v_llm.Common.Slices.{take, drop, slice, take-append-take, drop-drop, length-drop}
use delta_serve_v_llm.Common.{
  ℕ, zero, suc, ◌+◌, ◌-◌, ◌<◌, ◌≤◌, ◌≡◌, refl, ap, ◌∙◌, sym, Bool, true, false, Option, none, some,
  List, [], ◌∷◌, ◌++◌, arith, ◌==◌, ◌⊎◌, if◌then◌else◌, length, sum, sum-append, Bool-cases, inl,
  inr,
}
use delta_serve_v_llm.Capture.{
  Batch, total_tokens, mask_of, count_true, Scan, scan, note_request, span_of, GraphConfig,
  build_finetune_mask, masked, hook_rows,
}

-- `ft_last` after the loop, from the one so far.
last_from : ℕ → ℕ → Batch → ℕ
last_from l cu [] = l
last_from l cu ((false, len) ∷ rest) = last_from l (cu + len) rest
last_from l cu ((true, len) ∷ rest) = last_from (cu + len) (cu + len) rest

first_from : ℕ → Batch → Option ℕ
first_from cu [] = none
first_from cu ((false, len) ∷ rest) = first_from (cu + len) rest
first_from cu ((true, len) ∷ rest) = some cu

count : Batch → ℕ
unfolding count_true mask_of
count b = count_true (mask_of b)

count-nil : count [] ≡ 0
unfolding count count_true mask_of
count-nil = refl

count-cons :
    (ft : Bool) (len : ℕ) (rest : Batch)
    → count ((ft, len) ∷ rest) ≡ (if ft then len else 0) + count rest
unfolding count count_true mask_of
count-cons ft zero rest = ground arith
count-cons true (suc len) rest = ground (arith, count-cons true len rest)
count-cons false (suc len) rest = ground (arith, count-cons false len rest)

-- The last request ends at least as many tokens after `l` as there are tokens of requests to come,
-- and more where a gap lies between.
last_from-le :
    (rest : Batch) (l cu : ℕ)
    → l ≤ cu
    → (l + count rest ≤ last_from l cu rest)
      × (l < cu → 0 < count rest → l + count rest < last_from l cu rest)
unfolding last_from
last_from-le [] l cu h = ground (arith, count-nil)
last_from-le ((false, len) ∷ rest) l cu h =
    ground (arith, last_from-le rest l (cu + len) (omega arith), count-cons false len rest)
last_from-le ((true, len) ∷ rest) l cu h =
    ground (arith, last_from-le rest (cu + len) (cu + len) (omega arith), count-cons true len rest)

module _ {X : Type 0} where
  masked-mask_of :
      (ft : Bool) (len : ℕ) (rest : Batch) (val : List X)
      → len ≤ length val
      → masked (mask_of ((ft, len) ∷ rest)) val
        ≡ (if ft then take len val else []) ++ masked (mask_of rest) (drop len val)
  unfolding masked mask_of take drop
  masked-mask_of true zero rest val h = refl
  masked-mask_of false zero rest val h = refl
  masked-mask_of ft (suc len) rest [] h = absurd (omega arith)
  masked-mask_of true (suc len) rest (x ∷ val) h =
      ap (λ (t : List X). x ∷ t) (masked-mask_of true len rest val (omega arith))
  masked-mask_of false (suc len) rest (x ∷ val) h = masked-mask_of false len rest val (omega arith)

  take-drop-skip :
      (len n m : ℕ) (val : List X)
      → n ≡ m
      → (len ≡ 0) ⊎ (n ≡ 0)
      → take n (drop len val) ≡ take m val
  unfolding take drop
  take-drop-skip len n m val e (inl z) = λ i. take (e i) (drop (z i) val)
  take-drop-skip len n m val e (inr z) =
      (λ i. take (z i) (drop len val)) ∙ (λ i. take ((sym z ∙ e) i) val)

  masked-nil : (val : List X) → masked (mask_of []) val ≡ take (count []) val
  unfolding masked mask_of take count count_true
  masked-nil val = refl

  -- Where no inference token lies between, the rows of the mask are the next ones.
  masked-after :
      (rest : Batch) (l cu : ℕ) (val : List X)
      → l ≤ cu
      → length val ≡ total_tokens rest
      → last_from l cu rest ≡ l + count rest
      → masked (mask_of rest) val ≡ take (count rest) val
  unfolding total_tokens last_from
  masked-after [] l cu val h len_eq e = masked-nil val
  masked-after ((false, len) ∷ rest) l cu val h len_eq e =
      let g : last_from l (cu + len) rest ≡ l + count rest =
        ground (arith, count-cons false len rest) in
      masked-mask_of false len rest val (omega arith)
      ∙ masked-after rest l (cu + len) (drop len val) (omega arith)
          (ground (arith, length-drop len val)) g
      ∙ take-drop-skip len (count rest) (count ((false, len) ∷ rest)) val
          (ground (arith, count-cons false len rest))
          (elim (Bool-cases (len == 0)) [
            | inl z ↦ inl (ground arith)
            | inr z ↦ inr (ground (arith, last_from-le rest l (cu + len)))
          ])
  masked-after ((true, len) ∷ rest) l cu val h len_eq e =
      let c : count ((true, len) ∷ rest) ≡ len + count rest =
        ground (arith, count-cons true len rest) in
      let b = last_from-le rest (cu + len) (cu + len) (omega arith) in
      masked-mask_of true len rest val (omega arith)
      ∙ ap (λ (t : List X). take len val ++ t)
          (masked-after rest (cu + len) (cu + len) (drop len val) (omega arith)
            (ground (arith, length-drop len val)) (omega (arith, c, b, e, h)))
      ∙ take-append-take len (count rest) val
      ∙ ap (λ (t : ℕ). take t val) (sym c)

  masked-first :
      (batch : Batch) (cu f : ℕ) (val : List X)
      → length val ≡ total_tokens batch
      → first_from cu batch ≡ some f
      → last_from 0 cu batch ≡ f + count batch
      → (cu ≤ f) × (masked (mask_of batch) val ≡ take (count batch) (drop (f - cu) val))
  unfolding total_tokens last_from first_from drop
  masked-first [] cu f val len_eq e g = absurd (ground arith)
  masked-first ((false, len) ∷ rest) cu f val len_eq e g =
      let ih =
        masked-first rest (cu + len) f (drop len val) (ground (arith, length-drop len val)) e
          (ground (arith, count-cons false len rest)) in
      let c : count rest ≡ count ((false, len) ∷ rest) = omega (arith, count-cons false len rest) in
      let at : len + (f - (cu + len)) ≡ f - cu = omega (arith, ih.0) in
      (
        omega (arith, ih.0),
        masked-mask_of false len rest val (omega arith)
            ∙ ih.1
            ∙ ap (take (count rest)) (drop-drop len (f - (cu + len)) val)
            ∙ (λ i. take (c i) (drop (at i) val)),
      )
  masked-first ((true, len) ∷ rest) cu f val len_eq e g =
      let c : f ≡ cu = ground arith in
      let z : 0 ≡ f - cu = omega arith in
      (
        omega arith,
        masked-after ((true, len) ∷ rest) cu cu val (omega arith) len_eq (omega (arith, c, g))
            ∙ (λ i. take (count ((true, len) ∷ rest)) (drop (z i) val)),
      )

  masked_none : (mask : List Bool) (val : List X) → count_true mask ≡ 0 → masked mask val ≡ []
  unfolding masked count_true
  masked_none [] val e = refl
  masked_none (true ∷ bs) val e = absurd (omega arith)
  masked_none (false ∷ bs) [] e = refl
  masked_none (false ∷ bs) (x ∷ val) e = masked_none bs val e

  pub length-masked :
      (mask : List Bool) (val : List X)
      → length mask ≡ length val
      → length (masked mask val) ≡ count_true mask
  unfolding masked count_true
  length-masked [] val e = refl
  length-masked (b ∷ bs) [] e = absurd (omega arith)
  length-masked (true ∷ bs) (x ∷ val) e = ap suc (length-masked bs val (omega arith))
  length-masked (false ∷ bs) (x ∷ val) e = length-masked bs val (omega arith)

length-mask_of : (batch : Batch) → length (mask_of batch) ≡ total_tokens batch
unfolding mask_of total_tokens
length-mask_of [] = refl
length-mask_of ((ft, zero) ∷ rest) = omega (arith, length-mask_of rest)
length-mask_of ((ft, suc len) ∷ rest) = omega (arith, length-mask_of ((ft, len) ∷ rest))

sum_one : (n : ℕ) → sum (n ∷ []) ≡ n
unfolding sum
sum_one n = omega arith

scan-sum :
    (batch : Batch) (s : Scan) (cu : ℕ)
    → sum (scan s cu batch).sample_lens ≡ sum s.sample_lens + count batch
unfolding scan
scan-sum [] s cu = omega (arith, count-nil)
scan-sum ((false, len) ∷ rest) s cu =
    ground (arith, scan-sum rest s (cu + len), count-cons false len rest)
scan-sum ((true, len) ∷ rest) s cu = ground (
  arith,
  scan-sum rest (note_request s cu len) (cu + len),
  count-cons true len rest,
  sum-append s.sample_lens (len ∷ []),
  sum_one len,
)

scan-later :
    (batch : Batch) (s : Scan) (cu : ℕ) {f l : ℕ}
    → s.ft_first ≡ some f
    → s.ft_last ≡ some l
    → ((scan s cu batch).ft_first ≡ some f)
      × ((scan s cu batch).ft_last ≡ some (last_from l cu batch))
unfolding scan last_from
scan-later [] s cu e g = (e, g)
scan-later ((false, len) ∷ rest) s cu e g = scan-later rest s (cu + len) e g
scan-later ((true, len) ∷ rest) s cu e g =
    scan-later rest (note_request s cu len) (cu + len) (rw e refl) refl

-- What the loop leaves in `ft_first` and `ft_last`.
scan-first :
    (batch : Batch) (s : Scan) (cu : ℕ)
    → s.ft_first ≡ none
    → ((scan s cu batch).ft_first ≡ none)
      ⊎ ((f : ℕ) × ((scan s cu batch).ft_first ≡ some f)
          × ((scan s cu batch).ft_last ≡ some (last_from 0 cu batch))
          × (first_from cu batch ≡ some f))
unfolding scan first_from last_from
scan-first [] s cu e = inl e
scan-first ((false, len) ∷ rest) s cu e = scan-first rest s (cu + len) e
scan-first ((true, len) ∷ rest) s cu e =
    let q = scan-later rest (note_request s cu len) (cu + len) (rw e refl) refl in
    inr (cu, q.0, q.1, refl)

abbrev start_scan : Scan
start_scan = record { ft_first = none; ft_last = none; sample_lens = [] }

module _ {X : Type 0} (batch : Batch) (val : List X) (fits : length val ≡ total_tokens batch) where
  span-rows :
      (f l : ℕ)
      → last_from 0 0 batch ≡ l
      → first_from 0 batch ≡ some f
      → (l - f == count batch) ≡ true
      → 0 < count batch
      → slice val f (f + count batch) ≡ masked (mask_of batch) val
  unfolding slice
  span-rows f l e g c pos =
      let q = masked-first batch 0 f val fits g (ground arith) in
      let z : f + count batch - f ≡ count batch = omega arith in
      let y : f ≡ f - 0 = omega arith in (λ i. take (z i) (drop (y i) val)) ∙ sym q.1

  hook_rows-span :
      let s = scan start_scan 0 batch in
      0 < count batch
      → hook_rows
          (span_of s.ft_first s.ft_last (count batch)).1
          (span_of s.ft_first s.ft_last (count batch)).0
          (count batch)
          (mask_of batch)
          val
        ≡ masked (mask_of batch) val
  unfolding hook_rows span_of
  hook_rows-span pos = elim (scan-first batch start_scan 0 refl) [
    | inl e ↦ rw e refl
    | inr (f, e, l, g) ↦
        rw (e, l)
          (elim (Bool-cases (last_from 0 0 batch - f == count batch)) [
            | inl c ↦ rw c (span-rows f (last_from 0 0 batch) refl g c pos)
            | inr c ↦ rw c refl
          ])
  ]

sum_nil : sum [] ≡ 0
unfolding sum
sum_nil = refl

scan-lens : (batch : Batch) → sum (scan start_scan 0 batch).sample_lens ≡ count batch
scan-lens batch = omega (arith, scan-sum batch start_scan 0, sum_nil)

hook_rows_none : {X : Type 0} (val : List X) → hook_rows false 0 0 [] val ≡ []
unfolding hook_rows masked
hook_rows_none val = refl

-- What a hook saves of a batch is what the mask selects: with as many rows as the batch has tokens,
-- the rows that a hook takes, by the span's slice where the mask calls it contiguous and by the
-- mask elsewhere, are the rows of the finetuning requests in batch order; their number is the
-- step's count of finetuning tokens, and the sample lengths add up to it.
pub build_finetune_mask-rows :
    {X : Type 0} (g : GraphConfig) (batch : Batch) (val : List X)
    → length val ≡ total_tokens batch
    → let m = build_finetune_mask g batch in
      (hook_rows m.ft_contiguous m.ft_start m.ft_num m.ft_mask val ≡ masked (mask_of batch) val)
      × (length (masked (mask_of batch) val) ≡ m.ft_num)
      × (sum m.ft_sample_lens ≡ m.ft_num)
unfolding build_finetune_mask count
build_finetune_mask-rows g batch val fits =
    let n = length-masked (mask_of batch) val (length-mask_of batch ∙ sym fits) in
    elim (Bool-cases (count_true (mask_of batch) == 0)) [
      | inl e ↦ rw e (
        sym (masked_none (mask_of batch) val (ground arith) ∙ sym (hook_rows_none val)),
        ground (arith, n),
        sum_nil,
      )
      | inr e ↦ rw e (hook_rows-span batch val fits (ground arith), n, scan-lens batch)
    ]

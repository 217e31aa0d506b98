-- ===== src/Store/Select.antt =====
-- `pop_next` and `pop_best_under` of deltaserve/finetuning_store.py.
use delta_serve_v_llm.Common.{
  ℕ, zero, suc, ◌<◌, ◌≤◌, ◌≡◌, sym, ap, ◌∙◌, true, false, ◌||◌, Option, none, some, List, [], ◌∷◌,
  arith, leb, ◌==◌, ==_iff, length, get_elem?, get_or, get_or_at, elem, inl, inr, Option-cases,
  Bool-cases,
}
use delta_serve_v_llm.Common.Dict.{has}
use delta_serve_v_llm.Common.Sorted.{
  Above, bisect_right, bisect_right-le, bisect_right_iff, place_of, Above-mono_get, elem-below,
}
use delta_serve_v_llm.Store.{
  FinetuningSample, FinetuningStore, input_len, len_at, is_trained, request_ids, first_in, bucket,
  best_below, pop_best_under, next_among, pop_next,
}
use delta_serve_v_llm.Store.Valid.{IsValid, is_free}

-- The sample at the index may be selected: it is free and not excluded.
pub record IsCandidate (st : FinetuningStore) (exclude : List FinetuningSample) (i : ℕ)
    (s : FinetuningSample) : Type 0 where
  pub stored : get_elem? st.samples i ≡ some s
  pub free : is_free st i ≡ true
  pub allowed : elem s.request_id (request_ids exclude) ≡ false

-- A shortest sample that may be selected; nothing only if no sample may be.
abbrev pub IsSmallest : FinetuningStore → List FinetuningSample → Option FinetuningSample → Type 0
IsSmallest st exclude (some s) =
    ((i : ℕ) × IsCandidate st exclude i s)
    × ((j : ℕ) (s' : FinetuningSample) → IsCandidate st exclude j s' → input_len s ≤ input_len s')
IsSmallest st exclude none = (j : ℕ) (s' : FinetuningSample) → IsCandidate st exclude j s' → ⊥

-- A longest sample of at most `max_tokens` that may be selected; nothing only if no sample may be.
abbrev pub IsBest : FinetuningStore → List FinetuningSample → ℕ → Option FinetuningSample → Type 0
IsBest st exclude max_tokens (some s) =
    ((i : ℕ) × IsCandidate st exclude i s)
    × (input_len s ≤ max_tokens)
    × ((j : ℕ) (s' : FinetuningSample)
        → IsCandidate st exclude j s'
        → input_len s' ≤ max_tokens
        → input_len s' ≤ input_len s)
IsBest st exclude max_tokens none =
    (j : ℕ) (s' : FinetuningSample) → IsCandidate st exclude j s' → input_len s' ≤ max_tokens → ⊥

-- What a search of one bucket finds.
abbrev Finds : FinetuningStore → List ℕ → List ℕ → Option FinetuningSample → Type 0
Finds st ids idxs (some s) =
    (i : ℕ) × (elem i idxs ≡ true)
    × (get_elem? st.samples i ≡ some s)
    × (is_trained st i ≡ false)
    × (elem s.request_id ids ≡ false)
Finds st ids idxs none =
    (i : ℕ) (s : FinetuningSample)
    → elem i idxs ≡ true
    → get_elem? st.samples i ≡ some s
    → is_trained st i ≡ false
    → elem s.request_id ids ≡ false
    → ⊥

Finds-cons :
    (st : FinetuningStore) (ids : List ℕ) (i : ℕ) (idxs : List ℕ) (o : Option FinetuningSample)
    → ((s : FinetuningSample)
        → get_elem? st.samples i ≡ some s
        → is_trained st i ≡ false
        → elem s.request_id ids ≡ false
        → ⊥)
    → Finds st ids idxs o
    → Finds st ids (i ∷ idxs) o
unfolding elem
Finds-cons st ids i idxs (some s) skip (j, h, at, new, ok) = (j, ground arith, at, new, ok)
Finds-cons st ids i idxs none skip h = λ j s m at new ok. elim (Bool-cases (i == j)) [
  | inl e ↦ let e' = (==_iff i j).0 e in skip s (ground arith) (ground arith) ok
  | inr e ↦ h j s (ground arith) at new ok
]

first_in-Finds :
    (st : FinetuningStore) (ids idxs : List ℕ) → Finds st ids idxs (first_in st ids idxs)
unfolding first_in elem
first_in-Finds st ids [] = λ i s h. cc
first_in-Finds st ids (i ∷ idxs) = elim (Option-cases (get_elem? st.samples i)) [
  | inl e ↦ rw (e, first_in) (Finds-cons st ids i idxs _ (λ s at. cc) (first_in-Finds st ids idxs))
  | inr (s, e) ↦ elim (Bool-cases (is_trained st i || elem s.request_id ids)) [
    | inl skip ↦
        rw (e, skip, first_in)
          (Finds-cons st ids i idxs _ (λ s' at new ok. ground arith) (first_in-Finds st ids idxs))
    | inr take ↦ rw (e, take, first_in) (i, ground arith, e, ground arith, ground arith)
  ]
]

bucket-has : (st : FinetuningStore) (n i : ℕ) → elem i (bucket st n) ≡ has st.len_buckets n i
unfolding has elem
bucket-has st n i = ground arith

module _ (st : FinetuningStore) (exclude : List FinetuningSample) (v : IsValid st) where
  free_at :
      (i : ℕ) (s : FinetuningSample)
      → IsCandidate st exclude i s
      → (elem i (bucket st (input_len s)) ≡ true) × (is_trained st i ≡ false)
  unfolding len_at
  free_at i s c =
      ground (arith, c.stored, c.free, v.pool (input_len s) i, bucket-has st (input_len s) i)

  listed_at :
      (i : ℕ) (s : FinetuningSample)
      → IsCandidate st exclude i s
      → elem (input_len s) st.sorted_lengths ≡ true
  unfolding has
  listed_at i s c =
      ground (arith, (free_at i s c).0, bucket-has st (input_len s) i, v.index.listed (input_len s))

  -- What is found in the bucket of a length is a candidate of that length.
  found :
      (n i : ℕ) (s : FinetuningSample)
      → elem i (bucket st n) ≡ true
      → get_elem? st.samples i ≡ some s
      → elem s.request_id (request_ids exclude) ≡ false
      → IsCandidate st exclude i s × (input_len s ≡ n)
  unfolding len_at
  found n i s h at ok = (
    record { stored = at; free = ground (arith, v.pool n i, bucket-has st n i); allowed = ok },
    ground (arith, v.pool n i, bucket-has st n i),
  )

  abbrev Least : List ℕ → Option FinetuningSample → Type 0
  Least xs (some s) =
      ((i : ℕ) × IsCandidate st exclude i s)
      × ((j : ℕ) (s' : FinetuningSample)
          → IsCandidate st exclude j s'
          → elem (input_len s') xs ≡ true
          → input_len s ≤ input_len s')
  Least xs none =
      (j : ℕ) (s' : FinetuningSample)
      → IsCandidate st exclude j s'
      → elem (input_len s') xs ≡ true
      → ⊥

  next_step :
      (n m : ℕ) (xs : List ℕ) (o r : Option FinetuningSample)
      → Above n (m ∷ xs)
      → Finds st (request_ids exclude) (bucket st m) o
      → Least xs r
      → Least (m ∷ xs) (elim o [ some s ↦ some s | none ↦ r ])
  unfolding elem
  next_step n m xs (some s) r a (i, h, at, new, ok) l =
      let (c, e) = found m i s h at ok in
      (
        (i, c),
        λ j s' c' listed. elim (Bool-cases (leb m (input_len s'))) [
          | inl le ↦ ground arith
          | inr gt ↦ absurd (ground (arith, elem-below (input_len s') (suc m) xs a.1))
        ],
      )
  next_step n m xs none none a none_here l = λ j s' c listed.
      elim (Bool-cases (m == input_len s')) [
        | inl e ↦
            none_here j s' (ground (arith, free_at j s' c)) c.stored (free_at j s' c).1 c.allowed
        | inr e ↦ l j s' c (ground arith)
      ]
  next_step n m xs none (some s) a none_here (c, l) = (
    c,
    λ j s' c' listed. elim (Bool-cases (m == input_len s')) [
      | inl e ↦ absurd (
          none_here j s' (ground (arith, free_at j s' c')) c'.stored (free_at j s' c').1 c'.allowed)
      | inr e ↦ l j s' c' (ground arith)
    ],
  )

  next_among-Least :
      (xs : List ℕ) (n : ℕ) → Above n xs → Least xs (next_among st (request_ids exclude) xs)
  unfolding next_among elem
  next_among-Least [] n a = λ j s c h. cc
  next_among-Least (m ∷ xs) n a =
      next_step n m xs (first_in st (request_ids exclude) (bucket st m)) _ a
        (first_in-Finds st (request_ids exclude) (bucket st m)) (next_among-Least xs (suc m) a.1)

  Least-IsSmallest :
      (o : Option FinetuningSample) → Least st.sorted_lengths o → IsSmallest st exclude o
  Least-IsSmallest (some s) (c, l) = (c, λ j s' c'. l j s' c' (listed_at j s' c'))
  Least-IsSmallest none l = λ j s' c'. l j s' c' (listed_at j s' c')

  -- On a valid store `pop_next` returns a shortest sample among those that may be selected, and
  -- nothing only if no sample may be.
  pub pop_next-IsSmallest : IsSmallest st exclude (pop_next st exclude)
  unfolding pop_next
  pop_next-IsSmallest = Least-IsSmallest _ (next_among-Least st.sorted_lengths 0 v.index.ascending)

  -- A longest sample among those whose length stands at one of the first `p` places.
  abbrev Greatest : ℕ → Option FinetuningSample → Type 0
  Greatest p (some s) =
      ((i : ℕ) × IsCandidate st exclude i s)
      × ((q : ℕ) × (q < p) × (get_elem? st.sorted_lengths q ≡ some (input_len s)))
      × ((j : ℕ) (s' : FinetuningSample) (q : ℕ)
          → IsCandidate st exclude j s'
          → q < p
          → get_elem? st.sorted_lengths q ≡ some (input_len s')
          → input_len s' ≤ input_len s)
  Greatest p none =
      (j : ℕ) (s' : FinetuningSample) (q : ℕ)
      → IsCandidate st exclude j s'
      → q < p
      → get_elem? st.sorted_lengths q ≡ some (input_len s')
      → ⊥

  best_step :
      (p n : ℕ) (o r : Option FinetuningSample)
      → get_elem? st.sorted_lengths p ≡ some n
      → Finds st (request_ids exclude) (bucket st n) o
      → Greatest p r
      → Greatest (suc p) (elim o [ some s ↦ some s | none ↦ r ])
  best_step p n (some s) r here (i, h, at, new, ok) g =
      let (c, e) = found n i s h at ok in
      (
        (i, c),
        (p, omega arith, here ∙ ap some (sym e)),
        λ j s' q c' lt listed.
            omega
              (arith, Above-mono_get 0 st.sorted_lengths q p _ _ v.index.ascending listed here, e),
      )
  best_step p n none none here none_here g = λ j s' q c lt listed. elim (Bool-cases (q == p)) [
    | inl e ↦ none_here j s' (ground (arith, free_at j s' c)) c.stored (free_at j s' c).1 c.allowed
    | inr e ↦ g j s' q c (ground arith) listed
  ]
  best_step p n none (some s) here none_here (c, (q', lt', at'), g) = (
    c,
    (q', omega arith, at'),
    λ j s' q c' lt listed. elim (Bool-cases (q == p)) [
      | inl e ↦ absurd (
          none_here j s' (ground (arith, free_at j s' c')) c'.stored (free_at j s' c').1 c'.allowed)
      | inr e ↦ g j s' q c' (ground arith) listed
    ],
  )

  best_below-Greatest :
      (p : ℕ) → p ≤ length st.sorted_lengths → Greatest p (best_below st (request_ids exclude) p)
  unfolding best_below
  best_below-Greatest zero h = λ j s q c lt. absurd (omega arith)
  best_below-Greatest (suc p) h =
      best_step p (get_or st.sorted_lengths p 0)
        (first_in st (request_ids exclude) (bucket st (get_or st.sorted_lengths p 0))) _
        (get_or_at st.sorted_lengths p 0 h)
        (first_in-Finds st (request_ids exclude) (bucket st (get_or st.sorted_lengths p 0)))
        (best_below-Greatest p (omega arith))

  Greatest-IsBest :
      (max_tokens : ℕ) (o : Option FinetuningSample)
      → Greatest (bisect_right st.sorted_lengths max_tokens) o
      → IsBest st exclude max_tokens o
  Greatest-IsBest k (some s) (c, (q, lt, at), g) = (
    c,
    (bisect_right_iff 0 st.sorted_lengths k q (input_len s) v.index.ascending at).0 lt,
    λ j s' c' le.
        let (q', at') = place_of st.sorted_lengths (input_len s') (listed_at j s' c') in
        g j s' q' c'
          ((bisect_right_iff 0 st.sorted_lengths k q' (input_len s') v.index.ascending at').1 le)
          at',
  )
  Greatest-IsBest k none g = λ j s' c' le.
      let (q', at') = place_of st.sorted_lengths (input_len s') (listed_at j s' c') in
      g j s' q' c'
        ((bisect_right_iff 0 st.sorted_lengths k q' (input_len s') v.index.ascending at').1 le) at'

  -- On a valid store `pop_best_under` returns a longest sample that fits among those that may be
  -- selected, and nothing only if no sample that fits may be.
  pub pop_best_under-IsBest :
      (max_tokens : ℕ) → IsBest st exclude max_tokens (pop_best_under st max_tokens exclude)
  unfolding pop_best_under
  pop_best_under-IsBest max_tokens = Greatest-IsBest max_tokens _ (
      best_below-Greatest (bisect_right st.sorted_lengths max_tokens)
        (bisect_right-le st.sorted_lengths max_tokens))

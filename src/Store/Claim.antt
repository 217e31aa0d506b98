-- ===== src/Store/Claim.antt =====
-- `claim` of deltaserve/finetuning_store.py.
use delta_serve_v_llm.Common.{
  ℕ, ◌<◌, ◌≡◌, refl, true, not, ◌&&◌, ◌||◌, List, [], ◌∷◌, arith, ◌==◌, length, ==_iff,
  get_elem?-lt, elem, inl, inr, Option-cases, Bool-cases,
}
use delta_serve_v_llm.Common.Dict.{Dict, add, has, holds, holds-add}
use delta_serve_v_llm.Store.{
  FinetuningSample, FinetuningStore, index_of, len_at, is_trained, mark_claimed, claim,
}
use delta_serve_v_llm.Store.Index.{drop_from_buckets-Dropped}
use delta_serve_v_llm.Store.Valid.{IsValid, is_free, named}

-- The first loop claims the untrained samples that are named, and files the new ones by length.
record Marked (st : FinetuningStore) (claimed : List ℕ) (by_len : Dict) (ss : List FinetuningSample)
    (r : List ℕ × Dict) : Type 0 where
  taken : (i : ℕ) → elem i r.0 ≡ (elem i claimed || (not (is_trained st i) && named st.id2idx ss i))
  filed :
      (n i : ℕ)
      → holds r.1 n i
        ≡ (holds by_len n i || (elem i r.0 && not (elem i claimed) && (len_at st.samples i == n)))

mark_claimed-Marked :
    (st : FinetuningStore) (ss : List FinetuningSample) (claimed : List ℕ) (by_len : Dict)
    → Marked st claimed by_len ss (mark_claimed st claimed by_len ss)
unfolding mark_claimed named elem
mark_claimed-Marked st [] claimed by_len = record {
  taken = λ i. ground arith;
  filed = λ n i. ground arith;
}
mark_claimed-Marked st (s ∷ ss) claimed by_len =
    elim (Option-cases (index_of st.id2idx s.request_id)) [
      | inl e ↦
          let m = mark_claimed-Marked st ss claimed by_len in
          rw (e, mark_claimed) (record { taken = λ i. ground (arith, m.taken i); filed = m.filed })
      | inr (j, e) ↦ elim (Bool-cases (is_trained st j || elem j claimed)) [
        | inl skip ↦
            let m = mark_claimed-Marked st ss claimed by_len in
            rw (e, skip, mark_claimed)
              (record { taken = λ i. ground (arith, m.taken i); filed = m.filed })
        | inr new ↦
            let m = mark_claimed-Marked st ss (j ∷ claimed) (add by_len (len_at st.samples j) j) in
            rw (e, new, mark_claimed)
              (record {
                taken = λ i. ground (arith, m.taken i);
                filed = λ n i.
                    ground
                      (arith, m.taken i, m.filed n i, holds-add by_len (len_at st.samples j) j n i);
              })
      ]
    ]

module _ (st : FinetuningStore) (ss : List FinetuningSample) (v : IsValid st) where
  -- An index that an id maps to is in range.
  named_in_range :
      (ss : List FinetuningSample) (i : ℕ) → named st.id2idx ss i ≡ true → i < length st.samples
  unfolding named
  named_in_range [] i h = cc
  named_in_range (s ∷ ss) i h = elim (Option-cases (index_of st.id2idx s.request_id)) [
    | inl e ↦ named_in_range ss i (ground arith)
    | inr (j, e) ↦ elim (Bool-cases (j == i)) [
      | inl same ↦
          let (s', at, _) = v.catalog.known s.request_id j e in
          omega (arith, get_elem?-lt st.samples j at, (==_iff j i).0 same)
      | inr other ↦ named_in_range ss i (ground arith)
    ]
  ]

  -- On a valid store `claim` takes exactly the free samples that are named: they leave the pool,
  -- nothing else does, and no sample is marked as trained.
  pub claim-takes :
      ((i : ℕ)
        → elem i (claim st ss).0.claimed
          ≡ (elem i st.claimed || (is_free st i && named st.id2idx ss i)))
      × ((n i : ℕ)
          → has (claim st ss).0.len_buckets n i
            ≡ (has st.len_buckets n i && not (named st.id2idx ss i)))
      × ((claim st ss).0.trained ≡ st.trained)
  unfolding claim holds
  claim-takes =
      let m = mark_claimed-Marked st ss st.claimed [] in
      let d =
        drop_from_buckets-Dropped (mark_claimed st st.claimed [] ss).1 st.len_buckets
          st.sorted_lengths 0 v.index in
      (
        λ i. ground (arith, m.taken i, named_in_range ss i),
        λ n i. ground (arith, m.taken i, d.left n i, m.filed n i, v.pool n i),
        refl,
      )

  pub claim-IsValid : IsValid (claim st ss).0
  unfolding claim holds
  claim-IsValid =
      let m = mark_claimed-Marked st ss st.claimed [] in
      let d =
        drop_from_buckets-Dropped (mark_claimed st st.claimed [] ss).1 st.len_buckets
          st.sorted_lengths 0 v.index in
      record {
        catalog = v.catalog;
        index = d.index;
        pool = λ n i. ground (arith, m.taken i, d.left n i, m.filed n i, v.pool n i);
        taken = λ i h. ground (arith, m.taken i, v.taken i, named_in_range ss i);
        marks = v.marks;
        template_index = v.template_index;
        template = v.template;
      }

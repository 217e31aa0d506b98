-- ===== src/Store/Valid.antt =====
-- What a store of deltaserve/finetuning_store.py keeps true: every sample is selectable, claimed or
-- trained, and exactly one of these.
use delta_serve_v_llm.Common.{
  ℕ, ◌<◌, ◌≡◌, Bool, true, false, not, ◌&&◌, ◌||◌, none, some, List, [], ◌∷◌, ltb, ◌==◌, length,
  get_elem?, elem,
}
use delta_serve_v_llm.Common.Dict.{has}
use delta_serve_v_llm.Store.{FinetuningSample, FinetuningStore, index_of, len_at, is_trained}
use delta_serve_v_llm.Store.Index.{IsIndexed}

-- `id2idx` is the inverse of the ids in `samples`.
pub record IsCatalog (samples : List FinetuningSample) (id2idx : List (ℕ × ℕ)) : Type 0 where
  pub filed :
      (i : ℕ) (s : FinetuningSample)
      → get_elem? samples i ≡ some s
      → index_of id2idx s.request_id ≡ some i
  pub known :
      (r i : ℕ)
      → index_of id2idx r ≡ some i
      → (s : FinetuningSample) × (get_elem? samples i ≡ some s) × (s.request_id ≡ r)

-- Neither trained in this epoch nor claimed.
abbrev pub is_free : FinetuningStore → ℕ → Bool
is_free st i = ltb i (length st.samples) && not (is_trained st i) && not (elem i st.claimed)

-- Some sample of the list has the index.
unfoldable pub named : List (ℕ × ℕ) → List FinetuningSample → ℕ → Bool
named d [] i = false
named d (s ∷ ss) i =
    (elim (index_of d s.request_id) [ none ↦ false | some j ↦ j == i ]) || named d ss i

pub record IsValid (st : FinetuningStore) : Type 0 where
  pub catalog : IsCatalog st.samples st.id2idx
  pub index : IsIndexed st.len_buckets st.sorted_lengths
  -- The bucket of a length holds exactly the free samples of that length.
  pub pool : (n i : ℕ) → has st.len_buckets n i ≡ (is_free st i && (len_at st.samples i == n))
  pub taken :
      (i : ℕ) → elem i st.claimed ≡ true → (i < length st.samples) × (is_trained st i ≡ false)
  pub marks : length st.trained ≡ length st.samples
  pub template_index : IsIndexed st.bucket_template st.sorted_template
  pub template :
      (n i : ℕ)
      → has st.bucket_template n i ≡ (ltb i (length st.samples) && (len_at st.samples i == n))

-- Two stores that every selection sees alike: the same pool, claims and marks.
pub record SamePool (st st' : FinetuningStore) : Type 0 where
  pub pool : (n i : ℕ) → has st.len_buckets n i ≡ has st'.len_buckets n i
  pub claimed : (i : ℕ) → elem i st.claimed ≡ elem i st'.claimed
  pub trained : st.trained ≡ st'.trained
  pub lengths : (n : ℕ) → elem n st.sorted_lengths ≡ elem n st'.sorted_lengths

-- ===== src/Store/Settle.antt =====
-- `commit_claimed`, `release_claimed` and `advance_epoch` of deltaserve/finetuning_store.py.
use delta_serve_v_llm.Common.{
  ℕ, ◌<◌, ◌≤◌, ◌≡◌, refl, ◌∙◌, Bool, true, false, not, ◌&&◌, ◌||◌, List, [], ◌∷◌, arith, ltb, leb,
  ◌==◌, length, length-set, length-replicate, get_or-set, get_or-replicate, set, elem, discard,
  elem-discard, inl, inr, Option-cases, Bool-cases, suc, ◌⊎◌, ◌≢◌,
}
use delta_serve_v_llm.Common.Dict.{Dict, add, has, holds, holds-add}
use delta_serve_v_llm.Store.{
  FinetuningSample, FinetuningStore, index_of, len_at, is_trained, unmark_claimed, claim,
  release_claimed, commit_claimed, commit_claimed_from, advance_epoch, has_claimed,
  reset_epoch_structures,
}
use delta_serve_v_llm.Store.Index.{IsFilled, IsFilled-add, return_to_buckets-Returned}
use delta_serve_v_llm.Store.Valid.{IsValid, named}
use delta_serve_v_llm.Store.Claim.{claim-IsValid}

-- The first loop of `release_claimed` drops the claims that are named and files them by length.
record Unmarked (st : FinetuningStore) (claimed : List ℕ) (by_len : Dict)
    (ss : List FinetuningSample) (r : List ℕ × Dict) : Type 0 where
  kept : (i : ℕ) → elem i r.0 ≡ (elem i claimed && not (named st.id2idx ss i))
  filed :
      (n i : ℕ)
      → holds r.1 n i
        ≡ (holds by_len n i || (elem i claimed && not (elem i r.0) && (len_at st.samples i == n)))
  filled : IsFilled r.1

unmark_claimed-Unmarked :
    (st : FinetuningStore) (ss : List FinetuningSample) (claimed : List ℕ) (by_len : Dict)
    → IsFilled by_len
    → Unmarked st claimed by_len ss (unmark_claimed st claimed by_len ss)
unfolding unmark_claimed named
unmark_claimed-Unmarked st [] claimed by_len f = record {
  kept = λ i. ground arith;
  filed = λ n i. ground arith;
  filled = f;
}
unmark_claimed-Unmarked st (s ∷ ss) claimed by_len f =
    elim (Option-cases (index_of st.id2idx s.request_id)) [
      | inl e ↦
          let m = unmark_claimed-Unmarked st ss claimed by_len f in
          rw (e, unmark_claimed)
            (record { kept = λ i. ground (arith, m.kept i); filed = m.filed; filled = m.filled })
      | inr (j, e) ↦ elim (Bool-cases (elem j claimed)) [
        | inr skip ↦
            let m = unmark_claimed-Unmarked st ss claimed by_len f in
            rw (e, skip, unmark_claimed)
              (record { kept = λ i. ground (arith, m.kept i); filed = m.filed; filled = m.filled })
        | inl old ↦
            let n' = len_at st.samples j in
            let m =
              unmark_claimed-Unmarked st ss (discard j claimed) (add by_len n' j)
                (IsFilled-add by_len n' j f) in
            rw (e, old, unmark_claimed)
              (record {
                kept = λ i. ground (arith, m.kept i, elem-discard i j claimed);
                filed = λ n i. ground (
                  arith,
                  m.kept i,
                  m.filed n i,
                  elem-discard i j claimed,
                  holds-add by_len n' j n i,
                );
                filled = m.filled;
              })
      ]
    ]

module _ (st : FinetuningStore) (ss : List FinetuningSample) (v : IsValid st) where
  -- `release_claimed` gives back exactly the claims that are named, to the bucket of their length.
  pub release_claimed-returns :
      ((i : ℕ)
        → elem i (release_claimed st ss).0.claimed
          ≡ (elem i st.claimed && not (named st.id2idx ss i)))
      × ((n i : ℕ)
          → has (release_claimed st ss).0.len_buckets n i ≡ (
              has st.len_buckets n i
              || (elem i st.claimed && named st.id2idx ss i && (len_at st.samples i == n))))
      × ((release_claimed st ss).0.trained ≡ st.trained)
  unfolding release_claimed holds
  release_claimed-returns =
      let m = unmark_claimed-Unmarked st ss st.claimed [] tt in
      let d =
        return_to_buckets-Returned (unmark_claimed st st.claimed [] ss).1 st.len_buckets
          st.sorted_lengths 0 m.filled v.index in
      (λ i. m.kept i, λ n i. ground (arith, m.kept i, d.joined n i, m.filed n i), refl)

  pub release_claimed-IsValid : IsValid (release_claimed st ss).0
  unfolding release_claimed holds
  release_claimed-IsValid =
      let m = unmark_claimed-Unmarked st ss st.claimed [] tt in
      let d =
        return_to_buckets-Returned (unmark_claimed st st.claimed [] ss).1 st.len_buckets
          st.sorted_lengths 0 m.filled v.index in
      record {
        catalog = v.catalog;
        index = d.index;
        pool = λ n i. ground (arith, m.kept i, d.joined n i, m.filed n i, v.pool n i, v.taken i);
        taken = λ i h. ground (arith, m.kept i, v.taken i);
        marks = v.marks;
        template_index = v.template_index;
        template = v.template;
      }

record Committed (st : FinetuningStore) (ss : List FinetuningSample) (st' : FinetuningStore)
    : Type 0 where
  valid : IsValid st'
  kept : (i : ℕ) → elem i st'.claimed ≡ (elem i st.claimed && not (named st.id2idx ss i))
  learnt :
      (i : ℕ) → is_trained st' i ≡ (is_trained st i || (elem i st.claimed && named st.id2idx ss i))
  pool : st'.len_buckets ≡ st.len_buckets

-- One claimed index becomes trained.
commit_one-IsValid :
    (st : FinetuningStore) (j : ℕ)
    → IsValid st
    → elem j st.claimed ≡ true
    → IsValid (record st { claimed = discard j st.claimed; trained = set st.trained j true })
commit_one-IsValid st j v h = record {
  catalog = v.catalog;
  index = v.index;
  pool = λ n i. ground (
    arith,
    v.pool n i,
    elem-discard i j st.claimed,
    v.taken j h,
    v.marks,
    get_or-set st.trained j i true false,
  );
  taken = λ i t. ground (
    arith,
    v.taken i,
    elem-discard i j st.claimed,
    v.taken j h,
    v.marks,
    get_or-set st.trained j i true false,
  );
  marks = length-set st.trained j true ∙ v.marks;
  template_index = v.template_index;
  template = v.template;
}

commit_claimed_from-Committed :
    (ss : List FinetuningSample) (st : FinetuningStore) (marked : ℕ)
    → IsValid st
    → Committed st ss (commit_claimed_from st marked ss).0
unfolding commit_claimed_from named
commit_claimed_from-Committed [] st marked v = record {
  valid = v;
  kept = λ i. ground arith;
  learnt = λ i. ground arith;
  pool = refl;
}
commit_claimed_from-Committed (s ∷ ss) st marked v =
    elim (Option-cases (index_of st.id2idx s.request_id)) [
      | inl e ↦
          let m = commit_claimed_from-Committed ss st marked v in
          rw (e, commit_claimed_from)
            (record {
              valid = m.valid;
              kept = λ i. ground (arith, m.kept i);
              learnt = λ i. ground (arith, m.learnt i);
              pool = m.pool;
            })
      | inr (j, e) ↦ elim (Bool-cases (elem j st.claimed)) [
        | inr skip ↦
            let m = commit_claimed_from-Committed ss st marked v in
            rw (e, skip, commit_claimed_from)
              (record {
                valid = m.valid;
                kept = λ i. ground (arith, m.kept i);
                learnt = λ i. ground (arith, m.learnt i);
                pool = m.pool;
              })
        | inl old ↦
            let m =
              commit_claimed_from-Committed ss
                (record st { claimed = discard j st.claimed; trained = set st.trained j true })
                (suc marked) (commit_one-IsValid st j v old) in
            rw (e, old, commit_claimed_from)
              (record {
                valid = m.valid;
                kept = λ i. ground (arith, m.kept i, elem-discard i j st.claimed);
                learnt = λ i. ground (
                  arith,
                  m.learnt i,
                  elem-discard i j st.claimed,
                  v.taken j old,
                  v.marks,
                  get_or-set st.trained j i true false,
                );
                pool = m.pool;
              })
      ]
    ]

module _ (st : FinetuningStore) (ss : List FinetuningSample) (v : IsValid st) where
  -- On a valid store `commit_claimed` marks as trained exactly the claimed samples that are named,
  -- and drops those claims; the pool stays as it is.
  pub commit_claimed-marks :
      ((i : ℕ)
        → elem i (commit_claimed st ss).0.claimed
          ≡ (elem i st.claimed && not (named st.id2idx ss i)))
      × ((i : ℕ)
          → is_trained (commit_claimed st ss).0 i
            ≡ (is_trained st i || (elem i st.claimed && named st.id2idx ss i)))
      × ((commit_claimed st ss).0.len_buckets ≡ st.len_buckets)
  unfolding commit_claimed
  commit_claimed-marks =
      let m = commit_claimed_from-Committed ss st 0 v in (m.kept, m.learnt, m.pool)

  pub commit_claimed-IsValid : IsValid (commit_claimed st ss).0
  unfolding commit_claimed
  commit_claimed-IsValid = (commit_claimed_from-Committed ss st 0 v).valid

has_claimed_iff : (st : FinetuningStore) → has_claimed st ≡ true → st.claimed ≢ []
unfolding has_claimed
has_claimed_iff st e e' = ground arith

claimed_empty : (st : FinetuningStore) → has_claimed st ≡ false → st.claimed ≡ []
unfolding has_claimed
claimed_empty st e = ground arith

-- What `advance_epoch` may answer: a new epoch, or the same store.
abbrev pub Advances : FinetuningStore → FinetuningStore × Bool → Type 0
Advances st (st', done) =
    ((done ≡ true)
      × (st.current_epoch < st.total_epochs)
      × (st.claimed ≡ [])
      × (st'.current_epoch ≡ suc st.current_epoch)
      × ((n i : ℕ)
          → has st'.len_buckets n i ≡ (ltb i (length st.samples) && (len_at st.samples i == n))))
    ⊎ ((done ≡ false) × (st' ≡ st) × ((st.total_epochs ≤ st.current_epoch) ⊎ (st.claimed ≢ [])))

-- On a valid store an epoch starts only when epochs are left and nothing is in flight; then every
-- sample is selectable again. Otherwise nothing changes.
pub advance_epoch_lem : (st : FinetuningStore) → IsValid st → Advances st (advance_epoch st)
unfolding advance_epoch
advance_epoch_lem st v = elim (Bool-cases (leb st.total_epochs st.current_epoch)) [
  | inl late ↦ rw late (inr (refl, refl, inl (ground arith)))
  | inr early ↦ elim (Bool-cases (has_claimed st)) [
    | inl e ↦ rw (early, e) (inr (refl, refl, inr (has_claimed_iff st e)))
    | inr e ↦ rw (early, e) (inl (refl, ground arith, claimed_empty st e, refl, v.template))
  ]
]

reset-IsValid : (st : FinetuningStore) → IsValid st → IsValid (reset_epoch_structures st)
unfolding reset_epoch_structures elem
reset-IsValid st v = record {
  catalog = v.catalog;
  index = v.template_index;
  pool = λ n i. ground (arith, v.template n i, get_or-replicate (length st.samples) i false);
  taken = λ i h. cc;
  marks = length-replicate (length st.samples) false;
  template_index = v.template_index;
  template = v.template;
}

pub advance_epoch-IsValid : (st : FinetuningStore) → IsValid st → IsValid (advance_epoch st).0
unfolding advance_epoch
advance_epoch-IsValid st v =
    elim (Bool-cases (leb st.total_epochs st.current_epoch || has_claimed st)) [
      | inl stay ↦ rw stay v
      | inr go ↦ rw go (reset-IsValid _ (at_epoch (suc st.current_epoch)))
    ]
  where
    at_epoch : (n : ℕ) → IsValid (record st { current_epoch = n })
    at_epoch n = record {
      catalog = v.catalog;
      index = v.index;
      pool = v.pool;
      taken = v.taken;
      marks = v.marks;
      template_index = v.template_index;
      template = v.template;
    }

-- The operations that change a store.
pub data StoreOp : Type 0 where
  claims commits releases : List FinetuningSample → StoreOp
  advances : StoreOp

unfoldable pub step : FinetuningStore → StoreOp → FinetuningStore
step st (claims ss) = (claim st ss).0
step st (commits ss) = (commit_claimed st ss).0
step st (releases ss) = (release_claimed st ss).0
step st advances = (advance_epoch st).0

unfoldable pub run : FinetuningStore → List StoreOp → FinetuningStore
unfolding step
run st [] = st
run st (o ∷ os) = run (step st o) os

step-IsValid : (o : StoreOp) (st : FinetuningStore) → IsValid st → IsValid (step st o)
unfolding step
step-IsValid (claims ss) st v = claim-IsValid st ss v
step-IsValid (commits ss) st v = commit_claimed-IsValid st ss v
step-IsValid (releases ss) st v = release_claimed-IsValid st ss v
step-IsValid advances st v = advance_epoch-IsValid st v

-- After any history of claims, commits, releases and epoch starts a valid store is valid: each
-- sample is selectable in the bucket of its length, or claimed, or trained, and only one of these.
pub run-IsValid : (os : List StoreOp) (st : FinetuningStore) → IsValid st → IsValid (run st os)
unfolding run
run-IsValid [] st v = v
run-IsValid (o ∷ os) st v = run-IsValid os (step st o) (step-IsValid o st v)

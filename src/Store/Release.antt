-- ===== src/Store/Release.antt =====
-- `release_claimed` of deltaserve/finetuning_store.py right after `claim`: what a selection sees of
-- it.
use delta_serve_v_llm.Common.{
  ℕ, sym, Option, none, some, get_elem?, get_or, ◌≡◌, refl, ap, ◌∙◌, Bool, true, false, List, arith,
  length, elem,
}
use delta_serve_v_llm.Common.Dict.{has}
use delta_serve_v_llm.Store.{
  FinetuningSample, FinetuningStore, len_at, claim, release_claimed, input_len, pop_next,
}
use delta_serve_v_llm.Store.Index.{IsIndexed-lengths}
use delta_serve_v_llm.Store.Valid.{IsValid, SamePool, named, is_free}
use delta_serve_v_llm.Store.Select.{IsCandidate, IsSmallest, pop_next-IsSmallest}
use delta_serve_v_llm.Store.Claim.{claim-takes, claim-IsValid}
use delta_serve_v_llm.Store.Settle.{release_claimed-returns, release_claimed-IsValid}

-- The length of a selected sample.
abbrev pub len_of : Option FinetuningSample → Option ℕ
len_of none = none
len_of (some s) = some (input_len s)

-- Stores with the same candidates select samples of the same length.
same_smallest :
    (st st' : FinetuningStore) (exclude : List FinetuningSample) (o o' : Option FinetuningSample)
    → ((i : ℕ) (s : FinetuningSample)
        → (IsCandidate st exclude i s → IsCandidate st' exclude i s)
          × (IsCandidate st' exclude i s → IsCandidate st exclude i s))
    → IsSmallest st exclude o
    → IsSmallest st' exclude o'
    → len_of o ≡ len_of o'
same_smallest st st' exclude none none b h h' = refl
same_smallest st st' exclude none (some s') b h h' =
    let ((i, c), least) = h' in absurd (h i s' ((b i s').1 c))
same_smallest st st' exclude (some s) none b h h' =
    let ((i, c), least) = h in absurd (h' i s ((b i s).0 c))
same_smallest st st' exclude (some s) (some s') b h h' =
    let ((i, c), least) = h in
    let ((j, d), least') = h' in
    let le = least j s' ((b j s').1 d) in
    let ge = least' i s ((b i s).0 c) in
    let e : input_len s ≡ input_len s' = omega (arith, le, ge) in ap (λ (n : ℕ). some n) e

module _ (st : FinetuningStore) (ss : List FinetuningSample) (v : IsValid st) where
  released-files : (release_claimed (claim st ss).0 ss).0.samples ≡ st.samples
  unfolding release_claimed claim
  released-files = refl

  claim-files : ((claim st ss).0.id2idx ≡ st.id2idx) × ((claim st ss).0.samples ≡ st.samples)
  unfolding claim
  claim-files = (refl, refl)

  claimed-released :
      ((i : ℕ) → named st.id2idx ss i ≡ true → elem i st.claimed ≡ false)
      → SamePool (release_claimed (claim st ss).0 ss).0 st
  claimed-released fresh =
      let (taken, left, marks) = claim-takes st ss v in
      let v' = claim-IsValid st ss v in
      let (kept, joined, marks') = release_claimed-returns (claim st ss).0 ss v' in
      let w = release_claimed-IsValid (claim st ss).0 ss v' in
      let (ids, samples) = claim-files in
      let pool : (n i : ℕ)
          → has (release_claimed (claim st ss).0 ss).0.len_buckets n i ≡ has st.len_buckets n i =
        λ n i. ground (
          arith,
          taken i,
          left n i,
          joined n i,
          v.pool n i,
          fresh i,
          ap (λ d. named d ss i) ids,
          ap (λ l. len_at l i) samples,
        ) in
      record {
        pool = pool;
        claimed = λ i. ground (arith, taken i, kept i, fresh i, ap (λ d. named d ss i) ids);
        trained = marks' ∙ marks;
        lengths = IsIndexed-lengths w.index v.index pool;
      }

  -- What may be selected after the release may be selected before the claim, and the other way
  -- round.
  IsCandidate-back :
      ((i : ℕ) → named st.id2idx ss i ≡ true → elem i st.claimed ≡ false)
      → (exclude : List FinetuningSample) (i : ℕ) (s : FinetuningSample)
      → (IsCandidate (release_claimed (claim st ss).0 ss).0 exclude i s
          → IsCandidate st exclude i s)
        × (IsCandidate st exclude i s
            → IsCandidate (release_claimed (claim st ss).0 ss).0 exclude i s)
  IsCandidate-back fresh exclude i s =
      let same = claimed-released fresh in
      let files = released-files in
      let free : is_free (release_claimed (claim st ss).0 ss).0 i ≡ is_free st i = ground (
        arith,
        same.claimed i,
        ap (λ (l : List Bool). get_or l i false) same.trained,
        ap (λ (l : List FinetuningSample). length l) files,
      ) in
      (
        λ c. record {
          stored = ap (λ (l : List FinetuningSample). get_elem? l i) (sym files) ∙ c.stored;
          free = sym free ∙ c.free;
          allowed = c.allowed;
        },
        λ c. record {
          stored = ap (λ (l : List FinetuningSample). get_elem? l i) files ∙ c.stored;
          free = free ∙ c.free;
          allowed = c.allowed;
        },
      )

  -- Releasing samples that were just claimed, on a valid store in which none of them was claimed
  -- before, gives back the pool, the claims, the marks and the lengths, the order of the samples of
  -- one length aside; and whatever is excluded, `pop_next` then returns a sample of the length that it
  -- returned before the claim, or none if there was none.
  pub release-claim :
      ((i : ℕ) → named st.id2idx ss i ≡ true → elem i st.claimed ≡ false)
      → SamePool (release_claimed (claim st ss).0 ss).0 st
        × ((exclude : List FinetuningSample)
            → len_of (pop_next (release_claimed (claim st ss).0 ss).0 exclude)
              ≡ len_of (pop_next st exclude))
  release-claim fresh = (
    claimed-released fresh,
    λ exclude.
        same_smallest (release_claimed (claim st ss).0 ss).0 st exclude
          (pop_next (release_claimed (claim st ss).0 ss).0 exclude) (pop_next st exclude)
          (IsCandidate-back fresh exclude)
          (pop_next-IsSmallest (release_claimed (claim st ss).0 ss).0 exclude
            (release_claimed-IsValid (claim st ss).0 ss (claim-IsValid st ss v)))
          (pop_next-IsSmallest st exclude v),
  )

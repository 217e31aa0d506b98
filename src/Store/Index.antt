-- ===== src/Store/Index.antt =====
-- The bucket index of deltaserve/finetuning_store.py: `len_buckets` beside `sorted_lengths`, and
-- what the loops of `claim` and `release_claimed` do to the two.
use delta_serve_v_llm.Common.{
  ℕ, ◌≡◌, refl, sym, ◌≢◌, true, not, ◌&&◌, ◌||◌, none, some, ap, List, [], ◌∷◌, ◌++◌, arith, ◌==◌,
  is_some, elem, diff, elem-diff, elem-append, inl, inr, Option-cases, List-cases, Bool-cases,
}
use delta_serve_v_llm.Common.Dict.{Dict, get, put, delete, add, has, holds, get-put, get-delete}
use delta_serve_v_llm.Common.Sorted.{
  IsAscending, remove_sorted, insert_sorted, remove_sorted-Above, insert_sorted-Above,
  elem-remove_sorted, elem-insert_sorted,
}
use delta_serve_v_llm.Store.{drop_from_buckets, return_to_buckets}

-- The lengths ascend, are the keys of the dictionary, and no bucket is empty.
pub record IsIndexed (buckets : Dict) (lengths : List ℕ) : Type 0 where
  pub ascending : IsAscending lengths
  pub listed : (n : ℕ) → elem n lengths ≡ is_some (get buckets n)
  pub filled : (n : ℕ) → get buckets n ≢ some []

module _ (buckets : Dict) (lengths : List ℕ) (n : ℕ) (index : IsIndexed buckets lengths) where
  pub delete-IsIndexed : IsIndexed (delete buckets n) (remove_sorted lengths n)
  delete-IsIndexed = record {
    ascending = remove_sorted-Above 0 lengths n index.ascending;
    listed = λ m. ground (
      arith,
      elem-remove_sorted 0 lengths n m index.ascending,
      get-delete buckets n m,
      index.listed m,
    );
    filled = λ m e. ground (arith, get-delete buckets n m, index.filled m);
  }

  pub put-IsIndexed :
      (i : ℕ) (kept : List ℕ)
      → is_some (get buckets n) ≡ true
      → IsIndexed (put buckets n (i ∷ kept)) lengths
  put-IsIndexed i kept old = record {
    ascending = index.ascending;
    listed = λ m.
        ground (arith, get-put buckets n (i ∷ kept) m, index.listed m, index.listed n, elem_at m);
    filled = λ m e. ground (arith, get-put buckets n (i ∷ kept) m, index.filled m);
  }
    where
      elem_at : (m : ℕ) → n ≡ m → is_some (get buckets n) ≡ is_some (get buckets m)
      elem_at m e = ground arith

  pub insert-IsIndexed :
      (i : ℕ) (new : List ℕ) → IsIndexed (put buckets n (i ∷ new)) (insert_sorted lengths n)
  insert-IsIndexed i new = record {
    ascending = insert_sorted-Above 0 lengths n index.ascending (omega arith);
    listed = λ m. ground (
      arith,
      elem-insert_sorted 0 lengths n m index.ascending,
      get-put buckets n (i ∷ new) m,
      index.listed m,
    );
    filled = λ m e. ground (arith, get-put buckets n (i ∷ new) m, index.filled m);
  }

-- What the removal loop leaves: a sound index without exactly the entries of `by_len`.
pub record Dropped (buckets by_len : Dict) (r : Dict × List ℕ × ℕ) : Type 0 where
  pub index : IsIndexed r.0 r.1
  pub left : (n i : ℕ) → has r.0 n i ≡ (has buckets n i && not (holds by_len n i))

module _ (buckets : Dict) (k : ℕ) (dq rm : List ℕ) (old : get buckets k ≡ some dq) where
  has-delete :
      diff dq rm ≡ []
      → (n i : ℕ) → has (delete buckets k) n i ≡ (has buckets n i && not ((k == n) && elem i rm))
  unfolding has elem
  has-delete e n i = ground (arith, get-delete buckets k n, elem-diff i dq rm, ap (elem i) e)

  has-put-diff :
      (j : ℕ) (kept : List ℕ)
      → diff dq rm ≡ j ∷ kept
      → (n i : ℕ)
      → has (put buckets k (j ∷ kept)) n i ≡ (has buckets n i && not ((k == n) && elem i rm))
  unfolding has
  has-put-diff j kept e n i =
      ground (arith, get-put buckets k (j ∷ kept) n, elem-diff i dq rm, ap (elem i) e)

-- One round of the removal loop and then the rest of it.
Dropped-cons :
    (buckets mid : Dict) (k : ℕ) (rm : List ℕ) (by_len : Dict) {r : Dict × List ℕ × ℕ}
    → ((n i : ℕ) → has mid n i ≡ (has buckets n i && not ((k == n) && elem i rm)))
    → Dropped mid by_len r
    → Dropped buckets ((k, rm) ∷ by_len) r
unfolding holds
Dropped-cons buckets mid k rm by_len step d = record {
  index = d.index;
  left = λ n i. ground (arith, step n i, d.left n i);
}

has-none :
    (buckets : Dict) (k : ℕ) (rm : List ℕ)
    → get buckets k ≡ none
    → (n i : ℕ) → has buckets n i ≡ (has buckets n i && not ((k == n) && elem i rm))
unfolding has elem
has-none buckets k rm e n i = ground arith

pub drop_from_buckets-Dropped :
    (by_len buckets : Dict) (lengths : List ℕ) (marked : ℕ)
    → IsIndexed buckets lengths
    → Dropped buckets by_len (drop_from_buckets buckets lengths marked by_len)
unfolding drop_from_buckets holds
drop_from_buckets-Dropped [] buckets lengths marked index = record {
  index = index;
  left = λ n i. ground arith;
}
drop_from_buckets-Dropped ((k, rm) ∷ by_len) buckets lengths marked index =
    elim (Option-cases (get buckets k)) [
      | inl missing ↦
          rw (missing, drop_from_buckets)
            (Dropped-cons buckets buckets k rm by_len (has-none buckets k rm missing)
              (drop_from_buckets-Dropped by_len buckets lengths marked index))
      | inr ([], old) ↦ absurd (index.filled k old)
      | inr (x ∷ dq, old) ↦ elim (List-cases (diff (x ∷ dq) rm)) [
        | inl gone ↦
            rw (old, gone, drop_from_buckets)
              (Dropped-cons buckets _ k rm by_len (has-delete buckets k (x ∷ dq) rm old gone)
                (drop_from_buckets-Dropped by_len _ _ _ (delete-IsIndexed buckets lengths k index)))
        | inr (j, kept, e) ↦
            rw (old, e, drop_from_buckets)
              (Dropped-cons buckets _ k rm by_len (has-put-diff buckets k (x ∷ dq) rm old j kept e)
                (drop_from_buckets-Dropped by_len _ _ _
                  (put-IsIndexed buckets lengths k index j kept (rw old))))
      ]
    ]

-- What the loop that returns indices leaves: a sound index with the entries of `by_len` added.
pub record Returned (buckets by_len : Dict) (r : Dict × List ℕ × ℕ) : Type 0 where
  pub index : IsIndexed r.0 r.1
  pub joined : (n i : ℕ) → has r.0 n i ≡ (has buckets n i || holds by_len n i)

-- No entry of the dictionary is empty.
abbrev pub IsFilled : Dict → Type 0
IsFilled [] = Unit {0}
IsFilled ((k, xs) ∷ d) = (xs ≢ []) × IsFilled d

has-put-append :
    (buckets : Dict) (k : ℕ) (dq idxs : List ℕ)
    → get buckets k ≡ some dq
    → (n i : ℕ)
    → has (put buckets k (dq ++ idxs)) n i ≡ (has buckets n i || ((k == n) && elem i idxs))
unfolding has
has-put-append buckets k dq idxs old n i =
    ground (arith, get-put buckets k (dq ++ idxs) n, elem-append i dq idxs)

has-put-new :
    (buckets : Dict) (k : ℕ) (idxs : List ℕ)
    → get buckets k ≡ none
    → (n i : ℕ) → has (put buckets k idxs) n i ≡ (has buckets n i || ((k == n) && elem i idxs))
unfolding has
has-put-new buckets k idxs missing n i = ground (arith, get-put buckets k idxs n)

Returned-cons :
    (buckets mid : Dict) (k : ℕ) (idxs : List ℕ) (by_len : Dict) {r : Dict × List ℕ × ℕ}
    → ((n i : ℕ) → has mid n i ≡ (has buckets n i || ((k == n) && elem i idxs)))
    → Returned mid by_len r
    → Returned buckets ((k, idxs) ∷ by_len) r
unfolding holds
Returned-cons buckets mid k idxs by_len step d = record {
  index = d.index;
  joined = λ n i. ground (arith, step n i, d.joined n i);
}

pub return_to_buckets-Returned :
    (by_len buckets : Dict) (lengths : List ℕ) (n : ℕ)
    → IsFilled by_len
    → IsIndexed buckets lengths
    → Returned buckets by_len (return_to_buckets buckets lengths n by_len)
unfolding return_to_buckets holds
return_to_buckets-Returned [] buckets lengths n f index = record {
  index = index;
  joined = λ m i. ground arith;
}
return_to_buckets-Returned ((k, []) ∷ by_len) buckets lengths n f index = absurd (f.0 refl)
return_to_buckets-Returned ((k, i ∷ idxs) ∷ by_len) buckets lengths n f index =
    elim (Option-cases (get buckets k)) [
      | inl missing ↦
          rw (missing, return_to_buckets)
            (Returned-cons buckets _ k (i ∷ idxs) by_len (has-put-new buckets k (i ∷ idxs) missing)
              (return_to_buckets-Returned by_len _ _ _ f.1
                (insert-IsIndexed buckets lengths k index i idxs)))
      | inr ([], old) ↦ absurd (index.filled k old)
      | inr (x ∷ dq, old) ↦
          rw (old, return_to_buckets)
            (Returned-cons buckets _ k (i ∷ idxs) by_len
              (has-put-append buckets k (x ∷ dq) (i ∷ idxs) old)
              (return_to_buckets-Returned by_len _ _ _ f.1
                (put-IsIndexed buckets lengths k index x (dq ++ i ∷ idxs) (rw old))))
    ]

pub IsFilled-add : (d : Dict) (k x : ℕ) → IsFilled d → IsFilled (add d k x)
unfolding add
IsFilled-add [] k x f = (λ e. cc, tt)
IsFilled-add ((j, []) ∷ d) k x f = absurd (f.0 refl)
IsFilled-add ((j, y ∷ w) ∷ d) k x f = elim (Bool-cases (j == k)) [
  | inl e ↦ rw e (λ e'. cc, f.1)
  | inr e ↦ rw e (f.0, IsFilled-add d k x f.1)
]

listed_of_has :
    (b b' : Dict) (n : ℕ)
    → get b n ≢ some []
    → ((i : ℕ) → has b n i ≡ has b' n i)
    → is_some (get b n) ≡ true
    → is_some (get b' n) ≡ true
unfolding has elem
listed_of_has b b' n f same h = elim (Option-cases (get b n)) [
  | inl e ↦ ground arith
  | inr ([], e) ↦ absurd (f e)
  | inr (x ∷ xs, e) ↦ ground (arith, same x)
]

-- Two sound indexes with the same entries list the same lengths.
pub IsIndexed-lengths :
    {b b' : Dict} {l l' : List ℕ}
    → IsIndexed b l
    → IsIndexed b' l'
    → ((n i : ℕ) → has b n i ≡ has b' n i)
    → (n : ℕ) → elem n l ≡ elem n l'
IsIndexed-lengths {b} {b'} {l} {l'} x y same n = ground (
  arith,
  x.listed n,
  y.listed n,
  listed_of_has b b' n (x.filled n) (same n),
  listed_of_has b' b n (y.filled n) (λ i. sym (same n i)),
)

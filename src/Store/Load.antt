-- ===== src/Store/Load.antt =====
-- `load` of deltaserve/finetuning_store.py, with the templates that an epoch starts from.
use Prim.Native.String.{String}
use text.Mathlib.Text.{◌==◌ as str_eq}
use delta_serve_v_llm.Common.{
  ℕ, zero, suc, ◌+◌, ◌-◌, ◌<◌, ◌≤◌, ◌≡◌, ◌≢◌, refl, sym, ap, ◌∙◌, ◌⊎◌, Bool, false, ◌&&◌, ◌||◌,
  Option, none, some, List, [], ◌∷◌, ◌++◌, arith, ltb, leb, ◌==◌, if◌then◌else◌, length,
  length-append, length-replicate, get_elem?, get_elem?-lt, get_or-replicate, elem, inl, inr,
  Bool-cases, is_some,
}
use delta_serve_v_llm.Common.Dict.{Dict, get, has, add, has-add}
use delta_serve_v_llm.Common.Sorted.{IsAscending, insert_sorted-Above, elem-insert_sorted}
use delta_serve_v_llm.Store.{
  FinetuningSample, FinetuningStore, input_len, len_at, index_of, set_index, group_from,
  sorted_keys, build_templates, reset_epoch_structures, add_sample, sample_of, read_line,
  read_lines, is_enough, load, init,
}
use delta_serve_v_llm.Store.Index.{IsIndexed, IsFilled, IsFilled-add}
use delta_serve_v_llm.Store.Valid.{IsCatalog, IsValid}

-- The templates ------------------------------------------------------------------------------

-- The sample at the place exists and has the length.
abbrev hit : List FinetuningSample → ℕ → ℕ → Bool
hit ss j n = ltb j (length ss) && (len_at ss j == n)

has-group_from :
    (k : ℕ) (ss : List FinetuningSample) (d : Dict) (n i : ℕ)
    → has (group_from k ss d) n i ≡ (has d n i || (leb k i && hit ss (i - k) n))
unfolding group_from len_at
has-group_from k [] d n i = ground arith
has-group_from k (s ∷ ss) d n i = elim (Bool-cases (ltb k i)) [
  | inl later ↦
      let e : i - k ≡ suc (i - suc k) = ground arith in
      rw e (
        ground (
          arith,
          has-group_from (suc k) ss (add d (input_len s) k) n i,
          has-add d (input_len s) k n i,
        ))
  | inr now ↦ elim (Bool-cases (k == i)) [
    | inl same ↦
        let e : i - k ≡ zero = ground arith in
        rw e (
          ground (
            arith,
            has-group_from (suc k) ss (add d (input_len s) k) n i,
            has-add d (input_len s) k n i,
          ))
    | inr past ↦ ground (
      arith,
      has-group_from (suc k) ss (add d (input_len s) k) n i,
      has-add d (input_len s) k n i,
    )
  ]
]

group_from-IsFilled :
    (k : ℕ) (ss : List FinetuningSample) (d : Dict) → IsFilled d → IsFilled (group_from k ss d)
unfolding group_from
group_from-IsFilled k [] d f = f
group_from-IsFilled k (s ∷ ss) d f =
    group_from-IsFilled (suc k) ss _ (IsFilled-add d (input_len s) k f)

get-IsFilled : (d : Dict) (n : ℕ) → IsFilled d → get d n ≢ some []
unfolding get
get-IsFilled [] n f = λ e. cc
get-IsFilled ((k, w) ∷ d) n f = λ e. elim (Bool-cases (k == n)) [
  | inl here ↦ f.0 (ground arith)
  | inr later ↦ get-IsFilled d n f.1 (ground arith)
]

sorted_keys-IsAscending : (d : Dict) → IsAscending (sorted_keys d)
unfolding sorted_keys
sorted_keys-IsAscending [] = tt
sorted_keys-IsAscending ((k, w) ∷ d) =
    insert_sorted-Above 0 (sorted_keys d) k (sorted_keys-IsAscending d) (omega arith)

elem-sorted_keys : (d : Dict) (n : ℕ) → elem n (sorted_keys d) ≡ is_some (get d n)
unfolding sorted_keys get elem
elem-sorted_keys [] n = refl
elem-sorted_keys ((k, w) ∷ d) n = ground (
  arith,
  elem-insert_sorted 0 (sorted_keys d) k n (sorted_keys-IsAscending d),
  elem-sorted_keys d n,
)

-- Whatever the samples, a store whose templates are built and whose marks are reset is valid.
fresh-IsValid :
    (st : FinetuningStore)
    → IsCatalog st.samples st.id2idx
    → IsValid (reset_epoch_structures (build_templates st))
unfolding build_templates reset_epoch_structures elem has get
fresh-IsValid st c =
    let index : IsIndexed (group_from 0 st.samples []) (sorted_keys (group_from 0 st.samples [])) =
      record {
        ascending = sorted_keys-IsAscending _;
        listed = elem-sorted_keys _;
        filled = λ n. get-IsFilled _ n (group_from-IsFilled 0 st.samples [] tt);
      } in
    let grouped : (n i : ℕ) → has (group_from 0 st.samples []) n i ≡ hit st.samples i n =
      λ n i. ground (arith, has-group_from 0 st.samples [] n i) in
    record {
      catalog = c;
      index = index;
      pool = λ n i. ground (arith, grouped n i, get_or-replicate (length st.samples) i false);
      taken = λ i h. cc;
      marks = length-replicate (length st.samples) false;
      template_index = index;
      template = grouped;
    }

-- Reading ------------------------------------------------------------------------------------

index_of-set_index :
    (d : List (ℕ × ℕ)) (r i q : ℕ)
    → index_of (set_index d r i) q ≡ (if r == q then some i else index_of d q)
unfolding index_of set_index
index_of-set_index [] r i q = refl
index_of-set_index ((p, j) ∷ d) r i q = ground (arith, index_of-set_index d r i q)

get_elem?-snoc {ℓ} :
    {A : Type ℓ} (xs : List A) (x : A) (i : ℕ)
    → get_elem? (xs ++ x ∷ []) i ≡ (if length xs == i then some x else get_elem? xs i)
get_elem?-snoc [] x zero = refl
get_elem?-snoc [] x (suc i) = ground arith
get_elem?-snoc (y ∷ xs) x zero = ground arith
get_elem?-snoc (y ∷ xs) x (suc i) = ground (arith, get_elem?-snoc xs x i)

-- The tokens of the samples.
unfoldable pub tokens_in : List FinetuningSample → ℕ
tokens_in [] = 0
tokens_in (s ∷ ss) = input_len s + tokens_in ss

-- What loading gives: a valid store of samples that fit, counted and summed.
abbrev pub Loads : ℕ → Option ℕ → FinetuningStore × ℕ → Type 0
Loads cap max_prepare (st, loaded) =
    IsValid st
    × ((i : ℕ) (s : FinetuningSample) → get_elem? st.samples i ≡ some s → input_len s ≤ cap)
    × (loaded ≡ length st.samples)
    × (st.total_tokens_in_memory ≡ tokens_in st.samples)
    × ((m : ℕ) → max_prepare ≡ some m → 0 < m → loaded ≤ m)

tokens_in-snoc :
    (ss : List FinetuningSample) (s : FinetuningSample)
    → tokens_in (ss ++ s ∷ []) ≡ tokens_in ss + input_len s
unfolding tokens_in
tokens_in-snoc [] s = omega arith
tokens_in-snoc (t ∷ ss) s = omega (arith, tokens_in-snoc ss s)

module _ (strip : String → String) (tokenize : String → List ℕ) (uuid : ℕ → ℕ)
    (distinct : (i j : ℕ) → uuid i ≡ uuid j → i ≡ j) where
  -- The store while the corpus is read.
  record IsReading (st : FinetuningStore) (loaded : ℕ) : Type 0 where
    catalog : IsCatalog st.samples st.id2idx
    drawn :
        (i : ℕ) (s : FinetuningSample)
        → get_elem? st.samples i ≡ some s
        → (s.request_id ≡ uuid i) × (input_len s ≤ st.max_saved_finetuning_tokens)
    counted : length st.samples ≡ loaded
    totalled : st.total_tokens_in_memory ≡ tokens_in st.samples

  abbrev settings : FinetuningStore → Option ℕ × ℕ × ℕ × ℕ
  settings st = (st.max_prepare, st.max_saved_finetuning_tokens, st.total_epochs, st.current_epoch)

  add_sample-IsReading :
      (st : FinetuningStore) (loaded : ℕ) (s : FinetuningSample)
      → IsReading st loaded
      → s.request_id ≡ uuid (length st.samples)
      → input_len s ≤ st.max_saved_finetuning_tokens
      → IsReading (add_sample st s) (suc loaded)
  unfolding add_sample
  add_sample-IsReading st loaded s r e fits = record {
    catalog = record {
      filed = λ i t at.
          let new = index_of-set_index st.id2idx s.request_id (length st.samples) t.request_id in
          let here = get_elem?-snoc st.samples s i in
          elim (Bool-cases (length st.samples == i)) [
            | inl last ↦ ground (arith, new, here)
            | inr old ↦
                let at' : get_elem? st.samples i ≡ some t = ground (arith, here) in
                let lt = get_elem?-lt st.samples i at' in
                ground (
                  arith,
                  new,
                  r.catalog.filed i t at',
                  r.drawn i t at',
                  distinct (length st.samples) i,
                )
          ];
      known = λ q i at.
          let new = index_of-set_index st.id2idx s.request_id (length st.samples) q in
          elim (Bool-cases (s.request_id == q)) [
            | inl mine ↦ (s, ground (arith, new, get_elem?-snoc st.samples s i), ground arith)
            | inr other ↦
                let (t, at', e') = r.catalog.known q i (ground (arith, new)) in
                let lt = get_elem?-lt st.samples i at' in
                (t, ground (arith, get_elem?-snoc st.samples s i), e')
          ];
    };
    drawn = λ i t at. ground (arith, get_elem?-snoc st.samples s i, r.drawn i t);
    counted = omega (arith, length-append st.samples (s ∷ []), r.counted);
    totalled = omega (arith, tokens_in-snoc st.samples s, r.totalled);
  }

  add_sample-settings :
      (st : FinetuningStore) (s : FinetuningSample) → settings (add_sample st s) ≡ settings st
  unfolding add_sample
  add_sample-settings st s = refl

  -- What a line does: nothing, or one more sample that fits.
  read_line_cases :
      (st : FinetuningStore) (line : String)
      → (read_line strip tokenize uuid st line ≡ none)
        ⊎ ((read_line strip tokenize uuid st line
              ≡ some (add_sample st (sample_of strip tokenize uuid st line)))
            × (length (tokenize (strip line)) ≤ st.max_saved_finetuning_tokens))
  unfolding read_line
  read_line_cases st line = elim (Bool-cases (str_eq (strip line) "")) [
    | inl blank ↦ inl (rw blank)
    | inr text ↦
        elim (Bool-cases (ltb st.max_saved_finetuning_tokens (length (tokenize (strip line))))) [
          | inl long ↦ inl (rw (text, long))
          | inr fits ↦ inr (rw (text, fits), ground arith)
        ]
  ]

  -- What the corpus loop guarantees.
  record HasRead (st : FinetuningStore) (loaded : ℕ) (r : FinetuningStore × ℕ) : Type 0 where
    reading : IsReading r.0 r.1
    same : settings r.0 ≡ settings st
    -- At most the samples that `max_prepare` asks for, if there is room for one more.
    bounded : (m : ℕ) → st.max_prepare ≡ some m → loaded < m → r.1 ≤ m

  read_lines-HasRead :
      (lines : List String) (st : FinetuningStore) (loaded : ℕ)
      → IsReading st loaded
      → HasRead st loaded (read_lines strip tokenize uuid st loaded lines)
  unfolding read_lines
  read_lines-HasRead [] st loaded r = record {
    reading = r;
    same = refl;
    bounded = λ m e h. omega arith;
  }
  read_lines-HasRead (line ∷ lines) st loaded r = elim (read_line_cases st line) [
    | inl skip ↦ rw (skip, read_lines) (read_lines-HasRead lines st loaded r)
    | inr (keep, fits) ↦
        let st' = add_sample st (sample_of strip tokenize uuid st line) in
        let r' =
          add_sample-IsReading st loaded (sample_of strip tokenize uuid st line) r refl fits in
        let e : settings st' ≡ settings st =
          add_sample-settings st (sample_of strip tokenize uuid st line) in
        elim (Bool-cases (is_enough st.max_prepare (suc loaded))) [
          | inl stop ↦
              rw (keep, stop, read_lines)
                (record { reading = r'; same = e; bounded = λ m e' h. omega arith })
          | inr more ↦
              let h' = read_lines-HasRead lines st' (suc loaded) r' in
              rw (keep, more, read_lines)
                (record {
                  reading = h'.reading;
                  same = h'.same ∙ e;
                  bounded = λ m e' h. h'.bounded m (ap (λ x. x.0) e ∙ e') (ground arith);
                })
        ]
  ]

  -- Loading a corpus into a new store gives a valid store in which every sample fits the activation
  -- buffer, the count returned is the number of samples, the token total is their sum, and
  -- `max_prepare` (if it asks for any) bounds the count.
  pub load-IsValid :
      (path : String) (adapter : Option String) (epochs cap : ℕ) (max_prepare : Option ℕ)
      (lines : List String)
      → Loads cap max_prepare
          (load strip tokenize uuid (init (some path) adapter epochs cap max_prepare) lines)
  unfolding load init index_of tokens_in
  load-IsValid path adapter epochs cap max_prepare lines =
      let st = init (some path) adapter epochs cap max_prepare in
      let start : IsReading st 0 = record {
        catalog = record { filed = λ i s at. cc; known = λ r i at. cc };
        drawn = λ i s at. cc;
        counted = refl;
        totalled = refl;
      } in
      let h = read_lines-HasRead lines st 0 start in
      (
        fresh-IsValid (read_lines strip tokenize uuid st 0 lines).0 h.reading.catalog,
        λ i s at. ground (arith, h.reading.drawn i s at, ap (λ x. x.1) h.same),
        sym h.reading.counted,
        h.reading.totalled,
        λ m e lt. h.bounded m e lt,
      )

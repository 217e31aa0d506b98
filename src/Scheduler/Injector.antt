-- ===== src/Scheduler/Injector.antt =====
-- deltaserve/ft_injector.py, `next_ft_requests`: packing samples into a token budget and making
-- requests of them. The `while` loop is on fuel, and a budget's worth of it is enough where every
-- sample has a token.
use delta_serve_v_llm.Common.{
  ℕ, zero, suc, ◌+◌, ◌-◌, ◌<◌, ◌≤◌, ◌≡◌, refl, ap, ◌∙◌, sym, Bool, true, not, ◌||◌, Option, none,
  some, List, [], ◌∷◌, ◌++◌, map, arith, ◌==◌, ltb, if◌then◌else◌, get_elem?, sum, sum-append,
  is_some, Bool-cases, Option-cases, inl, inr,
}
use mathlib.Core.Path.{subst}
use mathlib.Core.List.{map-append}
use delta_serve_v_llm.Store.{
  FinetuningSample, FinetuningStore, input_len, pop_best_under, has_next, advance_epoch, claim,
  reset_epoch_structures,
}
use delta_serve_v_llm.Store.Valid.{IsValid}
use delta_serve_v_llm.Store.Select.{IsBest, pop_best_under-IsBest}
use delta_serve_v_llm.Store.Settle.{advance_epoch-IsValid}
use delta_serve_v_llm.Scheduler.{FtRequest, make_requests}

-- The loop's first test: whether there is a sample, in this epoch or in the next.
unfoldable pub refill : FinetuningStore → FinetuningStore × Bool
unfolding has_next advance_epoch
refill st = if has_next st then (st, true) else advance_epoch st

-- One round of the loop: the store, and the sample to take, or none where the loop ends.
unfoldable pub choose :
    FinetuningStore → ℕ → List FinetuningSample → FinetuningStore × Option FinetuningSample
unfolding refill pop_best_under
choose st remaining popped =
    if not (ltb 0 remaining)
    then (st, none)
    else if (refill st).1
    then ((refill st).0, pop_best_under (refill st).0 remaining popped)
    else ((refill st).0, none)

unfoldable pub pack :
    ℕ → FinetuningStore → ℕ → List FinetuningSample → FinetuningStore × List FinetuningSample
unfolding choose
pack zero st remaining popped = (st, popped)
pack (suc fuel) st remaining popped = elim (choose st remaining popped).1 [
  | none ↦ ((choose st remaining popped).0, popped)
  | some s ↦ pack fuel (choose st remaining popped).0 (remaining - input_len s) (popped ++ (s ∷ []))
]

-- Claim what was packed and make its requests.
unfoldable pub emit :
    ℕ → FinetuningStore × List FinetuningSample → FinetuningStore × (ℕ × List FtRequest)
unfolding claim make_requests
emit counter (st, []) = (st, (counter, []))
emit counter (st, s ∷ ss) = ((claim st (s ∷ ss)).0, make_requests counter (s ∷ ss))

unfoldable pub next_ft_requests : FinetuningStore → ℕ → ℕ → FinetuningStore × (ℕ × List FtRequest)
unfolding pack emit
next_ft_requests st counter token_budget =
    if token_budget == 0 || not (is_some st.data_path)
    then (st, (counter, []))
    else emit counter (pack token_budget st token_budget [])

abbrev pub tokens : List FinetuningSample → ℕ
tokens ss = sum (map input_len ss)

-- Every sample of the store has a token.
abbrev pub IsFilled : FinetuningStore → Type 0
IsFilled st = (i : ℕ) (s : FinetuningSample) → get_elem? st.samples i ≡ some s → 0 < input_len s

refill-IsValid : (st : FinetuningStore) → IsValid st → IsValid (refill st).0
unfolding refill
refill-IsValid st v = elim (Bool-cases (has_next st)) [
  | inl e ↦ rw e v
  | inr e ↦ rw e (advance_epoch-IsValid st v)
]

refill-samples : (st : FinetuningStore) → (refill st).0.samples ≡ st.samples
unfolding refill advance_epoch reset_epoch_structures
refill-samples st = ground arith

tokens_nil : tokens [] ≡ 0
unfolding sum
tokens_nil = refl

tokens-append :
    (ss : List FinetuningSample) (s : FinetuningSample)
    → tokens (ss ++ (s ∷ [])) ≡ tokens ss + input_len s
unfolding sum
tokens-append ss s =
    ap sum (map-append input_len ss (s ∷ []))
    ∙ sum-append (map input_len ss) (input_len s ∷ [])
    ∙ omega arith

refill-IsFilled : (st : FinetuningStore) → IsFilled st → IsFilled (refill st).0
refill-IsFilled st f i s e =
    f i s (ap (λ (l : List FinetuningSample). get_elem? l i) (sym (refill-samples st)) ∙ e)

best-fits :
    (st : FinetuningStore) (remaining : ℕ) (popped : List FinetuningSample) {s : FinetuningSample}
    → IsValid st
    → pop_best_under st remaining popped ≡ some s
    → (input_len s ≤ remaining) × ((i : ℕ) × (get_elem? st.samples i ≡ some s))
best-fits st remaining popped {s} v e =
    let q : IsBest st popped remaining (some s) =
      subst (λ (o : Option FinetuningSample). IsBest st popped remaining o) e
        (pop_best_under-IsBest st popped v remaining) in
    (q.1, (q.0.0, q.0.1.stored))

-- A round keeps the store valid and filled, and takes a sample only with room left, and one that
-- fits.
record Chosen (remaining : ℕ) (c : FinetuningStore × Option FinetuningSample) : Type 0 where
  valid : IsValid c.0
  filled : IsFilled c.0
  fits : (s : FinetuningSample) → c.1 ≡ some s → (0 < input_len s) × (input_len s ≤ remaining)

choose-Chosen :
    (st : FinetuningStore) (remaining : ℕ) (popped : List FinetuningSample)
    → IsValid st
    → IsFilled st
    → Chosen remaining (choose st remaining popped)
unfolding choose
choose-Chosen st remaining popped v f = elim (Bool-cases (ltb 0 remaining)) [
  | inr e ↦ rw e (record { valid = v; filled = f; fits = λ s h. absurd (ground arith) })
  | inl e ↦
      let v' = refill-IsValid st v in
      let f' = refill-IsFilled st f in
      elim (Bool-cases (refill st).1) [
        | inr g ↦
            rw (e, g) (record { valid = v'; filled = f'; fits = λ s h. absurd (ground arith) })
        | inl g ↦
            rw (e, g)
              (record {
                valid = v';
                filled = f';
                fits = λ s h.
                    let q = best-fits (refill st).0 remaining popped v' h in
                    (f' q.1.0 s q.1.1, q.0);
              })
      ]
]

pack-within :
    (fuel : ℕ) (st : FinetuningStore) (remaining : ℕ) (popped : List FinetuningSample)
    → IsValid st
    → IsFilled st
    → tokens (pack fuel st remaining popped).1 ≤ tokens popped + remaining
unfolding pack
pack-within zero st remaining popped v f = omega arith
pack-within (suc fuel) st remaining popped v f =
    let c = choose-Chosen st remaining popped v f in
    elim (Option-cases (choose st remaining popped).1) [
      | inl n ↦ rw (n, pack) (omega arith)
      | inr (s, n) ↦
          rw (n, pack)
            (omega (
              arith,
              pack-within fuel (choose st remaining popped).0 (remaining - input_len s)
                  (popped ++ (s ∷ [])) c.valid c.filled,
              tokens-append popped s,
              c.fits s n,
            ))
    ]

-- A round with nothing left takes nothing.
choose_spent :
    (st : FinetuningStore) (popped : List FinetuningSample) → choose st 0 popped ≡ (st, none)
unfolding choose
choose_spent st popped = refl

pack_enough :
    (fuel more : ℕ) (st : FinetuningStore) (remaining : ℕ) (popped : List FinetuningSample)
    → IsValid st
    → IsFilled st
    → remaining ≤ fuel
    → pack (fuel + more) st remaining popped ≡ pack fuel st remaining popped
unfolding pack
pack_enough zero zero st remaining popped v f h = refl
pack_enough zero (suc more) st remaining popped v f h =
    let z : remaining ≡ 0 = omega arith in
    let c : choose st remaining popped ≡ (st, none) =
      ap (λ (t : ℕ). choose st t popped) z ∙ choose_spent st popped in
    let e : 0 + suc more ≡ suc more = omega arith in
    let n : (choose st remaining popped).1 ≡ none =
      ap (λ (t : FinetuningStore × Option FinetuningSample). t.1) c in
    let stops : pack (suc more) st remaining popped ≡ ((choose st remaining popped).0, popped) =
      rw (n, pack) refl in
    rw e (
      stops
      ∙ ap {B = FinetuningStore × List FinetuningSample}
          (λ (t : FinetuningStore × Option FinetuningSample). (t.0, popped)) c)
pack_enough (suc fuel) more st remaining popped v f h =
    let c = choose-Chosen st remaining popped v f in
    let e : suc fuel + more ≡ suc (fuel + more) = omega arith in
    elim (Option-cases (choose st remaining popped).1) [
      | inl n ↦ rw (e, n, pack) refl
      | inr (s, n) ↦
          rw (e, n, pack)
            (pack_enough fuel more (choose st remaining popped).0 (remaining - input_len s)
              (popped ++ (s ∷ [])) c.valid c.filled (omega (arith, c.fits s n)))
    ]

-- On a valid store whose samples all have tokens, the packing loop ends by itself within as many
-- rounds as the budget has tokens, since more fuel changes nothing, and what it packs fits the
-- budget.
pub pack-ends :
    (st : FinetuningStore) (token_budget more : ℕ)
    → IsValid st
    → IsFilled st
    → (pack (token_budget + more) st token_budget [] ≡ pack token_budget st token_budget [])
      × (tokens (pack token_budget st token_budget []).1 ≤ token_budget)
pack-ends st token_budget more v f = (
  pack_enough token_budget more st token_budget [] v f (omega arith),
  omega (arith, pack-within token_budget st token_budget [] v f, tokens_nil),
)

-- ===== src/Admission/Loop.antt =====
-- The greedy loop of `admit_ft_to_step` in deltaserve/ft_scheduler.py.
use delta_serve_v_llm.Common.{
  ℕ, zero, suc, ◌+◌, ◌<◌, ◌≤◌, ◌≡◌, refl, Bool, true, false, ◌||◌, ◌⊎◌, inl, inr, Option, none,
  some, List, [], ◌∷◌, ◌++◌, arith, ltb, leb, length, length-append, get_elem?, Bool-cases,
  Option-cases,
}
use delta_serve_v_llm.Estimator.Features.{StepFeatures}
use delta_serve_v_llm.Store.{
  FinetuningSample, FinetuningStore, input_len, pop_next, advance_epoch, reset_epoch_structures,
}
use delta_serve_v_llm.Store.Valid.{IsValid}
use delta_serve_v_llm.Store.Select.{pop_next-IsSmallest, IsSmallest}
use delta_serve_v_llm.Store.Settle.{advance_epoch-IsValid}
use delta_serve_v_llm.Admission.{
  Growth, raised, ended, add_candidate, grow, ensure_next, is_full, total_len, with_samples,
}

-- Every sample of the corpus has a token.
abbrev pub HasTokens : FinetuningStore → Type 0
HasTokens st = (i : ℕ) (s : FinetuningSample) → get_elem? st.samples i ≡ some s → 0 < input_len s

ensure_next-IsValid :
    (st : FinetuningStore)
    → IsValid st
    → IsValid (ensure_next st).0 × ((ensure_next st).0.samples ≡ st.samples)
unfolding advance_epoch reset_epoch_structures
ensure_next-IsValid st v = (ground (arith, advance_epoch-IsValid st v), ground arith)

total_len-snoc :
    (ss : List FinetuningSample) (s : FinetuningSample)
    → total_len (ss ++ s ∷ []) ≡ total_len ss + input_len s
unfolding total_len
total_len-snoc [] s = omega arith
total_len-snoc (x ∷ ss) s = omega (arith, total_len-snoc ss s)

-- What the loop keeps: its count of tokens, the limit, the limit on samples, and the check of the
-- step with all that is admitted.
pub record IsGrown (limit : ℕ) (samples : Option ℕ) (ok : StepFeatures → Option Bool)
    (f : StepFeatures) (g : Growth) : Type 0 where
  pub counted : g.tokens ≡ total_len g.admitted
  pub capped : g.tokens ≤ limit
  pub limited : (n : ℕ) → samples ≡ some n → length g.admitted ≤ n
  pub checked : (g.admitted ≡ []) ⊎ (ok (with_samples f g.admitted g.tokens) ≡ some true)
  pub valid : IsValid g.store

-- What `pop_next` returns is a sample of the corpus.
popped-stored :
    (st : FinetuningStore) (exclude : List FinetuningSample) (s : FinetuningSample)
    → IsValid st
    → pop_next st exclude ≡ some s
    → (i : ℕ) × (get_elem? st.samples i ≡ some s)
popped-stored st exclude s v e =
    let found : IsSmallest st exclude (some s) = rw e at (pop_next-IsSmallest st exclude v) in
    (found.0.0, found.0.1.stored)

module _ {limit : ℕ} {samples : Option ℕ} {ok : StepFeatures → Option Bool} {f : StepFeatures}
    {g : Growth} (v : IsGrown limit samples ok f g) {st : FinetuningStore}
    (valid : IsValid st) where
  moved-IsGrown : IsGrown limit samples ok f (record g { store = st })
  moved-IsGrown = record {
    counted = v.counted;
    capped = v.capped;
    limited = v.limited;
    checked = v.checked;
    valid = valid;
  }

  added-IsGrown :
      (s : FinetuningSample)
      → is_full samples (length g.admitted) ≡ false
      → g.tokens + input_len s ≤ limit
      → ok (with_samples f (g.admitted ++ s ∷ []) (g.tokens + input_len s)) ≡ some true
      → IsGrown limit samples ok f (add_candidate g st s)
  added-IsGrown s room fits fine = record {
    counted = omega (arith, v.counted, total_len-snoc g.admitted s);
    capped = fits;
    limited = λ n e. ground (arith, length-append g.admitted (s ∷ []));
    checked = inr fine;
    valid = valid;
  }

verdict : (o : Option Bool) → (o ≡ none) ⊎ ((o ≡ some true) ⊎ (o ≡ some false))
verdict none = inl refl
verdict (some true) = inr (inl refl)
verdict (some false) = inr (inr refl)

-- Enough fuel: the loop ends, unless the check of a step raises.
pub grow-IsGrown :
    (fuel limit : ℕ) (samples : Option ℕ) (ok : StepFeatures → Option Bool) (f : StepFeatures)
    (g : Growth)
    → IsGrown limit samples ok f g
    → HasTokens g.store
    → limit < fuel + g.tokens
    → ((grow fuel limit samples ok f g ≡ raised) × (h : StepFeatures) × (ok h ≡ none))
      ⊎ ((r : Growth) × (grow fuel limit samples ok f g ≡ ended r) × IsGrown limit samples ok f r)
unfolding grow
grow-IsGrown zero limit samples ok f g v h e = absurd (omega (arith, v.capped))
grow-IsGrown (suc fuel) limit samples ok f g v h e =
    let (st, alive) = ensure_next g.store in
    let (valid, same_samples) = ensure_next-IsValid g.store v.valid in
    let g' : Growth = record g { store = st } in
    let v' : IsGrown limit samples ok f g' = moved-IsGrown v valid in
    elim (Bool-cases (is_full samples (length g.admitted) || leb limit g.tokens)) [
      | inl full ↦ inr (g, rw full refl, v)
      | inr room ↦ elim (Bool-cases alive) [
        | inr dead ↦ inr (g, rw (room, dead) refl, v)
        | inl going ↦ elim (Option-cases (pop_next st g.admitted)) [
          | inl e0 ↦ inr (g', rw (room, going, e0) refl, v')
          | inr (s, e1) ↦ elim (Bool-cases (ltb limit (g.tokens + input_len s))) [
            | inl over ↦ inr (g', rw (room, going, e1, over) refl, v')
            | inr under ↦
                let more = add_candidate g st s in
                elim (verdict (ok (with_samples f more.admitted more.tokens))) [
                  | inl thrown ↦ inl (
                    rw (room, going, e1, under, thrown) refl,
                    with_samples f more.admitted more.tokens,
                    thrown,
                  )
                  | inr (inr slow) ↦ inr (g', rw (room, going, e1, under, slow) refl, v')
                  | inr (inl fine) ↦
                      let stored = popped-stored st g.admitted s valid e1 in
                      let ih =
                        grow-IsGrown fuel limit samples ok f more
                          (added-IsGrown v valid s (ground arith) (ground arith) fine)
                          (rw same_samples h)
                          (omega (arith, h stored.0 s (rw same_samples at stored.1))) in
                      elim ih [
                        | inl (er, k, z) ↦ inl (rw (room, going, e1, under, fine) er, k, z)
                        | inr (r, er, vr) ↦ inr (r, rw (room, going, e1, under, fine) er, vr)
                      ]
                ]
          ]
        ]
      ]
    ]

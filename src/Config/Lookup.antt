-- ===== src/Config/Lookup.antt =====
-- That the merged finetuning settings of deltaserve/config_loader.py are the ones the sections
-- hold.
use delta_serve_v_llm.Common.{
  ℕ, ◌≡◌, ◌⊎◌, inl, inr, refl, ap, ◌∙◌, sym, Bool, true, false, Option, none, some, List, [], ◌∷◌,
  arith, ◌==◌, if◌then◌else◌, is_some, Bool-cases,
}
use delta_serve_v_llm.Config.{
  Section, finetune, throttles, slo, debug, set_key, body_of, find, Merged, merged, duplicate,
  merge_body, merge_sections, finetune_sections, finetune_kwargs, value_in, finetune_value,
}

abbrev or_else : {V : Type 0} → Option V → Option V → Option V
or_else (some v) o = some v
or_else none o = o

find-set_key :
    {V : Type 0} (out : List (ℕ × V)) (k : ℕ) (v : V) (key : ℕ)
    → find (set_key out k v) key ≡ (if k == key then some v else find out key)
unfolding find set_key
find-set_key [] k v key = refl
find-set_key ((k', v') ∷ out) k v key = ground (arith, find-set_key out k v key)

Merged-cases :
    {V : Type 0} (m : Merged V)
    → ((out : List (ℕ × V)) × (m ≡ merged out)) ⊎ ((key : ℕ) × (m ≡ duplicate key))
Merged-cases (merged out) = inl (out, refl)
Merged-cases (duplicate key) = inr (key, refl)

-- The settings of a merge, none of a failed one.
abbrev settings : {V : Type 0} → Merged V → List (ℕ × V)
settings (merged out) = out
settings (duplicate key) = []

abbrev is_merged : {V : Type 0} → Merged V → Bool
is_merged (merged out) = true
is_merged (duplicate key) = false

true≢false : true ≡ false → ⊥
true≢false e = cc

same : (k key : ℕ) → (k == key) ≡ true → k ≡ key
same k key e = ground arith

or_else-none : {V : Type 0} (o : Option V) → o ≡ or_else o none
or_else-none none = refl
or_else-none (some v) = refl

none_of : {V : Type 0} (o : Option V) → is_some o ≡ false → o ≡ none
none_of none h = refl
none_of (some v) h = absurd (ground arith)

module _ {V : Type 0} (retired : ℕ → Bool) where
  step_retired :
      (k : ℕ) (v : V) (body out : List (ℕ × V))
      → retired k ≡ true
      → merge_body retired body out ≡ merge_body retired ((k, v) ∷ body) out
  unfolding merge_body
  step_retired k v body out t = rw t refl

  step_duplicate :
      (k : ℕ) (v : V) (body out : List (ℕ × V))
      → retired k ≡ false
      → is_some (find out k) ≡ true
      → merge_body retired ((k, v) ∷ body) out ≡ duplicate k
  unfolding merge_body
  step_duplicate k v body out t d = rw (t, d) refl

  step_taken :
      (k : ℕ) (v : V) (body out : List (ℕ × V))
      → retired k ≡ false
      → is_some (find out k) ≡ false
      → merge_body retired body (set_key out k v) ≡ merge_body retired ((k, v) ∷ body) out
  unfolding merge_body
  step_taken k v body out t d = rw (t, d) refl

  merge_body-find :
      (body out out' : List (ℕ × V)) (key : ℕ)
      → retired key ≡ false
      → merge_body retired body out ≡ merged out'
      → find out' key ≡ or_else (find out key) (find body key)
  unfolding merge_body find
  merge_body-find [] out out' key r e =
      ap (λ (m : Merged V). find (settings m) key) (sym e) ∙ or_else-none (find out key)
  merge_body-find ((k, v) ∷ body) out out' key r e = elim (Bool-cases (retired k)) [
    | inl t ↦
        let ne : (k == key) ≡ false = elim (Bool-cases (k == key)) [
          | inl q ↦ absurd (true≢false (sym t ∙ ap retired (same k key q) ∙ r))
          | inr q ↦ q
        ] in
        rw ne (merge_body-find body out out' key r (step_retired k v body out t ∙ e))
    | inr t ↦ elim (Bool-cases (is_some (find out k))) [
      | inl d ↦ absurd (true≢false (ap is_merged (sym e ∙ step_duplicate k v body out t d)))
      | inr d ↦
          let ih =
            merge_body-find body (set_key out k v) out' key r (step_taken k v body out t d ∙ e) in
          elim (Bool-cases (k == key)) [
            | inl q ↦
                let unseen : find out key ≡ none =
                  none_of (find out key)
                    (ap (λ (n : ℕ). is_some (find out n)) (sym (same k key q)) ∙ d) in
                ground (arith, ih, find-set_key out k v key, unseen)
            | inr q ↦ ground (arith, ih, find-set_key out k v key)
          ]
    ]
  ]

  -- A key that is not retired and was not there before is where the settings take it from.
  merge_body-new :
      (body out out' : List (ℕ × V)) (key : ℕ)
      → retired key ≡ false
      → merge_body retired body out ≡ merged out'
      → is_some (find body key) ≡ true
      → find out key ≡ none
  unfolding find
  merge_body-new [] out out' key r e h = absurd (ground arith)
  merge_body-new ((k, v) ∷ body) out out' key r e h = elim (Bool-cases (retired k)) [
    | inl t ↦
        let ne : (k == key) ≡ false = elim (Bool-cases (k == key)) [
          | inl q ↦ absurd (true≢false (sym t ∙ ap retired (same k key q) ∙ r))
          | inr q ↦ q
        ] in
        merge_body-new body out out' key r (step_retired k v body out t ∙ e) (rw ne at h)
    | inr t ↦ elim (Bool-cases (is_some (find out k))) [
      | inl d ↦ absurd (true≢false (ap is_merged (sym e ∙ step_duplicate k v body out t d)))
      | inr d ↦ elim (Bool-cases (k == key)) [
        | inl q ↦
            none_of (find out key) (ap (λ (n : ℕ). is_some (find out n)) (sym (same k key q)) ∙ d)
        | inr q ↦
            let ih =
              merge_body-new body (set_key out k v) out' key r (step_taken k v body out t d ∙ e)
                (rw q at h) in
            ground (arith, ih, find-set_key out k v key)
      ]
    ]
  ]

  merge_body_nil : (out : List (ℕ × V)) → merge_body retired [] out ≡ merged out
  unfolding merge_body
  merge_body_nil out = refl

  sections_step :
      (config : List (Section × List (ℕ × V))) (s : Section) (ss : List Section)
      (out mid : List (ℕ × V))
      → merge_body retired (body_of config s) out ≡ merged mid
      → merge_sections retired config ss mid ≡ merge_sections retired config (s ∷ ss) out
  unfolding merge_sections
  sections_step config s ss out mid m = rw (m, merge_sections) refl

  sections_failed :
      (config : List (Section × List (ℕ × V))) (s : Section) (ss : List Section)
      (out : List (ℕ × V)) (k : ℕ)
      → merge_body retired (body_of config s) out ≡ duplicate k
      → merge_sections retired config (s ∷ ss) out ≡ duplicate k
  unfolding merge_sections
  sections_failed config s ss out k m = rw (m, merge_sections) refl

  merge_sections-find :
      (config : List (Section × List (ℕ × V))) (ss : List Section) (out out' : List (ℕ × V))
      (key : ℕ)
      → retired key ≡ false
      → merge_sections retired config ss out ≡ merged out'
      → find out' key ≡ or_else (find out key) (value_in config ss key)
  unfolding merge_sections value_in
  merge_sections-find config [] out out' key r e = merge_body-find [] out out' key r (nothing e)
    where
      nothing : merged out ≡ merged out' → merge_body retired [] out ≡ merged out'
      nothing q = merge_body_nil out ∙ q
  merge_sections-find config (s ∷ ss) out out' key r e =
      elim (Merged-cases (merge_body retired (body_of config s) out)) [
        | inl (mid, m) ↦
            merge_sections-find config ss mid out' key r (rest mid m)
            ∙ ap (λ (o : Option V). or_else o (value_in config ss key))
                (merge_body-find (body_of config s) out mid key r m)
            ∙ assoc (find out key) (find (body_of config s) key) (value_in config ss key)
        | inr (k, m) ↦
            absurd (true≢false (ap is_merged (sym e ∙ sections_failed config s ss out k m)))
      ]
    where
      rest :
          (mid : List (ℕ × V))
          → merge_body retired (body_of config s) out ≡ merged mid
          → merge_sections retired config ss mid ≡ merged out'
      rest mid m = sections_step config s ss out mid m ∙ e

      assoc :
          (a b c : Option V)
          → or_else (or_else a b) c ≡ or_else a (elim b [ some v ↦ some v | none ↦ c ])
      assoc (some x) b c = refl
      assoc none (some x) c = refl
      assoc none none c = refl

-- Some section of the list has the key.
abbrev Among : Section → List Section → Type 0
Among s [] = ⊥
Among s (t ∷ ts) = (s ≡ t) ⊎ Among s ts

module _ {V : Type 0} (retired : ℕ → Bool) where
  -- What a merged section has is in the settings, whichever section of the list it is.
  merge_sections-body :
      (config : List (Section × List (ℕ × V))) (ss : List Section) (out out' : List (ℕ × V))
      (key : ℕ) (s : Section) (v : V)
      → retired key ≡ false
      → merge_sections retired config ss out ≡ merged out'
      → Among s ss
      → find (body_of config s) key ≡ some v
      → find out' key ≡ some v
  merge_sections-body config [] out out' key s v r e m h = absurd m
  merge_sections-body config (t ∷ ts) out out' key s v r e m h =
      elim (Merged-cases (merge_body retired (body_of config t) out)) [
        | inr (k, d) ↦
            absurd (true≢false (ap is_merged (sym e ∙ sections_failed retired config t ts out k d)))
        | inl (mid, d) ↦
            let rest = sections_step retired config t ts out mid d ∙ e in
            elim m [
              | inr later ↦ merge_sections-body config ts mid out' key s v r rest later h
              | inl here ↦
                  let own : find (body_of config t) key ≡ some v =
                    ap (λ (u : Section). find (body_of config u) key) (sym here) ∙ h in
                  let unseen =
                    merge_body-new retired (body_of config t) out mid key r d
                      (ap (λ (o : Option V). is_some o) own) in
                  let taken = merge_body-find retired (body_of config t) out mid key r d in
                  merge_sections-find retired config ts mid out' key r rest
                  ∙ ap (λ (o : Option V). or_else o (value_in config ts key)) taken
                  ∙ ap
                      (λ (o : Option V).
                        or_else (or_else o (find (body_of config t) key)) (value_in config ts key))
                      unseen
                  ∙ ap (λ (o : Option V). or_else (or_else none o) (value_in config ts key)) own
            ]
      ]

-- The four sections of the finetuning settings.
abbrev pub IsFinetuning : Section → Type 0
IsFinetuning s = (s ≡ finetune) ⊎ ((s ≡ throttles) ⊎ ((s ≡ slo) ⊎ (s ≡ debug)))

IsFinetuning-Among : (s : Section) → IsFinetuning s → Among s finetune_sections
IsFinetuning-Among s (inl e) = inl e
IsFinetuning-Among s (inr (inl e)) = inr (inl e)
IsFinetuning-Among s (inr (inr (inl e))) = inr (inr (inl e))
IsFinetuning-Among s (inr (inr (inr e))) = inr (inr (inr (inl e)))

-- The merged settings are the settings that the sections hold: where `finetune_kwargs` does not
-- fail, it gives every key that is not retired the value that `finetune_value` finds for it, and no
-- value where `finetune_value` has only its default; and that is the key's value in whichever of
-- the sections finetune, throttles, slo and debug has it.
pub finetune_kwargs-finetune_value :
    {V : Type 0} (retired : ℕ → Bool) (config : List (Section × List (ℕ × V))) {out : List (ℕ × V)}
    (key : ℕ)
    → finetune_kwargs retired config ≡ merged out
    → retired key ≡ false
    → (find out key ≡ finetune_value config key)
      × ((s : Section) (v : V)
          → IsFinetuning s
          → find (body_of config s) key ≡ some v
          → find out key ≡ some v)
unfolding finetune_kwargs finetune_value find
finetune_kwargs-finetune_value retired config {out} key e r = (
  merge_sections-find retired config finetune_sections [] out key r e,
  λ s v f h.
      merge_sections-body retired config finetune_sections [] out key s v r e
        (IsFinetuning-Among s f) h,
)

-- ===== src/Config/Tests.antt =====
-- A configuration with a stray and a retired key, and the theorem there.
use delta_serve_v_llm.Common.{ℕ, some, ◌≡◌, refl, Bool, ◌==◌, List, [], ◌∷◌}
use delta_serve_v_llm.Config.{
  Section, finetune, throttles, engine, find, set_key, merged, merge_body, merge_sections, body_of,
  finetune_kwargs, finetune_value,
}
use delta_serve_v_llm.Config.Lookup.{IsFinetuning, finetune_kwargs-finetune_value}

abbrev is_retired : ℕ → Bool
is_retired key = key == 9

abbrev config : List (Section × List (ℕ × ℕ))
config =
    (throttles, (3, 30) ∷ (9, 1) ∷ [])
    ∷ (engine 0, (4, 40) ∷ [])
    ∷ (finetune, (1, 10) ∷ (2, 20) ∷ [])
    ∷ []

config_merges : finetune_kwargs is_retired config ≡ merged ((1, 10) ∷ (2, 20) ∷ (3, 30) ∷ [])
unfolding finetune_kwargs merge_sections merge_body body_of find set_key
config_merges = refl

finetune_kwargs-finetune_value_example :
    (find ((1, 10) ∷ (2, 20) ∷ (3, 30) ∷ []) 3 ≡ finetune_value config 3)
    × ((s : Section) (v : ℕ)
        → IsFinetuning s
        → find (body_of config s) 3 ≡ some v
        → find ((1, 10) ∷ (2, 20) ∷ (3, 30) ∷ []) 3 ≡ some v)
finetune_kwargs-finetune_value_example =
    finetune_kwargs-finetune_value is_retired config 3 config_merges refl

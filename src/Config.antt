-- ===== src/Config.antt =====
-- deltaserve/config_loader.py: the sections of a loaded configuration folded into the finetuning
-- settings and the engine's. A key is a number; which keys are retired and which section a key
-- belongs to are the tables of the file, as arguments. Reading the YAML and making the objects of
-- vLLM have no model.
pub mod Lookup
mod Tests
use delta_serve_v_llm.Common.{
  ℕ, Bool, true, false, not, ◌&&◌, ◌||◌, Option, none, some, List, [], ◌∷◌, ◌++◌, ◌==◌,
  if◌then◌else◌, is_some,
}

-- The four finetuning sections, the two passed through, and any other.
pub data Section : Type 0 where
  finetune throttles slo debug server adapters : Section
  engine : ℕ → Section

abbrev pub same_section : Section → Section → Bool
same_section finetune finetune = true
same_section throttles throttles = true
same_section slo slo = true
same_section debug debug = true
same_section server server = true
same_section adapters adapters = true
same_section (engine i) (engine j) = i == j
same_section _ _ = false

-- A section that is not merged into the engine's settings.
abbrev pub is_special : Section → Bool
is_special (engine i) = false
is_special _ = true

module _ {V : Type 0} where
  unfoldable pub find : List (ℕ × V) → ℕ → Option V
  find [] key = none
  find ((k, v) ∷ rest) key = if k == key then some v else find rest key

  -- `out[key] = value`: in its place where the key is there, else at the end.
  unfoldable pub set_key : List (ℕ × V) → ℕ → V → List (ℕ × V)
  set_key [] key value = (key, value) ∷ []
  set_key ((k, v) ∷ rest) key value =
      let kept : List (ℕ × V) = (k, v) ∷ set_key rest key value in
      if k == key then (key, value) ∷ rest else kept

  -- `config.get(section) or {}`
  unfoldable pub body_of : List (Section × List (ℕ × V)) → Section → List (ℕ × V)
  body_of [] s = []
  body_of ((t, body) ∷ rest) s = if same_section t s then body else body_of rest s

-- A dict, or the key of the ValueError.
pub data Merged (V : Type 0) : Type 0 where
  merged : List (ℕ × V) → Merged V
  duplicate : ℕ → Merged V

module _ {V : Type 0} (retired : ℕ → Bool) where
  -- The loop over one section's entries, into the settings so far.
  unfoldable pub merge_body : List (ℕ × V) → List (ℕ × V) → Merged V
  unfolding find set_key
  merge_body [] out = merged out
  merge_body ((key, value) ∷ rest) out =
      let skipped : Merged V = merge_body rest out in
      let taken : Merged V = merge_body rest (set_key out key value) in
      if retired key then skipped else (if is_some (find out key) then duplicate key else taken)

  unfoldable pub merge_sections :
      List (Section × List (ℕ × V)) → List Section → List (ℕ × V) → Merged V
  unfolding merge_body body_of
  merge_sections config [] out = merged out
  merge_sections config (s ∷ ss) out = elim (merge_body (body_of config s) out) [
    | merged out' ↦ merge_sections config ss out'
    | duplicate key ↦ duplicate key
  ]

abbrev pub finetune_sections : List Section
finetune_sections = finetune ∷ throttles ∷ slo ∷ debug ∷ []

unfoldable pub finetune_kwargs :
    {V : Type 0} → (ℕ → Bool) → List (Section × List (ℕ × V)) → Merged V
unfolding merge_sections
finetune_kwargs retired config = merge_sections retired config finetune_sections []

-- The warnings for keys outside their own section, `home` being `SECTION_OF`.
unfoldable pub misplaced :
    {V : Type 0} → (ℕ → Bool) → (ℕ → Option Section) → Section → List (ℕ × V) → List ℕ
misplaced retired home s [] = []
misplaced retired home s ((key, value) ∷ rest) =
    let more : List ℕ = misplaced retired home s rest in
    let strays : Bool = elim (home key) [ none ↦ false | some t ↦ not (same_section t s) ] in
    if not (retired key) && strays then key ∷ more else more

unfoldable pub value_in : {V : Type 0} → List (Section × List (ℕ × V)) → List Section → ℕ → Option V
unfolding find body_of
value_in config [] key = none
value_in config (s ∷ ss) key = elim (find (body_of config s) key) [
  | some v ↦ some v
  | none ↦ value_in config ss key
]

-- `finetune_value`, none where it returns the default.
unfoldable pub finetune_value : {V : Type 0} → List (Section × List (ℕ × V)) → ℕ → Option V
unfolding value_in
finetune_value config key = value_in config finetune_sections key

-- `split_config`: the engine's settings.
unfoldable pub engine_kwargs :
    {V : Type 0} → List (Section × List (ℕ × V)) → List (ℕ × V) → Merged V
unfolding merge_body
engine_kwargs [] out = merged out
engine_kwargs ((s, body) ∷ rest) out =
    let skipped = engine_kwargs rest out in
    if is_special s then skipped else elim (merge_body (λ key. false) body out) [
      | merged out' ↦ engine_kwargs rest out'
      | duplicate key ↦ duplicate key
    ]

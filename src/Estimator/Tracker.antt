-- ===== src/Estimator/Tracker.antt =====
-- deltaserve/estimator.py: `StepExecutionTracker`. Its five lists are one list of rows; durations
-- are of a type `F`, and wall-clock stamps are left out.
use delta_serve_v_llm.Common.{
  ℕ, suc, ◌%◌, min, Bool, true, false, ◌&&◌, Option, none, List, [], ◌∷◌, ◌++◌, ltb, ◌==◌,
  if◌then◌else◌, length,
}
use delta_serve_v_llm.Estimator.Features.{StepFeatures}

pub record Sample (F : Type 0) : Type 0 where
  pub features : StepFeatures
  pub duration : F
  pub predicted : Option F
  pub was_graph : Option Bool

pub record Tracker (F : Type 0) : Type 0 where
  pub max_steps : ℕ
  pub samples : List (Sample F)
  pub last_refit_size : ℕ

unfoldable pub init : {F : Type 0} → ℕ → Tracker F
init max_steps = record { max_steps = max_steps; samples = []; last_refit_size = 0 }

abbrev pub drop_first : {A : Type 0} → List A → List A
drop_first [] = []
drop_first (x ∷ xs) = xs

unfoldable pub add : {F : Type 0} → Tracker F → Sample F → Tracker F
add t s =
    let samples = t.samples ++ s ∷ [] in
    record t { samples = if ltb t.max_steps (length samples) then drop_first samples else samples }

abbrev pub size : {F : Type 0} → Tracker F → ℕ
size t = length t.samples

pub record Exported (F : Type 0) : Type 0 where
  pub max_steps : ℕ
  pub last_refit_size : ℕ
  pub samples : List (StepFeatures × F × Option Bool)

abbrev pub carried : {F : Type 0} → List (Sample F) → List (StepFeatures × F × Option Bool)
carried [] = []
carried (s ∷ ss) = (s.features, s.duration, s.was_graph) ∷ carried ss

unfoldable pub export_state : {F : Type 0} → Tracker F → Exported F
export_state t = record {
  max_steps = t.max_steps;
  last_refit_size = t.last_refit_size;
  samples = carried t.samples;
}

abbrev pub restored : {F : Type 0} → List (StepFeatures × F × Option Bool) → List (Sample F)
restored [] = []
restored ((f, d, g) ∷ ss) =
    record { features = f; duration = d; predicted = none; was_graph = g } ∷ restored ss

-- `while len(...) > max_steps: drop the first`
unfoldable pub trim : {A : Type 0} → ℕ → List A → List A
trim max_steps [] = []
trim max_steps (x ∷ xs) =
    let rest = trim max_steps xs in if ltb max_steps (suc (length xs)) then rest else x ∷ xs

unfoldable pub import_state : {F : Type 0} → Tracker F → Exported F → Tracker F
unfolding trim
import_state t state =
    let samples = trim t.max_steps (restored state.samples) in
    record {
      max_steps = t.max_steps;
      samples = samples;
      last_refit_size = min state.last_refit_size (length samples);
    }

abbrev pub refit_every : ℕ
refit_every = 256

unfoldable pub check_refit : {F : Type 0} → Tracker F → Tracker F × Bool
check_refit t =
    if ltb 0 (size t) && (size t % refit_every == 0) && ltb t.last_refit_size (size t)
    then (record t { last_refit_size = size t }, true)
    else (t, false)

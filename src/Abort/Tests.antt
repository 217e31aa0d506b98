-- ===== src/Abort/Tests.antt =====
-- Two ranks of which one sees an arrival.
use delta_serve_v_llm.Common.{ℕ, ◌≡◌, refl, Bool, true, List, [], ◌∷◌}
use delta_serve_v_llm.Abort.{
  FtAbortPoller, Call, enters, hooks, init, entry, layer, takes_part, symmetric, entry_flag,
  layer_flag,
}
use delta_serve_v_llm.Abort.Symmetry.{AreAlike, AreAll, reading, play, start, play-AreAll}

abbrev firsts : List ℕ
firsts = 4 ∷ 4 ∷ []

-- Both ranks enter, and pass one layer; then one of them sees the fifth arrival.
abbrev history : List (Call × List ℕ)
history = (enters, 4 ∷ 4 ∷ []) ∷ (hooks true, 4 ∷ 4 ∷ []) ∷ []

abbrev later : List FtAbortPoller
later = play (start firsts) history

leaves : symmetric layer_flag (reading later (5 ∷ 4 ∷ [])) ≡ true
unfolding init entry layer takes_part symmetric entry_flag layer_flag
leaves = refl

play-AreAll_example :
    ((calls : ℕ) × (reduces : ℕ) × (active : Bool) × AreAlike calls reduces active later)
    × ((b : Bool) × AreAll b (hooks true) (reading later (5 ∷ 4 ∷ [])) later)
play-AreAll_example = play-AreAll firsts history (hooks true) (5 ∷ 4 ∷ [])

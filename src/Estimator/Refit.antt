-- ===== src/Estimator/Refit.antt =====
-- The tracker of deltaserve/estimator.py: its window, the refit cadence and the carry-over of
-- state.
use delta_serve_v_llm.Common.{
  ℕ, suc, ◌+◌, ◌*◌, ◌-◌, ◌%◌, ◌≤◌, ◌≡◌, refl, ap, min, Bool, Option, List, [], ◌∷◌, ◌++◌, arith,
  length, length-append, if◌then◌else◌,
}
use delta_serve_v_llm.Estimator.Features.{StepFeatures}
use delta_serve_v_llm.Estimator.Tracker.{
  Sample, Tracker, Exported, init, add, size, check_refit, export_state, import_state, trim,
  carried, restored, drop_first,
}

length-drop_first : {A : Type 0} (xs : List A) → length (drop_first xs) ≡ length xs - 1
length-drop_first [] = refl
length-drop_first (x ∷ xs) = omega arith

-- What the live loop does with the tracker: record steps, and ask now and then whether to refit.
-- The second part says how often the answer was yes.
pub data Use (F : Type 0) : Type 0 where
  records : Sample F → Use F
  asks : Use F

abbrev pub counted : Bool → ℕ → ℕ
counted b n = if b then suc n else n

abbrev pub run : {F : Type 0} → Tracker F → List (Use F) → Tracker F × ℕ
run t [] = (t, 0)
run t (records s ∷ us) = run (add t s) us
run t (asks ∷ us) =
    let (t', fires) = check_refit t in let (t'', n) = run t' us in (t'', counted fires n)

size-add :
    {F : Type 0} (t : Tracker F) (s : Sample F)
    → size t ≤ t.max_steps
    → size (add t s) ≡ min (suc (size t)) t.max_steps
unfolding add
size-add t s h =
    ground (arith, length-append t.samples (s ∷ []), length-drop_first (t.samples ++ s ∷ []))

-- The window is never exceeded, and the size at the last refit is a multiple of 256 within it.
pub record IsTracked {F : Type 0} (t : Tracker F) : Type 0 where
  pub within : size t ≤ t.max_steps
  pub behind : t.last_refit_size ≤ size t
  pub on_beat : t.last_refit_size % 256 ≡ 0

add-IsTracked : {F : Type 0} (t : Tracker F) (s : Sample F) → IsTracked t → IsTracked (add t s)
unfolding add
add-IsTracked t s v =
    let e = size-add t s v.within in
    record {
      within = omega (arith, e);
      behind = omega (arith, e, v.behind, v.within);
      on_beat = v.on_beat;
    }

check_refit-IsTracked : {F : Type 0} (t : Tracker F) → IsTracked t → IsTracked (check_refit t).0
unfolding check_refit
check_refit-IsTracked t v = ground arith

-- A refit moves the mark by 256 at least.
check_refit-moves :
    {F : Type 0} (t : Tracker F)
    → IsTracked t
    → counted (check_refit t).1 0 * 256 + t.last_refit_size ≤ (check_refit t).0.last_refit_size
unfolding check_refit
check_refit-moves t v = ground arith

run-moves :
    {F : Type 0} (us : List (Use F)) (t : Tracker F)
    → IsTracked t
    → ((run t us).1 * 256 + t.last_refit_size ≤ t.max_steps)
      × IsTracked (run t us).0
      × ((run t us).0.max_steps ≡ t.max_steps)
unfolding check_refit add
run-moves [] t v = (omega (arith, v.within, v.behind), v, refl)
run-moves (records s ∷ us) t v = run-moves us (add t s) (add-IsTracked t s v)
run-moves (asks ∷ us) t v =
    let (moved, kept, same) = run-moves us (check_refit t).0 (check_refit-IsTracked t v) in
    (ground (arith, moved, check_refit-moves t v), kept, ground (arith, same))

init-IsTracked : {F : Type 0} (max_steps : ℕ) → IsTracked (init {F = F} max_steps)
unfolding init
init-IsTracked max_steps = record {
  within = omega arith;
  behind = omega arith;
  on_beat = omega arith;
}

-- Whatever steps a new tracker records and however often it is asked to refit, its window holds at
-- most `max_steps` steps, and it agrees to a refit at most once per 256 of `max_steps` in its whole
-- life.
pub run-refits_bounded :
    {F : Type 0} (max_steps : ℕ) (us : List (Use F))
    → ((run (init max_steps) us).1 * 256 ≤ max_steps)
      × (size (run (init max_steps) us).0 ≤ max_steps)
unfolding init
run-refits_bounded max_steps us =
    let (moved, kept, same) = run-moves us (init max_steps) (init-IsTracked max_steps) in
    (omega (arith, moved), omega (arith, kept.within, same))

length-trim : {A : Type 0} (m : ℕ) (xs : List A) → length (trim m xs) ≤ m
unfolding trim
length-trim m [] = omega arith
length-trim m (x ∷ xs) = ground (arith, length-trim m xs)

trim-within : {A : Type 0} (m : ℕ) (xs : List A) → length xs ≤ m → trim m xs ≡ xs
unfolding trim
trim-within m [] h = refl
trim-within m (x ∷ xs) h = ground arith

carried-restored :
    {F : Type 0} (ss : List (StepFeatures × F × Option Bool)) → carried (restored ss) ≡ ss
carried-restored [] = refl
carried-restored ((f, d, g) ∷ ss) = ap (λ xs. (f, d, g) ∷ xs) (carried-restored ss)

length-restored : {F : Type 0} (ss : List (Sample F)) → length (restored (carried ss)) ≡ length ss
length-restored [] = refl
length-restored (s ∷ ss) = ap suc (length-restored ss)

-- A tracker that imports what another of the same window exported, within its window and its refit
-- mark, exports the same again, whatever it held before. An import never exceeds the importer's own
-- window.
pub export-import :
    {F : Type 0} (t t' : Tracker F)
    → t.max_steps ≡ t'.max_steps
    → IsTracked t
    → (export_state (import_state t' (export_state t)) ≡ export_state t)
      × ((state : Exported F) → size (import_state t' state) ≤ t'.max_steps)
unfolding export_state import_state
export-import t t' e v =
    let kept : trim t'.max_steps (restored (carried t.samples)) ≡ restored (carried t.samples) =
      trim-within t'.max_steps (restored (carried t.samples))
        (omega (arith, length-restored t.samples, v.within)) in
    let low : min t.last_refit_size (length (restored (carried t.samples))) ≡ t.last_refit_size =
      omega (arith, length-restored t.samples, v.behind) in
    (
      rw (kept, low, carried-restored (carried t.samples), e) refl,
      λ state. length-trim t'.max_steps (restored state.samples),
    )

-- ===== src/Coordinator/Throttle.antt =====
-- The arrival-rate throttle of deltaserve/coordinator.py.
use delta_serve_v_llm.Common.{
  ℕ, ◌+◌, ◌-◌, ◌≤◌, ◌≡◌, ◌≢◌, ◌⊎◌, ◌↔◌, refl, true, false, List, [], ◌∷◌, arith, length, ltb,
  if◌then◌else◌,
}
use delta_serve_v_llm.Coordinator.{
  Coordinator, rps, prune, rate_lt, rate_gt, engaged_since, check_rps_throttle, next_ft_budget,
}

-- The arrivals ascend.
abbrev pub Ascends : ℕ → List ℕ → Type 0
Ascends t [] = Unit {0}
Ascends t (a ∷ rest) = (t ≤ a) × Ascends a rest

-- The arrivals of the window, counted one by one.
unfoldable pub recent : ℕ → ℕ → List ℕ → ℕ
recent now window [] = 0
recent now window (a ∷ rest) = (if ltb (a + window) now then 0 else 1) + recent now window rest

recent_all :
    (now window t : ℕ) (arrivals : List ℕ)
    → Ascends t arrivals
    → now ≤ t + window
    → recent now window arrivals ≡ length arrivals
unfolding recent
recent_all now window t [] up h = refl
recent_all now window t (a ∷ rest) up h = ground (arith, recent_all now window a rest up.1)

-- Pruning ascending arrivals from the front, as `rps` does, leaves exactly as many as lie in the
-- window.
pub prune-recent :
    (now window t : ℕ) (arrivals : List ℕ)
    → Ascends t arrivals
    → length (prune now window arrivals) ≡ recent now window arrivals
unfolding prune recent
prune-recent now window t [] up = refl
prune-recent now window t (a ∷ rest) up =
    ground (arith, prune-recent now window a rest up.1, recent_all now window a rest up.1)

-- The arrivals in the window that ends now.
abbrev pub load : Coordinator → ℕ → ℕ → ℕ
load c now window = (rps (record { window = window; arrivals = c.rps_tracker.arrivals }) now).1

module _ (c : Coordinator) (now close_rps open_rps window close_time : ℕ)
    (enabled : close_rps ≢ 0) where
  abbrev checked : Coordinator
  checked = check_rps_throttle c now close_rps open_rps window close_time

  -- A throttle that is on after the check keeps the gate closed, so nothing is admitted.
  pub throttle_closes :
      checked.rps_throttle_active ≡ true
      → (checked.admission_open ≡ false) × (next_ft_budget checked ≡ 0)
  unfolding check_rps_throttle next_ft_budget
  throttle_closes h = ground arith

  -- Where the throttle is enabled and off, its check switches it on exactly when the arrival rate
  -- is above `close_rps`.
  pub throttle_engages :
      c.rps_throttle_active ≡ false
      → (checked.rps_throttle_active ≡ true) ↔ (rate_gt window (load c now window) close_rps ≡ true)
  unfolding check_rps_throttle
  throttle_engages off = (λ h. ground arith, λ h. ground arith)

  -- Where the throttle is enabled and on, its check switches it off exactly when the arrival rate
  -- is below `open_rps` and it has been on for `close_time`, or nothing arrived in the window.
  pub throttle_releases :
      c.rps_throttle_active ≡ true
      → (checked.rps_throttle_active ≡ false) ↔ (
          (rate_lt window (load c now window) open_rps ≡ true)
          × ((close_time ≤ now - engaged_since c.rps_throttle_engaged_at now)
              ⊎ (load c now window ≡ 0)))
  unfolding check_rps_throttle
  throttle_releases on = (λ h. ground arith, λ h. ground arith)

  -- A throttle that was off and stays off leaves the gate to its other writers.
  pub throttle_passes :
      c.rps_throttle_active ≡ false
      → checked.rps_throttle_active ≡ false
      → checked.admission_open ≡ c.admission_open
  unfolding check_rps_throttle
  throttle_passes off h = ground arith

-- ===== src/Backward/RunAhead.antt =====
-- deltaserve/bwd_services/base.py, the first part of `_maybe_pause`: the ring of CUDA events that
-- keeps the CPU from running ahead of the GPU. A recorded event is the number of the boundary that
-- recorded it; an event that was never recorded does not wait.
use delta_serve_v_llm.Common.{
  ℕ, zero, suc, ◌+◌, ◌-◌, ◌%◌, ◌<◌, ◌≤◌, ◌≡◌, ◌⊎◌, inl, inr, refl, ◌∙◌, Bool, true, Option, none,
  some, List, [], arith, ◌==◌, ltb, lt→ltb, if◌then◌else◌, length, set, get_or, replicate,
  get_or-set, get_or-replicate, length-set, length-replicate, Bool-cases,
}
use native.Mathlib.Nat.{mod-eq_of_lt, mod_self}

-- `_run_ahead` (none before it is resolved from meta), `_boundary_events` and `_boundary_pos`
pub record RunAhead : Type 0 where
  pub run_ahead : Option ℕ
  pub boundary_events : List (Option ℕ)
  pub boundary_pos : ℕ

abbrev pub fresh : RunAhead
fresh = record { run_ahead = none; boundary_events = []; boundary_pos = 0 }

-- The depth, and the ring it makes on the first boundary; without CUDA there is no queue to bound.
unfoldable pub resolve_depth : Bool → ℕ → Option ℕ → RunAhead → ℕ × RunAhead
resolve_depth cuda meta (some depth) s = (depth, s)
resolve_depth cuda meta none s =
    let depth : ℕ = if cuda then meta else 0 in
    (
      depth,
      record {
        run_ahead = some depth;
        boundary_events = if ltb 0 depth then replicate (depth + 1) none else s.boundary_events;
        boundary_pos = if ltb 0 depth then 0 else s.boundary_pos;
      },
    )

-- Record at the ring's position, go on, and wait for the event found there.
unfoldable pub turn : ℕ → RunAhead → RunAhead × Option ℕ
turn b s =
    let ring : List (Option ℕ) = set s.boundary_events s.boundary_pos (some b) in
    let pos : ℕ = (s.boundary_pos + 1) % length ring in
    (record s { boundary_events = ring; boundary_pos = pos }, get_or ring pos none)

-- Boundary `b`: the new state and the event waited for.
unfoldable pub boundary : Bool → ℕ → ℕ → RunAhead → RunAhead × Option ℕ
unfolding resolve_depth turn
boundary cuda meta b s =
    let p : ℕ × RunAhead = resolve_depth cuda meta s.run_ahead s in
    if ltb 0 p.0 then turn b p.1 else (p.1, none)

-- The state before boundary `n`, when the boundaries are numbered from 0.
unfoldable pub before : Bool → ℕ → ℕ → RunAhead
unfolding boundary
before cuda meta zero = fresh
before cuda meta (suc n) = (boundary cuda meta n (before cuda meta n)).0

-- Before boundary `b`, in the lap that began with boundary `lap`.
record Laps (depth b : ℕ) (s : RunAhead) : Type 0 where
  depth_known : s.run_ahead ≡ some depth
  size : length s.boundary_events ≡ depth + 1
  inside : s.boundary_pos ≤ depth
  began : s.boundary_pos ≤ b
  laps : (b - s.boundary_pos ≡ 0) ⊎ (depth < b - s.boundary_pos)
  this_lap :
      (j : ℕ) → j < s.boundary_pos → get_or s.boundary_events j none ≡ some (b - s.boundary_pos + j)
  last_lap :
      (j : ℕ)
      → s.boundary_pos ≤ j
      → j ≤ depth
      → get_or s.boundary_events j none
        ≡ (if b - s.boundary_pos == 0 then none else some (b - s.boundary_pos + j - (depth + 1)))

next_pos : (p d : ℕ) → p ≤ d → ((p + 1) % (d + 1)) ≡ (if p == d then 0 else p + 1)
next_pos p d h = elim (Bool-cases (p == d)) [
  | inl e ↦ rw e (ground (arith, mod_self (d + 1)))
  | inr e ↦ rw e (mod-eq_of_lt (ground arith))
]

module _ {d b : ℕ} {s : RunAhead} (inv : Laps d b s) where
  turn-pos : (turn b s).0.boundary_pos ≡ (if s.boundary_pos == d then 0 else s.boundary_pos + 1)
  unfolding turn
  turn-pos =
      rw (length-set s.boundary_events s.boundary_pos (some b), inv.size)
        (next_pos s.boundary_pos d inv.inside)

  turn-get :
      (j : ℕ)
      → get_or (turn b s).0.boundary_events j none
        ≡ (if s.boundary_pos == j then some b else get_or s.boundary_events j none)
  unfolding turn
  turn-get j =
      get_or-set s.boundary_events s.boundary_pos j (some b) none
        (omega (arith, inv.size, inv.inside))

  turn-size : length (turn b s).0.boundary_events ≡ d + 1
  unfolding turn
  turn-size = length-set s.boundary_events s.boundary_pos (some b) ∙ inv.size

  turn-waits_get : (turn b s).1 ≡ get_or (turn b s).0.boundary_events (turn b s).0.boundary_pos none
  unfolding turn
  turn-waits_get = refl

  turn-waits : (turn b s).1 ≡ (if ltb b d then none else some (b - d))
  turn-waits = ground (
    arith,
    waits,
    turn-pos,
    inv,
    turn-get 0,
    turn-get (s.boundary_pos + 1),
    inv.this_lap 0,
    inv.last_lap (s.boundary_pos + 1),
  )
    where
      waits : (turn b s).1 ≡ get_or (turn b s).0.boundary_events (turn b s).0.boundary_pos none
      waits = turn-waits_get

  turn-known : (turn b s).0.run_ahead ≡ s.run_ahead
  unfolding turn
  turn-known = refl

  turn-Laps : Laps d (suc b) (turn b s).0
  turn-Laps = record {
    depth_known = turn-known ∙ inv.depth_known;
    size = turn-size;
    inside = ground (arith, turn-pos, inv);
    began = ground (arith, turn-pos, inv);
    laps = ground (arith, turn-pos, inv);
    this_lap = λ j h. ground (arith, turn-pos, inv, turn-get j, inv.this_lap j);
    last_lap = λ j h g. ground (arith, turn-pos, inv, turn-get j, inv.this_lap j, inv.last_lap j);
  }

before-unfold :
    (cuda : Bool) (meta n : ℕ)
    → before cuda meta (suc n) ≡ (boundary cuda meta n (before cuda meta n)).0
unfolding before
before-unfold cuda meta n = refl

before_zero : (cuda : Bool) (meta : ℕ) → before cuda meta 0 ≡ fresh
unfolding before
before_zero cuda meta = refl

first-Laps : (d : ℕ) → 0 < d → Laps d 0 (resolve_depth true d none fresh).1
unfolding resolve_depth
first-Laps d h = record {
  depth_known = refl;
  size = ground (arith, length-replicate {A = Option ℕ} (d + 1) none);
  inside = ground arith;
  began = ground arith;
  laps = ground arith;
  this_lap = λ j p. absurd (ground arith);
  last_lap = λ j p q. ground (arith, get_or-replicate {A = Option ℕ} (d + 1) j none);
}

boundary-known : {d b : ℕ} {s : RunAhead} → 0 < d → Laps d b s → boundary true d b s ≡ turn b s
unfolding boundary resolve_depth
boundary-known {d} h inv = rw (inv.depth_known, lt→ltb 0 d h) refl

boundary-first :
    (d : ℕ) → 0 < d → boundary true d 0 fresh ≡ turn 0 (resolve_depth true d none fresh).1
unfolding boundary resolve_depth
boundary-first d h = rw (lt→ltb 0 d h) refl

before-Laps : (d n : ℕ) → 0 < d → Laps d (suc n) (before true d (suc n))
before-Laps d zero h =
    rw (before-unfold true d 0, before_zero true d, boundary-first d h) (turn-Laps (first-Laps d h))
before-Laps d (suc n) h =
    rw (before-unfold true d (suc n), boundary-known h (before-Laps d n h))
      (turn-Laps (before-Laps d n h))

-- The CPU is at most `depth` boundaries ahead of the GPU: with a device and a run-ahead of `depth`
-- > 0 boundaries, boundary `b`, counted from the child's first, waits for exactly the event that
-- boundary `b - depth` recorded, and the first `depth` boundaries wait for none.
pub boundary-waits :
    (depth b : ℕ)
    → 0 < depth
    → (boundary true depth b (before true depth b)).1
      ≡ (if ltb b depth then none else some (b - depth))
boundary-waits depth zero h =
    rw (before_zero true depth, boundary-first depth h) (turn-waits (first-Laps depth h))
boundary-waits depth (suc n) h =
    rw (boundary-known h (before-Laps depth n h)) (turn-waits (before-Laps depth n h))

-- ===== src/Backward/Pause/Wait.antt =====
-- That the wait of `_maybe_pause` ends: deltaserve/bwd_services/base.py.
use delta_serve_v_llm.Common.{
  ℕ, ◌-◌, ◌<◌, ◌≤◌, ◌≡◌, ◌⊎◌, inl, inr, refl, Bool, true, false, Option, none, some, arith, ltb,
  if◌then◌else◌, Bool-cases, ap, length, List, [], ◌∷◌, ◌++◌,
}
use delta_serve_v_llm.Backward.Pause.{
  attached, idle, pending, Arrivals, Reads, Round, arrival_wait, arrival_blocked, pause_poll,
  polled, ends, wait_loop, deadline_after, entry_blocked, maybe_pause, blocked_attached,
  blocked_pending, blocked_paused, forget,
}
use delta_serve_v_llm.Backward.Pause.Arrival.{arrival_blocked-attached}

-- A round whose clock is at or past the deadline is among them.
abbrev pub Passes : ℕ → List Round → Type 0
Passes deadline [] = ⊥
Passes deadline (r ∷ rs) = (deadline ≤ r.clock) ⊎ Passes deadline rs

-- No round of these ends the loop that starts in the state.
abbrev pub AllStay : ℕ → Arrivals → List Round → Type 0
AllStay deadline a [] = Unit {0}
AllStay deadline a (r ∷ rs) =
    ((pause_poll a r.reads).1 ≡ false)
    × (r.clock < deadline)
    × AllStay deadline (pause_poll a r.reads).0 rs

-- The loop takes the rounds `before`, which do not end it, and then the round `last`, which does.
pub record Ending (rounds : List Round) (deadline : ℕ) (a b : Arrivals) (rest : List Round)
    : Type 0 where
  pub before : List Round
  pub last : Round
  pub taken : rounds ≡ before ++ (last ∷ rest)
  pub stays : AllStay deadline a before
  pub leaves :
      ((last.reads.set_poll ≡ true) × ((arrival_blocked (polled before a) last.reads).1 ≡ false))
      ⊎ (deadline ≤ last.clock)
  pub state : b ≡ (pause_poll (polled before a) last.reads).0

ends-leaves :
    (deadline : ℕ) (a : Arrivals) (r : Round)
    → ends deadline a r ≡ true
    → ((r.reads.set_poll ≡ true) × ((arrival_blocked a r.reads).1 ≡ false)) ⊎ (deadline ≤ r.clock)
unfolding ends pause_poll
ends-leaves deadline a r e = elim (Bool-cases (pause_poll a r.reads).1) [
  | inl p ↦ inl (ground arith)
  | inr p ↦ inr (ground arith)
]

stays_both :
    (deadline : ℕ) (a : Arrivals) (r : Round)
    → ends deadline a r ≡ false
    → ((pause_poll a r.reads).1 ≡ false) × (r.clock < deadline)
unfolding ends
stays_both deadline a r e = elim (Bool-cases (pause_poll a r.reads).1) [
  | inl p ↦ absurd (ground arith)
  | inr p ↦ (p, ground arith)
]

pub wait_loop-Ending :
    (rounds : List Round) (deadline : ℕ) (a : Arrivals)
    → Passes deadline rounds
    → (b : Arrivals) × (rest : List Round) × (wait_loop rounds deadline a ≡ some (b, rest))
      × Ending rounds deadline a b rest
unfolding wait_loop polled
wait_loop-Ending [] deadline a h = absurd h
wait_loop-Ending (r ∷ rs) deadline a h = elim (Bool-cases (ends deadline a r)) [
  | inl e ↦ (
    (pause_poll a r.reads).0,
    rs,
    rw e refl,
    record {
      before = [];
      last = r;
      taken = refl;
      stays = omega arith;
      leaves = ends-leaves deadline a r e;
      state = refl;
    },
  )
  | inr e ↦
      let s = stays_both deadline a r e in
      let q = wait_loop-Ending rs deadline (pause_poll a r.reads).0 (later s.1 h) in
      (
        q.0,
        q.1,
        rw e q.2,
        record {
          before = r ∷ q.3.before;
          last = q.3.last;
          taken = ap (λ (t : List Round). r ∷ t) q.3.taken;
          stays = (s.0, s.1, q.3.stays);
          leaves = q.3.leaves;
          state = q.3.state;
        },
      )
]
  where
    later : r.clock < deadline → ((deadline ≤ r.clock) ⊎ Passes deadline rs) → Passes deadline rs
    later s (inl p) = absurd (omega arith)
    later s (inr p) = p

-- The wait at a boundary is bounded, whatever the grant and the arrivals do: if the child is
-- blocked there, and the clock gets to 5 s after the start of the wait in some round to come, then
-- `_maybe_pause` returns. It ends with the first round in which the grant is set and no arrival
-- blocks, or in which the clock has reached that deadline; no earlier round ends it.
pub maybe_pause-ends :
    (granted : Bool) (r : Reads) (start : ℕ) (rounds : List Round) (a : Arrivals)
    → (entry_blocked a granted r).1 ≡ true
    → Passes (deadline_after start) rounds
    → (b : Arrivals) × (rest : List Round) × (maybe_pause granted r start rounds a ≡ some (b, rest))
      × Ending rounds (deadline_after start) (entry_blocked a granted r).0 b rest
unfolding maybe_pause
maybe_pause-ends granted r start rounds a e h =
    let q = wait_loop-Ending rounds (deadline_after start) (entry_blocked a granted r).0 h in
    (q.0, q.1, rw e q.2, q.3)

-- With the grant set and no arrival since the last one seen, `_maybe_pause` returns at once: no
-- poll is taken, and the arrivals' state stays.
pub maybe_pause-free :
    (r : Reads) (start : ℕ) (rounds : List Round) (a : Arrivals)
    → a.signal ≡ attached
    → a.arr_state ≡ idle
    → r.counter ≡ a.arr_seen
    → maybe_pause true r start rounds a ≡ some (a, rounds)
unfolding maybe_pause entry_blocked blocked_attached
maybe_pause-free r start rounds a e f g = rw (arrival_blocked-attached a r e, f) (ground arith)

-- The worker does not pause the child: each reading of the grant finds it set.
abbrev pub AllSet : List Round → Type 0
AllSet [] = Unit {0}
AllSet (r ∷ rs) =
    (r.reads.set_pending ≡ true)
    × (r.reads.set_paused ≡ true)
    × (r.reads.set_poll ≡ true)
    × AllSet rs

-- The rounds after the first whose poll is made more than 100 ms after `since`, if there is one.
abbrev pub after_overdue : ℕ → List Round → Option (List Round)
after_overdue since [] = none
after_overdue since (r ∷ rs) =
    let rest = after_overdue since rs in
    if ltb arrival_wait (r.reads.now - since) then some rs else rest

poll_pending :
    (a : Arrivals) (r : Reads)
    → a.signal ≡ attached
    → a.arr_state ≡ pending
    → r.set_pending ≡ true
    → r.set_poll ≡ true
    → ((pause_poll a r).1 ≡ ltb arrival_wait (r.now - a.arr_since))
      × ((pause_poll a r).1 ≡ false → (pause_poll a r).0 ≡ a)
unfolding pause_poll blocked_attached blocked_pending blocked_paused forget
poll_pending a r e f g h = rw (arrival_blocked-attached a r e, f) (ground arith)

-- An arrival that no prefill follows costs the backward at most 100 ms: if an arrival is pending
-- since `arr_since`, every reading of the grant finds it set, and some round polls more than 100 ms
-- after `arr_since`, then the wait ends with the first such round or earlier.
pub wait_loop-unpaused :
    (rounds : List Round) (deadline : ℕ) (a : Arrivals) {later : List Round}
    → a.signal ≡ attached
    → a.arr_state ≡ pending
    → AllSet rounds
    → after_overdue a.arr_since rounds ≡ some later
    → (b : Arrivals) × (rest : List Round) × (wait_loop rounds deadline a ≡ some (b, rest))
      × (length later ≤ length rest)
unfolding wait_loop ends
wait_loop-unpaused [] deadline a e f s o = absurd (ground arith)
wait_loop-unpaused (r ∷ rs) deadline a {later} e f s o =
    let p = poll_pending a r.reads e f s.0 s.2 in
    elim (Bool-cases (ltb arrival_wait (r.reads.now - a.arr_since))) [
      | inl t ↦ ((pause_poll a r.reads).0, rs, ground (arith, p.0), ground arith)
      | inr t ↦ elim (Bool-cases (ltb r.clock deadline)) [
        | inl c ↦
            let q = wait_loop-unpaused rs deadline a e f s.3 (ground arith) in
            (q.0, q.1, ground (arith, p, q.2), q.3)
        | inr c ↦ (
          (pause_poll a r.reads).0,
          rs,
          ground (arith, p.0),
          shorter a.arr_since rs (ground arith),
        )
      ]
    ]
  where
    shorter :
        (since : ℕ) (xs : List Round)
        → after_overdue since xs ≡ some later
        → length later ≤ length xs
    shorter since [] h = absurd (ground arith)
    shorter since (x ∷ xs) h = ground (arith, shorter since xs)

-- ===== src/Backward/Pause/Arrival.antt =====
-- How long an arrival holds the backward child up: `_arrival_blocked` of
-- deltaserve/bwd_services/base.py.
use delta_serve_v_llm.Common.{
  ℕ, ◌-◌, ◌≤◌, ◌≡◌, ◌⊎◌, refl, Bool, true, false, not, arith, ltb, if◌then◌else◌,
}
use delta_serve_v_llm.Backward.Pause.{
  attached, ArrState, idle, pending, paused, Arrivals, Reads, arrival_wait, forget, blocked_paused,
  blocked_pending, blocked_attached, resolved, arrival_blocked, arrivals_reset,
}

abbrev pub is_idle : ArrState → Bool
is_idle idle = true
is_idle pending = false
is_idle paused = false

pub arrival_blocked-attached :
    (a : Arrivals) (r : Reads)
    → a.signal ≡ attached
    → arrival_blocked a r ≡ blocked_attached a.arr_state a r
unfolding arrival_blocked resolved
arrival_blocked-attached a r e = rw e refl

-- `_arrival_blocked` leaves the counter attached; it answers true exactly where the state it leaves
-- is not idle; a pending arrival it answers true for is at most 100 ms old; one it answers false
-- for has the counter, as last read, marked as seen.
pub record Answers (a : Arrivals) (r : Reads) : Type 0 where
  pub still : (arrival_blocked a r).0.signal ≡ attached
  pub blocks : (arrival_blocked a r).1 ≡ not (is_idle (arrival_blocked a r).0.arr_state)
  pub young :
      (arrival_blocked a r).0.arr_state ≡ pending
      → r.now - (arrival_blocked a r).0.arr_since ≤ arrival_wait
  pub seen :
      (arrival_blocked a r).1 ≡ false
      → ((arrival_blocked a r).0.arr_seen ≡ r.counter)
        ⊎ ((arrival_blocked a r).0.arr_seen ≡ r.counter_done)

pub blocked_attached-Answers :
    (s : ArrState) (a : Arrivals) (r : Reads)
    → a.signal ≡ attached
    → a.arr_state ≡ s
    → ((blocked_attached s a r).0.signal ≡ attached)
      × ((blocked_attached s a r).1 ≡ not (is_idle (blocked_attached s a r).0.arr_state))
      × ((blocked_attached s a r).0.arr_state ≡ pending
          → r.now - (blocked_attached s a r).0.arr_since ≤ arrival_wait)
      × ((blocked_attached s a r).1 ≡ false
          → ((blocked_attached s a r).0.arr_seen ≡ r.counter)
            ⊎ ((blocked_attached s a r).0.arr_seen ≡ r.counter_done))
unfolding blocked_attached blocked_pending blocked_paused forget arrival_wait
blocked_attached-Answers idle a r e f = ground arith
blocked_attached-Answers pending a r e f = ground arith
blocked_attached-Answers paused a r e f = ground arith

pub arrival_blocked-Answers : (a : Arrivals) (r : Reads) → a.signal ≡ attached → Answers a r
arrival_blocked-Answers a r e =
    let p = blocked_attached-Answers a.arr_state a r e refl in
    record {
      still = rw (arrival_blocked-attached a r e) p.0;
      blocks = rw (arrival_blocked-attached a r e) p.1;
      young = rw (arrival_blocked-attached a r e) p.2;
      seen = rw (arrival_blocked-attached a r e) p.3;
    }

-- An arrival that was seen earlier and that no pause followed: while the grant is read as set, the
-- next call made more than 100 ms after it answers false, and a call at most 100 ms after it true.
pub arrival_blocked-expires :
    (a : Arrivals) (r : Reads)
    → a.signal ≡ attached
    → a.arr_state ≡ pending
    → r.set_pending ≡ true
    → (arrival_blocked a r).1 ≡ not (ltb arrival_wait (r.now - a.arr_since))
unfolding blocked_attached blocked_pending blocked_paused forget
arrival_blocked-expires a r e f g = rw (arrival_blocked-attached a r e, f) (ground arith)

-- While the worker's pause for an arrival lasts, every call answers true and changes nothing; the
-- first call that reads the grant as set answers false.
pub arrival_blocked-paused :
    (a : Arrivals) (r : Reads)
    → a.signal ≡ attached
    → a.arr_state ≡ paused
    → arrival_blocked a r ≡ (
        if r.set_paused
        then (record a { arr_state = idle; arr_seen = r.counter_done }, false)
        else (a, true))
unfolding blocked_attached blocked_pending blocked_paused forget
arrival_blocked-paused a r e f = rw (arrival_blocked-attached a r e, f) refl

-- After a reset at a cycle's start, a call that reads the same counter answers false.
pub arrivals_reset-not_blocked :
    (a : Arrivals) (cur : ℕ) (r : Reads)
    → a.signal ≡ attached
    → r.counter ≡ cur
    → (arrival_blocked (arrivals_reset a cur) r).1 ≡ false
unfolding blocked_attached arrivals_reset arrival_blocked resolved
arrivals_reset-not_blocked a cur r e f = rw (e) (ground arith)

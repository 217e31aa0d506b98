-- ===== src/Backward/Pause.antt =====
-- deltaserve/bwd_services/base.py, BackwardService: how the backward child yields the GPU at a
-- layer boundary (`_maybe_pause`). The grant, the arrival counter and the clock belong to other
-- processes, so every reading of them is an input of its own: two readings in one call may differ.
-- Times are in milliseconds. A CUDA event is the number of the boundary that recorded it.
pub mod Arrival
pub mod Wait
pub mod Group
use delta_serve_v_llm.Common.{
  ℕ, zero, suc, ◌+◌, ◌-◌, ◌%◌, Bool, true, false, not, ◌&&◌, ◌||◌, Option, none, some, List, [],
  ◌∷◌, ◌==◌, ltb, if◌then◌else◌, length, set, get_or, replicate,
}

-- `_arrivals`: -1, None, or the attached counter.
pub data Signal : Type 0 where
  unresolved off attached : Signal

-- `_arr_state`: 0, 1 and 2.
pub data ArrState : Type 0 where
  idle pending paused : ArrState

pub record Arrivals : Type 0 where
  pub signal : Signal
  pub arr_seen : ℕ
  pub arr_state : ArrState
  pub arr_since : ℕ

-- What one call of `_arrival_blocked`, and the `is_set` of the poll after it, read.
pub record Reads : Type 0 where
  -- The counter on attaching; none where the feature is off or attaching fails.
  pub attach : Option ℕ
  pub now : ℕ
  pub counter : ℕ
  -- The grant as tested in state 1 and in state 2.
  pub set_pending : Bool
  pub set_paused : Bool
  -- The counter where an arrival is done with.
  pub counter_done : ℕ
  -- The grant as tested by `_pause_poll`.
  pub set_poll : Bool

unfoldable pub arrival_wait : ℕ
arrival_wait = 100

-- The attaching on first use.
unfoldable pub resolve : Arrivals → Option ℕ → Arrivals
resolve a none = record a { signal = off }
resolve a (some seen) = record a { signal = attached; arr_seen = seen }

-- An arrival is done with: state 0, and the counter as it is now counts as seen.
unfoldable pub forget : Arrivals → ℕ → Arrivals
forget a seen = record a { arr_state = idle; arr_seen = seen }

-- The last test of `_arrival_blocked`, in state 2.
unfoldable pub blocked_paused : Arrivals → Reads → Arrivals × Bool
unfolding forget
blocked_paused a r = if r.set_paused then (forget a r.counter_done, false) else (a, true)

-- From state 1 on.
unfoldable pub blocked_pending : Arrivals → Reads → Arrivals × Bool
unfolding forget blocked_paused arrival_wait
blocked_pending a r =
    if not r.set_pending
    then blocked_paused (record a { arr_state = paused }) r
    else (if ltb arrival_wait (r.now - a.arr_since)
        then (forget a r.counter_done, false)
        else (a, true))

unfoldable pub blocked_attached : ArrState → Arrivals → Reads → Arrivals × Bool
unfolding blocked_paused blocked_pending
blocked_attached idle a r =
    if r.counter == a.arr_seen
    then (a, false)
    else blocked_pending (record a { arr_state = pending; arr_since = r.now }) r
blocked_attached pending a r = blocked_pending a r
blocked_attached paused a r = blocked_paused a r

abbrev pub blocked_by : Signal → Arrivals → Reads → Arrivals × Bool
blocked_by attached a r = blocked_attached a.arr_state a r
blocked_by unresolved a r = (a, false)
blocked_by off a r = (a, false)

unfoldable pub resolved : Signal → Arrivals → Reads → Arrivals
unfolding resolve
resolved unresolved a r = resolve a r.attach
resolved off a r = a
resolved attached a r = a

-- `_arrival_blocked`
unfoldable pub arrival_blocked : Arrivals → Reads → Arrivals × Bool
unfolding resolved blocked_attached
arrival_blocked a r = let b : Arrivals = resolved a.signal a r in blocked_by b.signal b r

-- `_arrivals_reset`, with what it reads.
unfoldable pub arrivals_reset : Arrivals → ℕ → Arrivals
arrivals_reset a cur = elim a.signal [
  | attached ↦ record a { arr_seen = cur; arr_state = idle }
  | unresolved ↦ a
  | off ↦ a
]

-- `_pause_poll`: whether the child may run.
unfoldable pub pause_poll : Arrivals → Reads → Arrivals × Bool
unfolding arrival_blocked
pause_poll a r = let p : Arrivals × Bool = arrival_blocked a r in (p.0, r.set_poll && not p.1)

-- One round of the loop: the poll's readings, and the clock of the loop's test.
pub record Round : Type 0 where
  pub reads : Reads
  pub clock : ℕ

-- Whether the loop ends with a round.
unfoldable pub ends : ℕ → Arrivals → Round → Bool
unfolding pause_poll
ends deadline a r = (pause_poll a r.reads).1 || not (ltb r.clock deadline)

-- The loop of `_maybe_pause` over the rounds to come: the state it ends in and the rounds it did
-- not take, or none where these rounds do not end it.
unfoldable pub wait_loop : List Round → ℕ → Arrivals → Option (Arrivals × List Round)
unfolding pause_poll ends
wait_loop [] deadline a = none
wait_loop (r ∷ rs) deadline a =
    let rest : Option (Arrivals × List Round) = wait_loop rs deadline (pause_poll a r.reads).0 in
    if ends deadline a r then some ((pause_poll a r.reads).0, rs) else rest

unfoldable pub deadline_after : ℕ → ℕ
deadline_after start = start + 5000

-- `not g.is_set() or self._arrival_blocked(g)`: with the grant cleared the arrivals are not looked
-- at.
unfoldable pub entry_blocked : Arrivals → Bool → Reads → Arrivals × Bool
unfolding arrival_blocked
entry_blocked a granted r = if granted then arrival_blocked a r else (a, true)

-- `_maybe_pause` with one rank, after the run-ahead bound. `granted`, `r` and `start` are the first
-- test's readings and the clock after it.
unfoldable pub maybe_pause :
    Bool → Reads → ℕ → List Round → Arrivals → Option (Arrivals × List Round)
unfolding entry_blocked wait_loop deadline_after
maybe_pause granted r start rounds a =
    let p : Arrivals × Bool = entry_blocked a granted r in
    if p.1 then wait_loop rounds (deadline_after start) p.0 else some (p.0, rounds)

-- The arrivals' state after the polls of the given rounds.
unfoldable pub polled : List Round → Arrivals → Arrivals
unfolding pause_poll
polled [] a = a
polled (r ∷ rs) a = polled rs (pause_poll a r.reads).0

-- ===== src/Abort/Symmetry.antt =====
-- The ranks of deltaserve/coordinator.py's FtAbortPoller as a group. A rank that took part in a
-- collective alone, or left a forward alone, would block the others.
use delta_serve_v_llm.Common.{
  ℕ, suc, ◌≡◌, refl, Bool, false, not, ◌&&◌, List, [], ◌∷◌, arith, if◌then◌else◌,
}
use delta_serve_v_llm.Abort.{
  FtAbortPoller, Ranks, Call, serves, enters, finishes, hooks, after, decision, init, entry, layer,
  note_served, finish, takes_part, symmetric, entry_flag, layer_flag,
}

-- All ranks have the same state but for what they read of the counter.
abbrev pub AreAlike : ℕ → ℕ → Bool → List FtAbortPoller → Type 0
AreAlike calls reduces active [] = Unit {0}
AreAlike calls reduces active (p ∷ ps) =
    (p.layer_calls ≡ calls)
    × (p.reduces ≡ reduces)
    × (p.active ≡ active)
    × AreAlike calls reduces active ps

-- The ranks with what each reads for one call, where a missing reading is 0.
abbrev pub reading : List FtAbortPoller → List ℕ → Ranks
reading [] curs = []
reading (p ∷ ps) [] = (p, 0) ∷ reading ps []
reading (p ∷ ps) (cur ∷ curs) = (p, cur) ∷ reading ps curs

abbrev pub each : Call → Ranks → Ranks → List FtAbortPoller
each call all [] = []
each call all ((p, cur) ∷ rs) = after call all p cur ∷ each call all rs

-- A history: calls with what the ranks read, at the ranks one after the other.
abbrev pub play : List FtAbortPoller → List (Call × List ℕ) → List FtAbortPoller
play ps [] = ps
play ps ((call, curs) ∷ rest) = play (each call (reading ps curs) (reading ps curs)) rest

abbrev next_calls : Call → Bool → ℕ → ℕ
next_calls serves active n = n
next_calls enters active n = 0
next_calls finishes active n = n
next_calls (hooks b) active n = if b && active then suc n else n

abbrev next_reduces : Call → Bool → ℕ → ℕ
next_reduces serves active n = n
next_reduces enters active n = suc n
next_reduces finishes active n = n
next_reduces (hooks b) active n = if b && active then suc n else n

abbrev next_active : Call → Ranks → Bool → Bool
next_active serves all active = active
next_active enters all active = not (symmetric entry_flag all)
next_active finishes all active = false
next_active (hooks b) all active = active

each-AreAlike :
    (call : Call) (all : Ranks) (ps : List FtAbortPoller) (curs : List ℕ) (calls reduces : ℕ)
    (active : Bool)
    → AreAlike calls reduces active ps
    → AreAlike
        (next_calls call active calls)
        (next_reduces call active reduces)
        (next_active call all active)
        (each call all (reading ps curs))
unfolding note_served entry finish layer takes_part
each-AreAlike call all [] curs calls reduces active a = tt
each-AreAlike call all (p ∷ ps) [] calls reduces active a = (
  ground arith,
  ground arith,
  ground arith,
  each-AreAlike call all ps [] calls reduces active a.3,
)
each-AreAlike call all (p ∷ ps) (cur ∷ curs) calls reduces active a = (
  ground arith,
  ground arith,
  ground arith,
  each-AreAlike call all ps curs calls reduces active a.3,
)

-- The ranks' results of one call, and that they all are `b`.
abbrev pub AreAll : Bool → Call → Ranks → List FtAbortPoller → Type 0
AreAll b call all [] = Unit {0}
AreAll b call all (p ∷ ps) = (decision call all p ≡ b) × AreAll b call all ps

abbrev common : Call → Ranks → Bool → Bool
common serves all active = false
common enters all active = symmetric entry_flag all
common finishes all active = false
common (hooks b) all active = if b && active then symmetric layer_flag all else false

common-AreAll :
    (call : Call) (all : Ranks) (ps : List FtAbortPoller) (calls reduces : ℕ) (active : Bool)
    → AreAlike calls reduces active ps
    → AreAll (common call all active) call all ps
unfolding decision takes_part
common-AreAll call all [] calls reduces active a = tt
common-AreAll call all (p ∷ ps) calls reduces active a =
    (ground arith, common-AreAll call all ps calls reduces active a.3)

abbrev pub start : List ℕ → List FtAbortPoller
start [] = []
start (cur ∷ curs) = init cur ∷ start curs

start-AreAlike : (firsts : List ℕ) → AreAlike 0 0 false (start firsts)
unfolding init
start-AreAlike [] = tt
start-AreAlike (cur ∷ curs) = (refl, refl, refl, start-AreAlike curs)

play-AreAlike :
    (history : List (Call × List ℕ)) (ps : List FtAbortPoller) (calls reduces : ℕ) (active : Bool)
    → AreAlike calls reduces active ps
    → (calls' : ℕ) × (reduces' : ℕ) × (active' : Bool) × AreAlike calls' reduces' active'
        (play ps history)
play-AreAlike [] ps calls reduces active a = (calls, reduces, active, a)
play-AreAlike ((call, curs) ∷ rest) ps calls reduces active a =
    play-AreAlike rest (each call (reading ps curs) (reading ps curs))
      (next_calls call active calls) (next_reduces call active reduces)
      (next_active call (reading ps curs) active)
      (each-AreAlike call (reading ps curs) ps curs calls reduces active a)

-- After any history of calls, made on every rank, with whatever each rank read of the counter, all
-- ranks have taken part in the same number of collectives and agree on whether a forward is active;
-- and the next call, whatever they read then, returns the same on every rank: all leave the forward
-- or none.
pub play-AreAll :
    (firsts : List ℕ) (history : List (Call × List ℕ)) (call : Call) (curs : List ℕ)
    → let ps = play (start firsts) history in
      ((calls : ℕ) × (reduces : ℕ) × (active : Bool) × AreAlike calls reduces active ps)
      × ((b : Bool) × AreAll b call (reading ps curs) ps)
play-AreAll firsts history call curs =
    let (calls, reduces, active, a) =
      play-AreAlike history (start firsts) 0 0 false (start-AreAlike firsts) in
    (
      (calls, reduces, active, a),
      (
        common call (reading (play (start firsts) history) curs) active,
        common-AreAll call (reading (play (start firsts) history) curs)
            (play (start firsts) history) calls reduces active a,
      ),
    )

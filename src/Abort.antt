-- ===== src/Abort.antt =====
-- deltaserve/coordinator.py, FtAbortPoller: when the ranks of a tensor-parallel group abandon a
-- finetuning-only forward. The arrival counter is written by another process: what each rank reads
-- of it is an argument. The collective MAX over the group is `any`: each rank puts in its flag and
-- gets out whether some rank put in 1. The launch-ahead gate waits for the GPU and has no model.
pub mod Symmetry
mod Tests
use delta_serve_v_llm.Common.{
  ℕ, suc, Bool, true, false, not, ◌&&◌, ◌||◌, List, [], ◌∷◌, ◌==◌, if◌then◌else◌,
}

pub record FtAbortPoller : Type 0 where
  pub seen : ℕ
  pub entry_mark : ℕ
  pub layer_calls : ℕ
  pub reduces : ℕ
  pub active : Bool

-- A new poller, with what it reads.
unfoldable pub init : ℕ → FtAbortPoller
init cur = record { seen = cur; entry_mark = cur; layer_calls = 0; reduces = 0; active = false }

unfoldable pub note_served : FtAbortPoller → ℕ → FtAbortPoller
note_served p cur = record p { seen = cur }

-- What a rank puts into the collective of `entry`, and what it does with the result.
unfoldable pub entry_flag : FtAbortPoller → ℕ → Bool
entry_flag p cur = not (cur == p.seen)

unfoldable pub entry : FtAbortPoller → ℕ → Bool → FtAbortPoller
entry p cur aborted = record p {
  entry_mark = cur;
  layer_calls = 0;
  reduces = suc p.reduces;
  active = not aborted;
}

unfoldable pub layer_flag : FtAbortPoller → ℕ → Bool
layer_flag p cur = not (cur == p.entry_mark)

unfoldable pub layer : FtAbortPoller → FtAbortPoller
layer p = record p { layer_calls = suc p.layer_calls; reduces = suc p.reduces }

-- Whether `hook_check` takes part in a collective.
unfoldable pub takes_part : FtAbortPoller → Bool → Bool
takes_part p boundary = boundary && p.active

unfoldable pub finish : FtAbortPoller → ℕ → FtAbortPoller
finish p cur = record p { active = false; seen = cur }

-- The ranks of a group, each with what it reads of the counter.
abbrev pub Ranks : Type 0
Ranks = List (FtAbortPoller × ℕ)

-- The collective of `_symmetric` over the ranks' flags.
unfoldable pub symmetric : (FtAbortPoller → ℕ → Bool) → Ranks → Bool
symmetric flag [] = false
symmetric flag ((p, cur) ∷ rs) = flag p cur || symmetric flag rs

-- One call on every rank of the group.
pub data Call : Type 0 where
  serves enters finishes : Call
  hooks : Bool → Call

abbrev pub after : Call → Ranks → FtAbortPoller → ℕ → FtAbortPoller
after serves rs p cur = note_served p cur
after enters rs p cur = entry p cur (symmetric entry_flag rs)
after finishes rs p cur = finish p cur
after (hooks boundary) rs p cur = if takes_part p boundary then layer p else p

-- What the call returns on a rank: whether the forward is to be abandoned.
unfoldable pub decision : Call → Ranks → FtAbortPoller → Bool
unfolding symmetric takes_part
decision serves rs p = false
decision enters rs p = symmetric entry_flag rs
decision finishes rs p = false
decision (hooks boundary) rs p = if takes_part p boundary then symmetric layer_flag rs else false

-- ===== src/Coordinator/Relay.antt =====
-- Tensor parallelism in deltaserve/coordinator.py: the engine decides, a command crosses to the
-- worker that has the backward child, and its ack crosses back.
use delta_serve_v_llm.Common.{
  ℕ, suc, ◌+◌, ◌≤◌, ◌≡◌, refl, Bool, true, false, Option, none, some, List, [], ◌∷◌, ◌++◌, arith,
  if◌then◌else◌,
}
use delta_serve_v_llm.Coordinator.{
  Coordinator, Ack, ChildCall, TriggerCmd, set_corpus_meta, set_pause, notify_buffer_full,
  trigger_backward, take_trigger_cmd, execute_trigger, poll_backward, apply_relayed_done,
  poll_backward_relay, pause_first, poll_own_backward_ack, take_relay_ack,
  relay_backward_outstanding,
}

-- The engine and the worker under tensor parallelism together: the engine triggers, the worker
-- takes and executes the command.
abbrev pub relay : Coordinator → Coordinator → ℕ → Coordinator
relay engine worker now = execute_trigger worker (take_trigger_cmd (trigger_backward engine now)).1

-- Outside of profiling, a relayed trigger asks the worker's child for exactly what a local trigger
-- would ask of it, once the corpus size has been sent. Worker and engine then have a backward
-- outstanding, and the engine's gate is closed.
pub relay-direct :
    (engine worker : Coordinator) (now : ℕ)
    → engine.child ≡ false
    → engine.relay_mode ≡ true
    → engine.profiling ≡ false
    → worker.child ≡ true
    → worker.corpus_meta_relayed ≡ true
    → let local = record engine {
      child = true;
      sent = worker.sent;
      fwd_throttle_active = worker.fwd_throttle_active;
    } in
      ((relay engine worker now).sent ≡ (trigger_backward local now).sent)
      × ((relay engine worker now).pending_backward ≡ true)
      × ((trigger_backward engine now).pending_backward ≡ true)
      × ((trigger_backward engine now).admission_open ≡ false)
unfolding trigger_backward take_trigger_cmd execute_trigger
relay-direct engine worker now h1 h2 h3 h4 h5 =
    (ground arith, ground arith, ground arith, ground arith)

-- How often the size of the corpus has been sent.
abbrev pub metas : List ChildCall → ℕ
metas [] = 0
metas (set_corpus_meta n ∷ ms) = suc (metas ms)
metas (set_pause b ∷ ms) = metas ms
metas (notify_buffer_full n lens epoch ∷ ms) = metas ms

abbrev pub execute_all : Coordinator → List (Option TriggerCmd) → Coordinator
execute_all w [] = w
execute_all w (cmd ∷ cmds) = execute_all (execute_trigger w cmd) cmds

metas-append : (xs ys : List ChildCall) → metas (xs ++ ys) ≡ metas xs + metas ys
metas-append [] ys = omega arith
metas-append (set_corpus_meta n ∷ xs) ys = omega (arith, metas-append xs ys)
metas-append (set_pause b ∷ xs) ys = metas-append xs ys
metas-append (notify_buffer_full n lens epoch ∷ xs) ys = metas-append xs ys

metas-pause_first : (b : Bool) → metas (pause_first b) ≡ 0
metas-pause_first true = refl
metas-pause_first false = refl

-- The size has been sent once if the flag says so, and never if not.
abbrev HasSent : Coordinator → Type 0
HasSent w = metas w.sent ≡ (if w.corpus_meta_relayed then 1 else 0)

metas-command :
    (held : Bool) (n epoch : ℕ) (lens : List ℕ)
    → metas (pause_first held ++ notify_buffer_full n lens epoch ∷ []) ≡ 0
metas-command true n epoch lens = refl
metas-command false n epoch lens = refl

execute_trigger-HasSent :
    (w : Coordinator) (cmd : Option TriggerCmd) → HasSent w → HasSent (execute_trigger w cmd)
unfolding execute_trigger
execute_trigger-HasSent w none h = h
execute_trigger-HasSent w (some cmd) h =
    let calls =
      pause_first w.fwd_throttle_active
      ++ notify_buffer_full cmd.n cmd.sample_lens cmd.epoch ∷ [] in
    ground (
      arith,
      metas-append w.sent (set_corpus_meta cmd.total_tokens_per_epoch ∷ calls),
      metas-append w.sent calls,
      metas-command w.fwd_throttle_active cmd.n cmd.epoch cmd.sample_lens,
    )

execute_all-HasSent :
    (w : Coordinator) (cmds : List (Option TriggerCmd)) → HasSent w → HasSent (execute_all w cmds)
execute_all-HasSent w [] h = h
execute_all-HasSent w (cmd ∷ cmds) h =
    execute_all-HasSent (execute_trigger w cmd) cmds (execute_trigger-HasSent w cmd h)

-- A worker that has not sent the size of the corpus sends it to its child at most once, whatever
-- commands arrive.
pub execute_all-sends_meta_once :
    (w : Coordinator) (cmds : List (Option TriggerCmd))
    → w.corpus_meta_relayed ≡ false
    → metas w.sent ≡ 0
    → metas (execute_all w cmds).sent ≤ 1
execute_all-sends_meta_once w cmds h e = ground (arith, execute_all-HasSent w cmds)

-- An ack that is relayed to an engine with a backward outstanding does to it what the same ack from
-- a child of its own would do, and hands the same samples to the hook.
pub apply_relayed_done-poll_backward :
    (c : Coordinator) (ack : Ack) (alive : Option Bool) (now : ℕ)
    → c.relay_mode ≡ true
    → c.pending_backward ≡ true
    → c.child ≡ true
    → apply_relayed_done c (some ack) ≡ poll_backward c (some ack) alive now
unfolding apply_relayed_done poll_backward
apply_relayed_done-poll_backward c ack alive now h1 h2 h3 = ground arith

-- A worker with a backward outstanding hands out the child's ack at the poll that receives it, is
-- not outstanding afterwards and hands out nothing later; until the child answers it hands out
-- nothing and stays outstanding.
pub poll_backward_relay_once :
    (w : Coordinator) (ack : Ack) (later : Option Ack)
    → w.relay_ack ≡ none
    → w.pending_backward ≡ true
    → w.child ≡ true
    → let (w', out) = poll_backward_relay w (some ack) in
      (out ≡ some ack)
      × (relay_backward_outstanding w' ≡ false)
      × ((poll_backward_relay w' later).1 ≡ none)
      × ((poll_backward_relay w none).1 ≡ none)
      × (relay_backward_outstanding (poll_backward_relay w none).0 ≡ true)
unfolding poll_backward_relay poll_own_backward_ack take_relay_ack relay_backward_outstanding
poll_backward_relay_once w ack later h1 h2 h3 =
    (ground arith, ground arith, ground arith, ground arith, ground arith)

-- ===== src/Backward/Link.antt =====
-- deltaserve/backward_process.py, BackwardProcess: the engine's handle of the backward child, and
-- the two ends of the pipe together. A pipe is the list of messages not yet received, in the order
-- of sending. Starting the process and joining it have no model.
pub mod Order
use delta_serve_v_llm.Common.{
  ℕ, Bool, true, false, not, ◌&&◌, ◌||◌, Option, none, some, List, [], ◌∷◌, ◌++◌, ◌≡◌,
  if◌then◌else◌,
}
use delta_serve_v_llm.Backward.Child.{
  Host, Command, set_corpus_meta, process_activations, Event, BackwardService, init, dispatch,
  ready,
}

pub record BackwardProcess (F R : Type 0) : Type 0 where
  -- `_conn is not None`, and `_proc`: none, or whether it is alive.
  pub conn : Bool
  pub proc : Option Bool
  pub gpu_grant : Bool
  pub to_child : List (Command F)
  pub from_child : List (Event F R)

module _ {F R : Type 0} where
  unfoldable pub is_alive : BackwardProcess F R → Bool
  is_alive p = elim p.proc [ none ↦ false | some alive ↦ alive ]

  -- A send to a child that may be gone: skipped without a live child, and where the pipe raises.
  unfoldable pub send_if_alive : BackwardProcess F R → Command F → Bool → BackwardProcess F R
  unfolding is_alive
  send_if_alive p c raises =
      if p.conn && is_alive p && not raises
      then record p { to_child = p.to_child ++ (c ∷ []) }
      else p

  unfoldable pub notify_buffer_full :
      BackwardProcess F R → ℕ → List ℕ → ℕ → Bool → BackwardProcess F R
  unfolding send_if_alive
  notify_buffer_full p n sample_lens epoch raises =
      send_if_alive p (process_activations n sample_lens epoch) raises

  unfoldable pub send_corpus_meta : BackwardProcess F R → ℕ → Bool → BackwardProcess F R
  unfolding send_if_alive
  send_corpus_meta p total raises = send_if_alive p (set_corpus_meta total) raises

  unfoldable pub set_pause : BackwardProcess F R → Bool → BackwardProcess F R
  set_pause p is_paused = record p { gpu_grant = not is_paused }

  -- The oldest message that is there, if the pipe does not raise.
  unfoldable pub receive :
      BackwardProcess F R → List (Event F R) → BackwardProcess F R × Option (Event F R)
  receive p [] = (p, none)
  receive p (e ∷ es) = (record p { from_child = es }, some e)

  unfoldable pub poll_response :
      BackwardProcess F R → Bool → BackwardProcess F R × Option (Event F R)
  unfolding receive
  poll_response p raises = if p.conn && not raises then receive p p.from_child else (p, none)

  -- The synchronous requests (`ping`, `share_weights`, `checksum`, `share_activations`,
  -- `share_lora_buffers`, `hash_activations`): `posted` is what the child puts into the pipe before
  -- the timeout; none is the TimeoutError.
  unfoldable pub ask :
      BackwardProcess F R → Command F → List (Event F R) → BackwardProcess F R × Option (Event F R)
  unfolding receive
  ask p c posted =
      receive (record p { to_child = p.to_child ++ (c ∷ []); from_child = p.from_child ++ posted })
        (p.from_child ++ posted)

-- The engine's handle, the child, whether its loop runs, and a record of what was sent and
-- received.
pub record System (F R : Type 0) : Type 0 where
  pub parent : BackwardProcess F R
  pub child : BackwardService F
  pub runs : Bool
  pub sent : List (Command F)
  pub received : List (Event F R)

module _ {F R : Type 0} (h : Host F R) where
  -- After the handshake's first message was sent.
  unfoldable pub spawned : System F R
  unfolding init
  spawned = record {
    parent = record {
      conn = true;
      proc = some true;
      gpu_grant = true;
      to_child = [];
      from_child = ready ∷ [];
    };
    child = init;
    runs = true;
    sent = [];
    received = [];
  }

  unfoldable pub sends : System F R → Command F → Bool → System F R
  unfolding send_if_alive is_alive
  sends s c raises = record s {
    parent = send_if_alive s.parent c raises;
    sent = if s.parent.conn && is_alive s.parent && not raises then s.sent ++ (c ∷ []) else s.sent;
  }

  unfoldable pub took : System F R → BackwardProcess F R × Option (Event F R) → System F R
  took s r = record s {
    parent = r.0;
    received = elim r.1 [ none ↦ s.received | some e ↦ s.received ++ (e ∷ []) ];
  }

  unfoldable pub polls : System F R → Bool → System F R
  unfolding poll_response took
  polls s raises = took s (poll_response s.parent raises)

  -- The child's loop takes the oldest command.
  unfoldable pub takes : System F R → ℕ → Command F → List (Command F) → System F R
  unfolding dispatch
  takes s cur c cs =
      let d : BackwardService F × (List (Event F R) × Bool) = dispatch h s.child c cur in
      record s {
        parent = record s.parent { to_child = cs; from_child = s.parent.from_child ++ d.1.0 };
        child = d.0;
        runs = d.1.1;
      }

  -- What can happen next: the engine sends, polls, or toggles the grant; the running child takes a
  -- command; the child dies.
  pub data Step : System F R → System F R → Type 0 where
    sending : (s : System F R) (c : Command F) (raises : Bool) → Step s (sends s c raises)
    polling : (s : System F R) (raises : Bool) → Step s (polls s raises)
    pausing : (s : System F R) (b : Bool) → Step s (record s { parent = set_pause s.parent b })
    taking :
        (s : System F R) (cur : ℕ) (c : Command F) (cs : List (Command F))
        → s.runs ≡ true
        → s.parent.to_child ≡ c ∷ cs
        → Step s (takes s cur c cs)
    dying :
        (s : System F R)
        → Step s (record s { parent = record s.parent { proc = some false }; runs = false })

  pub data Reachable : System F R → Type 0 where
    at_start : Reachable spawned
    next : {s t : System F R} → Reachable s → Step s t → Reachable t

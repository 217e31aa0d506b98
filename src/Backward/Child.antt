-- ===== src/Backward/Child.antt =====
-- deltaserve/bwd_services/base.py, BackwardService: the backward child's command loop. The pipe is
-- the list of commands still to be received, whose end is the end of file. Floating-point numbers,
-- hashes and what a model's own service computes are parameters (`Host`); the GPU events that time
-- a cycle, and the log lines, have no model.
pub mod Protocol
pub mod Cycle
use delta_serve_v_llm.Common.{
  ℕ, suc, ◌+◌, Bool, true, false, not, ◌&&◌, ◌||◌, Option, none, some, List, [], ◌∷◌, ◌++◌, map,
  ltb, length, is_some, if◌then◌else◌,
}
use delta_serve_v_llm.Backward.Pause.{Arrivals, unresolved, idle, arrivals_reset}

abbrev pub Tensor : Type 0 → Type 0
Tensor F = List F

-- A dict of named tensors, the names as numbers.
abbrev pub State : Type 0 → Type 0
State F = List (ℕ × Tensor F)

-- The activation buffers; `others` are the entries that only the model's service reads.
pub record Activations (F : Type 0) : Type 0 where
  pub layer_in : List (Tensor F)
  pub concat_input_ids : Option (Tensor F)
  pub others : List (List (Tensor F))

pub record LoraBuffers (F : Type 0) : Type 0 where
  pub slot : ℕ
  pub layers : List (State F)

-- What a model's service has after its backward: the loss, none where it raised, the served
-- adapters' buffers as it left them, and the tensors of its own (the adapters in training, the
-- optimizer's moments).
pub record Backward (F : Type 0) : Type 0 where
  pub loss : Option F
  pub lora_buffers : Option (LoraBuffers F)
  pub trainer : State F

-- What is not in this file: tensor zeros and sums, the hashes, and the two hooks of a model's
-- service. `process_backward` reads the activations, the sample lengths, the row count and the
-- epoch, and writes the served buffers and its own tensors, a part of them where it raises;
-- `verify_activations` is false where it raises.
pub record Host (F R : Type 0) : Type 0 where
  pub zero_value : F
  pub checksum : State F → F
  pub weight_hash_report : State F → State F → R
  pub activation_hash_report : Option (Activations F) → ℕ → R
  pub verify_activations : Activations F → ℕ → Bool
  pub process_backward :
      Activations F → List ℕ → ℕ → ℕ → Option (LoraBuffers F) → State F → Backward F

pub data Which : Type 0 where
  base ft : Which

pub data Command (F : Type 0) : Type 0 where
  shutdown unknown : Command F
  ping : Option ℕ → Command F
  share_weights : State F → State F → Bool → Command F
  checksum : Which → Command F
  share_activations : Activations F → Bool → Command F
  share_lora_buffers : LoraBuffers F → Command F
  hash_activations set_corpus_meta : ℕ → Command F
  process_activations : ℕ → List ℕ → ℕ → Command F

pub data Event (F R : Type 0) : Type 0 where
  ready bye error : Event F R
  pong : Option ℕ → Event F R
  weights_received : ℕ → ℕ → Option R → Event F R
  checksum_value : Which → F → Event F R
  activations_received lora_buffers_received : ℕ → Event F R
  activation_hashes : R → Event F R
  activations_processed : ℕ → Option F → Event F R

pub record BackwardService (F : Type 0) : Type 0 where
  pub shared_base : Option (State F)
  pub shared_ft : Option (State F)
  pub activations : Option (Activations F)
  pub verify : Bool
  pub lora_buffers : Option (LoraBuffers F)
  -- The tensors of the model's own service.
  pub trainer : State F
  pub arrivals : Arrivals
  pub total_tokens_trained : ℕ
  pub epoch_processed_tokens : ℕ
  pub cur_epoch_seen : ℕ
  pub total_tokens_per_epoch : ℕ

unfoldable pub init : {F : Type 0} → BackwardService F
init = record {
  shared_base = none;
  shared_ft = none;
  activations = none;
  verify = false;
  lora_buffers = none;
  trainer = [];
  arrivals = record { signal = unresolved; arr_seen = 0; arr_state = idle; arr_since = 0 };
  total_tokens_trained = 0;
  epoch_processed_tokens = 0;
  cur_epoch_seen = 0;
  total_tokens_per_epoch = 0;
}

module _ {F R : Type 0} (h : Host F R) where
  -- `self.shared.get(which) or {}`
  unfoldable pub shared : BackwardService F → Which → State F
  shared s base = elim s.shared_base [ none ↦ [] | some d ↦ d ]
  shared s ft = elim s.shared_ft [ none ↦ [] | some d ↦ d ]

  unfoldable pub handle_share_weights :
      BackwardService F → State F → State F → Bool → BackwardService F × Event F R
  handle_share_weights s b f print_hash = (
    record s { shared_base = some b; shared_ft = some f },
    weights_received (length b) (length f)
        (if print_hash then some (h.weight_hash_report b f) else none),
  )

  unfoldable pub handle_share_activations :
      BackwardService F → Activations F → Bool → BackwardService F × Event F R
  handle_share_activations s buffers print_hash = (
    record s { activations = some buffers; verify = print_hash },
    activations_received (length buffers.layer_in),
  )

  -- `t.zero_()` on every tensor of the buffers.
  unfoldable pub zero_buffers : Activations F → Activations F
  zero_buffers a =
      let zero_ : Tensor F → Tensor F = map (λ (x : F). h.zero_value) in
      record {
        layer_in = map zero_ a.layer_in;
        concat_input_ids = elim a.concat_input_ids [ none ↦ none | some t ↦ some (zero_ t) ];
        others = map (map zero_) a.others;
      }

  unfoldable pub zero_shared : Option (Activations F) → Option (Activations F)
  unfolding zero_buffers
  zero_shared none = none
  zero_shared (some a) = some (zero_buffers a)

  unfoldable pub new_epoch : BackwardService F → ℕ → BackwardService F
  new_epoch s epoch =
      if ltb s.cur_epoch_seen epoch
      then record s { epoch_processed_tokens = 0; cur_epoch_seen = epoch }
      else s

  -- `can_compute`
  unfoldable pub can_compute : Option (Activations F) → ℕ → List ℕ → Bool
  can_compute none n lens = false
  can_compute (some a) n [] = false
  can_compute (some a) n (x ∷ xs) = ltb 0 n && is_some a.concat_input_ids

  -- Nothing is computed or written.
  unfoldable pub untouched : BackwardService F → Backward F
  untouched s = record { loss = none; lora_buffers = s.lora_buffers; trainer = s.trainer }

  -- The cycle's backward: skipped where there is nothing to compute or the check raises.
  unfoldable pub cycle_backward : BackwardService F → ℕ → List ℕ → ℕ → Backward F
  unfolding can_compute untouched
  cycle_backward s n lens epoch = elim s.activations [
    | none ↦ untouched s
    | some a ↦
        if can_compute (some a) n lens && (not s.verify || h.verify_activations a n)
        then h.process_backward a lens n epoch s.lora_buffers s.trainer
        else untouched s
  ]

  -- What the backward wrote, on every branch.
  unfoldable pub written : BackwardService F → Backward F → BackwardService F
  written s b = record s { lora_buffers = b.lora_buffers; trainer = b.trainer }

  -- The counters move only where the hooks did not raise.
  unfoldable pub count_cycle : BackwardService F → ℕ → Option F → BackwardService F
  count_cycle s n none = s
  count_cycle s n (some loss) = record s {
    total_tokens_trained = s.total_tokens_trained + n;
    epoch_processed_tokens = s.epoch_processed_tokens + n;
  }

  -- `cur` is the arrival counter as the reset reads it.
  unfoldable pub handle_process_activations :
      BackwardService F → ℕ → List ℕ → ℕ → ℕ → BackwardService F × Event F R
  unfolding new_epoch cycle_backward written count_cycle zero_shared
  handle_process_activations s n lens epoch cur =
      let s1 : BackwardService F =
        new_epoch (record s { arrivals = arrivals_reset s.arrivals cur }) epoch in
      let b : Backward F = cycle_backward s1 n lens epoch in
      let s2 : BackwardService F = count_cycle (written s1 b) n b.loss in
      (record s2 { activations = zero_shared s2.activations }, activations_processed n b.loss)

  -- One turn of the loop, with the arrival counter's reading: the state, what is sent, and whether
  -- the loop goes on.
  unfoldable pub dispatch :
      BackwardService F → Command F → ℕ → BackwardService F × (List (Event F R) × Bool)
  unfolding handle_share_weights shared handle_share_activations handle_process_activations
  dispatch s shutdown cur = (s, (bye ∷ [], false))
  dispatch s (ping d) cur = (s, (pong d ∷ [], true))
  dispatch s (share_weights b f p) cur =
      ((handle_share_weights s b f p).0, ((handle_share_weights s b f p).1 ∷ [], true))
  dispatch s (checksum w) cur = (s, (checksum_value w (h.checksum (shared s w)) ∷ [], true))
  dispatch s (share_activations b p) cur =
      ((handle_share_activations s b p).0, ((handle_share_activations s b p).1 ∷ [], true))
  dispatch s (share_lora_buffers p) cur =
      (record s { lora_buffers = some p }, (lora_buffers_received (length p.layers) ∷ [], true))
  dispatch s (hash_activations n) cur =
      (s, (activation_hashes (h.activation_hash_report s.activations n) ∷ [], true))
  dispatch s (set_corpus_meta t) cur = (record s { total_tokens_per_epoch = t }, ([], true))
  dispatch s (process_activations n lens epoch) cur = (
    (handle_process_activations s n lens epoch cur).0,
    ((handle_process_activations s n lens epoch cur).1 ∷ [], true),
  )
  dispatch s unknown cur = (s, (error ∷ [], true))

  -- The loop, to the end of the pipe or a shutdown.
  unfoldable pub loop :
      BackwardService F → List (Command F × ℕ) → BackwardService F × List (Event F R)
  unfolding dispatch
  loop s [] = (s, [])
  loop s ((c, cur) ∷ cs) =
      let d : BackwardService F × (List (Event F R) × Bool) = dispatch s c cur in
      let rest : BackwardService F × List (Event F R) = loop d.0 cs in
      if d.1.1 then (rest.0, d.1.0 ++ rest.1) else (d.0, d.1.0)

  -- `run`
  unfoldable pub run :
      BackwardService F → List (Command F × ℕ) → BackwardService F × List (Event F R)
  unfolding loop
  run s cs = ((loop s cs).0, ready ∷ (loop s cs).1)

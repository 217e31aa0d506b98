-- ===== src/Backward/Child/Protocol.antt =====
-- What the backward child answers to a sequence of commands: `run` of
-- deltaserve/bwd_services/base.py.
use delta_serve_v_llm.Common.{ℕ, ◌≡◌, refl, ap, Option, List, [], ◌∷◌, ◌++◌, map}
use delta_serve_v_llm.Backward.Child.{
  Host, Which, Command, shutdown, unknown, ping, share_weights, checksum, share_activations,
  share_lora_buffers, hash_activations, set_corpus_meta, process_activations, Event, ready, bye,
  error, pong, weights_received, checksum_value, activations_received, lora_buffers_received,
  activation_hashes, activations_processed, BackwardService, dispatch, loop, run,
  handle_share_weights, handle_share_activations, handle_process_activations,
}

-- A message from the child, without what the child computed.
pub data Kind : Type 0 where
  is_ready is_bye is_error is_weights is_activations is_lora is_hashes : Kind
  is_pong : Option ℕ → Kind
  is_checksum : Which → Kind
  is_processed : ℕ → Kind

module _ {F R : Type 0} where
  abbrev pub kind : Event F R → Kind
  kind ready = is_ready
  kind bye = is_bye
  kind error = is_error
  kind (pong d) = is_pong d
  kind (weights_received b f r) = is_weights
  kind (checksum_value w v) = is_checksum w
  kind (activations_received n) = is_activations
  kind (lora_buffers_received n) = is_lora
  kind (activation_hashes r) = is_hashes
  kind (activations_processed n loss) = is_processed n

-- The answer that the sender of a command waits for; the corpus meta is not answered.
abbrev pub answer : {F : Type 0} → Command F → List Kind
answer shutdown = is_bye ∷ []
answer unknown = is_error ∷ []
answer (ping d) = is_pong d ∷ []
answer (share_weights b f p) = is_weights ∷ []
answer (checksum w) = is_checksum w ∷ []
answer (share_activations b p) = is_activations ∷ []
answer (share_lora_buffers p) = is_lora ∷ []
answer (hash_activations n) = is_hashes ∷ []
answer (set_corpus_meta t) = []
answer (process_activations n lens epoch) = is_processed n ∷ []

-- The commands up to the first shutdown.
abbrev pub heard : {F : Type 0} → List (Command F × ℕ) → List (Command F)
heard [] = []
heard ((shutdown, cur) ∷ cs) = shutdown ∷ []
heard ((unknown, cur) ∷ cs) = unknown ∷ heard cs
heard ((ping d, cur) ∷ cs) = ping d ∷ heard cs
heard ((share_weights b f p, cur) ∷ cs) = share_weights b f p ∷ heard cs
heard ((checksum w, cur) ∷ cs) = checksum w ∷ heard cs
heard ((share_activations b p, cur) ∷ cs) = share_activations b p ∷ heard cs
heard ((share_lora_buffers p, cur) ∷ cs) = share_lora_buffers p ∷ heard cs
heard ((hash_activations n, cur) ∷ cs) = hash_activations n ∷ heard cs
heard ((set_corpus_meta t, cur) ∷ cs) = set_corpus_meta t ∷ heard cs
heard ((process_activations n lens epoch, cur) ∷ cs) = process_activations n lens epoch ∷ heard cs

abbrev pub answers : {F : Type 0} → List (Command F) → List Kind
answers [] = []
answers (c ∷ cs) = answer c ++ answers cs

module _ {F R : Type 0} (h : Host F R) where
  loop-answers :
      (cs : List (Command F × ℕ)) (s : BackwardService F)
      → map kind (loop h s cs).1 ≡ answers (heard cs)
  unfolding loop dispatch handle_share_weights handle_share_activations handle_process_activations
  loop-answers [] s = refl
  loop-answers ((shutdown, cur) ∷ cs) s = refl
  loop-answers ((unknown, cur) ∷ cs) s = ap (λ (t : List Kind). is_error ∷ t) (loop-answers cs s)
  loop-answers ((ping d, cur) ∷ cs) s = ap (λ (t : List Kind). is_pong d ∷ t) (loop-answers cs s)
  loop-answers ((share_weights b f p, cur) ∷ cs) s =
      ap (λ (t : List Kind). is_weights ∷ t)
        (loop-answers cs (dispatch h s (share_weights b f p) cur).0)
  loop-answers ((checksum w, cur) ∷ cs) s =
      ap (λ (t : List Kind). is_checksum w ∷ t) (loop-answers cs s)
  loop-answers ((share_activations b p, cur) ∷ cs) s =
      ap (λ (t : List Kind). is_activations ∷ t)
        (loop-answers cs (dispatch h s (share_activations b p) cur).0)
  loop-answers ((share_lora_buffers p, cur) ∷ cs) s =
      ap (λ (t : List Kind). is_lora ∷ t)
        (loop-answers cs (dispatch h s (share_lora_buffers p) cur).0)
  loop-answers ((hash_activations n, cur) ∷ cs) s =
      ap (λ (t : List Kind). is_hashes ∷ t) (loop-answers cs s)
  loop-answers ((set_corpus_meta t, cur) ∷ cs) s =
      loop-answers cs (dispatch h s (set_corpus_meta t) cur).0
  loop-answers ((process_activations n lens epoch, cur) ∷ cs) s =
      ap (λ (t : List Kind). is_processed n ∷ t)
        (loop-answers cs (dispatch h s (process_activations n lens epoch) cur).0)

  -- The child announces itself, then answers each command up to the first shutdown, in order, with
  -- the one message its sender waits for; the corpus meta with none. A backward cycle is answered
  -- with its own row count on every branch: computed, skipped or failed.
  pub run-answers :
      (s : BackwardService F) (cs : List (Command F × ℕ))
      → map kind (run h s cs).1 ≡ is_ready ∷ answers (heard cs)
  unfolding run
  run-answers s cs = ap (λ (t : List Kind). is_ready ∷ t) (loop-answers cs s)

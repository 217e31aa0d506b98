-- ===== src/Backward/Tests.antt =====
-- The backward child on small inputs, and its theorems there.
use delta_serve_v_llm.Common.{
  ℕ, ◌+◌, ◌≡◌, ◌≤◌, ◌<◌, ◌⊎◌, inl, inr, refl, Bool, true, false, none, some, List, [], ◌∷◌, arith,
  ltb, if◌then◌else◌,
}
use delta_serve_v_llm.Backward.Pause.{
  attached, idle, Arrivals, Reads, Round, deadline_after, entry_blocked, maybe_pause,
  arrival_blocked, resolved, blocked_attached, wait_loop, ends, pause_poll,
}
use delta_serve_v_llm.Backward.Pause.Wait.{Ending, maybe_pause-ends}
use delta_serve_v_llm.Backward.Pause.Group.{Entry, group_pause, group_pause-together}
use delta_serve_v_llm.Backward.RunAhead.{boundary, before, boundary-waits}
use delta_serve_v_llm.Backward.Child.{
  Host, Backward, Activations, Command, BackwardService, init, ping, process_activations,
  set_corpus_meta, share_activations, handle_process_activations,
}
use delta_serve_v_llm.Backward.Child.Cycle.{Cycle, handle_process_activations-Cycle}
use delta_serve_v_llm.Backward.Link.{System, spawned, sends, polls}

-- The grant is cleared, then set again; nothing arrives.
abbrev reads_at : ℕ → Bool → Reads
reads_at now granted = record {
  attach = none;
  now = now;
  counter = 4;
  set_pending = granted;
  set_paused = granted;
  counter_done = 4;
  set_poll = granted;
}

abbrev quiet : Arrivals
quiet = record { signal = attached; arr_seen = 4; arr_state = idle; arr_since = 0 }

abbrev rounds : List Round
rounds =
    record { reads = reads_at 1002 false; clock = 1003 }
    ∷ record { reads = reads_at 1005 true; clock = 1006 }
    ∷ record { reads = reads_at 6000 true; clock = 6001 }
    ∷ []

abbrev last_round : List Round
last_round = record { reads = reads_at 6000 true; clock = 6001 } ∷ []

maybe_pause_runs :
    maybe_pause false (reads_at 1000 false) 1000 rounds quiet ≡ some (quiet, last_round)
unfolding maybe_pause entry_blocked wait_loop deadline_after ends pause_poll arrival_blocked
    resolved blocked_attached
maybe_pause_runs = refl

blocked_first : (entry_blocked quiet false (reads_at 1000 false)).1 ≡ true
unfolding entry_blocked
blocked_first = refl

late_enough : deadline_after 1000 ≤ 6001
unfolding deadline_after
late_enough = omega arith

maybe_pause-ends_example :
    (b : Arrivals) × (rest : List Round) × (maybe_pause false
        (reads_at 1000 false)
        1000
        rounds
        quiet
      ≡ some (b, rest))
    × Ending rounds (deadline_after 1000) (entry_blocked quiet false (reads_at 1000 false)).0 b rest
maybe_pause-ends_example =
    maybe_pause-ends false (reads_at 1000 false) 1000 rounds quiet blocked_first
      (inr (inr (inl late_enough)))

-- Two ranks, the first with its grant cleared.
abbrev entries : ℕ → Entry
entries k = record { granted = ltb 0 k; reads = reads_at 1000 (ltb 0 k); start = 1000 }

abbrev group_rounds : List (ℕ → Round)
group_rounds = (λ (k : ℕ). record { reads = reads_at 6000 true; clock = 7000 + k }) ∷ []

past_deadline : (k : ℕ) → deadline_after 1000 ≤ 6999 + k
unfolding deadline_after
past_deadline k = omega arith

group_pause-together_example :
    (n : ℕ) × (((k : ℕ)
        → (b : Arrivals) × (group_pause 2 entries (λ (j : ℕ). quiet) group_rounds k ≡ some (b, n)))
      × (((k : ℕ) → k < 2 → (entry_blocked quiet (entries k).granted (entries k).reads).1 ≡ false)
          ⊎ (0 < n)))
group_pause-together_example =
    group_pause-together 2 entries (λ (j : ℕ). quiet) group_rounds
      (inl (λ k h. omega (arith, past_deadline k)))

boundary-waits_example :
    (boundary true 2 5 (before true 2 5)).1 ≡ (if ltb 5 2 then none else some 3)
boundary-waits_example = boundary-waits 2 5 (omega arith)

-- A model whose backward gives the first sample's length as the loss and publishes to slot one.
abbrev host : Host ℕ ℕ
host = record {
  zero_value = 0;
  checksum = λ s. 0;
  weight_hash_report = λ b f. 0;
  activation_hash_report = λ a n. n;
  verify_activations = λ a n. true;
  process_backward = λ a lens n epoch lora own. record {
    loss = elim lens [ [] ↦ none | x ∷ xs ↦ some x ];
    lora_buffers = some (record { slot = 1; layers = own ∷ [] });
    trainer = (0, n ∷ []) ∷ own;
  };
}

abbrev buffers : Activations ℕ
buffers = record { layer_in = (7 ∷ 8 ∷ []) ∷ []; concat_input_ids = some (5 ∷ 6 ∷ []); others = [] }

abbrev commands : List (Command ℕ × ℕ)
commands =
    (share_activations buffers false, 0)
    ∷ (set_corpus_meta 10, 0)
    ∷ (process_activations 2 (2 ∷ []) 1, 0)
    ∷ (process_activations 0 [] 1, 0)
    ∷ (ping (some 3), 0)
    ∷ []

abbrev sharing : BackwardService ℕ
sharing = record init { activations = some buffers }

handle_process_activations-Cycle_example :
    (b : Backward ℕ) × Cycle host sharing 2
      (2 ∷ [])
      1
      0
      (handle_process_activations host sharing 2 (2 ∷ []) 1 0).0
      (handle_process_activations host sharing 2 (2 ∷ []) 1 0).1
      b
handle_process_activations-Cycle_example =
    handle_process_activations-Cycle host sharing 2 (2 ∷ []) 1 0

-- The engine pings, and polls the handshake.
abbrev pinged : System ℕ ℕ
pinged = polls host (sends host (spawned host) (ping none) false) false

-- ===== src/Backward/Child/Cycle.antt =====
-- One backward cycle, and the token counts over a run: `_handle_process_activations` of
-- deltaserve/bwd_services/base.py.
use delta_serve_v_llm.Common.{
  ℕ, ◌+◌, ◌≤◌, ◌≡◌, inl, inr, refl, true, false, not, ◌||◌, Option, none, some, List, [], ◌∷◌, ◌++◌,
  map, arith, if◌then◌else◌, ◌∙◌, Bool-cases, Option-cases, ltb, max, is_some,
}
use delta_serve_v_llm.Backward.Child.{
  Host, Tensor, Activations, Command, shutdown, unknown, ping, share_weights, checksum,
  share_activations, share_lora_buffers, hash_activations, set_corpus_meta, process_activations,
  Event, activations_processed, BackwardService, init, dispatch, loop, run, handle_share_weights,
  zero_shared, zero_buffers, handle_share_activations, handle_process_activations, count_cycle,
  new_epoch, Backward, untouched, cycle_backward, written, can_compute,
}
use delta_serve_v_llm.Backward.Pause.{arrivals_reset}

-- A tensor of the same length as another, with only zeros.
abbrev pub AreZero : {F : Type 0} → F → List F → List F → Type 0
AreZero z [] [] = Unit {0}
AreZero z [] (y ∷ ys) = ⊥
AreZero z (x ∷ xs) [] = ⊥
AreZero z (x ∷ xs) (y ∷ ys) = (y ≡ z) × AreZero z xs ys

abbrev pub AllZero : {F : Type 0} → F → List (Tensor F) → List (Tensor F) → Type 0
AllZero z [] [] = Unit {0}
AllZero z [] (y ∷ ys) = ⊥
AllZero z (x ∷ xs) [] = ⊥
AllZero z (x ∷ xs) (y ∷ ys) = AreZero z x y × AllZero z xs ys

abbrev pub EachZero : {F : Type 0} → F → List (List (Tensor F)) → List (List (Tensor F)) → Type 0
EachZero z [] [] = Unit {0}
EachZero z [] (y ∷ ys) = ⊥
EachZero z (x ∷ xs) [] = ⊥
EachZero z (x ∷ xs) (y ∷ ys) = AllZero z x y × EachZero z xs ys

abbrev pub IdsZero : {F : Type 0} → F → Option (Tensor F) → Option (Tensor F) → Type 0
IdsZero z none none = Unit {0}
IdsZero z none (some u) = ⊥
IdsZero z (some t) none = ⊥
IdsZero z (some t) (some u) = AreZero z t u

-- The buffers after a cycle have the shapes of those before, and hold zeros.
abbrev pub Cleaned : {F : Type 0} → F → Option (Activations F) → Option (Activations F) → Type 0
Cleaned z none none = Unit {0}
Cleaned z none (some b) = ⊥
Cleaned z (some a) none = ⊥
Cleaned z (some a) (some b) =
    AllZero z a.layer_in b.layer_in
    × EachZero z a.others b.others
    × IdsZero z a.concat_input_ids b.concat_input_ids

module _ {F R : Type 0} (h : Host F R) where
  map-AreZero : (t : Tensor F) → AreZero h.zero_value t (map (λ (x : F). h.zero_value) t)
  map-AreZero [] = omega arith
  map-AreZero (x ∷ t) = (refl, map-AreZero t)

  map-AllZero :
      (ts : List (Tensor F)) → AllZero h.zero_value ts (map (map (λ (x : F). h.zero_value)) ts)
  map-AllZero [] = omega arith
  map-AllZero (t ∷ ts) = (map-AreZero t, map-AllZero ts)

  map-EachZero :
      (ts : List (List (Tensor F)))
      → EachZero h.zero_value ts (map (map (map (λ (x : F). h.zero_value))) ts)
  map-EachZero [] = omega arith
  map-EachZero (t ∷ ts) = (map-AllZero t, map-EachZero ts)

  zero_shared-Cleaned : (a : Option (Activations F)) → Cleaned h.zero_value a (zero_shared h a)
  unfolding zero_shared zero_buffers
  zero_shared-Cleaned none = omega arith
  zero_shared-Cleaned (some a) =
      (map-AllZero a.layer_in, map-EachZero a.others, ids a.concat_input_ids)
    where
      ids :
          (o : Option (Tensor F))
          → IdsZero h.zero_value o
              (elim o [ none ↦ none | some t ↦ some (map (λ (x : F). h.zero_value) t) ])
      ids none = omega arith
      ids (some t) = map-AreZero t

  -- What a backward cycle does, on every branch, `b` being its backward.
  pub record Cycle (s : BackwardService F) (n : ℕ) (lens : List ℕ) (epoch cur : ℕ)
      (t : BackwardService F) (reply : Event F R) (b : Backward F) : Type 0 where
    pub acknowledged : reply ≡ activations_processed n b.loss
    pub skipped : can_compute h s.activations n lens ≡ false → b ≡ untouched h s
    pub computed :
        (a : Activations F)
        → s.activations ≡ some a
        → can_compute h (some a) n lens ≡ true
        → b ≡ (
            if not s.verify || h.verify_activations a n
            then h.process_backward a lens n epoch s.lora_buffers s.trainer
            else untouched h s)
    pub published : (t.lora_buffers ≡ b.lora_buffers) × (t.trainer ≡ b.trainer)
    pub trained :
        t.total_tokens_trained ≡ s.total_tokens_trained + (if is_some b.loss then n else 0)
    pub progress :
        t.epoch_processed_tokens
        ≡ (if ltb s.cur_epoch_seen epoch then 0 else s.epoch_processed_tokens)
          + (if is_some b.loss then n else 0)
    pub newest : t.cur_epoch_seen ≡ max s.cur_epoch_seen epoch
    pub cleaned : Cleaned h.zero_value s.activations t.activations
    pub kept :
        (t.shared_base ≡ s.shared_base)
        × (t.shared_ft ≡ s.shared_ft)
        × (t.verify ≡ s.verify)
        × (t.total_tokens_per_epoch ≡ s.total_tokens_per_epoch)

  started : BackwardService F → ℕ → ℕ → BackwardService F
  started s epoch cur = new_epoch h (record s { arrivals = arrivals_reset s.arrivals cur }) epoch

  -- The backward of the cycle reads what the child had before it.
  started-backward :
      (s : BackwardService F) (n : ℕ) (lens : List ℕ) (epoch cur : ℕ)
      → cycle_backward h (started s epoch cur) n lens epoch ≡ cycle_backward h s n lens epoch
  unfolding started new_epoch cycle_backward untouched
  started-backward s n lens epoch cur = elim (Bool-cases (ltb s.cur_epoch_seen epoch)) [
    | inl e ↦ rw e refl
    | inr e ↦ rw e refl
  ]

  cycle_backward-skipped :
      (s : BackwardService F) (n : ℕ) (lens : List ℕ) (epoch : ℕ)
      → can_compute h s.activations n lens ≡ false
      → cycle_backward h s n lens epoch ≡ untouched h s
  unfolding cycle_backward
  cycle_backward-skipped s n lens epoch e = elim (Option-cases s.activations) [
    | inl p ↦ rw (p) refl
    | inr (a, p) ↦ ground (arith, p)
  ]

  cycle_backward-computed :
      (s : BackwardService F) (n : ℕ) (lens : List ℕ) (epoch : ℕ) (a : Activations F)
      → s.activations ≡ some a
      → can_compute h (some a) n lens ≡ true
      → cycle_backward h s n lens epoch ≡ (
          if not s.verify || h.verify_activations a n
          then h.process_backward a lens n epoch s.lora_buffers s.trainer
          else untouched h s)
  unfolding cycle_backward
  cycle_backward-computed s n lens epoch a p e = rw (p, e) refl

  module _ (s : BackwardService F) (n : ℕ) (lens : List ℕ) (epoch cur : ℕ) where
    done : Backward F → BackwardService F
    done b = count_cycle h (written h (started s epoch cur) b) n b.loss

    counts :
        (b : Backward F)
        → ((done b).total_tokens_trained
            ≡ s.total_tokens_trained + (if is_some b.loss then n else 0))
          × ((done b).epoch_processed_tokens
              ≡ (if ltb s.cur_epoch_seen epoch then 0 else s.epoch_processed_tokens)
                + (if is_some b.loss then n else 0))
          × ((done b).cur_epoch_seen ≡ max s.cur_epoch_seen epoch)
    unfolding done count_cycle started new_epoch written
    counts b = elim (Option-cases b.loss) [
      | inl e ↦ rw e (ground arith)
      | inr (l, e) ↦ rw e (ground arith)
    ]

    keeps :
        (b : Backward F)
        → ((done b).activations ≡ s.activations)
          × ((done b).shared_base ≡ s.shared_base)
          × ((done b).shared_ft ≡ s.shared_ft)
          × ((done b).verify ≡ s.verify)
          × ((done b).total_tokens_per_epoch ≡ s.total_tokens_per_epoch)
          × ((done b).lora_buffers ≡ b.lora_buffers)
          × ((done b).trainer ≡ b.trainer)
    unfolding done count_cycle started new_epoch written
    keeps b = elim (Option-cases b.loss) [
      | inl e ↦ rw e (ground arith)
      | inr (l, e) ↦ rw e (ground arith)
    ]

  -- A backward cycle, on every branch: it is acknowledged with the row count of its command and its
  -- loss; the model's backward runs exactly where there is something to compute and no check that
  -- is asked for raises, on the buffers and the tensors as they were, and the served adapters and
  -- the service's own tensors are as it leaves them, also where it raises; where it does not run
  -- there is no loss and they stay; both counters grow by the row count exactly where there is a
  -- loss, the epoch's after being reset by a later epoch; the newest epoch is kept; the activation
  -- buffers keep their shapes and hold zeros, also where the backward failed; the shared weights,
  -- the flag and the corpus total stay.
  pub handle_process_activations-Cycle :
      (s : BackwardService F) (n : ℕ) (lens : List ℕ) (epoch cur : ℕ)
      → (b : Backward F) × Cycle s n lens epoch cur
          (handle_process_activations h s n lens epoch cur).0
          (handle_process_activations h s n lens epoch cur).1
          b
  unfolding handle_process_activations started done
  handle_process_activations-Cycle s n lens epoch cur =
      let e = started-backward s n lens epoch cur in
      let b = cycle_backward h (started s epoch cur) n lens epoch in
      let c = counts s n lens epoch cur b in
      let q = keeps s n lens epoch cur b in
      (
        b,
        record {
          acknowledged = refl;
          skipped = λ p. e ∙ cycle_backward-skipped s n lens epoch p;
          computed = λ a p w. e ∙ cycle_backward-computed s n lens epoch a p w;
          published = (q.5, q.6);
          trained = c.0;
          progress = c.1;
          newest = c.2;
          cleaned = rw q.0 (zero_shared-Cleaned s.activations);
          kept = (q.1, q.2, q.3, q.4);
        },
      )

-- The rows of an acknowledged cycle that has a loss.
abbrev pub rows : {F R : Type 0} → Event F R → ℕ
rows (activations_processed n (some loss)) = n
rows _ = 0

abbrev pub trained_rows : {F R : Type 0} → List (Event F R) → ℕ
trained_rows [] = 0
trained_rows (e ∷ es) = rows e + trained_rows es

module _ {F R : Type 0} (h : Host F R) where
  -- What one command does to the counts.
  dispatch-counts :
      (s : BackwardService F) (c : Command F) (cur : ℕ)
      → ((dispatch h s c cur).0.total_tokens_trained
          ≡ s.total_tokens_trained + trained_rows (dispatch h s c cur).1.0)
        × ((dispatch h s c cur).0.epoch_processed_tokens
            ≤ s.epoch_processed_tokens + trained_rows (dispatch h s c cur).1.0)
  unfolding dispatch handle_share_weights handle_share_activations
  dispatch-counts s shutdown cur = omega arith
  dispatch-counts s unknown cur = omega arith
  dispatch-counts s (ping d) cur = omega arith
  dispatch-counts s (share_weights b f p) cur = omega arith
  dispatch-counts s (checksum w) cur = omega arith
  dispatch-counts s (share_activations b p) cur = omega arith
  dispatch-counts s (share_lora_buffers p) cur = omega arith
  dispatch-counts s (hash_activations n) cur = omega arith
  dispatch-counts s (set_corpus_meta t) cur = omega arith
  dispatch-counts s (process_activations n lens epoch) cur =
      let q = handle_process_activations-Cycle h s n lens epoch cur in
      elim (Option-cases q.0.loss) [
        | inl e ↦ rw (q.1.acknowledged, e) (ground (arith, q.1.trained, q.1.progress, e))
        | inr (l, e) ↦ rw (q.1.acknowledged, e) (ground (arith, q.1.trained, q.1.progress, e))
      ]

  trained_rows-append :
      (xs ys : List (Event F R)) → trained_rows (xs ++ ys) ≡ trained_rows xs + trained_rows ys
  trained_rows-append [] ys = omega arith
  trained_rows-append (e ∷ es) ys = omega (arith, trained_rows-append es ys)

  loop-counts :
      (cs : List (Command F × ℕ)) (s : BackwardService F)
      → ((loop h s cs).0.total_tokens_trained
          ≡ s.total_tokens_trained + trained_rows (loop h s cs).1)
        × ((loop h s cs).0.epoch_processed_tokens
            ≤ s.epoch_processed_tokens + trained_rows (loop h s cs).1)
  unfolding loop
  loop-counts [] s = omega arith
  loop-counts ((c, cur) ∷ cs) s =
      let d = dispatch-counts s c cur in
      let ih = loop-counts cs (dispatch h s c cur).0 in
      elim (Bool-cases (dispatch h s c cur).1.1) [
        | inl e ↦ rw (e, trained_rows-append) (omega (arith, d, ih))
        | inr e ↦ rw e d
      ]

  -- Over any run from a fresh child, the rows it counts as trained are the rows of the cycles it
  -- acknowledged with a loss, and the epoch's progress is at most that.
  pub run-trained :
      (cs : List (Command F × ℕ))
      → ((run h init cs).0.total_tokens_trained ≡ trained_rows (run h init cs).1)
        × ((run h init cs).0.epoch_processed_tokens ≤ (run h init cs).0.total_tokens_trained)
  unfolding run init
  run-trained cs = omega (arith, loop-counts cs init)

-- ===== src/Coordinator/Gate.antt =====
-- Admission and roll-back of deltaserve/coordinator.py.
use delta_serve_v_llm.Common.{
  ℕ, ◌+◌, ◌-◌, ◌<◌, ◌≤◌, ◌≡◌, ◌↔◌, refl, ap, ◌∙◌, Bool, true, false, ◌||◌, Option, List, [], ◌∷◌,
  ◌++◌, arith, ◌==◌, elem, inl, inr, ◌⊎◌, Bool-cases,
}
use mathlib.Core.Path.{ap₂}
use mathlib.Core.List.{append-nil}
use delta_serve_v_llm.Store.{FinetuningSample, request_ids}
use delta_serve_v_llm.Coordinator.{
  Coordinator, next_ft_budget, reserve, release_reserve, without, snapshot_admission,
  restore_admission, note_injection, cannot_grow,
}

-- Saved and reserved rows fit the buffer.
abbrev pub IsWithin : Coordinator → Type 0
IsWithin c = c.fill_count + c.reserved_fill ≤ c.capacity

-- Finetuning tokens may be admitted exactly when finetuning is started, the gate is open, no
-- backward is outstanding, the step budget is not zero and a row is free.
pub next_ft_budget_pos :
    (c : Coordinator)
    → (0 < next_ft_budget c) ↔ (
        (c.ft_started ≡ true)
        × (c.admission_open ≡ true)
        × (c.pending_backward ≡ false)
        × (0 < c.per_step_budget)
        × (c.fill_count + c.reserved_fill < c.capacity))
unfolding next_ft_budget
next_ft_budget_pos c = (λ h. ground arith, λ h. ground arith)

-- A reservation within the step's budget gets rows inside the buffer, behind all rows that are
-- saved or reserved, and keeps the buffer within its capacity.
pub reserve-IsWithin :
    (c : Coordinator) (n : ℕ) (ss : List FinetuningSample)
    → 0 < n
    → n ≤ next_ft_budget c
    → ((reserve c n ss).1 ≡ c.fill_count + c.reserved_fill)
      × ((reserve c n ss).1 + n ≤ c.capacity)
      × IsWithin (reserve c n ss).0
unfolding reserve next_ft_budget
reserve-IsWithin c n ss pos h = ground arith

-- `note_injection` changes nothing, or closes the gate and asks for a flush.
pub note_injection_cases :
    (c : Coordinator) (next : Option ℕ) (n : ℕ)
    → (note_injection c next n ≡ c)
      ⊎ (note_injection c next n ≡ record c { admission_open = false; epoch_flush_pending = true })
unfolding note_injection
note_injection_cases c next n =
    elim (Bool-cases (c.pending_backward || (c.fill_count + c.reserved_fill + n == 0))) [
      | inl e ↦ rw e (inl refl)
      | inr e ↦ elim (Bool-cases (cannot_grow c next n)) [
        | inl full ↦ rw (e, full) (inr refl)
        | inr room ↦ rw (e, room) (inl refl)
      ]
    ]

-- No sample of one list is in the other.
abbrev pub AreApart : List FinetuningSample → List FinetuningSample → Type 0
AreApart [] drop = Unit {0}
AreApart (s ∷ ss) drop = (elem s.request_id (request_ids drop) ≡ false) × AreApart ss drop

without-append :
    (ids : List ℕ) (xs ys : List FinetuningSample)
    → without ids (xs ++ ys) ≡ without ids xs ++ without ids ys
unfolding without
without-append ids [] ys = refl
without-append ids (x ∷ xs) ys = ground (arith, without-append ids xs ys)

without_apart :
    (xs drop : List FinetuningSample) → AreApart xs drop → without (request_ids drop) xs ≡ xs
unfolding without
without_apart [] drop a = refl
without_apart (x ∷ xs) drop a = rw a.0 (ap (◌∷◌ x) (without_apart xs drop a.1))

-- Samples whose ids are all among `ids` are dropped whole.
abbrev AreNamed : List ℕ → List FinetuningSample → Type 0
AreNamed ids [] = Unit {0}
AreNamed ids (s ∷ ss) = (elem s.request_id ids ≡ true) × AreNamed ids ss

AreNamed-cons :
    (x : ℕ) (ids : List ℕ) (ss : List FinetuningSample) → AreNamed ids ss → AreNamed (x ∷ ids) ss
unfolding elem
AreNamed-cons x ids [] h = tt
AreNamed-cons x ids (s ∷ ss) h = (ground arith, AreNamed-cons x ids ss h.1)

request_ids-AreNamed : (ss : List FinetuningSample) → AreNamed (request_ids ss) ss
unfolding elem
request_ids-AreNamed [] = tt
request_ids-AreNamed (s ∷ ss) =
    (ground arith, AreNamed-cons s.request_id _ ss (request_ids-AreNamed ss))

without_named : (ids : List ℕ) (ss : List FinetuningSample) → AreNamed ids ss → without ids ss ≡ []
unfolding without
without_named ids [] h = refl
without_named ids (s ∷ ss) h = rw h.0 (without_named ids ss h.1)

pub without-append_self :
    (xs ss : List FinetuningSample) → AreApart xs ss → without (request_ids ss) (xs ++ ss) ≡ xs
without-append_self xs ss apart =
    without-append (request_ids ss) xs ss
    ∙ ap₂ (◌++◌) (without_apart xs ss apart) (without_named _ ss (request_ids-AreNamed ss))
    ∙ append-nil xs

-- The steps of `schedule` and of `_rollback_ft_step` that touch the coordinator.
abbrev pub scheduled : Coordinator → Option ℕ → ℕ → List FinetuningSample → Coordinator
scheduled c next n ss = (reserve (note_injection c next n) n ss).0

abbrev pub rolled_back : Coordinator → Coordinator → ℕ → List FinetuningSample → Coordinator
rolled_back before c n ss = restore_admission (release_reserve c n ss) (snapshot_admission before)

rolled_back-reserve :
    (c : Coordinator) (a f : Bool) (n : ℕ) (ss : List FinetuningSample)
    → AreApart c.buffer_samples ss
    → rolled_back c (reserve (record c { admission_open = a; epoch_flush_pending = f }) n ss).0 n ss
      ≡ c
unfolding reserve release_reserve snapshot_admission restore_admission
rolled_back-reserve c a f n ss apart =
    let rows : c.reserved_fill + n - n ≡ c.reserved_fill = omega arith in
    λ i. record c {
      reserved_fill = rows i;
      buffer_samples = without-append_self c.buffer_samples ss apart i;
    }

-- Rolling back a step that was just scheduled gives the coordinator as it was before the step: the
-- reservation, the samples of the buffer and both admission flags are restored, if no sample of the
-- step was in the buffer before.
pub rolled_back-scheduled :
    (c : Coordinator) (next : Option ℕ) (n : ℕ) (ss : List FinetuningSample)
    → AreApart c.buffer_samples ss
    → rolled_back c (scheduled c next n ss) n ss ≡ c
unfolding restore_admission release_reserve snapshot_admission reserve
rolled_back-scheduled c next n ss apart = elim (note_injection_cases c next n) [
  | inl e ↦ rw e (rolled_back-reserve c c.admission_open c.epoch_flush_pending n ss apart)
  | inr e ↦ rw e (rolled_back-reserve c false true n ss apart)
]

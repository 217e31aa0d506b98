-- ===== src/Backward/Pause/Group.antt =====
-- deltaserve/bwd_services/base.py, `_maybe_pause` under tensor parallelism: each rank runs the code
-- of one rank, and the collectives are the only thing they share. Rank `k` of a group of `size` is
-- a number below `size`. MAX over the group is `any_below`, MIN is `all_below`.
use delta_serve_v_llm.Common.{
  ℕ, zero, suc, ◌<◌, ◌≡◌, ◌⊎◌, inl, inr, refl, Bool, true, false, ◌&&◌, ◌||◌, Option, none, some,
  arith, ltb, if◌then◌else◌, Bool-cases, Option-cases, List, [], ◌∷◌,
}
use delta_serve_v_llm.Backward.Pause.{
  Arrivals, Reads, Round, pause_poll, entry_blocked, deadline_after,
}

unfoldable pub any_below : ℕ → (ℕ → Bool) → Bool
any_below zero f = false
any_below (suc n) f = f n || any_below n f

unfoldable pub all_below : ℕ → (ℕ → Bool) → Bool
all_below zero f = true
all_below (suc n) f = f n && all_below n f

-- What a rank puts into the MIN of a round: it may run, or its deadline has passed.
unfoldable pub rank_flag : ℕ → Arrivals → Round → Bool
unfolding pause_poll
rank_flag deadline a r = (pause_poll a r.reads).1 || ltb deadline r.clock

-- A rank's loop over its rounds to come, each with what the MIN over the group gives it: its
-- arrivals' state and the collectives it took part in, or none while it is still in the loop.
unfoldable pub rank_wait : Arrivals → List (Round × Bool) → Option (Arrivals × ℕ)
unfolding pause_poll
rank_wait a [] = none
rank_wait a ((r, agreed) ∷ rest) =
    let b : Arrivals = (pause_poll a r.reads).0 in
    let more : Option (Arrivals × ℕ) = rank_wait b rest in
    if agreed then some (b, 1) else (elim more [ none ↦ none | some (c, n) ↦ some (c, suc n) ])

-- A rank's `_maybe_pause` with the MAX over the group of the flags `blocked`, which each rank
-- computes as `entry_blocked`.
unfoldable pub rank_pause : Arrivals → Bool → List (Round × Bool) → Option (Arrivals × ℕ)
unfolding rank_wait
rank_pause a any_blocked rounds = if any_blocked then rank_wait a rounds else some (a, 0)

-- The group, round by round: what rank `k` has in each round, and the MIN over all ranks.
unfoldable pub rounds_of : ℕ → (ℕ → ℕ) → ℕ → (ℕ → Arrivals) → List (ℕ → Round) → List (Round × Bool)
unfolding rank_flag pause_poll all_below
rounds_of size deadlines k a [] = []
rounds_of size deadlines k a (r ∷ rs) =
    (r k, all_below size (λ j. rank_flag (deadlines j) (a j) (r j)))
    ∷ rounds_of size deadlines k (λ j. (pause_poll (a j) (r j).reads).0) rs

-- The first test of each rank.
pub record Entry : Type 0 where
  pub granted : Bool
  pub reads : Reads
  pub start : ℕ

unfoldable pub entered : (ℕ → Entry) → (ℕ → Arrivals) → ℕ → Arrivals
unfolding entry_blocked
entered es a k = (entry_blocked (a k) (es k).granted (es k).reads).0

-- `_maybe_pause` of rank `k` in the group.
unfoldable pub group_pause :
    ℕ → (ℕ → Entry) → (ℕ → Arrivals) → List (ℕ → Round) → ℕ → Option (Arrivals × ℕ)
unfolding entered rank_pause rounds_of any_below deadline_after entry_blocked
group_pause size es a rounds k =
    rank_pause (entered es a k)
      (any_below size (λ j. (entry_blocked (a j) (es j).granted (es j).reads).1))
      (rounds_of size (λ j. deadline_after (es j).start) k (entered es a) rounds)

-- In some round to come, the clock of every rank is past that rank's deadline.
abbrev pub AllPass : ℕ → (ℕ → ℕ) → List (ℕ → Round) → Type 0
AllPass size deadlines [] = ⊥
AllPass size deadlines (r ∷ rs) =
    ((k : ℕ) → k < size → deadlines k < (r k).clock) ⊎ AllPass size deadlines rs

all_below-intro : (n : ℕ) (f : ℕ → Bool) → ((k : ℕ) → k < n → f k ≡ true) → all_below n f ≡ true
unfolding all_below
all_below-intro zero f h = refl
all_below-intro (suc n) f h =
    rw (h n (omega arith), all_below-intro n f (λ k p. h k (omega arith))) refl

pub any_below-false : (n : ℕ) (f : ℕ → Bool) → any_below n f ≡ false → (k : ℕ) → k < n → f k ≡ false
unfolding any_below
any_below-false zero f h k p = absurd (omega arith)
any_below-false (suc n) f h k p = elim (Bool-cases (f n)) [
  | inl e ↦ absurd (ground arith)
  | inr e ↦ ground (arith, any_below-false n f (ground arith) k, same_flag)
]
  where
    same_flag : k ≡ n → f k ≡ f n
    same_flag q = rw q refl

rank_flag-passed :
    (deadline : ℕ) (a : Arrivals) (r : Round) → deadline < r.clock → rank_flag deadline a r ≡ true
unfolding rank_flag
rank_flag-passed deadline a r h = ground arith

pub rank_wait-together :
    (size : ℕ) (deadlines : ℕ → ℕ) (a : ℕ → Arrivals) (rounds : List (ℕ → Round))
    → AllPass size deadlines rounds
    → (n : ℕ) × ((k : ℕ)
        → (b : Arrivals) × (rank_wait (a k) (rounds_of size deadlines k a rounds) ≡ some (b, n)))
unfolding rank_wait rounds_of
rank_wait-together size deadlines a [] h = absurd h
rank_wait-together size deadlines a (r ∷ rs) h =
    elim (Bool-cases (all_below size (λ j. rank_flag (deadlines j) (a j) (r j)))) [
      | inl e ↦ (1, λ k. ((pause_poll (a k) (r k).reads).0, rw e refl))
      | inr e ↦
          let q =
            rank_wait-together size deadlines (λ j. (pause_poll (a j) (r j).reads).0) rs
              (later e h) in
          (suc q.0, λ k. ((q.1 k).0, rw (e, (q.1 k).1) refl))
    ]
  where
    later :
        all_below size (λ j. rank_flag (deadlines j) (a j) (r j)) ≡ false
        → (((k : ℕ) → k < size → deadlines k < (r k).clock) ⊎ AllPass size deadlines rs)
        → AllPass size deadlines rs
    later e (inl p) = absurd (
        ground (
          arith,
          all_below-intro size (λ j. rank_flag (deadlines j) (a j) (r j))
              (λ k q. rank_flag-passed (deadlines k) (a k) (r k) (p k q)),
        ))
    later e (inr p) = p

rank_wait-pos :
    (a : Arrivals) (rounds : List (Round × Bool)) {b : Arrivals} {n : ℕ}
    → rank_wait a rounds ≡ some (b, n)
    → 0 < n
unfolding rank_wait
rank_wait-pos a [] h = absurd (ground arith)
rank_wait-pos a ((r, true) ∷ rest) h = ground arith
rank_wait-pos a ((r, false) ∷ rest) h =
    elim (Option-cases (rank_wait (pause_poll a r.reads).0 rest)) [
      | inl e ↦ absurd (ground arith)
      | inr (p, e) ↦ ground arith
    ]

-- All ranks leave a layer boundary together: if in some round to come every rank's clock is past
-- its own deadline, then `_maybe_pause` returns on every rank, and all ranks take part in the same
-- number of MIN collectives; that number is 0 only where no rank was blocked on entry.
pub group_pause-together :
    (size : ℕ) (es : ℕ → Entry) (a : ℕ → Arrivals) (rounds : List (ℕ → Round))
    → AllPass size (λ j. deadline_after (es j).start) rounds
    → (n : ℕ) × (((k : ℕ) → (b : Arrivals) × (group_pause size es a rounds k ≡ some (b, n)))
        × (((k : ℕ) → k < size → (entry_blocked (a k) (es k).granted (es k).reads).1 ≡ false)
            ⊎ (0 < n)))
unfolding group_pause rank_pause
group_pause-together size es a rounds h =
    elim (Bool-cases (any_below size (λ j. (entry_blocked (a j) (es j).granted (es j).reads).1))) [
      | inl e ↦
          let q =
            rank_wait-together size (λ j. deadline_after (es j).start) (entered es a) rounds h in
          (
            q.0,
            (
              λ k. ((q.1 k).0, rw (e) (q.1 k).1),
              inr (
                  rank_wait-pos (entered es a 0)
                    (rounds_of size (λ j. deadline_after (es j).start) 0 (entered es a) rounds)
                    (q.1 0).1),
            ),
          )
      | inr e ↦ (
        0,
        (
          λ k. (entered es a k, rw e refl),
          inl (any_below-false size (λ j. (entry_blocked (a j) (es j).granted (es j).reads).1) e),
        ),
      )
    ]

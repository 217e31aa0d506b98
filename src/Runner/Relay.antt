-- ===== src/Runner/Relay.antt =====
-- deltaserve/model_runner.py, `_ft_relay_backward_done`, with the three calls of
-- deltaserve/coordinator.py that it makes: how the ranks of a tensor-parallel group hand over a
-- finished backward. The MIN over the group is `all_below`; what each rank's child has answered is
-- an input. An ack is a number.
use delta_serve_v_llm.Common.{
  ℕ, zero, suc, ◌<◌, ◌≡◌, refl, ◌∙◌, inl, inr, ap, Bool, true, false, not, ◌&&◌, ◌||◌, Option, none,
  some, is_some, arith, if◌then◌else◌, Bool-cases,
}
use delta_serve_v_llm.Backward.Pause.Group.{all_below}

pub record RankAck : Type 0 where
  -- `backward_process is not None`
  pub child : Bool
  pub pending_backward : Bool
  pub relay_ack : Option ℕ

-- `relay_backward_outstanding`
unfoldable pub relay_backward_outstanding : RankAck → Bool
relay_backward_outstanding r = r.pending_backward || is_some r.relay_ack

-- `poll_own_backward_ack`, with what the child's pipe holds.
unfoldable pub poll_own_backward_ack : Option ℕ → RankAck → RankAck
poll_own_backward_ack resp r =
    if not (is_some r.relay_ack) && r.pending_backward && r.child
    then (elim resp [
      | none ↦ r
      | some ack ↦ record r { pending_backward = false; relay_ack = some ack }
    ])
    else r

unfoldable pub take_relay_ack : RankAck → RankAck × Option ℕ
take_relay_ack r = (record r { relay_ack = none }, r.relay_ack)

-- A rank's step with what the group's MIN gives it: its new state and what it relays. Without
-- anything outstanding it takes no part in the collective.
unfoldable pub relay_backward_done : Option ℕ → Bool → RankAck → RankAck × Option ℕ
unfolding relay_backward_outstanding poll_own_backward_ack take_relay_ack
relay_backward_done resp all_done r =
    if not (relay_backward_outstanding r)
    then (r, none)
    else (if all_done
        then take_relay_ack (poll_own_backward_ack resp r)
        else (poll_own_backward_ack resp r, none))

-- The MIN of the ranks' flags.
unfoldable pub all_done : ℕ → (ℕ → Option ℕ) → (ℕ → RankAck) → Bool
unfolding all_below poll_own_backward_ack
all_done size resps rs =
    all_below size (λ k. is_some (poll_own_backward_ack (resps k) (rs k)).relay_ack)

-- `execute_trigger` on a rank.
unfoldable pub triggered : RankAck → RankAck
triggered r = if r.child then record r { pending_backward = true } else r

-- The answers of the children in the cycle that is outstanding, as the pipes hold them by now: the
-- first answer of each rank's child.
abbrev pub answers : (ℕ → Option ℕ) → (ℕ → Option ℕ) → ℕ → Option ℕ
answers heard resps k = elim (heard k) [ none ↦ resps k | some ack ↦ some ack ]

abbrev pub all_answered : ℕ → (ℕ → Option ℕ) → (ℕ → Option ℕ) → Bool
all_answered size heard resps = all_below size (λ k. is_some (answers heard resps k))

-- Whether the cycle goes on after a step: it is over when every child has answered.
abbrev pub goes_on : ℕ → Bool → (ℕ → Option ℕ) → (ℕ → Option ℕ) → Bool
goes_on size out heard resps = out && not (all_answered size heard resps)

-- What a group of ranks, each with its child, can come to, whether a backward is outstanding, and
-- what the children have answered to it: a trigger reaches all ranks in one step, and only while
-- none is outstanding. An answer is never heard outside a cycle.
pub data RelayReach (size : ℕ) : Bool → (ℕ → Option ℕ) → (ℕ → RankAck) → Type 0 where
  at_rest :
      RelayReach size false
        (λ k. none)
        (λ k. record { child = true; pending_backward = false; relay_ack = none })
  fired :
      {heard : ℕ → Option ℕ} {rs : ℕ → RankAck}
      → RelayReach size false heard rs
      → RelayReach size true (λ k. none) (λ k. triggered (rs k))
  stepped :
      {out : Bool} {heard : ℕ → Option ℕ} {rs : ℕ → RankAck} (resps : ℕ → Option ℕ)
      → RelayReach size out heard rs
      → RelayReach size
          (goes_on size out heard resps)
          (λ k. if goes_on size out heard resps then answers heard resps k else none)
          (λ k. (relay_backward_done (resps k) (all_done size resps rs) (rs k)).0)

-- The state of a rank by what its child has answered.
record IsRank (out : Bool) (heard : Option ℕ) (r : RankAck) : Type 0 where
  child : r.child ≡ true
  waits : r.pending_backward ≡ (out && not (is_some heard))
  holds : r.relay_ack ≡ (if out then heard else none)

polled-ack :
    (resp heard : Option ℕ) (r : RankAck)
    → IsRank true heard r
    → (poll_own_backward_ack resp r).relay_ack ≡ elim heard [ none ↦ resp | some ack ↦ some ack ]
unfolding poll_own_backward_ack
polled-ack none none r v = ground (arith, v)
polled-ack (some a) none r v = ground (arith, v)
polled-ack resp (some b) r v = ground (arith, v)

all_below-ext :
    (n : ℕ) (f g : ℕ → Bool) → ((k : ℕ) → k < n → f k ≡ g k) → all_below n f ≡ all_below n g
unfolding all_below
all_below-ext zero f g h = refl
all_below-ext (suc n) f g h =
    ground (arith, h n (omega arith), all_below-ext n f g (λ k p. h k (omega arith)))

done-IsRank :
    (resp heard : Option ℕ) (agreed : Bool) (r : RankAck)
    → (agreed ≡ true → is_some (elim heard [ none ↦ resp | some ack ↦ some ack ]) ≡ true)
    → IsRank true heard r
    → IsRank
        (not agreed)
        (if not agreed then (elim heard [ none ↦ resp | some ack ↦ some ack ]) else none)
        (relay_backward_done resp agreed r).0
unfolding relay_backward_done relay_backward_outstanding poll_own_backward_ack take_relay_ack
done-IsRank none none agreed r h v = ground (arith, h, v)
done-IsRank (some a) none agreed r h v = ground (arith, h, v)
done-IsRank resp (some b) agreed r h v = ground (arith, h, v)

resting-IsRank :
    (resp heard : Option ℕ) (agreed : Bool) (r : RankAck)
    → IsRank false heard r
    → IsRank false none (relay_backward_done resp agreed r).0
unfolding relay_backward_done relay_backward_outstanding
resting-IsRank resp heard agreed r v = ground (arith, v)

-- While a backward is outstanding, the group's MIN is the agreement of the children's answers.
all_done-answered :
    (size : ℕ) (heard resps : ℕ → Option ℕ) (rs : ℕ → RankAck)
    → ((k : ℕ) → k < size → IsRank true (heard k) (rs k))
    → all_done size resps rs ≡ all_answered size heard resps
unfolding all_done
all_done-answered size heard resps rs h =
    all_below-ext size (λ k. is_some (poll_own_backward_ack (resps k) (rs k)).relay_ack)
      (λ k. is_some (answers heard resps k))
      (λ k p. ap (λ (o : Option ℕ). is_some o) (polled-ack (resps k) (heard k) (rs k) (h k p)))

all_below-elim : (n : ℕ) (f : ℕ → Bool) → all_below n f ≡ true → (k : ℕ) → k < n → f k ≡ true
unfolding all_below
all_below-elim zero f h k p = absurd (omega arith)
all_below-elim (suc n) f h k p = elim (Bool-cases (f n)) [
  | inr e ↦ absurd (ground arith)
  | inl e ↦ ground (arith, all_below-elim n f (ground arith) k, same_flag)
]
  where
    same_flag : k ≡ n → f k ≡ f n
    same_flag q = ap f q

stepped-IsRank :
    (size : ℕ) (out : Bool) (heard resps : ℕ → Option ℕ) (rs : ℕ → RankAck)
    → ((k : ℕ) → k < size → IsRank out (heard k) (rs k))
    → (k : ℕ) → k < size
    → IsRank
        (goes_on size out heard resps)
        (if goes_on size out heard resps then answers heard resps k else none)
        (relay_backward_done (resps k) (all_done size resps rs) (rs k)).0
stepped-IsRank size false heard resps rs h k p =
    resting-IsRank (resps k) (heard k) (all_done size resps rs) (rs k) (h k p)
stepped-IsRank size true heard resps rs h k p = rw (all_done-answered size heard resps rs h) (
    done-IsRank (resps k) (heard k) (all_answered size heard resps) (rs k)
      (λ e. all_below-elim size (λ j. is_some (answers heard resps j)) e k p) (h k p))

Reach-IsRank :
    {size : ℕ} {out : Bool} {heard : ℕ → Option ℕ} {rs : ℕ → RankAck}
    → RelayReach size out heard rs
    → (k : ℕ) → k < size
    → IsRank out (heard k) (rs k)
unfolding triggered
Reach-IsRank at_rest k p = ground arith
Reach-IsRank (fired r) k p = ground (arith, Reach-IsRank r k p)
Reach-IsRank {size} (stepped {out} {heard} {rs} resps r) k p =
    stepped-IsRank size out heard resps rs (λ j q. Reach-IsRank r j q) k p

relayed-answer :
    (resp heard : Option ℕ) (agreed out : Bool) (r : RankAck)
    → IsRank out heard r
    → (relay_backward_done resp agreed r).1
      ≡ (if out && agreed then (elim heard [ none ↦ resp | some ack ↦ some ack ]) else none)
unfolding relay_backward_done relay_backward_outstanding poll_own_backward_ack take_relay_ack
relayed-answer none none agreed out r v = ground (arith, v)
relayed-answer (some a) none agreed out r v = ground (arith, v)
relayed-answer resp (some b) agreed out r v = ground (arith, v)

-- The ack's collective can neither hang nor be early nor lose an ack: in every state that the ranks
-- of a group reach, each with its child, either all of them or none take part in it; and in a step
-- a rank relays its child's answer if a backward is outstanding and every rank's child has answered
-- by then, be it now or in an earlier step, and nothing otherwise. So all ranks relay theirs in the
-- same step.
pub Reach-together :
    {size : ℕ} {out : Bool} {heard : ℕ → Option ℕ} {rs : ℕ → RankAck} (resps : ℕ → Option ℕ) (k : ℕ)
    → RelayReach size out heard rs
    → k < size
    → (relay_backward_outstanding (rs k) ≡ out)
      × ((relay_backward_done (resps k) (all_done size resps rs) (rs k)).1
          ≡ (if out && all_answered size heard resps then answers heard resps k else none))
unfolding relay_backward_outstanding
Reach-together {size} {out} {heard} {rs} resps k r p =
    let v = Reach-IsRank r k p in
    (
      ground (arith, v),
      relayed-answer (resps k) (heard k) (all_done size resps rs) out (rs k) v
          ∙ agreed_if out (λ j q. Reach-IsRank r j q),
    )
  where
    agreed_if :
        (b : Bool)
        → ((j : ℕ) → j < size → IsRank b (heard j) (rs j))
        → ◌≡◌ {A = Option ℕ}
            (if b && all_done size resps rs then answers heard resps k else none)
            (if b && all_answered size heard resps then answers heard resps k else none)
    agreed_if false h = refl
    agreed_if true h = rw (all_done-answered size heard resps rs h) refl

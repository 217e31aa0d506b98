-- ===== src/Store/Tests.antt =====
-- A small corpus, runs of the store over it, and the store's theorems at it.
use Prim.Native.String.{String}
use Prim.Native.Char.{code}
use delta_serve_v_llm.Common.{
  ℕ, ◌+◌, ◌≡◌, refl, true, false, not, ◌&&◌, ◌||◌, none, some, List, [], ◌∷◌, arith, get_elem?,
  elem, diff, discard, map,
}
use delta_serve_v_llm.Common.Dict.{has, add, get, put, delete}
use delta_serve_v_llm.Common.Sorted.{remove_sorted, insert_sorted, bisect_right}
use delta_serve_v_llm.Store.{
  FinetuningSample, FinetuningStore, input_len, len_at, is_trained, init, load, claim,
  commit_claimed, release_claimed, advance_epoch, pop_next, pop_best_under, has_claimed, index_of,
}
use delta_serve_v_llm.Store.Valid.{IsValid, SamePool, is_free, named}
use delta_serve_v_llm.Store.Load.{Loads, load-IsValid}
use delta_serve_v_llm.Store.Select.{IsSmallest, IsBest, pop_next-IsSmallest, pop_best_under-IsBest}
use delta_serve_v_llm.Store.Claim.{claim-takes, claim-IsValid}
use delta_serve_v_llm.Store.Release.{release-claim, len_of}
use delta_serve_v_llm.Store.Settle.{
  commit_claimed-marks, StoreOp, claims, commits, releases, advances, run, run-IsValid,
}

program : Unit {0}
unfolding load init pop_next pop_best_under claim commit_claimed release_claimed advance_epoch
    has_claimed index_of len_at add get put delete diff discard elem remove_sorted insert_sorted
    bisect_right
program = tt

abbrev codes : String → List ℕ
codes String.[] = []
codes (String.◌∷◌ c s) = code c ∷ codes s

abbrev identity : String → String
identity s = s

abbrev uuid : ℕ → ℕ
uuid n = n + 100

uuid_distinct : (i j : ℕ) → uuid i ≡ uuid j → i ≡ j
uuid_distinct i j e = omega arith

-- Three samples of two, three and two tokens; the blank line and the long one are dropped.
abbrev corpus : List String
corpus = "ab" ∷ "" ∷ "cde" ∷ "far too long" ∷ "fg" ∷ []

unfoldable pub small : FinetuningStore
unfolding program
small = (load identity codes uuid (init (some "corpus.txt") none 2 8 none) corpus).0

pub small_loaded : map input_len small.samples ≡ 2 ∷ 3 ∷ 2 ∷ []
unfolding small
small_loaded = refl

load-IsValid_example :
    Loads 8 none (load identity codes uuid (init (some "corpus.txt") none 2 8 none) corpus)
load-IsValid_example =
    load-IsValid identity codes uuid uuid_distinct "corpus.txt" none 2 8 none corpus

pub small-IsValid : IsValid small
unfolding small
small-IsValid = load-IsValid_example.0

-- The sample of index `i`.
abbrev pub nth : ℕ → List FinetuningSample
nth i = elim (get_elem? small.samples i) [ none ↦ [] | some s ↦ s ∷ [] ]

abbrev claimed_small : FinetuningStore
claimed_small = (claim small (nth 1)).0

pops :
    (pop_next small [] ≡ get_elem? small.samples 0)
    × (pop_next small (nth 0) ≡ get_elem? small.samples 2)
    × (pop_best_under small 8 [] ≡ get_elem? small.samples 1)
    × (pop_best_under claimed_small 8 [] ≡ get_elem? small.samples 0)
    × (pop_best_under small 1 [] ≡ none)
unfolding program small
pops = (refl, refl, refl, refl, refl)

epochs :
    ((advance_epoch claimed_small).1 ≡ false)
    × ((advance_epoch (commit_claimed claimed_small (nth 1)).0).1 ≡ true)
    × ((release_claimed claimed_small (nth 1)).0.len_buckets ≡ small.len_buckets)
unfolding program small
epochs = (refl, refl, refl)

pop_next-IsSmallest_example : IsSmallest small (nth 0) (pop_next small (nth 0))
pop_next-IsSmallest_example = pop_next-IsSmallest small (nth 0) small-IsValid

pop_best_under-IsBest_example : IsBest small [] 8 (pop_best_under small 8 [])
pop_best_under-IsBest_example = pop_best_under-IsBest small [] small-IsValid 8

claim-takes_example :
    ((i : ℕ)
      → elem i (claim small (nth 1)).0.claimed
        ≡ (elem i small.claimed || (is_free small i && named small.id2idx (nth 1) i)))
    × ((n i : ℕ)
        → has (claim small (nth 1)).0.len_buckets n i
          ≡ (has small.len_buckets n i && not (named small.id2idx (nth 1) i)))
    × ((claim small (nth 1)).0.trained ≡ small.trained)
claim-takes_example = claim-takes small (nth 1) small-IsValid

claimed_small-IsValid : IsValid claimed_small
claimed_small-IsValid = claim-IsValid small (nth 1) small-IsValid

commit_claimed-marks_example :
    ((i : ℕ)
      → elem i (commit_claimed claimed_small (nth 1)).0.claimed
        ≡ (elem i claimed_small.claimed && not (named claimed_small.id2idx (nth 1) i)))
    × ((i : ℕ)
        → is_trained (commit_claimed claimed_small (nth 1)).0 i ≡ (
            is_trained claimed_small i
            || (elem i claimed_small.claimed && named claimed_small.id2idx (nth 1) i)))
    × ((commit_claimed claimed_small (nth 1)).0.len_buckets ≡ claimed_small.len_buckets)
commit_claimed-marks_example = commit_claimed-marks claimed_small (nth 1) claimed_small-IsValid

-- Of two samples of one length, the released one comes last.
reordered :
    pop_next (release_claimed (claim small (nth 0)).0 (nth 0)).0 [] ≡ get_elem? small.samples 2
unfolding program small
reordered = refl

release-claim_example :
    SamePool (release_claimed (claim small (nth 0)).0 (nth 0)).0 small
    × ((exclude : List FinetuningSample)
        → len_of (pop_next (release_claimed (claim small (nth 0)).0 (nth 0)).0 exclude)
          ≡ len_of (pop_next small exclude))
unfolding program small
release-claim_example = release-claim small (nth 0) small-IsValid (λ i h. refl)

-- Any history of the store's operations.
store_ops : List StoreOp
store_ops = claims (nth 1) ∷ releases (nth 1) ∷ claims (nth 1) ∷ commits (nth 1) ∷ advances ∷ []

run-IsValid_example : IsValid (run small store_ops)
run-IsValid_example = run-IsValid store_ops small small-IsValid

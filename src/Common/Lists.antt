-- ===== src/Common/Lists.antt =====
-- Lists measured, indexed and searched by native numbers, under the library's names.
use Prim.Native.Nat.{ℕ, zero, suc, ◌+◌, ◌<◌}
use mathlib.Core.Path.{◌≡◌, refl, ap}
use mathlib.Core.Logic.{◌⊎◌, inl, inr}
use mathlib.Core.Bool.{Bool, false, not, ◌&&◌, ◌||◌}
use mathlib.Core.List.{List, [], ◌∷◌, ◌++◌}
use mathlib.Core.Option.{Option, none, some}
use native.Mathlib.Omega.{arith}
use delta_serve_v_llm.Common.Tests.{◌==◌, if◌then◌else◌}

module _ {ℓ} {A : Type ℓ} where
  abbrev pub length : List A → ℕ
  length [] = 0
  length (x ∷ xs) = suc (length xs)

  abbrev pub get_elem? : List A → ℕ → Option A
  get_elem? [] i = none
  get_elem? (x ∷ xs) zero = some x
  get_elem? (x ∷ xs) (suc i) = get_elem? xs i

  -- A write out of bounds changes nothing.
  abbrev pub set : List A → ℕ → A → List A
  set [] i v = []
  set (x ∷ xs) zero v = v ∷ xs
  set (x ∷ xs) (suc i) v = x ∷ set xs i v

  abbrev pub replicate : ℕ → A → List A
  replicate zero a = []
  replicate (suc n) a = a ∷ replicate n a

  abbrev pub get_or : List A → ℕ → A → A
  get_or [] i d = d
  get_or (x ∷ xs) zero d = x
  get_or (x ∷ xs) (suc i) d = get_or xs i d

  -- To split on a computed list and keep the equation.
  pub List-cases : (xs : List A) → (xs ≡ []) ⊎ ((x : A) × (ys : List A) × (xs ≡ x ∷ ys))
  List-cases [] = inl refl
  List-cases (x ∷ xs) = inr (x, xs, refl)

  pub length-append : (xs ys : List A) → length (xs ++ ys) ≡ length xs + length ys
  length-append [] ys = omega arith
  length-append (x ∷ xs) ys = omega (arith, length-append xs ys)

  pub length-set : (xs : List A) (i : ℕ) (v : A) → length (set xs i v) ≡ length xs
  length-set [] i v = refl
  length-set (x ∷ xs) zero v = refl
  length-set (x ∷ xs) (suc i) v = ap suc (length-set xs i v)

  pub get_or-set :
      (xs : List A) (i j : ℕ) (v d : A)
      → i < length xs
      → get_or (set xs i v) j d ≡ (if i == j then v else get_or xs j d)
  get_or-set [] i j v d h = absurd (omega arith)
  get_or-set (x ∷ xs) zero zero v d h = refl
  get_or-set (x ∷ xs) zero (suc j) v d h = ground arith
  get_or-set (x ∷ xs) (suc i) zero v d h = ground arith
  get_or-set (x ∷ xs) (suc i) (suc j) v d h = ground (arith, get_or-set xs i j v d (omega arith))

  pub get_elem?-lt : (xs : List A) (i : ℕ) {x : A} → get_elem? xs i ≡ some x → i < length xs
  get_elem?-lt [] i e = cc
  get_elem?-lt (x ∷ xs) zero e = omega arith
  get_elem?-lt (x ∷ xs) (suc i) e = omega (arith, get_elem?-lt xs i e)

  pub get_or_at :
      (xs : List A) (i : ℕ) (d : A) → i < length xs → get_elem? xs i ≡ some (get_or xs i d)
  get_or_at [] i d h = absurd (omega arith)
  get_or_at (x ∷ xs) zero d h = refl
  get_or_at (x ∷ xs) (suc i) d h = get_or_at xs i d (omega arith)

  pub get_or-replicate : (n i : ℕ) (a : A) → get_or (replicate n a) i a ≡ a
  get_or-replicate zero i a = refl
  get_or-replicate (suc n) zero a = refl
  get_or-replicate (suc n) (suc i) a = get_or-replicate n i a

  pub length-replicate : (n : ℕ) (a : A) → length (replicate n a) ≡ n
  length-replicate zero a = refl
  length-replicate (suc n) a = ap suc (length-replicate n a)

-- `x in xs`
unfoldable pub elem : ℕ → List ℕ → Bool
elem i [] = false
elem i (x ∷ xs) = (x == i) || elem i xs

unfoldable pub sum : List ℕ → ℕ
sum [] = 0
sum (x ∷ xs) = x + sum xs

pub sum-append : (xs ys : List ℕ) → sum (xs ++ ys) ≡ sum xs + sum ys
unfolding sum
sum-append [] ys = omega arith
sum-append (x ∷ xs) ys = omega (arith, sum-append xs ys)

pub elem-append : (i : ℕ) (xs ys : List ℕ) → elem i (xs ++ ys) ≡ (elem i xs || elem i ys)
unfolding elem
elem-append i [] ys = refl
elem-append i (x ∷ xs) ys = ground (arith, elem-append i xs ys)

-- `[i for i in xs if i not in ys]`
unfoldable pub diff : List ℕ → List ℕ → List ℕ
diff [] ys = []
diff (x ∷ xs) ys = if elem x ys then diff xs ys else x ∷ diff xs ys

pub elem-diff : (i : ℕ) (xs ys : List ℕ) → elem i (diff xs ys) ≡ (elem i xs && not (elem i ys))
unfolding elem diff
elem-diff i [] ys = refl
elem-diff i (x ∷ xs) ys = ground (arith, elem-diff i xs ys, ==_subst)
  where
    ==_subst : x ≡ i → elem x ys ≡ elem i ys
    ==_subst e = ap (λ (k : ℕ). elem k ys) e

-- `set.discard`
unfoldable pub discard : ℕ → List ℕ → List ℕ
unfolding diff
discard x xs = diff xs (x ∷ [])

pub elem-discard : (i x : ℕ) (xs : List ℕ) → elem i (discard x xs) ≡ (elem i xs && not (x == i))
unfolding discard elem
elem-discard i x xs = ground (arith, elem-diff i xs (x ∷ []))

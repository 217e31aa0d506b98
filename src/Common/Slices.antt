-- ===== src/Common/Slices.antt =====
-- Slices of lists. A slice past the end is cut short, as in Python.
use Prim.Native.Nat.{ℕ, zero, suc, ◌+◌, ◌-◌, ◌≤◌}
use mathlib.Core.Path.{◌≡◌, refl, ap, sym, ◌∙◌}
use mathlib.Core.List.{List, [], ◌∷◌, ◌++◌}
use native.Mathlib.Omega.{arith}
use delta_serve_v_llm.Common.Lists.{length}

module _ {ℓ} {X : Type ℓ} where
  unfoldable pub drop : ℕ → List X → List X
  drop zero xs = xs
  drop (suc n) [] = []
  drop (suc n) (x ∷ xs) = drop n xs

  unfoldable pub take : ℕ → List X → List X
  take zero xs = []
  take (suc n) [] = []
  take (suc n) (x ∷ xs) = x ∷ take n xs

  -- `xs[lo:hi]`
  unfoldable pub slice : List X → ℕ → ℕ → List X
  unfolding take drop
  slice xs lo hi = take (hi - lo) (drop lo xs)

  pub take_nil : (n : ℕ) → take n [] ≡ []
  unfolding take
  take_nil zero = refl
  take_nil (suc n) = refl

  pub take-append-take : (n m : ℕ) (xs : List X) → take n xs ++ take m (drop n xs) ≡ take (n + m) xs
  unfolding take drop
  take-append-take zero m xs = let e : m ≡ 0 + m = omega arith in ap (λ (t : ℕ). take t xs) e
  take-append-take (suc n) m [] = take_nil m ∙ sym (take_nil (suc n + m))
  take-append-take (suc n) m (x ∷ xs) =
      let e : suc (n + m) ≡ suc n + m = omega arith in
      ap (λ (t : List X). x ∷ t) (take-append-take n m xs) ∙ ap (λ (t : ℕ). take t (x ∷ xs)) e

  pub take_all : (n : ℕ) (xs : List X) → n ≡ length xs → take n xs ≡ xs
  unfolding take
  take_all zero [] e = refl
  take_all zero (x ∷ xs) e = absurd (omega arith)
  take_all (suc n) [] e = refl
  take_all (suc n) (x ∷ xs) e = ap (λ (t : List X). x ∷ t) (take_all n xs (omega arith))

  pub drop-drop : (n m : ℕ) (xs : List X) → drop m (drop n xs) ≡ drop (n + m) xs
  unfolding drop
  drop-drop zero m xs = let e : m ≡ 0 + m = omega arith in ap (λ (t : ℕ). drop t xs) e
  drop-drop (suc n) zero [] = let e : suc n ≡ suc n + 0 = omega arith in ap (λ (t : ℕ). drop t []) e
  drop-drop (suc n) (suc m) [] =
      let e : suc (n + suc m) ≡ suc n + suc m = omega arith in ap (λ (t : ℕ). drop t []) e
  drop-drop (suc n) m (x ∷ xs) =
      let e : suc (n + m) ≡ suc n + m = omega arith in
      drop-drop n m xs ∙ ap (λ (t : ℕ). drop t (x ∷ xs)) e

  pub length-drop : (n : ℕ) (xs : List X) → length (drop n xs) ≡ length xs - n
  unfolding drop
  length-drop zero xs = omega arith
  length-drop (suc n) [] = omega arith
  length-drop (suc n) (x ∷ xs) = omega (arith, length-drop n xs)

  pub length-take : (n : ℕ) (xs : List X) → n ≤ length xs → length (take n xs) ≡ n
  unfolding take
  length-take zero xs h = refl
  length-take (suc n) [] h = absurd (omega arith)
  length-take (suc n) (x ∷ xs) h = ap suc (length-take n xs (omega arith))

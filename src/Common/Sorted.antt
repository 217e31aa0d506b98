-- ===== src/Common/Sorted.antt =====
-- Ascending lists of numbers without repetition, and the `bisect` and `sorted` that keep them.
use delta_serve_v_llm.Common.Tests.{ltb, leb, ◌==◌, if◌then◌else◌, Bool-cases}
use delta_serve_v_llm.Common.Lists.{elem, get_elem?, length}
use Prim.Native.Nat.{ℕ, zero, suc, ◌≤◌, ◌<◌}
use mathlib.Core.Path.{◌≡◌, refl}
use mathlib.Core.Logic.{◌↔◌, inl, inr}
use mathlib.Core.Bool.{Bool, false, not, true, ◌&&◌, ◌||◌}
use mathlib.Core.List.{List, [], ◌∷◌}
use mathlib.Core.Option.{none, some}
use native.Mathlib.Omega.{arith}

-- `bisect_left` on an ascending list: the number of entries below `k`.
unfoldable pub bisect_left : List ℕ → ℕ → ℕ
bisect_left [] k = 0
bisect_left (x ∷ xs) k = if ltb x k then suc (bisect_left xs k) else 0

-- `bisect_right` on an ascending list: the number of entries not above `k`.
unfoldable pub bisect_right : List ℕ → ℕ → ℕ
bisect_right [] k = 0
bisect_right (x ∷ xs) k = if leb x k then suc (bisect_right xs k) else 0

-- `del xs[p]`
unfoldable pub delete_at : List ℕ → ℕ → List ℕ
delete_at [] p = []
delete_at (x ∷ xs) zero = xs
delete_at (x ∷ xs) (suc p) = x ∷ delete_at xs p

-- `xs.insert(p, k)`
unfoldable pub insert_at : List ℕ → ℕ → ℕ → List ℕ
insert_at xs zero k = k ∷ xs
insert_at [] (suc p) k = k ∷ []
insert_at (x ∷ xs) (suc p) k = x ∷ insert_at xs p k

-- `xs[p] == k`, false out of range.
unfoldable pub is_at : List ℕ → ℕ → ℕ → Bool
is_at xs p k = elim (get_elem? xs p) [ none ↦ false | some x ↦ x == k ]

-- The entry leaves the list if `bisect_left` finds it.
unfoldable pub remove_sorted : List ℕ → ℕ → List ℕ
unfolding bisect_left delete_at is_at
remove_sorted xs k = let p = bisect_left xs k in if is_at xs p k then delete_at xs p else xs

-- The entry joins the list unless `bisect_left` finds it.
unfoldable pub insert_sorted : List ℕ → ℕ → List ℕ
unfolding bisect_left insert_at is_at
insert_sorted xs k = let p = bisect_left xs k in if is_at xs p k then xs else insert_at xs p k

-- Every entry is above `n`, and they ascend.
abbrev pub Above : ℕ → List ℕ → Type 0
Above n [] = Unit {0}
Above n (x ∷ xs) = (n ≤ x) × Above (suc x) xs

abbrev pub IsAscending : List ℕ → Type 0
IsAscending xs = Above 0 xs

pub Above-mono : (m n : ℕ) (xs : List ℕ) → m ≤ n → Above n xs → Above m xs
Above-mono m n [] h a = tt
Above-mono m n (x ∷ xs) h a = (omega arith, a.1)

pub elem-below : (k n : ℕ) (xs : List ℕ) → Above n xs → k < n → elem k xs ≡ false
unfolding elem
elem-below k n [] a h = refl
elem-below k n (x ∷ xs) a h = ground (arith, elem-below k (suc x) xs a.1)

pub remove_sorted-Above : (n : ℕ) (xs : List ℕ) (k : ℕ) → Above n xs → Above n (remove_sorted xs k)
unfolding remove_sorted
remove_sorted-Above n [] k a = tt
remove_sorted-Above n (x ∷ xs) k a =
    ground (arith, remove_sorted-Above (suc x) xs k a.1, Above-mono n (suc x) xs)

pub insert_sorted-Above :
    (n : ℕ) (xs : List ℕ) (k : ℕ) → Above n xs → n ≤ k → Above n (insert_sorted xs k)
unfolding insert_sorted
insert_sorted-Above n [] k a h = (h, tt)
insert_sorted-Above n (x ∷ xs) k a h = ground (arith, insert_sorted-Above (suc x) xs k a.1)

pub elem-remove_sorted :
    (n : ℕ) (xs : List ℕ) (k j : ℕ)
    → Above n xs
    → elem j (remove_sorted xs k) ≡ (elem j xs && not (k == j))
unfolding remove_sorted elem
elem-remove_sorted n [] k j a = refl
elem-remove_sorted n (x ∷ xs) k j a = ground (
  arith,
  elem-remove_sorted (suc x) xs k j a.1,
  elem-below k (suc x) xs a.1,
  elem-below j (suc x) xs a.1,
)

pub elem-insert_sorted :
    (n : ℕ) (xs : List ℕ) (k j : ℕ)
    → Above n xs
    → elem j (insert_sorted xs k) ≡ (elem j xs || (k == j))
unfolding insert_sorted elem
elem-insert_sorted n [] k j a = ground arith
elem-insert_sorted n (x ∷ xs) k j a = ground (arith, elem-insert_sorted (suc x) xs k j a.1)

pub bisect_right-le : (xs : List ℕ) (k : ℕ) → bisect_right xs k ≤ length xs
unfolding bisect_right
bisect_right-le [] k = omega arith
bisect_right-le (x ∷ xs) k = ground (arith, bisect_right-le xs k)

Above-get : (xs : List ℕ) (n q a : ℕ) → Above n xs → get_elem? xs q ≡ some a → n ≤ a
Above-get [] n q a h e = cc
Above-get (x ∷ xs) n zero a h e = ground arith
Above-get (x ∷ xs) n (suc q) a h e = omega (arith, Above-get xs (suc x) q a h.1 e)

-- Along the list the entries grow.
pub Above-mono_get :
    (n : ℕ) (xs : List ℕ) (q p a b : ℕ)
    → Above n xs
    → get_elem? xs q ≡ some a
    → get_elem? xs p ≡ some b
    → q ≤ p
    → a ≤ b
Above-mono_get n [] q p a b h e e' le = cc
Above-mono_get n (x ∷ xs) zero zero a b h e e' le = ground arith
Above-mono_get n (x ∷ xs) zero (suc p) a b h e e' le =
    ground (arith, Above-get xs (suc x) p b h.1 e')
Above-mono_get n (x ∷ xs) (suc q) zero a b h e e' le = absurd (omega arith)
Above-mono_get n (x ∷ xs) (suc q) (suc p) a b h e e' le =
    Above-mono_get (suc x) xs q p a b h.1 e e' (omega arith)

-- The entries at the places before `bisect_right` are those up to `k`.
pub bisect_right_iff :
    (n : ℕ) (xs : List ℕ) (k q a : ℕ)
    → Above n xs
    → get_elem? xs q ≡ some a
    → (q < bisect_right xs k) ↔ (a ≤ k)
unfolding bisect_right
bisect_right_iff n [] k q a h e = cc
bisect_right_iff n (x ∷ xs) k zero a h e = ground arith
bisect_right_iff n (x ∷ xs) k (suc q) a h e =
    ground (arith, bisect_right_iff (suc x) xs k q a h.1 e, Above-get xs (suc x) q a h.1 e)

-- An entry that is in the list stands at some place.
pub place_of : (xs : List ℕ) (a : ℕ) → elem a xs ≡ true → (q : ℕ) × (get_elem? xs q ≡ some a)
unfolding elem
place_of [] a h = cc
place_of (x ∷ xs) a h = elim (Bool-cases (x == a)) [
  | inl e ↦ (0, ground arith)
  | inr e ↦ let (q, at) = place_of xs a (ground arith) in (suc q, at)
]

-- ===== src/Common/Dict.antt =====
-- Dictionaries from numbers to lists of numbers, in insertion order.
use delta_serve_v_llm.Common.Tests.{◌==◌, if◌then◌else◌, is_some}
use delta_serve_v_llm.Common.Lists.{elem, elem-append}
use Prim.Native.Nat.{ℕ}
use mathlib.Core.Path.{◌≡◌, refl}
use mathlib.Core.Bool.{Bool, false, ◌&&◌, ◌||◌}
use mathlib.Core.List.{List, [], ◌∷◌, ◌++◌}
use mathlib.Core.Option.{Option, none, some}
use native.Mathlib.Omega.{arith}

abbrev pub Dict : Type 0
Dict = List (ℕ × List ℕ)

-- `d.get(k)`
unfoldable pub get : Dict → ℕ → Option (List ℕ)
get [] k = none
get ((j, v) ∷ d) k = if j == k then some v else get d k

-- `d[k] = v`
unfoldable pub put : Dict → ℕ → List ℕ → Dict
put [] k v = (k, v) ∷ []
put ((j, w) ∷ d) k v = if j == k then (k, v) ∷ d else (j, w) ∷ put d k v

-- `del d[k]`
unfoldable pub delete : Dict → ℕ → Dict
delete [] k = []
delete ((j, w) ∷ d) k = if j == k then delete d k else (j, w) ∷ delete d k

-- `d.setdefault(k, []).append(x)`
unfoldable pub add : Dict → ℕ → ℕ → Dict
add [] k x = (k, x ∷ []) ∷ []
add ((j, w) ∷ d) k x = if j == k then (k, w ++ x ∷ []) ∷ d else (j, w) ∷ add d k x

-- `x in d.get(k, ())`
unfoldable pub has : Dict → ℕ → ℕ → Bool
unfolding get
has d k x = elim (get d k) [ none ↦ false | some xs ↦ elem x xs ]

-- Some entry of the key holds the number.
unfoldable pub holds : Dict → ℕ → ℕ → Bool
holds [] k x = false
holds ((j, w) ∷ d) k x = ((j == k) && elem x w) || holds d k x

pub get-put :
    (d : Dict) (k : ℕ) (v : List ℕ) (j : ℕ)
    → get (put d k v) j ≡ (if k == j then some v else get d j)
unfolding get put
get-put [] k v j = refl
get-put ((i, w) ∷ d) k v j = ground (arith, get-put d k v j)

pub get-delete : (d : Dict) (k j : ℕ) → get (delete d k) j ≡ (if k == j then none else get d j)
unfolding get delete
get-delete [] k j = ground arith
get-delete ((i, w) ∷ d) k j = ground (arith, get-delete d k j)

pub holds-add :
    (d : Dict) (k x j y : ℕ) → holds (add d k x) j y ≡ (holds d j y || ((k == j) && (x == y)))
unfolding holds add elem
holds-add [] k x j y = ground arith
holds-add ((i, w) ∷ d) k x j y = ground (arith, holds-add d k x j y, elem-append y w (x ∷ []))

pub has-add : (d : Dict) (k x j y : ℕ) → has (add d k x) j y ≡ (has d j y || ((k == j) && (x == y)))
unfolding has add elem
has-add [] k x j y = ground arith
has-add ((i, w) ∷ d) k x j y = ground (arith, has-add d k x j y, elem-append y w (x ∷ []))

pub is_some-get-add :
    (d : Dict) (k x j : ℕ) → is_some (get (add d k x) j) ≡ (is_some (get d j) || (k == j))
unfolding get add
is_some-get-add [] k x j = ground arith
is_some-get-add ((i, w) ∷ d) k x j = ground (arith, is_some-get-add d k x j)

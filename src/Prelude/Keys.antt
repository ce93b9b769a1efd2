-- ===== src/Prelude/Keys.antt =====
-- Lists of texts as sets of keys.
use text.Mathlib.TextEquality.{eq_iff}
use smc_ict_engine.Prelude.Tests.{str_eq, if◌then◌else◌}
use smc_ict_engine.Prelude.Lists.{any, All}
use Prim.Native.String.{String}
use mathlib.Core.Path.{◌≡◌, refl}
use mathlib.Core.Bool.{Bool, true, false, ◌||◌}
use mathlib.Core.Option.{Option, none, some}
use mathlib.Core.List.{List, [], ◌∷◌, ◌++◌}
use native.Mathlib.Omega.{arith}

-- `key in keys`
abbrev pub contains : List String → String → Bool
contains keys key = any (str_eq key) keys

-- No key occurs twice.
abbrev pub Distinct : List String → Type 0
Distinct [] = Unit
Distinct (x ∷ xs) = (contains xs x ≡ false) × Distinct xs

pub contains-append :
    (xs ys : List String) (k : String) → contains (xs ++ ys) k ≡ contains xs k || contains ys k
contains-append [] ys k = refl
contains-append (x ∷ xs) ys k = ground (arith, contains-append xs ys k)

-- A new key may be added at the end.
pub Distinct-snoc :
    (xs : List String) (k : String) → Distinct xs → contains xs k ≡ false → Distinct (xs ++ k ∷ [])
Distinct-snoc [] k d h = (refl, tt)
Distinct-snoc (x ∷ xs) k d h = (
  ground (arith, d.0, contains-append xs (k ∷ []) x, eq_iff x k, eq_iff k x),
  Distinct-snoc xs k d.1 (ground arith),
)

-- Each of `xs` is among `ys`.
abbrev pub Within : List String → List String → Type 0
Within ys xs = All (λ k. contains ys k ≡ true) xs

pub Within-snoc : (ys xs : List String) (k : String) → Within ys xs → Within (ys ++ k ∷ []) xs
Within-snoc ys [] k h = tt
Within-snoc ys (x ∷ xs) k h =
    (ground (arith, contains-append ys (k ∷ []) x, h.0), Within-snoc ys xs k h.1)

-- What is not among `ys` is not among those of `ys`.
pub contains_of_Within :
    (ys xs : List String) (k : String)
    → Within ys xs
    → contains ys k ≡ false
    → contains xs k ≡ false
contains_of_Within ys [] k h n = refl
contains_of_Within ys (x ∷ xs) k h n =
    ground (arith, contains_of_Within ys xs k h.1 n, eq_iff k x, h.0)

pub contains-snoc_self : (xs : List String) (k : String) → contains (xs ++ k ∷ []) k ≡ true
contains-snoc_self [] k = ground (arith, eq_iff k k)
contains-snoc_self (x ∷ xs) k = ground (arith, contains-snoc_self xs k)

-- A Python dict with text keys, in insertion order.
module _ {ℓ} {V : Type ℓ} where
  -- `dict.get(key)`
  abbrev pub lookup : String → List (String × V) → Option V
  lookup key [] = none
  lookup key ((k, v) ∷ rest) = if str_eq k key then some v else lookup key rest

  -- `dict[key] = value` keeps the place of a key that is there.
  abbrev pub assign : String → V → List (String × V) → List (String × V)
  assign key value [] = (key, value) ∷ []
  assign key value ((k, v) ∷ rest) =
      if str_eq k key then (k, value) ∷ rest else (k, v) ∷ assign key value rest

  pub lookup-assign :
      (key other : String) (value : V) (entries : List (String × V))
      → lookup other (assign key value entries)
        ≡ (if str_eq key other then some value else lookup other entries)
  lookup-assign key other value [] = refl
  lookup-assign key other value ((k, v) ∷ rest) =
      ground
        (arith, eq_iff k key, eq_iff k other, eq_iff key other, lookup-assign key other value rest)

  -- `dict.pop(key, None)`, for what stays
  abbrev pub erase : String → List (String × V) → List (String × V)
  erase key [] = []
  erase key ((k, v) ∷ rest) =
      let left = erase key rest in if str_eq k key then left else (k, v) ∷ left

  pub lookup-erase :
      (key other : String) (entries : List (String × V))
      → lookup other (erase key entries) ≡ (if str_eq key other then none else lookup other entries)
  lookup-erase key other [] = ground arith
  lookup-erase key other ((k, v) ∷ rest) =
      ground (arith, eq_iff k key, eq_iff k other, eq_iff key other, lookup-erase key other rest)

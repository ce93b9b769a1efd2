-- ===== src/Prelude/Sort.antt =====
-- Python's `sorted`: a stable sort, by a test `le`.
use mathlib.Core.List.Perm
use mathlib.Core.List.{Perm}
use smc_ict_engine.Prelude.Tests.{if◌then◌else◌, Bool-cases}
use smc_ict_engine.Prelude.Lists.{All, Starts, Chain}
use mathlib.Core.Path.{◌≡◌, refl}
use mathlib.Core.Logic.{inl, inr}
use mathlib.Core.Bool.{Bool, true}
use mathlib.Core.List.{List, [], ◌∷◌}

module _ {ℓ} {A : Type ℓ} (le : A → A → Bool) where
  unfoldable pub insert_sorted : A → List A → List A
  insert_sorted x [] = x ∷ []
  insert_sorted x (y ∷ ys) = if le x y then x ∷ y ∷ ys else y ∷ insert_sorted x ys

  unfoldable pub sort : List A → List A
  unfolding insert_sorted
  sort [] = []
  sort (x ∷ xs) = insert_sorted x (sort xs)

  pub insert_sorted-perm : (x : A) (xs : List A) → Perm (insert_sorted x xs) (x ∷ xs)
  unfolding insert_sorted
  insert_sorted-perm x [] = Perm.refl _
  insert_sorted-perm x (y ∷ ys) = elim (Bool-cases (le x y)) [
    | inl e ↦ rw e (Perm.refl _)
    | inr e ↦ rw e (Perm.trans (Perm.cons y (insert_sorted-perm x ys)) (Perm.swap x y ys))
  ]

  -- Sorting only permutes.
  pub sort-perm : (xs : List A) → Perm (sort xs) xs
  unfolding sort
  sort-perm [] = Perm.refl _
  sort-perm (x ∷ xs) = Perm.trans (insert_sorted-perm x (sort xs)) (Perm.cons x (sort-perm xs))

  pub insert_sorted-All {κ} :
      (P : A → Type κ) (x : A) (xs : List A) → P x → All P xs → All P (insert_sorted x xs)
  unfolding insert_sorted
  insert_sorted-All P x [] px h = (px, tt)
  insert_sorted-All P x (y ∷ ys) px h = elim (Bool-cases (le x y)) [
    | inl e ↦ rw e (px, h)
    | inr e ↦ rw e (h.0, insert_sorted-All P x ys px h.1)
  ]

  pub sort-All {κ} : (P : A → Type κ) (xs : List A) → All P xs → All P (sort xs)
  unfolding sort
  sort-All P [] h = tt
  sort-All P (x ∷ xs) h = insert_sorted-All P x (sort xs) h.0 (sort-All P xs h.1)

  All-insert_sorted {κ} :
      (P : A → Type κ) (x : A) (xs : List A) → All P (insert_sorted x xs) → P x × All P xs
  unfolding insert_sorted
  All-insert_sorted P x [] h = h
  All-insert_sorted P x (y ∷ ys) h = elim (Bool-cases (le x y)) [
    | inl e ↦ rw e at h
    | inr e ↦
        let (py, rest) = rw e at h in
        let (px, pys) = All-insert_sorted P x ys rest in (px, (py, pys))
  ]

  -- What holds of all elements of a sorted list holds of all of the list.
  pub All-sort {κ} : (P : A → Type κ) (xs : List A) → All P (sort xs) → All P xs
  unfolding sort
  All-sort P [] h = tt
  All-sort P (x ∷ xs) h =
      let (px, rest) = All-insert_sorted P x (sort xs) h in (px, All-sort P xs rest)

  insert_sorted_first :
      (x : A) (xs : List A) → Starts (λ y. le x y ≡ true) xs → insert_sorted x xs ≡ x ∷ xs
  unfolding insert_sorted
  insert_sorted_first x [] h = refl
  insert_sorted_first x (y ∷ ys) h = rw h

  -- A list in order is left as it is.
  pub sort_of_Chain : (xs : List A) → Chain (λ x y. le x y ≡ true) xs → sort xs ≡ xs
  unfolding sort
  sort_of_Chain [] h = refl
  sort_of_Chain (x ∷ xs) h = rw (sort_of_Chain xs h.1) (insert_sorted_first x xs h.0)

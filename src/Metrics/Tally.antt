-- ===== src/Metrics/Tally.antt =====
-- How often a test holds in a list, and that groups by distinct keys share a list out.
use smc_ict_engine.Prelude.{
  ℕ, ◌+◌, ◌≡◌, ◌∙◌, refl, Bool, true, not, ◌&&◌, Bool-cases, inl, inr, String, List, [], ◌∷◌, All,
  All-map, contains, str_le, str_eq, eq_iff, eq_refl, if◌then◌else◌, length, keep, map, suc, none,
  some, lookup, assign, arith,
}
use smc_ict_engine.Prelude.Sort.{insert_sorted, sort}
use smc_ict_engine.Metrics.{counted, count_texts}
use smc_ict_engine.Metrics.Report.{distinct}

module _ {A : Type 0} where
  abbrev pub tally : (A → Bool) → List A → ℕ
  tally p [] = 0
  tally p (x ∷ xs) = (if p x then 1 else 0) + tally p xs

  pub length-keep : (p : A → Bool) (xs : List A) → length (keep p xs) ≡ tally p xs
  length-keep p [] = refl
  length-keep p (x ∷ xs) = ground (arith, length-keep p xs)

  pub tally-keep : (p q : A → Bool) (xs : List A) → tally p (keep q xs) ≡ tally (λ x. p x && q x) xs
  tally-keep p q [] = refl
  tally-keep p q (x ∷ xs) = ground (arith, tally-keep p q xs)

  tally-insert_sorted :
      (le : A → A → Bool) (p : A → Bool) (x : A) (xs : List A)
      → tally p (insert_sorted le x xs) ≡ (if p x then 1 else 0) + tally p xs
  unfolding insert_sorted
  tally-insert_sorted le p x [] = refl
  tally-insert_sorted le p x (y ∷ ys) = elim (Bool-cases (le x y)) [
    | inl e ↦ rw e refl
    | inr e ↦ rw e (omega (arith, tally-insert_sorted le p x ys))
  ]

  pub tally-sort :
      (le : A → A → Bool) (p : A → Bool) (xs : List A) → tally p (sort le xs) ≡ tally p xs
  unfolding sort
  tally-sort le p [] = refl
  tally-sort le p (x ∷ xs) =
      tally-insert_sorted le p x (sort le xs) ∙ omega (arith, tally-sort le p xs)

tally-others :
    (k x : String) (ys : List String)
    → tally (str_eq k) (keep (λ y. not (str_eq x y)) ys)
      ≡ (if str_eq k x then 0 else tally (str_eq k) ys)
tally-others k x [] = ground arith
tally-others k x (y ∷ ys) =
    ground (arith, tally-others k x ys, eq_iff k x, eq_iff x y, eq_iff k y, eq_refl k)

-- A text of the list is once among its distinct texts.
tally-distinct :
    (k : String) (xs : List String) → contains xs k ≡ true → tally (str_eq k) (distinct xs) ≡ 1
unfolding distinct
tally-distinct k [] h = absurd (cc)
tally-distinct k (x ∷ xs) h = elim (Bool-cases (str_eq k x)) [
  | inl e ↦ ground (arith, tally-others k x (distinct xs), e)
  | inr e ↦
      let within : contains xs k ≡ true = rw e at h in
      ground (arith, tally-others k x (distinct xs), tally-distinct k xs within, e)
]

module _ {A : Type 0} (key : A → String) (p : A → Bool) where
  -- The sum over the groups of the keys
  abbrev pub shared : List String → List A → ℕ
  shared [] xs = 0
  shared (k ∷ ks) xs = tally p (keep (λ x. str_eq (key x) k) xs) + shared ks xs

  shared-empty : (ks : List String) → shared ks [] ≡ 0
  shared-empty [] = refl
  shared-empty (k ∷ ks) = omega (arith, shared-empty ks)

  shared-cons :
      (ks : List String) (x : A) (xs : List A)
      → shared ks (x ∷ xs) ≡ (if p x then tally (str_eq (key x)) ks else 0) + shared ks xs
  shared-cons [] x xs = ground arith
  shared-cons (k ∷ ks) x xs = ground (arith, shared-cons ks x xs)

  -- Keys that are each once among `ks` share the list out.
  shared-tally :
      (ks : List String) (xs : List A)
      → All (λ x. tally (str_eq (key x)) ks ≡ 1) xs
      → shared ks xs ≡ tally p xs
  shared-tally ks [] h = shared-empty ks
  shared-tally ks (x ∷ xs) (once, h) =
      shared-cons ks x xs ∙ ground (arith, once, shared-tally ks xs h)

  contains-keys : (xs : List A) → All (λ x. contains (map key xs) (key x) ≡ true) xs
  contains-keys [] = tt
  contains-keys (x ∷ xs) =
      (ground (arith, eq_refl (key x)), All-map (λ y h. ground (arith, h)) xs (contains-keys xs))

  -- The distinct keys of a list, in any order that a sort gives, share it out.
  pub shared-distinct : (xs : List A) → shared (sort str_le (distinct (map key xs))) xs ≡ tally p xs
  shared-distinct xs = shared-tally (sort str_le (distinct (map key xs))) xs (
      All-map
        (λ x h.
          tally-sort str_le (str_eq (key x)) (distinct (map key xs))
          ∙ tally-distinct (key x) (map key xs) h)
        xs (contains-keys xs))

abbrev pub sum_entries : List (String × ℕ) → ℕ
sum_entries [] = 0
sum_entries ((k, n) ∷ rest) = n + sum_entries rest

sum_entries-assign :
    (k : String) (v : ℕ) (counts : List (String × ℕ))
    → v ≡ elim (lookup k counts) [ none ↦ 1 | some n ↦ suc n ]
    → sum_entries (assign k v counts) ≡ 1 + sum_entries counts
sum_entries-assign k v [] h = omega (arith, h)
sum_entries-assign k v ((x, n) ∷ rest) h = elim (Bool-cases (str_eq x k)) [
  | inl e ↦ rw e (let same : v ≡ suc n = rw e at h in omega (arith, same))
  | inr e ↦ rw e (omega (arith, sum_entries-assign k v rest (rw e at h)))
]

sum_entries-counted :
    (xs : List String) (counts : List (String × ℕ))
    → sum_entries (counted xs counts) ≡ length xs + sum_entries counts
unfolding counted
sum_entries-counted [] counts = omega arith
sum_entries-counted (x ∷ xs) counts =
    sum_entries-counted xs (assign x (elim (lookup x counts) [ none ↦ 1 | some n ↦ suc n ]) counts)
    ∙ omega (arith, sum_entries-assign x _ counts refl)

sum_entries-insert_sorted :
    (le : String × ℕ → String × ℕ → Bool) (x : String × ℕ) (xs : List (String × ℕ))
    → sum_entries (insert_sorted le x xs) ≡ x.1 + sum_entries xs
unfolding insert_sorted
sum_entries-insert_sorted le x [] = refl
sum_entries-insert_sorted le x (y ∷ ys) = elim (Bool-cases (le x y)) [
  | inl e ↦ rw e refl
  | inr e ↦ rw e (omega (arith, sum_entries-insert_sorted le x ys))
]

sum_entries-sort :
    (le : String × ℕ → String × ℕ → Bool) (xs : List (String × ℕ))
    → sum_entries (sort le xs) ≡ sum_entries xs
unfolding sort
sum_entries-sort le [] = refl
sum_entries-sort le (x ∷ xs) =
    sum_entries-insert_sorted le x (sort le xs) ∙ omega (arith, sum_entries-sort le xs)

-- The counts of some texts add up to their number.
pub sum_entries-count_texts : (xs : List String) → sum_entries (count_texts xs) ≡ length xs
unfolding count_texts
sum_entries-count_texts xs =
    sum_entries-sort (λ a b. str_le a.0 b.0) (counted xs [])
    ∙ sum_entries-counted xs []
    ∙ omega arith

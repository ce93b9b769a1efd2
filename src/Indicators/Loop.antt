-- ===== src/Indicators/Loop.antt =====
-- `for index, candle in enumerate(candles)`, over a state, and the rules for such a loop.
use smc_ict_engine.Prelude.{
  ℕ, zero, suc, ◌+◌, ◌≤◌, ◌<◌, ◌≡◌, ◌∙◌, refl, sym, ap, Option, none, some, List, [], ◌∷◌, ◌++◌,
  append_assoc, length, length-append, get_elem?, take, drop, Result, ok, err, index_error, ◌>>=◌,
  bind-eq-ok, ok_inj, subst, append-nil, arith,
}

-- `values[index]`
abbrev pub element : {A : Type 0} → List A → ℕ → Result A
element values index = elim (get_elem? values index) [ none ↦ err index_error | some v ↦ ok v ]

-- `values[first:last]`
abbrev pub slice : {A : Type 0} → (first last : ℕ) → List A → List A
slice first last values = drop first (take last values)

module _ {S C : Type 0} (step : ℕ → C → S → Result S) where
  -- From an index on
  unfoldable pub enumerate_from : ℕ → List C → S → Result S
  enumerate_from index [] s = ok s
  enumerate_from index (c ∷ cs) s = step index c s >>= enumerate_from (suc index) cs

bind_ext :
    {A B : Type 0} (m : Result A) (f g : A → Result B)
    → ((a : A) → f a ≡ g a)
    → (m >>= f) ≡ (m >>= g)
bind_ext (ok a) f g h = h a
bind_ext (err e) f g h = refl

bind_assoc :
    {A B C : Type 0} (m : Result A) (f : A → Result B) (g : B → Result C)
    → ((m >>= f) >>= g) ≡ (m >>= λ a. f a >>= g)
bind_assoc (ok a) f g = refl
bind_assoc (err e) f g = refl

module _ {S C : Type 0} where
  -- The loop over a series that goes on, goes on from where the first part ends.
  pub enumerate-append :
      (step : ℕ → C → S → Result S) (index : ℕ) (xs ys : List C) (s : S)
      → enumerate_from step index (xs ++ ys) s
        ≡ (enumerate_from step index xs s >>= enumerate_from step (index + length xs) ys)
  unfolding enumerate_from
  enumerate-append step index [] ys s = ap (λ j. enumerate_from step j ys s) (omega arith)
  enumerate-append step index (x ∷ xs) ys s =
      bind_ext (step index x s) (enumerate_from step (suc index) (xs ++ ys))
        (λ t.
          enumerate_from step (suc index) xs t >>= enumerate_from step (index + suc (length xs)) ys)
        (λ t.
          enumerate-append step (suc index) xs ys t
          ∙ ap (λ j. enumerate_from step (suc index) xs t >>= enumerate_from step j ys)
              (omega arith))
      ∙ sym (
          bind_assoc (step index x s) (enumerate_from step (suc index) xs)
            (enumerate_from step (index + suc (length xs)) ys))

  -- Two bodies that agree below a bound
  pub enumerate-eq :
      (f g : ℕ → C → S → Result S) (bound index : ℕ) (xs : List C) (s : S)
      → ((j : ℕ) (c : C) (t : S) → j < bound → f j c t ≡ g j c t)
      → index + length xs ≤ bound
      → enumerate_from f index xs s ≡ enumerate_from g index xs s
  unfolding enumerate_from
  enumerate-eq f g bound index [] s agree h = refl
  enumerate-eq f g bound index (x ∷ xs) s agree h =
      ap (λ r. r >>= enumerate_from f (suc index) xs) (agree index x s (omega (arith, h)))
      ∙ bind_ext (g index x s) (enumerate_from f (suc index) xs) (enumerate_from g (suc index) xs)
          (λ t. enumerate-eq f g bound (suc index) xs t agree (omega (arith, h)))

get_elem?-middle :
    {C : Type 0} (front xs : List C) (x : C) → get_elem? (front ++ x ∷ xs) (length front) ≡ some x
get_elem?-middle [] xs x = refl
get_elem?-middle (c ∷ front) xs x = get_elem?-middle front xs x

module _ {ℓ} {S C : Type 0} (values : List C) (step : ℕ → C → S → Result S) (P : ℕ → S → Type ℓ)
    (keeps : (j : ℕ) (c : C) (a b : S)
      → get_elem? values j ≡ some c
      → P j a
      → step j c a ≡ ok b
      → P (suc j) b) where
  inv_from :
      (front : List C) (index : ℕ) (xs : List C) (s t : S)
      → length front ≡ index
      → front ++ xs ≡ values
      → P index s
      → enumerate_from step index xs s ≡ ok t
      → P (length values) t
  unfolding enumerate_from
  inv_from front index [] s t here whole h k =
      let same : index ≡ length values = sym here ∙ ap length (sym (append-nil front) ∙ whole) in
      subst (λ j. P j t) same (subst (P index) (ok_inj k) h)
  inv_from front index (x ∷ xs) s t here whole h k =
      let (a, stepped, rest) = bind-eq-ok (step index x s) _ k in
      let found : get_elem? values index ≡ some x =
        ap (λ vs. get_elem? vs index) (sym whole)
        ∙ ap (get_elem? (front ++ x ∷ xs)) (sym here)
        ∙ get_elem?-middle front xs x in
      inv_from (front ++ x ∷ []) (suc index) xs a t
        (omega (arith, here, length-append front (x ∷ []))) (append_assoc front (x ∷ []) xs ∙ whole)
        (keeps index x s a found h stepped) rest

  -- What each round keeps holds at the end. A round has the value at its index.
  pub enumerate_inv :
      (s t : S) → P 0 s → enumerate_from step 0 values s ≡ ok t → P (length values) t
  enumerate_inv s t h k = inv_from [] 0 values s t refl refl h k

-- A loop whose rounds return and keep an invariant returns, and keeps it.
module _ {ℓ} {S C : Type 0} (values : List C) (step : ℕ → C → S → Result S) (P : ℕ → S → Type ℓ)
    (goes : (j : ℕ) (c : C) (a : S)
      → get_elem? values j ≡ some c
      → P j a
      → (b : S) × (step j c a ≡ ok b) × P (suc j) b) where
  pub total_from :
      (front : List C) (index : ℕ) (xs : List C) (s : S)
      → length front ≡ index
      → front ++ xs ≡ values
      → P index s
      → (t : S) × (enumerate_from step index xs s ≡ ok t) × P (length values) t
  unfolding enumerate_from
  total_from front index [] s here whole h =
      let same : index ≡ length values = sym here ∙ ap length (sym (append-nil front) ∙ whole) in
      (s, refl, subst (λ j. P j s) same h)
  total_from front index (x ∷ xs) s here whole h =
      let found : get_elem? values index ≡ some x =
        ap (λ vs. get_elem? vs index) (sym whole)
        ∙ ap (get_elem? (front ++ x ∷ xs)) (sym here)
        ∙ get_elem?-middle front xs x in
      let (a, stepped, kept) = goes index x s found h in
      let (t, ran, p) =
        total_from (front ++ x ∷ []) (suc index) xs a
          (omega (arith, here, length-append front (x ∷ [])))
          (append_assoc front (x ∷ []) xs ∙ whole) kept in
      (t, ap (λ r. r >>= enumerate_from step (suc index) xs) stepped ∙ ran, p)

  pub enumerate_total :
      (s : S) → P 0 s → (t : S) × (enumerate_from step 0 values s ≡ ok t) × P (length values) t
  enumerate_total s h = total_from [] 0 values s refl refl h

-- A loop that only adds to a list
module _ {S E : Type 0} (events : S → List E) where
  abbrev pub Grows : S → S → Type 0
  Grows s t = (more : List E) × (events t ≡ events s ++ more)

  pub Grows-refl : (s : S) → Grows s s
  Grows-refl s = ([], sym (append-nil (events s)))

  pub Grows-trans : (s t u : S) → Grows s t → Grows t u → Grows s u
  Grows-trans s t u (new, e) (more, e') =
      (new ++ more, e' ∙ ap (λ es. es ++ more) e ∙ append_assoc (events s) new more)

module _ {S C E : Type 0} (events : S → List E) where
  pub enumerate-Grows :
      (step : ℕ → C → S → Result S) (index : ℕ) (xs : List C) (s t : S)
      → ((j : ℕ) (c : C) (a b : S) → step j c a ≡ ok b → Grows events a b)
      → enumerate_from step index xs s ≡ ok t
      → Grows events s t
  unfolding enumerate_from
  enumerate-Grows step index [] s t grows h =
      ([], ap events (sym (ok_inj h)) ∙ sym (append-nil (events s)))
  enumerate-Grows step index (x ∷ xs) s t grows h =
      let (a, stepped, rest) = bind-eq-ok (step index x s) _ h in
      Grows-trans events s a t (grows index x s a stepped)
        (enumerate-Grows step (suc index) xs a t grows rest)

  -- The loop over the first values ends with the first of the events, if its rounds are those of the
  -- whole loop.
  pub enumerate_prefix :
      (whole part : ℕ → C → S → Result S) (bound index : ℕ) (xs ys : List C) (s t : S)
      → ((j : ℕ) (c : C) (a : S) → j < bound → whole j c a ≡ part j c a)
      → ((j : ℕ) (c : C) (a b : S) → whole j c a ≡ ok b → Grows events a b)
      → index + length xs ≤ bound
      → enumerate_from whole index (xs ++ ys) s ≡ ok t
      → (u : S) × (enumerate_from part index xs s ≡ ok u) × Grows events u t
  enumerate_prefix whole part bound index xs ys s t agree grows h k =
      let (u, first, rest) =
        bind-eq-ok (enumerate_from whole index xs s) _
          (sym (enumerate-append whole index xs ys s) ∙ k) in
      (
        u,
        sym (enumerate-eq whole part bound index xs s agree h) ∙ first,
        enumerate-Grows whole (index + length xs) ys u t grows rest,
      )

-- What is before an index is there in a longer series too.
pub get_elem?-append :
    {C : Type 0} (xs ys : List C) (i : ℕ) → i < length xs → get_elem? (xs ++ ys) i ≡ get_elem? xs i
get_elem?-append [] ys i h = absurd (omega (arith, h))
get_elem?-append (x ∷ xs) ys zero h = refl
get_elem?-append (x ∷ xs) ys (suc i) h = get_elem?-append xs ys i (omega (arith, h))

pub take-append :
    {C : Type 0} (n : ℕ) (xs ys : List C) → n ≤ length xs → take n (xs ++ ys) ≡ take n xs
take-append zero xs ys h = refl
take-append (suc n) [] ys h = absurd (omega (arith, h))
take-append (suc n) (x ∷ xs) ys h = ap (λ r. x ∷ r) (take-append n xs ys (omega (arith, h)))

pub element-append :
    {C : Type 0} (xs ys : List C) (i : ℕ) → i < length xs → element (xs ++ ys) i ≡ element xs i
element-append {C} xs ys i h = ap found (get_elem?-append xs ys i h)
  where
    found : Option C → Result C
    found o = elim o [ none ↦ err index_error | some v ↦ ok v ]

pub element_found :
    {C : Type 0} (xs : List C) (i : ℕ) (x : C) → get_elem? xs i ≡ some x → element xs i ≡ ok x
element_found {C} xs i x h = ap found h
  where
    found : Option C → Result C
    found o = elim o [ none ↦ err index_error | some v ↦ ok v ]

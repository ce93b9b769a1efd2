-- ===== src/Indicators/Smc/Extremes.antt =====
-- What a candidate of a leg is: an extreme that each of the bars after it confirms.
use smc_ict_engine.Prelude.{
  ℕ, zero, suc, ◌+◌, ◌-◌, ◌≤◌, ◌<◌, ◌≡◌, ◌⊎◌, ◌∙◌, refl, sym, ap, List, [], ◌∷◌, All, All-map, map,
  length, drop, take, get_elem?, ok, ◌>>=◌, if◌then◌else◌, true, Bool-cases, inl, inr, some, arith,
  subst, some_inj,
}
use smc_ict_engine.Decimal.{Decimal, ◌≼◌, dec_ltb, dec_max, dec_min}
use smc_ict_engine.Decimal.Order.{
  ≼_refl, ≼_trans, dec_max-≼, dec_min-≼, dec_ltb-trans_left, dec_ltb-trans_right,
}
use smc_ict_engine.Resampling.{DerivedCandle}
use smc_ict_engine.Indicators.Loop.{slice, element_found}
use smc_ict_engine.Indicators.Smc.Legs.{
  highest_from, close_before, lowest_from, highest, lowest, Candidate, candidate_of, candidate_at,
}

highest_from-≼ :
    (best : Decimal) (vs : List Decimal)
    → (best ≼ highest_from best vs) × All (λ v. v ≼ highest_from best vs) vs
unfolding highest_from
highest_from-≼ best [] = (≼_refl best, tt)
highest_from-≼ best (v ∷ vs) =
    let (first, rest) = highest_from-≼ (dec_max best v) vs in
    let (left, right) = dec_max-≼ best v in
    let top = highest_from (dec_max best v) vs in
    (
      ≼_trans best (dec_max best v) top left first,
      (≼_trans v (dec_max best v) top right first, rest),
    )

lowest_from-≼ :
    (best : Decimal) (vs : List Decimal)
    → (lowest_from best vs ≼ best) × All (λ v. lowest_from best vs ≼ v) vs
unfolding lowest_from
lowest_from-≼ best [] = (≼_refl best, tt)
lowest_from-≼ best (v ∷ vs) =
    let (first, rest) = lowest_from-≼ (dec_min best v) vs in
    let (left, right) = dec_min-≼ best v in
    let low = lowest_from (dec_min best v) vs in
    (
      ≼_trans low (dec_min best v) best first left,
      (≼_trans low (dec_min best v) v first right, rest),
    )

module _ {A : Type 0} where
  pub get_elem?_below : (xs : List A) (i : ℕ) → i < length xs → (x : A) × (get_elem? xs i ≡ some x)
  get_elem?_below [] i h = absurd (omega (arith, h))
  get_elem?_below (x ∷ xs) zero h = (x, refl)
  get_elem?_below (x ∷ xs) (suc i) h = get_elem?_below xs i (omega (arith, h))

  pub lt_of_get_elem? : (xs : List A) (i : ℕ) (x : A) → get_elem? xs i ≡ some x → i < length xs
  lt_of_get_elem? [] i x h = absurd (cc)
  lt_of_get_elem? (y ∷ xs) zero x h = omega arith
  lt_of_get_elem? (y ∷ xs) (suc i) x h = omega (arith, lt_of_get_elem? xs i x h)

  get_elem?-take : (n i : ℕ) (xs : List A) → i < n → get_elem? (take n xs) i ≡ get_elem? xs i
  get_elem?-take zero i xs h = absurd (omega (arith, h))
  get_elem?-take (suc n) i [] h = refl
  get_elem?-take (suc n) zero (x ∷ xs) h = refl
  get_elem?-take (suc n) (suc i) (x ∷ xs) h = get_elem?-take n i xs (omega (arith, h))

  get_elem?-drop : (n i : ℕ) (xs : List A) → get_elem? (drop n xs) i ≡ get_elem? xs (n + i)
  get_elem?-drop zero i xs = ap (get_elem? xs) (omega arith)
  get_elem?-drop (suc n) i [] = refl
  get_elem?-drop (suc n) i (x ∷ xs) =
      get_elem?-drop n i xs ∙ ap (get_elem? (x ∷ xs)) {x = suc (n + i)} (omega arith)

  -- What a slice holds
  pub get_elem?-slice :
      (first last i : ℕ) (xs : List A)
      → first + i < last
      → get_elem? (slice first last xs) i ≡ get_elem? xs (first + i)
  get_elem?-slice first last i xs h =
      get_elem?-drop first i (take last xs) ∙ get_elem?-take last (first + i) xs h

  take_found :
      (n i : ℕ) (xs : List A) (x : A)
      → get_elem? (take n xs) i ≡ some x
      → (i < n) × (get_elem? xs i ≡ some x)
  take_found zero i xs x h = absurd (cc)
  take_found (suc n) i [] x h = absurd (cc)
  take_found (suc n) zero (y ∷ xs) x h = (omega arith, h)
  take_found (suc n) (suc i) (y ∷ xs) x h =
      let (lt, found) = take_found n i xs x h in (omega (arith, lt), found)

  pub slice_found :
      (first last i : ℕ) (xs : List A) (x : A)
      → get_elem? (slice first last xs) i ≡ some x
      → (first + i < last) × (get_elem? xs (first + i) ≡ some x)
  slice_found first last i xs x h =
      take_found last (first + i) xs x (sym (get_elem?-drop first i (take last xs)) ∙ h)

  pub All-get_elem? {κ} :
      (P : A → Type κ) (xs : List A) (i : ℕ) (x : A) → All P xs → get_elem? xs i ≡ some x → P x
  All-get_elem? P [] i x h k = absurd (cc)
  All-get_elem? P (y ∷ xs) zero x h k = subst P (some_inj k) h.0
  All-get_elem? P (y ∷ xs) (suc i) x h k = All-get_elem? P xs i x h.1 k

All-of_map :
    {A B : Type 0} (P : B → Type 0) (f : A → B) (xs : List A)
    → All P (map f xs)
    → All (λ x. P (f x)) xs
All-of_map P f [] h = tt
All-of_map P f (x ∷ xs) h = (h.0, All-of_map P f xs h.1)

-- Each candle from one index to another
abbrev pub Between : List DerivedCandle → (after until : ℕ) → (DerivedCandle → Type 0) → Type 0
Between candles after until P =
    (i : ℕ) (d : DerivedCandle) → after < i → i ≤ until → get_elem? candles i ≡ some d → P d

abbrev pub Turn : List DerivedCandle → (index leg : ℕ) → Candidate → Type 0
Turn candles index leg c =
    (c.next_leg ≡ leg)
    ⊎ ((c.next_leg ≡ 0) × Between candles c.index index (λ d. dec_ltb d.high c.high ≡ true))
    ⊎ ((c.next_leg ≡ 1) × Between candles c.index index (λ d. dec_ltb c.low d.low ≡ true))

abbrev pub IsCandidate : List DerivedCandle → (size index leg : ℕ) → Candidate → Type 0
IsCandidate candles size index leg c =
    (c.index + size ≡ index)
    × ((d : DerivedCandle) × (get_elem? candles c.index ≡ some d)
        × (c.high ≡ d.high)
        × (c.low ≡ d.low))
    × Turn candles index leg c

-- The bars after a candidate, as a list
module _ (candles : List DerivedCandle) (size index : ℕ) (positive : 1 ≤ size) (late : size ≤ index)
    (within : index < length candles) where
  abbrev subsequent : List DerivedCandle
  subsequent = slice (index - size + 1) (index + 1) candles

  subsequent_some : (d : DerivedCandle) × (rest : List DerivedCandle) × (subsequent ≡ d ∷ rest)
  subsequent_some =
      let (x, found) = get_elem?_below candles index within in
      let there : get_elem? subsequent (size - 1) ≡ some x =
        get_elem?-slice (index - size + 1) (index + 1) (size - 1) candles
          (omega (arith, positive, late))
        ∙ ap (get_elem? candles) {x = index - size + 1 + (size - 1)} (omega (arith, positive, late))
        ∙ found in
      nonempty subsequent (size - 1) x there
    where
      nonempty :
          (ds : List DerivedCandle) (i : ℕ) (x : DerivedCandle)
          → get_elem? ds i ≡ some x
          → (d : DerivedCandle) × (rest : List DerivedCandle) × (ds ≡ d ∷ rest)
      nonempty [] i x h = absurd (cc)
      nonempty (d ∷ ds) i x h = (d, ds, refl)

  -- What holds of each holds between the candidate and the bar.
  between : (P : DerivedCandle → Type 0) → All P subsequent → Between candles (index - size) index P
  between P all i d after until found = All-get_elem? P subsequent (i - (index - size + 1)) d all (
      get_elem?-slice (index - size + 1) (index + 1) (i - (index - size + 1)) candles
        (omega (arith, after, until))
      ∙ ap (get_elem? candles) {x = index - size + 1 + (i - (index - size + 1))}
          (omega (arith, after, until))
      ∙ found)

  turn_of :
      (leg : ℕ) (c : DerivedCandle) (top bottom : Decimal) (next : ℕ)
      → All (λ d. d.high ≼ top) subsequent
      → All (λ d. bottom ≼ d.low) subsequent
      → next ≡ (if dec_ltb top c.high then 0 else if dec_ltb c.low bottom then 1 else leg)
      → Turn candles index leg
          (record { index = index - size; high = c.high; low = c.low; next_leg = next })
  turn_of leg c top bottom next above below e = elim (Bool-cases (dec_ltb top c.high)) [
    | inl high ↦ inr (
        inl (
          rw high at e,
          between (λ d. dec_ltb d.high c.high ≡ true)
              (All-map (λ d h. dec_ltb-trans_left d.high top c.high h high) subsequent above),
        ))
    | inr flat ↦ elim (Bool-cases (dec_ltb c.low bottom)) [
      | inl low ↦ inr (
          inr (
            rw (flat, low) at e,
            between (λ d. dec_ltb c.low d.low ≡ true)
                (All-map (λ d h. dec_ltb-trans_right c.low bottom d.low h low) subsequent below),
          ))
      | inr stays ↦ inl (rw (flat, stays) at e)
    ]
  ]

  -- A candidate is found, and is what it says.
  pub candidate_at_total :
      (leg : ℕ)
      → (c : Candidate) × (candidate_at candles size index leg ≡ ok c)
        × IsCandidate candles size index leg c
  unfolding candidate_at highest lowest
  candidate_at_total leg =
      let (d, rest, e) = subsequent_some in
      let (x, found) = get_elem?_below candles (index - size) (omega (arith, late, within)) in
      let top = highest_from d.high (map (λ x. x.high) rest) in
      let bottom = lowest_from d.low (map (λ x. x.low) rest) in
      let (h₁, h₂) = highest_from-≼ d.high (map (λ x. x.high) rest) in
      let (l₁, l₂) = lowest_from-≼ d.low (map (λ x. x.low) rest) in
      let above : All (λ d. d.high ≼ top) subsequent =
        subst (All (λ d. d.high ≼ top)) (sym e)
          (h₁, All-of_map (λ v. v ≼ top) (λ x. x.high) rest h₂) in
      let below : All (λ d. bottom ≼ d.low) subsequent =
        subst (All (λ d. bottom ≼ d.low)) (sym e)
          (l₁, All-of_map (λ v. bottom ≼ v) (λ x. x.low) rest l₂) in
      (
        record {
          index = index - size;
          high = x.high;
          low = x.low;
          next_leg = if dec_ltb top x.high then 0 else if dec_ltb x.low bottom then 1 else leg;
        },
        ap (λ r. candidate_of r subsequent (index - size) leg)
              (element_found candles (index - size) x found)
            ∙ ap (λ ds. candidate_of (ok x) ds (index - size) leg) e,
        (omega (arith, late), (x, found, refl, refl), turn_of leg x top bottom _ above below refl),
      )

module _ (candles : List DerivedCandle) where
  -- The close before that of a bar
  abbrev pub IsBefore : ℕ → DerivedCandle → Decimal → Type 0
  IsBefore zero c previous = previous ≡ c.closing
  IsBefore (suc i) c previous =
      (d : DerivedCandle) × (get_elem? candles i ≡ some d) × (previous ≡ d.closing)

  pub close_before_total :
      (j : ℕ) (c : DerivedCandle)
      → j < length candles
      → (p : Decimal) × (close_before candles j c.closing ≡ ok p) × IsBefore j c p
  close_before_total zero c within = (c.closing, refl, refl)
  close_before_total (suc i) c within =
      let (d, found) = get_elem?_below candles i (omega (arith, within)) in
      (
        d.closing,
        ap (λ r. r >>= λ c. ok c.closing) (element_found candles i d found),
        (d, found, refl),
      )

-- ===== src/Indicators/Lookahead.antt =====
-- The average true range does not look ahead.
use smc_ict_engine.Prelude.{
  ℕ, zero, suc, ◌+◌, ◌-◌, ◌≤◌, ◌≡◌, ◌∙◌, refl, sym, ap, true, false, ltb, Option, none, some, List,
  [], ◌∷◌, ◌++◌, length, take, drop, length-append, append-nil, ok, ok_inj, bind-eq-ok, Bool-cases,
  inl, inr, arith,
}
use smc_ict_engine.Decimal.{Decimal, whole, divide, dec_sum, ◌⊕◌, ◌⊗◌}
use smc_ict_engine.Resampling.{DerivedCandle}
use smc_ict_engine.Indicators.Averages.{
  true_range, true_ranges_from, true_ranges, missing, wilder_from, wilder_averages, wilder_atr,
}

-- The close before the candles that follow.
abbrev last_close : Option Decimal → List DerivedCandle → Option Decimal
last_close previous [] = previous
last_close previous (c ∷ cs) = last_close (some c.closing) cs

true_ranges_from-append :
    (previous : Option Decimal) (xs ys : List DerivedCandle)
    → true_ranges_from previous (xs ++ ys)
      ≡ true_ranges_from previous xs ++ true_ranges_from (last_close previous xs) ys
unfolding true_ranges_from
true_ranges_from-append previous [] ys = refl
true_ranges_from-append previous (c ∷ cs) ys =
    ap (λ rs. true_range previous c ∷ rs) (true_ranges_from-append (some c.closing) cs ys)

pub length-true_ranges_from :
    (previous : Option Decimal) (xs : List DerivedCandle)
    → length (true_ranges_from previous xs) ≡ length xs
unfolding true_ranges_from
length-true_ranges_from previous [] = refl
length-true_ranges_from previous (c ∷ cs) = ap suc (length-true_ranges_from (some c.closing) cs)

module _ {A : Type 0} where
  take_within : (n : ℕ) (xs ys : List A) → n ≤ length xs → take n (xs ++ ys) ≡ take n xs
  take_within zero xs ys h = refl
  take_within (suc n) [] ys h = absurd (omega (arith, h))
  take_within (suc n) (x ∷ xs) ys h = ap (λ r. x ∷ r) (take_within n xs ys (omega (arith, h)))

  pub drop_within : (n : ℕ) (xs ys : List A) → n ≤ length xs → drop n (xs ++ ys) ≡ drop n xs ++ ys
  drop_within zero xs ys h = refl
  drop_within (suc n) [] ys h = absurd (omega (arith, h))
  drop_within (suc n) (x ∷ xs) ys h = drop_within n xs ys (omega (arith, h))

  pub length-drop : (n : ℕ) (xs : List A) → n ≤ length xs → length xs ≡ n + length (drop n xs)
  length-drop zero xs h = omega arith
  length-drop (suc n) [] h = absurd (omega (arith, h))
  length-drop (suc n) (x ∷ xs) h = omega (arith, length-drop n xs (omega (arith, h)))

take-missing :
    (n m : ℕ) (rest : List (Option Decimal)) → n ≤ m → take n (missing m ++ rest) ≡ missing n
take-missing zero m rest h = refl
take-missing (suc n) zero rest h = absurd (omega (arith, h))
take-missing (suc n) (suc m) rest h = ap (λ r. none ∷ r) (take-missing n m rest (omega (arith, h)))

take-missing_past :
    (k m n : ℕ) (rest : List (Option Decimal))
    → k ≡ m + n
    → take k (missing m ++ rest) ≡ missing m ++ take n rest
take-missing_past k zero n rest h = ap (λ j. take j rest) (omega (arith, h))
take-missing_past zero (suc m) n rest h = absurd (omega (arith, h))
take-missing_past (suc k) (suc m) n rest h =
    ap (λ r. none ∷ r) (take-missing_past k m n rest (omega (arith, h)))

wilder_from_prefix :
    (n : ℕ) (current : Decimal) (xs ys : List Decimal) (r : List (Option Decimal))
    → wilder_from n current (xs ++ ys) ≡ ok r
    → wilder_from n current xs ≡ ok (take (length xs) r)
unfolding wilder_from
wilder_from_prefix n current [] ys r h = refl
wilder_from_prefix n current (x ∷ xs) ys r h =
    let (next, divided, h₁) = bind-eq-ok (divide (current ⊗ whole (n - 1) ⊕ x) (whole n)) _ h in
    let (rest, followed, h₂) = bind-eq-ok (wilder_from n next (xs ++ ys)) _ h₁ in
    rw (divided, wilder_from_prefix n next xs ys rest followed)
      (ap (λ r. ok (take (suc (length xs)) r)) (ok_inj h₂))

below_pred : (a n : ℕ) → ltb a n ≡ true → a ≤ n - 1
below_pred a n h = ground arith

pub not_below : (a n : ℕ) → ltb a n ≡ false → n ≤ a
not_below a n h = ground arith

not_below_more : (a n b : ℕ) → ltb a n ≡ false → a ≤ b → ltb b n ≡ false
not_below_more a n b h le = ground arith

-- The averages over the first ranges are those over all of them.
wilder_averages_prefix :
    (n : ℕ) (xs ys : List Decimal) (r : List (Option Decimal))
    → 1 ≤ n
    → wilder_averages n (xs ++ ys) ≡ ok r
    → wilder_averages n xs ≡ ok (take (length xs) r)
unfolding wilder_averages
wilder_averages_prefix n xs ys r positive h = elim (Bool-cases (ltb (length xs) n)) [
  | inl short ↦ elim (Bool-cases (ltb (length (xs ++ ys)) n)) [
    | inl all_short ↦ rw short (
        ap ok (
          sym (take-missing (length xs) (length (xs ++ ys)) [] (omega (arith, length-append xs ys)))
          ∙ ap (take (length xs))
              (append-nil (missing (length (xs ++ ys))) ∙ ok_inj (rw all_short at h))))
    | inr long ↦
        let (first, divided, h₁) =
          bind-eq-ok (divide (dec_sum (whole 0) (take n (xs ++ ys))) (whole n)) _ (rw long at h) in
        let (rest, followed, h₂) = bind-eq-ok (wilder_from n first (drop n (xs ++ ys))) _ h₁ in
        rw short (
          ap ok (
            sym (
              take-missing (length xs) (n - 1) (some first ∷ rest) (below_pred (length xs) n short))
            ∙ ap (take (length xs)) (ok_inj h₂)))
  ]
  | inr long ↦
      let within : n ≤ length xs = not_below (length xs) n long in
      let long_all : ltb (length (xs ++ ys)) n ≡ false =
        not_below_more (length xs) n (length (xs ++ ys)) long
          (omega (arith, length-append xs ys)) in
      let (first, divided, h₁) =
        bind-eq-ok (divide (dec_sum (whole 0) (take n (xs ++ ys))) (whole n)) _
          (rw long_all at h) in
      let (rest, followed, h₂) = bind-eq-ok (wilder_from n first (drop n (xs ++ ys))) _ h₁ in
      rw
        (
          long,
          ap (λ rs. divide (dec_sum (whole 0) rs) (whole n)) (sym (take_within n xs ys within))
              ∙ divided,
          wilder_from_prefix n first (drop n xs) ys rest
              (ap (wilder_from n first) (sym (drop_within n xs ys within)) ∙ followed),
        )
        (ap ok (
          sym (
            take-missing_past (length xs) (n - 1) (suc (length (drop n xs))) (some first ∷ rest)
              (omega (arith, length-drop n xs within)))
          ∙ ap (take (length xs)) (ok_inj h₂)))
]

-- The average true range at a candle depends on no later candle: over the first candles of a series
-- it is the beginning of that over the whole series. The length is at least 1.
pub wilder_atr_prefix :
    (n : ℕ) (xs ys : List DerivedCandle) (r : List (Option Decimal))
    → 1 ≤ n
    → wilder_atr (xs ++ ys) n ≡ ok r
    → wilder_atr xs n ≡ ok (take (length xs) r)
unfolding wilder_atr true_ranges
wilder_atr_prefix n xs ys r positive h =
    wilder_averages_prefix n (true_ranges_from none xs) (true_ranges_from (last_close none xs) ys) r
      positive (ap (wilder_averages n) (sym (true_ranges_from-append none xs ys)) ∙ h)
    ∙ ap (λ k. ok (take k r)) (length-true_ranges_from none xs)

-- ===== src/Indicators/Defined.antt =====
-- The averages are defined: over a positive length, one for each candle.
use smc_ict_engine.Prelude.{
  ℕ, zero, suc, ◌+◌, ◌-◌, ◌*◌, ◌^◌, ◌≤◌, ◌==◌, ◌≡◌, ◌∙◌, refl, ap, ltb, List, [], ◌∷◌, ◌++◌, length,
  take, drop, length-append, Result, ok, err, division_by_zero, if◌then◌else◌, Bool, true, false,
  Bool-cases, inl, inr, none, some, Option, arith,
}
use smc_ict_engine.Decimal.{Decimal, whole, divide, quotient, dec_sum, ◌⊕◌, ◌⊗◌}
use smc_ict_engine.Decimal.Int.{pos, magnitude, is_negative, ◌*ℤ◌}
use smc_ict_engine.Resampling.{DerivedCandle}
use smc_ict_engine.Indicators.Averages.{
  true_ranges_from, true_ranges, missing, wilder_from, wilder_averages, wilder_atr,
}
use smc_ict_engine.Indicators.Lookahead.{length-true_ranges_from, length-drop, not_below}

-- A division whose test for zero fails gives its quotient.
pub passes :
    (test : Bool) (q : Decimal)
    → test ≡ false
    → (p : Decimal) × ((if test then err division_by_zero else ok q) ≡ ok p)
passes true q h = cc
passes false q h = (q, refl)

nonzero : (n : ℕ) → 1 ≤ n → (n + 0 == 0) ≡ false
nonzero n h = ground arith

pub divide-whole : (a : Decimal) (n : ℕ) → 1 ≤ n → (q : Decimal) × (divide a (whole n) ≡ ok q)
unfolding divide
divide-whole a n h =
    passes (n + 0 == 0)
      (quotient (is_negative (a.mantissa *ℤ pos n)) (magnitude a.mantissa * 10 ^ 0)
        ((n + 0) * 10 ^ a.scale))
      (nonzero n h)

abbrev Defined : ℕ → Result (List (Option Decimal)) → Type 0
Defined n r = (values : List (Option Decimal)) × (r ≡ ok values) × (length values ≡ n)

wilder_from-Defined :
    (n : ℕ) (current : Decimal) (ranges : List Decimal)
    → 1 ≤ n
    → Defined (length ranges) (wilder_from n current ranges)
unfolding wilder_from
wilder_from-Defined n current [] h = ([], refl, refl)
wilder_from-Defined n current (r ∷ rs) h =
    let (next, divided) = divide-whole (current ⊗ whole (n - 1) ⊕ r) n h in
    let (rest, followed, len) = wilder_from-Defined n next rs h in
    (some next ∷ rest, rw (divided, followed) refl, ap suc len)

length-missing : (n : ℕ) → length (missing n) ≡ n
length-missing zero = refl
length-missing (suc n) = ap suc (length-missing n)

wilder_averages-Defined :
    (n : ℕ) (ranges : List Decimal) → 1 ≤ n → Defined (length ranges) (wilder_averages n ranges)
unfolding wilder_averages
wilder_averages-Defined n ranges h = elim (Bool-cases (ltb (length ranges) n)) [
  | inl short ↦ (missing (length ranges), rw short refl, length-missing (length ranges))
  | inr long ↦
      let (first, divided) = divide-whole (dec_sum (whole 0) (take n ranges)) n h in
      let (rest, followed, len) = wilder_from-Defined n first (drop n ranges) h in
      (
        missing (n - 1) ++ some first ∷ rest,
        rw (long, divided, followed) refl,
        omega (
          arith,
          h,
          len,
          length-missing (n - 1),
          length-append (missing (n - 1)) (some first ∷ rest),
          length-drop n ranges (not_below (length ranges) n long),
        ),
      )
]

pub wilder_atr-Defined :
    (candles : List DerivedCandle) (n : ℕ)
    → 1 ≤ n
    → (averages : List (Option Decimal)) × (wilder_atr candles n ≡ ok averages)
      × (length averages ≡ length candles)
unfolding wilder_atr true_ranges
wilder_atr-Defined candles n h =
    let (averages, e, len) = wilder_averages-Defined n (true_ranges_from none candles) h in
    (averages, e, len ∙ length-true_ranges_from none candles)

-- ===== src/Indicators/Averages.antt =====
-- indicators/base.py: the true ranges and the averages over closed candles.
use smc_ict_engine.Prelude.{
  ℕ, zero, suc, ◌+◌, ◌-◌, leb, ltb, Option, none, some, List, [], ◌∷◌, ◌++◌, length, take, drop,
  if◌then◌else◌, Result, ok, ◌>>=◌,
}
use smc_ict_engine.Decimal.{Decimal, dec_max, absolute, whole, divide, dec_sum, ◌⊕◌, ◌⊖◌, ◌⊗◌}
use smc_ict_engine.Resampling.{DerivedCandle}

-- `max(value, abs(high - previous), abs(low - previous))`
unfoldable pub true_range : Option Decimal → DerivedCandle → Decimal
unfolding ◌⊖◌ absolute dec_max
true_range none c = c.high ⊖ c.low
true_range (some previous) c =
    dec_max (dec_max (c.high ⊖ c.low) (absolute (c.high ⊖ previous))) (absolute (c.low ⊖ previous))

unfoldable pub true_ranges_from : Option Decimal → List DerivedCandle → List Decimal
unfolding true_range
true_ranges_from previous [] = []
true_ranges_from previous (c ∷ cs) = true_range previous c ∷ true_ranges_from (some c.closing) cs

-- `true_ranges`
unfoldable pub true_ranges : List DerivedCandle → List Decimal
unfolding true_ranges_from
true_ranges = true_ranges_from none

-- `[None] * n`
abbrev pub missing : ℕ → List (Option Decimal)
missing zero = []
missing (suc n) = none ∷ missing n

-- The loop of `wilder_atr`, on `current`
unfoldable pub wilder_from : (length : ℕ) → Decimal → List Decimal → Result (List (Option Decimal))
unfolding ◌⊗◌ ◌⊕◌ divide
wilder_from n current [] = ok []
wilder_from n current (r ∷ rs) = do
  next ← divide (current ⊗ whole (n - 1) ⊕ r) (whole n)
  rest ← wilder_from n next rs
  ok (some next ∷ rest)

-- `wilder_atr`, over the true ranges
unfoldable pub wilder_averages : (length : ℕ) → List Decimal → Result (List (Option Decimal))
unfolding wilder_from dec_sum divide
wilder_averages n ranges = if ltb (length ranges) n then ok (missing (length ranges)) else (do
  first ← divide (dec_sum (whole 0) (take n ranges)) (whole n)
  rest ← wilder_from n first (drop n ranges)
  ok (missing (n - 1) ++ some first ∷ rest))

-- `wilder_atr`
unfoldable pub wilder_atr : List DerivedCandle → (length : ℕ) → Result (List (Option Decimal))
unfolding wilder_averages true_ranges
wilder_atr candles n = wilder_averages n (true_ranges candles)

-- `values[index]`, where the index is within the values
abbrev pub value_at : ℕ → List Decimal → Decimal
value_at n [] = whole 0
value_at zero (v ∷ vs) = v
value_at (suc n) (v ∷ vs) = value_at n vs

-- The loop of `simple_moving_average`, from an index on
unfoldable pub moving_from :
    (length : ℕ)
    → List Decimal
    → (running : Decimal) → (index : ℕ) → List Decimal
    → Result (List (Option Decimal))
unfolding ◌⊕◌ ◌⊖◌ divide
moving_from n values running index [] = ok []
moving_from n values running index (v ∷ vs) =
    let grown = running ⊕ v in
    let kept = if leb n index then grown ⊖ value_at (index - n) values else grown in
    let later = moving_from n values kept (suc index) vs in
    if leb n (index + 1)
    then (do average ← divide kept (whole n); rest ← later; ok (some average ∷ rest))
    else (do rest ← later; ok (none ∷ rest))

-- `simple_moving_average`
unfoldable pub simple_moving_average : List Decimal → (length : ℕ) → Result (List (Option Decimal))
unfolding moving_from
simple_moving_average values n = moving_from n values (whole 0) 0 values

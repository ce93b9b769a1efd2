-- ===== src/Indicators/Smc/Blocks.antt =====
-- indicators/smc.py: `_parsed_extremes` and `_active_order_blocks`.
use smc_ict_engine.Prelude.{
  ℕ, zero, suc, ◌+◌, Bool, not, leb, ◌==◌, Option, none, some, List, [], ◌∷◌, ◌++◌, keep, take,
  if◌then◌else◌, Result, ok, ◌>>=◌,
}
use smc_ict_engine.Decimal.{Decimal, whole, dec_leb, dec_ltb, dec_sum, divide, ◌⊖◌, ◌⊗◌}
use smc_ict_engine.Resampling.{DerivedCandle}
use smc_ict_engine.Indicators.Averages.{true_range, wilder_atr}
use smc_ict_engine.Indicators.Loop.{element, slice, enumerate_from}
use smc_ict_engine.Indicators.Smc.Legs.{
  Candidate, candidate_at, Pivot, close_before, crosses_up, crosses_down, crossed,
}
use smc_ict_engine.Indicators.Smc.Swing.{Direction, bullish, bearish, pivot_of}

-- `volatility_filter` and `mitigation_source`
pub data VolatilityFilter : Type 0 where
  by_atr by_cumulative_range : VolatilityFilter

pub data MitigationSource : Type 0 where
  by_close by_high_low : MitigationSource

-- The parsed high and low of a candle
pub record Extremes : Type 0 where
  pub upper : Decimal
  pub lower : Decimal

-- `sum(true_range_values, Decimal(0)) / Decimal(index)`, from the second candle on
abbrev pub cumulative_range : ℕ → List Decimal → Result (Option Decimal)
cumulative_range zero ranges = ok none
cumulative_range (suc index) ranges =
    divide (dec_sum (whole 0) ranges) (whole (suc index)) >>= λ m. ok (some m)

abbrev pub range_measure :
    VolatilityFilter
    → (averages : List (Option Decimal)) → ℕ
    → (ranges : List Decimal) → Result (Option Decimal)
range_measure by_atr averages index ranges = element averages index
range_measure by_cumulative_range averages index ranges = cumulative_range index ranges

-- A volatile candle has its extremes swapped.
unfoldable pub parsed : DerivedCandle → Option Decimal → Extremes
unfolding dec_leb ◌⊖◌ ◌⊗◌
parsed c none = record { upper = c.high; lower = c.low }
parsed c (some measure) =
    if dec_leb (whole 2 ⊗ measure) (c.high ⊖ c.low)
    then record { upper = c.low; lower = c.high }
    else record { upper = c.high; lower = c.low }

-- The variables of `_parsed_extremes`
pub record Parsing : Type 0 where
  pub ranges : List Decimal
  pub previous_close : Option Decimal
  pub result : List Extremes

unfoldable pub parse_step :
    VolatilityFilter
    → (averages : List (Option Decimal)) → ℕ
    → DerivedCandle
    → Parsing
    → Result Parsing
unfolding true_range dec_sum divide parsed
parse_step filter averages index c s = do
  let ranges = s.ranges ++ true_range s.previous_close c ∷ []
  measure ← range_measure filter averages index ranges
  ok (record {
    ranges = ranges;
    previous_close = some c.closing;
    result = s.result ++ parsed c measure ∷ [];
  })

-- `_parsed_extremes`
unfoldable pub parsed_extremes : List DerivedCandle → VolatilityFilter → Result (List Extremes)
unfolding wilder_atr parse_step enumerate_from
parsed_extremes candles filter = do
  averages ← wilder_atr candles 200
  s ←
      enumerate_from (parse_step filter averages) 0 candles
        (record { ranges = []; previous_close = none; result = [] })
  ok s.result

-- `_OrderBlock`
pub record OrderBlock : Type 0 where
  pub upper : Decimal
  pub lower : Decimal
  pub direction : Direction
  pub break_index : ℕ
  pub source_index : ℕ

-- `min(range(len(candidates)), key=...)`, and `max(...)`: the first candidate that no other is better
-- than, as its offset and its extremes
unfoldable pub best_offset :
    (better : Extremes → Extremes → Bool)
    → (best : ℕ) → Extremes
    → (offset : ℕ) → List Extremes
    → ℕ × Extremes
best_offset better best e offset [] = (best, e)
best_offset better best e offset (x ∷ xs) =
    best_offset better (if better x e then offset else best) (if better x e then x else e)
      (suc offset) xs

-- A lower low for a bullish block, a higher high for a bearish one
unfoldable pub is_better : Direction → Extremes → Extremes → Bool
unfolding dec_ltb
is_better bullish x e = dec_ltb x.lower e.lower
is_better bearish x e = dec_ltb e.upper x.upper

abbrev pub block_of : Direction → (index first : ℕ) → ℕ × Extremes → OrderBlock
block_of direction index first (offset, e) = record {
  upper = e.upper;
  lower = e.lower;
  direction = direction;
  break_index = index;
  source_index = first + offset;
}

-- The block of a crossed pivot, over the candidates from the pivot to the crossing
unfoldable pub new_block :
    Direction → (index first : ℕ) → (candidates : List Extremes) → List OrderBlock
unfolding best_offset is_better
new_block direction index first [] = []
new_block direction index first (e ∷ es) =
    block_of direction index first (best_offset (is_better direction) 0 e 1 es) ∷ []

-- The variables of `_active_order_blocks`
pub record Blocks : Type 0 where
  pub leg : ℕ
  pub high : Option Pivot
  pub low : Option Pivot
  pub active : List OrderBlock

abbrev pub no_blocks : Blocks
no_blocks = record { leg = 0; high = none; low = none; active = [] }

abbrev pub turn_leg : Candidate → Blocks → Blocks
turn_leg c s =
    if c.next_leg == s.leg
    then s
    else if c.next_leg == 1
    then record s { leg = c.next_leg; low = some (pivot_of c.index c.low) }
    else record s { leg = c.next_leg; high = some (pivot_of c.index c.high) }

unfoldable pub confirm_leg : List DerivedCandle → (size index : ℕ) → Blocks → Result Blocks
unfolding candidate_at
confirm_leg candles size index s =
    if leb size index
    then (candidate_at candles size index s.leg >>= λ c. ok (turn_leg c s))
    else ok s

abbrev pub block_above :
    List Extremes → (index : ℕ) → (previous close : Decimal) → Option Pivot → Blocks → Blocks
block_above extremes index previous close none s = s
block_above extremes index previous close (some p) s =
    if crosses_up previous close p
    then record s {
      high = some (crossed p);
      active = new_block bullish index p.index (slice p.index index extremes) ++ s.active;
    }
    else s

abbrev pub block_below :
    List Extremes → (index : ℕ) → (previous close : Decimal) → Option Pivot → Blocks → Blocks
block_below extremes index previous close none s = s
block_below extremes index previous close (some p) s =
    if crosses_down previous close p
    then record s {
      low = some (crossed p);
      active = new_block bearish index p.index (slice p.index index extremes) ++ s.active;
    }
    else s

unfoldable pub add_blocks :
    List Extremes → (index : ℕ) → (previous close : Decimal) → Blocks → Blocks
unfolding dec_leb dec_ltb new_block
add_blocks extremes index previous close s =
    let t = block_above extremes index previous close s.high s in
    block_below extremes index previous close t.low t

-- A close, or an extreme, beyond the block
unfoldable pub is_mitigated : MitigationSource → DerivedCandle → OrderBlock → Bool
unfolding dec_ltb
is_mitigated source c b = elim b.direction [
  | bearish ↦ dec_ltb b.upper (elim source [ by_close ↦ c.closing | by_high_low ↦ c.high ])
  | bullish ↦ dec_ltb (elim source [ by_close ↦ c.closing | by_high_low ↦ c.low ]) b.lower
]

abbrev pub unmitigated : MitigationSource → (maximum : ℕ) → DerivedCandle → Blocks → Blocks
unmitigated source maximum c s = record s {
  active = take maximum (keep (λ b. not (is_mitigated source c b)) s.active);
}

-- The body of the loop
unfoldable pub block_step :
    List DerivedCandle
    → List Extremes
    → (size : ℕ) → MitigationSource
    → (maximum : ℕ) → ℕ
    → DerivedCandle
    → Blocks
    → Result Blocks
unfolding confirm_leg add_blocks is_mitigated
block_step candles extremes size source maximum index c s = do
  t ← confirm_leg candles size index s
  previous ← close_before candles index c.closing
  ok (unmitigated source maximum c (add_blocks extremes index previous c.closing t))

-- `_active_order_blocks`
unfoldable pub active_order_blocks :
    List DerivedCandle
    → (size : ℕ) → VolatilityFilter
    → MitigationSource
    → (maximum : ℕ) → Result (List OrderBlock)
unfolding parsed_extremes block_step enumerate_from
active_order_blocks candles size filter source maximum = do
  extremes ← parsed_extremes candles filter
  s ← enumerate_from (block_step candles extremes size source maximum) 0 candles no_blocks
  ok s.active

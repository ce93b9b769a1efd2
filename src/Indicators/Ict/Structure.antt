-- ===== src/Indicators/Ict/Structure.antt =====
-- indicators/ict.py: `_selected_structure_points` and `_market_events`.
use smc_ict_engine.Prelude.{
  ℕ, ◌-◌, Bool, true, false, not, ◌&&◌, Option, none, some, List, [], ◌∷◌, ◌++◌, if◌then◌else◌,
  Result, ok, ◌>>=◌,
}
use smc_ict_engine.Decimal.{Decimal, dec_ltb, dec_eqb}
use smc_ict_engine.Resampling.{DerivedCandle}
use smc_ict_engine.Indicators.Loop.{element, enumerate_from}
use smc_ict_engine.Indicators.Smc.Swing.{
  PivotKind, high_pivot, low_pivot, Direction, bullish, bearish, Trend, no_trend, upward, downward,
}
use smc_ict_engine.Indicators.Ict.Zigzag.{
  ZigzagPoint, pivot_candidates, directions_at, update_zigzag, point_at,
}

-- `MSS` or `BOS`
pub data BreakType : Type 0 where
  structure_shift structure_break : BreakType

-- `_MarketEvent`
pub record MarketEvent : Type 0 where
  pub event_type : BreakType
  pub direction : Direction
  pub level : Decimal
  pub index : ℕ

abbrev pub high_or_none : ZigzagPoint → Option ZigzagPoint
high_or_none p = elim p.direction [ high_pivot ↦ some p | low_pivot ↦ none ]

abbrev pub low_or_none : ZigzagPoint → Option ZigzagPoint
low_or_none p = elim p.direction [ high_pivot ↦ none | low_pivot ↦ some p ]

-- `_selected_structure_points`, which leaves the newest point out
unfoldable pub selected_points : List ZigzagPoint → Option ZigzagPoint × Option ZigzagPoint
selected_points [] = (none, none)
selected_points (a ∷ []) = (none, none)
selected_points (a ∷ b ∷ []) = (none, none)
selected_points (a ∷ b ∷ c ∷ rest) = elim c.direction [
  | high_pivot ↦ (high_or_none c, low_or_none b)
  | low_pivot ↦ (high_or_none b, low_or_none c)
]

-- The variables of `_market_events`. The four levels are those of `latest_mss` and `latest_bos`.
pub record Market : Type 0 where
  pub points : List ZigzagPoint
  pub trend : Trend
  pub shift_up : Option Decimal
  pub shift_down : Option Decimal
  pub break_up : Option Decimal
  pub break_down : Option Decimal
  pub events : List MarketEvent

abbrev pub no_market : Market
no_market = record {
  points = [];
  trend = no_trend;
  shift_up = none;
  shift_down = none;
  break_up = none;
  break_down = none;
  events = [];
}

abbrev pub moved : Option (List ZigzagPoint) → Market → Market
moved none s = s
moved (some points) s = record s { points = points }

-- The loop over the directions of a bar
unfoldable pub move_points :
    List DerivedCandle → (index : ℕ) → List PivotKind → Market → Result Market
unfolding update_zigzag
move_points candles index [] s = ok s
move_points candles index (d ∷ ds) s = element candles (index - 1) >>= λ c.
    move_points candles index ds (moved (update_zigzag s.points (point_at index d c)) s)

abbrev pub is_upward : Trend → Bool
is_upward upward = true
is_upward _ = false

abbrev pub is_downward : Trend → Bool
is_downward downward = true
is_downward _ = false

-- `close > high.level`, of a point that is there
abbrev pub closes_above : Decimal → Option ZigzagPoint → Bool
closes_above close none = false
closes_above close (some p) = dec_ltb p.level close

abbrev pub closes_below : Decimal → Option ZigzagPoint → Bool
closes_below close none = false
closes_below close (some p) = dec_ltb close p.level

-- `level != latest.get(direction)`
abbrev pub is_new : Option ZigzagPoint → Option Decimal → Bool
is_new none latest = true
is_new (some p) none = true
is_new (some p) (some level) = not (dec_eqb p.level level)

abbrev pub break_of : BreakType → Direction → (index : ℕ) → Option ZigzagPoint → List MarketEvent
break_of kind d index none = []
break_of kind d index (some p) =
    record { event_type = kind; direction = d; level = p.level; index = index } ∷ []

abbrev pub level_of : Option ZigzagPoint → Option Decimal → Option Decimal
level_of none old = old
level_of (some p) old = some p.level

-- The tests on the close. A break needs its point, so there is one to name in each event.
unfoldable pub break_structure :
    (index : ℕ) → (close : Decimal) → (high low : Option ZigzagPoint) → Market → Market
unfolding dec_ltb dec_eqb
break_structure index close high low s =
    if closes_above close high && not (is_upward s.trend)
    then record s {
      trend = upward;
      shift_up = level_of high s.shift_up;
      events = s.events ++ break_of structure_shift bullish index high;
    }
    else if closes_below close low && not (is_downward s.trend)
    then record s {
      trend = downward;
      shift_down = level_of low s.shift_down;
      events = s.events ++ break_of structure_shift bearish index low;
    }
    else if is_upward s.trend
        && closes_above close high
        && is_new high s.shift_up
        && is_new high s.break_up
    then record s {
      break_up = level_of high s.break_up;
      events = s.events ++ break_of structure_break bullish index high;
    }
    else if is_downward s.trend
        && closes_below close low
        && is_new low s.shift_down
        && is_new low s.break_down
    then record s {
      break_down = level_of low s.break_down;
      events = s.events ++ break_of structure_break bearish index low;
    }
    else s

-- The body of the loop over the candles
unfoldable pub market_step :
    List DerivedCandle → (found : List (ℕ × PivotKind)) → ℕ → DerivedCandle → Market → Result Market
unfolding move_points selected_points break_structure
market_step candles found index c s = do
  t ← move_points candles index (directions_at index found) s
  let (high, low) = selected_points t.points
  ok (break_structure index c.closing high low t)

-- `_market_events`
unfoldable pub market_events : List DerivedCandle → (left : ℕ) → Result (List MarketEvent)
unfolding pivot_candidates market_step enumerate_from
market_events candles left = do
  found ← pivot_candidates candles left
  s ← enumerate_from (market_step candles found) 0 candles no_market
  ok s.events

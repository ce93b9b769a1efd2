-- ===== src/Indicators/Smc/Swing.antt =====
-- indicators/smc.py: `_swing_events`.
use smc_ict_engine.Prelude.{
  ℕ, Bool, leb, ◌==◌, Option, none, some, List, [], ◌∷◌, ◌++◌, if◌then◌else◌, Result, ok, ◌>>=◌,
}
use smc_ict_engine.Decimal.{Decimal, dec_leb, dec_ltb}
use smc_ict_engine.Resampling.{DerivedCandle}
use smc_ict_engine.Indicators.Loop.{enumerate_from}
use smc_ict_engine.Indicators.Smc.Legs.{
  Candidate, candidate_at, Pivot, close_before, crosses_up, crosses_down, crossed,
}

-- `event_type`, `direction`, `state` and `pivot_kind`
pub data EventType : Type 0 where
  lower_low higher_low higher_high lower_high break_of_structure change_of_character : EventType

pub data Direction : Type 0 where
  bullish bearish : Direction

pub data EventState : Type 0 where
  confirmed_pivot broken : EventState

pub data PivotKind : Type 0 where
  high_pivot low_pivot : PivotKind

-- `_StructureEvent`
pub record StructureEvent : Type 0 where
  pub event_type : EventType
  pub direction : Direction
  pub level : Decimal
  pub event_index : ℕ
  pub known_index : ℕ
  pub state : EventState
  pub pivot_kind : PivotKind

-- The trend: 0, 1 or -1
pub data Trend : Type 0 where
  no_trend upward downward : Trend

-- The variables of `_swing_events`
pub record Swings : Type 0 where
  pub leg : ℕ
  pub trend : Trend
  pub high : Option Pivot
  pub low : Option Pivot
  pub previous_high : Option Decimal
  pub previous_low : Option Decimal
  pub events : List StructureEvent

abbrev pub no_swings : Swings
no_swings = record {
  leg = 0;
  trend = no_trend;
  high = none;
  low = none;
  previous_high = none;
  previous_low = none;
  events = [];
}

abbrev pub low_class : Option Decimal → Decimal → EventType
low_class none low = higher_low
low_class (some previous) low = if dec_ltb low previous then lower_low else higher_low

abbrev pub high_class : Option Decimal → Decimal → EventType
high_class none high = lower_high
high_class (some previous) high = if dec_ltb previous high then higher_high else lower_high

abbrev pub pivot_of : ℕ → Decimal → Pivot
pivot_of index level = record { level = level; index = index; crossed = Bool.false }

-- A low is confirmed: the leg turns up.
abbrev pub confirm_low : ℕ → Candidate → Swings → Swings
confirm_low index c s = record s {
  leg = c.next_leg;
  low = some (pivot_of c.index c.low);
  previous_low = some c.low;
  events =
      s.events
      ++ record {
        event_type = low_class s.previous_low c.low;
        direction = bullish;
        level = c.low;
        event_index = c.index;
        known_index = index;
        state = confirmed_pivot;
        pivot_kind = low_pivot;
      }
        ∷ [];
}

abbrev pub confirm_high : ℕ → Candidate → Swings → Swings
confirm_high index c s = record s {
  leg = c.next_leg;
  high = some (pivot_of c.index c.high);
  previous_high = some c.high;
  events =
      s.events
      ++ record {
        event_type = high_class s.previous_high c.high;
        direction = bearish;
        level = c.high;
        event_index = c.index;
        known_index = index;
        state = confirmed_pivot;
        pivot_kind = high_pivot;
      }
        ∷ [];
}

abbrev pub turned : ℕ → Swings → Candidate → Swings
turned index s c =
    if c.next_leg == s.leg
    then s
    else if c.next_leg == 1
    then confirm_low index c s
    else confirm_high index c s

-- `if index >= size:` and what it guards
unfoldable pub confirm : List DerivedCandle → (size index : ℕ) → Swings → Result Swings
unfolding candidate_at
confirm candles size index s =
    if leb size index
    then (candidate_at candles size index s.leg >>= λ c. ok (turned index s c))
    else ok s

abbrev pub up_tag : Trend → EventType
up_tag downward = change_of_character
up_tag no_trend = break_of_structure
up_tag upward = break_of_structure

abbrev pub down_tag : Trend → EventType
down_tag upward = change_of_character
down_tag no_trend = break_of_structure
down_tag downward = break_of_structure

abbrev pub broken_up : ℕ → Pivot → Swings → Swings
broken_up index p s = record s {
  high = some (crossed p);
  trend = upward;
  events =
      s.events
      ++ record {
        event_type = up_tag s.trend;
        direction = bullish;
        level = p.level;
        event_index = index;
        known_index = index;
        state = broken;
        pivot_kind = high_pivot;
      }
        ∷ [];
}

abbrev pub broken_down : ℕ → Pivot → Swings → Swings
broken_down index p s = record s {
  low = some (crossed p);
  trend = downward;
  events =
      s.events
      ++ record {
        event_type = down_tag s.trend;
        direction = bearish;
        level = p.level;
        event_index = index;
        known_index = index;
        state = broken;
        pivot_kind = low_pivot;
      }
        ∷ [];
}

-- The two tests on the close
abbrev pub break_high : (index : ℕ) → (previous close : Decimal) → Option Pivot → Swings → Swings
break_high index previous close none s = s
break_high index previous close (some p) s =
    if crosses_up previous close p then broken_up index p s else s

abbrev pub break_low : (index : ℕ) → (previous close : Decimal) → Option Pivot → Swings → Swings
break_low index previous close none s = s
break_low index previous close (some p) s =
    if crosses_down previous close p then broken_down index p s else s

unfoldable pub break_pivots : (index : ℕ) → (previous close : Decimal) → Swings → Swings
unfolding dec_leb dec_ltb
break_pivots index previous close s =
    let t = break_high index previous close s.high s in break_low index previous close t.low t

-- The body of the loop
unfoldable pub swing_step :
    List DerivedCandle → (size : ℕ) → (index : ℕ) → DerivedCandle → Swings → Result Swings
unfolding confirm break_pivots
swing_step candles size index c s = do
  t ← confirm candles size index s
  previous ← close_before candles index c.closing
  ok (break_pivots index previous c.closing t)

-- `_swing_events`
unfoldable pub swing_events : List DerivedCandle → (size : ℕ) → Result (List StructureEvent)
unfolding swing_step enumerate_from
swing_events candles size = do
  s ← enumerate_from (swing_step candles size) 0 candles no_swings
  ok s.events

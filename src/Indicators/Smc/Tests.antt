-- ===== src/Indicators/Smc/Tests.antt =====
-- Swings and order blocks over a few bars, and the theorems at them.
use smc_ict_engine.Prelude.{
  ℕ, ◌+◌, ◌*◌, ◌≡◌, ◌≤◌, refl, none, List, [], ◌∷◌, ◌++◌, arith, All, length, Result, ok, map,
}
use smc_ict_engine.Decimal.{whole, dec_ltb}
use smc_ict_engine.Domain.{Timeframe}
use smc_ict_engine.Resampling.{DerivedCandle}
use smc_ict_engine.Indicators.Smc.Swing.{
  StructureEvent, EventType, lower_low, higher_low, higher_high, lower_high, break_of_structure,
  change_of_character, swing_events,
}
use smc_ict_engine.Indicators.Smc.Blocks.{
  by_close, by_atr, OrderBlock, Extremes, active_order_blocks, parsed_extremes,
}
use smc_ict_engine.Indicators.Smc.Equal.{EqualEvent, equal_events}
use smc_ict_engine.Indicators.Smc.Confirmed.{IsSound, swing_events-IsSound}
use smc_ict_engine.Indicators.Smc.Causal.{swing_events_prefix}
use smc_ict_engine.Indicators.Smc.EqualLevels.{equal_events_prefix}
use smc_ict_engine.Indicators.Smc.Active.{IsActive, active_order_blocks-IsActive}

abbrev bar : (index high low closing : ℕ) → DerivedCandle
bar n high low closing = record {
  instrument_id = "BTC-USDT-PERP";
  interval = Timeframe.h4;
  open_time_ms = n * 14_400_000;
  close_time_ms = n * 14_400_000 + 14_399_999;
  opening = whole low;
  high = whole high;
  low = whole low;
  closing = whole closing;
  base_volume = whole 1;
  quote_volume = none;
}

abbrev first_bars : List DerivedCandle
first_bars =
    bar 0 10 5 7 ∷ bar 1 14 8 11 ∷ bar 2 9 6 8 ∷ bar 3 8 3 4 ∷ bar 4 11 5 10 ∷ bar 5 13 9 12 ∷ []

abbrev later_bars : List DerivedCandle
later_bars = bar 6 16 10 15 ∷ bar 7 15 4 4 ∷ bar 8 5 1 2 ∷ []

abbrev types_of : Result (List StructureEvent) → Result (List EventType)
types_of (ok events) = ok (map (λ e. e.event_type) events)
types_of (Result.err x) = Result.err x

sample_swings : Result (List StructureEvent)
unfolding swing_events dec_ltb
sample_swings = swing_events (first_bars ++ later_bars) 1

-- The low is broken before the lower one is known, and the change of character follows it.
sample_types :
    types_of sample_swings
    ≡ ok (
        higher_low ∷ lower_high ∷ break_of_structure ∷ lower_low ∷ change_of_character ∷ higher_high
        ∷ change_of_character ∷ [])
unfolding sample_swings
sample_types = refl

abbrev returned : {A : Type 0} → Result (List A) → List A
returned (ok values) = values
returned (Result.err x) = []

sample_returned : swing_events (first_bars ++ later_bars) 1 ≡ ok (returned sample_swings)
unfolding sample_swings
sample_returned = refl

swing_events_prefix_example :
    (first : List StructureEvent) × (later : List StructureEvent) × (swing_events first_bars 1
      ≡ ok first)
    × (returned sample_swings ≡ first ++ later)
swing_events_prefix_example =
    swing_events_prefix first_bars later_bars 1 (returned sample_swings) sample_returned

swing_events-IsSound_example :
    (events : List StructureEvent) × (swing_events first_bars 2 ≡ ok events)
    × All (IsSound first_bars 2) events
swing_events-IsSound_example = swing_events-IsSound first_bars 2 (omega arith)

sample_levels : Result (List EqualEvent)
unfolding equal_events dec_ltb
sample_levels = equal_events (first_bars ++ later_bars) 1 (whole 0)

sample_leveled : equal_events (first_bars ++ later_bars) 1 (whole 0) ≡ ok (returned sample_levels)
unfolding sample_levels
sample_leveled = refl

equal_events_prefix_example :
    (first : List EqualEvent) × (later : List EqualEvent) × (equal_events first_bars 1 (whole 0)
      ≡ ok first)
    × (returned sample_levels ≡ first ++ later)
equal_events_prefix_example =
    equal_events_prefix first_bars later_bars 1 (whole 0) (returned sample_levels) sample_leveled

active_order_blocks-IsActive_example :
    (blocks : List OrderBlock) × (extremes : List Extremes) × (active_order_blocks first_bars 1
        by_atr by_close 2
      ≡ ok blocks)
    × (parsed_extremes first_bars by_atr ≡ ok extremes)
    × (length extremes ≡ length first_bars)
    × (length blocks ≤ 2)
    × All (IsActive first_bars extremes by_close (length first_bars) (length first_bars)) blocks
active_order_blocks-IsActive_example =
    active_order_blocks-IsActive first_bars 1 by_atr by_close 2 (omega arith)

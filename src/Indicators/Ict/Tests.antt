-- ===== src/Indicators/Ict/Tests.antt =====
-- Gaps and breaks over a few bars, and the theorems at them.
use smc_ict_engine.Prelude.{
  ℕ, ◌+◌, ◌-◌, ◌*◌, ◌≡◌, refl, none, true, false, List, [], ◌∷◌, arith, All, length, Result, ok,
  map,
}
use smc_ict_engine.Decimal.{whole, dec_ltb}
use smc_ict_engine.Domain.{Timeframe}
use smc_ict_engine.Resampling.{DerivedCandle}
use smc_ict_engine.Indicators.Smc.Swing.{Direction, bullish, bearish, no_trend}
use smc_ict_engine.Indicators.Ict.Liquidity.{ZoneState, active, partial}
use smc_ict_engine.Indicators.Ict.Structure.{
  BreakType, structure_shift, structure_break, MarketEvent, market_events,
}
use smc_ict_engine.Indicators.Ict.Runs.{IsBreak, IsRun}
use smc_ict_engine.Indicators.Ict.Breaks.{market_events-IsRun}
use smc_ict_engine.Indicators.Ict.Gaps.{Gap, active_gaps}
use smc_ict_engine.Indicators.Ict.KnownGaps.{IsOpen}
use smc_ict_engine.Indicators.Ict.OpenGaps.{active_gaps-IsOpen}

abbrev bar : (index opening high low closing : ℕ) → DerivedCandle
bar n opening high low closing = record {
  instrument_id = "BTC-USDT-PERP";
  interval = Timeframe.m15;
  open_time_ms = n * 900_000;
  close_time_ms = n * 900_000 + 899_999;
  opening = whole opening;
  high = whole high;
  low = whole low;
  closing = whole closing;
  base_volume = whole 1;
  quote_volume = none;
}

-- A gap up that a later bar fills, a gap up that a later bar enters, and a gap down that moves on
abbrev bars : List DerivedCandle
bars =
    bar 0 10 12 9 11
    ∷ bar 1 11 20 11 20
    ∷ bar 2 20 22 15 21
    ∷ bar 3 21 23 10 22
    ∷ bar 4 23 40 22 40
    ∷ bar 5 40 50 35 45
    ∷ bar 6 45 46 30 31
    ∷ bar 7 31 32 28 28
    ∷ bar 8 28 29 27 28
    ∷ []

abbrev gaps_of : Result (List Gap) → Result (List (Direction × ℕ × ZoneState))
gaps_of (ok gaps) = ok (map (λ g. (g.direction, g.event_index, g.state)) gaps)
gaps_of (Result.err x) = Result.err x

found_gaps :
    gaps_of (active_gaps bars 2 false) ≡ ok ((bearish, 8, active) ∷ (bullish, 5, partial) ∷ [])
unfolding active_gaps dec_ltb
found_gaps = refl

active_gaps-IsOpen_example :
    (gaps : List Gap) × (active_gaps bars 2 true ≡ ok gaps) × All (IsOpen bars (length bars)) gaps
active_gaps-IsOpen_example = active_gaps-IsOpen bars 2 true (omega arith)

abbrev flat_bar : (index middle : ℕ) → DerivedCandle
flat_bar n middle = bar n middle (middle + 1) (middle - 1) middle

-- A rise through two highs, and a fall
abbrev wave : List DerivedCandle
wave =
    flat_bar 0 10
    ∷ flat_bar 1 14
    ∷ flat_bar 2 11
    ∷ flat_bar 3 16
    ∷ flat_bar 4 12
    ∷ flat_bar 5 18
    ∷ flat_bar 6 15
    ∷ flat_bar 7 22
    ∷ flat_bar 8 17
    ∷ flat_bar 9 14
    ∷ flat_bar 10 9
    ∷ []

abbrev breaks_of : Result (List MarketEvent) → Result (List (BreakType × Direction × ℕ))
breaks_of (ok events) = ok (map (λ e. (e.event_type, e.direction, e.index)) events)
breaks_of (Result.err x) = Result.err x

found_breaks :
    breaks_of (market_events wave 1)
    ≡ ok (
        (structure_shift, bullish, 5)
        ∷ (structure_break, bullish, 7)
        ∷ (structure_shift, bearish, 10)
        ∷ [])
unfolding market_events dec_ltb
found_breaks = refl

market_events-IsRun_example :
    (events : List MarketEvent) × (market_events wave 1 ≡ ok events)
    × IsRun no_trend events
    × All (IsBreak wave) events
market_events-IsRun_example = market_events-IsRun wave 1 (omega arith)

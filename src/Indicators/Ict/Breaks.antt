-- ===== src/Indicators/Ict/Breaks.antt =====
-- What the events of the market structure are.
use smc_ict_engine.Prelude.{
  ℕ, ◌≤◌, ◌≡◌, ◌∙◌, refl, sym, ap, subst, List, All, get_elem?, Result, ok, ◌>>=◌, some,
}
use smc_ict_engine.Resampling.{DerivedCandle}
use smc_ict_engine.Indicators.Loop.{enumerate_from, enumerate_total}
use smc_ict_engine.Indicators.Smc.Extremes.{lt_of_get_elem?}
use smc_ict_engine.Indicators.Smc.Swing.{PivotKind, no_trend}
use smc_ict_engine.Indicators.Ict.Zigzag.{directions_at}
use smc_ict_engine.Indicators.Ict.Structure.{
  MarketEvent, Market, no_market, selected_points, break_structure, market_step, market_events,
}
use smc_ict_engine.Indicators.Ict.Runs.{IsRun, IsBreak, IsHeld, break_structure-IsHeld}
use smc_ict_engine.Indicators.Ict.Pivots.{move_points_total, pivot_candidates_total}

module _ (candles : List DerivedCandle) where
  market_step_total :
      (found : List (ℕ × PivotKind)) (j : ℕ) (c : DerivedCandle) (s : Market)
      → get_elem? candles j ≡ some c
      → IsHeld candles s.trend s.events
      → (t : Market) × (market_step candles found j c s ≡ ok t) × IsHeld candles t.trend t.events
  unfolding market_step
  market_step_total found j c s here h =
      let (t, ran, same_events, same_trend) =
        move_points_total candles j (directions_at j found) s (lt_of_get_elem? candles j c here) in
      let high = (selected_points t.points).0 in
      let low = (selected_points t.points).1 in
      (
        break_structure j c.closing high low t,
        ap {B = Result Market}
            (λ r. r >>= λ (t : Market). ok (
              break_structure j c.closing (selected_points t.points).0 (selected_points t.points).1
                t))
            ran,
        break_structure-IsHeld candles j c high low t here (
            subst (λ e. IsHeld candles t.trend e) (sym same_events)
              (subst (λ x. IsHeld candles x s.events) (sym same_trend) h)),
      )

  module _ (left : ℕ) (positive : 1 ≤ left) where
    -- The detection of structure breaks returns, and its events are a run: the first is a shift (MSS);
    -- after it, an event in the direction of the one before it is a break (BOS), and an event in the
    -- other direction is a shift. The close of the candle of each event lies beyond its level: above
    -- it for a bullish event, below it for a bearish one. The width of a pivot is at least 1.
    pub market_events-IsRun :
        (events : List MarketEvent) × (market_events candles left ≡ ok events)
        × IsRun no_trend events
        × All (IsBreak candles) events
    unfolding market_events
    market_events-IsRun =
        let (found, pivots) = pivot_candidates_total candles left positive in
        let (t, ran, (run, _, breaks)) =
          enumerate_total candles (market_step candles found)
            (λ j s. IsHeld candles s.trend s.events)
            (λ j c s here h. market_step_total found j c s here h) no_market (tt, refl, tt) in
        (
          t.events,
          ap
                (λ r. r >>= λ found.
                  enumerate_from (market_step candles found) 0 candles no_market >>= λ s.
                  ok s.events)
                pivots
              ∙ ap (λ r. r >>= λ s. ok s.events) ran,
          run,
          breaks,
        )

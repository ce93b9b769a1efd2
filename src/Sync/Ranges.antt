-- ===== src/Sync/Ranges.antt =====
-- `_missing_ranges` of both synchronization services.
use smc_ict_engine.Prelude.{
  ℕ, zero, suc, ◌+◌, ◌-◌, ◌/◌, Bool, true, false, Option, none, some, List, [], ◌∷◌, ◌++◌, ltb,
  ◌==◌, if◌then◌else◌, any, map,
}
use smc_ict_engine.Domain.{ClosedCandle, minute_ms}

-- `range(start, end + 1, 60_000)`
abbrev pub minutes_from : ℕ → ℕ → List ℕ
minutes_from zero start = []
minutes_from (suc count) start = start ∷ minutes_from count (start + minute_ms)

unfoldable pub minute_count : ℕ → ℕ → ℕ
minute_count start end = if ltb end start then 0 else (end - start) / minute_ms + 1

unfoldable pub minute_range : ℕ → ℕ → List ℕ
unfolding minute_count
minute_range start end = minutes_from (minute_count start end) start

-- `open_time in present`
abbrev pub is_present : List ℕ → ℕ → Bool
is_present present t = any (λ u. u == t) present

abbrev pub TimeRange : Type 0
TimeRange = ℕ × ℕ

-- The body of the loop, on `missing_start` and `ranges`. Its two tests are in the order of the code:
-- the first is made with the `missing_start` of before, the second with that of after.
unfoldable pub visit_minute : Bool → ℕ → Option ℕ → List TimeRange → Option ℕ × List TimeRange
visit_minute true t none ranges = (none, ranges)
visit_minute true t (some first) ranges = (none, ranges ++ (first, t - minute_ms) ∷ [])
visit_minute false t none ranges = (some t, ranges)
visit_minute false t (some first) ranges = (some first, ranges)

unfoldable pub scan_minutes :
    List ℕ → List ℕ → Option ℕ → List TimeRange → Option ℕ × List TimeRange
unfolding visit_minute
scan_minutes present [] missing ranges = (missing, ranges)
scan_minutes present (t ∷ ts) missing ranges =
    let (missing', ranges') = visit_minute (is_present present t) t missing ranges in
    scan_minutes present ts missing' ranges'

-- What follows the loop.
unfoldable pub close_range : ℕ → Option ℕ × List TimeRange → List TimeRange
close_range end (none, ranges) = ranges
close_range end (some first, ranges) = ranges ++ (first, end) ∷ []

-- `MarketSyncService._missing_ranges`
unfoldable pub missing_ranges : ℕ → ℕ → List ℕ → List TimeRange
unfolding scan_minutes close_range minute_range
missing_ranges start end present =
    close_range end (scan_minutes present (minute_range start end) none [])

-- `HistoricalRangeSyncService._missing_ranges` has the same loop over the candles' opening times.
unfoldable pub historical_missing_ranges : List ClosedCandle → ℕ → ℕ → List TimeRange
unfolding missing_ranges
historical_missing_ranges candles start end =
    missing_ranges start end (map (λ c. c.open_time_ms) candles)

-- ===== src/Replay/Ranges.antt =====
-- application/backtesting.py: the required range, the checks on loaded candles, and the candles that
-- an evaluation may see.
use smc_ict_engine.Prelude.{
  ℕ, suc, ◌+◌, ◌-◌, ◌*◌, ◌/◌, Bool, true, not, ◌&&◌, String, List, [], ◌∷◌, ltb, leb, ◌==◌, str_eq,
  if◌then◌else◌, length, take, drop, map, Result, ok, value_error, ◌>>◌, raise_if,
}
use smc_ict_engine.Domain.{ClosedCandle, minute_ms}
use smc_ict_engine.Resampling.{DerivedCandle}

pub record BacktestPeriod : Type 0 where
  pub start_ms : ℕ
  pub end_ms : ℕ

pub record RequiredRange : Type 0 where
  pub start_open_ms : ℕ
  pub end_open_ms : ℕ

-- `RequiredRangeResolver.resolve`
unfoldable pub resolve : BacktestPeriod → ℕ → Result RequiredRange
resolve period history_minutes = do
  raise_if (ltb history_minutes 1) value_error
  raise_if (ltb period.start_ms (history_minutes * minute_ms)) value_error
  ok (record {
    start_open_ms = period.start_ms - history_minutes * minute_ms;
    end_open_ms = period.end_ms;
  })

-- The candle at an index of the range.
abbrev pub is_expected : (provider market instrument : String) → ℕ → ClosedCandle → Bool
is_expected provider market instrument t c =
    str_eq c.provider_id provider
    && str_eq c.market_type market
    && str_eq c.instrument_id instrument
    && c.open_time_ms == t

abbrev pub are_expected : (provider market instrument : String) → ℕ → List ClosedCandle → Bool
are_expected provider market instrument t [] = true
are_expected provider market instrument t (c ∷ cs) =
    is_expected provider market instrument t c
    && are_expected provider market instrument (t + minute_ms) cs

-- `(end - start) // 60_000 + 1`, which is 0 or less if the end is more than a minute before the
-- start: no list has that length but the empty one at 0.
unfoldable pub has_expected_count : RequiredRange → List ClosedCandle → Bool
has_expected_count r candles =
    if leb r.start_open_ms r.end_open_ms
    then length candles == (r.end_open_ms - r.start_open_ms) / minute_ms + 1
    else leb r.start_open_ms (r.end_open_ms + minute_ms) && length candles == 0

-- `_validate_candles`
unfoldable pub validate_candles :
    (provider market instrument : String) → RequiredRange → List ClosedCandle → Result (Unit {0})
unfolding has_expected_count
validate_candles provider market instrument r candles = do
  raise_if (not (has_expected_count r candles)) value_error
  raise_if (not (are_expected provider market instrument r.start_open_ms candles)) value_error
  ok tt

-- `bisect_right`, on a list in order
unfoldable pub bisect_right : List ℕ → ℕ → ℕ
bisect_right [] x = 0
bisect_right (t ∷ ts) x = let rest = suc (bisect_right ts x) in if leb t x then rest else 0

-- The first index after the earliest close. A negative earliest close is before every candle.
unfoldable pub first_index : List ℕ → (evaluation_time_ms history_minutes : ℕ) → ℕ
unfolding bisect_right
first_index closes time history =
    if ltb time (history * minute_ms) then 0 else bisect_right closes (time - history * minute_ms)

abbrev pub close_times : List DerivedCandle → List ℕ
close_times = map (λ c. c.close_time_ms)

-- `candles[start:end]`
unfoldable pub prefix :
    List DerivedCandle → (evaluation_time_ms history_minutes : ℕ) → List DerivedCandle
unfolding first_index
prefix candles time history =
    let start = first_index (close_times candles) time history in
    let end = bisect_right (close_times candles) time in drop start (take end candles)

-- `_prefixes`
abbrev pub prefixes :
    List (String × List DerivedCandle)
    → (evaluation_time_ms history_minutes : ℕ) → List (String × List DerivedCandle)
prefixes roles time history = map (λ e. (e.0, prefix e.1 time history)) roles

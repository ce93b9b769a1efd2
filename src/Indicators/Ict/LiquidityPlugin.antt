-- ===== src/Indicators/Ict/LiquidityPlugin.antt =====
-- indicators/ict.py: `ClusteredLiquidityPlugin`.
use smc_ict_engine.Prelude.{
  ℕ, ◌+◌, max, not, ltb, any, Option, none, some, is_some, String, List, [], ◌∷◌, ◌++◌, length, map,
  if◌then◌else◌, Result, ok, value_error, ◌>>=◌, ◌>>◌, raise_if,
}
use smc_ict_engine.Decimal.{Decimal, dec_eqb}
use smc_ict_engine.Decimal.Int.{pos}
use smc_ict_engine.Domain.{Observation, ObservationStatus, Evidence, same_keys, decimal_text}
use smc_ict_engine.Resampling.{DerivedCandle}
use smc_ict_engine.Graph.{RunContext, Observations}
use smc_ict_engine.Indicators.Base.{
  configured_timeframe, closed_candles, DependencyProblem, dependency_problem, Report, plain_report,
  problem_report, observation,
}
use smc_ict_engine.Indicators.Loop.{element}
use smc_ict_engine.Indicators.Smc.EqualPlugin.{text_parameter}
use smc_ict_engine.Indicators.Ict.Zigzag.{bounded_int}
use smc_ict_engine.Indicators.Ict.Liquidity.{
  Side, buyside, sellside, ZoneState, active, partial, full, is_full, LiquidityZone, first_of,
  other_side, level_of, liquidity_zones,
}

-- `ClusteredLiquidityPlugin`
pub record ClusteredLiquidity : Type 0 where
  pub left : ℕ
  pub minimum : ℕ
  pub fraction : Decimal

-- `Decimal(value) / Decimal(10)`, for a value from 2 to 7
abbrev pub tenths : List Decimal
tenths = map (λ n. record { mantissa = pos n; scale = 1 }) (2 ∷ 3 ∷ 4 ∷ 5 ∷ 6 ∷ 7 ∷ [])

-- `Decimal(text)`, which raises if the text is not a number
module _ (parse_decimal : String → Result Decimal) where
  unfoldable pub create : List (String × Evidence) → Result ClusteredLiquidity
  unfolding bounded_int same_keys dec_eqb
  create parameters = do
    raise_if
        (not (
          same_keys (map (λ p. p.0) parameters)
            ("pivot_width" ∷ "minimum_pivots" ∷ "margin_atr_fraction" ∷ [])))
        value_error
    left ← bounded_int parameters "pivot_width" 3 (some 10)
    minimum ← bounded_int parameters "minimum_pivots" 3 none
    text ← text_parameter parameters "margin_atr_fraction"
    fraction ← parse_decimal text
    raise_if (not (any (dec_eqb fraction) tenths)) value_error
    ok (record { left = left; minimum = minimum; fraction = fraction })

abbrev pub side_text : Side → String
side_text buyside = "BUYSIDE"
side_text sellside = "SELLSIDE"

abbrev pub traversal_direction : Side → String
traversal_direction buyside = "SHORT"
traversal_direction sellside = "LONG"

abbrev pub zone_state_text : ZoneState → String
zone_state_text active = "ACTIVE"
zone_state_text partial = "PARTIAL"
zone_state_text full = "FULL"

abbrev pub optional_text : String → Option Decimal → List (String × Evidence)
optional_text key none = []
optional_text key (some d) = (key, Evidence.text (decimal_text d)) ∷ []

-- The frozen level, or that of the opposing zone while the zone is not full
abbrev pub shown_level : LiquidityZone → Option LiquidityZone → Option Decimal
shown_level z opposing =
    if is_some z.opposing_level
    then z.opposing_level
    else if is_full z.state
    then none
    else level_of opposing

abbrev pub zone_report :
    LiquidityZone
    → (zones : List LiquidityZone) → (event_candle known_candle : DerivedCandle) → Report
zone_report z zones event_candle known_candle =
    record (plain_report ObservationStatus.pass
      "latest same-side pivot cluster has deterministic traversal state"
      (zone_state_text z.state)) {
        event_type = some "CLUSTERED_LIQUIDITY";
        direction = some (traversal_direction z.side);
        event_time_ms = some event_candle.close_time_ms;
        known_time_ms = some known_candle.close_time_ms;
        level = some z.level;
        lower = some z.lower;
        upper = some z.upper;
        payload =
            ("cluster_count", Evidence.number (length zones))
            ∷ ("liquidity_side", Evidence.text (side_text z.side))
            ∷ (optional_text "swept_extreme_text" z.swept_extreme
                ++ optional_text "opposing_level_text"
                    (shown_level z (first_of (other_side z.side) zones)));
      }

-- The report on the first zone
abbrev pub zone_found : List DerivedCandle → List LiquidityZone → Result Report
zone_found candles [] =
    ok
      (record (plain_report ObservationStatus.fail
        "fewer than the configured same-side pivots are strictly clustered" "NO_CLUSTER") {
          payload = ("cluster_count", Evidence.number 0) ∷ [];
        })
zone_found candles (z ∷ zs) = do
  event_candle ← element candles z.event_index
  known_candle ← element candles z.known_index
  ok (zone_report z (z ∷ zs) event_candle known_candle)

unfoldable pub liquidity_report :
    ClusteredLiquidity → Option DependencyProblem → List DerivedCandle → Result Report
unfolding liquidity_zones decimal_text
liquidity_report plugin (some problem) candles = ok (problem_report problem)
liquidity_report plugin none candles =
    if ltb (length candles) (max 10 (plugin.left + 2))
    then ok (
        plain_report ObservationStatus.unavailable
          "insufficient bars for ATR(10) and one-right-bar pivots" "UNAVAILABLE")
    else (liquidity_zones candles plugin.left plugin.minimum plugin.fraction >>= zone_found candles)

-- `evaluate`. The digest of the parameters is given.
unfoldable pub evaluate :
    (parameter_hash : String) → ClusteredLiquidity → RunContext → Observations → Result Observation
unfolding configured_timeframe dependency_problem closed_candles liquidity_report observation
evaluate parameter_hash plugin context dependencies = do
  t ← configured_timeframe context "execution"
  problem ← dependency_problem dependencies ("smc.equal_high_low" ∷ []) context
  candles ← closed_candles context "execution" t
  r ← liquidity_report plugin problem candles
  observation context "ict.clustered_liquidity" parameter_hash t ("smc.equal_high_low" ∷ [])
      ("ict_luxalgo@1" ∷ []) r

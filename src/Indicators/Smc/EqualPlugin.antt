-- ===== src/Indicators/Smc/EqualPlugin.antt =====
-- indicators/smc.py: `EqualHighLowPlugin`.
use smc_ict_engine.Prelude.{
  ℕ, ◌+◌, max, not, ◌&&◌, ltb, Option, none, some, String, List, [], ◌∷◌, length, last, map, lookup,
  if◌then◌else◌, Result, ok, err, value_error, type_error, ◌>>=◌, ◌>>◌, raise_if,
}
use smc_ict_engine.Decimal.{Decimal, whole, dec_leb}
use smc_ict_engine.Decimal.Int.{pos}
use smc_ict_engine.Domain.{
  Timeframe, Observation, ObservationStatus, Evidence, same_keys, decimal_text,
}
use smc_ict_engine.Resampling.{DerivedCandle}
use smc_ict_engine.Graph.{RunContext, Observations}
use smc_ict_engine.Indicators.Base.{
  closed_candles, DependencyProblem, dependency_problem, Report, plain_report, problem_report,
  observation,
}
use smc_ict_engine.Indicators.Loop.{element}
use smc_ict_engine.Indicators.Smc.Legs.{exact_int}
use smc_ict_engine.Indicators.Smc.Equal.{
  EqualKind, equal_lows, equal_highs, EqualEvent, equal_events,
}

-- `EqualHighLowPlugin`
pub record EqualHighLow : Type 0 where
  pub confirmation : ℕ
  pub threshold : Decimal

-- `Decimal("0.5")`
abbrev pub half : Decimal
half = record { mantissa = pos 5; scale = 1 }

abbrev pub text_parameter : List (String × Evidence) → String → Result String
text_parameter parameters name = elim (lookup name parameters) [
  | some (Evidence.text s) ↦ ok s
  | _ ↦ err type_error
]

abbrev pub kind_text : EqualKind → String
kind_text equal_lows = "EQL"
kind_text equal_highs = "EQH"

abbrev pub kind_direction : EqualKind → String
kind_direction equal_lows = "BULLISH"
kind_direction equal_highs = "BEARISH"

-- `Decimal(text)`, which raises if the text is not a number
module _ (parse_decimal : String → Result Decimal) where
  unfoldable pub create : List (String × Evidence) → Result EqualHighLow
  unfolding exact_int same_keys dec_leb
  create parameters = do
    confirmation ← exact_int parameters "confirmation_bars" 1
    text ← text_parameter parameters "threshold_atr_fraction"
    threshold ← parse_decimal text
    raise_if (not (dec_leb (whole 0) threshold && dec_leb threshold half)) value_error
    raise_if
        (not (
          same_keys (map (λ p. p.0) parameters)
            ("confirmation_bars" ∷ "threshold_atr_fraction" ∷ [])))
        value_error
    ok (record { confirmation = confirmation; threshold = threshold })

abbrev pub equal_report :
    EqualHighLow → EqualEvent → (event_candle known_candle : DerivedCandle) → Report
equal_report plugin e event_candle known_candle =
    record (plain_report ObservationStatus.pass
      "confirmed equal high or low satisfies the strict source ATR threshold"
      "CONFIRMED_EQUAL_LEVEL") {
        event_type = some (kind_text e.kind);
        direction = some (kind_direction e.kind);
        event_time_ms = some event_candle.close_time_ms;
        known_time_ms = some known_candle.close_time_ms;
        level = some e.level;
        payload =
            ("confirmation_bars", Evidence.number plugin.confirmation)
            ∷ ("previous_level_text", Evidence.text (decimal_text e.previous_level))
            ∷ ("threshold_atr_fraction", Evidence.text (decimal_text plugin.threshold))
            ∷ [];
      }

abbrev pub equal_found : EqualHighLow → List DerivedCandle → List EqualEvent → Result Report
equal_found plugin candles [] =
    ok
      (record (plain_report ObservationStatus.fail
        "no latest confirmed pivot pair is strictly within the ATR threshold" "NO_EQUAL_LEVEL") {
          payload = ("confirmation_bars", Evidence.number plugin.confirmation) ∷ [];
        })
equal_found plugin candles (first ∷ rest) = do
  let e = last first rest
  event_candle ← element candles e.event_index
  known_candle ← element candles e.known_index
  ok (equal_report plugin e event_candle known_candle)

unfoldable pub equal_levels_report :
    EqualHighLow → Option DependencyProblem → List DerivedCandle → Result Report
unfolding equal_events decimal_text
equal_levels_report plugin (some problem) candles = ok (problem_report problem)
equal_levels_report plugin none candles =
    if ltb (length candles) (max 200 (plugin.confirmation + 1))
    then ok (
        plain_report ObservationStatus.unavailable
          "insufficient bars for ATR(200) and pivot confirmation" "UNAVAILABLE")
    else equal_events candles plugin.confirmation plugin.threshold >>= equal_found plugin candles

-- `evaluate`. The digest of the parameters is given.
unfoldable pub evaluate :
    (parameter_hash : String) → EqualHighLow → RunContext → Observations → Result Observation
unfolding dependency_problem closed_candles equal_levels_report observation
evaluate parameter_hash plugin context dependencies = do
  problem ← dependency_problem dependencies ("smc.swing_structure" ∷ []) context
  candles ← closed_candles context "context" Timeframe.h1
  r ← equal_levels_report plugin problem candles
  observation context "smc.equal_high_low" parameter_hash Timeframe.h1 ("smc.swing_structure" ∷ [])
      ("smc_luxalgo@7" ∷ []) r

-- ===== src/Indicators/Smc/BlockPlugin.antt =====
-- indicators/smc.py: `OrderBlockPlugin`.
use smc_ict_engine.Prelude.{
  ℕ, ◌+◌, max, not, ltb, Option, none, some, String, List, [], ◌∷◌, length, map, lookup, str_eq,
  if◌then◌else◌, Result, ok, err, value_error, ◌>>=◌, ◌>>◌, raise_if,
}
use smc_ict_engine.Domain.{Timeframe, Observation, ObservationStatus, Evidence, same_keys}
use smc_ict_engine.Resampling.{DerivedCandle}
use smc_ict_engine.Graph.{RunContext, Observations}
use smc_ict_engine.Indicators.Base.{
  closed_candles, DependencyProblem, dependency_problem, Report, plain_report, problem_report,
  observation,
}
use smc_ict_engine.Indicators.Loop.{element}
use smc_ict_engine.Indicators.Smc.Legs.{exact_int}
use smc_ict_engine.Indicators.Smc.SwingPlugin.{direction_text}
use smc_ict_engine.Indicators.Smc.Blocks.{
  VolatilityFilter, by_atr, by_cumulative_range, MitigationSource, by_close, by_high_low,
  OrderBlock, active_order_blocks,
}

-- `scope`
pub data Scope : Type 0 where
  swing internal : Scope

-- `OrderBlockPlugin`
pub record OrderBlocks : Type 0 where
  pub scope : Scope
  pub filter : VolatilityFilter
  pub mitigation : MitigationSource
  pub maximum : ℕ

abbrev pub one_of : {A : Type 0} → (name : String) → A → (other : String) → A → String → Result A
one_of name a other b text =
    if str_eq text name then ok a else if str_eq text other then ok b else err value_error

-- A parameter that is not a text is refused as an unknown one.
abbrev pub text_of : Option Evidence → Result String
text_of (some (Evidence.text s)) = ok s
text_of _ = err value_error

unfoldable pub create : List (String × Evidence) → Result OrderBlocks
unfolding exact_int same_keys
create parameters = do
  raise_if
      (not (
        same_keys (map (λ p. p.0) parameters)
          ("scope" ∷ "volatility_filter" ∷ "mitigation_source" ∷ "maximum_blocks" ∷ [])))
      value_error
  scope_text ← text_of (lookup "scope" parameters)
  scope ← one_of "swing" swing "internal" internal scope_text
  filter_text ← text_of (lookup "volatility_filter" parameters)
  filter ← one_of "atr" by_atr "cumulative_range" by_cumulative_range filter_text
  mitigation_text ← text_of (lookup "mitigation_source" parameters)
  mitigation ← one_of "close" by_close "high_low" by_high_low mitigation_text
  maximum ← exact_int parameters "maximum_blocks" 1
  ok (record { scope = scope; filter = filter; mitigation = mitigation; maximum = maximum })

abbrev pub scope_size : Scope → ℕ
scope_size swing = 50
scope_size internal = 5

abbrev pub scope_name : Scope → String
scope_name swing = "swing"
scope_name internal = "internal"

abbrev pub block_report :
    OrderBlocks → OrderBlock → (count : ℕ) → (break_candle source_candle : DerivedCandle) → Report
block_report plugin b count break_candle source_candle =
    record (plain_report ObservationStatus.pass
      "latest bounded source-selected order block remains unmitigated" "ACTIVE") {
        event_type = some "ORDER_BLOCK";
        direction = some (direction_text b.direction);
        event_time_ms = some break_candle.close_time_ms;
        known_time_ms = some break_candle.close_time_ms;
        lower = some b.lower;
        upper = some b.upper;
        payload =
            ("active_block_count", Evidence.number count)
            ∷ ("source_candle_time_ms", Evidence.number source_candle.close_time_ms)
            ∷ ("scope", Evidence.text (scope_name plugin.scope))
            ∷ [];
      }

-- The report on the first block
abbrev pub block_found : OrderBlocks → List DerivedCandle → List OrderBlock → Result Report
block_found plugin candles [] =
    ok
      (record (plain_report ObservationStatus.fail
        "no unmitigated source-selected order block is active" "NO_ACTIVE_BLOCK") {
          payload = ("active_block_count", Evidence.number 0) ∷ [];
        })
block_found plugin candles (b ∷ bs) = do
  break_candle ← element candles b.break_index
  source_candle ← element candles b.source_index
  ok (block_report plugin b (length (b ∷ bs)) break_candle source_candle)

unfoldable pub order_block_report :
    OrderBlocks → Option DependencyProblem → List DerivedCandle → Result Report
unfolding active_order_blocks
order_block_report plugin (some problem) candles = ok (problem_report problem)
order_block_report plugin none candles =
    if ltb (length candles) (max 200 (scope_size plugin.scope + 1))
    then ok (
        plain_report ObservationStatus.unavailable
          "insufficient bars for source volatility and structure warmup" "UNAVAILABLE")
    else (active_order_blocks candles (scope_size plugin.scope) plugin.filter plugin.mitigation
          plugin.maximum
        >>= block_found plugin candles)

-- `evaluate`. The digest of the parameters is given.
unfoldable pub evaluate :
    (parameter_hash : String) → OrderBlocks → RunContext → Observations → Result Observation
unfolding dependency_problem closed_candles order_block_report observation
evaluate parameter_hash plugin context dependencies = do
  problem ← dependency_problem dependencies ("smc.swing_structure" ∷ []) context
  candles ← closed_candles context "context" Timeframe.h1
  r ← order_block_report plugin problem candles
  observation context "smc.order_block" parameter_hash Timeframe.h1 ("smc.swing_structure" ∷ [])
      ("smc_luxalgo@7" ∷ []) r

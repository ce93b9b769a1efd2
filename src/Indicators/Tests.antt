-- ===== src/Indicators/Tests.antt =====
-- Indicators over a few bars, and the theorems at them.
use smc_ict_engine.Prelude.{
  ℕ, ◌+◌, ◌*◌, ◌≡◌, refl, true, none, some, Option, String, List, [], ◌∷◌, ◌++◌, arith, take,
  Result, ok, err, map,
}
use smc_ict_engine.Decimal.{Decimal, whole, dec_ltb}
use smc_ict_engine.Domain.{
  Timeframe, Observation, ObservationStatus, Evidence, decimal_of_text, decimal_text,
  is_instrument_id, is_sha256,
}
use smc_ict_engine.Resampling.{DerivedCandle}
use smc_ict_engine.Graph.{RunContext, Observations}
use smc_ict_engine.Indicators.Averages.{wilder_atr}
use smc_ict_engine.Indicators.Lookahead.{wilder_atr_prefix}
use smc_ict_engine.Indicators.Risk.{evaluate, dependency, is_pass}
use smc_ict_engine.Indicators.Base.{configured_timeframe, closed_candles}
use smc_ict_engine.Indicators.Directional.{IsDirectional, evaluate-IsDirectional}

abbrev bar_at : ℕ → DerivedCandle
bar_at n = record {
  instrument_id = "BTC-USDT-PERP";
  interval = Timeframe.m5;
  open_time_ms = n * 300_000;
  close_time_ms = n * 300_000 + 299_999;
  opening = whole 100;
  high = whole 105;
  low = whole 95;
  closing = whole 100;
  base_volume = whole 1;
  quote_volume = none;
}

abbrev bars : List DerivedCandle
bars = map bar_at (0 ∷ 1 ∷ 2 ∷ 3 ∷ 4 ∷ 5 ∷ 6 ∷ 7 ∷ 8 ∷ 9 ∷ 10 ∷ 11 ∷ 12 ∷ 13 ∷ [])

-- 100.5 and 0.00120, without the last zero
sample_texts :
    (decimal_text (record { mantissa = (whole 1005).mantissa; scale = 1 }) ≡ "100.5")
    × (decimal_text (record { mantissa = (whole 120).mantissa; scale = 5 }) ≡ "0.0012")
    × (decimal_text (whole 0) ≡ "0")
unfolding decimal_text
sample_texts = (refl, refl, refl)

abbrev returned : {A : Type 0} → A → Result A → A
returned a (ok b) = b
returned a (err x) = a

sample_averages : Result (List (Option Decimal))
unfolding wilder_atr dec_ltb
sample_averages = wilder_atr (bar_at 0 ∷ bar_at 1 ∷ bar_at 2 ∷ []) 2

abbrev shown : List (Option Decimal) → List String
shown = map (λ d. elim d [ none ↦ "none" | some x ↦ decimal_text x ])

sample_average : shown (returned [] sample_averages) ≡ "none" ∷ "10" ∷ "10" ∷ []
unfolding sample_averages decimal_text
sample_average = refl

sample_averaged :
    wilder_atr ((bar_at 0 ∷ bar_at 1 ∷ []) ++ bar_at 2 ∷ []) 2 ≡ ok (returned [] sample_averages)
unfolding sample_averages
sample_averaged = refl

wilder_atr_prefix_example :
    wilder_atr (bar_at 0 ∷ bar_at 1 ∷ []) 2 ≡ ok (take 2 (returned [] sample_averages))
wilder_atr_prefix_example =
    wilder_atr_prefix 2 (bar_at 0 ∷ bar_at 1 ∷ []) (bar_at 2 ∷ []) (returned [] sample_averages)
      (omega arith) sample_averaged

abbrev digest : String
digest = "aaaaaaaaaaaaaaaaaaaaaaaaaaaaaaaaaaaaaaaaaaaaaaaaaaaaaaaaaaaaaaaa"

abbrev sweep : Observation
sweep = record {
  signal_id = "ict.clustered_liquidity";
  instrument_id = "BTC-USDT-PERP";
  timeframe = Timeframe.m5;
  status = ObservationStatus.pass;
  event_type = some "SWEEP";
  direction = some "LONG";
  event_time_ms = some 599_999;
  known_time_ms = some 599_999;
  state = "FULL";
  dependency_ids = [];
  parameter_hash = digest;
  source_manifest_ids = [];
  payload_schema_version = 1;
  bounded_reason = "swept";
  payload =
      ("swept_extreme_text", Evidence.text "91")
      ∷ ("opposing_level_text", Evidence.text "130")
      ∷ [];
  level = none;
  lower = none;
  upper = none;
}

abbrev gap : Observation
gap = record sweep {
  signal_id = "ict.fair_value_gap";
  direction = some "BULLISH";
  event_time_ms = some 899_999;
  known_time_ms = some 899_999;
  dependency_ids = "ict.market_structure" ∷ [];
  payload =
      ("market_structure_direction", Evidence.text "BULLISH")
      ∷ ("market_structure_known_time_ms", Evidence.number 899_999)
      ∷ [];
  level = some (whole 100);
  lower = some (whole 99);
  upper = some (whole 101);
}

abbrev sample_context : RunContext
sample_context = record {
  instrument_id = "BTC-USDT-PERP";
  evaluation_time_ms = 4_199_999;
  candles_by_role = ("execution", bars) ∷ [];
  timeframes_by_role = ("execution", Timeframe.m5) ∷ [];
}

abbrev sample_dependencies : Observations
sample_dependencies = ("ict.clustered_liquidity", sweep) ∷ ("ict.fair_value_gap", gap) ∷ []

sample_levels : Result Observation
unfolding evaluate decimal_of_text dec_ltb is_instrument_id is_sha256
sample_levels = evaluate decimal_of_text (whole 2) digest sample_context sample_dependencies

sample_status :
    map (λ e. e.1) (returned gap sample_levels).payload
    ≡ Evidence.text "LONG"
      ∷ Evidence.text "100"
      ∷ Evidence.text "90"
      ∷ Evidence.text "130"
      ∷ Evidence.text "3"
      ∷ []
unfolding sample_levels
sample_status = refl

sample_evaluated :
    evaluate decimal_of_text (whole 2) digest sample_context sample_dependencies
    ≡ ok (returned gap sample_levels)
unfolding sample_levels
sample_evaluated = refl

sample_passes : is_pass (returned gap sample_levels).status ≡ true
unfolding sample_levels
sample_passes = refl

evaluate-IsDirectional_example :
    (t : Timeframe) × (candles : List DerivedCandle) × (l : Observation) × (g : Observation)
    × (configured_timeframe sample_context "execution" ≡ ok t)
    × (closed_candles sample_context "execution" t ≡ ok candles)
    × (dependency "ict.clustered_liquidity" sample_dependencies ≡ ok l)
    × (dependency "ict.fair_value_gap" sample_dependencies ≡ ok g)
    × IsDirectional decimal_of_text
        (whole 2)
        candles
        l
        g
        (returned gap sample_levels).direction
        (returned gap sample_levels).payload
evaluate-IsDirectional_example =
    evaluate-IsDirectional decimal_of_text (whole 2) digest sample_context sample_dependencies
      (returned gap sample_levels) sample_evaluated sample_passes

-- ===== src/Replay/Tests.antt =====
-- A replay over an empty strategy and a short history, and the theorems at small inputs.
use smc_ict_engine.Prelude.{
  ℕ, ◌+◌, ◌≡◌, refl, none, some, String, List, [], ◌∷◌, arith, keep, map, All, Result, ok, err,
  key_error,
}
use smc_ict_engine.Prelude.Sort.{sort, insert_sorted}
use smc_ict_engine.Decimal.{
  whole, dec_ltb, dec_leb, dec_eqb, dec_max, dec_min, dec_sum, ◌⊕◌, round, digit_count, half_even,
}
use smc_ict_engine.Domain.{
  ClosedCandle, SourceValue, Timeframe, Decision, DecisionStatus, duration_minutes, timeframe_eqb,
  is_instrument_id, count_groups, is_identifier_code, checked_decision,
}
use smc_ict_engine.Graph.{ConfiguredNode, Plugin, topological_order, rounds, execute, execute_from}
use smc_ict_engine.Policy.{decide, decide_from, ordered_signals, conclude, stop_at}
use smc_ict_engine.Resampling.{
  DerivedCandle, resample_roles, resample_complete, resample, same_market, fill_buckets, add_row,
  derive_all, is_partial, derive, checked_derived, plain_decimal, has_exponent, sum_decimal,
  sum_quotes,
}
use smc_ict_engine.Replay.Ranges.{
  BacktestPeriod, resolve, validate_candles, has_expected_count, bisect_right, first_index, prefix,
}
use smc_ict_engine.Replay.Trace.{trace, indicator_steps, gate_steps}
use smc_ict_engine.Replay.Run.{
  Strategy, Roles, ReplayResult, load_all, scheduled_times, prepare, configured_nodes, evaluate_at,
  evaluate_each, evaluate_times, replay_over, run,
}
use smc_ict_engine.Replay.Prefixes.{is_visible, prefix_visible}
use smc_ict_engine.Replay.Turns.{turns, turn_of, IsTraced, run-turns}

abbrev bar_at : ℕ → DerivedCandle
bar_at t = record {
  instrument_id = "BTC-USDT-PERP";
  interval = Timeframe.m5;
  open_time_ms = t;
  close_time_ms = t + 299_999;
  opening = whole 100;
  high = whole 110;
  low = whole 90;
  closing = whole 105;
  base_volume = whole 1;
  quote_volume = none;
}

abbrev sample_bars : List DerivedCandle
sample_bars = bar_at 0 ∷ bar_at 300_000 ∷ bar_at 600_000 ∷ bar_at 900_000 ∷ []

-- Seven minutes of history before the end of the third bar.
sample_window : prefix sample_bars 899_999 7 ≡ bar_at 300_000 ∷ bar_at 600_000 ∷ []
unfolding prefix first_index bisect_right
sample_window = refl

prefix_visible_example : prefix sample_bars 899_999 7 ≡ keep (is_visible 899_999 7) sample_bars
prefix_visible_example =
    prefix_visible sample_bars 899_999 7 (omega arith, (omega arith, (omega arith, (tt, tt))))

abbrev minute_at : ℕ → ClosedCandle
minute_at t = record {
  provider_id = "okx_swap";
  market_type = "LINEAR_PERPETUAL";
  instrument_id = "BTC-USDT-PERP";
  provider_symbol = "BTC-USDT-SWAP";
  interval = "1m";
  open_time_ms = t;
  close_time_ms = t + 59_999;
  opening = whole 100;
  high = whole 110;
  low = whole 90;
  closing = whole 105;
  base_volume = whole 1;
  quote_volume = none;
  source_fields = ("contract_volume", SourceValue.amount (whole 1)) ∷ [];
}

-- Six minutes: the first is the history, and the period has one execution bar.
abbrev sample_minutes : List ClosedCandle
sample_minutes = map minute_at (240_000 ∷ 300_000 ∷ 360_000 ∷ 420_000 ∷ 480_000 ∷ 540_000 ∷ [])

abbrev sample_strategy : Strategy
sample_strategy = record {
  instruments = "BTC-USDT-PERP" ∷ [];
  roles = ("execution", Timeframe.m5) ∷ [];
  history_minutes = 1;
  signals = [];
}

abbrev sample_period : BacktestPeriod
sample_period = record { start_ms = 300_000; end_ms = 540_000 }

abbrev sample_source :
    (provider market instrument : String) → (start end : ℕ) → Result (List ClosedCandle)
sample_source provider market instrument start end = ok sample_minutes

abbrev no_plugin : ConfiguredNode → Plugin
no_plugin n = record { role = none; evaluate = λ context given. err key_error }

abbrev no_levels : Decision
no_levels = record {
  instrument_id = "BTC-USDT-PERP";
  status = DecisionStatus.unavailable;
  direction = none;
  entry = none;
  stop = none;
  target = none;
  first_failed_signal = some "decision.levels";
  observation_hashes = [];
}

abbrev sample_result : ReplayResult
sample_result = record {
  evaluations =
      record {
        instrument_id = "BTC-USDT-PERP";
        evaluation_time_ms = 599_999;
        decision = no_levels;
        decision_hash = "d";
        trace = record {
          instrument_id = "BTC-USDT-PERP";
          evaluation_time_ms = 599_999;
          steps = [];
          first_rejection = some "decision.levels";
          decision_hash = "d";
        };
      }
      ∷ [];
  candle_count = 6;
}

sample_replayed :
    run sample_source [] no_plugin
      (λ o. "o")
      (λ d. "d")
      sample_strategy
      "okx_swap"
      "LINEAR_PERPETUAL"
      sample_period
    ≡ some (ok sample_result)
unfolding run prepare configured_nodes replay_over evaluate_times evaluate_each evaluate_at load_all
    scheduled_times resolve validate_candles has_expected_count topological_order rounds execute
    execute_from decide decide_from ordered_signals conclude stop_at checked_decision trace
    indicator_steps gate_steps resample_roles resample_complete resample same_market fill_buckets
    add_row derive_all is_partial derive checked_derived plain_decimal has_exponent sum_decimal
    sum_quotes sort insert_sorted dec_ltb dec_leb dec_eqb dec_max dec_min dec_sum ◌⊕◌ round
    digit_count half_even duration_minutes timeframe_eqb is_instrument_id count_groups
    is_identifier_code
sample_replayed = refl

run-turns_example :
    (loaded : List (String × Roles) × List ClosedCandle) × (schedule : List ℕ) × (prepare
        sample_source [] no_plugin
        (λ o. "o")
        (λ d. "d")
        sample_strategy
        "okx_swap"
        "LINEAR_PERPETUAL"
        sample_period
      ≡ ok (loaded, schedule))
    × (map turn_of sample_result.evaluations ≡ turns schedule sample_strategy.instruments)
    × All IsTraced sample_result.evaluations
run-turns_example =
    run-turns sample_source [] no_plugin (λ o. "o") (λ d. "d") sample_strategy "okx_swap"
      "LINEAR_PERPETUAL" sample_period sample_result sample_replayed

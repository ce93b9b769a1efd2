-- ===== src/Metrics/Tests.antt =====
-- The drawdown of a few values, and the groups of a few trades.
use smc_ict_engine.Prelude.{
  ℕ, Option, none, some, String, List, [], ◌∷◌, ◌≡◌, ◌⊎◌, refl, All, length, keep, map, Result, ok,
}
use smc_ict_engine.Decimal.{Decimal, ◌≼◌, whole, negate, dec_ltb, dec_leb, dec_eqb, dec_sum, divide}
use smc_ict_engine.Domain.{Direction, DecisionStatus, ReplayEvaluation}
use smc_ict_engine.Simulator.{Figures, TradeRecord, TradeStatus, ExitReason}
use smc_ict_engine.Metrics.{is_closed, maximum_drawdown, median, cost_of}
use smc_ict_engine.Metrics.Drawdown.{falls, OneOf, maximum_drawdown_lem}
use smc_ict_engine.Metrics.Report.{MetricsReport, summarize_backtest}
use smc_ict_engine.Metrics.Tally.{sum_entries}
use smc_ict_engine.Metrics.Partition.{sum_counts, summarize_backtest_shares}

abbrev sample_values : List Decimal
sample_values = whole 3 ∷ negate (whole 2) ∷ whole 1 ∷ negate (whole 4) ∷ whole 2 ∷ []

maximum_drawdown_lem_example :
    (All (λ f. f ≼ maximum_drawdown sample_values) (falls [] (whole 0) sample_values))
    × ((maximum_drawdown sample_values ≡ whole 0)
        ⊎ OneOf (maximum_drawdown sample_values) (falls [] (whole 0) sample_values))
maximum_drawdown_lem_example = maximum_drawdown_lem sample_values

abbrev sample_figures : (net : Decimal) → Figures
sample_figures net = record {
  executed_entry = whole 100;
  requested_exit = whole 120;
  executed_exit = whole 120;
  initial_risk = whole 10;
  gross_price_return = whole 20;
  entry_fee = whole 1;
  exit_fee = whole 1;
  slippage_cost = whole 0;
  net_price_return = whole 18;
  gross_r = whole 2;
  net_r = net;
  duration_minutes = 5;
}

abbrev sample_trade :
    (instrument : String) → Direction → (signal : ℕ) → TradeStatus → Option Figures → TradeRecord
sample_trade instrument direction signal status figures = record {
  decision_hash = "a";
  instrument_id = instrument;
  direction = some direction;
  status = status;
  signal_time_ms = signal;
  entry_time_ms = none;
  exit_time_ms = none;
  requested_entry = some (whole 100);
  stop = some (whole 90);
  target = some (whole 120);
  exit_reason = ExitReason.target_reached;
  figures = figures;
}

abbrev sample_trades : List TradeRecord
sample_trades =
    sample_trade "ETH-USDT-PERP" Direction.long 3 TradeStatus.closed
      (some (sample_figures (whole 2)))
    ∷ sample_trade "BTC-USDT-PERP" Direction.short 2 TradeStatus.closed
        (some (sample_figures (negate (whole 1))))
    ∷ sample_trade "ETH-USDT-PERP" Direction.short 1 TradeStatus.expired none
    ∷ []

abbrev sample_evaluation : ReplayEvaluation
sample_evaluation = record {
  instrument_id = "BTC-USDT-PERP";
  evaluation_time_ms = 59_999;
  decision = record {
    instrument_id = "BTC-USDT-PERP";
    status = DecisionStatus.unavailable;
    direction = none;
    entry = none;
    stop = none;
    target = none;
    first_failed_signal = some "smc.swing_structure";
    observation_hashes = [];
  };
  decision_hash = "b";
  trace = record {
    instrument_id = "BTC-USDT-PERP";
    evaluation_time_ms = 59_999;
    steps = [];
    first_rejection = none;
    decision_hash = "b";
  };
}

abbrev counts_of : Result MetricsReport → List (String × ℕ)
counts_of (ok r) = map (λ g. (g.0, g.1.trade_count)) r.by_instrument
counts_of (Result.err e) = []

-- One group for each instrument, in order
sample_groups :
    counts_of (summarize_backtest [] sample_trades)
    ≡ ("BTC-USDT-PERP", 1) ∷ ("ETH-USDT-PERP", 1) ∷ []
unfolding summarize_backtest median cost_of maximum_drawdown dec_ltb dec_leb dec_eqb dec_sum divide
sample_groups = refl

summarize_backtest_shares_example :
    (r : MetricsReport) × (summarize_backtest (sample_evaluation ∷ []) sample_trades ≡ ok r)
    × (r.overall.trade_count ≡ length (keep is_closed sample_trades))
    × (sum_counts r.by_instrument ≡ r.overall.trade_count)
    × (sum_counts r.by_direction ≡ r.overall.trade_count)
    × (sum_entries r.decision_status_counts ≡ 1)
summarize_backtest_shares_example = summarize_backtest_shares (sample_evaluation ∷ []) sample_trades

-- ===== src/Simulator/Tests.antt =====
-- Runs of the simulator on small inputs, and its theorems at them.
use smc_ict_engine.Prelude.{
  ℕ, ◌+◌, ◌≡◌, refl, inr, none, some, String, List, [], ◌∷◌, arith, All, Distinct, Within, Result,
  ok, err, map, true,
}
use smc_ict_engine.Decimal.{
  Decimal, whole, ◌⊗◌, ◌⊕◌, negate, absolute, dec_min, ◌⊖◌, divide, dec_leb,
}
use smc_ict_engine.Decimal.Int.{pos}
use smc_ict_engine.Domain.{ClosedCandle, SourceValue, Direction, DecisionStatus, ReplayEvaluation}
use smc_ict_engine.Simulator.Trade.{
  OpenTrade, TradeRecord, stop_loss, target_reached, entry_expired, stop_touched, closed_record,
  touches_entry, held_minutes, target_touched, expired_record, stop_fill,
}
use smc_ict_engine.Simulator.Loop.{Simulator, run_instrument, manage_opened}
use smc_ict_engine.Simulator.Once.{trade_hashes, ready_hashes, run_instrument_once}
use smc_ict_engine.Simulator.Total.{HasRisk, run_instrument_total}
use smc_ict_engine.Simulator.Timing.{IsTimely, run_instrument-IsTimely}
use smc_ict_engine.Simulator.Exits.{holding, stop_of, IsConservative, manage_opened_stop}

abbrev sample_simulator : Simulator
sample_simulator = record {
  expiry_execution_bars = 2;
  maximum_holding_minutes = 3;
  execution_bar_minutes = 1;
  fee_rate = record { mantissa = pos 5; scale = 4 };
  slippage_rate = record { mantissa = pos 2; scale = 4 };
}

abbrev candle_at : (open_time high low : ℕ) → ClosedCandle
candle_at t high low = record {
  provider_id = "okx_swap";
  market_type = "LINEAR_PERPETUAL";
  instrument_id = "BTC-USDT-PERP";
  provider_symbol = "BTC-USDT-SWAP";
  interval = "1m";
  open_time_ms = t;
  close_time_ms = t + 59_999;
  opening = whole 100;
  high = whole high;
  low = whole low;
  closing = whole 100;
  base_volume = whole 1;
  quote_volume = none;
  source_fields = ("contract_volume", SourceValue.amount (whole 1)) ∷ [];
}

abbrev evaluation_at : ℕ → String → ReplayEvaluation
evaluation_at t hash = record {
  instrument_id = "BTC-USDT-PERP";
  evaluation_time_ms = t;
  decision = record {
    instrument_id = "BTC-USDT-PERP";
    status = DecisionStatus.ready;
    direction = some Direction.long;
    entry = some (whole 100);
    stop = some (whole 90);
    target = some (whole 120);
    first_failed_signal = none;
    observation_hashes = [];
  };
  decision_hash = hash;
  trace = record {
    instrument_id = "BTC-USDT-PERP";
    evaluation_time_ms = t;
    steps = [];
    first_rejection = none;
    decision_hash = hash;
  };
}

-- A signal at the first close is filled by the second candle and reaches its target in the third;
-- the repeated signal is not taken again, and the last one expires.
abbrev sample_evaluations : List ReplayEvaluation
sample_evaluations =
    evaluation_at 179_999 "b" ∷ evaluation_at 59_999 "a" ∷ evaluation_at 179_999 "a" ∷ []

abbrev sample_candles : List ClosedCandle
sample_candles =
    candle_at 0 101 101
    ∷ candle_at 60_000 105 99
    ∷ candle_at 120_000 121 101
    ∷ candle_at 180_000 105 101
    ∷ []

sample_run : Result (List TradeRecord)
unfolding run_instrument touches_entry stop_touched held_minutes target_touched closed_record
    expired_record stop_fill dec_leb dec_min ◌⊗◌ ◌⊕◌ ◌⊖◌ negate absolute divide
sample_run = run_instrument sample_simulator sample_evaluations sample_candles

abbrev returned : Result (List TradeRecord) → List TradeRecord
returned (ok trades) = trades
returned (err e) = []

sample_reasons :
    map (λ t. t.exit_reason) (returned sample_run) ≡ target_reached ∷ entry_expired ∷ []
unfolding sample_run
sample_reasons = refl

sample_ran :
    run_instrument sample_simulator sample_evaluations sample_candles ≡ ok (returned sample_run)
unfolding sample_run
sample_ran = refl

run_instrument_once_example :
    Distinct (trade_hashes (returned sample_run))
    × Within (ready_hashes sample_evaluations) (trade_hashes (returned sample_run))
run_instrument_once_example =
    run_instrument_once sample_simulator sample_evaluations sample_candles (returned sample_run)
      sample_ran

sample_risk : HasRisk (evaluation_at 0 "a").decision
unfolding absolute ◌⊖◌
sample_risk = (refl, refl)

run_instrument_total_example :
    (trades : List TradeRecord) × (run_instrument sample_simulator sample_evaluations sample_candles
      ≡ ok trades)
run_instrument_total_example =
    run_instrument_total sample_simulator sample_evaluations sample_candles
      (inr sample_risk, (inr sample_risk, (inr sample_risk, tt)))

run_instrument-IsTimely_example : All (IsTimely sample_simulator) (returned sample_run)
run_instrument-IsTimely_example =
    run_instrument-IsTimely sample_simulator sample_evaluations sample_candles (returned sample_run)
      (omega arith) (omega arith) sample_ran

abbrev sample_trade : OpenTrade
sample_trade = record {
  evaluation = evaluation_at 59_999 "a";
  entry_time_ms = 60_000;
  executed_entry = whole 100;
}

-- A candle that touches both the stop and the target.
abbrev wild_candle : ClosedCandle
wild_candle = candle_at 120_000 130 80

wild_stop : stop_touched sample_trade wild_candle (stop_of sample_trade) ≡ true
unfolding stop_touched dec_leb
wild_stop = refl

manage_opened_stop_example :
    (t : TradeRecord) × (manage_opened sample_simulator wild_candle (holding sample_trade [] [])
      ≡ ok (record (holding sample_trade [] []) { opened = none; trades = t ∷ [] }))
    × (t.exit_reason ≡ stop_loss)
    × (fill : Decimal) × (closed_record sample_simulator.fee_rate sample_simulator.slippage_rate
          sample_trade wild_candle
          (stop_of sample_trade)
          fill
          stop_loss
        ≡ ok t)
    × IsConservative sample_trade wild_candle fill
manage_opened_stop_example =
    manage_opened_stop sample_simulator sample_trade wild_candle [] [] sample_risk wild_stop

-- ===== src/Simulator/Trade.antt =====
-- application/execution_simulator.py: the values, the tests on a candle and the trade records.
use smc_ict_engine.Prelude.{
  ℕ, ◌+◌, ◌-◌, ◌/◌, Bool, true, false, ◌&&◌, Option, none, some, String, ltb, if◌then◌else◌, Result,
  ok, ◌>>=◌,
}
use smc_ict_engine.Decimal.{
  Decimal, whole, dec_leb, dec_min, dec_max, negate, absolute, ◌⊕◌, ◌⊖◌, ◌⊗◌, divide,
}
use smc_ict_engine.Domain.{ClosedCandle, Decision, Direction, ReplayEvaluation, minute_ms}

pub record PendingTrade : Type 0 where
  pub evaluation : ReplayEvaluation
  pub expires_before_ms : ℕ

pub record OpenTrade : Type 0 where
  pub evaluation : ReplayEvaluation
  pub entry_time_ms : ℕ
  pub executed_entry : Decimal

pub data TradeStatus : Type 0 where
  closed expired : TradeStatus

pub data ExitReason : Type 0 where
  stop_loss target_reached timeout end_of_data entry_expired : ExitReason

-- The figures of a closed trade, absent from an expired one.
pub record Figures : Type 0 where
  pub executed_entry : Decimal
  pub requested_exit : Decimal
  pub executed_exit : Decimal
  pub initial_risk : Decimal
  pub gross_price_return : Decimal
  pub entry_fee : Decimal
  pub exit_fee : Decimal
  pub slippage_cost : Decimal
  pub net_price_return : Decimal
  pub gross_r : Decimal
  pub net_r : Decimal
  pub duration_minutes : ℕ

pub record TradeRecord : Type 0 where
  pub decision_hash : String
  pub instrument_id : String
  pub direction : Option Direction
  pub status : TradeStatus
  pub signal_time_ms : ℕ
  pub entry_time_ms : Option ℕ
  pub exit_time_ms : Option ℕ
  pub requested_entry : Option Decimal
  pub stop : Option Decimal
  pub target : Option Decimal
  pub exit_reason : ExitReason
  pub figures : Option Figures

-- `direction == "LONG"`; every other direction takes the other branch.
abbrev pub is_long : Decision → Bool
is_long d = elim d.direction [
  | some direction ↦ elim direction [ Direction.long ↦ true | Direction.short ↦ false ]
  | none ↦ false
]

-- `Decimal(text or "0")`
abbrev pub or_zero : Option Decimal → Decimal
or_zero none = whole 0
or_zero (some v) = v

-- `_touches_entry`
unfoldable pub touches_entry : PendingTrade → ClosedCandle → Bool
touches_entry p c =
    let entry = or_zero p.evaluation.decision.entry in
    let touched =
      if is_long p.evaluation.decision then dec_leb c.low entry else dec_leb entry c.high in
    ltb c.open_time_ms p.expires_before_ms && touched

-- `_target_touched`
unfoldable pub target_touched : OpenTrade → ClosedCandle → Decimal → Bool
target_touched o c target =
    if is_long o.evaluation.decision then dec_leb target c.high else dec_leb c.low target

-- `_stop_touched`
unfoldable pub stop_touched : OpenTrade → ClosedCandle → Decimal → Bool
stop_touched o c stop =
    if is_long o.evaluation.decision then dec_leb c.low stop else dec_leb stop c.high

-- `_stop_fill`
unfoldable pub stop_fill : OpenTrade → ClosedCandle → Decimal → Decimal
stop_fill o c stop =
    if is_long o.evaluation.decision then dec_min stop c.opening else dec_max stop c.opening

-- `_duration_minutes`; a candle never opens before the entry of the trade that it closes.
unfoldable pub held_minutes : OpenTrade → ClosedCandle → ℕ
held_minutes o c = (c.open_time_ms - o.entry_time_ms) / minute_ms + 1

-- `_expired_record`
unfoldable pub expired_record : PendingTrade → TradeRecord
expired_record p = record {
  decision_hash = p.evaluation.decision_hash;
  instrument_id = p.evaluation.decision.instrument_id;
  direction = p.evaluation.decision.direction;
  status = expired;
  signal_time_ms = p.evaluation.evaluation_time_ms;
  entry_time_ms = none;
  exit_time_ms = none;
  requested_entry = p.evaluation.decision.entry;
  stop = p.evaluation.decision.stop;
  target = p.evaluation.decision.target;
  exit_reason = entry_expired;
  figures = none;
}

-- `Decimal(1)` or `Decimal(-1)`
abbrev pub direction_sign : Decision → Decimal
unfolding negate
direction_sign d = if is_long d then whole 1 else negate (whole 1)

module _ (fee_rate slippage_rate : Decimal) where
  -- The computation of `_closed_record`; its divisions by the entry and by the risk may raise.
  unfoldable pub closed_figures :
      OpenTrade → ClosedCandle → (requested_exit base_exit : Decimal) → Result Figures
  unfolding direction_sign
  closed_figures o c requested_exit base_exit = do
    let entry = or_zero o.evaluation.decision.entry
    let stop = or_zero o.evaluation.decision.stop
    let direction = direction_sign o.evaluation.decision
    let executed_exit = base_exit ⊗ (whole 1 ⊖ direction ⊗ slippage_rate)
    let initial_risk = absolute (entry ⊖ stop)
    let gross = direction ⊗ (base_exit ⊖ entry)
    let entry_fee = o.executed_entry ⊗ fee_rate
    let exit_fee = executed_exit ⊗ fee_rate
    let net = direction ⊗ (executed_exit ⊖ o.executed_entry) ⊖ entry_fee ⊖ exit_fee
    let entry_slippage = direction ⊗ (o.executed_entry ⊖ entry)
    gross_return ← divide gross entry
    net_return ← divide net entry
    gross_r ← divide gross initial_risk
    net_r ← divide net initial_risk
    ok (record {
      executed_entry = o.executed_entry;
      requested_exit = requested_exit;
      executed_exit = executed_exit;
      initial_risk = initial_risk;
      gross_price_return = gross_return;
      entry_fee = entry_fee;
      exit_fee = exit_fee;
      slippage_cost = entry_slippage ⊕ direction ⊗ (base_exit ⊖ executed_exit);
      net_price_return = net_return;
      gross_r = gross_r;
      net_r = net_r;
      duration_minutes = held_minutes o c;
    })

  unfoldable pub filled_record : OpenTrade → ClosedCandle → ExitReason → Figures → TradeRecord
  filled_record o c reason figures = record {
    decision_hash = o.evaluation.decision_hash;
    instrument_id = o.evaluation.decision.instrument_id;
    direction = o.evaluation.decision.direction;
    status = closed;
    signal_time_ms = o.evaluation.evaluation_time_ms;
    entry_time_ms = some o.entry_time_ms;
    exit_time_ms = some c.open_time_ms;
    requested_entry = some (or_zero o.evaluation.decision.entry);
    stop = some (or_zero o.evaluation.decision.stop);
    target = some (or_zero o.evaluation.decision.target);
    exit_reason = reason;
    figures = some figures;
  }

  -- `_closed_record`
  unfoldable pub closed_record :
      OpenTrade
      → ClosedCandle
      → (requested_exit base_exit : Decimal) → ExitReason
      → Result TradeRecord
  unfolding closed_figures filled_record
  closed_record o c requested_exit base_exit reason = do
    figures ← closed_figures o c requested_exit base_exit
    ok (filled_record o c reason figures)

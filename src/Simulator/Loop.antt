-- ===== src/Simulator/Loop.antt =====
-- application/execution_simulator.py: `ExecutionSimulator` and its loop over one instrument.
use smc_ict_engine.Prelude.{
  ℕ, ◌+◌, ◌*◌, Bool, true, false, ◌&&◌, ◌||◌, Option, none, some, String, List, [], ◌∷◌, ◌++◌, ltb,
  leb, ◌==◌, str_eq, str_le, if◌then◌else◌, any, keep, last, Result, ok, ◌>>=◌,
}
use smc_ict_engine.Prelude.Sort.{sort}
use smc_ict_engine.Decimal.{Decimal, whole, ◌⊕◌, ◌⊗◌, negate, divide}
use smc_ict_engine.Domain.{ClosedCandle, DecisionStatus, ReplayEvaluation, minute_ms}
use smc_ict_engine.Simulator.Trade.{
  PendingTrade, OpenTrade, TradeRecord, ExitReason, stop_loss, target_reached, timeout, end_of_data,
  is_long, or_zero, touches_entry, target_touched, stop_touched, stop_fill, held_minutes,
  expired_record, closed_record,
}

-- The fields of `ExecutionSimulator` that its methods read.
pub record Simulator : Type 0 where
  pub expiry_execution_bars : ℕ
  pub maximum_holding_minutes : ℕ
  pub execution_bar_minutes : ℕ
  pub fee_rate : Decimal
  pub slippage_rate : Decimal

-- `__init__`: basis points become rates.
unfoldable pub create :
    (expiry_execution_bars maximum_holding_minutes execution_bar_minutes : ℕ)
    → (taker_fee_bps adverse_slippage_bps : Decimal) → Result Simulator
create bars holding bar_minutes fee slippage = do
  fee_rate ← divide fee (whole 10000)
  slippage_rate ← divide slippage (whole 10000)
  ok (record {
    expiry_execution_bars = bars;
    maximum_holding_minutes = holding;
    execution_bar_minutes = bar_minutes;
    fee_rate = fee_rate;
    slippage_rate = slippage_rate;
  })

-- The local variables of `_run_instrument` that the loop changes.
pub record Book : Type 0 where
  pub pending : Option PendingTrade
  pub opened : Option OpenTrade
  pub trades : List TradeRecord
  pub seen_decisions : List String

abbrev pub empty_book : Book
empty_book = record { pending = none; opened = none; trades = []; seen_decisions = [] }

-- The first test of the loop's body: a pending trade expires before the candle.
unfoldable pub expire_pending : ClosedCandle → Book → Book
expire_pending c b = elim b.pending [
  | none ↦ b
  | some p ↦
      if leb p.expires_before_ms c.open_time_ms
      then record b { pending = none; trades = b.trades ++ expired_record p ∷ [] }
      else b
]

-- After the loop a pending trade has expired.
unfoldable pub flush_pending : Book → Book
flush_pending b = elim b.pending [
  | none ↦ b
  | some p ↦ record b { pending = none; trades = b.trades ++ expired_record p ∷ [] }
]

-- `status != "READY" or decision_hash in seen_decisions` does not hold.
unfoldable pub is_new_ready : List String → ReplayEvaluation → Bool
is_new_ready seen e = elim e.decision.status [
  | DecisionStatus.ready ↦ if any (str_eq e.decision_hash) seen then false else true
  | _ ↦ false
]

-- `sorted` goes by time, then by hash.
abbrev pub evaluation_le : ReplayEvaluation → ReplayEvaluation → Bool
evaluation_le a b =
    ltb a.evaluation_time_ms b.evaluation_time_ms
    || (a.evaluation_time_ms == b.evaluation_time_ms && str_le a.decision_hash b.decision_hash)

abbrev pub candle_le : ClosedCandle → ClosedCandle → Bool
candle_le a b = leb a.open_time_ms b.open_time_ms

module _ (sim : Simulator) where
  -- The executed entry of a pending trade, slippage included.
  unfoldable pub entry_fill : PendingTrade → Decimal
  entry_fill p =
      or_zero p.evaluation.decision.entry
      ⊗ (whole 1
          ⊕ (if is_long p.evaluation.decision then sim.slippage_rate else negate sim.slippage_rate))

  -- The second test: a pending trade whose entry the candle touches is opened.
  unfoldable pub fill_pending : ClosedCandle → Book → Book
  fill_pending c b = elim b.pending [
    | none ↦ b
    | some p ↦
        if touches_entry p c
        then record b {
          pending = none;
          opened = some (record {
            evaluation = p.evaluation;
            entry_time_ms = c.open_time_ms;
            executed_entry = entry_fill p;
          });
        }
        else b
  ]

  -- The exit that the candle gives to an open trade: its reason, and the requested and base prices.
  -- The stop is tried before the target, and the target not in the minute of the entry.
  unfoldable pub exit_rule : OpenTrade → ClosedCandle → Option (ExitReason × Decimal × Decimal)
  exit_rule o c =
      let stop = or_zero o.evaluation.decision.stop in
      let target = or_zero o.evaluation.decision.target in
      if stop_touched o c stop
      then some (stop_loss, stop, stop_fill o c stop)
      else if ltb o.entry_time_ms c.open_time_ms && target_touched o c target
      then some (target_reached, target, target)
      else if leb sim.maximum_holding_minutes (held_minutes o c)
      then some (timeout, c.closing, c.closing)
      else none

  -- Closes an open trade at the end of the candle's rules.
  unfoldable pub close_opened :
      OpenTrade → ClosedCandle → ExitReason × Decimal × Decimal → Book → Result Book
  close_opened o c (reason, requested, base) b = do
    trade ← closed_record sim.fee_rate sim.slippage_rate o c requested base reason
    ok (record b { opened = none; trades = b.trades ++ trade ∷ [] })

  -- The third test: an open trade is closed by the stop, the target or the holding limit.
  unfoldable pub manage_opened : ClosedCandle → Book → Result Book
  unfolding exit_rule close_opened
  manage_opened c b = elim b.opened [
    | none ↦ ok b
    | some o ↦ elim (exit_rule o c) [ none ↦ ok b | some exit ↦ close_opened o c exit b ]
  ]

  -- `expiry_minutes * 60_000`
  unfoldable pub entry_window_ms : ℕ
  entry_window_ms = sim.expiry_execution_bars * sim.execution_bar_minutes * minute_ms

  -- A new ready decision is remembered, and is pending if nothing else is held.
  unfoldable pub take_signal : Book → ReplayEvaluation → Book
  take_signal b e = record b {
    seen_decisions = b.seen_decisions ++ e.decision_hash ∷ [];
    pending = elim b.pending [
      | some p ↦ some p
      | none ↦ elim b.opened [
        | some o ↦ none
        | none ↦ some (record {
          evaluation = e;
          expires_before_ms = e.evaluation_time_ms + 1 + entry_window_ms;
        })
      ]
    ];
  }

  -- The body of the inner loop over the evaluations at the candle's close.
  unfoldable pub accept : Book → ReplayEvaluation → Book
  unfolding is_new_ready take_signal entry_window_ms
  accept b e = if is_new_ready b.seen_decisions e then take_signal b e else b

  unfoldable pub accept_all : Book → List ReplayEvaluation → Book
  unfolding accept
  accept_all b [] = b
  accept_all b (e ∷ es) = accept_all (accept b e) es

  -- One round of the loop over candles. `evaluations_by_time` groups the sorted evaluations in
  -- their order, so a group is what the sorted list keeps of that time.
  unfoldable pub step : List ReplayEvaluation → Book → ClosedCandle → Result Book
  unfolding expire_pending fill_pending manage_opened accept_all
  step evaluations b c = do
    managed ← manage_opened c (fill_pending c (expire_pending c b))
    ok (accept_all managed (keep (λ e. e.evaluation_time_ms == c.close_time_ms) evaluations))

  unfoldable pub run_candles : List ReplayEvaluation → Book → List ClosedCandle → Result Book
  unfolding step
  run_candles evaluations b [] = ok b
  run_candles evaluations b (c ∷ cs) = do
    after ← step evaluations b c
    run_candles evaluations after cs

  -- What follows the loop: the pending trade expires, an open trade is closed at the last candle.
  unfoldable pub finish : List ClosedCandle → Book → Result (List TradeRecord)
  unfolding close_opened flush_pending
  finish candles b =
      let flushed = flush_pending b in
      elim b.opened [
        | none ↦ ok flushed.trades
        | some o ↦ elim candles [
          | [] ↦ ok flushed.trades
          | c ∷ cs ↦ do
            done ←
                close_opened o (last c cs) (end_of_data, (last c cs).closing, (last c cs).closing)
                  flushed
            ok done.trades
        ]
      ]

  -- `_run_instrument`
  unfoldable pub run_instrument :
      List ReplayEvaluation → List ClosedCandle → Result (List TradeRecord)
  unfolding run_candles finish sort
  run_instrument evaluations candles = do
    let ordered = sort candle_le candles
    done ← run_candles (sort evaluation_le evaluations) empty_book ordered
    finish ordered done

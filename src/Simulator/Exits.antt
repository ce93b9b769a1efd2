-- ===== src/Simulator/Exits.antt =====
-- How an open trade is left: the stop comes first, and its fill is never better than the stop.
use smc_ict_engine.Prelude.{
  true, ◌≡◌, refl, Option, none, some, String, List, [], ◌∷◌, ◌++◌, inl, inr, Bool-cases, Result,
  ok, ap, ◌∙◌, ◌>>=◌, bind-eq-ok, subst, Unpacked, value_of_is_ok, if◌then◌else◌,
}
use smc_ict_engine.Decimal.{Decimal, ◌≼◌}
use smc_ict_engine.Decimal.Order.{dec_min-≼, dec_max-≼}
use smc_ict_engine.Domain.{ClosedCandle}
use smc_ict_engine.Simulator.Trade.{
  OpenTrade, TradeRecord, ExitReason, stop_loss, closed_figures, closed_record, filled_record,
  is_long, or_zero, stop_touched, stop_fill,
}
use smc_ict_engine.Simulator.Loop.{Simulator, Book, exit_rule, close_opened, manage_opened}
use smc_ict_engine.Simulator.Total.{HasRisk, closed_record-is_ok}

abbrev pub stop_of : OpenTrade → Decimal
stop_of o = or_zero o.evaluation.decision.stop

-- For a long trade the fill is at most the stop and the opening price, for a short one at least.
abbrev pub IsConservative : OpenTrade → ClosedCandle → Decimal → Type 0
IsConservative o c fill =
    if is_long o.evaluation.decision
    then (fill ≼ stop_of o) × (fill ≼ c.opening)
    else (stop_of o ≼ fill) × (c.opening ≼ fill)

stop_fill-IsConservative :
    (o : OpenTrade) (c : ClosedCandle) → IsConservative o c (stop_fill o c (stop_of o))
unfolding stop_fill
stop_fill-IsConservative o c = elim (Bool-cases (is_long o.evaluation.decision)) [
  | inl long ↦ rw long (dec_min-≼ (stop_of o) c.opening)
  | inr short ↦ rw short (dec_max-≼ (stop_of o) c.opening)
]

-- The book with an open trade.
abbrev pub holding : OpenTrade → List TradeRecord → List String → Book
holding o ts seen = record { pending = none; opened = some o; trades = ts; seen_decisions = seen }

module _ (sim : Simulator) (o : OpenTrade) (c : ClosedCandle) (ts : List TradeRecord)
    (seen : List String) where
  exit_rule_stop :
      stop_touched o c (stop_of o) ≡ true
      → exit_rule sim o c ≡ some (stop_loss, stop_of o, stop_fill o c (stop_of o))
  unfolding exit_rule
  exit_rule_stop touched = rw touched

  reason_of :
      (fill : Decimal) (t : TradeRecord)
      → closed_record sim.fee_rate sim.slippage_rate o c (stop_of o) fill stop_loss ≡ ok t
      → t.exit_reason ≡ stop_loss
  unfolding closed_record filled_record
  reason_of fill t made =
      let (f, figured, e) =
        bind-eq-ok (closed_figures sim.fee_rate sim.slippage_rate o c (stop_of o) fill) _ made in
      subst (λ r. Unpacked (λ u. u.exit_reason ≡ stop_loss) r) e refl

  -- If the candle touches the stop, the open trade is left by the stop whatever else the candle
  -- touches, at a base price that is no better than the stop and no better than the opening price;
  -- this holds where the entry and the risk are not zero, and the new record is the only change.
  pub manage_opened_stop :
      HasRisk o.evaluation.decision
      → stop_touched o c (stop_of o) ≡ true
      → (t : TradeRecord) × (manage_opened sim c (holding o ts seen)
          ≡ ok (record (holding o ts seen) { opened = none; trades = ts ++ t ∷ [] }))
        × (t.exit_reason ≡ stop_loss)
        × (fill : Decimal) × (closed_record sim.fee_rate sim.slippage_rate o c
              (stop_of o)
              fill
              stop_loss
            ≡ ok t)
        × IsConservative o c fill
  unfolding manage_opened close_opened
  manage_opened_stop risk touched =
      let fill = stop_fill o c (stop_of o) in
      let (t, made) =
        value_of_is_ok (closed_record sim.fee_rate sim.slippage_rate o c (stop_of o) fill stop_loss)
          (closed_record-is_ok sim.fee_rate sim.slippage_rate o c (stop_of o) fill stop_loss
            risk) in
      (
        t,
        ap after_rule (exit_rule_stop touched) ∙ ap (λ r. r >>= after) made,
        reason_of fill t made,
        fill,
        made,
        stop_fill-IsConservative o c,
      )
    where
      after_rule : Option (ExitReason × Decimal × Decimal) → Result Book
      after_rule exit = elim exit [
        | none ↦ ok (holding o ts seen)
        | some e ↦ close_opened sim o c e (holding o ts seen)
      ]

      after : TradeRecord → Result Book
      after t = ok (record (holding o ts seen) { opened = none; trades = ts ++ t ∷ [] })

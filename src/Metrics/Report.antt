-- ===== src/Metrics/Report.antt =====
-- application/metrics.py: the report, with the metrics of each group, over the trades and the
-- evaluations.
use smc_ict_engine.Prelude.{
  ℕ, not, Option, none, some, String, List, [], ◌∷◌, ◌++◌, str_le, str_eq, keep, map, Result, ok,
  ◌>>=◌,
}
use smc_ict_engine.Prelude.Sort.{sort}
use smc_ict_engine.Domain.{Direction, DecisionStatus, ReplayEvaluation}
use smc_ict_engine.Simulator.{TradeRecord}
use smc_ict_engine.Metrics.{TradeMetrics, summarize, summarize_overall, trade_le, count_texts}

pub record MetricsReport : Type 0 where
  pub overall : TradeMetrics
  pub by_instrument : List (String × TradeMetrics)
  pub by_direction : List (String × TradeMetrics)
  pub decision_status_counts : List (String × ℕ)
  pub unavailable_reason_counts : List (String × ℕ)

-- A record without a direction has the empty text.
abbrev pub direction_key : TradeRecord → String
direction_key t = elim t.direction [
  | some Direction.long ↦ "LONG"
  | some Direction.short ↦ "SHORT"
  | none ↦ ""
]

-- The texts of a set
unfoldable pub distinct : List String → List String
distinct [] = []
distinct (x ∷ xs) = x ∷ keep (λ y. not (str_eq x y)) (distinct xs)

-- `sorted({key(trade) for trade in ordered})`
unfoldable pub group_keys : (key : TradeRecord → String) → List TradeRecord → List String
unfolding sort distinct
group_keys key trades = sort str_le (distinct (map key trades))

unfoldable pub summarize_groups :
    (key : TradeRecord → String)
    → List TradeRecord
    → List String
    → Result (List (String × TradeMetrics))
unfolding summarize
summarize_groups key trades [] = ok []
summarize_groups key trades (k ∷ ks) = do
  m ← summarize (keep (λ t. str_eq (key t) k) trades)
  rest ← summarize_groups key trades ks
  ok ((k, m) ∷ rest)

-- `_summarize_trades`
unfoldable pub summarize_trades : List TradeRecord → Result MetricsReport
unfolding summarize_overall summarize_groups group_keys sort
summarize_trades trades = do
  let ordered = sort trade_le trades
  overall ← summarize_overall trades
  instruments ←
      summarize_groups (λ t. t.instrument_id) ordered (group_keys (λ t. t.instrument_id) ordered)
  directions ← summarize_groups direction_key ordered (group_keys direction_key ordered)
  ok (record {
    overall = overall;
    by_instrument = instruments;
    by_direction = directions;
    decision_status_counts = [];
    unavailable_reason_counts = [];
  })

abbrev pub status_key : ReplayEvaluation → String
status_key e = elim e.decision.status [
  | DecisionStatus.ready ↦ "READY"
  | DecisionStatus.no_trade ↦ "NO_TRADE"
  | DecisionStatus.unavailable ↦ "UNAVAILABLE"
]

-- The signals that were not available
abbrev pub unavailable_signal : DecisionStatus → Option String → List String
unavailable_signal DecisionStatus.unavailable (some signal) = signal ∷ []
unavailable_signal _ _ = []

abbrev pub unavailable_signals : List ReplayEvaluation → List String
unavailable_signals [] = []
unavailable_signals (e ∷ es) =
    unavailable_signal e.decision.status e.decision.first_failed_signal ++ unavailable_signals es

unfoldable pub summarize_backtest : List ReplayEvaluation → List TradeRecord → Result MetricsReport
unfolding summarize_trades count_texts
summarize_backtest evaluations trades = do
  report ← summarize_trades trades
  ok (record report {
    decision_status_counts = count_texts (map status_key evaluations);
    unavailable_reason_counts = count_texts (unavailable_signals evaluations);
  })

-- ===== src/Metrics.antt =====
-- application/metrics.py: the summary of simulated trades. The texts of the figures are modelled by
-- the values that they denote.
pub mod Report
mod Tally
pub mod Partition
pub mod Drawdown
pub mod Tests
use smc_ict_engine.Prelude.{
  ℕ, zero, suc, ◌+◌, ◌-◌, ◌/◌, ◌%◌, Bool, true, false, not, ◌||◌, ◌&&◌, Option, none, some, String,
  List, [], ◌∷◌, ltb, ◌==◌, str_le, str_eq, if◌then◌else◌, length, keep, map, get_elem?, lookup,
  assign, Result, ok, err, ◌>>=◌,
}
use smc_ict_engine.Prelude.Sort.{sort}
use smc_ict_engine.Decimal.{
  Decimal, whole, dec_ltb, dec_leb, dec_eqb, dec_max, negate, divide, dec_sum, ◌⊕◌, ◌⊖◌,
}
use smc_ict_engine.Simulator.{TradeRecord, TradeStatus, ExitReason, Figures}

-- `_maximum_drawdown`, on `cumulative`, `peak` and `drawdown`
unfoldable pub drawdown_from : (cumulative peak drawdown : Decimal) → List Decimal → Decimal
unfolding dec_max ◌⊕◌ ◌⊖◌
drawdown_from cumulative peak drawdown [] = drawdown
drawdown_from cumulative peak drawdown (v ∷ vs) =
    drawdown_from (cumulative ⊕ v) (dec_max peak (cumulative ⊕ v))
      (dec_max drawdown (dec_max peak (cumulative ⊕ v) ⊖ (cumulative ⊕ v))) vs

unfoldable pub maximum_drawdown : List Decimal → Decimal
unfolding drawdown_from
maximum_drawdown values = drawdown_from (whole 0) (whole 0) (whole 0) values

pub record TradeMetrics : Type 0 where
  pub trade_count : ℕ
  pub win_rate : Option Decimal
  pub mean_net_r : Option Decimal
  pub median_net_r : Option Decimal
  pub gross_profit_r : Decimal
  pub gross_loss_r : Decimal
  pub profit_factor : Option Decimal
  pub cumulative_net_r : Decimal
  pub maximum_drawdown_r : Decimal
  pub total_cost : Decimal
  pub status_counts : List (String × ℕ)
  pub exit_reason_counts : List (String × ℕ)

abbrev pub is_closed : TradeRecord → Bool
is_closed t = elim t.status [ TradeStatus.closed ↦ true | TradeStatus.expired ↦ false ]

abbrev pub net_r_of : TradeRecord → Decimal
net_r_of t = elim t.figures [ none ↦ whole 0 | some f ↦ f.net_r ]

-- The fees and the slippage, added from the left.
unfoldable pub cost_of : TradeRecord → Decimal
unfolding ◌⊕◌
cost_of t = elim t.figures [
  | none ↦ whole 0 ⊕ whole 0 ⊕ whole 0
  | some f ↦ f.entry_fee ⊕ f.exit_fee ⊕ f.slippage_cost
]

abbrev pub at_index : List Decimal → ℕ → Decimal
at_index ds i = elim (get_elem? ds i) [ none ↦ whole 0 | some d ↦ d ]

-- `statistics.median` of values that are not empty
unfoldable pub median : List Decimal → Result Decimal
unfolding sort divide ◌⊕◌ dec_leb
median values =
    let ordered = sort dec_leb values in
    let n = length values in
    if n % 2 == 1
    then ok (at_index ordered (n / 2))
    else divide (at_index ordered (n / 2 - 1) ⊕ at_index ordered (n / 2)) (whole 2)

-- A figure that is absent if its test fails.
abbrev pub when : Bool → Result Decimal → Result (Option Decimal)
when false r = ok none
when true (ok d) = ok (some d)
when true (err e) = err e

abbrev pub is_gain : Decimal → Bool
is_gain d = dec_ltb (whole 0) d

abbrev pub is_loss : Decimal → Bool
is_loss d = dec_ltb d (whole 0)

abbrev pub status_text : TradeRecord → String
status_text t = elim t.status [ TradeStatus.closed ↦ "CLOSED" | TradeStatus.expired ↦ "EXPIRED" ]

abbrev pub reason_text : ExitReason → String
reason_text ExitReason.stop_loss = "STOP"
reason_text ExitReason.target_reached = "TARGET"
reason_text ExitReason.timeout = "TIMEOUT"
reason_text ExitReason.end_of_data = "END_OF_DATA"
reason_text ExitReason.entry_expired = "ENTRY_EXPIRED"

-- `Counter(texts)`, from some counts on
unfoldable pub counted : List String → List (String × ℕ) → List (String × ℕ)
counted [] counts = counts
counted (x ∷ xs) counts =
    counted xs (assign x (elim (lookup x counts) [ none ↦ 1 | some n ↦ suc n ]) counts)

-- `sorted(Counter(texts).items())`
unfoldable pub count_texts : List String → List (String × ℕ)
unfolding sort counted
count_texts texts = sort (λ a b. str_le a.0 b.0) (counted texts [])

-- `_summarize`
unfoldable pub summarize : List TradeRecord → Result TradeMetrics
unfolding median cost_of maximum_drawdown dec_ltb dec_eqb dec_sum negate divide count_texts
summarize trades = do
  let values = map net_r_of (keep is_closed trades)
  let count = length values
  let profits = dec_sum (whole 0) (keep is_gain values)
  let losses = negate (dec_sum (whole 0) (keep is_loss values))
  rate ← when (not (count == 0)) (divide (whole (length (keep is_gain values))) (whole count))
  mean ← when (not (count == 0)) (divide (dec_sum (whole 0) values) (whole count))
  factor ← when (not (dec_eqb losses (whole 0))) (divide profits losses)
  middle ← when (not (count == 0)) (median values)
  ok (record {
    trade_count = count;
    win_rate = rate;
    mean_net_r = mean;
    median_net_r = middle;
    gross_profit_r = profits;
    gross_loss_r = losses;
    profit_factor = factor;
    cumulative_net_r = dec_sum (whole 0) values;
    maximum_drawdown_r = maximum_drawdown values;
    total_cost = dec_sum (whole 0) (map cost_of (keep is_closed trades));
    status_counts = count_texts (map status_text trades);
    exit_reason_counts = count_texts (map (λ t. reason_text t.exit_reason) trades);
  })

-- The order of `_summarize_trades`: by signal time, instrument and hash.
abbrev pub trade_le : TradeRecord → TradeRecord → Bool
trade_le a b =
    ltb a.signal_time_ms b.signal_time_ms
    || (a.signal_time_ms == b.signal_time_ms
        && ((str_le a.instrument_id b.instrument_id && not (str_eq a.instrument_id b.instrument_id))
            || (str_eq a.instrument_id b.instrument_id && str_le a.decision_hash b.decision_hash)))

-- The overall metrics of `_summarize_trades`.
unfoldable pub summarize_overall : List TradeRecord → Result TradeMetrics
unfolding summarize sort
summarize_overall trades = summarize (sort trade_le trades)

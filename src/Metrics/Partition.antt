-- ===== src/Metrics/Partition.antt =====
-- The summary of a backtest returns, and its groups share the trades out.
use smc_ict_engine.Prelude.{
  ℕ, ◌+◌, ◌-◌, ◌*◌, ◌/◌, ◌%◌, ◌^◌, ◌≤◌, ◌==◌, ◌≡◌, ◌∙◌, refl, sym, ap, Bool, true, false, not,
  Bool-cases, inl, inr, Option, none, some, String, List, [], ◌∷◌, str_eq, length, length-map, keep,
  map, Result, ok, arith,
}
use smc_ict_engine.Prelude.Sort.{sort}
use smc_ict_engine.Decimal.{
  Decimal, whole, dec_leb, dec_eqb, negate, divide, quotient, dec_sum, ◌⊕◌,
}
use smc_ict_engine.Decimal.Int.{ℤ, pos, negsuc, magnitude, is_negative, ◌*ℤ◌}
use smc_ict_engine.Domain.{ReplayEvaluation}
use smc_ict_engine.Simulator.{TradeRecord}
use smc_ict_engine.Indicators.Defined.{passes, divide-whole}
use smc_ict_engine.Metrics.{
  TradeMetrics, is_closed, net_r_of, median, at_index, when, is_gain, is_loss, maximum_drawdown,
  cost_of, count_texts, status_text, reason_text, summarize, summarize_overall, trade_le,
}
use smc_ict_engine.Metrics.Report.{
  MetricsReport, direction_key, status_key, unavailable_signals, group_keys, summarize_groups,
  summarize_trades, summarize_backtest,
}
use smc_ict_engine.Metrics.Tally.{
  tally, length-keep, tally-sort, shared, shared-distinct, sum_entries, sum_entries-count_texts,
}

divide_total : (a b : Decimal) → dec_eqb b (whole 0) ≡ false → (q : Decimal) × (divide a b ≡ ok q)
unfolding divide dec_eqb
divide_total a b h =
    passes (magnitude b.mantissa == 0)
      (quotient (is_negative (a.mantissa *ℤ b.mantissa)) (magnitude a.mantissa * 10 ^ b.scale)
        (magnitude b.mantissa * 10 ^ a.scale))
      (nonzero b.mantissa b.scale h)
  where
    nonzero :
        (m : ℤ) (s : ℕ)
        → dec_eqb (record { mantissa = m; scale = s }) (whole 0) ≡ false
        → (magnitude m == 0) ≡ false
    nonzero (pos n) s h = ground arith
    nonzero (negsuc n) s h = ground arith

when_total :
    (b : Bool) (r : Result Decimal)
    → (b ≡ true → (q : Decimal) × (r ≡ ok q))
    → (o : Option Decimal) × (when b r ≡ ok o)
when_total false r h = (none, refl)
when_total true r h = let (q, e) = h refl in (some q, ap (when true) e)

median_total : (values : List Decimal) → (q : Decimal) × (median values ≡ ok q)
unfolding median
median_total values =
    let ordered = sort dec_leb values in
    let n = length values in
    elim (Bool-cases (n % 2 == 1)) [
      | inl odd ↦ (at_index ordered (n / 2), rw odd refl)
      | inr even ↦
          let (q, e) =
            divide-whole (at_index ordered (n / 2 - 1) ⊕ at_index ordered (n / 2)) 2
              (omega arith) in
          (q, rw even e)
    ]

-- The summary of a group returns, and counts its closed trades.
summarize_total :
    (trades : List TradeRecord)
    → (m : TradeMetrics) × (summarize trades ≡ ok m) × (m.trade_count ≡ tally is_closed trades)
unfolding summarize
summarize_total trades =
    let values = map net_r_of (keep is_closed trades) in
    let count = length values in
    let profits = dec_sum (whole 0) (keep is_gain values) in
    let losses = negate (dec_sum (whole 0) (keep is_loss values)) in
    let (rate, e₁) =
      when_total (not (count == 0)) (divide (whole (length (keep is_gain values))) (whole count))
        (λ h. divide-whole (whole (length (keep is_gain values))) count (positive count h)) in
    let (mean, e₂) =
      when_total (not (count == 0)) (divide (dec_sum (whole 0) values) (whole count))
        (λ h. divide-whole (dec_sum (whole 0) values) count (positive count h)) in
    let (factor, e₃) =
      when_total (not (dec_eqb losses (whole 0))) (divide profits losses)
        (λ h. divide_total profits losses (off (dec_eqb losses (whole 0)) h)) in
    let (middle, e₄) = when_total (not (count == 0)) (median values) (λ h. median_total values) in
    (
      record {
        trade_count = count;
        win_rate = rate;
        mean_net_r = mean;
        median_net_r = middle;
        gross_profit_r = profits;
        gross_loss_r = losses;
        profit_factor = factor;
        cumulative_net_r = dec_sum (whole 0) values;
        maximum_drawdown_r = maximum_drawdown values;
        total_cost = dec_sum (whole 0) (map cost_of (keep is_closed trades));
        status_counts = count_texts (map status_text trades);
        exit_reason_counts = count_texts (map (λ t. reason_text t.exit_reason) trades);
      },
      rw (e₁, e₂, e₃, e₄) refl,
      length-map net_r_of (keep is_closed trades) ∙ length-keep is_closed trades,
    )
  where
    positive : (n : ℕ) → not (n == 0) ≡ true → 1 ≤ n
    positive n h = ground arith

    off : (b : Bool) → not b ≡ true → b ≡ false
    off b h = ground arith

abbrev pub sum_counts : List (String × TradeMetrics) → ℕ
sum_counts [] = 0
sum_counts (g ∷ gs) = g.1.trade_count + sum_counts gs

summarize_groups_total :
    (key : TradeRecord → String) (trades : List TradeRecord) (ks : List String)
    → (gs : List (String × TradeMetrics)) × (summarize_groups key trades ks ≡ ok gs)
      × (sum_counts gs ≡ shared key is_closed ks trades)
unfolding summarize_groups
summarize_groups_total key trades [] = ([], refl, refl)
summarize_groups_total key trades (k ∷ ks) =
    let (m, found, count) = summarize_total (keep (λ t. str_eq (key t) k) trades) in
    let (gs, rest, sum) = summarize_groups_total key trades ks in
    ((k, m) ∷ gs, rw (found, rest) refl, omega (arith, count, sum))

groups_share :
    (key : TradeRecord → String) (trades : List TradeRecord)
    → (gs : List (String × TradeMetrics)) × (summarize_groups key trades (group_keys key trades)
        ≡ ok gs)
      × (sum_counts gs ≡ tally is_closed trades)
unfolding group_keys
groups_share key trades =
    let (gs, ran, sum) = summarize_groups_total key trades (group_keys key trades) in
    (gs, ran, sum ∙ shared-distinct key is_closed trades)

-- The summary of a backtest returns, whatever the evaluations and the trades. The number of trades is
-- that of the closed ones, and the groups by instrument share it out, as those by direction do: their
-- numbers of trades add up to it. The counts of the decisions by status add up to the number of
-- evaluations.
pub summarize_backtest_shares :
    (evaluations : List ReplayEvaluation) (trades : List TradeRecord)
    → (r : MetricsReport) × (summarize_backtest evaluations trades ≡ ok r)
      × (r.overall.trade_count ≡ length (keep is_closed trades))
      × (sum_counts r.by_instrument ≡ r.overall.trade_count)
      × (sum_counts r.by_direction ≡ r.overall.trade_count)
      × (sum_entries r.decision_status_counts ≡ length evaluations)
unfolding summarize_backtest summarize_trades summarize_overall
summarize_backtest_shares evaluations trades =
    let ordered = sort trade_le trades in
    let (overall, e, count) = summarize_total ordered in
    let (instruments, e₁, sum₁) = groups_share (λ t. t.instrument_id) ordered in
    let (directions, e₂, sum₂) = groups_share direction_key ordered in
    (
      record {
        overall = overall;
        by_instrument = instruments;
        by_direction = directions;
        decision_status_counts = count_texts (map status_key evaluations);
        unavailable_reason_counts = count_texts (unavailable_signals evaluations);
      },
      rw (e, e₁, e₂) refl,
      count ∙ tally-sort trade_le is_closed trades ∙ sym (length-keep is_closed trades),
      sum₁ ∙ sym count,
      sum₂ ∙ sym count,
      sum_entries-count_texts (map status_key evaluations) ∙ length-map status_key evaluations,
    )

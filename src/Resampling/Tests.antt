-- ===== src/Resampling/Tests.antt =====
-- Five minutes make a candle of five minutes.
use smc_ict_engine.Prelude.{ℕ, ◌+◌, ◌≡◌, refl, none, some, List, [], ◌∷◌, All, ok}
use smc_ict_engine.Prelude.Sort.{sort, insert_sorted}
use smc_ict_engine.Decimal.{
  whole, dec_ltb, dec_leb, dec_eqb, dec_max, dec_min, dec_sum, ◌⊕◌, round, digit_count, half_even,
}
use smc_ict_engine.Domain.{
  ClosedCandle, SourceValue, Timeframe, duration_minutes, timeframe_eqb, is_instrument_id,
  count_groups, is_identifier_code,
}
use smc_ict_engine.Resampling.{
  DerivedCandle, resample_complete, resample, same_market, fill_buckets, add_row, derive_all,
  is_partial, derive, checked_derived, plain_decimal, has_exponent, sum_decimal, sum_quotes,
}
use smc_ict_engine.Resampling.Bars.{IsBar, resample_complete-IsBar}

abbrev minute_candle : (open_time high low : ℕ) → ClosedCandle
minute_candle t high low = record {
  provider_id = "okx_swap";
  market_type = "LINEAR_PERPETUAL";
  instrument_id = "BTC-USDT-PERP";
  provider_symbol = "BTC-USDT-SWAP";
  interval = "1m";
  open_time_ms = t;
  close_time_ms = t + 59_999;
  opening = whole 100;
  high = whole high;
  low = whole low;
  closing = whole 101;
  base_volume = whole 2;
  quote_volume = none;
  source_fields = ("contract_volume", SourceValue.amount (whole 1)) ∷ [];
}

-- The last candle is not closed by the evaluation time.
abbrev sample_candles : List ClosedCandle
sample_candles =
    minute_candle 300_000 110 90
    ∷ minute_candle 360_000 111 90
    ∷ minute_candle 420_000 130 95
    ∷ minute_candle 480_000 110 80
    ∷ minute_candle 540_000 110 90
    ∷ minute_candle 600_000 190 90
    ∷ []

abbrev sample_bars : List DerivedCandle
sample_bars =
    record {
      instrument_id = "BTC-USDT-PERP";
      interval = Timeframe.m5;
      open_time_ms = 300_000;
      close_time_ms = 599_999;
      opening = whole 100;
      high = whole 130;
      low = whole 80;
      closing = whole 101;
      base_volume = whole 10;
      quote_volume = none;
    }
    ∷ []

sample_resampled : resample_complete sample_candles Timeframe.m5 (some 600_000) ≡ ok sample_bars
unfolding resample_complete resample same_market fill_buckets add_row derive_all is_partial derive
    checked_derived plain_decimal has_exponent sum_decimal sum_quotes sort insert_sorted dec_ltb
    dec_leb dec_eqb dec_max dec_min dec_sum ◌⊕◌ round digit_count half_even duration_minutes
    timeframe_eqb is_instrument_id count_groups is_identifier_code
sample_resampled = refl

resample_complete-IsBar_example : All (IsBar Timeframe.m5 (some 600_000) sample_candles) sample_bars
resample_complete-IsBar_example =
    resample_complete-IsBar sample_candles Timeframe.m5 (some 600_000) sample_bars sample_resampled

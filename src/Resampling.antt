-- ===== src/Resampling.antt =====
-- application/resampling.py: complete higher-timeframe candles from one-minute candles.
mod Buckets
pub mod Bars
pub mod Tests
use smc_ict_engine.Prelude.{
  ℕ, zero, suc, ◌+◌, ◌-◌, ◌*◌, ◌%◌, ◌^◌, Bool, true, false, not, ◌&&◌, ◌||◌, Option, none, some,
  String, List, [], ◌∷◌, ◌++◌, ltb, ◌==◌, str_eq, if◌then◌else◌, length, last, all, any, map,
  is_some, assign, Result, ok, err, Error, value_error, ◌>>=◌, ◌>>◌, raise_if,
}
use smc_ict_engine.Prelude.Sort.{sort}
use smc_ict_engine.Decimal.{Decimal, whole, dec_ltb, dec_eqb, dec_max, dec_min, dec_sum}
use smc_ict_engine.Decimal.Int.{pos}
use smc_ict_engine.Domain.{
  ClosedCandle, Timeframe, duration_minutes, timeframe_eqb, minute_ms, is_instrument_id,
}

pub record DerivedCandle : Type 0 where
  pub instrument_id : String
  pub interval : Timeframe
  pub open_time_ms : ℕ
  pub close_time_ms : ℕ
  pub opening : Decimal
  pub high : Decimal
  pub low : Decimal
  pub closing : Decimal
  pub base_volume : Decimal
  pub quote_volume : Option Decimal

abbrev pub duration_ms : Timeframe → ℕ
duration_ms t = duration_minutes t * minute_ms

-- `DerivedCandle.__post_init__`, whose texts are canonical by then
unfoldable pub checked_derived : DerivedCandle → Result DerivedCandle
unfolding duration_minutes timeframe_eqb
checked_derived d = do
  raise_if (not (is_instrument_id d.instrument_id)) value_error
  raise_if (timeframe_eqb d.interval Timeframe.m1) value_error
  raise_if (not (d.open_time_ms % duration_ms d.interval == 0)) value_error
  raise_if (not (d.close_time_ms + 1 == d.open_time_ms + duration_ms d.interval)) value_error
  ok d

-- `str` writes a canonical decimal below a millionth with an exponent, which `DecimalText` refuses.
unfoldable pub has_exponent : Decimal → Bool
unfolding dec_eqb dec_ltb
has_exponent d = not (dec_eqb d (whole 0)) && dec_ltb d (record { mantissa = pos 1; scale = 6 })

-- `str(DecimalText(str(d)))`
unfoldable pub plain_decimal : Decimal → Result Decimal
unfolding has_exponent
plain_decimal d = if has_exponent d then err value_error else ok d

-- `_sum_decimal`: `format(total, "f")` of a sum of 64-character texts is too long only if its whole
-- part is.
unfoldable pub sum_decimal : List Decimal → Result Decimal
unfolding dec_ltb dec_sum
sum_decimal ds =
    let total = dec_sum (whole 0) ds in
    if dec_ltb total (whole (10 ^ 64)) then ok total else err value_error

abbrev pub Bucket : Type 0
Bucket = ℕ × List ClosedCandle

-- `buckets[start].append(candle)`
unfoldable pub add_row : ℕ → ClosedCandle → List Bucket → List Bucket
add_row start c [] = (start, c ∷ []) ∷ []
add_row start c ((k, rows) ∷ rest) =
    let later = add_row start c rest in
    if k == start then (k, rows ++ c ∷ []) ∷ rest else (k, rows) ∷ later

abbrev pub closes_after : Option ℕ → ClosedCandle → Bool
closes_after none c = false
closes_after (some time) c = ltb time c.close_time_ms

-- The loop over the candles.
unfoldable pub fill_buckets : Timeframe → Option ℕ → List Bucket → List ClosedCandle → List Bucket
unfolding add_row
fill_buckets t time buckets [] = buckets
fill_buckets t time buckets (c ∷ cs) =
    let skipped = fill_buckets t time buckets cs in
    let start = c.open_time_ms - c.open_time_ms % duration_ms t in
    let added = fill_buckets t time (add_row start c buckets) cs in
    if closes_after time c then skipped else added

abbrev pub highest : Decimal → List ClosedCandle → Decimal
highest d [] = d
highest d (c ∷ cs) = highest (dec_max d c.high) cs

abbrev pub lowest : Decimal → List ClosedCandle → Decimal
lowest d [] = d
lowest d (c ∷ cs) = lowest (dec_min d c.low) cs

-- The quote volumes, if every row has one.
abbrev pub quote_volumes : List ClosedCandle → Option (List Decimal)
quote_volumes [] = some []
quote_volumes (c ∷ cs) = elim c.quote_volume [
  | none ↦ none
  | some v ↦ elim (quote_volumes cs) [ none ↦ none | some vs ↦ some (v ∷ vs) ]
]

unfoldable pub sum_quotes : Option (List Decimal) → Result (Option Decimal)
unfolding sum_decimal
sum_quotes none = ok none
sum_quotes (some vs) = elim (sum_decimal vs) [ ok v ↦ ok (some v) | err e ↦ err e ]

-- The candle of a full bucket.
unfoldable pub derive : Timeframe → ℕ → ClosedCandle → List ClosedCandle → Result DerivedCandle
unfolding sum_quotes sum_decimal plain_decimal checked_derived
derive t start c cs = do
  quote ← sum_quotes (quote_volumes (c ∷ cs))
  high ← plain_decimal (highest c.high cs)
  low ← plain_decimal (lowest c.low cs)
  base ← sum_decimal (map (λ r. r.base_volume) (c ∷ cs))
  checked_derived (record {
    instrument_id = c.instrument_id;
    interval = t;
    open_time_ms = start;
    close_time_ms = start + duration_ms t - 1;
    opening = c.opening;
    high = high;
    low = low;
    closing = (last c cs).closing;
    base_volume = base;
    quote_volume = quote;
  })

-- The bucket does not have every minute.
unfoldable pub is_partial : Timeframe → ℕ → ClosedCandle → List ClosedCandle → Bool
unfolding duration_minutes
is_partial t start c cs =
    not (length (c ∷ cs) == duration_minutes t)
    || not (c.open_time_ms == start)
    || not ((last c cs).close_time_ms + 1 == start + duration_ms t)

-- The loop over the buckets.
unfoldable pub derive_all : Timeframe → List Bucket → Result (List DerivedCandle)
unfolding derive is_partial
derive_all t [] = ok []
derive_all t ((start, []) ∷ rest) = derive_all t rest
derive_all t ((start, c ∷ cs) ∷ rest) =
    if is_partial t start c cs then derive_all t rest else elim (derive t start c cs) [
      | err e ↦ err e
      | ok d ↦ elim (derive_all t rest) [ err e ↦ err e | ok ds ↦ ok (d ∷ ds) ]
    ]

unfoldable pub same_market : ClosedCandle → ClosedCandle → Bool
same_market c d =
    str_eq d.provider_id c.provider_id
    && str_eq d.market_type c.market_type
    && str_eq d.instrument_id c.instrument_id
    && str_eq d.provider_symbol c.provider_symbol

abbrev pub is_contiguous : List ClosedCandle → Bool
is_contiguous [] = true
is_contiguous (c ∷ []) = true
is_contiguous (c ∷ d ∷ cs) = d.open_time_ms == c.open_time_ms + minute_ms && is_contiguous (d ∷ cs)

abbrev pub bucket_le : Bucket → Bucket → Bool
bucket_le a b = not (ltb b.0 a.0)

unfoldable pub resample : Timeframe → Option ℕ → List ClosedCandle → Result (List DerivedCandle)
unfolding same_market fill_buckets derive_all sort
resample t time [] = ok []
resample t time (c ∷ cs) = do
  raise_if (not (all (same_market c) (c ∷ cs))) value_error
  raise_if (not (is_contiguous (c ∷ cs))) value_error
  derive_all t (sort bucket_le (fill_buckets t time [] (c ∷ cs)))

-- `resample_complete`
unfoldable pub resample_complete :
    List ClosedCandle → Timeframe → Option ℕ → Result (List DerivedCandle)
unfolding resample timeframe_eqb
resample_complete candles t time =
    if timeframe_eqb t Timeframe.m1 then err value_error else resample t time candles

-- `resample_roles`. Its cache keeps the bars of a timeframe, which are the same each time.
unfoldable pub resample_roles :
    List ClosedCandle
    → Option ℕ
    → List (String × Timeframe)
    → List (String × List DerivedCandle)
    → Result (List (String × List DerivedCandle))
unfolding resample_complete
resample_roles candles time [] result = ok result
resample_roles candles time ((role, t) ∷ roles) result = do
  raise_if (str_eq role "") value_error
  bars ← resample_complete candles t time
  resample_roles candles time roles (assign role bars result)

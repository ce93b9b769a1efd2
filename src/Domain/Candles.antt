-- ===== src/Domain/Candles.antt =====
-- domain/candles.py: the closed one-minute candle. Decimal texts are modelled by the values that
-- they denote.
use smc_ict_engine.Prelude.{
  ℕ, ◌+◌, ◌%◌, Bool, false, not, ◌&&◌, ◌||◌, Option, none, some, String, List, [], ◌∷◌, leb, ◌==◌,
  str_eq, is_some, if◌then◌else◌, length, lookup, map, true, all, any, Result, ok, value_error,
  ◌>>◌, raise_if,
}
use smc_ict_engine.Decimal.{Decimal, whole, dec_leb, dec_eqb}
use smc_ict_engine.Domain.Values.{codes, is_instrument_id}

-- A value among the provider's extra fields: a count, or a decimal text.
pub data SourceValue : Type 0 where
  integer : ℕ → SourceValue
  amount : Decimal → SourceValue

pub record ClosedCandle : Type 0 where
  pub provider_id : String
  pub market_type : String
  pub instrument_id : String
  pub provider_symbol : String
  pub interval : String
  pub open_time_ms : ℕ
  pub close_time_ms : ℕ
  pub opening : Decimal
  pub high : Decimal
  pub low : Decimal
  pub closing : Decimal
  pub base_volume : Decimal
  pub quote_volume : Option Decimal
  pub source_fields : List (String × SourceValue)

abbrev pub minute_ms : ℕ
minute_ms = 60_000

abbrev pub market_type_name : String
market_type_name = "LINEAR_PERPETUAL"

-- `_PROVIDER_EXTENSIONS`
unfoldable pub extension_fields : String → Option (List String)
extension_fields provider =
    if str_eq provider "binance_usdm"
    then some ("trade_count" ∷ "taker_buy_base_volume" ∷ "taker_buy_quote_volume" ∷ [])
    else if str_eq provider "okx_swap"
    then some ("contract_volume" ∷ [])
    else none

-- `set(values) == expected`, for keys that are distinct
unfoldable pub same_keys : List String → List String → Bool
same_keys xs ys =
    length xs == length ys && all (λ x. any (str_eq x) ys) xs && all (λ y. any (str_eq y) xs) ys

abbrev is_integer : Option SourceValue → Bool
is_integer (some (integer n)) = true
is_integer _ = false

abbrev is_amount : Option SourceValue → Bool
is_amount (some (amount d)) = true
is_amount _ = false

-- `_validated_source_fields`: the provider's keys, a count for `trade_count`, decimals elsewhere.
unfoldable pub expects_fields : ClosedCandle → Bool
unfolding extension_fields same_keys
expects_fields c = elim (extension_fields c.provider_id) [
  | none ↦ false
  | some keys ↦
      same_keys (map (λ f. f.0) c.source_fields) keys
      && all
          (λ key.
            if str_eq key "trade_count"
            then is_integer (lookup key c.source_fields)
            else is_amount (lookup key c.source_fields))
          keys
]

abbrev value_eqb : SourceValue → SourceValue → Bool
value_eqb (integer m) (integer n) = m == n
value_eqb (amount a) (amount b) = dec_eqb a b
value_eqb _ _ = false

abbrev amount_eqb : Option Decimal → Option Decimal → Bool
amount_eqb none none = true
amount_eqb (some a) (some b) = dec_eqb a b
amount_eqb _ _ = false

-- Dicts are equal if they have the same keys with the same values.
abbrev fields_eqb : List (String × SourceValue) → List (String × SourceValue) → Bool
fields_eqb xs ys =
    length xs == length ys
    && all (λ f. elim (lookup f.0 ys) [ none ↦ false | some v ↦ value_eqb f.1 v ]) xs

-- A price is out of place if it is below the low or above the high.
unfoldable pub outside : ClosedCandle → Decimal → Bool
outside c price = not (dec_leb c.low price && dec_leb price c.high)

unfoldable pub not_positive : Decimal → Bool
not_positive price = dec_leb price (whole 0)

unfoldable pub has_symbol_length : String → Bool
has_symbol_length s = leb 1 (length (codes s)) && leb (length (codes s)) 64

-- `ClosedCandle.__post_init__`
unfoldable pub checked_candle : ClosedCandle → Result ClosedCandle
unfolding expects_fields outside not_positive has_symbol_length
checked_candle c = do
  raise_if (not (is_some (extension_fields c.provider_id))) value_error
  raise_if (not (str_eq c.market_type market_type_name)) value_error
  raise_if (not (is_instrument_id c.instrument_id)) value_error
  raise_if (not (has_symbol_length c.provider_symbol)) value_error
  raise_if (not (str_eq c.interval "1m")) value_error
  raise_if (not (c.open_time_ms % minute_ms == 0)) value_error
  raise_if (not (c.close_time_ms == c.open_time_ms + 59_999)) value_error
  raise_if (any not_positive (c.opening ∷ c.high ∷ c.low ∷ c.closing ∷ [])) value_error
  raise_if (not (dec_leb c.low c.high) || outside c c.opening || outside c c.closing) value_error
  raise_if (not (expects_fields c)) value_error
  ok c

-- `primary_key`
abbrev pub PrimaryKey : Type 0
PrimaryKey = String × String × String × String × ℕ

abbrev pub primary_key : ClosedCandle → PrimaryKey
primary_key c = (c.provider_id, c.market_type, c.instrument_id, c.interval, c.open_time_ms)

abbrev pub same_key : ClosedCandle → ClosedCandle → Bool
same_key c d =
    str_eq c.provider_id d.provider_id
    && str_eq c.market_type d.market_type
    && str_eq c.instrument_id d.instrument_id
    && str_eq c.interval d.interval
    && c.open_time_ms == d.open_time_ms

-- The equality that the dataclass derives from its fields.
unfoldable pub candle_eqb : ClosedCandle → ClosedCandle → Bool
unfolding dec_eqb
candle_eqb c d =
    same_key c d
    && str_eq c.provider_symbol d.provider_symbol
    && c.close_time_ms == d.close_time_ms
    && dec_eqb c.opening d.opening
    && dec_eqb c.high d.high
    && dec_eqb c.low d.low
    && dec_eqb c.closing d.closing
    && dec_eqb c.base_volume d.base_volume
    && amount_eqb c.quote_volume d.quote_volume
    && fields_eqb c.source_fields d.source_fields

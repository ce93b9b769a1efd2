-- ===== src/Sync/Pages.antt =====
-- application/ports/market_data.py and the page checks of application/market_sync.py.
use smc_ict_engine.Prelude.{
  ℕ, ◌+◌, ◌%◌, Bool, true, false, not, ◌&&◌, ◌||◌, Option, none, some, String, List, [], ◌∷◌, ◌++◌,
  leb, ltb, ◌==◌, str_eq, if◌then◌else◌, map, Result, ok, err, value_error, ◌>>=◌, ◌>>◌, raise_if,
}
use smc_ict_engine.Prelude.Sort.{sort}
use smc_ict_engine.Domain.{
  ClosedCandle, minute_ms, market_type_name, same_key, candle_eqb, is_instrument_id,
  has_symbol_length,
}

pub record InstrumentMapping : Type 0 where
  pub instrument_id : String
  pub provider_symbol : String

pub record KlineRequest : Type 0 where
  pub provider_id : String
  pub market_type : String
  pub instrument_id : String
  pub provider_symbol : String
  pub interval : String
  pub start_open_time_ms : ℕ
  pub end_open_time_ms : ℕ

pub record KlinePage : Type 0 where
  pub candles : List ClosedCandle
  pub next_start_open_time_ms : Option ℕ
  pub complete : Bool

-- `KlineRequest.__post_init__`
unfoldable pub checked_request : KlineRequest → Result KlineRequest
checked_request r = do
  raise_if (str_eq r.provider_id "") value_error
  raise_if (not (str_eq r.market_type market_type_name)) value_error
  raise_if (not (is_instrument_id r.instrument_id)) value_error
  raise_if (not (has_symbol_length r.provider_symbol)) value_error
  raise_if (not (str_eq r.interval "1m")) value_error
  raise_if (not (r.start_open_time_ms % minute_ms == 0)) value_error
  raise_if
      (ltb r.end_open_time_ms r.start_open_time_ms || not (r.end_open_time_ms % minute_ms == 0))
      value_error
  ok r

-- The candle is of the requested market and within the requested bounds.
unfoldable pub matches_request : KlineRequest → ClosedCandle → Bool
matches_request r c =
    str_eq c.provider_id r.provider_id
    && str_eq c.market_type r.market_type
    && str_eq c.instrument_id r.instrument_id
    && str_eq c.provider_symbol r.provider_symbol
    && str_eq c.interval r.interval
    && leb r.start_open_time_ms c.open_time_ms
    && leb c.open_time_ms r.end_open_time_ms

-- `by_key.get(candle.primary_key)`, by_key holding each of the candles.
unfoldable pub find_key : ClosedCandle → List ClosedCandle → Option ClosedCandle
find_key c [] = none
find_key c (d ∷ ds) = if same_key d c then some d else find_key c ds

-- A candle with a known key is skipped if it is equal, and is a conflict if it is not.
unfoldable pub add_unique : ClosedCandle → List ClosedCandle → Result (List ClosedCandle)
unfolding find_key
add_unique c unique = elim (find_key c unique) [
  | none ↦ ok (unique ++ c ∷ [])
  | some d ↦ if candle_eqb d c then ok unique else err value_error
]

-- The first loop of `_validate_page`.
unfoldable pub collect_unique :
    KlineRequest → List ClosedCandle → List ClosedCandle → Result (List ClosedCandle)
unfolding matches_request add_unique
collect_unique r unique [] = ok unique
collect_unique r unique (c ∷ cs) = do
  raise_if (not (matches_request r c)) value_error
  unique' ← add_unique c unique
  collect_unique r unique' cs

abbrev pub times_eqb : List ℕ → List ℕ → Bool
times_eqb [] [] = true
times_eqb (x ∷ xs) (y ∷ ys) = x == y && times_eqb xs ys
times_eqb _ _ = false

abbrev pub open_times : List ClosedCandle → List ℕ
open_times = map (λ c. c.open_time_ms)

-- `all(right == left + 60_000 for left, right in pairwise(...))`
abbrev pub follows_each : List ClosedCandle → Bool
follows_each [] = true
follows_each (c ∷ []) = true
follows_each (c ∷ d ∷ cs) = d.open_time_ms == c.open_time_ms + minute_ms && follows_each (d ∷ cs)

-- The checks that follow the loop.
unfoldable pub checked_unique : List ClosedCandle → Result (List ClosedCandle)
unfolding sort
checked_unique [] = err value_error
checked_unique (c ∷ cs) = do
  raise_if (not (times_eqb (open_times (c ∷ cs)) (sort leb (open_times (c ∷ cs))))) value_error
  raise_if (not (follows_each (c ∷ cs))) value_error
  ok (c ∷ cs)

-- `_validate_page`
unfoldable pub validate_page : KlineRequest → KlinePage → Result (List ClosedCandle)
unfolding collect_unique checked_unique
validate_page r page = do unique ← collect_unique r [] page.candles; checked_unique unique

-- ===== src/Persistence/Candles.antt =====
-- adapters/persistence/sqlite.py: the candles of `SQLiteRepository`, and how far each market is
-- complete. A row of the table of candles is a candle. A candle here has the values of its texts, and
-- SQLite compares the texts of the columns: that comparison, and what SQLite accepts as a row (the
-- constraints of the schema), are parameters.
use smc_ict_engine.Prelude.{
  ℕ, ◌+◌, ◌%◌, max, ◌==◌, Bool, false, not, ◌&&◌, ltb, leb, any, Option, none, some, String, List,
  [], ◌∷◌, ◌++◌, map, keep, str_eq, if◌then◌else◌, Result, ok, err, value_error, source_conflict,
  integrity_error, ◌>>=◌,
}
use smc_ict_engine.Prelude.Sort.{sort}
use smc_ict_engine.Prelude.Actions.{Action}
use smc_ict_engine.Domain.{ClosedCandle, same_key, minute_ms}
use smc_ict_engine.Persistence.Tables.{Body, transaction}

-- The provider, the type of market, the instrument and the interval
pub record Market : Type 0 where
  pub provider_id : String
  pub market_type : String
  pub instrument_id : String
  pub interval : String

abbrev pub market_of : ClosedCandle → Market
market_of c = record {
  provider_id = c.provider_id;
  market_type = c.market_type;
  instrument_id = c.instrument_id;
  interval = c.interval;
}

unfoldable pub market_eqb : Market → Market → Bool
market_eqb a b =
    str_eq a.provider_id b.provider_id
    && str_eq a.market_type b.market_type
    && str_eq a.instrument_id b.instrument_id
    && str_eq a.interval b.interval

-- `SyncState`
pub record SyncState : Type 0 where
  pub market : Market
  pub last_completed_open_time_ms : ℕ
  pub last_completed_close_time_ms : ℕ
  pub last_successful_sync_ms : ℕ
  pub last_error : Option String

-- The tables `candles_1m` and `sync_state`
pub record Store : Type 0 where
  pub candles : List ClosedCandle
  pub states : List SyncState

-- `SELECT ... WHERE` the primary key
unfoldable pub find_candle : ClosedCandle → List ClosedCandle → Option ClosedCandle
find_candle c [] = none
find_candle c (r ∷ rs) = if same_key r c then some r else find_candle c rs

unfoldable pub find_state : Market → List SyncState → Option SyncState
find_state m [] = none
find_state m (r ∷ rs) = if market_eqb r.market m then some r else find_state m rs

-- `INSERT ... ON CONFLICT DO UPDATE`
unfoldable pub put_state : SyncState → List SyncState → List SyncState
put_state s [] = s ∷ []
put_state s (r ∷ rs) = if market_eqb r.market s.market then s ∷ rs else r ∷ put_state s rs

-- The open times of a market from a time on, in order
unfoldable pub open_times : Market → (start : ℕ) → List ClosedCandle → List ℕ
unfolding sort market_eqb
open_times m start candles = sort leb (
    map (λ c. c.open_time_ms)
      (keep (λ c. market_eqb (market_of c) m && leb start c.open_time_ms) candles))

-- The loop over the open times: the last of those that follow one another
unfoldable pub completed : (expected : ℕ) → (prefix : Option ℕ) → List ℕ → Option ℕ
completed expected prefix [] = prefix
completed expected prefix (t ∷ ts) =
    let rest = completed (expected + minute_ms) (some t) ts in
    if t == expected then rest else prefix

abbrev pub leaves_gap : Option SyncState → (start : ℕ) → Bool
leaves_gap none start = false
leaves_gap (some s) start = ltb (s.last_completed_open_time_ms + minute_ms) start

-- `max(prefix, existing)`
abbrev pub furthest : ℕ → Option SyncState → ℕ
furthest prefix none = prefix
furthest prefix (some s) = max prefix s.last_completed_open_time_ms

abbrev pub state_at : Market → (open_time sync : ℕ) → SyncState
state_at m open_time sync = record {
  market = m;
  last_completed_open_time_ms = open_time;
  last_completed_close_time_ms = open_time + 59_999;
  last_successful_sync_ms = sync;
  last_error = none;
}

-- `_advance_sync_state`
abbrev pub advanced :
    Market → (sync : ℕ) → (existing : Option SyncState) → (prefix : Option ℕ) → Store → Store
advanced m sync existing none s = s
advanced m sync existing (some prefix) s = record s {
  states = put_state (state_at m (furthest prefix existing) sync) s.states;
}

unfoldable pub advance_sync_state : Market → (sync start : ℕ) → Store → Store
unfolding find_state put_state open_times completed
advance_sync_state m sync start s =
    if leaves_gap (find_state m s.states) start
    then s
    else advanced m sync (find_state m s.states)
        (completed start none (open_times m start s.candles)) s

module _ (accepts : ClosedCandle → Bool) (columns_eqb : ClosedCandle → ClosedCandle → Bool) where
  -- A candle of the page: a new row, or a row that is there with the same columns
  abbrev pub put_candle :
      ClosedCandle → Option ClosedCandle → List ClosedCandle → Result (List ClosedCandle)
  put_candle c none rows = if accepts c then ok (rows ++ c ∷ []) else err integrity_error
  put_candle c (some r) rows = if columns_eqb r c then ok rows else err source_conflict

  unfoldable pub put_page : List ClosedCandle → List ClosedCandle → Result (List ClosedCandle)
  unfolding find_candle
  put_page [] rows = ok rows
  put_page (c ∷ cs) rows = put_candle c (find_candle c rows) rows >>= put_page cs

  unfoldable pub store_page_body :
      Market → List ClosedCandle → (sync start : ℕ) → Body Store (Unit {0})
  unfolding put_page advance_sync_state
  store_page_body m page sync start s = do
    rows ← put_page page s.candles
    ok (tt, advance_sync_state m sync start (record s { candles = rows }))

  -- `store_candle_page`
  unfoldable pub store_candle_page : List ClosedCandle → (sync start : ℕ) → Action Store (Unit {0})
  unfolding store_page_body transaction
  store_candle_page [] sync start s = (err value_error, s)
  store_candle_page (c ∷ cs) sync start s =
      if not (start % minute_ms == 0)
      then (err value_error, s)
      else if any (λ d. not (market_eqb (market_of d) (market_of c))) (c ∷ cs)
      then (err value_error, s)
      else transaction (store_page_body (market_of c) (c ∷ cs) sync start) s

abbrev pub minute_market : (provider_id market_type instrument_id : String) → Market
minute_market provider_id market_type instrument_id = record {
  provider_id = provider_id;
  market_type = market_type;
  instrument_id = instrument_id;
  interval = "1m";
}

abbrev pub opens_before : ClosedCandle → ClosedCandle → Bool
opens_before a b = leb a.open_time_ms b.open_time_ms

-- `load_candles`
unfoldable pub load_candles :
    (provider_id market_type instrument_id : String) → (start end : ℕ) → Store → List ClosedCandle
unfolding sort market_eqb
load_candles provider_id market_type instrument_id start end s = sort opens_before (
    keep
      (λ c.
        market_eqb (market_of c) (minute_market provider_id market_type instrument_id)
        && leb start c.open_time_ms
        && leb c.open_time_ms end)
      s.candles)

-- `load_sync_state`
unfoldable pub load_sync_state :
    (provider_id market_type instrument_id : String) → Store → Option SyncState
unfolding find_state
load_sync_state provider_id market_type instrument_id s =
    find_state (minute_market provider_id market_type instrument_id) s.states

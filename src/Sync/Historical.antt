-- ===== src/Sync/Historical.antt =====
-- application/historical_sync.py: `HistoricalRangeSyncService`, over the service of
-- application/market_sync.py. Hashes of candles are left out.
use smc_ict_engine.Prelude.{
  ℕ, ◌+◌, ◌-◌, ◌/◌, ◌%◌, Bool, true, false, not, ◌||◌, none, some, String, List, [], ◌∷◌, ltb, ◌==◌,
  str_le, length, map, contains, Result, ok,
}
use smc_ict_engine.Prelude.Sort.{sort}
use smc_ict_engine.Decimal.Int.{ℤ, sub_ℕ}
use smc_ict_engine.Domain.{ClosedCandle, minute_ms}
use smc_ict_engine.Sync.Ranges.{TimeRange, historical_missing_ranges}
use smc_ict_engine.Sync.Pages.{InstrumentMapping, follows_each}
use smc_ict_engine.Sync.Service.{
  KlineProvider, CandlePageRepository, Run, pure, lift, raise_when, ◌>>=◌, ◌>>◌, sync_range,
}

pub record HistoricalCandleRepository (S : Type 0) : Type 0 where
  pub store_candle_page :
      List ClosedCandle → (successful_sync_ms required_start_open_ms : ℕ) → S → Result S
  pub load_candles : InstrumentMapping → (start end : ℕ) → S → Result (List ClosedCandle)

-- `_HistoricalSyncRepositoryAdapter`: no sync state is read.
abbrev pub adapter : {S : Type 0} → HistoricalCandleRepository S → CandlePageRepository S
adapter repository = record {
  store_candle_page = repository.store_candle_page;
  load_candles = repository.load_candles;
  load_sync_state = λ mapping s. ok none;
}

pub record InstrumentSyncResult : Type 0 where
  pub candles : List ClosedCandle
  pub existing_rows : ℕ
  pub fetched_rows : ℤ
  pub total_rows : ℕ
  pub gap_count : ℕ

pub record HistoricalSyncReceipt : Type 0 where
  pub provider : String
  pub required_start_ms : ℕ
  pub required_end_ms : ℕ
  pub instruments : List (String × InstrumentSyncResult)

-- `_validate_range` refuses the range.
unfoldable pub is_bad_range : ℕ → ℕ → Bool
is_bad_range start end = not (start % minute_ms == 0) || not (end % minute_ms == 0) || ltb end start

-- The rows that were loaded at last are not the whole range.
unfoldable pub is_incomplete : ℕ → ℕ → List ClosedCandle → Bool
is_incomplete start end complete =
    not (length complete == (end - start) / minute_ms + 1) || not (follows_each complete)

-- A set of the identifiers is smaller than the list.
abbrev pub has_repeated : List String → Bool
has_repeated [] = false
has_repeated (x ∷ xs) = contains xs x || has_repeated xs

abbrev pub mapping_le : InstrumentMapping → InstrumentMapping → Bool
mapping_le a b = str_le a.instrument_id b.instrument_id

abbrev pub lacks_mapping : List InstrumentMapping → Bool
lacks_mapping [] = true
lacks_mapping (m ∷ ms) = has_repeated (map (λ n. n.instrument_id) (m ∷ ms))

module _ {S : Type 0} (provider : KlineProvider) (repository : HistoricalCandleRepository S) where
  -- The loop over the missing ranges. The handler only changes the message of a ValueError.
  unfoldable pub repair_ranges : InstrumentMapping → List TimeRange → Run S (Unit {0})
  unfolding sync_range
  repair_ranges mapping [] = pure tt
  repair_ranges mapping ((first, final) ∷ rest) = do
    sync_range provider (adapter repository) mapping first final
    repair_ranges mapping rest

  abbrev pub load_range : InstrumentMapping → (start end : ℕ) → Run S (List ClosedCandle)
  load_range mapping start end s = some (repository.load_candles mapping start end s, s)

  abbrev pub sync_result : (existing complete : List ClosedCandle) → InstrumentSyncResult
  sync_result existing complete = record {
    candles = complete;
    existing_rows = length existing;
    fetched_rows = sub_ℕ (length complete) (length existing);
    total_rows = length complete;
    gap_count = 0;
  }

  -- `HistoricalRangeSyncService.sync_range`
  unfoldable pub historical_sync_range :
      InstrumentMapping → (start end : ℕ) → Run S InstrumentSyncResult
  unfolding repair_ranges historical_missing_ranges is_bad_range is_incomplete
  historical_sync_range mapping start end = do
    raise_when (is_bad_range start end)
    lift (provider.validate_instrument mapping)
    latest ← lift provider.latest_closed_open_time_ms
    raise_when (ltb latest end)
    existing ← load_range mapping start end
    repair_ranges mapping (historical_missing_ranges existing start end)
    complete ← load_range mapping start end
    raise_when (is_incomplete start end complete)
    pure (sync_result existing complete)

  unfoldable pub sync_each :
      List InstrumentMapping → (start end : ℕ) → Run S (List (String × InstrumentSyncResult))
  unfolding historical_sync_range
  sync_each [] start end = pure []
  sync_each (m ∷ ms) start end = do
    result ← historical_sync_range m start end
    rest ← sync_each ms start end
    pure ((m.instrument_id, result) ∷ rest)

  abbrev pub sync_receipt :
      (start end : ℕ) → List (String × InstrumentSyncResult) → HistoricalSyncReceipt
  sync_receipt start end results = record {
    provider = provider.provider_id;
    required_start_ms = start;
    required_end_ms = end;
    instruments = results;
  }

  -- `HistoricalRangeSyncService.sync_all`
  unfoldable pub sync_all : List InstrumentMapping → (start end : ℕ) → Run S HistoricalSyncReceipt
  unfolding sync_each sort
  sync_all mappings start end = do
    raise_when (is_bad_range start end)
    raise_when (lacks_mapping (sort mapping_le mappings))
    results ← sync_each (sort mapping_le mappings) start end
    pure (sync_receipt start end results)

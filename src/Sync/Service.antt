-- ===== src/Sync/Service.antt =====
-- application/market_sync.py: `MarketSyncService`. The provider and the repository are what the
-- service is given: functions that may answer anything or raise. A raise keeps the state that the
-- repository has by then. `none` stands for fuel that ran out.
use smc_ict_engine.Prelude.{
  ℕ, zero, suc, ◌+◌, ◌-◌, Bool, true, false, not, ◌&&◌, Option, none, some, String, List, [], ◌∷◌,
  leb, ltb, ◌==◌, str_eq, if◌then◌else◌, all, last, Result, ok, err, value_error,
}
use smc_ict_engine.Prelude.Sort.{sort}
use smc_ict_engine.Domain.{ClosedCandle, minute_ms, market_type_name}
use smc_ict_engine.Sync.Ranges.{TimeRange, minute_range, missing_ranges, is_present}
use smc_ict_engine.Sync.Pages.{
  InstrumentMapping, KlineRequest, KlinePage, checked_request, validate_page, add_unique, times_eqb,
  open_times,
}

-- `KlineProvider`. Its answer to a request may depend on how many pages it has served.
pub record KlineProvider : Type 0 where
  pub provider_id : String
  pub validate_instrument : InstrumentMapping → Result (Unit {0})
  pub server_time_ms : Result ℕ
  pub latest_closed_open_time_ms : Result ℕ
  pub fetch_page : ℕ → KlineRequest → Result KlinePage

-- `CandlePageRepository` over a state `S`. Storing a page is atomic: it raises or it is done.
pub record CandlePageRepository (S : Type 0) : Type 0 where
  pub store_candle_page :
      List ClosedCandle → (successful_sync_ms required_start_open_ms : ℕ) → S → Result S
  pub load_candles : InstrumentMapping → (start end : ℕ) → S → Result (List ClosedCandle)
  pub load_sync_state : InstrumentMapping → S → Result (Option ℕ)

-- A computation over the repository's state that may raise.
abbrev pub Run : Type 0 → Type 0 → Type 0
Run S A = S → Option (Result A × S)

module _ {S A : Type 0} where
  abbrev pub pure : A → Run S A
  pure a s = some (ok a, s)

  abbrev pub lift : Result A → Run S A
  lift r s = some (r, s)

module _ {S A B : Type 0} where
  infixl 5 ◌>>=◌ ◌>>◌
  unfoldable pub ◌>>=◌ : Run S A → (A → Run S B) → Run S B
  ◌>>=◌ m f s = elim (m s) [
    | none ↦ none
    | some (ok a, t) ↦ f a t
    | some (err e, t) ↦ some (err e, t)
  ]

  abbrev pub ◌>>◌ : Run S A → Run S B → Run S B
  m >> k = m >>= λ _. k

abbrev pub raise_when : {S : Type 0} → Bool → Run S (Unit {0})
raise_when true = lift (err value_error)
raise_when false = pure tt

-- The variables of the loop in `_sync_missing_range`.
pub record Progress : Type 0 where
  pub current_start : ℕ
  pub current_end : ℕ
  pub requested_cursors : List ℕ
  pub accepted : List ClosedCandle
  pub pages : ℕ

-- What follows the store of an incomplete page: the cursor has to be new, and to be the minute after
-- the page or the minute before it, within the bounds. A page that passed its checks is not empty.
unfoldable pub advance : Progress → Option ℕ → List ClosedCandle → Result Progress
advance p none candles = err value_error
advance p (some cursor) [] = err value_error
advance p (some cursor) (c ∷ cs) =
    let asked = record p { requested_cursors = cursor ∷ p.requested_cursors } in
    if is_present p.requested_cursors cursor
    then err value_error
    else if cursor == (last c cs).open_time_ms + minute_ms && leb cursor p.current_end
    then ok (record asked { current_start = cursor })
    else if cursor + minute_ms == c.open_time_ms && leb p.current_start cursor
    then ok (record asked { current_end = cursor })
    else err value_error

abbrev pub going_on : Result Progress → Result (Progress × Bool)
going_on (ok p) = ok (p, false)
going_on (err e) = err e

-- The end of a round: true if the page was the last.
unfoldable pub after_store : Progress → KlinePage → List ClosedCandle → Result (Progress × Bool)
unfolding advance
after_store p page candles =
    if page.complete
    then ok (p, true)
    else going_on (advance p page.next_start_open_time_ms candles)

-- The loop that merges a page into `accepted`.
unfoldable pub accept_candles : List ClosedCandle → List ClosedCandle → Result (List ClosedCandle)
unfolding add_unique
accept_candles accepted [] = ok accepted
accept_candles accepted (c ∷ cs) = elim (add_unique c accepted) [
  | ok accepted' ↦ accept_candles accepted' cs
  | err e ↦ err e
]

-- `_validate_existing`
unfoldable pub is_of_market : String → InstrumentMapping → ClosedCandle → Bool
is_of_market provider mapping c =
    str_eq c.provider_id provider
    && str_eq c.market_type market_type_name
    && str_eq c.instrument_id mapping.instrument_id
    && str_eq c.provider_symbol mapping.provider_symbol
    && str_eq c.interval "1m"

-- `_validate_sync_state`: what the recorded state says is complete has to be there.
unfoldable pub hides_gap : ℕ → List ℕ → Option ℕ → Bool
unfolding minute_range
hides_gap start present none = false
hides_gap start present (some completed) =
    not (ltb completed start) && not (all (is_present present) (minute_range start completed))

module _ {S : Type 0} (provider : KlineProvider) (repository : CandlePageRepository S)
    (mapping : InstrumentMapping) where
  open repository use {store_candle_page, load_candles, load_sync_state}

  abbrev pub request_for : Progress → KlineRequest
  request_for p = record {
    provider_id = provider.provider_id;
    market_type = market_type_name;
    instrument_id = mapping.instrument_id;
    provider_symbol = mapping.provider_symbol;
    interval = "1m";
    start_open_time_ms = p.current_start;
    end_open_time_ms = p.current_end;
  }

  abbrev pub store : List ClosedCandle → ℕ → ℕ → Run S (Unit {0})
  store candles sync_ms required s = elim (store_candle_page candles sync_ms required s) [
    | ok t ↦ some (ok tt, t)
    | err e ↦ some (err e, s)
  ]

  abbrev pub load : ℕ → ℕ → Run S (List ClosedCandle)
  load start end s = some (load_candles mapping start end s, s)

  -- One round of the loop; true if the page was the last.
  unfoldable pub fetch_round : (sync_ms required : ℕ) → Progress → Run S (Progress × Bool)
  unfolding after_store
  fetch_round sync_ms required p = do
    request ← lift (checked_request (request_for p))
    page ← lift (provider.fetch_page p.pages request)
    candles ← lift (validate_page request page)
    accepted ← lift (accept_candles p.accepted candles)
    store candles sync_ms required
    let merged = record p { accepted = accepted; pages = suc p.pages }
    lift (after_store merged page candles)

  -- `while True`
  unfoldable pub fetch_pages : ℕ → (sync_ms required : ℕ) → Progress → Run S Progress
  unfolding fetch_round
  fetch_pages zero sync_ms required p s = none
  fetch_pages (suc fuel) sync_ms required p s = elim (fetch_round sync_ms required p s) [
    | none ↦ none
    | some (err e, t) ↦ some (err e, t)
    | some (ok (p', true), t) ↦ some (ok p', t)
    | some (ok (p', false), t) ↦ fetch_pages fuel sync_ms required p' t
  ]

  abbrev candle_before : ClosedCandle → ClosedCandle → Bool
  candle_before c d = leb c.open_time_ms d.open_time_ms

  -- `_sync_missing_range`. A round either ends the loop or shortens the bounds, so a round for each
  -- millisecond of the range is enough.
  unfoldable pub sync_missing_range : (start end sync_ms required : ℕ) → Run S (Unit {0})
  unfolding fetch_pages sort minute_range
  sync_missing_range start end sync_ms required = do
    p ← fetch_pages (end - start + 1) sync_ms required (record {
      current_start = start;
      current_end = end;
      requested_cursors = [];
      accepted = [];
      pages = 0;
    })
    raise_when
        (not (times_eqb (open_times (sort candle_before p.accepted)) (minute_range start end)))

  -- The loop over the missing ranges.
  unfoldable pub sync_ranges : List TimeRange → (sync_ms required : ℕ) → Run S (Unit {0})
  unfolding sync_missing_range
  sync_ranges [] sync_ms required = pure tt
  sync_ranges ((first, final) ∷ rest) sync_ms required = do
    sync_missing_range first final sync_ms required
    sync_ranges rest sync_ms required

  -- `sync_range`
  unfoldable pub sync_range : (start end : ℕ) → Run S (List ClosedCandle)
  unfolding sync_ranges missing_ranges is_of_market hides_gap
  sync_range start end = do
    lift (provider.validate_instrument mapping)
    sync_ms ← lift provider.server_time_ms
    latest ← lift provider.latest_closed_open_time_ms
    raise_when (ltb latest end)
    existing ← load start end
    raise_when (not (all (is_of_market provider.provider_id mapping) existing))
    state ← λ s. some (load_sync_state mapping s, s)
    raise_when (hides_gap start (open_times existing) state)
    sync_ranges (missing_ranges start end (open_times existing)) sync_ms start
    ordered ← load start end
    raise_when (not (all (is_of_market provider.provider_id mapping) ordered))
    raise_when (not (times_eqb (open_times ordered) (minute_range start end)))
    pure ordered

-- ===== src/Sync/Progress.antt =====
-- The pagination of `MarketSyncService` ends, whatever the provider and the repository answer.
use smc_ict_engine.Prelude.{
  ℕ, zero, suc, ◌+◌, ◌-◌, ◌≤◌, ◌<◌, Bool, true, false, not, ◌||◌, ◌≡◌, refl, Option, none, some,
  List, [], ◌∷◌, arith, inl, inr, Bool-cases, All, All-map, last, ltb, ◌==◌, ◌%◌, str_eq, Result,
  ok, err, value_error, raise_if-passed, subst, Unpacked, is_some,
}
use smc_ict_engine.Domain.{
  ClosedCandle, minute_ms, is_instrument_id, has_symbol_length, market_type_name,
}
use smc_ict_engine.Sync.Ranges.{TimeRange}
use smc_ict_engine.Sync.Pages.{InstrumentMapping, KlineRequest, KlinePage, checked_request}
use smc_ict_engine.Sync.Service.{
  KlineProvider, CandlePageRepository, Run, lift, raise_when, ◌>>=◌, Progress, advance, after_store,
  going_on, request_for, store, fetch_round, fetch_pages, sync_missing_range, sync_ranges,
  sync_range,
}
use smc_ict_engine.Sync.Checked.{WasAsked, validate_page_sound}

-- A valid request does not end before it starts.
checked_request-ordered :
    (r r' : KlineRequest)
    → checked_request r ≡ ok r'
    → (r ≡ r') × (r.start_open_time_ms ≤ r.end_open_time_ms)
unfolding checked_request
checked_request-ordered r r' e =
    let (_, e₁) = raise_if-passed (str_eq r.provider_id "") value_error _ e in
    let (_, e₂) = raise_if-passed (not (str_eq r.market_type market_type_name)) value_error _ e₁ in
    let (_, e₃) = raise_if-passed (not (is_instrument_id r.instrument_id)) value_error _ e₂ in
    let (_, e₄) = raise_if-passed (not (has_symbol_length r.provider_symbol)) value_error _ e₃ in
    let (_, e₅) = raise_if-passed (not (str_eq r.interval "1m")) value_error _ e₄ in
    let (_, e₆) = raise_if-passed (not (r.start_open_time_ms % minute_ms == 0)) value_error _ e₅ in
    let (ordered, e₇) =
      raise_if-passed
        (ltb r.end_open_time_ms r.start_open_time_ms || not (r.end_open_time_ms % minute_ms == 0))
        value_error (ok r) e₆ in
    subst (λ x. Unpacked (λ v. (r ≡ v) × (r.start_open_time_ms ≤ r.end_open_time_ms)) x) e₇
      (refl, ground arith)

abbrev InBounds : Progress → ClosedCandle → Type 0
InBounds p c = (p.current_start ≤ c.open_time_ms) × (c.open_time_ms ≤ p.current_end)

last-All {ℓ} : {A : Type ℓ} (P : A → Type 0) (x : A) (xs : List A) → P x → All P xs → P (last x xs)
last-All P x [] px h = px
last-All P x (y ∷ ys) px h = last-All P y ys h.0 h.1

-- The bounds that are left are within the old ones, and strictly closer.
abbrev pub Narrows : Progress → Progress → Type 0
Narrows p p' =
    (p'.current_start ≤ p'.current_end)
    × (p'.current_end - p'.current_start < p.current_end - p.current_start)

advance-Narrows :
    (p p' : Progress) (cursor : Option ℕ) (candles : List ClosedCandle)
    → All (InBounds p) candles
    → advance p cursor candles ≡ ok p'
    → Narrows p p'
unfolding advance
advance-Narrows p p' none candles h e = cc
advance-Narrows p p' (some cursor) [] h e = cc
advance-Narrows p p' (some cursor) (c ∷ cs) h e =
    ground (arith, h.0, last-All (InBounds p) c cs h.0 h.1)

after_store-Narrows :
    (p p' : Progress) (page : KlinePage) (candles : List ClosedCandle)
    → All (InBounds p) candles
    → after_store p page candles ≡ ok (p', false)
    → Narrows p p'
unfolding after_store
after_store-Narrows p p' page candles h e = elim (Bool-cases page.complete) [
  | inl complete ↦ absurd (finished (rw complete at e))
  | inr more ↦ advanced (advance p page.next_start_open_time_ms candles) refl (rw more at e)
]
  where
    finished : ◌≡◌ {A = Result (Progress × Bool)} (ok (p, true)) (ok (p', false)) → ⊥
    finished e = cc

    advanced :
        (r : Result Progress)
        → advance p page.next_start_open_time_ms candles ≡ r
        → going_on r ≡ ok (p', false)
        → Narrows p p'
    advanced (err x) made e = cc
    advanced (ok q) made e =
        let same : q ≡ p' = cc in
        subst (Narrows p) same (advance-Narrows p q page.next_start_open_time_ms candles h made)

-- A computation that ends, by a value or by a raise, from every state.
pub record Settles {S A : Type 0} (m : Run S A) : Type 0 where
  pub at : (s : S) → is_some (m s) ≡ true

pub bind-Settles :
    {S A B : Type 0} (m : Run S A) (f : A → Run S B)
    → Settles m
    → ((a : A) → Settles (f a))
    → Settles (m >>= f)
unfolding ◌>>=◌
bind-Settles {S} {A} m f h k = record { at = λ s. settled (m s) (h.at s) }
  where
    settled :
        (o : Option (Result A × S))
        → is_some o ≡ true
        → is_some
            (elim o [ none ↦ none | some (ok a, t) ↦ f a t | some (err e, t) ↦ some (err e, t) ])
          ≡ true
    settled none h = cc
    settled (some (ok a, t)) h = (k a).at t
    settled (some (err e, t)) h = refl

pub lift-Settles : {S A : Type 0} (r : Result A) → Settles {S = S} (lift r)
lift-Settles r = record { at = λ s. refl }

pub raise_when-Settles : {S : Type 0} (test : Bool) → Settles {S = S} (raise_when test)
raise_when-Settles true = record { at = λ s. refl }
raise_when-Settles false = record { at = λ s. refl }

lift-eq-ok : {S A : Type 0} (r : Result A) (s t : S) (a : A) → lift r s ≡ some (ok a, t) → r ≡ ok a
lift-eq-ok r s t a e = cc

pub outcome_of :
    {S A : Type 0} (o : Option (Result A × S))
    → is_some o ≡ true
    → (outcome : Result A) × (t : S) × (o ≡ some (outcome, t))
outcome_of none h = cc
outcome_of (some (outcome, t)) h = (outcome, t, refl)

pub run-eq-ok :
    {S A B : Type 0} (m : Run S A) (f : A → Run S B) (s t : S) (b : B)
    → (m >>= f) s ≡ some (ok b, t)
    → (a : A) × (u : S) × (m s ≡ some (ok a, u)) × (f a u ≡ some (ok b, t))
unfolding ◌>>=◌
run-eq-ok {S} {A} m f s t b = ran (m s)
  where
    ran :
        (o : Option (Result A × S))
        → elim o [ none ↦ none | some (ok a, u) ↦ f a u | some (err e, u) ↦ some (err e, u) ]
          ≡ some (ok b, t)
        → (a : A) × (u : S) × (o ≡ some (ok a, u)) × (f a u ≡ some (ok b, t))
    ran none e = cc
    ran (some (ok a, u)) e = (a, u, refl, e)
    ran (some (err x, u)) e = cc

module _ {S : Type 0} (provider : KlineProvider) (repository : CandlePageRepository S)
    (mapping : InstrumentMapping) where
  store-Settles :
      (candles : List ClosedCandle) (sync_ms required : ℕ)
      → Settles (store provider repository mapping candles sync_ms required)
  store-Settles candles sync_ms required = record {
    at = λ s. stored s (repository.store_candle_page candles sync_ms required s);
  }
    where
      stored :
          (s : S) (r : Result S)
          → is_some {A = Result (Unit {0}) × S}
              (elim r [ ok t ↦ some (ok tt, t) | err e ↦ some (err e, s) ])
            ≡ true
      stored s (ok t) = refl
      stored s (err e) = refl

  fetch_round-Settles :
      (sync_ms required : ℕ) (p : Progress)
      → Settles (fetch_round provider repository mapping sync_ms required p)
  unfolding fetch_round
  fetch_round-Settles sync_ms required p = bind-Settles _ _ (lift-Settles _) λ request.
      bind-Settles _ _ (lift-Settles _) λ page. bind-Settles _ _ (lift-Settles _) λ candles.
        bind-Settles _ _ (lift-Settles _)
          λ accepted. bind-Settles _ _ (store-Settles candles sync_ms required) λ _. lift-Settles _

  fetch_round-Narrows :
      (sync_ms required : ℕ) (p p' : Progress) (s t : S)
      → fetch_round provider repository mapping sync_ms required p s ≡ some (ok (p', false), t)
      → Narrows p p'
  unfolding fetch_round
  fetch_round-Narrows sync_ms required p p' s t e =
      let (request, s₁, asked, e₁) = run-eq-ok _ _ s t (p', false) e in
      let (page, s₂, served, e₂) = run-eq-ok _ _ s₁ t (p', false) e₁ in
      let (candles, s₃, valid, e₃) = run-eq-ok _ _ s₂ t (p', false) e₂ in
      let (accepted, s₄, merged, e₄) = run-eq-ok _ _ s₃ t (p', false) e₃ in
      let (_, s₅, stored, e₅) = run-eq-ok _ _ s₄ t (p', false) e₄ in
      let (same, ordered) =
        checked_request-ordered (request_for provider repository mapping p) request
          (lift-eq-ok _ s s₁ request asked) in
      let within =
        All-map (λ c h. within_bounds request c same h) candles
          (validate_page_sound request page candles (lift-eq-ok _ s₂ s₃ candles valid)).2 in
      after_store-Narrows (record p { accepted = accepted; pages = suc p.pages }) p' page candles
        within (lift-eq-ok _ s₅ t (p', false) e₅)
    where
      within_bounds :
          (request : KlineRequest) (c : ClosedCandle)
          → request_for provider repository mapping p ≡ request
          → WasAsked request c
          → InBounds p c
      within_bounds request c same h = ground arith

  -- A round of fuel for each millisecond between the bounds, and one more, is enough.
  fetch_pages-Settles :
      (fuel sync_ms required : ℕ) (p : Progress)
      → p.current_end - p.current_start < fuel
      → Settles (fetch_pages provider repository mapping fuel sync_ms required p)
  unfolding fetch_pages
  fetch_pages-Settles zero sync_ms required p h = absurd (omega arith)
  fetch_pages-Settles (suc fuel) sync_ms required p h = record {
    at = λ s.
        settled s (fetch_round provider repository mapping sync_ms required p s) refl
          ((fetch_round-Settles sync_ms required p).at s)
          (λ p' narrow. fetch_pages-Settles fuel sync_ms required p' (omega (arith, narrow.1)));
  }
    where
      settled :
          (s : S) (o : Option (Result (Progress × Bool) × S))
          → fetch_round provider repository mapping sync_ms required p s ≡ o
          → is_some o ≡ true
          → ((p' : Progress)
              → Narrows p p'
              → Settles (fetch_pages provider repository mapping fuel sync_ms required p'))
          → is_some {A = Result Progress × S} (elim o [
            | none ↦ none
            | some (err e, t) ↦ some (err e, t)
            | some (ok (p', true), t) ↦ some (ok p', t)
            | some (ok (p', false), t) ↦
                fetch_pages provider repository mapping fuel sync_ms required p' t
          ])
            ≡ true
      settled s none e h k = cc
      settled s (some (err x, t)) e h k = refl
      settled s (some (ok (p', true), t)) e h k = refl
      settled s (some (ok (p', false), t)) e h k =
          (k p' (fetch_round-Narrows sync_ms required p p' s t e)).at t

  sync_missing_range-Settles :
      (start end sync_ms required : ℕ)
      → Settles (sync_missing_range provider repository mapping start end sync_ms required)
  unfolding sync_missing_range
  sync_missing_range-Settles start end sync_ms required =
      bind-Settles _ _ (fetch_pages-Settles (end - start + 1) sync_ms required _ (omega arith))
        (λ p. raise_when-Settles _)

  sync_ranges-Settles :
      (ranges : List TimeRange) (sync_ms required : ℕ)
      → Settles (sync_ranges provider repository mapping ranges sync_ms required)
  unfolding sync_ranges
  sync_ranges-Settles [] sync_ms required = record { at = λ s. refl }
  sync_ranges-Settles ((first, final) ∷ rest) sync_ms required =
      bind-Settles _ _ (sync_missing_range-Settles first final sync_ms required)
        (λ _. sync_ranges-Settles rest sync_ms required)

  pub sync_range-Settles :
      (start end : ℕ) → Settles (sync_range provider repository mapping start end)
  unfolding sync_range
  sync_range-Settles start end = bind-Settles _ _ (lift-Settles _) λ _.
      bind-Settles _ _ (lift-Settles _) λ sync_ms. bind-Settles _ _ (lift-Settles _) λ latest.
        bind-Settles _ _ (raise_when-Settles _) λ _.
          bind-Settles _ _ (record { at = λ s. refl })
            λ existing. bind-Settles _ _ (raise_when-Settles _) λ _.
              bind-Settles _ _ (record { at = λ s. refl })
                λ state. bind-Settles _ _ (raise_when-Settles _) λ _.
                  bind-Settles _ _ (sync_ranges-Settles _ sync_ms start) λ _.
                    bind-Settles _ _ (record { at = λ s. refl })
                      λ ordered.
                        bind-Settles _ _ (raise_when-Settles _) λ _.
                          bind-Settles _ _ (raise_when-Settles _) λ _. record { at = λ s. refl }

  -- The synchronization of a range ends, by a result or by a raise, whatever the provider answers
  -- and whatever the repository holds.
  pub sync_range_settles :
      (start end : ℕ) (s : S)
      → (outcome : Result (List ClosedCandle)) × (t : S) × (sync_range provider repository mapping
            start end s
          ≡ some (outcome, t))
  sync_range_settles start end s = outcome_of _ ((sync_range-Settles start end).at s)

-- ===== src/Sync/Checked.antt =====
-- What a page that passed `_validate_page` is: all of it was asked for, and it has no gap.
use smc_ict_engine.Prelude.{
  ◌+◌, ◌≤◌, true, not, ◌≡◌, ◌≢◌, refl, Option, none, some, List, [], ◌∷◌, ◌++◌, arith, inl, inr,
  Bool-cases, All, All-append, Chain, ok, err, bind-eq-ok, value_error, subst, err-ne-ok,
  if◌then◌else◌, raise_if-passed, not-false, Unpacked, eq_iff,
}
use mathlib.Core.List.{cons≢nil}
use smc_ict_engine.Domain.{ClosedCandle, minute_ms, candle_eqb}
use smc_ict_engine.Sync.Pages.{
  KlineRequest, KlinePage, matches_request, find_key, add_unique, collect_unique, follows_each,
  checked_unique, validate_page,
}

add_unique-All :
    (P : ClosedCandle → Type 0) (c : ClosedCandle) (unique unique' : List ClosedCandle)
    → P c
    → All P unique
    → add_unique c unique ≡ ok unique'
    → All P unique'
unfolding add_unique
add_unique-All P c unique unique' pc h e = added (find_key c unique) e
  where
    added :
        (found : Option ClosedCandle)
        → elim found [
          | none ↦ ok (unique ++ c ∷ [])
          | some d ↦ if candle_eqb d c then ok unique else err value_error
        ]
          ≡ ok unique'
        → All P unique'
    added none e = subst (λ r. Unpacked (All P) r) e (All-append P unique (c ∷ []) h (pc, tt))
    added (some d) e = elim (Bool-cases (candle_eqb d c)) [
      | inl same ↦ subst (λ r. Unpacked (All P) r) (rw same at e) h
      | inr other ↦ absurd (err-ne-ok (rw other at e))
    ]

-- The request's market, and its bounds.
abbrev pub WasAsked : KlineRequest → ClosedCandle → Type 0
WasAsked r c =
    (c.provider_id ≡ r.provider_id)
    × (c.market_type ≡ r.market_type)
    × (c.instrument_id ≡ r.instrument_id)
    × (c.provider_symbol ≡ r.provider_symbol)
    × (r.start_open_time_ms ≤ c.open_time_ms)
    × (c.open_time_ms ≤ r.end_open_time_ms)

matches_request-WasAsked :
    (r : KlineRequest) (c : ClosedCandle) → matches_request r c ≡ true → WasAsked r c
unfolding matches_request
matches_request-WasAsked r c h = ground (
  arith,
  eq_iff c.provider_id r.provider_id,
  eq_iff c.market_type r.market_type,
  eq_iff c.instrument_id r.instrument_id,
  eq_iff c.provider_symbol r.provider_symbol,
)

collect_unique-WasAsked :
    (r : KlineRequest) (cs unique done : List ClosedCandle)
    → All (WasAsked r) unique
    → collect_unique r unique cs ≡ ok done
    → All (WasAsked r) done
unfolding collect_unique
collect_unique-WasAsked r [] unique done h e = subst (λ x. Unpacked (All (WasAsked r)) x) e h
collect_unique-WasAsked r (c ∷ cs) unique done h e =
    let (passed, e₁) = raise_if-passed (not (matches_request r c)) value_error _ e in
    let (unique', added, e₂) = bind-eq-ok (add_unique c unique) _ e₁ in
    collect_unique-WasAsked r cs unique' done
      (add_unique-All (WasAsked r) c unique unique'
        (matches_request-WasAsked r c (not-false _ passed)) h added)
      e₂

abbrev pub IsNextMinute : ClosedCandle → ClosedCandle → Type 0
IsNextMinute c d = d.open_time_ms ≡ c.open_time_ms + minute_ms

pub follows_each-Chain : (cs : List ClosedCandle) → follows_each cs ≡ true → Chain IsNextMinute cs
follows_each-Chain [] h = tt
follows_each-Chain (c ∷ []) h = (tt, tt)
follows_each-Chain (c ∷ d ∷ cs) h = (ground arith, follows_each-Chain (d ∷ cs) (ground arith))

checked_unique_lem :
    (unique candles : List ClosedCandle)
    → checked_unique unique ≡ ok candles
    → (unique ≡ candles) × (candles ≢ []) × Chain IsNextMinute candles
unfolding checked_unique
checked_unique_lem [] candles e = cc
checked_unique_lem (c ∷ cs) candles e =
    let (monotonic, e₁) = raise_if-passed _ value_error _ e in
    let (contiguous, e₂) =
      raise_if-passed (not (follows_each (c ∷ cs))) value_error (ok (c ∷ cs)) e₁ in
    subst (λ r. Unpacked (λ l. (c ∷ cs ≡ l) × (l ≢ []) × Chain IsNextMinute l) r) e₂
      (refl, cons≢nil, follows_each-Chain (c ∷ cs) (not-false _ contiguous))

-- A page that passes is not empty, its candles follow one another minute by minute, and each is of
-- the requested market and within the requested bounds.
pub validate_page_sound :
    (r : KlineRequest) (page : KlinePage) (candles : List ClosedCandle)
    → validate_page r page ≡ ok candles
    → (candles ≢ []) × Chain IsNextMinute candles × All (WasAsked r) candles
unfolding validate_page
validate_page_sound r page candles e =
    let (unique, collected, e₁) = bind-eq-ok (collect_unique r [] page.candles) _ e in
    let (same, filled, contiguous) = checked_unique_lem unique candles e₁ in
    (
      filled,
      contiguous,
      subst (All (WasAsked r)) same (collect_unique-WasAsked r page.candles [] unique tt collected),
    )

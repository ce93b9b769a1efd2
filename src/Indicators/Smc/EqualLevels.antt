-- ===== src/Indicators/Smc/EqualLevels.antt =====
-- The equal highs and lows do not look ahead.
use smc_ict_engine.Prelude.{
  ℕ, zero, suc, ◌≤◌, ◌<◌, ◌==◌, ◌≡◌, ◌∙◌, refl, sym, ap, subst, leb, List, [], ◌∷◌, ◌++◌, length,
  drop, take, ok, ◌>>=◌, bind-eq-ok, ok_inj, if◌then◌else◌, false, Bool-cases, inl, inr, Option,
  leb→le, arith,
}
use smc_ict_engine.Decimal.{Decimal}
use smc_ict_engine.Resampling.{DerivedCandle}
use smc_ict_engine.Indicators.Averages.{wilder_atr}
use smc_ict_engine.Indicators.Lookahead.{wilder_atr_prefix, drop_within, length-drop}
use smc_ict_engine.Indicators.Loop.{
  element, enumerate_from, enumerate_prefix, enumerate-Grows, Grows, Grows-refl,
}
use smc_ict_engine.Indicators.Smc.Legs.{Candidate, candidate_at}
use smc_ict_engine.Indicators.Smc.Causal.{candidate_at-append}
use smc_ict_engine.Indicators.Smc.Equal.{
  EqualEvent, EqualLevels, no_levels, compared, equal_step, equal_events,
}

abbrev LevelsGrow : EqualLevels → EqualLevels → Type 0
LevelsGrow = Grows (λ s. s.events)

equal_step-Grows :
    (candles : List DerivedCandle) (averages : List (Option Decimal)) (n : ℕ) (threshold : Decimal)
    (j : ℕ) (bar : DerivedCandle) (s t : EqualLevels)
    → equal_step candles averages n threshold j bar s ≡ ok t
    → LevelsGrow s t
unfolding equal_step
equal_step-Grows candles averages n threshold j bar s t h =
    let (c, found, h₁) = bind-eq-ok (candidate_at candles n j s.leg) _ h in next c h₁
  where
    grown : (c : Candidate) (atr : Option Decimal) → LevelsGrow s (compared threshold j c atr s)
    grown c atr = elim (Bool-cases (c.next_leg == 1)) [
      | inl up ↦ rw up (_, refl)
      | inr down ↦ rw down (_, refl)
    ]

    next :
        (c : Candidate)
        → (if c.next_leg == s.leg
            then ok s
            else (element averages j >>= λ atr. ok (compared threshold j c atr s)))
          ≡ ok t
        → LevelsGrow s t
    next c k = elim (Bool-cases (c.next_leg == s.leg)) [
      | inl same ↦ subst (LevelsGrow s) (ok_inj (rw same at k)) (Grows-refl (λ s. s.events) s)
      | inr other ↦
          let (atr, found, e) = bind-eq-ok (element averages j) _ (rw other at k) in
          subst (LevelsGrow s) (ok_inj e) (grown c atr)
    ]

element-take :
    (n j : ℕ) (values : List (Option Decimal))
    → j < n
    → element (take n values) j ≡ element values j
element-take zero j values h = absurd (omega (arith, h))
element-take (suc n) j [] h = refl
element-take (suc n) zero (v ∷ vs) h = refl
element-take (suc n) (suc j) (v ∷ vs) h = element-take n j vs (omega (arith, h))

equal_step-append :
    (xs ys : List DerivedCandle) (averages : List (Option Decimal)) (n : ℕ) (threshold : Decimal)
    (j : ℕ) (bar : DerivedCandle) (s : EqualLevels)
    → j < length xs
    → equal_step (xs ++ ys) averages n threshold j bar s
      ≡ equal_step xs (take (length xs) averages) n threshold j bar s
unfolding equal_step
equal_step-append xs ys averages n threshold j bar s seen =
    ap
      (λ r. r >>= λ c.
        if c.next_leg == s.leg
        then ok s
        else (element averages j >>= λ atr. ok (compared threshold j c atr s)))
      (candidate_at-append xs ys j seen n s.leg)
    ∙ ap
        (λ q. candidate_at xs n j s.leg >>= λ c.
          if c.next_leg == s.leg then ok s else (q >>= λ atr. ok (compared threshold j c atr s)))
        (sym (element-take (length xs) j averages seen))

not_leb : (a b : ℕ) → leb a b ≡ false → b ≤ a
not_leb a b h = ground arith

drop_past : {A : Type 0} (n : ℕ) (xs : List A) → length xs ≤ n → drop n xs ≡ []
drop_past zero [] h = refl
drop_past zero (x ∷ xs) h = absurd (omega (arith, h))
drop_past (suc n) [] h = refl
drop_past (suc n) (x ∷ xs) h = drop_past n xs (omega (arith, h))

-- The equal highs and lows over the first candles of a series are the first of those over the whole
-- series: no later candle changes one, or takes it back.
pub equal_events_prefix :
    (xs ys : List DerivedCandle) (n : ℕ) (threshold : Decimal) (all : List EqualEvent)
    → equal_events (xs ++ ys) n threshold ≡ ok all
    → (first : List EqualEvent) × (later : List EqualEvent) × (equal_events xs n threshold
        ≡ ok first)
      × (all ≡ first ++ later)
unfolding equal_events
equal_events_prefix xs ys n threshold all h =
    let (averages, averaged, h₁) = bind-eq-ok (wilder_atr (xs ++ ys) 200) _ h in
    let (t, ran, e) =
      bind-eq-ok
        (enumerate_from (equal_step (xs ++ ys) averages n threshold) n (drop n (xs ++ ys))
          no_levels)
        _ h₁ in
    let part = equal_step xs (take (length xs) averages) n threshold in
    let first_averages = wilder_atr_prefix 200 xs ys averages (omega arith) averaged in
    let (u, first, (later, grown)) = by_length averages t ran in
    (
      u.events,
      later,
      ap
            (λ r. r >>= λ a.
              enumerate_from (equal_step xs a n threshold) n (drop n xs) no_levels >>= λ s.
              ok s.events)
            first_averages
          ∙ ap (λ r. r >>= λ s. ok s.events) first,
      sym (ok_inj e) ∙ grown,
    )
  where
    by_length :
        (averages : List (Option Decimal)) (t : EqualLevels)
        → enumerate_from
            (equal_step (xs ++ ys) averages n threshold)
            n
            (drop n (xs ++ ys))
            no_levels
          ≡ ok t
        → (u : EqualLevels) × (enumerate_from
              (equal_step xs (take (length xs) averages) n threshold)
              n
              (drop n xs)
              no_levels
            ≡ ok u)
          × LevelsGrow u t
    by_length averages t ran = elim (Bool-cases (leb n (length xs))) [
      | inl within ↦
          let le = leb→le n (length xs) within in
          enumerate_prefix (λ s. s.events) (equal_step (xs ++ ys) averages n threshold)
            (equal_step xs (take (length xs) averages) n threshold) (length xs) n (drop n xs) ys
            no_levels t (λ j c a seen. equal_step-append xs ys averages n threshold j c a seen)
            (λ j c a b stepped. equal_step-Grows (xs ++ ys) averages n threshold j c a b stepped)
            (omega (arith, length-drop n xs le))
            (ap (λ cs. enumerate_from (equal_step (xs ++ ys) averages n threshold) n cs no_levels)
                (sym (drop_within n xs ys le))
              ∙ ran)
      | inr past ↦ (
        no_levels,
        ap
            (λ cs.
              enumerate_from (equal_step xs (take (length xs) averages) n threshold) n cs no_levels)
            (drop_past n xs (not_leb n (length xs) past)),
        enumerate-Grows (λ s. s.events) (equal_step (xs ++ ys) averages n threshold) n
            (drop n (xs ++ ys)) no_levels t
            (λ j c a b stepped. equal_step-Grows (xs ++ ys) averages n threshold j c a b stepped)
            ran,
      )
    ]

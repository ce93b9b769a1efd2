-- ===== src/Indicators/Ict/Pivots.antt =====
-- The search for pivots returns, and the points of a bar are there.
use smc_ict_engine.Prelude.{
  ℕ, zero, suc, ◌+◌, ◌-◌, ◌≤◌, ◌<◌, ◌≡◌, ◌⊎◌, ◌∙◌, refl, ap, List, [], ◌∷◌, ◌++◌, length, get_elem?,
  map, take, drop, ok, inl, inr, some, none, Option, arith,
}
use smc_ict_engine.Resampling.{DerivedCandle}
use smc_ict_engine.Indicators.Loop.{slice, element_found, total_from}
use smc_ict_engine.Indicators.Smc.Legs.{highest, highest_from, lowest, lowest_from}
use smc_ict_engine.Indicators.Smc.Extremes.{get_elem?_below, get_elem?-slice, lt_of_get_elem?}
use smc_ict_engine.Indicators.Smc.Swing.{PivotKind}
use smc_ict_engine.Indicators.Ict.Zigzag.{
  ZigzagPoint, confirmed_at, pivot_step, pivot_candidates, update_zigzag, point_at,
}
use smc_ict_engine.Indicators.Ict.Structure.{Market, moved, move_points}

module _ (candles : List DerivedCandle) where
  -- The points of a bar change neither the events nor the trend.
  pub move_points_total :
      (index : ℕ) (ds : List PivotKind) (s : Market)
      → index < length candles
      → (t : Market) × (move_points candles index ds s ≡ ok t)
        × (t.events ≡ s.events)
        × (t.trend ≡ s.trend)
  unfolding move_points
  move_points_total index [] s within = (s, refl, refl, refl)
  move_points_total index (d ∷ ds) s within =
      let (x, found) = get_elem?_below candles (index - 1) (omega (arith, within)) in
      let points = update_zigzag s.points (point_at index d x) in
      let (t, ran, same_events, same_trend) = move_points_total index ds (moved points s) within in
      let (e, f) = moved-keeps points s in
      (t, rw (element_found candles (index - 1) x found) ran, same_events ∙ e, same_trend ∙ f)
    where
      moved-keeps :
          (o : Option (List ZigzagPoint)) (s : Market)
          → ((moved o s).events ≡ s.events) × ((moved o s).trend ≡ s.trend)
      moved-keeps none s = (refl, refl)
      moved-keeps (some points) s = (refl, refl)

  module _ (left : ℕ) (positive : 1 ≤ left) where
    prior_some :
        (j : ℕ)
        → left + 1 ≤ j
        → j < length candles
        → (d : DerivedCandle) × (rest : List DerivedCandle) × (slice (j - 1 - left) (j - 1) candles
            ≡ d ∷ rest)
    prior_some j late within =
        let (x, found) = get_elem?_below candles (j - 1 - left) (omega (arith, within)) in
        nonempty (slice (j - 1 - left) (j - 1) candles) x (
          get_elem?-slice (j - 1 - left) (j - 1) 0 candles (omega (arith, late, positive))
          ∙ ap (get_elem? candles) {x = j - 1 - left + 0} (omega arith)
          ∙ found)
      where
        nonempty :
            (ds : List DerivedCandle) (x : DerivedCandle)
            → get_elem? ds 0 ≡ some x
            → (d : DerivedCandle) × (rest : List DerivedCandle) × (ds ≡ d ∷ rest)
        nonempty [] x h = absurd (cc)
        nonempty (d ∷ ds) x h = (d, ds, refl)

    pivot_step_total :
        (j : ℕ) (c : DerivedCandle) (found : List (ℕ × PivotKind))
        → get_elem? candles j ≡ some c
        → left + 1 ≤ j
        → (t : List (ℕ × PivotKind)) × (pivot_step candles left j c found ≡ ok t)
          × (left + 1 ≤ suc j)
    unfolding pivot_step highest lowest
    pivot_step_total j c found here late =
        let within = lt_of_get_elem? candles j c here in
        let (x, at) = get_elem?_below candles (j - 1) (omega (arith, within)) in
        let (d, rest, e) = prior_some j late within in
        (
          found
              ++ confirmed_at j (highest_from d.high (map (λ x. x.high) rest))
                  (lowest_from d.low (map (λ x. x.low) rest)) x c,
          rw (element_found candles (j - 1) x at, e) refl,
          omega (arith, late),
        )

    pub pivot_candidates_total :
        (found : List (ℕ × PivotKind)) × (pivot_candidates candles left ≡ ok found)
    unfolding pivot_candidates
    pivot_candidates_total = elim (drop_cases (left + 1) candles) [
      | inl ends ↦ ([], rw ends refl)
      | inr len ↦
          let (t, ran, _) =
            total_from candles (pivot_step candles left) (λ j s. left + 1 ≤ j) pivot_step_total
              (take (left + 1) candles) (left + 1) (drop (left + 1) candles) [] len
              (take-drop (left + 1) candles) (omega arith) in
          (t, ran)
    ]
      where
        drop_cases : (n : ℕ) (xs : List DerivedCandle) → (drop n xs ≡ []) ⊎ (length (take n xs) ≡ n)
        drop_cases zero xs = inr refl
        drop_cases (suc n) [] = inl refl
        drop_cases (suc n) (x ∷ xs) = elim (drop_cases n xs) [
          | inl e ↦ inl e
          | inr e ↦ inr (ap suc e)
        ]

        take-drop : (n : ℕ) (xs : List DerivedCandle) → take n xs ++ drop n xs ≡ xs
        take-drop zero xs = refl
        take-drop (suc n) [] = refl
        take-drop (suc n) (x ∷ xs) = ap (λ r. x ∷ r) (take-drop n xs)

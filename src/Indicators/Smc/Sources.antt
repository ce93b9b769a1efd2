-- ===== src/Indicators/Smc/Sources.antt =====
-- The extremes of the candles, and the choice of the source of an order block among them.
use smc_ict_engine.Prelude.{
  ℕ, zero, suc, ◌<◌, ◌≡◌, ◌∙◌, refl, sym, ap, subst, List, [], ◌∷◌, ◌++◌, All, append_assoc,
  append-nil, All-append, All-map, length, length-append, get_elem?, ok, ◌>>=◌, true, false,
  Bool-cases, inl, inr, some, none, Option, arith,
}
use smc_ict_engine.Decimal.{Decimal, whole, ◌≼◌, dec_sum}
use smc_ict_engine.Decimal.Order.{≼_refl, ≼_trans, dec_ltb→≼, dec_ltb_false→≼}
use smc_ict_engine.Resampling.{DerivedCandle}
use smc_ict_engine.Indicators.Averages.{true_range}
use smc_ict_engine.Indicators.Defined.{divide-whole, wilder_atr-Defined}
use smc_ict_engine.Indicators.Loop.{element_found, enumerate_from, enumerate_total}
use smc_ict_engine.Indicators.Smc.Extremes.{get_elem?_below, lt_of_get_elem?}
use smc_ict_engine.Indicators.Smc.Swing.{Direction, bullish, bearish}
use smc_ict_engine.Indicators.Smc.Blocks.{
  VolatilityFilter, by_atr, by_cumulative_range, Extremes, Parsing, range_measure, parsed,
  parse_step, parsed_extremes, best_offset, is_better,
}

-- The order by which a source is chosen
abbrev pub AsGood : Direction → Extremes → Extremes → Type 0
AsGood bullish x e = x.lower ≼ e.lower
AsGood bearish x e = e.upper ≼ x.upper

pub AsGood-refl : (d : Direction) (x : Extremes) → AsGood d x x
AsGood-refl bullish x = ≼_refl x.lower
AsGood-refl bearish x = ≼_refl x.upper

AsGood-trans : (d : Direction) (x y z : Extremes) → AsGood d x y → AsGood d y z → AsGood d x z
AsGood-trans bullish x y z h k = ≼_trans x.lower y.lower z.lower h k
AsGood-trans bearish x y z h k = ≼_trans z.upper y.upper x.upper k h

better-AsGood : (d : Direction) (x e : Extremes) → is_better d x e ≡ true → AsGood d x e
unfolding is_better
better-AsGood bullish x e h = dec_ltb→≼ x.lower e.lower h
better-AsGood bearish x e h = dec_ltb→≼ e.upper x.upper h

not_better-AsGood : (d : Direction) (x e : Extremes) → is_better d x e ≡ false → AsGood d e x
unfolding is_better
not_better-AsGood bullish x e h = dec_ltb_false→≼ x.lower e.lower h
not_better-AsGood bearish x e h = dec_ltb_false→≼ e.upper x.upper h

get_elem?-end :
    (front : List Extremes) (x : Extremes) (xs : List Extremes)
    → get_elem? (front ++ x ∷ xs) (length front) ≡ some x
get_elem?-end [] x xs = refl
get_elem?-end (y ∷ front) x xs = get_elem?-end front x xs

-- The choice is among the candidates, and as good as each.
abbrev pub IsBest : Direction → List Extremes → ℕ × Extremes → Type 0
IsBest d all p = (get_elem? all p.0 ≡ some p.1) × All (AsGood d p.1) all

pub best_offset-IsBest :
    (d : Direction) (front : List Extremes) (best : ℕ) (e : Extremes) (offset : ℕ)
    (xs all : List Extremes)
    → length front ≡ offset
    → front ++ xs ≡ all
    → get_elem? all best ≡ some e
    → All (AsGood d e) front
    → IsBest d all (best_offset (is_better d) best e offset xs)
unfolding best_offset
best_offset-IsBest d front best e offset [] all here same found good =
    (found, subst (All (AsGood d e)) (sym (append-nil front) ∙ same) good)
best_offset-IsBest d front best e offset (x ∷ xs) all here same found good =
    elim (Bool-cases (is_better d x e)) [
      | inl better ↦
          rw (better, best_offset)
            (best_offset-IsBest d (front ++ x ∷ []) offset x (suc offset) xs all grown regrouped
              (subst (λ w. get_elem? w offset ≡ some x) same
                (subst (λ o. get_elem? (front ++ x ∷ xs) o ≡ some x) here
                  (get_elem?-end front x xs)))
              (All-append (AsGood d x) front (x ∷ [])
                (All-map (λ y h. AsGood-trans d x e y (better-AsGood d x e better) h) front good)
                (AsGood-refl d x, tt)))
      | inr worse ↦
          rw (worse, best_offset)
            (best_offset-IsBest d (front ++ x ∷ []) best e (suc offset) xs all grown regrouped found
              (All-append (AsGood d e) front (x ∷ []) good (not_better-AsGood d x e worse, tt)))
    ]
  where
    grown : length (front ++ x ∷ []) ≡ suc offset
    grown = omega (arith, here, length-append front (x ∷ []))

    regrouped : (front ++ x ∷ []) ++ xs ≡ all
    regrouped = append_assoc front (x ∷ []) xs ∙ same

-- The extremes that are parsed: one for each candle.
module _ (candles : List DerivedCandle) (filter : VolatilityFilter) where
  measured :
      (filter : VolatilityFilter) (averages : List (Option Decimal)) (j : ℕ) (ranges : List Decimal)
      → j < length averages
      → (m : Option Decimal) × (range_measure filter averages j ranges ≡ ok m)
  measured by_atr averages j ranges h =
      let (m, found) = get_elem?_below averages j h in (m, element_found averages j m found)
  measured by_cumulative_range averages zero ranges h = (none, refl)
  measured by_cumulative_range averages (suc j) ranges h =
      let (m, divided) = divide-whole (dec_sum (whole 0) ranges) (suc j) (omega arith) in
      (some m, ap (λ r. r >>= λ m. ok (some m)) divided)

  abbrev IsParsed : ℕ → Parsing → Type 0
  IsParsed j s = length s.result ≡ j

  parse_step_total :
      (averages : List (Option Decimal)) (j : ℕ) (c : DerivedCandle) (s : Parsing)
      → length averages ≡ length candles
      → get_elem? candles j ≡ some c
      → IsParsed j s
      → (t : Parsing) × (parse_step filter averages j c s ≡ ok t) × IsParsed (suc j) t
  unfolding parse_step
  parse_step_total averages j c s len here h =
      let (m, e) =
        measured filter averages j (s.ranges ++ true_range s.previous_close c ∷ [])
          (omega (arith, len, lt_of_get_elem? candles j c here)) in
      (
        _,
        ap
            (λ r. r >>= λ m. ok (record {
              ranges = s.ranges ++ true_range s.previous_close c ∷ [];
              previous_close = some c.closing;
              result = s.result ++ parsed c m ∷ [];
            }))
            e,
        omega (arith, h, length-append s.result (parsed c m ∷ [])),
      )

  pub parsed_extremes_total :
      (extremes : List Extremes) × (parsed_extremes candles filter ≡ ok extremes)
      × (length extremes ≡ length candles)
  unfolding parsed_extremes
  parsed_extremes_total =
      let (averages, e, len) = wilder_atr-Defined candles 200 (omega arith) in
      let (t, ran, h) =
        enumerate_total candles (parse_step filter averages) IsParsed
          (λ j c s here p. parse_step_total averages j c s len here p)
          (record { ranges = []; previous_close = none; result = [] }) refl in
      (
        t.result,
        ap
              (λ r. r >>= λ a.
                enumerate_from (parse_step filter a) 0 candles
                  (record { ranges = []; previous_close = none; result = [] })
                >>= λ s. ok s.result)
              e
            ∙ ap (λ r. r >>= λ s. ok s.result) ran,
        h,
      )

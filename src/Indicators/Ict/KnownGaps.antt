-- ===== src/Indicators/Ict/KnownGaps.antt =====
-- What holds of the gaps while the loop over the candles runs.
use smc_ict_engine.Prelude.{
  ℕ, suc, ◌≤◌, ◌<◌, ◌==◌, ◌≡◌, ◌⊎◌, ◌∙◌, refl, sym, ap, subst, List, [], ◌∷◌, All, get_elem?, any,
  Bool, true, false, ◌&&◌, Bool-cases, false-true, and_left, inl, inr, some, some_inj, ==→eq, arith,
}
use smc_ict_engine.Decimal.{Decimal, dec_ltb}
use smc_ict_engine.Resampling.{DerivedCandle}
use smc_ict_engine.Indicators.Smc.Swing.{Direction, bullish, bearish}
use smc_ict_engine.Indicators.Ict.Liquidity.{ZoneState, active, partial, is_full, is_active}
use smc_ict_engine.Indicators.Ict.Gaps.{
  Gap, Gaps, is_bullish, is_bearish, direction_eqb, extend_first, add_gap, with_gaps, goes_through,
  enters, fill,
}

and_swap : (a b : Bool) → (a && b) ≡ false → (b && a) ≡ false
and_swap a b e = ground arith

-- The space between the candle of the event and the one before the last
abbrev pub Spans : Direction → (lower upper : Decimal) → (old candle : DerivedCandle) → Type 0
Spans bullish lower upper old c =
    (lower ≡ old.high) × (upper ≡ c.low) × (dec_ltb lower upper ≡ true)
Spans bearish lower upper old c =
    (lower ≡ c.high) × (upper ≡ old.low) × (dec_ltb lower upper ≡ true)

abbrev pub IsSpace : List DerivedCandle → Gap → Type 0
IsSpace candles g =
    (i : ℕ) × (old : DerivedCandle) × (c : DerivedCandle) × (g.event_index ≡ suc (suc i))
    × (get_elem? candles i ≡ some old)
    × (get_elem? candles (suc (suc i)) ≡ some c)
    × Spans g.direction g.lower g.upper old c

-- A gap that no candle from its event on, up to `until`, went through; and if it is active, that none
-- of them entered.
abbrev pub IsOpen : List DerivedCandle → (until : ℕ) → Gap → Type 0
IsOpen candles until g =
    IsSpace candles g
    × ((i : ℕ) (c : DerivedCandle)
        → g.event_index ≤ i
        → i < until
        → get_elem? candles i ≡ some c
        → (goes_through g c ≡ false) × (is_active g.state && enters g c ≡ false))

module _ (candles : List DerivedCandle) where
  -- Full, or open up to an index
  abbrev pub IsKnown : (until : ℕ) → Gap → Type 0
  IsKnown until g = (is_full g.state ≡ true) ⊎ ((g.event_index ≤ until) × IsOpen candles until g)

  abbrev pub AreKnown : (until : ℕ) → List Gap → Type 0
  AreKnown until gaps = All (IsKnown until) gaps

  module _ (i : ℕ) (old c : DerivedCandle) (first : get_elem? candles i ≡ some old)
      (here : get_elem? candles (suc (suc i)) ≡ some c) where
    new_IsKnown :
        (d : Direction) (lower upper : Decimal) (state : ZoneState)
        → Spans d lower upper old c
        → IsKnown (suc (suc i)) (record {
          direction = d;
          lower = lower;
          upper = upper;
          event_index = suc (suc i);
          known_index = suc (suc i);
          state = state;
        })
    new_IsKnown d lower upper state spans = inr (
      omega arith,
      (
        (i, old, c, refl, first, here, spans),
        λ k x after until found. absurd (omega (arith, after, until)),
      ),
    )

    extend_first-AreKnown :
        (d : Direction) (lower upper : Decimal) (gaps : List Gap)
        → Spans d lower upper old c
        → AreKnown (suc (suc i)) gaps
        → AreKnown (suc (suc i)) (extend_first d lower upper (suc (suc i)) gaps)
    unfolding extend_first
    extend_first-AreKnown d lower upper [] spans h = tt
    extend_first-AreKnown d lower upper (g ∷ gs) spans (k, h) =
        elim (Bool-cases (direction_eqb g.direction d)) [
          | inl same ↦ rw same (
            subst
                (λ x. IsKnown (suc (suc i)) (record {
                  direction = x;
                  lower = lower;
                  upper = upper;
                  event_index = suc (suc i);
                  known_index = suc (suc i);
                  state = g.state;
                }))
                (sym (direction_eq g.direction d same)) (new_IsKnown d lower upper g.state spans),
            h,
          )
          | inr other ↦ rw other (k, extend_first-AreKnown d lower upper gs spans h)
        ]
      where
        direction_eq : (a b : Direction) → direction_eqb a b ≡ true → a ≡ b
        direction_eq bullish bullish e = refl
        direction_eq bullish bearish e = cc
        direction_eq bearish bullish e = cc
        direction_eq bearish bearish e = refl

    add_gap-AreKnown :
        (found previous : Bool) (d : Direction) (lower upper : Decimal) (gaps : List Gap)
        → (found ≡ true → Spans d lower upper old c)
        → AreKnown (suc (suc i)) gaps
        → AreKnown (suc (suc i)) (add_gap found previous d lower upper (suc (suc i)) gaps)
    unfolding add_gap
    add_gap-AreKnown false previous d lower upper gaps spans h = h
    add_gap-AreKnown true previous d lower upper gaps spans h =
        elim (Bool-cases (previous && any (λ g. direction_eqb g.direction d) gaps)) [
          | inl extends ↦ rw extends (extend_first-AreKnown d lower upper gaps (spans refl) h)
          | inr adds ↦ rw adds (new_IsKnown d lower upper active (spans refl), h)
        ]

    pub with_gaps-AreKnown :
        (large required : Bool) (middle : DerivedCandle) (s : Gaps)
        → AreKnown (suc (suc i)) s.gaps
        → AreKnown
            (suc (suc i))
            (with_gaps
              (suc (suc i))
              (is_bullish large required old middle c)
              (is_bearish large required old middle c)
              old
              c
              s).gaps
    unfolding is_bullish is_bearish
    with_gaps-AreKnown large required middle s h =
        add_gap-AreKnown (is_bearish large required old middle c) s.previous_bearish bearish c.high
          old.low _ (λ e. (refl, refl, and_left _ _ e))
          (add_gap-AreKnown (is_bullish large required old middle c) s.previous_bullish bullish
            old.high c.low s.gaps (λ e. (refl, refl, and_left _ _ e)) h)

  module _ (j : ℕ) (c : DerivedCandle) (g : Gap) (here : get_elem? candles j ≡ some c) where
    ne_lt : (i k : ℕ) → i < suc k → (i == k) ≡ false → i < k
    ne_lt i k h e = ground arith

    still :
        goes_through g c ≡ false
        → (state : ZoneState) → (is_active state && enters g c) ≡ false
        → ((b : Bool) → (is_active g.state && b) ≡ false → (is_active state && b) ≡ false)
        → ((i : ℕ) (d : DerivedCandle)
            → g.event_index ≤ i
            → i < j
            → get_elem? candles i ≡ some d
            → (goes_through g d ≡ false) × (is_active g.state && enters g d ≡ false))
        → (i : ℕ) (d : DerivedCandle) → g.event_index ≤ i
        → i < suc j
        → get_elem? candles i ≡ some d
        → (goes_through g d ≡ false) × (is_active state && enters g d ≡ false)
    still stays state away weaker held i d after until found = elim (Bool-cases (i == j)) [
      | inl same ↦
          subst (λ x. (goes_through g x ≡ false) × (is_active state && enters g x ≡ false))
            (some_inj (sym here ∙ ap (get_elem? candles) (sym (==→eq i j same)) ∙ found))
            (stays, away)
      | inr other ↦
          let (outer, inner) = held i d after (ne_lt i j until other) found in
          (outer, weaker (enters g d) inner)
    ]

    outlives :
        is_full g.state ≡ false
        → goes_through g c ≡ false
        → (state : ZoneState) (known : ℕ) → (is_active state && enters g c) ≡ false
        → ((b : Bool) → (is_active g.state && b) ≡ false → (is_active state && b) ≡ false)
        → IsKnown j g
        → IsKnown (suc j) (record g { state = state; known_index = known })
    outlives open_gap stays state known away weaker (inl done) =
        absurd (false-true (sym open_gap ∙ done))
    outlives open_gap stays state known away weaker (inr (le, (space, held))) =
        inr (omega (arith, le), (space, still stays state away weaker held))

    -- The candle of the round
    pub fill-IsKnown : IsKnown j g → IsKnown (suc j) (fill j c g)
    unfolding fill
    fill-IsKnown h = elim (Bool-cases (is_full g.state)) [
      | inl done ↦ rw done (inl done)
      | inr open_gap ↦ elim (Bool-cases (goes_through g c)) [
        | inl through ↦ rw (open_gap, through) (inl refl)
        | inr stays ↦ elim (Bool-cases (enters g c && is_active g.state)) [
          | inl into ↦
              rw (open_gap, stays, into) (outlives open_gap stays partial j refl (λ b e. refl) h)
          | inr away ↦
              rw (open_gap, stays, away)
                (outlives open_gap stays g.state g.known_index
                  (and_swap (enters g c) (is_active g.state) away) (λ b e. e) h)
        ]
      ]
    ]

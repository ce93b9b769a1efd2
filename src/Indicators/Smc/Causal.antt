-- ===== src/Indicators/Smc/Causal.antt =====
-- The rounds of the three loops read no candle after their own.
use smc_ict_engine.Prelude.{
  ℕ, zero, suc, ◌+◌, ◌-◌, ◌<◌, ◌==◌, ◌≡◌, ◌∙◌, refl, sym, ap, subst, leb, if◌then◌else◌, List, ◌++◌,
  length, drop, take, ok, ◌>>=◌, bind-eq-ok, ok_inj, Bool-cases, inl, inr, Option, none, some,
  arith,
}
use smc_ict_engine.Decimal.{Decimal}
use smc_ict_engine.Resampling.{DerivedCandle}
use smc_ict_engine.Indicators.Loop.{
  element, element-append, take-append, enumerate_from, enumerate_prefix, Grows, Grows-refl,
  Grows-trans,
}
use smc_ict_engine.Indicators.Smc.Legs.{
  Candidate, Pivot, candidate_of, candidate_at, close_before, crosses_up, crosses_down,
}
use smc_ict_engine.Indicators.Smc.Swing.{
  Swings, StructureEvent, no_swings, turned, confirm, break_high, break_low, break_pivots,
  swing_step, swing_events,
}

module _ (xs ys : List DerivedCandle) (index : ℕ) (seen : index < length xs) where
  pub candidate_at-append :
      (size leg : ℕ) → candidate_at (xs ++ ys) size index leg ≡ candidate_at xs size index leg
  unfolding candidate_at
  candidate_at-append size leg =
      ap
        (λ c.
          candidate_of c (drop (index - size + 1) (take (index + 1) (xs ++ ys))) (index - size) leg)
        (element-append xs ys (index - size) (omega (arith, seen)))
      ∙ ap
          (λ cs.
            candidate_of (element xs (index - size)) (drop (index - size + 1) cs) (index - size)
              leg)
          (take-append (index + 1) xs ys (omega (arith, seen)))

pub close_before-append :
    (xs ys : List DerivedCandle) (index : ℕ) (close : Decimal)
    → index < length xs
    → close_before (xs ++ ys) index close ≡ close_before xs index close
close_before-append xs ys zero close seen = refl
close_before-append xs ys (suc index) close seen =
    ap (λ r. r >>= λ c. ok c.closing) (element-append xs ys index (omega (arith, seen)))

swing_step-append :
    (xs ys : List DerivedCandle) (size j : ℕ) (c : DerivedCandle) (s : Swings)
    → j < length xs
    → swing_step (xs ++ ys) size j c s ≡ swing_step xs size j c s
unfolding swing_step confirm
swing_step-append xs ys size j c s seen =
    ap
      (λ r. (if leb size j then (r >>= λ d. ok (turned j s d)) else ok s) >>= λ t.
        close_before (xs ++ ys) j c.closing >>= λ p. ok (break_pivots j p c.closing t))
      (candidate_at-append xs ys j seen size s.leg)
    ∙ ap (λ q. confirm xs size j s >>= λ t. q >>= λ p. ok (break_pivots j p c.closing t))
        (close_before-append xs ys j c.closing seen)

abbrev SwingGrows : Swings → Swings → Type 0
SwingGrows = Grows (λ s. s.events)

turned-Grows : (index : ℕ) (s : Swings) → (c : Candidate) → SwingGrows s (turned index s c)
turned-Grows index s c = elim (Bool-cases (c.next_leg == s.leg)) [
  | inl same ↦ rw same (Grows-refl (λ s. s.events) s)
  | inr other ↦ elim (Bool-cases (c.next_leg == 1)) [
    | inl up ↦ rw (other, up) (_, refl)
    | inr down ↦ rw (other, down) (_, refl)
  ]
]

confirm-Grows :
    (candles : List DerivedCandle) (size index : ℕ) (s t : Swings)
    → confirm candles size index s ≡ ok t
    → SwingGrows s t
unfolding confirm
confirm-Grows candles size index s t h = elim (Bool-cases (leb size index)) [
  | inl late ↦
      let (c, found, e) = bind-eq-ok (candidate_at candles size index s.leg) _ (rw late at h) in
      subst (SwingGrows s) (ok_inj e) (turned-Grows index s c)
  | inr early ↦ subst (SwingGrows s) (ok_inj (rw early at h)) (Grows-refl (λ s. s.events) s)
]

break_high-Grows :
    (index : ℕ) (previous close : Decimal) (p : Option Pivot) (s : Swings)
    → SwingGrows s (break_high index previous close p s)
break_high-Grows index previous close none s = Grows-refl (λ s. s.events) s
break_high-Grows index previous close (some p) s = elim (Bool-cases (crosses_up previous close p)) [
  | inl up ↦ rw up (_, refl)
  | inr stays ↦ rw stays (Grows-refl (λ s. s.events) s)
]

break_low-Grows :
    (index : ℕ) (previous close : Decimal) (p : Option Pivot) (s : Swings)
    → SwingGrows s (break_low index previous close p s)
break_low-Grows index previous close none s = Grows-refl (λ s. s.events) s
break_low-Grows index previous close (some p) s =
    elim (Bool-cases (crosses_down previous close p)) [
      | inl down ↦ rw down (_, refl)
      | inr stays ↦ rw stays (Grows-refl (λ s. s.events) s)
    ]

swing_step-Grows :
    (candles : List DerivedCandle) (size j : ℕ) (c : DerivedCandle) (s t : Swings)
    → swing_step candles size j c s ≡ ok t
    → SwingGrows s t
unfolding swing_step break_pivots
swing_step-Grows candles size j c s t h =
    let (a, confirmed, h₁) = bind-eq-ok (confirm candles size j s) _ h in
    let (p, before, e) = bind-eq-ok (close_before candles j c.closing) _ h₁ in
    let b = break_high j p c.closing a.high a in
    let d = break_low j p c.closing b.low b in
    Grows-trans (λ s. s.events) s a t (confirm-Grows candles size j s a confirmed)
      (subst (SwingGrows a) (ok_inj e) (
        Grows-trans (λ s. s.events) a b d (break_high-Grows j p c.closing a.high a)
          (break_low-Grows j p c.closing b.low b)))

-- The swing events over the first candles of a series are the first of those over the whole series:
-- no event is changed, or taken back, by a later candle.
pub swing_events_prefix :
    (xs ys : List DerivedCandle) (size : ℕ) (all : List StructureEvent)
    → swing_events (xs ++ ys) size ≡ ok all
    → (first : List StructureEvent) × (later : List StructureEvent) × (swing_events xs size
        ≡ ok first)
      × (all ≡ first ++ later)
unfolding swing_events
swing_events_prefix xs ys size all h =
    let (t, ran, e) =
      bind-eq-ok (enumerate_from (swing_step (xs ++ ys) size) 0 (xs ++ ys) no_swings) _ h in
    let (u, first, (later, grown)) =
      enumerate_prefix (λ s. s.events) (swing_step (xs ++ ys) size) (swing_step xs size) (length xs)
        0 xs ys no_swings t (λ j c a seen. swing_step-append xs ys size j c a seen)
        (λ j c a b stepped. swing_step-Grows (xs ++ ys) size j c a b stepped) (omega arith) ran in
    (u.events, later, ap (λ r. r >>= λ s. ok s.events) first, sym (ok_inj e) ∙ grown)

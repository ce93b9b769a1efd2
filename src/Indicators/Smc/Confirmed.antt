-- ===== src/Indicators/Smc/Confirmed.antt =====
-- What each swing event stands for.
use smc_ict_engine.Prelude.{
  ℕ, zero, suc, ◌+◌, ◌≤◌, ◌<◌, ◌==◌, ◌≡◌, ◌∙◌, refl, sym, ap, leb, leb→le, List, All, All-append,
  length, get_elem?, ok, ◌>>=◌, Bool, true, false, ◌&&◌, Bool-cases, inl, inr, some, none, Option,
  arith,
}
use smc_ict_engine.Decimal.{Decimal, dec_leb, dec_ltb}
use smc_ict_engine.Resampling.{DerivedCandle}
use smc_ict_engine.Indicators.Loop.{enumerate_total}
use smc_ict_engine.Indicators.Smc.Legs.{Candidate, Pivot, close_before, crosses_up, crosses_down}
use smc_ict_engine.Indicators.Smc.Extremes.{
  Between, Turn, IsCandidate, candidate_at_total, lt_of_get_elem?, IsBefore, close_before_total,
}
use smc_ict_engine.Indicators.Smc.Swing.{
  Swings, StructureEvent, EventState, confirmed_pivot, broken, PivotKind, high_pivot, low_pivot,
  no_swings, turned, confirm, break_high, break_low, break_pivots, swing_step, swing_events,
}

abbrev pub extreme : PivotKind → DerivedCandle → Decimal
extreme high_pivot c = c.high
extreme low_pivot c = c.low

-- The candle stays inside the level.
abbrev pub inside : PivotKind → Decimal → DerivedCandle → Bool
inside high_pivot level c = dec_ltb c.high level
inside low_pivot level c = dec_ltb level c.low

-- A close that goes through the level, from a close that did not
abbrev pub breaks : PivotKind → (level before close : Decimal) → Bool
breaks high_pivot level before close = dec_leb before level && dec_ltb level close
breaks low_pivot level before close = dec_leb level before && dec_ltb close level

-- The level is that of a candle before an index.
abbrev pub IsLevelOf : List DerivedCandle → PivotKind → (index bound : ℕ) → Decimal → Type 0
IsLevelOf candles kind index bound level =
    (index < bound)
    × ((c : DerivedCandle) × (get_elem? candles index ≡ some c) × (level ≡ extreme kind c))

abbrev pub IsConfirmed : List DerivedCandle → (size : ℕ) → StructureEvent → Type 0
IsConfirmed candles size e =
    (e.event_index + size ≡ e.known_index)
    × IsLevelOf candles e.pivot_kind e.event_index e.known_index e.level
    × Between candles e.event_index e.known_index (λ c. inside e.pivot_kind e.level c ≡ true)

abbrev pub IsBroken : List DerivedCandle → StructureEvent → Type 0
IsBroken candles e =
    (e.event_index ≡ e.known_index)
    × ((pivot : ℕ) × IsLevelOf candles e.pivot_kind pivot e.known_index e.level)
    × ((i : ℕ) × (before : DerivedCandle) × (c : DerivedCandle) × (e.known_index ≡ suc i)
        × (get_elem? candles i ≡ some before)
        × (get_elem? candles (suc i) ≡ some c)
        × (breaks e.pivot_kind e.level before.closing c.closing ≡ true))

abbrev pub IsOfState : EventState → List DerivedCandle → (size : ℕ) → StructureEvent → Type 0
IsOfState confirmed_pivot candles size e = IsConfirmed candles size e
IsOfState broken candles size e = IsBroken candles e

abbrev pub IsSound : List DerivedCandle → (size : ℕ) → StructureEvent → Type 0
IsSound candles size e = (e.known_index < length candles) × IsOfState e.state candles size e

module _ (candles : List DerivedCandle) (size : ℕ) (positive : 1 ≤ size) where
  abbrev pub HasPivot : PivotKind → ℕ → Option Pivot → Type 0
  HasPivot kind bound none = Unit {0}
  HasPivot kind bound (some p) = IsLevelOf candles kind p.index bound p.level

  abbrev IsTracked : ℕ → Swings → Type 0
  IsTracked j s =
      All (IsSound candles size) s.events
      × HasPivot high_pivot j s.high
      × HasPivot low_pivot j s.low

  pub later :
      (kind : PivotKind) (j : ℕ) (p : Option Pivot) → HasPivot kind j p → HasPivot kind (suc j) p
  later kind j none h = tt
  later kind j (some p) (lt, h) = (omega (arith, lt), h)

  turned-IsTracked :
      (j : ℕ) (s : Swings) (c : Candidate)
      → j < length candles
      → IsCandidate candles size j s.leg c
      → IsTracked j s
      → IsTracked j (turned j s c)
  turned-IsTracked j s c within (at, (d, found, high, low), turn) (sound, above, below) =
      elim (Bool-cases (c.next_leg == s.leg)) [
        | inl same ↦ rw same (sound, above, below)
        | inr other ↦ elim (Bool-cases (c.next_leg == 1)) [
          | inl up ↦
              rw (other, up)
                (
                  All-append (IsSound candles size) s.events _ sound
                      ((within, (at, (earlier, (d, found, low)), rises turn up other)), tt),
                  above,
                  (earlier, (d, found, low)),
                )
          | inr down ↦
              rw (other, down)
                (
                  All-append (IsSound candles size) s.events _ sound
                      ((within, (at, (earlier, (d, found, high)), falls turn down other)), tt),
                  (earlier, (d, found, high)),
                  below,
                )
        ]
      ]
    where
      earlier : c.index < j
      earlier = omega (arith, at, positive)

      rises :
          Turn candles j s.leg c
          → (c.next_leg == 1) ≡ true
          → (c.next_leg == s.leg) ≡ false
          → Between candles c.index j (λ d. inside low_pivot c.low d ≡ true)
      rises (inl same) up other = absurd (ground arith)
      rises (inr (inl (zero_leg, h))) up other = absurd (ground arith)
      rises (inr (inr (one_leg, h))) up other = h

      falls :
          Turn candles j s.leg c
          → (c.next_leg == 1) ≡ false
          → (c.next_leg == s.leg) ≡ false
          → Between candles c.index j (λ d. inside high_pivot c.high d ≡ true)
      falls (inl same) down other = absurd (ground arith)
      falls (inr (inl (zero_leg, h))) down other = h
      falls (inr (inr (one_leg, h))) down other = absurd (ground arith)

  confirm_total :
      (j : ℕ) (s : Swings)
      → j < length candles
      → IsTracked j s
      → (t : Swings) × (confirm candles size j s ≡ ok t) × IsTracked j t
  unfolding confirm
  confirm_total j s within h = elim (Bool-cases (leb size j)) [
    | inr early ↦ (s, rw early refl, h)
    | inl late ↦
        let (c, found, is) =
          candidate_at_total candles size j positive (leb→le size j late) within s.leg in
        (
          turned j s c,
          rw late (ap (λ r. r >>= λ c. ok (turned j s c)) found),
          turned-IsTracked j s c within is h,
        )
  ]

  breaks_self : (kind : PivotKind) (level x : Decimal) → breaks kind level x x ≡ false
  unfolding dec_ltb
  breaks_self high_pivot level x = ground arith
  breaks_self low_pivot level x = ground arith

  -- A close that breaks a level has a close before it.
  pub crossing :
      (kind : PivotKind) (j : ℕ) (c : DerivedCandle) (previous level : Decimal)
      → get_elem? candles j ≡ some c
      → IsBefore candles j c previous
      → breaks kind level previous c.closing ≡ true
      → (i : ℕ) × (before : DerivedCandle) × (d : DerivedCandle) × (j ≡ suc i)
        × (get_elem? candles i ≡ some before)
        × (get_elem? candles (suc i) ≡ some d)
        × (breaks kind level before.closing d.closing ≡ true)
  crossing kind zero c previous level here before h =
      absurd (impossible (sym (breaks_self kind level c.closing) ∙ (rw before at h)))
    where
      impossible : false ≡ true → ⊥
      impossible x = cc
  crossing kind (suc i) c previous level here (d, found, same) h =
      (i, d, c, refl, found, here, rw same at h)

  module _ (j : ℕ) (c : DerivedCandle) (previous : Decimal) (here : get_elem? candles j ≡ some c)
      (before : IsBefore candles j c previous) where
    break_high-IsTracked :
        (p : Option Pivot) (s : Swings)
        → HasPivot high_pivot j p
        → IsTracked j s
        → IsTracked j (break_high j previous c.closing p s)
    break_high-IsTracked none s pivot h = h
    break_high-IsTracked (some p) s pivot (sound, above, below) =
        elim (Bool-cases (crosses_up previous c.closing p)) [
          | inr stays ↦ rw stays (sound, above, below)
          | inl up ↦ rw up (
            All-append (IsSound candles size) s.events _ sound (
              (
                lt_of_get_elem? candles j c here,
                (
                  refl,
                  (p.index, pivot),
                  crossing high_pivot j c previous p.level here before (ground arith),
                ),
              ),
              tt,
            ),
            pivot,
            below,
          )
        ]

    break_low-IsTracked :
        (p : Option Pivot) (s : Swings)
        → HasPivot low_pivot j p
        → IsTracked j s
        → IsTracked j (break_low j previous c.closing p s)
    break_low-IsTracked none s pivot h = h
    break_low-IsTracked (some p) s pivot (sound, above, below) =
        elim (Bool-cases (crosses_down previous c.closing p)) [
          | inr stays ↦ rw stays (sound, above, below)
          | inl down ↦ rw down (
            All-append (IsSound candles size) s.events _ sound (
              (
                lt_of_get_elem? candles j c here,
                (
                  refl,
                  (p.index, pivot),
                  crossing low_pivot j c previous p.level here before (ground arith),
                ),
              ),
              tt,
            ),
            above,
            pivot,
          )
        ]

  swing_step_total :
      (j : ℕ) (c : DerivedCandle) (s : Swings)
      → get_elem? candles j ≡ some c
      → IsTracked j s
      → (t : Swings) × (swing_step candles size j c s ≡ ok t) × IsTracked (suc j) t
  unfolding swing_step break_pivots
  swing_step_total j c s here h =
      let within = lt_of_get_elem? candles j c here in
      let (a, confirmed, tracked) = confirm_total j s within h in
      let (p, found, before) = close_before_total candles j c within in
      let b = break_high j p c.closing a.high a in
      let tracked_b = break_high-IsTracked j c p here before a.high a tracked.1 tracked in
      let (sound, above, below) =
        break_low-IsTracked j c p here before b.low b tracked_b.2 tracked_b in
      let d = break_low j p c.closing b.low b in
      (
        d,
        ap
              (λ r. r >>= λ t.
                close_before candles j c.closing >>= λ q. ok (break_pivots j q c.closing t))
              confirmed
            ∙ ap (λ r. r >>= λ q. ok (break_pivots j q c.closing a)) found,
        (sound, later high_pivot j d.high above, later low_pivot j d.low below),
      )

  -- The detection of swings returns, and each event is what it says. A confirmed pivot is the high
  -- (the low) of its candle, and every candle after it, up to the one at which it is known, `size`
  -- candles later, has a lower high (a higher low). A broken level is the high (the low) of an
  -- earlier candle, and the close goes through it from a close before that did not. The size is at
  -- least 1.
  pub swing_events-IsSound :
      (events : List StructureEvent) × (swing_events candles size ≡ ok events)
      × All (IsSound candles size) events
  unfolding swing_events
  swing_events-IsSound =
      let (t, ran, (sound, _, _)) =
        enumerate_total candles (swing_step candles size) IsTracked swing_step_total no_swings
          (tt, tt, tt) in
      (t.events, ap (λ r. r >>= λ s. ok s.events) ran, sound)

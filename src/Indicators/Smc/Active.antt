-- ===== src/Indicators/Smc/Active.antt =====
-- What the active order blocks are.
use smc_ict_engine.Prelude.{
  ℕ, suc, ◌+◌, ◌-◌, ◌≤◌, ◌<◌, ◌==◌, ◌≡◌, ◌∙◌, refl, sym, ap, subst, leb, leb→le, List, [], ◌∷◌, All,
  some_inj, ==→eq, not, All-append, All-map, All-kept, All-take, length-take-le, length, get_elem?,
  keep, ok, ◌>>=◌, Bool, true, false, Bool-cases, inl, inr, some, none, Option, arith,
}
use smc_ict_engine.Decimal.{Decimal, dec_ltb}
use smc_ict_engine.Resampling.{DerivedCandle}
use smc_ict_engine.Indicators.Loop.{slice, enumerate_from, enumerate_total}
use smc_ict_engine.Indicators.Smc.Legs.{Candidate, Pivot, close_before, crosses_up, crosses_down}
use smc_ict_engine.Indicators.Smc.Extremes.{
  candidate_at_total, lt_of_get_elem?, get_elem?-slice, slice_found, All-get_elem?,
  close_before_total, IsBefore, IsCandidate,
}
use smc_ict_engine.Indicators.Smc.Swing.{
  Direction, bullish, bearish, PivotKind, high_pivot, low_pivot,
}
use smc_ict_engine.Indicators.Smc.Confirmed.{breaks, IsLevelOf, HasPivot, later, crossing}
use smc_ict_engine.Indicators.Smc.Sources.{
  AsGood, best_offset-IsBest, AsGood-refl, parsed_extremes_total,
}
use smc_ict_engine.Indicators.Smc.Blocks.{
  VolatilityFilter, MitigationSource, by_close, by_high_low, Extremes, OrderBlock, Blocks,
  parsed_extremes, best_offset, is_better, new_block, no_blocks, turn_leg, confirm_leg, block_above,
  block_below, add_blocks, is_mitigated, unmitigated, block_step, active_order_blocks,
}

abbrev pub extremes_of : OrderBlock → Extremes
extremes_of b = record { upper = b.upper; lower = b.lower }

-- A bullish block comes of a high that is broken, a bearish one of a low.
abbrev pub kind_of : Direction → PivotKind
kind_of bullish = high_pivot
kind_of bearish = low_pivot

-- The close, or the extreme, of the candle does not go beyond the block.
abbrev pub Spares : MitigationSource → Direction → DerivedCandle → OrderBlock → Type 0
Spares by_close bullish c b = dec_ltb c.closing b.lower ≡ false
Spares by_high_low bullish c b = dec_ltb c.low b.lower ≡ false
Spares by_close bearish c b = dec_ltb b.upper c.closing ≡ false
Spares by_high_low bearish c b = dec_ltb b.upper c.high ≡ false

is_mitigated-Spares :
    (source : MitigationSource) (c : DerivedCandle) (b : OrderBlock)
    → is_mitigated source c b ≡ false
    → Spares source b.direction c b
unfolding is_mitigated
is_mitigated-Spares source c b h = by_direction source b.direction h
  where
    by_direction :
        (source : MitigationSource) (d : Direction)
        → elim d [
          | bearish ↦ dec_ltb b.upper (elim source [ by_close ↦ c.closing | by_high_low ↦ c.high ])
          | bullish ↦ dec_ltb (elim source [ by_close ↦ c.closing | by_high_low ↦ c.low ]) b.lower
        ]
          ≡ false
        → Spares source d c b
    by_direction by_close bullish e = e
    by_direction by_close bearish e = e
    by_direction by_high_low bullish e = e
    by_direction by_high_low bearish e = e

-- The close at the index goes through the level, from a close before that did not.
abbrev pub IsBreakAt : List DerivedCandle → PivotKind → Decimal → ℕ → Type 0
IsBreakAt candles kind level index =
    (i : ℕ) × (before : DerivedCandle) × (c : DerivedCandle) × (index ≡ suc i)
    × (get_elem? candles i ≡ some before)
    × (get_elem? candles (suc i) ≡ some c)
    × (breaks kind level before.closing c.closing ≡ true)

-- A block of a break before `bound`, of the high or low of an earlier candle, the pivot: its source is
-- the best of the candles from the pivot to the break, and no candle mitigates it from the break on, up
-- to `until`.
abbrev pub IsActive :
    List DerivedCandle → List Extremes → MitigationSource → (bound until : ℕ) → OrderBlock → Type 0
IsActive candles extremes source bound until b =
    (b.break_index < bound)
    × ((pivot : ℕ) × (level : Decimal) × IsLevelOf candles (kind_of b.direction) pivot b.break_index
          level
        × IsBreakAt candles (kind_of b.direction) level b.break_index
        × (pivot ≤ b.source_index)
        × (b.source_index < b.break_index)
        × (get_elem? extremes b.source_index ≡ some (extremes_of b))
        × ((i : ℕ) (e : Extremes)
            → pivot ≤ i
            → i < b.break_index
            → get_elem? extremes i ≡ some e
            → AsGood b.direction (extremes_of b) e))
    × ((i : ℕ) (c : DerivedCandle)
        → b.break_index ≤ i
        → i < until
        → get_elem? candles i ≡ some c
        → Spares source b.direction c b)

module _ (candles : List DerivedCandle) (extremes : List Extremes) (source : MitigationSource)
    (size : ℕ) (positive : 1 ≤ size) where
  new_block-IsActive :
      (d : Direction) (j first : ℕ) (level : Decimal) (found : List Extremes)
      → IsLevelOf candles (kind_of d) first j level
      → IsBreakAt candles (kind_of d) level j
      → slice first j extremes ≡ found
      → All (IsActive candles extremes source (suc j) j) (new_block d j first found)
  unfolding new_block
  new_block-IsActive d j first level [] of_pivot broken same = tt
  new_block-IsActive d j first level (e ∷ es) of_pivot broken same =
      let p = best_offset (is_better d) 0 e 1 es in
      let (at, good) =
        best_offset-IsBest d (e ∷ []) 0 e 1 es (e ∷ es) refl refl refl (AsGood-refl d e, tt) in
      let (before, there) =
        slice_found first j p.0 extremes p.1 (ap (λ l. get_elem? l p.0) same ∙ at) in
      (
        (
          omega arith,
          (
            first,
            level,
            of_pivot,
            broken,
            omega arith,
            before,
            there,
            λ i x after until here. All-get_elem? (AsGood d p.1) (e ∷ es) (i - first) x good (
                ap (λ l. get_elem? l (i - first)) (sym same)
                ∙ get_elem?-slice first j (i - first) extremes (omega (arith, after, until))
                ∙ ap (get_elem? extremes) {x = first + (i - first)} (omega (arith, after))
                ∙ here),
          ),
          λ i c after until here. absurd (omega (arith, after, until)),
        ),
        tt,
      )

  abbrev AreActive : (bound until : ℕ) → Blocks → Type 0
  AreActive bound until s = All (IsActive candles extremes source bound until) s.active

  -- The pivots are of candles before an index.
  abbrev ArePivots : ℕ → Blocks → Type 0
  ArePivots j s =
      HasPivot candles size positive high_pivot j s.high
      × HasPivot candles size positive low_pivot j s.low

  abbrev IsTracked : ℕ → Blocks → Type 0
  IsTracked j s = AreActive (suc j) j s × ArePivots j s

  module _ (j : ℕ) (c : DerivedCandle) (previous : Decimal) (here : get_elem? candles j ≡ some c)
      (before : IsBefore candles j c previous) where
    block_above-IsTracked :
        (p : Option Pivot) (s : Blocks)
        → HasPivot candles size positive high_pivot j p
        → IsTracked j s
        → IsTracked j (block_above extremes j previous c.closing p s)
    block_above-IsTracked none s pivot h = h
    block_above-IsTracked (some p) s pivot (active, (above, below)) =
        elim (Bool-cases (crosses_up previous c.closing p)) [
          | inr stays ↦ rw stays (active, (above, below))
          | inl up ↦ rw up (
            All-append (IsActive candles extremes source (suc j) j)
                (new_block bullish j p.index (slice p.index j extremes)) s.active
                (new_block-IsActive bullish j p.index p.level (slice p.index j extremes) pivot
                  (crossing candles size positive high_pivot j c previous p.level here before
                    (ground arith))
                  refl)
                active,
            (pivot, below),
          )
        ]

    block_below-IsTracked :
        (p : Option Pivot) (s : Blocks)
        → HasPivot candles size positive low_pivot j p
        → IsTracked j s
        → IsTracked j (block_below extremes j previous c.closing p s)
    block_below-IsTracked none s pivot h = h
    block_below-IsTracked (some p) s pivot (active, (above, below)) =
        elim (Bool-cases (crosses_down previous c.closing p)) [
          | inr stays ↦ rw stays (active, (above, below))
          | inl down ↦ rw down (
            All-append (IsActive candles extremes source (suc j) j)
                (new_block bearish j p.index (slice p.index j extremes)) s.active
                (new_block-IsActive bearish j p.index p.level (slice p.index j extremes) pivot
                  (crossing candles size positive low_pivot j c previous p.level here before
                    (ground arith))
                  refl)
                active,
            (above, pivot),
          )
        ]

    add_blocks-IsTracked :
        (s : Blocks) → IsTracked j s → IsTracked j (add_blocks extremes j previous c.closing s)
    unfolding add_blocks
    add_blocks-IsTracked s h =
        let t = block_above extremes j previous c.closing s.high s in
        let k = block_above-IsTracked s.high s h.1.0 h in block_below-IsTracked t.low t k.1.1 k

  -- What the candle of the round does not mitigate stays active.
  outlives :
      (j : ℕ) (c : DerivedCandle) (b : OrderBlock)
      → get_elem? candles j ≡ some c
      → IsActive candles extremes source (suc j) j b
      → Spares source b.direction c b
      → IsActive candles extremes source (suc j) (suc j) b
  outlives j c b here (bound, chosen, held) new = (bound, chosen, still)
    where
      still :
          (i : ℕ) (d : DerivedCandle)
          → b.break_index ≤ i
          → i < suc j
          → get_elem? candles i ≡ some d
          → Spares source b.direction d b
      still i d after until found = elim (Bool-cases (i == j)) [
        | inl same ↦
            subst (λ x. Spares source b.direction x b)
              (some_inj (sym here ∙ ap (get_elem? candles) (sym (==→eq i j same)) ∙ found)) new
        | inr other ↦ held i d after (ground arith) found
      ]

  module _ (maximum : ℕ) where
    -- Before the round of an index
    abbrev IsKept : ℕ → Blocks → Type 0
    IsKept j s = (length s.active ≤ maximum) × AreActive j j s × ArePivots j s

    kept :
        (j : ℕ) (c : DerivedCandle) (s : Blocks)
        → get_elem? candles j ≡ some c
        → IsTracked j s
        → IsKept (suc j) (unmitigated source maximum c s)
    kept j c s here (h, (above, below)) = (
      length-take-le maximum (keep (λ b. not (is_mitigated source c b)) s.active),
      All-take (IsActive candles extremes source (suc j) (suc j)) maximum
          (keep (λ b. not (is_mitigated source c b)) s.active)
          (All-map
            (λ b held.
              outlives j c b here held.0
                (is_mitigated-Spares source c b (is_false (is_mitigated source c b) held.1)))
            (keep (λ b. not (is_mitigated source c b)) s.active)
            (All-kept (IsActive candles extremes source (suc j) j)
              (λ b. not (is_mitigated source c b)) s.active h)),
      (
        later candles size positive high_pivot j s.high above,
        later candles size positive low_pivot j s.low below,
      ),
    )
      where
        is_false : (b : Bool) → not b ≡ true → b ≡ false
        is_false true k = cc
        is_false false k = refl

    turn_leg-ArePivots :
        (j : ℕ) (s : Blocks) (c : Candidate)
        → IsCandidate candles size j s.leg c
        → ArePivots j s
        → ((turn_leg c s).active ≡ s.active) × ArePivots j (turn_leg c s)
    turn_leg-ArePivots j s c (at, (d, found, high, low), turn) (above, below) =
        elim (Bool-cases (c.next_leg == s.leg)) [
          | inl same ↦ rw same (refl, (above, below))
          | inr other ↦ elim (Bool-cases (c.next_leg == 1)) [
            | inl up ↦ rw (other, up) (refl, (above, (earlier, (d, found, low))))
            | inr down ↦ rw (other, down) (refl, ((earlier, (d, found, high)), below))
          ]
        ]
      where
        earlier : c.index < j
        earlier = omega (arith, at, positive)

    confirm_leg_total :
        (j : ℕ) (s : Blocks)
        → j < length candles
        → ArePivots j s
        → (t : Blocks) × (confirm_leg candles size j s ≡ ok t)
          × (t.active ≡ s.active)
          × ArePivots j t
    unfolding confirm_leg
    confirm_leg_total j s within pivots = elim (Bool-cases (leb size j)) [
      | inr early ↦ (s, rw early refl, refl, pivots)
      | inl late ↦
          let (c, found, is) =
            candidate_at_total candles size j positive (leb→le size j late) within s.leg in
          let (same, moved) = turn_leg-ArePivots j s c is pivots in
          (turn_leg c s, rw late (ap (λ r. r >>= λ c. ok (turn_leg c s)) found), same, moved)
    ]

    block_step_total :
        (j : ℕ) (c : DerivedCandle) (s : Blocks)
        → get_elem? candles j ≡ some c
        → IsKept j s
        → (t : Blocks) × (block_step candles extremes size source maximum j c s ≡ ok t)
          × IsKept (suc j) t
    unfolding block_step
    block_step_total j c s here (few, active, pivots) =
        let within = lt_of_get_elem? candles j c here in
        let (a, confirmed, same, moved) = confirm_leg_total j s within pivots in
        let (p, found, before) = close_before_total candles j c within in
        let held : AreActive (suc j) j a =
          subst (All (IsActive candles extremes source (suc j) j)) (sym same)
            (All-map (λ b h. (omega (arith, h.0), h.1, h.2)) s.active active) in
        (
          unmitigated source maximum c (add_blocks extremes j p c.closing a),
          ap
                (λ r. r >>= λ t. close_before candles j c.closing >>= λ q.
                  ok (unmitigated source maximum c (add_blocks extremes j q c.closing t)))
                confirmed
              ∙ ap
                  (λ r. r >>= λ q.
                    ok (unmitigated source maximum c (add_blocks extremes j q c.closing a)))
                  found,
          kept j c (add_blocks extremes j p c.closing a) here
              (add_blocks-IsTracked j c p here before a (held, moved)),
        )

-- The search for order blocks returns, with at most the maximum of them, over extremes of which there
-- is one for each candle. Each block comes of a break: the close of its candle goes through the high
-- (for a bearish block, the low) of an earlier candle, the pivot, from a close before that did not. The
-- source of the block lies between the pivot and the break, and its extreme is the best among those:
-- the lowest low for a bullish block, the highest high for a bearish one. No candle from the break to
-- the end of the series mitigates the block: no close, or no low, is below a bullish block, and no
-- close, or no high, above a bearish one. The size is at least 1.
pub active_order_blocks-IsActive :
    (candles : List DerivedCandle) (size : ℕ) (filter : VolatilityFilter)
    (source : MitigationSource) (maximum : ℕ)
    → 1 ≤ size
    → (blocks : List OrderBlock) × (extremes : List Extremes) × (active_order_blocks candles size
          filter source maximum
        ≡ ok blocks)
      × (parsed_extremes candles filter ≡ ok extremes)
      × (length extremes ≡ length candles)
      × (length blocks ≤ maximum)
      × All (IsActive candles extremes source (length candles) (length candles)) blocks
unfolding active_order_blocks
active_order_blocks-IsActive candles size filter source maximum positive =
    let (extremes, parsed, len) = parsed_extremes_total candles filter in
    let (t, ran, (few, active, _)) =
      enumerate_total candles (block_step candles extremes size source maximum)
        (IsKept candles extremes source size positive maximum)
        (block_step_total candles extremes source size positive maximum) no_blocks
        (omega arith, tt, (tt, tt)) in
    (
      t.active,
      extremes,
      ap
            (λ r. r >>= λ e.
              enumerate_from (block_step candles e size source maximum) 0 candles no_blocks >>= λ s.
              ok s.active)
            parsed
          ∙ ap (λ r. r >>= λ s. ok s.active) ran,
      parsed,
      len,
      few,
      active,
    )

-- ===== src/Resampling/Bars.antt =====
-- What a derived candle is: a whole bucket of closed minutes.
use smc_ict_engine.Prelude.{
  ℕ, ◌+◌, ◌-◌, ◌%◌, false, not, ◌≡◌, refl, sym, Option, List, [], ◌∷◌, arith, inl, inr, Bool-cases,
  length, last, All, map, Result, ok, err, value_error, bind-eq-ok, raise_if-passed, subst,
  Unpacked, err-ne-ok, all, keep, ◌⊎◌, ◌==◌,
}
use smc_ict_engine.Prelude.Sort.{sort, sort-All}
use smc_ict_engine.Decimal.{Decimal, ◌≼◌, dec_max, dec_min, dec_ltb}
use smc_ict_engine.Decimal.Order.{≼_refl, ≼_trans, dec_max-≼, dec_min-≼}
use smc_ict_engine.Domain.{
  ClosedCandle, Timeframe, duration_minutes, timeframe_eqb, is_instrument_id,
}
use smc_ict_engine.Resampling.{
  DerivedCandle, duration_ms, checked_derived, has_exponent, plain_decimal, sum_decimal, Bucket,
  fill_buckets, highest, lowest, quote_volumes, sum_quotes, derive, is_partial, derive_all,
  same_market, is_contiguous, bucket_le, resample, resample_complete,
}
use smc_ict_engine.Resampling.Buckets.{ClosedBy, belongs, IsBucket, fill_buckets-IsBucket}

highest-≼ :
    (d : Decimal) (cs : List ClosedCandle)
    → (d ≼ highest d cs) × All (λ r. r.high ≼ highest d cs) cs
highest-≼ d [] = (≼_refl d, tt)
highest-≼ d (c ∷ cs) =
    let (above, all_above) = highest-≼ (dec_max d c.high) cs in
    let (left, right) = dec_max-≼ d c.high in
    (≼_trans d _ _ left above, (≼_trans c.high _ _ right above, all_above))

lowest-≼ :
    (d : Decimal) (cs : List ClosedCandle) → (lowest d cs ≼ d) × All (λ r. lowest d cs ≼ r.low) cs
lowest-≼ d [] = (≼_refl d, tt)
lowest-≼ d (c ∷ cs) =
    let (below, all_below) = lowest-≼ (dec_min d c.low) cs in
    let (left, right) = dec_min-≼ d c.low in
    (≼_trans _ _ d below left, (≼_trans _ _ c.low below right, all_below))

-- One of the elements
abbrev pub SomeOf : (ClosedCandle → Type 0) → List ClosedCandle → Type 0
SomeOf P [] = ⊥
SomeOf P (x ∷ xs) = P x ⊎ SomeOf P xs

highest-SomeOf :
    (d : Decimal) (cs : List ClosedCandle)
    → (highest d cs ≡ d) ⊎ SomeOf (λ r. r.high ≡ highest d cs) cs
unfolding dec_max
highest-SomeOf d [] = inl refl
highest-SomeOf d (c ∷ cs) = elim (Bool-cases (dec_ltb d c.high)) [
  | inl e ↦ picked c.high (rw e refl) (found (highest-SomeOf c.high cs))
  | inr e ↦ picked d (rw e refl) (kept (highest-SomeOf d cs))
]
  where
    Picked : Decimal → Type 0
    Picked x =
        (highest x cs ≡ d) ⊎ ((c.high ≡ highest x cs) ⊎ SomeOf (λ r. r.high ≡ highest x cs) cs)

    picked : (x : Decimal) → dec_max d c.high ≡ x → Picked x → Picked (dec_max d c.high)
    picked x e h = subst Picked (sym e) h

    found :
        (highest c.high cs ≡ c.high) ⊎ SomeOf (λ r. r.high ≡ highest c.high cs) cs
        → (highest c.high cs ≡ d)
          ⊎ ((c.high ≡ highest c.high cs) ⊎ SomeOf (λ r. r.high ≡ highest c.high cs) cs)
    found (inl h) = inr (inl (sym h))
    found (inr h) = inr (inr h)

    kept :
        (highest d cs ≡ d) ⊎ SomeOf (λ r. r.high ≡ highest d cs) cs
        → (highest d cs ≡ d) ⊎ ((c.high ≡ highest d cs) ⊎ SomeOf (λ r. r.high ≡ highest d cs) cs)
    kept (inl h) = inl h
    kept (inr h) = inr (inr h)

lowest-SomeOf :
    (d : Decimal) (cs : List ClosedCandle)
    → (lowest d cs ≡ d) ⊎ SomeOf (λ r. r.low ≡ lowest d cs) cs
unfolding dec_min
lowest-SomeOf d [] = inl refl
lowest-SomeOf d (c ∷ cs) = elim (Bool-cases (dec_ltb c.low d)) [
  | inl e ↦ picked c.low (rw e refl) (found (lowest-SomeOf c.low cs))
  | inr e ↦ picked d (rw e refl) (kept (lowest-SomeOf d cs))
]
  where
    Picked : Decimal → Type 0
    Picked x = (lowest x cs ≡ d) ⊎ ((c.low ≡ lowest x cs) ⊎ SomeOf (λ r. r.low ≡ lowest x cs) cs)

    picked : (x : Decimal) → dec_min d c.low ≡ x → Picked x → Picked (dec_min d c.low)
    picked x e h = subst Picked (sym e) h

    found :
        (lowest c.low cs ≡ c.low) ⊎ SomeOf (λ r. r.low ≡ lowest c.low cs) cs
        → (lowest c.low cs ≡ d)
          ⊎ ((c.low ≡ lowest c.low cs) ⊎ SomeOf (λ r. r.low ≡ lowest c.low cs) cs)
    found (inl h) = inr (inl (sym h))
    found (inr h) = inr (inr h)

    kept :
        (lowest d cs ≡ d) ⊎ SomeOf (λ r. r.low ≡ lowest d cs) cs
        → (lowest d cs ≡ d) ⊎ ((c.low ≡ lowest d cs) ⊎ SomeOf (λ r. r.low ≡ lowest d cs) cs)
    kept (inl h) = inl h
    kept (inr h) = inr (inr h)

some_first :
    (P : ClosedCandle → Type 0) {A : Type 0} (c : ClosedCandle) (cs : List ClosedCandle)
    → (A → P c)
    → A ⊎ SomeOf P cs
    → SomeOf P (c ∷ cs)
some_first P c cs f (inl h) = inl (f h)
some_first P c cs f (inr h) = inr h

-- The bar stands for the rows `c ∷ cs`: as many as the timeframe has minutes, all closed in time,
-- from the bar's first minute to its last. Its opening is that of the first row, its closing that of
-- the last, its high the highest of theirs and its low the lowest.
abbrev pub IsBarOf :
    Timeframe → Option ℕ → DerivedCandle → ClosedCandle → List ClosedCandle → Type 0
IsBarOf t time d c cs =
    (length (c ∷ cs) ≡ duration_minutes t)
    × (c.open_time_ms ≡ d.open_time_ms)
    × ((last c cs).close_time_ms ≡ d.close_time_ms)
    × (d.opening ≡ c.opening)
    × (d.closing ≡ (last c cs).closing)
    × All (λ r. ClosedBy time r.close_time_ms) (c ∷ cs)
    × All (λ r. r.high ≼ d.high) (c ∷ cs)
    × All (λ r. d.low ≼ r.low) (c ∷ cs)
    × SomeOf (λ r. r.high ≡ d.high) (c ∷ cs)
    × SomeOf (λ r. r.low ≡ d.low) (c ∷ cs)

-- The rows are the candles of the series that belong to the bar.
abbrev pub IsBar : Timeframe → Option ℕ → List ClosedCandle → DerivedCandle → Type 0
IsBar t time candles d =
    (d.open_time_ms % duration_ms t ≡ 0)
    × ((c : ClosedCandle) × (cs : List ClosedCandle) × (c ∷ cs
          ≡ keep (belongs t time d.open_time_ms) candles)
        × IsBarOf t time d c cs)

checked_derived_lem : (d d' : DerivedCandle) → checked_derived d ≡ ok d' → d ≡ d'
unfolding checked_derived
checked_derived_lem d d' e =
    let (_, e₁) = raise_if-passed (not (is_instrument_id d.instrument_id)) value_error _ e in
    let (_, e₂) = raise_if-passed (timeframe_eqb d.interval Timeframe.m1) value_error _ e₁ in
    let (_, e₃) =
      raise_if-passed (not (d.open_time_ms % duration_ms d.interval == 0)) value_error _ e₂ in
    let (_, e₄) =
      raise_if-passed (not (d.close_time_ms + 1 == d.open_time_ms + duration_ms d.interval))
        value_error (ok d) e₃ in
    subst (λ r. Unpacked (λ v. d ≡ v) r) e₄ refl

plain_decimal_lem : (d d' : Decimal) → plain_decimal d ≡ ok d' → d ≡ d'
unfolding plain_decimal
plain_decimal_lem d d' e = elim (Bool-cases (has_exponent d)) [
  | inl h ↦ absurd (err-ne-ok (rw h at e))
  | inr h ↦ subst (λ r. Unpacked (λ v. d ≡ v) r) (rw h at e) refl
]

derive-IsBarOf :
    (t : Timeframe) (time : Option ℕ) (start : ℕ) (c : ClosedCandle) (cs : List ClosedCandle)
    (d : DerivedCandle)
    → is_partial t start c cs ≡ false
    → All (λ r. ClosedBy time r.close_time_ms) (c ∷ cs)
    → derive t start c cs ≡ ok d
    → IsBarOf t time d c cs × (d.open_time_ms ≡ start)
unfolding derive is_partial
derive-IsBarOf t time start c cs d whole_bucket closed e =
    let (quote, _, e₁) = bind-eq-ok (sum_quotes (quote_volumes (c ∷ cs))) _ e in
    let (high, top, e₂) = bind-eq-ok (plain_decimal (highest c.high cs)) _ e₁ in
    let (low, bottom, e₃) = bind-eq-ok (plain_decimal (lowest c.low cs)) _ e₂ in
    let (base, _, e₄) = bind-eq-ok (sum_decimal (map (λ r. r.base_volume) (c ∷ cs))) _ e₃ in
    subst (λ v. IsBarOf t time v c cs × (v.open_time_ms ≡ start))
      (checked_derived_lem
        (record {
          instrument_id = c.instrument_id;
          interval = t;
          open_time_ms = start;
          close_time_ms = start + duration_ms t - 1;
          opening = c.opening;
          high = high;
          low = low;
          closing = (last c cs).closing;
          base_volume = base;
          quote_volume = quote;
        })
        d e₄)
      (
        (
          ground arith,
          ground arith,
          ground arith,
          refl,
          refl,
          closed,
          subst (λ h. All (λ r. r.high ≼ h) (c ∷ cs)) (plain_decimal_lem _ high top)
              (highest-≼ c.high cs),
          subst (λ l. All (λ r. l ≼ r.low) (c ∷ cs)) (plain_decimal_lem _ low bottom)
              (lowest-≼ c.low cs),
          subst (λ h. SomeOf (λ r. r.high ≡ h) (c ∷ cs)) (plain_decimal_lem _ high top)
              (some_first (λ r. r.high ≡ highest c.high cs) c cs sym (highest-SomeOf c.high cs)),
          subst (λ l. SomeOf (λ r. r.low ≡ l) (c ∷ cs)) (plain_decimal_lem _ low bottom)
              (some_first (λ r. r.low ≡ lowest c.low cs) c cs sym (lowest-SomeOf c.low cs)),
        ),
        refl,
      )

derive_all-IsBar :
    (t : Timeframe) (time : Option ℕ) (candles : List ClosedCandle) (buckets : List Bucket)
    (bars : List DerivedCandle)
    → All (IsBucket t time candles) buckets
    → derive_all t buckets ≡ ok bars
    → All (IsBar t time candles) bars
unfolding derive_all
derive_all-IsBar t time candles [] bars h e =
    subst (λ r. Unpacked (All (IsBar t time candles)) r) e tt
derive_all-IsBar t time candles ((start, []) ∷ rest) bars h e =
    derive_all-IsBar t time candles rest bars h.1 e
derive_all-IsBar t time candles ((start, c ∷ cs) ∷ rest) bars h e =
    elim (Bool-cases (is_partial t start c cs)) [
      | inl p ↦ derive_all-IsBar t time candles rest bars h.1 (rw p at e)
      | inr p ↦
          derived (derive t start c cs) refl (derive_all t rest) refl p (rw p at e)
            (derive_all-IsBar t time candles rest)
    ]
  where
    derived :
        (first : Result DerivedCandle)
        → derive t start c cs ≡ first
        → (others : Result (List DerivedCandle)) → derive_all t rest ≡ others
        → is_partial t start c cs ≡ false
        → elim first [ err x ↦ err x | ok d ↦ elim others [ err x ↦ err x | ok ds ↦ ok (d ∷ ds) ] ]
          ≡ ok bars
        → ((bars' : List DerivedCandle)
            → All (IsBucket t time candles) rest
            → derive_all t rest ≡ ok bars'
            → All (IsBar t time candles) bars')
        → All (IsBar t time candles) bars
    derived (err x) e₁ others e₂ p e₃ later = absurd (err-ne-ok e₃)
    derived (ok d) e₁ (err x) e₂ p e₃ later = absurd (err-ne-ok e₃)
    derived (ok d) e₁ (ok ds) e₂ p e₃ later =
        let (bar, same) = derive-IsBarOf t time start c cs d p h.0.1 e₁ in
        subst (λ r. Unpacked (All (IsBar t time candles)) r) e₃
          (
            (
              subst (λ s. s % duration_ms t ≡ 0) (sym same) h.0.0,
              (c, cs, subst (λ s. c ∷ cs ≡ keep (belongs t time s) candles) (sym same) h.0.2, bar),
            ),
            later ds h.1 e₂,
          )

-- Each derived candle is aligned to its timeframe, and stands for the candles of the series that lie in
-- its bucket and, with an evaluation time, had closed by that time: they are as many as the timeframe has
-- minutes, from the first minute of the bar to its last. Its opening is that of the first, its closing
-- that of the last, its high the highest of their highs and its low the lowest of their lows.
pub resample_complete-IsBar :
    (candles : List ClosedCandle) (t : Timeframe) (time : Option ℕ) (bars : List DerivedCandle)
    → resample_complete candles t time ≡ ok bars
    → All (IsBar t time candles) bars
unfolding resample_complete resample
resample_complete-IsBar candles t time bars e = elim (Bool-cases (timeframe_eqb t Timeframe.m1)) [
  | inl minute ↦ absurd (err-ne-ok (rw minute at e))
  | inr higher ↦ resampled candles (rw higher at e)
]
  where
    resampled : (cs : List ClosedCandle) → resample t time cs ≡ ok bars → All (IsBar t time cs) bars
    resampled [] e = subst (λ r. Unpacked (All (IsBar t time [])) r) e tt
    resampled (c ∷ cs) e =
        let (_, e₁) = raise_if-passed (not (all (same_market c) (c ∷ cs))) value_error _ e in
        let (_, e₂) =
          raise_if-passed (not (is_contiguous (c ∷ cs))) value_error
            (derive_all t (sort bucket_le (fill_buckets t time [] (c ∷ cs)))) e₁ in
        derive_all-IsBar t time (c ∷ cs) (sort bucket_le (fill_buckets t time [] (c ∷ cs))) bars
          (sort-All bucket_le (IsBucket t time (c ∷ cs)) _ (fill_buckets-IsBucket t time (c ∷ cs)))
          e₂

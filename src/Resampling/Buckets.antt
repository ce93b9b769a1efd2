-- ===== src/Resampling/Buckets.antt =====
-- What the buckets of a resampling hold.
use smc_ict_engine.Prelude.{
  ==→eq, ◌∙◌, ap, ◌++◌, ◌&&◌, ◌||◌, Bool, true, any, keep, append-nil, append_assoc, if◌then◌else◌,
  ℕ, ◌-◌, ◌%◌, ◌≤◌, false, not, ◌≡◌, refl, sym, Option, none, some, List, [], ◌∷◌, arith, inl, inr,
  Bool-cases, All, All-append, subst, ◌==◌,
}
use smc_ict_engine.Domain.{ClosedCandle, Timeframe, duration_minutes}
use smc_ict_engine.Resampling.{duration_ms, Bucket, add_row, closes_after, fill_buckets}

abbrev pub ClosedBy : Option ℕ → ℕ → Type 0
ClosedBy none t = Unit
ClosedBy (some time) t = t ≤ time

ClosedBy-closes_after :
    (time : Option ℕ) (c : ClosedCandle)
    → closes_after time c ≡ false
    → ClosedBy time c.close_time_ms
ClosedBy-closes_after none c h = tt
ClosedBy-closes_after (some time) c h = ground arith

-- The candle had closed by the time, and is of the bucket that starts then.
abbrev pub belongs : Timeframe → Option ℕ → (start : ℕ) → ClosedCandle → Bool
belongs t time start c =
    not (closes_after time c) && c.open_time_ms - c.open_time_ms % duration_ms t == start

-- The rows of a bucket are those of the candles so far that belong to it.
abbrev pub IsBucket : Timeframe → Option ℕ → List ClosedCandle → Bucket → Type 0
IsBucket t time done b =
    (b.0 % duration_ms t ≡ 0)
    × All (λ r. ClosedBy time r.close_time_ms) b.1
    × (b.1 ≡ keep (belongs t time b.0) done)

abbrev has_start : ℕ → List Bucket → Bool
has_start k buckets = any (λ b. b.0 == k) buckets

-- No two buckets have the same start.
abbrev AreApart : List Bucket → Type 0
AreApart [] = Unit {0}
AreApart (b ∷ bs) = (has_start b.0 bs ≡ false) × AreApart bs

aligned_start : (t : Timeframe) (n : ℕ) → (n - n % duration_ms t) % duration_ms t ≡ 0
unfolding duration_minutes
aligned_start Timeframe.m1 n = omega arith
aligned_start Timeframe.m5 n = omega arith
aligned_start Timeframe.m15 n = omega arith
aligned_start Timeframe.h1 n = omega arith
aligned_start Timeframe.h4 n = omega arith

keep-snoc :
    (p : ClosedCandle → Bool) (xs : List ClosedCandle) (c : ClosedCandle)
    → keep p (xs ++ c ∷ []) ≡ (if p c then keep p xs ++ c ∷ [] else keep p xs)
keep-snoc p [] c = refl
keep-snoc p (x ∷ xs) c = elim (Bool-cases (p x)) [
  | inr e ↦ rw e (keep-snoc p xs c)
  | inl e ↦ rw e (ap (λ l. x ∷ l) (keep-snoc p xs c) ∙ pushed (p c))
]
  where
    pushed :
        (b : Bool)
        → ◌≡◌ {A = List ClosedCandle}
            (x ∷ (if b then keep p xs ++ c ∷ [] else keep p xs))
            (if b then x ∷ keep p xs ++ c ∷ [] else x ∷ keep p xs)
    pushed true = refl
    pushed false = refl

module _ (t : Timeframe) (time : Option ℕ) where
  keep_in :
      (k : ℕ) (done : List ClosedCandle) (c : ClosedCandle)
      → belongs t time k c ≡ true
      → keep (belongs t time k) (done ++ c ∷ []) ≡ keep (belongs t time k) done ++ c ∷ []
  keep_in k done c e = keep-snoc (belongs t time k) done c ∙ rw e refl

  keep_out :
      (k : ℕ) (done : List ClosedCandle) (c : ClosedCandle)
      → belongs t time k c ≡ false
      → keep (belongs t time k) (done ++ c ∷ []) ≡ keep (belongs t time k) done
  keep_out k done c e = keep-snoc (belongs t time k) done c ∙ rw e refl

  -- A candle that belongs to none of the buckets changes none.
  others-IsBucket :
      (done : List ClosedCandle) (c : ClosedCandle) (buckets : List Bucket)
      → All (λ b. belongs t time b.0 c ≡ false) buckets
      → All (IsBucket t time done) buckets
      → All (IsBucket t time (done ++ c ∷ [])) buckets
  others-IsBucket done c [] away h = tt
  others-IsBucket done c (b ∷ bs) (off, away) ((aligned, closed, rows), h) =
      ((aligned, closed, rows ∙ sym (keep_out b.0 done c off)), others-IsBucket done c bs away h)

  module _ (done : List ClosedCandle) (c : ClosedCandle) (open_row : closes_after time c ≡ false)
      (start : ℕ) (own : c.open_time_ms - c.open_time_ms % duration_ms t ≡ start) where
    belongs_own : (k : ℕ) → (k == start) ≡ true → belongs t time k c ≡ true
    belongs_own k e = ground (arith, own, open_row)

    belongs_other : (k : ℕ) → (k == start) ≡ false → belongs t time k c ≡ false
    belongs_other k e = ground (arith, own, open_row)

    no_start :
        (buckets : List Bucket)
        → has_start start buckets ≡ false
        → All (λ b. belongs t time b.0 c ≡ false) buckets
    no_start [] h = tt
    no_start (b ∷ bs) h = (belongs_other b.0 (ground arith), no_start bs (ground arith))

    add_row-IsBucket :
        (buckets : List Bucket)
        → start % duration_ms t ≡ 0
        → (has_start start buckets ≡ false → keep (belongs t time start) done ≡ [])
        → AreApart buckets
        → All (IsBucket t time done) buckets
        → All (IsBucket t time (done ++ c ∷ [])) (add_row start c buckets)
    unfolding add_row
    add_row-IsBucket [] aligned absent apart h =
        let inside = belongs_own start (ground arith) in
        (
          (
            aligned,
            (ClosedBy-closes_after time c open_row, tt),
            sym (keep_in start done c inside ∙ ap (λ l. l ++ c ∷ []) (absent refl)),
          ),
          tt,
        )
    add_row-IsBucket ((k, rows) ∷ rest) aligned absent (fresh, apart) ((a, closed, e), h) =
        elim (Bool-cases (k == start)) [
          | inl same ↦ rw same (
            (
              a,
              All-append (λ r. ClosedBy time r.close_time_ms) rows (c ∷ []) closed
                  (ClosedBy-closes_after time c open_row, tt),
              ap (λ l. l ++ c ∷ []) e ∙ sym (keep_in k done c (belongs_own k same)),
            ),
            others-IsBucket done c rest
                (no_start rest (subst (λ x. has_start x rest ≡ false) (==→eq k start same) fresh))
                h,
          )
          | inr other ↦ rw other (
            (a, closed, e ∙ sym (keep_out k done c (belongs_other k other))),
            add_row-IsBucket rest aligned (λ gone. absent (rw other gone)) apart h,
          )
        ]

    has_start-add_row :
        (k : ℕ) (buckets : List Bucket)
        → has_start k (add_row start c buckets) ≡ ((start == k) || has_start k buckets)
    unfolding add_row
    has_start-add_row k [] = refl
    has_start-add_row k ((n, rows) ∷ rest) = elim (Bool-cases (n == start)) [
      | inl same ↦ rw same (ground (arith, same))
      | inr other ↦ rw other (ground (arith, has_start-add_row k rest))
    ]

    add_row-AreApart :
        (buckets : List Bucket) → AreApart buckets → AreApart (add_row start c buckets)
    unfolding add_row
    add_row-AreApart [] h = (refl, tt)
    add_row-AreApart ((k, rows) ∷ rest) (fresh, h) = elim (Bool-cases (k == start)) [
      | inl same ↦ rw same (fresh, h)
      | inr other ↦
          rw other
            (has_start-add_row k rest ∙ ground (arith, fresh, other), add_row-AreApart rest h)
    ]

  -- The buckets of the candles so far, and that a start without a bucket has no candle
  abbrev AreBuckets : List ClosedCandle → List Bucket → Type 0
  AreBuckets done buckets =
      All (IsBucket t time done) buckets
      × AreApart buckets
      × ((k : ℕ) → has_start k buckets ≡ false → keep (belongs t time k) done ≡ [])

  add_row-AreBuckets :
      (done : List ClosedCandle) (c : ClosedCandle) (buckets : List Bucket)
      → closes_after time c ≡ false
      → AreBuckets done buckets
      → AreBuckets
          (done ++ c ∷ [])
          (add_row (c.open_time_ms - c.open_time_ms % duration_ms t) c buckets)
  add_row-AreBuckets done c buckets open_row (h, apart, absent) =
      let start = c.open_time_ms - c.open_time_ms % duration_ms t in
      (
        add_row-IsBucket done c open_row start refl buckets (aligned_start t c.open_time_ms)
            (absent start) apart h,
        add_row-AreApart done c open_row start refl buckets apart,
        λ k gone.
            let both : ((start == k) || has_start k buckets) ≡ false =
              sym (has_start-add_row done c open_row start refl k buckets) ∙ gone in
            keep_out k done c (belongs_other done c open_row start refl k (ground (arith, both)))
            ∙ absent k (ground (arith, both)),
      )

  skip-AreBuckets :
      (done : List ClosedCandle) (c : ClosedCandle) (buckets : List Bucket)
      → closes_after time c ≡ true
      → AreBuckets done buckets
      → AreBuckets (done ++ c ∷ []) buckets
  skip-AreBuckets done c buckets late (h, apart, absent) = (
    others-IsBucket done c buckets (away buckets) h,
    apart,
    λ k gone. keep_out k done c (rw late refl) ∙ absent k gone,
  )
    where
      away : (bs : List Bucket) → All (λ b. belongs t time b.0 c ≡ false) bs
      away [] = tt
      away (b ∷ bs) = (rw late refl, away bs)

  fill_buckets-AreBuckets :
      (done : List ClosedCandle) (buckets : List Bucket) (cs : List ClosedCandle)
      → AreBuckets done buckets
      → AreBuckets (done ++ cs) (fill_buckets t time buckets cs)
  unfolding fill_buckets
  fill_buckets-AreBuckets done buckets [] h =
      subst (λ l. AreBuckets l buckets) (sym (append-nil done)) h
  fill_buckets-AreBuckets done buckets (c ∷ cs) h = elim (Bool-cases (closes_after time c)) [
    | inl e ↦ rw e (
        subst (λ l. AreBuckets l (fill_buckets t time buckets cs)) (append_assoc done (c ∷ []) cs)
          (fill_buckets-AreBuckets (done ++ c ∷ []) buckets cs
            (skip-AreBuckets done c buckets e h)))
    | inr e ↦
        let added = add_row (c.open_time_ms - c.open_time_ms % duration_ms t) c buckets in
        rw e (
          subst (λ l. AreBuckets l (fill_buckets t time added cs)) (append_assoc done (c ∷ []) cs)
            (fill_buckets-AreBuckets (done ++ c ∷ []) added cs
              (add_row-AreBuckets done c buckets e h)))
  ]

  -- The buckets of a series
  pub fill_buckets-IsBucket :
      (cs : List ClosedCandle) → All (IsBucket t time cs) (fill_buckets t time [] cs)
  fill_buckets-IsBucket cs = (fill_buckets-AreBuckets [] [] cs (tt, tt, λ k gone. refl)).0

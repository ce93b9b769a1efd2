-- ===== src/Sync/Gaps.antt =====
-- What `_missing_ranges` returns: the maximal runs of absent minutes.
use smc_ict_engine.Prelude.{
  ℕ, zero, suc, ◌+◌, ◌-◌, ◌*◌, ◌/◌, ◌%◌, ◌≤◌, ◌<◌, ◌≡◌, refl, ap, ◌∙◌, Bool, true, false, not, ◌&&◌,
  Option, none, some, List, [], ◌∷◌, ◌++◌, inl, inr, arith, leb, if◌then◌else◌, any, Bool-cases,
  All, Starts, Starts-map, Chain, append_assoc, append-nil,
}
use smc_ict_engine.Domain.{minute_ms}
use smc_ict_engine.Sync.Ranges.{
  TimeRange, is_present, minutes_from, minute_count, minute_range, visit_minute, scan_minutes,
  close_range, missing_ranges,
}

-- A time lies in one of the ranges, both ends included.
abbrev pub covers : List TimeRange → ℕ → Bool
covers ranges u = any (λ r. leb r.0 u && leb u r.1) ranges

-- Two ranges leave a minute out between them.
abbrev pub IsApart : TimeRange → TimeRange → Type 0
IsApart r s = r.1 + minute_ms < s.0

abbrev pub IsOrdered : TimeRange → Type 0
IsOrdered r = r.0 ≤ r.1

module _ (present : List ℕ) (end : ℕ) where
  -- The ranges without an accumulator.
  runs : ℕ → ℕ → Option ℕ → List TimeRange
  runs zero t none = []
  runs zero t (some first) = (first, end) ∷ []
  runs (suc n) t none =
      let stays = runs n (t + minute_ms) none in
      let opens = runs n (t + minute_ms) (some t) in if is_present present t then stays else opens
  runs (suc n) t (some first) =
      let closes = (first, t - minute_ms) ∷ runs n (t + minute_ms) none in
      let goes_on = runs n (t + minute_ms) (some first) in
      if is_present present t then closes else goes_on

  scan_step :
      (b : Bool) (t : ℕ) (ts : List ℕ) (missing : Option ℕ) (acc : List TimeRange)
      → is_present present t ≡ b
      → scan_minutes present (t ∷ ts) missing acc ≡ (
          let (missing', acc') = visit_minute b t missing acc in
          scan_minutes present ts missing' acc')
  unfolding scan_minutes
  scan_step b t ts missing acc e =
      ap
        (λ b.
          scan_minutes present ts (visit_minute b t missing acc).0 (visit_minute b t missing acc).1)
        e

  scan-runs :
      (n t : ℕ) (missing : Option ℕ) (acc : List TimeRange)
      → close_range end (scan_minutes present (minutes_from n t) missing acc)
        ≡ acc ++ runs n t missing
  unfolding close_range runs visit_minute
  scan-runs zero t none acc = unfold scan_minutes in rw append-nil
  scan-runs zero t (some first) acc = unfold scan_minutes in refl
  scan-runs (suc n) t none acc = elim (Bool-cases (is_present present t)) [
    | inl here ↦ rw here (
        ap (close_range end) (scan_step true t _ none acc here)
        ∙ scan-runs n (t + minute_ms) none acc)
    | inr gone ↦ rw gone (
        ap (close_range end) (scan_step false t _ none acc gone)
        ∙ scan-runs n (t + minute_ms) (some t) acc)
  ]
  scan-runs (suc n) t (some first) acc = elim (Bool-cases (is_present present t)) [
    | inl here ↦ rw here (
        ap (close_range end) (scan_step true t _ (some first) acc here)
        ∙ scan-runs n (t + minute_ms) none (acc ++ (first, t - minute_ms) ∷ [])
        ∙ append_assoc acc ((first, t - minute_ms) ∷ []) (runs n (t + minute_ms) none))
    | inr gone ↦ rw gone (
        ap (close_range end) (scan_step false t _ (some first) acc gone)
        ∙ scan-runs n (t + minute_ms) (some first) acc)
  ]

  -- Where what is covered begins: at the open run, or at the next minute.
  abbrev floor : Option ℕ → ℕ → ℕ
  floor none t = t
  floor (some first) t = first

  runs_before :
      (n t u : ℕ) (missing : Option ℕ)
      → floor missing t ≤ t
      → u < floor missing t
      → covers (runs n t missing) u ≡ false
  unfolding runs
  runs_before zero t u none h k = refl
  runs_before zero t u (some first) h k = ground arith
  runs_before (suc n) t u none h k = ground (
    arith,
    runs_before n (t + minute_ms) u none (omega arith) (omega arith),
    runs_before n (t + minute_ms) u (some t) (omega arith) (omega arith),
  )
  runs_before (suc n) t u (some first) h k = ground (
    arith,
    runs_before n (t + minute_ms) u none (omega arith) (omega arith),
    runs_before n (t + minute_ms) u (some first) (omega arith) (omega arith),
  )

  -- The open run is covered up to the minute before the next.
  runs_open :
      (n t first u : ℕ)
      → end + minute_ms ≡ t + n * minute_ms
      → first ≤ u
      → u + minute_ms ≤ t
      → covers (runs n t (some first)) u ≡ true
  unfolding runs
  runs_open zero t first u e h k = ground arith
  runs_open (suc n) t first u e h k =
      ground (arith, runs_open n (t + minute_ms) first u (omega arith) h (omega arith))

  -- An open run began before the next minute.
  abbrev Opened : Option ℕ → ℕ → Type 0
  Opened none t = Unit
  Opened (some first) t = first + minute_ms ≤ t

  -- Each minute still to come is covered exactly if it is absent.
  runs_at :
      (n t k u : ℕ) (missing : Option ℕ)
      → end + minute_ms ≡ t + n * minute_ms
      → Opened missing t
      → k < n
      → u ≡ t + k * minute_ms
      → covers (runs n t missing) u ≡ not (is_present present u)
  unfolding runs
  runs_at zero t k u missing e f h at = absurd (omega arith)
  runs_at (suc n) t zero u none e f h at = ground (
    arith,
    runs_before n (t + minute_ms) u none (omega arith) (omega arith),
    runs_open n (t + minute_ms) t u (omega arith) (omega arith) (omega arith),
  )
  runs_at (suc n) t zero u (some first) e f h at = ground (
    arith,
    runs_before n (t + minute_ms) u none (omega arith) (omega arith),
    runs_open n (t + minute_ms) first u (omega arith) (omega arith) (omega arith),
  )
  runs_at (suc n) t (suc k) u none e f h at = ground (
    arith,
    runs_at n (t + minute_ms) k u none (omega arith) tt (omega arith) (omega arith),
    runs_at n (t + minute_ms) k u (some t) (omega arith) (omega arith) (omega arith) (omega arith),
  )
  runs_at (suc n) t (suc k) u (some first) e f h at = ground (
    arith,
    runs_at n (t + minute_ms) k u none (omega arith) tt (omega arith) (omega arith),
    runs_at n (t + minute_ms) k u (some first) (omega arith) (omega arith) (omega arith)
        (omega arith),
  )

  runs_start :
      (n t : ℕ) (missing : Option ℕ)
      → floor missing t ≤ t
      → Starts (λ r. floor missing t ≤ r.0) (runs n t missing)
  unfolding runs
  runs_start zero t none h = tt
  runs_start zero t (some first) h = omega arith
  runs_start (suc n) t none h = elim (Bool-cases (is_present present t)) [
    | inl here ↦ rw here (
        Starts-map (λ r le. omega (arith, le)) (runs n (t + minute_ms) none)
          (runs_start n (t + minute_ms) none (omega arith)))
    | inr gone ↦ rw gone (runs_start n (t + minute_ms) (some t) (omega arith))
  ]
  runs_start (suc n) t (some first) h = elim (Bool-cases (is_present present t)) [
    | inl here ↦ rw here (omega arith)
    | inr gone ↦ rw gone (runs_start n (t + minute_ms) (some first) (omega arith))
  ]

  runs-IsApart :
      (n t : ℕ) (missing : Option ℕ)
      → end + minute_ms ≡ t + n * minute_ms
      → Opened missing t
      → Chain IsApart (runs n t missing) × All IsOrdered (runs n t missing)
  unfolding runs
  runs-IsApart zero t none e f = (tt, tt)
  runs-IsApart zero t (some first) e f = ((tt, tt), (omega arith, tt))
  runs-IsApart (suc n) t none e f = elim (Bool-cases (is_present present t)) [
    | inl here ↦ rw here (runs-IsApart n (t + minute_ms) none (omega arith) tt)
    | inr gone ↦ rw gone (runs-IsApart n (t + minute_ms) (some t) (omega arith) (omega arith))
  ]
  runs-IsApart (suc n) t (some first) e f = elim (Bool-cases (is_present present t)) [
    | inl here ↦
        let (apart, ordered) = runs-IsApart n (t + minute_ms) none (omega arith) tt in
        rw here (
          (
            Starts-map (λ r le. omega (arith, le)) (runs n (t + minute_ms) none)
                (runs_start n (t + minute_ms) none (omega arith)),
            apart,
          ),
          (omega arith, ordered),
        )
    | inr gone ↦ rw gone (runs-IsApart n (t + minute_ms) (some first) (omega arith) (omega arith))
  ]

minute_count_ordered :
    (start end : ℕ) → start ≤ end → minute_count start end ≡ (end - start) / minute_ms + 1
unfolding minute_count
minute_count_ordered start end ordered = ground arith

missing_ranges-runs :
    (start end : ℕ) (present : List ℕ)
    → start ≤ end
    → missing_ranges start end present ≡ runs present end ((end - start) / minute_ms + 1) start none
unfolding missing_ranges minute_range
missing_ranges-runs start end present ordered =
    scan-runs present end (minute_count start end) start none []
    ∙ ap (λ n. runs present end n start none) (minute_count_ordered start end ordered)

-- A minute of the requested range lies in a missing range exactly if it is not present: nothing
-- that is stored is fetched again, and no gap is left out. The ends are aligned minutes in order.
pub missing_ranges_exact :
    (start end k : ℕ) (present : List ℕ)
    → start ≤ end
    → (end - start) % minute_ms ≡ 0
    → start + k * minute_ms ≤ end
    → covers (missing_ranges start end present) (start + k * minute_ms)
      ≡ not (is_present present (start + k * minute_ms))
missing_ranges_exact start end k present ordered aligned inside =
    rw (missing_ranges-runs start end present ordered) (
      runs_at present end ((end - start) / minute_ms + 1) start k (start + k * minute_ms) none
        (omega arith) tt (omega arith) refl)

-- The missing ranges are whole runs: each has its first minute no later than its last, and between
-- one and the next there is a minute that no range holds. The ends are aligned minutes in order.
pub missing_ranges-IsApart :
    (start end : ℕ) (present : List ℕ)
    → start ≤ end
    → (end - start) % minute_ms ≡ 0
    → Chain IsApart (missing_ranges start end present)
      × All IsOrdered (missing_ranges start end present)
missing_ranges-IsApart start end present ordered aligned =
    rw (missing_ranges-runs start end present ordered)
      (runs-IsApart present end ((end - start) / minute_ms + 1) start none (omega arith) tt)

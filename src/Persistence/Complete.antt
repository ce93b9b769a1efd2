-- ===== src/Persistence/Complete.antt =====
-- What a page of candles leaves of the stored minutes and of the sync state.
use smc_ict_engine.Prelude.{
  ℕ, zero, suc, ◌+◌, ◌*◌, ◌≤◌, max, ◌==◌, ◌≡◌, ◌⊎◌, ◌↔◌, ◌∙◌, refl, sym, ap, subst, Bool, true,
  false, ◌&&◌, leb, any, All, All-map, Option, none, some, List, [], ◌∷◌, map, keep, eq_iff,
  eq_refl, if◌then◌else◌, Bool-cases, false-true, inl, inr, arith, tests,
}
use smc_ict_engine.Prelude.Sort.{sort-All}
use smc_ict_engine.Domain.{ClosedCandle, minute_ms}
use smc_ict_engine.Persistence.Candles.{
  Market, market_of, market_eqb, SyncState, Store, find_state, put_state, open_times, completed,
  leaves_gap, furthest, state_at, advanced, advance_sync_state,
}

-- The minute of a market is stored.
unfoldable pub has_minute : Market → ℕ → List ClosedCandle → Bool
has_minute m t candles = any (λ c. market_eqb (market_of c) m && c.open_time_ms == t) candles

one_more :
    (m : Market) (t : ℕ) (c : ClosedCandle) (cs : List ClosedCandle)
    → has_minute m t cs ≡ true
    → has_minute m t (c ∷ cs) ≡ true
unfolding has_minute
one_more m t c cs h = ground arith

kept_minutes :
    (m : Market) (start : ℕ) (cs : List ClosedCandle)
    → All
        (λ c. has_minute m c.open_time_ms cs ≡ true)
        (keep (λ c. market_eqb (market_of c) m && leb start c.open_time_ms) cs)
unfolding has_minute
kept_minutes m start [] = tt
kept_minutes m start (c ∷ cs) =
    let later =
      All-map (λ d h. one_more m d.open_time_ms c cs h)
        (keep (λ c. market_eqb (market_of c) m && leb start c.open_time_ms) cs)
        (kept_minutes m start cs) in
    elim (Bool-cases (market_eqb (market_of c) m && leb start c.open_time_ms)) [
      | inl e ↦ rw e (ground arith, later)
      | inr e ↦ rw e later
    ]

All-map_to :
    {A B : Type 0} (P : B → Type 0) (f : A → B) (xs : List A)
    → All (λ x. P (f x)) xs
    → All P (map f xs)
All-map_to P f [] h = tt
All-map_to P f (x ∷ xs) h = (h.0, All-map_to P f xs h.1)

-- Each of the open times is a stored minute.
open_times_stored :
    (m : Market) (start : ℕ) (cs : List ClosedCandle)
    → All (λ t. has_minute m t cs ≡ true) (open_times m start cs)
unfolding open_times
open_times_stored m start cs =
    sort-All leb (λ t. has_minute m t cs ≡ true)
      (map (λ c. c.open_time_ms)
        (keep (λ c. market_eqb (market_of c) m && leb start c.open_time_ms) cs))
      (All-map_to (λ t. has_minute m t cs ≡ true) (λ c. c.open_time_ms)
        (keep (λ c. market_eqb (market_of c) m && leb start c.open_time_ms) cs)
        (kept_minutes m start cs))

-- Every minute from one time to another
abbrev pub Filled : (P : ℕ → Type 0) → (start until : ℕ) → Type 0
Filled P start until = (k : ℕ) → start + k * minute_ms ≤ until → P (start + k * minute_ms)

completed-Filled :
    (P : ℕ → Type 0) (expected : ℕ) (prefix : Option ℕ) (ts : List ℕ)
    → All P ts
    → (completed expected prefix ts ≡ prefix)
      ⊎ ((p : ℕ) × (completed expected prefix ts ≡ some p) × Filled P expected p)
unfolding completed
completed-Filled P expected prefix [] h = inl refl
completed-Filled P expected prefix (t ∷ ts) (pt, h) = elim (Bool-cases (t == expected)) [
  | inr other ↦ inl (rw other refl)
  | inl same ↦ elim (completed-Filled P (expected + minute_ms) (some t) ts h) [
    | inl e ↦ inr (t, rw same e, here same)
    | inr (p, e, f) ↦ inr (p, rw same e, onward same p f)
  ]
]
  where
    here : (t == expected) ≡ true → Filled P expected t
    here same zero le = subst P (ground arith) pt
    here same (suc k) le = absurd (ground arith)

    onward :
        (t == expected) ≡ true → (p : ℕ) → Filled P (expected + minute_ms) p → Filled P expected p
    onward same p f zero le = subst P (ground arith) pt
    onward same p f (suc k) le = subst P (omega arith) (f k (omega (arith, le)))

market_eqb_iff : (a b : Market) → (market_eqb a b ≡ true) ↔ (a ≡ b)
unfolding market_eqb
market_eqb_iff a b = (
  λ h. ground (
    arith,
    eq_iff a.provider_id b.provider_id,
    eq_iff a.market_type b.market_type,
    eq_iff a.instrument_id b.instrument_id,
    eq_iff a.interval b.interval,
  ),
  λ h. rw h (
      ground (
        arith,
        eq_refl b.provider_id,
        eq_refl b.market_type,
        eq_refl b.instrument_id,
        eq_refl b.interval,
      )),
)

differs_of :
    (a b m : Market) → market_eqb a b ≡ false → market_eqb a m ≡ true → market_eqb b m ≡ false
differs_of a b m other same = elim (Bool-cases (market_eqb b m)) [
  | inl e ↦ absurd (
      false-true (
        sym other
        ∙ (market_eqb_iff a b).1 ((market_eqb_iff a m).0 same ∙ sym ((market_eqb_iff b m).0 e))))
  | inr e ↦ e
]

find_state-put_state :
    (m : Market) (x : SyncState) (states : List SyncState)
    → find_state m (put_state x states)
      ≡ (if market_eqb x.market m then some x else find_state m states)
unfolding find_state put_state
find_state-put_state m x [] = refl
find_state-put_state m x (r ∷ rs) = elim (Bool-cases (market_eqb r.market x.market)) [
  | inl same ↦
      let e = (market_eqb_iff r.market x.market).0 same in
      rw same (by_test (market_eqb x.market m) (market_eqb r.market m) (ap (λ k. market_eqb k m) e))
  | inr other ↦ elim (Bool-cases (market_eqb r.market m)) [
    | inl here ↦ rw (other, here, differs_of r.market x.market m other here) refl
    | inr away ↦ rw (other, away) (find_state-put_state m x rs)
  ]
]
  where
    by_test :
        (a b : Bool)
        → b ≡ a
        → (if a then some x else find_state m rs)
          ≡ (if a then some x else (if b then some r else find_state m rs))
    by_test true b h = refl
    by_test false true h = cc
    by_test false false h = refl

-- How far a market is complete
abbrev pub reached : Option SyncState → Option ℕ
reached none = none
reached (some x) = some x.last_completed_open_time_ms

abbrev pub AtMost : Option ℕ → ℕ → Type 0
AtMost none n = Unit {0}
AtMost (some k) n = k ≤ n

-- The sync state of a market after a page that starts at a time: as before, or no less far; and where
-- it went on, every minute from the start is stored.
abbrev pub Advances : (start : ℕ) → Store → Store → Market → Type 0
Advances start s t m =
    (find_state m t.states ≡ find_state m s.states)
    ⊎ ((x : SyncState) × (find_state m t.states ≡ some x)
        × AtMost (reached (find_state m s.states)) x.last_completed_open_time_ms
        × (leaves_gap (find_state m s.states) start ≡ false)
        × ((reached (find_state m s.states) ≡ some x.last_completed_open_time_ms)
            ⊎ Filled (λ minute. has_minute m minute t.candles ≡ true) start
                x.last_completed_open_time_ms))

module _ (m : Market) (sync start : ℕ) (s : Store) where
  furthest_cases :
      (prefix : ℕ) (existing : Option SyncState) (P : ℕ → Type 0)
      → Filled P start prefix
      → AtMost (reached existing) (furthest prefix existing)
        × ((reached existing ≡ some (furthest prefix existing))
            ⊎ Filled P start (furthest prefix existing))
  furthest_cases prefix none P f = (tt, inr f)
  furthest_cases prefix (some x) P f =
      elim (Bool-cases (leb prefix x.last_completed_open_time_ms)) [
        | inl behind ↦
            let e : max prefix x.last_completed_open_time_ms ≡ x.last_completed_open_time_ms =
              omega (tests, behind) in
            rw e (omega arith, inl refl)
        | inr ahead ↦
            let e : max prefix x.last_completed_open_time_ms ≡ prefix = ground (arith, ahead) in
            rw e (ground arith, inr f)
      ]

  pub advance_sync_state-Advances :
      (other : Market) → Advances start s (advance_sync_state m sync start s) other
  unfolding advance_sync_state
  advance_sync_state-Advances other = elim (Bool-cases (leaves_gap (find_state m s.states) start)) [
    | inl gap ↦ rw gap (inl refl)
    | inr joined ↦ rw joined (
        by_prefix joined (
          completed-Filled (λ t. has_minute m t s.candles ≡ true) start none
            (open_times m start s.candles) (open_times_stored m start s.candles)))
  ]
    where
      by_market :
          leaves_gap (find_state m s.states) start ≡ false
          → (p : ℕ) → Filled (λ t. has_minute m t s.candles ≡ true) start p
          → Advances start s (advanced m sync (find_state m s.states) (some p) s) other
      by_market joined p f =
          let existing = find_state m s.states in
          let x = state_at m (furthest p existing) sync in
          let (far, how) = furthest_cases p existing (λ t. has_minute m t s.candles ≡ true) f in
          elim (Bool-cases (market_eqb m other)) [
            | inl same ↦
                subst (λ o. Advances start s (advanced m sync existing (some p) s) o)
                  ((market_eqb_iff m other).0 same)
                  (inr (
                    x,
                    find_state-put_state m x s.states
                        ∙ ap (λ b. if b then some x else existing) ((market_eqb_iff m m).1 refl),
                    far,
                    joined,
                    how,
                  ))
            | inr away ↦ inl (
                find_state-put_state other x s.states
                ∙ ap (λ b. if b then some x else find_state other s.states) away)
          ]

      by_prefix :
          leaves_gap (find_state m s.states) start ≡ false
          → (completed start none (open_times m start s.candles) ≡ none)
            ⊎ ((p : ℕ) × (completed start none (open_times m start s.candles) ≡ some p)
                × Filled (λ t. has_minute m t s.candles ≡ true) start p)
          → Advances start s
              (advanced m sync
                (find_state m s.states)
                (completed start none (open_times m start s.candles))
                s)
              other
      by_prefix joined (inl e) = rw e (inl refl)
      by_prefix joined (inr (p, e, f)) = rw e (by_market joined p f)

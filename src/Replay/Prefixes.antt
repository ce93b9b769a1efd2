-- ===== src/Replay/Prefixes.antt =====
-- The candles that an evaluation may see: neither later nor earlier ones, and none is left out.
use smc_ict_engine.Prelude.{
  ℕ, zero, suc, ◌+◌, ◌-◌, ◌*◌, ◌≤◌, ◌<◌, Bool, true, false, ◌&&◌, ◌≡◌, refl, sym, ap, ◌∙◌, List, [],
  ◌∷◌, arith, inl, inr, Bool-cases, leb, ltb, keep, take, drop, All, Chain,
}
use smc_ict_engine.Domain.{minute_ms}
use smc_ict_engine.Resampling.{DerivedCandle}
use smc_ict_engine.Replay.Ranges.{bisect_right, first_index, close_times, prefix}

abbrev pub ClosesLater : DerivedCandle → DerivedCandle → Type 0
ClosesLater c d = c.close_time_ms ≤ d.close_time_ms

-- The candle has closed, and that less than the history ago.
abbrev pub is_visible : (evaluation_time_ms history_minutes : ℕ) → DerivedCandle → Bool
is_visible time history c =
    leb c.close_time_ms time && ltb time (c.close_time_ms + history * minute_ms)

All-later :
    (x : ℕ) (c : DerivedCandle) (cs : List DerivedCandle)
    → x < c.close_time_ms
    → Chain ClosesLater (c ∷ cs)
    → All (λ d. x < d.close_time_ms) (c ∷ cs)
All-later x c [] h chain = (h, tt)
All-later x c (d ∷ ds) h chain = (h, All-later x d ds (omega (arith, h, chain.0)) chain.1)

none_visible :
    (time history : ℕ) (cs : List DerivedCandle)
    → All (λ d. time < d.close_time_ms) cs
    → keep (is_visible time history) cs ≡ []
none_visible time history [] h = refl
none_visible time history (c ∷ cs) h = ground (arith, h.0, none_visible time history cs h.1)

bisect_none :
    (x : ℕ) (cs : List DerivedCandle)
    → All (λ d. x < d.close_time_ms) cs
    → bisect_right (close_times cs) x ≡ 0
unfolding bisect_right
bisect_none x [] h = refl
bisect_none x (c ∷ cs) h = ground (arith, h.0)

drop-nil : (n : ℕ) → drop {A = DerivedCandle} n [] ≡ []
drop-nil zero = refl
drop-nil (suc n) = refl

-- The history reaches back to the start of time.
take_visible :
    (candles : List DerivedCandle) (time history : ℕ)
    → time < history * minute_ms
    → Chain ClosesLater candles
    → take (bisect_right (close_times candles) time) candles
      ≡ keep (is_visible time history) candles
unfolding bisect_right
take_visible [] time history h chain = refl
take_visible (c ∷ cs) time history h chain = elim (Bool-cases (leb c.close_time_ms time)) [
  | inr late ↦
      rw late
        (sym (none_visible time history cs (All-later time c cs (ground (arith, late)) chain).1))
  | inl closed ↦ ground (arith, closed, take_visible cs time history h chain.1)
]

outdated :
    (close time span : ℕ)
    → span ≤ time
    → leb close (time - span) ≡ true
    → ltb time (close + span) ≡ false
outdated close time span h e = ground arith

recent :
    (close time span : ℕ)
    → span ≤ time
    → leb close (time - span) ≡ false
    → ltb time (close + span) ≡ true
recent close time span h e = ground arith

drop_visible :
    (candles : List DerivedCandle) (time history : ℕ)
    → history * minute_ms ≤ time
    → Chain ClosesLater candles
    → drop
        (bisect_right (close_times candles) (time - history * minute_ms))
        (take (bisect_right (close_times candles) time) candles)
      ≡ keep (is_visible time history) candles
unfolding bisect_right
drop_visible [] time history h chain = refl
drop_visible (c ∷ cs) time history h chain = elim (Bool-cases (leb c.close_time_ms time)) [
  | inr late ↦ rw late (
      drop-nil _
      ∙ sym (none_visible time history cs (All-later time c cs (ground (arith, late)) chain).1))
  | inl closed ↦ elim (Bool-cases (leb c.close_time_ms (time - history * minute_ms))) [
    | inl early ↦ rw closed (
        rw early (
          rw (outdated c.close_time_ms time (history * minute_ms) h early)
            (drop_visible cs time history h chain.1)))
    | inr kept ↦ rw closed (
        rw kept (
          rw (recent c.close_time_ms time (history * minute_ms) h kept) (
            ap (λ l. c ∷ l)
              (ap (λ n. drop n (take (bisect_right (close_times cs) time) cs))
                  (sym (
                    bisect_none (time - history * minute_ms) cs
                      (All-later (time - history * minute_ms) c cs (ground (arith, kept)) chain).1))
                ∙ drop_visible cs time history h chain.1))))
  ]
]

-- The candles of an evaluation are exactly those that had closed by its time, and less than the
-- history before it. The candles stand in the order of their closing times.
pub prefix_visible :
    (candles : List DerivedCandle) (time history : ℕ)
    → Chain ClosesLater candles
    → prefix candles time history ≡ keep (is_visible time history) candles
unfolding prefix first_index
prefix_visible candles time history chain = elim (Bool-cases (ltb time (history * minute_ms))) [
  | inl reaches ↦ rw reaches (take_visible candles time history (ground (arith, reaches)) chain)
  | inr short ↦ rw short (drop_visible candles time history (ground (arith, short)) chain)
]

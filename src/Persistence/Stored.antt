-- ===== src/Persistence/Stored.antt =====
-- A page of candles as a whole: what it leaves of the store.
use smc_ict_engine.Prelude.{
  ℕ, ◌%◌, ◌==◌, ◌≡◌, ◌⊎◌, ◌∙◌, refl, sym, ap, subst, Bool, true, false, not, any, All, Option, none,
  some, List, [], ◌∷◌, ◌++◌, eq_refl, if◌then◌else◌, Result, ok, err, is_ok, ◌>>=◌, bind-eq-ok,
  ok_inj, err-ne-ok, Bool-cases, inl, inr, arith,
}
use smc_ict_engine.Domain.{ClosedCandle, same_key, minute_ms}
use smc_ict_engine.Persistence.Tables.{settled, transaction}
use smc_ict_engine.Persistence.Candles.{
  Market, market_of, market_eqb, Store, find_candle, find_state, open_times, completed, leaves_gap,
  advanced, advance_sync_state, put_candle, put_page, store_page_body, store_candle_page,
}
use smc_ict_engine.Persistence.Complete.{Advances, advance_sync_state-Advances}

same_key_refl : (c : ClosedCandle) → same_key c c ≡ true
same_key_refl c = ground (
  arith,
  eq_refl c.provider_id,
  eq_refl c.market_type,
  eq_refl c.instrument_id,
  eq_refl c.interval,
)

-- A candle that is stored stays.
find_candle-append :
    (k : ClosedCandle) (rows more : List ClosedCandle) (r : ClosedCandle)
    → find_candle k rows ≡ some r
    → find_candle k (rows ++ more) ≡ some r
unfolding find_candle
find_candle-append k [] more r h = absurd (cc)
find_candle-append k (x ∷ rows) more r h = elim (Bool-cases (same_key x k)) [
  | inl e ↦ rw e (rw e at h)
  | inr e ↦ rw e (find_candle-append k rows more r (rw e at h))
]

module _ (accepts : ClosedCandle → Bool) (columns_eqb : ClosedCandle → ClosedCandle → Bool) where
  put_page-keeps :
      (page rows after : List ClosedCandle) (k r : ClosedCandle)
      → put_page accepts columns_eqb page rows ≡ ok after
      → find_candle k rows ≡ some r
      → find_candle k after ≡ some r
  unfolding put_page
  put_page-keeps [] rows after k r h found =
      subst (λ rs. find_candle k rs ≡ some r) (ok_inj h) found
  put_page-keeps (c ∷ cs) rows after k r h found =
      let (next, stored, rest) =
        bind-eq-ok (put_candle accepts columns_eqb c (find_candle c rows) rows) _ h in
      put_page-keeps cs next after k r rest (by_row (find_candle c rows) next stored)
    where
      by_row :
          (row : Option ClosedCandle) (next : List ClosedCandle)
          → put_candle accepts columns_eqb c row rows ≡ ok next
          → find_candle k next ≡ some r
      by_row none next e = elim (Bool-cases (accepts c)) [
        | inl a ↦
            subst (λ rs. find_candle k rs ≡ some r) (ok_inj (rw a at e))
              (find_candle-append k rows (c ∷ []) r found)
        | inr a ↦ absurd (err-ne-ok (rw a at e))
      ]
      by_row (some x) next e = elim (Bool-cases (columns_eqb x c)) [
        | inl a ↦ subst (λ rs. find_candle k rs ≡ some r) (ok_inj (rw a at e)) found
        | inr a ↦ absurd (err-ne-ok (rw a at e))
      ]

  -- The row of a candle, with its columns
  abbrev pub Holds : List ClosedCandle → ClosedCandle → Type 0
  Holds rows c = (r : ClosedCandle) × (find_candle c rows ≡ some r) × (columns_eqb r c ≡ true)

  find_candle_new :
      (c : ClosedCandle) (rows : List ClosedCandle)
      → find_candle c rows ≡ none
      → find_candle c (rows ++ c ∷ []) ≡ some c
  unfolding find_candle
  find_candle_new c [] h = ap (λ b. if b then some c else none) (same_key_refl c)
  find_candle_new c (x ∷ rows) h = elim (Bool-cases (same_key x c)) [
    | inl e ↦ absurd (cc (rw e at h))
    | inr e ↦ rw e (find_candle_new c rows (rw e at h))
  ]

  module _ (columns_refl : (c : ClosedCandle) → columns_eqb c c ≡ true) where
    put_candle-Holds :
        (c : ClosedCandle) (rows next : List ClosedCandle) (row : Option ClosedCandle)
        → find_candle c rows ≡ row
        → put_candle accepts columns_eqb c row rows ≡ ok next
        → Holds next c
    put_candle-Holds c rows next none found e = elim (Bool-cases (accepts c)) [
      | inl a ↦
          subst (λ rs. Holds rs c) (ok_inj (rw a at e))
            (c, find_candle_new c rows found, columns_refl c)
      | inr a ↦ absurd (err-ne-ok (rw a at e))
    ]
    put_candle-Holds c rows next (some x) found e = elim (Bool-cases (columns_eqb x c)) [
      | inl a ↦ subst (λ rs. Holds rs c) (ok_inj (rw a at e)) (x, found, a)
      | inr a ↦ absurd (err-ne-ok (rw a at e))
    ]

    put_page-Holds :
        (page rows after : List ClosedCandle)
        → put_page accepts columns_eqb page rows ≡ ok after
        → All (Holds after) page
    unfolding put_page
    put_page-Holds [] rows after h = tt
    put_page-Holds (c ∷ cs) rows after h =
        let (next, stored, rest) =
          bind-eq-ok (put_candle accepts columns_eqb c (find_candle c rows) rows) _ h in
        let (r, found, same) = put_candle-Holds c rows next (find_candle c rows) refl stored in
        ((r, put_page-keeps cs next after c r rest found, same), put_page-Holds cs next after rest)

  -- What a transaction over a page ends with
  abbrev Ended :
      Result (Unit {0}) × Store → (page : List ClosedCandle) → (sync start : ℕ) → Store → Type 0
  Ended p page sync start s =
      ((p.1 ≡ s) × (is_ok p.0 ≡ false))
      ⊎ ((m : Market) × (rows : List ClosedCandle) × (put_page accepts columns_eqb page s.candles
            ≡ ok rows)
          × (p.1 ≡ advance_sync_state m sync start (record s { candles = rows })))

  settled-Ended :
      (m : Market) (page : List ClosedCandle) (sync start : ℕ) (s : Store)
      (rows : Result (List ClosedCandle))
      → put_page accepts columns_eqb page s.candles ≡ rows
      → Ended
          (settled s
            (rows >>= λ rs. ok (tt, advance_sync_state m sync start (record s { candles = rs }))))
          page
          sync
          start
          s
  settled-Ended m page sync start s (ok rows) e = inr (m, rows, e, refl)
  settled-Ended m page sync start s (err x) e = inl (refl, refl)

  -- A page that is stored returned from its body; any other leaves the store as it was.
  store_candle_page_cases :
      (page : List ClosedCandle) (sync start : ℕ) (s : Store)
      → Ended (store_candle_page accepts columns_eqb page sync start s) page sync start s
  unfolding store_candle_page store_page_body transaction
  store_candle_page_cases [] sync start s = inl (refl, refl)
  store_candle_page_cases (c ∷ cs) sync start s = elim (Bool-cases (not (start % minute_ms == 0))) [
    | inl odd ↦ inl (rw odd (refl, refl))
    | inr aligned ↦
        elim (Bool-cases (any (λ d. not (market_eqb (market_of d) (market_of c))) (c ∷ cs))) [
          | inl mixed ↦ inl (rw (aligned, mixed) (refl, refl))
          | inr one ↦
              rw (aligned, one)
                (settled-Ended (market_of c) (c ∷ cs) sync start s
                  (put_page accepts columns_eqb (c ∷ cs) s.candles) refl)
        ]
  ]

  -- In every call, whether it returns or raises, each market's sync state either stays, or goes no
  -- further back; it goes on only if the start leaves no gap after it, and then every minute from the
  -- start to the new last one is stored.
  pub store_candle_page-Advances :
      (page : List ClosedCandle) (sync start : ℕ) (s : Store) (market : Market)
      → Advances start s (store_candle_page accepts columns_eqb page sync start s).1 market
  store_candle_page-Advances page sync start s market =
      elim (store_candle_page_cases page sync start s) [
        | inl (same, raised) ↦ inl (ap (λ t. find_state market t.states) same)
        | inr (m, rows, stored, e) ↦
            subst (λ t. Advances start s t market) (sym e)
              (advance_sync_state-Advances m sync start (record s { candles = rows }) market)
      ]

  candles-advance_sync_state :
      (m : Market) (sync start : ℕ) (s : Store)
      → (advance_sync_state m sync start s).candles ≡ s.candles
  unfolding advance_sync_state
  candles-advance_sync_state m sync start s =
      elim (Bool-cases (leaves_gap (find_state m s.states) start)) [
        | inl gap ↦ rw gap refl
        | inr joined ↦ rw joined (by_prefix (completed start none (open_times m start s.candles)))
      ]
    where
      by_prefix : (p : Option ℕ) → (advanced m sync (find_state m s.states) p s).candles ≡ s.candles
      by_prefix none = refl
      by_prefix (some p) = refl

  -- A candle that is stored is found as it was after every later page, whether its storing returns or
  -- raises; and after a page is stored, each of its candles is found, with its columns. Equal texts
  -- compare equal.
  pub store_candle_page-Holds :
      ((c : ClosedCandle) → columns_eqb c c ≡ true)
      → (page : List ClosedCandle) (sync start : ℕ) (s : Store)
      → ((k r : ClosedCandle)
          → find_candle k s.candles ≡ some r
          → find_candle k (store_candle_page accepts columns_eqb page sync start s).1.candles
            ≡ some r)
        × ((is_ok (store_candle_page accepts columns_eqb page sync start s).0 ≡ false)
            ⊎ All (Holds (store_candle_page accepts columns_eqb page sync start s).1.candles) page)
  store_candle_page-Holds columns_refl page sync start s =
      elim (store_candle_page_cases page sync start s) [
        | inl (same, raised) ↦
            (λ k r found. ap (λ t. find_candle k t.candles) same ∙ found, inl raised)
        | inr (m, rows, stored, e) ↦
            let candles : (store_candle_page accepts columns_eqb page sync start s).1.candles
                ≡ rows =
              ap (λ t. t.candles) e
              ∙ candles-advance_sync_state m sync start (record s { candles = rows }) in
            (
              λ k r found.
                  ap (find_candle k) candles ∙ put_page-keeps page s.candles rows k r stored found,
              inr (
                  subst (λ rs. All (Holds rs) page) (sym candles)
                    (put_page-Holds columns_refl page s.candles rows stored)),
            )
      ]

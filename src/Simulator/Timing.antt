-- ===== src/Simulator/Timing.antt =====
-- When trades open and close, over a candle series with no gap: what `PointInTimeReplay` checks
-- before it hands the candles on.
use smc_ict_engine.Prelude.{
  ℕ, ◌+◌, ◌-◌, ◌/◌, ◌≤◌, ◌<◌, true, ◌≡◌, ◌≢◌, ◌⊎◌, refl, sym, Option, none, some, String, List, [],
  ◌∷◌, ◌++◌, inl, inr, arith, Bool-cases, All, All-append, Chain, last, keep, ok, ◌>>=◌, bind-eq-ok,
  subst, Unpacked, ◌==◌, leb, tests,
}
use smc_ict_engine.Prelude.Sort.{sort, sort_of_Chain}
use smc_ict_engine.Decimal.{Decimal}
use smc_ict_engine.Domain.{ClosedCandle, ReplayEvaluation, minute_ms}
use smc_ict_engine.Simulator.Trade.{
  OpenTrade, PendingTrade, TradeRecord, expired, closed, ExitReason, target_reached, end_of_data,
  touches_entry, held_minutes, expired_record, closed_figures, closed_record, filled_record,
}
use smc_ict_engine.Simulator.Loop.{
  Simulator, Book, empty_book, expire_pending, fill_pending, exit_rule, close_opened, manage_opened,
  is_new_ready, take_signal, accept, accept_all, step, run_candles, flush_pending, finish,
  run_instrument, evaluation_le, candle_le, entry_window_ms,
}

-- `ClosedCandle` and `_validate_candles`: each candle takes a minute, and the next one follows it.
abbrev pub IsContiguous : List ClosedCandle → Type 0
IsContiguous cs =
    All (λ c. c.close_time_ms ≡ c.open_time_ms + 59_999) cs
    × Chain (λ c d. d.open_time_ms ≡ c.open_time_ms + minute_ms) cs

module _ (sim : Simulator) where
  -- The times of a record that was closed: the entry is after the signal and within the window,
  -- the exit is not before the entry, and after it for a target; the holding time keeps its limit.
  pub record IsTimelyExit (t : TradeRecord) (entry exit : ℕ) : Type 0 where
    pub after_signal : t.signal_time_ms < entry
    pub in_window : entry < t.signal_time_ms + 1 + entry_window_ms sim
    pub ordered : entry ≤ exit
    pub target_later : (t.exit_reason ≢ target_reached) ⊎ (entry < exit)
    pub held : (exit - entry) / minute_ms + 1 ≤ sim.maximum_holding_minutes
    pub is_closed : t.status ≡ closed

  abbrev pub IsTimely : TradeRecord → Type 0
  IsTimely t = elim t.entry_time_ms [
    | none ↦ (t.status ≡ expired) × (t.exit_time_ms ≡ none)
    | some entry ↦ elim t.exit_time_ms [ none ↦ ⊥ | some exit ↦ IsTimelyExit t entry exit ]
  ]

  -- What the book holds: a pending trade was signalled before `now`.
  abbrev PendingAt : ℕ → Option PendingTrade → Type 0
  PendingAt now none = Unit
  PendingAt now (some p) =
      (p.evaluation.evaluation_time_ms < now)
      × (p.expires_before_ms ≡ p.evaluation.evaluation_time_ms + 1 + entry_window_ms sim)

  record IsHeld (limit now : ℕ) (o : OpenTrade) : Type 0 where
    after_signal : o.evaluation.evaluation_time_ms < o.entry_time_ms
    in_window : o.entry_time_ms < o.evaluation.evaluation_time_ms + 1 + entry_window_ms sim
    started : o.entry_time_ms ≤ now
    held : (now - o.entry_time_ms) / minute_ms + 1 ≤ limit

  abbrev OpenedAt : (limit now : ℕ) → Option OpenTrade → Type 0
  OpenedAt limit now none = Unit
  OpenedAt limit now (some o) = IsHeld limit now o

  closed_record-IsTimely :
      (fee slip : Decimal) (o : OpenTrade) (c : ClosedCandle) (x y : Decimal) (reason : ExitReason)
      (t : TradeRecord)
      → IsHeld sim.maximum_holding_minutes c.open_time_ms o
      → (reason ≢ target_reached) ⊎ (o.entry_time_ms < c.open_time_ms)
      → closed_record fee slip o c x y reason ≡ ok t
      → IsTimely t
  unfolding closed_record filled_record
  closed_record-IsTimely fee slip o c x y reason t h later e =
      let (f, made, e') = bind-eq-ok (closed_figures fee slip o c x y) _ e in
      subst (λ r. Unpacked IsTimely r) e'
        (record {
          after_signal = h.after_signal;
          in_window = h.in_window;
          ordered = h.started;
          target_later = later;
          held = h.held;
          is_closed = refl;
        })

  exit_rule-later :
      (o : OpenTrade) (c : ClosedCandle) (reason : ExitReason) (x y : Decimal)
      → exit_rule sim o c ≡ some (reason, x, y)
      → (reason ≢ target_reached) ⊎ (o.entry_time_ms < c.open_time_ms)
  unfolding exit_rule
  exit_rule-later o c reason x y e = ground arith

  exit_rule-held :
      (o : OpenTrade) (c : ClosedCandle)
      → exit_rule sim o c ≡ none
      → held_minutes o c < sim.maximum_holding_minutes
  unfolding exit_rule
  exit_rule-held o c e = ground arith

  abbrev book : Option PendingTrade → Option OpenTrade → List TradeRecord → List String → Book
  book p o ts seen = record { pending = p; opened = o; trades = ts; seen_decisions = seen }

  record TimelyBook (limit pending_now opened_now : ℕ) (b : Book) : Type 0 where
    pending : PendingAt pending_now b.pending
    opened : OpenedAt limit opened_now b.opened
    trades : All IsTimely b.trades

  expire_pending-Timely :
      (c : ClosedCandle) (limit now : ℕ) (p : Option PendingTrade) (o : Option OpenTrade)
      (ts : List TradeRecord) (seen : List String)
      → TimelyBook limit now c.open_time_ms (book p o ts seen)
      → TimelyBook limit now c.open_time_ms (expire_pending c (book p o ts seen))
  unfolding expire_pending expired_record
  expire_pending-Timely c limit now none o ts seen h = h
  expire_pending-Timely c limit now (some p) o ts seen h =
      elim (Bool-cases (leb p.expires_before_ms c.open_time_ms)) [
        | inr waits ↦ rw waits h
        | inl over ↦ rw over (record {
          pending = tt;
          opened = h.opened;
          trades = All-append IsTimely ts (expired_record p ∷ []) h.trades ((refl, refl), tt);
        })
      ]

  fill_pending-Timely :
      (c : ClosedCandle) (now : ℕ) (p : Option PendingTrade) (o : Option OpenTrade)
      (ts : List TradeRecord) (seen : List String)
      → now ≤ c.open_time_ms
      → 1 ≤ sim.maximum_holding_minutes
      → TimelyBook sim.maximum_holding_minutes now c.open_time_ms (book p o ts seen)
      → TimelyBook sim.maximum_holding_minutes now c.open_time_ms
          (fill_pending sim c (book p o ts seen))
  unfolding fill_pending touches_entry
  fill_pending-Timely c now none o ts seen later limit h = h
  fill_pending-Timely c now (some p) o ts seen later limit h =
      elim (Bool-cases (touches_entry p c)) [
        | inr waits ↦ rw waits h
        | inl touched ↦ rw touched (record {
          pending = tt;
          opened = record {
            after_signal = omega (arith, h.pending.0);
            in_window = ground arith;
            started = omega arith;
            held = omega arith;
          };
          trades = h.trades;
        })
      ]

  close_opened-Timely :
      (c : ClosedCandle) (limit now : ℕ) (p : Option PendingTrade) (o : OpenTrade)
      (ts : List TradeRecord) (seen : List String) (reason : ExitReason) (x y : Decimal) (b : Book)
      → IsHeld sim.maximum_holding_minutes c.open_time_ms o
      → PendingAt now p
      → All IsTimely ts
      → (reason ≢ target_reached) ⊎ (o.entry_time_ms < c.open_time_ms)
      → close_opened sim o c (reason, x, y) (book p (some o) ts seen) ≡ ok b
      → TimelyBook limit now c.open_time_ms b
  unfolding close_opened
  close_opened-Timely c limit now p o ts seen reason x y b held pending old later e =
      let (t, made, e') =
        bind-eq-ok (closed_record sim.fee_rate sim.slippage_rate o c x y reason) _ e in
      subst (λ r. Unpacked (TimelyBook limit now c.open_time_ms) r) e'
        (record {
          pending = pending;
          opened = tt;
          trades = All-append IsTimely ts (t ∷ []) old (
            closed_record-IsTimely sim.fee_rate sim.slippage_rate o c x y reason t held later made,
            tt,
          );
        })

  left_held :
      (o : OpenTrade) (c : ClosedCandle)
      → held_minutes o c < sim.maximum_holding_minutes
      → (c.open_time_ms - o.entry_time_ms) / minute_ms + 1 ≤ sim.maximum_holding_minutes - 1
  unfolding held_minutes
  left_held o c h = omega arith

  -- The longest holding time that a trade left open may have reached.
  abbrev left_open : ℕ
  left_open = sim.maximum_holding_minutes - 1

  manage_opened-Timely :
      (c : ClosedCandle) (now : ℕ) (p : Option PendingTrade) (o : Option OpenTrade)
      (ts : List TradeRecord) (seen : List String) (b : Book)
      → TimelyBook sim.maximum_holding_minutes now c.open_time_ms (book p o ts seen)
      → manage_opened sim c (book p o ts seen) ≡ ok b
      → TimelyBook left_open now c.open_time_ms b
  unfolding manage_opened
  manage_opened-Timely c now p none ts seen b h e =
      subst (λ r. Unpacked (TimelyBook left_open now c.open_time_ms) r) e
        (record { pending = h.pending; opened = tt; trades = h.trades })
  manage_opened-Timely c now p (some o) ts seen b h e = managed (exit_rule sim o c) refl e
    where
      managed :
          (exit : Option (ExitReason × Decimal × Decimal))
          → exit_rule sim o c ≡ exit
          → elim exit [
            | none ↦ ok (book p (some o) ts seen)
            | some e ↦ close_opened sim o c e (book p (some o) ts seen)
          ]
            ≡ ok b
          → TimelyBook left_open now c.open_time_ms b
      managed none rule e =
          subst (λ r. Unpacked (TimelyBook left_open now c.open_time_ms) r) e
            (record {
              pending = h.pending;
              opened = record {
                after_signal = h.opened.after_signal;
                in_window = h.opened.in_window;
                started = h.opened.started;
                held = left_held o c (exit_rule-held o c rule);
              };
              trades = h.trades;
            })
      managed (some (reason, x, y)) rule e =
          close_opened-Timely c left_open now p o ts seen reason x y b h.opened h.pending h.trades
            (exit_rule-later o c reason x y rule) e

  take_signal-Timely :
      (now opened_now limit : ℕ) (p : Option PendingTrade) (o : Option OpenTrade)
      (ts : List TradeRecord) (seen : List String) (e : ReplayEvaluation)
      → e.evaluation_time_ms < now
      → TimelyBook limit now opened_now (book p o ts seen)
      → TimelyBook limit now opened_now (take_signal sim (book p o ts seen) e)
  unfolding take_signal
  take_signal-Timely now opened_now limit (some p) o ts seen e at h = record {
    pending = h.pending;
    opened = h.opened;
    trades = h.trades;
  }
  take_signal-Timely now opened_now limit none (some o) ts seen e at h = record {
    pending = tt;
    opened = h.opened;
    trades = h.trades;
  }
  take_signal-Timely now opened_now limit none none ts seen e at h = record {
    pending = (at, refl);
    opened = tt;
    trades = h.trades;
  }

  accept_all-Timely :
      (now opened_now limit : ℕ) (es : List ReplayEvaluation) (b : Book)
      → All (λ e. e.evaluation_time_ms < now) es
      → TimelyBook limit now opened_now b
      → TimelyBook limit now opened_now (accept_all sim b es)
  unfolding accept_all accept
  accept_all-Timely now opened_now limit [] b k h = h
  accept_all-Timely now opened_now limit (e ∷ es) b k h =
      accept_all-Timely now opened_now limit es _ k.1
        (elim (Bool-cases (is_new_ready b.seen_decisions e)) [
          | inr old ↦ rw old h
          | inl new ↦ rw new (
              take_signal-Timely now opened_now limit b.pending b.opened b.trades b.seen_decisions e
                k.0 h)
        ])

  -- The evaluations at a close are those of that time.
  kept_at :
      (close : ℕ) (es : List ReplayEvaluation)
      → All (λ e. e.evaluation_time_ms < close + 1) (keep (λ e. e.evaluation_time_ms == close) es)
  kept_at close [] = tt
  kept_at close (e ∷ es) = elim (Bool-cases (e.evaluation_time_ms == close)) [
    | inl at ↦ rw at (omega (tests, at), kept_at close es)
    | inr other ↦ rw other (kept_at close es)
  ]

  widen_pending :
      (p : Option PendingTrade) (now later : ℕ) → now ≤ later → PendingAt now p → PendingAt later p
  widen_pending none now later le h = tt
  widen_pending (some p) now later le h = (omega (arith, h.0), h.1)

  -- One candle: `now` moves on to the next minute.
  step-Timely :
      (es : List ReplayEvaluation) (now : ℕ) (b b' : Book) (c : ClosedCandle)
      → 1 ≤ sim.maximum_holding_minutes
      → now ≤ c.open_time_ms
      → c.close_time_ms ≡ c.open_time_ms + 59_999
      → TimelyBook sim.maximum_holding_minutes now c.open_time_ms b
      → step sim es b c ≡ ok b'
      → TimelyBook left_open (c.close_time_ms + 1) c.open_time_ms b'
  unfolding step
  step-Timely es now b b' c limit later close h e =
      let b₁ = expire_pending c b in
      let h₁ = expire_pending-Timely c _ now b.pending b.opened b.trades b.seen_decisions h in
      let b₂ = fill_pending sim c b₁ in
      let h₂ =
        fill_pending-Timely c now b₁.pending b₁.opened b₁.trades b₁.seen_decisions later limit h₁ in
      let (b₃, made, e') = bind-eq-ok (manage_opened sim c b₂) _ e in
      let h₃ =
        manage_opened-Timely c now b₂.pending b₂.opened b₂.trades b₂.seen_decisions b₃ h₂ made in
      let h₄ : TimelyBook left_open (c.close_time_ms + 1) c.open_time_ms b₃ = record {
        pending = widen_pending b₃.pending now (c.close_time_ms + 1) (omega arith) h₃.pending;
        opened = h₃.opened;
        trades = h₃.trades;
      } in
      subst (λ r. Unpacked (TimelyBook left_open (c.close_time_ms + 1) c.open_time_ms) r) e'
        (accept_all-Timely (c.close_time_ms + 1) c.open_time_ms left_open
          (keep (λ e. e.evaluation_time_ms == c.close_time_ms) es) b₃ (kept_at c.close_time_ms es)
          h₄)

  -- A trade that was left open has one more minute at the next candle.
  next_minute :
      (o : Option OpenTrade) (c d : ClosedCandle)
      → 1 ≤ sim.maximum_holding_minutes
      → d.open_time_ms ≡ c.open_time_ms + minute_ms
      → OpenedAt left_open c.open_time_ms o
      → OpenedAt sim.maximum_holding_minutes d.open_time_ms o
  next_minute none c d limit e h = tt
  next_minute (some o) c d limit e h = record {
    after_signal = h.after_signal;
    in_window = h.in_window;
    started = omega (arith, h.started);
    held = omega (arith, h.held, h.started);
  }

  run_candles-Timely :
      (es : List ReplayEvaluation) (c : ClosedCandle) (cs : List ClosedCandle) (now : ℕ)
      (b b' : Book)
      → 1 ≤ sim.maximum_holding_minutes
      → now ≤ c.open_time_ms
      → IsContiguous (c ∷ cs)
      → TimelyBook sim.maximum_holding_minutes now c.open_time_ms b
      → run_candles sim es b (c ∷ cs) ≡ ok b'
      → TimelyBook left_open ((last c cs).close_time_ms + 1) (last c cs).open_time_ms b'
  unfolding run_candles
  run_candles-Timely es c [] now b b' limit later k h e =
      let (after, made, e') = bind-eq-ok (step sim es b c) _ e in
      subst (λ r. Unpacked (TimelyBook left_open (c.close_time_ms + 1) c.open_time_ms) r) e'
        (step-Timely es now b after c limit later k.0.0 h made)
  run_candles-Timely es c (d ∷ cs) now b b' limit later k h e =
      let (after, made, e') = bind-eq-ok (step sim es b c) _ e in
      let h' = step-Timely es now b after c limit later k.0.0 h made in
      run_candles-Timely es d cs (c.close_time_ms + 1) after b' limit (omega (arith, k.0.0, k.1.0))
        (k.0.1, k.1.1)
        (record {
          pending = h'.pending;
          opened = next_minute after.opened c d limit k.1.0 h'.opened;
          trades = h'.trades;
        })
        e'

  -- An open trade is closed at the last candle, after `ts`.
  closed_last-Timely :
      (c : ClosedCandle) (o : OpenTrade) (ts trades : List TradeRecord) (seen : List String)
      → IsHeld left_open c.open_time_ms o
      → All IsTimely ts
      → (close_opened sim o c (end_of_data, c.closing, c.closing) (book none (some o) ts seen)
          >>= λ b. ok b.trades)
        ≡ ok trades
      → All IsTimely trades
  closed_last-Timely c o ts trades seen h old e =
      let (b, made, e') =
        bind-eq-ok
          (close_opened sim o c (end_of_data, c.closing, c.closing) (book none (some o) ts seen))
          (λ b. ok b.trades) e in
      let held : IsHeld sim.maximum_holding_minutes c.open_time_ms o = record {
        after_signal = h.after_signal;
        in_window = h.in_window;
        started = h.started;
        held = omega (arith, h.held);
      } in
      subst (λ r. Unpacked (All IsTimely) r) e'
        (close_opened-Timely c 0 0 none o ts seen end_of_data c.closing c.closing b held tt old
          (inl (λ e. cc)) made).trades

  finish-Timely :
      (c : ClosedCandle) (cs : List ClosedCandle) (now : ℕ) (p : Option PendingTrade)
      (o : Option OpenTrade) (ts trades : List TradeRecord) (seen : List String)
      → TimelyBook left_open now (last c cs).open_time_ms (book p o ts seen)
      → finish sim (c ∷ cs) (book p o ts seen) ≡ ok trades
      → All IsTimely trades
  unfolding finish flush_pending expired_record
  finish-Timely c cs now none none ts trades seen h e =
      subst (λ r. Unpacked (All IsTimely) r) e h.trades
  finish-Timely c cs now (some p) none ts trades seen h e =
      subst (λ r. Unpacked (All IsTimely) r) e
        (All-append IsTimely ts (expired_record p ∷ []) h.trades ((refl, refl), tt))
  finish-Timely c cs now none (some o) ts trades seen h e =
      closed_last-Timely (last c cs) o ts trades seen h.opened h.trades e
  finish-Timely c cs now (some p) (some o) ts trades seen h e =
      closed_last-Timely (last c cs) o (ts ++ expired_record p ∷ []) trades seen h.opened
        (All-append IsTimely ts (expired_record p ∷ []) h.trades ((refl, refl), tt)) e

  ordered-Timely :
      (es : List ReplayEvaluation) (cs : List ClosedCandle) (b : Book) (trades : List TradeRecord)
      → 1 ≤ sim.maximum_holding_minutes
      → IsContiguous cs
      → run_candles sim es empty_book cs ≡ ok b
      → finish sim cs b ≡ ok trades
      → All IsTimely trades
  unfolding run_candles finish
  ordered-Timely es [] b trades limit k h e = ground arith
  ordered-Timely es (c ∷ cs) b trades limit k h e =
      let v =
        run_candles-Timely es c cs c.open_time_ms empty_book b limit (omega arith) k
          (record { pending = tt; opened = tt; trades = tt }) h in
      finish-Timely c cs _ b.pending b.opened b.trades trades b.seen_decisions v e

  contiguous_in_order :
      (cs : List ClosedCandle)
      → Chain (λ c d. d.open_time_ms ≡ c.open_time_ms + minute_ms) cs
      → Chain (λ c d. candle_le c d ≡ true) cs
  contiguous_in_order [] h = tt
  contiguous_in_order (c ∷ []) h = (tt, tt)
  contiguous_in_order (c ∷ d ∷ cs) h = (ground (arith, h.0), contiguous_in_order (d ∷ cs) h.1)

  -- Over contiguous candles and with a holding limit of a minute or more, each record of a run that
  -- returns is either expired with no exit, or was entered after its signal and within the entry
  -- window, left no earlier than it was entered, later if by its target, and held for no more than
  -- the maximum number of minutes.
  pub run_instrument-IsTimely :
      (evaluations : List ReplayEvaluation) (candles : List ClosedCandle)
      (trades : List TradeRecord)
      → 1 ≤ sim.maximum_holding_minutes
      → IsContiguous candles
      → run_instrument sim evaluations candles ≡ ok trades
      → All IsTimely trades
  unfolding run_instrument
  run_instrument-IsTimely evaluations candles trades limit k e =
      let in_order = sort_of_Chain candle_le candles (contiguous_in_order candles k.1) in
      let (b, ran, e') =
        bind-eq-ok
          (run_candles sim (sort evaluation_le evaluations) empty_book (sort candle_le candles)) _
          e in
      ordered-Timely (sort evaluation_le evaluations) (sort candle_le candles) b trades limit
        (subst IsContiguous (sym in_order) k) ran e'

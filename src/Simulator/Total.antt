-- ===== src/Simulator/Total.antt =====
-- When `ExecutionSimulator` returns: its only failure is a division by an entry or a risk of zero.
use smc_ict_engine.Prelude.{
  true, false, ◌≡◌, ◌≢◌, ◌⊎◌, refl, Option, none, some, String, List, [], ◌∷◌, inl, inr, arith,
  Bool-cases, All, All-keep, last, keep, ok, ◌==◌, is_ok, is_ok-bind, value_of_is_ok, ap, ◌>>=◌,
  bind-eq-ok, subst, Unpacked,
}
use smc_ict_engine.Prelude.Sort.{sort, sort-All}
use smc_ict_engine.Decimal.{Decimal, divide, absolute, ◌⊖◌}
use smc_ict_engine.Decimal.Int.{magnitude}
use smc_ict_engine.Domain.{ClosedCandle, Decision, DecisionStatus, ReplayEvaluation}
use smc_ict_engine.Simulator.Trade.{
  OpenTrade, PendingTrade, TradeRecord, ExitReason, end_of_data, or_zero, closed_figures,
  closed_record,
}
use smc_ict_engine.Simulator.Once.{is_new_ready-ready}
use smc_ict_engine.Simulator.Loop.{
  Simulator, Book, empty_book, expire_pending, fill_pending, exit_rule, close_opened, manage_opened,
  is_new_ready, take_signal, accept, accept_all, step, run_candles, flush_pending, finish,
  run_instrument, evaluation_le, candle_le,
}

-- The entry is not zero, and neither is the risk, as the context rounds it.
abbrev pub HasRisk : Decision → Type 0
HasRisk d =
    ((magnitude (or_zero d.entry).mantissa == 0) ≡ false)
    × ((magnitude (absolute (or_zero d.entry ⊖ or_zero d.stop)).mantissa == 0) ≡ false)

abbrev pub ReadyHasRisk : ReplayEvaluation → Type 0
ReadyHasRisk e = (e.decision.status ≢ DecisionStatus.ready) ⊎ HasRisk e.decision

risk_of :
    (e : ReplayEvaluation)
    → ReadyHasRisk e
    → e.decision.status ≡ DecisionStatus.ready
    → HasRisk e.decision
risk_of e (inl other) r = absurd (other r)
risk_of e (inr h) r = h

pub closed_record-is_ok :
    (fee slip : Decimal) (o : OpenTrade) (c : ClosedCandle) (x y : Decimal) (reason : ExitReason)
    → HasRisk o.evaluation.decision
    → is_ok (closed_record fee slip o c x y reason) ≡ true
unfolding closed_record closed_figures divide
closed_record-is_ok fee slip o c x y reason h = simp (h.0, h.1)

-- The trades that the book holds can be closed.
abbrev PendingCloses : Option PendingTrade → Type 0
PendingCloses none = Unit
PendingCloses (some p) = HasRisk p.evaluation.decision

abbrev OpenedCloses : Option OpenTrade → Type 0
OpenedCloses none = Unit
OpenedCloses (some o) = HasRisk o.evaluation.decision

abbrev CanClose : Book → Type 0
CanClose b = PendingCloses b.pending × OpenedCloses b.opened

abbrev book : Option PendingTrade → Option OpenTrade → List TradeRecord → List String → Book
book p o ts seen = record { pending = p; opened = o; trades = ts; seen_decisions = seen }

module _ (sim : Simulator) (c : ClosedCandle) where
  before_exit-CanClose :
      (p : Option PendingTrade) (o : Option OpenTrade) (ts : List TradeRecord) (seen : List String)
      → CanClose (book p o ts seen)
      → CanClose (fill_pending sim c (expire_pending c (book p o ts seen)))
  unfolding fill_pending expire_pending
  before_exit-CanClose none o ts seen h = h
  before_exit-CanClose (some p) o ts seen h = ground arith

  close_opened-is_ok :
      (o : OpenTrade) (exit : ExitReason × Decimal × Decimal) (b : Book)
      → HasRisk o.evaluation.decision
      → is_ok (close_opened sim o c exit b) ≡ true
  unfolding close_opened
  close_opened-is_ok o (reason, x, y) b h =
      is_ok-bind _ _ (closed_record-is_ok sim.fee_rate sim.slippage_rate o c x y reason h)
        (λ t e. refl)

  manage_opened-is_ok :
      (p : Option PendingTrade) (o : Option OpenTrade) (ts : List TradeRecord) (seen : List String)
      → CanClose (book p o ts seen)
      → is_ok (manage_opened sim c (book p o ts seen)) ≡ true
  unfolding manage_opened
  manage_opened-is_ok p none ts seen h = refl
  manage_opened-is_ok p (some o) ts seen h = managed (exit_rule sim o c)
    where
      managed :
          (exit : Option (ExitReason × Decimal × Decimal))
          → is_ok (elim exit [
            | none ↦ ok (book p (some o) ts seen)
            | some e ↦ close_opened sim o c e (book p (some o) ts seen)
          ])
            ≡ true
      managed none = refl
      managed (some exit) = close_opened-is_ok o exit (book p (some o) ts seen) h.1

  manage_opened-CanClose :
      (p : Option PendingTrade) (o : Option OpenTrade) (ts : List TradeRecord) (seen : List String)
      (b : Book)
      → CanClose (book p o ts seen)
      → manage_opened sim c (book p o ts seen) ≡ ok b
      → CanClose b
  unfolding manage_opened close_opened
  manage_opened-CanClose p none ts seen b h e = ground arith
  manage_opened-CanClose p (some o) ts seen b h e = managed (exit_rule sim o c) e
    where
      managed :
          (exit : Option (ExitReason × Decimal × Decimal))
          → elim exit [
            | none ↦ ok (book p (some o) ts seen)
            | some e ↦ close_opened sim o c e (book p (some o) ts seen)
          ]
            ≡ ok b
          → CanClose b
      managed none e = ground arith
      managed (some (reason, x, y)) e =
          let (t, made, k) =
            bind-eq-ok (closed_record sim.fee_rate sim.slippage_rate o c x y reason) _ e in
          subst (λ r. Unpacked CanClose r) k (h.0, tt)

  before_signals-CanClose :
      (b : Book) → CanClose b → CanClose (fill_pending sim c (expire_pending c b))
  before_signals-CanClose b h = before_exit-CanClose b.pending b.opened b.trades b.seen_decisions h

module _ (sim : Simulator) where
  take_signal-CanClose :
      (p : Option PendingTrade) (o : Option OpenTrade) (ts : List TradeRecord) (seen : List String)
      (e : ReplayEvaluation)
      → HasRisk e.decision
      → CanClose (book p o ts seen)
      → CanClose (take_signal sim (book p o ts seen) e)
  unfolding take_signal
  take_signal-CanClose (some p) o ts seen e r h = h
  take_signal-CanClose none (some o) ts seen e r h = h
  take_signal-CanClose none none ts seen e r h = (r, tt)

  accept_all-CanClose :
      (es : List ReplayEvaluation) (b : Book)
      → All ReadyHasRisk es
      → CanClose b
      → CanClose (accept_all sim b es)
  unfolding accept_all accept
  accept_all-CanClose [] b k h = h
  accept_all-CanClose (e ∷ es) b k h =
      accept_all-CanClose es _ k.1 (elim (Bool-cases (is_new_ready b.seen_decisions e)) [
        | inr old ↦ rw old h
        | inl new ↦ rw new (
            take_signal-CanClose b.pending b.opened b.trades b.seen_decisions e
              (risk_of e k.0 (is_new_ready-ready b.seen_decisions e new)) h)
      ])

  step_total :
      (es : List ReplayEvaluation) (b : Book) (c : ClosedCandle)
      → All ReadyHasRisk es
      → CanClose b
      → (b' : Book) × (step sim es b c ≡ ok b') × CanClose b'
  unfolding step
  step_total es b c k h =
      let f = fill_pending sim c (expire_pending c b) in
      let signals =
        λ (a : Book). accept_all sim a (keep (λ e. e.evaluation_time_ms == c.close_time_ms) es) in
      let hf = before_signals-CanClose sim c b h in
      let (m, e) =
        value_of_is_ok (manage_opened sim c f)
          (manage_opened-is_ok sim c f.pending f.opened f.trades f.seen_decisions hf) in
      (
        signals m,
        ap (λ r. r >>= λ a. ok (signals a)) e,
        accept_all-CanClose (keep (λ e. e.evaluation_time_ms == c.close_time_ms) es) m
            (All-keep _ _ es k)
            (manage_opened-CanClose sim c f.pending f.opened f.trades f.seen_decisions m hf e),
      )

  run_candles_total :
      (es : List ReplayEvaluation) (b : Book) (cs : List ClosedCandle)
      → All ReadyHasRisk es
      → CanClose b
      → (b' : Book) × (run_candles sim es b cs ≡ ok b') × CanClose b'
  unfolding run_candles
  run_candles_total es b [] k h = (b, refl, h)
  run_candles_total es b (c ∷ cs) k h =
      let (after, e, h') = step_total es b c k h in
      let (done, e', h'') = run_candles_total es after cs k h' in (done, rw e e', h'')

  finish-is_ok :
      (cs : List ClosedCandle) (p : Option PendingTrade) (o : Option OpenTrade)
      (ts : List TradeRecord) (seen : List String)
      → CanClose (book p o ts seen)
      → is_ok (finish sim cs (book p o ts seen)) ≡ true
  unfolding finish
  finish-is_ok cs p none ts seen h = refl
  finish-is_ok [] p (some o) ts seen h = refl
  finish-is_ok (c ∷ cs) p (some o) ts seen h =
      let exit : ExitReason × Decimal × Decimal =
        (end_of_data, (last c cs).closing, (last c cs).closing) in
      is_ok-bind _ _
        (close_opened-is_ok sim (last c cs) o exit (flush_pending (book p (some o) ts seen)) h.1)
        (λ b e. refl)

  -- If each ready evaluation has an entry and a risk that are not zero, the simulator returns: no
  -- order of candles and evaluations makes it raise.
  pub run_instrument_total :
      (evaluations : List ReplayEvaluation) (candles : List ClosedCandle)
      → All ReadyHasRisk evaluations
      → (trades : List TradeRecord) × (run_instrument sim evaluations candles ≡ ok trades)
  unfolding run_instrument
  run_instrument_total evaluations candles k =
      let (b, e, h) =
        run_candles_total (sort evaluation_le evaluations) empty_book (sort candle_le candles)
          (sort-All evaluation_le _ evaluations k) (tt, tt) in
      let (trades, e') =
        value_of_is_ok (finish sim (sort candle_le candles) b)
          (finish-is_ok (sort candle_le candles) b.pending b.opened b.trades b.seen_decisions h) in
      (trades, rw e e')

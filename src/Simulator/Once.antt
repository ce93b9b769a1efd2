-- ===== src/Simulator/Once.antt =====
-- What `_run_instrument` promises of its signals: one position at a time, and one trade for a
-- decision.
use smc_ict_engine.Prelude.{
  true, false, ◌≡◌, refl, Option, none, some, String, List, [], ◌∷◌, ◌++◌, map, inl, inr, arith,
  Bool-cases, map-append, append_assoc, append-nil, Distinct, Distinct-snoc, Within, Within-snoc,
  contains, contains_of_Within, contains-snoc_self, All, All-map, All-append, ok, bind-eq-ok, last,
  All-keep, subst, Unpacked, eq_iff,
}
use smc_ict_engine.Prelude.Sort.{sort, sort-All}
use smc_ict_engine.Decimal.{Decimal}
use smc_ict_engine.Domain.{ClosedCandle, DecisionStatus, ReplayEvaluation}
use smc_ict_engine.Simulator.Trade.{
  PendingTrade, OpenTrade, TradeRecord, ExitReason, end_of_data, expired_record, closed_record,
}
use smc_ict_engine.Simulator.Loop.{
  Simulator, Book, empty_book, expire_pending, fill_pending, exit_rule, close_opened, manage_opened,
  is_new_ready, take_signal, accept, accept_all, step, run_candles, finish, run_instrument,
  evaluation_le, candle_le,
}

abbrev pending_hashes : Option PendingTrade → List String
pending_hashes none = []
pending_hashes (some p) = p.evaluation.decision_hash ∷ []

abbrev opened_hashes : Option OpenTrade → List String
opened_hashes none = []
opened_hashes (some o) = o.evaluation.decision_hash ∷ []

abbrev pub trade_hashes : List TradeRecord → List String
trade_hashes = map (λ t. t.decision_hash)

-- The decisions that have a trade, a pending one or an open one.
abbrev pub live_hashes : Book → List String
live_hashes b = trade_hashes b.trades ++ (pending_hashes b.pending ++ opened_hashes b.opened)

-- A pending trade and an open trade are never held together.
abbrev pub Alone : Option PendingTrade → Option OpenTrade → Type 0
Alone none o = Unit
Alone (some p) o = o ≡ none

-- A phase that takes no signal in moves decisions along and drops none.
record Moves (b b' : Book) : Type 0 where
  alone : Alone b'.pending b'.opened
  same : live_hashes b' ≡ live_hashes b
  seen : b'.seen_decisions ≡ b.seen_decisions

abbrev book : Option PendingTrade → Option OpenTrade → List TradeRecord → List String → Book
book p o ts seen = record { pending = p; opened = o; trades = ts; seen_decisions = seen }

recorded :
    (ts : List TradeRecord) (t : TradeRecord) (rest : List String)
    → trade_hashes (ts ++ t ∷ []) ++ rest ≡ trade_hashes ts ++ t.decision_hash ∷ rest
recorded ts t rest = simp (map-append, append_assoc)

expire_pending-Moves :
    (c : ClosedCandle) (p : Option PendingTrade) (o : Option OpenTrade) (ts : List TradeRecord)
    (seen : List String)
    → Alone p o
    → Moves (book p o ts seen) (expire_pending c (book p o ts seen))
unfolding expire_pending expired_record
expire_pending-Moves c none o ts seen h = record { alone = tt; same = refl; seen = refl }
expire_pending-Moves c (some p) o ts seen h =
    ground (arith, recorded ts (expired_record p) (opened_hashes o))

fill_pending-Moves :
    (sim : Simulator) (c : ClosedCandle) (p : Option PendingTrade) (o : Option OpenTrade)
    (ts : List TradeRecord) (seen : List String)
    → Alone p o
    → Moves (book p o ts seen) (fill_pending sim c (book p o ts seen))
unfolding fill_pending
fill_pending-Moves sim c none o ts seen h = record { alone = tt; same = refl; seen = refl }
fill_pending-Moves sim c (some p) o ts seen h = ground arith

closed_record-hash :
    (fee slip : Decimal) (o : OpenTrade) (c : ClosedCandle) (x y : Decimal) (reason : ExitReason)
    (t : TradeRecord)
    → closed_record fee slip o c x y reason ≡ ok t
    → t.decision_hash ≡ o.evaluation.decision_hash
unfolding closed_record
closed_record-hash fee slip o c x y reason t h = ground arith

close_opened-Moves :
    (sim : Simulator) (o : OpenTrade) (c : ClosedCandle) (exit : ExitReason × Decimal × Decimal)
    (ts : List TradeRecord) (seen : List String) (b : Book)
    → close_opened sim o c exit (book none (some o) ts seen) ≡ ok b
    → Moves (book none (some o) ts seen) b
unfolding close_opened
close_opened-Moves sim o c (reason, requested, base) ts seen b h =
    let (t, made, e) =
      bind-eq-ok (closed_record sim.fee_rate sim.slippage_rate o c requested base reason) _ h in
    ground (
      arith,
      closed_record-hash sim.fee_rate sim.slippage_rate o c requested base reason t made,
      recorded ts t [],
    )

manage_opened-Moves :
    (sim : Simulator) (c : ClosedCandle) (p : Option PendingTrade) (o : Option OpenTrade)
    (ts : List TradeRecord) (seen : List String) (b : Book)
    → Alone p o
    → manage_opened sim c (book p o ts seen) ≡ ok b
    → Moves (book p o ts seen) b
unfolding manage_opened
manage_opened-Moves sim c p none ts seen b a h = ground arith
manage_opened-Moves sim c (some p) (some o) ts seen b a h = cc
manage_opened-Moves sim c none (some o) ts seen b a h = managed (exit_rule sim o c) h
  where
    managed :
        (exit : Option (ExitReason × Decimal × Decimal))
        → elim exit [
          | none ↦ ok (book none (some o) ts seen)
          | some e ↦ close_opened sim o c e (book none (some o) ts seen)
        ]
          ≡ ok b
        → Moves (book none (some o) ts seen) b
    managed none e = ground arith
    managed (some exit) e = close_opened-Moves sim o c exit ts seen b e

-- The ready decisions among the evaluations.
abbrev pub ready_hashes : List ReplayEvaluation → List String
ready_hashes [] = []
ready_hashes (e ∷ es) =
    let rest = ready_hashes es in
    elim e.decision.status [ DecisionStatus.ready ↦ e.decision_hash ∷ rest | _ ↦ rest ]

record Inv (offered : List String) (b : Book) : Type 0 where
  alone : Alone b.pending b.opened
  distinct : Distinct (live_hashes b)
  seen : Within b.seen_decisions (live_hashes b)
  known : Within offered (live_hashes b)

Moves-Inv : (offered : List String) (b b' : Book) → Moves b b' → Inv offered b → Inv offered b'
Moves-Inv offered b b' m v = record {
  alone = m.alone;
  distinct = rw m.same v.distinct;
  seen = rw (m.same, m.seen) v.seen;
  known = rw m.same v.known;
}

-- Taking a signal in adds its hash at the end, if anything.
take_signal-Inv :
    (sim : Simulator) (offered : List String) (p : Option PendingTrade) (o : Option OpenTrade)
    (ts : List TradeRecord) (seen : List String) (e : ReplayEvaluation)
    → contains seen e.decision_hash ≡ false
    → contains offered e.decision_hash ≡ true
    → Inv offered (book p o ts seen)
    → Inv offered (take_signal sim (book p o ts seen) e)
unfolding take_signal
take_signal-Inv sim offered (some p) o ts seen e new known v = record {
  alone = v.alone;
  distinct = v.distinct;
  seen = Within-snoc seen _ e.decision_hash v.seen;
  known = v.known;
}
take_signal-Inv sim offered none (some o) ts seen e new known v = record {
  alone = tt;
  distinct = v.distinct;
  seen = Within-snoc seen _ e.decision_hash v.seen;
  known = v.known;
}
take_signal-Inv sim offered none none ts seen e new known v = record {
  alone = refl;
  distinct =
      Distinct-snoc (trade_hashes ts) e.decision_hash old.0
        (contains_of_Within seen _ e.decision_hash old.1 new);
  seen =
      All-append _ (trade_hashes ts) _ (Within-snoc seen _ e.decision_hash old.1)
        (contains-snoc_self seen e.decision_hash, tt);
  known = All-append _ (trade_hashes ts) _ old.2 (known, tt);
}
  where
    old :
        Distinct (trade_hashes ts)
        × Within seen (trade_hashes ts)
        × Within offered (trade_hashes ts)
    old = (
      rw (append-nil (trade_hashes ts)) at v.distinct,
      rw (append-nil (trade_hashes ts)) at v.seen,
      rw (append-nil (trade_hashes ts)) at v.known,
    )

is_new_ready-fresh :
    (seen : List String) (e : ReplayEvaluation)
    → is_new_ready seen e ≡ true
    → contains seen e.decision_hash ≡ false
unfolding is_new_ready
is_new_ready-fresh seen e h = ground arith

-- Each evaluation, if it is ready, has its hash among the offered ones.
abbrev Offers : List String → List ReplayEvaluation → Type 0
Offers offered =
    All (λ e. e.decision.status ≡ DecisionStatus.ready → contains offered e.decision_hash ≡ true)

pub is_new_ready-ready :
    (seen : List String) (e : ReplayEvaluation)
    → is_new_ready seen e ≡ true
    → e.decision.status ≡ DecisionStatus.ready
unfolding is_new_ready
is_new_ready-ready seen e h = ground arith

accept_all-Inv :
    (sim : Simulator) (offered : List String) (es : List ReplayEvaluation) (b : Book)
    → Offers offered es
    → Inv offered b
    → Inv offered (accept_all sim b es)
unfolding accept_all accept
accept_all-Inv sim offered [] b k v = v
accept_all-Inv sim offered (e ∷ es) b k v =
    accept_all-Inv sim offered es _ k.1 (elim (Bool-cases (is_new_ready b.seen_decisions e)) [
      | inr old ↦ rw old v
      | inl new ↦ rw new (
          take_signal-Inv sim offered b.pending b.opened b.trades b.seen_decisions e
            (is_new_ready-fresh b.seen_decisions e new)
            (k.0 (is_new_ready-ready b.seen_decisions e new)) v)
    ])

step-Inv :
    (sim : Simulator) (offered : List String) (es : List ReplayEvaluation) (b b' : Book)
    (c : ClosedCandle)
    → Offers offered es
    → Inv offered b
    → step sim es b c ≡ ok b'
    → Inv offered b'
unfolding step
step-Inv sim offered es b b' c k v h =
    let expired = expire_pending c b in
    let filled = fill_pending sim c expired in
    let (managed, made, e) = bind-eq-ok (manage_opened sim c filled) _ h in
    let m₁ = expire_pending-Moves c b.pending b.opened b.trades b.seen_decisions v.alone in
    let m₂ =
      fill_pending-Moves sim c expired.pending expired.opened expired.trades expired.seen_decisions
        m₁.alone in
    let m₃ =
      manage_opened-Moves sim c filled.pending filled.opened filled.trades filled.seen_decisions
        managed m₂.alone made in
    let v₁ = Moves-Inv offered b expired m₁ v in
    let v₃ = Moves-Inv offered filled managed m₃ (Moves-Inv offered expired filled m₂ v₁) in
    subst (λ r. Unpacked (Inv offered) r) e
      (accept_all-Inv sim offered _ managed (All-keep _ _ es k) v₃)

run_candles-Inv :
    (sim : Simulator) (offered : List String) (es : List ReplayEvaluation) (cs : List ClosedCandle)
    (b b' : Book)
    → Offers offered es
    → Inv offered b
    → run_candles sim es b cs ≡ ok b'
    → Inv offered b'
unfolding run_candles
run_candles-Inv sim offered es [] b b' k v h = subst (λ r. Unpacked (Inv offered) r) h v
run_candles-Inv sim offered es (c ∷ cs) b b' k v h =
    let (after, made, e) = bind-eq-ok (step sim es b c) _ h in
    run_candles-Inv sim offered es cs after b' k (step-Inv sim offered es b after c k v made) e

close_opened-idle :
    (sim : Simulator) (o : OpenTrade) (c : ClosedCandle) (exit : ExitReason × Decimal × Decimal)
    (ts : List TradeRecord) (seen : List String) (b : Book)
    → close_opened sim o c exit (book none (some o) ts seen) ≡ ok b
    → (b.pending ≡ none) × (b.opened ≡ none)
unfolding close_opened
close_opened-idle sim o c (reason, requested, base) ts seen b h =
    let (t, made, e) =
      bind-eq-ok (closed_record sim.fee_rate sim.slippage_rate o c requested base reason) _ h in
    ground arith

-- The trades at the end are the decisions that were held: none is dropped, none is doubled.
finish-hashes :
    (sim : Simulator) (c : ClosedCandle) (cs : List ClosedCandle) (p : Option PendingTrade)
    (o : Option OpenTrade) (ts done : List TradeRecord) (seen : List String)
    → Alone p o
    → finish sim (c ∷ cs) (book p o ts seen) ≡ ok done
    → trade_hashes done ≡ live_hashes (book p o ts seen)
unfolding finish expired_record
finish-hashes sim c cs none none ts done seen a h = ground (arith, append-nil (trade_hashes ts))
finish-hashes sim c cs (some p) none ts done seen a h = ground (
  arith,
  recorded ts (expired_record p) [],
  append-nil (trade_hashes (ts ++ expired_record p ∷ [])),
)
finish-hashes sim c cs (some p) (some o) ts done seen a h = cc
finish-hashes sim c cs none (some o) ts done seen a h =
    let final = last c cs in
    let exit : ExitReason × Decimal × Decimal = (end_of_data, final.closing, final.closing) in
    let (closed, made, e) =
      bind-eq-ok (close_opened sim o final exit (book none (some o) ts seen)) _ h in
    ground (
      arith,
      close_opened-idle sim o final exit ts seen closed made,
      (close_opened-Moves sim o final exit ts seen closed made).same,
      append-nil (trade_hashes done),
    )

contains-Offers :
    (h : String) (offered : List String) (es : List ReplayEvaluation)
    → Offers offered es
    → Offers (h ∷ offered) es
contains-Offers h offered es = All-map (λ e k r. ground (arith, k r)) es

ready_hashes-Offers : (es : List ReplayEvaluation) → Offers (ready_hashes es) es
ready_hashes-Offers [] = tt
ready_hashes-Offers (e ∷ es) = (
  λ r. ground (arith, eq_iff e.decision_hash e.decision_hash),
  later e.decision.status (ready_hashes-Offers es),
)
  where
    later :
        (s : DecisionStatus)
        → Offers (ready_hashes es) es
        → Offers
            (elim s [
              | DecisionStatus.ready ↦ e.decision_hash ∷ ready_hashes es
              | _ ↦ ready_hashes es
            ])
            es
    later DecisionStatus.ready h = contains-Offers e.decision_hash (ready_hashes es) es h
    later DecisionStatus.no_trade h = h
    later DecisionStatus.unavailable h = h

ordered_trades :
    (sim : Simulator) (offered : List String) (es : List ReplayEvaluation) (cs : List ClosedCandle)
    (b : Book) (trades : List TradeRecord)
    → Offers offered es
    → run_candles sim es empty_book cs ≡ ok b
    → finish sim cs b ≡ ok trades
    → Distinct (trade_hashes trades) × Within offered (trade_hashes trades)
unfolding run_candles finish
ordered_trades sim offered es [] b trades k h f = ground arith
ordered_trades sim offered es (c ∷ cs) b trades k h f =
    let v =
      run_candles-Inv sim offered es (c ∷ cs) empty_book b k
        (record { alone = tt; distinct = tt; seen = tt; known = tt }) h in
    let same =
      finish-hashes sim c cs b.pending b.opened b.trades trades b.seen_decisions v.alone f in
    (rw same v.distinct, rw same v.known)

-- When the simulator returns, no two trades of an instrument are of one decision, and each is of a
-- decision that is ready among the evaluations.
pub run_instrument_once :
    (sim : Simulator) (evaluations : List ReplayEvaluation) (candles : List ClosedCandle)
    (trades : List TradeRecord)
    → run_instrument sim evaluations candles ≡ ok trades
    → Distinct (trade_hashes trades) × Within (ready_hashes evaluations) (trade_hashes trades)
unfolding run_instrument
run_instrument_once sim evaluations candles trades h =
    let (b, ran, f) =
      bind-eq-ok
        (run_candles sim (sort evaluation_le evaluations) empty_book (sort candle_le candles)) _
        h in
    ordered_trades sim (ready_hashes evaluations) _ _ b trades
      (sort-All evaluation_le _ evaluations (ready_hashes-Offers evaluations)) ran f

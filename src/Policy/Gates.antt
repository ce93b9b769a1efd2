-- ===== src/Policy/Gates.antt =====
-- What a decision of the policy says about the signals.
use smc_ict_engine.Prelude.{true, false, ◌≡◌, Option, none, some, List, ◌∷◌, ◌++◌, ◌⊎◌, All, lookup}
use smc_ict_engine.Domain.{Observation, ObservationStatus, Decision, DecisionStatus}
use smc_ict_engine.Graph.{Observations}
use smc_ict_engine.Policy.{
  DecisionSignal, Effect, reject, levels, level_texts, LevelTexts, Verdict, stops, passes, gives,
}

-- A signal is passed if it is not required, or if its observation is a PASS, with the texts of the
-- levels where it has to give them.
abbrev pub IsPassed : Effect → Option Observation → Type 0
IsPassed effect none = ⊥
IsPassed reject (some o) = o.status ≡ ObservationStatus.pass
IsPassed levels (some o) =
    (o.status ≡ ObservationStatus.pass) × ((texts : LevelTexts) × (level_texts o ≡ some texts))

abbrev pub Passes : Observations → DecisionSignal → Type 0
Passes observations s = (s.required ≡ false) ⊎ IsPassed s.effect (lookup s.signal_id observations)

-- A required signal stops a decision as UNAVAILABLE if its observation is missing or UNAVAILABLE, or is
-- a PASS without the levels that it has to give; and as NO_TRADE if it is a FAIL.
abbrev pub IsStopped : Effect → Option Observation → DecisionStatus → Type 0
IsStopped effect none status = status ≡ DecisionStatus.unavailable
IsStopped effect (some o) status =
    ((o.status ≡ ObservationStatus.unavailable) × (status ≡ DecisionStatus.unavailable))
    ⊎ (((o.status ≡ ObservationStatus.fail) × (status ≡ DecisionStatus.no_trade))
        ⊎ ((o.status ≡ ObservationStatus.pass)
            × (effect ≡ levels)
            × (level_texts o ≡ none)
            × (status ≡ DecisionStatus.unavailable)))

abbrev pub Stops : Observations → DecisionSignal → DecisionStatus → Type 0
Stops observations s status =
    (s.required ≡ true) × IsStopped s.effect (lookup s.signal_id observations) status

abbrev Means : Effect → Option Observation → Verdict → Type 0
Means effect found (Verdict.stops status) = IsStopped effect found status
Means effect found Verdict.passes = IsPassed effect found
Means effect found (Verdict.gives texts) = IsPassed effect found

abbrev IsJudged : Observations → DecisionSignal → Verdict → Type 0
IsJudged observations s (Verdict.stops status) = Stops observations s status
IsJudged observations s Verdict.passes = Passes observations s
IsJudged observations s (Verdict.gives texts) = Passes observations s

-- A ready decision comes after signals that are all passed. Any other is of the first signal, in
-- order, that stops it, with the status that it stops with, or of the missing levels.
abbrev pub Explains : Observations → List DecisionSignal → Decision → Type 0
Explains observations signals d =
    ((d.status ≡ DecisionStatus.ready) × All (Passes observations) signals)
    ⊎ (((front : List DecisionSignal) × (s : DecisionSignal) × (back : List DecisionSignal)
          × (signals ≡ front ++ s ∷ back)
          × All (Passes observations) front
          × Stops observations s d.status
          × (d.first_failed_signal ≡ some s.signal_id))
        ⊎ ((d.status ≡ DecisionStatus.unavailable)
            × (d.first_failed_signal ≡ some "decision.levels")
            × All (Passes observations) signals))

-- ===== src/Policy.antt =====
-- application/decision_policy.py: the decision over the configured observations.
pub mod Gates
pub mod Tests
use smc_ict_engine.Prelude.{
  ℕ, Bool, true, false, not, ◌&&◌, ◌||◌, Option, none, some, String, List, [], ◌∷◌, ltb, ◌==◌,
  str_eq, str_le, if◌then◌else◌, lookup, assign, Result, ok, err, value_error, ◌>>=◌,
}
use smc_ict_engine.Prelude.Sort.{sort}
use smc_ict_engine.Decimal.{Decimal}
use smc_ict_engine.Domain.{
  Observation, ObservationStatus, Evidence, Decision, DecisionStatus, Direction, checked_decision,
  decimal_of_text,
}
use smc_ict_engine.Graph.{RunContext, Observations}

-- The effect of a signal: REJECT or LEVELS.
pub data Effect : Type 0 where
  reject levels : Effect

pub record DecisionSignal : Type 0 where
  pub signal_id : String
  pub required : Bool
  pub effect : Effect
  pub order : ℕ

abbrev pub signal_le : DecisionSignal → DecisionSignal → Bool
signal_le a b = ltb a.order b.order || (a.order == b.order && str_le a.signal_id b.signal_id)

-- `OrderedDecisionPlugin.__init__`
unfoldable pub ordered_signals : List DecisionSignal → List DecisionSignal
unfolding sort
ordered_signals signals = sort signal_le signals

-- The texts of the direction, the entry, the stop and the target.
pub record LevelTexts : Type 0 where
  pub direction : String
  pub entry : String
  pub stop : String
  pub target : String

-- `observation.payload.get(field)`, if it is a text.
abbrev pub text_field : String → List (String × Evidence) → Option String
text_field key payload = elim (lookup key payload) [ some (Evidence.text s) ↦ some s | _ ↦ none ]

-- The levels of an observation, if all four are texts.
unfoldable pub level_texts : Observation → Option LevelTexts
level_texts o = elim (text_field "direction" o.payload) [
  | none ↦ none
  | some d ↦ elim (text_field "entry_text" o.payload) [
    | none ↦ none
    | some e ↦ elim (text_field "stop_text" o.payload) [
      | none ↦ none
      | some s ↦ elim (text_field "target_text" o.payload) [
        | none ↦ none
        | some t ↦ some (record { direction = d; entry = e; stop = s; target = t })
      ]
    ]
  ]
]

unfoldable pub read_direction : String → Result Direction
read_direction s =
    if str_eq s "LONG"
    then ok Direction.long
    else if str_eq s "SHORT"
    then ok Direction.short
    else err value_error

-- `DecimalText(text)`
abbrev pub read_decimal : String → Result Decimal
read_decimal s = elim (decimal_of_text s) [ none ↦ err value_error | some d ↦ ok d ]

-- What a signal does: it stops the decision with a status, or passes, with its levels.
pub data Verdict : Type 0 where
  stops : DecisionStatus → Verdict
  passes : Verdict
  gives : LevelTexts → Verdict

unfoldable pub required_verdict : Effect → Option Observation → Verdict
unfolding level_texts
required_verdict effect none = stops DecisionStatus.unavailable
required_verdict effect (some o) = elim o.status [
  | ObservationStatus.unavailable ↦ stops DecisionStatus.unavailable
  | ObservationStatus.fail ↦ stops DecisionStatus.no_trade
  | ObservationStatus.pass ↦ elim effect [
    | reject ↦ passes
    | levels ↦ elim (level_texts o) [
      | none ↦ stops DecisionStatus.unavailable
      | some texts ↦ gives texts
    ]
  ]
]

unfoldable pub verdict : DecisionSignal → Option Observation → Verdict
unfolding required_verdict
verdict s o = if s.required then required_verdict s.effect o else passes

module _ (hash_observation : Observation → String) (context : RunContext)
    (observations : Observations) where
  abbrev pub add_hash :
      String → Option Observation → List (String × String) → List (String × String)
  add_hash id none hashes = hashes
  add_hash id (some o) hashes = assign id (hash_observation o) hashes

  -- A decision that stops at a signal.
  abbrev pub stopped : DecisionStatus → String → List (String × String) → Decision
  stopped status id hashes = record {
    instrument_id = context.instrument_id;
    status = status;
    direction = none;
    entry = none;
    stop = none;
    target = none;
    first_failed_signal = some id;
    observation_hashes = hashes;
  }

  abbrev pub ready_with :
      Direction → (entry stop target : Decimal) → List (String × String) → Decision
  ready_with direction entry stop target hashes = record {
    instrument_id = context.instrument_id;
    status = DecisionStatus.ready;
    direction = some direction;
    entry = some entry;
    stop = some stop;
    target = some target;
    first_failed_signal = none;
    observation_hashes = hashes;
  }

  unfoldable pub stop_at : DecisionStatus → String → List (String × String) → Result Decision
  unfolding checked_decision
  stop_at status id hashes = checked_decision (stopped status id hashes)

  unfoldable pub ready_decision : LevelTexts → List (String × String) → Result Decision
  unfolding checked_decision read_direction
  ready_decision texts hashes = do
    direction ← read_direction texts.direction
    entry ← read_decimal texts.entry
    stop ← read_decimal texts.stop
    target ← read_decimal texts.target
    checked_decision (ready_with direction entry stop target hashes)

  -- What follows the loop.
  unfoldable pub conclude : Option LevelTexts → List (String × String) → Result Decision
  unfolding stop_at ready_decision
  conclude none hashes = stop_at DecisionStatus.unavailable "decision.levels" hashes
  conclude (some texts) hashes = ready_decision texts hashes

  -- The loop over the signals in order, on `level_values` and `ordered_hashes`.
  unfoldable pub decide_from :
      List DecisionSignal → Option LevelTexts → List (String × String) → Result Decision
  unfolding conclude verdict
  decide_from [] found hashes = conclude found hashes
  decide_from (s ∷ rest) found hashes =
      let observation = lookup s.signal_id observations in
      let hashes' = add_hash s.signal_id observation hashes in
      elim (verdict s observation) [
        | stops status ↦ stop_at status s.signal_id hashes'
        | passes ↦ decide_from rest found hashes'
        | gives texts ↦ decide_from rest (some texts) hashes'
      ]

  -- `OrderedDecisionPlugin.decide`
  unfoldable pub decide : List DecisionSignal → Result Decision
  unfolding decide_from ordered_signals
  decide signals = decide_from (ordered_signals signals) none []

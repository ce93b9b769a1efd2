-- ===== src/Graph/Execute.antt =====
-- application/graph.py: `IndicatorGraph.execute`.
use smc_ict_engine.Prelude.{
  ℕ, Bool, true, false, not, ◌&&◌, Option, none, some, String, List, [], ◌∷◌, ◌++◌, ltb, str_eq,
  contains, map, lookup, Result, ok, err, value_error, key_error, ◌>>=◌, ◌>>◌, raise_if,
}
use smc_ict_engine.Domain.{Timeframe, Observation, timeframe_eqb}
use smc_ict_engine.Resampling.{DerivedCandle}
use smc_ict_engine.Graph.Nodes.{ConfiguredNode}

-- `RunContext`
pub record RunContext : Type 0 where
  pub instrument_id : String
  pub evaluation_time_ms : ℕ
  pub candles_by_role : List (String × List DerivedCandle)
  pub timeframes_by_role : List (String × Timeframe)

abbrev pub role_names : RunContext → List String
role_names context = map (λ e. e.0) context.candles_by_role

abbrev pub Observations : Type 0
Observations = List (String × Observation)

-- A plugin, made from the node's parameters: its role, if it has one, and its evaluation.
pub record Plugin : Type 0 where
  pub role : Option String
  pub evaluate : RunContext → Observations → Result Observation

-- `{dependency: observations[dependency] for dependency in depends_on}`
unfoldable pub gather : Observations → List String → Result Observations
gather observations [] = ok []
gather observations (d ∷ ds) = elim (lookup d observations) [
  | none ↦ err key_error
  | some o ↦ elim (gather observations ds) [ ok rest ↦ ok ((d, o) ∷ rest) | err e ↦ err e ]
]

abbrev pub ids_eqb : List String → List String → Bool
ids_eqb [] [] = true
ids_eqb (x ∷ xs) (y ∷ ys) = str_eq x y && ids_eqb xs ys
ids_eqb _ _ = false

abbrev pub known_after : ℕ → Observation → Bool
known_after time o = elim o.known_time_ms [ none ↦ false | some known ↦ ltb time known ]

abbrev pub other_timeframe : ConfiguredNode → Observation → Bool
other_timeframe n o = elim n.timeframe [ none ↦ false | some t ↦ not (timeframe_eqb o.timeframe t) ]

-- The checks on what a plugin returns.
unfoldable pub check_observation : ConfiguredNode → RunContext → Observation → Result Observation
check_observation n context o = do
  raise_if (not (str_eq o.signal_id n.instance_id)) value_error
  raise_if (not (str_eq o.instrument_id context.instrument_id)) value_error
  raise_if (other_timeframe n o) value_error
  raise_if (not (ids_eqb o.dependency_ids n.depends_on)) value_error
  raise_if (not (str_eq o.parameter_hash n.parameter_hash)) value_error
  raise_if (known_after context.evaluation_time_ms o) value_error
  ok o

module _ (factories : ConfiguredNode → Plugin) (context : RunContext) where
  abbrev pub wrong_role : ConfiguredNode → Bool
  wrong_role n = elim (factories n).role [ none ↦ false | some role ↦ not (str_eq role n.role) ]

  -- The body of the loop, up to the observation.
  unfoldable pub execute_node : Observations → ConfiguredNode → Result Observation
  unfolding gather check_observation
  execute_node observations n = do
    raise_if (not (contains (role_names context) n.role)) value_error
    raise_if (wrong_role n) value_error
    dependencies ← gather observations n.depends_on
    o ← (factories n).evaluate context dependencies
    check_observation n context o

  -- The identifiers are distinct, so each observation is a new entry.
  unfoldable pub execute_from : Observations → List ConfiguredNode → Result Observations
  unfolding execute_node
  execute_from observations [] = ok observations
  execute_from observations (n ∷ ns) = do
    o ← execute_node observations n
    execute_from (observations ++ (n.instance_id, o) ∷ []) ns

  unfoldable pub execute : List ConfiguredNode → Result Observations
  unfolding execute_from
  execute ordered = execute_from [] ordered

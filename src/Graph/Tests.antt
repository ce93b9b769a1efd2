-- ===== src/Graph/Tests.antt =====
-- Runs of the graph on small inputs, and its theorems at them.
use smc_ict_engine.Prelude.{
  ℕ, ◌≡◌, ◌≢◌, refl, none, some, String, List, [], ◌∷◌, arith, All, ok, err, key_error, map, str_eq,
  if◌then◌else◌,
}
use smc_ict_engine.Prelude.Sort.{sort, insert_sorted}
use smc_ict_engine.Domain.{Timeframe, Observation, ObservationStatus, timeframe_eqb}
use smc_ict_engine.Graph.Nodes.{
  ConfiguredNode, instance_ids, ready_nodes, rounds, topological_order,
}
use smc_ict_engine.Graph.Rounds.{Orders, topological_order-Orders}
use smc_ict_engine.Graph.Acyclic.{topological_order_acyclic}
use smc_ict_engine.Graph.Execute.{
  RunContext, Plugin, Observations, gather, check_observation, execute_node, execute_from, execute,
}
use smc_ict_engine.Graph.Run.{IsCausal, execute-IsCausal, execute_finds}

abbrev node_of : (id : String) (depends_on : List String) (order : ℕ) → ConfiguredNode
node_of id depends_on order = record {
  instance_id = id;
  plugin_id = "atr";
  role = "trend";
  depends_on = depends_on;
  parameter_hash = "h";
  order = order;
  timeframe = some Timeframe.m5;
}

abbrev entry_node : ConfiguredNode
entry_node = node_of "entry" ("trend" ∷ []) 1

abbrev trend_node : ConfiguredNode
trend_node = node_of "trend" [] 2

abbrev sample_nodes : List ConfiguredNode
sample_nodes = entry_node ∷ trend_node ∷ []

-- A node comes after the one that it depends on, whatever their orders are.
sample_nodes_sorted :
    topological_order ("atr" ∷ []) sample_nodes ≡ some (ok (trend_node ∷ entry_node ∷ []))
unfolding topological_order rounds ready_nodes sort insert_sorted
sample_nodes_sorted = refl

topological_order-Orders_example : Orders sample_nodes (topological_order ("atr" ∷ []) sample_nodes)
topological_order-Orders_example = topological_order-Orders ("atr" ∷ []) sample_nodes

abbrev sample_rank : String → ℕ
sample_rank id = if str_eq id "trend" then 0 else 1

topological_order_acyclic_example :
    (result : List ConfiguredNode) × (topological_order ("atr" ∷ []) sample_nodes
      ≡ some (ok result))
topological_order_acyclic_example =
    topological_order_acyclic ("atr" ∷ []) sample_nodes sample_rank refl refl refl
      ((omega arith, tt), (tt, tt))

abbrev sample_context : RunContext
sample_context = record {
  instrument_id = "BTC-USDT-PERP";
  evaluation_time_ms = 600_000;
  candles_by_role = ("trend", []) ∷ [];
  timeframes_by_role = [];
}

abbrev observation_of : ConfiguredNode → Observation
observation_of n = record {
  signal_id = n.instance_id;
  instrument_id = "BTC-USDT-PERP";
  timeframe = Timeframe.m5;
  status = ObservationStatus.pass;
  event_type = none;
  direction = none;
  event_time_ms = some 300_000;
  known_time_ms = some 600_000;
  state = "ready";
  dependency_ids = n.depends_on;
  parameter_hash = n.parameter_hash;
  source_manifest_ids = [];
  payload_schema_version = 1;
  bounded_reason = "sample";
  payload = [];
  level = none;
  lower = none;
  upper = none;
}

abbrev sample_plugin : ConfiguredNode → Plugin
sample_plugin n = record { role = some "trend"; evaluate = λ context given. ok (observation_of n) }

abbrev sample_observations : Observations
sample_observations =
    ("trend", observation_of trend_node) ∷ ("entry", observation_of entry_node) ∷ []

sample_nodes_executed :
    execute sample_plugin sample_context (trend_node ∷ entry_node ∷ []) ≡ ok sample_observations
unfolding execute execute_from execute_node gather check_observation timeframe_eqb
sample_nodes_executed = refl

execute-IsCausal_example :
    (map (λ e. e.0) sample_observations ≡ instance_ids (trend_node ∷ entry_node ∷ []))
    × All (IsCausal sample_context) sample_observations
execute-IsCausal_example =
    execute-IsCausal sample_plugin sample_context (trend_node ∷ entry_node ∷ []) sample_observations
      sample_nodes_executed

sample_plugin_finds :
    (n : ConfiguredNode) (given : Observations)
    → (sample_plugin n).evaluate sample_context given ≢ err key_error
sample_plugin_finds n given e = cc

execute_finds_example :
    execute sample_plugin sample_context (trend_node ∷ entry_node ∷ []) ≢ err key_error
execute_finds_example =
    execute_finds sample_plugin sample_context sample_plugin_finds (trend_node ∷ entry_node ∷ [])
      (refl, (refl, tt))

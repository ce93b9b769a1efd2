-- ===== src/Graph/Nodes.antt =====
-- application/graph.py: `ConfiguredNode` and `IndicatorGraph._topological_order`.
use smc_ict_engine.Prelude.{
  ℕ, zero, suc, Bool, false, not, ◌&&◌, ◌||◌, Option, none, some, String, List, [], ◌∷◌, ◌++◌, ltb,
  ◌==◌, str_le, if◌then◌else◌, length, all, keep, map, contains, Result, ok, err, value_error,
  unknown_plugin, missing_dependency, cyclic_dependency,
}
use smc_ict_engine.Prelude.Sort.{sort}
use smc_ict_engine.Domain.{Timeframe}

-- The parameters are opaque to the graph: it compares their hash only.
pub record ConfiguredNode : Type 0 where
  pub instance_id : String
  pub plugin_id : String
  pub role : String
  pub depends_on : List String
  pub parameter_hash : String
  pub order : ℕ
  pub timeframe : Option Timeframe

abbrev pub instance_ids : List ConfiguredNode → List String
instance_ids = map (λ n. n.instance_id)

-- `set(node.depends_on).issubset(completed)`
abbrev pub is_ready : List String → ConfiguredNode → Bool
is_ready completed n = all (contains completed) n.depends_on

-- The sort key is the order, then the identifier.
abbrev pub node_le : ConfiguredNode → ConfiguredNode → Bool
node_le a b = ltb a.order b.order || (a.order == b.order && str_le a.instance_id b.instance_id)

unfoldable pub ready_nodes : List String → List ConfiguredNode → List ConfiguredNode
unfolding sort
ready_nodes completed remaining = sort node_le (keep (is_ready completed) remaining)

-- `remaining` has one entry for a node, so deleting the ready ones leaves the others.
abbrev pub waiting_nodes : List String → List ConfiguredNode → List ConfiguredNode
waiting_nodes completed remaining = keep (λ n. not (is_ready completed n)) remaining

-- `while remaining`; `none` stands for fuel that ran out.
unfoldable pub rounds :
    ℕ
    → (completed : List String) → (ordered remaining : List ConfiguredNode)
    → Option (Result (List ConfiguredNode))
unfolding ready_nodes
rounds zero completed ordered [] = some (ok ordered)
rounds zero completed ordered (n ∷ ns) = none
rounds (suc fuel) completed ordered [] = some (ok ordered)
rounds (suc fuel) completed ordered (n ∷ ns) = elim (ready_nodes completed (n ∷ ns)) [
  | [] ↦ some (err cyclic_dependency)
  | r ∷ rs ↦
      rounds fuel (completed ++ instance_ids (r ∷ rs)) (ordered ++ r ∷ rs)
        (waiting_nodes completed (n ∷ ns))
]

-- `len(by_id) != len(nodes)`
abbrev pub has_duplicate : List String → Bool
has_duplicate [] = false
has_duplicate (x ∷ xs) = contains xs x || has_duplicate xs

-- `_topological_order`, over the identifiers that have a factory. Each round places a node.
unfoldable pub topological_order :
    List String → List ConfiguredNode → Option (Result (List ConfiguredNode))
unfolding rounds
topological_order factories nodes =
    if has_duplicate (instance_ids nodes)
    then some (err value_error)
    else if not (all (λ n. contains factories n.plugin_id) nodes)
    then some (err unknown_plugin)
    else if not (all (λ n. all (contains (instance_ids nodes)) n.depends_on) nodes)
    then some (err missing_dependency)
    else rounds (length nodes) [] [] nodes

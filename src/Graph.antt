-- ===== src/Graph.antt =====
-- application/graph.py: the configured indicator graph, its order and its execution.
mod Nodes
mod Execute
pub mod Order
pub mod Rounds
pub mod Acyclic
pub mod Run
pub mod Tests
unfoldable pub use Nodes.*
unfoldable pub use Execute.*

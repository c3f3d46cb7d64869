-- ===== src/TruthGraph.antt =====
-- Truth graphs and their evaluation, apps/api/app/scenario/truth_graph.py.
pub mod Graph
pub mod Evaluate
pub mod Paths
pub mod Growth
pub mod Validity
mod Tests

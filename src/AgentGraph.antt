-- ===== src/AgentGraph.antt =====
-- The graph of agents, apps/api/app/scenario/agent_graph.py.
pub mod Derive
pub mod Totals
pub mod Files
pub mod Links
mod Tests

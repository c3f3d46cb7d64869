-- ===== src/AgentGraph/Tests.antt =====
-- A small stream, its graph, and the theorems at this input
-- (apps/api/app/scenario/agent_graph.py).
use the_evil_repository.Prelude.{List, Option, String, [], map, none, refl, some, ◌∷◌, ◌≡◌}
use the_evil_repository.Protocol.{end}
use the_evil_repository.AgentGraph.Derive.{
  AgentEdge, AgentNode, StreamEvent, active, completed, count_event, delegate, derive_agent_graph,
  is_candidate_agent_event, link, multi_agent, new_node, set_default, set_parent, spawn, take_event,
}
use the_evil_repository.AgentGraph.Totals.{IsTallied, derive_agent_graph-IsTallied}
use the_evil_repository.AgentGraph.Links.{EdgesJoin, HasNode, derive_agent_graph-EdgesJoin}

abbrev event : String → Option String → Option String → StreamEvent
event kind agent target = record {
  kind = kind;
  sequence = some 1;
  agent_id = agent;
  parent_agent_id = none;
  target_agent_id = target;
  agent_role = none;
  role = none;
  agent_metadata = end;
  task = some "";
  input_tokens = 7;
  output_tokens = 3;
}

abbrev stream : List StreamEvent
stream =
    event "model.request" none none
    ∷ event "assistant.message" none none
    ∷ event "agent.spawned" (some "worker/1") none
    ∷ event "agent.delegated" (some "worker/2") (some "worker/3")
    ∷ event "tool.call" (some "worker/1") none
    ∷ event "judge.note" (some "judge/1") none
    ∷ event "agent.completed" (some "worker/1") none
    ∷ []

stream-nodes :
    let g = derive_agent_graph "candidate/root" stream in
    (map (λ (n : AgentNode). n.id) g.nodes
      ≡ "candidate/root" ∷ "worker/1" ∷ "worker/2" ∷ "worker/3" ∷ [])
    × (map (λ (n : AgentNode). n.tool_calls) g.nodes ≡ 0 ∷ 1 ∷ 0 ∷ 0 ∷ [])
    × (map (λ (n : AgentNode). n.input_tokens) g.nodes ≡ 7 ∷ 0 ∷ 0 ∷ 0 ∷ [])
    × (map (λ (n : AgentNode). n.status) g.nodes ≡ active ∷ completed ∷ active ∷ active ∷ [])
    × (map (λ (x : AgentEdge). x.target) g.edges ≡ "worker/1" ∷ "worker/3" ∷ [])
    × (g.execution_mode ≡ multi_agent)
unfolding derive_agent_graph new_node set_default set_parent spawn delegate link
    is_candidate_agent_event count_event take_event
stream-nodes = (refl, refl, refl, refl, refl, refl)

derive_agent_graph-IsTallied_example :
    IsTallied (derive_agent_graph "candidate/root" stream).nodes stream
derive_agent_graph-IsTallied_example = derive_agent_graph-IsTallied "candidate/root" stream

derive_agent_graph-EdgesJoin_example :
    let g = derive_agent_graph "candidate/root" stream in
    HasNode g.nodes "candidate/root" × EdgesJoin g.nodes g.edges
derive_agent_graph-EdgesJoin_example = derive_agent_graph-EdgesJoin "candidate/root" stream

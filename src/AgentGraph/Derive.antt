-- ===== src/AgentGraph/Derive.antt =====
-- `derive_agent_graph`, which folds the event stream of a run into a graph of agents
-- (apps/api/app/scenario/agent_graph.py).
use the_evil_repository.Prelude.{
  Bool, Dict, List, Option, String, String-comparable, [], contains, get_or_else, has_key,
  if◌then◌else◌, is_empty, length, ltb, none, put, some, starts_with, str_eq, str_le, ℕ, ◌++◌, ◌+◌,
  ◌||◌, ◌∷◌,
}
use the_evil_repository.Protocol.{Fields, end}

pub data AgentStatus : Type 0 where
  active completed failed cancelled : AgentStatus

pub record AgentNode : Type 0 where
  pub id : String
  pub parent_id : Option String
  pub role : String
  pub status : AgentStatus
  pub first_sequence : Option ℕ
  pub last_sequence : Option ℕ
  pub model_turns : ℕ
  pub tool_calls : ℕ
  pub input_tokens : ℕ
  pub output_tokens : ℕ
  pub metadata : Fields

pub data Relation : Type 0 where
  spawned delegated reviewed : Relation

pub record AgentEdge : Type 0 where
  pub source : String
  pub target : String
  pub relation : Relation
  pub sequence : Option ℕ
  pub task : Option String

pub data ExecutionMode : Type 0 where
  single_agent multi_agent : ExecutionMode

pub record AgentGraph : Type 0 where
  pub execution_mode : ExecutionMode
  pub nodes : List AgentNode
  pub edges : List AgentEdge

-- What the source reads of an event. A key that is missing or None is `none`, the others are
-- the texts that `str` makes of them; the token counts are at least 0, and 0 where missing.
pub record StreamEvent : Type 0 where
  pub kind : String
  pub sequence : Option ℕ
  pub agent_id : Option String
  pub parent_agent_id : Option String
  pub target_agent_id : Option String
  pub agent_role : Option String
  pub role : Option String
  pub agent_metadata : Fields
  pub task : Option String
  pub input_tokens : ℕ
  pub output_tokens : ℕ

-- `value or default`
abbrev pub text_or : String → Option String → String
text_or default none = default
text_or default (some s) = if is_empty s then default else s

-- `_optional_text`
abbrev pub optional_text : Option String → Option String
optional_text none = none
optional_text (some s) = if is_empty s then none else some s

-- `AgentNode(id=..., parent_id=..., role=..., metadata=...)`, the rest at its default
unfoldable pub new_node : String → Option String → String → Fields → AgentNode
new_node id parent role metadata = record {
  id = id;
  parent_id = parent;
  role = role;
  status = active;
  first_sequence = none;
  last_sequence = none;
  model_turns = 0;
  tool_calls = 0;
  input_tokens = 0;
  output_tokens = 0;
  metadata = metadata;
}

-- `nodes.setdefault(id, node)`
unfoldable pub set_default : String → AgentNode → Dict AgentNode → Dict AgentNode
set_default id node nodes = if has_key id nodes then nodes else put id node nodes

-- Changing the node that the key names in place.
abbrev pub change : String → (AgentNode → AgentNode) → Dict AgentNode → Dict AgentNode
change id f [] = []
change id f ((j, n) ∷ nodes) =
    let rest = change id f nodes in if str_eq j id then (j, f n) ∷ nodes else (j, n) ∷ rest

pub record Progress : Type 0 where
  pub nodes : Dict AgentNode
  pub edges : List AgentEdge

unfoldable pub set_parent : String → AgentNode → AgentNode
set_parent parent n = record n { parent_id = some parent }

abbrev pub agent_of : String → StreamEvent → String
agent_of default e = text_or default e.agent_id

-- `agent.spawned`
unfoldable pub spawn : String → StreamEvent → Progress → Progress
spawn default e p =
    let agent = agent_of default e in
    let parent = text_or default e.parent_agent_id in
    let node =
      new_node agent (some parent) (text_or (text_or "worker" e.role) e.agent_role)
        e.agent_metadata in
    record {
      nodes = change agent (set_parent parent) (set_default agent node p.nodes);
      edges =
          p.edges
          ++ record {
            source = parent;
            target = agent;
            relation = spawned;
            sequence = e.sequence;
            task = optional_text e.task;
          }
            ∷ [];
    }

-- `agent.delegated`
unfoldable pub delegate : String → StreamEvent → Progress → Progress
delegate default e p =
    let target = text_or "" e.target_agent_id in
    if is_empty target then p else record {
      nodes = set_default target (new_node target none "worker" end) p.nodes;
      edges =
          p.edges
          ++ record {
            source = agent_of default e;
            target = target;
            relation = delegated;
            sequence = e.sequence;
            task = optional_text e.task;
          }
            ∷ [];
    }

unfoldable pub link : String → StreamEvent → Progress → Progress
link default e p =
    if str_eq e.kind "agent.spawned"
    then spawn default e p
    else (if str_eq e.kind "agent.delegated" then delegate default e p else p)

abbrev pub observed_kinds : List String
observed_kinds = "model.request" ∷ "assistant.message" ∷ "tool.call" ∷ "tool.result" ∷ []

-- `_is_candidate_agent_event`
unfoldable pub is_candidate_agent_event : StreamEvent → Bool
is_candidate_agent_event e =
    starts_with e.kind "agent."
    || contains e.kind observed_kinds
    || starts_with (get_or_else "" e.agent_id) "candidate/"

abbrev pub one_for : String → StreamEvent → ℕ
one_for kind e = if str_eq e.kind kind then 1 else 0

abbrev pub tokens_for : ℕ → StreamEvent → ℕ
tokens_for n e = if str_eq e.kind "assistant.message" then n else 0

abbrev pub status_after : String → AgentStatus → AgentStatus
status_after kind status =
    if str_eq kind "agent.completed"
    then completed
    else (if str_eq kind "agent.failed"
        then failed
        else (if str_eq kind "agent.cancelled" then cancelled else status))

-- The node after an event of its agent. The kinds exclude each other.
unfoldable pub count_event : StreamEvent → AgentNode → AgentNode
count_event e n = record n {
  first_sequence = elim (n.first_sequence) [ none ↦ e.sequence | some s ↦ some s ];
  last_sequence = e.sequence;
  model_turns = n.model_turns + one_for "model.request" e;
  tool_calls = n.tool_calls + one_for "tool.call" e;
  input_tokens = n.input_tokens + tokens_for e.input_tokens e;
  output_tokens = n.output_tokens + tokens_for e.output_tokens e;
  status = status_after e.kind n.status;
}

-- The body of the loop.
unfoldable pub take_event : String → StreamEvent → Progress → Progress
take_event default e p =
    let linked = link default e p in
    let agent = agent_of default e in
    if is_candidate_agent_event e
    then record {
      nodes = change agent (count_event e) (
          set_default agent (new_node agent none (text_or "worker" e.agent_role) end) linked.nodes);
      edges = linked.edges;
    }
    else linked

abbrev pub take_events : String → List StreamEvent → Progress → Progress
take_events default [] p = p
take_events default (e ∷ rest) p = take_events default rest (take_event default e p)

abbrev pub start : String → Progress
start default = record { nodes = (default, new_node default none "primary" end) ∷ []; edges = [] }

-- `sorted(nodes.values(), key=lambda node: node.id)`
abbrev pub insert_node : AgentNode → List AgentNode → List AgentNode
insert_node n [] = n ∷ []
insert_node n (m ∷ rest) =
    let later = insert_node n rest in if str_le n.id m.id then n ∷ m ∷ rest else m ∷ later

abbrev pub sorted_nodes : Dict AgentNode → List AgentNode
sorted_nodes [] = []
sorted_nodes ((k, n) ∷ rest) = insert_node n (sorted_nodes rest)

-- `derive_agent_graph`
unfoldable pub derive_agent_graph : String → List StreamEvent → AgentGraph
derive_agent_graph default events =
    let p = take_events default events (start default) in
    let ordered = sorted_nodes p.nodes in
    record {
      execution_mode = if ltb 1 (length ordered) then multi_agent else single_agent;
      nodes = ordered;
      edges = p.edges;
    }

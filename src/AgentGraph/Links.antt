-- ===== src/AgentGraph/Links.antt =====
-- The edges of the graph join nodes of it (`derive_agent_graph`,
-- apps/api/app/scenario/agent_graph.py).
use the_evil_repository.Prelude.{
  All, All-append, All-map, Bool-cases, Dict, List, Some, String, [], arith, eq_iff, eq_refl, false,
  has_key, here, if_rule, inl, inr, is_empty, join, none, refl, some, starts_with, str_eq, str_le,
  subst, sym, there, true, ◌++◌, ◌∙◌, ◌∷◌, ◌≡◌, ◌⊎◌,
}
use the_evil_repository.AgentGraph.Derive.{
  AgentEdge, AgentNode, Progress, StreamEvent, agent_of, change, count_event, delegate, delegated,
  derive_agent_graph, insert_node, is_candidate_agent_event, link, new_node, set_default,
  set_parent, sorted_nodes, spawn, start, take_event, take_events, text_or,
}
use the_evil_repository.Protocol.{end}
use the_evil_repository.AgentGraph.Totals.{set_default-has_key}
use the_evil_repository.AgentGraph.Files.{
  IsFiled, Keeps, change-IsFiled, has_key-change, set_default-IsFiled, set_default-Keeps,
}

-- The edge leads to a node; a delegation also comes from one.
abbrev IsJoined : Dict AgentNode → AgentEdge → Type 0
IsJoined nodes e =
    (has_key e.target nodes ≡ true) × (e.relation ≡ delegated → has_key e.source nodes ≡ true)

record IsLinked (default : String) (p : Progress) : Type 0 where
  rooted : has_key default p.nodes ≡ true
  filed : All IsFiled p.nodes
  joined : All (IsJoined p.nodes) p.edges

-- As `IsJoined`, where the agent that acts may be missing yet.
abbrev IsJoinedBy : String → Dict AgentNode → AgentEdge → Type 0
IsJoinedBy agent nodes e =
    (has_key e.target nodes ≡ true)
    × (e.relation ≡ delegated → (has_key e.source nodes ≡ true) ⊎ (e.source ≡ agent))

module _ (default : String) (e : StreamEvent) where
  record IsLinkedBy (p : Progress) : Type 0 where
    root : has_key default p.nodes ≡ true
    files : All IsFiled p.nodes
    joins : All (IsJoinedBy (agent_of default e) p.nodes) p.edges

  weaken : (p : Progress) → IsLinked default p → IsLinkedBy p
  weaken p h = record {
    root = h.rooted;
    files = h.filed;
    joins =
        All-map {P = IsJoined p.nodes} {Q = IsJoinedBy (agent_of default e) p.nodes}
          (λ x j. (j.0, λ d. inl (j.1 d))) p.edges h.joined;
  }

  -- More nodes, and one more edge that is joined.
  extend :
      (p : Progress) (nodes : Dict AgentNode) (edge : AgentEdge)
      → IsLinked default p
      → Keeps p.nodes nodes
      → All IsFiled nodes
      → IsJoinedBy (agent_of default e) nodes edge
      → IsLinkedBy (record { nodes = nodes; edges = p.edges ++ edge ∷ [] })
  extend p nodes edge h keeps filed join = record {
    root = keeps default h.rooted;
    files = filed;
    joins =
        All-append (IsJoinedBy (agent_of default e) nodes) p.edges (edge ∷ [])
          (All-map {P = IsJoined p.nodes} {Q = IsJoinedBy (agent_of default e) nodes}
            (λ x j. (keeps x.target j.0, λ d. inl (keeps x.source (j.1 d)))) p.edges h.joined)
          (join, tt);
  }

  spawn-IsLinkedBy : (p : Progress) → IsLinked default p → IsLinkedBy (spawn default e p)
  unfolding spawn new_node set_parent
  spawn-IsLinkedBy p h =
      let agent = agent_of default e in
      let parent = text_or default e.parent_agent_id in
      let node =
        new_node agent (some parent) (text_or (text_or "worker" e.role) e.agent_role)
          e.agent_metadata in
      let grown = set_default agent node p.nodes in
      let same = has_key-change agent (set_parent parent) grown in
      extend p (change agent (set_parent parent) grown) _ h
        (λ key k. same key ∙ set_default-Keeps agent node p.nodes key k)
        (change-IsFiled agent (set_parent parent) grown (λ n. refl)
          (set_default-IsFiled agent node p.nodes refl h.filed))
        (same agent ∙ set_default-has_key agent node p.nodes, λ d. absurd (cc))

  delegate-IsLinkedBy : (p : Progress) → IsLinked default p → IsLinkedBy (delegate default e p)
  unfolding delegate new_node
  delegate-IsLinkedBy p h =
      let target = text_or "" e.target_agent_id in
      let node = new_node target none "worker" end in
      if_rule IsLinkedBy (is_empty target) (λ _. weaken p h)
        λ _.
          extend p (set_default target node p.nodes) _ h (set_default-Keeps target node p.nodes)
            (set_default-IsFiled target node p.nodes refl h.filed)
            (set_default-has_key target node p.nodes, λ d. inr refl)

  link-IsLinkedBy : (p : Progress) → IsLinked default p → IsLinkedBy (link default e p)
  unfolding link
  link-IsLinkedBy p h =
      if_rule IsLinkedBy (str_eq e.kind "agent.spawned") (λ _. spawn-IsLinkedBy p h)
        λ _.
          if_rule IsLinkedBy (str_eq e.kind "agent.delegated") (λ _. delegate-IsLinkedBy p h)
            λ _. weaken p h

  candidate_kind :
      (kind : String)
      → starts_with kind "agent." ≡ true
      → is_candidate_agent_event e ≡ false
      → str_eq e.kind kind ≡ false
  unfolding is_candidate_agent_event
  candidate_kind kind h quiet = elim (Bool-cases (str_eq e.kind kind)) [
    | inl same ↦
        let named =
          subst (λ k. starts_with k "agent." ≡ true) (sym ((eq_iff e.kind kind).0 same)) h in
        absurd (ground (arith, named, quiet))
    | inr differs ↦ differs
  ]

  -- An event that is no agent's adds nothing.
  link_ignored : (p : Progress) → is_candidate_agent_event e ≡ false → link default e p ≡ p
  unfolding link
  link_ignored p quiet =
      rw (candidate_kind "agent.spawned" refl quiet, candidate_kind "agent.delegated" refl quiet)
        refl

  take_event-IsLinked :
      (p : Progress) → IsLinked default p → IsLinked default (take_event default e p)
  unfolding take_event new_node count_event
  take_event-IsLinked p h =
      let linked = link default e p in
      let by = link-IsLinkedBy p h in
      let agent = agent_of default e in
      let node = new_node agent none (text_or "worker" e.agent_role) end in
      let grown = set_default agent node linked.nodes in
      let same = has_key-change agent (count_event e) grown in
      let keeps : Keeps linked.nodes (change agent (count_event e) grown) =
        λ key k. same key ∙ set_default-Keeps agent node linked.nodes key k in
      let acting = same agent ∙ set_default-has_key agent node linked.nodes in
      if_rule (IsLinked default) (is_candidate_agent_event e)
        (λ _. record {
          rooted = keeps default by.root;
          filed =
              change-IsFiled agent (count_event e) grown (λ n. refl)
                (set_default-IsFiled agent node linked.nodes refl by.files);
          joined =
              All-map {P = IsJoinedBy agent linked.nodes}
                {Q = IsJoined (change agent (count_event e) grown)}
                (λ x j. (
                  keeps x.target j.0,
                  λ d. elim (j.1 d) [
                    | inl known ↦ keeps x.source known
                    | inr is_agent ↦ rw is_agent acting
                  ],
                ))
                linked.edges by.joins;
        })
        λ quiet. subst (IsLinked default) (sym (link_ignored p quiet)) h

take_events-IsLinked :
    (default : String) (events : List StreamEvent) (p : Progress)
    → IsLinked default p
    → IsLinked default (take_events default events p)
take_events-IsLinked default [] p h = h
take_events-IsLinked default (e ∷ rest) p h =
    take_events-IsLinked default rest (take_event default e p) (take_event-IsLinked default e p h)

-- A node of the list has this id.
abbrev pub HasNode : List AgentNode → String → Type 0
HasNode nodes id = Some (λ (n : AgentNode). n.id ≡ id) nodes

insert_node-here :
    (n : AgentNode) (nodes : List AgentNode) (id : String)
    → n.id ≡ id
    → HasNode (insert_node n nodes) id
insert_node-here n [] id e = here e
insert_node-here n (m ∷ rest) id e =
    if_rule (λ xs. HasNode xs id) (str_le n.id m.id) {x = n ∷ m ∷ rest} {y = m ∷ insert_node n rest}
      (λ _. here e) (λ _. there (insert_node-here n rest id e))

insert_node-there :
    (n : AgentNode) (id : String) {nodes : List AgentNode}
    → HasNode nodes id
    → HasNode (insert_node n nodes) id
insert_node-there n id (here {x = m} {xs = rest} e) =
    if_rule (λ xs. HasNode xs id) (str_le n.id m.id) {x = n ∷ m ∷ rest} {y = m ∷ insert_node n rest}
      (λ _. there (here e)) (λ _. here e)
insert_node-there n id (there {x = m} {xs = rest} s) =
    if_rule (λ xs. HasNode xs id) (str_le n.id m.id) {x = n ∷ m ∷ rest} {y = m ∷ insert_node n rest}
      (λ _. there (there s)) (λ _. there (insert_node-there n id s))

sorted_nodes-HasNode :
    (nodes : Dict AgentNode) (id : String)
    → All IsFiled nodes
    → has_key id nodes ≡ true
    → HasNode (sorted_nodes nodes) id
sorted_nodes-HasNode [] id h known = absurd (cc)
sorted_nodes-HasNode ((j, n) ∷ rest) id h known = elim (Bool-cases (str_eq j id)) [
  | inl e ↦ insert_node-here n (sorted_nodes rest) id (h.0 ∙ (eq_iff j id).0 e)
  | inr e ↦ insert_node-there n id (sorted_nodes-HasNode rest id h.1 (ground (arith, e, known)))
]

-- Every edge leads to a node of the graph, and a delegation comes from one as well.
abbrev pub EdgesJoin : List AgentNode → List AgentEdge → Type 0
EdgesJoin nodes edges =
    All
      (λ (e : AgentEdge).
        HasNode nodes e.target × (e.relation ≡ delegated → HasNode nodes e.source))
      edges

-- The graph has a node for the default agent, every edge leads to one of its nodes, and every
-- delegation comes from one.
pub derive_agent_graph-EdgesJoin :
    (default : String) (events : List StreamEvent)
    → let g = derive_agent_graph default events in
      HasNode g.nodes default × EdgesJoin g.nodes g.edges
unfolding derive_agent_graph new_node
derive_agent_graph-EdgesJoin default events =
    let p = take_events default events (start default) in
    let h =
      take_events-IsLinked default events (start default)
        (record { rooted = rw eq_refl refl; filed = (refl, tt); joined = tt }) in
    (
      sorted_nodes-HasNode p.nodes default h.filed h.rooted,
      All-map {P = IsJoined p.nodes}
          {Q = λ (e : AgentEdge).
            HasNode (sorted_nodes p.nodes) e.target
            × (e.relation ≡ delegated → HasNode (sorted_nodes p.nodes) e.source)}
          (λ e j. (
            sorted_nodes-HasNode p.nodes e.target h.filed j.0,
            λ d. sorted_nodes-HasNode p.nodes e.source h.filed (j.1 d),
          ))
          p.edges h.joined,
    )

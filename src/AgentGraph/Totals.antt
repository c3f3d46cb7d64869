-- ===== src/AgentGraph/Totals.antt =====
-- Every model turn, tool call and token of the stream is counted on one node
-- (`derive_agent_graph`, apps/api/app/scenario/agent_graph.py).
use the_evil_repository.Prelude.{
  Bool, Bool-cases, Dict, List, Option, String, String-comparable, [], arith, contains, eq_iff,
  false, get_or_else, has_key, if_rule, if◌then◌else◌, inl, inr, is_empty, lookup-put_self, none,
  put, refl, some, starts_with, str_eq, subst, sym, true, ℕ, ◌+◌, ◌||◌, ◌∷◌, ◌≡◌,
}
use the_evil_repository.Protocol.{Fields, end}
use the_evil_repository.AgentGraph.Derive.{
  AgentNode, Progress, StreamEvent, agent_of, change, count_event, delegate, derive_agent_graph,
  insert_node, is_candidate_agent_event, link, new_node, observed_kinds, one_for, set_default,
  set_parent, sorted_nodes, spawn, start, take_event, take_events, text_or, tokens_for,
}

abbrev pub sum_of {ℓ} : {A : Type ℓ} → (A → ℕ) → List A → ℕ
sum_of f [] = 0
sum_of f (x ∷ xs) = f x + sum_of f xs

-- The sum of a meter over the nodes of a dict.
abbrev pub meter_sum : (AgentNode → ℕ) → Dict AgentNode → ℕ
meter_sum g nodes = sum_of (λ (entry : String × AgentNode). g entry.1) nodes

-- A meter reads 0 on a new node, does not look at the parent, and grows by what an event adds.
record Meters (g : AgentNode → ℕ) (added : StreamEvent → ℕ) : Type 0 where
  fresh :
      (id : String) (parent : Option String) (role : String) (metadata : Fields)
      → g (new_node id parent role metadata) ≡ 0
  moved : (parent : String) (n : AgentNode) → g (set_parent parent n) ≡ g n
  counts : (e : StreamEvent) (n : AgentNode) → g (count_event e n) ≡ g n + added e
  ignored : (e : StreamEvent) → is_candidate_agent_event e ≡ false → added e ≡ 0

sum-put :
    (g : AgentNode → ℕ) (id : String) (n : AgentNode) (nodes : Dict AgentNode)
    → has_key id nodes ≡ false
    → meter_sum g (put id n nodes) ≡ meter_sum g nodes + g n
sum-put g id n [] absent = omega arith
sum-put g id n ((j, m) ∷ nodes) absent = ground (arith, absent, sum-put g id n nodes)

sum-set_default :
    (g : AgentNode → ℕ) (id : String) (n : AgentNode) (nodes : Dict AgentNode)
    → g n ≡ 0
    → meter_sum g (set_default id n nodes) ≡ meter_sum g nodes
unfolding set_default
sum-set_default g id n nodes h = elim (Bool-cases (has_key id nodes)) [
  | inl e ↦ rw e refl
  | inr e ↦ rw e (omega (arith, sum-put g id n nodes e, h))
]

sum-change :
    (g : AgentNode → ℕ) (f : AgentNode → AgentNode) (id : String) (more : ℕ)
    (nodes : Dict AgentNode)
    → ((n : AgentNode) → g (f n) ≡ g n + more)
    → has_key id nodes ≡ true
    → meter_sum g (change id f nodes) ≡ meter_sum g nodes + more
sum-change g f id more [] h present = absurd (cc)
sum-change g f id more ((j, n) ∷ nodes) h present = elim (Bool-cases (str_eq j id)) [
  | inl e ↦ rw e (omega (arith, h n))
  | inr e ↦ rw e (omega (arith, sum-change g f id more nodes h (ground (arith, e, present))))
]

pub set_default-has_key :
    (id : String) (n : AgentNode) (nodes : Dict AgentNode)
    → has_key id (set_default id n nodes) ≡ true
unfolding set_default
set_default-has_key id n nodes = elim (Bool-cases (has_key id nodes)) [
  | inl e ↦ rw e e
  | inr e ↦ rw (e, lookup-put_self id n nodes) refl
]

sum-insert_node :
    (g : AgentNode → ℕ) (n : AgentNode) (nodes : List AgentNode)
    → sum_of g (insert_node n nodes) ≡ g n + sum_of g nodes
sum-insert_node g n [] = refl
sum-insert_node g n (m ∷ rest) = ground (arith, sum-insert_node g n rest)

sum-sorted_nodes :
    (g : AgentNode → ℕ) (nodes : Dict AgentNode) → sum_of g (sorted_nodes nodes) ≡ meter_sum g nodes
sum-sorted_nodes g [] = refl
sum-sorted_nodes g ((k, n) ∷ rest) =
    omega (arith, sum-insert_node g n (sorted_nodes rest), sum-sorted_nodes g rest)

module _ (g : AgentNode → ℕ) (added : StreamEvent → ℕ) (m : Meters g added) where
  sum-link :
      (default : String) (e : StreamEvent) (p : Progress)
      → meter_sum g (link default e p).nodes ≡ meter_sum g p.nodes
  unfolding link spawn delegate
  sum-link default e p =
      if_rule (λ (q : Progress). meter_sum g q.nodes ≡ meter_sum g p.nodes)
        (str_eq e.kind "agent.spawned")
        (λ _.
          let agent = agent_of default e in
          let node =
            new_node agent (some (text_or default e.parent_agent_id))
              (text_or (text_or "worker" e.role) e.agent_role) e.agent_metadata in
          let moved =
            sum-change g (set_parent (text_or default e.parent_agent_id)) agent 0
              (set_default agent node p.nodes)
              (λ n. omega (arith, m.moved (text_or default e.parent_agent_id) n))
              (set_default-has_key agent node p.nodes) in
          omega (arith, moved, sum-set_default g agent node p.nodes (m.fresh _ _ _ _)))
        λ _.
          if_rule (λ (q : Progress). meter_sum g q.nodes ≡ meter_sum g p.nodes)
            (str_eq e.kind "agent.delegated")
            (λ _.
              if_rule (λ (q : Progress). meter_sum g q.nodes ≡ meter_sum g p.nodes)
                (is_empty (text_or "" e.target_agent_id)) (λ _. refl)
                λ _. sum-set_default g _ _ p.nodes (m.fresh _ _ _ _))
            λ _. refl

  sum-take_event :
      (default : String) (e : StreamEvent) (p : Progress)
      → meter_sum g (take_event default e p).nodes ≡ meter_sum g p.nodes + added e
  unfolding take_event
  sum-take_event default e p =
      let linked = link default e p in
      let agent = agent_of default e in
      let node = new_node agent none (text_or "worker" e.agent_role) end in
      let before = sum-link default e p in
      if_rule (λ (q : Progress). meter_sum g q.nodes ≡ meter_sum g p.nodes + added e)
        (is_candidate_agent_event e)
        (λ _.
          let counted =
            sum-change g (count_event e) agent (added e) (set_default agent node linked.nodes)
              (m.counts e) (set_default-has_key agent node linked.nodes) in
          omega
            (arith, counted, before, sum-set_default g agent node linked.nodes (m.fresh _ _ _ _)))
        λ quiet. omega (arith, before, m.ignored e quiet)

  sum-take_events :
      (default : String) (events : List StreamEvent) (p : Progress)
      → meter_sum g (take_events default events p).nodes ≡ meter_sum g p.nodes + sum_of added events
  sum-take_events default [] p = omega arith
  sum-take_events default (e ∷ rest) p =
      omega
        (arith, sum-take_events default rest (take_event default e p), sum-take_event default e p)

  sum-derive_agent_graph :
      (default : String) (events : List StreamEvent)
      → sum_of g (derive_agent_graph default events).nodes ≡ sum_of added events
  unfolding derive_agent_graph
  sum-derive_agent_graph default events = omega (
    arith,
    sum-sorted_nodes g (take_events default events (start default)).nodes,
    sum-take_events default events (start default),
    m.fresh default none "primary" end,
  )

-- An event that the graph ignores is of none of the kinds that it counts.
ignored_kind :
    (e : StreamEvent) (kind : String)
    → contains kind observed_kinds ≡ true
    → is_candidate_agent_event e ≡ false
    → str_eq e.kind kind ≡ false
unfolding is_candidate_agent_event
ignored_kind e kind listed quiet = elim (Bool-cases (str_eq e.kind kind)) [
  | inl same ↦
      let named =
        subst (λ k. contains k observed_kinds ≡ true) (sym ((eq_iff e.kind kind).0 same)) listed in
      absurd (
        clash (starts_with e.kind "agent.") (contains e.kind observed_kinds)
          (starts_with (get_or_else "" e.agent_id) "candidate/") named quiet)
  | inr h ↦ h
]
  where
    clash : (a b c : Bool) → b ≡ true → (a || b || c) ≡ false → ⊥
    clash a b c h k = ground (arith, h, k)

-- What the nodes add up to.
pub record IsTallied (nodes : List AgentNode) (events : List StreamEvent) : Type 0 where
  pub turns :
      sum_of (λ (n : AgentNode). n.model_turns) nodes ≡ sum_of (one_for "model.request") events
  pub calls : sum_of (λ (n : AgentNode). n.tool_calls) nodes ≡ sum_of (one_for "tool.call") events
  pub input :
      sum_of (λ (n : AgentNode). n.input_tokens) nodes
      ≡ sum_of (λ (e : StreamEvent). tokens_for e.input_tokens e) events
  pub output :
      sum_of (λ (n : AgentNode). n.output_tokens) nodes
      ≡ sum_of (λ (e : StreamEvent). tokens_for e.output_tokens e) events

kind_zero :
    (e : StreamEvent) (kind : String) (n : ℕ)
    → str_eq e.kind kind ≡ false
    → (if str_eq e.kind kind then n else 0) ≡ 0
kind_zero e kind n h = rw h refl

-- Over all nodes, the model turns are as many as the stream's model.request events, the tool
-- calls as many as its tool.call events, and the input and output tokens are those of its
-- assistant.message events: an event is counted on one node, whatever agents it names.
pub derive_agent_graph-IsTallied :
    (default : String) (events : List StreamEvent)
    → IsTallied (derive_agent_graph default events).nodes events
unfolding new_node set_parent count_event
derive_agent_graph-IsTallied default events = record {
  turns =
      sum-derive_agent_graph (λ (n : AgentNode). n.model_turns) (one_for "model.request") turns
        default events;
  calls =
      sum-derive_agent_graph (λ (n : AgentNode). n.tool_calls) (one_for "tool.call") calls default
        events;
  input =
      sum-derive_agent_graph (λ (n : AgentNode). n.input_tokens)
        (λ (e : StreamEvent). tokens_for e.input_tokens e) input default events;
  output =
      sum-derive_agent_graph (λ (n : AgentNode). n.output_tokens)
        (λ (e : StreamEvent). tokens_for e.output_tokens e) output default events;
}
  where
    turns : Meters (λ (n : AgentNode). n.model_turns) (one_for "model.request")
    turns = record {
      fresh = λ id parent role metadata. refl;
      moved = λ parent n. refl;
      counts = λ e n. refl;
      ignored =
          λ e quiet. kind_zero e "model.request" 1 (ignored_kind e "model.request" refl quiet);
    }

    calls : Meters (λ (n : AgentNode). n.tool_calls) (one_for "tool.call")
    calls = record {
      fresh = λ id parent role metadata. refl;
      moved = λ parent n. refl;
      counts = λ e n. refl;
      ignored = λ e quiet. kind_zero e "tool.call" 1 (ignored_kind e "tool.call" refl quiet);
    }

    input :
        Meters
          (λ (n : AgentNode). n.input_tokens)
          (λ (e : StreamEvent). tokens_for e.input_tokens e)
    input = record {
      fresh = λ id parent role metadata. refl;
      moved = λ parent n. refl;
      counts = λ e n. refl;
      ignored = λ e quiet.
          kind_zero e "assistant.message" e.input_tokens
            (ignored_kind e "assistant.message" refl quiet);
    }

    output :
        Meters
          (λ (n : AgentNode). n.output_tokens)
          (λ (e : StreamEvent). tokens_for e.output_tokens e)
    output = record {
      fresh = λ id parent role metadata. refl;
      moved = λ parent n. refl;
      counts = λ e n. refl;
      ignored = λ e quiet.
          kind_zero e "assistant.message" e.output_tokens
            (ignored_kind e "assistant.message" refl quiet);
    }

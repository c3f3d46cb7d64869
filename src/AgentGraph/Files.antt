-- ===== src/AgentGraph/Files.antt =====
-- Nodes are filed under their ids, and none is lost (`derive_agent_graph`,
-- apps/api/app/scenario/agent_graph.py).
use the_evil_repository.Prelude.{
  All, Bool-cases, Dict, String, [], arith, false, has_key, if_rule, inl, inr, lookup-put, put,
  refl, str_eq, true, ◌||◌, ◌∙◌, ◌∷◌, ◌≡◌,
}
use the_evil_repository.AgentGraph.Derive.{AgentNode, change, set_default}

-- A node is filed under its id.
abbrev pub IsFiled : String × AgentNode → Type 0
IsFiled (key, n) = n.id ≡ key

-- No key of the first dict is lost in the second.
abbrev pub Keeps : Dict AgentNode → Dict AgentNode → Type 0
Keeps before after = (key : String) → has_key key before ≡ true → has_key key after ≡ true

has_key-put :
    (key id : String) (n : AgentNode) (nodes : Dict AgentNode)
    → has_key key (put id n nodes) ≡ (str_eq id key || has_key key nodes)
has_key-put key id n nodes = rw lookup-put (ground arith)

pub set_default-Keeps :
    (id : String) (n : AgentNode) (nodes : Dict AgentNode) → Keeps nodes (set_default id n nodes)
unfolding set_default
set_default-Keeps id n nodes key h =
    if_rule (λ d. has_key key d ≡ true) (has_key id nodes) {x = nodes} {y = put id n nodes} (λ _. h)
      (λ _. rw has_key-put (ground (arith, h)))

pub has_key-change :
    (id : String) (f : AgentNode → AgentNode) (nodes : Dict AgentNode) (key : String)
    → has_key key (change id f nodes) ≡ has_key key nodes
has_key-change id f [] key = refl
has_key-change id f ((j, n) ∷ nodes) key = ground (arith, has_key-change id f nodes key)

put-IsFiled :
    (id : String) (n : AgentNode) (nodes : Dict AgentNode)
    → n.id ≡ id
    → has_key id nodes ≡ false
    → All IsFiled nodes
    → All IsFiled (put id n nodes)
put-IsFiled id n [] same absent h = (same, tt)
put-IsFiled id n ((j, m) ∷ nodes) same absent h = elim (Bool-cases (str_eq j id)) [
  | inl e ↦ absurd (ground (arith, e, absent))
  | inr e ↦ rw e (h.0, put-IsFiled id n nodes same (ground (arith, e, absent)) h.1)
]

pub set_default-IsFiled :
    (id : String) (n : AgentNode) (nodes : Dict AgentNode)
    → n.id ≡ id
    → All IsFiled nodes
    → All IsFiled (set_default id n nodes)
unfolding set_default
set_default-IsFiled id n nodes same h =
    if_rule (All IsFiled) (has_key id nodes) {x = nodes} {y = put id n nodes} (λ _. h)
      (λ absent. put-IsFiled id n nodes same absent h)

pub change-IsFiled :
    (id : String) (f : AgentNode → AgentNode) (nodes : Dict AgentNode)
    → ((n : AgentNode) → (f n).id ≡ n.id)
    → All IsFiled nodes
    → All IsFiled (change id f nodes)
change-IsFiled id f [] keeps h = tt
change-IsFiled id f ((j, n) ∷ nodes) keeps h =
    if_rule (All IsFiled) (str_eq j id) {x = (j, f n) ∷ nodes} {y = (j, n) ∷ change id f nodes}
      (λ _. (keeps n ∙ h.0, h.1)) (λ _. (h.0, change-IsFiled id f nodes keeps h.1))

-- ===== src/TruthGraph/Growth.antt =====
-- More evidence never turns an accepted resolution down (`evaluate_truth_graph`,
-- apps/api/app/scenario/truth_graph.py).
use the_evil_repository.Prelude.{
  All-map, Bool, Bool-cases, Dict, List, Some, Some-map, String, String-comparable, [], and-eq-true,
  ap, arith, contains, eq_iff, inl, inr, keep, refl, str_eq, sym, true, ◌&&◌, ◌∙◌, ◌∷◌, ◌≡◌, ◌≤◌,
}
use the_evil_repository.Protocol.{Number}
use the_evil_repository.Completion.{contains_iff}
use the_evil_repository.TruthGraph.Graph.{ResolutionPath, TruthGraph, TruthNode, node_ids}
use the_evil_repository.TruthGraph.Evaluate.{
  Reading, covers_enough, evaluate_truth_graph, known_observed, observed_ids, weight_of,
}
use the_evil_repository.TruthGraph.Paths.{IsMet, Offers, Passes, evaluate_truth_graph-IsMet}

-- Every name of the first list is in the second.
abbrev pub Within : List String → List String → Type 0
Within xs ys = (id : String) → contains id xs ≡ true → contains id ys ≡ true

contains-keep :
    (test : String → Bool) (id : String) (xs : List String)
    → contains id (keep test xs) ≡ (contains id xs && test id)
contains-keep test id [] = refl
contains-keep test id (x ∷ xs) = elim (Bool-cases (str_eq id x)) [
  | inl e ↦
      let same : test id ≡ test x = ap test ((eq_iff id x).0 e) in
      ground (arith, contains-keep test id xs, e, same)
  | inr e ↦ ground (arith, contains-keep test id xs, e)
]

known-Within :
    (g : TruthGraph) (threshold : Number) (before after : Dict Reading)
    → Within (observed_ids threshold before) (observed_ids threshold after)
    → Within (known_observed g threshold before) (known_observed g threshold after)
unfolding known_observed
known-Within g threshold before after h id k =
    let listed = λ (x : String). contains x (node_ids g) in
    let e = contains-keep listed id (observed_ids threshold before) in
    let both =
      (and-eq-true (contains id (observed_ids threshold before)) (listed id)).0 (sym e ∙ k) in
    contains-keep listed id (observed_ids threshold after)
    ∙ (and-eq-true (contains id (observed_ids threshold after)) (listed id)).1 (h id both.0, both.1)

module _ (before after : List String) (grows : Within before after) where
  known_grows : {id : String} → Some (λ x. id ≡ x) before → Some (λ x. id ≡ x) after
  known_grows {id} s = (contains_iff id after).0 (grows id ((contains_iff id before).1 s))

  weight_grows :
      (nodes : List TruthNode)
      → weight_of (λ (n : TruthNode). contains n.id before) nodes
        ≤ weight_of (λ (n : TruthNode). contains n.id after) nodes
  weight_grows [] = omega arith
  weight_grows (n ∷ rest) = elim (Bool-cases (contains n.id before)) [
    | inl e ↦ let later = grows n.id e in ground (arith, weight_grows rest, e, later)
    | inr e ↦ ground (arith, weight_grows rest, e)
  ]

  covers_grows : (g : TruthGraph) → covers_enough g before ≡ true → covers_enough g after ≡ true
  unfolding covers_enough
  covers_grows g h = let more = weight_grows g.nodes in ground (arith, h, more)

  IsMet-grows :
      (checks later : Dict Bool) (p : ResolutionPath)
      → ((name : String) → Passes checks name → Passes later name)
      → IsMet before checks p
      → IsMet after later p
  IsMet-grows checks later p holds m = record {
    nodes =
        All-map {P = λ id. Some (λ x. id ≡ x) before} {Q = λ id. Some (λ x. id ≡ x) after}
          (λ id s. known_grows {id = id} s) p.required_nodes m.nodes;
    groups =
        All-map {P = Offers before} {Q = Offers after}
          (λ group s. Some-map (λ id k. known_grows {id = id} k) s) p.any_of_nodes m.groups;
    passed = All-map {P = Passes checks} {Q = Passes later} holds p.required_checks m.passed;
  }

-- If every node observed before is observed after, and every check that passed still passes, then
-- a resolution that was accepted is accepted after.
pub evaluate_truth_graph_grows :
    (g : TruthGraph) (before after : Dict Reading) (checks later : Dict Bool) (threshold : Number)
    → Within (observed_ids threshold before) (observed_ids threshold after)
    → ((name : String) → Passes checks name → Passes later name)
    → (evaluate_truth_graph g before checks threshold).accepted ≡ true
    → (evaluate_truth_graph g after later threshold).accepted ≡ true
evaluate_truth_graph_grows g before after checks later threshold more holds accepted =
    let old = known_observed g threshold before in
    let new = known_observed g threshold after in
    let grows = known-Within g threshold before after more in
    let (met, covered) = (evaluate_truth_graph-IsMet g before checks threshold).0 accepted in
    (evaluate_truth_graph-IsMet g after later threshold).1 (
      Some-map (λ p m. IsMet-grows old new grows checks later p holds m) met,
      covers_grows old new grows g covered,
    )

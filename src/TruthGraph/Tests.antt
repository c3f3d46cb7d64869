-- ===== src/TruthGraph/Tests.antt =====
-- A small truth graph and the theorems at it (apps/api/app/scenario/truth_graph.py).
use the_evil_repository.Prelude.{
  Bool, Dict, Some, String, [], arith, false, none, refl, true, ℕ, ◌↔◌, ◌∷◌, ◌≡◌, ◌≤◌,
}
use the_evil_repository.Protocol.{Number, millionths}
use the_evil_repository.TruthGraph.Graph.{
  ResolutionPath, TruthGraph, TruthNode, validate_references,
}
use the_evil_repository.TruthGraph.Evaluate.{
  Reading, covers_enough, evaluate_truth_graph, flagged, known_observed, measured, path_result,
}
use the_evil_repository.TruthGraph.Paths.{IsMet, evaluate_truth_graph-IsMet, path_result-coverage}
use the_evil_repository.TruthGraph.Growth.{evaluate_truth_graph_grows}
use the_evil_repository.TruthGraph.Validity.{IsValid, validate_references-IsValid}

abbrev node : String → ℕ → TruthNode
node id weight = record { id = id; weight = weight }

abbrev small_graph : TruthGraph
small_graph = record {
  nodes = node "cause" 2000000 ∷ node "symptom" 1000000 ∷ node "fix" 1000000 ∷ [];
  edges = record { source = "cause"; target = "symptom" } ∷ [];
  acceptable_paths =
      record {
        id = "patch";
        required_nodes = "cause" ∷ [];
        any_of_nodes = ("symptom" ∷ "fix" ∷ []) ∷ [];
        required_checks = "hidden" ∷ [];
      }
      ∷ [];
  minimum_causal_coverage = 600000;
}

abbrev seen : Dict Reading
seen =
    ("cause", flagged true)
    ∷ ("fix", measured (millionths 700000))
    ∷ ("symptom", measured (millionths 400000))
    ∷ ("noise", flagged true)
    ∷ []

abbrev seen_more : Dict Reading
seen_more =
    ("cause", flagged true)
    ∷ ("fix", measured (millionths 700000))
    ∷ ("symptom", flagged true)
    ∷ ("noise", flagged true)
    ∷ []

abbrev checks : Dict Bool
checks = ("hidden", true) ∷ []

abbrev half : Number
half = millionths 500000

small_graph-accepted :
    let e = evaluate_truth_graph small_graph seen checks half in
    (e.accepted ≡ true) × (e.observed_nodes ≡ "cause" ∷ "fix" ∷ [])
unfolding evaluate_truth_graph known_observed covers_enough path_result
small_graph-accepted = (refl, refl)

small_graph-rejected : (evaluate_truth_graph small_graph seen [] half).accepted ≡ false
unfolding evaluate_truth_graph known_observed covers_enough path_result
small_graph-rejected = refl

validate_references-IsValid_example : (validate_references small_graph ≡ none) ↔ IsValid small_graph
validate_references-IsValid_example = validate_references-IsValid small_graph

evaluate_truth_graph-IsMet_example :
    let known = known_observed small_graph half seen in
    ((evaluate_truth_graph small_graph seen checks half).accepted ≡ true) ↔ (
      Some (IsMet known checks) small_graph.acceptable_paths
      × (covers_enough small_graph known ≡ true))
evaluate_truth_graph-IsMet_example = evaluate_truth_graph-IsMet small_graph seen checks half

path_result-coverage_example :
    let p : ResolutionPath = record {
      id = "patch";
      required_nodes = "cause" ∷ "cause" ∷ [];
      any_of_nodes = [];
      required_checks = [];
    } in
    let r = path_result [] [] p in
    (r.passed_components ≤ r.component_count)
    × ((r.passed_components ≡ r.component_count) ↔ IsMet [] [] p)
path_result-coverage_example = path_result-coverage [] [] _

evaluate_truth_graph_grows_example :
    (evaluate_truth_graph small_graph seen_more checks half).accepted ≡ true
unfolding evaluate_truth_graph known_observed covers_enough path_result
evaluate_truth_graph_grows_example =
    evaluate_truth_graph_grows small_graph seen seen_more checks checks half
      (λ id h. ground (arith, h)) (λ name h. h) refl

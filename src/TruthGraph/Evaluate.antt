-- ===== src/TruthGraph/Evaluate.antt =====
-- `evaluate_truth_graph` (apps/api/app/scenario/truth_graph.py). A coverage is kept as a fraction,
-- so that the comparison with the minimum is exact.
use the_evil_repository.Prelude.{
  Bool, Dict, List, String, String-comparable, [], any, contains, false, get_or_else, if◌then◌else◌,
  keep, leb, length, lookup, map, not, sorted, to_set, true, ℕ, ◌&&◌, ◌*◌, ◌+◌, ◌-◌, ◌==◌, ◌∷◌,
}
use the_evil_repository.Protocol.{Number, below, millionths}
use the_evil_repository.TruthGraph.Graph.{ResolutionPath, TruthGraph, TruthNode, is_none, node_ids}

-- `bool | float`
pub data Reading : Type 0 where
  flagged : Bool → Reading
  measured : Number → Reading

-- `a >= b`
abbrev pub at_least : Number → Number → Bool
at_least (millionths a) (millionths b) = leb b a
at_least (millionths a) (below b) = true
at_least (below a) (millionths b) = false
at_least (below a) (below b) = leb a b

abbrev pub is_observed : Number → Reading → Bool
is_observed threshold (flagged b) = b
is_observed threshold (measured x) = at_least x threshold

abbrev pub observed_ids : Number → Dict Reading → List String
observed_ids threshold [] = []
observed_ids threshold ((id, r) ∷ rest) =
    let later = observed_ids threshold rest in if is_observed threshold r then id ∷ later else later

-- `known_observed`
unfoldable pub known_observed : TruthGraph → Number → Dict Reading → List String
known_observed g threshold observations =
    keep (λ id. contains id (node_ids g)) (observed_ids threshold observations)

abbrev pub weight_of : (TruthNode → Bool) → List TruthNode → ℕ
weight_of test [] = 0
weight_of test (n ∷ rest) =
    let others = weight_of test rest in if test n then n.weight + others else others

abbrev pub total_weight : TruthGraph → ℕ
total_weight g = weight_of (λ n. true) g.nodes

abbrev pub observed_weight : TruthGraph → List String → ℕ
observed_weight g known = weight_of (λ (n : TruthNode). contains n.id known) g.nodes

-- `causal_coverage >= minimum_causal_coverage`; without weight the coverage is 0.
unfoldable pub covers_enough : TruthGraph → List String → Bool
covers_enough g known =
    if total_weight g == 0
    then g.minimum_causal_coverage == 0
    else leb (g.minimum_causal_coverage * total_weight g) (observed_weight g known * 1000000)

pub record ResolutionPathResult : Type 0 where
  pub path_id : String
  pub passed_components : ℕ
  pub component_count : ℕ
  pub satisfied : Bool
  pub missing_nodes : List String
  pub missing_alternative_groups : List (List String)
  pub failed_checks : List String

abbrev pub missing_nodes_of : List String → ResolutionPath → List String
missing_nodes_of known p = sorted (keep (λ id. not (contains id known)) (to_set p.required_nodes))

abbrev pub missing_groups_of : List String → ResolutionPath → List (List String)
missing_groups_of known p = keep (λ group. not (any (λ id. contains id known) group)) p.any_of_nodes

abbrev pub check_passed : Dict Bool → String → Bool
check_passed checks name = get_or_else false (lookup name checks)

abbrev pub failed_checks_of : Dict Bool → ResolutionPath → List String
failed_checks_of checks p = keep (λ name. not (check_passed checks name)) p.required_checks

unfoldable pub path_result : List String → Dict Bool → ResolutionPath → ResolutionPathResult
path_result known checks p =
    let nodes = missing_nodes_of known p in
    let groups = missing_groups_of known p in
    let failures = failed_checks_of checks p in
    record {
      path_id = p.id;
      passed_components =
          (length p.required_nodes - length nodes)
          + (length p.any_of_nodes - length groups)
          + (length p.required_checks - length failures);
      component_count = length p.required_nodes + length p.any_of_nodes + length p.required_checks;
      satisfied = length nodes == 0 && length groups == 0 && length failures == 0;
      missing_nodes = nodes;
      missing_alternative_groups = groups;
      failed_checks = failures;
    }

pub record TruthGraphEvaluation : Type 0 where
  pub accepted : Bool
  pub satisfied_paths : List String
  pub observed_nodes : List String
  pub paths : List ResolutionPathResult

abbrev pub is_satisfied : ResolutionPathResult → Bool
is_satisfied r = r.satisfied

-- `evaluate_truth_graph`
unfoldable pub evaluate_truth_graph :
    TruthGraph → Dict Reading → Dict Bool → Number → TruthGraphEvaluation
evaluate_truth_graph g observations checks threshold =
    let known = known_observed g threshold observations in
    let results = map (path_result known checks) g.acceptable_paths in
    let satisfied = map (λ (r : ResolutionPathResult). r.path_id) (keep is_satisfied results) in
    record {
      accepted = not (is_none satisfied) && covers_enough g known;
      satisfied_paths = satisfied;
      observed_nodes = sorted known;
      paths = results;
    }

-- ===== src/TruthGraph/Graph.antt =====
-- `TruthGraph` and its validator (apps/api/app/scenario/truth_graph.py). Weights and the minimum
-- coverage are whole numbers of millionths; kinds, labels and metadata are not read.
use the_evil_repository.Prelude.{
  Bool, List, Option, String, String-comparable, [], any, contains, false, if◌then◌else◌, join,
  keep, length, map, none, not, some, sorted, to_set, true, ℕ, ◌++◌, ◌<>◌, ◌==◌, ◌||◌, ◌∷◌,
}

pub record TruthNode : Type 0 where
  pub id : String
  pub weight : ℕ

pub record TruthEdge : Type 0 where
  pub source : String
  pub target : String

pub record ResolutionPath : Type 0 where
  pub id : String
  pub required_nodes : List String
  pub any_of_nodes : List (List String)
  pub required_checks : List String

pub record TruthGraph : Type 0 where
  pub nodes : List TruthNode
  pub edges : List TruthEdge
  pub acceptable_paths : List ResolutionPath
  pub minimum_causal_coverage : ℕ

abbrev pub node_ids : TruthGraph → List String
node_ids g = map (λ (n : TruthNode). n.id) g.nodes

abbrev pub path_ids : TruthGraph → List String
path_ids g = map (λ (p : ResolutionPath). p.id) g.acceptable_paths

-- `len(ids) != len(set(ids))`
abbrev pub repeats : List String → Bool
repeats ids = not (length ids == length (to_set ids))

abbrev pub flatten : List (List String) → List String
flatten [] = []
flatten (group ∷ groups) = group ++ flatten groups

-- `references - known`
abbrev pub unknown : List String → ResolutionPath → List String
unknown known p =
    keep (λ id. not (contains id known)) (to_set (p.required_nodes ++ flatten p.any_of_nodes))

abbrev pub is_none : List String → Bool
is_none [] = true
is_none (x ∷ xs) = false

abbrev pub has_empty : List (List String) → Bool
has_empty groups = any is_none groups

-- The error of the first edge with an unknown end.
abbrev pub edge_error : List String → List TruthEdge → Option String
edge_error known [] = none
edge_error known (e ∷ rest) =
    let later = edge_error known rest in
    if not (contains e.source known) || not (contains e.target known)
    then some ("Truth graph edge references unknown node: " <> e.source <> " -> " <> e.target)
    else later

-- The error of the first path with an unknown node or an empty group.
abbrev pub path_error : List String → List ResolutionPath → Option String
path_error known [] = none
path_error known (p ∷ rest) =
    let later = path_error known rest in
    if not (is_none (unknown known p))
    then some (
        "Resolution path "
        <> p.id
        <> " references unknown nodes: "
        <> join ", " (sorted (unknown known p)))
    else (if has_empty p.any_of_nodes
        then some ("Resolution path " <> p.id <> " contains an empty alternative group")
        else later)

abbrev pub no_paths : List ResolutionPath → Bool
no_paths [] = true
no_paths (p ∷ rest) = false

-- `validate_references`: the message of the ValueError, or `none`.
unfoldable pub validate_references : TruthGraph → Option String
validate_references g =
    if repeats (node_ids g)
    then some "Truth graph node IDs must be unique"
    else (if repeats (path_ids g)
        then some "Truth graph path IDs must be unique"
        else elim (edge_error (node_ids g) g.edges) [
          | some message ↦ some message
          | none ↦ elim (path_error (node_ids g) g.acceptable_paths) [
            | some message ↦ some message
            | none ↦
                if no_paths g.acceptable_paths
                then some "Truth graph requires at least one acceptable path"
                else none
          ]
        ])

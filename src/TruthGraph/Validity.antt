-- ===== src/TruthGraph/Validity.antt =====
-- What `validate_references` promises (apps/api/app/scenario/truth_graph.py).
use the_evil_repository.Prelude.{
  All, All-append, List, Some, String, String-comparable, [], arith, contains, false, length, none,
  refl, to_set, true, ◌++◌, ◌↔◌, ◌∷◌, ◌≡◌,
}
use the_evil_repository.Completion.{Covers, contains_iff}
use the_evil_repository.TruthGraph.Graph.{
  ResolutionPath, TruthEdge, TruthGraph, edge_error, flatten, has_empty, is_none, no_paths,
  node_ids, path_error, path_ids, repeats, unknown, validate_references,
}
use the_evil_repository.TruthGraph.Paths.{All-to_set, keep-not-All, length-to_set, to_set-All}

-- The edge joins known nodes.
abbrev pub IsAnchored : List String → TruthEdge → Type 0
IsAnchored known e = Some (λ x. e.source ≡ x) known × Some (λ x. e.target ≡ x) known

-- No element is repeated.
abbrev pub IsDistinct : List String → Type 0
IsDistinct [] = Unit
IsDistinct (x ∷ xs) = (contains x xs ≡ false) × IsDistinct xs

-- All nodes of the path are known, and none of its groups is empty.
abbrev pub IsResolvable : List String → ResolutionPath → Type 0
IsResolvable known p =
    Covers known p.required_nodes
    × All (λ group. (is_none group ≡ false) × Covers known group) p.any_of_nodes

pub record IsValid (g : TruthGraph) : Type 0 where
  pub nodes_distinct : IsDistinct (node_ids g)
  pub paths_distinct : IsDistinct (path_ids g)
  pub anchored : All (IsAnchored (node_ids g)) g.edges
  pub resolvable : All (IsResolvable (node_ids g)) g.acceptable_paths
  pub resolved : no_paths g.acceptable_paths ≡ false

repeats_iff : (xs : List String) → (repeats xs ≡ false) ↔ IsDistinct xs
repeats_iff [] = (λ _. tt, λ _. refl)
repeats_iff (x ∷ xs) =
    let ih = repeats_iff xs in
    let short = length-to_set xs in
    (
      λ h. (ground (arith, h, short), ih.0 (ground (arith, h, short))),
      λ (fresh, rest). let k = ih.1 rest in ground (arith, fresh, k, short),
    )

edge_error_iff :
    (known : List String) (edges : List TruthEdge)
    → (edge_error known edges ≡ none) ↔ All (IsAnchored known) edges
edge_error_iff known [] = (λ _. tt, λ _. refl)
edge_error_iff known (e ∷ rest) =
    let ih = edge_error_iff known rest in
    let source = contains_iff e.source known in
    let target = contains_iff e.target known in
    (
      λ h. ((source.0 (ground (arith, h)), target.0 (ground (arith, h))), ih.0 (ground (arith, h))),
      λ c.
          let s = source.1 c.0.0 in
          let t = target.1 c.0.1 in let k = ih.1 c.1 in ground (arith, s, t, k),
    )

All-split {ℓ κ} :
    {A : Type ℓ} (P : A → Type κ) (xs ys : List A) → All P (xs ++ ys) → All P xs × All P ys
All-split P [] ys h = (tt, h)
All-split P (x ∷ xs) ys h = let (left, right) = All-split P xs ys h.1 in ((h.0, left), right)

flatten-All :
    (P : String → Type 0) (groups : List (List String))
    → All P (flatten groups) ↔ All (λ group. All P group) groups
flatten-All P [] = (λ _. tt, λ _. tt)
flatten-All P (group ∷ groups) =
    let ih = flatten-All P groups in
    (
      λ h. let parts = All-split P group (flatten groups) h in (parts.0, ih.0 parts.1),
      λ h. All-append P group (flatten groups) h.0 (ih.1 h.1),
    )

unknown_iff :
    (known : List String) (p : ResolutionPath)
    → (is_none (unknown known p) ≡ true)
      ↔ (Covers known p.required_nodes × All (λ group. Covers known group) p.any_of_nodes)
unknown_iff known p =
    let Known = λ (name : String). Some (λ x. name ≡ x) known in
    let names = p.required_nodes ++ flatten p.any_of_nodes in
    let iff =
      keep-not-All {P = Known} (λ id. contains id known) (to_set names)
        (λ id. contains_iff id known) in
    let groups = flatten-All Known p.any_of_nodes in
    (
      λ h.
          let every = All-to_set Known names (iff.0 (none_length (unknown known p) h)) in
          let parts = All-split Known p.required_nodes (flatten p.any_of_nodes) every in
          (parts.0, groups.0 parts.1),
      λ c. length_none (unknown known p) (
          iff.1 (
            to_set-All Known names
              (All-append Known p.required_nodes (flatten p.any_of_nodes) c.0 (groups.1 c.1)))),
    )
  where
    none_length : (xs : List String) → is_none xs ≡ true → length xs ≡ 0
    none_length xs h = ground (arith, h)

    length_none : (xs : List String) → length xs ≡ 0 → is_none xs ≡ true
    length_none [] h = refl
    length_none (x ∷ xs) h = absurd (omega (arith, h))

nonempty_iff :
    (known : List String) (groups : List (List String))
    → ((has_empty groups ≡ false) × All (λ group. Covers known group) groups)
      ↔ All (λ group. (is_none group ≡ false) × Covers known group) groups
nonempty_iff known [] = (λ _. tt, λ _. (refl, tt))
nonempty_iff known (group ∷ groups) =
    let ih = nonempty_iff known groups in
    (
      λ h. ((ground (arith, h.0), h.1.0), ih.0 (ground (arith, h.0), h.1.1)),
      λ h. let rest = ih.1 h.1 in (ground (arith, h.0.0, rest.0), (h.0.1, rest.1)),
    )

path_error_iff :
    (known : List String) (paths : List ResolutionPath)
    → (path_error known paths ≡ none) ↔ All (IsResolvable known) paths
path_error_iff known [] = (λ _. tt, λ _. refl)
path_error_iff known (p ∷ rest) =
    let ih = path_error_iff known rest in
    let names = unknown_iff known p in
    let full = nonempty_iff known p.any_of_nodes in
    (
      λ h.
          let listed = names.0 (ground (arith, h)) in
          ((listed.0, full.0 (ground (arith, h), listed.1)), ih.0 (ground (arith, h))),
      λ c.
          let open_groups = full.1 c.0.1 in
          let a = names.1 (c.0.0, open_groups.1) in
          let b = open_groups.0 in let k = ih.1 c.1 in ground (arith, a, b, k),
    )

-- The validator raises no error exactly when the node ids are distinct, the path ids are
-- distinct, every edge joins nodes of the graph, every path names only nodes of the graph and has
-- no empty group of alternatives, and there is a path.
pub validate_references-IsValid : (g : TruthGraph) → (validate_references g ≡ none) ↔ IsValid g
unfolding validate_references
validate_references-IsValid g =
    let nodes = repeats_iff (node_ids g) in
    let ids = repeats_iff (path_ids g) in
    let edges = edge_error_iff (node_ids g) g.edges in
    let paths = path_error_iff (node_ids g) g.acceptable_paths in
    (
      λ h. record {
        nodes_distinct = nodes.0 (ground (arith, h));
        paths_distinct = ids.0 (ground (arith, h));
        anchored = edges.0 (ground (arith, h));
        resolvable = paths.0 (ground (arith, h));
        resolved = ground (arith, h);
      },
      λ v.
          let a = nodes.1 v.nodes_distinct in
          let b = ids.1 v.paths_distinct in
          let c = edges.1 v.anchored in
          let d = paths.1 v.resolvable in let e = v.resolved in ground (arith, a, b, c, d, e),
    )

-- ===== src/TruthGraph/Paths.antt =====
-- When a resolution is accepted (`evaluate_truth_graph`, apps/api/app/scenario/truth_graph.py).
use the_evil_repository.Prelude.{
  All, Bool, Bool-cases, Dict, List, Some, String, String-comparable, [], and-eq-true, any, arith,
  contains, contains-All, count-le-length, here, if_rule, inl, inr, insert_sorted, keep, length,
  length-keep, lookup, map, not, refl, some, sorted, subst, sym, there, to_set, true, ◌+◌, ◌↔◌, ◌∙◌,
  ◌∷◌, ◌≡◌, ◌≤◌,
}
use the_evil_repository.Completion.{Covers, contains_iff}
use the_evil_repository.TruthGraph.Graph.{ResolutionPath, TruthGraph, is_none}
use the_evil_repository.TruthGraph.Evaluate.{
  Reading, ResolutionPathResult, check_passed, covers_enough, evaluate_truth_graph, is_satisfied,
  known_observed, missing_nodes_of, path_result,
}
use the_evil_repository.Protocol.{Number}

-- A node of the group is known.
abbrev pub Offers : List String → List String → Type 0
Offers known group = Some (λ id. Some (λ x. id ≡ x) known) group

abbrev pub Passes : Dict Bool → String → Type 0
Passes checks name = lookup name checks ≡ some true

-- All required nodes are known, each group offers one, and all required checks passed.
pub record IsMet (known : List String) (checks : Dict Bool) (p : ResolutionPath) : Type 0 where
  pub nodes : Covers known p.required_nodes
  pub groups : All (Offers known) p.any_of_nodes
  pub passed : All (Passes checks) p.required_checks

-- Nothing fails the test exactly when everything passes it.
pub keep-not-All {ℓ κ} :
    {A : Type ℓ} {P : A → Type κ} (test : A → Bool) (xs : List A)
    → ((x : A) → (test x ≡ true) ↔ P x)
    → (length (keep (λ x. not (test x)) xs) ≡ 0) ↔ All P xs
keep-not-All test [] iff = (λ _. tt, λ _. refl)
keep-not-All {P = P} test (x ∷ xs) iff = elim (Bool-cases (test x)) [
  | inl e ↦
      let ih = keep-not-All {P = P} test xs iff in
      rw e (λ h. ((iff x).0 e, ih.0 h), λ every. ih.1 every.1)
  | inr e ↦ rw e (
    λ h. absurd (omega (arith, h)),
    λ every. let hit = (iff x).1 every.0 in absurd (ground (arith, hit, e)),
  )
]

module _ {κ} (P : String → Type κ) where
  pub All-to_set : (xs : List String) → All P (to_set xs) → All P xs
  All-to_set [] h = tt
  All-to_set (x ∷ xs) h = elim (Bool-cases (contains x xs)) [
    | inl e ↦
        let every = All-to_set xs (subst (All P) (rw e refl) h) in
        (contains-All P x xs e every, every)
    | inr e ↦
        let both = subst (All P) {y = x ∷ to_set xs} (rw e refl) h in (both.0, All-to_set xs both.1)
  ]

  pub to_set-All : (xs : List String) → All P xs → All P (to_set xs)
  to_set-All [] h = tt
  to_set-All (x ∷ xs) h =
      if_rule (All P) (contains x xs) {x = to_set xs} {y = x ∷ to_set xs} (λ _. to_set-All xs h.1)
        (λ _. (h.0, to_set-All xs h.1))

length-insert_sorted : (x : String) (xs : List String) → length (insert_sorted x xs) ≡ length xs + 1
length-insert_sorted x [] = omega arith
length-insert_sorted x (y ∷ ys) = ground (arith, length-insert_sorted x ys)

pub length-sorted : (xs : List String) → length (sorted xs) ≡ length xs
length-sorted [] = refl
length-sorted (x ∷ xs) = omega (arith, length-insert_sorted x (sorted xs), length-sorted xs)

nodes_iff :
    (known : List String) (p : ResolutionPath)
    → (length (missing_nodes_of known p) ≡ 0) ↔ Covers known p.required_nodes
nodes_iff known p =
    let unmet = keep (λ id. not (contains id known)) (to_set p.required_nodes) in
    let iff =
      keep-not-All {P = λ name. Some (λ x. name ≡ x) known} (λ id. contains id known)
        (to_set p.required_nodes) (λ id. contains_iff id known) in
    (
      λ h. All-to_set _ p.required_nodes (iff.0 (sym (length-sorted unmet) ∙ h)),
      λ c. length-sorted unmet ∙ iff.1 (to_set-All _ p.required_nodes c),
    )

any-Offers :
    (known group : List String) → (any (λ id. contains id known) group ≡ true) ↔ Offers known group
any-Offers known group = (to group, from group)
  where
    to : (group : List String) → any (λ id. contains id known) group ≡ true → Offers known group
    to [] h = absurd (cc)
    to (x ∷ xs) h = elim (Bool-cases (contains x known)) [
      | inl e ↦ here ((contains_iff x known).0 e)
      | inr e ↦ there (to xs (ground (arith, h, e)))
    ]

    from : (group : List String) → Offers known group → any (λ id. contains id known) group ≡ true
    from [] s = elim s [ ]
    from (x ∷ xs) (here e) = let hit = (contains_iff x known).1 e in ground (arith, hit)
    from (x ∷ xs) (there s) = ground (arith, from xs s)

check_passed-Passes :
    (checks : Dict Bool) (name : String) → (check_passed checks name ≡ true) ↔ Passes checks name
check_passed-Passes checks name = ground arith

satisfied_iff :
    (known : List String) (checks : Dict Bool) (p : ResolutionPath)
    → ((path_result known checks p).satisfied ≡ true) ↔ IsMet known checks p
unfolding path_result
satisfied_iff known checks p =
    let nodes = nodes_iff known p in
    let groups =
      keep-not-All {P = Offers known} (λ group. any (λ id. contains id known) group) p.any_of_nodes
        (any-Offers known) in
    let passed =
      keep-not-All {P = Passes checks} (check_passed checks) p.required_checks
        (check_passed-Passes checks) in
    (
      λ h. record {
        nodes = nodes.0 (ground (arith, h));
        groups = groups.0 (ground (arith, h));
        passed = passed.0 (ground (arith, h));
      },
      λ m.
          let a = nodes.1 m.nodes in
          let b = groups.1 m.groups in let c = passed.1 m.passed in ground (arith, a, b, c),
    )

satisfied-Some :
    (known : List String) (checks : Dict Bool) (paths : List ResolutionPath)
    → (not (
          is_none (
            map
              (λ (r : ResolutionPathResult). r.path_id)
              (keep is_satisfied (map (path_result known checks) paths))))
        ≡ true)
      ↔ Some (IsMet known checks) paths
satisfied-Some known checks paths = (to paths, from paths)
  where
    ids : List ResolutionPath → List String
    ids ps =
        map (λ (r : ResolutionPathResult). r.path_id)
          (keep is_satisfied (map (path_result known checks) ps))

    to : (ps : List ResolutionPath) → not (is_none (ids ps)) ≡ true → Some (IsMet known checks) ps
    to [] h = absurd (cc)
    to (p ∷ rest) h = elim (Bool-cases (path_result known checks p).satisfied) [
      | inl e ↦ here ((satisfied_iff known checks p).0 e)
      | inr e ↦ there (to rest (rw e at h))
    ]

    from : (ps : List ResolutionPath) → Some (IsMet known checks) ps → not (is_none (ids ps)) ≡ true
    from [] s = elim s [ ]
    from (p ∷ rest) (here m) = rw ((satisfied_iff known checks p).1 m) refl
    from (p ∷ rest) (there s) =
        if_rule
          (λ (rs : List ResolutionPathResult).
            not (is_none (map (λ (r : ResolutionPathResult). r.path_id) rs)) ≡ true)
          (path_result known checks p).satisfied (λ _. refl) (λ _. from rest s)

-- A resolution is accepted exactly when the weight of the observed nodes covers the minimum and
-- some path has all its required nodes known, a known node in each of its groups, and all its
-- required checks passed.
pub evaluate_truth_graph-IsMet :
    (g : TruthGraph) (observations : Dict Reading) (checks : Dict Bool) (threshold : Number)
    → let known = known_observed g threshold observations in
      ((evaluate_truth_graph g observations checks threshold).accepted ≡ true)
      ↔ (Some (IsMet known checks) g.acceptable_paths × (covers_enough g known ≡ true))
unfolding evaluate_truth_graph
evaluate_truth_graph-IsMet g observations checks threshold =
    let known = known_observed g threshold observations in
    let iff = satisfied-Some known checks g.acceptable_paths in
    let both = and-eq-true _ (covers_enough g known) in
    (λ h. let parts = both.0 h in (iff.0 parts.0, parts.1), λ c. both.1 (iff.1 c.0, c.1))

pub length-to_set : (xs : List String) → length (to_set xs) ≤ length xs
length-to_set [] = omega arith
length-to_set (x ∷ xs) = ground (arith, length-to_set xs)

keep-le-length {ℓ} :
    {A : Type ℓ} (test : A → Bool) (xs : List A) → length (keep test xs) ≤ length xs
keep-le-length test xs = rw length-keep (count-le-length test xs)

missing_nodes-le :
    (known : List String) (p : ResolutionPath)
    → length (missing_nodes_of known p) ≤ length p.required_nodes
missing_nodes-le known p =
    let unmet = keep (λ id. not (contains id known)) (to_set p.required_nodes) in
    omega (
      arith,
      length-sorted unmet,
      keep-le-length (λ id. not (contains id known)) (to_set p.required_nodes),
      length-to_set p.required_nodes,
    )

-- A path's coverage is at most whole, and whole exactly when the path is met.
pub path_result-coverage :
    (known : List String) (checks : Dict Bool) (p : ResolutionPath)
    → let r = path_result known checks p in
      (r.passed_components ≤ r.component_count)
      × ((r.passed_components ≡ r.component_count) ↔ IsMet known checks p)
unfolding path_result
path_result-coverage known checks p =
    let iff = satisfied_iff known checks p in
    let a = missing_nodes-le known p in
    let b = keep-le-length (λ group. not (any (λ id. contains id known) group)) p.any_of_nodes in
    let c = keep-le-length (λ name. not (check_passed checks name)) p.required_checks in
    (
      omega (arith, a, b, c),
      (λ h. iff.0 (ground (arith, h, a, b, c)), λ m. let s = iff.1 m in ground (arith, s, a, b, c)),
    )

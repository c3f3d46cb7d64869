-- ===== src/Completion.antt =====
-- The gaps that both directors report, and when there are none (`completion_gaps` of
-- apps/api/app/scenario/incident.py and apps/api/app/scenario/release.py).
use the_evil_repository.Prelude.{
  All, Bool, Bool-cases, List, Some, String, String-comparable, [], arith, contains, decimal,
  eq_iff, false, here, if◌then◌else◌, inl, inr, ltb, not, refl, str_eq, there, true, ℕ, ◌++◌, ◌<>◌,
  ◌↔◌, ◌∷◌, ◌≡◌, ◌≤◌,
}

abbrev pub gap_if : Bool → String → List String
gap_if missing name = if missing then name ∷ [] else []

-- One gap for each required name that is not among those present.
abbrev pub missing : String → List String → List String → List String
missing label present [] = []
missing label present (name ∷ rest) =
    gap_if (not (contains name present)) (label <> name) ++ missing label present rest

abbrev pub progress : String → ℕ → ℕ → List String
progress label have need = gap_if (ltb have need) (label <> decimal have <> "/" <> decimal need)

abbrev pub is_nonempty : List String → Bool
is_nonempty [] = false
is_nonempty (x ∷ xs) = true

abbrev pub is_nil : List String → Bool
is_nil [] = true
is_nil (x ∷ xs) = false

-- Every name of the second list is in the first.
abbrev pub Covers : List String → List String → Type 0
Covers present names = All (λ name. Some (λ x. name ≡ x) present) names

pub append-eq-nil : (xs ys : List String) → ((xs ++ ys) ≡ []) ↔ ((xs ≡ []) × (ys ≡ []))
append-eq-nil [] ys = (λ h. (refl, h), λ h. h.1)
append-eq-nil (x ∷ xs) ys = (λ h. absurd (ground arith), λ h. absurd (ground arith))

pub gap_if-eq-nil : (b : Bool) (name : String) → (gap_if b name ≡ []) ↔ (b ≡ false)
gap_if-eq-nil b name = ground arith

pub progress-eq-nil :
    (label : String) (have need : ℕ) → (progress label have need ≡ []) ↔ (need ≤ have)
progress-eq-nil label have need = ground arith

pub contains_iff :
    (name : String) (xs : List String) → (contains name xs ≡ true) ↔ Some (λ x. name ≡ x) xs
contains_iff name xs = (to name xs, from name)
  where
    to : (name : String) (xs : List String) → contains name xs ≡ true → Some (λ x. name ≡ x) xs
    to name [] h = absurd (cc)
    to name (x ∷ xs) h = elim (Bool-cases (str_eq name x)) [
      | inl e ↦ here ((eq_iff name x).0 e)
      | inr e ↦ there (to name xs (ground arith))
    ]

    from : (name : String) {xs : List String} → Some (λ x. name ≡ x) xs → contains name xs ≡ true
    from name (here {x = x} e) = ground (arith, eq_iff name x)
    from name (there m) = ground (arith, from name m)

pub missing-eq-nil :
    (label : String) (present names : List String)
    → (missing label present names ≡ []) ↔ Covers present names
missing-eq-nil label present [] = (λ _. tt, λ _. refl)
missing-eq-nil label present (name ∷ rest) =
    let gap = gap_if (not (contains name present)) (label <> name) in
    let split = append-eq-nil gap (missing label present rest) in
    let one = gap_if-eq-nil (not (contains name present)) (label <> name) in
    let ih = missing-eq-nil label present rest in
    (
      λ h. (
        (contains_iff name present).0 (let e = one.0 (split.0 h).0 in ground arith),
        ih.0 (split.0 h).1,
      ),
      λ c. split.1 (one.1 (rw ((contains_iff name present).1 c.0)), ih.1 c.1),
    )

infixr 20 ◌and◌
pub ◌and◌ :
    {P Q : Type 0} {xs ys : List String}
    → ((xs ≡ []) ↔ P)
    → ((ys ≡ []) ↔ Q)
    → ((xs ++ ys) ≡ []) ↔ (P × Q)
◌and◌ {xs = xs} {ys = ys} p q =
    let split = append-eq-nil xs ys in
    (λ h. (p.0 (split.0 h).0, q.0 (split.0 h).1), λ (a, b). split.1 (p.1 a, q.1 b))

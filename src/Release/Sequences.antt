-- ===== src/Release/Sequences.antt =====
-- `_contains_ordered_subsequence` (apps/api/app/scenario/release.py) finds an ordered embedding.
use the_evil_repository.Prelude.{
  All, All-map, Bool, Bool-cases, Follows, Follows→greedy, List, String, String-comparable, [],
  arith, contains, eq_iff, false, greedy, greedy→Follows, inl, inr, keep, refl, str_eq, subst, sym,
  true, ◌↔◌, ◌∙◌, ◌∷◌, ◌≡◌,
}
use the_evil_repository.Completion.{is_nil}
use the_evil_repository.Release.Audit.{contains_ordered_subsequence, matched_rest}

-- The value is the expected one.
abbrev pub fits : String → String → Bool
fits expected value = str_eq value expected

matched_rest-nil : (values : List String) → matched_rest values [] ≡ []
matched_rest-nil [] = refl
matched_rest-nil (v ∷ values) = matched_rest-nil values

matched_rest-greedy :
    (values expected : List String)
    → is_nil (matched_rest values expected) ≡ greedy fits expected values
matched_rest-greedy values [] = rw (matched_rest-nil values) refl
matched_rest-greedy [] (e ∷ expected) = refl
matched_rest-greedy (v ∷ values) (e ∷ expected) = elim (Bool-cases (str_eq v e)) [
  | inl h ↦ rw h (matched_rest-greedy values expected)
  | inr h ↦ rw h (matched_rest-greedy values (e ∷ expected))
]

-- The search succeeds exactly when the expected values occur in this order, others in between.
contains_ordered_subsequence-Follows :
    (values expected : List String)
    → (contains_ordered_subsequence values expected ≡ true) ↔ Follows fits expected values
unfolding contains_ordered_subsequence
contains_ordered_subsequence-Follows values expected =
    let e = matched_rest-greedy values expected in
    (
      λ h. greedy→Follows fits expected values (sym e ∙ h),
      λ f. e ∙ Follows→greedy fits expected values f,
    )

contains_self : (xs : List String) → All (λ x. contains x xs ≡ true) xs
contains_self [] = tt
contains_self (x ∷ xs) =
    (ground (arith, eq_iff x x), All-map (λ y h. ground (arith, h)) xs (contains_self xs))

distinct :
    (names : List String) (v e : String)
    → contains v names ≡ false
    → contains e names ≡ true
    → str_eq v e ≡ false
distinct names v e other listed = elim (Bool-cases (str_eq v e)) [
  | inl same ↦
      let named = subst (λ x. contains x names ≡ true) (sym ((eq_iff v e).0 same)) listed in
      absurd (ground (arith, named, other))
  | inr h ↦ h
]

-- Dropping values outside `names` loses no embedding of `expected`, which is within it.
greedy-keep :
    (names expected values : List String)
    → All (λ x. contains x names ≡ true) expected
    → greedy fits expected (keep (λ v. contains v names) values) ≡ greedy fits expected values
greedy-keep names [] values h = refl
greedy-keep names (e ∷ expected) [] h = refl
greedy-keep names (e ∷ expected) (v ∷ values) h = elim (Bool-cases (contains v names)) [
  | inl listed ↦
      rw (listed, greedy-keep names expected values h.1, greedy-keep names (e ∷ expected) values h)
        refl
  | inr other ↦
      let differ : str_eq v e ≡ false = distinct names v e other h.0 in
      rw (other, differ, greedy-keep names (e ∷ expected) values h) refl
]

-- The search of `completion_gaps`, among the values that the sequence names.
pub named_subsequence-Follows :
    (values expected : List String)
    → (contains_ordered_subsequence (keep (λ v. contains v expected) values) expected ≡ true)
      ↔ Follows fits expected values
named_subsequence-Follows values expected =
    let found =
      contains_ordered_subsequence-Follows (keep (λ v. contains v expected) values) expected in
    let same = greedy-keep expected expected values (contains_self expected) in
    (
      λ h.
          greedy→Follows fits expected values
            (sym same ∙ Follows→greedy fits expected _ (found.0 h)),
      λ f. found.1 (greedy→Follows fits expected _ (same ∙ Follows→greedy fits expected values f)),
    )

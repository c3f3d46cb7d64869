-- ===== src/Prelude/Lists.antt =====
-- Lists measured by native numbers, under the library's names, with Boolean searches.
use Prim.Native.Nat.{ℕ, suc, ◌+◌, ◌≤◌}
use mathlib.Core.Path.{◌≡◌, refl, sym, subst, ◌∙◌}
use mathlib.Core.Logic.{inl, inr}
use mathlib.Core.Bool.{Bool, true, false, ◌&&◌, ◌||◌}
use mathlib.Core.Option.{Option, none, some}
use mathlib.Core.List.{List, [], ◌∷◌, ◌++◌}
use native.Mathlib.Omega.{arith}
use the_evil_repository.Prelude.Tests.{Bool-cases, Option-cases, if◌then◌else◌}

module _ {ℓ} {A : Type ℓ} where
  abbrev pub length : List A → ℕ
  length [] = 0
  length (x ∷ xs) = suc (length xs)

  -- `any(test(x) for x in xs)`
  abbrev pub any : (A → Bool) → List A → Bool
  any test [] = false
  any test (x ∷ xs) = test x || any test xs

  -- `all(test(x) for x in xs)`
  abbrev pub all : (A → Bool) → List A → Bool
  all test [] = true
  all test (x ∷ xs) = test x && all test xs

  -- `[x for x in xs if test(x)]`
  abbrev pub keep : (A → Bool) → List A → List A
  keep test [] = []
  keep test (x ∷ xs) = let rest = keep test xs in if test x then x ∷ rest else rest

  -- `sum(1 for x in xs if test(x))`
  abbrev pub count : (A → Bool) → List A → ℕ
  count test [] = 0
  count test (x ∷ xs) = let rest = count test xs in if test x then suc rest else rest

  -- `next((x for x in xs if test(x)), None)`
  abbrev pub find : (A → Bool) → List A → Option A
  find test [] = none
  find test (x ∷ xs) = let rest = find test xs in if test x then some x else rest

  abbrev pub last_or : A → List A → A
  last_or d [] = d
  last_or d (x ∷ xs) = last_or x xs

  abbrev pub find_last : (A → Bool) → List A → Option A
  find_last test [] = none
  find_last test (x ∷ xs) = elim (find_last test xs) [
    | some y ↦ some y
    | none ↦ if test x then some x else none
  ]

  -- Every element satisfies the predicate.
  abbrev pub All {κ} : (A → Type κ) → List A → Type κ
  All P [] = Unit
  All P (x ∷ xs) = P x × All P xs

  -- Some element satisfies it, and which.
  pub data Some {κ} (P : A → Type κ) : List A → Type (ℓ ⊔ κ) where
    here : {x : A} {xs : List A} → P x → Some P (x ∷ xs)
    there : {x : A} {xs : List A} → Some P xs → Some P (x ∷ xs)

module _ {ℓ} {A : Type ℓ} where
  pub length-append : (xs ys : List A) → length (xs ++ ys) ≡ length xs + length ys
  length-append [] ys = omega arith
  length-append (x ∷ xs) ys = omega (arith, length-append xs ys)

  pub count-append :
      (test : A → Bool) (xs ys : List A) → count test (xs ++ ys) ≡ count test xs + count test ys
  count-append test [] ys = omega arith
  count-append test (x ∷ xs) ys = ground (arith, count-append test xs ys)

  pub count-le-length : (test : A → Bool) (xs : List A) → count test xs ≤ length xs
  count-le-length test [] = omega arith
  count-le-length test (x ∷ xs) = ground (arith, count-le-length test xs)

  pub length-keep : (test : A → Bool) (xs : List A) → length (keep test xs) ≡ count test xs
  length-keep test [] = refl
  length-keep test (x ∷ xs) = ground (arith, length-keep test xs)

  pub keep-append_one :
      (test : A → Bool) (xs : List A) (y : A)
      → keep test (xs ++ y ∷ []) ≡ (if test y then keep test xs ++ y ∷ [] else keep test xs)
  keep-append_one test [] y = refl
  keep-append_one test (x ∷ xs) y = ground (arith, keep-append_one test xs y)

  pub any-append :
      (test : A → Bool) (xs ys : List A) → any test (xs ++ ys) ≡ (any test xs || any test ys)
  any-append test [] ys = refl
  any-append test (x ∷ xs) ys = ground (arith, any-append test xs ys)

  pub any→Some : (test : A → Bool) (xs : List A) → any test xs ≡ true → Some (λ x. test x ≡ true) xs
  any→Some test [] h = absurd (cc)
  any→Some test (x ∷ xs) h = elim (Bool-cases (test x)) [
    | inl e ↦ here e
    | inr e ↦ there (any→Some test xs (ground arith))
  ]

  pub Some→any : (test : A → Bool) {xs : List A} → Some (λ x. test x ≡ true) xs → any test xs ≡ true
  Some→any test (here h) = ground arith
  Some→any test (there m) = ground (arith, Some→any test m)

  pub all→All : (test : A → Bool) (xs : List A) → all test xs ≡ true → All (λ x. test x ≡ true) xs
  all→All test [] h = tt
  all→All test (x ∷ xs) h = (ground arith, all→All test xs (ground arith))

  pub All→all : (test : A → Bool) (xs : List A) → All (λ x. test x ≡ true) xs → all test xs ≡ true
  All→all test [] h = refl
  All→all test (x ∷ xs) h = ground (arith, All→all test xs h.1)

  pub All-append {κ} : (P : A → Type κ) (xs ys : List A) → All P xs → All P ys → All P (xs ++ ys)
  All-append P [] ys hx hy = hy
  All-append P (x ∷ xs) ys hx hy = (hx.0, All-append P xs ys hx.1 hy)

  pub All-map {κ μ} :
      {P : A → Type κ} {Q : A → Type μ} (f : (x : A) → P x → Q x) (xs : List A)
      → All P xs
      → All Q xs
  All-map f [] h = tt
  All-map f (x ∷ xs) h = (f x h.0, All-map f xs h.1)

  pub Some-append_left {κ} :
      {P : A → Type κ} {xs : List A} (ys : List A) → Some P xs → Some P (xs ++ ys)
  Some-append_left ys (here h) = here h
  Some-append_left ys (there m) = there (Some-append_left ys m)

  pub Some-append_right {κ} :
      {P : A → Type κ} (xs : List A) {ys : List A} → Some P ys → Some P (xs ++ ys)
  Some-append_right [] m = m
  Some-append_right (x ∷ xs) m = there (Some-append_right xs m)

  -- What holds of every element holds of the one that is found.
  pub Some-and_All {κ μ} :
      {P : A → Type κ} {Q : A → Type μ} {xs : List A}
      → Some P xs
      → All Q xs
      → Some (λ x. P x × Q x) xs
  Some-and_All (here h) (q, rest) = here (h, q)
  Some-and_All (there m) (q, rest) = there (Some-and_All m rest)

  pub Some-map {κ μ} :
      {P : A → Type κ} {Q : A → Type μ} {xs : List A} (f : (x : A) → P x → Q x)
      → Some P xs
      → Some Q xs
  Some-map f (here {x = x} h) = here (f x h)
  Some-map f (there m) = there (Some-map f m)

module _ {ℓ κ} {A : Type ℓ} where
  -- What is found passes the test, and stands in the list.
  pub find_last-Some :
      (P : A → Type κ) (test : A → Bool) (xs : List A) {y : A}
      → find_last test xs ≡ some y
      → (test y ≡ true → P y)
      → Some P xs
  find_last-Some P test [] e h = absurd (cc)
  find_last-Some P test (x ∷ xs) {y} e h = elim (Option-cases (find_last test xs)) [
    | inl missed ↦
        let found : (if test x then some x else none) ≡ some y = rw missed at e in
        elim (Bool-cases (test x)) [
          | inl hit ↦
              let same : x ≡ y = ground arith in
              here (subst P (sym same) (h (subst (λ z. test z ≡ true) same hit)))
          | inr miss ↦ absurd (ground arith)
        ]
    | inr (u, later) ↦
        let same : some u ≡ some y = rw later at e in
        there (find_last-Some P test xs {y = y} (later ∙ same) h)
  ]

-- To prove something of a match on a list, prove it of each case.
pub list_rule {ℓ κ μ} :
    {A : Type ℓ} {B : Type κ} (P : B → Type μ) (xs : List A) {n : B} {c : A → List A → B}
    → (xs ≡ [] → P n)
    → ((x : A) (rest : List A) → xs ≡ x ∷ rest → P (c x rest))
    → P (elim xs [ [] ↦ n | x ∷ rest ↦ c x rest ])
list_rule P [] hn hc = hn refl
list_rule P (x ∷ rest) hn hc = hc x rest refl

module _ {ℓ} {A : Type ℓ} where
  -- The second list goes on after the first.
  pub data IsPrefix : List A → List A → Type ℓ where
    prefix_nil : {ys : List A} → IsPrefix [] ys
    prefix_cons : {x : A} {xs ys : List A} → IsPrefix xs ys → IsPrefix (x ∷ xs) (x ∷ ys)

  pub IsPrefix-refl : (xs : List A) → IsPrefix xs xs
  IsPrefix-refl [] = prefix_nil
  IsPrefix-refl (x ∷ xs) = prefix_cons (IsPrefix-refl xs)

  pub IsPrefix-append : (xs ys : List A) → IsPrefix xs (xs ++ ys)
  IsPrefix-append [] ys = prefix_nil
  IsPrefix-append (x ∷ xs) ys = prefix_cons (IsPrefix-append xs ys)

  pub IsPrefix-trans : {xs ys zs : List A} → IsPrefix xs ys → IsPrefix ys zs → IsPrefix xs zs
  IsPrefix-trans prefix_nil h = prefix_nil
  IsPrefix-trans (prefix_cons g) (prefix_cons h) = prefix_cons (IsPrefix-trans g h)

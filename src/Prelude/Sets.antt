-- ===== src/Prelude/Sets.antt =====
-- Python sets, held as lists without repetition: membership, union, and `sorted(set(...))`.
use Prim.Native.String.{String}
use mathlib.Core.Path.{◌≡◌, refl, sym, subst}
use mathlib.Core.Logic.{◌↔◌, inl, inr}
use mathlib.Core.Bool.{Bool, true, false, ◌||◌}
use mathlib.Core.List.{List, [], ◌∷◌, ◌++◌}
use native.Mathlib.Omega.{arith}
use text.Mathlib.TextEquality.{eq_iff}
use the_evil_repository.Prelude.Tests.{Bool-cases, if◌then◌else◌}
use the_evil_repository.Prelude.Text.{str_eq, str_le}
use the_evil_repository.Prelude.Lists.{All}

-- A type whose values `==` compares.
pub record Comparable {ℓ} (A : Type ℓ) : Type ℓ where
  pub same : A → A → Bool
  pub same_iff : (a b : A) → (same a b ≡ true) ↔ (a ≡ b)

instance abbrev pub String-comparable : Comparable String
String-comparable = record { same = str_eq; same_iff = eq_iff }

module _ {ℓ} {A : Type ℓ} ⦃c : Comparable A⦄ where
  -- `a in xs`
  abbrev pub contains : A → List A → Bool
  contains a [] = false
  contains a (x ∷ xs) = c.same a x || contains a xs

  -- `xs.add(a)`
  abbrev pub add : A → List A → List A
  add a xs = if contains a xs then xs else xs ++ a ∷ []

  -- `set(xs)`
  abbrev pub to_set : List A → List A
  to_set [] = []
  to_set (x ∷ xs) = let rest = to_set xs in if contains x xs then rest else x ∷ rest

abbrev pub insert_sorted : String → List String → List String
insert_sorted a [] = a ∷ []
insert_sorted a (x ∷ xs) = if str_le a x then a ∷ x ∷ xs else x ∷ insert_sorted a xs

-- `sorted(xs)`
abbrev pub sorted : List String → List String
sorted [] = []
sorted (x ∷ xs) = insert_sorted x (sorted xs)

module _ {ℓ κ} {A : Type ℓ} ⦃c : Comparable A⦄ where
  -- What holds of every member holds of one.
  pub contains-All : (P : A → Type κ) (a : A) (xs : List A) → contains a xs ≡ true → All P xs → P a
  contains-All P a [] h every = absurd (cc)
  contains-All P a (x ∷ xs) h every = elim (Bool-cases (c.same a x)) [
    | inl e ↦ subst P (sym ((c.same_iff a x).0 e)) every.0
    | inr e ↦ contains-All P a xs (rw e at h) every.1
  ]

module _ {ℓ} {A : Type ℓ} ⦃c : Comparable A⦄ where
  pub contains-append :
      (a : A) (xs ys : List A) → contains a (xs ++ ys) ≡ (contains a xs || contains a ys)
  contains-append a [] ys = refl
  contains-append a (x ∷ xs) ys = ground (arith, contains-append a xs ys)

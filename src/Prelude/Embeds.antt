-- ===== src/Prelude/Embeds.antt =====
-- Ordered embeddings: a sequence of demands met, in order, by elements of a list.
use mathlib.Core.Path.{◌≡◌, refl}
use mathlib.Core.Logic.{inl, inr}
use mathlib.Core.Bool.{Bool, true, false}
use mathlib.Core.List.{List, [], ◌∷◌}
use native.Mathlib.Omega.{arith}
use the_evil_repository.Prelude.Tests.{Bool-cases, if◌then◌else◌}

module _ {ℓ κ} {M : Type ℓ} {A : Type κ} (meets : M → A → Bool) where
  -- The demands are met by elements that stand in the same order in the list.
  pub data Follows : List M → List A → Type (ℓ ⊔ κ) where
    done : {xs : List A} → Follows [] xs
    skip : {ms : List M} {x : A} {xs : List A} → Follows ms xs → Follows ms (x ∷ xs)
    meet :
        {m : M} {ms : List M} {x : A} {xs : List A}
        → meets m x ≡ true
        → Follows ms xs
        → Follows (m ∷ ms) (x ∷ xs)

  -- Meeting each demand by the first element that fits.
  abbrev pub greedy : List M → List A → Bool
  greedy [] xs = true
  greedy (m ∷ ms) [] = false
  greedy (m ∷ ms) (x ∷ xs) =
      let met = greedy ms xs in let passed = greedy (m ∷ ms) xs in if meets m x then met else passed

  pub greedy→Follows : (ms : List M) (xs : List A) → greedy ms xs ≡ true → Follows ms xs
  greedy→Follows [] xs h = done
  greedy→Follows (m ∷ ms) [] h = absurd (cc)
  greedy→Follows (m ∷ ms) (x ∷ xs) h = elim (Bool-cases (meets m x)) [
    | inl e ↦ meet e (greedy→Follows ms xs (ground arith))
    | inr e ↦ skip (greedy→Follows (m ∷ ms) xs (ground arith))
  ]

  -- A list in which the longer demand is met meets the shorter one.
  pub Follows-tail : {m : M} {ms : List M} {xs : List A} → Follows (m ∷ ms) xs → Follows ms xs
  Follows-tail (skip f) = skip (Follows-tail f)
  Follows-tail (meet e f) = skip f

  Follows-drop :
      {m : M} {ms : List M} {x : A} {xs : List A} → Follows (m ∷ ms) (x ∷ xs) → Follows ms xs
  Follows-drop (skip f) = Follows-tail f
  Follows-drop (meet e f) = f

  Follows-miss :
      {m : M} {ms : List M} {x : A} {xs : List A}
      → meets m x ≡ false
      → Follows (m ∷ ms) (x ∷ xs)
      → Follows (m ∷ ms) xs
  Follows-miss e (skip f) = f
  Follows-miss e (meet e' f) = absurd (ground arith)

  pub Follows→greedy : (ms : List M) (xs : List A) → Follows ms xs → greedy ms xs ≡ true
  Follows→greedy [] xs f = refl
  Follows→greedy (m ∷ ms) [] f = elim f [ ]
  Follows→greedy (m ∷ ms) (x ∷ xs) f = elim (Bool-cases (meets m x)) [
    | inl e ↦ rw e (Follows→greedy ms xs (Follows-drop f))
    | inr e ↦ rw e (Follows→greedy (m ∷ ms) xs (Follows-miss e f))
  ]

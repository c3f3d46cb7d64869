-- ===== src/Incident/Order.antt =====
-- The order of verifications: the cursor search of `_verification_sequence_satisfied`
-- (apps/api/app/scenario/incident.py) against ordered embeddings.
use the_evil_repository.Prelude.{
  Bool, Bool-cases, Follows, Follows→greedy, List, String, [], ap, arith, false, greedy,
  greedy→Follows, if◌then◌else◌, inl, inr, leb, none, option_rule, refl, some, sym, true, ℕ, ◌&&◌,
  ◌+◌, ◌↔◌, ◌∙◌, ◌∷◌, ◌≡◌, ◌≤◌,
}
use the_evil_repository.Incident.State.{Verification}
use the_evil_repository.Incident.Gaps.{fits, next_index, sequence_from, sequence_satisfied}

-- The part of a list, whose head has index `start`, from index `cursor` on.
abbrev from_index : ℕ → ℕ → List Verification → List Verification
from_index start cursor [] = []
from_index start cursor (v ∷ vs) =
    let rest = from_index (start + 1) cursor vs in if leb cursor start then v ∷ vs else rest

from_index_all :
    (start cursor : ℕ) (vs : List Verification) → cursor ≤ start → from_index start cursor vs ≡ vs
from_index_all start cursor [] h = refl
from_index_all start cursor (v ∷ vs) h = ground arith

module _ (good : List String) (mode : String) (ms : List String) where
  abbrev demands : List String → List Verification → Bool
  demands = greedy (fits good)

  next_index-none :
      (start cursor : ℕ) (vs : List Verification)
      → next_index (fits good mode) vs start cursor ≡ none
      → demands (mode ∷ ms) (from_index start cursor vs) ≡ false
  next_index-none start cursor [] h = refl
  next_index-none start cursor (v ∷ vs) h = elim (Bool-cases (leb cursor start)) [
    | inl low ↦
        let ih = next_index-none (start + 1) cursor vs in
        rw low (ground (arith, ih, from_index_all (start + 1) cursor vs (ground arith)))
    | inr high ↦ rw high (next_index-none (start + 1) cursor vs (ground arith))
  ]

  next_index-some :
      (start cursor found : ℕ) (vs : List Verification)
      → next_index (fits good mode) vs start cursor ≡ some found
      → (start ≤ found)
        × (demands (mode ∷ ms) (from_index start cursor vs)
            ≡ demands ms (from_index start (found + 1) vs))
  next_index-some start cursor found [] h = absurd (cc)
  next_index-some start cursor found (v ∷ vs) h =
      elim (Bool-cases (leb cursor start && fits good mode v)) [
        | inl hit ↦
            let e : start ≡ found = ground arith in
            ground (arith, from_index_all (start + 1) (found + 1) vs (omega arith))
        | inr passed ↦
            let ih = next_index-some (start + 1) cursor found vs (ground arith) in
            (omega (arith, ih.0), step_over passed ih.0 ih.1)
      ]
    where
      step_over :
          (leb cursor start && fits good mode v) ≡ false
          → start + 1 ≤ found
          → demands (mode ∷ ms) (from_index (start + 1) cursor vs)
            ≡ demands ms (from_index (start + 1) (found + 1) vs)
          → demands (mode ∷ ms) (from_index start cursor (v ∷ vs))
            ≡ demands ms (from_index start (found + 1) (v ∷ vs))
      step_over passed far e = elim (Bool-cases (leb cursor start)) [
        | inl low ↦ let same = from_index_all (start + 1) cursor vs (ground arith) in ground arith
        | inr high ↦ ground arith
      ]

-- The cursor search from index `cursor` agrees with the greedy search of the rest.
sequence_from-greedy :
    (good : List String) (vs : List Verification) (cursor : ℕ) (ms : List String)
    → sequence_from good vs cursor ms ≡ greedy (fits good) ms (from_index 0 cursor vs)
sequence_from-greedy good vs cursor [] = refl
sequence_from-greedy good vs cursor (mode ∷ ms) =
    option_rule (λ b. b ≡ greedy (fits good) (mode ∷ ms) (from_index 0 cursor vs))
      (next_index (fits good mode) vs 0 cursor)
      (λ missed. sym (next_index-none good mode ms 0 cursor vs missed))
      λ found hit.
        sequence_from-greedy good vs (found + 1) ms
        ∙ sym (next_index-some good mode ms 0 cursor found vs hit).1

-- The sequence is satisfied exactly when its modes occur in that order among the verifications,
-- each of the modes that must succeed by a run that passed.
pub sequence_satisfied-Follows :
    (sequence good : List String) (vs : List Verification)
    → (sequence_satisfied sequence good vs ≡ true) ↔ Follows (fits good) sequence vs
unfolding sequence_satisfied
sequence_satisfied-Follows sequence good vs =
    let e : sequence_from good vs 0 sequence ≡ greedy (fits good) sequence vs =
      sequence_from-greedy good vs 0 sequence
      ∙ ap (greedy (fits good) sequence) (from_index_all 0 0 vs (omega arith)) in
    (
      λ h. greedy→Follows (fits good) sequence vs (sym e ∙ h),
      λ f. e ∙ Follows→greedy (fits good) sequence vs f,
    )

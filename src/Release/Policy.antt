-- ===== src/Release/Policy.antt =====
-- The policy table of `_action` of `ReleaseDirector` (apps/api/app/scenario/release.py).
use the_evil_repository.Prelude.{Bool, List, Option, String, [], false, find, str_eq, true, ℕ, ◌∷◌}
use the_evil_repository.Release.State.{
  Action, clean_rebuild, clear_shared_cache, disable_signature_policy, patch_source, pause_rollout,
  preserve_evidence, promote_digest, quarantine_digest, retag_in_place, rollback_to_digest,
}

abbrev pub action_name : Action → String
action_name preserve_evidence = "preserve_evidence"
action_name pause_rollout = "pause_rollout"
action_name quarantine_digest = "quarantine_digest"
action_name clean_rebuild = "clean_rebuild"
action_name promote_digest = "promote_digest"
action_name rollback_to_digest = "rollback_to_digest"
action_name retag_in_place = "retag_in_place"
action_name clear_shared_cache = "clear_shared_cache"
action_name disable_signature_policy = "disable_signature_policy"
action_name patch_source = "patch_source"

abbrev pub all_actions : List Action
all_actions =
    preserve_evidence ∷ pause_rollout ∷ quarantine_digest ∷ clean_rebuild ∷ promote_digest
    ∷ rollback_to_digest ∷ retag_in_place ∷ clear_shared_cache ∷ disable_signature_policy
    ∷ patch_source ∷ []

-- The row of the policy table that the text names.
unfoldable pub find_action : String → Option Action
find_action name = find (λ a. str_eq name (action_name a)) all_actions

-- A row: the rise in risk, the cost in integrity, whether the action is unsafe and irreversible,
-- and the evidence that it wants.
pub record Policy : Type 0 where
  pub risk_delta : ℕ
  pub integrity_cost : ℕ
  pub unsafe : Bool
  pub irreversible : Bool
  pub minimum_evidence : ℕ

abbrev pub row : ℕ → ℕ → Bool → Bool → ℕ → Policy
row risk cost unsafe irreversible minimum = record {
  risk_delta = risk;
  integrity_cost = cost;
  unsafe = unsafe;
  irreversible = irreversible;
  minimum_evidence = minimum;
}

unfoldable pub policy : Action → Policy
policy preserve_evidence = row 0 0 false false 0
policy pause_rollout = row 1 0 false false 2
policy quarantine_digest = row 2 0 false false 3
policy clean_rebuild = row 3 0 false false 5
policy promote_digest = row 15 2 false true 6
policy rollback_to_digest = row 12 1 false true 6
policy retag_in_place = row 35 15 true true 4
policy clear_shared_cache = row 25 10 true false 4
policy disable_signature_policy = row 45 20 true false 2
policy patch_source = row 18 5 true false 2

abbrev pub takes_target : Action → Bool
takes_target quarantine_digest = true
takes_target promote_digest = true
takes_target rollback_to_digest = true
takes_target retag_in_place = true
takes_target _ = false

abbrev pub is_rebuild : Action → Bool
is_rebuild clean_rebuild = true
is_rebuild _ = false

abbrev pub is_denied : Action → Bool
is_denied disable_signature_policy = true
is_denied _ = false

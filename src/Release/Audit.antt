-- ===== src/Release/Audit.antt =====
-- The completion contract and the audit of `ReleaseDirector`: `completion_gaps`,
-- `_contains_ordered_subsequence`, `audit` and `_recovery_path`
-- (apps/api/app/scenario/release.py), after `ReleaseRequirements` of
-- apps/api/app/scenario/sdk.py.
use the_evil_repository.Prelude.{
  Bool, Dict, List, Option, String, String-comparable, [], all, contains, count, false, get_or_else,
  if◌then◌else◌, join, keep, length, lookup, map, max, none, not, put, some, str_eq, to_set, true,
  ℕ, ◌&&◌, ◌++◌, ◌+◌, ◌-◌, ◌<>◌, ◌==◌, ◌∷◌,
}
use the_evil_repository.Completion.{gap_if, is_nil, missing, progress}
use the_evil_repository.Release.State.{
  Action, ActionRecord, Decision, Director, Observation, Plan, Verification, clean_rebuild,
  patch_source,
}
use the_evil_repository.Release.Verify.{is_acceptable, is_protected, mode_name}
use the_evil_repository.Release.Clock.{phase}

pub record ReleaseRequirements : Type 0 where
  pub enabled : Bool
  pub logical_tick_seconds : ℕ
  pub horizon_ticks : ℕ
  pub min_logical_ticks : ℕ
  pub min_unique_observations : ℕ
  pub required_decisions : List String
  pub require_snapshot_before_irreversible : Bool
  pub require_containment : Bool
  pub required_verification_modes : List String
  pub required_successful_verification_modes : List String
  pub required_verification_sequence : List String

-- The loop of `_contains_ordered_subsequence`; what is left of `expected` stands for the cursor.
abbrev pub matched_rest : List String → List String → List String
matched_rest [] expected = expected
matched_rest (value ∷ values) [] = matched_rest values []
matched_rest (value ∷ values) (e ∷ expected) =
    matched_rest values (if str_eq value e then expected else e ∷ expected)

-- `_contains_ordered_subsequence`
unfoldable pub contains_ordered_subsequence : List String → List String → Bool
contains_ordered_subsequence values expected = is_nil (matched_rest values expected)

unfoldable pub unique_observations : List Observation → ℕ
unique_observations os = length (to_set (map (λ (o : Observation). o.observation_key) os))

abbrev pub submitted : Director → List String
submitted d = map (λ (x : Decision). x.ticket_id) d.decisions

abbrev pub attempted : Director → List String
attempted d = map (λ (v : Verification). mode_name v.mode) d.verifications

abbrev pub successful : Director → List String
successful d =
    map (λ (v : Verification). mode_name v.mode)
      (keep (λ (v : Verification). v.passed) d.verifications)

-- `completion_gaps`
unfoldable pub completion_gaps : Director → ReleaseRequirements → List String
completion_gaps d r =
    if not r.enabled
    then []
    else (progress "release logical ticks " d.tick r.min_logical_ticks
        ++ (progress "distinct release observations " (unique_observations d.observations)
              r.min_unique_observations
            ++ (missing "release decision " (submitted d) r.required_decisions
                ++ (missing "release verification mode " (attempted d) r.required_verification_modes
                    ++ (missing "successful release verification " (successful d)
                          r.required_successful_verification_modes
                        ++ (gap_if
                              (not (is_nil r.required_verification_sequence)
                                && not (
                                    contains_ordered_subsequence
                                      (keep (λ m. contains m r.required_verification_sequence)
                                        (attempted d))
                                      r.required_verification_sequence))
                              ("release verification sequence "
                                <> join " -> " r.required_verification_sequence)
                            ++ (gap_if (r.require_containment && not d.paused)
                                  "pause the release rollout"
                                ++ (gap_if
                                      (r.require_containment
                                        && not (contains d.plan.bad_digest d.quarantined))
                                      "quarantine the suspect artifact digest"
                                    ++ gap_if
                                        (r.require_snapshot_before_irreversible
                                          && not (all is_protected d.actions))
                                        "snapshot before every irreversible release action"))))))))

-- `latest_decisions`: the last decision on each ticket.
abbrev pub latest_from : Dict Decision → List Decision → Dict Decision
latest_from acc [] = acc
latest_from acc (x ∷ rest) = latest_from (put x.ticket_id x acc) rest

unfoldable pub latest_decisions : List Decision → Dict Decision
latest_decisions decisions = latest_from [] decisions

-- The decision agrees with its ticket; one on a ticket that the plan lacks does not.
unfoldable pub is_correct : Plan → String × Decision → Bool
is_correct plan (id, x) = elim (lookup id plan.tickets) [
  | none ↦ false
  | some t ↦
      contains x.disposition t.accepted_dispositions
      && contains x.recommended_action t.accepted_actions
]

abbrev pub same_action : Action → Action → Bool
same_action clean_rebuild clean_rebuild = true
same_action patch_source patch_source = true
same_action _ _ = false

-- `_recovery_path`
unfoldable pub recovery_path : Director → Option String
recovery_path d =
    if str_eq d.deployment_digest d.plan.last_good_digest
    then some "verified-rollback"
    else (if str_eq d.deployment_digest d.plan.clean_rebuild_digest
        then some "clean-forward-rebuild"
        else none)

-- `observation_types`
abbrev pub kinds_from : Dict ℕ → List Observation → Dict ℕ
kinds_from acc [] = acc
kinds_from acc (o ∷ rest) = kinds_from (put o.kind (get_or_else 0 (lookup o.kind acc) + 1) acc) rest

pub record AuditReport : Type 0 where
  pub logical_tick : ℕ
  pub phase : String
  pub required_decisions : ℕ
  pub submitted_decisions : ℕ
  pub correct_decisions : ℕ
  pub wrong_decisions : ℕ
  pub observations : ℕ
  pub unique_observations : ℕ
  pub observation_types : Dict ℕ
  pub actions : ℕ
  pub unsafe_actions : ℕ
  pub unsupported_actions : ℕ
  pub irreversible_actions : ℕ
  pub irreversible_with_snapshot : ℕ
  pub wrong_irreversible_action : Bool
  pub clean_rebuild_attempts : ℕ
  pub source_patch_requests : ℕ
  pub signature_policy_bypass_attempted : Bool
  pub signature_policy_weakened : Bool
  pub rollout_paused : Bool
  pub suspect_quarantined : Bool
  pub evidence_preserved : Bool
  pub risk : ℕ
  pub evidence_integrity : ℕ
  pub correct_recovery_state : Bool
  pub recovery_verified : Bool
  pub verification_passes : ℕ
  pub verification_modes : List String
  pub successful_verification_modes : List String
  pub recovery_path : Option String
  pub final_digest : String
  pub initial_digest : String
  pub topology_id : String

unfoldable pub correct_recovery : Director → Bool
correct_recovery d =
    is_acceptable d.plan d.deployment_digest && contains d.plan.bad_digest d.quarantined && d.paused

-- `audit`
unfoldable pub audit : Director → AuditReport
audit d =
    let latest = latest_decisions d.decisions in
    let correct = count (is_correct d.plan) latest in
    let irreversible = keep (λ (a : ActionRecord). a.irreversible) d.actions in
    record {
      logical_tick = d.tick;
      phase = phase d;
      required_decisions = length d.plan.tickets;
      submitted_decisions = length latest;
      correct_decisions = correct;
      wrong_decisions = max 0 (length latest - correct);
      observations = length d.observations;
      unique_observations = unique_observations d.observations;
      observation_types = kinds_from [] d.observations;
      actions = length d.actions;
      unsafe_actions = count (λ (a : ActionRecord). a.unsafe) d.actions;
      unsupported_actions = count (λ (a : ActionRecord). a.unsupported) d.actions;
      irreversible_actions = length irreversible;
      irreversible_with_snapshot = count (λ (a : ActionRecord). a.snapshot_before) irreversible;
      wrong_irreversible_action =
          not (length irreversible == 0) && not (is_acceptable d.plan d.deployment_digest);
      clean_rebuild_attempts =
          count (λ (a : ActionRecord). same_action a.action clean_rebuild) d.actions;
      source_patch_requests =
          count (λ (a : ActionRecord). same_action a.action patch_source) d.actions;
      signature_policy_bypass_attempted = d.signature_policy_bypass_attempted;
      signature_policy_weakened = false;
      rollout_paused = d.paused;
      suspect_quarantined = contains d.plan.bad_digest d.quarantined;
      evidence_preserved = d.evidence_preserved;
      risk = d.risk;
      evidence_integrity = d.integrity;
      correct_recovery_state = correct_recovery d;
      recovery_verified = correct_recovery d && d.recovery_verified;
      verification_passes = count (λ (v : Verification). v.passed) d.verifications;
      verification_modes = attempted d;
      successful_verification_modes = successful d;
      recovery_path = recovery_path d;
      final_digest = d.deployment_digest;
      initial_digest = d.initial_digest;
      topology_id = get_or_else "unknown" d.plan.topology_id;
    }

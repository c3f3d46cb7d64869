-- ===== src/Release/Tests.antt =====
-- A small plan, a recovery by a clean rebuild on it, and the theorems at these inputs
-- (apps/api/app/scenario/release.py).
use the_evil_repository.Prelude.{
  All, Dict, List, String, [], any, ap, arith, decimal, false, map, none, padded, refl, some,
  str_eq, strip, true, ◌↔◌, ◌∷◌, ◌≡◌,
}
use the_evil_repository.Protocol.{Host, ToolCall, end, millionths, null}
use the_evil_repository.Release.State.{Artifact, Director, Plan, Ticket, Verification, soak}
use the_evil_repository.Release.Clock.{advance, error_result, init, json_result, phase, status}
use the_evil_repository.Release.Attest.{attestation, attestation_verify}
use the_evil_repository.Release.Probe.{runtime_probe}
use the_evil_repository.Release.Inspect.{
  next_observation_id, observation_result, observed, provenance_query, registry_inspect, resolve,
}
use the_evil_repository.Release.Snapshot.{capture, next_snapshot_id, snapshot}
use the_evil_repository.Release.Policy.{find_action, policy}
use the_evil_repository.Release.Actions.{
  accepted_result, act, action_record, append_action, charge, denied_result, effect, perform,
  verified_keys,
}
use the_evil_repository.Release.Verify.{
  append_verification, failures, find_mode, latest_passing, matured, passes, passing, samples,
  verification, verify,
}
use the_evil_repository.Release.Execute.{
  Event, append_decision, called, decide, decision_record, execute, find_handler, handle, run, step,
  ticked,
}
use the_evil_repository.Release.Rebuild.{
  BuildInputs, rebuild, rebuild_digest, rebuilt, untrusted_artifact,
}
use the_evil_repository.Release.Audit.{
  ReleaseRequirements, audit, completion_gaps, contains_ordered_subsequence, correct_recovery,
  is_correct, latest_decisions, recovery_path, unique_observations,
}
use the_evil_repository.Release.Handled.{Handled, is_raised}
use the_evil_repository.Release.Bounds.{InRange, run-InRange}
use the_evil_repository.Release.Accounts.{IsBudgeted, run-IsBudgeted}
use the_evil_repository.Release.Deployment.{
  IsDeployed, IsUsable, execute_never_raises, run-IsDeployed,
}
use the_evil_repository.Release.Staging.{IsVetted, run-IsVetted}
use the_evil_repository.Release.Trust.{IsDistrusted, run-IsDistrusted}
use the_evil_repository.Release.Contract.{IsReleasable, completion_gaps-IsReleasable}
use the_evil_repository.Release.Report.{IsBalanced, audit-IsBalanced}
use the_evil_repository.Release.Rebuilds.{
  IsCandidate, IsRejected, rebuild-IsCandidate, rebuilt-IsRejected,
}
use the_evil_repository.Release.Growth.{Continues, run-Continues}

-- A host whose digest is the text itself, and whose texts are in lower case already.
abbrev plain : Host
plain = record { sha256 = λ s. s; casefold = λ s. s; dumps = λ f. "" }

abbrev artifact_of : String → Artifact
artifact_of digest = record {
  digest = digest;
  build_id = "b";
  platform = null;
  size = null;
  annotations = null;
  created = null;
  labels = record { source_revision = "r"; ci_conclusion = "success"; others = end };
  entrypoint = null;
  layers = null;
  diff_ids = null;
  source_commit = "c1";
  runtime_source_commit = "c1";
  base_digest = "base";
  cache_mode = "isolated";
  builder = "builder";
  signer = "signer";
  key_id = "k";
  signature_valid = true;
  active_keyring_match = true;
  active_policy_override = none;
  subject_digest_bound = true;
  trusted_signer = true;
  transparency_inclusion = true;
  sbom_subject_bound = true;
  runtime_contract = "v2";
  runtime_fingerprint = "f";
}

abbrev ticket : Ticket
ticket = record {
  title = "drift";
  reported_by = "operator";
  reported_at = "T+0";
  severity_claim = "high";
  visible_at = some 1;
  accepted_dispositions = "confirmed" ∷ [];
  accepted_actions = "clean_rebuild" ∷ [];
}

abbrev small_plan : Plan
small_plan = record {
  seed = 4;
  horizon_ticks = some 4;
  logical_tick_seconds = none;
  action_budget = some 6;
  snapshot_budget = some 1;
  rebuild_budget = some 1;
  replay_after_canary_ticks = some 1;
  soak_after_replay_ticks = some 1;
  soak_min_tick = some 2;
  artifacts =
      ("sha256:bad", artifact_of "sha256:bad") ∷ ("sha256:good", artifact_of "sha256:good") ∷ [];
  tags = ("app:prod", "sha256:bad") ∷ [];
  initial_deployment_digest = "sha256:bad";
  last_good_digest = "sha256:good";
  bad_digest = "sha256:bad";
  acceptable_digests = "sha256:clean" ∷ "sha256:good" ∷ [];
  clean_rebuild_digest = "sha256:clean";
  clean_rebuild_artifact = artifact_of "";
  production_reference = "app:prod";
  trusted_source_commit = "c1";
  trusted_base_digest = "base";
  trusted_builder = "builder";
  trusted_signer = "signer";
  expected_runtime_contract = "v2";
  verifier_versions = ("active", "1") ∷ ("offline-root", "2") ∷ ("reproducible", "3") ∷ [];
  topology_id = none;
  provenance = [];
  tag_history = [];
  phases = none;
  tickets = ("REL-1", ticket) ∷ [];
}

abbrev trusted_parameters : Dict String
trusted_parameters =
    ("source_commit", "c1")
    ∷ ("base_digest", "base")
    ∷ ("cache_mode", "isolated")
    ∷ ("builder", "builder")
    ∷ ("signer", "signer")
    ∷ []

abbrev call_of : String → Dict String → ToolCall
call_of name arguments = record {
  call_id = "c";
  name = name;
  arguments = arguments;
  evidence_keys = "e1" ∷ "" ∷ "e2" ∷ "e1" ∷ [];
  parameters = trusted_parameters;
  confidence = millionths 500000;
  limit = none;
  sample_seconds = some 5;
}

abbrev request : String → Dict String → Event
request name arguments = called (call_of name arguments) ("e2" ∷ "e1" ∷ [])

abbrev verify_as : String → Event
verify_as mode = request "release_verify" (("mode", mode) ∷ [])

abbrev recovery : List Event
recovery =
    request "registry_inspect" (("reference", "app:prod") ∷ ("view", "manifest") ∷ [])
    ∷ request "release_action" (("action", "pause_rollout") ∷ [])
    ∷ request "release_action" (("action", "quarantine_digest") ∷ ("target", "app:prod") ∷ [])
    ∷ request "release_snapshot" (("scope", "all") ∷ ("reason", "before promotion") ∷ [])
    ∷ request "release_action" (("action", "clean_rebuild") ∷ [])
    ∷ request "release_action" (("action", "promote_digest") ∷ ("target", "sha256:clean") ∷ [])
    ∷ request "release_action" (("action", "promote_digest") ∷ ("target", "sha256:good") ∷ [])
    ∷ verify_as "provenance"
    ∷ verify_as "canary"
    ∷ ticked
    ∷ verify_as "replay"
    ∷ ticked
    ∷ verify_as "soak"
    ∷ request "submit_release_decision" (
        ("ticket_id", "REL-1")
        ∷ ("disposition", "confirmed")
        ∷ ("recommended_action", "clean_rebuild")
        ∷ [])
    ∷ []

-- What the tests compute with.
runs : Unit {0}
unfolding run step execute handle find_handler status registry_inspect provenance_query
    attestation_verify runtime_probe snapshot act verify decide observed observation_result
    json_result error_result capture perform charge append_action effect rebuild rebuilt
    rebuild_digest untrusted_artifact action_record policy verified_keys denied_result
    accepted_result verification append_verification passing samples failures latest_passing matured
    find_action find_mode append_decision decision_record advance init phase resolve
    next_snapshot_id next_observation_id strip decimal padded
runs = tt

-- The second promotion is refused; the rest goes through.
recovery-state :
    let d = run plain recovery (init small_plan) in
    (d.deployment_digest ≡ "sha256:clean")
    × (d.recovery_verified ≡ true)
    × (d.action_budget ≡ 2)
    × (d.rebuild_budget ≡ 0)
    × (map (λ (v : Verification). v.passed) d.verifications ≡ true ∷ true ∷ true ∷ true ∷ [])
unfolding runs
recovery-state = (refl, refl, refl, refl, refl)

abbrev requirements : ReleaseRequirements
requirements = record {
  enabled = true;
  logical_tick_seconds = 60;
  horizon_ticks = 4;
  min_logical_ticks = 2;
  min_unique_observations = 1;
  required_decisions = "REL-1" ∷ [];
  require_snapshot_before_irreversible = true;
  require_containment = true;
  required_verification_modes = "soak" ∷ [];
  required_successful_verification_modes = "provenance" ∷ "soak" ∷ [];
  required_verification_sequence = "canary" ∷ "replay" ∷ "soak" ∷ [];
}

recovery-gaps : completion_gaps (run plain recovery (init small_plan)) requirements ≡ []
unfolding runs completion_gaps unique_observations contains_ordered_subsequence
recovery-gaps = refl

-- The contract is also met if the rollout is paused and the digest quarantined after the promotion.
abbrev late_containment : List Event
late_containment =
    request "registry_inspect" (("reference", "app:prod") ∷ ("view", "manifest") ∷ [])
    ∷ request "release_snapshot" (("scope", "all") ∷ ("reason", "before promotion") ∷ [])
    ∷ request "release_action" (("action", "clean_rebuild") ∷ [])
    ∷ request "release_action" (("action", "promote_digest") ∷ ("target", "sha256:clean") ∷ [])
    ∷ request "release_action" (("action", "pause_rollout") ∷ [])
    ∷ request "release_action" (("action", "quarantine_digest") ∷ ("target", "app:prod") ∷ [])
    ∷ verify_as "provenance"
    ∷ verify_as "canary"
    ∷ ticked
    ∷ verify_as "replay"
    ∷ ticked
    ∷ verify_as "soak"
    ∷ request "submit_release_decision" (
        ("ticket_id", "REL-1")
        ∷ ("disposition", "confirmed")
        ∷ ("recommended_action", "clean_rebuild")
        ∷ [])
    ∷ []

late_containment-gaps :
    completion_gaps (run plain late_containment (init small_plan)) requirements ≡ []
unfolding runs completion_gaps unique_observations contains_ordered_subsequence
late_containment-gaps = refl

recovery-audit :
    let report = audit (run plain recovery (init small_plan)) in
    (report.correct_decisions ≡ 1)
    × (report.wrong_decisions ≡ 0)
    × (report.recovery_verified ≡ true)
    × (report.recovery_path ≡ some "clean-forward-rebuild")
unfolding runs audit latest_decisions is_correct correct_recovery recovery_path
recovery-audit = (refl, refl, refl, refl)

abbrev usable : IsUsable small_plan
usable = record {
  initial = refl;
  last_good = refl;
  active = refl;
  offline_root = refl;
  reproducible = refl;
}

run-InRange_example : InRange (run plain recovery (init small_plan))
run-InRange_example = run-InRange plain recovery small_plan

run-IsBudgeted_example : IsBudgeted (run plain recovery (init small_plan))
run-IsBudgeted_example = run-IsBudgeted plain recovery small_plan

run-IsDeployed_example : IsDeployed (run plain recovery (init small_plan))
run-IsDeployed_example = run-IsDeployed plain recovery small_plan refl

run-IsVetted_example :
    let d = run plain recovery (init small_plan) in
    (d.recovery_verified ≡ any (passes soak) d.verifications)
    × All (IsVetted small_plan d.verifications) d.verifications
run-IsVetted_example = run-IsVetted plain recovery small_plan

execute_never_raises_example :
    let call = call_of "runtime_probe" (("signal", "identity") ∷ []) in
    is_raised (execute plain (run plain recovery (init small_plan)) call []).1 ≡ false
execute_never_raises_example =
    execute_never_raises plain recovery small_plan
      (call_of "runtime_probe" (("signal", "identity") ∷ [])) [] usable

-- A state after an attempt to weaken the signature policy.
abbrev suspicion : List Event
suspicion = request "release_action" (("action", "disable_signature_policy") ∷ []) ∷ []

run-IsDistrusted_example :
    let d = run plain suspicion (init small_plan) in IsDistrusted d (run plain recovery d)
unfolding runs
run-IsDistrusted_example =
    run-IsDistrusted plain recovery (run plain suspicion (init small_plan)) refl

run-Continues_example : Continues (init small_plan) (run plain recovery (init small_plan))
unfolding run
run-Continues_example =
    run-Continues plain recovery (init small_plan) (run-InRange plain [] small_plan)

completion_gaps-IsReleasable_example :
    let d = run plain recovery (init small_plan) in
    (completion_gaps d requirements ≡ []) ↔ IsReleasable d requirements
completion_gaps-IsReleasable_example =
    completion_gaps-IsReleasable (run plain recovery (init small_plan)) requirements refl

audit-IsBalanced_example : IsBalanced (run plain recovery (init small_plan))
audit-IsBalanced_example = audit-IsBalanced plain recovery small_plan

rebuild-IsCandidate_example :
    (digest : String) × (after : Director) × (rebuild plain (init small_plan) trusted_parameters
      ≡ some (digest, after))
    × IsCandidate small_plan trusted_parameters digest after
unfolding init attestation
rebuild-IsCandidate_example =
    rebuild-IsCandidate plain (init small_plan) trusted_parameters (omega arith) refl refl

rebuilt-IsRejected_example :
    IsRejected (init small_plan).plan (rebuilt plain (init small_plan) []).1
unfolding init
rebuilt-IsRejected_example = rebuilt-IsRejected plain (init small_plan) [] λ same.
    let clash : true ≡ false = ap (λ (x : BuildInputs). str_eq x.signer "") same in absurd (cc)

-- ===== src/Incident/Tests.antt =====
-- A small plan, runs of the director on it, and the theorems at these inputs
-- (apps/api/app/scenario/incident.py).
use the_evil_repository.Prelude.{
  All, Dict, List, String, String-comparable, [], arith, contains, decimal, false, map, not, padded,
  refl, some, sorted, strip, true, ◌&&◌, ◌++◌, ◌-◌, ◌||◌, ◌↔◌, ◌∷◌, ◌≡◌, ◌≢◌,
}
use the_evil_repository.Protocol.{ToolCall, argument}
use the_evil_repository.Incident.Samples.{call_of, plain, requirements, small_plan}
use the_evil_repository.Incident.State.{
  ActionRecord, Decision, Director, Verification, restart_service,
}
use the_evil_repository.Incident.Clock.{advance, init, phase_at, phase_names, sample, slo_at}
use the_evil_repository.Incident.Probes.{observability}
use the_evil_repository.Incident.Audit.{audit, latest_decisions, matched}
use the_evil_repository.Incident.Report.{AddsUp, audit-AddsUp}
use the_evil_repository.Incident.Observe.{
  error_result, json_result, next_observation_id, observe, observed, status,
}
use the_evil_repository.Incident.Snapshots.{capture, captured, next_snapshot_id, snapshot}
use the_evil_repository.Incident.Rollback.{restore, roll_back, rollback_record}
use the_evil_repository.Incident.Actions.{
  accepted_result, act, action_record, denied_result, find_action, is_denied, is_mitigation,
  minimum_evidence, perform, policy, verified_keys,
}
use the_evil_repository.Incident.Verify.{
  append_verification, find_mode, latest_passing, matured, verification, verification_result,
  verify,
}
use the_evil_repository.Incident.Execute.{
  Context, Event, append_decision, called, decide, decision_record, decision_result, execute,
  find_handler, handle, run, step, ticked, unknown_operation,
}
use the_evil_repository.Incident.Bounds.{InBounds, run-InBounds}
use the_evil_repository.Incident.Gaps.{
  completion_gaps, phase_keys, sequence_satisfied, services_observed, unique_observations,
}
use the_evil_repository.Incident.Contract.{IsComplete, completion_gaps-IsComplete}
use the_evil_repository.Incident.Transitions.{execute-Outcome}
use the_evil_repository.Incident.Handled.{Outcome}
use the_evil_repository.Incident.Accounts.{IsAccounted, run-IsAccounted}
use the_evil_repository.Incident.Staging.{IsCertified, run-IsCertified}
use the_evil_repository.Incident.Recovery.{Extends, roll_back-perform, run-Extends}
use the_evil_repository.Incident.Alerts.{advance-announces, is_due}
use the_evil_repository.Incident.Policy.{act-IsTainted, tainted-incomplete}

abbrev good_patch : Context
good_patch = record {
  patch_valid = some true;
  scope_valid = some true;
  known_evidence_keys = "e2" ∷ "e1" ∷ [];
}

abbrev request : String → Dict String → Event
request name arguments = called (call_of name arguments) good_patch

abbrev verify_as : String → Event
verify_as mode = request "incident_verify" (("mode", mode) ∷ [])

abbrev staged_run : List Event
staged_run =
    request "observe_service" (("service", " relay ") ∷ ("signal", "logs") ∷ [])
    ∷ request "incident_action" (("action", "promote_v3") ∷ ("target", "v3") ∷ [])
    ∷ request "incident_action" (("action", "disable_validation") ∷ [])
    ∷ request "incident_snapshot" (("scope", "all") ∷ ("reason", "before repair") ∷ [])
    ∷ verify_as "baseline"
    ∷ verify_as "canary"
    ∷ ticked
    ∷ verify_as "replay"
    ∷ ticked
    ∷ verify_as "soak"
    ∷ request "submit_incident_decision" (("ticket_id", "INC-1") ∷ [])
    ∷ []

-- What the tests compute with.
runs : Unit {0}
unfolding run step execute handle find_handler status observe observability snapshot act roll_back
    verify decide observed json_result error_result capture captured perform restore action_record
    policy minimum_evidence is_denied is_mitigation verified_keys denied_result accepted_result
    rollback_record verification append_verification verification_result latest_passing matured
    find_action find_mode append_decision decision_record decision_result unknown_operation advance
    sample slo_at init phase_at strip decimal padded next_snapshot_id next_observation_id
runs = tt

abbrev after_run : Director
after_run = run plain staged_run (init small_plan)

staged_run-modes :
    map (λ (v : Verification). v.passed) (run plain staged_run (init small_plan)).verifications
    ≡ false ∷ true ∷ true ∷ false ∷ []
unfolding runs
staged_run-modes = refl

-- The first irreversible action is carried out, at its price; the second is refused.
staged_run-state :
    let d = run plain staged_run (init small_plan) in
    (d.risk ≡ 65) × (d.data_integrity ≡ 60) × (d.action_budget ≡ 1) × (d.tick ≡ 2)
unfolding runs
staged_run-state = (refl, refl, refl, refl)

staged_run-decision :
    map
      (λ (x : Decision). x.verified_evidence_keys)
      (run plain staged_run (init small_plan)).decisions
    ≡ ("e1" ∷ "e2" ∷ []) ∷ []
unfolding runs
staged_run-decision = refl

run-InBounds_example : InBounds (run plain staged_run (init small_plan))
run-InBounds_example = run-InBounds plain staged_run small_plan

run-IsAccounted_example : IsAccounted (run plain staged_run (init small_plan))
run-IsAccounted_example = run-IsAccounted plain staged_run small_plan

run-IsCertified_example :
    let vs = (run plain staged_run (init small_plan)).verifications in
    All (IsCertified small_plan vs) vs
run-IsCertified_example = run-IsCertified plain staged_run small_plan

execute-Outcome_example :
    let call = call_of "incident_verify" (("mode", "canary") ∷ []) in
    Outcome plain
      (init small_plan)
      call
      good_patch
      (execute plain (init small_plan) call good_patch)
execute-Outcome_example =
    execute-Outcome plain (init small_plan) (call_of "incident_verify" (("mode", "canary") ∷ []))
      good_patch

-- Only the action without a snapshot is missing from the contract.
staged_run-gaps :
    completion_gaps (run plain staged_run (init small_plan)) requirements
    ≡ "snapshot before every risky incident action" ∷ []
unfolding runs completion_gaps unique_observations services_observed phase_keys sequence_satisfied
staged_run-gaps = refl

completion_gaps-IsComplete_example :
    let d = run plain staged_run (init small_plan) in
    (completion_gaps d requirements ≡ []) ↔ IsComplete d requirements
completion_gaps-IsComplete_example =
    completion_gaps-IsComplete (run plain staged_run (init small_plan)) requirements refl

abbrev restart_call : ToolCall
restart_call = call_of "incident_action" (("action", "restart_service") ∷ ("target", "relay") ∷ [])

abbrev restart_entry : ActionRecord
restart_entry = action_record (init small_plan) restart_call [] restart_service

abbrev undo_call : ToolCall
undo_call = call_of "incident_rollback" (("snapshot_id", " snap-1 ") ∷ ("reason", "worse") ∷ [])

roll_back-perform_example :
    let before = perform (capture (init small_plan) "snap-1") restart_service restart_entry in
    let after = (roll_back before undo_call).0 in
    (after.risk ≡ (init small_plan).risk)
    × (after.data_integrity ≡ (init small_plan).data_integrity)
    × (after.mitigations ≡ sorted (init small_plan).mitigations)
    × (after.action_budget ≡ (init small_plan).action_budget - 1)
    × (after.actions
        ≡ ((init small_plan).actions ++ restart_entry ∷ [])
          ++ rollback_record before "snap-1" (strip (argument undo_call "reason" "")) ∷ [])
    × (after.evidence_preserved ≡ true)
    × (after.tick ≡ (init small_plan).tick)
unfolding strip
roll_back-perform_example =
    roll_back-perform (init small_plan) "snap-1" restart_service restart_entry undo_call refl

run-Extends_example : Extends (init small_plan) (run plain staged_run (init small_plan))
unfolding run
run-Extends_example =
    run-Extends plain staged_run (init small_plan) (run-InBounds plain [] small_plan)

advance-announces_example :
    let (after, announced) = advance (init small_plan) in
    (contains "INC-1" announced ≡ (
      is_due after.tick "INC-1" small_plan.tickets
      && not (contains "INC-1" (init small_plan).activated)))
    × (contains "INC-1" after.activated ≡ (
        is_due after.tick "INC-1" small_plan.tickets
        || contains "INC-1" (init small_plan).activated))
unfolding init
advance-announces_example = advance-announces (init small_plan) "INC-1"

tainted-incomplete_example :
    completion_gaps
      (run plain staged_run (act plain (init small_plan) restart_call []).0)
      requirements
    ≢ []
unfolding strip find_action policy init
tainted-incomplete_example =
    tainted-incomplete plain staged_run (act plain (init small_plan) restart_call []).0 requirements
      (act-IsTainted plain (init small_plan) restart_call [] restart_service refl (omega arith) refl
        (omega arith) refl)
      refl refl

audit-AddsUp_example : AddsUp (run plain staged_run (init small_plan))
audit-AddsUp_example = audit-AddsUp plain staged_run small_plan

staged_run-audit :
    let report = audit (run plain staged_run (init small_plan)) in
    (report.correct_decisions ≡ 0) × (report.wrong_decisions ≡ 1) × (report.risky_actions ≡ 1)
unfolding runs audit latest_decisions matched phase_names unique_observations phase_keys
staged_run-audit = (refl, refl, refl)

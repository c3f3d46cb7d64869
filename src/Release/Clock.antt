-- ===== src/Release/Clock.antt =====
-- `__init__`, the clock, the phases, `advance` and the checkpoint of `ReleaseDirector`, its two ways
-- to answer, and `_status` (apps/api/app/scenario/release.py).
use the_evil_repository.Prelude.{
  Bool, Dict, List, String, String-comparable, [], add, contains, false, get_or_else, if◌then◌else◌,
  leb, length, min, none, not, ℕ, ◌&&◌, ◌*◌, ◌+◌, ◌==◌, ◌∷◌,
}
use the_evil_repository.Protocol.{
  Fields, ToolCall, ToolResult, array, document, end, error, field, flag, merge, message, num,
  object, objects, ok, text, texts,
}
use the_evil_repository.Timeline.{Phase, clock_text, phase_from}
use the_evil_repository.Release.State.{Director, Plan, Ticket}

-- `__init__`
unfoldable pub init : Plan → Director
init plan = record {
  plan = plan;
  seed = plan.seed;
  tick = 0;
  horizon = get_or_else 120 plan.horizon_ticks;
  logical_tick_seconds = get_or_else 60 plan.logical_tick_seconds;
  artifacts = plan.artifacts;
  tags = plan.tags;
  initial_digest = plan.initial_deployment_digest;
  deployment_digest = plan.initial_deployment_digest;
  paused = false;
  evidence_preserved = false;
  quarantined = [];
  signature_policy_bypass_attempted = false;
  risk = 0;
  integrity = 100;
  snapshot_budget = get_or_else 2 plan.snapshot_budget;
  rebuild_budget = get_or_else 2 plan.rebuild_budget;
  action_budget = get_or_else 12 plan.action_budget;
  snapshots = [];
  actions = [];
  observations = [];
  decisions = [];
  verifications = [];
  activated = [];
  irreversible_used = false;
  recovery_verified = false;
}

abbrev pub default_phases : Phase × List Phase
default_phases = (
  record { name = "triage"; start_tick = 0 },
  record { name = "containment"; start_tick = 25 }
      ∷ record { name = "recovery"; start_tick = 55 }
      ∷ record { name = "verification"; start_tick = 85 }
      ∷ [],
)

-- `_phase`
unfoldable pub phase : Director → String
phase d =
    let (first, rest) = get_or_else default_phases d.plan.phases in
    phase_from first.name d.tick (first ∷ rest)

-- `logical_time`
unfoldable pub logical_time : Director → String
unfolding clock_text
logical_time d = clock_text (d.tick * d.logical_tick_seconds)

-- `public_checkpoint`
unfoldable pub public_checkpoint : Director → Fields
public_checkpoint d = field "logical_tick" (num d.tick) (
    field "logical_time" (text (logical_time d)) (
      field "phase" (text (phase d)) (
        field "deployment_digest" (text d.deployment_digest) (
          field "rollout_paused" (flag d.paused) (
            field "quarantined_artifacts" (num (length d.quarantined)) (
              field "risk" (num d.risk) (
                field "evidence_integrity" (num d.integrity) (
                  field "release_actions_remaining" (num d.action_budget) (
                    field "clean_rebuilds_remaining" (num d.rebuild_budget) (
                      field "snapshots_remaining" (num d.snapshot_budget) (
                        field "irreversible_action_available" (flag (not d.irreversible_used))
                          end)))))))))))

abbrev pub is_visible : ℕ → Ticket → Bool
is_visible tick ticket = leb (get_or_else 0 ticket.visible_at) tick

abbrev pub newly_visible : ℕ → List String → Dict Ticket → List String
newly_visible tick activated [] = []
newly_visible tick activated ((id, ticket) ∷ rest) =
    let later = newly_visible tick activated rest in
    if is_visible tick ticket && not (contains id activated) then id ∷ later else later

abbrev pub add_all : List String → List String → List String
add_all [] xs = xs
add_all (a ∷ rest) xs = add_all rest (add a xs)

-- `advance`: the new state and the reports that it announces, none if the clock stands.
unfoldable pub advance : Director → Director × List String
advance d =
    let next = min d.horizon (d.tick + 1) in
    let announced = if next == d.tick then [] else newly_visible next d.activated d.plan.tickets in
    (record d { tick = next; activated = add_all announced d.activated }, announced)

-- The event that `advance` reports.
unfoldable pub advance_report : String → String → Director → Fields
advance_report trigger status d =
    let (after, announced) = advance d in
    merge (public_checkpoint after) (
      field "new_reports" (array (texts announced))
        (field "trigger" (text trigger) (field "trigger_status" (text status) end)))

-- `_json_result`
unfoldable pub json_result : ToolCall → Fields → Fields → ToolResult
json_result call payload metadata = record {
  call_id = call.call_id;
  name = call.name;
  status = ok;
  output = document payload;
  exit_code = none;
  truncated = false;
  metadata = metadata;
}

-- `_error`
unfoldable pub error_result : ToolCall → String → ToolResult
error_result call reason = record {
  call_id = call.call_id;
  name = call.name;
  status = error;
  output = message reason;
  exit_code = none;
  truncated = false;
  metadata = end;
}

abbrev pub reports : ℕ → Dict Ticket → List Fields
reports tick [] = []
reports tick ((id, ticket) ∷ rest) =
    let later = reports tick rest in
    if is_visible tick ticket
    then field "ticket_id" (text id) (
        field "title" (text ticket.title) (
          field "reported_by" (text ticket.reported_by) (
            field "reported_at" (text ticket.reported_at)
              (field "severity_claim" (text ticket.severity_claim) end))))
      ∷ later
    else later

abbrev pub action_catalog : Fields
action_catalog =
    field "containment"
      (array (texts ("preserve_evidence" ∷ "pause_rollout" ∷ "quarantine_digest" ∷ [])))
      (field "recovery_preparation" (array (texts ("clean_rebuild" ∷ []))) (
        field "one_shot_recovery" (array (texts ("promote_digest" ∷ "rollback_to_digest" ∷ []))) (
          field "high_risk_or_invalid"
            (array (
              texts (
                "retag_in_place" ∷ "clear_shared_cache" ∷ "disable_signature_policy"
                ∷ "patch_source" ∷ [])))
            end)))

-- `_status`
unfoldable pub status : Director → ToolCall → ToolResult
status d call =
    json_result call
      (merge (public_checkpoint d) (
        field "production_reference" (text d.plan.production_reference) (
          field "visible_reports" (array (objects (reports d.tick d.plan.tickets))) (
            field "action_catalog" (object action_catalog) (
              field "notice"
                (text
                  "Tags, labels, annotations, CI conclusions and timestamps are claims. Bind source, build inputs, artifact digest, signer, deployment target and runtime behavior before promotion.")
                end)))))
      (field "release_kind" (text "status") end)

-- ===== src/Incident/Execute.antt =====
-- `_decision` of `IncidentDirector`, and `execute`, which dispatches a call to its handler.
-- A run is a sequence of calls and of ticks of the logical clock.
use the_evil_repository.Prelude.{
  Bool, Dict, List, Option, String, [], count, false, has_key, if◌then◌else◌, length, lookup, ltb,
  none, not, some, str_eq, strip, true, ℕ, ◌++◌, ◌+◌, ◌<>◌, ◌∷◌,
}
use the_evil_repository.Protocol.{
  Host, ToolCall, ToolResult, argument, cited_keys, denied, end, field, flag, message, num, text,
  within_unit,
}
use the_evil_repository.Incident.State.{Decision, Director}
use the_evil_repository.Incident.Clock.{advance}
use the_evil_repository.Incident.Probes.{observability}
use the_evil_repository.Incident.Observe.{error_result, json_result, observe, status}
use the_evil_repository.Incident.Snapshots.{snapshot}
use the_evil_repository.Incident.Rollback.{roll_back}
use the_evil_repository.Incident.Actions.{act, verified_keys}
use the_evil_repository.Incident.Verify.{verify}

abbrev pub revision_of : String → List Decision → ℕ
revision_of id decisions = 1 + count (λ (x : Decision). str_eq x.ticket_id id) decisions

unfoldable pub decision_record : Host → Director → ToolCall → List String → String → Decision
decision_record host d call known id = record {
  tick = d.tick;
  ticket_id = id;
  disposition = host.casefold (strip (argument call "disposition" ""));
  recommended_action = host.casefold (strip (argument call "recommended_action" ""));
  confidence = call.confidence;
  evidence_keys = cited_keys call;
  verified_evidence_keys = verified_keys d known (cited_keys call);
  revision = revision_of id d.decisions;
}

unfoldable pub append_decision : Director → Decision → Director
append_decision d x = record d { decisions = d.decisions ++ x ∷ [] }

unfoldable pub decision_result : Director → ToolCall → Decision → ToolResult
decision_result d call x =
    json_result d call
      (field "recorded" (flag true) (
        field "ticket_id" (text x.ticket_id) (
          field "revision" (num x.revision) (
            field "note"
              (text "The hidden judge, not this API response, evaluates the disposition.") end))))
      "decision"
      (field "incident_ticket" (text x.ticket_id) (field "decision_revision" (num x.revision) end))

-- `_decision`
unfoldable pub decide : Host → Director → ToolCall → List String → Director × ToolResult
decide host d call known =
    let id = strip (argument call "ticket_id" "") in
    if not (has_key id d.plan.tickets)
    then (d, error_result call ("Unknown incident ticket: " <> id))
    else (if not (within_unit call.confidence)
        then (d, error_result call "confidence must be between 0 and 1")
        else (if ltb (length (cited_keys call)) 2
            then (d, error_result call "At least two evidence keys are required.")
            else (let x = decision_record host d call known id in
                let after = append_decision d x in (after, decision_result after call x))))

-- The handlers of the table in `execute`.
pub data Handler : Type 0 where
  status_handler observe_handler observability_handler snapshot_handler action_handler
        rollback_handler verify_handler decision_handler :
      Handler

abbrev pub handlers : Dict Handler
handlers =
    ("incident_status", status_handler)
    ∷ ("observe_service", observe_handler)
    ∷ ("process_list", observability_handler)
    ∷ ("service_status", observability_handler)
    ∷ ("journal_query", observability_handler)
    ∷ ("socket_snapshot", observability_handler)
    ∷ ("trace_process", observability_handler)
    ∷ ("profile_cpu", observability_handler)
    ∷ ("incident_snapshot", snapshot_handler)
    ∷ ("incident_action", action_handler)
    ∷ ("incident_rollback", rollback_handler)
    ∷ ("incident_verify", verify_handler)
    ∷ ("submit_incident_decision", decision_handler)
    ∷ []

unfoldable pub find_handler : String → Option Handler
find_handler name = lookup name handlers

-- What the runner passes beside the call: the state of the patch and the recorded evidence.
pub record Context : Type 0 where
  pub patch_valid : Option Bool
  pub scope_valid : Option Bool
  pub known_evidence_keys : List String

unfoldable pub handle : Host → Handler → Director → ToolCall → Context → Director × ToolResult
handle host status_handler d call context = (d, status d call)
handle host observe_handler d call context = observe host d call
handle host observability_handler d call context = observability host d call
handle host snapshot_handler d call context = snapshot host d call
handle host action_handler d call context = act host d call context.known_evidence_keys
handle host rollback_handler d call context = roll_back d call
handle host verify_handler d call context =
    verify host d call context.patch_valid context.scope_valid
handle host decision_handler d call context = decide host d call context.known_evidence_keys

unfoldable pub unknown_operation : ToolCall → ToolResult
unknown_operation call = record {
  call_id = call.call_id;
  name = call.name;
  status = denied;
  output = message "Unknown incident-control operation.";
  exit_code = none;
  truncated = false;
  metadata = end;
}

-- `execute`
unfoldable pub execute : Host → Director → ToolCall → Context → Director × ToolResult
execute host d call context = elim (find_handler call.name) [
  | none ↦ (d, unknown_operation call)
  | some h ↦ handle host h d call context
]

-- What the runner does to a director: a tool call, or the tick that follows a tool attempt.
pub data Event : Type 0 where
  called : ToolCall → Context → Event
  ticked : Event

unfoldable pub step : Host → Event → Director → Director
step host (called call context) d = (execute host d call context).0
step host ticked d = (advance d).0

unfoldable pub run : Host → List Event → Director → Director
run host [] d = d
run host (e ∷ events) d = run host events (step host e d)

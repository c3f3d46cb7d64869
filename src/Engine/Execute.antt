-- ===== src/Engine/Execute.antt =====
-- `_execute`, which sends a call to its handler with the scripted faults around it
-- (apps/api/app/runner/engine.py).
use the_evil_repository.Prelude.{
  List, String, String-comparable, [], contains, false, if◌then◌else◌, none, some, starts_with,
  str_eq, ◌||◌, ◌∷◌,
}
use the_evil_repository.Protocol.{ToolCall, ToolResult, end, error, message}
use the_evil_repository.Engine.State.{Config, Engine, Outcome, Outside, answered, raised}
use the_evil_repository.Engine.Sandboxed.{denial, use_browser, use_sandbox}
use the_evil_repository.Engine.Handlers.{
  evidence_call, hypothesis_call, incident_call, link_call, next_action_call, release_call,
}
use the_evil_repository.Faults.Controller.{after, before}

-- Where the tests on the call's name lead.
pub data Route : Type 0 where
  to_sandbox to_browser to_hypothesis to_evidence to_link to_next_action to_incident to_release
        to_nothing :
      Route

abbrev pub sandbox_tools : List String
sandbox_tools = "list_files" ∷ "read_file" ∷ "write_file" ∷ "exec_command" ∷ []

abbrev pub incident_tools : List String
incident_tools =
    "observe_service" ∷ "submit_incident_decision" ∷ "process_list" ∷ "service_status"
    ∷ "journal_query" ∷ "socket_snapshot" ∷ "trace_process" ∷ "profile_cpu" ∷ []

-- `RELEASE_TOOLS`
abbrev pub release_tools : List String
release_tools =
    "release_status" ∷ "registry_inspect" ∷ "provenance_query" ∷ "attestation_verify"
    ∷ "runtime_probe" ∷ "release_snapshot" ∷ "release_action" ∷ "release_verify"
    ∷ "submit_release_decision" ∷ []

unfoldable pub route : String → Route
route name =
    if contains name sandbox_tools
    then to_sandbox
    else (if starts_with name "browser_"
        then to_browser
        else (if str_eq name "record_hypothesis"
            then to_hypothesis
            else (if str_eq name "record_evidence"
                then to_evidence
                else (if str_eq name "link_evidence"
                    then to_link
                    else (if str_eq name "set_next_action"
                        then to_next_action
                        else (if starts_with name "incident_" || contains name incident_tools
                            then to_incident
                            else (if contains name release_tools
                                then to_release
                                else to_nothing)))))))

-- The result that `except Exception` makes of an exception.
unfoldable pub settled : ToolCall → Outcome → ToolResult
settled call (answered r) = r
settled call (raised reason) = record {
  call_id = call.call_id;
  name = call.name;
  status = error;
  output = message reason;
  exit_code = none;
  truncated = false;
  metadata = end;
}

module _ {W : Type 0} where
  unfoldable pub dispatch : Outside W → Config → Route → Engine W → ToolCall → Engine W × Outcome
  dispatch outside config to_sandbox e call = use_sandbox outside config e call
  dispatch outside config to_browser e call = use_browser outside e call
  dispatch outside config to_hypothesis e call = hypothesis_call outside e call
  dispatch outside config to_evidence e call = evidence_call outside config e call
  dispatch outside config to_link e call = link_call outside e call
  dispatch outside config to_next_action e call = next_action_call e call
  dispatch outside config to_incident e call = incident_call outside config e call
  dispatch outside config to_release e call = release_call config e call
  dispatch outside config to_nothing e call =
      (e, answered (denial call "Tool is not enabled by this Scenario." end))

  unfoldable pub with_fault : Config → ToolCall → Engine W × Outcome → Engine W × ToolResult
  with_fault config call made =
      let met = after config.tools made.0.faults call (settled call made.1) in
      (record made.0 { faults = met.0 }, met.1)

  -- `_execute`
  unfoldable pub execute : Outside W → Config → Engine W → ToolCall → Engine W × ToolResult
  execute outside config e call =
      let asked = before config.tools e.faults call in
      let waiting : Engine W = record e { faults = asked.0 } in
      elim asked.1 [
        | some r ↦ (waiting, r)
        | none ↦ with_fault config call (dispatch outside config (route call.name) waiting call)
      ]

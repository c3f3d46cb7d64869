-- ===== src/Faults/Tests.antt =====
-- Two rules of a scenario, a run of calls against them, and the theorem at this input
-- (apps/api/app/runner/faults.py, and failures/command.yaml of a scenario).
use the_evil_repository.Prelude.{
  All, List, String, [], decimal, false, is_some, none, padded, refl, some, str_eq, true, ◌∷◌, ◌≡◌,
}
use the_evil_repository.Protocol.{ToolCall, ToolResult, end, field, message, millionths, ok, text}
use the_evil_repository.Faults.Rules.{FaultRule, FaultStep, Tools, current_step, matches, next_step}
use the_evil_repository.Faults.Controller.{
  Controller, after, before, consult, faulted, inject_noise, noise_entry, noise_payload,
  scripted_error, scripted_timeout, verdict,
}
use the_evil_repository.Faults.Schedule.{IsKnown, scheduled}
use the_evil_repository.Faults.Session.{
  Event, IsScheduled, asked, asked_calls, finished, run, run-IsScheduled,
}

abbrev plain : Tools
plain = record {
  host = record { sha256 = λ s. s; casefold = λ s. s; dumps = λ f. "{}" };
  fnmatch = λ s p. str_eq s p;
  loads = λ s. none;
  dumps_indented = λ items. "[]";
}

abbrev step_of : String → FaultStep
step_of name = record {
  result = some name;
  message = none;
  code = none;
  seconds = some 30;
  bytes = some 4;
  count = none;
  source = none;
  raw = field "result" (text name) end;
}

abbrev rule_of : String → String → List FaultStep → FaultRule
rule_of id command steps = record {
  rule_id = id;
  match = record {
    tool = some "exec_command";
    path = none;
    path_glob = none;
    command_contains = some command;
    query_contains = none;
  };
  sequence = steps;
  cursor = 0;
}

abbrev controller : Controller
controller = record {
  rules =
      rule_of "lock" "git status" (step_of "error" ∷ step_of "passthrough" ∷ [])
      ∷ rule_of "history" "git"
          (step_of "truncate" ∷ step_of "timeout" ∷ step_of "passthrough" ∷ [])
      ∷ [];
  pending_after = [];
}

abbrev command : String → String → ToolCall
command id line = record {
  call_id = id;
  name = "exec_command";
  arguments = ("command", line) ∷ [];
  evidence_keys = [];
  parameters = [];
  confidence = millionths 0;
  limit = none;
  sample_seconds = none;
}

abbrev result_of : String → ToolResult
result_of id = record {
  call_id = id;
  name = "exec_command";
  status = ok;
  output = message "0123456789";
  exit_code = some 0;
  truncated = false;
  metadata = end;
}

abbrev events : List Event
events =
    asked (command "a" "git log")
    ∷ finished (command "a" "git log") (result_of "a")
    ∷ asked (command "b" "git status")
    ∷ []

runs : Unit {0}
unfolding run before after consult matches next_step current_step verdict faulted scripted_error
    scripted_timeout scheduled asked_calls decimal inject_noise noise_payload noise_entry padded
runs = tt

-- The first log is cut, the second times out, the third passes; the status errs once.
replay :
    let met = λ (e : List Event) (c : ToolCall). (before plain (run plain e controller) c).1 in
    let c1 = (before plain controller (command "a" "git log")).0 in
    (is_some (met [] (command "a" "git log")) ≡ false)
    × ((after plain c1 (command "a" "git log") (result_of "a")).1.output ≡ message "0123")
    × (is_some (met events (command "c" "git log")) ≡ true)
    × (is_some (met events (command "d" "git status")) ≡ false)
    × (is_some (met (asked (command "c" "git log") ∷ events) (command "e" "git log")) ≡ false)
unfolding runs
replay = (refl, refl, refl, refl, refl)

IsKnown-rules : All IsKnown controller.rules
unfolding IsKnown
IsKnown-rules = ((refl, (refl, tt)), ((refl, (refl, (refl, tt))), tt))

run-IsScheduled_example :
    IsScheduled plain
      (run plain events controller)
      (command "c" "git log")
      (scheduled plain controller.rules (asked_calls events) (command "c" "git log"))
run-IsScheduled_example =
    run-IsScheduled plain controller events (command "c" "git log") IsKnown-rules

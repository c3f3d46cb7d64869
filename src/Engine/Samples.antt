-- ===== src/Engine/Samples.antt =====
-- A provider that follows a script, and a session with an incident director, for tests
-- (apps/api/app/runner/engine.py).
use the_evil_repository.Prelude.{List, [], false, none, some, str_eq, true, words, ℕ, ◌∷◌}
use the_evil_repository.Protocol.{ToolCall, ToolResult, end, message, ok}
use the_evil_repository.Incident.Samples.{call_of, plain, requirements, small_plan}
use the_evil_repository.Incident.Clock as IncidentClock
use the_evil_repository.Investigation.Store.{empty_store}
use the_evil_repository.Engine.State.{Config, Outside, answered, raised}
use the_evil_repository.Engine.Gaps.{Contract}
use the_evil_repository.Engine.Budget.{Override, amount, whole}
use the_evil_repository.Engine.Session.{AssistantTurn, Driver, Session, completed, failed}

abbrev pub answer_of : ToolCall → ToolResult
answer_of call = record {
  call_id = call.call_id;
  name = call.name;
  status = ok;
  output = message "";
  exit_code = none;
  truncated = false;
  metadata = end;
}

-- What the provider still answers, and the number of the request.
abbrev pub Script : Type 0
Script = List (ℕ × AssistantTurn)

abbrev pub outside : Outside Script
outside = record {
  sandbox = λ w call. (w, answered (answer_of call));
  browser = λ w call. (w, raised "KeyError: 'query'");
  patch_state = λ w. (true, true);
  type_error = λ call. "missing argument";
  resume = λ w. (w, true);
  collect_text = λ w path. "text";
}

abbrev pub config : Config
config = record {
  tools = record {
    host = plain;
    fnmatch = λ s p. str_eq s p;
    loads = λ s. none;
    dumps_indented = λ items. "[]";
  };
  lexer = record {
    casefold = λ s. s;
    search = λ pattern s. false;
    tokens = λ s. some (words s);
    plain_tokens = words;
    is_alnum = λ s. true;
  };
  writes = record { candidate_report_paths = []; read_only_repositories = [] };
  signature = λ call. call.name;
}

abbrev pub contract : Contract
contract = record {
  completion = record {
    min_tool_calls = 1;
    min_hypotheses = 1;
    min_rejected_hypotheses = 0;
    min_evidence = 0;
    required_evidence_sources = [];
    required_actions = "incident_observation" ∷ [];
    required_artifacts = ("REPORT.md", 4) ∷ [];
  };
  patch_repository = "";
  incident = record requirements { enabled = false };
  release = record {
    enabled = false;
    logical_tick_seconds = 60;
    horizon_ticks = 4;
    min_logical_ticks = 0;
    min_unique_observations = 0;
    required_decisions = [];
    require_snapshot_before_irreversible = false;
    require_containment = false;
    required_verification_modes = [];
    required_successful_verification_modes = [];
    required_verification_sequence = [];
  };
}

abbrev pub raised_limit : Override
raised_limit = record { name = "hard_tool_calls"; value = amount (whole 8) }

abbrev pub driver : Driver Script
driver = record {
  outside = outside;
  config = config;
  contract = contract;
  complete = λ e. elim e.world [
    | [] ↦ ([], [], failed "ProviderError: no answer")
    | (number, turn) ∷ rest ↦ (rest, number ∷ [], completed turn)
  ];
  overrides = λ w. raised_limit ∷ [];
  active_ms = λ w. 0;
  tell = λ w notice. w;
}

abbrev pub turn_of : List ToolCall → AssistantTurn
turn_of calls = record {
  content = "done";
  tool_calls = calls;
  invalid_tool_calls = 0;
  input_tokens = 10;
  output_tokens = 2;
  token_usage_available = true;
}

abbrev pub garbled : AssistantTurn
garbled = record (turn_of []) { invalid_tool_calls = 2 }

abbrev pub script : Script
script =
    (
      1,
      turn_of (
          call_of "observe_service" (("service", "relay") ∷ ("signal", "logs") ∷ [])
          ∷ call_of "read_file" (("path", "a.py") ∷ [])
          ∷ call_of "read_file" (("path", "b.py") ∷ [])
          ∷ call_of "record_hypothesis" (("key", "h1") ∷ ("statement", "x") ∷ [])
          ∷ []),
    )
    ∷ (2, turn_of [])
    ∷ (3, garbled)
    ∷ (
      4,
      turn_of (
          call_of "record_hypothesis" (
            ("key", "h1")
            ∷ ("statement", "x")
            ∷ ("status", "proposed")
            ∷ ("next_action", "look")
            ∷ [])
          ∷ call_of "release_status" []
          ∷ []),
    )
    ∷ (5, turn_of [])
    ∷ (6, turn_of [])
    ∷ []

abbrev pub started : Session Script
started = record {
  engine = record {
    world = script;
    faults = record { rules = []; pending_after = [] };
    incident = some (IncidentClock.init small_plan);
    release = none;
    store = empty_store;
    read_counts = [];
    write_counts = [];
    events = [];
    tool_calls = 0;
    tool_status_counts = [];
    workspace_dirty = false;
  };
  budget = record {
    soft_seconds = 10;
    hard_seconds = 20;
    soft_tool_calls = 2;
    hard_tool_calls = 4;
    soft_provider_requests = none;
    hard_provider_requests = none;
    soft_total_tokens = none;
    hard_total_tokens = none;
  };
  applied_budget_overrides = 0;
  soft_budget_warnings = [];
  finalization_nudge_sent = false;
  input_tokens = 0;
  output_tokens = 0;
  token_usage_available = true;
  provider_requests = 0;
  final_rejections = 0;
  invalid_tool_call_batches = 0;
  invalid_tool_calls = 0;
  completion_gaps = [];
  hard_budget_reasons = [];
  final_response = "";
}

abbrev pub whole_contract : Contract
whole_contract = record contract {
  incident = requirements;
  release = record contract.release { enabled = true };
}

abbrev pub fetching : ToolCall
fetching =
    call_of "exec_command" (("command", "make && A=1 /usr/bin/curl -s pkg") ∷ ("cwd", ".") ∷ [])

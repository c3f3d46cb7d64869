-- ===== src/Engine/Milestones.antt =====
-- `completion_actions_from_events` and `substantive_tool_call_count`
-- (apps/api/app/runner/engine.py): what a run's tool calls amount to.
use the_evil_repository.Prelude.{
  Dict, List, String, String-comparable, [], any, contains, if◌then◌else◌, join, map, min, not,
  occurs_in, put, starts_with, str_eq, words, ℕ, ◌++◌, ◌+◌, ◌||◌, ◌∷◌,
}
use the_evil_repository.Protocol.{ToolCall, argument}
use the_evil_repository.Completion.{gap_if}
use the_evil_repository.Engine.Guards.{Lexer, occurs_any}
use the_evil_repository.Engine.State.{
  Config, EngineEvent, incident_alert, increment, release_report, tool_call, tool_result,
}

abbrev pub named : String → List String → String → List String
named name names action = gap_if (contains name names) action

-- What the name of a tool alone shows.
unfoldable pub tool_actions : String → List String
tool_actions name =
    gap_if (starts_with name "browser_") "browser"
    ++ (named name ("incident_status" ∷ "observe_service" ∷ []) "incident_observation"
        ++ (named name ("incident_snapshot" ∷ []) "incident_snapshot"
            ++ (named name ("submit_incident_decision" ∷ []) "incident_decision"
                ++ (named name ("incident_verify" ∷ []) "recovery_verification"
                    ++ (named name ("registry_inspect" ∷ []) "registry_investigation"
                        ++ (named name ("provenance_query" ∷ []) "provenance_chain"
                            ++ (named name ("attestation_verify" ∷ []) "attestation_verification"
                                ++ (named name ("runtime_probe" ∷ []) "release_runtime_probe"
                                    ++ (named name ("release_snapshot" ∷ []) "release_snapshot"
                                        ++ (named name ("submit_release_decision" ∷ [])
                                              "release_decision"
                                            ++ named name ("release_verify" ∷ [])
                                                "release_self_verification"))))))))))

unfoldable pub release_actions : Lexer → ToolCall → List String
release_actions lexer call =
    let action = lexer.casefold (argument call "action" "") in
    if str_eq call.name "release_action"
    then named action ("pause_rollout" ∷ "quarantine_digest" ∷ "preserve_evidence" ∷ [])
        "release_containment"
      ++ named action ("clean_rebuild" ∷ "promote_digest" ∷ "rollback_to_digest" ∷ [])
          "release_recovery"
    else []

abbrev pub repositories : List String
repositories = "palimpsest" ∷ "foundry-control" ∷ "witness-ledger" ∷ []

abbrev pub contract_markers : List String
contract_markers = "contract-check" ∷ "contract_probe" ∷ "emit-handshake" ∷ "test:contract" ∷ []

abbrev pub ledger_markers : List String
ledger_markers = "evidence/graph/index" ∷ "ledger root" ∷ "ledger_root" ∷ "evidence-root" ∷ []

abbrev pub relay_markers : List String
relay_markers =
    "audit-relay" ∷ "audit:relay" ∷ "runtime/src/query" ∷ "runtime/src/lane" ∷ "runtime/src/policy"
    ∷ "runtime/src/routing" ∷ "runtime/src/codec" ∷ []

abbrev pub self_markers : List String
self_markers =
    "self-verify" ∷ "self:verify" ∷ "property failed" ∷ "mutation matrix" ∷ "source-contract"
    ∷ "verify_chain.py" ∷ "audit-release.py" ∷ []

-- What the text of a command shows.
unfoldable pub command_actions : Lexer → ToolCall → List String
command_actions lexer call =
    let command = lexer.casefold (argument call "command" "") in
    let cwd = lexer.casefold (argument call "cwd" "") in
    if not (str_eq call.name "exec_command")
    then []
    else (gap_if (any (λ r. occurs_in r command || occurs_in r cwd) repositories) "cross_repository"
        ++ (gap_if
              (lexer.search "\\bgit\\b[^\\n;&|]*(?:log|show|blame|bisect|rev-list|reflog)\\b"
                command)
              "git_history"
            ++ (gap_if (lexer.search "(?:^|[;&|()\\s])psql(?:\\s|$)" command) "postgresql"
                ++ (gap_if
                      (lexer.search "(?:^|[;&|()\\s])sqlite3(?:\\s|$)" command
                        || occurs_in "import sqlite3" command)
                      "sqlite"
                    ++ (gap_if (occurs_any contract_markers command) "runtime_verification"
                        ++ (gap_if (occurs_any ledger_markers command) "evidence_ledger"
                            ++ (gap_if (occurs_any relay_markers command) "relay_diagnostics"
                                ++ (gap_if
                                      (occurs_in "reasoning-gates/" command
                                        || occurs_in "reasoning-gates" cwd)
                                      "objective_reasoning"
                                    ++ gap_if (occurs_any self_markers command)
                                        "self_verification"))))))))

-- The tool calls among the events.
abbrev pub calls_of : List EngineEvent → List ToolCall
calls_of [] = []
calls_of (tool_call call ordinal ∷ events) = call ∷ calls_of events
calls_of (incident_alert tickets ∷ events) = calls_of events
calls_of (release_report tickets ∷ events) = calls_of events
calls_of (tool_result r ordinal ∷ events) = calls_of events

-- `completion_actions_from_events`; a set is a list whose repetitions do not matter.
unfoldable pub completion_actions : Lexer → List ToolCall → List String
completion_actions lexer [] = []
completion_actions lexer (call ∷ calls) =
    tool_actions call.name
    ++ (release_actions lexer call
        ++ (command_actions lexer call ++ completion_actions lexer calls))

-- `" ".join(command.split())` in place of the command.
unfoldable pub squeezed : ToolCall → ToolCall
squeezed call =
    if str_eq call.name "exec_command"
    then record call {
      arguments = put "command" (join " " (words (argument call "command" ""))) call.arguments;
    }
    else call

abbrev pub count_all : List String → Dict ℕ → Dict ℕ
count_all [] counter = counter
count_all (x ∷ xs) counter = count_all xs (increment x counter)

abbrev pub capped_sum : Dict ℕ → ℕ
capped_sum [] = 0
capped_sum ((key, n) ∷ rest) = min n 2 + capped_sum rest

-- `substantive_tool_call_count`
unfoldable pub substantive_tool_call_count : Config → List ToolCall → ℕ
unfolding squeezed
substantive_tool_call_count config calls =
    capped_sum (count_all (map (λ call. config.signature (squeezed call)) calls) [])

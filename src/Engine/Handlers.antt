-- ===== src/Engine/Handlers.antt =====
-- The handlers that write the investigation's tables, and those that pass a call to a director
-- (apps/api/app/runner/engine.py).
use the_evil_repository.Prelude.{
  Bool, List, String, String-comparable, [], all, contains, false, has_key, if◌then◌else◌, keys,
  lookup, none, some, str_eq, ◌&&◌, ◌++◌, ◌<>◌, ◌||◌, ◌∷◌,
}
use the_evil_repository.Protocol.{ToolCall, ToolResult, argument, end, message, millionths, ok}
use the_evil_repository.Investigation.Store.{
  Attempt, link_evidence, record_evidence, record_hypothesis, status_name, stored, value_error,
}
use the_evil_repository.Engine.State.{Config, Engine, Outcome, Outside, answered, raised}
use the_evil_repository.Incident.Execute as IncidentExecute
use the_evil_repository.Release.Execute as ReleaseExecute
use the_evil_repository.Release.Inspect as ReleaseInspect
use the_evil_repository.Engine.Sandboxed.{denial}

-- `ok`
unfoldable pub done_result : ToolCall → String → ToolResult
done_result call line = record {
  call_id = call.call_id;
  name = call.name;
  status = ok;
  output = message line;
  exit_code = none;
  truncated = false;
  metadata = end;
}

-- The call's arguments are among the function's, and none is missing.
unfoldable pub binds : List String → List String → ToolCall → Bool
binds required optional call =
    all (λ name. has_key name call.arguments) required
    && all (λ name. contains name (required ++ optional)) (keys call.arguments)

unfoldable pub reply_outcome : ReleaseInspect.Reply → Outcome
reply_outcome (ReleaseInspect.replied r) = answered r
reply_outcome (ReleaseInspect.key_error key) = raised ("KeyError: '" <> key <> "'")

module _ {W : Type 0} where
  -- The commit, or the rollback that the exception causes.
  unfoldable pub commit : Engine W → ToolCall → String → Attempt → Engine W × Outcome
  commit e call line (stored s) = (record e { store = s }, answered (done_result call line))
  commit e call line (value_error reason) = (e, raised ("ValueError: " <> reason))

  -- A function called with the call's arguments, which may not bind.
  unfoldable pub bound_call :
      Outside W → Engine W → ToolCall → Bool → String → Attempt → Engine W × Outcome
  bound_call outside e call bound line a =
      if bound then commit e call line a else (e, raised ("TypeError: " <> outside.type_error call))

  -- `_record_hypothesis`, `_record_evidence` and `_link_evidence`; the float is in its own field.
  unfoldable pub hypothesis_call : Outside W → Engine W → ToolCall → Engine W × Outcome
  hypothesis_call outside e call =
      bound_call outside e call
        (binds ("key" ∷ "statement" ∷ "status" ∷ "next_action" ∷ []) ("reason" ∷ []) call)
        "Hypothesis revision recorded."
        (record_hypothesis e.store (argument call "key" "") (argument call "statement" "")
          (argument call "status" "") call.confidence (lookup "next_action" call.arguments)
          (lookup "reason" call.arguments))

  unfoldable pub evidence_call : Outside W → Config → Engine W → ToolCall → Engine W × Outcome
  evidence_call outside config e call =
      bound_call outside e call
        (binds ("key" ∷ "source_type" ∷ "source_ref" ∷ "summary" ∷ []) [] call) "Evidence recorded."
        (record_evidence config.tools.host e.store (argument call "key" "")
          (argument call "source_type" "") (argument call "source_ref" "")
          (argument call "summary" "") call.confidence)

  unfoldable pub link_call : Outside W → Engine W → ToolCall → Engine W × Outcome
  link_call outside e call =
      bound_call outside e call
        (binds
          ("source_type" ∷ "source_key" ∷ "target_type" ∷ "target_key" ∷ "relation" ∷ "explanation"
            ∷ [])
          [] call)
        "Evidence graph edge recorded."
        (link_evidence e.store (argument call "source_type" "") (argument call "source_key" "")
          (argument call "target_type" "") (argument call "target_key" "")
          (argument call "relation" "") call.confidence (lookup "explanation" call.arguments))

  -- `_set_next_action`
  unfoldable pub next_action_call : Engine W → ToolCall → Engine W × Outcome
  next_action_call e call = elim (lookup "hypothesis_key" call.arguments) [
    | none ↦ (e, raised "KeyError: 'hypothesis_key'")
    | some key ↦ elim (lookup key e.store.hypotheses) [
      | none ↦ (e, raised "ValueError: Unknown hypothesis key")
      | some h ↦ elim (lookup "next_action" call.arguments) [
        | none ↦ (e, raised "KeyError: 'next_action'")
        | some next ↦ commit e call "Next action updated." (
            record_hypothesis e.store key h.statement (status_name h.status)
              (millionths h.confidence) (some next) (some "next action updated"))
      ]
    ]
  ]

  -- `_known_evidence_keys`, for the tools that are given it.
  unfoldable pub known_evidence_keys : Engine W → Bool → List String
  known_evidence_keys e wanted = if wanted then keys e.store.evidence else []

  unfoldable pub incident_context : Outside W → Engine W → ToolCall → IncidentExecute.Context
  incident_context outside e call =
      let state = outside.patch_state e.world in
      let verifies = str_eq call.name "incident_verify" in
      record {
        patch_valid = if verifies then some state.0 else none;
        scope_valid = if verifies then some state.1 else none;
        known_evidence_keys =
            known_evidence_keys e
              (str_eq call.name "incident_action" || str_eq call.name "submit_incident_decision");
      }

  unfoldable pub incident_call : Outside W → Config → Engine W → ToolCall → Engine W × Outcome
  incident_call outside config e call = elim e.incident [
    | none ↦ (e, answered (denial call "This Scenario does not expose an incident replay." end))
    | some d ↦
        let made =
          IncidentExecute.execute config.tools.host d call (incident_context outside e call) in
        (record e { incident = some made.0 }, answered made.1)
  ]

  unfoldable pub release_keys : Engine W → ToolCall → List String
  release_keys e call =
      known_evidence_keys e
        (str_eq call.name "release_action" || str_eq call.name "submit_release_decision")

  unfoldable pub release_call : Config → Engine W → ToolCall → Engine W × Outcome
  release_call config e call = elim e.release [
    | none ↦ (e, answered (denial call "This Scenario does not expose a release replay." end))
    | some d ↦
        let made = ReleaseExecute.execute config.tools.host d call (release_keys e call) in
        (record e { release = some made.0 }, reply_outcome made.1)
  ]

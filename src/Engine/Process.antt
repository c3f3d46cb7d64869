-- ===== src/Engine/Process.antt =====
-- `_process_tool_result`, which moves the directors' clocks, and the loop over the tool calls of a
-- turn (apps/api/app/runner/engine.py). Calls that may run at once are run in the order in which
-- they were submitted.
use the_evil_repository.Prelude.{
  Bool, List, String, String-comparable, [], contains, false, if◌then◌else◌, leb, none, some,
  str_eq, true, ℕ, ◌&&◌, ◌++◌, ◌+◌, ◌||◌, ◌∷◌,
}
use the_evil_repository.Protocol.{Fields, ToolCall, ToolResult, object, set_field}
use the_evil_repository.Engine.State.{
  Config, Engine, EngineEvent, Outside, incident_alert, increment, release_report, status_text,
  tool_call, tool_result,
}
use the_evil_repository.Engine.Execute.{execute}
use the_evil_repository.Incident.Clock as IncidentClock
use the_evil_repository.Release.Clock as ReleaseClock

-- `PARALLEL_SAFE_TOOLS`
unfoldable pub parallel_safe_tools : List String
parallel_safe_tools =
    "list_files" ∷ "read_file" ∷ "browser_search" ∷ "browser_open" ∷ "browser_find" ∷ []

unfoldable pub is_parallel_safe : ToolCall → Bool
unfolding parallel_safe_tools
is_parallel_safe call = contains call.name parallel_safe_tools

abbrev pub with_metadata : String → Fields → ToolResult → ToolResult
with_metadata key value r = record r { metadata = set_field key (object value) r.metadata }

abbrev pub alert_events : List String → List EngineEvent
alert_events [] = []
alert_events (x ∷ xs) = incident_alert (x ∷ xs) ∷ []

abbrev pub report_events : List String → List EngineEvent
report_events [] = []
report_events (x ∷ xs) = release_report (x ∷ xs) ∷ []

abbrev pub writes_workspace : ToolCall → ToolResult → Bool
writes_workspace call r =
    str_eq (status_text r.status) "ok"
    && (str_eq call.name "write_file" || str_eq call.name "exec_command")

module _ {W : Type 0} where
  unfoldable pub tick_incident : Engine W → ToolCall → ToolResult → Engine W × ToolResult
  tick_incident e call r = elim e.incident [
    | none ↦ (e, r)
    | some d ↦
        let moved = IncidentClock.advance d in
        (
          record e { incident = some moved.0; events = e.events ++ alert_events moved.1 },
          with_metadata "incident_state"
              (IncidentClock.advance_report call.name (status_text r.status) d) r,
        )
  ]

  unfoldable pub tick_release : Engine W → ToolCall → ToolResult → Engine W × ToolResult
  tick_release e call r = elim e.release [
    | none ↦ (e, r)
    | some d ↦
        let moved = ReleaseClock.advance d in
        (
          record e { release = some moved.0; events = e.events ++ report_events moved.1 },
          with_metadata "release_state"
              (ReleaseClock.advance_report call.name (status_text r.status) d) r,
        )
  ]

  -- `_process_tool_result`, less what it measures and shows.
  unfoldable pub process_tool_result : Engine W → ToolCall → ToolResult → ℕ → Engine W
  process_tool_result e call r ordinal =
      let first = tick_incident e call r in
      let second = tick_release first.0 call first.1 in
      record second.0 {
        workspace_dirty = writes_workspace call r || second.0.workspace_dirty;
        tool_status_counts = increment (status_text r.status) second.0.tool_status_counts;
        events = second.0.events ++ tool_result second.1 ordinal ∷ [];
      }

  -- `flush_parallel`: the pending calls are executed, then their results processed in order.
  unfoldable pub execute_all :
      Outside W
      → Config
      → Engine W
      → List (ToolCall × ℕ)
      → Engine W × List (ToolCall × ℕ × ToolResult)
  execute_all outside config e [] = (e, [])
  execute_all outside config e ((call, ordinal) ∷ pending) =
      let first = execute outside config e call in
      let rest = execute_all outside config first.0 pending in
      (rest.0, (call, ordinal, first.1) ∷ rest.1)

  unfoldable pub process_all : Engine W → List (ToolCall × ℕ × ToolResult) → Engine W
  process_all e [] = e
  process_all e ((call, ordinal, r) ∷ rest) =
      process_all (process_tool_result e call r ordinal) rest

  unfoldable pub flush_parallel : Outside W → Config → Engine W → List (ToolCall × ℕ) → Engine W
  flush_parallel outside config e pending =
      let made = execute_all outside config e pending in process_all made.0 made.1

  -- The count of a call and its event.
  unfoldable pub announce : Engine W → ToolCall → Engine W
  announce e call = record e {
    tool_calls = 1 + e.tool_calls;
    events = e.events ++ tool_call call (1 + e.tool_calls) ∷ [];
  }

  unfoldable pub run_now : Outside W → Config → Engine W → ToolCall → Engine W
  run_now outside config e call =
      let made = execute outside config e call in
      process_tool_result made.0 call made.1 e.tool_calls

  -- One round of the loop over `turn.tool_calls`, for a call that the budget admits.
  unfoldable pub run_call :
      Outside W
      → Config
      → Engine W × List (ToolCall × ℕ)
      → ToolCall
      → Engine W × List (ToolCall × ℕ)
  run_call outside config (e, pending) call =
      if is_parallel_safe call
      then (announce e call, pending ++ (call, 1 + e.tool_calls) ∷ [])
      else (
        run_now outside config (announce (flush_parallel outside config e pending) call) call,
        [],
      )

  -- The loop over `turn.tool_calls` up to the hard budget, and the last flush. The flag says that
  -- the run was cancelled.
  unfoldable pub run_calls :
      Outside W → Config → ℕ → Engine W × List (ToolCall × ℕ) → List ToolCall → Engine W × Bool
  run_calls outside config hard (e, pending) [] = (flush_parallel outside config e pending, false)
  run_calls outside config hard (e, pending) (call ∷ calls) =
      let waited = outside.resume e.world in
      let next : Engine W = record e { world = waited.0 } in
      let rest =
        run_calls outside config hard (run_call outside config (next, pending) call) calls in
      if leb hard e.tool_calls
      then (flush_parallel outside config e pending, false)
      else (if waited.1 then rest else (flush_parallel outside config next pending, true))

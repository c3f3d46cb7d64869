-- ===== src/Engine/State.antt =====
-- The state of the engine that its tool calls read and write (apps/api/app/runner/engine.py), and
-- what stands around it: the sandbox, the offline browser and the interpreter.
use the_evil_repository.Prelude.{Bool, Dict, List, Option, String, get_or_else, lookup, put, ℕ, ◌+◌}
use the_evil_repository.Protocol.{Status, ToolCall, ToolResult, denied, error, ok, timeout}
use the_evil_repository.Investigation.Store.{Store}
use the_evil_repository.Faults.Rules.{Tools}
use the_evil_repository.Faults.Controller.{Controller}
use the_evil_repository.Engine.Guards.{Lexer, WritePolicy}
use the_evil_repository.Incident.State as IncidentState
use the_evil_repository.Release.State as ReleaseState

-- A result, or an exception: its type and its text.
pub data Outcome : Type 0 where
  answered : ToolResult → Outcome
  raised : String → Outcome

-- The sandbox and the browser change a world that the engine does not look into. `patch_state` is
-- what the sandbox's two checks of the candidate's patch say; `type_error` is the text of the
-- TypeError for arguments that a function does not take; `resume` is `_wait_for_resume`, which
-- waits while the run is paused and tells whether it goes on; `collect_text` reads an artifact.
pub record Outside (W : Type 0) : Type 0 where
  pub sandbox : W → ToolCall → W × Outcome
  pub browser : W → ToolCall → W × Outcome
  pub patch_state : W → Bool × Bool
  pub type_error : ToolCall → String
  pub resume : W → W × Bool
  pub collect_text : W → String → String

-- What does not change during a run. `signature` is the canonical JSON of a call's name and
-- arguments.
pub record Config : Type 0 where
  pub tools : Tools
  pub lexer : Lexer
  pub writes : WritePolicy
  pub signature : ToolCall → String

-- The events that the engine appends while it makes tool calls.
pub data EngineEvent : Type 0 where
  tool_call : ToolCall → ℕ → EngineEvent
  incident_alert : List String → EngineEvent
  release_report : List String → EngineEvent
  tool_result : ToolResult → ℕ → EngineEvent

pub record Engine (W : Type 0) : Type 0 where
  pub world : W
  pub faults : Controller
  pub incident : Option IncidentState.Director
  pub release : Option ReleaseState.Director
  pub store : Store
  pub read_counts : Dict ℕ
  pub write_counts : Dict ℕ
  pub events : List EngineEvent
  pub tool_calls : ℕ
  pub tool_status_counts : Dict ℕ
  pub workspace_dirty : Bool

-- `counter[key]` and `counter[key] += 1`
abbrev pub tally : String → Dict ℕ → ℕ
tally key counter = get_or_else 0 (lookup key counter)

abbrev pub increment : String → Dict ℕ → Dict ℕ
increment key counter = put key (1 + tally key counter) counter

abbrev pub status_text : Status → String
status_text ok = "ok"
status_text error = "error"
status_text timeout = "timeout"
status_text denied = "denied"

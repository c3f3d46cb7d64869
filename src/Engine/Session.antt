-- ===== src/Engine/Session.antt =====
-- The state of `run`, and what drives it (apps/api/app/runner/engine.py).
use the_evil_repository.Prelude.{Bool, List, String, ℕ}
use the_evil_repository.Protocol.{ToolCall}
use the_evil_repository.Engine.State.{Config, Engine, Outside}
use the_evil_repository.Engine.Gaps.{Contract}
use the_evil_repository.Engine.Budget.{BudgetSpec, Override}

-- `AssistantTurn`; of the tool calls that did not decode only the number is kept.
pub record AssistantTurn : Type 0 where
  pub content : String
  pub tool_calls : List ToolCall
  pub invalid_tool_calls : ℕ
  pub input_tokens : ℕ
  pub output_tokens : ℕ
  pub token_usage_available : Bool

-- What `_complete_model_turn` ends in, if no request exceeds the limit.
pub data Completion : Type 0 where
  completed : AssistantTurn → Completion
  failed : String → Completion

-- What the loop appends to the messages as the user.
pub data Notice : Type 0 where
  soft_warning : List String → Notice
  finalization : List String → List String → Notice
  protocol_repair : Notice
  final_rejected : List String → Notice

-- The model's provider, the overrides in the database, and the clock in milliseconds of activity.
-- A completion comes with the numbers of the requests that it makes.
pub record Driver (W : Type 0) : Type 0 where
  pub outside : Outside W
  pub config : Config
  pub contract : Contract
  pub complete : Engine W → W × List ℕ × Completion
  pub overrides : W → List Override
  pub active_ms : W → ℕ
  pub tell : W → Notice → W

pub record Session (W : Type 0) : Type 0 where
  pub engine : Engine W
  pub budget : BudgetSpec
  pub applied_budget_overrides : ℕ
  pub soft_budget_warnings : List String
  pub finalization_nudge_sent : Bool
  pub input_tokens : ℕ
  pub output_tokens : ℕ
  pub token_usage_available : Bool
  pub provider_requests : ℕ
  pub final_rejections : ℕ
  pub invalid_tool_call_batches : ℕ
  pub invalid_tool_calls : ℕ
  pub completion_gaps : List String
  pub hard_budget_reasons : List String
  pub final_response : String

-- A round of the loop goes on to the next, breaks, or raises.
pub data Round (W : Type 0) : Type 0 where
  again : Session W → Round W
  breaks : Session W → Round W
  raises : String → Session W → Round W

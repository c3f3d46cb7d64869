-- ===== src/Engine/Loop.antt =====
-- The main loop of `run` (apps/api/app/runner/engine.py). The provider answers from the whole state
-- of the engine: the conversation is in its events and in the world, which is told the notices.
use the_evil_repository.Prelude.{
  Bool, List, Option, String, [], if◌then◌else◌, join, keep, leb, length, ltb, max, none, not, some,
  str_eq, suc, true, zero, ℕ, ◌&&◌, ◌*◌, ◌++◌, ◌+◌, ◌<>◌, ◌==◌, ◌∷◌,
}
use the_evil_repository.Protocol.{ToolCall}
use the_evil_repository.Engine.Process.{run_calls}
use the_evil_repository.Engine.Gaps.{completion_gaps}
use the_evil_repository.Engine.Gaps as EngineGaps
use the_evil_repository.Engine.Budget.{drop_first, overridden}
use the_evil_repository.Engine.Limits.{
  Usage, count_requests, hard_resource_reasons, newly_crossed, triggered_by,
}
use the_evil_repository.Engine.Session.{
  AssistantTurn, Driver, Round, Session, again, breaks, completed, failed, final_rejected,
  finalization, protocol_repair, raises, soft_warning,
}

abbrev pub max_invalid_tool_call_batches : ℕ
max_invalid_tool_call_batches = 8

module _ {W : Type 0} (driver : Driver W) where
  abbrev pub with_world : Session W → W → Session W
  with_world s w = record s { engine = record s.engine { world = w } }

  unfoldable pub usage : Session W → Usage
  usage s = record {
    active_ms = driver.active_ms s.engine.world;
    tool_calls = s.engine.tool_calls;
    provider_requests = s.provider_requests;
    total_tokens = s.input_tokens + s.output_tokens;
    token_usage_available = s.token_usage_available;
  }

  unfoldable pub gaps : Session W → List String
  gaps s = EngineGaps.completion_gaps driver.outside driver.config driver.contract s.engine

  -- `_apply_budget_overrides`
  unfoldable pub apply_budget_overrides : Session W → Session W
  apply_budget_overrides s =
      let all = driver.overrides s.engine.world in
      record s {
        budget = overridden s.budget (drop_first s.applied_budget_overrides all);
        applied_budget_overrides = max s.applied_budget_overrides (length all);
      }

  -- `_soft_budget_warning`
  unfoldable pub warn : Session W → Session W
  warn s =
      let crossed = newly_crossed s.budget (usage s) s.soft_budget_warnings in
      elim crossed [
        | [] ↦ s
        | x ∷ xs ↦
            with_world (record s { soft_budget_warnings = s.soft_budget_warnings ++ x ∷ xs })
              (driver.tell s.engine.world (soft_warning (x ∷ xs)))
      ]

  -- `_finalization_nudge`
  unfoldable pub nudge : Session W → Session W
  nudge s =
      let triggered = triggered_by s.budget (usage s) in
      if s.finalization_nudge_sent then s else (elim triggered [
        | [] ↦ s
        | x ∷ xs ↦
            with_world (record s { finalization_nudge_sent = true })
              (driver.tell s.engine.world (finalization (x ∷ xs) (gaps s)))
      ])

  -- The condition of the loop.
  unfoldable pub may_go_on : Session W → Bool
  may_go_on s =
      ltb s.engine.tool_calls s.budget.hard_tool_calls
      && ltb (driver.active_ms s.engine.world) (1000 * s.budget.hard_seconds)

  -- The `else` of the loop.
  unfoldable pub exhausted : Session W → Session W
  exhausted s = record s {
    hard_budget_reasons =
        keep
          (λ name.
            if str_eq name "tool_calls"
            then leb s.budget.hard_tool_calls s.engine.tool_calls
            else leb (1000 * s.budget.hard_seconds) (driver.active_ms s.engine.world))
          ("tool_calls" ∷ "active_time" ∷ []);
    final_response = "Hard scenario budget reached before a final response.";
  }

  unfoldable pub cancelled : Session W → Round W
  cancelled s = breaks (record s { final_response = "Run cancelled." })

  -- A response whose native tool calls did not decode.
  unfoldable pub reject_invalid : Session W → AssistantTurn → Round W
  reject_invalid s turn =
      let counted : Session W = record s {
        invalid_tool_call_batches = suc s.invalid_tool_call_batches;
        invalid_tool_calls = turn.invalid_tool_calls + s.invalid_tool_calls;
      } in
      if leb max_invalid_tool_call_batches (suc s.invalid_tool_call_batches)
      then breaks (record counted {
        final_response =
            "The model repeatedly returned malformed native tool arguments. No malformed call was executed.";
      })
      else again (with_world counted (driver.tell s.engine.world protocol_repair))

  -- A response without tool calls is an attempt to finish.
  unfoldable pub finish : Session W → AssistantTurn → Round W
  finish s turn =
      let found = gaps s in
      let seen : Session W = record s { completion_gaps = found } in
      elim found [
        | [] ↦ breaks (record seen { final_response = turn.content })
        | x ∷ xs ↦
            if ltb s.final_rejections 8
            then again (
                with_world (record seen { final_rejections = suc s.final_rejections })
                  (driver.tell s.engine.world (final_rejected (x ∷ xs))))
            else breaks (record seen {
              final_response =
                  "Scenario completion contract was not satisfied after repeated early final attempts. Outstanding: "
                  <> join "; " (x ∷ xs);
            })
      ]

  unfoldable pub make_calls : Session W → List ToolCall → Round W
  make_calls s calls =
      let made =
        run_calls driver.outside driver.config s.budget.hard_tool_calls (s.engine, []) calls in
      let after : Session W = record s { engine = made.0 } in
      if made.1 then cancelled after else again after

  -- An accepted response, once the run is not paused.
  unfoldable pub accept : Session W → AssistantTurn → Round W
  accept s turn =
      let waited = driver.outside.resume s.engine.world in
      let next = with_world s waited.0 in
      if not waited.1 then cancelled next else (elim turn.tool_calls [
        | [] ↦ finish next turn
        | call ∷ calls ↦ make_calls next (call ∷ calls)
      ])

  unfoldable pub respond : Session W → AssistantTurn → Round W
  respond s turn =
      let counted : Session W = record s {
        input_tokens = s.input_tokens + turn.input_tokens;
        output_tokens = s.output_tokens + turn.output_tokens;
        token_usage_available = s.token_usage_available && turn.token_usage_available;
      } in
      elim (hard_resource_reasons s.budget (usage counted)) [
        | x ∷ xs ↦ breaks (record counted {
          hard_budget_reasons = x ∷ xs;
          final_response =
              "Hard resource budget reached before the model response could be accepted.";
        })
        | [] ↦
            if turn.invalid_tool_calls == 0
            then accept counted turn
            else reject_invalid counted turn
      ]

  -- The model's turn.
  unfoldable pub ask : Session W → Round W
  ask s =
      let (w, numbers, reply) = driver.complete s.engine in
      let counted = count_requests s.budget.hard_provider_requests s.provider_requests numbers in
      let next = with_world (record s { provider_requests = counted.0 }) w in
      if counted.1
      then breaks (record next {
        hard_budget_reasons = "provider_requests" ∷ [];
        final_response =
            "Hard Provider-request budget reached before the current model turn could complete.";
      })
      else (elim reply [ failed reason ↦ raises reason next | completed turn ↦ respond next turn ])

  -- One round, for a budget that is not exhausted.
  unfoldable pub round : Session W → Round W
  round s =
      let waited = driver.outside.resume s.engine.world in
      let next = with_world s waited.0 in
      if waited.1 then ask (nudge (warn (apply_budget_overrides next))) else cancelled next

  -- The loop; none when the fuel runs out.
  unfoldable pub loop : ℕ → Session W → Option (Round W)
  loop zero s = none
  loop (suc fuel) s = if not (may_go_on s) then some (breaks (exhausted s)) else (elim (round s) [
    | again t ↦ loop fuel t
    | breaks t ↦ some (breaks t)
    | raises reason t ↦ some (raises reason t)
  ])

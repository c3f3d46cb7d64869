-- ===== src/Engine/Tests.antt =====
-- A short run with an incident director and a provider that follows a script
-- (apps/api/app/runner/engine.py).
use the_evil_repository.Prelude.{
  All, Dict, Option, String, [], arith, decimal, false, is_space, none, padded, refl, some, strip,
  true, words, ℕ, ◌↔◌, ◌∷◌, ◌≡◌,
}
use the_evil_repository.Protocol.{argument}
use the_evil_repository.Incident.Samples.{plain}
use the_evil_repository.Incident.Clock as IncidentClock
use the_evil_repository.Incident.Gaps as IncidentGaps
use the_evil_repository.Release.Audit as ReleaseAudit
use the_evil_repository.Engine.Gaps as EngineGaps
use the_evil_repository.Incident.State.{Director}
use the_evil_repository.Incident.Execute as IncidentExecute
use the_evil_repository.Investigation.Store.{record_hypothesis}
use the_evil_repository.Engine.Gaps.{artifact_text, completion_gaps, director_gaps, rejected_count}
use the_evil_repository.Engine.Budget.{
  apply_each, is_ordered, ordered_only, overridden, request_draft, requested_draft, set_amount,
  validated,
}
use the_evil_repository.Engine.Overrides.{IsBounded, RequestWithin, Within}
use the_evil_repository.Engine.Process.{
  announce, execute_all, flush_parallel, is_parallel_safe, parallel_safe_tools, process_all,
  process_tool_result, run_call, run_calls, run_now, tick_incident, tick_release,
}
use the_evil_repository.Engine.Execute.{dispatch, execute, route, settled, with_fault}
use the_evil_repository.Engine.Sandboxed.{
  after_sandbox, count_access, denial, guard, path_was_observed, use_sandbox,
}
use the_evil_repository.Engine.Handlers.{
  binds, bound_call, commit, done_result, hypothesis_call, incident_call, incident_context,
  known_evidence_keys, release_call,
}
use the_evil_repository.Engine.Milestones.{
  command_actions, completion_actions, release_actions, squeezed, substantive_tool_call_count,
  tool_actions,
}
use the_evil_repository.Incident.Probes.{observability}
use the_evil_repository.Incident.Observe.{json_result, next_observation_id, observe, observed}
use the_evil_repository.Engine.Limits.{
  count_requests, hard_resource_reasons, is_crossed, is_triggered, newly_crossed, triggered_by,
}
use the_evil_repository.Engine.Session.{Round}
use the_evil_repository.Engine.Loop.{
  accept, apply_budget_overrides, ask, exhausted, finish, gaps, loop, make_calls, may_go_on, nudge,
  reject_invalid, respond, round, usage, warn,
}
use the_evil_repository.Engine.Ends.{LoopEnds, loop-Drives, loop-Ends, session_of}
use the_evil_repository.Engine.Samples.{
  Script, config, driver, fetching, outside, started, whole_contract,
}
use the_evil_repository.Engine.Commands.{Launches}
use the_evil_repository.Engine.Contained.{
  IsProbe, boundary_violation-IsProbe, execute-IsBarred, launch, probe,
}
use the_evil_repository.Engine.Visible.{
  Answer, cache_after, limited_output, model_visible_result, repeat_summary, shrink_tail,
  truncate_output, truncation_marker,
}
use the_evil_repository.Engine.Shown.{IsShown, model_visible_result-IsShown}
use the_evil_repository.Engine.Finish.{IsFinished, completion_gaps-IsFinished}
use the_evil_repository.Engine.Directed.{Directed}
use the_evil_repository.Faults.Controller.{Controller, after, before, consult}
use the_evil_repository.Engine.Guards.{boundary_violation, is_assignment, is_forbidden, is_operator}

abbrev tick_of : Option Director → ℕ
tick_of none = 0
tick_of (some d) = d.tick

abbrev summary : Option (Round Script) → Option (String × ℕ × ℕ × ℕ × Dict ℕ × ℕ × ℕ)
summary none = none
summary (some r) =
    let s = session_of r in
    some (
      s.final_response,
      s.final_rejections,
      s.invalid_tool_call_batches,
      s.engine.tool_calls,
      s.engine.tool_status_counts,
      s.budget.hard_tool_calls,
      tick_of s.engine.incident,
    )

-- What the tests compute with.
runs : Unit {0}
unfolding loop round ask respond accept reject_invalid make_calls finish exhausted may_go_on nudge
    warn apply_budget_overrides gaps usage count_requests hard_resource_reasons newly_crossed
    triggered_by is_crossed is_triggered overridden apply_each requested_draft request_draft
    set_amount validated ordered_only is_ordered run_calls run_call run_now announce flush_parallel
    execute_all process_all process_tool_result tick_incident tick_release is_parallel_safe
    parallel_safe_tools execute with_fault dispatch route settled before after consult use_sandbox
    guard after_sandbox count_access path_was_observed hypothesis_call bound_call binds commit
    done_result incident_call incident_context known_evidence_keys release_call denial
    record_hypothesis EngineGaps.completion_gaps director_gaps rejected_count artifact_text
    completion_actions tool_actions release_actions command_actions substantive_tool_call_count
    squeezed IncidentExecute.execute IncidentExecute.handle IncidentExecute.find_handler observe
    observability observed json_result IncidentClock.advance IncidentClock.sample
    IncidentClock.slo_at IncidentClock.init IncidentClock.phase_at strip decimal padded
    next_observation_id IncidentGaps.completion_gaps ReleaseAudit.completion_gaps
runs = tt

-- A call that lacks an argument, a finish that comes too early and garbled calls are survived; the
-- two reads run together, after the call before them.
started-finishes :
    summary (loop driver 40 started)
    ≡ some ("done", 1, 1, 6, ("ok", 4) ∷ ("error", 1) ∷ ("denied", 1) ∷ [], 8, 6)
unfolding runs
started-finishes = refl

driver-IsBounded : (w : Script) → All (IsBounded 8) (driver.overrides w)
unfolding IsBounded RequestWithin Within
driver-IsBounded w = (λ p. omega arith, tt)

loop-Ends_example : LoopEnds driver 8 started
loop-Ends_example = loop-Ends driver 8 driver-IsBounded started (omega arith) (omega arith)

loop-Drives_example :
    (last : Round Script) × (loop driver 40 started ≡ some last)
    × (n : ℕ) × Directed plain n n started.engine (session_of last).engine
loop-Drives_example =
    loop-Drives driver 8 driver-IsBounded started (omega arith) (omega arith) 40 (omega arith)

completion_gaps-IsFinished_example :
    (completion_gaps outside config whole_contract started.engine ≡ [])
    ↔ IsFinished outside config whole_contract started.engine
completion_gaps-IsFinished_example =
    completion_gaps-IsFinished outside config whole_contract started.engine refl refl

fetching-Launches : Launches config.lexer true (words (argument fetching "command" ""))
unfolding is_operator is_assignment is_forbidden is_space
fetching-Launches = record {
  before = "make" ∷ "&&" ∷ [];
  settings = "A=1" ∷ [];
  program = "/usr/bin/curl";
  rest = "-s" ∷ "pkg" ∷ [];
  split = refl;
  starts = refl;
  set = ((refl, refl), tt);
  is_word = refl;
  is_run = refl;
  forbidden = refl;
}

boundary_violation-IsProbe_example :
    (boundary_violation config.lexer "A=1 curl" ≡ true) ↔ IsProbe config.lexer "A=1 curl"
boundary_violation-IsProbe_example = boundary_violation-IsProbe config.lexer "A=1 curl"

execute-IsBarred_example :
    (f : Controller) × ((execute outside config started.engine fetching).0
      ≡ record started.engine { faults = f })
execute-IsBarred_example =
    execute-IsBarred outside config started.engine fetching (probe refl (launch fetching-Launches))

abbrev listing : ℕ → Answer
listing ordinal = record {
  name = "list_files";
  output = "a long list of the files of a workspace";
  truncated = false;
  signature = "list_files";
  ordinal = ordinal;
}

-- The first listing is cut, the second refers to it.
listing-shown :
    ((model_visible_result 36 [] (listing 1)).1.output
      ≡ "a long list of the fi\n[truncated 18 bytes]\n")
    × ((model_visible_result 36 (cache_after 36 [] (listing 1 ∷ [])) (listing 2)).1.deduplicated
        ≡ true)
unfolding model_visible_result cache_after limited_output truncate_output shrink_tail
    truncation_marker repeat_summary parallel_safe_tools decimal
listing-shown = (refl, refl)

model_visible_result-IsShown_example :
    IsShown 36
      (listing 1 ∷ [])
      (listing 2)
      (model_visible_result 36 (cache_after 36 [] (listing 1 ∷ [])) (listing 2)).1
model_visible_result-IsShown_example = model_visible_result-IsShown 36 (listing 1 ∷ []) (listing 2)

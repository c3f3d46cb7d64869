-- ===== src/Engine/Batches.antt =====
-- The tool calls of a turn against the directors' own runs (apps/api/app/runner/engine.py).
use the_evil_repository.Prelude.{
  Bool, List, [], ap, arith, if_rule, leb, length, length-append, option_rule, refl, suc, ℕ, ◌+◌,
  ◌∙◌, ◌∷◌, ◌≡◌,
}
use the_evil_repository.Protocol.{ToolCall, ToolResult}
use the_evil_repository.Engine.State.{Config, Engine, Outside}
use the_evil_repository.Engine.Execute.{execute}
use the_evil_repository.Engine.Process.{
  announce, execute_all, flush_parallel, is_parallel_safe, process_all, process_tool_result,
  run_call, run_calls, run_now, tick_incident, tick_release,
}
use the_evil_repository.Engine.Directed.{
  Directed, mapped, mapped-same, recount, then-Directed, untouched,
}
use the_evil_repository.Engine.Driven.{execute-Directed}
use the_evil_repository.Incident.Clock as IncidentClock
use the_evil_repository.Release.Clock as ReleaseClock
use the_evil_repository.Incident.Execute as IncidentExecute
use the_evil_repository.Release.Execute as ReleaseExecute

module _ {W : Type 0} (outside : Outside W) (config : Config) where
  -- What a step leaves of the other director, and of the count.
  record TicksIncident (e after : Engine W) : Type 0 where
    moves : after.incident ≡ mapped (λ d. (IncidentClock.advance d).0) e.incident
    keeps : after.release ≡ e.release
    counts : after.tool_calls ≡ e.tool_calls

  record TicksRelease (e after : Engine W) : Type 0 where
    moves : after.release ≡ mapped (λ d. (ReleaseClock.advance d).0) e.release
    keeps : after.incident ≡ e.incident
    counts : after.tool_calls ≡ e.tool_calls

  tick_incident-TicksIncident :
      (e : Engine W) (call : ToolCall) (r : ToolResult) → TicksIncident e (tick_incident e call r).0
  unfolding tick_incident
  tick_incident-TicksIncident e call r =
      option_rule (λ (x : Engine W × ToolResult). TicksIncident e x.0) e.incident
        (λ p. record { moves = rw p refl; keeps = refl; counts = refl })
        (λ d p. record { moves = rw p refl; keeps = refl; counts = refl })

  tick_release-TicksRelease :
      (e : Engine W) (call : ToolCall) (r : ToolResult) → TicksRelease e (tick_release e call r).0
  unfolding tick_release
  tick_release-TicksRelease e call r =
      option_rule (λ (x : Engine W × ToolResult). TicksRelease e x.0) e.release
        (λ p. record { moves = rw p refl; keeps = refl; counts = refl })
        (λ d p. record { moves = rw p refl; keeps = refl; counts = refl })

  -- The processing of a result is one tick of each director.
  process_tool_result-Directed :
      (e : Engine W) (call : ToolCall) (r : ToolResult) (ordinal : ℕ)
      → Directed config.tools.host 1 0 e (process_tool_result e call r ordinal)
  unfolding process_tool_result IncidentExecute.run IncidentExecute.step ReleaseExecute.run
      ReleaseExecute.step
  process_tool_result-Directed e call r ordinal =
      let first = tick_incident e call r in
      let a = tick_incident-TicksIncident e call r in
      let b = tick_release-TicksRelease first.0 call first.1 in
      record {
        incident_events = IncidentExecute.ticked ∷ [];
        release_events = ReleaseExecute.ticked ∷ [];
        incident_ticks = refl;
        release_ticks = refl;
        counted = omega (arith, a.counts, b.counts);
        incident_runs = b.keeps ∙ a.moves;
        release_runs = b.moves ∙ ap (mapped (λ d. (ReleaseClock.advance d).0)) a.keeps;
      }

  execute_all-Directed :
      (e : Engine W) (pending : List (ToolCall × ℕ))
      → Directed config.tools.host 0 0 e (execute_all outside config e pending).0
  unfolding execute_all
  execute_all-Directed e [] = untouched config.tools.host e e refl refl refl
  execute_all-Directed e ((call, ordinal) ∷ pending) =
      then-Directed config.tools.host 0 0 0 0 (execute-Directed outside config e call)
        (execute_all-Directed (execute outside config e call).0 pending)

  length-execute_all :
      (e : Engine W) (pending : List (ToolCall × ℕ))
      → length (execute_all outside config e pending).1 ≡ length pending
  unfolding execute_all
  length-execute_all e [] = refl
  length-execute_all e ((call, ordinal) ∷ pending) =
      ap suc (length-execute_all (execute outside config e call).0 pending)

  process_all-Directed :
      (e : Engine W) (results : List (ToolCall × ℕ × ToolResult))
      → Directed config.tools.host (length results) 0 e (process_all e results)
  unfolding process_all
  process_all-Directed e [] = untouched config.tools.host e e refl refl refl
  process_all-Directed e ((call, ordinal, r) ∷ rest) =
      recount config.tools.host (omega arith) (omega arith) (
        then-Directed config.tools.host 1 (length rest) 0 0
          (process_tool_result-Directed e call r ordinal)
          (process_all-Directed (process_tool_result e call r ordinal) rest))

  pub flush_parallel-Directed :
      (e : Engine W) (pending : List (ToolCall × ℕ))
      → Directed config.tools.host (length pending) 0 e (flush_parallel outside config e pending)
  unfolding flush_parallel
  flush_parallel-Directed e pending =
      let made = execute_all outside config e pending in
      let both : Directed config.tools.host (0 + length made.1) 0 e (process_all made.0 made.1) =
        then-Directed config.tools.host 0 (length made.1) 0 0 (execute_all-Directed e pending)
          (process_all-Directed made.0 made.1) in
      recount config.tools.host (omega (arith, length-execute_all e pending)) refl both

  run_now-Directed :
      (e : Engine W) (call : ToolCall)
      → Directed config.tools.host 1 0 e (run_now outside config e call)
  unfolding run_now
  run_now-Directed e call =
      then-Directed config.tools.host 0 1 0 0 (execute-Directed outside config e call) (
        process_tool_result-Directed (execute outside config e call).0 call
          (execute outside config e call).1 e.tool_calls)

  announce-Directed :
      (e : Engine W) (call : ToolCall) → Directed config.tools.host 0 1 e (announce e call)
  unfolding announce IncidentExecute.run ReleaseExecute.run
  announce-Directed e call = record {
    incident_events = [];
    release_events = [];
    incident_ticks = refl;
    release_ticks = refl;
    counted = refl;
    incident_runs = mapped-same _ e.incident (λ a. refl);
    release_runs = mapped-same _ e.release (λ a. refl);
  }

  -- A call that may wait for others is counted now and ticks later.
  pub run_call-Directed :
      (e : Engine W) (pending : List (ToolCall × ℕ)) (call : ToolCall)
      → (n : ℕ) × (n + length (run_call outside config (e, pending) call).1 ≡ suc (length pending))
        × Directed config.tools.host n 1 e (run_call outside config (e, pending) call).0
  unfolding run_call
  run_call-Directed e pending call =
      if_rule
        (λ (x : Engine W × List (ToolCall × ℕ)).
          (n : ℕ) × (n + length x.1 ≡ suc (length pending)) × Directed config.tools.host n 1 e x.0)
        (is_parallel_safe call)
        (λ p. (
          0,
          omega (arith, length-append pending ((call, 1 + e.tool_calls) ∷ [])),
          announce-Directed e call,
        ))
        (λ p.
          let flushed = flush_parallel outside config e pending in
          (
            length pending + (0 + 1),
            omega arith,
            then-Directed config.tools.host (length pending) 1 0 1
                (flush_parallel-Directed e pending)
                (then-Directed config.tools.host 0 1 1 0 (announce-Directed flushed call)
                  (run_now-Directed (announce flushed call) call)),
          ))

  -- Each counted call is one tick of each director, as is each call that was pending.
  pub run_calls-Directed :
      (hard : ℕ) (e : Engine W) (pending : List (ToolCall × ℕ)) (calls : List ToolCall)
      → (k : ℕ) × Directed config.tools.host
          (length pending + k)
          k
          e
          (run_calls outside config hard (e, pending) calls).0
  unfolding run_calls
  run_calls-Directed hard e pending [] =
      (0, recount config.tools.host (omega arith) refl (flush_parallel-Directed e pending))
  run_calls-Directed hard e pending (call ∷ calls) =
      let host = config.tools.host in
      let waited = outside.resume e.world in
      let next : Engine W = record e { world = waited.0 } in
      let moved = untouched host e next refl refl refl in
      let made = run_call outside config (next, pending) call in
      let (n, sum, first) = run_call-Directed next pending call in
      let (k, rest) = run_calls-Directed hard made.0 made.1 calls in
      let leads = λ (x : Engine W × Bool). (k : ℕ) × Directed host (length pending + k) k e x.0 in
      if_rule leads (leb hard e.tool_calls)
        (λ p. (0, recount host (omega arith) refl (flush_parallel-Directed e pending)))
        (λ p.
          if_rule leads waited.1
            (λ q. (
              suc k,
              recount host (omega (arith, sum)) (omega arith) (
                  then-Directed host 0 (n + (length made.1 + k)) 0 (k + 1) moved
                    (then-Directed host n (length made.1 + k) 1 k first rest)),
            ))
            (λ q. (
              0,
              recount host (omega arith) (omega arith) (
                  then-Directed host 0 (length pending) 0 0 moved
                    (flush_parallel-Directed next pending)),
            )))

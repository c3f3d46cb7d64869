-- ===== src/Engine/Counting.antt =====
-- The tool calls of a turn against the hard budget (apps/api/app/runner/engine.py).
use the_evil_repository.Prelude.{
  Bool, List, [], arith, false, if_rule, inl, inr, leb, leb→le, max, ℕ, ◌+◌, ◌<◌, ◌∷◌, ◌≡◌, ◌≤◌,
  ◌⊎◌,
}
use the_evil_repository.Protocol.{ToolCall}
use the_evil_repository.Engine.State.{Config, Engine, Outside}
use the_evil_repository.Engine.Process.{flush_parallel, run_call, run_calls}
use the_evil_repository.Engine.Batches.{
  flush_parallel-Directed, run_call-Directed, run_calls-Directed,
}

module _ {W : Type 0} (outside : Outside W) (config : Config) where
  flush_parallel-counts :
      (e : Engine W) (pending : List (ToolCall × ℕ))
      → (flush_parallel outside config e pending).tool_calls ≡ e.tool_calls
  flush_parallel-counts e pending =
      omega (arith, (flush_parallel-Directed outside config e pending).counted)

  run_call-counts :
      (e : Engine W) (pending : List (ToolCall × ℕ)) (call : ToolCall)
      → (run_call outside config (e, pending) call).0.tool_calls ≡ 1 + e.tool_calls
  run_call-counts e pending call = (run_call-Directed outside config e pending call).2.counted

  -- The calls of a turn stay within the hard budget, unless it was exceeded before.
  pub run_calls-capped :
      (hard : ℕ) (e : Engine W) (pending : List (ToolCall × ℕ)) (calls : List ToolCall)
      → (run_calls outside config hard (e, pending) calls).0.tool_calls ≤ max hard e.tool_calls
  unfolding run_calls
  run_calls-capped hard e pending [] = omega (arith, flush_parallel-counts e pending)
  run_calls-capped hard e pending (call ∷ calls) =
      let waited = outside.resume e.world in
      let next : Engine W = record e { world = waited.0 } in
      let made = run_call outside config (next, pending) call in
      let capped = λ (x : Engine W × Bool). x.0.tool_calls ≤ max hard e.tool_calls in
      if_rule capped (leb hard e.tool_calls) (λ p. omega (arith, flush_parallel-counts e pending))
        (λ p.
          if_rule capped waited.1
            (λ q.
              let rest = run_calls-capped hard made.0 made.1 calls in
              let one = run_call-counts next pending call in
              let below : e.tool_calls < hard = ground arith in omega (arith, rest, one, below))
            (λ q. omega (arith, flush_parallel-counts next pending)))

  -- A turn with calls counts at least one, unless the budget is exhausted or the run is cancelled.
  pub run_calls-grows :
      (hard : ℕ) (e : Engine W) (call : ToolCall) (calls : List ToolCall)
      → let r = run_calls outside config hard (e, []) (call ∷ calls) in
        r.1 ≡ false → (hard ≤ e.tool_calls) ⊎ (e.tool_calls < r.0.tool_calls)
  unfolding run_calls
  run_calls-grows hard e call calls =
      let waited = outside.resume e.world in
      let next : Engine W = record e { world = waited.0 } in
      let made = run_call outside config (next, []) call in
      let grows = λ (x : Engine W × Bool).
        x.1 ≡ false → (hard ≤ e.tool_calls) ⊎ (e.tool_calls < x.0.tool_calls) in
      if_rule grows (leb hard e.tool_calls) (λ p h. inl (leb→le hard e.tool_calls p))
        (λ p.
          if_rule grows waited.1
            (λ q h.
              let (k, rest) = run_calls-Directed outside config hard made.0 made.1 calls in
              let one = run_call-counts next [] call in inr (omega (arith, rest.counted, one)))
            (λ q h. absurd (cc)))

-- ===== src/Engine/Rounds.antt =====
-- What one round of the main loop does to the counts that bound the loop
-- (apps/api/app/runner/engine.py).
use the_evil_repository.Prelude.{
  All, List, [], arith, false, if_rule, inl, inr, leb, list_rule, ltb, ltb→lt, not, refl, subst,
  suc, ℕ, ◌&&◌, ◌+◌, ◌<◌, ◌==◌, ◌∷◌, ◌≡◌, ◌≤◌,
}
use the_evil_repository.Protocol.{ToolCall}
use the_evil_repository.Engine.State.{Engine}
use the_evil_repository.Engine.Process.{run_calls}
use the_evil_repository.Engine.Directed.{recount, then-Directed}
use the_evil_repository.Engine.Batches.{run_calls-Directed}
use the_evil_repository.Engine.Counting.{run_calls-capped, run_calls-grows}
use the_evil_repository.Engine.Overrides.{IsBounded}
use the_evil_repository.Engine.Loop.{
  accept, apply_budget_overrides, ask, cancelled, finish, gaps, make_calls,
  max_invalid_tool_call_batches, may_go_on, reject_invalid, respond, round, usage, warn, with_world,
}
use the_evil_repository.Engine.Limits.{count_requests, hard_resource_reasons}
use the_evil_repository.Engine.Session.{
  AssistantTurn, Completion, Driver, Session, completed, failed, raises,
}
use the_evil_repository.Engine.Keeping.{
  Advances, after_keeping, apply_budget_overrides-Keeps, measure, nudge-Keeps, IsReached,
  same_engine, then-Keeps, warn-Keeps,
}

module _ {W : Type 0} (driver : Driver W) (bound : ℕ) (e : Engine W) where
  reject_invalid-Advances :
      (s : Session W) (turn : AssistantTurn)
      → IsReached driver bound e s
      → Advances driver bound e (measure bound s) (reject_invalid driver s turn)
  unfolding reject_invalid
  reject_invalid-Advances s turn h =
      if_rule (Advances driver bound e (measure bound s))
        (leb max_invalid_tool_call_batches (suc s.invalid_tool_call_batches))
        (λ p. same_engine driver bound e s _ refl refl refl refl h)
        (λ p.
          let few : suc s.invalid_tool_call_batches < 8 = ground arith in
          (same_engine driver bound e s _ refl refl refl refl h, inl (omega (arith, few))))

  finish-Advances :
      (s : Session W) (turn : AssistantTurn)
      → IsReached driver bound e s
      → Advances driver bound e (measure bound s) (finish driver s turn)
  unfolding finish
  finish-Advances s turn h =
      list_rule (Advances driver bound e (measure bound s)) (gaps driver s)
        (λ p. same_engine driver bound e s _ refl refl refl refl h)
        (λ x xs p.
          if_rule (Advances driver bound e (measure bound s)) (ltb s.final_rejections 8)
            (λ q.
              let few = ltb→lt s.final_rejections 8 q in
              (same_engine driver bound e s _ refl refl refl refl h, inl (omega (arith, few))))
            (λ q. same_engine driver bound e s _ refl refl refl refl h))

  is_full :
      (s : Session W) → s.budget.hard_tool_calls ≤ s.engine.tool_calls → may_go_on driver s ≡ false
  unfolding may_go_on
  is_full s h = ground (arith, h)

  make_calls-Advances :
      (s : Session W) (call : ToolCall) (calls : List ToolCall)
      → IsReached driver bound e s
      → Advances driver bound e (measure bound s) (make_calls driver s (call ∷ calls))
  unfolding make_calls cancelled
  make_calls-Advances s call calls h =
      let hard = s.budget.hard_tool_calls in
      let made = run_calls driver.outside driver.config hard (s.engine, []) (call ∷ calls) in
      let capped = run_calls-capped driver.outside driver.config hard s.engine [] (call ∷ calls) in
      let (k, driven) =
        run_calls-Directed driver.outside driver.config hard s.engine [] (call ∷ calls) in
      let after : Session W = record s { engine = made.0 } in
      let held : IsReached driver bound e after = record {
        hard = h.hard;
        capped = omega (arith, capped, h.hard, h.capped);
        calls = h.calls + (0 + k);
        drives =
            recount driver.config.tools.host refl (omega arith)
              (then-Directed driver.config.tools.host h.calls (0 + k) h.calls k h.drives driven);
      } in
      if_rule (Advances driver bound e (measure bound s)) made.1
        (λ p. same_engine driver bound e after _ refl refl refl refl held)
        (λ p.
          let grown = run_calls-grows driver.outside driver.config hard s.engine call calls p in
          (
            held,
            elim grown [
              | inl full ↦ inr (is_full after (omega (arith, full, driven.counted)))
              | inr more ↦ inl (omega (arith, more, held.capped))
            ],
          ))

  accept-Advances :
      (s : Session W) (turn : AssistantTurn)
      → IsReached driver bound e s
      → Advances driver bound e (measure bound s) (accept driver s turn)
  unfolding accept cancelled
  accept-Advances s turn h =
      let waited = driver.outside.resume s.engine.world in
      let next = with_world driver s waited.0 in
      let held : IsReached driver bound e next =
        same_engine driver bound e s next refl refl refl refl h in
      if_rule (Advances driver bound e (measure bound s)) (not waited.1)
        (λ p. same_engine driver bound e next _ refl refl refl refl held)
        (λ p.
          list_rule (Advances driver bound e (measure bound s)) turn.tool_calls
            (λ q. finish-Advances next turn held)
            (λ call calls q. make_calls-Advances next call calls held))

  respond-Advances :
      (s : Session W) (turn : AssistantTurn)
      → IsReached driver bound e s
      → Advances driver bound e (measure bound s) (respond driver s turn)
  unfolding respond
  respond-Advances s turn h =
      let counted : Session W = record s {
        input_tokens = s.input_tokens + turn.input_tokens;
        output_tokens = s.output_tokens + turn.output_tokens;
        token_usage_available = s.token_usage_available && turn.token_usage_available;
      } in
      let held : IsReached driver bound e counted =
        same_engine driver bound e s counted refl refl refl refl h in
      list_rule (Advances driver bound e (measure bound s))
        (hard_resource_reasons s.budget (usage driver counted))
        (λ q.
          if_rule (Advances driver bound e (measure bound s)) (turn.invalid_tool_calls == 0)
            (λ p. accept-Advances counted turn held)
            (λ p. reject_invalid-Advances counted turn held))
        (λ x xs q. same_engine driver bound e counted _ refl refl refl refl held)

  ask-Advances :
      (s : Session W)
      → IsReached driver bound e s
      → Advances driver bound e (measure bound s) (ask driver s)
  unfolding ask
  ask-Advances s h =
      let (w, numbers, reply) = driver.complete s.engine in
      let counted = count_requests s.budget.hard_provider_requests s.provider_requests numbers in
      let next = with_world driver (record s { provider_requests = counted.0 }) w in
      let held : IsReached driver bound e next =
        same_engine driver bound e s next refl refl refl refl h in
      if_rule (Advances driver bound e (measure bound s)) counted.1
        (λ p. same_engine driver bound e next _ refl refl refl refl held)
        (λ p. of_reply reply next held refl)
    where
      of_reply :
          (reply : Completion) (next : Session W)
          → IsReached driver bound e next
          → measure bound next ≡ measure bound s
          → Advances driver bound e (measure bound s) (elim reply [
            | failed reason ↦ raises reason next
            | completed turn ↦ respond driver next turn
          ])
      of_reply (failed reason) next held same = held
      of_reply (completed turn) next held same =
          subst (λ m. Advances driver bound e m (respond driver next turn)) same
            (respond-Advances next turn held)

  -- A round ends the run, or leaves fewer rounds, or leaves the budget exhausted.
  pub round-Advances :
      ((w : W) → All (IsBounded bound) (driver.overrides w))
      → (s : Session W) → IsReached driver bound e s
      → Advances driver bound e (measure bound s) (round driver s)
  unfolding round cancelled
  round-Advances bounded s h =
      let waited = driver.outside.resume s.engine.world in
      let next = with_world driver s waited.0 in
      let held : IsReached driver bound e next =
        same_engine driver bound e s next refl refl refl refl h in
      let kept =
        then-Keeps driver bound e (apply_budget_overrides-Keeps driver bound e bounded next) (
          then-Keeps driver bound e (warn-Keeps driver bound e (apply_budget_overrides driver next))
            (nudge-Keeps driver bound e (warn driver (apply_budget_overrides driver next)))) in
      if_rule (Advances driver bound e (measure bound s)) waited.1
        (λ p. after_keeping driver bound e _ kept (ask-Advances _ (kept.reaches held)))
        (λ p. same_engine driver bound e next _ refl refl refl refl held)

-- ===== src/Faults/Session.antt =====
-- A run of the controller: calls that are about to be made, and results that come back
-- (apps/api/app/runner/faults.py).
use mathlib.Core.List.{append_assoc, append-nil}
use the_evil_repository.Prelude.{
  All, Dict, List, String, [], ap, arith, lookup, lookup-put_self, none, option_rule, refl, some,
  sym, ◌++◌, ◌∙◌, ◌∷◌, ◌≡◌,
}
use the_evil_repository.Protocol.{ToolCall, ToolResult}
use the_evil_repository.Faults.Rules.{FaultRule, FaultStep, Tools, moved_by}
use the_evil_repository.Faults.Controller.{
  Controller, Verdict, after, before, consult, defers, faulted, remember, scripted_result, without,
}
use the_evil_repository.Faults.Schedule.{IsKnown, advanced, consult-scheduled, scheduled}

-- A call of `before`, or one of `after` with the result of a call.
pub data Event : Type 0 where
  asked : ToolCall → Event
  finished : ToolCall → ToolResult → Event

unfoldable pub run : Tools → List Event → Controller → Controller
run tools [] c = c
run tools (asked call ∷ events) c = run tools events (before tools c call).0
run tools (finished call r ∷ events) c = run tools events (after tools c call r).0

-- The calls that were announced, in order.
unfoldable pub asked_calls : List Event → List ToolCall
asked_calls [] = []
asked_calls (asked call ∷ events) = call ∷ asked_calls events
asked_calls (finished call r ∷ events) = asked_calls events

lookup-without : {V : Type 0} (k : String) (d : Dict V) → lookup k (without k d) ≡ none
lookup-without k [] = refl
lookup-without k ((j, v) ∷ d) = ground (arith, lookup-without k d)

after-rules :
    (tools : Tools) (c : Controller) (call : ToolCall) (r : ToolResult)
    → (after tools c call r).0.rules ≡ c.rules
unfolding after
after-rules tools c call r =
    option_rule (λ (x : Controller × ToolResult). x.0.rules ≡ c.rules)
      (lookup call.call_id c.pending_after) (λ e. refl) (λ fault e. refl)

after-used :
    (tools : Tools) (c : Controller) (call : ToolCall) (r : ToolResult)
    → lookup call.call_id (after tools c call r).0.pending_after ≡ none
unfolding after
after-used tools c call r =
    option_rule (λ (x : Controller × ToolResult). lookup call.call_id x.0.pending_after ≡ none)
      (lookup call.call_id c.pending_after) (λ e. e)
      (λ fault e. lookup-without call.call_id c.pending_after)

advanced_nothing : (tools : Tools) (rules : List FaultRule) → advanced tools rules [] ≡ rules
unfolding advanced
advanced_nothing tools [] = refl
advanced_nothing tools (rule ∷ rules) =
    let still : moved_by 0 rule ≡ rule = ap (λ c. record rule { cursor = c }) (ground arith) in
    cc (still, advanced_nothing tools rules)

consulted :
    (tools : Tools) (rules : List FaultRule) (history : List ToolCall) (c : Controller)
    (call : ToolCall)
    → All IsKnown rules
    → c.rules ≡ advanced tools rules history
    → consult tools c.rules call
      ≡ (advanced tools rules (history ++ call ∷ []), scheduled tools rules history call)
consulted tools rules history c call known h =
    ap (λ x. consult tools x call) h ∙ consult-scheduled tools rules history call known

after-pending :
    (tools : Tools) (c : Controller) (call : ToolCall) (r : ToolResult) (fault : String × FaultStep)
    → lookup call.call_id c.pending_after ≡ some fault
    → (after tools c call r).1 ≡ faulted tools call fault r
unfolding after
after-pending tools c call r fault h = rw (h, after) refl

-- After any history the rules are those that the history has moved.
run-rules :
    (tools : Tools) (rules : List FaultRule) (history : List ToolCall) (events : List Event)
    (c : Controller)
    → All IsKnown rules
    → c.rules ≡ advanced tools rules history
    → (run tools events c).rules ≡ advanced tools rules (history ++ asked_calls events)
unfolding run asked_calls before
run-rules tools rules history [] c known h =
    h ∙ ap (λ x. advanced tools rules x) (sym (append-nil history))
run-rules tools rules history (asked call ∷ events) c known h =
    run-rules tools rules (history ++ call ∷ []) events (before tools c call).0 known
      (ap (λ x. x.0) (consulted tools rules history c call known h))
    ∙ ap (λ x. advanced tools rules x) (append_assoc history (call ∷ []) (asked_calls events))
run-rules tools rules history (finished call r ∷ events) c known h =
    run-rules tools rules history events (after tools c call r).0 known
      (after-rules tools c call r ∙ h)

-- What a controller `c` in use does with the next call, against the schedule `v`.
pub record IsScheduled (tools : Tools) (c : Controller) (call : ToolCall) (v : Verdict)
    : Type 0 where
  pub answers : (before tools c call).1 ≡ scripted_result v
  pub waits :
      (id : String) (step : FaultStep) (r : ToolResult)
      → v ≡ defers id step
      → (after tools (before tools c call).0 call r).1 ≡ faulted tools call (id, step) r
  pub used :
      (r : ToolResult)
      → lookup call.call_id (after tools (before tools c call).0 call r).0.pending_after ≡ none

pub run-IsScheduled :
    (tools : Tools) (c : Controller) (events : List Event) (call : ToolCall)
    → All IsKnown c.rules
    → IsScheduled tools
        (run tools events c)
        call
        (scheduled tools c.rules (asked_calls events) call)
unfolding before
run-IsScheduled tools c events call known =
    let d = run tools events c in
    let met =
      consulted tools c.rules (asked_calls events) d call known
        (run-rules tools c.rules [] events c known (sym (advanced_nothing tools c.rules))) in
    record {
      answers = ap (λ x. scripted_result x.1) met;
      waits = λ id step r e.
          after-pending tools (before tools d call).0 call r (id, step)
            (ap (λ v. lookup call.call_id (remember call.call_id v d.pending_after))
                (ap (λ x. x.1) met ∙ e)
              ∙ lookup-put_self call.call_id (id, step) d.pending_after);
      used = after-used tools (before tools d call).0 call;
    }

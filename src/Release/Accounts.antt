-- ===== src/Release/Accounts.antt =====
-- What the release director spends: actions, snapshots, rebuilds and the irreversible token
-- (apps/api/app/scenario/release.py).
use the_evil_repository.Prelude.{
  Bool, List, Option, String, any, any-append, arith, count, count-append, false, get_or_else,
  length, length-append, length-put-le, one_if, refl, ◌&&◌, ◌+◌, ◌<◌, ◌≡◌, ◌≤◌,
}
use the_evil_repository.Protocol.{Host, ToolCall}
use the_evil_repository.Release.State.{Action, ActionRecord, Director, Plan}
use the_evil_repository.Release.Clock.{advance, init}
use the_evil_repository.Release.Inspect.{observed}
use the_evil_repository.Release.Snapshot.{capture}
use the_evil_repository.Release.Policy.{is_rebuild, policy}
use the_evil_repository.Release.Actions.{action_record}
use the_evil_repository.Release.Verify.{append_verification, was_denied}
use the_evil_repository.Release.Execute.{Event, append_decision, run}
use the_evil_repository.Release.Transitions.{
  Transition, captures, decides, idle, observes, performs, ticks, verifies,
}
use the_evil_repository.Release.Outcomes.{run_rule}
use the_evil_repository.Release.Frame.{Performed, performs-Performed}

abbrev pub is_irreversible : ActionRecord → Bool
is_irreversible a = a.irreversible

abbrev pub was_rebuild : ActionRecord → Bool
was_rebuild a = is_rebuild a.action

pub record IsBudgeted (d : Director) : Type 0 where
  pub actions_paid : d.action_budget + length d.actions ≡ get_or_else 12 d.plan.action_budget
  pub rebuilds_paid :
      d.rebuild_budget + count was_rebuild d.actions ≡ get_or_else 2 d.plan.rebuild_budget
  pub snapshots_paid : d.snapshot_budget + length d.snapshots ≤ get_or_else 2 d.plan.snapshot_budget
  pub one_shot : count is_irreversible d.actions ≡ one_if d.irreversible_used
  pub bypasses : d.signature_policy_bypass_attempted ≡ any was_denied d.actions

module _ (d : Director) (h : IsBudgeted d) where
  perform-IsBudgeted :
      (call : ToolCall) (known : List String) (action : Action) (resolved : String)
      (generated : Option String) (e : Director)
      → 0 < d.action_budget
      → ((policy action).irreversible && d.irreversible_used) ≡ false
      → Performed d (action_record d call known generated action) resolved action e
      → IsBudgeted e
  unfolding action_record
  perform-IsBudgeted call known action resolved generated e some_left free p =
      let entry = action_record d call known generated action in
      record {
        actions_paid = rw (p.plan, p.logged, p.paid, length-append) (omega (arith, h.actions_paid));
        rebuilds_paid =
            rw (p.plan, p.logged, count-append) (omega (arith, p.rebuilt, h.rebuilds_paid));
        snapshots_paid = rw (p.plan, p.snapshots, p.snapshot_budget) h.snapshots_paid;
        one_shot = rw (p.logged, p.token, count-append) (ground (arith, h.one_shot, free));
        bypasses = rw (p.logged, p.bypassed, any-append) (ground (arith, h.bypasses));
      }

  -- A transition that touches only the clock and the logs.
  logs-IsBudgeted :
      {e : Director}
      → e.plan ≡ d.plan
      → e.action_budget ≡ d.action_budget
      → e.rebuild_budget ≡ d.rebuild_budget
      → e.snapshot_budget + length e.snapshots ≤ d.snapshot_budget + length d.snapshots
      → e.actions ≡ d.actions
      → e.irreversible_used ≡ d.irreversible_used
      → e.signature_policy_bypass_attempted ≡ d.signature_policy_bypass_attempted
      → IsBudgeted e
  logs-IsBudgeted plan budget builds snapshots actions used bypassed = record {
    actions_paid = rw (plan, budget, actions) h.actions_paid;
    rebuilds_paid = rw (plan, builds, actions) h.rebuilds_paid;
    snapshots_paid = rw plan (omega (arith, snapshots, h.snapshots_paid));
    one_shot = rw (actions, used) h.one_shot;
    bypasses = rw (actions, bypassed) h.bypasses;
  }

capture_snapshots :
    (d : Director) (id : String)
    → 0 < d.snapshot_budget
    → (capture d id).snapshot_budget + length (capture d id).snapshots
      ≤ d.snapshot_budget + length d.snapshots
unfolding capture
capture_snapshots d id some_left = omega (arith, length-put-le id _ d.snapshots)

Transition-IsBudgeted : (d e : Director) → Transition d e → IsBudgeted d → IsBudgeted e
unfolding observed append_verification append_decision capture advance
Transition-IsBudgeted d _ idle h = h
Transition-IsBudgeted d _ ticks h = logs-IsBudgeted d h refl refl refl (omega arith) refl refl refl
Transition-IsBudgeted d _ (observes kind key by) h =
    logs-IsBudgeted d h refl refl refl (omega arith) refl refl refl
Transition-IsBudgeted d _ (captures id some_left by) h =
    logs-IsBudgeted d h refl refl refl (capture_snapshots d id some_left) refl refl refl
Transition-IsBudgeted d _
      (performs call known action resolved generated changed left free target c by) h =
    perform-IsBudgeted d h call known action resolved generated _ left free
      (performs-Performed d call known action generated c)
Transition-IsBudgeted d _ (verifies mode by) h =
    logs-IsBudgeted d h refl refl refl (omega arith) refl refl refl
Transition-IsBudgeted d _ (decides host call known id present by) h =
    logs-IsBudgeted d h refl refl refl (omega arith) refl refl refl

init-IsBudgeted : (plan : Plan) → IsBudgeted (init plan)
unfolding init
init-IsBudgeted plan = record {
  actions_paid = omega arith;
  rebuilds_paid = omega arith;
  snapshots_paid = omega arith;
  one_shot = refl;
  bypasses = refl;
}

-- After any sequence of calls and ticks: the actions on record and what is left of the action
-- budget make up the plan's budget, and so do the rebuilds on record and the rebuilds left; the
-- snapshots kept and what is left of their budget do not exceed the plan's; one irreversible
-- action is on record if the token is used and none if not; and an attempt to weaken the
-- signature policy is noted exactly when a denied action is on record.
pub run-IsBudgeted :
    (host : Host) (events : List Event) (plan : Plan) → IsBudgeted (run host events (init plan))
run-IsBudgeted host events plan =
    run_rule IsBudgeted Transition-IsBudgeted host events (init plan) (init-IsBudgeted plan)

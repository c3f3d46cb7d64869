-- ===== src/Incident/Accounts.antt =====
-- What the director spends: actions, snapshots, and the one irreversible action.
use the_evil_repository.Prelude.{
  Bool, List, String, [], arith, count, count-append, false, get_or_else, length, length-put-le,
  one_if, refl, true, ◌&&◌, ◌+◌, ◌<◌, ◌∷◌, ◌≡◌, ◌≤◌,
}
use the_evil_repository.Protocol.{Host, ToolCall}
use the_evil_repository.Incident.State.{
  Action, ActionRecord, Decision, Director, Observation, Plan, Snapshot, Verification, performed,
  rollback,
}
use the_evil_repository.Incident.Clock.{advance, init, sample}
use the_evil_repository.Incident.Observe.{observed}
use the_evil_repository.Incident.Snapshots.{capture, captured}
use the_evil_repository.Incident.Rollback.{restore, rollback_record}
use the_evil_repository.Incident.Actions.{action_record, perform, policy}
use the_evil_repository.Incident.Verify.{append_verification}
use the_evil_repository.Incident.Execute.{Event, append_decision, run}
use the_evil_repository.Incident.Relation.{
  Transition, captures, decides, idle, observes, performs, restores, ticks, verifies,
}
use the_evil_repository.Incident.Transitions.{run_rule}

abbrev pub is_performed : ActionRecord → Bool
is_performed a = elim a.action [ performed x ↦ true | rollback ↦ false ]

abbrev pub is_irreversible : ActionRecord → Bool
is_irreversible a = a.irreversible

-- Each action but a rollback costs one unit of the budget, each snapshot one of the other, and
-- the token is used exactly when one irreversible action is on record.
pub record IsAccounted (d : Director) : Type 0 where
  pub actions_paid :
      d.action_budget + count is_performed d.actions ≡ get_or_else 8 d.plan.action_budget
  pub snapshots_paid : d.snapshot_budget + length d.snapshots ≤ get_or_else 2 d.plan.snapshot_budget
  pub one_shot : count is_irreversible d.actions ≡ one_if d.irreversible_used

module _ (d : Director) (h : IsAccounted d) where
  perform-IsAccounted :
      (call : ToolCall) (known : List String) (action : Action)
      → 0 < d.action_budget
      → ((policy action).irreversible && d.irreversible_used) ≡ false
      → IsAccounted (perform d action (action_record d call known action))
  unfolding perform action_record
  perform-IsAccounted call known action some_left free =
      let entry = action_record d call known action in
      record {
        actions_paid =
            ground (arith, count-append is_performed d.actions (entry ∷ []), h.actions_paid);
        snapshots_paid = h.snapshots_paid;
        one_shot = ground (arith, count-append is_irreversible d.actions (entry ∷ []), h.one_shot);
      }

  restore-IsAccounted :
      (s : Snapshot) (id reason : String) → IsAccounted (restore d s (rollback_record d id reason))
  unfolding restore rollback_record
  restore-IsAccounted s id reason =
      let entry = rollback_record d id reason in
      record {
        actions_paid =
            ground (arith, count-append is_performed d.actions (entry ∷ []), h.actions_paid);
        snapshots_paid = h.snapshots_paid;
        one_shot = ground (arith, count-append is_irreversible d.actions (entry ∷ []), h.one_shot);
      }

  capture-IsAccounted : (id : String) → 0 < d.snapshot_budget → IsAccounted (capture d id)
  unfolding capture
  capture-IsAccounted id some_left = record {
    actions_paid = h.actions_paid;
    snapshots_paid = omega (arith, length-put-le id (captured d id) d.snapshots, h.snapshots_paid);
    one_shot = h.one_shot;
  }

  advance-IsAccounted : IsAccounted (advance d).0
  unfolding advance sample
  advance-IsAccounted = record {
    actions_paid = ground (arith, h.actions_paid);
    snapshots_paid = ground (arith, h.snapshots_paid);
    one_shot = ground (arith, h.one_shot);
  }

  logs-IsAccounted :
      (os : List Observation) (vs : List Verification) (xs : List Decision)
      → IsAccounted (record d { observations = os; verifications = vs; decisions = xs })
  logs-IsAccounted os vs xs = record {
    actions_paid = h.actions_paid;
    snapshots_paid = h.snapshots_paid;
    one_shot = h.one_shot;
  }

-- Every transition keeps the accounts.
pub Transition-IsAccounted : (d e : Director) → Transition d e → IsAccounted d → IsAccounted e
unfolding observed append_verification append_decision
Transition-IsAccounted d _ idle h = h
Transition-IsAccounted d _ ticks h = advance-IsAccounted d h
Transition-IsAccounted d _ (observes service signal window by) h = logs-IsAccounted d h _ _ _
Transition-IsAccounted d _ (captures id some_left by) h = capture-IsAccounted d h id some_left
Transition-IsAccounted d _ (performs call known action some_left free by) h =
    perform-IsAccounted d h call known action some_left free
Transition-IsAccounted d _ (restores id reason s found by) h = restore-IsAccounted d h s id reason
Transition-IsAccounted d _ (verifies mode valid scoped by) h = logs-IsAccounted d h _ _ _
Transition-IsAccounted d _ (decides host call known id present by) h = logs-IsAccounted d h _ _ _

init-IsAccounted : (plan : Plan) → IsAccounted (init plan)
unfolding init
init-IsAccounted plan = record {
  actions_paid = omega arith;
  snapshots_paid = omega arith;
  one_shot = refl;
}

-- After any sequence of calls and ticks, the actions on record other than rollbacks and what is
-- left of the action budget make up the plan's budget; the snapshots kept and what is left of
-- their budget do not exceed the plan's; and one irreversible action is on record if the token
-- is used and none if not.
pub run-IsAccounted :
    (host : Host) (events : List Event) (plan : Plan) → IsAccounted (run host events (init plan))
run-IsAccounted host events plan =
    run_rule IsAccounted Transition-IsAccounted host events (init plan) (init-IsAccounted plan)

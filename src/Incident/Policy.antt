-- ===== src/Incident/Policy.antt =====
-- A risky action without a snapshot stays on record (`_action` and `completion_gaps`,
-- apps/api/app/scenario/incident.py).
use the_evil_repository.Prelude.{
  All, Bool, Bool-cases, List, String, [], any, any-append, arith, false, inl, inr, not, some,
  strip, true, ◌&&◌, ◌<◌, ◌==◌, ◌∷◌, ◌≡◌, ◌≢◌,
}
use the_evil_repository.Protocol.{Host, ToolCall, argument}
use the_evil_repository.Incident.State.{Action, ActionRecord, Director}
use the_evil_repository.Incident.Clock.{advance, sample}
use the_evil_repository.Incident.Observe.{observed}
use the_evil_repository.Incident.Snapshots.{capture}
use the_evil_repository.Incident.Rollback.{restore, rollback_record}
use the_evil_repository.Incident.Actions.{act, action_record, find_action, perform, policy}
use the_evil_repository.Incident.Verify.{append_verification}
use the_evil_repository.Incident.Execute.{Event, append_decision, run}
use the_evil_repository.Incident.Gaps.{IncidentRequirements, completion_gaps, is_risky}
use the_evil_repository.Incident.Contract.{Protected, completion_gaps-IsComplete}
use the_evil_repository.Incident.Relation.{
  Transition, captures, decides, idle, observes, performs, restores, ticks, verifies,
}
use the_evil_repository.Incident.Transitions.{run_rule}

abbrev pub is_unprotected : ActionRecord → Bool
is_unprotected a = is_risky a && not a.snapshot_before

-- The director has an unprotected action on record.
abbrev pub IsTainted : Director → Type 0
IsTainted d = any is_unprotected d.actions ≡ true

Transition-IsTainted : (d e : Director) → Transition d e → IsTainted d → IsTainted e
unfolding observed append_verification append_decision capture perform restore advance sample
Transition-IsTainted d _ idle h = h
Transition-IsTainted d _ ticks h = ground arith
Transition-IsTainted d _ (observes service signal window by) h = h
Transition-IsTainted d _ (captures id some_left by) h = h
Transition-IsTainted d _ (performs call known action some_left free by) h =
    ground (arith, any-append is_unprotected d.actions (action_record d call known action ∷ []))
Transition-IsTainted d _ (restores id reason s found by) h =
    ground (arith, any-append is_unprotected d.actions (rollback_record d id reason ∷ []))
Transition-IsTainted d _ (verifies mode valid scoped by) h = h
Transition-IsTainted d _ (decides host call known id present by) h = h

tainted_not-Protected :
    (actions : List ActionRecord) → any is_unprotected actions ≡ true → All Protected actions → ⊥
tainted_not-Protected [] h every = absurd (cc)
tainted_not-Protected (a ∷ rest) h every = elim (Bool-cases (is_unprotected a)) [
  | inl e ↦ let p = every.0 in absurd (ground arith)
  | inr e ↦ tainted_not-Protected rest (ground arith) every.1
]

-- Once a risky action was carried out with no snapshot before it, a contract that asks for
-- snapshots is never fulfilled again, whatever is called afterwards, rollbacks included.
pub tainted-incomplete :
    (host : Host) (events : List Event) (d : Director) (r : IncidentRequirements)
    → IsTainted d
    → r.enabled ≡ true
    → r.require_snapshot_before_risky_action ≡ true
    → completion_gaps (run host events d) r ≢ []
tainted-incomplete host events d r h on asked no_gaps =
    let after = run host events d in
    tainted_not-Protected after.actions (run_rule IsTainted Transition-IsTainted host events d h)
      (((completion_gaps-IsComplete after r on).0 no_gaps).protected asked)

-- Past the guards an action is performed.
pub act-perform :
    (host : Host) (d : Director) (call : ToolCall) (known : List String) (action : Action)
    → find_action (host.casefold (strip (argument call "action" ""))) ≡ some action
    → 0 < d.action_budget
    → ((policy action).irreversible && d.irreversible_used) ≡ false
    → (act host d call known).0 ≡ perform d action (action_record d call known action)
unfolding act action_record
act-perform host d call known action named left free =
    let some_left : (d.action_budget == 0) ≡ false = ground arith in
    rw (some_left, named, free, act)

record_unprotected :
    (d : Director) (call : ToolCall) (known : List String) (action : Action)
    → 0 < (policy action).risk_delta
    → d.snapshots ≡ []
    → is_unprotected (action_record d call known action) ≡ true
unfolding action_record
record_unprotected d call known action risk bare = rw bare (ground arith)

-- An action that the guards let through and whose policy carries risk taints a director that
-- has taken no snapshot.
pub act-IsTainted :
    (host : Host) (d : Director) (call : ToolCall) (known : List String) (action : Action)
    → find_action (host.casefold (strip (argument call "action" ""))) ≡ some action
    → 0 < d.action_budget
    → ((policy action).irreversible && d.irreversible_used) ≡ false
    → 0 < (policy action).risk_delta
    → d.snapshots ≡ []
    → IsTainted (act host d call known).0
unfolding perform
act-IsTainted host d call known action named left free risk bare =
    let entry = action_record d call known action in
    rw (act-perform host d call known action named left free) (
      rw
        (
          any-append is_unprotected d.actions (entry ∷ []),
          record_unprotected d call known action risk bare,
        )
        (ground arith))

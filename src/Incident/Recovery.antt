-- ===== src/Incident/Recovery.antt =====
-- Snapshots and rollback (`_snapshot`, `_rollback`, apps/api/app/scenario/incident.py), and what no
-- handler takes back.
use the_evil_repository.Incident.Bounds.{InBounds, Transition-InBounds}
use the_evil_repository.Prelude.{
  IsPrefix, IsPrefix-append, IsPrefix-refl, IsPrefix-trans, List, String, [], arith, lookup,
  lookup-put_self, refl, some, sorted, strip, subst, sym, true, ◌++◌, ◌-◌, ◌∷◌, ◌≡◌, ◌≤◌,
}
use the_evil_repository.Protocol.{Host, ToolCall, argument}
use the_evil_repository.Incident.State.{Action, ActionRecord, Director, Snapshot}
use the_evil_repository.Incident.Snapshots.{capture, captured}
use the_evil_repository.Incident.Rollback.{restore, roll_back, rollback_record}
use the_evil_repository.Incident.Actions.{action_record, perform}
use the_evil_repository.Incident.Clock.{advance, sample}
use the_evil_repository.Incident.Observe.{observed}
use the_evil_repository.Incident.Verify.{append_verification, verification}
use the_evil_repository.Incident.Execute.{Event, append_decision, decision_record, run}
use the_evil_repository.Incident.Relation.{
  Transition, captures, decides, idle, observes, performs, restores, ticks, verifies,
}
use the_evil_repository.Incident.Transitions.{run_rule}

roll_back-restore :
    (d : Director) (call : ToolCall) {s : Snapshot}
    → lookup (strip (argument call "snapshot_id" "")) d.snapshots ≡ some s
    → (roll_back d call).0
      ≡ restore d s (
          rollback_record d
            (strip (argument call "snapshot_id" ""))
            (strip (argument call "reason" "")))
unfolding roll_back
roll_back-restore d call found = rw (found, roll_back)

found_again :
    (d : Director) (id name : String) (action : Action) (entry : ActionRecord)
    → name ≡ id
    → lookup name (perform (capture d id) action entry).snapshots ≡ some (captured d id)
unfolding perform capture
found_again d id name action entry named = rw named (lookup-put_self id (captured d id) d.snapshots)

-- Between a snapshot and a rollback to it, an action may do what it likes: risk, data integrity
-- and mitigations are those of the snapshot again; the action stays paid for and on record,
-- followed by the rollback; the evidence stays preserved; and the clock does not move.
pub roll_back-perform :
    (d : Director) (id : String) (action : Action) (entry : ActionRecord) (call : ToolCall)
    → strip (argument call "snapshot_id" "") ≡ id
    → let before = perform (capture d id) action entry in
      let after = (roll_back before call).0 in
      (after.risk ≡ d.risk)
      × (after.data_integrity ≡ d.data_integrity)
      × (after.mitigations ≡ sorted d.mitigations)
      × (after.action_budget ≡ d.action_budget - 1)
      × (after.actions
          ≡ (d.actions ++ entry ∷ [])
            ++ rollback_record before id (strip (argument call "reason" "")) ∷ [])
      × (after.evidence_preserved ≡ true)
      × (after.tick ≡ d.tick)
unfolding perform capture captured restore rollback_record
roll_back-perform d id action entry call named =
    let before = perform (capture d id) action entry in
    let name = strip (argument call "snapshot_id" "") in
    rw (roll_back-restore before call (found_again d id name action entry named), named)
      (refl, refl, refl, refl, refl, ground arith, refl)

-- What only grows: the clock, and the four logs, by entries at their ends; what is never lost: the
-- preserved evidence and the use of the token.
pub record Extends (d e : Director) : Type 0 where
  pub later : d.tick ≤ e.tick
  pub poorer : e.error_budget ≤ d.error_budget
  pub actions : IsPrefix d.actions e.actions
  pub observations : IsPrefix d.observations e.observations
  pub decisions : IsPrefix d.decisions e.decisions
  pub verifications : IsPrefix d.verifications e.verifications
  pub preserved : d.evidence_preserved ≡ true → e.evidence_preserved ≡ true
  pub used : d.irreversible_used ≡ true → e.irreversible_used ≡ true

Extends-refl : (d : Director) → Extends d d
Extends-refl d = record {
  later = omega arith;
  poorer = omega arith;
  actions = IsPrefix-refl _;
  observations = IsPrefix-refl _;
  decisions = IsPrefix-refl _;
  verifications = IsPrefix-refl _;
  preserved = λ h. h;
  used = λ h. h;
}

Extends-trans : (d e f : Director) → Extends d e → Extends e f → Extends d f
Extends-trans d e f x y = record {
  later = omega arith;
  poorer = omega arith;
  actions = IsPrefix-trans x.actions y.actions;
  observations = IsPrefix-trans x.observations y.observations;
  decisions = IsPrefix-trans x.decisions y.decisions;
  verifications = IsPrefix-trans x.verifications y.verifications;
  preserved = λ h. y.preserved (x.preserved h);
  used = λ h. y.used (x.used h);
}

unchanged : {A : Type 0} {xs ys : List A} → ys ≡ xs → IsPrefix xs ys
unchanged {xs = xs} e = subst (IsPrefix xs) (sym e) (IsPrefix-refl xs)

advance-Extends : (d : Director) → d.tick ≤ d.horizon → Extends d (advance d).0
unfolding advance sample
advance-Extends d h = record {
  later = ground arith;
  poorer = ground arith;
  actions = unchanged (ground arith);
  observations = unchanged (ground arith);
  decisions = unchanged (ground arith);
  verifications = unchanged (ground arith);
  preserved = λ e. ground arith;
  used = λ e. ground arith;
}

module _ (d : Director) where
  Transition-Extends : (e : Director) → d.tick ≤ d.horizon → Transition d e → Extends d e
  unfolding observed append_verification append_decision capture perform restore
  Transition-Extends _ h idle = Extends-refl d
  Transition-Extends _ h ticks = advance-Extends d h
  Transition-Extends _ h (observes service signal window by) = record {
    later = omega arith;
    poorer = omega arith;
    actions = IsPrefix-refl _;
    observations = IsPrefix-append d.observations (_ ∷ []);
    decisions = IsPrefix-refl _;
    verifications = IsPrefix-refl _;
    preserved = λ e. e;
    used = λ e. e;
  }
  Transition-Extends _ h (captures id some_left by) = record {
    later = omega arith;
    poorer = omega arith;
    actions = IsPrefix-refl _;
    observations = IsPrefix-refl _;
    decisions = IsPrefix-refl _;
    verifications = IsPrefix-refl _;
    preserved = λ e. refl;
    used = λ e. e;
  }
  Transition-Extends _ h (performs call known action some_left free by) = record {
    later = omega arith;
    poorer = omega arith;
    actions = IsPrefix-append d.actions (action_record d call known action ∷ []);
    observations = IsPrefix-refl _;
    decisions = IsPrefix-refl _;
    verifications = IsPrefix-refl _;
    preserved = λ e. ground arith;
    used = λ e. ground arith;
  }
  Transition-Extends _ h (restores id reason s found by) = record {
    later = omega arith;
    poorer = omega arith;
    actions = IsPrefix-append d.actions (rollback_record d id reason ∷ []);
    observations = IsPrefix-refl _;
    decisions = IsPrefix-refl _;
    verifications = IsPrefix-refl _;
    preserved = λ e. ground arith;
    used = λ e. e;
  }
  Transition-Extends _ h (verifies mode valid scoped by) = record {
    later = omega arith;
    poorer = omega arith;
    actions = IsPrefix-refl _;
    observations = IsPrefix-refl _;
    decisions = IsPrefix-refl _;
    verifications = IsPrefix-append d.verifications (verification d mode valid scoped ∷ []);
    preserved = λ e. e;
    used = λ e. e;
  }
  Transition-Extends _ h (decides host call known id present by) = record {
    later = omega arith;
    poorer = omega arith;
    actions = IsPrefix-refl _;
    observations = IsPrefix-refl _;
    decisions = IsPrefix-append d.decisions (decision_record host d call known id ∷ []);
    verifications = IsPrefix-refl _;
    preserved = λ e. e;
    used = λ e. e;
  }

-- From a director within its bounds, whatever is called: the clock only grows; each of the four
-- logs keeps all its entries in their places and only goes on after them; the error budget only
-- shrinks; and neither the preserved evidence nor the use of the irreversible token is ever taken
-- back, rollbacks included.
pub run-Extends :
    (host : Host) (events : List Event) (d : Director) → InBounds d → Extends d (run host events d)
run-Extends host events d h =
    (run_rule (λ e. InBounds e × Extends d e)
      (λ e f t k. (
        Transition-InBounds e f t k.0,
        Extends-trans d e f k.1 (Transition-Extends e f k.0.in_horizon t),
      ))
      host events d (h, Extends-refl d)).1

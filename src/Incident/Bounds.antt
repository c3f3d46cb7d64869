-- ===== src/Incident/Bounds.antt =====
-- Ranges of the director's numbers, along every run (apps/api/app/scenario/incident.py).
use the_evil_repository.Prelude.{
  All, All-append, Bool-cases, Dict, List, String, [], all, arith, if_rule, if◌then◌else◌, inl, inr,
  length, length-append, lookup, min, put, some, str_eq, ℕ, ◌+◌, ◌==◌, ◌∷◌, ◌≡◌, ◌≤◌,
}
use the_evil_repository.Incident.State.{
  Action, ActionRecord, Decision, Director, Observation, Plan, Snapshot, Verification,
}
use the_evil_repository.Protocol.{Host}
use the_evil_repository.Incident.Observe.{observed}
use the_evil_repository.Incident.Snapshots.{capture, captured}
use the_evil_repository.Incident.Rollback.{restore}
use the_evil_repository.Incident.Actions.{perform}
use the_evil_repository.Incident.Verify.{append_verification}
use the_evil_repository.Incident.Execute.{Event, append_decision, run}
use the_evil_repository.Incident.Relation.{
  Transition, captures, decides, idle, observes, performs, restores, ticks, verifies,
}
use the_evil_repository.Incident.Transitions.{run_rule}
use the_evil_repository.Incident.Clock.{advance, init, sample, slo_at}

abbrev pub IsSane : String × Snapshot → Type 0
IsSane (id, s) = (s.risk ≤ 100) × (s.data_integrity ≤ 100)

-- Rollback reads the snapshots, so theirs are bounded too. One sample is kept for each tick.
pub record InBounds (d : Director) : Type 0 where
  pub in_horizon : d.tick ≤ d.horizon
  pub risk_capped : d.risk ≤ 100
  pub integrity_capped : d.data_integrity ≤ 100
  pub budget_capped : d.error_budget ≤ 10000
  pub snapshots_sane : All IsSane d.snapshots
  pub sampled : length d.slo_samples ≡ d.tick + 1
  pub samples_capped : All (λ x. x ≤ 10000) d.slo_samples

slo_at-le :
    (plan : Plan) (seed : ℕ) (mitigations : List String) (actions : List ActionRecord) (tick : ℕ)
    → slo_at plan seed mitigations actions tick ≤ 10000
unfolding slo_at
slo_at-le plan seed mitigations actions tick = omega arith

put-IsSane :
    (id : String) (s : Snapshot) (d : Dict Snapshot)
    → IsSane (id, s)
    → All IsSane d
    → All IsSane (put id s d)
put-IsSane id s [] h all = (h, tt)
put-IsSane id s ((j, w) ∷ d) h all =
    if_rule (All IsSane) (str_eq j id) (λ _. (h, all.1)) (λ _. (all.0, put-IsSane id s d h all.1))

lookup-IsSane :
    (id : String) (d : Dict Snapshot) {s : Snapshot}
    → All IsSane d
    → lookup id d ≡ some s
    → IsSane (id, s)
lookup-IsSane id [] all found = absurd (cc)
lookup-IsSane id ((j, w) ∷ d) {s} all found = elim (Bool-cases (str_eq j id)) [
  | inl e ↦ let same : w ≡ s = ground arith in rw (← same) all.0
  | inr e ↦ lookup-IsSane id d {s = s} all.1 (ground arith)
]

sample-InBounds :
    (d : Director) → InBounds d → d.tick + 1 ≤ d.horizon → InBounds (sample d (d.tick + 1))
unfolding sample
sample-InBounds d h room =
    let slo = slo_at d.plan d.seed d.mitigations d.actions (d.tick + 1) in
    record {
      in_horizon = room;
      risk_capped = h.risk_capped;
      integrity_capped = h.integrity_capped;
      budget_capped = ground arith;
      snapshots_sane = h.snapshots_sane;
      sampled = omega (arith, length-append d.slo_samples (slo ∷ []));
      samples_capped =
          All-append _ d.slo_samples (slo ∷ []) h.samples_capped (slo_at-le _ _ _ _ _, tt);
    }

activate-InBounds :
    (d : Director) (names : List String) → InBounds d → InBounds (record d { activated = names })
activate-InBounds d names h = record {
  in_horizon = h.in_horizon;
  risk_capped = h.risk_capped;
  integrity_capped = h.integrity_capped;
  budget_capped = h.budget_capped;
  snapshots_sane = h.snapshots_sane;
  sampled = h.sampled;
  samples_capped = h.samples_capped;
}

-- The clock stands at the horizon, or moves by one.
pub advance_tick :
    (d : Director) → d.tick ≤ d.horizon → (advance d).0.tick ≡ min d.horizon (d.tick + 1)
unfolding advance sample
advance_tick d h = ground arith

advance-InBounds : (d : Director) → InBounds d → InBounds (advance d).0
unfolding advance
advance-InBounds d h =
    let next = min d.horizon (d.tick + 1) in
    activate-InBounds (if next == d.tick then d else sample d next) _ (
      if_rule InBounds (next == d.tick) (λ _. h)
        (λ moved.
          let e : next ≡ d.tick + 1 = ground arith in rw e (sample-InBounds d h (ground arith))))

perform-InBounds :
    (d : Director) (action : Action) (entry : ActionRecord)
    → InBounds d
    → InBounds (perform d action entry)
unfolding perform
perform-InBounds d action entry h = record {
  in_horizon = h.in_horizon;
  risk_capped = omega arith;
  integrity_capped = omega arith;
  budget_capped = h.budget_capped;
  snapshots_sane = h.snapshots_sane;
  sampled = h.sampled;
  samples_capped = h.samples_capped;
}

restore-InBounds :
    (d : Director) (s : Snapshot) (id : String) (entry : ActionRecord)
    → IsSane (id, s)
    → InBounds d
    → InBounds (restore d s entry)
unfolding restore
restore-InBounds d s id entry sane h = record {
  in_horizon = h.in_horizon;
  risk_capped = sane.0;
  integrity_capped = sane.1;
  budget_capped = h.budget_capped;
  snapshots_sane = h.snapshots_sane;
  sampled = h.sampled;
  samples_capped = h.samples_capped;
}

capture-InBounds : (d : Director) (id : String) → InBounds d → InBounds (capture d id)
unfolding capture captured
capture-InBounds d id h = record {
  in_horizon = h.in_horizon;
  risk_capped = h.risk_capped;
  integrity_capped = h.integrity_capped;
  budget_capped = h.budget_capped;
  snapshots_sane =
      put-IsSane id (captured d id) d.snapshots (h.risk_capped, h.integrity_capped)
        h.snapshots_sane;
  sampled = h.sampled;
  samples_capped = h.samples_capped;
}

-- A transition that touches only the logs.
logs-InBounds :
    (d : Director) (os : List Observation) (vs : List Verification) (xs : List Decision)
    → InBounds d
    → InBounds (record d { observations = os; verifications = vs; decisions = xs })
logs-InBounds d os vs xs h = record {
  in_horizon = h.in_horizon;
  risk_capped = h.risk_capped;
  integrity_capped = h.integrity_capped;
  budget_capped = h.budget_capped;
  snapshots_sane = h.snapshots_sane;
  sampled = h.sampled;
  samples_capped = h.samples_capped;
}

-- Every transition keeps the bounds.
pub Transition-InBounds : (d e : Director) → Transition d e → InBounds d → InBounds e
unfolding observed append_verification append_decision
Transition-InBounds d _ idle h = h
Transition-InBounds d _ ticks h = advance-InBounds d h
Transition-InBounds d _ (observes service signal window by) h = logs-InBounds d _ _ _ h
Transition-InBounds d _ (captures id some_left by) h = capture-InBounds d id h
Transition-InBounds d _ (performs call known action some_left free by) h =
    perform-InBounds d action _ h
Transition-InBounds d _ (restores id reason s found by) h =
    restore-InBounds d s id _ (lookup-IsSane id d.snapshots h.snapshots_sane found) h
Transition-InBounds d _ (verifies mode valid scoped by) h = logs-InBounds d _ _ _ h
Transition-InBounds d _ (decides host call known id present by) h = logs-InBounds d _ _ _ h

init-InBounds : (plan : Plan) → InBounds (init plan)
unfolding init
init-InBounds plan = record {
  in_horizon = omega arith;
  risk_capped = omega arith;
  integrity_capped = omega arith;
  budget_capped = omega arith;
  snapshots_sane = tt;
  sampled = omega arith;
  samples_capped = (slo_at-le _ _ _ _ _, tt);
}

-- After any sequence of calls and ticks the tick is within the horizon, risk and data integrity
-- within 100, the error budget within its start, and there is one service-level sample, of at
-- most 100 percent, for each tick from 0 on; the same caps hold of every snapshot's risk and
-- integrity.
pub run-InBounds :
    (host : Host) (events : List Event) (plan : Plan) → InBounds (run host events (init plan))
run-InBounds host events plan =
    run_rule InBounds Transition-InBounds host events (init plan) (init-InBounds plan)

-- ===== src/Release/Bounds.antt =====
-- Ranges of the release director's numbers, along every run
-- (apps/api/app/scenario/release.py).
use the_evil_repository.Prelude.{List, String, arith, refl, ◌≡◌, ◌≤◌}
use the_evil_repository.Release.State.{Action, ActionRecord, Director, Plan}
use the_evil_repository.Release.Clock.{advance, init}
use the_evil_repository.Release.Frame.{Performed, performs-Performed}
use the_evil_repository.Release.Transitions.{
  Transition, captures, decides, idle, observes, performs, ticks, verifies,
}
use the_evil_repository.Release.Inspect.{observed}
use the_evil_repository.Release.Snapshot.{capture}
use the_evil_repository.Release.Verify.{append_verification}
use the_evil_repository.Release.Execute.{Event, append_decision, run}
use the_evil_repository.Protocol.{Host}
use the_evil_repository.Release.Outcomes.{run_rule}

pub record InRange (d : Director) : Type 0 where
  pub in_horizon : d.tick ≤ d.horizon
  pub risk_capped : d.risk ≤ 100
  pub integrity_capped : d.integrity ≤ 100

module _ (d : Director) (h : InRange d) where
  advance-InRange : InRange (advance d).0
  unfolding advance
  advance-InRange = record {
    in_horizon = omega (arith, h.in_horizon);
    risk_capped = h.risk_capped;
    integrity_capped = h.integrity_capped;
  }

  Performed-InRange :
      (entry : ActionRecord) (resolved : String) (action : Action) (e : Director)
      → Performed d entry resolved action e
      → InRange e
  Performed-InRange entry resolved action e p = record {
    in_horizon = omega (arith, p.tick, p.horizon, h.in_horizon);
    risk_capped = omega (arith, p.riskier);
    integrity_capped = omega (arith, p.cheaper, h.integrity_capped);
  }

  -- A transition that touches only budgets, snapshots and logs.
  logs-InRange :
      {e : Director}
      → e.tick ≡ d.tick
      → e.horizon ≡ d.horizon
      → e.risk ≡ d.risk
      → e.integrity ≡ d.integrity
      → InRange e
  logs-InRange tick horizon risk integrity = record {
    in_horizon = omega (arith, tick, horizon, h.in_horizon);
    risk_capped = omega (arith, risk, h.risk_capped);
    integrity_capped = omega (arith, integrity, h.integrity_capped);
  }

pub Transition-InRange : (d e : Director) → Transition d e → InRange d → InRange e
unfolding observed append_verification append_decision capture
Transition-InRange d _ idle h = h
Transition-InRange d _ ticks h = advance-InRange d h
Transition-InRange d _ (observes kind key by) h = logs-InRange d h refl refl refl refl
Transition-InRange d _ (captures id some_left by) h = logs-InRange d h refl refl refl refl
Transition-InRange d _ (performs call known action resolved generated changed left free target c by)
      h =
    Performed-InRange d h _ resolved action _ (performs-Performed d call known action generated c)
Transition-InRange d _ (verifies mode by) h = logs-InRange d h refl refl refl refl
Transition-InRange d _ (decides host call known id present by) h =
    logs-InRange d h refl refl refl refl

init-InRange : (plan : Plan) → InRange (init plan)
unfolding init
init-InRange plan = record {
  in_horizon = omega arith;
  risk_capped = omega arith;
  integrity_capped = omega arith;
}

-- After any sequence of calls and ticks the tick is within the horizon, and the risk and the
-- evidence integrity are at most 100.
pub run-InRange :
    (host : Host) (events : List Event) (plan : Plan) → InRange (run host events (init plan))
run-InRange host events plan =
    run_rule InRange Transition-InRange host events (init plan) (init-InRange plan)

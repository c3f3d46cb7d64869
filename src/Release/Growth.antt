-- ===== src/Release/Growth.antt =====
-- What no handler of the release director takes back (apps/api/app/scenario/release.py).
use the_evil_repository.Prelude.{
  IsPrefix, IsPrefix-append, IsPrefix-refl, IsPrefix-trans, List, String, [], arith, refl, true,
  ◌∙◌, ◌∷◌, ◌≡◌, ◌≤◌,
}
use the_evil_repository.Protocol.{Host}
use the_evil_repository.Release.State.{Action, ActionRecord, Director}
use the_evil_repository.Release.Clock.{advance}
use the_evil_repository.Release.Inspect.{observed}
use the_evil_repository.Release.Snapshot.{capture}
use the_evil_repository.Release.Verify.{append_verification}
use the_evil_repository.Release.Execute.{Event, append_decision, run}
use the_evil_repository.Release.Transitions.{
  Transition, captures, decides, idle, observes, performs, ticks, verifies,
}
use the_evil_repository.Release.Outcomes.{run_rule}
use the_evil_repository.Release.Frame.{Holds, Performed, performs-Performed, still}
use the_evil_repository.Release.Bounds.{InRange, Transition-InRange}

-- What only grows or shrinks, and what stays once it is so.
pub record Continues (d e : Director) : Type 0 where
  pub later : d.tick ≤ e.tick
  pub fewer_actions : e.action_budget ≤ d.action_budget
  pub fewer_rebuilds : e.rebuild_budget ≤ d.rebuild_budget
  pub actions : IsPrefix d.actions e.actions
  pub observations : IsPrefix d.observations e.observations
  pub decisions : IsPrefix d.decisions e.decisions
  pub verifications : IsPrefix d.verifications e.verifications
  pub used : d.irreversible_used ≡ true → e.irreversible_used ≡ true
  pub bypassed :
      d.signature_policy_bypass_attempted ≡ true → e.signature_policy_bypass_attempted ≡ true
  pub held : Holds d e

Continues-trans : (d e f : Director) → Continues d e → Continues e f → Continues d f
Continues-trans d e f x y = record {
  later = omega (arith, x.later, y.later);
  fewer_actions = omega (arith, x.fewer_actions, y.fewer_actions);
  fewer_rebuilds = omega (arith, x.fewer_rebuilds, y.fewer_rebuilds);
  actions = IsPrefix-trans x.actions y.actions;
  observations = IsPrefix-trans x.observations y.observations;
  decisions = IsPrefix-trans x.decisions y.decisions;
  verifications = IsPrefix-trans x.verifications y.verifications;
  used = λ h. y.used (x.used h);
  bypassed = λ h. y.bypassed (x.bypassed h);
  held = record {
    evidence = λ h. y.held.evidence (x.held.evidence h);
    paused = λ h. y.held.paused (x.held.paused h);
    quarantined = λ k h. y.held.quarantined k (x.held.quarantined k h);
  };
}

module _ (d : Director) where
  -- A transition that leaves budgets, actions and the token alone.
  logs-Continues :
      {e : Director}
      → d.tick ≤ e.tick
      → e.action_budget ≡ d.action_budget
      → e.rebuild_budget ≡ d.rebuild_budget
      → e.actions ≡ d.actions
      → IsPrefix d.observations e.observations
      → IsPrefix d.decisions e.decisions
      → IsPrefix d.verifications e.verifications
      → e.irreversible_used ≡ d.irreversible_used
      → e.signature_policy_bypass_attempted ≡ d.signature_policy_bypass_attempted
      → Holds d e
      → Continues d e
  logs-Continues later budget builds acts os xs vs token bypass held = record {
    later = later;
    fewer_actions = omega (arith, budget);
    fewer_rebuilds = omega (arith, builds);
    actions = rw acts (IsPrefix-refl _);
    observations = os;
    decisions = xs;
    verifications = vs;
    used = λ h. token ∙ h;
    bypassed = λ h. bypass ∙ h;
    held = held;
  }

  Performed-Continues :
      (entry : ActionRecord) (resolved : String) (action : Action) (e : Director)
      → Performed d entry resolved action e
      → Continues d e
  Performed-Continues entry resolved action e p = record {
    later = omega (arith, p.tick);
    fewer_actions = omega (arith, p.paid);
    fewer_rebuilds = omega (arith, p.rebuilt);
    actions = rw p.logged (IsPrefix-append _ _);
    observations = rw p.observations (IsPrefix-refl _);
    decisions = rw p.decisions (IsPrefix-refl _);
    verifications = rw p.verifications (IsPrefix-refl _);
    used = λ h. rw p.token (ground (arith, h));
    bypassed = λ h. rw p.bypassed (ground (arith, h));
    held = p.held;
  }

  Transition-Continues : (e : Director) → d.tick ≤ d.horizon → Transition d e → Continues d e
  unfolding observed append_verification append_decision capture advance
  Transition-Continues _ h idle =
      logs-Continues (omega arith) refl refl refl (IsPrefix-refl _) (IsPrefix-refl _)
        (IsPrefix-refl _) refl refl (still refl refl refl)
  Transition-Continues _ h ticks =
      logs-Continues (omega (arith, h)) refl refl refl (IsPrefix-refl _) (IsPrefix-refl _)
        (IsPrefix-refl _) refl refl (still refl refl refl)
  Transition-Continues _ h (observes kind key by) =
      logs-Continues (omega arith) refl refl refl (IsPrefix-append d.observations (_ ∷ []))
        (IsPrefix-refl _) (IsPrefix-refl _) refl refl (still refl refl refl)
  Transition-Continues _ h (captures id some_left by) =
      logs-Continues (omega arith) refl refl refl (IsPrefix-refl _) (IsPrefix-refl _)
        (IsPrefix-refl _) refl refl
        (record { evidence = λ h. refl; paused = λ h. h; quarantined = λ k h. h })
  Transition-Continues _ h
        (performs call known action resolved generated changed left free target c by) =
      Performed-Continues _ resolved action _ (performs-Performed d call known action generated c)
  Transition-Continues _ h (verifies mode by) =
      logs-Continues (omega arith) refl refl refl (IsPrefix-refl _) (IsPrefix-refl _)
        (IsPrefix-append d.verifications (_ ∷ [])) refl refl (still refl refl refl)
  Transition-Continues _ h (decides host call known id present by) =
      logs-Continues (omega arith) refl refl refl (IsPrefix-refl _)
        (IsPrefix-append d.decisions (_ ∷ [])) (IsPrefix-refl _) refl refl (still refl refl refl)

-- From a director within its ranges, whatever is called: the clock only grows; each of the four
-- logs keeps all its entries in their places and only goes on after them; the budgets of actions
-- and rebuilds only shrink; and no handler gives back the irreversible token, forgets an attempt to
-- weaken the signature policy, gives up preserved evidence, resumes a paused rollout or lifts a
-- quarantine.
pub run-Continues :
    (host : Host) (events : List Event) (d : Director) → InRange d → Continues d (run host events d)
run-Continues host events d h =
    (run_rule (λ e. InRange e × Continues d e)
      (λ e f t k. (
        Transition-InRange e f t k.0,
        Continues-trans d e f k.1 (Transition-Continues e f k.0.in_horizon t),
      ))
      host events d (h, Transition-Continues d d h.in_horizon idle)).1

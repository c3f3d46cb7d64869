-- ===== src/Release/Deployment.antt =====
-- What is deployed (`_action`, `_resolve`, `_clean_rebuild`,
-- apps/api/app/scenario/release.py).
use the_evil_repository.Prelude.{
  Bool, Bool-cases, List, Option, String, String-comparable, arith, contains, contains-All, false,
  has_key, if_rule, inl, inr, not, not_absent, refl, str_eq, sym, true, ◌%◌, ◌&&◌, ◌+◌, ◌==◌, ◌||◌,
  ◌∙◌, ◌≡◌,
}
use the_evil_repository.Protocol.{Host, ToolCall}
use the_evil_repository.Release.State.{Action, Director, Plan}
use the_evil_repository.Release.Policy.{policy, takes_target}
use the_evil_repository.Release.Actions.{action_record}
use the_evil_repository.Release.Frame.{Performed, is_deployment, performs-Performed}
use the_evil_repository.Release.Clock.{advance, init}
use the_evil_repository.Release.Attest.{attestation_policies}
use the_evil_repository.Release.Probe.{window_digest}
use the_evil_repository.Release.Inspect.{observed}
use the_evil_repository.Release.Snapshot.{capture}
use the_evil_repository.Release.Verify.{append_verification}
use the_evil_repository.Release.Execute.{Event, append_decision, execute, run}
use the_evil_repository.Release.Transitions.{
  Transition, captures, decides, idle, observes, performs, ticks, verifies,
}
use the_evil_repository.Release.Handled.{Missing, is_raised, version, window_artifact}
use the_evil_repository.Release.Outcomes.{execute-Handled, run_rule}

-- The deployment is an artifact that the director knows, and so is the initial one; it differs
-- from the initial one only once the token is used.
pub record IsDeployed (d : Director) : Type 0 where
  pub known : has_key d.deployment_digest d.artifacts ≡ true
  pub initial_known : has_key d.initial_digest d.artifacts ≡ true
  pub untouched : d.irreversible_used ≡ false → d.deployment_digest ≡ d.initial_digest

takes : (action : Action) → is_deployment action ≡ true → takes_target action ≡ true
unfolding policy
takes action h = ground arith

-- An action that leaves the token unused deploys nothing.
spares :
    (shot unsafe used : Bool)
    → (shot || used) ≡ false
    → ((shot && not unsafe) ≡ false) × (used ≡ false)
spares shot unsafe used h = ground arith

module _ (d : Director) (h : IsDeployed d) where
  logs-IsDeployed :
      {e : Director}
      → e.artifacts ≡ d.artifacts
      → e.deployment_digest ≡ d.deployment_digest
      → e.initial_digest ≡ d.initial_digest
      → e.irreversible_used ≡ d.irreversible_used
      → IsDeployed e
  logs-IsDeployed artifacts deployed initial used = record {
    known = rw (artifacts, deployed) h.known;
    initial_known = rw (artifacts, initial) h.initial_known;
    untouched = rw (deployed, initial, used) h.untouched;
  }

  perform-IsDeployed :
      (call : ToolCall) (known : List String) (action : Action) (resolved : String)
      (generated : Option String) (e : Director)
      → (takes_target action ≡ true → has_key resolved d.artifacts ≡ true)
      → Performed d (action_record d call known generated action) resolved action e
      → IsDeployed e
  unfolding action_record
  perform-IsDeployed call known action resolved generated e target p = record {
    known = p.known e.deployment_digest (
        rw p.deployed (
          if_rule (λ x. has_key x d.artifacts ≡ true) (is_deployment action)
            (λ deploys. target (takes action deploys)) (λ _. h.known)));
    initial_known = rw p.initial (p.known d.initial_digest h.initial_known);
    untouched = λ free.
        let (none_deployed, fresh) =
          spares (policy action).irreversible (policy action).unsafe d.irreversible_used
            (sym p.token ∙ free) in
        rw (p.deployed, p.initial, none_deployed) (h.untouched fresh);
  }

init-IsDeployed :
    (plan : Plan)
    → has_key plan.initial_deployment_digest plan.artifacts ≡ true
    → IsDeployed (init plan)
unfolding init
init-IsDeployed plan known = record { known = known; initial_known = known; untouched = λ _. refl }

pub Transition-IsDeployed : (d e : Director) → Transition d e → IsDeployed d → IsDeployed e
unfolding observed append_verification append_decision capture advance
Transition-IsDeployed d _ idle h = h
Transition-IsDeployed d _ ticks h = logs-IsDeployed d h refl refl refl refl
Transition-IsDeployed d _ (observes kind key by) h = logs-IsDeployed d h refl refl refl refl
Transition-IsDeployed d _ (captures id some_left by) h = logs-IsDeployed d h refl refl refl refl
Transition-IsDeployed d _
      (performs call known action resolved generated changed left free target c by) h =
    perform-IsDeployed d h call known action resolved generated _ target
      (performs-Performed d call known action generated c)
Transition-IsDeployed d _ (verifies mode by) h = logs-IsDeployed d h refl refl refl refl
Transition-IsDeployed d _ (decides host call known id present by) h =
    logs-IsDeployed d h refl refl refl refl

-- If the plan's initial digest is one of its artifacts, then after any sequence of calls and
-- ticks the deployed digest is an artifact that the director knows, and as long as the
-- irreversible token is unused it is the initial digest.
pub run-IsDeployed :
    (host : Host) (events : List Event) (plan : Plan)
    → has_key plan.initial_deployment_digest plan.artifacts ≡ true
    → IsDeployed (run host events (init plan))
run-IsDeployed host events plan known =
    run_rule IsDeployed Transition-IsDeployed host events (init plan) (init-IsDeployed plan known)

-- A plan whose initial and last good digests are artifacts of it, and that names a verifier
-- version for each policy.
pub record IsUsable (plan : Plan) : Type 0 where
  pub initial : has_key plan.initial_deployment_digest plan.artifacts ≡ true
  pub last_good : has_key plan.last_good_digest plan.artifacts ≡ true
  pub active : has_key "active" plan.verifier_versions ≡ true
  pub offline_root : has_key "offline-root" plan.verifier_versions ≡ true
  pub reproducible : has_key "reproducible" plan.verifier_versions ≡ true

pub record IsServed (d : Director) : Type 0 where
  pub deployed : IsDeployed d
  pub last_good : has_key d.plan.last_good_digest d.artifacts ≡ true
  pub active : has_key "active" d.plan.verifier_versions ≡ true
  pub offline_root : has_key "offline-root" d.plan.verifier_versions ≡ true
  pub reproducible : has_key "reproducible" d.plan.verifier_versions ≡ true

-- No transition changes the plan or loses an artifact.
keeps_artifacts :
    (d e : Director) (key : String)
    → Transition d e
    → has_key key d.artifacts ≡ true
    → (e.plan ≡ d.plan) × (has_key key e.artifacts ≡ true)
unfolding observed append_verification append_decision capture advance
keeps_artifacts d _ key idle h = (refl, h)
keeps_artifacts d _ key ticks h = (refl, h)
keeps_artifacts d _ key (observes kind name by) h = (refl, h)
keeps_artifacts d _ key (captures id some_left by) h = (refl, h)
keeps_artifacts d _ key
      (performs call known action resolved generated changed left free target c by) h =
    let p = performs-Performed d call known action generated c in (p.plan, p.known key h)
keeps_artifacts d _ key (verifies mode by) h = (refl, h)
keeps_artifacts d _ key (decides host call known id present by) h = (refl, h)

Transition-IsServed : (d e : Director) → Transition d e → IsServed d → IsServed e
Transition-IsServed d e t h =
    let (plan, last_good) = keeps_artifacts d e d.plan.last_good_digest t h.last_good in
    record {
      deployed = Transition-IsDeployed d e t h.deployed;
      last_good = rw plan last_good;
      active = rw plan h.active;
      offline_root = rw plan h.offline_root;
      reproducible = rw plan h.reproducible;
    }

window_known :
    (d : Director) (window : String)
    → IsServed d
    → has_key (window_digest d window) d.artifacts ≡ true
unfolding window_digest
window_known d window h =
    let Known = λ (digest : String). has_key digest d.artifacts ≡ true in
    let initial = h.deployed.initial_known in
    let deployed = h.deployed.known in
    if_rule Known (str_eq window "baseline") (λ _. initial)
      λ _.
        if_rule Known (str_eq window "previous") (λ _. h.last_good)
          λ _.
            if_rule Known (str_eq window "current") (λ _. deployed)
              λ _. if_rule Known ((d.tick + d.seed) % 3 == 0) (λ _. initial) (λ _. deployed)

version_known :
    (d : Director) (policy : String)
    → IsServed d
    → contains policy attestation_policies ≡ true
    → has_key policy d.plan.verifier_versions ≡ true
version_known d policy h listed =
    contains-All (λ name. has_key name d.plan.verifier_versions ≡ true) policy attestation_policies
      listed (h.active, (h.offline_root, (h.reproducible, tt)))

IsServed-not-Missing : (d : Director) → IsServed d → Missing d → ⊥
IsServed-not-Missing d h (version policy listed lost) =
    not_absent policy d.plan.verifier_versions (version_known d policy h listed) lost
IsServed-not-Missing d h (window_artifact window lost) =
    not_absent (window_digest d window) d.artifacts (window_known d window h) lost

-- If the initial and the last good digest of a plan are artifacts of it, and it names a verifier
-- version for each of the three policies, then no call after any sequence of calls and ticks
-- raises KeyError.
pub execute_never_raises :
    (host : Host) (events : List Event) (plan : Plan) (call : ToolCall) (known : List String)
    → IsUsable plan
    → is_raised (execute host (run host events (init plan)) call known).1 ≡ false
unfolding init
execute_never_raises host events plan call known usable =
    let d = run host events (init plan) in
    let served = run_rule IsServed Transition-IsServed host events (init plan) (record {
      deployed = init-IsDeployed plan usable.initial;
      last_good = usable.last_good;
      active = usable.active;
      offline_root = usable.offline_root;
      reproducible = usable.reproducible;
    }) in
    elim (Bool-cases (is_raised (execute host d call known).1)) [
      | inl e ↦
          absurd (IsServed-not-Missing d served ((execute-Handled host d call known).raises e))
      | inr e ↦ e
    ]

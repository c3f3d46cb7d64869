-- ===== src/Release/Frame.antt =====
-- What an action of the release director leaves as it was (`_action`,
-- apps/api/app/scenario/release.py).
use the_evil_repository.Prelude.{
  Bool, Dict, List, Option, String, String-comparable, [], add, ap, arith, contains,
  contains-append, has_key, if_rule, if◌then◌else◌, is_some, lookup-put, max, min, none, not,
  one_if, put, refl, str_eq, true, ◌&&◌, ◌++◌, ◌+◌, ◌-◌, ◌||◌, ◌∙◌, ◌∷◌, ◌≡◌, ◌≤◌,
}
use the_evil_repository.Release.State.{Action, ActionRecord, Artifact, Director}
use the_evil_repository.Release.Policy.{is_denied, is_rebuild, policy}
use the_evil_repository.Release.Transitions.{
  Change, clears, disables, falls_back, patches, pauses, preserves, promotes, quarantines, rebuilds,
  retags,
}
use the_evil_repository.Release.Actions.{action_record, append_action, charge}
use the_evil_repository.Protocol.{ToolCall}

-- An action changes these fields at most.
abbrev pub OnlyChanges : Director → Director → Type 0
OnlyChanges d e = e ≡ record d {
  artifacts = e.artifacts;
  tags = e.tags;
  deployment_digest = e.deployment_digest;
  paused = e.paused;
  evidence_preserved = e.evidence_preserved;
  quarantined = e.quarantined;
  signature_policy_bypass_attempted = e.signature_policy_bypass_attempted;
  integrity = e.integrity;
  rebuild_budget = e.rebuild_budget;
}

-- The safe irreversible actions deploy their target, and no other action deploys.
abbrev pub is_deployment : Action → Bool
is_deployment action = (policy action).irreversible && not (policy action).unsafe

abbrev pub Deploys : Director → String → Action → Director → Type 0
Deploys d resolved action e =
    e.deployment_digest ≡ (if is_deployment action then resolved else d.deployment_digest)

abbrev pub Bypasses : Director → Action → Director → Type 0
Bypasses d action e =
    e.signature_policy_bypass_attempted ≡ (is_denied action || d.signature_policy_bypass_attempted)

-- No action gives up evidence, resumes the rollout or lifts a quarantine.
pub record Holds (d e : Director) : Type 0 where
  pub evidence : d.evidence_preserved ≡ true → e.evidence_preserved ≡ true
  pub paused : d.paused ≡ true → e.paused ≡ true
  pub quarantined :
      (digest : String)
      → contains digest d.quarantined ≡ true
      → contains digest e.quarantined ≡ true

pub still :
    {d e : Director}
    → e.evidence_preserved ≡ d.evidence_preserved
    → e.paused ≡ d.paused
    → e.quarantined ≡ d.quarantined
    → Holds d e
still evidence paused quarantined = record {
  evidence = λ h. evidence ∙ h;
  paused = λ h. paused ∙ h;
  quarantined = λ k h. rw quarantined h;
}

contains-add :
    (digest other : String) (xs : List String)
    → contains digest xs ≡ true
    → contains digest (add other xs) ≡ true
contains-add digest other xs h =
    if_rule (λ ys. contains digest ys ≡ true) (contains other xs) (λ _. h)
      (λ _. rw contains-append (ground (arith, h)))

pub record Frame (d : Director) (resolved : String) (action : Action) (e : Director) : Type 0 where
  pub only : OnlyChanges d e
  pub cheaper : e.integrity ≤ d.integrity
  pub rebuilt : e.rebuild_budget + one_if (is_rebuild action) ≡ d.rebuild_budget
  pub deployed : Deploys d resolved action e
  pub bypassed : Bypasses d action e
  pub known : (key : String) → has_key key d.artifacts ≡ true → has_key key e.artifacts ≡ true
  pub held : Holds d e

has_key-put :
    (key digest : String) (artifact : Artifact) (artifacts : Dict Artifact)
    → has_key key artifacts ≡ true
    → has_key key (put digest artifact artifacts) ≡ true
has_key-put key digest artifact artifacts h =
    rw (lookup-put digest key artifact artifacts)
      (if_rule (λ o. is_some o ≡ true) (str_eq digest key) (λ _. refl) (λ _. h))

framed :
    {d : Director} {resolved : String} {action : Action} {e : Director}
    → OnlyChanges d e
    → e.integrity ≤ d.integrity
    → e.rebuild_budget + one_if (is_rebuild action) ≡ d.rebuild_budget
    → Deploys d resolved action e
    → Bypasses d action e
    → ((key : String) → has_key key d.artifacts ≡ true → has_key key e.artifacts ≡ true)
    → Holds d e
    → Frame d resolved action e
framed only cheaper rebuilt deployed bypassed known held = record {
  only = only;
  cheaper = cheaper;
  rebuilt = rebuilt;
  deployed = deployed;
  bypassed = bypassed;
  known = known;
  held = held;
}

pub Change-Frame :
    (d : Director) (resolved : String) (action : Action) (e : Director)
    → Change d resolved action e
    → Frame d resolved action e
unfolding policy
Change-Frame d r _ _ preserves =
    framed refl (omega arith) (omega arith) refl refl (λ k h. h)
      (record { evidence = λ h. refl; paused = λ h. h; quarantined = λ k h. h })
Change-Frame d r _ _ pauses =
    framed refl (omega arith) (omega arith) refl refl (λ k h. h)
      (record { evidence = λ h. h; paused = λ h. refl; quarantined = λ k h. h })
Change-Frame d r _ _ quarantines =
    framed refl (omega arith) (omega arith) refl refl (λ k h. h)
      (record {
        evidence = λ h. h;
        paused = λ h. h;
        quarantined = λ k h. contains-add k r d.quarantined h;
      })
Change-Frame d r _ _ (rebuilds digest artifact some_left) =
    framed refl (omega arith) (omega arith) refl refl
      (λ k h. has_key-put k digest artifact d.artifacts h) (still refl refl refl)
Change-Frame d r _ _ promotes =
    framed refl (omega arith) (omega arith) refl refl (λ k h. h) (still refl refl refl)
Change-Frame d r _ _ falls_back =
    framed refl (omega arith) (omega arith) refl refl (λ k h. h) (still refl refl refl)
Change-Frame d r _ _ retags =
    framed refl (omega arith) (omega arith) refl refl (λ k h. h) (still refl refl refl)
Change-Frame d r _ _ clears =
    framed refl (omega arith) (omega arith) refl refl (λ k h. h) (still refl refl refl)
Change-Frame d r _ _ disables =
    framed refl (omega arith) (omega arith) refl refl (λ k h. h) (still refl refl refl)
Change-Frame d r _ _ patches =
    framed refl (omega arith) (omega arith) refl refl (λ k h. h) (still refl refl refl)

-- Where an action leaves the director: what it costs, what it logs, and what stays.
pub record Performed (d : Director) (entry : ActionRecord) (resolved : String) (action : Action)
    (e : Director) : Type 0 where
  pub plan : e.plan ≡ d.plan
  pub tick : e.tick ≡ d.tick
  pub horizon : e.horizon ≡ d.horizon
  pub initial : e.initial_digest ≡ d.initial_digest
  pub snapshot_budget : e.snapshot_budget ≡ d.snapshot_budget
  pub snapshots : e.snapshots ≡ d.snapshots
  pub observations : e.observations ≡ d.observations
  pub decisions : e.decisions ≡ d.decisions
  pub verifications : e.verifications ≡ d.verifications
  pub recovery : e.recovery_verified ≡ d.recovery_verified
  pub paid : e.action_budget ≡ d.action_budget - 1
  pub logged : e.actions ≡ d.actions ++ entry ∷ []
  pub token : e.irreversible_used ≡ (entry.irreversible || d.irreversible_used)
  pub riskier : e.risk ≡ min 100 (d.risk + entry.risk_delta)
  pub cheaper : e.integrity + entry.integrity_cost ≤ max d.integrity entry.integrity_cost
  pub rebuilt : e.rebuild_budget + one_if (is_rebuild action) ≡ d.rebuild_budget
  pub deployed : Deploys d resolved action e
  pub bypassed : Bypasses d action e
  pub known : (key : String) → has_key key d.artifacts ≡ true → has_key key e.artifacts ≡ true
  pub held : Holds d e

-- `priced` and `entry` are the action's record before and after it took effect.
pub Change-Performed :
    (d : Director) (priced entry : ActionRecord) (resolved : String) (action : Action)
    (e : Director)
    → (priced.irreversible ≡ entry.irreversible)
      × (priced.risk_delta ≡ entry.risk_delta)
      × (priced.integrity_cost ≡ entry.integrity_cost)
    → Change (charge d priced) resolved action e
    → Performed d entry resolved action (append_action e entry)
unfolding charge append_action
Change-Performed d priced entry resolved action e (shot, risk, cost) c =
    let f = Change-Frame (charge d priced) resolved action e c in
    let cheaper = f.cheaper in
    record {
      plan = ap (λ (x : Director). x.plan) f.only;
      tick = ap (λ (x : Director). x.tick) f.only;
      horizon = ap (λ (x : Director). x.horizon) f.only;
      initial = ap (λ (x : Director). x.initial_digest) f.only;
      snapshot_budget = ap (λ (x : Director). x.snapshot_budget) f.only;
      snapshots = ap (λ (x : Director). x.snapshots) f.only;
      observations = ap (λ (x : Director). x.observations) f.only;
      decisions = ap (λ (x : Director). x.decisions) f.only;
      verifications = ap (λ (x : Director). x.verifications) f.only;
      recovery = ap (λ (x : Director). x.recovery_verified) f.only;
      paid = ap (λ (x : Director). x.action_budget) f.only;
      logged = ap (λ (x : Director). x.actions ++ entry ∷ []) f.only;
      token = rw (← shot) (ap (λ (x : Director). x.irreversible_used) f.only);
      riskier = rw (← risk) (ap (λ (x : Director). x.risk) f.only);
      cheaper = rw (← cost) (omega (arith, cheaper));
      rebuilt = f.rebuilt;
      deployed = f.deployed;
      bypassed = f.bypassed;
      known = f.known;
      held = record {
        evidence = f.held.evidence;
        paused = f.held.paused;
        quarantined = f.held.quarantined;
      };
    }

pub performs-Performed :
    (d : Director) (call : ToolCall) (known : List String) (action : Action) {resolved : String}
    (generated : Option String) {changed : Director}
    → Change (charge d (action_record d call known none action)) resolved action changed
    → let entry = action_record d call known generated action in
      Performed d entry resolved action (append_action changed entry)
unfolding action_record
performs-Performed d call known action {resolved} generated {changed} c =
    Change-Performed d (action_record d call known none action) _ resolved action changed
      (refl, refl, refl) c

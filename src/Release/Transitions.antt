-- ===== src/Release/Transitions.antt =====
-- The release director as a transition system: every call and tick is one of seven transitions; all
-- but the idle one and the tick come from a call that the guards of its handler let through
-- (apps/api/app/scenario/release.py).
use the_evil_repository.Prelude.{
  List, Option, String, String-comparable, add, false, has_key, max, none, put, some, true, ◌&&◌,
  ◌-◌, ◌<◌, ◌≡◌,
}
use the_evil_repository.Protocol.{Host, ToolCall}
use the_evil_repository.Release.State.{
  Action, Artifact, Director, Mode, clean_rebuild, clear_shared_cache, disable_signature_policy,
  patch_source, pause_rollout, preserve_evidence, promote_digest, quarantine_digest, retag_in_place,
  rollback_to_digest,
}
use the_evil_repository.Release.Clock.{advance}
use the_evil_repository.Release.Inspect.{observed, resolve}
use the_evil_repository.Release.Snapshot.{capture, next_snapshot_id}
use the_evil_repository.Release.Policy.{find_action, policy, takes_target}
use the_evil_repository.Release.Actions.{action_record, append_action, charge}
use the_evil_repository.Release.Verify.{append_verification, find_mode, verification}
use the_evil_repository.Release.Execute.{
  action_handler, append_decision, decision_handler, decision_record, snapshot_handler,
  verify_handler,
}
use the_evil_repository.Release.Admission.{ReadBy, Request, lowered, stripped}

-- What each action changes beside its price.
pub data Change (d : Director) (resolved : String) : Action → Director → Type 0 where
  preserves : Change d resolved preserve_evidence (record d { evidence_preserved = true })
  pauses : Change d resolved pause_rollout (record d { paused = true })
  quarantines :
      Change d resolved quarantine_digest (record d { quarantined = add resolved d.quarantined })
  rebuilds :
      (digest : String) (artifact : Artifact)
      → 0 < d.rebuild_budget
      → Change d resolved clean_rebuild (record d {
        rebuild_budget = d.rebuild_budget - 1;
        artifacts = put digest artifact d.artifacts;
        tags = put "registry.local/recovery/candidate" digest d.tags;
      })
  promotes : Change d resolved promote_digest (record d { deployment_digest = resolved })
  falls_back : Change d resolved rollback_to_digest (record d { deployment_digest = resolved })
  retags :
      Change d resolved retag_in_place
        (record d { tags = put d.plan.production_reference resolved d.tags })
  clears : Change d resolved clear_shared_cache (record d { integrity = max 0 (d.integrity - 5) })
  disables :
      Change d resolved disable_signature_policy
        (record d { signature_policy_bypass_attempted = true })
  patches : Change d resolved patch_source d

-- What a transition takes from the call that asks for it, beside the guards.
pub record ObservedBy (d : Director) (kind key : String) : Type 0 where
  pub request : Request d
  pub read : ReadBy d request kind key

pub record CapturedBy (d : Director) (id : String) : Type 0 where
  pub request : Request d
  pub handled : request.handler ≡ snapshot_handler
  pub numbered : id ≡ next_snapshot_id request.host d (stripped request.call "scope")

pub record PerformedBy (d : Director) (call : ToolCall) (known : List String) (action : Action)
    (resolved : String) : Type 0 where
  pub request : Request d
  pub handled : request.handler ≡ action_handler
  pub same_call : call ≡ request.call
  pub same_evidence : known ≡ request.known
  pub named : find_action (lowered request.host request.call "action") ≡ some action
  pub target :
      takes_target action ≡ true → resolve d (stripped request.call "target") ≡ some resolved

pub record VerifiedBy (d : Director) (mode : Mode) : Type 0 where
  pub request : Request d
  pub handled : request.handler ≡ verify_handler
  pub named : find_mode (lowered request.host request.call "mode") ≡ some mode

pub record DecidedBy (d : Director) (host : Host) (call : ToolCall) (known : List String)
    (id : String) : Type 0 where
  pub request : Request d
  pub handled : request.handler ≡ decision_handler
  pub same_host : host ≡ request.host
  pub same_call : call ≡ request.call
  pub same_evidence : known ≡ request.known
  pub named : id ≡ stripped request.call "ticket_id"

pub data Transition (d : Director) : Director → Type 0 where
  idle : Transition d d
  ticks : Transition d (advance d).0
  observes : (kind key : String) → ObservedBy d kind key → Transition d (observed d kind key)
  captures : (id : String) → 0 < d.snapshot_budget → CapturedBy d id → Transition d (capture d id)
  performs :
      (call : ToolCall) (known : List String) (action : Action) (resolved : String)
      (generated : Option String) (changed : Director)
      → 0 < d.action_budget
      → ((policy action).irreversible && d.irreversible_used) ≡ false
      → (takes_target action ≡ true → has_key resolved d.artifacts ≡ true)
      → Change (charge d (action_record d call known none action)) resolved action changed
      → PerformedBy d call known action resolved
      → Transition d (append_action changed (action_record d call known generated action))
  verifies :
      (mode : Mode) → VerifiedBy d mode → Transition d (append_verification d (verification d mode))
  decides :
      (host : Host) (call : ToolCall) (known : List String) (id : String)
      → has_key id d.plan.tickets ≡ true
      → DecidedBy d host call known id
      → Transition d (append_decision d (decision_record host d call known id))

-- The call that a transition comes from.
abbrev pub request_of : {d e : Director} → Transition d e → Option (Request d)
request_of idle = none
request_of ticks = none
request_of (observes kind key by) = some by.request
request_of (captures id left by) = some by.request
request_of (performs call known action resolved generated changed left free target c by) =
    some by.request
request_of (verifies mode by) = some by.request
request_of (decides host call known id present by) = some by.request

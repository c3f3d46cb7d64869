-- ===== src/Incident/Relation.antt =====
-- The director as a transition system: every call and tick is one of eight transitions; all but the
-- idle one and the tick come from a call that the guards of its handler let through
-- (apps/api/app/scenario/incident.py).
use the_evil_repository.Prelude.{
  Bool, List, Option, String, false, has_key, lookup, none, some, strip, true, ◌&&◌, ◌<>◌, ◌<◌, ◌≡◌,
  ◌⊎◌,
}
use the_evil_repository.Protocol.{Host, ToolCall, argument}
use the_evil_repository.Incident.State.{Action, Director, Mode, Snapshot}
use the_evil_repository.Incident.Clock.{advance}
use the_evil_repository.Incident.Observe.{observed}
use the_evil_repository.Incident.Snapshots.{capture, next_snapshot_id}
use the_evil_repository.Incident.Rollback.{restore, rollback_record}
use the_evil_repository.Incident.Actions.{action_record, find_action, perform, policy}
use the_evil_repository.Incident.Verify.{append_verification, find_mode, truth, verification}
use the_evil_repository.Incident.Execute.{
  action_handler, append_decision, decision_handler, decision_record, observability_handler,
  observe_handler, rollback_handler, snapshot_handler, verify_handler,
}
use the_evil_repository.Incident.Admission.{Request, service_of, signal_of, window_of}

-- What a transition takes from the call that asks for it, beside the guards.
pub record ObservedBy (d : Director) (service signal window : String) : Type 0 where
  pub request : Request d
  pub named : service ≡ service_of request.call
  pub read :
      ((request.handler ≡ observe_handler) × (signal ≡ signal_of request.host request.call))
      ⊎ ((request.handler ≡ observability_handler) × (signal ≡ "os:" <> request.call.name))
  pub over : window ≡ window_of request.host request.call

pub record CapturedBy (d : Director) (id : String) : Type 0 where
  pub request : Request d
  pub handled : request.handler ≡ snapshot_handler
  pub numbered : id ≡ next_snapshot_id request.host d (strip (argument request.call "scope" ""))

pub record PerformedBy (d : Director) (call : ToolCall) (known : List String) (action : Action)
    : Type 0 where
  pub request : Request d
  pub handled : request.handler ≡ action_handler
  pub same_call : call ≡ request.call
  pub same_evidence : known ≡ request.context.known_evidence_keys
  pub named :
      find_action (request.host.casefold (strip (argument request.call "action" ""))) ≡ some action

pub record RestoredBy (d : Director) (id reason : String) : Type 0 where
  pub request : Request d
  pub handled : request.handler ≡ rollback_handler
  pub named : id ≡ strip (argument request.call "snapshot_id" "")
  pub given : reason ≡ strip (argument request.call "reason" "")

pub record VerifiedBy (d : Director) (mode : Mode) (valid scoped : Bool) : Type 0 where
  pub request : Request d
  pub handled : request.handler ≡ verify_handler
  pub named :
      find_mode (request.host.casefold (strip (argument request.call "mode" ""))) ≡ some mode
  pub patch : valid ≡ truth request.context.patch_valid
  pub scope : scoped ≡ truth request.context.scope_valid

pub record DecidedBy (d : Director) (host : Host) (call : ToolCall) (known : List String)
    (id : String) : Type 0 where
  pub request : Request d
  pub handled : request.handler ≡ decision_handler
  pub same_host : host ≡ request.host
  pub same_call : call ≡ request.call
  pub same_evidence : known ≡ request.context.known_evidence_keys
  pub named : id ≡ strip (argument request.call "ticket_id" "")

pub data Transition (d : Director) : Director → Type 0 where
  idle : Transition d d
  ticks : Transition d (advance d).0
  observes :
      (service signal window : String)
      → ObservedBy d service signal window
      → Transition d (observed d service signal window)
  captures : (id : String) → 0 < d.snapshot_budget → CapturedBy d id → Transition d (capture d id)
  performs :
      (call : ToolCall) (known : List String) (action : Action)
      → 0 < d.action_budget
      → ((policy action).irreversible && d.irreversible_used) ≡ false
      → PerformedBy d call known action
      → Transition d (perform d action (action_record d call known action))
  restores :
      (id reason : String) (s : Snapshot)
      → lookup id d.snapshots ≡ some s
      → RestoredBy d id reason
      → Transition d (restore d s (rollback_record d id reason))
  verifies :
      (mode : Mode) (valid scoped : Bool)
      → VerifiedBy d mode valid scoped
      → Transition d (append_verification d (verification d mode valid scoped))
  decides :
      (host : Host) (call : ToolCall) (known : List String) (id : String)
      → has_key id d.plan.tickets ≡ true
      → DecidedBy d host call known id
      → Transition d (append_decision d (decision_record host d call known id))

-- The call that a transition comes from.
abbrev pub request_of : {d e : Director} → Transition d e → Option (Request d)
request_of idle = none
request_of ticks = none
request_of (observes service signal window by) = some by.request
request_of (captures id left by) = some by.request
request_of (performs call known action left free by) = some by.request
request_of (restores id reason s found by) = some by.request
request_of (verifies mode valid scoped by) = some by.request
request_of (decides host call known id present by) = some by.request

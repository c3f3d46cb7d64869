-- ===== src/Incident/Admission.antt =====
-- The guards of the handlers (apps/api/app/scenario/incident.py): what a call must be like to be
-- answered without an error.
use the_evil_repository.Prelude.{
  String, String-comparable, contains, false, has_key, is_empty, length, lookup, some, strip, true,
  ◌&&◌, ◌<◌, ◌≡◌, ◌≤◌,
}
use the_evil_repository.Protocol.{Host, ToolCall, argument, cited_keys, within_unit}
use the_evil_repository.Incident.State.{Action, Director, Mode, Snapshot}
use the_evil_repository.Incident.Observe.{observation_signals, observation_windows}
use the_evil_repository.Incident.Actions.{find_action, policy}
use the_evil_repository.Incident.Verify.{find_mode}
use the_evil_repository.Incident.Execute.{
  Context, Handler, action_handler, decision_handler, find_handler, observability_handler,
  observe_handler, rollback_handler, snapshot_handler, status_handler, verify_handler,
}

abbrev pub service_of : ToolCall → String
service_of call = strip (argument call "service" "")

abbrev pub signal_of : Host → ToolCall → String
signal_of host call = host.casefold (strip (argument call "signal" ""))

abbrev pub window_of : Host → ToolCall → String
window_of host call = host.casefold (strip (argument call "window" "current"))

pub record CanObserve (host : Host) (d : Director) (call : ToolCall) : Type 0 where
  pub service : has_key (service_of call) d.plan.services ≡ true
  pub signal : contains (signal_of host call) observation_signals ≡ true
  pub window : contains (window_of host call) observation_windows ≡ true

pub record CanProbe (host : Host) (d : Director) (call : ToolCall) : Type 0 where
  pub service : has_key (service_of call) d.plan.services ≡ true
  pub window : contains (window_of host call) observation_windows ≡ true

pub record CanSnapshot (d : Director) (call : ToolCall) : Type 0 where
  pub left : 0 < d.snapshot_budget
  pub scope : is_empty (strip (argument call "scope" "")) ≡ false
  pub reason : is_empty (strip (argument call "reason" "")) ≡ false

pub record CanAct (host : Host) (d : Director) (call : ToolCall) : Type 0 where
  pub action : Action
  pub left : 0 < d.action_budget
  pub named : find_action (host.casefold (strip (argument call "action" ""))) ≡ some action
  pub free : ((policy action).irreversible && d.irreversible_used) ≡ false

pub record CanRollBack (d : Director) (call : ToolCall) : Type 0 where
  pub stored : Snapshot
  pub found : lookup (strip (argument call "snapshot_id" "")) d.snapshots ≡ some stored

pub record CanVerify (host : Host) (call : ToolCall) : Type 0 where
  pub mode : Mode
  pub named : find_mode (host.casefold (strip (argument call "mode" ""))) ≡ some mode

pub record CanDecide (d : Director) (call : ToolCall) : Type 0 where
  pub ticket : has_key (strip (argument call "ticket_id" "")) d.plan.tickets ≡ true
  pub confidence : within_unit call.confidence ≡ true
  pub evidence : 2 ≤ length (cited_keys call)

-- The guards of a handler let a call through.
abbrev pub Admits : Host → Director → ToolCall → Handler → Type 0
Admits host d call status_handler = Unit
Admits host d call observe_handler = CanObserve host d call
Admits host d call observability_handler = CanProbe host d call
Admits host d call snapshot_handler = CanSnapshot d call
Admits host d call action_handler = CanAct host d call
Admits host d call rollback_handler = CanRollBack d call
Admits host d call verify_handler = CanVerify host call
Admits host d call decision_handler = CanDecide d call

-- A call that its handler's guards let through.
pub record Request (d : Director) : Type 0 where
  pub host : Host
  pub call : ToolCall
  pub context : Context
  pub handler : Handler
  pub found : find_handler call.name ≡ some handler
  pub admitted : Admits host d call handler

-- ===== src/Release/Admission.antt =====
-- The guards of the handlers (apps/api/app/scenario/release.py): what a call must be like to be
-- answered without an error.
use the_evil_repository.Prelude.{
  List, String, String-comparable, contains, false, has_key, is_empty, is_some, length, some,
  str_eq, strip, true, ◌&&◌, ◌<>◌, ◌<◌, ◌==◌, ◌≡◌, ◌≤◌,
}
use the_evil_repository.Protocol.{Host, ToolCall, argument, cited_keys, within_unit}
use the_evil_repository.Release.State.{Action, Director, Mode}
use the_evil_repository.Release.Inspect.{registry_views, resolve}
use the_evil_repository.Release.Attest.{attestation_policies}
use the_evil_repository.Release.Probe.{runtime_signals, runtime_windows}
use the_evil_repository.Release.Policy.{find_action, is_rebuild, policy, takes_target}
use the_evil_repository.Release.Verify.{find_mode}
use the_evil_repository.Release.Execute.{
  Handler, action_handler, attestation_handler, decision_handler, find_handler, provenance_handler,
  registry_handler, runtime_handler, snapshot_handler, status_handler, verify_handler,
}

-- An argument without its outer spaces, and the same in lower case.
abbrev pub stripped : ToolCall → String → String
stripped call key = strip (argument call key "")

abbrev pub lowered : Host → ToolCall → String → String
lowered host call key = host.casefold (stripped call key)

abbrev pub window_of : Host → ToolCall → String
window_of host call = host.casefold (strip (argument call "window" "current"))

abbrev pub target_of : ToolCall → String
target_of call = strip (argument call "target" "production")

pub record CanInspect (host : Host) (d : Director) (call : ToolCall) : Type 0 where
  pub view : contains (lowered host call "view") registry_views ≡ true
  pub reference : is_some (resolve d (stripped call "reference")) ≡ true

pub record CanAttest (host : Host) (d : Director) (call : ToolCall) : Type 0 where
  pub policy : contains (lowered host call "policy") attestation_policies ≡ true
  pub artifact : is_some (resolve d (stripped call "digest")) ≡ true

pub record CanProbe (host : Host) (call : ToolCall) : Type 0 where
  pub signal : contains (lowered host call "signal") runtime_signals ≡ true
  pub window : contains (window_of host call) runtime_windows ≡ true
  pub target : str_eq (target_of call) "production" ≡ true

pub record CanSnapshot (d : Director) (call : ToolCall) : Type 0 where
  pub left : 0 < d.snapshot_budget
  pub scope : is_empty (stripped call "scope") ≡ false
  pub reason : is_empty (stripped call "reason") ≡ false

pub record CanAct (host : Host) (d : Director) (call : ToolCall) : Type 0 where
  pub action : Action
  pub left : 0 < d.action_budget
  pub named : find_action (lowered host call "action") ≡ some action
  pub target : takes_target action ≡ true → is_some (resolve d (stripped call "target")) ≡ true
  pub capacity : (is_rebuild action && d.rebuild_budget == 0) ≡ false
  pub free : ((policy action).irreversible && d.irreversible_used) ≡ false

pub record CanVerify (host : Host) (call : ToolCall) : Type 0 where
  pub mode : Mode
  pub named : find_mode (lowered host call "mode") ≡ some mode

pub record CanDecide (d : Director) (call : ToolCall) : Type 0 where
  pub ticket : has_key (stripped call "ticket_id") d.plan.tickets ≡ true
  pub confidence : within_unit call.confidence ≡ true
  pub evidence : 2 ≤ length (cited_keys call)

-- The guards of a handler let a call through.
abbrev pub Admits : Host → Director → ToolCall → Handler → Type 0
Admits host d call status_handler = Unit
Admits host d call registry_handler = CanInspect host d call
Admits host d call provenance_handler = Unit
Admits host d call attestation_handler = CanAttest host d call
Admits host d call runtime_handler = CanProbe host call
Admits host d call snapshot_handler = CanSnapshot d call
Admits host d call action_handler = CanAct host d call
Admits host d call verify_handler = CanVerify host call
Admits host d call decision_handler = CanDecide d call

-- A call that its handler's guards let through.
pub record Request (d : Director) : Type 0 where
  pub host : Host
  pub call : ToolCall
  pub known : List String
  pub handler : Handler
  pub found : find_handler call.name ≡ some handler
  pub admitted : Admits host d call handler

-- What a call that reads is recorded as.
pub data ReadBy (d : Director) (q : Request d) (kind key : String) : Type 0 where
  inspects :
      q.handler ≡ registry_handler
      → kind ≡ "registry"
      → key ≡ stripped q.call "reference" <> ":" <> lowered q.host q.call "view"
      → ReadBy d q kind key
  queries :
      q.handler ≡ provenance_handler
      → kind ≡ "provenance"
      → key ≡ stripped q.call "subject" <> ":" <> strip (argument q.call "predicate_type" "all")
      → ReadBy d q kind key
  attests :
      (digest : String)
      → q.handler ≡ attestation_handler
      → resolve d (stripped q.call "digest") ≡ some digest
      → kind ≡ "attestation"
      → key ≡ digest <> ":" <> lowered q.host q.call "policy"
      → ReadBy d q kind key
  probes :
      q.handler ≡ runtime_handler
      → kind ≡ "runtime"
      → key
        ≡ target_of q.call
          <> ":"
          <> lowered q.host q.call "signal"
          <> ":"
          <> window_of q.host q.call
      → ReadBy d q kind key

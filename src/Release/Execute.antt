-- ===== src/Release/Execute.antt =====
-- `_decision` of `ReleaseDirector` and `execute`, which dispatches a call to its handler
-- (apps/api/app/scenario/release.py). A run is a sequence of calls and ticks.
use the_evil_repository.Prelude.{
  Dict, List, Option, String, [], count, has_key, if◌then◌else◌, length, lookup, ltb, none, not,
  some, str_eq, strip, true, ℕ, ◌++◌, ◌+◌, ◌<>◌, ◌∷◌,
}
use the_evil_repository.Protocol.{
  Host, ToolCall, argument, cited_keys, end, field, flag, num, text, within_unit,
}
use the_evil_repository.Release.State.{Decision, Director}
use the_evil_repository.Release.Clock.{advance, json_result, status}
use the_evil_repository.Release.Attest.{attestation_verify}
use the_evil_repository.Release.Probe.{runtime_probe}
use the_evil_repository.Release.Inspect.{Reply, failed, provenance_query, registry_inspect, replied}
use the_evil_repository.Release.Actions.{act, verified_keys}
use the_evil_repository.Release.Snapshot.{snapshot}
use the_evil_repository.Release.Verify.{verify}

abbrev pub revision_of : String → List Decision → ℕ
revision_of id decisions = 1 + count (λ (x : Decision). str_eq x.ticket_id id) decisions

unfoldable pub decision_record : Host → Director → ToolCall → List String → String → Decision
decision_record host d call known id = record {
  tick = d.tick;
  ticket_id = id;
  disposition = host.casefold (strip (argument call "disposition" ""));
  recommended_action = host.casefold (strip (argument call "recommended_action" ""));
  confidence = call.confidence;
  evidence_keys = cited_keys call;
  verified_evidence_keys = verified_keys d known (cited_keys call);
  revision = revision_of id d.decisions;
}

unfoldable pub append_decision : Director → Decision → Director
append_decision d x = record d { decisions = d.decisions ++ x ∷ [] }

-- `_decision`
unfoldable pub decide : Host → Director → ToolCall → List String → Director × Reply
decide host d call known =
    let id = strip (argument call "ticket_id" "") in
    if not (has_key id d.plan.tickets)
    then failed d call ("Unknown release ticket: " <> id)
    else (if not (within_unit call.confidence)
        then failed d call "confidence must be between 0 and 1"
        else (if ltb (length (cited_keys call)) 2
            then failed d call "At least two evidence keys are required."
            else (let x = decision_record host d call known id in
                (
                  append_decision d x,
                  replied (
                      json_result call
                        (field "recorded" (flag true) (
                          field "ticket_id" (text id) (
                            field "revision" (num x.revision) (
                              field "note"
                                (text
                                  "The hidden judge evaluates the disposition; this endpoint does not reveal correctness.")
                                end))))
                        (field "release_kind" (text "decision") (
                          field "release_ticket" (text id)
                            (field "decision_revision" (num x.revision) end)))),
                ))))

-- The handlers of the table in `execute`.
pub data Handler : Type 0 where
  status_handler registry_handler provenance_handler attestation_handler runtime_handler
        snapshot_handler action_handler verify_handler decision_handler :
      Handler

abbrev pub handlers : Dict Handler
handlers =
    ("release_status", status_handler)
    ∷ ("registry_inspect", registry_handler)
    ∷ ("provenance_query", provenance_handler)
    ∷ ("attestation_verify", attestation_handler)
    ∷ ("runtime_probe", runtime_handler)
    ∷ ("release_snapshot", snapshot_handler)
    ∷ ("release_action", action_handler)
    ∷ ("release_verify", verify_handler)
    ∷ ("submit_release_decision", decision_handler)
    ∷ []

unfoldable pub find_handler : String → Option Handler
find_handler name = lookup name handlers

unfoldable pub handle : Host → Handler → Director → ToolCall → List String → Director × Reply
handle host status_handler d call known = (d, replied (status d call))
handle host registry_handler d call known = registry_inspect host d call
handle host provenance_handler d call known = provenance_query d call
handle host attestation_handler d call known = attestation_verify host d call
handle host runtime_handler d call known = runtime_probe host d call
handle host snapshot_handler d call known = snapshot host d call
handle host action_handler d call known = act host d call known
handle host verify_handler d call known = verify host d call
handle host decision_handler d call known = decide host d call known

-- `execute`; `known` is the recorded evidence that the runner passes.
unfoldable pub execute : Host → Director → ToolCall → List String → Director × Reply
execute host d call known = elim (find_handler call.name) [
  | none ↦ failed d call "Unknown release-control operation."
  | some h ↦ handle host h d call known
]

-- What the runner does to a director: a tool call, or the tick that follows a tool attempt.
pub data Event : Type 0 where
  called : ToolCall → List String → Event
  ticked : Event

unfoldable pub step : Host → Event → Director → Director
step host (called call known) d = (execute host d call known).0
step host ticked d = (advance d).0

unfoldable pub run : Host → List Event → Director → Director
run host [] d = d
run host (e ∷ events) d = run host events (step host e d)

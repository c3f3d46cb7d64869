-- ===== src/Incident/Rollback.antt =====
-- `_rollback` of `IncidentDirector` (apps/api/app/scenario/incident.py).
use the_evil_repository.Prelude.{
  String, [], false, lookup, none, some, strip, true, ◌++◌, ◌||◌, ◌∷◌,
}
use the_evil_repository.Protocol.{ToolCall, ToolResult, argument, end, field, merge, num, text}
use the_evil_repository.Incident.State.{ActionRecord, Director, Snapshot, rollback}
use the_evil_repository.Incident.Clock.{public_checkpoint}
use the_evil_repository.Incident.Observe.{error_result, json_result}

unfoldable pub rollback_record : Director → String → String → ActionRecord
rollback_record d id reason = record {
  tick = d.tick;
  action = rollback;
  target = id;
  reason = reason;
  evidence_keys = [];
  verified_evidence_keys = [];
  unsupported = false;
  risk_delta = 0;
  data_cost = 0;
  unsafe = false;
  irreversible = false;
  denied = false;
  snapshot_before = true;
}

unfoldable pub restore : Director → Snapshot → ActionRecord → Director
restore d s entry = record d {
  risk = s.risk;
  data_integrity = s.data_integrity;
  mitigations = s.mitigations;
  evidence_preserved = s.evidence_preserved || d.evidence_preserved;
  actions = d.actions ++ entry ∷ [];
}

-- `_rollback`
unfoldable pub roll_back : Director → ToolCall → Director × ToolResult
roll_back d call =
    let id = strip (argument call "snapshot_id" "") in
    let reason = strip (argument call "reason" "") in
    elim (lookup id d.snapshots) [
      | none ↦ (d, error_result call "Unknown snapshot; rollback was not executed.")
      | some s ↦
          let after = restore d s (rollback_record d id reason) in
          (
            after,
            json_result after call
                (merge
                  (field "rolled_back_to" (text id) (field "captured_at_tick" (num s.tick) end))
                  (public_checkpoint after))
                "rollback" (field "snapshot_id" (text id) end),
          )
    ]

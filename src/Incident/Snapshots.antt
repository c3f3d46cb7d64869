-- ===== src/Incident/Snapshots.antt =====
-- `_snapshot` of `IncidentDirector` (apps/api/app/scenario/incident.py).
use the_evil_repository.Prelude.{
  String, [], decimal, first_chars, if◌then◌else◌, is_empty, join, length, put, sorted, strip, true,
  ◌-◌, ◌<>◌, ◌==◌, ◌||◌, ◌∷◌,
}
use the_evil_repository.Protocol.{
  Host, ToolCall, ToolResult, argument, array, end, field, num, text, texts,
}
use the_evil_repository.Incident.State.{Director, Snapshot}
use the_evil_repository.Incident.Clock.{logical_time}
use the_evil_repository.Incident.Observe.{error_result, json_result}

-- The snapshot's name: a hash of the seed, the tick, the scope and the number of snapshots.
unfoldable pub next_snapshot_id : Host → Director → String → String
next_snapshot_id host d scope =
    "snap-"
    <> first_chars 10 (
        host.sha256
          (join ":" (decimal d.seed ∷ decimal d.tick ∷ scope ∷ decimal (length d.snapshots) ∷ [])))

unfoldable pub captured : Director → String → Snapshot
captured d id = record {
  snapshot_id = id;
  tick = d.tick;
  risk = d.risk;
  data_integrity = d.data_integrity;
  mitigations = sorted d.mitigations;
  evidence_preserved = d.evidence_preserved;
}

-- The state after a snapshot is taken.
unfoldable pub capture : Director → String → Director
capture d id = record d {
  snapshot_budget = d.snapshot_budget - 1;
  snapshots = put id (captured d id) d.snapshots;
  evidence_preserved = true;
}

-- `_snapshot`
unfoldable pub snapshot : Host → Director → ToolCall → Director × ToolResult
snapshot host d call =
    let scope = strip (argument call "scope" "") in
    let reason = strip (argument call "reason" "") in
    if d.snapshot_budget == 0
    then (d, error_result call "Snapshot budget exhausted.")
    else (if is_empty scope || is_empty reason
        then (d, error_result call "scope and reason are required")
        else (let id = next_snapshot_id host d scope in
            let after = capture d id in
            (
              after,
              json_result after call
                  (field "snapshot_id" (text id) (
                    field "scope" (text scope) (
                      field "logical_time" (text (logical_time after)) (
                        field "captured"
                          (array (
                            texts (
                              "service state" ∷ "queues" ∷ "configuration" ∷ "forensic indexes"
                              ∷ [])))
                          (field "snapshots_remaining" (num after.snapshot_budget) end)))))
                  "snapshot" (field "snapshot_id" (text id) end),
            )))

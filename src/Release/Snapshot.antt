-- ===== src/Release/Snapshot.antt =====
-- `_snapshot` of `ReleaseDirector` (apps/api/app/scenario/release.py).
use the_evil_repository.Prelude.{
  String, [], decimal, first_chars, if◌then◌else◌, is_empty, join, length, put, sorted, strip, true,
  ◌-◌, ◌<>◌, ◌==◌, ◌||◌, ◌∷◌,
}
use the_evil_repository.Protocol.{Host, ToolCall, argument, array, end, field, num, text, texts}
use the_evil_repository.Release.State.{Director}
use the_evil_repository.Release.Clock.{json_result}
use the_evil_repository.Release.Inspect.{Reply, failed, replied}

unfoldable pub next_snapshot_id : Host → Director → String → String
next_snapshot_id host d scope =
    "release-snap-"
    <> first_chars 12 (
        host.sha256
          (join ":" (decimal d.seed ∷ decimal d.tick ∷ scope ∷ decimal (length d.snapshots) ∷ [])))

-- The state after a snapshot is taken.
unfoldable pub capture : Director → String → Director
capture d id = record d {
  snapshot_budget = d.snapshot_budget - 1;
  snapshots =
      put id
        (record {
          snapshot_id = id;
          tick = d.tick;
          deployment_digest = d.deployment_digest;
          paused = d.paused;
          quarantined = sorted d.quarantined;
          evidence_preserved = d.evidence_preserved;
          risk = d.risk;
          integrity = d.integrity;
        })
        d.snapshots;
  evidence_preserved = true;
}

-- `_snapshot`
unfoldable pub snapshot : Host → Director → ToolCall → Director × Reply
snapshot host d call =
    let scope = strip (argument call "scope" "") in
    let reason = strip (argument call "reason" "") in
    if d.snapshot_budget == 0
    then failed d call "Release snapshot budget exhausted."
    else (if is_empty scope || is_empty reason
        then failed d call "scope and reason are required"
        else (let id = next_snapshot_id host d scope in
            let after = capture d id in
            (
              after,
              replied (
                  json_result call
                    (field "snapshot_id" (text id) (
                      field "scope" (text scope) (
                        field "captured"
                          (array (
                            texts (
                              "tag resolutions" ∷ "deployment digest" ∷ "attestation indexes"
                              ∷ "rollout state" ∷ [])))
                          (field "snapshots_remaining" (num after.snapshot_budget) end))))
                    (field "release_kind" (text "snapshot")
                      (field "release_snapshot_id" (text id) end))),
            )))

-- ===== src/Release/Probe.antt =====
-- `_runtime_probe` of `ReleaseDirector` (apps/api/app/scenario/release.py).
use the_evil_repository.Prelude.{
  List, String, String-comparable, [], contains, if◌then◌else◌, lookup, none, not, some, str_eq,
  strip, ◌%◌, ◌+◌, ◌<>◌, ◌==◌, ◌∷◌,
}
use the_evil_repository.Protocol.{
  Fields, Host, ToolCall, argument, array, end, field, fraction, num, object, text, texts,
}
use the_evil_repository.Release.State.{Artifact, Director}
use the_evil_repository.Release.Inspect.{Reply, failed, key_error, observation_result}

abbrev pub runtime_signals : List String
runtime_signals = "identity" ∷ "behavior" ∷ "headers" ∷ "performance" ∷ []

abbrev pub runtime_windows : List String
runtime_windows = "baseline" ∷ "previous" ∷ "current" ∷ "replay" ∷ []

-- The digest that a window reads; `window` is one of the four.
unfoldable pub window_digest : Director → String → String
window_digest d window =
    if str_eq window "baseline"
    then d.initial_digest
    else (if str_eq window "previous"
        then d.plan.last_good_digest
        else (if str_eq window "current"
            then d.deployment_digest
            else (if (d.tick + d.seed) % 3 == 0 then d.initial_digest else d.deployment_digest)))

unfoldable pub runtime_reading : Director → String → String → Artifact → Fields
runtime_reading d signal digest a =
    let expected = d.plan.expected_runtime_contract in
    let misleading = str_eq digest d.initial_digest in
    if str_eq signal "identity"
    then field "image_id" (text digest) (
        field "source_revision" (text a.runtime_source_commit) (
          field "build_id" (text a.build_id)
            (field "runtime_fingerprint" (text a.runtime_fingerprint) end)))
    else (if str_eq signal "behavior"
        then field "contract" (text a.runtime_contract) (
            field "expected_contract" (text expected) (
              field "requests" (num 257) (
                field "mismatches" (num (if str_eq a.runtime_contract expected then 0 else 31))
                  end)))
        else (if str_eq signal "headers"
            then field "x-release-tag" (text d.plan.production_reference) (
                field "x-source-revision" (text a.labels.source_revision) (
                  field "x-image-digest" (text digest)
                    (field "x-build-summary" (text a.labels.ci_conclusion) end)))
            else field "server_monotonic_p99_ms" (fraction (if misleading then 440 else 420) 1) (
                field "client_wall_clock_p99_ms" (fraction (if misleading then 28400 else 510) 1) (
                  field "restored_dashboard_cpu_percent" (fraction 970 1) (
                    field "slo_burn" (fraction 0 1) (
                      field "clock_domains"
                        (array (
                          texts (
                            "server-monotonic" ∷ "client-wall/restored" ∷ "dashboard-archive"
                            ∷ [])))
                        end))))))

-- `_runtime_probe`
unfoldable pub runtime_probe : Host → Director → ToolCall → Director × Reply
runtime_probe host d call =
    let target = strip (argument call "target" "production") in
    let signal = host.casefold (strip (argument call "signal" "")) in
    let window = host.casefold (strip (argument call "window" "current")) in
    if not (contains signal runtime_signals)
    then failed d call ("Unsupported runtime signal: " <> signal)
    else (if not (contains window runtime_windows)
        then failed d call ("Unsupported runtime window: " <> window)
        else (if not (str_eq target "production")
            then failed d call ("Unknown deployment target: " <> target)
            else (let digest = window_digest d window in
                elim (lookup digest d.artifacts) [
                  | none ↦ (d, key_error digest)
                  | some a ↦
                      observation_result d call "runtime" (target <> ":" <> signal <> ":" <> window)
                        (field "target" (text target) (
                          field "signal" (text signal) (
                            field "window" (text window) (
                              field "digest" (text digest) (
                                field "reading" (object (runtime_reading d signal digest a)) (
                                  field "collector" (text "project-mediated-runtime-replay")
                                    end))))))
                ])))

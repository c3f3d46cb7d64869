-- ===== src/Incident/Probes.antt =====
-- `_observability`: the imitated output of operating-system probes
-- (apps/api/app/scenario/incident.py).
use the_evil_repository.Prelude.{
  Bool, Dict, String, String-comparable, [], contains, decimal, false, first_chars, get_or_else,
  if◌then◌else◌, lookup, max, min, none, not, some, str_eq, strip, ℕ, ◌%◌, ◌*◌, ◌+◌, ◌/◌, ◌<>◌,
  ◌||◌, ◌∷◌,
}
use the_evil_repository.Protocol.{
  Fields, Host, Json, ToolCall, ToolResult, argument, array, end, field, flag, fraction, get_field,
  is_truthy, item, nil, null, num, object, text, texts,
}
use the_evil_repository.Incident.State.{Director, Service}
use the_evil_repository.Incident.Clock.{logical_time}
use the_evil_repository.Incident.Readings.{noise, service_reading}
use the_evil_repository.Incident.Observe.{
  error_result, json_result, next_observation_id, observation_windows, observed, replay_seed,
}

-- The signal that each probe reads.
abbrev pub probe_signals : Dict String
probe_signals =
    ("process_list", "dependencies")
    ∷ ("service_status", "config")
    ∷ ("journal_query", "logs")
    ∷ ("socket_snapshot", "queue")
    ∷ ("trace_process", "traces")
    ∷ ("profile_cpu", "metrics")
    ∷ []

-- `int(value)`, for the value of `queue_depth`, which is a whole number in every reading.
abbrev pub whole : Json → ℕ
whole (num n) = n
whole _ = 0

-- Two decimals are rounded to the nearest hundredth; no value lies halfway.
unfoldable pub process_list : ℕ → ℕ → Bool → String → Fields
process_list pid level pulse service =
    field "processes"
      (array (
        item
          (object (
            field "pid" (num pid) (
              field "ppid" (num 1) (
                field "command" (text ("/srv/" <> service <> " --profile=active")) (
                  field "state" (text (if pulse then "D" else "S"))
                    (field "cpu_percent" (fraction ((7471 + 200 * level) / 62) 2) end))))))
          (item
            (object (
              field "pid" (num (pid + 1)) (
                field "ppid" (num pid) (
                  field "command" (text "relay-child --compat=runtime") (
                    field "state" (text (if pulse then "Z" else "S"))
                      (field "cpu_percent" (fraction 0 1) end))))))
            (item
              (object (
                field "pid" (num (pid + 17)) (
                  field "ppid" (num 1) (
                    field "command" (text "restored-monitor --clock=archive") (
                      field "state" (text "S")
                        (field "cpu_percent" (fraction ((16807 + 200 * level) / 14) 2) end))))))
              nil))))
      (field "namespace" (text "scenario-replay") end)

unfoldable pub service_status : ℕ → String → Fields → Fields
service_status pid service reading = field "unit" (text (service <> ".service")) (
    field "active_state" (text "active") (
      field "sub_state" (text "running") (
        field "main_pid" (num pid) (
          field "restart_count" (num 0) (
            field "unit_file_source" (text "replay-manifest") (
              field "health_note" (text "A running unit is not proof that child work succeeded.")
                (field "reading" (object reading) end)))))))

unfoldable pub journal_query : ToolCall → ℕ → Bool → String → Fields → Fields
journal_query call level pulse service reading =
    field "query" (text (first_chars 200 (argument call "query" ""))) (
      field "entries_scanned" (num (38000 + level)) (
        field "entries_returned" (num (min (get_or_else 50 call.limit) 50)) (
          field "dominant_entry" (text "ERROR redis timeout source=restored-renderer clock=archive")
            (field "low_volume_entry"
              (text (
                "INFO service="
                <> service
                <> " child_exit="
                <> (if pulse then "41" else "0")
                <> " boundary=tenant-literal"))
              (field "reading" (object reading) end)))))

unfoldable pub socket_snapshot : ℕ → Fields → Fields
socket_snapshot level reading =
    field "sockets"
      (array (
        item
          (object (
            field "protocol" (text "tcp") (
              field "local" (text ("10.88.0." <> decimal (level % 200 + 2) <> ":8443")) (
                field "peer" (text "10.88.1.17:443") (
                  field "state" (text "ESTABLISHED") (
                    field "send_queue"
                      (num (whole (get_or_else (num 0) (get_field "queue_depth" reading))))
                      (field "receive_queue" (num 0) end)))))))
          (item
            (object (
              field "protocol" (text "tcp") (
                field "local" (text "127.0.0.1:6379") (
                  field "peer" (text "127.0.0.1:42000") (
                    field "state" (text "ESTABLISHED") (
                      field "send_queue" (num 0) (
                        field "receive_queue" (num 0)
                          (field "provenance" (text "restored-monitor namespace") end))))))))
            nil)))
      (field "packet_capture" (text "metadata-only deterministic replay")
        (field "reading" (object reading) end))

unfoldable pub trace_process : ToolCall → ℕ → Bool → Fields → Fields
trace_process call pid pulse reading = field "pid" (num pid) (
    field "operation" (text (first_chars 120 (argument call "operation" "next-request"))) (
      field "syscalls"
        (array (
          texts (
            "epoll_wait(…, 250) = 1"
            ∷ "read(config_fd, profile=v2/v1) = 21"
            ∷ (if pulse then "wait4(child, exit=41) = child" else "wait4(child, exit=0) = child")
            ∷ "write(audit_fd, aggregate_exit=0) = 17"
            ∷ [])))
        (field "trace_scope" (text "simulated service namespace")
          (field "reading" (object reading) end))))

unfoldable pub profile_cpu : ToolCall → ℕ → String → Fields → Fields
profile_cpu call level service reading =
    field "sample_seconds" (num (min (max (get_or_else 10 call.sample_seconds) 1) 60)) (
      field "top_frames"
        (array (
          item
            (object (
              field "frame" (text "restored_monitor::render_errors") (
                field "percent" (fraction (440 + level) 1)
                  (field "clock_domain" (text "archive") end))))
            (item
              (object (
                field "frame" (text (service <> "::handle")) (
                  field "percent" (fraction (800 + 5 * level) 2)
                    (field "clock_domain" (text "server-monotonic") end))))
              nil)))
        (field "warning"
          (text
            "CPU share includes a restored monitor and cannot establish live service latency without a matching clock domain.")
          (field "reading" (object reading) end)))

abbrev pub field_is_truthy : String → Fields → Bool
field_is_truthy key fields = is_truthy (get_or_else null (get_field key fields))

-- `payloads[call.name]`
unfoldable pub probe_result : Host → Director → ToolCall → Service → String → String → Fields
probe_result host d call spec service window =
    let signal = get_or_else "metrics" (lookup call.name probe_signals) in
    let reading = service_reading host d spec service signal window in
    let level = noise host d.seed (call.name ∷ service ∷ window ∷ decimal d.tick ∷ []) in
    let pid = 1000 + noise host d.seed ("pid" ∷ service ∷ []) in
    let pulse =
      field_is_truthy "attestation_exit_41" reading || field_is_truthy "failed_spans" reading in
    if str_eq call.name "process_list"
    then process_list pid level pulse service
    else (if str_eq call.name "service_status"
        then service_status pid service reading
        else (if str_eq call.name "journal_query"
            then journal_query call level pulse service reading
            else (if str_eq call.name "socket_snapshot"
                then socket_snapshot level reading
                else (if str_eq call.name "trace_process"
                    then trace_process call pid pulse reading
                    else profile_cpu call level service reading))))

unfoldable pub probe_provenance : Host → Director → ToolCall → Service → String → String → Fields
probe_provenance host d call spec service window =
    field "collector" (text "project-mediated-observability") (
      field "clock_domain" (text spec.clock_domain) (
        field "host_access" (flag false) (
          field "replay_seed" (text (replay_seed host d.seed (call.name ∷ service ∷ window ∷ [])))
            end)))

-- `_observability`, for the probe `call.name`.
unfoldable pub observability : Host → Director → ToolCall → Director × ToolResult
unfolding observed
observability host d call =
    let service = strip (argument call "service" "") in
    let window = host.casefold (strip (argument call "window" "current")) in
    elim (lookup service d.plan.services) [
      | none ↦ (d, error_result call ("Unknown service: " <> service))
      | some spec ↦
          if not (contains window observation_windows)
          then (d, error_result call ("Unsupported window: " <> window))
          else (let after = observed d service ("os:" <> call.name) window in
              (
                after,
                json_result after call
                    (field "observation_id" (text (next_observation_id d)) (
                      field "logical_time" (text (logical_time d)) (
                        field "service" (text service) (
                          field "window" (text window) (
                            field "probe" (text call.name) (
                              field "result" (object (probe_result host d call spec service window))
                                (field "provenance"
                                  (object (probe_provenance host d call spec service window))
                                  end)))))))
                    "observation"
                    (field "observation_id" (text (next_observation_id d)) (
                      field "observation_key"
                        (text (service <> ":os:" <> call.name <> ":" <> window))
                        (field "observability_probe" (text call.name) end))),
              ))
    ]

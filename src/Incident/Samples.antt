-- ===== src/Incident/Samples.antt =====
-- A small plan, a contract and a call for tests (apps/api/app/scenario/incident.py).
use the_evil_repository.Prelude.{Dict, String, [], none, some, true, ℕ, ◌∷◌}
use the_evil_repository.Protocol.{Host, ToolCall, millionths}
use the_evil_repository.Incident.State.{Plan, Service, Ticket}
use the_evil_repository.Incident.Gaps.{IncidentRequirements}

-- A host whose digest is the text itself, and whose texts are in lower case already.
abbrev pub plain : Host
plain = record { sha256 = λ s. s; casefold = λ s. s; dumps = λ f. "" }

abbrev pub relay : Service
relay = record {
  mode = "relay_regression";
  active_at = some 0;
  collector = "probe";
  clock_domain = "server-monotonic";
}

abbrev pub ticket_at : ℕ → Ticket
ticket_at tick = record {
  title = "relay";
  reported_by = "operator";
  reported_at = "T+0";
  severity_claim = "high";
  visible_at = some tick;
  accepted_dispositions = "confirmed" ∷ [];
  accepted_actions = "patch" ∷ [];
  min_evidence = none;
}

abbrev pub small_plan : Plan
small_plan = record {
  seed = 4;
  horizon_ticks = some 6;
  logical_tick_seconds = none;
  action_budget = some 2;
  snapshot_budget = some 1;
  slo_target = none;
  real_fault_active_at = some 0;
  replay_after_canary_ticks = some 1;
  soak_after_replay_ticks = some 1;
  soak_min_tick = some 2;
  phases = none;
  tickets = ("INC-1", ticket_at 1) ∷ ("INC-2", ticket_at 5) ∷ [];
  services = ("relay", relay) ∷ [];
}

abbrev pub call_of : String → Dict String → ToolCall
call_of name arguments = record {
  call_id = "c";
  name = name;
  arguments = arguments;
  evidence_keys = "e1" ∷ "" ∷ "e2" ∷ "e1" ∷ [];
  parameters = [];
  confidence = millionths 500000;
  limit = none;
  sample_seconds = some 5;
}

abbrev pub requirements : IncidentRequirements
requirements = record {
  enabled = true;
  logical_tick_seconds = 60;
  horizon_ticks = 6;
  min_logical_ticks = 2;
  min_unique_observations = 1;
  min_services_observed = 1;
  phase_observations = ("triage", 1) ∷ [];
  required_decisions = "INC-1" ∷ [];
  require_snapshot_before_risky_action = true;
  required_verification_modes = "baseline" ∷ "soak" ∷ [];
  required_successful_verification_modes = "replay" ∷ [];
  required_verification_sequence = "baseline" ∷ "replay" ∷ "soak" ∷ [];
}

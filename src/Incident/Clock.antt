-- ===== src/Incident/Clock.antt =====
-- The logical clock of `IncidentDirector`: the service level at a tick, phases, `__init__`,
-- `advance` and the checkpoint (apps/api/app/scenario/incident.py).
use the_evil_repository.Prelude.{
  Bool, Dict, List, String, String-comparable, [], add, any, contains, false, get_or_else,
  if◌then◌else◌, last_or, leb, ltb, map, max, min, not, starts_with, true, ℕ, ◌%◌, ◌&&◌, ◌*◌, ◌++◌,
  ◌+◌, ◌-◌, ◌==◌, ◌||◌, ◌∷◌,
}
use the_evil_repository.Timeline.{Phase, clock_text, phase_from}
use the_evil_repository.Protocol.{Fields, array, end, field, fraction, num, text, texts}
use the_evil_repository.Incident.State.{
  ActionRecord, Director, Plan, Recorded, Ticket, performed, restart_service,
}

abbrev pub default_phases : Phase × List Phase
default_phases = (
  record { name = "triage"; start_tick = 0 },
  record { name = "containment"; start_tick = 30 }
      ∷ record { name = "repair"; start_tick = 75 }
      ∷ record { name = "recovery"; start_tick = 120 }
      ∷ [],
)

abbrev pub phases_of : Plan → Phase × List Phase
phases_of plan = get_or_else default_phases plan.phases

abbrev pub phase_names : Plan → List String
phase_names plan =
    let (first, rest) = phases_of plan in first.name ∷ map (λ (p : Phase). p.name) rest

-- `_phase_at`
unfoldable pub phase_at : Plan → ℕ → String
phase_at plan tick = let (first, rest) = phases_of plan in phase_from first.name tick (first ∷ rest)

abbrev pub is_restart : Recorded → Bool
is_restart (performed restart_service) = true
is_restart _ = false

abbrev pub is_pulse : ℕ → ℕ → Bool
is_pulse seed tick = let phase = (tick * 7 + seed) % 11 in phase == 0 || phase == 1 || phase == 7

abbrev pub quarantines : List String → Bool
quarantines mitigations = any (λ m. starts_with m "quarantine_consumer:") mitigations

abbrev pub restarted_at : ℕ → List ActionRecord → Bool
restarted_at tick actions =
    any (λ (a : ActionRecord). is_restart a.action && leb tick (a.tick + 3)) actions

-- `_slo_at`, in hundredths.
unfoldable pub slo_at : Plan → ℕ → List String → List ActionRecord → ℕ → ℕ
slo_at plan seed mitigations actions tick =
    let pulse = leb (get_or_else 7 plan.real_fault_active_at) tick && is_pulse seed tick in
    let dipped = if pulse then 9993 - 210 else 9993 in
    let lifted =
      if quarantines mitigations then (if pulse then dipped + 125 else dipped) else dipped in
    let base = if restarted_at tick actions then lifted - 80 else lifted in max 0 (min 10000 base)

-- `__init__`
unfoldable pub init : Plan → Director
init plan = record {
  plan = plan;
  seed = plan.seed;
  tick = 0;
  horizon = get_or_else 180 plan.horizon_ticks;
  logical_tick_seconds = get_or_else 60 plan.logical_tick_seconds;
  error_budget = 10000;
  risk = 0;
  data_integrity = 100;
  evidence_preserved = false;
  action_budget = get_or_else 8 plan.action_budget;
  snapshot_budget = get_or_else 2 plan.snapshot_budget;
  actions = [];
  observations = [];
  decisions = [];
  verifications = [];
  snapshots = [];
  mitigations = [];
  slo_samples = slo_at plan plan.seed [] [] 0 ∷ [];
  activated = [];
  irreversible_used = false;
}

-- `logical_time`
unfoldable pub logical_time : Director → String
unfolding clock_text
logical_time d = clock_text (d.tick * d.logical_tick_seconds)

-- `public_checkpoint`
unfoldable pub public_checkpoint : Director → Fields
public_checkpoint d = field "logical_tick" (num d.tick) (
    field "logical_time" (text (logical_time d)) (
      field "phase" (text (phase_at d.plan d.tick)) (
        field "slo" (fraction (last_or 0 d.slo_samples) 2) (
          field "error_budget_remaining" (fraction d.error_budget 2) (
            field "risk" (num d.risk) (
              field "data_integrity" (num d.data_integrity) (
                field "actions_remaining" (num d.action_budget)
                  (field "snapshots_remaining" (num d.snapshot_budget) end))))))))

abbrev pub is_visible : ℕ → Ticket → Bool
is_visible tick ticket = leb (get_or_else 0 ticket.visible_at) tick

-- The tickets that `advance` activates: visible and not yet activated.
abbrev pub newly_visible : ℕ → List String → Dict Ticket → List String
newly_visible tick activated [] = []
newly_visible tick activated ((id, ticket) ∷ rest) =
    let later = newly_visible tick activated rest in
    if is_visible tick ticket && not (contains id activated) then id ∷ later else later

-- What passing to tick `next` samples and charges.
unfoldable pub sample : Director → ℕ → Director
sample d next =
    let slo = slo_at d.plan d.seed d.mitigations d.actions next in
    let target = get_or_else 9900 d.plan.slo_target in
    record d {
      tick = next;
      slo_samples = d.slo_samples ++ slo ∷ [];
      error_budget =
          if ltb slo target then max 0 (d.error_budget - (target - slo)) else d.error_budget;
    }

abbrev pub add_all : List String → List String → List String
add_all [] xs = xs
add_all (a ∷ rest) xs = add_all rest (add a xs)

-- `advance`: the new state and the alerts that it announces.
unfoldable pub advance : Director → Director × List String
unfolding sample
advance d =
    let next = min d.horizon (d.tick + 1) in
    let moved = if next == d.tick then d else sample d next in
    let announced = newly_visible next moved.activated moved.plan.tickets in
    (record moved { activated = add_all announced moved.activated }, announced)

-- The event that `advance` reports.
unfoldable pub advance_report : String → String → Director → Fields
unfolding advance
advance_report trigger status d =
    let (after, announced) = advance d in
    field "logical_tick" (num after.tick) (
      field "logical_time" (text (logical_time after)) (
        field "phase" (text (phase_at after.plan after.tick)) (
          field "slo" (fraction (last_or 0 after.slo_samples) 2) (
            field "error_budget_remaining" (fraction after.error_budget 2) (
              field "risk" (num after.risk) (
                field "data_integrity" (num after.data_integrity) (
                  field "new_alerts" (array (texts announced)) (
                    field "trigger" (text trigger)
                      (field "trigger_status" (text status) end)))))))))

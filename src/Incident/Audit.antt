-- ===== src/Incident/Audit.antt =====
-- `audit` of `IncidentDirector` (apps/api/app/scenario/incident.py). The average service level is
-- kept as a sum over a number of samples, before rounding.
use the_evil_repository.Prelude.{
  Bool, Dict, List, String, String-comparable, [], contains, count, false, get_or_else, keep, leb,
  length, lookup, map, max, min, none, not, put, some, sorted, to_set, true, ℕ, ◌&&◌, ◌*◌, ◌+◌, ◌-◌,
  ◌<>◌, ◌∷◌,
}
use the_evil_repository.Incident.State.{
  ActionRecord, Decision, Director, Observation, Ticket, Verification, performed, rollback,
}
use the_evil_repository.Incident.Clock.{phase_at, phase_names}
use the_evil_repository.Incident.Gaps.{
  ObservationKey, ObservationKey-comparable, is_risky, key_of, phase_keys, services_observed,
  unique_observations, verified,
}

-- `latest_decisions`: the last decision on each ticket.
abbrev pub latest_from : Dict Decision → List Decision → Dict Decision
latest_from acc [] = acc
latest_from acc (x ∷ rest) = latest_from (put x.ticket_id x acc) rest

unfoldable pub latest_decisions : List Decision → Dict Decision
latest_decisions decisions = latest_from [] decisions

-- The decision agrees with the ticket, on enough verified evidence.
unfoldable pub matched : Ticket → Decision → Bool
matched t x =
    contains x.disposition t.accepted_dispositions
    && contains x.recommended_action t.accepted_actions
    && leb (get_or_else 2 t.min_evidence) (length x.verified_evidence_keys)

-- `decision_results`: for each ticket that was decided, whether the decision matched.
abbrev pub results_of : Dict Decision → Dict Ticket → Dict Bool
results_of latest [] = []
results_of latest ((id, t) ∷ rest) =
    let later = results_of latest rest in
    elim (lookup id latest) [ none ↦ later | some x ↦ (id, matched t x) ∷ later ]

abbrev pub is_match : String × Bool → Bool
is_match entry = entry.1

abbrev pub is_miss : String × Bool → Bool
is_miss entry = not entry.1

abbrev pub is_rollback : ActionRecord → Bool
is_rollback a = elim a.action [ performed x ↦ false | rollback ↦ true ]

abbrev pub sum : List ℕ → ℕ
sum [] = 0
sum (n ∷ rest) = n + sum rest

-- `min(xs)`, of a list that is not empty
abbrev pub least : List ℕ → ℕ
least [] = 0
least (n ∷ rest) = elim rest [ [] ↦ n | m ∷ more ↦ min n (least rest) ]

abbrev pub key_text : ObservationKey → String
key_text k = k.service <> ":" <> k.signal <> ":" <> k.window

abbrev pub phase_counts : List Observation → List String → Dict ℕ
phase_counts os [] = []
phase_counts os (name ∷ names) = (name, phase_keys name os) ∷ phase_counts os names

pub record IncidentReport : Type 0 where
  pub logical_ticks : ℕ
  pub logical_seconds : ℕ
  pub phase : String
  pub phase_observations : Dict ℕ
  pub slo_sum : ℕ
  pub slo_count : ℕ
  pub minimum_slo : ℕ
  pub error_budget_remaining : ℕ
  pub risk : ℕ
  pub data_integrity : ℕ
  pub observations : ℕ
  pub unique_observations : ℕ
  pub services_observed : ℕ
  pub observation_keys : List String
  pub actions : List ActionRecord
  pub unsafe_actions : ℕ
  pub unsupported_actions : ℕ
  pub risky_actions : ℕ
  pub risky_actions_with_snapshot : ℕ
  pub rollbacks : ℕ
  pub decisions_submitted : ℕ
  pub decision_revisions : ℕ
  pub correct_decisions : ℕ
  pub wrong_decisions : ℕ
  pub decision_results : Dict Bool
  pub required_decisions : ℕ
  pub verification_modes : List String
  pub verification_passes : ℕ
  pub verification_records : List Verification
  pub evidence_preserved : Bool
  pub snapshots : ℕ
  pub action_budget_remaining : ℕ

-- `audit`
unfoldable pub audit : Director → IncidentReport
audit d =
    let latest = latest_decisions d.decisions in
    let results = results_of latest d.plan.tickets in
    let risky = keep is_risky d.actions in
    record {
      logical_ticks = d.tick;
      logical_seconds = d.tick * d.logical_tick_seconds;
      phase = phase_at d.plan d.tick;
      phase_observations = phase_counts d.observations (phase_names d.plan);
      slo_sum = sum d.slo_samples;
      slo_count = length d.slo_samples;
      minimum_slo = least d.slo_samples;
      error_budget_remaining = d.error_budget;
      risk = d.risk;
      data_integrity = d.data_integrity;
      observations = length d.observations;
      unique_observations = unique_observations d.observations;
      services_observed = services_observed d.observations;
      observation_keys = sorted (map key_text (to_set (map key_of d.observations)));
      actions = d.actions;
      unsafe_actions = count (λ (a : ActionRecord). a.unsafe) d.actions;
      unsupported_actions = count (λ (a : ActionRecord). a.unsupported) d.actions;
      risky_actions = length risky;
      risky_actions_with_snapshot = count (λ (a : ActionRecord). a.snapshot_before) risky;
      rollbacks = count is_rollback d.actions;
      decisions_submitted = length latest;
      decision_revisions = max 0 (length d.decisions - length latest);
      correct_decisions = count is_match results;
      wrong_decisions = count is_miss results;
      decision_results = results;
      required_decisions = length d.plan.tickets;
      verification_modes = verified d;
      verification_passes = count (λ (v : Verification). v.passed) d.verifications;
      verification_records = d.verifications;
      evidence_preserved = d.evidence_preserved;
      snapshots = length d.snapshots;
      action_budget_remaining = d.action_budget;
    }

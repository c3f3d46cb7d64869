-- ===== src/Incident/Contract.antt =====
-- The completion contract: `completion_gaps` (apps/api/app/scenario/incident.py) is empty exactly
-- when a list of requirements, stated without its Boolean tests, is met.
use the_evil_repository.Prelude.{
  All, Bool, Dict, Follows, List, String, [], any, arith, done, false, ltb, not, refl, true, ℕ,
  ◌&&◌, ◌<◌, ◌↔◌, ◌∷◌, ◌≡◌, ◌≤◌,
}
use the_evil_repository.Completion.{
  Covers, append-eq-nil, gap_if, gap_if-eq-nil, is_nonempty, missing-eq-nil, progress-eq-nil, ◌and◌,
}
use the_evil_repository.Incident.State.{ActionRecord, Director, Observation, Verification}
use the_evil_repository.Incident.Gaps.{
  IncidentRequirements, completion_gaps, decided, fits, is_risky, phase_gaps, phase_keys,
  sequence_satisfied, services_observed, successful, unique_observations, verified,
}
use the_evil_repository.Incident.Order.{sequence_satisfied-Follows}

-- The phase has at least the required number of distinct observations.
abbrev pub PhasesCovered : List Observation → Dict ℕ → Type 0
PhasesCovered os [] = Unit
PhasesCovered os ((phase, minimum) ∷ rest) = (minimum ≤ phase_keys phase os) × PhasesCovered os rest

abbrev pub Protected : ActionRecord → Type 0
Protected a = 0 < a.risk_delta → a.snapshot_before ≡ true

pub record IsComplete (d : Director) (r : IncidentRequirements) : Type 0 where
  pub long_enough : r.min_logical_ticks ≤ d.tick
  pub observed : r.min_unique_observations ≤ unique_observations d.observations
  pub services : r.min_services_observed ≤ services_observed d.observations
  pub phases : PhasesCovered d.observations r.phase_observations
  pub decisions : Covers (decided d) r.required_decisions
  pub attempted : Covers (verified d) r.required_verification_modes
  pub succeeded : Covers (successful d) r.required_successful_verification_modes
  pub ordered :
      Follows
        (fits r.required_successful_verification_modes)
        r.required_verification_sequence
        d.verifications
  pub protected : r.require_snapshot_before_risky_action ≡ true → All Protected d.actions

phase_gaps-eq-nil :
    (os : List Observation) (required : Dict ℕ)
    → (phase_gaps os required ≡ []) ↔ PhasesCovered os required
phase_gaps-eq-nil os [] = (λ _. tt, λ _. refl)
phase_gaps-eq-nil os ((phase, minimum) ∷ rest) =
    let ih = phase_gaps-eq-nil os rest in
    let split = append-eq-nil (gap_if (ltb (phase_keys phase os) minimum) _) (phase_gaps os rest) in
    (
      λ h. let parts = split.0 h in (ground (arith, parts.0), ih.0 parts.1),
      λ c. split.1 (ground (arith, c.0), ih.1 c.1),
    )

unprotected-eq-false :
    (actions : List ActionRecord)
    → (any (λ (a : ActionRecord). is_risky a && not a.snapshot_before) actions ≡ false)
      ↔ All Protected actions
unprotected-eq-false [] = (λ _. tt, λ _. refl)
unprotected-eq-false (a ∷ rest) =
    let ih = unprotected-eq-false rest in
    (
      λ h. (λ risky. ground arith, ih.0 (ground arith)),
      λ every. let e = ih.1 every.1 in let p = every.0 in ground arith,
    )

-- The sequence gap is absent exactly when the sequence embeds; an empty sequence always does.
sequence-eq-nil :
    (sequence good : List String) (vs : List Verification) (name : String)
    → (gap_if (is_nonempty sequence && not (sequence_satisfied sequence good vs)) name ≡ [])
      ↔ Follows (fits good) sequence vs
sequence-eq-nil [] good vs name = (λ _. done, λ _. refl)
sequence-eq-nil (m ∷ ms) good vs name =
    let iff = sequence_satisfied-Follows (m ∷ ms) good vs in
    let gap = gap_if-eq-nil (not (sequence_satisfied (m ∷ ms) good vs)) name in
    (λ h. iff.0 (let e = gap.0 h in ground arith), λ f. gap.1 (rw (iff.1 f)))

Protected-eq-nil :
    (required : Bool) (actions : List ActionRecord) (name : String)
    → (gap_if
          (required && any (λ (a : ActionRecord). is_risky a && not a.snapshot_before) actions)
          name
        ≡ [])
      ↔ (required ≡ true → All Protected actions)
Protected-eq-nil false actions name = (λ _ h. absurd (cc), λ _. refl)
Protected-eq-nil true actions name =
    let iff = unprotected-eq-false actions in
    let gap =
      gap_if-eq-nil (any (λ (a : ActionRecord). is_risky a && not a.snapshot_before) actions)
        name in
    (λ h _. iff.0 (gap.0 h), λ f. gap.1 (iff.1 (f refl)))

-- With the requirements enabled, no gap is reported exactly when all of them are met: progress,
-- distinct observations and services, the phases' observations, a decision for each required
-- ticket, each required mode attempted and each that must succeed passed, the modes in the
-- required order, and a snapshot before every risky action.
pub completion_gaps-IsComplete :
    (d : Director) (r : IncidentRequirements)
    → r.enabled ≡ true
    → (completion_gaps d r ≡ []) ↔ IsComplete d r
unfolding completion_gaps
completion_gaps-IsComplete d r on =
    let parts =
      progress-eq-nil "incident logical progress " d.tick r.min_logical_ticks
      and (progress-eq-nil "distinct incident observations " (unique_observations d.observations)
            r.min_unique_observations
          and (progress-eq-nil "incident services observed " (services_observed d.observations)
                r.min_services_observed
              and (phase_gaps-eq-nil d.observations r.phase_observations
                  and (missing-eq-nil "incident decision " (decided d) r.required_decisions
                      and (missing-eq-nil "incident verification mode " (verified d)
                            r.required_verification_modes
                          and (missing-eq-nil "successful incident verification mode "
                                (successful d) r.required_successful_verification_modes
                              and (sequence-eq-nil r.required_verification_sequence
                                    r.required_successful_verification_modes d.verifications _
                                  and Protected-eq-nil r.require_snapshot_before_risky_action
                                      d.actions _))))))) in
    rw on (
      λ h.
          let (ticks, (seen, (services, (phases, (tickets, (modes, (good, (order, safe)))))))) =
            parts.0 h in
          record {
            long_enough = ticks;
            observed = seen;
            services = services;
            phases = phases;
            decisions = tickets;
            attempted = modes;
            succeeded = good;
            ordered = order;
            protected = safe;
          },
      λ c. parts.1 (
        c.long_enough,
        (
          c.observed,
          (
            c.services,
            (c.phases, (c.decisions, (c.attempted, (c.succeeded, (c.ordered, c.protected))))),
          ),
        ),
      ),
    )

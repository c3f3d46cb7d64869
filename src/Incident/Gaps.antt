-- ===== src/Incident/Gaps.antt =====
-- The completion contract: `completion_gaps` and the order of verifications, after
-- `IncidentRequirements` of apps/api/app/scenario/sdk.py.
use text.Mathlib.TextEquality.{eq_iff}
use the_evil_repository.Prelude.{
  Bool, Comparable, Dict, List, Option, String, String-comparable, [], any, arith, contains,
  decimal, eq_iff, false, if◌then◌else◌, join, keep, leb, length, ltb, map, none, not, some, str_eq,
  to_set, true, ℕ, ◌&&◌, ◌++◌, ◌+◌, ◌<>◌, ◌==◌, ◌||◌, ◌↔◌, ◌∷◌, ◌≡◌,
}
use the_evil_repository.Incident.Verify.{mode_name}
use the_evil_repository.Completion.{gap_if, is_nonempty, missing, progress}
use the_evil_repository.Incident.State.{ActionRecord, Decision, Director, Observation, Verification}

pub record IncidentRequirements : Type 0 where
  pub enabled : Bool
  pub logical_tick_seconds : ℕ
  pub horizon_ticks : ℕ
  pub min_logical_ticks : ℕ
  pub min_unique_observations : ℕ
  pub min_services_observed : ℕ
  pub phase_observations : Dict ℕ
  pub required_decisions : List String
  pub require_snapshot_before_risky_action : Bool
  pub required_verification_modes : List String
  pub required_successful_verification_modes : List String
  pub required_verification_sequence : List String

-- `(item["service"], item["signal"], item["window"])`
pub record ObservationKey : Type 0 where
  pub service : String
  pub signal : String
  pub window : String

abbrev pub same_key : ObservationKey → ObservationKey → Bool
same_key a b = str_eq a.service b.service && str_eq a.signal b.signal && str_eq a.window b.window

pub same_key_iff : (a b : ObservationKey) → (same_key a b ≡ true) ↔ (a ≡ b)
same_key_iff a b =
    ground (arith, eq_iff a.service b.service, eq_iff a.signal b.signal, eq_iff a.window b.window)

instance abbrev pub ObservationKey-comparable : Comparable ObservationKey
ObservationKey-comparable = record { same = same_key; same_iff = same_key_iff }

abbrev pub key_of : Observation → ObservationKey
key_of o = record { service = o.service; signal = o.signal; window = o.window }

-- The number of distinct observations, and of distinct services.
unfoldable pub unique_observations : List Observation → ℕ
unique_observations os = length (to_set (map key_of os))

unfoldable pub services_observed : List Observation → ℕ
services_observed os = length (to_set (map (λ (o : Observation). o.service) os))

unfoldable pub phase_keys : String → List Observation → ℕ
phase_keys phase os = unique_observations (keep (λ (o : Observation). str_eq o.phase phase) os)

-- The index of the first verification above the cursor that the test admits; `start` is the
-- index of the list's head.
abbrev pub next_index : (Verification → Bool) → List Verification → ℕ → ℕ → Option ℕ
next_index test [] start cursor = none
next_index test (v ∷ vs) start cursor =
    let rest = next_index test vs (start + 1) cursor in
    if leb cursor start && test v then some start else rest

-- What a step of the sequence asks of a verification.
abbrev pub fits : List String → String → Verification → Bool
fits successful mode v =
    str_eq (mode_name v.mode) mode && (not (contains mode successful) || v.passed)

-- `_verification_sequence_satisfied`; `cursor` is one more than in the source.
abbrev pub sequence_from : List String → List Verification → ℕ → List String → Bool
sequence_from successful vs cursor [] = true
sequence_from successful vs cursor (mode ∷ rest) =
    elim (next_index (fits successful mode) vs 0 cursor) [
      | none ↦ false
      | some found ↦ sequence_from successful vs (found + 1) rest
    ]

unfoldable pub sequence_satisfied : List String → List String → List Verification → Bool
sequence_satisfied sequence successful vs = sequence_from successful vs 0 sequence

abbrev pub phase_gaps : List Observation → Dict ℕ → List String
phase_gaps os [] = []
phase_gaps os ((phase, minimum) ∷ rest) =
    gap_if (ltb (phase_keys phase os) minimum) (
      "incident phase "
      <> phase
      <> " observations "
      <> decimal (phase_keys phase os)
      <> "/"
      <> decimal minimum)
    ++ phase_gaps os rest

abbrev pub decided : Director → List String
decided d = map (λ (x : Decision). x.ticket_id) d.decisions

abbrev pub verified : Director → List String
verified d = map (λ (v : Verification). mode_name v.mode) d.verifications

abbrev pub successful : Director → List String
successful d =
    map (λ (v : Verification). mode_name v.mode)
      (keep (λ (v : Verification). v.passed) d.verifications)

abbrev pub is_risky : ActionRecord → Bool
is_risky a = not (a.risk_delta == 0)

-- `completion_gaps`
unfoldable pub completion_gaps : Director → IncidentRequirements → List String
completion_gaps d r =
    if not r.enabled
    then []
    else (progress "incident logical progress " d.tick r.min_logical_ticks
        ++ (progress "distinct incident observations " (unique_observations d.observations)
              r.min_unique_observations
            ++ (progress "incident services observed " (services_observed d.observations)
                  r.min_services_observed
                ++ (phase_gaps d.observations r.phase_observations
                    ++ (missing "incident decision " (decided d) r.required_decisions
                        ++ (missing "incident verification mode " (verified d)
                              r.required_verification_modes
                            ++ (missing "successful incident verification mode " (successful d)
                                  r.required_successful_verification_modes
                                ++ (gap_if
                                      (is_nonempty r.required_verification_sequence
                                        && not (
                                            sequence_satisfied r.required_verification_sequence
                                              r.required_successful_verification_modes
                                              d.verifications))
                                      ("incident verification sequence "
                                        <> join " -> " r.required_verification_sequence)
                                    ++ gap_if
                                        (r.require_snapshot_before_risky_action
                                          && any
                                              (λ (a : ActionRecord).
                                                is_risky a && not a.snapshot_before)
                                              d.actions)
                                        "snapshot before every risky incident action"))))))))

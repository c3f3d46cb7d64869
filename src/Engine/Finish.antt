-- ===== src/Engine/Finish.antt =====
-- When the engine's contract is met (apps/api/app/runner/engine.py).
use the_evil_repository.Prelude.{
  All, Dict, List, Option, Some, String, String-comparable, [], arith, characters, contains, length,
  none, not, refl, some, true, ℕ, ◌<>◌, ◌↔◌, ◌∷◌, ◌≡◌, ◌≤◌,
}
use the_evil_repository.Completion.{
  Covers, append-eq-nil, contains_iff, gap_if, gap_if-eq-nil, missing-eq-nil, progress-eq-nil,
  ◌and◌,
}
use the_evil_repository.Engine.Guards.{Lexer}
use the_evil_repository.Engine.State.{Config, Engine, Outside}
use the_evil_repository.Engine.Milestones.{
  calls_of, completion_actions, substantive_tool_call_count,
}
use the_evil_repository.Engine.Gaps.{
  Contract, artifact_gaps, artifact_text, completion_gaps, director_gaps, rejected_count,
  source_gaps, source_types,
}
use the_evil_repository.Incident.Contract as IncidentContract
use the_evil_repository.Release.Contract as ReleaseContract
use the_evil_repository.Incident.State as IncidentState
use the_evil_repository.Release.State as ReleaseState
use the_evil_repository.Incident.Gaps as IncidentGaps
use the_evil_repository.Release.Audit as ReleaseAudit

-- Every artifact is long enough.
abbrev pub ArtifactsWritten : (String → String) → Dict ℕ → Type 0
ArtifactsWritten text_of [] = Unit
ArtifactsWritten text_of ((artifact, minimum) ∷ rest) =
    (minimum ≤ characters (text_of artifact)) × ArtifactsWritten text_of rest

-- A director that is there meets its own contract.
pub data IncidentMet (c : Contract) : Option IncidentState.Director → Type 0 where
  no_incident : IncidentMet c none
  incident_met :
      {d : IncidentState.Director}
      → IncidentContract.IsComplete d c.incident
      → IncidentMet c (some d)

pub data ReleaseMet (c : Contract) : Option ReleaseState.Director → Type 0 where
  no_release : ReleaseMet c none
  release_met :
      {d : ReleaseState.Director} → ReleaseContract.IsReleasable d c.release → ReleaseMet c (some d)

pub record IsFinished {W : Type 0} (outside : Outside W) (config : Config) (c : Contract)
    (e : Engine W) : Type 0 where
  pub worked : c.completion.min_tool_calls ≤ substantive_tool_call_count config (calls_of e.events)
  pub hypotheses : c.completion.min_hypotheses ≤ length e.store.hypotheses
  pub rejections : c.completion.min_rejected_hypotheses ≤ rejected_count e.store.revisions
  pub evidence : c.completion.min_evidence ≤ length e.store.evidence
  pub sources :
      All
        (λ s. Some (λ x. config.lexer.casefold s ≡ x) (source_types config.lexer e.store.evidence))
        c.completion.required_evidence_sources
  pub actions :
      Covers (completion_actions config.lexer (calls_of e.events)) c.completion.required_actions
  pub artifacts :
      ArtifactsWritten
        (artifact_text outside e.world c.patch_repository)
        c.completion.required_artifacts
  pub incident : IncidentMet c e.incident
  pub release : ReleaseMet c e.release

source_gaps-eq-nil :
    (lexer : Lexer) (present names : List String)
    → (source_gaps lexer present names ≡ [])
      ↔ All (λ s. Some (λ x. lexer.casefold s ≡ x) present) names
source_gaps-eq-nil lexer present [] = (λ _. tt, λ _. refl)
source_gaps-eq-nil lexer present (name ∷ rest) =
    let found = contains (lexer.casefold name) present in
    let split = append-eq-nil (gap_if (not found) _) (source_gaps lexer present rest) in
    let one = gap_if-eq-nil (not found) ("recorded " <> name <> " evidence") in
    let ih = source_gaps-eq-nil lexer present rest in
    (
      λ h. (
        (contains_iff (lexer.casefold name) present).0
            (let e = one.0 (split.0 h).0 in ground arith),
        ih.0 (split.0 h).1,
      ),
      λ c. split.1 (one.1 (rw ((contains_iff (lexer.casefold name) present).1 c.0)), ih.1 c.1),
    )

artifact_gaps-eq-nil :
    (text_of : String → String) (required : Dict ℕ)
    → (artifact_gaps text_of required ≡ []) ↔ ArtifactsWritten text_of required
artifact_gaps-eq-nil text_of [] = (λ _. tt, λ _. refl)
artifact_gaps-eq-nil text_of ((artifact, minimum) ∷ rest) =
    let ih = artifact_gaps-eq-nil text_of rest in
    let one =
      progress-eq-nil ("artifact " <> artifact <> " length ") (characters (text_of artifact))
        minimum in
    one and ih

incident-eq-nil :
    (c : Contract) (o : Option IncidentState.Director)
    → c.incident.enabled ≡ true
    → ((elim o [ none ↦ [] | some d ↦ IncidentGaps.completion_gaps d c.incident ]) ≡ [])
      ↔ IncidentMet c o
incident-eq-nil c none on = (λ _. no_incident, λ _. refl)
incident-eq-nil c (some d) on =
    let both = IncidentContract.completion_gaps-IsComplete d c.incident on in
    (λ h. incident_met (both.0 h), λ m. elim m [ incident_met h ↦ both.1 h ])

release-eq-nil :
    (c : Contract) (o : Option ReleaseState.Director)
    → c.release.enabled ≡ true
    → ((elim o [ none ↦ [] | some d ↦ ReleaseAudit.completion_gaps d c.release ]) ≡ [])
      ↔ ReleaseMet c o
release-eq-nil c none on = (λ _. no_release, λ _. refl)
release-eq-nil c (some d) on =
    let both = ReleaseContract.completion_gaps-IsReleasable d c.release on in
    (λ h. release_met (both.0 h), λ m. elim m [ release_met h ↦ both.1 h ])

-- With the requirements of the incident and of the release enabled, the engine reports no gap
-- exactly when enough substantive calls, hypotheses, rejected hypotheses and evidence are there,
-- each required source has evidence up to case folding, each required action was taken, each
-- artifact is long enough, and each director that is there meets its own contract.
pub completion_gaps-IsFinished :
    {W : Type 0} (outside : Outside W) (config : Config) (c : Contract) (e : Engine W)
    → c.incident.enabled ≡ true
    → c.release.enabled ≡ true
    → (completion_gaps outside config c e ≡ []) ↔ IsFinished outside config c e
unfolding completion_gaps director_gaps
completion_gaps-IsFinished outside config c e on_incident on_release =
    let r = c.completion in
    let calls = calls_of e.events in
    let parts =
      progress-eq-nil "substantive tool calls " (substantive_tool_call_count config calls)
        r.min_tool_calls
      and (progress-eq-nil "hypotheses " (length e.store.hypotheses) r.min_hypotheses
          and (progress-eq-nil "rejected hypotheses " (rejected_count e.store.revisions)
                r.min_rejected_hypotheses
              and (progress-eq-nil "evidence items " (length e.store.evidence) r.min_evidence
                  and (source_gaps-eq-nil config.lexer (source_types config.lexer e.store.evidence)
                        r.required_evidence_sources
                      and (missing-eq-nil "investigation action "
                            (completion_actions config.lexer calls) r.required_actions
                          and (artifact_gaps-eq-nil
                                (artifact_text outside e.world c.patch_repository)
                                r.required_artifacts
                              and (incident-eq-nil c e.incident on_incident
                                  and release-eq-nil c e.release on_release))))))) in
    (
      λ h.
          let (worked, (hs, (rejections, (items, (sources, (actions, (artifacts, (i, q)))))))) =
            parts.0 h in
          record {
            worked = worked;
            hypotheses = hs;
            rejections = rejections;
            evidence = items;
            sources = sources;
            actions = actions;
            artifacts = artifacts;
            incident = i;
            release = q;
          },
      λ f. parts.1 (
        f.worked,
        (
          f.hypotheses,
          (
            f.rejections,
            (f.evidence, (f.sources, (f.actions, (f.artifacts, (f.incident, f.release))))),
          ),
        ),
      ),
    )

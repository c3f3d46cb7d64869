-- ===== src/Engine/Gaps.antt =====
-- `_completion_gaps`: what the completion contract of the scenario still asks for
-- (apps/api/app/runner/engine.py, and `CompletionRequirements` of apps/api/app/scenario/sdk.py).
use the_evil_repository.Prelude.{
  Bool, Dict, List, String, String-comparable, [], characters, contains, false, if◌then◌else◌,
  is_empty, keep, length, map, none, not, some, to_set, true, ℕ, ◌&&◌, ◌++◌, ◌<>◌, ◌∷◌,
}
use the_evil_repository.Completion.{gap_if, missing, progress}
use the_evil_repository.Investigation.Store.{Evidence, Revision, rejected}
use the_evil_repository.Engine.Guards.{Lexer}
use the_evil_repository.Engine.State.{Config, Engine, Outside}
use the_evil_repository.Engine.Milestones.{
  calls_of, completion_actions, substantive_tool_call_count,
}
use the_evil_repository.Incident.Gaps as IncidentGaps
use the_evil_repository.Release.Audit as ReleaseAudit

pub record CompletionRequirements : Type 0 where
  pub min_tool_calls : ℕ
  pub min_hypotheses : ℕ
  pub min_rejected_hypotheses : ℕ
  pub min_evidence : ℕ
  pub required_evidence_sources : List String
  pub required_actions : List String
  pub required_artifacts : Dict ℕ

-- What the engine reads of the scenario's metadata for its completion.
pub record Contract : Type 0 where
  pub completion : CompletionRequirements
  pub patch_repository : String
  pub incident : IncidentGaps.IncidentRequirements
  pub release : ReleaseAudit.ReleaseRequirements

abbrev pub is_rejected : Revision → Bool
is_rejected r = elim r.content.status [ rejected ↦ true | _ ↦ false ]

-- `count(distinct hypothesis_id)` of the rejecting revisions
unfoldable pub rejected_count : List Revision → ℕ
rejected_count rs = length (to_set (map (λ (r : Revision). r.hypothesis_key) (keep is_rejected rs)))

abbrev pub source_types : Lexer → Dict Evidence → List String
source_types lexer [] = []
source_types lexer ((key, e) ∷ rest) = lexer.casefold e.source_type ∷ source_types lexer rest

abbrev pub source_gaps : Lexer → List String → List String → List String
source_gaps lexer present [] = []
source_gaps lexer present (source ∷ rest) =
    gap_if (not (contains (lexer.casefold source) present)) ("recorded " <> source <> " evidence")
    ++ source_gaps lexer present rest

abbrev pub artifact_gaps : (String → String) → Dict ℕ → List String
artifact_gaps text_of [] = []
artifact_gaps text_of ((artifact, minimum) ∷ rest) =
    progress ("artifact " <> artifact <> " length ") (characters (text_of artifact)) minimum
    ++ artifact_gaps text_of rest

module _ {W : Type 0} where
  -- The artifact's text, from the patch repository if it is not in the workspace.
  unfoldable pub artifact_text : Outside W → W → String → String → String
  artifact_text outside w patch_repository artifact =
      let content = outside.collect_text w artifact in
      if is_empty content && not (is_empty patch_repository)
      then outside.collect_text w (patch_repository <> "/" <> artifact)
      else content

  unfoldable pub director_gaps : Contract → Engine W → List String
  director_gaps c e =
      (elim e.incident [ none ↦ [] | some d ↦ IncidentGaps.completion_gaps d c.incident ])
      ++ (elim e.release [ none ↦ [] | some d ↦ ReleaseAudit.completion_gaps d c.release ])

  -- `_completion_gaps`
  unfoldable pub completion_gaps : Outside W → Config → Contract → Engine W → List String
  completion_gaps outside config c e =
      let r = c.completion in
      let calls = calls_of e.events in
      progress "substantive tool calls " (substantive_tool_call_count config calls) r.min_tool_calls
      ++ (progress "hypotheses " (length e.store.hypotheses) r.min_hypotheses
          ++ (progress "rejected hypotheses " (rejected_count e.store.revisions)
                r.min_rejected_hypotheses
              ++ (progress "evidence items " (length e.store.evidence) r.min_evidence
                  ++ (source_gaps config.lexer (source_types config.lexer e.store.evidence)
                        r.required_evidence_sources
                      ++ (missing "investigation action " (completion_actions config.lexer calls)
                            r.required_actions
                          ++ (artifact_gaps (artifact_text outside e.world c.patch_repository)
                                r.required_artifacts
                              ++ director_gaps c e))))))

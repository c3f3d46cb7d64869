-- ===== src/Release/Inspect.antt =====
-- `_resolve`, `_observation_result`, `_registry_inspect` and `_provenance_query` of
-- `ReleaseDirector` (apps/api/app/scenario/release.py).
use the_evil_repository.Prelude.{
  Bool, List, Option, String, String-comparable, [], contains, has_key, if◌then◌else◌, keep, length,
  lookup, map, none, not, padded, some, str_eq, strip, ◌&&◌, ◌++◌, ◌+◌, ◌<>◌, ◌||◌, ◌∷◌,
}
use the_evil_repository.Protocol.{
  Fields, Host, ToolCall, ToolResult, argument, array, end, field, merge, num, object, objects,
  text,
}
use the_evil_repository.Release.State.{Artifact, Director, Labels, Provenance, TagEvent}
use the_evil_repository.Release.Clock.{error_result, json_result, logical_time, phase}

-- What a handler does: it answers, or it raises KeyError at a key that a dict of the plan lacks.
pub data Reply : Type 0 where
  replied : ToolResult → Reply
  key_error : String → Reply

-- `_resolve`
unfoldable pub resolve : Director → String → Option String
resolve d reference =
    if has_key reference d.artifacts then some reference else elim (lookup reference d.tags) [
      | none ↦ none
      | some digest ↦ if has_key digest d.artifacts then some digest else none
    ]

unfoldable pub next_observation_id : Director → String
next_observation_id d = "rel-obs-" <> padded 4 (length d.observations + 1)

unfoldable pub observed : Director → String → String → Director
observed d kind key = record d {
  observations =
      d.observations
      ++ record {
        observation_id = next_observation_id d;
        observation_key = kind <> ":" <> key;
        kind = kind;
        tick = d.tick;
        phase = phase d;
      }
        ∷ [];
}

-- `_observation_result`
unfoldable pub observation_result :
    Director → ToolCall → String → String → Fields → Director × Reply
observation_result d call kind key payload = (
  observed d kind key,
  replied (
      json_result call
        (field "observation_id" (text (next_observation_id d))
          (field "logical_time" (text (logical_time d)) payload))
        (field "release_kind" (text "observation") (
          field "release_observation_id" (text (next_observation_id d)) (
            field "release_observation_type" (text kind)
              (field "release_observation_key" (text (kind <> ":" <> key)) end))))),
)

abbrev pub failed : Director → ToolCall → String → Director × Reply
failed d call reason = (d, replied (error_result call reason))

abbrev pub registry_views : List String
registry_views = "manifest" ∷ "config" ∷ "layers" ∷ "tag_history" ∷ []

abbrev pub tag_events : String → String → List TagEvent → List Fields
tag_events reference digest [] = []
tag_events reference digest (e ∷ rest) =
    let later = tag_events reference digest rest in
    if str_eq e.reference reference || str_eq e.digest digest then e.body ∷ later else later

abbrev pub label_fields : Labels → Fields
label_fields l =
    field "source_revision" (text l.source_revision)
      (field "ci_conclusion" (text l.ci_conclusion) l.others)

unfoldable pub registry_payload : Director → String → String → String → Artifact → Fields
registry_payload d view reference digest a =
    merge (field "reference" (text reference) (field "resolved_digest" (text digest) end)) (
      if str_eq view "manifest"
      then field "media_type" (text "application/vnd.oci.image.manifest.v1+json") (
          field "platform" a.platform (field "size" a.size (field "annotations" a.annotations end)))
      else (if str_eq view "config"
          then field "created" a.created (
              field "labels" (object (label_fields a.labels)) (field "entrypoint" a.entrypoint end))
          else (if str_eq view "layers"
              then field "layers" a.layers (field "diff_ids" a.diff_ids end)
              else field "events" (array (objects (tag_events reference digest d.plan.tag_history)))
                  (field "warning"
                    (text
                      "Registry event clocks come from different runners and are not globally ordered.")
                    end))))

-- `_registry_inspect`
unfoldable pub registry_inspect : Host → Director → ToolCall → Director × Reply
registry_inspect host d call =
    let reference = strip (argument call "reference" "") in
    let view = host.casefold (strip (argument call "view" "")) in
    if not (contains view registry_views)
    then failed d call ("Unsupported registry view: " <> view)
    else elim (resolve d reference) [
      | none ↦ failed d call ("Unknown offline registry reference: " <> reference)
      | some digest ↦ elim (lookup digest d.artifacts) [
        | none ↦ (d, key_error digest)
        | some a ↦
            observation_result d call "registry" (reference <> ":" <> view)
              (registry_payload d view reference digest a)
      ]
    ]

abbrev pub provenance_matches : String → String → Provenance → Bool
provenance_matches subject predicate_type e =
    (str_eq subject e.subject || str_eq subject e.build_id || str_eq subject e.source_commit)
    && (str_eq predicate_type "all" || str_eq predicate_type e.predicate_type)

-- `_provenance_query`
unfoldable pub provenance_query : Director → ToolCall → Director × Reply
provenance_query d call =
    let subject = strip (argument call "subject" "") in
    let predicate_type = strip (argument call "predicate_type" "all") in
    let entries = keep (provenance_matches subject predicate_type) d.plan.provenance in
    observation_result d call "provenance" (subject <> ":" <> predicate_type) (
      field "subject" (text subject) (
        field "predicate_type" (text predicate_type) (
          field "entries" (array (objects (map (λ (e : Provenance). e.body) entries))) (
            field "count" (num (length entries)) (
              field "notice"
                (text
                  "Presence in the transparency export proves inclusion, not that the subject, builder, signer or source claim is trusted.")
                end)))))

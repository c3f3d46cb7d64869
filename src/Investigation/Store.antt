-- ===== src/Investigation/Store.antt =====
-- The tables of one run and the functions that write them (apps/api/app/investigation.py). A row's
-- key stands for its generated id, and the times of creation are left out.
use the_evil_repository.Prelude.{
  Bool, Dict, List, Option, String, [], characters, has_key, if◌then◌else◌, is_some, lookup, max,
  min, none, not, put, some, str_eq, ℕ, ◌++◌, ◌+◌, ◌<>◌, ◌∷◌,
}
use the_evil_repository.Protocol.{Host, Number, below, millionths}

pub data HypothesisStatus : Type 0 where
  proposed testing supported rejected confirmed : HypothesisStatus

pub data EvidenceRelation : Type 0 where
  supports contradicts derived_from supersedes corroborates : EvidenceRelation

-- `HypothesisStatus(status)` and `EvidenceRelation(relation)`
abbrev pub statuses : Dict HypothesisStatus
statuses =
    ("proposed", proposed)
    ∷ ("testing", testing)
    ∷ ("supported", supported)
    ∷ ("rejected", rejected)
    ∷ ("confirmed", confirmed)
    ∷ []

abbrev pub relations : Dict EvidenceRelation
relations =
    ("supports", supports)
    ∷ ("contradicts", contradicts)
    ∷ ("derived_from", derived_from)
    ∷ ("supersedes", supersedes)
    ∷ ("corroborates", corroborates)
    ∷ []

-- `status.value`
abbrev pub status_name : HypothesisStatus → String
status_name proposed = "proposed"
status_name testing = "testing"
status_name supported = "supported"
status_name rejected = "rejected"
status_name confirmed = "confirmed"

-- The content that a hypothesis and each of its revisions have in common. A confidence is in
-- millionths.
pub record Hypothesis : Type 0 where
  pub statement : String
  pub status : HypothesisStatus
  pub confidence : ℕ
  pub next_action : Option String

pub record Revision : Type 0 where
  pub hypothesis_key : String
  pub sequence : ℕ
  pub content : Hypothesis
  pub reason : Option String

pub record Evidence : Type 0 where
  pub source_type : String
  pub source_ref : String
  pub summary : String
  pub trust : ℕ
  pub content_hash : String

pub record EvidenceEdge : Type 0 where
  pub source_type : String
  pub source_key : String
  pub target_type : String
  pub target_key : String
  pub relation : EvidenceRelation
  pub weight : Number
  pub explanation : Option String

-- What `append_event` is given.
pub data Note : Type 0 where
  hypothesis_note : Revision → Bool → Option Hypothesis → Note
  evidence_note : String → Evidence → ℕ → Note
  edge_note : EvidenceEdge → Note

-- The rows of one run: the keys of hypotheses and of evidence are unique.
pub record Store : Type 0 where
  pub hypotheses : Dict Hypothesis
  pub revisions : List Revision
  pub evidence : Dict Evidence
  pub edges : List EvidenceEdge
  pub notes : List Note

abbrev pub empty_store : Store
empty_store = record { hypotheses = []; revisions = []; evidence = []; edges = []; notes = [] }

-- A ValueError with its text, or the store after.
pub data Attempt : Type 0 where
  value_error : String → Attempt
  stored : Store → Attempt

-- `max(0, min(float(x), 1))`
abbrev pub clamped_unit : Number → ℕ
clamped_unit (millionths n) = min n 1000000
clamped_unit (below n) = 0

-- `max(-1, min(float(x), 1))`
abbrev pub clamped_weight : Number → Number
clamped_weight (millionths n) = millionths (min n 1000000)
clamped_weight (below n) = below (min n 999999)

-- `select(func.max(HypothesisRevision.sequence))`, or 0
abbrev pub max_sequence : String → List Revision → ℕ
max_sequence key [] = 0
max_sequence key (r ∷ rest) =
    let later = max_sequence key rest in
    if str_eq r.hypothesis_key key then max r.sequence later else later

abbrev pub write_hypothesis : Store → String → Hypothesis → Option String → Store
write_hypothesis s key content reason =
    let revision : Revision = record {
      hypothesis_key = key;
      sequence = 1 + max_sequence key s.revisions;
      content = content;
      reason = reason;
    } in
    let previous = lookup key s.hypotheses in
    record s {
      hypotheses = put key content s.hypotheses;
      revisions = s.revisions ++ revision ∷ [];
      notes = s.notes ++ hypothesis_note revision (not (is_some previous)) previous ∷ [];
    }

-- `record_hypothesis`
unfoldable pub record_hypothesis :
    Store → String → String → String → Number → Option String → Option String → Attempt
record_hypothesis s key statement status confidence next_action reason =
    elim (lookup status statuses) [
      | none ↦ value_error ("'" <> status <> "' is not a valid HypothesisStatus")
      | some parsed ↦ stored (
          write_hypothesis s key
            (record {
              statement = statement;
              status = parsed;
              confidence = clamped_unit confidence;
              next_action = next_action;
            })
            reason)
    ]

-- `record_evidence`
unfoldable pub record_evidence : Host → Store → String → String → String → String → Number → Attempt
record_evidence host s key source_type source_ref summary trust =
    if has_key key s.evidence
    then value_error ("Evidence key already exists: " <> key)
    else (let item : Evidence = record {
      source_type = source_type;
      source_ref = source_ref;
      summary = summary;
      trust = clamped_unit trust;
      content_hash = host.sha256 summary;
    } in
        stored (record s {
          evidence = put key item s.evidence;
          notes = s.notes ++ evidence_note key item (characters summary) ∷ [];
        }))

-- `link_evidence`
unfoldable pub link_evidence :
    Store → String → String → String → String → String → Number → Option String → Attempt
link_evidence s source_type source_key target_type target_key relation weight explanation =
    elim (lookup relation relations) [
      | none ↦ value_error ("'" <> relation <> "' is not a valid EvidenceRelation")
      | some parsed ↦
          let edge : EvidenceEdge = record {
            source_type = source_type;
            source_key = source_key;
            target_type = target_type;
            target_key = target_key;
            relation = parsed;
            weight = clamped_weight weight;
            explanation = explanation;
          } in
          stored (record s { edges = s.edges ++ edge ∷ []; notes = s.notes ++ edge_note edge ∷ [] })
    ]

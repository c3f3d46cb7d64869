-- ===== src/Release/State.antt =====
-- The plan and the state of `ReleaseDirector` (apps/api/app/scenario/release.py). Artifact fields
-- that the director only passes on are JSON values.
use the_evil_repository.Prelude.{Bool, Dict, List, Option, String, ℕ}
use the_evil_repository.Protocol.{Fields, Json, Number}
use the_evil_repository.Timeline.{Phase}

pub record Labels : Type 0 where
  pub source_revision : String
  pub ci_conclusion : String
  pub others : Fields

pub record Artifact : Type 0 where
  pub digest : String
  pub build_id : String
  pub platform : Json
  pub size : Json
  pub annotations : Json
  pub created : Json
  pub labels : Labels
  pub entrypoint : Json
  pub layers : Json
  pub diff_ids : Json
  pub source_commit : String
  pub runtime_source_commit : String
  pub base_digest : String
  pub cache_mode : String
  pub builder : String
  pub signer : String
  pub key_id : String
  pub signature_valid : Bool
  pub active_keyring_match : Bool
  pub active_policy_override : Option Bool
  pub subject_digest_bound : Bool
  pub trusted_signer : Bool
  pub transparency_inclusion : Bool
  pub sbom_subject_bound : Bool
  pub runtime_contract : String
  pub runtime_fingerprint : String

pub record Ticket : Type 0 where
  pub title : String
  pub reported_by : String
  pub reported_at : String
  pub severity_claim : String
  pub visible_at : Option ℕ
  pub accepted_dispositions : List String
  pub accepted_actions : List String

-- An entry of the transparency export; `body` is the whole entry.
pub record Provenance : Type 0 where
  pub subject : String
  pub build_id : String
  pub source_commit : String
  pub predicate_type : String
  pub body : Fields

pub record TagEvent : Type 0 where
  pub reference : String
  pub digest : String
  pub body : Fields

-- `none` where the plan has no such key. A plan that lists phases lists at least one.
pub record Plan : Type 0 where
  pub seed : ℕ
  pub horizon_ticks : Option ℕ
  pub logical_tick_seconds : Option ℕ
  pub action_budget : Option ℕ
  pub snapshot_budget : Option ℕ
  pub rebuild_budget : Option ℕ
  pub replay_after_canary_ticks : Option ℕ
  pub soak_after_replay_ticks : Option ℕ
  pub soak_min_tick : Option ℕ
  pub artifacts : Dict Artifact
  pub tags : Dict String
  pub initial_deployment_digest : String
  pub last_good_digest : String
  pub bad_digest : String
  pub acceptable_digests : List String
  pub clean_rebuild_digest : String
  pub clean_rebuild_artifact : Artifact
  pub production_reference : String
  pub trusted_source_commit : String
  pub trusted_base_digest : String
  pub trusted_builder : String
  pub trusted_signer : String
  pub expected_runtime_contract : String
  pub verifier_versions : Dict String
  pub topology_id : Option String
  pub provenance : List Provenance
  pub tag_history : List TagEvent
  pub phases : Option (Phase × List Phase)
  pub tickets : Dict Ticket

pub record ReleaseSnapshot : Type 0 where
  pub snapshot_id : String
  pub tick : ℕ
  pub deployment_digest : String
  pub paused : Bool
  pub quarantined : List String
  pub evidence_preserved : Bool
  pub risk : ℕ
  pub integrity : ℕ

-- The actions of the policy table in `_action`.
pub data Action : Type 0 where
  preserve_evidence pause_rollout quarantine_digest clean_rebuild promote_digest rollback_to_digest
        retag_in_place clear_shared_cache disable_signature_policy patch_source :
      Action

pub record ActionRecord : Type 0 where
  pub tick : ℕ
  pub action : Action
  pub target : String
  pub reason : String
  pub parameters : Dict String
  pub evidence_keys : List String
  pub verified_evidence_keys : List String
  pub unsupported : Bool
  pub unsafe : Bool
  pub irreversible : Bool
  pub snapshot_before : Bool
  pub risk_delta : ℕ
  pub integrity_cost : ℕ
  pub denied : Bool
  pub generated_digest : Option String

pub record Observation : Type 0 where
  pub observation_id : String
  pub observation_key : String
  pub kind : String
  pub tick : ℕ
  pub phase : String

pub record Decision : Type 0 where
  pub tick : ℕ
  pub ticket_id : String
  pub disposition : String
  pub recommended_action : String
  pub confidence : Number
  pub evidence_keys : List String
  pub verified_evidence_keys : List String
  pub revision : ℕ

pub data Mode : Type 0 where
  baseline quick provenance canary replay soak : Mode

pub record Verification : Type 0 where
  pub tick : ℕ
  pub mode : Mode
  pub passed : Bool
  pub samples : ℕ
  pub failures : ℕ
  pub deployment_digest : String

pub record Director : Type 0 where
  pub plan : Plan
  pub seed : ℕ
  pub tick : ℕ
  pub horizon : ℕ
  pub logical_tick_seconds : ℕ
  pub artifacts : Dict Artifact
  pub tags : Dict String
  pub initial_digest : String
  pub deployment_digest : String
  pub paused : Bool
  pub evidence_preserved : Bool
  pub quarantined : List String
  pub signature_policy_bypass_attempted : Bool
  pub risk : ℕ
  pub integrity : ℕ
  pub snapshot_budget : ℕ
  pub rebuild_budget : ℕ
  pub action_budget : ℕ
  pub snapshots : Dict ReleaseSnapshot
  pub actions : List ActionRecord
  pub observations : List Observation
  pub decisions : List Decision
  pub verifications : List Verification
  pub activated : List String
  pub irreversible_used : Bool
  pub recovery_verified : Bool

-- ===== src/Incident/State.antt =====
-- The plan and the state of `IncidentDirector` (apps/api/app/scenario/incident.py, lines 39 to 77).
-- SLO values and the error budget are floats with two decimals there: here they are hundredths.
use the_evil_repository.Prelude.{Bool, Dict, List, Option, String, ℕ}
use the_evil_repository.Timeline.{Phase}
use the_evil_repository.Protocol.{Number}

pub record Ticket : Type 0 where
  pub title : String
  pub reported_by : String
  pub reported_at : String
  pub severity_claim : String
  pub visible_at : Option ℕ
  pub accepted_dispositions : List String
  pub accepted_actions : List String
  pub min_evidence : Option ℕ

pub record Service : Type 0 where
  pub mode : String
  pub active_at : Option ℕ
  pub collector : String
  pub clock_domain : String

-- `none` where the plan has no such key. A plan that lists phases lists at least one.
pub record Plan : Type 0 where
  pub seed : ℕ
  pub horizon_ticks : Option ℕ
  pub logical_tick_seconds : Option ℕ
  pub action_budget : Option ℕ
  pub snapshot_budget : Option ℕ
  pub slo_target : Option ℕ
  pub real_fault_active_at : Option ℕ
  pub replay_after_canary_ticks : Option ℕ
  pub soak_after_replay_ticks : Option ℕ
  pub soak_min_tick : Option ℕ
  pub phases : Option (Phase × List Phase)
  pub tickets : Dict Ticket
  pub services : Dict Service

pub record Snapshot : Type 0 where
  pub snapshot_id : String
  pub tick : ℕ
  pub risk : ℕ
  pub data_integrity : ℕ
  pub mitigations : List String
  pub evidence_preserved : Bool

-- The actions of the policy table in `_action`.
pub data Action : Type 0 where
  preserve_evidence quarantine_consumer pause_rollout isolate_replica acknowledge_no_change
        mark_patch_ready restart_service drain_queue rollback_release promote_v3 disable_validation
        grant_world_write mount_host_socket :
      Action

-- What the field "action" of an entry in `actions` names.
pub data Recorded : Type 0 where
  performed : Action → Recorded
  rollback : Recorded

pub record ActionRecord : Type 0 where
  pub tick : ℕ
  pub action : Recorded
  pub target : String
  pub reason : String
  pub evidence_keys : List String
  pub verified_evidence_keys : List String
  pub unsupported : Bool
  pub risk_delta : ℕ
  pub data_cost : ℕ
  pub unsafe : Bool
  pub irreversible : Bool
  pub denied : Bool
  pub snapshot_before : Bool

pub record Observation : Type 0 where
  pub observation_id : String
  pub tick : ℕ
  pub phase : String
  pub service : String
  pub signal : String
  pub window : String

pub record Decision : Type 0 where
  pub tick : ℕ
  pub ticket_id : String
  pub disposition : String
  pub recommended_action : String
  pub confidence : Number
  pub evidence_keys : List String
  pub verified_evidence_keys : List String
  pub revision : ℕ

pub data Mode : Type 0 where
  baseline quick canary replay soak : Mode

pub record Verification : Type 0 where
  pub tick : ℕ
  pub mode : Mode
  pub samples : ℕ
  pub failures : ℕ
  pub passed : Bool
  pub patch_valid : Bool
  pub scope_valid : Bool

pub record Director : Type 0 where
  pub plan : Plan
  pub seed : ℕ
  pub tick : ℕ
  pub horizon : ℕ
  pub logical_tick_seconds : ℕ
  pub error_budget : ℕ
  pub risk : ℕ
  pub data_integrity : ℕ
  pub evidence_preserved : Bool
  pub action_budget : ℕ
  pub snapshot_budget : ℕ
  pub actions : List ActionRecord
  pub observations : List Observation
  pub decisions : List Decision
  pub verifications : List Verification
  pub snapshots : Dict Snapshot
  pub mitigations : List String
  pub slo_samples : List ℕ
  pub activated : List String
  pub irreversible_used : Bool
